-- ===== src/Tests/Search.antt =====
-- The theorems on finding a monitor, reading Secrets and the finalizer at concrete inputs.
use mathlib.Core.List.{Mem}
use mackerel_operator.Prelude.{◌≡◌, refl, none, some, [], ◌∷◌, codes, strip_prefix}
use mackerel_operator.Prelude.Outcome.{ok}
use mackerel_operator.Monitor.{ActualExternalMonitor}
use mackerel_operator.Ownership.Pattern.{find_submatch, match_here}
use mackerel_operator.Ownership.Marker.{parse_marker}
use mackerel_operator.Controller.Find.{marks, scan_actuals}
use mackerel_operator.Controller.Find.Laws.{IsCandidate, scan_actuals-Mem}
use mackerel_operator.Controller.Reconcile.Upsert.{reconcile_upsert}
use mackerel_operator.Controller.Reconcile.Order.{
  FinalizerFirst, has_finalizer, reconcile_upsert-FinalizerFirst,
}
use mackerel_operator.Tests.Instances.{sample_libraries}
use mackerel_operator.Tests.Samples.{shop, shop_desired, old_shop, sync_reconciler}
use mackerel_operator.Tests.Markers.{plain_memo}

abbrev other_monitor : ActualExternalMonitor
other_monitor = record (old_shop plain_memo) { name = codes "blog" }

scan-named :
    scan_actuals shop_desired (other_monitor ∷ old_shop plain_memo ∷ []) none
    ≡ ok (some (old_shop plain_memo))
unfolding scan_actuals marks parse_marker find_submatch match_here strip_prefix
scan-named = refl

scan_actuals-Mem_example :
    Mem (old_shop plain_memo) (other_monitor ∷ old_shop plain_memo ∷ [])
    × IsCandidate shop_desired (old_shop plain_memo)
scan_actuals-Mem_example =
    scan_actuals-Mem shop_desired (other_monitor ∷ old_shop plain_memo ∷ []) (old_shop plain_memo)
      scan-named

scan-nothing : scan_actuals shop_desired (other_monitor ∷ []) none ≡ ok none
unfolding scan_actuals marks parse_marker find_submatch match_here strip_prefix
scan-nothing = refl

reconcile_upsert-FinalizerFirst_example :
    FinalizerFirst
      (has_finalizer sample_libraries)
      (λ _. Unit {0})
      (reconcile_upsert sample_libraries sync_reconciler shop)
reconcile_upsert-FinalizerFirst_example =
    reconcile_upsert-FinalizerFirst sample_libraries sync_reconciler shop refl
