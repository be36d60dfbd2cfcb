-- ===== src/Tests/Creation.antt =====
-- The theorem on the reconciliation that creates the monitor at a concrete resource.
use mackerel_operator.Prelude.{◌≡◌, ◌++◌, refl, [], ◌∷◌, codes, All}
use mackerel_operator.Prelude.Int.{ℤ}
use mackerel_operator.Prelude.Outcome.{ok, err}
use mackerel_operator.Ownership.Marker.{apply_marker}
use mackerel_operator.Program
use mackerel_operator.Program.{Call, Answer, got}
use mackerel_operator.Program.Runs.{result_of, calls_of}
use mackerel_operator.Provider.Client.{MonitorExternalHttp, external, other_monitor, replied}
use mackerel_operator.Provider.Operations.{external_monitors}
use mackerel_operator.Provider.Convert.{
  new_base, uint64_from_int_ptr, float64_ptr_from_int_ptr, uint64_ptr_from_int_ptr,
  merge_mackerel_external_monitor,
}
use mackerel_operator.Controller.Settings.{requeue}
use mackerel_operator.Controller.Secrets.{resolve_header_values}
use mackerel_operator.Controller.Find.Laws.{IsCandidate}
use mackerel_operator.Controller.Reconcile.{reconcile}
use mackerel_operator.Controller.Reconcile.Upsert.{marker_of}
use mackerel_operator.Provider.Client.{stored}
use mackerel_operator.Controller.Reconcile.Convergence.{after_write}
use mackerel_operator.Controller.Reconcile.Creation.{reconcile-creates}
use mackerel_operator.Tests.Answers.{nothing, answers_of}
use mackerel_operator.Tests.Convergence.{kept_shop, kept_shop-IsWritable, no_secrets}
use mackerel_operator.Tests.Desired.{made_desired}
use mackerel_operator.Tests.Instances.{sample_libraries, sample_float64}
use mackerel_operator.Tests.Samples.{empty_status, sync_reconciler}

unfoldable formed : MonitorExternalHttp ℤ
unfolding merge_mackerel_external_monitor apply_marker
formed =
    elim (merge_mackerel_external_monitor sample_float64 (new_base sample_float64) made_desired
      (apply_marker made_desired.memo (marker_of made_desired))) [
        | ok p ↦ p
        | err e ↦ new_base sample_float64
      ]

made-formed :
    merge_mackerel_external_monitor sample_float64
      (new_base sample_float64)
      made_desired
      (apply_marker made_desired.memo (marker_of made_desired))
    ≡ ok formed
unfolding formed made_desired uint64_from_int_ptr float64_ptr_from_int_ptr uint64_ptr_from_int_ptr
made-formed = refl

-- A service with a monitor of another type only, which accepts the new monitor as "m1".
abbrev sample_answers : (c : Call ℤ) → Answer c
sample_answers = answers_of (record nothing {
  resource = got kept_shop;
  secret = no_secrets;
  monitors = replied (other_monitor (codes "host") ∷ []);
  created = replied (external (stored formed (codes "m1")));
  status = got tt;
})

none_listed :
    All
      (λ a. ¬ IsCandidate made_desired a)
      (external_monitors sample_float64 (other_monitor (codes "host") ∷ []))
unfolding external_monitors
none_listed = tt

reconcile-creates_example :
    (result_of sample_answers
        (reconcile sample_libraries sync_reconciler (codes "team") (codes "shop"))
      ≡ requeue)
    × (calls_of sample_answers
          (reconcile sample_libraries sync_reconciler (codes "team") (codes "shop"))
        ≡ Program.get_resource (codes "team") (codes "shop")
            ∷ calls_of sample_answers (resolve_header_values kept_shop)
          ++ Program.find_monitors
            ∷ Program.create_monitor formed
            ∷ Program.now
            ∷ Program.patch_status kept_shop
                (after_write sample_libraries sync_reconciler kept_shop no_secrets [] made_desired
                  (stored formed (codes "m1"))
                  6).status
            ∷ [])
reconcile-creates_example =
    reconcile-creates sample_libraries sync_reconciler kept_shop [] made_desired sample_answers
      (kept_shop-IsWritable empty_status) refl formed (codes "m1") (λ e. cc) made-formed refl refl
      (other_monitor (codes "host") ∷ []) refl none_listed (codes "team") (codes "shop") refl
