-- ===== src/Tests/Renewal.antt =====
-- The theorem on the repair of a monitor at a concrete resource.
use mackerel_operator.Prelude.{
  ◌≡◌, ◌++◌, refl, ap, arith, some, [], ◌∷◌, codes, nat_eq, list_eq, inl,
}
use mackerel_operator.Prelude.Int.{ℤ}
use mackerel_operator.Prelude.Outcome.{ok, err}
use mackerel_operator.Api.{ExternalMonitor, ExternalMonitorStatus}
use mackerel_operator.Ownership.Marker.{apply_marker}
use mackerel_operator.Ownership.Marker.Laws.{parse-build}
use mackerel_operator.Planner.{plan, plan_marked, update}
use mackerel_operator.Program
use mackerel_operator.Program.{Call, Answer, got}
use mackerel_operator.Program.Runs.{result_of, calls_of}
use mackerel_operator.Provider.Client.{MonitorExternalHttp, external, replied}
use mackerel_operator.Provider.Convert.{
  uint64_from_int_ptr, float64_ptr_from_int_ptr, uint64_ptr_from_int_ptr,
  merge_mackerel_external_monitor, actual_external_monitor_from_mackerel,
}
use mackerel_operator.Controller.Settings.{requeue}
use mackerel_operator.Controller.Secrets.{resolve_header_values}
use mackerel_operator.Controller.Reconcile.{reconcile}
use mackerel_operator.Controller.Reconcile.Upsert.{marker_of}
use mackerel_operator.Provider.Client.{stored}
use mackerel_operator.Controller.Reconcile.Convergence.{after_write}
use mackerel_operator.Controller.Reconcile.Renewal.{reconcile-repairs}
use mackerel_operator.Tests.Answers.{nothing, answers_of}
use mackerel_operator.Tests.Convergence.{kept_shop, kept_shop-IsWritable, no_secrets}
use mackerel_operator.Tests.Desired.{made_desired}
use mackerel_operator.Tests.Instances.{sample_libraries, sample_float64}
use mackerel_operator.Tests.Markers.{shop_marker-IsMarker}
use mackerel_operator.Tests.Removal.{owned_payload}
use mackerel_operator.Tests.Samples.{empty_status, shop_marker, sync_reconciler}

abbrev known_status : ExternalMonitorStatus
known_status = record empty_status { monitor_id = codes "m1"; last_synced_at = some 5 }

abbrev known_shop : ExternalMonitor
known_shop = record kept_shop { status = known_status }

-- The marker of the monitor has a stale hash.
updates :
    (plan (record {
      desired = made_desired;
      actual = some (actual_external_monitor_from_mackerel sample_float64 owned_payload);
    })).action
    ≡ update
unfolding plan made_desired actual_external_monitor_from_mackerel
updates =
    ap
      (λ o.
        (plan_marked made_desired
          (actual_external_monitor_from_mackerel sample_float64 owned_payload) o).action)
      (parse-build shop_marker shop_marker-IsMarker)

unfoldable merged : MonitorExternalHttp ℤ
unfolding merge_mackerel_external_monitor apply_marker
merged =
    elim (merge_mackerel_external_monitor sample_float64 owned_payload made_desired
      (apply_marker owned_payload.memo (marker_of made_desired))) [
        | ok p ↦ p
        | err e ↦ owned_payload
      ]

made-merged :
    merge_mackerel_external_monitor sample_float64 owned_payload made_desired
      (apply_marker owned_payload.memo (marker_of made_desired))
    ≡ ok merged
unfolding merged made_desired uint64_from_int_ptr float64_ptr_from_int_ptr uint64_ptr_from_int_ptr
made-merged = refl

abbrev sample_answers : (c : Call ℤ) → Answer c
sample_answers = answers_of (record nothing {
  resource = got known_shop;
  secret = no_secrets;
  monitor = replied (external owned_payload);
  updated = replied (external (stored merged (codes "m1")));
  status = got tt;
})

reconcile-repairs_example :
    (result_of sample_answers
        (reconcile sample_libraries sync_reconciler (codes "team") (codes "shop"))
      ≡ requeue)
    × (calls_of sample_answers
          (reconcile sample_libraries sync_reconciler (codes "team") (codes "shop"))
        ≡ Program.get_resource (codes "team") (codes "shop")
            ∷ calls_of sample_answers (resolve_header_values known_shop)
          ++ Program.get_monitor (codes "m1")
            ∷ Program.get_monitor (codes "m1")
            ∷ Program.update_monitor (codes "m1") merged
            ∷ Program.now
            ∷ Program.patch_status known_shop
                (after_write sample_libraries sync_reconciler known_shop no_secrets [] made_desired
                  (stored merged (codes "m1"))
                  6).status
            ∷ [])
reconcile-repairs_example =
    reconcile-repairs sample_libraries sync_reconciler known_shop [] made_desired sample_answers
      (kept_shop-IsWritable known_status) owned_payload merged (λ e. cc) refl refl (inl updates)
      made-merged refl (λ e. absurd (ground arith)) refl (codes "team") (codes "shop") refl
