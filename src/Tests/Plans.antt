-- ===== src/Tests/Plans.antt =====
-- The theorems on plans and conversions at concrete monitors.
use mathlib.Core.List.{Perm}
use mackerel_operator.Prelude.{◌≡◌, ◌≢◌, ◌↔◌, true, some, [], ◌∷◌, codes, arith}
use mackerel_operator.Prelude.Int.{ℤ}
use mackerel_operator.Prelude.Outcome.{ok}
use mackerel_operator.Ownership.Marker.{apply_marker}
use mackerel_operator.Planner.{
  update, noop, delete, skip_delete, plan, plan_delete, headers_match, actual_matches_desired,
}
use mackerel_operator.Planner.Headers.{headers_match_iff_perm}
use mackerel_operator.Planner.Match.{Matches, actual_matches_desired_iff}
use mackerel_operator.Planner.Decisions.{Planned, plan_iff_Planned}
use mackerel_operator.Planner.Deletion.{MayDelete, plan_delete_iff}
use mackerel_operator.Provider.Client.{MonitorExternalHttp}
use mackerel_operator.Provider.Convert.{
  merge_mackerel_external_monitor, actual_external_monitor_from_mackerel,
}
use mackerel_operator.Provider.Convert.RoundTrip.{IsSyncable, merge-Matches}
use mackerel_operator.Controller.Reconcile.Upsert.{marker_of}
use mackerel_operator.Controller.Reconcile.Steady.{update-noop}
use mackerel_operator.Tests.Instances.{sample_float64}
use mackerel_operator.Tests.Samples.{shop_desired, old_shop, old_payload, accept, env}
use mackerel_operator.Tests.Markers.{plain_memo, shop_marker-IsMarker, removed-Unmarked}

plan_iff_Planned_example :
    ((plan (record { desired = shop_desired; actual = some (old_shop plain_memo) })).action
      ≡ update)
    ↔ Planned shop_desired (some (old_shop plain_memo)) update
plan_iff_Planned_example = plan_iff_Planned shop_desired (some (old_shop plain_memo)) update

plan_delete_iff_example :
    (((plan_delete (some (old_shop plain_memo)) (codes "prod") (codes "r") (codes "sync")).action
        ≡ delete)
      ↔ MayDelete (some (old_shop plain_memo)) (codes "prod") (codes "r") (codes "sync"))
    × ((plan_delete (some (old_shop plain_memo)) (codes "prod") (codes "r") (codes "sync")).action
          ≢ delete
        → (plan_delete
            (some (old_shop plain_memo))
            (codes "prod")
            (codes "r")
            (codes "sync")).action
          ≡ skip_delete)
plan_delete_iff_example =
    plan_delete_iff (some (old_shop plain_memo)) (codes "prod") (codes "r") (codes "sync")

actual_matches_desired_iff_example :
    (actual_matches_desired shop_desired (old_shop plain_memo) ≡ true)
    ↔ Matches shop_desired (old_shop plain_memo)
actual_matches_desired_iff_example = actual_matches_desired_iff shop_desired (old_shop plain_memo)

headers_match_iff_perm_example :
    (headers_match (accept ∷ env ∷ []) (env ∷ accept ∷ []) ≡ true)
    ↔ Perm (accept ∷ env ∷ []) (env ∷ accept ∷ [])
headers_match_iff_perm_example = headers_match_iff_perm (accept ∷ env ∷ []) (env ∷ accept ∷ [])

shop_desired-IsSyncable : IsSyncable shop_desired
shop_desired-IsSyncable = record {
  interval = (omega arith, omega arith);
  duration = (omega arith, omega arith);
  warning = (omega arith, omega arith);
  critical = (omega arith, omega arith);
  certification_warning = tt;
  certification_critical = (omega arith, omega arith);
  attempts = (omega arith, omega arith);
}

merge-Matches_example :
    (p : MonitorExternalHttp ℤ) × (merge_mackerel_external_monitor sample_float64 old_payload
        shop_desired plain_memo
      ≡ ok p)
    × Matches shop_desired (actual_external_monitor_from_mackerel sample_float64 p)
    × ((actual_external_monitor_from_mackerel sample_float64 p).memo ≡ plain_memo)
    × (p.id ≡ old_payload.id)
merge-Matches_example =
    merge-Matches sample_float64 old_payload shop_desired plain_memo shop_desired-IsSyncable

update-noop_example :
    (p : MonitorExternalHttp ℤ) × (merge_mackerel_external_monitor sample_float64 old_payload
        shop_desired
        (apply_marker plain_memo (marker_of shop_desired))
      ≡ ok p)
    × (p.id ≡ old_payload.id)
    × ((plan (record {
      desired = shop_desired;
      actual = some (actual_external_monitor_from_mackerel sample_float64 p);
    })).action
        ≡ noop)
update-noop_example =
    update-noop sample_float64 shop_desired old_payload plain_memo shop_desired-IsSyncable
      shop_marker-IsMarker removed-Unmarked
