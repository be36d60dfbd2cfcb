-- ===== src/Controller/Reconcile/Steady.antt =====
-- What `Reconcile` writes is what the next `Reconcile` finds in order.
use mackerel_operator.Prelude.{◌≡◌, refl, sym, subst, some, Text}
use mackerel_operator.Prelude.Outcome.{ok}
use mackerel_operator.Monitor.{DesiredExternalMonitor, ActualExternalMonitor}
use mackerel_operator.Ownership.Marker.{parse_marker, remove_marker, apply_marker}
use mackerel_operator.Ownership.Marker.Match.{IsMarker}
use mackerel_operator.Ownership.Marker.Search.{Unmarked}
use mackerel_operator.Ownership.Marker.Laws.{parse-apply}
use mackerel_operator.Planner.{noop, plan}
use mackerel_operator.Planner.Decisions.{in_sync, plan-eq_of_Planned}
use mackerel_operator.Planner.Match.{Matches}
use mackerel_operator.Provider.Client.{Float64, MonitorExternalHttp}
use mackerel_operator.Provider.Convert.{
  merge_mackerel_external_monitor, actual_external_monitor_from_mackerel,
}
use mackerel_operator.Provider.Convert.RoundTrip.{IsSyncable, merge-Matches}
use mackerel_operator.Controller.Reconcile.Upsert.{marker_of}

module _ (fl : Float64) (d : DesiredExternalMonitor) where
  marked-noop :
      (a : ActualExternalMonitor)
      → parse_marker a.memo ≡ some (marker_of d)
      → Matches d a
      → (plan (record { desired = d; actual = some a })).action ≡ noop
  marked-noop a e m = plan-eq_of_Planned (
      in_sync a
        (record { marker = marker_of d; parsed = e; same_owner = refl; same_resource = refl }) refl
        m)

  -- If the numbers of a desired state are ones that the service can hold, its marker is well
  -- formed, and the memo without its markers holds none, then an update succeeds in forming the
  -- monitor to write, which keeps the identifier, and for what is read back from it the planner
  -- decides that nothing is to be done.
  pub update-noop :
      (base : MonitorExternalHttp fl.F) (memo : Text)
      → IsSyncable d
      → IsMarker (marker_of d)
      → Unmarked (remove_marker memo)
      → (p : MonitorExternalHttp fl.F) × (merge_mackerel_external_monitor fl base d
            (apply_marker memo (marker_of d))
          ≡ ok p)
        × (p.id ≡ base.id)
        × ((plan (record {
          desired = d;
          actual = some (actual_external_monitor_from_mackerel fl p);
        })).action
            ≡ noop)
  update-noop base memo s h u =
      let (p, sent, matches, same_memo, same_id) =
        merge-Matches fl base d (apply_marker memo (marker_of d)) s in
      (
        p,
        sent,
        same_id,
        marked-noop (actual_external_monitor_from_mackerel fl p)
            (subst (λ t. parse_marker t ≡ some (marker_of d)) (sym same_memo)
              (parse-apply memo (marker_of d) h u))
            matches,
      )
