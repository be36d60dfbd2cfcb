-- ===== src/Controller/Reconcile/Admitted.antt =====
-- A resource that the API server admits, its desired state (`FromExternalMonitor` of
-- internal/source/externalmonitor.go) and the monitor that is written for it.
use mackerel_operator.Prelude.{
  ℕ, zero, suc, ◌≡◌, ◌≢◌, refl, sym, ap, subst, some, [], Text, IsBytes, arith,
}
use mackerel_operator.Prelude.Outcome.{ok}
use mackerel_operator.Api.{ExternalMonitor}
use mackerel_operator.Monitor.{DesiredExternalMonitor}
use mackerel_operator.Monitor.Hash.{Digest}
use mackerel_operator.Ownership.Marker.{remove_marker, apply_marker}
use mackerel_operator.Ownership.Marker.Search.{Unmarked}
use mackerel_operator.Planner.{noop, plan}
use mackerel_operator.Planner.Decisions.{Planned, in_sync, plan_iff_Planned}
use mackerel_operator.Provider.Client.{Float64, MonitorExternalHttp}
use mackerel_operator.Provider.Convert.{
  max_int, int_from_uint64, merge_mackerel_external_monitor, actual_external_monitor_from_mackerel,
}
use mackerel_operator.Provider.Convert.Numbers.{InRange}
use mackerel_operator.Source.{ExternalMonitorSource, from_external_monitor}
use mackerel_operator.Source.Admission.{
  IsAdmitted, IsExact, from_external_monitor-IsSyncable, from_external_monitor-IsMarker,
  from_external_monitor-attempts,
}
use mackerel_operator.Controller.Reconcile.Upsert.{marker_of}
use mackerel_operator.Controller.Reconcile.Steady.{update-noop}

-- The service reports one attempt for a monitor that was written with none.
abbrev pub reported_attempts : ℕ → ℕ
reported_attempts zero = 1
reported_attempts (suc n) = suc n

abbrev pub as_reported : {F : Type 0} → MonitorExternalHttp F → MonitorExternalHttp F
as_reported p = record p { max_check_attempts = reported_attempts p.max_check_attempts }

reported_positive : (n : ℕ) → InRange 1 max_int (some (int_from_uint64 n)) → reported_attempts n ≡ n
unfolding int_from_uint64
reported_positive zero (low, high) = absurd (omega (arith, low))
reported_positive (suc n) h = refl

noop-attempts :
    (fl : Float64) (d : DesiredExternalMonitor) (p : MonitorExternalHttp fl.F)
    → Planned d (some (actual_external_monitor_from_mackerel fl p)) noop
    → d.max_check_attempts ≡ int_from_uint64 p.max_check_attempts
unfolding actual_external_monitor_from_mackerel
noop-attempts fl d p (in_sync a o h m) = m.max_check_attempts

module _ (fl : Float64) (digest : Digest) (s : ExternalMonitorSource) (cr : ExternalMonitor)
    (d : DesiredExternalMonitor) where
  -- Let the API server admit a resource, whose number of check attempts may be unset, let its
  -- response times be at most 2^53, its name space, its name and the owner consist of bytes, the
  -- owner not be empty, a desired state be made of it, and the memo without its markers hold none.
  -- Then an update succeeds in forming the monitor to write, and when the service reports this
  -- monitor, with one check attempt if it was written with none, the planner decides that nothing
  -- is to be done: the resource is not updated again and again.
  pub admitted-noop :
      IsAdmitted cr.spec
      → IsExact cr.spec
      → IsBytes cr.namespace
      → IsBytes cr.name
      → IsBytes s.owner_id
      → s.owner_id ≢ []
      → from_external_monitor digest s (some cr) ≡ ok d
      → (base : MonitorExternalHttp fl.F) (memo : Text) → Unmarked (remove_marker memo)
      → (p : MonitorExternalHttp fl.F) × (merge_mackerel_external_monitor fl base d
            (apply_marker memo (marker_of d))
          ≡ ok p)
        × ((plan (record {
          desired = d;
          actual = some (actual_external_monitor_from_mackerel fl (as_reported p));
        })).action
            ≡ noop)
  admitted-noop a x ns n o one made base memo u =
      let (p, sent, _, still) =
        update-noop fl d base memo (from_external_monitor-IsSyncable digest s cr d a x made)
          (from_external_monitor-IsMarker digest s cr d ns n o one made) u in
      let planned = (plan_iff_Planned d _ noop).0 still in
      let same = reported_positive p.max_check_attempts (
        subst (λ v. InRange 1 max_int (some v)) (noop-attempts fl d p planned)
          (from_external_monitor-attempts digest s cr d a made)) in
      let unchanged : as_reported p ≡ p = ap (λ k. record p { max_check_attempts = k }) same in
      (
        p,
        sent,
        subst
            (λ q.
              (plan (record {
                desired = d;
                actual = some (actual_external_monitor_from_mackerel fl q);
              })).action
              ≡ noop)
            (sym unchanged) still,
      )
