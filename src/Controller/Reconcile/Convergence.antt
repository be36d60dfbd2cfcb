-- ===== src/Controller/Reconcile/Convergence.antt =====
-- Writing a monitor and reporting it puts the resource in order.
use mackerel_operator.Prelude.{
  ℕ, ◌≡◌, ◌≢◌, refl, sym, ◌∙◌, ap, subst, true, Option, none, some, [], Text, All,
}
use mackerel_operator.Prelude.Outcome.{ok, ok-injective}
use mackerel_operator.Api.{ExternalMonitor, ExternalMonitorStatus}
use mackerel_operator.Monitor.Hash.{Digest}
use mackerel_operator.Status.Again.{ready_status_idem}
use mackerel_operator.Monitor.{DesiredExternalMonitor, ActualExternalMonitor}
use mackerel_operator.Ownership.Marker.{Marker, parse_marker, remove_marker, apply_marker}
use mackerel_operator.Ownership.Marker.Match.{IsMarker}
use mackerel_operator.Ownership.Marker.Search.{Unmarked}
use mackerel_operator.Planner.{noop, plan, plan_marked, actual_matches_desired}
use mackerel_operator.Provider.Client.{stored, Float64, MonitorExternalHttp}
use mackerel_operator.Provider.Convert.{
  merge_mackerel_external_monitor, actual_external_monitor_from_mackerel,
}
use mackerel_operator.Provider.Convert.RoundTrip.{IsSyncable}
use mackerel_operator.Program.Runs.{EnsuresIf-run, result_of, calls_of}
use mackerel_operator.Program.{Call, Answer}
use mackerel_operator.Source.{ExternalMonitorSource, from_external_monitor}
use mackerel_operator.Status.{ready_status}
use mackerel_operator.Controller.Settings.{
  Libraries, ExternalMonitorReconciler, external_monitor_source, external_monitor_finalizer,
  requeue,
}
use mackerel_operator.Controller.Secrets.{Values}
use mackerel_operator.Controller.Secrets.Direct.{Secrets, direct_values}
use mackerel_operator.Controller.Reconcile.{reconcile}
use mackerel_operator.Controller.Reconcile.Upsert.{marker_of}
use mackerel_operator.Controller.Reconcile.Steady.{update-noop}
use mackerel_operator.Controller.Reconcile.Settled.{
  read_result, ReadsOne, Unchanged, IsSettled, reconcile-Quiet,
}

-- The planner does not look at the identifier.
plan_marked-id :
    (d : DesiredExternalMonitor) (a : ActualExternalMonitor) (id : Text) (o : Option Marker)
    → plan_marked d (record a { id = id }) o ≡ plan_marked d a o
unfolding plan_marked actual_matches_desired
plan_marked-id d a id none = refl
plan_marked-id d a id (some m) = refl

-- The status has no effect on the desired state.
same_desired :
    (digest : Digest) (s : ExternalMonitorSource) (cr : ExternalMonitor)
    (status : ExternalMonitorStatus)
    → from_external_monitor digest s (some (record cr { status = status }))
      ≡ from_external_monitor digest s (some cr)
unfolding from_external_monitor
same_desired digest s cr status = refl

stored-noop :
    (fl : Float64) (d : DesiredExternalMonitor) (q : MonitorExternalHttp fl.F) (id : Text)
    → (plan
        (record { desired = d; actual = some (actual_external_monitor_from_mackerel fl q) })).action
      ≡ noop
    → (plan (record {
      desired = d;
      actual = some (actual_external_monitor_from_mackerel fl (stored q id));
    })).action
      ≡ noop
unfolding plan actual_external_monitor_from_mackerel
stored-noop fl d q id h =
    ap (λ x. x.action)
      (plan_marked-id d (actual_external_monitor_from_mackerel fl q) id (parse_marker q.memo))
    ∙ h

module _ (lib : Libraries) (r : ExternalMonitorReconciler) (cr : ExternalMonitor)
    (secrets : Secrets) (values : Values) (d : DesiredExternalMonitor) where
  abbrev actual_of : MonitorExternalHttp lib.float64.F → ActualExternalMonitor
  actual_of = actual_external_monitor_from_mackerel lib.float64

  -- The resource once `MarkReady` has reported the monitor as written.
  abbrev pub after_write : MonitorExternalHttp lib.float64.F → ℕ → ExternalMonitor
  after_write p t = ready_status lib.conditions cr (read_result d (actual_of p) true) (some t)

  -- A live resource with its finalizer, whose Secrets resolve and which has this desired state,
  -- with numbers that the service can hold and a well-formed marker.
  pub record IsWritable : Type 0 where
    pub provider : r.has_provider ≡ true
    pub live : cr.deletion_timestamp ≡ none
    pub finalizer : lib.finalizers.contains cr.finalizers external_monitor_finalizer ≡ true
    pub resolved : direct_values secrets cr.spec.headers ≡ ok values
    pub desired :
        from_external_monitor lib.digest (external_monitor_source r values) (some cr) ≡ ok d
    pub syncable : IsSyncable d
    pub marked : IsMarker (marker_of d)

  module _ (w : IsWritable) (base q : MonitorExternalHttp lib.float64.F) (memo id : Text) (t : ℕ)
      (clean : Unmarked (remove_marker memo))
      (sent : merge_mackerel_external_monitor lib.float64 base d (apply_marker memo (marker_of d))
        ≡ ok q)
      (named : id ≢ []) where
    written-noop :
        (plan (record { desired = d; actual = some (actual_of (stored q id)) })).action ≡ noop
    written-noop =
        let (p, made, _, in_order) =
          update-noop lib.float64 d base memo w.syncable w.marked clean in
        stored-noop lib.float64 d q id (
          subst (λ p. (plan (record { desired = d; actual = some (actual_of p) })).action ≡ noop)
            (ok-injective (sym made ∙ sent)) in_order)

    after_write-IsSettled :
        IsSettled lib r (after_write (stored q id) t) secrets values d (stored q id)
    unfolding ready_status
    after_write-IsSettled = record {
      provider = w.provider;
      live = w.live;
      finalizer = w.finalizer;
      resolved = w.resolved;
      desired = same_desired lib.digest (external_monitor_source r values) cr _ ∙ w.desired;
      known = unfold actual_external_monitor_from_mackerel in refl;
      named = named;
      in_sync = written-noop;
      reported = sym (
          ap (λ (x : ExternalMonitor). x.status)
            (ready_status_idem lib.conditions cr (read_result d (actual_of (stored q id)) true)
              (some t)));
    }

    -- Let a resource be writable: it is not being deleted and has its finalizer, there is a
    -- provider, and its Secrets resolve to values with which it has a desired state whose numbers
    -- the service can hold and whose marker is well formed. If a monitor was formed from this
    -- desired state and its marker (over any monitor, for an update or a creation), is stored
    -- under an identifier that is not empty, and was reported as written, and the memo without its
    -- markers held none, then the next reconciliation, to which the resource, its Secrets and the
    -- monitor are read as they are, makes no call but reads of these: it writes no monitor, no
    -- status and no finalizer. It asks to come back after the usual time.
    pub reconcile-after_write :
        (answers : (c : Call lib.float64.F) → Answer c)
        → ((c : Call lib.float64.F)
            → Unchanged (after_write (stored q id) t) secrets (stored q id) c (answers c))
        → (namespace name : Text)
        → (result_of answers (reconcile lib r namespace name) ≡ requeue)
          × All ReadsOne (calls_of answers (reconcile lib r namespace name))
    reconcile-after_write answers e namespace name =
        EnsuresIf-run (Unchanged (after_write (stored q id) t) secrets (stored q id)) ReadsOne _
          answers e (reconcile lib r namespace name)
          (reconcile-Quiet lib r (after_write (stored q id) t) secrets values d (stored q id)
            after_write-IsSettled namespace name)
