-- ===== src/Controller/Reconcile/Truthful.antt =====
-- What a status that is ready says.
use mathlib.Core.Option.{some-injective}
use mackerel_operator.Prelude.{
  ◌≡◌, ◌⊎◌, refl, sym, ◌∙◌, ap, inl, inr, Bool, true, false, Option, none, some, Text, Bool-cases,
}
use mackerel_operator.Prelude.Outcome.{ok, err, ok-injective}
use mackerel_operator.Api.{ExternalMonitor, ExternalMonitorStatus, Condition}
use mackerel_operator.Monitor.{DesiredExternalMonitor, ActualExternalMonitor}
use mackerel_operator.Ownership.Marker.{apply_marker}
use mackerel_operator.Planner.{Action}
use mackerel_operator.Planner.Decisions.{
  IsOwned, Planned, missing, adopted, unmarked, foreign, in_sync, drifted, plan-Planned,
}
use mackerel_operator.Planner.Match.{Matches}
use mackerel_operator.Provider.Client.{
  MonitorExternalHttp, ClientMonitor, external, other_monitor, Reply, replied, failed,
}
use mackerel_operator.Provider.Convert.{actual_external_monitor_from_mackerel}
use mackerel_operator.Provider.Operations.{
  reply_result, external_monitor_from_mackerel, create_external_monitor, send_created,
  update_external_monitor, update_current, send_updated,
}
use mackerel_operator.Provider.Result as Provider
use mackerel_operator.Program
use mackerel_operator.Program.{Call, Answer, Program, done, call, ◌>>=◌, KubeReply}
use mackerel_operator.Status.{
  Conditions, condition_ready, ready_condition, ready_status, mark_ready, mark_error,
  mark_ownership_lost,
}
use mackerel_operator.Controller.Settings.{Libraries, ReconcileError, Reconciled}
use mackerel_operator.Controller.Patch.{patch_status}
use mackerel_operator.Controller.Reconcile.Upsert.{
  marker_of, synced, write_marked, perform, upsert_planned, upsert_found,
}

-- The condition "Ready" is there, and true.
abbrev pub IsReady : Conditions → ExternalMonitorStatus → Type 0
IsReady conditions s =
    (c : Condition) × (conditions.find_condition s.conditions condition_ready ≡ some c)
    × (c.status ≡ true)

module _ {F : Type 0} (conditions : Conditions) where
  -- The identifiers that may be reported, once a write was answered.
  abbrev pub Confirmed : (Text → Type 0) → Reply (ClientMonitor F) → Text → Type 0
  Confirmed may (replied (external m)) id = may id ⊎ (id ≡ m.id)
  Confirmed may _ id = may id

  -- Each status that is ready reports one of these identifiers, or that of a monitor that was
  -- written before.
  abbrev pub Truthful : {A : Type 0} → (Text → Type 0) → Program F A → Type 0
  Truthful may (done a) = Unit {0}
  Truthful may (call (Program.patch_status cr s) k) =
      (IsReady conditions s → may s.monitor_id) × ((r : KubeReply (Unit {0})) → Truthful may (k r))
  Truthful may (call (Program.create_monitor p) k) =
      (r : Reply (ClientMonitor F)) → Truthful (Confirmed may r) (k r)
  Truthful may (call (Program.update_monitor id p) k) =
      (r : Reply (ClientMonitor F)) → Truthful (Confirmed may r) (k r)
  Truthful may (call c k) = (r : Answer c) → Truthful may (k r)

-- The monitor that was found is in order: owned, with the hash of the desired state, and in it.
pub record InOrder (d : DesiredExternalMonitor) (actual : Option ActualExternalMonitor) (id : Text)
    : Type 0 where
  pub monitor : ActualExternalMonitor
  pub found : actual ≡ some monitor
  pub named : monitor.id ≡ id
  pub owned : IsOwned d.owner d.resource monitor.memo
  pub same_hash : owned.marker.hash ≡ d.hash
  pub in_desired_state : Matches d monitor

module _ (lib : Libraries) (cr : ExternalMonitor) where
  open lib.float64 use {F}

  abbrev Honestly : (Text → Type 0) → Program F Reconciled → Type 0
  Honestly = Truthful lib.conditions

  patched-Truthful :
      (may : Text → Type 0) (marked : ExternalMonitor) (g : Option ReconcileError → Reconciled)
      → (IsReady lib.conditions marked.status → may marked.status.monitor_id)
      → Honestly may (patch_status lib cr marked >>= (λ e. done (g e)))
  unfolding patch_status
  patched-Truthful may marked g h = elim (Bool-cases (lib.status_equal cr.status marked.status)) [
    | inl same ↦ rw same tt
    | inr changed ↦ rw changed (h, λ r. tt)
  ]

  -- A condition that was set to false is not true.
  pub unready :
      (s : ExternalMonitorStatus) (reason message : Text)
      → s.conditions
        ≡ lib.conditions.set_condition cr.status.conditions
            (ready_condition cr false reason message)
      → ¬ IsReady lib.conditions s
  unready s reason message e (c, found, t) =
      let set =
        lib.conditions.find_set cr.status.conditions (ready_condition cr false reason message) in
      let same =
        some-injective _ _
          (sym found ∙ ap (λ cs. lib.conditions.find_condition cs condition_ready) e ∙ set) in
      cc (ap (λ (x : Condition). x.status) same, t)

  unready-Truthful :
      (may : Text → Type 0) (marked : ExternalMonitor) (reason message : Text)
      (g : Option ReconcileError → Reconciled)
      → marked.status.conditions
        ≡ lib.conditions.set_condition cr.status.conditions
            (ready_condition cr false reason message)
      → Honestly may (patch_status lib cr marked >>= (λ e. done (g e)))
  unready-Truthful may marked reason message g e =
      patched-Truthful may marked g (λ ready. absurd (unready marked.status reason message e ready))

  synced-Truthful :
      (may : Text → Type 0) (d : DesiredExternalMonitor) (applied : Bool)
      (r : Provider.Result ActualExternalMonitor)
      → ((a : ActualExternalMonitor) → r ≡ ok a → may a.id)
      → Honestly may (synced lib cr d applied r)
  unfolding synced mark_error mark_ready ready_status
  synced-Truthful may d applied (err e) h = unready-Truthful may _ _ _ _ refl
  synced-Truthful may d true (ok a) h = λ t. patched-Truthful may _ _ (λ ready. h a refl)
  synced-Truthful may d false (ok a) h = patched-Truthful may _ _ (λ ready. h a refl)

  failed-Truthful :
      (may : Text → Type 0) (d : DesiredExternalMonitor) (e : Provider.Error)
      → Honestly may (synced lib cr d true (err e))
  failed-Truthful may d e = synced-Truthful may d true (err e) (λ a h. absurd (cc))

  -- The monitor that a write is answered with has the identifier of the answer.
  answered_id :
      (may : Text → Type 0) (r : Reply (ClientMonitor F)) (a : ActualExternalMonitor)
      → reply_result lib.float64 r ≡ ok a
      → Confirmed lib.conditions may r a.id
  unfolding reply_result external_monitor_from_mackerel actual_external_monitor_from_mackerel
  answered_id may (replied (external m)) a h =
      inr (sym (ap (λ (x : ActualExternalMonitor). x.id) (ok-injective h)))
  answered_id may (replied (other_monitor kind)) a h = absurd (cc)
  answered_id may (failed e) a h = absurd (cc)

  answered-Truthful :
      (may : Text → Type 0) (d : DesiredExternalMonitor) (r : Reply (ClientMonitor F))
      → Honestly
          (Confirmed lib.conditions may r)
          (synced lib cr d true (reply_result lib.float64 r))
  answered-Truthful may d r =
      synced-Truthful (Confirmed lib.conditions may r) d true (reply_result lib.float64 r)
        (answered_id may r)

  created-Truthful :
      (may : Text → Type 0) (d : DesiredExternalMonitor)
      (o : Provider.Result (MonitorExternalHttp F))
      → Honestly may (send_created lib.float64 o >>= synced lib cr d true)
  unfolding send_created
  created-Truthful may d (err e) = failed-Truthful may d e
  created-Truthful may d (ok p) = answered-Truthful may d

  updated-Truthful :
      (may : Text → Type 0) (d : DesiredExternalMonitor) (id : Text)
      (o : Provider.Result (MonitorExternalHttp F))
      → Honestly may (send_updated lib.float64 id o >>= synced lib cr d true)
  unfolding send_updated
  updated-Truthful may d id (err e) = failed-Truthful may d e
  updated-Truthful may d id (ok p) = answered-Truthful may d

  write-Truthful :
      (may : Text → Type 0) (d : DesiredExternalMonitor) (a : ActualExternalMonitor)
      → Honestly may (write_marked lib cr d a)
  unfolding write_marked update_external_monitor update_current
  write-Truthful may d a = read
    where
      read :
          (r : Reply (ClientMonitor F))
          → Honestly may (
              update_current lib.float64 a.id d (apply_marker a.memo (marker_of d)) r
              >>= synced lib cr d true)
      read (failed e) = failed-Truthful may d _
      read (replied (other_monitor kind)) = failed-Truthful may d _
      read (replied (external base)) = updated-Truthful may d a.id _

  perform-Truthful :
      (d : DesiredExternalMonitor) (actual : Option ActualExternalMonitor) (x : Action)
      (reason : Text)
      → Planned d actual x
      → Honestly (InOrder d actual) (perform lib cr d actual x reason)
  unfolding perform create_external_monitor mark_ownership_lost
  perform-Truthful d actual x reason missing = created-Truthful (InOrder d none) d _
  perform-Truthful d actual x reason (adopted a e m) = write-Truthful (InOrder d (some a)) d a
  perform-Truthful d actual x reason (unmarked a e n) =
      unready-Truthful (InOrder d (some a)) _ _ _ _ refl
  perform-Truthful d actual x reason (foreign a f) =
      unready-Truthful (InOrder d (some a)) _ _ _ _ refl
  perform-Truthful d actual x reason (in_sync a o h m) =
      synced-Truthful (InOrder d (some a)) d false (ok a) (λ b e. record {
        monitor = a;
        found = refl;
        named = ap (λ (x : ActualExternalMonitor). x.id) (ok-injective e);
        owned = o;
        same_hash = h;
        in_desired_state = m;
      })
  perform-Truthful d actual x reason (drifted a o e) = write-Truthful (InOrder d (some a)) d a

  -- Once the live monitor is found, whatever the APIs answer: a status that is patched with "Ready"
  -- true reports the identifier of a monitor that was found owned, with the hash of the desired
  -- state and in this state, or with which the Mackerel API has answered a write before.
  pub upsert_found-Truthful :
      (d : DesiredExternalMonitor) (actual : Option ActualExternalMonitor)
      → Truthful lib.conditions (InOrder d actual) (upsert_found lib cr d (ok actual))
  unfolding upsert_found upsert_planned
  upsert_found-Truthful d actual = perform-Truthful d actual _ _ (plan-Planned d actual)
