-- ===== src/Controller/Reconcile/Writes.antt =====
-- Which monitors a reconciliation writes, whatever the APIs answer.
use mackerel_operator.Prelude.{
  ◌≡◌, ◌⊎◌, refl, Bool, true, false, Option, none, some, Text, Bool-cases, inl, inr,
}
use mackerel_operator.Prelude.Outcome.{ok, err}
use mackerel_operator.Api.{ExternalMonitor}
use mackerel_operator.Monitor.{DesiredExternalMonitor, ActualExternalMonitor}
use mackerel_operator.Ownership.Marker.{parse_marker}
use mackerel_operator.Planner.{Action}
use mackerel_operator.Planner.Decisions.{
  IsOwned, Planned, missing, adopted, unmarked, foreign, in_sync, drifted, plan-Planned,
}
use mackerel_operator.Planner.Match.{Matches}
use mackerel_operator.Provider.Client.{MonitorExternalHttp}
use mackerel_operator.Provider.Result as Provider
use mackerel_operator.Provider.Result.{is_sentinel, err_not_found}
use mackerel_operator.Program
use mackerel_operator.Program.Runs.{Ensures}
use mackerel_operator.Program.{
  Call, Program, done, call, ask, ◌>>=◌, KubeReply, got, refused, kube_not_found, kube_conflict,
  kube_other,
}
use mackerel_operator.Status.{mark_ready}
use mackerel_operator.Controller.Settings.{Libraries, ReconcileError}
use mackerel_operator.Controller.Patch.{patch_status, remove_finalizer}
use mackerel_operator.Controller.Reconcile.Deletion.{finalize, after_delete, delete_actual}
use mackerel_operator.Controller.Reconcile.Upsert.{
  report_error, synced, write_marked, perform, upsert_planned, upsert_found,
}
use mackerel_operator.Controller.Reconcile.Calls.{
  Routine, Calls, Calls-bind, patch_status-Calls, mark_ready-Calls, remove_finalizer-Calls,
}
use mackerel_operator.Controller.Reconcile.ProviderCalls.{create-Calls, update-Calls, delete-Calls}

-- A monitor that may be written: it holds no marker and is in the desired state, or its marker
-- names the owner and the resource.
abbrev pub Adoptable : DesiredExternalMonitor → ActualExternalMonitor → Type 0
Adoptable d a = ((parse_marker a.memo ≡ none) × Matches d a) ⊎ IsOwned d.owner d.resource a.memo

module _ (lib : Libraries) {allowed : Call lib.float64.F → Type 0} (ro : Routine allowed) where
  pub finalize-Calls : (cr : ExternalMonitor) → Calls ro (finalize lib cr)
  unfolding finalize
  finalize-Calls cr =
      Calls-bind ro (remove_finalizer lib cr) _ (remove_finalizer-Calls ro lib cr) (λ e. tt)

  pub after_delete-Calls :
      (cr : ExternalMonitor) (r : Provider.Result (Unit {0})) → Calls ro (after_delete lib cr r)
  unfolding after_delete
  after_delete-Calls cr (ok u) = finalize-Calls cr
  after_delete-Calls cr (err e) = elim (Bool-cases (is_sentinel err_not_found e)) [
    | inl gone ↦ rw gone (finalize-Calls cr)
    | inr there ↦ rw there tt
  ]

  pub delete_actual-Calls :
      (cr : ExternalMonitor) (a : ActualExternalMonitor)
      → allowed (Program.delete_monitor a.id)
      → Calls ro (delete_actual lib cr (some a))
  unfolding delete_actual
  delete_actual-Calls cr a may =
      Calls-bind ro _ _ (delete-Calls lib.float64 ro a.id may) (after_delete-Calls cr)

  pub report-Calls :
      (cr : ExternalMonitor) (reason : Text) (e : ReconcileError)
      → Calls ro (report_error lib cr reason e)
  unfolding report_error
  report-Calls cr reason e =
      Calls-bind ro (patch_status lib cr _) _ (patch_status-Calls ro lib cr _) (λ failed. tt)

  pub synced-Calls :
      (cr : ExternalMonitor) (d : DesiredExternalMonitor) (applied : Bool)
      (r : Provider.Result ActualExternalMonitor)
      → Calls ro (synced lib cr d applied r)
  unfolding synced
  synced-Calls cr d applied (err e) =
      Calls-bind ro (patch_status lib cr _) _ (patch_status-Calls ro lib cr _) (λ failed. tt)
  synced-Calls cr d applied (ok a) =
      Calls-bind ro (mark_ready lib.conditions cr _) _ (mark_ready-Calls ro lib.conditions cr _)
        λ marked.
          Calls-bind ro (patch_status lib cr marked) _ (patch_status-Calls ro lib cr marked)
            (λ failed. tt)

  write-Calls :
      (cr : ExternalMonitor) (d : DesiredExternalMonitor) (a : ActualExternalMonitor)
      → ((p : MonitorExternalHttp lib.float64.F) → allowed (Program.update_monitor a.id p))
      → Calls ro (write_marked lib cr d a)
  unfolding write_marked
  write-Calls cr d a may =
      Calls-bind ro _ _ (update-Calls lib.float64 ro a.id may d _) (synced-Calls cr d true)

  -- What the rules of the planner allow a reconciliation to write.
  module _ (d : DesiredExternalMonitor) (cr : ExternalMonitor) (reason : Text) where
    perform-Calls :
        (actual : Option ActualExternalMonitor) (x : Action)
        → (actual ≡ none
            → (p : MonitorExternalHttp lib.float64.F) → allowed (Program.create_monitor p))
        → ((a : ActualExternalMonitor)
            → actual ≡ some a
            → Adoptable d a
            → (p : MonitorExternalHttp lib.float64.F) → allowed (Program.update_monitor a.id p))
        → Planned d actual x
        → Calls ro (perform lib cr d actual x reason)
    unfolding perform
    perform-Calls actual x may_create may_update missing =
        Calls-bind ro _ _ (create-Calls lib.float64 ro (may_create refl) d _)
          (synced-Calls cr d true)
    perform-Calls actual x may_create may_update (adopted a e m) =
        write-Calls cr d a (may_update a refl (inl (e, m)))
    perform-Calls actual x may_create may_update (unmarked a e n) =
        Calls-bind ro (patch_status lib cr _) _ (patch_status-Calls ro lib cr _) (λ failed. tt)
    perform-Calls actual x may_create may_update (foreign a f) =
        Calls-bind ro (patch_status lib cr _) _ (patch_status-Calls ro lib cr _) (λ failed. tt)
    perform-Calls actual x may_create may_update (in_sync a o e m) = synced-Calls cr d false (ok a)
    perform-Calls actual x may_create may_update (drifted a o e) =
        write-Calls cr d a (may_update a refl (inr o))

  pub upsert_found-Calls :
      (cr : ExternalMonitor) (d : DesiredExternalMonitor) (actual : Option ActualExternalMonitor)
      → (actual ≡ none
          → (p : MonitorExternalHttp lib.float64.F) → allowed (Program.create_monitor p))
      → ((a : ActualExternalMonitor)
          → actual ≡ some a
          → Adoptable d a
          → (p : MonitorExternalHttp lib.float64.F) → allowed (Program.update_monitor a.id p))
      → Calls ro (upsert_found lib cr d (ok actual))
  unfolding upsert_found upsert_planned
  upsert_found-Calls cr d actual may_create may_update =
      perform-Calls d cr _ actual _ may_create may_update (plan-Planned d actual)

-- With this live monitor, or none: a monitor may be created only if there is none, only that one
-- may be updated, and only if it may be written; none may be deleted.
abbrev pub MayWrite :
    {F : Type 0} → DesiredExternalMonitor → Option ActualExternalMonitor → Call F → Type 0
MayWrite d actual (Program.create_monitor p) = actual ≡ none
MayWrite d actual (Program.update_monitor id p) =
    (a : ActualExternalMonitor) × (actual ≡ some a) × (a.id ≡ id) × Adoptable d a
MayWrite d actual (Program.delete_monitor id) = ⊥
MayWrite d actual _ = Unit {0}

MayWrite-Routine :
    {F : Type 0} (d : DesiredExternalMonitor) (actual : Option ActualExternalMonitor)
    → Routine {F = F} (MayWrite d actual)
MayWrite-Routine d actual = record {
  get_monitor = λ id. tt;
  find_monitors = tt;
  reread = λ ns name. tt;
  secret = λ ns name. tt;
  status = λ cr s. tt;
  finalizers = λ cr l. tt;
  now = tt;
}

-- Once the live monitor is found, whatever the APIs answer: `Reconcile` creates a monitor only if
-- there is none; it updates no other monitor than the one found, and that one only if its marker
-- names the owner and the resource, or if it holds no marker and is in the desired state; and it
-- deletes none.
pub upsert_found-MayWrite :
    (lib : Libraries) (cr : ExternalMonitor) (d : DesiredExternalMonitor)
    (actual : Option ActualExternalMonitor)
    → Ensures (MayWrite d actual) (λ _. Unit {0}) (upsert_found lib cr d (ok actual))
upsert_found-MayWrite lib cr d actual =
    upsert_found-Calls lib (MayWrite-Routine d actual) cr d actual (λ e p. e)
      (λ a e w p. (a, e, refl, w))
