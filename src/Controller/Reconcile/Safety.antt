-- ===== src/Controller/Reconcile/Safety.antt =====
-- What a whole reconciliation does and never does, whatever the APIs answer.
use mackerel_operator.Prelude.{◌≡◌, refl, Option, some, Text, codes, Bool-cases, inl, inr}
use mackerel_operator.Prelude.Outcome.{ok, err}
use mackerel_operator.Api.{ExternalMonitor}
use mackerel_operator.Monitor.{DesiredExternalMonitor, ActualExternalMonitor}
use mackerel_operator.Planner.{Action, delete, skip_delete, plan_delete}
use mackerel_operator.Planner.Deletion.{MayDelete, plan_delete_iff}
use mackerel_operator.Provider.Client.{MonitorExternalHttp}
use mackerel_operator.Program
use mackerel_operator.Program.{
  Call, Program, done, call, ask, ◌>>=◌, KubeReply, got, refused, kube_not_found, kube_conflict,
  kube_other,
}
use mackerel_operator.Source
use mackerel_operator.Source.{from_external_monitor}
use mackerel_operator.Controller.Settings.{
  Libraries, Result, ReconcileError, ExternalMonitorReconciler, policy_of,
  external_monitor_deletion_source, external_monitor_finalizer,
}
use mackerel_operator.Controller.Secrets.{Values, resolve_header_values, is_unresolvable_secret_ref}
use mackerel_operator.Controller.Find.{find_actual}
use mackerel_operator.Controller.Patch.{Patched, patch_status, add_finalizer}
use mackerel_operator.Controller.Reconcile.Deletion.{
  delete_by, reconcile_delete, delete_found, delete_desired, reconcile_deletion,
}
use mackerel_operator.Controller.Reconcile.Upsert.{
  blocked, upsert_found, with_finalizer, with_desired, with_values, reconcile_upsert,
}
use mackerel_operator.Controller.Reconcile.Calls.{
  Routine, Calls, Calls-bind, resolve_header_values-Calls, patch_status-Calls, add_finalizer-Calls,
}
use mackerel_operator.Controller.Reconcile.ProviderCalls.{find_actual-Calls}
use mackerel_operator.Controller.Reconcile.Writes.{
  finalize-Calls, delete_actual-Calls, report-Calls, upsert_found-Calls,
}

module _ (lib : Libraries) {allowed : Call lib.float64.F → Type 0} (ro : Routine allowed) where
  delete_by-Calls :
      (cr : ExternalMonitor) (actual : Option ActualExternalMonitor) (owner resource policy : Text)
      (x : Action)
      → ((m : MayDelete actual owner resource policy)
          → allowed (Program.delete_monitor m.monitor.id))
      → (plan_delete actual owner resource policy).action ≡ x
      → Calls ro (delete_by lib x cr actual)
  unfolding delete_by
  delete_by-Calls cr actual owner resource policy delete may e =
      let m = (plan_delete_iff actual owner resource policy).0.0 e in
      rw m.exists (delete_actual-Calls lib ro cr m.monitor (may m))
  delete_by-Calls cr actual owner resource policy skip_delete may e = finalize-Calls lib ro cr
  delete_by-Calls cr actual owner resource policy _ may e = tt

  pub reconcile_delete-Calls :
      (r : ExternalMonitorReconciler) (cr : ExternalMonitor) (d : DesiredExternalMonitor)
      (actual : Option ActualExternalMonitor)
      → ((m : MayDelete actual d.owner d.resource (policy_of r))
          → allowed (Program.delete_monitor m.monitor.id))
      → Calls ro (reconcile_delete lib r cr d actual)
  unfolding reconcile_delete
  reconcile_delete-Calls r cr d actual may =
      delete_by-Calls cr actual d.owner d.resource (policy_of r) _ may refl

  -- A deletion deletes monitors only if the policy is "sync".
  pub deletion-Calls :
      (r : ExternalMonitorReconciler) (cr : ExternalMonitor)
      → (policy_of r ≡ codes "sync" → (id : Text) → allowed (Program.delete_monitor id))
      → Calls ro (reconcile_deletion lib r cr)
  unfolding reconcile_deletion delete_desired
  deletion-Calls r cr may =
      desired (from_external_monitor lib.digest (external_monitor_deletion_source r) (some cr))
    where
      found :
          (d : DesiredExternalMonitor) (f : Result (Option ActualExternalMonitor))
          → Calls ro (delete_found lib r cr d f)
      found d (err e) = unfold delete_found in tt
      found d (ok actual) =
          unfold delete_found in
          reconcile_delete-Calls r cr d actual (λ m. may m.policy_sync m.monitor.id)

      desired : (d : Source.Result DesiredExternalMonitor) → Calls ro (delete_desired lib r cr d)
      desired (err e) = finalize-Calls lib ro cr
      desired (ok d) =
          Calls-bind ro (find_actual lib.float64 cr.status.monitor_id d) _
            (find_actual-Calls lib.float64 ro cr.status.monitor_id d) (found d)

  pub blocked-Calls : (cr : ExternalMonitor) (e : ReconcileError) → Calls ro (blocked lib cr e)
  unfolding blocked
  blocked-Calls cr e = elim (Bool-cases (is_unresolvable_secret_ref e)) [
    | inl waiting ↦
        rw waiting
          (Calls-bind ro (patch_status lib cr _) _ (patch_status-Calls ro lib cr _) (λ failed. tt))
    | inr failing ↦ rw failing (report-Calls lib ro cr _ e)
  ]

  module _
      (may_create : (p : MonitorExternalHttp lib.float64.F) → allowed (Program.create_monitor p))
      (may_update : (id : Text) (p : MonitorExternalHttp lib.float64.F)
        → allowed (Program.update_monitor id p)) where
    found-Calls :
        (cr : ExternalMonitor) (d : DesiredExternalMonitor)
        (f : Result (Option ActualExternalMonitor))
        → Calls ro (upsert_found lib cr d f)
    found-Calls cr d (err e) = unfold upsert_found in report-Calls lib ro cr _ e
    found-Calls cr d (ok actual) =
        upsert_found-Calls lib ro cr d actual (λ _. may_create) (λ a _ _. may_update a.id)

    with_finalizer-Calls :
        (d : DesiredExternalMonitor) (p : Patched) → Calls ro (with_finalizer lib d p)
    unfolding with_finalizer
    with_finalizer-Calls d (err e) = tt
    with_finalizer-Calls d (ok cr) =
        Calls-bind ro (find_actual lib.float64 cr.status.monitor_id d) _
          (find_actual-Calls lib.float64 ro cr.status.monitor_id d) (found-Calls cr d)

    with_desired-Calls :
        (cr : ExternalMonitor) (d : Source.Result DesiredExternalMonitor)
        → Calls ro (with_desired lib cr d)
    unfolding with_desired
    with_desired-Calls cr (err e) =
        Calls-bind ro (patch_status lib cr _) _ (patch_status-Calls ro lib cr _) (λ failed. tt)
    with_desired-Calls cr (ok d) =
        elim (Bool-cases (lib.finalizers.contains cr.finalizers external_monitor_finalizer)) [
          | inl held ↦ rw held (with_finalizer-Calls d (ok cr))
          | inr lacking ↦ rw lacking (
              Calls-bind ro (add_finalizer lib cr) _ (add_finalizer-Calls ro lib cr)
                (with_finalizer-Calls d))
        ]

    pub upsert-Calls :
        (r : ExternalMonitorReconciler) (cr : ExternalMonitor)
        → Calls ro (reconcile_upsert lib r cr)
    unfolding reconcile_upsert
    upsert-Calls r cr =
        Calls-bind ro (resolve_header_values cr) _ (resolve_header_values-Calls ro cr) values
      where
        values : (v : Result Values) → Calls ro (with_values lib r cr v)
        values (err e) = unfold with_values in blocked-Calls cr e
        values (ok v) = unfold with_values in with_desired-Calls cr _
