-- ===== src/Refinement/Deletion.antt =====
-- What a deletion that the planner decides for does to the monitors.
use mackerel_operator.Prelude.{◌≡◌, ◌⊎◌, refl, subst, ap, inl, inr, Option, some}
use mackerel_operator.Prelude.Outcome.{ok, err}
use mackerel_operator.Api.{ExternalMonitor}
use mackerel_operator.Monitor.{DesiredExternalMonitor, ActualExternalMonitor}
use mackerel_operator.Planner.{Action, delete, skip_delete, plan_delete}
use mackerel_operator.Planner.Decisions.{IsOwned}
use mackerel_operator.Planner.Deletion.{MayDelete, plan_delete_iff}
use mackerel_operator.Provider.Convert.{actual_external_monitor_from_mackerel}
use mackerel_operator.Service.{Store, Answered, drop}
use mackerel_operator.Service.Leads.{Leads, Leads-bind, Silent-keeps}
use mackerel_operator.Controller.Settings.{Libraries, Result, ExternalMonitorReconciler, policy_of}
use mackerel_operator.Controller.Reconcile.Deletion.{
  delete_actual, after_delete, delete_by, reconcile_delete, delete_found,
}
use mackerel_operator.Controller.Reconcile.Writes.{finalize-Calls, after_delete-Calls}
use mackerel_operator.Refinement.{kept, removed}
use mackerel_operator.Refinement.Writes.{delete-Leads}
use mackerel_operator.Refinement.Find.{Stands}
use mackerel_operator.Refinement.Upsert.{Silent-Routine, Stepped, quiet}

module _ (lib : Libraries) (r : ExternalMonitorReconciler) where
  open lib.float64 use {F}

  module _ (d : DesiredExternalMonitor) (v : Store F) where
    delete_actual-Leads :
        (cr : ExternalMonitor) (actual : Option ActualExternalMonitor)
        → ((a : ActualExternalMonitor) → actual ≡ some a → Stands lib.float64 v a)
        → MayDelete actual d.owner d.resource (policy_of r)
        → Leads Answered (Stepped lib d (policy_of r) v) (delete_actual lib cr actual) v
    unfolding delete_actual actual_external_monitor_from_mackerel
    delete_actual-Leads cr actual stands m = rw m.exists (
        let s = stands m.monitor m.exists in
        Leads-bind Answered (λ _ w. (w ≡ v) ⊎ (w ≡ drop m.monitor.id v))
          (Stepped lib d (policy_of r) v) _ _ v (delete-Leads lib.float64 m.monitor.id v)
          (λ answer u gone.
            Silent-keeps Answered (λ v u c r h. h) (Stepped lib d (policy_of r) v)
              (after_delete lib cr answer) u (after_delete-Calls lib Silent-Routine cr answer)
              (λ _. elim gone [
                | inl same ↦ kept same
                | inr now ↦
                    removed m.monitor.id s.monitor m.policy_sync s.there
                      (subst (λ (x : ActualExternalMonitor). IsOwned d.owner d.resource x.memo)
                        s.view m.owned)
                      now
              ])))

    delete_by-Leads :
        (cr : ExternalMonitor) (actual : Option ActualExternalMonitor) (x : Action)
        → ((a : ActualExternalMonitor) → actual ≡ some a → Stands lib.float64 v a)
        → (plan_delete actual d.owner d.resource (policy_of r)).action ≡ x
        → Leads Answered (Stepped lib d (policy_of r) v) (delete_by lib x cr actual) v
    unfolding delete_by
    delete_by-Leads cr actual delete stands e =
        delete_actual-Leads cr actual stands
          ((plan_delete_iff actual d.owner d.resource (policy_of r)).0.0 e)
    delete_by-Leads cr actual skip_delete stands e =
        quiet lib d (policy_of r) v _ (finalize-Calls lib Silent-Routine cr)
    delete_by-Leads cr actual _ stands e = kept refl

    pub delete_found-Leads :
        (cr : ExternalMonitor) (f : Result (Option ActualExternalMonitor))
        → ((a : ActualExternalMonitor) → f ≡ ok (some a) → Stands lib.float64 v a)
        → Leads Answered (Stepped lib d (policy_of r) v) (delete_found lib r cr d f) v
    unfolding delete_found reconcile_delete
    delete_found-Leads cr (err e) stands = kept refl
    delete_found-Leads cr (ok actual) stands =
        delete_by-Leads cr actual _ (λ a e. stands a (ap ok e)) refl
