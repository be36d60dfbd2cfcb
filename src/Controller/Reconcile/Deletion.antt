-- ===== src/Controller/Reconcile/Deletion.antt =====
-- `Reconcile` for a resource that is being deleted, and `reconcileDelete`.
use mackerel_operator.Prelude.{false, not, Option, none, some, if◌then◌else◌}
use mackerel_operator.Prelude.Outcome.{ok, err}
use mackerel_operator.Api.{ExternalMonitor}
use mackerel_operator.Monitor.{DesiredExternalMonitor, ActualExternalMonitor}
use mackerel_operator.Planner.{Action, delete, skip_delete, plan_delete}
use mackerel_operator.Provider.Result.{is_sentinel, err_not_found}
use mackerel_operator.Provider.Result as Provider
use mackerel_operator.Provider.Operations.{delete_external_monitor}
use mackerel_operator.Program.{Program, done, ◌>>=◌}
use mackerel_operator.Source
use mackerel_operator.Source.{from_external_monitor}
use mackerel_operator.Controller.Settings.{
  Libraries, Result, provider_error, unsupported_action, nil_dereference, ExternalMonitorReconciler,
  policy_of, external_monitor_deletion_source, Reconciled, fail,
}
use mackerel_operator.Controller.Find.{find_actual}
use mackerel_operator.Controller.Patch.{remove_finalizer}

module _ (lib : Libraries) where
  abbrev F : Type 0
  F = lib.float64.F

  -- `return ctrl.Result{}, r.removeFinalizer(ctx, cr)`
  unfoldable pub finalize : ExternalMonitor → Program F Reconciled
  finalize cr = do e ← remove_finalizer lib cr; done (record { requeue_after = false; error = e })

  -- A monitor that is gone already counts as deleted.
  unfoldable pub after_delete : ExternalMonitor → Provider.Result (Unit {0}) → Program F Reconciled
  unfolding finalize
  after_delete cr (ok u) = finalize cr
  after_delete cr (err e) =
      if not (is_sentinel err_not_found e) then done (fail (provider_error e)) else finalize cr

  unfoldable pub delete_actual :
      ExternalMonitor → Option ActualExternalMonitor → Program F Reconciled
  unfolding after_delete
  delete_actual cr none = done (fail nil_dereference)
  delete_actual cr (some actual) = do
    deleted ← delete_external_monitor lib.float64 actual.id
    after_delete cr deleted

  unfoldable pub delete_by :
      Action → ExternalMonitor → Option ActualExternalMonitor → Program F Reconciled
  unfolding delete_actual finalize
  delete_by delete cr actual = delete_actual cr actual
  delete_by skip_delete cr actual = finalize cr
  delete_by _ cr actual = done (fail unsupported_action)

  module _ (r : ExternalMonitorReconciler) where
    unfoldable pub reconcile_delete :
        ExternalMonitor
        → DesiredExternalMonitor
        → Option ActualExternalMonitor
        → Program F Reconciled
    unfolding delete_by
    reconcile_delete cr desired actual =
        delete_by (plan_delete actual desired.owner desired.resource (policy_of r)).action cr actual

    unfoldable pub delete_found :
        ExternalMonitor
        → DesiredExternalMonitor
        → Result (Option ActualExternalMonitor)
        → Program F Reconciled
    unfolding reconcile_delete
    delete_found cr desired (err e) = done (fail e)
    delete_found cr desired (ok actual) = reconcile_delete cr desired actual

    unfoldable pub delete_desired :
        ExternalMonitor → Source.Result DesiredExternalMonitor → Program F Reconciled
    unfolding finalize delete_found
    delete_desired cr (err e) = finalize cr
    delete_desired cr (ok desired) = do
      found ← find_actual lib.float64 cr.status.monitor_id desired
      delete_found cr desired found

    unfoldable pub reconcile_deletion : ExternalMonitor → Program F Reconciled
    unfolding delete_desired
    reconcile_deletion cr =
        delete_desired cr
          (from_external_monitor lib.digest (external_monitor_deletion_source r) (some cr))
