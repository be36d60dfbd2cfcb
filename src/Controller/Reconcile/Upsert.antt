-- ===== src/Controller/Reconcile/Upsert.antt =====
-- `Reconcile` for a resource that is to have a monitor.
use mackerel_operator.Prelude.{
  Bool, true, false, not, Option, none, some, Text, codes, if◌then◌else◌,
}
use mackerel_operator.Prelude.Outcome.{ok, err}
use mackerel_operator.Api.{ExternalMonitor}
use mackerel_operator.Monitor.{DesiredExternalMonitor, ActualExternalMonitor}
use mackerel_operator.Ownership.Marker.{Marker, apply_marker}
use mackerel_operator.Planner.{
  Action, create, update, noop, restore_marker, ownership_lost, delete, skip_delete, Decision, plan,
}
use mackerel_operator.Provider.Result.{is_sentinel, err_rate_limited}
use mackerel_operator.Provider.Result as Provider
use mackerel_operator.Provider.Operations.{create_external_monitor, update_external_monitor}
use mackerel_operator.Program.{Program, done, ◌>>=◌}
use mackerel_operator.Source
use mackerel_operator.Source.{from_external_monitor}
use mackerel_operator.Status.{
  mark_ready, mark_error, mark_ownership_lost, mark_invalid_spec, reason_secret_not_found,
  reason_secret_error,
}
use mackerel_operator.Controller.Settings.{
  Libraries, Result, ReconcileError, kube_error, provider_error, source_error, joined,
  update_without_actual, restore_without_actual, nil_monitor, unsupported_action,
  ExternalMonitorReconciler, external_monitor_source, external_monitor_finalizer, Reconciled, fail,
  requeue, join_error,
}
use mackerel_operator.Controller.Secrets.{Values, resolve_header_values, is_unresolvable_secret_ref}
use mackerel_operator.Controller.Find.{find_actual}
use mackerel_operator.Controller.Patch.{Patched, patch_status, add_finalizer}

abbrev pub marker_of : DesiredExternalMonitor → Marker
marker_of desired = record {
  resource = desired.resource;
  owner = desired.owner;
  hash = desired.hash;
}

abbrev pub reason_provider_error : Text
reason_provider_error = codes "ProviderError"

module _ (lib : Libraries) where
  abbrev F : Type 0
  F = lib.float64.F

  -- The status reports an error, which is returned, with the error of the report if there is one.
  unfoldable pub report_error : ExternalMonitor → Text → ReconcileError → Program F Reconciled
  unfolding join_error
  report_error cr reason e = do
    failed ← patch_status lib cr (mark_error lib.conditions cr reason (lib.error_text e))
    done (fail (join_error e failed))

  unfoldable pub blocked : ExternalMonitor → ReconcileError → Program F Reconciled
  unfolding report_error is_unresolvable_secret_ref
  blocked cr e =
      if is_unresolvable_secret_ref e
      then (do
        failed ←
            patch_status lib cr
              (mark_error lib.conditions cr reason_secret_not_found (lib.error_text e))
        done (record { requeue_after = true; error = failed }))
      else report_error cr reason_secret_error e

  -- `return ctrl.Result{RequeueAfter: …}, nil`, unless the status could not be written.
  abbrev pub requeue_unless : Option ReconcileError → Reconciled
  requeue_unless none = requeue
  requeue_unless (some e) = fail e

  unfoldable pub rate_limited_or_failed : Provider.Error → Option ReconcileError → Reconciled
  rate_limited_or_failed e (some failed) = fail (joined (provider_error e) failed)
  rate_limited_or_failed e none =
      if is_sentinel err_rate_limited e then requeue else fail (provider_error e)

  -- What follows the provider's call.
  unfoldable pub synced :
      ExternalMonitor
      → DesiredExternalMonitor
      → Bool
      → Provider.Result ActualExternalMonitor
      → Program F Reconciled
  unfolding rate_limited_or_failed
  synced cr desired applied (err e) = do
    failed ←
        patch_status lib cr
          (mark_error lib.conditions cr reason_provider_error (lib.error_text (provider_error e)))
    done (rate_limited_or_failed e failed)
  synced cr desired applied (ok actual) = do
    marked ← mark_ready lib.conditions cr (record {
      monitor_id = actual.id;
      hash = desired.hash;
      url = actual.url;
      name = actual.name;
      applied = applied;
    })
    failed ← patch_status lib cr marked
    done (requeue_unless failed)

  unfoldable pub write_marked :
      ExternalMonitor → DesiredExternalMonitor → ActualExternalMonitor → Program F Reconciled
  unfolding synced
  write_marked cr desired actual = do
    result ←
        update_external_monitor lib.float64 actual.id desired
          (apply_marker actual.memo (marker_of desired))
    synced cr desired true result

  -- The `switch` on the planner's action, with its reason.
  unfoldable pub perform :
      ExternalMonitor
      → DesiredExternalMonitor
      → Option ActualExternalMonitor
      → Action
      → Text
      → Program F Reconciled
  unfolding synced write_marked
  perform cr desired actual create reason = do
    result ←
        create_external_monitor lib.float64 desired (apply_marker desired.memo (marker_of desired))
    synced cr desired true result
  perform cr desired none update reason = done (fail update_without_actual)
  perform cr desired (some a) update reason = write_marked cr desired a
  perform cr desired none restore_marker reason = done (fail restore_without_actual)
  perform cr desired (some a) restore_marker reason = write_marked cr desired a
  perform cr desired none noop reason = done (fail nil_monitor)
  perform cr desired (some a) noop reason = synced cr desired false (ok a)
  perform cr desired actual ownership_lost reason = do
    failed ← patch_status lib cr (mark_ownership_lost lib.conditions cr reason)
    done (requeue_unless failed)
  perform cr desired actual delete reason = done (fail unsupported_action)
  perform cr desired actual skip_delete reason = done (fail unsupported_action)

  -- `planner.Plan`, and the action that it decides for.
  unfoldable pub upsert_planned :
      ExternalMonitor
      → DesiredExternalMonitor
      → Option ActualExternalMonitor
      → Decision
      → Program F Reconciled
  unfolding perform
  upsert_planned cr desired actual decision =
      perform cr desired actual decision.action decision.reason

  unfoldable pub upsert_found :
      ExternalMonitor
      → DesiredExternalMonitor
      → Result (Option ActualExternalMonitor)
      → Program F Reconciled
  unfolding report_error upsert_planned
  upsert_found cr desired (err e) = report_error cr reason_provider_error e
  upsert_found cr desired (ok actual) =
      upsert_planned cr desired actual (plan (record { desired = desired; actual = actual }))

  unfoldable pub with_finalizer : DesiredExternalMonitor → Patched → Program F Reconciled
  unfolding upsert_found
  with_finalizer desired (err e) = done (fail (kube_error e))
  with_finalizer desired (ok cr) = do
    found ← find_actual lib.float64 cr.status.monitor_id desired
    upsert_found cr desired found

  unfoldable pub with_desired :
      ExternalMonitor → Source.Result DesiredExternalMonitor → Program F Reconciled
  unfolding with_finalizer
  with_desired cr (err e) = do
    failed ←
        patch_status lib cr (mark_invalid_spec lib.conditions cr (lib.error_text (source_error e)))
    done (record { requeue_after = false; error = failed })
  with_desired cr (ok desired) =
      if not (lib.finalizers.contains cr.finalizers external_monitor_finalizer)
      then (do patched ← add_finalizer lib cr; with_finalizer desired patched)
      else with_finalizer desired (ok cr)

  module _ (r : ExternalMonitorReconciler) where
    unfoldable pub with_values : ExternalMonitor → Result Values → Program F Reconciled
    unfolding blocked with_desired
    with_values cr (err e) = blocked cr e
    with_values cr (ok values) =
        with_desired cr
          (from_external_monitor lib.digest (external_monitor_source r values) (some cr))

    unfoldable pub reconcile_upsert : ExternalMonitor → Program F Reconciled
    unfolding with_values
    reconcile_upsert cr = do values ← resolve_header_values cr; with_values cr values
