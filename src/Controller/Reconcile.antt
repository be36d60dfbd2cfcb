-- ===== src/Controller/Reconcile.antt =====
-- `Reconcile` of internal/controller/externalmonitor_controller.go; its two halves are the children
-- `Deletion`, with `reconcileDelete`, and `Upsert`.
pub mod Deletion
pub mod Upsert
pub mod Calls
pub mod ProviderCalls
pub mod Writes
pub mod Safety
pub mod Guarantees
pub mod Steady
pub mod Order
pub mod Settled
pub mod Convergence
pub mod Live
pub mod Creation
pub mod Renewal
pub mod Removal
pub mod Accepted
pub mod Retry
pub mod Truthful
pub mod Blocked
pub mod Admitted
use mackerel_operator.Prelude.{Bool, true, false, not, Option, none, some, Text, if◌then◌else◌}
use mackerel_operator.Api.{ExternalMonitor}
use mackerel_operator.Program.{
  Program, done, ask, ◌>>=◌, KubeError, kube_not_found, KubeReply, got, refused, get_resource,
}
use mackerel_operator.Controller.Settings.{
  Libraries, ReconcileError, provider_nil, kube_error, ExternalMonitorReconciler, Reconciled, stop,
  fail,
}
use Deletion.{reconcile_deletion}
use Upsert.{reconcile_upsert}

module _ (lib : Libraries) (r : ExternalMonitorReconciler) where
  abbrev F : Type 0
  F = lib.float64.F

  unfoldable pub reconcile_resource : KubeReply ExternalMonitor → Program F Reconciled
  unfolding reconcile_deletion reconcile_upsert
  reconcile_resource (refused kube_not_found) = done stop
  reconcile_resource (refused e) = done (fail (kube_error e))
  reconcile_resource (got cr) = elim cr.deletion_timestamp [
    | some t ↦ reconcile_deletion lib r cr
    | none ↦ reconcile_upsert lib r cr
  ]

  unfoldable pub reconcile : Text → Text → Program F Reconciled
  unfolding reconcile_resource
  reconcile namespace name =
      if not r.has_provider
      then done (fail provider_nil)
      else (do reply ← ask (get_resource namespace name); reconcile_resource reply)
