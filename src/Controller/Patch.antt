-- ===== src/Controller/Patch.antt =====
-- `patchStatus`, `patchFinalizers`, `addFinalizer` and `removeFinalizer` of
-- internal/controller/externalmonitor_controller.go. `retry.RetryOnConflict` makes an attempt again
-- for as long as it ends in a conflict, at most a number of times that is a parameter.
pub mod Retried
use mackerel_operator.Prelude.{ℕ, zero, suc, Option, none, some, List, Text, if◌then◌else◌}
use mackerel_operator.Prelude.Outcome.{Outcome, ok, err}
use mackerel_operator.Api.{ExternalMonitor}
use mackerel_operator.Program.{
  Program, done, ask, ◌>>=◌, KubeError, kube_not_found, kube_conflict, KubeReply, got, refused,
  patch_status as patch_status_call, patch_finalizers as patch_finalizers_call, reread_resource,
}
use mackerel_operator.Controller.Settings.{
  Libraries, ReconcileError, kube_error, external_monitor_finalizer,
}

abbrev pub Patched : Type 0
Patched = Outcome KubeError ExternalMonitor

unfoldable pub status_answered : KubeReply (Unit {0}) → Option ReconcileError
status_answered (got u) = none
status_answered (refused e) = some (kube_error e)

module _ (lib : Libraries) where
  -- `marked` is the resource after `mark()`: an unchanged status is not written.
  unfoldable pub patch_status :
      {F : Type 0} → ExternalMonitor → ExternalMonitor → Program F (Option ReconcileError)
  unfolding status_answered
  patch_status cr marked =
      if lib.status_equal cr.status marked.status
      then done none
      else (do r ← ask (patch_status_call cr marked.status); done (status_answered r))

module _ {F : Type 0} (mutate : List Text → List Text) where
  -- The answer to a patch; `again` is the next attempt.
  unfoldable pub patch_answered : Program F Patched → KubeReply ExternalMonitor → Program F Patched
  patch_answered again (got cr) = done (ok cr)
  patch_answered again (refused kube_conflict) = again
  patch_answered again (refused e) = done (err e)

  unfoldable pub patch_once : ExternalMonitor → Program F Patched → Program F Patched
  unfolding patch_answered
  patch_once cr again = do
    r ← ask (patch_finalizers_call cr (mutate cr.finalizers))
    patch_answered again r

  -- The answer to reading the resource again, past the cache.
  unfoldable pub reread_answered :
      (ExternalMonitor → Program F Patched)
      → ExternalMonitor
      → KubeReply ExternalMonitor
      → Program F Patched
  unfolding patch_once
  reread_answered next cr (got current) = patch_once current (next current)
  reread_answered next cr (refused kube_conflict) = next cr
  reread_answered next cr (refused e) = done (err e)

  -- The attempts after the first.
  unfoldable pub further_attempts : ℕ → ExternalMonitor → Program F Patched
  unfolding reread_answered
  further_attempts zero cr = done (err kube_conflict)
  further_attempts (suc n) cr = do
    r ← ask (reread_resource cr.namespace cr.name)
    reread_answered (further_attempts n) cr r

  unfoldable pub patch_finalizers : ℕ → ExternalMonitor → Program F Patched
  unfolding further_attempts patch_once
  patch_finalizers retries cr = patch_once cr (further_attempts retries cr)

-- `client.IgnoreNotFound`
unfoldable pub ignore_not_found : Patched → Option ReconcileError
ignore_not_found (ok cr) = none
ignore_not_found (err kube_not_found) = none
ignore_not_found (err e) = some (kube_error e)

module _ (lib : Libraries) {F : Type 0} where
  unfoldable pub add_finalizer : ExternalMonitor → Program F Patched
  unfolding patch_finalizers
  add_finalizer cr =
      patch_finalizers (λ l. lib.finalizers.add l external_monitor_finalizer) lib.retry_steps cr

  unfoldable pub remove_finalizer : ExternalMonitor → Program F (Option ReconcileError)
  unfolding patch_finalizers ignore_not_found
  remove_finalizer cr = do
    patched ←
        patch_finalizers (λ l. lib.finalizers.remove l external_monitor_finalizer) lib.retry_steps
          cr
    done (ignore_not_found patched)
