-- ===== src/Controller/Reconcile/Removal.antt =====
-- The reconciliation that deletes the monitor of a resource.
use mackerel_operator.Prelude.{
  ℕ, ◌≡◌, ◌≢◌, ◌⊎◌, inl, inr, refl, sym, ap, subst, true, false, none, some, List, [], ◌∷◌, Text,
  codes, nat_eq, list_eq,
}
use mackerel_operator.Prelude.Outcome.{ok}
use mackerel_operator.Api.{ExternalMonitor}
use mackerel_operator.Monitor.{DesiredExternalMonitor, ActualExternalMonitor}
use mackerel_operator.Planner.{delete, plan_delete}
use mackerel_operator.Planner.Decisions.{IsOwned}
use mackerel_operator.Planner.Deletion.{plan_delete_iff}
use mackerel_operator.Provider.Client.{MonitorExternalHttp, external, Reply, replied, failed}
use mackerel_operator.Provider.Result.{api_error, map_mackerel_error, is_sentinel, status_not_found}
use mackerel_operator.Provider.Convert.{actual_external_monitor_from_mackerel}
use mackerel_operator.Provider.Operations.{delete_external_monitor, deleted_result}
use mackerel_operator.Program
use mackerel_operator.Program.{Call, Answer, Program, done, call, ◌>>=◌, got}
use mackerel_operator.Program.Runs.{result_of, calls_of, Does, Does-bind}
use mackerel_operator.Source.{from_external_monitor}
use mackerel_operator.Controller.Settings.{
  Libraries, ExternalMonitorReconciler, policy_of, external_monitor_deletion_source,
  external_monitor_finalizer, stop,
}
use mackerel_operator.Controller.Find.{find_actual}
use mackerel_operator.Controller.Find.Known.{find_actual-Does}
use mackerel_operator.Controller.Patch.{
  further_attempts, patch_finalizers, patch_once, patch_answered, remove_finalizer,
  ignore_not_found,
}
use mackerel_operator.Controller.Reconcile.{reconcile, reconcile_resource}
use mackerel_operator.Controller.Reconcile.Upsert.{reconcile_upsert}
use mackerel_operator.Controller.Reconcile.Deletion.{
  finalize, after_delete, delete_actual, delete_by, reconcile_delete, delete_found, delete_desired,
  reconcile_deletion,
}

-- The service has deleted the monitor, or has none.
abbrev pub IsGone : Reply (Unit {0}) → Type 0
IsGone answer = (answer ≡ replied tt) ⊎ (answer ≡ failed (api_error status_not_found))

module _ (lib : Libraries) (r : ExternalMonitorReconciler) (cr cr' : ExternalMonitor)
    (d : DesiredExternalMonitor) (p : MonitorExternalHttp lib.float64.F) (t : ℕ)
    (answers : (c : Call lib.float64.F) → Answer c) where
  abbrev actual : ActualExternalMonitor
  actual = actual_external_monitor_from_mackerel lib.float64 p

  abbrev without_finalizer : Call lib.float64.F
  without_finalizer =
      Program.patch_finalizers cr (lib.finalizers.remove cr.finalizers external_monitor_finalizer)

  module _ (provider : r.has_provider ≡ true) (deleting : cr.deletion_timestamp ≡ some t)
      (made : from_external_monitor lib.digest (external_monitor_deletion_source r) (some cr)
        ≡ ok d)
      (known : cr.status.monitor_id ≢ [])
      (read : answers (Program.get_monitor cr.status.monitor_id) ≡ replied (external p))
      (sync : policy_of r ≡ codes "sync") (owned : IsOwned d.owner d.resource p.memo)
      (gone : IsGone (answers (Program.delete_monitor p.id)))
      (patched : answers without_finalizer ≡ got cr') where
    -- What a reconciliation calls once it has read the resource.
    abbrev removal : List (Call lib.float64.F)
    removal =
        Program.get_monitor cr.status.monitor_id
        ∷ Program.delete_monitor p.id
        ∷ without_finalizer
        ∷ []

    removed-Does : Does answers (without_finalizer ∷ []) (ok cr') (
        patch_finalizers
          (λ l. lib.finalizers.remove l external_monitor_finalizer)
          lib.retry_steps
          cr)
    unfolding patch_finalizers patch_once patch_answered
    removed-Does =
        let (result, calls) =
          subst
            (λ x. Does answers [] (ok cr') (
              patch_answered (λ l. lib.finalizers.remove l external_monitor_finalizer)
                (further_attempts (λ l. lib.finalizers.remove l external_monitor_finalizer)
                  lib.retry_steps cr)
                x))
            (sym patched) (refl, refl) in
        (result, ap (◌∷◌ without_finalizer) calls)

    finalize-Does : Does answers (without_finalizer ∷ []) stop (finalize lib cr)
    unfolding finalize remove_finalizer ignore_not_found
    finalize-Does =
        Does-bind answers (remove_finalizer lib cr)
          (λ e. done (record { requeue_after = false; error = e }))
          (Does-bind answers
            (patch_finalizers (λ l. lib.finalizers.remove l external_monitor_finalizer)
              lib.retry_steps cr)
            (λ patched. done (ignore_not_found patched)) removed-Does (refl, refl))
          (refl, refl)

    after-Does :
        Does answers
          (without_finalizer ∷ [])
          stop
          (after_delete lib cr (deleted_result lib.float64 (answers (Program.delete_monitor p.id))))
    unfolding after_delete deleted_result map_mackerel_error is_sentinel
    after-Does = elim gone [
      | inl deleted ↦ rw deleted finalize-Does
      | inr missing ↦ rw missing finalize-Does
    ]

    delete-Does :
        Does answers
          (Program.delete_monitor p.id ∷ without_finalizer ∷ [])
          stop
          (delete_actual lib cr (some actual))
    unfolding delete_actual delete_external_monitor actual_external_monitor_from_mackerel
    delete-Does = (after-Does.0, ap (◌∷◌ (Program.delete_monitor p.id)) after-Does.1)

    decided : (plan_delete (some actual) d.owner d.resource (policy_of r)).action ≡ delete
    unfolding actual_external_monitor_from_mackerel
    decided =
        (plan_delete_iff (some actual) d.owner d.resource (policy_of r)).0.1
          (record { policy_sync = sync; monitor = actual; exists = refl; owned = owned })

    found-Does :
        Does answers
          (Program.delete_monitor p.id ∷ without_finalizer ∷ [])
          stop
          (delete_found lib r cr d (ok (some actual)))
    unfolding delete_found reconcile_delete delete_by
    found-Does =
        subst
          (λ a.
            Does answers (Program.delete_monitor p.id ∷ without_finalizer ∷ []) stop
              (delete_by lib a cr (some actual)))
          (sym decided) delete-Does

    deletion-Does : Does answers removal stop (reconcile_deletion lib r cr)
    unfolding reconcile_deletion delete_desired
    deletion-Does = rw made (
        Does-bind answers (find_actual lib.float64 cr.status.monitor_id d) (delete_found lib r cr d)
          (find_actual-Does lib.float64 answers cr.status.monitor_id d p known read) found-Does)

    resource-Does : Does answers removal stop (reconcile_resource lib r (got cr))
    unfolding reconcile_resource
    resource-Does =
        subst
          (λ o.
            Does answers removal stop
              (elim o [ some t ↦ reconcile_deletion lib r cr | none ↦ reconcile_upsert lib r cr ]))
          (sym deleting) deletion-Does

    -- Let there be a provider, the policy be "sync", and the API answer the read of the resource
    -- with one that is being deleted and from which a desired state is formed, the read of the
    -- monitor that its status names, under an identifier that is not empty, with an owned monitor,
    -- and the deletion of this monitor with success or "not found", and accept the removal of the
    -- finalizer. Then a reconciliation reads the two, deletes this monitor and removes the
    -- finalizer, in this order, makes no other call, and ends without an error.
    pub reconcile-removes :
        (namespace name : Text)
        → answers (Program.get_resource namespace name) ≡ got cr
        → (result_of answers (reconcile lib r namespace name) ≡ stop)
          × (calls_of answers (reconcile lib r namespace name)
              ≡ Program.get_resource namespace name
                ∷ Program.get_monitor cr.status.monitor_id
                ∷ Program.delete_monitor p.id
                ∷ Program.patch_finalizers cr
                    (lib.finalizers.remove cr.finalizers external_monitor_finalizer)
                ∷ [])
    unfolding reconcile
    reconcile-removes namespace name e =
        let (result, calls) =
          subst (λ x. Does answers removal stop (reconcile_resource lib r x)) (sym e)
            resource-Does in
        simp provider (result, ap (◌∷◌ (Program.get_resource namespace name)) calls)
