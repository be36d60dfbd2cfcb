-- ===== src/Refinement/Reconcile.antt =====
-- What a whole reconciliation does to the monitors.
use mackerel_operator.Prelude.{
  ◌≡◌, refl, sym, subst, ◌∙◌, ap, inl, inr, Option, some, Text, codes, ◌++◌, ◌∷◌, Bool-cases,
  Option-cases,
}
use mackerel_operator.Prelude.Outcome.{ok, err}
use mackerel_operator.Api.{ExternalMonitor}
use mackerel_operator.Monitor.{DesiredExternalMonitor, ActualExternalMonitor}
use mackerel_operator.Program.{
  Program, ◌>>=◌, KubeReply, got, refused, kube_not_found, kube_conflict, kube_other,
}
use mackerel_operator.Service.{Store, Answered, IsConsistent, Named, Run}
use mackerel_operator.Service.Leads.{
  Leads, Leads-Run, Leads-bind, Leads-weaken, Silent-keeps, Silent-bind,
}
use mackerel_operator.Source
use mackerel_operator.Source.{from_external_monitor}
use mackerel_operator.Source.Identity.{desired-resource}
use mackerel_operator.Source.Made.{from_external_monitor-Made}
use mackerel_operator.Controller.Settings.{
  Libraries, Result, Reconciled, ExternalMonitorReconciler, owner_id_of, policy_of,
  external_monitor_source, external_monitor_deletion_source, external_monitor_finalizer,
}
use mackerel_operator.Controller.Secrets.{Values, resolve_header_values}
use mackerel_operator.Controller.Find.{find_actual}
use mackerel_operator.Controller.Patch.{Patched, patch_status, add_finalizer}
use mackerel_operator.Controller.Reconcile.{reconcile, reconcile_resource}
use mackerel_operator.Controller.Reconcile.Deletion.{
  delete_found, delete_desired, reconcile_deletion,
}
use mackerel_operator.Controller.Reconcile.Upsert.{
  upsert_found, with_finalizer, with_desired, with_values, reconcile_upsert,
}
use mackerel_operator.Controller.Reconcile.Calls.{
  Calls-bind, patch_status-Calls, resolve_header_values-Calls, add_finalizer-Calls,
}
use mackerel_operator.Controller.Reconcile.Writes.{report-Calls, finalize-Calls}
use mackerel_operator.Controller.Reconcile.Safety.{blocked-Calls}
use mackerel_operator.Refinement.{Step, kept}
use mackerel_operator.Refinement.Find.{Stands, Located, find_actual-Leads}
use mackerel_operator.Refinement.Deletion.{delete_found-Leads}
use mackerel_operator.Refinement.Upsert.{Silent-Routine, Stepped, quiet, upsert_found-Leads}

-- The resource that a marker names for a name space and a name.
abbrev pub resource_of : Text → Text → Text
resource_of namespace name = codes "externalmonitor/" ++ (namespace ++ b'/' ∷ name)

module _ (lib : Libraries) (r : ExternalMonitorReconciler) where
  open lib.float64 use {F}

  upsert-Leads :
      (d : DesiredExternalMonitor) (v : Store F) (cr : ExternalMonitor)
      (f : Result (Option ActualExternalMonitor))
      → ((a : ActualExternalMonitor) → f ≡ ok (some a) → Stands lib.float64 v a)
      → Leads Answered (Stepped lib d (policy_of r) v) (upsert_found lib cr d f) v
  upsert-Leads d v cr (err e) stands =
      quiet lib d (policy_of r) v _ (unfold upsert_found in report-Calls lib Silent-Routine cr _ e)
  upsert-Leads d v cr (ok actual) stands =
      upsert_found-Leads lib d (policy_of r) v cr actual (λ a e. stands a (ap ok e))

  module _ (v : Store F) (fit : IsConsistent v) where
    -- What goes on from a search, goes on from the same store.
    found-Leads :
        (d : DesiredExternalMonitor) (id : Text)
        (next : Result (Option ActualExternalMonitor) → Program F Reconciled)
        → ((f : Result (Option ActualExternalMonitor))
            → ((a : ActualExternalMonitor) → f ≡ ok (some a) → Stands lib.float64 v a)
            → Leads Answered (Stepped lib d (policy_of r) v) (next f) v)
        → Leads Answered (Stepped lib d (policy_of r) v) (find_actual lib.float64 id d >>= next) v
    found-Leads d id next k =
        Leads-bind Answered (Located lib.float64 v) (Stepped lib d (policy_of r) v)
          (find_actual lib.float64 id d) next v (find_actual-Leads lib.float64 d v fit id)
          (λ f u located.
            subst (Leads Answered (Stepped lib d (policy_of r) v) (next f)) (sym located.0)
              (k f located.1))

    module _ (namespace name : Text) where
      -- One step for the resource of this name, or none.
      abbrev pub Refines : Reconciled → Store F → Type 0
      Refines _ w = Step (owner_id_of r) (resource_of namespace name) (policy_of r) v w

      desired-Refines :
          (d : DesiredExternalMonitor) (m : Program F Reconciled)
          → d.owner ≡ owner_id_of r
          → d.resource ≡ resource_of namespace name
          → Leads Answered (Stepped lib d (policy_of r) v) m v
          → Leads Answered Refines m v
      desired-Refines d m e f h =
          Leads-weaken Answered (Stepped lib d (policy_of r) v) Refines m v
            (λ _ w s.
              subst (λ owner. Step owner (resource_of namespace name) (policy_of r) v w) e
                (subst (λ resource. Step d.owner resource (policy_of r) v w) f s))
            h

      -- Of a resource of this name, the desired state has this owner and names this resource.
      made-Refines :
          (s : Source.ExternalMonitorSource) (cr : ExternalMonitor) (d : DesiredExternalMonitor)
          (m : Program F Reconciled)
          → s.owner_id ≡ owner_id_of r
          → Named namespace name (got cr)
          → from_external_monitor lib.digest s (some cr) ≡ ok d
          → Leads Answered (Stepped lib d (policy_of r) v) m v
          → Leads Answered Refines m v
      unfolding Source.unhashed
      made-Refines s cr d m e named made h =
          desired-Refines d m
            (ap (λ (x : DesiredExternalMonitor). x.owner)
                (from_external_monitor-Made lib.digest s cr d made).whole
              ∙ e)
            (desired-resource lib.digest s cr d made ∙ cc (named.0, named.1)) h

      deletion-Leads :
          (cr : ExternalMonitor)
          → Named namespace name (got cr)
          → Leads Answered Refines (reconcile_deletion lib r cr) v
      unfolding reconcile_deletion delete_desired external_monitor_deletion_source
      deletion-Leads cr named =
          desired (from_external_monitor lib.digest (external_monitor_deletion_source r) (some cr))
            refl
        where
          desired :
              (o : Source.Result DesiredExternalMonitor)
              → from_external_monitor lib.digest (external_monitor_deletion_source r) (some cr) ≡ o
              → Leads Answered Refines (delete_desired lib r cr o) v
          desired (err x) e =
              Silent-keeps Answered (λ v u c r h. h) Refines _ v
                (finalize-Calls lib Silent-Routine cr) (λ _. kept refl)
          desired (ok d) e = made-Refines (external_monitor_deletion_source r) cr d _ refl named e (
              found-Leads d cr.status.monitor_id (delete_found lib r cr d)
                (delete_found-Leads lib r d v cr))

      patched-Leads :
          (d : DesiredExternalMonitor) (p : Patched)
          → Leads Answered (Stepped lib d (policy_of r) v) (with_finalizer lib d p) v
      unfolding with_finalizer
      patched-Leads d (err e) = kept refl
      patched-Leads d (ok cr) =
          found-Leads d cr.status.monitor_id (upsert_found lib cr d) (upsert-Leads d v cr)

      finalized-Leads :
          (cr : ExternalMonitor) (d : DesiredExternalMonitor)
          → Leads Answered (Stepped lib d (policy_of r) v) (with_desired lib cr (ok d)) v
      unfolding with_desired
      finalized-Leads cr d =
          elim (Bool-cases (lib.finalizers.contains cr.finalizers external_monitor_finalizer)) [
            | inl held ↦ rw held (patched-Leads d (ok cr))
            | inr lacking ↦ rw lacking (
                Silent-bind Answered (λ v u c r h. h) (Stepped lib d (policy_of r) v)
                  (add_finalizer lib cr) _ v (add_finalizer-Calls Silent-Routine lib cr)
                  (patched-Leads d))
          ]

      values-Leads :
          (cr : ExternalMonitor) (values : Result Values)
          → Named namespace name (got cr)
          → Leads Answered Refines (with_values lib r cr values) v
      unfolding with_values external_monitor_source
      values-Leads cr (err e) named =
          Silent-keeps Answered (λ v u c r h. h) Refines _ v (blocked-Calls lib Silent-Routine cr e)
            (λ _. kept refl)
      values-Leads cr (ok values) named =
          desired (from_external_monitor lib.digest (external_monitor_source r values) (some cr))
            refl
        where
          desired :
              (o : Source.Result DesiredExternalMonitor)
              → from_external_monitor lib.digest (external_monitor_source r values) (some cr) ≡ o
              → Leads Answered Refines (with_desired lib cr o) v
          desired (err x) e =
              Silent-keeps Answered (λ v u c r h. h) Refines _ v
                (unfold with_desired in
                  Calls-bind Silent-Routine (patch_status lib cr _) _
                    (patch_status-Calls Silent-Routine lib cr _) (λ failed. tt))
                (λ _. kept refl)
          desired (ok d) e =
              made-Refines (external_monitor_source r values) cr d _ refl named e
                (finalized-Leads cr d)

      resource-Leads :
          (reply : KubeReply ExternalMonitor)
          → Named namespace name reply
          → Leads Answered Refines (reconcile_resource lib r reply) v
      unfolding reconcile_resource reconcile_upsert
      resource-Leads (refused kube_not_found) named = kept refl
      resource-Leads (refused kube_conflict) named = kept refl
      resource-Leads (refused kube_other) named = kept refl
      resource-Leads (got cr) named = elim (Option-cases cr.deletion_timestamp) [
        | inl live ↦ rw live (
            Silent-bind Answered (λ v u c r h. h) Refines (resolve_header_values cr) _ v
              (resolve_header_values-Calls Silent-Routine cr)
              (λ values. values-Leads cr values named))
        | inr (t, deleted) ↦ rw deleted (deletion-Leads cr named)
      ]

      pub reconcile-Leads : Leads Answered Refines (reconcile lib r namespace name) v
      unfolding reconcile owner_id_of policy_of external_monitor_source
          external_monitor_deletion_source
      reconcile-Leads = elim (Bool-cases r.has_provider) [
        | inl there ↦ rw there (λ reply u (same, named).
            subst (Leads Answered Refines (reconcile_resource lib r reply)) (sym same)
              (resource-Leads reply named))
        | inr absent ↦ rw absent (kept refl)
      ]

  -- From a store in which each monitor stands under its own identifier, a run of `Reconcile` that
  -- no other client of Mackerel interferes with takes one step of its resource, or none.
  pub reconcile-Step :
      (v w : Store F) (namespace name : Text) (x : Reconciled)
      → IsConsistent v
      → Run Answered v (reconcile lib r namespace name) x w
      → Step (owner_id_of r) (resource_of namespace name) (policy_of r) v w
  reconcile-Step v w namespace name x fit run =
      Leads-Run Answered (Refines v fit namespace name) run (reconcile-Leads v fit namespace name)
