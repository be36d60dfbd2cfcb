-- ===== src/Controller/Reconcile/Guarantees.antt =====
-- What a reconciliation never does, whatever the APIs answer.
use mackerel_operator.Prelude.{
  ℕ, ◌≡◌, ◌≢◌, refl, Option, none, some, Text, codes, Bool-cases, inl, inr,
}
use mackerel_operator.Api.{ExternalMonitor}
use mackerel_operator.Monitor.{DesiredExternalMonitor, ActualExternalMonitor}
use mackerel_operator.Planner.Deletion.{MayDelete}
use mackerel_operator.Program
use mackerel_operator.Program.Runs.{Ensures}
use mackerel_operator.Program.{
  Call, Program, done, call, ask, ◌>>=◌, KubeReply, got, refused, kube_not_found, kube_conflict,
  kube_other,
}
use mackerel_operator.Controller.Settings.{Libraries, ExternalMonitorReconciler, policy_of}
use mackerel_operator.Controller.Reconcile.{reconcile_resource, reconcile}
use mackerel_operator.Controller.Reconcile.Deletion.{reconcile_delete, reconcile_deletion}
use mackerel_operator.Controller.Reconcile.Upsert.{reconcile_upsert}
use mackerel_operator.Controller.Reconcile.Calls.{Routine}
use mackerel_operator.Controller.Reconcile.Safety.{
  reconcile_delete-Calls, deletion-Calls, upsert-Calls,
}

module _ {F : Type 0} where
  -- No monitor is deleted.
  abbrev pub NeverDeletes : Call F → Type 0
  NeverDeletes (Program.delete_monitor id) = ⊥
  NeverDeletes _ = Unit {0}

  -- No monitor is created or updated, and one is deleted only under the policy "sync".
  abbrev pub OnlyDeletes : Text → Call F → Type 0
  OnlyDeletes policy (Program.create_monitor p) = ⊥
  OnlyDeletes policy (Program.update_monitor id p) = ⊥
  OnlyDeletes policy (Program.delete_monitor id) = policy ≡ codes "sync"
  OnlyDeletes policy _ = Unit {0}

  -- The one monitor that may be deleted is the given one, and only if its marker names the owner
  -- and the resource and the policy is "sync".
  abbrev pub DeletesOwned : Option ActualExternalMonitor → Text → Text → Text → Call F → Type 0
  DeletesOwned actual owner resource policy (Program.create_monitor p) = ⊥
  DeletesOwned actual owner resource policy (Program.update_monitor id p) = ⊥
  DeletesOwned actual owner resource policy (Program.delete_monitor id) =
      (m : MayDelete actual owner resource policy) × (m.monitor.id ≡ id)
  DeletesOwned actual owner resource policy _ = Unit {0}

  -- Nothing but the status of the resource is written, and nothing is read.

  NeverDeletes-Routine : Routine {F = F} NeverDeletes
  NeverDeletes-Routine = record {
    get_monitor = λ id. tt;
    find_monitors = tt;
    reread = λ ns name. tt;
    secret = λ ns name. tt;
    status = λ cr s. tt;
    finalizers = λ cr l. tt;
    now = tt;
  }

  OnlyDeletes-Routine : (policy : Text) → Routine {F = F} (OnlyDeletes policy)
  OnlyDeletes-Routine policy = record {
    get_monitor = λ id. tt;
    find_monitors = tt;
    reread = λ ns name. tt;
    secret = λ ns name. tt;
    status = λ cr s. tt;
    finalizers = λ cr l. tt;
    now = tt;
  }

  DeletesOwned-Routine :
      (actual : Option ActualExternalMonitor) (owner resource policy : Text)
      → Routine {F = F} (DeletesOwned actual owner resource policy)
  DeletesOwned-Routine actual owner resource policy = record {
    get_monitor = λ id. tt;
    find_monitors = tt;
    reread = λ ns name. tt;
    secret = λ ns name. tt;
    status = λ cr s. tt;
    finalizers = λ cr l. tt;
    now = tt;
  }

module _ (lib : Libraries) (r : ExternalMonitorReconciler) where
  -- For a resource that is not being deleted, no reconciliation deletes a monitor.
  pub reconcile_upsert-NeverDeletes :
      (cr : ExternalMonitor) → Ensures NeverDeletes (λ _. Unit {0}) (reconcile_upsert lib r cr)
  reconcile_upsert-NeverDeletes cr =
      upsert-Calls lib NeverDeletes-Routine (λ p. tt) (λ id p. tt) r cr

  -- For a resource that is being deleted, no reconciliation creates or updates a monitor, and it
  -- deletes one only under the policy "sync".
  pub reconcile_deletion-OnlyDeletes :
      (cr : ExternalMonitor)
      → Ensures (OnlyDeletes (policy_of r)) (λ _. Unit {0}) (reconcile_deletion lib r cr)
  reconcile_deletion-OnlyDeletes cr =
      deletion-Calls lib (OnlyDeletes-Routine (policy_of r)) r cr (λ sync id. sync)

  -- Once the live monitor is found, a deletion deletes no other monitor than the one found, and
  -- that one only if its marker names the owner and the resource and the policy is "sync"; it
  -- creates and updates none.
  pub reconcile_delete-DeletesOwned :
      (cr : ExternalMonitor) (d : DesiredExternalMonitor) (actual : Option ActualExternalMonitor)
      → Ensures
          (DeletesOwned actual d.owner d.resource (policy_of r))
          (λ _. Unit {0})
          (reconcile_delete lib r cr d actual)
  reconcile_delete-DeletesOwned cr d actual =
      reconcile_delete-Calls lib (DeletesOwned-Routine actual d.owner d.resource (policy_of r)) r cr
        d actual (λ m. (m, refl))

  resource-NeverDeletes :
      policy_of r ≢ codes "sync"
      → (cr : ExternalMonitor)
      → Ensures NeverDeletes (λ _. Unit {0}) (reconcile_resource lib r (got cr))
  unfolding reconcile_resource
  resource-NeverDeletes h cr = by_timestamp cr.deletion_timestamp
    where
      by_timestamp :
          (o : Option ℕ)
          → Ensures NeverDeletes
              (λ _. Unit {0})
              (elim o [ some t ↦ reconcile_deletion lib r cr | none ↦ reconcile_upsert lib r cr ])
      by_timestamp none = reconcile_upsert-NeverDeletes cr
      by_timestamp (some t) =
          deletion-Calls lib NeverDeletes-Routine r cr (λ sync id. absurd (h sync))

  -- Under another policy than "sync", no reconciliation of any resource deletes a monitor.
  pub reconcile-NeverDeletes :
      policy_of r ≢ codes "sync"
      → (namespace name : Text)
      → Ensures NeverDeletes (λ _. Unit {0}) (reconcile lib r namespace name)
  unfolding reconcile
  reconcile-NeverDeletes h namespace name = elim (Bool-cases r.has_provider) [
    | inl present ↦ simp present (tt, answered)
    | inr absent ↦ simp absent tt
  ]
    where
      answered :
          (reply : KubeReply ExternalMonitor)
          → Ensures NeverDeletes (λ _. Unit {0}) (reconcile_resource lib r reply)
      answered (got cr) = resource-NeverDeletes h cr
      answered (refused kube_not_found) = unfold reconcile_resource in tt
      answered (refused kube_conflict) = unfold reconcile_resource in tt
      answered (refused kube_other) = unfold reconcile_resource in tt
