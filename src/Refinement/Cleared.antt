-- ===== src/Refinement/Cleared.antt =====
-- A deletion that ends without an error leaves no owned monitor behind.
use mathlib.Core.Option.{some-injective}
use mackerel_operator.Prelude.{
  ◌≡◌, refl, sym, subst, ◌∙◌, ap, inl, inr, true, Option, none, some, Text, codes, Bool-cases,
  ==_iff, nat_eq, list_eq,
}
use mackerel_operator.Prelude.Outcome.{ok, err}
use mackerel_operator.Api.{ExternalMonitor}
use mackerel_operator.Monitor.{DesiredExternalMonitor, ActualExternalMonitor}
use mackerel_operator.Planner.Decisions.{IsOwned}
use mackerel_operator.Planner.Deletion.{MayDelete, plan_delete_iff}
use mackerel_operator.Provider.Client.{MonitorExternalHttp, Reply, replied, failed}
use mackerel_operator.Provider.Convert.{actual_external_monitor_from_mackerel}
use mackerel_operator.Provider.Operations.{delete_external_monitor, deleted_result}
use mackerel_operator.Provider.Result as Provider
use mackerel_operator.Provider.Result.{is_sentinel, err_not_found}
use mackerel_operator.Program
use mackerel_operator.Program.{Program, done, call, ◌>>=◌}
use mackerel_operator.Service.{Store, drop, IsConsistent, Run}
use mackerel_operator.Service.Honest.{Honest}
use mackerel_operator.Service.Leads.{Leads, Leads-Run, Leads-bind, Silent-keeps}
use mackerel_operator.Source.{from_external_monitor}
use mackerel_operator.Controller.Settings.{
  Libraries, Result, Reconciled, ExternalMonitorReconciler, policy_of,
  external_monitor_deletion_source,
}
use mackerel_operator.Controller.Find.{find_actual}
use mackerel_operator.Controller.Reconcile.Deletion.{
  finalize, delete_actual, after_delete, delete_by, reconcile_delete, delete_found, delete_desired,
  reconcile_deletion,
}
use mackerel_operator.Controller.Reconcile.Writes.{finalize-Calls}
use mackerel_operator.Refinement.Fate.{drop-cases}
use mackerel_operator.Refinement.Find.{Stands}
use mackerel_operator.Refinement.Search.{NoneOwned, Tells, Told, find_actual-Tells}
use mackerel_operator.Refinement.Upsert.{Silent-Routine}

-- At most one monitor is owned.
abbrev pub OneOwned : {F : Type 0} → Text → Text → Store F → Type 0
OneOwned {F} owner resource v =
    (id id' : Text) (m m' : MonitorExternalHttp F)
    → v id ≡ some m
    → v id' ≡ some m'
    → IsOwned owner resource m.memo
    → IsOwned owner resource m'.memo
    → id ≡ id'

module _ {F : Type 0} (owner resource : Text) (id : Text) (v : Store F) where
  drop_here : drop id v id ≡ none
  unfolding drop
  drop_here = rw ((==_iff id id).1 refl)

  -- Without the one owned monitor, none is owned.
  dropped :
      (m : MonitorExternalHttp F)
      → OneOwned owner resource v
      → v id ≡ some m
      → IsOwned owner resource m.memo
      → NoneOwned owner resource (drop id v)
  dropped m one there owned other n e o = elim (drop-cases id other v) [
    | inl (same, gone) ↦ cc
    | inr before ↦
        let same = one other id n m (sym before ∙ e) there o owned in
        cc (sym (ap (drop id v) same) ∙ e, drop_here)
  ]

module _ (lib : Libraries) (d : DesiredExternalMonitor) where
  open lib.float64 use {F}

  -- If the reconciliation ends without an error, no monitor is owned.
  abbrev pub Clears : Reconciled → Store F → Type 0
  Clears x w = x.error ≡ none → NoneOwned d.owner d.resource w

  finalize-Clears :
      (cr : ExternalMonitor) (v : Store F)
      → NoneOwned d.owner d.resource v
      → Leads Honest Clears (finalize lib cr) v
  finalize-Clears cr v h =
      Silent-keeps Honest (λ v u c r h. h.0) Clears (finalize lib cr) v
        (finalize-Calls lib Silent-Routine cr) (λ x e. h)

  -- What a deletion says.
  abbrev Deleted : Provider.Result (Unit {0}) → Store F → Type 0
  Deleted (ok u) w = NoneOwned d.owner d.resource w
  Deleted (err e) w = is_sentinel err_not_found e ≡ true → NoneOwned d.owner d.resource w

  after_delete-Clears :
      (cr : ExternalMonitor) (r : Provider.Result (Unit {0})) (v : Store F)
      → Deleted r v
      → Leads Honest Clears (after_delete lib cr r) v
  unfolding after_delete
  after_delete-Clears cr (ok u) v h = finalize-Clears cr v h
  after_delete-Clears cr (err e) v h = elim (Bool-cases (is_sentinel err_not_found e)) [
    | inl gone ↦ rw gone (finalize-Clears cr v (h gone))
    | inr there ↦ rw there (λ e. absurd (cc))
  ]

  -- In a store where at most one monitor is owned.
  module _ (r : ExternalMonitorReconciler) (v : Store F) (one : OneOwned d.owner d.resource v) where
    delete-Deleted :
        (a : ActualExternalMonitor)
        → Stands lib.float64 v a
        → IsOwned d.owner d.resource a.memo
        → Leads Honest Deleted (delete_external_monitor lib.float64 a.id) v
    unfolding delete_external_monitor actual_external_monitor_from_mackerel
    delete-Deleted a s owned = answered
      where
        gone : NoneOwned d.owner d.resource (drop a.id v)
        gone =
            dropped d.owner d.resource a.id v s.monitor one s.there (
              subst (λ (x : ActualExternalMonitor). IsOwned d.owner d.resource x.memo) s.view owned)

        answered :
            (reply : Reply (Unit {0})) (u : Store F)
            → Honest v (Program.delete_monitor a.id) reply u
            → Deleted (deleted_result lib.float64 reply) u
        answered (replied _) u (_, now) = subst (NoneOwned d.owner d.resource) (sym now) gone
        answered (failed e) u (_, missing) = λ says. absurd (cc (missing says, s.there))

    delete_actual-Clears :
        (cr : ExternalMonitor) (a : ActualExternalMonitor)
        → Stands lib.float64 v a
        → IsOwned d.owner d.resource a.memo
        → Leads Honest Clears (delete_actual lib cr (some a)) v
    unfolding delete_actual
    delete_actual-Clears cr a s owned =
        Leads-bind Honest Deleted Clears (delete_external_monitor lib.float64 a.id) _ v
          (delete-Deleted a s owned) (λ answer u h. after_delete-Clears cr answer u h)

    module _ (sync : policy_of r ≡ codes "sync") where
      owned-Clears :
          (cr : ExternalMonitor) (a : ActualExternalMonitor)
          → Stands lib.float64 v a
          → IsOwned d.owner d.resource a.memo
          → Leads Honest Clears (reconcile_delete lib r cr d (some a)) v
      unfolding reconcile_delete delete_by
      owned-Clears cr a s owned =
          rw
            ((plan_delete_iff (some a) d.owner d.resource (policy_of r)).0.1
              (record { policy_sync = sync; monitor = a; exists = refl; owned = owned }))
            (delete_actual-Clears cr a s owned)

      skipped-Clears :
          (cr : ExternalMonitor) (actual : Option ActualExternalMonitor)
          → NoneOwned d.owner d.resource v
          → ¬ MayDelete actual d.owner d.resource (policy_of r)
          → Leads Honest Clears (reconcile_delete lib r cr d actual) v
      unfolding reconcile_delete delete_by
      skipped-Clears cr actual h may_not =
          let (iff, otherwise) = plan_delete_iff actual d.owner d.resource (policy_of r) in
          rw (otherwise (λ e. may_not (iff.0 e))) (finalize-Clears cr v h)

      delete_found-Clears :
          (cr : ExternalMonitor) (f : Result (Option ActualExternalMonitor))
          → Tells lib.float64 d v f
          → Leads Honest Clears (delete_found lib r cr d f) v
      unfolding delete_found actual_external_monitor_from_mackerel
      delete_found-Clears cr (err e) told = λ e. absurd (cc)
      delete_found-Clears cr (ok none) told = skipped-Clears cr none told (λ m. cc (m.exists))
      delete_found-Clears cr (ok (some a)) (s, inl owned) = owned-Clears cr a s owned
      delete_found-Clears cr (ok (some a)) (s, inr none_of) =
          skipped-Clears cr (some a) none_of (λ m. none_of a.id s.monitor s.there (
            subst (λ (x : ActualExternalMonitor). IsOwned d.owner d.resource x.memo)
              (sym (some-injective _ _ m.exists) ∙ s.view) m.owned))

      deletion-Clears :
          (cr : ExternalMonitor)
          → IsConsistent v
          → ((m : MonitorExternalHttp F)
              → v cr.status.monitor_id ≡ some m
              → IsOwned d.owner d.resource m.memo)
          → from_external_monitor lib.digest (external_monitor_deletion_source r) (some cr) ≡ ok d
          → Leads Honest Clears (reconcile_deletion lib r cr) v
      unfolding reconcile_deletion delete_desired
      deletion-Clears cr fit recorded made = rw made (
          Leads-bind Honest (Told lib.float64 d v) Clears
            (find_actual lib.float64 cr.status.monitor_id d) _ v
            (find_actual-Tells lib.float64 d v fit cr.status.monitor_id recorded)
            (λ f u (same, told).
              subst (Leads Honest Clears (delete_found lib r cr d f)) (sym same)
                (delete_found-Clears cr f told)))

-- Let the policy be "sync", and let a resource that is being deleted have the desired state `d`.
-- From a store in which each monitor stands under its own identifier, at most one is owned by the
-- resource, and the one under the recorded identifier is, if there is one: with a Mackerel API
-- that tells how things are, a run of the deletion that ends without an error leaves no monitor
-- that is owned by the resource.
pub reconcile_deletion-NoneOwned :
    (lib : Libraries) (r : ExternalMonitorReconciler) (cr : ExternalMonitor)
    (d : DesiredExternalMonitor) (v w : Store lib.float64.F) (x : Reconciled)
    → policy_of r ≡ codes "sync"
    → from_external_monitor lib.digest (external_monitor_deletion_source r) (some cr) ≡ ok d
    → IsConsistent v
    → OneOwned d.owner d.resource v
    → ((m : MonitorExternalHttp lib.float64.F)
        → v cr.status.monitor_id ≡ some m
        → IsOwned d.owner d.resource m.memo)
    → Run Honest v (reconcile_deletion lib r cr) x w
    → x.error ≡ none
    → NoneOwned d.owner d.resource w
reconcile_deletion-NoneOwned lib r cr d v w x sync made fit one recorded run =
    Leads-Run Honest (Clears lib d) run (deletion-Clears lib d r v one sync cr fit recorded made)
