-- ===== src/Controller/Reconcile/Settled.antt =====
-- A resource in order: reconciling it again reads and writes nothing.
use mackerel_operator.Prelude.{
  ◌≡◌, ◌≢◌, refl, sym, ◌∙◌, subst, Bool, true, false, Option, none, some, [], Text, ◌==◌, ==_iff,
  nat_eq, list_eq, Bool-cases, inl, inr,
}
use mackerel_operator.Prelude.Outcome.{ok}
use mackerel_operator.Api.{ExternalMonitor}
use mackerel_operator.Monitor.{DesiredExternalMonitor, ActualExternalMonitor}
use mackerel_operator.Planner.{noop, plan}
use mackerel_operator.Provider.Client.{MonitorExternalHttp, external, replied}
use mackerel_operator.Provider.Convert.{actual_external_monitor_from_mackerel}
use mackerel_operator.Provider.Operations.{
  get_external_monitor, reply_result, external_monitor_from_mackerel,
}
use mackerel_operator.Program
use mackerel_operator.Program.{Call, Answer, Program, done, call, ◌>>=◌, KubeReply, got, refused}
use mackerel_operator.Program.Runs.{EnsuresIf, EnsuresIf-bind, EnsuresIf-weaken}
use mackerel_operator.Source.{from_external_monitor}
use mackerel_operator.Status.{SyncResult, ready_status, mark_ready}
use mackerel_operator.Controller.Settings.{
  Libraries, Result, ExternalMonitorReconciler, external_monitor_source, external_monitor_finalizer,
  Reconciled, requeue,
}
use mackerel_operator.Controller.Secrets.{Values, resolve_header_values}
use mackerel_operator.Controller.Secrets.Once.{OnlySecrets}
use mackerel_operator.Controller.Secrets.Direct.{
  Secrets, direct_values, Holds, resolve_header_values-Gives,
}
use mackerel_operator.Controller.Find.{find_actual, find_otherwise}
use mackerel_operator.Controller.Patch.{patch_status}
use mackerel_operator.Controller.Reconcile.{reconcile, reconcile_resource}
use mackerel_operator.Controller.Reconcile.Deletion.{reconcile_deletion}
use mackerel_operator.Controller.Reconcile.Upsert.{
  synced, perform, upsert_planned, upsert_found, with_finalizer, with_desired, with_values,
  reconcile_upsert,
}

-- What is reported of a monitor that was read, and not written.
abbrev pub read_result : DesiredExternalMonitor → ActualExternalMonitor → Bool → SyncResult
read_result d a applied = record {
  monitor_id = a.id;
  hash = d.hash;
  url = a.url;
  name = a.name;
  applied = applied;
}

-- A read of the resource, of a Secret, or of one monitor.
abbrev pub ReadsOne : {F : Type 0} → Call F → Type 0
ReadsOne (Program.get_resource namespace name) = Unit {0}
ReadsOne (Program.get_secret namespace name) = Unit {0}
ReadsOne (Program.get_monitor id) = Unit {0}
ReadsOne _ = ⊥

-- The reads are answered with the resource, with what the Secrets of its namespace hold, and with
-- the monitor.
abbrev pub Unchanged :
    {F : Type 0}
    → ExternalMonitor
    → Secrets
    → MonitorExternalHttp F
    → (c : Call F) → Answer c
    → Type 0
Unchanged cr secrets p (Program.get_resource namespace name) r = r ≡ got cr
Unchanged cr secrets p (Program.get_secret space name) r = space ≡ cr.namespace → r ≡ secrets name
Unchanged cr secrets p (Program.get_monitor id) r = id ≡ p.id → r ≡ replied (external p)
Unchanged cr secrets p _ r = Unit {0}

module _ (lib : Libraries) (r : ExternalMonitorReconciler) where
  abbrev actual_of : MonitorExternalHttp lib.float64.F → ActualExternalMonitor
  actual_of = actual_external_monitor_from_mackerel lib.float64

  -- A resource whose monitor is known and in sync, and whose status says so.
  pub record IsSettled (cr : ExternalMonitor) (secrets : Secrets) (values : Values)
      (d : DesiredExternalMonitor) (p : MonitorExternalHttp lib.float64.F) : Type 0 where
    pub provider : r.has_provider ≡ true
    pub live : cr.deletion_timestamp ≡ none
    pub finalizer : lib.finalizers.contains cr.finalizers external_monitor_finalizer ≡ true
    pub resolved : direct_values secrets cr.spec.headers ≡ ok values
    pub desired :
        from_external_monitor lib.digest (external_monitor_source r values) (some cr) ≡ ok d
    pub known : cr.status.monitor_id ≡ p.id
    pub named : p.id ≢ []
    pub in_sync : (plan (record { desired = d; actual = some (actual_of p) })).action ≡ noop
    pub reported :
        cr.status
        ≡ (ready_status lib.conditions cr
            (read_result d (actual_of p) false)
            cr.status.last_synced_at).status

  module _ (cr : ExternalMonitor) (secrets : Secrets) (values : Values) (d : DesiredExternalMonitor)
      (p : MonitorExternalHttp lib.float64.F) (s : IsSettled cr secrets values d p) where
    abbrev Quiet : {A : Type 0} → (A → Type 0) → Program lib.float64.F A → Type 0
    Quiet = EnsuresIf (Unchanged cr secrets p) ReadsOne

    abbrev ComesBack : Reconciled → Type 0
    ComesBack x = x ≡ requeue

    synced-Quiet : Quiet ComesBack (synced lib cr d false (ok (actual_of p)))
    unfolding synced mark_ready patch_status
    synced-Quiet = rw ((lib.status_equal_iff _ _).1 s.reported) refl

    found-Quiet : Quiet ComesBack (upsert_found lib cr d (ok (some (actual_of p))))
    unfolding upsert_found upsert_planned perform
    found-Quiet = rw s.in_sync synced-Quiet

    abbrev FindsIt : Result (Option ActualExternalMonitor) → Type 0
    FindsIt x = x ≡ ok (some (actual_of p))

    find-Quiet : Quiet FindsIt (find_actual lib.float64 cr.status.monitor_id d)
    unfolding find_actual find_otherwise get_external_monitor reply_result
        external_monitor_from_mackerel
    find-Quiet = rw s.known (elim (Bool-cases (p.id == [])) [
      | inl empty ↦ absurd (s.named ((==_iff p.id []).0 empty))
      | inr named ↦ rw named (tt, λ x e. rw (e refl) refl)
    ])

    desired-Quiet : Quiet ComesBack (with_desired lib cr (ok d))
    unfolding with_desired with_finalizer
    desired-Quiet = rw s.finalizer (
        EnsuresIf-bind (Unchanged cr secrets p) ReadsOne FindsIt ComesBack
          (find_actual lib.float64 cr.status.monitor_id d) (upsert_found lib cr d) find-Quiet
          (λ x e. subst (λ x. Quiet ComesBack (upsert_found lib cr d x)) (sym e) found-Quiet))

    values-Quiet : Quiet ComesBack (with_values lib r cr (ok values))
    unfolding with_values
    values-Quiet = rw s.desired desired-Quiet

    Unchanged-Holds :
        (c : Call lib.float64.F) (x : Answer c)
        → Unchanged cr secrets p c x
        → Holds cr.namespace secrets c x
    Unchanged-Holds (Program.get_secret space name) x e = e
    Unchanged-Holds (Program.get_monitor id) x e = tt
    Unchanged-Holds (Program.get_resource space name) x e = tt
    Unchanged-Holds Program.find_monitors x e = tt
    Unchanged-Holds _ x e = tt

    OnlySecrets-ReadsOne : (c : Call lib.float64.F) → OnlySecrets cr.namespace c → ReadsOne c
    OnlySecrets-ReadsOne (Program.get_secret space name) e = tt
    OnlySecrets-ReadsOne (Program.get_monitor id) e = tt
    OnlySecrets-ReadsOne (Program.get_resource space name) e = tt
    OnlySecrets-ReadsOne Program.find_monitors e = e
    OnlySecrets-ReadsOne _ e = e

    upsert-Quiet : Quiet ComesBack (reconcile_upsert lib r cr)
    unfolding reconcile_upsert
    upsert-Quiet =
        EnsuresIf-bind (Unchanged cr secrets p) ReadsOne
          (λ v. v ≡ direct_values secrets cr.spec.headers) ComesBack (resolve_header_values cr)
          (with_values lib r cr)
          (EnsuresIf-weaken (Holds cr.namespace secrets) (Unchanged cr secrets p)
            (OnlySecrets cr.namespace) ReadsOne _ Unchanged-Holds OnlySecrets-ReadsOne
            (resolve_header_values cr) (resolve_header_values-Gives lib.float64.F secrets cr))
          (λ v e.
            subst (λ v. Quiet ComesBack (with_values lib r cr v)) (sym (e ∙ s.resolved))
              values-Quiet)

    resource-Quiet : Quiet ComesBack (reconcile_resource lib r (got cr))
    unfolding reconcile_resource
    resource-Quiet =
        subst
          (λ o.
            Quiet ComesBack
              (elim o [ some t ↦ reconcile_deletion lib r cr | none ↦ reconcile_upsert lib r cr ]))
          (sym s.live) upsert-Quiet

    pub reconcile-Quiet :
        (namespace name : Text)
        → EnsuresIf
            (Unchanged cr secrets p)
            ReadsOne
            (λ x. x ≡ requeue)
            (reconcile lib r namespace name)
    unfolding reconcile
    reconcile-Quiet namespace name = simp s.provider (
      tt,
      λ x e. subst (λ x. Quiet ComesBack (reconcile_resource lib r x)) (sym e) resource-Quiet,
    )
