-- ===== src/Controller/Reconcile/Order.antt =====
-- The finalizer stands before any write of a monitor.
use mackerel_operator.Prelude.{
  ℕ, zero, suc, ◌≡◌, Bool, true, false, Option, List, Text, Bool-cases, inl, inr,
}
use mackerel_operator.Prelude.Outcome.{ok, err}
use mackerel_operator.Api.{ExternalMonitor}
use mackerel_operator.Monitor.{DesiredExternalMonitor}
use mackerel_operator.Program
use mackerel_operator.Program.{
  Call, Answer, Program, done, call, ◌>>=◌, KubeError, KubeReply, got, refused, kube_not_found,
  kube_conflict, kube_other,
}
use mackerel_operator.Program.Runs.{Ensures}
use mackerel_operator.Source
use mackerel_operator.Source.{from_external_monitor}
use mackerel_operator.Controller.Settings.{
  Libraries, Result, ReconcileError, ExternalMonitorReconciler, Reconciled,
  external_monitor_finalizer,
}
use mackerel_operator.Controller.Secrets.{
  Values, resolve_header_values, secret_names_for_external_monitor, is_unresolvable_secret_ref,
}
use mackerel_operator.Controller.Secrets.Index.{ReadsSecrets, resolve_header_values-ReadsSecrets}
use mackerel_operator.Controller.Patch.{
  Patched, patch_status, patch_answered, patch_once, reread_answered, further_attempts,
  patch_finalizers, add_finalizer,
}
use mackerel_operator.Controller.Reconcile.Upsert.{
  report_error, blocked, with_finalizer, with_desired, with_values, reconcile_upsert,
}

-- The patch was refused.
abbrev IsRefused : Patched → Type 0
IsRefused (ok cr) = ⊥
IsRefused (err e) = Unit {0}

module _ {F : Type 0} (has : List Text → Bool) where
  -- No monitor is created, updated or deleted before a patch has succeeded that sets finalizers
  -- with the wanted one; a result without such a patch has the property.
  abbrev pub FinalizerFirst : {A : Type 0} → (A → Type 0) → Program F A → Type 0
  FinalizerFirst post (done a) = post a
  FinalizerFirst post (call (Program.patch_finalizers cr l) k) =
      (has l ≡ true) × ((e : KubeError) → FinalizerFirst post (k (refused e)))
  FinalizerFirst post (call (Program.create_monitor p) k) = ⊥
  FinalizerFirst post (call (Program.update_monitor id p) k) = ⊥
  FinalizerFirst post (call (Program.delete_monitor id) k) = ⊥
  FinalizerFirst post (call c k) = (r : Answer c) → FinalizerFirst post (k r)

  First-bind :
      {A B : Type 0} (mid : A → Type 0) (post : B → Type 0) (m : Program F A) (f : A → Program F B)
      → FinalizerFirst mid m
      → ((a : A) → mid a → FinalizerFirst post (f a))
      → FinalizerFirst post (m >>= f)
  First-bind mid post (done a) f h k = k a h
  First-bind mid post (call (Program.patch_finalizers cr l) g) f (sets, h) k =
      (sets, λ e. First-bind mid post (g (refused e)) f (h e) k)
  First-bind mid post (call (Program.create_monitor p) g) f h k = absurd h
  First-bind mid post (call (Program.update_monitor id p) g) f h k = absurd h
  First-bind mid post (call (Program.delete_monitor id) g) f h k = absurd h
  First-bind mid post (call (Program.get_monitor id) g) f h k =
      λ r. First-bind mid post (g r) f (h r) k
  First-bind mid post (call Program.find_monitors g) f h k =
      λ r. First-bind mid post (g r) f (h r) k
  First-bind mid post (call (Program.get_resource s n) g) f h k =
      λ r. First-bind mid post (g r) f (h r) k
  First-bind mid post (call (Program.reread_resource s n) g) f h k =
      λ r. First-bind mid post (g r) f (h r) k
  First-bind mid post (call (Program.list_indexed s n) g) f h k =
      λ r. First-bind mid post (g r) f (h r) k
  First-bind mid post (call (Program.get_secret s n) g) f h k =
      λ r. First-bind mid post (g r) f (h r) k
  First-bind mid post (call (Program.patch_status cr s) g) f h k =
      λ r. First-bind mid post (g r) f (h r) k
  First-bind mid post (call Program.now g) f h k = λ r. First-bind mid post (g r) f (h r) k

  secrets-First :
      {A : Type 0} (namespace : Text) (names : List Text) (m : Program F A)
      → Ensures (ReadsSecrets namespace names) (λ _. Unit {0}) m
      → FinalizerFirst (λ _. Unit {0}) m
  secrets-First namespace names (done a) h = h
  secrets-First namespace names (call (Program.get_secret s n) g) (_, h) =
      λ r. secrets-First namespace names (g r) (h r)
  secrets-First namespace names (call (Program.patch_finalizers cr l) g) (h, _) = absurd h
  secrets-First namespace names (call (Program.create_monitor p) g) (h, _) = absurd h
  secrets-First namespace names (call (Program.update_monitor id p) g) (h, _) = absurd h
  secrets-First namespace names (call (Program.delete_monitor id) g) (h, _) = absurd h
  secrets-First namespace names (call (Program.get_monitor id) g) (h, _) = absurd h
  secrets-First namespace names (call Program.find_monitors g) (h, _) = absurd h
  secrets-First namespace names (call (Program.get_resource s n) g) (h, _) = absurd h
  secrets-First namespace names (call (Program.reread_resource s n) g) (h, _) = absurd h
  secrets-First namespace names (call (Program.list_indexed s n) g) (h, _) = absurd h
  secrets-First namespace names (call (Program.patch_status cr s) g) (h, _) = absurd h
  secrets-First namespace names (call Program.now g) (h, _) = absurd h

module _ (F : Type 0) (has : List Text → Bool) (mutate : List Text → List Text)
    (sets : (l : List Text) → has (mutate l) ≡ true) where
  answered-First :
      (again : Program F Patched) (e : KubeError)
      → FinalizerFirst {F = F} has IsRefused again
      → FinalizerFirst {F = F} has IsRefused (patch_answered mutate again (refused e))
  unfolding patch_answered
  answered-First again kube_conflict h = h
  answered-First again kube_not_found h = tt
  answered-First again kube_other h = tt

  once-First :
      (cr : ExternalMonitor) (again : Program F Patched)
      → FinalizerFirst {F = F} has IsRefused again
      → FinalizerFirst {F = F} has IsRefused (patch_once mutate cr again)
  unfolding patch_once
  once-First cr again h = (sets cr.finalizers, λ e. answered-First again e h)

  reread-First :
      (next : ExternalMonitor → Program F Patched) (cr : ExternalMonitor)
      (r : KubeReply ExternalMonitor)
      → ((cr' : ExternalMonitor) → FinalizerFirst {F = F} has IsRefused (next cr'))
      → FinalizerFirst {F = F} has IsRefused (reread_answered mutate next cr r)
  unfolding reread_answered
  reread-First next cr (got current) h = once-First current (next current) (h current)
  reread-First next cr (refused kube_conflict) h = h cr
  reread-First next cr (refused kube_not_found) h = tt
  reread-First next cr (refused kube_other) h = tt

  attempts-First :
      (n : ℕ) (cr : ExternalMonitor)
      → FinalizerFirst {F = F} has IsRefused (further_attempts mutate n cr)
  unfolding further_attempts
  attempts-First zero cr = tt
  attempts-First (suc n) cr = λ r. reread-First (further_attempts mutate n) cr r (attempts-First n)

  patch-First :
      (n : ℕ) (cr : ExternalMonitor)
      → FinalizerFirst {F = F} has IsRefused (patch_finalizers mutate n cr)
  unfolding patch_finalizers
  patch-First n cr = once-First cr (further_attempts mutate n cr) (attempts-First n cr)

module _ (lib : Libraries) where
  abbrev pub has_finalizer : List Text → Bool
  has_finalizer l = lib.finalizers.contains l external_monitor_finalizer

  abbrev First : {A : Type 0} → Program lib.float64.F A → Type 0
  First = FinalizerFirst has_finalizer (λ _. Unit {0})

  status-First : (cr marked : ExternalMonitor) → First (patch_status lib cr marked)
  unfolding patch_status
  status-First cr marked = elim (Bool-cases (lib.status_equal cr.status marked.status)) [
    | inl same ↦ rw same tt
    | inr changed ↦ rw changed (λ r. tt)
  ]

  reported-First :
      (cr marked : ExternalMonitor) (f : Option ReconcileError → Reconciled)
      → First (patch_status lib cr marked >>= λ failed. done (f failed))
  reported-First cr marked f =
      First-bind has_finalizer (λ _. Unit {0}) (λ _. Unit {0}) (patch_status lib cr marked) _
        (status-First cr marked) (λ _ _. tt)

  blocked-First : (cr : ExternalMonitor) (e : ReconcileError) → First (blocked lib cr e)
  unfolding blocked report_error
  blocked-First cr e = elim (Bool-cases (is_unresolvable_secret_ref e)) [
    | inl absent ↦ rw absent (reported-First cr _ _)
    | inr other ↦ rw other (reported-First cr _ _)
  ]

  add-First :
      (cr : ExternalMonitor)
      → FinalizerFirst has_finalizer IsRefused (add_finalizer lib {F = lib.float64.F} cr)
  unfolding add_finalizer
  add-First cr =
      patch-First lib.float64.F has_finalizer _
        (λ l. lib.finalizers.contains-add l external_monitor_finalizer) lib.retry_steps cr

  refused-First :
      (d : DesiredExternalMonitor) (p : Patched) → IsRefused p → First (with_finalizer lib d p)
  unfolding with_finalizer
  refused-First d (err e) h = tt
  refused-First d (ok cr) h = absurd h

  desired-First :
      (cr : ExternalMonitor) (s : Source.Result DesiredExternalMonitor)
      → has_finalizer cr.finalizers ≡ false
      → First (with_desired lib cr s)
  unfolding with_desired
  desired-First cr (err e) h = reported-First cr _ _
  desired-First cr (ok d) h = rw h (
      First-bind has_finalizer IsRefused (λ _. Unit {0}) (add_finalizer lib cr) _ (add-First cr)
        (refused-First d))

  module _ (r : ExternalMonitorReconciler) where
    values-First :
        (cr : ExternalMonitor) (v : Result Values)
        → has_finalizer cr.finalizers ≡ false
        → First (with_values lib r cr v)
    unfolding with_values
    values-First cr (err e) h = blocked-First cr e
    values-First cr (ok values) h = desired-First cr _ h

    -- For a resource that is not being deleted and has no finalizer of the operator, `Reconcile`
    -- writes no monitor before a patch has succeeded whose finalizers contain that of the operator.
    pub reconcile_upsert-FinalizerFirst :
        (cr : ExternalMonitor)
        → has_finalizer cr.finalizers ≡ false
        → FinalizerFirst has_finalizer (λ _. Unit {0}) (reconcile_upsert lib r cr)
    unfolding reconcile_upsert
    reconcile_upsert-FinalizerFirst cr h =
        First-bind has_finalizer (λ _. Unit {0}) (λ _. Unit {0}) (resolve_header_values cr) _
          (secrets-First has_finalizer cr.namespace (secret_names_for_external_monitor cr)
            (resolve_header_values cr) (resolve_header_values-ReadsSecrets _ cr))
          (λ v _. values-First cr v h)
