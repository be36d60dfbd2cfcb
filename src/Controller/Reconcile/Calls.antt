-- ===== src/Controller/Reconcile/Calls.antt =====
-- Which calls the parts of a reconciliation make.
use mackerel_operator.Prelude.{
  ℕ, zero, suc, Option, none, some, List, [], ◌∷◌, Text, All, Bool-cases, inl, inr,
}
use mackerel_operator.Api.{
  ExternalMonitor, ExternalMonitorStatus, HeaderField, HeaderValueSource, SecretKeySelector,
}
use mackerel_operator.Program
use mackerel_operator.Program.{
  Call, Program, done, call, ask, ◌>>=◌, KubeReply, got, refused, KubeError, kube_not_found,
  kube_conflict, kube_other,
}
use mackerel_operator.Program.Runs.{Ensures, Ensures-bind}
use mackerel_operator.Status.{Conditions, SyncResult, mark_ready}
use mackerel_operator.Controller.Settings.{Libraries}
use mackerel_operator.Controller.Secrets.{resolve_declared, resolve_header_values}
use mackerel_operator.Controller.Secrets.Reads.{
  Readable, ReadableRef, ReadableSource, resolve_loop-Reads,
}
use mackerel_operator.Controller.Patch.{
  Patched, patch_status, patch_answered, patch_once, reread_answered, further_attempts,
  patch_finalizers, add_finalizer, remove_finalizer,
}

-- The calls that any reconciliation may make: all but those that write a monitor.
pub record Routine {F : Type 0} (allowed : Call F → Type 0) : Type 0 where
  pub get_monitor : (id : Text) → allowed (Program.get_monitor id)
  pub find_monitors : allowed Program.find_monitors
  pub reread : (namespace name : Text) → allowed (Program.reread_resource namespace name)
  pub secret : (namespace name : Text) → allowed (Program.get_secret namespace name)
  pub status :
      (cr : ExternalMonitor) (status : ExternalMonitorStatus)
      → allowed (Program.patch_status cr status)
  pub finalizers : (cr : ExternalMonitor) (l : List Text) → allowed (Program.patch_finalizers cr l)
  pub now : allowed Program.now

module _ {F : Type 0} {allowed : Call F → Type 0} (ro : Routine allowed) where
  -- Every call of the program is allowed.
  abbrev pub Calls : {A : Type 0} → Program F A → Type 0
  Calls = Ensures allowed (λ _. Unit {0})

  pub Calls-bind :
      {A B : Type 0} (m : Program F A) (f : A → Program F B)
      → Calls m
      → ((a : A) → Calls (f a))
      → Calls (m >>= f)
  Calls-bind m f h k = Ensures-bind allowed (λ _. Unit {0}) (λ _. Unit {0}) m f h (λ a _. k a)

  every_secret :
      (namespace : Text) (headers : List HeaderField) → All (Readable allowed namespace) headers
  every_secret namespace [] = tt
  every_secret namespace (header ∷ headers) =
      (any_source header.value_from, every_secret namespace headers)
    where
      any_ref : (o : Option SecretKeySelector) → ReadableRef allowed namespace o
      any_ref none = tt
      any_ref (some ref) = ro.secret namespace ref.name

      any_source : (o : Option HeaderValueSource) → ReadableSource allowed namespace o
      any_source none = tt
      any_source (some source) = any_ref source.secret_key_ref

  pub resolve_header_values-Calls :
      (cr : ExternalMonitor) → Calls (resolve_header_values {F = F} cr)
  unfolding resolve_header_values
  resolve_header_values-Calls cr = by_headers cr.spec.headers
    where
      by_headers : (o : Option (List HeaderField)) → Calls (resolve_declared {F = F} cr.namespace o)
      by_headers none = unfold resolve_declared in tt
      by_headers (some headers) =
          unfold resolve_declared in
          resolve_loop-Reads allowed cr.namespace headers [] [] (every_secret cr.namespace headers)

  pub patch_status-Calls :
      (lib : Libraries) (cr marked : ExternalMonitor) → Calls (patch_status lib {F = F} cr marked)
  unfolding patch_status
  patch_status-Calls lib cr marked = elim (Bool-cases (lib.status_equal cr.status marked.status)) [
    | inl same ↦ rw same tt
    | inr changed ↦ rw changed (ro.status cr marked.status, λ r. tt)
  ]

  pub mark_ready-Calls :
      (conditions : Conditions) (cr : ExternalMonitor) (result : SyncResult)
      → Calls (mark_ready conditions {F = F} cr result)
  unfolding mark_ready
  mark_ready-Calls conditions cr result = elim (Bool-cases result.applied) [
    | inl yes' ↦ rw yes' (ro.now, λ t. tt)
    | inr no' ↦ rw no' tt
  ]

  module _ (mutate : List Text → List Text) where
    patched-Calls :
        (again : Program F Patched) (r : KubeReply ExternalMonitor)
        → Calls again
        → Calls (patch_answered mutate again r)
    unfolding patch_answered
    patched-Calls again (got cr) h = tt
    patched-Calls again (refused kube_conflict) h = h
    patched-Calls again (refused kube_not_found) h = tt
    patched-Calls again (refused kube_other) h = tt

    once-Calls :
        (cr : ExternalMonitor) (again : Program F Patched)
        → Calls again
        → Calls (patch_once mutate cr again)
    unfolding patch_once
    once-Calls cr again h = (ro.finalizers cr (mutate cr.finalizers), λ r. patched-Calls again r h)

    reread-Calls :
        (next : ExternalMonitor → Program F Patched) (cr : ExternalMonitor)
        (r : KubeReply ExternalMonitor)
        → ((cr' : ExternalMonitor) → Calls (next cr'))
        → Calls (reread_answered mutate next cr r)
    unfolding reread_answered
    reread-Calls next cr (got current) h = once-Calls current (next current) (h current)
    reread-Calls next cr (refused kube_conflict) h = h cr
    reread-Calls next cr (refused kube_not_found) h = tt
    reread-Calls next cr (refused kube_other) h = tt

    attempts-Calls : (n : ℕ) (cr : ExternalMonitor) → Calls (further_attempts mutate n cr)
    unfolding further_attempts
    attempts-Calls zero cr = tt
    attempts-Calls (suc n) cr = (
      ro.reread cr.namespace cr.name,
      λ r. reread-Calls (further_attempts mutate n) cr r (attempts-Calls n),
    )

    patch_finalizers-Calls : (n : ℕ) (cr : ExternalMonitor) → Calls (patch_finalizers mutate n cr)
    unfolding patch_finalizers
    patch_finalizers-Calls n cr = once-Calls cr (further_attempts mutate n cr) (attempts-Calls n cr)

  pub add_finalizer-Calls :
      (lib : Libraries) (cr : ExternalMonitor) → Calls (add_finalizer lib {F = F} cr)
  unfolding add_finalizer
  add_finalizer-Calls lib cr = patch_finalizers-Calls _ lib.retry_steps cr

  pub remove_finalizer-Calls :
      (lib : Libraries) (cr : ExternalMonitor) → Calls (remove_finalizer lib {F = F} cr)
  unfolding remove_finalizer
  remove_finalizer-Calls lib cr =
      Calls-bind (patch_finalizers _ lib.retry_steps cr) _
        (patch_finalizers-Calls _ lib.retry_steps cr) (λ p. tt)
