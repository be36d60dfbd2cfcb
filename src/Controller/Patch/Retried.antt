-- ===== src/Controller/Patch/Retried.antt =====
-- `patchFinalizers` against an API server with optimistic locking, while other clients write.
use mackerel_operator.Prelude.{ℕ, zero, suc, ◌≡◌, ◌≢◌, refl, ◌∙◌, ap, List, Text}
use mackerel_operator.Prelude.Outcome.{ok, err}
use mackerel_operator.Api.{ExternalMonitor}
use mackerel_operator.Program
use mackerel_operator.Program.{
  Program, done, call, KubeError, got, refused, kube_not_found, kube_conflict, kube_other,
}
use mackerel_operator.Controller.Patch.{
  Patched, patch_answered, patch_once, reread_answered, further_attempts, patch_finalizers,
}

-- How far the change has come: a patch of the version in hand is next, with so many attempts after
-- this one; the resource is to be read again for the attempts that are left; the change was written
-- over a version that stood there; or the API refused a call for another reason than a conflict.
pub data Progress : Type 0 where
  holding : ℕ → ExternalMonitor → Progress
  reading : ℕ → Progress
  written : ExternalMonitor → ExternalMonitor → Progress
  stopped : KubeError → Progress

-- The two are the same resource, in two versions perhaps.
abbrev pub SameResource : ExternalMonitor → ExternalMonitor → Type 0
SameResource a b = (a.namespace ≡ b.namespace) × (a.name ≡ b.name)

-- What a program does to change the finalizers of a resource. It patches the version in hand, which
-- is accepted only if this is the version that stands there, and is answered with a version that
-- has the new finalizers. After a conflict it reads the resource again, which is answered with any
-- version of it, as long as an attempt is left, and ends with the conflict otherwise. Once the
-- change is written, it ends with the version that has it, whose finalizers are the change of those
-- that stood there. Once a call is refused for another reason, it ends with that error.
abbrev pub Retried :
    {F : Type 0} → (List Text → List Text) → ExternalMonitor → Progress → Program F Patched → Type 0
Retried mutate it (reading zero) (done r) = r ≡ err kube_conflict
Retried mutate it (written stood x) (done r) = (r ≡ ok x) × (x.finalizers ≡ mutate stood.finalizers)
Retried mutate it (stopped e) (done r) = r ≡ err e
Retried mutate it (holding left held) (call (Program.patch_finalizers cr l) k) =
    (cr ≡ held)
    × ((stood x : ExternalMonitor)
        → held ≡ stood
        → x.finalizers ≡ l
        → Retried mutate it (written stood x) (k (got x)))
    × Retried mutate it (reading left) (k (refused kube_conflict))
    × ((e : KubeError) → e ≢ kube_conflict → Retried mutate it (stopped e) (k (refused e)))
Retried mutate it (reading (suc left)) (call (Program.reread_resource space name) k) =
    (space ≡ it.namespace)
    × (name ≡ it.name)
    × ((x : ExternalMonitor) → SameResource x it → Retried mutate it (holding left x) (k (got x)))
    × Retried mutate it (reading left) (k (refused kube_conflict))
    × ((e : KubeError) → e ≢ kube_conflict → Retried mutate it (stopped e) (k (refused e)))
Retried mutate it p m = ⊥

module _ (F : Type 0) (mutate : List Text → List Text) (it : ExternalMonitor) where
  once-Retried :
      (left : ℕ) (cr : ExternalMonitor) (again : Program F Patched)
      → Retried mutate it (reading left) again
      → Retried mutate it (holding left cr) (patch_once mutate cr again)
  unfolding patch_once patch_answered
  once-Retried left cr again h = (
    refl,
    λ stood x version e. (refl, e ∙ ap (λ (c : ExternalMonitor). mutate c.finalizers) version),
    h,
    refused_otherwise,
  )
    where
      refused_otherwise :
          (e : KubeError)
          → e ≢ kube_conflict
          → Retried mutate it (stopped e) (patch_answered mutate again (refused e))
      refused_otherwise kube_not_found other = refl
      refused_otherwise kube_conflict other = absurd (other refl)
      refused_otherwise kube_other other = refl

  further-Retried :
      (left : ℕ) (cr : ExternalMonitor)
      → SameResource cr it
      → Retried mutate it (reading left) (further_attempts {F = F} mutate left cr)
  unfolding further_attempts reread_answered
  further-Retried zero cr same = refl
  further-Retried (suc left) cr same = (
    same.0,
    same.1,
    λ x same'. once-Retried left x (further_attempts mutate left x) (further-Retried left x same'),
    further-Retried left cr same,
    refused_otherwise,
  )
    where
      refused_otherwise :
          (e : KubeError)
          → e ≢ kube_conflict
          → Retried mutate it
              (stopped e)
              (reread_answered mutate (further_attempts {F = F} mutate left) cr (refused e))
      refused_otherwise kube_not_found other = refl
      refused_otherwise kube_conflict other = absurd (other refl)
      refused_otherwise kube_other other = refl

-- Let the API accept a patch only where the version it was formed from is the one that stands there,
-- answer an accepted patch with the new finalizers, and answer a read with the resource that was
-- asked for. `patchFinalizers` with `n` further attempts patches the resource it is given; after a
-- conflict it reads the resource again and patches what it read, at most `n` times; it ends with a
-- conflict only when no attempt is left. The finalizers it returns are the change of those that
-- stood there when the patch was accepted. A refusal that is no conflict ends it with that error.
pub patch_finalizers-Retried :
    (F : Type 0) (mutate : List Text → List Text) (n : ℕ) (cr : ExternalMonitor)
    → Retried mutate cr (holding n cr) (patch_finalizers {F = F} mutate n cr)
unfolding patch_finalizers
patch_finalizers-Retried F mutate n cr =
    once-Retried F mutate cr n cr (further_attempts mutate n cr)
      (further-Retried F mutate cr n cr (refl, refl))
