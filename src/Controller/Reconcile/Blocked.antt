-- ===== src/Controller/Reconcile/Blocked.antt =====
-- `reconcileUpsert` for a resource with a header whose Secret or key is not there.
use mackerel_operator.Prelude.{
  ◌≡◌, ◌⊎◌, refl, sym, ◌∙◌, subst, inl, inr, false, Option, none, some, List, [], ◌∷◌, Text,
  Bool-cases,
}
use mackerel_operator.Prelude.Outcome.{err}
use mackerel_operator.Api.{ExternalMonitor, HeaderField, HeaderValueSource, SecretKeySelector}
use mackerel_operator.Program
use mackerel_operator.Program.{Call, done, ◌>>=◌, KubeReply, got, refused}
use mackerel_operator.Program.Runs.{EnsuresIf, EnsuresIf-bind, EnsuresIf-weaken}
use mackerel_operator.Status.{ready_condition, mark_error}
use mackerel_operator.Controller.Settings.{
  Libraries, Result, ReconcileError, Reconciled, ExternalMonitorReconciler,
}
use mackerel_operator.Controller.Secrets.{
  Values, lookup, resolve_header_values, is_unresolvable_secret_ref,
}
use mackerel_operator.Controller.Secrets.Once.{OnlySecrets}
use mackerel_operator.Controller.Secrets.Direct.{
  Secrets, add_value, direct_secret, direct_ref, direct_source, direct_loop, direct_values, Holds,
  resolve_header_values-Gives,
}
use mackerel_operator.Controller.Patch.{patch_status}
use mackerel_operator.Controller.Reconcile.Truthful.{IsReady, unready}
use mackerel_operator.Controller.Reconcile.Retry.{ComesBack}
use mackerel_operator.Controller.Reconcile.Upsert.{
  report_error, blocked, with_values, reconcile_upsert,
}

-- The Secret cannot be read, or it lacks the key.
abbrev pub LacksKey : Text → KubeReply Values → Type 0
LacksKey key (refused e) = Unit {0}
LacksKey key (got secret) = lookup key secret ≡ none

abbrev pub LacksRef : Secrets → Option SecretKeySelector → Type 0
LacksRef secrets none = Unit {0}
LacksRef secrets (some ref) = LacksKey ref.key (secrets ref.name)

-- The header takes its value from elsewhere, and it is not there.
abbrev pub Unresolvable : Secrets → Option HeaderValueSource → Type 0
Unresolvable secrets none = ⊥
Unresolvable secrets (some source) = LacksRef secrets source.secret_key_ref

-- One of the headers at least has no value.
abbrev pub SomeUnresolvable : Secrets → List HeaderField → Type 0
SomeUnresolvable secrets [] = ⊥
SomeUnresolvable secrets (h ∷ hs) = Unresolvable secrets h.value_from ⊎ SomeUnresolvable secrets hs

abbrev pub DeclaresUnresolvable : Secrets → Option (List HeaderField) → Type 0
DeclaresUnresolvable secrets none = ⊥
DeclaresUnresolvable secrets (some headers) = SomeUnresolvable secrets headers

abbrev Fails : Result Values → Type 0
Fails x = (e : ReconcileError) × (x ≡ err e)

module _ (secrets : Secrets) (name : Text) (values : Values) (next : Values → Result Values) where
  value-Fails : (o : Option Text) → o ≡ none → Fails (add_value name o values next)
  value-Fails none e = (_, refl)
  value-Fails (some v) e = absurd (cc)

  secret-Fails :
      (key : Text) (r : KubeReply Values)
      → LacksKey key r
      → Fails (direct_secret name key r values next)
  secret-Fails key (refused e) lacks = (_, refl)
  secret-Fails key (got secret) lacks = value-Fails (lookup key secret) lacks

  source-Fails :
      (o : Option HeaderValueSource)
      → Unresolvable secrets o
      → Fails (direct_source secrets name o values next)
  source-Fails none lacks = absurd lacks
  source-Fails (some source) lacks = ref-Fails source.secret_key_ref lacks
    where
      ref-Fails :
          (o : Option SecretKeySelector)
          → LacksRef secrets o
          → Fails (direct_ref secrets name o values next)
      ref-Fails none lacks = (_, refl)
      ref-Fails (some ref) lacks = secret-Fails ref.key (secrets ref.name) lacks

  module _ (fails : (vs : Values) → Fails (next vs)) where
    later_secret-Fails :
        (key : Text) (r : KubeReply Values) → Fails (direct_secret name key r values next)
    later_secret-Fails key (refused e) = (_, refl)
    later_secret-Fails key (got secret) = by_value (lookup key secret)
      where
        by_value : (o : Option Text) → Fails (add_value name o values next)
        by_value none = (_, refl)
        by_value (some v) = fails _

    later-Fails : (o : Option HeaderValueSource) → Fails (direct_source secrets name o values next)
    later-Fails none = fails values
    later-Fails (some source) = by_ref source.secret_key_ref
      where
        by_ref : (o : Option SecretKeySelector) → Fails (direct_ref secrets name o values next)
        by_ref none = (_, refl)
        by_ref (some ref) = later_secret-Fails ref.key (secrets ref.name)

loop-Fails :
    (secrets : Secrets) (headers : List HeaderField) (values : Values)
    → SomeUnresolvable secrets headers
    → Fails (direct_loop secrets headers values)
unfolding direct_loop
loop-Fails secrets [] values h = absurd h
loop-Fails secrets (header ∷ headers) values (inl here) =
    source-Fails secrets header.name values (direct_loop secrets headers) header.value_from here
loop-Fails secrets (header ∷ headers) values (inr later) =
    later-Fails secrets header.name values (direct_loop secrets headers)
      (λ vs. loop-Fails secrets headers vs later) header.value_from

values-Fails :
    (secrets : Secrets) (headers : Option (List HeaderField))
    → DeclaresUnresolvable secrets headers
    → Fails (direct_values secrets headers)
values-Fails secrets none h = absurd h
values-Fails secrets (some headers) h = loop-Fails secrets headers [] h

-- Secrets of the name space are read, and the status of the resource is patched with one that is
-- not ready.
abbrev pub OnlyReports : (lib : Libraries) → ExternalMonitor → Call lib.float64.F → Type 0
OnlyReports lib cr (Program.get_secret space name) = space ≡ cr.namespace
OnlyReports lib cr (Program.patch_status cr' s) = (cr' ≡ cr) × ¬ IsReady lib.conditions s
OnlyReports lib cr _ = ⊥

OnlySecrets-OnlyReports :
    (lib : Libraries) (cr : ExternalMonitor) (c : Call lib.float64.F)
    → OnlySecrets cr.namespace c
    → OnlyReports lib cr c
OnlySecrets-OnlyReports lib cr (Program.get_secret space name) e = e
OnlySecrets-OnlyReports lib cr Program.now e = absurd e
OnlySecrets-OnlyReports lib cr _ e = absurd e

module _ (lib : Libraries) (r : ExternalMonitorReconciler) (cr : ExternalMonitor) where
  abbrev Reports : Secrets → Program.Program lib.float64.F Reconciled → Type 0
  Reports secrets = EnsuresIf (Holds cr.namespace secrets) (OnlyReports lib cr) ComesBack

  patched-Reports :
      (secrets : Secrets) (marked : ExternalMonitor) (reason message : Text)
      (f : Option ReconcileError → Reconciled)
      → marked.status.conditions
        ≡ lib.conditions.set_condition cr.status.conditions
            (ready_condition cr false reason message)
      → ((o : Option ReconcileError) → ComesBack (f o))
      → Reports secrets (patch_status lib cr marked >>= λ failed. done (f failed))
  unfolding patch_status
  patched-Reports secrets marked reason message f e back =
      elim (Bool-cases (lib.status_equal cr.status marked.status)) [
        | inl same ↦ rw same (back none)
        | inr changed ↦
            rw changed ((refl, unready lib cr marked.status reason message e), λ reply x. back _)
      ]

  blocked-Reports : (secrets : Secrets) (e : ReconcileError) → Reports secrets (blocked lib cr e)
  unfolding blocked report_error mark_error
  blocked-Reports secrets e = elim (Bool-cases (is_unresolvable_secret_ref e)) [
    | inl absent ↦ rw absent (patched-Reports secrets _ _ _ _ refl (λ o. inl refl))
    | inr other ↦ rw other (patched-Reports secrets _ _ _ _ refl (λ o. inr (_, refl)))
  ]

  -- If a declared header takes its value from a Secret that cannot be read or lacks the key, or
  -- from nowhere, then no run of `reconcileUpsert` reads or writes a monitor, or touches the
  -- finalizers: as long as the reads of Secrets are answered with what they hold, it reads Secrets
  -- of the name space, patches the status of this resource with one that is not ready, and asks to
  -- be run again or returns an error.
  pub reconcile_upsert-OnlyReports :
      (secrets : Secrets)
      → DeclaresUnresolvable secrets cr.spec.headers
      → EnsuresIf
          (Holds cr.namespace secrets)
          (OnlyReports lib cr)
          ComesBack
          (reconcile_upsert lib r cr)
  unfolding reconcile_upsert
  reconcile_upsert-OnlyReports secrets lacking =
      let (e, fails) = values-Fails secrets cr.spec.headers lacking in
      EnsuresIf-bind (Holds cr.namespace secrets) (OnlyReports lib cr)
        (λ v. v ≡ direct_values secrets cr.spec.headers) ComesBack (resolve_header_values cr) _
        (EnsuresIf-weaken (Holds cr.namespace secrets) (Holds cr.namespace secrets)
          (OnlySecrets cr.namespace) (OnlyReports lib cr) _ (λ c x h. h)
          (OnlySecrets-OnlyReports lib cr) (resolve_header_values cr)
          (resolve_header_values-Gives lib.float64.F secrets cr))
        (λ v same.
          subst (λ v. Reports secrets (with_values lib r cr v)) (sym (same ∙ fails))
            (unfold with_values in blocked-Reports secrets e))
