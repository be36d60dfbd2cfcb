-- ===== src/Controller/Secrets/Direct.antt =====
-- `resolveHeaderValues` reads each Secret once; it returns what reading the Secret for every header
-- would.
use mackerel_operator.Prelude.{
  ◌≡◌, refl, sym, ap, subst, Option, none, some, List, [], ◌∷◌, Text, All, ◌==◌, ==_iff, nat_eq,
  list_eq, Bool-cases, inl, inr, arith,
}
use mackerel_operator.Prelude.Outcome.{ok, err}
use mackerel_operator.Api.{ExternalMonitor, HeaderField, HeaderValueSource, SecretKeySelector}
use mackerel_operator.Program
use mackerel_operator.Program.{Call, Answer, Program, KubeReply, got, refused}
use mackerel_operator.Program.Runs.{EnsuresIf, EnsuresIf-run, result_of, calls_of}
use mackerel_operator.Controller.Settings.{
  Result, secret_key_ref_missing, secret_get_error, secret_key_missing,
}
use mackerel_operator.Controller.Secrets.{
  Values, lookup, with_value, with_secret, secret_answered, resolve_ref, resolve_source,
  resolve_loop, resolve_declared, resolve_header_values,
}
use mackerel_operator.Controller.Secrets.Once.{
  OnlySecrets, Distinct, ReadsOnce-Distinct, resolve_header_values-ReadsOnce,
}

-- What the Secrets of a namespace hold, or how reading them fails.
abbrev pub Secrets : Type 0
Secrets = Text → KubeReply Values

-- The value of a key, with the rest of the headers behind it.
abbrev pub add_value : Text → Option Text → Values → (Values → Result Values) → Result Values
add_value header none values next = err (secret_key_missing header)
add_value header (some value) values next = next ((header, value) ∷ values)

abbrev pub direct_secret :
    Text → Text → KubeReply Values → Values → (Values → Result Values) → Result Values
direct_secret header key (refused e) values next = err (secret_get_error e header)
direct_secret header key (got secret) values next = add_value header (lookup key secret) values next

abbrev pub direct_ref :
    Secrets → Text → Option SecretKeySelector → Values → (Values → Result Values) → Result Values
direct_ref secrets header none values next = err (secret_key_ref_missing header)
direct_ref secrets header (some ref) values next =
    direct_secret header ref.key (secrets ref.name) values next

abbrev pub direct_source :
    Secrets → Text → Option HeaderValueSource → Values → (Values → Result Values) → Result Values
direct_source secrets header none values next = next values
direct_source secrets header (some source) values next =
    direct_ref secrets header source.secret_key_ref values next

-- The values of the headers, each from its Secret.
unfoldable pub direct_loop : Secrets → List HeaderField → Values → Result Values
direct_loop secrets [] values = ok values
direct_loop secrets (header ∷ headers) values =
    direct_source secrets header.name header.value_from values (direct_loop secrets headers)

abbrev pub direct_values : Secrets → Option (List HeaderField) → Result Values
direct_values secrets none = ok []
direct_values secrets (some headers) = direct_loop secrets headers []

-- The reads of this namespace's Secrets are answered with what they hold.
abbrev pub Holds : {F : Type 0} → Text → Secrets → (c : Call F) → Answer c → Type 0
Holds namespace secrets (Program.get_secret space name) r = space ≡ namespace → r ≡ secrets name
Holds namespace secrets _ r = Unit {0}

module _ (F : Type 0) (namespace : Text) (secrets : Secrets) where
  -- Every Secret that is kept is what a read would give.
  abbrev IsCurrent : List (Text × Values) → Type 0
  IsCurrent read =
      (name : Text) (secret : Values) → lookup name read ≡ some secret → secrets name ≡ got secret

  IsCurrent-cons :
      (name : Text) (secret : Values) (read : List (Text × Values))
      → secrets name ≡ got secret
      → IsCurrent read
      → IsCurrent ((name, secret) ∷ read)
  unfolding lookup
  IsCurrent-cons name secret read e h name' secret' found = elim (Bool-cases (name == name')) [
    | inl same ↦ ground (arith, ==_iff name name')
    | inr other ↦ ground (arith, h name' secret')
  ]

  abbrev Gives : Result Values → Program F (Result Values) → Type 0
  Gives expected = EnsuresIf (Holds namespace secrets) (OnlySecrets namespace) (λ v. v ≡ expected)

  module _ (after : Values → Result Values)
      (next : Values → List (Text × Values) → Program F (Result Values))
      (rest : (values : Values) (read : List (Text × Values))
        → IsCurrent read
        → Gives (after values) (next values read)) where
    value-Gives :
        (header : Text) (ref : SecretKeySelector) (v : Option Text) (values : Values)
        (read : List (Text × Values))
        → IsCurrent read
        → Gives
            (add_value header v values after)
            (with_value namespace header ref v values (λ values'. next values' read))
    unfolding with_value
    value-Gives header ref none values read h = refl
    value-Gives header ref (some v) values read h = rest ((header, v) ∷ values) read h

    -- The Secret is among the kept ones, or it is read and kept.
    ref-Gives :
        (header : Text) (o : Option SecretKeySelector) (values : Values)
        (read : List (Text × Values))
        → IsCurrent read
        → Gives
            (direct_ref secrets header o values after)
            (resolve_ref namespace header o values read next)
    unfolding resolve_ref
    ref-Gives header none values read h = refl
    ref-Gives header (some ref) values read h = looked_up (lookup ref.name read) refl
      where
        body : Values → List (Text × Values) → Program F (Result Values)
        body secret read =
            with_value namespace header ref (lookup ref.key secret) values
              (λ values'. next values' read)

        answered :
            (r : KubeReply Values)
            → secrets ref.name ≡ r
            → Gives
                (direct_secret header ref.key r values after)
                (secret_answered namespace header ref read body r)
        answered (refused e) held = refl
        answered (got secret) held =
            value-Gives header ref (lookup ref.key secret) values ((ref.name, secret) ∷ read)
              (IsCurrent-cons ref.name secret read held h)

        looked_up :
            (o : Option Values)
            → lookup ref.name read ≡ o
            → Gives
                (direct_secret header ref.key (secrets ref.name) values after)
                (with_secret namespace header ref read body o)
        looked_up (some secret) kept =
            rw (h ref.name secret kept)
              (value-Gives header ref (lookup ref.key secret) values read h)
        looked_up none kept = (
          refl,
          λ r e.
              subst
                (λ s.
                  Gives (direct_secret header ref.key s values after)
                    (secret_answered namespace header ref read body r))
                (e refl) (answered r (sym (e refl))),
        )

    source-Gives :
        (header : Text) (o : Option HeaderValueSource) (values : Values)
        (read : List (Text × Values))
        → IsCurrent read
        → Gives
            (direct_source secrets header o values after)
            (resolve_source namespace header o values read next)
    unfolding resolve_source
    source-Gives header none values read h = rest values read h
    source-Gives header (some source) values read h =
        ref-Gives header source.secret_key_ref values read h

  loop-Gives :
      (headers : List HeaderField) (values : Values) (read : List (Text × Values))
      → IsCurrent read
      → Gives
          (direct_loop secrets headers values)
          (resolve_loop {F = F} namespace headers values read)
  unfolding resolve_loop direct_loop
  loop-Gives [] values read h = refl
  loop-Gives (header ∷ headers) values read h =
      source-Gives (direct_loop secrets headers) (resolve_loop namespace headers)
        (loop-Gives headers) header.name header.value_from values read h

  declared-Gives :
      (headers : Option (List HeaderField))
      → Gives (direct_values secrets headers) (resolve_declared {F = F} namespace headers)
  unfolding resolve_declared
  declared-Gives none = refl
  declared-Gives (some headers) =
      loop-Gives headers [] [] (λ name secret found. unfold lookup in cc)

-- The same for all answers that agree with the Secrets.
pub resolve_header_values-Gives :
    (F : Type 0) (secrets : Secrets) (cr : ExternalMonitor)
    → EnsuresIf {F = F}
        (Holds cr.namespace secrets)
        (OnlySecrets cr.namespace)
        (λ v. v ≡ direct_values secrets cr.spec.headers)
        (resolve_header_values cr)
unfolding resolve_header_values
resolve_header_values-Gives F secrets cr = declared-Gives F cr.namespace secrets cr.spec.headers

module _ (F : Type 0) (answers : (c : Call F) → Answer c) (cr : ExternalMonitor) where
  abbrev answered_secrets : Secrets
  answered_secrets name = answers (Program.get_secret cr.namespace name)

  answers-Holds : (c : Call F) → Holds cr.namespace answered_secrets c (answers c)
  answers-Holds (Program.get_secret space name) =
      λ e. ap (λ s. answers (Program.get_secret s name)) e
  answers-Holds Program.now = tt
  answers-Holds _ = tt

  -- Where the Secrets do not change meanwhile, `resolveHeaderValues` returns what reading the Secret
  -- anew for every header would: the values, or the error of the first header that has one. It
  -- makes no call but reads of Secrets of the namespace of the resource, and no read twice.
  pub resolve_header_values-direct :
      (result_of answers (resolve_header_values cr)
        ≡ direct_values answered_secrets cr.spec.headers)
      × All (OnlySecrets cr.namespace) (calls_of answers (resolve_header_values cr))
      × Distinct (calls_of answers (resolve_header_values cr))
  resolve_header_values-direct =
      let (same, only) =
        EnsuresIf-run (Holds cr.namespace answered_secrets) (OnlySecrets cr.namespace) _ answers
          answers-Holds (resolve_header_values cr)
          (resolve_header_values-Gives F answered_secrets cr) in
      (
        same,
        only,
        (ReadsOnce-Distinct F cr.namespace answers [] (resolve_header_values cr)
            (resolve_header_values-ReadsOnce F cr) only).1,
      )
