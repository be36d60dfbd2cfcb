-- ===== src/Controller/Secrets/Once.antt =====
-- The reads of `resolveHeaderValues`, whose map `secrets` keeps each Secret that is read.
use mackerel_operator.Prelude.{
  ◌≡◌, ◌≢◌, refl, ap, Option, none, some, List, [], ◌∷◌, Text, All, ◌==◌, nat_eq, list_eq,
  Bool-cases, inl, inr, ==_iff, arith,
}
use mackerel_operator.Api.{ExternalMonitor, HeaderField, HeaderValueSource, SecretKeySelector}
use mackerel_operator.Program
use mackerel_operator.Program.{Call, Answer, Program, done, call, KubeReply, got, refused}
use mackerel_operator.Program.Runs.{calls_of}
use mackerel_operator.Controller.Settings.{Result}
use mackerel_operator.Controller.Secrets.{
  Values, lookup, with_value, with_secret, secret_answered, resolve_ref, resolve_source,
  resolve_loop, resolve_declared, resolve_header_values,
}

-- No Secret is read whose name is among these, or that was read before.
abbrev pub ReadsOnce : {F A : Type 0} → List Text → Program F A → Type 0
ReadsOnce seen (done a) = Unit {0}
ReadsOnce seen (call (Program.get_secret space name) k) =
    All (λ s. s ≢ name) seen × ((r : KubeReply Values) → ReadsOnce (name ∷ seen) (k r))
ReadsOnce seen (call c k) = (r : Answer c) → ReadsOnce seen (k r)

-- The Secrets of these names are kept.
abbrev Kept : List Text → List (Text × Values) → Type 0
Kept seen read = All (λ s. (v : Values) × (lookup s read ≡ some v)) seen

lookup-kept :
    (name s : Text) (secret : Values) (read : List (Text × Values))
    → (v : Values) × (lookup s read ≡ some v)
    → (v : Values) × (lookup s ((name, secret) ∷ read) ≡ some v)
unfolding lookup
lookup-kept name s secret read (v, e) = elim (Bool-cases (name == s)) [
  | inl same ↦ rw same (secret, refl)
  | inr other ↦ rw other (v, e)
]

lookup-new :
    (name : Text) (secret : Values) (read : List (Text × Values))
    → lookup name ((name, secret) ∷ read) ≡ some secret
unfolding lookup
lookup-new name secret read = ground (arith, ==_iff name name)

Kept-cons :
    (seen : List Text) (name : Text) (secret : Values) (read : List (Text × Values))
    → Kept seen read
    → Kept seen ((name, secret) ∷ read)
Kept-cons [] name secret read h = tt
Kept-cons (s ∷ seen) name secret read (k, h) =
    (lookup-kept name s secret read k, Kept-cons seen name secret read h)

Kept-new :
    (seen : List Text) (name : Text) (read : List (Text × Values))
    → lookup name read ≡ none
    → Kept seen read
    → All (λ s. s ≢ name) seen
Kept-new [] name read e h = tt
Kept-new (s ∷ seen) name read e ((v, k), h) = (λ same. cc, Kept-new seen name read e h)

module _ (F : Type 0) (namespace : Text) where
  module _ (next : Values → List (Text × Values) → Program F (Result Values))
      (rest : (seen : List Text) (values : Values) (read : List (Text × Values))
        → Kept seen read
        → ReadsOnce seen (next values read)) where
    value-ReadsOnce :
        (header : Text) (ref : SecretKeySelector) (v : Option Text) (seen : List Text)
        (values : Values) (read : List (Text × Values))
        → Kept seen read
        → ReadsOnce seen (with_value namespace header ref v values (λ values'. next values' read))
    unfolding with_value
    value-ReadsOnce header ref none seen values read h = tt
    value-ReadsOnce header ref (some v) seen values read h = rest seen ((header, v) ∷ values) read h

    ref-ReadsOnce :
        (header : Text) (o : Option SecretKeySelector) (seen : List Text) (values : Values)
        (read : List (Text × Values))
        → Kept seen read
        → ReadsOnce seen (resolve_ref namespace header o values read next)
    unfolding resolve_ref
    ref-ReadsOnce header none seen values read h = tt
    ref-ReadsOnce header (some ref) seen values read h = looked_up (lookup ref.name read) refl
      where
        body : Values → List (Text × Values) → Program F (Result Values)
        body secret read =
            with_value namespace header ref (lookup ref.key secret) values
              (λ values'. next values' read)

        answered :
            (r : KubeReply Values)
            → ReadsOnce (ref.name ∷ seen) (secret_answered namespace header ref read body r)
        answered (refused e) = tt
        answered (got secret) =
            value-ReadsOnce header ref (lookup ref.key secret) (ref.name ∷ seen) values
              ((ref.name, secret) ∷ read)
              ((secret, lookup-new ref.name secret read), Kept-cons seen ref.name secret read h)

        looked_up :
            (o : Option Values)
            → lookup ref.name read ≡ o
            → ReadsOnce seen (with_secret namespace header ref read body o)
        looked_up (some secret) kept =
            value-ReadsOnce header ref (lookup ref.key secret) seen values read h
        looked_up none new = (Kept-new seen ref.name read new h, answered)

    source-ReadsOnce :
        (header : Text) (o : Option HeaderValueSource) (seen : List Text) (values : Values)
        (read : List (Text × Values))
        → Kept seen read
        → ReadsOnce seen (resolve_source namespace header o values read next)
    unfolding resolve_source
    source-ReadsOnce header none seen values read h = rest seen values read h
    source-ReadsOnce header (some source) seen values read h =
        ref-ReadsOnce header source.secret_key_ref seen values read h

  loop-ReadsOnce :
      (headers : List HeaderField) (seen : List Text) (values : Values)
      (read : List (Text × Values))
      → Kept seen read
      → ReadsOnce {F = F} seen (resolve_loop namespace headers values read)
  unfolding resolve_loop
  loop-ReadsOnce [] seen values read h = tt
  loop-ReadsOnce (header ∷ headers) seen values read h =
      source-ReadsOnce (resolve_loop namespace headers) (loop-ReadsOnce headers) header.name
        header.value_from seen values read h

-- Whatever is answered, no Secret is read twice.
pub resolve_header_values-ReadsOnce :
    (F : Type 0) (cr : ExternalMonitor) → ReadsOnce {F = F} [] (resolve_header_values cr)
unfolding resolve_header_values
resolve_header_values-ReadsOnce F cr = declared cr.spec.headers
  where
    declared :
        (headers : Option (List HeaderField))
        → ReadsOnce {F = F} [] (resolve_declared cr.namespace headers)
    declared none = unfold resolve_declared in tt
    declared (some headers) =
        unfold resolve_declared in loop-ReadsOnce F cr.namespace headers [] [] [] tt

-- Only Secrets of this namespace are read.
abbrev pub OnlySecrets : {F : Type 0} → Text → Call F → Type 0
OnlySecrets namespace (Program.get_secret space name) = space ≡ namespace
OnlySecrets namespace _ = ⊥

-- No two calls of the list are the same.
abbrev pub Distinct : {F : Type 0} → List (Call F) → Type 0
Distinct [] = Unit {0}
Distinct (c ∷ cs) = All (λ c'. c ≢ c') cs × Distinct cs

-- The name of the Secret that a call reads.
abbrev secret_name : {F : Type 0} → Call F → Text
secret_name (Program.get_secret space name) = name
secret_name _ = []

module _ (F : Type 0) (namespace : Text) (answers : (c : Call F) → Answer c) where
  apart :
      (space name : Text) (seen : List Text) (cs : List (Call F))
      → All (λ c. All (λ s. s ≢ secret_name c) (name ∷ seen)) cs
      → All (λ c. All (λ s. s ≢ secret_name c) seen) cs
        × All (λ c. Program.get_secret space name ≢ c) cs
  apart space name seen [] h = (tt, tt)
  apart space name seen (c ∷ cs) ((new, old), h) =
      let (olds, news) = apart space name seen cs h in
      ((old, olds), (λ e. new (ap secret_name e), news))

  -- The calls of a run that reads each Secret once, and nothing else, are distinct.
  pub ReadsOnce-Distinct :
      {A : Type 0} (seen : List Text) (m : Program F A)
      → ReadsOnce seen m
      → All (OnlySecrets namespace) (calls_of answers m)
      → All (λ c. All (λ s. s ≢ secret_name c) seen) (calls_of answers m)
        × Distinct (calls_of answers m)
  ReadsOnce-Distinct seen (done a) h o = (tt, tt)
  ReadsOnce-Distinct seen (call (Program.get_secret space name) k) (new, h) (_, o) =
      let r = answers (Program.get_secret space name) in
      let (all_new, distinct) = ReadsOnce-Distinct (name ∷ seen) (k r) (h r) o in
      let (olds, news) = apart space name seen (calls_of answers (k r)) all_new in
      ((new, olds), (news, distinct))
  ReadsOnce-Distinct seen (call Program.now k) h (o, _) = absurd o
  ReadsOnce-Distinct seen (call c k) h (o, _) = absurd o
