-- ===== src/Controller/Secrets/Index.antt =====
-- The Secrets that `resolveHeaderValues` reads are those that `secretNamesForExternalMonitor` lists.
use mackerel_operator.Prelude.{
  ◌≡◌, ◌⊎◌, inl, inr, refl, true, Option, none, some, List, [], ◌∷◌, ◌++◌, Text, All, ◌==◌, ==_iff,
  nat_eq, list_eq, Bool-cases, arith,
}
use mackerel_operator.Api.{ExternalMonitor, HeaderField, HeaderValueSource, SecretKeySelector}
use mackerel_operator.Program
use mackerel_operator.Program.{Call, Program, KubeReply, got, refused}
use mackerel_operator.Program.Runs.{Ensures}
use mackerel_operator.Controller.Secrets.{
  resolve_declared, resolve_header_values, contains_text, add_ref_name, add_source_name,
  add_secret_name, secret_names_loop, secret_names_for_external_monitor,
}
use mackerel_operator.Controller.Secrets.Reads.{
  Readable, ReadableRef, ReadableSource, resolve_loop-Reads,
}

-- The names that a round finds are kept by the rounds that follow.
contains-append :
    (l : List Text) (t n : Text) → contains_text l n ≡ true → contains_text (l ++ t ∷ []) n ≡ true
unfolding contains_text
contains-append [] t n h = absurd (cc)
contains-append (x ∷ l) t n h = ground (arith, contains-append l t n)

contains-last : (l : List Text) (n : Text) → contains_text (l ++ n ∷ []) n ≡ true
unfolding contains_text
contains-last [] n = ground (arith, ==_iff n n)
contains-last (x ∷ l) n = ground (arith, contains-last l n)

ref-keeps :
    (names : List Text) (o : Option SecretKeySelector) (n : Text)
    → contains_text names n ≡ true
    → contains_text (add_ref_name names o) n ≡ true
unfolding add_ref_name
ref-keeps names none n h = h
ref-keeps names (some ref) n h = ground (arith, contains-append names ref.name n h)

source-keeps :
    (names : List Text) (o : Option HeaderValueSource) (n : Text)
    → contains_text names n ≡ true
    → contains_text (add_source_name names o) n ≡ true
unfolding add_source_name
source-keeps names none n h = h
source-keeps names (some source) n h = ref-keeps names source.secret_key_ref n h

loop-keeps :
    (headers : List HeaderField) (names : List Text) (n : Text)
    → contains_text names n ≡ true
    → contains_text (secret_names_loop headers names) n ≡ true
unfolding secret_names_loop add_secret_name
loop-keeps [] names n h = h
loop-keeps (header ∷ headers) names n h =
    loop-keeps headers (add_source_name names header.value_from) n
      (source-keeps names header.value_from n h)

-- A Secret of this namespace is read whose name is among these, or empty.
abbrev pub ReadsSecrets : {F : Type 0} → Text → List Text → Call F → Type 0
ReadsSecrets namespace names (Program.get_secret space name) =
    (space ≡ namespace) × ((name ≡ []) ⊎ (contains_text names name ≡ true))
ReadsSecrets namespace names _ = ⊥

ref-named :
    (names : List Text) (ref : SecretKeySelector)
    → (ref.name ≡ []) ⊎ (contains_text (add_ref_name names (some ref)) ref.name ≡ true)
unfolding add_ref_name
ref-named names ref = elim (Bool-cases (ref.name == [])) [
  | inl empty ↦ inl ((==_iff ref.name []).0 empty)
  | inr named ↦ elim (Bool-cases (contains_text names ref.name)) [
    | inl old ↦ inr (rw (named, old) old)
    | inr new ↦ inr (rw (named, new) (contains-last names ref.name))
  ]
]

module _ (F : Type 0) (namespace : Text) where
  ref-Readable :
      (headers : List HeaderField) (names : List Text) (o : Option SecretKeySelector)
      → ReadableRef
          (ReadsSecrets {F = F} namespace (secret_names_loop headers (add_ref_name names o)))
          namespace
          o
  ref-Readable headers names none = tt
  ref-Readable headers names (some ref) = (
    refl,
    elim (ref-named names ref) [
      | inl empty ↦ inl empty
      | inr named ↦ inr (loop-keeps headers (add_ref_name names (some ref)) ref.name named)
    ],
  )

  source-Readable :
      (headers : List HeaderField) (names : List Text) (o : Option HeaderValueSource)
      → ReadableSource
          (ReadsSecrets {F = F} namespace (secret_names_loop headers (add_source_name names o)))
          namespace
          o
  unfolding add_source_name
  source-Readable headers names none = tt
  source-Readable headers names (some source) = ref-Readable headers names source.secret_key_ref

  headers-Readable :
      (headers : List HeaderField) (names : List Text)
      → All
          (Readable (ReadsSecrets {F = F} namespace (secret_names_loop headers names)) namespace)
          headers
  unfolding secret_names_loop add_secret_name
  headers-Readable [] names = tt
  headers-Readable (header ∷ headers) names = (
    source-Readable headers names header.value_from,
    headers-Readable headers (add_source_name names header.value_from),
  )

-- `resolveHeaderValues` makes no call but reads of Secrets of the namespace of the resource, and
-- those only of the names that `secretNamesForExternalMonitor` lists, or of the empty name.
pub resolve_header_values-ReadsSecrets :
    (F : Type 0) (cr : ExternalMonitor)
    → Ensures {F = F}
        (ReadsSecrets cr.namespace (secret_names_for_external_monitor cr))
        (λ _. Unit {0})
        (resolve_header_values cr)
unfolding resolve_header_values secret_names_for_external_monitor
resolve_header_values-ReadsSecrets F cr = by_headers cr.spec.headers
  where
    by_headers :
        (o : Option (List HeaderField))
        → Ensures {F = F}
            (ReadsSecrets cr.namespace
              (elim o [ none ↦ [] | some headers ↦ secret_names_loop headers [] ]))
            (λ _. Unit {0})
            (resolve_declared cr.namespace o)
    by_headers none = unfold resolve_declared in tt
    by_headers (some headers) =
        unfold resolve_declared in
        resolve_loop-Reads _ cr.namespace headers [] [] (headers-Readable F cr.namespace headers [])
