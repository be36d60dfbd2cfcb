-- ===== src/Controller/Secrets.antt =====
-- internal/controller/headers.go
pub mod Reads
pub mod Index
pub mod Once
pub mod Direct
pub mod Complete
use mackerel_operator.Prelude.{
  Bool, true, false, not, ◌&&◌, ◌||◌, Option, none, some, List, [], ◌∷◌, ◌++◌, Text, ◌==◌, nat_eq,
  list_eq, if◌then◌else◌,
}
use mackerel_operator.Prelude.Outcome.{ok, err}
use mackerel_operator.Api.{ExternalMonitor, HeaderField, SecretKeySelector, HeaderValueSource}
use mackerel_operator.Program.{
  Program, done, ask, ◌>>=◌, kube_not_found, KubeReply, got, refused, get_secret,
}
use mackerel_operator.Controller.Settings.{
  Result, ReconcileError, secret_key_ref_missing, secret_get_error, secret_key_missing,
}

abbrev pub Values : Type 0
Values = List (Text × Text)

-- `m[key]`; a write puts the entry in front.
unfoldable pub lookup {ℓ} : {V : Type ℓ} → Text → List (Text × V) → Option V
lookup key [] = none
lookup key ((k, v) ∷ m) = if k == key then some v else lookup key m

module _ {F : Type 0} (namespace : Text) where
  -- The rest of the loop, once the value of this header is looked up.
  unfoldable pub with_value :
      Text
      → SecretKeySelector
      → Option Text
      → Values
      → (Values → Program F (Result Values))
      → Program F (Result Values)
  with_value header ref none values next = done (err (secret_key_missing header))
  with_value header ref (some value) values next = next ((header, value) ∷ values)

  -- The reply to a read of a Secret, which is kept for the headers that follow.
  unfoldable pub secret_answered :
      Text
      → SecretKeySelector
      → List (Text × Values)
      → (Values → List (Text × Values) → Program F (Result Values))
      → KubeReply Values
      → Program F (Result Values)
  secret_answered header ref secrets next (refused e) = done (err (secret_get_error e header))
  secret_answered header ref secrets next (got secret) = next secret ((ref.name, secret) ∷ secrets)

  -- The Secret, from those that are read already or from the API, and the rest of the loop.
  unfoldable pub with_secret :
      Text
      → SecretKeySelector
      → List (Text × Values)
      → (Values → List (Text × Values) → Program F (Result Values))
      → Option Values
      → Program F (Result Values)
  unfolding secret_answered
  with_secret header ref secrets next (some secret) = next secret secrets
  with_secret header ref secrets next none = do
    r ← ask (get_secret namespace ref.name)
    secret_answered header ref secrets next r

  -- One round of the loop, with the rest of it as `next`.
  unfoldable pub resolve_ref :
      Text
      → Option SecretKeySelector
      → Values
      → List (Text × Values)
      → (Values → List (Text × Values) → Program F (Result Values))
      → Program F (Result Values)
  unfolding with_value with_secret lookup
  resolve_ref header none values secrets next = done (err (secret_key_ref_missing header))
  resolve_ref header (some ref) values secrets next =
      with_secret header ref secrets
        (λ secret read.
          with_value header ref (lookup ref.key secret) values (λ values'. next values' read))
        (lookup ref.name secrets)

  unfoldable pub resolve_source :
      Text
      → Option HeaderValueSource
      → Values
      → List (Text × Values)
      → (Values → List (Text × Values) → Program F (Result Values))
      → Program F (Result Values)
  unfolding resolve_ref
  resolve_source header none values secrets next = next values secrets
  resolve_source header (some source) values secrets next =
      resolve_ref header source.secret_key_ref values secrets next

  -- The loop of `resolveHeaderValues` over the declared headers.
  unfoldable pub resolve_loop :
      List HeaderField → Values → List (Text × Values) → Program F (Result Values)
  unfolding resolve_source
  resolve_loop [] values secrets = done (ok values)
  resolve_loop (header ∷ headers) values secrets =
      resolve_source header.name header.value_from values secrets (resolve_loop headers)

unfoldable pub resolve_declared :
    {F : Type 0} → Text → Option (List HeaderField) → Program F (Result Values)
unfolding resolve_loop
resolve_declared namespace none = done (ok [])
resolve_declared namespace (some headers) = resolve_loop namespace headers [] []

unfoldable pub resolve_header_values : {F : Type 0} → ExternalMonitor → Program F (Result Values)
unfolding resolve_declared
resolve_header_values cr = resolve_declared cr.namespace cr.spec.headers

unfoldable pub is_unresolvable_secret_ref : ReconcileError → Bool
is_unresolvable_secret_ref (secret_get_error kube_not_found header) = true
is_unresolvable_secret_ref (secret_key_missing header) = true
is_unresolvable_secret_ref _ = false

-- `slices.Contains`
unfoldable pub contains_text : List Text → Text → Bool
contains_text [] s = false
contains_text (t ∷ ts) s = t == s || contains_text ts s

-- One round of the loop of `secretNamesForExternalMonitor`, by what the header refers to.
unfoldable pub add_ref_name : List Text → Option SecretKeySelector → List Text
unfolding contains_text
add_ref_name names none = names
add_ref_name names (some ref) =
    if not (ref.name == []) && not (contains_text names ref.name)
    then names ++ ref.name ∷ []
    else names

unfoldable pub add_source_name : List Text → Option HeaderValueSource → List Text
unfolding add_ref_name
add_source_name names none = names
add_source_name names (some source) = add_ref_name names source.secret_key_ref

unfoldable pub add_secret_name : List Text → HeaderField → List Text
unfolding add_source_name
add_secret_name names header = add_source_name names header.value_from

unfoldable pub secret_names_loop : List HeaderField → List Text → List Text
unfolding add_secret_name
secret_names_loop [] names = names
secret_names_loop (header ∷ headers) names =
    secret_names_loop headers (add_secret_name names header)

unfoldable pub secret_names_for_external_monitor : ExternalMonitor → List Text
unfolding secret_names_loop
secret_names_for_external_monitor cr = elim cr.spec.headers [
  | none ↦ []
  | some headers ↦ secret_names_loop headers []
]
