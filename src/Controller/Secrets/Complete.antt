-- ===== src/Controller/Secrets/Complete.antt =====
-- Resolved values suffice: no header that refers to a Secret lacks its value afterwards.
use mackerel_operator.Prelude.{
  ◌≡◌, refl, subst, Option, none, some, List, [], ◌∷◌, ◌++◌, Text, All, ◌==◌, ==_iff, nat_eq,
  list_eq, Bool-cases, inl, inr,
}
use mackerel_operator.Prelude.Order.{sort}
use mackerel_operator.Prelude.Outcome.{ok, ok-injective}
use mackerel_operator.Api.{HeaderField, HeaderValueSource, SecretKeySelector}
use mackerel_operator.Monitor
use mackerel_operator.Program.{KubeReply, got, refused}
use mackerel_operator.Source.{
  ExternalMonitorSource, lookup_value, resolved_value, secret_header_value, literal_header_value,
  header_value, sorted_headers, compare_names, kept_header,
}
use mackerel_operator.Source.Headers.{gather, collect-gather}
use mackerel_operator.Controller.Settings.{
  Result, ExternalMonitorReconciler, external_monitor_source,
}
use mackerel_operator.Controller.Secrets.{Values, lookup}
use mackerel_operator.Controller.Secrets.Direct.{
  Secrets, add_value, direct_secret, direct_ref, direct_source, direct_loop, direct_values,
}

-- The map has an entry of this name.
abbrev Has : Text → Values → Type 0
Has name m = (v : Text) × (lookup_value name m ≡ some v)

Has-cons : (name other v : Text) (m : Values) → Has name m → Has name ((other, v) ∷ m)
unfolding lookup_value
Has-cons name other v m (w, e) = elim (Bool-cases (other == name)) [
  | inl same ↦ (v, rw same)
  | inr new ↦ (w, rw new e)
]

Has-head : (name v : Text) (m : Values) → Has name ((name, v) ∷ m)
unfolding lookup_value
Has-head name v m = (v, rw ((==_iff name name).1 refl))

-- A header with a reference has an entry.
abbrev Needs : Text → Option HeaderValueSource → Values → Type 0
Needs name none m = Unit {0}
Needs name (some source) m = Has name m

-- What a round that succeeds hands on.
record Round (name : Text) (o : Option HeaderValueSource) (values : Values)
    (next : Values → Result Values) (out : Values) : Type 0 where
  values' : Values
  rest : next values' ≡ ok out
  keeps : (k : Text) → Has k values → Has k values'
  needs : Needs name o values'

source-Round :
    (secrets : Secrets) (name : Text) (o : Option HeaderValueSource) (values : Values)
    (next : Values → Result Values) (out : Values)
    → direct_source secrets name o values next ≡ ok out
    → Round name o values next out
source-Round secrets name none values next out e = record {
  values' = values;
  rest = e;
  keeps = λ k h. h;
  needs = tt;
}
source-Round secrets name (some source) values next out e = by_ref source.secret_key_ref e
  where
    by_value :
        (v : Option Text)
        → add_value name v values next ≡ ok out
        → Round name (some source) values next out
    by_value none e = absurd (cc)
    by_value (some v) e = record {
      values' = (name, v) ∷ values;
      rest = e;
      keeps = λ k h. Has-cons k name v values h;
      needs = Has-head name v values;
    }

    by_secret :
        (key : Text) (r : KubeReply Values)
        → direct_secret name key r values next ≡ ok out
        → Round name (some source) values next out
    by_secret key (refused x) e = absurd (cc)
    by_secret key (got secret) e = by_value (lookup key secret) e

    by_ref :
        (o : Option SecretKeySelector)
        → direct_ref secrets name o values next ≡ ok out
        → Round name (some source) values next out
    by_ref none e = absurd (cc)
    by_ref (some ref) e = by_secret ref.key (secrets ref.name) e

loop_keeps :
    (secrets : Secrets) (hs : List HeaderField) (values out : Values)
    → direct_loop secrets hs values ≡ ok out
    → (k : Text) → Has k values
    → Has k out
unfolding direct_loop
loop_keeps secrets [] values out e k h = subst (Has k) (ok-injective e) h
loop_keeps secrets (x ∷ hs) values out e k h =
    let r = source-Round secrets x.name x.value_from values (direct_loop secrets hs) out e in
    loop_keeps secrets hs r.values' out r.rest k (r.keeps k h)

Needs-kept :
    (name : Text) (o : Option HeaderValueSource) (values out : Values)
    → ((k : Text) → Has k values → Has k out)
    → Needs name o values
    → Needs name o out
Needs-kept name none values out keeps n = tt
Needs-kept name (some source) values out keeps n = keeps name n

abbrev NeedsOf : Values → HeaderField → Type 0
NeedsOf out h = Needs h.name h.value_from out

loop_needs :
    (secrets : Secrets) (hs : List HeaderField) (values out : Values)
    → direct_loop secrets hs values ≡ ok out
    → All (NeedsOf out) hs
unfolding direct_loop
loop_needs secrets [] values out e = tt
loop_needs secrets (x ∷ hs) values out e =
    let r = source-Round secrets x.name x.value_from values (direct_loop secrets hs) out e in
    (
      Needs-kept x.name x.value_from r.values' out (loop_keeps secrets hs r.values' out r.rest)
          r.needs,
      loop_needs secrets hs r.values' out r.rest,
    )

-- A header has a value of its own or a reference, as the schema of the resource demands.
abbrev Declares : Option Text → Option HeaderValueSource → Type 0
Declares none none = ⊥
Declares (some v) o = Unit {0}
Declares none (some source) = Unit {0}

abbrev pub IsDeclared : HeaderField → Type 0
IsDeclared h = Declares h.value h.value_from

module _ (s : ExternalMonitorSource) (out : Values) (with_values : s.header_values ≡ some out) where
  secret_value :
      (name : Text) → Has name out → (v : Option Text) × (secret_header_value s name ≡ ok v)
  unfolding secret_header_value resolved_value
  secret_value name (v, e) = (some v, rw with_values (rw e))

  literal_value :
      (name : Text) (value : Option Text)
      → Declares value none
      → (v : Option Text) × (literal_header_value name value ≡ ok v)
  unfolding literal_header_value
  literal_value name none h = absurd h
  literal_value name (some v) h = (some v, refl)

  header_value-ok :
      (h : HeaderField)
      → IsDeclared h
      → NeedsOf out h
      → (v : Option Text) × (header_value s h ≡ ok v)
  unfolding header_value
  header_value-ok h d n = by_source h.value_from d n
    where
      by_source :
          (o : Option HeaderValueSource)
          → Declares h.value o
          → Needs h.name o out
          → (v : Option Text) × ((elim o [
            | none ↦ literal_header_value h.name h.value
            | some source ↦ secret_header_value s h.name
          ])
              ≡ ok v)
      by_source none d n = literal_value h.name h.value d
      by_source (some source) d n = secret_value h.name n

  gather-ok :
      (hs : List HeaderField)
      → All IsDeclared hs
      → All (NeedsOf out) hs
      → (xs : List Monitor.HeaderField) × (gather s hs ≡ ok xs)
  unfolding gather
  gather-ok [] d n = ([], refl)
  gather-ok (h ∷ hs) (d, ds) (n, ns) =
      let (v, found) = header_value-ok h d n in
      let (rest, others) = gather-ok hs ds ns in (kept_header h.name v ++ rest, rw (found, others))

  sorted-ok :
      (hs : List HeaderField)
      → All IsDeclared hs
      → All (NeedsOf out) hs
      → (xs : List Monitor.HeaderField) × (sorted_headers s (some hs) ≡ ok (some xs))
  unfolding sorted_headers
  sorted-ok hs d n =
      let (xs, made) = gather-ok hs d n in
      (sort compare_names xs, rw (collect-gather s hs []) (rw made))

-- If every declared header has a value or a reference and the references resolve, then
-- `sortedHeaders` succeeds with the resolved values.
pub sorted_headers-direct :
    (r : ExternalMonitorReconciler) (secrets : Secrets) (hs : List HeaderField) (values : Values)
    → All IsDeclared hs
    → direct_values secrets (some hs) ≡ ok values
    → (xs : List Monitor.HeaderField) × (sorted_headers (external_monitor_source r values) (some hs)
        ≡ ok (some xs))
unfolding external_monitor_source
sorted_headers-direct r secrets hs values d e =
    sorted-ok (external_monitor_source r values) values refl hs d
      (loop_needs secrets hs [] values e)
