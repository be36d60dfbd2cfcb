-- ===== src/Tests/Instances.antt =====
-- Concrete functions for the libraries that are parameters, with what is relied on.
use mackerel_operator.Prelude.{
  ℕ, zero, suc, ◌%◌, ◌<◌, ◌≡◌, ◌↔◌, refl, Bool, true, false, ◌&&◌, Option, none, some, List, [],
  ◌∷◌, ◌++◌, Text, codes, length, IsBytes, Eq, ◌==◌, ==_iff, nat_eq, bool_eq, option_eq, list_eq,
  if◌then◌else◌, arith, Bool-cases, inl, inr,
}
use mackerel_operator.Prelude.Int.{ℤ, int_eq}
use mackerel_operator.Api.{Condition, ExternalMonitorStatus}
use mackerel_operator.Monitor.Hash.{Digest}
use mackerel_operator.Provider.Client.{Float64}
use mackerel_operator.Status.{Conditions}
use mackerel_operator.Controller.Settings.{Finalizers, Libraries}

-- A digest that repeats the length of the text.
abbrev copies : ℕ → ℕ → Text
copies zero b = []
copies (suc n) b = b ∷ copies n b

pub copies-IsBytes : (n b : ℕ) → b < 256 → IsBytes (copies n b)
copies-IsBytes zero b h = tt
copies-IsBytes (suc n) b h = (h, copies-IsBytes n b h)

abbrev pub sample_digest : Digest
sample_digest = record {
  marshal = λ d. some (d.name ++ d.url);
  sum256 = λ t. copies 32 (length t % 256);
  length_sum256 = λ t. refl;
  sum256_bytes = λ t. copies-IsBytes 32 (length t % 256) (omega arith);
}

-- Numbers that are all exact.
abbrev pub sample_float64 : Float64
sample_float64 = record { F = ℤ; of_int = λ n. n; to_int = λ n. n; exact = λ n h. refl }

abbrev upsert_condition : List Condition → Condition → List Condition
upsert_condition [] c = c ∷ []
upsert_condition (x ∷ xs) c =
    let rest = upsert_condition xs c in if x.kind == c.kind then c ∷ xs else x ∷ rest

abbrev first_condition : List Condition → Text → Option Condition
first_condition [] kind = none
first_condition (x ∷ xs) kind =
    let rest = first_condition xs kind in if x.kind == kind then some x else rest

pub first-upsert :
    (cs : List Condition) (c : Condition) → first_condition (upsert_condition cs c) c.kind ≡ some c
first-upsert [] c = rw ((==_iff c.kind c.kind).1 refl)
first-upsert (x ∷ xs) c = elim (Bool-cases (x.kind == c.kind)) [
  | inl same ↦ rw same (rw ((==_iff c.kind c.kind).1 refl))
  | inr other ↦ rw other (rw (other, first-upsert xs c))
]

pub upsert-upsert :
    (cs : List Condition) (c : Condition)
    → upsert_condition (upsert_condition cs c) c ≡ upsert_condition cs c
upsert-upsert [] c = rw ((==_iff c.kind c.kind).1 refl)
upsert-upsert (x ∷ xs) c = elim (Bool-cases (x.kind == c.kind)) [
  | inl same ↦ rw same (rw ((==_iff c.kind c.kind).1 refl))
  | inr other ↦ rw other (rw (other, upsert-upsert xs c))
]

abbrev pub sample_conditions : Conditions
sample_conditions = record {
  set_condition = upsert_condition;
  find_condition = first_condition;
  find_set = first-upsert;
  set_again = upsert-upsert;
}

abbrev has_text : List Text → Text → Bool
has_text [] f = false
has_text (x ∷ xs) f = let rest = has_text xs f in if x == f then true else rest

abbrev add_text : List Text → Text → List Text
add_text [] f = f ∷ []
add_text (x ∷ xs) f = let rest = add_text xs f in if x == f then x ∷ xs else x ∷ rest

abbrev drop_text : List Text → Text → List Text
drop_text [] f = []
drop_text (x ∷ xs) f = let rest = drop_text xs f in if x == f then rest else x ∷ rest

pub has-add : (l : List Text) (f : Text) → has_text (add_text l f) f ≡ true
has-add [] f = rw ((==_iff f f).1 refl)
has-add (x ∷ xs) f = elim (Bool-cases (x == f)) [
  | inl same ↦ rw same (rw same)
  | inr other ↦ rw other (rw (other, has-add xs f))
]

pub has-drop : (l : List Text) (f : Text) → has_text (drop_text l f) f ≡ false
has-drop [] f = refl
has-drop (x ∷ xs) f = elim (Bool-cases (x == f)) [
  | inl same ↦ rw same (has-drop xs f)
  | inr other ↦ rw other (rw (other, has-drop xs f))
]

abbrev pub sample_finalizers : Finalizers
sample_finalizers = record {
  contains = has_text;
  add = add_text;
  remove = drop_text;
  contains-add = has-add;
  contains-remove = has-drop;
}

abbrev condition_beq : Condition → Condition → Bool
condition_beq a b =
    a.kind == b.kind
    && (a.status == b.status
        && (a.observed_generation == b.observed_generation
            && (a.reason == b.reason && a.message == b.message)))

condition_beq_iff : (a b : Condition) → (condition_beq a b ≡ true) ↔ (a ≡ b)
condition_beq_iff a b = ground (
  arith,
  ==_iff a.kind b.kind,
  ==_iff a.status b.status,
  ==_iff a.observed_generation b.observed_generation,
  ==_iff a.reason b.reason,
  ==_iff a.message b.message,
)

instance abbrev condition_eq : Eq Condition
condition_eq = record { equals = condition_beq; equals_iff = condition_beq_iff }

abbrev status_beq : ExternalMonitorStatus → ExternalMonitorStatus → Bool
status_beq a b =
    a.monitor_id == b.monitor_id
    && (a.observed_generation == b.observed_generation
        && (a.last_synced_at == b.last_synced_at
            && (a.last_applied_hash == b.last_applied_hash
                && (a.url == b.url
                    && (a.mackerel_monitor_name == b.mackerel_monitor_name
                        && a.conditions == b.conditions)))))

pub status_beq_iff : (a b : ExternalMonitorStatus) → (status_beq a b ≡ true) ↔ (a ≡ b)
status_beq_iff a b = ground (
  arith,
  ==_iff a.monitor_id b.monitor_id,
  ==_iff a.observed_generation b.observed_generation,
  ==_iff a.last_synced_at b.last_synced_at,
  ==_iff a.last_applied_hash b.last_applied_hash,
  ==_iff a.url b.url,
  ==_iff a.mackerel_monitor_name b.mackerel_monitor_name,
  ==_iff a.conditions b.conditions,
)

abbrev pub sample_libraries : Libraries
sample_libraries = record {
  digest = sample_digest;
  float64 = sample_float64;
  conditions = sample_conditions;
  finalizers = sample_finalizers;
  status_equal = status_beq;
  status_equal_iff = status_beq_iff;
  error_text = λ e. codes "failed";
  retry_steps = 4;
}
