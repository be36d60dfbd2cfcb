-- ===== src/Provider/Convert/Numbers.antt =====
-- The numeric conversions undo one another on the values that the service can hold.
use mackerel_operator.Prelude.{
  ℕ, ◌^◌, ◌≤◌, ◌≡◌, refl, ap, ◌∙◌, Option, none, some, List, [], ◌∷◌, map, arith,
}
use mackerel_operator.Prelude.Int.{ℤ, pos, negsuc}
use mackerel_operator.Monitor.{HeaderField}
use mackerel_operator.Prelude.Outcome.{ok}
use mackerel_operator.Provider.Result.{Result}
use mackerel_operator.Provider.Client.{Float64}
use mackerel_operator.Provider.Convert.{
  max_int, int_ptr_from_uint64, int_ptr_from_uint64_ptr, uint64_from_int_ptr,
  uint64_ptr_from_int_ptr, int_from_uint64, int_ptr_from_float64, float64_ptr_from_int_ptr,
  header_fields_from_mackerel, header_fields_to_mackerel,
}

-- Unset, or between the two bounds.
abbrev pub InRange : ℕ → ℕ → Option ℤ → Type 0
InRange lo hi none = Unit {0}
InRange lo hi (some (pos n)) = (lo ≤ n) × (n ≤ hi)
InRange lo hi (some (negsuc n)) = ⊥

-- A number is sent and read back unchanged.
abbrev ReadBack : {A : Type 0} → (Option ℤ → Result A) → (A → Option ℤ) → Option ℤ → Type 0
ReadBack {A = A} send read v = (a : A) × (send v ≡ ok a) × (read a ≡ v)

pub interval-ReadBack :
    (v : Option ℤ) → InRange 1 max_int v → ReadBack uint64_from_int_ptr int_ptr_from_uint64 v
unfolding uint64_from_int_ptr int_ptr_from_uint64
interval-ReadBack none h = (0, refl, refl)
interval-ReadBack (some (pos n)) h = (n, refl, ground arith)
interval-ReadBack (some (negsuc n)) h = absurd h

pub uint64-ReadBack :
    (v : Option ℤ)
    → InRange 0 max_int v
    → ReadBack uint64_ptr_from_int_ptr int_ptr_from_uint64_ptr v
unfolding uint64_ptr_from_int_ptr int_ptr_from_uint64_ptr
uint64-ReadBack none h = (none, refl, refl)
uint64-ReadBack (some (pos n)) h = (some n, refl, ground arith)
uint64-ReadBack (some (negsuc n)) h = absurd h

pub attempts-ReadBack :
    (v : ℤ)
    → InRange 0 max_int (some v)
    → (n : ℕ) × (uint64_from_int_ptr (some v) ≡ ok n) × (int_from_uint64 n ≡ v)
unfolding uint64_from_int_ptr int_from_uint64
attempts-ReadBack (pos n) h = (n, refl, ground arith)
attempts-ReadBack (negsuc n) h = absurd h

pub float64-ReadBack :
    (fl : Float64) (v : Option ℤ)
    → InRange 0 (2 ^ 53) v
    → ReadBack (float64_ptr_from_int_ptr fl) (int_ptr_from_float64 fl) v
unfolding float64_ptr_from_int_ptr int_ptr_from_float64
float64-ReadBack fl none h = (none, refl, refl)
float64-ReadBack fl (some (pos n)) h = (some (fl.of_int (pos n)), refl, ap some (fl.exact n h.1))
float64-ReadBack fl (some (negsuc n)) h = absurd h

map_fields :
    (hs : List HeaderField)
    → map (λ (h : HeaderField). record { name = h.name; value = h.value }) hs ≡ hs
map_fields [] = refl
map_fields (h ∷ hs) = ap (◌∷◌ h) (map_fields hs)

-- Headers are sent and read back unchanged, in their order.
pub headers_read_back :
    (hs : List HeaderField) → header_fields_from_mackerel (header_fields_to_mackerel hs) ≡ hs
unfolding header_fields_from_mackerel header_fields_to_mackerel
headers_read_back hs = map_fields _ ∙ map_fields hs

-- An unset interval and an interval of 0 are sent alike, and both are read back as unset.
pub interval_zero_lost :
    (uint64_from_int_ptr (some (pos 0)) ≡ uint64_from_int_ptr none) × (int_ptr_from_uint64 0 ≡ none)
unfolding uint64_from_int_ptr int_ptr_from_uint64
interval_zero_lost = (refl, refl)
