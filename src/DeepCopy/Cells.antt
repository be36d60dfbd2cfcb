-- ===== src/DeepCopy/Cells.antt =====
-- The memory of the process, as far as the types of the resource point into it: for each type of
-- cell, a pointer is a number, and the cells from `next` on are free.
use mackerel_operator.Prelude.{
  ℕ, suc, ◌≤◌, ◌<◌, ◌≡◌, refl, ◌∙◌, Option, List, Text, nat_beq, if◌then◌else◌, arith,
}
use mackerel_operator.Prelude.Int.{ℤ}
use mackerel_operator.Api.{SecretKeySelector, Condition}

-- `HeaderValueSource` and `HeaderField`, with their pointers.
pub record SourceAt : Type 0 where
  pub secret_key_ref : Option ℕ

pub record HeaderFieldAt : Type 0 where
  pub name : Text
  pub value : Option ℕ
  pub value_from : Option ℕ

-- What a pointer leads to: a value, the array of a slice, or a slice (nil or with its array).
pub data Cell : Type 0 where
  unused : Cell
  int_cell : ℤ → Cell
  text_cell : Text → Cell
  time_cell : ℕ → Cell
  selector_cell : SecretKeySelector → Cell
  source_cell : SourceAt → Cell
  fields_cell : List HeaderFieldAt → Cell
  slice_cell : Option ℕ → Cell
  conditions_cell : List Condition → Cell

-- Cells of one type.
pub record MemoryOf (C : Type 0) : Type 0 where
  pub next : ℕ
  pub cell : ℕ → C

abbrev pub Memory : Type 0
Memory = MemoryOf Cell

unfoldable pub write : {C : Type 0} → ℕ → C → MemoryOf C → MemoryOf C
write p c m = record m { cell = λ q. if nat_beq q p then c else m.cell q }

-- `new` and `make`, with the value that is stored there.
unfoldable pub allocate : {C : Type 0} → C → MemoryOf C → MemoryOf C × ℕ
unfolding write
allocate c m = (record (write m.next c m) { next = suc m.next }, m.next)

-- From the address `lo` on, the allocated cells of `m` are the same in `m'`.
pub record Same {C : Type 0} (lo : ℕ) (m m' : MemoryOf C) : Type 0 where
  pub grows : m.next ≤ m'.next
  pub kept : (p : ℕ) → lo ≤ p → p < m.next → m'.cell p ≡ m.cell p

pub Same-refl : {C : Type 0} (m : MemoryOf C) → Same 0 m m
Same-refl m = record { grows = omega arith; kept = λ p l h. refl }

pub Same-trans : {C : Type 0} {m m' m'' : MemoryOf C} → Same 0 m m' → Same 0 m' m'' → Same 0 m m''
Same-trans s t = record {
  grows = omega (arith, s.grows, t.grows);
  kept = λ p l h. t.kept p l (omega (arith, s.grows)) ∙ s.kept p l h;
}

pub allocate-Same : {C : Type 0} (c : C) (m : MemoryOf C) → Same 0 m (allocate c m).0
unfolding allocate
allocate-Same c m = record { grows = omega arith; kept = λ p l h. ground arith }

pub write-Same :
    {C : Type 0} (p : ℕ) (c : C) (m : MemoryOf C) (lo : ℕ) → p < lo → Same lo m (write p c m)
unfolding write
write-Same p c m lo h = record { grows = omega arith; kept = λ q l i. ground arith }

-- The allocated cell at `p`, which is not below `lo`, is `c`.
pub record Stands {C : Type 0} (lo : ℕ) (m : MemoryOf C) (p : ℕ) (c : C) : Type 0 where
  pub low : lo ≤ p
  pub allocated : p < m.next
  pub there : m.cell p ≡ c

pub Stands-Same :
    {C : Type 0} {lo lo' : ℕ} {m m' : MemoryOf C} {p : ℕ} {c : C}
    → lo' ≤ lo
    → Same lo m m'
    → Stands lo m p c
    → Stands lo' m' p c
Stands-Same l s h = record {
  low = omega (arith, h.low);
  allocated = omega (arith, h.allocated, s.grows);
  there = s.kept _ h.low h.allocated ∙ h.there;
}

pub allocate-Stands :
    {C : Type 0} (c : C) (m : MemoryOf C) (lo : ℕ)
    → lo ≤ m.next
    → Stands lo (allocate c m).0 (allocate c m).1 c
unfolding allocate
allocate-Stands c m lo l = record { low = l; allocated = omega arith; there = ground arith }

-- From a higher address on, still.
pub Same-above : {C : Type 0} {m m' : MemoryOf C} (lo : ℕ) → Same 0 m m' → Same lo m m'
Same-above lo s = record { grows = s.grows; kept = λ p l h. s.kept p (omega arith) h }

-- A cell that was free may be written.
pub write_free-Same :
    {C : Type 0} {m m' : MemoryOf C} (p : ℕ) (c : C)
    → m.next ≤ p
    → Same 0 m m'
    → Same 0 m (write p c m')
unfolding write
write_free-Same p c l s = record { grows = s.grows; kept = λ q lo h. ground (arith, s.kept q lo h) }
