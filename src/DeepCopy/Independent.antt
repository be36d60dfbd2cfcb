-- ===== src/DeepCopy/Independent.antt =====
-- A copy shares no cell with what it was copied from.
use mackerel_operator.Prelude.{ℕ, ◌≤◌, ◌<◌, arith}
use mackerel_operator.DeepCopy.Cells.{Cell, Memory, write, Same, write-Same, write_free-Same}
use mackerel_operator.DeepCopy.Values.{ObjectMetaCopy, MonitorValue, HoldsMonitor}
use mackerel_operator.DeepCopy.Kept.{HoldsMonitor-Same}
use mackerel_operator.DeepCopy.{MonitorAt, copy_monitor}
use mackerel_operator.DeepCopy.Parts.{Copies}
use mackerel_operator.DeepCopy.Resource.{monitor-Copies}

-- After a copy from the memory `m`, the original and the copy both hold the value. What is written
-- to a cell that was allocated before the copy (among them all the cells of the original) leaves
-- the copy's value alone, and what is written to a later one leaves the original's.
pub record IsIndependent {A : Type 0} (holds : ℕ → Memory → A → Type 0) (m : Memory) (original : A)
    (r : Memory × A) : Type 0 where
  pub original_kept : holds 0 r.0 original
  pub copied : holds m.next r.0 r.1
  pub copy_unaffected : (p : ℕ) (c : Cell) → p < m.next → holds m.next (write p c r.0) r.1
  pub original_unaffected : (p : ℕ) (c : Cell) → m.next ≤ p → holds 0 (write p c r.0) original

-- What `holds` needs for this.
independent :
    {A : Type 0} (holds : ℕ → Memory → A → Type 0) (m : Memory) (original : A) (r : Memory × A)
    → ((lo : ℕ) (m m' : Memory) (a : A) → Same lo m m' → holds lo m a → holds lo m' a)
    → holds 0 m original
    → Copies holds m.next m r
    → IsIndependent holds m original r
independent holds m original r transfer h made = record {
  original_kept = transfer 0 m r.0 original made.same h;
  copied = made.copied;
  copy_unaffected =
      λ p c l. transfer m.next r.0 (write p c r.0) r.1 (write-Same p c r.0 m.next l) made.copied;
  original_unaffected =
      λ p c l. transfer 0 m (write p c r.0) original (write_free-Same p c l made.same) h;
}

-- `DeepCopyInto` of a resource that has the value `v` in memory: the copy has this value and shares
-- no cell with the original, so a write through a pointer of the one does not change the other.
pub copy_monitor-IsIndependent :
    (meta : ObjectMetaCopy) (m : Memory) (x : MonitorAt meta.Meta) (v : MonitorValue meta.Value)
    → HoldsMonitor meta 0 m x v
    → IsIndependent (λ lo m x. HoldsMonitor meta lo m x v) m x (copy_monitor meta.copy m x)
copy_monitor-IsIndependent meta m x v h =
    independent (λ lo m x. HoldsMonitor meta lo m x v) m x (copy_monitor meta.copy m x)
      (λ lo m m' a same held. HoldsMonitor-Same (omega arith) same meta a v held) h
      (monitor-Copies meta m.next m x v (omega arith) h)
