-- ===== src/DeepCopy/ItemsIndependent.antt =====
-- The copy of a list of resources has its value and shares no cell with it.
use mackerel_operator.Prelude.{ℕ, ◌≤◌, ◌<◌, ◌≡◌, Option, none, some, List, [], ◌∷◌, arith}
use mackerel_operator.DeepCopy.Cells.{
  Cell, Memory, write, Same, Same-refl, Same-trans, Same-above, write-Same, write_free-Same, Stands,
  Stands-Same,
}
use mackerel_operator.DeepCopy.Values.{ObjectMetaCopy, MonitorValue, HoldsMonitor}
use mackerel_operator.DeepCopy.Kept.{HoldsMonitor-Same}
use mackerel_operator.DeepCopy.{TypeMeta, MonitorAt, copy_monitor}
use mackerel_operator.DeepCopy.Parts.{Copies, allocated-Stands}
use mackerel_operator.DeepCopy.Resource.{monitor-Copies}
use mackerel_operator.DeepCopy.Items.{Arrays, ListAt, copy_items, copy_item_array, copy_list}

-- The parts of a list as a value.
pub record ListValue (Metadata Value : Type 0) : Type 0 where
  pub type_meta : TypeMeta
  pub metadata : Metadata
  pub items : List (MonitorValue Value)

module _ (meta list_meta : ObjectMetaCopy) where
  abbrev Item : Type 0
  Item = MonitorAt meta.Meta

  abbrev pub HoldsItems : ℕ → Memory → List Item → List (MonitorValue meta.Value) → Type 0
  HoldsItems lo m [] [] = Unit {0}
  HoldsItems lo m (x ∷ xs) (v ∷ vs) = HoldsMonitor meta lo m x v × HoldsItems lo m xs vs
  HoldsItems lo m _ _ = ⊥

  -- The nil slice is empty.
  abbrev pub HoldsArray :
      ℕ → Memory → ℕ → Arrays meta.Meta → Option ℕ → List (MonitorValue meta.Value) → Type 0
  HoldsArray lo m la a none vs = vs ≡ []
  HoldsArray lo m la a (some p) vs = (xs : List Item) × Stands la a p xs × HoldsItems lo m xs vs

  -- The value of a list, in cells from `lo` on and arrays from `la` on.
  pub record HoldsList (lo : ℕ) (m : Memory) (la : ℕ) (a : Arrays meta.Meta)
      (x : ListAt list_meta.Meta) (v : ListValue list_meta.Value meta.Value) : Type 0 where
    pub type_meta : x.type_meta ≡ v.type_meta
    pub metadata : list_meta.holds lo m x.metadata v.metadata
    pub items : HoldsArray lo m la a x.items v.items

  module _ {lo lo' : ℕ} {m m' : Memory} (l : lo' ≤ lo) (same : Same lo m m') where
    HoldsItems-Same :
        (xs : List Item) (vs : List (MonitorValue meta.Value))
        → HoldsItems lo m xs vs
        → HoldsItems lo' m' xs vs
    HoldsItems-Same [] [] h = tt
    HoldsItems-Same (x ∷ xs) (v ∷ vs) (h, hs) =
        (HoldsMonitor-Same l same meta x v h, HoldsItems-Same xs vs hs)
    HoldsItems-Same [] (v ∷ vs) h = absurd h
    HoldsItems-Same (x ∷ xs) [] h = absurd h

    module _ {la la' : ℕ} {a a' : Arrays meta.Meta} (k : la' ≤ la) (same' : Same la a a') where
      HoldsArray-Same :
          (o : Option ℕ) (vs : List (MonitorValue meta.Value))
          → HoldsArray lo m la a o vs
          → HoldsArray lo' m' la' a' o vs
      HoldsArray-Same none vs h = h
      HoldsArray-Same (some p) vs (xs, stands, h) =
          (xs, Stands-Same k same' stands, HoldsItems-Same xs vs h)

      HoldsList-Same :
          (x : ListAt list_meta.Meta) (v : ListValue list_meta.Value meta.Value)
          → HoldsList lo m la a x v
          → HoldsList lo' m' la' a' x v
      HoldsList-Same x v h = record {
        type_meta = h.type_meta;
        metadata = list_meta.holds-Same x.metadata v.metadata l same h.metadata;
        items = HoldsArray-Same x.items v.items h.items;
      }

  items-Copies :
      (lo : ℕ) (m : Memory) (xs : List Item) (vs : List (MonitorValue meta.Value))
      → lo ≤ m.next
      → HoldsItems 0 m xs vs
      → Copies (λ lo m xs. HoldsItems lo m xs vs) lo m (copy_items meta.copy m xs)
  unfolding copy_items
  items-Copies lo m [] [] l h = record { same = Same-refl m; copied = tt }
  items-Copies lo m (x ∷ xs) (v ∷ vs) l (h, hs) =
      let first = monitor-Copies meta lo m x v l h in
      let rest =
        items-Copies lo (copy_monitor meta.copy m x).0 xs vs (omega (arith, first.same.grows))
          (HoldsItems-Same (omega arith) first.same xs vs hs) in
      record {
        same = Same-trans first.same rest.same;
        copied = (
          HoldsMonitor-Same (omega arith) (Same-above lo rest.same) meta
              (copy_monitor meta.copy m x).1 v first.copied,
          rest.copied,
        );
      }
  items-Copies lo m [] (v ∷ vs) l h = absurd h
  items-Copies lo m (x ∷ xs) [] l h = absurd h

  -- What was allocated is left alone, and the copy has its value in cells and arrays that were free.
  record Copied {A : Type 0} (holds : ℕ → Memory → ℕ → Arrays meta.Meta → A → Type 0) (lo : ℕ)
      (m : Memory) (a : Arrays meta.Meta) (r : Memory × Arrays meta.Meta × A) : Type 0 where
    same : Same 0 m r.0
    same_arrays : Same 0 a r.1
    copied : holds lo r.0 a.next r.1 r.2

  array-Copied :
      (lo : ℕ) (m : Memory) (a : Arrays meta.Meta) (o : Option ℕ)
      (vs : List (MonitorValue meta.Value))
      → lo ≤ m.next
      → HoldsArray 0 m 0 a o vs
      → Copied (λ lo m la a o. HoldsArray lo m la a o vs) lo m a (copy_item_array meta.copy m a o)
  unfolding copy_item_array
  array-Copied lo m a none vs l h = record {
    same = Same-refl m;
    same_arrays = Same-refl a;
    copied = h;
  }
  array-Copied lo m a (some p) vs l (xs, stands, h) = rw stands.there (
      let inner = items-Copies lo m xs vs l h in
      let made =
        allocated-Stands a.next (copy_items meta.copy m xs).1 (omega arith) (Same-refl a) in
      record {
        same = inner.same;
        same_arrays = made.same;
        copied = ((copy_items meta.copy m xs).1, made.copied, inner.copied);
      })

  list-Copied :
      (m : Memory) (a : Arrays meta.Meta) (x : ListAt list_meta.Meta)
      (v : ListValue list_meta.Value meta.Value)
      → HoldsList 0 m 0 a x v
      → Copied
          (λ lo m la a x. HoldsList lo m la a x v)
          m.next
          m
          a
          (copy_list meta.copy list_meta.copy m a x)
  unfolding copy_list
  list-Copied m a x v h =
      let (s1, metadata) =
        list_meta.copy-holds m.next m x.metadata v.metadata (omega arith) h.metadata in
      let c2 =
        array-Copied m.next (list_meta.copy m x.metadata).0 a x.items v.items s1.grows
          (HoldsArray-Same (omega arith) s1 (omega arith) (Same-refl a) x.items v.items h.items) in
      record {
        same = Same-trans s1 c2.same;
        same_arrays = c2.same_arrays;
        copied = record {
          type_meta = h.type_meta;
          metadata =
              list_meta.holds-Same _ v.metadata (omega arith) (Same-above m.next c2.same) metadata;
          items = c2.copied;
        };
      }

  -- After a copy from the memory `m` with the arrays `a`, the original and the copy both hold the
  -- value. What is written to a cell or an array that was allocated before the copy leaves the
  -- copy's value alone, and what is written to a later one leaves the original's.
  pub record IsListIndependent (m : Memory) (a : Arrays meta.Meta)
      (original : ListAt list_meta.Meta) (v : ListValue list_meta.Value meta.Value)
      (r : Memory × Arrays meta.Meta × ListAt list_meta.Meta) : Type 0 where
    pub original_kept : HoldsList 0 r.0 0 r.1 original v
    pub copied : HoldsList m.next r.0 a.next r.1 r.2 v
    pub copy_unaffected :
        (p : ℕ) (c : Cell) → p < m.next → HoldsList m.next (write p c r.0) a.next r.1 r.2 v
    pub copied_items_unaffected :
        (p : ℕ) (c : List Item) → p < a.next → HoldsList m.next r.0 a.next (write p c r.1) r.2 v
    pub original_unaffected :
        (p : ℕ) (c : Cell) → m.next ≤ p → HoldsList 0 (write p c r.0) 0 r.1 original v
    pub original_items_unaffected :
        (p : ℕ) (c : List Item) → a.next ≤ p → HoldsList 0 r.0 0 (write p c r.1) original v

  -- `DeepCopyInto` of a list of resources that has the value `v` in memory: the copy has this value
  -- and shares no cell and no array with the original, so a write through a pointer of the one does
  -- not change the other.
  pub copy_list-IsListIndependent :
      (m : Memory) (a : Arrays meta.Meta) (x : ListAt list_meta.Meta)
      (v : ListValue list_meta.Value meta.Value)
      → HoldsList 0 m 0 a x v
      → IsListIndependent m a x v (copy_list meta.copy list_meta.copy m a x)
  copy_list-IsListIndependent m a x v h =
      let r = copy_list meta.copy list_meta.copy m a x in
      let made = list-Copied m a x v h in
      let here = Same-above m.next (Same-refl r.0) in
      let here' = Same-above a.next (Same-refl r.1) in
      record {
        original_kept = HoldsList-Same (omega arith) made.same (omega arith) made.same_arrays x v h;
        copied = made.copied;
        copy_unaffected = λ p c l.
            HoldsList-Same (omega arith) (write-Same p c r.0 m.next l) (omega arith) here' r.2 v
              made.copied;
        copied_items_unaffected = λ p c l.
            HoldsList-Same (omega arith) here (omega arith) (write-Same p c r.1 a.next l) r.2 v
              made.copied;
        original_unaffected = λ p c l.
            HoldsList-Same (omega arith) (write_free-Same p c l made.same) (omega arith)
              made.same_arrays x v h;
        original_items_unaffected = λ p c l.
            HoldsList-Same (omega arith) made.same (omega arith)
              (write_free-Same p c l made.same_arrays) x v h;
      }
