-- ===== src/DeepCopy/Parts.antt =====
-- The copies of pointers and of headers have the value of what was copied, in cells that were free
-- before.
use mackerel_operator.Prelude.{ℕ, ◌≤◌, subst, Option, none, some, List, [], ◌∷◌, arith}
use mackerel_operator.Api.{HeaderField, HeaderValueSource, Condition}
use mackerel_operator.DeepCopy.Cells.{
  Cell, text_cell, selector_cell, source_cell, fields_cell, slice_cell, Memory, MemoryOf,
  HeaderFieldAt, allocate, Same, Same-refl, Same-trans, Same-above, allocate-Same, Stands,
  allocate-Stands,
}
use mackerel_operator.DeepCopy.Values.{
  HoldsFlat, HoldsSource, HoldsField, HoldsFields, HoldsSlice, HoldsHeaders, HoldsConditions,
}
use mackerel_operator.DeepCopy.Kept.{
  HoldsFlat-Same, HoldsSource-Same, HoldsField-Same, HoldsFields-Same, HoldsSlice-Same,
}
use mackerel_operator.DeepCopy.{
  copy_cell, copy_source, copy_value_from, copy_header_field, copy_fields, copy_array, copy_headers,
}

-- What was allocated is left alone, and the copy holds its value from `lo` on.
pub record Copies {C A : Type 0} (holds : ℕ → MemoryOf C → A → Type 0) (lo : ℕ) (m : MemoryOf C)
    (r : MemoryOf C × A) : Type 0 where
  pub same : Same 0 m r.0
  pub copied : holds lo r.0 r.1

-- A cell that is allocated once its parts are copied.
pub allocated-Stands :
    {C : Type 0} {m m' : MemoryOf C} (lo : ℕ) (c : C)
    → lo ≤ m.next
    → Same 0 m m'
    → Copies (λ lo' m'' p. Stands lo' m'' p c) lo m (allocate c m')
allocated-Stands {m' = m'} lo c l s = record {
  same = Same-trans s (allocate-Same c m');
  copied = allocate-Stands c m' lo (omega (arith, s.grows));
}

module _ (lo : ℕ) where
  pub flat-Copies :
      {V : Type 0} (wrap : V → Cell) (m : Memory) (o : Option ℕ) (v : Option V)
      → lo ≤ m.next
      → HoldsFlat wrap 0 m o v
      → Copies (λ lo m o. HoldsFlat wrap lo m o v) lo m (copy_cell m o)
  unfolding copy_cell
  flat-Copies wrap m none none l h = record { same = Same-refl m; copied = tt }
  flat-Copies wrap m (some p) (some v) l h =
      let made = allocated-Stands lo (m.cell p) l (Same-refl m) in
      record { same = made.same; copied = subst (Stands lo _ _) h.there made.copied }
  flat-Copies wrap m none (some v) l h = absurd h
  flat-Copies wrap m (some p) none l h = absurd h

  pub conditions-Copies :
      (m : Memory) (o : Option ℕ) (cs : List Condition)
      → lo ≤ m.next
      → HoldsConditions 0 m o cs
      → Copies (λ lo m o. HoldsConditions lo m o cs) lo m (copy_cell m o)
  unfolding copy_cell
  conditions-Copies m none cs l h = record { same = Same-refl m; copied = h }
  conditions-Copies m (some p) cs l h =
      let made = allocated-Stands lo (m.cell p) l (Same-refl m) in
      record { same = made.same; copied = subst (Stands lo _ _) h.there made.copied }

  value_from-Copies :
      (m : Memory) (o : Option ℕ) (v : Option HeaderValueSource)
      → lo ≤ m.next
      → HoldsSource 0 m o v
      → Copies (λ lo m o. HoldsSource lo m o v) lo m (copy_value_from m o)
  unfolding copy_value_from copy_source
  value_from-Copies m none none l h = record { same = Same-refl m; copied = tt }
  value_from-Copies m (some p) (some v) l (s, stands, ref) =
      let inner = flat-Copies selector_cell m s.secret_key_ref v.secret_key_ref l ref in
      let cell : Cell = source_cell (copy_source m s).1 in
      let made = allocated-Stands lo cell l inner.same in
      let kept = Same-above lo (allocate-Same cell (copy_source m s).0) in
      rw stands.there (record {
        same = made.same;
        copied = (
          (copy_source m s).1,
          made.copied,
          HoldsFlat-Same (omega arith) kept selector_cell (copy_source m s).1.secret_key_ref
              v.secret_key_ref inner.copied,
        );
      })
  value_from-Copies m none (some v) l h = absurd h
  value_from-Copies m (some p) none l h = absurd h

  field-Copies :
      (m : Memory) (f : HeaderFieldAt) (v : HeaderField)
      → lo ≤ m.next
      → HoldsField 0 m f v
      → Copies (λ lo m f. HoldsField lo m f v) lo m (copy_header_field m f)
  unfolding copy_header_field
  field-Copies m f v l (name, value, from) =
      let first = flat-Copies text_cell m f.value v.value l value in
      let second =
        value_from-Copies (copy_cell m f.value).0 f.value_from v.value_from
          (omega (arith, first.same.grows))
          (HoldsSource-Same (omega arith) first.same f.value_from v.value_from from) in
      record {
        same = Same-trans first.same second.same;
        copied = (
          name,
          HoldsFlat-Same (omega arith) (Same-above lo second.same) text_cell (copy_cell m f.value).1
              v.value first.copied,
          second.copied,
        );
      }

  fields-Copies :
      (m : Memory) (fs : List HeaderFieldAt) (vs : List HeaderField)
      → lo ≤ m.next
      → HoldsFields 0 m fs vs
      → Copies (λ lo m fs. HoldsFields lo m fs vs) lo m (copy_fields m fs)
  unfolding copy_fields
  fields-Copies m [] [] l h = record { same = Same-refl m; copied = tt }
  fields-Copies m (f ∷ fs) (v ∷ vs) l (h, hs) =
      let first = field-Copies m f v l h in
      let rest =
        fields-Copies (copy_header_field m f).0 fs vs (omega (arith, first.same.grows))
          (HoldsFields-Same (omega arith) first.same fs vs hs) in
      record {
        same = Same-trans first.same rest.same;
        copied = (
          HoldsField-Same (omega arith) (Same-above lo rest.same) (copy_header_field m f).1 v
              first.copied,
          rest.copied,
        );
      }
  fields-Copies m [] (v ∷ vs) l h = absurd h
  fields-Copies m (f ∷ fs) [] l h = absurd h

  -- The array, filled with the copies.
  array-Copies :
      (m : Memory) (q : ℕ) (vs : List HeaderField)
      → lo ≤ m.next
      → HoldsSlice 0 m (some q) vs
      → Copies (λ lo m q. HoldsSlice lo m (some q) vs) lo m (copy_array m q (m.cell q))
  unfolding copy_array
  array-Copies m q vs l (fs, stands, h) =
      let inner = fields-Copies m fs vs l h in
      let cell : Cell = fields_cell (copy_fields m fs).1 in
      let made = allocated-Stands lo cell l inner.same in
      rw stands.there (record {
        same = made.same;
        copied = (
          (copy_fields m fs).1,
          made.copied,
          HoldsFields-Same (omega arith) (Same-above lo (allocate-Same cell (copy_fields m fs).0))
              (copy_fields m fs).1 vs inner.copied,
        );
      })

  pub headers-Copies :
      (m : Memory) (o : Option ℕ) (v : Option (List HeaderField))
      → lo ≤ m.next
      → HoldsHeaders 0 m o v
      → Copies (λ lo m o. HoldsHeaders lo m o v) lo m (copy_headers m o)
  unfolding copy_headers
  headers-Copies m none none l h = record { same = Same-refl m; copied = tt }
  headers-Copies m (some p) (some vs) l (none, stands, h) =
      let made = allocated-Stands lo (slice_cell none) l (Same-refl m) in
      rw stands.there (record { same = made.same; copied = (none, made.copied, h) })
  headers-Copies m (some p) (some vs) l (some q, stands, h) =
      let inner = array-Copies m q vs l h in
      let r = copy_array m q (m.cell q) in
      let cell : Cell = slice_cell (some r.1) in
      let made = allocated-Stands lo cell l inner.same in
      rw stands.there (record {
        same = made.same;
        copied = (
          some r.1,
          made.copied,
          HoldsSlice-Same (omega arith) (Same-above lo (allocate-Same cell r.0)) (some r.1) vs
              inner.copied,
        );
      })
  headers-Copies m none (some vs) l h = absurd h
  headers-Copies m (some p) none l h = absurd h
