-- ===== src/DeepCopy/Items.antt =====
-- `ExternalMonitorList.DeepCopyInto`, whose loop copies the items, and the functions `DeepCopy`, which
-- copy what a pointer leads to unless it is nil.
use mackerel_operator.Prelude.{ℕ, Option, none, some, List, [], ◌∷◌}
use mackerel_operator.Api.{SecretKeySelector}
use mackerel_operator.DeepCopy.Cells.{Memory, MemoryOf, allocate, SourceAt, HeaderFieldAt}
use mackerel_operator.DeepCopy.{
  SpecAt, StatusAt, TypeMeta, MonitorAt, copy_monitor, copy_spec, copy_status, copy_header_field,
  copy_source,
}

-- `SecretKeySelector` has no pointers: `*out = *in`.
unfoldable pub copy_selector : Memory → SecretKeySelector → Memory × SecretKeySelector
copy_selector m s = (m, s)

-- `if in == nil { return nil }; out := new(T); in.DeepCopyInto(out); return out`
unfoldable pub copy_new :
    {A : Type 0} → (Memory → A → Memory × A) → Memory → Option A → Memory × Option A
copy_new copy m none = (m, none)
copy_new copy m (some x) = let (m', y) = copy m x in (m', some y)

unfoldable pub deep_copy_spec : Memory → Option SpecAt → Memory × Option SpecAt
unfolding copy_new copy_spec
deep_copy_spec m s = copy_new copy_spec m s

unfoldable pub deep_copy_status : Memory → Option StatusAt → Memory × Option StatusAt
unfolding copy_new copy_status
deep_copy_status m s = copy_new copy_status m s

unfoldable pub deep_copy_header_field :
    Memory → Option HeaderFieldAt → Memory × Option HeaderFieldAt
unfolding copy_new copy_header_field
deep_copy_header_field m f = copy_new copy_header_field m f

unfoldable pub deep_copy_source : Memory → Option SourceAt → Memory × Option SourceAt
unfolding copy_new copy_source
deep_copy_source m s = copy_new copy_source m s

unfoldable pub deep_copy_selector :
    Memory → Option SecretKeySelector → Memory × Option SecretKeySelector
unfolding copy_new copy_selector
deep_copy_selector m s = copy_new copy_selector m s

-- The arrays of resources.
abbrev pub Arrays : Type 0 → Type 0
Arrays Meta = MemoryOf (List (MonitorAt Meta))

-- `ExternalMonitorList`: the metadata of the list, and the slice of its items.
pub record ListAt (ListMeta : Type 0) : Type 0 where
  pub type_meta : TypeMeta
  pub metadata : ListMeta
  pub items : Option ℕ

module _ {Meta : Type 0} (copy_metadata : Memory → Meta → Memory × Meta) where
  -- The loop over the items.
  unfoldable pub copy_items : Memory → List (MonitorAt Meta) → Memory × List (MonitorAt Meta)
  unfolding copy_monitor
  copy_items m [] = (m, [])
  copy_items m (x ∷ xs) =
      let (m1, y) = copy_monitor copy_metadata m x in
      let (m2, ys) = copy_items m1 xs in (m2, y ∷ ys)

  unfoldable pub copy_item_array : Memory → Arrays Meta → Option ℕ → Memory × Arrays Meta × Option ℕ
  unfolding copy_items
  copy_item_array m a none = (m, a, none)
  copy_item_array m a (some p) =
      let (m', items) = copy_items m (a.cell p) in
      let (a', q) = allocate items a in (m', a', some q)

module _ {Meta ListMeta : Type 0} (copy_metadata : Memory → Meta → Memory × Meta)
    (copy_list_metadata : Memory → ListMeta → Memory × ListMeta) where
  unfoldable pub copy_list :
      Memory → Arrays Meta → ListAt ListMeta → Memory × Arrays Meta × ListAt ListMeta
  unfolding copy_item_array
  copy_list m a x =
      let (m1, metadata) = copy_list_metadata m x.metadata in
      let (m2, a', items) = copy_item_array copy_metadata m1 a x.items in
      (m2, a', record x { metadata = metadata; items = items })

  -- `DeepCopy` and `DeepCopyObject`, of nil and of a list.
  unfoldable pub deep_copy_list :
      Memory
      → Arrays Meta
      → Option (ListAt ListMeta)
      → Memory × Arrays Meta × Option (ListAt ListMeta)
  unfolding copy_list
  deep_copy_list m a none = (m, a, none)
  deep_copy_list m a (some x) = let (m', a', y) = copy_list m a x in (m', a', some y)
