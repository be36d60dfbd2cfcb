-- ===== src/DeepCopy.antt =====
-- api/v1alpha1/zz_generated.deepcopy.go. Each function takes the memory and what is copied, and
-- returns the memory afterwards and the copy. A pointer's target is copied before its own cell is
-- filled; the order of addresses cannot be observed.
pub mod Cells
pub mod Values
pub mod Kept
pub mod Parts
pub mod Resource
pub mod Independent
pub mod Items
pub mod ItemsIndependent
use mackerel_operator.Prelude.{ℕ, Bool, Option, none, some, List, [], ◌∷◌, Text}
use mackerel_operator.Prelude.Int.{ℤ}
use Cells.{Cell, source_cell, fields_cell, slice_cell, Memory, allocate, SourceAt, HeaderFieldAt}

-- `ExternalMonitorSpec` with its pointers.
pub record SpecAt : Type 0 where
  pub name : Text
  pub service : Text
  pub url : Text
  pub method : Text
  pub notification_interval : Option ℕ
  pub expected_status_code : Option ℕ
  pub contains_string : Text
  pub response_time_duration : Option ℕ
  pub response_time_warning : Option ℕ
  pub response_time_critical : Option ℕ
  pub certification_expiration_warning : Option ℕ
  pub certification_expiration_critical : Option ℕ
  pub is_mute : Bool
  pub follow_redirect : Bool
  pub skip_certificate_verification : Bool
  pub max_check_attempts : ℤ
  pub request_body : Text
  pub dualstack : Text
  pub headers : Option ℕ
  pub memo : Text

pub record StatusAt : Type 0 where
  pub monitor_id : Text
  pub observed_generation : ℤ
  pub last_synced_at : Option ℕ
  pub last_applied_hash : Text
  pub url : Text
  pub mackerel_monitor_name : Text
  pub conditions : Option ℕ

-- A pointer to a cell that holds no pointer: `*out = new(T); **out = **in`, or the `make` and the
-- loop of the conditions.
unfoldable pub copy_cell : Memory → Option ℕ → Memory × Option ℕ
copy_cell m none = (m, none)
copy_cell m (some p) = let (m', q) = allocate (m.cell p) m in (m', some q)

unfoldable pub copy_source : Memory → SourceAt → Memory × SourceAt
unfolding copy_cell
copy_source m s =
    let (m', r) = copy_cell m s.secret_key_ref in (m', record s { secret_key_ref = r })

-- A pointer's cell is of the pointer's type; others do not occur.
unfoldable pub copy_source_cell : Memory → ℕ → Cell → Memory × ℕ
unfolding copy_source
copy_source_cell m p (source_cell s) =
    let (m', s') = copy_source m s in allocate (source_cell s') m'
copy_source_cell m p _ = (m, p)

unfoldable pub copy_value_from : Memory → Option ℕ → Memory × Option ℕ
unfolding copy_source_cell
copy_value_from m none = (m, none)
copy_value_from m (some p) = let (m', q) = copy_source_cell m p (m.cell p) in (m', some q)

unfoldable pub copy_header_field : Memory → HeaderFieldAt → Memory × HeaderFieldAt
unfolding copy_cell copy_value_from
copy_header_field m f =
    let (m1, value) = copy_cell m f.value in
    let (m2, value_from) = copy_value_from m1 f.value_from in
    (m2, record f { value = value; value_from = value_from })

-- The loop over the headers.
unfoldable pub copy_fields : Memory → List HeaderFieldAt → Memory × List HeaderFieldAt
unfolding copy_header_field
copy_fields m [] = (m, [])
copy_fields m (f ∷ fs) =
    let (m1, f') = copy_header_field m f in let (m2, fs') = copy_fields m1 fs in (m2, f' ∷ fs')

unfoldable pub copy_array : Memory → ℕ → Cell → Memory × ℕ
unfolding copy_fields
copy_array m p (fields_cell fs) = let (m', fs') = copy_fields m fs in allocate (fields_cell fs') m'
copy_array m p _ = (m, p)

unfoldable pub copy_slice : Memory → ℕ → Cell → Memory × ℕ
unfolding copy_array
copy_slice m p (slice_cell none) = allocate (slice_cell none) m
copy_slice m p (slice_cell (some q)) =
    let (m', q') = copy_array m q (m.cell q) in allocate (slice_cell (some q')) m'
copy_slice m p _ = (m, p)

unfoldable pub copy_headers : Memory → Option ℕ → Memory × Option ℕ
unfolding copy_slice
copy_headers m none = (m, none)
copy_headers m (some p) = let (m', q) = copy_slice m p (m.cell p) in (m', some q)

unfoldable pub copy_spec : Memory → SpecAt → Memory × SpecAt
unfolding copy_cell copy_headers
copy_spec m s =
    let (m1, notification_interval) = copy_cell m s.notification_interval in
    let (m2, expected_status_code) = copy_cell m1 s.expected_status_code in
    let (m3, response_time_duration) = copy_cell m2 s.response_time_duration in
    let (m4, response_time_warning) = copy_cell m3 s.response_time_warning in
    let (m5, response_time_critical) = copy_cell m4 s.response_time_critical in
    let (m6, certification_expiration_warning) = copy_cell m5 s.certification_expiration_warning in
    let (m7, certification_expiration_critical) =
      copy_cell m6 s.certification_expiration_critical in
    let (m8, headers) = copy_headers m7 s.headers in
    (
      m8,
      record s {
        notification_interval = notification_interval;
        expected_status_code = expected_status_code;
        response_time_duration = response_time_duration;
        response_time_warning = response_time_warning;
        response_time_critical = response_time_critical;
        certification_expiration_warning = certification_expiration_warning;
        certification_expiration_critical = certification_expiration_critical;
        headers = headers;
      },
    )

unfoldable pub copy_status : Memory → StatusAt → Memory × StatusAt
unfolding copy_cell
copy_status m s =
    let (m1, last_synced_at) = copy_cell m s.last_synced_at in
    let (m2, conditions) = copy_cell m1 s.conditions in
    (m2, record s { last_synced_at = last_synced_at; conditions = conditions })

-- `metav1.TypeMeta`
pub record TypeMeta : Type 0 where
  pub kind : Text
  pub api_version : Text

-- `ExternalMonitor`; of its metadata, whose copy is the library's, only what that interface says is
-- known.
pub record MonitorAt (Meta : Type 0) : Type 0 where
  pub type_meta : TypeMeta
  pub metadata : Meta
  pub spec : SpecAt
  pub status : StatusAt

module _ {Meta : Type 0} (copy_metadata : Memory → Meta → Memory × Meta) where
  unfoldable pub copy_monitor : Memory → MonitorAt Meta → Memory × MonitorAt Meta
  unfolding copy_spec copy_status
  copy_monitor m x =
      let (m1, metadata) = copy_metadata m x.metadata in
      let (m2, spec) = copy_spec m1 x.spec in
      let (m3, status) = copy_status m2 x.status in
      (m3, record x { metadata = metadata; spec = spec; status = status })

  -- `DeepCopy` and `DeepCopyObject`, of nil and of a resource.
  unfoldable pub deep_copy : Memory → Option (MonitorAt Meta) → Memory × Option (MonitorAt Meta)
  unfolding copy_monitor
  deep_copy m none = (m, none)
  deep_copy m (some x) = let (m', y) = copy_monitor m x in (m', some y)
