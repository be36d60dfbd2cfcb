-- ===== src/DeepCopy/Values.antt =====
-- What the pointers of a resource mean: the value of api/v1alpha1/externalmonitor_types.go that
-- stands in the cells from an address `lo` on.
use mackerel_operator.Prelude.{ℕ, ◌≤◌, ◌≡◌, Option, none, some, List, [], ◌∷◌}
use mackerel_operator.Prelude.Int.{ℤ}
use mackerel_operator.Api.{
  HeaderField, HeaderValueSource, ExternalMonitorSpec, ExternalMonitorStatus, Condition,
}
use mackerel_operator.DeepCopy.Cells.{
  Cell, int_cell, text_cell, time_cell, selector_cell, source_cell, fields_cell, slice_cell,
  conditions_cell, Memory, SourceAt, HeaderFieldAt, Same, Stands,
}
use mackerel_operator.DeepCopy.{SpecAt, StatusAt, TypeMeta, MonitorAt}

-- A pointer to a cell that holds no pointer, and its value.
abbrev pub HoldsFlat : {V : Type 0} → (V → Cell) → ℕ → Memory → Option ℕ → Option V → Type 0
HoldsFlat wrap lo m none none = Unit {0}
HoldsFlat wrap lo m (some p) (some v) = Stands lo m p (wrap v)
HoldsFlat wrap lo m _ _ = ⊥

abbrev pub HoldsInt : ℕ → Memory → Option ℕ → Option ℤ → Type 0
HoldsInt = HoldsFlat int_cell

abbrev pub HoldsSource : ℕ → Memory → Option ℕ → Option HeaderValueSource → Type 0
HoldsSource lo m none none = Unit {0}
HoldsSource lo m (some p) (some v) =
    (s : SourceAt) × Stands lo m p (source_cell s)
    × HoldsFlat selector_cell lo m s.secret_key_ref v.secret_key_ref
HoldsSource lo m _ _ = ⊥

abbrev pub HoldsField : ℕ → Memory → HeaderFieldAt → HeaderField → Type 0
HoldsField lo m f v =
    (f.name ≡ v.name)
    × HoldsFlat text_cell lo m f.value v.value
    × HoldsSource lo m f.value_from v.value_from

abbrev pub HoldsFields : ℕ → Memory → List HeaderFieldAt → List HeaderField → Type 0
HoldsFields lo m [] [] = Unit {0}
HoldsFields lo m (f ∷ fs) (v ∷ vs) = HoldsField lo m f v × HoldsFields lo m fs vs
HoldsFields lo m _ _ = ⊥

-- The nil slice is empty.
abbrev pub HoldsSlice : ℕ → Memory → Option ℕ → List HeaderField → Type 0
HoldsSlice lo m none vs = vs ≡ []
HoldsSlice lo m (some q) vs =
    (fs : List HeaderFieldAt) × Stands lo m q (fields_cell fs) × HoldsFields lo m fs vs

abbrev pub HoldsHeaders : ℕ → Memory → Option ℕ → Option (List HeaderField) → Type 0
HoldsHeaders lo m none none = Unit {0}
HoldsHeaders lo m (some p) (some vs) =
    (s : Option ℕ) × Stands lo m p (slice_cell s) × HoldsSlice lo m s vs
HoldsHeaders lo m _ _ = ⊥

abbrev pub HoldsConditions : ℕ → Memory → Option ℕ → List Condition → Type 0
HoldsConditions lo m none cs = cs ≡ []
HoldsConditions lo m (some p) cs = Stands lo m p (conditions_cell cs)

pub record HoldsSpec (lo : ℕ) (m : Memory) (s : SpecAt) (v : ExternalMonitorSpec) : Type 0 where
  pub name : s.name ≡ v.name
  pub service : s.service ≡ v.service
  pub url : s.url ≡ v.url
  pub method : s.method ≡ v.method
  pub notification_interval : HoldsInt lo m s.notification_interval v.notification_interval
  pub expected_status_code : HoldsInt lo m s.expected_status_code v.expected_status_code
  pub contains_string : s.contains_string ≡ v.contains_string
  pub response_time_duration : HoldsInt lo m s.response_time_duration v.response_time_duration
  pub response_time_warning : HoldsInt lo m s.response_time_warning v.response_time_warning
  pub response_time_critical : HoldsInt lo m s.response_time_critical v.response_time_critical
  pub certification_warning :
      HoldsInt lo m s.certification_expiration_warning v.certification_expiration_warning
  pub certification_critical :
      HoldsInt lo m s.certification_expiration_critical v.certification_expiration_critical
  pub is_mute : s.is_mute ≡ v.is_mute
  pub follow_redirect : s.follow_redirect ≡ v.follow_redirect
  pub skip_certificate_verification :
      s.skip_certificate_verification ≡ v.skip_certificate_verification
  pub max_check_attempts : s.max_check_attempts ≡ v.max_check_attempts
  pub request_body : s.request_body ≡ v.request_body
  pub dualstack : s.dualstack ≡ v.dualstack
  pub headers : HoldsHeaders lo m s.headers v.headers
  pub memo : s.memo ≡ v.memo

pub record HoldsStatus (lo : ℕ) (m : Memory) (s : StatusAt) (v : ExternalMonitorStatus)
    : Type 0 where
  pub monitor_id : s.monitor_id ≡ v.monitor_id
  pub observed_generation : s.observed_generation ≡ v.observed_generation
  pub last_synced_at : HoldsFlat time_cell lo m s.last_synced_at v.last_synced_at
  pub last_applied_hash : s.last_applied_hash ≡ v.last_applied_hash
  pub url : s.url ≡ v.url
  pub mackerel_monitor_name : s.mackerel_monitor_name ≡ v.mackerel_monitor_name
  pub conditions : HoldsConditions lo m s.conditions v.conditions

-- `DeepCopyInto` of the metadata in apimachinery (`ObjectMeta`, and `ListMeta` of a list): what its
-- values are in memory, that they stay where their cells are the same, and that the copy has the
-- value, in cells that were free before.
pub record ObjectMetaCopy : Type 1 where
  pub Meta : Type 0
  pub Value : Type 0
  pub holds : ℕ → Memory → Meta → Value → Type 0
  pub copy : Memory → Meta → Memory × Meta
  pub holds-Same :
      {lo lo' : ℕ} {m m' : Memory} (a : Meta) (v : Value)
      → lo' ≤ lo
      → Same lo m m'
      → holds lo m a v
      → holds lo' m' a v
  pub copy-holds :
      (lo : ℕ) (m : Memory) (a : Meta) (v : Value)
      → lo ≤ m.next
      → holds 0 m a v
      → Same 0 m (copy m a).0 × holds lo (copy m a).0 (copy m a).1 v

-- The parts of a resource as a value.
pub record MonitorValue (Value : Type 0) : Type 0 where
  pub type_meta : TypeMeta
  pub metadata : Value
  pub spec : ExternalMonitorSpec
  pub status : ExternalMonitorStatus

pub record HoldsMonitor (meta : ObjectMetaCopy) (lo : ℕ) (m : Memory) (x : MonitorAt meta.Meta)
    (v : MonitorValue meta.Value) : Type 0 where
  pub type_meta : x.type_meta ≡ v.type_meta
  pub metadata : meta.holds lo m x.metadata v.metadata
  pub spec : HoldsSpec lo m x.spec v.spec
  pub status : HoldsStatus lo m x.status v.status
