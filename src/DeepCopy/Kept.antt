-- ===== src/DeepCopy/Kept.antt =====
-- A value in memory stays where its cells stay.
use mackerel_operator.Prelude.{ℕ, ◌≤◌, Option, none, some, List, [], ◌∷◌}
use mackerel_operator.Api.{
  HeaderField, HeaderValueSource, ExternalMonitorSpec, ExternalMonitorStatus, Condition,
}
use mackerel_operator.DeepCopy.Cells.{
  Cell, int_cell, text_cell, time_cell, selector_cell, Memory, HeaderFieldAt, Same, Stands-Same,
}
use mackerel_operator.DeepCopy.{SpecAt, StatusAt, MonitorAt}
use mackerel_operator.DeepCopy.Values.{
  HoldsFlat, HoldsSource, HoldsField, HoldsFields, HoldsSlice, HoldsHeaders, HoldsConditions,
  HoldsSpec, HoldsStatus, ObjectMetaCopy, MonitorValue, HoldsMonitor,
}

-- A value still stands where its cells are the same.
module _ {lo lo' : ℕ} {m m' : Memory} (l : lo' ≤ lo) (same : Same lo m m') where
  pub HoldsFlat-Same :
      {V : Type 0} (wrap : V → Cell) (o : Option ℕ) (v : Option V)
      → HoldsFlat wrap lo m o v
      → HoldsFlat wrap lo' m' o v
  HoldsFlat-Same wrap none none h = tt
  HoldsFlat-Same wrap (some p) (some v) h = Stands-Same l same h
  HoldsFlat-Same wrap none (some v) h = absurd h
  HoldsFlat-Same wrap (some p) none h = absurd h

  pub HoldsSource-Same :
      (o : Option ℕ) (v : Option HeaderValueSource) → HoldsSource lo m o v → HoldsSource lo' m' o v
  HoldsSource-Same none none h = tt
  HoldsSource-Same (some p) (some v) (s, stands, ref) = (
    s,
    Stands-Same l same stands,
    HoldsFlat-Same selector_cell s.secret_key_ref v.secret_key_ref ref,
  )
  HoldsSource-Same none (some v) h = absurd h
  HoldsSource-Same (some p) none h = absurd h

  pub HoldsField-Same :
      (f : HeaderFieldAt) (v : HeaderField) → HoldsField lo m f v → HoldsField lo' m' f v
  HoldsField-Same f v (name, value, from) = (
    name,
    HoldsFlat-Same text_cell f.value v.value value,
    HoldsSource-Same f.value_from v.value_from from,
  )

  pub HoldsFields-Same :
      (fs : List HeaderFieldAt) (vs : List HeaderField)
      → HoldsFields lo m fs vs
      → HoldsFields lo' m' fs vs
  HoldsFields-Same [] [] h = tt
  HoldsFields-Same (f ∷ fs) (v ∷ vs) (h, hs) = (HoldsField-Same f v h, HoldsFields-Same fs vs hs)
  HoldsFields-Same [] (v ∷ vs) h = absurd h
  HoldsFields-Same (f ∷ fs) [] h = absurd h

  pub HoldsSlice-Same :
      (o : Option ℕ) (vs : List HeaderField) → HoldsSlice lo m o vs → HoldsSlice lo' m' o vs
  HoldsSlice-Same none vs h = h
  HoldsSlice-Same (some q) vs (fs, stands, h) =
      (fs, Stands-Same l same stands, HoldsFields-Same fs vs h)

  pub HoldsHeaders-Same :
      (o : Option ℕ) (v : Option (List HeaderField))
      → HoldsHeaders lo m o v
      → HoldsHeaders lo' m' o v
  HoldsHeaders-Same none none h = tt
  HoldsHeaders-Same (some p) (some vs) (s, stands, h) =
      (s, Stands-Same l same stands, HoldsSlice-Same s vs h)
  HoldsHeaders-Same none (some vs) h = absurd h
  HoldsHeaders-Same (some p) none h = absurd h

  pub HoldsConditions-Same :
      (o : Option ℕ) (cs : List Condition) → HoldsConditions lo m o cs → HoldsConditions lo' m' o cs
  HoldsConditions-Same none cs h = h
  HoldsConditions-Same (some p) cs h = Stands-Same l same h

  pub HoldsSpec-Same :
      (s : SpecAt) (v : ExternalMonitorSpec) → HoldsSpec lo m s v → HoldsSpec lo' m' s v
  HoldsSpec-Same s v h = record {
    name = h.name;
    service = h.service;
    url = h.url;
    method = h.method;
    notification_interval = HoldsFlat-Same int_cell _ _ h.notification_interval;
    expected_status_code = HoldsFlat-Same int_cell _ _ h.expected_status_code;
    contains_string = h.contains_string;
    response_time_duration = HoldsFlat-Same int_cell _ _ h.response_time_duration;
    response_time_warning = HoldsFlat-Same int_cell _ _ h.response_time_warning;
    response_time_critical = HoldsFlat-Same int_cell _ _ h.response_time_critical;
    certification_warning = HoldsFlat-Same int_cell _ _ h.certification_warning;
    certification_critical = HoldsFlat-Same int_cell _ _ h.certification_critical;
    is_mute = h.is_mute;
    follow_redirect = h.follow_redirect;
    skip_certificate_verification = h.skip_certificate_verification;
    max_check_attempts = h.max_check_attempts;
    request_body = h.request_body;
    dualstack = h.dualstack;
    headers = HoldsHeaders-Same s.headers v.headers h.headers;
    memo = h.memo;
  }

  pub HoldsStatus-Same :
      (s : StatusAt) (v : ExternalMonitorStatus) → HoldsStatus lo m s v → HoldsStatus lo' m' s v
  HoldsStatus-Same s v h = record {
    monitor_id = h.monitor_id;
    observed_generation = h.observed_generation;
    last_synced_at = HoldsFlat-Same time_cell s.last_synced_at v.last_synced_at h.last_synced_at;
    last_applied_hash = h.last_applied_hash;
    url = h.url;
    mackerel_monitor_name = h.mackerel_monitor_name;
    conditions = HoldsConditions-Same s.conditions v.conditions h.conditions;
  }

  pub HoldsMonitor-Same :
      (meta : ObjectMetaCopy) (x : MonitorAt meta.Meta) (v : MonitorValue meta.Value)
      → HoldsMonitor meta lo m x v
      → HoldsMonitor meta lo' m' x v
  HoldsMonitor-Same meta x v h = record {
    type_meta = h.type_meta;
    metadata = meta.holds-Same x.metadata v.metadata l same h.metadata;
    spec = HoldsSpec-Same x.spec v.spec h.spec;
    status = HoldsStatus-Same x.status v.status h.status;
  }
