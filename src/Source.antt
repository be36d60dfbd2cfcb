-- ===== src/Source.antt =====
-- internal/source: the desired state of a custom resource (externalmonitor.go).
pub mod Headers
pub mod HeaderOrder
pub mod Made
pub mod Identity
pub mod Admission
use mackerel_operator.Prelude.{
  ℕ, zero, suc, ◌≡◌, refl, Bool, true, false, Option, none, some, List, [], ◌∷◌, ◌++◌, Text, codes,
  Ordering, Eq, ◌==◌, nat_eq, list_eq, ltb, if◌then◌else◌,
}
use mackerel_operator.Prelude.Int.{ℤ, pos, negsuc}
use mackerel_operator.Prelude.Order.{compare_text, sort}
use mackerel_operator.Prelude.Outcome.{Outcome, ok, err, ◌>>=◌}
use mackerel_operator.Api
use mackerel_operator.Api.{ExternalMonitor}
use mackerel_operator.Monitor
use mackerel_operator.Monitor.{DesiredExternalMonitor}
use mackerel_operator.Monitor.Hash.{Digest, HashError, hash_desired}

pub data SourceError : Type 0 where
  external_monitor_nil : SourceError
  neither_value_nor_value_from : Text → SourceError
  no_resolved_value : Text → SourceError
  hash_error : HashError → SourceError

abbrev pub Result : Type 0 → Type 0
Result A = Outcome SourceError A

-- The maps of header names to values; a `nil` map is apart from an empty one.
pub record ExternalMonitorSource : Type 0 where
  pub owner_id : Text
  pub hash_length : ℤ
  pub header_values : Option (List (Text × Text))

-- `m[key]`
unfoldable pub lookup_value : Text → List (Text × Text) → Option Text
lookup_value key [] = none
lookup_value key ((k, v) ∷ m) = if k == key then some v else lookup_value key m

-- The lookup of `headerValue` in the map that is not `nil`.
unfoldable pub resolved_value : Text → Option Text → Result (Option Text)
resolved_value name none = err (no_resolved_value name)
resolved_value name (some value) = ok (some value)

-- `none` is the second result `false`: the header is dropped.
unfoldable pub secret_header_value : ExternalMonitorSource → Text → Result (Option Text)
unfolding resolved_value
secret_header_value s name = elim s.header_values [
  | none ↦ ok none
  | some values ↦ resolved_value name (lookup_value name values)
]

unfoldable pub literal_header_value : Text → Option Text → Result (Option Text)
literal_header_value name none = err (neither_value_nor_value_from name)
literal_header_value name (some value) = ok (some value)

unfoldable pub header_value : ExternalMonitorSource → Api.HeaderField → Result (Option Text)
unfolding secret_header_value literal_header_value
header_value s header = elim header.value_from [
  | none ↦ literal_header_value header.name header.value
  | some source ↦ secret_header_value s header.name
]

-- What one round of the loop of `sortedHeaders` appends.
unfoldable pub kept_header : Text → Option Text → List Monitor.HeaderField
kept_header name none = []
kept_header name (some value) = record { name = name; value = value } ∷ []

-- The loop of `sortedHeaders`, with what it has collected.
unfoldable pub collect_headers :
    ExternalMonitorSource
    → List Api.HeaderField
    → List Monitor.HeaderField
    → Result (List Monitor.HeaderField)
unfolding kept_header
collect_headers s [] sorted = ok sorted
collect_headers s (h ∷ hs) sorted = do
  value ← header_value s h
  collect_headers s hs (sorted ++ kept_header h.name value)

-- `strings.Compare(a.Name, b.Name)`
unfoldable pub compare_names : Monitor.HeaderField → Monitor.HeaderField → Ordering
compare_names a b = compare_text a.name b.name

unfoldable pub sorted_headers :
    ExternalMonitorSource
    → Option (List Api.HeaderField)
    → Result (Option (List Monitor.HeaderField))
unfolding collect_headers
sorted_headers s none = ok none
sorted_headers s (some headers) = do
  sorted ← collect_headers s headers []
  ok (some (sort compare_names sorted))

-- `max(n, 1)`
unfoldable pub at_least_one : ℤ → ℤ
at_least_one (pos n) = if ltb n 1 then pos 1 else pos n
at_least_one (negsuc n) = pos 1

-- `fmt.Sprintf("%s/%s", cr.Namespace, cr.Name)`
abbrev pub namespaced : ExternalMonitor → Text
namespaced cr = cr.namespace ++ b'/' ∷ cr.name

unfoldable pub or_default : Text → Text → Text
or_default default [] = default
or_default default (b ∷ s) = b ∷ s

-- The desired state with an empty hash.
unfoldable pub unhashed :
    ExternalMonitorSource
    → ExternalMonitor
    → Option (List Monitor.HeaderField)
    → DesiredExternalMonitor
unfolding or_default at_least_one
unhashed s cr headers = record {
  name = or_default (namespaced cr) cr.spec.name;
  service = cr.spec.service;
  url = cr.spec.url;
  method = or_default (codes "GET") cr.spec.method;
  notification_interval = cr.spec.notification_interval;
  expected_status_code = cr.spec.expected_status_code;
  contains_string = cr.spec.contains_string;
  response_time_duration = cr.spec.response_time_duration;
  response_time_warning = cr.spec.response_time_warning;
  response_time_critical = cr.spec.response_time_critical;
  certification_expiration_warning = cr.spec.certification_expiration_warning;
  certification_expiration_critical = cr.spec.certification_expiration_critical;
  is_mute = cr.spec.is_mute;
  follow_redirect = cr.spec.follow_redirect;
  skip_certificate_verification = cr.spec.skip_certificate_verification;
  max_check_attempts = at_least_one cr.spec.max_check_attempts;
  request_body = cr.spec.request_body;
  dualstack = cr.spec.dualstack;
  headers = headers;
  memo = cr.spec.memo;
  resource = codes "externalmonitor/" ++ namespaced cr;
  owner = s.owner_id;
  hash = [];
}

-- The error of `HashDesired`, returned.
unfoldable pub lift_hash : Outcome HashError Text → Result Text
lift_hash (ok hash) = ok hash
lift_hash (err e) = err (hash_error e)

module _ (digest : Digest) where
  unfoldable pub from_external_monitor :
      ExternalMonitorSource → Option ExternalMonitor → Result DesiredExternalMonitor
  unfolding unhashed lift_hash
  from_external_monitor s none = err external_monitor_nil
  from_external_monitor s (some cr) = do
    headers ← sorted_headers s cr.spec.headers
    let desired = unhashed s cr headers
    hash ← lift_hash (hash_desired digest desired s.hash_length)
    ok (record desired { hash = hash })
