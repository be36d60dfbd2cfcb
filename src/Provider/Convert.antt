-- ===== src/Provider/Convert.antt =====
-- The conversions of internal/provider/mackerel.go between the intermediate model and the client's
-- monitor.
pub mod Numbers
pub mod RoundTrip
pub mod Negative
use mackerel_operator.Prelude.{
  ℕ, zero, suc, ◌-◌, ◌^◌, Bool, true, false, Option, none, some, List, [], ◌∷◌, map, Text, codes,
  ltb, nat_beq, if◌then◌else◌,
}
use mackerel_operator.Prelude.Int.{ℤ, pos, negsuc}
use mackerel_operator.Monitor.{
  HeaderField, DesiredExternalMonitor, ActualExternalMonitor, normalize_dualstack,
}
use mackerel_operator.Prelude.Outcome.{ok, err, ◌>>=◌}
use mackerel_operator.Provider.Result.{Error, negative_int_value, Result}
use mackerel_operator.Provider.Client.{Float64, MonitorExternalHttp}

-- `math.MaxInt` of a 64-bit platform.
abbrev pub max_int : ℕ
max_int = 2 ^ 63 - 1

unfoldable pub int_ptr_from_uint64 : ℕ → Option ℤ
int_ptr_from_uint64 v = if nat_beq v 0 then none else if ltb max_int v then none else some (pos v)

unfoldable pub int_ptr_from_uint64_ptr : Option ℕ → Option ℤ
int_ptr_from_uint64_ptr none = none
int_ptr_from_uint64_ptr (some v) = if ltb max_int v then none else some (pos v)

unfoldable pub uint64_from_int_ptr : Option ℤ → Result ℕ
uint64_from_int_ptr none = ok 0
uint64_from_int_ptr (some (negsuc n)) = err (negative_int_value (negsuc n))
uint64_from_int_ptr (some (pos n)) = ok n

unfoldable pub uint64_ptr_from_int_ptr : Option ℤ → Result (Option ℕ)
uint64_ptr_from_int_ptr none = ok none
uint64_ptr_from_int_ptr (some (negsuc n)) = err (negative_int_value (negsuc n))
uint64_ptr_from_int_ptr (some (pos n)) = ok (some n)

unfoldable pub int_from_uint64 : ℕ → ℤ
int_from_uint64 v = if ltb max_int v then pos 0 else pos v

unfoldable pub dualstack_from_mackerel : Option Text → Text
dualstack_from_mackerel none = []
dualstack_from_mackerel (some dualstack) = dualstack

-- The pointer is never `nil`.
unfoldable pub dualstack_to_mackerel : Text → Option Text
dualstack_to_mackerel dualstack = some (normalize_dualstack dualstack)

-- A `nil` slice has no elements.
unfoldable pub header_fields_from_mackerel : Option (List HeaderField) → List HeaderField
header_fields_from_mackerel none = []
header_fields_from_mackerel (some headers) =
    map (λ h. record { name = h.name; value = h.value }) headers

unfoldable pub header_fields_to_mackerel : List HeaderField → Option (List HeaderField)
header_fields_to_mackerel headers =
    some (map (λ h. record { name = h.name; value = h.value }) headers)

-- The headers are left as they are where the desired state declares none.
unfoldable pub merge_headers :
    Option (List HeaderField) → Option (List HeaderField) → Option (List HeaderField)
merge_headers base none = base
merge_headers base (some desired) = header_fields_to_mackerel desired

module _ (fl : Float64) where
  open fl use {F, of_int, to_int}

  unfoldable pub int_ptr_from_float64 : Option F → Option ℤ
  int_ptr_from_float64 none = none
  int_ptr_from_float64 (some v) = some (to_int v)

  unfoldable pub float64_ptr_from_int_ptr : Option ℤ → Result (Option F)
  float64_ptr_from_int_ptr none = ok none
  float64_ptr_from_int_ptr (some (negsuc n)) = err (negative_int_value (negsuc n))
  float64_ptr_from_int_ptr (some (pos n)) = ok (some (of_int (pos n)))

  unfoldable pub actual_external_monitor_from_mackerel :
      MonitorExternalHttp F → ActualExternalMonitor
  unfolding int_ptr_from_float64 int_ptr_from_uint64 int_ptr_from_uint64_ptr int_from_uint64
      dualstack_from_mackerel header_fields_from_mackerel
  actual_external_monitor_from_mackerel m = record {
    id = m.id;
    name = m.name;
    service = m.service;
    url = m.url;
    method = m.method;
    notification_interval = int_ptr_from_uint64 m.notification_interval;
    expected_status_code = m.expected_status_code;
    contains_string = m.contains_string;
    response_time_duration = int_ptr_from_uint64_ptr m.response_time_duration;
    response_time_warning = int_ptr_from_float64 m.response_time_warning;
    response_time_critical = int_ptr_from_float64 m.response_time_critical;
    certification_expiration_warning = int_ptr_from_uint64_ptr m.certification_expiration_warning;
    certification_expiration_critical = int_ptr_from_uint64_ptr m.certification_expiration_critical;
    is_mute = m.is_mute;
    follow_redirect = m.follow_redirect;
    skip_certificate_verification = m.skip_certificate_verification;
    max_check_attempts = int_from_uint64 m.max_check_attempts;
    request_body = m.request_body;
    dualstack = dualstack_from_mackerel m.dualstack;
    headers = header_fields_from_mackerel m.headers;
    memo = m.memo;
  }

  -- The copy of `base` with the fields set, once the numbers are converted.
  unfoldable pub merged_fields :
      MonitorExternalHttp F
      → DesiredExternalMonitor
      → Text
      → ℕ
      → Option F
      → Option F
      → Option ℕ
      → Option ℕ
      → Option ℕ
      → ℕ
      → MonitorExternalHttp F
  unfolding merge_headers dualstack_to_mackerel
  merged_fields base desired memo notification_interval response_time_warning response_time_critical
        response_time_duration certification_expiration_warning certification_expiration_critical
        max_check_attempts =
      record base {
        kind = codes "external";
        name = desired.name;
        memo = memo;
        notification_interval = notification_interval;
        method = desired.method;
        url = desired.url;
        service = desired.service;
        response_time_duration = response_time_duration;
        response_time_warning = response_time_warning;
        response_time_critical = response_time_critical;
        contains_string = desired.contains_string;
        certification_expiration_warning = certification_expiration_warning;
        certification_expiration_critical = certification_expiration_critical;
        expected_status_code = desired.expected_status_code;
        is_mute = desired.is_mute;
        follow_redirect = desired.follow_redirect;
        skip_certificate_verification = desired.skip_certificate_verification;
        max_check_attempts = max_check_attempts;
        request_body = desired.request_body;
        dualstack = dualstack_to_mackerel desired.dualstack;
        headers = merge_headers base.headers desired.headers;
      }

  unfoldable pub merge_mackerel_external_monitor :
      MonitorExternalHttp F → DesiredExternalMonitor → Text → Result (MonitorExternalHttp F)
  unfolding merged_fields
  merge_mackerel_external_monitor base desired memo = do
    notification_interval ← uint64_from_int_ptr desired.notification_interval
    response_time_warning ← float64_ptr_from_int_ptr desired.response_time_warning
    response_time_critical ← float64_ptr_from_int_ptr desired.response_time_critical
    response_time_duration ← uint64_ptr_from_int_ptr desired.response_time_duration
    certification_expiration_warning ←
        uint64_ptr_from_int_ptr desired.certification_expiration_warning
    certification_expiration_critical ←
        uint64_ptr_from_int_ptr desired.certification_expiration_critical
    max_check_attempts ← uint64_from_int_ptr (some desired.max_check_attempts)
    ok (
        merged_fields base desired memo notification_interval response_time_warning
          response_time_critical response_time_duration certification_expiration_warning
          certification_expiration_critical max_check_attempts)

  -- The zero value of the struct, with its type.
  abbrev pub new_base : MonitorExternalHttp F
  new_base = record {
    id = [];
    name = [];
    memo = [];
    kind = codes "external";
    is_mute = false;
    notification_interval = 0;
    method = [];
    url = [];
    max_check_attempts = 0;
    service = [];
    response_time_critical = none;
    response_time_warning = none;
    response_time_duration = none;
    request_body = [];
    contains_string = [];
    certification_expiration_critical = none;
    certification_expiration_warning = none;
    skip_certificate_verification = false;
    follow_redirect = false;
    expected_status_code = none;
    dualstack = none;
    headers = none;
  }

  unfoldable pub new_mackerel_external_monitor :
      DesiredExternalMonitor → Text → Result (MonitorExternalHttp F)
  unfolding merge_mackerel_external_monitor
  new_mackerel_external_monitor desired memo = merge_mackerel_external_monitor new_base desired memo
