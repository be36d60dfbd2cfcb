-- ===== src/Provider/Client.antt =====
-- What internal/provider/mackerel.go uses of mackerel-client-go and of `float64`.
use mackerel_operator.Prelude.{ℕ, ◌≡◌, ◌≤◌, ◌^◌, Bool, Option, List, Text}
use mackerel_operator.Prelude.Int.{ℤ, pos}
use mackerel_operator.Monitor.{HeaderField}
use mackerel_operator.Provider.Result.{ClientError}

-- `float64`: the conversions from and to `int`. Integers up to 2^53 are exact.
pub record Float64 : Type 1 where
  pub F : Type 0
  pub of_int : ℤ → F
  pub to_int : F → ℤ
  pub exact : (n : ℕ) → n ≤ 2 ^ 53 → to_int (of_int (pos n)) ≡ pos n

-- The fields of `mackerel.MonitorExternalHTTP`. A `uint64` is a number, and a `nil` slice is apart
-- from an empty one.
pub record MonitorExternalHttp (F : Type 0) : Type 0 where
  pub id : Text
  pub name : Text
  pub memo : Text
  pub kind : Text
  pub is_mute : Bool
  pub notification_interval : ℕ
  pub method : Text
  pub url : Text
  pub max_check_attempts : ℕ
  pub service : Text
  pub response_time_critical : Option F
  pub response_time_warning : Option F
  pub response_time_duration : Option ℕ
  pub request_body : Text
  pub contains_string : Text
  pub certification_expiration_critical : Option ℕ
  pub certification_expiration_warning : Option ℕ
  pub skip_certificate_verification : Bool
  pub follow_redirect : Bool
  pub expected_status_code : Option ℤ
  pub dualstack : Option Text
  pub headers : Option (List HeaderField)

-- A monitor as the service keeps it, under an identifier.
abbrev pub stored : {F : Type 0} → MonitorExternalHttp F → Text → MonitorExternalHttp F
stored p id = record p { id = id }

-- `mackerel.Monitor`: an external monitor, or one of another type.
pub data ClientMonitor (F : Type 0) : Type 0 where
  external : MonitorExternalHttp F → ClientMonitor F
  other_monitor : Text → ClientMonitor F

pub data Reply {ℓ} (A : Type ℓ) : Type ℓ where
  replied : A → Reply A
  failed : ClientError → Reply A
