-- ===== src/Api.antt =====
-- api/v1alpha1/externalmonitor_types.go: the custom resource. A pointer, a field that may be
-- absent, is an `Option`.
pub mod Scheme
use mackerel_operator.Prelude.{ℕ, Bool, Option, List, Text}
use mackerel_operator.Prelude.Int.{ℤ}

pub record SecretKeySelector : Type 0 where
  pub name : Text
  pub key : Text

pub record HeaderValueSource : Type 0 where
  pub secret_key_ref : Option SecretKeySelector

pub record HeaderField : Type 0 where
  pub name : Text
  pub value : Option Text
  pub value_from : Option HeaderValueSource

pub record ExternalMonitorSpec : Type 0 where
  pub name : Text
  pub service : Text
  pub url : Text
  pub method : Text
  pub notification_interval : Option ℤ
  pub expected_status_code : Option ℤ
  pub contains_string : Text
  pub response_time_duration : Option ℤ
  pub response_time_warning : Option ℤ
  pub response_time_critical : Option ℤ
  pub certification_expiration_warning : Option ℤ
  pub certification_expiration_critical : Option ℤ
  pub is_mute : Bool
  pub follow_redirect : Bool
  pub skip_certificate_verification : Bool
  pub max_check_attempts : ℤ
  pub request_body : Text
  pub dualstack : Text
  pub headers : Option (List HeaderField)
  pub memo : Text

-- `metav1.Condition`, without its time of transition.
pub record Condition : Type 0 where
  pub kind : Text
  pub status : Bool
  pub observed_generation : ℤ
  pub reason : Text
  pub message : Text

-- A time is a number of the clock.
pub record ExternalMonitorStatus : Type 0 where
  pub monitor_id : Text
  pub observed_generation : ℤ
  pub last_synced_at : Option ℕ
  pub last_applied_hash : Text
  pub url : Text
  pub mackerel_monitor_name : Text
  pub conditions : List Condition

-- Of `metav1.ObjectMeta`, what the controller reads and writes.
pub record ExternalMonitor : Type 0 where
  pub namespace : Text
  pub name : Text
  pub generation : ℤ
  pub resource_version : ℕ
  pub deletion_timestamp : Option ℕ
  pub finalizers : List Text
  pub spec : ExternalMonitorSpec
  pub status : ExternalMonitorStatus
