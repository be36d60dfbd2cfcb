-- ===== src/Monitor.antt =====
-- internal/monitor: the intermediate model of a monitor (model.go) and the dualstack default
-- (dualstack.go). A Go pointer that may be nil is an `Option`.
pub mod Hash
use mackerel_operator.Prelude.{
  ◌≡◌, ◌↔◌, refl, Bool, true, Option, List, [], ◌∷◌, ◌&&◌, arith, Text, codes, Eq, ◌==◌, ==_iff,
  nat_eq, list_eq,
}
use mackerel_operator.Prelude.Int.{ℤ}

pub record HeaderField : Type 0 where
  pub name : Text
  pub value : Text

pub record DesiredExternalMonitor : Type 0 where
  pub name : Text
  pub service : Text
  pub url : Text
  pub method : Text
  pub notification_interval : Option ℤ
  pub expected_status_code : Option ℤ
  pub contains_string : Text
  pub response_time_duration : Option ℤ
  pub response_time_warning : Option ℤ
  pub response_time_critical : Option ℤ
  pub certification_expiration_warning : Option ℤ
  pub certification_expiration_critical : Option ℤ
  pub is_mute : Bool
  pub follow_redirect : Bool
  pub skip_certificate_verification : Bool
  pub max_check_attempts : ℤ
  pub request_body : Text
  pub dualstack : Text
  pub headers : Option (List HeaderField)
  pub memo : Text
  pub resource : Text
  pub owner : Text
  pub hash : Text

pub record ActualExternalMonitor : Type 0 where
  pub id : Text
  pub name : Text
  pub service : Text
  pub url : Text
  pub method : Text
  pub notification_interval : Option ℤ
  pub expected_status_code : Option ℤ
  pub contains_string : Text
  pub response_time_duration : Option ℤ
  pub response_time_warning : Option ℤ
  pub response_time_critical : Option ℤ
  pub certification_expiration_warning : Option ℤ
  pub certification_expiration_critical : Option ℤ
  pub is_mute : Bool
  pub follow_redirect : Bool
  pub skip_certificate_verification : Bool
  pub max_check_attempts : ℤ
  pub request_body : Text
  pub dualstack : Text
  pub headers : List HeaderField
  pub memo : Text

-- Go compares the structs field by field.
abbrev pub header_beq : HeaderField → HeaderField → Bool
header_beq a b = a.name == b.name && a.value == b.value

pub header_beq_iff : (a b : HeaderField) → (header_beq a b ≡ true) ↔ (a ≡ b)
header_beq_iff a b = ground (arith, ==_iff a.name b.name, ==_iff a.value b.value)

instance abbrev pub header_eq : Eq HeaderField
header_eq = record { equals = header_beq; equals_iff = header_beq_iff }

abbrev pub default_dualstack : Text
default_dualstack = codes "ipv4"

unfoldable pub normalize_dualstack : Text → Text
normalize_dualstack [] = default_dualstack
normalize_dualstack (c ∷ s) = c ∷ s

-- Widening twice is widening once.
pub normalize_dualstack_idem :
    (s : Text) → normalize_dualstack (normalize_dualstack s) ≡ normalize_dualstack s
unfolding normalize_dualstack
normalize_dualstack_idem [] = refl
normalize_dualstack_idem (c ∷ s) = refl
