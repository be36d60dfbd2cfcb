-- ===== src/Planner.antt =====
-- internal/planner/planner.go
pub mod Headers
pub mod Match
pub mod Decisions
pub mod Deletion
use mackerel_operator.Prelude.{
  Bool, true, false, ◌&&◌, ◌and◌, ◌||◌, not, Option, none, some, List, Text, codes, Ordering, Eq,
  ◌==◌, nat_eq, bool_eq, option_eq, list_eq, length, if◌then◌else◌,
}
use mackerel_operator.Prelude.Int.{int_eq}
use mackerel_operator.Prelude.Order.{compare_text, sort}
use mackerel_operator.Monitor.{
  HeaderField, header_eq, DesiredExternalMonitor, ActualExternalMonitor, normalize_dualstack,
}
use mackerel_operator.Ownership.Marker.{Marker, parse_marker}

pub data Action : Type 0 where
  create update noop restore_marker ownership_lost delete skip_delete : Action

pub record PlanInput : Type 0 where
  pub desired : DesiredExternalMonitor
  pub actual : Option ActualExternalMonitor

pub record Decision : Type 0 where
  pub action : Action
  pub reason : Text

abbrev pub decide : Action → Text → Decision
decide action reason = record { action = action; reason = reason }

-- `byName`: by name, then by value.
unfoldable pub by_name : HeaderField → HeaderField → Ordering
by_name a b = elim (compare_text a.name b.name) [
  | Ordering.eq ↦ compare_text a.value b.value
  | other ↦ other
]

unfoldable pub headers_match : List HeaderField → List HeaderField → Bool
headers_match desired actual =
    if not (length desired == length actual)
    then false
    else sort by_name desired == sort by_name actual

unfoldable pub headers_in_sync : Option (List HeaderField) → List HeaderField → Bool
unfolding headers_match
headers_in_sync none actual = true
headers_in_sync (some desired) actual = headers_match desired actual

unfoldable pub actual_matches_desired : DesiredExternalMonitor → ActualExternalMonitor → Bool
actual_matches_desired desired actual =
    desired.name == actual.name
    and desired.service == actual.service
    and desired.url == actual.url
    and desired.method == actual.method
    and desired.notification_interval == actual.notification_interval
    and desired.expected_status_code == actual.expected_status_code
    and desired.contains_string == actual.contains_string
    and desired.response_time_duration == actual.response_time_duration
    and desired.response_time_warning == actual.response_time_warning
    and desired.response_time_critical == actual.response_time_critical
    and desired.certification_expiration_warning == actual.certification_expiration_warning
    and desired.certification_expiration_critical == actual.certification_expiration_critical
    and desired.is_mute == actual.is_mute
    and desired.follow_redirect == actual.follow_redirect
    and desired.skip_certificate_verification == actual.skip_certificate_verification
    and desired.max_check_attempts == actual.max_check_attempts
    and desired.request_body == actual.request_body
    and normalize_dualstack desired.dualstack == normalize_dualstack actual.dualstack
    and headers_in_sync desired.headers actual.headers

-- `Plan` behind `ParseMarker`; `none` is the result `false`.
unfoldable pub plan_marked :
    DesiredExternalMonitor → ActualExternalMonitor → Option Marker → Decision
plan_marked desired actual none =
    if actual_matches_desired desired actual
    then decide restore_marker
        (codes "ownership marker is missing but monitor matches desired state")
    else decide ownership_lost
        (codes "ownership marker is missing and monitor differs from desired state")
plan_marked desired actual (some marker) =
    if not (marker.owner == desired.owner) || not (marker.resource == desired.resource)
    then decide ownership_lost (codes "ownership marker belongs to another owner or resource")
    else if marker.hash == desired.hash && actual_matches_desired desired actual
    then decide noop (codes "actual monitor matches desired state")
    else decide update (codes "owned monitor differs from desired state")

unfoldable pub plan : PlanInput → Decision
unfolding plan_marked
plan input = elim input.actual [
  | none ↦ decide create (codes "actual monitor is missing")
  | some actual ↦ plan_marked input.desired actual (parse_marker actual.memo)
]

unfoldable pub plan_delete_marked : Text → Text → Option Marker → Decision
plan_delete_marked owner resource none =
    decide skip_delete (codes "monitor is not owned by this controller")
plan_delete_marked owner resource (some marker) =
    if not (marker.owner == owner) || not (marker.resource == resource)
    then decide skip_delete (codes "monitor is not owned by this controller")
    else decide delete (codes "policy is sync and monitor is owned")

unfoldable pub plan_delete : Option ActualExternalMonitor → Text → Text → Text → Decision
unfolding plan_delete_marked
plan_delete none owner resource policy = decide skip_delete (codes "actual monitor is missing")
plan_delete (some actual) owner resource policy =
    if not (policy == codes "sync")
    then decide skip_delete (codes "policy is not sync")
    else plan_delete_marked owner resource (parse_marker actual.memo)
