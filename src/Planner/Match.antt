-- ===== src/Planner/Match.antt =====
-- What `actualMatchesDesired` decides, field by field.
use mathlib.Core.List.{Perm}
use mackerel_operator.Prelude.{
  ◌≡◌, ◌↔◌, refl, Bool, true, ◌&&◌, Option, none, some, List, Eq, ◌==◌, ==_iff, &&-iff, nat_eq,
  bool_eq, option_eq, list_eq,
}
use mackerel_operator.Prelude.Int.{int_eq}
use mackerel_operator.Monitor.{
  HeaderField, DesiredExternalMonitor, ActualExternalMonitor, normalize_dualstack,
}
use mackerel_operator.Planner.{headers_in_sync, actual_matches_desired}
use mackerel_operator.Planner.Headers.{headers_match_iff_perm}

-- No declared headers ask for nothing; declared ones are to be live, in any order.
abbrev pub HeadersInSync : Option (List HeaderField) → List HeaderField → Type 0
HeadersInSync none actual = Unit {0}
HeadersInSync (some desired) actual = Perm desired actual

-- A live monitor is in the desired state.
pub record Matches (d : DesiredExternalMonitor) (a : ActualExternalMonitor) : Type 0 where
  pub name : d.name ≡ a.name
  pub service : d.service ≡ a.service
  pub url : d.url ≡ a.url
  pub method : d.method ≡ a.method
  pub notification_interval : d.notification_interval ≡ a.notification_interval
  pub expected_status_code : d.expected_status_code ≡ a.expected_status_code
  pub contains_string : d.contains_string ≡ a.contains_string
  pub response_time_duration : d.response_time_duration ≡ a.response_time_duration
  pub response_time_warning : d.response_time_warning ≡ a.response_time_warning
  pub response_time_critical : d.response_time_critical ≡ a.response_time_critical
  pub certification_expiration_warning :
      d.certification_expiration_warning ≡ a.certification_expiration_warning
  pub certification_expiration_critical :
      d.certification_expiration_critical ≡ a.certification_expiration_critical
  pub is_mute : d.is_mute ≡ a.is_mute
  pub follow_redirect : d.follow_redirect ≡ a.follow_redirect
  pub skip_certificate_verification :
      d.skip_certificate_verification ≡ a.skip_certificate_verification
  pub max_check_attempts : d.max_check_attempts ≡ a.max_check_attempts
  pub request_body : d.request_body ≡ a.request_body
  pub dualstack : normalize_dualstack d.dualstack ≡ normalize_dualstack a.dualstack
  pub headers : HeadersInSync d.headers a.headers

headers_in_sync_iff :
    (desired : Option (List HeaderField)) (actual : List HeaderField)
    → (headers_in_sync desired actual ≡ true) ↔ HeadersInSync desired actual
unfolding headers_in_sync
headers_in_sync_iff none actual = (λ _. tt, λ _. refl)
headers_in_sync_iff (some desired) actual = headers_match_iff_perm desired actual

-- One test in front of the others.
split_test {ℓ} :
    {A : Type ℓ} ⦃e : Eq A⦄ (a b : A) {rest : Bool}
    → ((a == b) && rest) ≡ true
    → (a ≡ b) × (rest ≡ true)
split_test a b {rest} h = let (p, q) = (&&-iff (a == b) rest).0 h in ((==_iff a b).0 p, q)

infixr 30 ◌and_test◌
◌and_test◌ {ℓ} :
    {A : Type ℓ} ⦃e : Eq A⦄ {a b : A} {rest : Bool}
    → a ≡ b
    → rest ≡ true
    → ((a == b) && rest) ≡ true
◌and_test◌ {a} {b} {rest} p q = (&&-iff (a == b) rest).1 ((==_iff a b).1 p, q)

module _ (d : DesiredExternalMonitor) (a : ActualExternalMonitor) where
  to_Matches : actual_matches_desired d a ≡ true → Matches d a
  unfolding actual_matches_desired
  to_Matches h =
      let (name, h) = split_test d.name a.name h in
      let (service, h) = split_test d.service a.service h in
      let (url, h) = split_test d.url a.url h in
      let (method, h) = split_test d.method a.method h in
      let (interval, h) = split_test d.notification_interval a.notification_interval h in
      let (status, h) = split_test d.expected_status_code a.expected_status_code h in
      let (contains, h) = split_test d.contains_string a.contains_string h in
      let (duration, h) = split_test d.response_time_duration a.response_time_duration h in
      let (warning, h) = split_test d.response_time_warning a.response_time_warning h in
      let (critical, h) = split_test d.response_time_critical a.response_time_critical h in
      let (cert_warning, h) =
        split_test d.certification_expiration_warning a.certification_expiration_warning h in
      let (cert_critical, h) =
        split_test d.certification_expiration_critical a.certification_expiration_critical h in
      let (mute, h) = split_test d.is_mute a.is_mute h in
      let (redirect, h) = split_test d.follow_redirect a.follow_redirect h in
      let (skip, h) =
        split_test d.skip_certificate_verification a.skip_certificate_verification h in
      let (attempts, h) = split_test d.max_check_attempts a.max_check_attempts h in
      let (body, h) = split_test d.request_body a.request_body h in
      let (dual, h) =
        split_test (normalize_dualstack d.dualstack) (normalize_dualstack a.dualstack) h in
      record {
        name = name;
        service = service;
        url = url;
        method = method;
        notification_interval = interval;
        expected_status_code = status;
        contains_string = contains;
        response_time_duration = duration;
        response_time_warning = warning;
        response_time_critical = critical;
        certification_expiration_warning = cert_warning;
        certification_expiration_critical = cert_critical;
        is_mute = mute;
        follow_redirect = redirect;
        skip_certificate_verification = skip;
        max_check_attempts = attempts;
        request_body = body;
        dualstack = dual;
        headers = (headers_in_sync_iff d.headers a.headers).0 h;
      }

  of_Matches : Matches d a → actual_matches_desired d a ≡ true
  unfolding actual_matches_desired
  of_Matches m =
      m.name
      and_test m.service
      and_test m.url
      and_test m.method
      and_test m.notification_interval
      and_test m.expected_status_code
      and_test m.contains_string
      and_test m.response_time_duration
      and_test m.response_time_warning
      and_test m.response_time_critical
      and_test m.certification_expiration_warning
      and_test m.certification_expiration_critical
      and_test m.is_mute
      and_test m.follow_redirect
      and_test m.skip_certificate_verification
      and_test m.max_check_attempts
      and_test m.request_body
      and_test m.dualstack
      and_test (headers_in_sync_iff d.headers a.headers).1 m.headers

  -- `actualMatchesDesired` holds exactly when all the compared settings agree, the dualstack value
  -- up to its default and the headers up to their order, or without regard to them if none are
  -- declared.
  pub actual_matches_desired_iff : (actual_matches_desired d a ≡ true) ↔ Matches d a
  actual_matches_desired_iff = (to_Matches, of_Matches)
