-- ===== src/Provider/Convert/RoundTrip.antt =====
-- A monitor that was written from a desired state matches that state when it is read back.
use mathlib.Core.List.{Perm}
use mathlib.Core.List.Perm
use mackerel_operator.Prelude.{◌^◌, ◌≡◌, refl, sym, subst, Option, none, some, List, Text}
use mackerel_operator.Monitor.{
  HeaderField, DesiredExternalMonitor, normalize_dualstack, normalize_dualstack_idem,
}
use mackerel_operator.Planner.Match.{Matches, HeadersInSync}
use mackerel_operator.Prelude.Outcome.{ok}
use mackerel_operator.Provider.Client.{Float64, MonitorExternalHttp}
use mackerel_operator.Provider.Convert.{
  max_int, dualstack_from_mackerel, dualstack_to_mackerel, header_fields_from_mackerel,
  merge_headers, merged_fields, merge_mackerel_external_monitor,
  actual_external_monitor_from_mackerel,
}
use mackerel_operator.Provider.Convert.Numbers.{
  InRange, interval-ReadBack, uint64-ReadBack, attempts-ReadBack, float64-ReadBack,
  headers_read_back,
}

-- The numbers of a desired state that the service can hold. An interval is at least 1, since 0
-- means unset there, and the response times are exact as `float64`.
pub record IsSyncable (d : DesiredExternalMonitor) : Type 0 where
  pub interval : InRange 1 max_int d.notification_interval
  pub duration : InRange 0 max_int d.response_time_duration
  pub warning : InRange 0 (2 ^ 53) d.response_time_warning
  pub critical : InRange 0 (2 ^ 53) d.response_time_critical
  pub certification_warning : InRange 0 max_int d.certification_expiration_warning
  pub certification_critical : InRange 0 max_int d.certification_expiration_critical
  pub attempts : InRange 0 max_int (some d.max_check_attempts)

merged-HeadersInSync :
    (base desired : Option (List HeaderField))
    → HeadersInSync desired (header_fields_from_mackerel (merge_headers base desired))
unfolding merge_headers
merged-HeadersInSync base none = tt
merged-HeadersInSync base (some hs) =
    subst (λ l. Perm hs l) (sym (headers_read_back hs)) (Perm.refl hs)

merged_dualstack :
    (s : Text)
    → normalize_dualstack s
      ≡ normalize_dualstack (dualstack_from_mackerel (dualstack_to_mackerel s))
unfolding dualstack_from_mackerel dualstack_to_mackerel
merged_dualstack s = sym (normalize_dualstack_idem s)

module _ (fl : Float64) (base : MonitorExternalHttp fl.F) (d : DesiredExternalMonitor)
    (memo : Text) where
  -- If its numbers are ones that the service can hold, merging a desired state into any monitor
  -- succeeds; what is read back from the result matches the desired state and has the given memo,
  -- and the identifier of the monitor is kept.
  pub merge-Matches :
      IsSyncable d
      → (p : MonitorExternalHttp fl.F) × (merge_mackerel_external_monitor fl base d memo ≡ ok p)
        × Matches d (actual_external_monitor_from_mackerel fl p)
        × ((actual_external_monitor_from_mackerel fl p).memo ≡ memo)
        × (p.id ≡ base.id)
  unfolding merge_mackerel_external_monitor actual_external_monitor_from_mackerel
  merge-Matches s =
      let (ni, send_ni, read_ni) = interval-ReadBack d.notification_interval s.interval in
      let (w, send_w, read_w) = float64-ReadBack fl d.response_time_warning s.warning in
      let (c, send_c, read_c) = float64-ReadBack fl d.response_time_critical s.critical in
      let (rd, send_rd, read_rd) = uint64-ReadBack d.response_time_duration s.duration in
      let (cw, send_cw, read_cw) =
        uint64-ReadBack d.certification_expiration_warning s.certification_warning in
      let (cc', send_cc, read_cc) =
        uint64-ReadBack d.certification_expiration_critical s.certification_critical in
      let (ma, send_ma, read_ma) = attempts-ReadBack d.max_check_attempts s.attempts in
      (
        merged_fields fl base d memo ni w c rd cw cc' ma,
        rw (send_ni, send_w, send_c, send_rd, send_cw, send_cc, send_ma),
        record {
          name = refl;
          service = refl;
          url = refl;
          method = refl;
          notification_interval = sym read_ni;
          expected_status_code = refl;
          contains_string = refl;
          response_time_duration = sym read_rd;
          response_time_warning = sym read_w;
          response_time_critical = sym read_c;
          certification_expiration_warning = sym read_cw;
          certification_expiration_critical = sym read_cc;
          is_mute = refl;
          follow_redirect = refl;
          skip_certificate_verification = refl;
          max_check_attempts = sym read_ma;
          request_body = refl;
          dualstack = merged_dualstack d.dualstack;
          headers = merged-HeadersInSync base.headers d.headers;
        },
        refl,
        refl,
      )
