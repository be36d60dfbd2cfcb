-- ===== src/DeepCopy/Resource.antt =====
-- The copies of a specification, of a status and of a resource have the value of what was copied.
use mackerel_operator.Prelude.{ℕ, ◌≤◌, Option, arith}
use mackerel_operator.Prelude.Int.{ℤ}
use mackerel_operator.Api.{ExternalMonitorSpec, ExternalMonitorStatus}
use mackerel_operator.DeepCopy.Cells.{
  int_cell, time_cell, Memory, Same, Same-refl, Same-trans, Same-above,
}
use mackerel_operator.DeepCopy.Values.{
  HoldsInt, HoldsSpec, HoldsStatus, ObjectMetaCopy, MonitorValue, HoldsMonitor,
}
use mackerel_operator.DeepCopy.Kept.{
  HoldsFlat-Same, HoldsHeaders-Same, HoldsSpec-Same, HoldsStatus-Same, HoldsConditions-Same,
}
use mackerel_operator.DeepCopy.{
  SpecAt, StatusAt, MonitorAt, copy_cell, copy_spec, copy_status, copy_monitor,
}
use mackerel_operator.DeepCopy.Parts.{Copies, flat-Copies, conditions-Copies, headers-Copies}

-- What is allocated before a step, and what the step does.
module _ {m : Memory} (lo : ℕ) (l : lo ≤ m.next) where
  int_step :
      {m' : Memory} (o : Option ℕ) (v : Option ℤ)
      → Same 0 m m'
      → HoldsInt 0 m o v
      → Copies (λ lo m o. HoldsInt lo m o v) lo m' (copy_cell m' o)
  int_step {m' = m'} o v s h =
      flat-Copies lo int_cell m' o v (omega (arith, s.grows))
        (HoldsFlat-Same (omega arith) s int_cell o v h)

-- A number that was copied before later steps.
int_kept :
    {m m' : Memory} (lo : ℕ) (o : Option ℕ) (v : Option ℤ)
    → Same 0 m m'
    → HoldsInt lo m o v
    → HoldsInt lo m' o v
int_kept lo o v s h = HoldsFlat-Same (omega arith) (Same-above lo s) int_cell o v h

spec-Copies :
    (lo : ℕ) (m : Memory) (s : SpecAt) (v : ExternalMonitorSpec)
    → lo ≤ m.next
    → HoldsSpec 0 m s v
    → Copies (λ lo m s. HoldsSpec lo m s v) lo m (copy_spec m s)
unfolding copy_spec
spec-Copies lo m s v l h =
    let c1 =
      int_step lo l s.notification_interval v.notification_interval (Same-refl m)
        h.notification_interval in
    let c2 =
      int_step lo l s.expected_status_code v.expected_status_code c1.same h.expected_status_code in
    let a2 = Same-trans c1.same c2.same in
    let c3 =
      int_step lo l s.response_time_duration v.response_time_duration a2 h.response_time_duration in
    let a3 = Same-trans a2 c3.same in
    let c4 =
      int_step lo l s.response_time_warning v.response_time_warning a3 h.response_time_warning in
    let a4 = Same-trans a3 c4.same in
    let c5 =
      int_step lo l s.response_time_critical v.response_time_critical a4 h.response_time_critical in
    let a5 = Same-trans a4 c5.same in
    let c6 =
      int_step lo l s.certification_expiration_warning v.certification_expiration_warning a5
        h.certification_warning in
    let a6 = Same-trans a5 c6.same in
    let c7 =
      int_step lo l s.certification_expiration_critical v.certification_expiration_critical a6
        h.certification_critical in
    let a7 = Same-trans a6 c7.same in
    let c8 =
      headers-Copies lo _ s.headers v.headers (omega (arith, a7.grows))
        (HoldsHeaders-Same (omega arith) a7 s.headers v.headers h.headers) in
    let r6 = Same-trans c7.same c8.same in
    let r5 = Same-trans c6.same r6 in
    let r4 = Same-trans c5.same r5 in
    let r3 = Same-trans c4.same r4 in
    let r2 = Same-trans c3.same r3 in
    let r1 = Same-trans c2.same r2 in
    record {
      same = Same-trans a7 c8.same;
      copied = record {
        name = h.name;
        service = h.service;
        url = h.url;
        method = h.method;
        notification_interval = int_kept lo _ v.notification_interval r1 c1.copied;
        expected_status_code = int_kept lo _ v.expected_status_code r2 c2.copied;
        contains_string = h.contains_string;
        response_time_duration = int_kept lo _ v.response_time_duration r3 c3.copied;
        response_time_warning = int_kept lo _ v.response_time_warning r4 c4.copied;
        response_time_critical = int_kept lo _ v.response_time_critical r5 c5.copied;
        certification_warning = int_kept lo _ v.certification_expiration_warning r6 c6.copied;
        certification_critical =
            int_kept lo _ v.certification_expiration_critical c8.same c7.copied;
        is_mute = h.is_mute;
        follow_redirect = h.follow_redirect;
        skip_certificate_verification = h.skip_certificate_verification;
        max_check_attempts = h.max_check_attempts;
        request_body = h.request_body;
        dualstack = h.dualstack;
        headers = c8.copied;
        memo = h.memo;
      };
    }

status-Copies :
    (lo : ℕ) (m : Memory) (s : StatusAt) (v : ExternalMonitorStatus)
    → lo ≤ m.next
    → HoldsStatus 0 m s v
    → Copies (λ lo m s. HoldsStatus lo m s v) lo m (copy_status m s)
unfolding copy_status
status-Copies lo m s v l h =
    let c1 = flat-Copies lo time_cell m s.last_synced_at v.last_synced_at l h.last_synced_at in
    let c2 =
      conditions-Copies lo _ s.conditions v.conditions (omega (arith, c1.same.grows))
        (HoldsConditions-Same (omega arith) c1.same s.conditions v.conditions h.conditions) in
    record {
      same = Same-trans c1.same c2.same;
      copied = record {
        monitor_id = h.monitor_id;
        observed_generation = h.observed_generation;
        last_synced_at =
            HoldsFlat-Same (omega arith) (Same-above lo c2.same) time_cell _ v.last_synced_at
              c1.copied;
        last_applied_hash = h.last_applied_hash;
        url = h.url;
        mackerel_monitor_name = h.mackerel_monitor_name;
        conditions = c2.copied;
      };
    }

pub monitor-Copies :
    (meta : ObjectMetaCopy) (lo : ℕ) (m : Memory) (x : MonitorAt meta.Meta)
    (v : MonitorValue meta.Value)
    → lo ≤ m.next
    → HoldsMonitor meta 0 m x v
    → Copies (λ lo m x. HoldsMonitor meta lo m x v) lo m (copy_monitor meta.copy m x)
unfolding copy_monitor
monitor-Copies meta lo m x v l h =
    let (s1, copied) = meta.copy-holds lo m x.metadata v.metadata l h.metadata in
    let c2 =
      spec-Copies lo _ x.spec v.spec (omega (arith, s1.grows))
        (HoldsSpec-Same (omega arith) s1 x.spec v.spec h.spec) in
    let s2 = Same-trans s1 c2.same in
    let c3 =
      status-Copies lo _ x.status v.status (omega (arith, s2.grows))
        (HoldsStatus-Same (omega arith) s2 x.status v.status h.status) in
    record {
      same = Same-trans s2 c3.same;
      copied = record {
        type_meta = h.type_meta;
        metadata =
            meta.holds-Same _ v.metadata (omega arith) (Same-above lo (Same-trans c2.same c3.same))
              copied;
        spec = HoldsSpec-Same (omega arith) (Same-above lo c3.same) _ v.spec c2.copied;
        status = c3.copied;
      };
    }
