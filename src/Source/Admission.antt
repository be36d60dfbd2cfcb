-- ===== src/Source/Admission.antt =====
-- What the API server admits (the markers of api/v1alpha1/externalmonitor_types.go), and what follows
-- for the desired state.
use mackerel_operator.Prelude.{
  ℕ, ◌^◌, ◌≤◌, ◌≡◌, ◌≢◌, inl, inr, sym, ap, subst, Bool-cases, Option, none, some, [], ◌∷◌, Text,
  codes, All, All-append, IsBytes, length, ltb, arith,
}
use mackerel_operator.Prelude.Int.{ℤ, pos, negsuc}
use mackerel_operator.Prelude.Outcome.{ok}
use mackerel_operator.Api.{ExternalMonitor, ExternalMonitorSpec}
use mackerel_operator.Monitor.{DesiredExternalMonitor}
use mackerel_operator.Monitor.Hash.{Digest}
use mackerel_operator.Monitor.Hash.Laws.{IsHexDigit, hash_desired-ok}
use mackerel_operator.Ownership.Marker.Match.{IsMarker}
use mackerel_operator.Provider.Convert.{max_int}
use mackerel_operator.Provider.Convert.Numbers.{InRange}
use mackerel_operator.Provider.Convert.RoundTrip.{IsSyncable}
use mackerel_operator.Source.{
  ExternalMonitorSource, at_least_one, namespaced, unhashed, from_external_monitor,
}
use mackerel_operator.Source.Made.{from_external_monitor-Made}

abbrev pub AtMost : ℕ → ℤ → Type 0
AtMost hi (pos n) = n ≤ hi
AtMost hi (negsuc n) = Unit {0}

-- The bounds of the schema on the numbers. One with no upper bound there is at most what an `int`
-- holds. The number of attempts may be unset, which is 0.
pub record IsAdmitted (spec : ExternalMonitorSpec) : Type 0 where
  pub notification_interval : InRange 10 max_int spec.notification_interval
  pub expected_status_code : InRange 100 599 spec.expected_status_code
  pub response_time_duration : InRange 1 max_int spec.response_time_duration
  pub response_time_warning : InRange 0 max_int spec.response_time_warning
  pub response_time_critical : InRange 0 max_int spec.response_time_critical
  pub certification_warning : InRange 0 max_int spec.certification_expiration_warning
  pub certification_critical : InRange 0 max_int spec.certification_expiration_critical
  pub max_check_attempts : AtMost 10 spec.max_check_attempts

-- The response times that `float64` holds exactly, which the schema does not ask for.
pub record IsExact (spec : ExternalMonitorSpec) : Type 0 where
  pub warning : InRange 0 (2 ^ 53) spec.response_time_warning
  pub critical : InRange 0 (2 ^ 53) spec.response_time_critical

lower_bound : (lo lo' hi : ℕ) (v : Option ℤ) → lo' ≤ lo → InRange lo hi v → InRange lo' hi v
lower_bound lo lo' hi none l h = tt
lower_bound lo lo' hi (some (pos n)) l (a, b) = (omega arith, b)
lower_bound lo lo' hi (some (negsuc n)) l h = absurd h

attempts-InRange : (v : ℤ) → AtMost 10 v → InRange 1 max_int (some (at_least_one v))
unfolding at_least_one
attempts-InRange (pos n) h = elim (Bool-cases (ltb n 1)) [
  | inl low ↦ rw low (omega arith, omega arith)
  | inr high ↦ rw high (ground arith, omega arith)
]
attempts-InRange (negsuc n) h = (omega arith, omega arith)

hex_digits-IsBytes : (s : Text) → All IsHexDigit s → IsBytes s
hex_digits-IsBytes [] h = tt
hex_digits-IsBytes (b ∷ s) (inl (l, u), hs) = (omega arith, hex_digits-IsBytes s hs)
hex_digits-IsBytes (b ∷ s) (inr (l, u), hs) = (omega arith, hex_digits-IsBytes s hs)

module _ (digest : Digest) (s : ExternalMonitorSource) (cr : ExternalMonitor)
    (d : DesiredExternalMonitor) where
  -- The desired state of an admitted resource, with response times that are exact as `float64`,
  -- has only numbers that the service can hold.
  pub from_external_monitor-IsSyncable :
      IsAdmitted cr.spec
      → IsExact cr.spec
      → from_external_monitor digest s (some cr) ≡ ok d
      → IsSyncable d
  unfolding unhashed
  from_external_monitor-IsSyncable a x e =
      let m = from_external_monitor-Made digest s cr d e in
      subst IsSyncable (sym m.whole) (record {
        interval = lower_bound 10 1 max_int _ (omega arith) a.notification_interval;
        duration = lower_bound 1 0 max_int _ (omega arith) a.response_time_duration;
        warning = x.warning;
        critical = x.critical;
        certification_warning = a.certification_warning;
        certification_critical = a.certification_critical;
        attempts =
            lower_bound 1 0 max_int (some (at_least_one cr.spec.max_check_attempts)) (omega arith)
              (attempts-InRange cr.spec.max_check_attempts a.max_check_attempts);
      })

  -- It asks for one attempt at least.
  pub from_external_monitor-attempts :
      IsAdmitted cr.spec
      → from_external_monitor digest s (some cr) ≡ ok d
      → InRange 1 max_int (some d.max_check_attempts)
  unfolding unhashed
  from_external_monitor-attempts a e =
      let m = from_external_monitor-Made digest s cr d e in
      subst (λ (d : DesiredExternalMonitor). InRange 1 max_int (some d.max_check_attempts))
        (sym m.whole) (attempts-InRange cr.spec.max_check_attempts a.max_check_attempts)

  -- The desired state of a resource gives a well-formed marker, if the name space, the name and
  -- the owner consist of bytes and the owner is not empty.
  pub from_external_monitor-IsMarker :
      IsBytes cr.namespace
      → IsBytes cr.name
      → IsBytes s.owner_id
      → s.owner_id ≢ []
      → from_external_monitor digest s (some cr) ≡ ok d
      → IsMarker (record { resource = d.resource; owner = d.owner; hash = d.hash })
  unfolding unhashed
  from_external_monitor-IsMarker ns n o one e =
      let m = from_external_monitor-Made digest s cr d e in
      let (k, _, low, _, long, digits) = hash_desired-ok digest _ s.hash_length m.hash m.hashed in
      subst
        (λ (d : DesiredExternalMonitor).
          IsMarker (record { resource = d.resource; owner = d.owner; hash = d.hash }))
        (sym m.whole)
        (record {
          resource_ne = λ e. cc;
          owner_ne = one;
          hash_ne = λ e. absurd (omega (arith, low, long, ap length e));
          resource_bytes =
              All-append _ (codes "externalmonitor/") (namespaced cr) (omega arith)
                (All-append _ cr.namespace (b'/' ∷ cr.name) ns (omega arith, n));
          owner_bytes = o;
          hash_bytes = hex_digits-IsBytes m.hash digits;
        })
