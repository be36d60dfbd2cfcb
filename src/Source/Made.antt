-- ===== src/Source/Made.antt =====
-- The parts of a desired state that `FromExternalMonitor` returns.
use mackerel_operator.Prelude.{◌≡◌, sym, Option, some, List, Text}
use mackerel_operator.Prelude.Outcome.{Outcome, ok, err, >>=-eq-ok, ok-injective}
use mackerel_operator.Api.{ExternalMonitor}
use mackerel_operator.Monitor.{HeaderField, DesiredExternalMonitor}
use mackerel_operator.Monitor.Hash.{Digest, HashError, hash_desired}
use mackerel_operator.Source.{
  ExternalMonitorSource, sorted_headers, unhashed, lift_hash, from_external_monitor,
}

lift_hash-ok : (o : Outcome HashError Text) (h : Text) → lift_hash o ≡ ok h → o ≡ ok h
unfolding lift_hash
lift_hash-ok (ok g) h e = cc (ok-injective e)
lift_hash-ok (err x) h e = absurd (cc)

module _ (digest : Digest) (s : ExternalMonitorSource) (cr : ExternalMonitor) where
  pub record Made (d : DesiredExternalMonitor) : Type 0 where
    pub headers : Option (List HeaderField)
    pub hash : Text
    pub sorted : sorted_headers s cr.spec.headers ≡ ok headers
    pub hashed : hash_desired digest (unhashed s cr headers) s.hash_length ≡ ok hash
    pub whole : d ≡ record (unhashed s cr headers) { hash = hash }

  pub from_external_monitor-Made :
      (d : DesiredExternalMonitor) → from_external_monitor digest s (some cr) ≡ ok d → Made d
  unfolding from_external_monitor
  from_external_monitor-Made d e =
      let (headers, sorted, e) = >>=-eq-ok (sorted_headers s cr.spec.headers) _ e in
      let (hash, lifted, e) =
        >>=-eq-ok (lift_hash (hash_desired digest (unhashed s cr headers) s.hash_length)) _ e in
      record {
        headers = headers;
        hash = hash;
        sorted = sorted;
        hashed = lift_hash-ok _ hash lifted;
        whole = sym (ok-injective e);
      }
