-- ===== src/Controller/Reconcile/Accepted.antt =====
-- When the desired state of a resource is not refused.
use mackerel_operator.Prelude.{ℕ, ◌≤◌, List, [], All, ◌≡◌, refl, Option, none, some, Text}
use mackerel_operator.Prelude.Outcome.{ok}
use mackerel_operator.Prelude.Int.{pos}
use mackerel_operator.Api.{ExternalMonitor, HeaderField}
use mackerel_operator.Monitor
use mackerel_operator.Monitor.Hash.{Digest, hash_desired}
use mackerel_operator.Monitor.Hash.Laws.{hash_desired_iff}
use mackerel_operator.Monitor.{DesiredExternalMonitor, ActualExternalMonitor}
use mackerel_operator.Source
use mackerel_operator.Source.{sorted_headers, lift_hash, unhashed, from_external_monitor}
use mackerel_operator.Controller.Settings.{
  Libraries, ExternalMonitorReconciler, external_monitor_source, hash_length_of,
}
use mackerel_operator.Controller.Secrets.{Values}
use mackerel_operator.Controller.Secrets.Direct.{Secrets, direct_values}
use mackerel_operator.Controller.Secrets.Complete.{IsDeclared, sorted_headers-direct}

made-accepted :
    (digest : Digest) (s : Source.ExternalMonitorSource) (cr : ExternalMonitor)
    (xs : Option (List Monitor.HeaderField)) (h : Text)
    → sorted_headers s cr.spec.headers ≡ ok xs
    → hash_desired digest (unhashed s cr xs) s.hash_length ≡ ok h
    → from_external_monitor digest s (some cr) ≡ ok (record (unhashed s cr xs) { hash = h })
unfolding from_external_monitor lift_hash
made-accepted digest s cr xs h e f = rw (e, f)

module _ (lib : Libraries) where
  -- What is asked of a resource and of the settings: the schema of the headers, settings that can
  -- be encoded, and a hash length that the start of the process admits.
  pub record IsAcceptable (r : ExternalMonitorReconciler) (cr : ExternalMonitor) : Type 0 where
    pub declared : (hs : List HeaderField) → cr.spec.headers ≡ some hs → All IsDeclared hs
    pub encodable : (d : DesiredExternalMonitor) → (t : Text) × (lib.digest.marshal d ≡ some t)
    pub hash_length : ℕ
    pub length_set : hash_length_of r ≡ pos hash_length
    pub at_least_1 : 1 ≤ hash_length
    pub at_most_64 : hash_length ≤ 64

  module _ (r : ExternalMonitorReconciler) (cr : ExternalMonitor) (fit : IsAcceptable r cr) where
    hashed :
        (d : DesiredExternalMonitor)
        → (h : Text) × (hash_desired lib.digest d (hash_length_of r) ≡ ok h)
    hashed d =
        let (t, e) = fit.encodable (record d { hash = [] }) in
        (hash_desired_iff lib.digest d (hash_length_of r) t e).1
          (fit.hash_length, fit.length_set, fit.at_least_1, fit.at_most_64)

    sorted :
        (secrets : Secrets) (values : Values) (o : Option (List HeaderField))
        → cr.spec.headers ≡ o
        → direct_values secrets o ≡ ok values
        → (xs : Option (List Monitor.HeaderField)) × (sorted_headers
              (external_monitor_source r values)
              o
            ≡ ok xs)
    sorted secrets values none same e = unfold sorted_headers in (none, refl)
    sorted secrets values (some hs) same e =
        let (xs, made) = sorted_headers-direct r secrets hs values (fit.declared hs same) e in
        (some xs, made)

    pub accepted :
        (secrets : Secrets) (values : Values)
        → direct_values secrets cr.spec.headers ≡ ok values
        → (d : DesiredExternalMonitor) × (from_external_monitor lib.digest
              (external_monitor_source r values)
              (some cr)
            ≡ ok d)
    unfolding from_external_monitor external_monitor_source
    accepted secrets values e =
        let (xs, made) = sorted secrets values cr.spec.headers refl e in
        let (h, digested) = hashed (unhashed (external_monitor_source r values) cr xs) in
        (_, made-accepted lib.digest (external_monitor_source r values) cr xs h made digested)
