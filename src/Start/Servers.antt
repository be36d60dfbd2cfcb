-- ===== src/Start/Servers.antt =====
-- The options of the webhook server, of the metrics server and of the manager in cmd/main.go.
use mackerel_operator.Prelude.{
  Bool, true, false, not, List, [], ◌∷◌, Text, codes, length, ltb, if◌then◌else◌,
}
use mackerel_operator.Start.CommandLine.{Flags}

-- `tls.Config`, as far as it is set.
pub record TlsConfig : Type 0 where
  pub next_protos : List Text

unfoldable pub disable_http2 : TlsConfig → TlsConfig
disable_http2 c = record c { next_protos = codes "http/1.1" ∷ [] }

unfoldable pub tls_opts : Flags → List (TlsConfig → TlsConfig)
unfolding disable_http2
tls_opts flags = if not flags.enable_http2 then disable_http2 ∷ [] else []

pub record WebhookOptions : Type 0 where
  pub tls_opts : List (TlsConfig → TlsConfig)
  pub cert_dir : Text
  pub cert_name : Text
  pub key_name : Text

unfoldable pub webhook_options : Flags → WebhookOptions
unfolding tls_opts
webhook_options flags =
    let options : WebhookOptions = record {
      tls_opts = tls_opts flags;
      cert_dir = [];
      cert_name = [];
      key_name = [];
    } in
    if ltb 0 (length flags.webhook_cert_path)
    then (record options {
      cert_dir = flags.webhook_cert_path;
      cert_name = flags.webhook_cert_name;
      key_name = flags.webhook_cert_key;
    })
    else options

-- `authenticated` says that the filter provider is set.
pub record MetricsOptions : Type 0 where
  pub bind_address : Text
  pub secure_serving : Bool
  pub tls_opts : List (TlsConfig → TlsConfig)
  pub authenticated : Bool
  pub cert_dir : Text
  pub cert_name : Text
  pub key_name : Text

unfoldable pub metrics_options : Flags → MetricsOptions
unfolding tls_opts
metrics_options flags =
    let options : MetricsOptions = record {
      bind_address = flags.metrics_addr;
      secure_serving = flags.secure_metrics;
      tls_opts = tls_opts flags;
      authenticated = false;
      cert_dir = [];
      cert_name = [];
      key_name = [];
    } in
    let filtered : MetricsOptions =
      if flags.secure_metrics then (record options { authenticated = true }) else options in
    if ltb 0 (length flags.metrics_cert_path)
    then (record filtered {
      cert_dir = flags.metrics_cert_path;
      cert_name = flags.metrics_cert_name;
      key_name = flags.metrics_cert_key;
    })
    else filtered

pub record ManagerOptions : Type 0 where
  pub metrics : MetricsOptions
  pub webhook : WebhookOptions
  pub health_probe_bind_address : Text
  pub leader_election : Bool
  pub leader_election_id : Text

unfoldable pub manager_options : Flags → ManagerOptions
unfolding metrics_options webhook_options
manager_options flags = record {
  metrics = metrics_options flags;
  webhook = webhook_options flags;
  health_probe_bind_address = flags.probe_addr;
  leader_election = flags.enable_leader_election;
  leader_election_id = codes "9145d4bb.starry.blue";
}
