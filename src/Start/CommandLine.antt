-- ===== src/Start/CommandLine.antt =====
-- The command-line flags of cmd/main.go and their defaults.
use mackerel_operator.Prelude.{Bool, true, false, [], Text, codes}
use mackerel_operator.Prelude.Int.{ℤ, pos}

pub record Flags : Type 0 where
  pub metrics_addr : Text
  pub probe_addr : Text
  pub enable_leader_election : Bool
  pub secure_metrics : Bool
  pub webhook_cert_path : Text
  pub webhook_cert_name : Text
  pub webhook_cert_key : Text
  pub metrics_cert_path : Text
  pub metrics_cert_name : Text
  pub metrics_cert_key : Text
  pub enable_http2 : Bool
  pub disable_secret_watch : Bool
  pub policy : Text
  pub owner_id : Text
  pub hash_length : ℤ

-- The flags of an empty command line.
abbrev pub default_flags : Flags
default_flags = record {
  metrics_addr = codes "0";
  probe_addr = codes ":8081";
  enable_leader_election = false;
  secure_metrics = true;
  webhook_cert_path = [];
  webhook_cert_name = codes "tls.crt";
  webhook_cert_key = codes "tls.key";
  metrics_cert_path = [];
  metrics_cert_name = codes "tls.crt";
  metrics_cert_key = codes "tls.key";
  enable_http2 = false;
  disable_secret_watch = false;
  policy = codes "upsert-only";
  owner_id = codes "default";
  hash_length = pos 7;
}
