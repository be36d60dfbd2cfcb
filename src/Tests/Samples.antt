-- ===== src/Tests/Samples.antt =====
-- Sample resources, monitors and markers.
use mackerel_operator.Prelude.{true, false, none, some, [], ◌∷◌, Text, codes}
use mackerel_operator.Prelude.Int.{ℤ, pos}
use mackerel_operator.Api
use mackerel_operator.Api.{ExternalMonitor, ExternalMonitorSpec, ExternalMonitorStatus}
use mackerel_operator.Monitor.{DesiredExternalMonitor, ActualExternalMonitor}
use mackerel_operator.Ownership.Marker.{Marker}
use mackerel_operator.Provider.Client.{MonitorExternalHttp}
use mackerel_operator.Monitor
use mackerel_operator.Provider.Convert.{new_base}
use mackerel_operator.Source.{ExternalMonitorSource}
use mackerel_operator.Controller.Settings.{ExternalMonitorReconciler}
use mackerel_operator.Tests.Instances.{sample_float64}

abbrev pub shop_marker : Marker
shop_marker = record {
  resource = codes "externalmonitor/team/shop";
  owner = codes "prod";
  hash = codes "0a1b2c3";
}

-- A marker with an owner that is escaped.
abbrev pub spaced_marker : Marker
spaced_marker = record { resource = codes "r"; owner = codes "a, b%"; hash = codes "0" }

abbrev pub shop_desired : DesiredExternalMonitor
shop_desired = record {
  name = codes "shop";
  service = codes "front";
  url = codes "https://shop.example/health";
  method = codes "GET";
  notification_interval = some (pos 10);
  expected_status_code = some (pos 200);
  contains_string = [];
  response_time_duration = some (pos 5);
  response_time_warning = some (pos 1000);
  response_time_critical = some (pos 3000);
  certification_expiration_warning = none;
  certification_expiration_critical = some (pos 14);
  is_mute = false;
  follow_redirect = true;
  skip_certificate_verification = false;
  max_check_attempts = pos 3;
  request_body = [];
  dualstack = [];
  headers = some (
      record { name = codes "Accept"; value = codes "text/html" }
      ∷ record { name = codes "X-Env"; value = codes "prod" }
      ∷ []);
  memo = codes "owned by team";
  resource = codes "externalmonitor/team/shop";
  owner = codes "prod";
  hash = codes "0a1b2c3";
}

-- The monitor of the shop with another URL, and with the given memo.
abbrev pub old_shop : Text → ActualExternalMonitor
old_shop memo = record {
  id = codes "m1";
  name = codes "shop";
  service = codes "front";
  url = codes "https://old.example/";
  method = codes "GET";
  notification_interval = some (pos 10);
  expected_status_code = some (pos 200);
  contains_string = [];
  response_time_duration = some (pos 5);
  response_time_warning = some (pos 1000);
  response_time_critical = some (pos 3000);
  certification_expiration_warning = none;
  certification_expiration_critical = some (pos 14);
  is_mute = false;
  follow_redirect = true;
  skip_certificate_verification = false;
  max_check_attempts = pos 3;
  request_body = [];
  dualstack = codes "ipv4";
  headers = [];
  memo = memo;
}

abbrev pub old_payload : MonitorExternalHttp ℤ
old_payload = record (new_base sample_float64) { id = codes "m1"; name = codes "shop" }

abbrev pub accept_header : Api.HeaderField
accept_header = record {
  name = codes "Accept";
  value = some (codes "text/html");
  value_from = none;
}

abbrev pub env_header : Api.HeaderField
env_header = record { name = codes "X-Env"; value = some (codes "prod"); value_from = none }

abbrev pub shop_spec : ExternalMonitorSpec
shop_spec = record {
  name = [];
  service = codes "front";
  url = codes "https://shop.example/health";
  method = [];
  notification_interval = none;
  expected_status_code = none;
  contains_string = [];
  response_time_duration = none;
  response_time_warning = none;
  response_time_critical = none;
  certification_expiration_warning = none;
  certification_expiration_critical = none;
  is_mute = false;
  follow_redirect = true;
  skip_certificate_verification = false;
  max_check_attempts = pos 1;
  request_body = [];
  dualstack = [];
  headers = some (env_header ∷ accept_header ∷ []);
  memo = [];
}

abbrev pub empty_status : ExternalMonitorStatus
empty_status = record {
  monitor_id = [];
  observed_generation = pos 0;
  last_synced_at = none;
  last_applied_hash = [];
  url = [];
  mackerel_monitor_name = [];
  conditions = [];
}

abbrev pub shop : ExternalMonitor
shop = record {
  namespace = codes "team";
  name = codes "shop";
  generation = pos 2;
  resource_version = 7;
  deletion_timestamp = none;
  finalizers = [];
  spec = shop_spec;
  status = empty_status;
}

abbrev pub shop_source : ExternalMonitorSource
shop_source = record { owner_id = codes "prod"; hash_length = pos 7; header_values = some [] }

abbrev pub upsert_reconciler : ExternalMonitorReconciler
upsert_reconciler = record {
  has_provider = true;
  owner_id = [];
  policy = [];
  hash_length = pos 0;
  disable_secret_watch = false;
}

abbrev pub sync_reconciler : ExternalMonitorReconciler
sync_reconciler = record {
  has_provider = true;
  owner_id = codes "prod";
  policy = codes "sync";
  hash_length = pos 7;
  disable_secret_watch = false;
}

abbrev pub accept : Monitor.HeaderField
accept = record { name = codes "Accept"; value = codes "text/html" }

abbrev pub env : Monitor.HeaderField
env = record { name = codes "X-Env"; value = codes "prod" }

-- A header whose value stands in a Secret.
abbrev pub token_header : Api.HeaderField
token_header = record {
  name = codes "Authorization";
  value = none;
  value_from =
      some
        (record { secret_key_ref = some (record { name = codes "tokens"; key = codes "shop" }) });
}

abbrev pub secret_shop : ExternalMonitor
secret_shop = record shop {
  spec = record shop_spec { headers = some (token_header ∷ accept_header ∷ []) };
}
