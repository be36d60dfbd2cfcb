-- ===== src/Controller/Watch.antt =====
-- `externalMonitorsForSecret` of internal/controller/externalmonitor_controller.go: which
-- resources an event of a Secret leads to.
pub mod Setup
pub mod Covers
use mackerel_operator.Prelude.{
  Bool, true, false, not, Option, none, some, List, [], ◌∷◌, map, Text, codes, if◌then◌else◌,
}
use mackerel_operator.Api.{ExternalMonitor}
use mackerel_operator.Program.{Program, done, ask, ◌>>=◌, KubeReply, got, refused, list_indexed}

-- `ctrl.Request`
pub record Request : Type 0 where
  pub namespace : Text
  pub name : Text

-- `client.ObjectKeyFromObject`
abbrev pub request_of : ExternalMonitor → Request
request_of cr = record { namespace = cr.namespace; name = cr.name }

-- The loop over the listed resources.
unfoldable pub requests_for : List ExternalMonitor → List Request
requests_for items = map request_of items

-- An error is logged, and nothing is requested.
unfoldable pub secret_requests : KubeReply (List ExternalMonitor) → List Request
unfolding requests_for
secret_requests (refused e) = []
secret_requests (got items) = requests_for items

-- The event's Secret has this name space and name.
unfoldable pub external_monitors_for_secret : {F : Type 0} → Text → Text → Program F (List Request)
unfolding secret_requests
external_monitors_for_secret namespace name = do
  r ← ask (list_indexed namespace name)
  done (secret_requests r)
