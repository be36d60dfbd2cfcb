-- ===== src/Controller/Watch/Setup.antt =====
-- `SetupWithManager` of internal/controller/externalmonitor_controller.go.
use mackerel_operator.Prelude.{Bool, not, Option, none, some, List, Text, codes}
use mackerel_operator.Prelude.Outcome.{Outcome, ok, err, ◌>>=◌}
use mackerel_operator.Api.{ExternalMonitor}
use mackerel_operator.Controller.Settings.{ExternalMonitorReconciler}
use mackerel_operator.Controller.Secrets.{secret_names_for_external_monitor}

abbrev pub secret_ref_index_key : Text
secret_ref_index_key = codes ".spec.headers.valueFrom.secretKeyRef.name"

-- What the builder is given: the name, and whether the metadata of Secrets is watched, with
-- `externalMonitorsForSecret` for its events.
pub record Builder : Type 0 where
  pub named : Text
  pub watches_secrets : Bool

-- The manager: the errors of `IndexField` and of the builder's `Complete`.
pub record Manager : Type 0 where
  pub index_field : Text → (ExternalMonitor → List Text) → Option Text
  pub complete : Builder → Option Text

pub data SetupError : Type 0 where
  index_error : Text → SetupError
  complete_error : Text → SetupError

-- What is registered: the index, and the controller.
pub record Registered : Type 0 where
  pub index_key : Text
  pub index : ExternalMonitor → List Text
  pub builder : Builder

unfoldable pub builder_of : ExternalMonitorReconciler → Builder
builder_of r = record {
  named = codes "externalmonitor";
  watches_secrets = not r.disable_secret_watch;
}

-- The error of a call of the manager, returned.
unfoldable pub unless_failed : (Text → SetupError) → Option Text → Outcome SetupError (Unit {0})
unless_failed wrap none = ok tt
unless_failed wrap (some e) = err (wrap e)

unfoldable pub setup_with_manager :
    ExternalMonitorReconciler → Manager → Outcome SetupError Registered
unfolding builder_of unless_failed
setup_with_manager r m = do
  indexed ←
      unless_failed index_error
        (m.index_field secret_ref_index_key secret_names_for_external_monitor)
  completed ← unless_failed complete_error (m.complete (builder_of r))
  ok (record {
    index_key = secret_ref_index_key;
    index = secret_names_for_external_monitor;
    builder = builder_of r;
  })
