-- ===== src/Controller/Find.antt =====
-- `findActual` of internal/controller/externalmonitor_controller.go.
pub mod Laws
pub mod Known
use mackerel_operator.Prelude.{
  Bool, false, ◌&&◌, not, Option, none, some, List, [], ◌∷◌, Text, ◌==◌, nat_eq, list_eq,
  if◌then◌else◌,
}
use mackerel_operator.Prelude.Outcome.{ok, err}
use mackerel_operator.Monitor.{DesiredExternalMonitor, ActualExternalMonitor}
use mackerel_operator.Ownership.Marker.{Marker, parse_marker}
use mackerel_operator.Provider.Result.{is_sentinel, err_not_found}
use mackerel_operator.Provider.Result as Provider
use mackerel_operator.Provider.Client.{Float64}
use mackerel_operator.Provider.Operations.{get_external_monitor, list_external_monitors}
use mackerel_operator.Program.{Program, done, ◌>>=◌}
use mackerel_operator.Controller.Settings.{Result, ambiguous_external_monitor, provider_error}

-- Whether a marker, if there is one, names the owner and the resource.
unfoldable pub marks : DesiredExternalMonitor → Option Marker → Bool
marks desired none = false
marks desired (some marker) = marker.owner == desired.owner && marker.resource == desired.resource

-- The loop over the monitors, with `nameMatch`.
unfoldable pub scan_actuals :
    DesiredExternalMonitor
    → List ActualExternalMonitor
    → Option ActualExternalMonitor
    → Result (Option ActualExternalMonitor)
unfolding marks
scan_actuals desired [] name_match = ok name_match
scan_actuals desired (a ∷ actuals) name_match =
    let pass = scan_actuals desired actuals name_match in
    let take_name = scan_actuals desired actuals (some a) in
    if marks desired (parse_marker a.memo)
    then ok (some a)
    else if not (a.name == desired.name)
    then pass
    else elim name_match [ some m ↦ err ambiguous_external_monitor | none ↦ take_name ]

unfoldable pub scan_listed :
    DesiredExternalMonitor
    → Provider.Result (List ActualExternalMonitor)
    → Result (Option ActualExternalMonitor)
unfolding scan_actuals
scan_listed desired (err e) = err (provider_error e)
scan_listed desired (ok actuals) = scan_actuals desired actuals none

module _ (fl : Float64) where
  open fl use {F}

  unfoldable pub find_listed :
      DesiredExternalMonitor → Program F (Result (Option ActualExternalMonitor))
  unfolding scan_listed
  find_listed desired = do listed ← list_external_monitors fl; done (scan_listed desired listed)

  -- The result of the read by identifier decides whether the list is searched.
  unfoldable pub find_otherwise :
      DesiredExternalMonitor
      → Provider.Result ActualExternalMonitor
      → Program F (Result (Option ActualExternalMonitor))
  unfolding find_listed
  find_otherwise desired (ok actual) = done (ok (some actual))
  find_otherwise desired (err e) =
      if not (is_sentinel err_not_found e)
      then done (err (provider_error e))
      else find_listed desired

  unfoldable pub find_actual :
      Text → DesiredExternalMonitor → Program F (Result (Option ActualExternalMonitor))
  unfolding find_otherwise
  find_actual monitor_id desired =
      if not (monitor_id == [])
      then (do actual ← get_external_monitor fl monitor_id; find_otherwise desired actual)
      else find_listed desired
