-- ===== src/Provider/Operations.antt =====
-- The methods of `MackerelProvider` in internal/provider/mackerel.go.
use mackerel_operator.Prelude.{List, [], ◌∷◌, Text}
use mackerel_operator.Prelude.Outcome.{ok, err}
use mackerel_operator.Monitor.{DesiredExternalMonitor, ActualExternalMonitor}
use mackerel_operator.Provider.Result.{unexpected_monitor_type, Result, map_mackerel_error}
use mackerel_operator.Provider.Client.{
  Float64, MonitorExternalHttp, ClientMonitor, external, other_monitor, Reply, replied, failed,
}
use mackerel_operator.Provider.Convert.{
  actual_external_monitor_from_mackerel, merge_mackerel_external_monitor,
  new_mackerel_external_monitor,
}
use mackerel_operator.Program.{
  Program, done, ask, ◌>>=◌, get_monitor, find_monitors, create_monitor, update_monitor,
  delete_monitor,
}

module _ (fl : Float64) where
  open fl use {F}

  unfoldable pub external_monitor_from_mackerel : ClientMonitor F → Result ActualExternalMonitor
  external_monitor_from_mackerel (external m) = ok (actual_external_monitor_from_mackerel fl m)
  external_monitor_from_mackerel (other_monitor kind) = err (unexpected_monitor_type kind)

  -- An answer of the client, as the provider returns it.
  unfoldable pub reply_result : Reply (ClientMonitor F) → Result ActualExternalMonitor
  unfolding external_monitor_from_mackerel
  reply_result (replied m) = external_monitor_from_mackerel m
  reply_result (failed e) = err (map_mackerel_error e)

  unfoldable pub get_external_monitor : Text → Program F (Result ActualExternalMonitor)
  get_external_monitor id = do r ← ask (get_monitor id); done (reply_result r)

  -- Monitors of another type are passed over.
  unfoldable pub external_monitors : List (ClientMonitor F) → List ActualExternalMonitor
  external_monitors [] = []
  external_monitors (external m ∷ ms) =
      actual_external_monitor_from_mackerel fl m ∷ external_monitors ms
  external_monitors (other_monitor kind ∷ ms) = external_monitors ms

  unfoldable pub list_result : Reply (List (ClientMonitor F)) → Result (List ActualExternalMonitor)
  unfolding external_monitors
  list_result (replied ms) = ok (external_monitors ms)
  list_result (failed e) = err (map_mackerel_error e)

  unfoldable pub list_external_monitors : Program F (Result (List ActualExternalMonitor))
  list_external_monitors = do r ← ask find_monitors; done (list_result r)

  unfoldable pub send_created :
      Result (MonitorExternalHttp F) → Program F (Result ActualExternalMonitor)
  send_created (err e) = done (err e)
  send_created (ok payload) = do r ← ask (create_monitor payload); done (reply_result r)

  unfoldable pub create_external_monitor :
      DesiredExternalMonitor → Text → Program F (Result ActualExternalMonitor)
  unfolding send_created
  create_external_monitor desired memo =
      send_created (new_mackerel_external_monitor fl desired memo)

  unfoldable pub send_updated :
      Text → Result (MonitorExternalHttp F) → Program F (Result ActualExternalMonitor)
  send_updated id (err e) = done (err e)
  send_updated id (ok payload) = do r ← ask (update_monitor id payload); done (reply_result r)

  unfoldable pub update_current :
      Text
      → DesiredExternalMonitor
      → Text
      → Reply (ClientMonitor F)
      → Program F (Result ActualExternalMonitor)
  unfolding send_updated
  update_current id desired memo (failed e) = done (err (map_mackerel_error e))
  update_current id desired memo (replied (other_monitor kind)) =
      done (err (unexpected_monitor_type kind))
  update_current id desired memo (replied (external current)) =
      send_updated id (merge_mackerel_external_monitor fl current desired memo)

  unfoldable pub update_external_monitor :
      Text → DesiredExternalMonitor → Text → Program F (Result ActualExternalMonitor)
  unfolding update_current
  update_external_monitor id desired memo = do
    current ← ask (get_monitor id)
    update_current id desired memo current

  unfoldable pub deleted_result : Reply (Unit {0}) → Result (Unit {0})
  deleted_result (replied u) = ok u
  deleted_result (failed e) = err (map_mackerel_error e)

  unfoldable pub delete_external_monitor : Text → Program F (Result (Unit {0}))
  unfolding deleted_result
  delete_external_monitor id = do r ← ask (delete_monitor id); done (deleted_result r)
