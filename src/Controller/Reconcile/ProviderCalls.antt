-- ===== src/Controller/Reconcile/ProviderCalls.antt =====
-- Which calls the provider's methods and `findActual` make.
use mackerel_operator.Prelude.{[], Text, Bool-cases, inl, inr, ◌==◌, nat_eq, list_eq}
use mackerel_operator.Prelude.Outcome.{ok, err}
use mackerel_operator.Monitor.{DesiredExternalMonitor, ActualExternalMonitor}
use mackerel_operator.Provider.Client.{
  Float64, MonitorExternalHttp, ClientMonitor, Reply, replied, failed, external, other_monitor,
}
use mackerel_operator.Provider.Convert.{
  merge_mackerel_external_monitor, new_mackerel_external_monitor,
}
use mackerel_operator.Provider.Operations.{
  get_external_monitor, list_external_monitors, create_external_monitor, send_created,
  update_external_monitor, update_current, send_updated, delete_external_monitor,
}
use mackerel_operator.Provider.Result.{is_sentinel, err_not_found}
use mackerel_operator.Provider.Result as Provider
use mackerel_operator.Program
use mackerel_operator.Program.{Call, Program, done, call, ask, ◌>>=◌}
use mackerel_operator.Controller.Find.{find_actual, find_listed, find_otherwise}
use mackerel_operator.Controller.Reconcile.Calls.{Routine, Calls}

module _ (fl : Float64) {allowed : Call fl.F → Type 0} (ro : Routine allowed) where
  find_listed-Calls : (d : DesiredExternalMonitor) → Calls ro (find_listed fl d)
  unfolding find_listed list_external_monitors
  find_listed-Calls d = (ro.find_monitors, λ r. tt)

  find_otherwise-Calls :
      (d : DesiredExternalMonitor) (r : Provider.Result ActualExternalMonitor)
      → Calls ro (find_otherwise fl d r)
  unfolding find_otherwise
  find_otherwise-Calls d (ok a) = tt
  find_otherwise-Calls d (err e) = elim (Bool-cases (is_sentinel err_not_found e)) [
    | inl gone ↦ rw gone (find_listed-Calls d)
    | inr there ↦ rw there tt
  ]

  pub find_actual-Calls : (id : Text) (d : DesiredExternalMonitor) → Calls ro (find_actual fl id d)
  unfolding find_actual get_external_monitor
  find_actual-Calls id d = elim (Bool-cases (id == [])) [
    | inl unknown ↦ rw unknown (find_listed-Calls d)
    | inr known ↦ rw known (ro.get_monitor id, λ r. find_otherwise-Calls d _)
  ]

  pub create-Calls :
      ((p : MonitorExternalHttp fl.F) → allowed (Program.create_monitor p))
      → (d : DesiredExternalMonitor) (memo : Text) → Calls ro (create_external_monitor fl d memo)
  unfolding create_external_monitor
  create-Calls may d memo = sent (new_mackerel_external_monitor fl d memo)
    where
      sent : (p : Provider.Result (MonitorExternalHttp fl.F)) → Calls ro (send_created fl p)
      sent (ok p) = (may p, λ r. tt)
      sent (err e) = tt

  -- An update writes the monitor that it is called for, and no other.
  pub update-Calls :
      (id : Text)
      → ((p : MonitorExternalHttp fl.F) → allowed (Program.update_monitor id p))
      → (d : DesiredExternalMonitor) (memo : Text) → Calls ro (update_external_monitor fl id d memo)
  unfolding update_external_monitor
  update-Calls id may d memo = (ro.get_monitor id, answered)
    where
      sent : (p : Provider.Result (MonitorExternalHttp fl.F)) → Calls ro (send_updated fl id p)
      sent (ok p) = (may p, λ r. tt)
      sent (err e) = tt

      answered : (r : Reply (ClientMonitor fl.F)) → Calls ro (update_current fl id d memo r)
      answered (failed e) = tt
      answered (replied (other_monitor kind)) = tt
      answered (replied (external m)) = sent (merge_mackerel_external_monitor fl m d memo)

  pub delete-Calls :
      (id : Text) → allowed (Program.delete_monitor id) → Calls ro (delete_external_monitor fl id)
  unfolding delete_external_monitor
  delete-Calls id may = (may, λ r. tt)
