-- ===== src/Controller/Find/Known.antt =====
-- `findActual` where the identifier in the status is that of a monitor.
use mackerel_operator.Prelude.{
  ◌≡◌, ◌≢◌, refl, sym, ap, subst, some, [], ◌∷◌, Text, ◌==◌, ==_iff, nat_eq, list_eq, Bool-cases,
  inl, inr,
}
use mackerel_operator.Prelude.Outcome.{ok}
use mackerel_operator.Monitor.{DesiredExternalMonitor, ActualExternalMonitor}
use mackerel_operator.Provider.Client.{Float64, MonitorExternalHttp, external, replied}
use mackerel_operator.Provider.Convert.{actual_external_monitor_from_mackerel}
use mackerel_operator.Provider.Operations.{
  get_external_monitor, reply_result, external_monitor_from_mackerel,
}
use mackerel_operator.Program
use mackerel_operator.Program.{Call, Answer}
use mackerel_operator.Program.Runs.{Does}
use mackerel_operator.Controller.Find.{find_otherwise, find_actual}

module _ (fl : Float64) (answers : (c : Call fl.F) → Answer c) (id : Text)
    (d : DesiredExternalMonitor) (p : MonitorExternalHttp fl.F) (known : id ≢ [])
    (read : answers (Program.get_monitor id) ≡ replied (external p)) where
  abbrev actual : ActualExternalMonitor
  actual = actual_external_monitor_from_mackerel fl p

  otherwise-Does :
      Does answers []
        (ok (some actual))
        (find_otherwise fl d (reply_result fl (answers (Program.get_monitor id))))
  unfolding find_otherwise reply_result external_monitor_from_mackerel
  otherwise-Does =
      subst (λ x. Does answers [] (ok (some actual)) (find_otherwise fl d (reply_result fl x)))
        (sym read) (refl, refl)

  -- It is read, and found.
  pub find_actual-Does :
      Does answers (Program.get_monitor id ∷ []) (ok (some actual)) (find_actual fl id d)
  unfolding find_actual get_external_monitor
  find_actual-Does = elim (Bool-cases (id == [])) [
    | inl empty ↦ absurd (known ((==_iff id []).0 empty))
    | inr named ↦ rw named (otherwise-Does.0, ap (◌∷◌ (Program.get_monitor id)) otherwise-Does.1)
  ]
