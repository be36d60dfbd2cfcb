-- ===== src/Controller/Reconcile/Creation.antt =====
-- The reconciliation of a resource that has the finalizer of the operator already, but no monitor.
use mackerel_operator.Prelude.{
  ◌≡◌, ◌≢◌, refl, sym, ◌∙◌, ap, false, none, List, [], ◌∷◌, ◌++◌, Text, All, nat_eq, list_eq,
  Bool-cases, inl, inr,
}
use mackerel_operator.Prelude.Outcome.{ok}
use mackerel_operator.Api.{ExternalMonitor, ExternalMonitorStatus}
use mackerel_operator.Monitor.{DesiredExternalMonitor, ActualExternalMonitor}
use mackerel_operator.Ownership.Marker.{apply_marker}
use mackerel_operator.Planner.{plan}
use mackerel_operator.Provider.Client.{MonitorExternalHttp, ClientMonitor, external, replied}
use mackerel_operator.Provider.Convert.{
  new_base, merge_mackerel_external_monitor, new_mackerel_external_monitor,
  actual_external_monitor_from_mackerel,
}
use mackerel_operator.Provider.Operations.{
  list_external_monitors, external_monitors, list_result, create_external_monitor,
}
use mackerel_operator.Program
use mackerel_operator.Program.{Call, Answer, Program, done, call, ◌>>=◌, got}
use mackerel_operator.Program.Runs.{result_of, calls_of, Does}
use mackerel_operator.Status.{ready_status}
use mackerel_operator.Controller.Settings.{Libraries, ExternalMonitorReconciler, requeue}
use mackerel_operator.Controller.Secrets.{Values, resolve_header_values}
use mackerel_operator.Controller.Find.{scan_listed, find_listed, find_actual}
use mackerel_operator.Controller.Find.Laws.{IsCandidate, scan_actuals-free}
use mackerel_operator.Controller.Reconcile.{reconcile}
use mackerel_operator.Controller.Reconcile.Upsert.{marker_of, perform, upsert_found}
use mackerel_operator.Controller.Reconcile.Live.{
  answered_secrets, reported, answered-Does, reconcile-Does,
}
use mackerel_operator.Provider.Client.{stored}
use mackerel_operator.Controller.Reconcile.Convergence.{IsWritable}

module _ (lib : Libraries) (r : ExternalMonitorReconciler) (cr : ExternalMonitor) (values : Values)
    (d : DesiredExternalMonitor) (answers : (c : Call lib.float64.F) → Answer c) where
  module _ (w : IsWritable lib r cr (answered_secrets lib r cr values d answers) values d)
      (fresh : cr.status.monitor_id ≡ []) (q : MonitorExternalHttp lib.float64.F) (id : Text)
      (named : id ≢ [])
      (sent : merge_mackerel_external_monitor lib.float64
          (new_base lib.float64)
          d
          (apply_marker d.memo (marker_of d))
        ≡ ok q)
      (created : answers (Program.create_monitor q) ≡ replied (external (stored q id)))
      (patched : answers
          (Program.patch_status cr (reported lib r cr values d answers (stored q id)).status)
        ≡ got tt) where
    abbrev monitor : MonitorExternalHttp lib.float64.F
    monitor = stored q id

    abbrev actual : ActualExternalMonitor
    actual = actual_external_monitor_from_mackerel lib.float64 monitor

    abbrev new_status : Call lib.float64.F
    new_status = Program.patch_status cr (reported lib r cr values d answers monitor).status

    identified : (reported lib r cr values d answers monitor).status.monitor_id ≡ id
    unfolding ready_status actual_external_monitor_from_mackerel
    identified = refl

    status_new :
        lib.status_equal cr.status (reported lib r cr values d answers monitor).status ≡ false
    status_new =
        elim (Bool-cases
          (lib.status_equal cr.status (reported lib r cr values d answers monitor).status)) [
            | inl same ↦ absurd (
                named (
                  sym identified
                  ∙ ap (λ (x : ExternalMonitorStatus). x.monitor_id)
                      (sym ((lib.status_equal_iff _ _).0 same))
                  ∙ fresh))
            | inr new ↦ new
          ]

    create-Does :
        Does answers
          (Program.create_monitor q ∷ Program.now ∷ new_status ∷ [])
          requeue
          (upsert_found lib cr d (ok none))
    unfolding upsert_found create_external_monitor new_mackerel_external_monitor plan perform
    create-Does =
        let (result, calls) =
          answered-Does lib r cr values d answers monitor status_new patched
            (answers (Program.create_monitor q)) created in
        rw sent (result, ap (◌∷◌ (Program.create_monitor q)) calls)

    module _ (listed : List (ClientMonitor lib.float64.F))
        (found : answers Program.find_monitors ≡ replied listed)
        (free : All (λ a. ¬ IsCandidate d a) (external_monitors lib.float64 listed)) where
      find-Does :
          Does answers
            (Program.find_monitors ∷ [])
            (ok none)
            (find_actual lib.float64 cr.status.monitor_id d)
      unfolding find_actual find_listed list_external_monitors list_result scan_listed
      find-Does = rw fresh (
        ap (λ x. scan_listed d (list_result lib.float64 x)) found ∙ scan_actuals-free d _ free,
        refl,
      )

      -- Let the API answer the read of the resource with a writable resource, which has the
      -- operator's finalizer already, and whose status names no monitor, the list of monitors with none that is owned or has the desired name, and the
      -- creation of the monitor that is formed from the desired state with this monitor under an
      -- identifier that is not empty, and accept the new status. Then a reconciliation reads the
      -- resource, its Secrets and the list, creates that one monitor, and writes as the status what
      -- `MarkReady` gives for it with the time of the clock; it makes no other call, and asks to
      -- come back.
      pub reconcile-creates :
          (namespace name : Text)
          → answers (Program.get_resource namespace name) ≡ got cr
          → (result_of answers (reconcile lib r namespace name) ≡ requeue)
            × (calls_of answers (reconcile lib r namespace name)
                ≡ Program.get_resource namespace name ∷ calls_of answers (resolve_header_values cr)
                  ++ Program.find_monitors
                    ∷ Program.create_monitor q
                    ∷ Program.now
                    ∷ new_status
                    ∷ [])
      reconcile-creates =
          reconcile-Does lib r cr values d answers w
            (Program.create_monitor q ∷ Program.now ∷ new_status ∷ []) none
            (Program.find_monitors ∷ []) find-Does create-Does
