-- ===== src/Controller/Reconcile/Renewal.antt =====
-- The reconciliation that repairs the monitor of a resource.
use mackerel_operator.Prelude.{
  ◌≡◌, ◌≢◌, ◌⊎◌, sym, ap, subst, true, false, some, List, [], ◌∷◌, ◌++◌, Text, nat_eq, list_eq,
  Bool-cases, inl, inr,
}
use mackerel_operator.Prelude.Outcome.{ok}
use mackerel_operator.Api.{ExternalMonitor, ExternalMonitorStatus}
use mackerel_operator.Monitor.{DesiredExternalMonitor, ActualExternalMonitor}
use mackerel_operator.Ownership.Marker.{apply_marker}
use mackerel_operator.Planner.{Action, Decision, plan, update, restore_marker}
use mackerel_operator.Provider.Client.{MonitorExternalHttp, external, replied}
use mackerel_operator.Provider.Convert.{
  merge_mackerel_external_monitor, actual_external_monitor_from_mackerel,
}
use mackerel_operator.Provider.Operations.{update_external_monitor, update_current, send_updated}
use mackerel_operator.Program
use mackerel_operator.Program.{Call, Answer, ◌>>=◌, got}
use mackerel_operator.Program.Runs.{result_of, calls_of, Does}
use mackerel_operator.Status.{ready_status}
use mackerel_operator.Controller.Settings.{Libraries, ExternalMonitorReconciler, requeue}
use mackerel_operator.Controller.Secrets.{Values, resolve_header_values}
use mackerel_operator.Controller.Find.{find_actual}
use mackerel_operator.Controller.Find.Known.{find_actual-Does}
use mackerel_operator.Controller.Reconcile.{reconcile}
use mackerel_operator.Controller.Reconcile.Upsert.{
  synced, marker_of, perform, write_marked, upsert_found,
}
use mackerel_operator.Controller.Reconcile.Live.{
  answered_secrets, reported, answered-Does, reconcile-Does,
}
use mackerel_operator.Provider.Client.{stored}
use mackerel_operator.Controller.Reconcile.Convergence.{IsWritable}

module _ (lib : Libraries) (r : ExternalMonitorReconciler) (cr : ExternalMonitor) (values : Values)
    (d : DesiredExternalMonitor) (answers : (c : Call lib.float64.F) → Answer c)
    (w : IsWritable lib r cr (answered_secrets lib r cr values d answers) values d)
    (p q : MonitorExternalHttp lib.float64.F) (named : p.id ≢ [])
    (known : cr.status.monitor_id ≡ p.id)
    (read : answers (Program.get_monitor p.id) ≡ replied (external p)) where
  abbrev actual : ActualExternalMonitor
  actual = actual_external_monitor_from_mackerel lib.float64 p

  abbrev decision : Action
  decision = (plan (record { desired = d; actual = some actual })).action

  abbrev decided : Decision
  decided = plan (record { desired = d; actual = some actual })

  -- The monitor as it is written.
  abbrev monitor : MonitorExternalHttp lib.float64.F
  monitor = stored q p.id

  abbrev new_status : Call lib.float64.F
  new_status = Program.patch_status cr (reported lib r cr values d answers monitor).status

  find-Does :
      Does answers
        (Program.get_monitor p.id ∷ [])
        (ok (some actual))
        (find_actual lib.float64 cr.status.monitor_id d)
  find-Does = rw known (find_actual-Does lib.float64 answers p.id d p named read)

  module _ (planned : (decision ≡ update) ⊎ (decision ≡ restore_marker))
      (sent : merge_mackerel_external_monitor lib.float64 p d (apply_marker p.memo (marker_of d))
        ≡ ok q)
      (updated : answers (Program.update_monitor p.id q) ≡ replied (external monitor))
      (later : cr.status.last_synced_at ≢ some (answers Program.now))
      (patched : answers new_status ≡ got tt) where
    status_new :
        lib.status_equal cr.status (reported lib r cr values d answers monitor).status ≡ false
    unfolding ready_status
    status_new =
        elim (Bool-cases
          (lib.status_equal cr.status (reported lib r cr values d answers monitor).status)) [
            | inl same ↦ absurd (
                later (
                  ap (λ (x : ExternalMonitorStatus). x.last_synced_at)
                    ((lib.status_equal_iff _ _).0 same)))
            | inr new ↦ new
          ]

    abbrev repair : List (Call lib.float64.F)
    repair =
        Program.get_monitor p.id ∷ Program.update_monitor p.id q ∷ Program.now ∷ new_status ∷ []

    current-Does :
        Does answers (Program.update_monitor p.id q ∷ Program.now ∷ new_status ∷ []) requeue (
          update_current lib.float64 p.id d
            (apply_marker p.memo (marker_of d))
            (replied (external p))
          >>= synced lib cr d true)
    unfolding update_current send_updated
    current-Does =
        let (result, calls) =
          answered-Does lib r cr values d answers monitor status_new patched
            (answers (Program.update_monitor p.id q)) updated in
        rw sent (result, ap (◌∷◌ (Program.update_monitor p.id q)) calls)

    -- The monitor is read again, and written over what was read.
    write-Does : Does answers repair requeue (write_marked lib cr d actual)
    unfolding write_marked update_external_monitor actual_external_monitor_from_mackerel
    write-Does =
        let (result, calls) =
          subst
            (λ x.
              Does answers (Program.update_monitor p.id q ∷ Program.now ∷ new_status ∷ []) requeue (
                update_current lib.float64 p.id d (apply_marker p.memo (marker_of d)) x
                >>= synced lib cr d true))
            (sym read) current-Does in
        (result, ap (◌∷◌ (Program.get_monitor p.id)) calls)

    upsert-Does : Does answers repair requeue (upsert_found lib cr d (ok (some actual)))
    unfolding upsert_found perform
    upsert-Does = elim planned [
      | inl updates ↦
          subst (λ a. Does answers repair requeue (perform lib cr d (some actual) a decided.reason))
            (sym updates) write-Does
      | inr restores ↦
          subst (λ a. Does answers repair requeue (perform lib cr d (some actual) a decided.reason))
            (sym restores) write-Does
    ]

    -- Let the API answer the read of the resource with a writable resource, the read of the monitor
    -- that its status names, under an identifier that is not empty, with one that the planner
    -- decides to update or to restore the marker of, and the update of it to what is merged from
    -- the desired state and its marker with that monitor; let it accept the new status, at another
    -- time than that of the last synchronization. Then a reconciliation reads the resource, its
    -- Secrets and the monitor, which it reads again for the update, updates it once, and writes as
    -- the status what `MarkReady` gives for it; it makes no other call, and asks to come back.
    pub reconcile-repairs :
        (namespace name : Text)
        → answers (Program.get_resource namespace name) ≡ got cr
        → (result_of answers (reconcile lib r namespace name) ≡ requeue)
          × (calls_of answers (reconcile lib r namespace name)
              ≡ Program.get_resource namespace name ∷ calls_of answers (resolve_header_values cr)
                ++ Program.get_monitor p.id
                  ∷ Program.get_monitor p.id
                  ∷ Program.update_monitor p.id q
                  ∷ Program.now
                  ∷ Program.patch_status cr
                      (reported lib r cr values d answers (stored q p.id)).status
                  ∷ [])
    reconcile-repairs =
        reconcile-Does lib r cr values d answers w repair (some actual)
          (Program.get_monitor p.id ∷ []) find-Does upsert-Does
