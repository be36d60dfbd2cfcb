-- ===== src/Controller/Reconcile/Live.antt =====
-- What the reconciliations of a live, writable resource have in common: what comes before the
-- search for the monitor, and the report of a written one.
use mackerel_operator.Prelude.{
  ◌≡◌, refl, sym, ◌∙◌, ap, subst, true, false, none, some, List, [], ◌∷◌, ◌++◌, Text, Option,
  nat_eq, list_eq,
}
use mackerel_operator.Prelude.Outcome.{ok}
use mackerel_operator.Api.{ExternalMonitor}
use mackerel_operator.Monitor.{DesiredExternalMonitor, ActualExternalMonitor}
use mackerel_operator.Provider.Client.{Reply, MonitorExternalHttp, ClientMonitor, external, replied}
use mackerel_operator.Provider.Convert.{actual_external_monitor_from_mackerel}
use mackerel_operator.Provider.Operations.{reply_result}
use mackerel_operator.Program
use mackerel_operator.Program.{Call, Answer, Program, done, call, ◌>>=◌, got}
use mackerel_operator.Program.Runs.{calls_of, Does, Does-bind}
use mackerel_operator.Status.{mark_ready}
use mackerel_operator.Controller.Settings.{Libraries, ExternalMonitorReconciler, requeue}
use mackerel_operator.Controller.Secrets.{Values, resolve_header_values}
use mackerel_operator.Controller.Secrets.Direct.{Secrets, resolve_header_values-direct}
use mackerel_operator.Controller.Find.{find_actual}
use mackerel_operator.Controller.Patch.{patch_status, status_answered}
use mackerel_operator.Controller.Reconcile.{reconcile, reconcile_resource}
use mackerel_operator.Controller.Reconcile.Deletion.{reconcile_deletion}
use mackerel_operator.Controller.Reconcile.Upsert.{
  requeue_unless, synced, upsert_found, with_finalizer, with_desired, with_values, reconcile_upsert,
}
use mackerel_operator.Controller.Reconcile.Settled.{read_result}
use mackerel_operator.Controller.Reconcile.Convergence.{after_write, IsWritable}

module _ (lib : Libraries) (r : ExternalMonitorReconciler) (cr : ExternalMonitor) (values : Values)
    (d : DesiredExternalMonitor) (answers : (c : Call lib.float64.F) → Answer c) where
  -- What reads of the Secrets of the name space give.
  abbrev pub answered_secrets : Secrets
  answered_secrets name = answers (Program.get_secret cr.namespace name)

  -- The resource as it is reported.
  abbrev pub reported : MonitorExternalHttp lib.float64.F → ExternalMonitor
  reported p = after_write lib r cr answered_secrets values d p (answers Program.now)

  module _ (m : MonitorExternalHttp lib.float64.F)
      (new : lib.status_equal cr.status (reported m).status ≡ false)
      (patched : answers (Program.patch_status cr (reported m).status) ≡ got tt) where
    abbrev new_status : Call lib.float64.F
    new_status = Program.patch_status cr (reported m).status

    abbrev actual : ActualExternalMonitor
    actual = actual_external_monitor_from_mackerel lib.float64 m

    patched-Does : Does answers (new_status ∷ []) none (patch_status lib cr (reported m))
    unfolding patch_status
    patched-Does = rw new (ap status_answered patched, refl)

    synced-Does :
        Does answers (Program.now ∷ new_status ∷ []) requeue (synced lib cr d true (ok actual))
    unfolding synced mark_ready
    synced-Does =
        Does-bind answers (mark_ready lib.conditions cr (read_result d actual true))
          (λ marked. patch_status lib cr marked >>= (λ failed. done (requeue_unless lib failed)))
          (refl, refl)
          (Does-bind answers (patch_status lib cr (reported m))
            (λ failed. done (requeue_unless lib failed)) patched-Does (refl, refl))

    -- The report, where the write was answered with the monitor.
    pub answered-Does :
        (answer : Reply (ClientMonitor lib.float64.F))
        → answer ≡ replied (external m)
        → Does answers
            (Program.now ∷ new_status ∷ [])
            requeue
            (synced lib cr d true (reply_result lib.float64 answer))
    unfolding reply_result
    answered-Does answer e =
        subst
          (λ x.
            Does answers (Program.now ∷ new_status ∷ []) requeue
              (synced lib cr d true (reply_result lib.float64 x)))
          (sym e) synced-Does

  module _ (w : IsWritable lib r cr answered_secrets values d) (later : List (Call lib.float64.F))
      (found : Option ActualExternalMonitor) (search : List (Call lib.float64.F))
      (find-Does : Does answers search (ok found) (find_actual lib.float64 cr.status.monitor_id d))
      (upsert-Does : Does answers later requeue (upsert_found lib cr d (ok found))) where
    desired-Does : Does answers (search ++ later) requeue (with_desired lib cr (ok d))
    unfolding with_desired with_finalizer
    desired-Does = rw w.finalizer (
        Does-bind answers (find_actual lib.float64 cr.status.monitor_id d) (upsert_found lib cr d)
          find-Does upsert-Does)

    values-Does : Does answers (search ++ later) requeue (with_values lib r cr (ok values))
    unfolding with_values
    values-Does = rw w.desired desired-Does

    -- What a reconciliation calls once it has read the resource.
    abbrev reads_and_later : List (Call lib.float64.F)
    reads_and_later = calls_of answers (resolve_header_values cr) ++ (search ++ later)

    all-Does : Does answers reads_and_later requeue (reconcile_upsert lib r cr)
    unfolding reconcile_upsert
    all-Does =
        Does-bind answers (resolve_header_values cr) (with_values lib r cr)
          ((resolve_header_values-direct lib.float64.F answers cr).0 ∙ w.resolved, refl) values-Does

    resource-Does : Does answers reads_and_later requeue (reconcile_resource lib r (got cr))
    unfolding reconcile_resource
    resource-Does =
        subst
          (λ o.
            Does answers reads_and_later requeue
              (elim o [ some t ↦ reconcile_deletion lib r cr | none ↦ reconcile_upsert lib r cr ]))
          (sym w.live) all-Does

    pub reconcile-Does :
        (namespace name : Text)
        → answers (Program.get_resource namespace name) ≡ got cr
        → Does answers
            (Program.get_resource namespace name ∷ reads_and_later)
            requeue
            (reconcile lib r namespace name)
    unfolding reconcile
    reconcile-Does namespace name e =
        let (result, calls) =
          subst (λ x. Does answers reads_and_later requeue (reconcile_resource lib r x)) (sym e)
            resource-Does in
        simp w.provider (result, ap (◌∷◌ (Program.get_resource namespace name)) calls)
