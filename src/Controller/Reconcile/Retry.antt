-- ===== src/Controller/Reconcile/Retry.antt =====
-- When a resource is reconciled again.
use mackerel_operator.Prelude.{
  ◌≡◌, ◌⊎◌, refl, sym, inl, inr, Bool, true, false, Option, none, some, Text, Bool-cases,
}
use mackerel_operator.Prelude.Outcome.{ok, err}
use mackerel_operator.Api.{ExternalMonitor}
use mackerel_operator.Monitor.{DesiredExternalMonitor, ActualExternalMonitor}
use mackerel_operator.Planner.{
  Action, create, update, noop, restore_marker, ownership_lost, delete, skip_delete,
}
use mackerel_operator.Provider.Result as Provider
use mackerel_operator.Provider.Result.{is_sentinel, err_rate_limited}
use mackerel_operator.Provider.Operations.{create_external_monitor, update_external_monitor}
use mackerel_operator.Program.{Call, Answer, Program, done, call, ◌>>=◌}
use mackerel_operator.Program.Runs.{
  Ensures, Ensures-bind, EnsuresIf, EnsuresIf-bind, EnsuresIf-weaken,
}
use mackerel_operator.Source.{from_external_monitor}
use mackerel_operator.Status.{mark_ready}
use mackerel_operator.Controller.Settings.{
  Libraries, Result, ReconcileError, Reconciled, ExternalMonitorReconciler, external_monitor_source,
  external_monitor_finalizer,
}
use mackerel_operator.Controller.Secrets.{Values, resolve_header_values, is_unresolvable_secret_ref}
use mackerel_operator.Controller.Secrets.Once.{OnlySecrets}
use mackerel_operator.Controller.Secrets.Direct.{
  Secrets, direct_values, Holds, resolve_header_values-Gives,
}
use mackerel_operator.Controller.Reconcile.Accepted.{IsAcceptable, accepted}
use mackerel_operator.Controller.Find.{find_actual}
use mackerel_operator.Controller.Patch.{Patched, patch_status, add_finalizer}
use mackerel_operator.Controller.Reconcile.Upsert.{
  report_error, blocked, synced, rate_limited_or_failed, requeue_unless, write_marked, perform,
  upsert_planned, upsert_found, with_finalizer, with_desired, with_values, reconcile_upsert,
}

-- The reconciliation asks to be run again after the interval, or it returns an error, at which
-- controller-runtime runs it again.
abbrev pub ComesBack : Reconciled → Type 0
ComesBack x = (x.requeue_after ≡ true) ⊎ ((e : ReconcileError) × (x.error ≡ some e))

any_run : {F A : Type 0} (m : Program F A) → Ensures (λ (c : Call F). Unit {0}) (λ _. Unit {0}) m
any_run (done a) = tt
any_run (call c k) = (tt, λ r. any_run (k r))

-- What holds of all runs, holds of those with expected answers.
always :
    {F A : Type 0} (expected : (c : Call F) → Answer c → Type 0) (post : A → Type 0)
    (m : Program F A)
    → Ensures (λ c. Unit {0}) post m
    → EnsuresIf expected (λ c. Unit {0}) post m
always expected post (done a) h = h
always expected post (call c k) (_, h) = (tt, λ r x. always expected post (k r) (h r))

module _ {F : Type 0} where
  -- Every run ends with a result that comes back.
  abbrev pub Returns : Program F Reconciled → Type 0
  Returns = Ensures (λ c. Unit {0}) ComesBack

  after :
      {A : Type 0} (m : Program F A) (f : A → Program F Reconciled)
      → ((a : A) → Returns (f a))
      → Returns (m >>= f)
  after m f h = Ensures-bind (λ c. Unit {0}) (λ a. Unit {0}) ComesBack m f (any_run m) (λ a u. h a)

module _ (lib : Libraries) where
  unless-ComesBack : (o : Option ReconcileError) → ComesBack (requeue_unless lib o)
  unless-ComesBack none = inl refl
  unless-ComesBack (some e) = inr (e, refl)

  limited-ComesBack :
      (e : Provider.Error) (o : Option ReconcileError) → ComesBack (rate_limited_or_failed lib e o)
  unfolding rate_limited_or_failed
  limited-ComesBack e (some failed) = inr (_, refl)
  limited-ComesBack e none = elim (Bool-cases (is_sentinel err_rate_limited e)) [
    | inl limited ↦ rw limited (inl refl)
    | inr other ↦ rw other (inr (_, refl))
  ]

module _ (lib : Libraries) (cr : ExternalMonitor) where
  report-Returns : (reason : Text) (e : ReconcileError) → Returns (report_error lib cr reason e)
  unfolding report_error
  report-Returns reason e = after (patch_status lib cr _) _ (λ failed. inr (_, refl))

  blocked-Returns : (e : ReconcileError) → Returns (blocked lib cr e)
  unfolding blocked
  blocked-Returns e = elim (Bool-cases (is_unresolvable_secret_ref e)) [
    | inl waiting ↦ rw waiting (after (patch_status lib cr _) _ (λ failed. inl refl))
    | inr failing ↦ rw failing (report-Returns _ e)
  ]

  synced-Returns :
      (d : DesiredExternalMonitor) (applied : Bool) (r : Provider.Result ActualExternalMonitor)
      → Returns (synced lib cr d applied r)
  unfolding synced
  synced-Returns d applied (err e) = after (patch_status lib cr _) _ (limited-ComesBack lib e)
  synced-Returns d applied (ok a) =
      after (mark_ready lib.conditions cr _) _
        (λ marked. after (patch_status lib cr marked) _ (unless-ComesBack lib))

  write-Returns :
      (d : DesiredExternalMonitor) (a : ActualExternalMonitor) → Returns (write_marked lib cr d a)
  unfolding write_marked
  write-Returns d a = after (update_external_monitor lib.float64 a.id d _) _ (synced-Returns d true)

  perform-Returns :
      (d : DesiredExternalMonitor) (actual : Option ActualExternalMonitor) (x : Action)
      (reason : Text)
      → Returns (perform lib cr d actual x reason)
  unfolding perform
  perform-Returns d actual create reason =
      after (create_external_monitor lib.float64 d _) _ (synced-Returns d true)
  perform-Returns d none update reason = inr (_, refl)
  perform-Returns d (some a) update reason = write-Returns d a
  perform-Returns d none restore_marker reason = inr (_, refl)
  perform-Returns d (some a) restore_marker reason = write-Returns d a
  perform-Returns d none noop reason = inr (_, refl)
  perform-Returns d (some a) noop reason = synced-Returns d false (ok a)
  perform-Returns d actual ownership_lost reason =
      after (patch_status lib cr _) _ (unless-ComesBack lib)
  perform-Returns d actual delete reason = inr (_, refl)
  perform-Returns d actual skip_delete reason = inr (_, refl)

  found-Returns :
      (d : DesiredExternalMonitor) (f : Result (Option ActualExternalMonitor))
      → Returns (upsert_found lib cr d f)
  unfolding upsert_found upsert_planned
  found-Returns d (err e) = report-Returns _ e
  found-Returns d (ok actual) = perform-Returns d actual _ _

module _ (lib : Libraries) where
  patched-Returns : (d : DesiredExternalMonitor) (p : Patched) → Returns (with_finalizer lib d p)
  unfolding with_finalizer
  patched-Returns d (err e) = inr (_, refl)
  patched-Returns d (ok cr) =
      after (find_actual lib.float64 cr.status.monitor_id d) _ (found-Returns lib cr d)

  desired-Returns :
      (cr : ExternalMonitor) (d : DesiredExternalMonitor) → Returns (with_desired lib cr (ok d))
  unfolding with_desired
  desired-Returns cr d =
      elim (Bool-cases (lib.finalizers.contains cr.finalizers external_monitor_finalizer)) [
        | inl held ↦ rw held (patched-Returns d (ok cr))
        | inr lacking ↦ rw lacking (after (add_finalizer lib cr) _ (patched-Returns d))
      ]

  valued-Returns :
      (r : ExternalMonitorReconciler) (cr : ExternalMonitor) (values : Values)
      (d : DesiredExternalMonitor)
      → from_external_monitor lib.digest (external_monitor_source r values) (some cr) ≡ ok d
      → Returns (with_values lib r cr (ok values))
  unfolding with_values
  valued-Returns r cr values d e = rw e (desired-Returns cr d)

  module _ (r : ExternalMonitorReconciler) (cr : ExternalMonitor)
      (fit : IsAcceptable lib r cr) where
    -- A resource that is to have a monitor is never dropped. Let its headers have a value or a
    -- reference each, let desired states be encodable, and let the hash length be from 1 to 64. As
    -- long as the reads of its Secrets are answered with what they hold, every run of its
    -- reconciliation asks to be run again or returns an error, whatever else the APIs answer.
    pub reconcile_upsert-ComesBack :
        (secrets : Secrets)
        → EnsuresIf
            (Holds cr.namespace secrets)
            (λ c. Unit {0})
            ComesBack
            (reconcile_upsert lib r cr)
    unfolding reconcile_upsert
    reconcile_upsert-ComesBack secrets =
        EnsuresIf-bind (Holds cr.namespace secrets) (λ c. Unit {0})
          (λ v. v ≡ direct_values secrets cr.spec.headers) ComesBack (resolve_header_values cr) _
          (EnsuresIf-weaken (Holds cr.namespace secrets) (Holds cr.namespace secrets)
            (OnlySecrets cr.namespace) (λ c. Unit {0}) _ (λ c x h. h) (λ c h. tt)
            (resolve_header_values cr) (resolve_header_values-Gives lib.float64.F secrets cr))
          (λ v e.
            always (Holds cr.namespace secrets) ComesBack (with_values lib r cr v)
              (valued v secrets (sym e)))
      where
        valued :
            (v : Result Values) (secrets : Secrets)
            → direct_values secrets cr.spec.headers ≡ v
            → Returns (with_values lib r cr v)
        valued (err x) secrets e = unfold with_values in blocked-Returns lib cr x
        valued (ok values) secrets e =
            let (d, made) = accepted lib r cr fit secrets values e in
            valued-Returns r cr values d made
