-- ===== src/Refinement/Upsert.antt =====
-- What the write that the planner decides for does to the monitors.
use mathlib.Core.Option.{some-injective}
use mackerel_operator.Prelude.{
  ◌≡◌, refl, sym, subst, ◌∙◌, ap, inl, inr, true, false, Option, none, some, Text,
}
use mackerel_operator.Prelude.Outcome.{ok}
use mackerel_operator.Api.{ExternalMonitor}
use mackerel_operator.Monitor.{DesiredExternalMonitor, ActualExternalMonitor}
use mackerel_operator.Ownership.Marker.{parse_marker, apply_marker}
use mackerel_operator.Planner.{Action}
use mackerel_operator.Planner.Decisions.{
  IsOwned, Planned, missing, adopted, unmarked, foreign, in_sync, drifted, plan-Planned,
}
use mackerel_operator.Provider.Client.{MonitorExternalHttp, stored}
use mackerel_operator.Provider.Convert.{actual_external_monitor_from_mackerel}
use mackerel_operator.Program.{Program}
use mackerel_operator.Service.{Store, Answered}
use mackerel_operator.Service.Leads.{Leads, Leads-bind, Silent, Silent-keeps}
use mackerel_operator.Controller.Settings.{Libraries, Reconciled}
use mackerel_operator.Controller.Patch.{patch_status}
use mackerel_operator.Controller.Reconcile.Upsert.{
  marker_of, synced, write_marked, perform, upsert_planned, upsert_found,
}
use mackerel_operator.Controller.Reconcile.Calls.{Routine, Calls, Calls-bind, patch_status-Calls}
use mackerel_operator.Controller.Reconcile.Writes.{Adoptable, synced-Calls}
use mackerel_operator.Refinement.{IsMarked, MayTake, Step, kept, added, rewritten}
use mackerel_operator.Refinement.Writes.{Carries, Created, Updated, create-Leads, update-Leads}
use mackerel_operator.Refinement.Find.{Stands}

pub Silent-Routine : {F : Type 0} → Routine {F = F} Silent
Silent-Routine = record {
  get_monitor = λ id. tt;
  find_monitors = tt;
  reread = λ ns name. tt;
  secret = λ ns name. tt;
  status = λ cr s. tt;
  finalizers = λ cr l. tt;
  now = tt;
}

pub IsMarked-marker_of :
    (d : DesiredExternalMonitor) (old new : Text)
    → new ≡ apply_marker old (marker_of d)
    → IsMarked d.owner d.resource old new
IsMarked-marker_of d old new e = record {
  marker = marker_of d;
  same_owner = refl;
  same_resource = refl;
  memo = e;
}

module _ (lib : Libraries) (d : DesiredExternalMonitor) (policy : Text) where
  open lib.float64 use {F}

  abbrev pub Stepped : {A : Type 0} → Store F → A → Store F → Type 0
  Stepped v _ w = Step d.owner d.resource policy v w

  Created-Step :
      (v w : Store F)
      → Created lib.float64 d (apply_marker d.memo (marker_of d)) v w
      → Step d.owner d.resource policy v w
  Created-Step v w (inl same) = kept same
  Created-Step v w (inr (id, p, free, c, now)) =
      added id d.memo (stored p id) free refl (IsMarked-marker_of d _ _ c.memo) now

  module _ (v : Store F) (a : ActualExternalMonitor) (s : Stands lib.float64 v a) where
    -- The monitor that is written over is the one that was found.
    found_again :
        (old : MonitorExternalHttp F)
        → v a.id ≡ some old
        → a ≡ actual_external_monitor_from_mackerel lib.float64 old
    found_again old e =
        s.view
        ∙ ap (actual_external_monitor_from_mackerel lib.float64)
            (some-injective _ _ (sym s.there ∙ e))

    Adoptable-MayTake :
        (old p : MonitorExternalHttp F)
        → a ≡ actual_external_monitor_from_mackerel lib.float64 old
        → Carries lib.float64 d (apply_marker a.memo (marker_of d)) p
        → Adoptable d a
        → MayTake d.owner d.resource old (stored p a.id)
    unfolding actual_external_monitor_from_mackerel
    Adoptable-MayTake old p e c (inr owned) =
        inl (subst (λ x. IsOwned d.owner d.resource x.memo) e owned)
    Adoptable-MayTake old p e c (inl (bare, m)) = inr (
      subst (λ (x : ActualExternalMonitor). parse_marker x.memo ≡ none) e bare,
      record {
        name = c.name ∙ m.name ∙ ap (λ x. x.name) e;
        service = c.service ∙ m.service ∙ ap (λ x. x.service) e;
        url = c.url ∙ m.url ∙ ap (λ x. x.url) e;
        method = c.method ∙ m.method ∙ ap (λ x. x.method) e;
      },
    )

    Updated-Step :
        (w : Store F)
        → Adoptable d a
        → Updated lib.float64 d (apply_marker a.memo (marker_of d)) a.id v w
        → Step d.owner d.resource policy v w
    unfolding actual_external_monitor_from_mackerel
    Updated-Step w may (inl same) = kept same
    Updated-Step w may (inr (old, p, there, c, now)) =
        let e = found_again old there in
        rewritten a.id old (stored p a.id) there refl (Adoptable-MayTake old p e c may)
          (IsMarked-marker_of d old.memo p.memo
            (c.memo ∙ ap (λ (x : ActualExternalMonitor). apply_marker x.memo (marker_of d)) e))
          now

  module _ (v : Store F) where
    -- A part that writes no monitor is no step, or belongs to the one taken before it.
    pub quiet : (m : Program F Reconciled) → Calls Silent-Routine m → Leads Answered (Stepped v) m v
    quiet m h = Silent-keeps Answered (λ v u c r h. h) (Stepped v) m v h (λ _. kept refl)

    write-Leads :
        (cr : ExternalMonitor) (a : ActualExternalMonitor)
        → Stands lib.float64 v a
        → Adoptable d a
        → Leads Answered (Stepped v) (write_marked lib cr d a) v
    unfolding write_marked
    write-Leads cr a s may =
        Leads-bind Answered
          (λ _ w. Updated lib.float64 d (apply_marker a.memo (marker_of d)) a.id v w) (Stepped v) _
          _ v (update-Leads lib.float64 d _ a.id v)
          (λ r u made.
            Silent-keeps Answered (λ v u c r h. h) (Stepped v) (synced lib cr d true r) u
              (synced-Calls lib Silent-Routine cr d true r) (λ _. Updated-Step v a s u may made))

    perform-Leads :
        (cr : ExternalMonitor) (reason : Text) (actual : Option ActualExternalMonitor) (x : Action)
        → ((a : ActualExternalMonitor) → actual ≡ some a → Stands lib.float64 v a)
        → Planned d actual x
        → Leads Answered (Stepped v) (perform lib cr d actual x reason) v
    unfolding perform
    perform-Leads cr reason actual x stands missing =
        Leads-bind Answered (λ _ w. Created lib.float64 d (apply_marker d.memo (marker_of d)) v w)
          (Stepped v) _ _ v (create-Leads lib.float64 d _ v)
          (λ r u made.
            Silent-keeps Answered (λ v u c r h. h) (Stepped v) (synced lib cr d true r) u
              (synced-Calls lib Silent-Routine cr d true r) (λ _. Created-Step v u made))
    perform-Leads cr reason actual x stands (adopted a e m) =
        write-Leads cr a (stands a refl) (inl (e, m))
    perform-Leads cr reason actual x stands (unmarked a e n) = quiet _ (
        Calls-bind Silent-Routine (patch_status lib cr _) _
          (patch_status-Calls Silent-Routine lib cr _) (λ failed. tt))
    perform-Leads cr reason actual x stands (foreign a f) = quiet _ (
        Calls-bind Silent-Routine (patch_status lib cr _) _
          (patch_status-Calls Silent-Routine lib cr _) (λ failed. tt))
    perform-Leads cr reason actual x stands (in_sync a o e m) =
        quiet _ (synced-Calls lib Silent-Routine cr d false (ok a))
    perform-Leads cr reason actual x stands (drifted a o e) =
        write-Leads cr a (stands a refl) (inr o)

    pub upsert_found-Leads :
        (cr : ExternalMonitor) (actual : Option ActualExternalMonitor)
        → ((a : ActualExternalMonitor) → actual ≡ some a → Stands lib.float64 v a)
        → Leads Answered (Stepped v) (upsert_found lib cr d (ok actual)) v
    unfolding upsert_found upsert_planned
    upsert_found-Leads cr actual stands = perform-Leads cr _ actual _ stands (plan-Planned d actual)
