-- ===== src/Refinement/Find.antt =====
-- What `findActual` finds stands in the store.
use mathlib.Core.List.{Memᴰ}
use mathlib.Core.Option.{some-injective}
use mackerel_operator.Prelude.{
  ◌≡◌, refl, sym, subst, ◌∙◌, ap, inl, inr, Option, none, some, List, [], ◌∷◌, Text, All,
  Bool-cases, ◌==◌, nat_eq, list_eq,
}
use mackerel_operator.Prelude.Outcome.{ok, err, ok-injective}
use mackerel_operator.Monitor.{DesiredExternalMonitor, ActualExternalMonitor}
use mackerel_operator.Provider.Client.{
  Float64, MonitorExternalHttp, ClientMonitor, external, other_monitor, Reply, replied, failed,
}
use mackerel_operator.Provider.Convert.{actual_external_monitor_from_mackerel}
use mackerel_operator.Provider.Operations.{
  external_monitor_from_mackerel, reply_result, get_external_monitor, external_monitors,
  list_result, list_external_monitors,
}
use mackerel_operator.Provider.Result.{is_sentinel, err_not_found}
use mackerel_operator.Provider.Result as Provider
use mackerel_operator.Service.{Store, Answered, IsConsistent, Reads, Listed, Lists}
use mackerel_operator.Service.Leads.{Leads}
use mackerel_operator.Controller.Settings.{Result}
use mackerel_operator.Controller.Find.{find_actual, find_otherwise, find_listed, scan_listed}
use mackerel_operator.Controller.Find.Laws.{scan-Found}

module _ (fl : Float64) where
  open fl use {F}

  -- A live monitor is the view of one that stands under its identifier.
  pub record Stands (v : Store F) (a : ActualExternalMonitor) : Type 0 where
    pub monitor : MonitorExternalHttp F
    pub there : v a.id ≡ some monitor
    pub view : a ≡ actual_external_monitor_from_mackerel fl monitor

  pub view-Stands :
      (v : Store F) (m : MonitorExternalHttp F)
      → v m.id ≡ some m
      → Stands v (actual_external_monitor_from_mackerel fl m)
  unfolding actual_external_monitor_from_mackerel
  view-Stands v m e = record { monitor = m; there = e; view = refl }

  Listed-Stands :
      (v : Store F) (ms : List (ClientMonitor F))
      → Listed v ms
      → All (Stands v) (external_monitors fl ms)
  unfolding external_monitors
  Listed-Stands v [] h = tt
  Listed-Stands v (external m ∷ ms) (e, h) = (view-Stands v m e, Listed-Stands v ms h)
  Listed-Stands v (other_monitor kind ∷ ms) h = Listed-Stands v ms h

  All-Mem :
      (v : Store F) {a : ActualExternalMonitor} {l : List ActualExternalMonitor}
      → Memᴰ a l
      → All (Stands v) l
      → Stands v a
  All-Mem v (Memᴰ.head e) (h, _) = subst (Stands v) (sym e) h
  All-Mem v (Memᴰ.tail m) (_, hs) = All-Mem v m hs

  abbrev pub Located : Store F → Result (Option ActualExternalMonitor) → Store F → Type 0
  Located v r w = (w ≡ v) × ((a : ActualExternalMonitor) → r ≡ ok (some a) → Stands v a)

  pub listed-Located :
      (d : DesiredExternalMonitor) (v : Store F) (r : Reply (List (ClientMonitor F)))
      → Lists v r
      → (a : ActualExternalMonitor) → scan_listed d (list_result fl r) ≡ ok (some a)
      → Stands v a
  unfolding scan_listed list_result
  listed-Located d v (failed e) h a found = absurd (cc)
  listed-Located d v (replied ms) h a found = elim (scan-Found d _ none a found) [
    | inl (m, _) ↦ All-Mem v m (Listed-Stands v ms h)
    | inr e ↦ absurd (cc)
  ]

  find_listed-Leads :
      (d : DesiredExternalMonitor) (v : Store F) → Leads Answered (Located v) (find_listed fl d) v
  unfolding find_listed list_external_monitors
  find_listed-Leads d v = λ r u step. (step.0, listed-Located d v r step.1)

  missed-Leads :
      (d : DesiredExternalMonitor) (v : Store F) (e : Provider.Error)
      → Leads Answered (Located v) (find_otherwise fl d (err e)) v
  unfolding find_otherwise
  missed-Leads d v e = elim (Bool-cases (is_sentinel err_not_found e)) [
    | inl gone ↦ rw gone (find_listed-Leads d v)
    | inr there ↦ rw there (refl, λ a found. absurd (cc))
  ]

  module _ (d : DesiredExternalMonitor) (v : Store F) (fit : IsConsistent v) where
    otherwise-Leads :
        (id : Text) (r : Reply (ClientMonitor F))
        → Reads v id r
        → Leads Answered (Located v) (find_otherwise fl d (reply_result fl r)) v
    unfolding find_otherwise reply_result external_monitor_from_mackerel
    otherwise-Leads id (replied (external m)) e =
        let stands = view-Stands v m (ap v (fit id m e) ∙ e) in
        (refl, λ a found. subst (Stands v) (some-injective _ a (ok-injective found)) stands)
    otherwise-Leads id (replied (other_monitor kind)) e =
        missed-Leads d v (Provider.unexpected_monitor_type kind)
    otherwise-Leads id (failed e) _ = missed-Leads d v (Provider.map_mackerel_error e)

    -- A search changes nothing, and what it finds stands in the store.
    pub find_actual-Leads : (id : Text) → Leads Answered (Located v) (find_actual fl id d) v
    unfolding find_actual get_external_monitor
    find_actual-Leads id = elim (Bool-cases (id == [])) [
      | inl unknown ↦ rw unknown (find_listed-Leads d v)
      | inr known ↦ rw known (λ r u step.
          subst (Leads Answered (Located v) (find_otherwise fl d (reply_result fl r))) (sym step.0)
            (otherwise-Leads id r step.1))
    ]
