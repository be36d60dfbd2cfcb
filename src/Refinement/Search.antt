-- ===== src/Refinement/Search.antt =====
-- What a search says of a Mackerel API that tells how things are.
use mathlib.Core.List.{Memᴰ}
use mackerel_operator.Prelude.{
  ◌≡◌, ◌⊎◌, refl, sym, subst, ◌∙◌, ap, inl, inr, Option, none, some, List, [], ◌∷◌, Text, All,
  Bool-cases, ◌==◌, nat_eq, list_eq,
}
use mackerel_operator.Prelude.Outcome.{ok, err}
use mackerel_operator.Monitor.{DesiredExternalMonitor, ActualExternalMonitor}
use mackerel_operator.Planner.Decisions.{IsOwned}
use mackerel_operator.Provider.Client.{
  Float64, MonitorExternalHttp, ClientMonitor, external, other_monitor, Reply, replied, failed,
}
use mackerel_operator.Provider.Convert.{actual_external_monitor_from_mackerel}
use mackerel_operator.Provider.Operations.{
  external_monitor_from_mackerel, reply_result, get_external_monitor, external_monitors,
  list_result, list_external_monitors,
}
use mackerel_operator.Provider.Result.{
  is_sentinel, err_not_found, map_mackerel_error, unexpected_monitor_type,
}
use mackerel_operator.Provider.Result as Provider
use mackerel_operator.Program
use mackerel_operator.Service.{Store, IsConsistent, Lists, Reads}
use mackerel_operator.Service.Honest.{Honest, TellsTruth}
use mackerel_operator.Service.Leads.{Leads}
use mackerel_operator.Controller.Settings.{Result}
use mackerel_operator.Controller.Find.{
  find_actual, find_otherwise, find_listed, scan_listed, scan_actuals,
}
use mackerel_operator.Controller.Find.Laws.{scan-IsOwned, scan_actuals-none, IsCandidate}
use mackerel_operator.Refinement.Find.{Stands, view-Stands, listed-Located}

-- No monitor is owned.
abbrev pub NoneOwned : {F : Type 0} → Text → Text → Store F → Type 0
NoneOwned {F} owner resource v =
    (id : Text) (m : MonitorExternalHttp F) → v id ≡ some m → ¬ IsOwned owner resource m.memo

module _ (fl : Float64) (d : DesiredExternalMonitor) where
  open fl use {F}

  All-tail :
      (P : ActualExternalMonitor → Type 0) (x : ClientMonitor F) (ms : List (ClientMonitor F))
      → All P (external_monitors fl (x ∷ ms))
      → All P (external_monitors fl ms)
  unfolding external_monitors
  All-tail P (external m) ms h = h.1
  All-tail P (other_monitor kind) ms h = h

  All-view :
      (P : ActualExternalMonitor → Type 0) (m : MonitorExternalHttp F) {ms : List (ClientMonitor F)}
      → Memᴰ (external m) ms
      → All P (external_monitors fl ms)
      → P (actual_external_monitor_from_mackerel fl m)
  unfolding external_monitors
  All-view P m (Memᴰ.head {xs} e) h =
      (subst (λ x. All P (external_monitors fl (x ∷ xs))) (sym e) h).0
  All-view P m (Memᴰ.tail {x} {xs} i) h = All-view P m i (All-tail P x xs h)

  -- If none of a complete list is owned, none is.
  none_listed :
      (v : Store F) (ms : List (ClientMonitor F))
      → TellsTruth v Program.find_monitors (replied ms) v
      → All (λ a. ¬ IsOwned d.owner d.resource a.memo) (external_monitors fl ms)
      → NoneOwned d.owner d.resource v
  unfolding actual_external_monitor_from_mackerel
  none_listed v ms complete h id m e =
      All-view (λ a. ¬ IsOwned d.owner d.resource a.memo) m (complete id m e) h

  -- What the result of a search says: the monitor that it finds stands in the store, and is owned
  -- unless none is; and if it finds none, none is owned.
  abbrev pub Tells : Store F → Result (Option ActualExternalMonitor) → Type 0
  Tells v (err e) = Unit {0}
  Tells v (ok none) = NoneOwned d.owner d.resource v
  Tells v (ok (some a)) =
      Stands fl v a × (IsOwned d.owner d.resource a.memo ⊎ NoneOwned d.owner d.resource v)

  All-unowned :
      (l : List ActualExternalMonitor)
      → All (λ a. ¬ IsCandidate d a) l
      → All (λ a. ¬ IsOwned d.owner d.resource a.memo) l
  All-unowned [] h = tt
  All-unowned (a ∷ l) (h, hs) = (λ o. h (inl o), All-unowned l hs)

  scan-Tells :
      (v : Store F) (ms : List (ClientMonitor F)) (r : Result (Option ActualExternalMonitor))
      → Lists v (replied ms)
      → TellsTruth v Program.find_monitors (replied ms) v
      → scan_actuals d (external_monitors fl ms) none ≡ r
      → Tells v r
  scan-Tells v ms (err e) listed complete scanned = tt
  scan-Tells v ms (ok none) listed complete scanned =
      none_listed v ms complete (All-unowned _ (scan_actuals-none d _ scanned))
  scan-Tells v ms (ok (some a)) listed complete scanned = (
    listed-Located fl d v (replied ms) listed a
        (unfold scan_listed in unfold list_result in scanned),
    elim (scan-IsOwned d _ none a scanned) [
      | inl o ↦ inl o
      | inr none_of ↦ inr (none_listed v ms complete none_of)
    ],
  )

  abbrev pub Told : Store F → Result (Option ActualExternalMonitor) → Store F → Type 0
  Told v r w = (w ≡ v) × Tells v r

  listed-Tells :
      (v : Store F) (r : Reply (List (ClientMonitor F)))
      → Lists v r
      → TellsTruth v Program.find_monitors r v
      → Tells v (scan_listed d (list_result fl r))
  unfolding list_result scan_listed
  listed-Tells v (failed e) listed complete = tt
  listed-Tells v (replied ms) listed complete = scan-Tells v ms _ listed complete refl

  find_listed-Leads : (v : Store F) → Leads Honest (Told v) (find_listed fl d) v
  unfolding find_listed list_external_monitors
  find_listed-Leads v = λ r u ((same, listed), truth).
      (same, listed-Tells v r listed (subst (TellsTruth v Program.find_monitors r) same truth))

  missed-Leads :
      (v : Store F) (e : Provider.Error) → Leads Honest (Told v) (find_otherwise fl d (err e)) v
  unfolding find_otherwise
  missed-Leads v e = elim (Bool-cases (is_sentinel err_not_found e)) [
    | inl gone ↦ rw gone (find_listed-Leads v)
    | inr there ↦ rw there (refl, tt)
  ]

  -- Where the monitor under the identifier that is asked for is owned, if there is one.
  module _ (v : Store F) (fit : IsConsistent v) (id : Text)
      (recorded : (m : MonitorExternalHttp F)
        → v id ≡ some m
        → IsOwned d.owner d.resource m.memo) where
    read-Leads :
        (r : Reply (ClientMonitor F))
        → Reads v id r
        → Leads Honest (Told v) (find_otherwise fl d (reply_result fl r)) v
    unfolding find_otherwise reply_result external_monitor_from_mackerel
        actual_external_monitor_from_mackerel
    read-Leads (replied (external m)) e =
        (refl, (view-Stands fl v m (ap v (fit id m e) ∙ e), inl (recorded m e)))
    read-Leads (replied (other_monitor kind)) e = missed-Leads v (unexpected_monitor_type kind)
    read-Leads (failed e) _ = missed-Leads v (map_mackerel_error e)

    pub find_actual-Tells : Leads Honest (Told v) (find_actual fl id d) v
    unfolding find_actual get_external_monitor
    find_actual-Tells = elim (Bool-cases (id == [])) [
      | inl unknown ↦ rw unknown (find_listed-Leads v)
      | inr known ↦ rw known λ r u step.
          subst (Leads Honest (Told v) (find_otherwise fl d (reply_result fl r))) (sym step.0.0)
            (read-Leads r step.0.1)
    ]
