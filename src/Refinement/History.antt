-- ===== src/Refinement/History.antt =====
-- What any sequence of reconciliations, by any reconcilers and for any resources, does to the
-- monitors.
use mackerel_operator.Prelude.{
  ◌≡◌, ◌≢◌, refl, inl, inr, none, some, List, [], ◌∷◌, Text, codes, All,
}
use mackerel_operator.Ownership.Marker.{parse_marker}
use mackerel_operator.Planner.Decisions.{IsForeign}
use mackerel_operator.Provider.Client.{MonitorExternalHttp}
use mackerel_operator.Service.{Store, Answered, IsConsistent, Run}
use mackerel_operator.Controller.Settings.{
  Libraries, Reconciled, ExternalMonitorReconciler, owner_id_of, policy_of,
}
use mackerel_operator.Controller.Reconcile.{reconcile}
use mackerel_operator.Refinement.{IsAlike, Step}
use mackerel_operator.Refinement.Reconcile.{resource_of, reconcile-Step}
use mackerel_operator.Refinement.Fate.{
  unchanged, overwritten, deleted, Step-Fate, Step-IsConsistent, MayTake-IsForeign,
}

-- One reconciliation: by which reconciler, and for which resource.
pub record Job : Type 0 where
  pub reconciler : ExternalMonitorReconciler
  pub namespace : Text
  pub name : Text

-- Each of the reconciliations names another owner or another resource than the marker in the memo.
abbrev pub SparedBy : Text → Job → Type 0
SparedBy memo j = IsForeign (owner_id_of j.reconciler) (resource_of j.namespace j.name) memo

module _ (lib : Libraries) where
  open lib.float64 use {F}

  -- The reconciliations run one after the other.
  pub data History : Store F → List Job → Store F → Type 0 where
    idle : (v : Store F) → History v [] v
    worked :
        {u w : Store F} {jobs : List Job} (v : Store F) (j : Job) (x : Reconciled)
        → Run Answered v (reconcile lib j.reconciler j.namespace j.name) x u
        → History u jobs w
        → History v (j ∷ jobs) w

  job-Step :
      (v u : Store F) (j : Job) (x : Reconciled)
      → IsConsistent v
      → Run Answered v (reconcile lib j.reconciler j.namespace j.name) x u
      → Step
          (owner_id_of j.reconciler)
          (resource_of j.namespace j.name)
          (policy_of j.reconciler)
          v
          u
  job-Step v u j x fit run = reconcile-Step lib j.reconciler v u j.namespace j.name x fit run

  -- If each monitor stands under its own identifier before any sequence of reconciliations, then so
  -- it does after it.
  pub History-IsConsistent :
      (v w : Store F) (jobs : List Job) → IsConsistent v → History v jobs w → IsConsistent w
  History-IsConsistent v w [] fit (idle _) = fit
  History-IsConsistent v w (j ∷ jobs) fit (worked {u} _ _ x run rest) =
      History-IsConsistent u w jobs (Step-IsConsistent (job-Step v u j x fit run) fit) rest

  -- From a store in which each monitor stands under its own identifier: a monitor whose marker
  -- names, for each of the reconciliations of a sequence, another owner or another resource is left
  -- as it is by all of them.
  pub History-SparedBy :
      (v w : Store F) (jobs : List Job) (id : Text) (m : MonitorExternalHttp F)
      → IsConsistent v
      → History v jobs w
      → All (SparedBy m.memo) jobs
      → v id ≡ some m
      → w id ≡ some m
  History-SparedBy v w [] id m fit (idle _) spared e = e
  History-SparedBy v w (j ∷ jobs) id m fit (worked {u} _ _ x run rest) (foreign, spared) e =
      let step = job-Step v u j x fit run in
      let here : u id ≡ some m = elim (Step-Fate id m step e) [
        | unchanged h ↦ h
        | overwritten new may h ↦ absurd (MayTake-IsForeign m new may foreign)
        | deleted sync owned h ↦ absurd (MayTake-IsForeign m m (inl owned) foreign)
      ] in
      History-SparedBy u w jobs id m (Step-IsConsistent step fit) rest spared here

  -- From a store in which each monitor stands under its own identifier: if none of the
  -- reconciliations of a sequence has the policy "sync", then every identifier that has a monitor
  -- before them has one after them.
  pub History-NoLoss :
      (v w : Store F) (jobs : List Job) (id : Text) (m : MonitorExternalHttp F)
      → IsConsistent v
      → History v jobs w
      → All (λ j. policy_of j.reconciler ≢ codes "sync") jobs
      → v id ≡ some m
      → (m' : MonitorExternalHttp F) × (w id ≡ some m')
  History-NoLoss v w [] id m fit (idle _) modest e = (m, e)
  History-NoLoss v w (j ∷ jobs) id m fit (worked {u} _ _ x run rest) (this, modest) e =
      let step = job-Step v u j x fit run in
      let next = Step-IsConsistent step fit in
      elim (Step-Fate id m step e) [
        | unchanged h ↦ History-NoLoss u w jobs id m next rest modest h
        | overwritten new may h ↦ History-NoLoss u w jobs id new next rest modest h
        | deleted sync owned h ↦ absurd (this sync)
      ]

  -- From a store in which each monitor stands under its own identifier: a monitor without a marker
  -- is not removed by a reconciliation, whatever the policy, and keeps its name, its service, its
  -- URL and its method.
  pub reconcile-Unmarked :
      (r : ExternalMonitorReconciler) (v w : Store F) (namespace name : Text) (x : Reconciled)
      (id : Text) (m : MonitorExternalHttp F)
      → IsConsistent v
      → Run Answered v (reconcile lib r namespace name) x w
      → v id ≡ some m
      → parse_marker m.memo ≡ none
      → (m' : MonitorExternalHttp F) × (w id ≡ some m') × IsAlike m m'
  reconcile-Unmarked r v w namespace name x id m fit run e bare =
      elim (Step-Fate id m (reconcile-Step lib r v w namespace name x fit run) e) [
        | unchanged h ↦ (m, h, record { name = refl; service = refl; url = refl; method = refl })
        | overwritten new (inr (_, alike)) h ↦ (new, h, alike)
        | overwritten new (inl owned) h ↦ absurd (cc (owned.parsed))
        | deleted sync owned h ↦ absurd (cc (owned.parsed))
      ]
