-- ===== src/Planner/Deletion.antt =====
-- When `PlanDelete` decides to delete.
use mackerel_operator.Prelude.{
  ◌≡◌, ◌≢◌, ◌↔◌, refl, sym, ◌∙◌, Bool, true, Option, none, some, Text, codes, ◌==◌, ==_iff, nat_eq,
  list_eq, if◌then◌else◌, arith,
}
use mackerel_operator.Monitor.{ActualExternalMonitor}
use mackerel_operator.Ownership.Marker.{Marker, parse_marker}
use mackerel_operator.Planner.{Action, delete, skip_delete, plan_delete, plan_delete_marked}
use mackerel_operator.Planner.Decisions.{IsOwned}

-- There is a monitor, it is owned, and the policy allows to delete it.
pub record MayDelete (actual : Option ActualExternalMonitor) (owner resource policy : Text)
    : Type 0 where
  pub policy_sync : policy ≡ codes "sync"
  pub monitor : ActualExternalMonitor
  pub exists : actual ≡ some monitor
  pub owned : IsOwned owner resource monitor.memo

delete_test :
    (b : Bool) (x : Action) → (if b then x else skip_delete) ≡ delete → (b ≡ true) × (x ≡ delete)
delete_test b x h = ground arith

module _ (owner resource policy : Text) where
  abbrev delete_action : Option ActualExternalMonitor → Action
  delete_action actual = (plan_delete actual owner resource policy).action

  delete_parsed :
      (a : ActualExternalMonitor) (o : Option Marker)
      → parse_marker a.memo ≡ o
      → delete_action (some a) ≡ (
          if policy == codes "sync"
          then (plan_delete_marked owner resource o).action
          else skip_delete)
  unfolding plan_delete
  delete_parsed a o e = ground arith

  unmarked_skip : (plan_delete_marked owner resource none).action ≡ skip_delete
  unfolding plan_delete_marked
  unmarked_skip = refl

  marked_delete :
      (m : Marker)
      → (plan_delete_marked owner resource (some m)).action ≡ delete
      → (m.owner ≡ owner) × (m.resource ≡ resource)
  unfolding plan_delete_marked
  marked_delete m h = ground (arith, ==_iff m.owner owner, ==_iff m.resource resource)

  owned_delete :
      (m : Marker)
      → m.owner ≡ owner
      → m.resource ≡ resource
      → (plan_delete_marked owner resource (some m)).action ≡ delete
  unfolding plan_delete_marked
  owned_delete m e f = rw ((==_iff m.owner owner).1 e, (==_iff m.resource resource).1 f)

  parsed_delete :
      (a : ActualExternalMonitor) (o : Option Marker)
      → parse_marker a.memo ≡ o
      → delete_action (some a) ≡ delete
      → MayDelete (some a) owner resource policy
  parsed_delete a none e h =
      let (_, deleted) =
        delete_test (policy == codes "sync") (plan_delete_marked owner resource none).action
          (sym (delete_parsed a none e) ∙ h) in
      cc (unmarked_skip, deleted)
  parsed_delete a (some m) e h =
      let (sync, deleted) = delete_test _ _ (sym (delete_parsed a (some m) e) ∙ h) in
      let (same_owner, same_resource) = marked_delete m deleted in
      record {
        policy_sync = (==_iff policy (codes "sync")).0 sync;
        monitor = a;
        exists = refl;
        owned = record {
          marker = m;
          parsed = e;
          same_owner = same_owner;
          same_resource = same_resource;
        };
      }

  delete-MayDelete :
      (actual : Option ActualExternalMonitor)
      → delete_action actual ≡ delete
      → MayDelete actual owner resource policy
  unfolding plan_delete
  delete-MayDelete none h = cc
  delete-MayDelete (some a) h = parsed_delete a (parse_marker a.memo) refl h

  MayDelete-delete :
      (actual : Option ActualExternalMonitor)
      → MayDelete actual owner resource policy
      → delete_action actual ≡ delete
  MayDelete-delete actual h = rw h.exists (
      delete_parsed h.monitor (some h.owned.marker) h.owned.parsed
      ∙ rw ((==_iff policy (codes "sync")).1 h.policy_sync)
          (owned_delete h.owned.marker h.owned.same_owner h.owned.same_resource))

  skip_otherwise :
      (actual : Option ActualExternalMonitor)
      → delete_action actual ≢ delete
      → delete_action actual ≡ skip_delete
  unfolding plan_delete plan_delete_marked
  skip_otherwise none h = refl
  skip_otherwise (some a) h = ground arith

-- `PlanDelete` decides to delete exactly when the policy is "sync" and there is a monitor whose
-- marker names this owner and this resource; otherwise it skips the deletion.
pub plan_delete_iff :
    (actual : Option ActualExternalMonitor) (owner resource policy : Text)
    → (((plan_delete actual owner resource policy).action ≡ delete)
        ↔ MayDelete actual owner resource policy)
      × ((plan_delete actual owner resource policy).action ≢ delete
          → (plan_delete actual owner resource policy).action ≡ skip_delete)
plan_delete_iff actual owner resource policy = (
  (delete-MayDelete owner resource policy actual, MayDelete-delete owner resource policy actual),
  skip_otherwise owner resource policy actual,
)
