-- ===== src/Tests/Histories.antt =====
-- The theorems on what reconciliations do to the monitors, at runs against a service that holds one
-- monitor at most.
use mackerel_operator.Prelude.{◌≡◌, ◌≢◌, refl, inl, none, some, List, [], ◌∷◌, Text, codes}
use mackerel_operator.Prelude.Int.{ℤ}
use mackerel_operator.Ownership.Marker.{build_marker, parse_marker, apply_marker}
use mackerel_operator.Ownership.Pattern.{find_submatch, remove_all}
use mackerel_operator.Prelude.{strip_prefix}
use mackerel_operator.Ownership.Marker.Laws.{parse-build}
use mackerel_operator.Planner.Decisions.{IsForeign}
use mackerel_operator.Program.{Program, got}
use mackerel_operator.Provider.Client.{MonitorExternalHttp}
use mackerel_operator.Service.{Answered, put, IsConsistent}
use mackerel_operator.Service.Server.{Server, result, final, served-Run}
use mackerel_operator.Controller.Settings.{
  ExternalMonitorReconciler, Reconciled, text_or, owner_id_of, policy_of, external_monitor_source,
}
use mackerel_operator.Controller.Reconcile.{reconcile}
use mackerel_operator.Controller.Secrets.{resolve_header_values}
use mackerel_operator.Controller.Find.{find_actual}
use mackerel_operator.Source.{header_value, sorted_headers, from_external_monitor}
use mackerel_operator.Monitor.Hash.{hash_desired, marshalled_hash}
use mackerel_operator.Planner.{plan}
use mackerel_operator.Provider.Operations.{
  list_external_monitors, list_result, create_external_monitor, reply_result,
}
use mackerel_operator.Status.{mark_ready}
use mackerel_operator.Controller.Patch.{patch_status}
use mackerel_operator.Ownership.Escape.{escape_marker_value}
use mackerel_operator.Provider.Convert.{
  new_mackerel_external_monitor, uint64_from_int_ptr, float64_ptr_from_int_ptr,
  uint64_ptr_from_int_ptr, actual_external_monitor_from_mackerel,
}
use mackerel_operator.Refinement.{Step, IsAlike}
use mackerel_operator.Refinement.Reconcile.{resource_of, reconcile-Step}
use mackerel_operator.Refinement.History.{
  Job, History, idle, worked, History-IsConsistent, History-SparedBy, History-NoLoss,
  reconcile-Unmarked,
}
use mackerel_operator.Tests.Answers.{nothing}
use mackerel_operator.Tests.Convergence.{kept_shop}
use mackerel_operator.Tests.Instances.{sample_libraries}
use mackerel_operator.Tests.Markers.{shop_marker-IsMarker}
use mackerel_operator.Tests.Removal.{owned_payload}
use mackerel_operator.Tests.Samples.{old_payload, shop_marker, sync_reconciler, upsert_reconciler}
use mackerel_operator.Tests.Slot.{Slot, slot_store, slot, one-IsConsistent}

abbrev server : Server ℤ Answered
server = slot (record nothing { status = got tt }) kept_shop

abbrev shop_run : ExternalMonitorReconciler → Program ℤ Reconciled
shop_run r = reconcile sample_libraries r (codes "team") (codes "shop")

abbrev after : ExternalMonitorReconciler → Slot → Slot
after r s = final server s (shop_run r)

reconcile-Step_example :
    Step
      (owner_id_of sync_reconciler)
      (resource_of (codes "team") (codes "shop"))
      (policy_of sync_reconciler)
      (slot_store none)
      (slot_store (after sync_reconciler none))
reconcile-Step_example =
    reconcile-Step sample_libraries sync_reconciler (slot_store none)
      (slot_store (after sync_reconciler none)) (codes "team") (codes "shop")
      (result server none (shop_run sync_reconciler)) (λ id m e. absurd (cc))
      (served-Run server none (shop_run sync_reconciler))

abbrev job : ExternalMonitorReconciler → Job
job r = record { reconciler = r; namespace = codes "team"; name = codes "shop" }

-- A creation by one reconciler, and then a look by another one.
abbrev two_jobs : List Job
two_jobs = job sync_reconciler ∷ job upsert_reconciler ∷ []

one-History :
    (r : ExternalMonitorReconciler) (s : Slot)
    → History sample_libraries (slot_store s) (job r ∷ []) (slot_store (after r s))
one-History r s =
    worked (slot_store s) (job r) (result server s (shop_run r)) (served-Run server s (shop_run r))
      (idle (slot_store (after r s)))

two-History :
    History sample_libraries
      (slot_store none)
      two_jobs
      (slot_store (after upsert_reconciler (after sync_reconciler none)))
two-History =
    worked (slot_store none) (job sync_reconciler) (result server none (shop_run sync_reconciler))
      (served-Run server none (shop_run sync_reconciler))
      (one-History upsert_reconciler (after sync_reconciler none))

History-IsConsistent_example :
    IsConsistent (slot_store (after upsert_reconciler (after sync_reconciler none)))
History-IsConsistent_example =
    History-IsConsistent sample_libraries (slot_store none)
      (slot_store (after upsert_reconciler (after sync_reconciler none))) two_jobs
      (λ id m e. absurd (cc)) two-History

-- The marker of the monitor names the owner "prod", and the reconciler's is "default".
payload-IsForeign :
    IsForeign
      (owner_id_of upsert_reconciler)
      (resource_of (codes "team") (codes "shop"))
      owned_payload.memo
unfolding owner_id_of text_or
payload-IsForeign = record {
  marker = shop_marker;
  parsed = parse-build shop_marker shop_marker-IsMarker;
  other = inl (λ e. cc);
}

held_payload : slot_store (some owned_payload) (codes "m1") ≡ some owned_payload
unfolding put
held_payload = refl

held_old : slot_store (some old_payload) (codes "m1") ≡ some old_payload
unfolding put
held_old = refl

History-SparedBy_example :
    slot_store (after upsert_reconciler (some owned_payload)) (codes "m1") ≡ some owned_payload
History-SparedBy_example =
    History-SparedBy sample_libraries (slot_store (some owned_payload))
      (slot_store (after upsert_reconciler (some owned_payload))) (job upsert_reconciler ∷ [])
      (codes "m1") owned_payload (one-IsConsistent owned_payload)
      (one-History upsert_reconciler (some owned_payload)) (payload-IsForeign, tt) held_payload

default-policy : policy_of upsert_reconciler ≢ codes "sync"
unfolding policy_of text_or
default-policy e = cc

History-NoLoss_example :
    (m' : MonitorExternalHttp ℤ) × (slot_store
        (after upsert_reconciler (some owned_payload))
        (codes "m1")
      ≡ some m')
History-NoLoss_example =
    History-NoLoss sample_libraries (slot_store (some owned_payload))
      (slot_store (after upsert_reconciler (some owned_payload))) (job upsert_reconciler ∷ [])
      (codes "m1") owned_payload (one-IsConsistent owned_payload)
      (one-History upsert_reconciler (some owned_payload)) (default-policy, tt) held_payload

old-bare : parse_marker old_payload.memo ≡ none
unfolding parse_marker find_submatch strip_prefix
old-bare = refl

reconcile-Unmarked_example :
    (m' : MonitorExternalHttp ℤ) × (slot_store
        (after sync_reconciler (some old_payload))
        (codes "m1")
      ≡ some m')
    × IsAlike old_payload m'
reconcile-Unmarked_example =
    reconcile-Unmarked sample_libraries sync_reconciler (slot_store (some old_payload))
      (slot_store (after sync_reconciler (some old_payload))) (codes "team") (codes "shop")
      (result server (some old_payload) (shop_run sync_reconciler)) (codes "m1") old_payload
      (one-IsConsistent old_payload)
      (served-Run server (some old_payload) (shop_run sync_reconciler)) held_old old-bare

-- The first of the two creates the monitor.
abbrev memo_of : Slot → Text
memo_of none = []
memo_of (some m) = m.memo

created :
    memo_of (after sync_reconciler none)
    ≡ build_marker (record shop_marker { hash = codes "2424242" })
unfolding final reconcile build_marker resolve_header_values from_external_monitor sorted_headers
    header_value hash_desired external_monitor_source marshalled_hash find_actual
    list_external_monitors list_result plan create_external_monitor new_mackerel_external_monitor
    uint64_from_int_ptr float64_ptr_from_int_ptr uint64_ptr_from_int_ptr reply_result mark_ready
    patch_status actual_external_monitor_from_mackerel apply_marker remove_all escape_marker_value
created = refl
