-- ===== src/Tests/Leaving.antt =====
-- The theorem on a deletion that ends without an error, at a run against a service with the one
-- monitor of the resource.
use mathlib.Core.Option.{some-injective}
use mackerel_operator.Service.{put}
use mackerel_operator.Prelude.{◌≡◌, strip_prefix, refl, sym, subst, ◌∙◌, none, some, codes}
use mackerel_operator.Prelude.Int.{ℤ}
use mackerel_operator.Planner.Decisions.{IsOwned}
use mackerel_operator.Program.{Program, got}
use mackerel_operator.Provider.Client.{MonitorExternalHttp}
use mackerel_operator.Service.Honest.{Honest}
use mackerel_operator.Service.Server.{Server, result, final, served-Run}
use mackerel_operator.Source.{from_external_monitor, sorted_headers, header_value}
use mackerel_operator.Monitor.Hash.{hash_desired, marshalled_hash}
use mackerel_operator.Controller.Find.{find_actual}
use mackerel_operator.Provider.Operations.{
  get_external_monitor, reply_result, delete_external_monitor,
}
use mackerel_operator.Controller.Patch.{remove_finalizer}
use mackerel_operator.Ownership.Escape.{
  is_space, escape_marker_value, is_field_byte, unescape_marker_value,
}
use mackerel_operator.Provider.Convert.{actual_external_monitor_from_mackerel}
use mackerel_operator.Planner.{plan_delete}
use mackerel_operator.Ownership.Marker.{parse_marker, build_marker}
use mackerel_operator.Ownership.Pattern.{find_submatch}
use mackerel_operator.Controller.Settings.{Reconciled, policy_of, external_monitor_deletion_source}
use mackerel_operator.Controller.Reconcile.Deletion.{reconcile_deletion}
use mackerel_operator.Refinement.Search.{NoneOwned}
use mackerel_operator.Refinement.Cleared.{OneOwned, reconcile_deletion-NoneOwned}
use mackerel_operator.Tests.Answers.{nothing}
use mackerel_operator.Tests.Desired.{made_desired}
use mackerel_operator.Tests.Instances.{sample_libraries}
use mackerel_operator.Tests.Removal.{
  leaving_shop, released_shop, owned_payload, payload-IsOwned, synced-policy, made-leaving,
}
use mackerel_operator.Tests.Samples.{sync_reconciler}
use mackerel_operator.Tests.Slot.{slot_store, slot_only, honest_slot, one-IsConsistent}

abbrev server : Server ℤ Honest
server = honest_slot (record nothing { finalizers = got released_shop }) leaving_shop

abbrev run : Program ℤ Reconciled
run = reconcile_deletion sample_libraries sync_reconciler leaving_shop

only_owned : OneOwned made_desired.owner made_desired.resource (slot_store (some owned_payload))
only_owned id id' m m' e e' o o' =
    slot_only owned_payload m id e ∙ sym (slot_only owned_payload m' id' e')

recorded :
    (m : MonitorExternalHttp ℤ)
    → slot_store (some owned_payload) (codes "m1") ≡ some m
    → IsOwned made_desired.owner made_desired.resource m.memo
unfolding put
recorded m e =
    subst (λ x. IsOwned made_desired.owner made_desired.resource x.memo)
      (some-injective owned_payload m e) payload-IsOwned

ended : (result server (some owned_payload) run).error ≡ none
unfolding result reconcile_deletion from_external_monitor sorted_headers header_value hash_desired
    external_monitor_deletion_source marshalled_hash find_actual get_external_monitor reply_result
    plan_delete policy_of parse_marker find_submatch actual_external_monitor_from_mackerel
    build_marker strip_prefix is_space escape_marker_value is_field_byte unescape_marker_value
    delete_external_monitor remove_finalizer
ended = refl

reconcile_deletion-NoneOwned_example :
    NoneOwned made_desired.owner made_desired.resource
      (slot_store (final server (some owned_payload) run))
reconcile_deletion-NoneOwned_example =
    reconcile_deletion-NoneOwned sample_libraries sync_reconciler leaving_shop made_desired
      (slot_store (some owned_payload)) (slot_store (final server (some owned_payload) run))
      (result server (some owned_payload) run) synced-policy made-leaving
      (one-IsConsistent owned_payload) only_owned recorded
      (served-Run server (some owned_payload) run) ended
