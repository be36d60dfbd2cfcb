-- ===== src/Tests/Removal.antt =====
-- The theorem on a deletion at a concrete resource.
use mackerel_operator.Prelude.{◌≡◌, refl, inr, some, [], ◌∷◌, codes}
use mackerel_operator.Prelude.Int.{ℤ}
use mackerel_operator.Prelude.Outcome.{ok}
use mackerel_operator.Api.{ExternalMonitor}
use mackerel_operator.Ownership.Marker.{build_marker}
use mackerel_operator.Ownership.Marker.Laws.{parse-build}
use mackerel_operator.Planner.Decisions.{IsOwned}
use mackerel_operator.Program
use mackerel_operator.Program.{Call, Answer, got}
use mackerel_operator.Program.Runs.{result_of, calls_of}
use mackerel_operator.Provider.Client.{MonitorExternalHttp, external, replied, failed}
use mackerel_operator.Provider.Result.{api_error}
use mackerel_operator.Source.{from_external_monitor}
use mackerel_operator.Controller.Settings.{
  text_or, policy_of, external_monitor_deletion_source, external_monitor_finalizer, stop,
}
use mackerel_operator.Controller.Reconcile.{reconcile}
use mackerel_operator.Controller.Reconcile.Removal.{reconcile-removes}
use mackerel_operator.Tests.Answers.{nothing, answers_of}
use mackerel_operator.Tests.Desired.{made_desired}
use mackerel_operator.Tests.Instances.{sample_libraries, sample_digest}
use mackerel_operator.Tests.Markers.{shop_marker-IsMarker}
use mackerel_operator.Tests.Samples.{shop, empty_status, old_payload, shop_marker, sync_reconciler}

-- The resource of the monitor "m1", which is being deleted, and without its finalizer.
abbrev pub leaving_shop : ExternalMonitor
leaving_shop = record shop {
  deletion_timestamp = some 9;
  finalizers = external_monitor_finalizer ∷ [];
  status = record empty_status { monitor_id = codes "m1" };
}

abbrev pub released_shop : ExternalMonitor
released_shop = record leaving_shop { finalizers = [] }

abbrev pub owned_payload : MonitorExternalHttp ℤ
owned_payload = record old_payload { memo = build_marker shop_marker }

pub payload-IsOwned : IsOwned made_desired.owner made_desired.resource owned_payload.memo
unfolding made_desired
payload-IsOwned = record {
  marker = shop_marker;
  parsed = parse-build shop_marker shop_marker-IsMarker;
  same_owner = refl;
  same_resource = refl;
}

-- The monitor goes away between the read and the deletion.
abbrev sample_answers : (c : Call ℤ) → Answer c
sample_answers = answers_of (record nothing {
  resource = got leaving_shop;
  monitor = replied (external owned_payload);
  deleted = failed (api_error 404);
  finalizers = got released_shop;
})

pub synced-policy : policy_of sync_reconciler ≡ codes "sync"
unfolding policy_of text_or
synced-policy = refl

pub made-leaving :
    from_external_monitor sample_digest
      (external_monitor_deletion_source sync_reconciler)
      (some leaving_shop)
    ≡ ok made_desired
unfolding made_desired external_monitor_deletion_source
made-leaving = refl

reconcile-removes_example :
    (result_of sample_answers
        (reconcile sample_libraries sync_reconciler (codes "team") (codes "shop"))
      ≡ stop)
    × (calls_of sample_answers
          (reconcile sample_libraries sync_reconciler (codes "team") (codes "shop"))
        ≡ Program.get_resource (codes "team") (codes "shop")
          ∷ Program.get_monitor (codes "m1")
          ∷ Program.delete_monitor (codes "m1")
          ∷ Program.patch_finalizers leaving_shop (
              sample_libraries.finalizers.remove leaving_shop.finalizers external_monitor_finalizer)
          ∷ [])
reconcile-removes_example =
    reconcile-removes sample_libraries sync_reconciler leaving_shop released_shop made_desired
      owned_payload 9 sample_answers refl refl made-leaving (λ e. cc) refl synced-policy
      payload-IsOwned (inr refl) refl (codes "team") (codes "shop") refl
