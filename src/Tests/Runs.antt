-- ===== src/Tests/Runs.antt =====
-- The theorems on reconciliations at concrete resources.
use mackerel_operator.Prelude.{◌≢◌, some, codes}
use mackerel_operator.Prelude.Outcome.{ok}
use mackerel_operator.Ownership.Marker.{build_marker}
use mackerel_operator.Program.Runs.{Ensures}
use mackerel_operator.Controller.Settings.{policy_of, text_or}
use mackerel_operator.Controller.Reconcile.Upsert.{upsert_found}
use mackerel_operator.Controller.Reconcile.Deletion.{reconcile_delete, reconcile_deletion}
use mackerel_operator.Controller.Reconcile.Truthful.{Truthful, InOrder, upsert_found-Truthful}
use mackerel_operator.Controller.Reconcile.Writes.{MayWrite, upsert_found-MayWrite}
use mackerel_operator.Controller.Reconcile.Guarantees.{
  OnlyDeletes, DeletesOwned, reconcile_deletion-OnlyDeletes, reconcile_delete-DeletesOwned,
}
use mackerel_operator.Tests.Instances.{sample_libraries}
use mackerel_operator.Tests.Samples.{
  shop, shop_desired, shop_marker, old_shop, upsert_reconciler, sync_reconciler,
}

upsert_found-MayWrite_example :
    Ensures
      (MayWrite shop_desired (some (old_shop (codes "by hand"))))
      (λ _. Unit {0})
      (upsert_found sample_libraries shop shop_desired (ok (some (old_shop (codes "by hand")))))
upsert_found-MayWrite_example =
    upsert_found-MayWrite sample_libraries shop shop_desired (some (old_shop (codes "by hand")))

reconcile_delete-DeletesOwned_example :
    Ensures
      (DeletesOwned
        (some (old_shop (build_marker shop_marker)))
        shop_desired.owner
        shop_desired.resource
        (policy_of sync_reconciler))
      (λ _. Unit {0})
      (reconcile_delete sample_libraries sync_reconciler shop shop_desired
        (some (old_shop (build_marker shop_marker))))
reconcile_delete-DeletesOwned_example =
    reconcile_delete-DeletesOwned sample_libraries sync_reconciler shop shop_desired
      (some (old_shop (build_marker shop_marker)))

reconcile_deletion-OnlyDeletes_example :
    Ensures
      (OnlyDeletes (policy_of sync_reconciler))
      (λ _. Unit {0})
      (reconcile_deletion sample_libraries sync_reconciler
        (record shop { deletion_timestamp = some 9 }))
reconcile_deletion-OnlyDeletes_example =
    reconcile_deletion-OnlyDeletes sample_libraries sync_reconciler
      (record shop { deletion_timestamp = some 9 })

upsert-policy : policy_of upsert_reconciler ≢ codes "sync"
unfolding policy_of text_or
upsert-policy e = cc

upsert_found-Truthful_example :
    Truthful sample_libraries.conditions
      (InOrder shop_desired (some (old_shop (build_marker shop_marker))))
      (upsert_found sample_libraries shop shop_desired
        (ok (some (old_shop (build_marker shop_marker)))))
upsert_found-Truthful_example =
    upsert_found-Truthful sample_libraries shop shop_desired
      (some (old_shop (build_marker shop_marker)))
