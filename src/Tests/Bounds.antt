-- ===== src/Tests/Bounds.antt =====
-- The theorems on bounds at concrete inputs.
use mackerel_operator.Prelude.{◌≡◌, ◌↔◌, codes}
use mackerel_operator.Prelude.Int.{ℤ}
use mackerel_operator.Prelude.Outcome.{ok}
use mackerel_operator.Provider.Client.{MonitorExternalHttp}
use mackerel_operator.Provider.Convert.{merge_mackerel_external_monitor}
use mackerel_operator.Provider.Convert.Negative.{IsSendable, merge_iff_IsSendable}
use mackerel_operator.Prelude.{List, Text}
use mackerel_operator.Controller.Patch.{patch_finalizers}
use mackerel_operator.Controller.Patch.Retried.{Retried, holding, patch_finalizers-Retried}
use mackerel_operator.Controller.Settings.{external_monitor_finalizer}
use mackerel_operator.Tests.Instances.{sample_finalizers, sample_float64}
use mackerel_operator.Tests.Samples.{shop, shop_desired, old_payload}

merge_iff_IsSendable_example :
    ((p : MonitorExternalHttp ℤ) × (merge_mackerel_external_monitor sample_float64 old_payload
          shop_desired
          (codes "by hand")
        ≡ ok p))
    ↔ IsSendable shop_desired
merge_iff_IsSendable_example =
    merge_iff_IsSendable sample_float64 old_payload shop_desired (codes "by hand")

abbrev with_finalizer_added : List Text → List Text
with_finalizer_added l = sample_finalizers.add l external_monitor_finalizer

patch_finalizers-Retried_example :
    Retried {F = sample_float64.F} with_finalizer_added shop
      (holding 4 shop)
      (patch_finalizers with_finalizer_added 4 shop)
patch_finalizers-Retried_example =
    patch_finalizers-Retried sample_float64.F with_finalizer_added 4 shop
