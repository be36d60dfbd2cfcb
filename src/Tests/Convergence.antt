-- ===== src/Tests/Convergence.antt =====
-- The theorems on admitted resources and on resources in order at a concrete resource.
use mackerel_operator.Prelude.{◌≡◌, refl, [], ◌∷◌, codes, All, arith}
use mackerel_operator.Prelude.Int.{ℤ}
use mackerel_operator.Prelude.Outcome.{ok, err}
use mackerel_operator.Api.{ExternalMonitor, ExternalMonitorStatus}
use mackerel_operator.Ownership.Marker.{apply_marker}
use mackerel_operator.Ownership.Marker.Match.{IsMarker}
use mackerel_operator.Program
use mackerel_operator.Program.{Call, Answer, got, refused, kube_other}
use mackerel_operator.Program.Runs.{result_of, calls_of}
use mackerel_operator.Provider.Client.{MonitorExternalHttp, external, replied}
use mackerel_operator.Provider.Convert.{
  new_base, uint64_from_int_ptr, float64_ptr_from_int_ptr, uint64_ptr_from_int_ptr,
  merge_mackerel_external_monitor,
}
use mackerel_operator.Source.Admission.{
  IsAdmitted, IsExact, from_external_monitor-IsSyncable, from_external_monitor-IsMarker,
}
use mackerel_operator.Controller.Settings.{
  external_monitor_source, external_monitor_finalizer, requeue,
}
use mackerel_operator.Controller.Secrets.Direct.{Secrets, direct_loop}
use mackerel_operator.Controller.Reconcile.{reconcile}
use mackerel_operator.Controller.Reconcile.Upsert.{marker_of}
use mackerel_operator.Controller.Reconcile.Settled.{ReadsOne, Unchanged}
use mackerel_operator.Provider.Client.{stored}
use mackerel_operator.Controller.Reconcile.Convergence.{
  after_write, IsWritable, reconcile-after_write,
}
use mackerel_operator.Tests.Instances.{sample_libraries, sample_digest, sample_float64}
use mackerel_operator.Tests.Answers.{nothing, answers_of}
use mackerel_operator.Tests.Samples.{shop, empty_status, shop_source, sync_reconciler}
use mackerel_operator.Tests.Desired.{made_desired, made-desired}
use mackerel_operator.Tests.Markers.{all_bytes-IsBytes, plain_memo, removed-Unmarked}

shop-IsAdmitted : IsAdmitted shop.spec
shop-IsAdmitted = record {
  notification_interval = tt;
  expected_status_code = tt;
  response_time_duration = tt;
  response_time_warning = tt;
  response_time_critical = tt;
  certification_warning = tt;
  certification_critical = tt;
  max_check_attempts = omega arith;
}

shop-IsExact : IsExact shop.spec
shop-IsExact = record { warning = tt; critical = tt }

from_external_monitor-IsMarker_example : IsMarker (record {
  resource = made_desired.resource;
  owner = made_desired.owner;
  hash = made_desired.hash;
})
from_external_monitor-IsMarker_example =
    from_external_monitor-IsMarker sample_digest shop_source shop made_desired
      (all_bytes-IsBytes shop.namespace refl) (all_bytes-IsBytes shop.name refl)
      (all_bytes-IsBytes shop_source.owner_id refl) (λ e. cc) made-desired

made-IsMarker : IsMarker (marker_of made_desired)
unfolding made_desired
made-IsMarker = record {
  resource_ne = λ e. cc;
  owner_ne = λ e. cc;
  hash_ne = λ e. cc;
  resource_bytes = all_bytes-IsBytes made_desired.resource refl;
  owner_bytes = all_bytes-IsBytes made_desired.owner refl;
  hash_bytes = all_bytes-IsBytes made_desired.hash refl;
}

abbrev pub kept_shop : ExternalMonitor
kept_shop = record shop { finalizers = external_monitor_finalizer ∷ [] }

-- A name space with no Secret.
abbrev pub no_secrets : Secrets
no_secrets name = refused kube_other

-- Whatever its status says.
pub kept_shop-IsWritable :
    (status : ExternalMonitorStatus)
    → IsWritable sample_libraries sync_reconciler
        (record kept_shop { status = status })
        no_secrets
        []
        made_desired
unfolding direct_loop external_monitor_source made_desired
kept_shop-IsWritable status = record {
  provider = refl;
  live = refl;
  finalizer = refl;
  resolved = refl;
  desired = refl;
  syncable =
      from_external_monitor-IsSyncable sample_digest shop_source shop made_desired shop-IsAdmitted
        shop-IsExact made-desired;
  marked = made-IsMarker;
}

unfoldable sent : MonitorExternalHttp ℤ
unfolding merge_mackerel_external_monitor apply_marker
sent =
    elim (merge_mackerel_external_monitor sample_float64 (new_base sample_float64) made_desired
      (apply_marker plain_memo (marker_of made_desired))) [
        | ok p ↦ p
        | err e ↦ new_base sample_float64
      ]

made-sent :
    merge_mackerel_external_monitor sample_float64
      (new_base sample_float64)
      made_desired
      (apply_marker plain_memo (marker_of made_desired))
    ≡ ok sent
unfolding sent made_desired uint64_from_int_ptr float64_ptr_from_int_ptr uint64_ptr_from_int_ptr
made-sent = refl

abbrev stored_monitor : MonitorExternalHttp ℤ
stored_monitor = stored sent (codes "m1")

-- The resource as it was reported at time 5.
abbrev written_shop : ExternalMonitor
written_shop =
    after_write sample_libraries sync_reconciler kept_shop no_secrets [] made_desired stored_monitor
      5

-- The APIs, with the resource and the monitor as they were written.
abbrev sample_answers : (c : Call ℤ) → Answer c
sample_answers = answers_of (record nothing {
  resource = got written_shop;
  secret = no_secrets;
  monitor = replied (external stored_monitor);
})

answers-Unchanged :
    (c : Call ℤ) → Unchanged written_shop no_secrets stored_monitor c (sample_answers c)
answers-Unchanged (Program.get_resource namespace name) = refl
answers-Unchanged (Program.get_monitor id) = λ e. refl
answers-Unchanged (Program.get_secret namespace name) = λ e. refl
answers-Unchanged Program.now = tt
answers-Unchanged _ = tt

reconcile-after_write_example :
    (result_of sample_answers
        (reconcile sample_libraries sync_reconciler (codes "team") (codes "shop"))
      ≡ requeue)
    × All ReadsOne (
        calls_of sample_answers
          (reconcile sample_libraries sync_reconciler (codes "team") (codes "shop")))
reconcile-after_write_example =
    reconcile-after_write sample_libraries sync_reconciler kept_shop no_secrets [] made_desired
      (kept_shop-IsWritable empty_status) (new_base sample_float64) sent plain_memo (codes "m1") 5
      removed-Unmarked made-sent (λ e. cc) sample_answers answers-Unchanged (codes "team")
      (codes "shop")
