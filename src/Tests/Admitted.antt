-- ===== src/Tests/Admitted.antt =====
-- The theorem on admitted resources at one whose number of check attempts is unset.
use mackerel_operator.Prelude.{◌≡◌, refl, some, arith}
use mackerel_operator.Prelude.Int.{ℤ, pos}
use mackerel_operator.Prelude.Outcome.{ok}
use mackerel_operator.Api.{ExternalMonitor}
use mackerel_operator.Monitor.{DesiredExternalMonitor}
use mackerel_operator.Ownership.Marker.{apply_marker}
use mackerel_operator.Planner.{noop, plan}
use mackerel_operator.Provider.Client.{MonitorExternalHttp}
use mackerel_operator.Provider.Convert.{
  new_base, merge_mackerel_external_monitor, actual_external_monitor_from_mackerel,
}
use mackerel_operator.Source.{from_external_monitor}
use mackerel_operator.Source.Admission.{IsAdmitted, IsExact}
use mackerel_operator.Controller.Reconcile.Upsert.{marker_of}
use mackerel_operator.Controller.Reconcile.Admitted.{as_reported, admitted-noop}
use mackerel_operator.Tests.Instances.{sample_digest, sample_float64}
use mackerel_operator.Tests.Samples.{shop, shop_spec, shop_source}
use mackerel_operator.Tests.Desired.{made_desired}
use mackerel_operator.Tests.Markers.{all_bytes-IsBytes, plain_memo, removed-Unmarked}

abbrev unset_shop : ExternalMonitor
unset_shop = record shop { spec = record shop_spec { max_check_attempts = pos 0 } }

abbrev one_attempt : DesiredExternalMonitor
one_attempt = record made_desired { max_check_attempts = pos 1 }

made-one_attempt :
    from_external_monitor sample_digest shop_source (some unset_shop) ≡ ok one_attempt
unfolding made_desired
made-one_attempt = refl

unset_shop-IsAdmitted : IsAdmitted unset_shop.spec
unset_shop-IsAdmitted = record {
  notification_interval = tt;
  expected_status_code = tt;
  response_time_duration = tt;
  response_time_warning = tt;
  response_time_critical = tt;
  certification_warning = tt;
  certification_critical = tt;
  max_check_attempts = omega arith;
}

unset_shop-IsExact : IsExact unset_shop.spec
unset_shop-IsExact = record { warning = tt; critical = tt }

admitted-noop_example :
    (p : MonitorExternalHttp ℤ) × (merge_mackerel_external_monitor sample_float64
        (new_base sample_float64)
        one_attempt
        (apply_marker plain_memo (marker_of one_attempt))
      ≡ ok p)
    × ((plan (record {
      desired = one_attempt;
      actual = some (actual_external_monitor_from_mackerel sample_float64 (as_reported p));
    })).action
        ≡ noop)
admitted-noop_example =
    admitted-noop sample_float64 sample_digest shop_source unset_shop one_attempt
      unset_shop-IsAdmitted unset_shop-IsExact (all_bytes-IsBytes unset_shop.namespace refl)
      (all_bytes-IsBytes unset_shop.name refl) (all_bytes-IsBytes shop_source.owner_id refl)
      (λ e. cc) made-one_attempt (new_base sample_float64) plain_memo removed-Unmarked
