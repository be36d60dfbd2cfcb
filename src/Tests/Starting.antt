-- ===== src/Tests/Starting.antt =====
-- The theorems on the process at a concrete command line.
use mackerel_operator.Prelude.{◌≡◌, ◌≢◌, refl, none, [], Text, codes, arith}
use mackerel_operator.Prelude.Int.{pos}
use mackerel_operator.Prelude.Outcome.{ok, err}
use mackerel_operator.Program.Runs.{Ensures}
use mackerel_operator.Provider.New.{new_mackerel_provider}
use mackerel_operator.Controller.Settings.{policy_of, hash_length_of, owner_id_of}
use mackerel_operator.Controller.Reconcile.{reconcile}
use mackerel_operator.Controller.Reconcile.Guarantees.{NeverDeletes}
use mackerel_operator.Controller.Watch.Setup.{
  Manager, secret_ref_index_key, builder_of, setup_with_manager,
}
use mackerel_operator.Controller.Secrets.{secret_names_for_external_monitor}
use mackerel_operator.Start.{Platform, Started, StartError, main, reconciler_of}
use mackerel_operator.Start.CommandLine.{Flags, default_flags}
use mackerel_operator.Start.Servers.{manager_options}
use mackerel_operator.Start.Validation.{IsRunnable, main-IsRunnable, main-rejected}
use mackerel_operator.Start.Guarantees.{main-NeverDeletes}
use mackerel_operator.Tests.Instances.{sample_libraries}

-- A manager that accepts everything.
abbrev pub willing : Manager
willing = record { index_field = λ key index. none; complete = λ builder. none }

abbrev sample_platform : Platform
sample_platform = record {
  new_manager = λ options. ok willing;
  add_healthz_check = none;
  add_readyz_check = none;
  start = none;
}

abbrev failing_platform : Platform
failing_platform = record sample_platform { new_manager = λ options. err (codes "no cluster") }

abbrev sample_key : Text
sample_key = codes "key"

abbrev sample_started : Started
sample_started = record {
  options = manager_options default_flags;
  provider = record { api_key = sample_key };
  reconciler = reconciler_of default_flags;
  registered = record {
    index_key = secret_ref_index_key;
    index = secret_names_for_external_monitor;
    builder = builder_of (reconciler_of default_flags);
  };
}

starts : main sample_platform default_flags sample_key ≡ ok sample_started
unfolding main new_mackerel_provider setup_with_manager
starts = refl

main-IsRunnable_example :
    IsRunnable default_flags sample_key
    × (policy_of sample_started.reconciler ≡ default_flags.policy)
    × (hash_length_of sample_started.reconciler ≡ default_flags.hash_length)
    × (owner_id_of sample_started.reconciler ≢ [])
main-IsRunnable_example =
    main-IsRunnable sample_platform default_flags sample_key sample_started starts

-- A hash length beyond that of SHA-256.
abbrev long_hash : Flags
long_hash = record default_flags { hash_length = pos 65 }

not-IsRunnable : ¬ IsRunnable long_hash sample_key
not-IsRunnable (policy, (m, e, lo, hi), key) = absurd (ground arith)

main-rejected_example :
    (e : StartError) × (main sample_platform long_hash sample_key ≡ err e)
    × (main failing_platform long_hash sample_key ≡ err e)
main-rejected_example =
    main-rejected long_hash sample_key not-IsRunnable sample_platform failing_platform

main-NeverDeletes_example :
    Ensures NeverDeletes
      (λ _. Unit {0})
      (reconcile sample_libraries sample_started.reconciler (codes "team") (codes "shop"))
main-NeverDeletes_example =
    main-NeverDeletes sample_platform default_flags sample_key sample_started starts refl
      sample_libraries (codes "team") (codes "shop")
