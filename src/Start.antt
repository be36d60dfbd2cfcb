-- ===== src/Start.antt =====
-- cmd/main.go: the flags, their validation, the options of the servers and of the manager, and the
-- steps up to the start of the manager.
pub mod CommandLine
pub mod Servers
pub mod Types
pub mod Validation
pub mod Guarantees
use mackerel_operator.Prelude.{
  Bool, true, false, ◌&&◌, ◌||◌, not, Option, none, some, Text, codes, ltb, Eq, ◌==◌, nat_eq,
  list_eq, if◌then◌else◌,
}
use mackerel_operator.Prelude.Int.{ℤ, pos, negsuc}
use mackerel_operator.Prelude.Outcome.{Outcome, ok, err, ◌>>=◌}
use mackerel_operator.Provider.New.{MackerelProvider, ProviderError, new_mackerel_provider}
use mackerel_operator.Controller.Settings.{ExternalMonitorReconciler}
use mackerel_operator.Controller.Watch.Setup.{Manager, SetupError, Registered, setup_with_manager}
use CommandLine.{Flags}
use Servers.{ManagerOptions, manager_options}

-- Each is logged, and the process exits with status 1.
pub data StartError : Type 0 where
  invalid_policy : Text → StartError
  invalid_hash_length : ℤ → StartError
  provider_error : ProviderError → StartError
  manager_error : Text → StartError
  controller_error : SetupError → StartError
  health_check_error ready_check_error run_error : Text → StartError

-- controller-runtime: the manager that it makes, and the errors of the calls on it.
pub record Platform : Type 0 where
  pub new_manager : ManagerOptions → Outcome Text Manager
  pub add_healthz_check : Option Text
  pub add_readyz_check : Option Text
  pub start : Option Text

-- What runs until the manager stops.
pub record Started : Type 0 where
  pub options : ManagerOptions
  pub provider : MackerelProvider
  pub reconciler : ExternalMonitorReconciler
  pub registered : Registered

unfoldable pub check_policy : Text → Outcome StartError (Unit {0})
check_policy policy =
    if not (policy == codes "upsert-only") && not (policy == codes "sync")
    then err (invalid_policy policy)
    else ok tt

unfoldable pub check_hash_length : ℤ → Outcome StartError (Unit {0})
check_hash_length (negsuc n) = err (invalid_hash_length (negsuc n))
check_hash_length (pos n) = if ltb n 1 || ltb 64 n then err (invalid_hash_length (pos n)) else ok tt

-- `if err := …; err != nil { os.Exit(1) }`
unfoldable pub unless_error : (Text → StartError) → Option Text → Outcome StartError (Unit {0})
unless_error wrap none = ok tt
unless_error wrap (some e) = err (wrap e)

-- The same for a call that returns a value.
unfoldable pub or_exit : {E A : Type 0} → (E → StartError) → Outcome E A → Outcome StartError A
or_exit wrap (ok a) = ok a
or_exit wrap (err e) = err (wrap e)

unfoldable pub reconciler_of : Flags → ExternalMonitorReconciler
reconciler_of flags = record {
  has_provider = true;
  owner_id = flags.owner_id;
  policy = flags.policy;
  hash_length = flags.hash_length;
  disable_secret_watch = flags.disable_secret_watch;
}

-- `main`, with the parsed flags and the value of `MACKEREL_APIKEY`.
unfoldable pub main : Platform → Flags → Text → Outcome StartError Started
unfolding check_policy check_hash_length unless_error or_exit reconciler_of
main platform flags api_key = do
  policy_checked ← check_policy flags.policy
  hash_length_checked ← check_hash_length flags.hash_length
  provider ← or_exit provider_error (new_mackerel_provider api_key)
  manager ← or_exit manager_error (platform.new_manager (manager_options flags))
  registered ← or_exit controller_error (setup_with_manager (reconciler_of flags) manager)
  healthz_added ← unless_error health_check_error platform.add_healthz_check
  readyz_added ← unless_error ready_check_error platform.add_readyz_check
  ran ← unless_error run_error platform.start
  ok (record {
    options = manager_options flags;
    provider = provider;
    reconciler = reconciler_of flags;
    registered = registered;
  })
