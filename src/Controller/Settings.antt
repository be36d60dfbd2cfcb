-- ===== src/Controller/Settings.antt =====
-- The reconciler's fields and defaults (externalmonitor_controller.go), its errors, and what it uses
-- of the libraries.
use mackerel_operator.Prelude.{
  ℕ, ◌≡◌, ◌↔◌, Bool, true, false, Option, none, some, List, [], ◌∷◌, Text, codes, if◌then◌else◌,
}
use mackerel_operator.Prelude.Int.{ℤ, pos, int_beq}
use mackerel_operator.Prelude.Outcome.{Outcome}
use mackerel_operator.Api.{ExternalMonitorStatus}
use mackerel_operator.Monitor.Hash.{Digest}
use mackerel_operator.Provider.Result.{Error}
use mackerel_operator.Provider.Client.{Float64}
use mackerel_operator.Program.{KubeError}
use mackerel_operator.Source.{SourceError, ExternalMonitorSource}
use mackerel_operator.Status.{Conditions}

pub data ReconcileError : Type 0 where
  provider_nil : ReconcileError
  kube_error : KubeError → ReconcileError
  secret_key_ref_missing : Text → ReconcileError
  secret_get_error : KubeError → Text → ReconcileError
  secret_key_missing : Text → ReconcileError
  source_error : SourceError → ReconcileError
  ambiguous_external_monitor : ReconcileError
  provider_error : Error → ReconcileError
  update_without_actual : ReconcileError
  restore_without_actual : ReconcileError
  nil_monitor : ReconcileError
  unsupported_action : ReconcileError
  nil_dereference : ReconcileError
  joined : ReconcileError → ReconcileError → ReconcileError

abbrev pub Result : Type 0 → Type 0
Result A = Outcome ReconcileError A

-- The finalizer functions of controller-runtime.
pub record Finalizers : Type 0 where
  pub contains : List Text → Text → Bool
  pub add : List Text → Text → List Text
  pub remove : List Text → Text → List Text
  pub contains-add : (l : List Text) (f : Text) → contains (add l f) f ≡ true
  pub contains-remove : (l : List Text) (f : Text) → contains (remove l f) f ≡ false

-- The libraries: the digest, `float64`, conditions, finalizers, the semantic equality of statuses,
-- the text of an error, and the number of attempts that `retry.DefaultRetry` makes after the first.
pub record Libraries : Type 1 where
  pub digest : Digest
  pub float64 : Float64
  pub conditions : Conditions
  pub finalizers : Finalizers
  pub status_equal : ExternalMonitorStatus → ExternalMonitorStatus → Bool
  pub status_equal_iff : (a b : ExternalMonitorStatus) → (status_equal a b ≡ true) ↔ (a ≡ b)
  pub error_text : ReconcileError → Text
  pub retry_steps : ℕ

abbrev pub external_monitor_finalizer : Text
external_monitor_finalizer = codes "externalmonitor.mackerel.starry.blue/finalizer"

abbrev pub default_hash_length : ℤ
default_hash_length = pos 7

abbrev pub default_owner_id : Text
default_owner_id = codes "default"

abbrev pub default_policy : Text
default_policy = codes "upsert-only"

-- The clients are the calls of a program; of the provider, whether there is one.
pub record ExternalMonitorReconciler : Type 0 where
  pub has_provider : Bool
  pub owner_id : Text
  pub policy : Text
  pub hash_length : ℤ
  pub disable_secret_watch : Bool

unfoldable pub text_or : Text → Text → Text
text_or default [] = default
text_or default (b ∷ s) = b ∷ s

unfoldable pub owner_id_of : ExternalMonitorReconciler → Text
unfolding text_or
owner_id_of r = text_or default_owner_id r.owner_id

unfoldable pub policy_of : ExternalMonitorReconciler → Text
unfolding text_or
policy_of r = text_or default_policy r.policy

unfoldable pub hash_length_of : ExternalMonitorReconciler → ℤ
hash_length_of r = if int_beq r.hash_length (pos 0) then default_hash_length else r.hash_length

unfoldable pub external_monitor_source :
    ExternalMonitorReconciler → List (Text × Text) → ExternalMonitorSource
unfolding owner_id_of hash_length_of
external_monitor_source r values = record {
  owner_id = owner_id_of r;
  hash_length = hash_length_of r;
  header_values = some values;
}

-- No header is resolved for a deletion.
unfoldable pub external_monitor_deletion_source : ExternalMonitorReconciler → ExternalMonitorSource
unfolding owner_id_of
external_monitor_deletion_source r = record {
  owner_id = owner_id_of r;
  hash_length = default_hash_length;
  header_values = none;
}

-- `ctrl.Result`, which asks to come back after `defaultRequeueAfter` or not, and the error.
pub record Reconciled : Type 0 where
  pub requeue_after : Bool
  pub error : Option ReconcileError

abbrev pub stop : Reconciled
stop = record { requeue_after = false; error = none }

abbrev pub requeue : Reconciled
requeue = record { requeue_after = true; error = none }

abbrev pub fail : ReconcileError → Reconciled
fail e = record { requeue_after = false; error = some e }

-- `errors.Join(err, statusErr)` where there is a second error.
unfoldable pub join_error : ReconcileError → Option ReconcileError → ReconcileError
join_error e none = e
join_error e (some other) = joined e other
