-- ===== src/Status.antt =====
-- internal/status/externalmonitor.go. `meta.SetStatusCondition` of apimachinery is a parameter.
pub mod Again
use mackerel_operator.Prelude.{
  ℕ, ◌≡◌, Bool, true, false, Option, some, List, Text, codes, if◌then◌else◌,
}
use mackerel_operator.Api.{Condition, ExternalMonitor}
use mackerel_operator.Program.{Program, done, ask, ◌>>=◌, now}

-- What is relied on: a condition that is set is found under its type, conditions of other types
-- stay, and setting a condition again changes nothing.
pub record Conditions : Type 0 where
  pub set_condition : List Condition → Condition → List Condition
  pub find_condition : List Condition → Text → Option Condition
  pub find_set :
      (cs : List Condition) (c : Condition) → find_condition (set_condition cs c) c.kind ≡ some c
  pub set_again :
      (cs : List Condition) (c : Condition)
      → set_condition (set_condition cs c) c ≡ set_condition cs c

abbrev pub condition_ready : Text
condition_ready = codes "Ready"

abbrev pub reason_synced : Text
reason_synced = codes "Synced"

abbrev pub reason_ownership_lost : Text
reason_ownership_lost = codes "OwnershipLost"

abbrev pub reason_invalid_spec : Text
reason_invalid_spec = codes "InvalidSpec"

abbrev pub reason_secret_not_found : Text
reason_secret_not_found = codes "SecretNotFound"

abbrev pub reason_secret_error : Text
reason_secret_error = codes "SecretError"

pub record SyncResult : Type 0 where
  pub monitor_id : Text
  pub hash : Text
  pub url : Text
  pub name : Text
  pub applied : Bool

abbrev pub ready_condition : ExternalMonitor → Bool → Text → Text → Condition
ready_condition cr status reason message = record {
  kind = condition_ready;
  status = status;
  observed_generation = cr.generation;
  reason = reason;
  message = message;
}

module _ (conditions : Conditions) where
  open conditions use {set_condition}

  -- `MarkReady` once the time of the last synchronization is known.
  unfoldable pub ready_status : ExternalMonitor → SyncResult → Option ℕ → ExternalMonitor
  ready_status cr result last_synced_at = record cr {
    status = record {
      monitor_id = result.monitor_id;
      observed_generation = cr.generation;
      last_synced_at = last_synced_at;
      last_applied_hash = result.hash;
      url = result.url;
      mackerel_monitor_name = result.name;
      conditions = set_condition cr.status.conditions (
          ready_condition cr true reason_synced
            (codes "Mackerel external monitor is synchronized"));
    };
  }

  -- The time moves only when the monitor was written.
  unfoldable pub mark_ready :
      {F : Type 0} → ExternalMonitor → SyncResult → Program F ExternalMonitor
  unfolding ready_status
  mark_ready cr result =
      if result.applied
      then (do t ← ask now; done (ready_status cr result (some t)))
      else done (ready_status cr result cr.status.last_synced_at)

  unfoldable pub mark_error : ExternalMonitor → Text → Text → ExternalMonitor
  mark_error cr reason message = record cr {
    status = record cr.status {
      observed_generation = cr.generation;
      conditions = set_condition cr.status.conditions (ready_condition cr false reason message);
    };
  }

  unfoldable pub mark_ownership_lost : ExternalMonitor → Text → ExternalMonitor
  mark_ownership_lost cr message = record cr {
    status = record cr.status {
      observed_generation = cr.generation;
      conditions =
          set_condition cr.status.conditions
            (ready_condition cr false reason_ownership_lost message);
    };
  }

  unfoldable pub mark_invalid_spec : ExternalMonitor → Text → ExternalMonitor
  mark_invalid_spec cr message = record cr {
    status = record cr.status {
      observed_generation = cr.generation;
      conditions =
          set_condition cr.status.conditions (ready_condition cr false reason_invalid_spec message);
    };
  }
