-- ===== src/Status/Again.antt =====
-- Reporting the same again changes nothing.
use mackerel_operator.Prelude.{ℕ, ◌≡◌, ap, true, Option, List}
use mackerel_operator.Api.{Condition, ExternalMonitor}
use mackerel_operator.Status.{Conditions, SyncResult, ready_condition, reason_synced, ready_status}

module _ (conditions : Conditions) where
  pub ready_status_idem :
      (cr : ExternalMonitor) (x : SyncResult) (t : Option ℕ)
      → ready_status conditions (ready_status conditions cr x t) x t
        ≡ ready_status conditions cr x t
  unfolding ready_status
  ready_status_idem cr x t =
      ap
        (λ (cs : List Condition). record cr {
          status = record {
            monitor_id = x.monitor_id;
            observed_generation = cr.generation;
            last_synced_at = t;
            last_applied_hash = x.hash;
            url = x.url;
            mackerel_monitor_name = x.name;
            conditions = cs;
          };
        })
        (conditions.set_again cr.status.conditions (ready_condition cr true reason_synced _))
