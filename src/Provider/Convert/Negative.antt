-- ===== src/Provider/Convert/Negative.antt =====
-- When a desired state cannot be sent: negative numbers.
use mackerel_operator.Prelude.{◌≡◌, ◌↔◌, refl, Option, none, some, Text}
use mackerel_operator.Prelude.Int.{ℤ, pos, negsuc}
use mackerel_operator.Prelude.Outcome.{ok, >>=-eq-ok}
use mackerel_operator.Monitor.{DesiredExternalMonitor}
use mackerel_operator.Provider.Result.{Result}
use mackerel_operator.Provider.Client.{Float64, MonitorExternalHttp}
use mackerel_operator.Provider.Convert.{
  merged_fields, merge_mackerel_external_monitor, uint64_from_int_ptr, float64_ptr_from_int_ptr,
  uint64_ptr_from_int_ptr,
}

-- Unset, or at least 0.
abbrev pub NotNegative : Option ℤ → Type 0
NotNegative none = Unit {0}
NotNegative (some (pos n)) = Unit {0}
NotNegative (some (negsuc n)) = ⊥

-- The numbers that are converted to unsigned ones.
pub record IsSendable (d : DesiredExternalMonitor) : Type 0 where
  pub interval : NotNegative d.notification_interval
  pub warning : NotNegative d.response_time_warning
  pub critical : NotNegative d.response_time_critical
  pub duration : NotNegative d.response_time_duration
  pub certification_warning : NotNegative d.certification_expiration_warning
  pub certification_critical : NotNegative d.certification_expiration_critical
  pub attempts : NotNegative (some d.max_check_attempts)

-- A conversion that succeeds exactly on such numbers.
abbrev Converts : {A : Type 0} → (Option ℤ → Result A) → Type 0
Converts {A = A} f = (v : Option ℤ) → ((a : A) × (f v ≡ ok a)) ↔ NotNegative v

uint64-Converts : Converts uint64_from_int_ptr
unfolding uint64_from_int_ptr
uint64-Converts none = (λ _. tt, λ _. (0, refl))
uint64-Converts (some (pos n)) = (λ _. tt, λ _. (n, refl))
uint64-Converts (some (negsuc n)) = (λ (a, e). cc, λ h. absurd h)

uint64_ptr-Converts : Converts uint64_ptr_from_int_ptr
unfolding uint64_ptr_from_int_ptr
uint64_ptr-Converts none = (λ _. tt, λ _. (none, refl))
uint64_ptr-Converts (some (pos n)) = (λ _. tt, λ _. (some n, refl))
uint64_ptr-Converts (some (negsuc n)) = (λ (a, e). cc, λ h. absurd h)

module _ (fl : Float64) where
  float64-Converts : Converts (float64_ptr_from_int_ptr fl)
  unfolding float64_ptr_from_int_ptr
  float64-Converts none = (λ _. tt, λ _. (none, refl))
  float64-Converts (some (pos n)) = (λ _. tt, λ _. (some (fl.of_int (pos n)), refl))
  float64-Converts (some (negsuc n)) = (λ (a, e). cc, λ h. absurd h)

  module _ (base : MonitorExternalHttp fl.F) (d : DesiredExternalMonitor) (memo : Text) where
    merged-IsSendable :
        (p : MonitorExternalHttp fl.F)
        → merge_mackerel_external_monitor fl base d memo ≡ ok p
        → IsSendable d
    unfolding merge_mackerel_external_monitor
    merged-IsSendable p h =
        let (ni, send_ni, h) = >>=-eq-ok (uint64_from_int_ptr d.notification_interval) _ h in
        let (w, send_w, h) = >>=-eq-ok (float64_ptr_from_int_ptr fl d.response_time_warning) _ h in
        let (c, send_c, h) = >>=-eq-ok (float64_ptr_from_int_ptr fl d.response_time_critical) _ h in
        let (rd, send_rd, h) = >>=-eq-ok (uint64_ptr_from_int_ptr d.response_time_duration) _ h in
        let (cw, send_cw, h) =
          >>=-eq-ok (uint64_ptr_from_int_ptr d.certification_expiration_warning) _ h in
        let (cc', send_cc, h) =
          >>=-eq-ok (uint64_ptr_from_int_ptr d.certification_expiration_critical) _ h in
        let (ma, send_ma, h) = >>=-eq-ok (uint64_from_int_ptr (some d.max_check_attempts)) _ h in
        record {
          interval = (uint64-Converts _).0 (ni, send_ni);
          warning = (float64-Converts _).0 (w, send_w);
          critical = (float64-Converts _).0 (c, send_c);
          duration = (uint64_ptr-Converts _).0 (rd, send_rd);
          certification_warning = (uint64_ptr-Converts _).0 (cw, send_cw);
          certification_critical = (uint64_ptr-Converts _).0 (cc', send_cc);
          attempts = (uint64-Converts _).0 (ma, send_ma);
        }

    IsSendable-merged :
        IsSendable d
        → (p : MonitorExternalHttp fl.F) × (merge_mackerel_external_monitor fl base d memo ≡ ok p)
    unfolding merge_mackerel_external_monitor
    IsSendable-merged s =
        let (ni, send_ni) = (uint64-Converts d.notification_interval).1 s.interval in
        let (w, send_w) = (float64-Converts d.response_time_warning).1 s.warning in
        let (c, send_c) = (float64-Converts d.response_time_critical).1 s.critical in
        let (rd, send_rd) = (uint64_ptr-Converts d.response_time_duration).1 s.duration in
        let (cw, send_cw) =
          (uint64_ptr-Converts d.certification_expiration_warning).1 s.certification_warning in
        let (cc', send_cc) =
          (uint64_ptr-Converts d.certification_expiration_critical).1 s.certification_critical in
        let (ma, send_ma) = (uint64-Converts (some d.max_check_attempts)).1 s.attempts in
        (
          merged_fields fl base d memo ni w c rd cw cc' ma,
          rw (send_ni, send_w, send_c, send_rd, send_cw, send_cc, send_ma),
        )

    -- Merging a desired state into a monitor succeeds exactly if none of the numbers that become
    -- unsigned or `float64` is negative.
    pub merge_iff_IsSendable :
        ((p : MonitorExternalHttp fl.F) × (merge_mackerel_external_monitor fl base d memo ≡ ok p))
        ↔ IsSendable d
    merge_iff_IsSendable = (λ (p, h). merged-IsSendable p h, IsSendable-merged)
