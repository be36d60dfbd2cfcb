-- ===== src/Refinement/Writes.antt =====
-- What the provider's methods do to the monitors.
use mackerel_operator.Prelude.{◌≡◌, ◌⊎◌, refl, sym, subst, ap, inl, inr, none, some, Text}
use mackerel_operator.Prelude.Outcome.{ok, err, >>=-eq-ok, ok-injective}
use mackerel_operator.Monitor.{DesiredExternalMonitor}
use mackerel_operator.Provider.Client.{
  Float64, MonitorExternalHttp, ClientMonitor, external, other_monitor, Reply, replied, failed,
  stored,
}
use mackerel_operator.Provider.Convert.{
  uint64_from_int_ptr, uint64_ptr_from_int_ptr, float64_ptr_from_int_ptr, merged_fields, new_base,
  merge_mackerel_external_monitor, new_mackerel_external_monitor,
}
use mackerel_operator.Provider.Operations.{
  create_external_monitor, send_created, update_external_monitor, update_current, send_updated,
  delete_external_monitor,
}
use mackerel_operator.Provider.Result as Provider
use mackerel_operator.Service.{Store, Answered, put, drop}
use mackerel_operator.Service.Leads.{Leads}

module _ (fl : Float64) where
  open fl use {F}

  -- The fields by which a monitor is found again.
  pub record Carries (d : DesiredExternalMonitor) (text : Text) (q : MonitorExternalHttp F)
      : Type 0 where
    pub name : q.name ≡ d.name
    pub service : q.service ≡ d.service
    pub url : q.url ≡ d.url
    pub method : q.method ≡ d.method
    pub memo : q.memo ≡ text

  -- A monitor that is merged has them of the desired state, with the memo.
  pub merge-Carries :
      (base : MonitorExternalHttp F) (d : DesiredExternalMonitor) (memo : Text)
      (q : MonitorExternalHttp F)
      → merge_mackerel_external_monitor fl base d memo ≡ ok q
      → Carries d memo q
  unfolding merge_mackerel_external_monitor merged_fields
  merge-Carries base d memo q e =
      let (_, _, e) = >>=-eq-ok (uint64_from_int_ptr d.notification_interval) _ e in
      let (_, _, e) = >>=-eq-ok (float64_ptr_from_int_ptr fl d.response_time_warning) _ e in
      let (_, _, e) = >>=-eq-ok (float64_ptr_from_int_ptr fl d.response_time_critical) _ e in
      let (_, _, e) = >>=-eq-ok (uint64_ptr_from_int_ptr d.response_time_duration) _ e in
      let (_, _, e) = >>=-eq-ok (uint64_ptr_from_int_ptr d.certification_expiration_warning) _ e in
      let (_, _, e) = >>=-eq-ok (uint64_ptr_from_int_ptr d.certification_expiration_critical) _ e in
      let (_, _, e) = >>=-eq-ok (uint64_from_int_ptr (some d.max_check_attempts)) _ e in
      let whole = ok-injective e in
      record {
        name = sym (ap (λ x. x.name) whole);
        service = sym (ap (λ x. x.service) whole);
        url = sym (ap (λ x. x.url) whole);
        method = sym (ap (λ x. x.method) whole);
        memo = sym (ap (λ x. x.memo) whole);
      }

  -- A creation leaves all as it was, or adds a monitor under a free identifier.
  abbrev pub Created : DesiredExternalMonitor → Text → Store F → Store F → Type 0
  Created d memo v w =
      (w ≡ v)
      ⊎ ((id : Text) × (p : MonitorExternalHttp F) × (v id ≡ none)
          × Carries d memo p
          × (w ≡ put id (stored p id) v))

  pub create-Leads :
      (d : DesiredExternalMonitor) (memo : Text) (v : Store F)
      → Leads Answered (λ _ w. Created d memo v w) (create_external_monitor fl d memo) v
  unfolding create_external_monitor new_mackerel_external_monitor send_created
  create-Leads d memo v = sent (merge_mackerel_external_monitor fl (new_base fl) d memo) refl
    where
      sent :
          (o : Provider.Result (MonitorExternalHttp F))
          → merge_mackerel_external_monitor fl (new_base fl) d memo ≡ o
          → Leads Answered (λ _ w. Created d memo v w) (send_created fl o) v
      sent (err x) e = inl refl
      sent (ok p) e = λ r u step. elim step [
        | inl same ↦ inl same
        | inr (id, free, now) ↦ inr (id, p, free, merge-Carries (new_base fl) d memo p e, now)
      ]

  -- An update leaves all as it was, or writes over the monitor that stands there.
  abbrev pub Updated : DesiredExternalMonitor → Text → Text → Store F → Store F → Type 0
  Updated d memo id v w =
      (w ≡ v)
      ⊎ ((old p : MonitorExternalHttp F) × (v id ≡ some old)
          × Carries d memo p
          × (w ≡ put id (stored p id) v))

  pub update-Leads :
      (d : DesiredExternalMonitor) (memo id : Text) (v : Store F)
      → Leads Answered (λ _ w. Updated d memo id v w) (update_external_monitor fl id d memo) v
  unfolding update_external_monitor update_current send_updated
  update-Leads d memo id v = λ r u step. read r u step.0
    where
      sent :
          (base : MonitorExternalHttp F) (o : Provider.Result (MonitorExternalHttp F))
          → merge_mackerel_external_monitor fl base d memo ≡ o
          → Leads Answered (λ _ w. Updated d memo id v w) (send_updated fl id o) v
      sent base (err x) e = inl refl
      sent base (ok p) e = λ r u step. elim step [
        | inl same ↦ inl same
        | inr (old, there, now) ↦ inr (old, p, there, merge-Carries base d memo p e, now)
      ]

      read :
          (r : Reply (ClientMonitor F)) (u : Store F)
          → u ≡ v
          → Leads Answered (λ _ w. Updated d memo id v w) (update_current fl id d memo r) u
      read (failed e) u same = inl same
      read (replied (other_monitor kind)) u same = inl same
      read (replied (external base)) u same =
          subst (Leads Answered _ (update_current fl id d memo (replied (external base))))
            (sym same) (sent base (merge_mackerel_external_monitor fl base d memo) refl)

  -- A deletion leaves all as it was, or removes the monitor.
  pub delete-Leads :
      (id : Text) (v : Store F)
      → Leads Answered (λ _ w. (w ≡ v) ⊎ (w ≡ drop id v)) (delete_external_monitor fl id) v
  unfolding delete_external_monitor
  delete-Leads id v = λ r u step. step
