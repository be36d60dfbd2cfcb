-- ===== src/Controller/Watch/Covers.antt =====
-- Every Secret that a reconciliation reads is one whose events lead back to the resource.
use mathlib.Core.List.{Mem, mem-map_of_mem}
use mackerel_operator.Prelude.{◌≡◌, ◌⊎◌, inl, inr, sym, ap, subst, true, List, [], Text}
use mackerel_operator.Prelude.Outcome.{ok, >>=-eq-ok, ok-injective}
use mackerel_operator.Api.{ExternalMonitor}
use mackerel_operator.Program
use mackerel_operator.Program.{Call, Answer, Program, KubeReply, got, refused, done, call}
use mackerel_operator.Program.Runs.{Ensures, Ensures-weaken, result_of}
use mackerel_operator.Controller.Settings.{ExternalMonitorReconciler}
use mackerel_operator.Controller.Secrets.{
  resolve_header_values, secret_names_for_external_monitor, contains_text,
}
use mackerel_operator.Controller.Secrets.Index.{ReadsSecrets, resolve_header_values-ReadsSecrets}
use mackerel_operator.Controller.Watch.{
  request_of, requests_for, secret_requests, external_monitors_for_secret,
}
use mackerel_operator.Controller.Watch.Setup.{
  Manager, index_error, complete_error, secret_ref_index_key, Registered, unless_failed, builder_of,
  setup_with_manager,
}

requests_for-Mem :
    (cr : ExternalMonitor) (l : List ExternalMonitor)
    → Mem cr l
    → Mem (request_of cr) (requests_for l)
unfolding requests_for
requests_for-Mem cr l h = mem-map_of_mem request_of h

setup-index :
    (r : ExternalMonitorReconciler) (m : Manager) (registered : Registered)
    → setup_with_manager r m ≡ ok registered
    → secret_names_for_external_monitor ≡ registered.index
unfolding setup_with_manager
setup-index r m registered e =
    let (_, _, e) =
      >>=-eq-ok
        (unless_failed index_error
          (m.index_field secret_ref_index_key secret_names_for_external_monitor))
        _ e in
    let (_, _, e) = >>=-eq-ok (unless_failed complete_error (m.complete (builder_of r))) _ e in
    ap (λ (x : Registered). x.index) (ok-injective e)

-- A Secret is read whose events request the resource, or one with the empty name; the answers
-- are those of the calls that its events lead to.
abbrev pub Requested : {F : Type 0} → ((c : Call F) → Answer c) → ExternalMonitor → Call F → Type 0
Requested answers cr (Program.get_secret space name) =
    (name ≡ []) ⊎ Mem (request_of cr) (result_of answers (external_monitors_for_secret space name))
Requested answers cr _ = ⊥

module _ (F : Type 0) (r : ExternalMonitorReconciler) (m : Manager) (registered : Registered)
    (cr : ExternalMonitor) (answers : (c : Call F) → Answer c)
    (listed : Text → Text → List ExternalMonitor) where
  read-Requested :
      ((space name : Text) → answers (Program.list_indexed space name) ≡ got (listed space name))
      → ((name : Text)
          → contains_text (secret_names_for_external_monitor cr) name ≡ true
          → Mem cr (listed cr.namespace name))
      → (c : Call F) → ReadsSecrets cr.namespace (secret_names_for_external_monitor cr) c
      → Requested answers cr c
  unfolding external_monitors_for_secret
  read-Requested a h (Program.get_secret space name) (same, inl empty) = inl empty
  read-Requested a h (Program.get_secret space name) (same, inr named) = inr (
      subst (λ x. Mem (request_of cr) (secret_requests x)) (sym (a space name))
        (unfold secret_requests in
          requests_for-Mem cr (listed space name)
            (subst (λ s. Mem cr (listed s name)) (sym same) (h name named))))
  read-Requested a h Program.now b = absurd b
  read-Requested a h _ b = absurd b

  -- Let the API list resources by the index that `SetupWithManager` registered: a resource is listed
  -- in its name space under every value that the index has for it. Then `resolveHeaderValues`
  -- makes no call but reads of Secrets, and an event of any of them, unless its name is empty, is
  -- one for which `externalMonitorsForSecret` requests the resource.
  pub resolve_header_values-Requested :
      setup_with_manager r m ≡ ok registered
      → ((space name : Text) → answers (Program.list_indexed space name) ≡ got (listed space name))
      → ((name : Text)
          → contains_text (registered.index cr) name ≡ true
          → Mem cr (listed cr.namespace name))
      → Ensures {F = F} (Requested answers cr) (λ _. Unit {0}) (resolve_header_values cr)
  resolve_header_values-Requested s a h =
      Ensures-weaken _ (Requested answers cr) _
        (read-Requested a (λ name e.
          h name (subst (λ f. contains_text (f cr) name ≡ true) (setup-index r m registered s) e)))
        (resolve_header_values cr) (resolve_header_values-ReadsSecrets F cr)
