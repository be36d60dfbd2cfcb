-- ===== src/Start/Types.antt =====
-- `init` of cmd/main.go: the scheme of the process.
use mathlib.Core.List.{mem-cons_self, mem-cons_of_mem}
use mackerel_operator.Prelude.{◌≡◌, ◌∙◌, true, Text, codes}
use mackerel_operator.Prelude.Outcome.{Outcome, ok, ◌>>=◌}
use mackerel_operator.Api.Scheme.{
  Schemes, group_version, add_known_types, scheme_builder, add_to_scheme,
}

-- The scheme, once the types of client-go (a parameter) and the operator's are registered;
-- `utilruntime.Must` makes an error a panic.
unfoldable pub init :
    (schemes : Schemes)
    → (schemes.Scheme → Outcome Text schemes.Scheme)
    → Outcome Text schemes.Scheme
unfolding add_to_scheme
init schemes client_go = do
  with_client_go ← client_go schemes.new_scheme
  add_to_scheme schemes with_client_go

module _ (schemes : Schemes) where
  open schemes use {Scheme, recognizes}

  added :
      (s : Scheme)
      → (s' : Scheme) × (add_to_scheme schemes s ≡ ok s')
        × (recognizes s' group_version (codes "ExternalMonitor") ≡ true)
        × (recognizes s' group_version (codes "ExternalMonitorList") ≡ true)
  unfolding add_to_scheme scheme_builder add_known_types
  added s = (
    _,
    schemes.build-cons _ _ _ ∙ schemes.build-nil _,
    schemes.add_to_group_version-recognizes _ _ _ _
        (schemes.add_types-recognizes _ _ _ _ mem-cons_self),
    schemes.add_to_group_version-recognizes _ _ _ _
        (schemes.add_types-recognizes _ _ _ _ (mem-cons_of_mem _ mem-cons_self)),
  )

  -- If the types of client-go can be registered, then `init` does not panic, and the scheme of the
  -- process knows the resource and the list of resources in the version of the operator.
  pub init-recognizes :
      (client_go : Scheme → Outcome Text Scheme) (s : Scheme)
      → client_go schemes.new_scheme ≡ ok s
      → (s' : Scheme) × (init schemes client_go ≡ ok s')
        × (recognizes s' group_version (codes "ExternalMonitor") ≡ true)
        × (recognizes s' group_version (codes "ExternalMonitorList") ≡ true)
  unfolding init
  init-recognizes client_go s e = rw e (added s)
