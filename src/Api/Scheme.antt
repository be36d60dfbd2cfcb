-- ===== src/Api/Scheme.antt =====
-- api/v1alpha1/groupversion_info.go: the registration of the types with a scheme of apimachinery.
use mathlib.Core.List.{Mem}
use mackerel_operator.Prelude.{◌≡◌, Bool, true, List, [], ◌∷◌, Text, codes}
use mackerel_operator.Prelude.Outcome.{Outcome, ok, ◌>>=◌}

pub record GroupVersion : Type 0 where
  pub group : Text
  pub version : Text

-- The schemes of apimachinery. A type is registered under the name of its Go type; a registration
-- takes nothing away; and a builder applies its functions in their order, up to the first error.
pub record Schemes : Type 1 where
  pub Scheme : Type 0
  pub new_scheme : Scheme
  pub add_types : GroupVersion → List Text → Scheme → Scheme
  pub add_to_group_version : GroupVersion → Scheme → Scheme
  pub build : List (Scheme → Outcome Text Scheme) → Scheme → Outcome Text Scheme
  pub recognizes : Scheme → GroupVersion → Text → Bool
  pub add_types-recognizes :
      (gv : GroupVersion) (kinds : List Text) (kind : Text) (s : Scheme)
      → Mem kind kinds
      → recognizes (add_types gv kinds s) gv kind ≡ true
  pub add_to_group_version-recognizes :
      (gv gv' : GroupVersion) (kind : Text) (s : Scheme)
      → recognizes s gv' kind ≡ true
      → recognizes (add_to_group_version gv s) gv' kind ≡ true
  pub build-nil : (s : Scheme) → build [] s ≡ ok s
  pub build-cons :
      (f : Scheme → Outcome Text Scheme) (fs : List (Scheme → Outcome Text Scheme)) (s : Scheme)
      → build (f ∷ fs) s ≡ (f s >>= build fs)

abbrev pub scheme_group_version : GroupVersion
scheme_group_version = record { group = codes "mackerel.starry.blue"; version = codes "v1alpha1" }

-- The alias for backward compatibility.
abbrev pub group_version : GroupVersion
group_version = scheme_group_version

abbrev pub known_kinds : List Text
known_kinds = codes "ExternalMonitor" ∷ codes "ExternalMonitorList" ∷ []

module _ (schemes : Schemes) where
  open schemes use {Scheme, add_types, add_to_group_version, build}

  -- It returns no error.
  unfoldable pub add_known_types : Scheme → Outcome Text Scheme
  add_known_types s =
      ok (add_to_group_version scheme_group_version (add_types scheme_group_version known_kinds s))

  unfoldable pub scheme_builder : List (Scheme → Outcome Text Scheme)
  unfolding add_known_types
  scheme_builder = add_known_types ∷ []

  unfoldable pub add_to_scheme : Scheme → Outcome Text Scheme
  unfolding scheme_builder
  add_to_scheme s = build scheme_builder s
