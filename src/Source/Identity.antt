-- ===== src/Source/Identity.antt =====
-- Different resources have different texts in their markers.
use mathlib.Core.Option.{some-injective}
use mackerel_operator.Prelude.{
  ◌≡◌, ◌≢◌, refl, sym, ap, ◌∙◌, some, [], ◌∷◌, ◌++◌, Text, codes, All, strip_prefix,
  strip_prefix-append,
}
use mackerel_operator.Prelude.Outcome.{ok}
use mackerel_operator.Api.{ExternalMonitor}
use mackerel_operator.Monitor.{DesiredExternalMonitor}
use mackerel_operator.Monitor.Hash.{Digest}
use mackerel_operator.Source.Made.{from_external_monitor-Made}
use mackerel_operator.Source.{ExternalMonitorSource, namespaced, unhashed, from_external_monitor}

-- A name space of Kubernetes holds no slash.
abbrev pub IsNamespace : Text → Type 0
IsNamespace = All (λ b. b ≢ b'/')

-- What stands in front of the first slash, and behind it.
slash-injective :
    (a b s t : Text)
    → IsNamespace a
    → IsNamespace b
    → a ++ b'/' ∷ s ≡ b ++ b'/' ∷ t
    → (a ≡ b) × (s ≡ t)
slash-injective [] [] s t ha hb e = (refl, cc)
slash-injective [] (y ∷ b) s t ha (hy, hb) e = absurd (hy cc)
slash-injective (x ∷ a) [] s t (hx, ha) hb e = absurd (hx cc)
slash-injective (x ∷ a) (y ∷ b) s t (hx, ha) (hy, hb) e =
    let (p, q) = slash-injective a b s t ha hb (cc) in (cc, q)

-- A common prefix is cancelled.
append-injective : (w s t : Text) → w ++ s ≡ w ++ t → s ≡ t
append-injective w s t e =
    some-injective s t
      (sym (strip_prefix-append w s) ∙ ap (strip_prefix w) e ∙ strip_prefix-append w t)

pub desired-resource :
    (digest : Digest) (s : ExternalMonitorSource) (cr : ExternalMonitor)
    (d : DesiredExternalMonitor)
    → from_external_monitor digest s (some cr) ≡ ok d
    → d.resource ≡ codes "externalmonitor/" ++ namespaced cr
unfolding unhashed
desired-resource digest s cr d e =
    ap (λ (x : DesiredExternalMonitor). x.resource)
      (from_external_monitor-Made digest s cr d e).whole

module _ (digest : Digest) (s s' : ExternalMonitorSource) (cr cr' : ExternalMonitor)
    (d d' : DesiredExternalMonitor) where
  -- Two resources whose name spaces hold no slash and whose desired states name the same resource
  -- have the same name space and name.
  pub from_external_monitor-injective :
      IsNamespace cr.namespace
      → IsNamespace cr'.namespace
      → from_external_monitor digest s (some cr) ≡ ok d
      → from_external_monitor digest s' (some cr') ≡ ok d'
      → d.resource ≡ d'.resource
      → (cr.namespace ≡ cr'.namespace) × (cr.name ≡ cr'.name)
  from_external_monitor-injective h h' e e' same =
      slash-injective cr.namespace cr'.namespace cr.name cr'.name h h' (
        append-injective (codes "externalmonitor/") _ _
          (sym (desired-resource digest s cr d e) ∙ same ∙ desired-resource digest s' cr' d' e'))
