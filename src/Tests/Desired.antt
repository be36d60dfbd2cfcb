-- ===== src/Tests/Desired.antt =====
-- The theorems on the desired state and its hash at a concrete resource.
use mathlib.Core.List.{Perm}
use mathlib.Core.List.Perm
use mackerel_operator.Prelude.{
  ℕ, ◌≡◌, ◌≤◌, ◌↔◌, refl, some, [], ◌∷◌, ◌++◌, Text, codes, length, All,
}
use mackerel_operator.Prelude.Int.{pos}
use mackerel_operator.Prelude.Outcome.{ok, err}
use mackerel_operator.Monitor.{DesiredExternalMonitor}
use mackerel_operator.Monitor.Hash.{hash_desired, marshalled_hash}
use mackerel_operator.Monitor.Hash.Laws.{IsHexDigit, hash_desired-ok, hash_desired_iff}
use mackerel_operator.Prelude.Order.{sort, compare_text}
use mackerel_operator.Source.{header_value, compare_names, sorted_headers, from_external_monitor}
use mackerel_operator.Source.HeaderOrder.{DistinctNames, with_headers, from_external_monitor-perm}
use mackerel_operator.Source.Identity.{IsNamespace, from_external_monitor-injective}
use mackerel_operator.Tests.Instances.{sample_digest}
use mackerel_operator.Tests.Samples.{shop, shop_desired, accept_header, env_header, shop_source}

-- Two headers with distinct names, in the two orders.
distinct-names : DistinctNames (env_header ∷ accept_header ∷ [])
distinct-names = ((λ e. cc, tt), (tt, tt))

swapped-Perm : Perm (env_header ∷ accept_header ∷ []) (accept_header ∷ env_header ∷ [])
swapped-Perm = Perm.swap accept_header env_header []

unfoldable pub made_desired : DesiredExternalMonitor
unfolding from_external_monitor sorted_headers header_value sort compare_names compare_text
    hash_desired marshalled_hash
made_desired = elim (from_external_monitor sample_digest shop_source (some shop)) [
  | ok d ↦ d
  | err e ↦ shop_desired
]

pub made-desired :
    from_external_monitor sample_digest shop_source
      (some (with_headers shop (env_header ∷ accept_header ∷ [])))
    ≡ ok made_desired
unfolding made_desired
made-desired = refl

from_external_monitor-perm_example :
    from_external_monitor sample_digest shop_source
      (some (with_headers shop (accept_header ∷ env_header ∷ [])))
    ≡ ok made_desired
from_external_monitor-perm_example =
    from_external_monitor-perm sample_digest shop_source shop (env_header ∷ accept_header ∷ [])
      (accept_header ∷ env_header ∷ []) made_desired distinct-names swapped-Perm made-desired

made-hash : hash_desired sample_digest shop_desired (pos 7) ≡ ok (codes "1f1f1f1")
unfolding hash_desired marshalled_hash
made-hash = refl

hash_desired-ok_example :
    (m : ℕ) × (pos 7 ≡ pos m)
    × (1 ≤ m)
    × (m ≤ 64)
    × (length (codes "1f1f1f1") ≡ m)
    × All IsHexDigit (codes "1f1f1f1")
hash_desired-ok_example =
    hash_desired-ok sample_digest shop_desired (pos 7) (codes "1f1f1f1") made-hash

hash_desired_iff_example :
    ((h : Text) × (hash_desired sample_digest shop_desired (pos 7) ≡ ok h))
    ↔ ((m : ℕ) × (pos 7 ≡ pos m) × (1 ≤ m) × (m ≤ 64))
hash_desired_iff_example =
    hash_desired_iff sample_digest shop_desired (pos 7) (shop_desired.name ++ shop_desired.url) refl

slash_free : IsNamespace shop.namespace
slash_free = (λ e. cc, (λ e. cc, (λ e. cc, (λ e. cc, tt))))

from_external_monitor-injective_example :
    (shop.namespace ≡ shop.namespace) × (shop.name ≡ shop.name)
from_external_monitor-injective_example =
    from_external_monitor-injective sample_digest shop_source shop_source shop
      (with_headers shop (env_header ∷ accept_header ∷ [])) made_desired made_desired slash_free
      slash_free made-desired made-desired refl
