-- ===== src/Planner/Headers.antt =====
-- `headersMatch` compares headers without regard to their order.
use mathlib.Core.Logic.{∥∥₁_elim}
use mathlib.Core.List.{Perm, Permᴰ, Pairwise-of_forall}
use mathlib.Core.List.Perm
use native.Mathlib.Nat.{ℕ_set}
use mackerel_operator.Prelude.{
  suc, ◌≡◌, ◌↔◌, refl, sym, ap, ◌∙◌, subst, true, List, Ordering, list_beq_iff, nat_eq, list_eq,
  length, arith,
}
use mackerel_operator.Prelude.Order.{
  compare_text-eq, compare_text-IsWeakOrder, swapped, IsWeakOrder, sort, sort-perm, sort-eq_of_perm,
}
use mackerel_operator.Monitor.{HeaderField, header_eq}
use mackerel_operator.Planner.{by_name, headers_match}

by_name-swap : (a b : HeaderField) → by_name b a ≡ swapped (by_name a b)
unfolding by_name
by_name-swap a b = ground (
  arith,
  compare_text-IsWeakOrder.swap a.name b.name,
  compare_text-IsWeakOrder.swap a.value b.value,
)

-- Headers that compare as equal are equal: the order is total.
by_name-eq : (a b : HeaderField) → by_name a b ≡ Ordering.eq → a ≡ b
unfolding by_name
by_name-eq a b h = ground (arith, compare_text-eq a.name b.name, compare_text-eq a.value b.value)

by_name_trans :
    (a b c : HeaderField)
    → by_name a b ≡ Ordering.lt
    → by_name b c ≡ Ordering.lt
    → by_name a c ≡ Ordering.lt
unfolding by_name
by_name_trans a b c h k = ground (
  arith,
  compare_text-IsWeakOrder.trans a.name b.name c.name,
  compare_text-IsWeakOrder.trans a.value b.value c.value,
  compare_text-eq a.name b.name,
  compare_text-eq b.name c.name,
)

by_name-IsWeakOrder : IsWeakOrder by_name
by_name-IsWeakOrder = record {
  swap = by_name-swap;
  trans = by_name_trans;
  same = λ a b c h. ap (λ d. by_name d c) (by_name-eq a b h);
}

pub HeaderField-set : IsSet HeaderField
HeaderField-set = hlevel ℕ_set

length-permᴰ : {l r : List HeaderField} → Permᴰ l r → length l ≡ length r
length-permᴰ Permᴰ.nil = refl
length-permᴰ (Permᴰ.cons e p) = ap suc (length-permᴰ p)
length-permᴰ (Permᴰ.swap e f) = refl
length-permᴰ (Permᴰ.trans p q) = length-permᴰ p ∙ length-permᴰ q

length-perm : {l r : List HeaderField} → Perm l r → length l ≡ length r
length-perm p = ∥∥₁_elim p (ℕ_set _ _) length-permᴰ

module _ (desired actual : List HeaderField) where
  match_sorted : headers_match desired actual ≡ true → sort by_name desired ≡ sort by_name actual
  unfolding headers_match
  match_sorted h = ground (arith, list_beq_iff (sort by_name desired) (sort by_name actual))

  sorted_match :
      length desired ≡ length actual
      → sort by_name desired ≡ sort by_name actual
      → headers_match desired actual ≡ true
  unfolding headers_match
  sorted_match hl hs = ground (arith, list_beq_iff (sort by_name desired) (sort by_name actual))

  -- `headersMatch` holds exactly when one list is a rearrangement of the other.
  pub headers_match_iff_perm : (headers_match desired actual ≡ true) ↔ Perm desired actual
  headers_match_iff_perm = (
    λ h.
        Perm.trans (Perm.symm (sort-perm by_name desired))
          (subst (λ l. Perm l actual) (sym (match_sorted h)) (sort-perm by_name actual)),
    λ p. sorted_match (length-perm p) (
        sort-eq_of_perm by_name by_name-IsWeakOrder HeaderField-set
          (Pairwise-of_forall (λ a b. by_name-eq a b)) p),
  )
