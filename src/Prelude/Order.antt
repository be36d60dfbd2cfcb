-- ===== src/Prelude/Order.antt =====
-- Comparison functions and the sorts of Go's `slices` package that take them. A sort is written
-- as the stable insertion sort: the result of a stable sort is unique, and so is that of any sort
-- by a total order.
use Prim.Native.Nat.{compare, Ordering}
use mathlib.Core.Path.{◌≡◌, refl, ap, ap₂, ◌∙◌, sym}
use mathlib.Core.Logic.{∥∥₁_elim}
use mathlib.Core.List.{List, [], ◌∷◌, Perm, Permᴰ, Pairwise, mem-cons_self}
use mathlib.Core.List.Perm
use mathlib.Core.List.Permᴰ
use native.Mathlib.Omega.{arith}
use mackerel_operator.Prelude.Strings.{Text}

abbrev pub swapped : Ordering → Ordering
swapped Ordering.lt = Ordering.gt
swapped Ordering.eq = Ordering.eq
swapped Ordering.gt = Ordering.lt

-- `strings.Compare`: lexicographic by bytes.
unfoldable pub compare_text : Text → Text → Ordering
compare_text [] [] = Ordering.eq
compare_text [] (b ∷ bs) = Ordering.lt
compare_text (a ∷ as') [] = Ordering.gt
compare_text (a ∷ as') (b ∷ bs) =
    let rest = compare_text as' bs in elim (compare a b) [ Ordering.eq ↦ rest | other ↦ other ]

-- The laws that Go asks of a comparison function: a weak order.
pub record IsWeakOrder {ℓ} {A : Type ℓ} (cmp : A → A → Ordering) : Type ℓ where
  pub swap : (a b : A) → cmp b a ≡ swapped (cmp a b)
  pub trans : (a b c : A) → cmp a b ≡ Ordering.lt → cmp b c ≡ Ordering.lt → cmp a c ≡ Ordering.lt
  pub same : (a b c : A) → cmp a b ≡ Ordering.eq → cmp a c ≡ cmp b c

compare_text-swap : (s t : Text) → compare_text t s ≡ swapped (compare_text s t)
unfolding compare_text
compare_text-swap [] [] = refl
compare_text-swap [] (b ∷ bs) = refl
compare_text-swap (a ∷ s) [] = refl
compare_text-swap (a ∷ s) (b ∷ t) = ground (arith, compare_text-swap s t)

-- Texts that compare as equal are equal.
pub compare_text-eq : (s t : Text) → compare_text s t ≡ Ordering.eq → s ≡ t
unfolding compare_text
compare_text-eq [] [] h = refl
compare_text-eq [] (b ∷ t) h = cc
compare_text-eq (a ∷ s) [] h = cc
compare_text-eq (a ∷ s) (b ∷ t) h = ground (arith, compare_text-eq s t)

compare_text_trans :
    (s t u : Text)
    → compare_text s t ≡ Ordering.lt
    → compare_text t u ≡ Ordering.lt
    → compare_text s u ≡ Ordering.lt
unfolding compare_text
compare_text_trans [] [] u h k = cc
compare_text_trans [] (b ∷ t) [] h k = cc
compare_text_trans [] (b ∷ t) (c ∷ u) h k = refl
compare_text_trans (a ∷ s) [] u h k = cc
compare_text_trans (a ∷ s) (b ∷ t) [] h k = cc
compare_text_trans (a ∷ s) (b ∷ t) (c ∷ u) h k = ground (arith, compare_text_trans s t u)

pub compare_text-IsWeakOrder : IsWeakOrder compare_text
compare_text-IsWeakOrder = record {
  swap = compare_text-swap;
  trans = compare_text_trans;
  same = λ a b c h. ap (λ t. compare_text t c) (compare_text-eq a b h);
}

module _ {ℓ} {A : Type ℓ} (cmp : A → A → Ordering) where
  -- `x` goes in front of the first element that is not smaller.
  unfoldable pub insert : A → List A → List A
  insert x [] = x ∷ []
  insert x (y ∷ ys) =
      let later = y ∷ insert x ys in elim (cmp y x) [ Ordering.lt ↦ later | _ ↦ x ∷ y ∷ ys ]

  -- `slices.SortStableFunc`, and `slices.SortFunc` for a total order.
  unfoldable pub sort : List A → List A
  unfolding insert
  sort [] = []
  sort (x ∷ xs) = insert x (sort xs)

  pub insert-perm : (x : A) (l : List A) → Perm (insert x l) (x ∷ l)
  unfolding insert
  insert-perm x [] = Perm.rfl
  insert-perm x (y ∷ ys) =
      let behind = Perm.trans (Perm.cons y (insert-perm x ys)) (Perm.swap x y ys) in
      front (cmp y x) behind
    where
      front :
          (o : Ordering)
          → Perm (y ∷ insert x ys) (x ∷ y ∷ ys)
          → Perm (elim o [ Ordering.lt ↦ y ∷ insert x ys | _ ↦ x ∷ y ∷ ys ]) (x ∷ y ∷ ys)
      front Ordering.lt behind = behind
      front Ordering.eq behind = Perm.rfl
      front Ordering.gt behind = Perm.rfl

  -- A sort rearranges.
  pub sort-perm : (l : List A) → Perm (sort l) l
  unfolding sort
  sort-perm [] = Perm.rfl
  sort-perm (x ∷ xs) = Perm.trans (insert-perm x (sort xs)) (Perm.cons x (sort-perm xs))

module _ {ℓ} {A : Type ℓ} (cmp : A → A → Ordering) (weak : IsWeakOrder cmp) where
  -- Two elements that compare as equal only if they are equal may be inserted in either order.
  pub insert_comm :
      (x y : A)
      → (cmp x y ≡ Ordering.eq → x ≡ y)
      → (l : List A) → insert cmp x (insert cmp y l) ≡ insert cmp y (insert cmp x l)
  unfolding insert
  insert_comm x y strict [] = ground (arith, weak.swap x y)
  insert_comm x y strict (z ∷ l) = ground (
    arith,
    weak.swap x y,
    weak.swap z x,
    weak.swap z y,
    weak.trans z x y,
    weak.trans z y x,
    weak.same z x y,
    weak.same z y x,
    insert_comm x y strict l,
  )

module _ {ℓ} {A : Type ℓ} (cmp : A → A → Ordering) where
  -- `x` and `y` compare as equal only if they are equal.
  abbrev pub Separated : A → A → Type ℓ
  Separated x y = cmp x y ≡ Ordering.eq → x ≡ y

module _ {ℓ} {A : Type ℓ} (cmp : A → A → Ordering) (weak : IsWeakOrder cmp) (is_set : IsSet A) where
  pub Separated-prop : (x y : A) → IsProp (Separated cmp x y)
  Separated-prop x y = hlevel is_set

  List_set : IsSet (List A)
  List_set = hlevel is_set

  Separated-symm : (x y : A) → Separated cmp x y → Separated cmp y x
  Separated-symm x y h e = sym (h (ground (arith, weak.swap x y)))

  sort-permᴰ : {l r : List A} → Permᴰ l r → Pairwise (Separated cmp) l → sort cmp l ≡ sort cmp r
  unfolding sort
  sort-permᴰ Permᴰ.nil p = refl
  sort-permᴰ (Permᴰ.cons {l₁ = l} {l₂ = r} e q) (Pairwise.cons _ p) =
      ap₂ (insert cmp) e (sort-permᴰ q p)
  sort-permᴰ (Permᴰ.swap {a = a} {b = b} {l = l} e f) (Pairwise.cons below _) =
      insert_comm cmp weak a b (below b mem-cons_self) (sort cmp l)
      ∙ ap₂ (λ u v. insert cmp u (insert cmp v (sort cmp l))) f e
  sort-permᴰ (Permᴰ.trans q s) p =
      sort-permᴰ q p ∙ sort-permᴰ s (Permᴰ.pairwise Separated-prop Separated-symm q p)

  -- The order in which the elements are given does not matter to a sort, if elements that compare
  -- as equal are equal.
  pub sort-eq_of_perm :
      {l r : List A} → Pairwise (Separated cmp) l → Perm l r → sort cmp l ≡ sort cmp r
  sort-eq_of_perm p q = ∥∥₁_elim q (List_set _ _) (λ d. sort-permᴰ d p)
