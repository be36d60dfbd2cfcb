-- ===== src/Source/HeaderOrder.antt =====
-- The order in which a resource declares its headers has no effect on the desired state.
use mathlib.Core.Logic.{∥∥₁_elim}
use mathlib.Core.List.{Mem, Perm, Pairwise, forall_mem-cons, not-mem-nil}
use native.Mathlib.Nat.{ℕ_set}
use mackerel_operator.Prelude.{
  ◌≡◌, ◌≢◌, refl, sym, ap, ◌∙◌, subst, All, All-append, Option, none, some, List, [], ◌∷◌, ◌++◌,
  Text, arith,
}
use mackerel_operator.Prelude.Order.{
  compare_text-eq, compare_text-IsWeakOrder, IsWeakOrder, Separated, Separated-prop, sort,
  sort-eq_of_perm,
}
use mackerel_operator.Prelude.Outcome.{ok, err, ◌>>=◌, >>=-eq-ok}
use mackerel_operator.Api
use mackerel_operator.Api.{ExternalMonitor}
use mackerel_operator.Monitor
use mackerel_operator.Monitor.{DesiredExternalMonitor}
use mackerel_operator.Monitor.Hash.{Digest}
use mackerel_operator.Planner.Headers.{HeaderField-set}
use mackerel_operator.Source.{
  ExternalMonitorSource, Result, kept_header, compare_names, sorted_headers, from_external_monitor,
}
use mackerel_operator.Source.Headers.{gather, gather_round, collect-gather, gather-permᴰ}

-- No two declared headers have one name, as the list-map of the resource's schema demands.
abbrev pub DistinctNames : List Api.HeaderField → Type 0
DistinctNames [] = Unit {0}
DistinctNames (h ∷ hs) = All (λ k. h.name ≢ k.name) hs × DistinctNames hs

abbrev Sortable : List Monitor.HeaderField → Type 0
Sortable = Pairwise (Separated compare_names)

kept-other :
    (name other : Text) (v : Option Text)
    → other ≢ name
    → All (λ (x : Monitor.HeaderField). other ≢ x.name) (kept_header name v)
unfolding kept_header
kept-other name other none h = tt
kept-other name other (some v) h = (h, tt)

gather-other :
    (s : ExternalMonitorSource) (other : Text) (hs : List Api.HeaderField)
    (xs : List Monitor.HeaderField)
    → All (λ (h : Api.HeaderField). other ≢ h.name) hs
    → gather s hs ≡ ok xs
    → All (λ (x : Monitor.HeaderField). other ≢ x.name) xs
unfolding gather
gather-other s other [] xs h e = ground arith
gather-other s other (h ∷ hs) xs (new, news) e =
    let g = gather_round s h hs e in
    subst (All (λ x. other ≢ x.name)) g.whole (
      All-append _ (kept_header h.name g.value) g.rest (kept-other h.name other g.value new)
        (gather-other s other hs g.rest news g.others))

compare_names-IsWeakOrder : IsWeakOrder compare_names
unfolding compare_names
compare_names-IsWeakOrder = record {
  swap = λ a b. compare_text-IsWeakOrder.swap a.name b.name;
  trans = λ a b c. compare_text-IsWeakOrder.trans a.name b.name c.name;
  same = λ a b c. compare_text-IsWeakOrder.same a.name b.name c.name;
}

named_apart : (a b : Monitor.HeaderField) → a.name ≢ b.name → Separated compare_names a b
unfolding compare_names
named_apart a b h e = absurd (h (compare_text-eq a.name b.name e))

All-Separated :
    (a : Monitor.HeaderField) (xs : List Monitor.HeaderField)
    → All (λ (x : Monitor.HeaderField). a.name ≢ x.name) xs
    → (x : Monitor.HeaderField) → Mem x xs
    → Separated compare_names a x
All-Separated a [] h = λ x m. absurd (not-mem-nil m)
All-Separated a (b ∷ xs) (hb, hs) =
    (forall_mem-cons (Separated-prop compare_names compare_names-IsWeakOrder HeaderField-set a)).1
      (named_apart a b hb, All-Separated a xs hs)

kept-Sortable :
    (name : Text) (v : Option Text) (rest : List Monitor.HeaderField)
    → All (λ (x : Monitor.HeaderField). name ≢ x.name) rest
    → Sortable rest
    → Sortable (kept_header name v ++ rest)
unfolding kept_header
kept-Sortable name none rest h p = p
kept-Sortable name (some v) rest h p =
    Pairwise.cons (All-Separated (record { name = name; value = v }) rest h) p

gather-DistinctNames :
    (s : ExternalMonitorSource) (hs : List Api.HeaderField) (xs : List Monitor.HeaderField)
    → DistinctNames hs
    → gather s hs ≡ ok xs
    → Sortable xs
unfolding gather
gather-DistinctNames s [] xs h e = subst Sortable (sorted_nil xs e) Pairwise.nil
  where
    sorted_nil :
        (xs : List Monitor.HeaderField)
        → ◌≡◌ {A = Result (List Monitor.HeaderField)} (ok []) (ok xs)
        → [] ≡ xs
    sorted_nil xs e = ground arith
gather-DistinctNames s (h ∷ hs) xs (new, distinct) e =
    let g = gather_round s h hs e in
    subst Sortable g.whole (
      kept-Sortable h.name g.value g.rest (gather-other s h.name hs g.rest new g.others)
        (gather-DistinctNames s hs g.rest distinct g.others))

abbrev sorted_result :
    Result (List Monitor.HeaderField) → Result (Option (List Monitor.HeaderField))
sorted_result r = r >>= λ xs. ok (some (sort compare_names xs))

sorted-gather :
    (s : ExternalMonitorSource) (hs : List Api.HeaderField)
    → sorted_headers s (some hs) ≡ sorted_result (gather s hs)
unfolding sorted_headers
sorted-gather s hs = ap sorted_result (collect-gather s hs []) ∙ regroup (gather s hs)
  where
    regroup :
        (r : Result (List Monitor.HeaderField))
        → sorted_result (r >>= λ rest. ok ([] ++ rest)) ≡ sorted_result r
    regroup (ok xs) = refl
    regroup (err e) = refl

Result-set : IsSet (Result (Option (List Monitor.HeaderField)))
Result-set = hlevel (HeaderField-set, ℕ_set)

-- If `sortedHeaders` succeeds on headers with distinct names, it returns the same list for any
-- rearrangement of them.
pub sorted_headers-perm :
    (s : ExternalMonitorSource) (hs ks : List Api.HeaderField)
    (out : Option (List Monitor.HeaderField))
    → DistinctNames hs
    → Perm hs ks
    → sorted_headers s (some hs) ≡ ok out
    → sorted_headers s (some ks) ≡ ok out
sorted_headers-perm s hs ks out distinct p e = ∥∥₁_elim p (Result-set _ _) λ d.
    let (xs, made, sorted) = >>=-eq-ok (gather s hs) _ (sym (sorted-gather s hs) ∙ e) in
    let (ys, made', q) = gather-permᴰ s d made in
    let same =
      sort-eq_of_perm compare_names compare_names-IsWeakOrder HeaderField-set
        (gather-DistinctNames s hs xs distinct made) q in
    sorted-gather s ks ∙ ap sorted_result made' ∙ ap (λ l. ok (some l)) (sym same) ∙ sorted

-- The resource with these headers.
abbrev pub with_headers : ExternalMonitor → List Api.HeaderField → ExternalMonitor
with_headers cr hs = record cr { spec = record cr.spec { headers = some hs } }

-- If a resource with distinctly named headers has a desired state, the resource with these headers
-- in another order has the same desired state, its hash included.
pub from_external_monitor-perm :
    (digest : Digest) (s : ExternalMonitorSource) (cr : ExternalMonitor)
    (hs ks : List Api.HeaderField) (d : DesiredExternalMonitor)
    → DistinctNames hs
    → Perm hs ks
    → from_external_monitor digest s (some (with_headers cr hs)) ≡ ok d
    → from_external_monitor digest s (some (with_headers cr ks)) ≡ ok d
unfolding from_external_monitor
from_external_monitor-perm digest s cr hs ks d distinct p e =
    let (out, made, rest) = >>=-eq-ok (sorted_headers s (some hs)) _ e in
    rw (sorted_headers-perm s hs ks out distinct p made) rest
