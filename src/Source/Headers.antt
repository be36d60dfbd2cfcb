-- ===== src/Source/Headers.antt =====
-- What the loop of `sortedHeaders` collects, without its accumulator, and for a rearranged list.
use mathlib.Core.Path.{subst₂}
use mathlib.Core.List.{Perm, Permᴰ, perm_append_comm}
use mathlib.Core.List.Perm
use mackerel_operator.Prelude.{
  ◌≡◌, refl, ap, ◌∙◌, subst, Option, List, [], ◌∷◌, ◌++◌, append-nil, append_assoc, Text, arith,
}
use mackerel_operator.Prelude.Outcome.{ok, err, ◌>>=◌, >>=-eq-ok}
use mackerel_operator.Api
use mackerel_operator.Monitor
use mackerel_operator.Monitor.{DesiredExternalMonitor}
use mackerel_operator.Source.{
  ExternalMonitorSource, Result, header_value, kept_header, collect_headers,
}

-- The header that the loop appends for each declared one, without an accumulator.
unfoldable pub gather :
    ExternalMonitorSource → List Api.HeaderField → Result (List Monitor.HeaderField)
gather s [] = ok []
gather s (h ∷ hs) = do
  value ← header_value s h
  rest ← gather s hs
  ok (kept_header h.name value ++ rest)

-- One round, given what the rest of the loop does.
collect_round :
    (v : Result (Option Text)) (name : Text) (sorted : List Monitor.HeaderField)
    (loop : List Monitor.HeaderField → Result (List Monitor.HeaderField))
    (gathered : Result (List Monitor.HeaderField))
    → ((acc : List Monitor.HeaderField) → loop acc ≡ (do rest ← gathered; ok (acc ++ rest)))
    → (do value ← v; loop (sorted ++ kept_header name value)) ≡ (do
      rest ← (do value ← v; rest ← gathered; ok (kept_header name value ++ rest))
      ok (sorted ++ rest))
collect_round (err e) name sorted loop gathered ih = refl
collect_round (ok value) name sorted loop (err e) ih = ih (sorted ++ kept_header name value)
collect_round (ok value) name sorted loop (ok rest) ih =
    ih (sorted ++ kept_header name value)
    ∙ ap ok (append_assoc sorted (kept_header name value) rest)

pub collect-gather :
    (s : ExternalMonitorSource) (hs : List Api.HeaderField) (sorted : List Monitor.HeaderField)
    → collect_headers s hs sorted ≡ (do rest ← gather s hs; ok (sorted ++ rest))
unfolding collect_headers gather
collect-gather s [] sorted = rw append-nil
collect-gather s (h ∷ hs) sorted =
    collect_round (header_value s h) h.name sorted (collect_headers s hs) (gather s hs)
      (collect-gather s hs)

exchange {ℓ} : {A : Type ℓ} (a b rest : List A) → Perm (a ++ (b ++ rest)) (b ++ (a ++ rest))
exchange a b rest =
    subst₂ (λ l r. Perm l r) (append_assoc a b rest) (append_assoc b a rest)
      (Perm.append_right rest (perm_append_comm a b))

module _ (s : ExternalMonitorSource) where
  -- A round that succeeds.
  pub record Gathered (h : Api.HeaderField) (hs : List Api.HeaderField)
      (xs : List Monitor.HeaderField) : Type 0 where
    pub value : Option Text
    pub rest : List Monitor.HeaderField
    pub found : header_value s h ≡ ok value
    pub others : gather s hs ≡ ok rest
    pub whole : kept_header h.name value ++ rest ≡ xs

  pub gather_round :
      (h : Api.HeaderField) (hs : List Api.HeaderField) {xs : List Monitor.HeaderField}
      → gather s (h ∷ hs) ≡ ok xs
      → Gathered h hs xs
  unfolding gather
  gather_round h hs e =
      let (value, found, e) = >>=-eq-ok (header_value s h) _ e in
      let (rest, others, e) = >>=-eq-ok (gather s hs) _ e in
      record { value = value; rest = rest; found = found; others = others; whole = ground arith }

  gather_cons :
      (h : Api.HeaderField) (hs : List Api.HeaderField) {value : Option Text}
      {rest : List Monitor.HeaderField}
      → header_value s h ≡ ok value
      → gather s hs ≡ ok rest
      → gather s (h ∷ hs) ≡ ok (kept_header h.name value ++ rest)
  unfolding gather
  gather_cons h hs e f = rw (e, f)

  abbrev pub GathersPerm : List Api.HeaderField → List Monitor.HeaderField → Type 0
  GathersPerm hs xs = (ys : List Monitor.HeaderField) × (gather s hs ≡ ok ys) × Perm xs ys

  gathers_cons :
      (h : Api.HeaderField) (hs ks : List Api.HeaderField) (xs : List Monitor.HeaderField)
      (g : Gathered h hs xs)
      → GathersPerm ks g.rest
      → GathersPerm (h ∷ ks) xs
  gathers_cons h hs ks xs g (ys, made, q) = (
    kept_header h.name g.value ++ ys,
    gather_cons h ks g.found made,
    subst (λ l. Perm l (kept_header h.name g.value ++ ys)) g.whole
        (Perm.append_left (kept_header h.name g.value) q),
  )

  gathers_swap :
      (h k : Api.HeaderField) (hs : List Api.HeaderField) (xs : List Monitor.HeaderField)
      → gather s (h ∷ k ∷ hs) ≡ ok xs
      → GathersPerm (k ∷ h ∷ hs) xs
  gathers_swap h k hs xs m =
      let first = gather_round h (k ∷ hs) m in
      let second = gather_round k hs first.others in
      let a = kept_header h.name first.value in
      let b = kept_header k.name second.value in
      (
        b ++ (a ++ second.rest),
        gather_cons k (h ∷ hs) second.found (gather_cons h hs first.found second.others),
        subst (λ l. Perm l (b ++ (a ++ second.rest))) (ap (λ l. a ++ l) second.whole ∙ first.whole)
            (exchange a b second.rest),
      )

  pub gather-permᴰ :
      {hs ks : List Api.HeaderField} {xs : List Monitor.HeaderField}
      → Permᴰ hs ks
      → gather s hs ≡ ok xs
      → GathersPerm ks xs
  gather-permᴰ {xs = xs} Permᴰ.nil e = (xs, e, Perm.rfl)
  gather-permᴰ {xs = xs} (Permᴰ.cons {a = h} {l₁ = hs} {l₂ = ks} same p) e =
      let g = gather_round h hs e in
      subst (λ k. GathersPerm (k ∷ ks) xs) same
        (gathers_cons h hs ks xs g (gather-permᴰ p g.others))
  gather-permᴰ {xs = xs} (Permᴰ.swap {a = h} {b = k} {l = hs} e f) m =
      subst₂ (λ h k. GathersPerm (k ∷ h ∷ hs) xs) e f (gathers_swap h k hs xs m)
  gather-permᴰ (Permᴰ.trans p q) e =
      let (ys, made, r) = gather-permᴰ p e in
      let (zs, made', t) = gather-permᴰ q made in (zs, made', Perm.trans r t)
