-- ===== src/Controller/Find/Laws.antt =====
-- What `findActual` finds in the list of monitors.
use mathlib.Core.List.{Mem, Memᴰ}
use mathlib.Core.Option.{some-injective}
use mackerel_operator.Prelude.{
  ◌≡◌, ◌≢◌, ◌⊎◌, sym, subst, ◌∙◌, inl, inr, refl, true, false, Option, none, some, List, [], ◌∷◌,
  ◌==◌, ==_iff, nat_eq, list_eq, Bool-cases, All, arith,
}
use mackerel_operator.Prelude.Outcome.{ok, err, ok-injective}
use mackerel_operator.Monitor.{DesiredExternalMonitor, ActualExternalMonitor}
use mackerel_operator.Ownership.Marker.{Marker, parse_marker}
use mackerel_operator.Planner.Decisions.{IsOwned}
use mackerel_operator.Controller.Settings.{ambiguous_external_monitor}
use mackerel_operator.Controller.Find.{marks, scan_actuals}

module _ (d : DesiredExternalMonitor) where
  -- A monitor that the scan has to do with: owned, or of the desired name.
  abbrev pub IsCandidate : ActualExternalMonitor → Type 0
  IsCandidate a = IsOwned d.owner d.resource a.memo ⊎ (a.name ≡ d.name)

  marks-IsOwned :
      (a : ActualExternalMonitor) (o : Option Marker)
      → parse_marker a.memo ≡ o
      → marks d o ≡ true
      → IsOwned d.owner d.resource a.memo
  unfolding marks
  marks-IsOwned a none e h = absurd (cc)
  marks-IsOwned a (some m) e h = record {
    marker = m;
    parsed = e;
    same_owner = ground (arith, ==_iff m.owner d.owner);
    same_resource = ground (arith, ==_iff m.resource d.resource);
  }

  IsOwned-marks :
      (a : ActualExternalMonitor)
      → IsOwned d.owner d.resource a.memo
      → marks d (parse_marker a.memo) ≡ true
  unfolding marks
  IsOwned-marks a o = rw o.parsed (rw ((==_iff _ _).1 o.same_owner, (==_iff _ _).1 o.same_resource))

  -- The four ways in which the loop goes on.
  module _ (x : ActualExternalMonitor) (l : List ActualExternalMonitor) where
    scan_owned :
        (name_match : Option ActualExternalMonitor)
        → marks d (parse_marker x.memo) ≡ true
        → scan_actuals d (x ∷ l) name_match ≡ ok (some x)
    unfolding scan_actuals
    scan_owned name_match own = rw own

    scan_other :
        (name_match : Option ActualExternalMonitor)
        → marks d (parse_marker x.memo) ≡ false
        → (x.name == d.name) ≡ false
        → scan_actuals d (x ∷ l) name_match ≡ scan_actuals d l name_match
    unfolding scan_actuals
    scan_other name_match own named = rw (own, named)

    scan_named :
        marks d (parse_marker x.memo) ≡ false
        → (x.name == d.name) ≡ true
        → scan_actuals d (x ∷ l) none ≡ scan_actuals d l (some x)
    unfolding scan_actuals
    scan_named own named = rw (own, named)

    scan_again :
        (m : ActualExternalMonitor)
        → marks d (parse_marker x.memo) ≡ false
        → (x.name == d.name) ≡ true
        → scan_actuals d (x ∷ l) (some m) ≡ err ambiguous_external_monitor
    unfolding scan_actuals
    scan_again m own named = rw (own, named)

  abbrev pub Found :
      List ActualExternalMonitor → Option ActualExternalMonitor → ActualExternalMonitor → Type 0
  Found l name_match a = (Memᴰ a l × IsCandidate a) ⊎ (name_match ≡ some a)

  later :
      (x : ActualExternalMonitor) {l : List ActualExternalMonitor}
      {nm : Option ActualExternalMonitor} {a : ActualExternalMonitor}
      → Found l nm a
      → Found (x ∷ l) nm a
  later x (inl (m, c)) = inl (Memᴰ.tail m, c)
  later x (inr e) = inr e

  first_named :
      (x : ActualExternalMonitor) {l : List ActualExternalMonitor} {a : ActualExternalMonitor}
      → x.name ≡ d.name
      → Found l (some x) a
      → Found (x ∷ l) none a
  first_named x named (inl (m, c)) = inl (Memᴰ.tail m, c)
  first_named x {l} named (inr e) = inl (
      subst (λ y. Memᴰ y (x ∷ l) × IsCandidate y) (some-injective _ _ e)
        (Memᴰ.head refl, inr named))

  named-Found :
      (x : ActualExternalMonitor) (l : List ActualExternalMonitor)
      (name_match : Option ActualExternalMonitor) (a : ActualExternalMonitor)
      → marks d (parse_marker x.memo) ≡ false
      → (x.name == d.name) ≡ true
      → scan_actuals d (x ∷ l) name_match ≡ ok (some a)
      → (scan_actuals d l (some x) ≡ ok (some a) → Found l (some x) a)
      → Found (x ∷ l) name_match a
  named-Found x l none a own named h ih =
      first_named x ((==_iff _ _).0 named) (ih (sym (scan_named x l own named) ∙ h))
  named-Found x l (some m) a own named h ih = absurd (cc (scan_again x l m own named))

  pub scan-Found :
      (l : List ActualExternalMonitor) (name_match : Option ActualExternalMonitor)
      (a : ActualExternalMonitor)
      → scan_actuals d l name_match ≡ ok (some a)
      → Found l name_match a
  scan-Found [] name_match a h = inr (unfold scan_actuals in ground arith)
  scan-Found (x ∷ l) name_match a h = elim (Bool-cases (marks d (parse_marker x.memo))) [
    | inl own ↦ inl (
        subst (λ y. Memᴰ y (x ∷ l) × IsCandidate y)
          (some-injective x a (ok-injective (sym (scan_owned x l name_match own) ∙ h)))
          (Memᴰ.head refl, inl (marks-IsOwned x _ refl own)))
    | inr own ↦ elim (Bool-cases (x.name == d.name)) [
      | inl named ↦ named-Found x l name_match a own named h (scan-Found l (some x) a)
      | inr named ↦
          later x (scan-Found l name_match a (sym (scan_other x l name_match own named) ∙ h))
    ]
  ]

  -- A monitor that the scan of the list returns is in the list, and is owned or has the desired
  -- name.
  pub scan_actuals-Mem :
      (l : List ActualExternalMonitor) (a : ActualExternalMonitor)
      → scan_actuals d l none ≡ ok (some a)
      → Mem a l × IsCandidate a
  scan_actuals-Mem l a h = elim (scan-Found l none a h) [
    | inl (m, c) ↦ (∣ m ∣₁, c)
    | inr e ↦ absurd (cc)
  ]

  -- A name that matches is kept for the rest of the scan, or ends it.
  scan_resumed :
      (x : ActualExternalMonitor) (l : List ActualExternalMonitor)
      (name_match : Option ActualExternalMonitor) (a : ActualExternalMonitor)
      → marks d (parse_marker x.memo) ≡ false
      → (x.name == d.name) ≡ true
      → scan_actuals d (x ∷ l) name_match ≡ ok (some a)
      → scan_actuals d l (some x) ≡ ok (some a)
  scan_resumed x l none a own named h = sym (scan_named x l own named) ∙ h
  scan_resumed x l (some m) a own named h = absurd (cc (scan_again x l m own named))

  later-IsOwned :
      (x : ActualExternalMonitor) (l : List ActualExternalMonitor) (a : ActualExternalMonitor)
      → marks d (parse_marker x.memo) ≡ false
      → IsOwned d.owner d.resource a.memo ⊎ All (λ y. ¬ IsOwned d.owner d.resource y.memo) l
      → IsOwned d.owner d.resource a.memo ⊎ All (λ y. ¬ IsOwned d.owner d.resource y.memo) (x ∷ l)
  later-IsOwned x l a own (inl o) = inl o
  later-IsOwned x l a own (inr all) = inr (λ o. cc (IsOwned-marks x o), all)

  -- If the scan of the list returns a monitor that is not owned, none in the list is owned.
  pub scan-IsOwned :
      (l : List ActualExternalMonitor) (name_match : Option ActualExternalMonitor)
      (a : ActualExternalMonitor)
      → scan_actuals d l name_match ≡ ok (some a)
      → IsOwned d.owner d.resource a.memo ⊎ All (λ x. ¬ IsOwned d.owner d.resource x.memo) l
  scan-IsOwned [] name_match a h = inr tt
  scan-IsOwned (x ∷ l) name_match a h = elim (Bool-cases (marks d (parse_marker x.memo))) [
    | inl own ↦ inl (
        subst (λ y. IsOwned d.owner d.resource y.memo)
          (some-injective x a (ok-injective (sym (scan_owned x l name_match own) ∙ h)))
          (marks-IsOwned x _ refl own))
    | inr own ↦ elim (Bool-cases (x.name == d.name)) [
      | inl named ↦
          later-IsOwned x l a own
            (scan-IsOwned l (some x) a (scan_resumed x l name_match a own named h))
      | inr named ↦
          later-IsOwned x l a own
            (scan-IsOwned l name_match a (sym (scan_other x l name_match own named) ∙ h))
    ]
  ]

  scan_kept :
      (l : List ActualExternalMonitor) (m : ActualExternalMonitor)
      → scan_actuals d l (some m) ≢ ok none
  scan_kept [] m h = unfold scan_actuals in cc
  scan_kept (x ∷ l) m h = elim (Bool-cases (marks d (parse_marker x.memo))) [
    | inl own ↦ cc (scan_owned x l (some m) own)
    | inr own ↦ elim (Bool-cases (x.name == d.name)) [
      | inl named ↦ cc (scan_again x l m own named)
      | inr named ↦ scan_kept l m (sym (scan_other x l (some m) own named) ∙ h)
    ]
  ]

  -- If the scan of the list finds no monitor, none in the list is owned or has the desired name.
  pub scan_actuals-none :
      (l : List ActualExternalMonitor)
      → scan_actuals d l none ≡ ok none
      → All (λ a. ¬ IsCandidate a) l
  scan_actuals-none [] h = tt
  scan_actuals-none (x ∷ l) h = elim (Bool-cases (marks d (parse_marker x.memo))) [
    | inl own ↦ absurd (cc (scan_owned x l none own))
    | inr own ↦ elim (Bool-cases (x.name == d.name)) [
      | inl named ↦ absurd (scan_kept l x (sym (scan_named x l own named) ∙ h))
      | inr named ↦ (
        λ c. elim c [ inl o ↦ cc (IsOwned-marks x o) | inr e ↦ cc ((==_iff x.name d.name).1 e) ],
        scan_actuals-none l (sym (scan_other x l none own named) ∙ h),
      )
    ]
  ]

  -- Where none is owned or has the desired name, the scan finds none.
  pub scan_actuals-free :
      (l : List ActualExternalMonitor)
      → All (λ a. ¬ IsCandidate a) l
      → scan_actuals d l none ≡ ok none
  unfolding scan_actuals
  scan_actuals-free [] h = refl
  scan_actuals-free (x ∷ l) (h, hs) = elim (Bool-cases (marks d (parse_marker x.memo))) [
    | inl own ↦ absurd (h (inl (marks-IsOwned x (parse_marker x.memo) refl own)))
    | inr own ↦ elim (Bool-cases (x.name == d.name)) [
      | inl named ↦ absurd (h (inr ((==_iff x.name d.name).0 named)))
      | inr named ↦ scan_other x l none own named ∙ scan_actuals-free l hs
    ]
  ]
