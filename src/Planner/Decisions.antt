-- ===== src/Planner/Decisions.antt =====
-- When `Plan` decides for which action.
use mackerel_operator.Prelude.{
  ◌≡◌, ◌≢◌, ◌↔◌, ◌⊎◌, inl, inr, refl, ap, ◌∙◌, subst, true, false, ◌&&◌, ◌||◌, not, Option, none,
  some, Text, ◌==◌, ==_iff, nat_eq, list_eq, if◌then◌else◌, Bool-cases, Option-cases, arith,
}
use mackerel_operator.Monitor.{DesiredExternalMonitor, ActualExternalMonitor}
use mackerel_operator.Ownership.Marker.{Marker, parse_marker}
use mackerel_operator.Planner.{
  Action, create, update, noop, restore_marker, ownership_lost, plan, plan_marked,
  actual_matches_desired,
}
use mackerel_operator.Planner.Match.{Matches, actual_matches_desired_iff}

-- The marker in a memo names this owner and this resource.
pub record IsOwned (owner resource memo : Text) : Type 0 where
  pub marker : Marker
  pub parsed : parse_marker memo ≡ some marker
  pub same_owner : marker.owner ≡ owner
  pub same_resource : marker.resource ≡ resource

-- The marker in a memo names another owner or another resource.
pub record IsForeign (owner resource memo : Text) : Type 0 where
  pub marker : Marker
  pub parsed : parse_marker memo ≡ some marker
  pub other : (marker.owner ≢ owner) ⊎ (marker.resource ≢ resource)

-- The rules of the planner.
pub data Planned (d : DesiredExternalMonitor) : Option ActualExternalMonitor → Action → Type 0 where
  missing : Planned d none create
  adopted :
      (a : ActualExternalMonitor)
      → parse_marker a.memo ≡ none
      → Matches d a
      → Planned d (some a) restore_marker
  unmarked :
      (a : ActualExternalMonitor)
      → parse_marker a.memo ≡ none
      → ¬ Matches d a
      → Planned d (some a) ownership_lost
  foreign :
      (a : ActualExternalMonitor)
      → IsForeign d.owner d.resource a.memo
      → Planned d (some a) ownership_lost
  in_sync :
      (a : ActualExternalMonitor) (o : IsOwned d.owner d.resource a.memo)
      → o.marker.hash ≡ d.hash
      → Matches d a
      → Planned d (some a) noop
  drifted :
      (a : ActualExternalMonitor) (o : IsOwned d.owner d.resource a.memo)
      → ((o.marker.hash ≢ d.hash) ⊎ (¬ Matches d a))
      → Planned d (some a) update

abbrev planned_action : DesiredExternalMonitor → Option ActualExternalMonitor → Action
planned_action d a = (plan (record { desired = d; actual = a })).action

Matches-dec :
    (d : DesiredExternalMonitor) (a : ActualExternalMonitor)
    → ((actual_matches_desired d a ≡ true) × Matches d a)
      ⊎ ((actual_matches_desired d a ≡ false) × (¬ Matches d a))
Matches-dec d a = elim (Bool-cases (actual_matches_desired d a)) [
  | inl t ↦ inl (t, (actual_matches_desired_iff d a).0 t)
  | inr f ↦ inr (f, λ m. cc ((actual_matches_desired_iff d a).1 m))
]

-- How an owner and a resource compare with those of a marker.
Owner-dec :
    (owner resource : Text) (m : Marker)
    → (((m.owner == owner) ≡ true)
        × ((m.resource == resource) ≡ true)
        × (m.owner ≡ owner)
        × (m.resource ≡ resource))
      ⊎ (((not (m.owner == owner) || not (m.resource == resource)) ≡ true)
          × ((m.owner ≢ owner) ⊎ (m.resource ≢ resource)))
Owner-dec owner resource m = elim (Bool-cases (m.owner == owner)) [
  | inl p ↦ elim (Bool-cases (m.resource == resource)) [
    | inl q ↦ inl (p, q, (==_iff _ _).0 p, (==_iff _ _).0 q)
    | inr q ↦ inr (rw (p, q), inr (λ e. cc ((==_iff m.resource resource).1 e)))
  ]
  | inr p ↦ inr (rw p, inl (λ e. cc ((==_iff m.owner owner).1 e)))
]

module _ (d : DesiredExternalMonitor) (a : ActualExternalMonitor) where
  plan-parsed :
      (o : Option Marker)
      → parse_marker a.memo ≡ o
      → planned_action d (some a) ≡ (plan_marked d a o).action
  unfolding plan
  plan-parsed o e = ap (λ found. (plan_marked d a found).action) e

  unmarked-Planned : parse_marker a.memo ≡ none → Planned d (some a) (planned_action d (some a))
  unfolding plan_marked
  unmarked-Planned e = elim (Matches-dec d a) [
    | inl (t, m) ↦ rw (plan-parsed none e, t) (adopted a e m)
    | inr (f, n) ↦ rw (plan-parsed none e, f) (unmarked a e n)
  ]

  owned-Planned :
      (o : IsOwned d.owner d.resource a.memo)
      → (o.marker.owner == d.owner) ≡ true
      → (o.marker.resource == d.resource) ≡ true
      → Planned d (some a) (planned_action d (some a))
  unfolding plan_marked
  owned-Planned o p q = elim (Bool-cases (o.marker.hash == d.hash)) [
    | inl r ↦ elim (Matches-dec d a) [
      | inl (t, m) ↦
          rw (plan-parsed (some o.marker) o.parsed, p, q, r, t) (in_sync a o ((==_iff _ _).0 r) m)
      | inr (f, n) ↦ rw (plan-parsed (some o.marker) o.parsed, p, q, r, f) (drifted a o (inr n))
    ]
    | inr r ↦
        rw (plan-parsed (some o.marker) o.parsed, p, q, r)
          (drifted a o (inl (λ e. cc ((==_iff o.marker.hash d.hash).1 e))))
  ]

  marked-Planned :
      (m : Marker) → parse_marker a.memo ≡ some m → Planned d (some a) (planned_action d (some a))
  unfolding plan_marked
  marked-Planned m e = elim (Owner-dec d.owner d.resource m) [
    | inl (p, q, same_owner, same_resource) ↦
        owned-Planned
          (record {
            marker = m;
            parsed = e;
            same_owner = same_owner;
            same_resource = same_resource;
          })
          p q
    | inr (test, other) ↦
        rw (plan-parsed (some m) e, test)
          (foreign a (record { marker = m; parsed = e; other = other }))
  ]

-- Whatever `Plan` decides for follows by the rules.
pub plan-Planned :
    (d : DesiredExternalMonitor) (a : Option ActualExternalMonitor)
    → Planned d a (plan (record { desired = d; actual = a })).action
plan-Planned d none = unfold plan in missing
plan-Planned d (some a) = elim (Option-cases (parse_marker a.memo)) [
  | inl e ↦ unmarked-Planned d a e
  | inr (m, e) ↦ marked-Planned d a m e
]

ne-test : (s t : Text) → s ≢ t → (s == t) ≡ false
ne-test s t h = elim (Bool-cases (s == t)) [ inl e ↦ absurd (h ((==_iff s t).0 e)) | inr e ↦ e ]

no_match-test :
    (d : DesiredExternalMonitor) (a : ActualExternalMonitor)
    → ¬ Matches d a
    → actual_matches_desired d a ≡ false
no_match-test d a h = elim (Bool-cases (actual_matches_desired d a)) [
  | inl e ↦ absurd (h ((actual_matches_desired_iff d a).0 e))
  | inr e ↦ e
]

module _ (d : DesiredExternalMonitor) (a : ActualExternalMonitor) where
  foreign-plan : IsForeign d.owner d.resource a.memo → planned_action d (some a) ≡ ownership_lost
  unfolding plan_marked
  foreign-plan f = elim (Owner-dec d.owner d.resource f.marker) [
    | inl (_, _, o, r) ↦ elim f.other [ inl n ↦ absurd (n o) | inr n ↦ absurd (n r) ]
    | inr (test, _) ↦ plan-parsed d a (some f.marker) f.parsed ∙ rw test
  ]

  owned-plan :
      (o : IsOwned d.owner d.resource a.memo)
      → planned_action d (some a)
        ≡ (if o.marker.hash == d.hash && actual_matches_desired d a then noop else update)
  unfolding plan_marked
  owned-plan o =
      plan-parsed d a (some o.marker) o.parsed
      ∙ rw ((==_iff _ _).1 o.same_owner, (==_iff _ _).1 o.same_resource) (ground arith)

-- What follows by the rules is what `Plan` decides for.
pub plan-eq_of_Planned :
    {d : DesiredExternalMonitor} {a : Option ActualExternalMonitor} {x : Action}
    → Planned d a x
    → (plan (record { desired = d; actual = a })).action ≡ x
plan-eq_of_Planned missing = unfold plan in refl
plan-eq_of_Planned {d} (adopted a e m) =
    plan-parsed d a none e ∙ unfold plan_marked in rw ((actual_matches_desired_iff d a).1 m)
plan-eq_of_Planned {d} (unmarked a e n) =
    plan-parsed d a none e ∙ unfold plan_marked in rw (no_match-test d a n)
plan-eq_of_Planned {d} (foreign a f) = foreign-plan d a f
plan-eq_of_Planned {d} (in_sync a o h m) =
    owned-plan d a o ∙ rw ((==_iff _ _).1 h, (actual_matches_desired_iff d a).1 m)
plan-eq_of_Planned {d} (drifted a o (inl h)) = owned-plan d a o ∙ rw (ne-test _ _ h)
plan-eq_of_Planned {d} (drifted a o (inr n)) =
    owned-plan d a o ∙ rw (no_match-test d a n) (ground arith)

-- `Plan` decides for an action exactly when the action follows by the rules: create what is
-- missing; leave what is in sync; update what is owned and differs; adopt what is unmarked and
-- matches; and give up on what is unmarked and differs or is marked for another owner or resource.
pub plan_iff_Planned :
    (d : DesiredExternalMonitor) (a : Option ActualExternalMonitor) (x : Action)
    → ((plan (record { desired = d; actual = a })).action ≡ x) ↔ Planned d a x
plan_iff_Planned d a x = (λ e. subst (Planned d a) e (plan-Planned d a), plan-eq_of_Planned)
