-- ===== src/Refinement/Fate.antt =====
-- What becomes of a monitor in one reconciliation.
use mathlib.Core.Option.{some-injective}
use mackerel_operator.Prelude.{
  ◌≡◌, ◌⊎◌, sym, subst, ◌∙◌, ap, inl, inr, none, some, Text, codes, Bool-cases, ◌==◌, ==_iff,
  nat_eq, list_eq,
}
use mackerel_operator.Planner.Decisions.{IsOwned, IsForeign}
use mackerel_operator.Provider.Client.{MonitorExternalHttp}
use mackerel_operator.Service.{Store, put, drop, IsConsistent}
use mackerel_operator.Refinement.{MayTake, Step, kept, added, rewritten, removed}

-- What stands under an identifier after a step, if this monitor stood there before it.
pub data Fate {F : Type 0} (owner resource policy : Text) (id : Text) (m : MonitorExternalHttp F)
    (w : Store F) : Type 0 where
  unchanged : w id ≡ some m → Fate owner resource policy id m w
  overwritten :
      (new : MonitorExternalHttp F)
      → MayTake owner resource m new
      → w id ≡ some new
      → Fate owner resource policy id m w
  deleted :
      policy ≡ codes "sync"
      → IsOwned owner resource m.memo
      → w id ≡ none
      → Fate owner resource policy id m w

module _ {F : Type 0} where
  put-cases :
      (id other : Text) (m : MonitorExternalHttp F) (v : Store F)
      → ((other ≡ id) × (put id m v other ≡ some m)) ⊎ (put id m v other ≡ v other)
  unfolding put
  put-cases id other m v = elim (Bool-cases (other == id)) [
    | inl same ↦ inl ((==_iff other id).0 same, rw same)
    | inr apart ↦ inr (rw apart)
  ]

  pub drop-cases :
      (id other : Text) (v : Store F)
      → ((other ≡ id) × (drop id v other ≡ none)) ⊎ (drop id v other ≡ v other)
  unfolding drop
  drop-cases id other v = elim (Bool-cases (other == id)) [
    | inl same ↦ inl ((==_iff other id).0 same, rw same)
    | inr apart ↦ inr (rw apart)
  ]

  put-IsConsistent :
      (id : Text) (m : MonitorExternalHttp F) (v : Store F)
      → m.id ≡ id
      → IsConsistent v
      → IsConsistent (put id m v)
  put-IsConsistent id m v own fit other n e = elim (put-cases id other m v) [
    | inl (same, now) ↦ sym (ap (λ x. x.id) (some-injective m n (sym now ∙ e))) ∙ own ∙ sym same
    | inr before ↦ fit other n (sym before ∙ e)
  ]

  pub MayTake-IsForeign :
      {owner resource : Text} (old new : MonitorExternalHttp F)
      → MayTake owner resource old new
      → ¬ IsForeign owner resource old.memo
  MayTake-IsForeign old new (inr (bare, alike)) f = cc (f.parsed)
  MayTake-IsForeign old new (inl owned) f =
      let same = some-injective _ _ (sym owned.parsed ∙ f.parsed) in
      elim f.other [
        | inl n ↦ n (ap (λ x. x.owner) (sym same) ∙ owned.same_owner)
        | inr n ↦ n (ap (λ x. x.resource) (sym same) ∙ owned.same_resource)
      ]

  same_monitor :
      (v : Store F) {id other : Text} {m old : MonitorExternalHttp F}
      → v other ≡ some old
      → v id ≡ some m
      → id ≡ other
      → m ≡ old
  same_monitor v there e same = some-injective _ _ (sym e ∙ ap v same ∙ there)

  module _ {owner resource policy : Text} {v w : Store F} where
    pub Step-IsConsistent : Step owner resource policy v w → IsConsistent v → IsConsistent w
    Step-IsConsistent (kept same) fit = subst IsConsistent (sym same) fit
    Step-IsConsistent (added id memo new free own marked now) fit =
        subst IsConsistent (sym now) (put-IsConsistent id new v own fit)
    Step-IsConsistent (rewritten id old new there own may marked now) fit =
        subst IsConsistent (sym now) (put-IsConsistent id new v own fit)
    Step-IsConsistent (removed id old sync there owned now) fit =
        subst IsConsistent (sym now) (λ other n e. elim (drop-cases id other v) [
          | inl (same, gone) ↦ absurd (cc)
          | inr before ↦ fit other n (sym before ∙ e)
        ])

    pub Step-Fate :
        (id : Text) (m : MonitorExternalHttp F)
        → Step owner resource policy v w
        → v id ≡ some m
        → Fate owner resource policy id m w
    Step-Fate id m (kept same) e = unchanged (ap (λ x. x id) same ∙ e)
    Step-Fate id m (added other memo new free own marked now) e = elim (put-cases other id new v) [
      | inl (same, _) ↦ absurd (cc)
      | inr before ↦ unchanged (ap (λ x. x id) now ∙ before ∙ e)
    ]
    Step-Fate id m (rewritten other old new there own may marked now) e =
        elim (put-cases other id new v) [
          | inl (same, here) ↦
              overwritten new
                (subst (λ x. MayTake owner resource x new) (sym (same_monitor v there e same)) may)
                (ap (λ x. x id) now ∙ here)
          | inr before ↦ unchanged (ap (λ x. x id) now ∙ before ∙ e)
        ]
    Step-Fate id m (removed other old sync there owned now) e = elim (drop-cases other id v) [
      | inl (same, gone) ↦
          deleted sync
            (subst (λ x. IsOwned owner resource x.memo) (sym (same_monitor v there e same)) owned)
            (ap (λ x. x id) now ∙ gone)
      | inr before ↦ unchanged (ap (λ x. x id) now ∙ before ∙ e)
    ]
