-- ===== src/Start/Validation.antt =====
-- The settings with which the process of cmd/main.go starts.
use mackerel_operator.Prelude.{
  ℕ, ◌≡◌, ◌≢◌, ◌⊎◌, inl, inr, refl, sym, ap, subst, ◌≤◌, false, [], ◌∷◌, Text, codes, ==_iff,
  nat_eq, list_eq, arith,
}
use mackerel_operator.Prelude.Int.{ℤ, pos, negsuc}
use mackerel_operator.Prelude.Outcome.{
  Outcome, ok, err, ◌>>=◌, >>=-eq-ok, ok-injective, Outcome-cases, >>=-err, >>=-ok,
}
use mackerel_operator.Provider.New.{is_blank, MackerelProvider, new_mackerel_provider}
use mackerel_operator.Controller.Settings.{text_or, policy_of, owner_id_of, hash_length_of}
use mackerel_operator.Start.{
  StartError, provider_error, manager_error, controller_error, health_check_error,
  ready_check_error, run_error, Platform, Started, check_policy, check_hash_length, unless_error,
  or_exit, reconciler_of, main,
}
use mackerel_operator.Controller.Watch.Setup.{Registered, setup_with_manager}
use mackerel_operator.Start.Servers.{manager_options}
use mackerel_operator.Start.CommandLine.{Flags}

-- The policies of the flag's description.
abbrev pub IsPolicy : Text → Type 0
IsPolicy policy = (policy ≡ codes "upsert-only") ⊎ (policy ≡ codes "sync")

-- The lengths of its description.
abbrev pub IsHashLength : ℤ → Type 0
IsHashLength n = (m : ℕ) × (n ≡ pos m) × (1 ≤ m) × (m ≤ 64)

-- What the process asks of its flags and of the key.
abbrev pub IsRunnable : Flags → Text → Type 0
IsRunnable flags api_key =
    IsPolicy flags.policy × IsHashLength flags.hash_length × (is_blank api_key ≡ false)

check_policy-ok : (policy : Text) (u : Unit {0}) → check_policy policy ≡ ok u → IsPolicy policy
unfolding check_policy
check_policy-ok policy u e =
    ground (arith, ==_iff policy (codes "upsert-only"), ==_iff policy (codes "sync"))

check_hash_length-ok : (n : ℤ) (u : Unit {0}) → check_hash_length n ≡ ok u → IsHashLength n
unfolding check_hash_length
check_hash_length-ok (negsuc n) u e = cc
check_hash_length-ok (pos n) u e = (n, refl, ground arith, ground arith)

or_exit-ok :
    {E A : Type 0} (wrap : E → StartError) (o : Outcome E A) (a : A)
    → or_exit wrap o ≡ ok a
    → o ≡ ok a
unfolding or_exit
or_exit-ok wrap (ok b) a e = ap ok (ok-injective e)
or_exit-ok wrap (err b) a e = cc

new_mackerel_provider-ok :
    (key : Text) (p : MackerelProvider)
    → new_mackerel_provider key ≡ ok p
    → (is_blank key ≡ false) × (p ≡ record { api_key = key })
unfolding new_mackerel_provider
new_mackerel_provider-ok key p e =
    let made : (is_blank key ≡ false) × (record { api_key = key } ≡ p) = ground arith in
    (made.0, sym made.1)

policy_of-given :
    (flags : Flags) → IsPolicy flags.policy → policy_of (reconciler_of flags) ≡ flags.policy
unfolding policy_of text_or reconciler_of
policy_of-given flags (inl upsert_only) = rw upsert_only refl
policy_of-given flags (inr synced) = rw synced refl

hash_length_of-given :
    (flags : Flags)
    → IsHashLength flags.hash_length
    → hash_length_of (reconciler_of flags) ≡ flags.hash_length
unfolding hash_length_of reconciler_of
hash_length_of-given flags (m, e, lo, hi) = rw e (ground arith)

text_or-nonempty : (s : Text) → text_or (codes "default") s ≢ []
unfolding text_or
text_or-nonempty [] = cc
text_or-nonempty (b ∷ s) = cc

-- What a start has checked, and what it runs.
pub main-ok :
    (platform : Platform) (flags : Flags) (api_key : Text) (started : Started)
    → main platform flags api_key ≡ ok started
    → IsRunnable flags api_key
      × (registered : Registered) × (started ≡ record {
        options = manager_options flags;
        provider = record { api_key = api_key };
        reconciler = reconciler_of flags;
        registered = registered;
      })
unfolding main
main-ok platform flags api_key started e =
    let (_, policy, e1) = >>=-eq-ok (check_policy flags.policy) _ e in
    let (_, length, e2) = >>=-eq-ok (check_hash_length flags.hash_length) _ e1 in
    let (p, provided, e3) =
      >>=-eq-ok (or_exit provider_error (new_mackerel_provider api_key)) _ e2 in
    let (manager, _, e4) =
      >>=-eq-ok (or_exit manager_error (platform.new_manager (manager_options flags))) _ e3 in
    let (registered, _, e5) =
      >>=-eq-ok (or_exit controller_error (setup_with_manager (reconciler_of flags) manager)) _
        e4 in
    let (_, _, e6) = >>=-eq-ok (unless_error health_check_error platform.add_healthz_check) _ e5 in
    let (_, _, e7) = >>=-eq-ok (unless_error ready_check_error platform.add_readyz_check) _ e6 in
    let (_, _, e8) = >>=-eq-ok (unless_error run_error platform.start) _ e7 in
    let (named, key) =
      new_mackerel_provider-ok api_key p (or_exit-ok provider_error _ p provided) in
    (
      (
        check_policy-ok flags.policy tt policy,
        check_hash_length-ok flags.hash_length tt length,
        named,
      ),
      registered,
      rw (← key) (sym (ok-injective e8)),
    )

-- A process that starts was given a valid policy, a valid hash length and a key that is not blank,
-- and the reconciler that it runs uses the policy and the hash length that were given, and an owner
-- that is not empty.
pub main-IsRunnable :
    (platform : Platform) (flags : Flags) (api_key : Text) (started : Started)
    → main platform flags api_key ≡ ok started
    → IsRunnable flags api_key
      × (policy_of started.reconciler ≡ flags.policy)
      × (hash_length_of started.reconciler ≡ flags.hash_length)
      × (owner_id_of started.reconciler ≢ [])
unfolding owner_id_of
main-IsRunnable platform flags api_key started e =
    let (valid, registered, made) = main-ok platform flags api_key started e in
    (
      valid,
      subst (λ st. policy_of st.reconciler ≡ flags.policy) (sym made)
          (policy_of-given flags valid.0),
      subst (λ st. hash_length_of st.reconciler ≡ flags.hash_length) (sym made)
          (hash_length_of-given flags valid.1),
      text_or-nonempty started.reconciler.owner_id,
    )

-- The chain of the three checks, with what the manager does behind them.
checked-rejected :
    (flags : Flags) (api_key : Text)
    → ¬ IsRunnable flags api_key
    → (e : StartError) × ((next : MackerelProvider → Outcome StartError Started)
        → (do
          policy_checked ← check_policy flags.policy
          hash_length_checked ← check_hash_length flags.hash_length
          provider ← or_exit provider_error (new_mackerel_provider api_key)
          next provider)
          ≡ err e)
checked-rejected flags api_key h = elim (Outcome-cases (check_policy flags.policy)) [
  | inl (e, failed) ↦ (e, λ next. >>=-err (check_policy flags.policy) _ failed)
  | inr (_, policy) ↦ elim (Outcome-cases (check_hash_length flags.hash_length)) [
    | inl (e, failed) ↦ (
      e,
      λ next.
          >>=-ok (check_policy flags.policy) _ policy
            (>>=-err (check_hash_length flags.hash_length) _ failed),
    )
    | inr (_, length) ↦ elim (Outcome-cases (new_mackerel_provider api_key)) [
      | inl (e, failed) ↦ (
        provider_error e,
        λ next. >>=-ok (check_policy flags.policy) _ policy (
            >>=-ok (check_hash_length flags.hash_length) _ length (
              >>=-err (or_exit provider_error (new_mackerel_provider api_key)) next
                (unfold or_exit in rw failed refl))),
      )
      | inr (p, provided) ↦ absurd (
          h (
            check_policy-ok flags.policy tt policy,
            check_hash_length-ok flags.hash_length tt length,
            (new_mackerel_provider-ok api_key p provided).0,
          ))
    ]
  ]
]

-- With an invalid policy, an invalid hash length or a blank key, the process exits with the same
-- error whatever the manager would answer.
pub main-rejected :
    (flags : Flags) (api_key : Text)
    → ¬ IsRunnable flags api_key
    → (platform other : Platform)
    → (e : StartError) × (main platform flags api_key ≡ err e) × (main other flags api_key ≡ err e)
unfolding main
main-rejected flags api_key h platform other =
    let (e, rejected) = checked-rejected flags api_key h in (e, rejected _, rejected _)
