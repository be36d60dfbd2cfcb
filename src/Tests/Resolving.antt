-- ===== src/Tests/Resolving.antt =====
-- The theorems on the values of Secrets at a concrete resource.
use mathlib.Core.List.{mem-cons_self}
use mathlib.Core.Option.{some-injective}
use mackerel_operator.Prelude.{
  ◌≡◌, refl, subst, inl, inr, some, List, [], ◌∷◌, ◌++◌, codes, All, arith,
}
use mackerel_operator.Prelude.Int.{ℤ}
use mackerel_operator.Prelude.Outcome.{ok}
use mackerel_operator.Api
use mackerel_operator.Api.{ExternalMonitor}
use mackerel_operator.Program.{Call, Answer, got}
use mackerel_operator.Program.Runs.{Ensures, EnsuresIf, result_of, calls_of}
use mackerel_operator.Controller.Settings.{hash_length_of}
use mackerel_operator.Controller.Secrets.{
  Values, lookup, resolve_header_values, secret_names_for_external_monitor,
}
use mackerel_operator.Controller.Secrets.Direct.{
  Secrets, direct_loop, direct_values, Holds, resolve_header_values-direct,
}
use mackerel_operator.Controller.Secrets.Once.{OnlySecrets, Distinct}
use mackerel_operator.Controller.Secrets.Complete.{IsDeclared}
use mackerel_operator.Controller.Reconcile.Upsert.{reconcile_upsert}
use mackerel_operator.Controller.Reconcile.Accepted.{IsAcceptable}
use mackerel_operator.Controller.Reconcile.Blocked.{
  DeclaresUnresolvable, OnlyReports, reconcile_upsert-OnlyReports,
}
use mackerel_operator.Controller.Reconcile.Retry.{ComesBack, reconcile_upsert-ComesBack}
use mackerel_operator.Controller.Watch.Setup.{
  Registered, builder_of, secret_ref_index_key, setup_with_manager,
}
use mackerel_operator.Controller.Watch.Covers.{Requested, resolve_header_values-Requested}
use mackerel_operator.Tests.Answers.{nothing, answers_of}
use mackerel_operator.Tests.Instances.{sample_libraries}
use mackerel_operator.Tests.Samples.{token_header, accept_header, shop, shop_spec, sync_reconciler}
use mackerel_operator.Tests.Starting.{willing}

-- Another header from the same Secret.
abbrev cookie_header : Api.HeaderField
cookie_header = record token_header { name = codes "Cookie" }

abbrev secret_headers : List Api.HeaderField
secret_headers = token_header ∷ accept_header ∷ cookie_header ∷ []

abbrev secrets_shop : ExternalMonitor
secrets_shop = record shop { spec = record shop_spec { headers = some secret_headers } }

abbrev sample_secrets : Secrets
sample_secrets name = got ((codes "shop", codes "s3cret") ∷ [])

abbrev sample_answers : (c : Call ℤ) → Answer c
sample_answers = answers_of (record nothing {
  indexed = λ namespace value. got (secrets_shop ∷ []);
  secret = sample_secrets;
})

resolve_header_values-direct_example :
    (result_of sample_answers (resolve_header_values secrets_shop)
      ≡ direct_values sample_secrets (some secret_headers))
    × All
        (OnlySecrets (codes "team"))
        (calls_of sample_answers (resolve_header_values secrets_shop))
    × Distinct (calls_of sample_answers (resolve_header_values secrets_shop))
resolve_header_values-direct_example = resolve_header_values-direct ℤ sample_answers secrets_shop

abbrev sample_values : Values
sample_values = (codes "Cookie", codes "s3cret") ∷ (codes "Authorization", codes "s3cret") ∷ []

resolved : direct_values sample_secrets (some secret_headers) ≡ ok sample_values
unfolding direct_loop lookup
resolved = refl

abbrev sample_registered : Registered
sample_registered = record {
  index_key = secret_ref_index_key;
  index = secret_names_for_external_monitor;
  builder = builder_of sync_reconciler;
}

sets_up : setup_with_manager sync_reconciler willing ≡ ok sample_registered
unfolding setup_with_manager
sets_up = refl

resolve_header_values-Requested_example :
    Ensures
      (Requested sample_answers secrets_shop)
      (λ _. Unit {0})
      (resolve_header_values secrets_shop)
resolve_header_values-Requested_example =
    resolve_header_values-Requested ℤ sync_reconciler willing sample_registered secrets_shop
      sample_answers (λ space name. secrets_shop ∷ []) sets_up (λ space name. refl)
      (λ name e. mem-cons_self)

secrets_shop-IsAcceptable : IsAcceptable sample_libraries sync_reconciler secrets_shop
unfolding hash_length_of
secrets_shop-IsAcceptable = record {
  declared = λ hs e. subst (All IsDeclared) (some-injective _ hs e) (tt, (tt, (tt, tt)));
  encodable = λ d. (d.name ++ d.url, refl);
  hash_length = 7;
  length_set = refl;
  at_least_1 = omega arith;
  at_most_64 = omega arith;
}

reconcile_upsert-ComesBack_example :
    EnsuresIf
      (Holds (codes "team") sample_secrets)
      (λ c. Unit {0})
      ComesBack
      (reconcile_upsert sample_libraries sync_reconciler secrets_shop)
reconcile_upsert-ComesBack_example =
    reconcile_upsert-ComesBack sample_libraries sync_reconciler secrets_shop
      secrets_shop-IsAcceptable sample_secrets

-- A header whose Secret is there, but not its key.
abbrev lost_header : Api.HeaderField
lost_header = record token_header {
  value_from =
      some
        (record { secret_key_ref = some (record { name = codes "tokens"; key = codes "lost" }) });
}

abbrev lost_shop : ExternalMonitor
lost_shop = record shop {
  spec = record shop_spec { headers = some (token_header ∷ accept_header ∷ lost_header ∷ []) };
}

lost_shop-DeclaresUnresolvable : DeclaresUnresolvable sample_secrets lost_shop.spec.headers
unfolding lookup
lost_shop-DeclaresUnresolvable = inr (inr (inl refl))

reconcile_upsert-OnlyReports_example :
    EnsuresIf
      (Holds (codes "team") sample_secrets)
      (OnlyReports sample_libraries lost_shop)
      ComesBack
      (reconcile_upsert sample_libraries sync_reconciler lost_shop)
reconcile_upsert-OnlyReports_example =
    reconcile_upsert-OnlyReports sample_libraries sync_reconciler lost_shop sample_secrets
      lost_shop-DeclaresUnresolvable
