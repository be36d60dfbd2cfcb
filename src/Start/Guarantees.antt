-- ===== src/Start/Guarantees.antt =====
-- What a started process does: the TLS options of its servers, and its policy.
use mackerel_operator.Prelude.{
  ◌≡◌, ◌≢◌, refl, sym, ◌∙◌, subst, Bool, true, false, List, [], ◌∷◌, Text, codes, length, ltb,
  if◌then◌else◌,
}
use mackerel_operator.Prelude.Outcome.{ok}
use mackerel_operator.Program.Runs.{Ensures}
use mackerel_operator.Controller.Settings.{Libraries, policy_of}
use mackerel_operator.Controller.Reconcile.{reconcile}
use mackerel_operator.Controller.Reconcile.Guarantees.{NeverDeletes, reconcile-NeverDeletes}
use mackerel_operator.Start.{Platform, Started, main}
use mackerel_operator.Start.CommandLine.{Flags}
use mackerel_operator.Start.Servers.{
  TlsConfig, WebhookOptions, MetricsOptions, tls_opts, webhook_options, metrics_options,
  manager_options,
}
use mackerel_operator.Start.Validation.{main-ok, main-IsRunnable}

-- What a server does with its options: each is applied to the configuration.
unfoldable pub configured : List (TlsConfig → TlsConfig) → TlsConfig → TlsConfig
configured [] c = c
configured (option ∷ options) c = configured options (option c)

-- A server that speaks HTTP/1.1 only, whatever its configuration was.
abbrev pub OnlyHttp1 : List (TlsConfig → TlsConfig) → Type 0
OnlyHttp1 options = (c : TlsConfig) → (configured options c).next_protos ≡ codes "http/1.1" ∷ []

tls_opts-OnlyHttp1 : (flags : Flags) → flags.enable_http2 ≡ false → OnlyHttp1 (tls_opts flags)
unfolding tls_opts configured
tls_opts-OnlyHttp1 flags h c = rw h refl

-- Both branches of an `if` leave a field alone.
if-same :
    {A B : Type 0} (field : A → B) (b : Bool) (x y : A)
    → field x ≡ field y
    → field (if b then x else y) ≡ field y
if-same field true x y e = e
if-same field false x y e = refl

webhook_options-tls_opts : (flags : Flags) → (webhook_options flags).tls_opts ≡ tls_opts flags
unfolding webhook_options
webhook_options-tls_opts flags =
    if-same (λ (o : WebhookOptions). o.tls_opts) (ltb 0 (length flags.webhook_cert_path)) _ _ refl

metrics_options-tls_opts : (flags : Flags) → (metrics_options flags).tls_opts ≡ tls_opts flags
unfolding metrics_options
metrics_options-tls_opts flags =
    let field : MetricsOptions → List (TlsConfig → TlsConfig) = λ o. o.tls_opts in
    if-same field (ltb 0 (length flags.metrics_cert_path)) _ _ refl
    ∙ if-same field flags.secure_metrics _ _ refl

manager_options-OnlyHttp1 :
    (flags : Flags)
    → flags.enable_http2 ≡ false
    → OnlyHttp1 (manager_options flags).webhook.tls_opts
      × OnlyHttp1 (manager_options flags).metrics.tls_opts
unfolding manager_options
manager_options-OnlyHttp1 flags h = (
  subst OnlyHttp1 (sym (webhook_options-tls_opts flags)) (tls_opts-OnlyHttp1 flags h),
  subst OnlyHttp1 (sym (metrics_options-tls_opts flags)) (tls_opts-OnlyHttp1 flags h),
)

-- Without `--enable-http2`, the webhook server and the metrics server of a process that starts
-- negotiate HTTP/1.1 only, with and without certificates and authentication.
pub main-OnlyHttp1 :
    (platform : Platform) (flags : Flags) (api_key : Text) (started : Started)
    → main platform flags api_key ≡ ok started
    → flags.enable_http2 ≡ false
    → OnlyHttp1 started.options.webhook.tls_opts × OnlyHttp1 started.options.metrics.tls_opts
main-OnlyHttp1 platform flags api_key started e h =
    let (_, registered, made) = main-ok platform flags api_key started e in
    subst (λ st. OnlyHttp1 st.options.webhook.tls_opts × OnlyHttp1 st.options.metrics.tls_opts)
      (sym made) (manager_options-OnlyHttp1 flags h)

-- A process that starts with `--policy=upsert-only` deletes no monitor in any reconciliation,
-- whatever the APIs answer.
pub main-NeverDeletes :
    (platform : Platform) (flags : Flags) (api_key : Text) (started : Started)
    → main platform flags api_key ≡ ok started
    → flags.policy ≡ codes "upsert-only"
    → (lib : Libraries) (namespace name : Text)
    → Ensures NeverDeletes (λ _. Unit {0}) (reconcile lib started.reconciler namespace name)
main-NeverDeletes platform flags api_key started e upsert_only lib =
    let (_, policy, _, _) = main-IsRunnable platform flags api_key started e in
    let never : policy_of started.reconciler ≢ codes "sync" = rw (policy ∙ upsert_only) cc in
    reconcile-NeverDeletes lib started.reconciler never
