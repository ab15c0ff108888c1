-- ===== src/Startup/Started.antt =====
-- main.go: what holds of a service that has started.
use appliance_registry.Prelude.{
  ℕ, ◌+◌, ◌*◌, ◌≤◌, ◌≡◌, ◌≢◌, ◌⊎◌, inl, inr, refl, true, Option, none, some, [], ◌∷◌, Text, ok,
  arith, ap, sym, subst, ◌∙◌,
}
use appliance_registry.External.{Identity}
use appliance_registry.Clock.{after}
use appliance_registry.Clock.Bounds.{after-minutes}
use appliance_registry.Config.{Config, validate}
use appliance_registry.Config.Required.{IsSupplied, validate_iff}
use appliance_registry.K8sSecrets.{SecretWriter, client, noop}
use appliance_registry.Tokens.{bearer_token, check_service_tokens}
use appliance_registry.Tokens.Lists.{IsToken, parse_token_list-IsToken}
use appliance_registry.WebApp.{WebApp}
use appliance_registry.Startup.{Platform, serves, new_secret_writer, new_web_app, start}

abbrev pub IsOptional : SecretWriter → Type 0
IsOptional (client namespace) = namespace ≢ []
IsOptional noop = Unit

module _ (p : Platform) where
  new_secret_writer-client :
      (namespace proxy_url : Text)
      → namespace ≢ []
      → IsOptional (new_secret_writer p namespace proxy_url)
  unfolding new_secret_writer
  new_secret_writer-client namespace [] h = ground arith
  new_secret_writer-client namespace (c ∷ s) h = ground arith

  start-eq-serves :
      (conf : Config) {verify : Text → Option Identity} {app : WebApp} {port : ℕ}
      → start p (some conf) ≡ serves verify app port
      → (validate conf ≡ ok tt) × (app ≡ new_web_app p conf)
  unfolding start
  start-eq-serves conf h = ground arith

  settings_of :
      (o : Option Config) {verify : Text → Option Identity} {app : WebApp} {port : ℕ}
      → start p o ≡ serves verify app port
      → (conf : Config) × (o ≡ some conf) × (validate conf ≡ ok tt) × (app ≡ new_web_app p conf)
  unfolding start
  settings_of none h = absurd (ground arith)
  settings_of (some conf) h =
      let (valid, same) = start-eq-serves conf h in (conf, refl, valid, same)

  -- A service starts only from settings that could be loaded and in which every text that it requires
  -- is there; and it writes Secrets into a namespace with a name, or none at all.
  pub start-IsSupplied :
      (o : Option Config) {verify : Text → Option Identity} {app : WebApp} {port : ℕ}
      → start p o ≡ serves verify app port
      → ((conf : Config) × (o ≡ some conf) × IsSupplied conf) × IsOptional app.secret_writer
  unfolding new_web_app
  start-IsSupplied o h =
      let (conf, e, valid, same) = settings_of o h in
      let s = (validate_iff conf).0 valid in
      (
        (conf, e, s),
        subst (λ (a : WebApp). IsOptional a.secret_writer) (sym same)
            (new_secret_writer-client conf.kubernetes.namespace conf.kubernetes.apiserver_proxy_url
              s.namespace),
      )

  -- Whatever the settings, a service that has started lets a header pass as an internal service or as the
  -- plugin only with a bearer token that is not empty and has no white space at either end.
  pub start-IsToken :
      (o : Option Config) {verify : Text → Option Identity} {app : WebApp} {port : ℕ}
      → start p o ≡ serves verify app port
      → (header : Text)
      → (check_service_tokens app.service_tokens header ≡ true)
        ⊎ (check_service_tokens app.plugin_tokens header ≡ true)
      → (t : Text) × (bearer_token header ≡ some t) × IsToken t
  unfolding new_web_app
  start-IsToken o h header passed =
      let (conf, e, valid, same) = settings_of o h in
      elim passed [
        | inl service ↦ parse_token_list-IsToken conf.auth.service_tokens header (
            subst (λ (a : WebApp). check_service_tokens a.service_tokens header ≡ true) same
              service)
        | inr plugin ↦
            parse_token_list-IsToken conf.auth.plugin_tokens header (
              subst (λ (a : WebApp). check_service_tokens a.plugin_tokens header ≡ true) same
                plugin)
      ]

  -- Where the two settings are at most 153722867 minutes, which is 292 years, a claim token and a code of
  -- a service that has started expire that many minutes after they are issued: nothing overflows.
  pub start_expiries :
      (conf : Config) {verify : Text → Option Identity} {app : WebApp} {port : ℕ}
      → start p (some conf) ≡ serves verify app port
      → conf.auth.claim_token_expiry_minutes ≤ 153_722_867
      → conf.auth.exchange_code_expiry_minutes ≤ 153_722_867
      → (now : ℕ)
      → (after now app.claim_token_expiry
          ≡ now + conf.auth.claim_token_expiry_minutes * 60_000_000_000)
        × (after now app.exchange_code_expiry
            ≡ now + conf.auth.exchange_code_expiry_minutes * 60_000_000_000)
  unfolding new_web_app
  start_expiries conf h low low' now =
      let (valid, same) = start-eq-serves conf h in
      (
        ap (λ (a : WebApp). after now a.claim_token_expiry) same
            ∙ after-minutes now conf.auth.claim_token_expiry_minutes low,
        ap (λ (a : WebApp). after now a.exchange_code_expiry) same
            ∙ after-minutes now conf.auth.exchange_code_expiry_minutes low',
      )
