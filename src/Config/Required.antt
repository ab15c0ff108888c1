-- ===== src/Config/Required.antt =====
-- internal/config/config.go: what Validate asks for.
use appliance_registry.Prelude.{◌≡◌, ◌≢◌, ◌↔◌, [], ok, arith}
use appliance_registry.Config.{
  Config, validate, validate_database, validate_auth, validate_user_registry, validate_hostname,
  validate_kubernetes,
}

-- Every text that Validate asks for.
pub record IsSupplied (conf : Config) : Type 0 where
  pub host : conf.database.host ≢ []
  pub key_path : conf.auth.use_token_rsa_public_key_path ≢ []
  pub service_tokens : conf.auth.service_tokens ≢ []
  pub plugin_tokens : conf.auth.plugin_tokens ≢ []
  pub base_url : conf.user_registry.base_url ≢ []
  pub registry_token : conf.user_registry.service_token ≢ []
  pub base_domain : conf.hostname.base_domain ≢ []
  pub namespace : conf.kubernetes.namespace ≢ []

-- Validate passes exactly where the database host, the path of the public key, the two lists of tokens,
-- the user registry's URL and token, the base domain and the namespace are all there.
pub validate_iff : (conf : Config) → (validate conf ≡ ok tt) ↔ IsSupplied conf
unfolding validate validate_database validate_auth validate_user_registry validate_hostname
    validate_kubernetes
validate_iff conf = ground arith
