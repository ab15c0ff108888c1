-- ===== src/Tests/Startup.antt =====
-- Starts of the service.
use appliance_registry.Prelude.{
  ◌≡◌, ◌↔◌, inr, ◌+◌, ◌*◌, refl, arith, true, false, some, [], Text, text, ok,
}
use appliance_registry.Clock.{after}
use appliance_registry.Config.{Config, validate}
use appliance_registry.Config.Required.{IsSupplied, validate_iff}
use appliance_registry.Tokens.{bearer_token}
use appliance_registry.Tokens.Lists.{IsToken}
use appliance_registry.WebApp.{WebApp}
use appliance_registry.Startup.{Platform, new_web_app}
use appliance_registry.Startup.Started.{IsOptional, start-IsSupplied, start-IsToken, start_expiries}
use appliance_registry.Tests.Fixtures.{env, everything}

-- Everything is there, and there is no cluster.
abbrev platform : Platform
platform = record {
  opens_database = λ s. true;
  public_key = λ path. some env.verify;
  in_cluster = false;
  parses_url = λ s. true;
  builds_client = λ proxy. true;
}

-- The required settings alone.
abbrev conf : Config
conf = record {
  database = record {
    host = text "db";
    port = 3306;
    user = text "u";
    password = text "p";
    database = text "applianceregistry";
  };
  auth = record {
    use_token_rsa_public_key_path = text "key";
    claim_token_expiry_minutes = 60;
    exchange_code_expiry_minutes = 5;
    service_tokens = text "svc";
    plugin_tokens = text "plug";
  };
  user_registry = record { base_url = text "http"; service_token = text "t" };
  hostname = record { base_domain = text "x.io" };
  kubernetes = record { namespace = text "ns"; apiserver_proxy_url = [] };
  port = 8080;
}

validate_iff_example : (validate conf ≡ ok tt) ↔ IsSupplied conf
validate_iff_example = validate_iff conf

abbrev served : WebApp
served = new_web_app platform conf

start-IsSupplied_example :
    ((c : Config) × (some conf ≡ some c) × IsSupplied c) × IsOptional served.secret_writer
unfolding everything
start-IsSupplied_example =
    start-IsSupplied platform (some conf) {verify = env.verify} {app = served} {port = 8080} refl

start-IsToken_example : (t : Text) × (bearer_token (text "Bearer plug") ≡ some t) × IsToken t
unfolding everything
start-IsToken_example =
    start-IsToken platform (some conf) {verify = env.verify} {app = served} {port = 8080} refl
      (text "Bearer plug") (inr refl)

start_expiries_example :
    (after 7 served.claim_token_expiry ≡ 7 + 60 * 60_000_000_000)
    × (after 7 served.exchange_code_expiry ≡ 7 + 5 * 60_000_000_000)
unfolding everything
start_expiries_example =
    start_expiries platform conf {verify = env.verify} {app = served} {port = 8080} refl
      (omega arith) (omega arith) 7
