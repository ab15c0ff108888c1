-- ===== src/Startup.antt =====
-- main.go: from the settings to the service, with NewMariadbPersistence, NewSecretWriter and NewWebApp.
-- Log lines are left out.
pub mod Started
use appliance_registry.Prelude.{
  ℕ, ◌-◌, ◌^◌, ◌++◌, Bool, Option, none, some, List, [], ◌∷◌, Text, text, ok, err, ltb,
  if◌then◌else◌,
}
use appliance_registry.External.{Identity}
use appliance_registry.Text.{decimal}
use appliance_registry.Clock.{minutes}
use appliance_registry.Tokens.{parse_token_list}
use appliance_registry.K8sSecrets.{SecretWriter, client, noop}
use appliance_registry.UserRegistry.Client.{HttpClient}
use appliance_registry.Config.{Config, DatabaseConfig, Checked, validate}
use appliance_registry.WebApp.{WebApp}

-- What the start finds outside the repository.
--   opens_database: whether apmsql.Open takes a data source name;
--   public_key: cloudtoken.LoadPublicKeyFromFile, as the check of use tokens under the key;
--   in_cluster: whether rest.InClusterConfig finds its credentials;
--   parses_url: whether url.Parse takes a text;
--   builds_client: whether kubernetes.NewForConfig succeeds, with that proxy.
pub record Platform : Type 0 where
  pub opens_database : Text → Bool
  pub public_key : Text → Option (Text → Option Identity)
  pub in_cluster : Bool
  pub parses_url : Text → Bool
  pub builds_client : Option Text → Bool

-- os.Exit(1), or the service on a port: the check of use tokens, and the application.
pub data Startup : Type 0 where
  exits : Startup
  serves : (verify : Text → Option Identity) (app : WebApp) (port : ℕ) → Startup

-- fmt.Sprintf("%d", n)
unfoldable pub print_int : ℕ → Text
print_int n = if ltb n (2 ^ 63) then decimal n else text "-" ++ decimal (2 ^ 64 - n)

unfoldable pub data_source_name : DatabaseConfig → Text
data_source_name conf =
    conf.user
    ++ text ":"
    ++ conf.password
    ++ text "@tcp("
    ++ conf.host
    ++ text ":"
    ++ print_int conf.port
    ++ text ")/"
    ++ conf.database
    ++ text "?parseTime=true&loc=UTC"

module _ (p : Platform) where
  abbrev writer_with : Text → Option Text → SecretWriter
  writer_with namespace proxy = if p.builds_client proxy then client namespace else noop

  abbrev proxied : Text → Text → SecretWriter
  proxied namespace [] = writer_with namespace none
  proxied namespace (c ∷ s) =
      if p.parses_url (c ∷ s) then writer_with namespace (some (c ∷ s)) else noop

  unfoldable pub new_secret_writer : Text → Text → SecretWriter
  new_secret_writer namespace proxy_url = if p.in_cluster then proxied namespace proxy_url else noop

  unfoldable pub new_web_app : Config → WebApp
  new_web_app conf = record {
    service_tokens = parse_token_list conf.auth.service_tokens;
    plugin_tokens = parse_token_list conf.auth.plugin_tokens;
    claim_token_expiry = minutes conf.auth.claim_token_expiry_minutes;
    exchange_code_expiry = minutes conf.auth.exchange_code_expiry_minutes;
    base_domain = conf.hostname.base_domain;
    secret_writer = new_secret_writer conf.kubernetes.namespace conf.kubernetes.apiserver_proxy_url;
    user_registry = record {
      base_url = conf.user_registry.base_url;
      service_token = conf.user_registry.service_token;
    };
  }

  abbrev with_key : Config → Option (Text → Option Identity) → Startup
  with_key conf none = exits
  with_key conf (some verify) = serves verify (new_web_app conf) conf.port

  abbrev validated : Config → Checked → Startup
  validated conf (err message) = exits
  validated conf (ok _) =
      if p.opens_database (data_source_name conf.database)
      then with_key conf (p.public_key conf.auth.use_token_rsa_public_key_path)
      else exits

  -- `none` are settings that could not be loaded.
  unfoldable pub start : Option Config → Startup
  start none = exits
  start (some conf) = validated conf (validate conf)
