-- ===== src/Config.antt =====
-- internal/config/config.go: the settings, their defaults, and what Validate asks of them. An int is its
-- 64-bit two's complement pattern.
pub mod Required
use Prim.Native.String.{String}
use appliance_registry.Prelude.{ℕ, Option, none, some, [], ◌∷◌, Text, text, Result, ok, err}

pub record DatabaseConfig : Type 0 where
  pub host : Text
  pub port : ℕ
  pub user : Text
  pub password : Text
  pub database : Text

pub record AuthConfig : Type 0 where
  pub use_token_rsa_public_key_path : Text
  pub claim_token_expiry_minutes : ℕ
  pub exchange_code_expiry_minutes : ℕ
  pub service_tokens : Text
  pub plugin_tokens : Text

pub record UserRegistryConfig : Type 0 where
  pub base_url : Text
  pub service_token : Text

pub record HostnameConfig : Type 0 where
  pub base_domain : Text

pub record KubernetesConfig : Type 0 where
  pub namespace : Text
  pub apiserver_proxy_url : Text

pub record Config : Type 0 where
  pub database : DatabaseConfig
  pub auth : AuthConfig
  pub user_registry : UserRegistryConfig
  pub hostname : HostnameConfig
  pub kubernetes : KubernetesConfig
  pub port : ℕ

abbrev pub Checked : Type 0
Checked = Result String (Unit {0})

-- `if x == "" { return errors.New(…) }`, and what follows it.
abbrev pub supplied : Text → String → Checked → Checked
supplied [] message rest = err message
supplied (_ ∷ _) message rest = rest

-- `if err := …; err != nil { return err }`, and what follows it.
abbrev pub and_then : Checked → Checked → Checked
and_then (err e) rest = err e
and_then (ok _) rest = rest

unfoldable pub validate_database : DatabaseConfig → Checked
validate_database conf = supplied conf.host "must supply database host" (ok tt)

unfoldable pub validate_auth : AuthConfig → Checked
validate_auth conf =
    supplied conf.use_token_rsa_public_key_path "must supply auth use-token-rsa-public-key-path" (
      supplied conf.service_tokens "must supply auth service-tokens"
        (supplied conf.plugin_tokens "must supply auth plugin-tokens" (ok tt)))

unfoldable pub validate_user_registry : UserRegistryConfig → Checked
validate_user_registry conf =
    supplied conf.base_url "must supply user-registry base-url"
      (supplied conf.service_token "must supply user-registry service-token" (ok tt))

unfoldable pub validate_hostname : HostnameConfig → Checked
validate_hostname conf = supplied conf.base_domain "must supply hostname base-domain" (ok tt)

unfoldable pub validate_kubernetes : KubernetesConfig → Checked
validate_kubernetes conf = supplied conf.namespace "must supply kubernetes namespace" (ok tt)

unfoldable pub validate : Config → Checked
validate conf = and_then (validate_database conf.database) (
    and_then (validate_auth conf.auth) (
      and_then (validate_user_registry conf.user_registry)
        (and_then (validate_hostname conf.hostname) (validate_kubernetes conf.kubernetes))))

-- What viper finds for a key that is bound to an environment variable, and what Unmarshal makes of such
-- a text where the field is an int; `none` is a variable that is unset or empty, and a text that is no number.
pub record Settings : Type 0 where
  pub bound : Text → Option Text
  pub to_int : Text → Option ℕ

abbrev or_text : Option Text → String → Text
or_text none default = text default
or_text (some s) default = s

abbrev or_int : (Text → Option ℕ) → Option Text → ℕ → Option ℕ
or_int to_int none default = some default
or_int to_int (some s) default = to_int s

-- The ints first: an error of Unmarshal ends the process.
abbrev loaded : (String → String → Text) → Option ℕ → Option ℕ → Option ℕ → Option ℕ → Option Config
loaded at (some database_port) (some claim_minutes) (some code_minutes) (some port) = some (record {
  database = record {
    host = at "database.host" "";
    port = database_port;
    user = at "database.user" "";
    password = at "database.password" "";
    database = at "database.database" "applianceregistry";
  };
  auth = record {
    use_token_rsa_public_key_path = at "auth.use-token-rsa-public-key-path" "";
    claim_token_expiry_minutes = claim_minutes;
    exchange_code_expiry_minutes = code_minutes;
    service_tokens = at "auth.service-tokens" "";
    plugin_tokens = at "auth.plugin-tokens" "";
  };
  user_registry = record {
    base_url = at "user-registry.base-url" "";
    service_token = at "user-registry.service-token" "";
  };
  hostname = record { base_domain = at "hostname.base-domain" "appliance.humi.kaese.space" };
  kubernetes = record {
    namespace = at "kubernetes.namespace" "huemie-cloud";
    apiserver_proxy_url = at "kubernetes.apiserver-proxy-url" "";
  };
  port = port;
})
loaded at _ _ _ _ = none

-- `init`: the bindings and the defaults.
unfoldable pub load : Settings → Option Config
load s =
    let int : String → ℕ → Option ℕ = λ key default. or_int s.to_int (s.bound (text key)) default in
    loaded (λ key default. or_text (s.bound (text key)) default) (int "database.port" 3306)
      (int "auth.claim-token-expiry-minutes" 60) (int "auth.exchange-code-expiry-minutes" 5)
      (int "port" 8080)
