-- ===== src/WebApp.antt =====
-- internal/appliancewebapp/webapp.go: the service's configuration, its errors, and the helpers that
-- the handlers share. Log lines are left out.
pub mod Outcomes
pub mod Registration
pub mod Claiming
pub mod Login
pub mod Rotation
pub mod Listing
pub mod Server
use Prim.Native.String.{String}
use appliance_registry.Prelude.{
  ℕ, ◌+◌, ◌++◌, Bool, Option, none, some, List, Text, text, text_eq, ltb, ◌==◌, if◌then◌else◌,
}
use appliance_registry.External.{External, Identity}
use appliance_registry.Persistence.{
  Appliance, pending, active, status_text, DbError, no_rows, duplicate, unavailable,
}
use appliance_registry.World.Statements.{status_eq}
use appliance_registry.Tokens.{appliance_secret_from_auth_header, hash_appliance_secret}
use appliance_registry.Hostnames.{generate_label, full_hostname}
use appliance_registry.K8sSecrets.{SecretWriter}
use appliance_registry.UserRegistry.Client.{HttpClient}
use appliance_registry.Mariadb
use appliance_registry.RestModels.{ApplianceResponse}
use appliance_registry.Program.{Prog, ret, fail, call, on_error, guard, time_now, ◌>>=◌, ◌>>◌}

-- The limiter and the connections are part of the world. The two expiries are durations.
pub record WebApp : Type 0 where
  pub service_tokens : List Text
  pub plugin_tokens : List Text
  pub claim_token_expiry : ℕ
  pub exchange_code_expiry : ℕ
  pub base_domain : Text
  pub secret_writer : SecretWriter
  pub user_registry : HttpClient

-- huma's errors, by status: 401, 403, 404, 409, 429, 500 and 502.
pub data Failure : Type 0 where
  unauthorized forbidden not_found conflict too_many_requests internal_error bad_gateway :
      String → Failure

abbrev pub Handler : Type 0 → Type 0
Handler A = Prog Failure A

-- The one error that a call can have, as a response.
abbrev pub or_fail : {D A : Type 0} → Failure → Prog D A → Handler A
or_fail f m = on_error (λ _. fail f) m

abbrev pub required : {A : Type 0} → Failure → Option A → Handler A
required f none = fail f
required f (some a) = ret a

-- The error of a look-up: sql.ErrNoRows, and any other.
abbrev pub lookup_error : {A : Type 0} → Failure → Failure → DbError → Handler A
lookup_error missing broken no_rows = fail missing
lookup_error missing broken duplicate = fail broken
lookup_error missing broken unavailable = fail broken

module _ (x : External) (app : WebApp) where
  unfoldable pub use_token : Text → Handler Identity
  use_token authorization =
      required (unauthorized "invalid or expired token") (x.verify authorization)

  unfoldable pub store_secret_hash : ℕ → Text → Mariadb.Query (Unit {0})
  store_secret_hash id secret =
      Mariadb.set_appliance_secret_hash id (some (hash_appliance_secret x secret))

  unfoldable pub authenticate_appliance : ℕ → Text → Handler Appliance
  authenticate_appliance id auth_header = do
    secret ←
        required (unauthorized "missing appliance secret")
          (appliance_secret_from_auth_header auth_header)
    stored ←
        on_error
          (lookup_error (unauthorized "invalid appliance secret")
            (internal_error "failed to look up appliance secret"))
          (Mariadb.get_appliance_secret_hash id)
    guard
        (if text_eq stored (text "")
          then Bool.false
          else text_eq (hash_appliance_secret x secret) stored)
        (unauthorized "invalid appliance secret")
    appliance ←
        on_error
          (lookup_error (unauthorized "invalid appliance secret")
            (internal_error "failed to look up appliance"))
          (Mariadb.get_appliance id)
    guard (status_eq appliance.status active) (unauthorized "invalid appliance secret")
    ret appliance

  unfoldable pub hostname : Appliance → Text
  hostname a = full_hostname a.hostname_label app.base_domain

  unfoldable pub to_appliance_response : Appliance → ApplianceResponse
  to_appliance_response a = record {
    id = a.id;
    name = a.name;
    hostname = hostname a;
    status = status_text a.status;
    created_at = a.created_at;
    claimed_at = a.claimed_at;
    last_seen_at = a.last_seen_at;
  }

  unfoldable pub tunnel_url : Appliance → Text
  tunnel_url a = text "https://" ++ hostname a ++ text "/cloud-connect/v0/tunnel"

  unfoldable pub require_owning_group : ℕ → ℕ → Handler Appliance
  require_owning_group id group_id = do
    a ←
        on_error
          (lookup_error (not_found "appliance not found")
            (internal_error "failed to look up appliance"))
          (Mariadb.get_appliance id)
    guard (a.group_id == group_id) (not_found "appliance not found")
    ret a
