-- ===== src/WebApp/Claiming.antt =====
-- internal/appliancewebapp/webapp.go: Claim, EnrollRedeem, and issueNewSecret with its two callers.
pub mod Publishing
pub mod Activation
pub mod Outcomes
pub mod Success
pub mod Redeeming
pub mod Access
use appliance_registry.Prelude.{ℕ, ◌+◌, Bool, not, Text, text_eq, ltb}
use appliance_registry.External.{External}
use appliance_registry.Persistence.{Appliance, pending, active, revoked, DbError}
use appliance_registry.World.Statements.{status_eq}
use appliance_registry.Tokens.{
  claim_token_from_auth_header, hash_claim_token, hash_exchange_code, generate_appliance_secret,
}
use appliance_registry.K8sSecrets.{write_appliance_secret, delete_appliance_secret}
use appliance_registry.Mariadb
use appliance_registry.RestModels.{ClaimApplianceResponse}
use appliance_registry.Program.{
  Prog, ret, fail, call, on_error, ignore, guard, time_now, ◌>>=◌, ◌>>◌,
}
use appliance_registry.WebApp.{
  WebApp, Handler, or_fail, required, lookup_error, unauthorized, not_found, conflict,
  internal_error, use_token, store_secret_hash, authenticate_appliance, hostname, tunnel_url,
  require_owning_group,
}

-- An expired token is deleted, whatever becomes of that, before the refusal.
abbrev pub expired_claim : ℕ → Bool → Handler (Unit {0})
expired_claim id Bool.true = do
  ignore tt (Mariadb.delete_claim_token_of id)
  fail (unauthorized "invalid or expired claim token")
expired_claim id Bool.false = ret tt

abbrev pub expired_code : ℕ → Bool → Handler (Unit {0})
expired_code id Bool.true = do
  ignore tt (Mariadb.delete_enroll_exchange_code id)
  fail (unauthorized "invalid or expired exchange code")
expired_code id Bool.false = ret tt

module _ (x : External) (app : WebApp) where
  abbrev pub claim_response : Appliance → Text → ClaimApplianceResponse
  claim_response appliance secret = record {
    appliance_secret = secret;
    hostname = hostname x app appliance;
    tunnel_url = tunnel_url x app appliance;
  }

  -- The secret is generated, published to the cluster, and kept as a hash.
  unfoldable pub publish_secret : ℕ → Handler Text
  publish_secret id = do
    secret ←
        or_fail (internal_error "failed to generate appliance secret")
          (generate_appliance_secret id)
    or_fail (internal_error "failed to provision cloud-connect secret")
        (write_appliance_secret app.secret_writer id secret)
    or_fail (internal_error "failed to persist appliance secret hash")
        (store_secret_hash x app id secret)
    ret secret

  -- The middle part that Claim and EnrollRedeem have in common.
  unfoldable pub activate : ℕ → Handler (Appliance × Text)
  activate id = do
    appliance ←
        on_error
          (lookup_error (not_found "appliance not found")
            (internal_error "failed to look up appliance"))
          (Mariadb.get_appliance id)
    guard (status_eq appliance.status pending) (conflict "appliance has already been claimed")
    secret ← publish_secret appliance.id
    or_fail (internal_error "failed to mark appliance claimed")
        (Mariadb.mark_appliance_claimed appliance.id)
    ret (appliance, secret)

  unfoldable pub claim : (authorization : Text) (id : ℕ) → Handler ClaimApplianceResponse
  claim authorization id = do
    raw_token ←
        required (unauthorized "missing claim token") (claim_token_from_auth_header authorization)
    stored ←
        on_error
          (lookup_error (unauthorized "invalid or expired claim token")
            (internal_error "failed to look up claim token"))
          (Mariadb.get_claim_token id)
    now ← call time_now ret
    expired_claim id (ltb stored.expires_at now)
    guard (text_eq (hash_claim_token x raw_token) stored.token_hash)
        (unauthorized "invalid or expired claim token")
    (appliance, secret) ← activate id
    ignore tt (Mariadb.delete_claim_token_of appliance.id)
    ret (claim_response appliance secret)

  unfoldable pub enroll_redeem : (authorization : Text) (id : ℕ) → Handler ClaimApplianceResponse
  enroll_redeem authorization id = do
    raw_code ←
        required (unauthorized "missing exchange code") (claim_token_from_auth_header authorization)
    exchange_code ←
        on_error
          (lookup_error (unauthorized "invalid or expired exchange code")
            (internal_error "failed to look up exchange code"))
          (Mariadb.get_enroll_exchange_code id)
    now ← call time_now ret
    expired_code id (ltb exchange_code.expires_at now)
    guard (text_eq (hash_exchange_code x raw_code) exchange_code.code_hash)
        (unauthorized "invalid or expired exchange code")
    claim_token ←
        on_error
          (lookup_error (unauthorized "invalid or expired exchange code")
            (internal_error "failed to look up claim token"))
          (Mariadb.get_claim_token id)
    guard (text_eq exchange_code.claim_token_hash claim_token.token_hash)
        (unauthorized "invalid or expired exchange code")
    (appliance, secret) ← activate id
    ignore tt (Mariadb.delete_claim_token_of appliance.id)
    ignore tt (Mariadb.delete_enroll_exchange_code appliance.id)
    ret (claim_response appliance secret)
