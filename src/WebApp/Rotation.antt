-- ===== src/WebApp/Rotation.antt =====
-- internal/appliancewebapp/webapp.go: Revoke, RotateSecret, RotateOwnSecret and issueNewSecret.
pub mod Outcomes
pub mod Hidden
pub mod Access
pub mod Revocation
pub mod Success
use appliance_registry.Prelude.{ℕ, none, Text}
use appliance_registry.External.{External}
use appliance_registry.Persistence.{Appliance, active, revoked}
use appliance_registry.World.Statements.{status_eq}
use appliance_registry.K8sSecrets.{delete_appliance_secret}
use appliance_registry.Mariadb
use appliance_registry.RestModels.{ClaimApplianceResponse}
use appliance_registry.Program.{Prog, ret, fail, on_error, ignore, guard, ◌>>=◌, ◌>>◌}
use appliance_registry.WebApp.{
  WebApp, Handler, or_fail, conflict, internal_error, use_token, authenticate_appliance,
  require_owning_group,
}
use appliance_registry.WebApp.Claiming.{claim_response, publish_secret}

module _ (x : External) (app : WebApp) where
  unfoldable pub revoke : (authorization : Text) (id : ℕ) → Handler (Unit {0})
  revoke authorization id = do
    who ← use_token x app authorization
    appliance ← require_owning_group x app id who.group_id
    or_fail (internal_error "failed to revoke appliance")
        (Mariadb.set_appliance_status appliance.id revoked)
    or_fail (internal_error "failed to remove cloud-connect secret")
        (delete_appliance_secret app.secret_writer appliance.id)
    or_fail (internal_error "failed to clear appliance secret hash")
        (Mariadb.set_appliance_secret_hash appliance.id none)
    ignore tt (Mariadb.delete_claim_token_of appliance.id)

  unfoldable pub issue_new_secret : Appliance → Handler ClaimApplianceResponse
  issue_new_secret appliance = do
    secret ← publish_secret x app appliance.id
    ret (claim_response x app appliance secret)

  unfoldable pub rotate_secret : (authorization : Text) (id : ℕ) → Handler ClaimApplianceResponse
  rotate_secret authorization id = do
    who ← use_token x app authorization
    appliance ← require_owning_group x app id who.group_id
    guard (status_eq appliance.status active)
        (conflict "only an active appliance's secret can be rotated")
    issue_new_secret appliance

  unfoldable pub rotate_own_secret :
      (authorization : Text) (id : ℕ) → Handler ClaimApplianceResponse
  rotate_own_secret authorization id = do
    appliance ← authenticate_appliance x app id authorization
    issue_new_secret appliance
