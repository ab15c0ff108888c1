-- ===== src/WebApp/Login.antt =====
-- internal/appliancewebapp/webapp.go: CreateLoginCode, RedeemLoginCode and CheckAccess.
pub mod Outcomes
pub mod Issuing
pub mod Checking
use appliance_registry.Prelude.{ℕ, ◌+◌, Bool, not, Option, none, some, Text, ltb}
use appliance_registry.Clock.{after}
use appliance_registry.External.{External}
use appliance_registry.Persistence.{active}
use appliance_registry.World.Statements.{status_eq}
use appliance_registry.Tokens.{generate_exchange_code, hash_exchange_code}
use appliance_registry.UserRegistry.Access.{Access, User}
use appliance_registry.UserRegistry.Client.{get_group_member}
use appliance_registry.Mariadb
use appliance_registry.RestModels.{LoginCodeResponse, CloudUserResponse, ApplianceAccessResponse}
use appliance_registry.Program.{Prog, ret, fail, call, on_error, guard, time_now, ◌>>=◌, ◌>>◌}
use appliance_registry.WebApp.{
  WebApp, Handler, or_fail, required, lookup_error, unauthorized, forbidden, conflict,
  internal_error, bad_gateway, use_token, authenticate_appliance, hostname, require_owning_group,
}

abbrev pub user_response : User → CloudUserResponse
user_response u = record {
  id = u.id;
  username = u.username;
  name = u.name;
  surname = u.surname;
  email = u.email;
}

-- The user whom an answer names, if it says that the user is a member.
abbrev pub member : Access → Option User
member a = elim a.is_member [ Bool.true ↦ a.user | Bool.false ↦ none ]

module _ (x : External) (app : WebApp) where
  unfoldable pub create_login_code : (authorization : Text) (id : ℕ) → Handler LoginCodeResponse
  create_login_code authorization id = do
    who ← use_token x app authorization
    appliance ← require_owning_group x app id who.group_id
    guard (status_eq appliance.status active) (conflict "appliance is not active")
    (raw_code, code_hash) ←
        or_fail (internal_error "failed to generate login code") (generate_exchange_code x)
    now ← call time_now ret
    or_fail (internal_error "failed to issue login code") (
        Mariadb.save_login_code code_hash appliance.id who.user_id
          (after now app.exchange_code_expiry))
    ret (record {
      code = raw_code;
      expires_at = after now app.exchange_code_expiry;
      hostname = hostname x app appliance;
    })

  unfoldable pub redeem_login_code :
      (authorization : Text) (id : ℕ) (code : Text) → Handler CloudUserResponse
  redeem_login_code authorization id code = do
    appliance ← authenticate_appliance x app id authorization
    login ←
        on_error
          (lookup_error (unauthorized "invalid or expired login code")
            (internal_error "failed to look up login code"))
          (Mariadb.consume_login_code (hash_exchange_code x code) appliance.id)
    now ← call time_now ret
    guard (not (ltb login.expires_at now)) (unauthorized "invalid or expired login code")
    access ←
        or_fail (bad_gateway "failed to verify group membership")
          (get_group_member x app.user_registry appliance.group_id login.user_id)
    user ← required (forbidden "user no longer has access to this appliance") (member access)
    ret (user_response user)

  unfoldable pub check_access :
      (authorization : Text) (id user_id : ℕ) → Handler ApplianceAccessResponse
  check_access authorization id user_id = do
    appliance ← authenticate_appliance x app id authorization
    access ←
        or_fail (bad_gateway "failed to verify group membership")
          (get_group_member x app.user_registry appliance.group_id user_id)
    ret (record { allowed = access.is_member })
