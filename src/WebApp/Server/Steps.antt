-- ===== src/WebApp/Server/Steps.antt =====
-- How many calls the handlers of internal/appliancewebapp/webapp.go make.
mod Parts
use appliance_registry.Prelude.{
  ℕ, zero, suc, ◌*◌, Bool, true, false, Option, none, some, Text, arith,
}
use appliance_registry.External.{External}
use appliance_registry.Persistence.{Appliance, active, DbError, no_rows, duplicate, unavailable}
use appliance_registry.Tokens.{bearer_token, check_service_tokens}
use appliance_registry.Mariadb.Steps
use appliance_registry.Program.{Prog, on_error, time_now, limiter_allow, call, ret}
use appliance_registry.Program.Steps.{
  AtMost, at_ret, at_fail, AtMost-le, AtMost->>=, AtMost-on_error, AtMost-if, AtMost-guard,
  AtMost-call, AtMost-or_fail, AtMost-ignored,
}
use appliance_registry.WebApp.{
  WebApp, Failure, required, lookup_error, use_token, store_secret_hash, authenticate_appliance,
  require_owning_group,
}
use appliance_registry.WebApp.Registration.{
  if_duplicate, create_appliance_from, create_appliance_with_retry, issue_claim_token,
}
use appliance_registry.WebApp.Registration
use appliance_registry.WebApp.Claiming
use appliance_registry.WebApp.Claiming.{publish_secret, activate, expired_claim, expired_code}
use appliance_registry.WebApp.Rotation
use appliance_registry.WebApp.Login
use appliance_registry.WebApp.Listing
use appliance_registry.WebApp.Server.{
  Request, register, list_appliances, enroll, claim, enroll_redeem, create_login_code, revoke,
  rotate_secret, rotate_own_secret, redeem_login_code, check_access, plugin_get_params, serve,
}
use appliance_registry.WebApp.Server.Steps.Parts.{
  AtMost-required, AtMost-lookup_error, AtMost-looked_up, AtMost-time_now, AtMost-use_token,
  AtMost-authenticate_appliance, AtMost-require_owning_group, AtMost-publish_secret,
  AtMost-activate, AtMost-expired_claim, AtMost-expired_code, AtMost-if_duplicate,
  AtMost-create_appliance_from, AtMost-issue_claim_token,
}

module _ (x : External) (app : WebApp) where
  AtMost-claim : (auth : Text) (id : ℕ) → AtMost 12 (Claiming.claim x app auth id)
  unfolding Claiming.claim
  AtMost-claim auth id = AtMost->>= (AtMost-required _ (bearer_token auth)) λ _.
      AtMost->>= (AtMost-looked_up _ _ (Steps.AtMost-get_claim_token id)) λ _.
        AtMost->>= AtMost-time_now λ _. AtMost->>= (AtMost-expired_claim id _) λ _.
          AtMost->>= (AtMost-guard _ _) λ _. AtMost->>= (AtMost-activate x app id) λ (a, s).
            AtMost->>= (AtMost-ignored tt (Steps.AtMost-delete_claim_token_of a.id)) λ _. at_ret 0 _

  AtMost-enroll_redeem : (auth : Text) (id : ℕ) → AtMost 14 (Claiming.enroll_redeem x app auth id)
  unfolding Claiming.enroll_redeem
  AtMost-enroll_redeem auth id = AtMost->>= (AtMost-required _ (bearer_token auth)) λ _.
      AtMost->>= (AtMost-looked_up _ _ (Steps.AtMost-get_enroll_exchange_code id)) λ _.
        AtMost->>= AtMost-time_now λ _. AtMost->>= (AtMost-expired_code id _) λ _.
          AtMost->>= (AtMost-guard _ _) λ _.
            AtMost->>= (AtMost-looked_up _ _ (Steps.AtMost-get_claim_token id)) λ _.
              AtMost->>= (AtMost-guard _ _) λ _. AtMost->>= (AtMost-activate x app id) λ (a, s).
                AtMost->>= (AtMost-ignored tt (Steps.AtMost-delete_claim_token_of a.id)) λ _.
                  AtMost->>= (AtMost-ignored tt (Steps.AtMost-delete_enroll_exchange_code a.id))
                    λ _. at_ret 0 _

  AtMost-revoke : (auth : Text) (id : ℕ) → AtMost 6 (Rotation.revoke x app auth id)
  unfolding Rotation.revoke
  AtMost-revoke auth id = AtMost->>= (AtMost-use_token x app auth) λ who.
      AtMost->>= (AtMost-require_owning_group x app id who.group_id) λ a.
        AtMost->>= (AtMost-or_fail _ (Steps.AtMost-set_appliance_status a.id _)) λ _.
          AtMost->>= (AtMost-or_fail _ (Steps.AtMost-delete_appliance_secret _ a.id)) λ _.
            AtMost->>= (AtMost-or_fail _ (Steps.AtMost-set_appliance_secret_hash a.id none))
              λ _. AtMost-ignored tt (Steps.AtMost-delete_claim_token_of a.id)

  AtMost-issue_new_secret : (a : Appliance) → AtMost 6 (Rotation.issue_new_secret x app a)
  unfolding Rotation.issue_new_secret
  AtMost-issue_new_secret a = AtMost->>= (AtMost-publish_secret x app a.id) λ _. at_ret 0 _

  AtMost-rotate_secret : (auth : Text) (id : ℕ) → AtMost 7 (Rotation.rotate_secret x app auth id)
  unfolding Rotation.rotate_secret
  AtMost-rotate_secret auth id = AtMost->>= (AtMost-use_token x app auth) λ who.
      AtMost->>= (AtMost-require_owning_group x app id who.group_id)
        λ a. AtMost->>= (AtMost-guard _ _) λ _. AtMost-issue_new_secret a

  AtMost-rotate_own_secret :
      (auth : Text) (id : ℕ) → AtMost 8 (Rotation.rotate_own_secret x app auth id)
  unfolding Rotation.rotate_own_secret
  AtMost-rotate_own_secret auth id =
      AtMost->>= (AtMost-authenticate_appliance x app id auth) AtMost-issue_new_secret

  AtMost-create_login_code :
      (auth : Text) (id : ℕ) → AtMost 6 (Login.create_login_code x app auth id)
  unfolding Login.create_login_code
  AtMost-create_login_code auth id = AtMost->>= (AtMost-use_token x app auth) λ who.
      AtMost->>= (AtMost-require_owning_group x app id who.group_id) λ a.
        AtMost->>= (AtMost-guard _ _) λ _.
          AtMost->>= (AtMost-or_fail _ (Steps.AtMost-generate_token x)) λ (code, hash).
            AtMost->>= AtMost-time_now λ now.
              AtMost->>= (AtMost-or_fail _ (Steps.AtMost-save_login_code hash a.id who.user_id _))
                λ _. at_ret 0 _

  AtMost-redeem_login_code :
      (auth : Text) (id : ℕ) (code : Text) → AtMost 5 (Login.redeem_login_code x app auth id code)
  unfolding Login.redeem_login_code
  AtMost-redeem_login_code auth id code =
      AtMost->>= (AtMost-authenticate_appliance x app id auth) λ a.
        AtMost->>= (AtMost-looked_up _ _ (Steps.AtMost-consume_login_code _ a.id)) λ l.
          AtMost->>= AtMost-time_now λ _. AtMost->>= (AtMost-guard _ _) λ _.
            AtMost->>= (AtMost-or_fail _ (Steps.AtMost-get_group_member x _ a.group_id l.user_id))
              λ acc. AtMost->>= (AtMost-required _ (Login.member acc)) λ _. at_ret 0 _

  AtMost-check_access :
      (auth : Text) (id user : ℕ) → AtMost 3 (Login.check_access x app auth id user)
  unfolding Login.check_access
  AtMost-check_access auth id user = AtMost->>= (AtMost-authenticate_appliance x app id auth) λ a.
      AtMost->>= (AtMost-or_fail _ (Steps.AtMost-get_group_member x _ a.group_id user))
        λ _. at_ret 0 _

  AtMost-list_appliances :
      (auth status : Text) (all : Bool) → AtMost 1 (Listing.list_appliances x app auth status all)
  unfolding Listing.list_appliances
  AtMost-list_appliances auth status all =
      AtMost-if (check_service_tokens app.service_tokens auth)
        (AtMost->>= (AtMost-or_fail _ (Steps.AtMost-list_appliances_by_status active))
          λ _. at_ret 0 _)
        (AtMost->>= (AtMost-use_token x app auth) λ who.
          AtMost->>= (AtMost-or_fail _ (Steps.AtMost-list_appliances_for_group who.group_id _))
            λ _. at_ret 0 _)

  AtMost-plugin_get_params : (auth : Text) → AtMost 2 (Listing.plugin_get_params x app auth)
  unfolding Listing.plugin_get_params
  AtMost-plugin_get_params auth = AtMost->>= (AtMost-call limiter_allow (at_ret 0)) λ _.
      AtMost->>= (AtMost-guard _ _) λ _. AtMost->>= (AtMost-guard _ _) λ _.
        AtMost->>= (AtMost-or_fail _ (Steps.AtMost-list_appliances_by_status active))
          λ _. at_ret 0 _

  AtMost-register : (auth name : Text) → AtMost 18 (Registration.register x app auth name)
  unfolding Registration.register create_appliance_with_retry
  AtMost-register auth name = AtMost->>= (AtMost-use_token x app auth) λ who.
      AtMost->>= (AtMost-or_fail _ (AtMost-create_appliance_from x app 4 name who.group_id))
        λ a. AtMost->>= (AtMost-or_fail _ (AtMost-issue_claim_token x app a.id)) λ _. at_ret 0 _

  AtMost-enroll : (auth name : Text) → AtMost 21 (Registration.enroll x app auth name)
  unfolding Registration.enroll create_appliance_with_retry
  AtMost-enroll auth name = AtMost->>= (AtMost-use_token x app auth) λ who.
      AtMost->>= (AtMost-or_fail _ (AtMost-create_appliance_from x app 4 name who.group_id)) λ a.
        AtMost->>= (AtMost-or_fail _ (AtMost-issue_claim_token x app a.id)) λ t.
          AtMost->>= (AtMost-or_fail _ (Steps.AtMost-generate_token x)) λ (code, hash).
            AtMost->>= AtMost-time_now λ _.
              AtMost->>=
                (AtMost-or_fail _ (Steps.AtMost-save_enroll_exchange_code a.id hash t.hash _))
                λ _. at_ret 0 _

abbrev pub most_calls : Request → ℕ
most_calls (register _ _) = 18
most_calls (list_appliances _ _ _) = 1
most_calls (enroll _ _) = 21
most_calls (claim _ _) = 12
most_calls (enroll_redeem _ _) = 14
most_calls (create_login_code _ _) = 6
most_calls (revoke _ _) = 6
most_calls (rotate_secret _ _) = 7
most_calls (rotate_own_secret _ _) = 8
most_calls (redeem_login_code _ _ _) = 5
most_calls (check_access _ _ _) = 3
most_calls (plugin_get_params _ _) = 2

-- Whatever the services answer, a request ends after at most so many calls: 18 for Register, with its
-- five attempts at a label, 21 for Enroll, 12 for Claim, 14 for EnrollRedeem, and at most 8 for
-- every other.
pub AtMost-serve :
    (x : External) (app : WebApp) (r : Request) → AtMost (most_calls r) (serve x app r)
unfolding serve
AtMost-serve x app (register auth body) =
    AtMost->>= (AtMost-register x app auth body.name) λ _. at_ret 0 _
AtMost-serve x app (list_appliances auth status all) =
    AtMost->>= (AtMost-list_appliances x app auth status all) λ _. at_ret 0 _
AtMost-serve x app (enroll auth body) =
    AtMost->>= (AtMost-enroll x app auth body.name) λ _. at_ret 0 _
AtMost-serve x app (claim auth id) = AtMost->>= (AtMost-claim x app auth id) λ _. at_ret 0 _
AtMost-serve x app (enroll_redeem auth id) =
    AtMost->>= (AtMost-enroll_redeem x app auth id) λ _. at_ret 0 _
AtMost-serve x app (create_login_code auth id) =
    AtMost->>= (AtMost-create_login_code x app auth id) λ _. at_ret 0 _
AtMost-serve x app (revoke auth id) = AtMost->>= (AtMost-revoke x app auth id) λ _. at_ret 0 _
AtMost-serve x app (rotate_secret auth id) =
    AtMost->>= (AtMost-rotate_secret x app auth id) λ _. at_ret 0 _
AtMost-serve x app (rotate_own_secret auth id) =
    AtMost->>= (AtMost-rotate_own_secret x app auth id) λ _. at_ret 0 _
AtMost-serve x app (redeem_login_code auth id body) =
    AtMost->>= (AtMost-redeem_login_code x app auth id body.code) λ _. at_ret 0 _
AtMost-serve x app (check_access auth id user) =
    AtMost->>= (AtMost-check_access x app auth id user) λ _. at_ret 0 _
AtMost-serve x app (plugin_get_params auth body) =
    AtMost->>= (AtMost-plugin_get_params x app auth) λ _. at_ret 0 _
