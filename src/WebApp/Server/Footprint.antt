-- ===== src/WebApp/Server/Footprint.antt =====
-- The calls that the handlers of internal/appliancewebapp/webapp.go can make.
use appliance_registry.Prelude.{
  ◌≡◌, refl, ℕ, zero, suc, Bool, true, false, Option, none, some, Text,
}
use appliance_registry.External.{External}
use appliance_registry.Persistence.{Appliance, DbError, no_rows, duplicate, unavailable}
use appliance_registry.Mariadb.Footprint
use appliance_registry.Mariadb.Footprint.{Quiet, calls}
use appliance_registry.Program.{Prog}
use appliance_registry.Program.Footprint.{uses_ret, uses_fail}
use appliance_registry.WebApp.{
  WebApp, Failure, required, lookup_error, use_token, store_secret_hash, authenticate_appliance,
  require_owning_group,
}
use appliance_registry.WebApp.Registration.{
  if_duplicate, create_appliance_from, create_appliance_with_retry, issue_claim_token,
}
use appliance_registry.WebApp.Registration
use appliance_registry.WebApp.Claiming
use appliance_registry.WebApp.Claiming.{publish_secret, activate, expired_claim, expired_code}
use appliance_registry.WebApp.Rotation
use appliance_registry.WebApp.Login
use appliance_registry.WebApp.Listing
use appliance_registry.WebApp.Server.{
  Request, register, list_appliances, enroll, claim, enroll_redeem, create_login_code, revoke,
  rotate_secret, rotate_own_secret, redeem_login_code, check_access, plugin_get_params, serve,
}

pub Quiet-required : {c : Bool} {A : Type 0} (f : Failure) (o : Option A) → Quiet c (required f o)
Quiet-required f none = uses_fail f
Quiet-required f (some a) = uses_ret a

pub Quiet-lookup_error :
    {c : Bool} {A : Type 0} (f g : Failure) (e : DbError) → Quiet c (lookup_error {A = A} f g e)
Quiet-lookup_error f g no_rows = uses_fail f
Quiet-lookup_error f g duplicate = uses_fail g
Quiet-lookup_error f g unavailable = uses_fail g

pub ruleset queries = (
  calls, Quiet-required, Quiet-lookup_error, Footprint.Quiet-get_appliance,
  Footprint.Quiet-create_appliance, Footprint.Quiet-list_appliances_for_group,
  Footprint.Quiet-list_appliances_by_status, Footprint.Quiet-save_claim_token,
  Footprint.Quiet-get_claim_token, Footprint.Quiet-delete_claim_token_of,
  Footprint.Quiet-save_enroll_exchange_code, Footprint.Quiet-get_enroll_exchange_code,
  Footprint.Quiet-delete_enroll_exchange_code, Footprint.Quiet-set_appliance_secret_hash,
  Footprint.Quiet-get_appliance_secret_hash, Footprint.Quiet-save_login_code,
  Footprint.Quiet-consume_login_code, Footprint.Quiet-set_appliance_status,
  Footprint.Quiet-generate_token, Footprint.Quiet-generate_appliance_secret,
  Footprint.Quiet-generate_label, Footprint.Quiet-write_appliance_secret,
  Footprint.Quiet-delete_appliance_secret, Footprint.Quiet-get_group_member,
)

module _ {c : Bool} (x : External) (app : WebApp) where
  pub Quiet-use_token : (auth : Text) → Quiet c (use_token x app auth)
  unfolding use_token
  Quiet-use_token auth = search queries

  pub Quiet-authenticate_appliance :
      (id : ℕ) (auth : Text) → Quiet c (authenticate_appliance x app id auth)
  unfolding authenticate_appliance
  Quiet-authenticate_appliance id auth = search queries depth 12

  pub Quiet-require_owning_group : (id g : ℕ) → Quiet c (require_owning_group x app id g)
  unfolding require_owning_group
  Quiet-require_owning_group id g = search queries depth 12

  pub Quiet-publish_secret : (id : ℕ) → Quiet c (publish_secret x app id)
  unfolding publish_secret store_secret_hash
  Quiet-publish_secret id = search queries depth 12

  pub Quiet-expired_claim : (id : ℕ) (late : Bool) → Quiet c (expired_claim id late)
  Quiet-expired_claim id true = search queries depth 12
  Quiet-expired_claim id false = uses_ret tt

  pub Quiet-expired_code : (id : ℕ) (late : Bool) → Quiet c (expired_code id late)
  Quiet-expired_code id true = search queries depth 12
  Quiet-expired_code id false = uses_ret tt

  pub ruleset parts = (
    queries, Quiet-use_token, Quiet-authenticate_appliance, Quiet-require_owning_group,
    Quiet-publish_secret, Quiet-expired_claim, Quiet-expired_code,
  )

  Quiet-revoke : (auth : Text) (id : ℕ) → Quiet c (Rotation.revoke x app auth id)
  unfolding Rotation.revoke
  Quiet-revoke auth id = search parts depth 20

  Quiet-issue_new_secret : (a : Appliance) → Quiet c (Rotation.issue_new_secret x app a)
  unfolding Rotation.issue_new_secret
  Quiet-issue_new_secret a = search parts depth 20

  Quiet-rotate_secret : (auth : Text) (id : ℕ) → Quiet c (Rotation.rotate_secret x app auth id)
  unfolding Rotation.rotate_secret
  Quiet-rotate_secret auth id = search (parts, Quiet-issue_new_secret) depth 20

  Quiet-rotate_own_secret :
      (auth : Text) (id : ℕ) → Quiet c (Rotation.rotate_own_secret x app auth id)
  unfolding Rotation.rotate_own_secret
  Quiet-rotate_own_secret auth id = search (parts, Quiet-issue_new_secret) depth 20

  Quiet-create_login_code : (auth : Text) (id : ℕ) → Quiet c (Login.create_login_code x app auth id)
  unfolding Login.create_login_code
  Quiet-create_login_code auth id = search parts depth 20

  Quiet-redeem_login_code :
      (auth : Text) (id : ℕ) (code : Text) → Quiet c (Login.redeem_login_code x app auth id code)
  unfolding Login.redeem_login_code
  Quiet-redeem_login_code auth id code = search parts depth 20

  Quiet-check_access : (auth : Text) (id user : ℕ) → Quiet c (Login.check_access x app auth id user)
  unfolding Login.check_access
  Quiet-check_access auth id user = search parts depth 20

  Quiet-list_appliances :
      (auth status : Text) (all : Bool) → Quiet c (Listing.list_appliances x app auth status all)
  unfolding Listing.list_appliances
  Quiet-list_appliances auth status all = search parts depth 20

  Quiet-plugin_get_params : (auth : Text) → Quiet c (Listing.plugin_get_params x app auth)
  unfolding Listing.plugin_get_params
  Quiet-plugin_get_params auth = search parts depth 20

  Quiet-if_duplicate :
      {A : Type 0} {m : Prog (Unit {0}) A} (e : DbError) → Quiet c m → Quiet c (if_duplicate m e)
  Quiet-if_duplicate no_rows q = uses_fail tt
  Quiet-if_duplicate duplicate q = q
  Quiet-if_duplicate unavailable q = uses_fail tt

  Quiet-create_appliance_from :
      (n : ℕ) (name : Text) (g : ℕ) → Quiet c (create_appliance_from x app n name g)
  unfolding create_appliance_from
  Quiet-create_appliance_from zero name g = search parts depth 20
  Quiet-create_appliance_from (suc n) name g =
      search (parts, Quiet-if_duplicate, Quiet-create_appliance_from n name g) depth 20

  Quiet-issue_claim_token : (id : ℕ) → Quiet c (issue_claim_token x app id)
  unfolding issue_claim_token
  Quiet-issue_claim_token id = search parts depth 20

  Quiet-register : (auth name : Text) → Quiet c (Registration.register x app auth name)
  unfolding Registration.register create_appliance_with_retry
  Quiet-register auth name =
      search (parts, Quiet-create_appliance_from, Quiet-issue_claim_token) depth 20

  Quiet-enroll : (auth name : Text) → Quiet c (Registration.enroll x app auth name)
  unfolding Registration.enroll create_appliance_with_retry
  Quiet-enroll auth name =
      search (parts, Quiet-create_appliance_from, Quiet-issue_claim_token) depth 20

module _ {c : Bool} (x : External) (app : WebApp) (marks : c ≡ true) where
  pub Quiet-activate : (id : ℕ) → Quiet c (activate x app id)
  unfolding activate
  Quiet-activate id = search (parts, Footprint.Quiet-mark_appliance_claimed marks) depth 12

  Quiet-claim : (auth : Text) (id : ℕ) → Quiet c (Claiming.claim x app auth id)
  unfolding Claiming.claim
  Quiet-claim auth id = search (parts, Quiet-activate) depth 20

  Quiet-enroll_redeem : (auth : Text) (id : ℕ) → Quiet c (Claiming.enroll_redeem x app auth id)
  unfolding Claiming.enroll_redeem
  Quiet-enroll_redeem auth id = search (parts, Quiet-activate) depth 24

-- The requests that can mark a claim.
abbrev pub claims : Request → Bool
claims (claim _ _) = true
claims (enroll_redeem _ _) = true
claims _ = false

module _ (x : External) (app : WebApp) where
  pub Quiet-serve_any :
      {c : Bool} (r : Request) → (claims r ≡ true → c ≡ true) → Quiet c (serve x app r)
  unfolding serve
  Quiet-serve_any (register auth body) e = search (parts, Quiet-register)
  Quiet-serve_any (list_appliances auth status all) e = search (parts, Quiet-list_appliances)
  Quiet-serve_any (enroll auth body) e = search (parts, Quiet-enroll)
  Quiet-serve_any (claim auth id) e = search (parts, Quiet-claim x app (e refl))
  Quiet-serve_any (enroll_redeem auth id) e = search (parts, Quiet-enroll_redeem x app (e refl))
  Quiet-serve_any (create_login_code auth id) e = search (parts, Quiet-create_login_code)
  Quiet-serve_any (revoke auth id) e = search (parts, Quiet-revoke)
  Quiet-serve_any (rotate_secret auth id) e = search (parts, Quiet-rotate_secret)
  Quiet-serve_any (rotate_own_secret auth id) e = search (parts, Quiet-rotate_own_secret)
  Quiet-serve_any (redeem_login_code auth id body) e = search (parts, Quiet-redeem_login_code)
  Quiet-serve_any (check_access auth id user) e = search (parts, Quiet-check_access)
  Quiet-serve_any (plugin_get_params auth body) e = search (parts, Quiet-plugin_get_params)

  -- Whatever the answers, a handler sets no status by itself but `revoked`, and marks claims.
  pub Quiet-serve : (r : Request) → Quiet true (serve x app r)
  Quiet-serve r = Quiet-serve_any r (λ _. refl)
