-- ===== src/WebApp/Server/Steps/Parts.antt =====
-- How many calls the parts of the handlers of internal/appliancewebapp/webapp.go make.
use appliance_registry.Prelude.{
  ℕ, zero, suc, ◌*◌, Bool, true, false, Option, none, some, Text, arith,
}
use appliance_registry.External.{External}
use appliance_registry.Persistence.{DbError, no_rows, duplicate, unavailable}
use appliance_registry.Tokens.{bearer_token}
use appliance_registry.Mariadb.Steps
use appliance_registry.Program.{Prog, on_error, time_now, call, ret}
use appliance_registry.Program.Steps.{
  AtMost, at_ret, at_fail, AtMost-le, AtMost->>=, AtMost-on_error, AtMost-guard, AtMost-call,
  AtMost-or_fail, AtMost-ignored,
}
use appliance_registry.WebApp.{
  WebApp, Failure, required, lookup_error, use_token, store_secret_hash, authenticate_appliance,
  require_owning_group,
}
use appliance_registry.WebApp.Registration.{if_duplicate, create_appliance_from, issue_claim_token}
use appliance_registry.WebApp.Claiming.{publish_secret, activate, expired_claim, expired_code}

pub AtMost-required : {A : Type 0} (f : Failure) (o : Option A) → AtMost 0 (required f o)
AtMost-required f none = at_fail 0 f
AtMost-required f (some a) = at_ret 0 a

pub AtMost-lookup_error :
    {A : Type 0} (f g : Failure) (e : DbError) → AtMost 0 (lookup_error {A = A} f g e)
AtMost-lookup_error f g no_rows = at_fail 0 f
AtMost-lookup_error f g duplicate = at_fail 0 g
AtMost-lookup_error f g unavailable = at_fail 0 g

pub AtMost-looked_up :
    {n : ℕ} {A : Type 0} (f g : Failure) {m : Prog DbError A}
    → AtMost n m
    → AtMost n (on_error (lookup_error f g) m)
AtMost-looked_up {n = n} f g u =
    AtMost-le n (AtMost-on_error u (AtMost-lookup_error f g)) (omega arith)

pub AtMost-time_now : {E : Type 0} → AtMost {E = E} 1 (call time_now ret)
AtMost-time_now = AtMost-call time_now (at_ret 0)

pub AtMost-expired_claim : (id : ℕ) (late : Bool) → AtMost 1 (expired_claim id late)
AtMost-expired_claim id true =
    AtMost->>= (AtMost-ignored tt (Steps.AtMost-delete_claim_token_of id)) λ _. at_fail 0 _
AtMost-expired_claim id false = at_ret 1 tt

pub AtMost-expired_code : (id : ℕ) (late : Bool) → AtMost 1 (expired_code id late)
AtMost-expired_code id true =
    AtMost->>= (AtMost-ignored tt (Steps.AtMost-delete_enroll_exchange_code id)) λ _. at_fail 0 _
AtMost-expired_code id false = at_ret 1 tt

pub AtMost-if_duplicate :
    {n : ℕ} {A : Type 0} {m : Prog (Unit {0}) A} (e : DbError)
    → AtMost n m
    → AtMost n (if_duplicate m e)
AtMost-if_duplicate {n = n} no_rows u = at_fail n tt
AtMost-if_duplicate duplicate u = u
AtMost-if_duplicate {n = n} unavailable u = at_fail n tt

module _ (x : External) (app : WebApp) where
  pub AtMost-use_token : (auth : Text) → AtMost 0 (use_token x app auth)
  unfolding use_token
  AtMost-use_token auth = AtMost-required _ _

  pub AtMost-authenticate_appliance :
      (id : ℕ) (auth : Text) → AtMost 2 (authenticate_appliance x app id auth)
  unfolding authenticate_appliance
  AtMost-authenticate_appliance id auth = AtMost->>= (AtMost-required _ (bearer_token auth)) λ _.
      AtMost->>= (AtMost-looked_up _ _ (Steps.AtMost-get_appliance_secret_hash id)) λ _.
        AtMost->>= (AtMost-guard _ _) λ _.
          AtMost->>= (AtMost-looked_up _ _ (Steps.AtMost-get_appliance id))
            λ a. AtMost->>= (AtMost-guard _ _) λ _. at_ret 0 a

  pub AtMost-require_owning_group : (id g : ℕ) → AtMost 1 (require_owning_group x app id g)
  unfolding require_owning_group
  AtMost-require_owning_group id g =
      AtMost->>= (AtMost-looked_up _ _ (Steps.AtMost-get_appliance id))
        λ a. AtMost->>= (AtMost-guard _ _) λ _. at_ret 0 a

  pub AtMost-publish_secret : (id : ℕ) → AtMost 6 (publish_secret x app id)
  unfolding publish_secret store_secret_hash
  AtMost-publish_secret id =
      AtMost->>= (AtMost-or_fail _ (Steps.AtMost-generate_appliance_secret id)) λ s.
        AtMost->>= (AtMost-or_fail _ (Steps.AtMost-write_appliance_secret _ id s)) λ _.
          AtMost->>= (AtMost-or_fail _ (Steps.AtMost-set_appliance_secret_hash id _))
            λ _. at_ret 0 s

  pub AtMost-activate : (id : ℕ) → AtMost 8 (activate x app id)
  unfolding activate
  AtMost-activate id = AtMost->>= (AtMost-looked_up _ _ (Steps.AtMost-get_appliance id)) λ a.
      AtMost->>= (AtMost-guard _ _) λ _. AtMost->>= (AtMost-publish_secret a.id) λ s.
        AtMost->>= (AtMost-or_fail _ (Steps.AtMost-mark_appliance_claimed a.id)) λ _. at_ret 0 _

  pub AtMost-create_appliance_from :
      (n : ℕ) (name : Text) (g : ℕ) → AtMost (3 * suc n) (create_appliance_from x app n name g)
  unfolding create_appliance_from
  AtMost-create_appliance_from zero name g =
      AtMost->>= (Steps.AtMost-generate_label x name)
        λ l. AtMost-or_fail tt (Steps.AtMost-create_appliance name l g)
  AtMost-create_appliance_from (suc n) name g =
      let again = AtMost-create_appliance_from n name g in
      AtMost-le (3 * suc (suc n))
        (AtMost->>= (Steps.AtMost-generate_label x name) λ l.
          AtMost-on_error (Steps.AtMost-create_appliance name l g) λ e. AtMost-if_duplicate e again)
        (omega arith)

  pub AtMost-issue_claim_token : (id : ℕ) → AtMost 3 (issue_claim_token x app id)
  unfolding issue_claim_token
  AtMost-issue_claim_token id = AtMost->>= (Steps.AtMost-generate_token x) λ (raw, hash).
      AtMost->>= AtMost-time_now λ _.
        AtMost->>= (AtMost-or_fail tt (Steps.AtMost-save_claim_token id hash _)) λ _. at_ret 0 _
