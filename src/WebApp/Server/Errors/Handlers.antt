-- ===== src/WebApp/Server/Errors/Handlers.antt =====
-- The handlers of internal/appliancewebapp/webapp.go, where nothing fails: which of them can answer with
-- the status 500, and when.
use appliance_registry.Prelude.{
  ℕ, ◌≡◌, refl, sym, ap, subst, Bool, true, false, Option, none, some, List, ◌∷◌, Text, arith, find,
  if◌then◌else◌,
}
use appliance_registry.External.{External, Backend}
use appliance_registry.Persistence.{Appliance, active, revoked}
use appliance_registry.World.{World, Database}
use appliance_registry.World.Statements.{set_status, status_eq}
use appliance_registry.World.Codes.{has_hash}
use appliance_registry.World.Rows.{appliance_of, row_of-amend}
use appliance_registry.Text.{hex}
use appliance_registry.Tokens.{bearer_token, hash_secret, check_service_tokens}
use appliance_registry.Mariadb
use appliance_registry.Mariadb.Success.{Calm, time_now_succeeds, set_hash_succeeds, ignore_succeeds}
use appliance_registry.Mariadb.Ends.{
  get_claim_token_ends, get_enroll_exchange_code_ends, consume_login_code_ends,
  list_appliances_for_group_succeeds, list_appliances_by_status_succeeds, save_login_code_succeeds,
  generate_token_succeeds,
}
use appliance_registry.UserRegistry.Client.{get_group_member}
use appliance_registry.Program.{limiter_allow, time_now, call, ret}
use appliance_registry.Program.Run.{run, perform}
use appliance_registry.Program.Ends.{
  Ends, ends_ret, ends_Succeeds, ends_Returns, ends_then, ends_guard,
}
use appliance_registry.WebApp.{WebApp, Handler, use_token}
use appliance_registry.WebApp.Claiming.{claim, enroll_redeem}
use appliance_registry.WebApp.Claiming.Success.{publish_secret_succeeds}
use appliance_registry.WebApp.Listing.{list_appliances, plugin_get_params}
use appliance_registry.WebApp.Login.{create_login_code, redeem_login_code, check_access, member}
use appliance_registry.WebApp.Rotation.{revoke, rotate_secret, rotate_own_secret, issue_new_secret}
use appliance_registry.WebApp.Rotation.Success.{
  set_status_succeeds, delete_appliance_secret_succeeds,
}
use appliance_registry.WebApp.Server.Errors.{
  Explained, required_ends, looked_up_ends, sure_ends, or_fail_ends, moved,
  authenticate_appliance_ends, require_owning_group_ends, activate_ends, expired_claim_ends,
  expired_code_ends,
}

module _ {b : Backend} (x : External) (app : WebApp) where
  pub use_token_ends :
      (auth : Text) (w : World b)
      → Ends (use_token x app auth) w Explained (λ who v. (x.verify auth ≡ some who) × (v ≡ w))
  unfolding use_token
  use_token_ends auth w = required_ends _ (x.verify auth) w tt

  time_now_ends : (w : World b) → Ends (call time_now ret) w Explained (λ _ _. Unit {0})
  unfolding run
  time_now_ends w = record { outcome = tt }

  module _ {db : Database} {entropy : List (Option (List ℕ))} (w : World b)
      (c : Calm w db entropy) where
    pub redeem_login_code_ends :
        (auth : Text) (id : ℕ) (code : Text)
        → Ends (redeem_login_code x app auth id code) w Explained (λ _ _. Unit {0})
    unfolding redeem_login_code
    redeem_login_code_ends auth id code =
        ends_then (authenticate_appliance_ends x app id auth w c) λ a w₁ (_, c₁).
          ends_then (looked_up_ends _ _ tt (consume_login_code_ends w₁ c₁ _ a.id)) λ l w₂ _.
            ends_then (time_now_ends w₂) λ _ w₃ _. ends_then (ends_guard _ _ w₃ tt) λ _ w₄ _.
              ends_then
                (or_fail_ends _ (get_group_member x app.user_registry a.group_id l.user_id) w₄ tt)
                λ acc w₅ _.
                  ends_then (required_ends _ (member acc) w₅ tt) λ u w₆ _. ends_ret _ w₆ tt

    pub check_access_ends :
        (auth : Text) (id user : ℕ)
        → Ends (check_access x app auth id user) w Explained (λ _ _. Unit {0})
    unfolding check_access
    check_access_ends auth id user =
        ends_then (authenticate_appliance_ends x app id auth w c) λ a w₁ _.
          ends_then (or_fail_ends _ (get_group_member x app.user_registry a.group_id user) w₁ tt)
            λ acc w₂ _. ends_ret _ w₂ tt

    if_ends :
        {A : Type 0} (p : Bool) {m n : Handler A}
        → Ends m w Explained (λ _ _. Unit {0})
        → Ends n w Explained (λ _ _. Unit {0})
        → Ends (if p then m else n) w Explained (λ _ _. Unit {0})
    if_ends true s t = s
    if_ends false s t = t

    pub list_appliances_ends :
        (auth status : Text) (all : Bool)
        → Ends (list_appliances x app auth status all) w Explained (λ _ _. Unit {0})
    unfolding list_appliances
    list_appliances_ends auth status all =
        if_ends (check_service_tokens app.service_tokens auth)
          (ends_then (sure_ends _ (list_appliances_by_status_succeeds w c active))
            λ rows v _. ends_ret _ v tt)
          (ends_then (use_token_ends auth w) λ who w₁ (_, e₁).
            ends_then
              (sure_ends _ (list_appliances_for_group_succeeds w₁ (moved e₁ c) who.group_id _))
              λ rows w₂ _. ends_ret _ w₂ tt)

    limiter_ends : Ends (call limiter_allow ret) w Explained (λ _ v. Calm v db entropy)
    unfolding run perform
    limiter_ends = record { outcome = ground (arith, c.no_faults, c.same_db, c.same_entropy) }

    pub plugin_get_params_ends :
        (auth : Text) → Ends (plugin_get_params x app auth) w Explained (λ _ _. Unit {0})
    unfolding plugin_get_params
    plugin_get_params_ends auth = ends_then limiter_ends λ _ w₁ c₁.
        ends_then (ends_guard _ _ w₁ tt) λ _ w₂ (_, e₂).
          ends_then (ends_guard _ _ w₂ tt) λ _ w₃ (_, e₃).
            ends_then
              (sure_ends _ (list_appliances_by_status_succeeds w₃ (moved e₃ (moved e₂ c₁)) active))
              λ rows w₄ _. ends_ret _ w₄ tt

    -- A Revoke, unless the appliance is revoked already.
    pub revoke_ends :
        (auth : Text) (id : ℕ)
        → ((a : Appliance) → appliance_of id db ≡ some a → status_eq a.status revoked ≡ false)
        → Ends (revoke x app auth id) w Explained (λ _ _. Unit {0})
    unfolding revoke
    revoke_ends auth id live = ends_then (use_token_ends auth w) λ who w₁ (_, e₁).
        ends_then (require_owning_group_ends x app id who.group_id w₁ (moved e₁ c))
          λ a w₂ (same, row, c₂).
            ends_then
              (sure_ends _ (
                set_status_succeeds a.id w₂ c₂ row
                  (live a (subst (λ i. appliance_of i db ≡ some a) same row))))
              λ _ w₃ c₃.
                ends_then
                  (sure_ends _ (delete_appliance_secret_succeeds app.secret_writer a.id w₃ c₃))
                  λ _ w₄ c₄.
                    ends_then
                      (sure_ends _ (
                        set_hash_succeeds a.id w₄ c₄ none {a = record a { status = revoked }} (
                          ground (
                            arith,
                            row,
                            row_of-amend (set_status revoked) a.id a.id db (λ r. refl),
                          ))))
                      λ _ w₅ _.
                        ends_Succeeds (ignore_succeeds tt (Mariadb.delete_claim_token_of a.id) w₅)

  -- The handlers that draw random bytes once.
  module _ {db : Database} {rest : List (Option (List ℕ))} (buf : List ℕ) (w : World b)
      (c : Calm w db (some buf ∷ rest)) where
    pub claim_ends :
        (auth : Text) (id : ℕ) → Ends (claim x app auth id) w Explained (λ _ _. Unit {0})
    unfolding claim
    claim_ends auth id = ends_then (required_ends _ (bearer_token auth) w tt) λ _ w₁ (_, e₁).
        ends_then (looked_up_ends _ _ tt (get_claim_token_ends w₁ (moved e₁ c) id)) λ t w₂ c₂.
          ends_then (ends_Returns (time_now_succeeds id w₂ c₂)) λ _ w₃ (_, c₃).
            ends_then (expired_claim_ends id _ w₃) λ _ w₄ e₄.
              ends_then (ends_guard _ _ w₄ tt) λ _ w₅ (_, e₅).
                ends_then (activate_ends x app buf rest id w₅ (moved e₅ (moved e₄ c₃)))
                  λ (a, s) w₆ _.
                    ends_then
                      (ends_Succeeds (ignore_succeeds tt (Mariadb.delete_claim_token_of a.id) w₆))
                      λ _ w₇ _. ends_ret _ w₇ tt

    pub enroll_redeem_ends :
        (auth : Text) (id : ℕ) → Ends (enroll_redeem x app auth id) w Explained (λ _ _. Unit {0})
    unfolding enroll_redeem
    enroll_redeem_ends auth id =
        ends_then (required_ends _ (bearer_token auth) w tt) λ _ w₁ (_, e₁).
          ends_then (looked_up_ends _ _ tt (get_enroll_exchange_code_ends w₁ (moved e₁ c) id))
            λ t w₂ c₂. ends_then (ends_Returns (time_now_succeeds id w₂ c₂)) λ _ w₃ (_, c₃).
              ends_then (expired_code_ends id _ w₃) λ _ w₄ e₄.
                ends_then (ends_guard _ _ w₄ tt) λ _ w₅ (_, e₅).
                  ends_then
                    (looked_up_ends _ _ tt (get_claim_token_ends w₅ (moved e₅ (moved e₄ c₃)) id))
                    λ u w₆ c₆. ends_then (ends_guard _ _ w₆ tt) λ _ w₇ (_, e₇).
                      ends_then (activate_ends x app buf rest id w₇ (moved e₇ c₆)) λ (a, s) w₈ _.
                        ends_then
                          (ends_Succeeds
                            (ignore_succeeds tt (Mariadb.delete_claim_token_of a.id) w₈))
                          λ _ w₉ _.
                            ends_then
                              (ends_Succeeds
                                (ignore_succeeds tt (Mariadb.delete_enroll_exchange_code a.id) w₉))
                              λ _ v _. ends_ret _ v tt

    issue_new_secret_ends :
        (a : Appliance) (v : World b)
        → Calm v db (some buf ∷ rest)
        → appliance_of a.id db ≡ some a
        → Ends (issue_new_secret x app a) v Explained (λ _ _. Unit {0})
    unfolding issue_new_secret
    issue_new_secret_ends a v d row =
        ends_then (ends_Succeeds (publish_secret_succeeds x app a.id v buf rest d row))
          λ s u _. ends_ret _ u tt

    pub rotate_secret_ends :
        (auth : Text) (id : ℕ) → Ends (rotate_secret x app auth id) w Explained (λ _ _. Unit {0})
    unfolding rotate_secret
    rotate_secret_ends auth id = ends_then (use_token_ends auth w) λ who w₁ (_, e₁).
        ends_then (require_owning_group_ends x app id who.group_id w₁ (moved e₁ c))
          λ a w₂ (_, row, c₂).
            ends_then (ends_guard _ _ w₂ tt)
              λ _ w₃ (_, e₃). issue_new_secret_ends a w₃ (moved e₃ c₂) row

    pub rotate_own_secret_ends :
        (auth : Text) (id : ℕ)
        → Ends (rotate_own_secret x app auth id) w Explained (λ _ _. Unit {0})
    unfolding rotate_own_secret
    rotate_own_secret_ends auth id =
        ends_then (authenticate_appliance_ends x app id auth w c)
          λ a w₁ (row, c₁). issue_new_secret_ends a w₁ c₁ row

    -- A CreateLoginCode, unless a code with the hash of the new one is on file.
    pub create_login_code_ends :
        (auth : Text) (id : ℕ)
        → find (has_hash (hash_secret x (hex buf))) db.login_codes ≡ none
        → Ends (create_login_code x app auth id) w Explained (λ _ _. Unit {0})
    unfolding create_login_code
    create_login_code_ends auth id fresh = ends_then (use_token_ends auth w) λ who w₁ (_, e₁).
        ends_then (require_owning_group_ends x app id who.group_id w₁ (moved e₁ c))
          λ a w₂ (_, row, c₂). ends_then (ends_guard _ _ w₂ tt) λ _ w₃ (_, e₃).
            ends_then (sure_ends _ (generate_token_succeeds x buf w₃ (moved e₃ c₂)))
              λ (code, hash) w₄ (drawn, c₄).
                ends_then (ends_Returns (time_now_succeeds id w₄ c₄)) λ now w₅ (_, c₅).
                  ends_then
                    (sure_ends _ (
                      save_login_code_succeeds hash a.id who.user_id _ w₅ c₅ row (
                        subst (λ h. find (has_hash h) db.login_codes ≡ none)
                          (sym (ap (λ (t : Text × Text). t.1) drawn)) fresh)))
                    λ _ w₆ _. ends_ret _ w₆ tt
