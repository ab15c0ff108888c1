-- ===== src/WebApp/Login/Issuing.antt =====
-- internal/appliancewebapp/webapp.go: what a successful CreateLoginCode requires and does.
use appliance_registry.Prelude.{ℕ, ◌+◌, ◌≡◌, refl, some, Text, ok, text_eq_iff, arith, find}
use mathlib.Core.Path.{subst₂}
use appliance_registry.Clock.{after}
use appliance_registry.External.{External, Backend, Identity}
use appliance_registry.Persistence.{Appliance, active}
use appliance_registry.World.{World}
use appliance_registry.World.Codes.{has_hash, has_hash_of}
use appliance_registry.World.Codes
use appliance_registry.World.Rows.{appliance_of, appliance_of-id}
use appliance_registry.Mariadb
use appliance_registry.Mariadb.Results.{SameStores}
use appliance_registry.Tokens.{hash_secret, generate_token, random_hex}
use appliance_registry.RestModels.{LoginCodeResponse}
use appliance_registry.Program.{◌>>=◌}
use appliance_registry.Program.Run.{run, perform, tick}
use appliance_registry.Program.Rules.{after_ok, after_ret, after_handled}
use appliance_registry.WebApp.{WebApp, hostname}
use appliance_registry.WebApp.Outcomes.{
  after_guard, time_now-eq-ok, use_token-eq-ok, require_owning_group-eq-ok,
}
use appliance_registry.WebApp.Login.{create_login_code}

module _ {b : Backend} (x : External) where
  -- A login code that is handed out is on file as a hash, for the appliance and the user of the
  -- request; the appliance is active and of the user's group.
  pub record CodeIssued (app : WebApp) (w : World b) (authorization : Text) (id : ℕ)
      (resp : LoginCodeResponse) (w' : World b) : Type 0 where
    pub who : Identity
    pub verified : x.verify authorization ≡ some who
    pub appliance : Appliance
    pub its_row : appliance_of id w.db ≡ some appliance
    pub owned : appliance.group_id ≡ who.group_id
    pub is_active : appliance.status ≡ active
    pub expiry : resp.expires_at ≡ after (w.clock + tick w.ticks) app.exchange_code_expiry
    pub its_hostname : resp.hostname ≡ hostname x app appliance
    pub on_file :
        find (has_hash_of (hash_secret x resp.code) id) w'.login_codes
        ≡ some (record {
          code_hash = hash_secret x resp.code;
          appliance_id = id;
          user_id = who.user_id;
          expires_at = b.column_time resp.expires_at;
        })
    pub same_rows : w'.appliances ≡ w.appliances

  abbrev Saved : Text → ℕ → ℕ → ℕ → World b → World b → Type 0
  Saved hash id user expiry w w' =
      (find (has_hash_of hash id) w'.login_codes
        ≡ some (record {
          code_hash = hash;
          appliance_id = id;
          user_id = user;
          expires_at = b.column_time expiry;
        }))
      × (w'.appliances ≡ w.appliances)

  save_login_code-eq-ok :
      (hash : Text) (id user expiry : ℕ) (w : World b) {w' : World b}
      → run (Mariadb.save_login_code hash id user expiry) w ≡ (ok tt, w')
      → Saved hash id user expiry w w'
  unfolding run perform Mariadb.save_login_code Codes.prune_login_codes Codes.insert_login_code
      ◌>>=◌ find
  save_login_code-eq-ok hash id user expiry w h = ground (arith, text_eq_iff hash hash)

  generate_token-eq-ok :
      (w : World b) {raw hash : Text} {w' : World b}
      → run (generate_token x) w ≡ (ok (raw, hash), w')
      → (hash ≡ hash_secret x raw) × SameStores w w'
  unfolding run perform generate_token random_hex ◌>>=◌
  generate_token-eq-ok w h = ground arith

  -- Whatever fails or passes, a login code that is handed out belongs to an active appliance of the
  -- caller's group, is on file as its hash with the caller as its user and the expiry that the
  -- response names, and the request changes no row of `appliances`.
  pub create_login_code-CodeIssued :
      (app : WebApp) (authorization : Text) (id : ℕ) (w : World b) {resp : LoginCodeResponse}
      {w' : World b}
      → run (create_login_code x app authorization id) w ≡ (ok resp, w')
      → CodeIssued app w authorization id resp w'
  unfolding create_login_code
  create_login_code-CodeIssued app authorization id w h = after_ok _ _ _ h λ who w₁ auth h₁.
      after_ok _ _ _ h₁ λ a w₂ owner h₂. after_guard _ _ _ h₂ λ live h₃.
        after_handled _ _ _ _ h₃ (λ e. tt)
          λ (raw, hash) w₃ made h₄. after_ok _ _ _ h₄ λ now w₄ clock h₅.
            after_handled _ _ _ _ h₅ (λ e. tt)
              λ u w₅ saved h₆.
                let (verified, s₁) = use_token-eq-ok x app authorization w auth in
                let (row, owned, s₂) = require_owning_group-eq-ok x app id who.group_id w₁ owner in
                let (hashes, s₃) = generate_token-eq-ok w₂ made in
                let t = time_now-eq-ok w₃ clock in
                let (on_file, rows) =
                  save_login_code-eq-ok hash a.id who.user_id (after now app.exchange_code_expiry)
                    w₄ saved in
                after_ret (CodeIssued app w authorization id)
                  (record {
                    code = raw;
                    expires_at = after now app.exchange_code_expiry;
                    hostname = hostname x app a;
                  })
                  w₅ h₆
                  (record {
                    who = who;
                    verified = verified;
                    appliance = a;
                    its_row = ground arith;
                    owned = owned;
                    is_active = ground arith;
                    expiry = ground arith;
                    its_hostname = refl;
                    on_file =
                        subst₂
                          (λ k i.
                            find (has_hash_of k i) w₅.login_codes
                            ≡ some (record {
                              code_hash = k;
                              appliance_id = i;
                              user_id = who.user_id;
                              expires_at = b.column_time (after now app.exchange_code_expiry);
                            }))
                          hashes (appliance_of-id id w₁.db row) on_file;
                    same_rows = ground arith;
                  })
