-- ===== src/WebApp/Claiming/Outcomes.antt =====
-- internal/appliancewebapp/webapp.go: what a successful Claim and a successful EnrollRedeem require and
-- do.
use appliance_registry.Prelude.{
  ℕ, ◌+◌, ◌≤◌, ◌≡◌, ◌∙◌, refl, sym, ap, subst, Bool, true, false, some, Text, text_eq_iff, ok,
  arith, find, if◌then◌else◌, ◌==◌,
}
use mathlib.Core.Path.{subst₂}
use appliance_registry.External.{External, Backend}
use appliance_registry.Persistence.{Appliance, ClaimToken, EnrollExchangeCode, pending}
use appliance_registry.World.{World, Database}
use appliance_registry.World.Statements.{row_of}
use appliance_registry.World.Codes.{token_of, code_of}
use appliance_registry.World.Rows.{appliance_of, update_option}
use appliance_registry.Mariadb
use appliance_registry.Mariadb.Results
use appliance_registry.Tokens.{bearer_token, hash_secret}
use appliance_registry.K8sSecrets.Results.{Published}
use appliance_registry.RestModels.{ClaimApplianceResponse}
use appliance_registry.Program.{ignore, ◌>>=◌, ◌>>◌}
use appliance_registry.Program.Run.{run, tick}
use appliance_registry.Program.Rules.{after_ok, after_ret, not-ok-before-fail}
use appliance_registry.WebApp.{WebApp, Handler, unauthorized, hostname}
use appliance_registry.WebApp.Outcomes.{
  SameAppliances, after_required, after_guard, after_lookup, time_now-eq-ok,
  ignore-delete_claim_token, ignore-delete_exchange_code,
}
use appliance_registry.WebApp.Claiming.{
  claim, enroll_redeem, expired_claim, expired_code, claim_response,
}
use appliance_registry.WebApp.Claiming.Activation.{
  Activation, activated_row, row_of-activated_db, activate-eq-ok,
}

same_rows :
    (j : ℕ) (db db' : Database) → db'.appliances ≡ db.appliances → row_of j db' ≡ row_of j db
unfolding row_of
same_rows j db db' e = ground arith

module _ {b : Backend} {G : Type 0} {B : Type 0} where
  after_expired_claim :
      (id : ℕ) (late : Bool) (m : Handler B) (w : World b) {c : B} {w' : World b}
      → run (expired_claim id late >> m) w ≡ (ok c, w')
      → (late ≡ false → run m w ≡ (ok c, w') → G)
      → G
  unfolding run ◌>>=◌
  after_expired_claim id true m w h g =
      after_ok (expired_claim id true) (λ _. m) w h
        λ u v e r. absurd (
          not-ok-before-fail (ignore tt (Mariadb.delete_claim_token_of id))
            (unauthorized "invalid or expired claim token") w e)
  after_expired_claim id false m w h g = g refl h

  after_expired_code :
      (id : ℕ) (late : Bool) (m : Handler B) (w : World b) {c : B} {w' : World b}
      → run (expired_code id late >> m) w ≡ (ok c, w')
      → (late ≡ false → run m w ≡ (ok c, w') → G)
      → G
  unfolding run ◌>>=◌
  after_expired_code id true m w h g =
      after_ok (expired_code id true) (λ _. m) w h
        λ u v e r. absurd (
          not-ok-before-fail (ignore tt (Mariadb.delete_enroll_exchange_code id))
            (unauthorized "invalid or expired exchange code") w e)
  after_expired_code id false m w h g = g refl h

module _ {b : Backend} (x : External) (app : WebApp) where
  -- What both ways to claim do: the pending appliance becomes active, its row gets the hash of the
  -- secret that is returned, the Secret gets the secret itself, and no other row changes.
  pub record Claimed (w : World b) (id : ℕ) (resp : ClaimApplianceResponse) (w' : World b)
      : Type 0 where
    pub appliance : Appliance
    pub its_row : appliance_of id w.db ≡ some appliance
    pub was_pending : appliance.status ≡ pending
    pub claimed_at : ℕ
    pub rows :
        (j : ℕ)
        → row_of j w'.db ≡ (
            if id == j
            then update_option
                (activated_row (hash_secret x resp.appliance_secret) claimed_at)
                (row_of j w.db)
            else row_of j w.db)
    pub published : Published b app.secret_writer id resp.appliance_secret w.cluster w'.cluster
    pub its_hostname : resp.hostname ≡ hostname x app appliance

  Claimed-after :
      (id : ℕ) (w w₂ : World b) {a : Appliance} {secret : Text} {w₃ w₄ : World b}
      → Activation x app w₂ id a secret w₃
      → w₂.db ≡ w.db
      → w₂.cluster ≡ w.cluster
      → SameAppliances w₃ w₄
      → Claimed w id (claim_response x app a secret) w₄
  Claimed-after id w w₂ {a} {secret} {w₃} {w₄} act d c s = record {
    appliance = a;
    its_row = subst (λ db. appliance_of id db ≡ some a) d act.its_row;
    was_pending = act.was_pending;
    claimed_at = b.column_time w₂.clock;
    rows = λ j.
        same_rows j w₃.db w₄.db s.same_appliances
        ∙ ap (row_of j) act.new_db
        ∙ row_of-activated_db id j (hash_secret x secret) (b.column_time w₂.clock) w₂.db
        ∙ ap
            (λ db.
              if id == j
              then update_option (activated_row (hash_secret x secret) (b.column_time w₂.clock))
                  (row_of j db)
              else row_of j db)
            d;
    published =
        subst₂ (Published b app.secret_writer id secret) c (sym s.same_cluster) act.published;
    its_hostname = refl;
  }

  -- The token that a claim presents is the appliance's own, and has not expired.
  pub record ClaimProved (w : World b) (authorization : Text) (id : ℕ) : Type 0 where
    pub raw : Text
    pub presented : bearer_token authorization ≡ some raw
    pub token : ClaimToken
    pub on_file : find (token_of id) w.claim_tokens ≡ some token
    pub hashes : hash_secret x raw ≡ token.token_hash
    pub in_time : w.clock + tick w.ticks ≤ token.expires_at

  -- Whatever fails or passes, a claim that succeeds was made with the raw value of the claim token
  -- on file for that very appliance, before the token's expiry, on a pending appliance. It has
  -- made the appliance active, with the hash of the returned secret in its row, and no other row
  -- has changed; the client writer has put the secret into the cluster, and the no-op writer has
  -- left the cluster alone.
  pub claim-Claimed :
      (authorization : Text) (id : ℕ) (w : World b) {resp : ClaimApplianceResponse} {w' : World b}
      → run (claim x app authorization id) w ≡ (ok resp, w')
      → ClaimProved w authorization id × Claimed w id resp w'
  unfolding claim
  claim-Claimed authorization id w h = after_required _ _ _ h λ raw bearer h₁.
      after_lookup _ _ _ _ _ h₁ λ token w₁ read h₂. after_ok _ _ _ h₂ λ now w₂ clock h₃.
        after_expired_claim _ _ _ _ h₃ λ valid h₄. after_guard _ _ _ h₄ λ equal h₅.
          after_ok _ _ _ h₅ λ (a, secret) w₃ done h₆. after_ok _ _ _ h₆ λ u w₄ gone h₇.
            let (row, s₁) = Mariadb.Results.get_claim_token-eq-ok id w read in
            let t = time_now-eq-ok w₁ clock in
            let act = activate-eq-ok x app id w₂ done in
            let s₄ = ignore-delete_claim_token a.id w₃ gone in
            after_ret (λ r v. ClaimProved w authorization id × Claimed w id r v)
              (claim_response x app a secret) w₄ h₇
              (
                record {
                  raw = raw;
                  presented = bearer;
                  token = token;
                  on_file = row;
                  hashes = ground (arith, text_eq_iff (hash_secret x raw) token.token_hash);
                  in_time = ground arith;
                },
                Claimed-after id w w₂ act (ground arith) (ground arith) s₄,
              )

  -- The exchange code that is presented is the appliance's own, has not expired, and was issued with
  -- the claim token that is still on file.
  pub record CodeProved (w : World b) (authorization : Text) (id : ℕ) : Type 0 where
    pub raw : Text
    pub presented : bearer_token authorization ≡ some raw
    pub code : EnrollExchangeCode
    pub on_file : find (code_of id) w.exchange_codes ≡ some code
    pub hashes : hash_secret x raw ≡ code.code_hash
    pub in_time : w.clock + tick w.ticks ≤ code.expires_at
    pub token : ClaimToken
    pub token_on_file : find (token_of id) w.claim_tokens ≡ some token
    pub pinned : code.claim_token_hash ≡ token.token_hash

  -- A redemption that succeeds was made with the raw exchange code on file for that very appliance,
  -- before the code's expiry, while the claim token that the code was issued with was still the one on
  -- file, on a pending appliance; and it has done what a claim does.
  pub enroll_redeem-Claimed :
      (authorization : Text) (id : ℕ) (w : World b) {resp : ClaimApplianceResponse} {w' : World b}
      → run (enroll_redeem x app authorization id) w ≡ (ok resp, w')
      → CodeProved w authorization id × Claimed w id resp w'
  unfolding enroll_redeem
  enroll_redeem-Claimed authorization id w h = after_required _ _ _ h λ raw bearer h₁.
      after_lookup _ _ _ _ _ h₁ λ code w₁ read h₂. after_ok _ _ _ h₂ λ now w₂ clock h₃.
        after_expired_code _ _ _ _ h₃ λ valid h₄. after_guard _ _ _ h₄ λ equal h₅.
          after_lookup _ _ _ _ _ h₅ λ token w₃ got h₆. after_guard _ _ _ h₆ λ pinned h₇.
            after_ok _ _ _ h₇ λ (a, secret) w₄ done h₈. after_ok _ _ _ h₈ λ u w₅ gone h₉.
              after_ok _ _ _ h₉ λ v w₆ gone' h₁₀.
                let (row, s₁) = Mariadb.Results.get_enroll_exchange_code-eq-ok id w read in
                let t = time_now-eq-ok w₁ clock in
                let (row', s₃) = Mariadb.Results.get_claim_token-eq-ok id w₂ got in
                let act = activate-eq-ok x app id w₃ done in
                let s₅ = ignore-delete_claim_token a.id w₄ gone in
                let s₆ = ignore-delete_exchange_code a.id w₅ gone' in
                after_ret (λ r v. CodeProved w authorization id × Claimed w id r v)
                  (claim_response x app a secret) w₆ h₁₀
                  (
                    record {
                      raw = raw;
                      presented = bearer;
                      code = code;
                      on_file = row;
                      hashes = ground (arith, text_eq_iff (hash_secret x raw) code.code_hash);
                      in_time = ground arith;
                      token = token;
                      token_on_file = ground arith;
                      pinned = ground (arith, text_eq_iff code.claim_token_hash token.token_hash);
                    },
                    Claimed-after id w w₃ act (ground arith) (ground arith) (record {
                      same_appliances = s₆.same_appliances ∙ s₅.same_appliances;
                      same_cluster = s₆.same_cluster ∙ s₅.same_cluster;
                    }),
                  )
