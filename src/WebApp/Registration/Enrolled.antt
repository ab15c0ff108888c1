-- ===== src/WebApp/Registration/Enrolled.antt =====
-- internal/appliancewebapp/webapp.go: what a successful Enroll requires and leaves behind.
use appliance_registry.Prelude.{ℕ, ◌≡◌, sym, ap, subst, ◌∙◌, some, Text, ok, arith, find}
use mathlib.Core.Path.{subst₃}
use appliance_registry.Clock.{after}
use appliance_registry.External.{External, Backend, Identity}
use appliance_registry.Persistence.{Appliance}
use appliance_registry.World.{World}
use appliance_registry.World.Codes.{token_of, code_of}
use appliance_registry.World.Rows.{appliance_of-id}
use appliance_registry.Mariadb
use appliance_registry.Tokens.{hash_secret}
use appliance_registry.Program.Run.{run, perform}
use appliance_registry.Program.Rules.{after_ok, after_ret, after_handled}
use appliance_registry.WebApp.{WebApp}
use appliance_registry.WebApp.Outcomes.{time_now-eq-ok, use_token-eq-ok}
use appliance_registry.WebApp.Registration.{create_appliance_with_retry}
use appliance_registry.WebApp.Registration.Outcomes.{Created, create_appliance_from-Created}
use appliance_registry.World.Codes
use appliance_registry.World.Codes.{code_of}
use appliance_registry.RestModels.{EnrollApplianceResponse}
use appliance_registry.WebApp.Registration.{enroll}
use appliance_registry.WebApp.Registration.Issued.{
  OnFile, issue_claim_token-eq-ok, generate_token-eq-ok,
}

module _ {b : Backend} (x : External) (app : WebApp) where
  -- The new appliance has a claim token on file, whose raw value nobody is told, and an exchange code that
  -- is tied to the hash of that very token.
  pub record Enrolled (w : World b) (authorization name : Text) (resp : EnrollApplianceResponse)
      (w' : World b) : Type 0 where
    pub who : Identity
    pub verified : x.verify authorization ≡ some who
    pub appliance : Appliance
    pub middle : World b
    pub created : Created x w name who.group_id appliance middle
    pub its_id : resp.appliance_id ≡ w.next_id
    pub raw_token : Text
    pub token_expiry : ℕ
    pub token_on_file : OnFile x w.next_id raw_token token_expiry w'
    pub code_on_file :
        find (code_of w.next_id) w'.exchange_codes
        ≡ some (record {
          appliance_id = w.next_id;
          code_hash = hash_secret x resp.exchange_code;
          claim_token_hash = hash_secret x raw_token;
          expires_at = b.column_time resp.exchange_code_expires_at;
        })
    pub same_appliances : w'.appliances ≡ middle.appliances

  save_enroll_exchange_code-eq-ok :
      (id : ℕ) (hash token_hash : Text) (expiry : ℕ) (w : World b) {w' : World b}
      → run (Mariadb.save_enroll_exchange_code id hash token_hash expiry) w ≡ (ok tt, w')
      → (find (code_of id) w'.exchange_codes
          ≡ some (record {
            appliance_id = id;
            code_hash = hash;
            claim_token_hash = token_hash;
            expires_at = b.column_time expiry;
          }))
        × (w'.appliances ≡ w.appliances)
        × (w'.claim_tokens ≡ w.claim_tokens)
  unfolding run perform Mariadb.save_enroll_exchange_code Codes.upsert_exchange_code find
  save_enroll_exchange_code-eq-ok id hash token_hash expiry w h = ground arith

  -- Whatever fails or passes, an enrolment that succeeds has added exactly one appliance, pending, of the
  -- caller's group and with an unused label. A claim token of it is on file, and so is the exchange
  -- code that is returned, as a hash, with the expiry that the response names and with the hash of
  -- that same claim token.
  pub enroll-Enrolled :
      (authorization name : Text) (w : World b) {resp : EnrollApplianceResponse} {w' : World b}
      → run (enroll x app authorization name) w ≡ (ok resp, w')
      → Enrolled w authorization name resp w'
  unfolding enroll create_appliance_with_retry
  enroll-Enrolled authorization name w h = after_ok _ _ _ h λ who w₁ auth h₁.
      after_handled _ _ _ _ h₁ (λ e. tt)
        λ a w₂ made h₂.
          after_handled _ _ _ _ h₂ (λ e. tt)
            λ token w₃ issued h₃.
              after_handled _ _ _ _ h₃ (λ e. tt)
                λ (raw, hash) w₄ drawn h₄. after_ok _ _ _ h₄ λ now w₅ clock h₅.
                  after_handled _ _ _ _ h₅ (λ e. tt)
                    λ u w₆ saved h₆.
                      let (verified, s₁) = use_token-eq-ok x app authorization w auth in
                      let c = create_appliance_from-Created x app _ name who.group_id w₁ made in
                      let t = issue_claim_token-eq-ok x app a.id w₂ issued in
                      let (hashes, s₄) = generate_token-eq-ok x app w₃ drawn in
                      let read = time_now-eq-ok w₄ clock in
                      let expiry = after now app.exchange_code_expiry in
                      let (code, rows, tokens) =
                        save_enroll_exchange_code-eq-ok a.id hash token.hash expiry w₅ saved in
                      let same : a.id ≡ w.next_id =
                        appliance_of-id w₁.next_id w₂.db c.read_back
                        ∙ ap (λ v. v.next_id) (sym s₁) in
                      let same_tokens : w₆.claim_tokens ≡ w₃.claim_tokens =
                        ground (arith, tokens, read.same_db, s₄.same_db) in
                      let same_rows : w₆.appliances ≡ w₃.appliances =
                        ground (arith, rows, read.same_db, s₄.same_db) in
                      after_ret (Enrolled w authorization name)
                        (record {
                          appliance_id = a.id;
                          exchange_code = raw;
                          exchange_code_expires_at = expiry;
                        })
                        w₆ h₆
                        (record {
                          who = who;
                          verified = verified;
                          appliance = a;
                          middle = w₂;
                          created = subst (λ v. Created x v name who.group_id a w₂) (sym s₁) c;
                          its_id = same;
                          raw_token = token.raw;
                          token_expiry = token.expires_at;
                          token_on_file =
                              ap (find (token_of w.next_id)) same_tokens
                              ∙ subst (λ i. OnFile x i token.raw token.expires_at w₃) same
                                  t.on_file;
                          code_on_file =
                              subst₃
                                (λ i k l.
                                  find (code_of i) w₆.exchange_codes
                                  ≡ some (record {
                                    appliance_id = i;
                                    code_hash = k;
                                    claim_token_hash = l;
                                    expires_at = b.column_time expiry;
                                  }))
                                same hashes t.hashes code;
                          same_appliances = same_rows ∙ t.same_appliances;
                        })
