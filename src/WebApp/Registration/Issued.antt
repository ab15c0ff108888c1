-- ===== src/WebApp/Registration/Issued.antt =====
-- internal/appliancewebapp/webapp.go: what a successful Register and a successful Enroll require and
-- leave behind.
use appliance_registry.Prelude.{ℕ, ◌+◌, ◌≡◌, refl, sym, ap, subst, ◌∙◌, some, Text, ok, arith, find}
use appliance_registry.Clock.{after}
use appliance_registry.External.{External, Backend, Identity}
use appliance_registry.Persistence.{Appliance}
use appliance_registry.World.{World}
use appliance_registry.World.Codes
use appliance_registry.World.Codes.{token_of, code_of}
use appliance_registry.World.Rows.{appliance_of-id}
use appliance_registry.Mariadb
use appliance_registry.Mariadb.Results.{SameStores}
use appliance_registry.Tokens.{hash_secret, random_hex, generate_token}
use appliance_registry.RestModels.{RegisterApplianceResponse}
use appliance_registry.Program.{◌>>=◌}
use appliance_registry.Program.Run.{run, perform, tick}
use appliance_registry.Program.Rules.{after_ok, after_ret, after_handled}
use appliance_registry.WebApp.{WebApp, to_appliance_response}
use appliance_registry.WebApp.Outcomes.{time_now-eq-ok, use_token-eq-ok}
use appliance_registry.WebApp.Registration.{
  IssuedToken, create_appliance_with_retry, issue_claim_token, register,
}
use appliance_registry.WebApp.Registration.Outcomes.{Created, create_appliance_from-Created}

-- A claim token on file: the hash of the raw value, and its expiry as the column holds it.
abbrev pub OnFile : {b : Backend} → External → ℕ → Text → ℕ → World b → Type 0
OnFile {b = b} x id raw expiry w =
    find (token_of id) w.claim_tokens
    ≡ some (record {
      appliance_id = id;
      token_hash = hash_secret x raw;
      expires_at = b.column_time expiry;
    })

module _ {b : Backend} (x : External) (app : WebApp) where
  pub record TokenIssued (w : World b) (id : ℕ) (token : IssuedToken) (w' : World b) : Type 0 where
    pub hashes : token.hash ≡ hash_secret x token.raw
    pub expiry : token.expires_at ≡ after (w.clock + tick w.ticks) app.claim_token_expiry
    pub on_file : OnFile x id token.raw token.expires_at w'
    pub same_appliances : w'.appliances ≡ w.appliances
    pub same_cluster : w'.cluster ≡ w.cluster

  pub generate_token-eq-ok :
      (w : World b) {raw hash : Text} {w' : World b}
      → run (generate_token x) w ≡ (ok (raw, hash), w')
      → (hash ≡ hash_secret x raw) × SameStores w w'
  unfolding run perform generate_token random_hex ◌>>=◌
  generate_token-eq-ok w h = ground arith

  save_claim_token-eq-ok :
      (id : ℕ) (hash : Text) (expiry : ℕ) (w : World b) {w' : World b}
      → run (Mariadb.save_claim_token id hash expiry) w ≡ (ok tt, w')
      → (find (token_of id) w'.claim_tokens
          ≡ some
              (record { appliance_id = id; token_hash = hash; expires_at = b.column_time expiry }))
        × (w'.appliances ≡ w.appliances)
        × (w'.cluster ≡ w.cluster)
  unfolding run perform Mariadb.save_claim_token Codes.upsert_claim_token find
  save_claim_token-eq-ok id hash expiry w h = ground arith

  pub issue_claim_token-eq-ok :
      (id : ℕ) (w : World b) {token : IssuedToken} {w' : World b}
      → run (issue_claim_token x app id) w ≡ (ok token, w')
      → TokenIssued w id token w'
  unfolding issue_claim_token
  issue_claim_token-eq-ok id w h = after_ok _ _ _ h λ (raw, hash) w₁ made h₁.
      after_ok _ _ _ h₁ λ now w₂ clock h₂.
        after_handled _ _ _ _ h₂ (λ e. tt)
          λ u w₃ saved h₃.
            let (hashes, s₁) = generate_token-eq-ok w made in
            let t = time_now-eq-ok w₁ clock in
            let expiry = after now app.claim_token_expiry in
            let (on_file, rows, cluster) = save_claim_token-eq-ok id hash expiry w₂ saved in
            after_ret (TokenIssued w id) (record { raw = raw; hash = hash; expires_at = expiry }) w₃
              h₃
              (record {
                hashes = hashes;
                expiry = ground arith;
                on_file =
                    subst
                      (λ k.
                        find (token_of id) w₃.claim_tokens
                        ≡ some (record {
                          appliance_id = id;
                          token_hash = k;
                          expires_at = b.column_time expiry;
                        }))
                      hashes on_file;
                same_appliances = ground arith;
                same_cluster = ground arith;
              })

  pub record Registered (w : World b) (authorization name : Text) (resp : RegisterApplianceResponse)
      (w' : World b) : Type 0 where
    pub who : Identity
    pub verified : x.verify authorization ≡ some who
    pub appliance : Appliance
    pub middle : World b
    pub created : Created x w name who.group_id appliance middle
    pub its_response : resp.appliance ≡ to_appliance_response x app appliance
    pub expiry : resp.claim_token_expires_at ≡ after (w.clock + tick w.ticks) app.claim_token_expiry
    pub on_file : OnFile x w.next_id resp.claim_token resp.claim_token_expires_at w'
    pub same_appliances : w'.appliances ≡ middle.appliances
    pub same_cluster : w'.cluster ≡ w.cluster

  -- Whatever fails or passes, and after however many labels that were taken, a registration that
  -- succeeds has added exactly one appliance, pending, of the caller's group and with an unused label;
  -- and the claim token that it returns is on file for that appliance, as a hash and with the expiry
  -- that the response names.
  pub register-Registered :
      (authorization name : Text) (w : World b) {resp : RegisterApplianceResponse} {w' : World b}
      → run (register x app authorization name) w ≡ (ok resp, w')
      → Registered w authorization name resp w'
  unfolding register create_appliance_with_retry
  register-Registered authorization name w h = after_ok _ _ _ h λ who w₁ auth h₁.
      after_handled _ _ _ _ h₁ (λ e. tt)
        λ a w₂ made h₂.
          after_handled _ _ _ _ h₂ (λ e. tt)
            λ token w₃ issued h₃.
              let (verified, s₁) = use_token-eq-ok x app authorization w auth in
              let c = create_appliance_from-Created x app _ name who.group_id w₁ made in
              let t = issue_claim_token-eq-ok a.id w₂ issued in
              let same : a.id ≡ w₁.next_id = appliance_of-id w₁.next_id w₂.db c.read_back in
              after_ret (Registered w authorization name)
                (record {
                  appliance = to_appliance_response x app a;
                  claim_token = token.raw;
                  claim_token_expires_at = token.expires_at;
                })
                w₃ h₃
                (record {
                  who = who;
                  verified = verified;
                  appliance = a;
                  middle = w₂;
                  created = subst (λ v. Created x v name who.group_id a w₂) (sym s₁) c;
                  its_response = refl;
                  expiry = ground (arith, t.expiry, c.same_clock, c.same_ticks);
                  on_file =
                      subst (λ i. OnFile x i token.raw token.expires_at w₃)
                        (same ∙ ap (λ v. v.next_id) (sym s₁)) t.on_file;
                  same_appliances = t.same_appliances;
                  same_cluster = ground (arith, t.same_cluster, c.same_cluster);
                })
