-- ===== src/WebApp/Claiming/Success.antt =====
-- internal/appliancewebapp/webapp.go: Claim, where no call fails.
use appliance_registry.Mariadb.Success.{
  Calm, get_appliance_succeeds, get_claim_token_succeeds, time_now_succeeds,
  write_appliance_secret_succeeds, set_hash_succeeds, mark_succeeds, generate_succeeds,
  ignore_succeeds,
}
use appliance_registry.Prelude.{
  ℕ, ◌+◌, ◌≤◌, ◌≡◌, refl, sym, ap, subst, Bool, false, Option, some, List, [], ◌∷◌, Text, ok, arith,
  find, amend, text_eq_iff,
}
use appliance_registry.External.{External, Backend}
use appliance_registry.Persistence.{Appliance, ClaimToken, pending}
use appliance_registry.World.{World, Database}
use appliance_registry.World.Statements.{has_id, set_hash}
use appliance_registry.World.Codes.{token_of}
use appliance_registry.World.Rows.{appliance_of, row_of-amend, appliance_of-id}
use appliance_registry.Mariadb
use appliance_registry.Tokens.{bearer_token, hash_secret}
use appliance_registry.RestModels.{ClaimApplianceResponse}
use appliance_registry.WebApp.Claiming.Outcomes.{Claimed, claim-Claimed}
use appliance_registry.Program.Run.{run, tick}
use appliance_registry.Program.Success.{
  Succeeds, Returns, then_returns, handled_returns, required_returns, then_succeeds,
  handled_succeeds, ret_succeeds, guard_succeeds,
}
use appliance_registry.WebApp.{WebApp, store_secret_hash, required, unauthorized}
use appliance_registry.WebApp.Claiming.{claim, activate, publish_secret, expired_claim}

module _ {b : Backend} (x : External) (app : WebApp) where
  pub publish_secret_succeeds :
      (id : ℕ) (w : World b) {db : Database} (buf : List ℕ) (rest : List (Option (List ℕ)))
      {a : Appliance}
      → Calm w db (some buf ∷ rest)
      → appliance_of id db ≡ some a
      → Succeeds (publish_secret x app id) w (λ secret v.
        Calm v
          (record db {
            appliances = amend (has_id id) (set_hash (some (hash_secret x secret))) db.appliances;
          })
          rest)
  unfolding publish_secret store_secret_hash
  publish_secret_succeeds id w buf rest c row =
      then_succeeds (handled_succeeds _ (generate_succeeds buf id w c)) λ secret w₁ c₁.
        then_succeeds
          (handled_succeeds _ (write_appliance_secret_succeeds id w₁ c₁ app.secret_writer secret))
          λ _ w₂ c₂.
            then_succeeds
              (handled_succeeds _ (set_hash_succeeds id w₂ c₂ (some (hash_secret x secret)) row))
              λ _ w₃ c₃. ret_succeeds secret w₃ c₃

  pub activate_succeeds :
      (id : ℕ) (w : World b) {db : Database} (buf : List ℕ) (rest : List (Option (List ℕ)))
      (a : Appliance)
      → Calm w db (some buf ∷ rest)
      → appliance_of id db ≡ some a
      → a.status ≡ pending
      → Succeeds (activate x app id) w (λ _ _. Unit {0})
  unfolding activate
  activate_succeeds id w {db} buf rest a c row waits =
      let same = appliance_of-id id db row in
      let its_row : appliance_of a.id db ≡ some a =
        subst (λ i. appliance_of i db ≡ some a) (sym same) row in
      then_returns _ (handled_returns _ (get_appliance_succeeds id w c row)) λ w₁ c₁.
        then_succeeds (guard_succeeds _ _ w₁ (ground (arith, waits)) c₁) λ _ w₂ c₂.
          then_succeeds (publish_secret_succeeds a.id w₂ buf rest c₂ its_row) λ secret w₃ c₃.
            let hashed : appliance_of a.id w₃.db ≡ some a = ground (
              arith,
              its_row,
              c₃.same_db,
              row_of-amend (set_hash (some (hash_secret x secret))) a.id a.id db (λ r. refl),
            ) in
            then_succeeds
              (handled_succeeds _ (
                mark_succeeds a.id w₃
                  (record {
                    no_faults = c₃.no_faults;
                    same_db = refl;
                    same_entropy = c₃.same_entropy;
                  })
                  hashed waits))
              λ _ w₄ _. ret_succeeds (a, secret) w₄ tt

  expired_claim_returns :
      (id : ℕ) (late : Bool) (w : World b)
      → late ≡ false
      → Returns (expired_claim id late) w tt (λ v. v ≡ w)
  unfolding run
  expired_claim_returns id late w e = record {
    after = w;
    runs = ap (λ t. run (expired_claim id t) w) e;
    holds = refl;
  }

  -- Let no call fail, and the random source have a read at hand. A claim with the raw value of the
  -- claim token on file for a pending appliance, before its expiry, succeeds, and has then done all
  -- that a claim does.
  pub claim_succeeds :
      (authorization : Text) (id : ℕ) (w : World b) (raw : Text) (token : ClaimToken)
      (a : Appliance) (buf : List ℕ) (rest : List (Option (List ℕ)))
      → bearer_token authorization ≡ some raw
      → find (token_of id) w.claim_tokens ≡ some token
      → token.token_hash ≡ hash_secret x raw
      → w.clock + tick w.ticks ≤ token.expires_at
      → appliance_of id w.db ≡ some a
      → a.status ≡ pending
      → w.faults ≡ []
      → w.entropy ≡ some buf ∷ rest
      → (resp : ClaimApplianceResponse) × (w' : World b) × (run (claim x app authorization id) w
          ≡ (ok resp, w'))
        × Claimed x app w id resp w'
  unfolding claim
  claim_succeeds authorization id w raw token a buf rest bearer on_file hashes in_time row waits
        calm enough =
      let c₀ : Calm w w.db (some buf ∷ rest) = record {
        no_faults = calm;
        same_db = refl;
        same_entropy = enough;
      } in
      let s : Succeeds (claim x app authorization id) w (λ _ _. Unit {0}) =
        then_returns _
          (required_returns (required (unauthorized "missing claim token")) _ w (λ t. refl) bearer)
          λ w₁ e₁.
            then_returns _
              (handled_returns _ (
                get_claim_token_succeeds id w₁
                  (subst (λ v. Calm v w.db (some buf ∷ rest)) (sym e₁) c₀) on_file))
              λ w₂ (clock, ticks, c₂). then_returns _ (time_now_succeeds id w₂ c₂) λ w₃ c₃.
                then_returns _
                  (expired_claim_returns id _ w₃ (ground (arith, in_time, clock, ticks, e₁)))
                  λ w₄ e₄.
                    then_succeeds
                      (guard_succeeds _ _ w₄
                        (ground (arith, hashes, text_eq_iff (hash_secret x raw) token.token_hash))
                        (subst (λ v. Calm v w.db (some buf ∷ rest)) (sym e₄) c₃))
                      λ _ w₅ c₅.
                        then_succeeds (activate_succeeds id w₅ buf rest a c₅ row waits)
                          λ (found, secret) w₆ _.
                            then_succeeds
                              (ignore_succeeds tt (Mariadb.delete_claim_token_of found.id) w₆)
                              λ _ w₇ _. ret_succeeds _ w₇ tt in
      (s.value, s.after, s.runs, (claim-Claimed x app authorization id w s.runs).1)
