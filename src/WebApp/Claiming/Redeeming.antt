-- ===== src/WebApp/Claiming/Redeeming.antt =====
-- internal/appliancewebapp/webapp.go: EnrollRedeem, where nothing fails.
use appliance_registry.Prelude.{
  ℕ, Bool, false, ◌+◌, ◌≤◌, ◌≡◌, refl, sym, ap, subst, Option, some, List, [], ◌∷◌, Text,
  text_eq_iff, ok, arith, find,
}
use appliance_registry.External.{External, Backend}
use appliance_registry.Persistence.{Appliance, ClaimToken, EnrollExchangeCode, pending}
use appliance_registry.World.{World}
use appliance_registry.World.Codes.{token_of, code_of}
use appliance_registry.World.Rows.{appliance_of}
use appliance_registry.Tokens.{bearer_token, hash_secret}
use appliance_registry.Mariadb
use appliance_registry.Mariadb.Success.{
  Calm, get_claim_token_succeeds, get_enroll_exchange_code_succeeds, time_now_succeeds,
  ignore_succeeds,
}
use appliance_registry.RestModels.{ClaimApplianceResponse}
use appliance_registry.Program.Run.{run, tick}
use appliance_registry.Program.Success.{
  Succeeds, Returns, then_returns, then_succeeds, handled_returns, required_returns, guard_succeeds,
  ret_succeeds,
}
use appliance_registry.WebApp.{WebApp, required, unauthorized}
use appliance_registry.WebApp.Claiming.{enroll_redeem, expired_code}
use appliance_registry.WebApp.Claiming.Outcomes.{Claimed, enroll_redeem-Claimed}
use appliance_registry.WebApp.Claiming.Success.{activate_succeeds}

module _ {b : Backend} (x : External) (app : WebApp) where
  expired_code_returns :
      (id : ℕ) (late : Bool) (w : World b)
      → late ≡ false
      → Returns (expired_code id late) w tt (λ v. v ≡ w)
  unfolding run
  expired_code_returns id late w e = record {
    after = w;
    runs = ap (λ t. run (expired_code id t) w) e;
    holds = refl;
  }

  -- Let no call fail, and let the random source have a read at hand. A redemption with the raw value of
  -- the exchange code on file for a pending appliance, before its expiry, while the claim token that the
  -- code was issued with is the one on file, succeeds, and has then done all that a claim does; the
  -- expiry of the claim token does not count.
  pub enroll_redeem_succeeds :
      (authorization : Text) (id : ℕ) (w : World b) (raw : Text) (code : EnrollExchangeCode)
      (token : ClaimToken) (a : Appliance) (buf : List ℕ) (rest : List (Option (List ℕ)))
      → bearer_token authorization ≡ some raw
      → find (code_of id) w.exchange_codes ≡ some code
      → code.code_hash ≡ hash_secret x raw
      → w.clock + tick w.ticks ≤ code.expires_at
      → find (token_of id) w.claim_tokens ≡ some token
      → code.claim_token_hash ≡ token.token_hash
      → appliance_of id w.db ≡ some a
      → a.status ≡ pending
      → w.faults ≡ []
      → w.entropy ≡ some buf ∷ rest
      → (resp : ClaimApplianceResponse) × (w' : World b) × (run
            (enroll_redeem x app authorization id)
            w
          ≡ (ok resp, w'))
        × Claimed x app w id resp w'
  unfolding enroll_redeem
  enroll_redeem_succeeds authorization id w raw code token a buf rest bearer on_file hashes in_time
        token_on_file pinned row waits calm enough =
      let c₀ : Calm w w.db (some buf ∷ rest) = record {
        no_faults = calm;
        same_db = refl;
        same_entropy = enough;
      } in
      let s : Succeeds (enroll_redeem x app authorization id) w (λ _ _. Unit {0}) =
        then_returns _
          (required_returns (required (unauthorized "missing exchange code")) _ w (λ t. refl)
            bearer)
          λ w₁ e₁.
            then_returns _
              (handled_returns _ (
                get_enroll_exchange_code_succeeds id w₁
                  (subst (λ v. Calm v w.db (some buf ∷ rest)) (sym e₁) c₀) on_file))
              λ w₂ (clock, ticks, c₂). then_returns _ (time_now_succeeds id w₂ c₂) λ w₃ c₃.
                then_returns _
                  (expired_code_returns id _ w₃ (ground (arith, in_time, clock, ticks, e₁)))
                  λ w₄ e₄.
                    then_succeeds
                      (guard_succeeds _ _ w₄
                        (ground (arith, hashes, text_eq_iff (hash_secret x raw) code.code_hash))
                        (subst (λ v. Calm v w.db (some buf ∷ rest)) (sym e₄) c₃))
                      λ _ w₅ c₅.
                        then_returns _
                          (handled_returns _ (get_claim_token_succeeds id w₅ c₅ token_on_file))
                          λ w₆ (_, _, c₆).
                            then_succeeds
                              (guard_succeeds _ _ w₆
                                (ground (
                                  arith,
                                  pinned,
                                  text_eq_iff code.claim_token_hash token.token_hash,
                                ))
                                c₆)
                              λ _ w₇ c₇.
                                then_succeeds
                                  (activate_succeeds x app id w₇ buf rest a c₇ row waits)
                                  λ (found, secret) w₈ _.
                                    then_succeeds
                                      (ignore_succeeds tt (Mariadb.delete_claim_token_of found.id)
                                        w₈)
                                      λ _ w₉ _.
                                        then_succeeds
                                          (ignore_succeeds tt
                                            (Mariadb.delete_enroll_exchange_code found.id) w₉)
                                          λ _ w₁₀ _. ret_succeeds _ w₁₀ tt in
      (s.value, s.after, s.runs, (enroll_redeem-Claimed x app authorization id w s.runs).1)
