-- ===== src/WebApp/Claiming/Access.antt =====
-- internal/appliancewebapp/webapp.go: authenticateAppliance after Claim.
use appliance_registry.Prelude.{
  ℕ, ◌≡◌, ◌≢◌, refl, ap, ◌∙◌, [], some, Text, text, text_eq_iff, ok, arith, Option-cases, inl, inr,
}
use appliance_registry.External.{External, Backend}
use appliance_registry.Persistence.{Appliance, active}
use appliance_registry.World.{World}
use appliance_registry.World.Statements
use appliance_registry.World.Statements.{row_of}
use appliance_registry.World.Rows.{appliance_of, hash_of}
use appliance_registry.Mariadb
use appliance_registry.Tokens.{bearer_token, hash_secret}
use appliance_registry.RestModels.{ClaimApplianceResponse}
use appliance_registry.Program.{◌>>=◌}
use appliance_registry.Program.Run.{run, perform}
use appliance_registry.Program.Success.{
  Succeeds, Returns, then_returns, then_succeeds, handled_returns, required_returns, ret_succeeds,
  guard_succeeds,
}
use appliance_registry.WebApp.{WebApp, authenticate_appliance, required, unauthorized}
use appliance_registry.WebApp.Claiming.{claim}
use appliance_registry.WebApp.Claiming.Outcomes.{claim-Claimed}
use appliance_registry.Mariadb.Success.{Calm, get_appliance_succeeds}

module _ {b : Backend} (x : External) (app : WebApp) where
  get_secret_hash_succeeds :
      (id : ℕ) (w : World b) {hash : Text}
      → w.faults ≡ []
      → hash_of id w.db ≡ some hash
      → Returns (Mariadb.get_appliance_secret_hash id) w hash (λ v. Calm v w.db w.entropy)
  unfolding run perform Mariadb.get_appliance_secret_hash Statements.select_secret_hash ◌>>=◌
  get_secret_hash_succeeds id w c e = record {
    after = record w { faults = [] };
    runs = ground (arith, c);
    holds = ground arith;
  }

  authenticate_succeeds :
      (id : ℕ) (header secret : Text) (w : World b) (a : Appliance)
      → bearer_token header ≡ some secret
      → hash_secret x secret ≢ text ""
      → hash_of id w.db ≡ some (hash_secret x secret)
      → appliance_of id w.db ≡ some a
      → a.status ≡ active
      → w.faults ≡ []
      → Succeeds (authenticate_appliance x app id header) w (λ r _. r.status ≡ active)
  unfolding authenticate_appliance
  authenticate_succeeds id header secret w a bearer filled known row live calm =
      then_returns _
        (required_returns (required (unauthorized "missing appliance secret")) _ w (λ t. refl)
          bearer)
        λ w₁ e₁.
          let known₁ : hash_of id w₁.db ≡ some (hash_secret x secret) =
            ap (λ v. hash_of id v.db) e₁ ∙ known in
          let calm₁ : w₁.faults ≡ [] = ap (λ v. v.faults) e₁ ∙ calm in
          let row₁ : appliance_of id w₁.db ≡ some a = ap (λ v. appliance_of id v.db) e₁ ∙ row in
          then_returns _ (handled_returns _ (get_secret_hash_succeeds id w₁ calm₁ known₁)) λ w₂ c₂.
            then_succeeds {P = λ _ v. Calm v w₁.db w₁.entropy}
              (guard_succeeds _ _ w₂
                (ground (
                  arith,
                  text_eq_iff (hash_secret x secret) (text ""),
                  text_eq_iff (hash_secret x secret) (hash_secret x secret),
                ))
                c₂)
              λ _ w₃ c₃.
                then_returns _ (handled_returns _ (get_appliance_succeeds id w₃ c₃ row₁)) λ w₄ c₄.
                  then_succeeds {P = λ _ _. Unit {0}}
                    (guard_succeeds _ _ w₄ (ground (arith, live)) tt)
                    λ _ w₅ c₅. ret_succeeds a w₅ live

  -- The secret that a claim returns works: let the claim have succeeded, with whatever failures
  -- before, let the hash of the secret not be empty, and let no later call fail. A header that
  -- carries the secret authenticates the appliance, which is active then.
  pub claim_then_authenticate :
      (authorization : Text) (id : ℕ) (w : World b) {resp : ClaimApplianceResponse} {w' : World b}
      → run (claim x app authorization id) w ≡ (ok resp, w')
      → (header : Text) → bearer_token header ≡ some resp.appliance_secret
      → hash_secret x resp.appliance_secret ≢ text ""
      → w'.faults ≡ []
      → (a : Appliance) × (w'' : World b) × (run (authenticate_appliance x app id header) w'
          ≡ (ok a, w''))
        × (a.status ≡ active)
  claim_then_authenticate authorization id w {resp} {w'} h header bearer filled calm =
      let c = (claim-Claimed x app authorization id w h).1 in
      let row = c.its_row in
      elim (Option-cases (row_of id w'.db)) [
        | inl gone ↦ absurd (ground (arith, c.rows id))
        | inr (r, there) ↦
            let live : r.status ≡ active = ground (arith, c.rows id) in
            let s =
              authenticate_succeeds id header resp.appliance_secret w' r.appliance bearer filled
                (ground (arith, c.rows id)) (ground arith) live calm in
            (s.value, s.after, s.runs, s.holds)
      ]
