-- ===== src/WebApp/Registration/Success.antt =====
-- internal/appliancewebapp/webapp.go: Register, where nothing fails.
use appliance_registry.Prelude.{
  ℕ, ◌+◌, ◌<◌, ◌≡◌, refl, Option, some, none, List, [], ◌∷◌, ◌++◌, map, length, Text, ok, arith,
  find, All,
}
use appliance_registry.External.{External, Identity, Backend}
use appliance_registry.Clock.{after}
use appliance_registry.Persistence.{Appliance}
use appliance_registry.World.{World}
use appliance_registry.World.Statements.{has_label, row_of}
use appliance_registry.World.Codes
use appliance_registry.World.Rows.{appliance_of}
use appliance_registry.World.Integrity.{IsConsistent}
use appliance_registry.Mariadb
use appliance_registry.Mariadb.Store.Refinement.{below_is_free}
use appliance_registry.Text.{hex}
use appliance_registry.Tokens.{hash_secret, random_hex, generate_token}
use appliance_registry.RestModels.{RegisterApplianceResponse}
use appliance_registry.Program.{on_error, ◌>>=◌}
use appliance_registry.Program.Run.{run, perform, tick}
use appliance_registry.Program.Success.{
  Succeeds, then_returns, then_succeeds, handled_succeeds, ret_succeeds, required_returns,
}
use appliance_registry.WebApp.{WebApp, use_token, required, unauthorized}
use appliance_registry.WebApp.Registration.{register, issue_claim_token}
use appliance_registry.WebApp.Registration.Retry.{
  label_of, IsTaken, create_appliance_with_retry_succeeds,
}
use appliance_registry.WebApp.Registration.Issued.{Registered, register-Registered}

module _ {b : Backend} (x : External) (app : WebApp) where
  pub issue_claim_token_succeeds :
      (id : ℕ) (w : World b) {a : Appliance} {buf : List ℕ} {rest : List (Option (List ℕ))}
      → appliance_of id w.db ≡ some a
      → w.faults ≡ []
      → w.entropy ≡ some buf ∷ rest
      → Succeeds
          (issue_claim_token x app id)
          w
          (λ _ v. (appliance_of id v.db ≡ some a) × (v.faults ≡ []) × (v.entropy ≡ rest))
  unfolding run perform issue_claim_token generate_token random_hex Mariadb.save_claim_token
      Codes.upsert_claim_token row_of on_error ◌>>=◌
  issue_claim_token_succeeds id w {buf = buf} {rest = rest} e calm enough = record {
    value = record {
      raw = hex buf;
      hash = hash_secret x (hex buf);
      expires_at = after (w.clock + tick w.ticks) app.claim_token_expiry;
    };
    after = (run (issue_claim_token x app id) w).1;
    runs = ground (arith, calm, enough, e);
    holds = (
      ground (arith, calm, enough, e),
      ground (arith, calm, enough, e),
      ground (arith, calm, enough, e),
    );
  }

  -- Let no call fail, let the tables keep their keys, and let the random source have reads at hand. A
  -- registration with a use token that verifies succeeds, if one of the first five labels is free; and it
  -- has then done all that a registration does.
  pub register_succeeds :
      (authorization name : Text) (w : World b) (who : Identity) (taken : List (List ℕ))
      (bytes buf : List ℕ) (rest : List (Option (List ℕ)))
      → x.verify authorization ≡ some who
      → length taken < 5
      → All (IsTaken x name w.db) taken
      → find (has_label (label_of x name bytes)) w.appliances ≡ none
      → IsConsistent w.db
      → w.faults ≡ []
      → w.entropy ≡ map some taken ++ some bytes ∷ some buf ∷ rest
      → (resp : RegisterApplianceResponse) × (w' : World b) × (run
            (register x app authorization name)
            w
          ≡ (ok resp, w'))
        × Registered x app w authorization name resp w'
  unfolding register use_token row_of
  register_succeeds authorization name w who taken bytes buf rest verified few all free h calm
        enough =
      let fresh = below_is_free w.next_id w.appliances h.0.below in
      let s : Succeeds (register x app authorization name) w (λ _ _. Unit {0}) =
        then_returns _
          (required_returns (required (unauthorized "invalid or expired token")) _ w (λ t. refl)
            verified)
          λ w₁ e₁.
            then_succeeds
              (handled_succeeds _ (
                create_appliance_with_retry_succeeds x app name who.group_id taken bytes
                  (some buf ∷ rest) w.db w₁ few all free fresh
                  (record {
                    no_faults = ground (arith, e₁, calm);
                    same_db = ground (arith, e₁);
                    same_entropy = ground (arith, e₁, enough);
                  })))
              λ a w₂ c.
                then_succeeds
                  (handled_succeeds _
                    (issue_claim_token_succeeds a.id w₂ c.on_file c.no_faults c.same_entropy))
                  λ token w₃ _. ret_succeeds _ w₃ tt in
      (s.value, s.after, s.runs, register-Registered x app authorization name w s.runs)
