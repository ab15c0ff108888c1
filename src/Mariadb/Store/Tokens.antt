-- ===== src/Mariadb/Store/Tokens.antt =====
-- internal/persistence/mariadb/mariadb.go: the methods on claim tokens and exchange codes, against their
-- promises.
use appliance_registry.Prelude.{
  ℕ, ◌+◌, ◌≡◌, refl, not, none, some, List, [], ◌∷◌, Text, ok, arith, ap, ◌∙◌, ◌==◌, find, keep,
  Option-cases, inl, inr,
}
use mathlib.Core.Path.{fun_ext}
use appliance_registry.External.{Backend}
use appliance_registry.Persistence.{ClaimToken, EnrollExchangeCode}
use appliance_registry.World.{World}
use appliance_registry.World.Statements.{row_of}
use appliance_registry.World.Codes
use appliance_registry.World.Codes.{token_of, code_of}
use appliance_registry.Program.Run.{run, perform, tick}
use appliance_registry.Mariadb
use appliance_registry.Mariadb.Store.{
  view, put, exec, spec, save_claim_token, delete_claim_token, save_enroll_exchange_code,
  delete_enroll_exchange_code,
}
use appliance_registry.Mariadb.Store.Lookups.{find-keep_key}
use appliance_registry.Mariadb.Store.Reads.{observe, Refines}

module _ {A : Type 0} (key : A → ℕ) (i : ℕ) (xs : List A) where
  map-keep :
      (λ j. find (λ a. key a == j) (keep (λ a. not (key a == i)) xs))
      ≡ put i none (λ j. find (λ a. key a == j) xs)
  map-keep = fun_ext (λ j. find-keep_key key i j xs)

  map-upsert :
      (x : A)
      → key x ≡ i
      → (λ j. find (λ a. key a == j) (x ∷ keep (λ a. not (key a == i)) xs))
        ≡ put i (some x) (λ j. find (λ a. key a == j) xs)
  unfolding find
  map-upsert x e = fun_ext (λ j. ground (arith, find-keep_key key i j xs))

module _ {b : Backend} (w : World b) (calm : w.faults ≡ []) where
  pub delete_claim_token-Refines : (id : ℕ) → Refines (delete_claim_token id) w
  unfolding run perform Mariadb.delete_claim_token_of Codes.delete_claim_token row_of
  delete_claim_token-Refines id =
      let ran : observe (run (exec (delete_claim_token id)) w)
          ≡ (ok tt, view (Codes.delete_claim_token id w.db).1) =
        ground (arith, calm) in
      ran
      ∙ ap (λ f. (ok tt, record (view w.db) { tokens = f }))
          (map-keep (λ u. u.appliance_id) id w.claim_tokens)

  pub delete_enroll_exchange_code-Refines : (id : ℕ) → Refines (delete_enroll_exchange_code id) w
  unfolding run perform Mariadb.delete_enroll_exchange_code Codes.delete_exchange_code row_of
  delete_enroll_exchange_code-Refines id =
      let ran : observe (run (exec (delete_enroll_exchange_code id)) w)
          ≡ (ok tt, view (Codes.delete_exchange_code id w.db).1) =
        ground (arith, calm) in
      ran
      ∙ ap (λ f. (ok tt, record (view w.db) { codes = f }))
          (map-keep (λ u. u.appliance_id) id w.exchange_codes)

  pub save_claim_token-Refines :
      (id : ℕ) (hash : Text) (t : ℕ) → Refines (save_claim_token id hash t) w
  unfolding run perform Mariadb.save_claim_token Codes.upsert_claim_token row_of
  save_claim_token-Refines id hash t =
      let new : ClaimToken = record {
        appliance_id = id;
        token_hash = hash;
        expires_at = b.column_time t;
      } in
      elim (Option-cases (row_of id w.db)) [
        | inl e ↦ ground (arith, calm, e)
        | inr (r, e) ↦
            let ran : observe (run (exec (save_claim_token id hash t)) w)
                ≡ (ok tt, view (Codes.upsert_claim_token new w.db).1) =
              ground (arith, calm, e) in
            let same : (Codes.upsert_claim_token new w.db).1 ≡ record w.db {
              claim_tokens = new ∷ keep (λ u. not (u.appliance_id == id)) w.claim_tokens;
            } =
              ground (arith, e) in
            let promise : (
              ok tt,
              record (view w.db) { tokens = put id (some new) (view w.db).tokens },
            )
                ≡ spec b.column_time w.clock (w.clock + tick w.ticks) (save_claim_token id hash t)
                    (view w.db) =
              ground (arith, e) in
            ran
            ∙ ap (λ db. (ok tt, view db)) same
            ∙ ap (λ f. (ok tt, record (view w.db) { tokens = f }))
                (map-upsert (λ u. u.appliance_id) id w.claim_tokens new refl)
            ∙ promise
      ]

  pub save_enroll_exchange_code-Refines :
      (id : ℕ) (hash token : Text) (t : ℕ) → Refines (save_enroll_exchange_code id hash token t) w
  unfolding run perform Mariadb.save_enroll_exchange_code Codes.upsert_exchange_code row_of
  save_enroll_exchange_code-Refines id hash token t =
      let new : EnrollExchangeCode = record {
        appliance_id = id;
        code_hash = hash;
        claim_token_hash = token;
        expires_at = b.column_time t;
      } in
      elim (Option-cases (row_of id w.db)) [
        | inl e ↦ ground (arith, calm, e)
        | inr (r, e) ↦
            let ran : observe (run (exec (save_enroll_exchange_code id hash token t)) w)
                ≡ (ok tt, view (Codes.upsert_exchange_code new w.db).1) =
              ground (arith, calm, e) in
            let same : (Codes.upsert_exchange_code new w.db).1 ≡ record w.db {
              exchange_codes = new ∷ keep (λ u. not (u.appliance_id == id)) w.exchange_codes;
            } =
              ground (arith, e) in
            let promise : (
              ok tt,
              record (view w.db) { codes = put id (some new) (view w.db).codes },
            )
                ≡ spec b.column_time w.clock (w.clock + tick w.ticks)
                    (save_enroll_exchange_code id hash token t) (view w.db) =
              ground (arith, e) in
            ran
            ∙ ap (λ db. (ok tt, view db)) same
            ∙ ap (λ f. (ok tt, record (view w.db) { codes = f }))
                (map-upsert (λ u. u.appliance_id) id w.exchange_codes new refl)
            ∙ promise
      ]
