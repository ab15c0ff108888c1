-- ===== src/Mariadb/Ends.antt =====
-- How calls to internal/persistence/mariadb/mariadb.go end, where nothing fails.
use appliance_registry.Prelude.{
  ℕ, ◌+◌, ◌≡◌, refl, Option, none, some, List, [], ◌∷◌, Text, arith, not, ltb, find, keep, map,
  sort_by, ◌==◌, ◌&&◌, Option-cases, inl, inr, err, ok,
}
use appliance_registry.External.{External, Backend}
use appliance_registry.Persistence.{
  Appliance, ApplianceStatus, ApplianceFilter, LoginCode, DbError, no_rows,
}
use appliance_registry.World.{World, Database, Row}
use appliance_registry.World.Statements
use appliance_registry.World.Statements.{row_of, status_eq, matches_filter}
use appliance_registry.World.Codes
use appliance_registry.World.Codes.{token_of, code_of, has_hash, has_hash_of}
use appliance_registry.World.Keys.{find-keep-none}
use appliance_registry.World.Rows.{appliance_of, null_string}
use appliance_registry.Mariadb
use appliance_registry.Mariadb.Success.{Calm, get_appliance_succeeds, time_now_succeeds}
use appliance_registry.Text.{hex}
use appliance_registry.Tokens.{random_hex, generate_token, hash_secret}
use appliance_registry.Program.{call, returned, prune_login_codes, insert_login_code, ◌>>=◌}
use appliance_registry.Program.Run.{run, perform, tick}
use appliance_registry.Program.Success.{Succeeds, then_returns, then_succeeds}
use appliance_registry.Program.Ends.{Ends, ends_with}

-- A look-up that finds nothing.
abbrev pub Missing : DbError → Type 0
Missing e = e ≡ no_rows

module _ {b : Backend} {db : Database} {entropy : List (Option (List ℕ))} (w : World b)
    (c : Calm w db entropy) where
  pub get_appliance_ends :
      (id : ℕ)
      → Ends
          (Mariadb.get_appliance id)
          w
          Missing
          (λ a v. (appliance_of id db ≡ some a) × Calm v db entropy)
  unfolding run perform Mariadb.get_appliance Statements.select_appliance
  get_appliance_ends id = elim (Option-cases (appliance_of id db)) [
    | inl absent ↦
        ends_with _ w (err no_rows, record w { faults = [] })
          (ground (arith, c.no_faults, c.same_db)) refl
    | inr (a, row) ↦
        let s = get_appliance_succeeds id w c row in
        ends_with _ w (ok a, s.after) s.runs (row, s.holds)
  ]

  pub get_claim_token_ends :
      (id : ℕ) → Ends (Mariadb.get_claim_token id) w Missing (λ _ v. Calm v db entropy)
  unfolding run perform Mariadb.get_claim_token Codes.select_claim_token
  get_claim_token_ends id = elim (Option-cases (find (token_of id) db.claim_tokens)) [
    | inl absent ↦
        ends_with _ w (err no_rows, record w { faults = [] })
          (ground (arith, c.no_faults, c.same_db)) refl
    | inr (t, row) ↦
        ends_with _ w (ok t, record w { faults = [] }) (ground (arith, c.no_faults, c.same_db))
          (ground (arith, c.same_db, c.same_entropy))
  ]

  pub get_enroll_exchange_code_ends :
      (id : ℕ) → Ends (Mariadb.get_enroll_exchange_code id) w Missing (λ _ v. Calm v db entropy)
  unfolding run perform Mariadb.get_enroll_exchange_code Codes.select_exchange_code
  get_enroll_exchange_code_ends id = elim (Option-cases (find (code_of id) db.exchange_codes)) [
    | inl absent ↦
        ends_with _ w (err no_rows, record w { faults = [] })
          (ground (arith, c.no_faults, c.same_db)) refl
    | inr (t, row) ↦
        ends_with _ w (ok t, record w { faults = [] }) (ground (arith, c.no_faults, c.same_db))
          (ground (arith, c.same_db, c.same_entropy))
  ]

  pub get_appliance_secret_hash_ends :
      (id : ℕ) → Ends (Mariadb.get_appliance_secret_hash id) w Missing (λ _ v. Calm v db entropy)
  unfolding run perform Mariadb.get_appliance_secret_hash Statements.select_secret_hash ◌>>=◌
  get_appliance_secret_hash_ends id = elim (Option-cases (row_of id db)) [
    | inl absent ↦
        ends_with _ w (err no_rows, record w { faults = [] })
          (ground (arith, c.no_faults, c.same_db)) refl
    | inr (r, row) ↦
        ends_with _ w (ok (null_string r.secret_hash), record w { faults = [] })
          (ground (arith, c.no_faults, c.same_db)) (ground (arith, c.same_db, c.same_entropy))
  ]

  pub consume_login_code_ends :
      (hash : Text) (id : ℕ) → Ends (Mariadb.consume_login_code hash id) w Missing (λ _ _. Unit {0})
  unfolding run perform Mariadb.consume_login_code Codes.take_login_code
  consume_login_code_ends hash id =
      elim (Option-cases (find (has_hash_of hash id) db.login_codes)) [
        | inl absent ↦
            ends_with _ w (err no_rows, record w { faults = [] })
              (ground (arith, c.no_faults, c.same_db)) refl
        | inr (l, row) ↦
            ends_with _ w (ok l, (run (Mariadb.consume_login_code hash id) w).1)
              (ground (arith, c.no_faults, c.same_db)) tt
      ]

  pub list_appliances_for_group_succeeds :
      (g : ℕ) (f : ApplianceFilter)
      → Succeeds (Mariadb.list_appliances_for_group g f) w (λ _ _. Unit {0})
  unfolding run perform Mariadb.list_appliances_for_group Statements.select_group
  list_appliances_for_group_succeeds g f = record {
    value =
        sort_by (λ a. a.created_at)
          (keep (λ a. a.group_id == g && matches_filter b.collate f a)
            (map (λ (r : Row). r.appliance) w.appliances));
    after = record w { faults = [] };
    runs = ground (arith, c.no_faults);
    holds = tt;
  }

  pub list_appliances_by_status_succeeds :
      (s : ApplianceStatus) → Succeeds (Mariadb.list_appliances_by_status s) w (λ _ _. Unit {0})
  unfolding run perform Mariadb.list_appliances_by_status Statements.select_status
  list_appliances_by_status_succeeds s = record {
    value =
        sort_by (λ a. a.id)
          (keep (λ a. status_eq a.status s) (map (λ (r : Row). r.appliance) w.appliances));
    after = record w { faults = [] };
    runs = ground (arith, c.no_faults);
    holds = tt;
  }

  prune_succeeds :
      (now : ℕ)
      → Succeeds {E = DbError} (call (prune_login_codes now) returned) w (λ _ v.
        Calm v
          (record db { login_codes = keep (λ l. not (ltb l.expires_at now)) db.login_codes })
          entropy)
  unfolding run perform Codes.prune_login_codes
  prune_succeeds now = record {
    value = tt;
    after = (run {E = DbError} (call (prune_login_codes now) returned) w).1;
    runs = ground (arith, c.no_faults);
    holds = ground (arith, c.no_faults, c.same_db, c.same_entropy);
  }

  insert_succeeds :
      (code : LoginCode) {a : Appliance}
      → appliance_of code.appliance_id db ≡ some a
      → find (has_hash code.code_hash) db.login_codes ≡ none
      → Succeeds {E = DbError} (call (insert_login_code code) returned) w (λ _ _. Unit {0})
  unfolding run perform Codes.insert_login_code
  insert_succeeds code row fresh = record {
    value = tt;
    after = (run {E = DbError} (call (insert_login_code code) returned) w).1;
    runs = ground (arith, c.no_faults, c.same_db, row, fresh);
    holds = tt;
  }

  pub save_enroll_exchange_code_succeeds :
      (id : ℕ) (k h : Text) (t : ℕ) {a : Appliance}
      → appliance_of id db ≡ some a
      → Succeeds (Mariadb.save_enroll_exchange_code id k h t) w (λ _ _. Unit {0})
  unfolding run perform Mariadb.save_enroll_exchange_code Codes.upsert_exchange_code
  save_enroll_exchange_code_succeeds id k h t row = record {
    value = tt;
    after = (run (Mariadb.save_enroll_exchange_code id k h t) w).1;
    runs = ground (arith, c.no_faults, c.same_db, row);
    holds = tt;
  }

module _ {b : Backend} {db : Database} {rest : List (Option (List ℕ))} where
  pub save_login_code_succeeds :
      (hash : Text) (id u t : ℕ) (w : World b) {a : Appliance}
      → Calm w db rest
      → appliance_of id db ≡ some a
      → find (has_hash hash) db.login_codes ≡ none
      → Succeeds (Mariadb.save_login_code hash id u t) w (λ _ _. Unit {0})
  unfolding Mariadb.save_login_code row_of
  save_login_code_succeeds hash id u t w c row fresh =
      then_returns _ (time_now_succeeds id w c) λ v c₁.
        then_succeeds (prune_succeeds v c₁ (w.clock + tick w.ticks)) λ _ u' c₂.
          insert_succeeds u' c₂ _ row (find-keep-none (has_hash hash) _ db.login_codes fresh)

  pub generate_token_succeeds :
      (x : External) (buf : List ℕ) (w : World b)
      → Calm w db (some buf ∷ rest)
      → Succeeds
          (generate_token x)
          w
          (λ t v. (t ≡ (hex buf, hash_secret x (hex buf))) × Calm v db rest)
  unfolding run perform generate_token random_hex ◌>>=◌
  generate_token_succeeds x buf w c = record {
    value = (hex buf, hash_secret x (hex buf));
    after = record w { entropy = rest };
    runs = ground (arith, c.same_entropy);
    holds = (refl, ground (arith, c.same_db, c.no_faults));
  }
