-- ===== src/World/Codes.antt =====
-- The SQL statements of internal/persistence/mariadb/mariadb.go on the tables of claim tokens,
-- exchange codes and login codes, with the keys and foreign keys of migrations/.
use appliance_registry.Prelude.{
  ℕ, Bool, not, ◌&&◌, none, some, ◌∷◌, Text, text_eq, ◌==◌, ltb, find, keep, ok, err,
}
use appliance_registry.Persistence.{
  ClaimToken, EnrollExchangeCode, LoginCode, no_rows, duplicate, unavailable,
}
use appliance_registry.World.{Database}
use appliance_registry.World.Statements.{Reply, row_of}

abbrev pub token_of : ℕ → ClaimToken → Bool
token_of id t = t.appliance_id == id

abbrev pub code_of : ℕ → EnrollExchangeCode → Bool
code_of id c = c.appliance_id == id

-- INSERT INTO applianceClaimTokens … ON DUPLICATE KEY UPDATE …: one row for an appliance.
unfoldable pub upsert_claim_token : ClaimToken → Database → Reply (Unit {0})
upsert_claim_token t db = elim (row_of t.appliance_id db) [
  | none ↦ (err unavailable, db)
  | some _ ↦ (
    ok tt,
    record db { claim_tokens = t ∷ keep (λ u. not (token_of t.appliance_id u)) db.claim_tokens },
  )
]

unfoldable pub select_claim_token : ℕ → Database → Reply ClaimToken
select_claim_token id db = elim (find (token_of id) db.claim_tokens) [
  | none ↦ (err no_rows, db)
  | some t ↦ (ok t, db)
]

unfoldable pub delete_claim_token : ℕ → Database → Reply (Unit {0})
delete_claim_token id db =
    (ok tt, record db { claim_tokens = keep (λ u. not (token_of id u)) db.claim_tokens })

-- The same for applianceEnrollExchangeCodes.
unfoldable pub upsert_exchange_code : EnrollExchangeCode → Database → Reply (Unit {0})
upsert_exchange_code c db = elim (row_of c.appliance_id db) [
  | none ↦ (err unavailable, db)
  | some _ ↦ (
    ok tt,
    record db { exchange_codes = c ∷ keep (λ u. not (code_of c.appliance_id u)) db.exchange_codes },
  )
]

unfoldable pub select_exchange_code : ℕ → Database → Reply EnrollExchangeCode
select_exchange_code id db = elim (find (code_of id) db.exchange_codes) [
  | none ↦ (err no_rows, db)
  | some c ↦ (ok c, db)
]

unfoldable pub delete_exchange_code : ℕ → Database → Reply (Unit {0})
delete_exchange_code id db =
    (ok tt, record db { exchange_codes = keep (λ u. not (code_of id u)) db.exchange_codes })

-- DELETE FROM applianceLoginCodes WHERE expiresAt < ?
unfoldable pub prune_login_codes : ℕ → Database → Reply (Unit {0})
prune_login_codes now db =
    (ok tt, record db { login_codes = keep (λ c. not (ltb c.expires_at now)) db.login_codes })

abbrev pub has_hash : Text → LoginCode → Bool
has_hash hash c = text_eq c.code_hash hash

abbrev pub has_hash_of : Text → ℕ → LoginCode → Bool
has_hash_of hash id c = text_eq c.code_hash hash && c.appliance_id == id

-- INSERT INTO applianceLoginCodes: codeHash is the primary key.
unfoldable pub insert_login_code : LoginCode → Database → Reply (Unit {0})
insert_login_code c db = elim (row_of c.appliance_id db) [
  | none ↦ (err unavailable, db)
  | some _ ↦ elim (find (has_hash c.code_hash) db.login_codes) [
    | some _ ↦ (err duplicate, db)
    | none ↦ (ok tt, record db { login_codes = c ∷ db.login_codes })
  ]
]

-- The transaction of ConsumeLoginCode: SELECT … FOR UPDATE, DELETE, COMMIT. It is one step, since
-- the row is locked, and any error rolls it back.
unfoldable pub take_login_code : Text → ℕ → Database → Reply LoginCode
take_login_code hash id db = elim (find (has_hash_of hash id) db.login_codes) [
  | none ↦ (err no_rows, db)
  | some c ↦ (ok c, record db { login_codes = keep (λ u. not (has_hash hash u)) db.login_codes })
]
