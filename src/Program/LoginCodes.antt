-- ===== src/Program/LoginCodes.antt =====
-- The login codes on file along the calls of a program.
use appliance_registry.Prelude.{
  ℕ, ◌+◌, ◌≤◌, ◌≡◌, refl, ap, Bool, not, Option, none, some, List, [], ◌∷◌, Text, text_eq,
  text_eq_iff, Result, ok, err, arith, find, keep, if◌then◌else◌, Option-cases, Bool-cases, inl,
  inr,
}
use appliance_registry.External.{Backend}
use appliance_registry.Persistence.{ApplianceStatus, ClaimToken, EnrollExchangeCode, LoginCode}
use appliance_registry.World.{World, Database}
use appliance_registry.World.Statements
use appliance_registry.World.Codes
use appliance_registry.World.Codes.{has_hash, has_hash_of}
use appliance_registry.World.Rows.{find-keep-not}
use appliance_registry.World.Keys.{find-keep-none}
use appliance_registry.Program.{
  Op, insert_appliance, select_appliance, select_one, select_secret_hash, select_group,
  select_status, update_status, update_claimed, update_secret_hash, upsert_claim_token,
  select_claim_token, delete_claim_token, upsert_exchange_code, select_exchange_code,
  delete_exchange_code, prune_login_codes, insert_login_code, take_login_code, create_secret,
  update_secret, get_secret, delete_secret, read_random, time_now, limiter_allow, http_get,
}
use appliance_registry.Program.Run.{perform, on_db}
use appliance_registry.World.Statements.{Reply}
use appliance_registry.World.Invariants.{
  db-select_appliance, db-select_one, db-select_secret_hash, db-select_claim_token,
  db-select_exchange_code,
}
use appliance_registry.Program.Invariants.{
  on_db-keeps, db-create_secret, db-update_secret, db-get_secret, db-delete_secret,
}

abbrev counted : {A : Type 0} → Option A → ℕ
counted none = 0
counted (some _) = 1

abbrev got : {E A : Type 0} → Result E A → ℕ
got (ok _) = 1
got (err _) = 0

-- 1 where a code with this hash is on file, of whatever appliance, and 0 otherwise.
unfoldable pub on_file : Text → Database → ℕ
on_file hash db = counted (find (has_hash hash) db.login_codes)

module _ {b : Backend} where
  -- 1 for a call that takes the code with this hash and returns it.
  unfoldable pub taken : Text → (o : Op) → World b → ℕ
  taken hash (take_login_code h id) w =
      if text_eq h hash then got (perform (take_login_code h id) w).0 else 0
  taken hash _ w = 0

-- 1 for a call that puts a code with this hash on file, or tries to.
unfoldable pub issued : Text → Op → ℕ
issued hash (insert_login_code c) = if text_eq c.code_hash hash then 1 else 0
issued hash _ = 0

counted-le-keep :
    (p q : LoginCode → Bool) (cs : List LoginCode)
    → counted (find p (keep q cs)) ≤ counted (find p cs)
counted-le-keep p q cs = elim (Option-cases (find p cs)) [
  | inl absent ↦ ground (arith, find-keep-none p q cs absent)
  | inr (c, found) ↦ ground (arith, found)
]

-- The statements on the other tables.
same-db : (hash : Text) {v w : Database} → v ≡ w → 0 + on_file hash v ≤ 0 + on_file hash w
same-db hash e = ground (arith, e)

module _ (db : Database) where
  codes-insert_appliance :
      (name label : Text) (g t : ℕ)
      → (Statements.insert_appliance name label g t db).1.login_codes ≡ db.login_codes
  unfolding Statements.insert_appliance
  codes-insert_appliance name label g t = ground arith

  codes-update_status :
      (id : ℕ) (s : ApplianceStatus)
      → (Statements.update_status id s db).1.login_codes ≡ db.login_codes
  unfolding Statements.update_status
  codes-update_status id s = ground arith

  codes-update_claimed :
      (id t : ℕ) → (Statements.update_claimed id t db).1.login_codes ≡ db.login_codes
  unfolding Statements.update_claimed
  codes-update_claimed id t = ground arith

  codes-update_secret_hash :
      (id : ℕ) (h : Option Text)
      → (Statements.update_secret_hash id h db).1.login_codes ≡ db.login_codes
  unfolding Statements.update_secret_hash
  codes-update_secret_hash id h = ground arith

  codes-upsert_claim_token :
      (t : ClaimToken) → (Codes.upsert_claim_token t db).1.login_codes ≡ db.login_codes
  unfolding Codes.upsert_claim_token
  codes-upsert_claim_token t = ground arith

  codes-upsert_exchange_code :
      (c : EnrollExchangeCode) → (Codes.upsert_exchange_code c db).1.login_codes ≡ db.login_codes
  unfolding Codes.upsert_exchange_code
  codes-upsert_exchange_code c = ground arith

found-of :
    (h : Text) (id : ℕ) (cs : List LoginCode) {c : LoginCode}
    → find (has_hash_of h id) cs ≡ some c
    → counted (find (has_hash h) cs) ≡ 1
unfolding find
found-of h id [] e = ground arith
found-of h id (d ∷ cs) {c = c} e = ground (arith, found-of h id cs {c = c})

module _ (hash : Text) where
  prune-le :
      (now : ℕ) (db : Database) → on_file hash (Codes.prune_login_codes now db).1 ≤ on_file hash db
  unfolding on_file Codes.prune_login_codes
  prune-le now db = counted-le-keep (has_hash hash) _ db.login_codes

  insert-le :
      (c : LoginCode) (db : Database)
      → on_file hash (Codes.insert_login_code c db).1
        ≤ (if text_eq c.code_hash hash then 1 else 0) + on_file hash db
  unfolding on_file Codes.insert_login_code find
  insert-le c db = ground arith

  take-le :
      (h : Text) (id : ℕ) (db : Database)
      → (if text_eq h hash then got (Codes.take_login_code h id db).0 else 0)
          + on_file hash (Codes.take_login_code h id db).1
        ≤ on_file hash db
  unfolding on_file Codes.take_login_code
  take-le h id db = elim (Bool-cases (text_eq h hash)) [
    | inl same ↦ elim (Option-cases (find (has_hash_of h id) db.login_codes)) [
      | inl absent ↦ ground arith
      | inr (c, found) ↦
          let there = found-of h id db.login_codes found in
          let left = find-keep-not (has_hash h) db.login_codes in
          let eq = text_eq_iff h hash in ground arith
    ]
    | inr differs ↦
        let rest = counted-le-keep (has_hash hash) (λ u. not (has_hash h u)) db.login_codes in
        ground arith
  ]

module _ {b : Backend} (hash : Text) where
  same-on_db :
      {A : Type 0} (f : Database → Reply A) (w : World b)
      → (f w.db).1.login_codes ≡ w.db.login_codes
      → 0 + on_file hash (on_db f w).1.db ≤ 0 + on_file hash w.db
  unfolding on_file
  same-on_db f w e =
      let h = on_db-keeps (λ d. d.login_codes ≡ w.db.login_codes) f w e refl in ground (arith, h)

  -- A call takes a code only if one was on file, and then none is left.
  pub taken-le :
      (o : Op) (w : World b)
      → taken hash o w + on_file hash (perform o w).1.db ≤ issued hash o + on_file hash w.db
  unfolding taken issued perform Statements.select_group Statements.select_status
      Codes.delete_claim_token Codes.delete_exchange_code
  taken-le (insert_appliance name label g) w =
      same-on_db (Statements.insert_appliance name label g (b.column_time w.clock)) w
        (codes-insert_appliance w.db name label g _)
  taken-le (select_appliance id) w =
      same-on_db (Statements.select_appliance id) w
        (ap (λ d. d.login_codes) (db-select_appliance id w.db))
  taken-le (select_one id) w =
      same-on_db (Statements.select_one id) w (ap (λ d. d.login_codes) (db-select_one id w.db))
  taken-le (select_secret_hash id) w =
      same-on_db (Statements.select_secret_hash id) w
        (ap (λ d. d.login_codes) (db-select_secret_hash id w.db))
  taken-le (select_group g f) w = same-on_db (Statements.select_group b.collate g f) w refl
  taken-le (select_status s) w = same-on_db (Statements.select_status s) w refl
  taken-le (update_status id s) w =
      same-on_db (Statements.update_status id s) w (codes-update_status w.db id s)
  taken-le (update_claimed id) w =
      same-on_db (Statements.update_claimed id (b.column_time w.clock)) w
        (codes-update_claimed w.db id _)
  taken-le (update_secret_hash id h) w =
      same-on_db (Statements.update_secret_hash id h) w (codes-update_secret_hash w.db id h)
  taken-le (upsert_claim_token t) w =
      same-on_db (Codes.upsert_claim_token (record t { expires_at = b.column_time t.expires_at })) w
        (codes-upsert_claim_token w.db _)
  taken-le (select_claim_token id) w =
      same-on_db (Codes.select_claim_token id) w
        (ap (λ d. d.login_codes) (db-select_claim_token id w.db))
  taken-le (delete_claim_token id) w = same-on_db (Codes.delete_claim_token id) w refl
  taken-le (upsert_exchange_code c) w =
      same-on_db (Codes.upsert_exchange_code (record c { expires_at = b.column_time c.expires_at }))
        w (codes-upsert_exchange_code w.db _)
  taken-le (select_exchange_code id) w =
      same-on_db (Codes.select_exchange_code id) w
        (ap (λ d. d.login_codes) (db-select_exchange_code id w.db))
  taken-le (delete_exchange_code id) w = same-on_db (Codes.delete_exchange_code id) w refl
  taken-le (prune_login_codes now) w =
      let h =
        on_db-keeps (λ d. on_file hash d ≤ on_file hash w.db) (Codes.prune_login_codes now) w
          (prune-le hash now w.db) (omega arith) in
      omega (arith, h)
  taken-le (insert_login_code c) w =
      let n = if text_eq c.code_hash hash then 1 else 0 in
      let c' = record c { expires_at = b.column_time c.expires_at } in
      let h =
        on_db-keeps (λ d. on_file hash d ≤ n + on_file hash w.db) (Codes.insert_login_code c') w
          (insert-le hash c' w.db) (omega arith) in
      omega (arith, h)
  taken-le (take_login_code h id) w = let t = take-le hash h id w.db in ground (arith, t)
  taken-le (create_secret key s) w = same-db hash (db-create_secret key s w)
  taken-le (update_secret key s) w = same-db hash (db-update_secret key s w)
  taken-le (get_secret key) w = same-db hash (db-get_secret key w)
  taken-le (delete_secret key) w = same-db hash (db-delete_secret key w)
  taken-le (read_random n) w = omega arith
  taken-le time_now w = omega arith
  taken-le limiter_allow w = omega arith
  taken-le (http_get url t) w = omega arith
