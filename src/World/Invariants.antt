-- ===== src/World/Invariants.antt =====
-- Invariants of the tables: what every statement that the program executes keeps, every call keeps.
use appliance_registry.Prelude.{Bool, true, ℕ, ◌≡◌, Option, Text, arith}
use appliance_registry.Persistence.{revoked, ClaimToken, EnrollExchangeCode, LoginCode}
use appliance_registry.World.{Database}
use appliance_registry.World.Statements
use appliance_registry.World.Statements.{Reply}
use appliance_registry.World.Codes

-- One law for each statement that writes; the only status that is set by itself is `revoked`, and
-- whether claims are marked is a parameter.
pub record Kept (c : Bool) (I : Database → Type 0) : Type 0 where
  pub insert_appliance :
      (name label : Text) (g now : ℕ) (db : Database)
      → I db
      → I (Statements.insert_appliance name label g now db).1
  pub update_status : (id : ℕ) (db : Database) → I db → I (Statements.update_status id revoked db).1
  pub update_claimed :
      c ≡ true → (id now : ℕ) (db : Database) → I db → I (Statements.update_claimed id now db).1
  pub update_secret_hash :
      (id : ℕ) (h : Option Text) (db : Database)
      → I db
      → I (Statements.update_secret_hash id h db).1
  pub upsert_claim_token :
      (t : ClaimToken) (db : Database) → I db → I (Codes.upsert_claim_token t db).1
  pub delete_claim_token : (id : ℕ) (db : Database) → I db → I (Codes.delete_claim_token id db).1
  pub upsert_exchange_code :
      (c : EnrollExchangeCode) (db : Database) → I db → I (Codes.upsert_exchange_code c db).1
  pub delete_exchange_code :
      (id : ℕ) (db : Database) → I db → I (Codes.delete_exchange_code id db).1
  pub prune_login_codes : (now : ℕ) (db : Database) → I db → I (Codes.prune_login_codes now db).1
  pub insert_login_code :
      (c : LoginCode) (db : Database) → I db → I (Codes.insert_login_code c db).1
  pub take_login_code :
      (hash : Text) (id : ℕ) (db : Database) → I db → I (Codes.take_login_code hash id db).1

-- The statements that only read.
pub db-select_appliance : (id : ℕ) (db : Database) → (Statements.select_appliance id db).1 ≡ db
unfolding Statements.select_appliance
db-select_appliance id db = ground arith

pub db-select_one : (id : ℕ) (db : Database) → (Statements.select_one id db).1 ≡ db
unfolding Statements.select_one
db-select_one id db = ground arith

pub db-select_secret_hash : (id : ℕ) (db : Database) → (Statements.select_secret_hash id db).1 ≡ db
unfolding Statements.select_secret_hash
db-select_secret_hash id db = ground arith

pub db-select_claim_token : (id : ℕ) (db : Database) → (Codes.select_claim_token id db).1 ≡ db
unfolding Codes.select_claim_token
db-select_claim_token id db = ground arith

pub db-select_exchange_code : (id : ℕ) (db : Database) → (Codes.select_exchange_code id db).1 ≡ db
unfolding Codes.select_exchange_code
db-select_exchange_code id db = ground arith

-- Two invariants that are kept are kept together.
pub Kept-both :
    {c : Bool} {I J : Database → Type 0} → Kept c I → Kept c J → Kept c (λ db. I db × J db)
Kept-both p q = record {
  insert_appliance = λ name label g now db (x0, y0).
      (p.insert_appliance name label g now db x0, q.insert_appliance name label g now db y0);
  update_status = λ i db (x0, y0). (p.update_status i db x0, q.update_status i db y0);
  update_claimed =
      λ e i now db (x0, y0). (p.update_claimed e i now db x0, q.update_claimed e i now db y0);
  update_secret_hash =
      λ i h db (x0, y0). (p.update_secret_hash i h db x0, q.update_secret_hash i h db y0);
  upsert_claim_token =
      λ t db (x0, y0). (p.upsert_claim_token t db x0, q.upsert_claim_token t db y0);
  delete_claim_token =
      λ i db (x0, y0). (p.delete_claim_token i db x0, q.delete_claim_token i db y0);
  upsert_exchange_code =
      λ x db (x0, y0). (p.upsert_exchange_code x db x0, q.upsert_exchange_code x db y0);
  delete_exchange_code =
      λ i db (x0, y0). (p.delete_exchange_code i db x0, q.delete_exchange_code i db y0);
  prune_login_codes =
      λ now db (x0, y0). (p.prune_login_codes now db x0, q.prune_login_codes now db y0);
  insert_login_code = λ x db (x0, y0). (p.insert_login_code x db x0, q.insert_login_code x db y0);
  take_login_code = λ h i db (x0, y0). (p.take_login_code h i db x0, q.take_login_code h i db y0);
}
