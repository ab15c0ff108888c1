-- ===== src/Program/Invariants.antt =====
-- Invariants of the tables along the calls of a program.
use appliance_registry.Prelude.{Bool, ◌≡◌, refl, subst, sym, Result, arith}
use appliance_registry.External.{Backend, Secret, SecretKey}
use appliance_registry.Persistence.{unavailable}
use appliance_registry.World.{World, Database, Fault, passes, refused, unacknowledged}
use appliance_registry.World.Statements
use appliance_registry.World.Statements.{Reply}
use appliance_registry.World.Codes
use appliance_registry.World.Invariants.{
  Kept, db-select_appliance, db-select_one, db-select_secret_hash, db-select_claim_token,
  db-select_exchange_code,
}
use appliance_registry.Program.{
  Op, Prog, insert_appliance, select_appliance, select_one, select_secret_hash, select_group,
  select_status, update_status, update_claimed, update_secret_hash, upsert_claim_token,
  select_claim_token, delete_claim_token, upsert_exchange_code, select_exchange_code,
  delete_exchange_code, prune_login_codes, insert_login_code, take_login_code, create_secret,
  update_secret, get_secret, delete_secret, read_random, time_now, limiter_allow, http_get,
}
use appliance_registry.Program.Run.{perform, run, settle, on_db, next_fault, later}
use appliance_registry.Program.Footprint.{Uses, run-Uses}
use appliance_registry.Mariadb.Footprint.{Emitted}

settle-keeps :
    {b : Backend} {E A : Type 0} (P : World b → Type 0) (t : Fault) (e : E)
    (done : Result E A × World b) (before : World b)
    → P done.1
    → P before
    → P (settle t e done before).1
settle-keeps P passes e done before k h = k
settle-keeps P refused e done before k h = h
settle-keeps P unacknowledged e done before k h = k

-- The calls to the API server leave the tables.
module _ {b : Backend} where
  pub db-create_secret :
      (key : SecretKey) (s : Secret) (w : World b) → (perform (create_secret key s) w).1.db ≡ w.db
  unfolding perform
  db-create_secret key s w = ground arith

  pub db-update_secret :
      (key : SecretKey) (s : Secret) (w : World b) → (perform (update_secret key s) w).1.db ≡ w.db
  unfolding perform
  db-update_secret key s w = ground arith

  pub db-get_secret : (key : SecretKey) (w : World b) → (perform (get_secret key) w).1.db ≡ w.db
  unfolding perform
  db-get_secret key w = ground arith

  pub db-delete_secret :
      (key : SecretKey) (w : World b) → (perform (delete_secret key) w).1.db ≡ w.db
  unfolding perform
  db-delete_secret key w = ground arith

module _ {b : Backend} (I : Database → Type 0) where
  pub on_db-keeps :
      {A : Type 0} (f : Database → Reply A) (w : World b)
      → I (f w.db).1
      → I w.db
      → I (on_db f w).1.db
  on_db-keeps f w k h =
      let w' : World b = record w { faults = later w.faults } in
      settle-keeps (λ v. I v.db) (next_fault w.faults) unavailable
        ((f w.db).0, record w' { db = (f w.db).1 }) w' k h

  on_db-reads :
      {A : Type 0} (f : Database → Reply A) (w : World b)
      → (f w.db).1 ≡ w.db
      → I w.db
      → I (on_db f w).1.db
  on_db-reads f w e h = on_db-keeps f w (subst I (sym e) h) h

  pub perform-keeps :
      {c : Bool} → Kept c I → (o : Op) (w : World b) → Emitted c o → I w.db → I (perform o w).1.db
  unfolding perform Statements.select_group Statements.select_status
  perform-keeps k (insert_appliance name label g) w e h =
      on_db-keeps (Statements.insert_appliance name label g (b.column_time w.clock)) w
        (k.insert_appliance name label g (b.column_time w.clock) w.db h) h
  perform-keeps k (select_appliance id) w e h =
      on_db-reads (Statements.select_appliance id) w (db-select_appliance id w.db) h
  perform-keeps k (select_one id) w e h =
      on_db-reads (Statements.select_one id) w (db-select_one id w.db) h
  perform-keeps k (select_secret_hash id) w e h =
      on_db-reads (Statements.select_secret_hash id) w (db-select_secret_hash id w.db) h
  perform-keeps k (select_group g f) w e h =
      on_db-reads (Statements.select_group b.collate g f) w refl h
  perform-keeps k (select_status s) w e h = on_db-reads (Statements.select_status s) w refl h
  perform-keeps k (update_status id s) w e h =
      on_db-keeps (Statements.update_status id s) w
        (subst (λ t. I (Statements.update_status id t w.db).1) (sym e) (k.update_status id w.db h))
        h
  perform-keeps k (update_claimed id) w e h =
      on_db-keeps (Statements.update_claimed id (b.column_time w.clock)) w
        (k.update_claimed e id (b.column_time w.clock) w.db h) h
  perform-keeps k (update_secret_hash id x) w e h =
      on_db-keeps (Statements.update_secret_hash id x) w (k.update_secret_hash id x w.db h) h
  perform-keeps k (upsert_claim_token t) w e h =
      on_db-keeps (Codes.upsert_claim_token (record t { expires_at = b.column_time t.expires_at }))
        w (k.upsert_claim_token (record t { expires_at = b.column_time t.expires_at }) w.db h) h
  perform-keeps k (select_claim_token id) w e h =
      on_db-reads (Codes.select_claim_token id) w (db-select_claim_token id w.db) h
  perform-keeps k (delete_claim_token id) w e h =
      on_db-keeps (Codes.delete_claim_token id) w (k.delete_claim_token id w.db h) h
  perform-keeps k (upsert_exchange_code c) w e h =
      on_db-keeps
        (Codes.upsert_exchange_code (record c { expires_at = b.column_time c.expires_at })) w
        (k.upsert_exchange_code (record c { expires_at = b.column_time c.expires_at }) w.db h) h
  perform-keeps k (select_exchange_code id) w e h =
      on_db-reads (Codes.select_exchange_code id) w (db-select_exchange_code id w.db) h
  perform-keeps k (delete_exchange_code id) w e h =
      on_db-keeps (Codes.delete_exchange_code id) w (k.delete_exchange_code id w.db h) h
  perform-keeps k (prune_login_codes now) w e h =
      on_db-keeps (Codes.prune_login_codes now) w (k.prune_login_codes now w.db h) h
  perform-keeps k (insert_login_code c) w e h =
      on_db-keeps (Codes.insert_login_code (record c { expires_at = b.column_time c.expires_at })) w
        (k.insert_login_code (record c { expires_at = b.column_time c.expires_at }) w.db h) h
  perform-keeps k (take_login_code x id) w e h =
      on_db-keeps (Codes.take_login_code x id) w (k.take_login_code x id w.db h) h
  perform-keeps k (create_secret key s) w e h = subst I (sym (db-create_secret key s w)) h
  perform-keeps k (update_secret key s) w e h = subst I (sym (db-update_secret key s w)) h
  perform-keeps k (get_secret key) w e h = subst I (sym (db-get_secret key w)) h
  perform-keeps k (delete_secret key) w e h = subst I (sym (db-delete_secret key w)) h
  perform-keeps k (read_random n) w e h = h
  perform-keeps k time_now w e h = h
  perform-keeps k limiter_allow w e h = h
  perform-keeps k (http_get url t) w e h = h

  -- A program that makes only such calls keeps what every statement keeps.
  pub run-keeps :
      {c : Bool}
      → Kept c I
      → {E A : Type 0} {m : Prog E A} → Uses (Emitted c) m
      → (w : World b) → I w.db
      → I (run m w).1.db
  run-keeps {c} k u w h = run-Uses (Emitted c) (λ v. I v.db) (perform-keeps k) u w h
