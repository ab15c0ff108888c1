-- ===== src/Mariadb/Results.antt =====
-- What it takes for a method of internal/persistence/mariadb/mariadb.go to return a result, and what
-- it has then done.
use appliance_registry.Prelude.{
  ℕ, ◌≡◌, Option, some, Result, false, ok, arith, find, Text, amend, keep, not,
}
use appliance_registry.External.{Backend}
use appliance_registry.Persistence.{
  ApplianceStatus, Appliance, ClaimToken, EnrollExchangeCode, LoginCode, DbError,
}
use appliance_registry.World.{Database, World}
use appliance_registry.World.Statements
use appliance_registry.World.Statements.{
  row_of, has_id, set_status, set_claimed, set_hash, status_eq,
}
use appliance_registry.World.Codes
use appliance_registry.World.Codes.{token_of, code_of, has_hash, has_hash_of}
use appliance_registry.World.Rows.{appliance_of, hash_of}
use appliance_registry.Program.{◌>>=◌}
use appliance_registry.Program.Run.{run, perform}
use appliance_registry.Mariadb

module _ {b : Backend} where
  -- The same tables, Secrets and time, and the same answers to come from the clock.
  pub record SameStores (w w' : World b) : Type 0 where
    pub same_db : w'.db ≡ w.db
    pub same_cluster : w'.cluster ≡ w.cluster
    pub same_clock : w'.clock ≡ w.clock
    pub same_ticks : w'.ticks ≡ w.ticks
    pub same_replies : w'.replies ≡ w.replies

  -- A write to the tables alone.
  pub record Wrote (w : World b) (db : Database) (w' : World b) : Type 0 where
    pub new_db : w'.db ≡ db
    pub same_cluster : w'.cluster ≡ w.cluster
    pub same_clock : w'.clock ≡ w.clock
    pub same_ticks : w'.ticks ≡ w.ticks
    pub same_replies : w'.replies ≡ w.replies

  module _ (id : ℕ) (w : World b) {w' : World b} where
    pub get_appliance-eq-ok :
        {a : Appliance}
        → run (Mariadb.get_appliance id) w ≡ (ok a, w')
        → (appliance_of id w.db ≡ some a) × SameStores w w'
    unfolding run perform Mariadb.get_appliance Statements.select_appliance
    get_appliance-eq-ok h = ground arith

    pub get_claim_token-eq-ok :
        {t : ClaimToken}
        → run (Mariadb.get_claim_token id) w ≡ (ok t, w')
        → (find (token_of id) w.claim_tokens ≡ some t) × SameStores w w'
    unfolding run perform Mariadb.get_claim_token Codes.select_claim_token
    get_claim_token-eq-ok h = ground arith

    pub get_enroll_exchange_code-eq-ok :
        {c : EnrollExchangeCode}
        → run (Mariadb.get_enroll_exchange_code id) w ≡ (ok c, w')
        → (find (code_of id) w.exchange_codes ≡ some c) × SameStores w w'
    unfolding run perform Mariadb.get_enroll_exchange_code Codes.select_exchange_code
    get_enroll_exchange_code-eq-ok h = ground arith

    pub get_appliance_secret_hash-eq-ok :
        {s : Text}
        → run (Mariadb.get_appliance_secret_hash id) w ≡ (ok s, w')
        → (hash_of id w.db ≡ some s) × SameStores w w'
    unfolding run perform Mariadb.get_appliance_secret_hash Statements.select_secret_hash ◌>>=◌
    get_appliance_secret_hash-eq-ok h = ground arith

    pub set_appliance_status-eq-ok :
        (s : ApplianceStatus)
        → run (Mariadb.set_appliance_status id s) w ≡ (ok tt, w')
        → Wrote w (record w.db { appliances = amend (has_id id) (set_status s) w.db.appliances }) w'
    unfolding run perform Mariadb.set_appliance_status Statements.update_status ◌>>=◌
    set_appliance_status-eq-ok s h = ground arith

    pub mark_appliance_claimed-eq-ok :
        run (Mariadb.mark_appliance_claimed id) w ≡ (ok tt, w')
        → Wrote w
            (record w.db {
              appliances = amend (has_id id) (set_claimed (b.column_time w.clock)) w.db.appliances;
            })
            w'
    unfolding run perform Mariadb.mark_appliance_claimed Statements.update_claimed ◌>>=◌
    mark_appliance_claimed-eq-ok h = ground arith

    pub set_appliance_secret_hash-eq-ok :
        (hash : Option Text)
        → run (Mariadb.set_appliance_secret_hash id hash) w ≡ (ok tt, w')
        → Wrote w
            (record w.db { appliances = amend (has_id id) (set_hash hash) w.db.appliances })
            w'
    unfolding run perform Mariadb.set_appliance_secret_hash Statements.update_secret_hash
        Statements.select_one ◌>>=◌
    set_appliance_secret_hash-eq-ok hash h = ground arith

    pub consume_login_code-eq-ok :
        (hash : Text) {c : LoginCode}
        → run (Mariadb.consume_login_code hash id) w ≡ (ok c, w')
        → (find (has_hash_of hash id) w.login_codes ≡ some c)
          × Wrote w
              (record w.db { login_codes = keep (λ u. not (has_hash hash u)) w.db.login_codes })
              w'
    unfolding run perform Mariadb.consume_login_code Codes.take_login_code
    consume_login_code-eq-ok hash h = ground arith

    -- The update of a row that has that status already changes nothing, so it is reported as a missing
    -- row; and no update of a status touches the cluster.
    pub set_appliance_status-changes :
        (s : ApplianceStatus) {a : Appliance}
        → run (Mariadb.set_appliance_status id s) w ≡ (ok tt, w')
        → appliance_of id w.db ≡ some a
        → status_eq a.status s ≡ false
    unfolding run perform Mariadb.set_appliance_status Statements.update_status ◌>>=◌
    set_appliance_status-changes s h e = ground arith

    pub set_appliance_status-cluster :
        (s : ApplianceStatus) {r : Result DbError (Unit {0})}
        → run (Mariadb.set_appliance_status id s) w ≡ (r, w')
        → w'.cluster ≡ w.cluster
    unfolding run perform Mariadb.set_appliance_status Statements.update_status ◌>>=◌
    set_appliance_status-cluster s h = ground arith
