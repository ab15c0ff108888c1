-- ===== src/Mariadb/Store.antt =====
-- internal/persistence/persistence.go: what the methods of ApplianceRegistryDB promise, on maps in place
-- of tables, after the comments of the interface. The two methods that list appliances are left out: a map has no order.
pub mod Lookups
pub mod Reads
pub mod Tokens
pub mod Rows
pub mod Logins
pub mod Refinement
use appliance_registry.Prelude.{
  ℕ, ◌+◌, Bool, true, false, not, ◌&&◌, Option, none, some, [], Text, text_eq, ◌==◌, ltb,
  if◌then◌else◌, find, Result, ok, err,
}
use appliance_registry.Persistence.{
  ApplianceStatus, pending, active, Appliance, ClaimToken, EnrollExchangeCode, LoginCode, DbError,
  no_rows, duplicate, unavailable,
}
use appliance_registry.World.{Row, Database}
use appliance_registry.World.Statements.{
  row_of, has_label, new_row, one_row, status_eq, option_eq, set_status, set_claimed, set_hash,
}
use appliance_registry.World.Codes.{token_of, code_of, has_hash}
use appliance_registry.World.Rows.{null_string, update_option}
use appliance_registry.Mariadb
use appliance_registry.Mariadb.{Query}

-- A row under its id, the labels that are taken, a claim token and an exchange code under the appliance's
-- id, a login code under its hash.
pub record Store : Type 0 where
  pub rows : ℕ → Option Row
  pub labels : Text → Bool
  pub next_id : ℕ
  pub tokens : ℕ → Option ClaimToken
  pub codes : ℕ → Option EnrollExchangeCode
  pub logins : Text → Option LoginCode

abbrev pub is_some {ℓ} : {A : Type ℓ} → Option A → Bool
is_some none = false
is_some (some a) = true

abbrev pub view : Database → Store
view db = record {
  rows = λ id. row_of id db;
  labels = λ label. is_some (find (has_label label) db.appliances);
  next_id = db.next_id;
  tokens = λ id. find (token_of id) db.claim_tokens;
  codes = λ id. find (code_of id) db.exchange_codes;
  logins = λ hash. find (has_hash hash) db.login_codes;
}

abbrev pub put {ℓ} : {A : Type ℓ} → ℕ → Option A → (ℕ → Option A) → ℕ → Option A
put id a f j = if id == j then a else f j

abbrev pub put_text {ℓ} : {A : Type ℓ} → Text → Option A → (Text → Option A) → Text → Option A
put_text key a f k = if text_eq key k then a else f k

abbrev pub only_if {ℓ} : {A : Type ℓ} → (A → Bool) → Option A → Option A
only_if p none = none
only_if p (some a) = if p a then some a else none

pub data Method : Type 0 where
  create_appliance : (name label : Text) (group_id : ℕ) → Method
  get_appliance : (id : ℕ) → Method
  set_appliance_status : (id : ℕ) → ApplianceStatus → Method
  mark_appliance_claimed : (id : ℕ) → Method
  save_claim_token : (id : ℕ) (hash : Text) (expires_at : ℕ) → Method
  get_claim_token delete_claim_token : (id : ℕ) → Method
  save_enroll_exchange_code : (id : ℕ) (hash claim_token_hash : Text) (expires_at : ℕ) → Method
  get_enroll_exchange_code delete_enroll_exchange_code : (id : ℕ) → Method
  set_appliance_secret_hash : (id : ℕ) → Option Text → Method
  get_appliance_secret_hash : (id : ℕ) → Method
  save_login_code : (hash : Text) (id user_id expires_at : ℕ) → Method
  consume_login_code : (hash : Text) (id : ℕ) → Method

abbrev pub Returned : Method → Type 0
Returned (create_appliance _ _ _) = Appliance
Returned (get_appliance _) = Appliance
Returned (get_claim_token _) = ClaimToken
Returned (get_enroll_exchange_code _) = EnrollExchangeCode
Returned (get_appliance_secret_hash _) = Text
Returned (consume_login_code _ _) = LoginCode
Returned _ = Unit

abbrev pub exec : (m : Method) → Query (Returned m)
exec (create_appliance name label g) = Mariadb.create_appliance name label g
exec (get_appliance id) = Mariadb.get_appliance id
exec (set_appliance_status id s) = Mariadb.set_appliance_status id s
exec (mark_appliance_claimed id) = Mariadb.mark_appliance_claimed id
exec (save_claim_token id hash t) = Mariadb.save_claim_token id hash t
exec (get_claim_token id) = Mariadb.get_claim_token id
exec (delete_claim_token id) = Mariadb.delete_claim_token_of id
exec (save_enroll_exchange_code id hash token t) = Mariadb.save_enroll_exchange_code id hash token t
exec (get_enroll_exchange_code id) = Mariadb.get_enroll_exchange_code id
exec (delete_enroll_exchange_code id) = Mariadb.delete_enroll_exchange_code id
exec (set_appliance_secret_hash id hash) = Mariadb.set_appliance_secret_hash id hash
exec (get_appliance_secret_hash id) = Mariadb.get_appliance_secret_hash id
exec (save_login_code hash id user t) = Mariadb.save_login_code hash id user t
exec (consume_login_code hash id) = Mariadb.consume_login_code hash id

-- A change of the row of an appliance, if there is one.
abbrev pub updated : ℕ → (Row → Row) → Option Row → Store → Result DbError (Unit {0}) × Store
updated id f none s = (err no_rows, s)
updated id f (some r) s = (ok tt, record s { rows = put id (some (f r)) s.rows })

abbrev pub is_pending : Row → Bool
is_pending r = status_eq r.status pending

-- What belongs to an appliance is stored if the appliance exists.
abbrev owned : Option Row → Store → Store → Result DbError (Unit {0}) × Store
owned none s s' = (err unavailable, s)
owned (some r) s s' = (ok tt, s')

abbrev added : Option LoginCode → LoginCode → Store → Result DbError (Unit {0}) × Store
added (some c) new s = (err duplicate, s)
added none new s = (ok tt, record s { logins = put_text new.code_hash (some new) s.logins })

abbrev logged : Option Row → LoginCode → Store → Result DbError (Unit {0}) × Store
logged none new s = (err unavailable, s)
logged (some r) new s = added (s.logins new.code_hash) new s

abbrev taken : Text → Option LoginCode → Store → Result DbError LoginCode × Store
taken hash none s = (err no_rows, s)
taken hash (some c) s = (ok c, record s { logins = put_text hash none s.logins })

-- `column` is what a TIMESTAMP column makes of a time, `clock` the database's time, `now` the caller's.
module _ (column : ℕ → ℕ) (clock now : ℕ) where
  abbrev pub spec : (m : Method) → Store → Result DbError (Returned m) × Store
  spec (create_appliance name label g) s =
      let new : Row = record {
        appliance = record {
          id = s.next_id;
          name = name;
          hostname_label = label;
          group_id = g;
          status = pending;
          created_at = column clock;
          claimed_at = none;
          last_seen_at = none;
        };
        secret_hash = none;
      } in
      if s.labels label then (err duplicate, s) else (
        ok new.appliance,
        record s {
          rows = put s.next_id (some new) s.rows;
          labels = λ l. if text_eq label l then true else s.labels l;
          next_id = s.next_id + 1;
        },
      )
  spec (get_appliance id) s = (elim (s.rows id) [ none ↦ err no_rows | some r ↦ ok r.appliance ], s)
  spec (set_appliance_status id status) s =
      updated id (λ r. record r { appliance = record r.appliance { status = status } }) (s.rows id)
        s
  -- From pending to active: an appliance that is not pending is not there to be claimed.
  spec (mark_appliance_claimed id) s =
      updated id
        (λ r. record r {
          appliance = record r.appliance { status = active; claimed_at = some (column clock) };
        })
        (only_if is_pending (s.rows id)) s
  spec (save_claim_token id hash t) s = owned (s.rows id) s (record s {
    tokens =
        put id (some (record { appliance_id = id; token_hash = hash; expires_at = column t }))
          s.tokens;
  })
  spec (get_claim_token id) s = (elim (s.tokens id) [ none ↦ err no_rows | some t ↦ ok t ], s)
  spec (delete_claim_token id) s = (ok tt, record s { tokens = put id none s.tokens })
  spec (save_enroll_exchange_code id hash token t) s = owned (s.rows id) s (record s {
    codes =
        put id
          (some (record {
            appliance_id = id;
            code_hash = hash;
            claim_token_hash = token;
            expires_at = column t;
          }))
          s.codes;
  })
  spec (get_enroll_exchange_code id) s =
      (elim (s.codes id) [ none ↦ err no_rows | some c ↦ ok c ], s)
  spec (delete_enroll_exchange_code id) s = (ok tt, record s { codes = put id none s.codes })
  spec (set_appliance_secret_hash id hash) s =
      updated id (λ r. record r { secret_hash = hash }) (s.rows id) s
  spec (get_appliance_secret_hash id) s = (
    elim (s.rows id) [
      | none ↦ err no_rows
      | some r ↦ elim r.secret_hash [ none ↦ ok [] | some hash ↦ ok hash ]
    ],
    s,
  )
  spec (save_login_code hash id user t) s =
      logged (s.rows id)
        (record { code_hash = hash; appliance_id = id; user_id = user; expires_at = column t })
        (record s { logins = λ h. only_if (λ c. not (ltb c.expires_at now)) (s.logins h) })
  spec (consume_login_code hash id) s =
      taken hash (only_if (λ c. c.appliance_id == id) (s.logins hash)) s

abbrev pub holds_of : (Row → Bool) → Option Row → Bool
holds_of p none = true
holds_of p (some r) = p r

-- Where the promises hold. MarkApplianceClaimed has no condition on the status, so it keeps its promise
-- for pending appliances only; SetApplianceStatus takes a status that is set already for a missing row.
abbrev pub is_kept : Method → Store → Bool
is_kept (set_appliance_status id status) s =
    holds_of (λ r. not (status_eq r.status status)) (s.rows id)
is_kept (mark_appliance_claimed id) s = holds_of is_pending (s.rows id)
is_kept _ s = true
