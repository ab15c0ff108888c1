-- ===== src/World/References.antt =====
-- The tables of claim tokens, exchange codes and login codes: their primary keys and their foreign keys,
-- along the statements.
use appliance_registry.Prelude.{ℕ, refl, true, Text, arith, find, ltb, Option-cases, inl, inr, not}
use appliance_registry.Persistence.{ClaimToken, EnrollExchangeCode, LoginCode}
use appliance_registry.World.{Database}
use appliance_registry.World.Statements
use appliance_registry.World.Statements.{row_of}
use appliance_registry.World.Codes
use appliance_registry.World.Codes.{token_of, code_of, has_hash, has_hash_of}
use appliance_registry.World.Invariants.{Kept}
use appliance_registry.World.Lifecycle.{Kept-AtLeast, stage-same}
use appliance_registry.World.Owners.{
  IsPresent, row_is_present, HasOwners, HasOwners-carry, HasOwners-shrink, HasOwners-put,
  HasOwners-add,
}

abbrev present : (id : ℕ) → Kept true (IsPresent id)
present id = Kept-AtLeast 1 id true (λ _. omega arith)

abbrev pub HasTokens : Database → Type 0
HasTokens =
    HasOwners (λ db. db.claim_tokens) (λ t. t.appliance_id) (λ t u. token_of t.appliance_id u)

HasTokens-upsert :
    (t : ClaimToken) (db : Database) → HasTokens db → HasTokens (Codes.upsert_claim_token t db).1
unfolding Codes.upsert_claim_token
HasTokens-upsert t db h = elim (Option-cases (row_of t.appliance_id db)) [
  | inl e ↦ rw (Codes.upsert_claim_token, e) h
  | inr (r, e) ↦
      rw (Codes.upsert_claim_token, e)
        (HasOwners-put _ _ _ t db _ refl (λ id. stage-same 1 id db _ refl)
          (row_is_present t.appliance_id db e) h)
]

abbrev pub HasCodes : Database → Type 0
HasCodes =
    HasOwners (λ db. db.exchange_codes) (λ c. c.appliance_id) (λ c d. code_of c.appliance_id d)

HasCodes-upsert :
    (c : EnrollExchangeCode) (db : Database)
    → HasCodes db
    → HasCodes (Codes.upsert_exchange_code c db).1
unfolding Codes.upsert_exchange_code
HasCodes-upsert c db h = elim (Option-cases (row_of c.appliance_id db)) [
  | inl e ↦ rw (Codes.upsert_exchange_code, e) h
  | inr (r, e) ↦
      rw (Codes.upsert_exchange_code, e)
        (HasOwners-put _ _ _ c db _ refl (λ id. stage-same 1 id db _ refl)
          (row_is_present c.appliance_id db e) h)
]

abbrev pub HasLogins : Database → Type 0
HasLogins = HasOwners (λ db. db.login_codes) (λ c. c.appliance_id) (λ c d. has_hash c.code_hash d)

HasLogins-insert :
    (c : LoginCode) (db : Database) → HasLogins db → HasLogins (Codes.insert_login_code c db).1
unfolding Codes.insert_login_code
HasLogins-insert c db h = elim (Option-cases (row_of c.appliance_id db)) [
  | inl e ↦ rw (Codes.insert_login_code, e) h
  | inr (r, e) ↦ elim (Option-cases (find (has_hash c.code_hash) db.login_codes)) [
    | inr (d, taken) ↦ rw (Codes.insert_login_code, e, taken) h
    | inl free ↦
        rw (Codes.insert_login_code, e, free)
          (HasOwners-add _ _ _ c db _ refl free (λ id. stage-same 1 id db _ refl)
            (row_is_present c.appliance_id db e) h)
  ]
]

HasLogins-take :
    (hash : Text) (id : ℕ) (db : Database)
    → HasLogins db
    → HasLogins (Codes.take_login_code hash id db).1
unfolding Codes.take_login_code
HasLogins-take hash id db h = elim (Option-cases (find (has_hash_of hash id) db.login_codes)) [
  | inl e ↦ rw (Codes.take_login_code, e) h
  | inr (c, e) ↦
      rw (Codes.take_login_code, e)
        (HasOwners-shrink _ _ _ (λ u. not (has_hash hash u)) db _ refl
          (λ i. stage-same 1 i db _ refl) h)
]

pub Kept-HasTokens : Kept true HasTokens
unfolding Statements.insert_appliance Statements.update_status Statements.update_claimed
    Statements.update_secret_hash Codes.upsert_claim_token Codes.delete_claim_token
    Codes.upsert_exchange_code Codes.delete_exchange_code Codes.prune_login_codes
    Codes.insert_login_code Codes.take_login_code
Kept-HasTokens = record {
  insert_appliance = λ name label g now db h.
      HasOwners-carry _ _ _ db _ (ground arith)
        (λ id. (present id).insert_appliance name label g now db) h;
  update_status =
      λ j db h. HasOwners-carry _ _ _ db _ (ground arith) (λ id. (present id).update_status j db) h;
  update_claimed = λ _ j now db h.
      HasOwners-carry _ _ _ db _ (ground arith) (λ id. (present id).update_claimed refl j now db) h;
  update_secret_hash = λ j x db h.
      HasOwners-carry _ _ _ db _ (ground arith) (λ id. (present id).update_secret_hash j x db) h;
  upsert_claim_token = HasTokens-upsert;
  delete_claim_token = λ j db h.
      HasOwners-shrink _ _ _ (λ u. not (token_of j u)) db _ refl
        (λ id. (present id).delete_claim_token j db) h;
  upsert_exchange_code = λ c db h.
      HasOwners-carry _ _ _ db _ (ground arith) (λ id. (present id).upsert_exchange_code c db) h;
  delete_exchange_code = λ j db h.
      HasOwners-carry _ _ _ db _ (ground arith) (λ id. (present id).delete_exchange_code j db) h;
  prune_login_codes = λ now db h.
      HasOwners-carry _ _ _ db _ (ground arith) (λ id. (present id).prune_login_codes now db) h;
  insert_login_code = λ c db h.
      HasOwners-carry _ _ _ db _ (ground arith) (λ id. (present id).insert_login_code c db) h;
  take_login_code = λ x j db h.
      HasOwners-carry _ _ _ db _ (ground arith) (λ id. (present id).take_login_code x j db) h;
}

pub Kept-HasCodes : Kept true HasCodes
unfolding Statements.insert_appliance Statements.update_status Statements.update_claimed
    Statements.update_secret_hash Codes.upsert_claim_token Codes.delete_claim_token
    Codes.upsert_exchange_code Codes.delete_exchange_code Codes.prune_login_codes
    Codes.insert_login_code Codes.take_login_code
Kept-HasCodes = record {
  insert_appliance = λ name label g now db h.
      HasOwners-carry _ _ _ db _ (ground arith)
        (λ id. (present id).insert_appliance name label g now db) h;
  update_status =
      λ j db h. HasOwners-carry _ _ _ db _ (ground arith) (λ id. (present id).update_status j db) h;
  update_claimed = λ _ j now db h.
      HasOwners-carry _ _ _ db _ (ground arith) (λ id. (present id).update_claimed refl j now db) h;
  update_secret_hash = λ j x db h.
      HasOwners-carry _ _ _ db _ (ground arith) (λ id. (present id).update_secret_hash j x db) h;
  upsert_claim_token = λ t db h.
      HasOwners-carry _ _ _ db _ (ground arith) (λ id. (present id).upsert_claim_token t db) h;
  delete_claim_token = λ j db h.
      HasOwners-carry _ _ _ db _ (ground arith) (λ id. (present id).delete_claim_token j db) h;
  upsert_exchange_code = HasCodes-upsert;
  delete_exchange_code = λ j db h.
      HasOwners-shrink _ _ _ (λ u. not (code_of j u)) db _ refl
        (λ id. (present id).delete_exchange_code j db) h;
  prune_login_codes = λ now db h.
      HasOwners-carry _ _ _ db _ (ground arith) (λ id. (present id).prune_login_codes now db) h;
  insert_login_code = λ c db h.
      HasOwners-carry _ _ _ db _ (ground arith) (λ id. (present id).insert_login_code c db) h;
  take_login_code = λ x j db h.
      HasOwners-carry _ _ _ db _ (ground arith) (λ id. (present id).take_login_code x j db) h;
}

pub Kept-HasLogins : Kept true HasLogins
unfolding Statements.insert_appliance Statements.update_status Statements.update_claimed
    Statements.update_secret_hash Codes.upsert_claim_token Codes.delete_claim_token
    Codes.upsert_exchange_code Codes.delete_exchange_code Codes.prune_login_codes
    Codes.insert_login_code Codes.take_login_code
Kept-HasLogins = record {
  insert_appliance = λ name label g now db h.
      HasOwners-carry _ _ _ db _ (ground arith)
        (λ id. (present id).insert_appliance name label g now db) h;
  update_status =
      λ j db h. HasOwners-carry _ _ _ db _ (ground arith) (λ id. (present id).update_status j db) h;
  update_claimed = λ _ j now db h.
      HasOwners-carry _ _ _ db _ (ground arith) (λ id. (present id).update_claimed refl j now db) h;
  update_secret_hash = λ j x db h.
      HasOwners-carry _ _ _ db _ (ground arith) (λ id. (present id).update_secret_hash j x db) h;
  upsert_claim_token = λ t db h.
      HasOwners-carry _ _ _ db _ (ground arith) (λ id. (present id).upsert_claim_token t db) h;
  delete_claim_token = λ j db h.
      HasOwners-carry _ _ _ db _ (ground arith) (λ id. (present id).delete_claim_token j db) h;
  upsert_exchange_code = λ c db h.
      HasOwners-carry _ _ _ db _ (ground arith) (λ id. (present id).upsert_exchange_code c db) h;
  delete_exchange_code = λ j db h.
      HasOwners-carry _ _ _ db _ (ground arith) (λ id. (present id).delete_exchange_code j db) h;
  prune_login_codes = λ now db h.
      HasOwners-shrink _ _ _ (λ c. not (ltb c.expires_at now)) db _ refl
        (λ id. (present id).prune_login_codes now db) h;
  insert_login_code = HasLogins-insert;
  take_login_code = HasLogins-take;
}
