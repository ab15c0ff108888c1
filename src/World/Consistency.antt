-- ===== src/World/Consistency.antt =====
-- The keys and the foreign keys of migrations/V001.sql, V002.sql and V003.sql, along the statements.
use appliance_registry.Prelude.{
  ℕ, ◌<◌, ◌≡◌, refl, sym, subst, true, false, Text, text_eq, text_eq_iff, arith, find, amend, All,
  Option-cases, inl, inr,
}
use appliance_registry.Persistence.{revoked}
use appliance_registry.World.{Row, Database}
use appliance_registry.World.Statements
use appliance_registry.World.Statements.{
  has_id, has_label, row_of, set_status, set_claimed, set_hash, new_row,
}
use appliance_registry.World.Codes
use appliance_registry.World.Codes.{token_of, code_of, has_hash}
use appliance_registry.World.Invariants.{Kept}
use appliance_registry.World.Keys.{
  IsDistinct, IsDistinct-amend, IsDistinct-snoc, All-weaken, All-snoc, All-amend, All-find,
}

-- The rows: `id` is a key and below the next one, and so is `hostnameLabel` a key.
pub record HasKeys (db : Database) : Type 0 where
  pub ids : IsDistinct (λ r s. has_id r.id s) db.appliances
  pub below : All (λ (r : Row). r.id < db.next_id) db.appliances
  pub labels : IsDistinct (λ r s. has_label r.hostname_label s) db.appliances

text_eq_comm : (s t : Text) → text_eq s t ≡ false → text_eq t s ≡ false
text_eq_comm s t h = ground (arith, text_eq_iff s t, text_eq_iff t s)

HasKeys-insert :
    (name label : Text) (g now : ℕ) (db : Database)
    → HasKeys db
    → HasKeys (Statements.insert_appliance name label g now db).1
unfolding Statements.insert_appliance
HasKeys-insert name label g now db h = elim (Option-cases (find (has_label label) db.appliances)) [
  | inr (r, taken) ↦ rw (Statements.insert_appliance, taken) h
  | inl free ↦
      rw (Statements.insert_appliance, free)
        (record {
          ids =
              IsDistinct-snoc _ db.appliances _
                (All-weaken _ _ db.appliances (λ r low. ground arith) h.below) h.ids;
          below =
              All-snoc _ db.appliances _
                (All-weaken _ _ db.appliances (λ r low. omega (arith, low)) h.below) (omega arith);
          labels =
              IsDistinct-snoc _ db.appliances _
                (All-find _ (has_label label) db.appliances
                  (λ r e. text_eq_comm r.hostname_label label e) free)
                h.labels;
        })
]

HasKeys-amend :
    (f : Row → Row) (j : ℕ) (db : Database)
    → ((r : Row) → (f r).id ≡ r.id)
    → ((r : Row) → (f r).hostname_label ≡ r.hostname_label)
    → HasKeys db
    → HasKeys (record db { appliances = amend (has_id j) f db.appliances })
HasKeys-amend f j db e l h = record {
  ids =
      IsDistinct-amend _ (has_id j) f db.appliances (λ r s. ground (arith, e r))
        (λ r s. ground (arith, e s)) h.ids;
  below = All-amend _ (has_id j) f db.appliances (λ r p. ground (arith, e r, p)) h.below;
  labels =
      IsDistinct-amend _ (has_id j) f db.appliances (λ r s. ground (arith, l r))
        (λ r s. ground (arith, l s)) h.labels;
}

HasKeys-same :
    (db db' : Database)
    → db'.appliances ≡ db.appliances
    → db'.next_id ≡ db.next_id
    → HasKeys db
    → HasKeys db'
HasKeys-same db db' e n h = record {
  ids = subst (IsDistinct (λ r s. has_id r.id s)) (sym e) h.ids;
  below =
      subst (λ rows. All (λ (r : Row). r.id < db'.next_id) rows) (sym e)
        (subst (λ m. All (λ (r : Row). r.id < m) db.appliances) (sym n) h.below);
  labels = subst (IsDistinct (λ r s. has_label r.hostname_label s)) (sym e) h.labels;
}

pub Kept-HasKeys : Kept true HasKeys
unfolding Statements.update_status Statements.update_claimed Statements.update_secret_hash
    Codes.upsert_claim_token Codes.delete_claim_token Codes.upsert_exchange_code
    Codes.delete_exchange_code Codes.prune_login_codes Codes.insert_login_code Codes.take_login_code
Kept-HasKeys = record {
  insert_appliance = HasKeys-insert;
  update_status = λ j db h. HasKeys-amend (set_status revoked) j db (λ r. refl) (λ r. refl) h;
  update_claimed = λ _ j now db h. HasKeys-amend (set_claimed now) j db (λ r. refl) (λ r. refl) h;
  update_secret_hash = λ j x db h. HasKeys-amend (set_hash x) j db (λ r. refl) (λ r. refl) h;
  upsert_claim_token = λ t db h. HasKeys-same db _ (ground arith) (ground arith) h;
  delete_claim_token = λ j db h. HasKeys-same db _ (ground arith) (ground arith) h;
  upsert_exchange_code = λ c db h. HasKeys-same db _ (ground arith) (ground arith) h;
  delete_exchange_code = λ j db h. HasKeys-same db _ (ground arith) (ground arith) h;
  prune_login_codes = λ now db h. HasKeys-same db _ (ground arith) (ground arith) h;
  insert_login_code = λ c db h. HasKeys-same db _ (ground arith) (ground arith) h;
  take_login_code = λ x j db h. HasKeys-same db _ (ground arith) (ground arith) h;
}
