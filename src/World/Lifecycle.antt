-- ===== src/World/Lifecycle.antt =====
-- The stages of an appliance in the column `status` of migrations/V001.sql, along the statements.
use appliance_registry.Prelude.{
  ℕ, ◌≤◌, ◌≡◌, refl, inl, inr, Option, none, some, Text, arith, amend, find, Option-cases, subst,
  sym, if◌then◌else◌, ◌==◌, Bool, true, false,
}
use appliance_registry.Persistence.{ApplianceStatus, pending, active, revoked}
use appliance_registry.World.{Row, Database}
use appliance_registry.World.Statements
use appliance_registry.World.Statements.{row_of, has_id, set_status, set_claimed, set_hash}
use appliance_registry.World.Codes
use appliance_registry.World.Rows.{row_of-amend, row_of-insert_appliance, update_option}
use appliance_registry.World.Invariants.{Kept}

-- absent, pending, active, revoked
abbrev pub rank : ApplianceStatus → ℕ
rank pending = 1
rank active = 2
rank revoked = 3

rank-le : (s : ApplianceStatus) → rank s ≤ 3
rank-le pending = omega arith
rank-le active = omega arith
rank-le revoked = omega arith

pub rank_pos : (s : ApplianceStatus) → 1 ≤ rank s
rank_pos pending = omega arith
rank_pos active = omega arith
rank_pos revoked = omega arith

abbrev pub stage_of_row : Option Row → ℕ
stage_of_row none = 0
stage_of_row (some r) = rank r.status

abbrev pub stage : ℕ → Database → ℕ
stage id db = stage_of_row (row_of id db)

-- The appliance has come at least that far.
pub record AtLeast (n id : ℕ) (db : Database) : Type 0 where
  pub bound : n ≤ stage id db

-- The appliance exists and is not pending.
abbrev pub IsSettled : ℕ → Database → Type 0
IsSettled = AtLeast 2

module _ (n id : ℕ) where
  stage-update :
      (f : Row → Row) (j : ℕ) (db : Database)
      → ((r : Row) → (f r).id ≡ r.id)
      → ((r : Row) → j ≡ id → n ≤ rank r.status → n ≤ rank (f r).status)
      → AtLeast n id db
      → AtLeast n id (record db { appliances = amend (has_id j) f db.appliances })
  stage-update f j db same forward h = record {
    bound =
        subst (λ o. n ≤ stage_of_row o) (sym (row_of-amend f j id db same))
          (go (j == id) (λ e. ground arith) (row_of id db) h.bound);
  }
    where
      go :
          (p : Bool)
          → (p ≡ true → j ≡ id)
          → (o : Option Row) → n ≤ stage_of_row o
          → n ≤ stage_of_row (if p then update_option f o else o)
      go true e (some r) k = forward r (e refl) k
      go true e none k = k
      go false e o k = k

  pub stage-same :
      (db db' : Database) → db'.appliances ≡ db.appliances → AtLeast n id db → AtLeast n id db'
  unfolding row_of
  stage-same db db' e h = record {
    bound = subst (λ rows. n ≤ stage_of_row (find (has_id id) rows)) (sym e) h.bound;
  }

  stage-insert :
      (name label : Text) (g now : ℕ) (db : Database)
      → AtLeast n id db
      → AtLeast n id (Statements.insert_appliance name label g now db).1
  stage-insert name label g now db h = elim (Option-cases (row_of id db)) [
    | inl e ↦ let low = h.bound in record { bound = ground arith }
    | inr (r, e) ↦ record {
      bound =
          subst (λ o. n ≤ stage_of_row o) (sym (row_of-insert_appliance id name label g now db e))
            (subst (λ o. n ≤ stage_of_row o) e h.bound);
    }
  ]

  -- A mark of a claim brings an appliance to `active`, wherever it was.
  pub Kept-AtLeast : (c : Bool) → (c ≡ true → n ≤ 2) → Kept c (AtLeast n id)
  unfolding Statements.update_status Statements.update_claimed Statements.update_secret_hash
      Codes.upsert_claim_token Codes.delete_claim_token Codes.upsert_exchange_code
      Codes.delete_exchange_code Codes.prune_login_codes Codes.insert_login_code
      Codes.take_login_code
  Kept-AtLeast c low = record {
    insert_appliance = stage-insert;
    update_status = λ j db h.
        stage-update (set_status revoked) j db (λ r. refl)
          (λ r _ k. omega (arith, k, rank-le r.status)) h;
    update_claimed =
        λ e j now db h. stage-update (set_claimed now) j db (λ r. refl) (λ r _ k. low e) h;
    update_secret_hash = λ j x db h. stage-update (set_hash x) j db (λ r. refl) (λ r _ k. k) h;
    upsert_claim_token = λ t db h. stage-same db _ (ground arith) h;
    delete_claim_token = λ j db h. stage-same db _ (ground arith) h;
    upsert_exchange_code = λ k db h. stage-same db _ (ground arith) h;
    delete_exchange_code = λ j db h. stage-same db _ (ground arith) h;
    prune_login_codes = λ now db h. stage-same db _ (ground arith) h;
    insert_login_code = λ k db h. stage-same db _ (ground arith) h;
    take_login_code = λ x j db h. stage-same db _ (ground arith) h;
  }

  -- A mark of another appliance's claim, or of an early one, leaves the stage.
  pub stage-update_claimed :
      (j now : ℕ) (db : Database)
      → (j ≡ id → n ≤ 2)
      → AtLeast n id db
      → AtLeast n id (Statements.update_claimed j now db).1
  unfolding Statements.update_claimed
  stage-update_claimed j now db low h =
      stage-update (set_claimed now) j db (λ r. refl) (λ r e k. low e) h
