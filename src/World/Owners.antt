-- ===== src/World/Owners.antt =====
-- A table of migrations/ whose rows belong to appliances: its primary key and its foreign key.
use appliance_registry.Prelude.{
  ℕ, ◌≡◌, sym, subst, Bool, none, some, List, ◌∷◌, arith, find, keep, All, not,
}
use appliance_registry.World.{Row, Database}
use appliance_registry.World.Statements.{row_of}
use appliance_registry.World.Lifecycle.{AtLeast, rank_pos}
use appliance_registry.World.Keys.{
  IsDistinct, IsDistinct-keep, IsDistinct-upsert, All-weaken, All-keep,
}

-- The appliance exists.
abbrev pub IsPresent : ℕ → Database → Type 0
IsPresent = AtLeast 1

pub row_is_present : (id : ℕ) (db : Database) {r : Row} → row_of id db ≡ some r → IsPresent id db
row_is_present id db {r} e = record { bound = ground (arith, rank_pos r.status) }

-- A table whose elements belong to appliances.
module _ {T : Type 0} (table : Database → List T) (owner : T → ℕ) (same_key : T → T → Bool) where
  pub record HasOwners (db : Database) : Type 0 where
    pub distinct : IsDistinct same_key (table db)
    pub owned : All (λ t. IsPresent (owner t) db) (table db)

  pub HasOwners-carry :
      (db db' : Database)
      → table db' ≡ table db
      → ((id : ℕ) → IsPresent id db → IsPresent id db')
      → HasOwners db
      → HasOwners db'
  HasOwners-carry db db' e k h = record {
    distinct = subst (IsDistinct same_key) (sym e) h.distinct;
    owned =
        subst (All (λ t. IsPresent (owner t) db')) (sym e)
          (All-weaken _ _ (table db) (λ t. k (owner t)) h.owned);
  }

  pub HasOwners-shrink :
      (q : T → Bool) (db db' : Database)
      → table db' ≡ keep q (table db)
      → ((id : ℕ) → IsPresent id db → IsPresent id db')
      → HasOwners db
      → HasOwners db'
  HasOwners-shrink q db db' e k h = record {
    distinct =
        subst (IsDistinct same_key) (sym e) (IsDistinct-keep same_key q (table db) h.distinct);
    owned =
        subst (All (λ t. IsPresent (owner t) db')) (sym e)
          (All-keep _ q (table db) (All-weaken _ _ (table db) (λ t. k (owner t)) h.owned));
  }

  pub HasOwners-put :
      (t : T) (db db' : Database)
      → table db' ≡ t ∷ keep (λ u. not (same_key t u)) (table db)
      → ((id : ℕ) → IsPresent id db → IsPresent id db')
      → IsPresent (owner t) db
      → HasOwners db
      → HasOwners db'
  HasOwners-put t db db' e k p h = record {
    distinct =
        subst (IsDistinct same_key) (sym e) (IsDistinct-upsert same_key t (table db) h.distinct);
    owned = subst (All (λ t. IsPresent (owner t) db')) (sym e) (
      k (owner t) p,
      All-keep _ _ (table db) (All-weaken _ _ (table db) (λ u. k (owner u)) h.owned),
    );
  }

  pub HasOwners-add :
      (t : T) (db db' : Database)
      → table db' ≡ t ∷ table db
      → find (same_key t) (table db) ≡ none
      → ((id : ℕ) → IsPresent id db → IsPresent id db')
      → IsPresent (owner t) db
      → HasOwners db
      → HasOwners db'
  HasOwners-add t db db' e new k p h = record {
    distinct = subst (IsDistinct same_key) (sym e) (new, h.distinct);
    owned =
        subst (All (λ t. IsPresent (owner t) db')) (sym e)
          (k (owner t) p, All-weaken _ _ (table db) (λ u. k (owner u)) h.owned);
  }
