-- ===== src/World/Rows.antt =====
-- Rows of `appliances` by their id, before and after a statement.
use appliance_registry.Prelude.{
  ℕ, ◌+◌, ◌≡◌, refl, Bool, true, Option, none, some, List, [], ◌∷◌, ◌++◌, arith, ◌==◌, not, find,
  keep, amend, if◌then◌else◌, Text, Option-cases, inl, inr,
}
use appliance_registry.Persistence.{Appliance}
use appliance_registry.World.{Row, Database}
use appliance_registry.World.Statements.{row_of, has_id, insert_appliance, new_row}

abbrev pub update_option {ℓ} : {A : Type ℓ} → (A → A) → Option A → Option A
update_option f none = none
update_option f (some a) = some (f a)

-- What the program can read of a row.
abbrev pub appliance_of : ℕ → Database → Option Appliance
appliance_of id db = elim (row_of id db) [ none ↦ none | some r ↦ some r.appliance ]

-- The hash of a secret as sql.NullString gives it: a NULL is the empty text.
abbrev pub null_string : Option Text → Text
null_string none = []
null_string (some s) = s

abbrev pub hash_of : ℕ → Database → Option Text
hash_of id db = elim (row_of id db) [ none ↦ none | some r ↦ some (null_string r.secret_hash) ]

module _ {ℓ} {A : Type ℓ} where
  pub find-holds : (p : A → Bool) (xs : List A) {a : A} → find p xs ≡ some a → p a ≡ true
  unfolding find
  find-holds p [] h = cc
  find-holds p (x ∷ xs) {a} h = ground (arith, find-holds p xs {a = a})

  -- A deletion of all that passes a test; the elements that do not pass it stay.
  pub find-keep-not : (p : A → Bool) (xs : List A) → find p (keep (λ a. not (p a)) xs) ≡ none
  unfolding find keep
  find-keep-not p [] = refl
  find-keep-not p (x ∷ xs) = ground (arith, find-keep-not p xs)

  pub find-keep_other :
      (p q : A → Bool) (xs : List A)
      → ((a : A) → p a ≡ true → q a ≡ true)
      → find p (keep q xs) ≡ find p xs
  unfolding find keep
  find-keep_other p q [] h = refl
  find-keep_other p q (x ∷ xs) h = ground (arith, h x, find-keep_other p q xs h)

pub row_of-id : (id : ℕ) (db : Database) {r : Row} → row_of id db ≡ some r → r.id ≡ id
unfolding row_of
row_of-id id db {r} h =
    let e : has_id id r ≡ true = find-holds (has_id id) db.appliances h in ground arith

find-amend :
    (f : Row → Row) (id j : ℕ) (rows : List Row)
    → ((r : Row) → (f r).id ≡ r.id)
    → find (has_id j) (amend (has_id id) f rows)
      ≡ (if id == j then update_option f (find (has_id j) rows) else find (has_id j) rows)
unfolding find amend
find-amend f id j [] h = ground arith
find-amend f id j (r ∷ rows) h = ground (arith, h r, find-amend f id j rows h)

-- An UPDATE of one row changes that row alone.
pub row_of-amend :
    (f : Row → Row) (id j : ℕ) (db : Database)
    → ((r : Row) → (f r).id ≡ r.id)
    → row_of j (record db { appliances = amend (has_id id) f db.appliances })
      ≡ (if id == j then update_option f (row_of j db) else row_of j db)
unfolding row_of
row_of-amend f id j db h = find-amend f id j db.appliances h

-- The row under an id has that id.
pub appliance_of-id :
    (id : ℕ) (db : Database) {a : Appliance} → appliance_of id db ≡ some a → a.id ≡ id
appliance_of-id id db {a} h = elim (Option-cases (row_of id db)) [
  | inl e ↦ absurd (ground arith)
  | inr (r, e) ↦ let same = row_of-id id db e in ground arith
]

find-append :
    (p : Row → Bool) (xs ys : List Row) {r : Row} → find p xs ≡ some r → find p (xs ++ ys) ≡ some r
unfolding find
find-append p [] ys h = cc
find-append p (x ∷ xs) ys {r} h = ground (arith, find-append p xs ys {r = r})

-- An INSERT leaves the rows that are there.
pub row_of-append :
    (id n : ℕ) (new : Row) (db : Database) {r : Row}
    → row_of id db ≡ some r
    → row_of id (record db { appliances = db.appliances ++ new ∷ []; next_id = n }) ≡ some r
unfolding row_of
row_of-append id n new db h = find-append (has_id id) db.appliances (new ∷ []) h

pub row_of-insert_appliance :
    (id : ℕ) (name label : Text) (g now : ℕ) (db : Database) {r : Row}
    → row_of id db ≡ some r
    → row_of id (insert_appliance name label g now db).1 ≡ some r
unfolding insert_appliance
row_of-insert_appliance id name label g now db {r} h =
    ground
      (arith, row_of-append id (db.next_id + 1) (new_row name label g db.next_id now) db {r = r})
