-- ===== src/World/Statements.antt =====
-- The SQL statements of internal/persistence/mariadb/mariadb.go, as functions of the tables that
-- migrations/V001.sql, V002.sql and V003.sql declare. Each returns what the driver reports, and the
-- tables after it: an error leaves them as they were.
use appliance_registry.Prelude.{
  ℕ, ◌+◌, Bool, true, false, not, ◌&&◌, Option, none, some, List, [], ◌∷◌, ◌++◌, map, Text, text_eq,
  ◌==◌, if◌then◌else◌, find, keep, amend, sort_by, Result, ok, err,
}
use appliance_registry.Persistence.{
  ApplianceStatus, pending, active, revoked, status_text, Appliance, ApplianceFilter, DbError,
  no_rows, duplicate,
}
use appliance_registry.World.{Row, Database}

abbrev pub Reply : Type 0 → Type 0
Reply A = Result DbError A × Database

abbrev pub status_eq : ApplianceStatus → ApplianceStatus → Bool
status_eq pending pending = true
status_eq active active = true
status_eq revoked revoked = true
status_eq _ _ = false

abbrev pub option_eq {ℓ} : {A : Type ℓ} → (A → A → Bool) → Option A → Option A → Bool
option_eq eq none none = true
option_eq eq (some a) (some b) = eq a b
option_eq eq _ _ = false

abbrev pub has_id : ℕ → Row → Bool
has_id id r = r.id == id

abbrev pub has_label : Text → Row → Bool
has_label label r = text_eq r.hostname_label label

unfoldable pub row_of : ℕ → Database → Option Row
row_of id db = find (has_id id) db.appliances

-- What a query for one row reports.
abbrev pub one_row : {A : Type 0} → Option A → Result DbError A
one_row none = err no_rows
one_row (some a) = ok a

-- INSERT INTO appliances: `id` counts up, createdAt has its default, and the labels are UNIQUE. A failed
-- one leaves the counter; MariaDB may skip an id then, and which ids are free is all that shows it.
abbrev pub new_row : Text → Text → ℕ → ℕ → ℕ → Row
new_row name label group_id id now = record {
  appliance = record {
    id = id;
    name = name;
    hostname_label = label;
    group_id = group_id;
    status = pending;
    created_at = now;
    claimed_at = none;
    last_seen_at = none;
  };
  secret_hash = none;
}

unfoldable pub insert_appliance : Text → Text → ℕ → ℕ → Database → Reply ℕ
insert_appliance name label group_id now db = elim (find (has_label label) db.appliances) [
  | some _ ↦ (err duplicate, db)
  | none ↦ (
    ok db.next_id,
    record db {
      appliances = db.appliances ++ new_row name label group_id db.next_id now ∷ [];
      next_id = db.next_id + 1;
    },
  )
]

-- SELECT … FROM appliances WHERE id = ?
unfoldable pub select_appliance : ℕ → Database → Reply Appliance
select_appliance id db = elim (row_of id db) [
  | none ↦ (err no_rows, db)
  | some r ↦ (ok r.appliance, db)
]

-- SELECT … WHERE groupId = ? with the conditions that the filter adds, ORDER BY createdAt ASC.
unfoldable pub matches_filter : (Text → Text → Bool) → ApplianceFilter → Appliance → Bool
matches_filter collate f a =
    if not (text_eq f.status [])
    then collate (status_text a.status) f.status
    else if not f.include_revoked
    then not (status_eq a.status revoked)
    else true

unfoldable pub select_group :
    (Text → Text → Bool) → ℕ → ApplianceFilter → Database → Reply (List Appliance)
select_group collate group_id f db = (
  ok (
      sort_by (λ a. a.created_at)
        (keep (λ a. a.group_id == group_id && matches_filter collate f a)
          (map (λ (r : Row). r.appliance) db.appliances))),
  db,
)

-- SELECT … WHERE status = ? ORDER BY id ASC
unfoldable pub select_status : ApplianceStatus → Database → Reply (List Appliance)
select_status status db = (
  ok (
      sort_by (λ a. a.id)
        (keep (λ a. status_eq a.status status) (map (λ (r : Row). r.appliance) db.appliances))),
  db,
)

-- RowsAffected of an UPDATE of one row: the row counts if the update changes it.
abbrev pub affected : (Row → Bool) → Option Row → ℕ
affected changes none = 0
affected changes (some r) = if changes r then 1 else 0

abbrev pub update_row : ℕ → (Row → Bool) → (Row → Row) → Database → Reply ℕ
update_row id changes f db = (
  ok (affected changes (row_of id db)),
  record db { appliances = amend (has_id id) f db.appliances },
)

abbrev pub set_status : ApplianceStatus → Row → Row
set_status status r = record r { appliance = record r.appliance { status = status } }

-- UPDATE appliances SET status = ? WHERE id = ?
unfoldable pub update_status : ℕ → ApplianceStatus → Database → Reply ℕ
update_status id status db =
    update_row id (λ r. not (status_eq r.status status)) (set_status status) db

abbrev pub set_claimed : ℕ → Row → Row
set_claimed now r = record r {
  appliance = record r.appliance { status = active; claimed_at = some now };
}

-- UPDATE appliances SET status = ?, claimedAt = CURRENT_TIMESTAMP WHERE id = ?
unfoldable pub update_claimed : ℕ → ℕ → Database → Reply ℕ
update_claimed id now db =
    update_row id
      (λ r. not (status_eq r.status active && option_eq (λ s t. s == t) r.claimed_at (some now)))
      (set_claimed now) db

abbrev pub set_hash : Option Text → Row → Row
set_hash hash r = record r { secret_hash = hash }

-- UPDATE appliances SET secretHash = ? WHERE id = ?
unfoldable pub update_secret_hash : ℕ → Option Text → Database → Reply ℕ
update_secret_hash id hash db =
    update_row id (λ r. not (option_eq text_eq r.secret_hash hash)) (set_hash hash) db

-- SELECT 1 FROM appliances WHERE id = ?
unfoldable pub select_one : ℕ → Database → Reply (Unit {0})
select_one id db = elim (row_of id db) [ none ↦ (err no_rows, db) | some r ↦ (ok tt, db) ]

-- SELECT secretHash FROM appliances WHERE id = ?
unfoldable pub select_secret_hash : ℕ → Database → Reply (Option Text)
select_secret_hash id db = elim (row_of id db) [
  | none ↦ (err no_rows, db)
  | some r ↦ (ok r.secret_hash, db)
]
