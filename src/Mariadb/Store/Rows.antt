-- ===== src/Mariadb/Store/Rows.antt =====
-- internal/persistence/mariadb/mariadb.go: the methods on appliances, against their promises.
use appliance_registry.Prelude.{
  ℕ, ◌+◌, ◌≡◌, refl, Bool, true, false, not, ◌&&◌, Option, none, some, [], ◌∷◌, ◌++◌, Text, text_eq,
  Result, ok, err, arith, ap, ◌∙◌, ◌==◌, find, amend, if◌then◌else◌, Option-cases, Bool-cases, inl,
  inr,
}
use mathlib.Core.Path.{fun_ext, ap₂}
use appliance_registry.External.{Backend}
use appliance_registry.Persistence.{ApplianceStatus, active, DbError, no_rows}
use appliance_registry.World.{Row, Database, World}
use appliance_registry.World.Statements
use appliance_registry.World.Statements.{
  row_of, has_id, has_label, affected, set_status, set_claimed, set_hash, new_row, status_eq,
  option_eq,
}
use appliance_registry.World.Rows.{row_of-amend, update_option}
use appliance_registry.Program.{◌>>=◌}
use appliance_registry.Program.Run.{run, perform, tick}
use appliance_registry.Mariadb
use appliance_registry.Mariadb.Store.{
  Store, view, put, updated, only_if, is_pending, is_kept, holds_of, exec, spec,
  set_appliance_status, mark_appliance_claimed, set_appliance_secret_hash, create_appliance,
}
use appliance_registry.Mariadb.Store.Lookups.{
  is_some-find-amend, is_some-find-append, find-snoc, find-snoc_other,
}
use appliance_registry.Mariadb.Store.Reads.{observe, Refines}

put-same : {A : Type 0} (i : ℕ) (o : Option A) (f : ℕ → Option A) → f i ≡ o → put i o f ≡ f
put-same i o f e = fun_ext (λ j. ground arith)

abbrev amended : ℕ → (Row → Row) → Database → Database
amended i f db = record db { appliances = amend (has_id i) f db.appliances }

-- An UPDATE on maps: one that would change nothing is reported as one that found no row.
abbrev counted :
    ℕ → (Row → Bool) → (Row → Row) → Option Row → Store → Result DbError (Unit {0}) × Store
counted id changes f none s = (err no_rows, s)
counted id changes f (some r) s =
    if changes r then (ok tt, record s { rows = put id (some (f r)) s.rows }) else (err no_rows, s)

module _ (i : ℕ) (f : Row → Row) (db : Database) (same_id : (r : Row) → (f r).id ≡ r.id)
    (same_label : (r : Row) → (f r).hostname_label ≡ r.hostname_label) where
  view-amend :
      view (amended i f db)
      ≡ record (view db) { rows = put i (update_option f (row_of i db)) (view db).rows }
  view-amend =
      ap₂
        (λ (rows : ℕ → Option Row) (labels : Text → Bool). record (view db) {
          rows = rows;
          labels = labels;
        })
        (fun_ext (λ j. ground (arith, row_of-amend f i j db same_id)))
        (fun_ext (λ l.
          is_some-find-amend (has_label l) (has_id i) f db.appliances
            (λ r. ground (arith, same_label r))))

  -- The rows that count as affected are those that are seen to change.
  amended-counted :
      (changes : Row → Bool)
      → ((r : Row) → changes r ≡ false → f r ≡ r)
      → (if affected changes (row_of i db) == 0 then err no_rows else ok tt, view (amended i f db))
        ≡ counted i changes f (row_of i db) (view db)
  amended-counted changes idle =
      ap (λ s. (reported (row_of i db), s)) view-amend ∙ by_row (row_of i db) refl
    where
      reported : Option Row → Result DbError (Unit {0})
      reported o = if affected changes o == 0 then err no_rows else ok tt

      by_row :
          (o : Option Row)
          → row_of i db ≡ o
          → (reported o, record (view db) { rows = put i (update_option f o) (view db).rows })
            ≡ counted i changes f o (view db)
      by_row none e =
          ap (λ rows. (err no_rows, record (view db) { rows = rows })) (put-same i none _ e)
      by_row (some r) e = elim (Bool-cases (changes r)) [
        | inl h ↦ ground (arith, h)
        | inr h ↦
            ap (λ o. (reported (some r), record (view db) { rows = put i (some o) (view db).rows }))
              (idle r h)
            ∙ ap (λ rows. (reported (some r), record (view db) { rows = rows }))
                (put-same i (some r) _ e)
            ∙ ground (arith, h)
      ]

-- An update that counts no row changes none.
set_status_idle :
    (s : ApplianceStatus) (r : Row) → not (status_eq r.status s) ≡ false → set_status s r ≡ r
set_status_idle s r h = ap (λ t. set_status t r) (ground arith)

abbrev newly_claimed : ℕ → Row → Bool
newly_claimed now r =
    not (status_eq r.status active && option_eq (λ s t. s == t) r.claimed_at (some now))

set_claimed_idle : (now : ℕ) (r : Row) → newly_claimed now r ≡ false → set_claimed now r ≡ r
set_claimed_idle now r h =
    ap₂
      (λ (t : ApplianceStatus) (c : Option ℕ). record r {
        appliance = record r.appliance { status = t; claimed_at = c };
      })
      (ground arith) (ground arith)

-- A new row under an id that is free.
module _ (db : Database) (new : Row) (free : row_of new.id db ≡ none) where
  pub row_of-snoc :
      (j : ℕ) → find (has_id j) (db.appliances ++ new ∷ []) ≡ put new.id (some new) (view db).rows j
  unfolding row_of
  row_of-snoc j = elim (Bool-cases (new.id == j)) [
    | inl e ↦
        let same : new.id ≡ j = ground arith in
        find-snoc (has_id j) db.appliances new (ground (arith, free, same)) ∙ ground (arith, e)
    | inr e ↦ find-snoc_other (has_id j) db.appliances new e ∙ ground (arith, e)
  ]

  view-snoc :
      (n : ℕ)
      → view (record db { appliances = db.appliances ++ new ∷ []; next_id = n })
        ≡ record (view db) {
          rows = put new.id (some new) (view db).rows;
          labels = λ l. if text_eq new.hostname_label l then true else (view db).labels l;
          next_id = n;
        }
  unfolding row_of
  view-snoc n =
      ap₂
        (λ (rows : ℕ → Option Row) (labels : Text → Bool). record (view db) {
          rows = rows;
          labels = labels;
          next_id = n;
        })
        (fun_ext row_of-snoc) (fun_ext (λ l. is_some-find-append (has_label l) db.appliances new))

module _ {b : Backend} (w : World b) (calm : w.faults ≡ []) where
  pub set_appliance_status-Refines :
      (id : ℕ) (s : ApplianceStatus)
      → is_kept (set_appliance_status id s) (view w.db) ≡ true
      → Refines (set_appliance_status id s) w
  unfolding run perform Mariadb.set_appliance_status Statements.update_status ◌>>=◌
  set_appliance_status-Refines id s kept =
      let changes : Row → Bool = λ r. not (status_eq r.status s) in
      let ran : observe (run (exec (set_appliance_status id s)) w) ≡ (
        if affected changes (row_of id w.db) == 0 then err no_rows else ok tt,
        view (amended id (set_status s) w.db),
      ) =
        ground (arith, calm) in
      ran
      ∙ amended-counted id (set_status s) w.db (λ r. refl) (λ r. refl) changes (set_status_idle s)
      ∙ split (row_of id w.db) kept
    where
      split :
          (o : Option Row)
          → holds_of (λ r. not (status_eq r.status s)) o ≡ true
          → counted id (λ r. not (status_eq r.status s)) (set_status s) o (view w.db)
            ≡ updated id (set_status s) o (view w.db)
      split none h = refl
      split (some r) h = ground (arith, h)

  pub mark_appliance_claimed-Refines :
      (id : ℕ)
      → is_kept (mark_appliance_claimed id) (view w.db) ≡ true
      → Refines (mark_appliance_claimed id) w
  unfolding run perform Mariadb.mark_appliance_claimed Statements.update_claimed ◌>>=◌
  mark_appliance_claimed-Refines id kept =
      let now = b.column_time w.clock in
      let ran : observe (run (exec (mark_appliance_claimed id)) w) ≡ (
        if affected (newly_claimed now) (row_of id w.db) == 0 then err no_rows else ok tt,
        view (amended id (set_claimed now) w.db),
      ) =
        ground (arith, calm) in
      ran
      ∙ amended-counted id (set_claimed now) w.db (λ r. refl) (λ r. refl) (newly_claimed now)
          (set_claimed_idle now)
      ∙ split (row_of id w.db) kept
    where
      split :
          (o : Option Row)
          → holds_of is_pending o ≡ true
          → counted id
              (newly_claimed (b.column_time w.clock))
              (set_claimed (b.column_time w.clock))
              o
              (view w.db)
            ≡ updated id (set_claimed (b.column_time w.clock)) (only_if is_pending o) (view w.db)
      split none h = refl
      split (some r) h = ground (arith, h)

  pub set_appliance_secret_hash-Refines :
      (id : ℕ) (hash : Option Text) → Refines (set_appliance_secret_hash id hash) w
  unfolding run perform Mariadb.set_appliance_secret_hash Statements.update_secret_hash
      Statements.select_one ◌>>=◌
  set_appliance_secret_hash-Refines id hash =
      let f = set_hash hash in
      let there = row_of-amend f id id w.db (λ r. refl) in
      let ran : observe (run (exec (set_appliance_secret_hash id hash)) w) ≡ (
        if affected (λ r. true) (row_of id w.db) == 0 then err no_rows else ok tt,
        view (amended id f w.db),
      ) =
        ground (arith, calm, there) in
      ran ∙ amended-counted id f w.db (λ r. refl) (λ r. refl) (λ r. true) (λ r h. ground arith)

  pub create_appliance-Refines :
      (name label : Text) (g : ℕ)
      → row_of w.next_id w.db ≡ none
      → Refines (create_appliance name label g) w
  unfolding run perform Mariadb.create_appliance Mariadb.get_appliance Statements.insert_appliance
      Statements.select_appliance row_of ◌>>=◌
  create_appliance-Refines name label g fresh =
      elim (Option-cases (find (has_label label) w.appliances)) [
        | inr (r, e) ↦ ground (arith, calm, e)
        | inl e ↦
            let new = new_row name label g w.next_id (b.column_time w.clock) in
            let db' : Database = record w.db {
              appliances = w.appliances ++ new ∷ [];
              next_id = w.next_id + 1;
            } in
            let made : row_of w.next_id db' ≡ some new =
              row_of-snoc w.db new fresh w.next_id ∙ ground arith in
            let ran : observe (run (exec (create_appliance name label g)) w)
                ≡ (ok new.appliance, view db') =
              ground (arith, calm, e, made) in
            let promise : (
              ok new.appliance,
              record (view w.db) {
                rows = put new.id (some new) (view w.db).rows;
                labels = λ l. if text_eq label l then true else (view w.db).labels l;
                next_id = w.next_id + 1;
              },
            )
                ≡ spec b.column_time w.clock (w.clock + tick w.ticks)
                    (create_appliance name label g) (view w.db) =
              ground (arith, e) in
            ran
            ∙ ap (λ s. (ok new.appliance, s)) (view-snoc w.db new fresh (w.next_id + 1))
            ∙ promise
      ]
