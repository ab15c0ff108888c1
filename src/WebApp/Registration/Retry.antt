-- ===== src/WebApp/Registration/Retry.antt =====
-- internal/appliancewebapp/webapp.go: how createApplianceWithRetry ends.
use appliance_registry.Prelude.{
  ℕ, zero, suc, ◌+◌, ◌≤◌, ◌<◌, ◌≡◌, refl, ap, ◌∙◌, Option, none, some, List, [], ◌∷◌, ◌++◌, map,
  length, Text, text, err, arith, find, All,
}
use appliance_registry.External.{External, Backend}
use appliance_registry.Persistence.{Appliance, DbError, duplicate, pending}
use appliance_registry.World.{Row, World, Database}
use appliance_registry.World.Statements
use appliance_registry.World.Statements.{row_of, has_label, new_row}
use appliance_registry.World.Rows.{appliance_of}
use appliance_registry.Text.{hex}
use appliance_registry.Tokens.{random_hex}
use appliance_registry.Hostnames.{generate_label, sanitize}
use appliance_registry.Mariadb
use appliance_registry.Mariadb.Success.{Calm}
use appliance_registry.Mariadb.Store.Rows.{row_of-snoc}
use appliance_registry.Program.{Prog, fail, on_error, ◌>>=◌}
use appliance_registry.Program.Run.{run, perform}
use appliance_registry.Program.Rules.{run->>=, run-on_error, resume, rescue}
use appliance_registry.Program.Success.{Succeeds, Returns, then_returns, handled_succeeds}
use appliance_registry.WebApp.{WebApp}
use appliance_registry.WebApp.Registration.{
  create_appliance_from, create_appliance_with_retry, if_duplicate,
}

module _ (x : External) (name : Text) where
  -- The label of an attempt with these random bytes.
  abbrev pub label_of : List ℕ → Text
  label_of bytes = sanitize x name ++ text "-" ++ hex bytes

  abbrev pub IsTaken : Database → List ℕ → Type 0
  IsTaken db bytes = (r : Row) × (find (has_label (label_of bytes)) db.appliances ≡ some r)

abbrev attempt :
    External → Text → ℕ → (DbError → Prog (Unit {0}) Appliance) → Prog (Unit {0}) Appliance
attempt x name g h =
    generate_label x name >>= λ label. on_error h (Mariadb.create_appliance name label g)

module _ {b : Backend} (x : External) (app : WebApp) (name : Text) (g : ℕ) where
  generate_label_succeeds :
      {db : Database} {rest : List (Option (List ℕ))} (bytes : List ℕ) (w : World b)
      → Calm w db (some bytes ∷ rest)
      → Returns (generate_label x name) w (label_of x name bytes) (λ v. Calm v db rest)
  unfolding run perform generate_label random_hex ◌>>=◌
  generate_label_succeeds {rest = rest} bytes w c = record {
    after = record w { entropy = rest };
    runs = ground (arith, c.same_entropy);
    holds = ground (arith, c.same_db, c.no_faults);
  }

  -- One INSERT with a label that is taken, and one with a label that is free.
  create_appliance_taken :
      {db : Database} {entropy : List (Option (List ℕ))} (label : Text) (w : World b) {r : Row}
      → Calm w db entropy
      → find (has_label label) db.appliances ≡ some r
      → (v : World b) × (run (Mariadb.create_appliance name label g) w ≡ (err duplicate, v))
        × Calm v db entropy
  unfolding run perform Mariadb.create_appliance Statements.insert_appliance ◌>>=◌
  create_appliance_taken label w c e = (
    record w { faults = [] },
    ground (arith, c.no_faults, c.same_db, e),
    ground (arith, c.same_db, c.same_entropy),
  )

  -- An attempt whose label is taken.
  run-attempt :
      {db : Database} {rest : List (Option (List ℕ))} (h : DbError → Prog (Unit {0}) Appliance)
      (bytes : List ℕ) (w : World b)
      → Calm w db (some bytes ∷ rest)
      → IsTaken x name db bytes
      → (v : World b) × (run (attempt x name g h) w ≡ run (h duplicate) v) × Calm v db rest
  run-attempt h bytes w c (r, e) =
      let s = generate_label_succeeds bytes w c in
      let label = label_of x name bytes in
      let f : Text → Prog (Unit {0}) Appliance =
        λ l. on_error h (Mariadb.create_appliance name l g) in
      let (v, failed, c') = create_appliance_taken label s.after s.holds e in
      (
        v,
        run->>= (generate_label x name) f w
            ∙ ap (resume f) s.runs
            ∙ run-on_error h (Mariadb.create_appliance name label g) s.after
            ∙ ap (rescue h) failed,
        c',
      )

  -- What the attempt with a free label creates.
  pub record Inserted (db : Database) (rest : List (Option (List ℕ))) (label : Text) (a : Appliance)
      (v : World b) : Type 0 where
    pub new_id : a.id ≡ db.next_id
    pub its_label : a.hostname_label ≡ label
    pub its_group : a.group_id ≡ g
    pub its_name : a.name ≡ name
    pub is_pending : a.status ≡ pending
    pub on_file : appliance_of a.id v.db ≡ some a
    pub no_faults : v.faults ≡ []
    pub same_entropy : v.entropy ≡ rest

  create_appliance_free :
      {db : Database} {entropy : List (Option (List ℕ))} (label : Text) (w : World b)
      → Calm w db entropy
      → find (has_label label) db.appliances ≡ none
      → row_of db.next_id db ≡ none
      → Succeeds (Mariadb.create_appliance name label g) w (Inserted db entropy label)
  unfolding run perform Mariadb.create_appliance Statements.insert_appliance
      Statements.select_appliance Mariadb.get_appliance row_of ◌>>=◌
  create_appliance_free {db} label w c e fresh =
      let new = new_row name label g db.next_id (b.column_time w.clock) in
      let db' : Database = record db {
        appliances = db.appliances ++ new ∷ [];
        next_id = db.next_id + 1;
      } in
      let made : row_of db.next_id db' ≡ some new =
        row_of-snoc db new fresh db.next_id ∙ ground arith in
      record {
        value = new.appliance;
        after = record w { db = db'; faults = [] };
        runs = ground (arith, c.no_faults, c.same_db, e, made);
        holds = record {
          new_id = refl;
          its_label = refl;
          its_group = refl;
          its_name = refl;
          is_pending = refl;
          on_file = ground (arith, made);
          no_faults = refl;
          same_entropy = c.same_entropy;
        };
      }

  attempt_succeeds :
      {db : Database} {rest : List (Option (List ℕ))} (h : DbError → Prog (Unit {0}) Appliance)
      (bytes : List ℕ) (w : World b)
      → Calm w db (some bytes ∷ rest)
      → find (has_label (label_of x name bytes)) db.appliances ≡ none
      → row_of db.next_id db ≡ none
      → Succeeds (attempt x name g h) w (Inserted db rest (label_of x name bytes))
  attempt_succeeds h bytes w c e fresh =
      then_returns (λ l. on_error h (Mariadb.create_appliance name l g))
        (generate_label_succeeds bytes w c)
        (λ v c'. handled_succeeds h (create_appliance_free (label_of x name bytes) v c' e fresh))

  -- By induction on the labels that are taken.
  create_from_succeeds :
      (n : ℕ) (taken : List (List ℕ)) (bytes : List ℕ) (rest : List (Option (List ℕ)))
      (db : Database) (w : World b)
      → length taken ≤ n
      → All (IsTaken x name db) taken
      → find (has_label (label_of x name bytes)) db.appliances ≡ none
      → row_of db.next_id db ≡ none
      → Calm w db (map some taken ++ some bytes ∷ rest)
      → Succeeds (create_appliance_from x app n name g) w (Inserted db rest (label_of x name bytes))
  unfolding create_appliance_from
  create_from_succeeds zero [] bytes rest db w few all e fresh c =
      attempt_succeeds (λ _. fail tt) bytes w c e fresh
  create_from_succeeds (suc n) [] bytes rest db w few all e fresh c =
      attempt_succeeds (if_duplicate (create_appliance_from x app n name g)) bytes w c e fresh
  create_from_succeeds zero (t ∷ taken) bytes rest db w few all e fresh c =
      absurd (omega (arith, few))
  create_from_succeeds (suc n) (t ∷ taken) bytes rest db w few (first, all) e fresh c =
      let (v, same, c') =
        run-attempt (if_duplicate (create_appliance_from x app n name g)) t w c first in
      let s = create_from_succeeds n taken bytes rest db v (omega (arith, few)) all e fresh c' in
      record { value = s.value; after = s.after; runs = same ∙ s.runs; holds = s.holds }

  -- Five attempts, where no call fails: if one of the first five labels is free, it is the first such
  -- label that the new appliance gets, under the next id, pending; and no further label is drawn.
  pub create_appliance_with_retry_succeeds :
      (taken : List (List ℕ)) (bytes : List ℕ) (rest : List (Option (List ℕ))) (db : Database)
      (w : World b)
      → length taken < 5
      → All (IsTaken x name db) taken
      → find (has_label (label_of x name bytes)) db.appliances ≡ none
      → row_of db.next_id db ≡ none
      → Calm w db (map some taken ++ some bytes ∷ rest)
      → Succeeds
          (create_appliance_with_retry x app name g)
          w
          (Inserted db rest (label_of x name bytes))
  unfolding create_appliance_with_retry
  create_appliance_with_retry_succeeds taken bytes rest db w few =
      create_from_succeeds 4 taken bytes rest db w (omega (arith, few))

  create_from_gives_up :
      (n : ℕ) (taken : List (List ℕ)) (rest : List (Option (List ℕ))) (db : Database) (w : World b)
      → length taken ≡ suc n
      → All (IsTaken x name db) taken
      → Calm w db (map some taken ++ rest)
      → (v : World b) × (run (create_appliance_from x app n name g) w ≡ (err tt, v))
        × Calm v db rest
  unfolding create_appliance_from run
  create_from_gives_up n [] rest db w five all c = absurd (omega (arith, five))
  create_from_gives_up zero (t ∷ []) rest db w five (first, all) c =
      run-attempt (λ _. fail tt) t w c first
  create_from_gives_up zero (t ∷ u ∷ taken) rest db w five all c = absurd (omega (arith, five))
  create_from_gives_up (suc n) (t ∷ taken) rest db w five (first, all) c =
      let (v, same, c') =
        run-attempt (if_duplicate (create_appliance_from x app n name g)) t w c first in
      let (u, failed, c'') = create_from_gives_up n taken rest db v (omega (arith, five)) all c' in
      (u, same ∙ failed, c'')

  -- Where no call fails and the first five labels are all taken, it gives up after them: it returns an
  -- error, no table has changed, and no sixth label is drawn.
  create_appliance_with_retry_gives_up :
      (taken : List (List ℕ)) (rest : List (Option (List ℕ))) (db : Database) (w : World b)
      → length taken ≡ 5
      → All (IsTaken x name db) taken
      → Calm w db (map some taken ++ rest)
      → (v : World b) × (run (create_appliance_with_retry x app name g) w ≡ (err tt, v))
        × (v.db ≡ db)
        × (v.entropy ≡ rest)
  unfolding create_appliance_with_retry
  create_appliance_with_retry_gives_up taken rest db w five all c =
      let (v, failed, c') = create_from_gives_up 4 taken rest db w five all c in
      (v, failed, c'.same_db, c'.same_entropy)
