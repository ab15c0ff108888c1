-- ===== src/WebApp/Registration/Outcomes.antt =====
-- internal/appliancewebapp/webapp.go: what createApplianceWithRetry, Register and Enroll have done where
-- they succeed.
use appliance_registry.Prelude.{
  ℕ, zero, suc, ◌+◌, ◌≡◌, refl, subst, ◌∙◌, none, some, List, [], ◌∷◌, ◌++◌, Text, text, ok, err,
  arith, find, Option-cases, inl, inr,
}
use appliance_registry.External.{External, Backend}
use appliance_registry.Persistence.{Appliance, DbError, no_rows, duplicate, unavailable}
use appliance_registry.World.{World, Database}
use appliance_registry.World.Statements
use appliance_registry.World.Statements.{new_row, row_of}
use appliance_registry.World.Rows.{appliance_of}
use appliance_registry.Mariadb
use appliance_registry.Mariadb.Results.{SameStores}
use appliance_registry.Hostnames.{sanitize, generate_label}
use appliance_registry.Text.{hex}
use appliance_registry.Tokens.{random_hex}
use appliance_registry.Program.{Prog, ◌>>=◌}
use appliance_registry.Program.Run.{run, perform, supply}
use appliance_registry.Program.Rules.{after_ok, after_on_error, on_error-eq-ok}
use appliance_registry.WebApp.{WebApp}
use appliance_registry.WebApp.Registration.{if_duplicate, create_appliance_from}

-- The tables with one more appliance.
abbrev pub with_appliance : Text → Text → ℕ → ℕ → Database → Database
with_appliance name label g now db = record db {
  appliances = db.appliances ++ new_row name label g db.next_id now ∷ [];
  next_id = db.next_id + 1;
}

module _ {b : Backend} (x : External) where
  generate_label-eq-ok :
      (name : Text) (w : World b) {label : Text} {w' : World b}
      → run (generate_label x name) w ≡ (ok label, w')
      → ((buf : List ℕ) × (label ≡ sanitize x name ++ text "-" ++ hex buf)) × SameStores w w'
  unfolding run perform generate_label random_hex ◌>>=◌
  generate_label-eq-ok name w h = elim (Option-cases (supply w.entropy)) [
    | inl e ↦ ground arith
    | inr (buf, e) ↦ ((buf, ground arith), ground arith)
  ]

  create_appliance-eq-ok :
      (name label : Text) (g : ℕ) (w : World b) {a : Appliance} {w' : World b}
      → run (Mariadb.create_appliance name label g) w ≡ (ok a, w')
      → (find (Statements.has_label label) w.appliances ≡ none)
        × (w'.db ≡ with_appliance name label g (b.column_time w.clock) w.db)
        × (appliance_of w.next_id w'.db ≡ some a)
        × (w'.cluster ≡ w.cluster)
        × (w'.clock ≡ w.clock)
        × (w'.ticks ≡ w.ticks)
  unfolding run perform Mariadb.create_appliance Mariadb.get_appliance Statements.insert_appliance
      Statements.select_appliance ◌>>=◌
  create_appliance-eq-ok name label g w h = ground arith

  create_appliance-eq-duplicate :
      (name label : Text) (g : ℕ) (w : World b) {w' : World b}
      → run (Mariadb.create_appliance name label g) w ≡ (err duplicate, w')
      → SameStores w w'
  unfolding run perform Mariadb.create_appliance Mariadb.get_appliance Statements.insert_appliance
      Statements.select_appliance ◌>>=◌
  create_appliance-eq-duplicate name label g w h = ground arith

  -- One new appliance: pending, of that group, with a label that no row had.
  pub record Created (w : World b) (name : Text) (g : ℕ) (a : Appliance) (w' : World b)
      : Type 0 where
    pub label : Text
    pub buf : List ℕ
    pub its_label : label ≡ sanitize x name ++ text "-" ++ hex buf
    pub unused : find (Statements.has_label label) w.appliances ≡ none
    pub new_db : w'.db ≡ with_appliance name label g (b.column_time w.clock) w.db
    pub read_back : appliance_of w.next_id w'.db ≡ some a
    pub same_cluster : w'.cluster ≡ w.cluster
    pub same_clock : w'.clock ≡ w.clock
    pub same_ticks : w'.ticks ≡ w.ticks

  created_from :
      (name : Text) (g : ℕ) (w w₁ : World b) {a : Appliance} {w' : World b}
      → SameStores w w₁
      → Created w₁ name g a w'
      → Created w name g a w'
  created_from name g w w₁ s c = record {
    label = c.label;
    buf = c.buf;
    its_label = c.its_label;
    unused = ground (arith, c.unused, s.same_db);
    new_db = ground (arith, c.new_db, s.same_db, s.same_clock);
    read_back = ground (arith, c.read_back, s.same_db);
    same_cluster = c.same_cluster ∙ s.same_cluster;
    same_clock = c.same_clock ∙ s.same_clock;
    same_ticks = c.same_ticks ∙ s.same_ticks;
  }

  created :
      (name label : Text) (buf : List ℕ) (g : ℕ) (w : World b) {a : Appliance} {w' : World b}
      → label ≡ sanitize x name ++ text "-" ++ hex buf
      → run (Mariadb.create_appliance name label g) w ≡ (ok a, w')
      → Created w name g a w'
  created name label buf g w e h =
      let (unused, new_db, read, cluster, clock, ticks) = create_appliance-eq-ok name label g w h in
      record {
        label = label;
        buf = buf;
        its_label = e;
        unused = unused;
        new_db = new_db;
        read_back = read;
        same_cluster = cluster;
        same_clock = clock;
        same_ticks = ticks;
      }

  if_duplicate-eq-ok :
      {A : Type 0} (m : Prog (Unit {0}) A) (e : DbError) (w : World b) {a : A} {w' : World b}
      → run (if_duplicate m e) w ≡ (ok a, w')
      → (e ≡ duplicate) × (run m w ≡ (ok a, w'))
  unfolding run
  if_duplicate-eq-ok m no_rows w h = absurd (ground arith)
  if_duplicate-eq-ok m duplicate w h = (refl, h)
  if_duplicate-eq-ok m unavailable w h = absurd (ground arith)

  module _ (app : WebApp) where
    pub create_appliance_from-Created :
        (n : ℕ) (name : Text) (g : ℕ) (w : World b) {a : Appliance} {w' : World b}
        → run (create_appliance_from x app n name g) w ≡ (ok a, w')
        → Created w name g a w'
    unfolding create_appliance_from run
    create_appliance_from-Created zero name g w h = after_ok _ _ _ h λ label w₁ made h₁.
        let ((buf, e), s) = generate_label-eq-ok name w made in
        created_from name g w w₁ s
          (created name label buf g w₁ e (on_error-eq-ok _ _ w₁ (λ d. tt) h₁))
    create_appliance_from-Created (suc n) name g w h = after_ok _ _ _ h λ label w₁ made h₁.
        let ((buf, e), s) = generate_label-eq-ok name w made in
        created_from name g w w₁ s (
          after_on_error _ _ w₁ h₁ (created name label buf g w₁ e) λ d v failed again.
            let (only, rest) =
              if_duplicate-eq-ok (create_appliance_from x app n name g) d v again in
            let same = create_appliance-eq-duplicate name label g w₁ (
              subst (λ e. run (Mariadb.create_appliance name label g) w₁ ≡ (err e, v)) only
                failed) in
            created_from name g w₁ v same (create_appliance_from-Created n name g v rest))
