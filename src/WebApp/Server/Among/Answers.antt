-- ===== src/WebApp/Server/Among/Answers.antt =====
-- What follows the answers of internal/persistence/mariadb/mariadb.go in the handlers, for a request
-- among others.
use appliance_registry.Prelude.{
  ℕ, ◌≡◌, refl, Bool, true, false, not, if◌then◌else◌, Result, ok, err, arith, ◌==◌, Option-cases,
  inl, inr,
}
use appliance_registry.External.{Backend}
use appliance_registry.Persistence.{Appliance, DbError, no_rows, duplicate, unavailable}
use appliance_registry.World.{World, Database}
use appliance_registry.World.Statements
use appliance_registry.World.Statements.{row_of, set_claimed, status_eq}
use appliance_registry.World.Rows.{appliance_of, appliance_of-id}
use appliance_registry.Program.{ret, fail, returned, on_error, guard, select_appliance, ◌>>=◌}
use appliance_registry.Program.Run.{perform}
use appliance_registry.WebApp.{Handler, Failure, lookup_error}
use appliance_registry.WebApp.Server.Among.{Only, only_fail, Doomed, doomed_fail}

abbrev pub some_row_of : Result DbError ℕ → Bool
some_row_of (ok n) = not (n == 0)
some_row_of (err e) = false

pub select-id :
    {b : Backend} (id : ℕ) (w : World b) {a : Appliance}
    → (perform (select_appliance id) w).0 ≡ ok a
    → a.id ≡ id
unfolding perform Statements.select_appliance
select-id id w {a = a} e = elim (Option-cases (appliance_of id w.db)) [
  | inl absent ↦ absurd (ground arith)
  | inr (d, row) ↦ let same = appliance_of-id id w.db row in ground arith
]

-- What follows an answer.
module _ (b : Backend) (I : Database → Type 0) where
  pub looked_up-Only :
      {B : Type 0} (g h : Failure) (f : Appliance → Handler B) (r : Result DbError Appliance)
      → ((a : Appliance) → r ≡ ok a → Only b I (f a))
      → Only b I (on_error (lookup_error g h) (returned r) >>= f)
  unfolding on_error ◌>>=◌
  looked_up-Only g h f (ok a) k = k a refl
  looked_up-Only g h f (err no_rows) k = only_fail g
  looked_up-Only g h f (err duplicate) k = only_fail h
  looked_up-Only g h f (err unavailable) k = only_fail h

  pub looked_up-Doomed :
      {B : Type 0} (g h : Failure) (f : Appliance → Handler B) (r : Result DbError Appliance)
      → ((a : Appliance) → r ≡ ok a → Doomed b I (f a))
      → Doomed b I (on_error (lookup_error g h) (returned r) >>= f)
  unfolding on_error ◌>>=◌
  looked_up-Doomed g h f (ok a) k = k a refl
  looked_up-Doomed g h f (err no_rows) k = doomed_fail g
  looked_up-Doomed g h f (err duplicate) k = doomed_fail h
  looked_up-Doomed g h f (err unavailable) k = doomed_fail h

  pub guard-Doomed :
      {B : Type 0} (p : Bool) (e : Failure) (f : Unit {0} → Handler B)
      → p ≡ false
      → Doomed b I (guard p e >>= f)
  unfolding ◌>>=◌
  guard-Doomed true e f h = absurd (ground arith)
  guard-Doomed false e f h = doomed_fail e

  refused-Only :
      (e : Failure) (p : Bool)
      → not p ≡ false
      → Only b I (on_error (λ _. fail e) (if p then fail no_rows else ret tt))
  unfolding on_error
  refused-Only e true h = only_fail e
  refused-Only e false h = absurd (ground arith)

  pub unmarked-Only :
      (e : Failure) (r : Result DbError ℕ)
      → some_row_of r ≡ false
      → Only b I
          (on_error (λ _. fail e) (returned r >>= λ n. if n == 0 then fail no_rows else ret tt))
  unfolding on_error ◌>>=◌
  unmarked-Only e (ok n) h = refused-Only e (n == 0) h
  unmarked-Only e (err d) h = only_fail e
