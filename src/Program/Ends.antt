-- ===== src/Program/Ends.antt =====
-- Rules for a program that may end with some errors, and with no others.
use appliance_registry.Prelude.{◌≡◌, refl, sym, subst, Result, ok, err, Bool, true, false}
use appliance_registry.External.{Backend}
use appliance_registry.World.{World}
use appliance_registry.Program.{Prog, ret, fail, ◌>>=◌, on_error, guard}
use appliance_registry.Program.Run.{run}
use appliance_registry.Program.Rules.{run->>=, run-on_error, resume, rescue}
use appliance_registry.Program.Success.{Succeeds, Returns}

abbrev pub Outcome :
    {b : Backend} {E A : Type 0} (Q : E → Type 0) (P : A → World b → Type 0)
    → Result E A × World b
    → Type 0
Outcome Q P (ok a, v) = P a v
Outcome Q P (err e, v) = Q e

-- The program ends with an error of `Q`, or with a value and a world of `P`.
pub record Ends {b : Backend} {E A : Type 0} (m : Prog E A) (w : World b) (Q : E → Type 0)
    (P : A → World b → Type 0) : Type 0 where
  pub outcome : Outcome Q P (run m w)

module _ {b : Backend} {E A : Type 0} {Q : E → Type 0} {P : A → World b → Type 0} where
  pub ends_with :
      (m : Prog E A) (w : World b) (r : Result E A × World b)
      → run m w ≡ r
      → Outcome Q P r
      → Ends m w Q P
  ends_with m w r e o = record { outcome = subst (Outcome Q P) (sym e) o }

  pub ends_ret : (a : A) (w : World b) → P a w → Ends (ret a) w Q P
  unfolding run
  ends_ret a w p = record { outcome = p }

  pub ends_fail : (e : E) (w : World b) → Q e → Ends (fail e) w Q P
  unfolding run
  ends_fail e w q = record { outcome = q }

  pub ends_Succeeds : {m : Prog E A} {w : World b} → Succeeds m w P → Ends m w Q P
  ends_Succeeds {m = m} {w = w} s = ends_with m w (ok s.value, s.after) s.runs s.holds

module _ {b : Backend} {E A : Type 0} {a : A} {Q : E → Type 0} {P : World b → Type 0} where
  pub ends_Returns :
      {m : Prog E A} {w : World b} → Returns m w a P → Ends m w Q (λ c v. (c ≡ a) × P v)
  ends_Returns {m = m} {w = w} s = ends_with m w (ok a, s.after) s.runs (refl, s.holds)

module _ {b : Backend} {E A B : Type 0} {Q : E → Type 0} {P : A → World b → Type 0}
    {R : B → World b → Type 0} where
  Outcome-resume :
      (f : A → Prog E B) (r : Result E A × World b)
      → Outcome Q P r
      → ((a : A) (v : World b) → P a v → Ends (f a) v Q R)
      → Outcome Q R (resume f r)
  Outcome-resume f (ok a, v) o k = let rest = k a v o in rest.outcome
  Outcome-resume f (err e, v) o k = o

  pub ends_then :
      {m : Prog E A} {f : A → Prog E B} {w : World b}
      → Ends m w Q P
      → ((a : A) (v : World b) → P a v → Ends (f a) v Q R)
      → Ends (m >>= f) w Q R
  ends_then {m = m} {f = f} {w = w} s k =
      ends_with (m >>= f) w (resume f (run m w)) (run->>= m f w)
        (Outcome-resume f (run m w) s.outcome k)

module _ {b : Backend} {D E A : Type 0} {S : D → Type 0} {Q : E → Type 0}
    {P : A → World b → Type 0} where
  Outcome-rescue :
      (h : D → Prog E A) (r : Result D A × World b)
      → Outcome S P r
      → ((d : D) (v : World b) → S d → Ends (h d) v Q P)
      → Outcome Q P (rescue h r)
  Outcome-rescue h (ok a, v) o k = o
  Outcome-rescue h (err d, v) o k = let rest = k d v o in rest.outcome

  pub ends_on_error :
      {h : D → Prog E A} {m : Prog D A} {w : World b}
      → Ends m w S P
      → ((d : D) (v : World b) → S d → Ends (h d) v Q P)
      → Ends (on_error h m) w Q P
  ends_on_error {h = h} {m = m} {w = w} s k =
      ends_with (on_error h m) w (rescue h (run m w)) (run-on_error h m w)
        (Outcome-rescue h (run m w) s.outcome k)

module _ {b : Backend} {E A : Type 0} where
  Outcome-either : (r : Result E A × World b) → Outcome (λ _. Unit {0}) (λ _ _. Unit {0}) r
  Outcome-either (ok a, v) = tt
  Outcome-either (err e, v) = tt

  -- Nothing is known of how the program ends.
  pub ends_any : (m : Prog E A) (w : World b) → Ends m w (λ _. Unit {0}) (λ _ _. Unit {0})
  ends_any m w = record { outcome = Outcome-either (run m w) }

module _ {b : Backend} {E : Type 0} {Q : E → Type 0} where
  pub ends_guard :
      (p : Bool) (e : E) (w : World b) → Q e → Ends (guard p e) w Q (λ _ v. (p ≡ true) × (v ≡ w))
  unfolding run
  ends_guard true e w q = record { outcome = (refl, refl) }
  ends_guard false e w q = record { outcome = q }
