-- ===== src/Program/Success.antt =====
-- Rules for a program that is to return a result.
use appliance_registry.Prelude.{◌≡◌, refl, ap, ◌∙◌, ok, Bool, true, Option, some}
use appliance_registry.External.{Backend}
use appliance_registry.World.{World}
use appliance_registry.Program.{Prog, ret, ◌>>=◌, on_error, guard}
use appliance_registry.Program.Run.{run}
use appliance_registry.Program.Rules.{run->>=, run-on_error, resume, rescue}

-- The program returns a value, and what holds of it and of the world then.
pub record Succeeds {b : Backend} {E A : Type 0} (m : Prog E A) (w : World b)
    (P : A → World b → Type 0) : Type 0 where
  pub value : A
  pub after : World b
  pub runs : run m w ≡ (ok value, after)
  pub holds : P value after

-- The same, with the value that is returned.
pub record Returns {b : Backend} {E A : Type 0} (m : Prog E A) (w : World b) (a : A)
    (P : World b → Type 0) : Type 0 where
  pub after : World b
  pub runs : run m w ≡ (ok a, after)
  pub holds : P after

module _ {b : Backend} {E A B : Type 0} where
  pub then_returns :
      {m : Prog E A} (f : A → Prog E B) {w : World b} {a : A} {P : World b → Type 0}
      {Q : B → World b → Type 0}
      → Returns m w a P
      → ((v : World b) → P v → Succeeds (f a) v Q)
      → Succeeds (m >>= f) w Q
  then_returns {m = m} f {w = w} s k =
      let t = k s.after s.holds in
      record {
        value = t.value;
        after = t.after;
        runs = run->>= m f w ∙ ap (resume f) s.runs ∙ t.runs;
        holds = t.holds;
      }

  pub then_succeeds :
      {m : Prog E A} {f : A → Prog E B} {w : World b} {P : A → World b → Type 0}
      {Q : B → World b → Type 0}
      → Succeeds m w P
      → ((a : A) (v : World b) → P a v → Succeeds (f a) v Q)
      → Succeeds (m >>= f) w Q
  then_succeeds {m = m} {f = f} {w = w} s k =
      let t = k s.value s.after s.holds in
      record {
        value = t.value;
        after = t.after;
        runs = run->>= m f w ∙ ap (resume f) s.runs ∙ t.runs;
        holds = t.holds;
      }

module _ {b : Backend} {D E A : Type 0} where
  pub handled_returns :
      (h : D → Prog E A) {m : Prog D A} {w : World b} {a : A} {P : World b → Type 0}
      → Returns m w a P
      → Returns (on_error h m) w a P
  handled_returns h {m = m} {w = w} s = record {
    after = s.after;
    runs = run-on_error h m w ∙ ap (rescue h) s.runs;
    holds = s.holds;
  }

  pub handled_succeeds :
      (h : D → Prog E A) {m : Prog D A} {w : World b} {P : A → World b → Type 0}
      → Succeeds m w P
      → Succeeds (on_error h m) w P
  handled_succeeds h {m = m} {w = w} s = record {
    value = s.value;
    after = s.after;
    runs = run-on_error h m w ∙ ap (rescue h) s.runs;
    holds = s.holds;
  }

module _ {b : Backend} {E : Type 0} where
  pub ret_succeeds :
      {A : Type 0} (a : A) (w : World b) {P : A → World b → Type 0}
      → P a w
      → Succeeds {E = E} (ret a) w P
  unfolding run
  ret_succeeds a w p = record { value = a; after = w; runs = refl; holds = p }

  pub required_returns :
      {A : Type 0} (f : Option A → Prog E A) {a : A} (o : Option A) (w : World b)
      → ((c : A) → f (some c) ≡ ret c)
      → o ≡ some a
      → Returns (f o) w a (λ v. v ≡ w)
  unfolding run
  required_returns f {a = a} o w h e = record {
    after = w;
    runs = ap (λ t. run (f t) w) e ∙ ap (λ m. run m w) (h a);
    holds = refl;
  }

  pub guard_succeeds :
      (p : Bool) (e : E) (w : World b) {P : Unit {0} → World b → Type 0}
      → p ≡ true
      → P tt w
      → Succeeds (guard p e) w P
  unfolding run
  guard_succeeds p e w h q = record {
    value = tt;
    after = w;
    runs = ap (λ t. run (guard t e) w) h;
    holds = q;
  }
