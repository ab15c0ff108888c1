-- ===== src/Program/Rules.antt =====
-- Rules for a program that runs on its own: a sequence of two, an error that is handled, and what the
-- single calls keep.
use appliance_registry.Prelude.{subst, ◌≡◌, refl, Result, ok, err, arith}
use appliance_registry.External.{Backend}
use appliance_registry.World.{World}
use appliance_registry.Program.{Op, Prog, ret, fail, call, ◌>>=◌, on_error}
use appliance_registry.Program.Run.{perform, run}

abbrev pub IsFail : {E A : Type 0} → Prog E A → Type 0
IsFail (ret a) = ⊥
IsFail (fail e) = Unit
IsFail (call o k) = ⊥

module _ {b : Backend} {E A B : Type 0} where
  -- What follows a first part, from where it ended.
  abbrev pub resume : (A → Prog E B) → Result E A × World b → Result E B × World b
  resume f (ok a, w) = run (f a) w
  resume f (err e, w) = (err e, w)

  pub run->>= :
      (m : Prog E A) (f : A → Prog E B) (w : World b) → run (m >>= f) w ≡ resume f (run m w)
  unfolding run ◌>>=◌
  run->>= (ret a) f w = refl
  run->>= (fail e) f w = refl
  run->>= (call o k) f w = run->>= (k (perform o w).0) f (perform o w).1

  resume-eq-ok :
      (f : A → Prog E B) (r : Result E A × World b) {c : B} {w : World b}
      → resume f r ≡ (ok c, w)
      → (a : A) × (v : World b) × (r ≡ (ok a, v)) × (run (f a) v ≡ (ok c, w))
  resume-eq-ok f (ok a, v) h = (a, v, refl, h)
  resume-eq-ok f (err e, v) h = cc

  pub >>=-eq-ok :
      (m : Prog E A) (f : A → Prog E B) (w : World b) {c : B} {w' : World b}
      → run (m >>= f) w ≡ (ok c, w')
      → (a : A) × (v : World b) × (run m w ≡ (ok a, v)) × (run (f a) v ≡ (ok c, w'))
  >>=-eq-ok m f w h = resume-eq-ok f (run m w) (rw run->>= at h)

module _ {b : Backend} {E A : Type 0} where
  run_of_IsFail :
      (m : Prog E A) (w : World b) {a : A} {w' : World b} → IsFail m → run m w ≡ (ok a, w') → ⊥
  unfolding run
  run_of_IsFail (ret a) w i h = i
  run_of_IsFail (fail e) w i h = cc
  run_of_IsFail (call o k) w i h = i

module _ {b : Backend} {D E A : Type 0} where
  abbrev pub rescue : (D → Prog E A) → Result D A × World b → Result E A × World b
  rescue h (ok a, w) = (ok a, w)
  rescue h (err e, w) = run (h e) w

  pub run-on_error :
      (h : D → Prog E A) (m : Prog D A) (w : World b) → run (on_error h m) w ≡ rescue h (run m w)
  unfolding run on_error
  run-on_error h (ret a) w = refl
  run-on_error h (fail e) w = refl
  run-on_error h (call o k) w = run-on_error h (k (perform o w).0) (perform o w).1

  rescue-eq-ok :
      (h : D → Prog E A) (r : Result D A × World b) {a : A} {w : World b}
      → ((e : D) → IsFail (h e))
      → rescue h r ≡ (ok a, w)
      → r ≡ (ok a, w)
  rescue-eq-ok h (ok a, v) i p = ground arith
  rescue-eq-ok h (err e, v) i p = absurd (run_of_IsFail (h e) v (i e) p)

  -- Where each error ends the request, a result is that of the part.
  pub on_error-eq-ok :
      (h : D → Prog E A) (m : Prog D A) (w : World b) {a : A} {w' : World b}
      → ((e : D) → IsFail (h e))
      → run (on_error h m) w ≡ (ok a, w')
      → run m w ≡ (ok a, w')
  on_error-eq-ok h m w i p = rescue-eq-ok h (run m w) i (rw run-on_error at p)

module _ {b : Backend} {E A : Type 0} where
  -- What holds of the value and the world that a program ends with.
  pub after_ret :
      (P : A → World b → Type 0) (a : A) (w : World b) {c : A} {w' : World b}
      → run {E = E} {A = A} (ret a) w ≡ (ok c, w')
      → P a w
      → P c w'
  unfolding run
  after_ret P a w {c} {w'} h p =
      let same : a ≡ c = ground arith in
      let there : w ≡ w' = ground arith in subst (λ v. P c v) there (subst (λ d. P d w) same p)

-- The same, for what follows: what a first part returned is a variable of it.
module _ {b : Backend} {E A B : Type 0} {G : Type 0} where
  pub after_ok :
      (m : Prog E A) (f : A → Prog E B) (w : World b) {c : B} {w' : World b}
      → run (m >>= f) w ≡ (ok c, w')
      → ((a : A) (v : World b) → run m w ≡ (ok a, v) → run (f a) v ≡ (ok c, w') → G)
      → G
  after_ok m f w h k = let (a, v, e, r) = >>=-eq-ok m f w h in k a v e r

  pub after_handled :
      {D : Type 0} (h : D → Prog E A) (m : Prog D A) (f : A → Prog E B) (w : World b) {c : B}
      {w' : World b}
      → run (on_error h m >>= f) w ≡ (ok c, w')
      → ((e : D) → IsFail (h e))
      → ((a : A) (v : World b) → run m w ≡ (ok a, v) → run (f a) v ≡ (ok c, w') → G)
      → G
  after_handled h m f w p i k =
      after_ok (on_error h m) f w p λ a v e r. k a v (on_error-eq-ok h m w i e) r

-- The same for any outcome: the first part has failed, or the rest has gone on.
module _ {b : Backend} {E A B : Type 0} {G : Type 0} where
  resume-cases :
      (f : A → Prog E B) (p : Result E A × World b) {r : Result E B} {w' : World b}
      → resume f p ≡ (r, w')
      → ((e : E) → p ≡ (err e, w') → r ≡ err e → G)
      → ((a : A) (v : World b) → p ≡ (ok a, v) → run (f a) v ≡ (r, w') → G)
      → G
  resume-cases f (ok a, v) h failed went_on = went_on a v refl h
  resume-cases f (err e, v) h failed went_on = failed e (ground arith) (ground arith)

  pub after_either :
      (m : Prog E A) (f : A → Prog E B) (w : World b) {r : Result E B} {w' : World b}
      → run (m >>= f) w ≡ (r, w')
      → ((e : E) → run m w ≡ (err e, w') → r ≡ err e → G)
      → ((a : A) (v : World b) → run m w ≡ (ok a, v) → run (f a) v ≡ (r, w') → G)
      → G
  after_either m f w h failed went_on = resume-cases f (run m w) (rw run->>= at h) failed went_on

module _ {b : Backend} {D E A : Type 0} {G : Type 0} where
  rescue-cases :
      (g : E) (p : Result D A × World b) {e : E} {w' : World b}
      → rescue (λ _. fail g) p ≡ (err e, w')
      → ((d : D) → p ≡ (err d, w') → e ≡ g → G)
      → G
  unfolding run
  rescue-cases g (ok a, v) h k = absurd (ground arith)
  rescue-cases g (err d, v) h k = k d (ground arith) (ground arith)

  pub or_fail-eq-err :
      (g : E) (m : Prog D A) (w : World b) {e : E} {w' : World b}
      → run (on_error (λ _. fail g) m) w ≡ (err e, w')
      → ((d : D) → run m w ≡ (err d, w') → e ≡ g → G)
      → G
  or_fail-eq-err g m w h k = rescue-cases g (run m w) (rw run-on_error at h) k

module _ {b : Backend} {D E A : Type 0} {G : Type 0} where
  handled-cases :
      (h : D → Prog E A) (p : Result D A × World b) {a : A} {w' : World b}
      → rescue h p ≡ (ok a, w')
      → (p ≡ (ok a, w') → G)
      → ((d : D) (v : World b) → p ≡ (err d, v) → run (h d) v ≡ (ok a, w') → G)
      → G
  handled-cases h (ok a, v) e k l = k (ground arith)
  handled-cases h (err d, v) e k l = l d v refl e

  -- A result behind a handler: of the part itself, or of what its error led to.
  pub after_on_error :
      (h : D → Prog E A) (m : Prog D A) (w : World b) {a : A} {w' : World b}
      → run (on_error h m) w ≡ (ok a, w')
      → (run m w ≡ (ok a, w') → G)
      → ((d : D) (v : World b) → run m w ≡ (err d, v) → run (h d) v ≡ (ok a, w') → G)
      → G
  after_on_error h m w e k l = handled-cases h (run m w) (rw run-on_error at e) k l

-- A part that ends with an error has no result, whatever goes before.
pub not-ok-before-fail :
    {b : Backend} {E A B : Type 0} (m : Prog E A) (f : E) (w : World b) {c : B} {w' : World b}
    → run (m >>= λ _. fail f) w ≡ (ok c, w')
    → ⊥
unfolding run
not-ok-before-fail m f w h = after_ok m (λ _. fail f) w h λ a v e r. ground arith

module _ {b : Backend} (P : World b → Type 0) where
  -- What every call keeps, every program keeps.
  pub run-keeps :
      ((o : Op) (w : World b) → P w → P (perform o w).1)
      → {E A : Type 0} (m : Prog E A) (w : World b) → P w
      → P (run m w).1
  unfolding run
  run-keeps step (ret a) w h = h
  run-keeps step (fail e) w h = h
  run-keeps step (call o k) w h = run-keeps step (k (perform o w).0) (perform o w).1 (step o w h)
