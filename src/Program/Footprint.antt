-- ===== src/Program/Footprint.antt =====
-- Which calls a program can make, whatever the answers to them.
use appliance_registry.External.{Backend}
use appliance_registry.World.{World}
use appliance_registry.Program.{Op, Answer, Prog, ret, fail, call, returned, ◌>>=◌, on_error, guard}
use appliance_registry.Program.Run.{perform, run}
use appliance_registry.Prelude.{Result, ok, err, Bool, if◌then◌else◌}

module _ (Q : Op → Type 0) where
  -- Every call of the program is in `Q`.
  pub data Uses {E A : Type 0} : Prog E A → Type 0 where
    uses_ret : (a : A) → Uses (ret a)
    uses_fail : (e : E) → Uses (fail e)
    uses_call :
        (o : Op) (k : Answer o → Prog E A) → Q o → ((r : Answer o) → Uses (k r)) → Uses (call o k)

  pub Uses->>= :
      {E A B : Type 0} {m : Prog E A} {f : A → Prog E B}
      → Uses m
      → ((a : A) → Uses (f a))
      → Uses (m >>= f)
  unfolding ◌>>=◌
  Uses->>= (uses_ret a) g = g a
  Uses->>= (uses_fail e) g = uses_fail e
  Uses->>= (uses_call o k q u) g = uses_call o _ q (λ r. Uses->>= (u r) g)

  pub Uses-on_error :
      {D E A : Type 0} {h : D → Prog E A} {m : Prog D A}
      → ((e : D) → Uses (h e))
      → Uses m
      → Uses (on_error h m)
  unfolding on_error
  Uses-on_error g (uses_ret a) = uses_ret a
  Uses-on_error g (uses_fail e) = g e
  Uses-on_error g (uses_call o k q u) = uses_call o _ q (λ r. Uses-on_error g (u r))

  pub Uses-guard : {E : Type 0} (p : Bool) (e : E) → Uses (guard p e)
  Uses-guard Bool.true e = uses_ret tt
  Uses-guard Bool.false e = uses_fail e

  pub Uses-if :
      {E A : Type 0} (p : Bool) {m n : Prog E A} → Uses m → Uses n → Uses (if p then m else n)
  Uses-if Bool.true u v = u
  Uses-if Bool.false u v = v

  pub Uses-returned : {E A : Type 0} (r : Result E A) → Uses (returned r)
  Uses-returned (ok a) = uses_ret a
  Uses-returned (err e) = uses_fail e

  -- What every call of `Q` keeps, a program that makes no other keeps.
  pub run-Uses :
      {b : Backend} (P : World b → Type 0)
      → ((o : Op) (w : World b) → Q o → P w → P (perform o w).1)
      → {E A : Type 0} {m : Prog E A} → Uses m
      → (w : World b) → P w
      → P (run m w).1
  unfolding run
  run-Uses P step (uses_ret a) w h = h
  run-Uses P step (uses_fail e) w h = h
  run-Uses P step (uses_call o k q u) w h =
      run-Uses P step (u (perform o w).0) (perform o w).1 (step o w q h)
