-- ===== src/Program/Steps.antt =====
-- How many calls a program can make, whatever the answers to them.
use appliance_registry.Prelude.{ℕ, zero, suc, ◌+◌, ◌≤◌, Bool, Result, ok, err, arith, if◌then◌else◌}
use appliance_registry.Program.{Op, Answer, Prog, ret, fail, call, returned, ◌>>=◌, on_error, guard}

-- At most so many calls on every path.
pub data AtMost {E A : Type 0} : ℕ → Prog E A → Type 0 where
  at_ret : (n : ℕ) (a : A) → AtMost n (ret a)
  at_fail : (n : ℕ) (e : E) → AtMost n (fail e)
  at_call :
      (n : ℕ) (o : Op) (k : Answer o → Prog E A)
      → ((r : Answer o) → AtMost n (k r))
      → AtMost (suc n) (call o k)

pub AtMost-le : {E A : Type 0} {m : Prog E A} {n : ℕ} (k : ℕ) → AtMost n m → n ≤ k → AtMost k m
AtMost-le k (at_ret n a) h = at_ret k a
AtMost-le k (at_fail n e) h = at_fail k e
AtMost-le zero (at_call n o f u) h = absurd (omega (arith, h))
AtMost-le (suc k) (at_call n o f u) h = at_call k o f (λ r. AtMost-le k (u r) (omega (arith, h)))

pub AtMost->>= :
    {E A B : Type 0} {n k : ℕ} {m : Prog E A} {f : A → Prog E B}
    → AtMost n m
    → ((a : A) → AtMost k (f a))
    → AtMost (n + k) (m >>= f)
unfolding ◌>>=◌
AtMost->>= {n = n} {k = k} (at_ret _ a) g = AtMost-le (n + k) (g a) (omega arith)
AtMost->>= {n = n} {k = k} (at_fail _ e) g = at_fail (n + k) e
AtMost->>= {n = suc n} {k = k} (at_call _ o f u) g =
    AtMost-le (suc n + k) (at_call (n + k) o _ (λ r. AtMost->>= {n = n} {k = k} (u r) g))
      (omega arith)

pub AtMost-on_error :
    {D E A : Type 0} {n k : ℕ} {h : D → Prog E A} {m : Prog D A}
    → AtMost n m
    → ((e : D) → AtMost k (h e))
    → AtMost (n + k) (on_error h m)
unfolding on_error
AtMost-on_error {n = n} {k = k} (at_ret _ a) g = at_ret (n + k) a
AtMost-on_error {n = n} {k = k} (at_fail _ e) g = AtMost-le (n + k) (g e) (omega arith)
AtMost-on_error {n = suc n} {k = k} (at_call _ o f u) g =
    AtMost-le (suc n + k) (at_call (n + k) o _ (λ r. AtMost-on_error {n = n} {k = k} (u r) g))
      (omega arith)

pub AtMost-guard : {E : Type 0} (p : Bool) (e : E) → AtMost 0 (guard p e)
AtMost-guard Bool.true e = at_ret 0 tt
AtMost-guard Bool.false e = at_fail 0 e

pub AtMost-if :
    {E A : Type 0} {n : ℕ} (p : Bool) {m l : Prog E A}
    → AtMost n m
    → AtMost n l
    → AtMost n (if p then m else l)
AtMost-if Bool.true u v = u
AtMost-if Bool.false u v = v

pub AtMost-returned : {E A : Type 0} (r : Result E A) → AtMost 0 (returned r)
AtMost-returned (ok a) = at_ret 0 a
AtMost-returned (err e) = at_fail 0 e

-- One call, and its answer.
pub AtMost-call :
    {E A : Type 0} {n : ℕ} (o : Op) {k : Answer o → Prog E A}
    → ((r : Answer o) → AtMost n (k r))
    → AtMost (1 + n) (call o k)
AtMost-call {n = n} o u = AtMost-le (1 + n) (at_call n o _ u) (omega arith)

-- An error for which nothing more is done, and one that is dropped.
module _ {D E A : Type 0} {n : ℕ} {m : Prog D A} where
  pub AtMost-or_fail : (e : E) → AtMost n m → AtMost n (on_error (λ _. fail e) m)
  AtMost-or_fail e u = AtMost-le n (AtMost-on_error u (λ _. at_fail 0 e)) (omega arith)

  pub AtMost-ignored : (a : A) → AtMost n m → AtMost n (on_error {E = E} (λ _. ret a) m)
  AtMost-ignored a u = AtMost-le n (AtMost-on_error u (λ _. at_ret 0 a)) (omega arith)
