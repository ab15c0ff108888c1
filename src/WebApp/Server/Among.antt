-- ===== src/WebApp/Server/Among.antt =====
-- A request of main.go's server among others: between its calls, other requests make theirs.
pub mod Answers
use appliance_registry.Prelude.{
  ◌≡◌, arith, Result, ok, err, Bool, true, false, Bool-cases, inl, inr,
}
use appliance_registry.External.{Backend}
use appliance_registry.World.{World, Database}
use appliance_registry.Program.{Op, Answer, Prog, ret, fail, call, ◌>>=◌}
use appliance_registry.Program.Run.{perform, run}
use appliance_registry.Program.Footprint.{Uses, uses_call}

module _ (Q : Op → Type 0) {b : Backend} {E A : Type 0} where
  -- From what is left of the request and the world to what is left later, and the world then. The
  -- others make any calls of `Q`.
  pub data Among : Prog E A → World b → Prog E A → World b → Type 0 where
    stays : (m : Prog E A) (w : World b) → Among m w m w
    own :
        (o : Op) (k : Answer o → Prog E A) (w : World b) (n : Prog E A) (v : World b)
        → Among (k (perform o w).0) (perform o w).1 n v
        → Among (call o k) w n v
    other :
        (o : Op) (m : Prog E A) (w : World b) (n : Prog E A) (v : World b)
        → Q o
        → Among m (perform o w).1 n v
        → Among m w n v

-- A request that has the server to itself.
abbrev pub ended : {E A : Type 0} → Result E A → Prog E A
ended (ok a) = ret a
ended (err e) = fail e

pub Among-run :
    {Q : Op → Type 0} {b : Backend} {E A : Type 0} (m : Prog E A) (w : World b)
    → Among Q m w (ended (run m w).0) (run m w).1
unfolding run
Among-run (ret a) w = stays (ret a) w
Among-run (fail e) w = stays (fail e) w
Among-run (call o k) w = own o k w _ _ (Among-run (k (perform o w).0) (perform o w).1)

module _ (b : Backend) (I : Database → Type 0) where
  -- The program returns a result only after a moment at which `I` holds: `now` tells where that is
  -- the moment after the next call.
  pub data Only {E A : Type 0} : Prog E A → Type 0 where
    only_fail : (e : E) → Only (fail e)
    only_call :
        (o : Op) (k : Answer o → Prog E A)
        → (now : World b → Bool) → ((w : World b) → now w ≡ true → I (perform o w).1.db)
        → ((w : World b) → now w ≡ false → Only (k (perform o w).0))
        → Only (call o k)

  -- Started where `I` holds, and as long as it holds, the program returns no result.
  pub data Doomed {E A : Type 0} : Prog E A → Type 0 where
    doomed_fail : (e : E) → Doomed (fail e)
    doomed_call :
        (o : Op) (k : Answer o → Prog E A)
        → ((w : World b) → I w.db → Doomed (k (perform o w).0))
        → Doomed (call o k)

  module _ {E A B : Type 0} where
    pub Only->>= : {m : Prog E A} (f : A → Prog E B) → Only m → Only (m >>= f)
    unfolding ◌>>=◌
    Only->>= f (only_fail e) = only_fail e
    Only->>= f (only_call o k now i h) = only_call o _ now i (λ w e. Only->>= f (h w e))

    pub Only-after : (m : Prog E A) {f : A → Prog E B} → ((a : A) → Only (f a)) → Only (m >>= f)
    unfolding ◌>>=◌
    Only-after (ret a) h = h a
    Only-after (fail e) h = only_fail e
    Only-after (call o k) h =
        only_call o _ (λ _. false) (λ w e. absurd (ground arith))
          λ w _. Only-after (k (perform o w).0) h

    pub Doomed->>= : {m : Prog E A} (f : A → Prog E B) → Doomed m → Doomed (m >>= f)
    unfolding ◌>>=◌
    Doomed->>= f (doomed_fail e) = doomed_fail e
    Doomed->>= f (doomed_call o k h) = doomed_call o _ λ w i. Doomed->>= f (h w i)

    pub Doomed-after :
        (m : Prog E A) {f : A → Prog E B} → ((a : A) → Doomed (f a)) → Doomed (m >>= f)
    unfolding ◌>>=◌
    Doomed-after (ret a) h = h a
    Doomed-after (fail e) h = doomed_fail e
    Doomed-after (call o k) h = doomed_call o _ λ w _. Doomed-after (k (perform o w).0) h

  module _ (Q : Op → Type 0) (keeps : (o : Op) (w : World b) → Q o → I w.db → I (perform o w).1.db)
      {E A : Type 0} where
    Among-keeps : {m n : Prog E A} {w v : World b} → Among Q m w n v → Uses Q m → I w.db → I v.db
    Among-keeps (stays m w) q i = i
    Among-keeps (own o k w n v rest) (uses_call _ _ e u) i =
        Among-keeps rest (u (perform o w).0) (keeps o w e i)
    Among-keeps (other o m w n v e rest) q i = Among-keeps rest q (keeps o w e i)

    pub Among-Only :
        {m : Prog E A} {a : A} {w v : World b} → Among Q m w (ret a) v → Uses Q m → Only m → I v.db
    Among-Only (stays m w) q h = elim h [ ]
    Among-Only (own o k w n v rest) (uses_call _ _ e u) (only_call _ _ now i h) =
        elim (Bool-cases (now w)) [
          | inl reached ↦ Among-keeps rest (u (perform o w).0) (i w reached)
          | inr before ↦ Among-Only rest (u (perform o w).0) (h w before)
        ]
    Among-Only (other o m w n v e rest) q h = Among-Only rest q h

    pub Among-Doomed :
        {m : Prog E A} {a : A} {w v : World b}
        → Among Q m w (ret a) v
        → Uses Q m
        → Doomed m
        → I w.db
        → ⊥
    Among-Doomed (stays m w) q h i = elim h [ ]
    Among-Doomed (own o k w n v rest) (uses_call _ _ e u) (doomed_call _ _ h) i =
        Among-Doomed rest (u (perform o w).0) (h w i) (keeps o w e i)
    Among-Doomed (other o m w n v e rest) q h i = Among-Doomed rest q h (keeps o w e i)
