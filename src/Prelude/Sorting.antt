-- ===== src/Prelude/Sorting.antt =====
-- What `sort_by` and `keep` do with elements and their order.
use Prim.Native.Nat.{ℕ, ◌≤◌}
use mathlib.Core.Path.{◌≡◌}
use mathlib.Core.Bool.{Bool, true}
use mathlib.Core.List.{List, [], ◌∷◌, Perm}
use mathlib.Core.List.Perm
use native.Mathlib.Omega.{arith}
use appliance_registry.Prelude.Tests.{leb, by_test}
use appliance_registry.Prelude.Lists.{All, keep, insert_by, sort_by}

module _ {ℓ} {A : Type ℓ} (key : A → ℕ) where
  -- Every element comes before those with larger keys.
  abbrev pub IsOrdered : List A → Type 0
  IsOrdered [] = Unit
  IsOrdered (x ∷ xs) = All (λ y. key x ≤ key y) xs × IsOrdered xs

  insert_by-Perm : (x : A) (xs : List A) → Perm (insert_by key x xs) (x ∷ xs)
  unfolding insert_by
  insert_by-Perm x [] = Perm.refl _
  insert_by-Perm x (y ∷ ys) =
      by_test (λ zs. Perm zs (x ∷ y ∷ ys)) (leb (key x) (key y)) (λ _. Perm.refl _)
        (λ _. Perm.trans (Perm.cons y (insert_by-Perm x ys)) (Perm.swap x y ys))

  pub sort_by-Perm : (xs : List A) → Perm (sort_by key xs) xs
  unfolding sort_by
  sort_by-Perm [] = Perm.refl _
  sort_by-Perm (x ∷ xs) =
      Perm.trans (insert_by-Perm x (sort_by key xs)) (Perm.cons x (sort_by-Perm xs))

  module _ (P : A → Type 0) where
    All-insert_by : (x : A) (xs : List A) → P x → All P xs → All P (insert_by key x xs)
    unfolding insert_by
    All-insert_by x [] p u = (p, tt)
    All-insert_by x (y ∷ ys) p (q, u) =
        by_test (All P) (leb (key x) (key y)) (λ _. (p, (q, u))) (λ _. (q, All-insert_by x ys p u))

    pub All-sort_by : (xs : List A) → All P xs → All P (sort_by key xs)
    unfolding sort_by
    All-sort_by [] u = tt
    All-sort_by (x ∷ xs) (p, u) = All-insert_by x (sort_by key xs) p (All-sort_by xs u)

  All-le :
      (x y : A) (ys : List A)
      → key x ≤ key y
      → All (λ z. key y ≤ key z) ys
      → All (λ z. key x ≤ key z) ys
  All-le x y [] h u = tt
  All-le x y (z ∷ ys) h (q, u) = (omega (arith, h, q), All-le x y ys h u)

  insert_by-IsOrdered : (x : A) (xs : List A) → IsOrdered xs → IsOrdered (insert_by key x xs)
  unfolding insert_by
  insert_by-IsOrdered x [] h = (tt, tt)
  insert_by-IsOrdered x (y ∷ ys) (u, h) =
      by_test IsOrdered (leb (key x) (key y))
        (λ e. let low : key x ≤ key y = ground arith in ((low, All-le x y ys low u), (u, h)))
        (λ e.
          (All-insert_by (λ z. key y ≤ key z) x ys (ground arith) u, insert_by-IsOrdered x ys h))

  pub sort_by-IsOrdered : (xs : List A) → IsOrdered (sort_by key xs)
  unfolding sort_by
  sort_by-IsOrdered [] = tt
  sort_by-IsOrdered (x ∷ xs) = insert_by-IsOrdered x (sort_by key xs) (sort_by-IsOrdered xs)

-- What passes the test of `keep`.
pub All-kept {ℓ} :
    {A : Type ℓ} (P : A → Type 0) (p : A → Bool) (xs : List A)
    → ((x : A) → p x ≡ true → P x)
    → All P (keep p xs)
unfolding keep
All-kept P p [] h = tt
All-kept P p (x ∷ xs) h =
    by_test (All P) (p x) (λ e. (h x e, All-kept P p xs h)) (λ _. All-kept P p xs h)
