-- ===== src/World/Keys.antt =====
-- Lists without two elements under one key, along the changes that the statements make.
use appliance_registry.Prelude.{
  ◌≡◌, refl, sym, subst, Bool, true, false, not, none, List, [], ◌∷◌, ◌++◌, arith, find, keep,
  amend, All, if◌then◌else◌,
}
use mathlib.Core.Path.{fun_ext}
use appliance_registry.World.Rows.{find-keep-not}

module _ {ℓ} {A : Type ℓ} where
  -- `p x y`: the two have the same key.
  abbrev pub IsDistinct : (A → A → Bool) → List A → Type ℓ
  IsDistinct p [] = Unit
  IsDistinct p (x ∷ xs) = (find (p x) xs ≡ none) × IsDistinct p xs

  pub find-keep-none : (p q : A → Bool) (xs : List A) → find p xs ≡ none → find p (keep q xs) ≡ none
  unfolding find keep
  find-keep-none p q [] h = h
  find-keep-none p q (x ∷ xs) h = ground (arith, find-keep-none p q xs)

  IsDistinct-if :
      (p : A → A → Bool) (b : Bool) (xs ys : List A)
      → IsDistinct p xs
      → IsDistinct p ys
      → IsDistinct p (if b then xs else ys)
  IsDistinct-if p true xs ys u v = u
  IsDistinct-if p false xs ys u v = v

  pub IsDistinct-keep :
      (p : A → A → Bool) (q : A → Bool) (xs : List A) → IsDistinct p xs → IsDistinct p (keep q xs)
  unfolding keep
  IsDistinct-keep p q [] h = tt
  IsDistinct-keep p q (x ∷ xs) (a, h) =
      let rest = IsDistinct-keep p q xs h in
      IsDistinct-if p (q x) _ _ (find-keep-none (p x) q xs a, rest) rest

  -- A new element in front of those with other keys.
  pub IsDistinct-upsert :
      (p : A → A → Bool) (x : A) (xs : List A)
      → IsDistinct p xs
      → IsDistinct p (x ∷ keep (λ y. not (p x y)) xs)
  IsDistinct-upsert p x xs h = (find-keep-not (p x) xs, IsDistinct-keep p _ xs h)

  find-amend-none :
      (p q : A → Bool) (f : A → A) (xs : List A)
      → ((x : A) → p (f x) ≡ p x)
      → find p xs ≡ none
      → find p (amend q f xs) ≡ none
  unfolding find amend
  find-amend-none p q f [] e h = h
  find-amend-none p q f (x ∷ xs) e h = ground (arith, e x, find-amend-none p q f xs e)

  find-amend_head :
      (p : A → A → Bool) (b : Bool) (f : A → A) (x : A) (xs : List A)
      → ((y z : A) → p (f y) z ≡ p y z)
      → find (p x) xs ≡ none
      → find (p (if b then f x else x)) xs ≡ none
  find-amend_head p true f x xs e h = find-same (p (f x)) (p x) xs (e x) h
    where
      find-same :
          (q r : A → Bool) (ys : List A)
          → ((y : A) → q y ≡ r y)
          → find r ys ≡ none
          → find q ys ≡ none
      find-same q r ys g h = subst (λ s. find s ys ≡ none) (sym (fun_ext g)) h
  find-amend_head p false f x xs e h = h

  -- A change that leaves the keys.
  pub IsDistinct-amend :
      (p : A → A → Bool) (q : A → Bool) (f : A → A) (xs : List A)
      → ((x y : A) → p (f x) y ≡ p x y)
      → ((x y : A) → p x (f y) ≡ p x y)
      → IsDistinct p xs
      → IsDistinct p (amend q f xs)
  unfolding amend
  IsDistinct-amend p q f [] l r h = tt
  IsDistinct-amend p q f (x ∷ xs) l r (a, h) = (
    find-amend-none _ q f xs (λ y. r _ y) (find-amend_head p (q x) f x xs l a),
    IsDistinct-amend p q f xs l r h,
  )

  find-snoc-none :
      (p : A → Bool) (xs : List A) (n : A)
      → find p xs ≡ none
      → p n ≡ false
      → find p (xs ++ n ∷ []) ≡ none
  unfolding find
  find-snoc-none p [] n h e = ground arith
  find-snoc-none p (x ∷ xs) n h e = ground (arith, find-snoc-none p xs n)

  -- One more element, whose key is none of those that are there.
  pub IsDistinct-snoc :
      (p : A → A → Bool) (xs : List A) (n : A)
      → All (λ x. p x n ≡ false) xs
      → IsDistinct p xs
      → IsDistinct p (xs ++ n ∷ [])
  unfolding find
  IsDistinct-snoc p [] n u h = (refl, tt)
  IsDistinct-snoc p (x ∷ xs) n (e, u) (a, h) =
      (find-snoc-none (p x) xs n a e, IsDistinct-snoc p xs n u h)

module _ {ℓ} {A : Type ℓ} (P Q : A → Type 0) where
  pub All-weaken : (xs : List A) → ((x : A) → P x → Q x) → All P xs → All Q xs
  All-weaken [] h u = tt
  All-weaken (x ∷ xs) h (p, u) = (h x p, All-weaken xs h u)

module _ {ℓ} {A : Type ℓ} (P : A → Type 0) where
  pub All-snoc : (xs : List A) (n : A) → All P xs → P n → All P (xs ++ n ∷ [])
  All-snoc [] n u p = (p, tt)
  All-snoc (x ∷ xs) n (q, u) p = (q, All-snoc xs n u p)

  All-if : (b : Bool) (xs ys : List A) → All P xs → All P ys → All P (if b then xs else ys)
  All-if true xs ys u v = u
  All-if false xs ys u v = v

  pub All-keep : (q : A → Bool) (xs : List A) → All P xs → All P (keep q xs)
  unfolding keep
  All-keep q [] u = tt
  All-keep q (x ∷ xs) (p, u) = let rest = All-keep q xs u in All-if (q x) _ _ (p, rest) rest

  pub All-amend :
      (q : A → Bool) (f : A → A) (xs : List A)
      → ((x : A) → P x → P (f x))
      → All P xs
      → All P (amend q f xs)
  unfolding amend
  All-amend q f [] h u = tt
  All-amend q f (x ∷ xs) h (p, u) = (go (q x) p, All-amend q f xs h u)
    where
      go : (b : Bool) → P x → P (if b then f x else x)
      go true r = h x r
      go false r = r

  -- What fails the test of a search that finds nothing.
  pub All-find :
      (q : A → Bool) (xs : List A) → ((x : A) → q x ≡ false → P x) → find q xs ≡ none → All P xs
  unfolding find
  All-find q [] h e = tt
  All-find q (x ∷ xs) h e = (h x (ground arith), All-find q xs h (ground arith))
