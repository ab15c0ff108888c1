-- ===== src/Mariadb/Store/Lookups.antt =====
-- Tables seen as maps: what a look-up finds after the changes that the statements make.
use appliance_registry.Prelude.{
  ℕ, ◌≡◌, refl, subst, Bool, true, false, not, ◌&&◌, none, some, List, [], ◌∷◌, ◌++◌, Text, text_eq,
  text_eq_iff, arith, ◌==◌, find, keep, amend, if◌then◌else◌,
}
use appliance_registry.World.Keys.{IsDistinct, find-keep-none}
use appliance_registry.Mariadb.Store.{is_some, only_if}

module _ {ℓ} {A : Type ℓ} where
  -- A deletion under a number, and under a text.
  pub find-keep_key :
      (key : A → ℕ) (i j : ℕ) (xs : List A)
      → find (λ a. key a == j) (keep (λ a. not (key a == i)) xs)
        ≡ (if i == j then none else find (λ a. key a == j) xs)
  unfolding find keep
  find-keep_key key i j [] = ground arith
  find-keep_key key i j (x ∷ xs) = ground (arith, find-keep_key key i j xs)

  pub find-keep_text :
      (key : A → Text) (s t : Text) (xs : List A)
      → find (λ a. text_eq (key a) t) (keep (λ a. not (text_eq (key a) s)) xs)
        ≡ (if text_eq s t then none else find (λ a. text_eq (key a) t) xs)
  unfolding find keep
  find-keep_text key s t [] = ground arith
  find-keep_text key s t (x ∷ xs) = ground (
    arith,
    find-keep_text key s t xs,
    text_eq_iff (key x) s,
    text_eq_iff (key x) t,
    text_eq_iff s t,
  )

  -- Where keys are distinct, the one element under a key is there if it passes the test.
  pub find-keep_only :
      (key : A → Text) (q : A → Bool) (t : Text) (xs : List A)
      → IsDistinct (λ a b. text_eq (key b) (key a)) xs
      → find (λ a. text_eq (key a) t) (keep q xs) ≡ only_if q (find (λ a. text_eq (key a) t) xs)
  unfolding find keep
  find-keep_only key q t [] h = refl
  find-keep_only key q t (x ∷ xs) (new, h) =
      let p : A → Bool = λ a. text_eq (key a) t in
      let alone : p x ≡ true → find p xs ≡ none = λ e.
        subst (λ k. find (λ a. text_eq (key a) k) xs ≡ none) ((text_eq_iff (key x) t).0 e) new in
      ground (arith, alone, find-keep-none p q xs, find-keep_only key q t xs h)

  pub find-and : (p q : A → Bool) (xs : List A) → find (λ a. p a && q a) xs ≡ find p (keep q xs)
  unfolding find keep
  find-and p q [] = refl
  find-and p q (x ∷ xs) = ground (arith, find-and p q xs)

  pub find-snoc :
      (p : A → Bool) (xs : List A) (x : A)
      → find p xs ≡ none
      → find p (xs ++ x ∷ []) ≡ (if p x then some x else none)
  unfolding find
  find-snoc p [] x h = refl
  find-snoc p (y ∷ xs) x h = ground (arith, find-snoc p xs x)

  pub find-snoc_other :
      (p : A → Bool) (xs : List A) (x : A) → p x ≡ false → find p (xs ++ x ∷ []) ≡ find p xs
  unfolding find
  find-snoc_other p [] x h = ground arith
  find-snoc_other p (y ∷ xs) x h = ground (arith, find-snoc_other p xs x h)

  pub is_some-find-append :
      (p : A → Bool) (xs : List A) (x : A)
      → is_some (find p (xs ++ x ∷ [])) ≡ (if p x then true else is_some (find p xs))
  unfolding find
  is_some-find-append p [] x = ground arith
  is_some-find-append p (y ∷ xs) x = ground (arith, is_some-find-append p xs x)

  pub is_some-find-amend :
      (p q : A → Bool) (f : A → A) (xs : List A)
      → ((a : A) → p (f a) ≡ p a)
      → is_some (find p (amend q f xs)) ≡ is_some (find p xs)
  unfolding find amend
  is_some-find-amend p q f [] h = refl
  is_some-find-amend p q f (x ∷ xs) h = ground (arith, h x, is_some-find-amend p q f xs h)
