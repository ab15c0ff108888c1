-- ===== src/Text/Trimming.antt =====
-- The characters that the functions of the package strings leave, and how many.
use appliance_registry.Prelude.{
  ℕ, zero, suc, ◌≤◌, ◌≡◌, refl, sym, ap, subst, ◌∙◌, Bool, true, false, [], ◌∷◌, ◌++◌, Text, arith,
  All, length, length-append, take, reverse, if◌then◌else◌,
}
use mathlib.Core.List.{reverse-cons, reverse-append, reverse-reverse}
use appliance_registry.Text.{trim_left, trim, replace_runs}

module _ (P : ℕ → Type 0) where
  pub All-append : (s t : Text) → All P s → All P t → All P (s ++ t)
  All-append [] t u v = v
  All-append (c ∷ s) t (p, u) v = (p, All-append s t u v)

  pub All-reverse : (s : Text) → All P s → All P (reverse s)
  All-reverse [] u = tt
  All-reverse (c ∷ s) (p, u) =
      subst (All P) (sym (reverse-cons c s))
        (All-append (reverse s) (c ∷ []) (All-reverse s u) (p, tt))

  pub All-take : (n : ℕ) (s : Text) → All P s → All P (take n s)
  All-take zero s u = tt
  All-take (suc n) [] u = tt
  All-take (suc n) (c ∷ s) (p, u) = (p, All-take n s u)

  pub All-if : (b : Bool) (s t : Text) → All P s → All P t → All P (if b then s else t)
  All-if true s t u v = u
  All-if false s t u v = v

  pub All-trim_left : (q : ℕ → Bool) (s : Text) → All P s → All P (trim_left q s)
  unfolding trim_left
  All-trim_left q [] u = tt
  All-trim_left q (c ∷ s) (p, u) = All-if (q c) _ _ (All-trim_left q s u) (p, u)

  pub All-trim : (q : ℕ → Bool) (s : Text) → All P s → All P (trim q s)
  unfolding trim
  All-trim q s u = All-reverse _ (All-trim_left q _ (All-reverse _ (All-trim_left q s u)))

  -- What is left after the runs of a class are replaced: the rest of the text, and the replacement.
  pub All-replace_runs :
      (q : ℕ → Bool) (d : ℕ) (b : Bool) (s : Text)
      → P d
      → All (λ c. q c ≡ false → P c) s
      → All P (replace_runs q d b s)
  unfolding replace_runs
  All-replace_runs q d b [] h u = tt
  All-replace_runs q d b (c ∷ s) h (p, u) = go (q c) p b _ (All-replace_runs q d (q c) s h u)
    where
      go :
          (t : Bool)
          → (t ≡ false → P c)
          → (in_run : Bool) (rest : Text) → All P rest
          → All P (if t then (if in_run then rest else d ∷ rest) else c ∷ rest)
      go true k true rest v = v
      go true k false rest v = (h, v)
      go false k in_run rest v = (k refl, v)

pub All-of : (P : ℕ → Type 0) (s : Text) → ((c : ℕ) → P c) → All P s
All-of P [] h = tt
All-of P (c ∷ s) h = (h c, All-of P s h)

pub All-imp : (P Q : ℕ → Type 0) (s : Text) → ((c : ℕ) → P c → Q c) → All P s → All Q s
All-imp P Q [] h u = tt
All-imp P Q (c ∷ s) h (p, u) = (h c p, All-imp P Q s h u)

pub length-reverse : (s : Text) → length (reverse s) ≡ length s
length-reverse [] = refl
length-reverse (c ∷ s) =
    omega
      (arith, ap length (reverse-cons c s), length-append (reverse s) (c ∷ []), length-reverse s)

length-trim_left-le : (q : ℕ → Bool) (s : Text) → length (trim_left q s) ≤ length s
unfolding trim_left
length-trim_left-le q [] = omega arith
length-trim_left-le q (c ∷ s) = ground (arith, length-trim_left-le q s)

pub length-trim-le : (q : ℕ → Bool) (s : Text) → length (trim q s) ≤ length s
unfolding trim
length-trim-le q s = omega (
  arith,
  length-reverse (trim_left q (reverse (trim_left q s))),
  length-trim_left-le q (reverse (trim_left q s)),
  length-reverse (trim_left q s),
  length-trim_left-le q s,
)

-- A text that does not start with a character of the class.
abbrev pub StartsWithout : (ℕ → Bool) → Text → Type 0
StartsWithout q [] = Unit
StartsWithout q (c ∷ s) = q c ≡ false

starts-trim_left : (q : ℕ → Bool) (s : Text) → StartsWithout q (trim_left q s)
unfolding trim_left
starts-trim_left q [] = tt
starts-trim_left q (c ∷ s) = go (q c) refl (starts-trim_left q s)
  where
    go :
        (t : Bool)
        → q c ≡ t
        → StartsWithout q (trim_left q s)
        → StartsWithout q (if t then trim_left q s else c ∷ s)
    go true e h = h
    go false e h = e

trim_left-suffix : (q : ℕ → Bool) (s : Text) → (t : Text) × (s ≡ t ++ trim_left q s)
unfolding trim_left
trim_left-suffix q [] = ([], refl)
trim_left-suffix q (c ∷ s) = go (q c) (trim_left-suffix q s)
  where
    go :
        (b : Bool)
        → (t : Text) × (s ≡ t ++ trim_left q s)
        → (t : Text) × (c ∷ s ≡ t ++ (if b then trim_left q s else c ∷ s))
    go true (t, e) = (c ∷ t, ap (λ u. c ∷ u) e)
    go false h = ([], refl)

starts_prefix : (q : ℕ → Bool) (s t : Text) → StartsWithout q (s ++ t) → StartsWithout q s
starts_prefix q [] t h = tt
starts_prefix q (c ∷ s) t h = h

pub starts_append :
    (q : ℕ → Bool) (s t : Text) → StartsWithout q s → 1 ≤ length s → StartsWithout q (s ++ t)
starts_append q [] t h l = absurd (omega (arith, l))
starts_append q (c ∷ s) t h l = h

pub starts_all : (q : ℕ → Bool) (s : Text) → All (λ c. q c ≡ false) s → StartsWithout q s
starts_all q [] h = tt
starts_all q (c ∷ s) (p, h) = p

-- A trimmed text has no character of the class at either end.
pub starts-trim : (q : ℕ → Bool) (s : Text) → StartsWithout q (trim q s)
unfolding trim
starts-trim q s =
    let u = trim_left q s in
    let (t, e) = trim_left-suffix q (reverse u) in
    starts_prefix q _ (reverse t) (
      subst (StartsWithout q)
        (sym (reverse-reverse u) ∙ ap reverse e ∙ reverse-append t (trim_left q (reverse u)))
        (starts-trim_left q s))

pub ends-trim : (q : ℕ → Bool) (s : Text) → StartsWithout q (reverse (trim q s))
unfolding trim
ends-trim q s =
    subst (StartsWithout q) (sym (reverse-reverse _)) (starts-trim_left q (reverse (trim_left q s)))
