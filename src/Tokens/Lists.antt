-- ===== src/Tokens/Lists.antt =====
-- internal/tokens/tokens.go: ParseTokenList and CheckServiceTokens, on the tokens that an operator
-- configures.
use appliance_registry.Prelude.{
  ◌≡◌, ◌≢◌, ◌↔◌, ◌⊎◌, inl, inr, subst, sym, true, some, List, [], ◌∷◌, Text, text_eq_iff, arith,
  All, Option-cases, reverse,
}
use mathlib.Core.List.{Mem, mem-cons_self, mem-cons_of_mem, not-mem-nil, eq-or-mem_of_mem-cons}
use mathlib.Core.Logic.Or
use mathlib.Core.Bool.{Bool-set}
use appliance_registry.Text.{split, trim_space, is_space}
use appliance_registry.Text.Trimming.{StartsWithout, starts-trim, ends-trim}
use appliance_registry.Tokens.{
  bearer_token, push_token, trimmed_tokens, parse_token_list, any_equal, check_service_tokens,
}

any_equal-head : (p t : Text) (ts : List Text) → p ≡ t → any_equal p (t ∷ ts) ≡ true
unfolding any_equal
any_equal-head p t ts e = ground (arith, text_eq_iff p t)

any_equal-tail : (p t : Text) (ts : List Text) → any_equal p ts ≡ true → any_equal p (t ∷ ts) ≡ true
unfolding any_equal
any_equal-tail p t ts h = ground arith

any_equal-cons :
    (p t : Text) (ts : List Text) → any_equal p (t ∷ ts) ≡ true → (p ≡ t) ⊎ (any_equal p ts ≡ true)
unfolding any_equal
any_equal-cons p t ts h = ground (arith, text_eq_iff p t)

Mem-any_equal : (p : Text) (ts : List Text) → any_equal p ts ≡ true → Mem p ts
unfolding any_equal
Mem-any_equal p [] h = ground arith
Mem-any_equal p (t ∷ ts) h = elim (any_equal-cons p t ts h) [
  | inl e ↦ subst (λ u. Mem u (t ∷ ts)) (sym e) mem-cons_self
  | inr g ↦ mem-cons_of_mem t (Mem-any_equal p ts g)
]

any_equal-Mem : (p : Text) (ts : List Text) → Mem p ts → any_equal p ts ≡ true
any_equal-Mem p [] m = absurd (not-mem-nil m)
any_equal-Mem p (t ∷ ts) m =
    Or.elim (Bool-set _ _) (eq-or-mem_of_mem-cons m) (any_equal-head p t ts)
      λ n. any_equal-tail p t ts (any_equal-Mem p ts n)

-- A header passes exactly if it carries a bearer token that is one of the configured tokens.
pub check_service_tokens_iff :
    (tokens : List Text) (header : Text)
    → (check_service_tokens tokens header ≡ true)
      ↔ ((p : Text) × (bearer_token header ≡ some p) × Mem p tokens)
unfolding check_service_tokens
check_service_tokens_iff tokens header = (
  λ h. elim (Option-cases (bearer_token header)) [
    | inl e ↦ absurd (ground arith)
    | inr (p, e) ↦
        let equal : any_equal p tokens ≡ true = ground arith in (p, e, Mem-any_equal p tokens equal)
  ],
  λ (p, e, m). let equal = any_equal-Mem p tokens m in ground arith,
)

-- A configured token: not empty, and with no white space at either end.
pub record IsToken (t : Text) : Type 0 where
  pub not_empty : t ≢ []
  pub start : StartsWithout is_space t
  pub finish : StartsWithout is_space (reverse t)

push_token-All :
    (t : Text) (ts : List Text)
    → (t ≢ [] → IsToken t)
    → All IsToken ts
    → All IsToken (push_token t ts)
push_token-All [] ts h a = a
push_token-All (c ∷ t) ts h a = (h (λ e. ground arith), a)

trimmed_tokens-All : (ts : List Text) → All IsToken (trimmed_tokens ts)
unfolding trimmed_tokens trim_space
trimmed_tokens-All [] = tt
trimmed_tokens-All (t ∷ ts) =
    push_token-All (trim_space t) (trimmed_tokens ts)
      (λ e. record { not_empty = e; start = starts-trim is_space t; finish = ends-trim is_space t })
      (trimmed_tokens-All ts)

any_equal-All : (p : Text) (ts : List Text) → any_equal p ts ≡ true → All IsToken ts → IsToken p
unfolding any_equal
any_equal-All p [] h a = absurd (ground arith)
any_equal-All p (t ∷ ts) h (a, u) = elim (any_equal-cons p t ts h) [
  | inl e ↦ subst IsToken (sym e) a
  | inr g ↦ any_equal-All p ts g u
]

-- Whatever text an operator configures, a header passes the check against its tokens only with a bearer
-- token that is not empty and has no white space at either end: stray commas and blanks let nobody in.
pub parse_token_list-IsToken :
    (raw header : Text)
    → check_service_tokens (parse_token_list raw) header ≡ true
    → (p : Text) × (bearer_token header ≡ some p) × IsToken p
unfolding check_service_tokens parse_token_list
parse_token_list-IsToken raw header h = elim (Option-cases (bearer_token header)) [
  | inl e ↦ absurd (ground arith)
  | inr (p, e) ↦
      let equal : any_equal p (trimmed_tokens (split b',' raw)) ≡ true = ground arith in
      (p, e, any_equal-All p _ equal (trimmed_tokens-All (split b',' raw)))
]
