-- ===== src/Tokens.antt =====
-- internal/tokens/tokens.go. An error of these functions carries nothing that a caller looks at.
pub mod Lists
use appliance_registry.Prelude.{
  ℕ, Bool, true, false, ◌||◌, Option, none, some, List, [], ◌∷◌, ◌++◌, Text, text, text_eq,
  if◌then◌else◌,
}
use appliance_registry.External.{External}
use appliance_registry.Text.{trim_space, cut_prefix, split, hex, decimal}
use appliance_registry.Program.{Prog, ret, fail, call, read_random, ◌>>=◌}

unfoldable pub bearer_token : Text → Option Text
bearer_token auth_header = elim (cut_prefix (text "Bearer ") auth_header) [
  | none ↦ none
  | some rest ↦ some (trim_space rest)
]

abbrev pub claim_token_from_auth_header : Text → Option Text
claim_token_from_auth_header auth_header = bearer_token auth_header

abbrev pub appliance_secret_from_auth_header : Text → Option Text
appliance_secret_from_auth_header auth_header = bearer_token auth_header

-- The one body of the three functions that follow.
unfoldable pub hash_secret : External → Text → Text
hash_secret x raw = hex (x.sha256 raw)

abbrev pub hash_claim_token : External → Text → Text
hash_claim_token x raw = hash_secret x raw

abbrev pub hash_exchange_code : External → Text → Text
hash_exchange_code x raw = hash_secret x raw

abbrev pub hash_appliance_secret : External → Text → Text
hash_appliance_secret x raw = hash_secret x raw

-- A read of `n` random bytes, in hexadecimal.
unfoldable pub random_hex : ℕ → Prog (Unit {0}) Text
random_hex n =
    call (read_random n) λ bytes. elim bytes [ none ↦ fail tt | some buf ↦ ret (hex buf) ]

-- The one body of the two functions that follow: the raw value and its hash.
unfoldable pub generate_token : External → Prog (Unit {0}) (Text × Text)
generate_token x = do raw ← random_hex 32; ret (raw, hash_secret x raw)

abbrev pub generate_claim_token : External → Prog (Unit {0}) (Text × Text)
generate_claim_token x = generate_token x

abbrev pub generate_exchange_code : External → Prog (Unit {0}) (Text × Text)
generate_exchange_code x = generate_token x

unfoldable pub generate_appliance_secret : ℕ → Prog (Unit {0}) Text
generate_appliance_secret id = do
  raw ← random_hex 24
  ret (text "appliance-" ++ decimal id ++ text ":" ++ raw)

abbrev pub push_token : Text → List Text → List Text
push_token [] out = out
push_token (c ∷ s) out = (c ∷ s) ∷ out

unfoldable pub trimmed_tokens : List Text → List Text
trimmed_tokens [] = []
trimmed_tokens (t ∷ ts) = push_token (trim_space t) (trimmed_tokens ts)

unfoldable pub parse_token_list : Text → List Text
unfolding trimmed_tokens
parse_token_list raw = trimmed_tokens (split b',' raw)

unfoldable pub any_equal : Text → List Text → Bool
any_equal provided [] = false
any_equal provided (configured ∷ rest) =
    if text_eq provided configured then true else any_equal provided rest

-- True where the code returns no error.
unfoldable pub check_service_tokens : List Text → Text → Bool
unfolding any_equal
check_service_tokens valid_tokens auth_header = elim (bearer_token auth_header) [
  | none ↦ false
  | some provided ↦ any_equal provided valid_tokens
]
