-- ===== src/Text.antt =====
-- What the program uses of the packages strings, strconv, fmt, encoding/hex and regexp, on texts as
-- lists of code points.
pub mod Trimming
pub mod Decimal
use appliance_registry.Prelude.{
  ℕ, zero, suc, ◌+◌, ◌*◌, ◌-◌, ◌/◌, ◌%◌, Bool, true, false, ◌&&◌, ◌||◌, Option, none, some, List,
  [], ◌∷◌, ◌++◌, map, Text, ltb, leb, ◌==◌, if◌then◌else◌, text, reverse,
}

-- unicode.IsSpace
unfoldable pub is_space : ℕ → Bool
is_space c =
    (leb 9 c && leb c 13)
    || c == 32
    || c == 0x85
    || c == 0xa0
    || c == 0x1680
    || (leb 0x2000 c && leb c 0x200a)
    || c == 0x2028
    || c == 0x2029
    || c == 0x202f
    || c == 0x205f
    || c == 0x3000

-- strings.TrimLeftFunc and strings.TrimFunc
unfoldable pub trim_left : (ℕ → Bool) → Text → Text
trim_left p [] = []
trim_left p (c ∷ s) = if p c then trim_left p s else c ∷ s

unfoldable pub trim : (ℕ → Bool) → Text → Text
unfolding trim_left
trim p s = reverse (trim_left p (reverse (trim_left p s)))

unfoldable pub trim_space : Text → Text
unfolding trim is_space
trim_space = trim is_space

-- strings.CutPrefix: HasPrefix and TrimPrefix at once.
unfoldable pub cut_prefix : Text → Text → Option Text
cut_prefix [] s = some s
cut_prefix (p ∷ ps) [] = none
cut_prefix (p ∷ ps) (c ∷ s) = if p == c then cut_prefix ps s else none

-- The head of a list of texts gets one more code point in front.
abbrev pub extend : ℕ → List Text → List Text
extend c [] = (c ∷ []) ∷ []
extend c (s ∷ ss) = (c ∷ s) ∷ ss

-- strings.Split at a separator of one code point.
unfoldable pub split : ℕ → Text → List Text
split sep [] = [] ∷ []
split sep (c ∷ s) = let rest = split sep s in if c == sep then [] ∷ rest else extend c rest

-- ReplaceAllString of a class that is repeated, `[…]+`: each longest run of it becomes `d`.
-- The Boolean says that the code point before was in the class.
unfoldable pub replace_runs : (ℕ → Bool) → ℕ → Bool → Text → Text
replace_runs p d in_run [] = []
replace_runs p d in_run (c ∷ s) =
    let rest = replace_runs p d (p c) s in
    if p c then (if in_run then rest else d ∷ rest) else c ∷ rest

-- hex.EncodeToString
unfoldable pub hex_digit : ℕ → ℕ
hex_digit n = if ltb n 10 then b'0' + n else b'a' + (n - 10)

unfoldable pub hex : List ℕ → Text
unfolding hex_digit
hex [] = []
hex (x ∷ xs) = hex_digit (x / 16) ∷ hex_digit (x % 16) ∷ hex xs

-- strconv.FormatInt in base 10, of a number that is not negative; the fuel counts digits.
unfoldable pub decimal_from : ℕ → ℕ → Text
decimal_from zero n = []
decimal_from (suc fuel) n =
    let front = decimal_from fuel (n / 10) in
    if ltb n 10 then (b'0' + n) ∷ [] else front ++ (b'0' + n % 10) ∷ []

unfoldable pub decimal : ℕ → Text
unfolding decimal_from
decimal n = decimal_from (suc n) n
