-- ===== src/Hostnames.antt =====
-- internal/hostnames/hostnames.go
pub mod Label
use appliance_registry.Prelude.{
  map, ℕ, ◌+◌, Bool, not, ◌||◌, ◌&&◌, false, List, [], ◌∷◌, ◌++◌, Text, text, ltb, leb, ◌==◌,
  if◌then◌else◌, length, take,
}
use appliance_registry.External.{External}
use appliance_registry.Text.{trim, trim_space, replace_runs}
use appliance_registry.Tokens.{random_hex}
use appliance_registry.Program.{Prog, ret, ◌>>=◌}

-- strings.ToLower maps each code point.
unfoldable pub lower : External → ℕ → ℕ
lower x c = if ltb c 128 then (if leb b'A' c && leb c b'Z' then c + 32 else c) else x.lower_wide c

unfoldable pub to_lower : External → Text → Text
to_lower x = map (lower x)

-- The class of nonLabelChars is the complement of this one.
unfoldable pub is_label_char : ℕ → Bool
is_label_char c = (leb b'a' c && leb c b'z') || (leb b'0' c && leb c b'9') || c == b'-'

abbrev pub is_dash : ℕ → Bool
is_dash c = c == b'-'

abbrev pub max_name_part : ℕ
max_name_part = 40

abbrev pub suffix_bytes : ℕ
suffix_bytes = 3

-- The two lines that bound the length. After the replacements each code point is one byte.
unfoldable pub cut_name : Text → Text
cut_name s = if ltb max_name_part (length s) then trim is_dash (take max_name_part s) else s

abbrev pub or_default : Text → Text
or_default [] = text "appliance"
or_default (c ∷ s) = c ∷ s

-- The part of GenerateLabel before the random suffix.
unfoldable pub sanitize : External → Text → Text
sanitize x name =
    let lowered = to_lower x (trim_space name) in
    let dashed = replace_runs (λ c. not (is_label_char c)) b'-' false lowered in
    let collapsed = replace_runs is_dash b'-' false dashed in
    or_default (cut_name (trim is_dash collapsed))

unfoldable pub generate_label : External → Text → Prog (Unit {0}) Text
generate_label x name = do
  suffix ← random_hex suffix_bytes
  ret (sanitize x name ++ text "-" ++ suffix)

unfoldable pub full_hostname : Text → Text → Text
full_hostname label base_domain = label ++ text "." ++ base_domain
