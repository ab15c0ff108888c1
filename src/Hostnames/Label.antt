-- ===== src/Hostnames/Label.antt =====
-- internal/hostnames/hostnames.go: GenerateLabel makes one label of a DNS name.
use appliance_registry.Prelude.{
  ℕ, ◌*◌, ◌/◌, ◌%◌, ◌≤◌, ◌≡◌, refl, sym, subst, Bool, true, false, not, some, List, [], ◌∷◌, ◌++◌,
  Text, text, arith, All, length, length-append, length-take-le, take, reverse, if◌then◌else◌, ltb,
  ok,
}
use mathlib.Core.List.{reverse-append}
use appliance_registry.External.{External, Backend}
use appliance_registry.World.{World}
use appliance_registry.Text.{trim, trim_space, replace_runs, hex, hex_digit}
use appliance_registry.Text.Trimming.{
  All-append, All-imp, All-if, All-reverse, length-reverse, starts_append, starts_all, All-take,
  All-trim, All-replace_runs, All-of, length-trim-le, StartsWithout, starts-trim, ends-trim,
}
use appliance_registry.Tokens.{random_hex}
use appliance_registry.Hostnames.{
  is_label_char, is_dash, max_name_part, cut_name, or_default, sanitize, to_lower, generate_label,
}
use appliance_registry.Program.{◌>>=◌}
use appliance_registry.Program.Run.{run, perform, supply}

abbrev pub LabelChars : Text → Type 0
LabelChars = All (λ c. is_label_char c ≡ true)

module _ (x : External) where
  chars-collapsed :
      (s : Text)
      → LabelChars
          (replace_runs is_dash b'-' false (replace_runs (λ c. not (is_label_char c)) b'-' false s))
  unfolding is_label_char
  chars-collapsed s =
      All-replace_runs (λ c. is_label_char c ≡ true) is_dash b'-' false _ refl
        (All-imp (λ c. is_label_char c ≡ true) _ _ (λ c p e. p)
          (All-replace_runs (λ c. is_label_char c ≡ true) (λ c. not (is_label_char c)) b'-' false s
            refl (All-of _ s (λ c e. ground arith))))

  -- A part of a label: at most 40 of its characters, and no dash at either end.
  pub record IsLabelPart (s : Text) : Type 0 where
    pub chars : LabelChars s
    pub start : StartsWithout is_dash s
    pub finish : StartsWithout is_dash (reverse s)
    pub at_most : length s ≤ 40
    pub at_least : 1 ≤ length s

  cut_name-chars : (s : Text) → LabelChars s → LabelChars (cut_name s)
  unfolding cut_name
  cut_name-chars s h =
      All-if _ (ltb max_name_part (length s)) _ _
        (All-trim _ is_dash (take max_name_part s) (All-take _ max_name_part s h)) h

  cut_name-ends :
      (s : Text)
      → StartsWithout is_dash s
      → StartsWithout is_dash (reverse s)
      → StartsWithout is_dash (cut_name s) × StartsWithout is_dash (reverse (cut_name s))
  unfolding cut_name
  cut_name-ends s h k = go (ltb max_name_part (length s))
    where
      go :
          (b : Bool)
          → StartsWithout is_dash (if b then trim is_dash (take max_name_part s) else s)
            × StartsWithout is_dash (reverse (if b then trim is_dash (take max_name_part s) else s))
      go true =
          (starts-trim is_dash (take max_name_part s), ends-trim is_dash (take max_name_part s))
      go false = (h, k)

  cut_name-length : (s : Text) → length (cut_name s) ≤ 40
  unfolding cut_name
  cut_name-length s = ground (arith, length-trim-le is_dash (take 40 s), length-take-le 40 s)

  default_part : IsLabelPart (text "appliance")
  unfolding is_label_char
  default_part = record {
    chars = (refl, (refl, (refl, (refl, (refl, (refl, (refl, (refl, (refl, tt)))))))));
    start = refl;
    finish = refl;
    at_most = omega arith;
    at_least = omega arith;
  }

  or_default-IsLabelPart :
      (s : Text)
      → LabelChars s
      → StartsWithout is_dash s
      → StartsWithout is_dash (reverse s)
      → length s ≤ 40
      → IsLabelPart (or_default s)
  or_default-IsLabelPart [] h k l m = default_part
  or_default-IsLabelPart (c ∷ s) h k l m = record {
    chars = h;
    start = k;
    finish = l;
    at_most = m;
    at_least = omega arith;
  }

  sanitize-IsLabelPart : (name : Text) → IsLabelPart (sanitize x name)
  unfolding sanitize
  sanitize-IsLabelPart name =
      let collapsed =
        replace_runs is_dash b'-' false
          (replace_runs (λ c. not (is_label_char c)) b'-' false (to_lower x (trim_space name))) in
      let s = trim is_dash collapsed in
      let (start, finish) =
        cut_name-ends s (starts-trim is_dash collapsed) (ends-trim is_dash collapsed) in
      or_default-IsLabelPart (cut_name s)
        (cut_name-chars s
          (All-trim _ is_dash collapsed (chars-collapsed (to_lower x (trim_space name)))))
        start finish (cut_name-length s)

  abbrev IsByte : ℕ → Type 0
  IsByte n = n ≤ 255

  hex_digit-char :
      (n : ℕ) → n ≤ 15 → (is_label_char (hex_digit n) ≡ true) × (is_dash (hex_digit n) ≡ false)
  unfolding is_label_char hex_digit
  hex_digit-char n h = ground arith

  hex-chars :
      (buf : List ℕ)
      → All IsByte buf
      → LabelChars (hex buf) × All (λ c. is_dash c ≡ false) (hex buf)
  unfolding hex
  hex-chars [] h = (tt, tt)
  hex-chars (n ∷ buf) (p, h) =
      let (u, v) = hex-chars buf h in
      let (u₁, v₁) = hex_digit-char (n / 16) (omega (arith, p)) in
      let (u₂, v₂) = hex_digit-char (n % 16) (omega arith) in ((u₁, (u₂, u)), (v₁, (v₂, v)))

  length-hex : (buf : List ℕ) → length (hex buf) ≡ 2 * length buf
  unfolding hex
  length-hex [] = refl
  length-hex (n ∷ buf) = omega (arith, length-hex buf)

  -- One label of a DNS name: letters, digits and dashes, no dash at either end, at most 63 of them. The
  -- bound here is smaller.
  pub record IsLabel (s : Text) : Type 0 where
    pub chars : LabelChars s
    pub start : StartsWithout is_dash s
    pub finish : StartsWithout is_dash (reverse s)
    pub at_most : length s ≤ 47
    pub at_least : 8 ≤ length s

  with_suffix-IsLabel :
      (part : Text) (buf : List ℕ)
      → IsLabelPart part
      → All IsByte buf
      → length buf ≡ 3
      → IsLabel (part ++ text "-" ++ hex buf)
  unfolding is_label_char
  with_suffix-IsLabel part buf p bytes three =
      let (chars, dashless) = hex-chars buf bytes in
      let front = part ++ text "-" in
      record {
        chars = All-append _ front _ (All-append _ part _ p.chars (refl, tt)) chars;
        start =
            starts_append is_dash front _ (starts_append is_dash part _ p.start p.at_least)
              (omega (arith, length-append part (text "-"), p.at_least));
        finish = subst (StartsWithout is_dash) (sym (reverse-append front (hex buf))) (
            starts_append is_dash (reverse (hex buf)) _
              (starts_all is_dash _ (All-reverse _ (hex buf) dashless))
              (omega (arith, length-reverse (hex buf), length-hex buf, three)));
        at_most = omega (
          arith,
          length-append front (hex buf),
          length-append part (text "-"),
          length-hex buf,
          three,
          p.at_most,
        );
        at_least = omega (
          arith,
          length-append front (hex buf),
          length-append part (text "-"),
          length-hex buf,
          three,
          p.at_least,
        );
      }

  -- Whatever name a user chooses, and whatever unicode.ToLower makes of it, a label that is generated
  -- from a read of three bytes is a label of a DNS name: letters, digits and dashes, none of them at
  -- either end, between 8 and 47 characters.
  pub generate_label-IsLabel :
      {b : Backend} (name : Text) (w : World b) (buf : List ℕ) {label : Text} {w' : World b}
      → supply w.entropy ≡ some buf
      → length buf ≡ 3
      → All IsByte buf
      → run (generate_label x name) w ≡ (ok label, w')
      → IsLabel label
  unfolding run perform generate_label random_hex ◌>>=◌
  generate_label-IsLabel name w buf {label} read three bytes h =
      let same : sanitize x name ++ text "-" ++ hex buf ≡ label = ground (arith, read, h) in
      subst IsLabel same
        (with_suffix-IsLabel (sanitize x name) buf (sanitize-IsLabelPart name) bytes three)
