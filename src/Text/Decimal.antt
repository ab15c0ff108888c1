-- ===== src/Text/Decimal.antt =====
-- strconv.FormatInt in base 10: the number that the digits stand for.
use appliance_registry.Prelude.{
  ℕ, zero, suc, ◌+◌, ◌-◌, ◌*◌, ◌/◌, ◌%◌, ◌<◌, ◌≡◌, refl, sym, ap, ◌∙◌, [], ◌∷◌, ◌++◌, Text, arith,
}
use appliance_registry.Text.{decimal, decimal_from}

-- The digits, from the left.
unfoldable pub value_from : ℕ → Text → ℕ
value_from acc [] = acc
value_from acc (c ∷ s) = value_from (acc * 10 + (c - b'0')) s

unfoldable pub value : Text → ℕ
unfolding value_from
value = value_from 0

value_from-append :
    (acc : ℕ) (s t : Text) → value_from acc (s ++ t) ≡ value_from (value_from acc s) t
unfolding value_from
value_from-append acc [] t = refl
value_from-append acc (c ∷ s) t = value_from-append (acc * 10 + (c - b'0')) s t

value_from-decimal_from : (fuel n : ℕ) → n < fuel → value_from 0 (decimal_from fuel n) ≡ n
unfolding value_from decimal_from
value_from-decimal_from zero n h = absurd (omega (arith, h))
value_from-decimal_from (suc fuel) n h = ground (
  arith,
  h,
  value_from-decimal_from fuel (n / 10),
  value_from-append 0 (decimal_from fuel (n / 10)) ((b'0' + n % 10) ∷ []),
)

-- The digits of a number, read back, are the number: the fuel of `decimal` is enough.
pub value-decimal : (n : ℕ) → value (decimal n) ≡ n
unfolding value decimal
value-decimal n = value_from-decimal_from (suc n) n (omega arith)

pub decimal_injective : (m n : ℕ) → decimal m ≡ decimal n → m ≡ n
decimal_injective m n e = sym (value-decimal m) ∙ ap value e ∙ value-decimal n
