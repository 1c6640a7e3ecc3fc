-- ===== src/Rpc/Amount/Tests.antt =====
-- Amounts at concrete texts.
use wallet.Prelude.{◌≡◌, refl, none, some, [], ◌∷◌}
use wallet.Prelude.Int.{pos, negsuc}
use wallet.Rpc.Amount.Numeral.{Spells}
use wallet.Rpc.Amount.Exact.{parse_fixed_point-Spells}
use wallet.Rpc.Amount.{
  upper_bound, is_ascii_digit, to_digit, times_ten, process_mantissa_digit, read_digits,
  mantissa_sign, whole_part, require_digit, fraction_part, read_exponent, exponent_sign,
  signed_exponent, exponent_part, difference, signed, bounded, scale, final_exponent, at_end,
  parse_fixed_point,
}

-- "-0.5e-1" is -0.05, which is -5000000 in units of 10 ^ -8.
parses : parse_fixed_point (45 ∷ 48 ∷ 46 ∷ 53 ∷ 101 ∷ 45 ∷ 49 ∷ []) 8 ≡ some (negsuc 4999999)
unfolding upper_bound is_ascii_digit to_digit times_ten process_mantissa_digit read_digits
    mantissa_sign whole_part require_digit fraction_part read_exponent exponent_sign signed_exponent
    exponent_part difference signed bounded scale final_exponent at_end parse_fixed_point
parses = refl

-- "0.1" as an amount of zatoshis.
tenth : parse_fixed_point (48 ∷ 46 ∷ 49 ∷ []) 8 ≡ some (pos 10000000)
unfolding upper_bound is_ascii_digit to_digit times_ten process_mantissa_digit read_digits
    mantissa_sign whole_part require_digit fraction_part read_exponent exponent_sign signed_exponent
    exponent_part difference signed bounded scale final_exponent at_end parse_fixed_point
tenth = refl

-- A leading zero is refused, and so is a ninth decimal.
leading_zero : parse_fixed_point (48 ∷ 49 ∷ []) 8 ≡ none
unfolding upper_bound is_ascii_digit to_digit times_ten process_mantissa_digit read_digits
    mantissa_sign whole_part require_digit fraction_part read_exponent exponent_sign signed_exponent
    exponent_part difference signed bounded scale final_exponent at_end parse_fixed_point
leading_zero = refl

parse_fixed_point-Spells_example : Spells (48 ∷ 46 ∷ 49 ∷ []) 8 (pos 10000000)
parse_fixed_point-Spells_example =
    parse_fixed_point-Spells (48 ∷ 46 ∷ 49 ∷ []) 8 (pos 10000000) tenth
