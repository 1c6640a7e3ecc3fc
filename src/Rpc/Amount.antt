-- ===== src/Rpc/Amount.antt =====
-- json_rpc/utils.rs: parse_fixed_point and zatoshis_from_value. A text is the list of its code points.
pub mod Numeral
pub mod Digits
pub mod Reads
pub mod Exact
mod Tests
use wallet.Prelude.{
  ℕ, zero, suc, ◌+◌, ◌-◌, ◌*◌, ◌/◌, ltb, leb, ◌==◌, ◌&&◌, ◌||◌, Bool, true, false, Option, none,
  some, List, [], ◌∷◌, if◌then◌else◌, Result, ok, err,
}
use wallet.Prelude.Int.{ℤ, pos, negsuc}
use wallet.Rpc.{ErrorObject, with_message, type, invalid_parameter}

-- `?` on an option, in a function that returns one.
infixl 5 ◌>>=◌
abbrev pub ◌>>=◌ : {A B : Type 0} → Option A → (A → Option B) → Option B
none >>= f = none
some a >>= f = f a

abbrev pub Text : Type 0
Text = List ℕ

unfoldable pub upper_bound : ℕ
upper_bound = 1000000000000000000 - 1

unfoldable pub is_ascii_digit : ℕ → Bool
is_ascii_digit ch = leb 48 ch && leb ch 57

-- `to_digit(10)` of an ASCII digit.
unfoldable pub to_digit : ℕ → ℕ
to_digit ch = ch - 48

-- The mantissa without its trailing zeros, and their number.
pub record Mantissa : Type 0 where
  pub mantissa : ℕ
  pub tzeros : ℕ

-- `for _ in 0..n`: the mantissa is multiplied by ten, while it is within the bound.
unfoldable pub times_ten : (n : ℕ) → ℕ → Option ℕ
times_ten zero m = some m
times_ten (suc n) m =
    let rest = times_ten n (m * 10) in if ltb (upper_bound / 10) m then none else rest

unfoldable pub process_mantissa_digit : ℕ → Mantissa → Option Mantissa
process_mantissa_digit ch a =
    if ch == 48
    then some (record a { tzeros = suc a.tzeros })
    else (times_ten (suc a.tzeros) a.mantissa >>= λ m.
        some (record { mantissa = m + to_digit ch; tzeros = 0 }))

-- The loops over the digits of the mantissa: the mantissa, the number of digits and the rest.
unfoldable pub read_digits : Text → Mantissa → (count : ℕ) → Option (Mantissa × ℕ × Text)
read_digits [] a count = some (a, count, [])
read_digits (ch ∷ val) a count =
    if is_ascii_digit ch
    then (process_mantissa_digit ch a >>= λ b. read_digits val b (suc count))
    else some (a, count, ch ∷ val)

unfoldable pub mantissa_sign : Text → Bool × Text
mantissa_sign [] = (false, [])
mantissa_sign (ch ∷ val) = if ch == 45 then (true, val) else (false, ch ∷ val)

-- The digits before the point: a single zero, or digits of which the first is not zero.
unfoldable pub whole_part : Text → Option (Mantissa × ℕ × Text)
whole_part [] = none
whole_part (ch ∷ val) =
    if ch == 48
    then some (record { mantissa = 0; tzeros = 0 }, 0, val)
    else if is_ascii_digit ch
    then read_digits (ch ∷ val) (record { mantissa = 0; tzeros = 0 }) 0
    else none

-- What needs a digit at the start of the text.
unfoldable pub require_digit : {A : Type 0} → Text → Option A → Option A
require_digit [] a = none
require_digit (ch ∷ val) a = if is_ascii_digit ch then a else none

unfoldable pub fraction_part : Text → Mantissa → Option (Mantissa × ℕ × Text)
fraction_part [] a = some (a, 0, [])
fraction_part (ch ∷ val) a =
    if ch == 46 then require_digit val (read_digits val a 0) else some (a, 0, ch ∷ val)

unfoldable pub read_exponent : Text → ℕ → Option (ℕ × Text)
read_exponent [] e = some (e, [])
read_exponent (ch ∷ val) e =
    let rest = read_exponent val (e * 10 + to_digit ch) in
    if is_ascii_digit ch
    then (if ltb (upper_bound / 10) e then none else rest)
    else some (e, ch ∷ val)

unfoldable pub exponent_sign : Text → Bool × Text
exponent_sign [] = (false, [])
exponent_sign (ch ∷ val) =
    if ch == 43 then (false, val) else if ch == 45 then (true, val) else (false, ch ∷ val)

unfoldable pub signed_exponent : Bool × Text → Option (Bool × ℕ × Text)
signed_exponent (negative, val) =
    require_digit val (read_exponent val 0) >>= λ (e, rest). some (negative, e, rest)

unfoldable pub exponent_part : Text → Option (Bool × ℕ × Text)
exponent_part [] = some (false, 0, [])
exponent_part (ch ∷ val) =
    if ch == 101 || ch == 69 then signed_exponent (exponent_sign val) else some (false, 0, ch ∷ val)

-- `a - b`.
unfoldable pub difference : ℕ → ℕ → ℤ
difference a b = if leb b a then pos (a - b) else negsuc (b - a - 1)

unfoldable pub signed : Bool → ℕ → ℤ
signed false m = pos m
signed true zero = pos zero
signed true (suc m) = negsuc m

unfoldable pub bounded : ℕ → Option ℕ
bounded m = if leb m upper_bound then some m else none

-- The scaling by the final exponent; the bounds are symmetric, so it works on the absolute value.
unfoldable pub scale : Bool → ℕ → ℤ → Option ℤ
scale negative m (negsuc _) = none
scale negative m (pos e) =
    if leb 18 e
    then none
    else (times_ten e m >>= λ n. bounded n >>= λ n'. some (signed negative n'))

-- `exponent_sign`, `exponent`, `point_ofs`, `mantissa_tzeros` and `decimals`, summed up.
unfoldable pub final_exponent : Bool → (exponent point_ofs tzeros decimals : ℕ) → ℤ
final_exponent true exponent point_ofs tzeros decimals =
    difference (tzeros + decimals) (exponent + point_ofs)
final_exponent false exponent point_ofs tzeros decimals =
    difference (exponent + tzeros + decimals) point_ofs

unfoldable pub at_end : Text → Option ℤ → Option ℤ
at_end [] z = z
at_end (ch ∷ val) z = none

unfoldable pub parse_fixed_point : Text → (decimals : ℕ) → Option ℤ
parse_fixed_point val decimals =
    let (negative, unsigned) = mantissa_sign val in
    whole_part unsigned >>= λ (a, _, after_whole).
    fraction_part after_whole a >>= λ (b, point_ofs, after_fraction).
    exponent_part after_fraction >>= λ (down, exponent, rest).
    at_end rest
      (scale negative b.mantissa (final_exponent down exponent point_ofs b.tzeros decimals))

-- A JSON value: the text of a string or of a number, or anything else.
pub data JsonValue : Type 0 where
  string number : Text → JsonValue
  else_value : JsonValue

pub data BalanceError : Type 0 where
  underflow overflow : BalanceError

-- `from_nonnegative_i64` is the one of `Zatoshis`.
module _ {Zatoshis : Type 0} (from_nonnegative_i64 : ℤ → Result Zatoshis BalanceError) where
  unfoldable pub checked_amount : Result Zatoshis BalanceError → Result Zatoshis ErrorObject
  checked_amount (ok amount) = ok amount
  checked_amount (err underflow) =
      err (with_message invalid_parameter "Invalid parameter, amount must be positive")
  checked_amount (err overflow) = err (with_message type "Amount out of range")

  unfoldable pub amount_of : Option ℤ → Result Zatoshis ErrorObject
  amount_of none = err (with_message type "Invalid amount")
  amount_of (some amount) = checked_amount (from_nonnegative_i64 amount)

  unfoldable pub zatoshis_from_value : JsonValue → Result Zatoshis ErrorObject
  zatoshis_from_value (string s) = amount_of (parse_fixed_point s 8)
  zatoshis_from_value (number n) = amount_of (parse_fixed_point n 8)
  zatoshis_from_value else_value = err (with_message type "Amount is not a number or string")
