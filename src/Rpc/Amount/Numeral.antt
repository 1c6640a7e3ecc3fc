-- ===== src/Rpc/Amount/Numeral.antt =====
-- The numerals of JSON, as texts with their parts, and the number that a row of digits spells.
use wallet.Prelude.{
  ℕ, ◌+◌, ◌-◌, ◌*◌, ◌^◌, ◌≤◌, ◌≡◌, ◌≢◌, ◌⊎◌, Bool, true, false, [], ◌∷◌, ◌++◌, All, length,
}
use wallet.Prelude.Int.{ℤ}
use wallet.Rpc.Amount.{Text, signed}

abbrev pub IsDigit : ℕ → Type 0
IsDigit ch = (48 ≤ ch) × (ch ≤ 57)

-- The number that the digits spell after those of `n`.
abbrev pub value : Text → ℕ → ℕ
value [] n = n
value (ch ∷ ds) n = value ds (n * 10 + (ch - 48))

pub data Sign : Text → Bool → Type 0 where
  minus : Sign (45 ∷ []) true
  absent : Sign [] false

-- A single zero, or digits of which the first is not zero.
pub data Whole : Text → Type 0 where
  single_zero : Whole (48 ∷ [])
  digits : (ch : ℕ) (ds : Text) → ch ≢ 48 → All IsDigit (ch ∷ ds) → Whole (ch ∷ ds)

-- A point with at least one digit, or nothing.
pub data Fraction : Text → Text → Type 0 where
  absent : Fraction [] []
  point : (ch : ℕ) (ds : Text) → All IsDigit (ch ∷ ds) → Fraction (46 ∷ ch ∷ ds) (ch ∷ ds)

-- The sign of an exponent, true for a minus.
pub data ExponentSign : Text → Bool → Type 0 where
  absent : ExponentSign [] false
  plus : ExponentSign (43 ∷ []) false
  minus : ExponentSign (45 ∷ []) true

pub data Exponent : Text → Bool → Text → Type 0 where
  absent : Exponent [] false []
  written :
      (e ch : ℕ) (ds sign : Text) (down : Bool)
      → (e ≡ 101) ⊎ (e ≡ 69)
      → ExponentSign sign down
      → All IsDigit (ch ∷ ds)
      → Exponent (e ∷ sign ++ ch ∷ ds) down (ch ∷ ds)

abbrev pub when : Bool → ℕ → ℕ
when true n = n
when false n = 0

abbrev pub unless : Bool → ℕ → ℕ
unless true n = 0
unless false n = n

-- The text is a numeral, and `z` is its value times `10 ^ decimals`, exactly, below `10 ^ 18`.
pub record Spells (val : Text) (decimals : ℕ) (z : ℤ) : Type 0 where
  pub sign : Text
  pub whole : Text
  pub fraction : Text
  pub fraction_digits : Text
  pub exponent : Text
  pub exponent_digits : Text
  pub negative : Bool
  pub down : Bool
  pub size : ℕ
  pub parts : val ≡ sign ++ (whole ++ (fraction ++ exponent))
  pub is_sign : Sign sign negative
  pub is_whole : Whole whole
  pub is_fraction : Fraction fraction fraction_digits
  pub is_exponent : Exponent exponent down exponent_digits
  pub is_value : z ≡ signed negative size
  pub below : size ≤ 999999999999999999
  pub exact :
      size * 10 ^ (length fraction_digits + when down (value exponent_digits 0))
      ≡ value (whole ++ fraction_digits) 0 * 10 ^ (decimals + unless down (value exponent_digits 0))
