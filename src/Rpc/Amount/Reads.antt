-- ===== src/Rpc/Amount/Reads.antt =====
-- What the parts of a numeral are read as.
use wallet.Prelude.{
  ℕ, ◌≡◌, ◌≢◌, ◌⊎◌, refl, sym, ◌∙◌, ap, subst, ◌==◌, ◌||◌, Bool, true, false, Option, some, [], ◌∷◌,
  ◌++◌, append_assoc, All, length, Bool-cases, inl, inr, arith,
}
use wallet.Rpc.Amount.{
  Text, is_ascii_digit, Mantissa, read_digits, mantissa_sign, whole_part, require_digit,
  fraction_part, read_exponent, exponent_sign, signed_exponent, exponent_part,
}
use wallet.Rpc.Amount.Numeral.{IsDigit, value, Sign, Whole, Fraction, ExponentSign, Exponent}
use wallet.Rpc.Amount.Digits.{
  bind-some, some_injective, none-some, number_of, Stops, ReadDigits, read_digits_lem, ReadExponent,
  read_exponent_lem,
}

nonempty_digits :
    (ch : ℕ) (val ds rest : Text)
    → ch ∷ val ≡ ds ++ rest
    → Stops rest
    → is_ascii_digit ch ≡ true
    → (ds' : Text) × (ds ≡ ch ∷ ds')
nonempty_digits ch val [] rest e s y = absurd (clash (subst Stops (sym e) s))
  where
    clash : is_ascii_digit ch ≡ false → ⊥
    clash n = cc
nonempty_digits ch val (c ∷ ds') rest e s y = (ds', cc)

require_digit-some :
    {A : Type 0} (val : Text) (o : Option A) {a : A}
    → require_digit val o ≡ some a
    → (ch : ℕ) × (val' : Text) × (val ≡ ch ∷ val') × (is_ascii_digit ch ≡ true) × (o ≡ some a)
unfolding require_digit
require_digit-some [] o h = absurd (cc)
require_digit-some (ch ∷ val) o h = elim (Bool-cases (is_ascii_digit ch)) [
  | inl y ↦ (ch, val, refl, y, (rw y at h))
  | inr n ↦ absurd (none-some (rw n at h))
]

pub mantissa_sign_lem :
    (val : Text) → (p : Text) × Sign p (mantissa_sign val).0 × (val ≡ p ++ (mantissa_sign val).1)
unfolding mantissa_sign
mantissa_sign_lem [] = ([], Sign.absent, refl)
mantissa_sign_lem (ch ∷ val) = elim (Bool-cases (ch == 45)) [
  | inl y ↦ rw y (45 ∷ [], Sign.minus, ap (λ c. c ∷ val) (eq y))
  | inr n ↦ rw n ([], Sign.absent, refl)
]
  where
    eq : ch == 45 ≡ true → ch ≡ 45
    eq y = ground arith

exponent_sign_lem :
    (val : Text)
    → (p : Text) × ExponentSign p (exponent_sign val).0 × (val ≡ p ++ (exponent_sign val).1)
unfolding exponent_sign
exponent_sign_lem [] = ([], ExponentSign.absent, refl)
exponent_sign_lem (ch ∷ val) = elim (Bool-cases (ch == 43)) [
  | inl y ↦ rw y (43 ∷ [], ExponentSign.plus, ap (λ c. c ∷ val) (is_plus y))
  | inr n ↦ rw n (elim (Bool-cases (ch == 45)) [
    | inl y ↦ rw y (45 ∷ [], ExponentSign.minus, ap (λ c. c ∷ val) (is_minus y))
    | inr m ↦ rw m ([], ExponentSign.absent, refl)
  ])
]
  where
    is_plus : ch == 43 ≡ true → ch ≡ 43
    is_plus y = ground arith

    is_minus : ch == 45 ≡ true → ch ≡ 45
    is_minus y = ground arith

abbrev pub IsWhole : Text → Mantissa × ℕ × Text → Type 0
IsWhole val (a, k, rest) = (w : Text) × Whole w × (val ≡ w ++ rest) × (number_of a ≡ value w 0)

pub whole_part_lem :
    (val : Text) (a : Mantissa) (k : ℕ) (rest : Text)
    → whole_part val ≡ some (a, k, rest)
    → IsWhole val (a, k, rest)
unfolding whole_part
whole_part_lem [] a k rest h = absurd (cc)
whole_part_lem (ch ∷ val) a k rest h = elim (Bool-cases (ch == 48)) [
  | inl y ↦
      subst (IsWhole (ch ∷ val)) (some_injective (rw y at h))
        (48 ∷ [], Whole.single_zero, ap (λ c. c ∷ val) (is_zero y), refl)
  | inr n ↦ elim (Bool-cases (is_ascii_digit ch)) [
    | inr m ↦ absurd (none-some (rw (n, m) at h))
    | inl y ↦ many n y (read_digits_lem (ch ∷ val) _ _ a k rest (rw (n, y) at h))
  ]
]
  where
    is_zero : ch == 48 ≡ true → ch ≡ 48
    is_zero y = ground arith

    not_zero : ch == 48 ≡ false → ch ≢ 48
    not_zero n e = ground arith

    many :
        ch == 48 ≡ false
        → is_ascii_digit ch ≡ true
        → ReadDigits (ch ∷ val) (record { mantissa = 0; tzeros = 0 }) 0 (a, k, rest)
        → IsWhole (ch ∷ val) (a, k, rest)
    many n y (ds, parts, all, stops, counted, number) =
        let (ds', e) = nonempty_digits ch val ds rest parts stops y in
        (
          ds,
          subst Whole (sym e) (Whole.digits ch ds' (not_zero n) (subst (All IsDigit) e all)),
          parts,
          number,
        )

abbrev pub IsFraction : Text → Mantissa → Mantissa × ℕ × Text → Type 0
IsFraction val a (b, k, rest) =
    (f fd : Text) × Fraction f fd
    × (val ≡ f ++ rest)
    × (k ≡ length fd)
    × (number_of b ≡ value fd (number_of a))

pub fraction_part_lem :
    (val : Text) (a b : Mantissa) (k : ℕ) (rest : Text)
    → fraction_part val a ≡ some (b, k, rest)
    → IsFraction val a (b, k, rest)
unfolding fraction_part
fraction_part_lem [] a b k rest h =
    subst (IsFraction [] a) (some_injective h) ([], [], Fraction.absent, refl, refl, refl)
fraction_part_lem (ch ∷ val) a b k rest h = elim (Bool-cases (ch == 46)) [
  | inr n ↦
      subst (IsFraction (ch ∷ val) a) (some_injective (rw n at h))
        ([], [], Fraction.absent, refl, refl, refl)
  | inl y ↦
      let (c, val', shape, digit, read) =
        require_digit-some val (read_digits val a 0) (rw y at h) in
      after_point y c val' shape digit (read_digits_lem val a 0 b k rest read)
]
  where
    is_point : ch == 46 ≡ true → ch ≡ 46
    is_point y = ground arith

    after_point :
        ch == 46 ≡ true
        → (c : ℕ) (val' : Text) → val ≡ c ∷ val'
        → is_ascii_digit c ≡ true
        → ReadDigits val a 0 (b, k, rest)
        → IsFraction (ch ∷ val) a (b, k, rest)
    after_point y c val' shape digit (ds, parts, all, stops, counted, number) =
        let (ds', e) = nonempty_digits c val' ds rest (sym shape ∙ parts) stops digit in
        (
          46 ∷ ds,
          ds,
          subst (λ xs. Fraction (46 ∷ xs) xs) (sym e)
              (Fraction.point c ds' (subst (All IsDigit) e all)),
          ap (λ x. x ∷ val) (is_point y) ∙ ap (λ xs. 46 ∷ xs) parts,
          omega (arith, counted),
          number,
        )

abbrev pub IsExponent : Text → Bool × ℕ × Text → Type 0
IsExponent val (down, e, rest) =
    (x ed : Text) × Exponent x down ed × (val ≡ x ++ rest) × (e ≡ value ed 0)

-- The sign and the digits after the `e`.
signed_exponent_lem :
    (ch : ℕ) (val : Text) (down : Bool) (e : ℕ) (rest : Text)
    → (ch ≡ 101) ⊎ (ch ≡ 69)
    → signed_exponent (exponent_sign val) ≡ some (down, e, rest)
    → IsExponent (ch ∷ val) (down, e, rest)
unfolding signed_exponent
signed_exponent_lem ch val down e rest is_e h =
    let (sign, is_sign, split) = exponent_sign_lem val in
    let after = (exponent_sign val).1 in
    let ((e', rest'), read, made) = bind-some (require_digit after (read_exponent after 0)) _ h in
    let (c, val', shape, digit, run) = require_digit-some after (read_exponent after 0) read in
    subst (IsExponent (ch ∷ val)) (some_injective made) (
      digits sign is_sign split e' rest' c val' shape digit
        (read_exponent_lem after 0 e' rest' run))
  where
    digits :
        (sign : Text)
        → ExponentSign sign (exponent_sign val).0
        → val ≡ sign ++ (exponent_sign val).1
        → (e' : ℕ) (rest' : Text) (c : ℕ) (val' : Text) → (exponent_sign val).1 ≡ c ∷ val'
        → is_ascii_digit c ≡ true
        → ReadExponent (exponent_sign val).1 0 (e', rest')
        → IsExponent (ch ∷ val) ((exponent_sign val).0, e', rest')
    digits sign is_sign split e' rest' c val' shape digit (ds, parts, all, stops, spelled) =
        let (ds', eq) = nonempty_digits c val' ds rest' (sym shape ∙ parts) stops digit in
        (
          ch ∷ sign ++ ds,
          ds,
          subst (λ xs. Exponent (ch ∷ sign ++ xs) (exponent_sign val).0 xs) (sym eq)
              (Exponent.written ch c ds' sign _ is_e is_sign (subst (All IsDigit) eq all)),
          ap (λ xs. ch ∷ xs)
              (split ∙ ap (λ xs. sign ++ xs) parts ∙ sym (append_assoc sign ds rest')),
          spelled,
        )

pub exponent_part_lem :
    (val : Text) (down : Bool) (e : ℕ) (rest : Text)
    → exponent_part val ≡ some (down, e, rest)
    → IsExponent val (down, e, rest)
unfolding exponent_part
exponent_part_lem [] down e rest h =
    subst (IsExponent []) (some_injective h) ([], [], Exponent.absent, refl, refl)
exponent_part_lem (ch ∷ val) down e rest h = elim (Bool-cases (ch == 101 || ch == 69)) [
  | inr n ↦
      subst (IsExponent (ch ∷ val)) (some_injective (rw n at h))
        ([], [], Exponent.absent, refl, refl)
  | inl y ↦ signed_exponent_lem ch val down e rest (is_e y) (rw y at h)
]
  where
    is_e : ch == 101 || ch == 69 ≡ true → (ch ≡ 101) ⊎ (ch ≡ 69)
    is_e y = ground arith
