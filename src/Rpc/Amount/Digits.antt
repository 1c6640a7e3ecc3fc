-- ===== src/Rpc/Amount/Digits.antt =====
-- The loops over digits keep the number that the digits spell.
use wallet.Prelude.{
  ℕ, zero, suc, ◌+◌, ◌-◌, ◌*◌, ◌^◌, ◌≡◌, refl, sym, ◌∙◌, ap, ltb, ◌==◌, Bool, true, false, Option,
  none, some, [], ◌∷◌, ◌++◌, All, length, Bool-cases, if◌then◌else◌, ◌/◌, subst, inl, inr, arith,
}
use native.Mathlib.Numerals.{unary_clauses}
use wallet.Rpc.Amount.{
  Text, ◌>>=◌, upper_bound, is_ascii_digit, to_digit, Mantissa, times_ten, process_mantissa_digit,
  read_digits, read_exponent,
}
use wallet.Rpc.Amount.Numeral.{IsDigit, value}

pub bind-some :
    {A B : Type 0} (o : Option A) (f : A → Option B) {b : B}
    → (o >>= f) ≡ some b
    → (a : A) × (o ≡ some a) × (f a ≡ some b)
bind-some none f h = absurd (cc)
bind-some (some a) f h = (a, refl, h)

pub is_ascii_digit_sound : (ch : ℕ) → is_ascii_digit ch ≡ true → IsDigit ch
unfolding is_ascii_digit
is_ascii_digit_sound ch h = (ground arith, ground arith)

pub none-some : {A : Type 0} {a : A} → ◌≡◌ {A = Option A} none (some a) → ⊥
none-some h = cc

if_none-some :
    {A : Type 0} (b : Bool) (o : Option A) {a : A} → (if b then none else o) ≡ some a → o ≡ some a
if_none-some true o h = absurd (cc)
if_none-some false o h = h

move_ten : (m p : ℕ) → m * 10 * p ≡ m * (p * 10)
move_ten m p = omega arith

pub pow_suc : (m n : ℕ) → m * 10 * 10 ^ n ≡ m * 10 ^ suc n
pow_suc m n = simp unary_clauses (move_ten m (10 ^ n))

pub some_injective : {A : Type 0} {a b : A} → ◌≡◌ {A = Option A} (some a) (some b) → a ≡ b
some_injective h = cc

pub times_ten-pow : (n m k : ℕ) → times_ten n m ≡ some k → k ≡ m * 10 ^ n
unfolding times_ten
times_ten-pow zero m k h = sym (some_injective h) ∙ whole
  where
    whole : m ≡ m * 10 ^ 0
    whole = omega arith
times_ten-pow (suc n) m k h =
    let rest = times_ten-pow n (m * 10) k in
    rest (if_none-some (ltb (upper_bound / 10) m) _ h) ∙ shifted
  where
    shifted : m * 10 * 10 ^ n ≡ m * 10 ^ suc n
    shifted = pow_suc m n

-- The number that a mantissa stands for.
abbrev pub number_of : Mantissa → ℕ
number_of a = a.mantissa * 10 ^ a.tzeros

pub process_mantissa_digit-number :
    (ch : ℕ) (a b : Mantissa)
    → process_mantissa_digit ch a ≡ some b
    → number_of b ≡ number_of a * 10 + (ch - 48)
unfolding process_mantissa_digit to_digit
process_mantissa_digit-number ch a b h = elim (Bool-cases (ch == 48)) [
  | inl y ↦ zero_digit y (rw y at h)
  | inr n ↦ other_digit (rw n at h)
]
  where
    zero_digit :
        ch == 48 ≡ true
        → some (record a { tzeros = suc a.tzeros }) ≡ some b
        → number_of b ≡ number_of a * 10 + (ch - 48)
    zero_digit y e =
        subst (λ (x : Mantissa). number_of x ≡ number_of a * 10 + (ch - 48)) (some_injective e)
          (nothing (eq y))
      where
        eq : ch == 48 ≡ true → ch ≡ 48
        eq y = ground arith

        nothing :
            ch ≡ 48 → a.mantissa * 10 ^ suc a.tzeros ≡ a.mantissa * 10 ^ a.tzeros * 10 + (ch - 48)
        nothing e = omega (arith, pow_suc a.mantissa a.tzeros)

    other_digit :
        (times_ten (suc a.tzeros) a.mantissa >>= λ m.
        some (record { mantissa = m + (ch - 48); tzeros = 0 }))
          ≡ some b
        → number_of b ≡ number_of a * 10 + (ch - 48)
    other_digit e =
        let (m, scaled, made) = bind-some (times_ten (suc a.tzeros) a.mantissa) _ e in
        subst (λ (x : Mantissa). number_of x ≡ number_of a * 10 + (ch - 48)) (some_injective made)
          (added m (times_ten-pow (suc a.tzeros) a.mantissa m scaled))
      where
        added :
            (m : ℕ)
            → m ≡ a.mantissa * 10 ^ suc a.tzeros
            → (m + (ch - 48)) * 10 ^ 0 ≡ a.mantissa * 10 ^ a.tzeros * 10 + (ch - 48)
        added m e = omega (arith, pow_suc a.mantissa a.tzeros)

-- The text does not go on with a digit.
abbrev pub Stops : Text → Type 0
Stops [] = Unit
Stops (ch ∷ val) = is_ascii_digit ch ≡ false

-- What the digits that are read leave.
abbrev pub ReadDigits : Text → Mantissa → ℕ → Mantissa × ℕ × Text → Type 0
ReadDigits val a count (b, k, rest) =
    (ds : Text) × (val ≡ ds ++ rest)
    × All IsDigit ds
    × Stops rest
    × (k ≡ count + length ds)
    × (number_of b ≡ value ds (number_of a))

pub read_digits_lem :
    (val : Text) (a : Mantissa) (count : ℕ) (b : Mantissa) (k : ℕ) (rest : Text)
    → read_digits val a count ≡ some (b, k, rest)
    → ReadDigits val a count (b, k, rest)
unfolding read_digits
read_digits_lem [] a count b k rest h =
    subst (ReadDigits [] a count) (some_injective h) ([], refl, tt, tt, omega arith, refl)
read_digits_lem (ch ∷ val) a count b k rest h =
    let later = read_digits_lem val in
    elim (Bool-cases (is_ascii_digit ch)) [
      | inr n ↦
          subst (ReadDigits (ch ∷ val) a count) (some_injective (rw n at h))
            ([], refl, tt, n, omega arith, refl)
      | inl y ↦
          digit later (is_ascii_digit_sound ch y) (
            bind-some (process_mantissa_digit ch a) (λ c. read_digits val c (suc count))
              (rw y at h))
    ]
  where
    digit :
        ((a : Mantissa) (count : ℕ) (b : Mantissa) (k : ℕ) (rest : Text)
          → read_digits val a count ≡ some (b, k, rest)
          → ReadDigits val a count (b, k, rest))
        → IsDigit ch
        → (c : Mantissa) × (process_mantissa_digit ch a ≡ some c)
          × (read_digits val c (suc count) ≡ some (b, k, rest))
        → ReadDigits (ch ∷ val) a count (b, k, rest)
    digit later d (c, processed, e) =
        let (ds, parts, all, stops, counted, number) = later c (suc count) b k rest e in
        (
          ch ∷ ds,
          ap (λ xs. ch ∷ xs) parts,
          (d, all),
          stops,
          omega (arith, counted),
          number ∙ ap (value ds) (process_mantissa_digit-number ch a c processed),
        )

-- The same for the exponent.
abbrev pub ReadExponent : Text → ℕ → ℕ × Text → Type 0
ReadExponent val e (e', rest) =
    (ds : Text) × (val ≡ ds ++ rest) × All IsDigit ds × Stops rest × (e' ≡ value ds e)

pub read_exponent_lem :
    (val : Text) (e e' : ℕ) (rest : Text)
    → read_exponent val e ≡ some (e', rest)
    → ReadExponent val e (e', rest)
unfolding read_exponent to_digit
read_exponent_lem [] e e' rest h =
    subst (ReadExponent [] e) (some_injective h) ([], refl, tt, tt, refl)
read_exponent_lem (ch ∷ val) e e' rest h =
    let later = read_exponent_lem val (e * 10 + (ch - 48)) e' rest in
    elim (Bool-cases (is_ascii_digit ch)) [
      | inr n ↦
          subst (ReadExponent (ch ∷ val) e) (some_injective (rw n at h)) ([], refl, tt, n, refl)
      | inl y ↦
          let (ds, parts, all, stops, spelled) =
            later (if_none-some (ltb (upper_bound / 10) e) _ (rw y at h)) in
          (ch ∷ ds, ap (λ xs. ch ∷ xs) parts, (is_ascii_digit_sound ch y, all), stops, spelled)
    ]
