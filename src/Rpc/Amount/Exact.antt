-- ===== src/Rpc/Amount/Exact.antt =====
-- What a parsed amount is.
use native.Mathlib.Numerals.{unary_clauses}
use wallet.Prelude.{
  ℕ, zero, suc, ◌+◌, ◌-◌, ◌*◌, ◌^◌, ◌≤◌, ◌≡◌, refl, sym, ◌∙◌, ap, subst, leb, Bool, true, false,
  Option, some, [], ◌∷◌, ◌++◌, append-nil, length, Bool-cases, inl, inr, arith,
}
use wallet.Prelude.Int.{ℤ, pos, negsuc}
use wallet.Rpc.Amount.{
  Text, upper_bound, Mantissa, times_ten, mantissa_sign, whole_part, fraction_part, exponent_part,
  difference, signed, bounded, scale, final_exponent, at_end, parse_fixed_point,
}
use wallet.Rpc.Amount.Numeral.{value, when, unless, Spells}
use wallet.Rpc.Amount.Digits.{bind-some, some_injective, none-some, times_ten-pow, pow_suc}
use wallet.Rpc.Amount.Reads.{
  IsWhole, IsFraction, IsExponent, mantissa_sign_lem, whole_part_lem, fraction_part_lem,
  exponent_part_lem,
}

value-append : (ds es : Text) (n : ℕ) → value (ds ++ es) n ≡ value es (value ds n)
value-append [] es n = refl
value-append (ch ∷ ds) es n = value-append ds es (n * 10 + (ch - 48))

pow_add : (a m n : ℕ) → a * 10 ^ m * 10 ^ n ≡ a * 10 ^ (m + n)
pow_add a m zero = simp unary_clauses (omega arith)
pow_add a m (suc n) =
    let rest = pow_add a m n in
    sym (pow_suc (a * 10 ^ m) n)
    ∙ later (a * 10 ^ m) (10 ^ n)
    ∙ ap (λ x. x * 10) rest
    ∙ sooner a (10 ^ (m + n))
    ∙ pow_suc a (m + n)
    ∙ ap (λ k. a * 10 ^ k) next
  where
    later : (p q : ℕ) → p * 10 * q ≡ p * q * 10
    later p q = omega arith

    sooner : (p q : ℕ) → p * q * 10 ≡ p * 10 * q
    sooner p q = omega arith

    next : suc (m + n) ≡ m + suc n
    next = omega arith

-- A number with `t` zeros less, scaled by `k` in place of `t`.
scaled :
    (m k t u v total : ℕ)
    → k + u ≡ t + v
    → m * 10 ^ t ≡ total
    → m * 10 ^ k * 10 ^ u ≡ total * 10 ^ v
scaled m k t u v total e f =
    pow_add m k u ∙ ap (λ j. m * 10 ^ j) e ∙ sym (pow_add m t v) ∙ ap (λ x. x * 10 ^ v) f

difference-pos : (a b e : ℕ) → difference a b ≡ pos e → e + b ≡ a
unfolding difference
difference-pos a b e h = ground arith

scale-some :
    (negative : Bool) (m : ℕ) (e z : ℤ)
    → scale negative m e ≡ some z
    → (k n : ℕ) × (e ≡ pos k)
      × (n ≡ m * 10 ^ k)
      × (n ≤ 999999999999999999)
      × (z ≡ signed negative n)
unfolding scale bounded upper_bound
scale-some negative m (negsuc k) z h = absurd (none-some h)
scale-some negative m (pos k) z h = elim (Bool-cases (leb 18 k)) [
  | inl y ↦ absurd (none-some (rw y at h))
  | inr l ↦
      let (n, scaled, e) = bind-some (times_ten k m) _ (rw l at h) in
      elim (Bool-cases (leb n 999999999999999999)) [
        | inl y ↦
            (k, n, refl, times_ten-pow k m n scaled, ground arith, sym (some_injective (rw y at e)))
        | inr o ↦ absurd (none-some (rw o at e))
      ]
]

at_end-some :
    (rest : Text) (z : Option ℤ) {r : ℤ} → at_end rest z ≡ some r → (rest ≡ []) × (z ≡ some r)
unfolding at_end
at_end-some [] z h = (refl, h)
at_end-some (ch ∷ rest) z h = absurd (none-some h)

-- The balance of the exponents.
final_exponent-pos :
    (down : Bool) (exponent point_ofs tzeros decimals k : ℕ)
    → final_exponent down exponent point_ofs tzeros decimals ≡ pos k
    → k + (point_ofs + when down exponent) ≡ tzeros + (decimals + unless down exponent)
unfolding final_exponent
final_exponent-pos true exponent point_ofs tzeros decimals k h =
    omega (arith, difference-pos (tzeros + decimals) (exponent + point_ofs) k h)
final_exponent-pos false exponent point_ofs tzeros decimals k h =
    omega (arith, difference-pos (exponent + tzeros + decimals) point_ofs k h)

Spells-of :
    (val : Text) (decimals : ℕ) (z : ℤ) (a b : Mantissa) (i point_ofs exponent : ℕ) (down : Bool)
    (after_whole after_fraction : Text)
    → IsWhole (mantissa_sign val).1 (a, i, after_whole)
    → IsFraction after_whole a (b, point_ofs, after_fraction)
    → IsExponent after_fraction (down, exponent, [])
    → scale
        (mantissa_sign val).0
        b.mantissa
        (final_exponent down exponent point_ofs b.tzeros decimals)
      ≡ some z
    → Spells val decimals z
Spells-of val decimals z a b i point_ofs exponent down after_whole after_fraction
      (w, is_w, split_w, number_w) (f, fd, is_f, split_f, counted, number_f)
      (x, ed, is_x, split_x, spelled) h =
    let (p, is_p, split_p) = mantissa_sign_lem val in
    let (k, n, is_k, is_n, bound, is_z) = scale-some (mantissa_sign val).0 b.mantissa _ z h in
    let total = number_f ∙ ap (value fd) number_w ∙ sym (value-append w fd 0) in
    let balance = final_exponent-pos down exponent point_ofs b.tzeros decimals k is_k in
    record {
      sign = p;
      whole = w;
      fraction = f;
      fraction_digits = fd;
      exponent = x;
      exponent_digits = ed;
      negative = (mantissa_sign val).0;
      down = down;
      size = n;
      parts =
          split_p
          ∙ ap (λ xs. p ++ xs)
              (split_w
                ∙ ap (λ xs. w ++ xs) (split_f ∙ ap (λ xs. f ++ xs) (split_x ∙ append-nil x)));
      is_sign = is_p;
      is_whole = is_w;
      is_fraction = is_f;
      is_exponent = is_x;
      is_value = is_z;
      below = bound;
      exact =
          ap (λ y. y * 10 ^ (length fd + when down (value ed 0))) is_n
          ∙ scaled b.mantissa k b.tzeros (length fd + when down (value ed 0))
              (decimals + unless down (value ed 0)) (value (w ++ fd) 0)
              (subst
                (λ q.
                  k + (q + when down (value ed 0))
                  ≡ b.tzeros + (decimals + unless down (value ed 0)))
                counted
                (subst (λ y. k + (point_ofs + when down y) ≡ b.tzeros + (decimals + unless down y))
                  spelled balance))
              total;
    }

-- A text that is parsed is a numeral of JSON, and the answer is its value in units of
-- `10 ^ -decimals`: exactly, with its sign, and below `10 ^ 18`.
pub parse_fixed_point-Spells :
    (val : Text) (decimals : ℕ) (z : ℤ)
    → parse_fixed_point val decimals ≡ some z
    → Spells val decimals z
unfolding parse_fixed_point
parse_fixed_point-Spells val decimals z h =
    let ((a, i, after_whole), whole, h1) = bind-some (whole_part (mantissa_sign val).1) _ h in
    let ((b, point_ofs, after_fraction), fraction, h2) =
      bind-some (fraction_part after_whole a) _ h1 in
    let ((down, exponent, rest), written, h3) = bind-some (exponent_part after_fraction) _ h2 in
    let (finished, sized) = at_end-some rest _ h3 in
    Spells-of val decimals z a b i point_ofs exponent down after_whole after_fraction
      (whole_part_lem (mantissa_sign val).1 a i after_whole whole)
      (fraction_part_lem after_whole a b point_ofs after_fraction fraction)
      (subst (λ r. IsExponent after_fraction (down, exponent, r)) finished
        (exponent_part_lem after_fraction down exponent rest written))
      sized
