-- ===== src/Payments/Outputs/Taken.antt =====
-- What `position` finds among the expected payments and `swap_remove` takes out.
use mathlib.Core.Option
use mathlib.Core.List.Perm
use mathlib.Core.List.{Perm, Mem, not-mem-nil, mem-cons}
use mathlib.Core.Logic.Or
use wallet.Prelude.{
  ℕ, zero, suc, ◌≡◌, refl, sym, subst, inl, inr, true, Option, none, some, List, [], ◌∷◌, Result,
  ok, err, ◌>>◌, All, Bool-cases, arith,
}
use wallet.Payments.Address.{TransparentAddress, same_address, same_address→eq, same_address_refl}
use wallet.Payments.Outputs.{position, second, last_first, swap_remove, Payment, is_payment}

pub is_payment→eq :
    (a : TransparentAddress) (v : ℕ) (p : Payment) → is_payment a v p ≡ true → p ≡ (a, v)
unfolding is_payment
is_payment→eq a v (b, w) h = elim (Bool-cases (same_address b a)) [
  | inl same ↦ let e = same_address→eq b a same in ground arith
  | inr other ↦ ground arith
]

pub is_payment_refl : (a : TransparentAddress) (v : ℕ) → is_payment a v (a, v) ≡ true
unfolding is_payment
is_payment_refl a v = rw (same_address_refl a) (ground arith)

suc-ne-zero : (o : Option ℕ) → Option.map suc o ≡ some zero → ⊥
suc-ne-zero none h = cc
suc-ne-zero (some i) h = cc

zero-ne-suc : (i : ℕ) → ◌≡◌ {A = Option ℕ} (some zero) (some (suc i)) → ⊥
zero-ne-suc i h = cc

suc-injective : (o : Option ℕ) (i : ℕ) → Option.map suc o ≡ some (suc i) → o ≡ some i
suc-injective none i h = cc
suc-injective (some j) i h = ground arith

map-none : (o : Option ℕ) → Option.map suc o ≡ none → o ≡ none
map-none none h = refl
map-none (some j) h = cc

pub >>-eq-ok :
    {E : Type 0} (first next : Result (Unit {0}) E)
    → (first >> next) ≡ ok tt
    → (first ≡ ok tt) × (next ≡ ok tt)
>>-eq-ok (err e) next h = cc
>>-eq-ok (ok _) next h = (refl, h)

pub nil-ne-cons : {A : Type 0} {x : A} {xs : List A} → ◌≡◌ {A = List A} [] (x ∷ xs) → ⊥
nil-ne-cons h = cc

module _ {A : Type 0} where
  pub second-perm : (x : A) (xs : List A) → Perm (x ∷ xs) (second x xs)
  unfolding second
  second-perm x [] = Perm.refl (x ∷ [])
  second-perm x (y ∷ ys) = Perm.swap y x ys

  pub last_first-perm : (xs : List A) → Perm xs (last_first xs)
  unfolding last_first
  last_first-perm [] = Perm.nil
  last_first-perm (x ∷ xs) =
      Perm.trans (Perm.cons x (last_first-perm xs)) (second-perm x (last_first xs))

  module _ (P : A → Type 0) where
    second-All : (x : A) (xs : List A) → P x → All P xs → All P (second x xs)
    unfolding second
    second-All x [] p h = (p, tt)
    second-All x (y ∷ ys) p h = (h.0, (p, h.1))

    last_first-All : (xs : List A) → All P xs → All P (last_first xs)
    unfolding last_first
    last_first-All [] h = tt
    last_first-All (x ∷ xs) h = second-All x (last_first xs) h.0 (last_first-All xs h.1)

module _ (a : TransparentAddress) (v : ℕ) where
  -- What `position` finds is the payment, and `swap_remove` takes it out.
  pub position-some-perm :
      (ps : List Payment) (i : ℕ)
      → position (is_payment a v) ps ≡ some i
      → Perm ps ((a, v) ∷ swap_remove i ps)
  unfolding position swap_remove
  position-some-perm [] i h = cc
  position-some-perm (p ∷ ps) zero h = elim (Bool-cases (is_payment a v p)) [
    | inl same ↦ rw (is_payment→eq a v p same) (Perm.cons (a, v) (last_first-perm ps))
    | inr other ↦ absurd (suc-ne-zero (position (is_payment a v) ps) (rw other at h))
  ]
  position-some-perm (p ∷ ps) (suc i) h = elim (Bool-cases (is_payment a v p)) [
    | inl same ↦ absurd (zero-ne-suc i (rw same at h))
    | inr other ↦
        Perm.trans
          (Perm.cons p (
            position-some-perm ps i
              (suc-injective (position (is_payment a v) ps) i (rw other at h))))
          (Perm.swap (a, v) p (swap_remove i ps))
  ]

  pub position-none-not-mem :
      (ps : List Payment) → position (is_payment a v) ps ≡ none → Mem (a, v) ps → ⊥
  unfolding position
  position-none-not-mem [] h m = not-mem-nil m
  position-none-not-mem (p ∷ ps) h m = elim (Bool-cases (is_payment a v p)) [
    | inl same ↦ absurd (cc)
    | inr other ↦
        Or.elim (hlevel) (mem-cons.0 m)
          (λ e. let same : is_payment a v p ≡ true = rw (sym e) (is_payment_refl a v) in cc)
          (position-none-not-mem ps (map-none (position (is_payment a v) ps) (rw other at h)))
  ]

  pub position-All :
      (P : Payment → Type 0) (ps : List Payment) (i : ℕ)
      → position (is_payment a v) ps ≡ some i
      → All P ps
      → P (a, v) × All P (swap_remove i ps)
  unfolding position swap_remove
  position-All P [] i h ps = cc
  position-All P (p ∷ ps) zero h all = elim (Bool-cases (is_payment a v p)) [
    | inl same ↦ (subst P (is_payment→eq a v p same) all.0, last_first-All P ps all.1)
    | inr other ↦ absurd (suc-ne-zero (position (is_payment a v) ps) (rw other at h))
  ]
  position-All P (p ∷ ps) (suc i) h all = elim (Bool-cases (is_payment a v p)) [
    | inl same ↦ absurd (zero-ne-suc i (rw same at h))
    | inr other ↦
        let (found, rest) =
          position-All P ps i (suc-injective (position (is_payment a v) ps) i (rw other at h))
            all.1 in
        (found, (all.0, rest))
  ]
