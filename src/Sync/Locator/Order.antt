-- ===== src/Sync/Locator/Order.antt =====
-- The order of the sampled heights, how densely they lie, and that the locator is built from them.
use mathlib.Core.List.{Memᴰ}
use wallet.Prelude.{
  ℕ, zero, suc, ◌+◌, ◌-◌, ◌*◌, ◌≤◌, ◌<◌, ◌≡◌, refl, ltb, Option, none, some, List, [], ◌∷◌, ◌++◌,
  inl, inr, Bool-cases, arith, lt-cases,
}
use wallet.Sync.Locator.{
  max_locator_depth, checked_mul, checked_sub, successors, below, take_above, locator_block_heights,
}

-- Each element is less than the one before it, the first less than the bound.
abbrev pub Descends : ℕ → List ℕ → Type 0
Descends bound [] = Unit
Descends bound (x ∷ xs) = (x < bound) × Descends x xs

Descends-raise : (b c : ℕ) (xs : List ℕ) → b ≤ c → Descends b xs → Descends c xs
Descends-raise b c [] h d = tt
Descends-raise b c (x ∷ xs) h d = (omega arith, d.1)

below-short :
    (tip step : ℕ) (steps : List ℕ) → tip < step → below tip (step ∷ steps) ≡ below tip steps
unfolding below checked_sub
below-short tip step steps h = ground arith

below-enough :
    (tip step : ℕ) (steps : List ℕ)
    → step ≤ tip
    → below tip (step ∷ steps) ≡ (tip - step) ∷ below tip steps
unfolding below checked_sub
below-enough tip step steps h = ground arith

take_above-kept :
    (floor x : ℕ) (xs : List ℕ) → floor < x → take_above floor (x ∷ xs) ≡ x ∷ take_above floor xs
unfolding take_above
take_above-kept floor x xs h = ground arith

take_above-stop : (floor x : ℕ) (xs : List ℕ) → x ≤ floor → take_above floor (x ∷ xs) ≡ []
unfolding take_above
take_above-stop floor x xs h = ground arith

checked_mul-some : (step next : ℕ) → checked_mul step 2 ≡ some next → next ≡ step * 2
unfolding checked_mul
checked_mul-some step next h = ground arith

below-Descends :
    (tip fuel bound : ℕ) (first : Option ℕ)
    → ((step : ℕ) → first ≡ some step → (0 < step) × (tip < bound + step))
    → Descends bound (below tip (successors fuel first))
unfolding successors
below-Descends tip zero bound first h = unfold below in tt
below-Descends tip (suc fuel) bound none h = unfold below in tt
below-Descends tip (suc fuel) bound (some step) h =
    let (positive, near) = h step refl in
    let onward = below-Descends tip fuel in
    elim (lt-cases tip step) [
      | inl short ↦ rw (below-short tip step _ short) (
          onward bound (checked_mul step 2)
            (λ next e. let d = checked_mul-some step next e in (omega arith, omega arith)))
      | inr enough ↦ rw (below-enough tip step _ (omega arith)) (
        omega arith,
        onward (tip - step) (checked_mul step 2)
            (λ next e. let d = checked_mul-some step next e in (omega arith, omega arith)),
      )
    ]

take_above-Descends :
    (floor bound : ℕ) (xs : List ℕ)
    → floor < bound
    → Descends bound xs
    → Descends bound (take_above floor xs ++ floor ∷ [])
unfolding take_above
take_above-Descends floor bound [] h d = (h, tt)
take_above-Descends floor bound (x ∷ xs) h d = elim (Bool-cases (ltb floor x)) [
  | inl y ↦ rw y (d.0, take_above-Descends floor x xs (ground arith) d.1)
  | inr n ↦ rw n (h, tt)
]

-- The sampled heights fall strictly, from the tip.
pub locator_block_heights-Descends : (tip : ℕ) → Descends (suc tip) (locator_block_heights tip)
unfolding locator_block_heights max_locator_depth
locator_block_heights-Descends tip =
    take_above-Descends (tip - max_locator_depth) (suc tip)
      (tip ∷ below tip (successors 33 (some 1))) (omega arith)
      (omega arith, below-Descends tip 33 tip (some 1) (λ step e. (ground arith, ground arith)))

-- The step after `fuel` doublings.
abbrev doubled : ℕ → ℕ → ℕ
doubled zero step = step
doubled (suc fuel) step = doubled fuel (step * 2)

-- A sample at a depth between `depth` and twice `depth` below the tip.
abbrev pub Near : (tip depth : ℕ) → List ℕ → Type 0
Near tip depth xs = (s : ℕ) × Memᴰ s xs × (s + depth ≤ tip) × (tip ≤ s + 2 * depth)

Near-∷ : (tip depth x : ℕ) (xs : List ℕ) → Near tip depth xs → Near tip depth (x ∷ xs)
Near-∷ tip depth x xs (s, m, below_it, near) = (s, Memᴰ.tail m, below_it, near)

last_Mem : (x : ℕ) (xs : List ℕ) → Memᴰ x (xs ++ x ∷ [])
last_Mem x [] = Memᴰ.head refl
last_Mem x (y ∷ xs) = Memᴰ.tail (last_Mem x xs)

Near-floor :
    (tip floor depth : ℕ) (xs : List ℕ)
    → floor + depth ≤ tip
    → tip ≤ floor + 2 * depth
    → Near tip depth (xs ++ floor ∷ [])
Near-floor tip floor depth xs f n = (floor, last_Mem floor xs, f, n)

checked_mul-small : (step : ℕ) → step < 1000 → checked_mul step 2 ≡ some (step * 2)
unfolding checked_mul
checked_mul-small step h = ground arith

sample_Near :
    (tip floor depth fuel step : ℕ)
    → floor + depth ≤ tip
    → depth ≤ 1000
    → step < 2 * depth
    → 2 * depth ≤ doubled fuel step
    → Near tip depth (take_above floor (below tip (successors fuel (some step))) ++ floor ∷ [])
unfolding successors
sample_Near tip floor depth zero step f d s r = absurd (omega arith)
sample_Near tip floor depth (suc fuel) step f d s r =
    let onward = sample_Near tip floor depth fuel (step * 2) f d in
    elim (lt-cases tip step) [
      | inl short ↦ rw (below-short tip step _ short) (Near-floor tip floor depth _ f (omega arith))
      | inr enough ↦ rw (below-enough tip step _ enough) (elim (lt-cases floor (tip - step)) [
        | inr low ↦
            rw (take_above-stop floor (tip - step) _ low)
              (Near-floor tip floor depth [] f (omega arith))
        | inl high ↦ rw (take_above-kept floor (tip - step) _ high) (elim (lt-cases step depth) [
          | inr deep ↦ (tip - step, Memᴰ.head refl, omega arith, omega arith)
          | inl shallow ↦
              rw (checked_mul-small step (omega arith))
                (Near-∷ tip depth (tip - step) _ (onward (omega arith) r))
        ])
      ])
    ]

-- Every height of the window, from 1000 below the tip to just below the tip, has a sample at or
-- below it, at most twice as deep below the tip.
pub locator_block_heights-Near :
    (tip depth : ℕ)
    → 0 < depth
    → depth ≤ 1000
    → depth ≤ tip
    → Near tip depth (locator_block_heights tip)
unfolding locator_block_heights max_locator_depth
locator_block_heights-Near tip depth p d t =
    rw (take_above-kept (tip - 1000) tip (below tip (successors 33 (some 1))) (omega arith)) (
      Near-∷ tip depth tip _
        (sample_Near tip (tip - 1000) depth 33 1 (omega arith) d (omega arith) (omega arith)))
