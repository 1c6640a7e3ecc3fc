-- ===== src/Sync/Recovery/Ladder.antt =====
-- The rungs that successive divergences are given.
use wallet.Prelude.{
  ℕ, zero, suc, ◌<◌, ◌≤◌, ◌≡◌, refl, sym, ap, ◌∙◌, Option, none, some, List, [], ◌∷◌, ◌++◌, All,
  get_elem?, get_elem?-some-lt, get_elem?-past, ◌≢◌, Option-cases, arith, inl, inr,
}
use wallet.Sync.Recovery.{
  tree_recovery_ladder, TreeRecovery, no_recovery, get_or_insert, take_rung, next_depth,
  progress_past, note_progress,
}

-- What `steady_state` reports to the bookkeeping: a divergence seen with the wallet at a tip, or a
-- scan up to one.
pub data Report : Type 0 where
  diverged : ℕ → Report
  scanned : ℕ → Report

abbrev given : Option ℕ → List ℕ → List ℕ
given none rest = rest
given (some depth) rest = depth ∷ rest

-- The depths that the reports are answered with.
unfoldable pub depths : TreeRecovery → List Report → List ℕ
depths r [] = []
depths r (diverged tip ∷ reports) = given (next_depth r tip).1 (depths (next_depth r tip).0 reports)
depths r (scanned tip ∷ reports) = depths (note_progress r tip).0 reports

-- The wallet has not been scanned past the height.
abbrev pub StaysWithin : ℕ → Report → Type 0
StaysWithin high_water (diverged tip) = Unit
StaysWithin high_water (scanned tip) = tip ≤ high_water

abbrev pub drop : ℕ → List ℕ → List ℕ
drop zero xs = xs
drop (suc n) [] = []
drop (suc n) (x ∷ xs) = drop n xs

drop_next : (n x : ℕ) (xs : List ℕ) → get_elem? xs n ≡ some x → drop n xs ≡ x ∷ drop (suc n) xs
drop_next n x [] h = cc
drop_next zero x (y ∷ xs) h = ground arith
drop_next (suc n) x (y ∷ xs) h = drop_next n x xs h

note_progress-within :
    (r : TreeRecovery) (high_water tip : ℕ)
    → r.high_water ≡ some high_water
    → tip ≤ high_water
    → (note_progress r tip).0 ≡ r
unfolding note_progress progress_past
note_progress-within r high_water tip h l = ground arith

-- The answer to a divergence: the rung of the attempts so far, counted, or none when it is past the
-- ladder. The high water is kept, or set to the tip.
pub next_depth_lem :
    (r : TreeRecovery) (tip : ℕ)
    → ((next_depth r tip).0.high_water ≡ some (get_or_insert r.high_water tip))
      × ((next_depth r tip).1 ≡ get_elem? tree_recovery_ladder r.attempts)
unfolding next_depth take_rung
next_depth_lem r tip = elim (Option-cases (get_elem? tree_recovery_ladder r.attempts)) [
  | inl n ↦ rw n (refl, refl)
  | inr (d, e) ↦ rw e (refl, refl)
]

attempts_none :
    (r : TreeRecovery) (tip : ℕ)
    → get_elem? tree_recovery_ladder r.attempts ≡ none
    → (next_depth r tip).0.attempts ≡ r.attempts
unfolding next_depth take_rung
attempts_none r tip h = rw h refl

attempts_some :
    (r : TreeRecovery) (tip depth : ℕ)
    → get_elem? tree_recovery_ladder r.attempts ≡ some depth
    → (next_depth r tip).0.attempts ≡ suc r.attempts
unfolding next_depth take_rung
attempts_some r tip depth h = rw h refl

-- A divergence that is given a rung had one left, and counts it.
pub next_depth-rung :
    (r : TreeRecovery) (tip : ℕ)
    → (next_depth r tip).1 ≢ none
    → (r.attempts < 6) × ((next_depth r tip).0.attempts ≡ suc r.attempts)
unfolding tree_recovery_ladder
next_depth-rung r tip h = elim (Option-cases (get_elem? tree_recovery_ladder r.attempts)) [
  | inl n ↦ absurd (h ((next_depth_lem r tip).1 ∙ n))
  | inr (depth, e) ↦
      (get_elem?-some-lt tree_recovery_ladder r.attempts depth e, attempts_some r tip depth e)
]

pub next_depth-spent : (r : TreeRecovery) (tip : ℕ) → 6 ≤ r.attempts → (next_depth r tip).1 ≡ none
unfolding tree_recovery_ladder
next_depth-spent r tip h =
    (next_depth_lem r tip).1 ∙ get_elem?-past tree_recovery_ladder r.attempts h

kept_high_water :
    (r : TreeRecovery) (high_water tip : ℕ)
    → r.high_water ≡ some high_water
    → (next_depth r tip).0.high_water ≡ some high_water
kept_high_water r high_water tip h =
    (next_depth_lem r tip).0
    ∙ ap (λ o. some (get_or_insert o tip)) h
    ∙ (unfold get_or_insert in refl)

-- While the wallet has not been scanned past the tip where the divergence was first seen, the
-- depths given are the rungs of the ladder in their order, from the rung of the attempts so far.
depths-ladder :
    (r : TreeRecovery) (high_water : ℕ) (reports : List Report)
    → r.high_water ≡ some high_water
    → All (StaysWithin high_water) reports
    → (rest : List ℕ) × (depths r reports ++ rest ≡ drop r.attempts tree_recovery_ladder)
unfolding depths
depths-ladder r high_water [] h a = (drop r.attempts tree_recovery_ladder, refl)
depths-ladder r high_water (scanned tip ∷ reports) h a =
    rw (note_progress-within r high_water tip h a.0) (depths-ladder r high_water reports h a.1)
depths-ladder r high_water (diverged tip ∷ reports) h a =
    let (rest, e) =
      depths-ladder (next_depth r tip).0 high_water reports (kept_high_water r high_water tip h)
        a.1 in
    elim (Option-cases (get_elem? tree_recovery_ladder r.attempts)) [
      | inl n ↦ (
        rest,
        rw ((next_depth_lem r tip).1, n)
            (e ∙ ap (λ k. drop k tree_recovery_ladder) (attempts_none r tip n)),
      )
      | inr (depth, g) ↦ (
        rest,
        rw ((next_depth_lem r tip).1, g)
            (ap (λ xs. depth ∷ xs)
                (e ∙ ap (λ k. drop k tree_recovery_ladder) (attempts_some r tip depth g))
              ∙ sym (drop_next r.attempts depth tree_recovery_ladder g)),
      )
    ]

-- From no recovery, a divergence seen at a tip and the reports after it, as long as the wallet is not
-- scanned past that tip, are given the rungs of the ladder in their order, each at most once.
pub depths_lem :
    (high_water : ℕ) (reports : List Report)
    → All (StaysWithin high_water) reports
    → (rest : List ℕ) × (depths no_recovery (diverged high_water ∷ reports) ++ rest
        ≡ tree_recovery_ladder)
unfolding no_recovery depths next_depth take_rung get_or_insert tree_recovery_ladder
depths_lem high_water reports a =
    depths-ladder (record { attempts = 0; high_water = some high_water }) high_water
      (diverged high_water ∷ reports) refl (tt, a)
