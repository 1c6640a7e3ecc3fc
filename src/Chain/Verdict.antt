-- ===== src/Chain/Verdict.antt =====
-- What the check at startup decides.
use mathlib.Core.List.{Memᴰ}
use wallet.Prelude.{
  ℕ, ◌<◌, ◌≤◌, ◌≡◌, refl, leb, leb→le, false, Option, none, some, List, [], ◌∷◌, keep, arith,
  Result, ok, err, keep-Memᴰ, keep-none,
}
use wallet.Chain.{
  ReportedUpgrade, Incompatibility, divergence_height, Schedule, detect_incompatibilities, earliest,
  decide_on, classify, StartError, outcome, at_tip, on_detected, check_consensus_compatibility,
}
use wallet.Chain.Check.{earliest-le, earliest-Memᴰ, Agrees, Disagrees, Agrees-below, Disagrees-at}

module _ (params : Schedule) (upgrades : List ReportedUpgrade) (tip : ℕ) where
  -- What an answer of the check says of the rules of the two sides.
  abbrev pub IsRight : Result (Option ℕ) StartError → Type 0
  IsRight (ok none) = (h : ℕ) → Agrees params upgrades h
  IsRight (ok (some height)) =
      (tip < height)
      × ((h : ℕ) → h < height → Agrees params upgrades h)
      × Disagrees params upgrades height
  IsRight (err _) = (h : ℕ) × (h ≤ tip) × Disagrees params upgrades h

  decided :
      (i : Incompatibility) (is later : List Incompatibility) (now : List Incompatibility)
      → keep (λ j. leb (divergence_height j) tip) (i ∷ is) ≡ now
      → ((h : ℕ)
          → ((j : Incompatibility) → Memᴰ j (i ∷ is) → h < divergence_height j)
          → Agrees params upgrades h)
      → ((j : Incompatibility) → Memᴰ j (i ∷ is) → Disagrees params upgrades (divergence_height j))
      → IsRight (outcome (decide_on (earliest i is) now later))
  unfolding outcome decide_on
  decided i is later [] e below at =
      let (j, m, least) = earliest-Memᴰ i is in
      (
        above_tip j least (keep-none (λ k. leb (divergence_height k) tip) j (i ∷ is) e m),
        λ h l. below h (λ k n. under h k l (earliest-le i is k n)),
        rw least (at j m),
      )
    where
      above_tip :
          (j : Incompatibility)
          → earliest i is ≡ divergence_height j
          → leb (divergence_height j) tip ≡ false
          → tip < earliest i is
      above_tip j least f = ground arith

      under :
          (h : ℕ) (k : Incompatibility)
          → h < earliest i is
          → earliest i is ≤ divergence_height k
          → h < divergence_height k
      under h k l g = omega arith
  decided i is later (j ∷ js) e below at =
      let (m, t) =
        keep-Memᴰ (λ k. leb (divergence_height k) tip) j (i ∷ is) (rw e (Memᴰ.head refl)) in
      (divergence_height j, leb→le (divergence_height j) tip t, at j m)

  detected :
      (is : List Incompatibility)
      → ((h : ℕ)
          → ((j : Incompatibility) → Memᴰ j is → h < divergence_height j)
          → Agrees params upgrades h)
      → ((j : Incompatibility) → Memᴰ j is → Disagrees params upgrades (divergence_height j))
      → IsRight (on_detected is (ok tip))
  unfolding on_detected at_tip classify
  detected [] below at = λ h. below h (λ j m. elim m [ ])
  detected (i ∷ is) below at = decided i is _ _ refl below at

  -- The check at startup, when the node answers, of the upgrades that the node reports and those of
  -- `NETWORK_UPGRADES`: it passes without a height only where the node and this build follow the same
  -- rules of each of them at every height; with a height, only where the height is above the tip, the
  -- rules are the same at every height below it, and differ at it; and it refuses only where the rules
  -- differ at some height up to the tip.
  pub check_consensus_compatibility-IsRight :
      IsRight (check_consensus_compatibility params (ok upgrades) (ok tip))
  unfolding check_consensus_compatibility
  check_consensus_compatibility-IsRight =
      detected (detect_incompatibilities params upgrades) (λ h. Agrees-below params upgrades h)
        (Disagrees-at params upgrades)
