-- ===== src/Sync/Range/Select.antt =====
-- The range that the catch-up loop scans next.
use mathlib.Core.List.{Memᴰ}
use wallet.Prelude.{
  ℕ, ◌+◌, ◌≤◌, ◌<◌, ◌≡◌, refl, ◌⊎◌, inl, inr, Option, none, some, arith, List, [], ◌∷◌, ap, sym,
  subst,
}
use wallet.Sync.Range.{ScanRanges, by_priority, first_some, select_initial_scan_range}

-- What the two truncations promise: a range with a block, within the bound and within the range.
pub record TruncateLaws {R : Type 0} (ops : ScanRanges R) : Type 0 where
  pub truncate_end-some :
      (r r' : R) (h : ℕ)
      → ops.truncate_end r h ≡ some r'
      → ((ops.block_range r').start ≡ (ops.block_range r).start)
        × ((ops.block_range r').start < (ops.block_range r').end)
        × ((ops.block_range r').end ≤ h)
        × ((ops.block_range r').end ≤ (ops.block_range r).end)
        × (ops.priority r' ≡ ops.priority r)
  pub truncate_start-some :
      (r r' : R) (h : ℕ)
      → ops.truncate_start r h ≡ some r'
      → (h ≤ (ops.block_range r').start)
        × ((ops.block_range r).start ≤ (ops.block_range r').start)
        × ((ops.block_range r').start < (ops.block_range r').end)
        × ((ops.block_range r').end ≡ (ops.block_range r).end)
        × (ops.priority r' ≡ ops.priority r)

module _ {R : Type 0} (ops : ScanRanges R) (laws : TruncateLaws ops) where
  -- The range can be scanned now: it has a block, ends at the bound at the latest, and starts at the
  -- boundary at the earliest unless it is to be verified.
  abbrev pub IsScannable : (bound boundary : ℕ) → R → Type 0
  IsScannable bound boundary r =
      ((ops.block_range r).start < (ops.block_range r).end)
      × ((ops.block_range r).end ≤ bound)
      × ((ops.priority r ≡ ops.verify)
          ⊎ ((ops.historic ≤ ops.priority r) × (boundary ≤ (ops.block_range r).start)))

  -- The range is a part of the other, with its priority.
  abbrev pub IsPart : R → R → Type 0
  IsPart r of =
      ((ops.block_range of).start ≤ (ops.block_range r).start)
      × ((ops.block_range r).end ≤ (ops.block_range of).end)
      × (ops.priority r ≡ ops.priority of)

  by_priority-cases :
      (boundary : ℕ) (cut r' : R)
      → by_priority ops boundary (some cut) ≡ some r'
      → ((cut ≡ r') × (ops.priority cut ≡ ops.verify))
        ⊎ ((ops.historic ≤ ops.priority cut) × (ops.truncate_start cut boundary ≡ some r'))
  unfolding by_priority
  by_priority-cases boundary cut r' h = ground arith

  by_priority-some :
      (r : R) (bound boundary : ℕ) (cut r' : R)
      → ops.truncate_end r bound ≡ some cut
      → by_priority ops boundary (some cut) ≡ some r'
      → IsScannable bound boundary r' × IsPart r' r
  by_priority-some r bound boundary cut r' c h =
      let (start, block, low, shorter, same) = laws.truncate_end-some r cut bound c in
      elim (by_priority-cases boundary cut r' h) [
        | inl (e, v) ↦
            subst (λ x. IsScannable bound boundary x × IsPart x r) e
              ((block, low, inl v), (omega arith, shorter, same))
        | inr (rank, t) ↦
            let (high, within, block', end, same') = laws.truncate_start-some cut r' boundary t in
            (
              (block', omega arith, inr (omega arith, high)),
              (omega arith, omega arith, omega arith),
            )
      ]

  first_some-cases :
      (a b : Option R) (r : R) → first_some ops a b ≡ some r → (a ≡ some r) ⊎ (b ≡ some r)
  unfolding first_some
  first_some-cases none b r h = inr h
  first_some-cases (some x) b r h = inl h

  cut-some :
      (r : R) (bound boundary : ℕ) (r' : R) (cut : Option R)
      → ops.truncate_end r bound ≡ cut
      → by_priority ops boundary cut ≡ some r'
      → IsScannable bound boundary r' × IsPart r' r
  cut-some r bound boundary r' none c h = unfold by_priority in cc
  cut-some r bound boundary r' (some cut) c h = by_priority-some r bound boundary cut r' c h

  -- The range selected is a part of a suggested one that has a block, ends at the tip at the latest,
  -- and starts at the boundary at the earliest unless it is to be verified.
  pub select_initial_scan_range-IsScannable :
      (plus : ℕ → ℕ → ℕ) (suggested : List R) (current_tip starting_boundary : ℕ) (r : R)
      → plus current_tip 1 ≡ current_tip + 1
      → select_initial_scan_range ops plus suggested current_tip starting_boundary ≡ some r
      → IsScannable (current_tip + 1) starting_boundary r
        × ((of : R) × Memᴰ of suggested × IsPart r of)
  unfolding select_initial_scan_range
  select_initial_scan_range-IsScannable plus [] current_tip starting_boundary r exact h = cc
  select_initial_scan_range-IsScannable plus (s ∷ suggested) current_tip starting_boundary r exact
        h =
      elim (first_some-cases _ _ r h) [
        | inl e ↦
            let (scannable, part) =
              cut-some s (current_tip + 1) starting_boundary r _
                (ap (λ b. ops.truncate_end s b) (sym exact)) e in
            (scannable, (s, Memᴰ.head refl, part))
        | inr e ↦
            let (scannable, (of, m, part)) =
              select_initial_scan_range-IsScannable plus suggested current_tip starting_boundary r
                exact e in
            (scannable, (of, Memᴰ.tail m, part))
      ]
