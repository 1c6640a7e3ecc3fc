-- ===== src/Sync/Range/Clamp.antt =====
-- What is scanned of a range below the height where scanning must stop.
use wallet.Prelude.{ℕ, ◌+◌, ◌≤◌, ◌<◌, ◌≡◌, ◌↔◌, Option, none, some, arith}
use wallet.Sync.Range.{
  HeightRange, ControlFlow, break, continue, end_before, clamp_to_boundary, exclusive_end,
  address_request_bounds,
}

abbrev pub InRange : HeightRange → ℕ → Type 0
InRange range h = (range.start ≤ h) × (h < range.end)

-- The heights that `scan_blocks` asks for: the branches on the answer of `clamp_to_boundary`.
abbrev pub IsScanned : HeightRange → ControlFlow ℕ (Option ℕ) → ℕ → Type 0
IsScanned range (break end) h = ⊥
IsScanned range (continue (some end)) h = InRange (record { start = range.start; end = end }) h
IsScanned range (continue none) h = InRange range h

abbrev pub IsAllowed : Option ℕ → ℕ → Type 0
IsAllowed none h = Unit
IsAllowed (some boundary) h = h < boundary

-- A height is scanned exactly when the range has it and it is below the shutdown height, if any.
pub clamp_to_boundary-IsScanned :
    (range : HeightRange) (shutdown_height : Option ℕ) (h : ℕ)
    → IsScanned range (clamp_to_boundary range shutdown_height) h
      ↔ (InRange range h × IsAllowed shutdown_height h)
unfolding clamp_to_boundary end_before
clamp_to_boundary-IsScanned range none h = (λ s. ground arith, λ s. ground arith)
clamp_to_boundary-IsScanned range (some boundary) h = (λ s. ground arith, λ s. ground arith)

-- Scanning carries on exactly when the range has a block and the shutdown height is not below its
-- end.
pub clamp_to_boundary_continues :
    (range : HeightRange) (shutdown_height : Option ℕ)
    → (clamp_to_boundary range shutdown_height ≡ continue none)
      ↔ ((range.start < range.end) × (end_before shutdown_height range.end ≡ range.end))
unfolding clamp_to_boundary end_before
clamp_to_boundary_continues range none = (λ s. ground arith, λ s. ground arith)
clamp_to_boundary_continues range (some boundary) = (λ s. ground arith, λ s. ground arith)

module _ (plus minus : ℕ → ℕ → ℕ) where
  -- The heights asked about an address are those of the request up to the tip; when there are any, the
  -- height reported is the last of them. `plus` adds exactly here.
  pub address_request_bounds_lem :
      (block_range_start : ℕ) (block_range_end : Option ℕ) (view_tip h : ℕ)
      → plus view_tip 1 ≡ view_tip + 1
      → (InRange (address_request_bounds plus minus block_range_start block_range_end view_tip).0 h
          ↔ ((block_range_start ≤ h) × IsAllowed block_range_end h × (h ≤ view_tip)))
        × (InRange
              (address_request_bounds plus minus block_range_start block_range_end view_tip).0
              h
            → (h ≤ (address_request_bounds plus minus block_range_start block_range_end view_tip).1)
              × InRange
                  (address_request_bounds plus minus block_range_start block_range_end view_tip).0
                  (address_request_bounds plus minus block_range_start block_range_end view_tip).1)
  unfolding address_request_bounds exclusive_end
  address_request_bounds_lem block_range_start none view_tip h e =
      rw e (((λ s. ground arith, λ s. ground arith)), λ s. ground arith)
  address_request_bounds_lem block_range_start (some end) view_tip h e =
      rw e (((λ s. ground arith, λ s. ground arith)), λ s. ground arith)
