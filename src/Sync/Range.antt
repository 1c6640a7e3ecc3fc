-- ===== src/Sync/Range.antt =====
-- sync.rs: update_boundary, select_initial_scan_range and address_request_bounds; sync/steps.rs:
-- clamp_to_boundary.
pub mod Clamp
pub mod Select
use wallet.Prelude.{
  ℕ, ◌-◌, ltb, leb, ◌==◌, max, min, Bool, true, false, Option, none, some, List, [], ◌∷◌,
  if◌then◌else◌,
}

-- A half-open range of block heights.
pub record HeightRange : Type 0 where
  pub start : ℕ
  pub end : ℕ

pub data ControlFlow (B C : Type 0) : Type 0 where
  break : B → ControlFlow B C
  continue : C → ControlFlow B C

unfoldable pub end_before : Option ℕ → ℕ → ℕ
end_before none end = end
end_before (some h) end = min h end

unfoldable pub clamp_to_boundary :
    HeightRange → (shutdown_height : Option ℕ) → ControlFlow ℕ (Option ℕ)
clamp_to_boundary range shutdown_height =
    let end = end_before shutdown_height range.end in
    if leb end range.start
    then break end
    else if ltb end range.end
    then continue (some end)
    else continue none

-- `plus` and `minus` are the `+` and the `-` of a `BlockHeight` and a number.
module _ (plus minus : ℕ → ℕ → ℕ) where
  unfoldable pub update_boundary : (current_boundary tip_height : ℕ) → ℕ
  update_boundary current_boundary tip_height = max current_boundary (minus tip_height 100)

  unfoldable pub exclusive_end : Option ℕ → ℕ → ℕ
  exclusive_end none tip_exclusive = tip_exclusive
  exclusive_end (some e) tip_exclusive = min e tip_exclusive

  unfoldable pub address_request_bounds :
      (block_range_start : ℕ) (block_range_end : Option ℕ) (view_tip : ℕ) → HeightRange × ℕ
  address_request_bounds block_range_start block_range_end view_tip =
      let end = max (exclusive_end block_range_end (plus view_tip 1)) block_range_start in
      (record { start = block_range_start; end = end }, end - 1)

-- `ScanRange` of zcash_client_backend, its priorities as their ranks.
pub record ScanRanges (R : Type 0) : Type 0 where
  pub block_range : R → HeightRange
  pub priority : R → ℕ
  pub truncate_start : R → ℕ → Option R
  pub truncate_end : R → ℕ → Option R
  pub verify : ℕ
  pub historic : ℕ

module _ {R : Type 0} (ops : ScanRanges R) where
  -- The closure of the `filter_map`, on a range that is truncated to the tip.
  unfoldable pub by_priority : (starting_boundary : ℕ) → Option R → Option R
  by_priority starting_boundary none = none
  by_priority starting_boundary (some r) =
      if ops.priority r == ops.verify
      then some r
      else if leb ops.historic (ops.priority r)
      then ops.truncate_start r starting_boundary
      else none

  unfoldable pub first_some : Option R → Option R → Option R
  first_some none rest = rest
  first_some (some r) rest = some r

  unfoldable pub select_initial_scan_range :
      (plus : ℕ → ℕ → ℕ) → List R → (current_tip starting_boundary : ℕ) → Option R
  select_initial_scan_range plus [] current_tip starting_boundary = none
  select_initial_scan_range plus (r ∷ suggested) current_tip starting_boundary =
      let rest = select_initial_scan_range plus suggested current_tip starting_boundary in
      first_some (by_priority starting_boundary (ops.truncate_end r (plus current_tip 1))) rest
