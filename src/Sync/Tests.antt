-- ===== src/Sync/Tests.antt =====
-- Runs of the sync engine's decisions on a small wallet, and the theorems at those inputs.
use Prim.Native.String.{String}
use wallet.Prelude.{
  ℕ, ◌+◌, ◌≤◌, ◌≡◌, ◌↔◌, min, max, ltb, true, Option, none, some, arith, List, [], ◌∷◌,
  if◌then◌else◌, ok,
}
use wallet.Sync.Status.{SyncSignals, ensure_available}
use wallet.Sync.Status.Gate.{ensure_available_iff}
use wallet.Sync.Range.{HeightRange, ScanRanges, clamp_to_boundary}
use wallet.Sync.Range.Clamp.{InRange, IsScanned, IsAllowed, clamp_to_boundary-IsScanned}
use wallet.Sync.Range.Select.{TruncateLaws}

abbrev shown : ℕ → String
shown _ = "7"

abbrev at_tip : SyncSignals
at_tip = record { tip = 100; fully_synced = some 98; tip_reached = true; recovering = none }

ensure_available_iff_example : (ensure_available shown at_tip 3 ≡ ok tt) ↔ (
    (at_tip.recovering ≡ none)
    × (at_tip.tip_reached ≡ true)
    × ((h : ℕ) × (at_tip.fully_synced ≡ some h) × (at_tip.tip ≤ h + 3)))
ensure_available_iff_example = ensure_available_iff shown at_tip 3

clamp_to_boundary-IsScanned_example :
    IsScanned
      (record { start = 10; end = 20 })
      (clamp_to_boundary (record { start = 10; end = 20 }) (some 15))
      14
    ↔ (InRange (record { start = 10; end = 20 }) 14 × IsAllowed (some 15) 14)
clamp_to_boundary-IsScanned_example =
    clamp_to_boundary-IsScanned (record { start = 10; end = 20 }) (some 15) 14

-- A range with its priority.
abbrev Ranked : Type 0
Ranked = HeightRange × ℕ

abbrev ranked : ℕ → ℕ → ℕ → Option Ranked
ranked start end rank =
    if ltb start end then some (record { start = start; end = end }, rank) else none

abbrev range_ops : ScanRanges Ranked
range_ops = record {
  block_range = λ r. r.0;
  priority = λ r. r.1;
  truncate_start = λ r h. ranked (max h r.0.start) r.0.end r.1;
  truncate_end = λ r h. ranked r.0.start (min h r.0.end) r.1;
  verify = 6;
  historic = 2;
}

range_laws : TruncateLaws range_ops
range_laws = record {
  truncate_end-some = λ r r' h e. ground arith;
  truncate_start-some = λ r r' h e. ground arith;
}

abbrev suggested : List Ranked
suggested = (record { start = 200; end = 300 }, 6) ∷ (record { start = 10; end = 120 }, 3) ∷ []
