-- ===== src/Sync/History/Tests.antt =====
-- The batches of a range of ten blocks.
use wallet.Prelude.{
  ℕ, ◌<◌, ◌≤◌, ◌≡◌, refl, ltb, ◌&&◌, Option, none, some, [], ◌∷◌, if◌then◌else◌, ok, arith,
}
use wallet.Sync.Ledger.{ChainBlock}
use wallet.Sync.Range.{HeightRange, ScanRanges}
use wallet.Sync.History.{HistoryTask, cut, batches, length_of}
use wallet.Sync.History.Batches.{SplitLaws, Tiles, batches-Tiles}
use wallet.Sync.Steady.Tests.{test_task}

abbrev heights : ℕ → ℕ → HeightRange
heights start end = record { start = start; end = end }

abbrev split : HeightRange → ℕ → Option (HeightRange × HeightRange)
split range height =
    if ltb range.start height && ltb height range.end
    then some (heights range.start height, heights height range.end)
    else none

-- Every range has the priority 3.
abbrev test_ranges : ScanRanges HeightRange
test_ranges = record {
  block_range = λ range. range;
  priority = λ range. 3;
  truncate_start = λ range height. some range;
  truncate_end = λ range height. some range;
  verify = 6;
  historic = 2;
}

abbrev history_task : HistoryTask ℕ (Unit {0}) ChainBlock (Unit {0}) ℕ HeightRange
history_task = record {
  steady = test_task;
  ranges = test_ranges;
  from_parts = λ range priority. range;
  split_at = split;
  suggest_scan_ranges = λ db. ok [];
  batch_size = 4;
}

abbrev ten_blocks : HeightRange
ten_blocks = heights 30 40

cuts : batches history_task 10 ten_blocks ≡ heights 30 34 ∷ heights 34 38 ∷ heights 38 40 ∷ []
unfolding batches cut
cuts = refl

split-inside :
    (range : HeightRange) (height : ℕ)
    → range.start < height
    → height < range.end
    → split range height ≡ some (heights range.start height, heights height range.end)
split-inside range height l m = ground arith

split-outside : (range : HeightRange) (height : ℕ) → range.end ≤ height → split range height ≡ none
split-outside range height l = ground arith

test_laws : SplitLaws history_task
test_laws = record {
  inside = λ range height l m. (
    heights range.start height,
    heights height range.end,
    split-inside range height l m,
    refl,
    refl,
    refl,
    refl,
    refl,
    refl,
  );
  outside = split-outside;
}

batches-Tiles_example :
    Tiles history_task 30 40 3 (batches history_task (length_of history_task ten_blocks) ten_blocks)
batches-Tiles_example =
    batches-Tiles history_task test_laws (omega arith) ten_blocks (λ a l. refl) (omega arith)
