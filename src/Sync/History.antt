-- ===== src/Sync/History.antt =====
-- sync.rs: recover_history; sync/steps.rs: scan_blocks. The task works on the same state as the
-- steady-state task: the database, the shared boundary and the signals.
pub mod Batches
mod Tests
use wallet.Prelude.{
  ℕ, zero, suc, ◌-◌, ltb, leb, Bool, true, false, Option, none, some, List, [], ◌∷◌, if◌then◌else◌,
  Result, ok, err, ok_or, map_err,
}
use wallet.Sync.Ledger.{
  ChainError, SyncError, chain, other, batch_decryptor_unavailable, Run, returns, panics,
  out_of_fuel, is_tree_divergence,
}
use wallet.Sync.Status.{set_fully_synced}
use wallet.Sync.Scanner.{
  Scanner, scan_block_error, TransparentAddressIndex, transparent_address_index, get, queue_all,
  scan_batch,
}
use wallet.Sync.Range.{
  HeightRange, ControlFlow, break, continue, ScanRanges, first_some, clamp_to_boundary,
}
use wallet.Sync.Steady.Monad.{Steady, Action, ◌>>=◌, ◌>>◌, pure, gets, lift, on_db}
use wallet.Sync.Steady.{SteadyView, SteadyTask, write}

-- What the task asks of `ScanRange` and of the database besides. `split_at` cuts a range in two at a
-- height strictly inside it.
pub record HistoryTask (Db DbError Block Trees Tx R : Type 0) : Type 1 where
  pub steady : SteadyTask Db DbError Block Trees Tx
  pub ranges : ScanRanges R
  pub from_parts : HeightRange → ℕ → R
  pub split_at : R → ℕ → Option (R × R)
  pub suggest_scan_ranges : Db → Result (List R) DbError
  pub batch_size : ℕ

unfoldable pub tree_divergence_retries : ℕ
tree_divergence_retries = 5

-- `outcome` of a range that was scanned.
unfoldable pub reached : Option ℕ → ControlFlow ℕ (Unit {0})
reached none = continue tt
reached (some end) = break end

module _ {Db DbError Block Trees Tx R : Type 0}
    (task : HistoryTask Db DbError Block Trees Tx R) where
  unfoldable pub clamped : R → Option ℕ → R
  clamped scan_range none = scan_range
  clamped scan_range (some end) =
      task.from_parts (record { start = (task.ranges.block_range scan_range).start; end = end })
        (task.ranges.priority scan_range)

  -- The scan of a range whose first block is within the view, on top of the trees before it.
  unfoldable pub scan_above :
      SteadyView Block Trees Tx → HeightRange → Trees → Action Db DbError (Unit {0})
  scan_above view block_range from_state = do
    batch ←
        lift (λ e. e)
          (queue_all task.steady.scanner task.steady.claimed_height
            (view.stream_blocks block_range))
    nullifiers ← on_db other (λ db. (db, task.steady.scanner.unspent db))
    addresses ← on_db other (λ db. (db, transparent_address_index task.steady.scanner db))
    scanned_blocks ←
        lift (λ e. e)
          (scan_batch task.steady.scanner addresses nullifiers
            (task.steady.scanner.metadata_of from_state) batch)
    on_db other (λ db. task.steady.scanner.put_blocks db from_state scanned_blocks)

  -- Without trees the range starts beyond the view's tip, which the log tells.
  unfoldable pub scan_or_skip :
      SteadyView Block Trees Tx
      → HeightRange
      → (boundary : Option ℕ) → Option Trees
      → Action Db DbError (ControlFlow ℕ (Unit {0}))
  scan_or_skip view block_range boundary none = do tip ← lift chain view.tip; pure (continue tt)
  scan_or_skip view block_range boundary (some from_state) = do
    scan_above view block_range from_state
    pure (reached boundary)

  unfoldable pub scan_clamped :
      SteadyView Block Trees Tx
      → (scan_range : R) → (boundary : Option ℕ) → Action Db DbError (ControlFlow ℕ (Unit {0}))
  scan_clamped view scan_range boundary = do
    found ←
        lift chain
          (view.tree_state_as_of (task.steady.minus (task.ranges.block_range scan_range).start 1))
    scan_or_skip view (task.ranges.block_range scan_range) boundary found

  unfoldable pub scan_unless_past :
      SteadyView Block Trees Tx
      → R
      → ControlFlow ℕ (Option ℕ)
      → Action Db DbError (ControlFlow ℕ (Unit {0}))
  scan_unless_past view scan_range (break end) = pure (break end)
  scan_unless_past view scan_range (continue boundary) =
      scan_clamped view (clamped scan_range boundary) boundary

  unfoldable pub scan_blocks :
      SteadyView Block Trees Tx → R → Action Db DbError (ControlFlow ℕ (Unit {0}))
  scan_blocks view scan_range =
      scan_unless_past view scan_range
        (clamp_to_boundary (task.ranges.block_range scan_range) task.steady.shutdown_height)

  -- The state of the iterator: the batch it yields, and the rest it goes on with.
  unfoldable pub cut : R → Option (R × R) → (R → List R) → List R
  cut remaining none rest = remaining ∷ []
  cut remaining (some (cur, next)) rest = cur ∷ rest next

  -- The batches of a range; `fuel` bounds their number.
  unfoldable pub batches : (fuel : ℕ) → R → List R
  batches zero remaining = remaining ∷ []
  batches (suc fuel) remaining =
      cut remaining
        (task.split_at remaining
          (task.steady.plus (task.ranges.block_range remaining).start task.batch_size))
        (batches fuel)

  -- The end of an attempt: another one after a divergence of the tree, if any is left.
  unfoldable pub retry_on :
      Steady Db
      → Run (ControlFlow ℕ (Unit {0})) (SyncError DbError)
      → Action Db DbError (ControlFlow ℕ (Unit {0}))
      → Steady Db × Run (ControlFlow ℕ (Unit {0})) (SyncError DbError)
  retry_on s (returns (ok outcome)) again = (s, returns (ok outcome))
  retry_on s (returns (err error)) again =
      if is_tree_divergence task.steady.db_ops.is_tree_error error
      then again s
      else (s, returns (err error))
  retry_on s panics again = (s, panics)
  retry_on s out_of_fuel again = (s, out_of_fuel)

  -- `snapshot` is what `chain.snapshot()` answers for a batch at an attempt.
  unfoldable pub attempt_scan :
      (snapshot : R → ℕ → Result (SteadyView Block Trees Tx) ChainError)
      → R
      → (attempt : ℕ) → Action Db DbError (ControlFlow ℕ (Unit {0}))
  attempt_scan snapshot batch attempt = do
    chain_view ← lift chain (snapshot batch attempt)
    scan_blocks chain_view batch

  -- The attempts from one on, with so many retries left. A snapshot that fails is not retried, and its
  -- error is not a divergence.
  unfoldable pub scan_retrying :
      (snapshot : R → ℕ → Result (SteadyView Block Trees Tx) ChainError)
      → R
      → (left attempt : ℕ) → Action Db DbError (ControlFlow ℕ (Unit {0}))
  scan_retrying snapshot batch zero attempt s = attempt_scan snapshot batch attempt s
  scan_retrying snapshot batch (suc left) attempt s =
      let (t, r) = attempt_scan snapshot batch attempt s in
      retry_on t r (scan_retrying snapshot batch left (suc attempt))

  unfoldable pub outranked : List R → R → Bool
  outranked [] batch = false
  outranked (range ∷ ranges) batch = ltb (task.ranges.priority batch) (task.ranges.priority range)

  -- What follows a batch: the signals, and the next batch unless a range of a higher priority is
  -- suggested.
  unfoldable pub after_batch :
      R
      → ControlFlow ℕ (Unit {0})
      → (rest : Action Db DbError (Unit {0})) → Action Db DbError (Unit {0})
  after_batch batch (break end) rest = pure tt
  after_batch batch (continue _) rest = do
    fully_scanned ← on_db other (λ db. (db, task.steady.block_fully_scanned db))
    write (set_fully_synced fully_scanned)
    latest_ranges ← on_db other (λ db. (db, task.suggest_scan_ranges db))
    if outranked latest_ranges batch then pure tt else rest

  unfoldable pub scan_all :
      (snapshot : R → ℕ → Result (SteadyView Block Trees Tx) ChainError)
      → List R
      → Action Db DbError (Unit {0})
  scan_all snapshot [] = pure tt
  scan_all snapshot (batch ∷ rest) = do
    outcome ← scan_retrying snapshot batch tree_divergence_retries 0
    after_batch batch outcome (scan_all snapshot rest)

  -- The first suggested range that has a part below the boundary.
  unfoldable pub first_below : (upper_boundary : ℕ) → List R → Option R
  first_below upper_boundary [] = none
  first_below upper_boundary (range ∷ ranges) =
      first_some task.ranges (task.ranges.truncate_end range upper_boundary)
        (first_below upper_boundary ranges)

  unfoldable pub length_of : R → ℕ
  length_of range = (task.ranges.block_range range).end - (task.ranges.block_range range).start

  unfoldable pub recover_range :
      (snapshot : R → ℕ → Result (SteadyView Block Trees Tx) ChainError)
      → Option R
      → Action Db DbError (Unit {0})
  recover_range snapshot none = pure tt
  recover_range snapshot (some scan_range) =
      scan_all snapshot (batches (length_of scan_range) scan_range)

  -- One turn of the loop of the task.
  unfoldable pub recover_history :
      (snapshot : R → ℕ → Result (SteadyView Block Trees Tx) ChainError)
      → Action Db DbError (Unit {0})
  recover_history snapshot = do
    upper_boundary ← gets (λ s. s.lower_boundary)
    suggested ← on_db other (λ db. (db, task.suggest_scan_ranges db))
    recover_range snapshot (first_below upper_boundary suggested)
