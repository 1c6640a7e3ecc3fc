-- ===== src/Sync/Steady.antt =====
-- sync.rs: steady_state_iteration and the loop of steady_state; sync/steps.rs: scan_block.
pub mod Monad
pub mod Frames
pub mod CatchUp
pub mod Loop
pub mod Tracks
pub mod Tests
pub mod Pass
pub mod Scan
pub mod Blocks
pub mod Signal
use wallet.Prelude.{
  ℕ, zero, suc, ltb, leb, ◌==◌, ◌&&◌, Bool, true, false, not, Option, none, some, List, [], ◌∷◌,
  if◌then◌else◌, Result, ok, err, ok_or,
}
use wallet.Sync.Ledger.{
  ChainBlock, ChainError, backend, SyncError, batch_decryptor_unavailable, chain, other, Run,
  returns, panics, out_of_fuel, WalletDb, ChainView, is_retryable, is_tree_divergence,
}
use wallet.Sync.Status.{
  SyncSignals, Event, set_tip, set_fully_synced, mark_tip_reached, begin_recovery, end_recovery,
  apply,
}
use wallet.Sync.Fork.{locate_fork_point}
use wallet.Sync.Recovery.{truncate_to_wallet_checkpoint}
use wallet.Sync.Scanner.{Scanner, scan_block_error, transparent_address_index, get}
use wallet.Sync.Range.{HeightRange, ControlFlow, break, continue, update_boundary}
use wallet.Sync.Steady.Monad.{
  Steady, Action, ◌>>=◌, ◌>>◌, pure, raise, assert, gets, modify, lift, on_db,
}
use Prim.Native.String.{String}

-- What a view answers besides `ChainView`: its tip, the trees, the blocks from a height up to its tip
-- or in a range, and, unless the tip has changed, the mempool. A stream is the list of what it yields.
pub record SteadyView (Block Trees Tx : Type 0) : Type 0 where
  pub reads : ChainView
  pub tip : Result ChainBlock ChainError
  pub tree_state_as_of : ℕ → Result (Option Trees) ChainError
  pub stream_blocks_to_tip : ℕ → List (Result Block ChainError)
  pub stream_blocks : HeightRange → List (Result Block ChainError)
  pub get_mempool_stream : Result (Option (List Tx)) ChainError

-- What the task is given besides its state. `plus` and `minus` are the `+` and the `-` of a
-- `BlockHeight` and a number, `show` its `Display`; `conflict_height` is the height of a `BlockConflict`.
pub record SteadyTask (Db DbError Block Trees Tx : Type 0) : Type 1 where
  pub show : ℕ → String
  pub plus : ℕ → ℕ → ℕ
  pub minus : ℕ → ℕ → ℕ
  pub shutdown_height : Option ℕ
  pub db_ops : WalletDb Db DbError
  pub scanner : Scanner Db DbError Block Trees
  pub update_chain_tip : Db → ℕ → Db × Result (Unit {0}) DbError
  pub block_fully_scanned : Db → Result (Option ℕ) DbError
  pub decrypt_and_store_transaction : Db → Tx → Db × Result (Unit {0}) DbError
  pub claimed_height : Block → ℕ
  pub block_hash : Block → ℕ
  pub conflict_height : DbError → Option ℕ

-- `ChainBlock`'s derived equality.
unfoldable pub same_block : ChainBlock → ChainBlock → Bool
same_block a b = a.height == b.height && a.hash == b.hash

-- `shutdown_height.is_some_and(|h| height >= h)`.
unfoldable pub at_boundary : Option ℕ → ℕ → Bool
at_boundary none height = false
at_boundary (some h) height = leb h height

-- `shutdown_height.filter(|h| current_tip.height() >= *h)`.
unfoldable pub boundary_reached : Option ℕ → ℕ → Option ℕ
boundary_reached none tip = none
boundary_reached (some h) tip = if leb h tip then some h else none

module _ {Db DbError : Type 0} where
  unfoldable pub write : Event → Action Db DbError (Unit {0})
  write event = modify (λ s. record s { status = apply s.status event })

  -- The trees before a block, which the view has up to its tip.
  unfoldable pub trees_or_error : {Trees : Type 0} → Option Trees → Action Db DbError Trees
  trees_or_error none =
      raise (chain (backend "Programming error: tried to scan block ahead of the chain view's tip"))
  trees_or_error (some trees) = pure trees

module _ {Db DbError Block Trees Tx : Type 0} (task : SteadyTask Db DbError Block Trees Tx) where
  -- The scan of a block below the shutdown height, on top of the trees before it.
  unfoldable pub scan_below : SteadyView Block Trees Tx → Block → Action Db DbError (Unit {0})
  scan_below view block = do
    found ← lift chain (view.tree_state_as_of (task.minus (task.claimed_height block) 1))
    from_state ← trees_or_error found
    queued ← lift (λ e. e) (ok_or (task.scanner.queue_block block) batch_decryptor_unavailable)
    nullifiers ← on_db other (λ db. (db, task.scanner.unspent db))
    addresses ← on_db other (λ db. (db, transparent_address_index task.scanner db))
    decrypted ← lift (λ e. e) (ok_or (task.scanner.decrypted queued) batch_decryptor_unavailable)
    scanned ← lift scan_block_error (
        task.scanner.scan_block (task.claimed_height block) decrypted nullifiers
          (some (task.scanner.metadata_of from_state)) (get task.scanner addresses))
    on_db other (λ db. task.scanner.put_blocks db from_state (scanned ∷ []))

  unfoldable pub scan_block :
      SteadyView Block Trees Tx → Block → Action Db DbError (ControlFlow ℕ (Unit {0}))
  scan_block view block =
      if at_boundary task.shutdown_height (task.claimed_height block)
      then pure (break (task.claimed_height block))
      else do scan_below view block; pure (continue tt)

  -- The new chain pointer after a block is applied.
  unfoldable pub pointer : Block → ChainBlock
  pointer block = record { height = task.claimed_height block; hash = task.block_hash block }

  unfoldable pub after_scan :
      Block
      → ControlFlow ℕ (Unit {0})
      → (rest : Action Db DbError (ControlFlow ℕ (Unit {0})))
      → Action Db DbError (ControlFlow ℕ (Unit {0}))
  after_scan block (break b) rest = pure (break b)
  after_scan block (continue _) rest = do
    on_db other (λ db. task.update_chain_tip db (task.claimed_height block))
    modify (λ s. record s { prev_tip = pointer block })
    rest

  -- The loop over the blocks that are to be applied.
  unfoldable pub apply_blocks :
      SteadyView Block Trees Tx
      → List (Result Block ChainError)
      → Action Db DbError (ControlFlow ℕ (Unit {0}))
  apply_blocks view [] = pure (continue tt)
  apply_blocks view (err e ∷ blocks) = raise (chain e)
  apply_blocks view (ok block ∷ blocks) = do
    prev ← gets (λ s. s.prev_tip)
    assert (task.claimed_height block == task.plus prev.height 1)
    flow ← scan_block view block
    after_scan block flow (apply_blocks view blocks)

  -- The rewind to the fork point, unless it is the previous tip.
  unfoldable pub rewind_to : ChainBlock → ChainBlock → Action Db DbError (Unit {0})
  rewind_to fork_point prev = if same_block fork_point prev then pure tt else do
    assert (ltb fork_point.height prev.height)
    resume_from ←
        on_db (λ e. e)
          (λ db. truncate_to_wallet_checkpoint task.show task.db_ops db fork_point.height)
    write (begin_recovery resume_from.height)
    modify (λ s. record s { prev_tip = resume_from })

  unfoldable pub locate : SteadyView Block Trees Tx → Action Db DbError ChainBlock
  locate view s = (s, locate_fork_point task.db_ops view.reads s.db_data s.prev_tip)

  -- What a pass does when the tip has changed.
  unfoldable pub catch_up :
      SteadyView Block Trees Tx → ChainBlock → Action Db DbError (ControlFlow ℕ (Unit {0}))
  catch_up view current_tip = do
    modify (λ s. record s {
      lower_boundary = update_boundary task.plus task.minus s.lower_boundary current_tip.height;
      tip_signalled = true;
    })
    write (set_tip current_tip.height)
    fork_point ← locate view
    assert (leb fork_point.height current_tip.height)
    prev ← gets (λ s. s.prev_tip)
    rewind_to fork_point prev
    resume ← gets (λ s. s.prev_tip)
    apply_blocks view (view.stream_blocks_to_tip (task.plus resume.height 1))

  unfoldable pub store_all : List Tx → Action Db DbError (Unit {0})
  store_all [] = pure tt
  store_all (tx ∷ txs) = do
    on_db other (λ db. task.decrypt_and_store_transaction db tx)
    store_all txs

  unfoldable pub store_mempool : Option (List Tx) → Action Db DbError (Unit {0})
  store_mempool none = pure tt
  store_mempool (some txs) = store_all txs

  -- The end of a pass that has applied every block: the signals, then the mempool.
  unfoldable pub publish : SteadyView Block Trees Tx → Action Db DbError (ControlFlow ℕ (Unit {0}))
  publish view = do
    fully_scanned ← on_db other (λ db. (db, task.block_fully_scanned db))
    write (set_fully_synced fully_scanned)
    write mark_tip_reached
    write end_recovery
    mempool ← lift chain view.get_mempool_stream
    store_mempool mempool
    pure (continue tt)

  unfoldable pub end_pass :
      SteadyView Block Trees Tx → Option ℕ → Action Db DbError (ControlFlow ℕ (Unit {0}))
  end_pass view (some boundary) = pure (break boundary)
  end_pass view none = publish view

  unfoldable pub after_catch_up :
      SteadyView Block Trees Tx
      → ChainBlock
      → ControlFlow ℕ (Unit {0})
      → Action Db DbError (ControlFlow ℕ (Unit {0}))
  after_catch_up view current_tip (break b) = pure (break b)
  after_catch_up view current_tip (continue _) =
      end_pass view (boundary_reached task.shutdown_height current_tip.height)

  unfoldable pub catch_up_if :
      Bool → SteadyView Block Trees Tx → ChainBlock → Action Db DbError (ControlFlow ℕ (Unit {0}))
  catch_up_if true view current_tip = catch_up view current_tip
  catch_up_if false view current_tip = pure (continue tt)

  -- One pass over the snapshot of the chain.
  unfoldable pub steady_state_iteration :
      Result (SteadyView Block Trees Tx) ChainError → Action Db DbError (ControlFlow ℕ (Unit {0}))
  steady_state_iteration snapshot = do
    view ← lift chain snapshot
    current_tip ← lift chain view.tip
    prev ← gets (λ s. s.prev_tip)
    flow ← catch_up_if (not (same_block current_tip prev)) view current_tip
    after_catch_up view current_tip flow
