-- ===== src/Sync/Steady/Loop.antt =====
-- sync.rs: the loop of steady_state over its passes.
use wallet.Prelude.{ℕ, true, Option, none, some, List, [], ◌∷◌, if◌then◌else◌, Result, ok, err}
use wallet.Sync.Ledger.{
  ChainBlock, ChainError, SyncError, chain, other, wallet_diverged_below_birthday, Run, returns,
  panics, out_of_fuel, is_retryable, is_tree_divergence,
}
use wallet.Sync.Status.{begin_recovery}
use wallet.Sync.Fork.{locate_fork_point}
use wallet.Sync.Recovery.{
  TreeRecovery, no_recovery, note_progress, truncate_to_wallet_checkpoint,
  recover_from_tree_divergence,
}
use wallet.Sync.Range.{ControlFlow, break, continue}
use wallet.Sync.Steady.Monad.{Steady, Action, ◌>>=◌, ◌>>◌, pure, raise, modify, lift, on_db}
use wallet.Sync.Steady.{SteadyView, SteadyTask, write, steady_state_iteration}

-- What `chain.snapshot()` answers in one turn of the loop: to the pass, and to the search after a
-- block conflict.
pub record Snapshots (Block Trees Tx : Type 0) : Type 0 where
  pub of_pass : Result (SteadyView Block Trees Tx) ChainError
  pub of_conflict : Result (SteadyView Block Trees Tx) ChainError

-- How a turn ends: the loop goes on, it returns, or an assertion fails.
pub data Turn (Db DbError : Type 0) : Type 0 where
  goes_on : Steady Db → TreeRecovery → Turn Db DbError
  ends : Steady Db → Result (Unit {0}) (SyncError DbError) → Turn Db DbError
  stuck : Steady Db → Turn Db DbError

-- The end of an arm that goes on where it does not fail.
unfoldable pub turn_of :
    {Db DbError : Type 0}
    → TreeRecovery
    → Steady Db
    → Run (Unit {0}) (SyncError DbError)
    → Turn Db DbError
turn_of recovery s (returns (ok _)) = goes_on s recovery
turn_of recovery s (returns (err e)) = ends s (err e)
turn_of recovery s panics = stuck s
turn_of recovery s out_of_fuel = stuck s

unfoldable pub and_then :
    {Db DbError : Type 0}
    → Turn Db DbError
    → (TreeRecovery → Steady Db → Turn Db DbError)
    → Turn Db DbError
and_then (goes_on s recovery) rest = rest recovery s
and_then (ends s r) rest = ends s r
and_then (stuck s) rest = stuck s

unfoldable pub candidate_tip :
    {Db DbError : Type 0} → (rewind_height : ℕ) → Option ℕ → Action Db DbError ChainBlock
candidate_tip rewind_height none = raise (wallet_diverged_below_birthday rewind_height)
candidate_tip rewind_height (some hash) = pure (record { height = rewind_height; hash = hash })

module _ {Db DbError Block Trees Tx : Type 0} (task : SteadyTask Db DbError Block Trees Tx) where
  unfoldable pub locate_from : SteadyView Block Trees Tx → ChainBlock → Action Db DbError ChainBlock
  locate_from view candidate s = (s, locate_fork_point task.db_ops view.reads s.db_data candidate)

  -- The rewind that both the block conflict and the fork of a pass end with.
  unfoldable pub resume_from : ChainBlock → Action Db DbError (Unit {0})
  resume_from fork_point = do
    resume ←
        on_db (λ e. e)
          (λ db. truncate_to_wallet_checkpoint task.show task.db_ops db fork_point.height)
    write (begin_recovery resume.height)
    modify (λ s. record s { prev_tip = resume })

  -- The arm of a block conflict at a height.
  unfoldable pub resolve_conflict :
      Result (SteadyView Block Trees Tx) ChainError → (height : ℕ) → Action Db DbError (Unit {0})
  resolve_conflict snapshot height = do
    hash ← on_db other (λ db. (db, task.db_ops.get_block_hash db (task.minus height 1)))
    candidate ← candidate_tip (task.minus height 1) hash
    chain_view ← lift chain snapshot
    fork_point ← locate_from chain_view candidate
    resume_from fork_point

  unfoldable pub conflict_of : SyncError DbError → Option ℕ
  conflict_of (other e) = task.conflict_height e
  conflict_of _ = none

  unfoldable pub resumed_at : Result ChainBlock (SyncError DbError) → Action Db DbError (Unit {0})
  resumed_at (err e) = raise e
  resumed_at (ok resume) = do
    write (begin_recovery resume.height)
    modify (λ s. record s { prev_tip = resume })

  -- The arm of a divergence of the tree.
  unfoldable pub recover_tree : TreeRecovery → Steady Db → Turn Db DbError
  recover_tree recovery s =
      let (db_data', recovery', resumed) =
        recover_from_tree_divergence task.show task.db_ops s.db_data s.prev_tip recovery in
      let (t, r) = resumed_at resumed (record s { db_data = db_data' }) in turn_of recovery' t r

  unfoldable pub on_other_error : TreeRecovery → SyncError DbError → Steady Db → Turn Db DbError
  on_other_error recovery error s =
      if is_tree_divergence task.db_ops.is_tree_error error
      then recover_tree recovery s
      else ends s (err error)

  unfoldable pub on_conflict :
      Result (SteadyView Block Trees Tx) ChainError
      → TreeRecovery
      → SyncError DbError
      → Option ℕ
      → Steady Db
      → Turn Db DbError
  on_conflict snapshot recovery error (some height) s =
      let (t, r) = resolve_conflict snapshot height s in turn_of recovery t r
  on_conflict snapshot recovery error none s = on_other_error recovery error s

  unfoldable pub on_error :
      Result (SteadyView Block Trees Tx) ChainError
      → TreeRecovery
      → SyncError DbError
      → Steady Db
      → Turn Db DbError
  on_error snapshot recovery error s =
      if is_retryable task.db_ops.is_tree_error error
      then goes_on s recovery
      else on_conflict snapshot recovery error (conflict_of error) s

  unfoldable pub after_pass :
      Result (SteadyView Block Trees Tx) ChainError
      → TreeRecovery
      → Steady Db
      → Run (ControlFlow ℕ (Unit {0})) (SyncError DbError)
      → Turn Db DbError
  after_pass snapshot recovery s (returns (ok (continue _))) =
      goes_on s (note_progress recovery s.prev_tip.height).0
  after_pass snapshot recovery s (returns (ok (break h))) = ends s (ok tt)
  after_pass snapshot recovery s (returns (err error)) = on_error snapshot recovery error s
  after_pass snapshot recovery s panics = stuck s
  after_pass snapshot recovery s out_of_fuel = stuck s

  unfoldable pub turn : Snapshots Block Trees Tx → TreeRecovery → Steady Db → Turn Db DbError
  turn snapshots recovery s =
      let (t, r) = steady_state_iteration task snapshots.of_pass s in
      after_pass snapshots.of_conflict recovery t r

  -- As many turns as there are snapshots.
  unfoldable pub turns :
      List (Snapshots Block Trees Tx) → TreeRecovery → Steady Db → Turn Db DbError
  turns [] recovery s = goes_on s recovery
  turns (snapshots ∷ rest) recovery s = and_then (turn snapshots recovery s) (turns rest)

  unfoldable pub steady_state : List (Snapshots Block Trees Tx) → Steady Db → Turn Db DbError
  steady_state snapshots s = turns snapshots no_recovery (record s { tip_signalled = true })
