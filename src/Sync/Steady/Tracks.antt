-- ===== src/Sync/Steady/Tracks.antt =====
-- The recovery signal along the turns of the loop.
use mathlib.Core.List.{◌++◌, Memᴰ}
use wallet.Prelude.{
  ℕ, ◌≡◌, ◌⊎◌, refl, subst, map, sym, inl, inr, true, none, List, [], ◌∷◌, Result, ok, err,
}
use wallet.Sync.Ledger.{ChainBlock, ChainError, SyncError, Run, returns, panics, out_of_fuel}
use wallet.Sync.Recovery.{TreeRecovery, no_recovery}
use wallet.Sync.Range.{ControlFlow, break, continue}
use wallet.Sync.Steady.Monad.{Steady, Ends}
use wallet.Sync.Steady.{SteadyView, SteadyTask}
use wallet.Sync.Steady.Scan.{Reached}
use wallet.Sync.Steady.CatchUp.{Resumption, start_of, PassFails}
use wallet.Sync.Steady.Pass.{Passed, Stops, steady_state_iteration-Ensures}
use wallet.Sync.Steady.Loop.{
  Snapshots, Turn, goes_on, ends, stuck, and_then, after_pass, turn, turns, steady_state,
}
use wallet.Sync.Steady.Signal.{
  Tracks, ErrorTracks, Unfinished-Tracks, Finished-Tracks, PassFails-Tracks, on_error-Tracks,
}

module _ {Db DbError Block Trees Tx : Type 0} (task : SteadyTask Db DbError Block Trees Tx) where
  -- The shutdown height is reached in a snapshot: by its tip, or by a block that it streams.
  abbrev pub ReachedIn : Snapshots Block Trees Tx → Type 0
  ReachedIn snapshots =
      (view : SteadyView Block Trees Tx) × (snapshots.of_pass ≡ ok view)
      × (((tip : ChainBlock) × (view.tip ≡ ok tip) × Reached task.shutdown_height tip.height)
          ⊎ ((from : ℕ) × (b : Block) × Memᴰ (ok b) (view.stream_blocks_to_tip from)
              × Reached task.shutdown_height (task.claimed_height b)))

  abbrev pub Stopped : List (Snapshots Block Trees Tx) → Type 0
  Stopped rounds =
      (snapshots : Snapshots Block Trees Tx) × Memᴰ snapshots rounds × ReachedIn snapshots

  -- The state that a turn leaves; a turn that ends the task without an error was stopped by the
  -- shutdown height.
  abbrev pub TurnTracks : List (Snapshots Block Trees Tx) → Turn Db DbError → Type 0
  TurnTracks rounds (goes_on s recovery) = Tracks task s
  TurnTracks rounds (ends s (ok _)) = Tracks task s × Stopped rounds
  TurnTracks rounds (ends s (err e)) = Tracks task s
  TurnTracks rounds (stuck s) = Tracks task s

  ErrorTracks-TurnTracks :
      (rounds : List (Snapshots Block Trees Tx)) (x : Turn Db DbError)
      → ErrorTracks task x
      → TurnTracks rounds x
  ErrorTracks-TurnTracks rounds (goes_on s recovery) h = h
  ErrorTracks-TurnTracks rounds (ends s (ok _)) h = absurd h
  ErrorTracks-TurnTracks rounds (ends s (err e)) h = h
  ErrorTracks-TurnTracks rounds (stuck s) h = h

  next_of :
      (bs : List Block) (b : Block) (later : List (Result Block ChainError))
      → Memᴰ (ok b) (map ok bs ++ ok b ∷ later)
  next_of [] b later = Memᴰ.head refl
  next_of (c ∷ bs) b later = Memᴰ.tail (next_of bs b later)

  Stops-ReachedIn :
      (snapshots : Snapshots Block Trees Tx) (view : SteadyView Block Trees Tx) (tip : ChainBlock)
      (s : Steady Db) (resumed : Resumption task (ok view) s) (bs : List Block) (h : ℕ)
      → snapshots.of_pass ≡ ok view
      → view.tip ≡ ok tip
      → Stops task view tip s resumed bs h
      → ReachedIn snapshots
  Stops-ReachedIn snapshots view tip s resumed bs h e e' (inl (b, later, stream, same, reached)) = (
    view,
    e,
    inr (
      task.plus (start_of s resumed).height 1,
      b,
      subst (λ l. Memᴰ (ok b) l) (sym stream) (next_of bs b later),
      subst (λ k. Reached task.shutdown_height k) (sym same) reached,
    ),
  )
  Stops-ReachedIn snapshots view tip s resumed bs h e e' (inr (arrives, same, l)) =
      (view, e, inl (tip, e', subst (λ o. Reached o tip.height) (sym same) l))

  after_pass-Tracks :
      (snapshots : Snapshots Block Trees Tx) (recovery : TreeRecovery) (s t : Steady Db)
      (r : Run (ControlFlow ℕ (Unit {0})) (SyncError DbError))
      → Tracks task s
      → Ends (Passed task snapshots.of_pass s) (PassFails task snapshots.of_pass s) t r
      → TurnTracks (snapshots ∷ []) (after_pass task snapshots.of_conflict recovery t r)
  unfolding after_pass
  after_pass-Tracks snapshots recovery s t (returns (ok (continue _))) held
        (view, tip, e, e', (below, (resumed, bs, m, x, y, z))) =
      Finished-Tracks task (ok view) s t (resumed, bs, m, x, y)
  after_pass-Tracks snapshots recovery s t (returns (ok (break h))) held
        (view, tip, e, e', (resumed, bs, m, x, y, z)) =
      (
        Unfinished-Tracks task (ok view) s t held (resumed, bs, m, x, y),
        (snapshots, Memᴰ.head refl, Stops-ReachedIn snapshots view tip s resumed bs h e e' z),
      )
  after_pass-Tracks snapshots recovery s t (returns (err error)) held fails =
      ErrorTracks-TurnTracks (snapshots ∷ []) _ (
        on_error-Tracks task snapshots.of_conflict recovery error t
          (PassFails-Tracks task snapshots.of_pass s t held fails))
  after_pass-Tracks snapshots recovery s t panics held fails =
      PassFails-Tracks task snapshots.of_pass s t held fails
  after_pass-Tracks snapshots recovery s t out_of_fuel held fails =
      PassFails-Tracks task snapshots.of_pass s t held fails

  turn-Tracks :
      (snapshots : Snapshots Block Trees Tx) (recovery : TreeRecovery) (s : Steady Db)
      → Tracks task s
      → TurnTracks (snapshots ∷ []) (turn task snapshots recovery s)
  unfolding turn
  turn-Tracks snapshots recovery s held =
      after_pass-Tracks snapshots recovery s _ _ held
        (steady_state_iteration-Ensures task snapshots.of_pass s)

  later_rounds :
      (snapshots : Snapshots Block Trees Tx) (rounds : List (Snapshots Block Trees Tx))
      (x : Turn Db DbError)
      → TurnTracks rounds x
      → TurnTracks (snapshots ∷ rounds) x
  later_rounds snapshots rounds (goes_on s recovery) h = h
  later_rounds snapshots rounds (ends s (ok _)) (h, (which, m, reached)) =
      (h, (which, Memᴰ.tail m, reached))
  later_rounds snapshots rounds (ends s (err e)) h = h
  later_rounds snapshots rounds (stuck s) h = h

  only_round :
      (snapshots which : Snapshots Block Trees Tx) (rounds : List (Snapshots Block Trees Tx))
      → Memᴰ which (snapshots ∷ [])
      → Memᴰ which (snapshots ∷ rounds)
  only_round snapshots which rounds (Memᴰ.head e) = Memᴰ.head e
  only_round snapshots which rounds (Memᴰ.tail m) = elim m [ ]

  and_then-Tracks :
      (snapshots : Snapshots Block Trees Tx) (rounds : List (Snapshots Block Trees Tx))
      (x : Turn Db DbError) (rest : TreeRecovery → Steady Db → Turn Db DbError)
      → TurnTracks (snapshots ∷ []) x
      → ((recovery : TreeRecovery) (s : Steady Db)
          → Tracks task s
          → TurnTracks rounds (rest recovery s))
      → TurnTracks (snapshots ∷ rounds) (and_then x rest)
  unfolding and_then
  and_then-Tracks snapshots rounds (goes_on s recovery) rest h k =
      later_rounds snapshots rounds (rest recovery s) (k recovery s h)
  and_then-Tracks snapshots rounds (ends s (ok _)) rest (h, (which, m, reached)) k =
      (h, (which, only_round snapshots which rounds m, reached))
  and_then-Tracks snapshots rounds (ends s (err e)) rest h k = h
  and_then-Tracks snapshots rounds (stuck s) rest h k = h

  turns-Tracks :
      (rounds : List (Snapshots Block Trees Tx)) (recovery : TreeRecovery) (s : Steady Db)
      → Tracks task s
      → TurnTracks rounds (turns task rounds recovery s)
  unfolding turns
  turns-Tracks [] recovery s held = held
  turns-Tracks (snapshots ∷ rounds) recovery s held =
      let rest = turns-Tracks rounds in
      and_then-Tracks snapshots rounds (turn task snapshots recovery s) (turns task rounds)
        (turn-Tracks snapshots recovery s held) (λ recovery t k. rest recovery t k)

  -- After any number of turns of the task, started without a recovery and given any snapshots: while
  -- the signals show a recovery from a height, the chain pointer is that of blocks scanned, stored by
  -- `put_blocks` and made the chain tip one after another, in parts of one pass each, on top of a block
  -- of that height. This holds also when the task has ended or has panicked, and where it has ended
  -- without an error, the tip or a streamed block of one of its snapshots is at the shutdown height or
  -- above it.
  pub steady_state-Tracks :
      (rounds : List (Snapshots Block Trees Tx)) (s : Steady Db)
      → s.status.recovering ≡ none
      → TurnTracks rounds (steady_state task rounds s)
  unfolding steady_state
  steady_state-Tracks rounds s e =
      turns-Tracks rounds no_recovery (record s { tip_signalled = true }) (λ h k. absurd (cc))
