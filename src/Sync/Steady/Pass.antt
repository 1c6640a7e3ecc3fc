-- ===== src/Sync/Steady/Pass.antt =====
-- What one pass of the steady state does to the chain pointer and the signals.
use wallet.Prelude.{
  ℕ, leb, ◌≤◌, ◌∷◌, ◌++◌, ◌≡◌, refl, ap, ◌∙◌, ◌⊎◌, inl, inr, true, not, Option, none, some, List,
  [], map, Result, ok, err, Bool-cases, arith,
}
use wallet.Sync.Ledger.{ChainBlock, ChainError, chain, other}
use wallet.Sync.Status.{SyncSignals, apply, set_fully_synced, mark_tip_reached, end_recovery}
use wallet.Sync.Range.{ControlFlow, break, continue}
use wallet.Sync.Steady.Monad.{
  Steady, Action, ◌>>=◌, ◌>>◌, pure, gets, lift, on_db, Ensures, bind-Ensures, on_db-Ensures,
  lift-Ensures, lift-bind-Ensures, imp-Ensures,
}
use wallet.Sync.Steady.Frames.{Same}
use wallet.Sync.Steady.{
  SteadyView, SteadyTask, same_block, boundary_reached, write, catch_up, store_mempool, publish,
  end_pass, after_catch_up, catch_up_if, steady_state_iteration,
}
use wallet.Sync.Steady.Scan.{stop, Reached, IsBelow}
use wallet.Sync.Steady.CatchUp.{
  Resumption, no_rewind, start_of, recovery_of, IsLocated, Applies, Unfinished, PassFails, CaughtUp,
  catch_up-CaughtUp, store_mempool-Same, same_height, same_hash,
}

boundary-cases :
    (shutdown_height : Option ℕ) (tip : ℕ)
    → ((boundary_reached shutdown_height tip ≡ none) × IsBelow shutdown_height tip)
      ⊎ ((h : ℕ) × (boundary_reached shutdown_height tip ≡ some h)
          × (shutdown_height ≡ some h)
          × (h ≤ tip))
unfolding boundary_reached
boundary-cases none tip = inl (refl, tt)
boundary-cases (some h) tip = elim (Bool-cases (leb h tip)) [
  | inl y ↦ inr (h, rw y refl, refl, ground arith)
  | inr n ↦ inl (rw n refl, ground arith)
]

module _ {Db DbError Block Trees Tx : Type 0} (task : SteadyTask Db DbError Block Trees Tx)
    (view : SteadyView Block Trees Tx) (tip : ChainBlock) where
  -- The tip is the previous one, or every block that the view streams from the start is applied.
  abbrev pub Arrives : (s : Steady Db) → Resumption task (ok view) s → List Block → Type 0
  Arrives s resumed bs =
      ((tip.height ≡ s.prev_tip.height) × (tip.hash ≡ s.prev_tip.hash) × (bs ≡ []))
      ⊎ (IsLocated s resumed
          × (view.stream_blocks_to_tip (task.plus (start_of s resumed).height 1) ≡ map ok bs))

  -- A pass stops at a height: that of the next block of the stream, which is at the shutdown height or
  -- above it; or the shutdown height itself, where it has arrived and the tip is there or above it.
  abbrev pub Stops : (s : Steady Db) → Resumption task (ok view) s → List Block → ℕ → Type 0
  Stops s resumed bs h =
      ((b : Block) × (rest : List (Result Block ChainError)) × (view.stream_blocks_to_tip
            (task.plus (start_of s resumed).height 1)
          ≡ map ok bs ++ ok b ∷ rest)
        × (task.claimed_height b ≡ h)
        × Reached task.shutdown_height h)
      ⊎ (Arrives s resumed bs × (task.shutdown_height ≡ some h) × (h ≤ tip.height))

  abbrev Arrived : Steady Db → Steady Db → Type 0
  Arrived s t =
      (resumed : Resumption task (ok view) s) × (bs : List Block) × Applies task (ok view) s resumed
        bs t
      × (t.status.recovering ≡ recovery_of s resumed)
      × (t.status.tip_reached ≡ s.status.tip_reached)
      × Arrives s resumed bs

  -- How a pass that returns ends.
  abbrev pub PassEnds : Steady Db → ControlFlow ℕ (Unit {0}) → Steady Db → Type 0
  PassEnds s (break h) t =
      (resumed : Resumption task (ok view) s) × (bs : List Block) × Applies task (ok view) s resumed
        bs t
      × (t.status.recovering ≡ recovery_of s resumed)
      × (t.status.tip_reached ≡ s.status.tip_reached)
      × Stops s resumed bs h
  PassEnds s (continue _) t =
      IsBelow task.shutdown_height tip.height
      × ((resumed : Resumption task (ok view) s) × (bs : List Block) × Applies task (ok view) s
            resumed bs t
          × (t.status.recovering ≡ none)
          × (t.status.tip_reached ≡ true)
          × Arrives s resumed bs)

  Arrived-PassFails : (s t : Steady Db) → Arrived s t → PassFails task (ok view) s t
  Arrived-PassFails s t (resumed, bs, moved, e, e', a) = inl (resumed, bs, moved, e, e')

  -- The mempool is stored, when the signals have been written.
  abbrev store_stream : Action Db DbError (ControlFlow ℕ (Unit {0}))
  store_stream = lift chain view.get_mempool_stream >>= λ mempool.
      store_mempool task mempool >> pure (continue tt)

  store_stream-PassEnds :
      (s u : Steady Db)
      → PassEnds s (continue tt) u
      → Ensures (PassEnds s) (PassFails task (ok view) s) (store_stream u)
  store_stream-PassEnds s u (below, (resumed, bs, moved, e, e', a)) =
      bind-Ensures (PassFails task (ok view) s) (λ _ v. Same u v) (PassEnds s)
        (lift chain view.get_mempool_stream)
        (λ mempool. store_mempool task mempool >> pure (continue tt)) u
        (lift-Ensures (PassFails task (ok view) s) (λ _ v. Same u v) chain view.get_mempool_stream u
          (λ m k. (refl, refl)) (failed u (refl, refl)))
        (λ mempool v k.
          bind-Ensures (PassFails task (ok view) s) (λ _ w. Same v w) (PassEnds s)
            (store_mempool task mempool) (λ _. pure (continue tt)) v
            (imp-Ensures (Same v) (PassFails task (ok view) s) (λ _ w. Same v w) (λ _ w. Same v w)
              (store_mempool task mempool v) (λ _ w m. m) (λ w m. failed w (m.0 ∙ k.0, m.1 ∙ k.1))
              (store_mempool-Same task view mempool v))
            (λ _ w m. (below, done w (m.0 ∙ k.0, m.1 ∙ k.1))))
    where
      done :
          (w : Steady Db)
          → Same u w
          → (resumed : Resumption task (ok view) s) × (bs : List Block) × Applies task
              (ok view)
              s
              resumed
              bs
              w
            × (w.status.recovering ≡ none)
            × (w.status.tip_reached ≡ true)
            × Arrives s resumed bs
      done w (p, st) = (
        resumed,
        bs,
        (moved.0, rw p moved.1),
        ap (λ (x : SyncSignals). x.recovering) st ∙ e,
        ap (λ (x : SyncSignals). x.tip_reached) st ∙ e',
        a,
      )

      failed : (w : Steady Db) → Same u w → PassFails task (ok view) s w
      failed w k = let (r, cs, m, x, y, z) = done w k in inr (r, cs, m, x, y)

  publish-PassEnds :
      (s t : Steady Db)
      → IsBelow task.shutdown_height tip.height
      → Arrived s t
      → Ensures (PassEnds s) (PassFails task (ok view) s) (publish task view t)
  unfolding publish write apply
  publish-PassEnds s t below arrived =
      bind-Ensures (PassFails task (ok view) s) (λ _ u. Arrived s u) (PassEnds s)
        (on_db other (λ db. (db, task.block_fully_scanned db)))
        (λ scanned.
          write (set_fully_synced scanned)
          >> write mark_tip_reached
          >> write end_recovery
          >> store_stream)
        t
        (on_db-Ensures (PassFails task (ok view) s) (λ _ u. Arrived s u) other
          (λ db. (db, task.block_fully_scanned db)) t (λ a e. arrived)
          (Arrived-PassFails s t arrived))
        (λ scanned u (resumed, bs, moved, e, e', a).
          store_stream-PassEnds s
            (record u {
              status =
                  apply (apply (apply u.status (set_fully_synced scanned)) mark_tip_reached)
                    end_recovery;
            })
            (below, (resumed, bs, moved, refl, refl, a)))

  end_pass-PassEnds :
      (s t : Steady Db)
      → Arrived s t
      → Ensures
          (PassEnds s)
          (PassFails task (ok view) s)
          (end_pass task view (boundary_reached task.shutdown_height tip.height) t)
  unfolding end_pass
  end_pass-PassEnds s t (resumed, bs, moved, e, e', a) =
      elim (boundary-cases task.shutdown_height tip.height) [
        | inl (n, below) ↦ rw n (publish-PassEnds s t below (resumed, bs, moved, e, e', a))
        | inr (h, reached, at, l) ↦ rw reached (resumed, bs, moved, e, e', inr (a, at, l))
      ]

  after_catch_up-PassEnds :
      (s t : Steady Db) (flow : ControlFlow ℕ (Unit {0}))
      → CaughtUp task view s flow t
      → Ensures (PassEnds s) (PassFails task (ok view) s) (after_catch_up task view tip flow t)
  unfolding after_catch_up
  after_catch_up-PassEnds s t (break h) (resumed, bs, moved, e, e', located, next) =
      (resumed, bs, moved, e, e', inl next)
  after_catch_up-PassEnds s t (continue _) (resumed, bs, moved, e, e', located, all) =
      end_pass-PassEnds s t (resumed, bs, moved, e, e', inr (located, all))

  -- The pass over a view with its tip.
  over_view-PassEnds :
      (s : Steady Db)
      → Ensures (PassEnds s) (PassFails task (ok view) s) (
          (catch_up_if task (not (same_block tip s.prev_tip)) view tip
              >>= after_catch_up task view tip)
            s)
  unfolding catch_up_if
  over_view-PassEnds s = elim (Bool-cases (same_block tip s.prev_tip)) [
    | inl y ↦ rw y (
        unfold after_catch_up in
        end_pass-PassEnds s s (
          no_rewind,
          [],
          (s.db_data, stop _ _),
          refl,
          refl,
          inl (same_height tip s.prev_tip y, same_hash tip s.prev_tip y, refl),
        ))
    | inr n ↦ rw n (
        bind-Ensures (PassFails task (ok view) s) (CaughtUp task view s) (PassEnds s)
          (catch_up task view tip) (after_catch_up task view tip) s
          (imp-Ensures (Unfinished task (ok view) s) (PassFails task (ok view) s)
            (CaughtUp task view s) (CaughtUp task view s) (catch_up task view tip s) (λ _ t k. k)
            (λ t k. inl k) (catch_up-CaughtUp task view tip s))
          (λ flow t k. after_catch_up-PassEnds s t flow k))
  ]

module _ {Db DbError Block Trees Tx : Type 0} (task : SteadyTask Db DbError Block Trees Tx) where
  -- How a pass over a snapshot that returns ends.
  abbrev pub Passed :
      Result (SteadyView Block Trees Tx) ChainError
      → Steady Db
      → ControlFlow ℕ (Unit {0})
      → Steady Db
      → Type 0
  Passed snapshot s flow t =
      (view : SteadyView Block Trees Tx) × (tip : ChainBlock) × (snapshot ≡ ok view)
      × (view.tip ≡ ok tip)
      × PassEnds task view tip s flow t

  -- However a pass ends, its chain pointer has moved only block by block, from the previous tip and the
  -- database before the pass, or, where the fork point of that tip in that database is below it, from
  -- the block and the database that its truncation at the fork point answers. Each block is one height
  -- above the last and below the shutdown height; it was scanned with the trees that the view has before
  -- it, stored by `put_blocks` and made the chain tip, in the database that the one before has left. A
  -- pass that stops early has left the signal that the tip is reached as it was, and signals the height
  -- of its rewind, if it made one, as a recovery; it stops before a block of the stream that is at the
  -- shutdown height or above it, or, when it has arrived, because the view's tip is. A pass that goes on
  -- has signalled that the tip is reached and that no recovery runs, and then the view's tip is below
  -- the shutdown height and either is the previous tip, or a fork point was found and every block that
  -- the view streams was applied. A pass that fails or panics has left the signals of one of the two.
  pub steady_state_iteration-Ensures :
      (snapshot : Result (SteadyView Block Trees Tx) ChainError) (s : Steady Db)
      → Ensures
          (Passed snapshot s)
          (PassFails task snapshot s)
          (steady_state_iteration task snapshot s)
  unfolding steady_state_iteration
  steady_state_iteration-Ensures (err e) s = inl (no_rewind, [], (s.db_data, stop _ _), refl, refl)
  steady_state_iteration-Ensures (ok view) s =
      lift-bind-Ensures (PassFails task (ok view) s) (Passed (ok view) s) chain view.tip (pass view)
        s
        (λ tip e.
          imp-Ensures (PassFails task (ok view) s) (PassFails task (ok view) s)
            (PassEnds task view tip s) (Passed (ok view) s) (pass view tip s)
            (λ flow t k. (view, tip, refl, e, k)) (λ t k. k) (over_view-PassEnds task view tip s))
        (inl (no_rewind, [], (s.db_data, stop _ _), refl, refl))
    where
      pass : SteadyView Block Trees Tx → ChainBlock → Action Db DbError (ControlFlow ℕ (Unit {0}))
      pass view tip = gets (λ u. u.prev_tip) >>= λ prev.
          catch_up_if task (not (same_block tip prev)) view tip >>= after_catch_up task view tip
