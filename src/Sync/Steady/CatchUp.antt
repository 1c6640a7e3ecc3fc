-- ===== src/Sync/Steady/CatchUp.antt =====
-- What a pass of the steady state does to the chain pointer and the signals before it has caught up.
use wallet.Prelude.{
  ℕ, ◌<◌, arith, leb, ltb, Result, ◌≡◌, refl, ap, subst, ◌∙◌, ◌⊎◌, inl, inr, true, Option, none,
  some, ok, List, [], ◌∷◌, Bool-cases,
}
use wallet.Sync.Ledger.{ChainBlock, ChainError, other, returns}
use wallet.Sync.Status.{SyncSignals, apply, set_tip}
use wallet.Sync.Fork.{locate_fork_point}
use wallet.Sync.Recovery.{truncate_to_wallet_checkpoint}
use wallet.Sync.Range.{update_boundary, ControlFlow}
use wallet.Sync.Steady.Monad.{
  Steady, ◌>>=◌, gets, on_db, Ensures, bind-Ensures, on_db-Ensures, on_db-bind-Ensures,
  run-bind-Ensures, imp-Ensures,
}
use wallet.Sync.Steady.Frames.{Same}
use wallet.Sync.Steady.{
  SteadyView, SteadyTask, same_block, write, apply_blocks, rewind_to, locate, catch_up, store_all,
  store_mempool,
}
use wallet.Sync.Steady.Scan.{Scans, stop}
use wallet.Sync.Steady.Blocks.{Outcome, Moved, Applied, apply_blocks-Applied}

pub same_height : (a b : ChainBlock) → same_block a b ≡ true → a.height ≡ b.height
unfolding same_block
same_height a b e = ground arith

pub same_hash : (a b : ChainBlock) → same_block a b ≡ true → a.hash ≡ b.hash
unfolding same_block
same_hash a b e = ground arith

module _ {Db DbError Block Trees Tx : Type 0} (task : SteadyTask Db DbError Block Trees Tx)
    (snapshot : Result (SteadyView Block Trees Tx) ChainError) where
  -- Whether a pass has rewound the wallet: it has not looked for a fork point, or the fork point of the
  -- chain pointer is the pointer; or it is below, the database was truncated at it, and the pass resumes from the
  -- block that the truncation answered.
  pub data Resumption (s : Steady Db) : Type 0 where
    no_rewind : Resumption s
    stays :
        (view : SteadyView Block Trees Tx) (fork_point : ChainBlock)
        → snapshot ≡ ok view
        → locate_fork_point task.db_ops view.reads s.db_data s.prev_tip ≡ returns (ok fork_point)
        → fork_point.height ≡ s.prev_tip.height
        → fork_point.hash ≡ s.prev_tip.hash
        → Resumption s
    rewound :
        (view : SteadyView Block Trees Tx) (fork_point resume : ChainBlock)
        → snapshot ≡ ok view
        → locate_fork_point task.db_ops view.reads s.db_data s.prev_tip ≡ returns (ok fork_point)
        → fork_point.height < s.prev_tip.height
        → (truncate_to_wallet_checkpoint task.show task.db_ops s.db_data fork_point.height).1
          ≡ ok resume
        → Resumption s

module _ {Db DbError Block Trees Tx : Type 0} {task : SteadyTask Db DbError Block Trees Tx}
    {snapshot : Result (SteadyView Block Trees Tx) ChainError} where
  -- The block and the database that the applied blocks start from, and the signal of a recovery.
  abbrev pub start_of : (s : Steady Db) → Resumption task snapshot s → ChainBlock
  start_of s no_rewind = s.prev_tip
  start_of s (stays view fork_point e e' h h') = s.prev_tip
  start_of s (rewound view fork_point resume e e' l t) = resume

  abbrev pub start_db : (s : Steady Db) → Resumption task snapshot s → Db
  start_db s no_rewind = s.db_data
  start_db s (stays view fork_point e e' h h') = s.db_data
  start_db s (rewound view fork_point resume e e' l t) =
      (truncate_to_wallet_checkpoint task.show task.db_ops s.db_data fork_point.height).0

  abbrev pub recovery_of : (s : Steady Db) → Resumption task snapshot s → Option ℕ
  recovery_of s no_rewind = s.status.recovering
  recovery_of s (stays view fork_point e e' h h') = s.status.recovering
  recovery_of s (rewound view fork_point resume e e' l t) = some resume.height

  -- The fork point has been found.
  abbrev pub IsLocated : (s : Steady Db) → Resumption task snapshot s → Type 0
  IsLocated s no_rewind = ⊥
  IsLocated s (stays view fork_point e e' h h') = Unit
  IsLocated s (rewound view fork_point resume e e' l t) = Unit

module _ {Db DbError Block Trees Tx : Type 0} (task : SteadyTask Db DbError Block Trees Tx)
    (snapshot : Result (SteadyView Block Trees Tx) ChainError) where
  -- The blocks that a pass has applied, from where it starts.
  abbrev pub Applies :
      (s : Steady Db) → Resumption task snapshot s → List Block → Steady Db → Type 0
  Applies s resumed bs t =
      (last : Db) × Scans task snapshot (start_of s resumed) (start_db s resumed) bs t.prev_tip last

  -- A pass that has not reached the tip.
  abbrev pub Unfinished : Steady Db → Steady Db → Type 0
  Unfinished s t =
      (resumed : Resumption task snapshot s) × (bs : List Block) × Applies s resumed bs t
      × (t.status.recovering ≡ recovery_of s resumed)
      × (t.status.tip_reached ≡ s.status.tip_reached)

  -- A pass that has applied blocks and reported that it reached the tip.
  abbrev pub Finished : Steady Db → Steady Db → Type 0
  Finished s t =
      (resumed : Resumption task snapshot s) × (bs : List Block) × Applies s resumed bs t
      × (t.status.recovering ≡ none)
      × (t.status.tip_reached ≡ true)

  -- What a pass that fails or panics leaves: it may fail after its signals, on the mempool.
  abbrev pub PassFails : Steady Db → Steady Db → Type 0
  PassFails s t = Unfinished s t ⊎ Finished s t

  -- The signals that a caller reads are as they were, and so is the pointer.
  abbrev Unmoved : Steady Db → Steady Db → Type 0
  Unmoved s t =
      (t.prev_tip ≡ s.prev_tip)
      × (t.status.recovering ≡ s.status.recovering)
      × (t.status.tip_reached ≡ s.status.tip_reached)

  Unmoved-Unfinished : (s t : Steady Db) → Unmoved s t → Unfinished s t
  Unmoved-Unfinished s t (e, e', e'') = (no_rewind, [], (s.db_data, rw e (stop _ _)), e', e'')

module _ {Db DbError Block Trees Tx : Type 0} (task : SteadyTask Db DbError Block Trees Tx)
    (view : SteadyView Block Trees Tx) where
  abbrev Rewound : Steady Db → Steady Db → Type 0
  Rewound s t =
      (resumed : Resumption task (ok view) s) × (t.prev_tip ≡ start_of s resumed)
      × (t.db_data ≡ start_db s resumed)
      × (t.status.recovering ≡ recovery_of s resumed)
      × (t.status.tip_reached ≡ s.status.tip_reached)
      × IsLocated s resumed

  -- The state after the new tip is signalled.
  abbrev told : Steady Db → (boundary : ℕ) → SyncSignals → Steady Db
  told s boundary status = record s {
    lower_boundary = boundary;
    status = status;
    tip_signalled = true;
  }

  rewind_to-Rewound :
      (fork_point : ChainBlock) (s : Steady Db) (boundary : ℕ) (status : SyncSignals)
      → locate_fork_point task.db_ops view.reads s.db_data s.prev_tip ≡ returns (ok fork_point)
      → status.recovering ≡ s.status.recovering
      → status.tip_reached ≡ s.status.tip_reached
      → Ensures
          (λ _ u. Rewound s u)
          (Unfinished task (ok view) s)
          (rewind_to task fork_point s.prev_tip (told s boundary status))
  unfolding rewind_to write apply
  rewind_to-Rewound fork_point s boundary status found r g =
      elim (Bool-cases (same_block fork_point s.prev_tip)) [
        | inl y ↦ rw y (
          stays view fork_point refl found (same_height fork_point s.prev_tip y)
              (same_hash fork_point s.prev_tip y),
          refl,
          refl,
          r,
          g,
          tt,
        )
        | inr n ↦ rw n (elim (Bool-cases (ltb fork_point.height s.prev_tip.height)) [
          | inr past ↦
              rw past (Unmoved-Unfinished task (ok view) s (told s boundary status) (refl, r, g))
          | inl below ↦ rw below (
              on_db-bind-Ensures (Unfinished task (ok view) s) (λ _ u. Rewound s u) (λ e. e)
                (λ db. truncate_to_wallet_checkpoint task.show task.db_ops db fork_point.height) _
                (told s boundary status)
                (λ resume e. (
                  rewound view fork_point resume refl found (ground arith) e,
                  refl,
                  refl,
                  refl,
                  g,
                  tt,
                ))
                (Unmoved-Unfinished task (ok view) s
                  (record (told s boundary status) {
                    db_data =
                        (truncate_to_wallet_checkpoint task.show task.db_ops s.db_data
                          fork_point.height).0;
                  })
                  (refl, r, g)))
        ])
      ]

  -- What `catch_up` leaves.
  abbrev pub CaughtUp : Steady Db → ControlFlow ℕ (Unit {0}) → Steady Db → Type 0
  CaughtUp s flow t =
      (resumed : Resumption task (ok view) s) × (bs : List Block) × Applies task (ok view) s resumed
        bs t
      × (t.status.recovering ≡ recovery_of s resumed)
      × (t.status.tip_reached ≡ s.status.tip_reached)
      × IsLocated s resumed
      × Outcome task view (view.stream_blocks_to_tip (task.plus (start_of s resumed).height 1)) bs
          flow

  apply_blocks-CaughtUp :
      (s t : Steady Db)
      → Rewound s t
      → Ensures
          (CaughtUp s)
          (Unfinished task (ok view) s)
          (apply_blocks task view (view.stream_blocks_to_tip (task.plus t.prev_tip.height 1)) t)
  apply_blocks-CaughtUp s t (resumed, e, d, r, g, located) =
      imp-Ensures (Moved task view t) (Unfinished task (ok view) s)
        (Applied task view (view.stream_blocks_to_tip (task.plus t.prev_tip.height 1)) t)
        (CaughtUp s)
        (apply_blocks task view (view.stream_blocks_to_tip (task.plus t.prev_tip.height 1)) t)
        (λ flow u (bs, last, moved, kept, out). (
          resumed,
          bs,
          (last, from_start u bs last moved),
          ap (λ (x : SyncSignals). x.recovering) kept ∙ r,
          ap (λ (x : SyncSignals). x.tip_reached) kept ∙ g,
          located,
          subst
              (λ (p : ChainBlock).
                Outcome task view (view.stream_blocks_to_tip (task.plus p.height 1)) bs flow)
              e out,
        ))
        (λ u (bs, last, moved, kept). (
          resumed,
          bs,
          (last, from_start u bs last moved),
          ap (λ (x : SyncSignals). x.recovering) kept ∙ r,
          ap (λ (x : SyncSignals). x.tip_reached) kept ∙ g,
        ))
        (apply_blocks-Applied task view (view.stream_blocks_to_tip (task.plus t.prev_tip.height 1))
          t)
    where
      from_start :
          (u : Steady Db) (bs : List Block) (last : Db)
          → Scans task (ok view) t.prev_tip t.db_data bs u.prev_tip last
          → Scans task (ok view) (start_of s resumed) (start_db s resumed) bs u.prev_tip last
      from_start u bs last moved =
          subst (λ db. Scans task (ok view) (start_of s resumed) db bs u.prev_tip last) d
            (subst (λ p. Scans task (ok view) p t.db_data bs u.prev_tip last) e moved)

  pub catch_up-CaughtUp :
      (current_tip : ChainBlock) (s : Steady Db)
      → Ensures (CaughtUp s) (Unfinished task (ok view) s) (catch_up task view current_tip s)
  unfolding catch_up locate write apply
  catch_up-CaughtUp current_tip s =
      run-bind-Ensures (Unfinished task (ok view) s) (CaughtUp s)
        (locate_fork_point task.db_ops view.reads s.db_data s.prev_tip) _ now
        (λ fork_point found. elim (Bool-cases (leb fork_point.height current_tip.height)) [
          | inr n ↦ rw n (Unmoved-Unfinished task (ok view) s now (refl, refl, refl))
          | inl y ↦ rw y (
              bind-Ensures (Unfinished task (ok view) s) (λ _ u. Rewound s u) (CaughtUp s)
                (rewind_to task fork_point s.prev_tip)
                (λ _. gets (λ u. u.prev_tip) >>= λ (resume : ChainBlock).
                  apply_blocks task view (view.stream_blocks_to_tip (task.plus resume.height 1)))
                now (rewind_to-Rewound fork_point s _ _ found refl refl)
                (λ _ u m. apply_blocks-CaughtUp s u m))
        ])
        (Unmoved-Unfinished task (ok view) s now (refl, refl, refl))
    where
      now : Steady Db
      now =
          told s (update_boundary task.plus task.minus s.lower_boundary current_tip.height)
            (apply s.status (set_tip current_tip.height))

  store_all-Same :
      (txs : List Tx) (s t : Steady Db)
      → Same s t
      → Ensures (λ _ u. Same s u) (Same s) (store_all task txs t)
  unfolding store_all
  store_all-Same [] s t k = k
  store_all-Same (tx ∷ txs) s t k =
      let rest = store_all-Same txs s in
      bind-Ensures (Same s) (λ _ u. Same s u) (λ _ u. Same s u)
        (on_db other (λ db. task.decrypt_and_store_transaction db tx)) (λ _. store_all task txs) t
        (on_db-Ensures (Same s) (λ _ u. Same s u) other
          (λ db. task.decrypt_and_store_transaction db tx) t (λ a e. k) k)
        (λ _ u m. rest u m)

  pub store_mempool-Same :
      (mempool : Option (List Tx)) (s : Steady Db)
      → Ensures (λ _ u. Same s u) (Same s) (store_mempool task mempool s)
  unfolding store_mempool
  store_mempool-Same none s = (refl, refl)
  store_mempool-Same (some txs) s = store_all-Same txs s s (refl, refl)
