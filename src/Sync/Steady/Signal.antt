-- ===== src/Sync/Steady/Signal.antt =====
-- The recovery signal along a pass and the arms of an error.
use mathlib.Core.List.{◌++◌}
use wallet.Prelude.{
  ℕ, ◌≡◌, sym, ◌∙◌, inl, inr, Option, none, some, List, [], Result, ok, err, Bool-cases,
}
use wallet.Sync.Ledger.{
  ChainBlock, ChainError, SyncError, chain, other, Run, returns, panics, out_of_fuel, is_retryable,
  is_tree_divergence,
}
use wallet.Sync.Status.{apply}
use wallet.Sync.Fork.{locate_fork_point}
use wallet.Sync.Recovery.{TreeRecovery, truncate_to_wallet_checkpoint, recover_from_tree_divergence}
use wallet.Sync.Steady.Monad.{
  Steady, lift, on_db, Ends, Ensures, bind-Ensures, on_db-Ensures, lift-Ensures, run-Ensures,
}
use wallet.Sync.Steady.{SteadyView, SteadyTask, write}
use wallet.Sync.Steady.Scan.{Scans}
use wallet.Sync.Steady.CatchUp.{no_rewind, stays, rewound, Unfinished, Finished, PassFails}
use wallet.Sync.Steady.Loop.{
  Turn, goes_on, ends, stuck, turn_of, candidate_tip, locate_from, resume_from, resolve_conflict,
  conflict_of, resumed_at, recover_tree, on_other_error, on_conflict, on_error,
}

module _ {Db DbError Block Trees Tx : Type 0} (task : SteadyTask Db DbError Block Trees Tx) where
  -- Blocks applied one after another, in parts: each part is one of a pass over a snapshot.
  pub data AppliedPath : ChainBlock → List Block → ChainBlock → Type 0 where
    origin : (p : ChainBlock) → AppliedPath p [] p
    part :
        {p q r : ChainBlock} {bs cs : List Block} {db last : Db}
        (snapshot : Result (SteadyView Block Trees Tx) ChainError)
        → AppliedPath p bs q
        → Scans task snapshot q db cs r last
        → AppliedPath p (bs ++ cs) r

  -- While the signals show a recovery from a height, the pointer is that of blocks applied one after
  -- another on top of a block of that height.
  abbrev pub Tracks : Steady Db → Type 0
  Tracks s =
      (h : ℕ)
      → s.status.recovering ≡ some h
      → (resume : ChainBlock) × (bs : List Block) × (resume.height ≡ h)
        × AppliedPath resume bs s.prev_tip

  pub Unfinished-Tracks :
      (snapshot : Result (SteadyView Block Trees Tx) ChainError) (s t : Steady Db)
      → Tracks s
      → Unfinished task snapshot s t
      → Tracks t
  Unfinished-Tracks snapshot s t held (no_rewind, bs, (last, moved), e, _) h k =
      let (resume, cs, same, path) = held h (sym e ∙ k) in
      (resume, cs ++ bs, same, part snapshot path moved)
  Unfinished-Tracks snapshot s t held (stays v f x y z w, bs, (last, moved), e, _) h k =
      let (resume, cs, same, path) = held h (sym e ∙ k) in
      (resume, cs ++ bs, same, part snapshot path moved)
  Unfinished-Tracks snapshot s t held (rewound v f resume x y z w, bs, (last, moved), e, _) h k =
      (resume, [] ++ bs, cc, part snapshot (origin resume) moved)

  pub Finished-Tracks :
      (snapshot : Result (SteadyView Block Trees Tx) ChainError) (s t : Steady Db)
      → Finished task snapshot s t
      → Tracks t
  Finished-Tracks snapshot s t (resumed, bs, moved, e, _) h k = absurd (cc)

  pub PassFails-Tracks :
      (snapshot : Result (SteadyView Block Trees Tx) ChainError) (s t : Steady Db)
      → Tracks s
      → PassFails task snapshot s t
      → Tracks t
  PassFails-Tracks snapshot s t held (inl u) = Unfinished-Tracks snapshot s t held u
  PassFails-Tracks snapshot s t held (inr f) = Finished-Tracks snapshot s t f

  -- The arms of an error do not end the task without one.
  abbrev pub ErrorTracks : Turn Db DbError → Type 0
  ErrorTracks (goes_on s recovery) = Tracks s
  ErrorTracks (ends s (ok _)) = ⊥
  ErrorTracks (ends s (err e)) = Tracks s
  ErrorTracks (stuck s) = Tracks s

  turn_of-Tracks :
      (recovery : TreeRecovery) (s : Steady Db) (r : Run (Unit {0}) (SyncError DbError))
      → Ends (λ _ t. Tracks t) Tracks s r
      → ErrorTracks (turn_of recovery s r)
  unfolding turn_of
  turn_of-Tracks recovery s (returns (ok _)) h = h
  turn_of-Tracks recovery s (returns (err e)) h = h
  turn_of-Tracks recovery s panics h = h
  turn_of-Tracks recovery s out_of_fuel h = h

  on_db-Tracks :
      {A E : Type 0} (g : E → SyncError DbError) (call : Db → Db × Result A E) (s : Steady Db)
      → Tracks s
      → Ensures (λ _ t. Tracks t) Tracks (on_db g call s)
  on_db-Tracks g call s held = on_db-Ensures Tracks (λ _ t. Tracks t) g call s (λ a e. held) held

  resumed_at-Tracks :
      (r : Result ChainBlock (SyncError DbError)) (s : Steady Db)
      → Tracks s
      → Ensures (λ _ t. Tracks t) Tracks (resumed_at task r s)
  unfolding resumed_at write apply
  resumed_at-Tracks (err e) s held = held
  resumed_at-Tracks (ok resume) s held = λ h k. (resume, [], cc, origin resume)

  resume_from-Tracks :
      (fork_point : ChainBlock) (s : Steady Db)
      → Tracks s
      → Ensures (λ _ t. Tracks t) Tracks (resume_from task fork_point s)
  unfolding resume_from write apply
  resume_from-Tracks fork_point s held =
      bind-Ensures Tracks (λ _ t. Tracks t) (λ _ t. Tracks t)
        (on_db (λ e. e)
          (λ db. truncate_to_wallet_checkpoint task.show task.db_ops db fork_point.height))
        _ s
        (on_db-Tracks (λ e. e)
          (λ db. truncate_to_wallet_checkpoint task.show task.db_ops db fork_point.height) s held)
        (λ resume t k h e. (resume, [], cc, origin resume))

  candidate_tip-Tracks :
      (height : ℕ) (hash : Option ℕ) (s : Steady Db)
      → Tracks s
      → Ensures {DbError = DbError} (λ _ t. Tracks t) Tracks (candidate_tip height hash s)
  unfolding candidate_tip
  candidate_tip-Tracks height none s held = held
  candidate_tip-Tracks height (some hash) s held = held

  resolve_conflict-Tracks :
      (snapshot : Result (SteadyView Block Trees Tx) ChainError) (height : ℕ) (s : Steady Db)
      → Tracks s
      → Ensures (λ _ t. Tracks t) Tracks (resolve_conflict task snapshot height s)
  unfolding resolve_conflict locate_from
  resolve_conflict-Tracks snapshot height s held =
      bind-Ensures Tracks (λ _ t. Tracks t) (λ _ t. Tracks t)
        (on_db other (λ db. (db, task.db_ops.get_block_hash db (task.minus height 1)))) _ s
        (on_db-Tracks other (λ db. (db, task.db_ops.get_block_hash db (task.minus height 1))) s
          held)
        (λ hash t k.
          bind-Ensures Tracks (λ _ u. Tracks u) (λ _ u. Tracks u)
            (candidate_tip (task.minus height 1) hash) _ t
            (candidate_tip-Tracks (task.minus height 1) hash t k)
            (λ candidate u m.
              bind-Ensures Tracks (λ _ v. Tracks v) (λ _ v. Tracks v) (lift chain snapshot) _ u
                (lift-Ensures Tracks (λ _ v. Tracks v) chain snapshot u (λ a e. m) m)
                (λ view v n.
                  bind-Ensures Tracks (λ _ w. Tracks w) (λ _ w. Tracks w)
                    (locate_from task view candidate) _ v
                    (run-Ensures Tracks (λ _ w. Tracks w)
                      (locate_fork_point task.db_ops view.reads v.db_data candidate) v (λ a e. n) n)
                    (λ fork_point w o. resume_from-Tracks fork_point w o))))

  recover_tree-Tracks :
      (recovery : TreeRecovery) (s : Steady Db)
      → Tracks s
      → ErrorTracks (recover_tree task recovery s)
  unfolding recover_tree
  recover_tree-Tracks recovery s held = turn_of-Tracks _ _ _ (
      resumed_at-Tracks
        (recover_from_tree_divergence task.show task.db_ops s.db_data s.prev_tip recovery).2
        (record s {
          db_data =
              (recover_from_tree_divergence task.show task.db_ops s.db_data s.prev_tip recovery).0;
        })
        held)

  on_conflict-Tracks :
      (snapshot : Result (SteadyView Block Trees Tx) ChainError) (recovery : TreeRecovery)
      (error : SyncError DbError) (height : Option ℕ) (s : Steady Db)
      → Tracks s
      → ErrorTracks (on_conflict task snapshot recovery error height s)
  unfolding on_conflict on_other_error
  on_conflict-Tracks snapshot recovery error (some height) s held =
      turn_of-Tracks recovery _ _ (resolve_conflict-Tracks snapshot height s held)
  on_conflict-Tracks snapshot recovery error none s held =
      elim (Bool-cases (is_tree_divergence task.db_ops.is_tree_error error)) [
        | inl y ↦ rw y (recover_tree-Tracks recovery s held)
        | inr n ↦ rw n held
      ]

  pub on_error-Tracks :
      (snapshot : Result (SteadyView Block Trees Tx) ChainError) (recovery : TreeRecovery)
      (error : SyncError DbError) (s : Steady Db)
      → Tracks s
      → ErrorTracks (on_error task snapshot recovery error s)
  unfolding on_error
  on_error-Tracks snapshot recovery error s held =
      elim (Bool-cases (is_retryable task.db_ops.is_tree_error error)) [
        | inl y ↦ rw y held
        | inr n ↦ rw n (on_conflict-Tracks snapshot recovery error (conflict_of task error) s held)
      ]
