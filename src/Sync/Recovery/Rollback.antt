-- ===== src/Sync/Recovery/Rollback.antt =====
-- Where a recovery from a divergence of the note commitment tree leaves the wallet.
use Prim.Native.String.{String}
use wallet.Prelude.{
  ℕ, suc, ◌<◌, ◌≤◌, ◌≡◌, refl, ap, ◌∙◌, Option, none, some, arith, inl, inr, Result, ok, err, ◌⊎◌,
  ◌≢◌,
}
use wallet.Sync.Ledger.{ChainBlock, SyncError, wallet_tree_diverged, WalletDb}
use wallet.Sync.Fork.{or_zero}
use wallet.Sync.Recovery.{
  TreeRecovery, get_or_insert, observed_at, next_depth, tree_recovery_target, target_of,
  resume_point, with_height, resume_at, after_truncate, retry_at_safe, first_truncate,
  truncate_to_wallet_checkpoint, check_moved, roll_back, recover_above,
  recover_from_tree_divergence,
}
use wallet.Sync.Recovery.Ladder.{next_depth_lem, next_depth-rung, next_depth-spent}

target_of-low :
    (depth : Option ℕ) (tip birthday : ℕ) → tip ≤ birthday → target_of depth tip birthday ≡ none
unfolding target_of tree_recovery_target
target_of-low none tip birthday h = refl
target_of-low (some depth) tip birthday h = ground arith

-- The tip reported is the one that the divergence was first seen at, before or now.
observed_at-next :
    (recovery : TreeRecovery) (tip : ℕ)
    → observed_at (next_depth recovery tip).0 tip ≡ observed_at recovery tip
unfolding observed_at
observed_at-next recovery tip =
    ap (λ o. get_or_insert o tip) (next_depth_lem recovery tip).0 ∙ (unfold get_or_insert in refl)

module _ {Db DbError : Type 0} (show : ℕ → String) (db_ops : WalletDb Db DbError) where
  after_truncate-ok :
      (truncated : Db × Result ℕ DbError) (block : ChainBlock)
      → (after_truncate show db_ops truncated).1 ≡ ok block
      → db_ops.get_block_hash (after_truncate show db_ops truncated).0 block.height
        ≡ ok (some block.hash)
  unfolding after_truncate resume_at with_height resume_point
  after_truncate-ok (db_data, err e) block h = cc
  after_truncate-ok (db_data, ok actual) block h = ground arith

  truncate_to_wallet_checkpoint-ok :
      (db_data : Db) (target : ℕ) (block : ChainBlock)
      → (truncate_to_wallet_checkpoint show db_ops db_data target).1 ≡ ok block
      → db_ops.get_block_hash
          (truncate_to_wallet_checkpoint show db_ops db_data target).0
          block.height
        ≡ ok (some block.hash)
  unfolding truncate_to_wallet_checkpoint
  truncate_to_wallet_checkpoint-ok db_data target block h =
      first (db_ops.truncate_to_height db_data target) h
    where
      retry :
          (db_data : Db) (e : DbError) (safe : Option ℕ)
          → (retry_at_safe show db_ops db_data e safe).1 ≡ ok block
          → db_ops.get_block_hash (retry_at_safe show db_ops db_data e safe).0 block.height
            ≡ ok (some block.hash)
      retry db_data e none h = unfold retry_at_safe in cc
      retry db_data e (some safe) h =
          unfold retry_at_safe in after_truncate-ok (db_ops.truncate_to_height db_data safe) block h

      first :
          (truncated : Db × Result ℕ DbError)
          → (first_truncate show db_ops truncated).1 ≡ ok block
          → db_ops.get_block_hash (first_truncate show db_ops truncated).0 block.height
            ≡ ok (some block.hash)
      first (db_data, err e) h =
          unfold first_truncate in retry db_data e (db_ops.safe_rewind_height e) h
      first (db_data, ok actual) h =
          unfold first_truncate in after_truncate-ok (db_data, ok actual) block h

  check_moved-ok :
      (prev_tip : ChainBlock) (observed birthday : ℕ)
      (resumed : Result ChainBlock (SyncError DbError)) (block : ChainBlock)
      → check_moved show db_ops prev_tip observed birthday resumed ≡ ok block
      → (resumed ≡ ok block) × (block.height < prev_tip.height)
  unfolding check_moved
  check_moved-ok prev_tip observed birthday (err e) block h = cc
  check_moved-ok prev_tip observed birthday (ok resumed) block h = ground arith

  roll_back-ok :
      (db_data : Db) (prev_tip : ChainBlock) (observed birthday : ℕ) (target : Option ℕ)
      (block : ChainBlock)
      → (roll_back show db_ops db_data prev_tip observed birthday target).1 ≡ ok block
      → (target ≢ none)
        × (block.height < prev_tip.height)
        × (db_ops.get_block_hash
              (roll_back show db_ops db_data prev_tip observed birthday target).0
              block.height
            ≡ ok (some block.hash))
  unfolding roll_back
  roll_back-ok db_data prev_tip observed birthday none block h = cc
  roll_back-ok db_data prev_tip observed birthday (some target) block h =
      let (resumed, lower) =
        check_moved-ok prev_tip observed birthday
          (truncate_to_wallet_checkpoint show db_ops db_data target).1 block h in
      (λ e. cc, lower, truncate_to_wallet_checkpoint-ok db_data target block resumed)

  above-ok :
      (db_data : Db) (prev_tip : ChainBlock) (recovery : TreeRecovery)
      (answer : Result (Option ℕ) DbError) (block : ChainBlock)
      → (recover_above show db_ops db_data prev_tip recovery answer).2 ≡ ok block
      → (block.height < prev_tip.height)
        × (db_ops.get_block_hash
              (recover_above show db_ops db_data prev_tip recovery answer).0
              block.height
            ≡ ok (some block.hash))
        × (recovery.attempts < 6)
        × ((recover_above show db_ops db_data prev_tip recovery answer).1.attempts
            ≡ suc recovery.attempts)
  unfolding recover_above
  above-ok db_data prev_tip recovery (err e) block h = cc
  above-ok db_data prev_tip recovery (ok stored) block h =
      let (aimed, lower, recorded) = roll_back-ok db_data prev_tip _ _ _ block h in
      let (left, counted) = next_depth-rung recovery prev_tip.height (λ n. aimed (
        ap (λ depth. target_of depth prev_tip.height (or_zero stored)) n
        ∙ (unfold target_of in refl))) in
      (lower, recorded, left, counted)

  -- A recovery that succeeds resumes below the tip that diverged, at a block that the wallet it leaves
  -- has recorded, and has used one of the six rungs.
  pub recover_from_tree_divergence-ok :
      (db_data : Db) (prev_tip : ChainBlock) (recovery : TreeRecovery) (block : ChainBlock)
      → (recover_from_tree_divergence show db_ops db_data prev_tip recovery).2 ≡ ok block
      → (block.height < prev_tip.height)
        × (db_ops.get_block_hash
              (recover_from_tree_divergence show db_ops db_data prev_tip recovery).0
              block.height
            ≡ ok (some block.hash))
        × (recovery.attempts < 6)
        × ((recover_from_tree_divergence show db_ops db_data prev_tip recovery).1.attempts
            ≡ suc recovery.attempts)
  unfolding recover_from_tree_divergence
  recover_from_tree_divergence-ok db_data prev_tip recovery block =
      above-ok db_data prev_tip recovery (db_ops.get_wallet_birthday db_data) block

  above_gives_up :
      (db_data : Db) (prev_tip : ChainBlock) (recovery : TreeRecovery) (stored : Option ℕ)
      → target_of (next_depth recovery prev_tip.height).1 prev_tip.height (or_zero stored) ≡ none
      → ((recover_above show db_ops db_data prev_tip recovery (ok stored)).0 ≡ db_data)
        × ((recover_above show db_ops db_data prev_tip recovery (ok stored)).2
            ≡ err (
                wallet_tree_diverged
                  (observed_at recovery prev_tip.height)
                  prev_tip.height
                  (or_zero stored)))
  unfolding recover_above
  above_gives_up db_data prev_tip recovery stored n = rw n (
      unfold roll_back in
      (
        refl,
        ap (λ o. err (wallet_tree_diverged o prev_tip.height (or_zero stored)))
            (observed_at-next recovery prev_tip.height),
      ))

  -- A recovery with no rung left, or with the tip at the birthday or below, gives up: it leaves the
  -- database as it is and reports where the divergence was first seen.
  pub recover_gives_up :
      (db_data : Db) (prev_tip : ChainBlock) (recovery : TreeRecovery) (stored : Option ℕ)
      → db_ops.get_wallet_birthday db_data ≡ ok stored
      → (6 ≤ recovery.attempts) ⊎ (prev_tip.height ≤ or_zero stored)
      → ((recover_from_tree_divergence show db_ops db_data prev_tip recovery).0 ≡ db_data)
        × ((recover_from_tree_divergence show db_ops db_data prev_tip recovery).2
            ≡ err (
                wallet_tree_diverged
                  (observed_at recovery prev_tip.height)
                  prev_tip.height
                  (or_zero stored)))
  unfolding recover_from_tree_divergence
  recover_gives_up db_data prev_tip recovery stored read why =
      rw read (above_gives_up db_data prev_tip recovery stored (nowhere why))
    where
      nowhere :
          (6 ≤ recovery.attempts) ⊎ (prev_tip.height ≤ or_zero stored)
          → target_of (next_depth recovery prev_tip.height).1 prev_tip.height (or_zero stored)
            ≡ none
      nowhere (inl spent) =
          unfold target_of in rw (next_depth-spent recovery prev_tip.height spent) refl
      nowhere (inr low) =
          target_of-low (next_depth recovery prev_tip.height).1 prev_tip.height (or_zero stored) low
