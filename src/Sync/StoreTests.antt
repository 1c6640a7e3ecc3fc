-- ===== src/Sync/StoreTests.antt =====
-- Runs of the fork search and of the recovery on a small wallet, and the theorems at those inputs.
use mathlib.Core.List.{Memᴰ}
use Prim.Native.String.{String}
use wallet.Prelude.{
  ℕ, ◌+◌, ◌-◌, ◌<◌, ◌≤◌, ◌≡◌, refl, ◌⊎◌, inl, inr, min, leb, ◌&&◌, true, Option, none, some, arith,
  List, [], ◌∷◌, if◌then◌else◌, All, Result, ok, err, ok_injective,
}
use wallet.Sync.Ledger.{
  ChainBlock, ChainError, SyncError, wallet_tree_diverged, returns, WalletDb, ChainView,
}
use wallet.Sync.Locator.{
  build_block_locator, locator_block_heights, max_locator_depth, checked_mul, checked_sub,
  successors, below, take_above, known_blocks, push_found, from_blocks, from_blocks_after,
  push_hash,
}
use wallet.Sync.Locator.Build.{IsRecorded, build_block_locator_lem}
use wallet.Sync.Fork.{or_zero, step_back_to_best_chain, locate_fork_point}
use wallet.Sync.Fork.Walk.{Ends, step_back_to_best_chain-Ends}
use wallet.Sync.Fork.Point.{Located, locate_fork_point-Located}
use wallet.Sync.Recovery.{
  no_recovery, tree_recovery_ladder, recover_from_tree_divergence, recover_above, next_depth,
  get_or_insert, observed_at, take_rung, target_of, tree_recovery_target, roll_back, check_moved,
  truncate_to_wallet_checkpoint, first_truncate, after_truncate, resume_at, with_height,
  resume_point,
}
use wallet.Sync.Recovery.Rollback.{recover_from_tree_divergence-ok, recover_gives_up}

abbrev shown : ℕ → String
shown _ = "7"

-- A wallet with a block at every height up to its tip; block `h` has the hash 1000 + `h`.
abbrev recorded : ℕ → ℕ → Result (Option ℕ) (Unit {0})
recorded tip height = if leb height tip then ok (some (1000 + height)) else ok none

abbrev small_db : WalletDb ℕ (Unit {0})
small_db = record {
  get_wallet_birthday = λ _. ok (some 5);
  get_block_hash = recorded;
  truncate_to_height = λ tip height. (min tip height, ok (min tip height));
  safe_rewind_height = λ _. none;
  is_tree_error = λ _. true;
}

abbrev recorded_in : ℕ → Result (Option ℕ) (SyncError (Unit {0}))
recorded_in height = if leb height 40 then ok (some (1000 + height)) else ok none

-- The best chain leaves the wallet's after height 20.
abbrev best_hash : ℕ → Result (Option ℕ) ChainError
best_hash height = if leb height 20 then ok (some (1000 + height)) else ok (some (2000 + height))

abbrev best_of : List ℕ → Option ChainBlock
best_of [] = none
best_of (hash ∷ hashes) =
    if leb 1000 hash && leb hash 1020
    then some (record { height = hash - 1000; hash = hash })
    else best_of hashes

abbrev small_view : ChainView
small_view = record { header_hash = best_hash; find_fork_point = λ hashes. ok (best_of hashes) }

best_of-cases :
    (hash : ℕ) (hashes : List ℕ) (block : ChainBlock)
    → best_of (hash ∷ hashes) ≡ some block
    → ((block.hash ≡ hash) × (1000 + block.height ≡ block.hash) × (block.height ≤ 20))
      ⊎ (best_of hashes ≡ some block)
best_of-cases hash hashes block h = ground arith

best_hash-low :
    (block : ChainBlock)
    → 1000 + block.height ≡ block.hash
    → block.height ≤ 20
    → best_hash block.height ≡ ok (some block.hash)
best_hash-low block e l = ground arith

best_of_law :
    (hashes : List ℕ) (block : ChainBlock)
    → small_view.find_fork_point hashes ≡ ok (some block)
    → Memᴰ block.hash hashes × (small_view.header_hash block.height ≡ ok (some block.hash))
best_of_law hashes block h = go hashes (ok_injective h)
  where
    go :
        (hashes : List ℕ)
        → best_of hashes ≡ some block
        → Memᴰ block.hash hashes × (small_view.header_hash block.height ≡ ok (some block.hash))
    go [] h = cc
    go (hash ∷ hashes) h = elim (best_of-cases hash hashes block h) [
      | inl (e, s, l) ↦ (Memᴰ.head e, best_hash-low block s l)
      | inr later ↦ let (m, b) = go hashes later in (Memᴰ.tail m, b)
    ]

abbrev tip_30 : ChainBlock
tip_30 = record { height = 30; hash = 1030 }

abbrev hashes_of_2 : List ℕ
hashes_of_2 = 1002 ∷ 1001 ∷ 1000 ∷ []

build_block_locator_lem_example :
    (hashes : List ℕ) × (some hashes_of_2 ≡ some hashes) × All (IsRecorded (recorded 9) 2) hashes
unfolding build_block_locator locator_block_heights max_locator_depth checked_mul checked_sub
    successors below take_above known_blocks push_found from_blocks from_blocks_after push_hash
build_block_locator_lem_example = build_block_locator_lem (recorded 9) 2 (some hashes_of_2) refl

step_back_to_best_chain-Ends_example :
    (r : Result ChainBlock (SyncError (Unit {0}))) × (step_back_to_best_chain small_view
        (λ h. recorded_in h)
        tip_30
        5
      ≡ returns r)
    × Ends small_view (λ h. recorded_in h) 30 5 r
step_back_to_best_chain-Ends_example =
    step_back_to_best_chain-Ends small_view (λ h. recorded_in h) tip_30 5

locate_fork_point-Located_example :
    (r : Result ChainBlock (SyncError (Unit {0}))) × (locate_fork_point small_db small_view 30
        tip_30
      ≡ returns r)
    × Located small_db small_view 30 best_of_law tip_30 r
locate_fork_point-Located_example =
    locate_fork_point-Located small_db small_view 30 best_of_law tip_30

recover_from_tree_divergence-ok_example :
    (29 < 30)
    × (recorded (recover_from_tree_divergence shown small_db 30 tip_30 no_recovery).0 29
        ≡ ok (some 1029))
    × (0 < 6)
    × ((recover_from_tree_divergence shown small_db 30 tip_30 no_recovery).1.attempts ≡ 1)
unfolding recover_from_tree_divergence recover_above or_zero next_depth get_or_insert observed_at
    take_rung tree_recovery_ladder target_of tree_recovery_target roll_back check_moved
    truncate_to_wallet_checkpoint first_truncate after_truncate resume_at with_height resume_point
    no_recovery
recover_from_tree_divergence-ok_example =
    recover_from_tree_divergence-ok shown small_db 30 tip_30 no_recovery
      (record { height = 29; hash = 1029 }) refl

recover_gives_up_example :
    ((recover_from_tree_divergence shown small_db 5
        (record { height = 5; hash = 1005 })
        no_recovery).0
      ≡ 5)
    × ((recover_from_tree_divergence shown small_db 5
          (record { height = 5; hash = 1005 })
          no_recovery).2
        ≡ err (wallet_tree_diverged 5 5 5))
unfolding or_zero observed_at get_or_insert no_recovery
recover_gives_up_example =
    recover_gives_up shown small_db 5 (record { height = 5; hash = 1005 }) no_recovery (some 5) refl
      (inr (omega arith))
