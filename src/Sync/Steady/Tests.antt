-- ===== src/Sync/Steady/Tests.antt =====
-- A pass over a reorganisation of three blocks, and the theorems at it.
use wallet.Prelude.{
  ℕ, ◌+◌, ◌-◌, ◌==◌, ◌≡◌, refl, min, leb, true, false, none, some, List, [], ◌∷◌, if◌then◌else◌, ok,
}
use wallet.Sync.Ledger.{ChainBlock, WalletDb, returns}
use wallet.Sync.Locator.{
  build_block_locator, locator_block_heights, max_locator_depth, checked_mul, checked_sub,
  successors, below, take_above, known_blocks, push_found, from_blocks, from_blocks_after,
  push_hash,
}
use wallet.Sync.Fork.{or_zero, locate_fork_point, on_birthday, on_locator, on_answer, resume_from}
use wallet.Sync.Recovery.{
  truncate_to_wallet_checkpoint, first_truncate, after_truncate, resume_at, with_height,
  resume_point,
}
use wallet.Sync.Scanner.{
  Scanner, scan_block_error, transparent_address_index, index_accounts, insert_all, get,
}
use wallet.Sync.Status.{channel, apply}
use wallet.Sync.Range.{continue, update_boundary}
use wallet.Sync.Steady.Monad.{Steady, Ensures}
use wallet.Sync.Steady.{
  SteadyView, SteadyTask, same_block, at_boundary, boundary_reached, write, trees_or_error,
  scan_below, scan_block, pointer, after_scan, apply_blocks, rewind_to, locate, catch_up, store_all,
  store_mempool, publish, end_pass, after_catch_up, catch_up_if, steady_state_iteration,
}
use wallet.Sync.Steady.CatchUp.{PassFails}
use wallet.Sync.Steady.Pass.{Passed, steady_state_iteration-Ensures}
use wallet.Sync.Steady.Loop.{steady_state}
use wallet.Sync.Steady.Tracks.{TurnTracks, steady_state-Tracks}

-- The database is the height of its last block; its block at `h` has the hash 100 + `h`.
abbrev test_db : WalletDb ℕ (Unit {0})
test_db = record {
  get_wallet_birthday = λ _. ok (some 1);
  get_block_hash = λ db height. ok (if leb height db then some (100 + height) else none);
  truncate_to_height = λ db height. (min db height, ok (min db height));
  safe_rewind_height = λ _. none;
  is_tree_error = λ _. false;
}

abbrev last_of : ℕ → List ℕ → ℕ
last_of db [] = db
last_of db (height ∷ heights) = last_of height heights

-- A scanned block is its height, which the wallet has one account with one address for.
abbrev test_scanner : Scanner ℕ (Unit {0}) ChainBlock (Unit {0})
test_scanner = record {
  Queued = ChainBlock;
  Decrypted = ChainBlock;
  Nullifiers = List ℕ;
  Metadata = ℕ;
  Scanned = ℕ;
  Account = ℕ;
  Scope = ℕ;
  Address = ℕ;
  queue_block = λ block. some block;
  decrypted = λ block. some block;
  metadata_of = λ trees. 0;
  unspent = λ db. ok [];
  update_with = λ nullifiers scanned. scanned ∷ nullifiers;
  to_block_metadata = λ scanned. scanned;
  scan_block = λ height decrypted nullifiers prior address_of. ok height;
  put_blocks = λ db trees scanned. (last_of db scanned, ok tt);
  get_account_ids = λ db. ok (3 ∷ []);
  get_transparent_receivers = λ db account. ok ((9, none) ∷ []);
  same_address = λ a b. a == b;
}

abbrev pub test_task : SteadyTask ℕ (Unit {0}) ChainBlock (Unit {0}) ℕ
test_task = record {
  show = λ _. "7";
  plus = λ a b. a + b;
  minus = λ a b. a - b;
  shutdown_height = some 50;
  db_ops = test_db;
  scanner = test_scanner;
  update_chain_tip = λ db height. (db, ok tt);
  block_fully_scanned = λ db. ok (some db);
  decrypt_and_store_transaction = λ db tx. (db, ok tt);
  claimed_height = λ block. block.height;
  block_hash = λ block. block.hash;
  conflict_height = λ _. none;
}

abbrev best : ℕ → ChainBlock
best height = record { height = height; hash = 200 + height }

-- The best chain leaves the wallet's after height 5, and ends at 8.
abbrev test_view : SteadyView ChainBlock (Unit {0}) ℕ
test_view = record {
  reads = record {
    header_hash = λ height. ok (some (if leb height 5 then 100 + height else 200 + height));
    find_fork_point = λ hashes. ok (some (record { height = 5; hash = 105 }));
  };
  tip = ok (best 8);
  tree_state_as_of = λ _. ok (some tt);
  stream_blocks_to_tip =
      λ height. if leb height 6 then ok (best 6) ∷ ok (best 7) ∷ ok (best 8) ∷ [] else [];
  stream_blocks = λ range. [];
  get_mempool_stream = ok (some (1 ∷ 2 ∷ []));
}

abbrev test_state : Steady ℕ
test_state = record {
  db_data = 7;
  prev_tip = record { height = 7; hash = 107 };
  lower_boundary = 0;
  status = channel;
  tip_signalled = false;
}

catches_up : (steady_state_iteration test_task (ok test_view) test_state) ≡ (
  record {
    db_data = 8;
    prev_tip = best 8;
    lower_boundary = 0;
    status = record { tip = 8; fully_synced = some 8; tip_reached = true; recovering = none };
    tip_signalled = true;
  },
  returns (ok (continue tt)),
)
unfolding scan_block_error transparent_address_index index_accounts insert_all get same_block
    at_boundary boundary_reached write trees_or_error scan_below scan_block pointer after_scan
    apply_blocks rewind_to locate catch_up store_all store_mempool publish end_pass after_catch_up
    catch_up_if steady_state_iteration update_boundary channel apply truncate_to_wallet_checkpoint
    first_truncate after_truncate resume_at with_height resume_point or_zero locate_fork_point
    on_birthday on_locator on_answer resume_from build_block_locator locator_block_heights
    max_locator_depth checked_mul checked_sub successors below take_above known_blocks push_found
    from_blocks from_blocks_after push_hash
catches_up = refl

steady_state_iteration-Ensures_example :
    Ensures
      (Passed test_task (ok test_view) test_state)
      (PassFails test_task (ok test_view) test_state)
      (steady_state_iteration test_task (ok test_view) test_state)
steady_state_iteration-Ensures_example =
    steady_state_iteration-Ensures test_task (ok test_view) test_state

steady_state-Tracks_example :
    TurnTracks test_task (record { of_pass = ok test_view; of_conflict = ok test_view } ∷ []) (
      steady_state test_task
        (record { of_pass = ok test_view; of_conflict = ok test_view } ∷ [])
        test_state)
steady_state-Tracks_example =
    steady_state-Tracks test_task
      (record { of_pass = ok test_view; of_conflict = ok test_view } ∷ []) test_state
      (unfold channel in refl)
