-- ===== src/Lib.antt =====
-- A verification library for Zallet, the Zcash full-node wallet.
--
-- The program. A wallet daemon keeps a database in step with the chain of a node and serves JSON-RPC
-- requests. The sync engine (zallet-core/src/components/sync.rs and its folder) scans blocks, rolls the
-- wallet back on a reorganization or on a divergence of its note commitment tree, and publishes
-- signals from which the balance and spend methods are allowed or refused. A request passes an
-- authorization layer (components/json_rpc/server/authorization.rs). A send method reads its
-- recipients, finds the account that pays, checks the proposal against the caller's privacy policy and
-- against limits on its size, and verifies the built transactions before they are broadcast
-- (components/json_rpc/payments.rs and methods/z_send_many.rs). It runs as an asynchronous operation in
-- a bounded queue (components/json_rpc/asyncop.rs), from which other methods list and collect it. At startup the
-- consensus rules of the node are compared with those of the build (components/chain.rs), which gives
-- the height where scanning must stop, if any.
--
-- The files, with the code that each models (paths below zallet-core/src/components):
-- - Prelude and its children: shared names, Boolean tests, list operations, Rust's `Result`.
-- - Rpc: json_rpc/server/error.rs. `wallet_error` is `LegacyCode::Wallet`.
-- - Rpc.Amount: `parse_fixed_point` and `zatoshis_from_value` (json_rpc/utils.rs), over a text as the
--   list of its code points. Rpc.Amount.Numeral is the grammar of JSON's numbers.
-- - Rpc.Authorization: `PasswordHash`, `AuthorizationLayer::new`, `is_authorized` and `call`
--   (json_rpc/server/authorization.rs). The users are a list with the newest first; the salt that is drawn
--   for a bare password stands in the section.
-- - Rpc.Versions: `HttpRequestMiddleware` with `JsonRpcRequest` and `JsonRpcResponse`
--   (json_rpc/server/http_request_compatibility.rs). The collection of a body under the limit, and the
--   reading and writing of JSON, are parameters.
-- - Rpc.Balances: json_rpc/methods/get_balances.rs, z_get_total_balance.rs and
--   z_get_balance_for_account.rs, from the wallet's summary on; amounts are not written as ZEC.
-- - Payments.Policy: `PrivacyPolicy`, its names, `meet` and `is_compatible_with` (json_rpc/payments.rs).
-- - Payments.Proposal: `step_privacy_requirement`, `shielded_pool_crossed_into`,
--   `enforce_privacy_policy`, `required_privacy_policy`. A step of a proposal is a record of what the
--   code asks of it.
-- - Payments.Limits: `check_shielded_action_limits`.
-- - Payments.Address: the addresses and amounts of the libraries, as far as the code takes them apart.
-- - Payments.Request: `build_request` and `parse_memo`. A hash set of addresses is a list.
-- - Payments.Recipients and Payments.Propose: `propose_and_check`, its loop over the recipients, and
--   `IncompatiblePrivacyPolicy` with its texts. `expect` on a payment without an amount is a panic.
-- - Payments.Source: `spend_policy_for`, `transparent_change_policy_for`,
--   `confirmations_policy_for_minconf`, `parse_privacy_policy`, and json_rpc/fund_source.rs.
-- - Payments.Accounts: `get_account_for_address`, `legacy_pool_account`, `get_legacy_pool_account`.
-- - Payments.SendMany: `call` of json_rpc/methods/z_send_many.rs, in a build without the feature
--   `zcashd-import`. It answers the fingerprint that the keystore is asked for, if it is, and the result.
-- - Payments.Shield: json_rpc/methods/z_shieldcoinbase.rs, the same way.
-- - Payments.Outputs: `check_transparent_outputs`; `swap_remove` moves the last payment as a `Vec` does.
-- - Payments.Broadcast: `proposed_transparent_payments`, `verify_and_broadcast_transactions` and
--   `SendResult`. It answers the transactions that are handed to the node, and the result.
-- - Operations.State: the states of an operation, the two writes of its task, and `to_status`
--   (json_rpc/asyncop.rs). The task locks the data twice: `start` and `finish` are what it does there.
-- - Operations.Queue: `insert`, `check_capacity`, `collect_finished`, and the methods of
--   json_rpc/methods/get_operation.rs and list_operation_ids.rs. `insert` is its part under the write
--   lock; the snapshot of finished IDs that it takes before is an argument.
-- - Operations.Queue.System: the queue under concurrent calls. A step is one critical section: one
--   read of a snapshot, an insertion with any snapshot taken before, a write of a task, or a
--   collection. A snapshot grows one read at a time, while other steps come between.
-- - Sync.Status: `SyncSignals`, `SyncStatusWriter` (an event for each method) and
--   `SyncStatusReader::ensure_available` (sync/status.rs).
-- - Sync.Ledger: `SyncError`, `ChainError`, `ChainBlock`, and the interfaces `WalletDb` and `ChainView`
--   of the database and of a view of the chain.
-- - Sync.Locator: `locator_block_heights`, `build_block_locator` (sync/locator.rs) and
--   `BlockLocator::from_blocks` (chain.rs).
-- - Sync.Fork: `rewind_step`, `step_back_to_best_chain`, `locate_fork_point` (sync.rs).
-- - Sync.Recovery: `TreeRecovery`, `tree_recovery_target`, `truncate_to_wallet_checkpoint`,
--   `recover_from_tree_divergence` (sync.rs).
-- - Sync.Range: `update_boundary`, `select_initial_scan_range`, `address_request_bounds` (sync.rs) and
--   `clamp_to_boundary` (sync/steps.rs).
-- - Sync.Scanner: `transparent_address_index` and `scan_block_error` (sync/steps.rs), and what scanning
--   asks of the decryptor and of zcash_client_backend.
-- - Sync.Steady: `steady_state_iteration` (sync.rs) and `scan_block` (sync/steps.rs), as an action on
--   the database, the chain pointer `prev_tip` and the signals, which keeps what it has written when it
--   fails or panics (Sync.Steady.Monad). Sync.Steady.Loop is the loop of `steady_state`, over a list of
--   what the chain answers in each turn.
-- - Sync.History: a turn of the loop of `recover_history` (sync.rs) and `scan_blocks` (sync/steps.rs), on
--   the same state.
-- - Keystore.Lock: the cache of identities with its relock task, `unlock`, `unlock_on_terminal`,
--   `lock`, `is_locked`, `unlocked_until` (keystore.rs), and the methods `walletpassphrase` and `walletlock`. A step is one
--   critical section, a timer that wakes up, or the passing of time.
-- - Keystore.Mnemonics: the tables of recipients and mnemonics, with `initialize_recipients`,
--   `encryptor`, `encrypt_and_store_mnemonic`, `confirm_backup`, `delete_mnemonic`, `backup_required`,
--   `select_seed`, `decrypt_mnemonic`, `decrypt_seed` (keystore.rs) and `ensure_seed_is_backed_up`
--   (json_rpc/utils.rs). Each call on the database has the error that it answers, if it fails.
-- - Chain: `check_consensus_compatibility` and what it calls (chain.rs). What the build knows of its
--   network, the branch IDs and their heights, is the record `Schedule`.
-- Below each stand the modules named for what they prove, and Tests with runs at concrete inputs.
--
-- Numbers. A `u32`, a block height and a `usize` are natural numbers; `saturating_sub` is the `-` of
-- the natural numbers, and `checked_mul` has its bound 2 ^ 32 written out. The `+` and `-` of a
-- `BlockHeight` with a number belong to zcash_protocol and are parameters. A block hash and an
-- operation ID are the numbers that their bytes spell, a time is a number of nanoseconds.
--
-- Fuel. `successors` doubles 1 until 2 ^ 32 is passed, in 32 steps, and has fuel 33.
-- `step_back_to_best_chain` has the height and one as fuel: each round but the last lowers the height.
-- The batches of a range have its length as fuel: a batch is not empty.
-- A run that spends its fuel or fails an assertion has a result of its own.
--
-- Parameters. The database (zcash_client_sqlite), the chain backends, `ScanRange`, the serialization of
-- results and the display of numbers are parameters, with what their documentation promises as
-- hypotheses where a theorem needs it: `find_fork_point` answers an entry of the locator on the best
-- chain, a truncated range lies within the range and the bound, a range is split strictly inside, and the
-- wallet's identities decrypt what is encrypted to its recipients. So are the ZIP 321 library, the
-- proposer, the derivation of transparent keys, the arithmetic of `Zatoshis` (a sum above `MAX_MONEY` and a
-- negative difference are `None`), the password hash and the codecs of the authorization layer, and the
-- summary of the wallet's balances (the account's own amounts are the sums of its pools').
--
-- Not modelled: the tasks `initialize` and `data_requests`, block decryption and scanning itself, the
-- legacy seeds and standalone keys of the keystore, the building and signing of transactions, the method
-- `z_sendfromaccount`, the remaining RPC methods, the rest of the HTTP server, the
-- backends, the configuration, the migration from zcashd and the commands. Logging, the delays and the
-- cancellation of tasks are left out of what is modelled. A message is the source's text or the key of a
-- translated text, and leaves out some of the values formatted into it.
pub mod Chain
pub mod Keystore
pub mod Operations
pub mod Payments
pub mod Prelude
pub mod Rpc
pub mod Sync
