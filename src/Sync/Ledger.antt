-- ===== src/Sync/Ledger.antt =====
-- sync/error.rs, chain/error.rs and ChainBlock of chain.rs, and what the sync engine asks of its
-- database and of a view of the chain, which are parameters.
use Prim.Native.String.{String}
use wallet.Prelude.{ℕ, Bool, true, false, Option, List, Result}

-- A block hash is the number that its 32 bytes spell.
pub record ChainBlock : Type 0 where
  pub height : ℕ
  pub hash : ℕ

pub data ChainError : Type 0 where
  unavailable : String → ChainError
  invalid_data : String → ChainError
  backend : String → ChainError

-- `DbError` stands for `SqliteClientError`; the errors of `shardtree` and of scanning are their texts.
pub data SyncError (DbError : Type 0) : Type 0 where
  batch_decryptor_unavailable : SyncError DbError
  chain : ChainError → SyncError DbError
  scan : String → SyncError DbError
  tree : String → SyncError DbError
  other : DbError → SyncError DbError
  wallet_diverged_below_birthday : (birthday : ℕ) → SyncError DbError
  wallet_tree_diverged : (observed_at rolled_back_to birthday : ℕ) → SyncError DbError

-- How a call ends: it returns, an assertion of it fails, or the model's fuel is spent.
pub data Run (A E : Type 0) : Type 0 where
  returns : Result A E → Run A E
  panics : Run A E
  out_of_fuel : Run A E

-- The database: `safe_rewind_height` is the lowest height of a `RequestedRewindInvalid`, and
-- `is_tree_error` tells the three variants about the note commitment tree.
pub record WalletDb (Db DbError : Type 0) : Type 0 where
  pub get_wallet_birthday : Db → Result (Option ℕ) DbError
  pub get_block_hash : Db → ℕ → Result (Option ℕ) DbError
  pub truncate_to_height : Db → ℕ → Db × Result ℕ DbError
  pub safe_rewind_height : DbError → Option ℕ
  pub is_tree_error : DbError → Bool

-- A view of the chain: `header_hash` is the hash of the header that `get_block_header` answers.
pub record ChainView : Type 0 where
  pub header_hash : ℕ → Result (Option ℕ) ChainError
  pub find_fork_point : List ℕ → Result (Option ChainBlock) ChainError

module _ {DbError : Type 0} (is_tree_error : DbError → Bool) where
  unfoldable pub is_retryable : SyncError DbError → Bool
  is_retryable (chain (unavailable _)) = true
  is_retryable _ = false

  unfoldable pub is_tree_divergence : SyncError DbError → Bool
  is_tree_divergence (tree _) = true
  is_tree_divergence (other e) = is_tree_error e
  is_tree_divergence _ = false
