-- ===== src/Sync/Scanner.antt =====
-- sync/steps.rs: what scanning asks of the decryptor, the scanner and the wallet, and the index of the
-- wallet's transparent addresses.
use Prim.Native.String.{String}
use wallet.Prelude.{
  ℕ, Bool, Option, none, some, List, [], ◌∷◌, if◌then◌else◌, Result, ok, err, ok_or, map_err, ◌>>=◌,
}
use wallet.Sync.Ledger.{ChainError, backend, SyncError, chain, scan, batch_decryptor_unavailable}

-- `ScanBlockError` of zcash_client_backend; any other variant is its text.
pub data ScanBlockError : Type 0 where
  failed : String → ScanBlockError
  unexpected : String → ScanBlockError

-- A block queued for decryption is `Queued`, its keys, header and transactions are `Decrypted`; a
-- decryptor that has shut down gives `none`. `BlockMetadata` is `Metadata`, `metadata_of` makes it of
-- the trees before a block.
pub record Scanner (Db DbError Block Trees : Type 0) : Type 1 where
  pub Queued : Type 0
  pub Decrypted : Type 0
  pub Nullifiers : Type 0
  pub Metadata : Type 0
  pub Scanned : Type 0
  pub Account : Type 0
  pub Scope : Type 0
  pub Address : Type 0
  pub queue_block : Block → Option Queued
  pub decrypted : Queued → Option Decrypted
  pub metadata_of : Trees → Metadata
  pub unspent : Db → Result Nullifiers DbError
  pub update_with : Nullifiers → Scanned → Nullifiers
  pub to_block_metadata : Scanned → Metadata
  pub scan_block :
      ℕ
      → Decrypted
      → Nullifiers
      → Option Metadata
      → (Address → Option (Account × Option Scope))
      → Result Scanned ScanBlockError
  pub put_blocks : Db → Trees → List Scanned → Db × Result (Unit {0}) DbError
  pub get_account_ids : Db → Result (List Account) DbError
  pub get_transparent_receivers : Db → Account → Result (List (Address × Option Scope)) DbError
  pub same_address : Address → Address → Bool

unfoldable pub scan_block_error : {DbError : Type 0} → ScanBlockError → SyncError DbError
scan_block_error (failed e) = scan e
scan_block_error (unexpected text) = chain (backend text)

module _ {Db DbError Block Trees : Type 0} (scanner : Scanner Db DbError Block Trees) where
  -- The hash map, its last entry first: a later entry replaces an earlier one.
  abbrev pub TransparentAddressIndex : Type 0
  TransparentAddressIndex = List (scanner.Address × scanner.Account × Option scanner.Scope)

  unfoldable pub insert_all :
      scanner.Account
      → List (scanner.Address × Option scanner.Scope)
      → TransparentAddressIndex
      → TransparentAddressIndex
  insert_all account [] index = index
  insert_all account ((address, scope) ∷ receivers) index =
      insert_all account receivers ((address, account, scope) ∷ index)

  unfoldable pub index_accounts :
      Db → List scanner.Account → TransparentAddressIndex → Result TransparentAddressIndex DbError
  index_accounts db_data [] index = ok index
  index_accounts db_data (account ∷ accounts) index = do
    receivers ← scanner.get_transparent_receivers db_data account
    index_accounts db_data accounts (insert_all account receivers index)

  unfoldable pub transparent_address_index : Db → Result TransparentAddressIndex DbError
  transparent_address_index db_data = do
    accounts ← scanner.get_account_ids db_data
    index_accounts db_data accounts []

  -- `addresses.get(address).copied()`.
  unfoldable pub get :
      TransparentAddressIndex → scanner.Address → Option (scanner.Account × Option scanner.Scope)
  get [] address = none
  get ((a, account, scope) ∷ index) address =
      if scanner.same_address a address then some (account, scope) else get index address

module _ {Db DbError Block Trees : Type 0} (scanner : Scanner Db DbError Block Trees) where
  -- The blocks of a stream, queued for decryption with their heights.
  unfoldable pub queue_all :
      (claimed_height : Block → ℕ)
      → List (Result Block ChainError)
      → Result (List (ℕ × scanner.Queued)) (SyncError DbError)
  queue_all claimed_height [] = ok []
  queue_all claimed_height (err e ∷ blocks) = err (chain e)
  queue_all claimed_height (ok block ∷ blocks) = do
    queued ← ok_or (scanner.queue_block block) batch_decryptor_unavailable
    batch ← queue_all claimed_height blocks
    ok ((claimed_height block, queued) ∷ batch)

  -- The scan of a batch, block by block, each with the nullifiers and the metadata of those before it.
  unfoldable pub scan_batch :
      TransparentAddressIndex scanner
      → scanner.Nullifiers
      → scanner.Metadata
      → List (ℕ × scanner.Queued)
      → Result (List scanner.Scanned) (SyncError DbError)
  scan_batch addresses nullifiers prior [] = ok []
  scan_batch addresses nullifiers prior ((height, queued) ∷ batch) = do
    decrypted ← ok_or (scanner.decrypted queued) batch_decryptor_unavailable
    scanned ←
        map_err scan_block_error
          (scanner.scan_block height decrypted nullifiers (some prior) (get scanner addresses))
    rest ←
        scan_batch addresses (scanner.update_with nullifiers scanned)
          (scanner.to_block_metadata scanned) batch
    ok (scanned ∷ rest)
