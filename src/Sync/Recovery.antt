-- ===== src/Sync/Recovery.antt =====
-- sync.rs: the recovery from a divergence of the note commitment tree.
pub mod Ladder
pub mod Rollback
use Prim.Native.String
use Prim.Native.String.{String}
use wallet.Prelude.{
  ℕ, zero, suc, ◌+◌, ◌-◌, ◌*◌, max, ltb, leb, Bool, true, false, Option, none, some, List, [], ◌∷◌,
  if◌then◌else◌, get_elem?, Result, ok, err, ◌>>=◌,
}
use wallet.Sync.Ledger.{
  ChainBlock, ChainError, backend, SyncError, chain, other, wallet_tree_diverged, WalletDb,
}
use wallet.Sync.Fork.{or_zero}

unfoldable pub tree_recovery_ladder : List ℕ
tree_recovery_ladder = 1 ∷ 100 ∷ 288 ∷ 288 * 4 ∷ 288 * 16 ∷ 288 * 64 ∷ []

pub record TreeRecovery : Type 0 where
  pub attempts : ℕ
  pub high_water : Option ℕ

-- `Self::default()`.
unfoldable pub no_recovery : TreeRecovery
no_recovery = record { attempts = 0; high_water = none }

unfoldable pub get_or_insert : Option ℕ → ℕ → ℕ
get_or_insert none tip = tip
get_or_insert (some high_water) tip = high_water

unfoldable pub observed_at : TreeRecovery → ℕ → ℕ
observed_at r wallet_tip = get_or_insert r.high_water wallet_tip

-- The count of a `usize` grows only while the ladder has a rung for it, so it stays within 6.
unfoldable pub take_rung : TreeRecovery → Option ℕ → TreeRecovery × Option ℕ
take_rung r none = (r, none)
take_rung r (some depth) = (record r { attempts = suc r.attempts }, some depth)

unfoldable pub next_depth : TreeRecovery → (wallet_tip : ℕ) → TreeRecovery × Option ℕ
next_depth r wallet_tip =
    take_rung (record r { high_water = some (get_or_insert r.high_water wallet_tip) })
      (get_elem? tree_recovery_ladder r.attempts)

unfoldable pub progress_past : TreeRecovery → Option ℕ → (wallet_tip : ℕ) → TreeRecovery × Bool
progress_past r none wallet_tip = (r, false)
progress_past r (some high_water) wallet_tip =
    if ltb high_water wallet_tip then (no_recovery, true) else (r, false)

unfoldable pub note_progress : TreeRecovery → (wallet_tip : ℕ) → TreeRecovery × Bool
note_progress r wallet_tip = progress_past r r.high_water wallet_tip

-- `saturating_sub` is the `-` of the natural numbers.
unfoldable pub tree_recovery_target : (wallet_tip depth birthday : ℕ) → Option ℕ
tree_recovery_target wallet_tip depth birthday =
    let target = max (wallet_tip - depth) birthday in
    if ltb target wallet_tip then some target else none

unfoldable pub target_of : Option ℕ → (wallet_tip birthday : ℕ) → Option ℕ
target_of none wallet_tip birthday = none
target_of (some depth) wallet_tip birthday = tree_recovery_target wallet_tip depth birthday

-- `show` is the `Display` of a `u32`.
module _ {Db DbError : Type 0} (show : ℕ → String) (db_ops : WalletDb Db DbError) where
  unfoldable pub resume_point :
      (requested : ℕ) → Option (ℕ × ℕ) → Result ChainBlock (SyncError DbError)
  resume_point requested none = err (
      chain (
        backend (
          String.◌++◌ "the wallet has no block recorded at "
            (String.◌++◌ (show requested) " after truncating to it"))))
  resume_point requested (some (height, hash)) = ok (record { height = height; hash = hash })

  unfoldable pub with_height : ℕ → Option ℕ → Option (ℕ × ℕ)
  with_height height none = none
  with_height height (some hash) = some (height, hash)

  -- The end of `truncate_to_wallet_checkpoint`, at the height that the wallet is now at.
  unfoldable pub resume_at :
      Db → (actual : ℕ) → Result (Option ℕ) DbError → Result ChainBlock (SyncError DbError)
  resume_at db_data actual (err e) = err (other e)
  resume_at db_data actual (ok hash) = resume_point actual (with_height actual hash)

  unfoldable pub after_truncate : Db × Result ℕ DbError → Db × Result ChainBlock (SyncError DbError)
  after_truncate (db_data, err e) = (db_data, err (other e))
  after_truncate (db_data, ok actual) =
      (db_data, resume_at db_data actual (db_ops.get_block_hash db_data actual))

  unfoldable pub retry_at_safe :
      Db → DbError → Option ℕ → Db × Result ChainBlock (SyncError DbError)
  retry_at_safe db_data e none = (db_data, err (other e))
  retry_at_safe db_data e (some safe) = after_truncate (db_ops.truncate_to_height db_data safe)

  unfoldable pub first_truncate : Db × Result ℕ DbError → Db × Result ChainBlock (SyncError DbError)
  first_truncate (db_data, err e) = retry_at_safe db_data e (db_ops.safe_rewind_height e)
  first_truncate (db_data, ok actual) = after_truncate (db_data, ok actual)

  unfoldable pub truncate_to_wallet_checkpoint :
      Db → (target : ℕ) → Db × Result ChainBlock (SyncError DbError)
  truncate_to_wallet_checkpoint db_data target =
      first_truncate (db_ops.truncate_to_height db_data target)

  -- The test that the rung moved the wallet down.
  unfoldable pub check_moved :
      (prev_tip : ChainBlock) (observed birthday : ℕ)
      → Result ChainBlock (SyncError DbError)
      → Result ChainBlock (SyncError DbError)
  check_moved prev_tip observed birthday (err e) = err e
  check_moved prev_tip observed birthday (ok resume_from) =
      if leb prev_tip.height resume_from.height
      then err (wallet_tree_diverged observed resume_from.height birthday)
      else ok resume_from

  unfoldable pub roll_back :
      Db
      → (prev_tip : ChainBlock) (observed birthday : ℕ) → (target : Option ℕ)
      → Db × Result ChainBlock (SyncError DbError)
  roll_back db_data prev_tip observed birthday none =
      (db_data, err (wallet_tree_diverged observed prev_tip.height birthday))
  roll_back db_data prev_tip observed birthday (some target) =
      let (db_data', resumed) = truncate_to_wallet_checkpoint db_data target in
      (db_data', check_moved prev_tip observed birthday resumed)

  -- The new database, the new bookkeeping and the result.
  unfoldable pub recover_above :
      Db
      → (prev_tip : ChainBlock) → TreeRecovery
      → Result (Option ℕ) DbError
      → Db × TreeRecovery × Result ChainBlock (SyncError DbError)
  recover_above db_data prev_tip recovery (err e) = (db_data, recovery, err (other e))
  recover_above db_data prev_tip recovery (ok stored) =
      let birthday = or_zero stored in
      let (recovery', depth) = next_depth recovery prev_tip.height in
      let (db_data', result) =
        roll_back db_data prev_tip (observed_at recovery' prev_tip.height) birthday
          (target_of depth prev_tip.height birthday) in
      (db_data', recovery', result)

  unfoldable pub recover_from_tree_divergence :
      Db
      → (prev_tip : ChainBlock) → TreeRecovery
      → Db × TreeRecovery × Result ChainBlock (SyncError DbError)
  recover_from_tree_divergence db_data prev_tip recovery =
      recover_above db_data prev_tip recovery (db_ops.get_wallet_birthday db_data)
