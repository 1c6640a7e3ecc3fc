-- ===== src/Sync/Fork.antt =====
-- sync.rs: locate_fork_point, rewind_step and step_back_to_best_chain.
pub mod Walk
pub mod Point
use wallet.Prelude.{
  ℕ, zero, suc, ◌-◌, ◌+◌, max, leb, ◌==◌, Bool, true, false, Option, none, some, List, [], ◌∷◌,
  if◌then◌else◌, Result, ok, err, ◌>>=◌, map_err,
}
use wallet.Sync.Ledger.{
  ChainBlock, ChainError, SyncError, chain, other, wallet_diverged_below_birthday, Run, returns,
  panics, out_of_fuel, WalletDb, ChainView,
}
use wallet.Sync.Locator.{build_block_locator}

unfoldable pub fork_search_step : ℕ
fork_search_step = 10

-- `saturating_sub` is the `-` of the natural numbers.
unfoldable pub rewind_step : (height birthday : ℕ) → ℕ × Bool
unfolding fork_search_step
rewind_step height birthday =
    let next = max (height - fork_search_step) birthday in (next, leb next birthday)

unfoldable pub same_hash : Option ℕ → ℕ → Bool
same_hash none hash = false
same_hash (some best) hash = best == hash

-- How a round goes on after its probe: `rest` is the walk from the probed height.
unfoldable pub after_probe :
    {DbError : Type 0}
    → (birthday : ℕ) → (reached_birthday : Bool) → Result (Option ChainBlock) (SyncError DbError)
    → (rest : Run ChainBlock (SyncError DbError)) → Run ChainBlock (SyncError DbError)
after_probe birthday reached (err e) rest = returns (err e)
after_probe birthday reached (ok (some block)) rest = returns (ok block)
after_probe birthday true (ok none) rest = returns (err (wallet_diverged_below_birthday birthday))
after_probe birthday false (ok none) rest = rest

module _ {DbError : Type 0} (view : ChainView)
    (wallet_hash : ℕ → Result (Option ℕ) (SyncError DbError)) where
  -- The body of the loop at one height: the wallet's block there, if it is on the best chain.
  unfoldable pub probe : ℕ → Result (Option ChainBlock) (SyncError DbError)
  probe height = wallet_hash height >>= λ recorded. elim recorded [
    | none ↦ ok none
    | some hash ↦ map_err chain (view.header_hash height) >>= λ best.
        if same_hash best hash then ok (some (record { height = height; hash = hash })) else ok none
  ]

  unfoldable pub step_back : (fuel height birthday : ℕ) → Run ChainBlock (SyncError DbError)
  step_back zero height birthday = out_of_fuel
  step_back (suc fuel) height birthday =
      let (next, reached_birthday) = rewind_step height birthday in
      let rest = step_back fuel next birthday in
      after_probe birthday reached_birthday (probe next) rest

  -- Each round but the last lowers the height, so the height itself bounds the rounds.
  unfoldable pub step_back_to_best_chain :
      (prev_tip : ChainBlock) (birthday : ℕ) → Run ChainBlock (SyncError DbError)
  step_back_to_best_chain prev_tip birthday =
      step_back (suc prev_tip.height) prev_tip.height birthday

-- `unwrap_or(0)`.
unfoldable pub or_zero : Option ℕ → ℕ
or_zero none = 0
or_zero (some height) = height

module _ {Db DbError : Type 0} (db_ops : WalletDb Db DbError) (view : ChainView)
    (db_data : Db) where
  unfoldable pub wallet_hash : ℕ → Result (Option ℕ) (SyncError DbError)
  wallet_hash height = map_err other (db_ops.get_block_hash db_data height)

  -- The `match` on the backend's answer.
  unfoldable pub resume_from :
      (prev_tip : ChainBlock) (birthday : ℕ) (hashes : List ℕ)
      → Option ChainBlock
      → Run ChainBlock (SyncError DbError)
  resume_from prev_tip birthday hashes (some fork_point) = returns (ok fork_point)
  resume_from prev_tip birthday [] none = returns (ok prev_tip)
  resume_from prev_tip birthday (hash ∷ hashes) none =
      step_back_to_best_chain view wallet_hash prev_tip birthday

  unfoldable pub on_answer :
      (prev_tip : ChainBlock) (birthday : ℕ) (hashes : List ℕ)
      → Result (Option ChainBlock) ChainError
      → Run ChainBlock (SyncError DbError)
  on_answer prev_tip birthday hashes (err e) = returns (err (chain e))
  on_answer prev_tip birthday hashes (ok answer) = resume_from prev_tip birthday hashes answer

  -- `none` is the locator whose construction panics.
  unfoldable pub on_locator :
      (prev_tip : ChainBlock) (birthday : ℕ)
      → Result (Option (List ℕ)) DbError
      → Run ChainBlock (SyncError DbError)
  on_locator prev_tip birthday (err e) = returns (err (other e))
  on_locator prev_tip birthday (ok none) = panics
  on_locator prev_tip birthday (ok (some hashes)) =
      on_answer prev_tip birthday hashes (view.find_fork_point hashes)

  unfoldable pub on_birthday :
      (prev_tip : ChainBlock) → Result (Option ℕ) DbError → Run ChainBlock (SyncError DbError)
  on_birthday prev_tip (err e) = returns (err (other e))
  on_birthday prev_tip (ok stored) =
      on_locator prev_tip (or_zero stored)
        (build_block_locator (db_ops.get_block_hash db_data) prev_tip.height)

  unfoldable pub locate_fork_point : (prev_tip : ChainBlock) → Run ChainBlock (SyncError DbError)
  locate_fork_point prev_tip = on_birthday prev_tip (db_ops.get_wallet_birthday db_data)
