-- ===== src/Sync/Status.antt =====
-- sync/status.rs: the signals of the sync engine, and the gate of the balance and spend methods.
pub mod Gate
use Prim.Native.String
use Prim.Native.String.{String}
use wallet.Prelude.{
  ℕ, ◌-◌, leb, Bool, true, false, ◌&&◌, Option, none, some, List, [], ◌∷◌, if◌then◌else◌, Result,
  ok, err,
}
use wallet.Rpc.{ErrorObject, client_in_initial_download, forbidden_by_safe_mode, with_message}

-- A block height is the number of its `u32`.
pub data SyncStatus : Type 0 where
  catching_up : (fully_synced : Option ℕ) (tip : ℕ) → SyncStatus
  synced : SyncStatus
  recovering_to : (rolled_back_to : ℕ) → SyncStatus

pub record SyncSignals : Type 0 where
  pub tip : ℕ
  pub fully_synced : Option ℕ
  pub tip_reached : Bool
  pub recovering : Option ℕ

-- `self.fully_synced.is_some_and(…)`; `saturating_sub` is the `-` of the natural numbers.
unfoldable pub within_tip : Option ℕ → (tip tolerance : ℕ) → Bool
within_tip none tip tolerance = false
within_tip (some fs) tip tolerance = leb (tip - fs) tolerance

status_from : Option ℕ → SyncSignals → (tolerance : ℕ) → SyncStatus
unfolding within_tip
status_from (some rolled_back_to) s tolerance = recovering_to rolled_back_to
status_from none s tolerance =
    if s.tip_reached && within_tip s.fully_synced s.tip tolerance
    then synced
    else catching_up s.fully_synced s.tip

unfoldable pub status : SyncSignals → (tolerance : ℕ) → SyncStatus
unfolding status_from
status s tolerance = status_from s.recovering s tolerance

-- The writes that the sync tasks make; the channel serializes them.
pub data Event : Type 0 where
  set_tip : ℕ → Event
  set_fully_synced : Option ℕ → Event
  mark_tip_reached : Event
  begin_recovery : ℕ → Event
  end_recovery : Event

unfoldable pub apply : SyncSignals → Event → SyncSignals
apply s (set_tip tip) = record s { tip = tip }
apply s (set_fully_synced fully_synced) = record s { fully_synced = fully_synced }
apply s mark_tip_reached = record s { tip_reached = true }
apply s (begin_recovery rolled_back_to) = record s { recovering = some rolled_back_to }
apply s end_recovery = record s { recovering = none }

unfoldable pub channel : SyncSignals
channel = record { tip = 0; fully_synced = none; tip_reached = false; recovering = none }

unfoldable pub run : SyncSignals → List Event → SyncSignals
run s [] = s
run s (e ∷ es) = run (apply s e) es

-- How far the message says that the wallet is behind.
unfoldable pub behind : Option ℕ → ℕ → ℕ
behind none tip = tip
behind (some fs) tip = tip - fs

-- `show` is the `Display` of a `u32`.
module _ (show : ℕ → String) where
  text : List String → String
  text [] = ""
  text (s ∷ rest) = String.◌++◌ s (text rest)

  gate : SyncStatus → Result (Unit {0}) ErrorObject
  unfolding with_message text behind
  gate synced = ok tt
  gate (catching_up fully_synced tip) = err (
      with_message client_in_initial_download (
        text (
          "Wallet is still catching up ("
          ∷ show (behind fully_synced tip)
          ∷ " blocks behind the chain tip); balance and spend operations are unavailable until it is synced"
          ∷ [])))
  gate (recovering_to rolled_back_to) = err (
      with_message forbidden_by_safe_mode (
        text (
          "Wallet is recovering from a chain reorganization (rolled back to "
          ∷ show rolled_back_to
          ∷ "); balance and spend operations are unavailable until it has resynced"
          ∷ [])))

  unfoldable pub ensure_available : SyncSignals → (tolerance : ℕ) → Result (Unit {0}) ErrorObject
  unfolding gate
  ensure_available s tolerance = gate (status s tolerance)
