-- ===== src/Payments/Propose.antt =====
-- `propose_and_check` of payments.rs: the recipients, the proposal, its privacy and its size.
pub mod Built
use Prim.Native.String
use Prim.Native.String.{String}
use wallet.Prelude.{ℕ, Option, List, Result, ok, err, map_err, ◌>>=◌, ◌>>◌}
use wallet.Rpc.{ErrorObject, with_message, misc, wallet_error}
use wallet.Payments.Policy.{PrivacyPolicy}
use wallet.Payments.Proposal.{ShieldedPool, Step, enforce_privacy_policy}
use wallet.Payments.Limits.{check_shielded_action_limits, ShieldedActionLimitExceeded}
use wallet.Payments.Address.{Zatoshis, Address, TransparentAddress, same_address}
use wallet.Payments.Recipients.{
  incompatible_error, Checked, passed, refused, panicked, check_recipients, all_available,
}
use wallet.Payments.Source.{SpendPolicy, TransparentChangePolicy, transparent_change_policy_for}

-- A result, or the panic of an `expect`.
pub data Proposing (A : Type 0) : Type 0 where
  done : Result A ErrorObject → Proposing A
  panics : Proposing A

-- What the libraries answer: the payments of a request, the decoding of an address for the network,
-- the text of a pool, and the proposal made under the policies on spends and on transparent change.
-- The account and the confirmations of a call are fixed in `propose_transfer`.
pub record Proposer (ZcashAddress TransactionRequest : Type 0) : Type 0 where
  pub payments : TransactionRequest → List (ZcashAddress × Option ℕ)
  pub try_from_zcash_address : ZcashAddress → Result Address String
  pub shown : ShieldedPool → String
  pub propose_transfer :
      TransactionRequest
      → SpendPolicy
      → TransparentChangePolicy
      → Result (List (Step TransparentAddress)) String

module _ (shown : ShieldedPool → String) (actions_limit : ℕ) where
  -- The checks of what `propose_transfer` answers.
  unfoldable pub check_proposal :
      PrivacyPolicy
      → List (Step TransparentAddress)
      → Result (List (Step TransparentAddress)) ErrorObject
  check_proposal privacy_policy proposal = do
    map_err (incompatible_error shown) (enforce_privacy_policy same_address proposal privacy_policy)
    map_err (λ (e : ShieldedActionLimitExceeded). with_message misc "err-excess-shielded-actions")
        (check_shielded_action_limits actions_limit proposal)
    ok proposal

module _ {ZcashAddress TransactionRequest : Type 0} (z : Zatoshis)
    (l : Proposer ZcashAddress TransactionRequest) (actions_limit : ℕ) where
  unfoldable pub proposed :
      TransactionRequest → SpendPolicy → Result (List (Step TransparentAddress)) ErrorObject
  proposed request spend_policy =
      map_err (λ e. with_message wallet_error (String.◌++◌ "err-propose-transaction-failed: " e))
        (l.propose_transfer request spend_policy (transparent_change_policy_for spend_policy))

  -- From `propose_transfer` on.
  unfoldable pub propose_checked :
      TransactionRequest
      → PrivacyPolicy
      → SpendPolicy
      → Result (List (Step TransparentAddress)) ErrorObject
  unfolding check_proposal proposed
  propose_checked request privacy_policy spend_policy =
      proposed request spend_policy >>= check_proposal l.shown actions_limit privacy_policy

  unfoldable pub after_recipients :
      Checked
      → Result (List (Step TransparentAddress)) ErrorObject
      → Proposing (List (Step TransparentAddress))
  after_recipients panicked rest = panics
  after_recipients (refused e) rest = done (err e)
  after_recipients passed rest = done rest

  unfoldable pub propose_and_check :
      TransactionRequest → PrivacyPolicy → SpendPolicy → Proposing (List (Step TransparentAddress))
  unfolding propose_checked after_recipients
  propose_and_check request privacy_policy spend_policy =
      after_recipients
        (check_recipients z privacy_policy l.shown l.try_from_zcash_address (l.payments request)
          all_available)
        (propose_checked request privacy_policy spend_policy)
