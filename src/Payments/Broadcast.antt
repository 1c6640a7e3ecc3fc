-- ===== src/Payments/Broadcast.antt =====
-- `proposed_transparent_payments`, `verify_and_broadcast_transactions` and `SendResult` of
-- payments.rs: the built transactions are verified against the proposal, then sent.
pub mod Sent
use Prim.Native.String
use Prim.Native.String.{String}
use wallet.Prelude.{
  ℕ, suc, Bool, true, false, Option, none, some, List, [], ◌∷◌, map, length, ◌==◌, if◌then◌else◌,
  Result, ok, err, ◌>>=◌, ◌>>◌, ok_or, map_err,
}
use wallet.Rpc.{ErrorObject, with_message, database, wallet_error}
use wallet.Payments.Proposal.{PoolType, transparent, shielded}
use wallet.Payments.Address.{TransparentAddress, public_key_hash, Address, UnifiedAddress}
use wallet.Payments.Outputs.{
  Payment, Derivation, TransparentAddressSource, TransparentOutputError, check_transparent_outputs,
  unrecognized_script, unknown_address, not_derived, derivation_mismatch, no_transparent_key,
  missing_payment, lookup,
}

-- A payment of a transaction request, and what the code asks of a step of the proposal.
pub record RequestedPayment (ZcashAddress : Type 0) : Type 0 where
  pub recipient_address : ZcashAddress
  pub amount : Option ℕ

pub record ProposalStep (ZcashAddress : Type 0) : Type 0 where
  pub payment_pools : List (ℕ × PoolType)
  pub payments : ℕ → Option (RequestedPayment ZcashAddress)

-- The receiver that a payment in the transparent pool pays.
unfoldable pub transparent_receiver : Option Address → Result TransparentAddress ErrorObject
transparent_receiver none = err (
    with_message wallet_error
      "Internal error: transparent-pool payment to a non-transparent address.")
transparent_receiver (some (Address.sapling _)) = err (
    with_message wallet_error
      "Internal error: transparent-pool payment to a non-transparent address.")
transparent_receiver (some (Address.transparent addr)) = ok addr
transparent_receiver (some (Address.tex hash)) = ok (public_key_hash hash)
transparent_receiver (some (Address.unified ua)) = ok_or ua.transparent (
    with_message wallet_error
      "Internal error: transparent-pool payment to a unified address without a transparent receiver.")

-- `try_from_zcash_address` for the network, its error left out: no message shows it.
module _ {ZcashAddress : Type 0} (try_from_zcash_address : ZcashAddress → Option Address) where
  unfoldable pub payment_made : Option (RequestedPayment ZcashAddress) → Result Payment ErrorObject
  unfolding transparent_receiver
  payment_made requested = do
    payment ← ok_or requested (
        with_message wallet_error "Internal error: proposal step references a nonexistent payment.")
    value ←
        ok_or payment.amount
          (with_message wallet_error "Internal error: proposal step payment has no amount.")
    addr ← transparent_receiver (try_from_zcash_address payment.recipient_address)
    ok (addr, value)

  unfoldable pub step_payments :
      (ℕ → Option (RequestedPayment ZcashAddress))
      → List (ℕ × PoolType)
      → Result (List Payment) ErrorObject
  step_payments payments [] = ok []
  step_payments payments ((index, shielded pool) ∷ rest) = step_payments payments rest
  step_payments payments ((index, transparent) ∷ rest) = do
    payment ← payment_made (payments index)
    later ← step_payments payments rest
    ok (payment ∷ later)

  unfoldable pub proposed_transparent_payments :
      List (ProposalStep ZcashAddress) → Result (List (List Payment)) ErrorObject
  unfolding step_payments
  proposed_transparent_payments [] = ok []
  proposed_transparent_payments (step ∷ steps) = do
    payments ← step_payments step.payments step.payment_pools
    rest ← proposed_transparent_payments steps
    ok (payments ∷ rest)

-- The error of a failed verification; `encode` is that of an address, `shown` that of an index.
unfoldable pub output_error :
    (encode : TransparentAddress → String)
    → (shown : ℕ → String) → TransparentOutputError String
    → ErrorObject
output_error encode shown (lookup e) = with_message database e
output_error encode shown (unrecognized_script vout) =
    with_message wallet_error
      (String.◌++◌ "err-transparent-output-not-wallet-derived: output index " (shown vout))
output_error encode shown (missing_payment addr) =
    with_message wallet_error (String.◌++◌ "err-transparent-payment-missing: " (encode addr))
output_error encode shown (unknown_address addr) =
    with_message wallet_error
      (String.◌++◌ "err-transparent-output-not-wallet-derived: " (encode addr))
output_error encode shown (derivation_mismatch addr) =
    with_message wallet_error
      (String.◌++◌ "err-transparent-output-not-wallet-derived: " (encode addr))
output_error encode shown (no_transparent_key addr) =
    with_message wallet_error
      (String.◌++◌ "err-transparent-output-not-wallet-derived: " (encode addr))
output_error encode shown (not_derived addr) =
    with_message wallet_error
      (String.◌++◌ "err-transparent-output-not-wallet-derived: " (encode addr))

pub record SendResult : Type 0 where
  pub txid : Option String
  pub txids : List String
  pub broadcast : Bool

-- `(txids.len() == 1).then(…)`.
unfoldable pub only : List String → Option String
only [] = none
only (txid ∷ []) = some txid
only (txid ∷ _ ∷ _) = none

-- `SendResult::new`; `display` is that of a transaction ID.
unfoldable pub send_result : {TxId : Type 0} → (TxId → String) → List TxId → Bool → SendResult
unfolding only
send_result display txids broadcast =
    let texts = map display txids in
    record { txid = only texts; txids = texts; broadcast = broadcast }

-- The wallet's database and the node: the transaction of an ID, the transparent outputs of a
-- transaction with the addresses recognized in their scripts, the record of an address, and the
-- answer of the node to its `n`th call.
pub record Ledger (TxId Tx KeyPath : Type 0) : Type 0 where
  pub get_transaction : TxId → Result (Option Tx) String
  pub outputs : Tx → List (Option TransparentAddress × ℕ)
  pub address_source :
      TransparentAddress → Result (Option (TransparentAddressSource KeyPath)) String
  pub broadcast_transaction : ℕ → Tx → Result (Unit {0}) String
  pub display : TxId → String
  pub encode : TransparentAddress → String
  pub shown : ℕ → String

module _ {TxId Tx : Type 0} (d : Derivation) (ufvk : Option d.AccountPubKey)
    (w : Ledger TxId Tx d.KeyPath) where
  unfoldable pub verified : TxId → List Payment → Result Tx ErrorObject
  unfolding output_error
  verified txid expected = do
    found ←
        map_err (λ e. with_message database (String.◌++◌ "Failed to get transaction: " e))
          (w.get_transaction txid)
    tx ← ok_or found (
        with_message wallet_error
          (String.◌++◌ "Wallet does not contain transaction " (w.display txid)))
    map_err (output_error w.encode w.shown)
        (check_transparent_outputs d ufvk w.address_source (w.outputs tx) expected)
    ok tx

  -- The loop over the pairs of `zip`.
  unfoldable pub verified_all : List TxId → List (List Payment) → Result (List Tx) ErrorObject
  verified_all [] _ = ok []
  verified_all (txid ∷ txids) [] = ok []
  verified_all (txid ∷ txids) (expected ∷ rest) = do
    tx ← verified txid expected
    txs ← verified_all txids rest
    ok (tx ∷ txs)

  -- The loop that sends: the transactions handed to the node, from its `n`th call.
  unfoldable pub broadcast_all : (n : ℕ) → List Tx → List Tx × Result (Unit {0}) ErrorObject
  broadcast_all n [] = ([], ok tt)
  broadcast_all n (tx ∷ txs) = elim (w.broadcast_transaction n tx) [
    | err e ↦ (
      tx ∷ [],
      err (
          with_message wallet_error
            (String.◌++◌ "SendTransaction: Transaction commit failed:: " e)),
    )
    | ok _ ↦ let (sent, r) = broadcast_all (suc n) txs in (tx ∷ sent, r)
  ]

  -- From the verified transactions on.
  unfoldable pub broadcast_if :
      (broadcast : Bool)
      → List TxId
      → Result (List Tx) ErrorObject
      → List Tx × Result SendResult ErrorObject
  unfolding broadcast_all send_result
  broadcast_if broadcast txids (err e) = ([], err e)
  broadcast_if true txids (ok transactions) =
      let (sent, r) = broadcast_all 0 transactions in
      (sent, (r >>= λ _. ok (send_result w.display txids true)))
  broadcast_if false txids (ok transactions) = ([], ok (send_result w.display txids false))

  unfoldable pub verify_against :
      (broadcast : Bool)
      → List TxId
      → Result (List (List Payment)) ErrorObject
      → List Tx × Result SendResult ErrorObject
  unfolding broadcast_if verified_all
  verify_against broadcast txids (err e) = ([], err e)
  verify_against broadcast txids (ok expected_payments) =
      if length txids == length expected_payments
      then broadcast_if broadcast txids (verified_all txids expected_payments)
      else (
        [],
        err (
            with_message wallet_error
              "Internal error: built transaction count does not match proposal step count."),
      )

  -- `verify_and_broadcast_transactions`, with the setting `external.broadcast`: the transactions that
  -- are handed to the node, and the result.
  unfoldable pub verify_and_broadcast_transactions :
      {ZcashAddress : Type 0}
      → (ZcashAddress → Option Address)
      → (broadcast : Bool) → List (ProposalStep ZcashAddress)
      → List TxId
      → List Tx × Result SendResult ErrorObject
  unfolding verify_against
  verify_and_broadcast_transactions try_from_zcash_address broadcast proposal txids =
      verify_against broadcast txids (proposed_transparent_payments try_from_zcash_address proposal)
