-- ===== src/Payments/Shield.antt =====
-- json_rpc/methods/z_shieldcoinbase.rs: `z_shieldcoinbase` up to the start of its operation.
pub mod Sums
pub mod Asks
use Prim.Native.String
use Prim.Native.String.{String}
use text.Mathlib.Text.{◌==◌ as str_eq}
use wallet.Prelude.{
  ℕ, ◌+◌, ◌-◌, ◌^◌, min, leb, length, map, Bool, true, false, Option, none, some, List, [], ◌∷◌,
  if◌then◌else◌, Result, ok, err, ◌>>=◌, ◌>>◌, ok_or, map_err,
}
use wallet.Rpc.Amount.{Text}
use wallet.Rpc.{
  ErrorObject, with_message, database, wallet_error, invalid_parameter, invalid_address_or_key,
}
use wallet.Payments.Policy.{PrivacyPolicy, allow_revealed_senders, allow_linking_account_addresses}
use wallet.Payments.Proposal.{Step, ShieldedPool}
use wallet.Payments.Address.{Zatoshis, Address, TransparentAddress}
use wallet.Payments.Request.{Zip321, memo_of}
use wallet.Payments.Propose.{check_proposal}
use wallet.Payments.Accounts.{Accounts}
use wallet.Payments.SendMany.{Keys, spending_key}

-- The arguments of a call; `has_fee` says whether `fee` is a value other than null.
pub record Arguments : Type 0 where
  pub fromaddress : String
  pub toaddress : Text
  pub has_fee : Bool
  pub limit : Option ℕ
  pub memo : Option Text
  pub privacy_policy : Option String

pub data FromAddressInput : Type 0 where
  account_uuid : ℕ → FromAddressInput
  transparent_address : TransparentAddress → FromAddressInput

-- A step of the proposal, with the values of its transparent inputs.
pub record ShieldingStep : Type 0 where
  pub step : Step TransparentAddress
  pub input_values : List ℕ

pub record Proposal : Type 0 where
  pub steps : List ShieldingStep
  pub min_target_height : ℕ

-- What the libraries answer: UUIDs and addresses read from text, the transparent receivers of an
-- account, the values of the coinbase outputs of an address that can be spent at a height, and the
-- proposal for a recipient and a memo.
pub record Shielding (AccountId ZcashAddress Memo : Type 0) : Type 0 where
  pub parse_str : String → Option ℕ
  pub decode : String → Option Address
  pub from_uuid : ℕ → AccountId
  pub get_transparent_receivers : AccountId → Result (List TransparentAddress) String
  pub get_spendable_transparent_outputs :
      TransparentAddress → (target_height : ℕ) → Result (List ℕ) String
  pub propose_shielding_coinbase :
      List TransparentAddress
      → ZcashAddress
      → Option Memo
      → (limit : Option ℕ) → Result Proposal String
  pub shown : ShieldedPool → String

pub record Preflight : Type 0 where
  pub remaining_utxos : ℕ
  pub remaining_value : ℕ
  pub shielding_utxos : ℕ
  pub shielding_value : ℕ

-- An operation that was started.
pub record Started (Account SpendingKey : Type 0) : Type 0 where
  pub preflight : Preflight
  pub account : Account
  pub usk : SpendingKey
  pub proposal : Proposal

-- `saturating_add` of `u64`.
unfoldable pub saturating_add : ℕ → ℕ → ℕ
saturating_add a b = min (a + b) (2 ^ 64 - 1)

-- One by one, as the inner loop counts.
unfoldable pub count_each : ℕ → List ℕ → ℕ
unfolding saturating_add
count_each count [] = count
count_each count (_ ∷ values) = count_each (saturating_add count 1) values

unfoldable pub checked_sub : ℕ → ℕ → Option ℕ
checked_sub a b = if leb b a then some (a - b) else none

unfoldable pub parse_privacy_policy :
    Option String → FromAddressInput → Result PrivacyPolicy ErrorObject
parse_privacy_policy none (transparent_address _) = ok allow_revealed_senders
parse_privacy_policy none (account_uuid _) = ok allow_linking_account_addresses
parse_privacy_policy (some s) _ =
    if str_eq s "AllowRevealedSenders"
    then ok allow_revealed_senders
    else if str_eq s "AllowLinkingAccountAddresses"
    then ok allow_linking_account_addresses
    else err (with_message invalid_parameter "Invalid privacy_policy for z_shieldcoinbase")

unfoldable pub check_fee : Bool → Result (Unit {0}) ErrorObject
check_fee true = err (
    with_message invalid_parameter
      "Zallet always calculates fees internally; the fee field must be null.")
check_fee false = ok tt

unfoldable pub check_from : List TransparentAddress → Result (Unit {0}) ErrorObject
check_from [] =
    err (
      with_message invalid_parameter "No source transparent addresses resolved from `fromaddress`.")
check_from (_ ∷ _) = ok tt

module _ (z : Zatoshis) where
  -- The inner loops of the two sums, over the values of some outputs.
  unfoldable pub add_values : (overflow : String) → ℕ → List ℕ → Result ℕ ErrorObject
  add_values overflow sum [] = ok sum
  add_values overflow sum (value ∷ values) =
      ok_or (z.add sum value) (with_message wallet_error overflow) >>= λ sum'.
      add_values overflow sum' values

  unfoldable pub sum_selected_inputs : ℕ × ℕ → List ShieldingStep → Result (ℕ × ℕ) ErrorObject
  unfolding add_values count_each
  sum_selected_inputs sums [] = ok sums
  sum_selected_inputs (count, sum) (step ∷ steps) =
      add_values "Internal error: shielding value sum overflowed Zatoshis bounds." sum
        step.input_values
      >>= λ sum'. sum_selected_inputs (count_each count step.input_values, sum') steps

  module _ {AccountId Account Seed SpendingKey : Type 0} (p : Zip321)
      (w : Accounts AccountId Account) (k : Keys Seed SpendingKey)
      (l : Shielding AccountId p.ZcashAddress p.Memo) (actions_limit : ℕ) where
    unfoldable pub enumerate_eligible :
        (target_height : ℕ) → ℕ × ℕ → List TransparentAddress → Result (ℕ × ℕ) ErrorObject
    unfolding add_values saturating_add
    enumerate_eligible target_height sums [] = ok sums
    enumerate_eligible target_height (total_utxos, total_value) (addr ∷ addrs) = do
      utxos ←
          map_err (with_message database) (l.get_spendable_transparent_outputs addr target_height)
      total_value' ←
          add_values "Internal error: total transparent value overflowed Zatoshis bounds."
            total_value utxos
      enumerate_eligible target_height (saturating_add total_utxos (length utxos), total_value')
          addrs

    unfoldable pub from_decoded : Option Address → Result FromAddressInput ErrorObject
    from_decoded (some (Address.transparent addr)) = ok (transparent_address addr)
    from_decoded (some _) = err (
        with_message invalid_address_or_key
          "Invalid `fromaddress`: only transparent addresses are accepted")
    from_decoded none = err (
        with_message invalid_parameter
          "Invalid `fromaddress`: expected a wallet-owned transparent address or an account UUID")

    unfoldable pub parse_fromaddress : String → Result FromAddressInput ErrorObject
    unfolding from_decoded
    parse_fromaddress fromaddress =
        if str_eq fromaddress "*"
        then err (
            with_message invalid_parameter
              "Invalid `fromaddress`: the `\"*\"` wildcard is not supported")
        else elim (l.parse_str fromaddress) [
          | some uuid ↦ ok (account_uuid uuid)
          | none ↦ from_decoded (l.decode fromaddress)
        ]

    unfoldable pub resolve_fromaddress_input :
        FromAddressInput → Result (AccountId × List TransparentAddress) ErrorObject
    resolve_fromaddress_input (account_uuid uuid) = do
      found ← map_err (with_message database) (w.get_account (l.from_uuid uuid))
      _ ← ok_or found (with_message invalid_parameter "Unknown account UUID")
      from_addrs ← map_err (with_message database) (l.get_transparent_receivers (l.from_uuid uuid))
      ok (l.from_uuid uuid, from_addrs)
    resolve_fromaddress_input (transparent_address addr) = do
      found ←
          map_err (with_message database) (w.find_account_for_address (Address.transparent addr))
      owner ← ok_or found (
          with_message invalid_address_or_key
            "Transparent address is not owned by any account in this wallet")
      ok (owner, addr ∷ [])

    unfoldable pub fetched : AccountId → Result Account ErrorObject
    fetched account_id = do
      found ← map_err (with_message database) (w.get_account account_id)
      ok_or found (with_message database "Account vanished mid-call")

    unfoldable pub proposed :
        PrivacyPolicy
        → List TransparentAddress
        → p.ZcashAddress
        → Option p.Memo
        → Option ℕ
        → Result Proposal ErrorObject
    proposed privacy_policy from_addrs to memo limit = do
      proposal ←
          map_err
            (λ e.
              with_message wallet_error (String.◌++◌ "Failed to propose shielding transaction: " e))
            (l.propose_shielding_coinbase from_addrs to memo limit)
      _ ← check_proposal l.shown actions_limit privacy_policy (map (λ s. s.step) proposal.steps)
      ok proposal

    -- The numbers of the answer.
    unfoldable pub preflight_of : List TransparentAddress → Proposal → Result Preflight ErrorObject
    unfolding sum_selected_inputs enumerate_eligible checked_sub
    preflight_of from_addrs proposal = do
      shielding ← sum_selected_inputs (0, 0) proposal.steps
      total ← enumerate_eligible proposal.min_target_height (0, 0) from_addrs
      remaining_utxos ← ok_or (checked_sub total.0 shielding.0) (
          with_message wallet_error
            "Internal accounting error: proposal selected more UTXOs than enumeration found (likely a chain race during shielding setup).")
      remaining_value ← ok_or (z.sub total.1 shielding.1) (
          with_message wallet_error
            "Internal accounting error: proposal value exceeds enumerated total (likely a chain race during shielding setup).")
      ok (record {
        remaining_utxos = remaining_utxos;
        remaining_value = remaining_value;
        shielding_utxos = shielding.0;
        shielding_value = shielding.1;
      })

    unfoldable pub derivation_of : Account → Result (ℕ × ℕ) ErrorObject
    derivation_of account =
        ok_or (w.key_derivation account)
          (with_message invalid_address_or_key "No payment source found for account")

    -- From the resolved source on, up to the keystore.
    unfoldable pub prepared_from :
        Arguments
        → PrivacyPolicy
        → p.ZcashAddress
        → Option p.Memo
        → AccountId × List TransparentAddress
        → Result (Account × Proposal × Preflight × ℕ × ℕ) ErrorObject
    unfolding check_from fetched proposed preflight_of derivation_of
    prepared_from args privacy_policy to memo (account_id, from_addrs) = do
      _ ← check_from from_addrs
      account ← fetched account_id
      proposal ← proposed privacy_policy from_addrs to memo args.limit
      preflight ← preflight_of from_addrs proposal
      derivation ← derivation_of account
      ok (account, proposal, preflight, derivation.0, derivation.1)

    -- All that comes before the keystore is asked.
    unfoldable pub prepared :
        Arguments → Result (Account × Proposal × Preflight × ℕ × ℕ) ErrorObject
    unfolding check_fee prepared_from parse_fromaddress resolve_fromaddress_input
    prepared args = do
      _ ← check_fee args.has_fee
      to ←
          ok_or (p.parse args.toaddress)
            (with_message invalid_parameter "Invalid parameter, unknown address format: ")
      memo ← memo_of z p args.memo
      from_input ← parse_fromaddress args.fromaddress
      privacy_policy ← parse_privacy_policy args.privacy_policy from_input
      source ← resolve_fromaddress_input from_input
      prepared_from args privacy_policy to memo source

    -- The fingerprint that the keystore is asked for, and the operation.
    unfoldable pub started :
        Result (Account × Proposal × Preflight × ℕ × ℕ) ErrorObject
        → Option ℕ × Result (Started Account SpendingKey) ErrorObject
    started (err e) = (none, err e)
    started (ok (account, proposal, preflight, fp, index)) = (
      some fp,
      (spending_key k fp index >>= λ usk.
          ok (record { preflight = preflight; account = account; usk = usk; proposal = proposal })),
    )

    unfoldable pub call : Arguments → Option ℕ × Result (Started Account SpendingKey) ErrorObject
    unfolding prepared started
    call args = started (prepared args)
