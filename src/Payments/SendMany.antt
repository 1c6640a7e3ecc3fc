-- ===== src/Payments/SendMany.antt =====
-- json_rpc/methods/z_send_many.rs: `z_sendmany` up to the start of its operation.
pub mod Asks
pub mod Legacy
use Prim.Native.String
use Prim.Native.String.{String}
use text.Mathlib.Text.{◌==◌ as str_eq}
use wallet.Prelude.{
  ℕ, ltb, length, Bool, ◌&&◌, true, false, Option, none, some, List, [], ◌∷◌, if◌then◌else◌, Result,
  ok, err, ok_or, map_err,
}
use wallet.Rpc.{
  ErrorObject, with_message, misc, database, invalid_parameter, invalid_address_or_key,
  wallet_unlock_needed,
}
use wallet.Payments.Policy.{PrivacyPolicy}
use wallet.Payments.Proposal.{Step}
use wallet.Payments.Address.{Zatoshis, Address, TransparentAddress}
use wallet.Payments.Request.{AmountParameter, Zip321, build_request}
use wallet.Payments.Source.{
  SpendPolicy, spend_policy_for, legacy_pool_spend_policy, ConfirmationsPolicy,
  confirmations_policy_for_minconf, parse_privacy_policy,
}
use wallet.Payments.Propose.{Proposing, done, panics, Proposer, propose_and_check}
use wallet.Payments.Accounts.{Accounts, get_account_for_address, get_legacy_pool_account}

-- `?`, with panics passed on.
infixl 5 ◌>>=◌
abbrev pub ◌>>=◌ : {A B : Type 0} → Proposing A → (A → Proposing B) → Proposing B
panics >>= next = panics
done (err e) >>= next = done (err e)
done (ok a) >>= next = next a

-- The arguments of a call; `has_fee` says whether `fee` was given.
pub record Arguments : Type 0 where
  pub fromaddress : String
  pub amounts : List AmountParameter
  pub minconf : Option ℕ
  pub has_fee : Bool
  pub privacy_policy : Option String

-- The settings that the method reads.
pub record Settings : Type 0 where
  pub orchard_actions : ℕ
  pub confirmations : Option ConfirmationsPolicy
  pub legacy_pool_seed_fingerprint : Option ℕ

-- An error of the keystore: whether its kind is `ErrorKind::Generic`, and its text.
pub record KeystoreFailure : Type 0 where
  pub is_generic : Bool
  pub text : String

-- The keystore's answer to the fingerprint of a seed, and the keys of a seed's account.
pub record Keys (Seed SpendingKey : Type 0) : Type 0 where
  pub decrypt_seed : ℕ → Result Seed KeystoreFailure
  pub from_seed : Seed → (account_index : ℕ) → Result SpendingKey String

-- The mapping of the keystore's error, which tells a locked wallet by its kind and its text.
unfoldable pub seed_error : KeystoreFailure → ErrorObject
seed_error e =
    if e.is_generic && str_eq e.text "Wallet is locked"
    then with_message wallet_unlock_needed e.text
    else with_message database e.text

module _ {Seed SpendingKey : Type 0} (k : Keys Seed SpendingKey) where
  unfoldable pub spending_key : (fp index : ℕ) → Result SpendingKey ErrorObject
  unfolding seed_error
  spending_key fp index = elim (k.decrypt_seed fp) [
    | err e ↦ err (seed_error e)
    | ok seed ↦ map_err (with_message invalid_address_or_key) (k.from_seed seed index)
  ]

-- An operation that was started: the account, the key and the proposal that it runs with.
pub record Started (Account SpendingKey : Type 0) : Type 0 where
  pub account : Account
  pub usk : SpendingKey
  pub proposal : List (Step TransparentAddress)

module _ {AccountId Account Seed SpendingKey : Type 0} (z : Zatoshis) (p : Zip321)
    (w : Accounts AccountId Account) (k : Keys Seed SpendingKey) (s : Settings)
    (decode : String → Option Address)
    (proposer : Account → ConfirmationsPolicy → Proposer p.ZcashAddress p.TransactionRequest) where
  unfoldable pub source_of : Option Address → Proposing (Account × SpendPolicy)
  source_of none = done (
      err (
        with_message invalid_address_or_key
          "Invalid from address: should be a taddr, zaddr, UA, or the string 'ANY_TADDR'."))
  source_of (some address) =
      get_account_for_address w address >>= λ account. done (ok (account, spend_policy_for address))

  -- The match on `fromaddress`.
  unfoldable pub source : String → Proposing (Account × SpendPolicy)
  unfolding source_of
  source fromaddress =
      if str_eq fromaddress "ANY_TADDR"
      then (done (get_legacy_pool_account w s.legacy_pool_seed_fingerprint) >>= λ account.
          done (ok (account, legacy_pool_spend_policy)))
      else source_of (decode fromaddress)

  unfoldable pub check_fee : Bool → Result (Unit {0}) ErrorObject
  check_fee true = err (
      with_message invalid_parameter
        "Zallet always calculates fees internally; the fee field must be null.")
  check_fee false = ok tt

  unfoldable pub check_count : ℕ → Result (Unit {0}) ErrorObject
  check_count count =
      if ltb s.orchard_actions count then err (with_message misc "err-excess-recipients") else ok tt

  unfoldable pub derivation_of : Account → Result (ℕ × ℕ) ErrorObject
  derivation_of account =
      ok_or (w.key_derivation account)
        (with_message invalid_address_or_key "err-from-address-no-payment-source")

  unfoldable pub with_derivation :
      Account
      → List (Step TransparentAddress)
      → Proposing (Account × List (Step TransparentAddress) × ℕ × ℕ)
  unfolding derivation_of
  with_derivation account proposal = done (derivation_of account) >>= λ derivation.
      done (ok (account, proposal, derivation.0, derivation.1))

  -- From the account to its derivation: the policies and the proposal.
  unfoldable pub proposed :
      Arguments
      → p.TransactionRequest
      → Account × SpendPolicy
      → Proposing (Account × List (Step TransparentAddress) × ℕ × ℕ)
  unfolding check_count with_derivation
  proposed args request (account, spend_policy) = do
    privacy_policy ← done (parse_privacy_policy args.privacy_policy)
    _ ← done (check_count (length args.amounts))
    confirmations_policy ← done (confirmations_policy_for_minconf s.confirmations args.minconf)
    proposal ←
        propose_and_check z (proposer account confirmations_policy) s.orchard_actions request
          privacy_policy spend_policy
    with_derivation account proposal

  -- All that comes before the keystore is asked.
  unfoldable pub prepared : Arguments → Proposing (Account × List (Step TransparentAddress) × ℕ × ℕ)
  unfolding check_fee source proposed
  prepared args = do
    _ ← done (check_fee args.has_fee)
    request ← done (build_request z p args.amounts)
    from ← source args.fromaddress
    proposed args request from

  -- The fingerprint that the keystore is asked for, and the operation.
  unfoldable pub started :
      Proposing (Account × List (Step TransparentAddress) × ℕ × ℕ)
      → Option ℕ × Proposing (Started Account SpendingKey)
  unfolding spending_key
  started panics = (none, panics)
  started (done (err e)) = (none, done (err e))
  started (done (ok (account, proposal, fp, index))) = (
    some fp,
    done (spending_key k fp index) >>= λ usk.
        done (ok (record { account = account; usk = usk; proposal = proposal })),
  )

  unfoldable pub call : Arguments → Option ℕ × Proposing (Started Account SpendingKey)
  unfolding prepared started
  call args = started (prepared args)
