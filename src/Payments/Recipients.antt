-- ===== src/Payments/Recipients.antt =====
-- The loop over the recipients in `propose_and_check` of payments.rs, and the texts of
-- `IncompatiblePrivacyPolicy`.
pub mod Verdict
use Prim.Native.String
use Prim.Native.String.{String}
use wallet.Prelude.{
  ℕ, Bool, true, false, Option, none, some, List, [], ◌∷◌, if◌then◌else◌, Result, ok, err, map_err,
}
use wallet.Rpc.{ErrorObject, with_message, invalid_parameter}
use wallet.Payments.Policy.{
  PrivacyPolicy, is_compatible_with, allow_revealed_amounts, allow_revealed_recipients,
}
use wallet.Payments.Proposal.{
  ShieldedPool, sapling, IncompatiblePrivacyPolicy, no_privacy, linking_account_addresses,
  fully_transparent, transparent_sender, transparent_recipient, transparent_change,
  transparent_receiver, revealing_shielded_amount, revealing_receiver_amounts,
}
use wallet.Payments.Address.{Zatoshis, Address, UnifiedAddress, max_money}

-- The two predicates of the same names.
unfoldable pub allows_amounts : PrivacyPolicy → Bool
unfolding is_compatible_with
allows_amounts policy = is_compatible_with policy allow_revealed_amounts

unfoldable pub allows_recipients : PrivacyPolicy → Bool
unfolding is_compatible_with
allows_recipients policy = is_compatible_with policy allow_revealed_recipients

-- The keys of the translated texts, a recommendation after each but the first; `shown` is the text of
-- a pool.
module _ (shown : ShieldedPool → String) where
  unfoldable pub incompatible_key : IncompatiblePrivacyPolicy → String
  incompatible_key no_privacy = "err-privpol-no-privacy-not-allowed"
  incompatible_key linking_account_addresses = "err-privpol-linking-addrs-not-allowed"
  incompatible_key fully_transparent = "err-privpol-fully-transparent-not-allowed"
  incompatible_key transparent_sender = "err-privpol-transparent-sender-not-allowed"
  incompatible_key transparent_recipient = "err-privpol-transparent-recipient-not-allowed"
  incompatible_key transparent_change = "err-privpol-transparent-change-not-allowed"
  incompatible_key transparent_receiver = "err-privpol-transparent-receiver-not-allowed"
  incompatible_key (revealing_shielded_amount pool) =
      String.◌++◌ "err-privpol-revealing-amount-not-allowed: " (shown pool)
  incompatible_key revealing_receiver_amounts = "err-privpol-revealing-receiver-amounts-not-allowed"

  unfoldable pub incompatible_error : IncompatiblePrivacyPolicy → ErrorObject
  unfolding incompatible_key
  incompatible_error e = with_message invalid_parameter (incompatible_key e)

-- The two running maxima.
pub record Available : Type 0 where
  pub sapling_available : ℕ
  pub orchard_available : ℕ

-- How the loop over the payments ends: `expect` panics on a payment without an amount.
pub data Checked : Type 0 where
  passed : Checked
  refused : ErrorObject → Checked
  panicked : Checked

-- The rest of the loop, unless a payment is refused.
abbrev pub go_on : {A : Type 0} → Result A ErrorObject → (A → Checked) → Checked
go_on (err e) next = refused e
go_on (ok a) next = next a

-- The first arms of the match on a unified address: whether the policy allows revealed amounts, the
-- Orchard receiver with what would be left, and the same for Sapling.
unfoldable pub unified_arm :
    (allows : Bool)
    → (orchard : Bool) → Option ℕ
    → (sapling : Bool) → Option ℕ
    → Available
    → Option Available
unified_arm true true _ _ _ available = some available
unified_arm false true (some rest) _ _ available =
    some (record available { orchard_available = rest })
unified_arm true _ _ true _ available = some available
unified_arm false _ _ true (some rest) available =
    some (record available { sapling_available = rest })
unified_arm _ _ _ _ _ _ = none

-- Its last arm.
unfoldable pub otherwise_reveal :
    PrivacyPolicy → Option Available → Available → Result Available IncompatiblePrivacyPolicy
unfolding allows_recipients allows_amounts
otherwise_reveal policy (some available') available = ok available'
otherwise_reveal policy none available =
    if allows_recipients policy
    then ok available
    else if allows_amounts policy
    then err transparent_receiver
    else err revealing_receiver_amounts

unfoldable pub sapling_arm :
    (allows : Bool) → Option ℕ → Available → Result Available IncompatiblePrivacyPolicy
sapling_arm true _ available = ok available
sapling_arm false none available = err (revealing_shielded_amount sapling)
sapling_arm false (some rest) available = ok (record available { sapling_available = rest })

unfoldable pub transparent_arm :
    PrivacyPolicy → Available → Result Available IncompatiblePrivacyPolicy
unfolding allows_recipients
transparent_arm policy available =
    if allows_recipients policy then ok available else err transparent_recipient

module _ (z : Zatoshis) (policy : PrivacyPolicy) where
  -- The match on the address of a payment.
  unfoldable pub check_address :
      Address → (value : ℕ) → Available → Result Available IncompatiblePrivacyPolicy
  unfolding transparent_arm sapling_arm unified_arm otherwise_reveal
  check_address (Address.transparent _) value available = transparent_arm policy available
  check_address (Address.tex _) value available = transparent_arm policy available
  check_address (Address.sapling _) value available =
      sapling_arm (allows_amounts policy) (z.sub available.sapling_available value) available
  check_address (Address.unified ua) value available =
      otherwise_reveal policy
        (unified_arm (allows_amounts policy) ua.orchard_type
          (z.sub available.orchard_available value) ua.sapling_type
          (z.sub available.sapling_available value) available)
        available

  module _ (shown : ShieldedPool → String) {ZcashAddress : Type 0}
      (try_from_zcash_address : ZcashAddress → Result Address String) where
    unfoldable pub check_recipient :
        Result Address String → (value : ℕ) → Available → Result Available ErrorObject
    check_recipient (err e) value available = err (with_message invalid_parameter e)
    check_recipient (ok address) value available =
        map_err (incompatible_error shown) (check_address address value available)

    -- The loop over the recipients and amounts of the payments.
    unfoldable pub check_recipients : List (ZcashAddress × Option ℕ) → Available → Checked
    check_recipients [] available = passed
    check_recipients ((address, none) ∷ payments) available = panicked
    check_recipients ((address, some value) ∷ payments) available =
        go_on (check_recipient (try_from_zcash_address address) value available)
          (check_recipients payments)

abbrev pub all_available : Available
all_available = record { sapling_available = max_money; orchard_available = max_money }
