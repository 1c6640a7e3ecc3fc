-- ===== src/Payments/Source.antt =====
-- json_rpc/fund_source.rs, and `spend_policy_for`, `transparent_change_policy_for`,
-- `confirmations_policy_for_minconf` and `parse_privacy_policy` of payments.rs: what a send may spend.
pub mod Canonical
use Prim.Native.String
use Prim.Native.String.{String}
use text.Mathlib.Text.{◌==◌ as str_eq}
use wallet.Prelude.{
  ℕ, zero, suc, ltb, Bool, true, false, Option, none, some, List, [], ◌∷◌, ◌++◌, if◌then◌else◌,
  Result, ok, err, ◌>>=◌, ok_or,
}
use wallet.Rpc.{ErrorObject, with_message, invalid_parameter, wallet_error}
use wallet.Payments.Policy.{PrivacyPolicy, full_privacy, from_str}
use wallet.Payments.Proposal.{ShieldedPool}
use wallet.Payments.Address.{
  TransparentAddress, public_key_hash, script_hash, same_address, Address,
}

-- `TransparentSpendPolicy` and `SpendPolicy` of zcash_client_backend, by their constructors. Coinbase
-- outputs are excluded in each of them.
pub data TransparentSpendPolicy : Type 0 where
  any_account_addr : TransparentSpendPolicy
  from_one_address : TransparentAddress → TransparentSpendPolicy
  from_addresses : (first : TransparentAddress) → List TransparentAddress → TransparentSpendPolicy

pub record SpendPolicy : Type 0 where
  pub shielded_pools : List ShieldedPool
  pub transparent : Option TransparentSpendPolicy

abbrev pub shielded_only : List ShieldedPool → SpendPolicy
shielded_only pools = record { shielded_pools = pools; transparent = none }

abbrev pub transparent_only : TransparentSpendPolicy → SpendPolicy
transparent_only policy = record { shielded_pools = []; transparent = some policy }

abbrev pub orchard_receiver_pools : List ShieldedPool
orchard_receiver_pools = ShieldedPool.orchard ∷ ShieldedPool.ironwood ∷ []

-- `then_some(…).into_iter()`.
abbrev pub pools_if : Bool → List ShieldedPool → List ShieldedPool
pools_if b pools = if b then pools else []

unfoldable pub spend_policy_for : Address → SpendPolicy
spend_policy_for (Address.transparent taddr) = transparent_only (from_one_address taddr)
spend_policy_for (Address.sapling _) = shielded_only (ShieldedPool.sapling ∷ [])
spend_policy_for (Address.unified ua) =
    shielded_only (
      pools_if ua.sapling (ShieldedPool.sapling ∷ []) ++ pools_if ua.orchard orchard_receiver_pools)
spend_policy_for (Address.tex _) = shielded_only []

-- Of z_send_many.rs.
unfoldable pub legacy_pool_spend_policy : SpendPolicy
legacy_pool_spend_policy = transparent_only any_account_addr

pub data TransparentChangePolicy : Type 0 where
  transparent_change_allowed shield_change : TransparentChangePolicy

-- From the policy's `transparent()`.
unfoldable pub change_policy : Option TransparentSpendPolicy → TransparentChangePolicy
change_policy (some _) = transparent_change_allowed
change_policy none = shield_change

unfoldable pub transparent_change_policy_for : SpendPolicy → TransparentChangePolicy
unfolding change_policy
transparent_change_policy_for spend_policy = change_policy spend_policy.transparent

-- `ConfirmationsPolicy::new_symmetrical(min, allow_zero_conf)`.
pub record ConfirmationsPolicy : Type 0 where
  pub confirmations : ℕ
  pub allow_zero_conf_shielding : Bool

-- `configured` is the policy of the configuration, if that is valid.
unfoldable pub confirmations_policy_for_minconf :
    (configured : Option ConfirmationsPolicy) → Option ℕ → Result ConfirmationsPolicy ErrorObject
confirmations_policy_for_minconf configured (some zero) =
    ok (record { confirmations = 1; allow_zero_conf_shielding = true })
confirmations_policy_for_minconf configured (some (suc c)) =
    ok (record { confirmations = suc c; allow_zero_conf_shielding = false })
confirmations_policy_for_minconf configured none =
    ok_or configured (with_message wallet_error "err-confirmations-policy-invalid")

unfoldable pub parse_privacy_policy : Option String → Result PrivacyPolicy ErrorObject
unfolding from_str
parse_privacy_policy none = ok full_privacy
parse_privacy_policy (some s) =
    if str_eq s "LegacyCompat"
    then err (with_message invalid_parameter "err-privacy-policy-legacy-compat")
    else ok_or (from_str s)
        (with_message invalid_parameter (String.◌++◌ "err-privacy-policy-unknown: " s))

pub data FundSource : Type 0 where
  orchard ironwood sapling any_transparent : FundSource
  transparent : (first : TransparentAddress) → List TransparentAddress → FundSource

-- A JSON argument: a string, an array, of which each entry is a string or not, or anything else.
pub data JsonSource : Type 0 where
  string : String → JsonSource
  array : List (Option String) → JsonSource
  else_source : JsonSource

-- The derived order of `TransparentAddress`.
unfoldable pub address_lt : TransparentAddress → TransparentAddress → Bool
address_lt (public_key_hash a) (public_key_hash b) = ltb a b
address_lt (public_key_hash a) (script_hash b) = true
address_lt (script_hash a) (public_key_hash b) = false
address_lt (script_hash a) (script_hash b) = ltb a b

-- `BTreeSet::insert`, over the ascending list of the elements.
unfoldable pub set_insert : TransparentAddress → List TransparentAddress → List TransparentAddress
unfolding address_lt same_address
set_insert a [] = a ∷ []
set_insert a (b ∷ bs) =
    if address_lt a b then a ∷ b ∷ bs else if same_address a b then b ∷ bs else b ∷ set_insert a bs

-- `decode` is `Address::decode` for the network.
module _ (decode : String → Option Address) where
  unfoldable pub transparent_entry : String → Option Address → Result TransparentAddress ErrorObject
  transparent_entry s (some (Address.transparent ta)) = ok ta
  transparent_entry s _ =
      err (with_message invalid_parameter (String.◌++◌ "err-fund-source-not-transparent: " s))

  unfoldable pub parse_entry : Option String → Result TransparentAddress ErrorObject
  unfolding transparent_entry
  parse_entry none = err (with_message invalid_parameter "err-fund-source-non-string-entry")
  parse_entry (some s) = transparent_entry s (decode s)

  -- The loop over the entries, with the set.
  unfoldable pub collect_addresses :
      List (Option String) → List TransparentAddress → Result (List TransparentAddress) ErrorObject
  unfolding parse_entry set_insert
  collect_addresses [] set = ok set
  collect_addresses (entry ∷ entries) set =
      parse_entry entry >>= λ ta. collect_addresses entries (set_insert ta set)

  unfoldable pub source_of : List TransparentAddress → Result FundSource ErrorObject
  source_of [] = err (with_message invalid_parameter "err-fund-source-empty-array")
  source_of (first ∷ rest) = ok (transparent first rest)

  unfoldable pub parse : JsonSource → Result FundSource ErrorObject
  unfolding collect_addresses source_of
  parse (string s) =
      if str_eq s "orchard"
      then ok orchard
      else if str_eq s "ironwood"
      then ok ironwood
      else if str_eq s "sapling"
      then ok sapling
      else if str_eq s "any_transparent"
      then ok any_transparent
      else err (with_message invalid_parameter (String.◌++◌ "err-fund-source-unknown: " s))
  parse (array addrs) = collect_addresses addrs [] >>= source_of
  parse else_source = err (with_message invalid_parameter "err-fund-source-not-a-source")

-- `FundSource::spend_policy`.
unfoldable pub spend_policy : FundSource → SpendPolicy
spend_policy orchard = shielded_only orchard_receiver_pools
spend_policy ironwood = shielded_only (ShieldedPool.ironwood ∷ [])
spend_policy sapling = shielded_only (ShieldedPool.sapling ∷ [])
spend_policy any_transparent = transparent_only any_account_addr
spend_policy (transparent first rest) = transparent_only (from_addresses first rest)
