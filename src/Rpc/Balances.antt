-- ===== src/Rpc/Balances.antt =====
-- json_rpc/methods/get_balances.rs, z_get_total_balance.rs and z_get_balance_for_account.rs.
pub mod Capped
pub mod Reported
pub mod Sums
mod Tests
use Prim.Native.String.{String}
use wallet.Prelude.{
  ℕ, zero, suc, ◌==◌, ◌&&◌, Bool, true, false, Option, none, some, List, [], ◌∷◌, if◌then◌else◌,
  Result, ok, err, ◌>>=◌, ◌>>◌, ok_or, map_err,
}
use wallet.Rpc.{
  ErrorObject, with_message, database, in_warmup, wallet_error, misc, invalid_parameter,
}
use wallet.Payments.Address.{Zatoshis}
use wallet.Payments.Source.{ConfirmationsPolicy}

-- The answers of a pool's balance of zcash_client_backend.
pub record Bucket : Type 0 where
  pub spendable_value : ℕ
  pub change_pending_confirmation : ℕ
  pub value_pending_spendability : ℕ
  pub uneconomic_value : ℕ
  pub total : ℕ

-- The answers of an account's balance: of its pools, and of its own methods.
pub record AccountBalance : Type 0 where
  pub sapling : Bucket
  pub orchard : Bucket
  pub ironwood : Bucket
  pub regular : Bucket
  pub coinbase : Bucket
  pub unshielded : Bucket
  pub spendable_value : ℕ
  pub change_pending_confirmation : ℕ
  pub value_pending_spendability : ℕ
  pub uneconomic_value : ℕ

pub record Balance : Type 0 where
  pub spendable : ℕ
  pub pending : Option ℕ
  pub dust : Option ℕ

pub record TransparentBalance : Type 0 where
  pub regular : Option Balance
  pub coinbase : Option Balance

-- The balances of an account; those of watch-only addresses are always left out.
pub record Report : Type 0 where
  pub account_uuid : String
  pub transparent : Option TransparentBalance
  pub sapling : Option Balance
  pub orchard : Option Balance
  pub ironwood : Option Balance
  pub total : Balance

unfoldable pub opt_value : ℕ → Option ℕ
opt_value value = if value == 0 then none else some value

unfoldable pub balance : (spendable pending dust : ℕ) → Balance
unfolding opt_value
balance spendable pending dust = record {
  spendable = spendable;
  pending = opt_value pending;
  dust = opt_value dust;
}

unfoldable pub opt_balance : (spendable pending dust : ℕ) → Option Balance
unfolding opt_value
opt_balance spendable pending dust =
    if spendable == 0 && pending == 0 && dust == 0
    then none
    else some (record { spendable = spendable; pending = opt_value pending; dust = opt_value dust })

unfoldable pub corrupt : ErrorObject
corrupt = with_message database "Wallet database is corrupt: storing more than MAX_MONEY"

-- The closure of `opt_transparent_balance`.
unfoldable pub is_empty : Bucket → Bool
is_empty b = b.total == 0 && b.uneconomic_value == 0

-- `minconf` of `z_getbalances` and `z_gettotalbalance`.
unfoldable pub policy_of : Option ℕ → ConfirmationsPolicy
policy_of none = record { confirmations = 1; allow_zero_conf_shielding = false }
policy_of (some zero) = record { confirmations = 1; allow_zero_conf_shielding = true }
policy_of (some (suc c)) = record { confirmations = suc c; allow_zero_conf_shielding = false }

module _ (z : Zatoshis) where
  -- The sum of an amount that may be missing with another.
  unfoldable pub add_to : Option ℕ → ℕ → Option ℕ
  add_to none v = none
  add_to (some a) v = z.add a v

  unfoldable pub opt_balance_from : Bucket → Result (Option Balance) ErrorObject
  unfolding opt_balance
  opt_balance_from b =
      ok_or (z.add b.change_pending_confirmation b.value_pending_spendability) corrupt
      >>= λ pending. ok (opt_balance b.spendable_value pending b.uneconomic_value)

  unfoldable pub opt_transparent_balance :
      Bucket → Bucket → Result (Option TransparentBalance) ErrorObject
  unfolding is_empty opt_balance_from
  opt_transparent_balance regular coinbase =
      if is_empty regular && is_empty coinbase
      then ok none
      else (opt_balance_from regular >>= λ r.
          opt_balance_from coinbase >>= λ c. ok (some (record { regular = r; coinbase = c })))

  unfoldable pub total_spendable : AccountBalance → Option ℕ
  unfolding add_to
  total_spendable b =
      add_to (z.add b.spendable_value b.regular.spendable_value) b.coinbase.spendable_value

  unfoldable pub total_pending : AccountBalance → Option ℕ
  unfolding add_to
  total_pending b =
      add_to
        (add_to
          (add_to
            (add_to (z.add b.change_pending_confirmation b.value_pending_spendability)
              b.regular.change_pending_confirmation)
            b.regular.value_pending_spendability)
          b.coinbase.change_pending_confirmation)
        b.coinbase.value_pending_spendability

  unfoldable pub balance_from : AccountBalance → Result Balance ErrorObject
  unfolding balance total_spendable total_pending
  balance_from b = ok_or (total_spendable b) corrupt >>= λ spendable.
      ok_or (total_pending b) corrupt >>= λ pending.
      ok (balance spendable pending b.uneconomic_value)

  unfoldable pub account_balance_response : String → AccountBalance → Result Report ErrorObject
  unfolding opt_transparent_balance balance_from
  account_balance_response account_uuid account =
      opt_transparent_balance account.regular account.coinbase >>= λ transparent.
      opt_balance_from account.sapling >>= λ sapling.
      opt_balance_from account.orchard >>= λ orchard.
      opt_balance_from account.ironwood >>= λ ironwood. balance_from account >>= λ total.
      ok (record {
        account_uuid = account_uuid;
        transparent = transparent;
        sapling = sapling;
        orchard = orchard;
        ironwood = ironwood;
        total = total;
      })

  unfoldable pub responses : List (String × AccountBalance) → Result (List Report) ErrorObject
  unfolding account_balance_response
  responses [] = ok []
  responses ((uuid, account) ∷ rest) = account_balance_response uuid account >>= λ report.
      responses rest >>= λ reports. ok (report ∷ reports)

  -- From the summary that the wallet's database answers, if it has one.
  unfoldable pub balances_of :
      Result (Option (List (String × AccountBalance))) String → Result (List Report) ErrorObject
  unfolding responses
  balances_of (err e) = err (with_message database e)
  balances_of (ok none) = err (with_message in_warmup "Wallet sync required")
  balances_of (ok (some accounts)) = responses accounts

  -- `z_getbalances`.
  unfoldable pub get_balances :
      (ConfirmationsPolicy → Result (Option (List (String × AccountBalance))) String)
      → (minconf : Option ℕ) → Result (List Report) ErrorObject
  unfolding balances_of policy_of
  get_balances get_wallet_summary minconf = balances_of (get_wallet_summary (policy_of minconf))

  -- The sums of `total_balance`, from those so far.
  unfoldable pub fold_totals : Option ℕ × Option ℕ → List AccountBalance → Option ℕ × Option ℕ
  unfolding add_to
  fold_totals sums [] = sums
  fold_totals (transparent, private) (b ∷ bs) =
      fold_totals
        (
          add_to transparent b.unshielded.total,
          add_to (add_to (add_to private b.sapling.total) b.orchard.total) b.ironwood.total,
        )
        bs

  unfoldable pub total_of : Option ℕ × Option ℕ → Option (ℕ × ℕ × ℕ)
  total_of (some transparent, some private) = elim (z.add transparent private) [
    | none ↦ none
    | some total ↦ some (transparent, private, total)
  ]
  total_of _ = none

  -- `total_balance`, as amounts: transparent, private and total.
  unfoldable pub total_balance : List AccountBalance → Result (ℕ × ℕ × ℕ) ErrorObject
  unfolding fold_totals total_of
  total_balance balances =
      ok_or (total_of (fold_totals (some 0, some 0) balances))
        (with_message wallet_error "balance overflow")

  unfoldable pub require_watchonly : Option Bool → Result (Unit {0}) ErrorObject
  require_watchonly (some true) = ok tt
  require_watchonly _ =
      err (with_message misc "include_watchonly argument must be set to true (for now)")

  unfoldable pub total_of_summary :
      Result (Option (List AccountBalance)) String → Result (ℕ × ℕ × ℕ) ErrorObject
  unfolding total_balance
  total_of_summary (err e) = err (with_message database e)
  total_of_summary (ok none) = total_balance []
  total_of_summary (ok (some balances)) = total_balance balances

  -- `z_gettotalbalance`.
  unfoldable pub get_total_balance :
      (ConfirmationsPolicy → Result (Option (List AccountBalance)) String)
      → (minconf : Option ℕ) → (include_watchonly : Option Bool) → Result (ℕ × ℕ × ℕ) ErrorObject
  unfolding total_of_summary require_watchonly policy_of
  get_total_balance get_wallet_summary minconf include_watchonly =
      require_watchonly include_watchonly
      >> total_of_summary (get_wallet_summary (policy_of minconf))

-- `z_getbalanceforaccount`: each pool's spendable value, where it is not zero, and the echoed `minconf`.
pub record BalanceForAccount : Type 0 where
  pub transparent : Option ℕ
  pub sapling : Option ℕ
  pub orchard : Option ℕ
  pub ironwood : Option ℕ
  pub minimum_confirmations : ℕ

unfoldable pub pool_balance : ℕ → Option ℕ
pool_balance value = if value == 0 then none else some value

unfoldable pub response_for_balance : AccountBalance → Option ℕ → BalanceForAccount
unfolding pool_balance
response_for_balance a minconf = record {
  transparent = pool_balance a.unshielded.spendable_value;
  sapling = pool_balance a.sapling.spendable_value;
  orchard = pool_balance a.orchard.spendable_value;
  ironwood = pool_balance a.ironwood.spendable_value;
  minimum_confirmations = elim minconf [ none ↦ 1 | some m ↦ m ];
}

-- Its `minconf`, where one that is missing counts as zero.
unfoldable pub policy_for_account : Option ℕ → ConfirmationsPolicy
policy_for_account (some (suc c)) = record {
  confirmations = suc c;
  allow_zero_conf_shielding = false;
}
policy_for_account _ = record { confirmations = 1; allow_zero_conf_shielding = true }

-- From the summary, for the account that `find` looks up in it.
unfoldable pub balance_for_account :
    {Summary : Type 0} (find : Summary → Option AccountBalance)
    → (ConfirmationsPolicy → Result (Option Summary) String)
    → (minconf : Option ℕ) → Result BalanceForAccount ErrorObject
unfolding response_for_balance policy_for_account
balance_for_account find get_wallet_summary minconf =
    map_err (with_message database) (get_wallet_summary (policy_for_account minconf)) >>= λ summary.
    ok_or summary (with_message in_warmup "Wallet sync required") >>= λ summary.
    ok_or (find summary)
      (with_message invalid_parameter "Error: account has not been generated by z_getnewaccount.")
    >>= λ account. ok (response_for_balance account minconf)
