-- ===== src/Payments/Accounts.antt =====
-- `get_account_for_address`, `is_legacy_pool_account`, `legacy_pool_account` and
-- `get_legacy_pool_account` of payments.rs: the account that a send spends from.
use Prim.Native.String.{String}
use wallet.Prelude.{
  ℕ, ◌==◌, ◌&&◌, any, Bool, Option, none, some, List, [], ◌∷◌, if◌then◌else◌, Result, ok, err,
  ◌>>=◌, ok_or, map_err,
}
use wallet.Rpc.{
  ErrorObject, with_message, database, wallet_error, invalid_address_or_key,
  wallet_accounts_unsupported,
}
use wallet.Payments.Address.{Address}
use wallet.Payments.Propose.{Proposing, done, panics}

abbrev pub zcash_legacy_account : ℕ
zcash_legacy_account = 2147483647

-- What the wallet's database answers about its accounts. A seed fingerprint is the number that its
-- bytes spell; the derivation of an account is its seed's fingerprint and its ZIP 32 index.
pub record Accounts (AccountId Account : Type 0) : Type 0 where
  pub find_account_for_address : Address → Result (Option AccountId) String
  pub get_account : AccountId → Result (Option Account) String
  pub get_account_ids : Result (List AccountId) String
  pub list_addresses : AccountId → Result (List Address) String
  pub key_derivation : Account → Option (ℕ × ℕ)
  pub same : Address → Address → Bool

unfoldable pub is_legacy_pool_account : (seed_fingerprint account_index legacy_seed_fp : ℕ) → Bool
is_legacy_pool_account seed_fingerprint account_index legacy_seed_fp =
    seed_fingerprint == legacy_seed_fp && account_index == zcash_legacy_account

-- The `is_some_and` over the derivation.
unfoldable pub derives_legacy_pool : (legacy_seed_fp : ℕ) → Option (ℕ × ℕ) → Bool
unfolding is_legacy_pool_account
derives_legacy_pool legacy_seed_fp none = Bool.false
derives_legacy_pool legacy_seed_fp (some (fp, index)) =
    is_legacy_pool_account fp index legacy_seed_fp

pub data LegacyPoolError : Type 0 where
  disabled : LegacyPoolError
  not_found : (legacy_seed_fp : ℕ) → LegacyPoolError
  db : String → LegacyPoolError

module _ {AccountId Account : Type 0} (w : Accounts AccountId Account) where
  -- `get_account(…)?.expect("present")`.
  unfoldable pub present : Result (Option Account) String → Proposing Account
  present (err e) = done (err (with_message database e))
  present (ok none) = panics
  present (ok (some account)) = done (ok account)

  -- The scan of the accounts' address lists.
  unfoldable pub scan_accounts : Address → List AccountId → Proposing Account
  unfolding present
  scan_accounts address [] =
      done (err (with_message invalid_address_or_key "err-from-address-no-payment-source"))
  scan_accounts address (id ∷ ids) =
      let rest = scan_accounts address ids in
      elim (w.list_addresses id) [
        | err e ↦ done (err (with_message database e))
        | ok addresses ↦
            if any (λ a. w.same a address) addresses then present (w.get_account id) else rest
      ]

  unfoldable pub scan_listed : Address → Result (List AccountId) String → Proposing Account
  unfolding scan_accounts
  scan_listed address (err e) = done (err (with_message database e))
  scan_listed address (ok ids) = scan_accounts address ids

  unfoldable pub found_or_scan : Address → Result (Option AccountId) String → Proposing Account
  unfolding scan_listed
  found_or_scan address (err e) = done (err (with_message database e))
  found_or_scan address (ok (some account_id)) = present (w.get_account account_id)
  found_or_scan address (ok none) = scan_listed address w.get_account_ids

  unfoldable pub get_account_for_address : Address → Proposing Account
  unfolding found_or_scan
  get_account_for_address address = found_or_scan address (w.find_account_for_address address)

  -- An account of the loop below.
  unfoldable pub fetched : AccountId → Result Account LegacyPoolError
  fetched id =
      map_err db (w.get_account id) >>= λ found. ok_or found (db "Account vanished mid-call")

  unfoldable pub if_legacy :
      (legacy_seed_fp : ℕ)
      → Result Account LegacyPoolError
      → Account
      → Result Account LegacyPoolError
  unfolding derives_legacy_pool
  if_legacy legacy_seed_fp rest account =
      if derives_legacy_pool legacy_seed_fp (w.key_derivation account) then ok account else rest

  -- The loop of `legacy_pool_account`.
  unfoldable pub find_legacy :
      (legacy_seed_fp : ℕ) → List AccountId → Result Account LegacyPoolError
  unfolding fetched if_legacy
  find_legacy legacy_seed_fp [] = err (not_found legacy_seed_fp)
  find_legacy legacy_seed_fp (id ∷ ids) =
      fetched id >>= if_legacy legacy_seed_fp (find_legacy legacy_seed_fp ids)

  -- `configured` is `features.legacy_pool_seed_fingerprint`.
  unfoldable pub legacy_pool_account : (configured : Option ℕ) → Result Account LegacyPoolError
  unfolding find_legacy
  legacy_pool_account none = err disabled
  legacy_pool_account (some legacy_seed_fp) =
      map_err db w.get_account_ids >>= find_legacy legacy_seed_fp

  unfoldable pub legacy_pool_message : LegacyPoolError → ErrorObject
  legacy_pool_message disabled = with_message wallet_accounts_unsupported "err-legacy-pool-disabled"
  legacy_pool_message (not_found legacy_seed_fp) =
      with_message wallet_error "err-legacy-pool-not-found"
  legacy_pool_message (db msg) = with_message database msg

  unfoldable pub get_legacy_pool_account : (configured : Option ℕ) → Result Account ErrorObject
  unfolding legacy_pool_account legacy_pool_message
  get_legacy_pool_account configured = map_err legacy_pool_message (legacy_pool_account configured)
