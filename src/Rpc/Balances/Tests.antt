-- ===== src/Rpc/Balances/Tests.antt =====
-- An account with funds in every pool, its report, and the theorems at it.
use wallet.Prelude.{ℕ, ◌≡◌, ◌≤◌, ◌<◌, ◌⊎◌, refl, none, some, [], ◌∷◌, ok, err}
use wallet.Payments.Address.{max_money}
use wallet.Payments.SendTests.{amounts, amounts-IsChecked}
use wallet.Rpc.Balances.{
  Bucket, AccountBalance, Report, corrupt, account_balance_response, total_balance, opt_balance,
  balance, policy_for_account, response_for_balance,
}
use wallet.Rpc.Balances.Capped.{total_balance_lem}
use wallet.Rpc.Balances.Sums.{IsConsistent, values, none_or, ◌⊕◌, of_transparent}
use wallet.Rpc.Balances.Reported.{spendable_in_all, pending_in_all, account_balance_response_lem}

abbrev bucket : ℕ → ℕ → ℕ → ℕ → ℕ → Bucket
bucket s c p d t = record {
  spendable_value = s;
  change_pending_confirmation = c;
  value_pending_spendability = p;
  uneconomic_value = d;
  total = t;
}

abbrev savings : AccountBalance
savings = record {
  sapling = bucket 50 1 2 1 53;
  orchard = bucket 30 0 0 0 30;
  ironwood = bucket 0 0 0 0 0;
  regular = bucket 7 0 3 0 10;
  coinbase = bucket 0 0 9 2 9;
  unshielded = bucket 7 0 12 2 19;
  spendable_value = 80;
  change_pending_confirmation = 1;
  value_pending_spendability = 2;
  uneconomic_value = 3;
}

abbrev savings-IsConsistent : IsConsistent savings
savings-IsConsistent = record {
  regular_total = refl;
  coinbase_total = refl;
  spendable_lem = refl;
  change_lem = refl;
  pending_lem = refl;
  dust_lem = refl;
}

reported :
    account_balance_response amounts "a" savings
    ≡ ok (record {
      account_uuid = "a";
      transparent = some (record {
        regular = some (record { spendable = 7; pending = some 3; dust = none });
        coinbase = some (record { spendable = 0; pending = some 9; dust = some 2 });
      });
      sapling = some (record { spendable = 50; pending = some 3; dust = some 1 });
      orchard = some (record { spendable = 30; pending = none; dust = none });
      ironwood = none;
      total = record { spendable = 87; pending = some 15; dust = some 3 };
    })
unfolding account_balance_response opt_balance balance
reported = refl

-- Without `minconf` the policy is the one of zero confirmations, and one confirmation is echoed.
missing_minconf : policy_for_account none ≡ policy_for_account (some 0)
unfolding policy_for_account
missing_minconf = refl

echoed_minconf : (response_for_balance savings none).minimum_confirmations ≡ 1
unfolding response_for_balance
echoed_minconf = refl

account_balance_response_lem_example :
    ((spendable_in_all savings ≤ max_money)
      × (pending_in_all savings ≤ max_money)
      × ((r : Report) × (account_balance_response amounts "a" savings ≡ ok r)
          × (values r.total
              ≡ of_transparent r.transparent
                ⊕ none_or r.sapling
                ⊕ none_or r.orchard
                ⊕ none_or r.ironwood)))
    ⊎ (((max_money < spendable_in_all savings) ⊎ (max_money < pending_in_all savings))
        × (account_balance_response amounts "a" savings ≡ err corrupt))
account_balance_response_lem_example =
    account_balance_response_lem amounts amounts-IsChecked "a" savings savings-IsConsistent

total_balance_lem_example : total_balance amounts (savings ∷ savings ∷ []) ≡ ok (38, 166, 204)
total_balance_lem_example = total_balance_lem amounts amounts-IsChecked (savings ∷ savings ∷ [])
