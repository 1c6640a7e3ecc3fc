-- ===== src/Rpc/Balances/Reported.antt =====
-- When get_balances.rs reports an account, and that the report adds up.
use Prim.Native.String.{String}
use wallet.Prelude.{
  ℕ, ◌+◌, ◌≤◌, ◌<◌, ◌≡◌, ◌⊎◌, refl, lt-cases, ◌&&◌, Bool-cases, inl, inr, Option, none, some,
  Result, ok, err, ok_or, ◌>>=◌, arith,
}
use wallet.Rpc.{ErrorObject}
use wallet.Payments.Address.{Zatoshis, IsChecked, max_money}
use wallet.Rpc.Balances.{
  Bucket, AccountBalance, Balance, TransparentBalance, Report, is_empty, corrupt, add_to,
  opt_balance_from, opt_transparent_balance, total_spendable, total_pending, balance_from,
  account_balance_response,
}
use wallet.Rpc.Balances.Capped.{capped, capped-some, add-capped, add_to-capped}
use wallet.Rpc.Balances.Sums.{IsConsistent, values, none_or, ◌⊕◌, of_transparent, response-sums}

-- What an account has to spend and what it waits for, each in all its pools.
abbrev pub spendable_in_all : AccountBalance → ℕ
spendable_in_all a = a.spendable_value + a.regular.spendable_value + a.coinbase.spendable_value

abbrev pub pending_in_all : AccountBalance → ℕ
pending_in_all a =
    a.change_pending_confirmation + a.value_pending_spendability
    + a.regular.change_pending_confirmation + a.regular.value_pending_spendability
    + a.coinbase.change_pending_confirmation + a.coinbase.value_pending_spendability

capped-none : (s : ℕ) → max_money < s → capped s ≡ none
unfolding capped
capped-none s h = ground arith

-- A step that succeeds, or that reports the corrupt database.
abbrev OkOrCorrupt : {A : Type 0} → Result A ErrorObject → Type 0
OkOrCorrupt {A} r = ((a : A) × (r ≡ ok a)) ⊎ (r ≡ err corrupt)

ok_or-corrupt : {A : Type 0} (o : Option A) → OkOrCorrupt (ok_or o corrupt)
ok_or-corrupt none = inr refl
ok_or-corrupt (some a) = inl (a, refl)

>>=-OkOrCorrupt :
    {A B : Type 0} (first : Result A ErrorObject) (next : A → Result B ErrorObject)
    → OkOrCorrupt first
    → ((a : A) → OkOrCorrupt (next a))
    → OkOrCorrupt (first >>= next)
>>=-OkOrCorrupt (ok a) next _ after = after a
>>=-OkOrCorrupt (err e) next (inl (a, h)) after = cc
>>=-OkOrCorrupt (err e) next (inr h) after = inr (cc)

-- After such steps, a step that always reports it.
>>=-corrupt :
    {A B : Type 0} (first : Result A ErrorObject) (next : A → Result B ErrorObject)
    → OkOrCorrupt first
    → ((a : A) → next a ≡ err corrupt)
    → (first >>= next) ≡ err corrupt
>>=-corrupt (ok a) next _ after = after a
>>=-corrupt (err e) next (inl (a, h)) after = cc
>>=-corrupt (err e) next (inr h) after = cc

>>=-ok :
    {A B : Type 0} (first : Result A ErrorObject) (next : A → Result B ErrorObject)
    → (a : A) × (first ≡ ok a)
    → ((a : A) → (b : B) × (next a ≡ ok b))
    → (b : B) × ((first >>= next) ≡ ok b)
>>=-ok first next (a, h) after = rw h (after a)

module _ (z : Zatoshis) (checked : IsChecked z) where
  opt_balance_from-OkOrCorrupt : (b : Bucket) → OkOrCorrupt (opt_balance_from z b)
  unfolding opt_balance_from
  opt_balance_from-OkOrCorrupt b = >>=-OkOrCorrupt _ _ (ok_or-corrupt _) (λ p. inl (_, refl))

  opt_transparent_balance-OkOrCorrupt : (r c : Bucket) → OkOrCorrupt (opt_transparent_balance z r c)
  unfolding opt_transparent_balance
  opt_transparent_balance-OkOrCorrupt r c = elim (Bool-cases (is_empty r && is_empty c)) [
    | inl e ↦ rw e (inl (none, refl))
    | inr e ↦ rw e (
        >>=-OkOrCorrupt _ _ (opt_balance_from-OkOrCorrupt r)
          (λ x. >>=-OkOrCorrupt _ _ (opt_balance_from-OkOrCorrupt c) (λ y. inl (_, refl))))
  ]

  opt_balance_from-fits :
      (b : Bucket)
      → b.change_pending_confirmation + b.value_pending_spendability ≤ max_money
      → (o : Option Balance) × (opt_balance_from z b ≡ ok o)
  unfolding opt_balance_from
  opt_balance_from-fits b h =
      rw
        (
          add-capped z checked b.change_pending_confirmation b.value_pending_spendability,
          capped-some (b.change_pending_confirmation + b.value_pending_spendability) h,
        )
        (_, refl)

  opt_transparent_balance-fits :
      (r c : Bucket)
      → r.change_pending_confirmation + r.value_pending_spendability ≤ max_money
      → c.change_pending_confirmation + c.value_pending_spendability ≤ max_money
      → (o : Option TransparentBalance) × (opt_transparent_balance z r c ≡ ok o)
  unfolding opt_transparent_balance
  opt_transparent_balance-fits r c hr hc = elim (Bool-cases (is_empty r && is_empty c)) [
    | inl e ↦ rw e (none, refl)
    | inr e ↦ rw e (
        >>=-ok _ _ (opt_balance_from-fits r hr)
          (λ x. >>=-ok _ _ (opt_balance_from-fits c hc) (λ y. (_, refl))))
  ]

  total_spendable-capped : (a : AccountBalance) → total_spendable z a ≡ capped (spendable_in_all a)
  unfolding total_spendable
  total_spendable-capped a = rw (add-capped z checked a.spendable_value a.regular.spendable_value) (
      add_to-capped z checked (a.spendable_value + a.regular.spendable_value)
        a.coinbase.spendable_value)

  step : {o : Option ℕ} (s : ℕ) → o ≡ capped s → (v : ℕ) → add_to z o v ≡ capped (s + v)
  step s h v = rw h (add_to-capped z checked s v)

  total_pending-capped : (a : AccountBalance) → total_pending z a ≡ capped (pending_in_all a)
  unfolding total_pending
  total_pending-capped a =
      step _
        (step _
          (step _
            (step _
              (add-capped z checked a.change_pending_confirmation a.value_pending_spendability)
              a.regular.change_pending_confirmation)
            a.regular.value_pending_spendability)
          a.coinbase.change_pending_confirmation)
        a.coinbase.value_pending_spendability

  balance_from-cases :
      (a : AccountBalance)
      → ((spendable_in_all a ≤ max_money)
          × (pending_in_all a ≤ max_money)
          × ((b : Balance) × (balance_from z a ≡ ok b)))
        ⊎ (((max_money < spendable_in_all a) ⊎ (max_money < pending_in_all a))
            × (balance_from z a ≡ err corrupt))
  unfolding balance_from
  balance_from-cases a = elim (lt-cases max_money (spendable_in_all a)) [
    | inr s ↦ elim (lt-cases max_money (pending_in_all a)) [
      | inr p ↦ inl (
        s,
        p,
        rw
            (
              total_spendable-capped a,
              capped-some (spendable_in_all a) s,
              total_pending-capped a,
              capped-some (pending_in_all a) p,
            )
            (_, refl),
      )
      | inl p ↦ inr (
        inr p,
        rw
            (
              total_spendable-capped a,
              capped-some (spendable_in_all a) s,
              total_pending-capped a,
              capped-none (pending_in_all a) p,
            )
            refl,
      )
    ]
    | inl s ↦ inr (inl s, rw (total_spendable-capped a, capped-none (spendable_in_all a) s) refl)
  ]

  response-fits :
      (uuid : String) (a : AccountBalance)
      → IsConsistent a
      → pending_in_all a ≤ max_money
      → (b : Balance) × (balance_from z a ≡ ok b)
      → (r : Report) × (account_balance_response z uuid a ≡ ok r)
  unfolding account_balance_response
  response-fits uuid a c p b =
      >>=-ok _ _ (opt_transparent_balance-fits a.regular a.coinbase (ground arith) (ground arith))
        (λ t. >>=-ok _ _ (opt_balance_from-fits a.sapling (ground arith)) (λ s.
          >>=-ok _ _ (opt_balance_from-fits a.orchard (ground arith)) (λ o.
            >>=-ok _ _ (opt_balance_from-fits a.ironwood (ground arith))
              (λ i. >>=-ok _ _ b (λ total. (_, refl))))))

  response-corrupt :
      (uuid : String) (a : AccountBalance)
      → balance_from z a ≡ err corrupt
      → account_balance_response z uuid a ≡ err corrupt
  unfolding account_balance_response
  response-corrupt uuid a e =
      >>=-corrupt _ _ (opt_transparent_balance-OkOrCorrupt a.regular a.coinbase) (λ t.
        >>=-corrupt _ _ (opt_balance_from-OkOrCorrupt a.sapling) (λ s.
          >>=-corrupt _ _ (opt_balance_from-OkOrCorrupt a.orchard)
            (λ o. >>=-corrupt _ _ (opt_balance_from-OkOrCorrupt a.ironwood) (λ i. rw e refl))))

  -- The report of a consistent account adds up, and its own totals decide whether there is one.
  pub account_balance_response_lem :
      (uuid : String) (a : AccountBalance)
      → IsConsistent a
      → ((spendable_in_all a ≤ max_money)
          × (pending_in_all a ≤ max_money)
          × ((r : Report) × (account_balance_response z uuid a ≡ ok r)
              × (values r.total
                  ≡ of_transparent r.transparent
                    ⊕ none_or r.sapling
                    ⊕ none_or r.orchard
                    ⊕ none_or r.ironwood)))
        ⊎ (((max_money < spendable_in_all a) ⊎ (max_money < pending_in_all a))
            × (account_balance_response z uuid a ≡ err corrupt))
  account_balance_response_lem uuid a c = elim (balance_from-cases a) [
    | inl (s, p, b) ↦
        let (r, hr) = response-fits uuid a c p b in
        inl (s, p, (r, hr, response-sums z checked uuid a r c hr))
    | inr (over, e) ↦ inr (over, response-corrupt uuid a e)
  ]
