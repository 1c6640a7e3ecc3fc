-- ===== src/Payments/Shield/Asks.antt =====
-- When `z_shieldcoinbase` asks the keystore for a seed, and what its answer and its operation are.
use wallet.Prelude.{
  ℕ, ◌≡◌, ◌⊎◌, refl, sym, ap, ◌∙◌, subst, inl, inr, map, Bool, true, false, Option, none, some,
  List, Result, ok, err, ok_or, map_err, map_err→ok, ok_or→some, >>=-ok_elim, ok_injective,
  Result-cases, All,
}
use wallet.Rpc.{ErrorObject, with_message, database}
use wallet.Payments.Policy.{PrivacyPolicy, is_compatible_with}
use wallet.Payments.Proposal.{required_privacy_policy}
use wallet.Payments.Limits.Bound.{IsWithin}
use wallet.Payments.Address.{Zatoshis, IsChecked, TransparentAddress, same_address}
use wallet.Payments.Request.{Zip321, memo_of}
use wallet.Payments.Propose.{check_proposal}
use wallet.Payments.Propose.Built.{check_proposal-ok, check_proposal→same}
use wallet.Payments.Accounts.{Accounts}
use wallet.Payments.SendMany.{Keys, spending_key}
use wallet.Payments.Shield.{
  Arguments, FromAddressInput, Proposal, Shielding, Preflight, Started, parse_privacy_policy,
  check_fee, check_from, parse_fromaddress, resolve_fromaddress_input, fetched, proposed,
  preflight_of, derivation_of, prepared_from, prepared, started, call,
}
use wallet.Payments.Shield.Sums.{Adds, preflight_of-Adds}

module _ {AccountId Account Seed SpendingKey : Type 0} (z : Zatoshis) (checked : IsChecked z)
    (p : Zip321) (w : Accounts AccountId Account) (k : Keys Seed SpendingKey)
    (l : Shielding AccountId p.ZcashAddress p.Memo) (actions_limit : ℕ) where
  -- What a call has established before the keystore is asked for the seed of a fingerprint.
  pub record Ready (args : Arguments) (account : Account) (proposal : Proposal) (pre : Preflight)
      (fp index : ℕ) : Type 0 where
    pub from_input : FromAddressInput
    pub policy : PrivacyPolicy
    pub account_id : AccountId
    pub from_addrs : List TransparentAddress
    pub fee_lem : args.has_fee ≡ false
    pub from_lem : parse_fromaddress z p w k l actions_limit args.fromaddress ≡ ok from_input
    pub policy_lem : parse_privacy_policy args.privacy_policy from_input ≡ ok policy
    pub source_lem :
        resolve_fromaddress_input z p w k l actions_limit from_input ≡ ok (account_id, from_addrs)
    pub account_lem : w.get_account account_id ≡ ok (some account)
    pub derivation_lem : w.key_derivation account ≡ some (fp, index)
    pub private_lem :
        is_compatible_with policy
          (required_privacy_policy same_address (map (λ s. s.step) proposal.steps))
        ≡ true
    pub within_lem : All (IsWithin actions_limit) (map (λ s. s.step) proposal.steps)
    pub adds_lem : Adds z checked p w k l actions_limit from_addrs proposal pre

  check_fee→false : (b : Bool) {u : Unit {0}} → check_fee b ≡ ok u → b ≡ false
  unfolding check_fee
  check_fee→false true h = cc
  check_fee→false false h = refl

  fetched→eq :
      (id : AccountId) {account : Account}
      → fetched z p w k l actions_limit id ≡ ok account
      → w.get_account id ≡ ok (some account)
  unfolding fetched
  fetched→eq id h =
      >>=-ok_elim (map_err (with_message database) (w.get_account id)) _ h λ found e e'.
        map_err→ok (with_message database) (w.get_account id) e ∙ ap ok (ok_or→some found _ e')

  proposed-ok :
      (policy : PrivacyPolicy) (addrs : List TransparentAddress) (to : p.ZcashAddress)
      (memo : Option p.Memo) (limit : Option ℕ) {proposal : Proposal}
      → proposed z p w k l actions_limit policy addrs to memo limit ≡ ok proposal
      → (is_compatible_with policy
            (required_privacy_policy same_address (map (λ s. s.step) proposal.steps))
          ≡ true)
        × All (IsWithin actions_limit) (map (λ s. s.step) proposal.steps)
  unfolding proposed
  proposed-ok policy addrs to memo limit h =
      >>=-ok_elim (map_err _ (l.propose_shielding_coinbase addrs to memo limit)) _ h λ found e e'.
        >>=-ok_elim (check_proposal l.shown actions_limit policy (map (λ s. s.step) found.steps)) _
          e'
          λ steps passed last.
            let same =
              check_proposal→same l.shown actions_limit policy (map (λ s. s.step) found.steps) steps
                passed in
            subst
              (λ q.
                (is_compatible_with policy
                    (required_privacy_policy same_address (map (λ s. s.step) q.steps))
                  ≡ true)
                × All (IsWithin actions_limit) (map (λ s. s.step) q.steps))
              (ok_injective last)
              (subst
                (λ xs.
                  (is_compatible_with policy (required_privacy_policy same_address xs) ≡ true)
                  × All (IsWithin actions_limit) xs)
                (sym same)
                (check_proposal-ok l.shown actions_limit policy (map (λ s. s.step) found.steps)
                  steps passed))

  abbrev Prepared : Type 0
  Prepared = Account × Proposal × Preflight × ℕ × ℕ

  abbrev ReadyTo : Arguments → Prepared → Type 0
  ReadyTo args (account, proposal, pre, fp, index) = Ready args account proposal pre fp index

  prepared→Ready :
      (args : Arguments) (prepared' : Prepared)
      → prepared z p w k l actions_limit args ≡ ok prepared'
      → ReadyTo args prepared'
  unfolding prepared prepared_from derivation_of
  prepared→Ready args prepared' h = >>=-ok_elim (check_fee args.has_fee) _ h λ u e1 h1.
      >>=-ok_elim (ok_or (p.parse args.toaddress) _) _ h1 λ to e2 h2.
        >>=-ok_elim (memo_of z p args.memo) _ h2 λ memo e3 h3.
          >>=-ok_elim (parse_fromaddress z p w k l actions_limit args.fromaddress) _ h3
            λ input e4 h4.
              >>=-ok_elim (parse_privacy_policy args.privacy_policy input) _ h4 λ policy e5 h5.
                >>=-ok_elim (resolve_fromaddress_input z p w k l actions_limit input) _ h5
                  λ source e6 h6. >>=-ok_elim (check_from source.1) _ h6 λ u' e7 h7.
                    >>=-ok_elim (fetched z p w k l actions_limit source.0) _ h7 λ account e8 h8.
                      >>=-ok_elim
                        (proposed z p w k l actions_limit policy source.1 to memo args.limit) _ h8
                        λ proposal e9 h9.
                          >>=-ok_elim (preflight_of z p w k l actions_limit source.1 proposal) _ h9
                            λ pre e10 h10.
                              >>=-ok_elim (derivation_of z p w k l actions_limit account) _ h10
                                λ derivation e11 h11.
                                  subst (ReadyTo args) (ok_injective h11) (record {
                                    from_input = input;
                                    policy = policy;
                                    account_id = source.0;
                                    from_addrs = source.1;
                                    fee_lem = check_fee→false args.has_fee e1;
                                    from_lem = e4;
                                    policy_lem = e5;
                                    source_lem = e6;
                                    account_lem = fetched→eq source.0 e8;
                                    derivation_lem = ok_or→some (w.key_derivation account) _ e11;
                                    private_lem =
                                        (proposed-ok policy source.1 to memo args.limit e9).0;
                                    within_lem =
                                        (proposed-ok policy source.1 to memo args.limit e9).1;
                                    adds_lem =
                                        preflight_of-Adds z checked p w k l actions_limit source.1
                                          proposal pre e10;
                                  })

  -- The answer to a call: the keystore is not asked and no operation starts, or it is asked for the
  -- seed of an account that is ready, and the operation runs with that account, its proposal, its
  -- numbers, and the key that the seed has at the account's index.
  abbrev pub Asks : Arguments → Option ℕ × Result (Started Account SpendingKey) ErrorObject → Type 0
  Asks args (none, r) = (e : ErrorObject) × (r ≡ err e)
  Asks args (some fp, r) =
      (account : Account) × (proposal : Proposal) × (pre : Preflight) × (index : ℕ) × Ready args
        account proposal pre fp index
      × (((e : ErrorObject) × (r ≡ err e))
          ⊎ ((usk : SpendingKey) × (spending_key k fp index ≡ ok usk)
              × (r
                  ≡ ok (record {
                    preflight = pre;
                    account = account;
                    usk = usk;
                    proposal = proposal;
                  }))))

  started-Asks :
      (args : Arguments) (r : Result Prepared ErrorObject)
      → ((prepared' : Prepared) → r ≡ ok prepared' → ReadyTo args prepared')
      → Asks args (started z p w k l actions_limit r)
  unfolding started
  started-Asks args (err e) ready = (e, refl)
  started-Asks args (ok (account, proposal, pre, fp, index)) ready =
      let is_ready = ready (account, proposal, pre, fp, index) refl in
      elim (Result-cases (spending_key k fp index)) [
        | inl (usk, e) ↦ (account, proposal, pre, index, is_ready, inr (usk, e, rw e refl))
        | inr (why, e) ↦ (account, proposal, pre, index, is_ready, inl (why, rw e refl))
      ]

  -- `z_shieldcoinbase` asks the keystore for a seed only once the call has no fee, the account that
  -- `fromaddress` names exists and has a derivation from that seed, and a proposal was made that
  -- reveals no more than the policy of the call allows and has at most the limit of spends and of
  -- outputs in each shielded pool of each step. The reported numbers are then those of the proposal's
  -- inputs, and with what remains they are those of all outputs that the database answers for the
  -- source addresses. An operation starts only with that account, that proposal, and the key of that
  -- seed at the account's index; otherwise the call fails. Amounts have checked arithmetic.
  pub shield_call-Asks : (args : Arguments) → Asks args (call z p w k l actions_limit args)
  unfolding call
  shield_call-Asks args =
      started-Asks args (prepared z p w k l actions_limit args) (prepared→Ready args)
