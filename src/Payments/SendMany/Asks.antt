-- ===== src/Payments/SendMany/Asks.antt =====
-- When `z_sendmany` asks the keystore for a seed, and what its operation then runs with.
use Prim.Native.String.{String}
use wallet.Prelude.{
  ℕ, ◌≤◌, ◌≡◌, ◌≢◌, refl, subst, ◌⊎◌, inl, inr, Bool, true, false, Option, none, some, List, length,
  Result, ok, err, ok_or→some, All, Result-cases, arith,
}
use wallet.Rpc.{ErrorObject}
use wallet.Payments.Policy.{PrivacyPolicy, is_compatible_with}
use wallet.Payments.Proposal.{Step, required_privacy_policy}
use wallet.Payments.Limits.Bound.{IsWithin}
use wallet.Payments.Address.{Zatoshis, Address, TransparentAddress, same_address}
use wallet.Payments.Request.{Zip321, build_request}
use wallet.Payments.Source.{
  SpendPolicy, ConfirmationsPolicy, parse_privacy_policy, confirmations_policy_for_minconf,
}
use wallet.Payments.Propose.{Proposing, done, panics, Proposer, propose_and_check}
use wallet.Payments.Propose.Built.{propose_and_check-ok}
use wallet.Payments.Accounts.{Accounts}
use wallet.Payments.SendMany.{
  ◌>>=◌, Arguments, Settings, Keys, Started, source, check_fee, check_count, derivation_of,
  with_derivation, proposed, prepared, spending_key, started, call,
}

pub >>=-done_elim :
    {A B C : Type 0} (m : Proposing A) (f : A → Proposing B) {b : B}
    → (m >>= f) ≡ done (ok b)
    → ((a : A) → m ≡ done (ok a) → f a ≡ done (ok b) → C)
    → C
>>=-done_elim panics f h use_parts = cc
>>=-done_elim (done (err e)) f h use_parts = cc
>>=-done_elim (done (ok a)) f h use_parts = use_parts a refl h

pub done_injective : {A : Type 0} {r s : Result A ErrorObject} → done r ≡ done s → r ≡ s
done_injective h = cc

panics-ne : {A : Type 0} {a : A} → ◌≡◌ {A = Proposing A} panics (done (ok a)) → ⊥
panics-ne h = cc

err-ne :
    {A : Type 0} {e : ErrorObject} {a : A} → ◌≡◌ {A = Proposing A} (done (err e)) (done (ok a)) → ⊥
err-ne h = cc

pub done-ok : {A : Type 0} {a b : A} → done (ok a) ≡ done (ok b) → a ≡ b
done-ok h = cc

module _ {AccountId Account Seed SpendingKey : Type 0} (z : Zatoshis) (p : Zip321)
    (w : Accounts AccountId Account) (k : Keys Seed SpendingKey) (s : Settings)
    (decode : String → Option Address)
    (proposer : Account → ConfirmationsPolicy → Proposer p.ZcashAddress p.TransactionRequest) where
  -- What a call has established before the keystore is asked for the seed of a fingerprint.
  pub record Ready (args : Arguments) (account : Account)
      (proposal : List (Step TransparentAddress)) (fp index : ℕ) : Type 0 where
    pub spend_policy : SpendPolicy
    pub policy : PrivacyPolicy
    pub fee_lem : args.has_fee ≡ false
    pub count_lem : length args.amounts ≤ s.orchard_actions
    pub source_lem :
        source z p w k s decode proposer args.fromaddress ≡ done (ok (account, spend_policy))
    pub derivation_lem : w.key_derivation account ≡ some (fp, index)
    pub policy_lem : parse_privacy_policy args.privacy_policy ≡ ok policy
    pub private_lem :
        is_compatible_with policy (required_privacy_policy same_address proposal) ≡ true
    pub within_lem : All (IsWithin s.orchard_actions) proposal

  check_fee→false :
      (b : Bool) {u : Unit {0}} → check_fee z p w k s decode proposer b ≡ ok u → b ≡ false
  unfolding check_fee
  check_fee→false true h = cc
  check_fee→false false h = refl

  check_count→le :
      (n : ℕ) {u : Unit {0}}
      → check_count z p w k s decode proposer n ≡ ok u
      → n ≤ s.orchard_actions
  unfolding check_count
  check_count→le n h = ground arith

  derivation_of→some :
      (account : Account) {derivation : ℕ × ℕ}
      → derivation_of z p w k s decode proposer account ≡ ok derivation
      → w.key_derivation account ≡ some derivation
  unfolding derivation_of
  derivation_of→some account h = ok_or→some (w.key_derivation account) _ h

  derived→Ready :
      (args : Arguments) (account : Account) (spend_policy : SpendPolicy) (policy : PrivacyPolicy)
      (request : p.TransactionRequest) (confirmations : ConfirmationsPolicy)
      (found : List (Step TransparentAddress)) (derivation : ℕ × ℕ)
      → args.has_fee ≡ false
      → source z p w k s decode proposer args.fromaddress ≡ done (ok (account, spend_policy))
      → parse_privacy_policy args.privacy_policy ≡ ok policy
      → length args.amounts ≤ s.orchard_actions
      → propose_and_check z
          (proposer account confirmations)
          s.orchard_actions
          request
          policy
          spend_policy
        ≡ done (ok found)
      → w.key_derivation account ≡ some derivation
      → Ready args account found derivation.0 derivation.1
  derived→Ready args account spend_policy policy request confirmations found derivation e1 e3 e4 e5
        e7 e8 =
      let (private, within) =
        propose_and_check-ok z (proposer account confirmations) s.orchard_actions request policy
          spend_policy found e7 in
      record {
        spend_policy = spend_policy;
        policy = policy;
        fee_lem = e1;
        count_lem = e5;
        source_lem = e3;
        derivation_lem = e8;
        policy_lem = e4;
        private_lem = private;
        within_lem = within;
      }

  abbrev Prepared : Type 0
  Prepared = Account × List (Step TransparentAddress) × ℕ × ℕ

  abbrev ReadyTo : Arguments → Prepared → Type 0
  ReadyTo args (account, proposal, fp, index) = Ready args account proposal fp index

  proposed→Ready :
      (args : Arguments) (request : p.TransactionRequest) (account : Account)
      (spend_policy : SpendPolicy) (prepared' : Prepared)
      → args.has_fee ≡ false
      → source z p w k s decode proposer args.fromaddress ≡ done (ok (account, spend_policy))
      → proposed z p w k s decode proposer args request (account, spend_policy)
        ≡ done (ok prepared')
      → ReadyTo args prepared'
  unfolding proposed with_derivation
  proposed→Ready args request account spend_policy prepared' e1 e3 h =
      >>=-done_elim _ _ h λ policy e4 h4. >>=-done_elim _ _ h4 λ u e5 h5.
        >>=-done_elim (done (confirmations_policy_for_minconf s.confirmations args.minconf)) _ h5
          λ confirmations e6 h6.
            >>=-done_elim
              (propose_and_check z (proposer account confirmations) s.orchard_actions request policy
                spend_policy)
              (with_derivation z p w k s decode proposer account) h6
              λ found e7 h7.
                >>=-done_elim (done (derivation_of z p w k s decode proposer account)) _ h7
                  λ derivation e8 h8. subst (ReadyTo args) (done-ok h8) (
                    derived→Ready args account spend_policy policy request confirmations found
                      derivation e1 e3 (done_injective e4)
                      (check_count→le (length args.amounts) (done_injective e5)) e7
                      (derivation_of→some account (done_injective e8)))

  prepared→Ready :
      (args : Arguments) (prepared' : Prepared)
      → prepared z p w k s decode proposer args ≡ done (ok prepared')
      → ReadyTo args prepared'
  unfolding prepared
  prepared→Ready args prepared' h = >>=-done_elim _ _ h λ u e1 h1.
      >>=-done_elim (done (build_request z p args.amounts)) _ h1 λ request e2 h2.
        >>=-done_elim _ _ h2 λ from e3 h3.
          proposed→Ready args request from.0 from.1 prepared'
            (check_fee→false args.has_fee (done_injective e1)) e3 h3

  -- The answer to a call: the keystore is not asked and no operation starts, or it is asked for the
  -- seed of an account that is ready, and the operation runs with that account, its proposal, and the
  -- key that the seed has at the account's index.
  abbrev pub Asks : Arguments → Option ℕ × Proposing (Started Account SpendingKey) → Type 0
  Asks args (none, r) = (op : Started Account SpendingKey) → r ≢ done (ok op)
  Asks args (some fp, r) =
      (account : Account) × (proposal : List (Step TransparentAddress)) × (index : ℕ) × Ready args
        account proposal fp index
      × (((e : ErrorObject) × (r ≡ done (err e)))
          ⊎ ((usk : SpendingKey) × (spending_key k fp index ≡ ok usk)
              × (r ≡ done (ok (record { account = account; usk = usk; proposal = proposal })))))

  started-Asks :
      (args : Arguments) (r : Proposing Prepared)
      → ((prepared' : Prepared) → r ≡ done (ok prepared') → ReadyTo args prepared')
      → Asks args (started z p w k s decode proposer r)
  unfolding started
  started-Asks args panics ready = λ op h. absurd (panics-ne h)
  started-Asks args (done (err e)) ready = λ op h. absurd (err-ne h)
  started-Asks args (done (ok (account, proposal, fp, index))) ready =
      let is_ready = ready (account, proposal, fp, index) refl in
      elim (Result-cases (spending_key k fp index)) [
        | inl (usk, e) ↦ (account, proposal, index, is_ready, inr (usk, e, rw e refl))
        | inr (why, e) ↦ (account, proposal, index, is_ready, inl (why, rw e refl))
      ]

  -- `z_sendmany` asks the keystore for a seed only once the call has no fee, its recipients are at
  -- most the limit, the account that `fromaddress` names has a derivation from that seed, and a
  -- proposal was made that reveals no more than the given policy allows and has at most the limit of
  -- spends and of outputs in each shielded pool of each step. An operation starts only with that
  -- account, that proposal, and the key of that seed at the account's index.
  pub call-Asks : (args : Arguments) → Asks args (call z p w k s decode proposer args)
  unfolding call
  call-Asks args = started-Asks args (prepared z p w k s decode proposer args) (prepared→Ready args)
