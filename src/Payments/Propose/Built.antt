-- ===== src/Payments/Propose/Built.antt =====
-- `build_request` and `propose_and_check` together, as `z_sendmany` and `pczt_create` call them.
use Prim.Native.String.{String}
use wallet.Payments.Proposal.{ShieldedPool}
use wallet.Prelude.{
  ℕ, ◌+◌, ◌≤◌, ◌≡◌, refl, sym, ap, ◌∙◌, true, Option, some, List, [], ◌∷◌, map, Result, ok, err,
  >>=-eq-ok, ok_injective, map_err->>-ok, >>-ok, ◌>>◌, subst, All, arith,
}
use wallet.Rpc.{ErrorObject}
use wallet.Payments.Policy.{PrivacyPolicy, is_compatible_with}
use wallet.Payments.Proposal.{Step, required_privacy_policy}
use wallet.Payments.Proposal.Enforce.{enforce_iff_compatible}
use wallet.Payments.Limits.Bound.{IsWithin, check_limits_iff}
use wallet.Payments.Address.{Zatoshis, IsChecked, TransparentAddress, same_address, max_money}
use wallet.Payments.Request.{AmountParameter, Zip321, build_request}
use wallet.Payments.Request.Accepts.{Entry, AllRead, total, build_request_iff}
use wallet.Payments.Recipients.{Checked, passed, refused, panicked, check_recipients, all_available}
use wallet.Payments.Recipients.Verdict.{
  first_refusal, check_recipients-first_refusal, Covers, paid, ends,
}
use wallet.Payments.Source.{SpendPolicy}
use wallet.Payments.Propose.{
  done, Proposer, check_proposal, proposed, propose_checked, after_recipients, propose_and_check,
}

module _ (shown : ShieldedPool → String) (actions_limit : ℕ) where
  pub check_proposal→same :
      (policy : PrivacyPolicy) (found proposal : List (Step TransparentAddress))
      → check_proposal shown actions_limit policy found ≡ ok proposal
      → found ≡ proposal
  unfolding check_proposal
  check_proposal→same policy found proposal h = ok_injective (>>-ok _ _ (>>-ok _ _ h))

  -- A proposal that passes stays within the policy and the limit.
  pub check_proposal-ok :
      (policy : PrivacyPolicy) (found proposal : List (Step TransparentAddress))
      → check_proposal shown actions_limit policy found ≡ ok proposal
      → (is_compatible_with policy (required_privacy_policy same_address proposal) ≡ true)
        × All (IsWithin actions_limit) proposal
  unfolding check_proposal
  check_proposal-ok policy found proposal h =
      let (private, h') = map_err->>-ok _ _ _ h in
      let (small, same) = map_err->>-ok _ _ _ h' in
      subst
        (λ p.
          (is_compatible_with policy (required_privacy_policy same_address p) ≡ true)
          × All (IsWithin actions_limit) p)
        (ok_injective same)
        (
          (enforce_iff_compatible same_address found policy).0 private,
          (check_limits_iff actions_limit found).0 small,
        )

module _ {ZcashAddress TransactionRequest : Type 0} (z : Zatoshis)
    (l : Proposer ZcashAddress TransactionRequest) (actions_limit : ℕ) where
  after_recipients-ok :
      (c : Checked) (rest : Result (List (Step TransparentAddress)) ErrorObject)
      (proposal : List (Step TransparentAddress))
      → after_recipients z l actions_limit c rest ≡ done (ok proposal)
      → rest ≡ ok proposal
  unfolding after_recipients
  after_recipients-ok panicked rest proposal h = cc
  after_recipients-ok (refused e) rest proposal h = cc
  after_recipients-ok passed rest proposal h = ground arith

  after_recipients-ends :
      (c : Result (Unit {0}) ErrorObject)
      (rest : Result (List (Step TransparentAddress)) ErrorObject)
      → after_recipients z l actions_limit (ends c) rest ≡ done (c >> rest)
  unfolding after_recipients
  after_recipients-ends (ok _) rest = refl
  after_recipients-ends (err e) rest = refl

  propose_checked-ok :
      (request : TransactionRequest) (policy : PrivacyPolicy) (spend_policy : SpendPolicy)
      (proposal : List (Step TransparentAddress))
      → propose_checked z l actions_limit request policy spend_policy ≡ ok proposal
      → (is_compatible_with policy (required_privacy_policy same_address proposal) ≡ true)
        × All (IsWithin actions_limit) proposal
  unfolding propose_checked
  propose_checked-ok request policy spend_policy proposal h =
      let (found, e, h') =
        >>=-eq-ok (proposed z l actions_limit request spend_policy)
          (check_proposal l.shown actions_limit policy) h in
      check_proposal-ok l.shown actions_limit policy found proposal h'

  -- A proposal that comes out, whatever the library proposed, reveals no more than the caller's policy
  -- allows, and no step of it has more than the limit of spends or of outputs in a shielded pool.
  pub propose_and_check-ok :
      (request : TransactionRequest) (policy : PrivacyPolicy) (spend_policy : SpendPolicy)
      (proposal : List (Step TransparentAddress))
      → propose_and_check z l actions_limit request policy spend_policy ≡ done (ok proposal)
      → (is_compatible_with policy (required_privacy_policy same_address proposal) ≡ true)
        × All (IsWithin actions_limit) proposal
  unfolding propose_and_check
  propose_and_check-ok request policy spend_policy proposal h =
      propose_checked-ok request policy spend_policy proposal (
        after_recipients-ok
          (check_recipients z policy l.shown l.try_from_zcash_address (l.payments request)
            all_available)
          (propose_checked z l actions_limit request policy spend_policy) proposal h)

-- The documented behaviour of zip321: a payment has the recipient and the amount that it is made of,
-- and a request the payments.
pub record IsFaithful (p : Zip321) (l : Proposer p.ZcashAddress p.TransactionRequest) : Type 0 where
  pub entry_of : p.Payment → p.ZcashAddress × Option ℕ
  pub payment_lem :
      (a : p.ZcashAddress) (v : Option ℕ) (m : Option p.Memo) (q : p.Payment)
      → p.payment_new a v m ≡ ok q
      → entry_of q ≡ (a, v)
  pub request_lem :
      (qs : List p.Payment) (r : p.TransactionRequest)
      → p.request_new qs ≡ ok r
      → l.payments r ≡ map entry_of qs

module _ (z : Zatoshis) (p : Zip321) (l : Proposer p.ZcashAddress p.TransactionRequest)
    (checked : IsChecked z) (faithful : IsFaithful p l) (actions_limit : ℕ) where
  -- The recipients and amounts that a request was read as.
  abbrev pub recipients : List (Entry z p) → List (p.ZcashAddress × ℕ)
  recipients = map (λ (e : Entry z p). (e.addr, e.value))

  payments-recipients :
      (amounts : List AmountParameter) (es : List (Entry z p))
      → AllRead z p amounts es
      → map faithful.entry_of (map (λ (e : Entry z p). e.payment) es)
        ≡ map (λ q. (q.0, some q.1)) (recipients es)
  payments-recipients [] [] r = refl
  payments-recipients [] (e ∷ es) r = absurd r
  payments-recipients (a ∷ as') [] r = absurd r
  payments-recipients (a ∷ as') (e ∷ es) (r, rs) =
      rw (faithful.payment_lem e.addr (some e.value) e.memo e.payment r.payment_lem)
        (ap (◌∷◌ (e.addr, some e.value)) (payments-recipients as' es rs))

  paid-total :
      (policy : PrivacyPolicy) (es : List (Entry z p))
      → paid z checked policy l.shown l.try_from_zcash_address (recipients es) ≡ total z p es
  paid-total policy [] = refl
  paid-total policy (e ∷ es) = ap (◌+◌ e.value) (paid-total policy es)

  all-Covers :
      (policy : PrivacyPolicy) (qs : List (p.ZcashAddress × ℕ))
      → paid z checked policy l.shown l.try_from_zcash_address qs ≤ max_money
      → Covers z checked policy all_available
          (paid z checked policy l.shown l.try_from_zcash_address qs)
  all-Covers policy qs h = record { in_sapling = h; in_orchard = h }

  -- For a request that `build_request` made, `propose_and_check` does not panic, and it refuses the
  -- first recipient that does not decode or that the policy does not allow whatever is paid to it: a
  -- transparent one without revealed recipients, or a unified address without a shielded receiver. The
  -- running maxima, which start at `max_money`, refuse none.
  pub propose_and_check_built :
      (policy : PrivacyPolicy) (spend_policy : SpendPolicy) (amounts : List AmountParameter)
      (r : p.TransactionRequest)
      → build_request z p amounts ≡ ok r
      → (es : List (Entry z p)) × AllRead z p amounts es
        × (propose_and_check z l actions_limit r policy spend_policy
            ≡ done (
                first_refusal z checked policy l.shown l.try_from_zcash_address (recipients es)
                >> propose_checked z l actions_limit r policy spend_policy))
  unfolding propose_and_check
  propose_and_check_built policy spend_policy amounts r h =
      let (es, read, new, le, made) = ((build_request_iff z p checked amounts r).0 h).1 in
      (
        es,
        read,
        rw
            (
              faithful.request_lem (map (λ (e : Entry z p). e.payment) es) r made
                  ∙ payments-recipients amounts es read,
              check_recipients-first_refusal z checked policy l.shown l.try_from_zcash_address
                  (recipients es) all_available
                  (all-Covers policy (recipients es)
                    (subst (λ n. n ≤ max_money) (sym (paid-total policy es)) le)),
            )
            (after_recipients-ends z l actions_limit
              (first_refusal z checked policy l.shown l.try_from_zcash_address (recipients es))
              (propose_checked z l actions_limit r policy spend_policy)),
      )
