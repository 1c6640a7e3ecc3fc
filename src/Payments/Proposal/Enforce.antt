-- ===== src/Payments/Proposal/Enforce.antt =====
-- The check of a caller's policy and the report of the required policy agree.
use wallet.Prelude.{
  ◌≡◌, refl, ◌↔◌, Bool, true, false, Option, none, some, List, [], ◌∷◌, ◌++◌, ok, err, arith, ap,
  ◌⊎◌, Result-cases, inl, inr,
}
use wallet.Payments.Policy.{PrivacyPolicy, full_privacy, meet, is_compatible_with}
use wallet.Payments.Policy.Lattice.{meet_greatest}
use wallet.Payments.Proposal.{
  ShieldedPool, sapling, orchard, ironwood, shielded, Step, IncompatiblePrivacyPolicy,
  shielded_pool_crossed_into, step_privacy_requirement, check_requirement, enforce_privacy_policy,
  required_or_full, required_from, required_privacy_policy,
}

-- A payment or a change output of the step is in the shielded pool.
abbrev pub Receives : {Address : Type 0} → Step Address → ShieldedPool → Type 0
Receives step pool =
    (step.output_in_pool (shielded pool) ≡ true) ⊎ (step.change_in_pool (shielded pool) ≡ true)

-- The step has an input in a shielded pool other than this one.
abbrev pub SpendsFromOther : {Address : Type 0} → Step Address → ShieldedPool → Type 0
SpendsFromOther step sapling =
    (step.input_in_pool (shielded orchard) ≡ true) ⊎ (step.input_in_pool (shielded ironwood) ≡ true)
SpendsFromOther step orchard =
    (step.input_in_pool (shielded sapling) ≡ true) ⊎ (step.input_in_pool (shielded ironwood) ≡ true)
SpendsFromOther step ironwood =
    (step.input_in_pool (shielded sapling) ≡ true) ⊎ (step.input_in_pool (shielded orchard) ≡ true)

module _ {Address : Type 0} (step : Step Address) where
  -- A pool that the search finds receives value from another shielded pool.
  pub crossed_into_sound :
      (pool : ShieldedPool)
      → shielded_pool_crossed_into step ≡ some pool
      → Receives step pool × SpendsFromOther step pool
  unfolding shielded_pool_crossed_into
  crossed_into_sound sapling h = (ground arith, ground arith)
  crossed_into_sound orchard h = (ground arith, ground arith)
  crossed_into_sound ironwood h = (ground arith, ground arith)

  -- Where the search finds none, no shielded pool receives value from another one.
  pub crossed_into_complete :
      (pool : ShieldedPool)
      → shielded_pool_crossed_into step ≡ none
      → Receives step pool
      → ¬ SpendsFromOther step pool
  unfolding shielded_pool_crossed_into
  crossed_into_complete sapling h r o = ground arith
  crossed_into_complete orchard h r o = ground arith
  crossed_into_complete ironwood h r o = ground arith

compatible-full : (p : PrivacyPolicy) → is_compatible_with p full_privacy ≡ true
unfolding is_compatible_with
compatible-full full_privacy = refl
compatible-full _ = refl

check_requirement_iff :
    (p : PrivacyPolicy) (r : Option (PrivacyPolicy × IncompatiblePrivacyPolicy))
    → (check_requirement p r ≡ ok tt) ↔ (is_compatible_with p (required_or_full r) ≡ true)
unfolding check_requirement required_or_full
check_requirement_iff p none = (λ _. compatible-full p, λ _. refl)
check_requirement_iff p (some (required, incompatible)) = (λ h. ground arith, λ h. ground arith)

module _ {Address : Type 0} (same : Address → Address → Bool) where
  enforce-cons :
      (p : PrivacyPolicy) (step : Step Address) (steps : List (Step Address))
      → (enforce_privacy_policy same (step ∷ steps) p ≡ ok tt) ↔ (
          (check_requirement p (step_privacy_requirement same step) ≡ ok tt)
          × (enforce_privacy_policy same steps p ≡ ok tt))
  unfolding enforce_privacy_policy
  enforce-cons p step steps = (λ h. ground arith, λ h. ground arith)

  required_from_iff :
      (p r : PrivacyPolicy) (steps : List (Step Address))
      → (is_compatible_with p (required_from same r steps) ≡ true)
        ↔ ((is_compatible_with p r ≡ true) × (enforce_privacy_policy same steps p ≡ ok tt))
  unfolding required_from enforce_privacy_policy
  required_from_iff p r [] = (λ h. (h, refl), λ h. h.0)
  required_from_iff p r (step ∷ steps) =
      let need = required_or_full (step_privacy_requirement same step) in
      let ih = required_from_iff p (meet r need) steps in
      let split = meet_greatest r need p in
      let one = check_requirement_iff p (step_privacy_requirement same step) in
      let rest = enforce-cons p step steps in
      (
        λ h. ((split.0 (ih.0 h).0).0, rest.1 (one.1 (split.0 (ih.0 h).0).1, (ih.0 h).1)),
        λ h. ih.1 (split.1 (h.0, one.0 (rest.0 h.1).0), (rest.0 h.1).1),
      )

  -- A proposal passes the check of a policy exactly when that policy is compatible with the policy
  -- that is reported as required for the proposal.
  pub enforce_iff_compatible :
      (steps : List (Step Address)) (p : PrivacyPolicy)
      → (enforce_privacy_policy same steps p ≡ ok tt)
        ↔ (is_compatible_with p (required_privacy_policy same steps) ≡ true)
  unfolding required_privacy_policy
  enforce_iff_compatible steps p =
      let whole = required_from_iff p full_privacy steps in
      (λ h. whole.1 (compatible-full p, h), λ h. (whole.0 h).1)

  -- The step that a refusal is about: all before it pass, and its own requirement, which names the
  -- error, is one that the policy does not reach.
  pub record FirstLeak (steps : List (Step Address)) (p : PrivacyPolicy)
      (e : IncompatiblePrivacyPolicy) : Type 0 where
    pub before : List (Step Address)
    pub leak : Step Address
    pub after : List (Step Address)
    pub required : PrivacyPolicy
    pub split : steps ≡ before ++ leak ∷ after
    pub passed : enforce_privacy_policy same before p ≡ ok tt
    pub reason : step_privacy_requirement same leak ≡ some (required, e)
    pub refused : is_compatible_with p required ≡ false

  check_requirement_err :
      (p : PrivacyPolicy) (r : Option (PrivacyPolicy × IncompatiblePrivacyPolicy))
      (e : IncompatiblePrivacyPolicy)
      → check_requirement p r ≡ err e
      → (required : PrivacyPolicy) × (r ≡ some (required, e))
        × (is_compatible_with p required ≡ false)
  unfolding check_requirement
  check_requirement_err p none e h = cc
  check_requirement_err p (some (required, e')) e h = (required, ground arith, ground arith)

  -- A refusal names the first step that leaks more than the policy allows.
  pub enforce-FirstLeak :
      (steps : List (Step Address)) (p : PrivacyPolicy) (e : IncompatiblePrivacyPolicy)
      → enforce_privacy_policy same steps p ≡ err e
      → FirstLeak steps p e
  unfolding enforce_privacy_policy
  enforce-FirstLeak [] p e h = cc
  enforce-FirstLeak (step ∷ steps) p e h =
      elim (Result-cases (check_requirement p (step_privacy_requirement same step))) [
        | inl (_, passes) ↦
            let f = enforce-FirstLeak steps p e (ground arith) in
            record {
              before = step ∷ f.before;
              leak = f.leak;
              after = f.after;
              required = f.required;
              split = ap (λ l. step ∷ l) f.split;
              passed = (enforce-cons p step f.before).1 (passes, f.passed);
              reason = f.reason;
              refused = f.refused;
            }
        | inr (e', fails) ↦
            let (required, reason, refused) =
              check_requirement_err p (step_privacy_requirement same step) e (ground arith) in
            record {
              before = [];
              leak = step;
              after = steps;
              required = required;
              split = refl;
              passed = refl;
              reason = reason;
              refused = refused;
            }
      ]
