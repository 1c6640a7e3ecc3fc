-- ===== src/Payments/Proposal/Reveals.antt =====
-- What a step of a proposal reveals, and that its requirement says so.
use wallet.Prelude.{
  ltb, ◌≡◌, refl, subst, if◌then◌else◌, sym, ◌∙◌, ap, ◌↔◌, Bool, true, false, ◌||◌, ◌&&◌, not, any,
  List, [], ◌∷◌, length, arith, is_some, Bool-cases, inl, inr,
}
use wallet.Payments.Policy.Lattice.{reveals}
use wallet.Payments.Proposal.{
  ShieldedPool, sapling, orchard, ironwood, shielded, transparent, Step, shielded_pool_crossed_into,
  collect_set, step_privacy_requirement, required_or_full,
}

module _ {Address : Type 0} where
  -- A payment or a change output of the step is in the shielded pool.
  abbrev pub receives : Step Address → ShieldedPool → Bool
  receives step pool = step.output_in_pool (shielded pool) || step.change_in_pool (shielded pool)

  -- Value crosses shielded pools: one of them receives value, and another one is spent from.
  unfoldable pub crosses : Step Address → Bool
  crosses step =
      let spends = λ (pool : ShieldedPool). step.input_in_pool (shielded pool) in
      (receives step sapling && (spends orchard || spends ironwood))
      || (receives step orchard && (spends sapling || spends ironwood))
      || (receives step ironwood && (spends sapling || spends orchard))

  crossed_into-crosses :
      (step : Step Address) → is_some (shielded_pool_crossed_into step) ≡ crosses step
  unfolding shielded_pool_crossed_into crosses
  crossed_into-crosses step = ground arith

module _ {Address : Type 0} (same : Address → Address → Bool) where
  -- Two of the addresses differ: one differs from the first.
  unfoldable pub several : List Address → Bool
  several [] = false
  several (a ∷ rest) = any (λ b. not (same a b)) rest

module _ {Address : Type 0} (same : Address → Address → Bool)
    (same-iff : (a b : Address) → (same a b ≡ true) ↔ (a ≡ b)) where
  same_self : (a : Address) → same a a ≡ true
  same_self a = (same-iff a a).1 refl

  any-same :
      (test : Address → Bool) (a : Address) (set : List Address)
      → any (same a) set ≡ true
      → test a ≡ true
      → any test set ≡ true
  any-same test a [] h t = h
  any-same test a (b ∷ set) h t = elim (Bool-cases (same a b)) [
    | inl e ↦ rw (ap test (sym ((same-iff a b).0 e)) ∙ t) refl
    | inr n ↦ rw (any-same test a set (rw n at h) t) (ground arith)
  ]

  -- A test that an address passes, the set passes as well.
  any-collect_set :
      (test : Address → Bool) (xs : List Address)
      → any test xs ≡ true
      → any test (collect_set same xs) ≡ true
  unfolding collect_set
  any-collect_set test [] h = h
  any-collect_set test (a ∷ xs) h =
      let onward = any-collect_set test xs in
      let set = Bool-cases (any (same a) (collect_set same xs)) in
      elim (Bool-cases (test a)) [
        | inl t ↦ elim set [
          | inl m ↦ rw m (any-same test a (collect_set same xs) m t)
          | inr n ↦ rw (n, t) refl
        ]
        | inr f ↦ elim set [
          | inl m ↦ rw m (onward (rw f at h))
          | inr n ↦ rw (n, f) (onward (rw f at h))
        ]
      ]

  one_address :
      (a : Address) (xs : List Address)
      → any (λ b. not (same a b)) xs ≡ false
      → length (collect_set same (a ∷ xs)) ≡ 1
  one_address a [] h = unfold collect_set in refl
  one_address a (b ∷ xs) h = elim (Bool-cases (same a b)) [
    | inr n ↦ absurd (differs n h)
    | inl e ↦ kept (any-collect_set (same a) (b ∷ xs) (rw e refl)) (
        one_address b xs
          (subst (λ c. any (λ b. not (same c b)) xs ≡ false) ((same-iff a b).0 e) (rw e at h)))
  ]
    where
      differs :
          same a b ≡ false
          → (if not (same a b) then true else any (λ b. not (same a b)) xs) ≡ false
          → ⊥
      differs n h = ground arith

      kept :
          any (same a) (collect_set same (b ∷ xs)) ≡ true
          → length (collect_set same (b ∷ xs)) ≡ 1
          → length (collect_set same (a ∷ b ∷ xs)) ≡ 1
      kept m l = unfold collect_set in (rw m l)

  two_in :
      (a : Address) (set : List Address)
      → any (same a) set ≡ true
      → any (λ b. not (same a b)) set ≡ true
      → ltb 1 (length set) ≡ true
  two_in a [] e n = cc
  two_in a (b ∷ []) e n = ground arith
  two_in a (b ∷ c ∷ set) e n = ground arith

  two_addresses :
      (a : Address) (xs : List Address)
      → any (λ b. not (same a b)) xs ≡ true
      → ltb 1 (length (collect_set same (a ∷ xs))) ≡ true
  two_addresses a xs h =
      two_in a (collect_set same (a ∷ xs))
        (any-collect_set (same a) (a ∷ xs) (rw (same_self a) refl))
        (any-collect_set (λ b. not (same a b)) (a ∷ xs) (rw (same_self a) h))

  collect_set-several : (xs : List Address) → ltb 1 (length (collect_set same xs)) ≡ several same xs
  unfolding several
  collect_set-several [] = unfold collect_set in refl
  collect_set-several (a ∷ xs) = elim (Bool-cases (any (λ b. not (same a b)) xs)) [
    | inl t ↦ two_addresses a xs t ∙ sym t
    | inr f ↦ ap (ltb 1) (one_address a xs f) ∙ sym f
  ]

  -- Where `same` is the equality of addresses, what a step's requirement lets be revealed is what the
  -- step reveals: recipients where a payment or change is transparent, senders where an input is, a link
  -- between addresses where the transparent inputs have two that differ, and amounts in each such case
  -- and where a shielded pool receives value while another one is spent from.
  pub step_reveals :
      (step : Step Address)
      → let has_output = step.output_in_pool transparent || step.change_in_pool transparent in
        let has_input = step.input_in_pool transparent in
        reveals (required_or_full (step_privacy_requirement same step)) ≡ record {
          amounts = has_input || has_output || crosses step;
          recipients = has_output;
          senders = has_input;
          linked_addresses = has_input && several same step.transparent_inputs;
        }
  unfolding reveals required_or_full step_privacy_requirement
  step_reveals step =
      rw (sym (crossed_into-crosses step), sym (collect_set-several step.transparent_inputs))
        (ground arith)
