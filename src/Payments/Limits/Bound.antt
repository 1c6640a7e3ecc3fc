-- ===== src/Payments/Limits/Bound.antt =====
-- What the action limit bounds, and what its error says.
use wallet.Prelude.{
  ℕ, ◌≤◌, ◌<◌, max, ◌≡◌, refl, ◌↔◌, ap, inl, inr, List, [], ◌∷◌, ◌++◌, All, ok, err, Result-cases,
  arith,
}
use wallet.Payments.Proposal.{ShieldedPool, sapling, orchard, ironwood, Step, all_shielded_pools}
use wallet.Payments.Limits.{
  Kind, inputs, outputs, actions, ShieldedActionLimitExceeded, spends, output_count, check_counts,
  check_pools, check_shielded_action_limits,
}

check_counts_iff :
    (limit : ℕ) (pool : ShieldedPool) (s o : ℕ)
    → (check_counts pool s o limit ≡ ok tt) ↔ ((s ≤ limit) × (o ≤ limit))
unfolding check_counts
check_counts_iff limit pool s o = (λ h. (ground arith, ground arith), λ h. ground arith)

-- What an error says by its kind, of the spends `s` and the outputs `o` of its pool: the count is
-- the one that alone exceeds the limit, and the larger of both where both do.
abbrev pub Explains : Kind → (count s o limit : ℕ) → Type 0
Explains inputs count s o limit = (count ≡ s) × (limit < count) × (o ≤ limit)
Explains outputs count s o limit = (count ≡ o) × (limit < count) × (s ≤ limit)
Explains actions count s o limit = (count ≡ max s o) × (limit < s) × (limit < o)

check_counts_err :
    (limit : ℕ) (pool : ShieldedPool) (s o : ℕ) (e : ShieldedActionLimitExceeded)
    → check_counts pool s o limit ≡ err e
    → (e.pool ≡ pool) × Explains e.kind e.count s o limit
unfolding check_counts
check_counts_err limit pool s o e h = (ground arith, ground arith)

module _ {Address : Type 0} (limit : ℕ) where
  -- No pool of the step has more spends or more outputs than the limit.
  abbrev pub IsWithin : Step Address → Type 0
  IsWithin step =
      (pool : ShieldedPool) → (spends step pool ≤ limit) × (output_count step pool ≤ limit)

  check_pools-IsWithin :
      (step : Step Address)
      → check_pools limit step (sapling ∷ orchard ∷ ironwood ∷ []) ≡ ok tt
      → IsWithin step
  unfolding check_pools
  check_pools-IsWithin step h sapling = (check_counts_iff limit sapling _ _).0 (ground arith)
  check_pools-IsWithin step h orchard = (check_counts_iff limit orchard _ _).0 (ground arith)
  check_pools-IsWithin step h ironwood = (check_counts_iff limit ironwood _ _).0 (ground arith)

  IsWithin-check_pools :
      (step : Step Address)
      → IsWithin step
      → check_pools limit step (sapling ∷ orchard ∷ ironwood ∷ []) ≡ ok tt
  unfolding check_pools
  IsWithin-check_pools step w = rw (
    (check_counts_iff limit sapling _ _).1 (w sapling),
    (check_counts_iff limit orchard _ _).1 (w orchard),
    (check_counts_iff limit ironwood _ _).1 (w ironwood),
  )

  pub check_limits_iff :
      (steps : List (Step Address))
      → (check_shielded_action_limits limit steps ≡ ok tt) ↔ All IsWithin steps
  unfolding check_shielded_action_limits
  check_limits_iff [] = (λ _. tt, λ _. refl)
  check_limits_iff (step ∷ steps) =
      let rest = check_limits_iff steps in
      (
        λ h. (check_pools-IsWithin step (ground arith), rest.0 (ground arith)),
        λ h. rw (IsWithin-check_pools step h.0) (rest.1 h.1),
      )

  -- The step that an error is about: all before it pass, and the error's pool exceeds the limit
  -- there as its kind says.
  pub record FirstExcess (steps : List (Step Address)) (e : ShieldedActionLimitExceeded)
      : Type 0 where
    pub before : List (Step Address)
    pub step : Step Address
    pub after : List (Step Address)
    pub split : steps ≡ before ++ step ∷ after
    pub passed : check_shielded_action_limits limit before ≡ ok tt
    pub explained : Explains e.kind e.count (spends step e.pool) (output_count step e.pool) limit

  check_pools_err :
      (step : Step Address) (pools : List ShieldedPool) (e : ShieldedActionLimitExceeded)
      → check_pools limit step pools ≡ err e
      → Explains e.kind e.count (spends step e.pool) (output_count step e.pool) limit
  unfolding check_pools
  check_pools_err step [] e h = cc
  check_pools_err step (pool ∷ pools) e h =
      elim (Result-cases (check_counts pool (spends step pool) (output_count step pool) limit)) [
        | inl (_, passes) ↦ check_pools_err step pools e (ground arith)
        | inr (e', fails) ↦
            let (here, explained) =
              check_counts_err limit pool (spends step pool) (output_count step pool) e
                (ground arith) in
            rw here explained
      ]

  -- An error names a pool of the first step that exceeds the limit, with the count that does.
  pub check_limits-FirstExcess :
      (steps : List (Step Address)) (e : ShieldedActionLimitExceeded)
      → check_shielded_action_limits limit steps ≡ err e
      → FirstExcess steps e
  unfolding check_shielded_action_limits
  check_limits-FirstExcess [] e h = cc
  check_limits-FirstExcess (step ∷ steps) e h =
      elim (Result-cases (check_pools limit step all_shielded_pools)) [
        | inl (_, passes) ↦
            let f = check_limits-FirstExcess steps e (ground arith) in
            record {
              before = step ∷ f.before;
              step = f.step;
              after = f.after;
              split = ap (λ l. step ∷ l) f.split;
              passed = rw passes f.passed;
              explained = f.explained;
            }
        | inr (e', fails) ↦ record {
          before = [];
          step = step;
          after = steps;
          split = refl;
          passed = refl;
          explained = check_pools_err step all_shielded_pools e (ground arith);
        }
      ]
