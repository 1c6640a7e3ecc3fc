-- ===== src/Sync/Fork/Walk.antt =====
-- The walk back to the best chain: it ends, at the first of the probed heights that settles it.
use wallet.Prelude.{
  ℕ, zero, suc, ◌-◌, ◌*◌, ◌<◌, ◌≤◌, max, ◌≡◌, refl, sym, ◌∙◌, subst, ◌⊎◌, inl, inr, true, false,
  Option, none, some, Bool-cases, Result-cases, Result, ok, err, arith,
}
use wallet.Sync.Ledger.{ChainBlock, SyncError, wallet_diverged_below_birthday, returns, ChainView}
use wallet.Sync.Fork.{
  fork_search_step, rewind_step, probe, after_probe, step_back, step_back_to_best_chain,
}

-- The height of the `k`-th probe.
abbrev pub probed : (height birthday k : ℕ) → ℕ
probed height birthday k = max (height - 10 * k) birthday

rewind_step-floor :
    (height birthday : ℕ)
    → (rewind_step height birthday).1 ≡ true
    → (k : ℕ) → 1 ≤ k
    → probed height birthday k ≡ birthday
unfolding rewind_step fork_search_step
rewind_step-floor height birthday h k l = ground arith

rewind_step-lower :
    (height birthday : ℕ)
    → (rewind_step height birthday).1 ≡ false
    → (rewind_step height birthday).0 < height
unfolding rewind_step fork_search_step
rewind_step-lower height birthday h = ground arith

rewind_step-probed :
    (height birthday k : ℕ)
    → probed (rewind_step height birthday).0 birthday k ≡ probed height birthday (suc k)
unfolding rewind_step fork_search_step
rewind_step-probed height birthday k = ground arith

rewind_step-first :
    (height birthday : ℕ) → (rewind_step height birthday).0 ≡ probed height birthday 1
unfolding rewind_step fork_search_step
rewind_step-first height birthday = refl

below_fuel : (next height fuel : ℕ) → next < height → height < suc fuel → next < fuel
below_fuel next height fuel h l = omega arith

module _ {DbError : Type 0} (view : ChainView)
    (wallet_hash : ℕ → Result (Option ℕ) (SyncError DbError)) where
  -- The first `k - 1` probes find no common block.
  abbrev pub Passed : (height birthday k : ℕ) → Type 0
  Passed height birthday k =
      (j : ℕ) → 1 ≤ j → j < k → probe view wallet_hash (probed height birthday j) ≡ ok none

  -- The probe that settles the walk is the first to answer a block or an error; when none does, the
  -- walk reports the birthday.
  abbrev pub Ends : (height birthday : ℕ) → Result ChainBlock (SyncError DbError) → Type 0
  Ends height birthday (ok block) =
      (k : ℕ) × (1 ≤ k)
      × Passed height birthday k
      × (probe view wallet_hash (probed height birthday k) ≡ ok (some block))
  Ends height birthday (err e) =
      ((k : ℕ) × (1 ≤ k)
        × Passed height birthday k
        × (probe view wallet_hash (probed height birthday k) ≡ err e))
      ⊎ ((e ≡ wallet_diverged_below_birthday birthday) × ((k : ℕ) → Passed height birthday k))

  Passed-suc :
      (height birthday k : ℕ)
      → probe view wallet_hash (rewind_step height birthday).0 ≡ ok none
      → Passed (rewind_step height birthday).0 birthday k
      → Passed height birthday (suc k)
  Passed-suc height birthday k first later zero l m = elim l [ ]
  Passed-suc height birthday k first later (suc zero) l m =
      rw (sym (rewind_step-first height birthday)) first
  Passed-suc height birthday k first later (suc (suc j)) l m =
      rw (sym (rewind_step-probed height birthday (suc j)))
        (later (suc j) (omega arith) (omega arith))

  Ends-suc :
      (height birthday : ℕ) (r : Result ChainBlock (SyncError DbError))
      → probe view wallet_hash (rewind_step height birthday).0 ≡ ok none
      → Ends (rewind_step height birthday).0 birthday r
      → Ends height birthday r
  Ends-suc height birthday (ok block) first (k, l, passed, found) = (
    suc k,
    omega arith,
    Passed-suc height birthday k first passed,
    rw (sym (rewind_step-probed height birthday k)) found,
  )
  Ends-suc height birthday (err e) first (inl (k, l, passed, found)) = inl (
    suc k,
    omega arith,
    Passed-suc height birthday k first passed,
    rw (sym (rewind_step-probed height birthday k)) found,
  )
  Ends-suc height birthday (err e) first (inr (report, passed)) =
      inr (report, λ k j l m. Passed-suc height birthday k first (passed k) j l (omega arith))

  step_back-suc :
      (fuel height birthday : ℕ)
      → step_back view wallet_hash (suc fuel) height birthday
        ≡ after_probe birthday
            (rewind_step height birthday).1
            (probe view wallet_hash (rewind_step height birthday).0)
            (step_back view wallet_hash fuel (rewind_step height birthday).0 birthday)
  unfolding step_back
  step_back-suc fuel height birthday = refl

  none-Passed : (height birthday : ℕ) → Passed height birthday 1
  none-Passed height birthday j l m = absurd (omega arith)

  all-Passed :
      (height birthday : ℕ)
      → (rewind_step height birthday).1 ≡ true
      → probe view wallet_hash (rewind_step height birthday).0 ≡ ok none
      → (k : ℕ) → Passed height birthday k
  all-Passed height birthday reached p k j l m =
      rw (rewind_step-floor height birthday reached j l) (
        subst (λ x. probe view wallet_hash x ≡ ok none)
          (rewind_step-first height birthday
            ∙ rewind_step-floor height birthday reached 1 (omega arith))
          p)

  -- With more fuel than the height, the walk returns, and it ends as `Ends` says.
  step_back-Ends :
      (fuel height birthday : ℕ)
      → height < fuel
      → (r : Result ChainBlock (SyncError DbError)) × (step_back view wallet_hash fuel height
            birthday
          ≡ returns r)
        × Ends height birthday r
  unfolding after_probe
  step_back-Ends zero height birthday l = absurd (omega arith)
  step_back-Ends (suc fuel) height birthday l =
      let onward = step_back-Ends fuel (rewind_step height birthday).0 birthday in
      let first = rewind_step-first height birthday in
      rw (step_back-suc fuel height birthday)
        (elim (Result-cases (probe view wallet_hash (rewind_step height birthday).0)) [
          | inr (e, p) ↦ (
            err e,
            rw p refl,
            inl (1, omega arith, none-Passed height birthday, rw (sym first) p),
          )
          | inl (none, p) ↦ elim (Bool-cases (rewind_step height birthday).1) [
            | inl reached ↦ (
              err (wallet_diverged_below_birthday birthday),
              rw (p, reached) refl,
              inr (refl, all-Passed height birthday reached p),
            )
            | inr higher ↦
                let (r, walked, ends) = onward (
                  below_fuel (rewind_step height birthday).0 height fuel
                    (rewind_step-lower height birthday higher) l) in
                (r, rw (p, higher) walked, Ends-suc height birthday r p ends)
          ]
          | inl (some block, p) ↦
              (ok block, rw p refl, (1, omega arith, none-Passed height birthday, rw (sym first) p))
        ])

  -- The walk back to the best chain always returns: a block or an error from the first probe that
  -- answers one, the earlier probes answering no common block, or the report of the birthday when no
  -- probe does. The `k`-th probe is at 10 k blocks below the start, or at the birthday if that is higher.
  pub step_back_to_best_chain-Ends :
      (prev_tip : ChainBlock) (birthday : ℕ)
      → (r : Result ChainBlock (SyncError DbError)) × (step_back_to_best_chain view wallet_hash
            prev_tip birthday
          ≡ returns r)
        × Ends prev_tip.height birthday r
  unfolding step_back_to_best_chain
  step_back_to_best_chain-Ends prev_tip birthday =
      step_back-Ends (suc prev_tip.height) prev_tip.height birthday (omega arith)
