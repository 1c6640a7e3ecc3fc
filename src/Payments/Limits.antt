-- ===== src/Payments/Limits.antt =====
-- `check_shielded_action_limits` of payments.rs.
pub mod Bound
use wallet.Prelude.{
  ℕ, ◌+◌, max, leb, ltb, List, [], ◌∷◌, keep, length, if◌then◌else◌, Result, ok, err, ◌>>◌, Bool,
  false,
}
use wallet.Payments.Proposal.{
  ShieldedPool, PoolType, transparent, shielded, same_pool, Step, all_shielded_pools,
}

pub data Kind : Type 0 where
  inputs outputs actions : Kind

pub record ShieldedActionLimitExceeded : Type 0 where
  pub pool : ShieldedPool
  pub count : ℕ
  pub kind : Kind

-- `pool_type == PoolType::Shielded(pool)`.
unfoldable pub is_shielded : ShieldedPool → PoolType → Bool
unfolding same_pool
is_shielded pool transparent = false
is_shielded pool (shielded p) = same_pool p pool

module _ {Address : Type 0} where
  unfoldable pub spends : Step Address → ShieldedPool → ℕ
  unfolding same_pool
  spends step pool = length (keep (λ note. same_pool note pool) step.note_pools)

  unfoldable pub output_count : Step Address → ShieldedPool → ℕ
  unfolding is_shielded
  output_count step pool =
      length (keep (is_shielded pool) step.payment_pools)
      + length (keep (is_shielded pool) step.change_pools)

-- The body of the inner loop, from the two counts.
unfoldable pub check_counts :
    ShieldedPool → (spends outputs limit : ℕ) → Result (Unit {0}) ShieldedActionLimitExceeded
check_counts pool spends outputs' limit =
    if ltb limit (max spends outputs')
    then if leb outputs' limit
      then err (record { pool = pool; count = spends; kind = inputs })
      else if leb spends limit
      then err (record { pool = pool; count = outputs'; kind = outputs })
      else err (record { pool = pool; count = max spends outputs'; kind = actions })
    else ok tt

module _ {Address : Type 0} (limit : ℕ) where
  unfoldable pub check_pools :
      Step Address → List ShieldedPool → Result (Unit {0}) ShieldedActionLimitExceeded
  check_pools step [] = ok tt
  check_pools step (pool ∷ pools) =
      check_counts pool (spends step pool) (output_count step pool) limit >> check_pools step pools

  unfoldable pub check_shielded_action_limits :
      List (Step Address) → Result (Unit {0}) ShieldedActionLimitExceeded
  unfolding check_pools
  check_shielded_action_limits [] = ok tt
  check_shielded_action_limits (step ∷ steps) =
      check_pools step all_shielded_pools >> check_shielded_action_limits steps
