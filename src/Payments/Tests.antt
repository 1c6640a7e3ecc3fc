-- ===== src/Payments/Tests.antt =====
-- Runs of the privacy checks on small proposals, and the theorems at those inputs.

use wallet.Prelude.{ℕ, ◌==◌, ◌||◌, ◌&&◌, ◌≡◌, refl, ◌↔◌, Bool, true, false, [], ◌∷◌, some, ok, err}
use wallet.Payments.Policy.{
  allow_revealed_amounts, allow_revealed_senders, allow_linking_account_addresses, no_privacy, meet,
  is_compatible_with,
}
use wallet.Payments.Policy.Lattice.{reveals, Includes, is_compatible_with_iff}
use wallet.Payments.Proposal.{
  PoolType, transparent, shielded, sapling, orchard, Step, shielded_pool_crossed_into,
  transparent_sender, revealing_shielded_amount, step_privacy_requirement, enforce_privacy_policy,
  required_or_full, required_privacy_policy, collect_set, check_requirement,
}
use wallet.Payments.Proposal.Enforce.{enforce_iff_compatible, FirstLeak, enforce-FirstLeak}
use wallet.Prelude.{arith}
use wallet.Payments.Proposal.Reveals.{crosses, several, step_reveals}
use wallet.Payments.Limits.{
  ShieldedActionLimitExceeded, inputs, check_counts, spends, output_count,
  check_shielded_action_limits,
}
use wallet.Payments.Limits.Bound.{FirstExcess, check_limits-FirstExcess}

is_compatible_with_iff_example :
    (is_compatible_with allow_linking_account_addresses allow_revealed_senders ≡ true)
    ↔ Includes (reveals allow_linking_account_addresses) (reveals allow_revealed_senders)
is_compatible_with_iff_example =
    is_compatible_with_iff allow_linking_account_addresses allow_revealed_senders

-- Orchard notes pay a Sapling receiver.
abbrev crossing_in : PoolType → Bool
crossing_in (shielded orchard) = true
crossing_in _ = false

abbrev crossing_out : PoolType → Bool
crossing_out (shielded sapling) = true
crossing_out _ = false

abbrev crossing : Step ℕ
crossing = record {
  input_in_pool = crossing_in;
  output_in_pool = crossing_out;
  change_in_pool = λ _. false;
  transparent_inputs = [];
  note_pools = orchard ∷ orchard ∷ [];
  payment_pools = shielded sapling ∷ [];
  change_pools = [];
}

-- Two coins of one transparent address are shielded.
abbrev shielding_in : PoolType → Bool
shielding_in transparent = true
shielding_in _ = false

abbrev shielding : Step ℕ
shielding = record {
  input_in_pool = shielding_in;
  output_in_pool = λ _. false;
  change_in_pool = crossing_in;
  transparent_inputs = 7 ∷ 7 ∷ [];
  note_pools = [];
  payment_pools = [];
  change_pools = shielded orchard ∷ [];
}

crossing_needs_amounts :
    step_privacy_requirement ◌==◌ crossing
    ≡ some (allow_revealed_amounts, revealing_shielded_amount sapling)
unfolding step_privacy_requirement shielded_pool_crossed_into
crossing_needs_amounts = refl

required_for_both :
    required_privacy_policy ◌==◌ (crossing ∷ shielding ∷ []) ≡ allow_revealed_senders
unfolding required_privacy_policy step_privacy_requirement shielded_pool_crossed_into collect_set
    meet
required_for_both = refl

amounts_leak_senders :
    enforce_privacy_policy ◌==◌ (crossing ∷ shielding ∷ []) allow_revealed_amounts
    ≡ err transparent_sender
unfolding enforce_privacy_policy check_requirement step_privacy_requirement
    shielded_pool_crossed_into collect_set is_compatible_with
amounts_leak_senders = refl

enforce_iff_compatible_example :
    (enforce_privacy_policy ◌==◌ (crossing ∷ shielding ∷ []) no_privacy ≡ ok tt) ↔ (
      is_compatible_with no_privacy (required_privacy_policy ◌==◌ (crossing ∷ shielding ∷ []))
      ≡ true)
enforce_iff_compatible_example = enforce_iff_compatible ◌==◌ (crossing ∷ shielding ∷ []) no_privacy

enforce-FirstLeak_example :
    FirstLeak ◌==◌ (crossing ∷ shielding ∷ []) allow_revealed_amounts transparent_sender
enforce-FirstLeak_example =
    enforce-FirstLeak ◌==◌ (crossing ∷ shielding ∷ []) allow_revealed_amounts transparent_sender
      amounts_leak_senders

step_reveals_example :
    reveals (required_or_full (step_privacy_requirement ◌==◌ shielding)) ≡ record {
      amounts = true || false || crosses shielding;
      recipients = false;
      senders = true;
      linked_addresses = true && several ◌==◌ shielding.transparent_inputs;
    }
step_reveals_example = step_reveals ◌==◌ (λ a b. (λ h. ground arith, λ e. ground arith)) shielding

abbrev too_many : ShieldedActionLimitExceeded
too_many = record { pool = orchard; count = 2; kind = inputs }

two_orchard_spends : check_shielded_action_limits 1 (shielding ∷ crossing ∷ []) ≡ err too_many
unfolding check_shielded_action_limits check_counts spends output_count
two_orchard_spends = refl

check_limits-FirstExcess_example : FirstExcess 1 (shielding ∷ crossing ∷ []) too_many
check_limits-FirstExcess_example =
    check_limits-FirstExcess 1 (shielding ∷ crossing ∷ []) too_many two_orchard_spends
