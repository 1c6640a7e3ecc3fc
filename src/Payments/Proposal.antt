-- ===== src/Payments/Proposal.antt =====
-- The privacy checks of payments.rs on a proposal's steps. A step is a value of
-- `zcash_client_backend`; it stands here as the answers that its methods give, all of them free.
pub mod Enforce
pub mod Reveals
use mathlib.Core.Option
use wallet.Prelude.{
  ltb, Bool, true, false, ◌||◌, ◌&&◌, not, Option, none, some, List, [], ◌∷◌, keep, find, any,
  length, if◌then◌else◌, Result, ok, err,
}
use wallet.Payments.Policy.{PrivacyPolicy, meet, is_compatible_with}

pub data ShieldedPool : Type 0 where
  sapling orchard ironwood : ShieldedPool

unfoldable pub same_pool : ShieldedPool → ShieldedPool → Bool
same_pool sapling sapling = true
same_pool orchard orchard = true
same_pool ironwood ironwood = true
same_pool _ _ = false

pub data PoolType : Type 0 where
  transparent : PoolType
  shielded : ShieldedPool → PoolType

-- What the checks ask of `Step<NoteRef>`: which pools its inputs, payments and change are in, the
-- addresses of its transparent inputs, and the pool of each note, payment and change output.
pub record Step (Address : Type 0) : Type 0 where
  pub input_in_pool : PoolType → Bool
  pub output_in_pool : PoolType → Bool
  pub change_in_pool : PoolType → Bool
  pub transparent_inputs : List Address
  pub note_pools : List ShieldedPool
  pub payment_pools : List PoolType
  pub change_pools : List PoolType

pub data IncompatiblePrivacyPolicy : Type 0 where
  no_privacy linking_account_addresses fully_transparent : IncompatiblePrivacyPolicy
  transparent_sender transparent_recipient transparent_change : IncompatiblePrivacyPolicy
  transparent_receiver : IncompatiblePrivacyPolicy
  revealing_shielded_amount : ShieldedPool → IncompatiblePrivacyPolicy
  revealing_receiver_amounts : IncompatiblePrivacyPolicy

abbrev pub all_shielded_pools : List ShieldedPool
all_shielded_pools = sapling ∷ orchard ∷ ironwood ∷ []

module _ {Address : Type 0} where
  unfoldable pub shielded_pool_crossed_into : Step Address → Option ShieldedPool
  unfolding same_pool
  shielded_pool_crossed_into step =
      let input_pools = keep (λ pool. step.input_in_pool (shielded pool)) all_shielded_pools in
      find
        (λ pool.
          (step.output_in_pool (shielded pool) || step.change_in_pool (shielded pool))
          && any (λ input_pool. not (same_pool input_pool pool)) input_pools)
        all_shielded_pools

-- One round of the loop of `enforce_privacy_policy`: the `if let … && …` of its body.
unfoldable pub check_requirement :
    PrivacyPolicy
    → Option (PrivacyPolicy × IncompatiblePrivacyPolicy)
    → Result (Unit {0}) IncompatiblePrivacyPolicy
check_requirement privacy_policy none = ok tt
check_requirement privacy_policy (some (required, incompatible)) =
    if is_compatible_with privacy_policy required then ok tt else err incompatible

-- The `map_or` of `required_privacy_policy`.
unfoldable pub required_or_full : Option (PrivacyPolicy × IncompatiblePrivacyPolicy) → PrivacyPolicy
required_or_full none = PrivacyPolicy.full_privacy
required_or_full (some (required, _)) = required

module _ {Address : Type 0} (same : Address → Address → Bool) where
  -- `collect::<HashSet<_>>()`: every address once.
  unfoldable pub collect_set : List Address → List Address
  collect_set [] = []
  collect_set (a ∷ rest) = let set = collect_set rest in if any (same a) set then set else a ∷ set

  unfoldable pub step_privacy_requirement :
      Step Address → Option (PrivacyPolicy × IncompatiblePrivacyPolicy)
  step_privacy_requirement step =
      let has_transparent_recipient = step.output_in_pool transparent in
      let has_transparent_change = step.change_in_pool transparent in
      if step.input_in_pool transparent
      then if ltb 1 (length (collect_set step.transparent_inputs))
        then if has_transparent_recipient || has_transparent_change
          then some (PrivacyPolicy.no_privacy, IncompatiblePrivacyPolicy.no_privacy)
          else some (PrivacyPolicy.allow_linking_account_addresses, linking_account_addresses)
        else if has_transparent_recipient || has_transparent_change
        then some (PrivacyPolicy.allow_fully_transparent, fully_transparent)
        else some (PrivacyPolicy.allow_revealed_senders, transparent_sender)
      else if has_transparent_recipient
      then some (PrivacyPolicy.allow_revealed_recipients, transparent_recipient)
      else if has_transparent_change
      then some (PrivacyPolicy.allow_revealed_recipients, transparent_change)
      else Option.map
          (λ pool. (PrivacyPolicy.allow_revealed_amounts, revealing_shielded_amount pool))
          (shielded_pool_crossed_into step)

  unfoldable pub enforce_privacy_policy :
      List (Step Address) → PrivacyPolicy → Result (Unit {0}) IncompatiblePrivacyPolicy
  enforce_privacy_policy [] privacy_policy = ok tt
  enforce_privacy_policy (step ∷ steps) privacy_policy =
      let rest = enforce_privacy_policy steps privacy_policy in
      elim (check_requirement privacy_policy (step_privacy_requirement step)) [
        | ok _ ↦ rest
        | err e ↦ err e
      ]

  -- The `fold` of `required_privacy_policy`, from the running policy.
  unfoldable pub required_from : PrivacyPolicy → List (Step Address) → PrivacyPolicy
  required_from required [] = required
  required_from required (step ∷ steps) =
      required_from (meet required (required_or_full (step_privacy_requirement step))) steps

  unfoldable pub required_privacy_policy : List (Step Address) → PrivacyPolicy
  unfolding required_from required_or_full
  required_privacy_policy steps = required_from PrivacyPolicy.full_privacy steps
