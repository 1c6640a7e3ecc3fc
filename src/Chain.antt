-- ===== src/Chain.antt =====
-- The consensus rules of the full node against those of this build: the check at startup, of
-- zallet-core/src/components/chain.rs.
pub mod Agree
pub mod Check
pub mod Verdict
pub mod Tests
use Prim.Native.String.{String}
use wallet.Sync.Ledger.{ChainError}
use wallet.Prelude.{
  ℕ, ltb, leb, ◌==◌, min, Bool, true, false, not, Option, none, some, List, [], ◌∷◌, ◌++◌, map,
  keep, if◌then◌else◌, Result, ok, err, ◌>>=◌,
}

pub data UpgradeStatus : Type 0 where
  active disabled pending : UpgradeStatus

pub record ReportedUpgrade : Type 0 where
  pub branch_id : ℕ
  pub name : String
  pub activation_height : ℕ
  pub status : UpgradeStatus

pub data Incompatibility : Type 0 where
  unknown_upgrade : (branch_id : ℕ) (name : String) (activation_height : ℕ) → Incompatibility
  activation_height_mismatch :
      (branch_id : ℕ) (name : String) (expected at_node : Option ℕ) (divergence : ℕ)
      → Incompatibility

unfoldable pub divergence_height : Incompatibility → ℕ
divergence_height (unknown_upgrade branch_id name activation_height) = activation_height
divergence_height (activation_height_mismatch branch_id name expected at_node divergence) =
    divergence

unfoldable pub scheduled_by : UpgradeStatus → ℕ → Option ℕ
scheduled_by disabled height = none
scheduled_by active height = some height
scheduled_by pending height = some height

unfoldable pub node_height : Option ReportedUpgrade → Option ℕ
node_height none = none
node_height (some upgrade) = scheduled_by upgrade.status upgrade.activation_height

-- The `match (expected, node)`.
unfoldable pub first_divergence : (expected at_node : Option ℕ) → Option ℕ
first_divergence (some expected) (some at_node) =
    if expected == at_node then none else some (min expected at_node)
first_divergence (some height) none = some height
first_divergence none at_node = at_node

unfoldable pub name_or : String → Option ReportedUpgrade → String
name_or default none = default
name_or default (some upgrade) = upgrade.name

-- The `HashMap` of the reported upgrades: the last one with an ID is kept.
unfoldable pub or_else : Option ReportedUpgrade → Option ReportedUpgrade → Option ReportedUpgrade
or_else none other = other
or_else (some u) other = some u

unfoldable pub reported_as : List ReportedUpgrade → ℕ → Option ReportedUpgrade
reported_as [] branch_id = none
reported_as (u ∷ upgrades) branch_id =
    let later = reported_as upgrades branch_id in
    or_else later (if u.branch_id == branch_id then some u else none)

-- `collect::<BTreeSet<u32>>()`: increasing, each once.
unfoldable pub insert_id : ℕ → List ℕ → List ℕ
insert_id x [] = x ∷ []
insert_id x (y ∷ ys) =
    let rest = insert_id x ys in if ltb x y then x ∷ y ∷ ys else if x == y then y ∷ ys else y ∷ rest

unfoldable pub collect_ids : List ℕ → List ℕ
collect_ids [] = []
collect_ids (x ∷ xs) = insert_id x (collect_ids xs)

unfoldable pub push_some : Option Incompatibility → List Incompatibility → List Incompatibility
push_some none is = is
push_some (some i) is = i ∷ is

-- What this build knows of a network: the IDs that it recognizes, with their names, the heights at
-- which it schedules them, and the IDs of `NETWORK_UPGRADES`.
pub record Schedule : Type 0 where
  pub recognizes : ℕ → Bool
  pub shown : ℕ → String
  pub height_bounds : ℕ → Option ℕ
  pub network_upgrades : List ℕ

module _ (params : Schedule) where
  unfoldable pub mismatch :
      (branch_id : ℕ) (reported : Option ReportedUpgrade) (expected at_node divergence : Option ℕ)
      → Option Incompatibility
  mismatch branch_id reported expected at_node none = none
  mismatch branch_id reported expected at_node (some divergence) = some (
      activation_height_mismatch branch_id (name_or (params.shown branch_id) reported) expected
        at_node divergence)

  unfoldable pub unknown :
      (branch_id : ℕ) (reported : Option ReportedUpgrade) (at_node : Option ℕ)
      → Option Incompatibility
  unknown branch_id reported none = none
  unknown branch_id reported (some height) =
      some (unknown_upgrade branch_id (name_or "" reported) height)

  unfoldable pub branch_incompatibility :
      (branch_id : ℕ) → Option ReportedUpgrade → Option Incompatibility
  branch_incompatibility branch_id reported =
      let at_node = node_height reported in
      let expected = params.height_bounds branch_id in
      if params.recognizes branch_id
      then mismatch branch_id reported expected at_node (first_divergence expected at_node)
      else unknown branch_id reported at_node

  unfoldable pub detect_over : List ReportedUpgrade → List ℕ → List Incompatibility
  detect_over upgrades [] = []
  detect_over upgrades (branch_id ∷ ids) =
      push_some (branch_incompatibility branch_id (reported_as upgrades branch_id))
        (detect_over upgrades ids)

  unfoldable pub detect_incompatibilities : List ReportedUpgrade → List Incompatibility
  detect_incompatibilities upgrades =
      detect_over upgrades (
        collect_ids
          (map (λ (u : ReportedUpgrade). u.branch_id) upgrades ++ params.network_upgrades))

pub data Decision : Type 0 where
  diverged : List Incompatibility → Decision
  pending_at : (height : ℕ) (upgrades : List Incompatibility) → Decision

-- The least divergence height of a list that is not empty.
unfoldable pub earliest : Incompatibility → List Incompatibility → ℕ
earliest i [] = divergence_height i
earliest i (j ∷ is) = min (divergence_height i) (earliest j is)

unfoldable pub decide_on : (height : ℕ) (in_effect later : List Incompatibility) → Decision
decide_on height [] later = pending_at height later
decide_on height (i ∷ is) later = diverged (i ∷ is)

unfoldable pub classify : Incompatibility → List Incompatibility → (tip : ℕ) → Decision
classify i is tip =
    decide_on (earliest i is) (keep (λ j. leb (divergence_height j) tip) (i ∷ is))
      (keep (λ j. not (leb (divergence_height j) tip)) (i ∷ is))

-- Why the start is refused: the node's answer failed, or the rules have diverged.
pub data StartError : Type 0 where
  chain_failed : ChainError → StartError
  incompatible_consensus : List Incompatibility → StartError

unfoldable pub outcome : Decision → Result (Option ℕ) StartError
outcome (diverged is) = err (incompatible_consensus is)
outcome (pending_at height is) = ok (some height)

unfoldable pub at_tip :
    Incompatibility → List Incompatibility → Result ℕ ChainError → Result (Option ℕ) StartError
at_tip i is (err e) = err (chain_failed e)
at_tip i is (ok tip) = outcome (classify i is tip)

unfoldable pub on_detected :
    List Incompatibility → Result ℕ ChainError → Result (Option ℕ) StartError
on_detected [] tip = ok none
on_detected (i ∷ is) tip = at_tip i is tip

-- With what the node answers for its upgrades, and for its tip when it is asked.
unfoldable pub check_consensus_compatibility :
    (params : Schedule)
    → (reported_upgrades : Result (List ReportedUpgrade) ChainError) → (tip : Result ℕ ChainError)
    → Result (Option ℕ) StartError
check_consensus_compatibility params (err e) tip = err (chain_failed e)
check_consensus_compatibility params (ok upgrades) tip =
    on_detected (detect_incompatibilities params upgrades) tip
