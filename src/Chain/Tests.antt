-- ===== src/Chain/Tests.antt =====
-- Runs of the check at startup, and its theorem at one of them.
use wallet.Prelude.{◌≡◌, refl, ◌==◌, ◌||◌, none, some, [], ◌∷◌, if◌then◌else◌, ok, err}
use wallet.Chain.{
  ReportedUpgrade, active, pending, Schedule, check_consensus_compatibility, unknown_upgrade,
  divergence_height, scheduled_by, node_height, first_divergence, name_or, or_else, reported_as,
  insert_id, collect_ids, push_some, mismatch, unknown, branch_incompatibility, detect_over,
  detect_incompatibilities, earliest, decide_on, classify, outcome, at_tip, on_detected,
  incompatible_consensus,
}
use wallet.Chain.Verdict.{IsRight, check_consensus_compatibility-IsRight}

-- This build knows the upgrade 7 from height 100, and the rules before it, of the ID 0.
abbrev knows_7 : Schedule
knows_7 = record {
  recognizes = λ id. id == 0 || id == 7;
  shown = λ _. "seven";
  height_bounds = λ id. if id == 0 then some 0 else if id == 7 then some 100 else none;
  network_upgrades = 7 ∷ [];
}

abbrev upgrade_7 : ReportedUpgrade
upgrade_7 = record { branch_id = 7; name = "seven"; activation_height = 100; status = active }

abbrev upgrade_9 : ReportedUpgrade
upgrade_9 = record { branch_id = 9; name = "nine"; activation_height = 300; status = pending }

stops_at_300 :
    check_consensus_compatibility knows_7 (ok (upgrade_7 ∷ upgrade_9 ∷ [])) (ok 200) ≡ ok (some 300)
unfolding check_consensus_compatibility divergence_height scheduled_by node_height first_divergence
    name_or or_else reported_as insert_id collect_ids push_some mismatch unknown
    branch_incompatibility detect_over detect_incompatibilities earliest decide_on classify outcome
    at_tip on_detected
stops_at_300 = refl

refuses_at_400 :
    check_consensus_compatibility knows_7 (ok (upgrade_9 ∷ upgrade_7 ∷ [])) (ok 400)
    ≡ err (incompatible_consensus (unknown_upgrade 9 "nine" 300 ∷ []))
unfolding check_consensus_compatibility divergence_height scheduled_by node_height first_divergence
    name_or or_else reported_as insert_id collect_ids push_some mismatch unknown
    branch_incompatibility detect_over detect_incompatibilities earliest decide_on classify outcome
    at_tip on_detected
refuses_at_400 = refl

check_consensus_compatibility-IsRight_example :
    IsRight knows_7
      (upgrade_7 ∷ upgrade_9 ∷ [])
      200
      (check_consensus_compatibility knows_7 (ok (upgrade_7 ∷ upgrade_9 ∷ [])) (ok 200))
check_consensus_compatibility-IsRight_example =
    check_consensus_compatibility-IsRight knows_7 (upgrade_7 ∷ upgrade_9 ∷ []) 200
