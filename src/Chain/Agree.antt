-- ===== src/Chain/Agree.antt =====
-- Where the rules of one upgrade agree on the two sides.
use wallet.Prelude.{
  ℕ, ◌<◌, ◌≡◌, refl, ◌≢◌, leb, Bool, true, false, Option, none, some, if◌then◌else◌, arith,
  leb-eq-false, ap,
}
use wallet.Chain.{
  ReportedUpgrade, Incompatibility, divergence_height, node_height, first_divergence, Schedule,
  mismatch, unknown, branch_incompatibility,
}

-- Whether the rules of an upgrade scheduled at a height, if any, are in force.
abbrev pub in_force : Option ℕ → ℕ → Bool
in_force none h = false
in_force (some activation) h = leb activation h

first_divergence-none :
    (expected at_node : Option ℕ) (h : ℕ)
    → first_divergence expected at_node ≡ none
    → in_force at_node h ≡ in_force expected h
unfolding first_divergence
first_divergence-none none at_node h e = ground arith
first_divergence-none (some a) none h e = cc
first_divergence-none (some a) (some b) h e = ground arith

first_divergence-before :
    (expected at_node : Option ℕ) (d h : ℕ)
    → first_divergence expected at_node ≡ some d
    → h < d
    → in_force at_node h ≡ in_force expected h
unfolding first_divergence
first_divergence-before none at_node d h e l = ground arith
first_divergence-before (some a) none d h e l = ground arith
first_divergence-before (some a) (some b) d h e l = ground arith

first_divergence-at :
    (expected at_node : Option ℕ) (d : ℕ)
    → first_divergence expected at_node ≡ some d
    → in_force at_node d ≢ in_force expected d
unfolding first_divergence
first_divergence-at none at_node d e = ground arith
first_divergence-at (some a) none d e = ground arith
first_divergence-at (some a) (some b) d e = ground arith

leb_self : (d : ℕ) → leb d d ≢ false
leb_self d e = ground arith

module _ (params : Schedule) where
  -- The height at which this build schedules an upgrade, if it recognizes it.
  abbrev pub expected_height : ℕ → Option ℕ
  expected_height branch_id =
      if params.recognizes branch_id then params.height_bounds branch_id else none

  unknown-none :
      (branch_id : ℕ) (reported : Option ReportedUpgrade) (at_node : Option ℕ)
      → unknown params branch_id reported at_node ≡ none
      → at_node ≡ none
  unfolding unknown
  unknown-none branch_id reported none e = refl
  unknown-none branch_id reported (some a) e = cc

  unknown-some :
      (branch_id : ℕ) (reported : Option ReportedUpgrade) (at_node : Option ℕ) (i : Incompatibility)
      → unknown params branch_id reported at_node ≡ some i
      → at_node ≡ some (divergence_height i)
  unfolding unknown divergence_height
  unknown-some branch_id reported none i e = cc
  unknown-some branch_id reported (some a) i e = ground arith

  mismatch-none :
      (branch_id : ℕ) (reported : Option ReportedUpgrade) (expected at_node d : Option ℕ)
      → mismatch params branch_id reported expected at_node d ≡ none
      → d ≡ none
  unfolding mismatch
  mismatch-none branch_id reported expected at_node none e = refl
  mismatch-none branch_id reported expected at_node (some a) e = cc

  mismatch-some :
      (branch_id : ℕ) (reported : Option ReportedUpgrade) (expected at_node d : Option ℕ)
      (i : Incompatibility)
      → mismatch params branch_id reported expected at_node d ≡ some i
      → d ≡ some (divergence_height i)
  unfolding mismatch divergence_height
  mismatch-some branch_id reported expected at_node none i e = cc
  mismatch-some branch_id reported expected at_node (some a) i e = ground arith

  abbrev rules : Bool → ℕ → Option ReportedUpgrade → Option Incompatibility
  rules recognized branch_id reported =
      if recognized
      then mismatch params branch_id reported (params.height_bounds branch_id)
          (node_height reported)
          (first_divergence (params.height_bounds branch_id) (node_height reported))
      else unknown params branch_id reported (node_height reported)

  -- No incompatibility: the two sides agree at every height.
  pub branch-none :
      (branch_id : ℕ) (reported : Option ReportedUpgrade) (h : ℕ)
      → branch_incompatibility params branch_id reported ≡ none
      → in_force (node_height reported) h ≡ in_force (expected_height branch_id) h
  unfolding branch_incompatibility
  branch-none branch_id reported h = go (params.recognizes branch_id)
    where
      go :
          (recognized : Bool)
          → rules recognized branch_id reported ≡ none
          → in_force (node_height reported) h
            ≡ in_force (if recognized then params.height_bounds branch_id else none) h
      go true e = first_divergence-none _ _ h (
          mismatch-none branch_id reported (params.height_bounds branch_id) (node_height reported) _
            e)
      go false e = ap (λ o. in_force o h) (unknown-none branch_id reported (node_height reported) e)

  -- An incompatibility: they agree below its divergence height, and disagree there.
  pub branch-some :
      (branch_id : ℕ) (reported : Option ReportedUpgrade) (i : Incompatibility)
      → branch_incompatibility params branch_id reported ≡ some i
      → ((h : ℕ)
          → h < divergence_height i
          → in_force (node_height reported) h ≡ in_force (expected_height branch_id) h)
        × (in_force (node_height reported) (divergence_height i)
            ≢ in_force (expected_height branch_id) (divergence_height i))
  unfolding branch_incompatibility
  branch-some branch_id reported i = go (params.recognizes branch_id)
    where
      go :
          (recognized : Bool)
          → rules recognized branch_id reported ≡ some i
          → ((h : ℕ)
              → h < divergence_height i
              → in_force (node_height reported) h
                ≡ in_force (if recognized then params.height_bounds branch_id else none) h)
            × (in_force (node_height reported) (divergence_height i)
                ≢ in_force
                    (if recognized then params.height_bounds branch_id else none)
                    (divergence_height i))
      go true e =
          let d =
            mismatch-some branch_id reported (params.height_bounds branch_id) (node_height reported)
              _ i e in
          (λ h l. first_divergence-before _ _ _ h d l, first_divergence-at _ _ _ d)
      go false e =
          let d = unknown-some branch_id reported (node_height reported) i e in
          rw d ((λ h l. leb-eq-false _ h l), λ same. leb_self (divergence_height i) same)
