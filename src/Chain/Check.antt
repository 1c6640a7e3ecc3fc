-- ===== src/Chain/Check.antt =====
-- What the incompatibilities that the check at startup detects are.
use mathlib.Core.List.{Memᴰ}
use wallet.Prelude.{
  ℕ, ◌<◌, ◌≤◌, ◌≡◌, refl, ◌≢◌, inl, inr, ltb, ◌==◌, Bool, Option, none, some, List, [], ◌∷◌, ◌++◌,
  map, arith, Option-cases, Bool-cases, lt-cases, ap, sym, ◌∙◌,
}
use wallet.Chain.{
  ReportedUpgrade, Incompatibility, divergence_height, node_height, reported_as, insert_id,
  collect_ids, push_some, Schedule, branch_incompatibility, detect_over, detect_incompatibilities,
  earliest,
}
use wallet.Chain.Agree.{in_force, expected_height, branch-none, branch-some}

insert_id-self : (x : ℕ) (ys : List ℕ) → Memᴰ x (insert_id x ys)
unfolding insert_id
insert_id-self x [] = Memᴰ.head refl
insert_id-self x (y ∷ ys) = elim (Bool-cases (ltb x y)) [
  | inl l ↦ rw l (Memᴰ.head refl)
  | inr g ↦ elim (Bool-cases (x == y)) [
    | inl e ↦ rw (g, e) (Memᴰ.head (ground arith))
    | inr n ↦ rw (g, n) (Memᴰ.tail (insert_id-self x ys))
  ]
]

insert_id-keeps : (x z : ℕ) (ys : List ℕ) → Memᴰ z ys → Memᴰ z (insert_id x ys)
unfolding insert_id
insert_id-keeps x z [] m = elim m [ ]
insert_id-keeps x z (y ∷ ys) (Memᴰ.head h) = elim (Bool-cases (ltb x y)) [
  | inl l ↦ rw l (Memᴰ.tail (Memᴰ.head h))
  | inr g ↦ elim (Bool-cases (x == y)) [
    | inl e ↦ rw (g, e) (Memᴰ.head h)
    | inr n ↦ rw (g, n) (Memᴰ.head h)
  ]
]
insert_id-keeps x z (y ∷ ys) (Memᴰ.tail m) =
    let onward = insert_id-keeps x z ys m in
    elim (Bool-cases (ltb x y)) [
      | inl l ↦ rw l (Memᴰ.tail (Memᴰ.tail m))
      | inr g ↦ elim (Bool-cases (x == y)) [
        | inl e ↦ rw (g, e) (Memᴰ.tail m)
        | inr n ↦ rw (g, n) (Memᴰ.tail onward)
      ]
    ]

insert_id-Memᴰ : (x z : ℕ) (ys : List ℕ) → Memᴰ z (insert_id x ys) → Memᴰ z (x ∷ ys)
unfolding insert_id
insert_id-Memᴰ x z [] m = m
insert_id-Memᴰ x z (y ∷ ys) m = elim (Bool-cases (ltb x y)) [
  | inl l ↦ rw l at m
  | inr g ↦ elim (Bool-cases (x == y)) [
    | inl e ↦ Memᴰ.tail (rw (g, e) at m)
    | inr n ↦ go (insert_id-Memᴰ x z ys) (rw (g, n) at m)
  ]
]
  where
    later : Memᴰ z (x ∷ ys) → Memᴰ z (x ∷ y ∷ ys)
    later (Memᴰ.head e) = Memᴰ.head e
    later (Memᴰ.tail m) = Memᴰ.tail (Memᴰ.tail m)

    go :
        (Memᴰ z (insert_id x ys) → Memᴰ z (x ∷ ys))
        → Memᴰ z (y ∷ insert_id x ys)
        → Memᴰ z (x ∷ y ∷ ys)
    go back (Memᴰ.head e) = Memᴰ.tail (Memᴰ.head e)
    go back (Memᴰ.tail m) = later (back m)

Memᴰ-collect_ids : (z : ℕ) (xs : List ℕ) → Memᴰ z (collect_ids xs) → Memᴰ z xs
unfolding collect_ids
Memᴰ-collect_ids z [] m = m
Memᴰ-collect_ids z (x ∷ xs) m = go (Memᴰ-collect_ids z xs) (insert_id-Memᴰ x z (collect_ids xs) m)
  where
    go : (Memᴰ z (collect_ids xs) → Memᴰ z xs) → Memᴰ z (x ∷ collect_ids xs) → Memᴰ z (x ∷ xs)
    go back (Memᴰ.head e) = Memᴰ.head e
    go back (Memᴰ.tail m) = Memᴰ.tail (back m)

collect_ids-Memᴰ : (z : ℕ) (xs : List ℕ) → Memᴰ z xs → Memᴰ z (collect_ids xs)
unfolding collect_ids
collect_ids-Memᴰ z [] m = elim m [ ]
collect_ids-Memᴰ z (x ∷ xs) (Memᴰ.head e) = rw e (insert_id-self x (collect_ids xs))
collect_ids-Memᴰ z (x ∷ xs) (Memᴰ.tail m) =
    insert_id-keeps x z (collect_ids xs) (collect_ids-Memᴰ z xs m)

pub earliest-le :
    (i : Incompatibility) (is : List Incompatibility) (j : Incompatibility)
    → Memᴰ j (i ∷ is)
    → earliest i is ≤ divergence_height j
unfolding earliest
earliest-le i [] j (Memᴰ.head e) = rw e (omega arith)
earliest-le i [] j (Memᴰ.tail m) = elim m [ ]
earliest-le i (k ∷ is) j (Memᴰ.head e) = rw e (omega arith)
earliest-le i (k ∷ is) j (Memᴰ.tail m) = omega (arith, earliest-le k is j m)

pub earliest-Memᴰ :
    (i : Incompatibility) (is : List Incompatibility)
    → (j : Incompatibility) × Memᴰ j (i ∷ is) × (earliest i is ≡ divergence_height j)
unfolding earliest
earliest-Memᴰ i [] = (i, Memᴰ.head refl, refl)
earliest-Memᴰ i (k ∷ is) =
    let (j, m, e) = earliest-Memᴰ k is in
    elim (lt-cases (divergence_height i) (earliest k is)) [
      | inl l ↦ (i, Memᴰ.head refl, omega arith)
      | inr g ↦ (j, Memᴰ.tail m, omega arith)
    ]

module _ (params : Schedule) (upgrades : List ReportedUpgrade) where
  -- Whether the node, and whether this build, follow the rules of an upgrade at a height.
  abbrev pub node_follows : (branch_id h : ℕ) → Bool
  node_follows branch_id h = in_force (node_height (reported_as upgrades branch_id)) h

  abbrev pub build_follows : (branch_id h : ℕ) → Bool
  build_follows branch_id h = in_force (expected_height params branch_id) h

  -- The upgrades that are compared: those that the node reports, and `NETWORK_UPGRADES`, which leaves
  -- out Sprout, the rules before the first upgrade, and the experimental ZFuture.
  abbrev pub IsCompared : ℕ → Type 0
  IsCompared branch_id =
      Memᴰ branch_id
        (map (λ (u : ReportedUpgrade). u.branch_id) upgrades ++ params.network_upgrades)

  abbrev pub Agrees : ℕ → Type 0
  Agrees h =
      (branch_id : ℕ) → IsCompared branch_id → node_follows branch_id h ≡ build_follows branch_id h

  abbrev pub Disagrees : ℕ → Type 0
  Disagrees h =
      (branch_id : ℕ) × IsCompared branch_id
      × (node_follows branch_id h ≢ build_follows branch_id h)

  detect_over-Memᴰ :
      (branch_id : ℕ) (ids : List ℕ) (i : Incompatibility)
      → branch_incompatibility params branch_id (reported_as upgrades branch_id) ≡ some i
      → Memᴰ branch_id ids
      → Memᴰ i (detect_over params upgrades ids)
  unfolding detect_over push_some
  detect_over-Memᴰ branch_id [] i e m = elim m [ ]
  detect_over-Memᴰ branch_id (id ∷ ids) i e (Memᴰ.head h) = rw (sym h, e) (Memᴰ.head refl)
  detect_over-Memᴰ branch_id (id ∷ ids) i e (Memᴰ.tail m) =
      pushed _ (detect_over-Memᴰ branch_id ids i e m)
    where
      pushed :
          (o : Option Incompatibility)
          → Memᴰ i (detect_over params upgrades ids)
          → Memᴰ i (push_some o (detect_over params upgrades ids))
      pushed none m = m
      pushed (some j) m = Memᴰ.tail m

  Memᴰ-detect_over :
      (ids : List ℕ) (i : Incompatibility)
      → Memᴰ i (detect_over params upgrades ids)
      → (branch_id : ℕ) × Memᴰ branch_id ids
        × (branch_incompatibility params branch_id (reported_as upgrades branch_id) ≡ some i)
  unfolding detect_over push_some
  Memᴰ-detect_over [] i m = elim m [ ]
  Memᴰ-detect_over (id ∷ ids) i m = go (Memᴰ-detect_over ids i) _ refl m
    where
      Found : List ℕ → Type 0
      Found ids =
          (branch_id : ℕ) × Memᴰ branch_id ids
          × (branch_incompatibility params branch_id (reported_as upgrades branch_id) ≡ some i)

      further : Found ids → Found (id ∷ ids)
      further (branch_id, m, e) = (branch_id, Memᴰ.tail m, e)

      go :
          (Memᴰ i (detect_over params upgrades ids) → Found ids)
          → (o : Option Incompatibility)
          → branch_incompatibility params id (reported_as upgrades id) ≡ o
          → Memᴰ i (push_some o (detect_over params upgrades ids))
          → Found (id ∷ ids)
      go rest none e m = further (rest m)
      go rest (some j) e (Memᴰ.head h) = (id, Memᴰ.head refl, e ∙ ap some (sym h))
      go rest (some j) e (Memᴰ.tail m) = further (rest m)

  -- Below every detected divergence the two sides agree.
  pub Agrees-below :
      (h : ℕ)
      → ((i : Incompatibility)
          → Memᴰ i (detect_incompatibilities params upgrades)
          → h < divergence_height i)
      → Agrees h
  unfolding detect_incompatibilities
  Agrees-below h below branch_id compared =
      elim (Option-cases
        (branch_incompatibility params branch_id (reported_as upgrades branch_id))) [
          | inl n ↦ branch-none params branch_id (reported_as upgrades branch_id) h n
          | inr (i, e) ↦
              (branch-some params branch_id (reported_as upgrades branch_id) i e).0 h
                (below i (detect_over-Memᴰ branch_id _ i e (collect_ids-Memᴰ branch_id _ compared)))
        ]

  -- At each detected divergence they disagree.
  pub Disagrees-at :
      (i : Incompatibility)
      → Memᴰ i (detect_incompatibilities params upgrades)
      → Disagrees (divergence_height i)
  unfolding detect_incompatibilities
  Disagrees-at i m =
      let (branch_id, found, e) = Memᴰ-detect_over _ i m in
      (
        branch_id,
        Memᴰ-collect_ids branch_id _ found,
        (branch-some params branch_id (reported_as upgrades branch_id) i e).1,
      )
