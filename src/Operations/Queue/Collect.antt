-- ===== src/Operations/Queue/Collect.antt =====
-- What `z_getoperationresult` returns and what it leaves in the queue.
use wallet.Prelude.{
  ℕ, ◌≡◌, refl, sym, ap, subst, Bool, true, false, not, ◌&&◌, List, [], ◌∷◌, map, keep, contains,
  Bool-cases, inl, inr, arith,
}
use wallet.Operations.State.{AsyncOperation, SystemTime, to_status}
use wallet.Operations.Queue.{op_finished, collect, collect_finished}

module _ {Value : Type 0} where
  abbrev pub ids : List (AsyncOperation Value) → List ℕ
  ids [] = []
  ids (op ∷ ops) = op.operation_id ∷ ids ops

  -- No two operations have one ID.
  abbrev pub IsDistinct : List (AsyncOperation Value) → Type 0
  IsDistinct [] = Unit
  IsDistinct (op ∷ ops) = (contains (ids ops) op.operation_id ≡ false) × IsDistinct ops

  module _ (epoch : SystemTime) (filter : AsyncOperation Value → Bool) where
    -- The operations that a call collects.
    abbrev pub collected : AsyncOperation Value → Bool
    collected op = filter op && op_finished op

    collect_lem :
        (ops : List (AsyncOperation Value))
        → collect epoch filter ops
          ≡ (map (to_status epoch) (keep collected ops), ids (keep collected ops))
    unfolding collect
    collect_lem [] = refl
    collect_lem (op ∷ ops) = elim (Bool-cases (collected op)) [
      | inl y ↦ rw (collect_lem ops, y) refl
      | inr n ↦ rw (collect_lem ops, n) refl
    ]

  contains-keep-false :
      (test : AsyncOperation Value → Bool) (k : ℕ) (ops : List (AsyncOperation Value))
      → contains (ids ops) k ≡ false
      → contains (ids (keep test ops)) k ≡ false
  contains-keep-false test k [] h = refl
  contains-keep-false test k (op ∷ ops) h = ground (arith, contains-keep-false test k ops)

  keep_absent :
      (k : ℕ) (removed : List ℕ) (ops : List (AsyncOperation Value))
      → contains (ids ops) k ≡ false
      → keep (λ op. not (contains (k ∷ removed) op.operation_id)) ops
        ≡ keep (λ op. not (contains removed op.operation_id)) ops
  keep_absent k removed [] h = refl
  keep_absent k removed (op ∷ ops) h = ground (arith, keep_absent k removed ops)

  module _ (test : AsyncOperation Value → Bool) where
    abbrev left_by : List ℕ → List (AsyncOperation Value) → List (AsyncOperation Value)
    left_by removed ops = keep (λ op. not (contains removed op.operation_id)) ops

    left_by-cons_yes :
        (removed : List ℕ) (op : AsyncOperation Value) (ops : List (AsyncOperation Value))
        → test op ≡ true
        → contains (ids ops) op.operation_id ≡ false
        → left_by removed ops ≡ keep (λ o. not (test o)) ops
        → left_by (op.operation_id ∷ removed) (op ∷ ops) ≡ keep (λ o. not (test o)) (op ∷ ops)
    left_by-cons_yes removed op ops y new ih =
        ground (arith, keep_absent op.operation_id removed ops new)

    left_by-cons_no :
        (removed : List ℕ) (op : AsyncOperation Value) (ops : List (AsyncOperation Value))
        → test op ≡ false
        → contains removed op.operation_id ≡ false
        → left_by removed ops ≡ keep (λ o. not (test o)) ops
        → left_by removed (op ∷ ops) ≡ keep (λ o. not (test o)) (op ∷ ops)
    left_by-cons_no removed op ops n new ih = ground arith

    keep_others :
        (ops : List (AsyncOperation Value))
        → IsDistinct ops
        → left_by (ids (keep test ops)) ops ≡ keep (λ op. not (test op)) ops
    keep_others [] d = refl
    keep_others (op ∷ ops) (new, d) = elim (Bool-cases (test op)) [
      | inl y ↦
          let e : ids (keep test (op ∷ ops)) ≡ op.operation_id ∷ ids (keep test ops) = rw y in
          subst (λ r. left_by r (op ∷ ops) ≡ keep (λ o. not (test o)) (op ∷ ops)) (sym e)
            (left_by-cons_yes (ids (keep test ops)) op ops y new (keep_others ops d))
      | inr n ↦
          let e : ids (keep test (op ∷ ops)) ≡ ids (keep test ops) = rw n in
          subst (λ r. left_by r (op ∷ ops) ≡ keep (λ o. not (test o)) (op ∷ ops)) (sym e)
            (left_by-cons_no (ids (keep test ops)) op ops n
              (contains-keep-false test op.operation_id ops new) (keep_others ops d))
    ]

  -- In a queue with distinct IDs a call returns the statuses of exactly the finished operations
  -- that its filter takes, in the queue's order, and leaves exactly the others, in their order: no
  -- result is lost, and none can be collected twice.
  pub collect_finished_lem :
      (epoch : SystemTime) (filter : AsyncOperation Value → Bool)
      (ops : List (AsyncOperation Value))
      → IsDistinct ops
      → collect_finished epoch filter ops ≡ (
        map (to_status epoch) (keep (λ op. filter op && op_finished op) ops),
        keep (λ op. not (filter op && op_finished op)) ops,
      )
  unfolding collect_finished
  collect_finished_lem epoch filter ops d = rw (collect_lem epoch filter ops) (
      ap (λ left. (map (to_status epoch) (keep (collected epoch filter) ops), left))
        (keep_others (collected epoch filter) ops d))
