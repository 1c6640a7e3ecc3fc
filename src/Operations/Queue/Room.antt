-- ===== src/Operations/Queue/Room.antt =====
-- When an insertion is refused, and what it evicts.
use wallet.Prelude.{
  ℕ, zero, suc, ◌+◌, ◌-◌, ◌≤◌, ◌<◌, min, leb, ◌≡◌, refl, ap, subst, ◌↔◌, inl, inr, Bool, true,
  false, not, List, [], ◌∷◌, ◌++◌, keep, length, contains, length-append, ok, err, >>=-eq-ok,
  ok_injective, Bool-cases, arith,
}
use wallet.Operations.State.{AsyncOperation}
use wallet.Operations.Queue.{
  full_error, finished_ids, any_finished, evict, make_room, insert, check_capacity,
}

module _ {Value : Type 0} where
  abbrev pub evictable : List ℕ → AsyncOperation Value → Bool
  evictable finished op = contains finished op.operation_id

  -- How many operations of the queue are in the snapshot, and how many are not.
  abbrev pub evictable_count : List ℕ → List (AsyncOperation Value) → ℕ
  evictable_count finished ops = length (keep (evictable finished) ops)

  abbrev pub unfinished_count : List ℕ → List (AsyncOperation Value) → ℕ
  unfinished_count finished ops = length (keep (λ op. not (evictable finished op)) ops)

  counts_add :
      (finished : List ℕ) (ops : List (AsyncOperation Value))
      → evictable_count finished ops + unfinished_count finished ops ≡ length ops
  counts_add finished [] = refl
  counts_add finished (op ∷ ops) = ground (arith, counts_add finished ops)

  length-evict :
      (k : ℕ) (finished : List ℕ) (ops : List (AsyncOperation Value))
      → length (evict k finished ops) + min k (evictable_count finished ops) ≡ length ops
  unfolding evict
  length-evict k finished [] = omega arith
  length-evict k finished (op ∷ ops) =
      ground (arith, length-evict (k - 1) finished ops, length-evict k finished ops)

  -- An insertion is refused exactly when as many operations as the limit are not known to be
  -- finished; the refusal is then the queue's "too many pending operations" error.
  pub insert_err_iff :
      (limit : ℕ) (finished : List ℕ) (op : AsyncOperation Value)
      (ops : List (AsyncOperation Value))
      → (insert limit finished op ops ≡ err full_error) ↔ (limit ≤ unfinished_count finished ops)
  unfolding insert make_room
  insert_err_iff limit finished op ops = (
    λ h.
        ground (arith, counts_add finished ops, length-evict (length ops + 1 - limit) finished ops),
    λ h.
        ground (arith, counts_add finished ops, length-evict (length ops + 1 - limit) finished ops),
  )

  -- The oldest `count` evictable operations of `ops` are gone from `rest`, and all else stands in
  -- its order: up to some place every evictable operation is gone, and after it none is.
  pub record EvictsOldest (finished : List ℕ) (count : ℕ) (ops rest : List (AsyncOperation Value))
      : Type 0 where
    pub before : List (AsyncOperation Value)
    pub after : List (AsyncOperation Value)
    pub split : ops ≡ before ++ after
    pub left : rest ≡ keep (λ op. not (evictable finished op)) before ++ after
    pub evicted : evictable_count finished before ≡ count

  evict_zero : (finished : List ℕ) (ops : List (AsyncOperation Value)) → evict 0 finished ops ≡ ops
  unfolding evict
  evict_zero finished [] = refl
  evict_zero finished (op ∷ ops) = ground (arith, evict_zero finished ops)

  evict_gone :
      (k : ℕ) (finished : List ℕ) (op : AsyncOperation Value) (ops : List (AsyncOperation Value))
      → evictable finished op ≡ true
      → evict (suc k) finished (op ∷ ops) ≡ evict k finished ops
  unfolding evict
  evict_gone k finished op ops h = let e : suc k - 1 ≡ k = omega arith in rw (h, e) (ground arith)

  evict_kept :
      (k : ℕ) (finished : List ℕ) (op : AsyncOperation Value) (ops : List (AsyncOperation Value))
      → evictable finished op ≡ false
      → evict k finished (op ∷ ops) ≡ op ∷ evict k finished ops
  unfolding evict
  evict_kept k finished op ops h = ground arith

  evict-EvictsOldest :
      (k : ℕ) (finished : List ℕ) (ops : List (AsyncOperation Value))
      → EvictsOldest finished (min k (evictable_count finished ops)) ops (evict k finished ops)
  evict-EvictsOldest zero finished ops = record {
    before = [];
    after = ops;
    split = refl;
    left = evict_zero finished ops;
    evicted = omega arith;
  }
  evict-EvictsOldest (suc k) finished [] = record {
    before = [];
    after = [];
    split = refl;
    left = unfold evict in refl;
    evicted = omega arith;
  }
  evict-EvictsOldest (suc k) finished (op ∷ ops) = elim (Bool-cases (evictable finished op)) [
    | inl gone ↦
        let e = evict-EvictsOldest k finished ops in
        record {
          before = op ∷ e.before;
          after = e.after;
          split = ap (λ l. op ∷ l) e.split;
          left = rw (evict_gone k finished op ops gone, gone) e.left;
          evicted = rw gone (omega (arith, e.evicted));
        }
    | inr kept ↦
        let e = evict-EvictsOldest (suc k) finished ops in
        record {
          before = op ∷ e.before;
          after = e.after;
          split = ap (λ l. op ∷ l) e.split;
          left = rw (evict_kept (suc k) finished op ops kept, kept) (ap (λ l. op ∷ l) e.left);
          evicted = rw kept e.evicted;
        }
  ]

  pub make_room_ok :
      (limit : ℕ) (finished : List ℕ) (ops rest : List (AsyncOperation Value))
      → make_room limit finished ops ≡ ok rest
      → (rest ≡ evict (length ops + 1 - limit) finished ops) × (length rest < limit)
  unfolding make_room
  make_room_ok limit finished ops rest h = elim (Bool-cases (leb limit (length ops))) [
    | inl full ↦ (ground arith, ground arith)
    | inr free ↦
        let none_over : length ops + 1 - limit ≡ 0 = ground arith in
        (rw (none_over, evict_zero) (ground arith), ground arith)
  ]

  exact_count :
      (limit : ℕ) (finished : List ℕ) (ops : List (AsyncOperation Value))
      → length (evict (length ops + 1 - limit) finished ops) < limit
      → min (length ops + 1 - limit) (evictable_count finished ops) ≡ length ops + 1 - limit
  exact_count limit finished ops h =
      omega (arith, length-evict (length ops + 1 - limit) finished ops)

  -- A successful insertion leaves at most `limit` operations, the new one last, and evicts only
  -- operations of the snapshot: the oldest ones, and no more of them than the new one needs.
  pub insert-EvictsOldest :
      (limit : ℕ) (finished : List ℕ) (op : AsyncOperation Value)
      (ops ops' : List (AsyncOperation Value))
      → insert limit finished op ops ≡ ok ops'
      → (rest : List (AsyncOperation Value)) × (ops' ≡ rest ++ op ∷ [])
        × (length ops' ≤ limit)
        × EvictsOldest finished (length ops + 1 - limit) ops rest
  unfolding insert
  insert-EvictsOldest limit finished op ops ops' h =
      let (rest, roomy, same) = >>=-eq-ok (make_room limit finished ops) _ h in
      let (is_evict, short) = make_room_ok limit finished ops rest roomy in
      let short' : length (evict (length ops + 1 - limit) finished ops) < limit =
        rw is_evict at short in
      (
        rest,
        cc,
        rw (← ok_injective same, length-append) (omega arith),
        rw is_evict (
            subst (λ n. EvictsOldest finished n ops (evict (length ops + 1 - limit) finished ops))
              (exact_count limit finished ops short')
              (evict-EvictsOldest (length ops + 1 - limit) finished ops)),
      )

  finished_snapshot :
      (ops : List (AsyncOperation Value)) → any_finished ops ≡ false → finished_ids ops ≡ []
  unfolding any_finished finished_ids
  finished_snapshot [] h = refl
  finished_snapshot (op ∷ ops) h = ground (arith, finished_snapshot ops)

  none_evictable : (ops : List (AsyncOperation Value)) → unfinished_count [] ops ≡ length ops
  none_evictable [] = refl
  none_evictable (op ∷ ops) = ap suc (none_evictable ops)

  some_evictable :
      (ops : List (AsyncOperation Value))
      → any_finished ops ≡ true
      → 0 < evictable_count (finished_ids ops) ops
  unfolding any_finished finished_ids
  some_evictable [] h = cc
  some_evictable (op ∷ ops) h = ground (arith, some_evictable ops)

  check_capacity_err_iff :
      (limit : ℕ) (ops : List (AsyncOperation Value))
      → length ops ≤ limit
      → (check_capacity limit ops ≡ err full_error)
        ↔ (limit ≤ unfinished_count (finished_ids ops) ops)
  unfolding check_capacity
  check_capacity_err_iff limit ops h = elim (Bool-cases (any_finished ops)) [
    | inl found ↦ (
      λ e. ground arith,
      λ e. absurd (omega (arith, some_evictable ops found, counts_add (finished_ids ops) ops)),
    )
    | inr missing ↦
        rw (finished_snapshot ops missing, none_evictable ops)
          ((λ e. ground arith, λ e. ground arith))
  ]

  -- In a queue within its bound, `check_capacity` refuses exactly when an insertion whose snapshot
  -- is taken at the same moment would be refused, with the same error.
  pub check_capacity-insert :
      (limit : ℕ) (op : AsyncOperation Value) (ops : List (AsyncOperation Value))
      → length ops ≤ limit
      → (check_capacity limit ops ≡ err full_error)
        ↔ (insert limit (finished_ids ops) op ops ≡ err full_error)
  check_capacity-insert limit op ops h =
      let here = check_capacity_err_iff limit ops h in
      let there = insert_err_iff limit (finished_ids ops) op ops in
      (λ e. there.1 (here.0 e), λ e. here.1 (there.0 e))
