-- ===== src/Sync/History/Batches.antt =====
-- The batches of a scan range.
use wallet.Prelude.{
  ℕ, zero, suc, ◌+◌, ◌-◌, ◌≤◌, ◌<◌, ◌≡◌, refl, none, some, List, [], ◌∷◌, inl, inr, arith, lt-cases,
  subst, sym, ◌∙◌,
}
use wallet.Sync.History.{HistoryTask, cut, batches, length_of}

module _ {Db DbError Block Trees Tx R : Type 0}
    (task : HistoryTask Db DbError Block Trees Tx R) where
  abbrev pub start_at : R → ℕ
  start_at range = (task.ranges.block_range range).start

  abbrev pub end_at : R → ℕ
  end_at range = (task.ranges.block_range range).end

  -- What the documentation of `ScanRange::split_at` says: a range is cut at a height strictly inside
  -- it, and at no other, into the blocks below the height and those from it on.
  pub record SplitLaws : Type 0 where
    pub inside :
        (range : R) (height : ℕ)
        → start_at range < height
        → height < end_at range
        → (cur next : R) × (task.split_at range height ≡ some (cur, next))
          × (start_at cur ≡ start_at range)
          × (end_at cur ≡ height)
          × (start_at next ≡ height)
          × (end_at next ≡ end_at range)
          × (task.ranges.priority cur ≡ task.ranges.priority range)
          × (task.ranges.priority next ≡ task.ranges.priority range)
    pub outside :
        (range : R) (height : ℕ) → end_at range ≤ height → task.split_at range height ≡ none

  -- The batches lie one after another from a height to another, none is longer than the batch size or
  -- empty, and all have one priority.
  abbrev pub Tiles : (start end priority : ℕ) → List R → Type 0
  Tiles start end priority [] = start ≡ end
  Tiles start end priority (range ∷ ranges) =
      (start_at range ≡ start)
      × (start < end_at range)
      × (end_at range ≤ start + task.batch_size)
      × (task.ranges.priority range ≡ priority)
      × Tiles (end_at range) end priority ranges

  batches-Tiles_from :
      SplitLaws
      → 0 < task.batch_size
      → (end : ℕ) → ((a : ℕ) → a < end → task.steady.plus a task.batch_size ≡ a + task.batch_size)
      → (fuel : ℕ) (range : R) → end_at range ≡ end
      → start_at range < end
      → end - start_at range ≤ fuel
      → Tiles (start_at range) end (task.ranges.priority range) (batches task fuel range)
  unfolding batches cut
  batches-Tiles_from laws some_blocks end exact zero range e l enough = absurd (omega arith)
  batches-Tiles_from laws some_blocks end exact (suc fuel) range e l enough =
      let rest = batches-Tiles_from laws some_blocks end exact fuel in
      let height = task.steady.plus (start_at range) task.batch_size in
      let here = exact (start_at range) l in
      elim (lt-cases height end) [
        | inr over ↦
            rw (laws.outside range height (omega (arith, e, over)))
              (refl, omega (arith, e, l), omega (arith, e, over, here), refl, e)
        | inl within ↦
            let (cur, next, split, from_start, to_height, from_height, to_end, one, other) =
              laws.inside range height (omega (arith, here, some_blocks))
                (omega (arith, within, e)) in
            rw split (
              from_start,
              omega (arith, to_height, here, some_blocks),
              omega (arith, to_height, here),
              one,
              subst (λ p. Tiles (end_at cur) end p (batches task fuel next)) other
                  (subst (λ h. Tiles h end (task.ranges.priority next) (batches task fuel next))
                    (from_height ∙ sym to_height)
                    (rest next (to_end ∙ e) (omega (arith, from_height, within))
                      (omega (arith, from_height, here, enough, some_blocks)))),
            )
      ]

  -- History recovery cuts a range that is not empty into batches that lie one after another and cover
  -- it exactly, none of them longer than the batch size or empty, all with the priority of the range,
  -- and the fuel, the length of the range, is enough for that. The batch size is positive, and adding it
  -- to a height in the range is exact.
  pub batches-Tiles :
      SplitLaws
      → 0 < task.batch_size
      → (range : R)
      → ((a : ℕ) → a < end_at range → task.steady.plus a task.batch_size ≡ a + task.batch_size)
      → start_at range < end_at range
      → Tiles
          (start_at range)
          (end_at range)
          (task.ranges.priority range)
          (batches task (length_of task range) range)
  unfolding length_of
  batches-Tiles laws some_blocks range exact l =
      batches-Tiles_from laws some_blocks (end_at range) exact (end_at range - start_at range) range
        refl l (omega arith)
