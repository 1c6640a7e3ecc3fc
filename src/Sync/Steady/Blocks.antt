-- ===== src/Sync/Steady/Blocks.antt =====
-- The blocks that the loop over a stream applies.
use wallet.Prelude.{
  ℕ, ◌==◌, ◌≡◌, refl, ◌∙◌, ap, inl, inr, List, [], ◌∷◌, ◌++◌, map, Result, ok, err, Bool-cases,
  arith,
}
use wallet.Sync.Ledger.{ChainError, other}
use wallet.Sync.Range.{ControlFlow, break, continue}
use wallet.Sync.Steady.Monad.{Steady, Ensures, bind-Ensures, on_db-bind-Ensures, imp-Ensures}
use wallet.Sync.Steady.Frames.{Same}
use wallet.Sync.Steady.{SteadyView, SteadyTask, scan_block, pointer, after_scan, apply_blocks}
use wallet.Sync.Steady.Scan.{
  Reached, IsScanned, IsApplied, Scans, stop, step, Scanned, scan_block-Scanned,
}

module _ {Db DbError Block Trees Tx : Type 0} (task : SteadyTask Db DbError Block Trees Tx)
    (view : SteadyView Block Trees Tx) where
  -- How the loop over the blocks ends: all are applied, or the next is at the shutdown height.
  abbrev pub Outcome :
      List (Result Block ChainError) → List Block → ControlFlow ℕ (Unit {0}) → Type 0
  Outcome blocks bs (continue _) = blocks ≡ map ok bs
  Outcome blocks bs (break h) =
      (b : Block) × (rest : List (Result Block ChainError)) × (blocks ≡ map ok bs ++ ok b ∷ rest)
      × (task.claimed_height b ≡ h)
      × Reached task.shutdown_height h

  abbrev pub Moved : Steady Db → Steady Db → Type 0
  Moved s t =
      (bs : List Block) × (last : Db) × Scans task (ok view) s.prev_tip s.db_data bs t.prev_tip last
      × (t.status ≡ s.status)

  abbrev pub Applied :
      List (Result Block ChainError) → Steady Db → ControlFlow ℕ (Unit {0}) → Steady Db → Type 0
  Applied blocks s flow t =
      (bs : List Block) × (last : Db) × Scans task (ok view) s.prev_tip s.db_data bs t.prev_tip last
      × (t.status ≡ s.status)
      × Outcome blocks bs flow

  Moved-Same : (s t : Steady Db) → Same s t → Moved s t
  Moved-Same s t (e, e') = ([], s.db_data, rw e (stop _ _), e')

  Outcome-step :
      (b : Block) (blocks : List (Result Block ChainError)) (bs : List Block)
      (flow : ControlFlow ℕ (Unit {0}))
      → Outcome blocks bs flow
      → Outcome (ok b ∷ blocks) (b ∷ bs) flow
  Outcome-step b blocks bs (continue _) h = rw h refl
  Outcome-step b blocks bs (break h') (b', rest, e, at, r) = (b', rest, ap (◌∷◌ (ok b)) e, at, r)

  after_scan-Applied :
      (b : Block) (blocks : List (Result Block ChainError)) (s : Steady Db)
      → task.claimed_height b ≡ task.plus s.prev_tip.height 1
      → ((u : Steady Db) → Ensures (Applied blocks u) (Moved u) (apply_blocks task view blocks u))
      → (flow : ControlFlow ℕ (Unit {0})) (t : Steady Db) → Scanned task view s b flow t × Same s t
      → Ensures
          (Applied (ok b ∷ blocks) s)
          (Moved s)
          (after_scan task b flow (apply_blocks task view blocks) t)
  unfolding after_scan pointer
  after_scan-Applied b blocks s h rest (break k) t (c, (e, e')) =
      ([], s.db_data, rw e (stop _ _), e', (b, blocks, refl, c.0, c.1))
  after_scan-Applied b blocks s h rest (continue _) t ((below, scanned), same) =
      on_db-bind-Ensures (Moved s) (Applied (ok b ∷ blocks) s) other
        (λ db. task.update_chain_tip db (task.claimed_height b)) _ t
        (λ a e.
          imp-Ensures (Moved (on_top t)) (Moved s) (Applied blocks (on_top t))
            (Applied (ok b ∷ blocks) s) (apply_blocks task view blocks (on_top t))
            (λ flow v (bs, last, moved, kept, out). (
              b ∷ bs,
              last,
              step b h below (applied t scanned e) moved,
              kept ∙ same.1,
              Outcome-step b blocks bs flow out,
            ))
            (λ v (bs, last, moved, kept).
              (b ∷ bs, last, step b h below (applied t scanned e) moved, kept ∙ same.1))
            (rest (on_top t)))
        (Moved-Same s
          (record t { db_data = (task.update_chain_tip t.db_data (task.claimed_height b)).0 }) same)
    where
      on_top : Steady Db → Steady Db
      on_top t = record t {
        db_data = (task.update_chain_tip t.db_data (task.claimed_height b)).0;
        prev_tip = record { height = task.claimed_height b; hash = task.block_hash b };
      }

      applied :
          (t : Steady Db)
          → IsScanned task (ok view) b s.db_data t.db_data
          → (task.update_chain_tip t.db_data (task.claimed_height b)).1 ≡ ok tt
          → IsApplied task
              (ok view)
              b
              s.db_data
              (task.update_chain_tip t.db_data (task.claimed_height b)).0
      applied t scanned e = record {
        stored = t.db_data;
        is_scanned = scanned;
        tip_updated = e;
        is_after = refl;
      }

  pub apply_blocks-Applied :
      (blocks : List (Result Block ChainError)) (s : Steady Db)
      → Ensures (Applied blocks s) (Moved s) (apply_blocks task view blocks s)
  unfolding apply_blocks
  apply_blocks-Applied [] s = ([], s.db_data, stop _ _, refl, refl)
  apply_blocks-Applied (err e ∷ blocks) s = ([], s.db_data, stop _ _, refl)
  apply_blocks-Applied (ok b ∷ blocks) s =
      let rest = apply_blocks-Applied blocks in
      elim (Bool-cases (task.claimed_height b == task.plus s.prev_tip.height 1)) [
        | inl y ↦ rw y (
            bind-Ensures (Moved s) (λ flow t. Scanned task view s b flow t × Same s t)
              (Applied (ok b ∷ blocks) s) (scan_block task view b)
              (λ flow. after_scan task b flow (apply_blocks task view blocks)) s
              (imp-Ensures (Same s) (Moved s) (λ flow t. Scanned task view s b flow t × Same s t)
                (λ flow t. Scanned task view s b flow t × Same s t) (scan_block task view b s)
                (λ flow t k. k) (Moved-Same s) (scan_block-Scanned task view b s))
              (after_scan-Applied b blocks s (ground arith) rest))
        | inr n ↦ rw n ([], s.db_data, stop _ _, refl)
      ]
