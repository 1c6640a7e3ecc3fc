-- ===== src/Sync/Steady/Scan.antt =====
-- The scan of a block, and the blocks that are scanned and stored one after another.
use wallet.Prelude.{
  ℕ, ◌≡◌, ◌≤◌, ◌<◌, refl, ◌∙◌, ap, inl, inr, true, false, Option, none, some, List, [], ◌∷◌, Result,
  ok, ok_or, Bool-cases, arith,
}
use wallet.Sync.Ledger.{ChainBlock, ChainError, batch_decryptor_unavailable, chain, other}
use wallet.Sync.Scanner.{TransparentAddressIndex, scan_block_error, transparent_address_index, get}
use wallet.Sync.Range.{ControlFlow, break, continue}
use wallet.Sync.Steady.Monad.{
  Steady, Action, ◌>>=◌, pure, Ensures, bind-Ensures, on_db-Ensures, lift-bind-Ensures,
}
use wallet.Sync.Steady.Frames.{Same}
use wallet.Sync.Steady.{SteadyView, SteadyTask, at_boundary, trees_or_error, scan_below, scan_block}

-- A height is at the shutdown height or above it; there may be none.
abbrev pub Reached : Option ℕ → ℕ → Type 0
Reached none height = ⊥
Reached (some h) height = h ≤ height

abbrev pub IsBelow : Option ℕ → ℕ → Type 0
IsBelow none height = Unit
IsBelow (some h) height = height < h

pub at_boundary-Reached :
    (shutdown_height : Option ℕ) (height : ℕ)
    → at_boundary shutdown_height height ≡ true
    → Reached shutdown_height height
unfolding at_boundary
at_boundary-Reached none height e = cc
at_boundary-Reached (some h) height e = ground arith

at_boundary-IsBelow :
    (shutdown_height : Option ℕ) (height : ℕ)
    → at_boundary shutdown_height height ≡ false
    → IsBelow shutdown_height height
unfolding at_boundary
at_boundary-IsBelow none height e = tt
at_boundary-IsBelow (some h) height e = ground arith

module _ {Db DbError Block Trees Tx : Type 0} (task : SteadyTask Db DbError Block Trees Tx)
    (snapshot : Result (SteadyView Block Trees Tx) ChainError) where
  -- The scan of a block with the trees that the snapshot has before it, and with what the database
  -- holds, has succeeded, and `put_blocks` has then stored it in that database, which is `stored` now.
  pub record IsScanned (b : Block) (db stored : Db) : Type 0 where
    pub view : SteadyView Block Trees Tx
    pub of_snapshot : snapshot ≡ ok view
    pub from_state : Trees
    pub queued : task.scanner.Queued
    pub decrypted : task.scanner.Decrypted
    pub nullifiers : task.scanner.Nullifiers
    pub scanned : task.scanner.Scanned
    pub has_trees :
        view.tree_state_as_of (task.minus (task.claimed_height b) 1) ≡ ok (some from_state)
    pub is_queued : task.scanner.queue_block b ≡ some queued
    pub is_decrypted : task.scanner.decrypted queued ≡ some decrypted
    pub unspent : task.scanner.unspent db ≡ ok nullifiers
    pub addresses : TransparentAddressIndex task.scanner
    pub indexed : transparent_address_index task.scanner db ≡ ok addresses
    pub scans :
        task.scanner.scan_block
          (task.claimed_height b)
          decrypted
          nullifiers
          (some (task.scanner.metadata_of from_state))
          (get task.scanner addresses)
        ≡ ok scanned
    pub puts : (task.scanner.put_blocks db from_state (scanned ∷ [])).1 ≡ ok tt
    pub is_stored : stored ≡ (task.scanner.put_blocks db from_state (scanned ∷ [])).0

  -- A block is scanned and stored, and then the chain tip of the wallet updated to it.
  pub record IsApplied (b : Block) (db after : Db) : Type 0 where
    pub stored : Db
    pub is_scanned : IsScanned b db stored
    pub tip_updated : (task.update_chain_tip stored (task.claimed_height b)).1 ≡ ok tt
    pub is_after : after ≡ (task.update_chain_tip stored (task.claimed_height b)).0

  -- The pointer moves block by block, and with it the database: each block is applied to the database
  -- that the one before has left, at the next height and below the shutdown height.
  pub data Scans : ChainBlock → Db → List Block → ChainBlock → Db → Type 0 where
    stop : (p : ChainBlock) (db : Db) → Scans p db [] p db
    step :
        {p q : ChainBlock} {db after last : Db} (b : Block) {bs : List Block}
        → task.claimed_height b ≡ task.plus p.height 1
        → IsBelow task.shutdown_height (task.claimed_height b)
        → IsApplied b db after
        → Scans
            (record { height = task.claimed_height b; hash = task.block_hash b })
            after
            bs
            q
            last
        → Scans p db (b ∷ bs) q last

module _ {Db DbError Block Trees Tx : Type 0} (task : SteadyTask Db DbError Block Trees Tx)
    (view : SteadyView Block Trees Tx) where
  trees-Ensures :
      {B : Type 0} (R : Steady Db → Type 0) (Q : B → Steady Db → Type 0) (found : Option Trees)
      (f : Trees → Action Db DbError B) (s : Steady Db)
      → ((trees : Trees) → found ≡ some trees → Ensures Q R (f trees s))
      → R s
      → Ensures Q R ((trees_or_error found >>= f) s)
  unfolding trees_or_error
  trees-Ensures R Q none f s h r = r
  trees-Ensures R Q (some trees) f s h r = h trees refl

  abbrev Stored : Block → Steady Db → Unit {0} → Steady Db → Type 0
  Stored b s _ t = Same s t × IsScanned task (ok view) b s.db_data t.db_data

  ok_or-some : {A E : Type 0} (o : Option A) (e : E) {a : A} → ok_or o e ≡ ok a → o ≡ some a
  ok_or-some none e h = cc
  ok_or-some (some x) e h = cc

  scan_below-Stored :
      (b : Block) (s : Steady Db) → Ensures (Stored b s) (Same s) (scan_below task view b s)
  unfolding scan_below
  scan_below-Stored b s =
      lift-bind-Ensures (Same s) (Stored b s) chain
        (view.tree_state_as_of (task.minus (task.claimed_height b) 1)) _ s
        (λ found has.
          trees-Ensures (Same s) (Stored b s) found _ s
            (λ trees some_lem.
              lift-bind-Ensures (Same s) (Stored b s) (λ e. e)
                (ok_or (task.scanner.queue_block b) batch_decryptor_unavailable) _ s
                (λ queued q.
                  lift-bind-Ensures (Same s) (Stored b s) other (task.scanner.unspent s.db_data) _ s
                    (λ nullifiers u.
                      lift-bind-Ensures (Same s) (Stored b s) other
                        (transparent_address_index task.scanner s.db_data) _ s
                        (λ addresses i.
                          lift-bind-Ensures (Same s) (Stored b s) (λ e. e)
                            (ok_or (task.scanner.decrypted queued) batch_decryptor_unavailable) _ s
                            (λ decrypted d.
                              lift-bind-Ensures (Same s) (Stored b s) scan_block_error
                                (task.scanner.scan_block (task.claimed_height b) decrypted
                                  nullifiers (some (task.scanner.metadata_of trees))
                                  (get task.scanner addresses))
                                _ s
                                (λ scanned c.
                                  on_db-Ensures (Same s) (Stored b s) other
                                    (λ db. task.scanner.put_blocks db trees (scanned ∷ [])) s
                                    (λ a p. (
                                      (refl, refl),
                                      record {
                                        view = view;
                                        of_snapshot = refl;
                                        from_state = trees;
                                        queued = queued;
                                        decrypted = decrypted;
                                        nullifiers = nullifiers;
                                        scanned = scanned;
                                        has_trees = has ∙ ap ok some_lem;
                                        is_queued = ok_or-some (task.scanner.queue_block b) _ q;
                                        is_decrypted =
                                            ok_or-some (task.scanner.decrypted queued) _ d;
                                        unspent = u;
                                        addresses = addresses;
                                        indexed = i;
                                        scans = c;
                                        puts = p;
                                        is_stored = refl;
                                      },
                                    ))
                                    (refl, refl))
                                (refl, refl))
                            (refl, refl))
                        (refl, refl))
                    (refl, refl))
                (refl, refl))
            (refl, refl))
        (refl, refl)

  -- What `scan_block` answers.
  abbrev pub Scanned : Steady Db → Block → ControlFlow ℕ (Unit {0}) → Steady Db → Type 0
  Scanned s b (continue _) t =
      IsBelow task.shutdown_height (task.claimed_height b)
      × IsScanned task (ok view) b s.db_data t.db_data
  Scanned s b (break h) t = (task.claimed_height b ≡ h) × Reached task.shutdown_height h

  pub scan_block-Scanned :
      (b : Block) (s : Steady Db)
      → Ensures (λ flow t. Scanned s b flow t × Same s t) (Same s) (scan_block task view b s)
  unfolding scan_block
  scan_block-Scanned b s =
      elim (Bool-cases (at_boundary task.shutdown_height (task.claimed_height b))) [
        | inl y ↦ rw y ((refl, at_boundary-Reached task.shutdown_height _ y), (refl, refl))
        | inr n ↦ rw n (
            bind-Ensures (Same s) (Stored b s) (λ flow t. Scanned s b flow t × Same s t)
              (scan_below task view b) (λ _. pure (continue tt)) s (scan_below-Stored b s)
              (λ _ t k. ((at_boundary-IsBelow task.shutdown_height _ n, k.1), k.0)))
      ]
