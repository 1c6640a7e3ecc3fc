-- ===== src/Sync/Fork/Point.antt =====
-- The fork point lies on the best chain, and the wallet has recorded it.
use mathlib.Core.List.{Memᴰ}
use wallet.Prelude.{
  ℕ, ◌≡◌, refl, ◌∙◌, ap, ◌⊎◌, inl, inr, true, Option, none, some, List, [], ◌∷◌, All, Result-cases,
  Result, ok, err, arith,
}
use wallet.Sync.Ledger.{ChainBlock, SyncError, chain, other, returns, WalletDb, ChainView}
use wallet.Sync.Locator.{build_block_locator}
use wallet.Sync.Locator.Build.{IsRecorded, build_block_locator_lem}
use wallet.Sync.Fork.{
  same_hash, probe, or_zero, wallet_hash, resume_from, on_answer, on_locator, on_birthday,
  locate_fork_point,
}
use wallet.Sync.Fork.Walk.{Ends, probed, step_back_to_best_chain-Ends}

same_hash-some : (best : Option ℕ) (hash : ℕ) → same_hash best hash ≡ true → best ≡ some hash
unfolding same_hash
same_hash-some none hash h = cc
same_hash-some (some best) hash h = ground arith

module _ {DbError : Type 0} (view : ChainView)
    (wallet_hash : ℕ → Result (Option ℕ) (SyncError DbError)) where
  -- A probe answers a block exactly where the wallet and the best chain agree on its hash.
  probe-some :
      (height : ℕ) (block : ChainBlock)
      → probe view wallet_hash height ≡ ok (some block)
      → (wallet_hash height ≡ ok (some block.hash))
        × (view.header_hash height ≡ ok (some block.hash))
        × (block.height ≡ height)
  unfolding probe same_hash
  probe-some height block h = ground arith

module _ {Db DbError : Type 0} (db_ops : WalletDb Db DbError) (view : ChainView) (db_data : Db)
    (fork_point_law : (hashes : List ℕ) (block : ChainBlock)
      → view.find_fork_point hashes ≡ ok (some block)
      → Memᴰ block.hash hashes × (view.header_hash block.height ≡ ok (some block.hash))) where
  -- The block is on the best chain, and its hash is one that the wallet has recorded.
  abbrev pub IsCommon : ChainBlock → Type 0
  IsCommon block =
      ((height : ℕ) × (db_ops.get_block_hash db_data height ≡ ok (some block.hash)))
      × (view.header_hash block.height ≡ ok (some block.hash))

  -- What a search that ends well has found: with an empty locator, the previous tip.
  abbrev pub Located : (prev_tip : ChainBlock) → Result ChainBlock (SyncError DbError) → Type 0
  Located prev_tip (ok block) =
      IsCommon block
      ⊎ ((block ≡ prev_tip)
          × (build_block_locator (db_ops.get_block_hash db_data) prev_tip.height ≡ ok (some [])))
  Located prev_tip (err e) = Unit

  wallet_hash_ok :
      (height hash : ℕ)
      → wallet_hash db_ops view db_data height ≡ ok (some hash)
      → db_ops.get_block_hash db_data height ≡ ok (some hash)
  unfolding wallet_hash
  wallet_hash_ok height hash h = ground arith

  walk-Located :
      (prev_tip : ChainBlock) (birthday : ℕ) (r : Result ChainBlock (SyncError DbError))
      → Ends view (wallet_hash db_ops view db_data) prev_tip.height birthday r
      → Located prev_tip r
  walk-Located prev_tip birthday (err e) h = tt
  walk-Located prev_tip birthday (ok block) (k, l, passed, found) =
      let (recorded, best, at) = probe-some view (wallet_hash db_ops view db_data) _ block found in
      inl ((probed prev_tip.height birthday k, wallet_hash_ok _ block.hash recorded), rw at best)

  IsRecorded-Memᴰ :
      (tip hash : ℕ) (hashes : List ℕ)
      → All (IsRecorded (db_ops.get_block_hash db_data) tip) hashes
      → Memᴰ hash hashes
      → (height : ℕ) × (db_ops.get_block_hash db_data height ≡ ok (some hash))
  IsRecorded-Memᴰ tip hash [] a m = elim m [ ]
  IsRecorded-Memᴰ tip hash (x ∷ hashes) a (Memᴰ.head e) = (a.0.0, rw e a.0.2)
  IsRecorded-Memᴰ tip hash (x ∷ hashes) a (Memᴰ.tail m) = IsRecorded-Memᴰ tip hash hashes a.1 m

  resume_from-Located :
      (prev_tip : ChainBlock) (birthday : ℕ) (hashes : List ℕ) (answer : Option ChainBlock)
      → build_block_locator (db_ops.get_block_hash db_data) prev_tip.height ≡ ok (some hashes)
      → All (IsRecorded (db_ops.get_block_hash db_data) prev_tip.height) hashes
      → view.find_fork_point hashes ≡ ok answer
      → (r : Result ChainBlock (SyncError DbError)) × (resume_from db_ops view db_data prev_tip
            birthday hashes answer
          ≡ returns r)
        × Located prev_tip r
  unfolding resume_from
  resume_from-Located prev_tip birthday hashes (some block) built recorded found =
      let (m, best) = fork_point_law hashes block found in
      (ok block, refl, inl (IsRecorded-Memᴰ prev_tip.height block.hash hashes recorded m, best))
  resume_from-Located prev_tip birthday [] none built recorded found =
      (ok prev_tip, refl, inr (refl, built))
  resume_from-Located prev_tip birthday (hash ∷ hashes) none built recorded found =
      let (r, walked, ends) =
        step_back_to_best_chain-Ends view (wallet_hash db_ops view db_data) prev_tip birthday in
      (r, walked, walk-Located prev_tip birthday r ends)

  on_answer-Located :
      (prev_tip : ChainBlock) (birthday : ℕ) (hashes : List ℕ)
      → build_block_locator (db_ops.get_block_hash db_data) prev_tip.height ≡ ok (some hashes)
      → All (IsRecorded (db_ops.get_block_hash db_data) prev_tip.height) hashes
      → (r : Result ChainBlock (SyncError DbError)) × (on_answer db_ops view db_data prev_tip
            birthday hashes
            (view.find_fork_point hashes)
          ≡ returns r)
        × Located prev_tip r
  unfolding on_answer
  on_answer-Located prev_tip birthday hashes built recorded =
      elim (Result-cases (view.find_fork_point hashes)) [
        | inr (e, failed) ↦ (err (chain e), rw failed refl, tt)
        | inl (answer, found) ↦
            rw found (resume_from-Located prev_tip birthday hashes answer built recorded found)
      ]

  on_locator-Located :
      (prev_tip : ChainBlock) (birthday : ℕ) (built : Option (List ℕ))
      → build_block_locator (db_ops.get_block_hash db_data) prev_tip.height ≡ ok built
      → (r : Result ChainBlock (SyncError DbError)) × (on_locator db_ops view db_data prev_tip
            birthday
            (ok built)
          ≡ returns r)
        × Located prev_tip r
  unfolding on_locator
  on_locator-Located prev_tip birthday built h =
      let (hashes, some_built, recorded) =
        build_block_locator_lem (db_ops.get_block_hash db_data) prev_tip.height built h in
      rw some_built (on_answer-Located prev_tip birthday hashes (h ∙ ap ok some_built) recorded)

  -- The search for the fork point always returns: no assertion fails, and the walk ends. The block it
  -- returns is on the best chain and the wallet has recorded its hash; or the locator is empty, and it
  -- is the previous tip. `find_fork_point` answers entries of the locator on the best chain.
  pub locate_fork_point-Located :
      (prev_tip : ChainBlock)
      → (r : Result ChainBlock (SyncError DbError)) × (locate_fork_point db_ops view db_data
            prev_tip
          ≡ returns r)
        × Located prev_tip r
  unfolding locate_fork_point on_birthday on_locator
  locate_fork_point-Located prev_tip = elim (Result-cases (db_ops.get_wallet_birthday db_data)) [
    | inr (e, failed) ↦ (err (other e), rw failed refl, tt)
    | inl (stored, read) ↦
        rw read
          (elim (Result-cases
            (build_block_locator (db_ops.get_block_hash db_data) prev_tip.height)) [
              | inr (e, failed) ↦ (err (other e), rw failed refl, tt)
              | inl (built, h) ↦ rw h (on_locator-Located prev_tip (or_zero stored) built h)
            ])
  ]
