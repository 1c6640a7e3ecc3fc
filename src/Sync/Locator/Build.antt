-- ===== src/Sync/Locator/Build.antt =====
-- The locator is built from the wallet's hashes, and its assertion on the order never fails.
use wallet.Prelude.{
  ℕ, ◌<◌, ◌≤◌, ◌≡◌, refl, suc, Option, none, some, List, [], ◌∷◌, All, map, Result, ok, >>=-eq-ok,
  ok_injective, arith, lt→ltb, subst, sym, ◌∙◌,
}
use wallet.Sync.Ledger.{ChainBlock}
use wallet.Sync.Locator.{
  locator_block_heights, push_found, known_blocks, push_hash, from_blocks_after, from_blocks,
  build_block_locator,
}
use wallet.Sync.Locator.Order.{Descends, locator_block_heights-Descends}

-- The blocks' heights fall, the first below the bound.
abbrev Falls : ℕ → List ChainBlock → Type 0
Falls bound [] = Unit
Falls bound (block ∷ blocks) = (block.height < bound) × Falls block.height blocks

Falls-raise : (b c : ℕ) (blocks : List ChainBlock) → b ≤ c → Falls b blocks → Falls c blocks
Falls-raise b c [] h f = tt
Falls-raise b c (x ∷ xs) h f = (omega arith, f.1)

abbrev hash_of : ChainBlock → ℕ
hash_of block = block.hash

from_blocks_after-Falls :
    (bound : ℕ) (blocks : List ChainBlock)
    → Falls bound blocks
    → from_blocks_after (some bound) blocks ≡ some (map hash_of blocks)
unfolding from_blocks_after
from_blocks_after-Falls bound [] f = refl
from_blocks_after-Falls bound (block ∷ blocks) f =
    rw (lt→ltb block.height bound f.0, from_blocks_after-Falls block.height blocks f.1)
      (unfold push_hash in refl)

from_blocks-Falls :
    (bound : ℕ) (blocks : List ChainBlock)
    → Falls bound blocks
    → from_blocks blocks ≡ some (map hash_of blocks)
unfolding from_blocks from_blocks_after
from_blocks-Falls bound [] f = refl
from_blocks-Falls bound (block ∷ blocks) f =
    rw (from_blocks_after-Falls block.height blocks f.1) (unfold push_hash in refl)

module _ {DbError : Type 0} (get_block_hash : ℕ → Result (Option ℕ) DbError) where
  -- The hash is the one that the wallet records at some height up to the tip.
  abbrev pub IsRecorded : (tip hash : ℕ) → Type 0
  IsRecorded tip hash = (height : ℕ) × (height ≤ tip) × (get_block_hash height ≡ ok (some hash))

  push_found-Falls :
      (bound height : ℕ) (found : Option ℕ) (blocks : List ChainBlock)
      → height < bound
      → Falls height blocks
      → Falls bound (push_found found height blocks)
  unfolding push_found
  push_found-Falls bound height none blocks l f = Falls-raise height bound blocks (omega arith) f
  push_found-Falls bound height (some hash) blocks l f = (l, f)

  push_found-IsRecorded :
      (tip height : ℕ) (found : Option ℕ) (blocks : List ChainBlock)
      → height ≤ tip
      → get_block_hash height ≡ ok found
      → All (IsRecorded tip) (map hash_of blocks)
      → All (IsRecorded tip) (map hash_of (push_found found height blocks))
  unfolding push_found
  push_found-IsRecorded tip height none blocks l e r = r
  push_found-IsRecorded tip height (some hash) blocks l e r = ((height, l, e), r)

  known_blocks_lem :
      (tip bound : ℕ) (heights : List ℕ) (blocks : List ChainBlock)
      → bound ≤ suc tip
      → Descends bound heights
      → known_blocks get_block_hash heights ≡ ok blocks
      → Falls bound blocks × All (IsRecorded tip) (map hash_of blocks)
  unfolding known_blocks
  known_blocks_lem tip bound [] blocks l d h =
      subst (λ b. Falls bound b × All (IsRecorded tip) (map hash_of b)) (ok_injective h) (tt, tt)
  known_blocks_lem tip bound (height ∷ heights) blocks l d h =
      let (found, found_eq, h') = >>=-eq-ok (get_block_hash height) _ h in
      let (rest, rest_eq, e) = >>=-eq-ok (known_blocks get_block_hash heights) _ h' in
      let (falls, recorded) = known_blocks_lem tip height heights rest (omega arith) d.1 rest_eq in
      subst (λ b. Falls bound b × All (IsRecorded tip) (map hash_of b)) (ok_injective e)
        (
          push_found-Falls bound height found rest d.0 falls,
          push_found-IsRecorded tip height found rest (omega arith) found_eq recorded,
        )

  -- When the lookups succeed, the locator is built, the assertion included, and each of its hashes
  -- is one that the wallet records at a height up to the tip.
  pub build_block_locator_lem :
      (tip : ℕ) (built : Option (List ℕ))
      → build_block_locator get_block_hash tip ≡ ok built
      → (hashes : List ℕ) × (built ≡ some hashes) × All (IsRecorded tip) hashes
  unfolding build_block_locator
  build_block_locator_lem tip built h =
      let (blocks, blocks_eq, e) =
        >>=-eq-ok (known_blocks get_block_hash (locator_block_heights tip)) _ h in
      let (falls, recorded) =
        known_blocks_lem tip (suc tip) (locator_block_heights tip) blocks (omega arith)
          (locator_block_heights-Descends tip) blocks_eq in
      (
        map hash_of blocks,
        sym (ok_injective e) ∙ from_blocks-Falls (suc tip) blocks falls,
        recorded,
      )
