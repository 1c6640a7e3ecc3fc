-- ===== src/Sync/Locator.antt =====
-- sync/locator.rs, and BlockLocator::from_blocks of chain.rs.
pub mod Order
pub mod Build
use wallet.Prelude.{
  ℕ, zero, suc, ◌-◌, ◌*◌, ◌^◌, ltb, Bool, true, false, Option, none, some, List, [], ◌∷◌, ◌++◌,
  if◌then◌else◌, Result, ok, err, ◌>>=◌,
}
use wallet.Sync.Ledger.{ChainBlock}

unfoldable pub max_locator_depth : ℕ
max_locator_depth = 1000

-- `checked_mul` and `checked_sub` of `u32`.
unfoldable pub checked_mul : ℕ → ℕ → Option ℕ
checked_mul a b = if ltb (a * b) (2 ^ 32) then some (a * b) else none

unfoldable pub checked_sub : ℕ → ℕ → Option ℕ
checked_sub a b = if ltb a b then none else some (a - b)

-- `successors(first, |step| step.checked_mul(2))`. Doubling passes 2 ^ 32 within 32 steps.
unfoldable pub successors : (fuel : ℕ) → Option ℕ → List ℕ
successors zero first = []
successors (suc fuel) none = []
successors (suc fuel) (some step) = step ∷ successors fuel (checked_mul step 2)

-- `flat_map(|step| tip.checked_sub(step))`.
unfoldable pub below : ℕ → List ℕ → List ℕ
below tip [] = []
below tip (step ∷ steps) = elim (checked_sub tip step) [
  | none ↦ below tip steps
  | some height ↦ height ∷ below tip steps
]

-- `take_while(|&height| height > min)`.
unfoldable pub take_above : ℕ → List ℕ → List ℕ
take_above floor [] = []
take_above floor (height ∷ heights) =
    if ltb floor height then height ∷ take_above floor heights else []

unfoldable pub locator_block_heights : ℕ → List ℕ
locator_block_heights tip =
    let floor = tip - max_locator_depth in
    take_above floor (tip ∷ below tip (successors 33 (some 1))) ++ floor ∷ []

unfoldable pub push_found : Option ℕ → ℕ → List ChainBlock → List ChainBlock
push_found none height blocks = blocks
push_found (some hash) height blocks = record { height = height; hash = hash } ∷ blocks

-- The loop of `build_block_locator`, which ends at the first lookup that fails.
unfoldable pub known_blocks :
    {DbError : Type 0} → (ℕ → Result (Option ℕ) DbError) → List ℕ → Result (List ChainBlock) DbError
known_blocks get_block_hash [] = ok []
known_blocks get_block_hash (height ∷ heights) =
    let rest = known_blocks get_block_hash heights in
    get_block_hash height >>= λ found. rest >>= λ blocks. ok (push_found found height blocks)

unfoldable pub push_hash : ℕ → Option (List ℕ) → Option (List ℕ)
push_hash hash none = none
push_hash hash (some hashes) = some (hash ∷ hashes)

-- The hashes, or `none` where the assertion on the order of the heights fails.
unfoldable pub from_blocks_after : Option ℕ → List ChainBlock → Option (List ℕ)
from_blocks_after prev [] = some []
from_blocks_after none (block ∷ blocks) =
    push_hash block.hash (from_blocks_after (some block.height) blocks)
from_blocks_after (some prev) (block ∷ blocks) =
    let rest = push_hash block.hash (from_blocks_after (some block.height) blocks) in
    if ltb block.height prev then rest else none

unfoldable pub from_blocks : List ChainBlock → Option (List ℕ)
from_blocks blocks = from_blocks_after none blocks

unfoldable pub build_block_locator :
    {DbError : Type 0} → (ℕ → Result (Option ℕ) DbError) → ℕ → Result (Option (List ℕ)) DbError
build_block_locator get_block_hash tip =
    known_blocks get_block_hash (locator_block_heights tip) >>= λ blocks. ok (from_blocks blocks)
