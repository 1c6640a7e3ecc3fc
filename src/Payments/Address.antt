-- ===== src/Payments/Address.antt =====
-- The addresses and amounts that json_rpc/payments.rs handles: types of zcash_keys, transparent and
-- zcash_protocol, as far as the code takes them apart.
use wallet.Prelude.{
  ℕ, ◌+◌, ◌-◌, ◌≡◌, ap, leb, ◌==◌, Bool, true, false, Option, none, some, if◌then◌else◌, arith,
  Result,
}
use wallet.Prelude.Int.{ℤ}
use wallet.Rpc.Amount.{BalanceError}

-- A hash is the number that its bytes spell.
pub data TransparentAddress : Type 0 where
  public_key_hash script_hash : ℕ → TransparentAddress

unfoldable pub same_address : TransparentAddress → TransparentAddress → Bool
same_address (public_key_hash a) (public_key_hash b) = a == b
same_address (script_hash a) (script_hash b) = a == b
same_address _ _ = false

pub same_address→eq : (a b : TransparentAddress) → same_address a b ≡ true → a ≡ b
unfolding same_address
same_address→eq (public_key_hash a) (public_key_hash b) h = ap public_key_hash (ground arith)
same_address→eq (script_hash a) (script_hash b) h = ap script_hash (ground arith)
same_address→eq (public_key_hash a) (script_hash b) h = cc
same_address→eq (script_hash a) (public_key_hash b) h = cc

pub same_address_refl : (a : TransparentAddress) → same_address a a ≡ true
unfolding same_address
same_address_refl (public_key_hash a) = ground arith
same_address_refl (script_hash a) = ground arith

-- A unified address: its transparent receiver, whether `sapling()` and `orchard()` answer a receiver,
-- and whether `receiver_types()` contains their typecodes.
pub record UnifiedAddress : Type 0 where
  pub transparent : Option TransparentAddress
  pub sapling : Bool
  pub orchard : Bool
  pub sapling_type : Bool
  pub orchard_type : Bool

pub data Address : Type 0 where
  transparent : TransparentAddress → Address
  sapling : ℕ → Address
  unified : UnifiedAddress → Address
  tex : ℕ → Address

-- The arithmetic of `Zatoshis`, an amount that is a number here.
pub record Zatoshis : Type 0 where
  pub from_nonnegative_i64 : ℤ → Result ℕ BalanceError
  pub add : ℕ → ℕ → Option ℕ
  pub sub : ℕ → ℕ → Option ℕ

abbrev pub max_money : ℕ
max_money = 2100000000000000

-- Its documentation: an amount is at most `MAX_MONEY`, a sum above that and a difference below zero
-- are `None`.
pub record IsChecked (z : Zatoshis) : Type 0 where
  pub add_lem : (a b : ℕ) → z.add a b ≡ (if leb (a + b) max_money then some (a + b) else none)
  pub sub_lem : (a b : ℕ) → z.sub a b ≡ (if leb b a then some (a - b) else none)
