-- ===== src/Payments/Outputs.antt =====
-- `check_transparent_outputs` of payments.rs.
pub mod Taken
pub mod Accounted
use mathlib.Core.Option
use wallet.Prelude.{
  ℕ, zero, suc, ◌==◌, ◌&&◌, Bool, Option, none, some, List, [], ◌∷◌, if◌then◌else◌, Result, ok, err,
  ◌>>◌,
}
use wallet.Payments.Address.{TransparentAddress, same_address}

pub data TransparentOutputError (E : Type 0) : Type 0 where
  unrecognized_script : (vout : ℕ) → TransparentOutputError E
  unknown_address not_derived derivation_mismatch : TransparentAddress → TransparentOutputError E
  no_transparent_key missing_payment : TransparentAddress → TransparentOutputError E
  lookup : E → TransparentOutputError E

-- `Iterator::position`.
unfoldable pub position : {A : Type 0} → (A → Bool) → List A → Option ℕ
position test [] = none
position test (x ∷ xs) = if test x then some zero else Option.map suc (position test xs)

-- The last element in front of the others.
unfoldable pub second : {A : Type 0} → A → List A → List A
second x [] = x ∷ []
second x (y ∷ ys) = y ∷ x ∷ ys

unfoldable pub last_first : {A : Type 0} → List A → List A
unfolding second
last_first [] = []
last_first (x ∷ xs) = second x (last_first xs)

-- `Vec::swap_remove`: the last element takes the place of the one removed.
unfoldable pub swap_remove : {A : Type 0} → ℕ → List A → List A
unfolding last_first
swap_remove i [] = []
swap_remove zero (x ∷ xs) = last_first xs
swap_remove (suc i) (x ∷ xs) = x ∷ swap_remove i xs

-- The transparent keys: how an account's key derives the public key at a path, and the address of a
-- public key.
pub record Derivation : Type 1 where
  pub AccountPubKey : Type 0
  pub PublicKey : Type 0
  pub KeyPath : Type 0
  pub derive_address_pubkey : AccountPubKey → KeyPath → Option PublicKey
  pub from_pubkey : PublicKey → TransparentAddress

-- `TransparentAddressSource`: a derivation path, or a source without one.
pub data TransparentAddressSource (KeyPath : Type 0) : Type 0 where
  derived : KeyPath → TransparentAddressSource KeyPath
  standalone : TransparentAddressSource KeyPath

abbrev pub Payment : Type 0
Payment = TransparentAddress × ℕ

-- The test of `position`.
unfoldable pub is_payment : TransparentAddress → ℕ → Payment → Bool
is_payment addr value (expected_addr, expected_value) =
    same_address expected_addr addr && expected_value == value

module _ {E : Type 0} (d : Derivation) (account_pubkey : Option d.AccountPubKey)
    (address_source : TransparentAddress
      → Result (Option (TransparentAddressSource d.KeyPath)) E) where
  unfoldable pub check_pubkey :
      TransparentAddress → Option d.PublicKey → Result (Unit {0}) (TransparentOutputError E)
  check_pubkey addr none = err (derivation_mismatch addr)
  check_pubkey addr (some pubkey) =
      if same_address (d.from_pubkey pubkey) addr then ok tt else err (derivation_mismatch addr)

  unfoldable pub check_path :
      TransparentAddress
      → d.KeyPath
      → Option d.AccountPubKey
      → Result (Unit {0}) (TransparentOutputError E)
  check_path addr path none = err (no_transparent_key addr)
  check_path addr path (some key) = check_pubkey addr (d.derive_address_pubkey key path)

  -- The match on the record of an output's address.
  unfoldable pub check_source :
      TransparentAddress
      → Result (Option (TransparentAddressSource d.KeyPath)) E
      → Result (Unit {0}) (TransparentOutputError E)
  check_source addr (err e) = err (lookup e)
  check_source addr (ok none) = err (unknown_address addr)
  check_source addr (ok (some (derived path))) = check_path addr path account_pubkey
  check_source addr (ok (some standalone)) = err (not_derived addr)

  -- After the loop, a payment that is left was not made.
  unfoldable pub check_left : List Payment → Result (Unit {0}) (TransparentOutputError E)
  check_left [] = ok tt
  check_left ((addr, value) ∷ rest) = err (missing_payment addr)

  -- The loop over the outputs, from the index of the first.
  unfoldable pub check_outputs :
      (vout : ℕ)
      → List (Option TransparentAddress × ℕ)
      → List Payment
      → Result (Unit {0}) (TransparentOutputError E)
  check_outputs vout [] expected = check_left expected
  check_outputs vout ((none, value) ∷ outputs) expected = err (unrecognized_script vout)
  check_outputs vout ((some addr, value) ∷ outputs) expected =
      elim (position (is_payment addr value) expected) [
        | some i ↦ check_outputs (suc vout) outputs (swap_remove i expected)
        | none ↦
            check_source addr (address_source addr) >> check_outputs (suc vout) outputs expected
      ]

  unfoldable pub check_transparent_outputs :
      List (Option TransparentAddress × ℕ)
      → List Payment
      → Result (Unit {0}) (TransparentOutputError E)
  unfolding check_outputs
  check_transparent_outputs outputs expected_payments = check_outputs 0 outputs expected_payments
