-- ===== src/Payments/SourceTests.antt =====
-- Arrays that name the same two addresses, and the theorem at them.
use Prim.Native.String.{String}
use text.Mathlib.Text.{◌==◌ as str_eq}
use wallet.Prelude.{
  ◌||◌, ◌≡◌, refl, Bool, true, false, Option, some, List, [], ◌∷◌, if◌then◌else◌, ok,
}
use wallet.Payments.Address.{
  TransparentAddress, public_key_hash, script_hash, same_address, Address,
}
use wallet.Payments.Source.{
  array, parse, parse_entry, transparent_entry, collect_addresses, set_insert, address_lt,
  source_of, transparent,
}
use wallet.Payments.Source.Canonical.{contains, parse_array_canonical}

abbrev decode : String → Option Address
decode s =
    if str_eq s "t1"
    then some (Address.transparent (public_key_hash 1))
    else some (Address.transparent (script_hash 3))

abbrev twice_first : List (Option String)
twice_first = some "t3" ∷ some "t1" ∷ some "t3" ∷ []

abbrev in_order : List (Option String)
in_order = some "t1" ∷ some "t3" ∷ []

or_repeated : (p q : Bool) → (p || (q || (p || false))) ≡ (q || (p || false))
or_repeated true true = refl
or_repeated true false = refl
or_repeated false q = refl

parsed :
    parse decode (array twice_first) ≡ ok (transparent (public_key_hash 1) (script_hash 3 ∷ []))
unfolding parse parse_entry transparent_entry collect_addresses set_insert address_lt source_of
    same_address
parsed = refl

same_members :
    (x : TransparentAddress)
    → contains x (script_hash 3 ∷ public_key_hash 1 ∷ script_hash 3 ∷ [])
      ≡ contains x (public_key_hash 1 ∷ script_hash 3 ∷ [])
unfolding contains
same_members x = or_repeated (same_address (script_hash 3) x) (same_address (public_key_hash 1) x)

parse_array_canonical_example : parse decode (array twice_first) ≡ parse decode (array in_order)
unfolding parse_entry
parse_array_canonical_example =
    parse_array_canonical decode twice_first in_order
      (script_hash 3 ∷ public_key_hash 1 ∷ script_hash 3 ∷ [])
      (public_key_hash 1 ∷ script_hash 3 ∷ []) (refl, (refl, (refl, tt))) (refl, (refl, tt))
      same_members
