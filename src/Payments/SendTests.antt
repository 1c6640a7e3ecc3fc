-- ===== src/Payments/SendTests.antt =====
-- A send of one Orchard note to a transparent address, from the request to the broadcast, and the
-- theorems at that run.
use Prim.Native.String.{String}
use wallet.Prelude.{
  ℕ, ◌+◌, ◌-◌, ◌≡◌, ◌≢◌, ◌≤◌, ◌↔◌, refl, sym, ap, ◌∙◌, map, ok_injective, leb, ◌==◌, true, false,
  Option, none, some, List, [], ◌∷◌, if◌then◌else◌, Result, ok, err, ◌>>◌,
}
use wallet.Prelude.Int.{pos, negsuc}
use wallet.Rpc.Amount.{
  zatoshis_from_value, amount_of, parse_fixed_point, whole_part, mantissa_sign, is_ascii_digit,
  read_digits, process_mantissa_digit, times_ten, upper_bound, fraction_part, exponent_part, at_end,
  scale, final_exponent, difference, to_digit, bounded, checked_amount, signed, number, underflow,
  overflow,
}
use wallet.Payments.Policy.{full_privacy}
use wallet.Payments.Proposal.{transparent, shielded, orchard, Step, same_pool}
use wallet.Payments.Address.{
  TransparentAddress, public_key_hash, Address, Zatoshis, IsChecked, same_address, max_money,
}
use wallet.Payments.Outputs.{
  Derivation, TransparentAddressSource, derived, check_transparent_outputs, position, is_payment,
  check_source, check_path, check_pubkey, check_left, swap_remove,
}
use wallet.Payments.Request.{
  AmountParameter, Zip321, build_request, build_payments, insert_new, memo_of,
}
use wallet.Payments.Request.Accepts.{Entry, AllRead, AllNew, total, payments_of, build_request_iff}
use wallet.Payments.Recipients.Verdict.{first_refusal}
use wallet.Payments.Source.{shielded_only}
use wallet.Payments.Propose.{done, Proposer, propose_checked, propose_and_check}
use wallet.Payments.Propose.Built.{IsFaithful, recipients, propose_and_check_built}
use wallet.Payments.Outputs.Accounted.{Accounted, check_transparent_outputs_iff}

map_self : (qs : List (ℕ × Option ℕ)) → map (λ q. q) qs ≡ qs
map_self [] = refl
map_self (q ∷ qs) = ap (◌∷◌ q) (map_self qs)

abbrev pub amounts : Zatoshis
amounts = record {
  from_nonnegative_i64 = λ n. elim n [
    | pos a ↦ if leb a max_money then ok a else err overflow
    | negsuc a ↦ err underflow
  ];
  add = λ a b. if leb (a + b) max_money then some (a + b) else none;
  sub = λ a b. if leb b a then some (a - b) else none;
}

pub amounts-IsChecked : IsChecked amounts
amounts-IsChecked = record { add_lem = λ a b. refl; sub_lem = λ a b. refl }

-- A key derives the address of the sum of its number and the path.
abbrev pub numbered : Derivation
numbered = record {
  AccountPubKey = ℕ;
  PublicKey = ℕ;
  KeyPath = ℕ;
  derive_address_pubkey = λ key path. some (key + path);
  from_pubkey = public_key_hash;
}

abbrev pub change_at : TransparentAddress → Result (Option (TransparentAddressSource ℕ)) String
change_at addr = ok (some (derived 5))

abbrev paid_and_change : List (Option TransparentAddress × ℕ)
paid_and_change = (some (public_key_hash 105), 30) ∷ (some (public_key_hash 7), 20) ∷ []

check_transparent_outputs_iff_example :
    (check_transparent_outputs numbered
        (some 100)
        change_at
        paid_and_change
        ((public_key_hash 7, 20) ∷ [])
      ≡ ok tt)
    ↔ Accounted numbered (some 100) change_at paid_and_change ((public_key_hash 7, 20) ∷ [])
check_transparent_outputs_iff_example =
    check_transparent_outputs_iff numbered (some 100) change_at paid_and_change
      ((public_key_hash 7, 20) ∷ [])

checks_change :
    check_transparent_outputs numbered
      (some 100)
      change_at
      paid_and_change
      ((public_key_hash 7, 20) ∷ [])
    ≡ ok tt
unfolding check_transparent_outputs position is_payment same_address check_source check_path
    check_pubkey check_left swap_remove
checks_change = refl

abbrev pub zip : Zip321
zip = record {
  ZcashAddress = ℕ;
  Memo = List ℕ;
  Payment = ℕ × Option ℕ;
  TransactionRequest = List (ℕ × Option ℕ);
  parse = λ t. elim t [ [] ↦ none | c ∷ _ ↦ some c ];
  same = λ a b. a == b;
  hex_decode = some;
  from_bytes = some;
  payment_new = λ a v m. ok (a, v);
  request_new = ok;
}

-- Spends a note of Orchard to a transparent address.
abbrev reveals_recipient : Step TransparentAddress
reveals_recipient = record {
  input_in_pool = λ pool. elim pool [ transparent ↦ false | shielded q ↦ same_pool q orchard ];
  output_in_pool = λ pool. elim pool [ transparent ↦ true | shielded _ ↦ false ];
  change_in_pool = λ _. false;
  transparent_inputs = [];
  note_pools = orchard ∷ [];
  payment_pools = transparent ∷ [];
  change_pools = [];
}

abbrev pub library : Proposer ℕ (List (ℕ × Option ℕ))
library = record {
  payments = λ r. r;
  try_from_zcash_address = λ a. ok (Address.transparent (public_key_hash a));
  shown = λ _. "a pool";
  propose_transfer = λ r s c. ok (reveals_recipient ∷ []);
}

library-IsFaithful : IsFaithful zip library
library-IsFaithful = record {
  entry_of = λ q. q;
  payment_lem = λ a v m q h. sym (ok_injective h);
  request_lem = λ qs r h. sym (ok_injective h) ∙ sym (map_self qs);
}

-- One recipient, the address 7, is paid "1" ZEC.
abbrev pub one_recipient : List AmountParameter
one_recipient = record { address = 7 ∷ []; amount = number (49 ∷ []); memo = none } ∷ []

build_request_iff_example :
    (build_request amounts zip one_recipient ≡ ok ((7, some 100000000) ∷ [])) ↔ (
      (one_recipient ≢ [])
      × ((es : List (Entry amounts zip)) × AllRead amounts zip one_recipient es
          × AllNew amounts zip [] es
          × (total amounts zip es ≤ max_money)
          × (zip.request_new (payments_of amounts zip es) ≡ ok ((7, some 100000000) ∷ []))))
build_request_iff_example =
    build_request_iff amounts zip amounts-IsChecked one_recipient ((7, some 100000000) ∷ [])

builds : build_request amounts zip one_recipient ≡ ok ((7, some 100000000) ∷ [])
unfolding build_request build_payments insert_new memo_of zatoshis_from_value amount_of
    parse_fixed_point whole_part mantissa_sign is_ascii_digit read_digits process_mantissa_digit
    times_ten upper_bound fraction_part exponent_part at_end scale final_exponent difference
    to_digit bounded checked_amount signed
builds = refl

propose_and_check_built_example :
    (es : List (Entry amounts zip)) × AllRead amounts zip one_recipient es
    × (propose_and_check amounts library 50
          ((7, some 100000000) ∷ [])
          full_privacy
          (shielded_only (orchard ∷ []))
        ≡ done (
            first_refusal amounts amounts-IsChecked full_privacy library.shown
              library.try_from_zcash_address
              (recipients amounts zip library amounts-IsChecked library-IsFaithful 50 es)
            >> propose_checked amounts library 50
                ((7, some 100000000) ∷ [])
                full_privacy
                (shielded_only (orchard ∷ []))))
propose_and_check_built_example =
    propose_and_check_built amounts zip library amounts-IsChecked library-IsFaithful 50 full_privacy
      (shielded_only (orchard ∷ [])) one_recipient ((7, some 100000000) ∷ []) builds
