-- ===== src/Payments/CallTests.antt =====
-- A call of `z_sendmany` from the legacy pool, and the broadcast of what it built.
use Prim.Native.String.{String}
use wallet.Prelude.{ℕ, ◌≡◌, refl, true, false, Option, none, some, List, [], ◌∷◌, ok}
use wallet.Rpc.Amount.{
  zatoshis_from_value, amount_of, parse_fixed_point, whole_part, mantissa_sign, is_ascii_digit,
  read_digits, process_mantissa_digit, times_ten, upper_bound, fraction_part, exponent_part, at_end,
  scale, final_exponent, difference, to_digit, bounded, checked_amount, signed,
}
use wallet.Payments.Policy.{from_str, is_compatible_with, meet, eq}
use wallet.Payments.Limits.{
  check_shielded_action_limits, check_pools, check_counts, spends, output_count, is_shielded,
}
use wallet.Payments.Proposal.{
  transparent, same_pool, enforce_privacy_policy, step_privacy_requirement, check_requirement,
}
use wallet.Payments.Request.{build_request, build_payments, insert_new, memo_of}
use wallet.Payments.Source.{parse_privacy_policy, confirmations_policy_for_minconf}
use wallet.Payments.Recipients.{
  check_recipients, check_recipient, check_address, transparent_arm, allows_recipients,
}
use wallet.Payments.Propose.{propose_and_check, propose_checked, check_proposal, after_recipients}
use wallet.Payments.Outputs.{
  position, is_payment, check_source, check_path, check_pubkey, check_left, swap_remove,
  check_transparent_outputs,
}
use wallet.Payments.Address.{public_key_hash, Address, same_address}
use wallet.Payments.Broadcast.{
  ProposalStep, Ledger, proposed_transparent_payments, payment_made, verified,
  verify_and_broadcast_transactions,
}
use wallet.Payments.Broadcast.Sent.{Outcome, verify_and_broadcast_transactions-Outcome}
use wallet.Payments.Accounts.{
  Accounts, zcash_legacy_account, get_legacy_pool_account, find_legacy, fetched, if_legacy,
  derives_legacy_pool, is_legacy_pool_account, legacy_pool_account,
}
use wallet.Payments.SendMany.{
  Arguments, Settings, Keys, call, prepared, source, check_fee, check_count, derivation_of,
  with_derivation, started,
}
use wallet.Payments.SendMany.Asks.{Asks, call-Asks}
use wallet.Payments.SendMany.Legacy.{any_taddr-asks}
use wallet.Payments.SendTests.{amounts, zip, library, one_recipient, numbered, change_at}

-- One step that pays the address 7 in the transparent pool, and a node that accepts everything.
abbrev pays_one : List (ProposalStep ℕ)
pays_one =
    record {
      payment_pools = (0, transparent) ∷ [];
      payments = λ index. some (record { recipient_address = 7; amount = some 20 });
    }
    ∷ []

abbrev ledger : Ledger ℕ ℕ ℕ
ledger = record {
  get_transaction = λ txid. ok (some txid);
  outputs = λ tx. (some (public_key_hash 105), 30) ∷ (some (public_key_hash 7), 20) ∷ [];
  address_source = change_at;
  broadcast_transaction = λ n tx. ok tt;
  display = λ txid. "a transaction";
  encode = λ addr. "an address";
  shown = λ n. "an index";
}

abbrev decode_zcash : ℕ → Option Address
decode_zcash a = some (Address.transparent (public_key_hash a))

verify_and_broadcast_transactions-Outcome_example :
    Outcome numbered
      (some 100)
      ledger
      true
      (3 ∷ [])
      (proposed_transparent_payments decode_zcash pays_one)
      (verify_and_broadcast_transactions numbered
        (some 100)
        ledger
        decode_zcash
        true
        pays_one
        (3 ∷ []))
verify_and_broadcast_transactions-Outcome_example =
    verify_and_broadcast_transactions-Outcome numbered (some 100) ledger decode_zcash true pays_one
      (3 ∷ [])

sends_one :
    (verify_and_broadcast_transactions numbered
      (some 100)
      ledger
      decode_zcash
      true
      pays_one
      (3 ∷ [])).0
    ≡ 3 ∷ []
unfolding verify_and_broadcast_transactions payment_made verified same_address position is_payment
    check_source check_path check_pubkey check_left swap_remove check_transparent_outputs
    proposed_transparent_payments
sends_one = refl

-- The wallet has one account, of the seed 77 at the legacy index.
abbrev pub accounts : Accounts ℕ ℕ
accounts = record {
  find_account_for_address = λ a. ok (some 1);
  get_account = λ id. ok (some id);
  get_account_ids = ok (1 ∷ []);
  list_addresses = λ id. ok [];
  key_derivation = λ account. some (77, zcash_legacy_account);
  same = λ a b. false;
}

abbrev pub keys : Keys ℕ ℕ
keys = record { decrypt_seed = λ fp. ok fp; from_seed = λ seed index. ok seed }

abbrev settings : Settings
settings = record {
  orchard_actions = 50;
  confirmations = none;
  legacy_pool_seed_fingerprint = some 77;
}

abbrev no_address : String → Option Address
no_address s = none

abbrev arguments : Arguments
arguments = record {
  fromaddress = "ANY_TADDR";
  amounts = one_recipient;
  minconf = some 1;
  has_fee = false;
  privacy_policy = some "AllowRevealedRecipients";
}

call-Asks_example :
    Asks amounts zip accounts keys settings no_address
      (λ account policy. library)
      arguments
      (call amounts zip accounts keys settings no_address (λ account policy. library) arguments)
call-Asks_example =
    call-Asks amounts zip accounts keys settings no_address (λ account policy. library) arguments

asks_77 :
    (call amounts zip accounts keys settings no_address (λ account policy. library) arguments).0
    ≡ some 77
unfolding call prepared source check_fee check_count derivation_of with_derivation started
    zatoshis_from_value amount_of parse_fixed_point whole_part mantissa_sign is_ascii_digit
    read_digits process_mantissa_digit times_ten upper_bound fraction_part exponent_part at_end
    scale final_exponent difference to_digit bounded checked_amount signed build_request
    build_payments insert_new memo_of get_legacy_pool_account find_legacy fetched if_legacy
    derives_legacy_pool is_legacy_pool_account legacy_pool_account parse_privacy_policy
    confirmations_policy_for_minconf from_str is_compatible_with meet eq propose_and_check
    propose_checked check_proposal after_recipients check_recipients check_recipient check_address
    transparent_arm allows_recipients enforce_privacy_policy step_privacy_requirement
    check_requirement check_shielded_action_limits check_pools check_counts spends output_count
    is_shielded same_pool
asks_77 = refl

any_taddr-asks_example : settings.legacy_pool_seed_fingerprint ≡ some 77
any_taddr-asks_example =
    any_taddr-asks amounts zip accounts keys settings no_address (λ account policy. library)
      arguments 77 refl asks_77
