-- ===== src/Payments/ShieldTests.antt =====
-- A shielding of two of three coinbase outputs, and the theorem at that call.
use wallet.Prelude.{ℕ, ◌≡◌, refl, true, false, none, some, List, [], ◌∷◌, ok}
use wallet.Payments.Policy.{is_compatible_with}
use wallet.Payments.Limits.{check_shielded_action_limits, check_counts, spends, output_count}
use wallet.Payments.Proposal.{
  PoolType, transparent, shielded, orchard, Step, same_pool, enforce_privacy_policy,
  step_privacy_requirement, check_requirement,
}
use wallet.Payments.Address.{TransparentAddress, public_key_hash, Address, same_address}
use wallet.Payments.Request.{memo_of}
use wallet.Payments.Propose.{check_proposal}
use wallet.Payments.SendTests.{amounts, amounts-IsChecked, zip}
use wallet.Payments.CallTests.{accounts, keys}
use wallet.Payments.Shield.{Arguments, Shielding, call, prepared, parse_privacy_policy}
use wallet.Payments.Shield.Asks.{Asks, shield_call-Asks}

-- Spends two transparent outputs of one address to Orchard.
abbrev shields : Step TransparentAddress
shields = record {
  input_in_pool = λ pool. elim pool [ transparent ↦ true | shielded q ↦ false ];
  output_in_pool = λ pool. elim pool [ transparent ↦ false | shielded q ↦ same_pool q orchard ];
  change_in_pool = λ _. false;
  transparent_inputs = public_key_hash 9 ∷ public_key_hash 9 ∷ [];
  note_pools = [];
  payment_pools = shielded orchard ∷ [];
  change_pools = [];
}

abbrev shielding : Shielding ℕ ℕ (List ℕ)
shielding = record {
  parse_str = λ s. none;
  decode = λ s. some (Address.transparent (public_key_hash 9));
  from_uuid = λ u. u;
  get_transparent_receivers = λ id. ok [];
  get_spendable_transparent_outputs = λ addr height. ok (40 ∷ 30 ∷ 5 ∷ []);
  propose_shielding_coinbase = λ addrs to memo limit. ok (record {
    steps = record { step = shields; input_values = 40 ∷ 30 ∷ [] } ∷ [];
    min_target_height = 100;
  });
  shown = λ pool. "a pool";
}

abbrev two_of_three : Arguments
two_of_three = record {
  fromaddress = "t1";
  toaddress = 7 ∷ [];
  has_fee = false;
  limit = some 2;
  memo = none;
  privacy_policy = none;
}

shield_call-Asks_example :
    Asks amounts amounts-IsChecked zip accounts keys shielding 50 two_of_three
      (call amounts zip accounts keys shielding 50 two_of_three)
shield_call-Asks_example =
    shield_call-Asks amounts amounts-IsChecked zip accounts keys shielding 50 two_of_three

asks_for_seed : (call amounts zip accounts keys shielding 50 two_of_three).0 ≡ some 77
unfolding call prepared check_proposal enforce_privacy_policy check_shielded_action_limits memo_of
    parse_privacy_policy check_requirement step_privacy_requirement
    wallet.Payments.Proposal.collect_set same_address is_compatible_with check_counts spends
    output_count
asks_for_seed = refl
