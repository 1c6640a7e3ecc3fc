-- ===== src/Payments/Shield/Sums.antt =====
-- The sums that `z_shieldcoinbase` reports.
use Prim.Native.String.{String}
use wallet.Prelude.{
  ℕ, ◌+◌, ◌-◌, ◌^◌, ◌≤◌, ◌≡◌, refl, sym, ap, subst, ◌∙◌, min, length, length-append, ◌++◌, some,
  List, [], ◌∷◌, Result, ok, ◌>>=◌, ok_or, map_err, map_err→ok, ok_or→some, >>=-eq-ok, >>=-ok_elim,
  ok_injective, arith,
}
use wallet.Rpc.{with_message, database, wallet_error}
use wallet.Payments.Address.{Zatoshis, IsChecked, TransparentAddress}
use wallet.Payments.Request.{Zip321}
use wallet.Payments.Accounts.{Accounts}
use wallet.Payments.SendMany.{Keys}
use wallet.Payments.Shield.{
  ShieldingStep, Proposal, Shielding, Preflight, saturating_add, checked_sub, add_values,
  count_each, sum_selected_inputs, enumerate_eligible, preflight_of,
}

abbrev pub sum : List ℕ → ℕ
sum [] = 0
sum (v ∷ vs) = v + sum vs

abbrev pub u64_max : ℕ
u64_max = 2 ^ 64 - 1

-- The values of all inputs of the proposal.
abbrev pub inputs_of : List ShieldingStep → List ℕ
inputs_of [] = []
inputs_of (step ∷ steps) = step.input_values ++ inputs_of steps

sum-++ : (xs ys : List ℕ) → sum (xs ++ ys) ≡ sum xs + sum ys
sum-++ [] ys = ground arith
sum-++ (x ∷ xs) ys = let ih = sum-++ xs ys in ground arith

count_each-eq : (c : ℕ) (vs : List ℕ) → c ≤ u64_max → count_each c vs ≡ min (c + length vs) u64_max
unfolding count_each saturating_add
count_each-eq c [] h = ground arith
count_each-eq c (v ∷ vs) h = count_each-eq (saturating_add c 1) vs (ground arith) ∙ ground arith

count_each-within : (c : ℕ) (vs : List ℕ) → c ≤ u64_max → count_each c vs ≤ u64_max
count_each-within c vs h = rw (count_each-eq c vs h) (ground arith)

checked_sub→eq : (a b : ℕ) {c : ℕ} → checked_sub a b ≡ some c → b + c ≡ a
unfolding checked_sub
checked_sub→eq a b h = ground arith

zero_add : (n : ℕ) → 0 + n ≡ n
zero_add n = omega arith

min_add :
    (c m n : ℕ) {a k : ℕ}
    → a ≡ min (c + m) u64_max
    → k ≡ m + n
    → min (a + n) u64_max ≡ min (c + k) u64_max
min_add c m n ha hk = ground arith

module _ (z : Zatoshis) (checked : IsChecked z) where
  sub→eq : (a b : ℕ) {c : ℕ} → z.sub a b ≡ some c → b + c ≡ a
  sub→eq a b h = ground (arith, checked.sub_lem a b)

  add→eq : (a b : ℕ) {c : ℕ} → z.add a b ≡ some c → c ≡ a + b
  add→eq a b h = ground (arith, checked.add_lem a b)

  add_values-eq :
      (o : String) (s : ℕ) (vs : List ℕ) {t : ℕ} → add_values z o s vs ≡ ok t → t ≡ s + sum vs
  unfolding add_values
  add_values-eq o s [] h = ground arith
  add_values-eq o s (v ∷ vs) h =
      let (s', e, h') = >>=-eq-ok (ok_or (z.add s v) (with_message wallet_error o)) _ h in
      let added = add→eq s v (ok_or→some (z.add s v) (with_message wallet_error o) e) in
      let ih = add_values-eq o s' vs h' in ih ∙ ap (λ x. x + sum vs) added ∙ ground arith

  sum_selected_inputs-eq :
      (c s : ℕ) (steps : List ShieldingStep) {r : ℕ × ℕ}
      → c ≤ u64_max
      → sum_selected_inputs z (c, s) steps ≡ ok r
      → (r.0 ≡ min (c + length (inputs_of steps)) u64_max) × (r.1 ≡ s + sum (inputs_of steps))
  unfolding sum_selected_inputs
  sum_selected_inputs-eq c s [] small h =
      let same = ok_injective h in
      (sym (ap (λ x. x.0) same) ∙ ground arith, sym (ap (λ x. x.1) same) ∙ ground arith)
  sum_selected_inputs-eq c s (step ∷ steps) small h =
      let (s', e, h') = >>=-eq-ok (add_values z _ s step.input_values) _ h in
      let (counted, summed) =
        sum_selected_inputs-eq (count_each c step.input_values) s' steps
          (count_each-within c step.input_values small) h' in
      (
        counted
            ∙ min_add c (length step.input_values) (length (inputs_of steps))
                (count_each-eq c step.input_values small)
                (length-append step.input_values (inputs_of steps)),
        summed
            ∙ ap (λ x. x + sum (inputs_of steps)) (add_values-eq _ s step.input_values e)
            ∙ ground (arith, sum-++ step.input_values (inputs_of steps)),
      )

  module _ {AccountId Account Seed SpendingKey : Type 0} (p : Zip321)
      (w : Accounts AccountId Account) (k : Keys Seed SpendingKey)
      (l : Shielding AccountId p.ZcashAddress p.Memo) (actions_limit : ℕ) where
    -- The values of the outputs of all addresses, as the database answers them.
    unfoldable pub eligible_in : (height : ℕ) → List TransparentAddress → Result (List ℕ) String
    eligible_in height [] = ok []
    eligible_in height (addr ∷ addrs) = do
      values ← l.get_spendable_transparent_outputs addr height
      rest ← eligible_in height addrs
      ok (values ++ rest)

    enumerate_eligible-eq :
        (height c s : ℕ) (addrs : List TransparentAddress) {r : ℕ × ℕ}
        → c ≤ u64_max
        → enumerate_eligible z p w k l actions_limit height (c, s) addrs ≡ ok r
        → (vs : List ℕ) × (eligible_in height addrs ≡ ok vs)
          × (r.0 ≡ min (c + length vs) u64_max)
          × (r.1 ≡ s + sum vs)
    unfolding enumerate_eligible eligible_in saturating_add
    enumerate_eligible-eq height c s [] small h =
        let same = ok_injective h in
        ([], refl, sym (ap (λ x. x.0) same) ∙ ground arith, sym (ap (λ x. x.1) same) ∙ ground arith)
    enumerate_eligible-eq height c s (addr ∷ addrs) small h =
        let (vs, e, h') =
          >>=-eq-ok
            (map_err (with_message database) (l.get_spendable_transparent_outputs addr height)) _
            h in
        let (s', e', h2) = >>=-eq-ok (add_values z _ s vs) _ h' in
        let (rest, er, counted, summed) =
          enumerate_eligible-eq height (min (c + length vs) u64_max) s' addrs (ground arith) h2 in
        let found =
          map_err→ok (with_message database) (l.get_spendable_transparent_outputs addr height) e in
        (
          vs ++ rest,
          rw (found, er) refl,
          counted ∙ min_add c (length vs) (length rest) refl (length-append vs rest),
          summed
              ∙ ap (λ x. x + sum rest) (add_values-eq _ s vs e')
              ∙ ground (arith, sum-++ vs rest),
        )

    -- The answer's numbers are those of the inputs of the proposal and, with them, of all that the
    -- database answers for the addresses.
    pub record Adds (addrs : List TransparentAddress) (proposal : Proposal) (pre : Preflight)
        : Type 0 where
      pub eligible : List ℕ
      pub eligible_lem : eligible_in proposal.min_target_height addrs ≡ ok eligible
      pub shielding_utxos_lem :
          pre.shielding_utxos ≡ min (length (inputs_of proposal.steps)) u64_max
      pub shielding_value_lem : pre.shielding_value ≡ sum (inputs_of proposal.steps)
      pub utxos_lem : pre.shielding_utxos + pre.remaining_utxos ≡ min (length eligible) u64_max
      pub value_lem : pre.shielding_value + pre.remaining_value ≡ sum eligible

    built-Adds :
        (addrs : List TransparentAddress) (proposal : Proposal) (shielding total : ℕ × ℕ)
        (utxos value : ℕ)
        → sum_selected_inputs z (0, 0) proposal.steps ≡ ok shielding
        → enumerate_eligible z p w k l actions_limit proposal.min_target_height (0, 0) addrs
          ≡ ok total
        → checked_sub total.0 shielding.0 ≡ some utxos
        → z.sub total.1 shielding.1 ≡ some value
        → Adds addrs proposal (record {
          remaining_utxos = utxos;
          remaining_value = value;
          shielding_utxos = shielding.0;
          shielding_value = shielding.1;
        })
    built-Adds addrs proposal shielding total utxos value e1 e2 e3 e4 =
        let (counted, summed) = sum_selected_inputs-eq 0 0 proposal.steps (ground arith) e1 in
        let (vs, ev, counted', summed') =
          enumerate_eligible-eq proposal.min_target_height 0 0 addrs (ground arith) e2 in
        record {
          eligible = vs;
          eligible_lem = ev;
          shielding_utxos_lem = counted ∙ ap (λ n. min n u64_max) (zero_add _);
          shielding_value_lem = summed ∙ zero_add _;
          utxos_lem =
              checked_sub→eq total.0 shielding.0 e3
              ∙ counted'
              ∙ ap (λ n. min n u64_max) (zero_add _);
          value_lem = sub→eq total.1 shielding.1 e4 ∙ summed' ∙ zero_add _;
        }

    pub preflight_of-Adds :
        (addrs : List TransparentAddress) (proposal : Proposal) (pre : Preflight)
        → preflight_of z p w k l actions_limit addrs proposal ≡ ok pre
        → Adds addrs proposal pre
    unfolding preflight_of
    preflight_of-Adds addrs proposal pre h =
        >>=-ok_elim (sum_selected_inputs z (0, 0) proposal.steps) _ h λ shielding e1 h1.
          >>=-ok_elim
            (enumerate_eligible z p w k l actions_limit proposal.min_target_height (0, 0) addrs) _
            h1
            λ total e2 h2.
              >>=-ok_elim (ok_or (checked_sub total.0 shielding.0) _) _ h2 λ utxos e3 h3.
                >>=-ok_elim (ok_or (z.sub total.1 shielding.1) _) _ h3 λ value e4 h4.
                  subst (Adds addrs proposal) (ok_injective h4) (
                    built-Adds addrs proposal shielding total utxos value e1 e2
                      (ok_or→some (checked_sub total.0 shielding.0) _ e3)
                      (ok_or→some (z.sub total.1 shielding.1) _ e4))
