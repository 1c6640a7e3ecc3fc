-- ===== src/Rpc/Balances/Sums.antt =====
-- The total that is reported for an account is the sum of what is reported for its pools.
use Prim.Native.String.{String}
use wallet.Prelude.{
  ℕ, ◌+◌, ◌≡◌, refl, sym, ap, ◌∙◌, ◌&&◌, true, Bool-cases, inl, inr, Option, none, some, ok, ◌>>=◌,
  >>=-eq-ok, ok_injective, ok_or, ok_or→some, arith,
}
use wallet.Payments.Address.{Zatoshis, IsChecked}
use wallet.Rpc.Balances.{
  Bucket, AccountBalance, Balance, TransparentBalance, Report, opt_value, opt_balance, is_empty,
  corrupt, add_to, opt_balance_from, opt_transparent_balance, total_spendable, total_pending,
  balance_from, account_balance_response,
}

-- The documented answers of zcash_client_backend: a bucket's total leaves its dust out, an account's
-- own amounts are those of its shielded pools, and its dust is that of all.
pub record IsConsistent (a : AccountBalance) : Type 0 where
  pub regular_total :
      a.regular.total
      ≡ a.regular.spendable_value + a.regular.change_pending_confirmation
        + a.regular.value_pending_spendability
  pub coinbase_total :
      a.coinbase.total
      ≡ a.coinbase.spendable_value + a.coinbase.change_pending_confirmation
        + a.coinbase.value_pending_spendability
  pub spendable_lem :
      a.spendable_value
      ≡ a.sapling.spendable_value + a.orchard.spendable_value + a.ironwood.spendable_value
  pub change_lem :
      a.change_pending_confirmation
      ≡ a.sapling.change_pending_confirmation + a.orchard.change_pending_confirmation
        + a.ironwood.change_pending_confirmation
  pub pending_lem :
      a.value_pending_spendability
      ≡ a.sapling.value_pending_spendability + a.orchard.value_pending_spendability
        + a.ironwood.value_pending_spendability
  pub dust_lem :
      a.uneconomic_value
      ≡ a.sapling.uneconomic_value + a.orchard.uneconomic_value + a.ironwood.uneconomic_value
        + a.regular.uneconomic_value + a.coinbase.uneconomic_value

-- What is reported, where what is left out is zero.
abbrev pub amount : Option ℕ → ℕ
amount none = 0
amount (some v) = v

-- The spendable value, the pending and the dust of a balance.
pub record Values : Type 0 where
  pub spendable : ℕ
  pub pending : ℕ
  pub dust : ℕ

abbrev pub values : Balance → Values
values b = record { spendable = b.spendable; pending = amount b.pending; dust = amount b.dust }

abbrev pub none_or : Option Balance → Values
none_or none = record { spendable = 0; pending = 0; dust = 0 }
none_or (some b) = values b

infixl 65 ◌⊕◌
abbrev pub ◌⊕◌ : Values → Values → Values
v ⊕ w = record {
  spendable = v.spendable + w.spendable;
  pending = v.pending + w.pending;
  dust = v.dust + w.dust;
}

abbrev pub of_transparent : Option TransparentBalance → Values
of_transparent none = record { spendable = 0; pending = 0; dust = 0 }
of_transparent (some t) = none_or t.regular ⊕ none_or t.coinbase

abbrev of_bucket : Bucket → Values
of_bucket b = record {
  spendable = b.spendable_value;
  pending = b.change_pending_confirmation + b.value_pending_spendability;
  dust = b.uneconomic_value;
}

amount-opt_value : (v : ℕ) → amount (opt_value v) ≡ v
unfolding opt_value
amount-opt_value v = ground arith

none_or-opt_balance :
    (s p d : ℕ) → none_or (opt_balance s p d) ≡ record { spendable = s; pending = p; dust = d }
unfolding opt_balance opt_value
none_or-opt_balance s p d = ground arith

values_eq :
    {s p d s' p' d' : ℕ}
    → s ≡ s'
    → p ≡ p'
    → d ≡ d'
    → ◌≡◌ {A = Values}
        (record { spendable = s; pending = p; dust = d })
        (record { spendable = s'; pending = p'; dust = d' })
values_eq hs hp hd = cc

⊕-ap : {v v' w w' : Values} → v ≡ v' → w ≡ w' → v ⊕ w ≡ v' ⊕ w'
⊕-ap hv hw = cc

module _ (z : Zatoshis) (checked : IsChecked z) where
  add→eq : (a b : ℕ) {c : ℕ} → z.add a b ≡ some c → a + b ≡ c
  add→eq a b h = ground (arith, checked.add_lem a b)

  add_to→eq :
      (o : Option ℕ) (v : ℕ) {c : ℕ} → add_to z o v ≡ some c → (a : ℕ) × (o ≡ some a) × (a + v ≡ c)
  unfolding add_to
  add_to→eq none v h = cc
  add_to→eq (some a) v h = (a, refl, add→eq a v h)

  opt_balance_from-ok :
      (b : Bucket) (o : Option Balance) → opt_balance_from z b ≡ ok o → none_or o ≡ of_bucket b
  unfolding opt_balance_from
  opt_balance_from-ok b o h =
      let (pending, e, h') =
        >>=-eq-ok (ok_or (z.add b.change_pending_confirmation b.value_pending_spendability) corrupt)
          _ h in
      ap none_or (sym (ok_injective h'))
      ∙ none_or-opt_balance b.spendable_value pending b.uneconomic_value
      ∙ ap (λ p. record { spendable = b.spendable_value; pending = p; dust = b.uneconomic_value })
          (sym (
            add→eq b.change_pending_confirmation b.value_pending_spendability (
              ok_or→some (z.add b.change_pending_confirmation b.value_pending_spendability) corrupt
                e)))

  of_empty :
      (b : Bucket)
      → b.total ≡ b.spendable_value + b.change_pending_confirmation + b.value_pending_spendability
      → is_empty b ≡ true
      → of_bucket b ≡ record { spendable = 0; pending = 0; dust = 0 }
  unfolding is_empty
  of_empty b total h = values_eq (ground arith) (ground arith) (ground arith)

  opt_transparent_balance-ok :
      (r c : Bucket) (o : Option TransparentBalance)
      → r.total ≡ r.spendable_value + r.change_pending_confirmation + r.value_pending_spendability
      → c.total ≡ c.spendable_value + c.change_pending_confirmation + c.value_pending_spendability
      → opt_transparent_balance z r c ≡ ok o
      → of_transparent o ≡ of_bucket r ⊕ of_bucket c
  unfolding opt_transparent_balance
  opt_transparent_balance-ok r c o hr hc h = elim (Bool-cases (is_empty r && is_empty c)) [
    | inl e ↦
        ap of_transparent (sym (ok_injective (rw e at h)))
        ∙ sym (⊕-ap (of_empty r hr (ground arith)) (of_empty c hc (ground arith)))
    | inr e ↦
        let h' : (opt_balance_from z r >>= λ x.
        opt_balance_from z c >>= λ y. ok (some (record { regular = x; coinbase = y })))
            ≡ ok o =
          rw e at h in
        let (x, hx, rest) = >>=-eq-ok (opt_balance_from z r) _ h' in
        let (y, hy, last) = >>=-eq-ok (opt_balance_from z c) _ rest in
        ap of_transparent (sym (ok_injective last))
        ∙ ⊕-ap (opt_balance_from-ok r x hx) (opt_balance_from-ok c y hy)
  ]

  total_spendable-eq :
      (a : AccountBalance) {v : ℕ}
      → total_spendable z a ≡ some v
      → a.spendable_value + a.regular.spendable_value + a.coinbase.spendable_value ≡ v
  unfolding total_spendable
  total_spendable-eq a h =
      let (u, hu, hv) =
        add_to→eq (z.add a.spendable_value a.regular.spendable_value) a.coinbase.spendable_value
          h in
      ap (λ x. x + a.coinbase.spendable_value)
        (add→eq a.spendable_value a.regular.spendable_value hu)
      ∙ hv

  total_pending-eq :
      (a : AccountBalance) {v : ℕ}
      → total_pending z a ≡ some v
      → a.change_pending_confirmation + a.value_pending_spendability
          + a.regular.change_pending_confirmation + a.regular.value_pending_spendability
          + a.coinbase.change_pending_confirmation + a.coinbase.value_pending_spendability
        ≡ v
  unfolding total_pending
  total_pending-eq a h =
      let (s5, h5, e5) = add_to→eq (_) a.coinbase.value_pending_spendability h in
      let (s4, h4, e4) = add_to→eq (_) a.coinbase.change_pending_confirmation h5 in
      let (s3, h3, e3) = add_to→eq (_) a.regular.value_pending_spendability h4 in
      let (s2, h2, e2) = add_to→eq (_) a.regular.change_pending_confirmation h3 in
      let e1 = add→eq a.change_pending_confirmation a.value_pending_spendability h2 in ground arith

  balance_from-ok :
      (a : AccountBalance) (t : Balance)
      → IsConsistent a
      → balance_from z a ≡ ok t
      → values t
        ≡ of_bucket a.regular
          ⊕ of_bucket a.coinbase
          ⊕ of_bucket a.sapling
          ⊕ of_bucket a.orchard
          ⊕ of_bucket a.ironwood
  unfolding balance_from
  balance_from-ok a t c h =
      let (spendable, hs, rest) = >>=-eq-ok (ok_or (total_spendable z a) corrupt) _ h in
      let (pending, hp, last) = >>=-eq-ok (ok_or (total_pending z a) corrupt) _ rest in
      ap values (sym (ok_injective last))
      ∙ values_eq
          (sym (total_spendable-eq a (ok_or→some (total_spendable z a) corrupt hs)) ∙ ground arith)
          (amount-opt_value pending
            ∙ sym (total_pending-eq a (ok_or→some (total_pending z a) corrupt hp))
            ∙ ground arith)
          (amount-opt_value a.uneconomic_value ∙ ground arith)

  pub response-sums :
      (uuid : String) (a : AccountBalance) (r : Report)
      → IsConsistent a
      → account_balance_response z uuid a ≡ ok r
      → values r.total
        ≡ of_transparent r.transparent ⊕ none_or r.sapling ⊕ none_or r.orchard ⊕ none_or r.ironwood
  unfolding account_balance_response
  response-sums uuid a r c h =
      let (t, ht, h1) = >>=-eq-ok (opt_transparent_balance z a.regular a.coinbase) _ h in
      let (s, hs, h2) = >>=-eq-ok (opt_balance_from z a.sapling) _ h1 in
      let (o, ho, h3) = >>=-eq-ok (opt_balance_from z a.orchard) _ h2 in
      let (i, hi, h4) = >>=-eq-ok (opt_balance_from z a.ironwood) _ h3 in
      let (b, hb, last) = >>=-eq-ok (balance_from z a) _ h4 in
      ap (λ x. values x.total) (sym (ok_injective last))
      ∙ balance_from-ok a b c hb
      ∙ sym (
          ⊕-ap
            (⊕-ap
              (⊕-ap
                (opt_transparent_balance-ok a.regular a.coinbase t c.regular_total c.coinbase_total
                  ht)
                (opt_balance_from-ok a.sapling s hs))
              (opt_balance_from-ok a.orchard o ho))
            (opt_balance_from-ok a.ironwood i hi))
      ∙ ap
          (λ x.
            of_transparent x.transparent
            ⊕ none_or x.sapling
            ⊕ none_or x.orchard
            ⊕ none_or x.ironwood)
          (ok_injective last)
