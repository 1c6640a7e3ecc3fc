-- ===== src/Rpc/Balances/Capped.antt =====
-- Sums of amounts in get_balances.rs and z_get_total_balance.rs: checking each step is checking the sum.
use wallet.Prelude.{
  ℕ, ◌+◌, ◌≤◌, ◌≡◌, ap, ◌∙◌, refl, sym, leb, Bool-cases, inl, inr, Option, none, some, List, [],
  ◌∷◌, if◌then◌else◌, ok, err, arith,
}
use wallet.Rpc.{wallet_error, with_message}
use wallet.Payments.Address.{Zatoshis, IsChecked, max_money}
use wallet.Rpc.Balances.{AccountBalance, add_to, fold_totals, total_of, total_balance}

-- A sum, unless it is above `MAX_MONEY`.
unfoldable pub capped : ℕ → Option ℕ
capped s = if leb s max_money then some s else none

pub capped-some : (s : ℕ) → s ≤ max_money → capped s ≡ some s
unfolding capped
capped-some s h = ground arith

pair_eq :
    {s t s' t' : ℕ}
    → s ≡ s'
    → t ≡ t'
    → ◌≡◌ {A = Option ℕ × Option ℕ} (capped s, capped t) (capped s', capped t')
pair_eq hs ht = cc

module _ (z : Zatoshis) (checked : IsChecked z) where
  pub add-capped : (a b : ℕ) → z.add a b ≡ capped (a + b)
  unfolding capped
  add-capped a b = checked.add_lem a b

  pub add_to-capped : (s v : ℕ) → add_to z (capped s) v ≡ capped (s + v)
  unfolding add_to capped
  add_to-capped s v = ground (arith, checked.add_lem s v)

  abbrev pub transparent_in : List AccountBalance → ℕ
  transparent_in [] = 0
  transparent_in (b ∷ bs) = b.unshielded.total + transparent_in bs

  abbrev pub private_in : List AccountBalance → ℕ
  private_in [] = 0
  private_in (b ∷ bs) = b.sapling.total + b.orchard.total + b.ironwood.total + private_in bs

  fold_totals-capped :
      (t p : ℕ) (bs : List AccountBalance)
      → fold_totals z (capped t, capped p) bs
        ≡ (capped (t + transparent_in bs), capped (p + private_in bs))
  unfolding fold_totals
  fold_totals-capped t p [] = pair_eq (ground arith) (ground arith)
  fold_totals-capped t p (b ∷ bs) =
      rw
        (
          add_to-capped t b.unshielded.total,
          add_to-capped p b.sapling.total,
          add_to-capped (p + b.sapling.total) b.orchard.total,
          add_to-capped (p + b.sapling.total + b.orchard.total) b.ironwood.total,
        )
        (fold_totals-capped (t + b.unshielded.total)
            (p + b.sapling.total + b.orchard.total + b.ironwood.total) bs
          ∙ pair_eq (ground arith) (ground arith))

  total_of-capped :
      (t p : ℕ)
      → total_of z (capped t, capped p)
        ≡ (if leb (t + p) max_money then some (t, p, t + p) else none)
  unfolding capped total_of
  total_of-capped t p = elim (Bool-cases (leb t max_money)) [
    | inl ht ↦ elim (Bool-cases (leb p max_money)) [
      | inl hp ↦ elim (Bool-cases (leb (t + p) max_money)) [
        | inl hs ↦ rw (ht, hp, checked.add_lem t p, hs) refl
        | inr hs ↦ rw (ht, hp, checked.add_lem t p, hs) refl
      ]
      | inr hp ↦ rw (ht, hp) (ground arith)
    ]
    | inr ht ↦ rw ht (ground arith)
  ]

  totals-capped :
      (bs : List AccountBalance)
      → fold_totals z (some 0, some 0) bs ≡ (capped (transparent_in bs), capped (private_in bs))
  totals-capped bs =
      ap (λ c. fold_totals z (c, c) bs) (sym (capped-some 0 (omega arith)))
      ∙ fold_totals-capped 0 0 bs
      ∙ pair_eq (omega arith) (omega arith)

  -- The totals of all accounts, or the error when they are together above `MAX_MONEY`.
  pub total_balance_lem :
      (bs : List AccountBalance)
      → total_balance z bs ≡ (
          if leb (transparent_in bs + private_in bs) max_money
          then ok (transparent_in bs, private_in bs, transparent_in bs + private_in bs)
          else err (with_message wallet_error "balance overflow"))
  unfolding total_balance
  total_balance_lem bs =
      rw (totals-capped bs, total_of-capped (transparent_in bs) (private_in bs))
        (elim (Bool-cases (leb (transparent_in bs + private_in bs) max_money)) [
          | inl h ↦ rw h refl
          | inr h ↦ rw h refl
        ])
