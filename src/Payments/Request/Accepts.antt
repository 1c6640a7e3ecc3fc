-- ===== src/Payments/Request/Accepts.antt =====
-- Which requests `build_request` accepts.
use wallet.Prelude.{
  ℕ, ◌+◌, ◌≤◌, ◌≡◌, ◌≢◌, refl, sym, ap, subst, inl, inr, append-nil, ◌∙◌, ◌↔◌, any, false,
  Bool-cases, Option, some, List, [], ◌∷◌, ◌++◌, map, append_assoc, ok, >>=-eq-ok, ok_injective,
  err-ne-ok, ok_or→some, map_err→ok, arith,
}
use wallet.Rpc.Amount.{zatoshis_from_value}
use wallet.Payments.Address.{Zatoshis, IsChecked, max_money}
use wallet.Payments.Request.{
  AmountParameter, Zip321, memo_of, insert_new, build_payments, build_request,
}

zero_le_iff : (t : ℕ) {m : ℕ} → (0 + t ≤ m) ↔ (t ≤ m)
zero_le_iff t = (λ h. omega arith, λ h. omega arith)

regroup : (t v r : ℕ) {s m : ℕ} → t + v ≡ s → s + r ≤ m → t + (v + r) ≤ m
regroup t v r e h = omega arith

cons-ne-nil : {A : Type 0} {x : A} {xs : List A} → x ∷ xs ≢ []
cons-ne-nil h = cc

first_fits : (t v r : ℕ) {m : ℕ} → t + (v + r) ≤ m → (t + v ≤ m) × (t + v + r ≤ m)
first_fits t v r h = (omega arith, omega arith)

module _ (z : Zatoshis) (p : Zip321) where
  open p use {ZcashAddress, Memo, Payment, TransactionRequest, parse, same}

  -- What an entry of the request is read as.
  pub record Entry : Type 0 where
    pub addr : ZcashAddress
    pub memo : Option Memo
    pub value : ℕ
    pub payment : Payment

  pub record IsRead (a : AmountParameter) (e : Entry) : Type 0 where
    pub address_lem : parse a.address ≡ some e.addr
    pub memo_lem : memo_of z p a.memo ≡ ok e.memo
    pub value_lem : zatoshis_from_value z.from_nonnegative_i64 a.amount ≡ ok e.value
    pub payment_lem : p.payment_new e.addr (some e.value) e.memo ≡ ok e.payment

  abbrev pub AllRead : List AmountParameter → List Entry → Type 0
  AllRead [] [] = Unit
  AllRead (a ∷ as') (e ∷ es) = IsRead a e × AllRead as' es
  AllRead _ _ = ⊥

  -- No address twice, nor one of those given.
  abbrev pub AllNew : List ZcashAddress → List Entry → Type 0
  AllNew seen [] = Unit
  AllNew seen (e ∷ es) = (any (same e.addr) seen ≡ false) × AllNew (e.addr ∷ seen) es

  abbrev pub total : List Entry → ℕ
  total [] = 0
  total (e ∷ es) = e.value + total es

  abbrev pub payments_of : List Entry → List Payment
  payments_of = map (λ (e : Entry). e.payment)

  insert_new→eq :
      (addr : ZcashAddress) (seen : List ZcashAddress) {seen' : List ZcashAddress}
      → insert_new z p addr seen ≡ ok seen'
      → (any (same addr) seen ≡ false) × (addr ∷ seen ≡ seen')
  unfolding insert_new
  insert_new→eq addr seen h = elim (Bool-cases (any (same addr) seen)) [
    | inl old ↦ absurd (err-ne-ok (rw old at h))
    | inr new ↦ (new, ok_injective (rw new at h))
  ]

  module _ (checked : IsChecked z) where
    add→eq : (a b : ℕ) {c : ℕ} → z.add a b ≡ some c → (c ≤ max_money) × (a + b ≡ c)
    add→eq a b h = ground (arith, checked.add_lem a b)

    le→add : (a b : ℕ) → a + b ≤ max_money → z.add a b ≡ some (a + b)
    le→add a b h = ground (arith, checked.add_lem a b)

    -- What the loop reads from a point on.
    abbrev Rest :
        List AmountParameter
        → List ZcashAddress
        → List Payment
        → (total_out : ℕ) → List Payment
        → Type 0
    Rest amounts seen before total_out payments =
        (es : List Entry) × AllRead amounts es
        × AllNew seen es
        × (total_out + total es ≤ max_money)
        × (before ++ payments_of es ≡ payments)

    build→Rest :
        (amounts : List AmountParameter) (seen : List ZcashAddress) (before : List Payment)
        (total_out : ℕ) {payments : List Payment}
        → total_out ≤ max_money
        → build_payments z p amounts seen before total_out ≡ ok payments
        → Rest amounts seen before total_out payments
    unfolding build_payments
    build→Rest [] seen before total_out le h =
        ([], tt, tt, omega arith, append-nil before ∙ ok_injective h)
    build→Rest (a ∷ amounts) seen before total_out le h =
        let (addr, e1, h1) = >>=-eq-ok _ _ h in
        let (seen', e2, h2) = >>=-eq-ok _ _ h1 in
        let (memo, e3, h3) = >>=-eq-ok _ _ h2 in
        let (value, e4, h4) = >>=-eq-ok _ _ h3 in
        let (payment, e5, h5) = >>=-eq-ok _ _ h4 in
        let (sum, e6, h6) = >>=-eq-ok _ _ h5 in
        let (new, s) = insert_new→eq addr seen e2 in
        let (small, t) = add→eq total_out value (ok_or→some _ _ e6) in
        let (es, read, news, bound, eq) =
          build→Rest amounts seen' (before ++ (payment ∷ [])) sum small h6 in
        let e : Entry = record { addr = addr; memo = memo; value = value; payment = payment } in
        let reads : IsRead a e = record {
          address_lem = ok_or→some _ _ e1;
          memo_lem = e3;
          value_lem = e4;
          payment_lem = map_err→ok _ _ e5;
        } in
        (
          e ∷ es,
          (reads, read),
          (new, subst (λ l. AllNew l es) (sym s) news),
          regroup total_out value (total es) t bound,
          sym (append_assoc before (payment ∷ []) (payments_of es)) ∙ eq,
        )

    Rest→build :
        (amounts : List AmountParameter) (seen : List ZcashAddress) (before : List Payment)
        (total_out : ℕ) (es : List Entry)
        → AllRead amounts es
        → AllNew seen es
        → total_out + total es ≤ max_money
        → build_payments z p amounts seen before total_out ≡ ok (before ++ payments_of es)
    unfolding build_payments insert_new
    Rest→build [] seen before total_out [] read new le = ap ok (sym (append-nil before))
    Rest→build [] seen before total_out (e ∷ es) read new le = absurd read
    Rest→build (a ∷ as') seen before total_out [] read new le = absurd read
    Rest→build (a ∷ as') seen before total_out (e ∷ es) (r, read) (n, new) le =
        rw
          (
            r.address_lem,
            n,
            r.memo_lem,
            r.value_lem,
            r.payment_lem,
            le→add total_out e.value (first_fits total_out e.value (total es) le).0,
          )
          (Rest→build as' (e.addr ∷ seen) (before ++ (e.payment ∷ [])) (total_out + e.value) es read
              new (first_fits total_out e.value (total es) le).1
            ∙ ap ok (append_assoc before (e.payment ∷ []) (payments_of es)))

    build_payments_iff :
        (amounts : List AmountParameter) (payments : List Payment)
        → (build_payments z p amounts [] [] 0 ≡ ok payments) ↔ (
            (es : List Entry) × AllRead amounts es
            × AllNew [] es
            × (total es ≤ max_money)
            × (payments_of es ≡ payments))
    build_payments_iff amounts payments = (
      λ h.
          let (es, read, new, le, e) = build→Rest amounts [] [] 0 (omega arith) h in
          (es, read, new, (zero_le_iff (total es)).0 le, e),
      λ (es, read, new, le, e).
          Rest→build amounts [] [] 0 es read new ((zero_le_iff (total es)).1 le) ∙ ap ok e,
    )

    -- A request is built exactly where there is an entry, every entry is read (its address, its memo,
    -- its amount, and the library makes a payment of them), no address occurs twice, the amounts are
    -- together at most `max_money`, and the library accepts the payments, in their order, as a request.
    pub build_request_iff :
        (amounts : List AmountParameter) (r : TransactionRequest)
        → (build_request z p amounts ≡ ok r) ↔ (
            (amounts ≢ [])
            × ((es : List Entry) × AllRead amounts es
                × AllNew [] es
                × (total es ≤ max_money)
                × (p.request_new (payments_of es) ≡ ok r)))
    unfolding build_request
    build_request_iff [] r =
        (λ h. absurd (err-ne-ok h), λ (some_entry, _). absurd (some_entry refl))
    build_request_iff (a ∷ as') r = (
      λ h.
          let (payments, e, h') = >>=-eq-ok _ _ h in
          let (es, read, new, le, eq) = (build_payments_iff (a ∷ as') payments).0 e in
          (cons-ne-nil, (es, read, new, le, ap p.request_new eq ∙ map_err→ok _ _ h')),
      λ (_, (es, read, new, le, made)).
          rw ((build_payments_iff (a ∷ as') (payments_of es)).1 (es, read, new, le, refl), made)
            refl,
    )
