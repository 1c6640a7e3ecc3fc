-- ===== src/Payments/Outputs/Accounted.antt =====
-- What `check_transparent_outputs` accepts.
use mathlib.Core.List.Perm
use mathlib.Core.List.{Perm, perm-cons, perm_middle, mem-append, mem-cons_self}
use mathlib.Core.Logic.Or
use wallet.Prelude.{
  ℕ, suc, ◌≡◌, refl, ap, ◌↔◌, inl, inr, Option, none, some, List, [], ◌∷◌, ◌++◌, map, Result, ok,
  err, err-ne-ok, All, Bool-cases, Option-cases,
}
use wallet.Payments.Address.{TransparentAddress, same_address, same_address→eq, same_address_refl}
use wallet.Payments.Outputs.{
  position, swap_remove, Derivation, Payment, is_payment, TransparentAddressSource, derived,
  standalone, check_pubkey, check_path, check_source, check_left, check_outputs,
  check_transparent_outputs,
}
use wallet.Payments.Outputs.Taken.{
  >>-eq-ok, nil-ne-cons, position-some-perm, position-none-not-mem, position-All,
}

module _ {E : Type 0} (d : Derivation) (account_pubkey : Option d.AccountPubKey)
    (address_source : TransparentAddress
      → Result (Option (TransparentAddressSource d.KeyPath)) E) where
  -- The account's key derives the address at the path that the wallet records for it.
  abbrev pub IsDerived : TransparentAddress → Type 0
  IsDerived addr =
      (path : d.KeyPath) × (key : d.AccountPubKey) × (pubkey : d.PublicKey) × (address_source addr
        ≡ ok (some (derived path)))
      × (account_pubkey ≡ some key)
      × (d.derive_address_pubkey key path ≡ some pubkey)
      × (d.from_pubkey pubkey ≡ addr)

  pubkey→IsDerived :
      (addr : TransparentAddress) (path : d.KeyPath) (key : d.AccountPubKey)
      (pubkey : Option d.PublicKey)
      → address_source addr ≡ ok (some (derived path))
      → account_pubkey ≡ some key
      → d.derive_address_pubkey key path ≡ pubkey
      → check_pubkey d account_pubkey address_source addr pubkey ≡ ok tt
      → IsDerived addr
  unfolding check_pubkey
  pubkey→IsDerived addr path key none e f g h = cc
  pubkey→IsDerived addr path key (some pubkey) e f g h =
      elim (Bool-cases (same_address (d.from_pubkey pubkey) addr)) [
        | inl same ↦ (path, key, pubkey, e, f, g, same_address→eq _ _ same)
        | inr other ↦ absurd (err-ne-ok (rw other at h))
      ]

  key→IsDerived :
      (addr : TransparentAddress) (path : d.KeyPath) (key : Option d.AccountPubKey)
      → address_source addr ≡ ok (some (derived path))
      → account_pubkey ≡ key
      → check_path d account_pubkey address_source addr path key ≡ ok tt
      → IsDerived addr
  unfolding check_path
  key→IsDerived addr path none e f h = cc
  key→IsDerived addr path (some key) e f h =
      pubkey→IsDerived addr path key (d.derive_address_pubkey key path) e f refl h

  source→IsDerived :
      (addr : TransparentAddress) (source : Result (Option (TransparentAddressSource d.KeyPath)) E)
      → address_source addr ≡ source
      → check_source d account_pubkey address_source addr source ≡ ok tt
      → IsDerived addr
  unfolding check_source
  source→IsDerived addr (err e) f h = cc
  source→IsDerived addr (ok none) f h = cc
  source→IsDerived addr (ok (some standalone)) f h = cc
  source→IsDerived addr (ok (some (derived path))) f h =
      key→IsDerived addr path account_pubkey f refl h

  IsDerived→check_source :
      (addr : TransparentAddress)
      → IsDerived addr
      → check_source d account_pubkey address_source addr (address_source addr) ≡ ok tt
  unfolding check_source check_path check_pubkey
  IsDerived→check_source addr (path, key, pubkey, e, f, g, h) =
      rw (e, f, g, h) (rw (same_address_refl addr) refl)

  -- The outputs with the addresses recognized are the payments with others, all of them derived.
  abbrev pub Accounted : List (Option TransparentAddress × ℕ) → List Payment → Type 0
  Accounted outputs expected =
      (paid : List Payment) × (change : List Payment) × (outputs ≡ map (λ p. (some p.0, p.1)) paid)
      × Perm paid (expected ++ change)
      × All (λ p. IsDerived p.0) change

  check→Accounted :
      (vout : ℕ) (outputs : List (Option TransparentAddress × ℕ)) (expected : List Payment)
      → check_outputs d account_pubkey address_source vout outputs expected ≡ ok tt
      → Accounted outputs expected
  unfolding check_outputs check_left
  check→Accounted vout [] [] h = ([], [], refl, Perm.nil, tt)
  check→Accounted vout [] (p ∷ ps) h = cc
  check→Accounted vout ((none, v) ∷ outputs) expected h = cc
  check→Accounted vout ((some a, v) ∷ outputs) expected h =
      elim (Option-cases (position (is_payment a v) expected)) [
        | inl nowhere ↦
            let (checked, later) = >>-eq-ok _ _ (rw (nowhere, check_outputs) at h) in
            let (paid, change, e, perm, all) = check→Accounted (suc vout) outputs expected later in
            (
              (a, v) ∷ paid,
              (a, v) ∷ change,
              ap (◌∷◌ (some a, v)) e,
              Perm.trans (Perm.cons (a, v) perm) (Perm.symm (perm_middle expected change)),
              (source→IsDerived a (address_source a) refl checked, all),
            )
        | inr (i, found) ↦
            let (paid, change, e, perm, all) =
              check→Accounted (suc vout) outputs (swap_remove i expected)
                (rw (found, check_outputs) at h) in
            (
              (a, v) ∷ paid,
              change,
              ap (◌∷◌ (some a, v)) e,
              Perm.trans (Perm.cons (a, v) perm)
                  (Perm.append_right change (Perm.symm (position-some-perm a v expected i found))),
              all,
            )
      ]

  Perm→check :
      (vout : ℕ) (paid expected change : List Payment)
      → Perm paid (expected ++ change)
      → All (λ p. IsDerived p.0) change
      → check_outputs d account_pubkey address_source vout
          (map (λ p. (some p.0, p.1)) paid)
          expected
        ≡ ok tt
  unfolding check_outputs check_left
  Perm→check vout [] [] change perm all = refl
  Perm→check vout [] (p ∷ ps) change perm all = absurd (nil-ne-cons (Perm.nil-eq perm))
  Perm→check vout ((a, v) ∷ paid) expected change perm all =
      elim (Option-cases (position (is_payment a v) expected)) [
        | inl nowhere ↦ elim (Option-cases (position (is_payment a v) change)) [
          | inl unknown ↦ absurd (
              Or.elim (hlevel) (mem-append.0 ((Perm.mem_iff perm).0 mem-cons_self))
                (position-none-not-mem a v expected nowhere)
                (position-none-not-mem a v change unknown))
          | inr (j, known) ↦
              let (isd, rest) = position-All a v (λ p. IsDerived p.0) change j known all in
              let fewer = (perm-cons (a, v)).0 (
                Perm.trans perm (
                  Perm.trans (Perm.append_left expected (position-some-perm a v change j known))
                    (perm_middle expected (swap_remove j change)))) in
              rw (nowhere, check_outputs, IsDerived→check_source a isd)
                (Perm→check (suc vout) paid expected (swap_remove j change) fewer rest)
        ]
        | inr (i, found) ↦
            rw (found, check_outputs)
              (Perm→check (suc vout) paid (swap_remove i expected) change
                ((perm-cons (a, v)).0 (
                  Perm.trans perm
                    (Perm.append_right change (position-some-perm a v expected i found))))
                all)
      ]

  -- The transparent outputs of a built transaction are accepted exactly where they are accounted for:
  -- every output has an address, and as lists without order the outputs are the expected payments,
  -- each as often as it is expected, together with outputs whose addresses the account's key derives
  -- at the paths that the wallet records for them.
  pub check_transparent_outputs_iff :
      (outputs : List (Option TransparentAddress × ℕ)) (expected : List Payment)
      → (check_transparent_outputs d account_pubkey address_source outputs expected ≡ ok tt)
        ↔ Accounted outputs expected
  unfolding check_transparent_outputs
  check_transparent_outputs_iff outputs expected = (
    check→Accounted 0 outputs expected,
    λ (paid, change, e, perm, all). rw e (Perm→check 0 paid expected change perm all),
  )
