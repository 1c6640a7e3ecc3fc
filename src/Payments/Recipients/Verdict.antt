-- ===== src/Payments/Recipients/Verdict.antt =====
-- The running maxima of `propose_and_check` never refuse a request that `build_request` made.
use Prim.Native.String.{String}
use wallet.Prelude.{
  ℕ, ◌+◌, ◌≤◌, ◌-◌, ◌≡◌, refl, ◌||◌, Bool, true, false, Option, none, some, List, [], ◌∷◌, map,
  if◌then◌else◌, Result, ok, err, ◌>>◌, map_err, Bool-cases, inl, inr, arith,
}
use wallet.Rpc.{ErrorObject, with_message, invalid_parameter}
use wallet.Payments.Policy.{PrivacyPolicy}
use wallet.Payments.Proposal.{
  ShieldedPool, transparent_recipient, transparent_receiver, revealing_receiver_amounts,
  IncompatiblePrivacyPolicy,
}
use wallet.Payments.Address.{Zatoshis, IsChecked, Address}
use wallet.Payments.Recipients.{
  allows_amounts, allows_recipients, incompatible_error, Available, Checked, passed, refused, go_on,
  check_address, unified_arm, otherwise_reveal, sapling_arm, transparent_arm, check_recipient,
  check_recipients,
}

-- How the loop ends, by a result: without a panic.
abbrev pub ends : Result (Unit {0}) ErrorObject → Checked
ends (ok _) = passed
ends (err e) = refused e

-- What a policy makes of an address, whatever is paid to it.
pub address_verdict : PrivacyPolicy → Address → Result (Unit {0}) IncompatiblePrivacyPolicy
address_verdict policy (Address.transparent _) =
    if allows_recipients policy then ok tt else err transparent_recipient
address_verdict policy (Address.tex _) =
    if allows_recipients policy then ok tt else err transparent_recipient
address_verdict policy (Address.sapling _) = ok tt
address_verdict policy (Address.unified ua) =
    if ua.orchard_type || ua.sapling_type || allows_recipients policy
    then ok tt
    else if allows_amounts policy
    then err transparent_receiver
    else err revealing_receiver_amounts

module _ (z : Zatoshis) (checked : IsChecked z) (policy : PrivacyPolicy) where
  -- Both maxima cover what is still to be paid.
  pub record Covers (a : Available) (rest : ℕ) : Type 0 where
    pub in_sapling : rest ≤ a.sapling_available
    pub in_orchard : rest ≤ a.orchard_available

  sub→some : (a b : ℕ) → b ≤ a → z.sub a b ≡ some (a - b)
  sub→some a b h = ground (arith, checked.sub_lem a b)

  -- The answer to an address is its verdict, and what is left covers what is still to be paid.
  abbrev Follows :
      {E : Type 0} → Available → (rest : ℕ) → Result (Unit {0}) E → Result Available E → Type 0
  Follows a rest (ok _) r = (a' : Available) × (r ≡ ok a') × Covers a' rest
  Follows a rest (err e) r = r ≡ err e

  sapling_arm-Covers :
      (allows : Bool) (value rest : ℕ) (a : Available)
      → Covers a (value + rest)
      → (a' : Available) × (sapling_arm allows (z.sub a.sapling_available value) a ≡ ok a')
        × Covers a' rest
  unfolding sapling_arm
  sapling_arm-Covers true value rest a c =
      (a, refl, record { in_sapling = omega arith; in_orchard = omega arith })
  sapling_arm-Covers false value rest a c = rw (sub→some a.sapling_available value (omega arith)) (
    record a { sapling_available = a.sapling_available - value },
    refl,
    record { in_sapling = omega arith; in_orchard = omega arith },
  )

  -- Where the address has a shielded receiver, its arm takes the payment.
  unified_arm-Covers :
      (allows orchard sapling' : Bool) (value rest : ℕ) (a : Available)
      → Covers a (value + rest)
      → (orchard || sapling') ≡ true
      → (a' : Available) × (unified_arm allows orchard
            (z.sub a.orchard_available value)
            sapling'
            (z.sub a.sapling_available value)
            a
          ≡ some a')
        × Covers a' rest
  unfolding unified_arm
  unified_arm-Covers true true s value rest a c h =
      (a, refl, record { in_sapling = omega arith; in_orchard = omega arith })
  unified_arm-Covers true false true value rest a c h =
      (a, refl, record { in_sapling = omega arith; in_orchard = omega arith })
  unified_arm-Covers false true s value rest a c h =
      rw (sub→some a.orchard_available value (omega arith)) (
        record a { orchard_available = a.orchard_available - value },
        refl,
        record { in_sapling = omega arith; in_orchard = omega arith },
      )
  unified_arm-Covers false false true value rest a c h =
      rw (sub→some a.sapling_available value (omega arith)) (
        record a { sapling_available = a.sapling_available - value },
        refl,
        record { in_sapling = omega arith; in_orchard = omega arith },
      )
  unified_arm-Covers allows false false value rest a c h = cc

  unified_arm-none :
      (allows : Bool) (o s : Option ℕ) (a : Available) → unified_arm allows false o false s a ≡ none
  unfolding unified_arm
  unified_arm-none true o s a = refl
  unified_arm-none false o s a = refl

  unified-Follows :
      (orchard sapling' : Bool) (value rest : ℕ) (a : Available)
      → Covers a (value + rest)
      → Follows a rest
          (if orchard || sapling' || allows_recipients policy
            then ok tt
            else if allows_amounts policy
            then err transparent_receiver
            else err revealing_receiver_amounts)
          (otherwise_reveal policy
            (unified_arm
              (allows_amounts policy)
              orchard
              (z.sub a.orchard_available value)
              sapling'
              (z.sub a.sapling_available value)
              a)
            a)
  unfolding otherwise_reveal
  unified-Follows true s value rest a c =
      let (a', e, c') = unified_arm-Covers (allows_amounts policy) true s value rest a c refl in
      (a', rw e refl, c')
  unified-Follows false true value rest a c =
      let (a', e, c') = unified_arm-Covers (allows_amounts policy) false true value rest a c refl in
      (a', rw e refl, c')
  unified-Follows false false value rest a c =
      rw
        (unified_arm-none (allows_amounts policy) (z.sub a.orchard_available value)
          (z.sub a.sapling_available value) a)
        (elim (Bool-cases (allows_recipients policy)) [
          | inl y ↦ rw y (a, refl, record { in_sapling = omega arith; in_orchard = omega arith })
          | inr n ↦ rw n (elim (Bool-cases (allows_amounts policy)) [
            | inl y ↦ rw y refl
            | inr n' ↦ rw n' refl
          ])
        ])

  map_err-Follows :
      {E F : Type 0} (f : E → F) (a : Available) (rest : ℕ) (v : Result (Unit {0}) E)
      (r : Result Available E)
      → Follows a rest v r
      → Follows a rest (map_err f v) (map_err f r)
  map_err-Follows f a rest (ok _) r (a', e, c) = (a', rw e refl, c)
  map_err-Follows f a rest (err why) r e = rw e refl

  check_address-Follows :
      (address : Address) (value rest : ℕ) (a : Available)
      → Covers a (value + rest)
      → Follows a rest (address_verdict policy address) (check_address z policy address value a)
  unfolding check_address address_verdict transparent_arm sapling_arm
  check_address-Follows (Address.transparent _) value rest a c =
      elim (Bool-cases (allows_recipients policy)) [
        | inl y ↦ rw y (a, refl, record { in_sapling = omega arith; in_orchard = omega arith })
        | inr n ↦ rw n refl
      ]
  check_address-Follows (Address.tex _) value rest a c =
      elim (Bool-cases (allows_recipients policy)) [
        | inl y ↦ rw y (a, refl, record { in_sapling = omega arith; in_orchard = omega arith })
        | inr n ↦ rw n refl
      ]
  check_address-Follows (Address.sapling _) value rest a c =
      sapling_arm-Covers (allows_amounts policy) value rest a c
  check_address-Follows (Address.unified ua) value rest a c =
      unified-Follows ua.orchard_type ua.sapling_type value rest a c

  module _ (shown : ShieldedPool → String) {ZcashAddress : Type 0}
      (try_from_zcash_address : ZcashAddress → Result Address String) where
    pub recipient_verdict : Result Address String → Result (Unit {0}) ErrorObject
    recipient_verdict (err e) = err (with_message invalid_parameter e)
    recipient_verdict (ok address) =
        map_err (incompatible_error shown) (address_verdict policy address)

    -- The first recipient that does not decode, or that the policy refuses by itself.
    pub first_refusal : List (ZcashAddress × ℕ) → Result (Unit {0}) ErrorObject
    first_refusal [] = ok tt
    first_refusal ((address, value) ∷ payments) =
        recipient_verdict (try_from_zcash_address address) >> first_refusal payments

    abbrev pub paid : List (ZcashAddress × ℕ) → ℕ
    paid [] = 0
    paid ((address, value) ∷ payments) = value + paid payments

    recipient-Follows :
        (address : Result Address String) (value rest : ℕ) (a : Available)
        → Covers a (value + rest)
        → Follows a rest
            (recipient_verdict address)
            (check_recipient z policy shown try_from_zcash_address address value a)
    unfolding recipient_verdict check_recipient
    recipient-Follows (err e) value rest a c = refl
    recipient-Follows (ok address) value rest a c =
        map_err-Follows (incompatible_error shown) a rest (address_verdict policy address)
          (check_address z policy address value a) (check_address-Follows address value rest a c)

    go_on-Follows :
        (a : Available) (rest : ℕ) (v : Result (Unit {0}) ErrorObject)
        (r : Result Available ErrorObject) (next : Available → Checked)
        (answer : Result (Unit {0}) ErrorObject)
        → ((a' : Available) → Covers a' rest → next a' ≡ ends answer)
        → Follows a rest v r
        → go_on r next ≡ ends (v >> answer)
    go_on-Follows a rest (ok _) r next answer later (a', e, c) = rw e (later a' c)
    go_on-Follows a rest (err why) r next answer later e = rw e refl

    pub check_recipients-first_refusal :
        (payments : List (ZcashAddress × ℕ)) (a : Available)
        → Covers a (paid payments)
        → check_recipients z policy shown try_from_zcash_address
            (map (λ p. (p.0, some p.1)) payments)
            a
          ≡ ends (first_refusal payments)
    unfolding check_recipients first_refusal
    check_recipients-first_refusal [] a c = refl
    check_recipients-first_refusal ((address, value) ∷ payments) a c =
        go_on-Follows a (paid payments) (recipient_verdict (try_from_zcash_address address)) _ _
          (first_refusal payments) (check_recipients-first_refusal payments)
          (recipient-Follows (try_from_zcash_address address) value (paid payments) a c)
