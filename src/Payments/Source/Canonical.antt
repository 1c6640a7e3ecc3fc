-- ===== src/Payments/Source/Canonical.antt =====
-- The array form of `fund_source` (json_rpc/fund_source.rs): the parsed source is canonical.
use Prim.Native.String.{String}
use wallet.Prelude.{
  ◌||◌, ◌≡◌, refl, sym, ap, ◌∙◌, subst, Bool, Bool-cases, true, false, inl, inr, Option, List, [],
  ◌∷◌, ok, All, arith,
}
use wallet.Payments.Address.{
  TransparentAddress, public_key_hash, script_hash, same_address, same_address→eq,
  same_address_refl, Address,
}
use wallet.Payments.Source.{
  array, address_lt, set_insert, parse_entry, collect_addresses, source_of, parse,
}

-- Whether an address stands in a list.
unfoldable pub contains : TransparentAddress → List TransparentAddress → Bool
contains a [] = false
contains a (b ∷ bs) = same_address b a || contains a bs

lt_asymmetric : (a b : TransparentAddress) → address_lt a b ≡ true → address_lt b a ≡ true → ⊥
unfolding address_lt
lt_asymmetric (public_key_hash a) (public_key_hash b) h i = ground arith
lt_asymmetric (public_key_hash a) (script_hash b) h i = cc
lt_asymmetric (script_hash a) (public_key_hash b) h i = cc
lt_asymmetric (script_hash a) (script_hash b) h i = ground arith

lt_transitive :
    (a b c : TransparentAddress)
    → address_lt a b ≡ true
    → address_lt b c ≡ true
    → address_lt a c ≡ true
unfolding address_lt
lt_transitive (public_key_hash a) (public_key_hash b) (public_key_hash c) h i = ground arith
lt_transitive (public_key_hash a) (public_key_hash b) (script_hash c) h i = refl
lt_transitive (public_key_hash a) (script_hash b) (public_key_hash c) h i = cc
lt_transitive (public_key_hash a) (script_hash b) (script_hash c) h i = refl
lt_transitive (script_hash a) (public_key_hash b) c h i = cc
lt_transitive (script_hash a) (script_hash b) (public_key_hash c) h i = cc
lt_transitive (script_hash a) (script_hash b) (script_hash c) h i = ground arith

lt_connected :
    (a b : TransparentAddress)
    → address_lt a b ≡ false
    → same_address a b ≡ false
    → address_lt b a ≡ true
unfolding address_lt same_address
lt_connected (public_key_hash a) (public_key_hash b) h i = ground arith
lt_connected (public_key_hash a) (script_hash b) h i = cc
lt_connected (script_hash a) (public_key_hash b) h i = refl
lt_connected (script_hash a) (script_hash b) h i = ground arith

-- Every element is above the address.
abbrev Above : TransparentAddress → List TransparentAddress → Type 0
Above a bs = All (λ b. address_lt a b ≡ true) bs

abbrev Ascending : List TransparentAddress → Type 0
Ascending [] = Unit
Ascending (a ∷ bs) = Above a bs × Ascending bs

Above-lt :
    (a b : TransparentAddress) (bs : List TransparentAddress)
    → address_lt a b ≡ true
    → Above b bs
    → Above a bs
Above-lt a b [] h all = tt
Above-lt a b (c ∷ cs) h all = (lt_transitive a b c h all.0, Above-lt a b cs h all.1)

Above-insert :
    (a b : TransparentAddress) (bs : List TransparentAddress)
    → address_lt a b ≡ true
    → Above a bs
    → Above a (set_insert b bs)
unfolding set_insert
Above-insert a b [] h all = (h, tt)
Above-insert a b (c ∷ cs) h all = elim (Bool-cases (address_lt b c)) [
  | inl lt ↦ rw lt (h, all)
  | inr ge ↦ elim (Bool-cases (same_address b c)) [
    | inl same ↦ rw (ge, same) all
    | inr other ↦ rw (ge, other) (all.0, Above-insert a b cs h all.1)
  ]
]

set_insert-Ascending :
    (a : TransparentAddress) (bs : List TransparentAddress)
    → Ascending bs
    → Ascending (set_insert a bs)
unfolding set_insert
set_insert-Ascending a [] h = (tt, tt)
set_insert-Ascending a (b ∷ bs) h = elim (Bool-cases (address_lt a b)) [
  | inl lt ↦ rw lt ((lt, Above-lt a b bs lt h.0), h)
  | inr ge ↦ elim (Bool-cases (same_address a b)) [
    | inl same ↦ rw (ge, same) h
    | inr other ↦
        rw (ge, other)
          (Above-insert b a bs (lt_connected a b ge other) h.0, set_insert-Ascending a bs h.1)
  ]
]

or_absorb : (p q : Bool) → (p || q) ≡ (p || (p || q))
or_absorb true q = refl
or_absorb false q = refl

or_swap : (p q r : Bool) → (p || (q || r)) ≡ (q || (p || r))
or_swap true true r = refl
or_swap true false r = refl
or_swap false q r = refl

or_front : (p q r : Bool) → (p || (q || r)) ≡ ((q || p) || r)
or_front true true r = refl
or_front true false r = refl
or_front false true r = refl
or_front false false r = refl

or_cancel : (p q r : Bool) → p ≡ false → (p || q) ≡ (p || r) → q ≡ r
or_cancel true q r h e = cc
or_cancel false q r h e = e

contains-insert :
    (x a : TransparentAddress) (bs : List TransparentAddress)
    → contains x (set_insert a bs) ≡ (same_address a x || contains x bs)
unfolding set_insert contains
contains-insert x a [] = refl
contains-insert x a (b ∷ bs) = elim (Bool-cases (address_lt a b)) [
  | inl lt ↦ rw lt refl
  | inr ge ↦ elim (Bool-cases (same_address a b)) [
    | inl same ↦
        rw (ge, same, same_address→eq a b same) (or_absorb (same_address b x) (contains x bs))
    | inr other ↦
        rw (ge, other, contains-insert x a bs)
          (or_swap (same_address b x) (same_address a x) (contains x bs))
  ]
]

Above→absent :
    (a : TransparentAddress) (bs : List TransparentAddress) → Above a bs → contains a bs ≡ false
unfolding contains
Above→absent a [] h = refl
Above→absent a (b ∷ bs) h = elim (Bool-cases (same_address b a)) [
  | inl same ↦ absurd (
      let below = subst (λ c. address_lt a c ≡ true) (same_address→eq b a same) h.0 in
      lt_asymmetric a a below below)
  | inr other ↦ rw other (Above→absent a bs h.1)
]

contains_head : (a : TransparentAddress) (bs : List TransparentAddress) → contains a (a ∷ bs) ≡ true
unfolding contains
contains_head a bs = rw (same_address_refl a) refl

-- The first of two ascending lists with the same members is not below that of the other.
heads-not-below :
    (a b : TransparentAddress) (s t : List TransparentAddress)
    → Above b t
    → contains a (a ∷ s) ≡ contains a (b ∷ t)
    → address_lt a b ≡ true
    → ⊥
heads-not-below a b s t above same lt =
    let absent = Above→absent a (b ∷ t) (lt, Above-lt a b t lt above) in
    let present = contains_head a s in cc

heads-eq :
    (a b : TransparentAddress) (s t : List TransparentAddress)
    → Above a s
    → Above b t
    → ((x : TransparentAddress) → contains x (a ∷ s) ≡ contains x (b ∷ t))
    → a ≡ b
heads-eq a b s t ha hb same = elim (Bool-cases (same_address a b)) [
  | inl e ↦ same_address→eq a b e
  | inr other ↦ elim (Bool-cases (address_lt a b)) [
    | inl lt ↦ absurd (heads-not-below a b s t hb (same a) lt)
    | inr ge ↦ absurd (heads-not-below b a t s ha (sym (same b)) (lt_connected a b ge other))
  ]
]

tails-same :
    (a : TransparentAddress) (s t : List TransparentAddress)
    → Above a s
    → Above a t
    → ((x : TransparentAddress) → contains x (a ∷ s) ≡ contains x (a ∷ t))
    → (x : TransparentAddress) → contains x s ≡ contains x t
unfolding contains
tails-same a s t hs ht same x = elim (Bool-cases (same_address a x)) [
  | inl e ↦ rw (sym (same_address→eq a x e)) (Above→absent a s hs ∙ sym (Above→absent a t ht))
  | inr other ↦ or_cancel (same_address a x) (contains x s) (contains x t) other (same x)
]

head-absent :
    (a : TransparentAddress) (s : List TransparentAddress) → contains a (a ∷ s) ≡ contains a [] → ⊥
unfolding contains
head-absent a s h = let present = contains_head a s in cc

Ascending-eq :
    (s t : List TransparentAddress)
    → Ascending s
    → Ascending t
    → ((x : TransparentAddress) → contains x s ≡ contains x t)
    → s ≡ t
Ascending-eq [] [] hs ht same = refl
Ascending-eq [] (b ∷ t) hs ht same = absurd (head-absent b t (sym (same b)))
Ascending-eq (a ∷ s) [] hs ht same = absurd (head-absent a s (same a))
Ascending-eq (a ∷ s) (b ∷ t) hs ht same =
    let heads : b ≡ a = sym (heads-eq a b s t hs.0 ht.0 same) in
    let above : Above a t = subst (λ c. Above c t) heads ht.0 in
    let same' : (x : TransparentAddress) → contains x (a ∷ s) ≡ contains x (a ∷ t) =
      subst (λ c. (x : TransparentAddress) → contains x (a ∷ s) ≡ contains x (c ∷ t)) heads same in
    rw heads (ap (◌∷◌ a) (Ascending-eq s t hs.1 ht.1 (tails-same a s t hs.0 above same')))

module _ (decode : String → Option Address) where
  -- Each entry of an array names the address beside it.
  abbrev pub Names : List (Option String) → List TransparentAddress → Type 0
  Names [] [] = Unit
  Names [] (_ ∷ _) = ⊥
  Names (_ ∷ _) [] = ⊥
  Names (e ∷ es) (a ∷ named) = (parse_entry decode e ≡ ok a) × Names es named

  collect-Ascending :
      (es : List (Option String)) (named set : List TransparentAddress)
      → Names es named
      → Ascending set
      → (out : List TransparentAddress) × (collect_addresses decode es set ≡ ok out)
        × Ascending out
        × ((x : TransparentAddress) → contains x out ≡ (contains x named || contains x set))
  unfolding collect_addresses contains
  collect-Ascending [] [] set names h = (set, refl, h, λ x. refl)
  collect-Ascending [] (a ∷ named) set names h = absurd names
  collect-Ascending (e ∷ es) [] set names h = absurd names
  collect-Ascending (e ∷ es) (a ∷ named) set names h =
      let (out, collected, ascending, members) =
        collect-Ascending es named (set_insert a set) names.1 (set_insert-Ascending a set h) in
      (
        out,
        rw (names.0) collected,
        ascending,
        λ x.
            members x
            ∙ ap (λ c. contains x named || c) (contains-insert x a set)
            ∙ or_front (contains x named) (same_address a x) (contains x set),
      )

  -- Two arrays of transparent addresses that name the same set of addresses, in any order and with any
  -- repetitions, are the same source.
  pub parse_array_canonical :
      (es fs : List (Option String)) (named bs : List TransparentAddress)
      → Names es named
      → Names fs bs
      → ((x : TransparentAddress) → contains x named ≡ contains x bs)
      → parse decode (array es) ≡ parse decode (array fs)
  unfolding parse
  parse_array_canonical es fs named bs names names' same =
      let (s, hs, ascending, members) = collect-Ascending es named [] names tt in
      let (t, ht, ascending', members') = collect-Ascending fs bs [] names' tt in
      rw (hs, ht)
        (ap (source_of decode) (
          Ascending-eq s t ascending ascending'
            (λ x. members x ∙ ap (λ c. c || contains x []) (same x) ∙ sym (members' x))))
