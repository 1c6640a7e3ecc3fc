-- ===== src/Payments/Policy/Lattice.antt =====
-- The order of the privacy policies, against what the doc comments of payments.rs say each allows.
use Prim.Native.String.{String}
use text.Mathlib.TextEquality.{eq_iff}
use wallet.Prelude.{◌≡◌, refl, ◌↔◌, Bool, true, false, some, ◌||◌, arith}
use wallet.Payments.Policy.{
  PrivacyPolicy, full_privacy, allow_revealed_amounts, allow_revealed_recipients,
  allow_revealed_senders, allow_fully_transparent, allow_linking_account_addresses, no_privacy,
  name, from_str, meet, is_compatible_with,
}

-- What a policy allows a transaction to reveal, as the comment on each variant lists it.
pub record Reveals : Type 0 where
  pub amounts : Bool
  pub recipients : Bool
  pub senders : Bool
  pub linked_addresses : Bool

unfoldable pub reveals : PrivacyPolicy → Reveals
reveals full_privacy = record {
  amounts = false;
  recipients = false;
  senders = false;
  linked_addresses = false;
}
reveals allow_revealed_amounts = record {
  amounts = true;
  recipients = false;
  senders = false;
  linked_addresses = false;
}
reveals allow_revealed_recipients = record {
  amounts = true;
  recipients = true;
  senders = false;
  linked_addresses = false;
}
reveals allow_revealed_senders = record {
  amounts = true;
  recipients = false;
  senders = true;
  linked_addresses = false;
}
reveals allow_fully_transparent = record {
  amounts = true;
  recipients = true;
  senders = true;
  linked_addresses = false;
}
reveals allow_linking_account_addresses = record {
  amounts = true;
  recipients = false;
  senders = true;
  linked_addresses = true;
}
reveals no_privacy = record {
  amounts = true;
  recipients = true;
  senders = true;
  linked_addresses = true;
}

unfoldable pub union : Reveals → Reveals → Reveals
union a b = record {
  amounts = a.amounts || b.amounts;
  recipients = a.recipients || b.recipients;
  senders = a.senders || b.senders;
  linked_addresses = a.linked_addresses || b.linked_addresses;
}

pub record Includes (a b : Reveals) : Type 0 where
  pub amounts : b.amounts ≡ true → a.amounts ≡ true
  pub recipients : b.recipients ≡ true → a.recipients ≡ true
  pub senders : b.senders ≡ true → a.senders ≡ true
  pub linked_addresses : b.linked_addresses ≡ true → a.linked_addresses ≡ true

-- The meet of two policies reveals what one or the other reveals, and nothing else.
pub reveals-meet : (p q : PrivacyPolicy) → reveals (meet p q) ≡ union (reveals p) (reveals q)
unfolding reveals meet union
reveals-meet p q = ground arith

-- A policy is compatible with another exactly when it reveals at least as much: the order that
-- `is_compatible_with` computes by `meet` is the order of what the variants' comments list.
pub is_compatible_with_iff :
    (p q : PrivacyPolicy) → (is_compatible_with p q ≡ true) ↔ Includes (reveals p) (reveals q)
unfolding reveals is_compatible_with
is_compatible_with_iff p q = (λ h. ground arith, λ h. ground arith)

-- The policies are a semilattice: `meet` is associative, commutative and idempotent, with
-- `FullPrivacy` as the strictest and `NoPrivacy` as the least strict policy.
pub meet_semilattice :
    (p q r : PrivacyPolicy)
    → (meet (meet p q) r ≡ meet p (meet q r))
      × (meet p q ≡ meet q p)
      × (meet p p ≡ p)
      × (meet full_privacy p ≡ p)
      × (meet p full_privacy ≡ p)
      × (meet p no_privacy ≡ no_privacy)
unfolding meet
meet_semilattice p q r =
    (ground arith, ground arith, ground arith, ground arith, ground arith, ground arith)

-- `meet p q` is compatible with both arguments, and any policy that is compatible with both is
-- compatible with it: it is the strictest policy that allows what `p` and what `q` allow.
pub meet_greatest :
    (p q r : PrivacyPolicy)
    → (is_compatible_with r (meet p q) ≡ true)
      ↔ ((is_compatible_with r p ≡ true) × (is_compatible_with r q ≡ true))
unfolding is_compatible_with
meet_greatest p q r = (λ h. ground arith, λ h. ground arith)

from_str-name : (p : PrivacyPolicy) → from_str (name p) ≡ some p
unfolding from_str name
from_str-name full_privacy = refl
from_str-name allow_revealed_amounts = refl
from_str-name allow_revealed_recipients = refl
from_str-name allow_revealed_senders = refl
from_str-name allow_fully_transparent = refl
from_str-name allow_linking_account_addresses = refl
from_str-name no_privacy = refl

name-from_str : (s : String) (p : PrivacyPolicy) → from_str s ≡ some p → s ≡ name p
unfolding from_str name
name-from_str s p h = ground (
  arith,
  eq_iff s "FullPrivacy",
  eq_iff s "AllowRevealedAmounts",
  eq_iff s "AllowRevealedRecipients",
  eq_iff s "AllowRevealedSenders",
  eq_iff s "AllowFullyTransparent",
  eq_iff s "AllowLinkingAccountAddresses",
  eq_iff s "NoPrivacy",
)

-- A text is parsed as a policy exactly when it is that policy's name.
pub from_str_iff : (s : String) (p : PrivacyPolicy) → (from_str s ≡ some p) ↔ (s ≡ name p)
from_str_iff s p = (name-from_str s p, λ e. rw e (from_str-name p))
