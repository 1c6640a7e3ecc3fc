-- ===== src/Payments/Policy.antt =====
-- The enum `PrivacyPolicy` of payments.rs, its names and its order.
pub mod Lattice
use Prim.Native.String.{String}
use text.Mathlib.Text.{◌==◌ as str_eq}
use wallet.Prelude.{Bool, true, false, Option, none, some, if◌then◌else◌}

pub data PrivacyPolicy : Type 0 where
  full_privacy allow_revealed_amounts allow_revealed_recipients allow_revealed_senders :
      PrivacyPolicy
  allow_fully_transparent allow_linking_account_addresses no_privacy : PrivacyPolicy

unfoldable pub name : PrivacyPolicy → String
name full_privacy = "FullPrivacy"
name allow_revealed_amounts = "AllowRevealedAmounts"
name allow_revealed_recipients = "AllowRevealedRecipients"
name allow_revealed_senders = "AllowRevealedSenders"
name allow_fully_transparent = "AllowFullyTransparent"
name allow_linking_account_addresses = "AllowLinkingAccountAddresses"
name no_privacy = "NoPrivacy"

unfoldable pub from_str : String → Option PrivacyPolicy
from_str s =
    if str_eq s "FullPrivacy"
    then some full_privacy
    else if str_eq s "AllowRevealedAmounts"
    then some allow_revealed_amounts
    else if str_eq s "AllowRevealedRecipients"
    then some allow_revealed_recipients
    else if str_eq s "AllowRevealedSenders"
    then some allow_revealed_senders
    else if str_eq s "AllowFullyTransparent"
    then some allow_fully_transparent
    else if str_eq s "AllowLinkingAccountAddresses"
    then some allow_linking_account_addresses
    else if str_eq s "NoPrivacy"
    then some no_privacy
    else none

-- `self.meet(other)`.
unfoldable pub meet : PrivacyPolicy → PrivacyPolicy → PrivacyPolicy
meet full_privacy other = other
meet allow_revealed_amounts full_privacy = allow_revealed_amounts
meet allow_revealed_amounts other = other
meet allow_revealed_recipients full_privacy = allow_revealed_recipients
meet allow_revealed_recipients allow_revealed_amounts = allow_revealed_recipients
meet allow_revealed_recipients allow_revealed_senders = allow_fully_transparent
meet allow_revealed_recipients allow_linking_account_addresses = no_privacy
meet allow_revealed_recipients other = other
meet allow_revealed_senders full_privacy = allow_revealed_senders
meet allow_revealed_senders allow_revealed_amounts = allow_revealed_senders
meet allow_revealed_senders allow_revealed_recipients = allow_fully_transparent
meet allow_revealed_senders other = other
meet allow_fully_transparent full_privacy = allow_fully_transparent
meet allow_fully_transparent allow_revealed_amounts = allow_fully_transparent
meet allow_fully_transparent allow_revealed_recipients = allow_fully_transparent
meet allow_fully_transparent allow_revealed_senders = allow_fully_transparent
meet allow_fully_transparent allow_linking_account_addresses = no_privacy
meet allow_fully_transparent other = other
meet allow_linking_account_addresses full_privacy = allow_linking_account_addresses
meet allow_linking_account_addresses allow_revealed_amounts = allow_linking_account_addresses
meet allow_linking_account_addresses allow_revealed_senders = allow_linking_account_addresses
meet allow_linking_account_addresses allow_revealed_recipients = no_privacy
meet allow_linking_account_addresses allow_fully_transparent = no_privacy
meet allow_linking_account_addresses other = other
meet no_privacy other = no_privacy

-- The derived `PartialEq`.
unfoldable pub eq : PrivacyPolicy → PrivacyPolicy → Bool
eq full_privacy full_privacy = true
eq allow_revealed_amounts allow_revealed_amounts = true
eq allow_revealed_recipients allow_revealed_recipients = true
eq allow_revealed_senders allow_revealed_senders = true
eq allow_fully_transparent allow_fully_transparent = true
eq allow_linking_account_addresses allow_linking_account_addresses = true
eq no_privacy no_privacy = true
eq _ _ = false

unfoldable pub is_compatible_with : PrivacyPolicy → PrivacyPolicy → Bool
unfolding meet eq
is_compatible_with p other = eq p (meet p other)
