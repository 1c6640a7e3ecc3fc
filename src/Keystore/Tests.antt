-- ===== src/Keystore/Tests.antt =====
-- The keystore's theorems at concrete stores, with a decryption that accepts every passphrase.
use Prim.Native.String.{String}
use wallet.Prelude.{ℕ, ◌<◌, ◌≤◌, ◌≡◌, refl, true, false, none, some, List, [], ◌∷◌, ok, arith}
use wallet.Keystore.Lock.{
  KeyStore, is_empty, keep_identities, keep_file, decrypt_on_terminal, unlock_on_terminal, Age,
  decrypt_identity_file, identities_of, install, install_decrypted, unlock, lock, is_locked,
  unlocked_until, stop_task, end_task, uses_encrypted_identities, deadline_of, unlocks, locks,
}
use wallet.Keystore.Lock.Valid.{opened, begin}
use wallet.Keystore.Lock.Guard.{opens, goes, unlocked_until-is_locked}
use wallet.Keystore.Lock.Lasts.{Quiet, IsPrompt, unlock_lasts}

-- The plaintext of a file is the list of its identities.
abbrev test_age : Age String (List ℕ) ℕ
test_age = record { decrypt = λ c p. some (7 ∷ 8 ∷ []); into_identities = λ f. some f }

abbrev test_store : KeyStore String ℕ
test_store = opened "ciphertext" 100

abbrev test_unlocked : KeyStore String ℕ
test_unlocked = (unlock test_age 1000 100 "open" 50 test_store).0

locked_until : unlocked_until (lock test_unlocked) ≡ none
unfolding unlocked_until lock unlock install_decrypted install stop_task end_task
    uses_encrypted_identities deadline_of identities_of decrypt_identity_file
locked_until = refl

unlocked_until-is_locked_example : is_locked (lock test_unlocked) ≡ true
unlocked_until-is_locked_example =
    unlocked_until-is_locked test_age 1000
      (goes (goes (opens "ciphertext" 100) (unlocks test_store 100 "open" 50 (omega arith)))
        (locks test_unlocked))
      locked_until

-- Unlocked on the terminal, the keystore is not locked, and no time of a relock is answered.
terminal_unlocks_for_good :
    (is_locked (unlock_on_terminal test_age 1000 (some "open") test_store).0 ≡ false)
    × (unlocked_until (unlock_on_terminal test_age 1000 (some "open") test_store).0 ≡ none)
unfolding is_locked is_empty unlocked_until deadline_of unlock_on_terminal decrypt_on_terminal
    keep_file keep_identities
terminal_unlocks_for_good = (refl, refl)

unlocks_ok : (unlock test_age 1000 100 "open" 50 test_store).1 ≡ ok tt
unfolding unlock install_decrypted identities_of decrypt_identity_file
unlocks_ok = refl

now_of : test_unlocked.now ≤ 120
unfolding unlock install_decrypted identities_of decrypt_identity_file install
now_of = omega arith

unlock_lasts_example :
    (120 < 150
      → some test_unlocked.identities
        ≡ identities_of test_age 1000
            (decrypt_identity_file test_age 1000 (some "ciphertext") "open"))
    × (150 ≤ 120
        → IsPrompt (record test_unlocked { now = 120 })
        → is_locked (record test_unlocked { now = 120 }) ≡ true)
unlock_lasts_example =
    unlock_lasts test_age 1000 100 "open" 50 (begin "ciphertext" 100) unlocks_ok
      (Quiet.ticks 120 Quiet.still now_of)
