-- ===== src/Keystore/Mnemonics/Tests.antt =====
-- The stored mnemonics at concrete tables. A mnemonic is its phrase; every seed has the fingerprint 40.
use Prim.Native.String.{String}
use wallet.Prelude.{ℕ, ◌≡◌, refl, sym, true, none, some, List, [], ◌∷◌, ok, arith}
use wallet.Keystore.Mnemonics.{
  unconfirmed, Tables, Libraries, available, row_of, written, fingerprint_of, store_row, encryptor,
  maybe_encryptor, parse_recipient_strings, encrypt_and_store_mnemonic, decrypt_mnemonic,
  backup_required,
}
use wallet.Keystore.Lock.{is_empty}
use wallet.Keystore.Mnemonics.Standing.{
  Call, stores, confirms, deletes, after, follow, standing, needs_backup, backup_required-follow,
}
use wallet.Keystore.Mnemonics.Stored.{store-decrypt}

-- The ciphertext is the phrase.
abbrev test_libraries : Libraries String ℕ String String String
test_libraries = record {
  read_recipients = λ strings. ok strings;
  encrypt_string = λ recipients phrase. ok phrase;
  decrypt_string = λ identities c. ok c;
  to_seed = λ mnemonic. mnemonic;
  from_seed = λ seed. 40;
  into_phrase = λ mnemonic. mnemonic;
  from_phrase = λ phrase. ok phrase;
}

abbrev test_tables : Tables String
test_tables = record { recipients = "age1" ∷ []; mnemonics = [] }

abbrev test_calls : List (Call String)
test_calls =
    stores none none "abandon" unconfirmed ∷ confirms (some "disk full") 40 ∷ confirms none 40 ∷ []

backup_required-follow_example :
    backup_required test_libraries none true 40 (after test_libraries test_calls test_tables)
    ≡ ok (
        needs_backup
          (follow test_libraries test_calls test_tables 40 (standing 40 test_tables.mnemonics)))
backup_required-follow_example = backup_required-follow test_libraries test_calls 40 test_tables

stored :
    (encrypt_and_store_mnemonic test_libraries none none "abandon" unconfirmed test_tables).1
    ≡ ok 40
unfolding encrypt_and_store_mnemonic written store_row available encryptor maybe_encryptor
    parse_recipient_strings is_empty fingerprint_of
stored = refl

store-decrypt_example :
    decrypt_mnemonic test_libraries none (1 ∷ []) 40 (
      after test_libraries
        (confirms none 40 ∷ deletes none 41 ∷ [])
        (encrypt_and_store_mnemonic test_libraries none none "abandon" unconfirmed test_tables).0)
    ≡ ok "abandon"
store-decrypt_example =
    store-decrypt test_libraries none none "abandon" unconfirmed test_tables
      (confirms none 40 ∷ deletes none 41 ∷ []) 1 [] (λ recipients c found made. sym made) refl
      (unfold row_of in refl) 40 stored (tt, ((λ e. omega arith), tt))
