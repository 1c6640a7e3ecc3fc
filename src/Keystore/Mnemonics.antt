-- ===== src/Keystore/Mnemonics.antt =====
-- keystore.rs: the recipients and the mnemonics that the keystore stores, with the confirmation of
-- their backups, and ensure_seed_is_backed_up of json_rpc/utils.rs.
pub mod Standing
pub mod Stored
mod Tests
use Prim.Native.String.{String}
use wallet.Prelude.{
  ℕ, ltb, ◌==◌, Bool, true, false, not, ◌&&◌, ◌||◌, any, keep, find, map, Option, none, some, List,
  [], ◌∷◌, ◌++◌, length, contains, if◌then◌else◌, Result, ok, err, map_err, ◌>>=◌, ◌>>◌,
}
use wallet.Rpc.{ErrorObject, with_message, database, wallet_backup_required}
use wallet.Keystore.Lock.{is_empty}

pub data BackupStatus : Type 0 where
  confirmed unconfirmed : BackupStatus

unfoldable pub is_confirmed : BackupStatus → Bool
is_confirmed confirmed = true
is_confirmed unconfirmed = false

-- The errors of these calls; `failed` is one of the database or of a library, as its text.
pub data StoreError : Type 0 where
  empty_recipients missing_recipients already_initialized wallet_locked key_material_mismatch :
      StoreError
  no_such_mnemonic : (seed_fp : ℕ) → StoreError
  failed : String → StoreError

pub data SeedSelectionError : Type 0 where
  unreadable : StoreError → SeedSelectionError
  no_seeds ambiguous unknown : SeedSelectionError

-- A row of `ext_zallet_keystore_mnemonics`; a fingerprint is the number that its bytes spell.
pub record Row (Ciphertext : Type 0) : Type 0 where
  pub hd_seed_fingerprint : ℕ
  pub encrypted_mnemonic : Ciphertext
  pub backup_confirmed : Bool

-- The rows of `ext_zallet_keystore_age_recipients` and of `ext_zallet_keystore_mnemonics`.
pub record Tables (Ciphertext : Type 0) : Type 0 where
  pub recipients : List String
  pub mnemonics : List (Row Ciphertext)

-- age and the library of mnemonics. The seed of a mnemonic has 64 bytes, a length that
-- `SeedFingerprint::from_seed` accepts.
pub record Libraries (Ciphertext Identity Recipient Mnemonic Seed : Type 0) : Type 0 where
  pub read_recipients : List String → Result (List Recipient) String
  pub encrypt_string : List Recipient → String → Result Ciphertext String
  pub decrypt_string : List Identity → Ciphertext → Result String String
  pub to_seed : Mnemonic → Seed
  pub from_seed : Seed → ℕ
  pub into_phrase : Mnemonic → String
  pub from_phrase : String → Result Mnemonic String

-- What the database answers first: an error, if it fails.
unfoldable pub available : Option String → Result (Unit {0}) StoreError
available none = ok tt
available (some e) = err (failed e)

-- INSERT … ON CONFLICT (hd_seed_fingerprint) DO UPDATE.
unfoldable pub upsert :
    {Ciphertext : Type 0} → Row Ciphertext → List (Row Ciphertext) → List (Row Ciphertext)
upsert row [] = row ∷ []
upsert row (r ∷ rows) =
    let rest = upsert row rows in
    if r.hd_seed_fingerprint == row.hd_seed_fingerprint
    then (record r { backup_confirmed = r.backup_confirmed || row.backup_confirmed }) ∷ rows
    else r ∷ rest

-- The test of the WHERE clauses.
unfoldable pub has_fingerprint : {Ciphertext : Type 0} → ℕ → Row Ciphertext → Bool
has_fingerprint seed_fp row = row.hd_seed_fingerprint == seed_fp

unfoldable pub row_of : {Ciphertext : Type 0} → ℕ → List (Row Ciphertext) → Option (Row Ciphertext)
unfolding has_fingerprint
row_of seed_fp rows = find (has_fingerprint seed_fp) rows

-- UPDATE … SET backup_confirmed = TRUE WHERE …, and whether a row was changed.
unfoldable pub set_confirmed :
    {Ciphertext : Type 0} → ℕ → List (Row Ciphertext) → List (Row Ciphertext)
unfolding has_fingerprint
set_confirmed seed_fp [] = []
set_confirmed seed_fp (r ∷ rows) =
    let rest = set_confirmed seed_fp rows in
    if has_fingerprint seed_fp r then (record r { backup_confirmed = true }) ∷ rest else r ∷ rest

-- DELETE … WHERE ….
unfoldable pub delete_rows :
    {Ciphertext : Type 0} → ℕ → List (Row Ciphertext) → List (Row Ciphertext)
unfolding has_fingerprint
delete_rows seed_fp [] = []
delete_rows seed_fp (r ∷ rows) =
    let rest = delete_rows seed_fp rows in if has_fingerprint seed_fp r then rest else r ∷ rest

unfoldable pub was_confirmed : {Ciphertext : Type 0} → Option (Row Ciphertext) → Bool
was_confirmed none = false
was_confirmed (some row) = row.backup_confirmed

unfoldable pub select_from : List ℕ → Option ℕ → Result ℕ SeedSelectionError
select_from [] seedfp = err no_seeds
select_from (fp ∷ fps) (some seed_fp) =
    if contains (fp ∷ fps) seed_fp then ok seed_fp else err unknown
select_from (fp ∷ []) none = ok fp
select_from (fp ∷ other ∷ fps) none = err ambiguous

-- What a call that writes leaves, and its answer.
unfoldable pub written :
    {Ciphertext A : Type 0}
    → Tables Ciphertext
    → Result (Tables Ciphertext × A) StoreError
    → Tables Ciphertext × Result A StoreError
written t (ok (t', a)) = (t', ok a)
written t (err e) = (t, err e)

module _ {Ciphertext Identity Recipient Mnemonic Seed : Type 0}
    (libraries : Libraries Ciphertext Identity Recipient Mnemonic Seed) where
  unfoldable pub parse_recipient_strings : List String → Result (List Recipient) StoreError
  parse_recipient_strings strings = map_err failed (libraries.read_recipients strings)

  unfoldable pub insert_recipients :
      List String → Tables Ciphertext → Result (Tables Ciphertext × Unit {0}) StoreError
  insert_recipients strings t =
      if is_empty t.recipients
      then ok (record t { recipients = strings }, tt)
      else err already_initialized

  unfoldable pub initialize_recipients :
      (fault : Option String)
      → List String
      → Tables Ciphertext
      → Tables Ciphertext × Result (Unit {0}) StoreError
  initialize_recipients fault [] t = (t, err empty_recipients)
  initialize_recipients fault (s ∷ strings) t = written t (
      parse_recipient_strings (s ∷ strings) >>= λ recipients.
      available fault >> insert_recipients (s ∷ strings) t)

  unfoldable pub maybe_encryptor :
      (fault : Option String) → Tables Ciphertext → Result (List Recipient) StoreError
  maybe_encryptor fault t = available fault >> parse_recipient_strings t.recipients

  -- The recipients of the encryptor, which is empty where the table is.
  unfoldable pub encryptor :
      (fault : Option String) → Tables Ciphertext → Result (List Recipient) StoreError
  encryptor fault t = maybe_encryptor fault t >>= λ recipients.
      if is_empty t.recipients then err missing_recipients else ok recipients

  unfoldable pub list_seed_fingerprints :
      (fault : Option String) → Tables Ciphertext → Result (List ℕ) StoreError
  list_seed_fingerprints fault t =
      available fault >> ok (map (λ (r : Row Ciphertext). r.hd_seed_fingerprint) t.mnemonics)

  unfoldable pub fingerprint_of : Mnemonic → ℕ
  fingerprint_of mnemonic = libraries.from_seed (libraries.to_seed mnemonic)

  -- The row under the fingerprint, stored.
  unfoldable pub store_row :
      (fault : Option String)
      → Row Ciphertext
      → Tables Ciphertext
      → Result (Tables Ciphertext × ℕ) StoreError
  store_row fault row t =
      available fault
      >> ok (record t { mnemonics = upsert row t.mnemonics }, row.hd_seed_fingerprint)

  unfoldable pub encrypt_and_store_mnemonic :
      (reading writing : Option String)
      → Mnemonic
      → BackupStatus
      → Tables Ciphertext
      → Tables Ciphertext × Result ℕ StoreError
  encrypt_and_store_mnemonic reading writing mnemonic backup t = written t (
      encryptor reading t >>= λ recipients.
      map_err failed (libraries.encrypt_string recipients (libraries.into_phrase mnemonic))
      >>= λ encrypted.
          store_row writing
            (record {
              hd_seed_fingerprint = fingerprint_of mnemonic;
              encrypted_mnemonic = encrypted;
              backup_confirmed = is_confirmed backup;
            })
            t)

  unfoldable pub backup_confirmed :
      (fault : Option String) → ℕ → Tables Ciphertext → Result Bool StoreError
  backup_confirmed fault seed_fp t =
      available fault >> ok (was_confirmed (row_of seed_fp t.mnemonics))

  unfoldable pub delete_mnemonic :
      (fault : Option String) → ℕ → Tables Ciphertext → Tables Ciphertext × Result Bool StoreError
  delete_mnemonic fault seed_fp t = written t (
      available fault
      >> ok (
        record t { mnemonics = delete_rows seed_fp t.mnemonics },
        any (has_fingerprint seed_fp) t.mnemonics,
      ))

  unfoldable pub select_seed :
      (fault : Option String) → Option ℕ → Tables Ciphertext → Result ℕ SeedSelectionError
  select_seed fault seedfp t = map_err unreadable (list_seed_fingerprints fault t) >>= λ seed_fps.
      select_from seed_fps seedfp

  unfoldable pub backup_required :
      (fault : Option String)
      → (require_backup : Bool) → ℕ
      → Tables Ciphertext
      → Result Bool StoreError
  backup_required fault false seed_fp t = ok false
  backup_required fault true seed_fp t = backup_confirmed fault seed_fp t >>= λ b. ok (not b)

  unfoldable pub confirm_backup :
      (fault : Option String)
      → ℕ
      → Tables Ciphertext
      → Tables Ciphertext × Result (Unit {0}) StoreError
  confirm_backup fault seed_fp t = written t (
      available fault
      >> (if any (has_fingerprint seed_fp) t.mnemonics
          then ok (record t { mnemonics = set_confirmed seed_fp t.mnemonics }, tt)
          else err (no_such_mnemonic seed_fp)))

  unfoldable pub decrypt_row :
      List Identity → (seed_fp : ℕ) → Option (Row Ciphertext) → Result String StoreError
  decrypt_row identities seed_fp none = err (failed "Query returned no rows")
  decrypt_row identities seed_fp (some row) =
      map_err failed (libraries.decrypt_string identities row.encrypted_mnemonic) >>= λ phrase.
      map_err failed (libraries.from_phrase phrase) >>= λ mnemonic.
      if fingerprint_of mnemonic == seed_fp then ok phrase else err key_material_mismatch

  unfoldable pub decrypt_mnemonic :
      (fault : Option String)
      → List Identity
      → (seed_fp : ℕ) → Tables Ciphertext
      → Result String StoreError
  decrypt_mnemonic fault [] seed_fp t = err wallet_locked
  decrypt_mnemonic fault (i ∷ identities) seed_fp t =
      available fault >> decrypt_row (i ∷ identities) seed_fp (row_of seed_fp t.mnemonics)

  unfoldable pub decrypt_seed :
      (fault : Option String)
      → List Identity
      → (seed_fp : ℕ) → Tables Ciphertext
      → Result Seed StoreError
  decrypt_seed fault identities seed_fp t =
      decrypt_mnemonic fault identities seed_fp t >>= λ phrase.
      map_err failed (libraries.from_phrase phrase) >>= λ mnemonic. ok (libraries.to_seed mnemonic)

  -- `ensure_seed_is_backed_up`; `shown` is the text of an error.
  unfoldable pub ensure_seed_is_backed_up :
      (shown : StoreError → String)
      → (fault : Option String) → (require_backup : Bool) → ℕ
      → Tables Ciphertext
      → Result (Unit {0}) ErrorObject
  ensure_seed_is_backed_up shown fault require_backup seed_fp t =
      map_err (λ e. with_message database (shown e))
        (backup_required fault require_backup seed_fp t)
      >>= λ required.
          if required
          then err (
              with_message wallet_backup_required
                "Error: Please acknowledge that you have backed up the wallet's emergency recovery phrase by using the zallet confirm-backup command first.")
          else ok tt
