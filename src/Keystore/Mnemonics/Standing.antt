-- ===== src/Keystore/Mnemonics/Standing.antt =====
-- The stored mnemonics refine an automaton for each seed.
use Prim.Native.String.{String}
use wallet.Prelude.{
  ℕ, ◌==◌, ◌≡◌, refl, ◌∙◌, ap, Bool, true, false, not, any, Option, none, some, List, [], ◌∷◌,
  if◌then◌else◌, Result, ok, err, Bool-cases, Result-cases, Option-cases, ◌⊎◌, inl, inr, arith,
}
use wallet.Keystore.Mnemonics.{
  BackupStatus, is_confirmed, StoreError, failed, Row, Tables, Libraries, available, upsert,
  has_fingerprint, row_of, set_confirmed, delete_rows, written, fingerprint_of, store_row,
  encryptor, backup_required, backup_confirmed, was_confirmed, encrypt_and_store_mnemonic,
  delete_mnemonic, confirm_backup,
}

-- What the keystore knows of the mnemonic of a seed.
pub data Standing : Type 0 where
  missing pending backed_up : Standing

abbrev standing_of : {Ciphertext : Type 0} → Option (Row Ciphertext) → Standing
standing_of none = missing
standing_of (some row) = if row.backup_confirmed then backed_up else pending

abbrev pub standing : {Ciphertext : Type 0} → ℕ → List (Row Ciphertext) → Standing
standing seed_fp rows = standing_of (row_of seed_fp rows)

-- New spend authority is refused where the phrase is not backed up.
abbrev pub needs_backup : Standing → Bool
needs_backup missing = true
needs_backup pending = true
needs_backup backed_up = false

-- A stored phrase keeps a confirmation, and adds its own.
abbrev pub on_store : Bool → Standing → Standing
on_store true s = backed_up
on_store false missing = pending
on_store false pending = pending
on_store false backed_up = backed_up

abbrev pub on_confirm : Standing → Standing
on_confirm missing = missing
on_confirm pending = backed_up
on_confirm backed_up = backed_up

upsert-standing :
    {Ciphertext : Type 0} (seed_fp : ℕ) (row : Row Ciphertext) (rows : List (Row Ciphertext))
    → standing seed_fp (upsert row rows) ≡ (
        if has_fingerprint seed_fp row
        then on_store row.backup_confirmed (standing seed_fp rows)
        else standing seed_fp rows)
unfolding upsert row_of has_fingerprint
upsert-standing seed_fp row [] = ground arith
upsert-standing seed_fp row (r ∷ rows) = let rest = upsert-standing seed_fp row rows in ground arith

set_confirmed-standing :
    {Ciphertext : Type 0} (seed_fp changed : ℕ) (rows : List (Row Ciphertext))
    → standing seed_fp (set_confirmed changed rows)
      ≡ (if changed == seed_fp then on_confirm (standing seed_fp rows) else standing seed_fp rows)
unfolding set_confirmed row_of has_fingerprint
set_confirmed-standing seed_fp changed [] = ground arith
set_confirmed-standing seed_fp changed (r ∷ rows) =
    let rest = set_confirmed-standing seed_fp changed rows in ground arith

delete_rows-standing :
    {Ciphertext : Type 0} (seed_fp gone : ℕ) (rows : List (Row Ciphertext))
    → standing seed_fp (delete_rows gone rows)
      ≡ (if gone == seed_fp then missing else standing seed_fp rows)
unfolding delete_rows row_of has_fingerprint
delete_rows-standing seed_fp gone [] = ground arith
delete_rows-standing seed_fp gone (r ∷ rows) =
    let rest = delete_rows-standing seed_fp gone rows in ground arith

-- The calls that change the mnemonics, each with the errors of the database, if it fails.
pub data Call (Mnemonic : Type 0) : Type 0 where
  stores : (reading writing : Option String) → Mnemonic → BackupStatus → Call Mnemonic
  confirms : (fault : Option String) → ℕ → Call Mnemonic
  deletes : (fault : Option String) → ℕ → Call Mnemonic

abbrev pub is_ok : {A : Type 0} → Result A StoreError → Bool
is_ok (ok a) = true
is_ok (err e) = false

module _ {Ciphertext Identity Recipient Mnemonic Seed : Type 0}
    (libraries : Libraries Ciphertext Identity Recipient Mnemonic Seed) where
  -- The tables after a call, and whether it succeeded.
  unfoldable pub perform : Call Mnemonic → Tables Ciphertext → Tables Ciphertext × Bool
  perform (stores reading writing mnemonic backup) t =
      let (t', r) = encrypt_and_store_mnemonic libraries reading writing mnemonic backup t in
      (t', is_ok r)
  perform (confirms fault seed_fp) t =
      let (t', r) = confirm_backup libraries fault seed_fp t in (t', is_ok r)
  perform (deletes fault seed_fp) t =
      let (t', r) = delete_mnemonic libraries fault seed_fp t in (t', is_ok r)

  -- What a call means for a seed: nothing, where it failed.
  unfoldable pub obey : Call Mnemonic → (succeeded : Bool) → ℕ → Standing → Standing
  obey call false seed_fp s = s
  obey (stores reading writing mnemonic backup) true seed_fp s =
      if fingerprint_of libraries mnemonic == seed_fp then on_store (is_confirmed backup) s else s
  obey (confirms fault changed) true seed_fp s = if changed == seed_fp then on_confirm s else s
  obey (deletes fault gone) true seed_fp s = if gone == seed_fp then missing else s

  -- The row that a store of a mnemonic writes.
  abbrev pub row_for : Mnemonic → BackupStatus → Ciphertext → Row Ciphertext
  row_for mnemonic backup encrypted = record {
    hd_seed_fingerprint = fingerprint_of libraries mnemonic;
    encrypted_mnemonic = encrypted;
    backup_confirmed = is_confirmed backup;
  }

  -- A store fails and changes nothing, or writes its row.
  abbrev pub StoreEnds :
      (reading : Option String)
      → Mnemonic
      → BackupStatus
      → Tables Ciphertext
      → Tables Ciphertext × Result ℕ StoreError
      → Type 0
  StoreEnds reading mnemonic backup t run =
      ((e : StoreError) × (run ≡ (t, err e)))
      ⊎ ((recipients : List Recipient) × (encrypted : Ciphertext) × (encryptor libraries reading t
            ≡ ok recipients)
          × (libraries.encrypt_string recipients (libraries.into_phrase mnemonic) ≡ ok encrypted)
          × (run ≡ (
            record t { mnemonics = upsert (row_for mnemonic backup encrypted) t.mnemonics },
            ok (fingerprint_of libraries mnemonic),
          )))

  pub store-ends :
      (reading writing : Option String) (mnemonic : Mnemonic) (backup : BackupStatus)
      (t : Tables Ciphertext)
      → StoreEnds reading mnemonic backup t
          (encrypt_and_store_mnemonic libraries reading writing mnemonic backup t)
  unfolding encrypt_and_store_mnemonic written store_row available
  store-ends reading writing mnemonic backup t =
      elim (Result-cases (encryptor libraries reading t)) [
        | inr (e, refused) ↦ rw refused (inl (e, refl))
        | inl (recipients, found) ↦
            rw found
              (elim (Result-cases
                (libraries.encrypt_string recipients (libraries.into_phrase mnemonic))) [
                  | inr (e, refused) ↦ rw refused (inl (failed e, refl))
                  | inl (encrypted, made) ↦ rw made (elim (Option-cases writing) [
                    | inr (e, fault) ↦ rw fault (inl (failed e, refl))
                    | inl fine ↦ rw fine (inr (recipients, encrypted, refl, made, refl))
                  ])
                ])
      ]

  stores-standing :
      (reading writing : Option String) (mnemonic : Mnemonic) (backup : BackupStatus) (seed_fp : ℕ)
      (t : Tables Ciphertext)
      → standing seed_fp (perform (stores reading writing mnemonic backup) t).0.mnemonics
        ≡ obey
            (stores reading writing mnemonic backup)
            (perform (stores reading writing mnemonic backup) t).1
            seed_fp
            (standing seed_fp t.mnemonics)
  unfolding perform obey has_fingerprint
  stores-standing reading writing mnemonic backup seed_fp t =
      elim (store-ends reading writing mnemonic backup t) [
        | inl (e, run) ↦ rw run refl
        | inr (recipients, encrypted, found, made, run) ↦
            rw run (upsert-standing seed_fp (row_for mnemonic backup encrypted) t.mnemonics)
      ]

  confirms-standing :
      (fault : Option String) (changed seed_fp : ℕ) (t : Tables Ciphertext)
      → standing seed_fp (perform (confirms fault changed) t).0.mnemonics
        ≡ obey
            (confirms fault changed)
            (perform (confirms fault changed) t).1
            seed_fp
            (standing seed_fp t.mnemonics)
  unfolding perform obey confirm_backup written available
  confirms-standing (some e) changed seed_fp t = refl
  confirms-standing none changed seed_fp t =
      elim (Bool-cases (any (has_fingerprint changed) t.mnemonics)) [
        | inr n ↦ rw n refl
        | inl y ↦ rw y (set_confirmed-standing seed_fp changed t.mnemonics)
      ]

  deletes-standing :
      (fault : Option String) (gone seed_fp : ℕ) (t : Tables Ciphertext)
      → standing seed_fp (perform (deletes fault gone) t).0.mnemonics
        ≡ obey
            (deletes fault gone)
            (perform (deletes fault gone) t).1
            seed_fp
            (standing seed_fp t.mnemonics)
  unfolding perform obey delete_mnemonic written available
  deletes-standing (some e) gone seed_fp t = refl
  deletes-standing none gone seed_fp t = delete_rows-standing seed_fp gone t.mnemonics

  -- The tables after a list of calls, and what the calls mean for a seed.
  unfoldable pub after : List (Call Mnemonic) → Tables Ciphertext → Tables Ciphertext
  after [] t = t
  after (call ∷ calls) t = after calls (perform call t).0

  unfoldable pub follow : List (Call Mnemonic) → Tables Ciphertext → ℕ → Standing → Standing
  follow [] t seed_fp s = s
  follow (call ∷ calls) t seed_fp s =
      follow calls (perform call t).0 seed_fp (obey call (perform call t).1 seed_fp s)

  perform-standing :
      (call : Call Mnemonic) (seed_fp : ℕ) (t : Tables Ciphertext)
      → standing seed_fp (perform call t).0.mnemonics
        ≡ obey call (perform call t).1 seed_fp (standing seed_fp t.mnemonics)
  perform-standing (stores reading writing mnemonic backup) seed_fp t =
      stores-standing reading writing mnemonic backup seed_fp t
  perform-standing (confirms fault changed) seed_fp t = confirms-standing fault changed seed_fp t
  perform-standing (deletes fault gone) seed_fp t = deletes-standing fault gone seed_fp t

  after-standing :
      (calls : List (Call Mnemonic)) (seed_fp : ℕ) (t : Tables Ciphertext)
      → standing seed_fp (after calls t).mnemonics
        ≡ follow calls t seed_fp (standing seed_fp t.mnemonics)
  unfolding after follow
  after-standing [] seed_fp t = refl
  after-standing (call ∷ calls) seed_fp t =
      let rest = after-standing calls seed_fp (perform call t).0 in
      rest ∙ ap (follow calls (perform call t).0 seed_fp) (perform-standing call seed_fp t)

  -- After any calls that store, confirm or delete mnemonics, in any order and with any of them failing,
  -- where the policy is on: a backup is required for a seed exactly where the seed's own automaton says
  -- so. In it a successful confirmed store or a confirmation of a stored phrase backs the seed up, a
  -- store of a phrase that was generated leaves a backed-up seed as it is, a deletion forgets it, and
  -- neither a call for another seed nor a call that fails changes anything.
  pub backup_required-follow :
      (calls : List (Call Mnemonic)) (seed_fp : ℕ) (t : Tables Ciphertext)
      → backup_required libraries none true seed_fp (after calls t)
        ≡ ok (needs_backup (follow calls t seed_fp (standing seed_fp t.mnemonics)))
  unfolding backup_required backup_confirmed available was_confirmed
  backup_required-follow calls seed_fp t = ap ok (
      read (row_of seed_fp (after calls t).mnemonics)
      ∙ ap needs_backup (after-standing calls seed_fp t))
    where
      read :
          (row : Option (Row Ciphertext)) → not (was_confirmed row) ≡ needs_backup (standing_of row)
      read none = refl
      read (some row) = ground arith
