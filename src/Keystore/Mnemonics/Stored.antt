-- ===== src/Keystore/Mnemonics/Stored.antt =====
-- A stored mnemonic can be decrypted until it is deleted.
use Prim.Native.String.{String}
use wallet.Prelude.{
  ℕ, ◌==◌, ◌≡◌, ◌≢◌, refl, sym, subst, true, any, Option, none, some, List, [], ◌∷◌, All, Result,
  ok, err, Bool-cases, ok_injective, inl, inr, arith,
}
use wallet.Keystore.Mnemonics.{
  BackupStatus, StoreError, Row, Tables, Libraries, available, upsert, has_fingerprint, row_of,
  set_confirmed, delete_rows, written, fingerprint_of, encryptor, encrypt_and_store_mnemonic,
  delete_mnemonic, confirm_backup, decrypt_row, decrypt_mnemonic,
}
use wallet.Keystore.Mnemonics.Standing.{
  Call, stores, confirms, deletes, perform, after, row_for, store-ends,
}

same_number : (n : ℕ) → n == n ≡ true
same_number n = ground arith

abbrev ciphertext_of : {Ciphertext : Type 0} → Option (Row Ciphertext) → Option Ciphertext
ciphertext_of none = none
ciphertext_of (some row) = some row.encrypted_mnemonic

-- The ciphertext under a fingerprint.
abbrev pub held : {Ciphertext : Type 0} → ℕ → List (Row Ciphertext) → Option Ciphertext
held seed_fp rows = ciphertext_of (row_of seed_fp rows)

upsert-held :
    {Ciphertext : Type 0} (seed_fp : ℕ) (c : Ciphertext) (row : Row Ciphertext)
    (rows : List (Row Ciphertext))
    → held seed_fp rows ≡ some c
    → held seed_fp (upsert row rows) ≡ some c
unfolding upsert row_of has_fingerprint
upsert-held seed_fp c row [] h = ground arith
upsert-held seed_fp c row (r ∷ rows) h = let rest = upsert-held seed_fp c row rows in ground arith

upsert-held_new :
    {Ciphertext : Type 0} (row : Row Ciphertext) (rows : List (Row Ciphertext))
    → held row.hd_seed_fingerprint rows ≡ none
    → held row.hd_seed_fingerprint (upsert row rows) ≡ some row.encrypted_mnemonic
unfolding upsert row_of has_fingerprint
upsert-held_new row [] h = ground arith
upsert-held_new row (r ∷ rows) h = let rest = upsert-held_new row rows in ground arith

set_confirmed-held :
    {Ciphertext : Type 0} (seed_fp changed : ℕ) (c : Ciphertext) (rows : List (Row Ciphertext))
    → held seed_fp rows ≡ some c
    → held seed_fp (set_confirmed changed rows) ≡ some c
unfolding set_confirmed row_of has_fingerprint
set_confirmed-held seed_fp changed c [] h = ground arith
set_confirmed-held seed_fp changed c (r ∷ rows) h =
    let rest = set_confirmed-held seed_fp changed c rows in ground arith

delete_rows-held :
    {Ciphertext : Type 0} (seed_fp gone : ℕ) (c : Ciphertext) (rows : List (Row Ciphertext))
    → gone ≢ seed_fp
    → held seed_fp rows ≡ some c
    → held seed_fp (delete_rows gone rows) ≡ some c
unfolding delete_rows row_of has_fingerprint
delete_rows-held seed_fp gone c [] n h = ground arith
delete_rows-held seed_fp gone c (r ∷ rows) n h =
    let rest = delete_rows-held seed_fp gone c rows n in ground arith

module _ {Ciphertext Identity Recipient Mnemonic Seed : Type 0}
    (libraries : Libraries Ciphertext Identity Recipient Mnemonic Seed) where
  -- A call that does not delete the mnemonic of the seed.
  abbrev pub Spares : ℕ → Call Mnemonic → Type 0
  Spares seed_fp (deletes fault gone) = gone ≢ seed_fp
  Spares seed_fp (stores reading writing mnemonic backup) = Unit
  Spares seed_fp (confirms fault changed) = Unit

  perform-held :
      (call : Call Mnemonic) (seed_fp : ℕ) (c : Ciphertext) (t : Tables Ciphertext)
      → Spares seed_fp call
      → held seed_fp t.mnemonics ≡ some c
      → held seed_fp (perform libraries call t).0.mnemonics ≡ some c
  unfolding perform confirm_backup delete_mnemonic written available
  perform-held (stores reading writing mnemonic backup) seed_fp c t s h =
      elim (store-ends libraries reading writing mnemonic backup t) [
        | inl (e, run) ↦ rw run h
        | inr (recipients, encrypted, found, made, run) ↦
            rw run
              (upsert-held seed_fp c (row_for libraries mnemonic backup encrypted) t.mnemonics h)
      ]
  perform-held (confirms (some e) changed) seed_fp c t s h = h
  perform-held (confirms none changed) seed_fp c t s h =
      elim (Bool-cases (any (has_fingerprint changed) t.mnemonics)) [
        | inr n ↦ rw n h
        | inl y ↦ rw y (set_confirmed-held seed_fp changed c t.mnemonics h)
      ]
  perform-held (deletes (some e) gone) seed_fp c t s h = h
  perform-held (deletes none gone) seed_fp c t s h = delete_rows-held seed_fp gone c t.mnemonics s h

  after-held :
      (calls : List (Call Mnemonic)) (seed_fp : ℕ) (c : Ciphertext) (t : Tables Ciphertext)
      → All (Spares seed_fp) calls
      → held seed_fp t.mnemonics ≡ some c
      → held seed_fp (after libraries calls t).mnemonics ≡ some c
  unfolding after
  after-held [] seed_fp c t s h = h
  after-held (call ∷ calls) seed_fp c t (s, ss) h =
      after-held calls seed_fp c (perform libraries call t).0 ss (perform-held call seed_fp c t s h)

  decrypts :
      (i : Identity) (identities : List Identity) (mnemonic : Mnemonic) (c : Ciphertext)
      (t : Tables Ciphertext)
      → held (fingerprint_of libraries mnemonic) t.mnemonics ≡ some c
      → libraries.decrypt_string (i ∷ identities) c ≡ ok (libraries.into_phrase mnemonic)
      → libraries.from_phrase (libraries.into_phrase mnemonic) ≡ ok mnemonic
      → decrypt_mnemonic libraries none (i ∷ identities) (fingerprint_of libraries mnemonic) t
        ≡ ok (libraries.into_phrase mnemonic)
  unfolding decrypt_mnemonic decrypt_row available
  decrypts i identities mnemonic c t h d f =
      go (row_of (fingerprint_of libraries mnemonic) t.mnemonics) h
    where
      go :
          (row : Option (Row Ciphertext))
          → ciphertext_of row ≡ some c
          → decrypt_row libraries (i ∷ identities) (fingerprint_of libraries mnemonic) row
            ≡ ok (libraries.into_phrase mnemonic)
      go none e = absurd (cc)
      go (some row) e =
          rw (same_ciphertext e, d, f, same_number (fingerprint_of libraries mnemonic)) refl
        where
          same_ciphertext : some row.encrypted_mnemonic ≡ some c → row.encrypted_mnemonic ≡ c
          same_ciphertext e = cc

  -- A mnemonic that was stored for a seed without one can be decrypted by an unlocked keystore after
  -- any further calls that do not delete it, some of which may fail: the answer is its phrase. The
  -- identities are those that decrypt what is encrypted to the wallet's recipients, and the phrase is
  -- read back as the mnemonic.
  pub store-decrypt :
      (reading writing : Option String) (mnemonic : Mnemonic) (backup : BackupStatus)
      (t : Tables Ciphertext) (calls : List (Call Mnemonic)) (i : Identity)
      (identities : List Identity)
      → ((recipients : List Recipient) (c : Ciphertext)
          → encryptor libraries reading t ≡ ok recipients
          → libraries.encrypt_string recipients (libraries.into_phrase mnemonic) ≡ ok c
          → libraries.decrypt_string (i ∷ identities) c ≡ ok (libraries.into_phrase mnemonic))
      → libraries.from_phrase (libraries.into_phrase mnemonic) ≡ ok mnemonic
      → held (fingerprint_of libraries mnemonic) t.mnemonics ≡ none
      → (seed_fp : ℕ)
      → (encrypt_and_store_mnemonic libraries reading writing mnemonic backup t).1 ≡ ok seed_fp
      → All (Spares seed_fp) calls
      → decrypt_mnemonic libraries none (i ∷ identities) seed_fp (
          after libraries calls
            (encrypt_and_store_mnemonic libraries reading writing mnemonic backup t).0)
        ≡ ok (libraries.into_phrase mnemonic)
  store-decrypt reading writing mnemonic backup t calls i identities law reads fresh seed_fp done
        spared =
      elim (store-ends libraries reading writing mnemonic backup t) [
        | inl (e, run) ↦ absurd (refused (rw run at done))
        | inr (recipients, c, found, made, run) ↦
            let same = ok_injective (rw run at done) in
            let kept =
              after-held calls (fingerprint_of libraries mnemonic) c
                (encrypt_and_store_mnemonic libraries reading writing mnemonic backup t).0
                (subst (λ fp. All (Spares fp) calls) (sym same) spared)
                (rw run
                  (upsert-held_new (row_for libraries mnemonic backup c) t.mnemonics fresh)) in
            subst
              (λ fp.
                decrypt_mnemonic libraries none (i ∷ identities) fp (
                  after libraries calls
                    (encrypt_and_store_mnemonic libraries reading writing mnemonic backup t).0)
                ≡ ok (libraries.into_phrase mnemonic))
              same
              (decrypts i identities mnemonic c
                (after libraries calls
                  (encrypt_and_store_mnemonic libraries reading writing mnemonic backup t).0)
                kept (law recipients c found made) reads)
      ]
    where
      refused : {e : StoreError} → ◌≡◌ {A = Result ℕ StoreError} (err e) (ok seed_fp) → ⊥
      refused h = cc
