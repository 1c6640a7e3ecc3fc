-- ===== src/Keystore/Lock/Lasts.antt =====
-- How long an unlock lasts.
use mathlib.Core.List.{Memᴰ}
use Prim.Native.String.{String}
use wallet.Prelude.{
  ℕ, ◌+◌, ◌≤◌, ◌<◌, ◌≡◌, refl, ◌⊎◌, sym, ap, subst, ltb, true, Option, none, some, List, [], ◌∷◌,
  ok, arith, Bool-cases, ◌∙◌, inl, inr,
}
use wallet.Keystore.Lock.{
  Sleeper, KeyStore, is_empty, is_locked, install, fire, Age, identities_of, decrypt_identity_file,
  install_decrypted, unlock,
}
use wallet.Keystore.Lock.Valid.{IsValid, Reach, Reach-IsValid, stop_task-Timer}

module _ {Ciphertext Identity : Type 0} where
  -- What happens to a keystore that is not locked or unlocked by a call: time passes, timers wake up.
  pub data Quiet (s : KeyStore Ciphertext Identity) : KeyStore Ciphertext Identity → Type 0 where
    still : Quiet s s
    ticks :
        {t : KeyStore Ciphertext Identity} (now : ℕ)
        → Quiet s t
        → t.now ≤ now
        → Quiet s (record t { now = now })
    fires :
        {t : KeyStore Ciphertext Identity} (u : Sleeper)
        → Quiet s t
        → Memᴰ u t.asleep
        → u.wakes_at ≤ t.now
        → Quiet s (fire u.task t)

  -- Every timer that is due has fired.
  abbrev pub IsPrompt : KeyStore Ciphertext Identity → Type 0
  IsPrompt s = (u : Sleeper) → Memᴰ u s.asleep → s.now < u.wakes_at

  -- The cache holds the identities and one timer is set for the end, or the end has come.
  abbrev Running : (end : ℕ) → List Identity → KeyStore Ciphertext Identity → Type 0
  Running end ids s =
      ((s.identities ≡ ids)
        × ((task : ℕ) × (s.asleep ≡ record { task = task; wakes_at = end } ∷ [])))
      ⊎ ((s.identities ≡ []) × (end ≤ s.now))

  Running-Quiet :
      (end : ℕ) (ids : List Identity) {s t : KeyStore Ciphertext Identity}
      → Running end ids s
      → Quiet s t
      → Running end ids t
  unfolding fire
  Running-Quiet end ids h still = h
  Running-Quiet end ids h (ticks now q l) = elim (Running-Quiet end ids h q) [
    | inl on ↦ inl on
    | inr (e, past) ↦ inr (e, omega arith)
  ]
  Running-Quiet end ids h (fires u q m l) = elim (Running-Quiet end ids h q) [
    | inl (e, (task, only)) ↦ inr (refl, due u (subst (λ xs. Memᴰ u xs) only m) l)
    | inr (e, past) ↦ inr (refl, past)
  ]
    where
      due :
          {task now : ℕ} (u : Sleeper)
          → Memᴰ u (record { task = task; wakes_at = end } ∷ [])
          → u.wakes_at ≤ now
          → end ≤ now
      due u (Memᴰ.head e) l = rw (ap (λ (v : Sleeper). v.wakes_at) (sym e)) l
      due u (Memᴰ.tail m) l = elim m [ ]

  Running-install :
      (relock_at timeout : ℕ) (ids : List Identity) (s : KeyStore Ciphertext Identity)
      → IsValid s
      → Running (s.now + timeout) ids (install relock_at timeout ids s)
  unfolding install
  Running-install relock_at timeout ids s v =
      inl (refl, (s.next_task, rw (stop_task-Timer s.relock_task s.asleep v.timer) refl))

  Running-kept :
      (end : ℕ) (ids : List Identity) (t : KeyStore Ciphertext Identity)
      → Running end ids t
      → t.now < end
      → t.identities ≡ ids
  Running-kept end ids t (inl (e, on)) l = e
  Running-kept end ids t (inr (e, past)) l = absurd (omega arith)

  Running-over :
      (end : ℕ) (ids : List Identity) (t : KeyStore Ciphertext Identity)
      → Running end ids t
      → end ≤ t.now
      → IsPrompt t
      → is_locked t ≡ true
  unfolding is_locked
  Running-over end ids t (inr (e, past)) l p = rw e (unfold is_empty in refl)
  Running-over end ids t (inl (e, (task, only))) l p =
      absurd (late (p (record { task = task; wakes_at = end }) (rw only (Memᴰ.head refl))))
    where
      late : t.now < end → ⊥
      late h = omega arith

module _ {Ciphertext File Identity : Type 0} (age : Age Ciphertext File Identity)
    (last_time : ℕ) where
  decrypted_some :
      (relock_at timeout : ℕ) (found : Option (List Identity)) (s : KeyStore Ciphertext Identity)
      → (install_decrypted age last_time relock_at timeout found s).1 ≡ ok tt
      → (ids : List Identity) × (found ≡ some ids)
        × ((install_decrypted age last_time relock_at timeout found s).0
            ≡ install relock_at timeout ids s)
  unfolding install_decrypted
  decrypted_some relock_at timeout none s h = cc
  decrypted_some relock_at timeout (some ids) s h = (ids, refl, refl)

  unlock-ok :
      (called : ℕ) (passphrase : String) (timeout : ℕ) (s : KeyStore Ciphertext Identity)
      → (unlock age last_time called passphrase timeout s).1 ≡ ok tt
      → (ids : List Identity) × (identities_of age last_time
            (decrypt_identity_file age last_time s.encrypted_identities passphrase)
          ≡ some ids)
        × ((unlock age last_time called passphrase timeout s).0
            ≡ install (called + timeout) timeout ids s)
  unfolding unlock
  unlock-ok called passphrase timeout s h = elim (Bool-cases (ltb last_time (called + timeout))) [
    | inl y ↦ absurd (refused y h)
    | inr n ↦ rw n (decrypted_some (called + timeout) timeout _ s (rw n at h))
  ]
    where
      refused :
          ltb last_time (called + timeout) ≡ true
          → (unlock age last_time called passphrase timeout s).1 ≡ ok tt
          → ⊥
      refused y h = ground arith

  -- After an unlock that succeeds, in any state reached before, and as long as no call locks or
  -- unlocks: until the timeout has passed, the cache holds the identities that the passphrase decrypts;
  -- once it has passed and the timers that are due have fired, the keystore is locked.
  pub unlock_lasts :
      (called : ℕ) (passphrase : String) (timeout : ℕ) {s t : KeyStore Ciphertext Identity}
      → Reach age last_time s
      → (unlock age last_time called passphrase timeout s).1 ≡ ok tt
      → Quiet (unlock age last_time called passphrase timeout s).0 t
      → (t.now < s.now + timeout
          → some t.identities
            ≡ identities_of age last_time
                (decrypt_identity_file age last_time s.encrypted_identities passphrase))
        × (s.now + timeout ≤ t.now → IsPrompt t → is_locked t ≡ true)
  unlock_lasts called passphrase timeout {s} {t} r h q =
      let (ids, found, installed) = unlock-ok called passphrase timeout s h in
      let run =
        Running-Quiet (s.now + timeout) ids
          (rw installed
            (Running-install (called + timeout) timeout ids s (Reach-IsValid age last_time r)))
          q in
      (
        λ l. ap some (Running-kept (s.now + timeout) ids t run l) ∙ sym found,
        Running-over (s.now + timeout) ids t run,
      )
