-- ===== src/Keystore/Lock/Guard.antt =====
-- The relock timer guards the cache.
use Prim.Native.String.{String}
use wallet.Prelude.{
  ℕ, ◌+◌, ◌≡◌, refl, ◌≢◌, ltb, Bool, false, Result, ok, err, true, Option, none, some, List, [],
  ◌∷◌, arith, Bool-cases, inl, inr,
}
use wallet.Keystore.Lock.{
  Sleeper, KeyStore, is_empty, is_asleep, deadline_of, uses_encrypted_identities, is_locked,
  unlocked_until, install, lock, fire, Age, install_decrypted, unlock, KeystoreError, Step, ticks,
  unlocks, locks, unlocks_on_terminal, fires,
}
use wallet.Keystore.Lock.Valid.{opened, Timer, IsValid, Reach, begin, next, Reach-IsValid}

-- The cache holds identities only while a task is asleep.
abbrev pub Guarded : {Identity : Type 0} → List Identity → List Sleeper → Type 0
Guarded [] sleepers = Unit
Guarded (i ∷ is) sleepers = sleepers ≢ []

deadline_of-own :
    (deadline : ℕ) (t : Sleeper) → deadline_of (some (deadline, t.task)) (t ∷ []) ≡ some deadline
unfolding deadline_of is_asleep
deadline_of-own deadline t = ground arith

running :
    (relock : Option (ℕ × ℕ)) (t : Sleeper)
    → Timer relock (t ∷ [])
    → deadline_of relock (t ∷ []) ≢ none
running relock t (d, e, l) = rw (e, deadline_of-own d t) (λ h. cc)

Guarded-some :
    {Identity : Type 0} (is : List Identity) (t : Sleeper) (ts : List Sleeper) → Guarded is (t ∷ ts)
Guarded-some [] t ts = tt
Guarded-some (i ∷ is) t ts = λ e. cc

module _ {Ciphertext File Identity : Type 0} (age : Age Ciphertext File Identity)
    (last_time : ℕ) where
  -- Whether the terminal has written the cache after the last lock, unlock or relock.
  abbrev pub unless_unlocked : Bool → Result (Unit {0}) KeystoreError → Bool
  unless_unlocked terminal (ok _) = false
  unless_unlocked terminal (err e) = terminal

  abbrev pub terminal_after :
      {s t : KeyStore Ciphertext Identity} → Bool → Step age last_time s t → Bool
  terminal_after terminal (ticks s now l) = terminal
  terminal_after terminal (unlocks s called passphrase timeout l) =
      unless_unlocked terminal (unlock age last_time called passphrase timeout s).1
  terminal_after terminal (locks s) = false
  terminal_after terminal (unlocks_on_terminal s typed) = true
  terminal_after terminal (fires s t m l) = false

  -- The runs of a keystore, with that answer for their last state.
  pub data Run : Bool → KeyStore Ciphertext Identity → Type 0 where
    opens : (c : Ciphertext) (now : ℕ) → Run false (opened c now)
    goes :
        {terminal : Bool} {s t : KeyStore Ciphertext Identity}
        → Run terminal s
        → (step : Step age last_time s t) → Run (terminal_after terminal step) t

  Run-Reach :
      {terminal : Bool} {s : KeyStore Ciphertext Identity} → Run terminal s → Reach age last_time s
  Run-Reach (opens c now) = begin c now
  Run-Reach (goes r step) = next (Run-Reach r) step

  Guards : Bool → KeyStore Ciphertext Identity → Type 0
  Guards terminal s = terminal ≡ false → Guarded s.identities s.asleep

  install_decrypted-Guards :
      (relock_at timeout : ℕ) (terminal : Bool) (decrypted : Option (List Identity))
      (s : KeyStore Ciphertext Identity)
      → Guards terminal s
      → Guards
          (unless_unlocked terminal
            (install_decrypted age last_time relock_at timeout decrypted s).1)
          (install_decrypted age last_time relock_at timeout decrypted s).0
  unfolding install_decrypted install Guards
  install_decrypted-Guards relock_at timeout terminal none s g = g
  install_decrypted-Guards relock_at timeout terminal (some ids) s g = λ _. Guarded-some ids _ _

  unlock-Guards :
      (called : ℕ) (passphrase : String) (timeout : ℕ) (terminal : Bool)
      (s : KeyStore Ciphertext Identity)
      → Guards terminal s
      → Guards
          (unless_unlocked terminal (unlock age last_time called passphrase timeout s).1)
          (unlock age last_time called passphrase timeout s).0
  unfolding unlock
  unlock-Guards called passphrase timeout terminal s g =
      elim (Bool-cases (ltb last_time (called + timeout))) [
        | inl y ↦ rw y g
        | inr n ↦ rw n (install_decrypted-Guards (called + timeout) timeout terminal _ s g)
      ]

  lock-Guarded :
      (s : KeyStore Ciphertext Identity)
      → uses_encrypted_identities s ≡ true
      → Guarded (lock s).identities (lock s).asleep
  unfolding lock
  lock-Guarded s e = rw e tt

  Step-Guards :
      {s t : KeyStore Ciphertext Identity} (terminal : Bool) (step : Step age last_time s t)
      → IsValid s
      → Guards terminal s
      → Guards (terminal_after terminal step) t
  unfolding Guards
  Step-Guards terminal (ticks s now l) v g = g
  Step-Guards terminal (unlocks s called passphrase timeout l) v g =
      unlock-Guards called passphrase timeout terminal s g
  Step-Guards terminal (locks s) v g = λ _. lock-Guarded s v.encrypted
  Step-Guards terminal (unlocks_on_terminal s typed) v g = λ e. absurd (cc)
  Step-Guards terminal (fires s t m l) v g = λ _. unfold fire in tt

  Run-Guards :
      {terminal : Bool} {s : KeyStore Ciphertext Identity} → Run terminal s → Guards terminal s
  unfolding Guards
  Run-Guards (opens c now) = λ _. tt
  Run-Guards (goes {terminal} r step) =
      Step-Guards terminal step (Reach-IsValid age last_time (Run-Reach r)) (Run-Guards r)

  -- In every state that calls, timers and the clock lead to, in any order, except where
  -- `unlock_on_terminal` was called after the last lock, unlock that succeeded, or relock, an encrypted
  -- keystore that will not relock is locked: `unlocked_until` answers no time only when `is_locked` holds.
  pub unlocked_until-is_locked :
      {s : KeyStore Ciphertext Identity}
      → Run false s
      → unlocked_until s ≡ none
      → is_locked s ≡ true
  unfolding unlocked_until is_locked
  unlocked_until-is_locked {s} r h =
      no_task s.identities s.relock_task s.asleep (Reach-IsValid age last_time (Run-Reach r)).timer
        (unfold Guards in (Run-Guards r refl)) h
    where
      no_task :
          (is : List Identity) (relock : Option (ℕ × ℕ)) (sleepers : List Sleeper)
          → Timer relock sleepers
          → Guarded is sleepers
          → deadline_of relock sleepers ≡ none
          → is_empty is ≡ true
      no_task [] relock sleepers t g e = unfold is_empty in refl
      no_task (i ∷ is) relock [] t g e = absurd (g refl)
      no_task (i ∷ is) relock (u ∷ []) t g e = absurd (running relock u t e)
      no_task (i ∷ is) relock (u ∷ w ∷ ts) t g e = absurd t
