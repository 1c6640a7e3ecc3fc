-- ===== src/Keystore/Lock/Valid.antt =====
-- The relock timer is always the one of the last unlock.
use mathlib.Core.List.{Memᴰ}
use Prim.Native.String.{String}
use wallet.Prelude.{
  ℕ, ◌+◌, ◌≤◌, ◌≡◌, refl, ltb, true, Option, none, some, List, [], ◌∷◌, arith, Bool-cases, inl, inr,
}
use wallet.Keystore.Lock.{
  Sleeper, KeyStore, end_task, stop_task, uses_encrypted_identities, install, lock, fire, Age,
  install_decrypted, unlock, keep_identities, keep_file, decrypt_on_terminal, unlock_on_terminal,
  Step, ticks, unlocks, locks, unlocks_on_terminal, fires,
}

-- At most one task is asleep: the relock task, which wakes up at its deadline or later.
abbrev pub Timer : Option (ℕ × ℕ) → List Sleeper → Type 0
Timer relock [] = Unit
Timer relock (t ∷ []) =
    (deadline : ℕ) × (relock ≡ some (deadline, t.task)) × (deadline ≤ t.wakes_at)
Timer relock (t ∷ u ∷ ts) = ⊥

module _ {Ciphertext Identity : Type 0} where
  pub record IsValid (s : KeyStore Ciphertext Identity) : Type 0 where
    pub encrypted : uses_encrypted_identities s ≡ true
    pub timer : Timer s.relock_task s.asleep

end_task_self : (t : Sleeper) → end_task t.task (t ∷ []) ≡ []
unfolding end_task
end_task_self t = ground arith

pub stop_task-Timer :
    (relock : Option (ℕ × ℕ)) (sleepers : List Sleeper)
    → Timer relock sleepers
    → stop_task relock sleepers ≡ []
unfolding stop_task
stop_task-Timer none [] h = refl
stop_task-Timer (some (d, task)) [] h = unfold end_task in refl
stop_task-Timer relock (t ∷ []) (d, e, l) = rw e (end_task_self t)
stop_task-Timer relock (t ∷ u ∷ ts) h = absurd h

pub end_task-Timer :
    (t : Sleeper) (relock : Option (ℕ × ℕ)) (sleepers : List Sleeper)
    → Timer relock sleepers
    → Memᴰ t sleepers
    → end_task t.task sleepers ≡ []
end_task-Timer t relock [] h m = elim m [ ]
end_task-Timer t relock (u ∷ []) h (Memᴰ.head e) = rw e (end_task_self u)
end_task-Timer t relock (u ∷ []) h (Memᴰ.tail m) = elim m [ ]
end_task-Timer t relock (u ∷ w ∷ ts) h m = absurd h

module _ {Ciphertext Identity : Type 0} where
  install-IsValid :
      (relock_at timeout : ℕ) (decrypted : List Identity) (s : KeyStore Ciphertext Identity)
      → relock_at ≤ s.now + timeout
      → IsValid s
      → IsValid (install relock_at timeout decrypted s)
  unfolding install uses_encrypted_identities
  install-IsValid relock_at timeout decrypted s l v = record {
    encrypted = v.encrypted;
    timer = rw (stop_task-Timer s.relock_task s.asleep v.timer) (relock_at, refl, l);
  }

  lock-IsValid : (s : KeyStore Ciphertext Identity) → IsValid s → IsValid (lock s)
  unfolding lock uses_encrypted_identities
  lock-IsValid s v = rw v.encrypted (record {
    encrypted = v.encrypted;
    timer = rw (stop_task-Timer s.relock_task s.asleep v.timer) tt;
  })

  fire-IsValid :
      (t : Sleeper) (s : KeyStore Ciphertext Identity)
      → Memᴰ t s.asleep
      → IsValid s
      → IsValid (fire t.task s)
  unfolding fire uses_encrypted_identities
  fire-IsValid t s m v = record {
    encrypted = v.encrypted;
    timer = rw (end_task-Timer t s.relock_task s.asleep v.timer m) tt;
  }

-- A keystore as `KeyStore::new` makes it from a file of encrypted identities.
abbrev pub opened :
    {Ciphertext Identity : Type 0} → Ciphertext → (now : ℕ) → KeyStore Ciphertext Identity
opened c now = record {
  encrypted_identities = some c;
  identities = [];
  relock_task = none;
  asleep = [];
  next_task = 0;
  now = now;
}

module _ {Ciphertext File Identity : Type 0} (age : Age Ciphertext File Identity)
    (last_time : ℕ) where
  pub data Reach : KeyStore Ciphertext Identity → Type 0 where
    begin : (c : Ciphertext) (now : ℕ) → Reach (opened c now)
    next : {s t : KeyStore Ciphertext Identity} → Reach s → Step age last_time s t → Reach t

  install_decrypted-IsValid :
      (relock_at timeout : ℕ) (decrypted : Option (List Identity))
      (s : KeyStore Ciphertext Identity)
      → relock_at ≤ s.now + timeout
      → IsValid s
      → IsValid (install_decrypted age last_time relock_at timeout decrypted s).0
  unfolding install_decrypted
  install_decrypted-IsValid relock_at timeout none s l v = v
  install_decrypted-IsValid relock_at timeout (some ids) s l v =
      install-IsValid relock_at timeout ids s l v

  unlock-IsValid :
      (called : ℕ) (passphrase : String) (timeout : ℕ) (s : KeyStore Ciphertext Identity)
      → called ≤ s.now
      → IsValid s
      → IsValid (unlock age last_time called passphrase timeout s).0
  unfolding unlock
  unlock-IsValid called passphrase timeout s l v =
      elim (Bool-cases (ltb last_time (called + timeout))) [
        | inl y ↦ rw y v
        | inr n ↦ rw n (install_decrypted-IsValid (called + timeout) timeout _ s (omega arith) v)
      ]

  keep_identities-IsValid :
      (ids : Option (List Identity)) (s : KeyStore Ciphertext Identity)
      → IsValid s
      → IsValid (keep_identities age last_time ids s).0
  unfolding keep_identities uses_encrypted_identities
  keep_identities-IsValid none s v = v
  keep_identities-IsValid (some ids) s v = record { encrypted = v.encrypted; timer = v.timer }

  keep_file-IsValid :
      (file : Option File) (s : KeyStore Ciphertext Identity)
      → IsValid s
      → IsValid (keep_file age last_time file s).0
  unfolding keep_file
  keep_file-IsValid none s v = v
  keep_file-IsValid (some file) s v = keep_identities-IsValid (age.into_identities file) s v

  decrypt_on_terminal-IsValid :
      (ciphertext : Option Ciphertext) (typed : Option String) (s : KeyStore Ciphertext Identity)
      → IsValid s
      → IsValid (decrypt_on_terminal age last_time ciphertext typed s).0
  unfolding decrypt_on_terminal
  decrypt_on_terminal-IsValid none typed s v = v
  decrypt_on_terminal-IsValid (some c) none s v = v
  decrypt_on_terminal-IsValid (some c) (some p) s v = keep_file-IsValid (age.decrypt c p) s v

  pub Step-IsValid :
      {s t : KeyStore Ciphertext Identity} → Step age last_time s t → IsValid s → IsValid t
  unfolding uses_encrypted_identities unlock_on_terminal
  Step-IsValid (ticks s now l) v = record { encrypted = v.encrypted; timer = v.timer }
  Step-IsValid (unlocks s called passphrase timeout l) v =
      unlock-IsValid called passphrase timeout s l v
  Step-IsValid (locks s) v = lock-IsValid s v
  Step-IsValid (unlocks_on_terminal s typed) v =
      decrypt_on_terminal-IsValid s.encrypted_identities typed s v
  Step-IsValid (fires s t m l) v = fire-IsValid t s m v

  pub Reach-IsValid : {s : KeyStore Ciphertext Identity} → Reach s → IsValid s
  Reach-IsValid (begin c now) = record {
    encrypted = unfold uses_encrypted_identities in refl;
    timer = tt;
  }
  Reach-IsValid (next r step) = Step-IsValid step (Reach-IsValid r)
