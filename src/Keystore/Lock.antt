-- ===== src/Keystore/Lock.antt =====
-- keystore.rs: the cache of decrypted identities, its relock timer, and the methods that lock and
-- unlock; json_rpc/methods/unlock_wallet.rs and lock_wallet.rs.
pub mod Valid
pub mod Guard
pub mod Lasts
use mathlib.Core.List.{Memᴰ}
use Prim.Native.String
use Prim.Native.String.{String}
use wallet.Prelude.{
  ℕ, suc, ◌+◌, ◌≤◌, ◌≡◌, ltb, leb, ◌==◌, Bool, true, false, not, any, keep, is_some, Option, none,
  some, List, [], ◌∷◌, if◌then◌else◌, Result, ok, err, map_err,
}
use wallet.Rpc.{
  ErrorObject, with_message, wallet_wrong_enc_state, wallet_passphrase_incorrect, invalid_parameter,
  wallet_error, wallet_unlock_needed,
}

pub data KeystoreError : Type 0 where
  empty_recipients incorrect_passphrase missing_recipients timeout_too_large : KeystoreError
  recipient_indirection : String → KeystoreError

-- The errors of `unlock_on_terminal`, both of the kind `ErrorKind::Generic`.
pub data TerminalError : Type 0 where
  decryption_failed identities_failed : TerminalError

-- A spawned relock task that has not ended: it sleeps until `wakes_at`.
pub record Sleeper : Type 0 where
  pub task : ℕ
  pub wakes_at : ℕ

-- The ciphertext of the identities, the cache, the relock task with its deadline, the tasks that are
-- asleep, the ID of the next task and the clock. A `JoinHandle` is the ID of its task; the system's
-- clock and that of the timers are one.
pub record KeyStore (Ciphertext Identity : Type 0) : Type 0 where
  pub encrypted_identities : Option Ciphertext
  pub identities : List Identity
  pub relock_task : Option (ℕ × ℕ)
  pub asleep : List Sleeper
  pub next_task : ℕ
  pub now : ℕ

unfoldable pub is_empty : {Identity : Type 0} → List Identity → Bool
is_empty [] = true
is_empty (i ∷ is) = false

-- `!task.is_finished()`.
unfoldable pub is_asleep : ℕ → List Sleeper → Bool
is_asleep task sleepers = any (λ (t : Sleeper). t.task == task) sleepers

unfoldable pub deadline_of : Option (ℕ × ℕ) → List Sleeper → Option ℕ
unfolding is_asleep
deadline_of none sleepers = none
deadline_of (some (deadline, task)) sleepers =
    if is_asleep task sleepers then some deadline else none

-- The task ends: it is aborted and waited for, or it has woken up.
unfoldable pub end_task : ℕ → List Sleeper → List Sleeper
end_task task sleepers = keep (λ (t : Sleeper). not (t.task == task)) sleepers

unfoldable pub stop_task : Option (ℕ × ℕ) → List Sleeper → List Sleeper
stop_task none sleepers = sleepers
stop_task (some (deadline, task)) sleepers = end_task task sleepers

module _ {Ciphertext Identity : Type 0} where
  unfoldable pub uses_encrypted_identities : KeyStore Ciphertext Identity → Bool
  uses_encrypted_identities s = is_some s.encrypted_identities

  unfoldable pub is_locked : KeyStore Ciphertext Identity → Bool
  unfolding is_empty
  is_locked s = is_empty s.identities

  unfoldable pub unlocked_until : KeyStore Ciphertext Identity → Option ℕ
  unfolding deadline_of
  unlocked_until s = deadline_of s.relock_task s.asleep

  -- The part of `unlock` under the mutex of the relock task: from `take` to the new task.
  unfoldable pub install :
      (relock_at timeout : ℕ)
      → List Identity
      → KeyStore Ciphertext Identity
      → KeyStore Ciphertext Identity
  unfolding stop_task
  install relock_at timeout decrypted s = record s {
    identities = decrypted;
    relock_task = some (relock_at, s.next_task);
    asleep =
        (record { task = s.next_task; wakes_at = s.now + timeout })
        ∷ stop_task s.relock_task s.asleep;
    next_task = suc s.next_task;
  }

  unfoldable pub lock : KeyStore Ciphertext Identity → KeyStore Ciphertext Identity
  unfolding stop_task uses_encrypted_identities
  lock s =
      if uses_encrypted_identities s
      then record s {
        identities = [];
        relock_task = none;
        asleep = stop_task s.relock_task s.asleep;
      }
      else s

  -- A relock task that wakes up: it clears the cache and ends.
  unfoldable pub fire : ℕ → KeyStore Ciphertext Identity → KeyStore Ciphertext Identity
  fire task s = record s { identities = []; asleep = end_task task s.asleep }

-- The decryption of the identity file with a passphrase, and the reading of the identities in it.
pub record Age (Ciphertext File Identity : Type 0) : Type 0 where
  pub decrypt : Ciphertext → String → Option File
  pub into_identities : File → Option (List Identity)

module _ {Ciphertext File Identity : Type 0} (age : Age Ciphertext File Identity)
    (last_time : ℕ) where
  -- `decrypt_identity_file` with callbacks that answer the passphrase; `none` is an error, or a
  -- keystore that is not encrypted, which `unlock` does not tell apart.
  unfoldable pub decrypt_identity_file : Option Ciphertext → String → Option File
  decrypt_identity_file none passphrase = none
  decrypt_identity_file (some data') passphrase = age.decrypt data' passphrase

  unfoldable pub identities_of : Option File → Option (List Identity)
  identities_of none = none
  identities_of (some file) = age.into_identities file

  unfoldable pub install_decrypted :
      (relock_at timeout : ℕ)
      → Option (List Identity)
      → KeyStore Ciphertext Identity
      → KeyStore Ciphertext Identity × Result (Unit {0}) KeystoreError
  unfolding install
  install_decrypted relock_at timeout none s = (s, err incorrect_passphrase)
  install_decrypted relock_at timeout (some decrypted) s =
      (install relock_at timeout decrypted s, ok tt)

  -- `unlock`, called at the time `called`; `last_time` is the last that a `SystemTime` represents.
  unfoldable pub unlock :
      (called : ℕ)
      → (passphrase : String) → (timeout : ℕ) → KeyStore Ciphertext Identity
      → KeyStore Ciphertext Identity × Result (Unit {0}) KeystoreError
  unfolding install_decrypted
  unlock called passphrase timeout s =
      let relock_at = called + timeout in
      if ltb last_time relock_at
      then (s, err timeout_too_large)
      else install_decrypted relock_at timeout
          (identities_of (decrypt_identity_file s.encrypted_identities passphrase)) s

  unfoldable pub keep_identities :
      Option (List Identity)
      → KeyStore Ciphertext Identity
      → KeyStore Ciphertext Identity × Result (Unit {0}) TerminalError
  keep_identities none s = (s, err identities_failed)
  keep_identities (some ids) s = (record s { identities = ids }, ok tt)

  unfoldable pub keep_file :
      Option File
      → KeyStore Ciphertext Identity
      → KeyStore Ciphertext Identity × Result (Unit {0}) TerminalError
  unfolding keep_identities
  keep_file none s = (s, err decryption_failed)
  keep_file (some file) s = keep_identities (age.into_identities file) s

  -- `decrypt_identity_file` with the callbacks of the terminal, and what becomes of its answer.
  unfoldable pub decrypt_on_terminal :
      Option Ciphertext
      → (typed : Option String) → KeyStore Ciphertext Identity
      → KeyStore Ciphertext Identity × Result (Unit {0}) TerminalError
  unfolding keep_file
  decrypt_on_terminal none typed s = (s, ok tt)
  decrypt_on_terminal (some data') none s = (s, err decryption_failed)
  decrypt_on_terminal (some data') (some passphrase) s = keep_file (age.decrypt data' passphrase) s

  -- `unlock_on_terminal`, with the passphrase that is typed at the prompt, if any. It starts no relock
  -- task, and leaves one that sleeps alone.
  unfoldable pub unlock_on_terminal :
      (typed : Option String)
      → KeyStore Ciphertext Identity
      → KeyStore Ciphertext Identity × Result (Unit {0}) TerminalError
  unfolding decrypt_on_terminal
  unlock_on_terminal typed s = decrypt_on_terminal s.encrypted_identities typed s

  -- One critical section of the keystore, and the passing of time. `unlock` computes its deadline
  -- before it waits for the mutex, so the call may be earlier than the step.
  pub data Step : KeyStore Ciphertext Identity → KeyStore Ciphertext Identity → Type 0 where
    ticks :
        (s : KeyStore Ciphertext Identity) (now : ℕ) → s.now ≤ now → Step s (record s { now = now })
    unlocks :
        (s : KeyStore Ciphertext Identity) (called : ℕ) (passphrase : String) (timeout : ℕ)
        → called ≤ s.now
        → Step s (unlock called passphrase timeout s).0
    locks : (s : KeyStore Ciphertext Identity) → Step s (lock s)
    unlocks_on_terminal :
        (s : KeyStore Ciphertext Identity) (typed : Option String)
        → Step s (unlock_on_terminal typed s).0
    fires :
        (s : KeyStore Ciphertext Identity) (t : Sleeper)
        → Memᴰ t s.asleep
        → t.wakes_at ≤ s.now
        → Step s (fire t.task s)

module _ {Ciphertext Identity : Type 0} where
  -- `ensure_wallet_is_unlocked` of json_rpc/utils.rs.
  unfoldable pub ensure_wallet_is_unlocked :
      KeyStore Ciphertext Identity → Result (Unit {0}) ErrorObject
  ensure_wallet_is_unlocked s =
      if is_locked s
      then err (
          with_message wallet_unlock_needed
            "Error: Please enter the wallet passphrase with walletpassphrase first.")
      else ok tt

  -- `walletlock`.
  unfoldable pub wallet_lock :
      KeyStore Ciphertext Identity → KeyStore Ciphertext Identity × Result (Unit {0}) ErrorObject
  wallet_lock s = if uses_encrypted_identities s then (lock s, ok tt) else (
    s,
    err (
        with_message wallet_wrong_enc_state
          "Error: running with an unencrypted wallet, but walletlock was called."),
  )

-- The answer of `walletpassphrase` to a failed unlock; `shown` is the text of an error.
unfoldable pub unlock_error : (shown : KeystoreError → String) → KeystoreError → ErrorObject
unlock_error shown incorrect_passphrase =
    with_message wallet_passphrase_incorrect "Error: The wallet passphrase entered was incorrect."
unlock_error shown timeout_too_large =
    with_message invalid_parameter "Error: timeout is too large; please choose a smaller value."
unlock_error shown missing_recipients =
    with_message wallet_wrong_enc_state
      "Error: running with an unencrypted wallet, but walletpassphrase was called."
unlock_error shown e = with_message wallet_error (String.◌++◌ "Error: " (shown e))

module _ {Ciphertext File Identity : Type 0} (age : Age Ciphertext File Identity) (last_time : ℕ)
    (shown : KeystoreError → String) where
  -- `walletpassphrase`.
  unfoldable pub wallet_passphrase :
      (called : ℕ)
      → (passphrase : String) → (timeout : ℕ) → KeyStore Ciphertext Identity
      → KeyStore Ciphertext Identity × Result (Unit {0}) ErrorObject
  wallet_passphrase called passphrase timeout s =
      let (s', r) = unlock age last_time called passphrase timeout s in
      if uses_encrypted_identities s then (s', map_err (unlock_error shown) r) else (
        s,
        err (
            with_message wallet_wrong_enc_state
              "Error: running with an unencrypted wallet, but walletpassphrase was called."),
      )
