-- ===== src/Sync/Steady/Monad.antt =====
-- The state of the steady-state task, and its actions: what a call has written stays written when it
-- fails or panics.
use wallet.Prelude.{ℕ, Bool, true, false, ◌≡◌, refl, Result, ok, err}
use wallet.Sync.Ledger.{ChainBlock, SyncError, Run, returns, panics, out_of_fuel}
use wallet.Sync.Status.{SyncSignals}

-- The database, the chain pointer, the boundary that the tasks share, the signals, and whether the
-- task that waits for tip changes has been notified.
pub record Steady (Db : Type 0) : Type 0 where
  pub db_data : Db
  pub prev_tip : ChainBlock
  pub lower_boundary : ℕ
  pub status : SyncSignals
  pub tip_signalled : Bool

abbrev pub Action : (Db DbError A : Type 0) → Type 0
Action Db DbError A = Steady Db → Steady Db × Run A (SyncError DbError)

abbrev pub bind_run :
    {Db DbError A B : Type 0}
    → Steady Db
    → Run A (SyncError DbError)
    → (A → Action Db DbError B)
    → Steady Db × Run B (SyncError DbError)
bind_run s (returns (ok a)) f = f a s
bind_run s (returns (err e)) f = (s, returns (err e))
bind_run s panics f = (s, panics)
bind_run s out_of_fuel f = (s, out_of_fuel)

infixl 5 ◌>>=◌ ◌>>◌
abbrev pub ◌>>=◌ :
    {Db DbError A B : Type 0}
    → Action Db DbError A
    → (A → Action Db DbError B)
    → Action Db DbError B
◌>>=◌ m f s = bind_run (m s).0 (m s).1 f

abbrev pub ◌>>◌ :
    {Db DbError B : Type 0}
    → Action Db DbError (Unit {0})
    → Action Db DbError B
    → Action Db DbError B
m >> k = m >>= λ _. k

-- `map_err(g)`.
abbrev pub lift_result :
    {DbError A E : Type 0} → (E → SyncError DbError) → Result A E → Run A (SyncError DbError)
lift_result g (ok a) = returns (ok a)
lift_result g (err e) = returns (err (g e))

module _ {Db DbError : Type 0} where
  abbrev pub pure : {A : Type 0} → A → Action Db DbError A
  pure a s = (s, returns (ok a))

  abbrev pub raise : {A : Type 0} → SyncError DbError → Action Db DbError A
  raise e s = (s, returns (err e))

  -- `assert!`.
  abbrev pub assert : Bool → Action Db DbError (Unit {0})
  assert true s = (s, returns (ok tt))
  assert false s = (s, panics)

  abbrev pub gets : {A : Type 0} → (Steady Db → A) → Action Db DbError A
  gets f s = (s, returns (ok (f s)))

  abbrev pub modify : (Steady Db → Steady Db) → Action Db DbError (Unit {0})
  modify f s = (f s, returns (ok tt))

  -- `map_err(g)?`.
  abbrev pub lift : {A E : Type 0} → (E → SyncError DbError) → Result A E → Action Db DbError A
  lift g r s = (s, lift_result g r)

  -- A call on the database.
  abbrev pub on_db :
      {A E : Type 0} → (E → SyncError DbError) → (Db → Db × Result A E) → Action Db DbError A
  on_db g call s = (record s { db_data = (call s.db_data).0 }, lift_result g (call s.db_data).1)

-- What a run ensures: `Q` of its value and the state where it returns one, `R` of the state where it
-- fails or panics.
abbrev pub Ends :
    {Db DbError A : Type 0}
    → (A → Steady Db → Type 0)
    → (Steady Db → Type 0)
    → Steady Db
    → Run A (SyncError DbError)
    → Type 0
Ends Q R s (returns (ok a)) = Q a s
Ends Q R s (returns (err e)) = R s
Ends Q R s panics = R s
Ends Q R s out_of_fuel = R s

abbrev pub Ensures :
    {Db DbError A : Type 0}
    → (A → Steady Db → Type 0)
    → (Steady Db → Type 0)
    → Steady Db × Run A (SyncError DbError)
    → Type 0
Ensures Q R run = Ends Q R run.0 run.1

module _ {Db DbError : Type 0} (R : Steady Db → Type 0) where
  pub bind-Ensures :
      {A B : Type 0} (P : A → Steady Db → Type 0) (Q : B → Steady Db → Type 0)
      (m : Action Db DbError A) (f : A → Action Db DbError B) (s : Steady Db)
      → Ensures P R (m s)
      → ((a : A) (t : Steady Db) → P a t → Ensures Q R (f a t))
      → Ensures Q R ((m >>= f) s)
  bind-Ensures {A} P Q m f s h k = go (m s).0 (m s).1 h
    where
      go :
          (t : Steady Db) (r : Run A (SyncError DbError))
          → Ends P R t r
          → Ensures Q R (bind_run t r f)
      go t (returns (ok a)) h = k a t h
      go t (returns (err e)) h = h
      go t panics h = h
      go t out_of_fuel h = h

  -- A call on the database: the rest of the state stays.
  pub on_db-Ensures :
      {A E : Type 0} (Q : A → Steady Db → Type 0) (g : E → SyncError DbError)
      (call : Db → Db × Result A E) (s : Steady Db)
      → ((a : A) → (call s.db_data).1 ≡ ok a → Q a (record s { db_data = (call s.db_data).0 }))
      → R (record s { db_data = (call s.db_data).0 })
      → Ensures Q R (on_db g call s)
  on_db-Ensures {A} {E} Q g call s h r = go (call s.db_data).1 refl
    where
      go :
          (x : Result A E)
          → (call s.db_data).1 ≡ x
          → Ends Q R (record s { db_data = (call s.db_data).0 }) (lift_result g x)
      go (ok a) e = h a e
      go (err a) e = r

  pub lift-Ensures :
      {A E : Type 0} (Q : A → Steady Db → Type 0) (g : E → SyncError DbError) (x : Result A E)
      (s : Steady Db)
      → ((a : A) → x ≡ ok a → Q a s)
      → R s
      → Ensures Q R (lift g x s)
  lift-Ensures Q g (ok a) s h r = h a refl
  lift-Ensures Q g (err e) s h r = r

  -- What follows a result that leaves the state alone.
  pub lift-bind-Ensures :
      {A B E : Type 0} (Q : B → Steady Db → Type 0) (g : E → SyncError DbError) (x : Result A E)
      (f : A → Action Db DbError B) (s : Steady Db)
      → ((a : A) → x ≡ ok a → Ensures Q R (f a s))
      → R s
      → Ensures Q R ((lift g x >>= f) s)
  lift-bind-Ensures Q g (ok a) f s h r = h a refl
  lift-bind-Ensures Q g (err e) f s h r = r

  -- What follows a call on the database, and what follows a run of a pure call.
  pub on_db-bind-Ensures :
      {A B E : Type 0} (Q : B → Steady Db → Type 0) (g : E → SyncError DbError)
      (call : Db → Db × Result A E) (f : A → Action Db DbError B) (s : Steady Db)
      → ((a : A)
          → (call s.db_data).1 ≡ ok a
          → Ensures Q R (f a (record s { db_data = (call s.db_data).0 })))
      → R (record s { db_data = (call s.db_data).0 })
      → Ensures Q R ((on_db g call >>= f) s)
  on_db-bind-Ensures {A} {B} {E} Q g call f s h r = go (call s.db_data).1 refl
    where
      go :
          (x : Result A E)
          → (call s.db_data).1 ≡ x
          → Ensures Q R (bind_run (record s { db_data = (call s.db_data).0 }) (lift_result g x) f)
      go (ok a) e = h a e
      go (err a) e = r

  pub run-bind-Ensures :
      {A B : Type 0} (Q : B → Steady Db → Type 0) (x : Run A (SyncError DbError))
      (f : A → Action Db DbError B) (s : Steady Db)
      → ((a : A) → x ≡ returns (ok a) → Ensures Q R (f a s))
      → R s
      → Ensures Q R (bind_run s x f)
  run-bind-Ensures Q (returns (ok a)) f s h r = h a refl
  run-bind-Ensures Q (returns (err e)) f s h r = r
  run-bind-Ensures Q panics f s h r = r
  run-bind-Ensures Q out_of_fuel f s h r = r

  -- An action whose outcome is a run of a pure call.
  pub run-Ensures :
      {A : Type 0} (Q : A → Steady Db → Type 0) (x : Run A (SyncError DbError)) (s : Steady Db)
      → ((a : A) → x ≡ returns (ok a) → Q a s)
      → R s
      → Ensures Q R (s, x)
  run-Ensures Q (returns (ok a)) s h r = h a refl
  run-Ensures Q (returns (err e)) s h r = r
  run-Ensures Q panics s h r = r
  run-Ensures Q out_of_fuel s h r = r

pub assert-Ensures :
    {Db : Type 0} (DbError : Type 0) (R : Steady Db → Type 0) (Q : Unit {0} → Steady Db → Type 0)
    (b : Bool) (s : Steady Db)
    → (b ≡ true → Q tt s)
    → R s
    → Ensures {DbError = DbError} Q R (assert b s)
assert-Ensures DbError R Q true s h r = h refl
assert-Ensures DbError R Q false s h r = r

-- A run that ensures more.
pub imp-Ensures :
    {Db DbError A : Type 0} (R R' : Steady Db → Type 0) (Q Q' : A → Steady Db → Type 0)
    (run : Steady Db × Run A (SyncError DbError))
    → ((a : A) (t : Steady Db) → Q a t → Q' a t)
    → ((t : Steady Db) → R t → R' t)
    → Ensures Q R run
    → Ensures Q' R' run
imp-Ensures R R' Q Q' (s, returns (ok a)) f g h = f a s h
imp-Ensures R R' Q Q' (s, returns (err e)) f g h = g s h
imp-Ensures R R' Q Q' (s, panics) f g h = g s h
imp-Ensures R R' Q Q' (s, out_of_fuel) f g h = g s h
