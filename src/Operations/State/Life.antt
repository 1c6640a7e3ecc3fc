-- ===== src/Operations/State/Life.antt =====
-- The life of an operation's data, and what its status shows.
use Prim.Native.String.{String}
use text.Mathlib.TextEquality.{eq_iff}
use wallet.Prelude.{
  ◌≡◌, ◌≢◌, refl, ◌↔◌, ◌⊎◌, Bool, true, false, Option, none, some, is_some, Result, ok, err, arith,
}
use wallet.Rpc.{ErrorObject}
use wallet.Operations.State.{
  OperationState, ready, executing, cancelled, failed, success, parse, to_str, SystemTime,
  OperationData, AsyncOperation, new_data, start, finish, to_status,
}

-- The data that an operation has between two writes: new, then started, then finished, once each.
pub data Life {Value : Type 0} : OperationData Value → Type 0 where
  created : Life new_data
  started :
      {d d' : OperationData Value} (now : SystemTime)
      → Life d
      → d.state ≡ ready
      → start now d ≡ some d'
      → Life d'
  ended :
      {d : OperationData Value} (now : SystemTime) (res : Result Value ErrorObject)
      → Life d
      → d.state ≡ executing
      → Life (finish now res d)

is_ok : {Value : Type 0} → Option (Result Value ErrorObject) → Bool
is_ok (some (ok _)) = true
is_ok _ = false

is_err : {Value : Type 0} → Option (Result Value ErrorObject) → Bool
is_err (some (err _)) = true
is_err _ = false

record Facts {Value : Type 0} (d : OperationData Value) : Type 0 where
  not_cancelled : d.state ≢ cancelled
  no_result : (d.state ≡ ready) ⊎ (d.state ≡ executing) → d.result ≡ none
  has_start : d.state ≡ executing → is_some d.start_time ≡ true
  succeeded :
      d.state ≡ success
      → (is_ok d.result ≡ true) × (is_some d.start_time ≡ true) × (is_some d.end_time ≡ true)
  has_failed : d.state ≡ failed → is_err d.result ≡ true

module _ {Value : Type 0} where
  start-Facts :
      (now : SystemTime) (d d' : OperationData Value)
      → Facts d
      → d.state ≡ ready
      → start now d ≡ some d'
      → Facts d'
  unfolding start
  start-Facts now d d' f r h = ground arith

  finish-Facts :
      (now : SystemTime) (res : Result Value ErrorObject) (d : OperationData Value)
      → Facts d
      → d.state ≡ executing
      → Facts (finish now res d)
  unfolding finish is_ok is_err
  finish-Facts now (ok v) d f x = ground arith
  finish-Facts now (err e) d f x = ground arith

  Life-Facts : {d : OperationData Value} → Life d → Facts d
  unfolding new_data
  Life-Facts created = ground arith
  Life-Facts (started {d} {d'} now l r h) = start-Facts now d d' (Life-Facts l) r h
  Life-Facts (ended {d} now res l x) = finish-Facts now res d (Life-Facts l) x

  -- A status of an operation has an error exactly if the operation failed, and a result and an
  -- execution time exactly if it succeeded.
  pub to_status_lem :
      (epoch : SystemTime) (op : AsyncOperation Value)
      → Life op.shared
      → let s = to_status epoch op in
        ((is_some s.error ≡ true) ↔ (s.status ≡ failed))
        × ((is_some s.result ≡ true) ↔ (s.status ≡ success))
        × ((is_some s.execution_secs ≡ true) ↔ (s.status ≡ success))
  unfolding to_status is_ok is_err
  to_status_lem epoch op l =
      let f = Life-Facts l in
      (
        (λ h. ground arith, λ h. ground arith),
        (λ h. ground arith, λ h. ground arith),
        (λ h. ground arith, λ h. ground arith),
      )

parse-to_str : (s : OperationState) → parse (to_str s) ≡ some s
unfolding parse to_str
parse-to_str ready = refl
parse-to_str executing = refl
parse-to_str cancelled = refl
parse-to_str failed = refl
parse-to_str success = refl

to_str-parse : (text : String) (s : OperationState) → parse text ≡ some s → text ≡ to_str s
unfolding parse to_str
to_str-parse text s h = ground (
  arith,
  eq_iff text "queued",
  eq_iff text "executing",
  eq_iff text "cancelled",
  eq_iff text "failed",
  eq_iff text "success",
)

-- A text is parsed as a state exactly when it is the text that the state is shown by.
pub parse_iff : (text : String) (s : OperationState) → (parse text ≡ some s) ↔ (text ≡ to_str s)
parse_iff text s = (to_str-parse text s, λ e. rw e (parse-to_str s))
