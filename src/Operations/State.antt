-- ===== src/Operations/State.antt =====
-- asyncop.rs: the states of an asynchronous operation, its task and its status.
pub mod Life
use Prim.Native.String
use Prim.Native.String.{String}
use text.Mathlib.Text.{◌==◌ as str_eq}
use mathlib.Core.Option
use wallet.Prelude.{
  ℕ, ◌-◌, ◌/◌, ◌^◌, leb, Bool, true, false, Option, none, some, if◌then◌else◌, Result, ok, err,
  ◌>>=◌,
}
use wallet.Rpc.{ErrorObject, misc, with_message}

pub data OperationState : Type 0 where
  ready executing cancelled failed success : OperationState

unfoldable pub parse : String → Option OperationState
parse s =
    if str_eq s "queued"
    then some ready
    else if str_eq s "executing"
    then some executing
    else if str_eq s "cancelled"
    then some cancelled
    else if str_eq s "failed"
    then some failed
    else if str_eq s "success"
    then some success
    else none

unfoldable pub to_str : OperationState → String
to_str ready = "queued"
to_str executing = "executing"
to_str cancelled = "cancelled"
to_str failed = "failed"
to_str success = "success"

unfoldable pub is_finished : OperationState → Bool
is_finished cancelled = true
is_finished failed = true
is_finished success = true
is_finished _ = false

-- A `SystemTime` is a number of nanoseconds from a fixed origin before every time that occurs.
abbrev pub SystemTime : Type 0
SystemTime = ℕ

pub record OperationData (Value : Type 0) : Type 0 where
  pub state : OperationState
  pub start_time : Option SystemTime
  pub end_time : Option SystemTime
  pub result : Option (Result Value ErrorObject)

pub record ContextInfo (Value : Type 0) : Type 0 where
  pub method : String
  pub params : Value

-- An operation ID stands as the number of its UUID. The data that an operation shares with its task
-- is a field: the queue's readers and the task lock it, and each reads or writes it whole.
pub record AsyncOperation (Value : Type 0) : Type 0 where
  pub operation_id : ℕ
  pub context : Option (ContextInfo Value)
  pub creation_time : SystemTime
  pub shared : OperationData Value

-- How the future of an operation ends: it returns, or it panics with a text or with another value.
pub data Outcome (T : Type 0) : Type 0 where
  returned : Result T ErrorObject → Outcome T
  panicked : Option String → Outcome T

unfoldable pub new_data : {Value : Type 0} → OperationData Value
new_data = record { state = ready; start_time = none; end_time = none; result = none }

module _ {Value T : Type 0} (to_value : T → Result Value String) where
  unfoldable pub serialized : T → Result Value ErrorObject
  serialized ret = elim (to_value ret) [
    | ok v ↦ ok v
    | err e ↦ err (with_message misc (String.◌++◌ "Failed to serialize operation result: " e))
  ]

  -- The result that the task records, panics included.
  unfoldable pub task_result : Outcome T → Result Value ErrorObject
  unfolding serialized
  task_result (returned res) = res >>= serialized
  task_result (panicked none) = err (with_message misc "Async operation panicked: unknown panic")
  task_result (panicked (some msg)) =
      err (with_message misc (String.◌++◌ "Async operation panicked: " msg))

module _ {Value : Type 0} where
  -- The first lock of the task; `none` is its early return.
  start_from : OperationState → SystemTime → OperationData Value → Option (OperationData Value)
  start_from cancelled now shared = none
  start_from _ now shared = some (record shared { state = executing; start_time = some now })

  unfoldable pub start : SystemTime → OperationData Value → Option (OperationData Value)
  unfolding start_from
  start now shared = start_from shared.state now shared

  final_state : Result Value ErrorObject → OperationState
  final_state (ok _) = success
  final_state (err _) = failed

  -- The second lock of the task.
  unfoldable pub finish :
      SystemTime → Result Value ErrorObject → OperationData Value → OperationData Value
  unfolding final_state
  finish end_time res shared = record shared {
    state = final_state res;
    end_time = some end_time;
    result = some res;
  }

-- `end.duration_since(start)` in seconds, 0 where the clock went back.
unfoldable pub secs_since : SystemTime → SystemTime → ℕ
secs_since later earlier = if leb earlier later then (later - earlier) / 10 ^ 9 else 0

pub record OperationStatus (Value : Type 0) : Type 0 where
  pub id : ℕ
  pub method : Option String
  pub params : Option Value
  pub status : OperationState
  pub creation_time : ℕ
  pub error : Option ErrorObject
  pub result : Option Value
  pub execution_secs : Option ℕ

-- `data.end_time.zip(data.start_time).map(…)`.
unfoldable pub execution_secs_of : Option SystemTime → Option SystemTime → Option ℕ
unfolding secs_since
execution_secs_of (some end_time) (some start_time) = some (secs_since end_time start_time)
execution_secs_of _ _ = none

module _ {Value : Type 0} where
  unfoldable pub error_of : Option (Result Value ErrorObject) → Option ErrorObject
  error_of (some (err e)) = some e
  error_of _ = none

  unfoldable pub value_of : Option (Result Value ErrorObject) → Option Value
  value_of (some (ok v)) = some v
  value_of _ = none

  unfoldable pub secs_of :
      Option (Result Value ErrorObject) → Option SystemTime → Option SystemTime → Option ℕ
  unfolding execution_secs_of
  secs_of (some (ok _)) end_time start_time = execution_secs_of end_time start_time
  secs_of _ end_time start_time = none

  -- `epoch` is the UNIX epoch on the clock of the model.
  unfoldable pub to_status : SystemTime → AsyncOperation Value → OperationStatus Value
  unfolding error_of value_of secs_of secs_since
  to_status epoch op = record {
    id = op.operation_id;
    method = Option.map (λ (c : ContextInfo Value). c.method) op.context;
    params = Option.map (λ (c : ContextInfo Value). c.params) op.context;
    status = op.shared.state;
    creation_time = secs_since op.creation_time epoch;
    error = error_of op.shared.result;
    result = value_of op.shared.result;
    execution_secs = secs_of op.shared.result op.shared.end_time op.shared.start_time;
  }
