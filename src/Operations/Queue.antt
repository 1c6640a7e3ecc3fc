-- ===== src/Operations/Queue.antt =====
-- asyncop.rs: the bounded queue of operations, and the methods that list and collect them.
pub mod Room
pub mod System
pub mod Sub
pub mod Collect
use Prim.Native.String.{String}
use wallet.Prelude.{
  ℕ, suc, ◌+◌, ◌-◌, ltb, leb, ◌==◌, Bool, true, false, not, ◌||◌, ◌&&◌, Option, none, some, List,
  [], ◌∷◌, ◌++◌, map, keep, any, length, contains, if◌then◌else◌, Result, ok, err, ◌>>=◌,
}
use wallet.Rpc.{ErrorObject, out_of_memory, with_message}
use wallet.Operations.State.{
  OperationState, ready, executing, cancelled, failed, success, parse, is_finished, SystemTime,
  ContextInfo, AsyncOperation, OperationStatus, new_data, to_status,
}

unfoldable pub full_error : ErrorObject
unfolding with_message
full_error =
    with_message out_of_memory
      "Too many pending asynchronous operations; collect finished operations with z_getoperationresult"

module _ {Value : Type 0} where
  -- `op.state().await.is_finished()`.
  unfoldable pub op_finished : AsyncOperation Value → Bool
  unfolding is_finished
  op_finished op = is_finished op.shared.state

  unfoldable pub finished_ids : List (AsyncOperation Value) → List ℕ
  unfolding op_finished
  finished_ids [] = []
  finished_ids (op ∷ ops) =
      if op_finished op then op.operation_id ∷ finished_ids ops else finished_ids ops

  unfoldable pub any_finished : List (AsyncOperation Value) → Bool
  unfolding op_finished
  any_finished ops = any op_finished ops

  -- The `retain` of `insert`, from the excess that is left to evict.
  unfoldable pub evict : ℕ → List ℕ → List (AsyncOperation Value) → List (AsyncOperation Value)
  evict excess finished [] = []
  evict excess finished (op ∷ ops) =
      let gone = evict (excess - 1) finished ops in
      let kept = op ∷ evict excess finished ops in
      if ltb 0 excess && contains finished op.operation_id then gone else kept

  -- What stands in the queue when the new operation is pushed, or the refusal.
  unfoldable pub make_room :
      ℕ → List ℕ → List (AsyncOperation Value) → Result (List (AsyncOperation Value)) ErrorObject
  unfolding evict full_error
  make_room limit finished ops =
      let ops' = evict (length ops + 1 - limit) finished ops in
      if leb limit (length ops)
      then (if leb limit (length ops') then err full_error else ok ops')
      else ok ops

  -- `AsyncOperation::new`, with the ID that it draws and the time at which it is called.
  unfoldable pub new_operation : ℕ → Option (ContextInfo Value) → SystemTime → AsyncOperation Value
  unfolding new_data
  new_operation id context now = record {
    operation_id = id;
    context = context;
    creation_time = now;
    shared = new_data;
  }

  -- `insert` from its write lock on; `finished` is the snapshot that it took before.
  unfoldable pub insert :
      ℕ
      → List ℕ
      → AsyncOperation Value
      → List (AsyncOperation Value)
      → Result (List (AsyncOperation Value)) ErrorObject
  unfolding make_room
  insert limit finished op ops = make_room limit finished ops >>= λ ops'. ok (ops' ++ op ∷ [])

  unfoldable pub check_capacity : ℕ → List (AsyncOperation Value) → Result (Unit {0}) ErrorObject
  unfolding any_finished full_error
  check_capacity limit ops =
      if ltb (length ops) limit || any_finished ops then ok tt else err full_error

  -- The loop of `collect_finished`: the statuses, and the IDs to remove.
  unfoldable pub collect :
      SystemTime
      → (AsyncOperation Value → Bool)
      → List (AsyncOperation Value)
      → List (OperationStatus Value) × List ℕ
  unfolding op_finished to_status
  collect epoch filter [] = ([], [])
  collect epoch filter (op ∷ ops) =
      let (ret, remove) = collect epoch filter ops in
      if filter op && op_finished op
      then (to_status epoch op ∷ ret, op.operation_id ∷ remove)
      else (ret, remove)

  unfoldable pub collect_finished :
      SystemTime
      → (AsyncOperation Value → Bool)
      → List (AsyncOperation Value)
      → List (OperationStatus Value) × List (AsyncOperation Value)
  unfolding collect
  collect_finished epoch filter ops =
      let (ret, remove) = collect epoch filter ops in
      (ret, keep (λ op. not (contains remove op.operation_id)) ops)

  -- The filter of `z_getoperationstatus` and `z_getoperationresult`: no ID names every operation.
  unfoldable pub wanted : List ℕ → AsyncOperation Value → Bool
  wanted [] op = true
  wanted (id ∷ ids) op = contains (id ∷ ids) op.operation_id

  unfoldable pub status :
      SystemTime → List (AsyncOperation Value) → List ℕ → List (OperationStatus Value)
  unfolding wanted to_status
  status epoch ops ids = map (to_status epoch) (keep (wanted ids) ops)

  unfoldable pub result :
      SystemTime
      → List (AsyncOperation Value)
      → List ℕ
      → List (OperationStatus Value) × List (AsyncOperation Value)
  unfolding wanted collect_finished
  result epoch ops ids = collect_finished epoch (wanted ids) ops

-- The derived `PartialEq` of the states.
unfoldable pub same_state : OperationState → OperationState → Bool
same_state ready ready = true
same_state executing executing = true
same_state cancelled cancelled = true
same_state failed failed = true
same_state success success = true
same_state _ _ = false

-- `f == Some(op_state)`.
unfoldable pub is_state : Option OperationState → OperationState → Bool
unfolding same_state
is_state none s = false
is_state (some f) s = same_state f s

module _ {Value : Type 0} where
  -- `z_listoperationids`; a state that is not recognised matches no operation.
  unfoldable pub list_operation_ids : List (AsyncOperation Value) → Option String → List ℕ
  unfolding is_state
  list_operation_ids ops none = map (λ op. op.operation_id) ops
  list_operation_ids ops (some s) =
      map (λ op. op.operation_id) (keep (λ op. is_state (parse s) op.shared.state) ops)
