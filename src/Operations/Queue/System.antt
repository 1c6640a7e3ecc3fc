-- ===== src/Operations/Queue/System.antt =====
-- The queue under concurrent requests: every order in which requests take the queue's lock and the
-- tasks of the operations take the locks of their data.
mod Middle
pub mod Safety
use mathlib.Core.List.{Memᴰ}
use wallet.Prelude.{
  ℕ, ◌≤◌, ◌≡◌, refl, sym, subst, ap, Bool, true, false, Option, some, List, [], ◌∷◌, ◌++◌, contains,
  length, length-append, All, Result, ok, arith, >>=-eq-ok, ok_injective,
}
use wallet.Rpc.{ErrorObject}
use wallet.Operations.State.{
  OperationState, ready, executing, OperationData, AsyncOperation, SystemTime, new_data, start,
  finish, is_finished,
}
use wallet.Operations.Queue.{op_finished, finished_ids, evict, make_room, insert, collect_finished}
use wallet.Operations.Queue.Room.{make_room_ok, insert-EvictsOldest}
use wallet.Operations.Queue.Collect.{ids, IsDistinct, collect_finished_lem}
use wallet.Operations.Queue.Sub.{
  IsSub, IsSub-All, IsSub-IsDistinct, IsSub-length, IsSub-absent, keep-IsSub, evict-IsSub, IsSound,
  Keeps, Keeps-self, keep-Keeps, evict-Keeps, finished_ids-IsSound,
}

-- The queue, and the snapshots of finished operations that insertions have taken.
pub record System (Value : Type 0) : Type 0 where
  pub ops : List (AsyncOperation Value)
  pub snapshots : List (List ℕ)

module _ {Value : Type 0} where
  -- `Uuid::new_v4` draws an ID that no operation has had.
  abbrev pub IsFresh : ℕ → System Value → Type 0
  IsFresh id s =
      (contains (ids s.ops) id ≡ false) × All (λ snapshot. contains snapshot id ≡ false) s.snapshots

-- One critical section: an insertion's snapshot, its second half with any snapshot taken before, the
-- two writes of an operation's task, and a collection. `finished_ids` reads the states one by one: a
-- snapshot may be empty when the queue is read, and then grow by the ID of an operation that has
-- finished by now, or has left the queue. It may also be read at once.
pub data Step {Value : Type 0} (limit : ℕ) : System Value → System Value → Type 0 where
  snapshots_finished :
      (s : System Value) → Step limit s (record s { snapshots = finished_ids s.ops ∷ s.snapshots })
  opens_snapshot : (s : System Value) → Step limit s (record s { snapshots = [] ∷ s.snapshots })
  reads_finished :
      (s : System Value) (snapshot : List ℕ) (id : ℕ)
      → Memᴰ snapshot s.snapshots
      → All (λ op. op.operation_id ≡ id → op_finished op ≡ true) s.ops
      → Step limit s (record s { snapshots = (id ∷ snapshot) ∷ s.snapshots })
  inserts :
      (s : System Value) (snapshot : List ℕ) (op : AsyncOperation Value)
      (ops' : List (AsyncOperation Value))
      → Memᴰ snapshot s.snapshots
      → IsFresh op.operation_id s
      → op.shared ≡ new_data
      → insert limit snapshot op s.ops ≡ ok ops'
      → Step limit s (record s { ops = ops' })
  starts :
      (s : System Value) (before after : List (AsyncOperation Value)) (op : AsyncOperation Value)
      (now : SystemTime) (d : OperationData Value)
      → s.ops ≡ before ++ op ∷ after
      → op.shared.state ≡ ready
      → start now op.shared ≡ some d
      → Step limit s (record s { ops = before ++ (record op { shared = d }) ∷ after })
  finishes :
      (s : System Value) (before after : List (AsyncOperation Value)) (op : AsyncOperation Value)
      (now : SystemTime) (res : Result Value ErrorObject)
      → s.ops ≡ before ++ op ∷ after
      → op.shared.state ≡ executing
      → Step limit s
          (record s { ops = before ++ (record op { shared = finish now res op.shared }) ∷ after })
  collects :
      (s : System Value) (epoch : SystemTime) (filter : AsyncOperation Value → Bool)
      → Step limit s (record s { ops = (collect_finished epoch filter s.ops).1 })

-- The states that a queue made by `OperationQueue::new` reaches.
pub data Reach {Value : Type 0} (limit : ℕ) : System Value → Type 0 where
  begin : Reach limit (record { ops = []; snapshots = [] })
  next : {s t : System Value} → Reach limit s → Step limit s t → Reach limit t

pub record IsValid {Value : Type 0} (limit : ℕ) (s : System Value) : Type 0 where
  pub distinct : IsDistinct s.ops
  pub bounded : length s.ops ≤ limit
  pub sound : All (λ snapshot. IsSound snapshot s.ops) s.snapshots
