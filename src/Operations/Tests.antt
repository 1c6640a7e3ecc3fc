-- ===== src/Operations/Tests.antt =====
-- Runs of the operation queue, and the theorems at those inputs.
use mathlib.Core.List.{Memᴰ}
use wallet.Prelude.{
  ℕ, ◌+◌, ◌-◌, ◌≤◌, ◌≡◌, refl, ◌↔◌, true, none, some, not, ◌&&◌, List, [], ◌∷◌, ◌++◌, map, keep,
  length, ok, err, arith,
}
use wallet.Operations.State.{
  executing, success, parse, AsyncOperation, new_data, start, finish, to_status,
}
use wallet.Operations.State.Life.{Life, created, started, ended}
use wallet.Operations.Queue.{
  full_error, op_finished, finished_ids, insert, check_capacity, collect_finished,
  list_operation_ids, result,
}
use wallet.Operations.Queue.Room.{
  unfinished_count, insert_err_iff, EvictsOldest, insert-EvictsOldest, check_capacity-insert,
}
use wallet.Operations.Queue.Collect.{collect_finished_lem}
use wallet.Operations.Queue.Sub.{Keeps}
use wallet.Operations.Queue.System.{
  System, Step, Reach, begin, next, snapshots_finished, inserts, starts, IsValid,
}
use wallet.Operations.Queue.System.Safety.{Reach-IsValid, Reach-Keeps}

abbrev fresh : ℕ → AsyncOperation ℕ
fresh id = record { operation_id = id; context = none; creation_time = 5; shared = new_data }

abbrev ended_ok : ℕ → AsyncOperation ℕ
ended_ok id = record {
  operation_id = id;
  context = none;
  creation_time = 5;
  shared = record {
    state = success;
    start_time = some 6;
    end_time = some 9;
    result = some (ok 42);
  };
}

abbrev mixed : List (AsyncOperation ℕ)
mixed = fresh 1 ∷ ended_ok 2 ∷ ended_ok 3 ∷ []

-- A full queue of three gives up its oldest finished operation.
insert_evicts :
    insert 3 (finished_ids mixed) (fresh 4) mixed ≡ ok (fresh 1 ∷ ended_ok 3 ∷ fresh 4 ∷ [])
unfolding insert finished_ids new_data
insert_evicts = refl

full_refuses : insert 1 [] (fresh 4) (fresh 1 ∷ []) ≡ err full_error
unfolding insert
full_refuses = refl

collect_one : (result 0 mixed (3 ∷ [])).1 ≡ fresh 1 ∷ ended_ok 2 ∷ []
unfolding result new_data
collect_one = refl

list_succeeded : list_operation_ids mixed (some "success") ≡ 2 ∷ 3 ∷ []
unfolding list_operation_ids parse new_data
list_succeeded = refl

insert_err_iff_example :
    (insert 1 [] (fresh 4) (fresh 1 ∷ []) ≡ err full_error)
    ↔ (1 ≤ unfinished_count [] (fresh 1 ∷ []))
insert_err_iff_example = insert_err_iff 1 [] (fresh 4) (fresh 1 ∷ [])

insert-EvictsOldest_example :
    let ops' = fresh 1 ∷ ended_ok 3 ∷ fresh 4 ∷ [] in
    (rest : List (AsyncOperation ℕ)) × (ops' ≡ rest ++ fresh 4 ∷ [])
    × (length ops' ≤ 3)
    × EvictsOldest (finished_ids mixed) (length mixed + 1 - 3) mixed rest
insert-EvictsOldest_example =
    insert-EvictsOldest 3 (finished_ids mixed) (fresh 4) mixed (fresh 1 ∷ ended_ok 3 ∷ fresh 4 ∷ [])
      insert_evicts

check_capacity-insert_example :
    (check_capacity 3 mixed ≡ err full_error)
    ↔ (insert 3 (finished_ids mixed) (fresh 4) mixed ≡ err full_error)
check_capacity-insert_example = check_capacity-insert 3 (fresh 4) mixed (omega arith)

collect_finished_lem_example : collect_finished 0 (λ _. true) mixed ≡ (
  map (to_status 0) (keep (λ op. true && op_finished op) mixed),
  keep (λ op. not (true && op_finished op)) mixed,
)
collect_finished_lem_example = collect_finished_lem 0 (λ _. true) mixed (refl, (refl, (refl, tt)))

abbrev finished_op : AsyncOperation ℕ
finished_op = record {
  operation_id = 7;
  context = none;
  creation_time = 5;
  shared =
      finish 9 (ok 42)
        (record { state = executing; start_time = some 6; end_time = none; result = none });
}

Life-of_success : Life finished_op.shared
unfolding start new_data
Life-of_success = ended 9 (ok 42) (started 6 created refl refl) refl

abbrev empty_queue : System ℕ
empty_queue = record { ops = []; snapshots = [] }

abbrev with_snapshot : System ℕ
with_snapshot = record { ops = []; snapshots = [] ∷ [] }

abbrev one_queued : System ℕ
one_queued = record { ops = fresh 1 ∷ []; snapshots = [] ∷ [] }

Reach-snapshot : Reach 2 with_snapshot
unfolding finished_ids
Reach-snapshot = next begin (snapshots_finished empty_queue)

Reach-one : Reach 2 one_queued
unfolding insert
Reach-one = next Reach-snapshot (
    inserts with_snapshot [] (fresh 1) (fresh 1 ∷ []) (Memᴰ.head refl) (refl, (refl, tt)) refl refl)

Reach-IsValid_example : IsValid 2 one_queued
Reach-IsValid_example = Reach-IsValid 2 Reach-one

abbrev running : AsyncOperation ℕ
running = record {
  operation_id = 1;
  context = none;
  creation_time = 5;
  shared = record { state = executing; start_time = some 6; end_time = none; result = none };
}

one_starts : Step 2 one_queued (record { ops = running ∷ []; snapshots = [] ∷ [] })
unfolding start new_data
one_starts = starts one_queued [] [] (fresh 1) 6 running.shared refl refl refl

Reach-Keeps_example : Keeps (running ∷ []) (fresh 1 ∷ [])
Reach-Keeps_example = Reach-Keeps 2 Reach-one one_starts
