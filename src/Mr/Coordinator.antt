-- ===== src/Mr/Coordinator.antt =====
-- src/mr/coordinator.go. A method is taken as one step: its atomic accesses to State, the sync.Maps
-- and the channels are not interleaved with those of other calls. The RPC server is not modelled.
pub mod Phases
pub mod Late
use Prim.Native.String.{String}
use mit6_824_labs.Prelude.{
  ℕ, zero, suc, ◌+◌, List, [], ◌∷◌, ◌++◌, Option, none, some, Bool, true, false, length, get_elem?,
  ltb, ◌==◌, if◌then◌else◌,
}
use mit6_824_labs.Prelude.Int.{ℤ, pos, minus_one}
use mit6_824_labs.GoMap.{GoMap, nat_eq, lookup, insert}
use mit6_824_labs.Mr.Types.{Task, no_task, TaskState, Coordinator, TaskResponse, Run, ◌>>=◌}

-- const Timeout, in seconds
abbrev pub timeout : ℕ
timeout = 10

-- The Range over the map counts the entries that are finished.
unfoldable pub len_task_fin : GoMap ℕ TaskState → ℕ
len_task_fin [] = 0
len_task_fin ((id, st) ∷ m) = let rest = len_task_fin m in if st.fin then suc rest else rest

-- channel <- task, on a channel of some capacity
abbrev pub send : ℕ → List Task → Task → Run (List Task)
send capacity channel task =
    if ltb (length channel) capacity then Run.ok (channel ++ task ∷ []) else Run.blocks

-- A response without the fields that the phase sets.
abbrev pub respond : Coordinator → Task → ℤ → ℤ → TaskResponse
respond c task cur_map cur_reduce = record {
  x_task = task;
  num_map_tasks = c.num_map_tasks;
  num_reduce_tasks = c.num_reduce_tasks;
  cur_num_map_tasks = cur_map;
  cur_num_reduce_tasks = cur_reduce;
  state = c.state;
}

-- GetTask in the Map phase. The guard keeps the receive from blocking.
unfoldable pub get_map_task : Coordinator → ℕ → Coordinator × TaskResponse
get_map_task c now = elim c.map_task [
  | [] ↦ (c, respond c no_task minus_one (pos (length c.reduce_task)))
  | task ∷ rest ↦ (
    record c {
      map_task = rest;
      map_task_states = insert task.map_id (record { time = now; fin = false }) c.map_task_states;
    },
    respond c task (pos (length rest)) (pos (length c.reduce_task)),
  )
]

-- GetTask in the Reduce phase.
unfoldable pub get_reduce_task : Coordinator → ℕ → Coordinator × TaskResponse
get_reduce_task c now = elim c.reduce_task [
  | [] ↦ (c, respond c no_task minus_one minus_one)
  | task ∷ rest ↦ (
    record c {
      reduce_task = rest;
      reduce_task_states =
          insert task.reduce_id (record { time = now; fin = false }) c.reduce_task_states;
    },
    respond c task minus_one (pos (length rest)),
  )
]

-- `now` is time.Now().Unix().
unfoldable pub get_task : Coordinator → ℕ → Coordinator × TaskResponse
get_task c now =
    if c.state == 0
    then get_map_task c now
    else if c.state == 1
    then get_reduce_task c now
    else (c, respond c no_task (pos 0) (pos 0))

-- The loop that sends the reduce tasks from `i` on, with `n` rounds left.
unfoldable pub send_reduce_tasks : ℕ → ℕ → ℕ → List Task → Run (List Task)
send_reduce_tasks capacity i zero channel = Run.ok channel
send_reduce_tasks capacity i (suc n) channel = do
  channel' ← send capacity channel (record { map_id = 0; reduce_id = i; file_name = "" })
  send_reduce_tasks capacity (suc i) n channel'

-- TaskFin behind its mark on a map task.
unfoldable pub end_map : Coordinator → Run Coordinator
end_map c =
    if len_task_fin c.map_task_states == c.num_map_tasks
    then (do
      channel ← send_reduce_tasks c.num_reduce_tasks 0 c.num_reduce_tasks c.reduce_task
      Run.ok (record c { state = 1; reduce_task = channel }))
    else Run.ok c

-- TaskFin behind its mark on a reduce task.
unfoldable pub end_reduce : Coordinator → Coordinator
end_reduce c =
    if len_task_fin c.reduce_task_states == c.num_reduce_tasks then record c { state = 2 } else c

-- The type assertion panics on a task that has no entry.
unfoldable pub finish_map : Coordinator → ℕ → ℕ → Run Coordinator
finish_map c now id = elim (lookup id c.map_task_states) [
  | none ↦ Run.panics
  | some st ↦
      if ltb (st.time + timeout) now
      then Run.ok c
      else end_map (record c {
        map_task_states = insert id (record { time = now; fin = true }) c.map_task_states;
      })
]

unfoldable pub finish_reduce : Coordinator → ℕ → ℕ → Run Coordinator
finish_reduce c now id = elim (lookup id c.reduce_task_states) [
  | none ↦ Run.panics
  | some st ↦
      if ltb (st.time + timeout) now
      then Run.ok c
      else Run.ok (
          end_reduce (record c {
            reduce_task_states = insert id (record { time = now; fin = true }) c.reduce_task_states;
          }))
]

unfoldable pub task_fin : Coordinator → ℕ → Task → Run Coordinator
task_fin c now args =
    if len_task_fin c.map_task_states == c.num_map_tasks
    then (if len_task_fin c.reduce_task_states == c.num_reduce_tasks
        then Run.ok c
        else finish_reduce c now args.reduce_id)
    else finish_map c now args.map_id

-- !Fin && timeNow - Time > Timeout, for a task that has an entry
abbrev pub overdue : GoMap ℕ TaskState → ℕ → ℕ → Bool
overdue states now i = elim (lookup i states) [
  | none ↦ false
  | some st ↦ if st.fin then false else ltb (st.time + timeout) now
]

-- One round of the loop over the map tasks. c.files[i] is in range while there is a map task for
-- each file.
unfoldable pub requeue_map : Coordinator → ℕ → ℕ → List Task → Run (List Task)
requeue_map c now i channel =
    if overdue c.map_task_states now i
    then elim (get_elem? c.files i) [
      | none ↦ Run.panics
      | some file ↦
          send (length c.files) channel (record { map_id = i; reduce_id = 0; file_name = file })
    ]
    else Run.ok channel

-- The loop from task `i` on, with `n` rounds left.
unfoldable pub requeue_maps : Coordinator → ℕ → ℕ → ℕ → List Task → Run (List Task)
requeue_maps c now i zero channel = Run.ok channel
requeue_maps c now i (suc n) channel = do
  channel' ← requeue_map c now i channel
  requeue_maps c now (suc i) n channel'

unfoldable pub requeue_reduce : Coordinator → ℕ → ℕ → List Task → Run (List Task)
requeue_reduce c now i channel =
    if overdue c.reduce_task_states now i
    then send c.num_reduce_tasks channel (record { map_id = 0; reduce_id = i; file_name = "" })
    else Run.ok channel

unfoldable pub requeue_reduces : Coordinator → ℕ → ℕ → ℕ → List Task → Run (List Task)
requeue_reduces c now i zero channel = Run.ok channel
requeue_reduces c now i (suc n) channel = do
  channel' ← requeue_reduce c now i channel
  requeue_reduces c now (suc i) n channel'

unfoldable pub time_tick : Coordinator → ℕ → Run Coordinator
time_tick c now =
    if c.state == 0
    then (do
      channel ← requeue_maps c now 0 c.num_map_tasks c.map_task
      Run.ok (record c { map_task = channel }))
    else if c.state == 1
    then (do
      channel ← requeue_reduces c now 0 c.num_reduce_tasks c.reduce_task
      Run.ok (record c { reduce_task = channel }))
    else Run.ok c

unfoldable pub done : Coordinator → ℕ → Run (Coordinator × Bool)
done c now = do
  c' ← time_tick c now
  Run.ok (c', len_task_fin c'.reduce_task_states == c'.num_reduce_tasks)

-- The loop over the files from `id` on.
unfoldable pub send_map_tasks : ℕ → ℕ → List String → List Task → Run (List Task)
send_map_tasks capacity id [] channel = Run.ok channel
send_map_tasks capacity id (file ∷ files) channel = do
  channel' ← send capacity channel (record { map_id = id; reduce_id = 0; file_name = file })
  send_map_tasks capacity (suc id) files channel'

unfoldable pub make_coordinator : List String → ℕ → Run Coordinator
make_coordinator files num_reduce = do
  channel ← send_map_tasks (length files) 0 files []
  Run.ok (record {
    state = 0;
    num_map_tasks = length files;
    num_reduce_tasks = num_reduce;
    map_task = channel;
    reduce_task = [];
    map_task_states = [];
    reduce_task_states = [];
    files = files;
  })
