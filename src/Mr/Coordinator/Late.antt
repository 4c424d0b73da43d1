-- ===== src/Mr/Coordinator/Late.antt =====
-- A completion that comes when all map tasks are finished, and a tick that finds the channel full.
use Prim.Native.String.{String}
use mit6_824_labs.Prelude.{
  ℕ, zero, suc, ◌+◌, ◌≤◌, ◌<◌, ◌≡◌, inl, inr, List, none, true, arith, length, get_elem?-some,
  Bool-cases, dec_lt, Option-cases, if◌then◌else◌, some, ◌⊎◌, [], ◌∷◌, ◌==◌, ==_iff, refl,
}
use mit6_824_labs.GoMap.{GoMap, nat_eq, lookup, insert, lookup-insert}
use mit6_824_labs.Mr.Types.{Task, TaskState, Coordinator, Run}
use mit6_824_labs.Mr.Coordinator.{
  len_task_fin, timeout, task_fin, finish_reduce, end_reduce, overdue, requeue_map, requeue_maps,
  time_tick,
}
use mit6_824_labs.Mr.Coordinator.Phases.{IsValid}

-- One more task counts as finished, unless it did before.
len_task_fin-finish :
    (id now : ℕ) (m : GoMap ℕ TaskState) (st : TaskState)
    → lookup id m ≡ some st
    → len_task_fin (insert id (record { time = now; fin = true }) m)
      ≡ len_task_fin m + (if st.fin then 0 else 1)
unfolding len_task_fin lookup insert
len_task_fin-finish id now [] st h = absurd (ground (arith, h))
len_task_fin-finish id now ((j, old) ∷ m) st h =
    ground (arith, h, len_task_fin-finish id now m st, nat_eq.equals_iff j id)

-- Reduce task 0 is finished: its state, the others' states, the counts, the phase by the count of
-- before, and all that stays.
abbrev pub IsFinished : Coordinator → ℕ → TaskState → Coordinator → Type 0
IsFinished c now st c' =
    let count = len_task_fin c.reduce_task_states + (if st.fin then 0 else 1) in
    ((id : ℕ)
      → lookup id c'.reduce_task_states ≡ (
          if id == 0
          then some (record { time = now; fin = true })
          else lookup id c.reduce_task_states))
    × (len_task_fin c'.reduce_task_states ≡ count)
    × (c'.state ≡ (if count == c.num_reduce_tasks then 2 else 1))
    × (c'.map_task_states ≡ c.map_task_states)
    × (c'.map_task ≡ c.map_task)
    × (c'.reduce_task ≡ c.reduce_task)

-- A valid coordinator in the Reduce phase takes the completion of any map task that comes late for
-- that of reduce task 0. If it has not handed that out, it panics; if the reduce task's time is over,
-- nothing changes; else reduce task 0 counts as finished, State comes to 2 exactly when it was the
-- last one unfinished, and the states of the other tasks and both queues stay.
pub late_map_fin :
    (c : Coordinator) (now id : ℕ) (file : String)
    → IsValid c
    → c.state ≡ 1
    → let late = task_fin c now (record { map_id = id; reduce_id = 0; file_name = file }) in
      ((lookup 0 c.reduce_task_states ≡ none) × (late ≡ Run.panics))
      ⊎ ((st : TaskState) × (c' : Coordinator) × (lookup 0 c.reduce_task_states ≡ some st)
          × (late ≡ Run.ok c')
          × (((st.time + timeout < now) × (c' ≡ c))
              ⊎ ((now ≤ st.time + timeout) × IsFinished c now st c')))
unfolding task_fin finish_reduce end_reduce
late_map_fin c now id file v reducing = elim (Option-cases (lookup 0 c.reduce_task_states)) [
  | inl waiting ↦ inl (waiting, ground (arith, v.phase, waiting))
  | inr (st, handed) ↦ elim (dec_lt (st.time + timeout) now) [
    | yes over ↦ inr (st, c, handed, ground (arith, v.phase, handed), inl (over, refl))
    | no in_time ↦
        let finished = record c {
          reduce_task_states = insert 0 (record { time = now; fin = true }) c.reduce_task_states;
        } in
        let counted = len_task_fin-finish 0 now c.reduce_task_states st handed in
        inr (
          st,
          end_reduce finished,
          handed,
          ground (arith, v.phase, handed, in_time),
          inr (
            omega arith,
            (
              λ i. ground (
                arith,
                lookup-insert 0 i (record { time = now; fin = true }) c.reduce_task_states,
                ==_iff 0 i,
                ==_iff i 0,
              ),
              ground (arith, counted),
              ground (arith, counted, reducing),
              ground arith,
              ground arith,
              ground arith,
            ),
          ),
        )
  ]
]

-- On a full channel the loop stops at the first overdue task.
full_loop :
    (c : Coordinator) (now i n j : ℕ) (channel : List Task)
    → length c.files ≤ length channel
    → i + n ≤ length c.files
    → i ≤ j
    → j < i + n
    → overdue c.map_task_states now j ≡ true
    → requeue_maps c now i n channel ≡ Run.blocks
unfolding requeue_maps requeue_map
full_loop c now i zero j channel full inside from to late = absurd (omega arith)
full_loop c now i (suc n) j channel full inside from to late =
    let (file, e) = get_elem?-some c.files i (omega arith) in
    elim (Bool-cases (overdue c.map_task_states now i)) [
      | inl now_late ↦ ground (arith, now_late, e)
      | inr in_time ↦ elim (dec_lt i j) [
        | yes l ↦ rw in_time (
            full_loop c now (suc i) n j channel full (omega arith) (omega arith) (omega arith) late)
        | no l ↦ let same : j ≡ i = omega arith in absurd (ground (arith, same, late, in_time))
      ]
    ]

-- In the Map phase, if some map task is overdue and the channel is full, TimeTick, and so Done, waits
-- for a worker to take a task.
pub tick_blocks :
    (c : Coordinator) (now i : ℕ)
    → IsValid c
    → c.state ≡ 0
    → i < c.num_map_tasks
    → overdue c.map_task_states now i ≡ true
    → length c.map_task ≡ c.num_map_tasks
    → time_tick c now ≡ Run.blocks
unfolding time_tick
tick_blocks c now i v mapping inside late full = ground (
  arith,
  full_loop c now 0 c.num_map_tasks i c.map_task (omega (arith, full, v.sized))
      (omega (arith, v.sized)) (omega arith) (omega arith) late,
)
