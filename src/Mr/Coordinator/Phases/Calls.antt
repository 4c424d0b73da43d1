-- ===== src/Mr/Coordinator/Phases/Calls.antt =====
-- GetTask and TaskFin keep the phases.
use mit6_824_labs.Prelude.{
  ℕ, zero, suc, ◌+◌, ◌≤◌, ◌<◌, ◌≡◌, inl, inr, refl, List, [], ◌∷◌, ◌++◌, true, false, arith, length,
  length-append, Option-cases, Bool-cases, List-cases, if◌then◌else◌, ltb, ◌==◌,
}
use mit6_824_labs.GoMap.{GoMap, nat_eq, lookup, insert}
use mit6_824_labs.Mr.Types.{Task, TaskState, Coordinator, Run}
use mit6_824_labs.Mr.Coordinator.{
  timeout, len_task_fin, get_task, get_map_task, get_reduce_task, send_reduce_tasks, end_map,
  end_reduce, finish_map, finish_reduce, task_fin,
}
use mit6_824_labs.Mr.Coordinator.Phases.{AllNameFiles, IsValid}

len_task_fin-insert :
    (id : ℕ) (st : TaskState) (m : GoMap ℕ TaskState)
    → len_task_fin (insert id st m) ≤ len_task_fin m + (if st.fin then 1 else 0)
unfolding len_task_fin insert
len_task_fin-insert id st [] = ground arith
len_task_fin-insert id st ((j, old) ∷ m) = ground (arith, len_task_fin-insert id st m)

get_map_task-IsValid :
    (c : Coordinator) (now : ℕ) → c.state ≡ 0 → IsValid c → IsValid (get_map_task c now).0
unfolding get_map_task
get_map_task-IsValid c now s v = elim (List-cases c.map_task) [
  | inl e ↦ let same : (get_map_task c now).0 ≡ c = ground (arith, e) in rw same v
  | inr (task, rest, e) ↦
      let marked =
        len_task_fin-insert task.map_id (record { time = now; fin = false }) c.map_task_states in
      record {
        sized = ground (arith, e, v.sized);
        has_reduces = ground (arith, e, v.has_reduces);
        phase = ground (arith, e, v.phase, marked);
        maps_fit = ground (arith, e, v.maps_fit);
        reduces_fit = ground (arith, e, v.reduces_fit);
        names = ground (arith, e, v.names);
      }
]

get_reduce_task-IsValid :
    (c : Coordinator) (now : ℕ) → c.state ≡ 1 → IsValid c → IsValid (get_reduce_task c now).0
unfolding get_reduce_task
get_reduce_task-IsValid c now s v = elim (List-cases c.reduce_task) [
  | inl e ↦ let same : (get_reduce_task c now).0 ≡ c = ground (arith, e) in rw same v
  | inr (task, rest, e) ↦
      let marked =
        len_task_fin-insert task.reduce_id (record { time = now; fin = false })
          c.reduce_task_states in
      record {
        sized = ground (arith, e, v.sized);
        has_reduces = ground (arith, e, v.has_reduces);
        phase = ground (arith, e, v.phase, marked);
        maps_fit = ground (arith, e, v.maps_fit);
        reduces_fit = ground (arith, e, v.reduces_fit);
        names = ground (arith, e, v.names);
      }
]

pub get_task-IsValid : (c : Coordinator) (now : ℕ) → IsValid c → IsValid (get_task c now).0
unfolding get_task
get_task-IsValid c now v = elim (Bool-cases (c.state == 0)) [
  | inl mapping ↦ rw mapping (get_map_task-IsValid c now (ground arith) v)
  | inr other ↦ elim (Bool-cases (c.state == 1)) [
    | inl reducing ↦ rw (other, reducing) (get_reduce_task-IsValid c now (ground arith) v)
    | inr ended ↦ rw (other, ended) v
  ]
]

-- The channel of reduce tasks has room for all of them.
pub send_reduce_tasks_lem :
    (capacity i n : ℕ) (channel : List Task)
    → length channel + n ≤ capacity
    → (channel' : List Task) × (send_reduce_tasks capacity i n channel ≡ Run.ok channel')
      × (length channel' ≡ length channel + n)
unfolding send_reduce_tasks
send_reduce_tasks_lem capacity i zero channel room = (channel, refl, omega arith)
send_reduce_tasks_lem capacity i (suc n) channel room =
    let task : Task = record { map_id = 0; reduce_id = i; file_name = "" } in
    let (channel', e, l) =
      send_reduce_tasks_lem capacity (suc i) n (channel ++ task ∷ [])
        (omega (arith, length-append channel (task ∷ []))) in
    (channel', ground (arith, e), omega (arith, l, length-append channel (task ∷ [])))

end_map-IsValid :
    (c : Coordinator) {c' : Coordinator}
    → end_map c ≡ Run.ok c'
    → c.state ≡ 0
    → len_task_fin c.map_task_states ≤ c.num_map_tasks
    → c.reduce_task ≡ []
    → c.reduce_task_states ≡ []
    → c.num_map_tasks ≡ length c.files
    → 0 < c.num_reduce_tasks
    → length c.map_task ≤ c.num_map_tasks
    → AllNameFiles c.files c.map_task
    → IsValid c'
unfolding end_map len_task_fin
end_map-IsValid c {c'} h s l e e' n r f a =
    let (channel, sent, size) =
      send_reduce_tasks_lem c.num_reduce_tasks 0 c.num_reduce_tasks c.reduce_task
        (rw e (omega arith)) in
    elim (Bool-cases (len_task_fin c.map_task_states == c.num_map_tasks)) [
      | inl all ↦
          let same : c' ≡ record c { state = 1; reduce_task = channel } = ground (arith, sent) in
          rw same (record {
            sized = n;
            has_reduces = r;
            phase = inr (inl (refl, ground arith, rw e' r));
            maps_fit = f;
            reduces_fit = ground (arith, size, e);
            names = a;
          })
      | inr missing ↦
          let same : c' ≡ c = ground arith in
          rw same (record {
            sized = n;
            has_reduces = r;
            phase = inl (s, ground arith, e, e');
            maps_fit = f;
            reduces_fit = ground (arith, e);
            names = a;
          })
    ]

finish_map-IsValid :
    (c : Coordinator) (now id : ℕ) {c' : Coordinator}
    → finish_map c now id ≡ Run.ok c'
    → (len_task_fin c.map_task_states == c.num_map_tasks) ≡ false
    → IsValid c
    → IsValid c'
unfolding finish_map
finish_map-IsValid c now id {c'} h missing v = elim (Option-cases (lookup id c.map_task_states)) [
  | inl unknown ↦ absurd (ground arith)
  | inr (st, e) ↦ elim (Bool-cases (ltb (st.time + timeout) now)) [
    | inl late ↦ let same : c' ≡ c = ground (arith, e) in rw same v
    | inr in_time ↦
        let marked = record c {
          map_task_states = insert id (record { time = now; fin = true }) c.map_task_states;
        } in
        end_map-IsValid marked (ground (arith, e)) (ground (arith, v.phase))
          (ground (
            arith,
            v.phase,
            len_task_fin-insert id (record { time = now; fin = true }) c.map_task_states,
          ))
          (ground (arith, v.phase)) (ground (arith, v.phase)) v.sized v.has_reduces v.maps_fit
          v.names
  ]
]

finish_reduce-IsValid :
    (c : Coordinator) (now id : ℕ) {c' : Coordinator}
    → finish_reduce c now id ≡ Run.ok c'
    → (len_task_fin c.map_task_states == c.num_map_tasks) ≡ true
    → (len_task_fin c.reduce_task_states == c.num_reduce_tasks) ≡ false
    → IsValid c
    → IsValid c'
unfolding finish_reduce end_reduce
finish_reduce-IsValid c now id {c'} h all missing v =
    let marked = len_task_fin-insert id (record { time = now; fin = true }) c.reduce_task_states in
    elim (Option-cases (lookup id c.reduce_task_states)) [
      | inl unknown ↦ absurd (ground arith)
      | inr (st, e) ↦ record {
        sized = ground (arith, e, v.sized);
        has_reduces = ground (arith, e, v.has_reduces);
        phase = ground (arith, e, v.phase, marked);
        maps_fit = ground (arith, e, v.maps_fit);
        reduces_fit = ground (arith, e, v.reduces_fit);
        names = ground (arith, e, v.names);
      }
    ]

pub task_fin-IsValid :
    (c : Coordinator) (now : ℕ) (args : Task) {c' : Coordinator}
    → task_fin c now args ≡ Run.ok c'
    → IsValid c
    → IsValid c'
unfolding task_fin
task_fin-IsValid c now args {c'} h v =
    elim (Bool-cases (len_task_fin c.map_task_states == c.num_map_tasks)) [
      | inr missing ↦ finish_map-IsValid c now args.map_id (rw missing at h) missing v
      | inl all ↦ elim (Bool-cases (len_task_fin c.reduce_task_states == c.num_reduce_tasks)) [
        | inl ended ↦ let same : c' ≡ c = ground arith in rw same v
        | inr going ↦ finish_reduce-IsValid c now args.reduce_id (rw (all, going) at h) all going v
      ]
    ]
