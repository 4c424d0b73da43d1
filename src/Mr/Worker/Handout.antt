-- ===== src/Mr/Worker/Handout.antt =====
-- What a worker does with the coordinator's replies.
use mit6_824_labs.Prelude.{
  ℕ, ◌≡◌, ◌⊎◌, refl, List, [], ◌∷◌, length, arith, false, some, inl, inr, List-cases, ◌∙◌,
}
use mit6_824_labs.GoMap.{nat_eq, lookup, insert, lookup-insert, equals_refl}
use mit6_824_labs.Mr.Types.{TaskState, Coordinator, TaskResponse}
use mit6_824_labs.Mr.Coordinator.{get_task, get_map_task, get_reduce_task}
use mit6_824_labs.Mr.Coordinator.Phases.{NamesFile, IsValid}
use mit6_824_labs.Mr.Worker.{Action, action}

-- The task is a map task of a file, and its time starts.
abbrev pub IsMapHandout : Coordinator → ℕ → Coordinator × TaskResponse → Type 0
IsMapHandout c now (c', reply) =
    (action reply ≡ Action.maps)
    × (c.state ≡ 0)
    × (c.map_task ≡ reply.x_task ∷ c'.map_task)
    × NamesFile c.files reply.x_task
    × (lookup reply.x_task.map_id c'.map_task_states ≡ some (record { time = now; fin = false }))

abbrev pub IsReduceHandout : Coordinator → ℕ → Coordinator × TaskResponse → Type 0
IsReduceHandout c now (c', reply) =
    (action reply ≡ Action.reduces)
    × (c.state ≡ 1)
    × (c.reduce_task ≡ reply.x_task ∷ c'.reduce_task)
    × (lookup reply.x_task.reduce_id c'.reduce_task_states
        ≡ some (record { time = now; fin = false }))

-- The worker asks again at once, since the phase has no task left to hand out.
abbrev pub IsWait : Coordinator → Coordinator × TaskResponse → Type 0
IsWait c (c', reply) =
    (action reply ≡ Action.waits)
    × (c' ≡ c)
    × (((c.state ≡ 0) × (c.map_task ≡ [])) ⊎ ((c.state ≡ 1) × (c.reduce_task ≡ [])))

abbrev pub IsEnd : Coordinator → Coordinator × TaskResponse → Type 0
IsEnd c (c', reply) = (action reply ≡ Action.ends) × (c' ≡ c) × (c.state ≡ 2)

started :
    (id now : ℕ) (m : List (ℕ × TaskState))
    → lookup id (insert id (record { time = now; fin = false }) m)
      ≡ some (record { time = now; fin = false })
started id now m =
    lookup-insert id id (record { time = now; fin = false }) m ∙ rw (equals_refl id) refl

map_phase :
    (c : Coordinator) (now : ℕ)
    → IsValid c
    → c.state ≡ 0
    → IsMapHandout c now (get_task c now) ⊎ IsWait c (get_task c now)
unfolding action get_task get_map_task
map_phase c now v mapping = elim (List-cases c.map_task) [
  | inl e ↦ inr (ground (arith, e), ground (arith, e), inl (mapping, e))
  | inr (task, rest, e) ↦
      let names = rw e at v.names in
      inl (
        ground (arith, e),
        mapping,
        ground (arith, e),
        ground (arith, e, names.0),
        ground (arith, e, started task.map_id now c.map_task_states),
      )
]

reduce_phase :
    (c : Coordinator) (now : ℕ)
    → c.state ≡ 1
    → IsReduceHandout c now (get_task c now) ⊎ IsWait c (get_task c now)
unfolding action get_task get_reduce_task
reduce_phase c now reducing = elim (List-cases c.reduce_task) [
  | inl e ↦ inr (ground (arith, e), ground (arith, e), inr (reducing, e))
  | inr (task, rest, e) ↦ inl (
    ground (arith, e),
    reducing,
    ground (arith, e),
    ground (arith, e, started task.reduce_id now c.reduce_task_states),
  )
]

-- GetTask of a valid coordinator replies with the numbers of the files and of the reduce tasks, and
-- the worker's loop does with the reply: in the Map phase it runs a map task with the name of the
-- task's file, whose time starts; in the Reduce phase it runs a reduce task, whose time starts; it
-- waits when the phase has no task to hand out; and it ends exactly when the coordinator has
-- finished.
pub handed_out :
    (c : Coordinator) (now : ℕ)
    → IsValid c
    → ((get_task c now).1.num_map_tasks ≡ length c.files)
      × ((get_task c now).1.num_reduce_tasks ≡ c.num_reduce_tasks)
      × (IsMapHandout c now (get_task c now)
          ⊎ IsReduceHandout c now (get_task c now)
          ⊎ IsWait c (get_task c now)
          ⊎ IsEnd c (get_task c now))
unfolding action get_task get_map_task get_reduce_task
handed_out c now v = (
  ground (arith, v.sized, List-cases c.map_task, List-cases c.reduce_task),
  ground (arith, List-cases c.map_task, List-cases c.reduce_task),
  elim v.phase [
    | inl (e, _, _, _) ↦ elim (map_phase c now v e) [ inl h ↦ inl h | inr h ↦ inr (inr (inl h)) ]
    | inr (inl (e, _, _)) ↦ elim (reduce_phase c now e) [
      | inl h ↦ inr (inl h)
      | inr h ↦ inr (inr (inl h))
    ]
    | inr (inr (e, _, _)) ↦ inr (inr (inr (ground (arith, e), ground (arith, e), e)))
  ],
)
