-- ===== src/Mr/Coordinator/Phases.antt =====
-- The phases of the coordinator, through calls of its methods that run one after another. The methods
-- take no lock, and what calls that overlap can do is outside of this.
pub mod Calls
pub mod Ticks
pub mod Reach
use Prim.Native.String.{String}
use mit6_824_labs.Prelude.{
  ℕ, zero, suc, ◌+◌, ◌≤◌, ◌<◌, ◌≡◌, ◌≢◌, ◌⊎◌, inl, inr, refl, sym, ◌∙◌, List, [], ◌∷◌, ◌++◌, Option,
  none, some, Bool, true, false, arith, length, length-append, get_elem?, lt_of_get_elem?,
  get_elem?-none, Option-cases, Bool-cases, List-cases, if◌then◌else◌, ltb, ◌==◌,
}
use mit6_824_labs.Prelude.Int.{pos}
use mit6_824_labs.GoMap.{GoMap, nat_eq, lookup, insert, equals_refl, ◌==◌ as key_eq}
use mit6_824_labs.Mr.Types.{Task, TaskState, Coordinator, TaskResponse, Run, ◌>>=◌, >>=-eq-ok}
use mit6_824_labs.Mr.Coordinator.{
  timeout, len_task_fin, get_task, get_map_task, get_reduce_task, send, send_reduce_tasks,
  send_map_tasks, end_map, end_reduce, finish_map, finish_reduce, task_fin, overdue, requeue_map,
  requeue_maps, requeue_reduce, requeue_reduces, time_tick, done, make_coordinator,
}

-- A map task names its file.
abbrev pub NamesFile : List String → Task → Type 0
NamesFile files task = get_elem? files task.map_id ≡ some task.file_name

abbrev pub AllNameFiles : List String → List Task → Type 0
AllNameFiles files [] = Unit
AllNameFiles files (task ∷ tasks) = NamesFile files task × AllNameFiles files tasks

-- The phase that State names, by the counts of finished tasks.
abbrev pub InPhase : Coordinator → Type 0
InPhase c =
    ((c.state ≡ 0)
      × (len_task_fin c.map_task_states < c.num_map_tasks)
      × (c.reduce_task ≡ [])
      × (c.reduce_task_states ≡ []))
    ⊎ ((c.state ≡ 1)
        × (len_task_fin c.map_task_states ≡ c.num_map_tasks)
        × (len_task_fin c.reduce_task_states < c.num_reduce_tasks))
    ⊎ ((c.state ≡ 2)
        × (len_task_fin c.map_task_states ≡ c.num_map_tasks)
        × (len_task_fin c.reduce_task_states ≡ c.num_reduce_tasks))

pub record IsValid (c : Coordinator) : Type 0 where
  pub sized : c.num_map_tasks ≡ length c.files
  pub has_reduces : 0 < c.num_reduce_tasks
  pub phase : InPhase c
  pub maps_fit : length c.map_task ≤ c.num_map_tasks
  pub reduces_fit : length c.reduce_task ≤ c.num_reduce_tasks
  pub names : AllNameFiles c.files c.map_task

-- A call that returns before the next one begins.
pub data Step (c c' : Coordinator) : Type 0 where
  gets : (now : ℕ) (reply : TaskResponse) → get_task c now ≡ (c', reply) → Step c c'
  finishes : (now : ℕ) (args : Task) → task_fin c now args ≡ Run.ok c' → Step c c'
  asks : (now : ℕ) (ended : Bool) → done c now ≡ Run.ok (c', ended) → Step c c'

pub data Steps (c : Coordinator) : Coordinator → Type 0 where
  here : Steps c c
  next : {c' c'' : Coordinator} → Steps c c' → Step c' c'' → Steps c c''

pub AllNameFiles-append :
    (files : List String) (tasks : List Task) (task : Task)
    → AllNameFiles files tasks
    → NamesFile files task
    → AllNameFiles files (tasks ++ task ∷ [])
AllNameFiles-append files [] task all named = (named, tt)
AllNameFiles-append files (t ∷ tasks) task (first, all) named =
    (first, AllNameFiles-append files tasks task all named)
