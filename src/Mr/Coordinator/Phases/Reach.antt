-- ===== src/Mr/Coordinator/Phases/Reach.antt =====
-- MakeCoordinator and the calls that follow it, one after another; what Done answers.
use Prim.Native.String.{String}
use mit6_824_labs.Prelude.{
  ℕ, suc, ◌+◌, ◌≤◌, ◌<◌, ◌≡◌, inl, refl, List, [], ◌∷◌, ◌++◌, some, Bool, arith, length,
  length-append, get_elem?, if◌then◌else◌, ◌==◌,
}
use mit6_824_labs.GoMap.{nat_eq}
use mit6_824_labs.Mr.Types.{Task, Coordinator, Run, >>=-eq-ok}
use mit6_824_labs.Mr.Coordinator.{
  len_task_fin, get_task, send_map_tasks, time_tick, done, make_coordinator,
}
use mit6_824_labs.Mr.Coordinator.Phases.Calls.{get_task-IsValid, task_fin-IsValid}
use mit6_824_labs.Mr.Coordinator.Phases.Ticks.{time_tick-IsValid}
use mit6_824_labs.Mr.Coordinator.Phases.{AllNameFiles, IsValid, Step, Steps, AllNameFiles-append}

pub call-IsValid : (c c' : Coordinator) → Step c c' → IsValid c → IsValid c'
unfolding done
call-IsValid c c' (Step.gets now reply h) v =
    let same : c' ≡ (get_task c now).0 = ground arith in rw same (get_task-IsValid c now v)
call-IsValid c c' (Step.finishes now args h) v = task_fin-IsValid c now args h v
call-IsValid c c' (Step.asks now ended h) v =
    let (c₁, e, rest) = >>=-eq-ok (time_tick c now) _ h in
    let same : c' ≡ c₁ = ground arith in rw same (time_tick-IsValid c now e v)

-- The channel of map tasks has room for all files.
send_map_tasks_lem :
    (all : List String) (id : ℕ) (files : List String) (channel : List Task)
    → ((i : ℕ) → get_elem? files i ≡ get_elem? all (id + i))
    → length channel + length files ≤ length all
    → AllNameFiles all channel
    → (channel' : List Task) × (send_map_tasks (length all) id files channel ≡ Run.ok channel')
      × (length channel' ≡ length channel + length files)
      × AllNameFiles all channel'
unfolding send_map_tasks
send_map_tasks_lem all id [] channel h room names = (channel, refl, omega arith, names)
send_map_tasks_lem all id (file ∷ files) channel h room names =
    let task : Task = record { map_id = id; reduce_id = 0; file_name = file } in
    let at : get_elem? all id ≡ some file = ground (arith, h 0) in
    let tail : (i : ℕ) → get_elem? files i ≡ get_elem? all (suc id + i) =
      λ i. let same : id + suc i ≡ suc id + i = omega arith in rw (← same) (h (suc i)) in
    let (channel', e, l, names') =
      send_map_tasks_lem all (suc id) files (channel ++ task ∷ []) tail
        (omega (arith, length-append channel (task ∷ [])))
        (AllNameFiles-append all channel task names at) in
    (channel', ground (arith, e), omega (arith, l, length-append channel (task ∷ [])), names')

-- MakeCoordinator returns, for any files and reduce tasks but none of either.
pub make_coordinator_lem :
    (files : List String) (num_reduce : ℕ)
    → 0 < length files
    → 0 < num_reduce
    → (c : Coordinator) × (make_coordinator files num_reduce ≡ Run.ok c) × IsValid c
unfolding make_coordinator len_task_fin
make_coordinator_lem files num_reduce some_files some_reduces =
    let (channel, e, l, names) =
      send_map_tasks_lem files 0 files [] (λ i. let same : 0 + i ≡ i = omega arith in rw same refl)
        (omega arith) tt in
    let c : Coordinator = record {
      state = 0;
      num_map_tasks = length files;
      num_reduce_tasks = num_reduce;
      map_task = channel;
      reduce_task = [];
      map_task_states = [];
      reduce_task_states = [];
      files = files;
    } in
    (
      c,
      ground (arith, e),
      record {
        sized = refl;
        has_reduces = some_reduces;
        phase = inl (refl, some_files, refl, refl);
        maps_fit = omega (arith, l);
        reduces_fit = omega arith;
        names = names;
      },
    )

-- With at least one file and one reduce task, after any calls that run one after another and return:
-- State is 0, some map task
-- is not finished and no reduce task is queued or handed out; or it is 1, all map tasks are finished
-- and some reduce task is not; or it is 2 and all are finished. The channels hold no more than their
-- capacities, and every queued map task names its file.
pub reachable-IsValid :
    (files : List String) (num_reduce : ℕ) (c c' : Coordinator)
    → make_coordinator files num_reduce ≡ Run.ok c
    → 0 < length files
    → 0 < num_reduce
    → Steps c c'
    → IsValid c'
reachable-IsValid files num_reduce c c' made some_files some_reduces Steps.here =
    let (c₁, e, v) = make_coordinator_lem files num_reduce some_files some_reduces in
    let same : c ≡ c₁ = ground (arith, e) in rw same v
reachable-IsValid files num_reduce c c' made some_files some_reduces (Steps.next {c' = c₁} s h) =
    call-IsValid c₁ c' h (reachable-IsValid files num_reduce c c₁ made some_files some_reduces s)

-- At a valid coordinator Done, when it returns, answers true exactly when State has come to 2; then all map tasks and
-- all reduce tasks are finished.
pub done_answers :
    (c : Coordinator) (now : ℕ) (c' : Coordinator) (ended : Bool)
    → IsValid c
    → done c now ≡ Run.ok (c', ended)
    → (ended ≡ (c'.state == 2))
      × (c'.state ≡ c.state)
      × (if ended
          then (len_task_fin c'.map_task_states ≡ c'.num_map_tasks)
            × (len_task_fin c'.reduce_task_states ≡ c'.num_reduce_tasks)
          else (len_task_fin c'.reduce_task_states < c'.num_reduce_tasks))
unfolding done time_tick len_task_fin
done_answers c now c' ended v h =
    let v' = call-IsValid c c' (Step.asks now ended h) v in
    ground (arith, v.phase, v'.phase, v'.has_reduces)
