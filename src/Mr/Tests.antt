-- ===== src/Mr/Tests.antt =====
-- MapReduce on concrete coordinators, texts and functions.
mod Sorting
mod Texts
use Prim.Native.Char.{code}
use Prim.Native.String.{String}
use mathlib.Core.List.{Permᴰ}
use mit6_824_labs.Prelude.{
  ltb, none, some, if◌then◌else◌, ◌+◌, ℕ, zero, suc, ◌%◌, ◌<◌, ◌≡◌, ◌≤◌, ◌⊎◌, refl, sym, ap, ◌∙◌,
  List, [], ◌∷◌, Option, Bool, true, false, arith, length, get_elem?, replicate, ◌==◌, some_inj,
  inl, inr,
}
use mit6_824_labs.Prelude.Int.{pos}
use mit6_824_labs.GoMap.{nat_eq, string_eq, lookup, insert}
use mit6_824_labs.Raft.Types.{Bytes}
use mit6_824_labs.KvRaft.Tests.Coding.{Coder, pair, through, list, text, number}
use mit6_824_labs.Mr.Types.{Task, TaskState, Coordinator, TaskResponse, Run}
use mit6_824_labs.Mr.Coordinator.{
  timeout, end_reduce, finish_reduce, make_coordinator, send_map_tasks, get_task, get_map_task,
  get_reduce_task, task_fin, finish_map, end_map, send_reduce_tasks, time_tick, done, overdue,
  len_task_fin, requeue_maps, requeue_map, requeue_reduces, requeue_reduce,
}
use mit6_824_labs.Mr.Coordinator.Phases.{IsValid, Step, Steps}
use mit6_824_labs.Mr.Coordinator.Phases.Reach.{reachable-IsValid, done_answers}
use mit6_824_labs.Mr.Coordinator.Late.{IsFinished, late_map_fin, tick_blocks}
use mit6_824_labs.Mr.Keys.{KeyValue}
use mit6_824_labs.Mr.Grouping.Laws.{lines_of}
use mit6_824_labs.Mr.Worker.{
  Json, IsJson, Files, put_buckets, ihash, map_out, reduce_out, do_reduce, print_lines, Action,
  action,
}
use mit6_824_labs.Mr.Worker.Names.{IsItoa}
use mit6_824_labs.Mr.Worker.Buckets.{bucket_of, buckets_bounded}
use mit6_824_labs.Mr.Worker.Handout.{handed_out, IsMapHandout, IsReduceHandout, IsWait, IsEnd}
use mit6_824_labs.Mr.Worker.Agreement.{reduce_reply}
use mit6_824_labs.Mr.Worker.Agreement.Runs.{run_maps, mapreduce_agrees}
use mit6_824_labs.Mr.Sequential.{sequential_lines}
use mit6_824_labs.Mr.Tests.Sorting.{insertion_sort, insertion_sort-IsSort}

abbrev map_task_of : ℕ → String → Task
map_task_of id name = record { map_id = id; reduce_id = 0; file_name = name }

abbrev reduce_task_of : ℕ → Task
reduce_task_of id = record { map_id = 0; reduce_id = id; file_name = "" }

-- One file and one reduce task.
abbrev made : Coordinator
made = record {
  state = 0;
  num_map_tasks = 1;
  num_reduce_tasks = 1;
  map_task = map_task_of 0 "a" ∷ [];
  reduce_task = [];
  map_task_states = [];
  reduce_task_states = [];
  files = "a" ∷ [];
}

abbrev started : ℕ → TaskState
started now = record { time = now; fin = false }

abbrev mapping : Coordinator
mapping = record made { map_task = []; map_task_states = (0, started 5) ∷ [] }

-- The task timed out at 20, and is queued again.
abbrev queued_again : Coordinator
queued_again = record mapping { map_task = map_task_of 0 "a" ∷ [] }

-- The map task has finished; the reduce task is queued.
abbrev mapped : Coordinator
mapped = record made {
  state = 1;
  map_task = [];
  reduce_task = reduce_task_of 0 ∷ [];
  map_task_states = (0, record { time = 9; fin = true }) ∷ [];
}

made_eq : make_coordinator ("a" ∷ []) 1 ≡ Run.ok made
unfolding make_coordinator send_map_tasks
made_eq = refl

to_mapped : Steps made mapped
unfolding get_task get_map_task insert task_fin finish_map end_map send_reduce_tasks len_task_fin
    lookup
to_mapped =
    Steps.next {c' = mapping} (Steps.next Steps.here (Step.gets 5 _ refl))
      (Step.finishes 9 (map_task_of 0 "a") refl)

to_queued_again : Steps made queued_again
unfolding get_task get_map_task insert done time_tick requeue_maps requeue_map lookup len_task_fin
to_queued_again =
    Steps.next {c' = mapping} (Steps.next Steps.here (Step.gets 5 _ refl)) (Step.asks 20 false refl)

reachable-IsValid_example : IsValid mapped
reachable-IsValid_example =
    reachable-IsValid ("a" ∷ []) 1 made mapped made_eq (omega arith) (omega arith) to_mapped

queued_again-IsValid : IsValid queued_again
queued_again-IsValid =
    reachable-IsValid ("a" ∷ []) 1 made queued_again made_eq (omega arith) (omega arith)
      to_queued_again

-- A second completion of the map task panics: reduce task 0 waits in its channel.
late_fin_panics : task_fin mapped 10 (map_task_of 0 "a") ≡ Run.panics
unfolding task_fin finish_reduce len_task_fin lookup
late_fin_panics = refl

-- When another worker has reduce task 0, it is over for the coordinator, with nothing reduced.
abbrev reducing : Coordinator
reducing = record mapped { reduce_task = []; reduce_task_states = (0, started 10) ∷ [] }

to_reducing : Steps made reducing
unfolding get_task get_map_task get_reduce_task insert task_fin finish_map end_map send_reduce_tasks
    len_task_fin lookup
to_reducing =
    Steps.next {c' = mapped}
      (Steps.next {c' = mapping} (Steps.next Steps.here (Step.gets 5 _ refl))
        (Step.finishes 9 (map_task_of 0 "a") refl))
      (Step.gets 10 _ refl)

reducing-IsValid : IsValid reducing
reducing-IsValid =
    reachable-IsValid ("a" ∷ []) 1 made reducing made_eq (omega arith) (omega arith) to_reducing

late_map_fin_example :
    ((lookup 0 reducing.reduce_task_states ≡ none)
      × (task_fin reducing 11 (map_task_of 0 "a") ≡ Run.panics))
    ⊎ ((st : TaskState) × (c' : Coordinator) × (lookup 0 reducing.reduce_task_states ≡ some st)
        × (task_fin reducing 11 (map_task_of 0 "a") ≡ Run.ok c')
        × (((st.time + timeout < 11) × (c' ≡ reducing))
            ⊎ ((11 ≤ st.time + timeout) × IsFinished reducing 11 st c')))
late_map_fin_example = late_map_fin reducing 11 0 "a" reducing-IsValid refl

late_fin_ends :
    task_fin reducing 11 (map_task_of 0 "a")
    ≡ Run.ok (record reducing {
      state = 2;
      reduce_task_states = (0, record { time = 11; fin = true }) ∷ [];
    })
unfolding task_fin finish_reduce end_reduce len_task_fin lookup insert
late_fin_ends = refl

tick_blocks_example : time_tick queued_again 21 ≡ Run.blocks
unfolding lookup
tick_blocks_example =
    tick_blocks queued_again 21 0 queued_again-IsValid refl (omega arith) refl refl

done_answers_example :
    (false ≡ (mapped.state == 2))
    × (mapped.state ≡ mapped.state)
    × (len_task_fin mapped.reduce_task_states < mapped.num_reduce_tasks)
unfolding done time_tick requeue_reduces requeue_reduce lookup len_task_fin
done_answers_example = done_answers mapped 12 mapped false reachable-IsValid_example refl

handed_out_example :
    ((get_task queued_again 30).1.num_map_tasks ≡ length queued_again.files)
    × ((get_task queued_again 30).1.num_reduce_tasks ≡ queued_again.num_reduce_tasks)
    × (IsMapHandout queued_again 30 (get_task queued_again 30)
        ⊎ IsReduceHandout queued_again 30 (get_task queued_again 30)
        ⊎ IsWait queued_again (get_task queued_again 30)
        ⊎ IsEnd queued_again (get_task queued_again 30))
handed_out_example = handed_out queued_again 30 queued_again-IsValid

-- Two calls of TaskFin that overlap: this one has marked the last map task before the other counted,
-- and goes on when the reduce tasks are finished. State falls back, and the reduce tasks are queued
-- again.
abbrev finished : Coordinator
finished = record reducing {
  state = 2;
  reduce_task_states = (0, record { time = 12; fin = true }) ∷ [];
}

slow_end_map :
    end_map finished ≡ Run.ok (record finished { state = 1; reduce_task = reduce_task_of 0 ∷ [] })
unfolding end_map send_reduce_tasks len_task_fin
slow_end_map = refl
