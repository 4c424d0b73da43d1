-- ===== src/KvRaft/Tests/Waiting.antt =====
-- A handler whose time-out comes between the begin of apply()'s critical section and its send.
use mit6_824_labs.Prelude.{◌≡◌, refl, [], ◌∷◌, some, true, false, if◌then◌else◌}
use mit6_824_labs.Prelude.Int.{pos, minus_one}
use mit6_824_labs.GoMap.{int_eq, lookup, insert}
use mit6_824_labs.Raft.Types.{ApplyMsg}
use mit6_824_labs.Raft.Persist.{initial, make_persister}
use mit6_824_labs.Raft.Cluster.{update}
use mit6_824_labs.KvRaft.Types.{Op, KvServer, put_op}
use mit6_824_labs.KvRaft.Server.{await}
use mit6_824_labs.KvRaft.Locks.{
  Loop, Stage, Server, LoopStep, HandlerStep, Step, Steps, comes_to_send,
}
use mit6_824_labs.KvRaft.Locks.Stuck.{IsStuck, IsFrozen, waits_forever}
use mit6_824_labs.KvRaft.Tests.Coding.{gob, snap}

abbrev put_one : ApplyMsg Op
put_one = record {
  command_valid = true;
  command =
      some (record { type = put_op; key = "k"; value = 1 ∷ []; client_id = 7; sequence_id = 1 });
  command_index = 1;
  snapshot_valid = false;
  snapshot = [];
  snapshot_term = 0;
  snapshot_index = 0;
}

abbrev new_kv : KvServer
new_kv = record {
  me = 0;
  rf = initial gob 3 0 make_persister;
  dead = false;
  maxraftstate = minus_one;
  last_applied = 0;
  duptable = [];
  contents = [];
  wake_client = [];
}

abbrev new_server : Server
new_server = record { kv = new_kv; loop = Loop.idle; stages = λ h. Stage.gone; channels = λ i. 0 }

-- Handler 3 waits at index 1.
abbrev waiting : Server
waiting = record {
  kv = await (pos 1) new_kv;
  loop = Loop.idle;
  stages = update (update (λ h. Stage.gone) 3 (Stage.started (pos 1))) 3 (Stage.waiting (pos 1));
  channels = λ j. if int_eq.equals j (pos 1) then 3 else 0;
}

abbrev stuck : Server
stuck = record waiting {
  loop = Loop.sending put_one 3;
  stages = update waiting.stages 3 (Stage.cleaning (pos 1));
}

to_waiting : Steps gob snap new_server waiting
to_waiting =
    Steps.next (Steps.next Steps.here (Step.handles (HandlerStep.starts 3 (pos 1) refl refl)))
      (Step.handles (HandlerStep.registers 3 (pos 1) refl tt refl))

-- The state is one that a server comes to.
to_stuck : Steps gob snap waiting stuck
unfolding comes_to_send await lookup insert
to_stuck =
    Steps.next
      (Steps.next (Steps.next Steps.here (Step.loops (LoopStep.takes put_one refl refl)))
        (Step.handles (HandlerStep.times_out 3 (pos 1) refl refl)))
      (Step.loops (LoopStep.begins_send put_one refl refl refl))

-- Another handler is called then.
abbrev called : Server
called = record stuck { stages = update stuck.stages 4 (Stage.started (pos 2)) }

waits_forever_example :
    IsStuck put_one 3 (pos 1) called
    × (called.stages 3 ≡ Stage.cleaning (pos 1))
    × IsFrozen stuck.kv called.kv
waits_forever_example =
    waits_forever gob snap stuck called put_one 3 3 (pos 1) (pos 1) (refl, refl) refl
      (Steps.next Steps.here (Step.handles (HandlerStep.starts 4 (pos 2) refl refl)))
