-- ===== src/KvRaft/Tests.antt =====
-- The key/value service on concrete servers, clerks and messages.
pub mod Coding
mod Waiting
use mit6_824_labs.Prelude.{
  ℕ, ◌≡◌, refl, List, [], ◌∷◌, Option, none, some, Bool, true, false, arith, if◌then◌else◌, ◌==◌,
}
use mit6_824_labs.Prelude.Int.{pos, minus_one}
use mit6_824_labs.GoMap.{int_eq, lookup, insert}
use mit6_824_labs.Raft.Types.{ApplyMsg, PersistentStatus}
use mit6_824_labs.Raft.Persist.{
  persist, save, clone, raft_state_size, Codec, initial, make_persister,
}
use mit6_824_labs.KvRaft.Types.{
  Op, PutAppendArgs, ReqIdentification, KvServer, SnapshotStatus, GetReply, Err, append_op,
}
use mit6_824_labs.KvRaft.Server.Answers.{waiter_answers}
use mit6_824_labs.KvRaft.Server.Snapshots.{snapshot_restores}
use mit6_824_labs.KvRaft.Tests.Coding.{gob, gob-IsLossless, snap, snap-IsLossless}
use mit6_824_labs.Raft.Persist.Restart.{restarted}
use mit6_824_labs.Raft.Snapshot.{snapshot, cut_log}
use mit6_824_labs.KvRaft.Server.{
  start_kv_server, put_append_end, apply_op, apply, apply_msg, apply_command, apply_snapshot,
  apply_data, is_duplicate, wake, take_snapshot, reaches_threshold,
}
use mit6_824_labs.KvRaft.Server.Dedup.{apply_once, apply_ops}
use mit6_824_labs.KvRaft.Server.Replicas.{Same, replicas_agree}
use mit6_824_labs.KvRaft.Clerk.{retry}
use mit6_824_labs.KvRaft.Clerk.Retry.{retry_finds_leader}

-- Codecs that no case here depends on: Raft's never encodes, and the service's reads any bytes as
-- one key.
abbrev no_gob : Codec (PersistentStatus Op)
no_gob = record { encode = λ st. none; decode = λ b. none }

abbrev one_key : Codec SnapshotStatus
one_key = record {
  encode = λ st. none;
  decode = λ b. some (record { contents = ("k", b) ∷ []; duptable = (7, 2) ∷ [] });
}

abbrev appends : ℕ → Op
appends sequence_id = record {
  type = append_op;
  key = "k";
  value = sequence_id ∷ [];
  client_id = 7;
  sequence_id = sequence_id;
}

abbrev server : ℕ → KvServer
server me = record {
  me = me;
  rf = initial no_gob 3 me make_persister;
  dead = false;
  maxraftstate = minus_one;
  last_applied = 0;
  duptable = [];
  contents = [];
  wake_client = [];
}

apply_once_example :
    apply_op (apply_ops (apply_op (server 0) (appends 3)) (appends 4 ∷ [])) (appends 3)
    ≡ apply_ops (apply_op (server 0) (appends 3)) (appends 4 ∷ [])
apply_once_example =
    apply_once (server 0) (appends 3) (appends 3) (appends 4 ∷ []) refl (omega arith)

-- A snapshot up to entry 2, a command, and the same request again.
abbrev snapshot_message : ApplyMsg Op
snapshot_message = record {
  command_valid = false;
  command = none;
  command_index = 0;
  snapshot_valid = true;
  snapshot = 1 ∷ 2 ∷ [];
  snapshot_term = 1;
  snapshot_index = 2;
}

abbrev command_message : ℕ → ApplyMsg Op
command_message index = record {
  command_valid = true;
  command = some (appends 3);
  command_index = index;
  snapshot_valid = false;
  snapshot = [];
  snapshot_term = 0;
  snapshot_index = 0;
}

abbrev messages : List (ApplyMsg Op)
messages = snapshot_message ∷ command_message 3 ∷ command_message 4 ∷ []

abbrev or_else : KvServer → Option KvServer → KvServer
or_else kv none = kv
or_else kv (some kv') = kv'

-- One replica waits for entry 3.
abbrev waiting : KvServer
waiting = record (server 1) { wake_client = (pos 3, []) ∷ [] }

abbrev left : KvServer
left = or_else (server 0) (apply no_gob one_key (server 0) messages)

abbrev right : KvServer
right = or_else waiting (apply no_gob one_key waiting messages)

replicas_agree_example : Same left right
unfolding apply apply_msg apply_command apply_snapshot apply_op apply_data is_duplicate wake
    take_snapshot reaches_threshold lookup insert
replicas_agree_example =
    replicas_agree no_gob one_key (server 0) waiting messages left right
      (record { contents = refl; duptable = refl; last_applied = refl; dead = refl }) refl refl

-- Server 2 leads; calls to server 1 fail.
abbrev answer : Bool → GetReply
answer leads = record { leader = leads; err = Err.ok; value = 5 ∷ [] }

abbrev call : ℕ → ℕ → Option GetReply
call round s = if s == 1 then none else some (answer (s == 2))

retry_finds_leader_example :
    (reply : GetReply) × (s : ℕ) × (retry call (λ r. r.leader) 3 3 0 0 ≡ some (reply, s))
    × ((r : ℕ) × (call r s ≡ some reply) × (reply.leader ≡ true))
retry_finds_leader_example =
    retry_finds_leader call (λ r. r.leader) 3 3 0 2 (omega arith) (omega arith)
      (λ r. (answer true, refl, refl)) (omega arith)

abbrev put_append_args : PutAppendArgs
put_append_args = record {
  key = "k";
  value = 3 ∷ [];
  op = append_op;
  client_id = 7;
  sequence_id = 3;
}

abbrev woken : KvServer
woken = or_else waiting (apply_command no_gob one_key waiting (command_message 3))

waiter_answers_example :
    (r : ReqIdentification) × (lookup (pos 3) woken.wake_client ≡ some (r ∷ []))
    × ((put_append_end woken (pos 3) put_append_args (some r)).1
        ≡ record { leader = true; err = Err.ok })
    × (is_duplicate woken.duptable 7 3 ≡ true)
unfolding apply_command apply_op apply_data is_duplicate wake take_snapshot reaches_threshold lookup
    insert
waiter_answers_example =
    waiter_answers no_gob one_key waiting (command_message 3) (appends 3) put_append_args woken refl
      refl refl refl

-- A server past its threshold, whose Raft has committed the entry that put the data there.
abbrev full : KvServer
full = record (server 0) {
  rf = record (initial gob 3 0 make_persister) {
    current_term = 1;
    logs = record { term = 0; cmd = none } ∷ record { term = 1; cmd = some (appends 3) } ∷ [];
    commit_index = 1;
    persister = record { raftstate = 1 ∷ 2 ∷ []; snapshot = [] };
  };
  maxraftstate = pos 2;
  contents = ("k", 3 ∷ []) ∷ [];
  duptable = (7, 3) ∷ [];
}

abbrev cut : KvServer
cut = or_else full (take_snapshot gob snap 1 full)

snapshot_restores_example :
    (kv : KvServer) × (start_kv_server gob snap cut.rf.peers cut.rf.me cut.rf.persister (pos 2)
      ≡ some kv)
    × (kv.contents ≡ ("k", 3 ∷ []) ∷ [])
    × (kv.duptable ≡ (7, 3) ∷ [])
    × (kv.rf ≡ restarted gob cut.rf)
unfolding take_snapshot reaches_threshold raft_state_size snapshot cut_log persist save clone
    initial
snapshot_restores_example =
    snapshot_restores gob snap gob-IsLossless snap-IsLossless full 1 (pos 2) cut refl refl
      (omega arith) (omega arith)
