-- ===== src/KvRaft/Server.antt =====
-- src/kvraft/server.go: the two RPC handlers, each in the part before and the part behind its wait,
-- the loop that applies what Raft commits, and snapshots.
pub mod Dedup
pub mod Replicas
pub mod Snapshots
pub mod Answers
use Prim.Native.String.{String}
use mit6_824_labs.Prelude.{
  ℕ, zero, suc, ◌*◌, List, [], ◌∷◌, ◌++◌, Option, none, some, Bool, true, false, length, ltb, leb,
  ◌>>=◌, if◌then◌else◌, ◌&&◌,
}
use mit6_824_labs.Prelude.Int.{ℤ, pos, negsuc}
use mit6_824_labs.GoMap.{GoMap, Eq, nat_eq, string_eq, int_eq, ◌==◌, lookup, insert, delete}
use mit6_824_labs.Raft.Types.{Bytes, Persister, PersistentStatus, ApplyMsg}
use mit6_824_labs.Raft.Persist.{Codec, make, raft_state_size, read_snapshot}
use mit6_824_labs.Raft.Leader.{start, kill as raft_kill}
use mit6_824_labs.Raft.Snapshot.{snapshot as raft_snapshot}
use mit6_824_labs.KvRaft.Types.{
  Op, Err, ReqIdentification, PutAppendArgs, PutAppendReply, GetArgs, GetReply, SnapshotStatus,
  KvServer, get_op, put_op, append_op,
}

unfoldable pub clean : ℤ → KvServer → KvServer
clean i kv = record kv { wake_client = delete i kv.wake_client }

-- kv.wakeClient[index] = make(chan reqIdentification)
unfoldable pub await : ℤ → KvServer → KvServer
await i kv = record kv { wake_client = insert i [] kv.wake_client }

-- What a handler does up to its wait: it has replied, or waits on the channel of an index.
pub data Began (R : Type 0) : Type 0 where
  replied : R → Began R
  waits : ℤ → Began R

abbrev pub get_wrong_leader : GetReply
get_wrong_leader = record { leader = false; err = Err.err_wrong_leader; value = [] }

abbrev pub put_wrong_leader : PutAppendReply
put_wrong_leader = record { leader = false; err = Err.err_wrong_leader }

-- r.ClientId == args.ClientId && r.SequenceId == args.SequenceId
abbrev pub answers : ReqIdentification → ℕ → ℕ → Bool
answers r client_id sequence_id = (r.client_id == client_id) && (r.sequence_id == sequence_id)

-- seq, ok := kv.duptable[id]; ok && seq >= id'
unfoldable pub is_duplicate : GoMap ℕ ℕ → ℕ → ℕ → Bool
is_duplicate duptable client_id sequence_id = elim (lookup client_id duptable) [
  | none ↦ false
  | some seq ↦ leb sequence_id seq
]

-- The switch of apply() on the operation.
unfoldable pub apply_data : Op → GoMap String Bytes → GoMap String Bytes
apply_data op contents =
    if op.type == put_op
    then insert op.key op.value contents
    else if op.type == append_op
    then elim (lookup op.key contents) [
      | some old ↦ insert op.key (old ++ op.value) contents
      | none ↦ insert op.key op.value contents
    ]
    else contents

-- A command that is not a duplicate enters the table and the data.
unfoldable pub apply_op : KvServer → Op → KvServer
apply_op kv op = if is_duplicate kv.duptable op.client_id op.sequence_id then kv else record kv {
  duptable = insert op.client_id op.sequence_id kv.duptable;
  contents = apply_data op kv.contents;
}

-- The send on the channel of the command's index, if a handler has made one. The model's channel
-- takes it at once.
unfoldable pub wake : ℕ → Op → KvServer → KvServer
wake index op kv = elim (lookup (pos index) kv.wake_client) [
  | none ↦ kv
  | some sent ↦ record kv {
    wake_client =
        insert (pos index)
          (sent
            ++ record { client_id = op.client_id; sequence_id = op.sequence_id; err = Err.ok } ∷ [])
          kv.wake_client;
  }
]

-- float64(size) / float64(max) >= 0.9, exact while both are far below 2 ^ 53.
unfoldable pub reaches_threshold : ℕ → ℤ → Bool
reaches_threshold size (negsuc n) = false
reaches_threshold size (pos zero) = ltb 0 size
reaches_threshold size (pos (suc m)) = leb (9 * suc m) (10 * size)

module _ (gob : Codec (PersistentStatus Op)) (snap : Codec SnapshotStatus) where
  -- Get up to its wait.
  unfoldable pub get_begin : KvServer → GetArgs → Option (KvServer × Began GetReply)
  get_begin kv args = do
    (rf, (index, _, leads)) ← start gob kv.rf (record {
      type = get_op;
      key = args.key;
      value = [];
      client_id = args.client_id;
      sequence_id = args.sequence_id;
    })
    some (
        if leads
        then (await index (record kv { rf = rf }), Began.waits index)
        else (record kv { rf = rf }, Began.replied get_wrong_leader))

  -- PutAppend up to its wait.
  unfoldable pub put_append_begin :
      KvServer → PutAppendArgs → Option (KvServer × Began PutAppendReply)
  put_append_begin kv args =
      if is_duplicate kv.duptable args.client_id args.sequence_id
      then some (kv, Began.replied (record { leader = true; err = Err.ok }))
      else do
        (rf, (index, _, leads)) ← start gob kv.rf (record {
          type = args.op;
          key = args.key;
          value = args.value;
          client_id = args.client_id;
          sequence_id = args.sequence_id;
        })
        some (
            if leads
            then (await index (record kv { rf = rf }), Began.waits index)
            else (record kv { rf = rf }, Began.replied put_wrong_leader))

  -- The periodic snapshot behind the command of an index.
  unfoldable pub take_snapshot : ℕ → KvServer → Option KvServer
  take_snapshot index kv =
      if reaches_threshold (raft_state_size kv.rf.persister) kv.maxraftstate
      then elim (snap.encode (record { contents = kv.contents; duptable = kv.duptable })) [
        | none ↦ some kv
        | some bytes ↦ (do rf ← raft_snapshot gob kv.rf index bytes; some (record kv { rf = rf }))
      ]
      else some kv

  -- A committed command; the type assertion panics on nil.
  unfoldable pub apply_command : KvServer → ApplyMsg Op → Option KvServer
  apply_command kv msg = if leb msg.command_index kv.last_applied then some kv else do
    op ← msg.command
    take_snapshot msg.command_index
        (record (wake msg.command_index op (apply_op kv op)) { last_applied = msg.command_index })

  -- A snapshot; `false` ends the loop.
  unfoldable pub apply_snapshot : KvServer → ApplyMsg Op → KvServer × Bool
  apply_snapshot kv msg = elim (snap.decode msg.snapshot) [
    | none ↦ (kv, false)
    | some st ↦ (
      record kv {
        last_applied = msg.snapshot_index;
        contents = st.contents;
        duptable = st.duptable;
      },
      true,
    )
  ]

  -- One message of apply(); `false` ends the loop.
  unfoldable pub apply_msg : KvServer → ApplyMsg Op → Option (KvServer × Bool)
  apply_msg kv msg =
      if kv.dead
      then some (kv, false)
      else if msg.command_valid
      then (do kv' ← apply_command kv msg; some (kv', true))
      else if msg.snapshot_valid
      then some (apply_snapshot kv msg)
      else some (kv, true)

  -- The loop of apply() over the messages that come.
  unfoldable pub apply : KvServer → List (ApplyMsg Op) → Option KvServer
  apply kv [] = some kv
  apply kv (msg ∷ msgs) = do
    (kv', goes_on) ← apply_msg kv msg
    elim goes_on [ true ↦ apply kv' msgs | false ↦ some kv' ]

  unfoldable pub read_persist : KvServer → KvServer
  read_persist kv =
      let bytes = read_snapshot kv.rf.persister in
      if ltb (length bytes) 1 then kv else elim (snap.decode bytes) [
        | none ↦ kv
        | some st ↦ record kv { contents = st.contents; duptable = st.duptable }
      ]

  unfoldable pub start_kv_server : ℕ → ℕ → Persister → ℤ → Option KvServer
  start_kv_server servers me persister maxraftstate = do
    rf ← make gob servers me persister
    some (
        read_persist (record {
          me = me;
          rf = rf;
          dead = false;
          maxraftstate = maxraftstate;
          last_applied = 0;
          duptable = [];
          contents = [];
          wake_client = [];
        }))

-- Behind the wait of Get: `none` is the time-out. The channel is cleaned up in any case.
unfoldable pub get_end : KvServer → ℤ → GetArgs → Option ReqIdentification → KvServer × GetReply
get_end kv index args none = (clean index kv, get_wrong_leader)
get_end kv index args (some r) = (
  clean index kv,
  if answers r args.client_id args.sequence_id
      then elim (lookup args.key kv.contents) [
        | some value ↦ record { leader = true; err = Err.ok; value = value }
        | none ↦ record { leader = true; err = Err.err_no_key; value = [] }
      ]
      else get_wrong_leader,
)

-- Behind the wait of PutAppend.
unfoldable pub put_append_end :
    KvServer → ℤ → PutAppendArgs → Option ReqIdentification → KvServer × PutAppendReply
put_append_end kv index args none = (clean index kv, put_wrong_leader)
put_append_end kv index args (some r) = (
  clean index kv,
  if answers r args.client_id args.sequence_id
      then record { leader = true; err = Err.ok }
      else put_wrong_leader,
)

unfoldable pub kill : KvServer → KvServer
kill kv = record kv { dead = true; rf = raft_kill kv.rf }

unfoldable pub killed : KvServer → Bool
killed kv = kv.dead
