-- ===== src/KvRaft/Types.antt =====
-- src/kvraft/common.go and the types of server.go. Keys and operation names are native texts, and
-- values, which are only joined, are their bytes. int64 numbers are the client's and count up from 0.
use Prim.Native.String.{String}
use mit6_824_labs.Prelude.{ℕ, Bool, List}
use mit6_824_labs.Prelude.Int.{ℤ}
use mit6_824_labs.GoMap.{GoMap}
use mit6_824_labs.Raft.Types.{Bytes, Raft}

-- The three values of OpType; PutAppend makes one of any string.
abbrev pub get_op : String
get_op = "Get"

abbrev pub put_op : String
put_op = "Put"

abbrev pub append_op : String
append_op = "Append"

pub record Op : Type 0 where
  pub type : String
  pub key : String
  pub value : Bytes
  pub client_id : ℕ
  pub sequence_id : ℕ

-- OK, ErrNoKey, ErrWrongLeader
pub data Err : Type 0 where
  ok err_no_key err_wrong_leader : Err

pub record ReqIdentification : Type 0 where
  pub client_id : ℕ
  pub sequence_id : ℕ
  pub err : Err

pub record PutAppendArgs : Type 0 where
  pub key : String
  pub value : Bytes
  pub op : String
  pub client_id : ℕ
  pub sequence_id : ℕ

pub record PutAppendReply : Type 0 where
  pub leader : Bool
  pub err : Err

pub record GetArgs : Type 0 where
  pub key : String
  pub client_id : ℕ
  pub sequence_id : ℕ

pub record GetReply : Type 0 where
  pub leader : Bool
  pub err : Err
  pub value : Bytes

pub record SnapshotStatus : Type 0 where
  pub contents : GoMap String Bytes
  pub duptable : GoMap ℕ ℕ

-- `contents` is the field data, and the persister is that of `rf`. A channel of wakeClient is the
-- list of what was sent on it.
pub record KvServer : Type 0 where
  pub me : ℕ
  pub rf : Raft Op
  pub dead : Bool
  pub maxraftstate : ℤ
  pub last_applied : ℕ
  pub duptable : GoMap ℕ ℕ
  pub contents : GoMap String Bytes
  pub wake_client : GoMap ℤ (List ReqIdentification)
