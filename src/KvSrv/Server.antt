-- ===== src/KvSrv/Server.antt =====
-- src/kvsrv/server.go and common.go: the three handlers. Values are the bytes of a Go string, and a
-- read of a missing key gives the empty string.
pub mod Model
use Prim.Native.String.{String}
use mit6_824_labs.Prelude.{
  ℕ, List, [], ◌∷◌, ◌++◌, Option, none, some, Bool, true, false, if◌then◌else◌,
}
use mit6_824_labs.GoMap.{GoMap, nat_eq, string_eq, ◌==◌, lookup, insert, delete}
use mit6_824_labs.Raft.Types.{Bytes}

-- Modify and Report
pub data RequestType : Type 0 where
  modify report : RequestType

pub record PutAppendArgs : Type 0 where
  pub key : String
  pub value : Bytes
  pub request_id : ℕ
  pub request_type : RequestType

pub record PutAppendReply : Type 0 where
  pub value : Bytes

pub record GetArgs : Type 0 where
  pub key : String

pub record GetReply : Type 0 where
  pub value : Bytes

-- `contents` is the field data.
pub record KvServer : Type 0 where
  pub contents : GoMap String Bytes
  pub message_map : GoMap ℕ Bytes

-- m[key] on a map of strings
unfoldable pub value_at : String → GoMap String Bytes → Bytes
value_at key m = elim (lookup key m) [ none ↦ [] | some v ↦ v ]

unfoldable pub get : KvServer → GetArgs → GetReply
get kv args = record { value = value_at args.key kv.contents }

-- Both handlers take the record of a reported request away.
unfoldable pub forget : ℕ → KvServer → KvServer
forget id kv = record kv { message_map = delete id kv.message_map }

unfoldable pub modify_put : KvServer → PutAppendArgs → KvServer
modify_put kv args = elim (lookup args.request_id kv.message_map) [
  | some res ↦ kv
  | none ↦ record kv {
    contents = insert args.key args.value kv.contents;
    message_map = insert args.request_id args.value kv.message_map;
  }
]

unfoldable pub put : KvServer → PutAppendArgs → KvServer × PutAppendReply
put kv args = elim args.request_type [
  | report ↦ (forget args.request_id kv, record { value = [] })
  | modify ↦ (modify_put kv args, record { value = [] })
]

unfoldable pub modify_append : KvServer → PutAppendArgs → KvServer × PutAppendReply
modify_append kv args = elim (lookup args.request_id kv.message_map) [
  | some res ↦ (kv, record { value = res })
  | none ↦
      let old_value = value_at args.key kv.contents in
      (
        record kv {
          contents = insert args.key (old_value ++ args.value) kv.contents;
          message_map = insert args.request_id old_value kv.message_map;
        },
        record { value = old_value },
      )
]

unfoldable pub append : KvServer → PutAppendArgs → KvServer × PutAppendReply
append kv args = elim args.request_type [
  | report ↦ (forget args.request_id kv, record { value = [] })
  | modify ↦ modify_append kv args
]

unfoldable pub start_kv_server : KvServer
start_kv_server = record { contents = []; message_map = [] }
