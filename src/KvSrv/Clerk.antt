-- ===== src/KvSrv/Clerk.antt =====
-- src/kvsrv/client.go: a clerk that sends a request until a call succeeds, then reports it until
-- that succeeds. What the network and the other clients do meanwhile is an argument.
pub mod Once
use Prim.Native.String.{String}
use mit6_824_labs.Prelude.{ℕ, List, [], ◌∷◌, Option, none, some, ◌>>=◌}
use mit6_824_labs.Raft.Types.{Bytes}
use mit6_824_labs.KvSrv.Server.{
  RequestType, PutAppendArgs, PutAppendReply, GetArgs, GetReply, KvServer, get as get_handler, put,
  append,
}

-- The two methods PutAppend is called with.
pub data Method : Type 0 where
  put_op append_op : Method

-- A round of Call: it gets lost on its way, is answered but the answer gets lost, or succeeds; or
-- the server answers another client.
pub data Event : Type 0 where
  lost reply_lost delivered : Event
  other : Method → PutAppendArgs → Event

-- server.Call("KVServer."+op, …) when it arrives
unfoldable pub handle : Method → PutAppendArgs → KvServer → KvServer × PutAppendReply
handle put_op args kv = put kv args
handle append_op args kv = append kv args

-- for !ck.server.Call(…) {}; `none` if the events end before a call succeeds.
unfoldable pub call_until :
    Method → PutAppendArgs → KvServer → List Event → Option (KvServer × PutAppendReply × List Event)
call_until op args kv [] = none
call_until op args kv (Event.lost ∷ es) = call_until op args kv es
call_until op args kv (Event.reply_lost ∷ es) = call_until op args (handle op args kv).0 es
call_until op args kv (Event.delivered ∷ es) =
    some ((handle op args kv).0, (handle op args kv).1, es)
call_until op args kv (Event.other op' args' ∷ es) = call_until op args (handle op' args' kv).0 es

-- PutAppend; the random RequestId is an argument.
unfoldable pub put_append :
    String → Bytes → Method → ℕ → KvServer → List Event → Option (KvServer × Bytes × List Event)
put_append key value op nrand kv es = do
  (kv₁, reply, es₁) ←
      call_until op
        (record { key = key; value = value; request_id = nrand; request_type = RequestType.modify })
        kv es
  (kv₂, _, es₂) ←
      call_until op
        (record { key = key; value = value; request_id = nrand; request_type = RequestType.report })
        kv₁ es₁
  some (kv₂, reply.value, es₂)

-- Get; a call changes nothing at the server.
unfoldable pub get : String → KvServer → List Event → Option (KvServer × Bytes × List Event)
get key kv [] = none
get key kv (Event.lost ∷ es) = get key kv es
get key kv (Event.reply_lost ∷ es) = get key kv es
get key kv (Event.delivered ∷ es) =
    let reply = get_handler kv (record { key = key }) in some (kv, reply.value, es)
get key kv (Event.other op' args' ∷ es) = get key (handle op' args' kv).0 es
