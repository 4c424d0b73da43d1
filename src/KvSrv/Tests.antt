-- ===== src/KvSrv/Tests.antt =====
-- The one-server service on a concrete clerk, network and history.
use mit6_824_labs.Prelude.{ℕ, ◌≡◌, refl, arith, List, [], ◌∷◌, ◌++◌, true}
use mit6_824_labs.GoMap.{string_eq, nat_eq, lookup, insert, delete}
use mit6_824_labs.Models.{partition}
use mit6_824_labs.KvSrv.Server.{
  RequestType, PutAppendArgs, PutAppendReply, KvServer, value_at, put, append, forget, modify_put,
  modify_append,
}
use mit6_824_labs.KvSrv.Server.Model.{
  Request, AllNew, IsNew, serve as serve_request, legal, operations_at, history, server_refines,
}
use mit6_824_labs.KvSrv.Clerk.{Method, Event, handle, call_until}
use mit6_824_labs.KvSrv.Clerk.Once.{others, serve, Unused, call_once}

abbrev appends : ℕ → ℕ → PutAppendArgs
appends id byte = record {
  key = "k";
  value = byte ∷ [];
  request_id = id;
  request_type = RequestType.modify;
}

abbrev empty_server : KvServer
empty_server = record { contents = []; message_map = [] }

-- The first answer gets lost, another client appends in between, and the retry succeeds.
abbrev events : List Event
events =
    Event.lost
    ∷ Event.reply_lost
    ∷ Event.other Method.append_op (appends 2 9)
    ∷ Event.delivered
    ∷ []

abbrev behind : KvServer
behind = record { contents = ("k", 5 ∷ 9 ∷ []) ∷ []; message_map = (1, []) ∷ (2, 5 ∷ []) ∷ [] }

abbrev answer : PutAppendReply
answer = record { value = [] }

call_once_example :
    (before after : List (Method × PutAppendArgs)) × (others events ≡ before ++ after ++ others [])
    × (behind ≡ serve (handle Method.append_op (appends 1 5) (serve empty_server before)).0 after)
    × (answer ≡ (handle Method.append_op (appends 1 5) (serve empty_server before)).1)
unfolding call_until handle put append modify_put modify_append forget value_at lookup insert Unused
call_once_example =
    call_once Method.append_op (appends 1 5) empty_server events {kv' = behind} {r = answer}
      {rest = []} refl (refl, tt) refl refl

abbrev requests : List Request
requests =
    Request.appends (appends 1 5)
    ∷ Request.puts (record (appends 3 8) { key = "j" })
    ∷ Request.appends (record (appends 1 5) { request_type = RequestType.report })
    ∷ Request.appends (appends 1 6)
    ∷ Request.reads (record { key = "k" })
    ∷ []

requests-AllNew : AllNew empty_server requests
unfolding AllNew IsNew serve_request put append modify_put modify_append forget value_at lookup
    insert delete
requests-AllNew = (λ m. refl, (λ m. refl, (λ m. absurd (ground arith), (λ m. refl, (tt, tt)))))

server_refines_example :
    legal [] (operations_at "k" (partition [] (history empty_server requests))) ≡ true
unfolding value_at lookup
server_refines_example = server_refines empty_server requests "k" requests-AllNew
