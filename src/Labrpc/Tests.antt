-- ===== src/Labrpc/Tests.antt =====
-- An end that is connected to a server, which is deleted and started anew.
use Prim.Native.String.{String}
use mit6_824_labs.Prelude.{ℕ, ◌≡◌, refl, [], ◌∷◌, some, true, false, arith, none}
use mit6_824_labs.GoMap.{nat_eq, string_eq, lookup, insert}
use mit6_824_labs.Labrpc.{
  Network, ReplyMsg, Sent, Tick, deliver, failed, make_network, make_end, add_server, connect,
  enable, target, delete_server, is_server_dead, await_reply, answer, process_req,
}
use mit6_824_labs.Labrpc.Deleted.{Change, deleted_answers_nothing}

-- Server 1, at address 10, behind the end "e".
abbrev connected : Network String ℕ
connected = record {
  reliable = true;
  long_delays = false;
  long_reordering = false;
  ends = ("e", true) ∷ [];
  enabled = ("e", true) ∷ [];
  servers = (1, some 10) ∷ [];
  connections = ("e", some 1) ∷ [];
  count = 0;
  bytes = 0;
}

abbrev empty : Network String ℕ
empty = make_network

abbrev with_end : Network String ℕ
with_end = record empty {
  ends = ("e", true) ∷ [];
  enabled = ("e", false) ∷ [];
  connections = ("e", none) ∷ [];
}

end_made : make_end empty "e" ≡ some with_end
unfolding make_end make_network lookup insert
end_made = refl

connected_reached : enable (connect (add_server with_end 1 10) "e" 1) "e" true ≡ connected
unfolding make_network add_server connect enable lookup insert
connected_reached = refl

abbrev restarted : Network String ℕ
restarted = add_server (delete_server connected 1) 1 11

abbrev at_once : ReplyMsg → Sent
at_once msg = record { message = msg; delayed = false }

abbrev seven : ReplyMsg
seven = record { ok = true; reply = 7 ∷ [] }

no_reply :
    process_req connected restarted "e" false false false (Tick.returns ∷ []) (7 ∷ [])
    ≡ some (at_once failed)
unfolding process_req delete_server add_server target await_reply answer is_server_dead lookup
    insert
no_reply = refl

deleted_answers_nothing_example :
    (false ≡ false) × (deliver connected (at_once failed) ≡ (connected, failed))
unfolding process_req delete_server add_server target await_reply answer is_server_dead lookup
    insert
deleted_answers_nothing_example =
    deleted_answers_nothing connected connected connected "e" 1 10 (Change.adds 1 11 ∷ []) false
      false false (Tick.returns ∷ []) (7 ∷ []) (at_once failed) refl
      ((λ e. absurd (ground (arith, e))), tt) refl

-- An end that stays connected gets the reply.
reply_comes :
    process_req connected connected "e" false false false (Tick.returns ∷ []) (7 ∷ [])
    ≡ some (at_once seven)
unfolding process_req target await_reply answer is_server_dead lookup
reply_comes = refl

abbrev reordering : Network String ℕ
reordering = record connected { long_reordering = true }

-- A reply that is delayed comes though the server is deleted in the delay.
late_reply_comes :
    process_req reordering reordering "e" false false true (Tick.returns ∷ []) (7 ∷ [])
    ≡ some (record { message = seven; delayed = true })
unfolding process_req target await_reply answer is_server_dead lookup
late_reply_comes = refl

late_reply_delivered : (deliver restarted (record { message = seven; delayed = true })).1 ≡ seven
unfolding deliver
late_reply_delivered = refl
