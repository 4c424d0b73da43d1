-- ===== src/Labrpc.antt =====
-- src/labrpc/labrpc.go: the simulated network. A server is known by the address of its Server; random
-- numbers and the clock are arguments; reflection and labgob, which a server's dispatch uses to call a
-- method, are left out: its reply is an argument.
pub mod Deleted
mod Tests
use mit6_824_labs.Prelude.{
  ℕ, ◌+◌, List, [], ◌∷◌, Option, none, some, Bool, true, false, length, ◌==◌, ◌>>=◌, if◌then◌else◌,
}
use mit6_824_labs.GoMap.{GoMap, Eq, lookup, insert, delete}
use mit6_824_labs.Raft.Types.{Bytes}

pub record ReplyMsg : Type 0 where
  pub ok : Bool
  pub reply : Bytes

-- `ends` has the names only; a missing or nil entry of the other maps is `none` or false.
pub record Network (End Name : Type 0) : Type 0 where
  pub reliable : Bool
  pub long_delays : Bool
  pub long_reordering : Bool
  pub ends : GoMap End Bool
  pub enabled : GoMap End Bool
  pub servers : GoMap Name (Option ℕ)
  pub connections : GoMap End (Option Name)
  pub count : ℕ
  pub bytes : ℕ

-- What comes to processReq while it waits: the handler's reply, or 100 ms with the network as it is
-- then.
pub data Tick (End Name : Type 0) : Type 0 where
  returns : Tick End Name
  passes : Network End Name → Tick End Name

-- What goes over replyCh: at once, or when a timer has run out.
pub record Sent : Type 0 where
  pub message : ReplyMsg
  pub delayed : Bool

abbrev pub failed : ReplyMsg
failed = record { ok = false; reply = [] }

abbrev join : {A : Type 0} → Option (Option A) → Option A
join none = none
join (some o) = o

abbrev is_true : Option Bool → Bool
is_true none = false
is_true (some b) = b

abbrev pub is_address : Option ℕ → ℕ → Bool
is_address none a = false
is_address (some b) a = b == a

module _ {End Name : Type 0} ⦃ends : Eq End⦄ ⦃names : Eq Name⦄ where
  unfoldable pub make_network : Network End Name
  make_network = record {
    reliable = true;
    long_delays = false;
    long_reordering = false;
    ends = [];
    enabled = [];
    servers = [];
    connections = [];
    count = 0;
    bytes = 0;
  }

  -- What the network's goroutine does with a request before it starts processReq.
  unfoldable pub accept : Network End Name → Bytes → Network End Name
  accept rn args = record rn { count = rn.count + 1; bytes = rn.bytes + length args }

  -- log.Fatalf ends the program.
  unfoldable pub make_end : Network End Name → End → Option (Network End Name)
  make_end rn endname = elim (lookup endname rn.ends) [
    | some b ↦ none
    | none ↦ some (record rn {
      ends = insert endname true rn.ends;
      enabled = insert endname false rn.enabled;
      connections = insert endname none rn.connections;
    })
  ]

  unfoldable pub delete_end : Network End Name → End → Option (Network End Name)
  delete_end rn endname = elim (lookup endname rn.ends) [
    | none ↦ none
    | some b ↦ some (record rn {
      ends = delete endname rn.ends;
      enabled = delete endname rn.enabled;
      connections = delete endname rn.connections;
    })
  ]

  unfoldable pub add_server : Network End Name → Name → ℕ → Network End Name
  add_server rn servername rs = record rn { servers = insert servername (some rs) rn.servers }

  unfoldable pub delete_server : Network End Name → Name → Network End Name
  delete_server rn servername = record rn { servers = insert servername none rn.servers }

  unfoldable pub connect : Network End Name → End → Name → Network End Name
  connect rn endname servername = record rn {
    connections = insert endname (some servername) rn.connections;
  }

  unfoldable pub enable : Network End Name → End → Bool → Network End Name
  enable rn endname enabled = record rn { enabled = insert endname enabled rn.enabled }

  -- The name and the server of an end that is enabled, as readEndnameInfo and the test behind it
  -- find them.
  unfoldable pub target : Network End Name → End → Option (Name × ℕ)
  target rn endname =
      if is_true (lookup endname rn.enabled)
      then (do
        servername ← join (lookup endname rn.connections)
        server ← join (lookup servername rn.servers)
        some (servername, server))
      else none

  unfoldable pub is_server_dead : Network End Name → End → Name → ℕ → Bool
  is_server_dead rn endname servername server =
      if is_true (lookup endname rn.enabled)
      then (if is_address (join (lookup servername rn.servers)) server then false else true)
      else true

  -- The waiting loop: whether the reply came; `none` while it goes on.
  unfoldable pub await_reply : End → Name → ℕ → List (Tick End Name) → Option Bool
  await_reply endname servername server [] = none
  await_reply endname servername server (Tick.returns ∷ ticks) = some true
  await_reply endname servername server (Tick.passes rn ∷ ticks) =
      let rest = await_reply endname servername server ticks in
      if is_server_dead rn endname servername server then some false else rest

  -- Behind the loop, with the network as it is at that look; `reorder` is the draw of 600 in 900.
  unfoldable pub answer :
      Network End Name → Network End Name → Bool → Bool → End → Name → ℕ → Bool → Bytes → Sent
  answer rn rn' drop_reply reorder endname servername server reply_ok reply =
      if (if reply_ok then is_server_dead rn' endname servername server else true)
      then record { message = failed; delayed = false }
      else if (if rn.reliable then false else drop_reply)
      then record { message = failed; delayed = false }
      else record {
        message = record { ok = true; reply = reply };
        delayed = if rn.long_reordering then reorder else false;
      }

  -- processReq for a request of an end: the network at its begin and at the last look behind its
  -- wait, the draws, and what the handler replies; `none` while it waits. An end without a server
  -- gets its failure behind a delay.
  unfoldable pub process_req :
      Network End Name
      → Network End Name
      → End
      → Bool
      → Bool
      → Bool
      → List (Tick End Name)
      → Bytes
      → Option Sent
  process_req rn rn' endname drop_request drop_reply reorder ticks reply =
      elim (target rn endname) [
        | none ↦ some (record { message = failed; delayed = true })
        | some (servername, server) ↦
            if (if rn.reliable then false else drop_request)
            then some (record { message = failed; delayed = false })
            else do
              reply_ok ← await_reply endname servername server ticks
              some (answer rn rn' drop_reply reorder endname servername server reply_ok reply)
      ]

  -- The send itself, with the network as it is by then; it looks at no server again.
  unfoldable pub deliver : Network End Name → Sent → Network End Name × ReplyMsg
  deliver rn sent = (
    if sent.message.ok then record rn { bytes = rn.bytes + length sent.message.reply } else rn,
    sent.message,
  )
