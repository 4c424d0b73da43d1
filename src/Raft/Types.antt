-- ===== src/Raft/Types.antt =====
-- src/raft/raft_definition.go and persister.go: the state of a peer, the log entries, the
-- arguments and replies of the three RPCs, and what a peer hands to other goroutines.
use Prim.Native.String.{String}
use mit6_824_labs.Prelude.{ℕ, ◌%◌, ◌+◌, List, [], ◌∷◌, ◌++◌, Option, Bool}
use mit6_824_labs.Prelude.Int.{ℤ, minus_one}

-- []byte
abbrev pub Bytes : Type 0
Bytes = List ℕ

-- Follower, Candidate, Leader
pub data Role : Type 0 where
  follower candidate leader : Role

-- The labels of the debug output; every role has one.
unfoldable pub state_to_string : Role → String
state_to_string Role.follower = "follower"
state_to_string Role.candidate = "candidate"
state_to_string Role.leader = "leader"

-- -1
abbrev pub no_vote : ℤ
no_vote = minus_one

-- `Cmd interface{}` over the type C of the service's commands; `none` is nil.
pub record LogEntry (C : Type 0) : Type 0 where
  pub term : ℕ
  pub cmd : Option C

pub record ApplyMsg (C : Type 0) : Type 0 where
  pub command_valid : Bool
  pub command : Option C
  pub command_index : ℕ
  pub snapshot_valid : Bool
  pub snapshot : Bytes
  pub snapshot_term : ℕ
  pub snapshot_index : ℕ

pub record RequestVoteArgs : Type 0 where
  pub term : ℕ
  pub candidate_id : ℕ
  pub last_log_index : ℕ
  pub last_log_term : ℕ

pub record RequestVoteReply : Type 0 where
  pub term : ℕ
  pub vote_granted : Bool

pub record AppendEntriesArgs (C : Type 0) : Type 0 where
  pub term : ℕ
  pub leader_id : ℕ
  pub prev_log_index : ℕ
  pub prev_log_term : ℕ
  pub entries : List (LogEntry C)
  pub leader_commit : ℕ

pub record AppendEntriesReply : Type 0 where
  pub term : ℕ
  pub success : Bool
  pub x_term : ℤ
  pub x_index : ℤ
  pub x_len : ℕ

pub record PersistentStatus (C : Type 0) : Type 0 where
  pub logs : List (LogEntry C)
  pub current_term : ℕ
  pub voted_for : ℤ
  pub last_included_index : ℕ
  pub last_included_term : ℕ

pub record InstallSnapshotArgs : Type 0 where
  pub term : ℕ
  pub leader_id : ℕ
  pub last_included_index : ℕ
  pub last_included_term : ℕ
  pub bytes : Bytes

pub record InstallSnapshotReply : Type 0 where
  pub term : ℕ

-- persister.go
pub record Persister : Type 0 where
  pub raftstate : Bytes
  pub snapshot : Bytes

-- What a method leaves to timers, channels, condition variables and new goroutines.
pub data Event (C : Type 0) : Type 0 where
  reset_election_timer : Event C  -- electionTimer.Reset(randomElectionTimeout())
  reset_heartbeat_ticker : Event C  -- heartbeatTicker.Reset(HeartBeatTimeout())
  signal_applier : Event C  -- cond.Signal()
  wake_add_log : Event C  -- go func() { addLogSignal <- struct{}{} }()
  apply_snapshot : ApplyMsg C → Event C  -- the goroutine that sends a snapshot to applyMsg
  send_request_vote : ℕ → RequestVoteArgs → Event C
  send_append_entries : ℕ → AppendEntriesArgs C → Event C
  send_install_snapshot : ℕ → InstallSnapshotArgs → Event C

-- `peers` is len(rf.peers). The last field lists, oldest first, what was left to others.
pub record Raft (C : Type 0) : Type 0 where
  pub peers : ℕ
  pub persister : Persister
  pub me : ℕ
  pub dead : Bool
  pub current_term : ℕ
  pub voted_for : ℤ
  pub state : Role
  pub logs : List (LogEntry C)
  pub commit_index : ℕ
  pub last_applied : ℕ
  pub next_index : List ℤ
  pub match_index : List ℕ
  pub snapshot : Bytes
  pub last_included_index : ℕ
  pub replicate_pre_snapshot : Bool
  pub events : List (Event C)

unfoldable pub get_string_state : {C : Type 0} → Raft C → String
unfolding state_to_string
get_string_state rf = state_to_string rf.state

abbrev pub emit : {C : Type 0} → Event C → Raft C → Raft C
emit e rf = record rf { events = rf.events ++ e ∷ [] }

-- HeartBeatTimeout and randomElectionTimeout in milliseconds, the latter over a random number.
abbrev pub heart_beat_timeout : ℕ
heart_beat_timeout = 50

pub random_election_timeout : ℕ → ℕ
random_election_timeout r = 150 + r % 150
