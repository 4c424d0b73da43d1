-- ===== src/Raft/Tests.antt =====
-- Raft on concrete peers: the cases that the theorems apply to.
mod Coding
mod Votes
mod Peers
mod Replicas
mod Append
mod Leader
mod Cuts
mod Restarts
mod Applying
use mit6_824_labs.Prelude.{ℕ, List, [], ◌∷◌, Option, none, some, false}
use mit6_824_labs.Prelude.Int.{pos}
use mit6_824_labs.Raft.Types.{Raft, LogEntry, Role, no_vote}
use mit6_824_labs.Raft.Persist.{make_persister}
pub use mit6_824_labs.Raft.Tests.Coding.{coding, coding-IsLossless}

abbrev pub at_term : ℕ → ℕ → LogEntry ℕ
at_term term cmd = record { term = term; cmd = some cmd }

-- Entry 0 of a log behind no snapshot.
abbrev pub start_of_log : LogEntry ℕ
start_of_log = record { term = 0; cmd = none }

abbrev pub short_log : List (LogEntry ℕ)
short_log = start_of_log ∷ at_term 1 7 ∷ at_term 1 8 ∷ at_term 2 9 ∷ []

-- Peer 0 of three, in term 2 and with one entry committed.
abbrev pub peer : Raft ℕ
peer = record {
  peers = 3;
  persister = make_persister;
  me = 0;
  dead = false;
  current_term = 2;
  voted_for = no_vote;
  state = Role.follower;
  logs = short_log;
  commit_index = 1;
  last_applied = 0;
  next_index = pos 4 ∷ pos 4 ∷ pos 4 ∷ [];
  match_index = 0 ∷ 0 ∷ 0 ∷ [];
  snapshot = [];
  last_included_index = 0;
  replicate_pre_snapshot = false;
  events = [];
}

-- The leader of term 3 with a log that two peers have up to entry 4.
abbrev pub leader : Raft ℕ
leader = record peer {
  me = 1;
  current_term = 3;
  voted_for = pos 1;
  state = Role.leader;
  logs = start_of_log ∷ at_term 1 7 ∷ at_term 1 8 ∷ at_term 3 4 ∷ at_term 3 5 ∷ [];
  next_index = pos 3 ∷ pos 5 ∷ pos 5 ∷ [];
  match_index = 0 ∷ 4 ∷ 4 ∷ [];
}

abbrev pub state_after : {R : Type 0} → Raft ℕ → Option (Raft ℕ × R) → Raft ℕ
state_after rf none = rf
state_after rf (some (rf', reply)) = rf'

abbrev pub or_else : Raft ℕ → Option (Raft ℕ) → Raft ℕ
or_else rf none = rf
or_else rf (some rf') = rf'
