-- ===== src/Raft/Group.antt =====
-- Several peers of src/raft that replicate a log: the vote requests of Cluster, and the AppendEntries
-- and replies between them. The messages under way are the events of their senders and the answers;
-- they may be lost, delayed, reordered, and delivered again. No peer restarts, and no service takes a
-- snapshot.
pub mod Positions
pub mod Effects
pub mod Broadcasting
pub mod Handlers
pub mod Past
pub mod Holds
pub mod Extending
pub mod Peers
pub mod Acknowledge
pub mod Takes
pub mod Leading
pub mod Hears
pub mod Ledger
pub mod Bookings
pub mod Voting
pub mod Chosen
pub mod Coherent
pub mod Elections
pub mod Wins
pub mod Counts
pub mod Begin
pub mod Invariant
pub mod Messages
pub mod Safety
pub mod Applied
use mit6_824_labs.Prelude.{ℕ, ◌<◌, ◌≡◌, List, [], ◌∷◌, ◌++◌, some, get_elem?}
use mit6_824_labs.Raft.Types.{Raft, PersistentStatus, Event, AppendEntriesArgs, AppendEntriesReply}
use mit6_824_labs.Raft.Persist.{Codec}
use mit6_824_labs.Raft.Append.{append_entries}
use mit6_824_labs.Raft.Leader.{handle_append_entries_reply}
use mit6_824_labs.Raft.Node.{Step as NodeStep}
use mit6_824_labs.Raft.Cluster.{Cluster, Step as ClusterStep, begin as begin_cluster, update}

-- A reply to the AppendEntries that one peer has sent to another.
pub record Answer (C : Type 0) : Type 0 where
  pub source : ℕ
  pub target : ℕ
  pub args : AppendEntriesArgs C
  pub reply : AppendEntriesReply

pub record Group (C : Type 0) : Type 0 where
  pub cluster : Cluster C
  pub answers : List (Answer C)

module _ {C : Type 0} (gob : Codec (PersistentStatus C)) (n : ℕ) where
  -- What a peer does by itself: its service's commands, its timers and its applier.
  abbrev pub IsLocal : {rf rf' : Raft C} → NodeStep gob rf rf' → Type 0
  IsLocal (NodeStep.starts command answer h) = Unit
  IsLocal (NodeStep.beats h) = Unit
  IsLocal (NodeStep.adds_log h) = Unit
  IsLocal (NodeStep.begins_apply msg h) = Unit
  IsLocal (NodeStep.ends_apply msg h) = Unit
  IsLocal (NodeStep.dies h) = Unit
  IsLocal h = ⊥

  abbrev pub IsElection : {c c' : Cluster C} → ClusterStep gob n c c' → Type 0
  IsElection (ClusterStep.acts i rf h below quiet e) = ⊥
  IsElection h = Unit

  unfoldable pub begin : Group C
  begin = record { cluster = begin_cluster gob n; answers = [] }

  abbrev pub move : Group C → ℕ → Raft C → Cluster C
  move s i rf = record s.cluster { peers = update s.cluster.peers i rf }

  pub data Step (s s' : Group C) : Type 0 where
    acts :
        (i : ℕ) (rf : Raft C) (h : NodeStep gob (s.cluster.peers i) rf)
        → i < n
        → IsLocal h
        → s' ≡ record s { cluster = move s i rf }
        → Step s s'
    elects :
        (c : Cluster C) (h : ClusterStep gob n s.cluster c)
        → IsElection h
        → s' ≡ record s { cluster = c }
        → Step s s'
    delivers :
        (i j k : ℕ) (args : AppendEntriesArgs C) (rf : Raft C) (reply : AppendEntriesReply)
        → j < n
        → get_elem? (s.cluster.peers i).events k ≡ some (Event.send_append_entries j args)
        → append_entries gob (s.cluster.peers j) args ≡ some (rf, reply)
        → s' ≡ record {
          cluster = move s j rf;
          answers = s.answers ++ record { source = i; target = j; args = args; reply = reply } ∷ [];
        }
        → Step s s'
    hears :
        (k : ℕ) (a : Answer C) (rf : Raft C)
        → get_elem? s.answers k ≡ some a
        → a.source < n
        → handle_append_entries_reply gob (s.cluster.peers a.source) a.target a.args a.reply
          ≡ some rf
        → s' ≡ record s { cluster = move s a.source rf }
        → Step s s'

  pub data Steps (s : Group C) : Group C → Type 0 where
    here : Steps s s
    next : {s' s'' : Group C} → Steps s s' → Step s' s'' → Steps s s''
