-- ===== src/Raft/Cluster.antt =====
-- Several peers of src/raft and the vote requests between them: startElection's goroutines, each of
-- which sends one request and handles its reply, if any, once. No peer restarts.
pub mod Tally
pub mod Asking
pub mod Fair
pub mod Moves
pub mod Replies
pub mod Counts
pub mod Leaders
use mit6_824_labs.Prelude.{
  ℕ, zero, suc, ◌<◌, ◌≡◌, List, [], ◌∷◌, ◌++◌, Option, some, Bool, true, false, get_elem?, set,
  ◌==◌, if◌then◌else◌,
}
use mit6_824_labs.Raft.Types.{Raft, RequestVoteArgs, RequestVoteReply, PersistentStatus, Event}
use mit6_824_labs.Raft.Persist.{Codec, initial, make_persister}
use mit6_824_labs.Raft.Vote.{request_vote, tick, handle_vote_reply}
use mit6_824_labs.Raft.Node.{Step as NodeStep}
use mit6_824_labs.Raft.Node.Leads.{TakesNoVote}

-- The goroutine of an election for a peer: there is none, its request is under way, its reply is
-- under way, or it has handled the reply. A lost message stays under way for ever.
pub data Call : Type 0 where
  idle : Call
  asked : RequestVoteArgs → Call
  replied : RequestVoteArgs → RequestVoteReply → Call
  handled : RequestVoteArgs → RequestVoteReply → Call

-- One run of startElection: `count` is voteGrantedCnt, and `calls` has the goroutines by peer.
pub record Election : Type 0 where
  pub candidate : ℕ
  pub term : ℕ
  pub count : ℕ
  pub calls : ℕ → Call

pub record Cluster (C : Type 0) : Type 0 where
  pub peers : ℕ → Raft C
  pub elections : List Election

abbrev pub update : {A : Type 0} → (ℕ → A) → ℕ → A → ℕ → A
update f i a j = if j == i then a else f j

-- The requests among what an election leaves to others.
abbrev pub calls_of : {C : Type 0} → List (Event C) → ℕ → Call
calls_of [] j = Call.idle
calls_of (Event.send_request_vote i args ∷ events) j =
    let rest = calls_of events j in if j == i then Call.asked args else rest
calls_of (event ∷ events) j = calls_of events j

module _ {C : Type 0} (gob : Codec (PersistentStatus C)) (n : ℕ) where
  -- Peers that were made with empty storage.
  unfoldable pub begin : Cluster C
  begin = record { peers = λ i. initial gob n i make_persister; elections = [] }

  pub data Step (s s' : Cluster C) : Type 0 where
    acts :
        (i : ℕ) (rf : Raft C) (h : NodeStep gob (s.peers i) rf)
        → i < n
        → TakesNoVote gob h
        → s' ≡ record s { peers = update s.peers i rf }
        → Step s s'
    times_out :
        (i : ℕ) (rf : Raft C) (count : ℕ) (sent : List (Event C))
        → i < n
        → tick gob (s.peers i) ≡ some (rf, count)
        → rf.events ≡ (s.peers i).events ++ sent
        → s' ≡ record {
          peers = update s.peers i rf;
          elections =
              s.elections
              ++ record {
                candidate = i;
                term = rf.current_term;
                count = count;
                calls = calls_of sent;
              }
                ∷ [];
        }
        → Step s s'
    votes :
        (k j : ℕ) (e : Election) (args : RequestVoteArgs) (rf : Raft C) (reply : RequestVoteReply)
        → get_elem? s.elections k ≡ some e
        → j < n
        → e.calls j ≡ Call.asked args
        → request_vote gob (s.peers j) args ≡ some (rf, reply)
        → s' ≡ record {
          peers = update s.peers j rf;
          elections =
              set s.elections k (record e { calls = update e.calls j (Call.replied args reply) });
        }
        → Step s s'
    counts :
        (k j : ℕ) (e : Election) (args : RequestVoteArgs) (reply : RequestVoteReply) (rf : Raft C)
        (count : ℕ)
        → get_elem? s.elections k ≡ some e
        → j < n
        → e.calls j ≡ Call.replied args reply
        → handle_vote_reply gob (s.peers e.candidate) e.count args reply ≡ some (rf, count)
        → s' ≡ record {
          peers = update s.peers e.candidate rf;
          elections =
              set s.elections k
                (record e { count = count; calls = update e.calls j (Call.handled args reply) });
        }
        → Step s s'

  pub data Steps (s : Cluster C) : Cluster C → Type 0 where
    here : Steps s s
    next : {s' s'' : Cluster C} → Steps s s' → Step s' s'' → Steps s s''
