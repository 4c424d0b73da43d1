-- ===== src/Raft/Vote.antt =====
-- Elections in src/raft/raft.go: RequestVote, ticker and startElection, and the goroutine of
-- startElection that takes a reply.
pub mod Majority
use mit6_824_labs.Prelude.{
  ℕ, zero, suc, ◌+◌, ◌/◌, List, [], ◌∷◌, ◌++◌, Option, some, Bool, true, false, ◌||◌, ltb, ◌==◌,
  ◌>>=◌, if◌then◌else◌,
}
use mit6_824_labs.Prelude.Int.{pos, ◌==ℤ◌}
use mit6_824_labs.Raft.Types.{
  Raft, Role, RequestVoteArgs, RequestVoteReply, PersistentStatus, Event, emit, no_vote,
}
use mit6_824_labs.Raft.Log.{last_log_term, last_log_index, is_log_up_to_date}
use mit6_824_labs.Raft.Persist.{Codec, persist, persist_after}
use mit6_824_labs.Raft.Leader.{initialize_leader, broadcast_heartbeat}

abbrev pub is_candidate : Role → Bool
is_candidate Role.candidate = true
is_candidate Role.follower = false
is_candidate Role.leader = false

module _ {C : Type 0} where
  -- A later term is adopted with no vote.
  unfoldable pub adopt_term : Raft C → ℕ → Raft C
  adopt_term rf term =
      if ltb rf.current_term term
      then record rf { current_term = term; voted_for = no_vote; state = Role.follower }
      else rf

  -- rf.votedFor == noVote || rf.votedFor == args.CandidateId; the log is looked at behind it.
  unfoldable pub may_vote : Raft C → RequestVoteArgs → Option Bool
  may_vote rf args =
      if (rf.voted_for ==ℤ no_vote) || (rf.voted_for ==ℤ pos args.candidate_id)
      then is_log_up_to_date rf args.last_log_term args.last_log_index
      else some false

  abbrev pub vote : Raft C → Bool → RequestVoteReply
  vote rf granted = record { term = rf.current_term; vote_granted = granted }

  unfoldable pub decide_vote : Raft C → RequestVoteArgs → Option (Raft C × RequestVoteReply)
  decide_vote rf args = do
    granted ← may_vote rf args
    some (
        if granted
        then (
          emit Event.reset_election_timer (record rf { voted_for = pos args.candidate_id }),
          vote rf true,
        )
        else (rf, vote rf false))

  abbrev vote_args : Raft C → ℕ → RequestVoteArgs
  vote_args rf term = record {
    term = rf.current_term;
    candidate_id = rf.me;
    last_log_index = last_log_index rf;
    last_log_term = term;
  }

  -- for i := range rf.peers, with `n` rounds left from peer `i` on
  unfoldable pub vote_requests : Raft C → ℕ → ℕ → Option (List (Event C))
  vote_requests rf i zero = some []
  vote_requests rf i (suc n) =
      let rest = vote_requests rf (suc i) n in
      if i == rf.me then rest else do
        term ← last_log_term rf
        ms ← rest
        some (Event.send_request_vote i (vote_args rf term) ∷ ms)

  -- Enough votes make a leader, which sets up its indices and broadcasts at once.
  unfoldable pub become_leader : Raft C → Option (Raft C)
  become_leader rf = do
    rf' ← initialize_leader (record rf { state = Role.leader })
    broadcast_heartbeat rf'

  -- A reply to a request of the election that has `count` votes: the peer and the new count.
  unfoldable pub count_vote : Raft C → ℕ → RequestVoteReply → Option (Raft C × ℕ)
  count_vote rf count reply =
      let count' = if reply.vote_granted then count + 1 else count in
      if ltb (rf.peers / 2) count'
      then (do rf' ← become_leader rf; some (rf', count'))
      else some (rf, count')

module _ {C : Type 0} (gob : Codec (PersistentStatus C)) where
  -- `persist` is deferred behind the term check.
  unfoldable pub request_vote : Raft C → RequestVoteArgs → Option (Raft C × RequestVoteReply)
  request_vote rf args =
      if ltb args.term rf.current_term
      then some (rf, vote rf false)
      else persist_after gob (decide_vote (adopt_term rf args.term) args)

  -- Each election begins with the count 1 of the votes granted.
  unfoldable pub start_election : Raft C → Option (Raft C × ℕ)
  start_election rf = do
    rf' ← persist gob (record rf { voted_for = pos rf.me; current_term = rf.current_term + 1 })
    ms ← vote_requests rf' 0 rf'.peers
    some (record rf' { events = rf'.events ++ Event.reset_election_timer ∷ ms }, 1)

  -- One time-out of the election timer, in ticker.
  unfoldable pub tick : Raft C → Option (Raft C × ℕ)
  tick rf = start_election (record rf { state = Role.candidate })

  unfoldable pub handle_vote_reply :
      Raft C → ℕ → RequestVoteArgs → RequestVoteReply → Option (Raft C × ℕ)
  handle_vote_reply rf count args reply =
      if (if rf.current_term == args.term then is_candidate rf.state else false)
      then (if ltb rf.current_term reply.term
          then (do
            rf' ← persist gob (record rf { current_term = reply.term; voted_for = no_vote })
            some (record rf' { state = Role.follower }, count))
          else if reply.term == rf.current_term
          then count_vote rf count reply
          else some (rf, count))
      else some (rf, count)
