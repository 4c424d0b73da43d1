-- ===== src/Raft/Tests/Peers.antt =====
-- Three peers, of which peer 0 asks peer 1 for its vote and becomes the leader of term 1.
use mit6_824_labs.Prelude.{ℕ, ◌≡◌, refl, [], ◌∷◌, true, arith}
use mit6_824_labs.Raft.Types.{Raft, RequestVoteArgs, RequestVoteReply}
use mit6_824_labs.Raft.Persist.{persist, save, clone, initial, make_persister}
use mit6_824_labs.Raft.Leader.{
  is_leader, broadcast_heartbeat, initialize_leader, messages, message_for, append_args, prev_term,
}
use mit6_824_labs.Raft.Vote.{
  handle_vote_reply, count_vote, become_leader, request_vote, adopt_term, may_vote, decide_vote,
  tick, start_election, vote_requests,
}
use mit6_824_labs.Raft.Cluster.{Call, Election, Cluster, update, calls_of, begin, Step, Steps}
use mit6_824_labs.Raft.Cluster.Leaders.{one_leader}
use mit6_824_labs.Raft.Tests.{coding, state_after}

abbrev pub new_peer : ℕ → Raft ℕ
new_peer i = initial coding 3 i make_persister

abbrev pub candidate : Raft ℕ
candidate = state_after (new_peer 0) (tick coding (new_peer 0))

abbrev pub request : RequestVoteArgs
request = record { term = 1; candidate_id = 0; last_log_index = 0; last_log_term = 0 }

abbrev pub vote : RequestVoteReply
vote = record { term = 1; vote_granted = true }

abbrev pub voter : Raft ℕ
voter = state_after (new_peer 1) (request_vote coding (new_peer 1) request)

abbrev pub winner : Raft ℕ
winner = state_after candidate (handle_vote_reply coding candidate 1 request vote)

abbrev pub election : Election
election = record {
  candidate = 0;
  term = candidate.current_term;
  count = 1;
  calls = calls_of candidate.events;
}

abbrev pub asking : Cluster ℕ
asking = record { peers = update new_peer 0 candidate; elections = election ∷ [] }

abbrev pub answered : Cluster ℕ
answered = record {
  peers = update asking.peers 1 voter;
  elections = record election { calls = update election.calls 1 (Call.replied request vote) } ∷ [];
}

abbrev pub won : Cluster ℕ
won = record {
  peers = update answered.peers 0 winner;
  elections =
      record election {
        count = 2;
        calls =
            update (update election.calls 1 (Call.replied request vote)) 1
              (Call.handled request vote);
      }
      ∷ [];
}

unfoldable pub to_asking : Step coding 3 (begin coding 3) asking
unfolding begin initial tick start_election vote_requests persist save clone
to_asking = Step.times_out 0 candidate 1 candidate.events (omega arith) refl refl refl

unfoldable pub to_answered : Step coding 3 asking answered
unfolding initial tick start_election vote_requests persist save clone request_vote decide_vote
    may_vote adopt_term
to_answered = Step.votes 0 1 election request voter vote refl (omega arith) refl refl refl

unfoldable pub to_won : Step coding 3 answered won
unfolding initial tick start_election vote_requests persist save clone request_vote decide_vote
    may_vote adopt_term handle_vote_reply count_vote become_leader initialize_leader
    broadcast_heartbeat messages message_for append_args prev_term
to_won =
    Step.counts 0 1
      (record election { calls = update election.calls 1 (Call.replied request vote) }) request vote
      winner 2 refl (omega arith) refl refl refl

won-leads : is_leader (won.peers 0).state ≡ true
unfolding initial tick start_election vote_requests persist save clone handle_vote_reply count_vote
    become_leader initialize_leader broadcast_heartbeat messages message_for append_args prev_term
won-leads = refl

one_leader_example : request.candidate_id ≡ election.candidate
one_leader_example =
    one_leader coding 3 won won 0 0
      (Steps.next (Steps.next (Steps.next Steps.here to_asking) to_answered) to_won) Steps.here
      won-leads won-leads refl
