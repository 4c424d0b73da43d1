-- ===== src/Raft/Vote/Majority.antt =====
-- Who becomes a leader.
use mit6_824_labs.Prelude.{ℕ, ◌+◌, ◌/◌, ◌<◌, ◌≡◌, some, true, false, arith, if◌then◌else◌}
use mit6_824_labs.Raft.Types.{Raft, Role, RequestVoteArgs, RequestVoteReply, PersistentStatus}
use mit6_824_labs.Raft.Persist.{Codec, persist}
use mit6_824_labs.Raft.Leader.{is_leader, broadcast_heartbeat, initialize_leader}
use mit6_824_labs.Raft.Vote.{handle_vote_reply, count_vote, become_leader}

module _ {C : Type 0} (gob : Codec (PersistentStatus C)) where
  -- A reply that makes a peer a leader comes to a candidate still in the term of the request, is of
  -- that term, and brings the votes, counted up by the vote it grants, over half of the peers.
  pub leader_has_majority :
      (rf : Raft C) (count : ℕ) (args : RequestVoteArgs) (reply : RequestVoteReply) (rf' : Raft C)
      (count' : ℕ)
      → handle_vote_reply gob rf count args reply ≡ some (rf', count')
      → is_leader rf.state ≡ false
      → is_leader rf'.state ≡ true
      → (rf.state ≡ Role.candidate)
        × (rf.current_term ≡ args.term)
        × (reply.term ≡ args.term)
        × (rf'.current_term ≡ args.term)
        × (count' ≡ count + (if reply.vote_granted then 1 else 0))
        × (rf.peers / 2 < count')
  unfolding handle_vote_reply count_vote become_leader initialize_leader broadcast_heartbeat persist
  leader_has_majority rf count args reply rf' count' h before after = ground arith
