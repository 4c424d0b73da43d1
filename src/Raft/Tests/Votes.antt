-- ===== src/Raft/Tests/Votes.antt =====
-- Votes, terms and steps.
use mit6_824_labs.Prelude.{ℕ, ◌≡◌, ◌≢◌, refl, none, true, arith}
use mit6_824_labs.Prelude.Int.{pos}
use mit6_824_labs.Raft.Types.{
  Role, Raft, RequestVoteArgs, RequestVoteReply, AppendEntriesArgs, InstallSnapshotArgs,
}
use mit6_824_labs.Raft.Persist.{persist, save, clone}
use mit6_824_labs.Raft.Leader.{heartbeat_event, broadcast_heartbeat}
use mit6_824_labs.Raft.Vote.{
  handle_vote_reply, become_leader, request_vote, adopt_term, may_vote, decide_vote, tick,
  start_election, vote_requests, become_leader,
}
use mit6_824_labs.Raft.Node.{Step, Steps}
use mit6_824_labs.Raft.Append.{append_entries}
use mit6_824_labs.Raft.Snapshot.{install_snapshot}
use mit6_824_labs.Raft.Node.Votes.{vote_once, Step-Later, Later}
use mit6_824_labs.Raft.Node.Valid.{IsValid, Step-IsValid}
use mit6_824_labs.Raft.Node.Total.{rpc_no_panic}
use mit6_824_labs.Raft.Tests.{coding, peer, state_after, or_else}

abbrev request : RequestVoteArgs
request = record { term = 3; candidate_id = 1; last_log_index = 4; last_log_term = 2 }

abbrev granted : RequestVoteReply
granted = record { term = 3; vote_granted = true }

abbrev voted : Raft ℕ
voted = state_after peer (request_vote coding peer request)

-- A heartbeat timer changes nothing at a follower.
abbrev beaten : Raft ℕ
beaten = or_else voted (heartbeat_event voted)

voted-Steps : Steps coding voted beaten
unfolding request_vote decide_vote may_vote adopt_term persist save clone heartbeat_event
    broadcast_heartbeat
voted-Steps = Steps.next Steps.here (Step.beats refl)

vote_once_example : request.candidate_id ≡ request.candidate_id
unfolding request_vote decide_vote may_vote adopt_term persist save clone heartbeat_event
    broadcast_heartbeat
vote_once_example =
    vote_once coding peer voted beaten (state_after beaten (request_vote coding beaten request))
      request request granted granted refl refl voted-Steps refl refl refl

abbrev ticked : Raft ℕ
ticked = state_after peer (tick coding peer)

election : Step coding peer ticked
unfolding tick start_election vote_requests become_leader persist save clone
election = Step.ticks 1 refl

Step-Later_example : Later peer ticked
Step-Later_example = Step-Later coding election

peer-IsValid : IsValid peer
peer-IsValid = record {
  nonempty = omega arith;
  covered = omega arith;
  next_sized = refl;
  match_sized = refl;
  member = omega arith;
}

Step-IsValid_example : IsValid ticked
Step-IsValid_example = Step-IsValid coding peer ticked election peer-IsValid

rpc_no_panic_example :
    ((args : RequestVoteArgs) → request_vote coding peer args ≢ none)
    × ((args : AppendEntriesArgs ℕ) → append_entries coding peer args ≢ none)
    × ((args : InstallSnapshotArgs) → install_snapshot coding peer args ≢ none)
rpc_no_panic_example = rpc_no_panic coding peer peer-IsValid

-- A candidate of term 3 that gets a second vote of three.
abbrev candidate : Raft ℕ
candidate = record peer { current_term = 3; voted_for = pos 0; state = Role.candidate }

abbrev own_request : RequestVoteArgs
own_request = record { term = 3; candidate_id = 0; last_log_index = 3; last_log_term = 2 }

abbrev elected : Raft ℕ
elected = state_after candidate (handle_vote_reply coding candidate 1 own_request granted)
