-- ===== src/Raft/Tests/Replicas.antt =====
-- The three peers of Peers go on: the leader starts a command, peer 1 takes it, and both commit it.
use mit6_824_labs.Prelude.{ℕ, ◌≡◌, ◌≤◌, refl, [], ◌∷◌, ◌++◌, Option, none, some, true, arith}
use mit6_824_labs.Prelude.Int.{pos}
use mit6_824_labs.Raft.Types.{Raft, LogEntry, AppendEntriesArgs, AppendEntriesReply}
use mit6_824_labs.Raft.Persist.{persist, save, clone, initial}
use mit6_824_labs.Raft.Append.{
  append_entries, append_checked, append_matched, copy_entries, copy_entry, advance_commit, follow,
}
use mit6_824_labs.Raft.Leader.{
  is_leader, start, add_log_event, heartbeat_event, handle_append_entries_reply, raise_indices,
  check_and_commit_logs, find_commit, succeed_num, count_reached, broadcast_heartbeat,
  initialize_leader, messages, message_for, append_args, prev_term,
}
use mit6_824_labs.Raft.Vote.{
  handle_vote_reply, count_vote, become_leader, request_vote, adopt_term, may_vote, decide_vote,
  tick, start_election, vote_requests,
}
use mit6_824_labs.Raft.Log.{entry_at}
use mit6_824_labs.Raft.Node.{Step as NodeStep}
use mit6_824_labs.Raft.Cluster.{Cluster, update}
use mit6_824_labs.Raft.Applier.{gather, collect, command_msg}
use mit6_824_labs.Raft.Group.Applied.{applied_same}
use mit6_824_labs.Raft.Group.Safety.{log_matching, state_machine_safety, leader_has_committed}
use mit6_824_labs.Raft.Group.{Group, Step, Steps, begin}
use mit6_824_labs.Raft.Tests.{coding, state_after, at_term}
use mit6_824_labs.Raft.Tests.Peers.{
  won, winner, voter, asking, answered, to_asking, to_answered, to_won,
}

abbrev or_same : Raft ℕ → Option (Raft ℕ) → Raft ℕ
or_same rf none = rf
or_same rf (some rf') = rf'

abbrev starting : Raft ℕ
starting = state_after winner (start coding winner 7)

abbrev sending : Raft ℕ
sending = or_same starting (add_log_event starting)

abbrev message : AppendEntriesArgs ℕ
message = record {
  term = 1;
  leader_id = 0;
  prev_log_index = 0;
  prev_log_term = 0;
  entries = at_term 1 7 ∷ [];
  leader_commit = 0;
}

abbrev reply : AppendEntriesReply
reply = record { term = 1; success = true; x_term = pos 0; x_index = pos 0; x_len = 0 }

abbrev follower : Raft ℕ
follower = state_after voter (append_entries coding voter message)

abbrev committing : Raft ℕ
committing = or_same sending (handle_append_entries_reply coding sending 1 message reply)

abbrev beating : Raft ℕ
beating = or_same committing (heartbeat_event committing)

abbrev heartbeat : AppendEntriesArgs ℕ
heartbeat = record message {
  prev_log_index = 1;
  prev_log_term = 1;
  entries = [];
  leader_commit = 1;
}

abbrev informed : Raft ℕ
informed = state_after follower (append_entries coding follower heartbeat)

abbrev group : Cluster ℕ → Group ℕ
group cluster = record { cluster = cluster; answers = [] }

-- Peer 0 is as given.
abbrev leads_with : Group ℕ → Raft ℕ → Group ℕ
leads_with s rf = record s { cluster = record s.cluster { peers = update s.cluster.peers 0 rf } }

-- Peer 1 is as given, and has answered.
abbrev answers_with : Group ℕ → AppendEntriesArgs ℕ → Raft ℕ → Group ℕ
answers_with s args rf = record {
  cluster = record s.cluster { peers = update s.cluster.peers 1 rf };
  answers = s.answers ++ record { source = 0; target = 1; args = args; reply = reply } ∷ [];
}

abbrev elected : Group ℕ
elected = group won

abbrev started : Group ℕ
started = leads_with elected starting

abbrev sent : Group ℕ
sent = leads_with started sending

abbrev taken : Group ℕ
taken = answers_with sent message follower

abbrev committed : Group ℕ
committed = leads_with taken committing

abbrev beaten : Group ℕ
beaten = leads_with committed beating

abbrev agreed : Group ℕ
agreed = answers_with beaten heartbeat informed

to_elected : Steps coding 3 (begin coding 3) elected
unfolding begin to_asking to_answered to_won
to_elected =
    Steps.next
      (Steps.next (Steps.next Steps.here (Step.elects asking to_asking tt refl))
        (Step.elects answered to_answered tt refl))
      (Step.elects won to_won tt refl)

to_started : Step coding 3 elected started
unfolding initial tick start_election vote_requests persist save clone handle_vote_reply count_vote
    become_leader initialize_leader broadcast_heartbeat messages message_for append_args prev_term
    start
to_started =
    Step.acts 0 starting (NodeStep.starts 7 (pos 1, pos 1, true) refl) (omega arith) tt refl

to_sent : Step coding 3 started sent
unfolding initial tick start_election vote_requests persist save clone handle_vote_reply count_vote
    become_leader initialize_leader broadcast_heartbeat messages message_for append_args prev_term
    start add_log_event
to_sent = Step.acts 0 sending (NodeStep.adds_log refl) (omega arith) tt refl

to_taken : Step coding 3 sent taken
unfolding initial tick start_election vote_requests persist save clone handle_vote_reply count_vote
    become_leader initialize_leader broadcast_heartbeat messages message_for append_args prev_term
    start add_log_event request_vote decide_vote may_vote adopt_term append_entries append_checked
    append_matched copy_entries copy_entry advance_commit follow
to_taken = Step.delivers 0 1 6 message follower reply (omega arith) refl refl refl

to_committed : Step coding 3 taken committed
unfolding initial tick start_election vote_requests persist save clone handle_vote_reply count_vote
    become_leader initialize_leader broadcast_heartbeat messages message_for append_args prev_term
    start add_log_event handle_append_entries_reply raise_indices check_and_commit_logs find_commit
    succeed_num count_reached
to_committed =
    Step.hears 0 (record { source = 0; target = 1; args = message; reply = reply }) committing refl
      (omega arith) refl refl

to_beaten : Step coding 3 committed beaten
unfolding initial tick start_election vote_requests persist save clone handle_vote_reply count_vote
    become_leader initialize_leader broadcast_heartbeat messages message_for append_args prev_term
    start add_log_event handle_append_entries_reply raise_indices check_and_commit_logs find_commit
    succeed_num count_reached heartbeat_event
to_beaten = Step.acts 0 beating (NodeStep.beats refl) (omega arith) tt refl

to_agreed : Step coding 3 beaten agreed
unfolding initial tick start_election vote_requests persist save clone handle_vote_reply count_vote
    become_leader initialize_leader broadcast_heartbeat messages message_for append_args prev_term
    start add_log_event handle_append_entries_reply raise_indices check_and_commit_logs find_commit
    succeed_num count_reached heartbeat_event request_vote decide_vote may_vote adopt_term
    append_entries append_checked append_matched copy_entries copy_entry advance_commit follow
to_agreed = Step.delivers 0 1 11 heartbeat informed reply (omega arith) refl refl refl

to_commit : Steps coding 3 (begin coding 3) committed
to_commit =
    Steps.next (Steps.next (Steps.next (Steps.next to_elected to_started) to_sent) to_taken)
      to_committed

to_agreement : Steps coding 3 committed agreed
to_agreement = Steps.next (Steps.next Steps.here to_beaten) to_agreed

leader_commit : 1 ≤ (committed.cluster.peers 0).commit_index
unfolding initial tick start_election vote_requests persist save clone handle_vote_reply count_vote
    become_leader initialize_leader broadcast_heartbeat messages message_for append_args prev_term
    start add_log_event handle_append_entries_reply raise_indices check_and_commit_logs find_commit
    succeed_num count_reached heartbeat_event request_vote decide_vote may_vote adopt_term
    append_entries append_checked append_matched copy_entries copy_entry advance_commit follow
leader_commit = omega arith

follower_commit : 1 ≤ (agreed.cluster.peers 1).commit_index
unfolding initial tick start_election vote_requests persist save clone handle_vote_reply count_vote
    become_leader initialize_leader broadcast_heartbeat messages message_for append_args prev_term
    start add_log_event handle_append_entries_reply raise_indices check_and_commit_logs find_commit
    succeed_num count_reached heartbeat_event request_vote decide_vote may_vote adopt_term
    append_entries append_checked append_matched copy_entries copy_entry advance_commit follow
follower_commit = omega arith

still_leads :
    (is_leader (agreed.cluster.peers 0).state ≡ true)
    × ((committed.cluster.peers 0).current_term ≤ (agreed.cluster.peers 0).current_term)
unfolding initial tick start_election vote_requests persist save clone handle_vote_reply count_vote
    become_leader initialize_leader broadcast_heartbeat messages message_for append_args prev_term
    start add_log_event handle_append_entries_reply raise_indices check_and_commit_logs find_commit
    succeed_num count_reached heartbeat_event request_vote decide_vote may_vote adopt_term
    append_entries append_checked append_matched copy_entries copy_entry advance_commit follow
still_leads = (refl, omega arith)

same_entries :
    (entry_at (committed.cluster.peers 0) 1 ≡ some (at_term 1 7))
    × (entry_at (committed.cluster.peers 1) 1 ≡ some (at_term 1 7))
unfolding initial tick start_election vote_requests persist save clone handle_vote_reply count_vote
    become_leader initialize_leader broadcast_heartbeat messages message_for append_args prev_term
    start add_log_event handle_append_entries_reply raise_indices check_and_commit_logs find_commit
    succeed_num count_reached heartbeat_event request_vote decide_vote may_vote adopt_term
    append_entries append_checked append_matched copy_entries copy_entry advance_commit follow
same_entries = (refl, refl)

batches :
    (gather (committed.cluster.peers 0) ≡ some (command_msg (at_term 1 7) 1 ∷ []))
    × (gather (agreed.cluster.peers 1) ≡ some (command_msg (at_term 1 7) 1 ∷ []))
unfolding initial tick start_election vote_requests persist save clone handle_vote_reply count_vote
    become_leader initialize_leader broadcast_heartbeat messages message_for append_args prev_term
    start add_log_event handle_append_entries_reply raise_indices check_and_commit_logs find_commit
    succeed_num count_reached heartbeat_event request_vote decide_vote may_vote adopt_term
    append_entries append_checked append_matched copy_entries copy_entry advance_commit follow
    gather collect
batches = (refl, refl)

applied_same_example : command_msg (at_term 1 7) 1 ≡ command_msg (at_term 1 7) 1
applied_same_example =
    applied_same coding 3 committed agreed 0 1 0 0 (command_msg (at_term 1 7) 1 ∷ [])
      (command_msg (at_term 1 7) 1 ∷ []) (command_msg (at_term 1 7) 1) (command_msg (at_term 1 7) 1)
      to_commit to_agreement batches.0 batches.1 refl refl refl

log_matching_example :
    entry_at (committed.cluster.peers 0) 0 ≡ entry_at (committed.cluster.peers 1) 0
log_matching_example =
    log_matching coding 3 committed 0 1 1 (at_term 1 7) (at_term 1 7) to_commit same_entries.0
      same_entries.1 refl 0 (omega arith)

state_machine_safety_example :
    (e : LogEntry ℕ) × (entry_at (committed.cluster.peers 0) 1 ≡ some e)
    × (entry_at (agreed.cluster.peers 1) 1 ≡ some e)
state_machine_safety_example =
    state_machine_safety coding 3 committed agreed 0 1 1 to_commit to_agreement leader_commit
      follower_commit

leader_has_committed_example :
    (e : LogEntry ℕ) × (entry_at (committed.cluster.peers 0) 1 ≡ some e)
    × (entry_at (agreed.cluster.peers 0) 1 ≡ some e)
leader_has_committed_example =
    leader_has_committed coding 3 committed agreed 0 0 1 to_commit to_agreement leader_commit
      still_leads.0 still_leads.1
