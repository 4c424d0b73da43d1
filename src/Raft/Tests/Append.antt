-- ===== src/Raft/Tests/Append.antt =====
-- AppendEntries: an accepted message, a redelivered one and a refused one.
use mit6_824_labs.Prelude.{ℕ, ◌+◌, ◌≤◌, ◌<◌, ◌≡◌, refl, [], ◌∷◌, ◌++◌, false, arith, take, drop}
use mit6_824_labs.Prelude.Int.{pos}
use mit6_824_labs.Raft.Types.{Raft, AppendEntriesArgs, AppendEntriesReply}
use mit6_824_labs.Raft.Log.{entry_at, real_log_len}
use mit6_824_labs.Raft.Persist.{persist, save, clone}
use mit6_824_labs.Raft.Append.{
  append_entries, append_checked, append_matched, advance_commit, follow, copy_entries, copy_entry,
  find_conflict, accept,
}
use mit6_824_labs.Raft.Append.Merge.{merge, copy_entries-merge}
use mit6_824_labs.Raft.Append.Agreement.{
  term_at, term_of, append_entries_agrees, append_entries_idem,
}
use mit6_824_labs.Raft.Append.Committed.{append_entries_keeps_committed}
use mit6_824_labs.Raft.Append.Conflict.{IsFirst, conflict_reply}
use mit6_824_labs.Raft.Leader.{append_args, prev_term}
use mit6_824_labs.Raft.Leader.Replicate.{IsSuffix, append_args-IsSuffix}
use mit6_824_labs.Raft.Tests.{coding, peer, leader, short_log, at_term, state_after}

abbrev message : AppendEntriesArgs ℕ
message = record {
  term = 3;
  leader_id = 1;
  prev_log_index = 2;
  prev_log_term = 1;
  entries = at_term 3 4 ∷ at_term 3 5 ∷ [];
  leader_commit = 1;
}

abbrev appended : Raft ℕ
appended = state_after peer (append_entries coding peer message)

copy_entries-merge_example :
    copy_entries short_log 3 message.entries
    ≡ take 3 short_log ++ merge (drop 3 short_log) message.entries
copy_entries-merge_example = copy_entries-merge short_log message.entries 3 (omega arith)

append_entries_agrees_example :
    ((i : ℕ) → i ≤ 2 → entry_at appended i ≡ entry_at peer i)
    × ((i : ℕ) → i < 2 → term_at appended (2 + 1 + i) ≡ term_of message.entries i)
unfolding append_entries append_checked append_matched advance_commit follow copy_entries copy_entry
    find_conflict persist save clone
append_entries_agrees_example =
    append_entries_agrees coding peer message appended (accept appended) refl refl

append_entries_keeps_committed_example :
    ((i : ℕ) → i ≤ 1 → entry_at appended i ≡ entry_at peer i)
    × (1 ≤ appended.commit_index)
    × (appended.commit_index < real_log_len appended)
unfolding append_entries append_checked append_matched advance_commit follow copy_entries copy_entry
    find_conflict persist save clone
append_entries_keeps_committed_example =
    append_entries_keeps_committed coding peer message appended (accept appended) refl refl
      (omega arith) (omega arith) (λ i inside committed. absurd (omega arith))

abbrev appended_again : Raft ℕ
appended_again = state_after appended (append_entries coding appended message)

append_entries_idem_example :
    (accept appended ≡ accept appended)
    × (appended_again.logs ≡ appended.logs)
    × (appended_again.commit_index ≡ appended.commit_index)
unfolding append_entries append_checked append_matched advance_commit follow copy_entries copy_entry
    find_conflict persist save clone
append_entries_idem_example =
    append_entries_idem coding peer message appended appended_again (accept appended)
      (accept appended) refl refl refl

-- The peer has term 2 at index 3, and the leader has term 3 there.
abbrev too_far : AppendEntriesArgs ℕ
too_far = record message { prev_log_index = 3; prev_log_term = 3; entries = at_term 3 5 ∷ [] }

abbrev refusal : AppendEntriesReply
refusal = record { term = 3; success = false; x_term = pos 2; x_index = pos 3; x_len = 4 }

abbrev refused : Raft ℕ
refused = state_after peer (append_entries coding peer too_far)

conflict_reply_example :
    (refusal.success ≡ false)
    × (refusal.x_term ≡ pos 2)
    × (refusal.x_len ≡ real_log_len peer)
    × (refused.logs ≡ peer.logs)
    × ((m : ℕ) × (refusal.x_index ≡ pos m) × IsFirst peer 2 3 m)
unfolding append_entries append_checked append_matched advance_commit follow copy_entries copy_entry
    find_conflict persist save clone
conflict_reply_example =
    conflict_reply coding peer too_far 2 refused refusal refl (omega arith) refl
      (λ e. absurd (omega arith)) (omega arith)

-- What the leader sends to the peer is `message`.
message-IsSuffix : IsSuffix leader message
unfolding append_args prev_term
message-IsSuffix = append_args-IsSuffix leader 3 message (omega arith) refl
