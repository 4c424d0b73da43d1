-- ===== src/Raft/Tests/Restarts.antt =====
-- Stable storage and a restart.
use mit6_824_labs.Prelude.{ℕ, ◌≡◌, refl, [], ◌∷◌, some, true, arith, ◌>>=◌}
use mit6_824_labs.Raft.Types.{
  Raft, RequestVoteArgs, RequestVoteReply, InstallSnapshotArgs, InstallSnapshotReply,
}
use mit6_824_labs.Raft.Persist.{make, persist, save, clone}
use mit6_824_labs.Raft.Persist.Saved.{
  IsSaved, Returns, persist-IsSaved, replies-IsSaved, install_snapshot_unsaved,
}
use mit6_824_labs.Raft.Persist.Restart.{restarted, restart_recovers, restart_votes_again}
use mit6_824_labs.Raft.Vote.{request_vote, decide_vote, may_vote, adopt_term}
use mit6_824_labs.Raft.Snapshot.{install_snapshot, obey}
use mit6_824_labs.Raft.Tests.{coding, coding-IsLossless, peer, state_after, or_else}

abbrev saved : Raft ℕ
saved = or_else peer (persist coding peer)

saved-IsSaved : IsSaved coding saved
unfolding persist save clone
saved-IsSaved = persist-IsSaved coding coding-IsLossless peer refl

abbrev request : RequestVoteArgs
request = record { term = 3; candidate_id = 1; last_log_index = 4; last_log_term = 2 }

abbrev granted : RequestVoteReply
granted = record { term = 3; vote_granted = true }

abbrev voted : Raft ℕ
voted = state_after saved (request_vote coding saved request)

voted-Returns : Returns coding saved voted
unfolding request_vote decide_vote may_vote adopt_term persist save clone
voted-Returns = Returns.votes request granted refl

replies-IsSaved_example : IsSaved coding voted
replies-IsSaved_example =
    replies-IsSaved coding coding-IsLossless saved voted saved-IsSaved voted-Returns

-- A leader of a later term sends a snapshot that the peer has.
abbrev old_snapshot : InstallSnapshotArgs
old_snapshot = record {
  term = 5;
  leader_id = 1;
  last_included_index = 1;
  last_included_term = 1;
  bytes = 5 ∷ [];
}

abbrev answer : InstallSnapshotReply
answer = record { term = 5 }

abbrev unsaved : Raft ℕ
unsaved = state_after saved (install_snapshot coding saved old_snapshot)

install_snapshot_unsaved_example :
    (answer.term ≡ 5)
    × (unsaved.current_term ≡ 5)
    × (unsaved.persister ≡ saved.persister)
    × ¬ IsSaved coding unsaved
unfolding install_snapshot obey persist save clone
install_snapshot_unsaved_example =
    install_snapshot_unsaved coding coding-IsLossless saved old_snapshot unsaved answer refl
      saved-IsSaved (omega arith) (omega arith)

restart_recovers_example :
    make coding saved.peers saved.me saved.persister ≡ some (restarted coding saved)
restart_recovers_example = restart_recovers coding coding-IsLossless saved saved-IsSaved

-- A candidate whose number is the saved term.
abbrev own_number : RequestVoteArgs
own_number = record { term = 2; candidate_id = 2; last_log_index = 3; last_log_term = 2 }

restart_votes_again_example :
    (rf' : Raft ℕ) × (reply : RequestVoteReply) × ((make coding saved.peers saved.me saved.persister
        >>= λ r. request_vote coding r own_number)
      ≡ some (rf', reply))
    × (reply.vote_granted ≡ true)
unfolding persist save clone
restart_votes_again_example =
    restart_votes_again coding coding-IsLossless saved own_number saved-IsSaved (omega arith) refl
      refl refl
