-- ===== src/Raft/Tests/Cuts.antt =====
-- Snapshots of the service and of the leader.
use mit6_824_labs.Prelude.{ℕ, ◌+◌, ◌<◌, ◌≡◌, refl, [], ◌∷◌, none, some, arith, if◌then◌else◌}
use mit6_824_labs.Raft.Types.{Raft, InstallSnapshotArgs, InstallSnapshotReply}
use mit6_824_labs.Raft.Log.{entry_at, real_log_len}
use mit6_824_labs.Raft.Persist.{persist, save, clone}
use mit6_824_labs.Raft.Append.Agreement.{term_at}
use mit6_824_labs.Raft.Snapshot.{
  snapshot, install_snapshot, install_point, install, obey, cut_log, find_snapshot_point,
}
use mit6_824_labs.Raft.Snapshot.Laws.{snapshot_keeps, install_snapshot_effect, keeps_suffix}
use mit6_824_labs.Raft.Tests.{coding, peer, at_term, state_after, or_else}

abbrev cut : Raft ℕ
cut = or_else peer (snapshot coding peer 1 (5 ∷ []))

snapshot_keeps_example :
    (cut.last_included_index ≡ 1)
    × (cut.snapshot ≡ 5 ∷ [])
    × (cut.commit_index ≡ 1)
    × (term_at cut 1 ≡ term_at peer 1)
    × ((i : ℕ) → 1 < i → entry_at cut i ≡ entry_at peer i)
    × (real_log_len cut ≡ real_log_len peer)
unfolding snapshot cut_log persist save clone
snapshot_keeps_example = snapshot_keeps coding peer 1 (5 ∷ []) cut refl (omega arith) (omega arith)

-- The peer behind its first snapshot, whose entry 0 has term 1.
abbrev behind : Raft ℕ
behind = record peer {
  logs = at_term 1 7 ∷ at_term 1 8 ∷ at_term 1 9 ∷ at_term 2 6 ∷ [];
  last_included_index = 1;
}

abbrev install_args : InstallSnapshotArgs
install_args = record {
  term = 3;
  leader_id = 1;
  last_included_index = 3;
  last_included_term = 1;
  bytes = 5 ∷ 6 ∷ [];
}

abbrev installed : Raft ℕ
installed = state_after behind (install_snapshot coding behind install_args)

abbrev answer : InstallSnapshotReply
answer = record { term = 3 }

install_snapshot_effect_example :
    (installed.last_included_index ≡ 3)
    × (installed.commit_index ≡ 3)
    × (installed.last_applied ≡ 3)
    × (installed.snapshot ≡ 5 ∷ 6 ∷ [])
    × (term_at installed 3 ≡ some 1)
    × (real_log_len installed ≡ (
        if keeps_suffix coding behind install_args (at_term 1 7)
        then real_log_len behind
        else 3 + 1))
    × ((i : ℕ)
        → 3 < i
        → entry_at installed i ≡ (
            if keeps_suffix coding behind install_args (at_term 1 7)
            then entry_at behind i
            else none))
unfolding install_snapshot install_point install obey cut_log find_snapshot_point persist save clone
install_snapshot_effect_example =
    install_snapshot_effect coding behind install_args (at_term 1 7) installed answer refl refl
      (omega arith) (omega arith) (omega arith)
