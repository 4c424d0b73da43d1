-- ===== src/Raft/Node/Branches.antt =====
-- The ways out of the three RPC handlers: refused at the term check, or run and persisted.
use mit6_824_labs.Prelude.{
  ◌≤◌, ◌<◌, ◌≡◌, ◌⊎◌, inl, inr, some, arith, leb, ltb, false, Option, Option-cases, Bool-cases,
}
use mit6_824_labs.Raft.Types.{
  Raft, PersistentStatus, RequestVoteArgs, RequestVoteReply, AppendEntriesArgs, AppendEntriesReply,
  InstallSnapshotArgs, InstallSnapshotReply,
}
use mit6_824_labs.Prelude.Int.{pos}
use mit6_824_labs.Raft.Persist.{Codec, persist, persist_after}
use mit6_824_labs.Raft.Append.{append_entries, append_checked, follow, reject}
use mit6_824_labs.Raft.Vote.{request_vote, adopt_term, decide_vote, vote}
use mit6_824_labs.Raft.Snapshot.{install_snapshot, obey, install_point, current}

module _ {C : Type 0} (gob : Codec (PersistentStatus C)) where
  persist_after_branch :
      {R : Type 0} (body : Option (Raft C × R)) {rf' : Raft C} {reply : R}
      → persist_after gob body ≡ some (rf', reply)
      → (r : Raft C) × (body ≡ some (r, reply)) × (persist gob r ≡ some rf')
  persist_after_branch body h = elim (Option-cases body) [
    | inl e ↦ absurd (ground arith)
    | inr ((r, out), e) ↦ elim (Option-cases (persist gob r)) [
      | inl f ↦ absurd (ground arith)
      | inr (r', f) ↦ (r, ground arith, ground arith)
    ]
  ]

  pub request_vote_branches :
      (rf : Raft C) (args : RequestVoteArgs) {rf' : Raft C} {reply : RequestVoteReply}
      → request_vote gob rf args ≡ some (rf', reply)
      → ((args.term < rf.current_term) × (rf' ≡ rf) × (reply ≡ vote rf false))
        ⊎ ((rf.current_term ≤ args.term)
            × ((r : Raft C) × (decide_vote (adopt_term rf args.term) args ≡ some (r, reply))
                × (persist gob r ≡ some rf')))
  unfolding request_vote
  request_vote_branches rf args h = elim (Bool-cases (ltb args.term rf.current_term)) [
    | inl old ↦ inl (ground arith, ground arith, ground arith)
    | inr new ↦ inr (ground arith, persist_after_branch _ (rw new at h))
  ]

  pub append_entries_branches :
      (rf : Raft C) (args : AppendEntriesArgs C) {rf' : Raft C} {reply : AppendEntriesReply}
      → append_entries gob rf args ≡ some (rf', reply)
      → ((args.term < rf.current_term) × (rf' ≡ rf) × (reply ≡ reject rf (pos 0) (pos 0) 0))
        ⊎ ((rf.current_term ≤ args.term)
            × ((r : Raft C) × (append_checked (follow rf args.term) args ≡ some (r, reply))
                × (persist gob r ≡ some rf')))
  unfolding append_entries
  append_entries_branches rf args h = elim (Bool-cases (ltb args.term rf.current_term)) [
    | inl old ↦ inl (ground arith, ground arith, ground arith)
    | inr new ↦ inr (ground arith, persist_after_branch _ (rw new at h))
  ]

  -- With a stale snapshot index the term and the role change, and nothing is persisted.
  pub install_snapshot_branches :
      (rf : Raft C) (args : InstallSnapshotArgs) {rf' : Raft C} {reply : InstallSnapshotReply}
      → install_snapshot gob rf args ≡ some (rf', reply)
      → ((args.term < rf.current_term) × (rf' ≡ rf) × (reply ≡ current rf))
        ⊎ ((rf.current_term ≤ args.term) × (rf' ≡ obey rf args.term))
        ⊎ ((rf.current_term ≤ args.term)
            × ((r : Raft C) × (install_point (obey rf args.term) args ≡ some (r, reply))
                × (persist gob r ≡ some rf')))
  unfolding install_snapshot
  install_snapshot_branches rf args h =
      let rf₁ = obey rf args.term in
      elim (Bool-cases (ltb args.term rf.current_term)) [
        | inl old ↦ inl (ground arith, ground arith, ground arith)
        | inr new ↦ elim (Bool-cases (leb args.last_included_index rf₁.last_included_index)) [
          | inl covered ↦ inr (inl (ground arith, ground arith))
          | inr ahead ↦ elim (Bool-cases (leb args.last_included_index rf₁.commit_index)) [
            | inl committed ↦ inr (inl (ground arith, ground arith))
            | inr open_index ↦
                inr (inr (ground arith, persist_after_branch _ (rw (new, ahead, open_index) at h)))
          ]
        ]
      ]
