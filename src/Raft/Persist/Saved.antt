-- ===== src/Raft/Persist/Saved.antt =====
-- What stands on stable storage when a handler returns.
use mit6_824_labs.Prelude.{
  ℕ, ◌+◌, ◌≡◌, ◌≤◌, ◌<◌, inl, inr, ◌∙◌, some, Bool, arith, Option-cases, Bool-cases, [], ◌∷◌, ◌++◌,
}
use mit6_824_labs.Prelude.Int.{ℤ, pos}
use mit6_824_labs.Raft.Types.{
  Raft, Role, PersistentStatus, RequestVoteArgs, RequestVoteReply, AppendEntriesArgs,
  AppendEntriesReply, InstallSnapshotArgs, InstallSnapshotReply,
}
use mit6_824_labs.Raft.Persist.{Codec, IsLossless, status, persist, save, clone_lem}
use mit6_824_labs.Raft.Append.{append_entries}
use mit6_824_labs.Raft.Leader.{start, is_leader}
use mit6_824_labs.Raft.Vote.{request_vote, start_election, tick}
use mit6_824_labs.Raft.Snapshot.{install_snapshot, obey}
use mit6_824_labs.Raft.Node.Branches.{request_vote_branches, append_entries_branches}

module _ {C : Type 0} (gob : Codec (PersistentStatus C)) where
  -- The stable state encodes the term, the vote, the log and the snapshot point in memory, and the
  -- stable snapshot is the one in memory.
  pub record IsSaved (rf : Raft C) : Type 0 where
    pub stored :
        (st : PersistentStatus C) × (status gob rf ≡ some st)
        × (gob.encode st ≡ some rf.persister.raftstate)
    pub snapshotted : rf.persister.snapshot ≡ rf.snapshot

  pub persist-IsSaved :
      IsLossless gob → (rf : Raft C) {rf' : Raft C} → persist gob rf ≡ some rf' → IsSaved rf'
  unfolding persist save
  persist-IsSaved lossless rf {rf'} h = elim (Option-cases (status gob rf)) [
    | inl bad ↦ absurd (ground arith)
    | inr (st, at) ↦ elim (Option-cases (gob.encode st)) [
      | inl bad ↦ absurd (lossless.encodes st bad)
      | inr (bytes, e) ↦ record {
        stored = (st, ground (arith, at, e), ground (arith, at, e, clone_lem bytes));
        snapshotted = ground (arith, at, e, clone_lem rf.snapshot);
      }
    ]
  ]

  request_vote-IsSaved :
      IsLossless gob
      → (rf : Raft C) (args : RequestVoteArgs) {rf' : Raft C} {reply : RequestVoteReply}
      → IsSaved rf
      → request_vote gob rf args ≡ some (rf', reply)
      → IsSaved rf'
  request_vote-IsSaved lossless rf args s h = elim (request_vote_branches gob rf args h) [
    | inl (old, same, _) ↦ rw same s
    | inr (new, (r, _, persisted)) ↦ persist-IsSaved lossless r persisted
  ]

  append_entries-IsSaved :
      IsLossless gob
      → (rf : Raft C) (args : AppendEntriesArgs C) {rf' : Raft C} {reply : AppendEntriesReply}
      → IsSaved rf
      → append_entries gob rf args ≡ some (rf', reply)
      → IsSaved rf'
  append_entries-IsSaved lossless rf args s h = elim (append_entries_branches gob rf args h) [
    | inl (old, same, _) ↦ rw same s
    | inr (new, (r, _, persisted)) ↦ persist-IsSaved lossless r persisted
  ]

  -- Fields that persist() does not read may change behind it.
  IsSaved-frame :
      (rf rf' : Raft C)
      → rf'.persister ≡ rf.persister
      → rf'.snapshot ≡ rf.snapshot
      → status gob rf' ≡ status gob rf
      → IsSaved rf
      → IsSaved rf'
  IsSaved-frame rf rf' p q r s = record {
    stored = let (st, at, e) = s.stored in (st, r ∙ at, ground (arith, e));
    snapshotted = ground (arith, s.snapshotted);
  }

  start-IsSaved :
      IsLossless gob
      → (rf : Raft C) (command : C) {rf' : Raft C} {answer : ℤ × ℤ × Bool} → IsSaved rf
      → start gob rf command ≡ some (rf', answer)
      → IsSaved rf'
  unfolding start
  start-IsSaved lossless rf command {rf'} s h =
      let grown = record rf {
        logs = rf.logs ++ record { term = rf.current_term; cmd = some command } ∷ [];
      } in
      elim (Bool-cases (is_leader rf.state)) [
        | inr not_leader ↦ let same : rf' ≡ rf = ground arith in rw same s
        | inl leads ↦ elim (Option-cases (persist gob grown)) [
          | inl e ↦ absurd (ground arith)
          | inr (r, e) ↦
              IsSaved-frame r rf' (ground arith) (ground arith) (ground arith)
                (persist-IsSaved lossless grown e)
        ]
      ]

  tick-IsSaved :
      IsLossless gob
      → (rf : Raft C) {rf' : Raft C} {count : ℕ} → tick gob rf ≡ some (rf', count)
      → IsSaved rf'
  unfolding tick start_election
  tick-IsSaved lossless rf {rf'} h =
      let grown = record rf {
        state = Role.candidate;
        voted_for = pos rf.me;
        current_term = rf.current_term + 1;
      } in
      elim (Option-cases (persist gob grown)) [
        | inl e ↦ absurd (ground (arith, e))
        | inr (r, e) ↦
            IsSaved-frame r rf' (ground arith) (ground arith) (ground arith)
              (persist-IsSaved lossless grown e)
      ]

  -- A return of RequestVote, AppendEntries or Start, or a tick of the election timer.
  pub data Returns (rf rf' : Raft C) : Type 0 where
    votes :
        (args : RequestVoteArgs) (reply : RequestVoteReply)
        → request_vote gob rf args ≡ some (rf', reply)
        → Returns rf rf'
    appends :
        (args : AppendEntriesArgs C) (reply : AppendEntriesReply)
        → append_entries gob rf args ≡ some (rf', reply)
        → Returns rf rf'
    starts :
        (command : C) (answer : ℤ × ℤ × Bool)
        → start gob rf command ≡ some (rf', answer)
        → Returns rf rf'
    ticks : (count : ℕ) → tick gob rf ≡ some (rf', count) → Returns rf rf'

  -- With lossless encoding, what RequestVote, AppendEntries and Start leave in memory when they
  -- return is what stands on stable storage, if it was so before; so it is in the new term when an
  -- election begins.
  pub replies-IsSaved :
      IsLossless gob → (rf rf' : Raft C) → IsSaved rf → Returns rf rf' → IsSaved rf'
  replies-IsSaved lossless rf rf' s (Returns.votes args reply h) =
      request_vote-IsSaved lossless rf args s h
  replies-IsSaved lossless rf rf' s (Returns.appends args reply h) =
      append_entries-IsSaved lossless rf args s h
  replies-IsSaved lossless rf rf' s (Returns.starts command answer h) =
      start-IsSaved lossless rf command s h
  replies-IsSaved lossless rf rf' s (Returns.ticks count h) = tick-IsSaved lossless rf h

  -- InstallSnapshot forgets: on a later term with a snapshot index that is not ahead of the
  -- commit index and the snapshot point, it answers in the new term, and what stands on stable
  -- storage stays in the old one.
  pub install_snapshot_unsaved :
      IsLossless gob
      → (rf : Raft C) (args : InstallSnapshotArgs) (rf' : Raft C) (reply : InstallSnapshotReply)
      → install_snapshot gob rf args ≡ some (rf', reply)
      → IsSaved rf
      → rf.current_term < args.term
      → args.last_included_index ≤ rf.commit_index
      → (reply.term ≡ args.term)
        × (rf'.current_term ≡ args.term)
        × (rf'.persister ≡ rf.persister)
        × ¬ IsSaved rf'
  unfolding install_snapshot obey
  install_snapshot_unsaved lossless rf args rf' reply h s new stale =
      let (st, at, e) = s.stored in
      (
        ground arith,
        ground arith,
        ground arith,
        λ s'.
            let (st', at', e') = s'.stored in
            absurd (
              ground (
                arith,
                at,
                at',
                e,
                e',
                lossless.lossless st rf.persister.raftstate e,
                lossless.lossless st' rf.persister.raftstate,
              )),
      )
