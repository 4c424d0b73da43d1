-- ===== src/Raft/Node/Total.antt =====
-- The reads of the log and of the index slices in the three RPC handlers.
use mit6_824_labs.Prelude.{
  ℕ, zero, suc, ◌+◌, ◌-◌, ◌≤◌, ◌<◌, ◌≡◌, ◌≢◌, inl, inr, none, some, Option, length, get_elem?-some,
  arith, Option-cases, dec_lt,
}
use mit6_824_labs.Prelude.Int.{ℤ, pos, minus_one}
use mit6_824_labs.Raft.Types.{
  Raft, PersistentStatus, RequestVoteArgs, AppendEntriesArgs, InstallSnapshotArgs,
}
use mit6_824_labs.Raft.Log.{last_log_term}
use mit6_824_labs.Raft.Persist.{Codec, persist, persist_after}
use mit6_824_labs.Raft.Append.{append_entries, append_checked, find_conflict, follow}
use mit6_824_labs.Raft.Vote.{request_vote, adopt_term, decide_vote, may_vote}
use mit6_824_labs.Raft.Snapshot.{install_snapshot, install_point, find_snapshot_point, obey}
use mit6_824_labs.Raft.Node.Valid.{
  IsValid, follow-IsValid, adopt_term-IsValid, obey-IsValid, decide_vote-IsValid,
  append_checked-IsValid, install_point-IsValid,
}

module _ {C : Type 0} (gob : Codec (PersistentStatus C)) where
  persist-ne-none : (rf : Raft C) → 0 < length rf.logs → persist gob rf ≢ none
  unfolding persist
  persist-ne-none rf h e = let (x, at) = get_elem?-some rf.logs 0 h in absurd (ground arith)

  last_log_term-ne-none : (rf : Raft C) → 0 < length rf.logs → last_log_term rf ≢ none
  last_log_term-ne-none rf h e =
      let (x, at) = get_elem?-some rf.logs 0 h in
      let (y, last) = get_elem?-some rf.logs (length rf.logs - 1) (omega arith) in
      absurd (ground arith)

  decide_vote-ne-none :
      (rf : Raft C) (args : RequestVoteArgs) → 0 < length rf.logs → decide_vote rf args ≢ none
  unfolding decide_vote may_vote
  decide_vote-ne-none rf args h e = elim (Option-cases (last_log_term rf)) [
    | inl bad ↦ last_log_term-ne-none rf h bad
    | inr (t, at) ↦ ground (arith, at)
  ]

  find_conflict-ne-none :
      (rf : Raft C) (t i : ℕ) (found : ℤ)
      → rf.last_included_index ≤ rf.commit_index
      → i < rf.last_included_index + length rf.logs
      → find_conflict rf t i found ≢ none
  unfolding find_conflict
  find_conflict-ne-none rf t zero found h l e = cc
  find_conflict-ne-none rf t (suc i) found h l e = elim (dec_lt rf.commit_index (suc i)) [
    | yes above ↦
        let (x, at) = get_elem?-some rf.logs (suc i - rf.last_included_index) (omega arith) in
        ground (arith, at, find_conflict-ne-none rf t i (pos (suc i)) h)
    | no below ↦ ground arith
  ]

  append_checked-ne-none :
      (rf : Raft C) (args : AppendEntriesArgs C) → IsValid rf → append_checked rf args ≢ none
  unfolding append_checked
  append_checked-ne-none rf args v e =
      elim (dec_lt args.prev_log_index (rf.last_included_index + length rf.logs)) [
        | yes inside ↦ elim (dec_lt args.prev_log_index rf.last_included_index) [
          | yes old ↦ ground arith
          | no new ↦
              let (x, at) =
                get_elem?-some rf.logs (args.prev_log_index - rf.last_included_index)
                  (omega arith) in
              ground (
                arith,
                at,
                find_conflict-ne-none rf x.term args.prev_log_index minus_one v.covered inside,
              )
        ]
        | no beyond ↦ ground arith
      ]

  find_snapshot_point-ne-none :
      (rf : Raft C) (args : InstallSnapshotArgs) (i n : ℕ)
      → 0 < length rf.logs
      → find_snapshot_point rf args i n ≢ none
  unfolding find_snapshot_point
  find_snapshot_point-ne-none rf args i zero h e = cc
  find_snapshot_point-ne-none rf args i (suc n) h e =
      let (x, at) = get_elem?-some rf.logs 0 h in
      ground (arith, at, find_snapshot_point-ne-none rf args (suc i) n h)

  install_point-ne-none :
      (rf : Raft C) (args : InstallSnapshotArgs) → 0 < length rf.logs → install_point rf args ≢ none
  unfolding install_point
  install_point-ne-none rf args h e =
      ground (arith, find_snapshot_point-ne-none rf args 1 (length rf.logs - 1) h)

  persist_after-ne-none :
      {R : Type 0} (body : Option (Raft C × R))
      → body ≢ none
      → ((r : Raft C) (out : R) → body ≡ some (r, out) → 0 < length r.logs)
      → persist_after gob body ≢ none
  persist_after-ne-none body returns kept e = elim (Option-cases body) [
    | inl bad ↦ returns bad
    | inr ((r, out), at) ↦ ground (arith, at, persist-ne-none r (kept r out at))
  ]

  -- In a valid peer the three RPC handlers return, whatever their arguments.
  pub rpc_no_panic :
      (rf : Raft C)
      → IsValid rf
      → ((args : RequestVoteArgs) → request_vote gob rf args ≢ none)
        × ((args : AppendEntriesArgs C) → append_entries gob rf args ≢ none)
        × ((args : InstallSnapshotArgs) → install_snapshot gob rf args ≢ none)
  unfolding request_vote append_entries install_snapshot
  rpc_no_panic rf v = (
    λ args e.
        let w = adopt_term-IsValid gob rf args.term v in
        ground (
          arith,
          persist_after-ne-none (decide_vote (adopt_term rf args.term) args)
              (decide_vote-ne-none (adopt_term rf args.term) args w.nonempty)
              (λ r out at. (decide_vote-IsValid gob (adopt_term rf args.term) args at w).nonempty),
        ),
    λ args e.
        let w = follow-IsValid gob rf args.term v in
        ground (
          arith,
          persist_after-ne-none (append_checked (follow rf args.term) args)
              (append_checked-ne-none (follow rf args.term) args w)
              (λ r out at. (append_checked-IsValid gob (follow rf args.term) args at w).nonempty),
        ),
    λ args e.
        let w = obey-IsValid gob rf args.term v in
        ground (
          arith,
          persist_after-ne-none (install_point (obey rf args.term) args)
              (install_point-ne-none (obey rf args.term) args w.nonempty)
              (λ r out at. (install_point-IsValid gob (obey rf args.term) args at w).nonempty),
        ),
  )
