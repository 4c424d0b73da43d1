-- ===== src/Raft/Node/Votes.antt =====
-- The term and the vote of a running peer, through every step of Node.
use mit6_824_labs.Prelude.{
  ℕ, ◌≡◌, ◌+◌, length, ◌<◌, ◌⊎◌, inl, inr, refl, true, Bool, some, arith, Option-cases,
}
use mit6_824_labs.Prelude.Int.{ℤ, pos, ==ℤ→eq}
use mit6_824_labs.Raft.Types.{
  Bytes, ApplyMsg, Raft, PersistentStatus, no_vote, RequestVoteArgs, RequestVoteReply,
  AppendEntriesArgs, AppendEntriesReply, InstallSnapshotArgs, InstallSnapshotReply,
}
use mit6_824_labs.Raft.Persist.{Codec, persist}
use mit6_824_labs.Raft.Persist.Frame.{persist_frame}
use mit6_824_labs.Raft.Append.{
  append_entries, append_checked, append_matched, advance_commit, follow,
}
use mit6_824_labs.Raft.Leader.{
  kill, start, broadcast_heartbeat, heartbeat_event, add_log_event, handle_install_snapshot_reply,
  handle_append_entries_reply, initialize_leader, raise_indices, check_and_commit_logs,
  find_next_index,
}
use mit6_824_labs.Raft.Vote.{
  request_vote, adopt_term, decide_vote, may_vote, start_election, tick, handle_vote_reply,
  count_vote, become_leader,
}
use mit6_824_labs.Raft.Snapshot.{snapshot, install_snapshot, install_point, install, obey}
use mit6_824_labs.Raft.Applier.{begin_apply, end_apply}
use mit6_824_labs.Raft.Node.{Step, Steps}
use mit6_824_labs.Raft.Node.Branches.{
  request_vote_branches, append_entries_branches, install_snapshot_branches,
}

-- A later term, or the same term and a vote that was kept or not yet given.
abbrev pub Later : {C : Type 0} → Raft C → Raft C → Type 0
Later rf rf' =
    (rf.current_term < rf'.current_term)
    ⊎ ((rf.current_term ≡ rf'.current_term)
        × ((rf.voted_for ≡ rf'.voted_for) ⊎ (rf.voted_for ≡ no_vote)))

module _ {C : Type 0} (gob : Codec (PersistentStatus C)) where
  abbrev Same : Raft C → Raft C → Type 0
  Same rf rf' = (rf.current_term ≡ rf'.current_term) × (rf.voted_for ≡ rf'.voted_for)

  persist-Same : (rf : Raft C) {rf' : Raft C} → persist gob rf ≡ some rf' → Same rf rf'
  persist-Same rf h = ground (arith, persist_frame gob rf h)

  Later-refl : (rf : Raft C) → Later rf rf
  Later-refl rf = inr (refl, inl refl)

  pub Later-trans : (a b c : Raft C) → Later a b → Later b c → Later a c
  Later-trans a b c h k = ground arith

  -- The vote is still free, or the candidate has it.
  pub may_vote_free :
      (rf : Raft C) (args : RequestVoteArgs)
      → may_vote rf args ≡ some true
      → (rf.voted_for ≡ no_vote) ⊎ (rf.voted_for ≡ pos args.candidate_id)
  unfolding may_vote
  may_vote_free rf args h =
      ground (arith, ==ℤ→eq rf.voted_for no_vote, ==ℤ→eq rf.voted_for (pos args.candidate_id))

  decide_vote-Later :
      (rf : Raft C) (args : RequestVoteArgs) {rf' : Raft C} {reply : RequestVoteReply}
      → decide_vote rf args ≡ some (rf', reply)
      → Later rf rf'
  unfolding decide_vote
  decide_vote-Later rf args h = ground (arith, may_vote_free rf args)

  adopt_term-Later : (rf : Raft C) (term : ℕ) → Later rf (adopt_term rf term)
  unfolding adopt_term
  adopt_term-Later rf term = ground arith

  request_vote-Later :
      (rf : Raft C) (args : RequestVoteArgs) {rf' : Raft C} {reply : RequestVoteReply}
      → request_vote gob rf args ≡ some (rf', reply)
      → Later rf rf'
  request_vote-Later rf args h = elim (request_vote_branches gob rf args h) [
    | inl refused ↦ ground arith
    | inr (new, (r, decided, persisted)) ↦ ground (
      arith,
      adopt_term-Later rf args.term,
      decide_vote-Later (adopt_term rf args.term) args decided,
      persist-Same r persisted,
    )
  ]

  append_checked-Same :
      (rf : Raft C) (args : AppendEntriesArgs C) {rf' : Raft C} {reply : AppendEntriesReply}
      → append_checked rf args ≡ some (rf', reply)
      → Same rf rf'
  unfolding append_checked append_matched advance_commit
  append_checked-Same rf args h = ground arith

  follow-Later : (rf : Raft C) (term : ℕ) → Later rf (follow rf term)
  unfolding follow
  follow-Later rf term = ground arith

  append_entries-Later :
      (rf : Raft C) (args : AppendEntriesArgs C) {rf' : Raft C} {reply : AppendEntriesReply}
      → append_entries gob rf args ≡ some (rf', reply)
      → Later rf rf'
  append_entries-Later rf args h = elim (append_entries_branches gob rf args h) [
    | inl refused ↦ ground arith
    | inr (new, (r, checked, persisted)) ↦ ground (
      arith,
      follow-Later rf args.term,
      append_checked-Same (follow rf args.term) args checked,
      persist-Same r persisted,
    )
  ]

  obey-Later : (rf : Raft C) (term : ℕ) → Later rf (obey rf term)
  unfolding obey
  obey-Later rf term = ground arith

  install_point-Same :
      (rf : Raft C) (args : InstallSnapshotArgs) {rf' : Raft C} {reply : InstallSnapshotReply}
      → install_point rf args ≡ some (rf', reply)
      → Same rf rf'
  unfolding install_point install
  install_point-Same rf args h = ground arith

  install_snapshot-Later :
      (rf : Raft C) (args : InstallSnapshotArgs) {rf' : Raft C} {reply : InstallSnapshotReply}
      → install_snapshot gob rf args ≡ some (rf', reply)
      → Later rf rf'
  install_snapshot-Later rf args h = elim (install_snapshot_branches gob rf args h) [
    | inl refused ↦ ground arith
    | inr (inl stale) ↦ ground (arith, obey-Later rf args.term)
    | inr (inr (new, (r, installed, persisted))) ↦ ground (
      arith,
      obey-Later rf args.term,
      install_point-Same (obey rf args.term) args installed,
      persist-Same r persisted,
    )
  ]

  snapshot-Same :
      (rf : Raft C) (index : ℕ) (bytes : Bytes) {rf' : Raft C}
      → snapshot gob rf index bytes ≡ some rf'
      → Same rf rf'
  unfolding snapshot persist
  snapshot-Same rf index bytes h = ground arith

  start-Same :
      (rf : Raft C) (command : C) {rf' : Raft C} {answer : ℤ × ℤ × Bool}
      → start gob rf command ≡ some (rf', answer)
      → Same rf rf'
  unfolding start persist
  start-Same rf command h = ground arith

  tick-Later :
      (rf : Raft C) {rf' : Raft C} {count : ℕ} → tick gob rf ≡ some (rf', count) → Later rf rf'
  unfolding tick start_election persist
  tick-Later rf h = ground arith

  broadcast-Same : (rf : Raft C) {rf' : Raft C} → broadcast_heartbeat rf ≡ some rf' → Same rf rf'
  unfolding broadcast_heartbeat
  broadcast-Same rf h = ground arith

  heartbeat_event-Same : (rf : Raft C) {rf' : Raft C} → heartbeat_event rf ≡ some rf' → Same rf rf'
  unfolding heartbeat_event broadcast_heartbeat
  heartbeat_event-Same rf h = ground arith

  add_log_event-Same : (rf : Raft C) {rf' : Raft C} → add_log_event rf ≡ some rf' → Same rf rf'
  unfolding add_log_event broadcast_heartbeat
  add_log_event-Same rf h = ground arith

  become_leader-Same : (rf : Raft C) {rf' : Raft C} → become_leader rf ≡ some rf' → Same rf rf'
  unfolding become_leader initialize_leader broadcast_heartbeat
  become_leader-Same rf h = ground arith

  count_vote-Same :
      (rf : Raft C) (count : ℕ) (reply : RequestVoteReply) {rf' : Raft C} {count' : ℕ}
      → count_vote rf count reply ≡ some (rf', count')
      → Same rf rf'
  unfolding count_vote become_leader initialize_leader broadcast_heartbeat
  count_vote-Same rf count reply h = ground arith

  handle_vote_reply-Later :
      (rf : Raft C) (count : ℕ) (args : RequestVoteArgs) (reply : RequestVoteReply) {rf' : Raft C}
      {count' : ℕ}
      → handle_vote_reply gob rf count args reply ≡ some (rf', count')
      → Later rf rf'
  unfolding handle_vote_reply persist
  handle_vote_reply-Later rf count args reply {rf'} {count'} h =
      ground (arith, count_vote-Same rf count reply {rf' = rf'} {count' = count'})

  raise_indices-Same :
      (rf : Raft C) (peer reached : ℕ) {rf' : Raft C}
      → raise_indices rf peer reached ≡ some rf'
      → Same rf rf'
  unfolding raise_indices
  raise_indices-Same rf peer reached h = ground arith

  check_and_commit-Same :
      (rf : Raft C) {rf' : Raft C} → check_and_commit_logs rf ≡ some rf' → Same rf rf'
  unfolding check_and_commit_logs
  check_and_commit-Same rf h = ground arith

  find_next_index-Same :
      (rf : Raft C) (peer : ℕ) (reply : AppendEntriesReply) {rf' : Raft C}
      → find_next_index rf peer reply ≡ some rf'
      → Same rf rf'
  unfolding find_next_index
  find_next_index-Same rf peer reply h = ground arith

  install_reply-Later :
      (rf : Raft C) (peer : ℕ) (args : InstallSnapshotArgs) (reply : InstallSnapshotReply)
      {rf' : Raft C}
      → handle_install_snapshot_reply gob rf peer args reply ≡ some rf'
      → Later rf rf'
  unfolding handle_install_snapshot_reply persist
  install_reply-Later rf peer args reply {rf'} h =
      ground (arith, raise_indices-Same rf peer args.last_included_index {rf' = rf'})

  append_reply-Later :
      (rf : Raft C) (peer : ℕ) (args : AppendEntriesArgs C) (reply : AppendEntriesReply)
      {rf' : Raft C}
      → handle_append_entries_reply gob rf peer args reply ≡ some rf'
      → Later rf rf'
  unfolding handle_append_entries_reply persist
  append_reply-Later rf peer args reply {rf'} h =
      let reached = args.prev_log_index + length args.entries in
      elim (Option-cases (raise_indices rf peer reached)) [
        | inl e ↦ ground (arith, find_next_index-Same rf peer reply {rf' = rf'})
        | inr (rf₁, e) ↦ ground (
          arith,
          raise_indices-Same rf peer reached e,
          check_and_commit-Same rf₁ {rf' = rf'},
          find_next_index-Same rf peer reply {rf' = rf'},
        )
      ]

  begin_apply-Same :
      (rf : Raft C) (msg : ApplyMsg C) {rf' : Raft C} → begin_apply rf msg ≡ some rf' → Same rf rf'
  unfolding begin_apply
  begin_apply-Same rf msg h = ground arith

  Same-Later : (rf rf' : Raft C) → Same rf rf' → Later rf rf'
  Same-Later rf rf' (t, v) = inr (t, inl v)

  -- Every step leads to a later term, or keeps the term and a vote that was given.
  pub Step-Later : {rf rf' : Raft C} → Step gob rf rf' → Later rf rf'
  unfolding end_apply kill
  Step-Later {rf} (Step.votes args reply h) = request_vote-Later rf args h
  Step-Later {rf} (Step.appends args reply h) = append_entries-Later rf args h
  Step-Later {rf} (Step.installs args reply h) = install_snapshot-Later rf args h
  Step-Later {rf} {rf'} (Step.snapshots index bytes h) =
      Same-Later rf rf' (snapshot-Same rf index bytes h)
  Step-Later {rf} {rf'} (Step.starts command answer h) = Same-Later rf rf' (start-Same rf command h)
  Step-Later {rf} (Step.ticks count h) = tick-Later rf h
  Step-Later {rf} {rf'} (Step.beats h) = Same-Later rf rf' (heartbeat_event-Same rf h)
  Step-Later {rf} {rf'} (Step.adds_log h) = Same-Later rf rf' (add_log_event-Same rf h)
  Step-Later {rf} (Step.counts_vote count count' args reply h) =
      handle_vote_reply-Later rf count args reply h
  Step-Later {rf} (Step.hears_append peer args reply h) = append_reply-Later rf peer args reply h
  Step-Later {rf} (Step.hears_install peer args reply h) = install_reply-Later rf peer args reply h
  Step-Later {rf} {rf'} (Step.begins_apply msg h) = Same-Later rf rf' (begin_apply-Same rf msg h)
  Step-Later (Step.ends_apply msg h) = ground arith
  Step-Later (Step.dies h) = ground arith

  pub Steps-Later : {rf rf' : Raft C} → Steps gob rf rf' → Later rf rf'
  Steps-Later {rf} Steps.here = Later-refl rf
  Steps-Later {rf} {rf'} (Steps.next {rf' = rf₁} s h) =
      Later-trans rf rf₁ rf' (Steps-Later s) (Step-Later h)

  -- A granted request: the reply's term, and the vote that stands behind it.
  pub granted_vote :
      (rf : Raft C) (args : RequestVoteArgs) {rf' : Raft C} {reply : RequestVoteReply}
      → request_vote gob rf args ≡ some (rf', reply)
      → reply.vote_granted ≡ true
      → (rf'.current_term ≡ args.term) × (rf'.voted_for ≡ pos args.candidate_id)
  unfolding request_vote decide_vote adopt_term persist
  granted_vote rf args h g = ground arith

  -- Along any steps of a peer that does not restart, two requests of one term that it grants come
  -- from the same candidate.
  pub vote_once :
      (a b c d : Raft C) (args args' : RequestVoteArgs) (reply reply' : RequestVoteReply)
      → request_vote gob a args ≡ some (b, reply)
      → reply.vote_granted ≡ true
      → Steps gob b c
      → request_vote gob c args' ≡ some (d, reply')
      → reply'.vote_granted ≡ true
      → args'.term ≡ args.term
      → args'.candidate_id ≡ args.candidate_id
  vote_once a b c d args args' reply reply' h g s h' g' same = ground (
    arith,
    granted_vote a args h g,
    granted_vote c args' h' g',
    Steps-Later s,
    request_vote-Later c args' h',
  )
