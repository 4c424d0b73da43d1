-- ===== src/Raft/Node/Leads.antt =====
-- The membership and the role of a running peer, through every step of Node but the votes: only a
-- vote that is counted makes a leader.
use mit6_824_labs.Prelude.{
  ℕ, ◌≡◌, ◌≤◌, if◌then◌else◌, ◌+◌, length, ◌⊎◌, inl, inr, true, false, Bool, some, arith,
  Option-cases,
}
use mit6_824_labs.Prelude.Int.{ℤ, pos}
use mit6_824_labs.Raft.Types.{
  Bytes, ApplyMsg, Raft, PersistentStatus, RequestVoteArgs, RequestVoteReply, AppendEntriesArgs,
  AppendEntriesReply, InstallSnapshotArgs, InstallSnapshotReply,
}
use mit6_824_labs.Raft.Persist.{Codec, persist}
use mit6_824_labs.Raft.Append.{
  append_entries, append_checked, append_matched, advance_commit, follow,
}
use mit6_824_labs.Raft.Leader.{
  is_leader, kill, start, broadcast_heartbeat, heartbeat_event, add_log_event,
  handle_install_snapshot_reply, handle_append_entries_reply, raise_indices, check_and_commit_logs,
  find_next_index, initialize_leader,
}
use mit6_824_labs.Raft.Vote.{
  request_vote, adopt_term, decide_vote, start_election, tick, handle_vote_reply, count_vote,
  become_leader,
}
use mit6_824_labs.Raft.Snapshot.{snapshot, install_snapshot, install_point, install, obey}
use mit6_824_labs.Raft.Applier.{begin_apply, end_apply}
use mit6_824_labs.Raft.Node.{Step}
use mit6_824_labs.Raft.Node.Branches.{
  request_vote_branches, append_entries_branches, install_snapshot_branches,
}

abbrev pub SameMember : {C : Type 0} → Raft C → Raft C → Type 0
SameMember rf rf' = (rf'.peers ≡ rf.peers) × (rf'.me ≡ rf.me)

-- The same member, and no leader, or one that led the same term.
abbrev pub Kept : {C : Type 0} → Raft C → Raft C → Type 0
Kept rf rf' =
    (rf'.peers ≡ rf.peers)
    × (rf'.me ≡ rf.me)
    × ((is_leader rf'.state ≡ false)
        ⊎ ((is_leader rf.state ≡ true) × (rf'.current_term ≡ rf.current_term)))

module _ {C : Type 0} (gob : Codec (PersistentStatus C)) where
  -- Steps that begin no election and count no vote.
  abbrev pub TakesNoVote : {rf rf' : Raft C} → Step gob rf rf' → Type 0
  TakesNoVote (Step.votes args reply h) = ⊥
  TakesNoVote (Step.ticks count h) = ⊥
  TakesNoVote (Step.counts_vote count count' args reply h) = ⊥
  TakesNoVote h = Unit

  persist-Kept : (rf : Raft C) {rf' : Raft C} → persist gob rf ≡ some rf' → Kept rf rf'
  unfolding persist
  persist-Kept rf h = ground arith

  Kept-trans : (a b c : Raft C) → Kept a b → Kept b c → Kept a c
  Kept-trans a b c h k = ground arith

  adopt_term-Kept : (rf : Raft C) (term : ℕ) → Kept rf (adopt_term rf term)
  unfolding adopt_term
  adopt_term-Kept rf term = ground arith

  decide_vote-Kept :
      (rf : Raft C) (args : RequestVoteArgs) {rf' : Raft C} {reply : RequestVoteReply}
      → decide_vote rf args ≡ some (rf', reply)
      → Kept rf rf'
  unfolding decide_vote
  decide_vote-Kept rf args h = ground arith

  pub request_vote-Kept :
      (rf : Raft C) (args : RequestVoteArgs) {rf' : Raft C} {reply : RequestVoteReply}
      → request_vote gob rf args ≡ some (rf', reply)
      → Kept rf rf'
  request_vote-Kept rf args h = elim (request_vote_branches gob rf args h) [
    | inl refused ↦ ground arith
    | inr (new, (r, decided, persisted)) ↦ ground (
      arith,
      adopt_term-Kept rf args.term,
      decide_vote-Kept (adopt_term rf args.term) args decided,
      persist-Kept r persisted,
    )
  ]

  append_checked-Kept :
      (rf : Raft C) (args : AppendEntriesArgs C) {rf' : Raft C} {reply : AppendEntriesReply}
      → append_checked rf args ≡ some (rf', reply)
      → Kept rf rf'
  unfolding append_checked append_matched advance_commit
  append_checked-Kept rf args h = ground arith

  follow-Kept : (rf : Raft C) (term : ℕ) → Kept rf (follow rf term)
  unfolding follow
  follow-Kept rf term = ground arith

  append_entries-Kept :
      (rf : Raft C) (args : AppendEntriesArgs C) {rf' : Raft C} {reply : AppendEntriesReply}
      → append_entries gob rf args ≡ some (rf', reply)
      → Kept rf rf'
  append_entries-Kept rf args h = elim (append_entries_branches gob rf args h) [
    | inl refused ↦ ground arith
    | inr (new, (r, checked, persisted)) ↦ ground (
      arith,
      follow-Kept rf args.term,
      append_checked-Kept (follow rf args.term) args checked,
      persist-Kept r persisted,
    )
  ]

  obey-Kept : (rf : Raft C) (term : ℕ) → Kept rf (obey rf term)
  unfolding obey
  obey-Kept rf term = ground arith

  install_point-Kept :
      (rf : Raft C) (args : InstallSnapshotArgs) {rf' : Raft C} {reply : InstallSnapshotReply}
      → install_point rf args ≡ some (rf', reply)
      → Kept rf rf'
  unfolding install_point install
  install_point-Kept rf args h = ground arith

  install_snapshot-Kept :
      (rf : Raft C) (args : InstallSnapshotArgs) {rf' : Raft C} {reply : InstallSnapshotReply}
      → install_snapshot gob rf args ≡ some (rf', reply)
      → Kept rf rf'
  install_snapshot-Kept rf args h = elim (install_snapshot_branches gob rf args h) [
    | inl refused ↦ ground arith
    | inr (inl stale) ↦ ground (arith, obey-Kept rf args.term)
    | inr (inr (new, (r, installed, persisted))) ↦ ground (
      arith,
      obey-Kept rf args.term,
      install_point-Kept (obey rf args.term) args installed,
      persist-Kept r persisted,
    )
  ]

  snapshot-Kept :
      (rf : Raft C) (index : ℕ) (bytes : Bytes) {rf' : Raft C}
      → snapshot gob rf index bytes ≡ some rf'
      → Kept rf rf'
  unfolding snapshot persist
  snapshot-Kept rf index bytes h = ground arith

  start-Kept :
      (rf : Raft C) (command : C) {rf' : Raft C} {answer : ℤ × ℤ × Bool}
      → start gob rf command ≡ some (rf', answer)
      → Kept rf rf'
  unfolding start persist
  start-Kept rf command h = ground arith

  heartbeat_event-Kept : (rf : Raft C) {rf' : Raft C} → heartbeat_event rf ≡ some rf' → Kept rf rf'
  unfolding heartbeat_event broadcast_heartbeat
  heartbeat_event-Kept rf h = ground arith

  add_log_event-Kept : (rf : Raft C) {rf' : Raft C} → add_log_event rf ≡ some rf' → Kept rf rf'
  unfolding add_log_event broadcast_heartbeat
  add_log_event-Kept rf h = ground arith

  raise_indices-Kept :
      (rf : Raft C) (peer reached : ℕ) {rf' : Raft C}
      → raise_indices rf peer reached ≡ some rf'
      → Kept rf rf'
  unfolding raise_indices
  raise_indices-Kept rf peer reached h = ground arith

  check_and_commit-Kept :
      (rf : Raft C) {rf' : Raft C} → check_and_commit_logs rf ≡ some rf' → Kept rf rf'
  unfolding check_and_commit_logs
  check_and_commit-Kept rf h = ground arith

  find_next_index-Kept :
      (rf : Raft C) (peer : ℕ) (reply : AppendEntriesReply) {rf' : Raft C}
      → find_next_index rf peer reply ≡ some rf'
      → Kept rf rf'
  unfolding find_next_index
  find_next_index-Kept rf peer reply h = ground arith

  install_reply-Kept :
      (rf : Raft C) (peer : ℕ) (args : InstallSnapshotArgs) (reply : InstallSnapshotReply)
      {rf' : Raft C}
      → handle_install_snapshot_reply gob rf peer args reply ≡ some rf'
      → Kept rf rf'
  unfolding handle_install_snapshot_reply persist
  install_reply-Kept rf peer args reply {rf'} h =
      ground (arith, raise_indices-Kept rf peer args.last_included_index {rf' = rf'})

  append_reply-Kept :
      (rf : Raft C) (peer : ℕ) (args : AppendEntriesArgs C) (reply : AppendEntriesReply)
      {rf' : Raft C}
      → handle_append_entries_reply gob rf peer args reply ≡ some rf'
      → Kept rf rf'
  unfolding handle_append_entries_reply persist
  append_reply-Kept rf peer args reply {rf'} h =
      let reached = args.prev_log_index + length args.entries in
      elim (Option-cases (raise_indices rf peer reached)) [
        | inl e ↦ ground (arith, find_next_index-Kept rf peer reply {rf' = rf'})
        | inr (rf₁, e) ↦ ground (
          arith,
          raise_indices-Kept rf peer reached e,
          check_and_commit-Kept rf₁ {rf' = rf'},
          find_next_index-Kept rf peer reply {rf' = rf'},
        )
      ]

  begin_apply-Kept :
      (rf : Raft C) (msg : ApplyMsg C) {rf' : Raft C} → begin_apply rf msg ≡ some rf' → Kept rf rf'
  unfolding begin_apply
  begin_apply-Kept rf msg h = ground arith

  pub Step-Kept : {rf rf' : Raft C} (h : Step gob rf rf') → TakesNoVote h → Kept rf rf'
  unfolding end_apply kill
  Step-Kept (Step.votes args reply h) quiet = absurd quiet
  Step-Kept {rf} (Step.appends args reply h) quiet = append_entries-Kept rf args h
  Step-Kept {rf} (Step.installs args reply h) quiet = install_snapshot-Kept rf args h
  Step-Kept {rf} {rf'} (Step.snapshots index bytes h) quiet = snapshot-Kept rf index bytes h
  Step-Kept {rf} {rf'} (Step.starts command answer h) quiet = start-Kept rf command h
  Step-Kept (Step.ticks count h) quiet = absurd quiet
  Step-Kept {rf} (Step.beats h) quiet = heartbeat_event-Kept rf h
  Step-Kept {rf} (Step.adds_log h) quiet = add_log_event-Kept rf h
  Step-Kept (Step.counts_vote count count' args reply h) quiet = absurd quiet
  Step-Kept {rf} (Step.hears_append peer args reply h) quiet =
      append_reply-Kept rf peer args reply h
  Step-Kept {rf} (Step.hears_install peer args reply h) quiet =
      install_reply-Kept rf peer args reply h
  Step-Kept {rf} (Step.begins_apply msg h) quiet = begin_apply-Kept rf msg h
  Step-Kept (Step.ends_apply msg h) quiet = ground arith
  Step-Kept (Step.dies h) quiet = ground arith

  -- A time-out makes a candidate of the next term, with one vote.
  pub tick_begins :
      (rf : Raft C) {rf' : Raft C} {count : ℕ}
      → tick gob rf ≡ some (rf', count)
      → SameMember rf rf'
        × (is_leader rf'.state ≡ false)
        × (rf'.current_term ≡ rf.current_term + 1)
        × (rf'.voted_for ≡ pos rf.me)
        × (count ≡ 1)
  unfolding tick start_election persist
  tick_begins rf h = ground arith

  pub count_vote-SameMember :
      (rf : Raft C) (count : ℕ) (reply : RequestVoteReply) {rf' : Raft C} {count' : ℕ}
      → count_vote rf count reply ≡ some (rf', count')
      → SameMember rf rf' × (count' ≡ count + (if reply.vote_granted then 1 else 0))
  unfolding count_vote become_leader initialize_leader broadcast_heartbeat
  count_vote-SameMember rf count reply h = ground arith

  -- A reply adds at most its vote.
  pub vote_reply_counts :
      (rf : Raft C) (count : ℕ) (args : RequestVoteArgs) (reply : RequestVoteReply) {rf' : Raft C}
      {count' : ℕ}
      → handle_vote_reply gob rf count args reply ≡ some (rf', count')
      → SameMember rf rf'
        × (count' ≤ count + (if reply.vote_granted then 1 else 0))
        × (count ≤ count')
  unfolding handle_vote_reply persist
  vote_reply_counts rf count args reply {rf'} {count'} h =
      ground (arith, count_vote-SameMember rf count reply {rf' = rf'} {count' = count'})
