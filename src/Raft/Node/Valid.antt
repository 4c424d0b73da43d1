-- ===== src/Raft/Node/Valid.antt =====
-- The shape of a running peer, through every step of Node.
use mit6_824_labs.Prelude.{
  ℕ, suc, ◌+◌, ◌-◌, ◌≤◌, ◌<◌, ◌≡◌, inl, inr, Bool, some, List, [], ◌∷◌, ◌++◌, length, length-append,
  length-set, length-replicate, take, replicate, arith, Option-cases,
}
use mit6_824_labs.Prelude.Int.{ℤ, pos}
use mit6_824_labs.Raft.Types.{
  Bytes, ApplyMsg, Raft, LogEntry, PersistentStatus, RequestVoteArgs, RequestVoteReply,
  AppendEntriesArgs, AppendEntriesReply, InstallSnapshotArgs, InstallSnapshotReply,
}
use mit6_824_labs.Raft.Persist.{Codec, persist}
use mit6_824_labs.Raft.Persist.Frame.{persist_frame}
use mit6_824_labs.Raft.Append.{
  append_entries, append_checked, append_matched, advance_commit, follow, copy_entry, copy_entries,
}
use mit6_824_labs.Raft.Leader.{
  kill, start, broadcast_heartbeat, heartbeat_event, add_log_event, handle_install_snapshot_reply,
  handle_append_entries_reply, initialize_leader, raise_indices, check_and_commit_logs,
  find_next_index,
}
use mit6_824_labs.Raft.Vote.{
  request_vote, adopt_term, decide_vote, start_election, tick, handle_vote_reply, count_vote,
  become_leader,
}
use mit6_824_labs.Raft.Snapshot.{snapshot, install_snapshot, install_point, install, obey, cut_log}
use mit6_824_labs.Raft.Applier.{begin_apply, end_apply}
use mit6_824_labs.Raft.Node.{Step}
use mit6_824_labs.Raft.Node.Branches.{
  request_vote_branches, append_entries_branches, install_snapshot_branches,
}

-- Entry 0 is there, the snapshot is committed, and the two index slices have a place for each peer,
-- this one among them.
pub record IsValid {C : Type 0} (rf : Raft C) : Type 0 where
  pub nonempty : 0 < length rf.logs
  pub covered : rf.last_included_index ≤ rf.commit_index
  pub next_sized : length rf.next_index ≡ rf.peers
  pub match_sized : length rf.match_index ≡ rf.peers
  pub member : rf.me < rf.peers

module _ {C : Type 0} (gob : Codec (PersistentStatus C)) where
  persist-IsValid :
      (rf : Raft C) {rf' : Raft C} → persist gob rf ≡ some rf' → IsValid rf → IsValid rf'
  persist-IsValid rf h v = ground (arith, persist_frame gob rf h)

  pub decide_vote-IsValid :
      (rf : Raft C) (args : RequestVoteArgs) {rf' : Raft C} {reply : RequestVoteReply}
      → decide_vote rf args ≡ some (rf', reply)
      → IsValid rf
      → IsValid rf'
  unfolding decide_vote
  decide_vote-IsValid rf args h v = ground arith

  pub adopt_term-IsValid : (rf : Raft C) (term : ℕ) → IsValid rf → IsValid (adopt_term rf term)
  unfolding adopt_term
  adopt_term-IsValid rf term v = ground arith

  request_vote-IsValid :
      (rf : Raft C) (args : RequestVoteArgs) {rf' : Raft C} {reply : RequestVoteReply}
      → request_vote gob rf args ≡ some (rf', reply)
      → IsValid rf
      → IsValid rf'
  request_vote-IsValid rf args {rf'} h v = elim (request_vote_branches gob rf args h) [
    | inl (old, same, _) ↦ rw same v
    | inr (new, (r, decided, persisted)) ↦ persist-IsValid r persisted (
        decide_vote-IsValid (adopt_term rf args.term) args decided
          (adopt_term-IsValid rf args.term v))
  ]

  copy_entry-nonempty :
      (logs : List (LogEntry C)) (i : ℕ) (e : LogEntry C)
      → 0 < length logs
      → 0 < length (copy_entry logs i e)
  unfolding copy_entry
  copy_entry-nonempty logs i e h =
      ground (arith, length-append (take i logs) (e ∷ []), length-append logs (e ∷ []))

  copy_entries-nonempty :
      (logs es : List (LogEntry C)) (i : ℕ) → 0 < length logs → 0 < length (copy_entries logs i es)
  unfolding copy_entries
  copy_entries-nonempty logs [] i h = h
  copy_entries-nonempty logs (e ∷ es) i h =
      copy_entries-nonempty (copy_entry logs i e) es (suc i) (copy_entry-nonempty logs i e h)

  append_matched-IsValid :
      (rf : Raft C) (args : AppendEntriesArgs C) → IsValid rf → IsValid (append_matched rf args)
  unfolding append_matched advance_commit
  append_matched-IsValid rf args v = ground (
    arith,
    copy_entries-nonempty rf.logs args.entries (args.prev_log_index + 1 - rf.last_included_index),
  )

  pub follow-IsValid : (rf : Raft C) (term : ℕ) → IsValid rf → IsValid (follow rf term)
  unfolding follow
  follow-IsValid rf term v = ground arith

  pub append_checked-IsValid :
      (rf : Raft C) (args : AppendEntriesArgs C) {rf' : Raft C} {reply : AppendEntriesReply}
      → append_checked rf args ≡ some (rf', reply)
      → IsValid rf
      → IsValid rf'
  unfolding append_checked
  append_checked-IsValid rf args h v = ground (arith, append_matched-IsValid rf args v)

  append_entries-IsValid :
      (rf : Raft C) (args : AppendEntriesArgs C) {rf' : Raft C} {reply : AppendEntriesReply}
      → append_entries gob rf args ≡ some (rf', reply)
      → IsValid rf
      → IsValid rf'
  append_entries-IsValid rf args h v = elim (append_entries_branches gob rf args h) [
    | inl (old, same, _) ↦ rw same v
    | inr (new, (r, checked, persisted)) ↦
        persist-IsValid r persisted (
          append_checked-IsValid (follow rf args.term) args checked (follow-IsValid rf args.term v))
  ]

  pub obey-IsValid : (rf : Raft C) (term : ℕ) → IsValid rf → IsValid (obey rf term)
  unfolding obey
  obey-IsValid rf term v = ground arith

  pub install_point-IsValid :
      (rf : Raft C) (args : InstallSnapshotArgs) {rf' : Raft C} {reply : InstallSnapshotReply}
      → install_point rf args ≡ some (rf', reply)
      → IsValid rf
      → IsValid rf'
  unfolding install_point install cut_log
  install_point-IsValid rf args h v = ground arith

  install_snapshot-IsValid :
      (rf : Raft C) (args : InstallSnapshotArgs) {rf' : Raft C} {reply : InstallSnapshotReply}
      → install_snapshot gob rf args ≡ some (rf', reply)
      → IsValid rf
      → IsValid rf'
  install_snapshot-IsValid rf args h v = elim (install_snapshot_branches gob rf args h) [
    | inl (old, same, _) ↦ rw same v
    | inr (inl (new, same)) ↦ rw same (obey-IsValid rf args.term v)
    | inr (inr (new, (r, installed, persisted))) ↦
        persist-IsValid r persisted
          (install_point-IsValid (obey rf args.term) args installed (obey-IsValid rf args.term v))
  ]

  snapshot-IsValid :
      (rf : Raft C) (index : ℕ) (bytes : Bytes) {rf' : Raft C}
      → snapshot gob rf index bytes ≡ some rf'
      → IsValid rf
      → IsValid rf'
  unfolding snapshot persist cut_log
  snapshot-IsValid rf index bytes h v = ground arith

  start-IsValid :
      (rf : Raft C) (command : C) {rf' : Raft C} {answer : ℤ × ℤ × Bool}
      → start gob rf command ≡ some (rf', answer)
      → IsValid rf
      → IsValid rf'
  unfolding start persist
  start-IsValid rf command h v =
      let logs = rf.logs ++ record { term = rf.current_term; cmd = some command } ∷ [] in
      ground (
        arith,
        length-append rf.logs (record { term = rf.current_term; cmd = some command } ∷ []),
        length-set rf.match_index rf.me (rf.last_included_index + length logs - 1),
        length-set rf.next_index rf.me (pos (rf.last_included_index + length logs)),
      )

  tick-IsValid :
      (rf : Raft C) {rf' : Raft C} {count : ℕ}
      → tick gob rf ≡ some (rf', count)
      → IsValid rf
      → IsValid rf'
  unfolding tick start_election persist
  tick-IsValid rf h v = ground arith

  broadcast-IsValid :
      (rf : Raft C) {rf' : Raft C} → broadcast_heartbeat rf ≡ some rf' → IsValid rf → IsValid rf'
  unfolding broadcast_heartbeat
  broadcast-IsValid rf h v = ground arith

  heartbeat_event-IsValid :
      (rf : Raft C) {rf' : Raft C} → heartbeat_event rf ≡ some rf' → IsValid rf → IsValid rf'
  unfolding heartbeat_event broadcast_heartbeat
  heartbeat_event-IsValid rf h v = ground arith

  add_log_event-IsValid :
      (rf : Raft C) {rf' : Raft C} → add_log_event rf ≡ some rf' → IsValid rf → IsValid rf'
  unfolding add_log_event broadcast_heartbeat
  add_log_event-IsValid rf h v = ground arith

  become_leader-IsValid :
      (rf : Raft C) {rf' : Raft C} → become_leader rf ≡ some rf' → IsValid rf → IsValid rf'
  unfolding become_leader initialize_leader broadcast_heartbeat
  become_leader-IsValid rf h v = ground (
    arith,
    length-replicate rf.peers rf.last_included_index,
    length-replicate rf.peers (pos (rf.last_included_index + length rf.logs)),
    length-set (replicate rf.peers rf.last_included_index) rf.me
        (rf.last_included_index + length rf.logs - 1),
    length-set (replicate rf.peers (pos (rf.last_included_index + length rf.logs))) rf.me
        (pos (rf.last_included_index + length rf.logs - 1 + 1)),
  )

  count_vote-IsValid :
      (rf : Raft C) (count : ℕ) (reply : RequestVoteReply) {rf' : Raft C} {count' : ℕ}
      → count_vote rf count reply ≡ some (rf', count')
      → IsValid rf
      → IsValid rf'
  unfolding count_vote
  count_vote-IsValid rf count reply {rf'} h v = ground (arith, become_leader-IsValid rf {rf' = rf'})

  handle_vote_reply-IsValid :
      (rf : Raft C) (count : ℕ) (args : RequestVoteArgs) (reply : RequestVoteReply) {rf' : Raft C}
      {count' : ℕ}
      → handle_vote_reply gob rf count args reply ≡ some (rf', count')
      → IsValid rf
      → IsValid rf'
  unfolding handle_vote_reply persist
  handle_vote_reply-IsValid rf count args reply {rf'} {count'} h v =
      ground (arith, count_vote-IsValid rf count reply {rf' = rf'} {count' = count'})

  raise_indices-IsValid :
      (rf : Raft C) (peer reached : ℕ) {rf' : Raft C}
      → raise_indices rf peer reached ≡ some rf'
      → IsValid rf
      → IsValid rf'
  unfolding raise_indices
  raise_indices-IsValid rf peer reached h v = grind (arith, length-set)

  check_and_commit-IsValid :
      (rf : Raft C) {rf' : Raft C} → check_and_commit_logs rf ≡ some rf' → IsValid rf → IsValid rf'
  unfolding check_and_commit_logs
  check_and_commit-IsValid rf h v = ground arith

  find_next_index-IsValid :
      (rf : Raft C) (peer : ℕ) (reply : AppendEntriesReply) {rf' : Raft C}
      → find_next_index rf peer reply ≡ some rf'
      → IsValid rf
      → IsValid rf'
  unfolding find_next_index
  find_next_index-IsValid rf peer reply h v = grind (arith, length-set)

  install_reply-IsValid :
      (rf : Raft C) (peer : ℕ) (args : InstallSnapshotArgs) (reply : InstallSnapshotReply)
      {rf' : Raft C}
      → handle_install_snapshot_reply gob rf peer args reply ≡ some rf'
      → IsValid rf
      → IsValid rf'
  unfolding handle_install_snapshot_reply persist
  install_reply-IsValid rf peer args reply {rf'} h v =
      ground (arith, raise_indices-IsValid rf peer args.last_included_index {rf' = rf'})

  append_reply-IsValid :
      (rf : Raft C) (peer : ℕ) (args : AppendEntriesArgs C) (reply : AppendEntriesReply)
      {rf' : Raft C}
      → handle_append_entries_reply gob rf peer args reply ≡ some rf'
      → IsValid rf
      → IsValid rf'
  unfolding handle_append_entries_reply persist
  append_reply-IsValid rf peer args reply {rf'} h v =
      let reached = args.prev_log_index + length args.entries in
      elim (Option-cases (raise_indices rf peer reached)) [
        | inl e ↦ ground (arith, find_next_index-IsValid rf peer reply {rf' = rf'})
        | inr (rf₁, e) ↦ ground (
          arith,
          raise_indices-IsValid rf peer reached e,
          check_and_commit-IsValid rf₁ {rf' = rf'},
          find_next_index-IsValid rf peer reply {rf' = rf'},
        )
      ]

  begin_apply-IsValid :
      (rf : Raft C) (msg : ApplyMsg C) {rf' : Raft C}
      → begin_apply rf msg ≡ some rf'
      → IsValid rf
      → IsValid rf'
  unfolding begin_apply
  begin_apply-IsValid rf msg h v = ground arith

  -- Every step of a valid peer leads to a valid peer.
  pub Step-IsValid : (rf rf' : Raft C) → Step gob rf rf' → IsValid rf → IsValid rf'
  unfolding end_apply kill
  Step-IsValid rf rf' (Step.votes args reply h) v = request_vote-IsValid rf args h v
  Step-IsValid rf rf' (Step.appends args reply h) v = append_entries-IsValid rf args h v
  Step-IsValid rf rf' (Step.installs args reply h) v = install_snapshot-IsValid rf args h v
  Step-IsValid rf rf' (Step.snapshots index bytes h) v = snapshot-IsValid rf index bytes h v
  Step-IsValid rf rf' (Step.starts command answer h) v = start-IsValid rf command h v
  Step-IsValid rf rf' (Step.ticks count h) v = tick-IsValid rf h v
  Step-IsValid rf rf' (Step.beats h) v = heartbeat_event-IsValid rf h v
  Step-IsValid rf rf' (Step.adds_log h) v = add_log_event-IsValid rf h v
  Step-IsValid rf rf' (Step.counts_vote count count' args reply h) v =
      handle_vote_reply-IsValid rf count args reply h v
  Step-IsValid rf rf' (Step.hears_append peer args reply h) v =
      append_reply-IsValid rf peer args reply h v
  Step-IsValid rf rf' (Step.hears_install peer args reply h) v =
      install_reply-IsValid rf peer args reply h v
  Step-IsValid rf rf' (Step.begins_apply msg h) v = begin_apply-IsValid rf msg h v
  Step-IsValid rf rf' (Step.ends_apply msg h) v = ground arith
  Step-IsValid rf rf' (Step.dies h) v = ground arith
