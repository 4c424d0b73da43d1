-- ===== src/Raft/Append/Committed.antt =====
-- AppendEntries and the committed part of the log.
use mit6_824_labs.Prelude.{
  ℕ, ◌+◌, ◌-◌, ◌≤◌, ◌<◌, ◌≡◌, some, true, length, drop, arith, get_elem?-take_append_right,
  get_elem?-drop, length-drop, get_elem?-some, get_elem?-none, dec_lt,
}
use mit6_824_labs.Raft.Types.{Raft, AppendEntriesArgs, AppendEntriesReply, PersistentStatus}
use mit6_824_labs.Raft.Log.{entry_at, real_log_len}
use mit6_824_labs.Raft.Persist.{Codec}
use mit6_824_labs.Raft.Append.{append_entries}
use mit6_824_labs.Raft.Append.Merge.{merge}
use mit6_824_labs.Raft.Append.Agreement.{
  term_at, term_of, merge-agree, append_entries-merge, append_entries_agrees, success_guard,
  success_effect,
}

module _ {C : Type 0} (gob : Codec (PersistentStatus C)) where
  -- The message has the log's terms at the committed positions that it covers.
  abbrev pub Agrees : Raft C → AppendEntriesArgs C → Type 0
  Agrees rf args =
      (i : ℕ)
      → i < length args.entries
      → args.prev_log_index + 1 + i ≤ rf.commit_index
      → term_at rf (args.prev_log_index + 1 + i) ≡ term_of args.entries i

  Agrees-tail :
      (rf : Raft C) (args : AppendEntriesArgs C) (j : ℕ)
      → rf.last_included_index ≤ args.prev_log_index
      → Agrees rf args
      → j < rf.commit_index - args.prev_log_index
      → j < length args.entries
      → term_of (drop (args.prev_log_index + 1 - rf.last_included_index) rf.logs) j
        ≡ term_of args.entries j
  Agrees-tail rf args j le agree l m = ground (
    arith,
    agree j m (omega arith),
    get_elem?-drop (args.prev_log_index + 1 - rf.last_included_index) rf.logs j,
  )

  kept_behind :
      (rf : Raft C) (args : AppendEntriesArgs C) {rf' : Raft C} {reply : AppendEntriesReply}
      → append_entries gob rf args ≡ some (rf', reply)
      → reply.success ≡ true
      → rf.commit_index < real_log_len rf
      → Agrees rf args
      → (i : ℕ) → args.prev_log_index < i
      → i ≤ rf.commit_index
      → entry_at rf' i ≡ entry_at rf i
  kept_behind rf args h ok fits agree i behind l =
      let k = args.prev_log_index + 1 - rf.last_included_index in
      let (le, inside, _, _) = success_guard gob rf args h ok in
      let n = rf.commit_index - args.prev_log_index in
      let j = i - args.prev_log_index - 1 in
      let keep =
        merge-agree (drop k rf.logs) args.entries n j (omega (arith, length-drop k rf.logs))
          (λ m a b. Agrees-tail rf args m le agree a b) (omega arith) in
      ground (
        arith,
        keep,
        success_guard gob rf args h ok,
        append_entries-merge gob rf args h ok,
        get_elem?-drop k rf.logs j,
        get_elem?-take_append_right k rf.logs (merge (drop k rf.logs) args.entries) j,
      )

  kept :
      (rf : Raft C) (args : AppendEntriesArgs C) (rf' : Raft C) (reply : AppendEntriesReply)
      → append_entries gob rf args ≡ some (rf', reply)
      → reply.success ≡ true
      → rf.commit_index < real_log_len rf
      → Agrees rf args
      → (i : ℕ) → i ≤ rf.commit_index
      → entry_at rf' i ≡ entry_at rf i
  kept rf args rf' reply h ok fits agree i l = elim (dec_lt args.prev_log_index i) [
    | yes behind ↦ kept_behind rf args h ok fits agree i behind l
    | no before ↦ (append_entries_agrees gob rf args rf' reply h ok).0 i (omega arith)
  ]

  still_fits :
      (rf : Raft C) (args : AppendEntriesArgs C) (rf' : Raft C) (reply : AppendEntriesReply)
      → append_entries gob rf args ≡ some (rf', reply)
      → reply.success ≡ true
      → rf.last_included_index ≤ rf.commit_index
      → rf.commit_index < real_log_len rf
      → Agrees rf args
      → rf.commit_index < real_log_len rf'
  still_fits rf args rf' reply h ok covered fits agree =
      let i = rf.commit_index - rf.last_included_index in
      let (x, at) = get_elem?-some rf.logs i (omega arith) in
      ground (
        arith,
        at,
        kept rf args rf' reply h ok fits agree rf.commit_index (omega arith),
        success_guard gob rf args h ok,
        get_elem?-none rf'.logs i,
      )

  -- If the commit index is at or behind the snapshot point and within the log, and the message has
  -- the log's terms at the committed positions that it covers, then a success keeps every committed
  -- entry, does not lower the commit index, and leaves it within the log.
  pub append_entries_keeps_committed :
      (rf : Raft C) (args : AppendEntriesArgs C) (rf' : Raft C) (reply : AppendEntriesReply)
      → append_entries gob rf args ≡ some (rf', reply)
      → reply.success ≡ true
      → rf.last_included_index ≤ rf.commit_index
      → rf.commit_index < real_log_len rf
      → Agrees rf args
      → ((i : ℕ) → i ≤ rf.commit_index → entry_at rf' i ≡ entry_at rf i)
        × (rf.commit_index ≤ rf'.commit_index)
        × (rf'.commit_index < real_log_len rf')
  append_entries_keeps_committed rf args rf' reply h ok covered fits agree = (
    kept rf args rf' reply h ok fits agree,
    ground (
      arith,
      success_effect gob rf args h ok,
      still_fits rf args rf' reply h ok covered fits agree,
    ),
    ground (
      arith,
      success_effect gob rf args h ok,
      still_fits rf args rf' reply h ok covered fits agree,
    ),
  )
