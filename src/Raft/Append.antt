-- ===== src/Raft/Append.antt =====
-- AppendEntries of src/raft/raft.go, with its consistency check, its loops and its commit rule.
pub mod Merge
pub mod Agreement
pub mod Conflict
pub mod Committed
use mit6_824_labs.Prelude.{
  ℕ, zero, suc, ◌+◌, ◌-◌, min, List, [], ◌∷◌, ◌++◌, Option, none, some, true, false, length,
  get_elem?, take, ltb, leb, ◌==◌, ◌>>=◌, if◌then◌else◌,
}
use mit6_824_labs.Prelude.Int.{ℤ, pos, minus_one}
use mit6_824_labs.Raft.Types.{
  Raft, Role, LogEntry, AppendEntriesArgs, AppendEntriesReply, PersistentStatus, Event, emit,
  no_vote,
}
use mit6_824_labs.Raft.Log.{entry_at, last_log_index, real_log_len}
use mit6_824_labs.Raft.Persist.{Codec, persist_after}

module _ {C : Type 0} where
  -- The body of the loop over args.Entries: `index` is the position of `e` in rf.logs.
  unfoldable pub copy_entry : List (LogEntry C) → ℕ → LogEntry C → List (LogEntry C)
  copy_entry logs index e = elim (get_elem? logs index) [
    | some old ↦ if old.term == e.term then logs else take index logs ++ e ∷ []
    | none ↦ if index == length logs then logs ++ e ∷ [] else logs
  ]

  unfoldable pub copy_entries : List (LogEntry C) → ℕ → List (LogEntry C) → List (LogEntry C)
  copy_entries logs index [] = logs
  copy_entries logs index (e ∷ es) = copy_entries (copy_entry logs index e) (suc index) es

  -- The loop that goes back from `i` to the first entry of the conflicting term, above
  -- rf.commitIndex; `found` is conflictIndex.
  unfoldable pub find_conflict : Raft C → ℕ → ℕ → ℤ → Option ℤ
  find_conflict rf conflict_term zero found = some found
  find_conflict rf conflict_term (suc i) found =
      let rest = find_conflict rf conflict_term i (pos (suc i)) in
      if leb (suc i) rf.commit_index
      then some found
      else do e ← entry_at rf (suc i); if e.term == conflict_term then rest else some found

  abbrev pub reject : Raft C → ℤ → ℤ → ℕ → AppendEntriesReply
  reject rf x_term x_index x_len = record {
    term = rf.current_term;
    success = false;
    x_term = x_term;
    x_index = x_index;
    x_len = x_len;
  }

  abbrev pub accept : Raft C → AppendEntriesReply
  accept rf = record {
    term = rf.current_term;
    success = true;
    x_term = pos 0;
    x_index = pos 0;
    x_len = 0;
  }

  -- The last part: the new commit index.
  unfoldable pub advance_commit : ℕ → Raft C → Raft C
  advance_commit leader_commit rf =
      if ltb rf.commit_index leader_commit
      then emit Event.signal_applier
          (record rf { commit_index = min leader_commit (last_log_index rf) })
      else rf

  unfoldable pub append_matched : Raft C → AppendEntriesArgs C → Raft C
  append_matched rf args = advance_commit args.leader_commit (record rf {
    logs = copy_entries rf.logs (args.prev_log_index + 1 - rf.last_included_index) args.entries;
  })

  -- A message of the current or a later term makes a follower, and restarts the timer.
  unfoldable pub follow : Raft C → ℕ → Raft C
  follow rf term =
      if ltb rf.current_term term
      then record (heard rf) { current_term = term; voted_for = no_vote }
      else heard rf
    where
      heard : Raft C → Raft C
      heard r = emit Event.reset_election_timer (record r { state = Role.follower })

  -- From the consistency check on.
  unfoldable pub append_checked :
      Raft C → AppendEntriesArgs C → Option (Raft C × AppendEntriesReply)
  append_checked rf args =
      if ltb args.prev_log_index rf.last_included_index
      then some (rf, reject rf (pos 0) (pos 0) 0)
      else if ltb (last_log_index rf) args.prev_log_index
      then some (rf, reject rf minus_one minus_one (real_log_len rf))
      else do
        e ← entry_at rf args.prev_log_index
        if e.term == args.prev_log_term then some (append_matched rf args, accept rf) else do
          conflict ← find_conflict rf e.term args.prev_log_index minus_one
          some (rf, reject rf (pos e.term) conflict (real_log_len rf))

  -- `persist` is deferred: it runs on every way out behind the term check.
  unfoldable pub append_entries :
      Codec (PersistentStatus C)
      → Raft C
      → AppendEntriesArgs C
      → Option (Raft C × AppendEntriesReply)
  append_entries gob rf args =
      if ltb args.term rf.current_term
      then some (rf, reject rf (pos 0) (pos 0) 0)
      else persist_after gob (append_checked (follow rf args.term) args)
