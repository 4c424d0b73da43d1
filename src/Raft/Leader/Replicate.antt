-- ===== src/Raft/Leader/Replicate.antt =====
-- A leader's AppendEntries against its own log, and what it makes of a follower's.
use mit6_824_labs.Prelude.{
  ℕ, ◌+◌, ◌-◌, ◌≤◌, ◌<◌, ◌≡◌, some, true, arith, length, get_elem?, get_elem?-drop, length-drop,
  dec_lt,
}
use mit6_824_labs.Raft.Types.{Raft, AppendEntriesArgs, AppendEntriesReply, PersistentStatus}
use mit6_824_labs.Raft.Log.{entry_at, real_log_len}
use mit6_824_labs.Raft.Persist.{Codec}
use mit6_824_labs.Raft.Append.{append_entries}
use mit6_824_labs.Raft.Append.Agreement.{term_at, append_entries_agrees, success_guard}
use mit6_824_labs.Raft.Leader.{append_args, prev_term}

-- What a message says of its sender's log: everything from the entry before it to the end.
pub record IsSuffix {C : Type 0} (rf : Raft C) (args : AppendEntriesArgs C) : Type 0 where
  pub term_before : term_at rf args.prev_log_index ≡ some args.prev_log_term
  pub reaches_end : args.prev_log_index + 1 + length args.entries ≡ real_log_len rf
  pub same_entries : (i : ℕ) → get_elem? args.entries i ≡ entry_at rf (args.prev_log_index + 1 + i)
  pub own_term : args.term ≡ rf.current_term
  pub own_commit : args.leader_commit ≡ rf.commit_index

module _ {C : Type 0} where
  -- The arguments that broadcastHeartbeat builds for a peer whose next index lies behind the
  -- snapshot point are the end of the leader's log, with the term before it and the commit index.
  pub append_args-IsSuffix :
      (rf : Raft C) (next : ℕ) (args : AppendEntriesArgs C)
      → rf.last_included_index < next
      → append_args rf next ≡ some args
      → IsSuffix rf args
  unfolding append_args prev_term
  append_args-IsSuffix rf next args behind h = record {
    term_before = ground arith;
    reaches_end = ground (arith, length-drop (next - rf.last_included_index) rf.logs);
    same_entries = λ i. ground (arith, get_elem?-drop (next - rf.last_included_index) rf.logs i);
    own_term = ground arith;
    own_commit = ground arith;
  }

module _ {C : Type 0} (gob : Codec (PersistentStatus C)) where
  -- A follower that accepts the end of a leader's log has the leader's terms from the entry before
  -- the message to the end of the leader's log.
  pub replicated :
      (leader : Raft C) (follower : Raft C) (args : AppendEntriesArgs C) (follower' : Raft C)
      (reply : AppendEntriesReply)
      → IsSuffix leader args
      → append_entries gob follower args ≡ some (follower', reply)
      → reply.success ≡ true
      → (i : ℕ) → args.prev_log_index ≤ i
      → i < real_log_len leader
      → term_at follower' i ≡ term_at leader i
  replicated leader follower args follower' reply s h ok i from to =
      elim (dec_lt args.prev_log_index i) [
        | yes behind ↦
            let j = i - args.prev_log_index - 1 in
            let at : args.prev_log_index + 1 + j ≡ i = omega arith in
            ground (
              arith,
              at,
              s.same_entries j,
              s.reaches_end,
              (append_entries_agrees gob follower args follower' reply h ok).1 j,
            )
        | no first ↦
            let at : i ≡ args.prev_log_index = omega arith in
            ground (
              arith,
              at,
              s.term_before,
              success_guard gob follower args h ok,
              (append_entries_agrees gob follower args follower' reply h ok).0 args.prev_log_index,
            )
      ]
