-- ===== src/Raft/Append/Agreement.antt =====
-- What the follower's log holds behind a successful AppendEntries.
use mit6_824_labs.Prelude.{
  ℕ, zero, suc, ◌+◌, ◌-◌, ◌≤◌, ◌<◌, ◌≡◌, refl, ap, List, [], ◌∷◌, ◌++◌, Option, some, true, length,
  get_elem?, take, drop, ltb, ◌>>=◌, if◌then◌else◌, arith, get_elem?-none, min,
  get_elem?-take_append, get_elem?-take_append_right, take-take_append, drop-take_append,
}
use mit6_824_labs.Raft.Types.{
  Raft, LogEntry, AppendEntriesArgs, AppendEntriesReply, PersistentStatus,
}
use mit6_824_labs.Raft.Log.{entry_at, last_log_index}
use mit6_824_labs.Raft.Persist.{Codec, persist}
use mit6_824_labs.Raft.Append.{
  append_entries, append_checked, append_matched, advance_commit, follow, accept,
}
use mit6_824_labs.Raft.Append.Merge.{merge, copy_entries-merge}

module _ {C : Type 0} where
  abbrev pub term_at : Raft C → ℕ → Option ℕ
  term_at rf i = do e ← entry_at rf i; some e.term

  -- The term at a position, `none` past the end.
  abbrev pub term_of : List (LogEntry C) → ℕ → Option ℕ
  term_of logs i = do e ← get_elem? logs i; some e.term

  pub length-merge : (logs es : List (LogEntry C)) → length es ≤ length (merge logs es)
  length-merge logs [] = omega arith
  length-merge [] (e ∷ es) = omega arith
  length-merge (old ∷ logs) (e ∷ es) = ground (arith, length-merge logs es)

  -- The merged log has the terms of the message.
  pub term_of-merge :
      (logs es : List (LogEntry C)) (i : ℕ)
      → i < length es
      → term_of (merge logs es) i ≡ term_of es i
  term_of-merge logs [] i h = absurd (omega arith)
  term_of-merge [] (e ∷ es) i h = refl
  term_of-merge (old ∷ logs) (e ∷ es) zero h = ground arith
  term_of-merge (old ∷ logs) (e ∷ es) (suc i) h = ground (arith, term_of-merge logs es i)

  merge_self : (l : List (LogEntry C)) → merge l l ≡ l
  merge_self [] = refl
  merge_self (x ∷ l) = ground (arith, merge_self l)

  -- Redelivery changes nothing.
  pub merge_idem : (logs es : List (LogEntry C)) → merge (merge logs es) es ≡ merge logs es
  merge_idem logs [] = refl
  merge_idem [] (e ∷ es) = ground (arith, merge_self es)
  merge_idem (old ∷ logs) (e ∷ es) = ground (arith, merge_idem logs es, merge_self es)

  -- While the first `n` terms agree, none of those entries is lost.
  pub merge-agree :
      (logs es : List (LogEntry C)) (n i : ℕ)
      → n ≤ length logs
      → ((j : ℕ) → j < n → j < length es → term_of logs j ≡ term_of es j)
      → i < n
      → get_elem? (merge logs es) i ≡ get_elem? logs i
  merge-agree logs [] n i inside agree h = refl
  merge-agree [] (e ∷ es) n i inside agree h = absurd (omega arith)
  merge-agree (old ∷ logs) (e ∷ es) zero i inside agree h = absurd (omega arith)
  merge-agree (old ∷ logs) (e ∷ es) (suc n) zero inside agree h =
      ground (arith, agree 0 (omega arith) (omega arith))
  merge-agree (old ∷ logs) (e ∷ es) (suc n) (suc i) inside agree h = ground (
    arith,
    agree 0 (omega arith) (omega arith),
    merge-agree logs es n i (omega arith) (λ j l m. agree (suc j) (omega arith) (omega arith)),
  )

module _ {C : Type 0} (gob : Codec (PersistentStatus C)) where
  -- What the successful branch knows of the position behind the entry before the message.
  pub success_guard :
      (rf : Raft C) (args : AppendEntriesArgs C) {rf' : Raft C} {reply : AppendEntriesReply}
      → append_entries gob rf args ≡ some (rf', reply)
      → reply.success ≡ true
      → (rf.last_included_index ≤ args.prev_log_index)
        × (args.prev_log_index + 1 - rf.last_included_index ≤ length rf.logs)
        × (term_at rf args.prev_log_index ≡ some args.prev_log_term)
        × (rf'.last_included_index ≡ rf.last_included_index)
  unfolding append_entries append_checked append_matched advance_commit follow persist
  success_guard rf args h ok =
      ground (arith, get_elem?-none rf.logs (args.prev_log_index - rf.last_included_index))

  -- A success leaves the log merged with the message behind the entry before it.
  pub append_entries-merge :
      (rf : Raft C) (args : AppendEntriesArgs C) {rf' : Raft C} {reply : AppendEntriesReply}
      → append_entries gob rf args ≡ some (rf', reply)
      → reply.success ≡ true
      → let k = args.prev_log_index + 1 - rf.last_included_index in
        rf'.logs ≡ take k rf.logs ++ merge (drop k rf.logs) args.entries
  unfolding append_entries append_checked append_matched advance_commit follow persist
  append_entries-merge rf args h ok = ground (
    arith,
    copy_entries-merge rf.logs args.entries (args.prev_log_index + 1 - rf.last_included_index),
  )

  -- After a success the log holds what it held up to the entry before the message, and behind it
  -- the terms of the message's entries.
  pub append_entries_agrees :
      (rf : Raft C) (args : AppendEntriesArgs C) (rf' : Raft C) (reply : AppendEntriesReply)
      → append_entries gob rf args ≡ some (rf', reply)
      → reply.success ≡ true
      → ((i : ℕ) → i ≤ args.prev_log_index → entry_at rf' i ≡ entry_at rf i)
        × ((i : ℕ)
            → i < length args.entries
            → term_at rf' (args.prev_log_index + 1 + i) ≡ term_of args.entries i)
  append_entries_agrees rf args rf' reply h ok =
      let k = args.prev_log_index + 1 - rf.last_included_index in
      let tail = merge (drop k rf.logs) args.entries in
      (
        λ i le. ground (
          arith,
          success_guard rf args h ok,
          append_entries-merge rf args h ok,
          get_elem?-take_append k rf.logs tail {i = i - rf.last_included_index},
        ),
        λ i lt. ground (
          arith,
          success_guard rf args h ok,
          append_entries-merge rf args h ok,
          get_elem?-take_append_right k rf.logs tail i,
          term_of-merge (drop k rf.logs) args.entries i,
        ),
      )

  -- A message of the peer's own term that fits its log succeeds.
  pub succeeds :
      (rf : Raft C) (args : AppendEntriesArgs C) {rf' : Raft C} {reply : AppendEntriesReply}
      → rf.current_term ≡ args.term
      → term_at rf args.prev_log_index ≡ some args.prev_log_term
      → append_entries gob rf args ≡ some (rf', reply)
      → reply.success ≡ true
  unfolding append_entries append_checked follow persist
  succeeds rf args fits known h =
      ground (arith, get_elem?-none rf.logs (args.prev_log_index - rf.last_included_index))

  -- What else a success changes.
  pub success_effect :
      (rf : Raft C) (args : AppendEntriesArgs C) {rf' : Raft C} {reply : AppendEntriesReply}
      → append_entries gob rf args ≡ some (rf', reply)
      → reply.success ≡ true
      → (rf'.current_term ≡ args.term)
        × (reply ≡ accept rf')
        × (rf'.commit_index ≡ (
            if ltb rf.commit_index args.leader_commit
            then min args.leader_commit (last_log_index rf')
            else rf.commit_index))
  unfolding append_entries append_checked append_matched advance_commit follow persist
  success_effect rf args h ok = ground arith

  success_again :
      (rf : Raft C) (args : AppendEntriesArgs C) (rf' rf'' : Raft C)
      (reply reply' : AppendEntriesReply)
      → append_entries gob rf args ≡ some (rf', reply)
      → reply.success ≡ true
      → append_entries gob rf' args ≡ some (rf'', reply')
      → reply'.success ≡ true
  success_again rf args rf' rf'' reply reply' h ok h' =
      succeeds rf' args (ground (arith, success_effect rf args h ok))
        (ground (
          arith,
          success_guard rf args h ok,
          (append_entries_agrees rf args rf' reply h ok).0 args.prev_log_index,
        ))
        h'

  -- A message that is delivered again, after a success and with nothing in between, succeeds with
  -- the same reply and leaves the log and the commit index as they are.
  pub append_entries_idem :
      (rf : Raft C) (args : AppendEntriesArgs C) (rf' rf'' : Raft C)
      (reply reply' : AppendEntriesReply)
      → append_entries gob rf args ≡ some (rf', reply)
      → reply.success ≡ true
      → append_entries gob rf' args ≡ some (rf'', reply')
      → (reply' ≡ reply) × (rf''.logs ≡ rf'.logs) × (rf''.commit_index ≡ rf'.commit_index)
  append_entries_idem rf args rf' rf'' reply reply' h ok h' =
      let k = args.prev_log_index + 1 - rf.last_included_index in
      let tail = merge (drop k rf.logs) args.entries in
      let again : reply'.success ≡ true = success_again rf args rf' rf'' reply reply' h ok h' in
      let e : rf''.logs ≡ rf'.logs = ground (
        arith,
        success_guard rf args h ok,
        append_entries-merge rf args h ok,
        append_entries-merge rf' args h' again,
        take-take_append k rf.logs tail,
        drop-take_append k rf.logs tail,
        merge_idem (drop k rf.logs) args.entries,
      ) in
      ground (
        arith,
        success_effect rf args h ok,
        success_effect rf' args h' again,
        success_guard rf args h ok,
        success_guard rf' args h' again,
        ap length e,
      )
