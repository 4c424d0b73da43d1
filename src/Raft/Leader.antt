-- ===== src/Raft/Leader.antt =====
-- The leader of src/raft/raft.go: Start, broadcastHeartbeat, the replies to its two RPCs, the
-- commit rule, findNextIndex, the set-up after an election, and the two broadcasting loops.
pub mod Commit
pub mod Replicate
pub mod Starts
use mit6_824_labs.Prelude.{
  ℕ, zero, suc, ◌+◌, ◌-◌, ◌/◌, max, List, [], ◌∷◌, ◌++◌, Option, none, some, Bool, true, false,
  ◌&&◌, length, get_elem?, set, drop, replicate, ltb, leb, ◌==◌, ◌>>=◌, if◌then◌else◌,
}
use mit6_824_labs.Prelude.Int.{ℤ, pos, negsuc, minus_one, max_ℤ, ◌==ℤ◌}
use mit6_824_labs.Raft.Types.{
  Raft, Role, LogEntry, AppendEntriesArgs, AppendEntriesReply, InstallSnapshotArgs,
  InstallSnapshotReply, PersistentStatus, Event, emit,
}
use mit6_824_labs.Raft.Log.{entry, entry_at, log_index, last_log_index, real_index, real_log_len}
use mit6_824_labs.Raft.Persist.{Codec, persist}

-- xs[i] = x, out of range a panic
abbrev pub store {ℓ} : {A : Type ℓ} → List A → ℕ → A → Option (List A)
store xs i x = if ltb i (length xs) then some (set xs i x) else none

abbrev pub is_leader : Role → Bool
is_leader Role.leader = true
is_leader Role.follower = false
is_leader Role.candidate = false

-- The loop over the peers: how many of `matches` have reached index `n`.
unfoldable pub count_reached : ℕ → List ℕ → ℕ
count_reached n [] = 0
count_reached n (m ∷ matches) = (if leb n m then 1 else 0) + count_reached n matches

abbrev pub next_after : Option ℕ → ℤ → ℤ
next_after none x_index = x_index
next_after (some i) x_index = pos i

module _ {C : Type 0} where
  unfoldable pub get_state : Raft C → ℕ × Bool
  get_state rf = (rf.current_term, is_leader rf.state)

  unfoldable pub kill : Raft C → Raft C
  kill rf = record rf { dead = true }

  unfoldable pub killed : Raft C → Bool
  killed rf = rf.dead

  -- rf.logs[from:], with 0 <= from <= len(rf.logs) or a panic
  abbrev pub entries_from : Raft C → ℕ → Option (List (LogEntry C))
  entries_from rf real = do
    i ← log_index rf real
    if leb i (length rf.logs) then some (drop i rf.logs) else none

  -- The term of the entry before the first one that is sent: from the log, from the snapshot
  -- point, or the explicit panic.
  unfoldable pub prev_term : Raft C → ℕ → Option ℕ
  prev_term rf prev =
      if ltb rf.last_included_index prev && ltb prev (rf.last_included_index + length rf.logs)
      then (do e ← entry_at rf prev; some e.term)
      else if prev == rf.last_included_index
      then (do e ← entry rf 0; some e.term)
      else none

  abbrev pub snapshot_args : Raft C → ℕ → InstallSnapshotArgs
  snapshot_args rf term = record {
    term = rf.current_term;
    leader_id = rf.me;
    last_included_index = rf.last_included_index;
    last_included_term = term;
    bytes = rf.snapshot;
  }

  -- The arguments built for a peer whose next index is `next`.
  unfoldable pub append_args : Raft C → ℕ → Option (AppendEntriesArgs C)
  append_args rf next = do
    term ← prev_term rf (next - 1)
    entries ← entries_from rf next
    some (record {
      term = rf.current_term;
      leader_id = rf.me;
      prev_log_index = next - 1;
      prev_log_term = term;
      entries = entries;
      leader_commit = rf.commit_index;
    })

  -- One round of the loop of broadcastHeartbeat; a negative next index is in the snapshot too.
  unfoldable pub message_for : Raft C → ℕ → Option (Event C)
  message_for rf i = do
    next ← get_elem? rf.next_index i
    elim next [
      | negsuc n ↦ (do
        e ← entry rf 0
        some (Event.send_install_snapshot i (snapshot_args rf e.term)))
      | pos n ↦
          if leb n rf.last_included_index
          then (do e ← entry rf 0; some (Event.send_install_snapshot i (snapshot_args rf e.term)))
          else (do args ← append_args rf n; some (Event.send_append_entries i args))
    ]

  -- for i := range rf.peers, with `n` rounds left from peer `i` on
  unfoldable pub messages : Raft C → ℕ → ℕ → Option (List (Event C))
  messages rf i zero = some []
  messages rf i (suc n) =
      let rest = messages rf (suc i) n in
      if i == rf.me then rest else do m ← message_for rf i; ms ← rest; some (m ∷ ms)

  unfoldable pub broadcast_heartbeat : Raft C → Option (Raft C)
  broadcast_heartbeat rf = do
    ms ← messages rf 0 rf.peers
    some (record rf { events = rf.events ++ ms })

  -- One tick of heartbeatEvent.
  unfoldable pub heartbeat_event : Raft C → Option (Raft C)
  heartbeat_event rf =
      if is_leader rf.state
      then (do rf' ← broadcast_heartbeat rf; some (emit Event.reset_election_timer rf'))
      else some rf

  -- One signal received by AddLogEvent.
  unfoldable pub add_log_event : Raft C → Option (Raft C)
  add_log_event rf =
      if is_leader rf.state
      then (do
        rf' ← broadcast_heartbeat rf
        some (emit Event.reset_heartbeat_ticker (emit Event.reset_election_timer rf')))
      else some rf

  -- The two loops fill both slices, then the entries of the peer itself are set.
  unfoldable pub initialize_leader : Raft C → Option (Raft C)
  initialize_leader rf = do
    match_index ← store (replicate rf.peers rf.last_included_index) rf.me (last_log_index rf)
    next_index ←
        store (replicate rf.peers (pos (real_log_len rf))) rf.me (pos (last_log_index rf + 1))
    some (record rf { match_index = match_index; next_index = next_index })

  -- succeedNum of index `n`: the entry must be of the current term, and is read only if a peer
  -- has reached it.
  unfoldable pub succeed_num : Raft C → ℕ → Option ℕ
  succeed_num rf n = if count_reached n rf.match_index == 0 then some 0 else do
    e ← entry_at rf n
    some (if e.term == rf.current_term then count_reached n rf.match_index else 0)

  -- for _N := n; _N < realLogLen, with `rounds` rounds left; `best` is N.
  unfoldable pub find_commit : Raft C → ℕ → ℕ → ℕ → Option ℕ
  find_commit rf best n zero = some best
  find_commit rf best n (suc rounds) = do
    count ← succeed_num rf n
    find_commit rf (if ltb (rf.peers / 2) count then n else best) (suc n) rounds

  unfoldable pub check_and_commit_logs : Raft C → Option (Raft C)
  check_and_commit_logs rf = do
    n ←
        find_commit rf rf.commit_index (rf.commit_index + 1)
          (real_log_len rf - (rf.commit_index + 1))
    some (
        if ltb rf.commit_index n
        then emit Event.signal_applier (record rf { commit_index = n })
        else rf)

  -- The loop over rf.logs: `i` counts the entries, `found` is the last hit so far.
  unfoldable pub search_term : Raft C → ℤ → ℕ → List (LogEntry C) → Option ℕ → Option ℕ
  search_term rf x_term i [] found = found
  search_term rf x_term i (e ∷ logs) found =
      search_term rf x_term (suc i) logs
        (if pos e.term ==ℤ x_term then some (real_index rf i) else found)

  unfoldable pub find_next_index : Raft C → ℕ → AppendEntriesReply → Option (Raft C)
  find_next_index rf peer reply =
      if (reply.x_term ==ℤ minus_one) && (reply.x_index ==ℤ minus_one)
      then (do
        next_index ← store rf.next_index peer (pos reply.x_len)
        some (record rf { next_index = next_index }))
      else (do
        let hit = search_term rf reply.x_term 0 rf.logs none
        next_index ← store rf.next_index peer (next_after hit reply.x_index)
        some (record rf { next_index = next_index }))

  -- The reply is out of date.
  abbrev pub stale : Raft C → ℕ → Bool
  stale rf term =
      if rf.current_term == term then (if is_leader rf.state then false else true) else true

  -- matchIndex[peer] and nextIndex[peer] rise to `reached` and the index behind it.
  unfoldable pub raise_indices : Raft C → ℕ → ℕ → Option (Raft C)
  raise_indices rf peer reached = do
    old_match ← get_elem? rf.match_index peer
    match_index ← store rf.match_index peer (max old_match reached)
    old_next ← get_elem? rf.next_index peer
    next_index ← store rf.next_index peer (max_ℤ old_next (reached + 1))
    some (record rf { match_index = match_index; next_index = next_index })

module _ {C : Type 0} (gob : Codec (PersistentStatus C)) where
  -- A reply of a later term ends the leadership; the vote is left as it is.
  abbrev pub step_down : Raft C → ℕ → Option (Raft C)
  step_down rf term = persist gob (record rf { current_term = term; state = Role.follower })

  -- The reply of `peer` has come.
  unfoldable pub handle_install_snapshot_reply :
      Raft C → ℕ → InstallSnapshotArgs → InstallSnapshotReply → Option (Raft C)
  handle_install_snapshot_reply rf peer args reply =
      if stale rf args.term
      then some rf
      else if ltb rf.current_term reply.term
      then step_down rf reply.term
      else raise_indices rf peer args.last_included_index

  unfoldable pub handle_append_entries_reply :
      Raft C → ℕ → AppendEntriesArgs C → AppendEntriesReply → Option (Raft C)
  handle_append_entries_reply rf peer args reply =
      if stale rf args.term
      then some rf
      else if ltb rf.current_term reply.term
      then step_down rf reply.term
      else if reply.success
      then (do
        rf' ← raise_indices rf peer (args.prev_log_index + length args.entries)
        check_and_commit_logs rf')
      else find_next_index rf peer reply

  -- The index and term of the new entry, and whether this peer leads; -1, -1 and false if not.
  unfoldable pub start : Raft C → C → Option (Raft C × (ℤ × ℤ × Bool))
  start rf command =
      if is_leader rf.state
      then (do
        rf' ← persist gob (record rf {
          logs = rf.logs ++ record { term = rf.current_term; cmd = some command } ∷ [];
        })
        match_index ← store rf'.match_index rf'.me (last_log_index rf')
        next_index ← store rf'.next_index rf'.me (pos (real_log_len rf'))
        some (
          emit Event.wake_add_log
              (record rf' { match_index = match_index; next_index = next_index }),
          (pos (last_log_index rf'), pos rf'.current_term, true),
        ))
      else some (rf, (minus_one, minus_one, false))
