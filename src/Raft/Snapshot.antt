-- ===== src/Raft/Snapshot.antt =====
-- Snapshots in src/raft/raft.go: Snapshot, with which the service cuts the log, and the handler
-- of InstallSnapshot.
pub mod Laws
use mit6_824_labs.Prelude.{
  ℕ, zero, suc, ◌+◌, ◌-◌, List, [], ◌∷◌, Option, none, some, true, false, ◌||◌, length, drop, ltb,
  leb, ◌==◌, ◌>>=◌, if◌then◌else◌,
}
use mit6_824_labs.Raft.Types.{
  Bytes, Raft, Role, LogEntry, ApplyMsg, InstallSnapshotArgs, InstallSnapshotReply,
  PersistentStatus, Event, emit, no_vote,
}
use mit6_824_labs.Raft.Log.{entry, log_index, real_index}
use mit6_824_labs.Raft.Persist.{Codec, persist, persist_after}

module _ {C : Type 0} where
  -- append([]LogEntry{{Term: term}}, rf.logs[split+1:]...)
  unfoldable pub cut_log : ℕ → ℕ → List (LogEntry C) → List (LogEntry C)
  cut_log term split logs = record { term = term; cmd = none } ∷ drop (split + 1) logs

  -- The loop over rf.logs from position `i` on, with `n` rounds left: the first position of the
  -- snapshot's last index, if entry 0 has the snapshot's term.
  unfoldable pub find_snapshot_point : Raft C → InstallSnapshotArgs → ℕ → ℕ → Option (Option ℕ)
  find_snapshot_point rf args i zero = some none
  find_snapshot_point rf args i (suc n) =
      let rest = find_snapshot_point rf args (suc i) n in
      if real_index rf i == args.last_included_index
      then (do
        first ← entry rf 0
        if first.term == args.last_included_term then some (some i) else rest)
      else rest

  abbrev pub snapshot_msg : InstallSnapshotArgs → ApplyMsg C
  snapshot_msg args = record {
    command_valid = false;
    command = none;
    command_index = 0;
    snapshot_valid = true;
    snapshot = args.bytes;
    snapshot_term = args.last_included_term;
    snapshot_index = args.last_included_index;
  }

  -- What both ways out that install the snapshot do, with the log that is kept.
  unfoldable pub install : Raft C → InstallSnapshotArgs → List (LogEntry C) → Raft C
  install rf args logs = emit (Event.apply_snapshot (snapshot_msg args)) (record rf {
    logs = logs;
    last_included_index = args.last_included_index;
    commit_index = args.last_included_index;
    last_applied = args.last_included_index;
    snapshot = args.bytes;
  })

  -- The entries that stay: those behind the snapshot point, or none.
  abbrev pub kept_logs : Raft C → InstallSnapshotArgs → Option ℕ → List (LogEntry C)
  kept_logs rf args (some i) = cut_log args.last_included_term i rf.logs
  kept_logs rf args none = record { term = args.last_included_term; cmd = none } ∷ []

  -- A message of the current or a later term makes a follower, and restarts the timer.
  unfoldable pub obey : Raft C → ℕ → Raft C
  obey rf term =
      if ltb rf.current_term term
      then heard (record rf { current_term = term; voted_for = no_vote })
      else heard rf
    where
      heard : Raft C → Raft C
      heard r = emit Event.reset_election_timer (record r { state = Role.follower })

  abbrev pub current : Raft C → InstallSnapshotReply
  current rf = record { term = rf.current_term }

  -- Behind the tests of the snapshot's index.
  unfoldable pub install_point :
      Raft C → InstallSnapshotArgs → Option (Raft C × InstallSnapshotReply)
  install_point rf args = do
    point ← find_snapshot_point rf args 1 (length rf.logs - 1)
    some (install rf args (kept_logs rf args point), current rf)

module _ {C : Type 0} (gob : Codec (PersistentStatus C)) where
  -- A snapshot that is not committed yet, or not newer than the last one, is refused.
  unfoldable pub snapshot : Raft C → ℕ → Bytes → Option (Raft C)
  snapshot rf index bytes =
      if ltb rf.commit_index index || leb index rf.last_included_index then some rf else do
        split ← log_index rf index
        e ← entry rf split
        persist gob (record rf {
          last_included_index = index;
          logs = cut_log e.term split rf.logs;
          snapshot = bytes;
        })

  -- `persist` is deferred only behind the two tests of the snapshot's index.
  unfoldable pub install_snapshot :
      Raft C → InstallSnapshotArgs → Option (Raft C × InstallSnapshotReply)
  install_snapshot rf args =
      if ltb args.term rf.current_term
      then some (rf, current rf)
      else let rf' = obey rf args.term in
        if leb args.last_included_index rf'.last_included_index
        then some (rf', current rf')
        else if leb args.last_included_index rf'.commit_index
        then some (rf', current rf')
        else persist_after gob (install_point rf' args)
