-- ===== src/Raft/Log.antt =====
-- src/raft/raft_util.go: the positions of the log, counted over the snapshot and the entries
-- behind it. Entry 0 of `logs` stands for the last entry that the snapshot holds.
use mit6_824_labs.Prelude.{
  ℕ, ◌+◌, ◌-◌, Option, none, some, Bool, ◌&&◌, ◌||◌, length, get_elem?, ltb, leb, ◌==◌, ◌>>=◌,
  if◌then◌else◌,
}
use mit6_824_labs.Raft.Types.{Raft, LogEntry}

module _ {C : Type 0} where
  -- rf.logs[i], out of range a panic
  abbrev pub entry : Raft C → ℕ → Option (LogEntry C)
  entry rf i = get_elem? rf.logs i

  abbrev pub last_log_term : Raft C → Option ℕ
  last_log_term rf = do
    e ← entry rf (if ltb (length rf.logs) 2 then 0 else length rf.logs - 1)
    some e.term

  -- No peer has an empty `logs`, so the subtraction does not stop at 0.
  abbrev pub last_log_index : Raft C → ℕ
  last_log_index rf = rf.last_included_index + length rf.logs - 1

  -- realIndex - lastIncludedIndex; below the snapshot point Go has a negative index, which panics
  -- wherever the code uses it.
  abbrev pub log_index : Raft C → ℕ → Option ℕ
  log_index rf real =
      if ltb real rf.last_included_index then none else some (real - rf.last_included_index)

  abbrev pub real_index : Raft C → ℕ → ℕ
  real_index rf i = rf.last_included_index + i

  abbrev pub real_log_len : Raft C → ℕ
  real_log_len rf = rf.last_included_index + length rf.logs

  -- rf.logs[rf.logIndex(real)]
  abbrev pub entry_at : Raft C → ℕ → Option (LogEntry C)
  entry_at rf real = do i ← log_index rf real; entry rf i

  abbrev pub is_log_up_to_date : Raft C → ℕ → ℕ → Option Bool
  is_log_up_to_date rf term index = do
    mine ← last_log_term rf
    some (ltb mine term || (term == mine && leb (last_log_index rf) index))
