-- ===== src/Raft/Applier.antt =====
-- applierEvent of src/raft/raft.go: the messages of the committed entries that are not applied,
-- and the three steps in which one of them goes to the service.
pub mod Batch
use mit6_824_labs.Prelude.{
  ℕ, zero, suc, ◌+◌, ◌-◌, max, List, [], ◌∷◌, Option, none, some, true, false, ◌==◌, ◌>>=◌,
  if◌then◌else◌,
}
use mit6_824_labs.Raft.Types.{Raft, LogEntry, ApplyMsg}
use mit6_824_labs.Raft.Log.{entry_at}

module _ {C : Type 0} where
  abbrev pub command_msg : LogEntry C → ℕ → ApplyMsg C
  command_msg e i = record {
    command_valid = true;
    command = e.cmd;
    command_index = i;
    snapshot_valid = false;
    snapshot = [];
    snapshot_term = 0;
    snapshot_index = 0;
  }

  -- for i := i; i <= rf.commitIndex, with `n` rounds left
  unfoldable pub collect : Raft C → ℕ → ℕ → Option (List (ApplyMsg C))
  collect rf i zero = some []
  collect rf i (suc n) = do
    e ← entry_at rf i
    msgs ← collect rf (suc i) n
    some (command_msg e i ∷ msgs)

  -- The batch; while there is nothing to apply the loop waits, which is the empty batch here.
  unfoldable pub gather : Raft C → Option (List (ApplyMsg C))
  gather rf = collect rf (rf.last_applied + 1) (rf.commit_index - rf.last_applied)

  -- The first lock section of a message: whether it is sent. A snapshot may have overtaken it.
  unfoldable pub begin_apply : Raft C → ApplyMsg C → Option (Raft C)
  begin_apply rf msg =
      if msg.command_index == rf.last_applied + 1
      then some (record rf { replicate_pre_snapshot = true })
      else none

  -- Behind the send: the flag falls, and lastApplied rises.
  unfoldable pub end_apply : Raft C → ApplyMsg C → Raft C
  end_apply rf msg = record rf {
    replicate_pre_snapshot = false;
    last_applied = max msg.command_index rf.last_applied;
  }

  -- The loop over a batch: the peer behind it, and the messages that were sent. rf.mu is free before
  -- the first lock section of a message and around its send, and `others` is what the other goroutines
  -- do to the peer there: `others 0` before the first message is looked at, `others 1` while it is
  -- sent, and the further ones for the messages behind it.
  unfoldable pub apply_batch :
      (ℕ → Raft C → Raft C) → Raft C → List (ApplyMsg C) → Raft C × List (ApplyMsg C)
  apply_batch others rf [] = (rf, [])
  apply_batch others rf (msg ∷ msgs) =
      let found = others 0 rf in
      let rest : ℕ → Raft C → Raft C = λ n. others (n + 2) in
      let skipped = apply_batch rest found msgs in
      elim (begin_apply found msg) [
        | none ↦ skipped
        | some rf' ↦
            let (rf'', sent) = apply_batch rest (end_apply (others 1 rf') msg) msgs in
            (rf'', msg ∷ sent)
      ]

  -- No other goroutine runs.
  unfoldable pub alone : ℕ → Raft C → Raft C
  alone n rf = rf
