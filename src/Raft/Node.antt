-- ===== src/Raft/Node.antt =====
-- One peer under its handlers: every method that changes the state of a running peer is a step.
-- A restart is no step here.
pub mod Branches
pub mod Votes
pub mod Valid
pub mod Total
pub mod Leads
use mit6_824_labs.Prelude.{ℕ, ◌≡◌, Bool, List, some}
use mit6_824_labs.Prelude.Int.{ℤ}
use mit6_824_labs.Raft.Types.{
  Bytes, Raft, ApplyMsg, PersistentStatus, RequestVoteArgs, RequestVoteReply, AppendEntriesArgs,
  AppendEntriesReply, InstallSnapshotArgs, InstallSnapshotReply,
}
use mit6_824_labs.Raft.Persist.{Codec}
use mit6_824_labs.Raft.Append.{append_entries}
use mit6_824_labs.Raft.Leader.{
  kill, start, heartbeat_event, add_log_event, handle_install_snapshot_reply,
  handle_append_entries_reply,
}
use mit6_824_labs.Raft.Vote.{request_vote, tick, handle_vote_reply}
use mit6_824_labs.Raft.Snapshot.{snapshot, install_snapshot}
use mit6_824_labs.Raft.Applier.{begin_apply, end_apply}

module _ {C : Type 0} (gob : Codec (PersistentStatus C)) where
  pub data Step (rf rf' : Raft C) : Type 0 where
    votes :
        (args : RequestVoteArgs) (reply : RequestVoteReply)
        → request_vote gob rf args ≡ some (rf', reply)
        → Step rf rf'
    appends :
        (args : AppendEntriesArgs C) (reply : AppendEntriesReply)
        → append_entries gob rf args ≡ some (rf', reply)
        → Step rf rf'
    installs :
        (args : InstallSnapshotArgs) (reply : InstallSnapshotReply)
        → install_snapshot gob rf args ≡ some (rf', reply)
        → Step rf rf'
    snapshots : (index : ℕ) (bytes : Bytes) → snapshot gob rf index bytes ≡ some rf' → Step rf rf'
    starts :
        (command : C) (answer : ℤ × ℤ × Bool)
        → start gob rf command ≡ some (rf', answer)
        → Step rf rf'
    ticks : (count : ℕ) → tick gob rf ≡ some (rf', count) → Step rf rf'
    beats : heartbeat_event rf ≡ some rf' → Step rf rf'
    adds_log : add_log_event rf ≡ some rf' → Step rf rf'
    counts_vote :
        (count count' : ℕ) (args : RequestVoteArgs) (reply : RequestVoteReply)
        → handle_vote_reply gob rf count args reply ≡ some (rf', count')
        → Step rf rf'
    hears_append :
        (peer : ℕ) (args : AppendEntriesArgs C) (reply : AppendEntriesReply)
        → handle_append_entries_reply gob rf peer args reply ≡ some rf'
        → Step rf rf'
    hears_install :
        (peer : ℕ) (args : InstallSnapshotArgs) (reply : InstallSnapshotReply)
        → handle_install_snapshot_reply gob rf peer args reply ≡ some rf'
        → Step rf rf'
    begins_apply : (msg : ApplyMsg C) → begin_apply rf msg ≡ some rf' → Step rf rf'
    ends_apply : (msg : ApplyMsg C) → end_apply rf msg ≡ rf' → Step rf rf'
    dies : kill rf ≡ rf' → Step rf rf'

  pub data Steps (rf : Raft C) : Raft C → Type 0 where
    here : Steps rf rf
    next : {rf' rf'' : Raft C} → Steps rf rf' → Step rf' rf'' → Steps rf rf''
