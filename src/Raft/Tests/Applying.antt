-- ===== src/Raft/Tests/Applying.antt =====
-- What the applier sends.
use mit6_824_labs.Prelude.{
  ℕ, zero, suc, ◌+◌, ◌≤◌, ◌≡◌, ◌≢◌, refl, ltb, if◌then◌else◌, List, [], ◌∷◌, none, arith, length,
}
use mit6_824_labs.Raft.Types.{Raft, ApplyMsg, InstallSnapshotArgs}
use mit6_824_labs.Raft.Snapshot.{install}
use mit6_824_labs.Raft.Applier.{
  collect, gather, begin_apply, end_apply, apply_batch, alone, command_msg,
}
use mit6_824_labs.Raft.Applier.Batch.{
  Consecutive, Carries, Rises, gather_applies, gather-ne-none, sent_in_order,
}
use mit6_824_labs.Raft.Tests.{peer, at_term}

-- Three entries are committed, none is applied.
abbrev ahead : Raft ℕ
ahead = record peer { commit_index = 3 }

abbrev batch : List (ApplyMsg ℕ)
batch = command_msg (at_term 1 7) 1 ∷ command_msg (at_term 1 8) 2 ∷ command_msg (at_term 2 9) 3 ∷ []

gather_applies_example :
    ((apply_batch alone ahead batch).1 ≡ batch)
    × Consecutive 1 batch
    × Carries ahead batch
    × (0 + length batch ≡ 3)
    × ((apply_batch alone ahead batch).0.last_applied ≡ 3)
unfolding gather collect
gather_applies_example = gather_applies ahead batch refl (omega arith)

gather-ne-none_example : gather ahead ≢ none
gather-ne-none_example = gather-ne-none ahead (omega arith) (omega arith)

-- InstallSnapshot brings the snapshot of the first two entries while the first message is sent, if
-- it is newer than what was applied.
abbrev up_to_two : InstallSnapshotArgs
up_to_two = record {
  term = 2;
  leader_id = 1;
  last_included_index = 2;
  last_included_term = 1;
  bytes = [];
}

abbrev snapshot_comes : ℕ → Raft ℕ → Raft ℕ
snapshot_comes (suc zero) rf =
    if ltb rf.last_applied 2 then install rf up_to_two (at_term 1 0 ∷ at_term 2 9 ∷ []) else rf
snapshot_comes zero rf = rf
snapshot_comes (suc (suc n)) rf = rf

abbrev interrupted : Raft ℕ × List (ApplyMsg ℕ)
interrupted = apply_batch snapshot_comes ahead batch

-- The second message is dropped, and the third one is sent.
skips_the_second : interrupted.1 ≡ command_msg (at_term 1 7) 1 ∷ command_msg (at_term 2 9) 3 ∷ []
unfolding apply_batch begin_apply end_apply install
skips_the_second = refl

snapshot_comes-up : (n : ℕ) (rf : Raft ℕ) → rf.last_applied ≤ (snapshot_comes n rf).last_applied
unfolding install
snapshot_comes-up zero rf = omega arith
snapshot_comes-up (suc zero) rf = ground arith
snapshot_comes-up (suc (suc n)) rf = omega arith

sent_in_order_example : Rises 0 interrupted.0.last_applied interrupted.1
sent_in_order_example = sent_in_order snapshot_comes ahead batch snapshot_comes-up
