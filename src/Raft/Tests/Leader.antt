-- ===== src/Raft/Tests/Leader.antt =====
-- Start and the commit rule.
use mit6_824_labs.Prelude.{ℕ, ◌<◌, ◌≡◌, ◌⊎◌, refl}
use mit6_824_labs.Raft.Types.{Raft}
use mit6_824_labs.Raft.Leader.{
  start, check_and_commit_logs, find_commit, succeed_num, count_reached,
}
use mit6_824_labs.Raft.Leader.Commit.{IsCommittable, commit_rule}
use mit6_824_labs.Raft.Tests.{coding, leader, state_after, or_else}

abbrev committed : Raft ℕ
committed = or_else leader (check_and_commit_logs leader)

commit_rule_example :
    ((committed.commit_index ≡ 1)
      ⊎ ((1 < committed.commit_index)
          × (committed.commit_index < 5)
          × IsCommittable leader committed.commit_index))
    × ((n : ℕ) → committed.commit_index < n → n < 5 → ¬ IsCommittable leader n)
unfolding check_and_commit_logs find_commit succeed_num count_reached
commit_rule_example = commit_rule leader committed refl

abbrev started : Raft ℕ
started = state_after leader (start coding leader 6)
