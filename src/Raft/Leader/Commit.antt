-- ===== src/Raft/Leader/Commit.antt =====
-- The commit rule of the leader: checkAndCommitLogs.
use mit6_824_labs.Prelude.{
  ℕ, zero, suc, ◌+◌, ◌-◌, ◌/◌, ◌≤◌, ◌<◌, ◌≡◌, ◌≢◌, ◌⊎◌, inl, inr, none, some, ltb, arith,
  Option-cases, if◌then◌else◌, >>=-eq-some, dec_lt, get_elem?-some,
}
use mit6_824_labs.Raft.Types.{Raft}
use mit6_824_labs.Raft.Log.{real_log_len}
use mit6_824_labs.Raft.Leader.{count_reached, succeed_num, find_commit, check_and_commit_logs}
use mit6_824_labs.Raft.Append.Agreement.{term_at}

module _ {C : Type 0} where
  -- Entry `n` is of the current term, and more than half of the peers have it.
  abbrev pub IsCommittable : Raft C → ℕ → Type 0
  IsCommittable rf n =
      (term_at rf n ≡ some rf.current_term) × (rf.peers / 2 < count_reached n rf.match_index)

  succeed_num→IsCommittable :
      (rf : Raft C) (n : ℕ) {count : ℕ}
      → succeed_num rf n ≡ some count
      → rf.peers / 2 < count
      → IsCommittable rf n
  unfolding succeed_num
  succeed_num→IsCommittable rf n h l = ground arith

  IsCommittable→succeed_num :
      (rf : Raft C) (n : ℕ) {count : ℕ}
      → succeed_num rf n ≡ some count
      → IsCommittable rf n
      → rf.peers / 2 < count
  unfolding succeed_num
  IsCommittable→succeed_num rf n h c = ground arith

  -- What the loop finds between `from` and `from + rounds`.
  pub record Finds (rf : Raft C) (best from rounds found : ℕ) : Type 0 where
    pub source :
        (found ≡ best) ⊎ ((from ≤ found) × (found < from + rounds) × IsCommittable rf found)
    pub largest : (n : ℕ) → from ≤ n → n < from + rounds → found < n → ¬ IsCommittable rf n

  find_commit-Finds :
      (rf : Raft C) (best from rounds : ℕ) {found : ℕ}
      → best < from
      → find_commit rf best from rounds ≡ some found
      → Finds rf best from rounds found
  unfolding find_commit
  find_commit-Finds rf best from zero h e = record {
    source = ground arith;
    largest = λ n a b l c. absurd (omega arith);
  }
  find_commit-Finds rf best from (suc rounds) {found} h e =
      let (count, at, rest) = >>=-eq-some (succeed_num rf from) _ e in
      let best' = if ltb (rf.peers / 2) count then from else best in
      let f : Finds rf best' (suc from) rounds found =
        find_commit-Finds rf best' (suc from) rounds (ground arith) rest in
      record {
        source = ground (arith, f.source, succeed_num→IsCommittable rf from at);
        largest = λ n a b l c. elim (dec_lt from n) [
          | yes behind ↦ f.largest n behind (omega arith) l c
          | no here ↦
              let same : n ≡ from = omega arith in
              ground (arith, same, f.source, IsCommittable→succeed_num rf from at (rw same at c))
        ];
      }

  -- The commit index stays, or rises to an entry of the current term that more than half of the
  -- peers have; and no later entry of the log is such an entry.
  pub commit_rule :
      (rf rf' : Raft C)
      → check_and_commit_logs rf ≡ some rf'
      → ((rf'.commit_index ≡ rf.commit_index)
          ⊎ ((rf.commit_index < rf'.commit_index)
              × (rf'.commit_index < real_log_len rf)
              × IsCommittable rf rf'.commit_index))
        × ((n : ℕ) → rf'.commit_index < n → n < real_log_len rf → ¬ IsCommittable rf n)
  unfolding check_and_commit_logs
  commit_rule rf rf' h =
      let start = rf.commit_index + 1 in
      let rounds = real_log_len rf - start in
      let (n, at, _) = >>=-eq-some (find_commit rf rf.commit_index start rounds) _ h in
      let f : Finds rf rf.commit_index start rounds n =
        find_commit-Finds rf rf.commit_index start rounds (omega arith) at in
      let same : rf'.commit_index ≡ n = ground (arith, at, f.source) in
      (
        ground (arith, same, f.source),
        λ m a b c. f.largest m (omega arith) (omega arith) (omega arith) c,
      )

  succeed_num-ne-none :
      (rf : Raft C) (n : ℕ)
      → rf.last_included_index ≤ n
      → n < real_log_len rf
      → succeed_num rf n ≢ none
  unfolding succeed_num
  succeed_num-ne-none rf n h l e =
      let (x, at) = get_elem?-some rf.logs (n - rf.last_included_index) (omega arith) in
      ground (arith, at)

  find_commit-ne-none :
      (rf : Raft C) (best from rounds : ℕ)
      → rf.last_included_index ≤ from
      → from + rounds ≤ real_log_len rf
      → find_commit rf best from rounds ≢ none
  unfolding find_commit
  find_commit-ne-none rf best from zero h l e = cc
  find_commit-ne-none rf best from (suc rounds) h l e = elim (Option-cases (succeed_num rf from)) [
    | inl bad ↦ succeed_num-ne-none rf from h (omega arith) bad
    | inr (count, at) ↦
        find_commit-ne-none rf (if ltb (rf.peers / 2) count then from else best) (suc from) rounds
          (omega arith) (omega arith) (rw at at e)
  ]

  pub check_and_commit-ne-none :
      (rf : Raft C)
      → rf.last_included_index ≤ rf.commit_index
      → rf.commit_index < real_log_len rf
      → check_and_commit_logs rf ≢ none
  unfolding check_and_commit_logs
  check_and_commit-ne-none rf h l e = ground (
    arith,
    find_commit-ne-none rf rf.commit_index (rf.commit_index + 1)
        (real_log_len rf - (rf.commit_index + 1)),
  )
