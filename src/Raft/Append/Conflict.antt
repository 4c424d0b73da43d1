-- ===== src/Raft/Append/Conflict.antt =====
-- What the reply to a mismatch says. The comments of the source call its XIndex the first entry of the
-- term; the loop stops above the commit index, so a run that begins in committed entries is cut there.
use mit6_824_labs.Prelude.{
  ℕ, zero, suc, ◌-◌, ◌≤◌, ◌<◌, ◌≡◌, ◌≢◌, refl, none, some, true, false, ltb, ◌==◌, if◌then◌else◌,
  Bool, sym, ◌∙◌, arith, Bool-cases, inl, inr, dec_lt, get_elem?-none,
}
use mit6_824_labs.Prelude.Int.{ℤ, pos, minus_one}
use mit6_824_labs.Raft.Types.{Raft, AppendEntriesArgs, AppendEntriesReply, PersistentStatus}
use mit6_824_labs.Raft.Log.{real_log_len}
use mit6_824_labs.Raft.Persist.{Codec, persist}
use mit6_824_labs.Raft.Append.{append_entries, append_checked, find_conflict, follow}
use mit6_824_labs.Raft.Append.Agreement.{term_at}

module _ {C : Type 0} where
  -- `m` is the first position of a run of term `t` that ends at `i` and is not committed.
  pub record IsFirst (rf : Raft C) (t i m : ℕ) : Type 0 where
    pub open_entry : rf.commit_index < m
    pub before_end : m ≤ i
    pub run : (j : ℕ) → m ≤ j → j ≤ i → term_at rf j ≡ some t
    pub starts : term_at rf (m - 1) ≡ some t → m - 1 ≤ rf.commit_index

  IsFirst-self :
      (rf : Raft C) (t i : ℕ)
      → rf.commit_index < suc i
      → term_at rf (suc i) ≡ some t
      → (rf.commit_index < i → term_at rf i ≡ some t → ⊥)
      → IsFirst rf t (suc i) (suc i)
  IsFirst-self rf t i h e no_more = record {
    open_entry = h;
    before_end = omega arith;
    run = λ j a b. let same : j ≡ suc i = omega arith in rw same e;
    starts = λ e'. elim (dec_lt rf.commit_index i) [
      | yes l ↦ let same : suc i - 1 ≡ i = omega arith in absurd (no_more l (rw same at e'))
      | no l ↦ omega arith
    ];
  }

  IsFirst-suc :
      (rf : Raft C) (t i m : ℕ)
      → term_at rf (suc i) ≡ some t
      → IsFirst rf t i m
      → IsFirst rf t (suc i) m
  IsFirst-suc rf t i m e f = record {
    open_entry = f.open_entry;
    before_end = omega (arith, f.before_end);
    run = λ j a b. elim (dec_lt j (suc i)) [
      | yes l ↦ f.run j a (omega arith)
      | no l ↦ let same : j ≡ suc i = omega arith in rw same e
    ];
    starts = f.starts;
  }

  -- Whether the loop goes on below position i + 1.
  goes_on : Raft C → ℕ → ℕ → Bool
  goes_on rf t i =
      if ltb rf.commit_index i
      then elim (term_at rf i) [ none ↦ false | some u ↦ u == t ]
      else false

  goes_on→facts :
      (rf : Raft C) (t i : ℕ)
      → goes_on rf t i ≡ true
      → (rf.commit_index < i) × (term_at rf i ≡ some t)
  unfolding goes_on
  goes_on→facts rf t i h = ground arith

  facts→goes_on :
      (rf : Raft C) (t i : ℕ)
      → goes_on rf t i ≡ false
      → rf.commit_index < i
      → term_at rf i ≡ some t
      → ⊥
  unfolding goes_on
  facts→goes_on rf t i h l e = ground arith

  find_conflict-step :
      (rf : Raft C) (t i : ℕ) (found : ℤ)
      → rf.commit_index < suc i
      → term_at rf (suc i) ≡ some t
      → find_conflict rf t (suc i) found ≡ find_conflict rf t i (pos (suc i))
  unfolding find_conflict
  find_conflict-step rf t i found l e = ground arith

  find_conflict-stop :
      (rf : Raft C) (t i : ℕ) (found : ℤ) {c : ℤ}
      → find_conflict rf t i found ≡ some c
      → goes_on rf t i ≡ false
      → c ≡ found
  unfolding find_conflict goes_on
  find_conflict-stop rf t zero found h stop = cc
  find_conflict-stop rf t (suc i) found h stop = ground arith

  -- The loop ends at the first position of the run.
  pub find_conflict-IsFirst :
      (rf : Raft C) (t i : ℕ) (found : ℤ) {c : ℤ}
      → find_conflict rf t i found ≡ some c
      → rf.commit_index < i
      → term_at rf i ≡ some t
      → (m : ℕ) × (c ≡ pos m) × IsFirst rf t i m
  find_conflict-IsFirst rf t zero found h l e = absurd (omega arith)
  find_conflict-IsFirst rf t (suc i) found h l e =
      let h' = sym (find_conflict-step rf t i found l e) ∙ h in
      elim (Bool-cases (goes_on rf t i)) [
        | inl on ↦
            let (l', e') = goes_on→facts rf t i on in
            let (m, at, first) = find_conflict-IsFirst rf t i (pos (suc i)) h' l' e' in
            (m, at, IsFirst-suc rf t i m e first)
        | inr off ↦ (
          suc i,
          find_conflict-stop rf t i (pos (suc i)) h' off,
          IsFirst-self rf t i l e (facts→goes_on rf t i off),
        )
      ]

  find_conflict-follow :
      (rf : Raft C) (term t i : ℕ) (found : ℤ)
      → find_conflict (follow rf term) t i found ≡ find_conflict rf t i found
  unfolding find_conflict follow
  find_conflict-follow rf term t zero found = refl
  find_conflict-follow rf term t (suc i) found =
      ground (arith, find_conflict-follow rf term t i (pos (suc i)))

module _ {C : Type 0} (gob : Codec (PersistentStatus C)) where
  mismatch_step :
      (rf : Raft C) (args : AppendEntriesArgs C) (t : ℕ) (rf' : Raft C) (reply : AppendEntriesReply)
      → append_entries gob rf args ≡ some (rf', reply)
      → rf.current_term ≤ args.term
      → term_at rf args.prev_log_index ≡ some t
      → t ≢ args.prev_log_term
      → (reply.success ≡ false)
        × (reply.x_term ≡ pos t)
        × (reply.x_len ≡ real_log_len rf)
        × (rf'.logs ≡ rf.logs)
        × (find_conflict rf t args.prev_log_index minus_one ≡ some reply.x_index)
  unfolding append_entries append_checked follow persist
  mismatch_step rf args t rf' reply h new e differs = ground (
    arith,
    find_conflict-follow rf args.term t args.prev_log_index minus_one,
    get_elem?-none rf.logs (args.prev_log_index - rf.last_included_index),
  )

  -- When the entry before the message has another term and is not committed, the reply fails, names
  -- the follower's term at that position, the first uncommitted position of the run of that term,
  -- and the length of the log; and the log stays as it was.
  pub conflict_reply :
      (rf : Raft C) (args : AppendEntriesArgs C) (t : ℕ) (rf' : Raft C) (reply : AppendEntriesReply)
      → append_entries gob rf args ≡ some (rf', reply)
      → rf.current_term ≤ args.term
      → term_at rf args.prev_log_index ≡ some t
      → t ≢ args.prev_log_term
      → rf.commit_index < args.prev_log_index
      → (reply.success ≡ false)
        × (reply.x_term ≡ pos t)
        × (reply.x_len ≡ real_log_len rf)
        × (rf'.logs ≡ rf.logs)
        × ((m : ℕ) × (reply.x_index ≡ pos m) × IsFirst rf t args.prev_log_index m)
  conflict_reply rf args t rf' reply h new e differs l =
      let (fails, at_term, at_len, kept, found) =
        mismatch_step rf args t rf' reply h new e differs in
      (fails, at_term, at_len, kept, find_conflict-IsFirst rf t args.prev_log_index _ found l e)
