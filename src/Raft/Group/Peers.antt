-- ===== src/Raft/Group/Peers.antt =====
-- How the steps of one peer of a Group keep what it has to do with the past: all but the messages
-- that change a follower's log.
use mit6_824_labs.Prelude.{
  ℕ, ◌+◌, ◌≤◌, ◌<◌, ◌≡◌, inl, inr, sym, ap, ◌∙◌, List, some, true, arith, length, get_elem?,
  get_elem?-some, lt_of_get_elem?, ◌>>=◌,
}
use mit6_824_labs.Raft.Types.{Raft, LogEntry, AppendEntriesArgs}
use mit6_824_labs.Raft.Log.{entry_at}
use mit6_824_labs.Raft.Leader.{is_leader}
use mit6_824_labs.Raft.Leader.Replicate.{IsSuffix}
use mit6_824_labs.Raft.Append.Agreement.{term_of}
use mit6_824_labs.Raft.Group.Past.{Past, IsGood, CommittedTo, term_of-some}
use mit6_824_labs.Raft.Group.Effects.{Steady, Emits}
use mit6_824_labs.Raft.Group.Holds.{IsPart, Holds, Stored, Extends-same}
use mit6_824_labs.Raft.Group.Extending.{HeldBy-grown, CommittedTo-grown}

module _ {C : Type 0} (n : ℕ) where
  pub entry_at-plain :
      (rf : Raft C) (i : ℕ) → rf.last_included_index ≡ 0 → entry_at rf i ≡ get_elem? rf.logs i
  entry_at-plain rf i plain = ground arith

  pub commit_below :
      (past : Past C) (u c i : ℕ) (x : LogEntry C) (L : List (LogEntry C))
      → get_elem? L i ≡ some x
      → CommittedTo n past u c L
      → c < length L
  commit_below past u c i x L at (inl none_yet) = omega (arith, lt_of_get_elem? L i at)
  commit_below past u c i x L at (inr (t, m, below, upto, committed, same)) =
      let (y, at_y, y_term) = term_of-some (past.heads t) m t committed.0 in
      let (z, at_z) =
        get_elem?-some (past.heads t) c (omega (arith, lt_of_get_elem? (past.heads t) m at_y)) in
      omega (arith, lt_of_get_elem? L c (same c (omega arith) ∙ at_z))

  -- The end of a leader's log is a part of it.
  pub IsSuffix-IsPart :
      (past : Past C) (rf : Raft C) (args : AppendEntriesArgs C)
      → rf.last_included_index ≡ 0
      → IsGood past.heads rf.current_term rf.logs
      → rf.logs ≡ past.heads rf.current_term
      → CommittedTo n past rf.current_term rf.commit_index rf.logs
      → IsSuffix rf args
      → IsPart n past args
  IsSuffix-IsPart past rf args plain good led commits s =
      let log : past.heads args.term ≡ rf.logs = ap past.heads s.own_term ∙ sym led in
      let before : term_of rf.logs args.prev_log_index ≡ some args.prev_log_term =
        sym (ap (λ e. e >>= (λ x. some x.term)) (entry_at-plain rf args.prev_log_index plain))
        ∙ s.term_before in
      let inside =
        commit_below past rf.current_term rf.commit_index 0 _ rf.logs good.first commits in
      record {
        term_before = rw log before;
        same_entries = λ x l.
            rw log (s.same_entries x ∙ entry_at-plain rf (args.prev_log_index + 1 + x) plain);
        reaches_commit = omega (arith, s.own_commit, s.reaches_end, inside, plain);
        committed = rw (log, s.own_commit, s.own_term) commits;
      }

  -- A step that leaves the log and its commit index.
  pub Holds-Steady :
      (past : Past C) (i : ℕ) (rf rf' : Raft C)
      → Stored n past
      → Holds n past i rf
      → Steady rf rf'
      → rf.current_term ≤ rf'.current_term
      → (is_leader rf'.state ≡ true
          → (is_leader rf.state ≡ true)
            × (rf'.current_term ≡ rf.current_term)
            × (rf'.match_index ≡ rf.match_index))
      → Emits rf rf'
      → Holds n past i rf'
  Holds-Steady past i rf rf' stored h (logs, commit, plain) later led sent =
      let ex = Extends-same n past i 0 in
      let good : IsGood past.heads rf'.current_term rf'.logs = record {
        consistent = rw logs h.good.consistent;
        bounded = λ j x at. omega (arith, later, h.good.bounded j x (rw logs at at));
        first = rw logs h.good.first;
      } in
      let heads : is_leader rf'.state ≡ true → rf'.logs ≡ past.heads rf'.current_term =
        λ leads. let (was, term, _) = led leads in rw (logs, term) (h.heads was) in
      let commits : CommittedTo n past rf'.current_term rf'.commit_index rf'.logs =
        rw (logs, commit)
          (CommittedTo-grown n past past i 0 ex rf.current_term rf'.current_term rf.commit_index
            rf.logs rf.logs later (λ j x at. at) h.commits) in
      record {
        plain = plain ∙ h.plain;
        good = good;
        heads = heads;
        held = λ k a at mine.
            let (below, held) = h.held k a at mine in
            (
              omega arith,
              rw logs (
                  HeldBy-grown n past past i 0 ex rf.current_term rf'.current_term k rf.logs rf.logs
                    a stored at later (λ j x at. at) held),
            );
        matches = λ leads j m at.
            let (was, term, matches) = led leads in rw term (h.matches was j m (rw matches at at));
        commits = commits;
        sent = λ k j args at. elim (sent k j args at) [
          | inl old ↦ h.sent k j args old
          | inr (leads, suffix) ↦
              IsSuffix-IsPart past rf' args (plain ∙ h.plain) good (heads leads) commits suffix
        ];
      }
