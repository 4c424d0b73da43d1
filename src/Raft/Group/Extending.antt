-- ===== src/Raft/Group/Extending.antt =====
-- How what a peer of a Group has to do with the past outlasts a growing past.
use mit6_824_labs.Prelude.{
  ℕ, ◌+◌, ◌≤◌, ◌≡◌, ◌≢◌, inl, inr, sym, ap, ◌∙◌, List, some, true, arith, get_elem?, get_elem?-some,
  lt_of_get_elem?,
}
use mit6_824_labs.Raft.Types.{Raft, LogEntry, AppendEntriesArgs}
use mit6_824_labs.Raft.Leader.{is_leader}
use mit6_824_labs.Raft.Group.Past.{Ack, Past, CommittedTo, term_of-some, term_of-entry}
use mit6_824_labs.Raft.Group.Holds.{
  Extends, CommittedTo-Follows, Same-Grows, grown_back, IsGood-Grows, Parts-Grows, Stored, HeldBy,
  HasAck, IsPart, Holds,
}

module _ {C : Type 0} (n : ℕ) where
  module _ (past past' : Past C) (i term : ℕ) (e : Extends n past past' i term) where
    pub CommittedTo-Extends :
        (u u' c : ℕ) (L : List (LogEntry C))
        → u ≤ u'
        → CommittedTo n past u c L
        → CommittedTo n past' u' c L
    CommittedTo-Extends u u' c L later v =
        CommittedTo-Follows n past past' u u' c L (e.grows, e.kept) later v

    -- What is committed of a log that grows.
    pub CommittedTo-grown :
        (u u' c : ℕ) (L L' : List (LogEntry C))
        → u ≤ u'
        → ((i : ℕ) (x : LogEntry C) → get_elem? L i ≡ some x → get_elem? L' i ≡ some x)
        → CommittedTo n past u c L
        → CommittedTo n past' u' c L'
    CommittedTo-grown u u' c L L' later keeps v = elim (CommittedTo-Extends u u' c L later v) [
      | inl none_yet ↦ inl none_yet
      | inr (t, m, below, upto, committed, same) ↦
          let (x, at_x, x_term) = term_of-some (past'.heads t) m t committed.0 in
          inr (
            t,
            m,
            below,
            upto,
            committed,
            λ j l.
                let (y, at_y) =
                  get_elem?-some (past'.heads t) j
                    (omega (arith, lt_of_get_elem? (past'.heads t) m at_x)) in
                keeps j y (same j l ∙ at_y) ∙ sym at_y,
          )
    ]

    pub IsPart-Extends : (args : AppendEntriesArgs C) → IsPart n past args → IsPart n past' args
    IsPart-Extends args p =
        let (x, at_x, x_term) =
          term_of-some (past.heads args.term) args.prev_log_index args.prev_log_term
            p.term_before in
        record {
          term_before =
              term_of-entry (past'.heads args.term) args.prev_log_index x
                (e.grows args.term args.prev_log_index x at_x)
              ∙ ap some x_term;
          same_entries = λ j l.
              let (y, at_y) = get_elem?-some args.entries j l in
              at_y
              ∙ sym (
                  e.grows args.term (args.prev_log_index + 1 + j) y
                    (sym (p.same_entries j l) ∙ at_y));
          reaches_commit = p.reaches_commit;
          committed =
              CommittedTo-grown args.term args.term args.leader_commit (past.heads args.term)
                (past'.heads args.term) (omega arith) (e.grows args.term) p.committed;
        }

    pub HasAck-Extends : (voter t m : ℕ) → HasAck n past voter t m → HasAck n past' voter t m
    HasAck-Extends voter t m (k, a, at, v, of_term, r) = (k, a, e.kept k a at, v, of_term, r)

    -- An acknowledgement from before, on a log that keeps what it has.
    pub HeldBy-grown :
        (u u' k : ℕ) (L L' : List (LogEntry C)) (a : Ack)
        → Stored n past
        → get_elem? past.acks k ≡ some a
        → u ≤ u'
        → ((i : ℕ) (x : LogEntry C) → get_elem? L i ≡ some x → get_elem? L' i ≡ some x)
        → HeldBy n past u L a
        → HeldBy n past' u' L' a
    HeldBy-grown u u' k L L' a stored at later keeps held m x l at_x of_term =
        let old =
          grown_back n past.heads past'.heads a.term m x e.grows
            (omega (arith, stored.reached k a at)) at_x in
        elim (held m x l old of_term) [
          | inl same ↦ inl (
              Same-Grows n past.heads past'.heads L' a.term m x e.grows old (λ j below.
                let (y, at_y) =
                  get_elem?-some (past.heads a.term) j
                    (omega (arith, lt_of_get_elem? (past.heads a.term) m old)) in
                keeps j y (same j below ∙ at_y) ∙ sym at_y))
          | inr parts ↦ inr (Parts-Grows n past.heads past'.heads a.term u u' m e.grows later parts)
        ]

    -- The other peers.
    pub Holds-Extends :
        (j : ℕ) (rf : Raft C)
        → Stored n past
        → j ≢ i
        → (is_leader rf.state ≡ true → past'.heads rf.current_term ≡ past.heads rf.current_term)
        → Holds n past j rf
        → Holds n past' j rf
    Holds-Extends j rf stored other same h = record {
      plain = h.plain;
      good = IsGood-Grows n past.heads past'.heads rf.current_term rf.logs e.grows h.good;
      heads = λ leads. h.heads leads ∙ sym (same leads);
      held = λ k a at mine. elim (e.fresh k a at) [
        | inl old ↦
            let (below, held) = h.held k a old mine in
            (
              below,
              HeldBy-grown rf.current_term rf.current_term k rf.logs rf.logs a stored old
                  (omega arith) (λ l x at. at) held,
            )
        | inr (new, _) ↦ absurd (other (sym mine ∙ new))
      ];
      matches = λ leads p m at. elim (h.matches leads p m at) [
        | inl none_yet ↦ inl none_yet
        | inr ack ↦ inr (HasAck-Extends p rf.current_term m ack)
      ];
      commits =
          CommittedTo-Extends rf.current_term rf.current_term rf.commit_index rf.logs (omega arith)
            h.commits;
      sent = λ k p args at. IsPart-Extends args (h.sent k p args at);
    }
