-- ===== src/Raft/Group/Holds.antt =====
-- What a peer of a Group has to do with the leaders of the past, and how it outlasts a growing past.
use mit6_824_labs.Prelude.{
  ℕ, ◌+◌, ◌≤◌, ◌<◌, ◌≡◌, ◌⊎◌, inl, inr, sym, ap, ◌∙◌, List, [], some, true, arith, length,
  get_elem?, get_elem?-some, lt_of_get_elem?,
}
use mit6_824_labs.Raft.Types.{Raft, LogEntry, Event, AppendEntriesArgs}
use mit6_824_labs.Raft.Leader.{is_leader}
use mit6_824_labs.Raft.Append.Agreement.{term_of}
use mit6_824_labs.Raft.Group.Positions.{Same}
use mit6_824_labs.Raft.Group.Past.{
  Ack, Heads, Past, IsGood, Grows, Parts, IsCommitted, CommittedTo, term_of-some, term_of-entry,
}

-- The past grows: nothing of the leaders' logs and of the acknowledgements is lost.
abbrev pub Follows : {C : Type 0} → Past C → Past C → Type 0
Follows past past' =
    Grows past.heads past'.heads
    × ((k : ℕ) (a : Ack) → get_elem? past.acks k ≡ some a → get_elem? past'.acks k ≡ some a)

pub Follows-refl : {C : Type 0} → (past : Past C) → Follows past past
Follows-refl past = (λ t i x at. at, λ k a at. at)

pub Follows-trans : {C : Type 0} → (a b c : Past C) → Follows a b → Follows b c → Follows a c
Follows-trans a b c (g, k) (g', k') =
    (λ t i x at. g' t i x (g t i x at), λ i x at. k' i x (k i x at))

module _ {C : Type 0} (n : ℕ) where
  -- A message that is a part of the log of its term's leader.
  pub record IsPart (past : Past C) (args : AppendEntriesArgs C) : Type 0 where
    pub term_before : term_of (past.heads args.term) args.prev_log_index ≡ some args.prev_log_term
    pub same_entries :
        (x : ℕ)
        → x < length args.entries
        → get_elem? args.entries x ≡ get_elem? (past.heads args.term) (args.prev_log_index + 1 + x)
    pub reaches_commit : args.leader_commit ≤ args.prev_log_index + length args.entries
    pub committed : CommittedTo n past args.term args.leader_commit (past.heads args.term)

  -- What a log holds of what its peer has acknowledged.
  abbrev pub HeldBy : Past C → ℕ → List (LogEntry C) → Ack → Type 0
  HeldBy past term logs a =
      (m : ℕ) (x : LogEntry C)
      → m ≤ a.reached
      → get_elem? (past.heads a.term) m ≡ some x
      → x.term ≡ a.term
      → Same m logs (past.heads a.term) ⊎ Parts past.heads a.term term m

  abbrev pub HasAck : Past C → ℕ → ℕ → ℕ → Type 0
  HasAck past voter term m =
      (k : ℕ) × (a : Ack) × (get_elem? past.acks k ≡ some a)
      × (a.voter ≡ voter)
      × (a.term ≡ term)
      × (m ≤ a.reached)

  pub record Holds (past : Past C) (i : ℕ) (rf : Raft C) : Type 0 where
    pub plain : rf.last_included_index ≡ 0
    pub good : IsGood past.heads rf.current_term rf.logs
    pub heads : is_leader rf.state ≡ true → rf.logs ≡ past.heads rf.current_term
    pub held :
        (k : ℕ) (a : Ack)
        → get_elem? past.acks k ≡ some a
        → a.voter ≡ i
        → (a.term ≤ rf.current_term) × HeldBy past rf.current_term rf.logs a
    pub matches :
        is_leader rf.state ≡ true
        → (j m : ℕ) → get_elem? rf.match_index j ≡ some m
        → (m ≡ 0) ⊎ HasAck past j rf.current_term m
    pub commits : CommittedTo n past rf.current_term rf.commit_index rf.logs
    pub sent :
        (k j : ℕ) (args : AppendEntriesArgs C)
        → get_elem? rf.events k ≡ some (Event.send_append_entries j args)
        → IsPart past args

  pub record Stored (past : Past C) : Type 0 where
    pub good : (t : ℕ) → (past.heads t ≡ []) ⊎ IsGood past.heads t (past.heads t)
    pub reached :
        (k : ℕ) (a : Ack) → get_elem? past.acks k ≡ some a → a.reached < length (past.heads a.term)

  -- The logs of the leaders grow, and one peer acknowledges more in one term.
  pub record Extends (past past' : Past C) (i term : ℕ) : Type 0 where
    pub grows : Grows past.heads past'.heads
    pub kept : (k : ℕ) (a : Ack) → get_elem? past.acks k ≡ some a → get_elem? past'.acks k ≡ some a
    pub fresh :
        (k : ℕ) (a : Ack)
        → get_elem? past'.acks k ≡ some a
        → (get_elem? past.acks k ≡ some a) ⊎ ((a.voter ≡ i) × (a.term ≡ term))

  pub Extends-same : (past : Past C) (i term : ℕ) → Extends past past i term
  Extends-same past i term = record {
    grows = λ t j x at. at;
    kept = λ k a at. at;
    fresh = λ k a at. inl at;
  }

  pub Same-Grows :
      (heads heads' : Heads C) (L : List (LogEntry C)) (t m : ℕ) (x : LogEntry C)
      → Grows heads heads'
      → get_elem? (heads t) m ≡ some x
      → Same m L (heads t)
      → Same m L (heads' t)
  Same-Grows heads heads' L t m x g at same j l =
      let (y, at_y) = get_elem?-some (heads t) j (omega (arith, lt_of_get_elem? (heads t) m at)) in
      same j l ∙ at_y ∙ sym (g t j y at_y)

  -- The other way round, as far as the old log goes.
  pub grown_back :
      (heads heads' : Heads C) (t m : ℕ) (x : LogEntry C)
      → Grows heads heads'
      → m < length (heads t)
      → get_elem? (heads' t) m ≡ some x
      → get_elem? (heads t) m ≡ some x
  grown_back heads heads' t m x g l at =
      let (y, at_y) = get_elem?-some (heads t) m l in at_y ∙ sym (g t m y at_y) ∙ at

  pub IsGood-Grows :
      (heads heads' : Heads C) (t : ℕ) (L : List (LogEntry C))
      → Grows heads heads'
      → IsGood heads t L
      → IsGood heads' t L
  IsGood-Grows heads heads' t L g v = record {
    consistent = λ i x at.
        Same-Grows heads heads' L x.term i x g (sym (v.consistent i x at i (omega arith)) ∙ at)
          (v.consistent i x at);
    bounded = v.bounded;
    first = v.first;
  }

  pub Parts-Grows :
      (heads heads' : Heads C) (t u u' m : ℕ)
      → Grows heads heads'
      → u ≤ u'
      → Parts heads t u m
      → Parts heads' t u' m
  Parts-Grows heads heads' t u u' m g l (v, k, a, b, above, upto, inside, at, at', differ) =
      (v, k, a, b, above, omega arith, inside, g v k a at, g t k b at', differ)

  -- What was committed stays so.
  pub IsCommitted-Follows :
      (past past' : Past C) (t m : ℕ)
      → Follows past past'
      → IsCommitted n past t m
      → IsCommitted n past' t m
  IsCommitted-Follows past past' t m (grows, kept) (at, (q, most, acked)) =
      let (x, at_x, x_term) = term_of-some (past.heads t) m t at in
      (
        term_of-entry (past'.heads t) m x (grows t m x at_x) ∙ ap some x_term,
        (
          q,
          most,
          λ j given. let (k, a, at_a, v, t, r) = acked j given in (k, a, kept k a at_a, v, t, r),
        ),
      )

  pub CommittedTo-Follows :
      (past past' : Past C) (u u' c : ℕ) (L : List (LogEntry C))
      → Follows past past'
      → u ≤ u'
      → CommittedTo n past u c L
      → CommittedTo n past' u' c L
  CommittedTo-Follows past past' u u' c L follows later (inl none_yet) = inl none_yet
  CommittedTo-Follows past past' u u' c L follows later (inr (t, m, below, upto, committed, same)) =
      let (x, at_x, x_term) = term_of-some (past.heads t) m t committed.0 in
      let (y, at_y) =
        get_elem?-some (past.heads t) c (omega (arith, lt_of_get_elem? (past.heads t) m at_x)) in
      inr (
        t,
        m,
        omega arith,
        upto,
        IsCommitted-Follows past past' t m follows committed,
        Same-Grows past.heads past'.heads L t c y follows.0 at_y same,
      )
