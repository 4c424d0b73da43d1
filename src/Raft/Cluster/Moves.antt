-- ===== src/Raft/Cluster/Moves.antt =====
-- Each step of the peers keeps the elections fair.
use mit6_824_labs.Prelude.{
  ℕ, ◌+◌, ◌<◌, ◌≡◌, refl, sym, ap, ◌∙◌, List, [], ◌∷◌, ◌++◌, some, true, false, arith, Bool-cases,
  inl, inr, ◌==◌, ==_iff, if◌then◌else◌, get_elem?,
}
use mit6_824_labs.Prelude.Int.{pos}
use mit6_824_labs.Raft.Types.{Raft, PersistentStatus, Event}
use mit6_824_labs.Raft.Persist.{Codec}
use mit6_824_labs.Raft.Leader.{is_leader}
use mit6_824_labs.Raft.Vote.{tick}
use mit6_824_labs.Raft.Node.{Step as NodeStep}
use mit6_824_labs.Raft.Node.Votes.{Step-Later}
use mit6_824_labs.Raft.Node.Leads.{SameMember, Kept, TakesNoVote, Step-Kept, tick_begins}
use mit6_824_labs.Raft.Cluster.{Call, Election, Cluster, update, calls_of}
use mit6_824_labs.Raft.Cluster.Asking.{Asks, tick-Asks}
use mit6_824_labs.Raft.Cluster.Tally.{tally_same, tally_one}
use mit6_824_labs.Raft.Cluster.Fair.{
  granted, counted, has_voted, Belongs, IsFair, Elected, IsSafe, get_elem?-append-cases,
  get_elem?-append_left, update-IsFair,
}

-- A call of a new election has brought no vote.
Asks-uncounted : (term i : ℕ) (call : Call) → Asks term i call → counted call ≡ false
Asks-uncounted term i Call.idle a = refl
Asks-uncounted term i (Call.asked args) a = refl
Asks-uncounted term i (Call.replied args reply) a = refl
Asks-uncounted term i (Call.handled args reply) a = absurd a

pub Asks-ungranted : (term i : ℕ) (call : Call) → Asks term i call → granted call ≡ false
Asks-ungranted term i Call.idle a = refl
Asks-ungranted term i (Call.asked args) a = refl
Asks-ungranted term i (Call.replied args reply) a = absurd a
Asks-ungranted term i (Call.handled args reply) a = absurd a

Asks-Belongs :
    (term i count : ℕ) (calls : ℕ → Call) (call : Call)
    → Asks term i call
    → Belongs (record { candidate = i; term = term; count = count; calls = calls }) call
Asks-Belongs term i count calls Call.idle a = tt
Asks-Belongs term i count calls (Call.asked args) a = a
Asks-Belongs term i count calls (Call.replied args reply) a = absurd a
Asks-Belongs term i count calls (Call.handled args reply) a = tt

module _ {C : Type 0} (gob : Codec (PersistentStatus C)) (n : ℕ) where
  pub update-members :
      (peers : ℕ → Raft C) (i : ℕ) (rf : Raft C)
      → ((j : ℕ) → ((peers j).peers ≡ n) × ((peers j).me ≡ j))
      → SameMember (peers i) rf
      → (j : ℕ) → ((update peers i rf j).peers ≡ n) × ((update peers i rf j).me ≡ j)
  update-members peers i rf members (p, m) j = elim (Bool-cases (j == i)) [
    | inl here ↦
        let same : i ≡ j = sym ((==_iff j i).0 here) in
        rw here (rw (← same) (p ∙ (members i).0, m ∙ (members i).1))
    | inr there ↦ rw there (members j)
  ]

  -- The other peers still have the elections that they lead by, and so has the one that moved.
  pub update-leads :
      (peers : ℕ → Raft C) (i : ℕ) (rf : Raft C) (elections : List Election)
      → ((j : ℕ) → is_leader (peers j).state ≡ true → Elected n elections j (peers j).current_term)
      → (is_leader rf.state ≡ true → Elected n elections i rf.current_term)
      → (j : ℕ) → is_leader (update peers i rf j).state ≡ true
      → Elected n elections j (update peers i rf j).current_term
  update-leads peers i rf elections leads now j h = elim (Bool-cases (j == i)) [
    | inl here ↦
        let same : i ≡ j = sym ((==_iff j i).0 here) in rw here (rw (← same) (now (rw here at h)))
    | inr there ↦ rw there (leads j (rw there at h))
  ]

  pub Kept-Elected :
      (rf rf' : Raft C) (elections : List Election) (i : ℕ)
      → (is_leader rf.state ≡ true → Elected n elections i rf.current_term)
      → Kept rf rf'
      → is_leader rf'.state ≡ true
      → Elected n elections i rf'.current_term
  Kept-Elected rf rf' elections i leads (p, m, role) h = elim role [
    | inl follows ↦ absurd (ground (arith, follows, h))
    | inr (led, term) ↦ rw term (leads led)
  ]

  -- A step of one peer that is about no vote.
  pub acts-IsSafe :
      (s : Cluster C) (i : ℕ) (rf : Raft C) (h : NodeStep gob (s.peers i) rf)
      → TakesNoVote gob h
      → IsSafe n s
      → IsSafe n (record s { peers = update s.peers i rf })
  acts-IsSafe s i rf h quiet v =
      let kept = Step-Kept gob h quiet in
      record {
        members = update-members s.peers i rf v.members (kept.0, kept.1);
        fair = λ k e at. update-IsFair n s.peers i rf e (Step-Later gob h) (v.fair k e at);
        single = v.single;
        leads =
            update-leads s.peers i rf s.elections v.leads
              (Kept-Elected (s.peers i) rf s.elections i (v.leads i) kept);
      }

  pub Elected-append :
      (elections : List Election) (x : Election) (i term : ℕ)
      → Elected n elections i term
      → Elected n (elections ++ x ∷ []) i term
  Elected-append elections x i term (k, e, at, candidate, same_term, most) =
      (k, e, get_elem?-append_left elections x k e at, candidate, same_term, most)

  -- A new election has the vote of its candidate, and asks the others.
  new_election-IsFair :
      (peers : ℕ → Raft C) (i : ℕ) (rf : Raft C) (calls : ℕ → Call)
      → i < n
      → calls i ≡ Call.idle
      → ((j : ℕ) → Asks rf.current_term i (calls j))
      → rf.voted_for ≡ pos i
      → IsFair n
          (update peers i rf)
          (record { candidate = i; term = rf.current_term; count = 1; calls = calls })
  new_election-IsFair peers i rf calls below idle asks voted = record {
    member = below;
    tallied = omega (
      arith,
      tally_same n (λ j. j == i) (λ j. if j == i then true else counted (calls j))
          (λ j l. elim (Bool-cases (j == i)) [
            | inl here ↦ rw here refl
            | inr there ↦ rw there (Asks-uncounted rf.current_term i (calls j) (asks j))
          ]),
      tally_one n i below,
    );
    own = idle;
    belongs = λ j. Asks-Belongs rf.current_term i 1 calls (calls j) (asks j);
    bound = λ j given. elim (Bool-cases (j == i)) [
      | inl here ↦ rw here (inr (refl, voted))
      | inr there ↦
          absurd
            (ground (arith, Asks-ungranted rf.current_term i (calls j) (asks j), rw there at given))
    ];
  }

  -- A peer that is bound to an election is no candidate of the same term.
  new_election-single :
      (s : Cluster C) (i : ℕ) (rf : Raft C) (calls : ℕ → Call) (k j : ℕ) (e : Election)
      → IsSafe n s
      → rf.current_term ≡ (s.peers i).current_term + 1
      → ((j : ℕ) → Asks rf.current_term i (calls j))
      → get_elem? s.elections k ≡ some e
      → e.term ≡ rf.current_term
      → has_voted e j ≡ true
      → has_voted (record { candidate = i; term = rf.current_term; count = 1; calls = calls }) j
        ≡ true
      → e.candidate ≡ i
  new_election-single s i rf calls k j e v term asks at same given given' =
      elim (Bool-cases (j == i)) [
        | inl here ↦
            let me : j ≡ i = (==_iff j i).0 here in
            let bound = (v.fair k e at).bound i (rw me at given) in
            absurd (ground (arith, bound, same, term))
        | inr there ↦ absurd (
            ground (arith, Asks-ungranted rf.current_term i (calls j) (asks j), rw there at given'))
      ]

  -- A time-out.
  pub times_out-IsSafe :
      (s : Cluster C) (i : ℕ) (rf : Raft C) (count : ℕ) (sent : List (Event C))
      → i < n
      → tick gob (s.peers i) ≡ some (rf, count)
      → rf.events ≡ (s.peers i).events ++ sent
      → IsSafe n s
      → IsSafe n (record {
        peers = update s.peers i rf;
        elections =
            s.elections
            ++ record {
              candidate = i;
              term = rf.current_term;
              count = count;
              calls = calls_of sent;
            }
              ∷ [];
      })
  times_out-IsSafe s i rf count sent below h events v =
      let ((p, m), follows, term, voted, one) = tick_begins gob (s.peers i) h in
      let me = (v.members i).1 in
      let requests = tick-Asks gob (s.peers i) sent h events in
      let (idle, asks) = rw me at requests in
      let later = Step-Later gob (NodeStep.ticks count h) in
      let new : Election = record {
        candidate = i;
        term = rf.current_term;
        count = 1;
        calls = calls_of sent;
      } in
      rw one (record {
        members = update-members s.peers i rf v.members (p, m);
        fair = λ k e at. elim (get_elem?-append-cases s.elections new k e at) [
          | inl (last, same) ↦
              rw same (
                new_election-IsFair s.peers i rf (calls_of sent) below idle asks
                  (voted ∙ ap pos me))
          | inr old ↦ update-IsFair n s.peers i rf e later (v.fair k e old)
        ];
        single = λ k k' e e' j at at' same given given'.
            elim (get_elem?-append-cases s.elections new k e at) [
              | inl (last, is_new) ↦ elim (get_elem?-append-cases s.elections new k' e' at') [
                | inl (last', is_new') ↦ ap (λ x. x.candidate) (is_new ∙ sym is_new')
                | inr old' ↦
                    ap (λ x. x.candidate) is_new
                    ∙ sym (
                        new_election-single s i rf (calls_of sent) k' j e' v term asks old'
                          (sym same ∙ ap (λ x. x.term) is_new) given' (rw is_new at given))
              ]
              | inr old ↦ elim (get_elem?-append-cases s.elections new k' e' at') [
                | inl (last', is_new') ↦
                    new_election-single s i rf (calls_of sent) k j e v term asks old
                      (same ∙ ap (λ x. x.term) is_new') given (rw is_new' at given')
                    ∙ sym (ap (λ x. x.candidate) is_new')
                | inr old' ↦ v.single k k' e e' j old old' same given given'
              ]
            ];
        leads =
            update-leads s.peers i rf (s.elections ++ new ∷ [])
              (λ j led. Elected-append s.elections new j (s.peers j).current_term (v.leads j led))
              (λ led. absurd (ground (arith, led, follows)));
      })
