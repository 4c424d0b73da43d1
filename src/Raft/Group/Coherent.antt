-- ===== src/Raft/Group/Coherent.antt =====
-- The invariant of a Group with its past, and how the move of one peer keeps it.
use mit6_824_labs.Prelude.{
  ℕ, suc, ◌+◌, ◌≤◌, ◌<◌, ◌≡◌, ◌≢◌, ◌⊎◌, inl, inr, refl, sym, ap, ◌∙◌, List, [], some, true, arith,
  length, get_elem?, Bool-cases, ◌==◌, ==_iff,
}
use mit6_824_labs.Raft.Types.{Raft}
use mit6_824_labs.Raft.Leader.{is_leader}
use mit6_824_labs.Raft.Node.Valid.{IsValid}
use mit6_824_labs.Raft.Cluster.{Cluster, Election, update}
use mit6_824_labs.Raft.Cluster.Fair.{IsSafe}
use mit6_824_labs.Raft.Cluster.Leaders.{Elected-one}
use mit6_824_labs.Raft.Group.{Answer, Group}
use mit6_824_labs.Raft.Group.Past.{Past, IsGood, IsChosen}
use mit6_824_labs.Raft.Group.Effects.{Steady, NoNew, Emits}
use mit6_824_labs.Raft.Group.Handlers.{Rests, Leads}
use mit6_824_labs.Raft.Group.Holds.{Follows, Holds, HasAck, Stored, Extends, Extends-same}
use mit6_824_labs.Raft.Group.Extending.{Holds-Extends, HasAck-Extends}
use mit6_824_labs.Raft.Group.Peers.{Holds-Steady}
use mit6_824_labs.Raft.Group.Leading.{
  lead, Keeps, Extends-lead, Stored-lead, Holds-leads, update-here, update-there,
}
use mit6_824_labs.Raft.Group.Ledger.{Standing, WasWon, Ledger, InTime, IsSafe-InTime, Ledger-moves}

module _ {C : Type 0} (n : ℕ) where
  abbrev pub Acknowledged : List (Answer C) → Past C → Type 0
  Acknowledged answers past =
      (k : ℕ) (a : Answer C)
      → get_elem? answers k ≡ some a
      → a.reply.success ≡ true
      → HasAck n past a.target a.args.term (a.args.prev_log_index + length a.args.entries)

  pub record IsCoherent (s : Group C) (past : Past C) : Type 0 where
    pub safe : IsSafe n s.cluster
    pub valid : (i : ℕ) → i < n → IsValid (s.cluster.peers i)
    pub stored : Stored n past
    pub ledger : Ledger n s.cluster.peers s.cluster.elections past
    pub holds : (i : ℕ) → Holds n past i (s.cluster.peers i)
    pub acknowledged : Acknowledged s.answers past

  pub update-Holds :
      (past past' : Past C) (peers : ℕ → Raft C) (i : ℕ) (rf : Raft C) (term : ℕ)
      → Stored n past
      → Extends n past past' i term
      → ((j : ℕ) → Holds n past j (peers j))
      → Holds n past' i rf
      → ((j : ℕ)
          → j ≢ i
          → is_leader (peers j).state ≡ true
          → past'.heads (peers j).current_term ≡ past.heads (peers j).current_term)
      → (j : ℕ) → Holds n past' j (update peers i rf j)
  update-Holds past past' peers i rf term stored ex holds moved others j =
      elim (Bool-cases (j == i)) [
        | inl here ↦ let same : i ≡ j = sym ((==_iff j i).0 here) in rw here (rw (← same) moved)
        | inr there ↦
            let other : j ≢ i = λ same. ground (arith, there, (==_iff j i).1 same) in
            rw there (
              Holds-Extends n past past' i term ex j (peers j) stored other (others j other)
                (holds j))
      ]

  pub update-IsValid :
      (peers : ℕ → Raft C) (i : ℕ) (rf : Raft C)
      → ((j : ℕ) → j < n → IsValid (peers j))
      → (i < n → IsValid rf)
      → (j : ℕ) → j < n
      → IsValid (update peers i rf j)
  update-IsValid peers i rf valid moved j below = elim (Bool-cases (j == i)) [
    | inl here ↦ let same = (==_iff j i).0 here in rw here (moved (omega (arith, same)))
    | inr there ↦ rw there (valid j below)
  ]

  -- A peer that leaves its log and its commit index, and leads at most as before.
  pub quiet_move :
      (s : Group C) (past : Past C) (i : ℕ) (rf : Raft C)
      → IsCoherent s past
      → Steady (s.cluster.peers i) rf
      → rf.match_index ≡ (s.cluster.peers i).match_index
      → Leads (s.cluster.peers i) rf
      → Standing (s.cluster.peers i) rf
      → (s.cluster.peers i).current_term ≤ rf.current_term
      → Emits (s.cluster.peers i) rf
      → let peers' = update s.cluster.peers i rf in
        ((j : ℕ) → Holds n past j (peers' j)) × Ledger n peers' s.cluster.elections past
  quiet_move s past i rf v steady matches leads standing later emits =
      let peers = s.cluster.peers in
      let ex = Extends-same n past i rf.current_term in
      (
        update-Holds past past peers i rf rf.current_term v.stored ex v.holds
            (Holds-Steady n past i (peers i) rf v.stored (v.holds i) steady later
              (λ led. ground (arith, leads, led, matches)) emits)
            (λ j other led. refl),
        Ledger-moves n past past i rf ex v.stored peers s.cluster.elections
            (IsSafe-InTime n s.cluster v.safe) v.ledger later standing (λ u gone. inl gone),
      )

  NoNew-Emits : (rf rf' : Raft C) → NoNew rf.events rf'.events → Emits rf rf'
  NoNew-Emits rf rf' no_new k j args at = inl (no_new k j args at)

  -- A step that rests.
  pub Rests-moves :
      (s : Group C) (past : Past C) (i : ℕ) (rf : Raft C)
      → IsCoherent s past
      → Rests (s.cluster.peers i) rf
      → (s.cluster.peers i).current_term ≤ rf.current_term
      → let peers' = update s.cluster.peers i rf in
        ((j : ℕ) → Holds n past j (peers' j)) × Ledger n peers' s.cluster.elections past
  Rests-moves s past i rf v rests later =
      let standing : Standing (s.cluster.peers i) rf = ground (arith, rests.stands, rests.steady) in
      quiet_move s past i rf v rests.steady rests.same_match rests.leads standing later
        (NoNew-Emits (s.cluster.peers i) rf rests.no_new)

  -- A leader of its term is the only one.
  pub alone :
      (s : Cluster C) (i j : ℕ)
      → IsSafe n s
      → is_leader (s.peers i).state ≡ true
      → is_leader (s.peers j).state ≡ true
      → (s.peers i).current_term ≡ (s.peers j).current_term
      → i ≡ j
  alone s i j v led led' same =
      Elected-one n s i j (s.peers j).current_term v (rw same at (v.leads i led)) (v.leads j led')

  others_keep :
      (past : Past C) (i : ℕ) (rf : Raft C) (peers : ℕ → Raft C) (elections : List Election)
      → IsSafe n (record { peers = update peers i rf; elections = elections })
      → is_leader rf.state ≡ true
      → (j : ℕ) → j ≢ i
      → is_leader (peers j).state ≡ true
      → update past.heads rf.current_term rf.logs (peers j).current_term
        ≡ past.heads (peers j).current_term
  others_keep past i rf peers elections v led j other led' =
      let s' : Cluster C = record { peers = update peers i rf; elections = elections } in
      let mine = update-here peers i rf in
      let its = update-there peers i j rf other in
      update-there past.heads rf.current_term (peers j).current_term rf.logs (λ same. other (
        sym (
          alone s' i j v (ap (λ r. is_leader r.state) mine ∙ led)
            (ap (λ r. is_leader r.state) its ∙ led')
            (ap (λ r. r.current_term) mine ∙ sym same ∙ ap (λ r. r.current_term) (sym its)))))

  -- A peer that leads with no less than before.
  pub lead_move :
      (s : Group C) (past : Past C) (i : ℕ) (rf : Raft C) (elections : List Election)
      → let peers = s.cluster.peers in
        let peers' = update peers i rf in
        let t = rf.current_term in
        let past' = lead past i t rf.logs in
        IsCoherent s past
        → IsSafe n (record { peers = peers'; elections = elections })
        → InTime n peers elections
        → Ledger n peers elections past
        → is_leader rf.state ≡ true
        → t ≡ (peers i).current_term
        → Keeps n (past.heads t) rf.logs
        → Keeps n (peers i).logs rf.logs
        → IsGood past'.heads t rf.logs
        → rf.commit_index ≡ (peers i).commit_index
        → rf.last_included_index ≡ (peers i).last_included_index
        → ((j m : ℕ) → get_elem? rf.match_index j ≡ some m → (m ≡ 0) ⊎ HasAck n past' j t m)
        → Emits (peers i) rf
        → ((u : ℕ)
            → past.heads (suc u) ≡ []
            → (past'.heads (suc u) ≡ [])
              ⊎ (WasWon n peers' elections (suc u) × IsChosen n peers' past' u))
        → ((j : ℕ) → j < n → IsValid (peers' j))
        → (past'' : Past C) × Follows past past''
          × IsCoherent
              (record s { cluster = record { peers = peers'; elections = elections } })
              past''
  lead_move s past i rf elections v safe in_time ledger led term heads keeps good commit plain
        matches emits fresh valid =
      let peers = s.cluster.peers in
      let t = rf.current_term in
      let past' = lead past i t rf.logs in
      let ex = Extends-lead n past i t rf.logs heads in
      let leader : is_leader rf.state ≡ true = led in
      let standing : Standing (peers i) rf = inl (ground (arith, leader)) in
      (
        past',
        (ex.grows, ex.kept),
        record {
          safe = safe;
          valid = valid;
          stored = Stored-lead n past i t rf.logs v.stored heads good;
          ledger =
              Ledger-moves n past past' i rf ex v.stored peers elections in_time ledger
                (omega (arith, term)) standing fresh;
          holds =
              update-Holds past past' peers i rf t v.stored ex v.holds
                (Holds-leads n past i (peers i) rf v.stored (v.holds i) heads keeps good commit
                  plain term matches emits)
                (others_keep past i rf peers elections safe led);
          acknowledged = λ k a at ok.
              HasAck-Extends n past past' i t ex a.target a.args.term _ (v.acknowledged k a at ok);
        },
      )
