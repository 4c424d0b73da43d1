-- ===== src/Raft/Group/Leading.antt =====
-- How a leader of a Group that grows its log, and a candidate that wins, keep what they have to do
-- with the past.
use mit6_824_labs.Prelude.{
  set, ℕ, ◌-◌, ◌<◌, ◌≡◌, ◌≢◌, ◌⊎◌, inl, inr, refl, sym, ap, ◌∙◌, List, [], ◌∷◌, ◌++◌, some, true,
  arith, length, get_elem?, get_elem?-some, lt_of_get_elem?, Bool-cases, ◌==◌, ==_iff,
}
use mit6_824_labs.Raft.Types.{Raft, LogEntry}
use mit6_824_labs.Raft.Cluster.{update}
use mit6_824_labs.Raft.Cluster.Fair.{
  get_elem?-set-cases, get_elem?-append-cases, get_elem?-append_left,
}
use mit6_824_labs.Raft.Group.Past.{Heads, Past, IsGood, Grows, CommittedTo}
use mit6_824_labs.Raft.Group.Effects.{Emits}
use mit6_824_labs.Raft.Group.Holds.{Holds, HasAck, Stored, Extends, IsGood-Grows}
use mit6_824_labs.Raft.Group.Extending.{HeldBy-grown, CommittedTo-grown, IsPart-Extends}
use mit6_824_labs.Raft.Group.Peers.{IsSuffix-IsPart}
use mit6_824_labs.Raft.Group.Acknowledge.{acknowledge, HasAck-acknowledge}

-- The leader's log as it is now, which the leader has.
abbrev pub lead : {C : Type 0} → Past C → ℕ → ℕ → List (LogEntry C) → Past C
lead past i term logs =
    acknowledge (record past { heads = update past.heads term logs }) i term (length logs - 1)

pub update-here : {A : Type 0} → (f : ℕ → A) (i : ℕ) (x : A) → update f i x i ≡ x
update-here f i x = let here : (i == i) ≡ true = (==_iff i i).1 refl in rw here refl

pub update-there : {A : Type 0} → (f : ℕ → A) (i j : ℕ) (x : A) → j ≢ i → update f i x j ≡ f j
update-there f i j x other = elim (Bool-cases (j == i)) [
  | inl here ↦ absurd (other ((==_iff j i).0 here))
  | inr there ↦ rw there refl
]

module _ {C : Type 0} (n : ℕ) where
  -- All of a log is in another.
  abbrev pub Keeps : List (LogEntry C) → List (LogEntry C) → Type 0
  Keeps L L' = (i : ℕ) (x : LogEntry C) → get_elem? L i ≡ some x → get_elem? L' i ≡ some x

  pub update-Grows :
      (heads : Heads C) (t : ℕ) (L : List (LogEntry C))
      → Keeps (heads t) L
      → Grows heads (update heads t L)
  update-Grows heads t L keeps s i x at = elim (Bool-cases (s == t)) [
    | inl here ↦ let same : s ≡ t = (==_iff s t).0 here in rw here (keeps i x (rw same at at))
    | inr there ↦ rw there at
  ]

  pub Extends-lead :
      (past : Past C) (i t : ℕ) (L : List (LogEntry C))
      → Keeps (past.heads t) L
      → Extends n past (lead past i t L) i t
  Extends-lead past i t L keeps = record {
    grows = update-Grows past.heads t L keeps;
    kept = λ k a at. get_elem?-append_left past.acks _ k a at;
    fresh = λ k a at. elim (get_elem?-append-cases past.acks _ k a at) [
      | inl (_, new) ↦ inr (ap (λ x. x.voter) new, ap (λ x. x.term) new)
      | inr old ↦ inl old
    ];
  }

  pub HasAck-lead :
      (past : Past C) (i t : ℕ) (L : List (LogEntry C))
      → HasAck n (lead past i t L) i t (length L - 1)
  HasAck-lead past i t L =
      HasAck-acknowledge n (record past { heads = update past.heads t L }) i t (length L - 1)

  -- The match indices when the leader's own is set to the end of its log.
  pub lead_matches :
      (past : Past C) (i t : ℕ) (L : List (LogEntry C)) (ms : List ℕ) (last : ℕ)
      → last ≡ length L - 1
      → ((j m : ℕ) → get_elem? ms j ≡ some m → (m ≡ 0) ⊎ HasAck n (lead past i t L) j t m)
      → (j m : ℕ) → get_elem? (set ms i last) j ≡ some m
      → (m ≡ 0) ⊎ HasAck n (lead past i t L) j t m
  lead_matches past i t L ms last ends known j m at = elim (get_elem?-set-cases ms i last j m at) [
    | inr (other, before) ↦ known j m before
    | inl (mine, value) ↦ rw (mine, value ∙ ends) (inr (HasAck-lead past i t L))
  ]

  length-Keeps : (L L' : List (LogEntry C)) (m : ℕ) → Keeps L L' → m < length L → m < length L'
  length-Keeps L L' m keeps l =
      let (x, at) = get_elem?-some L m l in lt_of_get_elem? L' m (keeps m x at)

  pub Stored-lead :
      (past : Past C) (i t : ℕ) (L : List (LogEntry C))
      → Stored n past
      → Keeps (past.heads t) L
      → IsGood (update past.heads t L) t L
      → Stored n (lead past i t L)
  Stored-lead past i t L v keeps good =
      let heads' = update past.heads t L in
      let grows = update-Grows past.heads t L keeps in
      record {
        good = λ s. elim (Bool-cases (s == t)) [
          | inl here ↦
              let same : s ≡ t = (==_iff s t).0 here in
              let log : heads' s ≡ L = ap heads' same ∙ update-here past.heads t L in
              inr (rw log (rw same good))
          | inr there ↦
              let log : heads' s ≡ past.heads s = rw there refl in
              elim (v.good s) [
                | inl gone ↦ inl (log ∙ gone)
                | inr old ↦
                    inr (rw log (IsGood-Grows n past.heads heads' s (past.heads s) grows old))
              ]
        ];
        reached = λ k a at. elim (get_elem?-append-cases past.acks _ k a at) [
          | inl (_, new) ↦
              let log : heads' t ≡ L = update-here past.heads t L in
              rw (new, log) (omega (arith, lt_of_get_elem? L 0 good.first))
          | inr old ↦
              length-Keeps (past.heads a.term) (heads' a.term) a.reached
                (λ j x at'. grows a.term j x at') (v.reached k a old)
        ];
      }

  -- A leader's log with one more entry of its term.
  pub IsGood-snoc :
      (heads : Heads C) (t : ℕ) (L : List (LogEntry C)) (e : LogEntry C)
      → IsGood heads t L
      → e.term ≡ t
      → Keeps (heads t) (L ++ e ∷ [])
      → IsGood (update heads t (L ++ e ∷ [])) t (L ++ e ∷ [])
  IsGood-snoc heads t L e v own keeps =
      let L' = L ++ e ∷ [] in
      let heads' = update heads t L' in
      let old = IsGood-Grows n heads heads' t L (update-Grows heads t L' keeps) v in
      let log : heads' t ≡ L' = update-here heads t L' in
      record {
        consistent = λ i x at. elim (get_elem?-append-cases L e i x at) [
          | inl (_, new) ↦
              let led : heads' x.term ≡ L' = ap heads' (ap (λ y. y.term) new ∙ own) ∙ log in
              λ j l. ap (λ M. get_elem? M j) (sym led)
          | inr before ↦ λ j l.
              let (y, at_y) = get_elem?-some L j (omega (arith, lt_of_get_elem? L i before)) in
              get_elem?-append_left L e j y at_y ∙ sym at_y ∙ old.consistent i x before j l
        ];
        bounded = λ i x at. elim (get_elem?-append-cases L e i x at) [
          | inl (_, new) ↦ rw new (omega (arith, own))
          | inr before ↦ v.bounded i x before
        ];
        first = get_elem?-append_left L e 0 _ v.first;
      }

  -- A peer that leads and has no less than before.
  pub Holds-leads :
      (past : Past C) (i : ℕ) (rf rf' : Raft C)
      → let t = rf'.current_term in
        let past' = lead past i t rf'.logs in
        Stored n past
        → Holds n past i rf
        → Keeps (past.heads t) rf'.logs
        → Keeps rf.logs rf'.logs
        → IsGood past'.heads t rf'.logs
        → rf'.commit_index ≡ rf.commit_index
        → rf'.last_included_index ≡ rf.last_included_index
        → t ≡ rf.current_term
        → ((j m : ℕ) → get_elem? rf'.match_index j ≡ some m → (m ≡ 0) ⊎ HasAck n past' j t m)
        → Emits rf rf'
        → Holds n past' i rf'
  Holds-leads past i rf rf' stored h heads keeps good commit plain term matches sent =
      let t = rf'.current_term in
      let past' = lead past i t rf'.logs in
      let ex = Extends-lead past i t rf'.logs heads in
      let log : past'.heads t ≡ rf'.logs = update-here past.heads t rf'.logs in
      let commits : CommittedTo n past' t rf'.commit_index rf'.logs = rw commit (
        CommittedTo-grown n past past' i t ex rf.current_term t rf.commit_index rf.logs rf'.logs
          (omega (arith, term)) keeps h.commits) in
      record {
        plain = plain ∙ h.plain;
        good = good;
        heads = λ leads. sym log;
        held = λ k a at mine. elim (get_elem?-append-cases past.acks _ k a at) [
          | inl (_, new) ↦ rw new (omega arith, λ m x l at_x of_term. inl (rw log (λ j le. refl)))
          | inr old ↦
              let (below, held) = h.held k a old mine in
              (
                omega (arith, term),
                HeldBy-grown n past past' i t ex rf.current_term t k rf.logs rf'.logs a stored old
                    (omega (arith, term)) keeps held,
              )
        ];
        matches = λ leads. matches;
        commits = commits;
        sent = λ k j args at. elim (sent k j args at) [
          | inl old ↦ IsPart-Extends n past past' i t ex args (h.sent k j args old)
          | inr (leads, suffix) ↦
              IsSuffix-IsPart n past' rf' args (plain ∙ h.plain) good (sym log) commits suffix
        ];
      }
