-- ===== src/Raft/Group/Past.antt =====
-- What has been: the log of each term's leader, as it grew to the end of its leadership, and which
-- peers have had which of it. All logs and messages are parts of these logs; a committed entry is in
-- those of all later terms.
use mit6_824_labs.Prelude.{
  ℕ, zero, suc, ◌/◌, ◌≤◌, ◌<◌, ◌≡◌, ◌≢◌, ◌⊎◌, inl, inr, refl, sym, ap, ◌∙◌, List, [], ◌∷◌, none,
  some, some_inj, Bool, true, arith, get_elem?, dec_lt,
}
use mit6_824_labs.Raft.Types.{Raft, LogEntry}
use mit6_824_labs.Raft.Append.Agreement.{term_of}
use mit6_824_labs.Raft.Cluster.Tally.{tally, majorities}
use mit6_824_labs.Raft.Group.Positions.{Same, Fits}

-- A peer has had the log of a term's leader up to a position.
pub record Ack : Type 0 where
  pub voter : ℕ
  pub term : ℕ
  pub reached : ℕ

abbrev pub Heads : Type 0 → Type 0
Heads C = ℕ → List (LogEntry C)

pub record Past (C : Type 0) : Type 0 where
  pub heads : Heads C
  pub acks : List Ack

abbrev pub first_entry : {C : Type 0} → LogEntry C
first_entry = record { term = 0; cmd = none }

-- A log that ends with a term at an index is up to date with entry `m` of term `t`.
abbrev pub Upto : ℕ → ℕ → ℕ → ℕ → Type 0
Upto t m term index = (t < term) ⊎ ((t ≡ term) × (m ≤ index))

module _ {C : Type 0} where
  -- Up to each entry a log is that of the leader of the entry's term.
  abbrev pub Consistent : Heads C → List (LogEntry C) → Type 0
  Consistent heads L = (i : ℕ) (x : LogEntry C) → get_elem? L i ≡ some x → Same i L (heads x.term)

  pub record IsGood (heads : Heads C) (term : ℕ) (L : List (LogEntry C)) : Type 0 where
    pub consistent : Consistent heads L
    pub bounded : (i : ℕ) (x : LogEntry C) → get_elem? L i ≡ some x → x.term ≤ term
    pub first : get_elem? L 0 ≡ some first_entry

  abbrev pub Grows : Heads C → Heads C → Type 0
  Grows heads heads' =
      (t i : ℕ) (x : LogEntry C) → get_elem? (heads t) i ≡ some x → get_elem? (heads' t) i ≡ some x

  -- Some later leader, of a term up to `u`, has another term at a position up to `m`.
  abbrev pub Parts : Heads C → ℕ → ℕ → ℕ → Type 0
  Parts heads t u m =
      (v k : ℕ) × (a b : LogEntry C) × (t < v)
      × (v ≤ u)
      × (k ≤ m)
      × (get_elem? (heads v) k ≡ some a)
      × (get_elem? (heads t) k ≡ some b)
      × (a.term ≢ b.term)

  -- Entry `m` is of the leader's own term, and more than half of the peers have had it from it.
  abbrev pub IsCommitted : ℕ → Past C → ℕ → ℕ → Type 0
  IsCommitted n past t m =
      (term_of (past.heads t) m ≡ some t)
      × ((q : ℕ → Bool) × (n / 2 < tally n q)
          × ((j : ℕ)
              → q j ≡ true
              → (k : ℕ) × (a : Ack) × (get_elem? past.acks k ≡ some a)
                × (a.voter ≡ j)
                × (a.term ≡ t)
                × (m ≤ a.reached)))

  -- A log agrees up to `c` with what a leader of a term up to `u` has committed.
  abbrev pub CommittedTo : ℕ → Past C → ℕ → ℕ → List (LogEntry C) → Type 0
  CommittedTo n past u c L =
      (c ≡ 0) ⊎ ((t m : ℕ) × (t ≤ u) × (c ≤ m) × IsCommitted n past t m × Same c L (past.heads t))

  -- The votes that made the leader of term `u + 1`: behind each, what its voter had acknowledged
  -- before is in the leader's log, or has been parted with before.
  abbrev pub IsChosen : ℕ → (ℕ → Raft C) → Past C → ℕ → Type 0
  IsChosen n peers past u =
      (q : ℕ → Bool) × (index term : ℕ) × (n / 2 < tally n q)
      × (term_of (past.heads (suc u)) index ≡ some term)
      × (term ≤ u)
      × ((j : ℕ) → q j ≡ true → u < (peers j).current_term)
      × ((k m : ℕ) (a : Ack)
          → get_elem? past.acks k ≡ some a
          → q a.voter ≡ true
          → a.term ≤ u
          → m ≤ a.reached
          → term_of (past.heads a.term) m ≡ some a.term
          → Upto a.term m term index ⊎ Parts past.heads a.term u m)

  pub term_of-some :
      (L : List (LogEntry C)) (i t : ℕ)
      → term_of L i ≡ some t
      → (x : LogEntry C) × (get_elem? L i ≡ some x) × (x.term ≡ t)
  term_of-some [] i t h = absurd (ground arith)
  term_of-some (x ∷ L) zero t h = (x, refl, some_inj h)
  term_of-some (x ∷ L) (suc i) t h = term_of-some L i t h

  pub term_of-entry :
      (L : List (LogEntry C)) (i : ℕ) (x : LogEntry C)
      → get_elem? L i ≡ some x
      → term_of L i ≡ some x.term
  term_of-entry L i x h = rw h refl

  -- A log with an entry is a leader's.
  pub IsGood-at :
      (heads : Heads C) (t i : ℕ) (x : LogEntry C)
      → (heads t ≡ []) ⊎ IsGood heads t (heads t)
      → get_elem? (heads t) i ≡ some x
      → IsGood heads t (heads t)
  IsGood-at heads t i x past h = elim past [
    | inl gone ↦ absurd (ground (arith, gone, h))
    | inr good ↦ good
  ]

  -- Logs of the same leaders have the same entries up to a position of the same term.
  pub Consistent-Same :
      (heads : Heads C) (L M : List (LogEntry C)) (i : ℕ) (x y : LogEntry C)
      → Consistent heads L
      → Consistent heads M
      → get_elem? L i ≡ some x
      → get_elem? M i ≡ some y
      → x.term ≡ y.term
      → Same i L M
  Consistent-Same heads L M i x y c d p q same j l = c i x p j l ∙ rw same (sym (d i y q j l))

  pub Consistent-Fits :
      (heads : Heads C) (L M : List (LogEntry C))
      → Consistent heads L
      → Consistent heads M
      → Fits L M
  Consistent-Fits heads L M c d i x y p q same =
      some_inj (sym p ∙ Consistent-Same heads L M i x y c d p q same i (omega arith) ∙ q)

  module _ (n : ℕ) (peers : ℕ → Raft C) (past : Past C)
      (good : (t : ℕ) → (past.heads t ≡ []) ⊎ IsGood past.heads t (past.heads t))
      (chosen : (u : ℕ) → (past.heads (suc u) ≡ []) ⊎ IsChosen n peers past u) where
    -- The leader of term `u + 1`, when those of the terms before have what was committed.
    complete_next :
        (t u m : ℕ)
        → t ≤ u
        → IsCommitted n past t m
        → ((v i : ℕ) (x : LogEntry C)
            → v ≤ u
            → t ≤ v
            → get_elem? (past.heads v) i ≡ some x
            → Same m (past.heads v) (past.heads t))
        → IsChosen n peers past u
        → Same m (past.heads (suc u)) (past.heads t)
    complete_next t u m later (at_m, (q, most, acked)) before
          (q', index, term, most', ends, old, _, voted) =
        let (j, below, yes_q, yes_q') = majorities n q q' most most' in
        let (k, a, at, voter, of_term, reached) = acked j yes_q in
        let (x, at_x, x_term) = term_of-some (past.heads (suc u)) index term ends in
        let good' = IsGood-at past.heads (suc u) index x (good (suc u)) at_x in
        let shared : Same index (past.heads (suc u)) (past.heads term) =
          rw (← x_term) (good'.consistent index x at_x) in
        let at_x' : get_elem? (past.heads term) index ≡ some x =
          sym (shared index (omega arith)) ∙ at_x in
        let seen : Upto t m term index ⊎ Parts past.heads t u m =
          rw (← of_term)
            (voted k m a at (rw voter yes_q') (omega (arith, of_term)) reached (rw of_term at_m)) in
        elim seen [
          | inr (v, i, y, z, above, upto, inside, at_y, at_z, differ) ↦ absurd (
              differ (
                ap (λ e. e.term)
                  (some_inj (sym at_y ∙ before v i y upto (omega arith) at_y i inside ∙ at_z))))
          | inl (inr (same, inside)) ↦ λ i l. (rw same (shared i (omega arith)))
          | inl (inl above) ↦
              let rest = before term index x old (omega arith) at_x' in
              elim (dec_lt index m) [
                | yes short ↦
                    let at_t : get_elem? (past.heads t) index ≡ some x =
                      sym (rest index (omega arith)) ∙ at_x' in
                    let good_t = IsGood-at past.heads t index x (good t) at_t in
                    absurd (omega (arith, good_t.bounded index x at_t, x_term))
                | no long ↦ λ i l. shared i (omega arith) ∙ rest i l
              ]
        ]

    complete_below :
        (b t t' m i : ℕ) (x : LogEntry C)
        → t' ≤ b
        → t ≤ t'
        → IsCommitted n past t m
        → get_elem? (past.heads t') i ≡ some x
        → Same m (past.heads t') (past.heads t)
    complete_below zero t t' m i x below later committed led =
        let same : t ≡ t' = omega arith in rw same (λ j l. refl)
    complete_below (suc b) t zero m i x below later committed led =
        let same : t ≡ 0 = omega arith in rw same (λ j l. refl)
    complete_below (suc b) t (suc u) m i x below later committed led = elim (dec_lt u t) [
      | yes last ↦ let same : t ≡ suc u = omega arith in rw same (λ j l. refl)
      | no earlier ↦ elim (chosen u) [
        | inl gone ↦ absurd (ground (arith, gone, led))
        | inr votes ↦
            complete_next t u m (omega arith) committed
              (λ v j y upto from at. complete_below b t v m j y (omega arith) from committed at)
              votes
      ]
    ]

    -- A leader's log has every entry that a leader of an earlier term, or of its own, has committed.
    pub leader_complete :
        (t t' m i : ℕ) (x : LogEntry C)
        → t ≤ t'
        → IsCommitted n past t m
        → get_elem? (past.heads t') i ≡ some x
        → Same m (past.heads t') (past.heads t)
    leader_complete t t' m i x later committed led =
        complete_below t' t t' m i x (omega arith) later committed led
