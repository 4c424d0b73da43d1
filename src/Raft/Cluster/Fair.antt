-- ===== src/Raft/Cluster/Fair.antt =====
-- What makes elections fair: a peer whose vote has been given to one is bound to it, and no count is
-- higher than the votes it has taken.
use mit6_824_labs.Prelude.{
  ℕ, zero, suc, ◌/◌, ◌<◌, ◌≤◌, ◌≡◌, ◌≢◌, ◌⊎◌, refl, sym, ap, List, [], ◌∷◌, ◌++◌, some, Bool, true,
  false, arith, Bool-cases, inl, inr, ◌==◌, ==_iff, if◌then◌else◌, get_elem?, set, length,
}
use mit6_824_labs.Prelude.Int.{pos}
use mit6_824_labs.Raft.Types.{Raft}
use mit6_824_labs.Raft.Leader.{is_leader}
use mit6_824_labs.Raft.Node.Votes.{Later}
use mit6_824_labs.Raft.Cluster.{Call, Election, Cluster, update}
use mit6_824_labs.Raft.Cluster.Tally.{tally}

-- The vote has been given.
abbrev pub granted : Call → Bool
granted Call.idle = false
granted (Call.asked args) = false
granted (Call.replied args reply) = reply.vote_granted
granted (Call.handled args reply) = reply.vote_granted

-- And has been counted.
abbrev pub counted : Call → Bool
counted Call.idle = false
counted (Call.asked args) = false
counted (Call.replied args reply) = false
counted (Call.handled args reply) = reply.vote_granted

abbrev pub has_voted : Election → ℕ → Bool
has_voted e j = if j == e.candidate then true else granted (e.calls j)

abbrev pub has_counted : Election → ℕ → Bool
has_counted e j = if j == e.candidate then true else counted (e.calls j)

-- What is under way is of the election.
abbrev pub Belongs : Election → Call → Type 0
Belongs e Call.idle = Unit
Belongs e (Call.asked args) = (args.term ≡ e.term) × (args.candidate_id ≡ e.candidate)
Belongs e (Call.replied args reply) = args.term ≡ e.term
Belongs e (Call.handled args reply) = Unit

-- A later term, or the candidate's vote in this one.
abbrev pub Bound : {C : Type 0} → Raft C → ℕ → ℕ → Type 0
Bound rf term candidate =
    (term < rf.current_term) ⊎ ((rf.current_term ≡ term) × (rf.voted_for ≡ pos candidate))

pub record IsFair {C : Type 0} (n : ℕ) (peers : ℕ → Raft C) (e : Election) : Type 0 where
  pub member : e.candidate < n
  pub tallied : e.count ≤ tally n (has_counted e)
  pub own : e.calls e.candidate ≡ Call.idle
  pub belongs : (j : ℕ) → Belongs e (e.calls j)
  pub bound : (j : ℕ) → has_voted e j ≡ true → Bound (peers j) e.term e.candidate

-- An election of the peer in the term that has more than half of the votes.
abbrev pub Elected : ℕ → List Election → ℕ → ℕ → Type 0
Elected n elections i term =
    (k : ℕ) × (e : Election) × (get_elem? elections k ≡ some e)
    × (e.candidate ≡ i)
    × (e.term ≡ term)
    × (n / 2 < e.count)

pub record IsSafe {C : Type 0} (n : ℕ) (s : Cluster C) : Type 0 where
  pub members : (i : ℕ) → ((s.peers i).peers ≡ n) × ((s.peers i).me ≡ i)
  pub fair : (k : ℕ) (e : Election) → get_elem? s.elections k ≡ some e → IsFair n s.peers e
  pub single :
      (k k' : ℕ) (e e' : Election) (j : ℕ)
      → get_elem? s.elections k ≡ some e
      → get_elem? s.elections k' ≡ some e'
      → e.term ≡ e'.term
      → has_voted e j ≡ true
      → has_voted e' j ≡ true
      → e.candidate ≡ e'.candidate
  pub leads :
      (i : ℕ)
      → is_leader (s.peers i).state ≡ true
      → Elected n s.elections i (s.peers i).current_term

pub Bound-Later :
    {C : Type 0} (rf rf' : Raft C) (term candidate : ℕ)
    → Bound rf term candidate
    → Later rf rf'
    → Bound rf' term candidate
Bound-Later rf rf' term candidate b l = ground (arith, b, l)

pub has_counted-has_voted : (e : Election) (j : ℕ) → has_counted e j ≡ true → has_voted e j ≡ true
has_counted-has_voted e j h = elim (Bool-cases (j == e.candidate)) [
  | inl own ↦ rw own refl
  | inr other ↦ rw other (given (e.calls j) (rw other at h))
]
  where
    given : (call : Call) → counted call ≡ true → granted call ≡ true
    given Call.idle h = h
    given (Call.asked args) h = h
    given (Call.replied args reply) h = absurd (ground arith)
    given (Call.handled args reply) h = h

module _ {A : Type 0} where
  -- What stands in a list behind a write, and behind one more.
  pub get_elem?-set-cases :
      (l : List A) (k : ℕ) (x : A) (i : ℕ) (y : A)
      → get_elem? (set l k x) i ≡ some y
      → ((i ≡ k) × (y ≡ x)) ⊎ ((i ≢ k) × (get_elem? l i ≡ some y))
  get_elem?-set-cases [] k x i y h = absurd (ground arith)
  get_elem?-set-cases (a ∷ l) zero x zero y h = inl (refl, ground arith)
  get_elem?-set-cases (a ∷ l) zero x (suc i) y h = inr ((λ e. absurd (omega (arith, e))), h)
  get_elem?-set-cases (a ∷ l) (suc k) x zero y h = inr ((λ e. absurd (omega (arith, e))), h)
  get_elem?-set-cases (a ∷ l) (suc k) x (suc i) y h = elim (get_elem?-set-cases l k x i y h) [
    | inl (same, e) ↦ inl (ap suc same, e)
    | inr (differ, e) ↦ inr ((λ s. differ (omega (arith, s))), e)
  ]

  pub get_elem?-append-cases :
      (l : List A) (x : A) (i : ℕ) (y : A)
      → get_elem? (l ++ x ∷ []) i ≡ some y
      → ((i ≡ length l) × (y ≡ x)) ⊎ (get_elem? l i ≡ some y)
  get_elem?-append-cases [] x zero y h = inl (refl, ground arith)
  get_elem?-append-cases [] x (suc i) y h = absurd (ground arith)
  get_elem?-append-cases (a ∷ l) x zero y h = inr h
  get_elem?-append-cases (a ∷ l) x (suc i) y h = elim (get_elem?-append-cases l x i y h) [
    | inl (same, e) ↦ inl (ap suc same, e)
    | inr e ↦ inr e
  ]

  pub get_elem?-append_left :
      (l : List A) (x : A) (i : ℕ) (y : A)
      → get_elem? l i ≡ some y
      → get_elem? (l ++ x ∷ []) i ≡ some y
  get_elem?-append_left [] x i y h = absurd (ground arith)
  get_elem?-append_left (a ∷ l) x zero y h = h
  get_elem?-append_left (a ∷ l) x (suc i) y h = get_elem?-append_left l x i y h

module _ {C : Type 0} (n : ℕ) where
  -- A peer that moves on keeps elections fair.
  pub update-IsFair :
      (peers : ℕ → Raft C) (i : ℕ) (rf : Raft C) (e : Election)
      → Later (peers i) rf
      → IsFair n peers e
      → IsFair n (update peers i rf) e
  update-IsFair peers i rf e later v = record {
    member = v.member;
    tallied = v.tallied;
    own = v.own;
    belongs = v.belongs;
    bound = λ j given. elim (Bool-cases (j == i)) [
      | inl here ↦
          let same : i ≡ j = sym ((==_iff j i).0 here) in
          rw here (Bound-Later (peers i) rf e.term e.candidate (rw same (v.bound j given)) later)
      | inr there ↦ rw there (v.bound j given)
    ];
  }
