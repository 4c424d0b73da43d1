-- ===== src/Raft/Group/Ledger.antt =====
-- What the elections of a Group have to do with the past: behind each leader's log stand the votes
-- for it, and behind each vote what its voter had acknowledged.
use mit6_824_labs.Prelude.{
  ℕ, suc, ◌-◌, ◌≤◌, ◌<◌, ◌≡◌, ◌⊎◌, inl, inr, refl, sym, ap, ◌∙◌, List, [], Option, none, some, true,
  false, arith, length, get_elem?, set, Bool-cases, ◌==◌, ==_iff,
}
use mit6_824_labs.Raft.Types.{Raft, LogEntry, RequestVoteArgs}
use mit6_824_labs.Raft.Vote.{is_candidate}
use mit6_824_labs.Raft.Append.Agreement.{term_of}
use mit6_824_labs.Raft.Cluster.{Cluster, Call, Election, update}
use mit6_824_labs.Raft.Cluster.Fair.{
  IsSafe, IsFair, Elected, has_voted, granted, get_elem?-set-cases,
}
use mit6_824_labs.Raft.Group.Past.{Ack, Past, Parts, Upto, IsChosen, term_of-some, term_of-entry}
use mit6_824_labs.Raft.Group.Holds.{Stored, Extends, Parts-Grows, grown_back}

abbrev pub request_of : Call → Option RequestVoteArgs
request_of Call.idle = none
request_of (Call.asked args) = some args
request_of (Call.replied args reply) = some args
request_of (Call.handled args reply) = some args

-- No candidate, or one since a time-out, or one with the same log.
abbrev pub Standing : {C : Type 0} → Raft C → Raft C → Type 0
Standing rf rf' =
    (is_candidate rf'.state ≡ false)
    ⊎ (rf.current_term < rf'.current_term)
    ⊎ ((is_candidate rf.state ≡ true) × (rf'.current_term ≡ rf.current_term) × (rf'.logs ≡ rf.logs))

module _ {C : Type 0} (n : ℕ) where
  -- The request is about the end of a log.
  abbrev pub EndsWith : List (LogEntry C) → RequestVoteArgs → Type 0
  EndsWith logs args =
      (args.last_log_index ≡ length logs - 1)
      × (term_of logs args.last_log_index ≡ some args.last_log_term)

  -- What a voter had acknowledged in earlier terms is in the log that it votes for.
  abbrev pub Supports : Past C → ℕ → ℕ → RequestVoteArgs → Type 0
  Supports past term j args =
      (k m : ℕ) (a : Ack) (x : LogEntry C)
      → get_elem? past.acks k ≡ some a
      → a.voter ≡ j
      → a.term < term
      → m ≤ a.reached
      → get_elem? (past.heads a.term) m ≡ some x
      → x.term ≡ a.term
      → Upto a.term m args.last_log_term args.last_log_index ⊎ Parts past.heads a.term term m

  -- The leader of a term has won it, and is no candidate in it any more.
  abbrev pub WasWon : (ℕ → Raft C) → List Election → ℕ → Type 0
  WasWon peers elections t =
      (c : ℕ) × Elected n elections c t
      × ((t < (peers c).current_term)
          ⊎ (((peers c).current_term ≡ t) × (is_candidate (peers c).state ≡ false)))

  pub record Ledger (peers : ℕ → Raft C) (elections : List Election) (past : Past C) : Type 0 where
    pub begun : (k : ℕ) (e : Election) → get_elem? elections k ≡ some e → 0 < e.term
    pub won : (u : ℕ) → (past.heads (suc u) ≡ []) ⊎ WasWon peers elections (suc u)
    pub chosen : (u : ℕ) → (past.heads (suc u) ≡ []) ⊎ IsChosen n peers past u
    pub asked :
        (k j : ℕ) (e : Election) (args : RequestVoteArgs)
        → get_elem? elections k ≡ some e
        → request_of (e.calls j) ≡ some args
        → is_candidate (peers e.candidate).state ≡ true
        → (peers e.candidate).current_term ≡ e.term
        → EndsWith (peers e.candidate).logs args
    pub voted :
        (k j : ℕ) (e : Election) (args : RequestVoteArgs)
        → get_elem? elections k ≡ some e
        → request_of (e.calls j) ≡ some args
        → granted (e.calls j) ≡ true
        → Supports past e.term j args

  -- A voter's term is no earlier than the election's.
  voted_later :
      (peers : ℕ → Raft C) (e : Election) (j : ℕ)
      → IsFair n peers e
      → granted (e.calls j) ≡ true
      → e.term ≤ (peers j).current_term
  voted_later peers e j v given =
      let has : has_voted e j ≡ true = elim (Bool-cases (j == e.candidate)) [
        | inl own ↦ rw own refl
        | inr other ↦ rw other given
      ] in
      ground (arith, v.bound j has)

  candidate_later :
      (peers : ℕ → Raft C) (e : Election)
      → IsFair n peers e
      → e.term ≤ (peers e.candidate).current_term
  candidate_later peers e v =
      let own : (e.candidate == e.candidate) ≡ true = (==_iff e.candidate e.candidate).1 refl in
      let has : has_voted e e.candidate ≡ true = rw own refl in
      ground (arith, v.bound e.candidate has)

  -- No election is of a later term than its candidate and its voters.
  abbrev pub InTime : (ℕ → Raft C) → List Election → Type 0
  InTime peers elections =
      (k : ℕ) (e : Election)
      → get_elem? elections k ≡ some e
      → (e.term ≤ (peers e.candidate).current_term)
        × ((j : ℕ) → granted (e.calls j) ≡ true → e.term ≤ (peers j).current_term)

  pub IsSafe-InTime : (s : Cluster C) → IsSafe n s → InTime s.peers s.elections
  IsSafe-InTime s v k e at = (
    candidate_later s.peers e (v.fair k e at),
    λ j given. voted_later s.peers e j (v.fair k e at) given,
  )

  -- An election that is written back with the same votes.
  pub InTime-set :
      (peers : ℕ → Raft C) (elections : List Election) (k : ℕ) (e e' : Election)
      → get_elem? elections k ≡ some e
      → e'.candidate ≡ e.candidate
      → e'.term ≡ e.term
      → ((j : ℕ) → granted (e'.calls j) ≡ granted (e.calls j))
      → InTime peers elections
      → InTime peers (set elections k e')
  InTime-set peers elections k e e' at candidate term same v k₁ e₁ at₁ =
      elim (get_elem?-set-cases elections k e' k₁ e₁ at₁) [
        | inr (other, old) ↦ v k₁ e₁ old
        | inl (here, new) ↦
            let (first, votes) = v k e at in
            rw (new, candidate, term) (first, λ j given. votes j (sym (same j) ∙ given))
      ]

  -- What the peers' terms are behind a step.
  update_later :
      (peers : ℕ → Raft C) (i : ℕ) (rf : Raft C)
      → (peers i).current_term ≤ rf.current_term
      → (j : ℕ) → (peers j).current_term ≤ (update peers i rf j).current_term
  update_later peers i rf later j = elim (Bool-cases (j == i)) [
    | inl here ↦ let same : i ≡ j = sym ((==_iff j i).0 here) in rw here (rw (← same) later)
    | inr there ↦ rw there (omega arith)
  ]

  module _ (past past' : Past C) (i : ℕ) (rf : Raft C) (ex : Extends n past past' i rf.current_term)
      (stored : Stored n past) where
    Supports-old :
        (term j k m : ℕ) (a : Ack) (x : LogEntry C) (args : RequestVoteArgs)
        → Supports past term j args
        → get_elem? past.acks k ≡ some a
        → a.voter ≡ j
        → a.term < term
        → m ≤ a.reached
        → get_elem? (past'.heads a.term) m ≡ some x
        → x.term ≡ a.term
        → Upto a.term m args.last_log_term args.last_log_index ⊎ Parts past'.heads a.term term m
    Supports-old term j k m a x args v at voter earlier l at_x of_term =
        let old =
          grown_back n past.heads past'.heads a.term m x ex.grows
            (omega (arith, stored.reached k a at)) at_x in
        elim (v k m a x at voter earlier l old of_term) [
          | inl upto ↦ inl upto
          | inr parts ↦
              inr (
                Parts-Grows n past.heads past'.heads a.term term term m ex.grows (omega arith)
                  parts)
        ]

    IsChosen-moves :
        (peers : ℕ → Raft C) (u : ℕ)
        → (peers i).current_term ≤ rf.current_term
        → IsChosen n peers past u
        → IsChosen n (update peers i rf) past' u
    IsChosen-moves peers u later (q, index, term, most, ends, old, terms, voted) =
        let (x, at, x_term) = term_of-some (past.heads (suc u)) index term ends in
        (
          q,
          index,
          term,
          most,
          term_of-entry (past'.heads (suc u)) index x (ex.grows (suc u) index x at)
              ∙ ap some x_term,
          old,
          λ j given. omega (arith, terms j given, update_later peers i rf later j),
          λ k m a at_a given upto l of_term. elim (ex.fresh k a at_a) [
            | inr (voter, new) ↦
                let moved : u < (peers i).current_term = terms i (rw (← voter) given) in
                absurd (omega (arith, new, later))
            | inl before ↦
                let (y, at_y, y_term) = term_of-some (past'.heads a.term) m a.term of_term in
                let old_y =
                  grown_back n past.heads past'.heads a.term m y ex.grows
                    (omega (arith, stored.reached k a before)) at_y in
                elim (voted k m a before given upto l
                  (term_of-entry (past.heads a.term) m y old_y ∙ ap some y_term)) [
                    | inl good ↦ inl good
                    | inr parts ↦ inr (
                        Parts-Grows n past.heads past'.heads a.term u u m ex.grows (omega arith)
                          parts)
                  ]
          ],
        )

    -- A peer moves, and the past grows by what it leads or acknowledges.
    pub Ledger-moves :
        (peers : ℕ → Raft C) (elections : List Election)
        → InTime peers elections
        → Ledger peers elections past
        → (peers i).current_term ≤ rf.current_term
        → Standing (peers i) rf
        → let peers' = update peers i rf in
          ((u : ℕ)
            → past.heads (suc u) ≡ []
            → (past'.heads (suc u) ≡ [])
              ⊎ (WasWon peers' elections (suc u) × IsChosen n peers' past' u))
          → Ledger peers' elections past'
    Ledger-moves peers elections in_time v later standing fresh =
        let peers' = update peers i rf in
        record {
          begun = v.begun;
          won = λ u. elim (v.won u) [
            | inl gone ↦ elim (fresh u gone) [ inl still ↦ inl still | inr (won, chosen) ↦ inr won ]
            | inr (c, elected, how) ↦ inr (
              c,
              elected,
              elim (Bool-cases (c == i)) [
                | inl here ↦
                    let same : c ≡ i = (==_iff c i).0 here in
                    let how' = rw same at how in rw here (ground (arith, how', standing, later))
                | inr there ↦ rw there how
              ],
            )
          ];
          chosen = λ u. elim (v.chosen u) [
            | inl gone ↦ elim (fresh u gone) [
              | inl still ↦ inl still
              | inr (won, chosen) ↦ inr chosen
            ]
            | inr chosen ↦ inr (IsChosen-moves peers u later chosen)
          ];
          asked = λ k j e args at request stands term. elim (Bool-cases (e.candidate == i)) [
            | inr there ↦
                rw there (v.asked k j e args at request (rw there at stands) (rw there at term))
            | inl here ↦
                let same : i ≡ e.candidate = sym ((==_iff e.candidate i).0 here) in
                let stands' = rw here at stands in
                let term' = rw here at term in
                let standing' = rw same at standing in
                elim standing' [
                  | inl no_more ↦ absurd (ground (arith, no_more, stands'))
                  | inr (inl timed_out) ↦
                      absurd (omega (arith, (in_time k e at).0, timed_out, term'))
                  | inr (inr (stood, same_term, logs)) ↦
                      rw here
                        (rw logs (v.asked k j e args at request stood (sym same_term ∙ term')))
                ]
          ];
          voted = λ k j e args at request given. λ k₁ m a x at_a voter earlier l at_x of_term.
              elim (ex.fresh k₁ a at_a) [
                | inl old ↦
                    Supports-old e.term j k₁ m a x args (v.voted k j e args at request given) old
                      voter earlier l at_x of_term
                | inr (mine, now) ↦
                    let same : j ≡ i = sym voter ∙ mine in
                    absurd
                      (omega (arith, now, later, earlier, (in_time k e at).1 i (rw same at given)))
              ];
        }
