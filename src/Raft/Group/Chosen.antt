-- ===== src/Raft/Group/Chosen.antt =====
-- Why a vote of a Group that is granted, and a candidate that wins, carry on what was acknowledged.
use mit6_824_labs.Prelude.{
  ℕ, suc, ◌-◌, ◌/◌, ◌≤◌, ◌<◌, ◌≡◌, ◌⊎◌, inl, inr, refl, sym, ◌∙◌, List, [], some, some_inj, true,
  arith, length, get_elem?, dec_lt, Bool-cases, ◌==◌, ==_iff,
}
use mit6_824_labs.Raft.Types.{Raft, LogEntry, RequestVoteArgs, RequestVoteReply, PersistentStatus}
use mit6_824_labs.Raft.Log.{is_log_up_to_date}
use mit6_824_labs.Raft.Vote.{is_candidate, request_vote, decide_vote, may_vote, adopt_term}
use mit6_824_labs.Raft.Persist.{Codec, persist}
use mit6_824_labs.Raft.Cluster.{Call, Election}
use mit6_824_labs.Raft.Cluster.Fair.{IsFair, has_counted, has_counted-has_voted, granted, counted}
use mit6_824_labs.Raft.Group.Past.{
  Ack, Heads, Past, Parts, Upto, IsChosen, term_of-some, term_of-entry,
}
use mit6_824_labs.Raft.Group.Holds.{Holds, Stored, Parts-Grows, grown_back}
use mit6_824_labs.Raft.Group.Leading.{lead, Extends-lead, Keeps, update-here}
use mit6_824_labs.Raft.Group.Ledger.{request_of, Supports, Ledger}
use mit6_824_labs.Raft.Group.Voting.{last_entry, held_end}

module _ {C : Type 0} (gob : Codec (PersistentStatus C)) (n : ℕ) where
  granted_up_to_date :
      (rf : Raft C) (args : RequestVoteArgs) (rf' : Raft C) (reply : RequestVoteReply)
      → request_vote gob rf args ≡ some (rf', reply)
      → reply.vote_granted ≡ true
      → (rf.current_term ≤ args.term)
        × (is_log_up_to_date rf args.last_log_term args.last_log_index ≡ some true)
  unfolding request_vote decide_vote may_vote adopt_term persist
  granted_up_to_date rf args rf' reply h given = ground arith

  -- A vote that is granted.
  pub Supports-vote :
      (past : Past C) (j : ℕ) (rf : Raft C) (args : RequestVoteArgs) (rf' : Raft C)
      (reply : RequestVoteReply)
      → Stored n past
      → Holds n past j rf
      → request_vote gob rf args ≡ some (rf', reply)
      → reply.vote_granted ≡ true
      → Supports n past args.term j args
  Supports-vote past j rf args rf' reply stored h e given k m a x at voter earlier l at_x of_term =
      let (later, up_to_date) = granted_up_to_date rf args rf' reply e given in
      let (y, at_y, y_term, y_index) = last_entry n past j rf h in
      let longer : (y.term < args.last_log_term)
          ⊎ ((y.term ≡ args.last_log_term) × (length rf.logs - 1 ≤ args.last_log_index)) =
        ground (arith, up_to_date, y_term, y_index, ==_iff args.last_log_term y.term) in
      elim (held_end n past j rf k m a x y stored h at voter l at_x of_term at_y) [
        | inl upto ↦ inl (ground (arith, upto, longer))
        | inr parts ↦ inr (
            Parts-Grows n past.heads past.heads a.term rf.current_term args.term m
              (λ t i z at_z. at_z) later parts)
      ]

  -- A vote that is counted has been asked for.
  counted-asked :
      (call : Call)
      → counted call ≡ true
      → (args : RequestVoteArgs) × (request_of call ≡ some args) × (granted call ≡ true)
  counted-asked Call.idle h = absurd (ground (arith, h))
  counted-asked (Call.asked args) h = absurd (ground (arith, h))
  counted-asked (Call.replied args reply) h = absurd (ground (arith, h))
  counted-asked (Call.handled args reply) h = (args, refl, h)

  Parts-before :
      (heads : Heads C) (t u m : ℕ)
      → heads (suc u) ≡ []
      → Parts heads t (suc u) m
      → Parts heads t u m
  Parts-before heads t u m gone (v, k, a, b, above, upto, inside, at, at', differ) =
      elim (dec_lt u v) [
        | yes last ↦
            let same : v ≡ suc u = omega arith in
            let at_v = rw same at at in absurd (ground (arith, at_v, gone))
        | no before ↦ (v, k, a, b, above, omega arith, inside, at, at', differ)
      ]

  -- What a voter that was counted had acknowledged, against the end of the candidate's log.
  counted_behind :
      (past : Past C) (peers : ℕ → Raft C) (elections : List Election) (k u : ℕ) (e : Election)
      (y : LogEntry C)
      → let c = e.candidate in
        let L = (peers c).logs in
        let last = length L - 1 in
        Stored n past
        → Ledger n peers elections past
        → Holds n past c (peers c)
        → get_elem? elections k ≡ some e
        → e.term ≡ suc u
        → is_candidate (peers c).state ≡ true
        → (peers c).current_term ≡ suc u
        → get_elem? L last ≡ some y
        → (k₁ m : ℕ) (a : Ack) (x : LogEntry C) → get_elem? past.acks k₁ ≡ some a
        → has_counted e a.voter ≡ true
        → a.term ≤ u
        → m ≤ a.reached
        → get_elem? (past.heads a.term) m ≡ some x
        → x.term ≡ a.term
        → Upto a.term m y.term last ⊎ Parts past.heads a.term (suc u) m
  counted_behind past peers elections k u e y stored v h at term stands now at_y k₁ m a x at_a given
        upto l at_x of_term =
      let c = e.candidate in
      let L = (peers c).logs in
      elim (Bool-cases (a.voter == c)) [
        | inl own ↦
            let self = (==_iff a.voter c).0 own in
            (rw now at
              (held_end n past c (peers c) k₁ m a x y stored h at_a self l at_x of_term at_y))
        | inr other ↦
            let (args, request, gave) = counted-asked (e.calls a.voter) (rw other at given) in
            let (index, ends) = v.asked k a.voter e args at request stands (now ∙ sym term) in
            let index' = rw index at ends in
            let same : args.last_log_term ≡ y.term =
              some_inj (sym index' ∙ term_of-entry L (length L - 1) y at_y) in
            let supports =
              v.voted k a.voter e args at request gave k₁ m a x at_a refl (omega (arith, term)) l
                at_x of_term in
            (rw term at (rw index at (rw same at supports)))
      ]

  -- A candidate with more than half of the votes.
  pub win-IsChosen :
      (past : Past C) (peers peers' : ℕ → Raft C) (elections : List Election) (k u : ℕ)
      (e : Election)
      → let c = e.candidate in
        let L = (peers c).logs in
        Stored n past
        → Ledger n peers elections past
        → Holds n past c (peers c)
        → get_elem? elections k ≡ some e
        → IsFair n peers' e
        → n / 2 < e.count
        → e.term ≡ suc u
        → is_candidate (peers c).state ≡ true
        → (peers c).current_term ≡ suc u
        → past.heads (suc u) ≡ []
        → IsChosen n peers' (lead past c (suc u) L) u
  win-IsChosen past peers peers' elections k u e stored v h at fair most term stands now gone =
      let c = e.candidate in
      let L = (peers c).logs in
      let t = suc u in
      let past' = lead past c t L in
      let empty : Keeps n (past.heads t) L = λ i x at_x. absurd (ground (arith, gone, at_x)) in
      let ex = Extends-lead n past c t L empty in
      let (y, at_y, y_term, y_index) = last_entry n past c (peers c) h in
      let last = length L - 1 in
      let led : past'.heads t ≡ L = update-here past.heads t L in
      let shared = sym (h.good.consistent last y at_y last (omega arith)) ∙ at_y in
      let earlier : y.term ≤ u = elim (dec_lt u y.term) [
        | no fine ↦ omega arith
        | yes beyond ↦
            let one : y.term ≡ suc u = omega (arith, h.good.bounded last y at_y, now) in
            let shared' = rw one at shared in absurd (ground (arith, shared', gone))
      ] in
      let behind = counted_behind past peers elections k u e y stored v h at term stands now at_y in
      (
        has_counted e,
        last,
        y.term,
        omega (arith, fair.tallied),
        (rw led (term_of-entry L last y at_y)),
        earlier,
        λ j given. ground (arith, fair.bound j (has_counted-has_voted e j given), term),
        λ k₁ m a at_a given upto l of_term. elim (ex.fresh k₁ a at_a) [
          | inr (_, new) ↦ absurd (omega (arith, new, upto))
          | inl old ↦
              let (x, at_x, x_term) = term_of-some (past'.heads a.term) m a.term of_term in
              let old_x =
                grown_back n past.heads past'.heads a.term m x ex.grows
                  (omega (arith, stored.reached k₁ a old)) at_x in
              elim (behind k₁ m a x old given upto l old_x x_term) [
                | inl good ↦ inl good
                | inr parts ↦ inr (
                    Parts-Grows n past.heads past'.heads a.term u u m ex.grows (omega arith)
                      (Parts-before past.heads a.term u m gone parts))
              ]
        ],
      )
