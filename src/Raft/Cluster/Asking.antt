-- ===== src/Raft/Cluster/Asking.antt =====
-- The requests that an election sends.
use mit6_824_labs.Prelude.{
  ℕ, zero, suc, ◌+◌, ◌≡◌, refl, sym, List, [], ◌∷◌, ◌++◌, some, arith, Bool-cases, Option-cases,
  inl, inr, ◌==◌,
}
use mit6_824_labs.Prelude.Int.{pos}
use mit6_824_labs.Raft.Types.{Raft, Role, PersistentStatus, Event, RequestVoteArgs}
use mit6_824_labs.Raft.Persist.{Codec, persist}
use mit6_824_labs.Raft.Persist.Frame.{persist_frame}
use mit6_824_labs.Raft.Log.{last_log_term, last_log_index}
use mit6_824_labs.Raft.Vote.{vote_requests, start_election, tick}
use mit6_824_labs.Raft.Cluster.{Call, calls_of}

-- No request, or one of the term and the candidate.
abbrev pub Asks : ℕ → ℕ → Call → Type 0
Asks term candidate Call.idle = Unit
Asks term candidate (Call.asked args) = (args.term ≡ term) × (args.candidate_id ≡ candidate)
Asks term candidate (Call.replied args reply) = ⊥
Asks term candidate (Call.handled args reply) = ⊥

module _ {C : Type 0} where
  vote_requests-Asks :
      (rf : Raft C) (i n : ℕ) (ms : List (Event C))
      → vote_requests rf i n ≡ some ms
      → (calls_of ms rf.me ≡ Call.idle) × ((j : ℕ) → Asks rf.current_term rf.me (calls_of ms j))
  unfolding vote_requests
  vote_requests-Asks rf i zero ms h =
      let none_sent : ms ≡ [] = ground (arith, h) in rw none_sent (refl, λ j. tt)
  vote_requests-Asks rf i (suc n) ms h = elim (Bool-cases (i == rf.me)) [
    | inl mine ↦ vote_requests-Asks rf (suc i) n ms (ground (arith, h, mine))
    | inr other ↦ elim (Option-cases (last_log_term rf)) [
      | inl e ↦ absurd (ground (arith, h, other, e))
      | inr (term, e) ↦ elim (Option-cases (vote_requests rf (suc i) n)) [
        | inl e' ↦ absurd (ground (arith, h, other, e, e'))
        | inr (rest, e') ↦
            let args : RequestVoteArgs = record {
              term = rf.current_term;
              candidate_id = rf.me;
              last_log_index = last_log_index rf;
              last_log_term = term;
            } in
            let sent : ms ≡ Event.send_request_vote i args ∷ rest =
              ground (arith, h, other, e, e') in
            let (own, asks) = vote_requests-Asks rf (suc i) n rest e' in
            rw sent (
              ground (arith, other, own),
              λ j. elim (Bool-cases (j == i)) [
                | inl here ↦ rw here (refl, refl)
                | inr there ↦ rw there (asks j)
              ],
            )
      ]
    ]
  ]

  pub append_cancel : (xs ys zs : List (Event C)) → xs ++ ys ≡ xs ++ zs → ys ≡ zs
  append_cancel [] ys zs e = e
  append_cancel (x ∷ xs) ys zs e = append_cancel xs ys zs (ground (arith, e))

module _ {C : Type 0} (gob : Codec (PersistentStatus C)) where
  -- A time-out sends requests of its term and its candidate, and none to itself.
  pub tick-Asks :
      (rf : Raft C) {rf' : Raft C} {count : ℕ} (sent : List (Event C))
      → tick gob rf ≡ some (rf', count)
      → rf'.events ≡ rf.events ++ sent
      → (calls_of sent rf.me ≡ Call.idle)
        × ((j : ℕ) → Asks rf'.current_term rf.me (calls_of sent j))
  unfolding tick start_election
  tick-Asks rf {rf'} sent h events =
      let rf₀ = record rf {
        state = Role.candidate;
        voted_for = pos rf.me;
        current_term = rf.current_term + 1;
      } in
      elim (Option-cases (persist gob rf₀)) [
        | inl e ↦ absurd (ground (arith, h, e))
        | inr (rf₁, e) ↦
            let kept = persist_frame gob rf₀ e in
            elim (Option-cases (vote_requests rf₁ 0 rf₁.peers)) [
              | inl e' ↦ absurd (ground (arith, h, e, e'))
              | inr (ms, e') ↦
                  let same : sent ≡ Event.reset_election_timer ∷ ms = sym (
                    append_cancel rf.events (Event.reset_election_timer ∷ ms) sent
                      (ground (arith, h, e, e', events, kept))) in
                  let term : rf'.current_term ≡ rf₁.current_term = ground (arith, h, e, e') in
                  let me : rf.me ≡ rf₁.me = ground (arith, kept) in
                  rw (same, term, me) (vote_requests-Asks rf₁ 0 rf₁.peers ms e')
            ]
      ]
