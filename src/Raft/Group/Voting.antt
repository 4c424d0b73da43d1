-- ===== src/Raft/Group/Voting.antt =====
-- Votes of a Group: what a granted vote says of the voter's acknowledgements, what a candidate's
-- requests say of its log, and why a candidate that wins has what was acknowledged before.
use mit6_824_labs.Prelude.{
  ℕ, zero, suc, ◌-◌, ◌≤◌, ◌≡◌, ◌⊎◌, inl, inr, refl, sym, ap, ◌∙◌, List, [], ◌∷◌, ◌++◌, some,
  some_inj, arith, length, get_elem?, get_elem?-some, dec_lt, lt_of_get_elem?, ltb, if◌then◌else◌,
  Bool-cases, ◌==◌, >>=-eq-some,
}
use mit6_824_labs.Raft.Types.{Raft, LogEntry, RequestVoteArgs, PersistentStatus, Event}
use mit6_824_labs.Raft.Log.{last_log_index, last_log_term}
use mit6_824_labs.Raft.Vote.{vote_requests, tick, start_election}
use mit6_824_labs.Raft.Persist.{Codec, persist}
use mit6_824_labs.Raft.Persist.Frame.{persist_frame}
use mit6_824_labs.Raft.Cluster.{calls_of}
use mit6_824_labs.Raft.Cluster.Asking.{append_cancel}
use mit6_824_labs.Raft.Group.Past.{Ack, Past, IsGood, IsGood-at, Parts, Upto, term_of-entry}
use mit6_824_labs.Raft.Group.Holds.{Holds, Stored}
use mit6_824_labs.Raft.Group.Ledger.{request_of, EndsWith}

module _ {C : Type 0} (n : ℕ) where
  -- The last entry of a peer's log.
  pub last_entry :
      (past : Past C) (i : ℕ) (rf : Raft C)
      → Holds n past i rf
      → (y : LogEntry C) × (get_elem? rf.logs (length rf.logs - 1) ≡ some y)
        × (last_log_term rf ≡ some y.term)
        × (last_log_index rf ≡ length rf.logs - 1)
  last_entry past i rf h =
      let some_entry = lt_of_get_elem? rf.logs 0 h.good.first in
      let (y, at) = get_elem?-some rf.logs (length rf.logs - 1) (omega arith) in
      let one : (if ltb (length rf.logs) 2 then 0 else length rf.logs - 1) ≡ length rf.logs - 1 =
        ground (arith, some_entry) in
      let term : last_log_term rf ≡ some y.term = rw one (rw at refl) in
      (y, at, term, omega (arith, h.plain))

  -- The terms of a log do not fall.
  terms_rise :
      (past : Past C) (t m l : ℕ) (L : List (LogEntry C)) (x y : LogEntry C)
      → Stored n past
      → IsGood past.heads t L
      → get_elem? L m ≡ some x
      → get_elem? L l ≡ some y
      → m ≤ l
      → x.term ≤ y.term
  terms_rise past t m l L x y stored good at_x at_y le =
      let same = good.consistent l y at_y in
      let at_y' = sym (same l (omega arith)) ∙ at_y in
      let led = IsGood-at past.heads y.term l y (stored.good y.term) at_y' in
      led.bounded m x (sym (same m le) ∙ at_x)

  -- What was acknowledged lies before the end of the log, or has been parted with.
  pub held_end :
      (past : Past C) (i : ℕ) (rf : Raft C) (k m : ℕ) (a : Ack) (x y : LogEntry C)
      → Stored n past
      → Holds n past i rf
      → get_elem? past.acks k ≡ some a
      → a.voter ≡ i
      → m ≤ a.reached
      → get_elem? (past.heads a.term) m ≡ some x
      → x.term ≡ a.term
      → get_elem? rf.logs (length rf.logs - 1) ≡ some y
      → Upto a.term m y.term (length rf.logs - 1) ⊎ Parts past.heads a.term rf.current_term m
  held_end past i rf k m a x y stored h at mine l at_x of_term at_y =
      let (below, held) = h.held k a at mine in
      elim (held m x l at_x of_term) [
        | inr parts ↦ inr parts
        | inl same ↦
            let here = same m (omega arith) ∙ at_x in
            let inside = lt_of_get_elem? rf.logs m here in
            let rises =
              terms_rise past rf.current_term m (length rf.logs - 1) rf.logs x y stored h.good here
                at_y (omega arith) in
            inl (elim (dec_lt a.term y.term) [
              | yes earlier ↦ inl earlier
              | no now ↦ inr (omega (arith, rises, of_term), omega arith)
            ])
      ]

  vote_requests-EndsWith :
      (rf : Raft C) (i r : ℕ) (ms : List (Event C)) (j : ℕ) (args : RequestVoteArgs)
      → vote_requests rf i r ≡ some ms
      → request_of (calls_of ms j) ≡ some args
      → (args.last_log_index ≡ last_log_index rf) × (last_log_term rf ≡ some args.last_log_term)
  unfolding vote_requests
  vote_requests-EndsWith rf i zero ms j args h request =
      let none_sent : ms ≡ [] = ground (arith, h) in
      let request' = rw none_sent at request in absurd (ground (arith, request'))
  vote_requests-EndsWith rf i (suc r) ms j args h request = elim (Bool-cases (i == rf.me)) [
    | inl mine ↦ vote_requests-EndsWith rf (suc i) r ms j args (rw mine at h) request
    | inr other ↦
        let (term, e, rest) = >>=-eq-some (last_log_term rf) _ (rw other at h) in
        let (ms', e', last) = >>=-eq-some (vote_requests rf (suc i) r) _ rest in
        let request' = rw (← (some_inj last)) at request in
        elim (Bool-cases (j == i)) [
          | inl here ↦
              let request'' = rw here at request' in
              let same = some_inj request'' in
              (ap (λ x. x.last_log_index) (sym same), e ∙ ap (λ x. some x.last_log_term) same)
          | inr there ↦ vote_requests-EndsWith rf (suc i) r ms' j args e' (rw there at request')
        ]
  ]

  -- A peer that is made a candidate asks with the end of its log.
  pub tick-EndsWith :
      (gob : Codec (PersistentStatus C)) (past : Past C) (i : ℕ) (rf rf' : Raft C) (count : ℕ)
      (sent : List (Event C)) (j : ℕ) (args : RequestVoteArgs)
      → Holds n past i rf
      → tick gob rf ≡ some (rf', count)
      → rf'.events ≡ rf.events ++ sent
      → request_of (calls_of sent j) ≡ some args
      → EndsWith n rf'.logs args
  unfolding tick start_election
  tick-EndsWith gob past i rf rf' count sent j args h e events request =
      let (rf₁, persisted, rest) = >>=-eq-some (persist gob _) _ e in
      let frame = persist_frame gob _ persisted in
      let (ms, asks, last) = >>=-eq-some (vote_requests rf₁ 0 rf₁.peers) _ rest in
      let same : sent ≡ Event.reset_election_timer ∷ ms = sym (
        append_cancel rf.events (Event.reset_election_timer ∷ ms) sent
          (ground (arith, last, events, frame))) in
      let request' = rw same at request in
      let (index, term) = vote_requests-EndsWith rf₁ 0 rf₁.peers ms j args asks request' in
      let (y, at, y_term, y_index) = last_entry past i rf h in
      let logs₁ : rf₁.logs ≡ rf.logs = ground (arith, frame) in
      let plain₁ : rf₁.last_included_index ≡ rf.last_included_index = ground (arith, frame) in
      let logs : rf'.logs ≡ rf.logs = ground (arith, last, frame) in
      let term' : some y.term ≡ some args.last_log_term = sym y_term ∙ (rw logs₁ at term) in
      let index' : args.last_log_index ≡ length rf.logs - 1 =
        ground (arith, index, logs₁, plain₁, y_index) in
      rw logs (index', (rw index' (term_of-entry rf.logs (length rf.logs - 1) y at ∙ term')))
