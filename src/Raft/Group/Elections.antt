-- ===== src/Raft/Group/Elections.antt =====
-- The elections of a Group keep its invariant.
use mit6_824_labs.Prelude.{
  ℕ, ◌≤◌, ◌<◌, ◌≡◌, inl, inr, refl, sym, List, [], ◌∷◌, ◌++◌, some, some_inj, arith, get_elem?, set,
  Bool-cases, ◌==◌, ==_iff,
}
use mit6_824_labs.Raft.Types.{Raft, Event, RequestVoteArgs, RequestVoteReply, PersistentStatus}
use mit6_824_labs.Raft.Vote.{request_vote, tick}
use mit6_824_labs.Raft.Persist.{Codec}
use mit6_824_labs.Raft.Node.{Step as NodeStep}
use mit6_824_labs.Raft.Node.Leads.{tick_begins}
use mit6_824_labs.Raft.Node.Votes.{Later, Step-Later}
use mit6_824_labs.Raft.Node.Valid.{Step-IsValid}
use mit6_824_labs.Raft.Cluster.{Call, Election, Step as ClusterStep, update, calls_of}
use mit6_824_labs.Raft.Cluster.Asking.{tick-Asks}
use mit6_824_labs.Raft.Cluster.Moves.{Asks-ungranted}
use mit6_824_labs.Raft.Cluster.Leaders.{Step-IsSafe}
use mit6_824_labs.Raft.Group.{Group}
use mit6_824_labs.Raft.Group.Past.{Past}
use mit6_824_labs.Raft.Group.Handlers.{request_vote-Rests, tick-effect}
use mit6_824_labs.Raft.Group.Leading.{update-here}
use mit6_824_labs.Raft.Group.Bookings.{Ledger-set, Ledger-append}
use mit6_824_labs.Raft.Group.Voting.{tick-EndsWith}
use mit6_824_labs.Raft.Group.Chosen.{Supports-vote}
use mit6_824_labs.Raft.Group.Coherent.{IsCoherent, quiet_move, Rests-moves, update-IsValid}

Later-le : {C : Type 0} → (rf rf' : Raft C) → Later rf rf' → rf.current_term ≤ rf'.current_term
Later-le rf rf' l = ground arith

module _ {C : Type 0} (gob : Codec (PersistentStatus C)) (n : ℕ) where
  pub Step-le : (rf rf' : Raft C) → NodeStep gob rf rf' → rf.current_term ≤ rf'.current_term
  Step-le rf rf' h = Later-le rf rf' (Step-Later gob h)

  -- A peer times out and asks for votes.
  pub times_out-IsCoherent :
      (s : Group C) (past : Past C) (i : ℕ) (rf : Raft C) (count : ℕ) (sent : List (Event C))
      → i < n
      → tick gob (s.cluster.peers i) ≡ some (rf, count)
      → rf.events ≡ (s.cluster.peers i).events ++ sent
      → IsCoherent n s past
      → IsCoherent n
          (record s {
            cluster = record {
              peers = update s.cluster.peers i rf;
              elections =
                  s.cluster.elections
                  ++ record {
                    candidate = i;
                    term = rf.current_term;
                    count = count;
                    calls = calls_of sent;
                  }
                    ∷ [];
            };
          })
          past
  times_out-IsCoherent s past i rf count sent below h events v =
      let old = s.cluster.peers i in
      let e : Election = record {
        candidate = i;
        term = rf.current_term;
        count = count;
        calls = calls_of sent;
      } in
      let (member, follows, term, voted, one) = tick_begins gob old h in
      let (steady, matches, no_new) = tick-effect gob old rf count h in
      let step = NodeStep.ticks count h in
      let more : old.current_term < rf.current_term = omega (arith, term) in
      let (holds, ledger) =
        quiet_move n s past i rf v steady matches (inl follows) (inr (inl more))
          (Step-le old rf step) (λ k j args at. inl (no_new k j args at)) in
      let asks = (tick-Asks gob old sent h events).1 in
      let here = update-here s.cluster.peers i rf in
      record {
        safe = Step-IsSafe gob n (ClusterStep.times_out i rf count sent below h events refl) v.safe;
        valid =
            update-IsValid n s.cluster.peers i rf v.valid
              (λ l. Step-IsValid gob old rf step (v.valid i l));
        stored = v.stored;
        ledger =
            Ledger-append n gob (update s.cluster.peers i rf) s.cluster.elections past ledger e
              (omega arith)
              (λ j args request.
                rw here (
                  tick-EndsWith n gob past i old rf count sent j args (v.holds i) h events request))
              (λ j. Asks-ungranted rf.current_term old.me (calls_of sent j) (asks j));
        holds = holds;
        acknowledged = v.acknowledged;
      }

  -- A request is delivered.
  pub votes-IsCoherent :
      (s : Group C) (past : Past C) (k j : ℕ) (e : Election) (args : RequestVoteArgs) (rf : Raft C)
      (reply : RequestVoteReply)
      → get_elem? s.cluster.elections k ≡ some e
      → j < n
      → e.calls j ≡ Call.asked args
      → request_vote gob (s.cluster.peers j) args ≡ some (rf, reply)
      → IsCoherent n s past
      → IsCoherent n
          (record s {
            cluster = record {
              peers = update s.cluster.peers j rf;
              elections =
                  set s.cluster.elections k
                    (record e { calls = update e.calls j (Call.replied args reply) });
            };
          })
          past
  votes-IsCoherent s past k j e args rf reply at below asked h v =
      let old = s.cluster.peers j in
      let e' : Election = record e { calls = update e.calls j (Call.replied args reply) } in
      let step = NodeStep.votes args reply h in
      let (holds, ledger) =
        Rests-moves n s past j rf v (request_vote-Rests gob old args rf reply h)
          (Step-le old rf step) in
      let belongs = (v.safe.fair k e at).belongs j in
      let of_e : args.term ≡ e.term = (rw asked at belongs).0 in
      record {
        safe =
            Step-IsSafe gob n (ClusterStep.votes k j e args rf reply at below asked h refl) v.safe;
        valid =
            update-IsValid n s.cluster.peers j rf v.valid
              (λ l. Step-IsValid gob old rf step (v.valid j l));
        stored = v.stored;
        ledger =
            Ledger-set n gob (update s.cluster.peers j rf) s.cluster.elections past ledger k e e' at
              refl refl (omega arith)
              (λ i. elim (Bool-cases (i == j)) [
                | inl here ↦
                    let same : i ≡ j = (==_iff i j).0 here in
                    let asked' : e.calls i ≡ Call.asked args = rw same asked in
                    rw (here, asked') refl
                | inr there ↦ rw there refl
              ])
              (λ i args' request given. elim (Bool-cases (i == j)) [
                | inl here ↦
                    let same : j ≡ i = sym ((==_iff i j).0 here) in
                    let request' = rw here at request in
                    let given' = rw here at given in
                    let one : args ≡ args' = some_inj request' in
                    rw (← one) (
                      rw (← same) (
                        rw (← of_e) (
                          Supports-vote gob n past j old args rf reply v.stored (v.holds j) h
                            given')))
                | inr there ↦
                    v.ledger.voted k i e args' at (rw there at request) (rw there at given)
              ]);
        holds = holds;
        acknowledged = v.acknowledged;
      }
