-- ===== src/Raft/Group/Invariant.antt =====
-- What a peer of a Group does by itself keeps the invariant.
use mit6_824_labs.Prelude.{
  set, ℕ, suc, ◌≡◌, ◌⊎◌, inl, inr, refl, sym, ap, ◌∙◌, [], ◌∷◌, ◌++◌, some, Bool, true, false,
  arith, get_elem?, subst, Bool-cases,
}
use mit6_824_labs.Prelude.Int.{ℤ}
use mit6_824_labs.Raft.Types.{Raft, LogEntry, Event, PersistentStatus}
use mit6_824_labs.Raft.Log.{last_log_index}
use mit6_824_labs.Raft.Leader.{is_leader, start}
use mit6_824_labs.Raft.Vote.{is_candidate}
use mit6_824_labs.Raft.Persist.{Codec}
use mit6_824_labs.Raft.Node.{Step as NodeStep}
use mit6_824_labs.Raft.Node.Leads.{TakesNoVote}
use mit6_824_labs.Raft.Node.Valid.{Step-IsValid}
use mit6_824_labs.Raft.Cluster.{update}
use mit6_824_labs.Raft.Cluster.Fair.{get_elem?-append_left}
use mit6_824_labs.Raft.Cluster.Moves.{acts-IsSafe}
use mit6_824_labs.Raft.Group.{Group, IsLocal, move}
use mit6_824_labs.Raft.Group.Past.{Past, IsGood}
use mit6_824_labs.Raft.Group.Effects.{NoNew-append}
use mit6_824_labs.Raft.Group.Handlers.{Rests, start-effect}
use mit6_824_labs.Raft.Group.Broadcasting.{Broadcasts}
use mit6_824_labs.Raft.Group.Holds.{Follows, Follows-refl, Holds, HasAck}
use mit6_824_labs.Raft.Group.Extending.{HasAck-Extends}
use mit6_824_labs.Raft.Group.Leading.{
  lead, Keeps, Extends-lead, lead_matches, IsGood-snoc, update-there,
}
use mit6_824_labs.Raft.Group.Ledger.{Standing, Ledger, IsSafe-InTime}
use mit6_824_labs.Raft.Group.Coherent.{
  IsCoherent, quiet_move, Rests-moves, lead_move, update-IsValid,
}
use mit6_824_labs.Raft.Group.Elections.{Step-le}

module _ {C : Type 0} (gob : Codec (PersistentStatus C)) (n : ℕ) where
  pub local_quiet :
      {rf rf' : Raft C} (h : NodeStep gob rf rf') → IsLocal gob n h → TakesNoVote gob h
  local_quiet (NodeStep.votes args reply h) l = absurd l
  local_quiet (NodeStep.appends args reply h) l = absurd l
  local_quiet (NodeStep.installs args reply h) l = absurd l
  local_quiet (NodeStep.snapshots index bytes h) l = absurd l
  local_quiet (NodeStep.starts command answer h) l = tt
  local_quiet (NodeStep.ticks count h) l = absurd l
  local_quiet (NodeStep.beats h) l = tt
  local_quiet (NodeStep.adds_log h) l = tt
  local_quiet (NodeStep.counts_vote count count' args reply h) l = absurd l
  local_quiet (NodeStep.hears_append peer args reply h) l = absurd l
  local_quiet (NodeStep.hears_install peer args reply h) l = absurd l
  local_quiet (NodeStep.begins_apply msg h) l = tt
  local_quiet (NodeStep.ends_apply msg h) l = tt
  local_quiet (NodeStep.dies h) l = tt

  -- A step of one peer, with what it makes of the invariant's parts.
  pub stays_coherent :
      (s : Group C) (past : Past C) (i : ℕ) (rf : Raft C) (h : NodeStep gob (s.cluster.peers i) rf)
      → TakesNoVote gob h
      → IsCoherent n s past
      → let peers' = update s.cluster.peers i rf in
        ((j : ℕ) → Holds n past j (peers' j)) × Ledger n peers' s.cluster.elections past
        → IsCoherent n (record s { cluster = move gob n s i rf }) past
  stays_coherent s past i rf h quiet v (holds, ledger) = record {
    safe = acts-IsSafe gob n s.cluster i rf h quiet v.safe;
    valid =
        update-IsValid n s.cluster.peers i rf v.valid
          (λ l. Step-IsValid gob (s.cluster.peers i) rf h (v.valid i l));
    stored = v.stored;
    ledger = ledger;
    holds = holds;
    acknowledged = v.acknowledged;
  }

  pub rests_coherent :
      (s : Group C) (past : Past C) (i : ℕ) (rf : Raft C) (h : NodeStep gob (s.cluster.peers i) rf)
      → TakesNoVote gob h
      → IsCoherent n s past
      → Rests (s.cluster.peers i) rf
      → IsCoherent n (record s { cluster = move gob n s i rf }) past
  rests_coherent s past i rf h quiet v rests =
      stays_coherent s past i rf h quiet v
        (Rests-moves n s past i rf v rests (Step-le gob n (s.cluster.peers i) rf h))

  pub broadcasts_coherent :
      (s : Group C) (past : Past C) (i : ℕ) (rf : Raft C) (h : NodeStep gob (s.cluster.peers i) rf)
      → TakesNoVote gob h
      → IsCoherent n s past
      → Broadcasts gob (s.cluster.peers i) rf
      → IsCoherent n (record s { cluster = move gob n s i rf }) past
  broadcasts_coherent s past i rf h quiet v (steady, matches, state, term, emits) =
      let old = s.cluster.peers i in
      let leads : (is_leader rf.state ≡ false)
          ⊎ ((is_leader old.state ≡ true) × (rf.current_term ≡ old.current_term)) =
        elim (Bool-cases (is_leader old.state)) [
          | inl led ↦ inr (led, term)
          | inr follows ↦ inl (ap is_leader state ∙ follows)
        ] in
      let standing : Standing old rf = elim (Bool-cases (is_candidate old.state)) [
        | inl stands ↦ inr (inr (stands, term, steady.0))
        | inr rests ↦ inl (ap is_candidate state ∙ rests)
      ] in
      stays_coherent s past i rf h quiet v
        (quiet_move n s past i rf v steady matches leads standing (omega (arith, term)) emits)

  -- A command that the service starts at a leader.
  pub starts_coherent :
      (s : Group C) (past : Past C) (i : ℕ) (rf : Raft C) (command : C) (answer : ℤ × ℤ × Bool)
      → start gob (s.cluster.peers i) command ≡ some (rf, answer)
      → IsCoherent n s past
      → (past' : Past C) × Follows past past'
        × IsCoherent n (record s { cluster = move gob n s i rf }) past'
  starts_coherent s past i rf command answer h v =
      let old = s.cluster.peers i in
      let step = NodeStep.starts command answer h in
      elim (start-effect gob old command rf answer h) [
        | inl same ↦ (
          past,
          Follows-refl past,
          broadcasts_coherent s past i rf step tt v
              (rw same ((refl, refl, refl), refl, refl, refl, λ k j args at. inl at)),
        )
        | inr (leads, state, term, logs, commit, plain, matches, events) ↦
            let t = rf.current_term in
            let e : LogEntry C = record { term = old.current_term; cmd = some command } in
            let holds = v.holds i in
            let past' = lead past i t rf.logs in
            let head : past.heads t ≡ old.logs = ap past.heads term ∙ sym (holds.heads leads) in
            let keeps : Keeps n old.logs rf.logs =
              λ j x at. ap (λ M. get_elem? M j) logs ∙ get_elem?-append_left old.logs e j x at in
            let heads : Keeps n (past.heads t) rf.logs =
              λ j x at. keeps j x (ap (λ M. get_elem? M j) (sym head) ∙ at) in
            let ex = Extends-lead n past i t rf.logs heads in
            let grown : Keeps n (past.heads t) (old.logs ++ e ∷ []) =
              subst (λ M. Keeps n (past.heads t) M) logs heads in
            let good : IsGood past'.heads t rf.logs =
              subst (λ M. IsGood (update past.heads t M) t M) (sym logs)
                (IsGood-snoc n past.heads t old.logs e
                  (subst (λ w. IsGood past.heads w old.logs) (sym term) holds.good) (sym term)
                  grown) in
            let led : is_leader rf.state ≡ true = ap is_leader state ∙ leads in
            let safe = acts-IsSafe gob n s.cluster i rf step tt v.safe in
            let (member, me) = v.safe.members i in
            let matches' =
              lead_matches n past i t rf.logs old.match_index (last_log_index rf)
                (omega (arith, plain, holds.plain))
                (λ j m before. elim (holds.matches leads j m before) [
                  | inl none_yet ↦ inl none_yet
                  | inr ack ↦ inr (
                      HasAck-Extends n past past' i t ex j t m
                        (subst (λ w. HasAck n past j w m) (sym term) ack))
                ]) in
            let own : rf.match_index ≡ set old.match_index i (last_log_index rf) =
              matches ∙ ap (λ x. set old.match_index x (last_log_index rf)) me in
            lead_move n s past i rf s.cluster.elections v safe (IsSafe-InTime n s.cluster v.safe)
              v.ledger led term heads keeps good commit plain
              (λ j m at_m. matches' j m (ap (λ M. get_elem? M j) (sym own) ∙ at_m))
              (λ k j args at. inl (
                NoNew-append old.events (Event.wake_add_log ∷ []) refl k j args
                  (ap (λ es. get_elem? es k) (sym events) ∙ at)))
              (λ u gone. inl (
                update-there past.heads t (suc u) rf.logs (λ same.
                  let empty : past.heads t ≡ [] = ap past.heads (sym same) ∙ gone in
                  absurd (ground (arith, head, empty, holds.good.first)))
                ∙ gone))
              (update-IsValid n s.cluster.peers i rf v.valid
                (λ l. Step-IsValid gob old rf step (v.valid i l)))
      ]
