-- ===== src/Raft/Group/Messages.antt =====
-- An AppendEntries that is delivered, and a reply that is heard, keep the invariant of a Group.
use mit6_824_labs.Prelude.{
  ℕ, ◌+◌, ◌≤◌, ◌<◌, ◌≡◌, inl, inr, refl, sym, ap, ◌∙◌, [], ◌∷◌, ◌++◌, some, true, false, arith,
  length, get_elem?, subst, Bool-cases,
}
use mit6_824_labs.Raft.Types.{Raft, Event, PersistentStatus}
use mit6_824_labs.Raft.Leader.{is_leader, handle_append_entries_reply}
use mit6_824_labs.Raft.Vote.{is_candidate}
use mit6_824_labs.Raft.Append.{append_entries}
use mit6_824_labs.Raft.Append.Agreement.{success_effect}
use mit6_824_labs.Raft.Persist.{Codec}
use mit6_824_labs.Raft.Node.{Step as NodeStep}
use mit6_824_labs.Raft.Node.Valid.{Step-IsValid}
use mit6_824_labs.Raft.Cluster.Fair.{get_elem?-append-cases}
use mit6_824_labs.Raft.Cluster.Moves.{acts-IsSafe}
use mit6_824_labs.Raft.Group.{Answer, Group, move}
use mit6_824_labs.Raft.Group.Past.{Past, IsCommitted, leader_complete, term_of-some}
use mit6_824_labs.Raft.Group.Handlers.{
  append_entries-Rests, append_entries-takes, append_reply-effect, raise_and_commit,
}
use mit6_824_labs.Raft.Group.Holds.{Follows, Follows-refl, IsPart, HasAck, Extends, Extends-same}
use mit6_824_labs.Raft.Group.Extending.{HasAck-Extends}
use mit6_824_labs.Raft.Group.Takes.{Holds-taken}
use mit6_824_labs.Raft.Group.Acknowledge.{
  acknowledge, Extends-acknowledge, Stored-acknowledge, HasAck-acknowledge, IsPart-inside,
}
use mit6_824_labs.Raft.Group.Hears.{Holds-hears}
use mit6_824_labs.Raft.Group.Ledger.{IsSafe-InTime, Ledger-moves}
use mit6_824_labs.Raft.Group.Coherent.{IsCoherent, update-Holds, Rests-moves, update-IsValid}
use mit6_824_labs.Raft.Group.Elections.{Step-le}
use mit6_824_labs.Raft.Group.Invariant.{stays_coherent, rests_coherent}

module _ {C : Type 0} (gob : Codec (PersistentStatus C)) (n : ℕ) where
  -- A message that the follower refuses, and one that it takes.
  refused :
      (s : Group C) (past : Past C) (a : Answer C) (rf : Raft C)
      → append_entries gob (s.cluster.peers a.target) a.args ≡ some (rf, a.reply)
      → a.reply.success ≡ false
      → IsCoherent n s past
      → IsCoherent n
          (record { cluster = move gob n s a.target rf; answers = s.answers ++ a ∷ [] })
          past
  refused s past a rf h fails v =
      let j = a.target in
      let old = s.cluster.peers j in
      let step = NodeStep.appends a.args a.reply h in
      let (holds, ledger) =
        Rests-moves n s past j rf v (append_entries-Rests gob old a.args rf a.reply h fails)
          (Step-le gob n old rf step) in
      record {
        safe = acts-IsSafe gob n s.cluster j rf step tt v.safe;
        valid =
            update-IsValid n s.cluster.peers j rf v.valid
              (λ l. Step-IsValid gob old rf step (v.valid j l));
        stored = v.stored;
        ledger = ledger;
        holds = holds;
        acknowledged = λ k b at ok. elim (get_elem?-append-cases s.answers a k b at) [
          | inl (_, new) ↦ let ok' = rw new at ok in absurd (ground (arith, fails, ok'))
          | inr before ↦ v.acknowledged k b before ok
        ];
      }

  taken :
      (s : Group C) (past : Past C) (a : Answer C) (rf : Raft C)
      → append_entries gob (s.cluster.peers a.target) a.args ≡ some (rf, a.reply)
      → a.reply.success ≡ true
      → IsPart n past a.args
      → IsCoherent n s past
      → (past' : Past C) × Follows past past'
        × IsCoherent n
            (record { cluster = move gob n s a.target rf; answers = s.answers ++ a ∷ [] })
            past'
  taken s past a rf h ok part v =
      let j = a.target in
      let old = s.cluster.peers j in
      let t = a.args.term in
      let last = a.args.prev_log_index + length a.args.entries in
      let past' = acknowledge past j t last in
      let step = NodeStep.appends a.args a.reply h in
      let (term, _, _) = success_effect gob old a.args h ok in
      let (_, follows, _) = append_entries-takes gob old a.args rf a.reply h ok in
      let later = Step-le gob n old rf step in
      let ex = Extends-acknowledge n past j t last in
      let ex' : Extends n past past' j rf.current_term =
        subst (λ w. Extends n past past' j w) (sym term) ex in
      let (x, at_x, _) =
        term_of-some (past.heads t) a.args.prev_log_index a.args.prev_log_term part.term_before in
      let complete = λ (u : ℕ) (m : ℕ) (below : u ≤ t) (committed : IsCommitted n past u m).
        leader_complete n s.cluster.peers past v.stored.good v.ledger.chosen u t m
          a.args.prev_log_index x below committed at_x in
      let moved =
        Holds-taken gob n past j old a.args rf a.reply v.stored (v.holds j) part complete
          (omega (arith, later, term)) h ok in
      (
        past',
        (ex.grows, ex.kept),
        record {
          safe = acts-IsSafe gob n s.cluster j rf step tt v.safe;
          valid =
              update-IsValid n s.cluster.peers j rf v.valid
                (λ l. Step-IsValid gob old rf step (v.valid j l));
          stored = Stored-acknowledge n past j t last v.stored (IsPart-inside n past a.args part);
          ledger =
              Ledger-moves n past past' j rf ex' v.stored s.cluster.peers s.cluster.elections
                (IsSafe-InTime n s.cluster v.safe) v.ledger later (inl (ap is_candidate follows))
                (λ u gone. inl gone);
          holds =
              update-Holds n past past' s.cluster.peers j rf t v.stored ex v.holds moved
                (λ i other led. refl);
          acknowledged = λ k b at good. elim (get_elem?-append-cases s.answers a k b at) [
            | inl (_, new) ↦ rw new (HasAck-acknowledge n past j t last)
            | inr before ↦
                HasAck-Extends n past past' j t ex b.target b.args.term _
                  (v.acknowledged k b before good)
          ];
        },
      )

  pub delivers-IsCoherent :
      (s : Group C) (past : Past C) (i k : ℕ) (a : Answer C) (rf : Raft C)
      → get_elem? (s.cluster.peers i).events k ≡ some (Event.send_append_entries a.target a.args)
      → append_entries gob (s.cluster.peers a.target) a.args ≡ some (rf, a.reply)
      → IsCoherent n s past
      → (past' : Past C) × Follows past past'
        × IsCoherent n
            (record { cluster = move gob n s a.target rf; answers = s.answers ++ a ∷ [] })
            past'
  delivers-IsCoherent s past i k a rf at h v = elim (Bool-cases a.reply.success) [
    | inl ok ↦ taken s past a rf h ok ((v.holds i).sent k a.target a.args at) v
    | inr fails ↦ (past, Follows-refl past, refused s past a rf h fails v)
  ]

  pub hears-IsCoherent :
      (s : Group C) (past : Past C) (k : ℕ) (a : Answer C) (rf : Raft C)
      → get_elem? s.answers k ≡ some a
      → a.source < n
      → handle_append_entries_reply gob (s.cluster.peers a.source) a.target a.args a.reply ≡ some rf
      → IsCoherent n s past
      → IsCoherent n (record s { cluster = move gob n s a.source rf }) past
  hears-IsCoherent s past k a rf at below h v =
      let i = a.source in
      let old = s.cluster.peers i in
      let step = NodeStep.hears_append a.target a.args a.reply h in
      elim (append_reply-effect gob old a.target a.args a.reply rf h) [
        | inl rests ↦ rests_coherent gob n s past i rf step tt v rests
        | inr (leads, term, ok, (rf₁, raise, commit)) ↦
            let reached = a.args.prev_log_index + length a.args.entries in
            let ack : HasAck n past a.target old.current_term reached =
              subst (λ w. HasAck n past a.target w reached) (sym term) (v.acknowledged k a at ok) in
            let (_, _, _, _, _, _, state, _, _, _, _, _) =
              raise_and_commit old a.target reached rf₁ rf raise commit in
            let moved =
              Holds-hears n past i old a.target reached rf₁ rf (v.holds i) (v.safe.members i).0
                ((v.valid i below).match_sized ∙ (v.safe.members i).0) leads ack raise commit in
            let led : is_leader rf.state ≡ true = ap is_leader state ∙ leads in
            let ex = Extends-same n past i rf.current_term in
            stays_coherent gob n s past i rf step tt v (
              update-Holds n past past s.cluster.peers i rf rf.current_term v.stored ex v.holds
                  moved (λ j other led'. refl),
              Ledger-moves n past past i rf ex v.stored s.cluster.peers s.cluster.elections
                  (IsSafe-InTime n s.cluster v.safe) v.ledger (Step-le gob n old rf step)
                  (inl (ground (arith, led))) (λ u gone. inl gone),
            )
      ]
