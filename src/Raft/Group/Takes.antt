-- ===== src/Raft/Group/Takes.antt =====
-- How a follower of a Group that takes a message keeps what it has to do with the past.
use mit6_824_labs.Raft.Group.Acknowledge.{acknowledge, Extends-acknowledge}
use mit6_824_labs.Prelude.{
  ℕ, ◌+◌, ◌-◌, ◌≤◌, ◌<◌, ◌≡◌, ◌⊎◌, inl, inr, refl, sym, ap, ◌∙◌, List, some, some_inj, true, arith,
  length, get_elem?, get_elem?-some, dec_lt, lt_of_get_elem?, ◌>>=◌, ltb, Bool-cases,
}
use mit6_824_labs.Raft.Types.{
  Raft, LogEntry, AppendEntriesArgs, AppendEntriesReply, PersistentStatus,
}
use mit6_824_labs.Raft.Persist.{Codec}
use mit6_824_labs.Raft.Append.{append_entries}
use mit6_824_labs.Raft.Append.Agreement.{
  term_of, success_guard, success_effect, append_entries-merge,
}
use mit6_824_labs.Raft.Cluster.Fair.{get_elem?-append-cases}
use mit6_824_labs.Raft.Group.Positions.{Same, Grown, Cut, appended}
use mit6_824_labs.Raft.Group.Past.{
  Ack, Heads, Past, Consistent-Same, Consistent-Fits, IsGood, IsGood-at, IsCommitted, CommittedTo,
  term_of-some,
}
use mit6_824_labs.Raft.Group.Handlers.{append_entries-takes}
use mit6_824_labs.Raft.Group.Holds.{IsPart, Holds, HeldBy, Stored}
use mit6_824_labs.Raft.Group.Extending.{IsPart-Extends, CommittedTo-Extends}
use mit6_824_labs.Raft.Group.Peers.{entry_at-plain}

module _ {C : Type 0} (n : ℕ) where
  -- Logs against the log of a term's leader that they take up to `last`.
  IsGood-taken :
      (heads : Heads C) (u t last : ℕ) (L L' : List (LogEntry C))
      → u ≤ t
      → IsGood heads u L
      → IsGood heads t (heads t)
      → Same last L' (heads t)
      → Grown L L' last ⊎ Cut L L' (heads t) last
      → IsGood heads t L'
  IsGood-taken heads u t last L L' later v w same change =
      let beyond : (i : ℕ) (x : LogEntry C)
          → last < i
          → get_elem? L' i ≡ some x
          → (get_elem? L i ≡ some x) × ((j : ℕ) → j ≤ i → get_elem? L' j ≡ get_elem? L j) =
        λ i x l at. elim change [
          | inl (keeps, rest) ↦
              let old = sym (rest i l) ∙ at in
              (
                old,
                λ j m.
                    let (y, at_y) = get_elem?-some L j (omega (arith, lt_of_get_elem? L i old)) in
                    keeps j y at_y ∙ sym at_y,
              )
          | inr (k, a, b, inside, p, q, differ, before, behind) ↦
              absurd (ground (arith, at, behind i l))
        ] in
      record {
        consistent = λ i x at. elim (dec_lt last i) [
          | yes far ↦
              let (old, agree) = beyond i x far at in λ j l. agree j l ∙ v.consistent i x old j l
          | no near ↦
              let head = sym (same i (omega arith)) ∙ at in
              λ j l. same j (omega arith) ∙ w.consistent i x head j l
        ];
        bounded = λ i x at. elim (dec_lt last i) [
          | yes far ↦ let (old, agree) = beyond i x far at in omega (arith, v.bounded i x old)
          | no near ↦ w.bounded i x (sym (same i (omega arith)) ∙ at)
        ];
        first = same 0 (omega arith) ∙ w.first;
      }

  HeldBy-taken :
      (past : Past C) (u t last : ℕ) (L L' : List (LogEntry C)) (a : Ack)
      → u ≤ t
      → a.term ≤ u
      → Grown L L' last ⊎ Cut L L' (past.heads t) last
      → HeldBy n past u L a
      → HeldBy n past t L' a
  HeldBy-taken past u t last L L' a later below change held m x l at of_term =
      elim (held m x l at of_term) [
        | inr (v, k, y, z, above, upto, inside, at_y, at_z, differ) ↦
            inr (v, k, y, z, above, omega arith, inside, at_y, at_z, differ)
        | inl same ↦
            let here : (j : ℕ) → j ≤ m → (y : LogEntry C) × (get_elem? L j ≡ some y) = λ j le.
              get_elem?-some L j (omega (arith, lt_of_get_elem? L m (same m (omega arith) ∙ at))) in
            elim change [
              | inl (keeps, rest) ↦
                  inl (λ j le. let (y, at_y) = here j le in keeps j y at_y ∙ sym at_y ∙ same j le)
              | inr (k, y, z, inside, at_y, at_z, differ, before, behind) ↦ elim (dec_lt m k) [
                | yes outside ↦ inl (λ j le. before j (omega arith) ∙ same j le)
                | no cut ↦
                    let at_y' : get_elem? (past.heads a.term) k ≡ some y =
                      sym (same k (omega arith)) ∙ at_y in
                    elim (dec_lt a.term t) [
                      | yes earlier ↦ inr (
                        t,
                        k,
                        z,
                        y,
                        earlier,
                        omega arith,
                        omega arith,
                        at_z,
                        at_y',
                        λ e. differ (sym e),
                      )
                      | no now ↦
                          let one : a.term ≡ t = omega arith in
                          let at_z' : get_elem? (past.heads a.term) k ≡ some z = rw one at_z in
                          absurd (differ (ap (λ e. e.term) (some_inj (sym at_y' ∙ at_z'))))
                    ]
              ]
            ]
      ]

  -- What was committed of the log stays in it.
  CommittedTo-taken :
      (past : Past C) (u t last c : ℕ) (L L' : List (LogEntry C))
      → u ≤ t
      → ((t₁ m : ℕ) → t₁ ≤ t → IsCommitted n past t₁ m → Same m (past.heads t) (past.heads t₁))
      → Grown L L' last ⊎ Cut L L' (past.heads t) last
      → CommittedTo n past u c L
      → CommittedTo n past t c L'
  CommittedTo-taken past u t last c L L' later complete change (inl none_yet) = inl none_yet
  CommittedTo-taken past u t last c L L' later complete change
        (inr (t₁, m, below, upto, committed, same)) =
      let (x, at_x, x_term) = term_of-some (past.heads t₁) m t₁ committed.0 in
      let here : (j : ℕ) → j ≤ c → (y : LogEntry C) × (get_elem? L j ≡ some y) = λ j le.
        let (y, at_y) =
          get_elem?-some (past.heads t₁) j
            (omega (arith, lt_of_get_elem? (past.heads t₁) m at_x)) in
        (y, same j le ∙ at_y) in
      inr (
        t₁,
        m,
        omega arith,
        upto,
        committed,
        λ j le. elim change [
          | inl (keeps, rest) ↦ let (y, at_y) = here j le in keeps j y at_y ∙ sym at_y ∙ same j le
          | inr (k, y, z, inside, at_y, at_z, differ, before, behind) ↦ elim (dec_lt c k) [
            | yes outside ↦ before j (omega arith) ∙ same j le
            | no cut ↦
                let all = complete t₁ m (omega arith) committed in
                absurd (
                  differ (
                    ap (λ e. e.term)
                      (some_inj
                        (sym at_y ∙ same k (omega arith) ∙ sym (all k (omega arith)) ∙ at_z))))
          ]
        ],
      )

module _ {C : Type 0} (gob : Codec (PersistentStatus C)) (n : ℕ) where
  -- A message that succeeds: the log agrees with the leader's as far as the message goes.
  message_taken :
      (past : Past C) (j : ℕ) (rf : Raft C) (args : AppendEntriesArgs C) (rf' : Raft C)
      (reply : AppendEntriesReply)
      → Stored n past
      → Holds n past j rf
      → IsPart n past args
      → append_entries gob rf args ≡ some (rf', reply)
      → reply.success ≡ true
      → let last = args.prev_log_index + length args.entries in
        let M = past.heads args.term in
        IsGood past.heads args.term M
        × Same last rf'.logs M
        × (Grown rf.logs rf'.logs last ⊎ Cut rf.logs rf'.logs M last)
  message_taken past j rf args rf' reply stored holds part h ok =
      let prev = args.prev_log_index in
      let M = past.heads args.term in
      let (_, inside, known, _) = success_guard gob rf args h ok in
      let merged = append_entries-merge gob rf args h ok in
      let whole : prev + 1 - rf.last_included_index ≡ prev + 1 = omega (arith, holds.plain) in
      let known' : term_of rf.logs prev ≡ some args.prev_log_term =
        sym (ap (λ e. e >>= (λ x. some x.term)) (entry_at-plain n rf prev holds.plain)) ∙ known in
      let (x, at_x, x_term) = term_of-some rf.logs prev args.prev_log_term known' in
      let (y, at_y, y_term) = term_of-some M prev args.prev_log_term part.term_before in
      let good = IsGood-at past.heads args.term prev y (stored.good args.term) at_y in
      let (same, change) =
        appended rf.logs M args.entries prev (rw whole at inside)
          (Consistent-Same past.heads rf.logs M prev x y holds.good.consistent good.consistent at_x
            at_y (x_term ∙ sym y_term))
          (Consistent-Fits past.heads rf.logs M holds.good.consistent good.consistent)
          part.same_entries in
      let merged' = rw whole at merged in (good, rw merged' same, rw merged' change)

  pub Holds-taken :
      (past : Past C) (j : ℕ) (rf : Raft C) (args : AppendEntriesArgs C) (rf' : Raft C)
      (reply : AppendEntriesReply)
      → Stored n past
      → Holds n past j rf
      → IsPart n past args
      → ((t m : ℕ)
          → t ≤ args.term
          → IsCommitted n past t m
          → Same m (past.heads args.term) (past.heads t))
      → rf.current_term ≤ args.term
      → append_entries gob rf args ≡ some (rf', reply)
      → reply.success ≡ true
      → Holds n (acknowledge past j args.term (args.prev_log_index + length args.entries)) j rf'
  Holds-taken past j rf args rf' reply stored holds part complete later h ok =
      let t = args.term in
      let last = args.prev_log_index + length args.entries in
      let past' = acknowledge past j t last in
      let M = past.heads t in
      let ex = Extends-acknowledge n past j t last in
      let (good, same, change) = message_taken past j rf args rf' reply stored holds part h ok in
      let (_, _, _, plain) = success_guard gob rf args h ok in
      let (term, _, commit) = success_effect gob rf args h ok in
      let (_, follows, no_new) = append_entries-takes gob rf args rf' reply h ok in
      let old_commit : CommittedTo n past t rf.commit_index rf'.logs =
        CommittedTo-taken n past rf.current_term t last rf.commit_index rf.logs rf'.logs later
          complete change holds.commits in
      let commits : CommittedTo n past t rf'.commit_index rf'.logs =
        elim (Bool-cases (ltb rf.commit_index args.leader_commit)) [
          | inr stays ↦
              let kept : rf'.commit_index ≡ rf.commit_index = commit ∙ (rw stays refl) in
              rw kept old_commit
          | inl rises ↦
              let upto : rf'.commit_index ≤ args.leader_commit = ground (arith, commit, rises) in
              elim part.committed [
                | inl none_yet ↦ absurd (ground (arith, rises, none_yet))
                | inr (t₁, m, below, inside, committed, agree) ↦ inr (
                  t₁,
                  m,
                  below,
                  omega arith,
                  committed,
                  λ i l. same i (omega (arith, part.reaches_commit)) ∙ agree i (omega arith),
                )
              ]
        ] in
      record {
        plain = plain ∙ holds.plain;
        good = rw term (
            IsGood-taken n past.heads rf.current_term t last rf.logs rf'.logs later holds.good good
              same change);
        heads = λ leads. absurd (ground (arith, follows, leads));
        held = λ k a at mine. elim (get_elem?-append-cases past.acks _ k a at) [
          | inl (_, new) ↦
              rw (new, term) (omega arith, λ m x l at_x of_term. inl (λ i le. same i (omega arith)))
          | inr old ↦
              let (below, held) = holds.held k a old mine in
              rw term (
                omega arith,
                HeldBy-taken n past rf.current_term t last rf.logs rf'.logs a later below change
                    held,
              )
        ];
        matches = λ leads. absurd (ground (arith, follows, leads));
        commits = rw term (
            CommittedTo-Extends n past past' j t ex t t rf'.commit_index rf'.logs (omega arith)
              commits);
        sent = λ k i args' at.
            IsPart-Extends n past past' j t ex args' (holds.sent k i args' (no_new k i args' at));
      }
