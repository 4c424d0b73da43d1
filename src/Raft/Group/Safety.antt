-- ===== src/Raft/Group/Safety.antt =====
-- What holds of several peers of src/raft that replicate a log: their logs match, and no two of them
-- commit different entries at an index.
use mit6_824_labs.Prelude.{
  ℕ, ◌≤◌, ◌≡◌, inl, inr, sym, ap, ◌∙◌, List, some, true, arith, get_elem?, dec_lt, get_elem?-some,
  lt_of_get_elem?,
}
use mit6_824_labs.Raft.Types.{Raft, LogEntry, PersistentStatus}
use mit6_824_labs.Raft.Log.{entry_at}
use mit6_824_labs.Raft.Leader.{is_leader}
use mit6_824_labs.Raft.Persist.{Codec}
use mit6_824_labs.Raft.Node.{Step as NodeStep}
use mit6_824_labs.Raft.Cluster.{Election, Step as ClusterStep}
use mit6_824_labs.Raft.Group.{Group, IsLocal, begin, move, Step, Steps}
use mit6_824_labs.Raft.Group.Past.{
  Past, first_entry, CommittedTo, Consistent-Same, leader_complete, term_of-some,
}
use mit6_824_labs.Raft.Group.Handlers.{begin_apply-Rests, end_apply-Rests, kill-Rests}
use mit6_824_labs.Raft.Group.Broadcasting.{heartbeat_event-Broadcasts, add_log_event-Broadcasts}
use mit6_824_labs.Raft.Group.Holds.{
  Follows, Follows-refl, Follows-trans, Stored, CommittedTo-Follows,
}
use mit6_824_labs.Raft.Group.Peers.{entry_at-plain}
use mit6_824_labs.Raft.Group.Ledger.{Ledger}
use mit6_824_labs.Raft.Group.Coherent.{IsCoherent}
use mit6_824_labs.Raft.Group.Begin.{begin_past, begin-IsCoherent}
use mit6_824_labs.Raft.Group.Elections.{times_out-IsCoherent, votes-IsCoherent}
use mit6_824_labs.Raft.Group.Counts.{counts-IsCoherent}
use mit6_824_labs.Raft.Group.Invariant.{rests_coherent, broadcasts_coherent, starts_coherent}
use mit6_824_labs.Raft.Group.Messages.{delivers-IsCoherent, hears-IsCoherent}

module _ {C : Type 0} (gob : Codec (PersistentStatus C)) (n : ℕ) where
  abbrev Next : Past C → Group C → Type 0
  Next past s' = (past' : Past C) × Follows past past' × IsCoherent n s' past'

  stay : (s' : Group C) (past : Past C) → IsCoherent n s' past → Next past s'
  stay s' past v = (past, Follows-refl past, v)

  acts-IsCoherent :
      (s : Group C) (past : Past C) (i : ℕ) (rf : Raft C) (h : NodeStep gob (s.cluster.peers i) rf)
      → IsLocal gob n h
      → IsCoherent n s past
      → Next past (record s { cluster = move gob n s i rf })
  acts-IsCoherent s past i rf (NodeStep.starts command answer h) l v =
      starts_coherent gob n s past i rf command answer h v
  acts-IsCoherent s past i rf (NodeStep.beats h) l v = stay _ past (
      broadcasts_coherent gob n s past i rf (NodeStep.beats h) tt v
        (heartbeat_event-Broadcasts gob (s.cluster.peers i) rf h))
  acts-IsCoherent s past i rf (NodeStep.adds_log h) l v = stay _ past (
      broadcasts_coherent gob n s past i rf (NodeStep.adds_log h) tt v
        (add_log_event-Broadcasts gob (s.cluster.peers i) rf h))
  acts-IsCoherent s past i rf (NodeStep.begins_apply msg h) l v = stay _ past (
      rests_coherent gob n s past i rf (NodeStep.begins_apply msg h) tt v
        (begin_apply-Rests gob (s.cluster.peers i) msg rf h))
  acts-IsCoherent s past i rf (NodeStep.ends_apply msg h) l v = stay _ past (
      rests_coherent gob n s past i rf (NodeStep.ends_apply msg h) tt v
        (rw (← h) (end_apply-Rests gob (s.cluster.peers i) msg)))
  acts-IsCoherent s past i rf (NodeStep.dies h) l v = stay _ past (
      rests_coherent gob n s past i rf (NodeStep.dies h) tt v
        (rw (← h) (kill-Rests gob (s.cluster.peers i))))
  acts-IsCoherent s past i rf (NodeStep.votes args reply h) l v = absurd l
  acts-IsCoherent s past i rf (NodeStep.appends args reply h) l v = absurd l
  acts-IsCoherent s past i rf (NodeStep.installs args reply h) l v = absurd l
  acts-IsCoherent s past i rf (NodeStep.snapshots index bytes h) l v = absurd l
  acts-IsCoherent s past i rf (NodeStep.ticks count h) l v = absurd l
  acts-IsCoherent s past i rf (NodeStep.counts_vote count count' args reply h) l v = absurd l
  acts-IsCoherent s past i rf (NodeStep.hears_append peer args reply h) l v = absurd l
  acts-IsCoherent s past i rf (NodeStep.hears_install peer args reply h) l v = absurd l

  Step-IsCoherent :
      (s s' : Group C) (past : Past C) → Step gob n s s' → IsCoherent n s past → Next past s'
  Step-IsCoherent s s' past (Step.acts i rf h below l e) v =
      rw e (acts-IsCoherent s past i rf h l v)
  Step-IsCoherent s s' past (Step.elects c (ClusterStep.acts i rf h below quiet e) l e') v =
      absurd l
  Step-IsCoherent s s' past
        (Step.elects c (ClusterStep.times_out i rf count sent below h events e) l e') v =
      rw (e', e) (stay _ past (times_out-IsCoherent gob n s past i rf count sent below h events v))
  Step-IsCoherent s s' past
        (Step.elects c (ClusterStep.votes k j e args rf reply at below asked h e₁) l e') v =
      rw (e', e₁)
        (stay _ past (votes-IsCoherent gob n s past k j e args rf reply at below asked h v))
  Step-IsCoherent s s' past
        (Step.elects c (ClusterStep.counts k j e args reply rf count at below replied h e₁) l e')
        v =
      rw (e', e₁) (counts-IsCoherent gob n s past k j e args reply rf count at below replied h v)
  Step-IsCoherent s s' past (Step.delivers i j k args rf reply below at h e) v = rw e (
      delivers-IsCoherent gob n s past i k
        (record { source = i; target = j; args = args; reply = reply }) rf at h v)
  Step-IsCoherent s s' past (Step.hears k a rf at below h e) v =
      rw e (stay _ past (hears-IsCoherent gob n s past k a rf at below h v))

  Steps-IsCoherent :
      (s s' : Group C) (past : Past C) → Steps gob n s s' → IsCoherent n s past → Next past s'
  Steps-IsCoherent s s' past Steps.here v = stay s past v
  Steps-IsCoherent s s' past (Steps.next {s' = s₁} steps h) v =
      let (past₁, follows, v₁) = Steps-IsCoherent s s₁ past steps v in
      let (past', follows', v') = Step-IsCoherent s₁ s' past₁ h v₁ in
      (past', Follows-trans past past₁ past' follows follows', v')

  -- Log matching: whatever AppendEntries, votes and replies are lost, delayed, reordered or delivered
  -- again between peers that began with empty storage and do not restart or take snapshots, if the
  -- logs of two of them have entries of one term at an index, they are the same up to that index.
  pub log_matching :
      (s : Group C) (i j k : ℕ) (x y : LogEntry C)
      → Steps gob n (begin gob n) s
      → entry_at (s.cluster.peers i) k ≡ some x
      → entry_at (s.cluster.peers j) k ≡ some y
      → x.term ≡ y.term
      → (l : ℕ) → l ≤ k
      → entry_at (s.cluster.peers i) l ≡ entry_at (s.cluster.peers j) l
  log_matching s i j k x y steps at_x at_y same l le =
      let (past, _, v) =
        Steps-IsCoherent (begin gob n) s begin_past steps (begin-IsCoherent gob n) in
      let hi = v.holds i in
      let hj = v.holds j in
      let ei = λ (m : ℕ). entry_at-plain n (s.cluster.peers i) m hi.plain in
      let ej = λ (m : ℕ). entry_at-plain n (s.cluster.peers j) m hj.plain in
      ei l
      ∙ Consistent-Same past.heads (s.cluster.peers i).logs (s.cluster.peers j).logs k x y
          hi.good.consistent hj.good.consistent (sym (ei k) ∙ at_x) (sym (ej k) ∙ at_y) same l le
      ∙ sym (ej l)

  -- Two logs that are committed up to an index.
  committed_same :
      (past : Past C) (peers : ℕ → Raft C) (elections : List Election) (u u' c c' k : ℕ)
      (L M : List (LogEntry C))
      → Stored n past
      → Ledger n peers elections past
      → get_elem? L 0 ≡ some first_entry
      → get_elem? M 0 ≡ some first_entry
      → CommittedTo n past u c L
      → CommittedTo n past u' c' M
      → k ≤ c
      → k ≤ c'
      → (e : LogEntry C) × (get_elem? L k ≡ some e) × (get_elem? M k ≡ some e)
  committed_same past peers elections u u' c c' k L M stored ledger first first' cl cm le le' =
      elim (dec_lt 0 k) [
        | no start ↦ let zero_k : k ≡ 0 = omega arith in rw zero_k (first_entry, first, first')
        | yes later ↦ elim cl [
          | inl none_yet ↦ absurd (omega arith)
          | inr (t, m, below, upto, committed, same) ↦ elim cm [
            | inl none_yet ↦ absurd (omega arith)
            | inr (t', m', below', upto', committed', same') ↦
                let (x, at_x, _) = term_of-some (past.heads t) m t committed.0 in
                let (x', at_x', _) = term_of-some (past.heads t') m' t' committed'.0 in
                let complete = leader_complete n peers past stored.good ledger.chosen in
                let (y, at_y) =
                  get_elem?-some (past.heads t) k
                    (omega (arith, lt_of_get_elem? (past.heads t) m at_x)) in
                let one : get_elem? (past.heads t') k ≡ get_elem? (past.heads t) k =
                  elim (dec_lt t' t) [
                    | yes before ↦
                        sym (complete t' t m' m x (omega arith) committed' at_x k (omega arith))
                    | no after ↦ complete t t' m m' x' (omega arith) committed at_x' k (omega arith)
                  ] in
                (y, same k le ∙ at_y, same' k le' ∙ one ∙ at_y)
          ]
        ]
      ]

  -- State machine safety: among peers that began with empty storage and do not restart or take
  -- snapshots, whatever messages are lost, delayed, reordered or delivered again, an entry that one
  -- peer has committed, and what any peer has committed at that index then or later, are there and
  -- are the same.
  pub state_machine_safety :
      (s s' : Group C) (i j k : ℕ)
      → Steps gob n (begin gob n) s
      → Steps gob n s s'
      → k ≤ (s.cluster.peers i).commit_index
      → k ≤ (s'.cluster.peers j).commit_index
      → (e : LogEntry C) × (entry_at (s.cluster.peers i) k ≡ some e)
        × (entry_at (s'.cluster.peers j) k ≡ some e)
  state_machine_safety s s' i j k steps later le le' =
      let (past, _, v) =
        Steps-IsCoherent (begin gob n) s begin_past steps (begin-IsCoherent gob n) in
      let (past', follows, v') = Steps-IsCoherent s s' past later v in
      let hi = v.holds i in
      let hj = v'.holds j in
      let rf = s.cluster.peers i in
      let rf' = s'.cluster.peers j in
      let (e, at, at') =
        committed_same past' s'.cluster.peers s'.cluster.elections rf.current_term rf'.current_term
          rf.commit_index rf'.commit_index k rf.logs rf'.logs v'.stored v'.ledger hi.good.first
          hj.good.first
          (CommittedTo-Follows n past past' rf.current_term rf.current_term rf.commit_index rf.logs
            follows (omega arith) hi.commits)
          hj.commits le le' in
      (e, entry_at-plain n rf k hi.plain ∙ at, entry_at-plain n rf' k hj.plain ∙ at')

  -- Leader completeness: among peers that began with empty storage and do not restart or take
  -- snapshots, whatever messages are lost, delayed, reordered or delivered again, a peer that leads
  -- then or later, in the term of a peer that has committed an entry or in a later one, has that
  -- entry.
  pub leader_has_committed :
      (s s' : Group C) (i j k : ℕ)
      → Steps gob n (begin gob n) s
      → Steps gob n s s'
      → k ≤ (s.cluster.peers i).commit_index
      → is_leader (s'.cluster.peers j).state ≡ true
      → (s.cluster.peers i).current_term ≤ (s'.cluster.peers j).current_term
      → (e : LogEntry C) × (entry_at (s.cluster.peers i) k ≡ some e)
        × (entry_at (s'.cluster.peers j) k ≡ some e)
  leader_has_committed s s' i j k steps later le leads terms =
      let (past, _, v) =
        Steps-IsCoherent (begin gob n) s begin_past steps (begin-IsCoherent gob n) in
      let (past', follows, v') = Steps-IsCoherent s s' past later v in
      let hi = v.holds i in
      let hj = v'.holds j in
      let rf = s.cluster.peers i in
      let rf' = s'.cluster.peers j in
      let commits =
        CommittedTo-Follows n past past' rf.current_term rf.current_term rf.commit_index rf.logs
          follows (omega arith) hi.commits in
      let led = hj.heads leads in
      let (e, at, at') : (e : LogEntry C) × (get_elem? rf.logs k ≡ some e)
          × (get_elem? rf'.logs k ≡ some e) =
        elim (dec_lt 0 k) [
          | no start ↦
              let zero_k : k ≡ 0 = omega arith in
              rw zero_k (first_entry, hi.good.first, hj.good.first)
          | yes positive ↦ elim commits [
            | inl none_yet ↦ absurd (omega arith)
            | inr (t, m, below, upto, committed, same) ↦
                let (x, at_x, _) = term_of-some (past'.heads t) m t committed.0 in
                let (y, at_y) =
                  get_elem?-some (past'.heads t) k
                    (omega (arith, lt_of_get_elem? (past'.heads t) m at_x)) in
                let has =
                  leader_complete n s'.cluster.peers past' v'.stored.good v'.ledger.chosen t
                    rf'.current_term m 0 first_entry (omega arith) committed
                    (ap (λ M. get_elem? M 0) (sym led) ∙ hj.good.first) in
                (y, same k le ∙ at_y, ap (λ M. get_elem? M k) led ∙ has k (omega arith) ∙ at_y)
          ]
        ] in
      (e, entry_at-plain n rf k hi.plain ∙ at, entry_at-plain n rf' k hj.plain ∙ at')
