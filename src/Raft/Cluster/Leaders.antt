-- ===== src/Raft/Cluster/Leaders.antt =====
-- At most one leader in a term.
use mit6_824_labs.Prelude.{ℕ, ◌≡◌, refl, sym, ◌∙◌, true, arith}
use mit6_824_labs.Raft.Types.{PersistentStatus}
use mit6_824_labs.Raft.Persist.{Codec, initial}
use mit6_824_labs.Raft.Leader.{is_leader}
use mit6_824_labs.Raft.Node.Leads.{vote_reply_counts}
use mit6_824_labs.Raft.Cluster.{Cluster, begin, Step, Steps}
use mit6_824_labs.Raft.Cluster.Tally.{majorities}
use mit6_824_labs.Raft.Cluster.Fair.{IsSafe, Elected, has_counted, has_counted-has_voted}
use mit6_824_labs.Raft.Cluster.Moves.{acts-IsSafe, times_out-IsSafe, Elected-append}
use mit6_824_labs.Raft.Cluster.Replies.{votes-IsSafe, Elected-set}
use mit6_824_labs.Raft.Cluster.Counts.{counts-IsSafe}

module _ {C : Type 0} (n : ℕ) where
  -- Two elections of one term that were won are of one candidate.
  pub Elected-one :
      (s : Cluster C) (i j term : ℕ)
      → IsSafe n s
      → Elected n s.elections i term
      → Elected n s.elections j term
      → i ≡ j
  Elected-one s i j term v (k, e, at, candidate, of_term, most)
        (k', e', at', candidate', of_term', most') =
      let fair = v.fair k e at in
      let fair' = v.fair k' e' at' in
      let (voter, below, given, given') =
        majorities n (has_counted e) (has_counted e') (omega (arith, most, fair.tallied))
          (omega (arith, most', fair'.tallied)) in
      sym candidate
      ∙ v.single k k' e e' voter at at' (of_term ∙ sym of_term')
          (has_counted-has_voted e voter given) (has_counted-has_voted e' voter given')
      ∙ candidate'

module _ {C : Type 0} (gob : Codec (PersistentStatus C)) (n : ℕ) where
  pub begin-IsSafe : IsSafe n (begin gob n)
  unfolding begin initial
  begin-IsSafe = record {
    members = λ i. (refl, refl);
    fair = λ k e at. absurd (ground (arith, at));
    single = λ k k' e e' j at at' term given given'. absurd (ground (arith, at));
    leads = λ i led. absurd (ground (arith, led));
  }

  pub Step-IsSafe : {s s' : Cluster C} → Step gob n s s' → IsSafe n s → IsSafe n s'
  Step-IsSafe {s} (Step.acts i rf h below quiet e) v = rw e (acts-IsSafe gob n s i rf h quiet v)
  Step-IsSafe {s} (Step.times_out i rf count sent below h events e) v =
      rw e (times_out-IsSafe gob n s i rf count sent below h events v)
  Step-IsSafe {s} (Step.votes k j e args rf reply at below asked h e') v =
      rw e' (votes-IsSafe gob n s k j e args rf reply at asked h v)
  Step-IsSafe {s} (Step.counts k j e args reply rf count at below replied h e') v =
      rw e' (counts-IsSafe gob n s k j e args reply rf count at below replied h v)

  Steps-IsSafe : {s s' : Cluster C} → Steps gob n s s' → IsSafe n s → IsSafe n s'
  Steps-IsSafe Steps.here v = v
  Steps-IsSafe (Steps.next steps h) v = Step-IsSafe h (Steps-IsSafe steps v)

  -- An election that was won stays won.
  Step-Elected :
      {s s' : Cluster C} (i term : ℕ)
      → Step gob n s s'
      → Elected n s.elections i term
      → Elected n s'.elections i term
  Step-Elected i term (Step.acts j rf h below quiet e) won = rw e won
  Step-Elected {s} i term (Step.times_out j rf count sent below h events e) won =
      rw e (Elected-append gob n s.elections _ i term won)
  Step-Elected {s} i term (Step.votes k j e args rf reply at below asked h e') won =
      rw e' (Elected-set gob n s.elections k e _ i term at refl refl (omega arith) won)
  Step-Elected {s} i term (Step.counts k j e args reply rf count at below replied h e') won =
      let (member, counts, more) =
        vote_reply_counts gob (s.peers e.candidate) e.count args reply h in
      rw e' (Elected-set gob n s.elections k e _ i term at refl refl more won)

  Steps-Elected :
      {s s' : Cluster C} (i term : ℕ)
      → Steps gob n s s'
      → Elected n s.elections i term
      → Elected n s'.elections i term
  Steps-Elected i term Steps.here won = won
  Steps-Elected i term (Steps.next steps h) won =
      Step-Elected i term h (Steps-Elected i term steps won)

  -- Among any number of peers that were made with empty storage and do not restart, whatever
  -- requests and replies of votes are lost, delayed or reordered, and whatever else each peer does:
  -- a peer that is a leader, and one that is a leader of the same term then or later, are one.
  pub one_leader :
      (s s' : Cluster C) (i j : ℕ)
      → Steps gob n (begin gob n) s
      → Steps gob n s s'
      → is_leader (s.peers i).state ≡ true
      → is_leader (s'.peers j).state ≡ true
      → (s.peers i).current_term ≡ (s'.peers j).current_term
      → i ≡ j
  one_leader s s' i j steps later led led' same =
      let v = Steps-IsSafe steps begin-IsSafe in
      let v' = Steps-IsSafe later v in
      let won = Steps-Elected i (s.peers i).current_term later (v.leads i led) in
      Elected-one n s' i j (s'.peers j).current_term v' (rw same at won) (v'.leads j led')
