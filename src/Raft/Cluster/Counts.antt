-- ===== src/Raft/Cluster/Counts.antt =====
-- A reply that is handled keeps the elections fair.
use mit6_824_labs.Prelude.{
  ℕ, ◌+◌, ◌<◌, ◌≤◌, ◌≡◌, refl, sym, ap, ◌∙◌, some, true, false, arith, Bool-cases, inl, inr, ◌==◌,
  ==_iff, if◌then◌else◌, get_elem?, set, get_elem?-set_self, lt_of_get_elem?,
}
use mit6_824_labs.Raft.Types.{Raft, PersistentStatus, RequestVoteArgs, RequestVoteReply}
use mit6_824_labs.Raft.Persist.{Codec}
use mit6_824_labs.Raft.Leader.{is_leader}
use mit6_824_labs.Raft.Vote.{handle_vote_reply}
use mit6_824_labs.Raft.Vote.Majority.{leader_has_majority}
use mit6_824_labs.Raft.Node.{Step as NodeStep}
use mit6_824_labs.Raft.Node.Votes.{Later, Step-Later}
use mit6_824_labs.Raft.Node.Leads.{vote_reply_counts}
use mit6_824_labs.Raft.Cluster.{Call, Election, Cluster, update}
use mit6_824_labs.Raft.Cluster.Tally.{tally, tally_more}
use mit6_824_labs.Raft.Cluster.Fair.{has_voted, has_counted, IsFair, IsSafe, update-IsFair}
use mit6_824_labs.Raft.Cluster.Replies.{
  Elected-set, set-IsSafe, other_peer, own_idle, tally_uncounted,
}

add-zero : (m : ℕ) → m + 0 ≡ m
add-zero m = omega arith

module _ {C : Type 0} (gob : Codec (PersistentStatus C)) (n : ℕ) where
  -- The count of an election keeps up with its votes.
  tally_handled :
      (e : Election) (j : ℕ) (args : RequestVoteArgs) (reply : RequestVoteReply)
      → j < n
      → (j == e.candidate) ≡ false
      → e.calls j ≡ Call.replied args reply
      → tally n (has_counted (record e { calls = update e.calls j (Call.handled args reply) }))
        ≡ tally n (has_counted e) + (if reply.vote_granted then 1 else 0)
  tally_handled e j args reply below other at = elim (Bool-cases reply.vote_granted) [
    | inl grants ↦
        tally_more n j (has_counted e)
          (has_counted (record e { calls = update e.calls j (Call.handled args reply) })) below
          (rw (other, at) refl) (ground (arith, grants, other))
          (λ i differ.
            let there : (i == j) ≡ false = ground (arith, differ, ==_iff i j) in rw there refl)
        ∙ ap (λ b. tally n (has_counted e) + (if b then 1 else 0)) (sym grants)
    | inr refuses ↦
        tally_uncounted gob n e j (Call.handled args reply) (rw at refl) refuses
        ∙ sym (add-zero (tally n (has_counted e)))
        ∙ ap (λ b. tally n (has_counted e) + (if b then 1 else 0)) (sym refuses)
  ]

  -- Handling a reply gives no vote and takes none back.
  same_votes :
      (e : Election) (j i : ℕ) (args : RequestVoteArgs) (reply : RequestVoteReply)
      → e.calls j ≡ Call.replied args reply
      → has_voted (record e { calls = update e.calls j (Call.handled args reply) }) i
        ≡ has_voted e i
  same_votes e j i args reply at = elim (Bool-cases (i == j)) [
    | inl here ↦
        let same : i ≡ j = (==_iff i j).0 here in
        let at' : e.calls i ≡ Call.replied args reply = rw same at in rw (here, at') refl
    | inr there ↦ rw there refl
  ]

  handled-IsFair :
      (s : Cluster C) (k j : ℕ) (e : Election) (args : RequestVoteArgs) (reply : RequestVoteReply)
      (rf : Raft C) (count : ℕ)
      → IsSafe n s
      → get_elem? s.elections k ≡ some e
      → j < n
      → e.calls j ≡ Call.replied args reply
      → Later (s.peers e.candidate) rf
      → count ≤ e.count + (if reply.vote_granted then 1 else 0)
      → IsFair n
          (update s.peers e.candidate rf)
          (record e { count = count; calls = update e.calls j (Call.handled args reply) })
  handled-IsFair s k j e args reply rf count v at below replied later counts =
      let old = update-IsFair n s.peers e.candidate rf e later (v.fair k e at) in
      let other =
        other_peer gob n s.peers e j (v.fair k e at) (λ h. absurd (ground (arith, h, replied))) in
      record {
        member = old.member;
        tallied =
            ground (arith, old.tallied, counts, tally_handled e j args reply below other replied);
        own = own_idle gob n e j (Call.handled args reply) other old.own;
        belongs = λ i. elim (Bool-cases (i == j)) [
          | inl here ↦ rw here tt
          | inr there ↦ rw there (old.belongs i)
        ];
        bound = λ i given. old.bound i (sym (same_votes e j i args reply replied) ∙ given);
      }

  leader_ignores :
      (rf : Raft C) (count : ℕ) (args : RequestVoteArgs) (reply : RequestVoteReply) {rf' : Raft C}
      {count' : ℕ}
      → handle_vote_reply gob rf count args reply ≡ some (rf', count')
      → is_leader rf.state ≡ true
      → rf' ≡ rf
  unfolding handle_vote_reply
  leader_ignores rf count args reply h led = ground arith

  -- A reply is handled.
  pub counts-IsSafe :
      (s : Cluster C) (k j : ℕ) (e : Election) (args : RequestVoteArgs) (reply : RequestVoteReply)
      (rf : Raft C) (count : ℕ)
      → get_elem? s.elections k ≡ some e
      → j < n
      → e.calls j ≡ Call.replied args reply
      → handle_vote_reply gob (s.peers e.candidate) e.count args reply ≡ some (rf, count)
      → IsSafe n s
      → IsSafe n (record {
        peers = update s.peers e.candidate rf;
        elections =
            set s.elections k
              (record e { count = count; calls = update e.calls j (Call.handled args reply) });
      })
  counts-IsSafe s k j e args reply rf count at below replied h v =
      let i = e.candidate in
      let (member, counts, more) = vote_reply_counts gob (s.peers i) e.count args reply h in
      let later = Step-Later gob (NodeStep.counts_vote e.count count args reply h) in
      let e' : Election = record e {
        count = count;
        calls = update e.calls j (Call.handled args reply);
      } in
      let belongs = (v.fair k e at).belongs j in
      let of_e : args.term ≡ e.term = rw replied at belongs in
      set-IsSafe gob n s i rf k e e' v at later member refl refl more
        (handled-IsFair s k j e args reply rf count v at below replied later counts)
        (λ k₁ e₁ i₁ at₁ term given₁ given.
          v.single k₁ k e₁ e i₁ at₁ at term given₁
            (sym (same_votes e j i₁ args reply replied) ∙ given))
        (λ led. elim (Bool-cases (is_leader (s.peers i).state)) [
          | inl was ↦
              let same = leader_ignores (s.peers i) e.count args reply h was in
              rw same (
                Elected-set gob n s.elections k e e' i (s.peers i).current_term at refl refl more
                  (v.leads i was))
          | inr was_not ↦
              let (role, now, answers, term, sum, most) =
                leader_has_majority gob (s.peers i) e.count args reply rf count h was_not led in
              (
                k,
                e',
                get_elem?-set_self s.elections k e'
                    (omega (arith, lt_of_get_elem? s.elections k at)),
                refl,
                sym (term ∙ of_e),
                rw (v.members i).0 at most,
              )
        ])
