-- ===== src/Raft/Group/Counts.antt =====
-- A reply to a vote request of a Group that is handled keeps the invariant.
use mit6_824_labs.Prelude.{
  ℕ, suc, ◌-◌, ◌<◌, ◌≡◌, inl, inr, refl, sym, ap, ◌∙◌, some, true, arith, get_elem?, set,
  Bool-cases, ◌==◌, ==_iff,
}
use mit6_824_labs.Raft.Types.{Raft, RequestVoteArgs, RequestVoteReply, PersistentStatus}
use mit6_824_labs.Raft.Leader.{is_leader}
use mit6_824_labs.Raft.Vote.{handle_vote_reply}
use mit6_824_labs.Raft.Vote.Majority.{leader_has_majority}
use mit6_824_labs.Raft.Persist.{Codec}
use mit6_824_labs.Raft.Node.{Step as NodeStep}
use mit6_824_labs.Raft.Node.Leads.{vote_reply_counts}
use mit6_824_labs.Raft.Node.Valid.{Step-IsValid}
use mit6_824_labs.Raft.Cluster.{Call, Election, Step as ClusterStep, update}
use mit6_824_labs.Raft.Cluster.Fair.{granted}
use mit6_824_labs.Raft.Cluster.Leaders.{Step-IsSafe}
use mit6_824_labs.Raft.Group.{Group}
use mit6_824_labs.Raft.Group.Past.{Past}
use mit6_824_labs.Raft.Group.Handlers.{vote_reply-effect}
use mit6_824_labs.Raft.Group.Holds.{Follows, Follows-refl}
use mit6_824_labs.Raft.Group.Ledger.{request_of, Ledger, IsSafe-InTime, InTime-set, Supports}
use mit6_824_labs.Raft.Group.Bookings.{Ledger-set}
use mit6_824_labs.Raft.Group.Coherent.{IsCoherent, Rests-moves, update-IsValid}
use mit6_824_labs.Raft.Group.Elections.{Step-le}
use mit6_824_labs.Raft.Group.Wins.{wins-IsCoherent}

abbrev handle : Election → ℕ → ℕ → RequestVoteArgs → RequestVoteReply → Election
handle e count j args reply = record e {
  count = count;
  calls = update e.calls j (Call.handled args reply);
}

pub handled-request :
    (e : Election) (count j i : ℕ) (args : RequestVoteArgs) (reply : RequestVoteReply)
    → e.calls j ≡ Call.replied args reply
    → (request_of ((handle e count j args reply).calls i) ≡ request_of (e.calls i))
      × (granted ((handle e count j args reply).calls i) ≡ granted (e.calls i))
handled-request e count j i args reply at = elim (Bool-cases (i == j)) [
  | inl here ↦
      let same : i ≡ j = (==_iff i j).0 here in
      let at' : e.calls i ≡ Call.replied args reply = rw same at in rw (here, at') (refl, refl)
  | inr there ↦ rw there (refl, refl)
]

module _ {C : Type 0} (gob : Codec (PersistentStatus C)) (n : ℕ) where
  -- A reply is handled.
  pub counts-IsCoherent :
      (s : Group C) (past : Past C) (k j : ℕ) (e : Election) (args : RequestVoteArgs)
      (reply : RequestVoteReply) (rf : Raft C) (count : ℕ)
      → get_elem? s.cluster.elections k ≡ some e
      → j < n
      → e.calls j ≡ Call.replied args reply
      → handle_vote_reply gob (s.cluster.peers e.candidate) e.count args reply ≡ some (rf, count)
      → IsCoherent n s past
      → (past' : Past C) × Follows past past'
        × IsCoherent n
            (record s {
              cluster = record {
                peers = update s.cluster.peers e.candidate rf;
                elections = set s.cluster.elections k (handle e count j args reply);
              };
            })
            past'
  counts-IsCoherent s past k j e args reply rf count at below replied h v =
      let i = e.candidate in
      let peers = s.cluster.peers in
      let old = peers i in
      let e' = handle e count j args reply in
      let elections = set s.cluster.elections k e' in
      let step = NodeStep.counts_vote e.count count args reply h in
      let (member, counts, more) = vote_reply_counts gob old e.count args reply h in
      let safe =
        Step-IsSafe gob n (ClusterStep.counts k j e args reply rf count at below replied h refl)
          v.safe in
      let valid =
        update-IsValid n peers i rf v.valid (λ l. Step-IsValid gob old rf step (v.valid i l)) in
      let same = λ (x : ℕ). handled-request e count j x args reply replied in
      let in_time =
        InTime-set n peers s.cluster.elections k e e' at refl refl (λ x. (same x).1)
          (IsSafe-InTime n s.cluster v.safe) in
      let supports : (x : ℕ) (args' : RequestVoteArgs)
          → request_of (e'.calls x) ≡ some args'
          → granted (e'.calls x) ≡ true
          → Supports n past e.term x args' =
        λ x args' request given.
          v.ledger.voted k x e args' at (sym (same x).0 ∙ request) (sym (same x).1 ∙ given) in
      let set_ledger : (q : ℕ → Raft C)
          → Ledger n q s.cluster.elections past
          → Ledger n q elections past =
        λ q ledger.
          Ledger-set n gob q s.cluster.elections past ledger k e e' at refl refl more
            (λ x. (same x).0) supports in
      elim (vote_reply-effect gob old e.count args reply rf count h) [
        | inl rests ↦
            let (holds, ledger) = Rests-moves n s past i rf v rests (Step-le gob n old rf step) in
            (
              past,
              Follows-refl past,
              record {
                safe = safe;
                valid = valid;
                stored = v.stored;
                ledger = set_ledger (update peers i rf) ledger;
                holds = holds;
                acknowledged = v.acknowledged;
              },
            )
        | inr (stands, wins) ↦
            let belongs = (v.safe.fair k e at).belongs j in
            let of_e : args.term ≡ e.term = rw replied at belongs in
            let majority =
              leader_has_majority gob old e.count args reply rf count h (ground (arith, stands))
                (ap is_leader wins.1) in
            let now : old.current_term ≡ e.term = majority.1 ∙ of_e in
            let u = e.term - 1 in
            let term : old.current_term ≡ suc u = omega (arith, now, v.ledger.begun k e at) in
            wins-IsCoherent gob n s past i u rf elections v safe valid in_time
              (set_ledger peers v.ledger) stands term wins
      ]
