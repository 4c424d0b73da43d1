-- ===== src/Raft/Cluster/Replies.antt =====
-- A request that is delivered, and a reply that is handled, keep the elections fair.
use mit6_824_labs.Prelude.{
  ℕ, ◌≤◌, ◌≡◌, ◌≢◌, ◌⊎◌, refl, sym, ap, ◌∙◌, List, some, true, false, arith, Bool-cases, inl, inr,
  ◌==◌, ==_iff, get_elem?, set, get_elem?-set_self, get_elem?-set_ne, lt_of_get_elem?,
}
use mit6_824_labs.Prelude.Int.{pos}
use mit6_824_labs.Raft.Types.{Raft, PersistentStatus, RequestVoteArgs, RequestVoteReply}
use mit6_824_labs.Raft.Persist.{Codec}
use mit6_824_labs.Raft.Leader.{is_leader}
use mit6_824_labs.Raft.Vote.{request_vote}
use mit6_824_labs.Raft.Node.{Step as NodeStep}
use mit6_824_labs.Raft.Node.Votes.{Later, Step-Later, granted_vote}
use mit6_824_labs.Raft.Node.Leads.{request_vote-Kept}
use mit6_824_labs.Raft.Cluster.{Call, Election, Cluster, update}
use mit6_824_labs.Raft.Cluster.Tally.{tally, tally_same}
use mit6_824_labs.Raft.Cluster.Fair.{
  counted, has_voted, has_counted, IsFair, Elected, IsSafe, get_elem?-set-cases, update-IsFair,
  Bound-Later,
}
use mit6_824_labs.Raft.Cluster.Moves.{update-members, update-leads, Kept-Elected}

module _ {C : Type 0} (gob : Codec (PersistentStatus C)) (n : ℕ) where
  -- A leader's election is still there when one is written back with no fewer votes.
  pub Elected-set :
      (elections : List Election) (k : ℕ) (e e' : Election) (i term : ℕ)
      → get_elem? elections k ≡ some e
      → e'.candidate ≡ e.candidate
      → e'.term ≡ e.term
      → e.count ≤ e'.count
      → Elected n elections i term
      → Elected n (set elections k e') i term
  Elected-set elections k e e' i term at same_candidate same_term more
        (k₁, e₁, at₁, candidate, of_term, most) =
      elim (Bool-cases (k₁ == k)) [
        | inl h ↦
            let here : k₁ ≡ k = (==_iff k₁ k).0 h in
            let same : e₁ ≡ e = ground (arith, at, at₁, here) in
            (
              k,
              e',
              get_elem?-set_self elections k e' (omega (arith, lt_of_get_elem? elections k at)),
              same_candidate ∙ ap (λ x. x.candidate) (sym same) ∙ candidate,
              same_term ∙ ap (λ x. x.term) (sym same) ∙ of_term,
              ground (arith, same, most, more),
            )
        | inr there ↦ (
          k₁,
          e₁,
          get_elem?-set_ne elections e' (λ h. absurd (ground (arith, there, h))) ∙ at₁,
          candidate,
          of_term,
          most,
        )
      ]

  -- An election that is written back, with what the rest of the invariant asks of it.
  pub set-IsSafe :
      (s : Cluster C) (i : ℕ) (rf : Raft C) (k : ℕ) (e e' : Election)
      → IsSafe n s
      → get_elem? s.elections k ≡ some e
      → Later (s.peers i) rf
      → (rf.peers ≡ (s.peers i).peers) × (rf.me ≡ (s.peers i).me)
      → e'.candidate ≡ e.candidate
      → e'.term ≡ e.term
      → e.count ≤ e'.count
      → IsFair n (update s.peers i rf) e'
      → ((k₁ : ℕ) (e₁ : Election) (j : ℕ)
          → get_elem? s.elections k₁ ≡ some e₁
          → e₁.term ≡ e.term
          → has_voted e₁ j ≡ true
          → has_voted e' j ≡ true
          → e₁.candidate ≡ e.candidate)
      → (is_leader rf.state ≡ true → Elected n (set s.elections k e') i rf.current_term)
      → IsSafe n (record { peers = update s.peers i rf; elections = set s.elections k e' })
  set-IsSafe s i rf k e e' v at later member same_candidate same_term more fair single leads =
      record {
        members = update-members gob n s.peers i rf v.members member;
        fair = λ k₁ e₁ at₁. elim (get_elem?-set-cases s.elections k e' k₁ e₁ at₁) [
          | inl (here, same) ↦ rw same fair
          | inr (there, old) ↦ update-IsFair n s.peers i rf e₁ later (v.fair k₁ e₁ old)
        ];
        single = λ k₁ k₂ e₁ e₂ j at₁ at₂ term given₁ given₂.
            elim (get_elem?-set-cases s.elections k e' k₁ e₁ at₁) [
              | inl (here₁, same₁) ↦ elim (get_elem?-set-cases s.elections k e' k₂ e₂ at₂) [
                | inl (here₂, same₂) ↦ ap (λ x. x.candidate) (same₁ ∙ sym same₂)
                | inr (there₂, old₂) ↦
                    ap (λ x. x.candidate) same₁
                    ∙ same_candidate
                    ∙ sym (
                        single k₂ e₂ j old₂ (sym term ∙ ap (λ x. x.term) same₁ ∙ same_term) given₂
                          (rw same₁ at given₁))
              ]
              | inr (there₁, old₁) ↦ elim (get_elem?-set-cases s.elections k e' k₂ e₂ at₂) [
                | inl (here₂, same₂) ↦
                    single k₁ e₁ j old₁ (term ∙ ap (λ x. x.term) same₂ ∙ same_term) given₁
                      (rw same₂ at given₂)
                    ∙ sym same_candidate
                    ∙ sym (ap (λ x. x.candidate) same₂)
                | inr (there₂, old₂) ↦ v.single k₁ k₂ e₁ e₂ j old₁ old₂ term given₁ given₂
              ]
            ];
        leads =
            update-leads gob n s.peers i rf (set s.elections k e')
              (λ j led.
                Elected-set s.elections k e e' j (s.peers j).current_term at same_candidate
                  same_term more (v.leads j led))
              leads;
      }

  -- A call that is not idle is another peer's.
  pub other_peer :
      (peers : ℕ → Raft C) (e : Election) (j : ℕ)
      → IsFair n peers e
      → e.calls j ≢ Call.idle
      → (j == e.candidate) ≡ false
  other_peer peers e j v busy = elim (Bool-cases (j == e.candidate)) [
    | inl here ↦
        let same : j ≡ e.candidate = (==_iff j e.candidate).0 here in absurd (busy (rw same v.own))
    | inr there ↦ there
  ]

  -- A call that changes and has not been counted, and is not counted by that.
  pub tally_uncounted :
      (e : Election) (j : ℕ) (call : Call)
      → counted (e.calls j) ≡ false
      → counted call ≡ false
      → tally n (has_counted (record e { calls = update e.calls j call })) ≡ tally n (has_counted e)
  tally_uncounted e j call was now =
      tally_same n (has_counted e) (has_counted (record e { calls = update e.calls j call }))
        (λ i l. elim (Bool-cases (i == j)) [
          | inl here ↦
              let same : i ≡ j = (==_iff i j).0 here in
              let was' : counted (e.calls i) ≡ false = rw same was in
              rw here (ground (arith, was', now))
          | inr there ↦ rw there refl
        ])

  pub own_idle :
      (e : Election) (j : ℕ) (call : Call)
      → (j == e.candidate) ≡ false
      → e.calls e.candidate ≡ Call.idle
      → update e.calls j call e.candidate ≡ Call.idle
  own_idle e j call other idle =
      ground (arith, other, idle, ==_iff e.candidate j, ==_iff j e.candidate)

  -- What a vote request that is delivered adds to the votes.
  new_vote :
      (e : Election) (j i : ℕ) (args : RequestVoteArgs) (reply : RequestVoteReply)
      → has_voted (record e { calls = update e.calls j (Call.replied args reply) }) i ≡ true
      → (has_voted e i ≡ true) ⊎ ((i ≡ j) × (reply.vote_granted ≡ true))
  new_vote e j i args reply h = elim (Bool-cases (i == e.candidate)) [
    | inl own ↦ inl (rw own refl)
    | inr other ↦ elim (Bool-cases (i == j)) [
      | inl here ↦ inr ((==_iff i j).0 here, rw (other, here) at h)
      | inr there ↦ inl (rw other (rw (other, there) at h))
    ]
  ]

  replied-IsFair :
      (s : Cluster C) (k j : ℕ) (e : Election) (args : RequestVoteArgs) (rf : Raft C)
      (reply : RequestVoteReply)
      → IsSafe n s
      → get_elem? s.elections k ≡ some e
      → e.calls j ≡ Call.asked args
      → Later (s.peers j) rf
      → (reply.vote_granted ≡ true
          → (rf.current_term ≡ args.term) × (rf.voted_for ≡ pos args.candidate_id))
      → IsFair n
          (update s.peers j rf)
          (record e { calls = update e.calls j (Call.replied args reply) })
  replied-IsFair s k j e args rf reply v at asked later voted =
      let old = update-IsFair n s.peers j rf e later (v.fair k e at) in
      let belongs = (v.fair k e at).belongs j in
      let of_e = rw asked at belongs in
      let other = other_peer s.peers e j (v.fair k e at) (λ h. absurd (ground (arith, h, asked))) in
      record {
        member = old.member;
        tallied = ground (
          arith,
          old.tallied,
          tally_uncounted e j (Call.replied args reply) (rw asked refl) refl,
        );
        own = own_idle e j (Call.replied args reply) other old.own;
        belongs = λ i. elim (Bool-cases (i == j)) [
          | inl here ↦ rw here (of_e.0)
          | inr there ↦ rw there (old.belongs i)
        ];
        bound = λ i given. elim (new_vote e j i args reply given) [
          | inl was ↦ old.bound i was
          | inr (here, grants) ↦
              let self : (i == j) ≡ true = (==_iff i j).1 here in
              let (term, candidate) = voted grants in
              rw self (inr (term ∙ of_e.0, candidate ∙ ap pos of_e.1))
        ];
      }

  -- A request is delivered.
  pub votes-IsSafe :
      (s : Cluster C) (k j : ℕ) (e : Election) (args : RequestVoteArgs) (rf : Raft C)
      (reply : RequestVoteReply)
      → get_elem? s.elections k ≡ some e
      → e.calls j ≡ Call.asked args
      → request_vote gob (s.peers j) args ≡ some (rf, reply)
      → IsSafe n s
      → IsSafe n (record {
        peers = update s.peers j rf;
        elections =
            set s.elections k (record e { calls = update e.calls j (Call.replied args reply) });
      })
  votes-IsSafe s k j e args rf reply at asked h v =
      let kept = request_vote-Kept gob (s.peers j) args h in
      let later = Step-Later gob (NodeStep.votes args reply h) in
      let fair_e = v.fair k e at in
      let belongs = fair_e.belongs j in
      let of_e = rw asked at belongs in
      let voted = granted_vote gob (s.peers j) args h in
      let e' : Election = record e { calls = update e.calls j (Call.replied args reply) } in
      set-IsSafe s j rf k e e' v at later (kept.0, kept.1) refl refl (omega arith)
        (replied-IsFair s k j e args rf reply v at asked later voted)
        (λ k₁ e₁ i at₁ term given₁ given. elim (new_vote e j i args reply given) [
          | inl was ↦ v.single k₁ k e₁ e i at₁ at term given₁ was
          | inr (here, grants) ↦
              let fair₁ = v.fair k₁ e₁ at₁ in
              ground (
                arith,
                Bound-Later (s.peers j) rf e₁.term e₁.candidate (fair₁.bound j (rw here at given₁))
                    later,
                voted grants,
                of_e,
                term,
              )
        ])
        (Kept-Elected gob n (s.peers j) rf (set s.elections k e') j
          (λ led.
            Elected-set s.elections k e e' j (s.peers j).current_term at refl refl (omega arith)
              (v.leads j led))
          kept)
