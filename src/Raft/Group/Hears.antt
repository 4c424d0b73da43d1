-- ===== src/Raft/Group/Hears.antt =====
-- How a leader of a Group that hears of a success, and may commit, keeps what it has to do with the
-- past.
use mit6_824_labs.Prelude.{
  ℕ, zero, suc, ◌+◌, ◌/◌, ◌≤◌, ◌<◌, ◌≡◌, ◌⊎◌, inl, inr, refl, sym, ap, ◌∙◌, List, [], ◌∷◌, none,
  some, Bool, true, false, arith, length, length-set, get_elem?, set, dec_lt, max, leb, ◌>>=◌,
  if◌then◌else◌, Option-cases,
}
use mit6_824_labs.Raft.Types.{Raft}
use mit6_824_labs.Raft.Leader.{is_leader, count_reached, raise_indices, check_and_commit_logs}
use mit6_824_labs.Raft.Leader.Commit.{commit_rule}
use mit6_824_labs.Raft.Append.Agreement.{term_of}
use mit6_824_labs.Raft.Cluster.Tally.{tally}
use mit6_824_labs.Raft.Cluster.Fair.{get_elem?-set-cases}
use mit6_824_labs.Raft.Group.Past.{Past, IsCommitted}
use mit6_824_labs.Raft.Group.Handlers.{raise_and_commit}
use mit6_824_labs.Raft.Group.Holds.{Holds, HasAck}
use mit6_824_labs.Raft.Group.Peers.{entry_at-plain}

-- The peers that have reached an index, by the match indices.
abbrev has_reached : ℕ → List ℕ → ℕ → Bool
has_reached n matches j = elim (get_elem? matches j) [ none ↦ false | some m ↦ leb n m ]

tally_first :
    (n : ℕ) (p : ℕ → Bool) → tally (suc n) p ≡ (if p 0 then 1 else 0) + tally n (λ j. p (suc j))
tally_first zero p = ground arith
tally_first (suc n) p = ground (arith, tally_first n p)

-- The leader's count is one of peers.
pub count_reached-tally :
    (n : ℕ) (matches : List ℕ)
    → count_reached n matches ≡ tally (length matches) (has_reached n matches)
unfolding count_reached
count_reached-tally n [] = refl
count_reached-tally n (m ∷ matches) =
    ap (λ c. (if leb n m then 1 else 0) + c) (count_reached-tally n matches)
    ∙ sym (tally_first (length matches) (has_reached n (m ∷ matches)))

module _ {C : Type 0} (n : ℕ) where
  pub HasAck-less :
      (past : Past C) (voter t m m' : ℕ)
      → m' ≤ m
      → HasAck n past voter t m
      → HasAck n past voter t m'
  HasAck-less past voter t m m' le (k, a, at, v, of_term, r) = (k, a, at, v, of_term, omega arith)

  raised :
      (past : Past C) (t peer old reached : ℕ) (matches : List ℕ)
      → ((j m : ℕ) → get_elem? matches j ≡ some m → (m ≡ 0) ⊎ HasAck n past j t m)
      → get_elem? matches peer ≡ some old
      → HasAck n past peer t reached
      → (j m : ℕ) → get_elem? (set matches peer (max old reached)) j ≡ some m
      → (m ≡ 0) ⊎ HasAck n past j t m
  raised past t peer old reached matches known at_old ack j m at =
      elim (get_elem?-set-cases matches peer (max old reached) j m at) [
        | inr (other, before) ↦ known j m before
        | inl (same, value) ↦
            rw (same, value)
              (elim (dec_lt old reached) [
                | yes more ↦
                    inr (HasAck-less past peer t reached (max old reached) (ground arith) ack)
                | no less ↦ elim (known peer old at_old) [
                  | inl none_yet ↦ inl (ground arith)
                  | inr had ↦ inr (HasAck-less past peer t old (max old reached) (ground arith) had)
                ]
              ])
      ]

  -- An index that the rule commits.
  rule-IsCommitted :
      (past : Past C) (t N : ℕ) (matches : List ℕ)
      → length matches ≡ n
      → ((j m : ℕ) → get_elem? matches j ≡ some m → (m ≡ 0) ⊎ HasAck n past j t m)
      → 0 < N
      → term_of (past.heads t) N ≡ some t
      → n / 2 < count_reached N matches
      → IsCommitted n past t N
  rule-IsCommitted past t N matches sized known positive at most = (
    at,
    (
      has_reached N matches,
      (rw (← sized) (rw (← (count_reached-tally N matches)) (rw sized most))),
      λ j given. elim (Option-cases (get_elem? matches j)) [
        | inl missing ↦ absurd (ground (arith, given, missing))
        | inr (m, at_m) ↦ elim (known j m at_m) [
          | inl none_yet ↦ absurd (ground (arith, given, at_m, none_yet, positive))
          | inr ack ↦ HasAck-less past j t m N (ground (arith, given, at_m)) ack
        ]
      ],
    ),
  )

  pub Holds-hears :
      (past : Past C) (i : ℕ) (rf : Raft C) (peer reached : ℕ) (rf₁ rf' : Raft C)
      → Holds n past i rf
      → rf.peers ≡ n
      → length rf.match_index ≡ n
      → is_leader rf.state ≡ true
      → HasAck n past peer rf.current_term reached
      → raise_indices rf peer reached ≡ some rf₁
      → check_and_commit_logs rf₁ ≡ some rf'
      → Holds n past i rf'
  Holds-hears past i rf peer reached rf₁ rf' h members sized leads ack raise commit =
      let t = rf.current_term in
      let (
        logs₁, term₁, peers₁, plain₁, commit₁, logs, state, term, plain, matches, raised_to, no_new,
      ) =
        raise_and_commit rf peer reached rf₁ rf' raise commit in
      let (old, at_old, set_to) = raised_to in
      let known : (j m : ℕ) → get_elem? rf₁.match_index j ≡ some m → (m ≡ 0) ⊎ HasAck n past j t m =
        rw set_to (raised past t peer old reached rf.match_index (h.matches leads) at_old ack) in
      let sized₁ : length rf₁.match_index ≡ n =
        ap length set_to ∙ length-set rf.match_index peer (max old reached) ∙ sized in
      record {
        plain = plain ∙ h.plain;
        good = rw (logs, term) h.good;
        heads = λ leads'. rw (logs, term) (h.heads leads);
        held = λ k a at mine. rw (logs, term) (h.held k a at mine);
        matches = λ leads'. rw (matches, term) known;
        commits =
            rw (logs, term)
              (elim (commit_rule rf₁ rf' commit).0 [
                | inl same ↦ rw (same, commit₁) h.commits
                | inr (more, inside, (of_term, most)) ↦
                    let at : term_of (past.heads t) rf'.commit_index ≡ some t =
                      rw (← (h.heads leads)) (
                        rw (← logs₁) (
                          sym (
                            ap (λ e. e >>= (λ x. some x.term))
                              (entry_at-plain n rf₁ rf'.commit_index (plain₁ ∙ h.plain)))
                          ∙ of_term
                          ∙ ap some term₁)) in
                    inr (
                      t,
                      rf'.commit_index,
                      omega arith,
                      omega arith,
                      rule-IsCommitted past t rf'.commit_index rf₁.match_index sized₁ known
                          (omega arith) at (rw (← (members)) (rw (← peers₁) most)),
                      λ j le. ap (λ L. get_elem? L j) (h.heads leads),
                    )
              ]);
        sent = λ k j args at. h.sent k j args (no_new k j args at);
      }
