-- ===== src/Raft/Group/Wins.antt =====
-- A candidate of a Group that handles a reply, and may win, keeps the invariant.
use mit6_824_labs.Prelude.{
  set, ℕ, zero, suc, ◌-◌, ◌<◌, ◌≡◌, ◌≢◌, ◌⊎◌, inl, inr, sym, ap, ◌∙◌, List, [], some, some_inj,
  true, arith, length, get_elem?, replicate, subst, Bool-cases, ◌==◌, ==_iff,
}
use mit6_824_labs.Raft.Types.{Raft, PersistentStatus}
use mit6_824_labs.Raft.Log.{last_log_index}
use mit6_824_labs.Raft.Leader.{is_leader}
use mit6_824_labs.Raft.Vote.{is_candidate}
use mit6_824_labs.Raft.Persist.{Codec}
use mit6_824_labs.Raft.Node.Valid.{IsValid}
use mit6_824_labs.Raft.Cluster.{Cluster, Election, update}
use mit6_824_labs.Raft.Cluster.Fair.{IsSafe, Elected}
use mit6_824_labs.Raft.Cluster.Leaders.{Elected-one}
use mit6_824_labs.Raft.Group.{Group}
use mit6_824_labs.Raft.Group.Past.{Past, IsGood, IsChosen}
use mit6_824_labs.Raft.Group.Broadcasting.{Wins}
use mit6_824_labs.Raft.Group.Holds.{Follows, IsGood-Grows}
use mit6_824_labs.Raft.Group.Leading.{
  lead, Keeps, Extends-lead, lead_matches, update-here, update-there,
}
use mit6_824_labs.Raft.Group.Ledger.{WasWon, Ledger, InTime}
use mit6_824_labs.Raft.Group.Voting.{last_entry}
use mit6_824_labs.Raft.Group.Chosen.{win-IsChosen}
use mit6_824_labs.Raft.Group.Coherent.{IsCoherent, lead_move}

pub get_elem?-replicate : (n x i y : ℕ) → get_elem? (replicate n x) i ≡ some y → y ≡ x
get_elem?-replicate zero x i y h = absurd (ground (arith, h))
get_elem?-replicate (suc n) x zero y h = sym (some_inj h)
get_elem?-replicate (suc n) x (suc i) y h = get_elem?-replicate n x i y h

module _ {C : Type 0} (gob : Codec (PersistentStatus C)) (n : ℕ) where
  -- The new leader's log was no leader's of its term before.
  no_other :
      (s s' : Cluster C) (past : Past C) (i u : ℕ)
      → IsSafe n s'
      → Ledger n s.peers s'.elections past
      → Elected n s'.elections i (suc u)
      → is_candidate (s.peers i).state ≡ true
      → (s.peers i).current_term ≡ suc u
      → past.heads (suc u) ≡ []
  no_other s s' past i u safe ledger elected stands now = elim (ledger.won u) [
    | inl gone ↦ gone
    | inr (c, elected', how) ↦
        let same : c ≡ i = Elected-one n s' c i (suc u) safe elected' elected in
        let how' = rw same at how in absurd (ground (arith, how', stands, now))
  ]

  -- The votes behind the new leader's log.
  win_votes :
      (s : Group C) (past : Past C) (i u : ℕ) (rf : Raft C) (elections : List Election)
      → let peers = s.cluster.peers in
        let peers' = update peers i rf in
        IsCoherent n s past
        → IsSafe n (record { peers = peers'; elections = elections })
        → Ledger n peers elections past
        → Elected n elections i (suc u)
        → is_candidate (peers i).state ≡ true
        → (peers i).current_term ≡ suc u
        → past.heads (suc u) ≡ []
        → rf.current_term ≡ suc u
        → rf.logs ≡ (peers i).logs
        → IsChosen n peers' (lead past i rf.current_term rf.logs) u
  win_votes s past i u rf elections v safe ledger (k, e, at, candidate, of_term, most) stands now
        gone term logs =
      let peers = s.cluster.peers in
      let peers' = update peers i rf in
      let past' = lead past i rf.current_term rf.logs in
      let path : lead past e.candidate (suc u) (peers e.candidate).logs ≡ past' =
        ap (λ c. lead past c (suc u) (peers c).logs) candidate
        ∙ ap (λ w. lead past i w (peers i).logs) (sym term)
        ∙ ap (λ M. lead past i rf.current_term M) (sym logs) in
      subst (λ p. IsChosen n peers' p u) path
        (win-IsChosen gob n past peers peers' elections k u e v.stored ledger (v.holds e.candidate)
          at (safe.fair k e at) most of_term
          (ap (λ c. is_candidate (peers c).state) candidate ∙ stands)
          (ap (λ c. (peers c).current_term) candidate ∙ now) gone)

  -- A candidate that wins.
  pub wins-IsCoherent :
      (s : Group C) (past : Past C) (i u : ℕ) (rf : Raft C) (elections : List Election)
      → let peers = s.cluster.peers in
        let s' : Cluster C = record { peers = update peers i rf; elections = elections } in
        IsCoherent n s past
        → IsSafe n s'
        → ((j : ℕ) → j < n → IsValid (update peers i rf j))
        → InTime n peers elections
        → Ledger n peers elections past
        → is_candidate (peers i).state ≡ true
        → (peers i).current_term ≡ suc u
        → Wins gob (peers i) rf
        → (past' : Past C) × Follows past past' × IsCoherent n (record s { cluster = s' }) past'
  wins-IsCoherent s past i u rf elections v safe valid in_time ledger stands now
        ((logs, commit, plain), role, term, matches, emits) =
      let peers = s.cluster.peers in
      let old = peers i in
      let s' : Cluster C = record { peers = update peers i rf; elections = elections } in
      let t = rf.current_term in
      let L = rf.logs in
      let past' = lead past i t L in
      let here : s'.peers i ≡ rf = update-here peers i rf in
      let led : is_leader rf.state ≡ true = ground (arith, role) in
      let t_is : t ≡ suc u = term ∙ now in
      let won : Elected n elections i (suc u) =
        subst (λ w. Elected n elections i w) (ap (λ r. r.current_term) here ∙ t_is)
          (safe.leads i (ap (λ r. is_leader r.state) here ∙ led)) in
      let gone = no_other s.cluster s' past i u safe ledger won stands now in
      let heads : Keeps n (past.heads t) L =
        λ j x at_x. let at_x' = rw t_is at at_x in absurd (ground (arith, at_x', gone)) in
      let ex = Extends-lead n past i t L heads in
      let holds = v.holds i in
      let good : IsGood past'.heads t L =
        subst (λ M. IsGood past'.heads t M) (sym logs)
          (subst (λ w. IsGood past'.heads w old.logs) (sym term)
            (IsGood-Grows n past.heads past'.heads old.current_term old.logs ex.grows
              holds.good)) in
      let (member, me) = v.safe.members i in
      let (y, at_y, y_term, y_index) = last_entry n past i old holds in
      let votes : IsChosen n s'.peers past' u =
        win_votes s past i u rf elections v safe ledger won stands now gone t_is logs in
      let chosen : (w : ℕ)
          → past.heads (suc w) ≡ []
          → (past'.heads (suc w) ≡ [])
            ⊎ (WasWon n s'.peers elections (suc w) × IsChosen n s'.peers past' w) =
        λ w none_yet. elim (Bool-cases (w == u)) [
          | inl same_term ↦
              let same : w ≡ u = (==_iff w u).0 same_term in
              rw same (
                inr (
                  (
                    i,
                    won,
                    inr (
                      ap (λ r. r.current_term) here ∙ t_is,
                      ap (λ r. is_candidate r.state) here ∙ ap is_candidate role,
                    ),
                  ),
                  votes,
                ))
          | inr other ↦
              let differ : suc w ≢ t = λ same. ground (arith, other, ==_iff w u, same, t_is) in
              inl (update-there past.heads t (suc w) L differ ∙ none_yet)
        ] in
      let matches' =
        lead_matches n past i t L (replicate old.peers old.last_included_index) (last_log_index old)
          (y_index ∙ ap (λ l. length l - 1) (sym logs))
          (λ j m before.
            inl (get_elem?-replicate old.peers old.last_included_index j m before ∙ holds.plain)) in
      let own : rf.match_index
          ≡ set (replicate old.peers old.last_included_index) i (last_log_index old) =
        matches
        ∙ ap (λ x. set (replicate old.peers old.last_included_index) x (last_log_index old)) me in
      lead_move n s past i rf elections v safe in_time ledger led term heads
        (λ j x at_x. (rw logs at_x)) good commit plain
        (λ j m at_m. matches' j m (ap (λ M. get_elem? M j) (sym own) ∙ at_m)) emits chosen valid
