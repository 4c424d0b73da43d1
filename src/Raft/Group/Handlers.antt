-- ===== src/Raft/Group/Handlers.antt =====
-- The handlers' effects, one by one.
use mit6_824_labs.Raft.Group.Broadcasting.{Wins, become_leader-Wins}
use mit6_824_labs.Prelude.{
  ℕ, zero, suc, ◌+◌, ◌≡◌, ◌⊎◌, inl, inr, refl, List, [], ◌∷◌, ◌++◌, some, some_inj, Bool, true,
  false, arith, length, get_elem?, ◌==◌, Bool-cases, Option-cases, max, set, ◌>>=◌, >>=-eq-some,
}
use mit6_824_labs.Prelude.Int.{ℤ}
use mit6_824_labs.Raft.Types.{
  Raft, Role, ApplyMsg, PersistentStatus, Event, RequestVoteArgs, RequestVoteReply,
  AppendEntriesArgs, AppendEntriesReply,
}
use mit6_824_labs.Raft.Log.{last_log_index, last_log_term}
use mit6_824_labs.Raft.Persist.Frame.{persist_frame}
use mit6_824_labs.Raft.Persist.{Codec, persist}
use mit6_824_labs.Raft.Append.{
  append_entries, append_checked, append_matched, advance_commit, follow,
}
use mit6_824_labs.Raft.Leader.{
  kill, is_leader, start, handle_append_entries_reply, raise_indices, check_and_commit_logs,
  find_next_index,
}
use mit6_824_labs.Raft.Vote.{
  is_candidate, vote_requests, request_vote, adopt_term, decide_vote, start_election, tick,
  handle_vote_reply, count_vote, become_leader,
}
use mit6_824_labs.Raft.Applier.{begin_apply, end_apply}
use mit6_824_labs.Raft.Group.Effects.{Steady, Stands, NoNew, NoNew-append, all_quiet}

-- No leader, or one that led the same term.
abbrev pub Leads : {C : Type 0} → Raft C → Raft C → Type 0
Leads rf rf' =
    (is_leader rf'.state ≡ false)
    ⊎ ((is_leader rf.state ≡ true) × (rf'.current_term ≡ rf.current_term))

-- Nothing that the log's agreement is about changes, and no AppendEntries is sent.
pub record Rests {C : Type 0} (rf rf' : Raft C) : Type 0 where
  pub steady : Steady rf rf'
  pub same_match : rf'.match_index ≡ rf.match_index
  pub stands : Stands rf rf'
  pub leads : Leads rf rf'
  pub no_new : NoNew rf.events rf'.events

module _ {C : Type 0} where
  -- Few quiet events.
  Few : List (Event C) → List (Event C) → Type 0
  Few es es' =
      (es' ≡ es)
      ⊎ (es' ≡ es ++ Event.reset_election_timer ∷ [])
      ⊎ (es' ≡ es ++ Event.signal_applier ∷ [])
      ⊎ (es' ≡ (es ++ Event.reset_election_timer ∷ []) ++ Event.signal_applier ∷ [])

  Few-NoNew : (es es' : List (Event C)) → Few es es' → NoNew es es'
  unfolding Few
  Few-NoNew es es' (inl e) k j args h = rw e at h
  Few-NoNew es es' (inr (inl e)) k j args h =
      NoNew-append es (Event.reset_election_timer ∷ []) refl k j args (rw e at h)
  Few-NoNew es es' (inr (inr (inl e))) k j args h =
      NoNew-append es (Event.signal_applier ∷ []) refl k j args (rw e at h)
  Few-NoNew es es' (inr (inr (inr e))) k j args h =
      NoNew-append es (Event.reset_election_timer ∷ []) refl k j args (
        NoNew-append (es ++ Event.reset_election_timer ∷ []) (Event.signal_applier ∷ []) refl k j
          args (rw e at h))

module _ {C : Type 0} (gob : Codec (PersistentStatus C)) where
  abbrev Rests₀ : Raft C → Raft C → Type 0
  Rests₀ rf rf' =
      Steady rf rf'
      × (rf'.match_index ≡ rf.match_index)
      × Stands rf rf'
      × Leads rf rf'
      × Few rf.events rf'.events

  make_Rests : (rf rf' : Raft C) → Rests₀ rf rf' → Rests rf rf'
  make_Rests rf rf' (steady, same_match, stands, leads, few) = record {
    steady = steady;
    same_match = same_match;
    stands = stands;
    leads = leads;
    no_new = Few-NoNew rf.events rf'.events few;
  }

  pub request_vote-Rests :
      (rf : Raft C) (args : RequestVoteArgs) (rf' : Raft C) (reply : RequestVoteReply)
      → request_vote gob rf args ≡ some (rf', reply)
      → Rests rf rf'
  unfolding request_vote decide_vote adopt_term persist Few
  request_vote-Rests rf args rf' reply h = make_Rests rf rf' (ground arith)

  pub append_entries-Rests :
      (rf : Raft C) (args : AppendEntriesArgs C) (rf' : Raft C) (reply : AppendEntriesReply)
      → append_entries gob rf args ≡ some (rf', reply)
      → reply.success ≡ false
      → Rests rf rf'
  unfolding append_entries append_checked follow persist Few
  append_entries-Rests rf args rf' reply h fails = make_Rests rf rf' (ground arith)

  -- A message that succeeds: all but the log and the commit index.
  pub append_entries-takes :
      (rf : Raft C) (args : AppendEntriesArgs C) (rf' : Raft C) (reply : AppendEntriesReply)
      → append_entries gob rf args ≡ some (rf', reply)
      → reply.success ≡ true
      → (rf'.match_index ≡ rf.match_index)
        × (rf'.state ≡ Role.follower)
        × NoNew rf.events rf'.events
  unfolding append_entries append_checked append_matched advance_commit follow persist Few
  append_entries-takes rf args rf' reply h ok =
      let (m, s, few) : (rf'.match_index ≡ rf.match_index)
          × (rf'.state ≡ Role.follower)
          × Few rf.events rf'.events =
        ground arith in
      (m, s, Few-NoNew rf.events rf'.events few)

  pub start-effect :
      (rf : Raft C) (command : C) (rf' : Raft C) (answer : ℤ × ℤ × Bool)
      → start gob rf command ≡ some (rf', answer)
      → (rf' ≡ rf)
        ⊎ ((is_leader rf.state ≡ true)
            × (rf'.state ≡ rf.state)
            × (rf'.current_term ≡ rf.current_term)
            × (rf'.logs ≡ rf.logs ++ record { term = rf.current_term; cmd = some command } ∷ [])
            × (rf'.commit_index ≡ rf.commit_index)
            × (rf'.last_included_index ≡ rf.last_included_index)
            × (rf'.match_index ≡ set rf.match_index rf.me (last_log_index rf'))
            × (rf'.events ≡ rf.events ++ Event.wake_add_log ∷ []))
  unfolding start persist
  start-effect rf command rf' answer h = ground arith

  pub begin_apply-Rests :
      (rf : Raft C) (msg : ApplyMsg C) (rf' : Raft C) → begin_apply rf msg ≡ some rf' → Rests rf rf'
  unfolding begin_apply Few
  begin_apply-Rests rf msg rf' h = make_Rests rf rf' (ground arith)

  pub end_apply-Rests : (rf : Raft C) (msg : ApplyMsg C) → Rests rf (end_apply rf msg)
  unfolding end_apply Few
  end_apply-Rests rf msg = make_Rests rf (end_apply rf msg) (ground arith)

  pub kill-Rests : (rf : Raft C) → Rests rf (kill rf)
  unfolding kill Few
  kill-Rests rf = make_Rests rf (kill rf) (ground arith)

  vote_requests-quiet :
      (rf : Raft C) (i n : ℕ) (ms : List (Event C))
      → vote_requests rf i n ≡ some ms
      → all_quiet ms ≡ true
  unfolding vote_requests
  vote_requests-quiet rf i zero ms h =
      let none_sent : ms ≡ [] = ground (arith, h) in rw none_sent refl
  vote_requests-quiet rf i (suc n) ms h = elim (Bool-cases (i == rf.me)) [
    | inl mine ↦ vote_requests-quiet rf (suc i) n ms (rw mine at h)
    | inr other ↦
        let (term, e, rest) = >>=-eq-some (last_log_term rf) _ (rw other at h) in
        let (ms', e', last) = >>=-eq-some (vote_requests rf (suc i) n) _ rest in
        rw (← some_inj last) (vote_requests-quiet rf (suc i) n ms' e')
  ]

  -- A time-out changes no log, and sends no entries.
  pub tick-effect :
      (rf rf' : Raft C) (count : ℕ)
      → tick gob rf ≡ some (rf', count)
      → Steady rf rf' × (rf'.match_index ≡ rf.match_index) × NoNew rf.events rf'.events
  unfolding tick start_election
  tick-effect rf rf' count h =
      let (rf₁, e, rest) = >>=-eq-some (persist gob _) _ h in
      let frame = persist_frame gob _ e in
      let (ms, e', last) = >>=-eq-some (vote_requests rf₁ 0 rf₁.peers) _ rest in
      let quiet = vote_requests-quiet rf₁ 0 rf₁.peers ms e' in
      let events : rf'.events ≡ rf.events ++ Event.reset_election_timer ∷ ms =
        ground (arith, last, frame) in
      (
        ground (arith, last, frame),
        ground (arith, last, frame),
        rw events
            (NoNew-append rf.events (Event.reset_election_timer ∷ ms) (ground (arith, quiet))),
      )

  -- A vote that is counted: nothing, or a candidate that wins.
  pub vote_reply-effect :
      (rf : Raft C) (count : ℕ) (args : RequestVoteArgs) (reply : RequestVoteReply) (rf' : Raft C)
      (count' : ℕ)
      → handle_vote_reply gob rf count args reply ≡ some (rf', count')
      → Rests rf rf' ⊎ ((is_candidate rf.state ≡ true) × Wins gob rf rf')
  unfolding handle_vote_reply count_vote persist Few
  vote_reply-effect rf count args reply rf' count' h =
      let cases : Rests₀ rf rf' ⊎ ((is_candidate rf.state ≡ true) × (become_leader rf ≡ some rf')) =
        ground (arith, Option-cases (become_leader rf)) in
      elim cases [
        | inl rests ↦ inl (make_Rests rf rf' rests)
        | inr (stood, won) ↦ inr (stood, become_leader-Wins gob rf rf' won)
      ]

  -- A reply to AppendEntries: nothing, or a success that raises the match index and may commit.
  pub append_reply-effect :
      (rf : Raft C) (peer : ℕ) (args : AppendEntriesArgs C) (reply : AppendEntriesReply)
      (rf' : Raft C)
      → handle_append_entries_reply gob rf peer args reply ≡ some rf'
      → Rests rf rf'
        ⊎ ((is_leader rf.state ≡ true)
            × (rf.current_term ≡ args.term)
            × (reply.success ≡ true)
            × ((rf₁ : Raft C) × (raise_indices rf peer (args.prev_log_index + length args.entries)
                  ≡ some rf₁)
                × (check_and_commit_logs rf₁ ≡ some rf')))
  unfolding handle_append_entries_reply find_next_index persist Few
  append_reply-effect rf peer args reply rf' h =
      let reached = args.prev_log_index + length args.entries in
      let cases : Rests₀ rf rf'
          ⊎ ((is_leader rf.state ≡ true)
              × (rf.current_term ≡ args.term)
              × (reply.success ≡ true)
              × ((raise_indices rf peer reached >>= check_and_commit_logs) ≡ some rf')) =
        ground arith in
      elim cases [
        | inl rests ↦ inl (make_Rests rf rf' rests)
        | inr (leads, term, ok, rest) ↦ inr (
          leads,
          term,
          ok,
          >>=-eq-some (raise_indices rf peer reached) check_and_commit_logs rest,
        )
      ]

module _ {C : Type 0} where
  -- What the success changes.
  pub raise_and_commit :
      (rf : Raft C) (peer reached : ℕ) (rf₁ rf' : Raft C)
      → raise_indices rf peer reached ≡ some rf₁
      → check_and_commit_logs rf₁ ≡ some rf'
      → (rf₁.logs ≡ rf.logs)
        × (rf₁.current_term ≡ rf.current_term)
        × (rf₁.peers ≡ rf.peers)
        × (rf₁.last_included_index ≡ rf.last_included_index)
        × (rf₁.commit_index ≡ rf.commit_index)
        × (rf'.logs ≡ rf.logs)
        × (rf'.state ≡ rf.state)
        × (rf'.current_term ≡ rf.current_term)
        × (rf'.last_included_index ≡ rf.last_included_index)
        × (rf'.match_index ≡ rf₁.match_index)
        × ((old : ℕ) × (get_elem? rf.match_index peer ≡ some old)
            × (rf₁.match_index ≡ set rf.match_index peer (max old reached)))
        × NoNew rf.events rf'.events
  unfolding raise_indices check_and_commit_logs Few
  raise_and_commit rf peer reached rf₁ rf' h c =
      let few : Few rf.events rf'.events = ground arith in
      let (old, at, rest) = >>=-eq-some (get_elem? rf.match_index peer) _ h in
      (
        ground arith,
        ground arith,
        ground arith,
        ground arith,
        ground arith,
        ground arith,
        ground arith,
        ground arith,
        ground arith,
        ground arith,
        (old, at, ground (arith, rest)),
        Few-NoNew rf.events rf'.events few,
      )
