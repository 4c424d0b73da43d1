-- ===== src/Raft/Group/Broadcasting.antt =====
-- What the loops that broadcast, and a candidate that wins, leave of the log and send.
use mit6_824_labs.Prelude.{
  ◌≡◌, inl, inr, refl, sym, ap, ◌∙◌, List, [], ◌∷◌, ◌++◌, append-nil, append_assoc, some, some_inj,
  true, arith, Bool-cases, set, >>=-eq-some, replicate,
}
use mit6_824_labs.Raft.Types.{Raft, Role, PersistentStatus, Event}
use mit6_824_labs.Raft.Log.{last_log_index}
use mit6_824_labs.Raft.Persist.{Codec}
use mit6_824_labs.Raft.Leader.{
  is_leader, broadcast_heartbeat, heartbeat_event, add_log_event, initialize_leader,
}
use mit6_824_labs.Raft.Vote.{become_leader}
use mit6_824_labs.Raft.Group.Effects.{Steady, Emits, all_quiet, broadcast-Emits}

module _ {C : Type 0} (gob : Codec (PersistentStatus C)) where
  -- The loops that broadcast: nothing, or messages of a leader.
  abbrev pub Broadcasts : Raft C → Raft C → Type 0
  Broadcasts rf rf' =
      Steady rf rf'
      × (rf'.match_index ≡ rf.match_index)
      × (rf'.state ≡ rf.state)
      × (rf'.current_term ≡ rf.current_term)
      × Emits rf rf'

  pub broadcast_keeps :
      (rf rf₁ : Raft C)
      → broadcast_heartbeat rf ≡ some rf₁
      → rf₁ ≡ record rf { events = rf₁.events }
  unfolding broadcast_heartbeat
  broadcast_keeps rf rf₁ e = ground arith

  broadcast-Broadcasts :
      (rf rf₁ : Raft C) (m : List (Event C))
      → is_leader rf.state ≡ true
      → broadcast_heartbeat rf ≡ some rf₁
      → all_quiet m ≡ true
      → Broadcasts rf (record rf₁ { events = rf₁.events ++ m })
  broadcast-Broadcasts rf rf₁ m leads e q =
      let kept = broadcast_keeps rf rf₁ e in
      (
        ground (arith, kept),
        ground (arith, kept),
        ground (arith, kept),
        ground (arith, kept),
        broadcast-Emits rf rf₁ m leads e q,
      )

  no_Broadcasts : (rf : Raft C) → Broadcasts rf rf
  no_Broadcasts rf = ((refl, refl, refl), refl, refl, refl, λ k j args at. inl at)

  pub heartbeat_event-Broadcasts :
      (rf rf' : Raft C) → heartbeat_event rf ≡ some rf' → Broadcasts rf rf'
  unfolding heartbeat_event
  heartbeat_event-Broadcasts rf rf' h = elim (Bool-cases (is_leader rf.state)) [
    | inl leads ↦
        let (rf₁, e, last) = >>=-eq-some (broadcast_heartbeat rf) _ (rw leads at h) in
        rw (← some_inj last)
          (broadcast-Broadcasts rf rf₁ (Event.reset_election_timer ∷ []) leads e refl)
    | inr follows ↦ let same : rf' ≡ rf = ground (arith, h, follows) in rw same (no_Broadcasts rf)
  ]

  pub add_log_event-Broadcasts : (rf rf' : Raft C) → add_log_event rf ≡ some rf' → Broadcasts rf rf'
  unfolding add_log_event
  add_log_event-Broadcasts rf rf' h = elim (Bool-cases (is_leader rf.state)) [
    | inl leads ↦
        let (rf₁, e, last) = >>=-eq-some (broadcast_heartbeat rf) _ (rw leads at h) in
        let two = Event.reset_election_timer ∷ Event.reset_heartbeat_ticker ∷ [] in
        let joined : rf' ≡ record rf₁ { events = rf₁.events ++ two } =
          sym (some_inj last)
          ∙ ap (λ es. record rf₁ { events = es })
              (append_assoc rf₁.events (Event.reset_election_timer ∷ [])
                (Event.reset_heartbeat_ticker ∷ [])) in
        rw joined (broadcast-Broadcasts rf rf₁ two leads e refl)
    | inr follows ↦ let same : rf' ≡ rf = ground (arith, h, follows) in rw same (no_Broadcasts rf)
  ]

  -- A candidate that has won: its indices, and its first messages.
  abbrev pub Wins : Raft C → Raft C → Type 0
  Wins rf rf' =
      Steady rf rf'
      × (rf'.state ≡ Role.leader)
      × (rf'.current_term ≡ rf.current_term)
      × (rf'.match_index
          ≡ set (replicate rf.peers rf.last_included_index) rf.me (last_log_index rf))
      × Emits rf rf'

  pub become_leader-Wins : (rf rf' : Raft C) → become_leader rf ≡ some rf' → Wins rf rf'
  unfolding become_leader initialize_leader
  become_leader-Wins rf rf' h =
      let led : Raft C = record rf { state = Role.leader } in
      let (rf₁, e, last) = >>=-eq-some (initialize_leader led) _ h in
      let set_up : rf₁ ≡ record led {
        match_index = set (replicate rf.peers rf.last_included_index) rf.me (last_log_index rf);
        next_index = rf₁.next_index;
      } =
        ground (arith, e) in
      let kept = broadcast_keeps rf₁ rf' last in
      let leads : is_leader rf₁.state ≡ true = ground (arith, set_up) in
      let sent = broadcast-Emits rf₁ rf' [] leads last refl in
      let whole : rf' ≡ record rf' { events = rf'.events ++ [] } =
        ap (λ es. record rf' { events = es }) (sym (append-nil rf'.events)) in
      (
        ground (arith, kept, set_up),
        ground (arith, kept, set_up),
        ground (arith, kept, set_up),
        ground (arith, kept, set_up),
        λ k j args at.
            let events : rf₁.events ≡ rf.events = ground (arith, set_up) in
            rw whole (rw events at (sent k j args (rw whole at at))),
      )
