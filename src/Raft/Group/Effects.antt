-- ===== src/Raft/Group/Effects.antt =====
-- What each handler leaves of the log, the commit index, the candidacy and the messages sent.
use mit6_824_labs.Prelude.{
  ℕ, zero, suc, ◌≡◌, ◌⊎◌, inl, inr, sym, ap, ◌∙◌, List, [], ◌∷◌, ◌++◌, Option, some, some_inj, Bool,
  true, false, arith, get_elem?, ◌==◌, if◌then◌else◌, Bool-cases, Option-cases, leb, ◌>>=◌,
  >>=-eq-some,
}
use mit6_824_labs.Prelude.Int.{ℤ, pos, negsuc}
use mit6_824_labs.Raft.Types.{Raft, Event, AppendEntriesArgs}
use mit6_824_labs.Raft.Log.{entry}
use mit6_824_labs.Raft.Leader.{
  snapshot_args, is_leader, append_args, message_for, messages, broadcast_heartbeat,
}
use mit6_824_labs.Raft.Leader.Replicate.{IsSuffix, append_args-IsSuffix}
use mit6_824_labs.Raft.Vote.{is_candidate}

-- The log and how far it is committed, of a peer without snapshots.
abbrev pub Steady : {C : Type 0} → Raft C → Raft C → Type 0
Steady rf rf' =
    (rf'.logs ≡ rf.logs)
    × (rf'.commit_index ≡ rf.commit_index)
    × (rf'.last_included_index ≡ rf.last_included_index)

-- No candidate, or one that was it in the same term.
abbrev pub Stands : {C : Type 0} → Raft C → Raft C → Type 0
Stands rf rf' =
    (is_candidate rf'.state ≡ false)
    ⊎ ((is_candidate rf.state ≡ true) × (rf'.current_term ≡ rf.current_term))

-- Every AppendEntries among the second events is among the first.
abbrev pub NoNew : {C : Type 0} → List (Event C) → List (Event C) → Type 0
NoNew {C} es es' =
    (k j : ℕ) (args : AppendEntriesArgs C)
    → get_elem? es' k ≡ some (Event.send_append_entries j args)
    → get_elem? es k ≡ some (Event.send_append_entries j args)

-- Or the peer leads, and the message is an end of its log.
abbrev pub Emits : {C : Type 0} → Raft C → Raft C → Type 0
Emits {C} rf rf' =
    (k j : ℕ) (args : AppendEntriesArgs C)
    → get_elem? rf'.events k ≡ some (Event.send_append_entries j args)
    → (get_elem? rf.events k ≡ some (Event.send_append_entries j args))
      ⊎ ((is_leader rf'.state ≡ true) × IsSuffix rf' args)

abbrev is_quiet : {C : Type 0} → Event C → Bool
is_quiet (Event.send_append_entries j args) = false
is_quiet event = true

abbrev pub all_quiet : {C : Type 0} → List (Event C) → Bool
all_quiet [] = true
all_quiet (event ∷ events) = let rest = all_quiet events in if is_quiet event then rest else false

module _ {C : Type 0} where
  -- Where an event behind an append comes from.
  get_elem?-append-origin :
      (l m : List (Event C)) (k : ℕ) (x : Event C)
      → get_elem? (l ++ m) k ≡ some x
      → (get_elem? l k ≡ some x) ⊎ ((i : ℕ) × (get_elem? m i ≡ some x))
  get_elem?-append-origin [] m k x h = inr (k, h)
  get_elem?-append-origin (y ∷ l) m zero x h = inl h
  get_elem?-append-origin (y ∷ l) m (suc k) x h = get_elem?-append-origin l m k x h

  all_quiet-at :
      (m : List (Event C)) (i j : ℕ) (args : AppendEntriesArgs C)
      → all_quiet m ≡ true
      → get_elem? m i ≡ some (Event.send_append_entries j args)
      → ⊥
  all_quiet-at [] i j args q h = ground arith
  all_quiet-at (x ∷ m) zero j args q h = ground (arith, ap is_quiet (some_inj h))
  all_quiet-at (x ∷ m) (suc i) j args q h = all_quiet-at m i j args (ground arith) h

  pub NoNew-append : (l m : List (Event C)) → all_quiet m ≡ true → NoNew l (l ++ m)
  NoNew-append l m q k j args h =
      elim (get_elem?-append-origin l m k (Event.send_append_entries j args) h) [
        | inl old ↦ old
        | inr (i, new) ↦ absurd (all_quiet-at m i j args q new)
      ]

  snapshot_other :
      (rf : Raft C) (i j : ℕ) (args : AppendEntriesArgs C)
      → (do e ← entry rf 0; some (Event.send_install_snapshot i (snapshot_args rf e.term)))
        ≡ some (Event.send_append_entries j args)
      → ⊥
  snapshot_other rf i j args h = elim (Option-cases (entry rf 0)) [
    | inl e ↦ ground (arith, h, e)
    | inr (x, e) ↦ let h' = rw e at h in ground (arith, ap is_quiet (some_inj h'))
  ]

  args_of_event :
      (rf : Raft C) (i n j : ℕ) (args : AppendEntriesArgs C)
      → (do a ← append_args rf n; some (Event.send_append_entries i a))
        ≡ some (Event.send_append_entries j args)
      → append_args rf n ≡ some args
  args_of_event rf i n j args h = ground (arith, Option-cases (append_args rf n))

  -- What a broadcast sends to a peer.
  message_for-IsSuffix :
      (rf : Raft C) (i j : ℕ) (args : AppendEntriesArgs C)
      → message_for rf i ≡ some (Event.send_append_entries j args)
      → IsSuffix rf args
  unfolding message_for
  message_for-IsSuffix rf i j args h =
      let (next, at, rest) = >>=-eq-some (get_elem? rf.next_index i) _ h in
      by_next rf i j args next rest
    where
      by_next :
          (rf : Raft C) (i j : ℕ) (args : AppendEntriesArgs C) (next : ℤ)
          → (elim next as (λ x. Option (Event C)) [
            | negsuc n ↦ (do
              e ← entry rf 0
              some (Event.send_install_snapshot i (snapshot_args rf e.term)))
            | pos n ↦
                if leb n rf.last_included_index
                then (do
                  e ← entry rf 0
                  some (Event.send_install_snapshot i (snapshot_args rf e.term)))
                else (do args ← append_args rf n; some (Event.send_append_entries i args))
          ])
            ≡ some (Event.send_append_entries j args)
          → IsSuffix rf args
      by_next rf i j args (negsuc n) h = absurd (snapshot_other rf i j args h)
      by_next rf i j args (pos n) h = elim (Bool-cases (leb n rf.last_included_index)) [
        | inl covered ↦ absurd (snapshot_other rf i j args (rw covered at h))
        | inr behind ↦
            append_args-IsSuffix rf n args (ground (arith, behind))
              (args_of_event rf i n j args (rw behind at h))
      ]

  -- Every AppendEntries of a broadcast is an end of the log.
  messages-IsSuffix :
      (rf : Raft C) (i n : ℕ) (ms : List (Event C)) (k j : ℕ) (args : AppendEntriesArgs C)
      → messages rf i n ≡ some ms
      → get_elem? ms k ≡ some (Event.send_append_entries j args)
      → IsSuffix rf args
  unfolding messages
  messages-IsSuffix rf i zero ms k j args h at =
      let none_sent : ms ≡ [] = ground (arith, h) in absurd (ground (arith, at, none_sent))
  messages-IsSuffix rf i (suc n) ms k j args h at = elim (Bool-cases (i == rf.me)) [
    | inl mine ↦ messages-IsSuffix rf (suc i) n ms k j args (rw mine at h) at
    | inr other ↦
        let (m, e, rest) = >>=-eq-some (message_for rf i) _ (rw other at h) in
        let (ms', e', last) = >>=-eq-some (messages rf (suc i) n) _ rest in
        in_cons rf i k m ms' j args e (rw (← some_inj last) at at)
          (λ k' at'. messages-IsSuffix rf (suc i) n ms' k' j args e' at')
  ]
    where
      in_cons :
          (rf : Raft C) (i k : ℕ) (m : Event C) (ms : List (Event C)) (j : ℕ)
          (args : AppendEntriesArgs C)
          → message_for rf i ≡ some m
          → get_elem? (m ∷ ms) k ≡ some (Event.send_append_entries j args)
          → ((k : ℕ) → get_elem? ms k ≡ some (Event.send_append_entries j args) → IsSuffix rf args)
          → IsSuffix rf args
      in_cons rf i zero m ms j args e at rest = message_for-IsSuffix rf i j args (e ∙ at)
      in_cons rf i (suc k) m ms j args e at rest = rest k at

  -- An end of the log is one whatever is sent.
  IsSuffix-events :
      (rf : Raft C) (args : AppendEntriesArgs C) (es : List (Event C))
      → IsSuffix rf args
      → IsSuffix (record rf { events = es }) args
  IsSuffix-events rf args es s = record {
    term_before = s.term_before;
    reaches_end = s.reaches_end;
    same_entries = s.same_entries;
    own_term = s.own_term;
    own_commit = s.own_commit;
  }

  -- A broadcast of a leader, with quiet events behind it.
  pub broadcast-Emits :
      (rf rf' : Raft C) (m : List (Event C))
      → is_leader rf.state ≡ true
      → broadcast_heartbeat rf ≡ some rf'
      → all_quiet m ≡ true
      → Emits rf (record rf' { events = rf'.events ++ m })
  unfolding broadcast_heartbeat
  broadcast-Emits rf rf' m leads h q k j args at =
      let (ms, e, last) = >>=-eq-some (messages rf 0 rf.peers) _ h in
      let same : rf' ≡ record rf { events = rf.events ++ ms } = sym (some_inj last) in
      elim (get_elem?-append-origin (rf.events ++ ms) m k (Event.send_append_entries j args)
        (rw same at at)) [
          | inr (i, new) ↦ absurd (all_quiet-at m i j args q new)
          | inl sent ↦
              elim (get_elem?-append-origin rf.events ms k (Event.send_append_entries j args)
                sent) [
                  | inl old ↦ inl old
                  | inr (i, new) ↦ inr (
                    ground (arith, same, leads),
                    rw same (
                        IsSuffix-events rf args _
                          (messages-IsSuffix rf 0 rf.peers ms i j args e new)),
                  )
                ]
        ]
