-- ===== src/Raft/Group/Applied.antt =====
-- What the appliers of several peers of src/raft hand to their services.
use mit6_824_labs.Prelude.{
  ℕ, zero, suc, ◌+◌, ◌-◌, ◌≤◌, ◌<◌, ◌≡◌, sym, ap, ◌∙◌, List, [], ◌∷◌, some, some_inj, arith,
  get_elem?, >>=-eq-some,
}
use mit6_824_labs.Raft.Types.{Raft, LogEntry, ApplyMsg, PersistentStatus}
use mit6_824_labs.Raft.Log.{entry_at}
use mit6_824_labs.Raft.Persist.{Codec}
use mit6_824_labs.Raft.Applier.{collect, gather, command_msg}
use mit6_824_labs.Raft.Group.{Group, begin, Steps}
use mit6_824_labs.Raft.Group.Safety.{state_machine_safety}

module _ {C : Type 0} where
  collected_at :
      (rf : Raft C) (i r p : ℕ) (msgs : List (ApplyMsg C)) (m : ApplyMsg C)
      → collect rf i r ≡ some msgs
      → get_elem? msgs p ≡ some m
      → (p < r) × ((e : LogEntry C) × (entry_at rf (i + p) ≡ some e) × (m ≡ command_msg e (i + p)))
  unfolding collect
  collected_at rf i zero p msgs m h at =
      let none_left : msgs ≡ [] = sym (some_inj h) in
      let at' = rw none_left at at in absurd (ground (arith, at'))
  collected_at rf i (suc r) p msgs m h at =
      let (e, here, rest) = >>=-eq-some (entry_at rf i) _ h in
      let (ms, more, whole) = >>=-eq-some (collect rf (suc i) r) _ rest in
      by_position rf i r p e ms m here (λ q. collected_at rf (suc i) r q ms m more)
        (ap (λ l. get_elem? l p) (some_inj whole) ∙ at)
    where
      by_position :
          (rf : Raft C) (i r p : ℕ) (e : LogEntry C) (ms : List (ApplyMsg C)) (m : ApplyMsg C)
          → entry_at rf i ≡ some e
          → ((q : ℕ)
              → get_elem? ms q ≡ some m
              → (q < r)
                × ((x : LogEntry C) × (entry_at rf (suc i + q) ≡ some x)
                    × (m ≡ command_msg x (suc i + q))))
          → get_elem? (command_msg e i ∷ ms) p ≡ some m
          → (p < suc r)
            × ((x : LogEntry C) × (entry_at rf (i + p) ≡ some x) × (m ≡ command_msg x (i + p)))
      by_position rf i r zero e ms m here tail at =
          let stays : i + 0 ≡ i = omega arith in
          (
            omega arith,
            (
              e,
              ap (λ k. entry_at rf k) stays ∙ here,
              sym (some_inj at) ∙ ap (λ k. command_msg e k) (sym stays),
            ),
          )
      by_position rf i r (suc p) e ms m here tail at =
          let (inside, (x, there, same)) = tail p at in
          let shift : suc i + p ≡ i + suc p = omega arith in
          (
            omega arith,
            (
              x,
              ap (λ k. entry_at rf k) (sym shift) ∙ there,
              same ∙ ap (λ k. command_msg x k) shift,
            ),
          )

  -- A message of a batch is about a committed entry.
  gathered_at :
      (rf : Raft C) (p : ℕ) (msgs : List (ApplyMsg C)) (m : ApplyMsg C)
      → gather rf ≡ some msgs
      → get_elem? msgs p ≡ some m
      → (k : ℕ) × (e : LogEntry C) × (k ≤ rf.commit_index)
        × (entry_at rf k ≡ some e)
        × (m ≡ command_msg e k)
  unfolding gather
  gathered_at rf p msgs m h at =
      let (inside, (e, there, same)) =
        collected_at rf (rf.last_applied + 1) (rf.commit_index - rf.last_applied) p msgs m h at in
      (rf.last_applied + 1 + p, e, omega arith, there, same)

module _ {C : Type 0} (gob : Codec (PersistentStatus C)) (n : ℕ) where
  -- Among peers that began with empty storage and do not restart or take snapshots, whatever messages
  -- are lost, delayed, reordered or delivered again: of a batch that one peer's applier collects, and
  -- of one that any peer's collects then or later, two messages with the same index are the same.
  pub applied_same :
      (s s' : Group C) (i j p p' : ℕ) (msgs msgs' : List (ApplyMsg C)) (m m' : ApplyMsg C)
      → Steps gob n (begin gob n) s
      → Steps gob n s s'
      → gather (s.cluster.peers i) ≡ some msgs
      → gather (s'.cluster.peers j) ≡ some msgs'
      → get_elem? msgs p ≡ some m
      → get_elem? msgs' p' ≡ some m'
      → m.command_index ≡ m'.command_index
      → m ≡ m'
  applied_same s s' i j p p' msgs msgs' m m' steps later h h' at at' same =
      let rf = s.cluster.peers i in
      let rf' = s'.cluster.peers j in
      let (k, e, below, here, is_m) = gathered_at rf p msgs m h at in
      let (k', e', below', here', is_m') = gathered_at rf' p' msgs' m' h' at' in
      let one : k ≡ k' =
        ap (λ x. x.command_index) (sym is_m) ∙ same ∙ ap (λ x. x.command_index) is_m' in
      let (x, mine, its) =
        state_machine_safety gob n s s' i j k steps later below (omega (arith, one)) in
      let e_is : e ≡ x = some_inj (sym here ∙ mine) in
      let e'_is : e' ≡ x = some_inj (sym here' ∙ ap (λ l. entry_at rf' l) (sym one) ∙ its) in
      is_m
      ∙ ap (λ y. command_msg y k) (e_is ∙ sym e'_is)
      ∙ ap (λ l. command_msg e' l) one
      ∙ sym is_m'
