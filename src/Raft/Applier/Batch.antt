-- ===== src/Raft/Applier/Batch.antt =====
-- What goes to the service, and in which order.
use mit6_824_labs.Prelude.{
  ℕ, zero, suc, ◌+◌, ◌-◌, ◌≤◌, ◌<◌, ◌≡◌, ◌≢◌, refl, ap, List, [], ◌∷◌, some, none, arith, length,
  get_elem?-some, dec_lt, >>=-eq-some, subst, some_inj, true,
}
use mit6_824_labs.Raft.Types.{Raft, ApplyMsg, LogEntry}
use mit6_824_labs.Raft.Log.{entry_at, real_log_len}
use mit6_824_labs.Raft.Applier.{collect, gather, begin_apply, end_apply, apply_batch, alone}

module _ {C : Type 0} where
  -- Messages with the indices from `i` on.
  abbrev pub Consecutive : ℕ → List (ApplyMsg C) → Type 0
  Consecutive i [] = Unit
  Consecutive i (m ∷ ms) = (m.command_index ≡ i) × Consecutive (suc i) ms

  -- Each message carries the command of the log entry that it names.
  abbrev pub Carries : Raft C → List (ApplyMsg C) → Type 0
  Carries rf [] = Unit
  Carries rf (m ∷ ms) =
      ((e : LogEntry C) × (entry_at rf m.command_index ≡ some e) × (m.command ≡ e.cmd))
      × Carries rf ms

  collect_lem :
      (rf : Raft C) (i n : ℕ) {msgs : List (ApplyMsg C)}
      → collect rf i n ≡ some msgs
      → Consecutive i msgs × Carries rf msgs × (length msgs ≡ n)
  unfolding collect
  collect_lem rf i zero {msgs} h =
      subst (λ ms. Consecutive i ms × Carries rf ms × (length ms ≡ 0)) (some_inj h) (tt, tt, refl)
  collect_lem rf i (suc n) {msgs} h =
      let (e, at, rest) = >>=-eq-some (entry_at rf i) _ h in
      let (ms, collected, whole) = >>=-eq-some (collect rf (suc i) n) _ rest in
      let (c, k, l) = collect_lem rf (suc i) n collected in
      subst (λ l. Consecutive i l × Carries rf l × (length l ≡ suc n)) (some_inj whole)
        ((refl, c), ((e, at, refl), k), ap suc l)

  -- Indices that rise strictly, the first above `low` and the last at most `high`.
  abbrev pub Rises : ℕ → ℕ → List (ApplyMsg C) → Type 0
  Rises low high [] = low ≤ high
  Rises low high (m ∷ ms) = (low < m.command_index) × Rises m.command_index high ms

  Rises-lower :
      (low low' high : ℕ) (ms : List (ApplyMsg C))
      → low' ≤ low
      → Rises low high ms
      → Rises low' high ms
  Rises-lower low low' high [] l r = omega arith
  Rises-lower low low' high (m ∷ ms) l (first, r) = (omega arith, r)

  -- Whatever the batch, and whatever other goroutines do to the peer before a message and around its
  -- send, as long as they never lower lastApplied: the indices of the messages that are sent rise
  -- strictly, from above lastApplied at the begin to at most lastApplied at the end. So no index is
  -- sent twice.
  pub sent_in_order :
      (others : ℕ → Raft C → Raft C) (rf : Raft C) (msgs : List (ApplyMsg C))
      → ((n : ℕ) (r : Raft C) → r.last_applied ≤ (others n r).last_applied)
      → Rises rf.last_applied
          (apply_batch others rf msgs).0.last_applied
          (apply_batch others rf msgs).1
  unfolding apply_batch begin_apply end_apply
  sent_in_order others rf [] up = omega arith
  sent_in_order others rf (msg ∷ msgs) up =
      let rest : ℕ → Raft C → Raft C = λ n. others (n + 2) in
      let found = others 0 rf in
      let go = record found { replicate_pre_snapshot = true } in
      let behind = end_apply (others 1 go) msg in
      let sent = apply_batch rest behind msgs in
      let unsent = apply_batch rest found msgs in
      ground (
        arith,
        up 0 rf,
        Rises-lower found.last_applied rf.last_applied unsent.0.last_applied unsent.1 (up 0 rf)
            (sent_in_order rest found msgs (λ n. up (n + 2))),
        Rises-lower behind.last_applied msg.command_index sent.0.last_applied sent.1 (omega arith)
            (sent_in_order rest behind msgs (λ n. up (n + 2))),
      )

  -- Without others, a consecutive batch that begins behind lastApplied is sent whole, and lastApplied
  -- counts it.
  pub batch_whole :
      (rf : Raft C) (msgs : List (ApplyMsg C))
      → Consecutive (rf.last_applied + 1) msgs
      → ((apply_batch alone rf msgs).1 ≡ msgs)
        × ((apply_batch alone rf msgs).0.last_applied ≡ rf.last_applied + length msgs)
  unfolding apply_batch begin_apply end_apply alone
  batch_whole rf [] c = (refl, omega arith)
  batch_whole rf (msg ∷ msgs) c =
      let go = record rf { replicate_pre_snapshot = true } in
      ground (arith, batch_whole (end_apply go msg) msgs)

  -- If no snapshot comes between, the batch that the applier gathers is sent whole: one message for
  -- each index from lastApplied + 1 to the commit index, in order, with the command that the log has
  -- there; and lastApplied ends at the commit index.
  pub gather_applies :
      (rf : Raft C) (msgs : List (ApplyMsg C))
      → gather rf ≡ some msgs
      → rf.last_applied ≤ rf.commit_index
      → ((apply_batch alone rf msgs).1 ≡ msgs)
        × Consecutive (rf.last_applied + 1) msgs
        × Carries rf msgs
        × (rf.last_applied + length msgs ≡ rf.commit_index)
        × ((apply_batch alone rf msgs).0.last_applied ≡ rf.commit_index)
  unfolding gather
  gather_applies rf msgs h le =
      let (c, k, l) = collect_lem rf (rf.last_applied + 1) (rf.commit_index - rf.last_applied) h in
      let (whole, counted) = batch_whole rf msgs c in
      (whole, c, k, omega (arith, l), omega (arith, l, counted))

  collect-ne-none :
      (rf : Raft C) (i n : ℕ)
      → rf.last_included_index ≤ i
      → i + n ≤ real_log_len rf
      → collect rf i n ≢ none
  unfolding collect
  collect-ne-none rf i zero h l e = cc
  collect-ne-none rf i (suc n) h l e =
      let (x, at) = get_elem?-some rf.logs (i - rf.last_included_index) (omega arith) in
      ground (arith, at, collect-ne-none rf (suc i) n)

  -- The gathering does not panic while the snapshot is applied and the commit index in the log.
  pub gather-ne-none :
      (rf : Raft C)
      → rf.last_included_index ≤ rf.last_applied
      → rf.commit_index < real_log_len rf
      → gather rf ≢ none
  unfolding gather collect
  gather-ne-none rf h l = elim (dec_lt rf.last_applied rf.commit_index) [
    | yes more ↦
        collect-ne-none rf (rf.last_applied + 1) (rf.commit_index - rf.last_applied) (omega arith)
          (omega arith)
    | no done ↦ let same : rf.commit_index - rf.last_applied ≡ 0 = omega arith in rw same (λ e. cc)
  ]
