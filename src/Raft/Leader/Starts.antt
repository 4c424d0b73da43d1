-- ===== src/Raft/Leader/Starts.antt =====
-- What Start does with a command.
use mit6_824_labs.Prelude.{
  ℕ, zero, suc, ◌+◌, ◌-◌, ◌<◌, ◌≡◌, refl, List, [], ◌∷◌, ◌++◌, some, Bool, true, length, get_elem?,
  arith, length-append, Option-cases, inl, inr,
}
use mit6_824_labs.Prelude.Int.{ℤ, pos}
use mit6_824_labs.Raft.Types.{Raft, LogEntry, PersistentStatus}
use mit6_824_labs.Raft.Log.{entry_at, real_log_len}
use mit6_824_labs.Raft.Persist.{Codec, persist}
use mit6_824_labs.Raft.Persist.Frame.{persist_frame}
use mit6_824_labs.Raft.Leader.{start, is_leader}

get_elem?-append_last :
    {A : Type 0} (l : List A) (x : A) → get_elem? (l ++ x ∷ []) (length l) ≡ some x
get_elem?-append_last [] x = refl
get_elem?-append_last (y ∷ l) x = get_elem?-append_last l x

get_elem?-append_before :
    {A : Type 0} (l : List A) (x : A) (i : ℕ)
    → i < length l
    → get_elem? (l ++ x ∷ []) i ≡ get_elem? l i
get_elem?-append_before [] x i h = absurd (omega arith)
get_elem?-append_before (y ∷ l) x zero h = refl
get_elem?-append_before (y ∷ l) x (suc i) h = get_elem?-append_before l x i (omega arith)

module _ {C : Type 0} (gob : Codec (PersistentStatus C)) where
  -- Start at a leader answers with the index behind its log and its term, and leaves the command at
  -- that index in that term behind all earlier entries.
  pub start_appends :
      (rf : Raft C) (command : C) (rf' : Raft C) (index term : ℤ) (leads : Bool)
      → start gob rf command ≡ some (rf', (index, term, leads))
      → is_leader rf.state ≡ true
      → (leads ≡ true)
        × (index ≡ pos (real_log_len rf))
        × (term ≡ pos rf.current_term)
        × (entry_at rf' (real_log_len rf)
            ≡ some (record { term = rf.current_term; cmd = some command }))
        × (real_log_len rf' ≡ real_log_len rf + 1)
        × ((i : ℕ) → i < real_log_len rf → entry_at rf' i ≡ entry_at rf i)
  unfolding start
  start_appends rf command rf' index term leads h leader =
      let new : LogEntry C = record { term = rf.current_term; cmd = some command } in
      let grown = record rf { logs = rf.logs ++ new ∷ [] } in
      elim (Option-cases (persist gob grown)) [
        | inl bad ↦ absurd (ground arith)
        | inr (r, e) ↦
            let frame = persist_frame gob grown e in
            (
              ground (arith, e),
              ground (arith, e, frame, length-append rf.logs (new ∷ [])),
              ground (arith, e, frame),
              ground (arith, e, frame, get_elem?-append_last rf.logs new),
              ground (arith, e, frame, length-append rf.logs (new ∷ [])),
              λ i before. ground (
                arith,
                e,
                frame,
                get_elem?-append_before rf.logs new (i - rf.last_included_index),
              ),
            )
      ]
