-- ===== src/Raft/Append/Merge.antt =====
-- The loop of AppendEntries over args.Entries against a reference: the merge of the log behind
-- the matching entry with the entries of the message.
use mit6_824_labs.Prelude.{
  ℕ, zero, suc, ◌≤◌, ◌≡◌, refl, sym, ap, ◌∙◌, append-nil, append_assoc, length-append, List, [],
  ◌∷◌, ◌++◌, none, length, get_elem?, take, drop, ◌==◌, if◌then◌else◌, arith, Bool-cases, inl, inr,
}
use mit6_824_labs.Raft.Types.{LogEntry}
use mit6_824_labs.Raft.Append.{copy_entry, copy_entries}

module _ {C : Type 0} where
  -- The log behind the matching entry: kept while the terms agree, replaced from the first entry
  -- of another term on, extended at its end.
  abbrev pub merge : List (LogEntry C) → List (LogEntry C) → List (LogEntry C)
  merge logs [] = logs
  merge [] (e ∷ es) = e ∷ es
  merge (old ∷ logs) (e ∷ es) =
      let rest = merge logs es in if old.term == e.term then old ∷ rest else e ∷ es

  get_elem?-length : (logs : List (LogEntry C)) → get_elem? logs (length logs) ≡ none
  get_elem?-length [] = refl
  get_elem?-length (x ∷ logs) = get_elem?-length logs

  copy_entry-end :
      (logs : List (LogEntry C)) (e : LogEntry C) → copy_entry logs (length logs) e ≡ logs ++ e ∷ []
  unfolding copy_entry
  copy_entry-end logs e = ground (arith, get_elem?-length logs)

  -- At its end the log takes the rest of the message.
  copy_entries-end : (logs es : List (LogEntry C)) → copy_entries logs (length logs) es ≡ logs ++ es
  unfolding copy_entries
  copy_entries-end logs [] = sym (append-nil logs)
  copy_entries-end logs (e ∷ es) =
      rw
        (
          copy_entry-end logs e,
          ← append_assoc logs (e ∷ []) es,
          ← copy_entries-end (logs ++ e ∷ []) es,
        )
        (ap (λ n. copy_entries (logs ++ e ∷ []) n es) (omega (arith, length-append logs (e ∷ []))))

  copy_entry-cons :
      (x : LogEntry C) (logs : List (LogEntry C)) (i : ℕ) (e : LogEntry C)
      → copy_entry (x ∷ logs) (suc i) e ≡ x ∷ copy_entry logs i e
  unfolding copy_entry
  copy_entry-cons x logs i e = ground arith

  -- An entry in front stays in front.
  copy_entries-cons :
      (x : LogEntry C) (logs es : List (LogEntry C)) (i : ℕ)
      → copy_entries (x ∷ logs) (suc i) es ≡ x ∷ copy_entries logs i es
  unfolding copy_entries
  copy_entries-cons x logs [] i = refl
  copy_entries-cons x logs (e ∷ es) i =
      rw (copy_entry-cons x logs i e) (copy_entries-cons x (copy_entry logs i e) es (suc i))

  copy_entries-zero : (logs es : List (LogEntry C)) → copy_entries logs 0 es ≡ merge logs es
  unfolding copy_entries copy_entry
  copy_entries-zero [] [] = refl
  copy_entries-zero (old ∷ logs) [] = refl
  copy_entries-zero [] (e ∷ es) = copy_entries-end (e ∷ []) es
  copy_entries-zero (old ∷ logs) (e ∷ es) = elim (Bool-cases (old.term == e.term)) [
    | inl same ↦
        rw same (copy_entries-cons old logs es 0 ∙ ap (◌∷◌ old) (copy_entries-zero logs es))
    | inr other ↦ rw other (copy_entries-end (e ∷ []) es)
  ]

  -- From a position inside the log or at its end, the loop leaves what stands before the position
  -- and merges the rest of the log with the entries of the message.
  pub copy_entries-merge :
      (logs es : List (LogEntry C)) (i : ℕ)
      → i ≤ length logs
      → copy_entries logs i es ≡ take i logs ++ merge (drop i logs) es
  copy_entries-merge logs es zero h = copy_entries-zero logs es
  copy_entries-merge [] es (suc i) h = absurd (omega arith)
  copy_entries-merge (x ∷ logs) es (suc i) h =
      copy_entries-cons x logs es i ∙ ap (◌∷◌ x) (copy_entries-merge logs es i (omega arith))
