-- ===== src/Raft/Group/Positions.antt =====
-- Logs by their positions: what AppendEntries makes of a follower's log when the message is a part of
-- another log.
use mit6_824_labs.Prelude.{
  ℕ, zero, suc, ◌+◌, ◌-◌, ◌≤◌, ◌<◌, ◌≡◌, ◌≢◌, ◌⊎◌, inl, inr, refl, sym, ap, ◌∙◌, List, [], ◌∷◌,
  ◌++◌, none, some, arith, length, get_elem?, take, drop, ◌==◌, ==_iff, Bool-cases, dec_lt,
  get_elem?-drop, get_elem?-take_append, get_elem?-take_append_right, get_elem?-none,
  lt_of_get_elem?,
}
use mit6_824_labs.Raft.Types.{LogEntry}
use mit6_824_labs.Raft.Append.Merge.{merge}

module _ {C : Type 0} where
  -- The same entries up to a position.
  abbrev pub Same : ℕ → List (LogEntry C) → List (LogEntry C) → Type 0
  Same m L M = (i : ℕ) → i ≤ m → get_elem? L i ≡ get_elem? M i

  -- Entries of the same term at the same position are the same.
  abbrev pub Fits : List (LogEntry C) → List (LogEntry C) → Type 0
  Fits L M =
      (i : ℕ) (a b : LogEntry C)
      → get_elem? L i ≡ some a
      → get_elem? M i ≡ some b
      → a.term ≡ b.term
      → a ≡ b

  merge-entries :
      (old es : List (LogEntry C)) (i : ℕ)
      → Fits old es
      → i < length es
      → get_elem? (merge old es) i ≡ get_elem? es i
  merge-entries old [] i fits l = absurd (omega arith)
  merge-entries [] (e ∷ es) i fits l = refl
  merge-entries (x ∷ old) (e ∷ es) i fits l = elim (Bool-cases (x.term == e.term)) [
    | inl same ↦ rw same (
        at_cons i x e (merge old es) es
          (fits 0 x e refl refl (ground (arith, same, ==_iff x.term e.term)))
          (λ j below. merge-entries old es j (λ k a b p q t. fits (suc k) a b p q t) below) l)
    | inr other ↦ rw other refl
  ]
    where
      at_cons :
          (i : ℕ) (x e : LogEntry C) (l es : List (LogEntry C))
          → x ≡ e
          → ((j : ℕ) → j < length es → get_elem? l j ≡ get_elem? es j)
          → i < suc (length es)
          → get_elem? (x ∷ l) i ≡ get_elem? (e ∷ es) i
      at_cons zero x e l es same rest below = ap some same
      at_cons (suc i) x e l es same rest below = rest i (omega arith)

  -- Nothing of the log is lost.
  abbrev Keeps : List (LogEntry C) → List (LogEntry C) → Type 0
  Keeps old es =
      ((i : ℕ) (x : LogEntry C) → get_elem? old i ≡ some x → get_elem? (merge old es) i ≡ some x)
      × ((i : ℕ) → length es ≤ i → get_elem? (merge old es) i ≡ get_elem? old i)

  -- The log is cut at the first entry of another term.
  abbrev Cuts : List (LogEntry C) → List (LogEntry C) → Type 0
  Cuts old es =
      (k : ℕ) × (a b : LogEntry C) × (get_elem? old k ≡ some a)
      × (get_elem? es k ≡ some b)
      × (a.term ≢ b.term)
      × ((i : ℕ) → i < k → get_elem? (merge old es) i ≡ get_elem? old i)
      × ((i : ℕ) → length es ≤ i → get_elem? (merge old es) i ≡ none)

  merge-cases : (old es : List (LogEntry C)) → Keeps old es ⊎ Cuts old es
  merge-cases old [] = inl (λ i x e. e, λ i l. refl)
  merge-cases [] (e ∷ es) = inl (λ i x h. absurd (ground arith), λ i l. get_elem?-none (e ∷ es) i l)
  merge-cases (x ∷ old) (e ∷ es) = elim (Bool-cases (x.term == e.term)) [
    | inr other ↦ rw other (
        inr (
          0,
          x,
          e,
          refl,
          refl,
          λ t. absurd (ground (arith, other, ==_iff x.term e.term)),
          λ i l. absurd (omega arith),
          λ i l. get_elem?-none (e ∷ es) i l,
        ))
    | inl same ↦ elim (merge-cases old es) [
      | inl (keeps, rest) ↦ rw same (inl (keeps_cons x old es keeps, rest_cons x old es rest))
      | inr (k, a, b, p, q, t, before, behind) ↦ rw same (
          inr (
            suc k,
            a,
            b,
            p,
            q,
            t,
            λ i l. before_cons x old es k i before l,
            λ i l. behind_cons x old es i behind l,
          ))
    ]
  ]
    where
      keeps_cons :
          (x : LogEntry C) (old es : List (LogEntry C))
          → ((i : ℕ) (y : LogEntry C)
              → get_elem? old i ≡ some y
              → get_elem? (merge old es) i ≡ some y)
          → (i : ℕ) (y : LogEntry C) → get_elem? (x ∷ old) i ≡ some y
          → get_elem? (x ∷ merge old es) i ≡ some y
      keeps_cons x old es keeps zero y h = h
      keeps_cons x old es keeps (suc i) y h = keeps i y h

      rest_cons :
          (x : LogEntry C) (old es : List (LogEntry C))
          → ((i : ℕ) → length es ≤ i → get_elem? (merge old es) i ≡ get_elem? old i)
          → (i : ℕ) → suc (length es) ≤ i
          → get_elem? (x ∷ merge old es) i ≡ get_elem? (x ∷ old) i
      rest_cons x old es rest zero l = refl
      rest_cons x old es rest (suc i) l = rest i (omega arith)

      before_cons :
          (x : LogEntry C) (old es : List (LogEntry C)) (k i : ℕ)
          → ((i : ℕ) → i < k → get_elem? (merge old es) i ≡ get_elem? old i)
          → i < suc k
          → get_elem? (x ∷ merge old es) i ≡ get_elem? (x ∷ old) i
      before_cons x old es k zero before l = refl
      before_cons x old es k (suc i) before l = before i (omega arith)

      behind_cons :
          (x : LogEntry C) (old es : List (LogEntry C)) (i : ℕ)
          → ((i : ℕ) → length es ≤ i → get_elem? (merge old es) i ≡ none)
          → suc (length es) ≤ i
          → get_elem? (x ∷ merge old es) i ≡ none
      behind_cons x old es zero behind l = absurd (omega arith)
      behind_cons x old es (suc i) behind l = behind i (omega arith)

  -- A log `L'` against the log `L` that it was, and the log `M` that it takes up to `last`.
  abbrev pub Grown : List (LogEntry C) → List (LogEntry C) → ℕ → Type 0
  Grown L L' last =
      ((i : ℕ) (x : LogEntry C) → get_elem? L i ≡ some x → get_elem? L' i ≡ some x)
      × ((i : ℕ) → last < i → get_elem? L' i ≡ get_elem? L i)

  abbrev pub Cut : List (LogEntry C) → List (LogEntry C) → List (LogEntry C) → ℕ → Type 0
  Cut L L' M last =
      (k : ℕ) × (a b : LogEntry C) × (k ≤ last)
      × (get_elem? L k ≡ some a)
      × (get_elem? M k ≡ some b)
      × (a.term ≢ b.term)
      × ((i : ℕ) → i < k → get_elem? L' i ≡ get_elem? L i)
      × ((i : ℕ) → last < i → get_elem? L' i ≡ none)

  -- The new log of a follower whose log agrees with `M` up to `prev`, and that takes the entries of
  -- `M` behind it.
  pub appended :
      (L M es : List (LogEntry C)) (prev : ℕ)
      → let k = prev + 1 in
        let L' = take k L ++ merge (drop k L) es in
        k ≤ length L
        → Same prev L M
        → Fits L M
        → ((x : ℕ) → x < length es → get_elem? es x ≡ get_elem? M (k + x))
        → Same (prev + length es) L' M
          × (Grown L L' (prev + length es) ⊎ Cut L L' M (prev + length es))
  appended L M es prev inside same fits entries =
      let k = prev + 1 in
      let tail = merge (drop k L) es in
      let fits' : Fits (drop k L) es = λ i a b p q t.
        fits (k + i) a b (sym (get_elem?-drop k L i) ∙ p)
          (sym (entries i (omega (arith, lt_of_get_elem? es i q))) ∙ q) t in
      (
        λ i l. elim (dec_lt i k) [
          | yes below ↦ get_elem?-take_append k L tail below inside ∙ same i (omega arith)
          | no above ↦
              let j = i - k in
              let at : k + j ≡ i = omega arith in
              rw (← at) (
                get_elem?-take_append_right k L tail j inside
                ∙ merge-entries (drop k L) es j fits' (omega arith)
                ∙ entries j (omega arith))
        ],
        elim (merge-cases (drop k L) es) [
          | inl (keeps, rest) ↦ inl (
            λ i x h. elim (dec_lt i k) [
              | yes below ↦ get_elem?-take_append k L tail below inside ∙ h
              | no above ↦
                  let j = i - k in
                  let at : k + j ≡ i = omega arith in
                  rw (← at) (
                    get_elem?-take_append_right k L tail j inside
                    ∙ keeps j x (get_elem?-drop k L j ∙ (rw (← at) at h)))
            ],
            λ i l.
                let j = i - k in
                let at : k + j ≡ i = omega arith in
                rw (← at) (
                  get_elem?-take_append_right k L tail j inside
                  ∙ rest j (omega arith)
                  ∙ get_elem?-drop k L j),
          )
          | inr (c, a, b, p, q, t, before, behind) ↦ inr (
            k + c,
            a,
            b,
            omega (arith, lt_of_get_elem? es c q),
            sym (get_elem?-drop k L c) ∙ p,
            sym (entries c (omega (arith, lt_of_get_elem? es c q))) ∙ q,
            t,
            λ i l. elim (dec_lt i k) [
              | yes below ↦ get_elem?-take_append k L tail below inside
              | no above ↦
                  let j = i - k in
                  let at : k + j ≡ i = omega arith in
                  rw (← at) (
                    get_elem?-take_append_right k L tail j inside
                    ∙ before j (omega arith)
                    ∙ get_elem?-drop k L j)
            ],
            λ i l.
                let j = i - k in
                let at : k + j ≡ i = omega arith in
                rw (← at) (get_elem?-take_append_right k L tail j inside ∙ behind j (omega arith)),
          )
        ],
      )
