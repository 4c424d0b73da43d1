-- ===== src/Raft/Group/Acknowledge.antt =====
-- How a past grows by what a peer of a Group has taken.
use mit6_824_labs.Prelude.{
  ℕ, ◌+◌, ◌-◌, ◌<◌, ◌≡◌, inl, inr, refl, sym, ap, ◌∙◌, List, [], ◌∷◌, ◌++◌, some, arith, length,
  get_elem?, get_elem?-some, dec_lt, lt_of_get_elem?,
}
use mit6_824_labs.Raft.Types.{AppendEntriesArgs}
use mit6_824_labs.Raft.Cluster.Fair.{get_elem?-append-cases, get_elem?-append_left}
use mit6_824_labs.Raft.Group.Past.{Past, term_of-some}
use mit6_824_labs.Raft.Group.Holds.{IsPart, HasAck, Stored, Extends}

abbrev pub acknowledge : {C : Type 0} → Past C → ℕ → ℕ → ℕ → Past C
acknowledge past voter term reached = record past {
  acks = past.acks ++ record { voter = voter; term = term; reached = reached } ∷ [];
}

module _ {C : Type 0} (n : ℕ) where
  pub Extends-acknowledge :
      (past : Past C) (voter term reached : ℕ)
      → Extends n past (acknowledge past voter term reached) voter term
  Extends-acknowledge past voter term reached = record {
    grows = λ t j x at. at;
    kept = λ k a at. get_elem?-append_left past.acks _ k a at;
    fresh = λ k a at. elim (get_elem?-append-cases past.acks _ k a at) [
      | inl (_, new) ↦ inr (ap (λ x. x.voter) new, ap (λ x. x.term) new)
      | inr old ↦ inl old
    ];
  }

  pub HasAck-acknowledge :
      (past : Past C) (voter term reached : ℕ)
      → HasAck n (acknowledge past voter term reached) voter term reached
  HasAck-acknowledge past voter term reached =
      (length past.acks, _, at_end past.acks _, refl, refl, omega arith)
    where
      at_end : {A : Type 0} → (l : List A) (x : A) → get_elem? (l ++ x ∷ []) (length l) ≡ some x
      at_end [] x = refl
      at_end (y ∷ l) x = at_end l x

  pub Stored-acknowledge :
      (past : Past C) (voter term reached : ℕ)
      → Stored n past
      → reached < length (past.heads term)
      → Stored n (acknowledge past voter term reached)
  Stored-acknowledge past voter term reached v l = record {
    good = v.good;
    reached = λ k a at. elim (get_elem?-append-cases past.acks _ k a at) [
      | inl (_, new) ↦ rw new l
      | inr old ↦ v.reached k a old
    ];
  }

  -- A message lies in the log that it is a part of.
  pub IsPart-inside :
      (past : Past C) (args : AppendEntriesArgs C)
      → IsPart n past args
      → args.prev_log_index + length args.entries < length (past.heads args.term)
  IsPart-inside past args p = elim (dec_lt 0 (length args.entries)) [
    | yes more ↦
        let last = length args.entries - 1 in
        let (x, at) = get_elem?-some args.entries last (omega arith) in
        omega (
          arith,
          lt_of_get_elem? (past.heads args.term) (args.prev_log_index + 1 + last)
              (sym (p.same_entries last (omega arith)) ∙ at),
        )
    | no none_sent ↦
        let (x, at, x_term) =
          term_of-some (past.heads args.term) args.prev_log_index args.prev_log_term
            p.term_before in
        omega (arith, lt_of_get_elem? (past.heads args.term) args.prev_log_index at)
  ]
