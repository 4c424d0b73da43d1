-- ===== src/Raft/Group/Bookings.antt =====
-- What the elections of a Group have to do with the past, when one of them is written.
use mit6_824_labs.Prelude.{
  ℕ, suc, ◌≤◌, ◌<◌, ◌≡◌, inl, inr, sym, ◌∙◌, List, [], ◌∷◌, ◌++◌, some, true, false, arith,
  get_elem?, set,
}
use mit6_824_labs.Raft.Types.{Raft, RequestVoteArgs, PersistentStatus}
use mit6_824_labs.Raft.Persist.{Codec}
use mit6_824_labs.Raft.Cluster.{Election}
use mit6_824_labs.Raft.Cluster.Fair.{granted, get_elem?-set-cases, get_elem?-append-cases}
use mit6_824_labs.Raft.Cluster.Moves.{Elected-append}
use mit6_824_labs.Raft.Cluster.Replies.{Elected-set}
use mit6_824_labs.Raft.Group.Past.{Past}
use mit6_824_labs.Raft.Group.Ledger.{Ledger, Supports, EndsWith, request_of}

module _ {C : Type 0} (n : ℕ) where
  module _ (gob : Codec (PersistentStatus C)) (peers : ℕ → Raft C) (elections : List Election)
      (past : Past C) (v : Ledger n peers elections past) where
    -- An election is written back.
    pub Ledger-set :
        (k : ℕ) (e e' : Election)
        → get_elem? elections k ≡ some e
        → e'.candidate ≡ e.candidate
        → e'.term ≡ e.term
        → e.count ≤ e'.count
        → ((j : ℕ) → request_of (e'.calls j) ≡ request_of (e.calls j))
        → ((j : ℕ) (args : RequestVoteArgs)
            → request_of (e'.calls j) ≡ some args
            → granted (e'.calls j) ≡ true
            → Supports n past e'.term j args)
        → Ledger n peers (set elections k e') past
    Ledger-set k e e' at candidate term more requests supports = record {
      begun = λ k₁ e₁ at₁. elim (get_elem?-set-cases elections k e' k₁ e₁ at₁) [
        | inr (other, old) ↦ v.begun k₁ e₁ old
        | inl (here, same) ↦ rw (same, term) (v.begun k e at)
      ];
      won = λ u. elim (v.won u) [
        | inl gone ↦ inl gone
        | inr (c, elected, how) ↦
            inr
              (c, Elected-set gob n elections k e e' c (suc u) at candidate term more elected, how)
      ];
      chosen = v.chosen;
      asked = λ k₁ j e₁ args at₁ request. elim (get_elem?-set-cases elections k e' k₁ e₁ at₁) [
        | inr (other, old) ↦ v.asked k₁ j e₁ args old request
        | inl (here, same) ↦
            let request' = rw same at request in
            rw (same, candidate, term) (v.asked k j e args at (sym (requests j) ∙ request'))
      ];
      voted = λ k₁ j e₁ args at₁ request given.
          elim (get_elem?-set-cases elections k e' k₁ e₁ at₁) [
            | inr (other, old) ↦ v.voted k₁ j e₁ args old request given
            | inl (here, same) ↦
                let request' = rw same at request in
                let given' = rw same at given in rw same (supports j args request' given')
          ];
    }

    -- An election begins.
    pub Ledger-append :
        (e : Election)
        → 0 < e.term
        → ((j : ℕ) (args : RequestVoteArgs)
            → request_of (e.calls j) ≡ some args
            → EndsWith n (peers e.candidate).logs args)
        → ((j : ℕ) → granted (e.calls j) ≡ false)
        → Ledger n peers (elections ++ e ∷ []) past
    Ledger-append e positive ends none_given = record {
      begun = λ k e₁ at. elim (get_elem?-append-cases elections e k e₁ at) [
        | inr old ↦ v.begun k e₁ old
        | inl (_, new) ↦ rw new positive
      ];
      won = λ u. elim (v.won u) [
        | inl gone ↦ inl gone
        | inr (c, elected, how) ↦ inr (c, Elected-append gob n elections e c (suc u) elected, how)
      ];
      chosen = v.chosen;
      asked = λ k j e₁ args at request stands term.
          elim (get_elem?-append-cases elections e k e₁ at) [
            | inr old ↦ v.asked k j e₁ args old request stands term
            | inl (_, new) ↦ let request' = rw new at request in rw new (ends j args request')
          ];
      voted = λ k j e₁ args at request given. elim (get_elem?-append-cases elections e k e₁ at) [
        | inr old ↦ v.voted k j e₁ args old request given
        | inl (_, new) ↦
            let given' = rw new at given in absurd (ground (arith, none_given j, given'))
      ];
    }
