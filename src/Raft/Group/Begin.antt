-- ===== src/Raft/Group/Begin.antt =====
-- The invariant of a Group holds where it begins.
use mit6_824_labs.Prelude.{
  ℕ, zero, suc, ◌≤◌, ◌<◌, ◌≡◌, ◌⊎◌, inl, inr, refl, sym, ap, [], ◌∷◌, some, some_inj, arith,
  length-replicate, get_elem?,
}
use mit6_824_labs.Raft.Types.{LogEntry, PersistentStatus}
use mit6_824_labs.Raft.Persist.{Codec, initial, make_persister}
use mit6_824_labs.Raft.Node.Valid.{IsValid}
use mit6_824_labs.Raft.Cluster.{begin as begin_cluster}
use mit6_824_labs.Raft.Cluster.Leaders.{begin-IsSafe}
use mit6_824_labs.Raft.Group.{begin}
use mit6_824_labs.Raft.Group.Past.{Past, Heads, IsGood, first_entry}
use mit6_824_labs.Raft.Group.Holds.{Holds, Stored}
use mit6_824_labs.Raft.Group.Coherent.{IsCoherent}

module _ {C : Type 0} where
  -- No leader yet; every log has the first entry.
  abbrev begin_heads : Heads C
  begin_heads zero = first_entry ∷ []
  begin_heads (suc t) = []

  abbrev pub begin_past : Past C
  begin_past = record { heads = begin_heads; acks = [] }

  first-IsGood : IsGood begin_heads 0 (first_entry ∷ [])
  first-IsGood = record { consistent = consistent; bounded = bounded; first = refl }
    where
      consistent :
          (i : ℕ) (x : LogEntry C)
          → get_elem? (first_entry {C = C} ∷ []) i ≡ some x
          → (j : ℕ) → j ≤ i
          → get_elem? (first_entry {C = C} ∷ []) j ≡ get_elem? (begin_heads x.term) j
      consistent zero x at j l =
          let one : x.term ≡ 0 = ap (λ y. y.term) (sym (some_inj at)) in
          ap (λ t. get_elem? (begin_heads t) j) (sym one)
      consistent (suc i) x at j l = absurd (ground (arith, at))

      bounded :
          (i : ℕ) (x : LogEntry C) → get_elem? (first_entry {C = C} ∷ []) i ≡ some x → x.term ≤ 0
      bounded zero x at =
          let one : x.term ≡ 0 = ap (λ y. y.term) (sym (some_inj at)) in omega (arith, one)
      bounded (suc i) x at = absurd (ground (arith, at))

module _ {C : Type 0} (gob : Codec (PersistentStatus C)) (n : ℕ) where
  begin-IsValid : (i : ℕ) → i < n → IsValid (initial gob n i make_persister)
  unfolding initial
  begin-IsValid i l = record {
    nonempty = omega arith;
    covered = omega arith;
    next_sized = length-replicate n _;
    match_sized = length-replicate n _;
    member = l;
  }

  begin-Holds : (i : ℕ) → Holds n begin_past i (initial gob n i make_persister)
  unfolding initial
  begin-Holds i = record {
    plain = refl;
    good = first-IsGood;
    heads = λ leads. absurd (ground (arith, leads));
    held = λ k a at. absurd (ground (arith, at));
    matches = λ leads. absurd (ground (arith, leads));
    commits = inl refl;
    sent = λ k j args at. absurd (ground (arith, at));
  }

  begin-Stored : Stored n (begin_past {C = C})
  begin-Stored = record { good = good; reached = λ k a at. absurd (ground (arith, at)) }
    where
      good : (t : ℕ) → (begin_heads {C = C} t ≡ []) ⊎ IsGood begin_heads t (begin_heads {C = C} t)
      good zero = inr first-IsGood
      good (suc t) = inl refl

  pub begin-IsCoherent : IsCoherent n (begin gob n) begin_past
  unfolding begin begin_cluster
  begin-IsCoherent = record {
    safe = begin-IsSafe gob n;
    valid = begin-IsValid;
    stored = begin-Stored;
    ledger = record {
      begun = λ k e at. absurd (ground (arith, at));
      won = λ u. inl refl;
      chosen = λ u. inl refl;
      asked = λ k j e args at. absurd (ground (arith, at));
      voted = λ k j e args at. absurd (ground (arith, at));
    };
    holds = begin-Holds;
    acknowledged = λ k a at. absurd (ground (arith, at));
  }
