-- ===== src/Mr/Grouping/Laws.antt =====
-- What the loop puts out for a key.
use Prim.Native.String.{String}
use mathlib.Core.List.Permᴰ
use mathlib.Core.List.{Permᴰ}
use mit6_824_labs.Prelude.{
  ℕ, zero, suc, ◌≤◌, ◌≡◌, refl, ap, List, [], ◌∷◌, true, false, length, if◌then◌else◌, arith,
  Bool-cases, inl, inr,
}
use mit6_824_labs.GoMap.{string_eq, ◌==◌}
use mit6_824_labs.Raft.Types.{Bytes}
use mit6_824_labs.Mr.Keys.{KeyValue, less, less_other}
use mit6_824_labs.Mr.Grouping.{run_values, behind_run, aggregate}

-- Reordered lists are empty together.
abbrev IsEmpty : List String → Type 0
IsEmpty [] = Unit
IsEmpty (v ∷ vs) = ⊥

IsEmpty-Permᴰ :
    {vs ws : List String} → Permᴰ vs ws → (IsEmpty vs → IsEmpty ws) × (IsEmpty ws → IsEmpty vs)
IsEmpty-Permᴰ Permᴰ.nil = (λ e. e, λ e. e)
IsEmpty-Permᴰ (Permᴰ.cons e p) = (λ e. e, λ e. e)
IsEmpty-Permᴰ (Permᴰ.swap e f) = (λ e. e, λ e. e)
IsEmpty-Permᴰ (Permᴰ.trans p q) =
    let (p₀, p₁) = IsEmpty-Permᴰ p in
    let (q₀, q₁) = IsEmpty-Permᴰ q in (λ e. q₀ (p₀ e), λ e. p₁ (q₁ e))

Permᴰ-nil-cons : {w : String} {ws : List String} → Permᴰ [] (w ∷ ws) → ⊥
Permᴰ-nil-cons p = (IsEmpty-Permᴰ p).0 tt

Permᴰ-cons-nil : {v : String} {vs : List String} → Permᴰ (v ∷ vs) [] → ⊥
Permᴰ-cons-nil p = (IsEmpty-Permᴰ p).1 tt

-- The values of a key, in order.
abbrev pub values_of : String → List KeyValue → List String
values_of key [] = []
values_of key (kv ∷ kvs) =
    let rest = values_of key kvs in if kv.key == key then kv.value ∷ rest else rest

-- The lines of a key.
abbrev pub lines_of : String → List (String × Bytes) → List (String × Bytes)
lines_of key [] = []
lines_of key (line ∷ lines) =
    let rest = lines_of key lines in if line.0 == key then line ∷ rest else rest

-- One line for a key that has values, none for another.
abbrev pub line_for : (String → List String → Bytes) → String → List String → List (String × Bytes)
line_for reducef key [] = []
line_for reducef key (v ∷ vs) = (key, reducef key (v ∷ vs)) ∷ []

-- No pair of the list has a lesser key.
abbrev pub NoneLess : String → List KeyValue → Type 0
NoneLess key [] = Unit
NoneLess key (kv ∷ kvs) = (less kv.key key ≡ false) × NoneLess key kvs

-- What sort.Sort promises: no pair comes before one with a lesser key.
abbrev pub IsAscending : List KeyValue → Type 0
IsAscending [] = Unit
IsAscending (kv ∷ kvs) = NoneLess kv.key kvs × IsAscending kvs

length-behind_run : (key : String) (kvs : List KeyValue) → length (behind_run key kvs) ≤ length kvs
unfolding behind_run
length-behind_run key [] = omega arith
length-behind_run key (kv ∷ kvs) = ground (arith, length-behind_run key kvs)

values_of_none :
    (key : String) (other : String) (kvs : List KeyValue)
    → less key other ≡ true
    → NoneLess other kvs
    → values_of key kvs ≡ []
values_of_none key other [] l n = refl
values_of_none key other (kv ∷ kvs) l (first, n) =
    ground (arith, string_eq.equals_iff kv.key key, values_of_none key other kvs l n)

-- Behind its run, a sorted list has no pair of the key.
values_of-behind_run :
    (key : String) (kvs : List KeyValue)
    → NoneLess key kvs
    → IsAscending kvs
    → values_of key (behind_run key kvs) ≡ []
unfolding behind_run
values_of-behind_run key [] n a = refl
values_of-behind_run key (kv ∷ kvs) (first, n) (least, a) = elim (Bool-cases (kv.key == key)) [
  | inl same ↦ rw same (values_of-behind_run key kvs n a)
  | inr other ↦
      rw (other, other) (values_of_none key kv.key kvs (less_other kv.key key first other) least)
]

values_of-run_values :
    (key : String) (kvs : List KeyValue)
    → NoneLess key kvs
    → IsAscending kvs
    → values_of key kvs ≡ run_values key kvs
unfolding run_values
values_of-run_values key [] n a = refl
values_of-run_values key (kv ∷ kvs) (first, n) (least, a) = elim (Bool-cases (kv.key == key)) [
  | inl same ↦ rw same (ap (◌∷◌ kv.value) (values_of-run_values key kvs n a))
  | inr other ↦ rw other (values_of_none key kv.key kvs (less_other kv.key key first other) least)
]

-- A run holds no other key.
values_of-other :
    (key other : String) (kvs : List KeyValue)
    → (other == key) ≡ false
    → values_of key (behind_run other kvs) ≡ values_of key kvs
unfolding behind_run
values_of-other key other [] d = refl
values_of-other key other (kv ∷ kvs) d = ground (
  arith,
  string_eq.equals_iff kv.key other,
  string_eq.equals_iff kv.key key,
  string_eq.equals_iff other key,
  values_of-other key other kvs d,
)

IsAscending-behind_run :
    (key : String) (kvs : List KeyValue) → IsAscending kvs → IsAscending (behind_run key kvs)
unfolding behind_run
IsAscending-behind_run key [] a = a
IsAscending-behind_run key (kv ∷ kvs) (least, a) = elim (Bool-cases (kv.key == key)) [
  | inl same ↦ rw same (IsAscending-behind_run key kvs a)
  | inr other ↦ rw other (least, a)
]

-- On sorted pairs, with a round for each, the loop puts out one line for each key that occurs, with
-- the output for all its values in order, and no other.
pub aggregate_lem :
    (reducef : String → List String → Bytes) (fuel : ℕ) (kvs : List KeyValue) (key : String)
    → length kvs ≤ fuel
    → IsAscending kvs
    → lines_of key (aggregate reducef fuel kvs) ≡ line_for reducef key (values_of key kvs)
unfolding aggregate
aggregate_lem reducef zero [] key enough a = refl
aggregate_lem reducef zero (kv ∷ kvs) key enough a = absurd (omega arith)
aggregate_lem reducef (suc fuel) [] key enough a = refl
aggregate_lem reducef (suc fuel) (kv ∷ kvs) key enough (least, a) =
    let rest = behind_run kv.key kvs in
    let ih =
      aggregate_lem reducef fuel rest key (omega (arith, length-behind_run kv.key kvs))
        (IsAscending-behind_run kv.key kvs a) in
    elim (Bool-cases (kv.key == key)) [
      | inl same ↦
          let e : kv.key ≡ key = (string_eq.equals_iff kv.key key).0 same in
          let gone : values_of key rest ≡ [] = rw (← e) (values_of-behind_run kv.key kvs least a) in
          let run : values_of key kvs ≡ run_values kv.key kvs =
            rw (← e) (values_of-run_values kv.key kvs least a) in
          ground (arith, same, e, ih, gone, run)
      | inr other ↦ ground (arith, other, ih, values_of-other key kv.key kvs other)
    ]

values_of-cons-Permᴰ :
    (key : String) (kv : KeyValue) (kvs kvs' : List KeyValue)
    → Permᴰ (values_of key kvs) (values_of key kvs')
    → Permᴰ (values_of key (kv ∷ kvs)) (values_of key (kv ∷ kvs'))
values_of-cons-Permᴰ key kv kvs kvs' p = elim (Bool-cases (kv.key == key)) [
  | inl same ↦ rw same (Permᴰ.cons refl p)
  | inr other ↦ rw other p
]

values_of-swap-Permᴰ :
    (key : String) (a b : KeyValue) (kvs : List KeyValue)
    → Permᴰ (values_of key (a ∷ b ∷ kvs)) (values_of key (b ∷ a ∷ kvs))
values_of-swap-Permᴰ key a b kvs = elim (Bool-cases (a.key == key)) [
  | inl p ↦ elim (Bool-cases (b.key == key)) [
    | inl q ↦ rw (p, q) (Permᴰ.swap refl refl)
    | inr q ↦ rw (p, q) (Permᴰ.refl (a.value ∷ values_of key kvs))
  ]
  | inr p ↦ elim (Bool-cases (b.key == key)) [
    | inl q ↦ rw (p, q) (Permᴰ.refl (b.value ∷ values_of key kvs))
    | inr q ↦ rw (p, q) (Permᴰ.refl (values_of key kvs))
  ]
]

-- The values of a key in a reordered list are its values reordered.
pub values_of-Permᴰ :
    (key : String) (kvs kvs' : List KeyValue)
    → Permᴰ kvs kvs'
    → Permᴰ (values_of key kvs) (values_of key kvs')
values_of-Permᴰ key kvs kvs' Permᴰ.nil = Permᴰ.nil
values_of-Permᴰ key kvs kvs' (Permᴰ.cons {a} {b} {l₁} {l₂} e p) =
    rw (← e) (values_of-cons-Permᴰ key a l₁ l₂ (values_of-Permᴰ key l₁ l₂ p))
values_of-Permᴰ key kvs kvs' (Permᴰ.swap {a} {b} {a'} {b'} {l} e f) =
    rw (← e, ← f) (values_of-swap-Permᴰ key a b l)
values_of-Permᴰ key kvs kvs' (Permᴰ.trans {l₂ = l} p q) =
    Permᴰ.trans (values_of-Permᴰ key kvs l p) (values_of-Permᴰ key l kvs' q)

pub line_for-Permᴰ :
    (reducef : String → List String → Bytes) (key : String) (vs ws : List String)
    → ((us : List String) → Permᴰ us ws → reducef key us ≡ reducef key ws)
    → Permᴰ vs ws
    → line_for reducef key vs ≡ line_for reducef key ws
line_for-Permᴰ reducef key [] [] same p = refl
line_for-Permᴰ reducef key [] (w ∷ ws) same p = absurd (Permᴰ-nil-cons p)
line_for-Permᴰ reducef key (v ∷ vs) [] same p = absurd (Permᴰ-cons-nil p)
line_for-Permᴰ reducef key (v ∷ vs) (w ∷ ws) same p = ap (λ out. (key, out) ∷ []) (same (v ∷ vs) p)
