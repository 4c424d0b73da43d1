-- ===== src/Raft/Cluster/Tally.antt =====
-- Counting the peers that satisfy a test, and two majorities.
use mit6_824_labs.Prelude.{
  ℕ, zero, suc, ◌+◌, ◌/◌, ◌<◌, ◌≤◌, ◌≡◌, ◌≢◌, refl, Bool, true, false, arith, if◌then◌else◌,
  Bool-cases, inl, inr, ◌==◌, dec_lt,
}

-- How many peers below `n` satisfy the test.
abbrev pub tally : ℕ → (ℕ → Bool) → ℕ
tally zero p = 0
tally (suc n) p = let rest = tally n p in if p n then suc rest else rest

pub tally_same : (n : ℕ) (p q : ℕ → Bool) → ((j : ℕ) → j < n → q j ≡ p j) → tally n q ≡ tally n p
tally_same zero p q h = refl
tally_same (suc n) p q h =
    ground (arith, h n (omega arith), tally_same n p q (λ j l. h j (omega arith)))

-- One peer more.
pub tally_more :
    (n j : ℕ) (p q : ℕ → Bool)
    → j < n
    → p j ≡ false
    → q j ≡ true
    → ((i : ℕ) → i ≢ j → q i ≡ p i)
    → tally n q ≡ tally n p + 1
tally_more zero j p q l was now h = absurd (omega arith)
tally_more (suc n) j p q l was now h = elim (dec_lt j n) [
  | yes below ↦
      ground (arith, tally_more n j p q below was now h, h n (λ e. absurd (omega (arith, e))))
  | no above ↦
      let last : j ≡ n = omega arith in
      let was' : p n ≡ false = rw (← last) was in
      let now' : q n ≡ true = rw (← last) now in
      ground (arith, was', now', tally_same n p q (λ i below. h i (λ e. absurd (omega (arith, e)))))
]

pub tally_one : (n i : ℕ) → i < n → tally n (λ j. j == i) ≡ 1
tally_one zero i l = absurd (omega arith)
tally_one (suc n) i l = elim (dec_lt i n) [
  | yes below ↦ ground (arith, tally_one n i below)
  | no above ↦ ground (arith, tally_none n i (omega arith))
]
  where
    tally_none : (n i : ℕ) → n ≤ i → tally n (λ j. j == i) ≡ 0
    tally_none zero i l = refl
    tally_none (suc n) i l = ground (arith, tally_none n i (omega arith))

-- Two tests that together count more than all peers share one.
shared :
    (n : ℕ) (p q : ℕ → Bool)
    → n < tally n p + tally n q
    → (j : ℕ) × (j < n) × (p j ≡ true) × (q j ≡ true)
shared zero p q h = absurd (omega arith)
shared (suc n) p q h = elim (Bool-cases (p n)) [
  | inl yes_p ↦ elim (Bool-cases (q n)) [
    | inl yes_q ↦ (n, omega arith, yes_p, yes_q)
    | inr no_q ↦ below (shared n p q (ground (arith, yes_p, no_q)))
  ]
  | inr no_p ↦ below (shared n p q (ground (arith, no_p)))
]
  where
    below :
        {n : ℕ} {p q : ℕ → Bool}
        → ((j : ℕ) × (j < n) × (p j ≡ true) × (q j ≡ true))
        → (j : ℕ) × (j < suc n) × (p j ≡ true) × (q j ≡ true)
    below (j, l, a, b) = (j, omega arith, a, b)

-- Two majorities share a peer.
pub majorities :
    (n : ℕ) (p q : ℕ → Bool)
    → n / 2 < tally n p
    → n / 2 < tally n q
    → (j : ℕ) × (j < n) × (p j ≡ true) × (q j ≡ true)
majorities n p q h k = shared n p q (omega arith)
