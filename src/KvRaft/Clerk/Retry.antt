-- ===== src/KvRaft/Clerk/Retry.antt =====
-- Where the loop of the clerk ends, and after how many rounds.
use native.Mathlib.Nat.{mod-eq_of_lt, mod_self}
use mit6_824_labs.Prelude.{
  ℕ, zero, suc, ◌+◌, ◌-◌, ◌%◌, ◌≤◌, ◌<◌, ◌≡◌, ◌≢◌, Option, none, some, Bool, true, ltb, arith,
  if◌then◌else◌, Option-cases, Bool-cases, inl, inr, dec_lt,
}
use mit6_824_labs.KvRaft.Clerk.{retry}

next_server : (s n : ℕ) → s < n → (s + 1) % n ≡ (if ltb (s + 1) n then s + 1 else 0)
next_server s n h = elim (dec_lt (s + 1) n) [
  | yes l ↦ ground (arith, mod-eq_of_lt l)
  | no l ↦ let last : s + 1 ≡ n = omega arith in ground (arith, last, mod_self n)
]

-- How many rounds lead from server `s` to server `k`.
abbrev pub distance : ℕ → ℕ → ℕ → ℕ
distance servers s k = if ltb k s then servers - s + k else k - s

module _ {R : Type 0} (call : ℕ → ℕ → Option R) (leads : R → Bool) (servers : ℕ) where
  retry_ends :
      (fuel round s k : ℕ)
      → s < servers
      → k < servers
      → ((r : ℕ) → (reply : R) × (call r k ≡ some reply) × (leads reply ≡ true))
      → distance servers s k < fuel
      → retry call leads servers fuel round s ≢ none
  unfolding retry
  retry_ends zero round s k h k_in up enough ends = absurd (omega arith)
  retry_ends (suc fuel) round s k h k_in up enough ends =
      let (reply, e, ok) = up round in
      elim (dec_lt s k) [
        | yes l ↦ ground (
          arith,
          next_server s servers h,
          retry_ends fuel (suc round) ((s + 1) % servers) k
              (ground (arith, next_server s servers h)) k_in up
              (ground (arith, next_server s servers h)),
        )
        | no l ↦ elim (dec_lt k s) [
          | yes l' ↦ ground (
            arith,
            retry_ends fuel (suc round) ((s + 1) % servers) k
                (ground (arith, next_server s servers h)) k_in up
                (ground (arith, next_server s servers h)),
          )
          | no l' ↦ let same : s ≡ k = omega arith in ground (arith, e, ok, same)
        ]
      ]

  retry_leads :
      (fuel round s : ℕ) {reply : R} {s' : ℕ}
      → retry call leads servers fuel round s ≡ some (reply, s')
      → (r : ℕ) × (call r s' ≡ some reply) × (leads reply ≡ true)
  unfolding retry
  retry_leads zero round s h = absurd (ground arith)
  retry_leads (suc fuel) round s h = elim (Option-cases (call round s)) [
    | inl failed ↦ retry_leads fuel (suc round) ((s + 1) % servers) (rw (retry, failed) at h)
    | inr (reply, e) ↦ elim (Bool-cases (leads reply)) [
      | inl yes_leads ↦ (round, ground (arith, e), ground (arith, e))
      | inr not_leads ↦
          retry_leads fuel (suc round) ((s + 1) % servers) (rw (retry, e, not_leads) at h)
    ]
  ]

  -- If some server answers as leader in every round, one round for each server is enough: the loop
  -- returns, from any server it starts at, with an answer that a server gave in some round as leader,
  -- and with that server.
  pub retry_finds_leader :
      (fuel s k : ℕ)
      → s < servers
      → k < servers
      → ((r : ℕ) → (reply : R) × (call r k ≡ some reply) × (leads reply ≡ true))
      → servers ≤ fuel
      → (reply : R) × (s' : ℕ) × (retry call leads servers fuel 0 s ≡ some (reply, s'))
        × ((r : ℕ) × (call r s' ≡ some reply) × (leads reply ≡ true))
  retry_finds_leader fuel s k h k_in up enough =
      elim (Option-cases (retry call leads servers fuel 0 s)) [
        | inl ends ↦ absurd (retry_ends fuel 0 s k h k_in up (ground arith) ends)
        | inr ((reply, s'), e) ↦ (reply, s', e, retry_leads fuel 0 s e)
      ]
