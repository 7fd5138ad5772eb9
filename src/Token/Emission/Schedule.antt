-- ===== src/Token/Emission/Schedule.antt =====
-- The emission schedule of rig/token.py: its sum is bounded.
use sestrian.Base.Shift.{shr, shr-suc}
use native.Mathlib.Decide.{dec_le, dec_lt}
use sestrian.Base.{ℕ, zero, suc, ◌+◌, ◌-◌, ◌*◌, ◌/◌, ◌%◌, ◌≤◌, ◌<◌, ◌≡◌, ap, min, arith}
use sestrian.Token.Emission.{emission, base_reward, halving_blocks, tail_reward, grain}

-- The emission of the heights 1 to n.
unfoldable pub total_emission : ℕ → ℕ
total_emission zero = 0
total_emission (suc n) = total_emission n + emission (suc n)

-- The epoch of a height, capped as the code caps its shift.
abbrev epoch : ℕ → ℕ
epoch h = min ((h - 1) / halving_blocks) 62

-- What the halvings from height n + 1 on can still mint.
abbrev potential : ℕ → ℕ
potential n = (2 * halving_blocks - n % halving_blocks) * shr base_reward (n / halving_blocks)

take_one : (c r x : ℕ) → r < c → (c - (r + 1)) * x + x ≡ (c - r) * x
take_one c r x h = let e : c - r ≡ suc (c - (r + 1)) = omega arith in rw e (grind arith)

emission-le : (n : ℕ) → emission (suc n) ≤ shr base_reward (n / halving_blocks) + tail_reward
unfolding emission
emission-le n = elim (dec_le (n / halving_blocks) 62) [
  | yes early ↦
      let e : epoch (suc n) ≡ n / halving_blocks = omega arith in
      ground (arith, ap (shr base_reward) e)
  | no late ↦ let e : epoch (suc n) ≡ 62 = omega arith in ground (arith, ap (shr base_reward) e)
]

potential-suc : (n : ℕ) → potential (suc n) + shr base_reward (n / halving_blocks) ≤ potential n
potential-suc n = elim (dec_lt (n % halving_blocks + 1) halving_blocks) [
  | yes inside ↦
      let r : suc n % halving_blocks ≡ n % halving_blocks + 1 = omega arith in
      let q : suc n / halving_blocks ≡ n / halving_blocks = omega arith in
      rw (r, q)
        (omega (
          arith,
          take_one (2 * halving_blocks) (n % halving_blocks) (shr base_reward (n / halving_blocks))
              (omega arith),
        ))
  | no wraps ↦
      let r0 : n % halving_blocks ≡ halving_blocks - 1 = omega arith in
      let r : suc n % halving_blocks ≡ 0 = omega arith in
      let q : suc n / halving_blocks ≡ suc (n / halving_blocks) = omega arith in
      rw (r0, r, q, shr-suc base_reward (n / halving_blocks)) (omega arith)
]

total_potential :
    (n : ℕ) → total_emission n + potential n ≤ 2 * base_reward * halving_blocks + n * tail_reward
unfolding total_emission
total_potential zero = omega arith
total_potential (suc n) = omega (arith, total_potential n, emission-le n, potential-suc n)

-- All heights up to n together emit at most 100 million tokens and the tail reward for each.
pub total_emission-le : (n : ℕ) → total_emission n ≤ 100_000_000 * grain + n * tail_reward
total_emission-le n = omega (arith, total_potential n)
