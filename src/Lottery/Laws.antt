-- ===== src/Lottery/Laws.antt =====
-- Work and eligibility of rig/lottery.py: luck, patience and stake move them the right way.
use native.Mathlib.Nat.{le_trans, le-div_iff_mul-le}
use sestrian.Base.{ℕ, zero, suc, ◌*◌, ◌/◌, ◌^◌, ◌≤◌, ◌<◌, ◌≡◌, ◌⊎◌, true, arith}
use sestrian.Base.Shift.{shr_antitone, pow_mono}
use sestrian.Platform.{Platform}
use sestrian.Lottery.{
  bit_length, work_of, threshold, two256, target_proposers, attempt_max, seed, vrf_output, vrf_work,
  attempt_work, eligible,
}

bit_length_mono : (fuel m n : ℕ) → m ≤ n → bit_length fuel m ≤ bit_length fuel n
unfolding bit_length
bit_length_mono zero m n h = omega arith
bit_length_mono (suc fuel) m n h = ground (arith, bit_length_mono fuel (m / 2) (n / 2))

bit_length-le : (fuel n : ℕ) → bit_length fuel n ≤ fuel
unfolding bit_length
bit_length-le zero n = omega arith
bit_length-le (suc fuel) n = ground (arith, bit_length-le fuel (n / 2))

-- A smaller output of the lottery never has less work, and work lies between 1 and 257.
pub work_of-antitone :
    (m n : ℕ) → m ≤ n → (work_of n ≤ work_of m) × (1 ≤ work_of n) × (work_of n ≤ 257)
unfolding work_of
work_of-antitone m n h =
    let a = bit_length_mono 256 m n h in
    let b = bit_length-le 256 m in (ground arith, ground arith, ground arith)

-- The committed weight falls with the attempt, and is at least 1.
pub attempt_work-antitone :
    (p : Platform) (proof a b : ℕ)
    → a ≤ b
    → (attempt_work p proof b ≤ attempt_work p proof a) × (1 ≤ attempt_work p proof b)
unfolding attempt_work
attempt_work-antitone p proof a b h =
    (omega (arith, shr_antitone (vrf_work p proof) a b h), omega arith)

product_mono : (c s t x y : ℕ) → s ≤ t → x ≤ y → c * s * x ≤ c * t * y
product_mono c s t x y h k = le_trans (left c s t x h) (right (c * t) x y k)
  where
    left : (c s t x : ℕ) → s ≤ t → c * s * x ≤ c * t * x
    left c s t x h = grind arith

    right : (d x y : ℕ) → x ≤ y → d * x ≤ d * y
    right d x y k = grind arith

scaled_full : (t b : ℕ) → 0 < t → two256 ≤ two256 * target_proposers * t * 2 ^ b / t
scaled_full t b above = (le-div_iff_mul-le above).1 (
    le_trans (omega arith) (
      product_mono (two256 * target_proposers) t t 1 (2 ^ b) (omega arith)
        (pow_mono 0 b (omega arith))))

-- Without stake no proof is eligible before the last attempt, once anybody holds a grain; nobody is
-- eligible with a proof that does not verify, or after the last attempt.
pub eligible_guards :
    (p : Platform) (key proof prev_hash height attempt stake total : ℕ)
    → eligible p key proof prev_hash height attempt stake total ≡ true
    → (p.ed25519 key (seed p prev_hash height attempt) proof ≡ true)
      × (attempt ≤ attempt_max)
      × (attempt < attempt_max → 0 < total → 0 < stake)
      × (attempt < attempt_max → total ≡ 0 → attempt ≡ 0)
unfolding eligible threshold
eligible_guards p key proof prev_hash height attempt stake total h =
    (ground arith, ground arith, λ early held. ground arith, λ early empty. ground arith)

-- The chain cannot stall: a proof that verifies is eligible at the last attempt, at the first one
-- while nobody holds a grain, and at any attempt for the holder of every grain.
pub eligible_liveness :
    (p : Platform) (key proof prev_hash height attempt stake total : ℕ)
    → p.ed25519 key (seed p prev_hash height attempt) proof ≡ true
    → vrf_output p proof < two256
    → attempt ≤ attempt_max
    → (attempt ≡ attempt_max) ⊎ ((total ≡ 0) × (attempt ≡ 0)) ⊎ ((0 < total) × (stake ≡ total))
    → eligible p key proof prev_hash height attempt stake total ≡ true
unfolding eligible threshold
eligible_liveness p key proof prev_hash height attempt stake total signed range bound which =
    ground (arith, scaled_full total attempt)
