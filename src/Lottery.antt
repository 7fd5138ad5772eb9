-- ===== src/Lottery.antt =====
-- rig/lottery.py: verifiable proposer sortition. A proof is its hex text.
pub mod Laws
use sestrian.Base.{
  ℕ, zero, suc, ◌+◌, ◌-◌, ◌*◌, ◌/◌, ◌^◌, min, max, Bool, true, false, not, List, ◌++◌,
  if◌then◌else◌, ltb, leb, ◌==◌,
}
use sestrian.Base.Int.{pos}
use sestrian.Platform.{Platform, ascii}

abbrev pub target_proposers : ℕ
target_proposers = 2

abbrev pub attempt_max : ℕ
attempt_max = 16

abbrev pub two256 : ℕ
two256 = 2 ^ 256

-- `n.bit_length()` for an n below 2 ** fuel
unfoldable pub bit_length : ℕ → ℕ → ℕ
bit_length zero n = 0
bit_length (suc fuel) n = let rest = bit_length fuel (n / 2) in if n == 0 then 0 else suc rest

-- `lz + 1` of `vrf_work`, for an output of 256 bits.
unfoldable pub work_of : ℕ → ℕ
work_of out = (if ltb 0 out then 256 - bit_length 256 out else 256) + 1

-- `threshold`
unfoldable pub threshold : ℕ → ℕ → ℕ → ℕ
threshold stake total attempt =
    if total == 0
    then two256
    else if stake == 0
    then 0
    else min two256 (two256 * target_proposers * stake * 2 ^ attempt / total)

module _ (p : Platform) where
  -- `seed`
  unfoldable pub seed : ℕ → ℕ → ℕ → List ℕ
  seed prev_hash height attempt = p.fromhex (
      p.sha256 (
        ascii "sestrian-lottery|"
        ++ (p.encode prev_hash
            ++ (ascii "|" ++ (p.decimal (pos height) ++ (ascii "|" ++ p.decimal (pos attempt)))))))

  -- `vrf_output`
  unfoldable pub vrf_output : ℕ → ℕ
  vrf_output proof = p.digest_int (p.fromhex proof)

  -- `vrf_work`
  unfoldable pub vrf_work : ℕ → ℕ
  unfolding work_of vrf_output
  vrf_work proof = work_of (vrf_output proof)

  -- `attempt_work`
  unfoldable pub attempt_work : ℕ → ℕ → ℕ
  attempt_work proof attempt = max 1 (vrf_work proof / 2 ^ attempt)

  -- `eligible`
  unfoldable pub eligible : ℕ → ℕ → ℕ → ℕ → ℕ → ℕ → ℕ → Bool
  eligible key proof prev_hash height attempt stake total =
      if not (leb attempt attempt_max)
      then false
      else if not (p.ed25519 key (seed prev_hash height attempt) proof)
      then false
      else if attempt == attempt_max
      then true
      else if total == 0
      then attempt == 0
      else ltb (vrf_output proof) (threshold stake total attempt)
