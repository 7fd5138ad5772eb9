-- ===== src/Token/Emission.antt =====
-- The constants and the emission schedule of rig/token.py, in grains.
pub mod Schedule
use sestrian.Base.Shift.{shr}
use sestrian.Base.{ℕ, ◌-◌, ◌*◌, ◌/◌, ◌^◌, min, max, if◌then◌else◌, ltb}

abbrev pub grain : ℕ
grain = 1_000_000_000

abbrev pub base_reward : ℕ
base_reward = 50 * grain

abbrev pub halving_blocks : ℕ
halving_blocks = 1_000_000

abbrev pub tail_epoch : ℕ
tail_epoch = 9

abbrev pub tail_reward : ℕ
tail_reward = base_reward / 2 ^ tail_epoch

abbrev pub share_miners : ℕ
share_miners = 7_000

abbrev pub share_proposer : ℕ
share_proposer = 1_000

abbrev pub share_data : ℕ
share_data = 2_000

abbrev pub fee_share_data : ℕ
fee_share_data = 2_000

abbrev pub fee_share_train : ℕ
fee_share_train = 2_000

abbrev pub challenge_window : ℕ
challenge_window = 20

abbrev pub genesis_data_weight : ℕ
genesis_data_weight = 1_000_000

abbrev pub challenge_quorum : ℕ
challenge_quorum = 3

abbrev pub bond_window : ℕ
bond_window = 20

-- `emission`
unfoldable pub emission : ℕ → ℕ
emission height =
    if ltb height 1
    then 0
    else max (shr base_reward (min ((height - 1) / halving_blocks) 62)) tail_reward
