-- ===== src/Blockchain/Version.antt =====
-- `expected_version` of rig/blockchain.py: the scheduled protocol version of a height.
use sestrian.Base.{ℕ, not, ◌&&◌, Option, none, some, List, [], ◌∷◌, if◌then◌else◌, leb, ◌==◌}
use sestrian.ModelState.{GenesisParams}

-- `VERSION_SCHEDULE`
abbrev pub version_schedule : List (ℕ × ℕ)
version_schedule = (0, 2) ∷ []

-- The loop over the schedule: the last entry that has started counts.
unfoldable pub scheduled : ℕ → ℕ → List (ℕ × ℕ) → ℕ
scheduled height v [] = v
scheduled height v ((h0, version) ∷ rest) =
    scheduled height (if leb h0 height then version else v) rest

-- `expected_version`
unfoldable pub expected_version : ℕ → Option GenesisParams → ℕ
unfolding scheduled
expected_version height none = scheduled height 2 version_schedule
expected_version height (some g) =
    if not (g.v5_height == 0) && leb g.v5_height height
    then 5
    else if leb g.v3_height height
    then 3
    else scheduled height 2 version_schedule
