-- ===== src/Tests/Model.antt =====
-- rig/lottery.py, rig/capacity.py and rig/model_state.py at concrete inputs.
use sestrian.Base.{
  ℕ, ◌≤◌, ◌<◌, ◌≡◌, ◌≢◌, refl, inl, true, false, List, [], ◌∷◌, length, All, Unrepeated, arith,
}
use sestrian.Base.Int.{pos, floor_div, ◌+ℤ◌}
use sestrian.Platform.{toy}
use sestrian.Lottery.{seed, threshold, eligible, attempt_max, two256, vrf_output}
use sestrian.Lottery.Laws.{eligible_guards, eligible_liveness}
use sestrian.Capacity.{default_params, retarget_decide, Controller, simulate}
use sestrian.Capacity.Bounds.{retarget_decide_bounds, IsSound, IsLater, simulate-IsSound}
use sestrian.ModelState.{
  ModelSpec, GenesisParams, ModelState, genesis, genesis_page_count, genesis_pages, all_layers,
  layer_pages, expert_page_len,
}
use sestrian.ModelState.Fold.{
  BlockFacts, fold, record_scorer, accumulate, close_window, open_window, activate_all, decide,
  staleness, freeze_newest, thaw_or_grow, schedule_growth, grown, reset_window, adopt, is_boundary,
}
use sestrian.ModelState.Pages.{Extends, Tiles, fold-Grows}
use sestrian.ModelState.Growth.{fold_quorum, fold_all, open_blocks, has_scored}

seat : eligible toy 7 7 1 4 2 90 90 ≡ true
unfolding eligible threshold vrf_output
seat = refl

eligible_guards_example :
    (toy.ed25519 7 (seed toy 1 4 2) 7 ≡ true)
    × (2 ≤ attempt_max)
    × (2 < attempt_max → 0 < 90 → 0 < 90)
    × (2 < attempt_max → ◌≡◌ {A = ℕ} 90 0 → ◌≡◌ {A = ℕ} 2 0)
eligible_guards_example = eligible_guards toy 7 7 1 4 2 90 90 seat

output_range : vrf_output toy 7 < two256
unfolding vrf_output
output_range = omega arith

eligible_liveness_example : eligible toy 7 7 1 4 16 0 90 ≡ true
eligible_liveness_example =
    eligible_liveness toy 7 7 1 4 16 0 90 refl output_range (omega arith) (inl refl)

retarget_decide_bounds_example :
    let d = retarget_decide default_params 70_000 2 0 12 0 in
    (2_500 ≤ d.quota)
    × (d.quota ≤ 80_000)
    × (8 ≤ 12 → 70_000 ≤ d.quota)
    × (12 ≤ 8 → d.quota ≤ 70_000)
    × (d.schedule ≡ true → d.freeze ≡ false)
    × (d.thaw_ok ≡ true → (8 ≤ 12) × (0 ≤ 2_000))
retarget_decide_bounds_example =
    retarget_decide_bounds default_params 70_000 2 0 12 0 (omega arith) (omega arith) (omega arith)
      (omega arith)

abbrev controller : Controller
controller = record {
  params = default_params;
  growth_bound = 1;
  announce_lead = 2;
  quota = 10_000;
  total_modules = 4;
  active_modules = 4;
  min_active = 4;
  pinned_streak = 0;
  slack_streak = 0;
  pending_growth = [];
  window_id = 0;
}

controller-IsSound : IsSound controller
controller-IsSound = omega arith

abbrev fleets : List ℕ
fleets = 100 ∷ 900 ∷ 900 ∷ 0 ∷ []

simulate-IsSound_example :
    IsSound (simulate 8 fleets controller) × IsLater controller (simulate 8 fleets controller)
simulate-IsSound_example = simulate-IsSound 8 fleets controller controller-IsSound

abbrev spec : ModelSpec
spec = record {
  n_layers = 2;
  d_model = 2;
  d_ff = 3;
  n_experts_initial = 1;
  e_max = 4;
  backbone_params = 10;
}

abbrev params : GenesisParams
params = record {
  spec = spec;
  retarget_window = 4;
  target_deltas = 1;
  quota_min = 2_500;
  quota_max = 10_000;
  stale_ceiling = 2_000;
  k_sustain = 1;
  growth_bound = 1;
  announce_lead = 1;
  delta_max_nnz = 1_000_000;
  v3_height = 0;
  v4_height = 0;
  growth_quorum = 2;
  v5_height = 0;
  lane_width = 8;
  lane_epoch_len = 16;
}

-- The genesis state, with one scorer recorded and the quota at its ceiling.
abbrev state : ModelState
state = record (genesis spec) { win_scorers = 61 ∷ []; quota = 10_000 }

abbrev block : BlockFacts
block = record {
  height = 4;
  n_txs = 3;
  zero_scored = 1;
  prev_hash = 99;
  score_sum = pos 5;
  proposer = 62;
}

fold-Grows_example :
    Extends (genesis_page_count spec) state.pages (fold toy params block state).pages
    × (Tiles 0 state.pages → Tiles 0 (fold toy params block state).pages)
fold-Grows_example = fold-Grows toy params block state

-- The window from genesis to height 4, in which two miners score.
abbrev history : List BlockFacts
history = record block { height = 3; proposer = 61 } ∷ []

counted : (fold toy params block (fold_all toy params history)).events_total ≡ 1
unfolding fold_all fold genesis genesis_pages all_layers layer_pages expert_page_len
    genesis_page_count accumulate record_scorer close_window open_window activate_all decide
    staleness retarget_decide freeze_newest thaw_or_grow schedule_growth grown reset_window adopt
    floor_div ◌+ℤ◌
counted = refl

uncounted : (fold_all toy params history).events_total ≡ 0
unfolding fold_all fold accumulate genesis
uncounted = refl

grew :
    (fold toy params block (fold_all toy params history)).events_total
    ≢ (fold_all toy params history).events_total
grew e = omega (arith, counted, uncounted, e)

fold_quorum_example :
    (is_boundary params 4 ≡ true)
    × ((scorers : List ℕ) × (2 ≤ length scorers)
        × Unrepeated scorers
        × All (λ m. has_scored toy (block ∷ open_blocks params history) m ≡ true) scorers)
fold_quorum_example =
    fold_quorum toy params block history (omega arith) (omega arith) (omega arith) grew
