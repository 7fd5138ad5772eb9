-- ===== src/ModelState.antt =====
-- rig/model_state.py: the page table and the growth controller as consensus state.
pub mod Fold
pub mod Pages
pub mod Growth
pub mod Commit
use sestrian.Base.{
  ℕ, zero, suc, ◌+◌, ◌-◌, ◌*◌, ◌/◌, ◌%◌, max, Bool, true, false, not, ◌&&◌, ◌||◌, Option, none,
  some, List, [], ◌∷◌, ◌++◌, if◌then◌else◌, ltb, leb, ◌==◌, filter, length, contains, get_elem?,
  sum, map,
}
use sestrian.Base.Int.{ℤ, pos, negsuc, ◌+ℤ◌, ltb_ℤ}
use sestrian.Platform.{Platform}
use sestrian.Capacity.{RetargetParams, Decision, retarget_decide}

-- `ModelSpec`
pub record ModelSpec : Type 0 where
  pub n_layers : ℕ
  pub d_model : ℕ
  pub d_ff : ℕ
  pub n_experts_initial : ℕ
  pub e_max : ℕ
  pub backbone_params : ℕ

-- `ModelSpec.expert_page_len`
unfoldable pub expert_page_len : ModelSpec → ℕ
expert_page_len s = s.d_model * s.d_ff + s.d_ff + s.d_ff * s.d_model + s.d_model

-- `GenesisParams`
pub record GenesisParams : Type 0 where
  pub spec : ModelSpec
  pub retarget_window : ℕ
  pub target_deltas : ℕ
  pub quota_min : ℕ
  pub quota_max : ℕ
  pub stale_ceiling : ℕ
  pub k_sustain : ℕ
  pub growth_bound : ℕ
  pub announce_lead : ℕ
  pub delta_max_nnz : ℕ
  pub v3_height : ℕ
  pub v4_height : ℕ
  pub growth_quorum : ℕ
  pub v5_height : ℕ
  pub lane_width : ℕ
  pub lane_epoch_len : ℕ

-- The keyword arguments that `fold` hands to `retarget_decide`; `damp_div` keeps its default.
abbrev pub retarget_params : GenesisParams → RetargetParams
retarget_params g = record {
  quota_min = g.quota_min;
  quota_max = g.quota_max;
  target_deltas = g.target_deltas;
  damp_div = 4;
  stale_ceiling = g.stale_ceiling;
  k_sustain = g.k_sustain;
}

pub data Kind : Type 0 where
  backbone expert : Kind

pub data PageStatus : Type 0 where
  active frozen : PageStatus

-- A page: `[start, end, kind, layer, expert, status]`.
pub record Page : Type 0 where
  pub start : ℕ
  pub stop : ℕ
  pub kind : Kind
  pub layer : ℤ
  pub index : ℤ
  pub status : PageStatus

-- `[activation_window, layer, trigger_hash]`
pub record GrowthEvent : Type 0 where
  pub window : ℕ
  pub layer : ℕ
  pub trigger : ℕ

pub record ModelState : Type 0 where
  pub pages : List Page
  pub quota : ℕ
  pub pinned_streak : ℕ
  pub slack_streak : ℕ
  pub pending_growth : List GrowthEvent
  pub window_id : ℕ
  pub win_accepted : ℕ
  pub win_zero_scored : ℕ
  pub win_score_sum : ℤ
  pub rev : ℕ
  pub win_scorers : List ℕ
  pub events_total : ℕ

-- One layer's genesis experts, from an offset.
unfoldable pub layer_pages : ℕ → ℕ → ℕ → ℕ → ℕ → List Page
layer_pages len layer zero index off = []
layer_pages len layer (suc n) index off =
    record {
      start = off;
      stop = off + len;
      kind = expert;
      layer = pos layer;
      index = pos index;
      status = active;
    }
    ∷ layer_pages len layer n (index + 1) (off + len)

unfoldable pub all_layers : ℕ → ℕ → ℕ → ℕ → ℕ → List Page
unfolding layer_pages
all_layers len experts zero layer off = []
all_layers len experts (suc n) layer off =
    layer_pages len layer experts 0 off
    ++ all_layers len experts n (layer + 1) (off + experts * len)

unfoldable pub genesis_pages : ModelSpec → List Page
unfolding all_layers expert_page_len
genesis_pages s =
    record {
      start = 0;
      stop = s.backbone_params;
      kind = backbone;
      layer = negsuc 0;
      index = negsuc 0;
      status = active;
    }
    ∷ all_layers (expert_page_len s) s.n_experts_initial s.n_layers 0 s.backbone_params

-- `ModelState.genesis`
unfoldable pub genesis : ModelSpec → ModelState
unfolding genesis_pages
genesis s = record {
  pages = genesis_pages s;
  quota = 10_000;
  pinned_streak = 0;
  slack_streak = 0;
  pending_growth = [];
  window_id = 0;
  win_accepted = 0;
  win_zero_scored = 0;
  win_score_sum = pos 0;
  rev = 2;
  win_scorers = [];
  events_total = 0;
}

-- `pages[-1][1]`; the page table is never empty.
unfoldable pub last_stop : ℕ → List Page → ℕ
last_stop off [] = off
last_stop off (q ∷ pages) = last_stop q.stop pages

-- `ModelState.dim`
unfoldable pub dim : ModelState → ℕ
unfolding last_stop
dim s = last_stop 0 s.pages

abbrev pub is_active_page : Page → Bool
is_active_page q = elim q.status [ active ↦ true | frozen ↦ false ]

abbrev pub is_expert : Page → Bool
is_expert q = elim q.kind [ expert ↦ true | backbone ↦ false ]

-- `ModelState.is_active`
unfoldable pub is_active : ModelState → ℕ → Bool
is_active s i = elim (get_elem? s.pages i) [ none ↦ false | some q ↦ is_active_page q ]

-- `ModelState.genesis_page_count`
unfoldable pub genesis_page_count : ModelSpec → ℕ
genesis_page_count s = 1 + s.n_layers * s.n_experts_initial

abbrev pub page_len : Option Page → ℕ
page_len none = 0
page_len (some q) = q.stop - q.start

-- `ModelState.claimed_params`, for page ids that exist
unfoldable pub claimed_params : ModelState → List ℕ → ℕ
claimed_params s ids = sum (map (λ i. page_len (get_elem? s.pages i)) ids)

-- `ModelState.required_nnz`
unfoldable pub required_nnz : ModelState → List ℕ → ℕ
unfolding claimed_params
required_nnz s ids = claimed_params s ids * s.quota / 1_000_000

-- The greatest expert index of a layer, plus one: `max(…, default=-1) + 1`.
unfoldable pub next_expert : ℕ → List Page → ℕ
next_expert layer [] = 0
next_expert layer (q ∷ pages) =
    let rest = next_expert layer pages in
    if is_expert q && is_pos layer q.layer then max (after q.index) rest else rest
  where
    is_pos : ℕ → ℤ → Bool
    is_pos n (pos m) = m == n
    is_pos n (negsuc m) = false

    after : ℤ → ℕ
    after (pos m) = m + 1
    after (negsuc m) = 0
