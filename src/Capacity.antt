-- ===== src/Capacity.antt =====
-- rig/capacity.py: the integer retarget of quota and growth, and its standalone controller.
pub mod Bounds
use sestrian.Base.{
  ℕ, ◌+◌, ◌-◌, ◌*◌, ◌/◌, min, max, Bool, true, false, not, ◌&&◌, List, [], ◌∷◌, ◌++◌, if◌then◌else◌,
  ltb, leb, filter, length,
}
use sestrian.Base.Int.{ℤ, pos, pos_part, sub_ℕ, ◌+ℤ◌, floor_div}

-- The keyword arguments of `retarget_decide`.
pub record RetargetParams : Type 0 where
  pub quota_min : ℕ
  pub quota_max : ℕ
  pub target_deltas : ℕ
  pub damp_div : ℕ
  pub stale_ceiling : ℕ
  pub k_sustain : ℕ

-- Their defaults.
abbrev pub default_params : RetargetParams
default_params = record {
  quota_min = 2_500;
  quota_max = 80_000;
  target_deltas = 8;
  damp_div = 4;
  stale_ceiling = 2_000;
  k_sustain = 3;
}

pub record Decision : Type 0 where
  pub quota : ℕ
  pub pinned_streak : ℕ
  pub slack_streak : ℕ
  pub schedule : Bool
  pub freeze : Bool
  pub thaw_ok : Bool

module _ (r : RetargetParams) where
  unfoldable pub raw_quota : ℕ → ℕ → ℕ
  raw_quota quota accepted =
      if ltb 0 accepted then quota * accepted / r.target_deltas else r.quota_min

  -- The damped quota, held in its band. The bound from below is a natural number, so what lies
  -- below zero may be read as zero.
  unfoldable pub next_quota : ℕ → ℕ → ℕ
  unfolding raw_quota
  next_quota quota accepted =
      let step = floor_div (sub_ℕ (raw_quota quota accepted) quota) r.damp_div in
      min r.quota_max (max r.quota_min (pos_part (pos quota +ℤ step)))

  unfoldable pub surplus : ℕ → ℕ → ℕ → Bool
  surplus quota accepted staleness =
      leb (r.quota_max * 95 / 100) quota
      && (leb staleness r.stale_ceiling && leb r.target_deltas accepted)

  unfoldable pub deficit : ℕ → ℕ → Bool
  deficit quota accepted = leb quota (r.quota_min * 105 / 100) && ltb accepted r.target_deltas

  -- `retarget_decide`
  unfoldable pub retarget_decide : ℕ → ℕ → ℕ → ℕ → ℕ → Decision
  unfolding next_quota surplus deficit
  retarget_decide quota pinned slack accepted staleness =
      let q = next_quota quota accepted in
      let rich = surplus q accepted staleness in
      let poor = deficit q accepted in
      let pinned' = if rich then pinned + 1 else 0 in
      let slack' = if poor then slack + 1 else 0 in
      record {
        quota = q;
        pinned_streak = pinned';
        slack_streak = slack';
        schedule = leb r.k_sustain pinned';
        freeze = leb r.k_sustain slack';
        thaw_ok = rich;
      }

-- `CapacityRetarget`; the log is left out.
pub record Controller : Type 0 where
  pub params : RetargetParams
  pub growth_bound : ℕ
  pub announce_lead : ℕ
  pub quota : ℕ
  pub total_modules : ℕ
  pub active_modules : ℕ
  pub min_active : ℕ
  pub pinned_streak : ℕ
  pub slack_streak : ℕ
  -- activation window ids
  pub pending_growth : List ℕ
  pub window_id : ℕ

abbrev pub is_nil : List ℕ → Bool
is_nil [] = true
is_nil (x ∷ xs) = false

-- The due growth events add their modules.
unfoldable pub activate : Controller → Controller
activate c =
    let w = c.window_id + 1 in
    let due = filter (λ e. leb e w) c.pending_growth in
    record c {
      window_id = w;
      total_modules = c.total_modules + length due * c.growth_bound;
      active_modules = c.active_modules + length due * c.growth_bound;
      pending_growth = filter (λ e. ltb w e) c.pending_growth;
    }

-- Thaw before growth.
unfoldable pub thaw_or_grow : Decision → Controller → Controller
thaw_or_grow d c =
    if d.thaw_ok && ltb c.active_modules c.total_modules
    then record c { active_modules = c.active_modules + 1; pinned_streak = 0 }
    else if d.schedule && is_nil c.pending_growth
    then record c {
      pending_growth = c.pending_growth ++ (c.window_id + c.announce_lead) ∷ [];
      pinned_streak = 0;
      quota = (c.params.quota_min + c.params.quota_max) / 2;
    }
    else c

unfoldable pub freeze_one : Decision → Controller → Controller
freeze_one d c =
    if d.freeze && ltb c.min_active c.active_modules
    then record c { active_modules = c.active_modules - 1; slack_streak = 0 }
    else c

unfoldable pub adopt : Decision → Controller → Controller
adopt d c = record c {
  quota = d.quota;
  pinned_streak = d.pinned_streak;
  slack_streak = d.slack_streak;
}

-- `CapacityRetarget.observe_window`
unfoldable pub observe_window : ℕ → ℕ → Controller → Controller
unfolding activate thaw_or_grow freeze_one adopt
observe_window accepted staleness c =
    let c1 = activate c in
    let d = retarget_decide c.params c1.quota c1.pinned_streak c1.slack_streak accepted staleness in
    freeze_one d (thaw_or_grow d (adopt d c1))

abbrev modules_per_fleet_unit : ℕ
modules_per_fleet_unit = 4

-- The staleness of one turn of `simulate`, in units of 1e-4.
unfoldable pub staleness_of : ℕ → ℕ → ℕ
staleness_of active fleet =
    min 10_000 (active * 10_000 * 100 / (modules_per_fleet_unit * max fleet 1) - 10_000)

-- The deltas that the fleet gets accepted.
unfoldable pub accepted_of : ℕ → ℕ → ℕ → ℕ → ℕ
accepted_of per_unit fleet quota staleness =
    fleet * per_unit * 100 / max quota 1 * (10_000 - staleness) / 10_000

-- `simulate`, for fleets of zero or more
unfoldable pub simulate : ℕ → List ℕ → Controller → Controller
unfolding staleness_of accepted_of observe_window
simulate per_unit [] c = c
simulate per_unit (fleet ∷ trace) c =
    let staleness = staleness_of c.active_modules fleet in
    simulate per_unit trace
      (observe_window (accepted_of per_unit fleet c.quota staleness) staleness c)
