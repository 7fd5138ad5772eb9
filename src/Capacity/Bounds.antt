-- ===== src/Capacity/Bounds.antt =====
-- What the retarget of rig/capacity.py keeps in bounds.
use native.Mathlib.Nat.{le_trans, le-div_iff_mul-le, div-le_of_le-mul}
use sestrian.Base.{
  ℕ, ◌+◌, ◌*◌, ◌/◌, ◌≤◌, ◌<◌, ◌≡◌, refl, ◌∙◌, true, false, List, [], ◌∷◌, if◌then◌else◌, leb, arith,
}
use sestrian.Base.Int.{pos, pos_part, sub_ℕ, ◌+ℤ◌, floor_div}
use sestrian.Capacity.{
  RetargetParams, Decision, raw_quota, next_quota, surplus, deficit, retarget_decide, Controller,
  activate, thaw_or_grow, freeze_one, adopt, observe_window, simulate, staleness_of, accepted_of,
}

-- The next quota lies in the band.
next_quota-band :
    (r : RetargetParams) (quota accepted : ℕ)
    → r.quota_min ≤ r.quota_max
    → (r.quota_min ≤ next_quota r quota accepted) × (next_quota r quota accepted ≤ r.quota_max)
unfolding next_quota
next_quota-band r quota accepted h = (omega arith, omega arith)

raw-ge : (q a t : ℕ) → 0 < t → t ≤ a → q ≤ q * a / t
raw-ge q a t h k = (le-div_iff_mul-le h).1 (grind arith)

raw-le : (q a t : ℕ) → a ≤ t → q * a / t ≤ q
raw-le q a t k = div-le_of_le-mul t (grind arith)

-- A damped step never overshoots in the wrong direction.
step-up : (q raw n : ℕ) → q ≤ raw → q ≤ pos_part (pos q +ℤ floor_div (sub_ℕ raw q) n)
unfolding floor_div ◌+ℤ◌
step-up q raw n h = ground arith

step-down : (q raw n : ℕ) → raw ≤ q → pos_part (pos q +ℤ floor_div (sub_ℕ raw q) n) ≤ q
unfolding floor_div ◌+ℤ◌
step-down q raw n h = ground arith

next_quota-up :
    (r : RetargetParams) (quota accepted : ℕ)
    → quota ≤ r.quota_max
    → 0 < r.target_deltas
    → r.target_deltas ≤ accepted
    → quota ≤ next_quota r quota accepted
unfolding next_quota
next_quota-up r quota accepted high target met = ground (
  arith,
  raw-ge quota accepted r.target_deltas target met,
  step-up quota (raw_quota r quota accepted) r.damp_div,
)

next_quota-down :
    (r : RetargetParams) (quota accepted : ℕ)
    → r.quota_min ≤ quota
    → accepted ≤ r.target_deltas
    → next_quota r quota accepted ≤ quota
unfolding next_quota
next_quota-down r quota accepted low unmet = ground (
  arith,
  raw-le quota accepted r.target_deltas unmet,
  step-down quota (raw_quota r quota accepted) r.damp_div,
)

surplus_lem :
    (r : RetargetParams) (q accepted staleness : ℕ)
    → surplus r q accepted staleness ≡ true
    → (r.target_deltas ≤ accepted) × (staleness ≤ r.stale_ceiling)
unfolding surplus
surplus_lem r q accepted staleness h = ground arith

exclusive :
    (r : RetargetParams) (q pinned slack accepted staleness : ℕ)
    → 0 < r.k_sustain
    → leb r.k_sustain (if surplus r q accepted staleness then pinned + 1 else 0) ≡ true
    → leb r.k_sustain (if deficit r q accepted then slack + 1 else 0) ≡ false
unfolding surplus deficit
exclusive r q pinned slack accepted staleness sustain h = ground arith

-- From a quota in the band the retarget stays in the band, does not lower the quota where the
-- target is met and does not raise it where the target is not passed; it never asks to grow and to
-- freeze in one window, and what it calls a surplus met the target under the staleness ceiling.
pub retarget_decide_bounds :
    (r : RetargetParams) (quota pinned slack accepted staleness : ℕ)
    → r.quota_min ≤ quota
    → quota ≤ r.quota_max
    → 0 < r.target_deltas
    → 0 < r.k_sustain
    → let d = retarget_decide r quota pinned slack accepted staleness in
      (r.quota_min ≤ d.quota)
      × (d.quota ≤ r.quota_max)
      × (r.target_deltas ≤ accepted → quota ≤ d.quota)
      × (accepted ≤ r.target_deltas → d.quota ≤ quota)
      × (d.schedule ≡ true → d.freeze ≡ false)
      × (d.thaw_ok ≡ true → (r.target_deltas ≤ accepted) × (staleness ≤ r.stale_ceiling))
unfolding retarget_decide
retarget_decide_bounds r quota pinned slack accepted staleness low high target sustain =
    let band = next_quota-band r quota accepted (le_trans low high) in
    (
      band.0,
      band.1,
      λ met. next_quota-up r quota accepted high target met,
      λ unmet. next_quota-down r quota accepted low unmet,
      λ grow.
          exclusive r (next_quota r quota accepted) pinned slack accepted staleness sustain grow,
      λ rich. surplus_lem r (next_quota r quota accepted) accepted staleness rich,
    )

retarget-band :
    (r : RetargetParams) (quota pinned slack accepted staleness : ℕ)
    → r.quota_min ≤ r.quota_max
    → let d = retarget_decide r quota pinned slack accepted staleness in
      (r.quota_min ≤ d.quota) × (d.quota ≤ r.quota_max)
unfolding retarget_decide
retarget-band r quota pinned slack accepted staleness h = next_quota-band r quota accepted h

-- The modules are accounted for, and the quota lies in its band.
pub record IsSound (c : Controller) : Type 0 where
  pub floor : c.min_active ≤ c.active_modules
  pub within : c.active_modules ≤ c.total_modules
  pub low : c.params.quota_min ≤ c.quota
  pub high : c.quota ≤ c.params.quota_max

-- What no window changes, and what it never lowers.
pub record IsLater (b c : Controller) : Type 0 where
  pub params_same : c.params ≡ b.params
  pub min_same : c.min_active ≡ b.min_active
  pub total_grows : b.total_modules ≤ c.total_modules

IsLater-trans : {a b c : Controller} → IsLater a b → IsLater b c → IsLater a c
IsLater-trans h k = record {
  params_same = k.params_same ∙ h.params_same;
  min_same = k.min_same ∙ h.min_same;
  total_grows = le_trans h.total_grows k.total_grows;
}

abbrev Follows : Controller → Controller → Type 0
Follows b c = IsSound c × IsLater b c

activate-IsSound : (c : Controller) → IsSound c → Follows c (activate c)
unfolding activate
activate-IsSound c h = (omega arith, ground arith)

adopt-IsSound :
    (d : Decision) (c : Controller)
    → c.params.quota_min ≤ d.quota
    → d.quota ≤ c.params.quota_max
    → IsSound c
    → Follows c (adopt d c)
unfolding adopt
adopt-IsSound d c low high h = (omega arith, ground arith)

thaw_or_grow-IsSound : (d : Decision) (c : Controller) → IsSound c → Follows c (thaw_or_grow d c)
unfolding thaw_or_grow
thaw_or_grow-IsSound d c h = (ground arith, ground arith)

freeze_one-IsSound : (d : Decision) (c : Controller) → IsSound c → Follows c (freeze_one d c)
unfolding freeze_one
freeze_one-IsSound d c h = (ground arith, ground arith)

params-activate : (c : Controller) → (activate c).params ≡ c.params
unfolding activate
params-activate c = refl

-- A window keeps the genesis modules active, the active modules within the total and the quota in
-- its band, and never lowers the total: the ratchet.
pub observe_window-IsSound :
    (accepted staleness : ℕ) (c : Controller)
    → IsSound c
    → IsSound (observe_window accepted staleness c)
      × IsLater c (observe_window accepted staleness c)
unfolding observe_window
observe_window-IsSound accepted staleness c h =
    let c1 = activate c in
    let s1 = activate-IsSound c h in
    let d = retarget_decide c.params c1.quota c1.pinned_streak c1.slack_streak accepted staleness in
    let band =
      retarget-band c.params c1.quota c1.pinned_streak c1.slack_streak accepted staleness
        (le_trans h.low h.high) in
    let s2 = adopt-IsSound d c1 band.0 band.1 s1.0 in
    let s3 = thaw_or_grow-IsSound d (adopt d c1) s2.0 in
    let s4 = freeze_one-IsSound d (thaw_or_grow d (adopt d c1)) s3.0 in
    (s4.0, IsLater-trans (IsLater-trans (IsLater-trans s1.1 s2.1) s3.1) s4.1)

-- Over any fleet history the genesis modules stay active, the quota stays in its band, and the
-- total never shrinks.
pub simulate-IsSound :
    (per_unit : ℕ) (trace : List ℕ) (c : Controller)
    → IsSound c
    → IsSound (simulate per_unit trace c) × IsLater c (simulate per_unit trace c)
unfolding simulate
simulate-IsSound per_unit [] c h =
    (h, record { params_same = refl; min_same = refl; total_grows = omega arith })
simulate-IsSound per_unit (fleet ∷ trace) c h =
    let staleness = staleness_of c.active_modules fleet in
    let accepted = accepted_of per_unit fleet c.quota staleness in
    let one = observe_window-IsSound accepted staleness c h in
    let rest = simulate-IsSound per_unit trace (observe_window accepted staleness c) one.0 in
    (rest.0, IsLater-trans one.1 rest.1)
