-- ===== src/ModelState/Fold.antt =====
-- `fold` of rig/model_state.py: the transition of the model state by one block.
use sestrian.Base.{
  ℕ, zero, suc, ◌+◌, ◌*◌, ◌/◌, ◌%◌, max, Bool, true, false, not, ◌&&◌, List, [], ◌∷◌, ◌++◌,
  if◌then◌else◌, ltb, leb, ◌==◌, filter, length, contains,
}
use sestrian.Base.Int.{ℤ, pos, ◌+ℤ◌, ltb_ℤ}
use sestrian.Platform.{Platform}
use sestrian.Capacity.{Decision, retarget_decide}
use sestrian.ModelState.{
  GenesisParams, retarget_params, Page, PageStatus, active, frozen, expert, GrowthEvent, ModelState,
  expert_page_len, dim, is_active_page, genesis_page_count, next_expert,
}

-- What `fold` reads of a block.
pub record BlockFacts : Type 0 where
  pub height : ℕ
  pub n_txs : ℕ
  pub zero_scored : ℕ
  pub prev_hash : ℕ
  pub score_sum : ℤ
  pub proposer : ℕ

-- `(page_id, layer, expert_idx, trigger_hash)`
pub record Activation : Type 0 where
  pub page_id : ℕ
  pub layer : ℕ
  pub expert_idx : ℕ
  pub trigger : ℕ

abbrev pub rev_at : GenesisParams → ℕ → ℕ → ℕ
rev_at g height rev =
    if leb g.v4_height height then 4 else if leb g.v3_height height then 3 else rev

-- The distinct positive scorers of the window, capped at the quorum.
unfoldable pub record_scorer : Platform → GenesisParams → BlockFacts → ℕ → List ℕ → List ℕ
record_scorer p g b rev scorers =
    if leb 4 rev
      && (ltb_ℤ (pos 0) b.score_sum
          && (not (b.proposer == p.blank)
              && (not (contains b.proposer scorers) && ltb (length scorers) g.growth_quorum)))
    then scorers ++ b.proposer ∷ []
    else scorers

-- The accumulators, before the window's boundary is looked at.
unfoldable pub accumulate : Platform → GenesisParams → BlockFacts → ModelState → ModelState
accumulate p g b s =
    let rev = rev_at g b.height s.rev in
    record s {
      rev = rev;
      win_accepted = s.win_accepted + b.n_txs;
      win_zero_scored = s.win_zero_scored + b.zero_scored;
      win_score_sum = if leb 3 rev then s.win_score_sum +ℤ b.score_sum else s.win_score_sum;
      win_scorers = record_scorer p g b rev s.win_scorers;
    }

-- One due growth event appends its page.
unfoldable pub activate_event : GenesisParams → GrowthEvent → ModelState → ModelState
activate_event g e s = record s {
  pages =
      s.pages
      ++ record {
        start = dim s;
        stop = dim s + expert_page_len g.spec;
        kind = expert;
        layer = pos e.layer;
        index = pos (next_expert e.layer s.pages);
        status = active;
      }
        ∷ [];
}

unfoldable pub activate_all : GenesisParams → List GrowthEvent → ModelState → ModelState
activate_all g [] s = s
activate_all g (e ∷ es) s = activate_all g es (activate_event g e s)

-- The list that `fold` returns beside the state.
unfoldable pub activations : GenesisParams → List GrowthEvent → ModelState → List Activation
activations g [] s = []
activations g (e ∷ es) s =
    record {
      page_id = length s.pages;
      layer = e.layer;
      expert_idx = next_expert e.layer s.pages;
      trigger = e.trigger;
    }
    ∷ activations g es (activate_event g e s)

-- The staleness signal of the window, by protocol revision.
unfoldable pub staleness : GenesisParams → ModelState → ℕ
staleness g s =
    if leb 4 s.rev
    then (if leb g.growth_quorum (length s.win_scorers) then 0 else 10_000)
    else if leb 3 s.rev
    then (if ltb_ℤ (pos 0) s.win_score_sum then 0 else 10_000)
    else s.win_zero_scored * 10_000 / max 1 s.win_accepted

abbrev pub has_status : PageStatus → Page → Bool
has_status active q = is_active_page q
has_status frozen q = not (is_active_page q)

-- The ids from `genesis` on of the pages with a status: `frozen_grown` and `active_grown`.
unfoldable pub grown : PageStatus → ℕ → ℕ → List Page → List ℕ
grown st genesis i [] = []
grown st genesis i (q ∷ pages) =
    let rest = grown st genesis (i + 1) pages in
    if leb genesis i && has_status st q then i ∷ rest else rest

-- `pages[i][5] = status`
unfoldable pub set_status : PageStatus → ℕ → List Page → List Page
set_status st i [] = []
set_status st zero (q ∷ pages) = record q { status = st } ∷ pages
set_status st (suc i) (q ∷ pages) = q ∷ set_status st i pages

-- `max(i ∷ is)`; the ids ascend.
abbrev pub last_of : ℕ → List ℕ → ℕ
last_of i [] = i
last_of i (j ∷ js) = last_of j js

unfoldable pub adopt : Decision → ModelState → ModelState
adopt d s = record s {
  quota = d.quota;
  pinned_streak = d.pinned_streak;
  slack_streak = d.slack_streak;
}

abbrev pub is_idle : List GrowthEvent → Bool
is_idle [] = true
is_idle (e ∷ es) = false

unfoldable pub schedule_growth : GenesisParams → Decision → ℕ → ModelState → ModelState
schedule_growth g d prev_hash s =
    if d.schedule && is_idle s.pending_growth
    then record s {
      pending_growth =
          s.pending_growth
          ++ record {
            window = s.window_id + g.announce_lead;
            layer = s.events_total % g.spec.n_layers;
            trigger = prev_hash;
          }
            ∷ [];
      events_total = s.events_total + 1;
      pinned_streak = 0;
      quota = (g.quota_min + g.quota_max) / 2;
    }
    else s

-- Recovery first: the lowest frozen page thaws before growth is considered. The ids ascend, so the
-- first is `min(frozen_grown)`.
unfoldable pub thaw_or_grow : GenesisParams → Decision → ℕ → List ℕ → ModelState → ModelState
thaw_or_grow g d prev_hash [] s = schedule_growth g d prev_hash s
thaw_or_grow g d prev_hash (i ∷ is) s =
    if d.thaw_ok
    then record s { pages = set_status active i s.pages; pinned_streak = 0 }
    else schedule_growth g d prev_hash s

-- Decline: the newest active grown page freezes.
unfoldable pub freeze_newest : Decision → List ℕ → ModelState → ModelState
freeze_newest d [] s = s
freeze_newest d (i ∷ is) s =
    if d.freeze
    then record s { pages = set_status frozen (last_of i is) s.pages; slack_streak = 0 }
    else s

unfoldable pub reset_window : ModelState → ModelState
reset_window s = record s {
  win_accepted = 0;
  win_zero_scored = 0;
  win_score_sum = pos 0;
  win_scorers = [];
}

-- The due events of the new window.
abbrev pub due : ModelState → List GrowthEvent
due s = filter (λ e. leb e.window (s.window_id + 1)) s.pending_growth

unfoldable pub open_window : GenesisParams → ModelState → ModelState
open_window g s = activate_all g (due s) (record s {
  window_id = s.window_id + 1;
  pending_growth = filter (λ e. ltb (s.window_id + 1) e.window) s.pending_growth;
})

unfoldable pub decide : GenesisParams → ModelState → Decision
decide g s =
    retarget_decide (retarget_params g) s.quota s.pinned_streak s.slack_streak s.win_accepted
      (staleness g s)

-- The boundary of a retarget window. Both id lists are taken before a page is thawed.
unfoldable pub close_window : GenesisParams → ℕ → ModelState → ModelState
close_window g prev_hash s =
    let s1 = open_window g s in
    let d = decide g s1 in
    let n = genesis_page_count g.spec in
    reset_window (
      freeze_newest d (grown active n 0 s1.pages)
        (thaw_or_grow g d prev_hash (grown frozen n 0 s1.pages) (adopt d s1)))

abbrev pub is_boundary : GenesisParams → ℕ → Bool
is_boundary g height = ltb 0 height && height % g.retarget_window == 0

-- `fold`
unfoldable pub fold : Platform → GenesisParams → BlockFacts → ModelState → ModelState
fold p g b s =
    let s0 = accumulate p g b s in
    if is_boundary g b.height then close_window g b.prev_hash s0 else s0

-- The activations that `fold` returns.
unfoldable pub fold_activations :
    Platform → GenesisParams → BlockFacts → ModelState → List Activation
fold_activations p g b s =
    let s0 = accumulate p g b s in
    if is_boundary g b.height
    then activations g (due s0) (record s0 { window_id = s0.window_id + 1 })
    else []
