-- ===== src/ModelState/Growth.antt =====
-- When `fold` of rig/model_state.py may schedule growth.
use sestrian.Base.{
  ℕ, ◌+◌, ◌≤◌, ◌<◌, ◌≡◌, ◌≢◌, refl, ◌∙◌, true, List, [], ◌∷◌, ltb, length, arith, inl, inr,
  Bool-cases, filter, ap, ◌⊎◌, if◌then◌else◌, Bool, false, not, ◌&&◌, ◌||◌, ◌++◌, ◌==◌, leb,
  contains, All, Unrepeated, append-Unrepeated,
}
use mathlib.Core.Path.{subst}
use sestrian.Base.Int.{pos, ltb_ℤ}
use sestrian.Platform.{Platform}
use sestrian.Capacity.{Decision, retarget_decide, surplus}
use sestrian.ModelState.{
  GenesisParams, GrowthEvent, ModelState, active, frozen, genesis, genesis_page_count,
}
use sestrian.ModelState.Fold.{
  BlockFacts, rev_at, record_scorer, accumulate, activate_event, activate_all, adopt,
  schedule_growth, thaw_or_grow, freeze_newest, reset_window, due, open_window, decide,
  close_window, is_boundary, fold, staleness, grown,
}

-- A scheduled growth had a staleness under the ceiling.
decide-schedule :
    (g : GenesisParams) (s : ModelState)
    → 0 < g.k_sustain
    → (decide g s).schedule ≡ true
    → staleness g s ≤ g.stale_ceiling
unfolding decide retarget_decide surplus
decide-schedule g s sustain h = ground arith

staleness_quorum :
    (g : GenesisParams) (s : ModelState)
    → g.stale_ceiling < 10_000
    → 4 ≤ s.rev
    → staleness g s ≤ g.stale_ceiling
    → g.growth_quorum ≤ length s.win_scorers
unfolding staleness
staleness_quorum g s ceiling rev h = ground arith

activate_all-keeps :
    (g : GenesisParams) (es : List GrowthEvent) (s : ModelState)
    → let s' = activate_all g es s in
      (s'.win_scorers ≡ s.win_scorers) × (s'.rev ≡ s.rev) × (s'.events_total ≡ s.events_total)
unfolding activate_all activate_event
activate_all-keeps g [] s = (refl, refl, refl)
activate_all-keeps g (e ∷ es) s =
    let ih = activate_all-keeps g es (activate_event g e s) in (ih.0, ih.1, ih.2)

open_window-keeps :
    (g : GenesisParams) (s : ModelState)
    → let s' = open_window g s in
      (s'.win_scorers ≡ s.win_scorers) × (s'.rev ≡ s.rev) × (s'.events_total ≡ s.events_total)
unfolding open_window
open_window-keeps g s =
    let ih = activate_all-keeps g (due s) (record s {
      window_id = s.window_id + 1;
      pending_growth = filter (λ e. ltb (s.window_id + 1) e.window) s.pending_growth;
    }) in
    (ih.0, ih.1, ih.2)

events_total-freeze :
    (d : Decision) (is : List ℕ) (s : ModelState)
    → (freeze_newest d is s).events_total ≡ s.events_total
unfolding freeze_newest
events_total-freeze d [] s = refl
events_total-freeze d (i ∷ is) s = ground arith

events_total-thaw :
    (g : GenesisParams) (d : Decision) (prev : ℕ) (is : List ℕ) (s : ModelState)
    → ((thaw_or_grow g d prev is s).events_total ≡ s.events_total) ⊎ (d.schedule ≡ true)
unfolding thaw_or_grow schedule_growth
events_total-thaw g d prev [] s = ground arith
events_total-thaw g d prev (i ∷ is) s = ground arith

close_window-schedule :
    (g : GenesisParams) (prev : ℕ) (s : ModelState)
    → ((close_window g prev s).events_total ≡ s.events_total)
      ⊎ ((decide g (open_window g s)).schedule ≡ true)
unfolding close_window reset_window adopt
close_window-schedule g prev s =
    let s1 = open_window g s in
    let d = decide g s1 in
    let n = genesis_page_count g.spec in
    let s2 = thaw_or_grow g d prev (grown frozen n 0 s1.pages) (adopt d s1) in
    elim (events_total-thaw g d prev (grown frozen n 0 s1.pages) (adopt d s1)) [
      | inl same_count ↦ inl (
          events_total-freeze d (grown active n 0 s1.pages) s2
          ∙ same_count
          ∙ (open_window-keeps g s).2)
      | inr scheduled ↦ inr scheduled
    ]

accumulate_v4 :
    (p : Platform) (g : GenesisParams) (b : BlockFacts) (s : ModelState)
    → g.v4_height ≤ b.height
    → let s' = accumulate p g b s in
      (s'.win_scorers ≡ record_scorer p g b 4 s.win_scorers) × (s'.rev ≡ 4)
unfolding accumulate
accumulate_v4 p g b s v4 =
    let e : rev_at g b.height s.rev ≡ 4 = ground arith in
    (ap (λ r. record_scorer p g b r s.win_scorers) e, e)

fold-schedule :
    (p : Platform) (g : GenesisParams) (b : BlockFacts) (s : ModelState)
    → ((fold p g b s).events_total ≡ s.events_total)
      ⊎ ((is_boundary g b.height ≡ true)
          × ((decide g (open_window g (accumulate p g b s))).schedule ≡ true))
unfolding fold
fold-schedule p g b s = elim (Bool-cases (is_boundary g b.height)) [
  | inl boundary ↦ elim (close_window-schedule g b.prev_hash (accumulate p g b s)) [
    | inl same_count ↦ inl (rw boundary (unfold accumulate in same_count))
    | inr scheduled ↦ inr (boundary, scheduled)
  ]
  | inr inside ↦ inl (rw inside (unfold accumulate in refl))
]

-- The model state after a history of blocks, the last block first.
unfoldable pub fold_all : Platform → GenesisParams → List BlockFacts → ModelState
fold_all p g [] = genesis g.spec
fold_all p g (b ∷ blocks) = fold p g b (fold_all p g blocks)

-- The blocks of a history after the last one that closed a window.
unfoldable pub open_blocks : GenesisParams → List BlockFacts → List BlockFacts
open_blocks g [] = []
open_blocks g (b ∷ blocks) =
    let rest = open_blocks g blocks in if is_boundary g b.height then [] else b ∷ rest

-- The miner, which is not blank, proposed one of the blocks, with a score above 0.
unfoldable pub has_scored : Platform → List BlockFacts → ℕ → Bool
has_scored p [] m = false
has_scored p (b ∷ blocks) m =
    (b.proposer == m && (ltb_ℤ (pos 0) b.score_sum && not (m == p.blank))) || has_scored p blocks m

module _ (p : Platform) (g : GenesisParams) where
  abbrev AreScorers : List BlockFacts → List ℕ → Type 0
  AreScorers blocks scorers = Unrepeated scorers × All (λ m. has_scored p blocks m ≡ true) scorers

  -- With one more block, the scorers so far are scorers still.
  still_scorers :
      (b : BlockFacts) (blocks : List BlockFacts) (scorers : List ℕ)
      → All (λ m. has_scored p blocks m ≡ true) scorers
      → All (λ m. has_scored p (b ∷ blocks) m ≡ true) scorers
  unfolding has_scored
  still_scorers b blocks [] h = tt
  still_scorers b blocks (m ∷ scorers) h = (ground (arith, h.0), still_scorers b blocks scorers h.1)

  append-scorer :
      (b : BlockFacts) (blocks : List BlockFacts) (scorers : List ℕ)
      → ltb_ℤ (pos 0) b.score_sum ≡ true
      → (b.proposer == p.blank) ≡ false
      → All (λ m. has_scored p blocks m ≡ true) scorers
      → All (λ m. has_scored p (b ∷ blocks) m ≡ true) (scorers ++ b.proposer ∷ [])
  unfolding has_scored
  append-scorer b blocks [] positive named h = (ground (arith, positive, named), tt)
  append-scorer b blocks (m ∷ scorers) positive named h =
      (ground (arith, h.0), append-scorer b blocks scorers positive named h.1)

  record_scorer-AreScorers :
      (b : BlockFacts) (blocks : List BlockFacts) (rev : ℕ) (scorers : List ℕ)
      → AreScorers blocks scorers
      → AreScorers (b ∷ blocks) (record_scorer p g b rev scorers)
  unfolding record_scorer
  record_scorer-AreScorers b blocks rev scorers h = elim (Bool-cases test) [
    | inl new ↦ rw new (
      append-Unrepeated scorers b.proposer (ground (arith, new)) h.0,
      append-scorer b blocks scorers (ground (arith, new)) (ground (arith, new)) h.1,
    )
    | inr old ↦ rw old (h.0, still_scorers b blocks scorers h.1)
  ]
    where
      test : Bool
      test =
          leb 4 rev
          && (ltb_ℤ (pos 0) b.score_sum
              && (not (b.proposer == p.blank)
                  && (not (contains b.proposer scorers) && ltb (length scorers) g.growth_quorum)))

  accumulate-AreScorers :
      (b : BlockFacts) (blocks : List BlockFacts) (s : ModelState)
      → AreScorers blocks s.win_scorers
      → AreScorers (b ∷ blocks) (accumulate p g b s).win_scorers
  unfolding accumulate
  accumulate-AreScorers b blocks s h =
      record_scorer-AreScorers b blocks (rev_at g b.height s.rev) s.win_scorers h

  -- The scorers that the state holds have scored in the window that is open.
  fold_all-AreScorers :
      (blocks : List BlockFacts)
      → AreScorers (open_blocks g blocks) (fold_all p g blocks).win_scorers
  unfolding fold_all open_blocks fold close_window reset_window genesis
  fold_all-AreScorers [] = (tt, tt)
  fold_all-AreScorers (b ∷ blocks) = elim (Bool-cases (is_boundary g b.height)) [
    | inl boundary ↦ rw boundary (tt, tt)
    | inr inside ↦ rw inside (
        accumulate-AreScorers b (open_blocks g blocks) (fold_all p g blocks)
          (fold_all-AreScorers blocks))
  ]

  -- The quorum gate, for parameters with a streak to sustain and a staleness ceiling below 10,000:
  -- where a block from the v4 height on schedules growth after any history from genesis, it closes a
  -- window, and at least the quorum of distinct miners, none of them blank, have each proposed a block
  -- of that window, this one included, with a score above 0.
  pub fold_quorum :
      (b : BlockFacts) (blocks : List BlockFacts)
      → 0 < g.k_sustain
      → g.stale_ceiling < 10_000
      → g.v4_height ≤ b.height
      → (fold p g b (fold_all p g blocks)).events_total ≢ (fold_all p g blocks).events_total
      → (is_boundary g b.height ≡ true)
        × ((scorers : List ℕ) × (g.growth_quorum ≤ length scorers)
            × Unrepeated scorers
            × All (λ m. has_scored p (b ∷ open_blocks g blocks) m ≡ true) scorers)
  fold_quorum b blocks sustain ceiling v4 grew =
      let s = fold_all p g blocks in
      elim (fold-schedule p g b s) [
        | inl same_count ↦ absurd (grew same_count)
        | inr (boundary, scheduled) ↦
            let s1 = open_window g (accumulate p g b s) in
            let kept = open_window-keeps g (accumulate p g b s) in
            let e = accumulate_v4 p g b s v4 in
            let (distinct, scored) =
              accumulate-AreScorers b (open_blocks g blocks) s (fold_all-AreScorers blocks) in
            (
              boundary,
              (
                (accumulate p g b s).win_scorers,
                subst (λ xs. g.growth_quorum ≤ length xs) kept.0
                    (staleness_quorum g s1 ceiling (omega (arith, kept.1, e.1))
                      (decide-schedule g s1 sustain scheduled)),
                distinct,
                scored,
              ),
            )
      ]
