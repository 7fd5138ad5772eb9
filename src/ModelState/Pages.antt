-- ===== src/ModelState/Pages.antt =====
-- The page table of rig/model_state.py: growth appends, and nothing moves.
use sestrian.Base.{
  ℕ, zero, suc, ◌+◌, ◌≤◌, ◌≡◌, refl, ◌∙◌, List, [], ◌∷◌, ◌++◌, leb, arith, inl, inr, Bool-cases,
  ◌&&◌, All, filter, ltb,
}
use sestrian.Base.Int.{pos}
use sestrian.Platform.{Platform}
use sestrian.Capacity.{Decision}
use sestrian.ModelState.{
  GenesisParams, Page, PageStatus, active, frozen, expert, GrowthEvent, ModelState, expert_page_len,
  last_stop, dim, genesis_page_count, next_expert,
}
use sestrian.ModelState.Fold.{
  BlockFacts, accumulate, activate_event, activate_all, grown, has_status, set_status, last_of,
  adopt, schedule_growth, thaw_or_grow, freeze_newest, reset_window, due, open_window, decide,
  close_window, is_boundary, fold,
}

-- The same page, but for its status.
pub record SameSpan (q r : Page) : Type 0 where
  pub start_same : r.start ≡ q.start
  pub stop_same : r.stop ≡ q.stop
  pub kind_same : r.kind ≡ q.kind
  pub layer_same : r.layer ≡ q.layer
  pub index_same : r.index ≡ q.index

-- The later table begins with the pages of the earlier one; the first g of them are the same in
-- their status too.
abbrev pub Extends : ℕ → List Page → List Page → Type 0
Extends g [] rs = Unit
Extends g (q ∷ qs) [] = ⊥
Extends zero (q ∷ qs) (r ∷ rs) = SameSpan q r × Extends zero qs rs
Extends (suc g) (q ∷ qs) (r ∷ rs) = (r ≡ q) × Extends g qs rs

SameSpan-refl : (q : Page) → SameSpan q q
SameSpan-refl q = record {
  start_same = refl;
  stop_same = refl;
  kind_same = refl;
  layer_same = refl;
  index_same = refl;
}

SameSpan-trans : {q r s : Page} → SameSpan q r → SameSpan r s → SameSpan q s
SameSpan-trans h k = record {
  start_same = k.start_same ∙ h.start_same;
  stop_same = k.stop_same ∙ h.stop_same;
  kind_same = k.kind_same ∙ h.kind_same;
  layer_same = k.layer_same ∙ h.layer_same;
  index_same = k.index_same ∙ h.index_same;
}

pub Extends-append : (g : ℕ) (qs rs : List Page) → Extends g qs (qs ++ rs)
Extends-append g [] rs = tt
Extends-append zero (q ∷ qs) rs = (SameSpan-refl q, Extends-append zero qs rs)
Extends-append (suc g) (q ∷ qs) rs = (refl, Extends-append g qs rs)

pub Extends-refl : (g : ℕ) (qs : List Page) → Extends g qs qs
Extends-refl g [] = tt
Extends-refl zero (q ∷ qs) = (SameSpan-refl q, Extends-refl zero qs)
Extends-refl (suc g) (q ∷ qs) = (refl, Extends-refl g qs)

pub Extends-trans :
    (g : ℕ) (qs rs ss : List Page) → Extends g qs rs → Extends g rs ss → Extends g qs ss
Extends-trans g [] rs ss h k = tt
Extends-trans g (q ∷ qs) [] ss h k = absurd h
Extends-trans g (q ∷ qs) (r ∷ rs) [] h k = absurd (no_tail g r rs k)
  where
    no_tail : (g : ℕ) (r : Page) (rs : List Page) → Extends g (r ∷ rs) [] → ⊥
    no_tail zero r rs k = k
    no_tail (suc g) r rs k = k
Extends-trans zero (q ∷ qs) (r ∷ rs) (s ∷ ss) h k =
    (SameSpan-trans h.0 k.0, Extends-trans zero qs rs ss h.1 k.1)
Extends-trans (suc g) (q ∷ qs) (r ∷ rs) (s ∷ ss) h k = (k.0 ∙ h.0, Extends-trans g qs rs ss h.1 k.1)

-- A status written at or past g.
Extends-set_status :
    (g : ℕ) (st : PageStatus) (i : ℕ) (qs : List Page) → g ≤ i → Extends g qs (set_status st i qs)
unfolding set_status
Extends-set_status g st i [] h = tt
Extends-set_status zero st zero (q ∷ qs) h = (
  record {
    start_same = refl;
    stop_same = refl;
    kind_same = refl;
    layer_same = refl;
    index_same = refl;
  },
  Extends-refl zero qs,
)
Extends-set_status zero st (suc i) (q ∷ qs) h =
    (SameSpan-refl q, Extends-set_status zero st i qs (omega arith))
Extends-set_status (suc g) st zero (q ∷ qs) h = absurd (omega arith)
Extends-set_status (suc g) st (suc i) (q ∷ qs) h =
    (refl, Extends-set_status g st i qs (omega arith))

-- The ids that `grown` lists are at or past g.
grown-past : (st : PageStatus) (g i : ℕ) (qs : List Page) → All (λ j. g ≤ j) (grown st g i qs)
unfolding grown
grown-past st g i [] = tt
grown-past st g i (q ∷ qs) = elim (Bool-cases (leb g i && has_status st q)) [
  | inl listed ↦ rw listed (ground arith, grown-past st g (i + 1) qs)
  | inr left_out ↦ rw left_out (grown-past st g (i + 1) qs)
]

last_of-past : (g i : ℕ) (is : List ℕ) → g ≤ i → All (λ j. g ≤ j) is → g ≤ last_of i is
last_of-past g i [] h k = h
last_of-past g i (j ∷ js) h k = last_of-past g j js k.0 k.1

-- The pages tile the weight vector: each begins where the one before it ends.
abbrev pub Tiles : ℕ → List Page → Type 0
Tiles off [] = Unit
Tiles off (q ∷ qs) = (q.start ≡ off) × Tiles q.stop qs

Tiles-append :
    (off : ℕ) (qs : List Page) (r : Page)
    → Tiles off qs
    → r.start ≡ last_stop off qs
    → Tiles off (qs ++ r ∷ [])
unfolding last_stop
Tiles-append off [] r h e = (e, tt)
Tiles-append off (q ∷ qs) r h e = (h.0, Tiles-append q.stop qs r h.1 e)

Tiles-set_status :
    (off : ℕ) (st : PageStatus) (i : ℕ) (qs : List Page)
    → Tiles off qs
    → Tiles off (set_status st i qs)
unfolding set_status
Tiles-set_status off st i [] h = tt
Tiles-set_status off st zero (q ∷ qs) h = h
Tiles-set_status off st (suc i) (q ∷ qs) h = (h.0, Tiles-set_status q.stop st i qs h.1)

-- What every stage of `fold` does to the page table.
abbrev pub Grows : ℕ → List Page → List Page → Type 0
Grows g qs rs = Extends g qs rs × (Tiles 0 qs → Tiles 0 rs)

Grows-refl : (g : ℕ) (qs : List Page) → Grows g qs qs
Grows-refl g qs = (Extends-refl g qs, λ h. h)

Grows-trans : (g : ℕ) (qs rs ss : List Page) → Grows g qs rs → Grows g rs ss → Grows g qs ss
Grows-trans g qs rs ss h k = (Extends-trans g qs rs ss h.0 k.0, λ t. k.1 (h.1 t))

Grows-set_status :
    (g : ℕ) (st : PageStatus) (i : ℕ) (qs : List Page) → g ≤ i → Grows g qs (set_status st i qs)
Grows-set_status g st i qs h = (Extends-set_status g st i qs h, Tiles-set_status 0 st i qs)

activate_event-Grows :
    (n : ℕ) (g : GenesisParams) (e : GrowthEvent) (s : ModelState)
    → Grows n s.pages (activate_event g e s).pages
unfolding activate_event dim
activate_event-Grows n g e s =
    let r : Page = record {
      start = last_stop 0 s.pages;
      stop = last_stop 0 s.pages + expert_page_len g.spec;
      kind = expert;
      layer = pos e.layer;
      index = pos (next_expert e.layer s.pages);
      status = active;
    } in
    (Extends-append n s.pages (r ∷ []), λ t. Tiles-append 0 s.pages r t refl)

activate_all-Grows :
    (n : ℕ) (g : GenesisParams) (es : List GrowthEvent) (s : ModelState)
    → Grows n s.pages (activate_all g es s).pages
unfolding activate_all
activate_all-Grows n g [] s = Grows-refl n s.pages
activate_all-Grows n g (e ∷ es) s =
    Grows-trans n s.pages (activate_event g e s).pages
      (activate_all g es (activate_event g e s)).pages (activate_event-Grows n g e s)
      (activate_all-Grows n g es (activate_event g e s))

pages-schedule_growth :
    (g : GenesisParams) (d : Decision) (prev : ℕ) (s : ModelState)
    → (schedule_growth g d prev s).pages ≡ s.pages
unfolding schedule_growth
pages-schedule_growth g d prev s = ground arith

thaw_or_grow-Grows :
    (n : ℕ) (g : GenesisParams) (d : Decision) (prev : ℕ) (is : List ℕ) (s : ModelState)
    → All (λ j. n ≤ j) is
    → Grows n s.pages (thaw_or_grow g d prev is s).pages
unfolding thaw_or_grow schedule_growth
thaw_or_grow-Grows n g d prev [] s h = rw (pages-schedule_growth g d prev s) (Grows-refl n s.pages)
thaw_or_grow-Grows n g d prev (i ∷ is) s h = elim (Bool-cases d.thaw_ok) [
  | inl thaws ↦ rw thaws (Grows-set_status n active i s.pages h.0)
  | inr stays ↦ rw (stays, pages-schedule_growth g d prev s) (Grows-refl n s.pages)
]

freeze_newest-Grows :
    (n : ℕ) (d : Decision) (is : List ℕ) (s : ModelState)
    → All (λ j. n ≤ j) is
    → Grows n s.pages (freeze_newest d is s).pages
unfolding freeze_newest
freeze_newest-Grows n d [] s h = Grows-refl n s.pages
freeze_newest-Grows n d (i ∷ is) s h = elim (Bool-cases d.freeze) [
  | inl freezes ↦
      rw freezes (Grows-set_status n frozen (last_of i is) s.pages (last_of-past n i is h.0 h.1))
  | inr stays ↦ rw stays (Grows-refl n s.pages)
]

close_window-Grows :
    (g : GenesisParams) (prev : ℕ) (s : ModelState)
    → Grows (genesis_page_count g.spec) s.pages (close_window g prev s).pages
unfolding close_window reset_window adopt open_window
close_window-Grows g prev s =
    let n = genesis_page_count g.spec in
    let s1 = open_window g s in
    let d = decide g s1 in
    let s2 = thaw_or_grow g d prev (grown frozen n 0 s1.pages) (adopt d s1) in
    Grows-trans n s.pages s1.pages (close_window g prev s).pages
      (activate_all-Grows n g (due s) (record s {
        window_id = s.window_id + 1;
        pending_growth = filter (λ e. ltb (s.window_id + 1) e.window) s.pending_growth;
      }))
      (Grows-trans n s1.pages s2.pages (close_window g prev s).pages
        (thaw_or_grow-Grows n g d prev (grown frozen n 0 s1.pages) (adopt d s1)
          (grown-past frozen n 0 s1.pages))
        (freeze_newest-Grows n d (grown active n 0 s1.pages) s2 (grown-past active n 0 s1.pages)))

-- A block's fold keeps every page where it was: ids, spans, layers and expert indices never
-- change, the genesis pages never freeze or change at all, and a table that tiles the weight
-- vector tiles the longer one.
pub fold-Grows :
    (p : Platform) (g : GenesisParams) (b : BlockFacts) (s : ModelState)
    → Extends (genesis_page_count g.spec) s.pages (fold p g b s).pages
      × (Tiles 0 s.pages → Tiles 0 (fold p g b s).pages)
unfolding fold accumulate
fold-Grows p g b s = elim (Bool-cases (is_boundary g b.height)) [
  | inl boundary ↦ rw boundary (close_window-Grows g b.prev_hash (accumulate p g b s))
  | inr inside ↦ rw inside (Grows-refl (genesis_page_count g.spec) s.pages)
]
