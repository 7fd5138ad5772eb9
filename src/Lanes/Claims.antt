-- ===== src/Lanes/Claims.antt =====
-- Claims lie on active pages, and the lanes share all the experts out.
use native.Mathlib.Nat.{mod-lt}
use sestrian.Base.{
  ℕ, suc, ◌+◌, ◌%◌, ◌≤◌, ◌<◌, ◌≡◌, refl, ap, ◌∙◌, Bool, true, false, ◌&&◌, some, List, [], ◌∷◌,
  ◌++◌, if◌then◌else◌, leb, ◌==◌, length, get_elem?, contains, arith, inl, inr, Bool-cases, ==→eq,
  ◌⊎◌,
}
use sestrian.Platform.{Platform}
use sestrian.ModelState.{ModelState, Page, Kind, backbone, expert, is_active, is_active_page}
use sestrian.Lanes.{
  n_lanes, lane_of_miner, stripe, lane_pages, has_kind, active_ids, claimable_pages,
}

contains-append :
    (a : ℕ) (xs ys : List ℕ)
    → contains a (xs ++ ys) ≡ true
    → (contains a xs ≡ true) ⊎ (contains a ys ≡ true)
contains-append a [] ys h = inr h
contains-append a (x ∷ xs) ys h = elim (Bool-cases (a == x)) [
  | inl same ↦ inl (rw same refl)
  | inr other ↦ elim (contains-append a xs ys (ground (arith, other, h))) [
    | inl left ↦ inl (rw other left)
    | inr right ↦ inr right
  ]
]

contains-stripe :
    (a lane n k : ℕ) (ids : List ℕ)
    → contains a (stripe lane n k ids) ≡ true
    → contains a ids ≡ true
unfolding stripe
contains-stripe a lane n k [] h = h
contains-stripe a lane n k (i ∷ ids) h = ground (arith, contains-stripe a lane n (suc k) ids)

contains-lane_pages :
    (a lane n : ℕ) (ids : List ℕ)
    → contains a (lane_pages lane n ids) ≡ true
    → contains a ids ≡ true
unfolding lane_pages
contains-lane_pages a lane n ids h = ground (arith, contains-stripe a lane n 0 ids)

contains-if :
    (b : Bool) (a i : ℕ) (rest : List ℕ)
    → contains a (if b then i ∷ rest else rest) ≡ true
    → ((b ≡ true) × (a ≡ i)) ⊎ (contains a rest ≡ true)
contains-if true a i rest h = elim (Bool-cases (a == i)) [
  | inl same ↦ inl (refl, ==→eq a i same)
  | inr other ↦ inr (ground (arith, other, h))
]
contains-if false a i rest h = inr h

and_right : (b c : Bool) → (b && c) ≡ true → c ≡ true
and_right true c h = h
and_right false c h = cc h

-- An id that is listed is the place of an active page.
Listed : ℕ → ℕ → List Page → Type 0
Listed a i pages =
    (j : ℕ) × (a ≡ i + j) × (q : Page) × (get_elem? pages j ≡ some q) × (is_active_page q ≡ true)

contains-active_ids :
    (a : ℕ) (kind : Kind) (i : ℕ) (pages : List Page)
    → contains a (active_ids kind i pages) ≡ true
    → Listed a i pages
unfolding active_ids Listed
contains-active_ids a kind i [] h = cc h
contains-active_ids a kind i (q ∷ pages) h =
    elim (contains-if (has_kind kind q && is_active_page q) a i (active_ids kind (suc i) pages) h) [
      | inl (taken, same) ↦
          (0, omega (arith, same), q, refl, and_right (has_kind kind q) (is_active_page q) taken)
      | inr later ↦
          let (j, at, r, found, on) = contains-active_ids a kind (suc i) pages later in
          (suc j, omega (arith, at), r, found, on)
    ]

Listed-is_active : (a : ℕ) (state : ModelState) → Listed a 0 state.pages → is_active state a ≡ true
unfolding Listed is_active
Listed-is_active a state (j, at, q, found, on) =
    let here : get_elem? state.pages a ≡ some q =
      ap (get_elem? state.pages) (omega (arith, at)) ∙ found in
    rw (here, is_active) on

module _ (p : Platform) where
  -- Whatever a miner may claim in an epoch is an active page of the model.
  pub claimable_pages-is_active :
      (epoch miner_pub : ℕ) (state : ModelState) (lane_width a : ℕ)
      → contains a (claimable_pages p epoch miner_pub state lane_width) ≡ true
      → is_active state a ≡ true
  unfolding claimable_pages
  claimable_pages-is_active epoch miner_pub state lane_width a h =
      let experts = active_ids expert 0 state.pages in
      let n = n_lanes (length experts) lane_width in
      let lane = lane_of_miner p epoch miner_pub n in
      Listed-is_active a state
        (elim (contains-append a (lane_pages lane n experts) (active_ids backbone 0 state.pages)
          h) [
            | inl seat ↦
                contains-active_ids a expert 0 state.pages
                  (contains-lane_pages a lane n experts seat)
            | inr shared ↦ contains-active_ids a backbone 0 state.pages shared
          ])

  -- There is at least one lane, and the lane of a miner is one of them.
  pub lane_of_miner-lt :
      (epoch miner_pub active_expert_pages lane_width : ℕ)
      → let n = n_lanes active_expert_pages lane_width in
        (1 ≤ n) × (lane_of_miner p epoch miner_pub n < n)
  unfolding lane_of_miner
  lane_of_miner-lt epoch miner_pub active_expert_pages lane_width =
      let some_lane : 1 ≤ n_lanes active_expert_pages lane_width = unfold n_lanes in ground arith in
      (some_lane, below _ (n_lanes active_expert_pages lane_width) some_lane)
    where
      below : (x n : ℕ) → 1 ≤ n → (if leb n 1 then 0 else x % n) < n
      below x n h = ground (arith, mod-lt x h)
