-- ===== src/Lanes.antt =====
-- rig/lanes.py: the lane of a miner in an epoch, and the pages that the miner may claim.
pub mod Claims
use sestrian.Base.{
  ℕ, suc, ◌+◌, ◌/◌, ◌%◌, ◌^◌, max, Bool, true, false, not, ◌&&◌, List, [], ◌∷◌, ◌++◌, if◌then◌else◌,
  leb, ◌==◌, length,
}
use sestrian.Base.Int.{pos}
use sestrian.Platform.{Platform, ascii}
use sestrian.ModelState.{ModelState, Page, Kind, backbone, expert, is_active_page}

-- `n_lanes`
unfoldable pub n_lanes : ℕ → ℕ → ℕ
n_lanes active_expert_pages lane_width =
    if active_expert_pages == 0 then 1 else max 1 (active_expert_pages / max 1 lane_width)

-- `lane_of_miner`: the first eight of the digest's thirty-two bytes.
unfoldable pub lane_of_miner : Platform → ℕ → ℕ → ℕ → ℕ
lane_of_miner p epoch miner_pub n =
    if leb n 1
    then 0
    else p.digest_int
        (ascii "sestrian-lane|v5|" ++ (p.decimal (pos epoch) ++ (ascii "|" ++ p.encode miner_pub)))
      / 2 ^ 192
      % n

-- Every n-th id, from the place k on.
unfoldable pub stripe : ℕ → ℕ → ℕ → List ℕ → List ℕ
stripe lane n k [] = []
stripe lane n k (i ∷ ids) =
    let rest = stripe lane n (suc k) ids in if k % n == lane then i ∷ rest else rest

-- `lane_pages`, a set as the list of its members
unfoldable pub lane_pages : ℕ → ℕ → List ℕ → List ℕ
unfolding stripe
lane_pages lane n ids = if leb n 1 then ids else stripe lane n 0 ids

abbrev pub has_kind : Kind → Page → Bool
has_kind backbone q = elim q.kind [ backbone ↦ true | expert ↦ false ]
has_kind expert q = elim q.kind [ backbone ↦ false | expert ↦ true ]

-- The ids from i on of the active pages of a kind.
unfoldable pub active_ids : Kind → ℕ → List Page → List ℕ
active_ids kind i [] = []
active_ids kind i (q ∷ pages) =
    let rest = active_ids kind (suc i) pages in
    if has_kind kind q && is_active_page q then i ∷ rest else rest

-- `claimable_pages`: the lane's experts, and the backbone.
unfoldable pub claimable_pages : Platform → ℕ → ℕ → ModelState → ℕ → List ℕ
unfolding n_lanes lane_of_miner lane_pages active_ids
claimable_pages p epoch miner_pub state lane_width =
    let experts = active_ids expert 0 state.pages in
    let n = n_lanes (length experts) lane_width in
    lane_pages (lane_of_miner p epoch miner_pub n) n experts ++ active_ids backbone 0 state.pages
