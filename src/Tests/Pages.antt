-- ===== src/Tests/Pages.antt =====
-- rig/merkle.py, rig/lanes.py and rig/fraud.py at small trees, page tables and bodies.
use sestrian.Base.{ℕ, ◌≡◌, ◌⊎◌, refl, true, some, List, [], ◌∷◌, contains}
use sestrian.Platform.{toy}
use sestrian.Merkle.{
  Step, left, climb, climb_one, leaf_hash, node_hash, proof, build, root, verify_page,
}
use mathlib.Core.List.{head-eq_of_cons-eq}
use sestrian.Merkle.Binding.{Faithful, Collision, verify_page_binding}
use sestrian.Merkle.Proofs.{verify_page-proof}
use sestrian.ModelState.{
  ModelSpec, genesis, genesis_pages, all_layers, layer_pages, expert_page_len, is_active,
}
use sestrian.Base.Int.{ℤ, pos, negsuc}
use sestrian.Lanes.{n_lanes, lane_of_miner, lane_pages, stripe, active_ids, claimable_pages}
use sestrian.Lanes.Claims.{claimable_pages-is_active}

abbrev pages : List (List ℕ)
pages = (1 ∷ 2 ∷ []) ∷ (3 ∷ []) ∷ (4 ∷ 5 ∷ []) ∷ []

verify_page-proof_example :
    (path : List Step) × (r : ℕ) × (proof (build toy pages) 2 ≡ some path)
    × (root toy pages ≡ some r)
    × (verify_page toy (4 ∷ 5 ∷ []) path r ≡ true)
verify_page-proof_example = verify_page-proof toy pages 2 (4 ∷ 5 ∷ []) refl

toy-Faithful : Faithful toy
unfolding Faithful
toy-Faithful xs ys e = head-eq_of_cons-eq e

abbrev path : List Step
path = left 2_001_007 ∷ []

accepted : verify_page toy (3 ∷ []) path (node_hash toy 2_001_007 (leaf_hash toy (3 ∷ []))) ≡ true
unfolding verify_page climb climb_one leaf_hash node_hash
accepted = refl

verify_page_binding_example : (◌≡◌ {A = List ℕ} (3 ∷ []) (3 ∷ [])) ⊎ Collision toy
verify_page_binding_example =
    verify_page_binding toy (3 ∷ []) (3 ∷ []) path
      (node_hash toy 2_001_007 (leaf_hash toy (3 ∷ []))) toy-Faithful accepted accepted

abbrev spec : ModelSpec
spec = record {
  n_layers = 2;
  d_model = 2;
  d_ff = 3;
  n_experts_initial = 2;
  e_max = 4;
  backbone_params = 10;
}

claimed : contains 0 (claimable_pages toy 3 77 (genesis spec) 2) ≡ true
unfolding claimable_pages n_lanes lane_of_miner lane_pages stripe active_ids genesis genesis_pages
    all_layers layer_pages expert_page_len
claimed = refl

claimable_pages-is_active_example : is_active (genesis spec) 0 ≡ true
claimable_pages-is_active_example = claimable_pages-is_active toy 3 77 (genesis spec) 2 0 claimed

abbrev body : List ℤ
body = pos 4 ∷ pos 0 ∷ negsuc 2 ∷ pos 0 ∷ []
