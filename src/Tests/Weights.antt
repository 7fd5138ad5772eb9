-- ===== src/Tests/Weights.antt =====
-- rig/chain.py and rig/storage.py at small weight vectors.
use sestrian.Base.{
  ◌≤◌, ℕ, ◌≡◌, refl, List, [], ◌∷◌, All, arith, length, get_elem?, false, true, some,
}
use sestrian.Base.Int.{ℤ, leb_ℤ, pos, negsuc, floor_div, ◌+ℤ◌, ◌-ℤ◌, ◌*ℤ◌, sum_ℤ}
use sestrian.Platform.{toy}
use sestrian.Aggregation.{
  trimmed_mean_int, trimmed_columns, trimmed_column, trim_count, wrap64, new_chain, replay,
  apply_all, transition,
}
use sestrian.Storage.{
  ChainStore, new_store, persist_chain, full_replay, fast_sync, verify_store, load_chain,
}
use sestrian.Storage.Sync.{persist_chain-Serves}
use sestrian.Aggregation.Robust.{count_below, count_above, trimmed_column-Between}
use sestrian.Aggregation.Replay.{HasMiners, replay-apply_all}
use sestrian.Aggregation.{slice}
use sestrian.Aggregation.Paged.{paged_transition, contributors}
use sestrian.Aggregation.Paged.Pages.{slice-paged_transition}
use sestrian.Aggregation.Paged.Full.{paged_transition-full}
use sestrian.Aggregation.Paged.Untouched.{claimed_at, paged_transition-unclaimed}

-- Of three deltas the outlier of each coordinate is dropped.
abbrev deltas : List (List ℤ)
deltas = (pos 4 ∷ negsuc 2 ∷ []) ∷ (pos 900 ∷ negsuc 4 ∷ []) ∷ (pos 7 ∷ pos 1 ∷ []) ∷ []

mean_run : trimmed_mean_int deltas ≡ pos 7 ∷ negsuc 2 ∷ []
unfolding trimmed_mean_int trimmed_columns trimmed_column trim_count wrap64 floor_div ◌+ℤ◌ ◌-ℤ◌ ◌*ℤ◌
    sum_ℤ
mean_run = refl

wrap_run : wrap64 (pos 9_223_372_036_854_775_808) ≡ negsuc 9_223_372_036_854_775_807
unfolding wrap64 floor_div ◌+ℤ◌ ◌-ℤ◌ ◌*ℤ◌
wrap_run = refl

abbrev blocks : List (List (List ℤ) × List ℕ)
blocks = (deltas, 1 ∷ 2 ∷ 3 ∷ []) ∷ ([], []) ∷ ((pos 1 ∷ pos 1 ∷ []) ∷ [], 4 ∷ []) ∷ []

blocks-HasMiners : All HasMiners blocks
blocks-HasMiners = omega arith

replay-apply_all_example :
    let c = apply_all toy blocks (new_chain (pos 10 ∷ pos 20 ∷ [])) in replay [] c ≡ c.w_int
replay-apply_all_example = replay-apply_all toy (pos 10 ∷ pos 20 ∷ []) blocks blocks-HasMiners

-- Two pages, of which only the second is claimed.
abbrev page_spans : List (ℕ × ℕ)
page_spans = (0, 1) ∷ (1, 2) ∷ []

abbrev claims : List (List ℕ)
claims = (1 ∷ []) ∷ (1 ∷ []) ∷ (1 ∷ []) ∷ []

unclaimed : claimed_at 0 page_spans claims 0 ≡ false
unfolding claimed_at
unclaimed = refl

paged_transition-unclaimed_example :
    let w = pos 10 ∷ pos 20 ∷ [] in
    (length (paged_transition w deltas claims page_spans) ≡ 2)
    × (get_elem? (paged_transition w deltas claims page_spans) 0 ≡ get_elem? w 0)
paged_transition-unclaimed_example =
    paged_transition-unclaimed (pos 10 ∷ pos 20 ∷ []) deltas claims page_spans 0 unclaimed

abbrev all_claims : List (List ℕ)
all_claims = (0 ∷ 1 ∷ []) ∷ (1 ∷ 0 ∷ []) ∷ (0 ∷ 1 ∷ []) ∷ []

paged_transition-full_example :
    let w = pos 10 ∷ pos 20 ∷ [] in
    paged_transition w deltas all_claims page_spans ≡ transition deltas w
paged_transition-full_example =
    paged_transition-full (pos 10 ∷ pos 20 ∷ []) deltas all_claims page_spans
      (refl, omega arith, (refl, omega arith, refl)) (refl, (refl, (refl, tt))) refl
      ((refl, (refl, tt)), ((refl, (refl, tt)), ((refl, (refl, tt)), tt)))

-- A checkpoint every second block.
persist_chain-Serves_example :
    let c = apply_all toy blocks (new_chain (pos 10 ∷ pos 20 ∷ [])) in
    (s : ChainStore) × (persist_chain toy c (new_store 2) ≡ some s)
    × (full_replay s ≡ some c.w_int)
    × (fast_sync s ≡ some c.w_int)
    × (verify_store toy s ≡ some true)
    × (load_chain toy s ≡ some c)
persist_chain-Serves_example = persist_chain-Serves toy (pos 10 ∷ pos 20 ∷ []) 2 blocks refl

slice-paged_transition_example :
    let w = pos 10 ∷ pos 20 ∷ [] in
    slice 1 1 (paged_transition w deltas claims page_spans)
    ≡ transition (contributors 1 1 2 deltas claims) (slice 1 1 w)
slice-paged_transition_example =
    slice-paged_transition (pos 10 ∷ pos 20 ∷ []) deltas claims page_spans 1 1 2
      (refl, omega arith, (refl, omega arith, refl)) (refl, (refl, (refl, tt))) refl

-- One of three values is far off.
abbrev column : List ℤ
column = pos 4 ∷ pos 900 ∷ pos 7 ∷ []

outliers : (count_below (pos 4) column ≤ trim_count 3) × (count_above (pos 7) column ≤ trim_count 3)
unfolding trim_count
outliers = (omega arith, omega arith)

trimmed_column-Between_example :
    (leb_ℤ (pos 4) (trimmed_column column) ≡ true) × (leb_ℤ (trimmed_column column) (pos 7) ≡ true)
trimmed_column-Between_example =
    trimmed_column-Between (pos 4) (pos 7) column (omega arith) outliers.0 outliers.1 (omega arith)
      (omega arith)
