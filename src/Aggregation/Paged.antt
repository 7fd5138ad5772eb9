-- ===== src/Aggregation/Paged.antt =====
-- `paged_transition` of rig/chain.py: the trimmed mean of a page's claimants, page by page.
pub mod Untouched
pub mod Columns
pub mod Full
pub mod Pages
use sestrian.Base.{ℕ, zero, suc, ◌-◌, List, [], ◌∷◌, if◌then◌else◌, contains}
use sestrian.Base.Int.{ℤ}
use sestrian.Aggregation.{slice, trimmed_mean_int, add_vector}

-- `w[start:start + len(values)] = values`
unfoldable pub splice : ℕ → List ℤ → List ℤ → List ℤ
splice start [] w = w
splice start (v ∷ values) [] = []
splice zero (v ∷ values) (x ∷ w) = v ∷ splice zero values w
splice (suc start) (v ∷ values) (x ∷ w) = x ∷ splice start (v ∷ values) w

-- The slices of the bodies whose claim has the page.
unfoldable pub contributors : ℕ → ℕ → ℕ → List (List ℤ) → List (List ℕ) → List (List ℤ)
contributors page_id start stop [] claims = []
contributors page_id start stop (b ∷ bodies) [] = []
contributors page_id start stop (b ∷ bodies) (c ∷ claims) =
    let rest = contributors page_id start stop bodies claims in
    if contains page_id c then slice start (stop - start) b ∷ rest else rest

-- A page that nobody claimed is unchanged.
unfoldable pub update_page : ℕ → ℕ → List (List ℤ) → List ℤ → List ℤ
unfolding splice add_vector trimmed_mean_int
update_page start stop [] w = w
update_page start stop (c ∷ cs) w =
    splice start (add_vector (slice start (stop - start) w) (trimmed_mean_int (c ∷ cs))) w

-- The pages from page_id on.
unfoldable pub update_pages : ℕ → List (ℕ × ℕ) → List (List ℤ) → List (List ℕ) → List ℤ → List ℤ
unfolding contributors update_page
update_pages page_id [] bodies claims w = w
update_pages page_id ((start, stop) ∷ spans) bodies claims w =
    update_pages (suc page_id) spans bodies claims
      (update_page start stop (contributors page_id start stop bodies claims) w)

-- `paged_transition`
unfoldable pub paged_transition : List ℤ → List (List ℤ) → List (List ℕ) → List (ℕ × ℕ) → List ℤ
unfolding update_pages
paged_transition w bodies claims spans = update_pages 0 spans bodies claims w
