-- ===== src/Aggregation/Paged/Untouched.antt =====
-- What `paged_transition` leaves alone: the length, and the coordinates that nobody claimed.
use sestrian.Base.{
  ℕ, zero, suc, ◌+◌, ◌-◌, ◌≤◌, ◌<◌, ◌≡◌, ◌⊎◌, inl, inr, refl, ap, ◌∙◌, Bool, false, ◌&&◌, ◌||◌,
  List, [], ◌∷◌, any, contains, leb, ltb, length, get_elem?, Bool-cases, arith,
}
use sestrian.Base.Int.{ℤ}
use sestrian.Aggregation.{slice, trimmed_mean_int, add_vector}
use sestrian.Aggregation.Paged.{splice, contributors, update_page, update_pages, paged_transition}

-- The coordinate lies in a page, from page_id on, that some delta claims.
unfoldable pub claimed_at : ℕ → List (ℕ × ℕ) → List (List ℕ) → ℕ → Bool
claimed_at page_id [] claims i = false
claimed_at page_id ((start, stop) ∷ spans) claims i =
    (any (contains page_id) claims && (leb start i && ltb i stop))
    || claimed_at (suc page_id) spans claims i

length-splice : (start : ℕ) (values w : List ℤ) → length (splice start values w) ≡ length w
unfolding splice
length-splice start [] w = refl
length-splice start (v ∷ values) [] = refl
length-splice zero (v ∷ values) (x ∷ w) = ap suc (length-splice zero values w)
length-splice (suc start) (v ∷ values) (x ∷ w) = ap suc (length-splice start (v ∷ values) w)

-- The values go to the coordinates from start on.
splice-outside :
    (start i : ℕ) (values w : List ℤ)
    → (i < start) ⊎ (start + length values ≤ i)
    → get_elem? (splice start values w) i ≡ get_elem? w i
unfolding splice
splice-outside start i [] w h = refl
splice-outside start i (v ∷ values) [] h = refl
splice-outside zero zero (v ∷ values) (x ∷ w) h = absurd (ground arith)
splice-outside zero (suc i) (v ∷ values) (x ∷ w) h =
    splice-outside zero i values w (inr (ground arith))
splice-outside (suc start) zero (v ∷ values) (x ∷ w) h = refl
splice-outside (suc start) (suc i) (v ∷ values) (x ∷ w) (inl h) =
    splice-outside start i (v ∷ values) w (inl (omega (arith, h)))
splice-outside (suc start) (suc i) (v ∷ values) (x ∷ w) (inr h) =
    splice-outside start i (v ∷ values) w (inr (omega (arith, h)))

length-slice : (lo n : ℕ) (xs : List ℤ) → length (slice lo n xs) ≤ n
length-slice lo n [] = omega arith
length-slice zero zero (x ∷ xs) = omega arith
length-slice zero (suc n) (x ∷ xs) = omega (arith, length-slice zero n xs)
length-slice (suc lo) n (x ∷ xs) = length-slice lo n xs

length-add_vector : (xs ys : List ℤ) → length (add_vector xs ys) ≤ length xs
unfolding add_vector
length-add_vector [] ys = omega arith
length-add_vector (x ∷ xs) [] = omega arith
length-add_vector (x ∷ xs) (y ∷ ys) = omega (arith, length-add_vector xs ys)

pub length-update_page :
    (start stop : ℕ) (cs : List (List ℤ)) (w : List ℤ)
    → length (update_page start stop cs w) ≡ length w
unfolding update_page
length-update_page start stop [] w = refl
length-update_page start stop (c ∷ cs) w = length-splice start _ w

outside :
    (start stop i n : ℕ)
    → n ≤ stop - start
    → (leb start i && ltb i stop) ≡ false
    → (i < start) ⊎ (start + n ≤ i)
outside start stop i n short h = elim (Bool-cases (ltb i start)) [
  | inl below ↦ inl (ground arith)
  | inr above ↦ inr (ground arith)
]

update_page-outside :
    (start stop i : ℕ) (cs : List (List ℤ)) (w : List ℤ)
    → (leb start i && ltb i stop) ≡ false
    → get_elem? (update_page start stop cs w) i ≡ get_elem? w i
unfolding update_page
update_page-outside start stop i [] w h = refl
update_page-outside start stop i (c ∷ cs) w h =
    let here = slice start (stop - start) w in
    let moved = add_vector here (trimmed_mean_int (c ∷ cs)) in
    let short : length moved ≤ stop - start = omega (
      arith,
      length-add_vector here (trimmed_mean_int (c ∷ cs)),
      length-slice start (stop - start) w,
    ) in
    splice-outside start i moved w (outside start stop i (length moved) short h)

-- Nobody who claims the page, no contributor.
contributors-none :
    (page_id start stop : ℕ) (bodies : List (List ℤ)) (claims : List (List ℕ))
    → any (contains page_id) claims ≡ false
    → contributors page_id start stop bodies claims ≡ []
unfolding contributors
contributors-none page_id start stop [] claims h = refl
contributors-none page_id start stop (b ∷ bodies) [] h = refl
contributors-none page_id start stop (b ∷ bodies) (c ∷ claims) h =
    ground (arith, contributors-none page_id start stop bodies claims)

length-update_pages :
    (page_id : ℕ) (spans : List (ℕ × ℕ)) (bodies : List (List ℤ)) (claims : List (List ℕ))
    (w : List ℤ)
    → length (update_pages page_id spans bodies claims w) ≡ length w
unfolding update_pages
length-update_pages page_id [] bodies claims w = refl
length-update_pages page_id ((start, stop) ∷ spans) bodies claims w =
    length-update_pages (suc page_id) spans bodies claims _
    ∙ length-update_page start stop (contributors page_id start stop bodies claims) w

update_pages-unclaimed :
    (page_id i : ℕ) (spans : List (ℕ × ℕ)) (bodies : List (List ℤ)) (claims : List (List ℕ))
    (w : List ℤ)
    → claimed_at page_id spans claims i ≡ false
    → get_elem? (update_pages page_id spans bodies claims w) i ≡ get_elem? w i
unfolding update_pages claimed_at
update_pages-unclaimed page_id i [] bodies claims w h = refl
update_pages-unclaimed page_id i ((start, stop) ∷ spans) bodies claims w h =
    update_pages-unclaimed (suc page_id) i spans bodies claims _ (ground arith) ∙ here
  where
    here :
        get_elem? (update_page start stop (contributors page_id start stop bodies claims) w) i
        ≡ get_elem? w i
    here = elim (Bool-cases (any (contains page_id) claims)) [
      | inl some_claim ↦
          update_page-outside start stop i (contributors page_id start stop bodies claims) w
            (ground (arith, h, some_claim))
      | inr no_claim ↦
          rw (contributors-none page_id start stop bodies claims no_claim)
            (unfold update_page in refl)
    ]

-- The transition by pages keeps the number of weights, and a coordinate that lies in no claimed page
-- keeps its weight, whatever the bodies hold there.
pub paged_transition-unclaimed :
    (w : List ℤ) (bodies : List (List ℤ)) (claims : List (List ℕ)) (spans : List (ℕ × ℕ)) (i : ℕ)
    → claimed_at 0 spans claims i ≡ false
    → (length (paged_transition w bodies claims spans) ≡ length w)
      × (get_elem? (paged_transition w bodies claims spans) i ≡ get_elem? w i)
unfolding paged_transition
paged_transition-unclaimed w bodies claims spans i h = (
  length-update_pages 0 spans bodies claims w,
  update_pages-unclaimed 0 i spans bodies claims w h,
)
