-- ===== src/Aggregation/Paged/Pages.antt =====
-- `paged_transition` seen from one page: it is the global transition of that page's slices.
use mathlib.Core.Path.{subst}
use sestrian.Base.{
  ℕ, zero, suc, ◌+◌, ◌-◌, ◌≤◌, ◌≡◌, refl, sym, ap, ◌∙◌, some, Bool-cases, inl, inr, List, [], ◌∷◌,
  All, contains, length, get_elem?, arith,
}
use sestrian.Base.Int.{ℤ}
use sestrian.Aggregation.{slice, trimmed_columns, trimmed_mean_int, add_vector, transition}
use sestrian.Aggregation.Paged.{splice, contributors, update_page, update_pages, paged_transition}
use sestrian.Aggregation.Paged.Columns.{
  drop, HasLength, slice-drop, length-slice, length-drop, length-trimmed_columns, length-add_vector,
}
use sestrian.Aggregation.Paged.Full.{Tiles}
use sestrian.Aggregation.Paged.Untouched.{length-update_page}

slice-none : (lo : ℕ) (w : List ℤ) → slice lo 0 w ≡ []
slice-none lo [] = refl
slice-none zero (x ∷ w) = refl
slice-none (suc lo) (x ∷ w) = slice-none lo w

-- What a splice does to the parts before it, after it, and in its place.
slice-splice_before :
    (lo n start : ℕ) (values w : List ℤ)
    → lo + n ≤ start
    → slice lo n (splice start values w) ≡ slice lo n w
unfolding splice
slice-splice_before lo n start [] w h = refl
slice-splice_before lo n start (v ∷ values) [] h = refl
slice-splice_before zero zero start (v ∷ values) (x ∷ w) h =
    slice-none 0 (splice start (v ∷ values) (x ∷ w))
slice-splice_before zero (suc n) zero (v ∷ values) (x ∷ w) h = absurd (omega (arith, h))
slice-splice_before zero (suc n) (suc start) (v ∷ values) (x ∷ w) h =
    ap (λ xs. x ∷ xs) (slice-splice_before zero n start (v ∷ values) w (omega (arith, h)))
slice-splice_before (suc lo) n zero (v ∷ values) (x ∷ w) h = absurd (omega (arith, h))
slice-splice_before (suc lo) n (suc start) (v ∷ values) (x ∷ w) h =
    slice-splice_before lo n start (v ∷ values) w (omega (arith, h))

slice-splice_after :
    (lo n start : ℕ) (values w : List ℤ)
    → start + length values ≤ lo
    → slice lo n (splice start values w) ≡ slice lo n w
unfolding splice
slice-splice_after lo n start [] w h = refl
slice-splice_after lo n start (v ∷ values) [] h = refl
slice-splice_after zero n start (v ∷ values) (x ∷ w) h = absurd (omega (arith, h))
slice-splice_after (suc lo) n zero (v ∷ values) (x ∷ w) h =
    slice-splice_after lo n zero values w (omega (arith, h))
slice-splice_after (suc lo) n (suc start) (v ∷ values) (x ∷ w) h =
    slice-splice_after lo n start (v ∷ values) w (omega (arith, h))

slice-splice_here :
    (start : ℕ) (values w : List ℤ)
    → start + length values ≤ length w
    → slice start (length values) (splice start values w) ≡ values
unfolding splice
slice-splice_here start [] w h = slice-none start w
slice-splice_here start (v ∷ values) [] h = absurd (omega (arith, h))
slice-splice_here zero (v ∷ values) (x ∷ w) h =
    ap (λ xs. v ∷ xs) (slice-splice_here zero values w (omega (arith, h)))
slice-splice_here (suc start) (v ∷ values) (x ∷ w) h =
    slice-splice_here start (v ∷ values) w (omega (arith, h))

-- The new values of a page that has claimants.
abbrev moved : ℕ → ℕ → List ℤ → List (List ℤ) → List ℤ → List ℤ
moved start stop c cs w = add_vector (slice start (stop - start) w) (trimmed_mean_int (c ∷ cs))

slice_width :
    (start stop : ℕ) (w : List ℤ)
    → stop ≤ length w
    → length (slice start (stop - start) w) ≡ stop - start
slice_width start stop w le =
    ap length (slice-drop start (stop - start) w)
    ∙ length-slice (stop - start) (drop start w) (omega (arith, length-drop start w, le))

length-moved :
    (start stop : ℕ) (c : List ℤ) (cs : List (List ℤ)) (w : List ℤ)
    → stop ≤ length w
    → length c ≡ stop - start
    → length (moved start stop c cs w) ≡ stop - start
unfolding trimmed_mean_int
length-moved start stop c cs w le long =
    length-add_vector (stop - start) (slice start (stop - start) w)
      (trimmed_columns (length c) (c ∷ cs)) (slice_width start stop w le)
      (length-trimmed_columns (length c) (c ∷ cs) ∙ long)

-- The page itself: the transition of its slices.
slice-update_page :
    (start stop : ℕ) (cs : List (List ℤ)) (w : List ℤ)
    → start ≤ stop
    → stop ≤ length w
    → All (HasLength (stop - start)) cs
    → slice start (stop - start) (update_page start stop cs w)
      ≡ transition cs (slice start (stop - start) w)
unfolding update_page transition
slice-update_page start stop [] w up le long = refl
slice-update_page start stop (c ∷ cs) w up le long =
    let n = length-moved start stop c cs w le long.0 in
    ap (λ k. slice start k (splice start (moved start stop c cs w) w)) (sym n)
    ∙ slice-splice_here start (moved start stop c cs w) w (omega (arith, n, up, le))

-- The pages before it and after it.
slice-update_page_before :
    (lo n start stop : ℕ) (cs : List (List ℤ)) (w : List ℤ)
    → lo + n ≤ start
    → slice lo n (update_page start stop cs w) ≡ slice lo n w
unfolding update_page
slice-update_page_before lo n start stop [] w h = refl
slice-update_page_before lo n start stop (c ∷ cs) w h =
    slice-splice_before lo n start (moved start stop c cs w) w h

slice-update_page_after :
    (lo n start stop : ℕ) (cs : List (List ℤ)) (w : List ℤ)
    → start ≤ stop
    → stop ≤ lo
    → stop ≤ length w
    → All (HasLength (stop - start)) cs
    → slice lo n (update_page start stop cs w) ≡ slice lo n w
unfolding update_page
slice-update_page_after lo n start stop [] w up h le long = refl
slice-update_page_after lo n start stop (c ∷ cs) w up h le long =
    slice-splice_after lo n start (moved start stop c cs w) w
      (omega (arith, length-moved start stop c cs w le long.0, up, h))

-- Pages that follow one another ascend.
pub Tiles-le : (a b : ℕ) (spans : List (ℕ × ℕ)) → Tiles a spans b → a ≤ b
Tiles-le a b [] h = omega (arith, h)
Tiles-le a b ((start, stop) ∷ spans) h = omega (arith, h.0, h.1, Tiles-le stop b spans h.2)

pub Tiles-span :
    (a b i start stop : ℕ) (spans : List (ℕ × ℕ))
    → Tiles a spans b
    → get_elem? spans i ≡ some (start, stop)
    → (a ≤ start) × (start ≤ stop) × (stop ≤ b)
Tiles-span a b i start stop [] h e = absurd (cc e)
Tiles-span a b zero start stop ((s, t) ∷ spans) h e =
    let same_start : s ≡ start = cc e in
    let same_stop : t ≡ stop = cc e in
    let below = Tiles-le t b spans h.2 in
    (
      omega (arith, h.0, same_start),
      omega (arith, h.1, same_start, same_stop),
      omega (arith, below, same_stop),
    )
Tiles-span a b (suc i) start stop ((s, t) ∷ spans) h e =
    let (above, up, within) = Tiles-span t b i start stop spans h.2 e in
    (omega (arith, h.0, h.1, above), up, within)

contributors-HasLength :
    (page_id start stop total : ℕ) (bodies : List (List ℤ)) (claims : List (List ℕ))
    → stop ≤ total
    → All (HasLength total) bodies
    → All (HasLength (stop - start)) (contributors page_id start stop bodies claims)
unfolding contributors
contributors-HasLength page_id start stop total [] claims le long = tt
contributors-HasLength page_id start stop total (b ∷ bodies) [] le long = tt
contributors-HasLength page_id start stop total (b ∷ bodies) (c ∷ claims) le long =
    let rest = contributors-HasLength page_id start stop total bodies claims le long.1 in
    elim (Bool-cases (contains page_id c)) [
      | inl claimant ↦ rw claimant (slice_width start stop b (omega (arith, le, long.0)), rest)
      | inr idle ↦ rw idle rest
    ]

-- The pages from page_id on leave the coordinates before them alone.
slice-update_pages_before :
    (page_id lo n a b : ℕ) (spans : List (ℕ × ℕ)) (bodies : List (List ℤ)) (claims : List (List ℕ))
    (w : List ℤ)
    → Tiles a spans b
    → lo + n ≤ a
    → slice lo n (update_pages page_id spans bodies claims w) ≡ slice lo n w
unfolding update_pages
slice-update_pages_before page_id lo n a b [] bodies claims w h le = refl
slice-update_pages_before page_id lo n a b ((start, stop) ∷ spans) bodies claims w h le =
    let cs = contributors page_id start stop bodies claims in
    slice-update_pages_before (suc page_id) lo n stop b spans bodies claims
      (update_page start stop cs w) h.2 (omega (arith, h.0, h.1, le))
    ∙ slice-update_page_before lo n start stop cs w (omega (arith, h.0, le))

slice-update_pages :
    (page_id i start stop a b : ℕ) (spans : List (ℕ × ℕ)) (bodies : List (List ℤ))
    (claims : List (List ℕ)) (w : List ℤ)
    → Tiles a spans b
    → b ≡ length w
    → All (HasLength b) bodies
    → get_elem? spans i ≡ some (start, stop)
    → slice start (stop - start) (update_pages page_id spans bodies claims w)
      ≡ transition
          (contributors (page_id + i) start stop bodies claims)
          (slice start (stop - start) w)
unfolding update_pages
slice-update_pages page_id i start stop a b [] bodies claims w h fits long e = absurd (cc e)
slice-update_pages page_id zero start stop a b ((s, t) ∷ spans) bodies claims w h fits long e =
    let cs = contributors page_id s t bodies claims in
    let w' = update_page s t cs w in
    let le : t ≤ length w = omega (arith, Tiles-le t b spans h.2, fits) in
    let here : ℕ × ℕ = (s, t) in
    let asked : ℕ × ℕ = (start, stop) in
    let same : here ≡ asked = cc e in
    let first : slice s (t - s) (update_pages (suc page_id) spans bodies claims w')
        ≡ transition cs (slice s (t - s) w) =
      slice-update_pages_before (suc page_id) s (t - s) t b spans bodies claims w' h.2
        (omega (arith, h.1))
      ∙ slice-update_page s t cs w h.1 le
          (contributors-HasLength page_id s t b bodies claims (Tiles-le t b spans h.2) long) in
    subst
      (λ q.
        slice q.0 (q.1 - q.0) (update_pages (suc page_id) spans bodies claims w')
        ≡ transition (contributors (page_id + 0) q.0 q.1 bodies claims) (slice q.0 (q.1 - q.0) w))
      same
      (first
        ∙ ap (λ k. transition (contributors k s t bodies claims) (slice s (t - s) w)) (omega arith))
slice-update_pages page_id (suc i) start stop a b ((s, t) ∷ spans) bodies claims w h fits long e =
    let cs = contributors page_id s t bodies claims in
    let le = Tiles-le t b spans h.2 in
    let (above, up, within) = Tiles-span t b i start stop spans h.2 e in
    slice-update_pages (suc page_id) i start stop t b spans bodies claims (update_page s t cs w) h.2
      (fits ∙ sym (length-update_page s t cs w)) long e
    ∙ ap (transition (contributors (suc page_id + i) start stop bodies claims)) (
        slice-update_page_after start (stop - start) s t cs w h.1 above (omega (arith, le, fits))
          (contributors-HasLength page_id s t b bodies claims le long))
    ∙ ap (λ k. transition (contributors k start stop bodies claims) (slice start (stop - start) w))
        (omega arith)

-- The transition by pages, page by page: after a block, a page holds the transition of its old values
-- under the claimants' slices of it, whatever the other pages and their claimants are.
pub slice-paged_transition :
    (w : List ℤ) (bodies : List (List ℤ)) (claims : List (List ℕ)) (spans : List (ℕ × ℕ))
    (i start stop : ℕ)
    → Tiles 0 spans (length w)
    → All (λ b. length b ≡ length w) bodies
    → get_elem? spans i ≡ some (start, stop)
    → slice start (stop - start) (paged_transition w bodies claims spans)
      ≡ transition (contributors i start stop bodies claims) (slice start (stop - start) w)
unfolding paged_transition
slice-paged_transition w bodies claims spans i start stop tiled long e =
    slice-update_pages 0 i start stop 0 (length w) spans bodies claims w tiled refl long e
    ∙ ap (λ k. transition (contributors k start stop bodies claims) (slice start (stop - start) w))
        (omega arith)
