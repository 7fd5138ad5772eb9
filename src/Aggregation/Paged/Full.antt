-- ===== src/Aggregation/Paged/Full.antt =====
-- `paged_transition` where every body claims every page: it is the global trimmed-mean transition.
use sestrian.Base.{
  ℕ, zero, suc, ◌+◌, ◌-◌, ◌≤◌, ◌≡◌, refl, sym, ap, ◌∙◌, true, List, [], ◌∷◌, ◌++◌, map, All,
  contains, length, length-append, arith,
}
use sestrian.Base.Int.{ℤ}
use sestrian.Aggregation.{slice, trimmed_columns, trimmed_mean_int, add_vector, transition}
use sestrian.Aggregation.Paged.{contributors, update_page, update_pages, paged_transition}
use sestrian.Aggregation.Paged.Columns.{
  drop, HasLength, slice-drop, drop-drop, length-slice, length-drop, length-trimmed_columns,
  length-add_vector, slice-append, splice-here, splice-append, map-drop_zero, trimmed_columns-split,
  add_vector-split,
}

-- The pages follow one another from a to b.
abbrev pub Tiles : ℕ → List (ℕ × ℕ) → ℕ → Type 0
Tiles a [] b = a ≡ b
Tiles a ((start, stop) ∷ spans) b = (start ≡ a) × (start ≤ stop) × Tiles stop spans b

-- The claim has all n pages from page_id on.
abbrev pub ClaimsAll : ℕ → ℕ → List ℕ → Type 0
ClaimsAll page_id zero claim = Unit
ClaimsAll page_id (suc n) claim = (contains page_id claim ≡ true) × ClaimsAll (suc page_id) n claim

-- Every page takes its slice of every body.
contributors-full :
    (page_id start stop : ℕ) (bodies : List (List ℤ)) (claims : List (List ℕ))
    → length claims ≡ length bodies
    → All (λ c. contains page_id c ≡ true) claims
    → contributors page_id start stop bodies claims ≡ map (slice start (stop - start)) bodies
unfolding contributors
contributors-full page_id start stop [] claims same h = refl
contributors-full page_id start stop (b ∷ bodies) [] same h = absurd (omega (arith, same))
contributors-full page_id start stop (b ∷ bodies) (c ∷ claims) same h = rw h.0 (
    ap (λ more. slice start (stop - start) b ∷ more)
      (contributors-full page_id start stop bodies claims (omega (arith, same)) h.1))

-- One page: the part that is done stays, and the page takes the mean of its columns.
update_page-full :
    (done rest : List ℤ) (n : ℕ) (body : List ℤ) (bodies : List (List ℤ))
    → n ≤ length rest
    → length body ≡ n
    → update_page (length done) (length done + n) (body ∷ bodies) (done ++ rest)
      ≡ done ++ (add_vector (slice 0 n rest) (trimmed_columns n (body ∷ bodies)) ++ drop n rest)
unfolding update_page trimmed_mean_int
update_page-full done rest n body bodies le long =
    let columns = trimmed_columns n (body ∷ bodies) in
    let v = add_vector (slice 0 n rest) columns in
    let width : length done + n - length done ≡ n = omega arith in
    let mean : trimmed_mean_int (body ∷ bodies) ≡ columns =
      ap (λ k. trimmed_columns k (body ∷ bodies)) long in
    let fits : length v ≡ n =
      length-add_vector n (slice 0 n rest) columns (length-slice n rest le)
        (length-trimmed_columns n (body ∷ bodies)) in
    rw (width, slice-append done rest n, mean)
      (splice-append done rest v
        ∙ ap (λ more. done ++ more)
            (splice-here v rest (omega (arith, fits, le)) ∙ ap (λ k. v ++ drop k rest) fits))

abbrev below : ℕ → List (List ℤ) → List (List ℤ)
below start bodies = map (drop start) bodies

below-slice :
    (start n : ℕ) (bodies : List (List ℤ))
    → map (slice start n) bodies ≡ map (slice 0 n) (below start bodies)
below-slice start n [] = refl
below-slice start n (b ∷ bodies) =
    rw (slice-drop start n b)
      (ap (λ more. slice 0 n (drop start b) ∷ more) (below-slice start n bodies))

below-below :
    (start n stop : ℕ) (bodies : List (List ℤ))
    → start + n ≡ stop
    → map (drop n) (below start bodies) ≡ below stop bodies
below-below start n stop [] h = refl
below-below start n stop (b ∷ bodies) h =
    rw (drop-drop start n stop b h)
      (ap (λ more. drop stop b ∷ more) (below-below start n stop bodies h))

below-HasLength :
    (start k total : ℕ) (bodies : List (List ℤ))
    → start + k ≡ total
    → All (HasLength total) bodies
    → All (HasLength k) (below start bodies)
below-HasLength start k total [] e h = tt
below-HasLength start k total (b ∷ bodies) e h =
    (omega (arith, length-drop start b, e, h.0), below-HasLength start k total bodies e h.1)

-- One step over the pages: n more columns are done.
split-here :
    (start n stop total : ℕ) (rest : List ℤ) (bodies : List (List ℤ))
    → start + n ≡ stop
    → start + length rest ≡ total
    → n ≤ length rest
    → All (HasLength total) bodies
    → add_vector rest (trimmed_columns (length rest) (below start bodies))
      ≡ add_vector (slice 0 n rest) (trimmed_columns n (map (slice start n) bodies))
        ++ add_vector (drop n rest) (trimmed_columns (length (drop n rest)) (below stop bodies))
split-here start n stop total rest bodies up all le long =
    let m = length (drop n rest) in
    let both : n + m ≡ length rest = omega (arith, length-drop n rest, le) in
    let columns = trimmed_columns n (map (slice start n) bodies) in
    let cut =
      trimmed_columns-split n m (length rest) (below start bodies) both
        (below-HasLength start (length rest) total bodies all long) in
    ap (add_vector rest) (
      cut
      ∙ ap (λ rows. trimmed_columns n rows ++ trimmed_columns m (map (drop n) (below start bodies)))
          (sym (below-slice start n bodies))
      ∙ ap (λ rows. columns ++ trimmed_columns m rows) (below-below start n stop bodies up))
    ∙ add_vector-split n rest columns (trimmed_columns m (below stop bodies))
        (length-trimmed_columns n (map (slice start n) bodies)) le

Tiles-le : (a b : ℕ) (spans : List (ℕ × ℕ)) → Tiles a spans b → a ≤ b
Tiles-le a b [] h = omega (arith, h)
Tiles-le a b ((start, stop) ∷ spans) h = omega (arith, h.0, h.1, Tiles-le stop b spans h.2)

append_assoc : (xs ys zs : List ℤ) → xs ++ (ys ++ zs) ≡ (xs ++ ys) ++ zs
append_assoc [] ys zs = refl
append_assoc (x ∷ xs) ys zs = ap (λ more. x ∷ more) (append_assoc xs ys zs)

head-claims :
    (page_id n : ℕ) (claims : List (List ℕ))
    → All (ClaimsAll page_id (suc n)) claims
    → All (λ c. contains page_id c ≡ true) claims
head-claims page_id n [] h = tt
head-claims page_id n (c ∷ claims) h = (h.0.0, head-claims page_id n claims h.1)

tail-claims :
    (page_id n : ℕ) (claims : List (List ℕ))
    → All (ClaimsAll page_id (suc n)) claims
    → All (ClaimsAll (suc page_id) n) claims
tail-claims page_id n [] h = tt
tail-claims page_id n (c ∷ claims) h = (h.0.1, tail-claims page_id n claims h.1)

module _ (total : ℕ) (body : List ℤ) (bodies : List (List ℤ)) (claims : List (List ℕ))
    (long : All (HasLength total) (body ∷ bodies))
    (same : length claims ≡ length (body ∷ bodies)) where
  abbrev columns : ℕ → ℕ → List ℤ
  columns start n = trimmed_columns n (map (slice start n) (body ∷ bodies))

  -- One page, claimed by all.
  page-full :
      (page_id start stop : ℕ) (done rest : List ℤ)
      → length done ≡ start
      → start ≤ stop
      → stop ≤ total
      → start + length rest ≡ total
      → All (λ c. contains page_id c ≡ true) claims
      → let n = stop - start in
        update_page start stop
          (contributors page_id start stop (body ∷ bodies) claims)
          (done ++ rest)
        ≡ done ++ (add_vector (slice 0 n rest) (columns start n) ++ drop n rest)
  page-full page_id start stop done rest here up le all full =
      let n = stop - start in
      let cs = map (slice start n) bodies in
      let b = slice start n body in
      let end : stop ≡ length done + n = omega (arith, here, up) in
      let wide : length b ≡ n =
        ap length (slice-drop start n body)
        ∙ length-slice n (drop start body) (omega (arith, length-drop start body, long.0, le)) in
      ap (λ rows. update_page start stop rows (done ++ rest))
        (contributors-full page_id start stop (body ∷ bodies) claims same full)
      ∙ ap (λ i. update_page i stop (b ∷ cs) (done ++ rest)) (sym here)
      ∙ ap (λ j. update_page (length done) j (b ∷ cs) (done ++ rest)) end
      ∙ update_page-full done rest n b cs (omega (arith, le, all)) wide

  update_pages-full :
      (page_id start : ℕ) (spans : List (ℕ × ℕ)) (done rest : List ℤ)
      → length done ≡ start
      → start + length rest ≡ total
      → Tiles start spans total
      → All (ClaimsAll page_id (length spans)) claims
      → update_pages page_id spans (body ∷ bodies) claims (done ++ rest)
        ≡ done ++ add_vector rest (trimmed_columns (length rest) (below start (body ∷ bodies)))
  unfolding update_pages add_vector
  update_pages-full page_id start [] done [] here all tiled full = refl
  update_pages-full page_id start [] done (x ∷ rest) here all tiled full =
      absurd (omega (arith, all, tiled))
  update_pages-full page_id start ((from, stop) ∷ spans) done rest here all tiled full =
      let n = stop - from in
      let begun : length done ≡ from = here ∙ sym tiled.0 in
      let le = Tiles-le stop total spans tiled.2 in
      let fits : n ≤ length rest = omega (arith, le, all, tiled.0) in
      let v = add_vector (slice 0 n rest) (columns from n) in
      let after = drop n rest in
      let wide : length v ≡ n =
        length-add_vector n (slice 0 n rest) (columns from n) (length-slice n rest fits)
          (length-trimmed_columns n (map (slice from n) (body ∷ bodies))) in
      let there : length (done ++ v) ≡ stop =
        omega (arith, length-append done v, wide, begun, tiled.1) in
      let left : stop + length after ≡ total =
        omega (arith, length-drop n rest, fits, all, tiled.0, tiled.1) in
      let split =
        split-here from n stop total rest (body ∷ bodies) (omega (arith, tiled.1))
          (omega (arith, all, tiled.0)) fits long in
      ap (update_pages (suc page_id) spans (body ∷ bodies) claims) (
        page-full page_id from stop done rest begun tiled.1 le (omega (arith, all, tiled.0))
          (head-claims page_id (length spans) claims full)
        ∙ append_assoc done v after)
      ∙ update_pages-full (suc page_id) stop spans (done ++ v) after there left tiled.2
          (tail-claims page_id (length spans) claims full)
      ∙ sym (append_assoc done v _)
      ∙ ap (λ more. done ++ more)
          (sym split
            ∙ ap (λ i. add_vector rest (trimmed_columns (length rest) (below i (body ∷ bodies))))
                tiled.0)

update_pages-nobody :
    (page_id : ℕ) (spans : List (ℕ × ℕ)) (claims : List (List ℕ)) (w : List ℤ)
    → update_pages page_id spans [] claims w ≡ w
unfolding update_pages contributors update_page
update_pages-nobody page_id [] claims w = refl
update_pages-nobody page_id ((start, stop) ∷ spans) claims w =
    update_pages-nobody (suc page_id) spans claims w

-- Where every body claims every page, and the pages follow one another over all the weights, the
-- transition by pages is the global one: the trimmed mean of all the bodies, added to the weights.
pub paged_transition-full :
    (w : List ℤ) (bodies : List (List ℤ)) (claims : List (List ℕ)) (spans : List (ℕ × ℕ))
    → Tiles 0 spans (length w)
    → All (λ b. length b ≡ length w) bodies
    → length claims ≡ length bodies
    → All (ClaimsAll 0 (length spans)) claims
    → paged_transition w bodies claims spans ≡ transition bodies w
unfolding paged_transition transition trimmed_mean_int
paged_transition-full w [] claims spans tiled long same full = update_pages-nobody 0 spans claims w
paged_transition-full w (b ∷ bodies) claims spans tiled long same full =
    update_pages-full (length w) b bodies claims long same 0 0 spans [] w refl (omega arith) tiled
      full
    ∙ ap (λ rows. add_vector w (trimmed_columns (length w) rows)) (map-drop_zero (b ∷ bodies))
    ∙ ap (λ k. add_vector w (trimmed_columns k (b ∷ bodies))) (sym long.0)
