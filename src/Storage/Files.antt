-- ===== src/Storage/Files.antt =====
-- The delta and checkpoint files: what is saved is loaded, and other heights keep their files.
use mathlib.Core.Option.{some-injective}
use sestrian.Base.{
  ℕ, zero, suc, ◌≤◌, ◌<◌, ◌≡◌, refl, ap, ◌∙◌, ◌≢◌, true, false, Option, none, some, List, [], ◌∷◌,
  ◌++◌, All, length, ltb, ◌==◌, Bool-cases, Option-cases, inl, inr, arith,
}
use sestrian.Base.Int.{ℤ}
use sestrian.Base.Dict.{
  Dict, lookup, get_or, put, lookup-put_self, lookup-put_ne, get_or-put_self, get_or-put_ne,
}
use sestrian.Storage.{
  Record, save_deltas, load_deltas, over_records, replay_step, later_than, latest,
}

-- Files of other heights, and of lower numbers, stay as they are.
save_deltas-other :
    (h k j : ℕ) (ds : List (List ℤ)) (files : Dict (Dict (List ℤ)))
    → h ≢ k
    → get_or h [] (save_deltas k j ds files) ≡ get_or h [] files
unfolding save_deltas
save_deltas-other h k j [] files differs = refl
save_deltas-other h k j (d ∷ ds) files differs =
    save_deltas-other h k (suc j) ds _ differs
    ∙ get_or-put_ne h k [] (put j d (get_or k [] files)) files differs

save_deltas-below :
    (h i j : ℕ) (ds : List (List ℤ)) (files : Dict (Dict (List ℤ)))
    → i < j
    → lookup i (get_or h [] (save_deltas h j ds files)) ≡ lookup i (get_or h [] files)
unfolding save_deltas
save_deltas-below h i j [] files below = refl
save_deltas-below h i j (d ∷ ds) files below =
    save_deltas-below h i (suc j) ds _ (omega (arith, below))
    ∙ ap (lookup i) (get_or-put_self h [] (put j d (get_or h [] files)) files)
    ∙ lookup-put_ne i j d (get_or h [] files) (λ e. omega (arith, below, e))

pub load_deltas-save_deltas :
    (h j : ℕ) (ds : List (List ℤ)) (files : Dict (Dict (List ℤ)))
    → load_deltas h j (length ds) (save_deltas h j ds files) ≡ some ds
unfolding load_deltas save_deltas
load_deltas-save_deltas h j [] files = refl
load_deltas-save_deltas h j (d ∷ ds) files =
    let files' = put h (put j d (get_or h [] files)) files in
    let here : lookup j (get_or h [] (save_deltas h (suc j) ds files')) ≡ some d =
      save_deltas-below h j (suc j) ds files' (omega arith)
      ∙ ap (lookup j) (get_or-put_self h [] (put j d (get_or h [] files)) files)
      ∙ lookup-put_self j d (get_or h [] files) in
    rw (load_deltas, here, load_deltas-save_deltas h (suc j) ds files') refl

pub load_deltas-other :
    (h k j i n : ℕ) (ds : List (List ℤ)) (files : Dict (Dict (List ℤ)))
    → h ≢ k
    → load_deltas h i n (save_deltas k j ds files) ≡ load_deltas h i n files
unfolding load_deltas
load_deltas-other h k j i zero ds files differs = refl
load_deltas-other h k j i (suc n) ds files differs =
    ap
      (λ found. elim found [
        | none ↦ none
        | some d ↦ elim (load_deltas h (suc i) n (save_deltas k j ds files)) [
          | none ↦ none
          | some more ↦ some (d ∷ more)
        ]
      ])
      (ap (lookup i) (save_deltas-other h k j ds files differs))
    ∙ ap
        (λ rest. elim (lookup i (get_or h [] files)) [
          | none ↦ none
          | some d ↦ elim rest [ none ↦ none | some more ↦ some (d ∷ more) ]
        ])
        (load_deltas-other h k j (suc i) n ds files differs)

-- Loops over the records.
pub over_records-append {ℓ} :
    {S : Type ℓ} (step : Record → S → Option S) (recs : List Record) (r : Record) (s : S) {s' : S}
    → over_records step recs s ≡ some s'
    → over_records step (recs ++ r ∷ []) s ≡ step r s'
unfolding over_records
over_records-append {S = S} step [] r s {s' = s'} e =
    only (step r s) ∙ ap (step r) (some-injective s s' e)
  where
    only : (out : Option S) → elim out [ none ↦ none | some t ↦ some t ] ≡ out
    only none = refl
    only (some t) = refl
over_records-append step (q ∷ recs) r s e = elim (Option-cases (step q s)) [
  | inl stuck ↦ cc (rw (stuck, over_records) at e)
  | inr (s1, moved) ↦
      rw (moved, over_records) (over_records-append step recs r s1 (rw (moved, over_records) at e))
]

pub over_records-same {ℓ κ} :
    {S : Type ℓ} (P : Record → Type κ) (step step' : Record → S → Option S) (recs : List Record)
    (s : S)
    → All P recs
    → ((r : Record) (s : S) → P r → step r s ≡ step' r s)
    → over_records step recs s ≡ over_records step' recs s
unfolding over_records
over_records-same P step step' [] s h same = refl
over_records-same P step step' (r ∷ recs) s h same = elim (Option-cases (step' r s)) [
  | inl stuck ↦ rw (same r s h.0, stuck, over_records) refl
  | inr (s1, moved) ↦
      rw (same r s h.0, moved, over_records) (over_records-same P step step' recs s1 h.1 same)
]

-- A sync that starts at a height takes no record up to it.
pub over_records-done :
    (h : ℕ) (files : Dict (Dict (List ℤ))) (recs : List Record) (w : List ℤ)
    → All (λ (r : Record). r.height ≤ h) recs
    → over_records (replay_step (later_than h) files) recs w ≡ some w
unfolding over_records replay_step
over_records-done h files [] w low = refl
over_records-done h files (r ∷ recs) w low =
    let old : ltb h r.height ≡ false = ground (arith, low.0) in
    rw (old, over_records, replay_step) (over_records-done h files recs w low.1)

-- The checkpoints, all of heights up to n.
abbrev pub KeysLe : ℕ → Dict (List ℤ) → Type 0
KeysLe n [] = Unit
KeysLe n ((h, w) ∷ files) = (h ≤ n) × KeysLe n files

pub KeysLe-suc : (n : ℕ) (files : Dict (List ℤ)) → KeysLe n files → KeysLe (suc n) files
KeysLe-suc n [] low = tt
KeysLe-suc n ((h, w) ∷ files) low = (omega (arith, low.0), KeysLe-suc n files low.1)

pub put-KeysLe :
    (n : ℕ) (w : List ℤ) (files : Dict (List ℤ))
    → KeysLe n files
    → KeysLe (suc n) (put (suc n) w files)
put-KeysLe n w [] low = (omega arith, tt)
put-KeysLe n w ((h, v) ∷ files) low =
    let other : (suc n == h) ≡ false = ground (arith, low.0) in
    rw other (omega (arith, low.0), put-KeysLe n w files low.1)

pub latest-put :
    (n : ℕ) (w : List ℤ) (files : Dict (List ℤ))
    → KeysLe n files
    → latest (put (suc n) w files) ≡ some (suc n, w)
latest-put n w [] low = refl
latest-put n w ((h, v) ∷ files) low =
    let other : (suc n == h) ≡ false = ground (arith, low.0) in
    let lower : ltb h (suc n) ≡ true = ground (arith, low.0) in
    rw (other, latest-put n w files low.1, lower) refl

pub latest-KeysLe :
    (n : ℕ) (files : Dict (List ℤ)) {h : ℕ} {w : List ℤ}
    → KeysLe n files
    → latest files ≡ some (h, w)
    → h ≤ n
latest-KeysLe n [] low e = cc e
latest-KeysLe n ((k, v) ∷ files) {h = h} {w = w} low e = elim (Option-cases (latest files)) [
  | inl nothing ↦
      let same = some-injective (k, v) (h, w) (rw nothing at e) in
      omega (arith, ap (λ q. q.0) same, low.0)
  | inr ((k', v'), found) ↦
      let below = latest-KeysLe n files low.1 found in
      elim (Bool-cases (ltb k k')) [
        | inl higher ↦
            let same = some-injective (k', v') (h, w) (rw (found, higher) at e) in
            omega (arith, ap (λ q. q.0) same, below)
        | inr first ↦
            let same = some-injective (k, v) (h, w) (rw (found, first) at e) in
            omega (arith, ap (λ q. q.0) same, low.0)
      ]
]
