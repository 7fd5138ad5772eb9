-- ===== src/Storage/Stored.antt =====
-- One more block in a store that holds a chain: both syncs and the loading follow it.
use sestrian.Base.{
  ℕ, suc, ◌+◌, ◌%◌, ◌≤◌, ◌≡◌, refl, sym, ap, ◌∙◌, ◌⊎◌, inl, inr, Bool, true, false, not, ◌&&◌, none,
  some, List, [], ◌∷◌, ◌++◌, map, All, length, length-append, ◌==◌, Bool-cases, if◌then◌else◌,
  arith,
}
use sestrian.Base.Int.{ℤ}
use sestrian.Base.Dict.{Dict, put}
use sestrian.Platform.{Platform}
use sestrian.Aggregation.{Chain, DeltaBlock, new_chain, apply_block, transition}
use sestrian.Storage.{
  Record, ChainStore, save_deltas, load_deltas, over_records, replay_step, later_than, every_record,
  latest, last_root, root_of, append_block, load_step,
}
use sestrian.Storage.Files.{
  load_deltas-save_deltas, load_deltas-other, over_records-append, over_records-same,
  over_records-done, KeysLe, KeysLe-suc, put-KeysLe, latest-put, latest-KeysLe,
}

abbrev pub IsLow : ℕ → Record → Type 0
IsLow n r = r.height ≤ n

-- The latest checkpoint leads to w, through the records above it.
abbrev pub LeadsTo : ChainStore → List Record → List ℤ → Type 0
LeadsTo s recs w =
    (latest s.checkpoints ≡ none)
    ⊎ ((h : ℕ) × ((v : List ℤ) × (latest s.checkpoints ≡ some (h, v))
          × (over_records (replay_step (later_than h) s.deltas) recs v ≡ some w)))

module _ (p : Platform) (w0 : List ℤ) where
  abbrev pub the_chain : List ℤ → List DeltaBlock → Chain
  the_chain w blocks = record { genesis_int = w0; w_int = w; blocks = blocks }

  -- The store holds a chain of n blocks with the weights w.
  pub record IsStored (s : ChainStore) (n : ℕ) (recs : List Record) (w : List ℤ)
      (blocks : List DeltaBlock) : Type 0 where
    pub spaced : (s.k == 0) ≡ false
    pub founded : s.genesis ≡ some w0
    pub listed : s.blocks ≡ some recs
    pub counted : length blocks ≡ n
    pub low : All (IsLow n) recs
    pub low_keys : KeysLe n s.checkpoints
    pub rooted : (last_root recs ≡ none) ⊎ (last_root recs ≡ some (root_of p w))
    pub full : over_records (replay_step every_record s.deltas) recs w0 ≡ some w
    pub fast : LeadsTo s recs w
    pub loads : over_records (load_step p s.deltas) recs (new_chain w0) ≡ some (the_chain w blocks)

  -- The blocks from the n-th on have their heights and roots.
  abbrev pub IsNumbered : ℕ → List ℤ → List DeltaBlock → Type 0
  IsNumbered n w [] = Unit
  IsNumbered n w (b ∷ blocks) =
      (b.height ≡ suc n)
      × (b.root ≡ root_of p (transition b.deltas_int w))
      × IsNumbered (suc n) (transition b.deltas_int w) blocks

  last_root-append : (recs : List Record) (r : Record) → last_root (recs ++ r ∷ []) ≡ some r.root
  last_root-append [] r = refl
  last_root-append (q ∷ []) r = refl
  last_root-append (q ∷ q' ∷ recs) r = last_root-append (q' ∷ recs) r

  IsLow-append :
      (n : ℕ) (recs : List Record) (r : Record)
      → All (IsLow n) recs
      → r.height ≡ suc n
      → All (IsLow (suc n)) (recs ++ r ∷ [])
  IsLow-append n [] r low e = (omega (arith, e), tt)
  IsLow-append n (q ∷ recs) r low e = (omega (arith, low.0), IsLow-append n recs r low.1 e)

  module _ (n : ℕ) (ds : List (List ℤ)) (files : Dict (Dict (List ℤ))) where
    abbrev more : Dict (Dict (List ℤ))
    more = save_deltas (suc n) 0 ds files

    replay_step-kept :
        (taken : Record → Bool) (r : Record) (w : List ℤ)
        → r.height ≤ n
        → replay_step taken files r w ≡ replay_step taken more r w
    unfolding replay_step
    replay_step-kept taken r w low =
        ap
          (λ found.
            if taken r && not (r.n == 0)
            then elim found [ none ↦ none | some xs ↦ some (transition xs w) ]
            else some w)
          (sym (load_deltas-other r.height (suc n) 0 0 r.n ds files (λ e. omega (arith, low, e))))

    load_step-kept :
        (r : Record) (c : Chain) → r.height ≤ n → load_step p files r c ≡ load_step p more r c
    unfolding load_step
    load_step-kept r c low =
        ap (λ found. elim found [ none ↦ none | some xs ↦ some (apply_block p xs r.miner_ids c) ])
          (sym (load_deltas-other r.height (suc n) 0 0 r.n ds files (λ e. omega (arith, low, e))))

    loaded :
        (r : Record)
        → r.height ≡ suc n
        → r.n ≡ length ds
        → load_deltas r.height 0 r.n more ≡ some ds
    loaded r high many =
        ap (λ h. load_deltas h 0 r.n more) high
        ∙ ap (λ m. load_deltas (suc n) 0 m more) many
        ∙ load_deltas-save_deltas (suc n) 0 ds files

    -- The new record is taken, and moves the weights.
    replay_step-new :
        (taken : Record → Bool) (r : Record) (w : List ℤ)
        → r.height ≡ suc n
        → r.n ≡ length ds
        → taken r ≡ true
        → replay_step taken more r w ≡ some (transition ds w)
    unfolding replay_step
    replay_step-new taken r w high many chosen = elim (Bool-cases (r.n == 0)) [
      | inl nobody ↦ rw (chosen, nobody) (ap some (sym (no_deltas ds w (ground arith))))
      | inr somebody ↦
          ap
            (λ found.
              if taken r && not (r.n == 0)
              then elim found [ none ↦ none | some xs ↦ some (transition xs w) ]
              else some w)
            (loaded r high many)
          ∙ rw (chosen, somebody) refl
    ]
      where
        no_deltas : (xs : List (List ℤ)) (w : List ℤ) → length xs ≡ 0 → transition xs w ≡ w
        no_deltas [] w e = unfold transition in refl
        no_deltas (x ∷ xs) w e = absurd (omega (arith, e))

  module _ (s : ChainStore) (n : ℕ) (recs : List Record) (w : List ℤ) (blocks : List DeltaBlock)
      (b : DeltaBlock) (i : IsStored s n recs w blocks) (high : b.height ≡ suc n)
      (root : b.root ≡ root_of p (transition b.deltas_int w)) where
    abbrev pub w' : List ℤ
    w' = transition b.deltas_int w

    abbrev pub line : Record
    line = record {
      height = b.height;
      root = b.root;
      miner_ids = b.miner_ids;
      delta_hashes = map (root_of p) b.deltas_int;
      n = length b.deltas_int;
    }

    abbrev pub files : Dict (Dict (List ℤ))
    files = save_deltas (suc n) 0 b.deltas_int s.deltas

    abbrev pub checkpoints : Dict (List ℤ)
    checkpoints = if suc n % s.k == 0 then put (suc n) w' s.checkpoints else s.checkpoints

    abbrev pub stored : ChainStore
    stored = record s {
      deltas = files;
      blocks = some (recs ++ line ∷ []);
      checkpoints = checkpoints;
    }

    pub appended : append_block p b.height b.deltas_int b.miner_ids b.root w' s ≡ some stored
    unfolding append_block
    appended = rw (high, i.spaced, i.listed) refl

    -- Older records lead where they led; the new one leads on.
    replay-append :
        (taken : Record → Bool) (v : List ℤ)
        → taken line ≡ true
        → over_records (replay_step taken s.deltas) recs v ≡ some w
        → over_records (replay_step taken files) (recs ++ line ∷ []) v ≡ some w'
    replay-append taken v chosen e =
        over_records-append (replay_step taken files) recs line v (
          sym (
            over_records-same (IsLow n) (replay_step taken s.deltas) (replay_step taken files) recs
              v i.low (replay_step-kept n b.deltas_int s.deltas taken))
          ∙ e)
        ∙ replay_step-new n b.deltas_int s.deltas taken line w high refl chosen

    blocks-append :
        apply_block p b.deltas_int b.miner_ids (the_chain w blocks)
        ≡ the_chain w' (blocks ++ b ∷ [])
    unfolding apply_block
    blocks-append =
        let made = λ (h r : ℕ). the_chain w' (
          blocks
          ++ record { height = h; deltas_int = b.deltas_int; miner_ids = b.miner_ids; root = r }
            ∷ []) in
        let next : length blocks + 1 ≡ b.height = omega (arith, i.counted, high) in
        ap (λ h. made h (root_of p w')) next ∙ ap (made b.height) (sym root)

    loads-append :
        over_records (load_step p files) (recs ++ line ∷ []) (new_chain w0)
        ≡ some (the_chain w' (blocks ++ b ∷ []))
    unfolding load_step
    loads-append =
        over_records-append (load_step p files) recs line (new_chain w0) (
          sym (
            over_records-same (IsLow n) (load_step p s.deltas) (load_step p files) recs
              (new_chain w0) i.low (load_step-kept n b.deltas_int s.deltas))
          ∙ i.loads)
        ∙ ap
            (λ found. elim found [
              | none ↦ none
              | some xs ↦ some (apply_block p xs b.miner_ids (the_chain w blocks))
            ])
            (loaded n b.deltas_int s.deltas line high refl)
        ∙ ap some blocks-append

    fast-append : LeadsTo stored (recs ++ line ∷ []) w'
    fast-append = elim (Bool-cases (suc n % s.k == 0)) [
      | inl due ↦ rw due (
          inr (
            suc n,
            (
              w',
              latest-put n w' s.checkpoints i.low_keys,
              over_records-done (suc n) files (recs ++ line ∷ []) w'
                  (IsLow-append n recs line i.low high),
            ),
          ))
      | inr undue ↦ rw undue (leads i.fast)
    ]
      where
        leads :
            LeadsTo s recs w
            → (latest s.checkpoints ≡ none)
              ⊎ ((h : ℕ) × ((v : List ℤ) × (latest s.checkpoints ≡ some (h, v))
                    × (over_records (replay_step (later_than h) files) (recs ++ line ∷ []) v
                        ≡ some w')))
        leads (inl nothing) = inl nothing
        leads (inr (h, (v, found, e))) = inr (
          h,
          (
            v,
            found,
            replay-append (later_than h) v
                (ground (arith, high, latest-KeysLe n s.checkpoints i.low_keys found)) e,
          ),
        )

    pub append-IsStored : IsStored stored (suc n) (recs ++ line ∷ []) w' (blocks ++ b ∷ [])
    append-IsStored = record {
      spaced = i.spaced;
      founded = i.founded;
      listed = refl;
      counted = omega (arith, length-append blocks (b ∷ []), i.counted);
      low = IsLow-append n recs line i.low high;
      low_keys = elim (Bool-cases (suc n % s.k == 0)) [
        | inl due ↦ rw due (put-KeysLe n w' s.checkpoints i.low_keys)
        | inr undue ↦ rw undue (KeysLe-suc n s.checkpoints i.low_keys)
      ];
      rooted = inr (last_root-append recs line ∙ ap some root);
      full = replay-append every_record w0 refl i.full;
      fast = fast-append;
      loads = loads-append;
    }
