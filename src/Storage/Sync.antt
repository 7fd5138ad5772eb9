-- ===== src/Storage/Sync.antt =====
-- Both syncs and the loading of a persisted chain.
use sestrian.Base.{
  ℕ, suc, ◌+◌, ◌≡◌, refl, sym, ap, ◌∙◌, inl, inr, true, false, some, List, [], ◌∷◌, ◌++◌, length,
  ◌==◌, arith,
}
use mathlib.Core.Path.{subst}
use mathlib.Core.List.{append-nil}
use sestrian.Base.Int.{ℤ}
use sestrian.Platform.{Platform}
use sestrian.Aggregation.{Chain, DeltaBlock, new_chain, apply_block, apply_all, transition}
use sestrian.Storage.{
  Record, ChainStore, new_store, over_records, full_replay, fast_sync, root_of, persist_blocks,
  persist_chain, verify_store, load_chain, init_genesis,
}
use sestrian.Storage.Stored.{
  the_chain, IsStored, IsNumbered, line, stored, appended, append-IsStored,
}

module _ (p : Platform) (w0 : List ℤ) where
  run : List DeltaBlock → List ℤ → List ℤ
  run [] w = w
  run (b ∷ blocks) w = run blocks (transition b.deltas_int w)

  append_assoc :
      (xs : List DeltaBlock) (b : DeltaBlock) (ys : List DeltaBlock)
      → (xs ++ b ∷ []) ++ ys ≡ xs ++ b ∷ ys
  append_assoc [] b ys = refl
  append_assoc (x ∷ xs) b ys = ap (λ zs. x ∷ zs) (append_assoc xs b ys)

  abbrev Persists : ChainStore → List DeltaBlock → List ℤ → List DeltaBlock → Type 0
  Persists s blocks w whole =
      (s' : ChainStore) × (persist_blocks p blocks w s ≡ some s')
      × ((n : ℕ) × ((recs : List Record) × IsStored p w0 s' n recs (run blocks w) whole))

  persist_blocks-IsStored :
      (blocks : List DeltaBlock) (s : ChainStore) (n : ℕ) (recs : List Record) (w : List ℤ)
      (done : List DeltaBlock)
      → IsNumbered p w0 n w blocks
      → IsStored p w0 s n recs w done
      → Persists s blocks w (done ++ blocks)
  unfolding persist_blocks run
  persist_blocks-IsStored [] s n recs w done numbered i =
      (s, refl, (n, (recs, subst (IsStored p w0 s n recs w) (sym (append-nil done)) i)))
  persist_blocks-IsStored (b ∷ blocks) s n recs w done (high, root, numbered) i =
      let (s', ran, rest) =
        persist_blocks-IsStored blocks (stored p w0 s n recs w done b i high root) (suc n)
          (recs ++ line p w0 s n recs w done b i high root ∷ []) (transition b.deltas_int w)
          (done ++ b ∷ []) numbered (append-IsStored p w0 s n recs w done b i high root) in
      (
        s',
        rw (appended p w0 s n recs w done b i high root, persist_blocks) ran,
        (
          rest.0,
          (
            rest.1.0,
            subst (IsStored p w0 s' rest.0 rest.1.0 _) (append_assoc done b blocks) rest.1.1,
          ),
        ),
      )

  -- What `apply_block` has built.
  IsBuilt : Chain → Type 0
  unfolding run
  IsBuilt c = (c.genesis_int ≡ w0) × IsNumbered p w0 0 w0 c.blocks × (run c.blocks w0 ≡ c.w_int)

  IsNumbered-append :
      (n : ℕ) (w : List ℤ) (blocks : List DeltaBlock) (b : DeltaBlock)
      → IsNumbered p w0 n w blocks
      → b.height ≡ n + length blocks + 1
      → b.root ≡ root_of p (transition b.deltas_int (run blocks w))
      → IsNumbered p w0 n w (blocks ++ b ∷ [])
  unfolding run
  IsNumbered-append n w [] b h high root = (omega (arith, high), root, tt)
  IsNumbered-append n w (c ∷ blocks) b h high root = (
    h.0,
    h.1,
    IsNumbered-append (suc n) (transition c.deltas_int w) blocks b h.2 (omega (arith, high)) root,
  )

  run-append :
      (w : List ℤ) (blocks : List DeltaBlock) (b : DeltaBlock)
      → run (blocks ++ b ∷ []) w ≡ transition b.deltas_int (run blocks w)
  unfolding run
  run-append w [] b = refl
  run-append w (c ∷ blocks) b = run-append (transition c.deltas_int w) blocks b

  apply_block-IsBuilt :
      (deltas : List (List ℤ)) (ids : List ℕ) (c : Chain)
      → IsBuilt c
      → IsBuilt (apply_block p deltas ids c)
  unfolding IsBuilt apply_block
  apply_block-IsBuilt deltas ids c (base, numbered, same) = (
    base,
    IsNumbered-append 0 w0 c.blocks _ numbered (omega arith)
        (ap (λ w. root_of p (transition deltas w)) (sym same)),
    run-append w0 c.blocks _ ∙ ap (transition deltas) same,
  )

  apply_all-IsBuilt :
      (batches : List (List (List ℤ) × List ℕ)) (c : Chain)
      → IsBuilt c
      → IsBuilt (apply_all p batches c)
  unfolding apply_all
  apply_all-IsBuilt [] c h = h
  apply_all-IsBuilt ((deltas, ids) ∷ batches) c h =
      apply_all-IsBuilt batches (apply_block p deltas ids c) (apply_block-IsBuilt deltas ids c h)

  -- What a reader of the store finds.
  abbrev Serves : ChainStore → Chain → Type 0
  Serves s c =
      (full_replay s ≡ some c.w_int)
      × (fast_sync s ≡ some c.w_int)
      × (verify_store p s ≡ some true)
      × (load_chain p s ≡ some c)

  IsStored-Serves :
      (s : ChainStore) (n : ℕ) (recs : List Record) (w : List ℤ) (blocks : List DeltaBlock)
      → IsStored p w0 s n recs w blocks
      → Serves s (the_chain p w0 w blocks)
  unfolding full_replay fast_sync verify_store load_chain
  IsStored-Serves s n recs w blocks i =
      let full : full_replay s ≡ some w = rw (full_replay, i.founded, i.listed) i.full in
      let fast : fast_sync s ≡ some w = elim i.fast [
        | inl nothing ↦ rw (fast_sync, i.listed, nothing) full
        | inr (h, (v, found, e)) ↦ rw (fast_sync, i.listed, found) e
      ] in
      let same : (root_of p w == root_of p w) ≡ true = ground arith in
      let verified : verify_store p s ≡ some true = elim i.rooted [
        | inl nothing ↦ rw (verify_store, i.listed, nothing) refl
        | inr last ↦ rw (verify_store, i.listed, last, full, same, fast) (ap some same)
      ] in
      (full, fast, verified, rw (load_chain, i.founded, i.listed) i.loads)

  first-IsStored :
      (k : ℕ) → (k == 0) ≡ false → IsStored p w0 (init_genesis w0 (new_store k)) 0 [] w0 []
  unfolding init_genesis over_records
  first-IsStored k spaced = record {
    spaced = spaced;
    founded = refl;
    listed = refl;
    counted = refl;
    low = tt;
    low_keys = tt;
    rooted = inl refl;
    full = refl;
    fast = inl refl;
    loads = refl;
  }

  -- A chain that was persisted to an empty directory, with a checkpoint every k blocks, is read back
  -- whole: the full replay and the fast sync from the latest checkpoint both give the chain's
  -- weights, `verify` accepts the store, and `load_chain` gives the chain itself.
  pub persist_chain-Serves :
      (k : ℕ) (batches : List (List (List ℤ) × List ℕ))
      → (k == 0) ≡ false
      → let c = apply_all p batches (new_chain w0) in
        (s : ChainStore) × (persist_chain p c (new_store k) ≡ some s)
        × (full_replay s ≡ some c.w_int)
        × (fast_sync s ≡ some c.w_int)
        × (verify_store p s ≡ some true)
        × (load_chain p s ≡ some c)
  unfolding persist_chain IsBuilt
  persist_chain-Serves k batches spaced =
      let c = apply_all p batches (new_chain w0) in
      let (base, numbered, same) =
        apply_all-IsBuilt batches (new_chain w0) (unfold run in (refl, tt, refl)) in
      let s0 = init_genesis w0 (new_store k) in
      let (s, ran, (n, (recs, i))) =
        persist_blocks-IsStored c.blocks s0 0 [] w0 [] numbered (first-IsStored k spaced) in
      let whole : the_chain p w0 (run c.blocks w0) c.blocks ≡ c =
        ap (λ w. the_chain p w0 w c.blocks) same
        ∙ ap (λ g. record { genesis_int = g; w_int = c.w_int; blocks = c.blocks }) (sym base) in
      let served = subst (Serves s) whole (IsStored-Serves s n recs (run c.blocks w0) c.blocks i) in
      (
        s,
        ap (λ g. persist_blocks p c.blocks g (init_genesis g (new_store k))) base ∙ ran,
        served.0,
        served.1,
        served.2,
        served.3,
      )
