-- ===== src/Fraud/Convicts.antt =====
-- Whom a page fraud proof of rig/fraud.py convicts.
use mathlib.Core.Path.{subst}
use sestrian.Base.{
  ℕ, ◌-◌, ◌≤◌, ◌≡◌, refl, sym, ap, ◌∙◌, Bool, true, false, not, ◌&&◌, Option, some, List, [], ◌∷◌,
  map, All, length, length-map, get_elem?, get_elem?-map, ◌==◌, arith,
}
use sestrian.Base.Int.{ℤ, pos}
use sestrian.Base.Dict.{Dict}
use sestrian.Base.Sort.{sorted, length-sorted}
use sestrian.Platform.{Platform}
use sestrian.Crypto.{BackpropTx, canonical_pages, txid}
use sestrian.Merkle.{Step, root, leaf_hash, verify_page, proof}
use sestrian.Merkle.Proofs.{verify_page-proof}
use sestrian.Merkle
use sestrian.Aggregation.{slice, transition}
use sestrian.Aggregation.Paged.{contributors, paged_transition}
use sestrian.Aggregation.Paged.Full.{Tiles}
use sestrian.Aggregation.Paged.Pages.{Tiles-span, slice-paged_transition}
use sestrian.Aggregation.Paged.Columns.{drop, slice-drop, length-slice, length-drop}
use sestrian.Blockchain.Types.{Header}
use sestrian.Blockchain.Commit.{block_hash, txset_root}
use sestrian.Fraud.{SparseBody, in_i64}
use sestrian.Fraud.Game.{
  FraudProof, Ruling, invalid, fraud, no_fraud, goes, demand, ◌>>◌, ruling_of, table_dim, new_page,
  fold_leaves, verify, carried_tx, page_bytes, build, from_hex, all_from_hex, path_from_hex,
  int64_page,
}
use sestrian.Fraud.Hex.{ReadsDigests, int64_page-slice, build-read, root-read}
use sestrian.Fraud.Canonical.{IsTotal, sorted-sorted}
use sestrian.Fraud.Evidence.{
  demand-pass, given-pass, present-pass, goes-pass, ==-refl, ==-same, get_or-found, IsBacked,
  bodies_of, Claimed, sorted-AreListed, check_carried_txs-carried, claimant_bodies-IsCollected,
  columns-carried,
}

-- The recomputation over a page is the transition of rig/chain.py on it.
new_page-transition : (cs : List (List ℤ)) (page : List ℤ) → new_page cs page ≡ transition cs page
unfolding new_page transition
new_page-transition [] page = refl
new_page-transition (c ∷ cs) page = refl

-- The verdict on a page: fraud, unless the leaf that the block commits is the one recomputed.
abbrev pub ruling_on : Bool → Ruling
ruling_on true = invalid no_fraud
ruling_on false = fraud

rules : (same : Bool) → ruling_of (demand (not same) no_fraud >> goes fraud) ≡ ruling_on same
rules true = refl
rules false = refl

-- The dimension that `verify` reads off the last page.
table_dim-Tiles :
    (a b i start stop : ℕ) (pages : List (ℕ × ℕ))
    → Tiles a pages b
    → get_elem? pages i ≡ some (start, stop)
    → table_dim pages ≡ b
table_dim-Tiles a b i start stop [] h e = absurd (cc e)
table_dim-Tiles a b i start stop ((s, t) ∷ []) h e = h.2
table_dim-Tiles a b i start stop ((s, t) ∷ (s', t') ∷ pages) h e =
    table_dim-Tiles t b 0 s' t' ((s', t') ∷ pages) h.2 refl

module _ (p : Platform) (loads_pages : List ℕ → Option (List (ℕ × ℕ))) where
  -- A block that its miner has published on a parent: the header commits the parent, the set of the
  -- deltas and the leaves, given in hex with the digests read from them, the parent's header commits
  -- its page table and its int64 weights, and the block adds no page.
  pub record IsPublished (h ph : Header) (json : List ℕ) (pages : List (ℕ × ℕ))
      (leaves digests : List ℕ) (txs : List BackpropTx) (bodies : Dict (List ℤ)) (w : List ℤ)
      : Type 0 where
    pub extends : h.prev_hash ≡ block_hash p ph
    pub table : p.sha256 json ≡ ph.model_root
    pub read : loads_pages json ≡ some pages
    pub no_growth : length leaves ≡ length pages
    pub decoded : all_from_hex p leaves ≡ some digests
    pub folded : get_elem? (fold_leaves p (length digests) digests) 0 ≡ some h.state_root
    pub committed : txset_root p txs ≡ h.txset_root
    pub counted : length txs ≡ h.n_txs
    pub backed : All (IsBacked p ph.height (table_dim pages) bodies) txs
    pub bounded : All (λ x. in_i64 x ≡ true) w
    pub parent_root : root p (page_bytes p w pages) ≡ some ph.state_root

  module _ (total : IsTotal p.text_le) (reads : ReadsDigests p) (h ph : Header) (json : List ℕ)
      (pages : List (ℕ × ℕ)) (leaves digests : List ℕ) (txs : List BackpropTx)
      (bodies : Dict (List ℤ)) (w : List ℤ)
      (published : IsPublished h ph json pages leaves digests txs bodies w) where
    abbrev ids : List ℕ
    ids = sorted p.text_le (map (txid p) txs)

    -- What `build` puts together, with any page and path.
    abbrev carrying : ℕ → Dict SparseBody → List ℤ → List Step → FraudProof
    carrying i sparse page path = record {
      header = h;
      parent_header = ph;
      parent_model_json = json;
      committed_leaves = leaves;
      page_id = pos i;
      txids = ids;
      txs = map (carried_tx p) txs;
      bodies = sparse;
      parent_page = page;
      parent_path = path;
    }

    n_ids : length ids ≡ length txs
    n_ids = length-sorted p.text_le (map (txid p) txs) ∙ length-map (txid p) txs

    abbrev columns_of : ℕ → ℕ → ℕ → List (List ℤ)
    columns_of i start stop =
        contributors i start stop (bodies_of p bodies txs) (map canonical_pages txs)

    same_ids : p.sha256 (p.join (sorted p.text_le ids)) ≡ h.txset_root
    unfolding txset_root
    same_ids =
        ap (λ xs. p.sha256 (p.join xs)) (sorted-sorted p.text_le (map (txid p) txs) total)
        ∙ published.committed

    root_hex : from_hex p ph.state_root ≡ some ph.state_root
    root_hex = root-read p reads (page_bytes p w pages) ph.state_root published.parent_root

    -- What `verify` says of a proof on a page, whichever page of the parent's tree it carries.
    carrying-verify :
        (i start stop text leaf : ℕ) (sparse : Dict SparseBody) (page : List ℤ) (path : List Step)
        → get_elem? pages i ≡ some (start, stop)
        → get_elem? leaves i ≡ some text
        → from_hex p text ≡ some leaf
        → All (Claimed p (table_dim pages) i bodies sparse) txs
        → int64_page page ≡ some page
        → length page ≡ stop - start
        → path_from_hex p path ≡ some path
        → verify_page p (p.tobytes page) path ph.state_root ≡ true
        → verify p loads_pages (carrying i sparse page path)
          ≡ ruling_on (leaf_hash p (p.tobytes (transition (columns_of i start stop) page)) == leaf)
    unfolding verify
    carrying-verify i start stop text leaf sparse page path here there as_hex claimed fits long
          found reached =
        ap ruling_of (
          demand-pass _ (==-same published.extends) (
            demand-pass _ (==-same published.table) (
              given-pass _ published.read (
                present-pass _ _ here (
                  demand-pass _ (==-same published.no_growth) (
                    given-pass _ published.decoded (
                      given-pass _ published.folded (
                        demand-pass _ (==-refl h.state_root) (
                          demand-pass _ (==-same same_ids) (
                            demand-pass _ both (
                              goes-pass _
                                (check_carried_txs-carried p total ids ph.height (table_dim pages)
                                  bodies txs (sorted-AreListed p txs) published.backed)
                                (goes-pass _
                                  (columns-carried p total i ph.height (table_dim pages) start stop
                                    bodies sparse txs published.backed claimed)
                                  (given-pass _ fits (
                                    demand-pass _ (==-same long) (
                                      given-pass _ found (
                                        given-pass _ root_hex (
                                          demand-pass _ reached (
                                            given-pass _ there
                                              (given-pass _ as_hex refl)))))))))))))))))))
        ∙ rules _
        ∙ ap (λ new. ruling_on (leaf_hash p (p.tobytes new) == leaf))
            (new_page-transition (columns_of i start stop) page)
      where
        both : (length (map (carried_tx p) txs) == length ids && length ids == h.n_txs) ≡ true
        both = ground (arith, n_ids, length-map (carried_tx p) txs, published.counted)

    -- A page of the parent's weights, with its path to the root that the parent commits.
    path_of :
        (j start stop : ℕ)
        → get_elem? pages j ≡ some (start, stop)
        → (path : List Step) × (proof (Merkle.build p (page_bytes p w pages)) j ≡ some path)
          × (path_from_hex p path ≡ some path)
          × (verify_page p (p.tobytes (slice start (stop - start) w)) path ph.state_root ≡ true)
    path_of j start stop here =
        let (path, r, found, at, reached) =
          verify_page-proof p (page_bytes p w pages) j (p.tobytes (slice start (stop - start) w)) (
            get_elem?-map (λ (q : ℕ × ℕ). p.tobytes (slice q.0 (q.1 - q.0) w)) pages j (start, stop)
              here) in
        let same : r ≡ ph.state_root = cc (at, published.parent_root) in
        (path, found, build-read p reads (page_bytes p w pages) j path found, rw (sym same) reached)

    span_length :
        (start stop : ℕ) → stop ≤ length w → length (slice start (stop - start) w) ≡ stop - start
    span_length start stop le =
        ap length (slice-drop start (stop - start) w)
        ∙ length-slice (stop - start) (drop start w) (omega (arith, length-drop start w, le))

    build-carrying :
        (i start stop : ℕ)
        → get_elem? pages i ≡ some (start, stop)
        → let page = slice start (stop - start) w in
          (sparse : Dict SparseBody) × (path : List Step) × (build p h ph json pages leaves i txs
              bodies w
            ≡ some (carrying i sparse page path))
          × All (Claimed p (table_dim pages) i bodies sparse) txs
          × (path_from_hex p path ≡ some path)
          × (verify_page p (p.tobytes page) path ph.state_root ≡ true)
    unfolding build
    build-carrying i start stop here =
        let (sparse, gathered, collected) =
          claimant_bodies-IsCollected p i ph.height (table_dim pages) bodies [] txs
            published.backed in
        let (path, found, hex, reached) = path_of i start stop here in
        (sparse, path, rw (here, build, gathered, found) refl, collected.claimed, hex, reached)

    bodies_of-HasLength :
        (dim height : ℕ) (some_txs : List BackpropTx)
        → All (IsBacked p height dim bodies) some_txs
        → All (λ b. length b ≡ dim) (bodies_of p bodies some_txs)
    bodies_of-HasLength dim height [] backed = tt
    bodies_of-HasLength dim height (tx ∷ more)
          ((signed, based, (d, found, long, fits, hashed), sig), rest) =
        (
          ap length (get_or-found (txid p tx) bodies d found) ∙ long,
          bodies_of-HasLength dim height more rest,
        )

    -- The proof that a validator builds on a page of a published block convicts the block exactly if
    -- the leaf that it commits, as `bytes.fromhex` reads it, is not that of the page after the paged
    -- transition of the parent's weights: `build` gives a proof, `verify` finds fraud where the leaves
    -- differ, and no fraud where they agree. The page table tiles the weights, which are of int64, the
    -- texts have a total order, and `bytes.fromhex` reads every digest of `hexdigest` back.
    pub build-verify :
        (i start stop text leaf : ℕ)
        → Tiles 0 pages (length w)
        → get_elem? pages i ≡ some (start, stop)
        → get_elem? leaves i ≡ some text
        → from_hex p text ≡ some leaf
        → let after = paged_transition w (bodies_of p bodies txs) (map canonical_pages txs) pages in
          (f : FraudProof) × (build p h ph json pages leaves i txs bodies w ≡ some f)
          × (verify p loads_pages f
              ≡ ruling_on (leaf_hash p (p.tobytes (slice start (stop - start) after)) == leaf))
    build-verify i start stop text leaf tiled here there as_hex =
        let (sparse, path, built, claimed, hex, reached) = build-carrying i start stop here in
        let page = slice start (stop - start) w in
        let (above, up, within) = Tiles-span 0 (length w) i start stop pages tiled here in
        let long : All (λ b. length b ≡ length w) (bodies_of p bodies txs) =
          subst (λ n. All (λ b. length b ≡ n) (bodies_of p bodies txs))
            (table_dim-Tiles 0 (length w) i start stop pages tiled here)
            (bodies_of-HasLength (table_dim pages) ph.height txs published.backed) in
        (
          carrying i sparse page path,
          built,
          carrying-verify i start stop text leaf sparse page path here there as_hex claimed
                (int64_page-slice start (stop - start) w published.bounded)
                (span_length start stop within) hex reached
              ∙ ap (λ new. ruling_on (leaf_hash p (p.tobytes new) == leaf))
                  (sym (
                    slice-paged_transition w (bodies_of p bodies txs) (map canonical_pages txs)
                      pages i start stop tiled long here)),
        )

    -- `verify` asks only that the page it is given lies somewhere in the parent's tree: a proof about
    -- page i of a published block that carries another page j of the same length, with that page's own
    -- path, is judged by the weights of page j. So an honest block is convicted unless the two
    -- recomputed leaves agree. The texts have a total order, and `bytes.fromhex` reads the leaf, and
    -- every digest of `hexdigest` back.
    pub misplaced-verify :
        (i j start stop start_j stop_j text leaf : ℕ)
        → get_elem? pages i ≡ some (start, stop)
        → get_elem? pages j ≡ some (start_j, stop_j)
        → stop_j - start_j ≡ stop - start
        → get_elem? leaves i ≡ some text
        → from_hex p text ≡ some leaf
        → stop_j ≤ length w
        → (f : FraudProof) × (build p h ph json pages leaves i txs bodies w ≡ some f)
          × (path : List Step) × (let page = slice start_j (stop_j - start_j) w in
              verify p loads_pages (record f { parent_page = page; parent_path = path })
              ≡ ruling_on
                  (leaf_hash p (p.tobytes (transition (columns_of i start stop) page)) == leaf))
    misplaced-verify i j start stop start_j stop_j text leaf here other same there as_hex le =
        let (sparse, path, built, claimed, hex, reached) = build-carrying i start stop here in
        let (path_j, found_j, hex_j, reached_j) = path_of j start_j stop_j other in
        (
          carrying i sparse (slice start (stop - start) w) path,
          built,
          path_j,
          carrying-verify i start stop text leaf sparse (slice start_j (stop_j - start_j) w) path_j
              here there as_hex claimed
              (int64_page-slice start_j (stop_j - start_j) w published.bounded)
              (span_length start_j stop_j le ∙ same) hex_j reached_j,
        )
