-- ===== src/Fraud/Game.antt =====
-- `build` and `verify` of rig/fraud.py: a proof that a block committed a wrong page.
use sestrian.Base.{
  ℕ, zero, suc, ◌-◌, Bool, true, false, not, ◌&&◌, Option, none, some, List, [], ◌∷◌, map,
  if◌then◌else◌, leb, ◌==◌, contains, length, get_elem?,
}
use sestrian.Base.Int.{ℤ, pos, negsuc}
use sestrian.Base.Dict.{Dict, lookup, put}
use sestrian.Base.Sort.{sorted}
use sestrian.Platform.{Platform}
use sestrian.Crypto.{BackpropTx, canonical_pages, canonical_refs, txid}
use sestrian.Crypto
use sestrian.Merkle
use sestrian.Merkle.{Step, left, right, prepend, pair_up, leaf_hash, verify_page, proof}
use sestrian.Aggregation.{slice, trimmed_mean_int, add_vector}
use sestrian.Blockchain.Types.{Header}
use sestrian.Blockchain.Commit.{block_hash}
use sestrian.Fraud.{SparseBody, Dense, in_i64, malformed, overflow, dense, dense_body, sparse_body}

pub record FraudProof : Type 0 where
  pub header : Header
  pub parent_header : Header
  -- the bytes of the canonical JSON
  pub parent_model_json : List ℕ
  pub committed_leaves : List ℕ
  pub page_id : ℤ
  pub txids : List ℕ
  pub txs : List BackpropTx
  -- txid -> sparse body
  pub bodies : Dict SparseBody
  pub parent_page : List ℤ
  pub parent_path : List Step

-- Why a proof is invalid.
pub data Complaint : Type 0 where
  no_extension wrong_model page_range growth_block wrong_leaves wrong_txset incomplete : Complaint
  unknown_tx bad_signature bad_base missing_body malformed_body wrong_body : Complaint
  wrong_span wrong_path no_fraud : Complaint

-- What `verify` returns, or that it raises.
pub data Ruling : Type 0 where
  invalid : Complaint → Ruling
  fraud error : Ruling

-- A part of `verify`: it returns, or goes on with a value.
pub data Part {ℓ} (A : Type ℓ) : Type ℓ where
  ends : Ruling → Part A
  goes : A → Part A

infixl 5 ◌>>=◌ ◌>>◌
abbrev pub ◌>>=◌ {ℓ κ} : {A : Type ℓ} {B : Type κ} → Part A → (A → Part B) → Part B
ends ruling >>= next = ends ruling
goes value >>= next = next value

abbrev pub ◌>>◌ {ℓ} : {B : Type ℓ} → Part (Unit {0}) → Part B → Part B
check >> rest = check >>= (λ _. rest)

abbrev pub demand : Bool → Complaint → Part (Unit {0})
demand false complaint = ends (invalid complaint)
demand true complaint = goes tt

-- A value that Python raises without.
abbrev pub given {ℓ} : {A : Type ℓ} → Option A → Part A
given none = ends error
given (some value) = goes value

-- A value that the proof is invalid without.
abbrev pub present {ℓ} : {A : Type ℓ} → Option A → Complaint → Part A
present none complaint = ends (invalid complaint)
present (some value) complaint = goes value

abbrev pub ruling_of : Part Ruling → Ruling
ruling_of (ends ruling) = ruling
ruling_of (goes ruling) = ruling

-- `pages[pid]`, for a page id in range
abbrev pub page_at : List (ℕ × ℕ) → ℤ → Option (ℕ × ℕ)
page_at pages (pos i) = get_elem? pages i
page_at pages (negsuc i) = none

-- `pages[-1][1]`
abbrev pub table_dim : List (ℕ × ℕ) → ℕ
table_dim [] = 0
table_dim ((start, stop) ∷ []) = stop
table_dim (page ∷ next ∷ pages) = table_dim (next ∷ pages)

abbrev pub claims_page : ℤ → BackpropTx → Bool
claims_page (pos i) tx = contains i (canonical_pages tx)
claims_page (negsuc i) tx = false

abbrev pub leaf_at : List ℕ → ℤ → Option ℕ
leaf_at leaves (pos i) = get_elem? leaves i
leaf_at leaves (negsuc i) = none

abbrev pub read_dense : Dense → Part (List ℤ)
read_dense malformed = ends (invalid malformed_body)
read_dense overflow = ends error
read_dense (dense d) = goes d

-- The recomputation, one page wide.
unfoldable pub new_page : List (List ℤ) → List ℤ → List ℤ
new_page [] page = page
new_page (c ∷ columns) page = add_vector page (trimmed_mean_int (c ∷ columns))

-- `np.asarray(page, dtype=np.int64)`, none for its OverflowError
unfoldable pub int64_page : List ℤ → Option (List ℤ)
int64_page [] = some []
int64_page (x ∷ xs) = elim (in_i64 x) [
  | false ↦ none
  | true ↦ elim (int64_page xs) [ none ↦ none | some ys ↦ some (x ∷ ys) ]
]

module _ (p : Platform) where
  -- `bytes.fromhex` of a text that should be a digest or a signature, none for its ValueError. The
  -- bytes are written as the text that `hex` gives of them.
  unfoldable pub from_hex : ℕ → Option ℕ
  from_hex t = if p.is_hex t then some (p.hex (p.fromhex t)) else none

  -- `[bytes.fromhex(x) for x in leaves]`
  unfoldable pub all_from_hex : List ℕ → Option (List ℕ)
  unfolding from_hex
  all_from_hex [] = some []
  all_from_hex (t ∷ ts) = elim (from_hex t) [
    | none ↦ none
    | some d ↦ elim (all_from_hex ts) [ none ↦ none | some ds ↦ some (d ∷ ds) ]
  ]

  abbrev on_side : (ℕ → Step) → Option ℕ → Option Step
  on_side side none = none
  on_side side (some d) = some (side d)

  -- `(side, bytes.fromhex(sib))`
  unfoldable pub step_from_hex : Step → Option Step
  unfolding from_hex
  step_from_hex (left t) = on_side left (from_hex t)
  step_from_hex (right t) = on_side right (from_hex t)

  unfoldable pub path_from_hex : List Step → Option (List Step)
  unfolding step_from_hex
  path_from_hex [] = some []
  path_from_hex (s ∷ path) = prepend (step_from_hex s) (path_from_hex path)

  -- The loop that folds the committed leaves; the fuel bounds its turns.
  unfoldable pub fold_leaves : ℕ → List ℕ → List ℕ
  unfolding pair_up
  fold_leaves zero level = level
  fold_leaves (suc n) level =
      let rest = fold_leaves n (pair_up p level) in if leb (length level) 1 then level else rest

  -- The check of each transaction, whose signature is read from hex first.
  unfoldable pub check_carried_txs : List ℕ → ℕ → List BackpropTx → Part (Unit {0})
  unfolding from_hex
  check_carried_txs txids height [] = goes tt
  check_carried_txs txids height (carried ∷ txs) = do
    sig ← given (from_hex carried.sig)
    let tx : BackpropTx = record carried { sig = sig }
    demand (contains (txid p tx) txids) unknown_tx
    demand (Crypto.verify p tx) bad_signature
    demand (tx.base_height == height) bad_base
    check_carried_txs txids height txs

  -- The part of a claimant's body that lies in the page.
  unfoldable pub column : ℕ → ℕ → ℕ → Dict SparseBody → BackpropTx → Part (List ℤ)
  unfolding dense_body
  column dim start stop bodies tx = do
    body ← present (lookup (txid p tx) bodies) missing_body
    d ← read_dense (dense_body body dim)
    demand (p.sha256 (p.tobytes d) == tx.delta_hash) wrong_body
    goes (slice start (stop - start) d)

  unfoldable pub columns : ℤ → ℕ → ℕ → ℕ → Dict SparseBody → List BackpropTx → Part (List (List ℤ))
  unfolding column
  columns page_id dim start stop bodies [] = goes []
  columns page_id dim start stop bodies (tx ∷ txs) = elim (claims_page page_id tx) [
    | true ↦ column dim start stop bodies tx >>= λ c.
        columns page_id dim start stop bodies txs >>= λ cs. goes (c ∷ cs)
    | false ↦ columns page_id dim start stop bodies txs
  ]

  module _ (loads_pages : List ℕ → Option (List (ℕ × ℕ))) where
    -- `verify`; `loads_pages` reads the spans of the page table out of the JSON.
    unfoldable pub verify : FraudProof → Ruling
    unfolding fold_leaves check_carried_txs columns new_page int64_page from_hex all_from_hex
        path_from_hex
    verify f = ruling_of (do
      let h = f.header
      let ph = f.parent_header
      demand (h.prev_hash == block_hash p ph) no_extension
      demand (p.sha256 f.parent_model_json == ph.model_root) wrong_model
      pages ← given (loads_pages f.parent_model_json)
      (start, stop) ← present (page_at pages f.page_id) page_range
      demand (length f.committed_leaves == length pages) growth_block
      level ← given (all_from_hex f.committed_leaves)
      top ← given (get_elem? (fold_leaves (length level) level) 0)
      demand (top == h.state_root) wrong_leaves
      demand (p.sha256 (p.join (sorted p.text_le f.txids)) == h.txset_root) wrong_txset
      demand (length f.txs == length f.txids && length f.txids == h.n_txs) incomplete
      check_carried_txs f.txids ph.height f.txs
      cs ← columns f.page_id (table_dim pages) start stop f.bodies f.txs
      page ← given (int64_page f.parent_page)
      demand (length page == stop - start) wrong_span
      path ← given (path_from_hex f.parent_path)
      root ← given (from_hex ph.state_root)
      demand (verify_page p (p.tobytes page) path root) wrong_path
      text ← given (leaf_at f.committed_leaves f.page_id)
      leaf ← given (from_hex text)
      demand (not (leaf_hash p (p.tobytes (new_page cs page)) == leaf)) no_fraud
      goes fraud)

  -- The bodies of the claimants, sparse.
  unfoldable pub claimant_bodies :
      ℕ → ℕ → List BackpropTx → Dict (List ℤ) → Dict SparseBody → Option (Dict SparseBody)
  unfolding sparse_body
  claimant_bodies dim page_id [] dense_bodies out = some out
  claimant_bodies dim page_id (tx ∷ txs) dense_bodies out =
      elim (contains page_id (canonical_pages tx)) [
        | true ↦ elim (lookup (txid p tx) dense_bodies) [
          | none ↦ none
          | some d ↦
              claimant_bodies dim page_id txs dense_bodies (put (txid p tx) (sparse_body dim d) out)
        ]
        | false ↦ claimant_bodies dim page_id txs dense_bodies out
      ]

  -- A transaction as its field dict carries it.
  unfoldable pub carried_tx : BackpropTx → BackpropTx
  carried_tx tx = record tx { pages = canonical_pages tx; data_refs = canonical_refs p tx }

  abbrev pub page_bytes : List ℤ → List (ℕ × ℕ) → List (List ℕ)
  page_bytes w pages = map (λ (q : ℕ × ℕ). p.tobytes (slice q.0 (q.1 - q.0) w)) pages

  -- `build`, over the spans read from the JSON; none where it raises
  unfoldable pub build :
      Header
      → Header
      → List ℕ
      → List (ℕ × ℕ)
      → List ℕ
      → ℕ
      → List BackpropTx
      → Dict (List ℤ)
      → List ℤ
      → Option FraudProof
  unfolding claimant_bodies carried_tx
  build h ph json pages leaves page_id txs dense_bodies w = elim (get_elem? pages page_id) [
    | none ↦ none
    | some (start, stop) ↦ elim (claimant_bodies (table_dim pages) page_id txs dense_bodies []) [
      | none ↦ none
      | some bodies ↦ elim (proof (Merkle.build p (page_bytes w pages)) page_id) [
        | none ↦ none
        | some path ↦ some (record {
          header = h;
          parent_header = ph;
          parent_model_json = json;
          committed_leaves = leaves;
          page_id = pos page_id;
          txids = sorted p.text_le (map (txid p) txs);
          txs = map carried_tx txs;
          bodies = bodies;
          parent_page = slice start (stop - start) w;
          parent_path = path;
        })
      ]
    ]
  ]
