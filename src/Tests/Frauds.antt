-- ===== src/Tests/Frauds.antt =====
-- Page fraud proofs of a block with one delta, on weights of two pages of equal length.
use sestrian.Base.{ℕ, ◌-◌, ◌≡◌, refl, Option, some, List, [], ◌∷◌, map, get_elem?, ◌==◌, arith}
use sestrian.Base.Int.{ℤ, pos}
use sestrian.Base.Dict.{Dict, put, lookup-put_self}
use sestrian.Platform.{toy}
use sestrian.Crypto.{BackpropTx, canonical_pages, signing_bytes, txid}
use sestrian.Crypto
use sestrian.Merkle.{Step, node_hash, leaf_hash, pair_up, build_from, top, root}
use sestrian.Merkle
use sestrian.Aggregation.{slice, transition}
use sestrian.Aggregation.Paged.{contributors, paged_transition}
use sestrian.Blockchain.Types.{Header}
use sestrian.Blockchain.Commit.{block_hash, txset_root}
use sestrian.Fraud.Game.{FraudProof, verify, build, fold_leaves, from_hex, all_from_hex}
use sestrian.Fraud.Hex.{ReadsDigests}
use sestrian.Fraud.Canonical.{leb-IsTotal}
use sestrian.Fraud.Evidence.{IsBacked, bodies_of}
use sestrian.Fraud.Convicts.{IsPublished, ruling_on, build-verify, misplaced-verify}

abbrev spans : List (ℕ × ℕ)
spans = (0, 1) ∷ (1, 2) ∷ []

abbrev w : List ℤ
w = pos 10 ∷ pos 20 ∷ []

abbrev d : List ℤ
d = pos 0 ∷ pos 4 ∷ []

abbrev tx : BackpropTx
tx = record {
  miner = 5;
  base_height = 7;
  delta_hash = toy.sha256 (toy.tobytes d);
  da_pointer = 6;
  bond = pos 0;
  pages = 1 ∷ [];
  data_refs = [];
  sig = 5;
}

abbrev bodies : Dict (List ℤ)
bodies = put (txid toy tx) d []

abbrev leaves : List ℕ
leaves = 8 ∷ 9 ∷ []

abbrev parent_leaf : ℤ → ℕ
parent_leaf x = leaf_hash toy (toy.tobytes (x ∷ []))

abbrev parent_header : Header
parent_header = record {
  height = 7;
  prev_hash = 0;
  state_root = node_hash toy (parent_leaf (pos 10)) (parent_leaf (pos 20));
  txset_root = 0;
  n_txs = 0;
  work = 0;
  proposer = 0;
  transfer_root = 0;
  ledger_root = 0;
  data_root = 0;
  vrf_proof = 0;
  score_root = 0;
  sketch_root = 0;
  model_root = toy.sha256 [];
  vrf_attempt = 0;
  version = 1;
}

abbrev header : Header
header = record parent_header {
  height = 8;
  prev_hash = block_hash toy parent_header;
  state_root = node_hash toy 8 9;
  txset_root = txset_root toy (tx ∷ []);
  n_txs = 1;
}

abbrev loads_pages : List ℕ → Option (List (ℕ × ℕ))
loads_pages json = some spans

tx-IsBacked : IsBacked toy 7 2 bodies tx
unfolding Crypto.verify from_hex
tx-IsBacked =
    (refl, refl, (d, lookup-put_self (txid toy tx) d [], refl, (refl, (refl, tt)), refl), refl)

parent_root :
    root toy (map (λ (q : ℕ × ℕ). toy.tobytes (slice q.0 (q.1 - q.0) w)) spans)
    ≡ some parent_header.state_root
unfolding root Merkle.build build_from pair_up top
parent_root = refl

leaf_root : get_elem? (fold_leaves toy 2 leaves) 0 ≡ some header.state_root
unfolding fold_leaves pair_up
leaf_root = refl

leaves_read : all_from_hex toy leaves ≡ some leaves
unfolding all_from_hex from_hex
leaves_read = refl

toy-ReadsDigests : ReadsDigests toy
unfolding from_hex
toy-ReadsDigests bytes = refl

leaf_read : from_hex toy 9 ≡ some 9
unfolding from_hex
leaf_read = refl

block-IsPublished :
    IsPublished toy loads_pages header parent_header [] spans leaves leaves (tx ∷ []) bodies w
block-IsPublished = record {
  extends = refl;
  table = refl;
  read = refl;
  no_growth = refl;
  decoded = leaves_read;
  folded = leaf_root;
  committed = refl;
  counted = refl;
  backed = (tx-IsBacked, tt);
  bounded = (refl, (refl, tt));
  parent_root = parent_root;
}

build-verify_example :
    let after =
      paged_transition w (bodies_of toy bodies (tx ∷ [])) (map canonical_pages (tx ∷ [])) spans in
    (f : FraudProof) × (build toy header parent_header [] spans leaves 1 (tx ∷ []) bodies w
      ≡ some f)
    × (verify toy loads_pages f ≡ ruling_on (leaf_hash toy (toy.tobytes (slice 1 1 after)) == 9))
build-verify_example =
    build-verify toy loads_pages leb-IsTotal toy-ReadsDigests header parent_header [] spans leaves
      leaves (tx ∷ []) bodies w block-IsPublished 1 1 2 9 9
      (refl, omega arith, (refl, omega arith, refl)) refl refl leaf_read

misplaced-verify_example :
    (f : FraudProof) × (build toy header parent_header [] spans leaves 1 (tx ∷ []) bodies w
      ≡ some f)
    × (path : List Step) × (verify toy loads_pages
          (record f { parent_page = slice 0 1 w; parent_path = path })
        ≡ ruling_on (
            leaf_hash toy (
              toy.tobytes (
                transition
                  (contributors 1 1 2
                    (bodies_of toy bodies (tx ∷ []))
                    (map canonical_pages (tx ∷ [])))
                  (slice 0 1 w)))
            == 9))
misplaced-verify_example =
    misplaced-verify toy loads_pages leb-IsTotal toy-ReadsDigests header parent_header [] spans
      leaves leaves (tx ∷ []) bodies w block-IsPublished 1 0 1 2 0 1 9 9 refl refl refl refl
      leaf_read (omega arith)
