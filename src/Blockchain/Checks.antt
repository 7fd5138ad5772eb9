-- ===== src/Blockchain/Checks.antt =====
-- The checks of `validate_block` of rig/blockchain.py that read no post-state.
use sestrian.Base.{
  ℕ, suc, ◌+◌, ◌-◌, ◌/◌, ◌^◌, Bool, true, false, not, ◌&&◌, ◌||◌, Option, none, some, List, [], ◌∷◌,
  map, if◌then◌else◌, ltb, leb, ◌==◌, all, contains, length, get_elem?,
}
use sestrian.Base.Int.{ℤ, pos, negsuc, leb_ℤ}
use sestrian.Base.Dict.{Dict, lookup, keys, values}
use sestrian.Platform.{Platform}
use sestrian.Crypto.{BackpropTx, canonical_pages, txid, verify}
use sestrian.Token.Types.{TokenLedger}
use sestrian.Token.Txs.{address}
use sestrian.Token.Account.{balance, supply}
use sestrian.Token.DataLane.{is_nonzero}
use sestrian.Lottery.{seed, eligible, attempt_work, vrf_work, attempt_max}
use sestrian.ModelState.{ModelState, GenesisParams, is_active, required_nnz}
use sestrian.Lanes.{claimable_pages}
use sestrian.Blockchain.Types.{
  Header, Block, Verdict, raised, valid, ◌>>◌, require, bad_version, bad_height, bad_tx_count,
  attempt_range, not_eligible, bad_proof, bad_hex, bad_work, bad_tx_signature, bad_base_height,
  missing_body, bad_body_length, bad_body_hash, bad_pages, frozen_page, outside_lane, outside_claim,
  below_quota, over_envelope, txset_mismatch, score_keys, score_range, score_mismatch, sketch_keys,
  sketch_malformed, sketch_mismatch,
}
use sestrian.Blockchain.Version.{expected_version}
use sestrian.Blockchain.Ledger.{sketch_dim}
use sestrian.Blockchain.Commit.{txset_root, scores_root, sketch_root}

abbrev pub score_cap : ℤ
score_cap = pos 1_000_000_000

abbrev pub Done : Type 0
Done = Verdict (Unit {0})

-- The parent's model state and the genesis parameters, given together or, in the legacy mode, neither.
abbrev pub Mode : Type 0
Mode = Option (ModelState × GenesisParams)

abbrev pub same_list : List ℕ → List ℕ → Bool
same_list [] [] = true
same_list [] (y ∷ ys) = false
same_list (x ∷ xs) [] = false
same_list (x ∷ xs) (y ∷ ys) = x == y && same_list xs ys

-- `set(xs) == set(ys)`
abbrev pub same_set : List ℕ → List ℕ → Bool
same_set xs ys = all (λ x. contains x ys) xs && all (λ y. contains y xs) ys

unfoldable pub count_nonzero : List ℤ → ℕ
count_nonzero [] = 0
count_nonzero (x ∷ xs) = (if is_nonzero x then 1 else 0) + count_nonzero xs

-- A coordinate lies in the span of a claimed page.
unfoldable pub in_claim : ModelState → List ℕ → ℕ → Bool
in_claim model [] i = false
in_claim model (q ∷ claim) i =
    elim (get_elem? model.pages q) [
      | none ↦ false
      | some page ↦ leb page.start i && ltb i page.stop
    ]
    || in_claim model claim i

-- From coordinate i on, the body is zero outside the claim.
unfoldable pub zero_outside : ModelState → List ℕ → ℕ → List ℤ → Bool
unfolding in_claim
zero_outside model claim i [] = true
zero_outside model claim i (x ∷ body) =
    (not (is_nonzero x) || in_claim model claim i) && zero_outside model claim (suc i) body

abbrev pub is_v5 : GenesisParams → ℕ → Bool
is_v5 g height = not (g.v5_height == 0) && leb g.v5_height height

abbrev pub version_ok : Mode → Header → Bool
version_ok none h = true
version_ok (some (model, g)) h = h.version == expected_version h.height (some g)

abbrev pub score_ok : ℤ → Bool
score_ok z = leb_ℤ (pos 0) z && leb_ℤ z score_cap

-- `-I32 <= x < I32`
abbrev pub in_i32 : ℤ → Bool
in_i32 x = leb_ℤ (negsuc (2 ^ 31 - 1)) x && leb_ℤ x (pos (2 ^ 31 - 1))

abbrev pub sketch_ok : List ℤ → Bool
sketch_ok v = length v == sketch_dim && all in_i32 v

abbrev pub is_nil : List ℕ → Bool
is_nil [] = true
is_nil (x ∷ xs) = false

module _ (p : Platform) where
  unfoldable pub check_header : Mode → ℕ → Block → Done
  check_header mode parent_height block = do
    require (version_ok mode block.header) bad_version
    require (block.header.height == suc parent_height) bad_height
    require (block.header.n_txs == length block.txs) bad_tx_count

  -- The proof clears the threshold of the parent's ledger where there is one.
  unfoldable pub check_proof : Option TokenLedger → Header → Done
  check_proof (some led) h =
      require
        (eligible p h.proposer h.vrf_proof h.prev_hash h.height h.vrf_attempt
          (balance (address p h.proposer) led) (supply led))
        not_eligible
  check_proof none h =
      require (p.ed25519 h.proposer (seed p h.prev_hash h.height h.vrf_attempt) h.vrf_proof)
        bad_proof

  unfoldable pub check_lottery : Mode → Option TokenLedger → Header → Done
  check_lottery (some v1) led h = do
    require (leb h.vrf_attempt attempt_max) attempt_range
    check_proof led h
    require (h.work == attempt_work p h.vrf_proof h.vrf_attempt) bad_work
  check_lottery none led h = do
    require (p.ed25519 h.proposer (seed p h.prev_hash h.height 0) h.vrf_proof) bad_proof
    require (h.work == vrf_work p h.vrf_proof) bad_work

  -- `bytes.fromhex(h.vrf_proof) if h.vrf_proof else b""`, which raises a ValueError on other texts.
  abbrev pub proof_reads : Header → Bool
  proof_reads h = h.vrf_proof == p.blank || p.is_hex h.vrf_proof

  -- The block of the name "genesis" has no proposer to check.
  unfoldable pub check_proposer : Mode → Option TokenLedger → Header → Done
  check_proposer mode led h =
      if h.proposer == p.genesis
      then valid tt
      else (require (proof_reads h) bad_hex >> check_lottery mode led h)

  abbrev pub lane_ok : ModelState → GenesisParams → ℕ → BackpropTx → List ℕ → Bool
  lane_ok model g height tx pages =
      if is_v5 g height
      then (let allowed =
            claimable_pages p (height / g.lane_epoch_len) tx.miner model g.lane_width in
          all (λ q. contains q allowed) pages)
      else true

  -- The claim of a delta, and the work that its body carries in it.
  unfoldable pub check_claim : Mode → ℕ → BackpropTx → List ℤ → Done
  check_claim none height tx body = valid tt
  check_claim (some (model, g)) height tx body = do
    let pages = canonical_pages tx
    require (not (is_nil pages) && same_list tx.pages pages) bad_pages
    require (all (is_active model) pages) frozen_page
    require (lane_ok model g height tx pages) outside_lane
    require (zero_outside model pages 0 body) outside_claim
    require (leb (required_nnz model pages) (count_nonzero body)) below_quota
    require (leb (count_nonzero body) g.delta_max_nnz) over_envelope

  unfoldable pub check_body : Mode → ℕ → ℕ → BackpropTx → Option (List ℤ) → Done
  check_body mode dim height tx none = raised missing_body
  check_body mode dim height tx (some body) = do
    require (length body == dim) bad_body_length
    require (p.sha256 (p.tobytes body) == tx.delta_hash) bad_body_hash
    check_claim mode height tx body

  unfoldable pub check_tx : Mode → ℕ → ℕ → Dict (List ℤ) → BackpropTx → Done
  check_tx mode dim height bodies tx = do
    require (verify p tx) bad_tx_signature
    require (suc tx.base_height == height) bad_base_height
    check_body mode dim height tx (lookup tx.da_pointer bodies)

  unfoldable pub check_txs : Mode → ℕ → ℕ → Dict (List ℤ) → List BackpropTx → Done
  check_txs mode dim height bodies [] = valid tt
  check_txs mode dim height bodies (tx ∷ txs) =
      check_tx mode dim height bodies tx >> check_txs mode dim height bodies txs

  unfoldable pub check_commitments : Block → Done
  check_commitments block = do
    let ids = map (txid p) block.txs
    require (txset_root p block.txs == block.header.txset_root) txset_mismatch
    require (same_set (keys block.scores) ids) score_keys
    require (all score_ok (values block.scores)) score_range
    require (scores_root p block.scores == block.header.score_root) score_mismatch
    require (same_set (keys block.sketches) ids) sketch_keys
    require (all sketch_ok (values block.sketches)) sketch_malformed
    require (sketch_root p block.sketches == block.header.sketch_root) sketch_mismatch
