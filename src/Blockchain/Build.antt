-- ===== src/Blockchain/Build.antt =====
-- `build_block` of rig/blockchain.py: a block of accepted deltas on top of a parent.
pub mod Keys
pub mod Symmetry
use sestrian.Base.{
  ℕ, zero, suc, ◌+◌, Bool, true, false, Option, none, some, List, [], ◌∷◌, map, replicate, all,
  length, if◌then◌else◌,
}
use sestrian.Base.Int.{ℤ, pos}
use sestrian.Base.Dict.{Dict, lookup, has, get_or, put}
use sestrian.Platform.{Platform}
use sestrian.Crypto.{BackpropTx, txid}
use sestrian.Token.Types.{TokenLedger, TransferTx, DataTx}
use sestrian.Token.Commit.{ledger_root, data_root, transfer_root}
use sestrian.Lottery.{seed, attempt_work, vrf_work}
use sestrian.Aggregation.{transition}
use sestrian.ModelState.{ModelState, GenesisParams}
use sestrian.ModelState.Fold.{fold}
use sestrian.ModelState.Commit.{model_root, page_state_root}
use sestrian.Blockchain.Types.{
  Header, Block, Verdict, raised, valid, ◌>>=◌, ◌>>◌, require, missing_key, empty_pages,
}
use sestrian.Blockchain.Version.{expected_version}
use sestrian.Blockchain.Ledger.{apply_ledger, committed_scores, sketch_dim}
use sestrian.Blockchain.Commit.{txset_root, scores_root, sketch_root, state_root}
use sestrian.Blockchain.Checks.{Mode}
use sestrian.Blockchain.Validate.{facts, next_weights, body_list}
use sestrian.Blockchain.Tree.{Tree, mode_at, recent_proposers}

-- What the proposer puts in: deltas, bodies, transactions, scores and sketches.
pub record Draft : Type 0 where
  pub accepted : List BackpropTx
  pub bodies : Dict (List ℤ)
  pub transfers : List TransferTx
  pub data_txs : List DataTx
  pub scores : Dict ℤ
  pub sketches : Dict (List ℤ)
  pub proposer : ℕ
  pub attempt : ℕ

-- `{t.da_pointer: bodies[t.da_pointer] for t in accepted}`
unfoldable pub carried : List BackpropTx → Dict (List ℤ) → Dict (List ℤ) → Dict (List ℤ)
carried [] bodies out = out
carried (tx ∷ txs) bodies out =
    carried txs bodies (put tx.da_pointer (get_or tx.da_pointer [] bodies) out)

-- The roots of the state and the model, and the lottery's proof and work.
pub record Seal : Type 0 where
  pub state : ℕ
  pub model : ℕ
  pub proof : ℕ
  pub work : ℕ

abbrev pub params_of : Mode → Option GenesisParams
params_of none = none
params_of (some (model, g)) = some g

module _ (p : Platform) where
  -- `{t.txid(): sketches.get(t.txid(), [0] * SKETCH_DIM) for t in accepted}`
  unfoldable pub committed_sketches :
      List BackpropTx → Dict (List ℤ) → Dict (List ℤ) → Dict (List ℤ)
  committed_sketches [] sketches out = out
  committed_sketches (tx ∷ txs) sketches out =
      committed_sketches txs sketches
        (put (txid p tx) (get_or (txid p tx) (replicate sketch_dim (pos 0)) sketches) out)

  unfoldable pub block_scores : Draft → Dict ℤ
  unfolding committed_scores
  block_scores d = committed_scores p d.accepted d.scores []

  unfoldable pub block_sketches : Draft → Dict (List ℤ)
  unfolding committed_sketches
  block_sketches d = committed_sketches d.accepted d.sketches []

  -- The transition of the draft: the same as a validator's, over the proposer's bodies.
  unfoldable pub seal : Mode → List ℤ → ℕ → ℕ → Draft → Verdict Seal
  seal (some (model, g)) w height parent_hash d =
      let b = facts p height d.accepted (block_scores d) parent_hash d.proposer in
      let model' = fold p g b model in
      let proof = p.sign d.proposer (seed p parent_hash height d.attempt) in
      elim (page_state_root p (next_weights p g b model d.accepted d.bodies w) model') [
        | none ↦ raised empty_pages
        | some r ↦ valid (record {
          state = r;
          model = model_root p model';
          proof = proof;
          work = attempt_work p proof d.attempt;
        })
      ]
  seal none w height parent_hash d =
      let proof = p.sign d.proposer (seed p parent_hash height 0) in
      valid (record {
        state = state_root p (transition (body_list p d.bodies d.accepted) w);
        model = p.blank;
        proof = proof;
        work = vrf_work p proof;
      })

  -- The header before the token transition is committed.
  unfoldable pub draft_header : Mode → ℕ → ℕ → Draft → Seal → Header
  draft_header mode height parent_hash d s = record {
    height = height;
    prev_hash = parent_hash;
    state_root = s.state;
    txset_root = txset_root p d.accepted;
    n_txs = length d.accepted;
    work = s.work;
    proposer = d.proposer;
    transfer_root = p.blank;
    ledger_root = p.blank;
    data_root = p.blank;
    vrf_proof = s.proof;
    score_root = scores_root p (block_scores d);
    sketch_root = sketch_root p (block_sketches d);
    model_root = s.model;
    vrf_attempt = d.attempt;
    version = expected_version height (params_of mode);
  }

  unfoldable pub draft_block : Header → Draft → Block
  draft_block h d = record {
    header = h;
    txs = d.accepted;
    bodies = carried d.accepted d.bodies [];
    transfers = d.transfers;
    data_txs = d.data_txs;
    scores = block_scores d;
    sketches = block_sketches d;
  }

  unfoldable pub sealed_header : Header → Draft → TokenLedger → Header
  sealed_header h d led = record h {
    transfer_root = transfer_root p d.transfers;
    data_root = data_root p d.data_txs;
    ledger_root = ledger_root p led;
  }

  -- The body of `build_block`, once the parent is looked up.
  unfoldable pub build_on :
      Mode → List ℤ → ℕ → ℕ → TokenLedger → Option ℕ → List ℕ → Draft → Verdict Block
  unfolding seal draft_header draft_block sealed_header
  build_on mode w height parent_hash led contributor jurors d = do
    require (all (λ (tx : BackpropTx). has tx.da_pointer d.bodies) d.accepted) missing_key
    s ← seal mode w height parent_hash d
    let h = draft_header mode height parent_hash d s
    led' ← apply_ledger p led (draft_block h d) contributor jurors
    valid (draft_block (sealed_header h d led') d)

  -- `build_block`
  unfoldable pub build_block : Tree → ℕ → Draft → Verdict Block
  unfolding build_on
  build_block t parent_hash d = elim (lookup parent_hash t.state) [
    | none ↦ raised missing_key
    | some w ↦ elim (lookup parent_hash t.blocks) [
      | none ↦ raised missing_key
      | some parent ↦ elim (lookup parent_hash t.ledger) [
        | none ↦ raised missing_key
        | some led ↦
            build_on (mode_at t parent_hash) w (suc parent.header.height) parent_hash led
              t.data_contributor (recent_proposers parent_hash t) d
      ]
    ]
  ]
