-- ===== src/Blockchain/Validate.antt =====
-- `validate_block` of rig/blockchain.py: the checks, and the post-state that the header commits.
use sestrian.Base.{
  ℕ, ◌+◌, Bool, false, Option, none, some, List, [], ◌∷◌, ◌++◌, map, if◌then◌else◌, ◌==◌, length,
}
use sestrian.Base.Int.{ℤ, pos, sum_ℤ}
use sestrian.Base.Dict.{Dict, get_or, values}
use sestrian.Platform.{Platform}
use sestrian.Crypto.{BackpropTx, canonical_pages, txid}
use sestrian.Token.Types.{TokenLedger}
use sestrian.Token.Commit.{ledger_root, data_root, transfer_root}
use sestrian.Aggregation.{transition}
use sestrian.Aggregation.Paged.{paged_transition}
use sestrian.ModelState.{ModelState, ModelSpec, GenesisParams, Page}
use sestrian.ModelState.Fold.{BlockFacts, Activation, fold, fold_activations}
use sestrian.ModelState.Commit.{model_root, page_state_root, page_init}
use sestrian.Blockchain.Types.{
  Block, Verdict, valid, ◌>>=◌, ◌>>◌, require, state_mismatch, model_mismatch, transfer_mismatch,
  data_mismatch, ledger_mismatch,
}
use sestrian.Blockchain.Ledger.{apply_ledger, is_zero}
use sestrian.Blockchain.Commit.{state_root}
use sestrian.Blockchain.Checks.{Mode, check_header, check_proposer, check_txs, check_commitments}

-- What a block leaves behind: the weights, the ledger where one is validated, the model state in v1.
pub record Post : Type 0 where
  pub w : List ℤ
  pub ledger : Option TokenLedger
  pub model : Option ModelState

-- A commitment that may be missing.
abbrev pub commits : Option ℕ → ℕ → Bool
commits none committed = false
commits (some r) committed = r == committed

-- The spans of the page table.
unfoldable pub spans : ModelState → List (ℕ × ℕ)
spans model = map (λ (q : Page). (q.start, q.stop)) model.pages

module _ (p : Platform) where
  -- `[bodies[tx.da_pointer] for tx in txs]`, for bodies that were checked to be there
  unfoldable pub body_list : Dict (List ℤ) → List BackpropTx → List (List ℤ)
  body_list bodies txs = map (λ (tx : BackpropTx). get_or tx.da_pointer [] bodies) txs

  unfoldable pub count_zero : Dict ℤ → List BackpropTx → ℕ
  count_zero scores [] = 0
  count_zero scores (tx ∷ txs) =
      (if is_zero p (get_or (txid p tx) (pos 0) scores) then 1 else 0) + count_zero scores txs

  -- What `fold` is told of a block.
  unfoldable pub facts : ℕ → List BackpropTx → Dict ℤ → ℕ → ℕ → BlockFacts
  unfolding count_zero
  facts height txs scores prev_hash proposer = record {
    height = height;
    n_txs = length txs;
    zero_scored = count_zero scores txs;
    prev_hash = prev_hash;
    score_sum = sum_ℤ (values scores);
    proposer = proposer;
  }

  -- The pages that growth appends, after the aggregation.
  unfoldable pub append_pages : ModelSpec → List Activation → List ℤ → List ℤ
  append_pages spec [] w = w
  append_pages spec (a ∷ more) w =
      append_pages spec more (w ++ page_init p a.trigger a.page_id spec)

  -- The v1 transition of the weights: aggregate over the old pages, then append the new ones.
  unfoldable pub next_weights :
      GenesisParams → BlockFacts → ModelState → List BackpropTx → Dict (List ℤ) → List ℤ → List ℤ
  unfolding body_list spans append_pages
  next_weights g b model txs bodies w =
      append_pages g.spec (fold_activations p g b model)
        (paged_transition w (body_list bodies txs) (map canonical_pages txs) (spans model))

  unfoldable pub block_facts : Block → BlockFacts
  unfolding facts
  block_facts block =
      facts block.header.height block.txs block.scores block.header.prev_hash block.header.proposer

  -- Step 3: the weights and the model state, against the committed roots.
  unfoldable pub transition_block : Mode → List ℤ → Block → Verdict (List ℤ × Option ModelState)
  unfolding next_weights block_facts body_list
  transition_block (some (model, g)) w block = do
    let b = block_facts block
    let w' = next_weights g b model block.txs block.bodies w
    let model' = fold p g b model
    require (commits (page_state_root p w' model') block.header.state_root) state_mismatch
    require (model_root p model' == block.header.model_root) model_mismatch
    valid (w', some model')
  transition_block none w block = do
    let w' = transition (body_list block.bodies block.txs) w
    require (state_root p w' == block.header.state_root) state_mismatch
    valid (w', none)

  -- Step 4: the transfer and data lanes, and the ledger.
  unfoldable pub ledger_block :
      Option TokenLedger → Block → Option ℕ → List ℕ → Verdict (Option TokenLedger)
  ledger_block none block contributor jurors = valid none
  ledger_block (some led) block contributor jurors = do
    require (transfer_root p block.transfers == block.header.transfer_root) transfer_mismatch
    require (data_root p block.data_txs == block.header.data_root) data_mismatch
    led' ← apply_ledger p led block contributor jurors
    require (ledger_root p led' == block.header.ledger_root) ledger_mismatch
    valid (some led')

  -- `validate_block`
  unfoldable pub validate_block :
      Block → List ℤ → ℕ → Option TokenLedger → Option ℕ → List ℕ → Mode → Verdict Post
  validate_block block w parent_height parent_ledger contributor jurors mode = do
    check_header p mode parent_height block
    check_proposer p mode parent_ledger block.header
    check_txs p mode (length w) block.header.height block.bodies block.txs
    check_commitments p block
    (w', model') ← transition_block mode w block
    led' ← ledger_block parent_ledger block contributor jurors
    valid (record { w = w'; ledger = led'; model = model' })
