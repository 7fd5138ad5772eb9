-- ===== src/Gossip/Produce.antt =====
-- How a node of rig/p2p.py makes deltas and blocks of its own. What needs the model's arithmetic on
-- floats comes from parameters: the trained delta, and the ranking of the candidates.
use sestrian.Base.{
  ℕ, zero, suc, Bool, true, false, Option, none, some, List, [], ◌∷◌, if◌then◌else◌, ◌==◌, contains,
  map, filter,
}
use sestrian.Base.Int.{ℤ, pos}
use sestrian.Base.Dict.{Dict, lookup, put, values}
use sestrian.Platform.{Platform}
use sestrian.Crypto.{BackpropTx, signing_bytes, txid}
use sestrian.Blockchain.Types.{Block, raised, valid}
use sestrian.Blockchain.Commit.{block_hash}
use sestrian.Blockchain.Tree.{Tree, add_block, chain_from_genesis}
use sestrian.Blockchain.Build.{Draft, build_block}
use sestrian.Gossip.{
  Node, block_message, Turn, Outcome, done, crashed, send, admit, prune_txs, with_tree,
}

abbrev pub include_k : ℕ
include_k = 4

-- `xs[:n]`
abbrev pub take {ℓ} : {A : Type ℓ} → ℕ → List A → List A
take n [] = []
take zero (x ∷ xs) = []
take (suc n) (x ∷ xs) = x ∷ take n xs

-- `{tx.da_pointer: body for tx, body in chosen}`
unfoldable pub bodies_by_pointer : List (BackpropTx × List ℤ) → Dict (List ℤ) → Dict (List ℤ)
bodies_by_pointer [] out = out
bodies_by_pointer ((tx, body) ∷ chosen) out = bodies_by_pointer chosen (put tx.da_pointer body out)

-- The work of the machine-learning model at a node.
pub record Trainer : Type 0 where
  -- the quantized delta that `train_step` comes to from the weights, by the node's id and the height
  pub train : ℕ → ℕ → List ℤ → List ℤ
  -- the candidates that lower the loss on the height's evaluation batch, the best first
  pub rank : ℕ → List ℤ → List (BackpropTx × List ℤ) → List (BackpropTx × List ℤ)
  -- `f"da://{pub[:8]}/{height}/{node_id}"`
  pub pointer : ℕ → ℕ → ℕ → ℕ

-- The block at the head with its weights.
unfoldable pub head_of : Tree → Option (ℕ × List ℤ)
head_of t = elim (lookup t.head t.blocks) [
  | none ↦ none
  | some b ↦ elim (lookup t.head t.state) [ none ↦ none | some w ↦ some (b.header.height, w) ]
]

module _ (p : Platform) (trainer : Trainer) where
  -- `BackpropTx.signed`
  unfoldable pub signed : BackpropTx → BackpropTx
  signed tx = record tx { sig = p.sign tx.miner (signing_bytes p tx) }

  -- `GossipNode.make_tx`
  unfoldable pub make_tx : ℕ → List ℤ → Node → BackpropTx × List ℤ
  unfolding signed
  make_tx height w n =
      let body = trainer.train n.node_id height w in
      (
        signed (record {
          miner = n.key;
          base_height = height;
          delta_hash = p.sha256 (p.tobytes body);
          da_pointer = trainer.pointer n.key height n.node_id;
          bond = pos 0;
          pages = [];
          data_refs = p.genesis ∷ [];
          sig = p.blank;
        }),
        body,
      )

  -- `GossipNode.submit_own_tx`
  unfoldable pub submit_own_tx : Turn → Outcome
  unfolding make_tx
  submit_own_tx t = elim (head_of t.node.tree) [
    | none ↦ crashed t
    | some (height, w) ↦
        let (tx, body) = make_tx height w t.node in
        if contains (txid p tx) t.node.seen_tx then done t else done (admit p tx body t)
  ]

  unfoldable pub draft_of : List (BackpropTx × List ℤ) → ℕ → Draft
  unfolding bodies_by_pointer
  draft_of chosen key = record {
    accepted = map (λ (c : BackpropTx × List ℤ). c.0) chosen;
    bodies = bodies_by_pointer chosen [];
    transfers = [];
    data_txs = [];
    scores = [];
    sketches = [];
    proposer = key;
    attempt = 0;
  }

  -- The node's own block is in its tree; it is announced if it is the head now.
  unfoldable pub announce : Block → Bool → Turn → Turn
  unfolding prune_txs
  announce b false t = t
  announce b true t =
      let n : Node = record (t.node) { seen_block = block_hash p b.header ∷ t.node.seen_block } in
      send (block_message b) (record t { node = prune_txs p b.txs n })

  -- The end of `propose`, for the candidates chosen.
  unfoldable pub propose_block : List (BackpropTx × List ℤ) → Turn → Outcome
  unfolding draft_of announce
  propose_block chosen t =
      elim (build_block p t.node.tree t.node.tree.head (draft_of chosen t.node.key)) [
        | raised e ↦ crashed t
        | valid b ↦
            let (tree, verdict) = add_block p b t.node.tree in
            elim verdict [
              | raised e ↦ crashed (with_tree p tree t)
              | valid became_head ↦ done (announce b became_head (with_tree p tree t))
            ]
      ]

  -- The best candidates go into the block; without a candidate there is no block.
  unfoldable pub propose_ranked : List (BackpropTx × List ℤ) → Turn → Outcome
  unfolding propose_block
  propose_ranked [] t = done t
  propose_ranked (c ∷ more) t = propose_block (take include_k (c ∷ more)) t

  -- `GossipNode.propose`
  unfoldable pub propose : Turn → Outcome
  unfolding head_of propose_ranked
  propose t = elim (head_of t.node.tree) [
    | none ↦ crashed t
    | some (height, w) ↦
        let here =
          filter (λ (c : BackpropTx × List ℤ). (c.0).base_height == height)
            (values t.node.mempool) in
        propose_ranked (trainer.rank height w here) t
  ]

-- `for b in chain: outbox.append(("block", b))`
unfoldable pub send_blocks : List Block → Turn → Turn
send_blocks [] t = t
send_blocks (b ∷ blocks) t = send_blocks blocks (send (block_message b) t)

-- `GossipNode.rebroadcast_chain`
unfoldable pub rebroadcast_chain : Turn → Outcome
unfolding send_blocks
rebroadcast_chain t = elim (chain_from_genesis t.node.tree.head t.node.tree) [
  | none ↦ crashed t
  | some chain ↦ done (send_blocks chain t)
]
