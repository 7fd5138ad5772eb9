-- ===== src/Gossip/Made.antt =====
-- What a node of rig/p2p.py makes of its own keeps its invariant.
use sestrian.Base.{
  ℕ, ◌≡◌, refl, Bool, true, false, List, [], ◌∷◌, contains, Bool-cases, Option-cases, inl, inr,
  filter, ◌==◌,
}
use sestrian.Base.Int.{ℤ}
use sestrian.Base.Dict.{has, values}
use sestrian.Platform.{Platform}
use sestrian.Crypto.{BackpropTx, signing_bytes, txid}
use sestrian.Crypto
use sestrian.Blockchain.Types.{Block, Verdict-cases}
use sestrian.Blockchain.Commit.{block_hash}
use sestrian.Blockchain.Tree.{add_block}
use sestrian.Blockchain.Tree.Grows.{add_block-adds}
use sestrian.Blockchain.Build.{build_block}
use sestrian.Gossip.{Node, Turn, with_tree}
use sestrian.Gossip.Produce.{
  Trainer, head_of, include_k, take, make_tx, signed, submit_own_tx, draft_of, announce,
  propose_block, propose_ranked, propose,
}
use sestrian.Gossip.Sound.{IsWell, Keeps, prune_txs-IsWell, admit-IsWell, with_tree-IsWell}

module _ (p : Platform) where
  -- A signature that the key's owner makes is accepted.
  module _ (trainer : Trainer)
      (signs : (key : ℕ) (m : List ℕ) → p.ed25519 key m (p.sign key m) ≡ true) where
    make_tx-verify :
        (height : ℕ) (w : List ℤ) (n : Node)
        → Crypto.verify p (make_tx p trainer height w n).0 ≡ true
    unfolding make_tx signed Crypto.verify signing_bytes
    make_tx-verify height w n = signs n.key _

    make_tx-hash :
        (height : ℕ) (w : List ℤ) (n : Node)
        → let (tx, body) = make_tx p trainer height w n in p.sha256 (p.tobytes body) ≡ tx.delta_hash
    unfolding make_tx signed
    make_tx-hash height w n = refl

    pub submit_own_tx-Keeps : (t : Turn) → IsWell p t.node → Keeps p (submit_own_tx p trainer t)
    unfolding submit_own_tx
    submit_own_tx-Keeps t s = elim (Option-cases (head_of t.node.tree)) [
      | inl missing ↦ rw (missing, submit_own_tx) s
      | inr ((height, w), found) ↦
          let made = make_tx p trainer height w t.node in
          elim (Bool-cases (contains (txid p made.0) t.node.seen_tx)) [
            | inl old ↦ rw (found, submit_own_tx, old) s
            | inr new ↦
                rw (found, submit_own_tx, new)
                  (admit-IsWell p made.0 made.1 t (make_tx-verify height w t.node)
                    (make_tx-hash height w t.node) s)
          ]
    ]

    announce-IsWell :
        (b : Block) (became_head : Bool) (t : Turn)
        → has (block_hash p b.header) t.node.tree.blocks ≡ true
        → IsWell p t.node
        → IsWell p (announce p trainer b became_head t).node
    unfolding announce
    announce-IsWell b false t known s = s
    announce-IsWell b true t known s = prune_txs-IsWell p b.txs _ (record {
      tree_sound = s.tree_sound;
      filed = s.filed;
      pooled = s.pooled;
      installed = (known, s.installed);
    })

    propose_block-Keeps :
        (chosen : List (BackpropTx × List ℤ)) (t : Turn)
        → IsWell p t.node
        → Keeps p (propose_block p trainer chosen t)
    unfolding propose_block
    propose_block-Keeps chosen t s =
        elim (Verdict-cases
          (build_block p t.node.tree t.node.tree.head (draft_of p trainer chosen t.node.key))) [
            | inr (e, failed) ↦ rw (failed, propose_block) s
            | inl (b, built) ↦ elim (Verdict-cases (add_block p b t.node.tree).1) [
              | inr (e, refused) ↦ rw (built, propose_block, refused) (with_tree-IsWell p b t s)
              | inl (became_head, accepted) ↦
                  rw (built, propose_block, accepted)
                    (announce-IsWell b became_head (with_tree p (add_block p b t.node.tree).0 t)
                      (add_block-adds p b t.node.tree became_head accepted)
                      (with_tree-IsWell p b t s))
            ]
          ]

    propose_ranked-Keeps :
        (chosen : List (BackpropTx × List ℤ)) (t : Turn)
        → IsWell p t.node
        → Keeps p (propose_ranked p trainer chosen t)
    unfolding propose_ranked
    propose_ranked-Keeps [] t s = s
    propose_ranked-Keeps (c ∷ more) t s = propose_block-Keeps (take include_k (c ∷ more)) t s

    pub propose-Keeps : (t : Turn) → IsWell p t.node → Keeps p (propose p trainer t)
    unfolding propose
    propose-Keeps t s = elim (Option-cases (head_of t.node.tree)) [
      | inl missing ↦ rw (missing, propose) s
      | inr ((height, w), found) ↦
          rw (found, propose)
            (propose_ranked-Keeps
              (trainer.rank height w (
                filter (λ (c : BackpropTx × List ℤ). (c.0).base_height == height)
                  (values t.node.mempool)))
              t s)
    ]
