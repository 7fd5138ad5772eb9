-- ===== src/Gossip.antt =====
-- A node of rig/p2p.py: it floods signed deltas and blocks to its peers, and installs blocks in its tree.
-- What the node sends waits in an outbox. A set is the list of its members.
pub mod Returns
pub mod Sound
pub mod Produce
pub mod Network
pub mod Made
pub mod Steps
pub mod Runs
use sestrian.Base.{
  ℕ, zero, suc, Bool, true, false, not, ◌||◌, Option, none, some, List, [], ◌∷◌, ◌++◌,
  if◌then◌else◌, ◌==◌, contains, map,
}
use sestrian.Base.Int.{ℤ, pos}
use sestrian.Base.Dict.{Dict, lookup, get_or, put, remove, values}
use sestrian.Platform.{Platform}
use sestrian.Crypto.{BackpropTx, signing_bytes, txid}
use sestrian.Crypto
use sestrian.Blockchain.Types.{
  Block, Reason, Verdict, raised, valid, orphan, missing_key, bad_hex, bad_genesis, empty_pages,
}
use sestrian.Blockchain.Commit.{block_hash}
use sestrian.Blockchain.Tree.{Tree, height_of, add_block, chain_from_genesis}
use sestrian.Blockchain.Build.{Draft, build_block}

pub record Node : Type 0 where
  pub node_id : ℕ
  -- the public key of the node's pair
  pub key : ℕ
  pub tree : Tree
  -- txid -> the delta and its body
  pub mempool : Dict (BackpropTx × List ℤ)
  pub seen_tx : List ℕ
  pub seen_block : List ℕ
  -- parent hash -> blocks that wait for it
  pub orphans : Dict (List Block)

-- `("tx", tx, body)` and `("block", block)`
pub data Message : Type 0 where
  tx_message : BackpropTx → List ℤ → Message
  block_message : Block → Message

-- A node at work, with its outbox.
pub record Turn : Type 0 where
  pub node : Node
  pub outbox : List Message

-- A handler returns, or an exception leaves it; `unfinished` is the model's own, for too little fuel.
pub data Outcome : Type 0 where
  done : Turn → Outcome
  crashed : Turn → Outcome
  unfinished : Outcome

infixl 5 ◌>>=◌
abbrev pub ◌>>=◌ : Outcome → (Turn → Outcome) → Outcome
done t >>= next = next t
crashed t >>= next = crashed t
unfinished >>= next = unfinished

-- What `except ValidationError` catches, and whether the error tells of an orphan.
pub data Error : Type 0 where
  no_parent invalid_block escapes : Error

abbrev pub error_of : Reason → Error
error_of orphan = no_parent
error_of missing_key = escapes
error_of bad_hex = escapes
error_of bad_genesis = escapes
error_of empty_pages = escapes
error_of other = invalid_block

-- `outbox.append(message)`
abbrev pub send : Message → Turn → Turn
send m t = record t { outbox = t.outbox ++ m ∷ [] }

module _ (p : Platform) where
  -- `_prune`
  unfoldable pub prune_txs : List BackpropTx → Node → Node
  prune_txs [] n = n
  prune_txs (tx ∷ txs) n = prune_txs txs (record n { mempool = remove (txid p tx) n.mempool })

  -- The delta enters the mempool and is flooded on.
  unfoldable pub admit : BackpropTx → List ℤ → Turn → Turn
  admit tx body t =
      let n = t.node in
      send (tx_message tx body) (record t {
        node = record n {
          seen_tx = txid p tx ∷ n.seen_tx;
          mempool = put (txid p tx) (tx, body) n.mempool;
        };
      })

  -- `GossipNode.recv_tx`
  unfoldable pub recv_tx : BackpropTx → List ℤ → Turn → Turn
  unfolding admit
  recv_tx tx body t =
      if contains (txid p tx) t.node.seen_tx || not (Crypto.verify p tx)
      then t
      else if not (p.sha256 (p.tobytes body) == tx.delta_hash)
      then t
      else admit tx body t

  -- The block waits for its parent.
  unfoldable pub file_orphan : Block → Turn → Turn
  file_orphan b t =
      let n = t.node in
      let parent = b.header.prev_hash in
      record t {
        node = record n { orphans = put parent (get_or parent [] n.orphans ++ b ∷ []) n.orphans };
      }

  -- `except ValidationError as e`
  unfoldable pub on_error : Error → Block → Turn → Outcome
  unfolding file_orphan
  on_error no_parent b t = done (file_orphan b t)
  on_error invalid_block b t = done t
  on_error escapes b t = crashed t

  abbrev pub with_tree : Tree → Turn → Turn
  with_tree tree t = let n = t.node in record t { node = record n { tree = tree } }

  -- The block is in the tree: it is flooded on, and its orphans are taken out of the buffer.
  unfoldable pub landed : ℕ → Block → Turn → Turn
  unfolding prune_txs
  landed hash b t =
      let n = prune_txs b.txs (record (t.node) { seen_block = hash ∷ t.node.seen_block }) in
      send (block_message b) (record t { node = record n { orphans = remove hash n.orphans } })

  -- `for child in children: self.recv_block(child, outbox)`
  unfoldable pub recv_children : (Block → Turn → Outcome) → List Block → Turn → Outcome
  recv_children recv [] t = done t
  recv_children recv (b ∷ blocks) t = recv b t >>= recv_children recv blocks

  -- `GossipNode.recv_block`; the fuel bounds the depth of the recursion.
  unfoldable pub recv_block : ℕ → Block → Turn → Outcome
  unfolding on_error landed recv_children
  recv_block zero b t = unfinished
  recv_block (suc k) b t =
      let hash = block_hash p b.header in
      elim (contains hash t.node.seen_block) [
        | true ↦ done t
        | false ↦
            let (tree, verdict) = add_block p b t.node.tree in
            elim verdict [
              | raised e ↦ on_error (error_of e) b (with_tree tree t)
              | valid became_head ↦
                  recv_children (recv_block k) (get_or hash [] t.node.orphans)
                    (landed hash b (with_tree tree t))
            ]
      ]
