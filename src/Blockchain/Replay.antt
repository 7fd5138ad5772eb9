-- ===== src/Blockchain/Replay.antt =====
-- `replay_head` of rig/blockchain.py: the head's weights, computed again from the genesis block.
pub mod Steps
pub mod Kept
pub mod Adds
pub mod Head
use sestrian.Base.{ℕ, Bool, Option, none, some, List, [], ◌∷◌, all, if◌then◌else◌}
use sestrian.Base.Int.{ℤ}
use sestrian.Base.Dict.{has}
use sestrian.Platform.{Platform}
use sestrian.Crypto.{BackpropTx}
use sestrian.Aggregation.{transition}
use sestrian.ModelState.{GenesisParams, genesis}
use sestrian.ModelState.Fold.{fold}
use sestrian.Blockchain.Types.{Block}
use sestrian.Blockchain.Checks.{Mode}
use sestrian.Blockchain.Validate.{body_list, next_weights, block_facts}
use sestrian.Blockchain.Tree.{Tree, chain_from_genesis}

-- The block still has the bodies of all its deltas.
abbrev pub carries : Block → Bool
carries b = all (λ (tx : BackpropTx). has tx.da_pointer b.bodies) b.txs

-- The model state that a replay starts from.
abbrev pub start_mode : Option GenesisParams → Mode
start_mode none = none
start_mode (some g) = some (genesis g.spec, g)

abbrev pub the_weights : Option (Mode × List ℤ) → Option (List ℤ)
the_weights none = none
the_weights (some (mode, w)) = some w

module _ (p : Platform) where
  -- The model state and the weights after one block; none where a body was pruned.
  unfoldable pub advance : Mode → List ℤ → Block → Option (Mode × List ℤ)
  advance (some (model, g)) w b =
      let f = block_facts p b in
      if carries b
      then some (some (fold p g f model, g), next_weights p g f model b.txs b.bodies w)
      else none
  advance none w b =
      if carries b then some (none, transition (body_list p b.bodies b.txs) w) else none

  -- After a chain of blocks.
  unfoldable pub replay_chain : Mode → List ℤ → List Block → Option (Mode × List ℤ)
  unfolding advance
  replay_chain mode w [] = some (mode, w)
  replay_chain mode w (b ∷ bs) = elim (advance mode w b) [
    | none ↦ none
    | some (mode', w') ↦ replay_chain mode' w' bs
  ]

  -- `BlockTree.replay_head`
  unfoldable pub replay_head : Tree → Option (List ℤ)
  unfolding replay_chain
  replay_head t = elim (chain_from_genesis t.head t) [
    | none ↦ none
    | some chain ↦ the_weights (replay_chain (start_mode t.params) t.genesis_w chain)
  ]
