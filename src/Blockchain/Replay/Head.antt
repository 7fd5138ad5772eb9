-- ===== src/Blockchain/Replay/Head.antt =====
-- The replay of the head's chain gives the weights that the tree holds for the head.
use mathlib.Core.Path.{subst}
use mathlib.Core.Option.{some-injective}
use sestrian.Base.{
  ℕ, zero, suc, ◌≤◌, ◌≡◌, refl, sym, ap, ◌∙◌, ◌≢◌, inl, inr, Option, none, some, List, [], ◌∷◌,
  ◌==◌, Option-cases, arith, length,
}
use sestrian.Base.Int.{ℤ}
use sestrian.Base.Dict.{lookup, lookup-put_self}
use sestrian.Platform.{Platform}
use sestrian.ModelState.{ModelState, GenesisParams, genesis, dim}
use sestrian.ModelState.Commit.{page_state_root}
use sestrian.Blockchain.Types.{Header, Block, valid, valid-injective, require-valid, bad_genesis}
use sestrian.Blockchain.Commit.{block_hash}
use sestrian.Blockchain.Tree.{
  Tree, add_block, new_tree, root_tree, height_of, chain_down, chain_from_genesis, reversed,
}
use sestrian.Blockchain.Tree.Sound.{IsSound, header_at}
use sestrian.Blockchain.Tree.Adds.{add_block-IsSound}
use sestrian.Blockchain.Tree.Reach.{add_blocks, add_blocks-IsSound, new_tree-IsSound}
use sestrian.Blockchain.Tree.Walk.{known-block, ==-refl, ==-other}
use sestrian.Blockchain.Replay.{start_mode, advance, the_weights, replay_chain, replay_head}
use sestrian.Blockchain.Replay.Steps.{replay_chain-append}
use sestrian.Blockchain.Replay.Kept.{IsKept, model_in}
use sestrian.Blockchain.Replay.Adds.{add_block-IsKept}

module _ (p : Platform) where
  add_blocks-IsKept :
      (blocks : List Block) (t : Tree) → IsSound t → IsKept p t → IsKept p (add_blocks p blocks t)
  unfolding add_blocks
  add_blocks-IsKept [] t sound s = s
  add_blocks-IsKept (b ∷ blocks) t sound s =
      add_blocks-IsKept blocks (add_block p b t).0 (add_block-IsSound p b t sound)
        (add_block-IsKept p b t sound s)

  root_tree-IsKept :
      (h : Header) (w : List ℤ) (contributor : Option ℕ) (params : Option GenesisParams)
      (model : Option ModelState)
      → model_in params ((block_hash p h, model) ∷ []) (block_hash p h) ≡ start_mode params
      → IsKept p (root_tree p h w none contributor params model)
  unfolding root_tree
  root_tree-IsKept h w contributor params model begun = record {
    whole = refl;
    first = lookup-put_self (block_hash p h) w [];
    started = begun;
    stepped = λ k b e later. cc (rw (==-other k (block_hash p h) later) at e);
  }

  new_tree-IsKept :
      (w : List ℤ) (contributor : Option ℕ) (params : Option GenesisParams) {t : Tree}
      → new_tree p w none contributor params ≡ valid t
      → IsKept p t
  unfolding new_tree
  new_tree-IsKept w contributor none e =
      subst (IsKept p) (valid-injective e) (root_tree-IsKept _ w contributor none none refl)
  new_tree-IsKept w contributor (some g) e =
      let a = require-valid (dim (genesis g.spec) == length w) bad_genesis _ e in
      elim (Option-cases (page_state_root p w (genesis g.spec))) [
        | inl no_pages ↦ cc (rw no_pages at a.1)
        | inr (r, found) ↦ subst (IsKept p) (valid-injective (rw found at a.1)) (
            root_tree-IsKept _ w contributor (some g) (some (genesis g.spec))
              (rw (==-refl _ _ refl) refl))
      ]

  -- The walk below a block ends, and its replay gives that block's weights and model state.
  abbrev Replays : Tree → ℕ → ℕ → Type 0
  Replays t n k =
      (down : List Block) × (chain_down n k t ≡ some down)
      × ((w : List ℤ) × (lookup k t.state ≡ some w)
          × (replay_chain p (start_mode t.params) t.genesis_w (reversed down)
              ≡ some (model_in t.params t.model k, w)))

  genesis-Replays : (t : Tree) (n k : ℕ) → IsKept p t → k ≡ t.genesis_hash → Replays t n k
  unfolding chain_down replay_chain
  genesis-Replays t n k s here = (
    [],
    ends n,
    (
      t.genesis_w,
      ap (λ j. lookup j t.state) here ∙ s.first,
      ap (λ m. some (m, t.genesis_w)) (sym (ap (model_in t.params t.model) here ∙ s.started)),
    ),
  )
    where
      ends : (m : ℕ) → chain_down m k t ≡ some []
      ends zero = rw (==-refl k t.genesis_hash here) refl
      ends (suc m) = rw (==-refl k t.genesis_hash here, chain_down) refl

  child-Replays :
      (t : Tree) (n k : ℕ) (b : Block)
      → IsKept p t
      → lookup k t.blocks ≡ some b
      → k ≢ t.genesis_hash
      → Replays t n b.header.prev_hash
      → Replays t (suc n) k
  unfolding chain_down
  child-Replays t n k b s found later (below, walked, (w, held, replayed)) =
      let (v, v', at, at', moved) = s.stepped k b found later in
      let same : v ≡ w = some-injective v w (sym at ∙ held) in
      (
        b ∷ below,
        rw (==-other k t.genesis_hash later, found, walked, chain_down) refl,
        (
          v',
          at',
          replay_chain-append p (start_mode t.params) t.genesis_w (reversed below) b replayed
              ∙ ap (λ u. advance p (model_in t.params t.model b.header.prev_hash) u b) (sym same)
              ∙ moved,
        ),
      )

  chain_down-Replays :
      (t : Tree) (n k : ℕ) (h : Header)
      → IsSound t
      → IsKept p t
      → header_at k t.blocks ≡ some h
      → h.height ≤ n
      → Replays t n k
  chain_down-Replays t zero k h sound s e le = elim (sound.linked k h e) [
    | inl (here, none_below) ↦ genesis-Replays t zero k s here
    | inr (later, (q, known, up)) ↦ absurd (omega (arith, up, le))
  ]
  chain_down-Replays t (suc n) k h sound s e le = elim (sound.linked k h e) [
    | inl (here, none_below) ↦ genesis-Replays t (suc n) k s here
    | inr (later, (q, known, up)) ↦
        let (b, found, same) = known-block k t.blocks h e in
        child-Replays t n k b s found later (
          chain_down-Replays t n b.header.prev_hash q sound s
            (ap (λ (r : Header). header_at r.prev_hash t.blocks) same ∙ known)
            (omega (arith, up, le)))
  ]

  head-Replays :
      (t : Tree)
      → IsSound t
      → IsKept p t
      → (v : List ℤ) × (lookup t.head t.state ≡ some v) × (replay_head p t ≡ some v)
  unfolding replay_head chain_from_genesis
  head-Replays t sound s =
      let (h, at) = sound.rooted in
      let (b, found, same) = known-block t.head t.blocks h at in
      let high : h.height ≤ height_of (lookup t.head t.blocks) =
        omega (arith, ap height_of found, ap (λ (r : Header). r.height) same) in
      let (down, walked, (v, held, replayed)) =
        chain_down-Replays t (height_of (lookup t.head t.blocks)) t.head h sound s at high in
      (v, held, rw (walked, chain_from_genesis, replay_head) (ap the_weights replayed))

  -- In a tree that prunes nothing, whatever blocks it was offered, `replay_head` computes the head's
  -- weights again from the genesis weights and the bodies of the head's chain: the weights that the
  -- tree holds for its head.
  pub replay_head-state :
      (w : List ℤ) (contributor : Option ℕ) (params : Option GenesisParams) {t : Tree}
      → new_tree p w none contributor params ≡ valid t
      → (blocks : List Block)
      → let t' = add_blocks p blocks t in
        (v : List ℤ) × (lookup t'.head t'.state ≡ some v) × (replay_head p t' ≡ some v)
  replay_head-state w contributor params {t} created blocks =
      let sound = new_tree-IsSound p w none contributor params created in
      head-Replays (add_blocks p blocks t) (add_blocks-IsSound p blocks t sound)
        (add_blocks-IsKept blocks t sound (new_tree-IsKept w contributor params created))
