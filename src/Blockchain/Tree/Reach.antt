-- ===== src/Blockchain/Tree/Reach.antt =====
-- The trees that offering blocks leads to: the head, the cap and the chains below.
use native.Mathlib.Nat.{le_trans}
use mathlib.Core.Path.{subst}
use mathlib.Core.Option.{some-injective}
use sestrian.Base.{
  ℕ, ◌+◌, ◌*◌, ◌≤◌, ◌≡◌, refl, sym, ap, ◌∙◌, inl, inr, Option, none, some, List, [], ◌∷◌, ◌==◌,
  ==→eq, Bool-cases, Option-cases, arith, length,
}
use sestrian.Base.Int.{ℤ}
use sestrian.Base.Dict.{Dict, lookup, get_or, lookup-put_self}
use sestrian.Platform.{Platform}
use sestrian.Token.Types.{TokenLedger}
use sestrian.Token.Account.{holdings}
use sestrian.Token.Emission.{grain, tail_reward}
use sestrian.Token.Emission.Schedule.{total_emission-le}
use sestrian.ModelState.{ModelState, GenesisParams, genesis, dim}
use sestrian.ModelState.Commit.{page_state_root}
use sestrian.Blockchain.Types.{Header, Block, valid, valid-injective, require-valid, bad_genesis}
use sestrian.Blockchain.Commit.{block_hash}
use sestrian.Blockchain.Chain.{genesis_ledger, holdings-genesis}
use sestrian.Blockchain.Tree.{
  Tree, add_block, new_tree, genesis_header, root_tree, chain_from_genesis,
}
use sestrian.Blockchain.Tree.Sound.{IsSound, header_at, header_of}
use sestrian.Blockchain.Tree.Walk.{Climbs, chain_work, known-chain, weighed-known}
use sestrian.Blockchain.Tree.Adds.{add_block-IsSound}

-- The tree after blocks were offered one by one, each accepted or refused.
unfoldable pub add_blocks : Platform → List Block → Tree → Tree
add_blocks p [] t = t
add_blocks p (b ∷ blocks) t = add_blocks p blocks (add_block p b t).0

pub add_blocks-IsSound :
    (p : Platform) (blocks : List Block) (t : Tree) → IsSound t → IsSound (add_blocks p blocks t)
unfolding add_blocks
add_blocks-IsSound p [] t s = s
add_blocks-IsSound p (b ∷ blocks) t s =
    add_blocks-IsSound p blocks (add_block p b t).0 (add_block-IsSound p b t s)

-- In a dict of one entry a lookup finds that entry.
single-lookup {ℓ} :
    {V : Type ℓ} (k j : ℕ) (v : V) {x : V} → lookup k ((j, v) ∷ []) ≡ some x → (k ≡ j) × (v ≡ x)
single-lookup k j v {x} e = elim (Bool-cases (k == j)) [
  | inl same ↦ (==→eq k j same, some-injective v x (rw same at e))
  | inr other ↦ cc (rw other at e)
]

single-header :
    (k j : ℕ) (b : Block) (g : Header)
    → header_at k ((j, b) ∷ []) ≡ some g
    → (k ≡ j) × (b.header ≡ g)
single-header k j b g e = elim (Bool-cases (k == j)) [
  | inl same ↦ (==→eq k j same, some-injective b.header g (rw same at e))
  | inr other ↦ cc (rw other at e)
]

single-known : (j : ℕ) (b : Block) → header_at j ((j, b) ∷ []) ≡ some b.header
single-known j b = ap header_of (lookup-put_self j b [])

-- The tree of a genesis block of height 0 is sound.
root_tree-IsSound :
    (p : Platform) (h : Header) (w : List ℤ) (depth contributor : Option ℕ)
    (params : Option GenesisParams) (model : Option ModelState)
    → h.height ≡ 0
    → IsSound (root_tree p h w depth contributor params model)
unfolding root_tree
root_tree-IsSound p h w depth contributor params model first =
    let hash = block_hash p h in
    let b : Block = record {
      header = h;
      txs = [];
      bodies = [];
      transfers = [];
      data_txs = [];
      scores = [];
      sketches = [];
    } in
    record {
      founded = (h, single-known hash b);
      rooted = (h, single-known hash b);
      linked = λ k g e.
          let (same, new) = single-header k hash b g e in
          inl (same, sym (ap (λ (q : Header). q.height) new) ∙ first);
      capped = λ k led e.
          let (same, new) = single-lookup k hash (genesis_ledger p contributor) e in
          (
            h,
            subst (λ j. header_at j ((hash, b) ∷ []) ≡ some h) (sym same) (single-known hash b),
            omega (arith, ap holdings new, holdings-genesis p contributor),
          );
      weighed = λ k work e. let (same, new) = single-lookup k hash 0 e in inl (same, sym new);
      top_weighed = (0, lookup-put_self hash 0 []);
      heaviest = λ k work e. let (same, new) = single-lookup k hash 0 e in omega (arith, new);
    }

pub new_tree-IsSound :
    (p : Platform) (w : List ℤ) (depth contributor : Option ℕ) (params : Option GenesisParams)
    {t : Tree}
    → new_tree p w depth contributor params ≡ valid t
    → IsSound t
unfolding new_tree
new_tree-IsSound p w depth contributor none e =
    subst IsSound (valid-injective e)
      (root_tree-IsSound p _ w depth contributor none none (unfold genesis_header in refl))
new_tree-IsSound p w depth contributor (some g) e =
    let a = require-valid (dim (genesis g.spec) == length w) bad_genesis _ e in
    elim (Option-cases (page_state_root p w (genesis g.spec))) [
      | inl no_pages ↦ cc (rw no_pages at a.1)
      | inr (r, found) ↦ subst IsSound (valid-injective (rw found at a.1)) (
          root_tree-IsSound p _ w depth contributor (some g) (some (genesis g.spec))
            (unfold genesis_header in refl))
    ]

get_or-lookup : (k w : ℕ) (d : Dict ℕ) → lookup k d ≡ some w → get_or k 0 d ≡ w
get_or-lookup k w [] h = cc h
get_or-lookup k w ((j, v) ∷ d) h = ground (arith, get_or-lookup k w d)

module _ (p : Platform) (w : List ℤ) (depth contributor : Option ℕ) (params : Option GenesisParams)
    {t : Tree} (created : new_tree p w depth contributor params ≡ valid t)
    (blocks : List Block) where
  -- Fork choice: whatever blocks a new tree was offered, the work kept for a hash is that of the chain
  -- below it, the sum over its blocks of their own work, and at least 1 each; and no such chain has
  -- more work than the one below the head.
  pub add_blocks-heaviest :
      (k work : ℕ)
      → let t' = add_blocks p blocks t in
        lookup k t'.cum_work ≡ some work
        → (chain : List Block) × (top : List Block) × (chain_from_genesis k t' ≡ some chain)
          × (work ≡ chain_work chain)
          × (chain_from_genesis t'.head t' ≡ some top)
          × (chain_work chain ≤ chain_work top)
  add_blocks-heaviest k work e =
      let t' = add_blocks p blocks t in
      let s =
        add_blocks-IsSound p blocks t (new_tree-IsSound p w depth contributor params created) in
      let (h, known) = weighed-known t' s k work e in
      let (chain, walked, long, climbs, weighs) = known-chain t' s k h known in
      let (top, up, top_long, top_climbs, top_weighs) =
        known-chain t' s t'.head s.rooted.0 s.rooted.1 in
      let (best, at) = s.top_weighed in
      (
        chain,
        top,
        walked,
        weighs work e,
        up,
        omega (
          arith,
          weighs work e,
          top_weighs best at,
          s.heaviest k work e,
          get_or-lookup t'.head best t'.cum_work at,
        ),
      )

  -- The cap in the tree: whatever blocks a new tree was offered, each ledger in it belongs to a known
  -- block, and holds at most 100 million tokens and a tail reward for each height up to the block's.
  pub add_blocks_cap :
      (k : ℕ) {led : TokenLedger}
      → let t' = add_blocks p blocks t in
        lookup k t'.ledger ≡ some led
        → (h : Header) × (header_at k t'.blocks ≡ some h)
          × (holdings led ≤ 100_000_000 * grain + h.height * tail_reward)
  add_blocks_cap k {led} e =
      let s =
        add_blocks-IsSound p blocks t (new_tree-IsSound p w depth contributor params created) in
      let (h, known, le) = s.capped k led e in (h, known, le_trans le (total_emission-le h.height))

  -- Below each known block `chain_from_genesis` ends, with its height as fuel, and gives the chain that
  -- leads up from the genesis block to it: blocks of the tree, each the child of the one before, of the
  -- heights from 1 to the block's own in their order.
  pub chain_from_genesis-total :
      (k : ℕ) (h : Header)
      → let t' = add_blocks p blocks t in
        header_at k t'.blocks ≡ some h
        → (chain : List Block) × (chain_from_genesis k t' ≡ some chain)
          × (length chain ≡ h.height)
          × Climbs t' 0 t'.genesis_hash chain k
  chain_from_genesis-total k h e =
      let s =
        add_blocks-IsSound p blocks t (new_tree-IsSound p w depth contributor params created) in
      let (chain, walked, long, climbs, weighs) = known-chain (add_blocks p blocks t) s k h e in
      (chain, walked, long, climbs)
