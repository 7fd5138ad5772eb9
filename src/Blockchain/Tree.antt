-- ===== src/Blockchain/Tree.antt =====
-- `BlockTree` of rig/blockchain.py: all known blocks, and the choice of the heaviest chain.
pub mod Sound
pub mod Fork
pub mod Adds
pub mod Walk
pub mod Reach
pub mod Errors
pub mod Orphans
pub mod Grows
use sestrian.Base.{
  ℕ, zero, suc, ◌+◌, ◌≤◌, max, Bool, true, false, not, ◌&&◌, ◌||◌, Option, none, some, List, [],
  ◌∷◌, ◌++◌, if◌then◌else◌, ltb, leb, ◌==◌, length,
}
use sestrian.Base.Int.{ℤ}
use sestrian.Base.Dict.{Dict, lookup, has, get_or, put, remove}
use sestrian.Platform.{Platform}
use sestrian.Token.Types.{TokenLedger}
use sestrian.ModelState.{ModelState, GenesisParams, genesis, dim}
use sestrian.ModelState.Commit.{model_root, page_state_root}
use sestrian.Blockchain.Types.{
  Header, Block, Verdict, raised, valid, ◌>>=◌, ◌>>◌, require, orphan, missing_key, bad_genesis,
}
use sestrian.Blockchain.Ledger.{apply_ledger}
use sestrian.Blockchain.Chain.{genesis_ledger}
use sestrian.Blockchain.Commit.{block_hash, state_root}
use sestrian.Blockchain.Checks.{Mode}
use sestrian.Blockchain.Validate.{Post, validate_block}

abbrev pub proposer_lookback : ℕ
proposer_lookback = 32

pub record Tree : Type 0 where
  pub params : Option GenesisParams
  pub genesis_w : List ℤ
  -- `self.genesis.hash`
  pub genesis_hash : ℕ
  pub blocks : Dict Block
  pub state : Dict (List ℤ)
  pub model : Dict (Option ModelState)
  pub ledger : Dict TokenLedger
  pub data_contributor : Option ℕ
  pub cum_work : Dict ℕ
  pub head : ℕ
  pub prune_depth : Option ℕ

-- The model state of a block with the parameters: both or neither are there.
abbrev pub mode_of : Option GenesisParams → Option ModelState → Mode
mode_of none model = none
mode_of (some g) none = none
mode_of (some g) (some model) = some (model, g)

unfoldable pub mode_at : Tree → ℕ → Mode
mode_at t tip = mode_of t.params (get_or tip none t.model)

-- `recent_proposers`, at most n blocks back
unfoldable pub proposers_back : ℕ → ℕ → Tree → List ℕ
proposers_back zero cur t = []
proposers_back (suc n) cur t = elim (lookup cur t.blocks) [
  | none ↦ []
  | some b ↦ elim (cur == t.genesis_hash) [
    | true ↦ []
    | false ↦ b.header.proposer ∷ proposers_back n b.header.prev_hash t
  ]
]

-- `BlockTree.recent_proposers`, a set as the list of its members
unfoldable pub recent_proposers : ℕ → Tree → List ℕ
unfolding proposers_back
recent_proposers tip t = proposers_back proposer_lookback tip t

-- A block that is more than the depth below the head, and not the genesis block.
unfoldable pub is_deep : ℕ → ℕ → ℕ → ℕ → Block → Bool
is_deep genesis_hash depth head_height bh b =
    not (bh == genesis_hash) && ltb (b.header.height + depth) head_height

-- `b.bodies = {}` for the deep blocks
unfoldable pub drop_bodies : ℕ → ℕ → ℕ → Dict Block → Dict Block
unfolding is_deep
drop_bodies genesis_hash depth head_height [] = []
drop_bodies genesis_hash depth head_height ((bh, b) ∷ blocks) =
    (bh, if is_deep genesis_hash depth head_height bh b then record b { bodies = [] } else b)
    ∷ drop_bodies genesis_hash depth head_height blocks

-- `self.state.pop(bh, None)` for the deep blocks
unfoldable pub drop_states : ℕ → ℕ → ℕ → Dict Block → Dict (List ℤ) → Dict (List ℤ)
unfolding is_deep
drop_states genesis_hash depth head_height [] state = state
drop_states genesis_hash depth head_height ((bh, b) ∷ blocks) state =
    drop_states genesis_hash depth head_height blocks
      (if is_deep genesis_hash depth head_height bh b then remove bh state else state)

abbrev pub height_of : Option Block → ℕ
height_of none = 0
height_of (some b) = b.header.height

unfoldable pub prune_to : Option ℕ → Tree → Tree
unfolding drop_bodies drop_states
prune_to none t = t
prune_to (some depth) t =
    let top = height_of (lookup t.head t.blocks) in
    record t {
      state = drop_states t.genesis_hash depth top t.blocks t.state;
      blocks = drop_bodies t.genesis_hash depth top t.blocks;
    }

-- `BlockTree._prune_deep`
unfoldable pub prune_deep : Tree → Tree
unfolding prune_to
prune_deep t = prune_to t.prune_depth t

-- The chain that ends in `hash` is heavier than the head's, or as heavy with the smaller hash.
unfoldable pub beats : Platform → ℕ → ℕ → Tree → Bool
beats p hash work t =
    let best = get_or t.head 0 t.cum_work in
    ltb best work || (work == best && not (p.text_le t.head hash))

-- The chain of blocks below a tip, the tip first; none for an unknown block, or with too little fuel.
unfoldable pub chain_down : ℕ → ℕ → Tree → Option (List Block)
chain_down zero tip t = if tip == t.genesis_hash then some [] else none
chain_down (suc n) tip t = elim (tip == t.genesis_hash) [
  | true ↦ some []
  | false ↦ elim (lookup tip t.blocks) [
    | none ↦ none
    | some b ↦ elim (chain_down n b.header.prev_hash t) [
      | none ↦ none
      | some below ↦ some (b ∷ below)
    ]
  ]
]

abbrev pub reversed {ℓ} : {A : Type ℓ} → List A → List A
reversed [] = []
reversed (x ∷ xs) = reversed xs ++ x ∷ []

-- `BlockTree.chain_from_genesis`: the height of the tip is the fuel.
unfoldable pub chain_from_genesis : ℕ → Tree → Option (List Block)
unfolding chain_down
chain_from_genesis tip t = elim (chain_down (height_of (lookup tip t.blocks)) tip t) [
  | none ↦ none
  | some down ↦ some (reversed down)
]

module _ (p : Platform) where
  unfoldable pub genesis_header : ℕ → ℕ → Header
  genesis_header root model = record {
    height = 0;
    prev_hash = p.zeros;
    state_root = root;
    txset_root = p.sha256 [];
    n_txs = 0;
    work = 0;
    proposer = p.genesis;
    transfer_root = p.blank;
    ledger_root = p.blank;
    data_root = p.blank;
    vrf_proof = p.blank;
    score_root = p.blank;
    sketch_root = p.blank;
    model_root = model;
    vrf_attempt = 0;
    version = 1;
  }

  -- The tree of the genesis block alone.
  unfoldable pub root_tree :
      Header → List ℤ → Option ℕ → Option ℕ → Option GenesisParams → Option ModelState → Tree
  root_tree h w depth contributor params model =
      let hash = block_hash p h in
      record {
        params = params;
        genesis_w = w;
        genesis_hash = hash;
        blocks =
            (
              hash,
              record {
                header = h;
                txs = [];
                bodies = [];
                transfers = [];
                data_txs = [];
                scores = [];
                sketches = [];
              },
            )
            ∷ [];
        state = (hash, w) ∷ [];
        model = (hash, model) ∷ [];
        ledger = (hash, genesis_ledger p contributor) ∷ [];
        data_contributor = contributor;
        cum_work = (hash, 0) ∷ [];
        head = hash;
        prune_depth = depth;
      }

  -- `BlockTree.__init__`
  unfoldable pub new_tree : List ℤ → Option ℕ → Option ℕ → Option GenesisParams → Verdict Tree
  unfolding root_tree genesis_header
  new_tree w depth contributor none =
      valid (root_tree (genesis_header (state_root p w) p.blank) w depth contributor none none)
  new_tree w depth contributor (some g) = do
    let model = genesis g.spec
    require (dim model == length w) bad_genesis
    elim (page_state_root p w model) [
      | none ↦ raised bad_genesis
      | some r ↦ valid (
          root_tree (genesis_header r (model_root p model)) w depth contributor (some g)
            (some model))
    ]

  -- The end of `add_block`: the work of the chain, the choice of the head, and the pruning.
  unfoldable pub choose_head : ℕ → Block → ℕ → Tree → Tree × Bool
  unfolding beats
  choose_head hash block parent_work t =
      let work = parent_work + max 1 block.header.work in
      let t' = record t { cum_work = put hash work t.cum_work } in
      if beats p hash work t'
      then (prune_deep (record t' { head = hash }), true)
      else (prune_deep t', false)

  -- The block has its ledger.
  unfoldable pub attach_ledger : ℕ → Block → TokenLedger → Tree → Tree × Verdict Bool
  attach_ledger hash block led t =
      let t' = record t { ledger = put hash led t.ledger } in
      elim (lookup block.header.prev_hash t.cum_work) [
        | none ↦ (t', raised missing_key)
        | some work ↦ let (t'', chosen) = choose_head hash block work t' in (t'', valid chosen)
      ]

  -- A block with no ledger of its own takes its parent's through `apply_ledger`. A refusal here
  -- leaves the block, its state and its model in the tree.
  unfoldable pub attach_legacy : ℕ → Block → List ℕ → Tree → Tree × Verdict Bool
  unfolding attach_ledger
  attach_legacy hash block jurors t = elim (lookup block.header.prev_hash t.ledger) [
    | none ↦ (t, raised missing_key)
    | some parent ↦ elim (apply_ledger p parent block t.data_contributor jurors) [
      | raised e ↦ (t, raised e)
      | valid led ↦ attach_ledger hash block led t
    ]
  ]

  unfoldable pub attach : ℕ → Block → List ℕ → Post → Tree → Tree × Verdict Bool
  unfolding attach_ledger attach_legacy
  attach hash block jurors post t =
      let t' = record t {
        blocks = put hash block t.blocks;
        state = put hash post.w t.state;
        model = put hash post.model t.model;
      } in
      elim post.ledger [
        | none ↦ attach_legacy hash block jurors t'
        | some led ↦ attach_ledger hash block led t'
      ]

  -- The parent's ledger, where the header commits one.
  unfoldable pub parent_ledger : Header → Tree → Option TokenLedger
  parent_ledger h t = if h.ledger_root == p.blank then none else lookup h.prev_hash t.ledger

  -- The validation of a block whose parent is in the tree.
  unfoldable pub add_child : ℕ → Block → Block → List ℤ → Tree → Tree × Verdict Bool
  unfolding attach parent_ledger
  add_child hash block parent w t =
      let jurors = recent_proposers block.header.prev_hash t in
      elim (validate_block p block w parent.header.height (parent_ledger block.header t)
        t.data_contributor jurors (mode_at t block.header.prev_hash)) [
          | raised e ↦ (t, raised e)
          | valid post ↦ attach hash block jurors post t
        ]

  -- `BlockTree.add_block`. What it raises is kept beside the tree that it leaves.
  unfoldable pub add_block : Block → Tree → Tree × Verdict Bool
  unfolding add_child
  add_block block t =
      let hash = block_hash p block.header in
      if has hash t.blocks
      then (t, valid false)
      else elim (lookup block.header.prev_hash t.blocks) [
        | none ↦ (t, raised orphan)
        | some parent ↦ elim (lookup block.header.prev_hash t.state) [
          | none ↦ (t, raised missing_key)
          | some w ↦ add_child hash block parent w t
        ]
      ]
