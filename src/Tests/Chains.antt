-- ===== src/Tests/Chains.antt =====
-- rig/blockchain.py: a block that is built, validated and added to the tree of a small chain.
use sestrian.Base.{ℕ, ◌≤◌, ◌*◌, ◌+◌, ◌≡◌, refl, true, none, some, List, [], ◌∷◌, length}
use sestrian.Base.Int.{ℤ, pos, negsuc, floor_div, ◌+ℤ◌, ◌-ℤ◌, ◌*ℤ◌, sum_ℤ}
use sestrian.Base.Dict.{lookup, get_or, AllValues}
use sestrian.Platform.{toy, flat, flat_items, flat_fields}
use sestrian.Crypto.{
  BackpropTx, canonical_pages, canonical_refs, frame, signing_bytes, txid, verify,
}
use sestrian.Merkle.{leaf_hash, build, build_from, node_hash, pair_up, root, top}
use sestrian.Token.Types.{TokenLedger}
use sestrian.ModelState.{
  ModelSpec, GenesisParams, ModelState, genesis, all_layers, claimed_params, dim, expert_page_len,
  genesis_page_count, genesis_pages, last_stop, layer_pages, required_nnz,
}
use sestrian.ModelState.Commit.{
  model_root, page_state_root, canonical_json, event_json, page_init, page_json,
}
use sestrian.Token.Bonds.{lock_bond, resolve_expired_bonds, settle_bonds}
use sestrian.Token.Challenges.{put_entry, resolve_expired_challenges, settle_challenges}
use sestrian.Token.Reward.{
  apply_reward, backed_credits, equal_shares, hash_to_owner, miner_claims, miner_total,
  owner_claims, pay_miners, pay_owners, reward_data, reward_miners, reward_proposer,
  seed_genesis_data,
}
use sestrian.Lottery.{attempt_work, bit_length, eligible, vrf_work}
use sestrian.Aggregation.{trim_count, wrap64}
use sestrian.Aggregation.Paged.{paged_transition, update_pages}
use sestrian.Token.Txs.{address}
use sestrian.Token.Shares.{split}
use sestrian.Blockchain.Types.{Header, Block, Verdict, valid, raised, bad_version}
use sestrian.Blockchain.Chain.{genesis_ledger}
use sestrian.Blockchain.Checks.{
  Mode, check_header, check_body, check_claim, check_commitments, check_lottery, check_proof,
  check_proposer, check_tx, check_txs, count_nonzero, in_claim, zero_outside,
}
use sestrian.Blockchain.Version.{expected_version, scheduled}
use sestrian.Blockchain.Tree.{
  Tree, new_tree, root_tree, genesis_header, chain_from_genesis, parent_ledger, mode_at, add_child,
  add_block, attach, attach_ledger, attach_legacy, beats, chain_down, choose_head, proposers_back,
  prune_deep, prune_to, recent_proposers,
}
use sestrian.Blockchain.Tree.Sound.{header_at}
use sestrian.Blockchain.Tree.Errors.{add_block_refuses}
use sestrian.Blockchain.Replay.{replay_head}
use sestrian.Blockchain.Replay.Head.{replay_head-state}
use sestrian.Blockchain.Tree.Reach.{
  add_blocks, add_blocks-heaviest, add_blocks_cap, chain_from_genesis-total,
}
use sestrian.Blockchain.Tree.Walk.{Climbs, chain_work}
use sestrian.Blockchain.Accepted.{validate_block-commits}
use sestrian.Base.Int.{IsNonneg}
use sestrian.ModelState.Fold.{
  fold, accumulate, activate_all, activations, adopt, close_window, fold_activations, open_window,
  record_scorer,
}
use sestrian.Token.Account.{holdings, balance, credit, credit_all, credited, supply}
use sestrian.Token.Emission.{grain, tail_reward, emission}
use sestrian.Token.Commit.{ledger_root, data_root, ledger_json, transfer_root}
use sestrian.Blockchain.Ledger.{
  apply_ledger, accrue, accrue_all, accrue_entries, active_hashes, active_set, apply_account_txs,
  canonical_account_txs, committed_scores, credit_named, effective_scores, hash_to_entry,
  lock_bonds, named_entries, provenance, reward_block, sat64, settle, weigh,
}
use sestrian.Blockchain.Build.{
  Draft, build_on, block_scores, block_sketches, carried, committed_sketches,
}
use sestrian.Blockchain.Build.Symmetry.{IsReady, build_on_validates}
use sestrian.Blockchain.Validate.{
  Post, validate_block, block_facts, next_weights, commits, body_list, count_zero, ledger_block,
  spans, transition_block,
}
use sestrian.Blockchain.Commit.{
  block_hash, header_json, txset_root, scores_root, sketch_json, sketch_root, state_root,
}

abbrev spec : ModelSpec
spec = record {
  n_layers = 0;
  d_model = 2;
  d_ff = 3;
  n_experts_initial = 1;
  e_max = 4;
  backbone_params = 2;
}

abbrev params : GenesisParams
params = record {
  spec = spec;
  retarget_window = 4;
  target_deltas = 1;
  quota_min = 2_500;
  quota_max = 10_000;
  stale_ceiling = 2_000;
  k_sustain = 1;
  growth_bound = 1;
  announce_lead = 1;
  delta_max_nnz = 1_000_000;
  v3_height = 0;
  v4_height = 0;
  growth_quorum = 2;
  v5_height = 0;
  lane_width = 8;
  lane_epoch_len = 16;
}

abbrev weights : List ℤ
weights = pos 4 ∷ pos 4 ∷ []

abbrev founding : Header
founding = genesis_header toy (leaf_hash toy (toy.tobytes weights)) (model_root toy (genesis spec))

abbrev tree : Tree
tree = root_tree toy founding weights none (some 9) (some params) (some (genesis spec))

created : new_tree toy weights none (some 9) (some params) ≡ valid tree
unfolding new_tree genesis sestrian.ModelState.genesis_pages sestrian.ModelState.all_layers
    sestrian.ModelState.dim sestrian.ModelState.last_stop page_state_root sestrian.Merkle.root
    sestrian.Merkle.build sestrian.Merkle.build_from sestrian.Merkle.top
created = refl

-- A delta that names the founding corpus and moves the backbone.
abbrev delta : BackpropTx
delta = record {
  miner = 60;
  base_height = 0;
  delta_hash = toy.sha256 (toy.tobytes (pos 5 ∷ negsuc 2 ∷ []));
  da_pointer = 6;
  bond = pos 0;
  pages = 0 ∷ [];
  data_refs = 1 ∷ [];
  sig = 60;
}

abbrev draft : Draft
draft = record {
  accepted = delta ∷ [];
  bodies = (6, pos 5 ∷ negsuc 2 ∷ []) ∷ [];
  transfers = [];
  data_txs = [];
  scores = [];
  sketches = [];
  proposer = 50;
  attempt = 0;
}

abbrev root_hash : ℕ
root_hash = block_hash toy founding

abbrev parent : TokenLedger
parent = genesis_ledger toy (some 9)

abbrev mode : Mode
mode = some (genesis spec, params)

abbrev value {ℓ} : {A : Type ℓ} → A → Verdict A → A
value x (raised e) = x
value x (valid y) = y

abbrev empty_block : Block
empty_block = record {
  header = founding;
  txs = [];
  bodies = [];
  transfers = [];
  data_txs = [];
  scores = [];
  sketches = [];
}

abbrev block : Block
block = value empty_block (build_on toy mode weights 1 root_hash parent (some 9) [] draft)

built : build_on toy mode weights 1 root_hash parent (some 9) [] draft ≡ valid block
unfolding verify root genesis accumulate fold page_state_root resolve_expired_bonds lock_bond
    put_entry resolve_expired_challenges seed_genesis_data active_hashes provenance lock_bonds
    canonical_account_txs apply_account_txs settle apply_ledger genesis_ledger transition_block
    build_on
built = refl

ready : IsReady toy (genesis spec) params weights 0 root_hash parent (some 9) [] draft
unfolding verify eligible genesis sestrian.ModelState.is_active required_nnz supply put_entry
    seed_genesis_data genesis_ledger count_nonzero zero_outside check_claim check_body check_tx
    check_txs block_scores block_sketches
ready = record {
  seat = refl;
  as_hex = refl;
  in_time = refl;
  deltas = refl;
  scores = refl;
  sketches = refl;
}

abbrev post : Post
post =
    (build_on_validates toy (genesis spec) params weights 0 root_hash parent (some 9) [] draft block
      built ready).0

accepted : validate_block toy block weights 0 (some parent) (some 9) [] mode ≡ valid post
accepted =
    (build_on_validates toy (genesis spec) params weights 0 root_hash parent (some 9) [] draft block
      built ready).1

build_on_validates_example :
    (post : Post) × (validate_block toy block weights 0 (some parent) (some 9) [] mode ≡ valid post)
build_on_validates_example =
    build_on_validates toy (genesis spec) params weights 0 root_hash parent (some 9) [] draft block
      built ready

validate_block-commits_example :
    let b = block_facts toy block in
    let h = block.header in
    (h.height ≡ 1)
    × (h.n_txs ≡ length block.txs)
    × (txset_root toy block.txs ≡ h.txset_root)
    × AllValues IsNonneg block.scores
    × (post.w ≡ next_weights toy params b (genesis spec) block.txs block.bodies weights)
    × (commits (page_state_root toy post.w (fold toy params b (genesis spec))) h.state_root ≡ true)
    × (post.model ≡ some (fold toy params b (genesis spec)))
    × (model_root toy (fold toy params b (genesis spec)) ≡ h.model_root)
    × ((led : TokenLedger) × (post.ledger ≡ some led)
        × (apply_ledger toy parent block (some 9) [] ≡ valid led)
        × (ledger_root toy led ≡ h.ledger_root))
validate_block-commits_example =
    validate_block-commits toy block weights 0 parent (some 9) [] (genesis spec) params accepted

-- The tree with the block, and with a block whose parent is unknown.
abbrev orphan : Block
orphan = record block { header = record block.header { prev_hash = 5 } }

abbrev hash : ℕ
hash = block_hash toy block.header

abbrev grown : Tree
grown = add_blocks toy (block ∷ orphan ∷ []) tree

abbrev ledger : TokenLedger
ledger = get_or hash parent grown.ledger

added :
    (header_at hash grown.blocks ≡ some block.header)
    × (lookup hash grown.cum_work ≡ some 244)
    × (lookup hash grown.ledger ≡ some ledger)
unfolding ◌+ℤ◌ ◌-ℤ◌ ◌*ℤ◌ floor_div sum_ℤ frame canonical_refs canonical_pages signing_bytes txid
    verify bit_length vrf_work attempt_work eligible top leaf_hash node_hash pair_up build_from
    build root wrap64 trim_count update_pages paged_transition expert_page_len layer_pages
    all_layers genesis_pages genesis last_stop dim sestrian.ModelState.is_active genesis_page_count
    claimed_params required_nnz record_scorer accumulate activate_all activations open_window
    close_window fold fold_activations adopt page_json event_json canonical_json model_root
    page_state_root page_init address balance credited credit supply credit_all settle_bonds
    resolve_expired_bonds lock_bond put_entry settle_challenges resolve_expired_challenges
    hash_to_owner backed_credits equal_shares owner_claims seed_genesis_data miner_claims
    miner_total pay_miners reward_miners reward_proposer pay_owners reward_data apply_reward
    emission split sestrian.Token.DataLane.is_active ledger_json ledger_root data_root transfer_root
    sat64 active_hashes active_set hash_to_entry committed_scores effective_scores credit_named
    weigh accrue accrue_entries named_entries accrue_all provenance lock_bonds canonical_account_txs
    apply_account_txs settle reward_block apply_ledger genesis_ledger scheduled expected_version
    header_json sketch_json block_hash txset_root scores_root sketch_root state_root count_nonzero
    in_claim zero_outside check_header check_proof check_lottery check_proposer check_claim
    check_body check_tx check_txs check_commitments spans body_list count_zero transition_block
    ledger_block validate_block genesis_header mode_at proposers_back recent_proposers prune_to
    prune_deep beats chain_down chain_from_genesis root_tree choose_head attach_ledger attach_legacy
    attach parent_ledger add_child add_block carried committed_sketches block_scores block_sketches
    build_on flat flat_items flat_fields add_blocks
added = (refl, refl, refl)

add_blocks-heaviest_example :
    (chain : List Block) × (top : List Block) × (chain_from_genesis hash grown ≡ some chain)
    × (244 ≡ chain_work chain)
    × (chain_from_genesis grown.head grown ≡ some top)
    × (chain_work chain ≤ chain_work top)
add_blocks-heaviest_example =
    add_blocks-heaviest toy weights none (some 9) (some params) created (block ∷ orphan ∷ []) hash
      244 added.1

add_blocks_cap_example :
    (h : Header) × (header_at hash grown.blocks ≡ some h)
    × (holdings ledger ≤ 100_000_000 * grain + h.height * tail_reward)
add_blocks_cap_example =
    add_blocks_cap toy weights none (some 9) (some params) created (block ∷ orphan ∷ []) hash
      added.2

chain_from_genesis-total_example :
    (chain : List Block) × (chain_from_genesis hash grown ≡ some chain)
    × (length chain ≡ block.header.height)
    × Climbs grown 0 grown.genesis_hash chain hash
chain_from_genesis-total_example =
    chain_from_genesis-total toy weights none (some 9) (some params) created (block ∷ orphan ∷ [])
      hash block.header added.0

replay_head-state_example :
    (v : List ℤ) × (lookup grown.head grown.state ≡ some v) × (replay_head toy grown ≡ some v)
replay_head-state_example =
    replay_head-state toy weights (some 9) (some params) created (block ∷ orphan ∷ [])

-- A child of the genesis block with the first version, which is not scheduled.
abbrev old : Block
old = record empty_block {
  header = record founding { height = 1; prev_hash = root_hash; ledger_root = 5 };
}

committed : parent_ledger toy old.header tree ≡ some parent
unfolding parent_ledger genesis_header root_tree block_hash flat model_root genesis leaf_hash
committed = refl

refused : (add_block toy old tree).1 ≡ raised bad_version
unfolding add_block add_child validate_block check_header mode_at expected_version scheduled
    block_hash header_json root_tree genesis_header parent_ledger flat flat_items flat_fields
    model_root genesis leaf_hash
refused = refl

add_block_refuses_example : (add_block toy old tree).0 ≡ tree
add_block_refuses_example =
    add_block_refuses toy tree bad_version (λ e. cc e) old parent committed refused
