-- ===== src/Tests/Nodes.antt =====
-- Nodes of rig/p2p.py: a buffered orphan, and a network of two nodes in two groups.
use sestrian.Base.{ℕ, ◌≡◌, refl, true, false, ◌==◌, none, some, Option, List, [], ◌∷◌, arith}
use sestrian.Base.Int.{ℤ, pos}
use sestrian.Platform.{toy}
use sestrian.Crypto.{BackpropTx}
use sestrian.Crypto
use sestrian.Blockchain.Types.{Header, Block, Verdict, valid, raised}
use sestrian.Blockchain.Commit.{block_hash}
use sestrian.Blockchain.Tree.{new_tree, root_tree, genesis_header}
use sestrian.Gossip.{Turn, recv_tx}
use sestrian.Gossip.Produce.{Trainer}
use sestrian.Gossip.Network.{
  Network, step, deliver, receive_all, receive, act, produce_blocks, act_all, queue_outgoing,
}
use sestrian.Gossip.Runs.{
  full, Event, tick, inject, divide, new_network, new_stations, append_at, happen, play,
  play-StationsAreWell,
}
use sestrian.Gossip.Steps.{StationsAreWell}

abbrev w : List ℤ
w = pos 10 ∷ pos 20 ∷ []

abbrev no_network : Network
no_network = record { stations = []; partition = none; round = 0 }

abbrev network_of : Verdict Network → Network
network_of (valid net) = net
network_of (raised e) = no_network

abbrev network_after : Option Network → Network
network_after (some net) = net
network_after none = no_network

abbrev start : Network
start = network_of (new_network toy (5 ∷ 6 ∷ []) full w 9)

start_run : new_network toy (5 ∷ 6 ∷ []) full w 9 ≡ valid start
unfolding new_network new_tree
start_run = refl

abbrev body : List ℤ
body = pos 0 ∷ pos 4 ∷ []

-- Signed by node 1's key, as the concrete signature check has it.
abbrev tx : BackpropTx
tx = record {
  miner = 6;
  base_height = 0;
  delta_hash = toy.sha256 (toy.tobytes body);
  da_pointer = 6;
  bond = pos 0;
  pages = [];
  data_refs = [];
  sig = 6;
}

abbrev trainer : Trainer
trainer = record { train = λ i h v. v; rank = λ h v cands. cands; pointer = λ key h i. key }

abbrev events : List Event
events =
    divide (some ((0 ∷ []) ∷ (1 ∷ []) ∷ [])) ∷ inject 0 tx body ∷ tick (some []) false false ∷ []

abbrev later : Network
later = network_after (play toy trainer events start)

later_run : play toy trainer events start ≡ some later
unfolding play happen append_at step deliver receive_all receive recv_tx Crypto.verify act
    produce_blocks act_all queue_outgoing new_network new_tree new_stations
later_run = refl

play-StationsAreWell_example : StationsAreWell toy later.stations
play-StationsAreWell_example =
    play-StationsAreWell toy trainer (λ key m. owner_signs key) (5 ∷ 6 ∷ []) full w 9 events
      start_run later_run
  where
    owner_signs : (key : ℕ) → (key == key) ≡ true
    owner_signs key = ground arith

abbrev header : ℕ → ℕ → Header
header height parent = record {
  height = height;
  prev_hash = parent;
  state_root = 0;
  txset_root = 0;
  n_txs = 0;
  work = 0;
  proposer = 5;
  transfer_root = 0;
  ledger_root = 0;
  data_root = 0;
  vrf_proof = 0;
  score_root = 0;
  sketch_root = 0;
  model_root = 0;
  vrf_attempt = 0;
  version = 1;
}

abbrev block : Header → Block
block h = record {
  header = h;
  txs = [];
  bodies = [];
  transfers = [];
  data_txs = [];
  scores = [];
  sketches = [];
}

abbrev first : Header
first = header 1 0

-- The child of the first block came before it.
abbrev turn : Turn
turn = record {
  node = record {
    node_id = 0;
    key = 5;
    tree = root_tree toy (genesis_header toy 0 0) w none none none none;
    mempool = [];
    seen_tx = [];
    seen_block = [];
    orphans = (block_hash toy first, block (header 2 (block_hash toy first)) ∷ []) ∷ [];
  };
  outbox = [];
}
