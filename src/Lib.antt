-- ===== src/Lib.antt =====
-- A model of the reference implementation of Sestrian, a chain whose blocks train a shared model and
-- whose native token pays for it, and the theorems on what the consensus rules keep.
--
-- A block carries deltas (signed commitments to weight updates), transfers, data-lane transactions,
-- scores and influence sketches. Its proposer wins a lottery weighted by stake; `apply_ledger`
-- settles what has expired, mints and splits the reward by the scores, locks the deltas' bonds and
-- runs the account transactions; `fold` steps the page table and the growth controller.
--
-- - Platform: a record of what the program takes from Python and its cryptographic libraries (hash,
--   signature check, texts), and a concrete instance of it for tests. Texts are numbers, since the
--   program only compares, orders, encodes and hashes them. What a theorem needs of
--   it (digests below 2 ** 256, hex texts of digests read back faithfully) it names as a hypothesis.
-- - Base and its children: tests, lists, integers, association lists for dicts (`put` keeps the
--   position of a key, as Python does), sorting and shifts.
-- - Crypto: rig/crypto.py. `frame`, `BackpropTx` with its canonical claims, `txid`, `verify`.
-- - Token and its children: rig/token.py. Types has the transactions and the state; Txs the preimages
--   and ids; Emission the schedule; Account `balance`, `_credit`, `supply`; Transfer
--   `apply_transfer`; Bonds `lock_bond`, `resolve_expired_bonds`, with Bonds/Effects on them; Challenges
--   `resolve_expired_challenges`; DataLane `apply_data_tx`, a function for each of its branches;
--   Shares the division of a pool by weights; Commit the roots; Reward `seed_genesis_data`,
--   `apply_reward`; Transfer/Batch `apply_transfers`. A method that changes the ledger is a function
--   from ledger to ledger, with a Boolean beside it where the method returns one. Conservation,
--   Nonces and Minting prove.
-- - Blockchain and its children: rig/blockchain.py. Types has headers, blocks and the type `Verdict` for
--   `ValidationError`; Ledger `effective_scores`, `apply_ledger`; Version
--   `expected_version`; Chain the ledgers along a chain as a relation; Commit the hashes; Checks and
--   Validate `validate_block`, a function for each group of its checks, in its order; Tree
--   `BlockTree` with `add_block`, whose result is the tree it leaves and what it raises; Build
--   `build_block`; Replay `replay_head`. Accepted says what a validated block satisfies, Tree/Sound,
--   Tree/Fork and Tree/Adds carry the invariant of the tree, Tree/Walk has the chain below a block and its work,
--   Tree/Reach and Tree/Errors state what follows,
--   Build/Symmetry sets producer against validator; Replay/Kept, Replay/Adds and Replay/Head set the
--   replay against the state.
--   A `Mode` holds what `validate_block` gets as `parent_model` and `params`: both in the
--   live protocol, neither in the legacy one.
-- - Lottery: rig/lottery.py. Capacity: rig/capacity.py. ModelState and its children:
--   rig/model_state.py, with `fold` in Fold and the roots and `page_init` in Commit. Merkle:
--   rig/merkle.py. Lanes: rig/lanes.py. Aggregation: rig/chain.py, whose weight vectors are lists
--   with int64 wrap-around written out; `paged_transition` is in Paged, the trimming of outliers in
--   Robust.
-- - Fraud: rig/fraud.py. The file has the sparse bodies that `build` makes and `_dense` reads, Game
--   has `build` and `verify`, whose result is a `Ruling`: a reason why the proof is invalid, fraud, or
--   an exception. Its hex texts are read by `from_hex`, whose bytes are written as the text that
--   `bytes.hex()` gives of them. Canonical, Sparse, Hex and Evidence say what `verify` reads back of
--   what `build` wrote, Convicts whom a proof convicts.
-- - Storage: rig/storage.py, a store as the values of its files. Its Files, Stored and Sync prove.
-- - Gossip: rig/p2p.py. The file has what a node receives, Produce what it makes, Network the step of
--   the network, Runs its start and the events on it. A handler's result is an `Outcome`: it returns,
--   an exception leaves it, or the model's fuel is out. Returns shows that the fuel is enough, Sound,
--   Made and Steps carry the invariant. Blockchain/Tree/Orphans and Tree/Grows say of `add_block` what the
--   node relies on.
-- - Tests: runs on small inputs.
--
-- The ledger's amounts are natural numbers, for no operation leaves a negative one; an amount in a
-- transaction is an integer. The loops run over lists and are structural recursion, but for
-- `build`, whose fuel is the number of leaves: a level has at most half as many nodes, rounded up, as
-- the one below. The bit length of an output is counted down from 256 bits, which no output exceeds.
-- `holdings` is the abstract view of a ledger: all grains in balances, pools, stakes and bonds.
--
-- A root hashes a JSON text: the model builds the JSON value (Base/Json), and the platform prints it.
-- `chain_from_genesis` has the height of its block as fuel, which is enough in every tree that
-- `add_block` leads to.
--
-- `recv_block` calls itself for the orphans of a block: its fuel is one more than the blocks that wait
-- in the buffer. Python's own limit on the depth of recursion is not modelled.
--
-- Not modelled: key generation, data availability, training and evaluation on floats (parameters where
-- a node calls them), sockets and processes, economic simulations and the client.
pub mod Base
pub mod Platform
pub mod Crypto
pub mod Token
pub mod Blockchain
pub mod Lottery
pub mod Capacity
pub mod Merkle
pub mod ModelState
pub mod Aggregation
pub mod Lanes
pub mod Fraud
pub mod Storage
pub mod Gossip
mod Tests
