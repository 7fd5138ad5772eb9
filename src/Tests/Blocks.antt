-- ===== src/Tests/Blocks.antt =====
-- rig/blockchain.py at the first block of a small chain.
use sestrian.Base.{◌+◌, ◌*◌, ◌≤◌, ◌≡◌, refl, some, [], ◌∷◌}
use sestrian.Base.Int.{pos, floor_div, ◌+ℤ◌, ◌*ℤ◌, sum_ℤ}
use sestrian.Platform.{toy}
use sestrian.Crypto.{BackpropTx, frame, canonical_refs, canonical_pages, signing_bytes, txid}
use sestrian.Token.Types.{TransferTx, TokenLedger}
use sestrian.Token.Emission.{emission, grain, tail_reward}
use sestrian.Token.Txs.{address, transfer_bytes, verify_transfer}
use sestrian.Token.Account.{credit, credited, credit_all, holdings, supply}
use sestrian.Token.Transfer.{apply_transfer, debit, bump}
use sestrian.Token.Bonds.{lock_bond, settle_bonds, resolve_expired_bonds}
use sestrian.Token.Challenges.{settle_challenges, resolve_expired_challenges, put_entry}
use sestrian.Token.DataLane.{is_active}
use sestrian.Token.Shares.{split}
use sestrian.Token.Reward.{
  apply_reward, seed_genesis_data, reward_miners, pay_miners, miner_claims, miner_total,
  equal_shares, reward_proposer, reward_data, hash_to_owner, backed_credits, owner_claims,
  pay_owners,
}
use sestrian.Blockchain.Types.{Header, Block, valid}
use sestrian.Blockchain.Ledger.{
  active_hashes, active_set, hash_to_entry, committed_scores, effective_scores, credit_named, weigh,
  named_entries, accrue_all, provenance, lock_bonds, account_le, canonical_account_txs,
  apply_account_tx, apply_account_txs, settle, reward_block, apply_ledger,
}
use sestrian.Blockchain.Supply.{apply_ledger-le}
use sestrian.Blockchain.Chain.{genesis_ledger, Ledgers, start, next, Ledgers-cap}

abbrev header : Header
header = record {
  height = 1;
  prev_hash = 0;
  state_root = 0;
  txset_root = 0;
  n_txs = 0;
  work = 1;
  proposer = 50;
  transfer_root = 0;
  ledger_root = 0;
  data_root = 0;
  vrf_proof = 0;
  score_root = 0;
  sketch_root = 0;
  model_root = 0;
  vrf_attempt = 0;
  version = 1;
}

-- A delta that names the founding corpus.
abbrev delta : BackpropTx
delta = record {
  miner = 60;
  base_height = 0;
  delta_hash = 5;
  da_pointer = 6;
  bond = pos 0;
  pages = 0 ∷ [];
  data_refs = 1 ∷ [];
  sig = 60;
}

-- The proposer spends part of the reward in the block that pays it.
abbrev spend : TransferTx
spend = record { from_pub = 50; to_addr = 7060; amount = pos 40; nonce = 0; sig = 50 }

abbrev block : Block
block = record {
  header = header;
  txs = delta ∷ [];
  bodies = [];
  transfers = spend ∷ [];
  data_txs = [];
  scores = [];
  sketches = [];
}

abbrev parent : TokenLedger
parent = genesis_ledger toy (some 9)

abbrev child : TokenLedger
child = record {
  balances = (7060, 35_000_000_040) ∷ (7050, 4_999_999_960) ∷ (9, 10_000_000_000) ∷ [];
  nonces = (7050, 1) ∷ [];
  registry = parent.registry;
  challenges = [];
  bonds = [];
  fee_data_pool = 0;
  fee_train_pool = 0;
}

applied : apply_ledger toy parent block (some 9) [] ≡ valid child
unfolding apply_ledger settle resolve_expired_bonds settle_bonds resolve_expired_challenges
    settle_challenges genesis_ledger seed_genesis_data put_entry is_active active_hashes active_set
    hash_to_entry provenance canonical_refs canonical_pages signing_bytes txid frame address
    reward_block effective_scores committed_scores weigh credit_named named_entries accrue_all
    apply_reward emission reward_miners pay_miners miner_claims miner_total equal_shares
    reward_proposer reward_data hash_to_owner backed_credits owner_claims pay_owners credit credited
    credit_all split floor_div ◌+ℤ◌ ◌*ℤ◌ sum_ℤ lock_bonds lock_bond canonical_account_txs account_le
    apply_account_txs apply_account_tx apply_transfer debit bump verify_transfer transfer_bytes
applied = refl

apply_ledger-le_example : holdings child ≤ holdings parent + emission 1
apply_ledger-le_example = apply_ledger-le toy parent block (some 9) [] tt applied

chain : Ledgers toy (some 9) 1 child
chain = next block [] child start refl tt applied

Ledgers-cap_example :
    (holdings child ≤ 100_000_000 * grain + 1 * tail_reward)
    × (supply child ≤ 100_000_000 * grain + 1 * tail_reward)
Ledgers-cap_example = Ledgers-cap toy (some 9) chain
