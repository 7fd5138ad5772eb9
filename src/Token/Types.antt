-- ===== src/Token/Types.antt =====
-- The transactions and the state of rig/token.py. Amounts in a transaction are Python integers of
-- either sign; what the ledger holds is a natural number. A negative nonce equals no stored one.
use sestrian.Base.{ℕ, Bool, List, [], Option}
use sestrian.Base.Int.{ℤ}
use sestrian.Base.Dict.{Dict}

pub record TransferTx : Type 0 where
  pub from_pub : ℕ
  pub to_addr : ℕ
  pub amount : ℤ
  pub nonce : ℕ
  pub sig : ℕ

pub record DataSubmitTx : Type 0 where
  pub owner_pub : ℕ
  pub data_hash : ℕ
  pub size_bytes : ℤ
  pub media_type : ℕ
  pub stake : ℤ
  pub nonce : ℕ
  -- the characters of the availability commitment
  pub da_root : List ℕ
  pub sig : ℕ

pub record DataChallengeTx : Type 0 where
  pub challenger_pub : ℕ
  pub data_id : ℕ
  pub stake : ℤ
  pub reason : ℕ
  pub nonce : ℕ
  pub sig : ℕ

pub record DataVoteTx : Type 0 where
  pub voter_pub : ℕ
  pub challenge_id : ℕ
  pub support : Bool
  pub nonce : ℕ
  pub sig : ℕ

pub record InferenceReceiptTx : Type 0 where
  pub payer_pub : ℕ
  pub server_addr : ℕ
  pub fee : ℤ
  pub output_hash : ℕ
  pub head_root : ℕ
  pub nonce : ℕ
  -- `[]` for an absent sketch
  pub answer_sketch : List ℤ
  pub sig : ℕ

-- The transactions that `apply_data_tx` tells apart by `isinstance`.
pub data DataTx : Type 0 where
  submit : DataSubmitTx → DataTx
  challenge : DataChallengeTx → DataTx
  vote : DataVoteTx → DataTx
  receipt : InferenceReceiptTx → DataTx

-- Everything that one account nonce orders.
pub data AccountTx : Type 0 where
  transfer : TransferTx → AccountTx
  data_tx : DataTx → AccountTx

pub data Status : Type 0 where
  active revoked : Status

pub record Entry : Type 0 where
  pub owner : ℕ
  pub data_hash : ℕ
  pub size : ℤ
  pub media_type : ℕ
  pub stake : ℕ
  -- the genesis entry has none
  pub da_root : Option (List ℕ)
  pub weight : ℕ
  pub status : Status
  -- `[]` where no delta has named the entry yet
  pub sketch : List ℤ

pub record Challenge : Type 0 where
  pub data_id : ℕ
  pub challenger : ℕ
  pub stake : ℕ
  pub reason : ℕ
  pub expiry : ℕ
  pub votes_for : List ℕ
  pub votes_against : List ℕ

pub record Bond : Type 0 where
  pub miner : ℕ
  pub amount : ℕ
  pub expiry : ℕ

pub record TokenLedger : Type 0 where
  pub balances : Dict ℕ
  pub nonces : Dict ℕ
  pub registry : Dict Entry
  pub challenges : Dict Challenge
  pub bonds : Dict Bond
  pub fee_data_pool : ℕ
  pub fee_train_pool : ℕ

-- `TokenLedger()`
abbrev pub empty : TokenLedger
empty = record {
  balances = [];
  nonces = [];
  registry = [];
  challenges = [];
  bonds = [];
  fee_data_pool = 0;
  fee_train_pool = 0;
}
