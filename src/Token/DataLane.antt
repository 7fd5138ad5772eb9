-- ===== src/Token/DataLane.antt =====
-- `apply_data_tx` of rig/token.py, one function for each kind of transaction.
use sestrian.Base.{
  ℕ, ◌+◌, ◌-◌, ◌*◌, ◌/◌, Bool, true, false, not, ◌&&◌, ◌||◌, Option, none, some, List, [], ◌∷◌,
  if◌then◌else◌, ltb, ◌==◌, any, all, length, contains,
}
use sestrian.Base.Int.{ℤ, pos, negsuc, positive, ◌+ℤ◌, ◌*ℤ◌}
use sestrian.Base.Dict.{Dict, lookup, has, get_or, put, values, keys, sum_by, same}
use sestrian.Base.Sort.{sorted}
use sestrian.Platform.{Platform, ascii}
use sestrian.Token.Types.{
  TokenLedger, Entry, Challenge, DataTx, DataSubmitTx, DataChallengeTx, DataVoteTx,
  InferenceReceiptTx, active, revoked, submit, challenge, vote, receipt,
}
use sestrian.Token.Emission.{challenge_window, fee_share_data, fee_share_train}
use sestrian.Token.Txs.{address, data_txid, verify_data, signer, nonce_of}
use sestrian.Token.Account.{credit, credit_all}
use sestrian.Token.Transfer.{debit, bump}
use sestrian.Token.Shares.{split}
use sestrian.Token.Challenges.{put_entry, put_challenge}

unfoldable pub is_active : Entry → Bool
is_active e = elim e.status [ active ↦ true | revoked ↦ false ]

abbrev pub hex_digits : List ℕ
hex_digits = ascii "0123456789abcdef"

-- `len(root) == 64` and every character a lower-case hex digit.
unfoldable pub well_formed_root : List ℕ → Bool
well_formed_root root = length root == 64 && all (λ c. contains c hex_digits) root

-- `sum(a * b for a, b in zip(xs, ys))`
unfoldable pub dot : List ℤ → List ℤ → ℤ
dot [] ys = pos 0
dot (x ∷ xs) [] = pos 0
dot (x ∷ xs) (y ∷ ys) = x *ℤ y +ℤ dot xs ys

abbrev pub is_nonzero : ℤ → Bool
is_nonzero (pos n) = not (n == 0)
is_nonzero (negsuc n) = true

-- `d > 0` adds d to the owner's alignment.
unfoldable pub add_align : ℕ → ℤ → Dict ℕ → Dict ℕ
add_align owner z aligns = elim (positive z) [
  | none ↦ aligns
  | some d ↦ put owner (get_or owner 0 aligns + d) aligns
]

abbrev pub is_empty : List ℤ → Bool
is_empty [] = true
is_empty (x ∷ xs) = false

-- One turn of the loop that fills `aligns`: owner -> summed positive alignment.
unfoldable pub align : List ℤ → Entry → Dict ℕ → Dict ℕ
unfolding is_active dot add_align
align ans e aligns =
    if not (is_active e) || is_empty e.sketch
    then aligns
    else add_align e.owner (dot e.sketch ans) aligns

unfoldable pub alignments : List ℤ → List Entry → Dict ℕ → Dict ℕ
alignments ans [] aligns = aligns
alignments ans (e ∷ es) aligns = alignments ans es (align ans e aligns)

-- The recipients of the data slice with their weights, in the order of the keys.
unfoldable pub weighted : Dict ℕ → List ℕ → List (ℕ × ℤ)
weighted d [] = []
weighted d (k ∷ ks) = (k, pos (get_or k 0 d)) ∷ weighted d ks

abbrev pub pool_data : ℕ → TokenLedger → TokenLedger
pool_data cut led = record led { fee_data_pool = led.fee_data_pool + cut }

abbrev pub pool_train : ℕ → TokenLedger → TokenLedger
pool_train cut led = record led { fee_train_pool = led.fee_train_pool + cut }

-- The registry's value for an accepted submission.
abbrev pub new_entry : DataSubmitTx → ℕ → ℕ → Entry
new_entry tx src stake = record {
  owner = src;
  data_hash = tx.data_hash;
  size = tx.size_bytes;
  media_type = tx.media_type;
  stake = stake;
  da_root = some tx.da_root;
  weight = stake;
  status = active;
  sketch = [];
}

-- The value for a challenge that opens.
abbrev pub new_challenge : DataChallengeTx → ℕ → ℕ → ℕ → Challenge
new_challenge tx src stake height = record {
  data_id = tx.data_id;
  challenger = src;
  stake = stake;
  reason = tx.reason;
  expiry = height + challenge_window;
  votes_for = [];
  votes_against = [];
}

module _ (p : Platform) where
  -- The data slice of a fee, split by alignment; pooled if nothing aligns.
  unfoldable pub pay_aligned : Dict ℕ → ℕ → TokenLedger → TokenLedger
  pay_aligned aligns cut led =
      if ltb 0 (sum_by same aligns)
      then credit_all
          (split cut (sum_by same aligns) (weighted aligns (sorted p.text_le (keys aligns)))) led
      else pool_data cut led

  -- An unsketched receipt pools its data slice.
  unfoldable pub pay_data_slice : List ℤ → ℕ → TokenLedger → TokenLedger
  pay_data_slice ans cut led =
      if any is_nonzero ans
      then pay_aligned (alignments ans (values led.registry) []) cut led
      else pool_data cut led

  -- The branch of `apply_data_tx` for `DataSubmitTx`.
  unfoldable pub apply_submit : DataSubmitTx → ℕ → TokenLedger → TokenLedger × Bool
  apply_submit tx src led = elim (positive tx.stake) [
    | none ↦ (led, false)
    | some stake ↦
        if ltb (get_or src 0 led.balances) stake
        then (led, false)
        else if has (data_txid p (submit tx)) led.registry
        then (led, false)
        else if not (well_formed_root tx.da_root)
        then (led, false)
        else elim (positive tx.size_bytes) [
          | none ↦ (led, false)
          | some _ ↦ (
            put_entry (data_txid p (submit tx)) (new_entry tx src stake) (debit src stake led),
            true,
          )
        ]
  ]

  -- `any(c["data_id"] == data_id for c in self.challenges.values())`
  unfoldable pub challenged : ℕ → TokenLedger → Bool
  challenged data_id led = any (λ (c : Challenge). c.data_id == data_id) (values led.challenges)

  -- The branch for `DataChallengeTx`.
  unfoldable pub apply_challenge : DataChallengeTx → ℕ → ℕ → TokenLedger → TokenLedger × Bool
  unfolding challenged is_active
  apply_challenge tx src height led = elim (lookup tx.data_id led.registry) [
    | none ↦ (led, false)
    | some e ↦ if not (is_active e) then (led, false) else elim (positive tx.stake) [
      | none ↦ (led, false)
      | some stake ↦
          if ltb (get_or src 0 led.balances) stake || challenged tx.data_id led
          then (led, false)
          else (
            put_challenge (data_txid p (challenge tx)) (new_challenge tx src stake height)
                (debit src stake led),
            true,
          )
    ]
  ]

  -- `votes.append(src); votes.sort()`
  unfoldable pub add_vote : Bool → ℕ → Challenge → Challenge
  add_vote support src ch =
      if support
      then record ch {
        votes_for = sorted p.text_le (src ∷ ch.votes_for);
        votes_against = sorted p.text_le ch.votes_against;
      }
      else record ch {
        votes_for = sorted p.text_le ch.votes_for;
        votes_against = sorted p.text_le (src ∷ ch.votes_against);
      }

  -- `entry is not None and src == entry["owner"]`
  abbrev pub owns : ℕ → Option Entry → Bool
  owns src none = false
  owns src (some e) = src == e.owner

  -- The branch for `DataVoteTx`.
  unfoldable pub apply_vote : DataVoteTx → ℕ → List ℕ → TokenLedger → TokenLedger × Bool
  apply_vote tx src recent_proposers led = elim (lookup tx.challenge_id led.challenges) [
    | none ↦ (led, false)
    | some ch ↦
        if not (contains tx.voter_pub recent_proposers)
          || (contains src ch.votes_for || contains src ch.votes_against)
        then (led, false)
        else if src == ch.challenger
        then (led, false)
        else if owns src (lookup ch.data_id led.registry)
        then (led, false)
        else (put_challenge tx.challenge_id (add_vote tx.support src ch) led, true)
  ]

  -- The branch for `InferenceReceiptTx`.
  unfoldable pub apply_receipt : InferenceReceiptTx → ℕ → TokenLedger → TokenLedger × Bool
  apply_receipt tx src led = elim (positive tx.fee) [
    | none ↦ (led, false)
    | some fee ↦
        if ltb (get_or src 0 led.balances) fee
        then (led, false)
        else let data_cut = fee * fee_share_data / 10_000 in
          let train_cut = fee * fee_share_train / 10_000 in
          (
            pay_data_slice tx.answer_sketch data_cut (
                pool_train train_cut
                  (credit tx.server_addr (pos (fee - data_cut - train_cut)) (debit src fee led))),
            true,
          )
  ]

  unfoldable pub dispatch : DataTx → ℕ → ℕ → List ℕ → TokenLedger → TokenLedger × Bool
  dispatch (submit tx) src height jurors = apply_submit tx src
  dispatch (challenge tx) src height jurors = apply_challenge tx src height
  dispatch (vote tx) src height jurors = apply_vote tx src jurors
  dispatch (receipt tx) src height jurors = apply_receipt tx src

  -- the last two lines: only an accepted transaction moves the nonce
  abbrev pub finish : ℕ → ℕ → TokenLedger × Bool → TokenLedger × Bool
  finish src nonce (led, true) = (bump src nonce led, true)
  finish src nonce (led, false) = (led, false)

  -- `TokenLedger.apply_data_tx`
  unfoldable pub apply_data_tx : DataTx → ℕ → List ℕ → TokenLedger → TokenLedger × Bool
  apply_data_tx tx height recent_proposers led =
      let src = address p (signer p tx) in
      if not (verify_data p tx)
      then (led, false)
      else if not (nonce_of p tx == get_or src 0 led.nonces)
      then (led, false)
      else finish src (nonce_of p tx) (dispatch tx src height recent_proposers led)
