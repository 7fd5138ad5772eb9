-- ===== src/Token/Conservation.antt =====
-- The data lane creates no grains, and a refused transaction changes nothing.
use sestrian.Base.{
  ℕ, ◌+◌, ◌-◌, ◌*◌, ◌/◌, ◌≤◌, ◌≡◌, refl, sym, ◌⊎◌, ◌∙◌, Bool, true, false, none, inl, inr, List, [],
  ◌∷◌, arith, not, ◌||◌, Bool-cases, Option-cases,
}
use mathlib.Core.Path.{subst}
use sestrian.Base.Int.{ℤ, pos, negsuc, pos_part}
use sestrian.Base.Dict.{
  Dict, lookup, get_or, put, keys, values, sum_by, same, Distinct, put-Distinct, weight_at,
  weight-same, weight-lookup, weight-missing, has-lookup,
}
use sestrian.Base.Sort.{sorted}
use sestrian.Platform.{Platform}
use sestrian.Token.Types.{
  TokenLedger, Entry, Challenge, DataTx, DataSubmitTx, DataChallengeTx, DataVoteTx,
  InferenceReceiptTx, submit, challenge, vote, receipt,
}
use sestrian.Token.Emission.{fee_share_data, fee_share_train}
use sestrian.Token.Txs.{address, data_txid, signer, nonce_of}
use sestrian.Token.Account.{
  credit, paid, holdings, holdings-credit, holdings-credit_all, challenge_stake, entry_stake,
}
use sestrian.Token.Transfer.{debit, holdings-debit, holdings-bump}
use sestrian.Token.Shares.{split, split-le, sum_keys, sum_keys-sorted, sum_keys-keys}
use sestrian.Token.Challenges.{holdings-put_entry, holdings-put_challenge}
use sestrian.Token.DataLane.{
  is_active, is_empty, dot, new_entry, new_challenge, add_align, align, alignments, weighted,
  pool_data, pool_train, pay_aligned, pay_data_slice, apply_submit, apply_challenge, apply_vote,
  add_vote, apply_receipt, dispatch, finish, apply_data_tx,
}

add_align_cases :
    (owner : ℕ) (z : ℤ) (aligns : Dict ℕ)
    → (add_align owner z aligns ≡ aligns)
      ⊎ (add_align owner z aligns ≡ put owner (get_or owner 0 aligns + pos_part z) aligns)
unfolding add_align
add_align_cases owner (negsuc n) aligns = inl refl
add_align_cases owner (pos n) aligns = ground arith

add_align-Distinct :
    (owner : ℕ) (z : ℤ) (aligns : Dict ℕ) → Distinct aligns → Distinct (add_align owner z aligns)
add_align-Distinct owner z aligns h = elim (add_align_cases owner z aligns) [
  | inl same_dict ↦ subst Distinct (sym same_dict) h
  | inr more ↦
      subst Distinct (sym more) (put-Distinct owner (get_or owner 0 aligns + pos_part z) aligns h)
]

align-Distinct :
    (ans : List ℤ) (e : Entry) (aligns : Dict ℕ) → Distinct aligns → Distinct (align ans e aligns)
unfolding align
align-Distinct ans e aligns h = elim (Bool-cases (not (is_active e) || is_empty e.sketch)) [
  | inl skipped ↦ rw skipped h
  | inr counted ↦ rw counted (add_align-Distinct e.owner (dot e.sketch ans) aligns h)
]

alignments-Distinct :
    (ans : List ℤ) (es : List Entry) (aligns : Dict ℕ)
    → Distinct aligns
    → Distinct (alignments ans es aligns)
unfolding alignments
alignments-Distinct ans [] aligns h = h
alignments-Distinct ans (e ∷ es) aligns h =
    alignments-Distinct ans es (align ans e aligns) (align-Distinct ans e aligns h)

registry-debit : (a n : ℕ) (led : TokenLedger) → (debit a n led).registry ≡ led.registry
unfolding debit
registry-debit a n led = refl

challenges-debit : (a n : ℕ) (led : TokenLedger) → (debit a n led).challenges ≡ led.challenges
unfolding debit
challenges-debit a n led = refl

holdings-pool_data :
    (cut : ℕ) (led : TokenLedger) → holdings (pool_data cut led) ≡ holdings led + cut
unfolding holdings
holdings-pool_data cut led = omega arith

holdings-pool_train :
    (cut : ℕ) (led : TokenLedger) → holdings (pool_train cut led) ≡ holdings led + cut
unfolding holdings
holdings-pool_train cut led = omega arith

paid-weighted :
    (d : Dict ℕ) (ks : List ℕ) → paid (weighted d ks) ≡ sum_keys (λ k. weight_at same k d) ks
unfolding weighted
paid-weighted d [] = refl
paid-weighted d (k ∷ ks) = omega (arith, paid-weighted d ks, weight-same k d)

module _ (p : Platform) where
  paid-all :
      (d : Dict ℕ) → Distinct d → paid (weighted d (sorted p.text_le (keys d))) ≡ sum_by same d
  paid-all d h =
      paid-weighted d (sorted p.text_le (keys d))
      ∙ sum_keys-sorted p.text_le (λ k. weight_at same k d) (keys d)
      ∙ sum_keys-keys same d h

  pay_aligned-le :
      (aligns : Dict ℕ) (cut : ℕ) (led : TokenLedger)
      → Distinct aligns
      → holdings (pay_aligned p aligns cut led) ≤ holdings led + cut
  unfolding pay_aligned
  pay_aligned-le aligns cut led h =
      let ws = weighted aligns (sorted p.text_le (keys aligns)) in
      let total = sum_by same aligns in
      ground (
        arith,
        holdings-credit_all (split cut total ws) led,
        split-le cut total ws,
        paid-all aligns h,
        holdings-pool_data cut led,
      )

  pay_data_slice-le :
      (ans : List ℤ) (cut : ℕ) (led : TokenLedger)
      → holdings (pay_data_slice p ans cut led) ≤ holdings led + cut
  unfolding pay_data_slice
  pay_data_slice-le ans cut led =
      let aligns = alignments ans (values led.registry) [] in
      ground (
        arith,
        holdings-pool_data cut led,
        pay_aligned-le aligns cut led (alignments-Distinct ans (values led.registry) [] tt),
      )

  -- The three slices of a fee add up to the fee, so at most the dust of the data slice is lost.
  apply_receipt-le :
      (tx : InferenceReceiptTx) (src : ℕ) (led : TokenLedger)
      → holdings (apply_receipt p tx src led).0 ≤ holdings led
  unfolding apply_receipt
  apply_receipt-le tx src led =
      let fee = pos_part tx.fee in
      let data_cut = fee * fee_share_data / 10_000 in
      let train_cut = fee * fee_share_train / 10_000 in
      let led1 = debit src fee led in
      let led2 = credit tx.server_addr (pos (fee - data_cut - train_cut)) led1 in
      ground (
        arith,
        holdings-debit src fee led,
        holdings-credit tx.server_addr (pos (fee - data_cut - train_cut)) led1,
        holdings-pool_train train_cut led2,
        pay_data_slice-le tx.answer_sketch data_cut (pool_train train_cut led2),
      )

  apply_submit-holdings :
      (tx : DataSubmitTx) (src : ℕ) (led : TokenLedger)
      → holdings (apply_submit p tx src led).0 ≡ holdings led
  unfolding apply_submit
  apply_submit-holdings tx src led =
      let stake = pos_part tx.stake in
      let id = data_txid p (submit tx) in
      ground (
        arith,
        holdings-debit src stake led,
        holdings-put_entry id (new_entry tx src stake) (debit src stake led),
        registry-debit src stake led,
        has-lookup id led.registry,
        weight-missing entry_stake id led.registry,
      )

  -- A challenge whose id is already open would overwrite it; else no stake is lost.
  apply_challenge-holdings :
      (tx : DataChallengeTx) (src height : ℕ) (led : TokenLedger)
      → let led' = (apply_challenge p tx src height led).0 in
        (holdings led' ≤ holdings led)
        × (lookup (data_txid p (challenge tx)) led.challenges ≡ none → holdings led' ≡ holdings led)
  unfolding apply_challenge
  apply_challenge-holdings tx src height led =
      let stake = pos_part tx.stake in
      let id = data_txid p (challenge tx) in
      (
        ground (
          arith,
          holdings-debit src stake led,
          holdings-put_challenge id (new_challenge tx src stake height) (debit src stake led),
          challenges-debit src stake led,
        ),
        λ fresh. ground (
          arith,
          holdings-debit src stake led,
          holdings-put_challenge id (new_challenge tx src stake height) (debit src stake led),
          challenges-debit src stake led,
          weight-missing challenge_stake id led.challenges,
        ),
      )

  stake-add_vote :
      (support : Bool) (src : ℕ) (ch : Challenge) → (add_vote p support src ch).stake ≡ ch.stake
  unfolding add_vote
  stake-add_vote true src ch = refl
  stake-add_vote false src ch = refl

  apply_vote-holdings :
      (tx : DataVoteTx) (src : ℕ) (jurors : List ℕ) (led : TokenLedger)
      → holdings (apply_vote p tx src jurors led).0 ≡ holdings led
  unfolding apply_vote
  apply_vote-holdings tx src jurors led =
      elim (Option-cases (lookup tx.challenge_id led.challenges)) [
        | inl missing ↦ ground arith
        | inr (ch, found) ↦ ground (
          arith,
          holdings-put_challenge tx.challenge_id (add_vote p tx.support src ch) led,
          stake-add_vote tx.support src ch,
          weight-lookup challenge_stake tx.challenge_id ch led.challenges found,
        )
      ]

  dispatch-le :
      (tx : DataTx) (src height : ℕ) (jurors : List ℕ) (led : TokenLedger)
      → holdings (dispatch p tx src height jurors led).0 ≤ holdings led
  unfolding dispatch
  dispatch-le (submit tx) src height jurors led = omega (arith, apply_submit-holdings tx src led)
  dispatch-le (challenge tx) src height jurors led = (apply_challenge-holdings tx src height led).0
  dispatch-le (vote tx) src height jurors led = omega (arith, apply_vote-holdings tx src jurors led)
  dispatch-le (receipt tx) src height jurors led = apply_receipt-le tx src led

  holdings-finish :
      (src nonce : ℕ) (r : TokenLedger × Bool) → holdings (finish p src nonce r).0 ≡ holdings (r.0)
  holdings-finish src nonce (led, true) = holdings-bump src nonce led
  holdings-finish src nonce (led, false) = refl

  -- No data-lane transaction, accepted or refused, creates grains.
  pub apply_data_tx-le :
      (tx : DataTx) (height : ℕ) (jurors : List ℕ) (led : TokenLedger)
      → holdings (apply_data_tx p tx height jurors led).0 ≤ holdings led
  unfolding apply_data_tx
  apply_data_tx-le tx height jurors led =
      let src = address p (signer p tx) in
      ground (
        arith,
        holdings-finish src (nonce_of p tx) (dispatch p tx src height jurors led),
        dispatch-le tx src height jurors led,
      )
