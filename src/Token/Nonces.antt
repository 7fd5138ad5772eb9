-- ===== src/Token/Nonces.antt =====
-- Account nonces of rig/token.py only rise, so no accepted transaction is accepted again.
use native.Mathlib.Nat.{le_refl}
use sestrian.Base.{
  ℕ, ◌+◌, ◌≤◌, ◌≡◌, refl, ◌∙◌, ap, ◌&&◌, Bool, true, false, List, [], ◌∷◌, if◌then◌else◌, ◌==◌,
  arith, inl, inr, Bool-cases,
}
use sestrian.Base.Int.{ℤ}
use sestrian.Base.Dict.{Dict, get_or, get_or-put, values}
use sestrian.Platform.{Platform}
use sestrian.Token.Types.{
  TokenLedger, DataTx, submit, challenge, vote, receipt, DataSubmitTx, DataChallengeTx, DataVoteTx,
  InferenceReceiptTx, TransferTx, AccountTx, transfer, data_tx,
}
use sestrian.Token.Txs.{address, signer, nonce_of, verify_data}
use sestrian.Token.Account.{credit, credit_all}
use sestrian.Token.Transfer.{debit, bump, apply_transfer}
use sestrian.Token.Challenges.{put_entry, put_challenge}
use sestrian.Token.DataLane.{
  pay_aligned, pay_data_slice, apply_submit, apply_challenge, apply_vote, apply_receipt, dispatch,
  finish, apply_data_tx, alignments,
}

-- The next nonce that the ledger expects of an account.
abbrev pub next_nonce : ℕ → TokenLedger → ℕ
next_nonce a led = get_or a 0 led.nonces

nonces-credit_all :
    (xs : List (ℕ × ℤ)) (led : TokenLedger) → (credit_all xs led).nonces ≡ led.nonces
unfolding credit_all credit
nonces-credit_all [] led = refl
nonces-credit_all ((a, z) ∷ xs) led = nonces-credit_all xs (credit a z led)

module _ (p : Platform) where
  nonces-pay_aligned :
      (d : Dict ℕ) (cut : ℕ) (led : TokenLedger) → (pay_aligned p d cut led).nonces ≡ led.nonces
  unfolding pay_aligned
  nonces-pay_aligned d cut led = grind (arith, nonces-credit_all)

  nonces-pay_data_slice :
      (ans : List ℤ) (cut : ℕ) (led : TokenLedger)
      → (pay_data_slice p ans cut led).nonces ≡ led.nonces
  unfolding pay_data_slice
  nonces-pay_data_slice ans cut led =
      ground (arith, nonces-pay_aligned (alignments ans (values led.registry) []) cut led)

  nonces-submit :
      (tx : DataSubmitTx) (src : ℕ) (led : TokenLedger)
      → (apply_submit p tx src led).0.nonces ≡ led.nonces
  unfolding apply_submit put_entry debit
  nonces-submit tx src led = ground arith

  nonces-challenge :
      (tx : DataChallengeTx) (src height : ℕ) (led : TokenLedger)
      → (apply_challenge p tx src height led).0.nonces ≡ led.nonces
  unfolding apply_challenge put_challenge debit
  nonces-challenge tx src height led = ground arith

  nonces-vote :
      (tx : DataVoteTx) (src : ℕ) (jurors : List ℕ) (led : TokenLedger)
      → (apply_vote p tx src jurors led).0.nonces ≡ led.nonces
  unfolding apply_vote put_challenge
  nonces-vote tx src jurors led = ground arith

  nonces-receipt :
      (tx : InferenceReceiptTx) (src : ℕ) (led : TokenLedger)
      → (apply_receipt p tx src led).0.nonces ≡ led.nonces
  unfolding apply_receipt credit debit
  nonces-receipt tx src led = grind (arith, nonces-pay_data_slice)

  nonces-dispatch :
      (tx : DataTx) (src height : ℕ) (jurors : List ℕ) (led : TokenLedger)
      → (dispatch p tx src height jurors led).0.nonces ≡ led.nonces
  unfolding dispatch
  nonces-dispatch (submit tx) src height jurors led = nonces-submit tx src led
  nonces-dispatch (challenge tx) src height jurors led = nonces-challenge tx src height led
  nonces-dispatch (vote tx) src height jurors led = nonces-vote tx src jurors led
  nonces-dispatch (receipt tx) src height jurors led = nonces-receipt tx src led

  submit-refused :
      (tx : DataSubmitTx) (src : ℕ) (led : TokenLedger)
      → (apply_submit p tx src led).1 ≡ false
      → (apply_submit p tx src led).0 ≡ led
  unfolding apply_submit
  submit-refused tx src led h = ground arith

  challenge-refused :
      (tx : DataChallengeTx) (src height : ℕ) (led : TokenLedger)
      → (apply_challenge p tx src height led).1 ≡ false
      → (apply_challenge p tx src height led).0 ≡ led
  unfolding apply_challenge
  challenge-refused tx src height led h = ground arith

  vote-refused :
      (tx : DataVoteTx) (src : ℕ) (jurors : List ℕ) (led : TokenLedger)
      → (apply_vote p tx src jurors led).1 ≡ false
      → (apply_vote p tx src jurors led).0 ≡ led
  unfolding apply_vote
  vote-refused tx src jurors led h = ground arith

  receipt-refused :
      (tx : InferenceReceiptTx) (src : ℕ) (led : TokenLedger)
      → (apply_receipt p tx src led).1 ≡ false
      → (apply_receipt p tx src led).0 ≡ led
  unfolding apply_receipt
  receipt-refused tx src led h = ground arith

  dispatch-refused :
      (tx : DataTx) (src height : ℕ) (jurors : List ℕ) (led : TokenLedger)
      → (dispatch p tx src height jurors led).1 ≡ false
      → (dispatch p tx src height jurors led).0 ≡ led
  unfolding dispatch
  dispatch-refused (submit tx) src height jurors led h = submit-refused tx src led h
  dispatch-refused (challenge tx) src height jurors led h = challenge-refused tx src height led h
  dispatch-refused (vote tx) src height jurors led h = vote-refused tx src jurors led h
  dispatch-refused (receipt tx) src height jurors led h = receipt-refused tx src led h

  -- What `finish` does to the nonces, where the handler left them alone.
  nonce-finish :
      (src n a : ℕ) (r : TokenLedger × Bool) (led : TokenLedger)
      → r.0.nonces ≡ led.nonces
      → next_nonce a (finish p src n r).0 ≡ (if r.1 && (a == src) then n + 1 else next_nonce a led)
  unfolding bump
  nonce-finish src n a (led', true) led e =
      get_or-put a src 0 (n + 1) led'.nonces ∙ ap (λ d. if a == src then n + 1 else get_or a 0 d) e
  nonce-finish src n a (led', false) led e = ap (get_or a 0) e

  finish-refused :
      (src n : ℕ) (r : TokenLedger × Bool)
      → ((finish p src n r).1 ≡ r.1) × (r.1 ≡ false → (finish p src n r).0 ≡ r.0)
  finish-refused src n (led, true) = (refl, λ h. absurd (cc h))
  finish-refused src n (led, false) = (refl, λ h. refl)

  -- A data-lane transaction is accepted only with a valid signature and the sender's next nonce,
  -- which it then raises by one; a refused one changes nothing, and no nonce ever falls.
  pub apply_data_tx_nonce :
      (tx : DataTx) (height : ℕ) (jurors : List ℕ) (led : TokenLedger)
      → let src = address p (signer p tx) in
        let r = apply_data_tx p tx height jurors led in
        (r.1 ≡ true
          → (verify_data p tx ≡ true)
            × (nonce_of p tx ≡ next_nonce src led)
            × (next_nonce src r.0 ≡ next_nonce src led + 1))
        × (r.1 ≡ false → r.0 ≡ led)
        × ((a : ℕ) → next_nonce a led ≤ next_nonce a r.0)
  unfolding apply_data_tx
  apply_data_tx_nonce tx height jurors led =
      let src = address p (signer p tx) in
      let n = nonce_of p tx in
      let r = dispatch p tx src height jurors led in
      let e = nonces-dispatch tx src height jurors led in
      let f = finish-refused src n r in
      (
        λ h. (ground arith, ground arith, ground (arith, nonce-finish src n src r led e, f.0)),
        λ h. ground (arith, f.0, f.1, dispatch-refused tx src height jurors led),
        λ a. ground (arith, nonce-finish src n a r led e, f.0),
      )

  transfer_nonce :
      (tx : TransferTx) (led : TokenLedger) (a : ℕ)
      → (next_nonce a led ≤ next_nonce a (apply_transfer p tx led).0)
        × ((apply_transfer p tx led).1 ≡ true
            → (tx.nonce ≡ next_nonce (address p tx.from_pub) led)
              × (next_nonce (address p tx.from_pub) (apply_transfer p tx led).0
                  ≡ next_nonce (address p tx.from_pub) led + 1))
  unfolding apply_transfer bump credit debit
  transfer_nonce tx led a =
      let src = address p tx.from_pub in
      (
        ground (arith, get_or-put a src 0 (tx.nonce + 1) led.nonces),
        λ h. (ground arith, ground (arith, get_or-put src src 0 (tx.nonce + 1) led.nonces)),
      )

  -- The lanes in any order: one step for each account transaction, accepted or not.
  abbrev pub step_account : AccountTx → ℕ → List ℕ → TokenLedger → TokenLedger
  step_account (transfer tx) height jurors led = (apply_transfer p tx led).0
  step_account (data_tx tx) height jurors led = (apply_data_tx p tx height jurors led).0

  abbrev pub step_all : List (AccountTx × ℕ × List ℕ) → TokenLedger → TokenLedger
  step_all [] led = led
  step_all ((tx, height, jurors) ∷ rest) led = step_all rest (step_account tx height jurors led)

  step_all-nonce :
      (a : ℕ) (steps : List (AccountTx × ℕ × List ℕ)) (led : TokenLedger)
      → next_nonce a led ≤ next_nonce a (step_all steps led)
  step_all-nonce a [] led = le_refl (next_nonce a led)
  step_all-nonce a ((transfer tx, height, jurors) ∷ rest) led =
      omega (arith, step_all-nonce a rest (apply_transfer p tx led).0, (transfer_nonce tx led a).0)
  step_all-nonce a ((data_tx tx, height, jurors) ∷ rest) led = omega (
    arith,
    step_all-nonce a rest (apply_data_tx p tx height jurors led).0,
    (apply_data_tx_nonce tx height jurors led).2 a,
  )

  -- No replay: an accepted transfer is refused ever after, whatever account transactions follow.
  pub transfer_no_replay :
      (tx : TransferTx) (led : TokenLedger) (steps : List (AccountTx × ℕ × List ℕ))
      → (apply_transfer p tx led).1 ≡ true
      → (apply_transfer p tx (step_all steps (apply_transfer p tx led).0)).1 ≡ false
  transfer_no_replay tx led steps h =
      let src = address p tx.from_pub in
      let led1 = (apply_transfer p tx led).0 in
      let led2 = step_all steps led1 in
      let first = (transfer_nonce tx led src).1 h in
      elim (Bool-cases ((apply_transfer p tx led2).1)) [
        | inl again ↦ absurd (
            omega (
              arith,
              first.0,
              first.1,
              step_all-nonce src steps led1,
              ((transfer_nonce tx led2 src).1 again).0,
            ))
        | inr refused ↦ refused
      ]

  -- The same for the data lane.
  pub data_tx_no_replay :
      (tx : DataTx) (height later : ℕ) (jurors jurors' : List ℕ) (led : TokenLedger)
      (steps : List (AccountTx × ℕ × List ℕ))
      → (apply_data_tx p tx height jurors led).1 ≡ true
      → (apply_data_tx p tx later jurors'
          (step_all steps (apply_data_tx p tx height jurors led).0)).1
        ≡ false
  data_tx_no_replay tx height later jurors jurors' led steps h =
      let src = address p (signer p tx) in
      let led1 = (apply_data_tx p tx height jurors led).0 in
      let led2 = step_all steps led1 in
      let first = (apply_data_tx_nonce tx height jurors led).0 h in
      elim (Bool-cases ((apply_data_tx p tx later jurors' led2).1)) [
        | inl again ↦ absurd (
            omega (
              arith,
              first.1,
              first.2,
              step_all-nonce src steps led1,
              ((apply_data_tx_nonce tx later jurors' led2).0 again).1,
            ))
        | inr refused ↦ refused
      ]
