-- ===== src/Blockchain/Types.antt =====
-- Headers, blocks and the errors of rig/blockchain.py.
use sestrian.Base.{ℕ, List, Bool, true, false, ◌≡◌, refl, ◌⊎◌, inl, inr}
use sestrian.Base.Int.{ℤ}
use sestrian.Base.Dict.{Dict}
use sestrian.Crypto.{BackpropTx}
use sestrian.Token.Types.{TransferTx, DataTx}

pub record Header : Type 0 where
  pub height : ℕ
  pub prev_hash : ℕ
  pub state_root : ℕ
  pub txset_root : ℕ
  pub n_txs : ℕ
  pub work : ℕ
  pub proposer : ℕ
  pub transfer_root : ℕ
  pub ledger_root : ℕ
  pub data_root : ℕ
  pub vrf_proof : ℕ
  pub score_root : ℕ
  pub sketch_root : ℕ
  pub model_root : ℕ
  pub vrf_attempt : ℕ
  pub version : ℕ

pub record Block : Type 0 where
  pub header : Header
  pub txs : List BackpropTx
  -- da_pointer -> delta body
  pub bodies : Dict (List ℤ)
  pub transfers : List TransferTx
  pub data_txs : List DataTx
  -- txid -> score
  pub scores : Dict ℤ
  -- txid -> sketch
  pub sketches : Dict (List ℤ)

-- The reasons for a `ValidationError`.
pub data Reason : Type 0 where
  bad_version bad_height bad_tx_count attempt_range not_eligible bad_proof bad_work : Reason
  bad_tx_signature bad_base_height missing_body bad_body_length bad_body_hash : Reason
  bad_pages frozen_page outside_lane outside_claim below_quota over_envelope : Reason
  txset_mismatch score_keys score_range score_mismatch : Reason
  sketch_keys sketch_malformed sketch_mismatch : Reason
  state_mismatch model_mismatch transfer_mismatch data_mismatch ledger_mismatch : Reason
  no_provenance bond_unaffordable bad_transfer_signature bad_transfer bad_data_tx : Reason
  -- and of the exceptions that Python raises by itself: a missing key, a failed assertion, a text
  -- that is not hex
  orphan missing_key bad_genesis empty_pages bad_hex : Reason

-- What a check or a transition comes to: a value, or the reason it was refused for.
pub data Verdict {ℓ} (A : Type ℓ) : Type ℓ where
  raised : Reason → Verdict A
  valid : A → Verdict A

-- The next step runs on the value of the one before.
infixl 5 ◌>>=◌ ◌>>◌
abbrev pub ◌>>=◌ {ℓ κ} : {A : Type ℓ} {B : Type κ} → Verdict A → (A → Verdict B) → Verdict B
raised reason >>= step = raised reason
valid value >>= step = step value

abbrev pub ◌>>◌ {ℓ} : {B : Type ℓ} → Verdict (Unit {0}) → Verdict B → Verdict B
check >> rest = check >>= (λ _. rest)

-- `if not test: raise ValidationError(reason)`
abbrev pub require : Bool → Reason → Verdict (Unit {0})
require false reason = raised reason
require true reason = valid tt

-- What a valid end says of the steps before it.
pub bind-valid {ℓ κ} :
    {A : Type ℓ} {B : Type κ} (m : Verdict A) (step : A → Verdict B) {b : B}
    → (m >>= step) ≡ valid b
    → (a : A) × (m ≡ valid a) × (step a ≡ valid b)
bind-valid (valid a) step h = (a, refl, h)
bind-valid (raised e) step h = cc h

pub then-valid {ℓ} :
    {B : Type ℓ} (m : Verdict (Unit {0})) (rest : Verdict B) {b : B}
    → (m >> rest) ≡ valid b
    → (m ≡ valid tt) × (rest ≡ valid b)
then-valid (valid tt) rest h = (refl, h)
then-valid (raised e) rest h = cc h

pub require-valid {ℓ} :
    {B : Type ℓ} (test : Bool) (reason : Reason) (rest : Verdict B) {b : B}
    → (require test reason >> rest) ≡ valid b
    → (test ≡ true) × (rest ≡ valid b)
require-valid true reason rest h = (refl, h)
require-valid false reason rest h = cc h

pub valid-injective {ℓ} : {A : Type ℓ} {a b : A} → valid a ≡ valid b → a ≡ b
valid-injective h = cc h

pub require-true : (test : Bool) (reason : Reason) → require test reason ≡ valid tt → test ≡ true
require-true true reason h = refl
require-true false reason h = cc h

pub Verdict-cases {ℓ} :
    {A : Type ℓ} (v : Verdict A) → ((a : A) × (v ≡ valid a)) ⊎ ((e : Reason) × (v ≡ raised e))
Verdict-cases (valid a) = inl (a, refl)
Verdict-cases (raised e) = inr (e, refl)

-- And the other way: steps that pass, one after another.
pub bind-pass {ℓ κ} :
    {A : Type ℓ} {B : Type κ} {m : Verdict A} (step : A → Verdict B) {a : A} {out : Verdict B}
    → m ≡ valid a
    → step a ≡ out
    → (m >>= step) ≡ out
bind-pass step e h = rw e h

pub require-pass {ℓ} :
    {B : Type ℓ} {test : Bool} (reason : Reason) {rest out : Verdict B}
    → test ≡ true
    → rest ≡ out
    → (require test reason >> rest) ≡ out
require-pass reason e h = rw e h
