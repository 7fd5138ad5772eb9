-- ===== src/Crypto.antt =====
-- rig/crypto.py: length-prefixed signing preimages, and the signed delta commitment.
pub mod Frame
use sestrian.Base.{
  ℕ, Bool, List, [], ◌∷◌, ◌++◌, ◌/◌, ◌%◌, ◌+◌, map, length, contains, if◌then◌else◌, leb,
}
use sestrian.Base.Int.{ℤ, pos}
use sestrian.Base.Sort.{sorted}
use sestrian.Platform.{Platform, ascii}

-- `struct.pack(">I", n)`. Lengths of 2 ** 32 and above, where it raises, are not modelled.
abbrev pub pack_u32 : ℕ → List ℕ
pack_u32 n = n / 16_777_216 % 256 ∷ n / 65_536 % 256 ∷ n / 256 % 256 ∷ n % 256 ∷ []

unfoldable pub frame : List (List ℕ) → List ℕ
frame [] = []
frame (p ∷ parts) = pack_u32 (length p) ++ (p ++ frame parts)

-- `set(xs)` as the list of its members.
abbrev pub unique : List ℕ → List ℕ
unique [] = []
unique (x ∷ xs) = let rest = unique xs in if contains x rest then rest else x ∷ rest

pub record BackpropTx : Type 0 where
  pub miner : ℕ
  pub base_height : ℕ
  pub delta_hash : ℕ
  pub da_pointer : ℕ
  pub bond : ℤ
  pub pages : List ℕ
  pub data_refs : List ℕ
  pub sig : ℕ

unfoldable pub canonical_refs : Platform → BackpropTx → List ℕ
canonical_refs p tx = sorted p.text_le (unique tx.data_refs)

unfoldable pub canonical_pages : BackpropTx → List ℕ
canonical_pages tx = sorted leb (unique tx.pages)

-- `BackpropTx.signing_bytes`
unfoldable pub signing_bytes : Platform → BackpropTx → List ℕ
unfolding frame canonical_refs canonical_pages
signing_bytes p tx =
    let refs = canonical_refs p tx in
    let pages = canonical_pages tx in
    frame (
      ascii "backprop"
      ∷ p.encode tx.miner
      ∷ p.decimal (pos tx.base_height)
      ∷ p.encode tx.delta_hash
      ∷ p.encode tx.da_pointer
      ∷ p.decimal tx.bond
      ∷ p.decimal (pos (length pages))
      ∷ (map (λ q. p.decimal (pos q)) pages ++ (p.decimal (pos (length refs)) ∷ map p.encode refs)))

-- `BackpropTx.txid`
unfoldable pub txid : Platform → BackpropTx → ℕ
unfolding signing_bytes
txid p tx = p.sha256 (signing_bytes p tx)

-- `BackpropTx.verify`
unfoldable pub verify : Platform → BackpropTx → Bool
unfolding signing_bytes
verify p tx = p.ed25519 tx.miner (signing_bytes p tx) tx.sig
