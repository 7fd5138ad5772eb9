-- ===== src/Fraud/Evidence.antt =====
-- What `verify` of rig/fraud.py reads back from what `build` put into a proof: the transactions, the
-- columns of the claimants, the root of the leaves.
use sestrian.Base.{
  ℕ, ◌-◌, ◌≡◌, refl, sym, ap, ◌∙◌, Bool, true, false, Option, some, List, [], ◌∷◌, map, All,
  contains, length, ◌==◌, ==→eq, Bool-cases, inl, inr, arith, ◌⊎◌, ==-ne, ◌≢◌,
}
use sestrian.Base.Int.{ℤ, pos}
use sestrian.Base.Dict.{Dict, lookup, get_or, put, lookup-put}
use sestrian.Base.Sort.{sorted, contains-sorted}
use sestrian.Platform.{Platform}
use sestrian.Crypto.{BackpropTx, canonical_pages, txid}
use sestrian.Crypto
use sestrian.Aggregation.{slice}
use sestrian.Aggregation.Paged.{contributors}
use sestrian.Fraud.{SparseBody, in_i64, dense, dense_body, sparse_body}
use sestrian.Fraud.Sparse.{dense_body-sparse_body}
use sestrian.Fraud.Game.{
  Part, Complaint, goes, ◌>>=◌, ◌>>◌, demand, given, present, column, columns, check_carried_txs,
  claimant_bodies, carried_tx, from_hex,
}
use sestrian.Fraud.Canonical.{IsTotal, txid-carried, verify-carried, canonical_pages-carried}

-- Steps of `verify` that pass.
pub demand-pass {ℓ} :
    {B : Type ℓ} {test : Bool} (complaint : Complaint) {rest out : Part B}
    → test ≡ true
    → rest ≡ out
    → (demand test complaint >> rest) ≡ out
demand-pass complaint e h = rw e h

pub given-pass {ℓ κ} :
    {A : Type ℓ} {B : Type κ} {o : Option A} (next : A → Part B) {a : A} {out : Part B}
    → o ≡ some a
    → next a ≡ out
    → (given o >>= next) ≡ out
given-pass next e h = rw e h

pub present-pass {ℓ κ} :
    {A : Type ℓ} {B : Type κ} {o : Option A} (complaint : Complaint) (next : A → Part B) {a : A}
    {out : Part B}
    → o ≡ some a
    → next a ≡ out
    → (present o complaint >>= next) ≡ out
present-pass complaint next e h = rw e h

pub goes-pass {ℓ κ} :
    {A : Type ℓ} {B : Type κ} {m : Part A} (next : A → Part B) {a : A} {out : Part B}
    → m ≡ goes a
    → next a ≡ out
    → (m >>= next) ≡ out
goes-pass next e h = rw e h

pub ==-refl : (n : ℕ) → (n == n) ≡ true
==-refl n = ground arith

pub ==-same : {a b : ℕ} → a ≡ b → (a == b) ≡ true
==-same h = ground (arith, h)

clash : {b : Bool} → b ≡ true → b ≢ false
clash h k = ground (h, k, arith)

pub get_or-found :
    (k : ℕ) (d : Dict (List ℤ)) (v : List ℤ) → lookup k d ≡ some v → get_or k [] d ≡ v
get_or-found k [] v h = cc h
get_or-found k ((j, u) ∷ d) v h = ground (arith, get_or-found k d v)

module _ (p : Platform) where
  -- A delta that a block can carry: signed, made on the parent's height, with a body of int64 values
  -- that its hash commits, and a signature that is read back from its hex.
  abbrev pub IsBacked : ℕ → ℕ → Dict (List ℤ) → BackpropTx → Type 0
  IsBacked height dim bodies tx =
      (Crypto.verify p tx ≡ true)
      × (tx.base_height ≡ height)
      × ((d : List ℤ) × (lookup (txid p tx) bodies ≡ some d)
          × (length d ≡ dim)
          × All (λ x. in_i64 x ≡ true) d
          × (p.sha256 (p.tobytes d) ≡ tx.delta_hash))
      × (from_hex p tx.sig ≡ some tx.sig)

  IsBacked-sig :
      (height dim : ℕ) (bodies : Dict (List ℤ)) (tx : BackpropTx)
      → IsBacked height dim bodies tx
      → from_hex p tx.sig ≡ some tx.sig
  IsBacked-sig height dim bodies tx (signed, based, body, sig) = sig

  -- The bodies of a block's deltas, by id.
  abbrev pub bodies_of : Dict (List ℤ) → List BackpropTx → List (List ℤ)
  bodies_of bodies txs = map (λ (tx : BackpropTx). get_or (txid p tx) [] bodies) txs

  abbrev pub AreListed : List ℕ → List BackpropTx → Type 0
  AreListed ids txs = All (λ tx. contains (txid p tx) ids ≡ true) txs

  map-AreListed :
      (ids : List ℕ) (txs : List BackpropTx)
      → ((a : ℕ) → contains a (map (txid p) txs) ≡ true → contains a ids ≡ true)
      → AreListed ids txs
  map-AreListed ids [] h = tt
  map-AreListed ids (tx ∷ txs) h = (
    h (txid p tx) (rw (==-refl (txid p tx)) refl),
    map-AreListed ids txs (λ a found. h a (rw found (ground arith))),
  )

  pub sorted-AreListed :
      (txs : List BackpropTx) → AreListed (sorted p.text_le (map (txid p) txs)) txs
  sorted-AreListed txs =
      map-AreListed (sorted p.text_le (map (txid p) txs)) txs
        (λ a found. contains-sorted p.text_le a (map (txid p) txs) ∙ found)

  module _ (total : IsTotal p.text_le) where
    -- The transactions of a proof pass the checks one by one.
    pub check_carried_txs-carried :
        (ids : List ℕ) (height dim : ℕ) (bodies : Dict (List ℤ)) (txs : List BackpropTx)
        → AreListed ids txs
        → All (IsBacked height dim bodies) txs
        → check_carried_txs p ids height (map (carried_tx p) txs) ≡ goes tt
    unfolding check_carried_txs carried_tx
    check_carried_txs-carried ids height dim bodies [] listed backed = refl
    check_carried_txs-carried ids height dim bodies (tx ∷ txs) listed backed =
        given-pass _ (IsBacked-sig height dim bodies tx backed.0) (
          demand-pass _ (rw (txid-carried p total tx) (listed.0)) (
            demand-pass _ (verify-carried p total tx ∙ backed.0.0) (
              demand-pass _ (==-same backed.0.1)
                (check_carried_txs-carried ids height dim bodies txs listed.1 backed.1))))

    -- The part of one claimant's body that lies in the page.
    column-carried :
        (height dim start stop : ℕ) (bodies : Dict (List ℤ)) (sparse : Dict SparseBody)
        (tx : BackpropTx)
        → IsBacked height dim bodies tx
        → ((d : List ℤ)
            → lookup (txid p tx) bodies ≡ some d
            → lookup (txid p tx) sparse ≡ some (sparse_body dim d))
        → column p dim start stop sparse (carried_tx p tx)
          ≡ goes (slice start (stop - start) (get_or (txid p tx) [] bodies))
    unfolding column carried_tx
    column-carried height dim start stop bodies sparse tx
          (signed, based, (d, found, long, fits, hashed), sig) held =
        let read : dense_body (sparse_body dim d) dim ≡ dense d =
          ap (λ n. dense_body (sparse_body n d) n) (sym long) ∙ dense_body-sparse_body d fits in
        present-pass _ _ (ap (λ k. lookup k sparse) (txid-carried p total tx) ∙ held d found) (
          rw read (
            demand-pass _ (==-same hashed) (
              ap (λ b. goes (slice start (stop - start) b))
                (sym (get_or-found (txid p tx) bodies d found)))))

  -- Every sparse body is that of the id's dense body, where both are there.
  abbrev pub Sparsely : ℕ → Dict (List ℤ) → Dict SparseBody → ℕ → Type 0
  Sparsely dim bodies sparse k =
      (d : List ℤ) → lookup k bodies ≡ some d → lookup k sparse ≡ some (sparse_body dim d)

  abbrev pub Claimed : ℕ → ℕ → Dict (List ℤ) → Dict SparseBody → BackpropTx → Type 0
  Claimed dim page_id bodies sparse tx =
      contains page_id (canonical_pages tx) ≡ true → Sparsely dim bodies sparse (txid p tx)

  pub record IsCollected (dim page_id : ℕ) (bodies : Dict (List ℤ)) (before after : Dict SparseBody)
      (txs : List BackpropTx) : Type 0 where
    pub keeps : (k : ℕ) → Sparsely dim bodies before k → Sparsely dim bodies after k
    pub claimed : All (Claimed dim page_id bodies after) txs

  put-Sparsely :
      (dim : ℕ) (bodies : Dict (List ℤ)) (out : Dict SparseBody) (k : ℕ) (d : List ℤ)
      → lookup k bodies ≡ some d
      → (j : ℕ) → (j ≡ k) ⊎ Sparsely dim bodies out j
      → Sparsely dim bodies (put k (sparse_body dim d) out) j
  put-Sparsely dim bodies out k d found j h e at = elim (Bool-cases (j == k)) [
    | inl here ↦
        let one : j ≡ k = ==→eq j k here in
        let equal : some d ≡ some e = sym found ∙ ap (λ i. lookup i bodies) (sym one) ∙ at in
        let equal_d : d ≡ e = cc equal in
        lookup-put j k (sparse_body dim d) out
        ∙ rw here (ap (λ v. some (sparse_body dim v)) equal_d)
    | inr other ↦
        lookup-put j k (sparse_body dim d) out
        ∙ rw other (elim h [ inl one ↦ absurd (==-ne j k other (sym one)) | inr kept ↦ kept e at ])
  ]

  pub claimant_bodies-IsCollected :
      (page_id height dim : ℕ) (bodies : Dict (List ℤ)) (before : Dict SparseBody)
      (txs : List BackpropTx)
      → All (IsBacked height dim bodies) txs
      → (after : Dict SparseBody) × (claimant_bodies p dim page_id txs bodies before ≡ some after)
        × IsCollected dim page_id bodies before after txs
  unfolding claimant_bodies
  claimant_bodies-IsCollected page_id height dim bodies before [] backed =
      (before, refl, record { keeps = λ k h. h; claimed = tt })
  claimant_bodies-IsCollected page_id height dim bodies before (tx ∷ txs) backed =
      elim (Bool-cases (contains page_id (canonical_pages tx))) [
        | inl claimant ↦
            let id = txid p tx in
            let (signed, based, (d, found, long, fits, hashed), sig) = backed.0 in
            let (after, e, rest) =
              claimant_bodies-IsCollected page_id height dim bodies
                (put id (sparse_body dim d) before) txs backed.1 in
            (
              after,
              rw (claimant, claimant_bodies, found) e,
              record {
                keeps = λ k h. rest.keeps k (put-Sparsely dim bodies before id d found k (inr h));
                claimed = (
                  λ c. rest.keeps id (put-Sparsely dim bodies before id d found id (inl refl)),
                  rest.claimed,
                );
              },
            )
        | inr idle ↦
            let (after, e, rest) =
              claimant_bodies-IsCollected page_id height dim bodies before txs backed.1 in
            (
              after,
              rw (idle, claimant_bodies) e,
              record { keeps = rest.keeps; claimed = (λ c. absurd (clash c idle), rest.claimed) },
            )
      ]

  -- The columns of a proof are those that the paged transition averages.
  pub columns-carried :
      (total : IsTotal p.text_le) (page_id height dim start stop : ℕ) (bodies : Dict (List ℤ))
      (sparse : Dict SparseBody) (txs : List BackpropTx)
      → All (IsBacked height dim bodies) txs
      → All (Claimed dim page_id bodies sparse) txs
      → columns p (pos page_id) dim start stop sparse (map (carried_tx p) txs)
        ≡ goes (contributors page_id start stop (bodies_of bodies txs) (map canonical_pages txs))
  unfolding columns contributors
  columns-carried total page_id height dim start stop bodies sparse [] backed claimed = refl
  columns-carried total page_id height dim start stop bodies sparse (tx ∷ txs) backed claimed =
      let rest =
        columns-carried total page_id height dim start stop bodies sparse txs backed.1 claimed.1 in
      elim (Bool-cases (contains page_id (canonical_pages tx))) [
        | inl claimant ↦
            let here =
              column-carried total height dim start stop bodies sparse tx backed.0
                (claimed.0 claimant) in
            rw
              (
                ap (contains page_id) (canonical_pages-carried p total tx) ∙ claimant,
                columns,
                here,
                rest,
                claimant,
              )
              refl
        | inr idle ↦
            rw (ap (contains page_id) (canonical_pages-carried p total tx) ∙ idle, columns, idle)
              rest
      ]
