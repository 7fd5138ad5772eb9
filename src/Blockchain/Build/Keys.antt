-- ===== src/Blockchain/Build/Keys.antt =====
-- The dicts that `build_block` makes: their keys are the deltas' ids, and their bodies the pool's.
use sestrian.Base.{
  ℕ, ◌≡◌, refl, sym, ap, ◌∙◌, ◌≢◌, Bool, true, false, ◌&&◌, ◌||◌, Option, none, some, List, [], ◌∷◌,
  map, if◌then◌else◌, ◌==◌, ==→eq, Bool-cases, ==-ne, inl, inr, contains, all, All, arith,
}
use sestrian.Base.Int.{ℤ}
use sestrian.Base.Dict.{Dict, lookup, has, get_or, put, keys, lookup-put}
use sestrian.Platform.{Platform}
use sestrian.Crypto.{BackpropTx, txid}
use sestrian.Blockchain.Ledger.{committed_scores}
use sestrian.Blockchain.Checks.{Mode, same_set, check_tx, check_txs}
use sestrian.Blockchain.Validate.{body_list}
use sestrian.Blockchain.Build.{carried, committed_sketches}

-- The keys after an assignment.
add_key : ℕ → List ℕ → List ℕ
add_key k [] = k ∷ []
add_key k (j ∷ ks) = if k == j then j ∷ ks else j ∷ add_key k ks

add_keys : List ℕ → List ℕ → List ℕ
unfolding add_key
add_keys [] ks = ks
add_keys (k ∷ more) ks = add_keys more (add_key k ks)

keys-put {ℓ} : {V : Type ℓ} (k : ℕ) (v : V) (d : Dict V) → keys (put k v d) ≡ add_key k (keys d)
unfolding add_key
keys-put k v [] = refl
keys-put k v ((j, x) ∷ d) = elim (Bool-cases (k == j)) [
  | inl same ↦ rw same refl
  | inr other ↦ rw other (ap (λ ks. j ∷ ks) (keys-put k v d))
]

contains-add_key : (a k : ℕ) (ks : List ℕ) → contains a (add_key k ks) ≡ (a == k || contains a ks)
unfolding add_key
contains-add_key a k [] = refl
contains-add_key a k (j ∷ ks) = ground (arith, contains-add_key a k ks)

contains-add_keys :
    (a : ℕ) (more ks : List ℕ) → contains a (add_keys more ks) ≡ (contains a more || contains a ks)
unfolding add_keys
contains-add_keys a [] ks = refl
contains-add_keys a (k ∷ more) ks =
    ground (arith, contains-add_keys a more (add_key k ks), contains-add_key a k ks)

all-contains :
    (xs ys : List ℕ)
    → ((a : ℕ) → contains a xs ≡ true → contains a ys ≡ true)
    → all (λ x. contains x ys) xs ≡ true
all-contains [] ys h = refl
all-contains (x ∷ xs) ys h =
    let here : contains x ys ≡ true = h x (ground arith) in
    let later : all (λ z. contains z ys) xs ≡ true =
      all-contains xs ys (λ a k. h a (or_later (a == x) k)) in
    rw (here, later) refl
  where
    or_later : (b : Bool) {c : Bool} → c ≡ true → (b || c) ≡ true
    or_later true e = refl
    or_later false e = e

or_false : (b : Bool) → (b || false) ≡ b
or_false true = refl
or_false false = refl

same_set-add_keys : (ids : List ℕ) → same_set (add_keys ids []) ids ≡ true
same_set-add_keys ids =
    let same : (a : ℕ) → contains a (add_keys ids []) ≡ contains a ids =
      λ a. contains-add_keys a ids [] ∙ or_false (contains a ids) in
    let down = all-contains (add_keys ids []) ids (λ a h. sym (same a) ∙ h) in
    let up = all-contains ids (add_keys ids []) (λ a h. same a ∙ h) in rw (down, up) refl

module _ (p : Platform) where
  keys-committed_scores :
      (txs : List BackpropTx) (scores out : Dict ℤ)
      → keys (committed_scores p txs scores out) ≡ add_keys (map (txid p) txs) (keys out)
  unfolding committed_scores add_keys
  keys-committed_scores [] scores out = refl
  keys-committed_scores (tx ∷ txs) scores out =
      keys-committed_scores txs scores _
      ∙ ap (add_keys (map (txid p) txs)) (keys-put (txid p tx) _ out)

  keys-committed_sketches :
      (txs : List BackpropTx) (sketches out : Dict (List ℤ))
      → keys (committed_sketches p txs sketches out) ≡ add_keys (map (txid p) txs) (keys out)
  unfolding committed_sketches add_keys
  keys-committed_sketches [] sketches out = refl
  keys-committed_sketches (tx ∷ txs) sketches out =
      keys-committed_sketches txs sketches _
      ∙ ap (add_keys (map (txid p) txs)) (keys-put (txid p tx) _ out)

  pub committed_scores-same_set :
      (txs : List BackpropTx) (scores : Dict ℤ)
      → same_set (keys (committed_scores p txs scores [])) (map (txid p) txs) ≡ true
  committed_scores-same_set txs scores =
      rw (keys-committed_scores txs scores []) (same_set-add_keys (map (txid p) txs))

  pub committed_sketches-same_set :
      (txs : List BackpropTx) (sketches : Dict (List ℤ))
      → same_set (keys (committed_sketches p txs sketches [])) (map (txid p) txs) ≡ true
  committed_sketches-same_set txs sketches =
      rw (keys-committed_sketches txs sketches []) (same_set-add_keys (map (txid p) txs))

-- The bodies of some deltas are the same in both dicts.
abbrev pub SameBodies : Dict (List ℤ) → Dict (List ℤ) → List BackpropTx → Type 0
SameBodies xs ys = All (λ (tx : BackpropTx). lookup tx.da_pointer xs ≡ lookup tx.da_pointer ys)

abbrev has_body : Dict (List ℤ) → BackpropTx → Bool
has_body bodies tx = has tx.da_pointer bodies

lookup-get_or : (k : ℕ) (d : Dict (List ℤ)) → has k d ≡ true → lookup k d ≡ some (get_or k [] d)
lookup-get_or k [] h = cc h
lookup-get_or k ((j, v) ∷ d) h = elim (Bool-cases (k == j)) [
  | inl same ↦ rw same refl
  | inr other ↦ rw other (lookup-get_or k d (rw other at h))
]

and_both : (b c : Bool) → (b && c) ≡ true → (b ≡ true) × (c ≡ true)
and_both true c h = (refl, h)
and_both false c h = cc h

-- One more carried body: it is the pool's, and the others stay.
carried-put :
    (k j : ℕ) (bodies out : Dict (List ℤ))
    → has j bodies ≡ true
    → (k ≢ j → lookup k out ≡ lookup k bodies)
    → lookup k (put j (get_or j [] bodies) out) ≡ lookup k bodies
carried-put k j bodies out h c = elim (Bool-cases (k == j)) [
  | inl same ↦
      lookup-put k j _ out
      ∙ rw same (sym (ap (λ i. lookup i bodies) (==→eq k j same) ∙ lookup-get_or j bodies h))
  | inr other ↦ lookup-put k j _ out ∙ rw other (c (λ e. ==-ne k j other (sym e)))
]

carried-keeps :
    (txs : List BackpropTx) (k : ℕ) (bodies out : Dict (List ℤ))
    → all (has_body bodies) txs ≡ true
    → lookup k out ≡ lookup k bodies
    → lookup k (carried txs bodies out) ≡ lookup k bodies
unfolding carried
carried-keeps [] k bodies out h c = c
carried-keeps (tx ∷ txs) k bodies out h c =
    let (here, later) = and_both (has tx.da_pointer bodies) (all (has_body bodies) txs) h in
    carried-keeps txs k bodies _ later (carried-put k tx.da_pointer bodies out here (λ _. c))

pub carried-SameBodies :
    (txs : List BackpropTx) (bodies out : Dict (List ℤ))
    → all (has_body bodies) txs ≡ true
    → SameBodies (carried txs bodies out) bodies txs
unfolding carried
carried-SameBodies [] bodies out h = tt
carried-SameBodies (tx ∷ txs) bodies out h =
    let (here, later) = and_both (has tx.da_pointer bodies) (all (has_body bodies) txs) h in
    (
      carried-keeps txs tx.da_pointer bodies _ later
          (carried-put tx.da_pointer tx.da_pointer bodies out here (λ e. absurd (e refl))),
      carried-SameBodies txs bodies _ later,
    )

pub check_txs-SameBodies :
    (p : Platform) (mode : Mode) (dim height : ℕ) (xs ys : Dict (List ℤ)) (txs : List BackpropTx)
    → SameBodies xs ys txs
    → check_txs p mode dim height xs txs ≡ check_txs p mode dim height ys txs
unfolding check_txs check_tx
check_txs-SameBodies p mode dim height xs ys [] h = refl
check_txs-SameBodies p mode dim height xs ys (tx ∷ txs) h =
    rw (h.0, check_txs-SameBodies p mode dim height xs ys txs h.1) refl

get_or-lookup :
    (k : ℕ) (xs ys : Dict (List ℤ)) → lookup k xs ≡ lookup k ys → get_or k [] xs ≡ get_or k [] ys
get_or-lookup k xs ys h = get_or-of k xs ∙ ap of h ∙ sym (get_or-of k ys)
  where
    of : Option (List ℤ) → List ℤ
    of none = []
    of (some v) = v

    get_or-of : (k : ℕ) (d : Dict (List ℤ)) → get_or k [] d ≡ of (lookup k d)
    get_or-of k [] = refl
    get_or-of k ((j, v) ∷ d) = elim (Bool-cases (k == j)) [
      | inl same ↦ rw same refl
      | inr other ↦ rw other (get_or-of k d)
    ]

pub body_list-SameBodies :
    (p : Platform) (xs ys : Dict (List ℤ)) (txs : List BackpropTx)
    → SameBodies xs ys txs
    → body_list p xs txs ≡ body_list p ys txs
unfolding body_list
body_list-SameBodies p xs ys [] h = refl
body_list-SameBodies p xs ys (tx ∷ txs) h =
    rw (get_or-lookup tx.da_pointer xs ys h.0, body_list-SameBodies p xs ys txs h.1) refl
