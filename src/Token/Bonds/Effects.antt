-- ===== src/Token/Bonds/Effects.antt =====
-- What each account gets and gives when bonds of rig/token.py are locked and returned.
use sestrian.Base.{
  ℕ, ◌+◌, ◌-◌, ◌≡◌, refl, sym, ap, ◌∙◌, true, false, ◌&&◌, Option, none, some, inl, inr, Bool-cases,
  Option-cases, List, [], ◌∷◌, if◌then◌else◌, ltb, leb, ◌==◌, contains, ==→eq, ==-ne, arith,
}
use sestrian.Base.Int.{ℤ, pos, pos_part}
use sestrian.Base.Dict.{
  Dict, lookup, get_or, remove, keys, sum_by, weight_at, Distinct, sum-remove, weight-lookup,
  remove-Distinct, lookup-remove_self, lookup-remove_ne, contains-keys, lookup-put, get_or-put,
}
use sestrian.Base.Sort.{sorted, contains-sorted}
use sestrian.Platform.{Platform}
use sestrian.Token.Types.{TokenLedger, Bond}
use sestrian.Token.Emission.{bond_window}
use sestrian.Token.Account.{credit, credited, holdings, bond_amount}
use sestrian.Token.Transfer.{debit}
use sestrian.Token.Bonds.{
  drop_bond, put_bond, settle_bond, settle_bonds, resolve_expired_bonds, lock_bond,
  resolve_expired_bonds-holdings, lock_bond-total,
}

-- The bonds that are left at a height.
abbrev pub unmatured : ℕ → Option Bond → Option Bond
unmatured height none = none
unmatured height (some b) = if leb b.expiry height then none else some b

-- What a bond returns to an account at a height.
abbrev pub returned : ℕ → ℕ → Bond → ℕ
returned height miner b = if leb b.expiry height && b.miner == miner then b.amount else 0

unmatured_twice :
    (height : ℕ) (o : Option Bond) → unmatured height (unmatured height o) ≡ unmatured height o
unmatured_twice height none = refl
unmatured_twice height (some b) = ground arith

balance-credit :
    (m a n : ℕ) (led : TokenLedger)
    → get_or m 0 (credit a (pos n) led).balances
      ≡ get_or m 0 led.balances + (if a == m then n else 0)
unfolding credit credited
balance-credit m a n led =
    ground (arith, get_or-put m a 0 (get_or a 0 led.balances + n) led.balances)

module _ (height : ℕ) where
  settle_bond-bonds :
      (tid : ℕ) (led : TokenLedger)
      → Distinct led.bonds
      → Distinct (settle_bond height tid led).bonds
        × ((k : ℕ)
            → lookup k (settle_bond height tid led).bonds
              ≡ (if k == tid then unmatured height (lookup k led.bonds) else lookup k led.bonds))
  unfolding settle_bond drop_bond credit
  settle_bond-bonds tid led d = elim (Option-cases (lookup tid led.bonds)) [
    | inl missing ↦ rw (missing, settle_bond) (d, λ k. missing_key k missing)
    | inr (b, found) ↦ elim (Bool-cases (leb b.expiry height)) [
      | inl mature ↦
          rw (found, settle_bond, mature)
            (remove-Distinct tid led.bonds d, λ k. removed k b found mature)
      | inr early ↦ rw (found, settle_bond, early) (d, λ k. kept k b found early)
    ]
  ]
    where
      missing_key :
          (k : ℕ)
          → lookup tid led.bonds ≡ none
          → lookup k led.bonds
            ≡ (if k == tid then unmatured height (lookup k led.bonds) else lookup k led.bonds)
      missing_key k missing = elim (Bool-cases (k == tid)) [
        | inl same ↦ rw (same, ==→eq k tid same, missing) refl
        | inr other ↦ rw other refl
      ]

      removed :
          (k : ℕ) (b : Bond)
          → lookup tid led.bonds ≡ some b
          → leb b.expiry height ≡ true
          → lookup k (remove tid led.bonds)
            ≡ (if k == tid then unmatured height (lookup k led.bonds) else lookup k led.bonds)
      removed k b found mature = elim (Bool-cases (k == tid)) [
        | inl same ↦ rw (same, ==→eq k tid same, found, mature) (lookup-remove_self tid led.bonds d)
        | inr other ↦ rw other (lookup-remove_ne k tid led.bonds (λ e. ==-ne k tid other (sym e)))
      ]

      kept :
          (k : ℕ) (b : Bond)
          → lookup tid led.bonds ≡ some b
          → leb b.expiry height ≡ false
          → lookup k led.bonds
            ≡ (if k == tid then unmatured height (lookup k led.bonds) else lookup k led.bonds)
      kept k b found early = elim (Bool-cases (k == tid)) [
        | inl same ↦ rw (same, ==→eq k tid same, found, early) refl
        | inr other ↦ rw other refl
      ]

  settle_bond-balance :
      (m tid : ℕ) (led : TokenLedger)
      → let led' = settle_bond height tid led in
        get_or m 0 led'.balances + sum_by (returned height m) led'.bonds
        ≡ get_or m 0 led.balances + sum_by (returned height m) led.bonds
  unfolding settle_bond drop_bond credit
  settle_bond-balance m tid led = elim (Option-cases (lookup tid led.bonds)) [
    | inl missing ↦ rw (missing, settle_bond) refl
    | inr (b, found) ↦ elim (Bool-cases (leb b.expiry height)) [
      | inl mature ↦
          let due : returned height m b ≡ (if b.miner == m then b.amount else 0) = rw mature refl in
          rw (found, settle_bond, mature)
            (omega (
              arith,
              due,
              weight-lookup (returned height m) tid b led.bonds found,
              sum-remove (returned height m) tid led.bonds,
              balance-credit m b.miner b.amount led,
            ))
      | inr early ↦ rw (found, settle_bond, early) refl
    ]
  ]

  settle_bonds-bonds :
      (tids : List ℕ) (led : TokenLedger)
      → Distinct led.bonds
      → Distinct (settle_bonds height tids led).bonds
        × ((k : ℕ)
            → lookup k (settle_bonds height tids led).bonds ≡ (
                if contains k tids
                then unmatured height (lookup k led.bonds)
                else lookup k led.bonds))
  unfolding settle_bonds
  settle_bonds-bonds [] led d = (d, λ k. refl)
  settle_bonds-bonds (t ∷ ts) led d =
      let (d', one) = settle_bond-bonds t led d in
      let (d'', rest) = settle_bonds-bonds ts (settle_bond height t led) d' in
      (d'', λ k. ground (arith, rest k, one k, unmatured_twice height (lookup k led.bonds)))

  settle_bonds-balance :
      (m : ℕ) (tids : List ℕ) (led : TokenLedger)
      → let led' = settle_bonds height tids led in
        get_or m 0 led'.balances + sum_by (returned height m) led'.bonds
        ≡ get_or m 0 led.balances + sum_by (returned height m) led.bonds
  unfolding settle_bonds
  settle_bonds-balance m [] led = refl
  settle_bonds-balance m (t ∷ ts) led =
      settle_bonds-balance m ts (settle_bond height t led) ∙ settle_bond-balance m t led

  -- Bonds of which none is due return nothing.
  none_due :
      (m : ℕ) (bonds : Dict Bond)
      → Distinct bonds
      → ((k : ℕ) → unmatured height (lookup k bonds) ≡ lookup k bonds)
      → sum_by (returned height m) bonds ≡ 0
  none_due m [] d h = refl
  none_due m ((j, b) ∷ bonds) d h =
      let here : unmatured height (some b) ≡ some b = first (h j) in
      omega (arith, due_nothing here, none_due m bonds d.1 (λ k. later k (h k)))
    where
      first :
          unmatured height (lookup j ((j, b) ∷ bonds)) ≡ lookup j ((j, b) ∷ bonds)
          → unmatured height (some b) ≡ some b
      first e = ground (arith, e)

      due_nothing : unmatured height (some b) ≡ some b → returned height m b ≡ 0
      due_nothing e = ground (arith, e)

      later :
          (k : ℕ)
          → unmatured height (lookup k ((j, b) ∷ bonds)) ≡ lookup k ((j, b) ∷ bonds)
          → unmatured height (lookup k bonds) ≡ lookup k bonds
      later k e = elim (Bool-cases (k == j)) [
        | inl same ↦ rw (==→eq k j same, d.0) refl
        | inr other ↦ rw other at e
      ]

-- Returning matured bonds, of a dict in which no key stands twice: a bond that is not due stays as it
-- is, and one that is due is gone; each account gets the sum of its bonds that were due, and the
-- ledger holds the same total.
pub resolve_expired_bonds-returns :
    (p : Platform) (height m tid : ℕ) (led : TokenLedger)
    → Distinct led.bonds
    → let led' = resolve_expired_bonds p height led in
      (lookup tid led'.bonds ≡ unmatured height (lookup tid led.bonds))
      × (get_or m 0 led'.balances ≡ get_or m 0 led.balances + sum_by (returned height m) led.bonds)
      × (holdings led' ≡ holdings led)
unfolding resolve_expired_bonds
resolve_expired_bonds-returns p height m tid led d =
    let tids = sorted p.text_le (keys led.bonds) in
    let (d', at) = settle_bonds-bonds height tids led d in
    let left : (k : ℕ)
        → lookup k (settle_bonds height tids led).bonds ≡ unmatured height (lookup k led.bonds) =
      λ k. at k ∙ listed k in
    (
      left tid,
      omega (
        arith,
        settle_bonds-balance height m tids led,
        none_due height m (settle_bonds height tids led).bonds d' (λ k.
            ap (unmatured height) (left k)
            ∙ unmatured_twice height (lookup k led.bonds)
            ∙ sym (left k)),
      ),
      resolve_expired_bonds-holdings p height led,
    )
  where
    listed :
        (k : ℕ)
        → (if contains k (sorted p.text_le (keys led.bonds))
            then unmatured height (lookup k led.bonds)
            else lookup k led.bonds)
          ≡ unmatured height (lookup k led.bonds)
    listed k = elim (Bool-cases (contains k (keys led.bonds))) [
      | inl there ↦ rw (contains-sorted p.text_le k (keys led.bonds), there) refl
      | inr absent ↦
          rw
            (contains-sorted p.text_le k (keys led.bonds), absent, contains-keys k led.bonds absent)
            refl
    ]

-- Locking a bond succeeds exactly where the miner's balance covers its amount (an amount of 0 or less
-- always does, and locks nothing). It takes the amount from the miner's balance and from no other,
-- enters the bond with its miner, amount and expiry under the transaction's id and changes no other,
-- and a refusal changes no balance and no bond. The ledger holds the same total, less the amount of
-- the bond that was already locked under the id, which is overwritten and lost.
pub lock_bond-locks :
    (txid miner : ℕ) (amount : ℤ) (height m tid : ℕ) (led : TokenLedger)
    → let a = pos_part amount in
      let led' = (lock_bond txid miner amount height led).0 in
      let ok = (lock_bond txid miner amount height led).1 in
      let locks = ok && ltb 0 a in
      (ok ≡ leb a (get_or miner 0 led.balances))
      × (get_or m 0 led'.balances + (if ok && m == miner then a else 0) ≡ get_or m 0 led.balances)
      × (lookup tid led'.bonds ≡ (
          if locks && tid == txid
          then some (record { miner = miner; amount = a; expiry = height + bond_window })
          else lookup tid led.bonds))
      × (holdings led' + (if locks then weight_at bond_amount txid led.bonds else 0) ≡ holdings led)
unfolding lock_bond put_bond debit
lock_bond-locks txid miner amount height m tid led = (
  ground arith,
  ground (arith, get_or-put m miner 0 (get_or miner 0 led.balances - pos_part amount) led.balances),
  ground (
    arith,
    lookup-put tid txid
        (record { miner = miner; amount = pos_part amount; expiry = height + bond_window })
        led.bonds,
  ),
  lock_bond-total txid miner amount height led,
)
