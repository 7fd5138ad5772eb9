-- ===== src/Token/Challenges.antt =====
-- The settlement of data challenges in rig/token.py.
use sestrian.Base.{
  ℕ, ◌+◌, ◌≤◌, ◌≡◌, ◌≢◌, Bool-cases, refl, sym, ◌⊎◌, ◌∙◌, ◌&&◌, Bool, Option, none, some, inl, inr,
  Option-cases, List, [], ◌∷◌, length, if◌then◌else◌, ltb, leb, arith,
}
use mathlib.Core.Path.{subst}
use sestrian.Base.Int.{ℤ, pos}
use sestrian.Base.Dict.{
  lookup, put, remove, keys, sum-put, sum-remove, weight-lookup, weight_at, AllValues,
  AllValues-lookup, AllValues-remove, AllValues-map, lookup-put,
}
use sestrian.Base.Sort.{sorted}
use sestrian.Platform.{Platform}
use sestrian.Token.Types.{TokenLedger, Entry, Challenge, revoked}
use sestrian.Token.Emission.{challenge_quorum}
use sestrian.Token.Account.{credit, holdings, holdings-credit, challenge_stake, entry_stake}

-- `self.registry[data_id] = e`; in Python the entry is changed in place.
unfoldable pub put_entry : ℕ → Entry → TokenLedger → TokenLedger
put_entry data_id e led = record led { registry = put data_id e led.registry }

-- `self.challenges[cid] = ch`
unfoldable pub put_challenge : ℕ → Challenge → TokenLedger → TokenLedger
put_challenge cid ch led = record led { challenges = put cid ch led.challenges }

-- `del self.challenges[cid]`
unfoldable pub drop_challenge : ℕ → TokenLedger → TokenLedger
drop_challenge cid led = record led { challenges = remove cid led.challenges }

-- The quorum rule: enough votes for, and more of them than against.
unfoldable pub upheld : Challenge → Bool
upheld ch =
    leb challenge_quorum (length ch.votes_for)
    && ltb (length ch.votes_against) (length ch.votes_for)

-- Who is paid, before the challenge is deleted.
unfoldable pub settle_stakes : Challenge → Option Entry → TokenLedger → TokenLedger
settle_stakes ch none led = led
settle_stakes ch (some e) led =
    if upheld ch
    then put_entry ch.data_id (record e { stake = 0; status = revoked })
        (credit ch.challenger (pos (e.stake + ch.stake)) led)
    else credit e.owner (pos ch.stake) led

-- One turn of the loop in `resolve_expired_challenges`; its ids are keys of the dict.
unfoldable pub settle_challenge : ℕ → ℕ → TokenLedger → TokenLedger
settle_challenge height cid led = elim (lookup cid led.challenges) [
  | none ↦ led
  | some ch ↦
      if ltb height ch.expiry
      then led
      else drop_challenge cid (settle_stakes ch (lookup ch.data_id led.registry) led)
]

unfoldable pub settle_challenges : ℕ → List ℕ → TokenLedger → TokenLedger
settle_challenges height [] led = led
settle_challenges height (cid ∷ cids) led =
    settle_challenges height cids (settle_challenge height cid led)

-- `TokenLedger.resolve_expired_challenges`
unfoldable pub resolve_expired_challenges : Platform → ℕ → TokenLedger → TokenLedger
unfolding settle_challenges
resolve_expired_challenges p height led =
    settle_challenges height (sorted p.text_le (keys led.challenges)) led

pub holdings-drop_challenge :
    (cid : ℕ) (led : TokenLedger)
    → holdings (drop_challenge cid led) + weight_at challenge_stake cid led.challenges
      ≡ holdings led
unfolding drop_challenge holdings
holdings-drop_challenge cid led = omega (arith, sum-remove challenge_stake cid led.challenges)

pub holdings-put_challenge :
    (cid : ℕ) (ch : Challenge) (led : TokenLedger)
    → holdings (put_challenge cid ch led) + weight_at challenge_stake cid led.challenges
      ≡ holdings led + ch.stake
unfolding put_challenge holdings
holdings-put_challenge cid ch led = omega (arith, sum-put challenge_stake cid ch led.challenges)

pub holdings-put_entry :
    (d : ℕ) (e : Entry) (led : TokenLedger)
    → holdings (put_entry d e led) + weight_at entry_stake d led.registry ≡ holdings led + e.stake
unfolding put_entry holdings
holdings-put_entry d e led = omega (arith, sum-put entry_stake d e led.registry)

registry-credit : (a : ℕ) (z : ℤ) (led : TokenLedger) → (credit a z led).registry ≡ led.registry
unfolding credit
registry-credit a z led = refl

-- Where the entry is known, exactly the challenger's stake enters from outside.
settle_stakes-holdings :
    (ch : Challenge) (e : Entry) (led : TokenLedger)
    → lookup ch.data_id led.registry ≡ some e
    → holdings (settle_stakes ch (some e) led) ≡ holdings led + ch.stake
unfolding settle_stakes
settle_stakes-holdings ch e led found = ground (
  arith,
  weight-lookup entry_stake ch.data_id e led.registry found,
  registry-credit ch.challenger (pos (e.stake + ch.stake)) led,
  holdings-put_entry ch.data_id (record e { stake = 0; status = revoked })
      (credit ch.challenger (pos (e.stake + ch.stake)) led),
  holdings-credit ch.challenger (pos (e.stake + ch.stake)) led,
  holdings-credit e.owner (pos ch.stake) led,
)

challenges-settle_stakes :
    (ch : Challenge) (o : Option Entry) (led : TokenLedger)
    → (settle_stakes ch o led).challenges ≡ led.challenges
unfolding settle_stakes credit put_entry
challenges-settle_stakes ch none led = refl
challenges-settle_stakes ch (some e) led = ground arith

settle_stakes-none : (ch : Challenge) (led : TokenLedger) → settle_stakes ch none led ≡ led
unfolding settle_stakes
settle_stakes-none ch led = refl

-- Every open challenge is about an entry of the registry.
abbrev pub IsBacked : TokenLedger → Type 0
IsBacked led = AllValues (λ ch. lookup ch.data_id led.registry ≢ none) led.challenges

settle_challenge-le :
    (height cid : ℕ) (led : TokenLedger) → holdings (settle_challenge height cid led) ≤ holdings led
unfolding settle_challenge
settle_challenge-le height cid led = elim (Option-cases (lookup cid led.challenges)) [
  | inl missing ↦ ground arith
  | inr (ch, found) ↦ elim (Option-cases (lookup ch.data_id led.registry)) [
    | inl unknown ↦
        ground (
          arith,
          holdings-drop_challenge cid (settle_stakes ch none led),
          settle_stakes-none ch led,
        )
    | inr (e, known) ↦ ground (
      arith,
      weight-lookup challenge_stake cid ch led.challenges found,
      settle_stakes-holdings ch e led known,
      challenges-settle_stakes ch (some e) led,
      holdings-drop_challenge cid (settle_stakes ch (some e) led),
    )
  ]
]

settle_challenge-holdings :
    (height cid : ℕ) (led : TokenLedger)
    → IsBacked led
    → holdings (settle_challenge height cid led) ≡ holdings led
unfolding settle_challenge
settle_challenge-holdings height cid led backed = elim (Option-cases (lookup cid led.challenges)) [
  | inl missing ↦ ground arith
  | inr (ch, found) ↦ elim (Option-cases (lookup ch.data_id led.registry)) [
    | inl unknown ↦ absurd (
        AllValues-lookup (λ c. lookup c.data_id led.registry ≢ none) cid ch led.challenges backed
          found unknown)
    | inr (e, known) ↦ ground (
      arith,
      weight-lookup challenge_stake cid ch led.challenges found,
      settle_stakes-holdings ch e led known,
      challenges-settle_stakes ch (some e) led,
      holdings-drop_challenge cid (settle_stakes ch (some e) led),
    )
  ]
]

-- An entry, once in the registry, stays there.
settle_stakes-keeps :
    (d : ℕ) (ch : Challenge) (o : Option Entry) (led : TokenLedger)
    → lookup d led.registry ≢ none
    → lookup d (settle_stakes ch o led).registry ≢ none
unfolding settle_stakes credit put_entry
settle_stakes-keeps d ch none led h = h
settle_stakes-keeps d ch (some e) led h =
    ground (arith, lookup-put d ch.data_id (record e { stake = 0; status = revoked }) led.registry)

settle_challenge-keeps :
    (d height cid : ℕ) (led : TokenLedger)
    → lookup d led.registry ≢ none
    → lookup d (settle_challenge height cid led).registry ≢ none
unfolding settle_challenge drop_challenge
settle_challenge-keeps d height cid led h = elim (Option-cases (lookup cid led.challenges)) [
  | inl missing ↦ ground arith
  | inr (ch, found) ↦ ground (arith, settle_stakes-keeps d ch (lookup ch.data_id led.registry) led)
]

settle_challenge_open :
    (height cid : ℕ) (led : TokenLedger)
    → let after = (settle_challenge height cid led).challenges in
      (after ≡ led.challenges) ⊎ (after ≡ remove cid led.challenges)
unfolding settle_challenge drop_challenge
settle_challenge_open height cid led = elim (Option-cases (lookup cid led.challenges)) [
  | inl missing ↦ inl (ground arith)
  | inr (ch, found) ↦ elim (Bool-cases (ltb height ch.expiry)) [
    | inl open_still ↦ inl (ground arith)
    | inr closed ↦
        inr (ground (arith, challenges-settle_stakes ch (lookup ch.data_id led.registry) led))
  ]
]

settle_challenge-shrinks :
    (height cid : ℕ) (P : Challenge → Type 0) (led : TokenLedger)
    → AllValues P led.challenges
    → AllValues P (settle_challenge height cid led).challenges
settle_challenge-shrinks height cid P led h = elim (settle_challenge_open height cid led) [
  | inl kept ↦ subst (AllValues P) (sym kept) h
  | inr less ↦ subst (AllValues P) (sym less) (AllValues-remove P cid led.challenges h)
]

pub settle_challenge-IsBacked :
    (height cid : ℕ) (led : TokenLedger) → IsBacked led → IsBacked (settle_challenge height cid led)
settle_challenge-IsBacked height cid led backed =
    settle_challenge-shrinks height cid
      (λ ch. lookup ch.data_id (settle_challenge height cid led).registry ≢ none) led
      (AllValues-map (λ ch. lookup ch.data_id led.registry ≢ none)
        (λ ch. lookup ch.data_id (settle_challenge height cid led).registry ≢ none) led.challenges
        (λ ch. settle_challenge-keeps ch.data_id height cid led) backed)

settle_challenges-le :
    (height : ℕ) (cids : List ℕ) (led : TokenLedger)
    → holdings (settle_challenges height cids led) ≤ holdings led
unfolding settle_challenges
settle_challenges-le height [] led = omega arith
settle_challenges-le height (c ∷ cs) led = omega (
  arith,
  settle_challenges-le height cs (settle_challenge height c led),
  settle_challenge-le height c led,
)

settle_challenges-holdings :
    (height : ℕ) (cids : List ℕ) (led : TokenLedger)
    → IsBacked led
    → (holdings (settle_challenges height cids led) ≡ holdings led)
      × IsBacked (settle_challenges height cids led)
unfolding settle_challenges
settle_challenges-holdings height [] led h = (refl, h)
settle_challenges-holdings height (c ∷ cs) led h =
    let rest =
      settle_challenges-holdings height cs (settle_challenge height c led)
        (settle_challenge-IsBacked height c led h) in
    (rest.0 ∙ settle_challenge-holdings height c led h, rest.1)

-- Settling challenges creates no grains.
pub resolve_expired_challenges-le :
    (p : Platform) (height : ℕ) (led : TokenLedger)
    → holdings (resolve_expired_challenges p height led) ≤ holdings led
unfolding resolve_expired_challenges
resolve_expired_challenges-le p height led =
    settle_challenges-le height (sorted p.text_le (keys led.challenges)) led

-- Where every open challenge is about a registered entry, settling the expired ones moves stakes
-- and loses none, and every challenge left is still about a registered entry.
pub resolve_expired_challenges-holdings :
    (p : Platform) (height : ℕ) (led : TokenLedger)
    → IsBacked led
    → (holdings (resolve_expired_challenges p height led) ≡ holdings led)
      × IsBacked (resolve_expired_challenges p height led)
unfolding resolve_expired_challenges
resolve_expired_challenges-holdings p height led h =
    settle_challenges-holdings height (sorted p.text_le (keys led.challenges)) led h
