-- ===== src/Crypto/Frame.antt =====
-- A framed preimage determines its fields, for `frame` of rig/crypto.py.
use sestrian.Base.{ℕ, ◌<◌, ◌≡◌, refl, List, [], ◌∷◌, ◌++◌, arith, length, All}
use sestrian.Crypto.{frame, pack_u32}

-- A field whose length fits the prefix of four bytes.
abbrev pub IsShort : List ℕ → Type 0
IsShort p = length p < 4_294_967_296

cons-injective {ℓ} : {A : Type ℓ} {x y : A} {xs ys : List A} → x ∷ xs ≡ y ∷ ys → (x ≡ y) × (xs ≡ ys)
cons-injective h = (cc, cc)

pack-injective :
    (m n : ℕ) (r s : List ℕ)
    → m < 4_294_967_296
    → n < 4_294_967_296
    → pack_u32 m ++ r ≡ pack_u32 n ++ s
    → (m ≡ n) × (r ≡ s)
pack-injective m n r s hm hn e =
    let a = cons-injective e in
    let b = cons-injective a.1 in
    let c = cons-injective b.1 in
    let d = cons-injective c.1 in (omega (arith, a.0, b.0, c.0, d.0), d.1)

append-injective {ℓ} :
    {A : Type ℓ} (p q r s : List A) → length p ≡ length q → p ++ r ≡ q ++ s → (p ≡ q) × (r ≡ s)
append-injective [] [] r s h e = (refl, e)
append-injective [] (y ∷ q) r s h e = absurd (omega arith)
append-injective (x ∷ p) [] r s h e = absurd (omega arith)
append-injective (x ∷ p) (y ∷ q) r s h e =
    let c = cons-injective e in
    let ih = append-injective p q r s (omega arith) c.1 in (cc (c.0, ih.0), ih.1)

-- Two lists of fields, each shorter than 2 ** 32 bytes, with one framed image are the same list.
pub frame_injective :
    (ps qs : List (List ℕ)) → All IsShort ps → All IsShort qs → frame ps ≡ frame qs → ps ≡ qs
unfolding frame
frame_injective [] [] hp hq e = refl
frame_injective [] (q ∷ qs) hp hq e = cc
frame_injective (p ∷ ps) [] hp hq e = cc
frame_injective (p ∷ ps) (q ∷ qs) hp hq e =
    let a = pack-injective (length p) (length q) (p ++ frame ps) (q ++ frame qs) hp.0 hq.0 e in
    let b = append-injective p q (frame ps) (frame qs) a.0 a.1 in
    let ih = frame_injective ps qs hp.1 hq.1 b.1 in cc (b.0, ih)
