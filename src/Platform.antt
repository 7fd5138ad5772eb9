-- ===== src/Platform.antt =====
-- What the program takes from Python and from its cryptographic libraries. Texts (keys, hashes,
-- addresses, media types) are numbers: the program only compares, orders, encodes and hashes them.
use Prim.Native.String.{String}
use Prim.Native.Char.{code}
use sestrian.Base.{ℕ, Bool, true, List, [], ◌∷◌, ◌++◌, ◌+◌, ◌*◌, leb, ◌==◌}
use sestrian.Base.Int.{ℤ, pos, negsuc}
use sestrian.Base.Json.{
  Json, Items, Fields, number, text, literal, array, object, nil, item, end, field, entry,
}

pub record Platform : Type 0 where
  -- `text.encode()`
  pub encode : ℕ → List ℕ
  -- `str(n).encode()`
  pub decimal : ℤ → List ℕ
  -- `bytes.fromhex(text)`, where it raises no ValueError
  pub fromhex : ℕ → List ℕ
  -- The text is one that `bytes.fromhex` reads, in either case of its letters.
  pub is_hex : ℕ → Bool
  -- `bytes.hex()`
  pub hex : List ℕ → ℕ
  -- `text[:n]`
  pub prefix : ℕ → ℕ → ℕ
  -- `json.dumps(xs, separators=(",", ":")).encode()` of a list of integers
  pub json_ints : List ℤ → List ℕ
  -- `json.dumps(value, sort_keys=True).encode()`, and with `separators=(",", ":")`
  pub dumps_spaced : Json → List ℕ
  pub dumps : Json → List ℕ
  -- `w_int.tobytes()` of an int64 array
  pub tobytes : List ℤ → List ℕ
  -- `"|".join(texts).encode()`
  pub join : List ℕ → List ℕ
  -- the texts `""`, `"text"`, `"genesis"` and `"0" * 64`
  pub zeros : ℕ
  pub blank : ℕ
  pub text_media : ℕ
  pub genesis : ℕ
  -- `a <= b` on texts
  pub text_le : ℕ → ℕ → Bool
  -- `hashlib.sha256(bytes).hexdigest()`
  pub sha256 : List ℕ → ℕ
  -- `int.from_bytes(hashlib.sha256(bytes).digest(), "big")`
  pub digest_int : List ℕ → ℕ
  -- `Ed25519PrivateKey.sign`, by the public key of the pair
  pub sign : ℕ → List ℕ → ℕ
  -- the Ed25519 check behind `crypto.verify`: key, message, signature; an exception counts as false
  pub ed25519 : ℕ → List ℕ → ℕ → Bool

-- The bytes of a literal such as `b"transfer"`.
abbrev pub ascii : String → List ℕ
ascii String.[] = []
ascii (String.◌∷◌ c s) = code c ∷ ascii s

-- Concrete functions, for tests and witnesses.
abbrev mix : List ℕ → ℕ
mix [] = 7
mix (b ∷ bs) = 1000 * mix bs + b

abbrev show : ℤ → List ℕ
show (pos n) = 0 ∷ n ∷ []
show (negsuc n) = 1 ∷ n ∷ []

abbrev show_all : List ℤ → List ℕ
show_all [] = []
show_all (pos n ∷ zs) = 2 * n ∷ show_all zs
show_all (negsuc n ∷ zs) = (2 * n + 1) ∷ show_all zs

-- Concrete JSON.
unfoldable mutual
  pub flat : Json → List ℕ
  flat (number n) = show n
  flat (text t) = t ∷ []
  flat (literal xs) = xs
  flat (array xs) = flat_items xs
  flat (object fs) = flat_fields fs

  pub flat_items : Items → List ℕ
  flat_items nil = []
  flat_items (item x xs) = flat x ++ flat_items xs

  pub flat_fields : Fields → List ℕ
  flat_fields end = []
  flat_fields (field k x fs) = flat x ++ flat_fields fs
  flat_fields (entry k x fs) = k ∷ (flat x ++ flat_fields fs)

abbrev unhexed : List ℕ → ℕ
unhexed [] = 0
unhexed (t ∷ ts) = t

abbrev pub toy : Platform
toy = record {
  encode = λ t. t ∷ [];
  decimal = show;
  fromhex = λ t. t ∷ [];
  is_hex = λ t. true;
  hex = unhexed;
  prefix = λ n t. t;
  json_ints = show_all;
  dumps_spaced = flat;
  dumps = flat;
  tobytes = show_all;
  join = λ texts. texts;
  zeros = 3;
  blank = 0;
  text_media = 2;
  genesis = 1;
  text_le = leb;
  sha256 = mix;
  digest_int = mix;
  sign = λ key message. key;
  ed25519 = λ key message sig. sig == key;
}
