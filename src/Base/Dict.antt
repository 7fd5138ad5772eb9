-- ===== src/Base/Dict.antt =====
-- Python's `dict`, keyed by texts (numbers that stand for texts), in insertion order.
use Prim.Native.Nat.{ℕ, ◌+◌}
use mathlib.Core.Path.{◌≡◌, refl, sym, ◌∙◌}
use mathlib.Core.Logic.{◌≢◌, ◌⊎◌}
use mathlib.Core.Bool.{Bool, true, false}
use mathlib.Core.Option.{Option, none, some}
use mathlib.Core.List.{List, [], ◌∷◌}
use native.Mathlib.Omega.{arith}
use mathlib.Core.Path.{subst}
use mathlib.Core.Logic.{inl, inr}
use sestrian.Base.Tests.{◌==◌, if◌then◌else◌, Bool-cases, ==-ne, ==→eq}
use sestrian.Base.Lists.{contains}

abbrev pub Dict {ℓ} : Type ℓ → Type ℓ
Dict V = List (ℕ × V)

module _ {ℓ} {V : Type ℓ} where
  -- `k in d`
  abbrev pub has : ℕ → Dict V → Bool
  has k [] = false
  has k ((j, v) ∷ d) = if k == j then true else has k d

  -- `d.get(k)`
  abbrev pub lookup : ℕ → Dict V → Option V
  lookup k [] = none
  lookup k ((j, v) ∷ d) = if k == j then some v else lookup k d

  -- `d.get(k, default)`
  abbrev pub get_or : ℕ → V → Dict V → V
  get_or k x [] = x
  get_or k x ((j, v) ∷ d) = if k == j then v else get_or k x d

  -- `d[k] = v`: an old key keeps its place, a new one goes last.
  abbrev pub put : ℕ → V → Dict V → Dict V
  put k v [] = (k, v) ∷ []
  put k v ((j, w) ∷ d) = if k == j then (j, v) ∷ d else (j, w) ∷ put k v d

  -- `del d[k]`
  abbrev pub remove : ℕ → Dict V → Dict V
  remove k [] = []
  remove k ((j, w) ∷ d) = if k == j then d else (j, w) ∷ remove k d

  abbrev pub keys : Dict V → List ℕ
  keys [] = []
  keys ((j, v) ∷ d) = j ∷ keys d

  abbrev pub values : Dict V → List V
  values [] = []
  values ((j, v) ∷ d) = v ∷ values d

  -- The sum of a measure over the values.
  abbrev pub sum_by : (V → ℕ) → Dict V → ℕ
  sum_by f [] = 0
  sum_by f ((j, v) ∷ d) = f v + sum_by f d

  -- The measure of one key's value, 0 where the key is missing.
  abbrev pub weight_at : (V → ℕ) → ℕ → Dict V → ℕ
  weight_at f k [] = 0
  weight_at f k ((j, v) ∷ d) = if k == j then f v else weight_at f k d

  pub lookup-put_self : (k : ℕ) (v : V) (d : Dict V) → lookup k (put k v d) ≡ some v
  lookup-put_self k v [] = ground arith
  lookup-put_self k v ((j, w) ∷ d) = ground (arith, lookup-put_self k v d)

  pub lookup-put_ne : (i k : ℕ) (v : V) (d : Dict V) → i ≢ k → lookup i (put k v d) ≡ lookup i d
  lookup-put_ne i k v [] h = ground arith
  lookup-put_ne i k v ((j, w) ∷ d) h = ground (arith, lookup-put_ne i k v d h)

  pub lookup-put :
      (i k : ℕ) (v : V) (d : Dict V)
      → lookup i (put k v d) ≡ (if i == k then some v else lookup i d)
  lookup-put i k v [] = refl
  lookup-put i k v ((j, w) ∷ d) = ground (arith, lookup-put i k v d)

  pub get_or-put :
      (i k : ℕ) (x v : V) (d : Dict V)
      → get_or i x (put k v d) ≡ (if i == k then v else get_or i x d)
  get_or-put i k x v [] = refl
  get_or-put i k x v ((j, w) ∷ d) = ground (arith, get_or-put i k x v d)

  pub get_or-put_ne :
      (i k : ℕ) (x v : V) (d : Dict V) → i ≢ k → get_or i x (put k v d) ≡ get_or i x d
  get_or-put_ne i k x v [] h = ground arith
  get_or-put_ne i k x v ((j, w) ∷ d) h = ground (arith, get_or-put_ne i k x v d h)

  pub get_or-put_self : (k : ℕ) (x v : V) (d : Dict V) → get_or k x (put k v d) ≡ v
  get_or-put_self k x v [] = ground arith
  get_or-put_self k x v ((j, w) ∷ d) = ground (arith, get_or-put_self k x v d)

  pub lookup-remove_ne : (i k : ℕ) (d : Dict V) → i ≢ k → lookup i (remove k d) ≡ lookup i d
  lookup-remove_ne i k [] h = refl
  lookup-remove_ne i k ((j, w) ∷ d) h = ground (arith, lookup-remove_ne i k d h)

  pub sum-put :
      (f : V → ℕ) (k : ℕ) (v : V) (d : Dict V)
      → sum_by f (put k v d) + weight_at f k d ≡ sum_by f d + f v
  sum-put f k v [] = ground arith
  sum-put f k v ((j, w) ∷ d) = ground (arith, sum-put f k v d)

  pub sum-remove :
      (f : V → ℕ) (k : ℕ) (d : Dict V) → sum_by f (remove k d) + weight_at f k d ≡ sum_by f d
  sum-remove f k [] = ground arith
  sum-remove f k ((j, w) ∷ d) = ground (arith, sum-remove f k d)

  pub weight-lookup :
      (f : V → ℕ) (k : ℕ) (v : V) (d : Dict V) → lookup k d ≡ some v → weight_at f k d ≡ f v
  weight-lookup f k v [] h = ground arith
  weight-lookup f k v ((j, w) ∷ d) h = ground (arith, weight-lookup f k v d)

  pub weight-missing : (f : V → ℕ) (k : ℕ) (d : Dict V) → lookup k d ≡ none → weight_at f k d ≡ 0
  weight-missing f k [] h = refl
  weight-missing f k ((j, w) ∷ d) h = ground (arith, weight-missing f k d)

  pub has-lookup : (k : ℕ) (d : Dict V) → has k d ≡ false → lookup k d ≡ none
  has-lookup k [] h = refl
  has-lookup k ((j, w) ∷ d) h = ground (arith, has-lookup k d)

-- Every value of the dict has the property.
abbrev pub AllValues {ℓ κ} : {V : Type ℓ} → (V → Type κ) → Dict V → Type κ
AllValues P [] = Unit
AllValues P ((j, v) ∷ d) = P v × AllValues P d

module _ {ℓ κ} {V : Type ℓ} (P : V → Type κ) where
  pub AllValues-remove : (k : ℕ) (d : Dict V) → AllValues P d → AllValues P (remove k d)
  AllValues-remove k [] h = h
  AllValues-remove k ((j, w) ∷ d) h = elim (Bool-cases (k == j)) [
    | inl same_key ↦ rw same_key h.1
    | inr other ↦ rw other (h.0, AllValues-remove k d h.1)
  ]

  pub AllValues-put : (k : ℕ) (v : V) (d : Dict V) → AllValues P d → P v → AllValues P (put k v d)
  AllValues-put k v [] h pv = (pv, h)
  AllValues-put k v ((j, w) ∷ d) h pv = elim (Bool-cases (k == j)) [
    | inl same_key ↦ rw same_key (pv, h.1)
    | inr other ↦ rw other (h.0, AllValues-put k v d h.1 pv)
  ]

  pub AllValues-lookup : (k : ℕ) (v : V) (d : Dict V) → AllValues P d → lookup k d ≡ some v → P v
  AllValues-lookup k v [] h e = absurd (cc e)
  AllValues-lookup k v ((j, w) ∷ d) h e = elim (Bool-cases (k == j)) [
    | inl same_key ↦ subst P (ground arith) h.0
    | inr other ↦ AllValues-lookup k v d h.1 (ground arith)
  ]

  pub AllValues-map {μ} :
      (Q : V → Type μ) (d : Dict V) → ((v : V) → P v → Q v) → AllValues P d → AllValues Q d
  AllValues-map Q [] f h = tt
  AllValues-map Q ((j, w) ∷ d) f h = (f w h.0, AllValues-map Q d f h.1)

-- No key stands twice, as in every dict that Python builds.
abbrev pub Distinct {ℓ} : {V : Type ℓ} → Dict V → Type ℓ
Distinct [] = Unit
Distinct ((j, v) ∷ d) = (lookup j d ≡ none) × Distinct d

module _ {ℓ} {V : Type ℓ} where
  pub put-Distinct : (k : ℕ) (v : V) (d : Dict V) → Distinct d → Distinct (put k v d)
  put-Distinct k v [] h = (refl, h)
  put-Distinct k v ((j, w) ∷ d) h = elim (Bool-cases (k == j)) [
    | inl same_key ↦ rw same_key h
    | inr other ↦ rw other (lookup-put_ne j k v d (==-ne k j other) ∙ h.0, put-Distinct k v d h.1)
  ]

  pub remove-Distinct : (k : ℕ) (d : Dict V) → Distinct d → Distinct (remove k d)
  remove-Distinct k [] h = h
  remove-Distinct k ((j, w) ∷ d) h = elim (Bool-cases (k == j)) [
    | inl same_key ↦ rw same_key h.1
    | inr other ↦ rw other (lookup-remove_ne j k d (==-ne k j other) ∙ h.0, remove-Distinct k d h.1)
  ]

  pub lookup-remove_self : (k : ℕ) (d : Dict V) → Distinct d → lookup k (remove k d) ≡ none
  lookup-remove_self k [] h = refl
  lookup-remove_self k ((j, w) ∷ d) h = ground (arith, lookup-remove_self k d h.1)

  -- The keys list exactly what a lookup finds.
  pub contains-keys : (k : ℕ) (d : Dict V) → contains k (keys d) ≡ false → lookup k d ≡ none
  contains-keys k [] h = refl
  contains-keys k ((j, w) ∷ d) h = ground (arith, contains-keys k d)

-- A dict of numbers read with the default 0.
abbrev pub same : ℕ → ℕ
same n = n

pub weight-same : (k : ℕ) (d : Dict ℕ) → weight_at same k d ≡ get_or k 0 d
weight-same k [] = refl
weight-same k ((j, w) ∷ d) = ground (arith, weight-same k d)

module _ {ℓ} {V : Type ℓ} where
  -- What a dict holds after an assignment is the new value or an old one.
  pub put-cases :
      (i k : ℕ) (v : V) (d : Dict V) {x : V}
      → lookup i (put k v d) ≡ some x
      → ((i ≡ k) × (v ≡ x)) ⊎ ((i ≢ k) × (lookup i d ≡ some x))
  put-cases i k v d {x} h = elim (Bool-cases (i == k)) [
    | inl same_key ↦
        let found = lookup-put i k v d in
        inl (==→eq i k same_key, ground (arith, found, same_key, h))
    | inr other ↦ inr (
      λ e. ==-ne i k other (sym e),
      sym (lookup-put_ne i k v d (λ e. ==-ne i k other (sym e))) ∙ h,
    )
  ]

  pub has-lookup_none : (k : ℕ) (d : Dict V) (x : V) → has k d ≡ false → lookup k d ≢ some x
  has-lookup_none k d x h e = let missing = has-lookup k d h in cc (missing, e)
