-- ===== src/Shared/Map.antt =====
-- `BTreeMap` and `BTreeSet` as association lists, used through the laws below. The order of the
-- keys is not modelled: where the program walks a map it goes on to sort what it gathered.
use mathlib.Core.Path.{◌≡◌, ap₂, subst}
use mathlib.Core.Logic.{inl, inr}
use mathlib.Core.Bool.{Bool, false, ◌||◌}
use mathlib.Core.Option.{Option, none, some}
use mathlib.Core.List.{List, [], ◌∷◌}
use native.Mathlib.Omega.{arith}
use permesh_providers.Shared.Tests.{if◌then◌else◌, Bool-cases}
use permesh_providers.Shared.Lists.{All}
use permesh_providers.Shared.Equality.{Eq, ◌==◌, ==_iff}

abbrev pub Map {ℓ} : Type ℓ → Type ℓ → Type ℓ
Map K V = List (K × V)

module _ {ℓ} {K V : Type ℓ} ⦃e : Eq K⦄ where
  unfoldable pub get : K → Map K V → Option V
  get k [] = none
  get k ((j, v) ∷ m) = if j == k then some v else get k m

  -- What each entry has, the entry of a key has.
  pub get-All {κ} :
      (Q : K × V → Type κ) (m : Map K V) (k : K) (v : V) → All Q m → get k m ≡ some v → Q (k, v)
  unfolding get
  get-All Q [] k v h e = absurd (cc)
  get-All Q ((j, w) ∷ m) k v (here, later) e = elim (Bool-cases (j == k)) [
    | inl same ↦
        let at_key : j ≡ k = (==_iff j k).0 same in
        let at_value : w ≡ v = ground arith in
        subst (λ p. Q p) (ap₂ (λ x y. (x, y)) at_key at_value) here
    | inr other ↦ get-All Q m k v later (ground arith)
  ]

  unfoldable pub remove : K → Map K V → Map K V
  remove k [] = []
  remove k ((j, v) ∷ m) = let rest = remove k m in if j == k then rest else (j, v) ∷ rest

  unfoldable pub insert : K → V → Map K V → Map K V
  unfolding remove
  insert k v m = (k, v) ∷ remove k m

  pub get-remove : (k j : K) (m : Map K V) → get j (remove k m) ≡ (if k == j then none else get j m)
  unfolding get remove
  get-remove k j [] = ground arith
  get-remove k j ((i, v) ∷ m) = ground (arith, get-remove k j m, ==_iff i k, ==_iff i j, ==_iff k j)

  pub get-insert :
      (k j : K) (v : V) (m : Map K V) → get j (insert k v m) ≡ (if k == j then some v else get j m)
  unfolding get insert
  get-insert k j v m = ground (arith, get-remove k j m)

  -- `BTreeMap::insert`: the entries stand in the order of their keys, by `before`.
  unfoldable pub put : (K → K → Bool) → K → V → Map K V → Map K V
  put before k v [] = (k, v) ∷ []
  put before k v ((j, w) ∷ m) =
      let rest = put before k v m in
      if j == k then (k, v) ∷ m else if before j k then (j, w) ∷ rest else (k, v) ∷ (j, w) ∷ m

  pub get-put :
      (before : K → K → Bool) (k j : K) (v : V) (m : Map K V)
      → get j (put before k v m) ≡ (if k == j then some v else get j m)
  unfolding get put
  get-put before k j v [] = ground arith
  get-put before k j v ((i, w) ∷ m) =
      ground (arith, get-put before k j v m, ==_iff i k, ==_iff i j, ==_iff k j)

module _ {ℓ} {K : Type ℓ} ⦃e : Eq K⦄ where
  unfoldable pub has : K → List K → Bool
  has k [] = false
  has k (j ∷ s) = j == k || has k s

module _ {ℓ} {K V : Type ℓ} where
  -- `into_values`.
  abbrev pub values : Map K V → List V
  values [] = []
  values ((k, v) ∷ m) = v ∷ values m

  -- `retain`, of a test that does not look at the key.
  abbrev pub retain : (V → Bool) → Map K V → Map K V
  retain p [] = []
  retain p ((k, v) ∷ m) = if p v then (k, v) ∷ retain p m else retain p m
