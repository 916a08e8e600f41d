-- ===== src/Github/Records/Entries.antt =====
-- providers/github/src/records.rs: maps with a set of blocked keys, the shape that all of the
-- collection's maps have.
use permesh_providers.Shared.{
  ◌≡◌, refl, inl, inr, Bool, true, false, List, [], ◌∷◌, some, All, Eq, ◌==◌, ==_iff, Bool-cases,
  arith,
}
use permesh_providers.Shared.Map.{Map, get, insert, remove, has, values, retain}

module _ {K V : Type 0} ⦃keys : Eq K⦄ (Fits : K → V → Type 0) where
  -- Every entry fits its key, and no key is blocked.
  abbrev pub IsFree : List K → Map K V → Type 0
  IsFree blocked m = All (λ e. Fits e.0 e.1 × (has e.0 blocked ≡ false)) m

  pub remove-IsFree :
      (k : K) (blocked : List K) (m : Map K V)
      → IsFree blocked m
      → IsFree (k ∷ blocked) (remove k m)
  unfolding remove has
  remove-IsFree k blocked [] h = tt
  remove-IsFree k blocked ((j, v) ∷ m) ((fits, free), later) = elim (Bool-cases (j == k)) [
    | inl e ↦ rw e (remove-IsFree k blocked m later)
    | inr e ↦ rw e (
      (
        fits,
        elim (Bool-cases (k == j)) [
          | inl e' ↦ ground (arith, ==_iff k j, ==_iff j k)
          | inr e' ↦ rw e' free
        ],
      ),
      remove-IsFree k blocked m later,
    )
  ]

  remove-keeps :
      (k : K) (blocked : List K) (m : Map K V) → IsFree blocked m → IsFree blocked (remove k m)
  unfolding remove
  remove-keeps k blocked [] h = tt
  remove-keeps k blocked ((j, v) ∷ m) (first, later) = elim (Bool-cases (j == k)) [
    | inl e ↦ rw e (remove-keeps k blocked m later)
    | inr e ↦ rw e (first, remove-keeps k blocked m later)
  ]

  pub insert-IsFree :
      (k : K) (v : V) (blocked : List K) (m : Map K V)
      → Fits k v
      → has k blocked ≡ false
      → IsFree blocked m
      → IsFree blocked (insert k v m)
  unfolding insert
  insert-IsFree k v blocked m fits free h = ((fits, free), remove-keeps k blocked m h)

  pub get-Fits :
      (k : K) (v : V) (blocked : List K) (m : Map K V)
      → IsFree blocked m
      → get k m ≡ some v
      → Fits k v
  unfolding get
  get-Fits k v blocked [] h e = cc
  get-Fits k v blocked ((j, w) ∷ m) ((fits, free), later) e = elim (Bool-cases (j == k)) [
    | inl same ↦ ground (arith, ==_iff j k)
    | inr other ↦ get-Fits k v blocked m later (rw other at e)
  ]

  pub get-free :
      (k : K) (v : V) (blocked : List K) (m : Map K V)
      → IsFree blocked m
      → get k m ≡ some v
      → has k blocked ≡ false
  unfolding get
  get-free k v blocked [] h e = cc
  get-free k v blocked ((j, w) ∷ m) ((fits, free), later) e = elim (Bool-cases (j == k)) [
    | inl same ↦ ground (arith, ==_iff j k)
    | inr other ↦ get-free k v blocked m later (rw other at e)
  ]

  -- The values are those that fit a key that is not blocked.
  pub values_free :
      (blocked : List K) (m : Map K V)
      → IsFree blocked m
      → All (λ v. (k : K) × Fits k v × (has k blocked ≡ false)) (values m)
  values_free blocked [] h = tt
  values_free blocked ((k, v) ∷ m) (first, later) =
      ((k, first.0, first.1), values_free blocked m later)

module _ {K V : Type 0} where
  pub retain-All : (p : V → Bool) (m : Map K V) → All (λ v. p v ≡ true) (values (retain p m))
  retain-All p [] = tt
  retain-All p ((k, v) ∷ m) = elim (Bool-cases (p v)) [
    | inl e ↦ rw e (e, retain-All p m)
    | inr e ↦ rw e (retain-All p m)
  ]

  pub retain_everything : (p : V → Bool) (m : Map K V) → ((v : V) → p v ≡ true) → retain p m ≡ m
  retain_everything p [] h = refl
  retain_everything p ((k, v) ∷ m) h =
      let here = h v in let rest = retain_everything p m h in rw (here, rest) refl
