-- ===== src/Github/Config/Distinct.antt =====
-- providers/github/src/lib.rs: the organizations of a provider are distinct, also but for case.
use permesh_providers.Shared.{
  ℕ, ◌≡◌, refl, sym, ap, ◌∙◌, inl, inr, Bool, true, false, ◌||◌, List, [], ◌∷◌, String, any, ok,
  Result, Bool-cases, arith, map, codes,
}
use permesh_providers.Shared.Strings.{precedes, same_codes, eq_ignore_ascii_case, to_lower}
use permesh_providers.Runtime.Response.{ProviderError}
use permesh_providers.Github.Config.{
  is_configured, fold_case, insert_by_key, sort_by_key, dedup_behind, dedup, new_provider,
}

true_not_false : ¬ ◌≡◌ {A = Bool} true false
true_not_false e = cc

or_again : (a b : Bool) → (a || b) ≡ (a || (a || b))
or_again a b = ground arith

same_sound : (s t : List ℕ) → same_codes s t ≡ true → s ≡ t
unfolding same_codes
same_sound [] [] h = refl
same_sound (c ∷ s) (d ∷ t) h = ground (arith, same_sound s t)
same_sound [] (d ∷ t) h = cc
same_sound (c ∷ s) [] h = cc

same_if : (s t : List ℕ) → precedes s t ≡ false → precedes t s ≡ false → same_codes s t ≡ true
unfolding precedes same_codes
same_if [] [] h k = refl
same_if [] (d ∷ t) h k = cc
same_if (c ∷ s) [] h k = cc
same_if (c ∷ s) (d ∷ t) h k = ground (arith, same_if s t)

precedes-asymm : (s t : List ℕ) → precedes s t ≡ true → precedes t s ≡ false
unfolding precedes
precedes-asymm [] [] h = refl
precedes-asymm [] (d ∷ t) h = refl
precedes-asymm (c ∷ s) [] h = cc
precedes-asymm (c ∷ s) (d ∷ t) h = ground (arith, precedes-asymm s t)

-- No item precedes the one before it.
abbrev Follows : String → List String → Type 0
Follows x [] = Unit
Follows x (y ∷ rest) = precedes (fold_case y) (fold_case x) ≡ false

abbrev IsSorted : List String → Type 0
IsSorted [] = Unit
IsSorted (x ∷ rest) = Follows x rest × IsSorted rest

-- Each item precedes the next one.
abbrev pub Before : String → List String → Type 0
Before x [] = Unit
Before x (y ∷ rest) = precedes (fold_case x) (fold_case y) ≡ true

abbrev pub IsIncreasing : List String → Type 0
IsIncreasing [] = Unit
IsIncreasing (x ∷ rest) = Before x rest × IsIncreasing rest

insert-Follows :
    (y x : String) (rest : List String)
    → precedes (fold_case x) (fold_case y) ≡ false
    → Follows y rest
    → Follows y (insert_by_key x rest)
unfolding insert_by_key
insert-Follows y x [] h f = h
insert-Follows y x (z ∷ rest) h f = elim (Bool-cases (precedes (fold_case z) (fold_case x))) [
  | inl e ↦ rw e f
  | inr e ↦ rw e h
]

insert-IsSorted : (x : String) (xs : List String) → IsSorted xs → IsSorted (insert_by_key x xs)
unfolding insert_by_key
insert-IsSorted x [] h = (tt, tt)
insert-IsSorted x (y ∷ rest) (f, s) = elim (Bool-cases (precedes (fold_case y) (fold_case x))) [
  | inl e ↦ rw e (
    insert-Follows y x rest (precedes-asymm (fold_case y) (fold_case x) e) f,
    insert-IsSorted x rest s,
  )
  | inr e ↦ rw e (e, (f, s))
]

sort-IsSorted : (xs : List String) → IsSorted (sort_by_key xs)
unfolding sort_by_key
sort-IsSorted [] = tt
sort-IsSorted (x ∷ xs) = insert-IsSorted x (sort_by_key xs) (sort-IsSorted xs)

behind-Before :
    (y last : String) (xs : List String)
    → precedes (fold_case y) (fold_case last) ≡ true
    → Before y (dedup_behind last xs)
unfolding dedup_behind
behind-Before y last [] h = h
behind-Before y last (x ∷ xs) h = elim (Bool-cases (eq_ignore_ascii_case x last)) [
  | inl e ↦ rw e (behind-Before y last xs h)
  | inr e ↦ rw e h
]

Follows-same :
    (last x : String) (xs : List String)
    → fold_case x ≡ fold_case last
    → Follows x xs
    → Follows last xs
Follows-same last x [] e f = tt
Follows-same last x (y ∷ xs) e f = rw (sym e) f

same_fold : (x y : String) → eq_ignore_ascii_case x y ≡ true → fold_case x ≡ fold_case y
unfolding eq_ignore_ascii_case fold_case
same_fold x y h = same_sound _ _ h

fold_same :
    (x y : String) → same_codes (fold_case x) (fold_case y) ≡ true → eq_ignore_ascii_case x y ≡ true
unfolding eq_ignore_ascii_case fold_case
fold_same x y h = h

behind-IsIncreasing :
    (last : String) (xs : List String)
    → Follows last xs
    → IsSorted xs
    → IsIncreasing (dedup_behind last xs)
unfolding dedup_behind
behind-IsIncreasing last [] f s = (tt, tt)
behind-IsIncreasing last (x ∷ xs) f (g, s) = elim (Bool-cases (eq_ignore_ascii_case x last)) [
  | inl e ↦ rw e (behind-IsIncreasing last xs (Follows-same last x xs (same_fold x last e) g) s)
  | inr e ↦
      let before : precedes (fold_case last) (fold_case x) ≡ true =
        elim (Bool-cases (precedes (fold_case last) (fold_case x))) [
          | inl p ↦ p
          | inr p ↦ absurd (true_not_false (sym (fold_same x last (same_if _ _ f p)) ∙ e))
        ] in
      rw e (behind-Before last x xs before, behind-IsIncreasing x xs g s)
]

dedup-IsIncreasing : (xs : List String) → IsSorted xs → IsIncreasing (dedup xs)
unfolding dedup
dedup-IsIncreasing [] s = tt
dedup-IsIncreasing (x ∷ xs) (f, s) = behind-IsIncreasing x xs f s

-- Whether an organization is named, but for case.
abbrev pub names : String → List String → Bool
names o xs = any (λ y. eq_ignore_ascii_case o y) xs

names-insert : (o x : String) (xs : List String) → names o (insert_by_key x xs) ≡ names o (x ∷ xs)
unfolding insert_by_key
names-insert o x [] = refl
names-insert o x (y ∷ rest) = ground (arith, names-insert o x rest)

names-sort : (o : String) (xs : List String) → names o (sort_by_key xs) ≡ names o xs
unfolding sort_by_key
names-sort o [] = refl
names-sort o (x ∷ xs) = names-insert o x (sort_by_key xs) ∙ (let ih = names-sort o xs in rw ih refl)

same_names :
    (o x y : String)
    → fold_case x ≡ fold_case y
    → eq_ignore_ascii_case o x ≡ eq_ignore_ascii_case o y
unfolding eq_ignore_ascii_case fold_case
same_names o x y e = ap (λ k. same_codes (map to_lower (codes o)) k) e

names-behind :
    (o last : String) (xs : List String) → names o (dedup_behind last xs) ≡ names o (last ∷ xs)
unfolding dedup_behind
names-behind o last [] = refl
names-behind o last (x ∷ xs) = elim (Bool-cases (eq_ignore_ascii_case x last)) [
  | inl e ↦
      let same = same_names o x last (same_fold x last e) in
      let rest = names-behind o last xs in
      rw (e, rest, same) (or_again (eq_ignore_ascii_case o last) (names o xs))
  | inr e ↦ let rest = names-behind o x xs in rw (e, rest) refl
]

names-dedup : (o : String) (xs : List String) → names o (dedup xs) ≡ names o xs
unfolding dedup
names-dedup o [] = refl
names-dedup o (x ∷ xs) = names-behind o x xs

-- A provider is built only from an accepted configuration, and asks for organizations whose names
-- increase strictly without regard to case, so no two of them are the same but for case; they are
-- those of the configuration, but for case.
pub new_provider-IsIncreasing :
    {A : Type 0} (client : Result ProviderError A) (id : String) (orgs : List String)
    (token : String) (a : A) (kept : List String)
    → new_provider client id orgs token ≡ ok (a, kept)
    → (is_configured id orgs token ≡ true)
      × (client ≡ ok a)
      × IsIncreasing kept
      × ((o : String) → names o kept ≡ names o orgs)
unfolding new_provider
new_provider-IsIncreasing client id orgs token a kept h =
    let is : kept ≡ dedup (sort_by_key orgs) = ground arith in
    (
      ground arith,
      ground arith,
      rw is (dedup-IsIncreasing (sort_by_key orgs) (sort-IsSorted orgs)),
      λ o. rw is (names-dedup o (sort_by_key orgs) ∙ names-sort o orgs),
    )
