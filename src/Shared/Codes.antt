-- ===== src/Shared/Codes.antt =====
-- The loop of the providers' `limitations`: each text's code, each code once.
use permesh_providers.Shared.Tests.{if◌then◌else◌, Bool-cases}
use permesh_providers.Shared.Lists.{All, any}
use permesh_providers.Shared.Equality.{◌==◌, ==_sound, ==_refl, string_eq}
use Prim.Native.String.{String}
use mathlib.Core.Path.{◌≡◌, sym, subst}
use mathlib.Core.Logic.{inl, inr}
use mathlib.Core.Bool.{Bool, true, false}
use mathlib.Core.List.{List, [], ◌∷◌, ◌++◌}
use native.Mathlib.Omega.{arith}

-- A text among others.
abbrev pub among : String → List String → Bool
among value = any (λ v. v == value)

-- `code_of`: the code of a text. `seen`: the codes so far.
unfoldable pub codes_from : (String → String) → List String → List String → List String
codes_from code_of seen [] = seen
codes_from code_of seen (value ∷ values) =
    let code = code_of value in
    codes_from code_of (if among code seen then seen else seen ++ code ∷ []) values

pub among-append :
    (value : String) (front back : List String)
    → among value front ≡ true
    → among value (front ++ back) ≡ true
among-append value [] back h = absurd (cc)
among-append value (v ∷ front) back h = ground (arith, among-append value front back)

pub among_end : (value : String) (front : List String) → among value (front ++ value ∷ []) ≡ true
among_end value [] = ground (arith, ==_refl value)
among_end value (v ∷ front) = ground (arith, among_end value front)

-- What holds of each text of a list, and of a text that is none of them.
pub among_cases {ℓ} :
    (P : String → Type ℓ) (known : List String) (code : String)
    → All P known
    → (All (λ k. (code == k) ≡ false) known → P code)
    → P code
among_cases P [] code held other = other tt
among_cases P (k ∷ known) code (here, later) other = elim (Bool-cases (code == k)) [
  | inl e ↦ subst P (sym (==_sound e)) here
  | inr e ↦ among_cases P known code later (λ rest. other (e, rest))
]

module _ (code_of : String → String) where
  codes_from-seen :
      (code : String) (seen values : List String)
      → among code seen ≡ true
      → among code (codes_from code_of seen values) ≡ true
  unfolding codes_from
  codes_from-seen code seen [] h = h
  codes_from-seen code seen (value ∷ values) h = elim (Bool-cases (among (code_of value) seen)) [
    | inl old ↦ rw (old, codes_from) (codes_from-seen code seen values h)
    | inr fresh ↦
        rw (fresh, codes_from)
          (codes_from-seen code (seen ++ code_of value ∷ []) values
            (among-append code seen (code_of value ∷ []) h))
  ]

  -- The code of each text is there.
  pub codes_from-among :
      (value : String) (seen values : List String)
      → among value values ≡ true
      → among (code_of value) (codes_from code_of seen values) ≡ true
  unfolding codes_from
  codes_from-among value seen [] h = absurd (cc)
  codes_from-among value seen (v ∷ values) h =
      let code = code_of v in
      let seen' = if among code seen then seen else seen ++ code ∷ [] in
      elim (Bool-cases (v == value)) [
        | inl e ↦
            let is : v ≡ value = ==_sound e in
            let noted : among code seen' ≡ true = elim (Bool-cases (among code seen)) [
              | inl old ↦ rw old old
              | inr fresh ↦ rw fresh (among_end code seen)
            ] in
            rw (sym is) (codes_from-seen code seen' values noted)
        | inr e ↦ codes_from-among value seen' values (ground arith)
      ]
