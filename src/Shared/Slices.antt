-- ===== src/Shared/Slices.antt =====
-- Cutting a list in two, and overwriting a stretch of it.
use Prim.Native.Nat.{ℕ, zero, suc, ◌+◌, ◌-◌, ◌≤◌}
use mathlib.Core.Path.{◌≡◌, refl, ap}
use mathlib.Core.List.{List, [], ◌∷◌, ◌++◌}
use native.Mathlib.Omega.{arith}
use permesh_providers.Shared.Lists.{
  length, take, drop, replicate, length-append, length-take, length-replicate,
}

module _ {ℓ} {A : Type ℓ} where
  pub drop-append_length : (n : ℕ) (xs ys : List A) → length xs ≡ n → drop n (xs ++ ys) ≡ ys
  drop-append_length zero [] ys h = refl
  drop-append_length zero (x ∷ xs) ys h = absurd (omega arith)
  drop-append_length (suc n) [] ys h = absurd (omega arith)
  drop-append_length (suc n) (x ∷ xs) ys h = drop-append_length n xs ys (omega arith)

  pub drop-length : (xs : List A) → drop (length xs) xs ≡ []
  drop-length [] = refl
  drop-length (x ∷ xs) = drop-length xs

  pub take-append_length : (n : ℕ) (xs ys : List A) → length xs ≡ n → take n (xs ++ ys) ≡ xs
  take-append_length zero [] ys h = refl
  take-append_length zero (x ∷ xs) ys h = absurd (omega arith)
  take-append_length (suc n) [] ys h = absurd (omega arith)
  take-append_length (suc n) (x ∷ xs) ys h =
      ap (λ zs. x ∷ zs) (take-append_length n xs ys (omega arith))

  drop_nil : (n : ℕ) → drop {A = A} n [] ≡ []
  drop_nil zero = refl
  drop_nil (suc n) = refl

  take_nil : (n : ℕ) → take {A = A} n [] ≡ []
  take_nil zero = refl
  take_nil (suc n) = refl

  pub drop-drop : (m n k : ℕ) (xs : List A) → m + n ≡ k → drop n (drop m xs) ≡ drop k xs
  drop-drop zero n k xs e = let e' : n ≡ k = omega arith in ap (λ j. drop j xs) e'
  drop-drop (suc m) n zero xs e = absurd (omega arith)
  drop-drop (suc m) n (suc k) [] e = drop_nil n
  drop-drop (suc m) n (suc k) (x ∷ xs) e = drop-drop m n k xs (omega arith)

  pub take-drop : (m n k : ℕ) (xs : List A) → m + n ≡ k → take n (drop m xs) ≡ drop m (take k xs)
  take-drop zero n k xs e = let e' : n ≡ k = omega arith in ap (λ j. take j xs) e'
  take-drop (suc m) n zero xs e = absurd (omega arith)
  take-drop (suc m) n (suc k) [] e = take_nil n
  take-drop (suc m) n (suc k) (x ∷ xs) e = take-drop m n k xs (omega arith)

  -- The list with the `c` elements from place `s` on replaced by `v`.
  pub drop-overwrite :
      (s c : ℕ) (v : A) (xs : List A)
      → s + c ≤ length xs
      → drop (s + c) (take s xs ++ replicate c v ++ drop (s + c) xs) ≡ drop (s + c) xs
  drop-overwrite s c v xs h =
      drop-append_length (s + c) (take s xs ++ replicate c v) (drop (s + c) xs) (
        omega (
          arith,
          length-append (take s xs) (replicate c v),
          length-take s xs,
          length-replicate c v,
        ))

  pub take-overwrite :
      (s c : ℕ) (v : A) (xs : List A)
      → s + c ≤ length xs
      → take (s + c) (take s xs ++ replicate c v ++ drop (s + c) xs) ≡ take s xs ++ replicate c v
  take-overwrite s c v xs h =
      take-append_length (s + c) (take s xs ++ replicate c v) (drop (s + c) xs) (
        omega (
          arith,
          length-append (take s xs) (replicate c v),
          length-take s xs,
          length-replicate c v,
        ))

  pub length-drop : (n : ℕ) (xs : List A) → length (drop n xs) ≡ length xs - n
  length-drop zero xs = omega arith
  length-drop (suc n) [] = omega arith
  length-drop (suc n) (x ∷ xs) = omega (arith, length-drop n xs)

  pub length-overwrite :
      (s c : ℕ) (v : A) (xs : List A)
      → s + c ≤ length xs
      → length (take s xs ++ replicate c v ++ drop (s + c) xs) ≡ length xs
  length-overwrite s c v xs h = omega (
    arith,
    length-append (take s xs ++ replicate c v) (drop (s + c) xs),
    length-append (take s xs) (replicate c v),
    length-take s xs,
    length-replicate c v,
    length-drop (s + c) xs,
  )
