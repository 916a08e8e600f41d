-- ===== src/Shared/Equality.antt =====
-- Types whose equality the program tests, and the operator for it.
use Prim.Native.String.{String}
use mathlib.Core.Path.{◌≡◌, refl, sym, ap, ap₂, ◌∙◌}
use mathlib.Core.Logic.{◌↔◌}
use mathlib.Core.List.{List, [], ◌∷◌}
use mathlib.Core.Bool.{Bool, true, false, ◌&&◌, and-eq-true_iff}
use text.Mathlib.Text.{◌==◌ as str_eq}
use text.Mathlib.TextEquality.{eq_iff}

pub record Eq {ℓ} (A : Type ℓ) : Type ℓ where
  pub same : A → A → Bool
  pub same_sound : {x y : A} → same x y ≡ true → x ≡ y
  pub same_refl : (x : A) → same x x ≡ true

module _ {ℓ} {A : Type ℓ} ⦃instances : Eq A⦄ where
  infix 50 ◌==◌
  abbrev pub ◌==◌ : A → A → Bool
  x == y = instances.same x y

  pub ==_refl : (x : A) → (x == x) ≡ true
  ==_refl = instances.same_refl

  pub ==_sound : {x y : A} → (x == y) ≡ true → x ≡ y
  ==_sound = instances.same_sound

  pub ==_iff : (x y : A) → ((x == y) ≡ true) ↔ (x ≡ y)
  ==_iff x y = (==_sound, λ e. ap (λ z. x == z) (sym e) ∙ ==_refl x)

instance abbrev pub string_eq : Eq String
string_eq = record {
  same = str_eq;
  same_sound = λ {x} {y} h. (eq_iff x y).0 h;
  same_refl = λ s. (eq_iff s s).1 refl;
}

module _ {ℓ} {A B : Type ℓ} ⦃left : Eq A⦄ ⦃right : Eq B⦄ where
  abbrev pub same_pair : A × B → A × B → Bool
  same_pair (x, y) (x', y') = (x == x') && (y == y')

  pub same_pair_sound : (p q : A × B) → same_pair p q ≡ true → p ≡ q
  same_pair_sound (x, y) (x', y') h =
      let both = (and-eq-true_iff (x == x') (y == y')).0 h in
      ap₂ (λ l r. (l, r)) (==_sound both.0) (==_sound both.1)

  pub same_pair_refl : (p : A × B) → same_pair p p ≡ true
  same_pair_refl (x, y) = (and-eq-true_iff (x == x) (y == y)).1 (==_refl x, ==_refl y)

  instance abbrev pub pair_eq : Eq (A × B)
  pair_eq = record {
    same = same_pair;
    same_sound = λ {x} {y} h. same_pair_sound x y h;
    same_refl = same_pair_refl;
  }

module _ {ℓ} {A : Type ℓ} ⦃items : Eq A⦄ where
  abbrev pub same_list : List A → List A → Bool
  same_list [] [] = true
  same_list (x ∷ xs) (y ∷ ys) = (x == y) && same_list xs ys
  same_list _ _ = false

  pub same_list_sound : (xs ys : List A) → same_list xs ys ≡ true → xs ≡ ys
  same_list_sound [] [] h = refl
  same_list_sound [] (y ∷ ys) h = cc
  same_list_sound (x ∷ xs) [] h = cc
  same_list_sound (x ∷ xs) (y ∷ ys) h =
      let both = (and-eq-true_iff (x == y) (same_list xs ys)).0 h in
      ap₂ (λ z zs. z ∷ zs) (==_sound both.0) (same_list_sound xs ys both.1)

  pub same_list_refl : (xs : List A) → same_list xs xs ≡ true
  same_list_refl [] = refl
  same_list_refl (x ∷ xs) =
      (and-eq-true_iff (x == x) (same_list xs xs)).1 (==_refl x, same_list_refl xs)

  instance abbrev pub list_eq : Eq (List A)
  list_eq = record {
    same = same_list;
    same_sound = λ {x} {y} h. same_list_sound x y h;
    same_refl = same_list_refl;
  }
