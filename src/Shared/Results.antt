-- ===== src/Shared/Results.antt =====
-- Rust's `Result`: errors as values, with the bind of the `?` operator.

use mathlib.Core.Path.{◌≡◌, refl, subst}
use mathlib.Core.List.{List, [], ◌∷◌}
use permesh_providers.Shared.Lists.{All}
use mathlib.Core.Logic.{◌⊎◌, inl, inr}
use mathlib.Core.Bool.{Bool, true, false}
use mathlib.Core.Option.{Option, none, some}

pub data Result {ℓ κ} (E : Type κ) (A : Type ℓ) : Type (ℓ ⊔ κ) where
  ok : A → Result E A
  err : E → Result E A

infixl 5 ◌>>=◌ ◌>>◌
abbrev pub ◌>>=◌ {ℓ κ μ} :
    {E : Type μ} {A : Type ℓ} {B : Type κ} → Result E A → (A → Result E B) → Result E B
ok a >>= f = f a
err e >>= f = err e

abbrev pub ◌>>◌ {ℓ μ} : {E : Type μ} {B : Type ℓ} → Result E (Unit {0}) → Result E B → Result E B
ok a >> k = k
err e >> k = err e

-- An early return with the error when the test fails.
abbrev pub ensure {μ} : {E : Type μ} → Bool → E → Result E (Unit {0})
ensure true e = ok tt
ensure false e = err e

-- `ok_or`.
abbrev pub ok_or {ℓ μ} : {E : Type μ} {A : Type ℓ} → Option A → E → Result E A
ok_or none e = err e
ok_or (some a) e = ok a

abbrev pub is_ok {ℓ μ} : {E : Type μ} {A : Type ℓ} → Result E A → Bool
is_ok (ok a) = true
is_ok (err e) = false

pub Result-cases {ℓ μ} :
    {E : Type μ} {A : Type ℓ} (r : Result E A) → ((a : A) × (r ≡ ok a)) ⊎ ((e : E) × (r ≡ err e))
Result-cases (ok a) = inl (a, refl)
Result-cases (err e) = inr (e, refl)

pub ok_injective {ℓ μ} :
    {E : Type μ} {A : Type ℓ} {a b : A} → ◌≡◌ {A = Result E A} (ok a) (ok b) → a ≡ b
ok_injective e = cc

-- What the result of a bind says of its parts.
pub >>=-ok {ℓ κ μ} :
    {E : Type μ} {A : Type ℓ} {B : Type κ} (r : Result E A) (f : A → Result E B) (b : B)
    → (r >>= f) ≡ ok b
    → (a : A) × (r ≡ ok a) × (f a ≡ ok b)
>>=-ok (ok a) f b e = (a, refl, e)
>>=-ok (err x) f b e = absurd (cc)

pub ensure-ok {μ} :
    {E : Type μ} (test : Bool) (e : E) (u : Unit {0}) → ensure test e ≡ ok u → test ≡ true
ensure-ok true e u h = refl
ensure-ok false e u h = absurd (cc)

-- A loop that passes its state on, up to the first error.
abbrev pub each {ℓ κ μ} :
    {E : Type μ} {A : Type ℓ} {S : Type κ} → (A → S → Result E S) → List A → S → Result E S
each f [] s = ok s
each f (a ∷ items) s = f a s >>= λ s'. each f items s'

-- A loop keeps what each round keeps, and each of its rounds was gone through.
pub each-ok {ℓ κ μ ν ρ} :
    {E : Type μ} {A : Type ℓ} {S : Type κ} (P : S → Type ν) (Q : A → Type ρ)
    (f : A → S → Result E S)
    → ((a : A) (s s' : S) → P s → f a s ≡ ok s' → P s' × Q a)
    → (items : List A) (s s' : S) → P s
    → each f items s ≡ ok s'
    → P s' × All Q items
each-ok P Q f round [] s s' h e = (subst P (ok_injective e) h, tt)
each-ok P Q f round (a ∷ items) s s' h e =
    let (s₁, first, rest) = >>=-ok (f a s) (λ t. each f items t) s' e in
    let (h₁, q) = round a s s₁ h first in
    let (h', qs) = each-ok P Q f round items s₁ s' h₁ rest in (h', (q, qs))

-- In a loop that goes on with its state, what a round gives and nothing takes back holds at the end.
pub each-lasts {ℓ κ μ ν ρ} :
    {E : Type μ} {A : Type ℓ} {S : Type κ} (R : S → S → Type ν) (Q : A → S → Type ρ)
    (f : A → S → Result E S)
    → ((s : S) → R s s)
    → ((s t u : S) → R s t → R t u → R s u)
    → ((a : A) (s t : S) → R s t → Q a s → Q a t)
    → ((a : A) (s t : S) → f a s ≡ ok t → R s t × Q a t)
    → (items : List A) (s t : S) → each f items s ≡ ok t
    → R s t × All (λ a. Q a t) items
each-lasts R Q f same next stays round [] s t e = (subst (R s) (ok_injective e) (same s), tt)
each-lasts R Q f same next stays round (a ∷ items) s t e =
    let (u, first, rest) = >>=-ok (f a s) (λ v. each f items v) t e in
    let (r, q) = round a s u first in
    let (r', qs) = each-lasts R Q f same next stays round items u t rest in
    (next s u t r r', (stays a u t r' q, qs))
