-- ===== src/Shared/Strings.antt =====
-- The methods of `str` that the program calls, and the numbers that it reads from texts.
use Prim.Native.Nat.{ℕ, zero, suc, ◌/◌, ◌%◌, ◌+◌, ◌-◌, ◌*◌, ◌^◌}
use Prim.Native.Char.{code}
use Prim.Native.String.{String}
use mathlib.Core.Bool.{Bool, true, false, ◌&&◌, ◌||◌}
use mathlib.Core.Option.{Option, none, some}
use mathlib.Core.List.{List, [], ◌∷◌, map}
use permesh_providers.Shared.Tests.{ltb, leb, eqb, if◌then◌else◌}
use permesh_providers.Shared.Texts.{codes, is_digit, is_whitespace}
use permesh_providers.Shared.Equality.{◌==◌, string_eq}

infixr 65 ◌+++◌
-- `format!`, of two pieces.
unfoldable pub ◌+++◌ : String → String → String
String.[] +++ t = t
(String.◌∷◌ c s) +++ t = String.◌∷◌ c (s +++ t)

reverse_onto : String → String → String
reverse_onto String.[] t = t
reverse_onto (String.◌∷◌ c s) t = reverse_onto s (String.◌∷◌ c t)

-- The text without the leading characters that pass the test.
strip_start : (ℕ → Bool) → String → String
strip_start p String.[] = String.[]
strip_start p (String.◌∷◌ c s) = if p (code c) then strip_start p s else String.◌∷◌ c s

unfoldable pub trim_by : (ℕ → Bool) → String → String
unfolding reverse_onto strip_start
trim_by p s = reverse_onto (strip_start p (reverse_onto (strip_start p s) String.[])) String.[]

-- `trim`.
unfoldable pub trim : String → String
unfolding trim_by is_whitespace
trim s = trim_by is_whitespace s

-- `trim_matches`, of a character.
unfoldable pub trim_matches : ℕ → String → String
unfolding trim_by
trim_matches c s = trim_by (λ d. eqb d c) s

unfoldable pub strip_prefix : String → String → Option String
strip_prefix String.[] s = some s
strip_prefix (String.◌∷◌ c p) String.[] = none
strip_prefix (String.◌∷◌ c p) (String.◌∷◌ d s) =
    let rest = strip_prefix p s in if eqb (code c) (code d) then rest else none

-- `split_once`, at a character.
unfoldable pub split_once : ℕ → String → Option (String × String)
split_once c String.[] = none
split_once c (String.◌∷◌ d s) =
    let rest = split_once c s in
    if eqb (code d) c
    then some (String.[], s)
    else elim rest [ none ↦ none | some (before, after) ↦ some (String.◌∷◌ d before, after) ]

-- A character before the first of the pieces.
add_first : (String → String) → List String → List String
add_first f [] = f String.[] ∷ []
add_first f (piece ∷ pieces) = f piece ∷ pieces

-- The pieces between the characters that pass the test.
unfoldable pub split_by : (ℕ → Bool) → String → List String
unfolding add_first
split_by p String.[] = String.[] ∷ []
split_by p (String.◌∷◌ c s) =
    let rest = split_by p s in
    if p (code c) then String.[] ∷ rest else add_first (λ t. String.◌∷◌ c t) rest

-- `split`, at a character.
unfoldable pub split : ℕ → String → List String
unfolding split_by
split c s = split_by (λ d. eqb d c) s

non_empty : List String → List String
non_empty [] = []
non_empty (s ∷ pieces) = if s == "" then non_empty pieces else s ∷ non_empty pieces

unfoldable pub split_whitespace : String → List String
unfolding split_by non_empty is_whitespace
split_whitespace s = non_empty (split_by is_whitespace s)

-- `to_ascii_lowercase`, on a code point.
unfoldable pub to_lower : ℕ → ℕ
to_lower c = if leb b'A' c && leb c b'Z' then c + 32 else c

unfoldable pub is_prefix : List ℕ → List ℕ → Bool
is_prefix [] s = true
is_prefix (c ∷ p) [] = false
is_prefix (c ∷ p) (d ∷ s) = eqb c d && is_prefix p s

-- `contains`, on code points.
unfoldable pub contains : List ℕ → List ℕ → Bool
unfolding is_prefix
contains p [] = is_prefix p []
contains p (c ∷ s) = is_prefix p (c ∷ s) || contains p s

unfoldable pub same_codes : List ℕ → List ℕ → Bool
same_codes [] [] = true
same_codes (c ∷ s) (d ∷ t) = eqb c d && same_codes s t
same_codes _ _ = false

unfoldable pub eq_ignore_ascii_case : String → String → Bool
unfolding to_lower same_codes
eq_ignore_ascii_case s t = same_codes (map to_lower (codes s)) (map to_lower (codes t))

-- The number that digits stand for, behind the digits before them.
read_digits : ℕ → List ℕ → Option ℕ
unfolding is_digit
read_digits n [] = some n
read_digits n (c ∷ s) =
    let rest = read_digits (n * 10 + (c - 48)) s in if is_digit c then rest else none

below_2_64 : Option ℕ → Option ℕ
below_2_64 none = none
below_2_64 (some n) = if ltb n (2 ^ 64) then some n else none

unsigned : List ℕ → Option ℕ
unfolding read_digits below_2_64
unsigned [] = none
unsigned (c ∷ s) = below_2_64 (read_digits 0 (c ∷ s))

-- `parse::<u64>`, and `parse::<usize>`: a `+` is accepted before the digits.
unfoldable pub parse_u64 : String → Option ℕ
unfolding unsigned
parse_u64 String.[] = none
parse_u64 (String.◌∷◌ c s) =
    if eqb (code c) b'+' then unsigned (codes s) else unsigned (codes (String.◌∷◌ c s))

-- `<` on strings, by their code points, which are in the order of their bytes.
unfoldable pub precedes : List ℕ → List ℕ → Bool
precedes [] [] = false
precedes [] (d ∷ t) = true
precedes (c ∷ s) [] = false
precedes (c ∷ s) (d ∷ t) = ltb c d || (eqb c d && precedes s t)

digit : ℕ → String
digit n =
    if eqb n 0
    then "0"
    else if eqb n 1
    then "1"
    else if eqb n 2
    then "2"
    else if eqb n 3
    then "3"
    else if eqb n 4
    then "4"
    else if eqb n 5
    then "5"
    else if eqb n 6
    then "6"
    else if eqb n 7
    then "7"
    else if eqb n 8
    then "8"
    else "9"

-- At most so many digits.
digits : ℕ → ℕ → String
unfolding digit
digits zero n = ""
digits (suc f) n =
    let rest = digits f (n / 10) in if ltb n 10 then digit n else rest +++ digit (n % 10)

-- `u64::to_string`. A `u64` has twenty digits at most.
unfoldable pub to_string : ℕ → String
unfolding digits ◌+++◌
to_string n = digits 20 n
