-- ===== src/Github/Fields.antt =====
-- providers/github/src/records.rs: the fields that the provider reads from a row, and their tests.
use permesh_providers.Shared.{
  ℕ, List, Bool, not, ◌&&◌, ◌||◌, Option, none, some, String, leb, ltb, eqb, if◌then◌else◌, any,
  all, codes, byte_len, is_alphanumeric, is_whitespace, is_control, ◌==◌, string_eq, is_some,
}
use permesh_providers.Runtime.Domain.{Privilege, standard, elevated, admin}

-- `serde_json::Value`, by the methods that the provider calls: `get` with a key,
-- `as_str`, `as_u64`, the match on `Value::Array`, `is_object`; and `from_slice` at this type.
pub record Json : Type 1 where
  pub Value : Type 0
  pub get : Value → String → Option Value
  pub as_str : Value → Option String
  pub as_u64 : Value → Option ℕ
  pub as_array : Value → Option (List Value)
  pub is_object : Value → Bool
  pub from_slice : List ℕ → Option Value

-- The bytes of a path segment.
is_segment_code : ℕ → Bool
unfolding is_alphanumeric
is_segment_code c = is_alphanumeric c || eqb c b'-' || eqb c b'_' || eqb c b'.'

unfoldable pub safe_segment : String → Bool
unfolding is_segment_code byte_len
safe_segment s =
    not (eqb (byte_len s) 0)
    && leb (byte_len s) 512
    && not (s == ".")
    && not (s == "..")
    && all is_segment_code (codes s)

-- A text that may be shown: not blank, not long, no control character.
unfoldable pub is_field : String → Bool
unfolding byte_len is_whitespace is_control
is_field s =
    not (all is_whitespace (codes s)) && leb (byte_len s) 512 && not (any is_control (codes s))

abbrev pub filter {ℓ} : {A : Type ℓ} → (A → Bool) → Option A → Option A
filter p none = none
filter p (some a) = if p a then some a else none

abbrev pub or_else {ℓ} : {A : Type ℓ} → Option A → Option A → Option A
or_else none b = b
or_else (some a) b = some a

abbrev pub unwrap_or {ℓ} : {A : Type ℓ} → Option A → A → A
unwrap_or none a = a
unwrap_or (some a) b = a

abbrev pub and_then {ℓ κ} : {A : Type ℓ} {B : Type κ} → Option A → (A → Option B) → Option B
and_then none f = none
and_then (some a) f = f a

unfoldable pub privilege : String → Privilege
privilege role =
    if role == "read" || role == "pull" || role == "triage"
    then standard
    else if role == "write" || role == "push" || role == "maintain"
    then elevated
    else if role == "admin"
    then admin
    else Privilege.unknown

module _ (json : Json) where
  open json use {Value, get, as_str, as_u64}

  unfoldable pub native_id : Value → Option ℕ
  native_id v = filter (ltb 0) (and_then (get v "id") as_u64)

  unfoldable pub field : Value → String → Option String
  field v name = filter is_field (and_then (get v name) as_str)

  unfoldable pub repository_role : Value → String
  repository_role v = unwrap_or (or_else (field v "role_name") (field v "permission")) "unknown"

  -- A type that is present but no text.
  unfoldable pub bad_type : Value → Bool
  bad_type v = is_some (get v "type") && not (is_some (field v "type"))
