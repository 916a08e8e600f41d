-- ===== src/Cloudflare/Values.antt =====
-- `serde_json::Value`, by the methods that providers/cloudflare calls.
use permesh_providers.Shared.{ℕ, ◌≡◌, Bool, true, List, Option, String}

-- `keys`: the keys of an object. `same`: `==`, an equivalence that may hold of
-- values that print differently. `text`:
-- `to_string`. `from_slice`, at this type.
pub record Json : Type 1 where
  pub Value : Type 0
  pub get : Value → String → Option Value
  pub as_str : Value → Option String
  pub as_u64 : Value → Option ℕ
  pub as_bool : Value → Option Bool
  pub as_array : Value → Option (List Value)
  pub keys : Value → Option (List String)
  pub text : Value → String
  pub from_slice : List ℕ → Option Value
  pub same : Value → Value → Bool
  pub same_refl : (v : Value) → same v v ≡ true
  pub same_sym : (v w : Value) → same v w ≡ true → same w v ≡ true
  pub same_trans : (v w x : Value) → same v w ≡ true → same w x ≡ true → same v x ≡ true
