-- ===== src/Cloudflare/Fields.antt =====
-- providers/cloudflare/src/records.rs: the fields of a row, read with their limits.
use permesh_providers.Shared.{
  ℕ, Bool, not, ◌&&◌, ◌||◌, Option, none, some, String, leb, eqb, if◌then◌else◌, all, any, codes,
  byte_len, is_control, Result, ok, err, ◌==◌, string_eq,
}
use permesh_providers.Runtime.Response.{ProviderError}
use permesh_providers.Cloudflare.Values.{Json}
use permesh_providers.Cloudflare.Errors.{error}

-- A digit or one of a to f.
is_hex : ℕ → Bool
is_hex c = (leb b'0' c && leb c b'9') || (leb b'a' c && leb c b'f')

unfoldable pub native_id : String → Bool
unfolding is_hex
native_id id = eqb (byte_len id) 32 && all is_hex (codes id)

-- A text that is not empty, of at most so many bytes, without control characters.
unfoldable pub is_text : ℕ → String → Bool
is_text limit s = not (s == "") && leb (byte_len s) limit && not (any is_control (codes s))

unfoldable pub text_of : ℕ → Option String → Result ProviderError String
text_of limit none = err (error "malformed")
text_of limit (some s) = if is_text limit s then ok s else err (error "malformed")

module _ (json : Json) where
  open json use {Value, get, as_str}

  unfoldable pub str_at : Value → String → Option String
  str_at v key = elim (get v key) [ none ↦ none | some w ↦ as_str w ]

  unfoldable pub string : Value → String → Result ProviderError String
  string v key = text_of 1024 (str_at v key)

  unfoldable pub id : Value → Result ProviderError String
  id v = elim (string v "id") [
    | err e ↦ err e
    | ok s ↦ if native_id s then ok s else err (error "malformed")
  ]

  -- The value that a member's login stands in.
  unfoldable pub login_value : Value → Option Value
  login_value v = elim (get v "user") [
    | none ↦ get v "email"
    | some u ↦ elim (get u "email") [ none ↦ get v "email" | some w ↦ some w ]
  ]

  unfoldable pub login_of : Value → String → Result ProviderError String
  login_of v key = elim (login_value v) [ none ↦ ok key | some w ↦ text_of 254 (as_str w) ]

  unfoldable pub member : Value → Result ProviderError (String × String × Bool)
  member v = elim (id v) [
    | err e ↦ err e
    | ok key ↦ elim (string v "status") [
      | err e ↦ err e
      | ok status ↦
          if not (status == "accepted" || status == "pending")
          then err (error "malformed")
          else elim (login_of v key) [
            | err e ↦ err e
            | ok login ↦ ok (key, login, status == "accepted")
          ]
    ]
  ]
