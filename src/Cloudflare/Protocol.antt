-- ===== src/Cloudflare/Protocol.antt =====
-- providers/cloudflare/src/protocol.rs: the adapter of the Cloudflare provider.
pub mod Published
use permesh_providers.Shared.{
  ℕ, ◌*◌, Bool, true, false, not, ◌&&◌, ◌||◌, List, [], ◌∷◌, ◌++◌, String, leb, if◌then◌else◌, any,
  all, codes, byte_len, ◌==◌, string_eq,
}
use permesh_providers.Shared.Codes.{codes_from}
use permesh_providers.Cloudflare.Errors.{visibility}
use permesh_providers.Cloudflare.Fields.{native_id}

-- `is_ascii_graphic`.
is_graphic : ℕ → Bool
is_graphic c = leb 33 c && leb c 126

unfoldable pub valid_token : String → Bool
unfolding is_graphic
valid_token token =
    not (token == "") && leb (byte_len token) (16 * 1024) && all is_graphic (codes token)

-- `validate`, of the account and the token.
unfoldable pub validate : String → String → Bool
validate account_id token = native_id account_id && valid_token token

unfoldable pub error_code : String → String
error_code code =
    if code == "configuration"
    then "protocol_error"
    else if code == "unauthorized"
    then "authentication"
    else if code == "forbidden"
    then "permission_denied"
    else if code == "rate_limit"
    then "rate_limited"
    else if code == "timeout" || code == "transport" || code == "limit"
    then "unavailable"
    else "internal"

unfoldable pub limitation_code : String → String
limitation_code value =
    if any (λ v. v == value) visibility
    then "visibility_limited"
    else if value == "Cloudflare partial collection: forbidden."
    then "permission_denied"
    else if value == "Cloudflare partial collection: unauthorized."
    then "permission_denied"
    else if value == "Cloudflare partial collection: rate_limit."
    then "rate_limited"
    else if value == "Cloudflare partial collection: limit."
    then "page_limit"
    else "unknown"

-- `limitations`.
unfoldable pub limitations : List String → List String
unfolding codes_from
limitations values = codes_from limitation_code [] values
