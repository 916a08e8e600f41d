-- ===== src/Github/Protocol.antt =====
-- providers/github/src/protocol/mod.rs and response.rs: the adapter of the GitHub provider.
pub mod Limitations
use permesh_providers.Shared.{
  ℕ, ◌*◌, Bool, true, false, not, ◌&&◌, ◌||◌, List, [], ◌∷◌, ◌++◌, String, leb, if◌then◌else◌, any,
  codes, byte_len, ◌==◌, string_eq,
}
use permesh_providers.Shared.Strings.{is_prefix}
use permesh_providers.Shared.Codes.{codes_from}
use permesh_providers.Github.Errors.{visibility, message_of}

-- `validate`, of the token.
unfoldable pub validate : String → Bool
validate token = not (token == "") && leb (byte_len token) (16 * 1024)

unfoldable pub error_code : String → String
error_code code =
    if code == "configuration"
    then "protocol_error"
    else if code == "unauthorized"
    then "authentication"
    else if code == "forbidden" || code == "not_found" || code == "membership"
    then "permission_denied"
    else if code == "rate_limit"
    then "rate_limited"
    else if code == "transport"
        || code == "timeout"
        || code == "limit"
        || code == "discovery"
        || code == "unavailable"
    then "unavailable"
    else "internal"

unfoldable pub reversed : List ℕ → List ℕ
reversed [] = []
reversed (c ∷ s) = reversed s ++ c ∷ []

unfoldable pub ends_with : String → String → Bool
unfolding reversed is_prefix
ends_with s suffix = is_prefix (reversed (codes suffix)) (reversed (codes s))

unfoldable pub limitation_code : String → String
limitation_code value =
    if any (λ v. v == value) visibility
    then "visibility_limited"
    else if ends_with value (message_of "forbidden") || ends_with value (message_of "not_found")
    then "permission_denied"
    else if ends_with value (message_of "rate_limit")
    then "rate_limited"
    else if ends_with value (message_of "limit")
    then "page_limit"
    else "unknown"

-- `limitations`.
unfoldable pub limitations : List String → List String
unfolding codes_from
limitations values = codes_from limitation_code [] values
