-- ===== src/Cloudflare/Errors.antt =====
-- providers/cloudflare/src/lib.rs: limits, errors and what the provider says of its visibility.
use permesh_providers.Shared.{
  ℕ, ◌*◌, Bool, ◌&&◌, ◌||◌, not, List, [], ◌∷◌, String, leb, eqb, if◌then◌else◌, all, codes,
  byte_len, is_alphanumeric, ◌==◌, string_eq,
}
use permesh_providers.Runtime.Response.{ProviderError}

abbrev pub max_body : ℕ
max_body = 2 * 1024 * 1024

abbrev pub max_pages : ℕ
max_pages = 100

abbrev pub max_rows : ℕ
max_rows = 20_000

abbrev pub max_requests : ℕ
max_requests = 2_000

abbrev pub visibility : List String
visibility =
    "Cloudflare token scope limits visibility; absence does not establish absence of access. Collection is not transactional."
    ∷ "Grants are observed policy assignments with unknown privilege, not evaluated effective access. Denies and unsupported scopes suppress potentially misleading access paths."
    ∷ "Wildcard policy scopes are separate evidence resources, not expanded account or zone grants. Legacy roles without policy scopes are not normalized."
    ∷ "Pending memberships, authoritative identities, verified email, organization policies, API-token principals, Zero Trust Access rules and non-zone product resources are not enumerated."
    ∷ []

unfoldable pub message_of : String → String
message_of code =
    if code == "configuration"
    then "Invalid Cloudflare provider configuration."
    else if code == "unauthorized"
    then "Cloudflare rejected the credential."
    else if code == "forbidden"
    then "Cloudflare denied access; check Account Settings Read and Zone Read scope."
    else if code == "rate_limit"
    then "Cloudflare rate limit exceeds the bounded retry budget; retry later."
    else if code == "timeout"
    then "Cloudflare collection exceeded its deadline."
    else if code == "limit"
    then "Cloudflare collection exceeded a response, record, page or request limit."
    else if code == "pagination"
    then "Cloudflare returned inconsistent pagination."
    else if code == "scope"
    then "Cloudflare returned a resource outside the configured account."
    else if code == "malformed"
    then "Cloudflare returned malformed or conflicting access metadata."
    else if code == "unsupported_policy"
    then "Cloudflare deny, legacy or unsupported policy semantics prevented safe normalization."
    else "Cloudflare request could not be completed."

-- `error`.
unfoldable pub error : String → ProviderError
unfolding message_of
error code = record { code = code; message = message_of code }

is_instance_code : ℕ → Bool
is_instance_code c = is_alphanumeric c || eqb c b'_' || eqb c b'-'

unfoldable pub valid_instance : String → Bool
unfolding is_instance_code
valid_instance id = not (id == "") && leb (byte_len id) 64 && all is_instance_code (codes id)
