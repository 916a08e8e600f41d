-- ===== src/Github/Errors.antt =====
-- providers/github/src/lib.rs: the errors of the provider, and what it says of its visibility.
use permesh_providers.Shared.{ℕ, ◌*◌, List, [], ◌∷◌, String, if◌then◌else◌, ◌==◌, string_eq}
use permesh_providers.Runtime.Response.{ProviderError}

-- The constants.
abbrev pub max_body : ℕ
max_body = 2 * 1024 * 1024

abbrev pub max_pages : ℕ
max_pages = 100

abbrev pub max_rows : ℕ
max_rows = 20_000

abbrev pub max_requests : ℕ
max_requests = 2_000

abbrev pub visibility : List String
visibility =
    "GitHub visibility is limited by token permissions, selected repositories, organization membership, SSO authorization, and secret teams; absence is not proof of no access."
    ∷ "Repository collaborator roles describe effective access, including inherited team, organization, and enterprise access; they are not evidence of direct grants."
    ∷ "Team memberships and repository permissions can include nested-team inheritance; the API observations do not establish direct assignment."
    ∷ "Public email is not verified and is excluded. Pending invitations, enterprise policy, organization base-permission settings, and non-repository resources are not enumerated. Collection is not transactional."
    ∷ []

unfoldable pub message_of : String → String
message_of code =
    if code == "configuration"
    then "Invalid GitHub provider configuration or HTTP client settings."
    else if code == "unauthorized"
    then "GitHub rejected authentication; check the configured credential."
    else if code == "forbidden"
    then "GitHub denied access; check token permissions and organization authorization."
    else if code == "not_found"
    then "GitHub resource was not visible; check scope and organization access."
    else if code == "rate_limit"
    then "GitHub rate limit prevented collection within the retry budget; retry later."
    else if code == "timeout"
    then "GitHub request exceeded its deadline."
    else if code == "transport"
    then "GitHub request could not be completed."
    else if code == "limit"
    then "GitHub collection reached a response, page, record, or request safety limit."
    else if code == "pagination"
    then "GitHub returned invalid or unsafe pagination metadata."
    else if code == "malformed"
    then "GitHub returned an invalid response or record."
    else if code == "membership"
    then "Active membership in a configured GitHub organization could not be verified."
    else if code == "discovery"
    then "No configured GitHub organization could be collected; check credentials and access."
    else if code == "conflict"
    then "Conflicting observations for the same native entity or grant were excluded with their dependent claims."
    else if code == "clock"
    then "Observation time could not be formatted."
    else "GitHub returned an unsuccessful response."

-- `error`.
unfoldable pub error : String → ProviderError
unfolding message_of
error code = record { code = code; message = message_of code }
