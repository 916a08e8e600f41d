-- ===== src/Cloudflare/Provider.antt =====
-- providers/cloudflare/src/lib.rs: the construction of a provider and its health check.
use permesh_providers.Shared.{
  ℕ, Bool, not, ◌&&◌, List, [], ◌∷◌, Option, none, some, String, leb, length, if◌then◌else◌, Result,
  ok, err, ◌>>=◌, each,
}
use permesh_providers.Shared.Strings.{◌+++◌}
use permesh_providers.Http.{Reply}
use permesh_providers.Runtime.Domain.{accounts, resources, groups, memberships, grants}
use permesh_providers.Runtime.Sdk.{Metadata}
use permesh_providers.Runtime.Response.{ProviderError, Health}
use permesh_providers.Cloudflare.Values.{Json}
use permesh_providers.Cloudflare.Errors.{error, valid_instance, visibility}
use permesh_providers.Cloudflare.Client.{no_budget_used, request}
use permesh_providers.Cloudflare.Fields.{native_id, member}
use permesh_providers.Cloudflare.Collection.{account_resource}
use permesh_providers.Cloudflare.Protocol.{valid_token}

unfoldable pub is_configured : String → String → String → Bool
is_configured id account_id token = valid_instance id && native_id account_id && valid_token token

-- `new_with_network`: the instance and the account. `client` is what the construction of the HTTP
-- client gives.
unfoldable pub new_provider :
    String → String → String → Option ProviderError → Result ProviderError (String × String)
unfolding is_configured
new_provider id account_id token client =
    if not (is_configured id account_id token)
    then err (error "configuration")
    else elim client [ some e ↦ err e | none ↦ ok (id, account_id) ]

-- `provider_metadata`.
unfoldable pub provider_metadata : Metadata
provider_metadata = record {
  kind = "cloudflare";
  capabilities = accounts ∷ resources ∷ groups ∷ memberships ∷ grants ∷ [];
}

module _ (json : Json) (joins : String → Bool) (reply : ℕ → String → List (String × String) → Reply)
    (self_id account_id : String) where
  open json use {Value, get, as_array}

  -- The rows of the probe.
  unfoldable pub probed : Value → Result ProviderError (List Value)
  probed v = elim (get v "result") [
    | none ↦ err (error "malformed")
    | some w ↦ elim (as_array w) [
      | none ↦ err (error "malformed")
      | some rows ↦ if leb (length rows) 5 then ok rows else err (error "malformed")
    ]
  ]

  -- A row of the probe is a member.
  unfoldable pub is_member : Value → Unit {0} → Result ProviderError (Unit {0})
  is_member row u = member json row >>= λ found. ok tt

  -- `check`, without its deadline.
  unfoldable pub check : Result ProviderError Health
  unfolding probed is_member
  check =
      let (own, b) = request json joins reply ("accounts/" +++ account_id) [] no_budget_used in
      let (members, b') =
        request json joins reply ("accounts/" +++ account_id +++ "/members")
          (("per_page", "5") ∷ ("page", "1") ∷ []) b in
      own >>= λ value. account_resource json self_id account_id value >>= λ resource.
      members >>= λ found. probed found >>= λ rows. each is_member rows tt >>= λ u. ok (record {
        message =
            "Cloudflare account and bounded member-list probes succeeded; discovery permissions are not established.";
        limitations = visibility;
      })
