-- ===== src/Runtime/Response.antt =====
-- crates/native-runtime/src/response.rs: the answer to an operation. The provider and permesh_core's
-- `validate` and `sort` are parameters.
pub mod Published
use permesh_providers.Shared.{
  ℕ, ◌+◌, Bool, List, [], ◌∷◌, ◌++◌, map, String, ltb, if◌then◌else◌, length, Result, ok, err,
  ◌>>=◌, ◌>>◌, ensure, ◌==◌, string_eq, not,
}
use permesh_providers.Runtime.Limits.{Failure, internal, provider}
use permesh_providers.Runtime.Domain
use permesh_providers.Runtime.Wire.{
  account_record, identity_record, resource_record, group_record, membership_record, grant_record,
}
use permesh_providers.Runtime.Sdk.{Sdk, Adapter}
use permesh_providers.Runtime.Output.{Event, record_of, health, complete, Output, Envelope, send}

-- `ProviderError`.
pub record ProviderError : Type 0 where
  pub code : String
  pub message : String

-- `Health`.
pub record Health : Type 0 where
  pub message : String
  pub limitations : List String

-- What the calls of a provider give.
pub record Provider : Type 0 where
  pub check : Result ProviderError Health
  pub discover : Result ProviderError Domain.Snapshot

-- permesh_core's operations on a snapshot.
pub record Core : Type 0 where
  pub valid : Domain.Snapshot → Bool
  pub sort : Domain.Snapshot → Domain.Snapshot

abbrev pub max_records : ℕ
max_records = 100_000

module _ (sdk : Sdk) (a : Adapter sdk) (core : Core) where
  -- `map_err`.
  unfoldable pub provider_result {ℓ} : {A : Type ℓ} → Result ProviderError A → Result Failure A
  provider_result (ok x) = ok x
  provider_result (err e) = err (provider (a.error_code e.code))

  unfoldable pub count_of : Domain.Snapshot → ℕ
  count_of s =
      length s.identities
      + length s.accounts
      + length s.resources
      + length s.groups
      + length s.memberships
      + length s.grants

  -- The records of a snapshot in the order in which `operation` sends them.
  unfoldable pub records_of : Domain.Snapshot → List (Event sdk)
  records_of s =
      map (λ x. record_of (account_record x)) s.accounts
      ++ (map (λ x. record_of (identity_record x)) s.identities
          ++ (map (λ x. record_of (resource_record x)) s.resources
              ++ (map (λ x. record_of (group_record x)) s.groups
                  ++ (map (λ x. record_of (membership_record x)) s.memberships
                      ++ map (λ x. record_of (grant_record x)) s.grants))))

  unfoldable pub check_events : Provider → Result Failure (List (Event sdk))
  check_events p = do
    found ← provider_result p.check
    ok (health (a.limitations found.limitations) ∷ [])

  unfoldable pub discover_events : Provider → String → Result Failure (List (Event sdk))
  discover_events p instance_name = do
    found ← provider_result p.discover
    ensure (found.provider == instance_name) internal
    ensure (core.valid found) internal
    let s = core.sort found
    ensure (not (ltb max_records (count_of s))) internal
    ok (records_of s ++ complete (count_of s) s.complete (a.limitations s.limitations) ∷ [])

  -- What `operation` sends, in order; it fails before it sends anything.
  unfoldable pub events_of : Bool → Provider → String → Result Failure (List (Event sdk))
  events_of check p instance_name =
      if check then check_events p else discover_events p instance_name

  module _ (pieces : Envelope sdk → List (List ℕ)) where
    -- Sends one after another, up to the first that fails.
    unfoldable pub send_all : List (Event sdk) → Output → Result Failure (Unit {0}) × Output
    send_all [] o = (ok tt, o)
    send_all (e ∷ es) o =
        let (r, o') = send sdk pieces o e in
        let rest = send_all es o' in elim r [ ok _ ↦ rest | err f ↦ (err f, o') ]

    -- `operation`.
    unfoldable pub operation :
        Bool → Provider → String → Output → Result Failure (Unit {0}) × Output
    operation check p instance_name o = elim (events_of check p instance_name) [
      | err f ↦ (err f, o)
      | ok es ↦ send_all es o
    ]
