-- ===== src/Cloudflare/Collection.antt =====
-- providers/cloudflare/src/records.rs: `collect`, from the listings to the snapshot.
pub mod Gathering
pub mod Suppressed
pub mod Requests
use permesh_providers.Shared.{
  ℕ, ◌+◌, Bool, true, false, not, ◌&&◌, ◌||◌, List, [], ◌∷◌, ◌++◌, Option, none, some, String, ltb,
  length, if◌then◌else◌, Result, ok, err, ◌==◌, string_eq,
}
use permesh_providers.Shared.Map.{Map, values, put, has}
use permesh_providers.Shared.Strings.{◌+++◌}
use permesh_providers.Runtime.Domain.{
  EntityKey, Subject, account, group, Resource, Grant, Membership, Snapshot, Provenance,
  IdentityKind, Affiliation, IdentityStatus,
}
use permesh_providers.Runtime.Domain.Keys.{key_eq}
use permesh_providers.Runtime.Response.{ProviderError}
use permesh_providers.Cloudflare.Values.{Json}
use permesh_providers.Cloudflare.Errors.{error, max_rows}
use permesh_providers.Cloudflare.Client.{Budget}
use permesh_providers.Cloudflare.Fields.{str_at, string, id, member}
use permesh_providers.Cloudflare.Unique.{warning}
use permesh_providers.Cloudflare.Policies.{is_expected, policies}

-- What the loops of `collect` keep.
pub record Run : Type 0 where
  pub snapshot : Snapshot
  pub blocked : List String
  pub active : List String
  pub grants : List (Grant × Resource)
  pub memberships : List (String × Membership)
  pub budget : Budget

-- What ends a collection before its end: the error, and the budget as it then is.
pub record Stopped : Type 0 where
  pub error : ProviderError
  pub budget : Budget

abbrev pub stop : String → Run → Result Stopped Run
stop code run = err (record { error = error code; budget = run.budget })

-- The budget that a loop leaves, however it ends.
abbrev pub budget_of : Result Stopped Run → Budget
budget_of (ok run) = run.budget
budget_of (err stopped) = stopped.budget

abbrev pub warn : String → Run → Run
warn code run = record run { snapshot = warning run.snapshot code }

-- The grants of a subject, within the limit.
unfoldable pub extend : List (Grant × Resource) → Run → Result Stopped Run
extend found run =
    if ltb max_rows (length run.grants + length found)
    then stop "limit" run
    else ok (record run { grants = run.grants ++ found })

-- A subject of one of the accounts.
abbrev pub reaches : List EntityKey → Subject → Bool
reaches keys (account key) = has key keys
reaches keys (group key) = false

module _ (json : Json) (self_id account_id : String) where
  open json use {Value, get}

  abbrev pub key_of : String → EntityKey
  key_of name = record { provider = self_id; id = name }

  abbrev pub member_key : String → EntityKey
  member_key name = key_of ("member:" +++ account_id +++ ":" +++ name)

  -- `account`.
  unfoldable pub account_resource : Value → Result ProviderError Resource
  account_resource reply = elim (get reply "result") [
    | none ↦ err (error "malformed")
    | some v ↦ elim (id json v) [
      | err e ↦ err e
      | ok found ↦
          if not (found == account_id) then err (error "scope") else elim (string json v "name") [
            | err e ↦ err e
            | ok name ↦ ok (record {
              key = key_of ("account:" +++ account_id);
              name = name;
              kind = some "cloudflare.account";
              parent = none;
            })
          ]
    ]
  ]

  -- The account that a zone names.
  unfoldable pub owner_of : Value → Option String
  owner_of zone = elim (get zone "account") [ none ↦ none | some v ↦ str_at json v "id" ]

  -- A zone, with the zones that are known.
  unfoldable pub zone_step : String × Value → List String × Snapshot → List String × Snapshot
  zone_step (zone_id, zone) (ids, s) =
      if not (is_expected (owner_of zone) account_id)
      then (ids, warning s "scope")
      else elim (string json zone "name") [
        | err e ↦ (ids, warning s "malformed")
        | ok name ↦ (
          zone_id ∷ ids,
          record s {
            resources =
                s.resources
                ++ (record {
                  key = key_of ("zone:" +++ zone_id);
                  name = name;
                  kind = some "cloudflare.zone";
                  parent = some (key_of ("account:" +++ account_id));
                })
                  ∷ [];
          },
        )
      ]

  unfoldable pub zones_of : Map String Value → List String × Snapshot → List String × Snapshot
  zones_of [] known = known
  zones_of (zone ∷ zones) known = zones_of zones (zone_step zone known)

  module _ (zones : List String) (observed_at : String) where
    abbrev pub provenance : String → Provenance
    provenance method = record { method = method; observed_at = observed_at }

    -- What the policies of a member assign.
    unfoldable pub assigned : String → Value → Result ProviderError (List (Grant × Resource))
    assigned name value =
        policies json self_id account_id (account (member_key name)) zones
          (provenance "cloudflare.members.policy_assignment") value

    -- An accepted member, who becomes an account.
    unfoldable pub activate : String → String → Run → Run
    activate name login run = record run {
      active = name ∷ run.active;
      snapshot = record run.snapshot {
        accounts =
            run.snapshot.accounts
            ++ (record {
              key = member_key name;
              login = login;
              kind = IdentityKind.unknown;
              affiliation = Affiliation.unknown;
              status = IdentityStatus.unknown;
              verified_emails = [];
            })
              ∷ [];
      };
    }

    unfoldable pub member_step : String × Value → Run → Result Stopped Run
    member_step (name, value) run = elim (member json value) [
      | err e ↦ ok (warn "malformed" run)
      | ok (own, login, accepted) ↦ if not accepted then ok run else elim (assigned name value) [
        | ok found ↦ extend found (activate name login run)
        | err e ↦
            let run' = activate name login run in
            ok (warn "unsupported_policy" (record run' { blocked = name ∷ run'.blocked }))
      ]
    ]

    -- A row of a group's members.
    unfoldable pub membership_step : Bool → EntityKey → String × Value → Run → Run
    membership_step group_blocked group_key (name, row) run =
        if is_expected (str_at json row "status") "pending"
        then run
        else if not (is_expected (str_at json row "status") "accepted") || not (has name run.active)
        then warn "unresolved_membership" run
        else if group_blocked
        then record run { blocked = name ∷ run.blocked }
        else record run {
          memberships =
              run.memberships
              ++ (
                name,
                record {
                  member = account (member_key name);
                  group = group_key;
                  provenance = provenance "cloudflare.iam.user_groups.members";
                },
              )
                ∷ [];
        }

    unfoldable pub memberships_of : Bool → EntityKey → Map String Value → Run → Run
    memberships_of group_blocked group_key [] run = run
    memberships_of group_blocked group_key (row ∷ rows) run =
        memberships_of group_blocked group_key rows
          (membership_step group_blocked group_key row run)

  module _ (key_before : EntityKey → EntityKey → Bool) where
    -- The memberships of members who are not blocked.
    unfoldable pub joined : List String → List (String × Membership) → List Membership
    joined blocked [] = []
    joined blocked ((name, m) ∷ rest) =
        if has name blocked then joined blocked rest else m ∷ joined blocked rest

    -- The keys of the blocked members.
    abbrev pub keys_of : List String → List EntityKey
    keys_of [] = []
    keys_of (name ∷ names) = member_key name ∷ keys_of names

    unfoldable pub resource_map : List Resource → Map EntityKey Resource → Map EntityKey Resource
    resource_map [] m = m
    resource_map (r ∷ rs) m = resource_map rs (put key_before r.key r m)

    abbrev pub keys_in : Map EntityKey Resource → List EntityKey
    keys_in [] = []
    keys_in ((k, r) ∷ m) = k ∷ keys_in m

    abbrev pub or_insert : Resource → Map EntityKey Resource → Map EntityKey Resource
    or_insert r m = if has r.key (keys_in m) then m else put key_before r.key r m

    -- The grants that are kept, each id once, and the resources that they need.
    unfoldable pub granted :
        List EntityKey
        → List (Grant × Resource)
        → List String
        → Map EntityKey Resource
        → List Grant × Map EntityKey Resource
    granted blocked [] seen m = ([], m)
    granted blocked ((g, r) ∷ rest) seen m =
        if reaches blocked g.subject
        then granted blocked rest seen m
        else if has g.id seen
        then granted blocked rest seen (or_insert r m)
        else let (gs, m') = granted blocked rest (g.id ∷ seen) (or_insert r m) in (g ∷ gs, m')

    -- The snapshot of a run, before it is sorted.
    unfoldable pub gathered : Run → Snapshot
    gathered run =
        let (gs, m) =
          granted (keys_of run.blocked) run.grants [] (resource_map run.snapshot.resources []) in
        record run.snapshot {
          memberships = run.snapshot.memberships ++ joined run.blocked run.memberships;
          grants = run.snapshot.grants ++ gs;
          resources = values m;
        }
