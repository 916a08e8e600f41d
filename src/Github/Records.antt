-- ===== src/Github/Records.antt =====
-- providers/github/src/records.rs: the collection that the rows of the API are gathered in.
pub mod Entries
pub mod Sound
pub mod Rows
pub mod Steps
pub mod Finished
pub mod Memory
pub mod Conflicts
use permesh_providers.Shared.{
  ℕ, Bool, true, false, not, ◌&&◌, ◌||◌, List, [], ◌∷◌, ◌++◌, Option, none, some, String,
  if◌then◌else◌, any, Result, ok, err, ◌==◌, string_eq, pair_eq,
}
use permesh_providers.Shared.Map.{Map, get, insert, remove, has, values, retain}
use permesh_providers.Shared.Strings.{to_string, ◌+++◌, split_once}
use permesh_providers.Runtime.Domain.{
  EntityKey, Subject, Account, Resource, Group, Membership, Grant, Snapshot, Provenance, Privilege,
  IdentityKind, human, bot, Affiliation, IdentityStatus, Certainty, observed, permission,
  assignment,
}
use permesh_providers.Runtime.Response.{ProviderError}
use permesh_providers.Github.Errors.{error, visibility}
use permesh_providers.Github.Fields.{
  Json, safe_segment, native_id, field, bad_type, filter, and_then, unwrap_or,
}
use permesh_providers.Github.Keys.{key_eq, subject_eq, same_privilege}

abbrev pub GrantKey : Type 0
GrantKey = String × (Subject × EntityKey)

pub record Collection : Type 0 where
  pub snapshot : Snapshot
  pub accounts : Map EntityKey Account
  pub resources : Map EntityKey Resource
  pub groups : Map EntityKey Group
  pub memberships : Map (Subject × EntityKey) Membership
  pub grants : Map GrantKey Grant
  pub account_types : Map EntityKey String
  pub teams : Map EntityKey (String × (String × String))
  pub blocked_accounts : List EntityKey
  pub blocked_resources : List EntityKey
  pub blocked_groups : List EntityKey
  pub blocked_grants : List GrantKey
  pub observed_at : String
  pub success : Bool

-- `Collection::new`. The empty snapshot is permesh_core's, the time the clock's.
unfoldable pub new : (String → Snapshot) → Option String → String → Result ProviderError Collection
new empty clock id = elim clock [
  | none ↦ err (error "clock")
  | some now ↦ ok (record {
    snapshot = record (empty id) { limitations = visibility };
    accounts = [];
    resources = [];
    groups = [];
    memberships = [];
    grants = [];
    account_types = [];
    teams = [];
    blocked_accounts = [];
    blocked_resources = [];
    blocked_groups = [];
    blocked_grants = [];
    observed_at = now;
    success = false;
  })
]

unfoldable pub entity_key : String → ℕ → Collection → EntityKey
unfolding to_string ◌+++◌
entity_key kind id c = record { provider = c.snapshot.provider; id = kind +++ ":" +++ to_string id }

unfoldable pub fail : String → ProviderError → Collection → Collection
unfolding ◌+++◌
fail endpoint e c =
    let limitation = "GitHub " +++ endpoint +++ ": " +++ e.message in
    let limitations = c.snapshot.limitations in
    record c {
      snapshot = record c.snapshot {
        complete = false;
        limitations =
            if any (λ l. l == limitation) limitations
            then limitations
            else limitations ++ (limitation ∷ []);
      };
    }

-- What is said of an entity is dropped, and what will be said of it.
unfoldable pub drop_account : EntityKey → String → Collection → Collection
drop_account key code c =
    fail "account record" (error code)
      (record c { blocked_accounts = key ∷ c.blocked_accounts; accounts = remove key c.accounts })

unfoldable pub drop_resource : EntityKey → String → Collection → Collection
drop_resource key code c =
    fail "repository record" (error code) (record c {
      blocked_resources = key ∷ c.blocked_resources;
      resources = remove key c.resources;
    })

unfoldable pub drop_group : EntityKey → String → Collection → Collection
drop_group key code c =
    fail "teams" (error code)
      (record c { blocked_groups = key ∷ c.blocked_groups; groups = remove key c.groups })

unfoldable pub kind_of : Option String → IdentityKind
kind_of none = IdentityKind.unknown
kind_of (some t) = if t == "User" then human else if t == "Bot" then bot else IdentityKind.unknown

-- A row that says something else of the account than the rows before it.
unfoldable pub contradicts : EntityKey → String → Option String → Collection → Bool
contradicts key login native_type c =
    (elim (get key c.accounts) [ none ↦ false | some old ↦ not (old.login == login) ])
    || (elim (get key c.account_types) [
      | none ↦ false
      | some old ↦ elim native_type [ none ↦ false | some t ↦ not (old == t) ]
    ])

unfoldable pub add_account : EntityKey → String → Option String → Collection → Collection
unfolding kind_of
add_account key login native_type c =
    let old = unwrap_or (get key c.accounts) (record {
      key = key;
      login = login;
      kind = kind_of native_type;
      affiliation = Affiliation.unknown;
      status = IdentityStatus.unknown;
      verified_emails = [];
    }) in
    elim native_type [
      | none ↦ record c { accounts = insert key old c.accounts }
      | some t ↦ record c {
        accounts = insert key (record old { kind = kind_of (some t) }) c.accounts;
        account_types = insert key t c.account_types;
      }
    ]

unfoldable pub add_resource : EntityKey → String → Collection → Collection
add_resource key full_name c = record c {
  resources =
      insert key
        (unwrap_or (get key c.resources)
          (record { key = key; name = full_name; kind = some "github.repository"; parent = none }))
        c.resources;
}

unfoldable pub renamed : EntityKey → String → Collection → Bool
renamed key full_name c = elim (get key c.resources) [
  | none ↦ false
  | some old ↦ not (old.name == full_name)
]

unfoldable pub add_team : EntityKey → String → String → String → Collection → Collection
unfolding ◌+++◌
add_team key org slug name c = record c {
  teams = insert key (org, (slug, name)) c.teams;
  groups = insert key (record { key = key; name = org +++ "/" +++ name }) c.groups;
}

unfoldable pub membership : Subject → EntityKey → String → Collection → Collection
membership member group method c =
    let provenance : Provenance = record { method = method; observed_at = c.observed_at } in
    record c {
      memberships =
          insert (member, group)
            (unwrap_or (get (member, group) c.memberships)
              (record { member = member; group = group; provenance = provenance }))
            c.memberships;
    }

-- The kind and the key of a subject.
unfoldable pub named : Subject → String × EntityKey
named (Subject.account k) = ("account", k)
named (Subject.group k) = ("group", k)

unfoldable pub grant_of : Subject → EntityKey → String → Privilege → String → Collection → Grant
unfolding named ◌+++◌
grant_of subject resource role privilege method c =
    let (kind, key) = named subject in
    record {
      id = method +++ ":" +++ kind +++ ":" +++ key.id +++ ":" +++ resource.id +++ ":" +++ role;
      subject = subject;
      resource = resource;
      role = role;
      privilege = privilege;
      certainty = observed;
      evidence_kind =
          if method == "github.repository_collaborator_effective" then permission else assignment;
      provenance = record { method = method; observed_at = c.observed_at };
    }

unfoldable pub grant : Subject → EntityKey → String → Privilege → String → Collection → Collection
grant subject resource role privilege method c =
    let claim : GrantKey = (method, (subject, resource)) in
    if has claim c.blocked_grants then c else elim (get claim c.grants) [
      | some old ↦
          if not (old.role == role) || not (same_privilege old.privilege privilege)
          then fail "grant record" (error "conflict") (record c {
            grants = remove claim c.grants;
            blocked_grants = claim ∷ c.blocked_grants;
          })
          else c
      | none ↦ record c {
        grants = insert claim (grant_of subject resource role privilege method c) c.grants;
      }
    ]

unfoldable pub valid_subject : Collection → Subject → Bool
valid_subject c (Subject.account k) = not (has k c.blocked_accounts)
valid_subject c (Subject.group k) = not (has k c.blocked_groups)

-- The snapshot of a collection, before it is sorted.
unfoldable pub gathered : Collection → Snapshot
unfolding valid_subject
gathered c = record c.snapshot {
  accounts = values c.accounts;
  resources = values c.resources;
  groups = values c.groups;
  memberships =
      values (
        retain (λ m. valid_subject c m.member && not (has m.group c.blocked_groups)) c.memberships);
  grants = values (
      retain (λ g. valid_subject c g.subject && not (has g.resource c.blocked_resources)) c.grants);
}

-- `finish`. `sort` is permesh_core's, `valid` the SDK's `validate_snapshot`.
unfoldable pub finish :
    (Snapshot → Snapshot) → (Snapshot → Bool) → Collection → Result ProviderError Snapshot
finish sort valid c =
    let s = sort (gathered c) in
    if not c.success
    then err (error "discovery")
    else if valid s
    then ok s
    else err (error "malformed")

module _ (json : Json) where
  -- `List` of client.rs: the rows of a listing, whether a page was read, and what ended it.
  pub record Listing : Type 0 where
    pub items : List json.Value
    pub success : Bool
    pub error : Option ProviderError

  unfoldable pub accept : String → Listing → Collection → List json.Value × Collection
  accept endpoint list c =
      let c' = record c { success = c.success || list.success } in
      (list.items, elim list.error [ none ↦ c' | some e ↦ fail endpoint e c' ])

  -- `account`, of a row whose id is read.
  unfoldable pub account_at : EntityKey → json.Value → Collection → Option EntityKey × Collection
  account_at key v c =
      let native_type = field json v "type" in
      if has key c.blocked_accounts then (none, c) else elim (field json v "login") [
        | none ↦ (none, drop_account key "malformed" c)
        | some login ↦
            if bad_type json v
            then (none, drop_account key "malformed" c)
            else if contradicts key login native_type c
            then (none, drop_account key "conflict" c)
            else (some key, add_account key login native_type c)
      ]

  abbrev pub account_key : ℕ → Collection → EntityKey
  account_key id c = record { provider = c.snapshot.provider; id = to_string id }

  unfoldable pub account : json.Value → Collection → Option EntityKey × Collection
  account v c = elim (native_id json v) [
    | none ↦ (none, fail "account record" (error "malformed") c)
    | some id ↦ account_at (account_key id c) v c
  ]

  -- The full name of a repository, with its two segments.
  unfoldable pub full_name_of : json.Value → Option (String × String × String)
  full_name_of v = and_then (field json v "full_name") (λ full_name.
      and_then (filter (λ p. safe_segment p.0 && safe_segment p.1) (split_once b'/' full_name))
        (λ p. some (full_name, p.0, p.1)))

  unfoldable pub repository_at :
      EntityKey → json.Value → Collection → Option (EntityKey × String × String) × Collection
  repository_at key v c = if has key c.blocked_resources then (none, c) else elim (full_name_of v) [
    | none ↦ (none, drop_resource key "malformed" c)
    | some (full_name, owner, name) ↦
        if renamed key full_name c
        then (none, drop_resource key "conflict" c)
        else (some (key, owner, name), add_resource key full_name c)
  ]

  unfoldable pub repository :
      json.Value → Collection → Option (EntityKey × String × String) × Collection
  repository v c = elim (native_id json v) [
    | none ↦ (none, fail "repository record" (error "malformed") c)
    | some id ↦ repository_at (entity_key "repository" id c) v c
  ]

  -- The slug and the name of a team.
  unfoldable pub slug_and_name : json.Value → Option (String × String)
  slug_and_name v =
      and_then (filter safe_segment (field json v "slug"))
        (λ slug. and_then (field json v "name") (λ name. some (slug, name)))

  unfoldable pub team_at :
      EntityKey → json.Value → String → Collection → Option (EntityKey × String) × Collection
  team_at key v org c = if has key c.blocked_groups then (none, c) else elim (slug_and_name v) [
    | none ↦ (none, drop_group key "malformed" c)
    | some (slug, name) ↦ elim (get key c.teams) [
      | some old ↦ (none, if old == (org, (slug, name)) then c else drop_group key "conflict" c)
      | none ↦ (some (key, slug), add_team key org slug name c)
    ]
  ]

  unfoldable pub team : json.Value → String → Collection → Option (EntityKey × String) × Collection
  team v org c = elim (native_id json v) [
    | none ↦ (none, fail "teams" (error "malformed") c)
    | some id ↦ team_at (entity_key "team" id c) v org c
  ]
