-- ===== src/Github/Discovery.antt =====
-- providers/github/src/discovery.rs: the walk over the configured organizations.
pub mod Kinds
pub mod Kept
pub mod Whole
use permesh_providers.Shared.{
  ℕ, Bool, true, false, ◌&&◌, ◌||◌, List, [], ◌∷◌, Option, none, some, String, leb, eqb,
  if◌then◌else◌, Result, ok, err, ◌==◌, string_eq, is_none,
}
use permesh_providers.Shared.Map.{Map, get, insert}
use permesh_providers.Shared.Strings.{eq_ignore_ascii_case}
use permesh_providers.Runtime.Domain.{
  EntityKey, Subject, Resource, Group, Snapshot, standard, owner,
}
use permesh_providers.Runtime.Response.{ProviderError, Health}
use permesh_providers.Github.Errors.{error, visibility, max_requests, max_rows}
use permesh_providers.Github.Fields.{Json, native_id, field, privilege, repository_role}
use permesh_providers.Github.Keys.{key_eq}
use permesh_providers.Github.Http.{Web}
use permesh_providers.Github.Records.{
  Collection, new, entity_key, fail, accept, account, repository, team, membership, grant, finish,
}
use permesh_providers.Github.Client.{Budget, no_budget_used, url, get_media, object, list}

-- The entries that the walk itself makes for an organization.
unfoldable pub add_organization : String → ℕ → Collection → Collection
add_organization org id c =
    let key = entity_key "organization" id c in
    record c {
      success = true;
      resources =
          insert key
            (record { key = key; name = org; kind = some "github.organization"; parent = none })
            c.resources;
      groups = insert key (record { key = key; name = org }) c.groups;
    }

-- The parent of a repository, where the owner is the organization.
unfoldable pub set_parent : String → String → EntityKey → EntityKey → Collection → Collection
set_parent org owner_name key parent c =
    if eq_ignore_ascii_case owner_name org
    then elim (get key c.resources) [
      | none ↦ c
      | some r ↦ record c { resources = insert key (record r { parent = some parent }) c.resources }
    ]
    else c

unfoldable pub same_id : Option ℕ → Option ℕ → Bool
same_id none none = true
same_id (some n) (some m) = eqb n m
same_id _ _ = false

-- What the walk changes: the collection, the budget, and the repositories of the organization.
pub record Run : Type 0 where
  pub state : Collection
  pub budget : Budget
  pub repositories : Map EntityKey (String × String)

unfoldable pub is_spent : Budget → Bool
is_spent b = leb max_requests b.requests || leb max_rows b.rows

-- A `for` loop over rows.
unfoldable pub each {ℓ} : {A : Type ℓ} → (A → Run → Run) → List A → Run → Run
each body [] run = run
each body (x ∷ xs) run = each body xs (body x run)

module _ (json : Json) (web : Web)
    (order : Map EntityKey (String × String) → List (EntityKey × (String × String))) where
  open json use {Value, is_object}

  -- The rows of a listing, each by the body of the loop over it.
  unfoldable pub walk :
      String → List String → List (String × String) → (Value → Run → Run) → Run → Run
  walk endpoint segments query body run =
      let (listed, b) = list json web segments query run.budget in
      let (items, c) = accept json endpoint listed run.state in
      each body items (record run { state = c; budget = b })

  unfoldable pub member_row : EntityKey → String → Value → Run → Run
  member_row org_key role user run =
      let (found, c) = account json user run.state in
      record run {
        state = elim found [
          | none ↦ c
          | some key ↦
              grant (Subject.account key) org_key role (if role == "admin" then owner else standard)
                "github.organization_role"
                (membership (Subject.account key) org_key "github.organization_members" c)
        ];
      }

  -- The two filters have the names of the roles.
  unfoldable pub members : String → EntityKey → String → Run → Run
  members org org_key role run =
      walk "organization members" ("orgs" ∷ org ∷ "members" ∷ []) (("role", role) ∷ [])
        (member_row org_key role) run

  unfoldable pub repository_row : String → EntityKey → Value → Run → Run
  repository_row org org_key repo run =
      let (found, c) = repository json repo run.state in
      elim found [
        | none ↦ record run { state = c }
        | some (key, owner_name, name) ↦ record run {
          state = set_parent org owner_name key org_key c;
          repositories = insert key (owner_name, name) run.repositories;
        }
      ]

  unfoldable pub member_of_team : EntityKey → Value → Run → Run
  member_of_team team_key user run =
      let (found, c) = account json user run.state in
      record run {
        state = elim found [
          | none ↦ c
          | some key ↦ membership (Subject.account key) team_key "github.team_members_effective" c
        ];
      }

  -- What is reported of a team's permissions on a repository.
  unfoldable pub no_permissions : ProviderError → Budget → Run → Option Value × Run
  no_permissions e b run =
      (none, record run { state = fail "team repository permissions" e run.state; budget = b })

  unfoldable pub permissions : String → String → String → String → Value → Run → Option Value × Run
  permissions org slug owner_name name repo run =
      elim (url json web ("orgs" ∷ org ∷ "teams" ∷ slug ∷ "repos" ∷ owner_name ∷ name ∷ []) []) [
        | err e ↦ no_permissions e run.budget run
        | ok u ↦
            let (r, b) =
              get_media json web u "application/vnd.github.v3.repository+json" run.budget in
            elim r [
              | err e ↦ no_permissions e b run
              | ok (headers, value) ↦
                  if is_object value && same_id (native_id json value) (native_id json repo)
                  then (some value, record run { budget = b })
                  else no_permissions (error "malformed") b run
            ]
      ]

  unfoldable pub role_of : Option Value → String
  role_of none = "unknown"
  role_of (some v) = repository_role json v

  unfoldable pub team_grant : EntityKey → EntityKey → Option Value × Run → Run
  team_grant team_key resource (value, run) =
      let role = role_of value in
      record run {
        state =
            grant (Subject.group team_key) resource role (privilege role)
              "github.team_repository_effective" run.state;
      }

  unfoldable pub team_repository : String → EntityKey → String → EntityKey → Value → Run → Run
  team_repository org org_key slug team_key repo run =
      let (found, c) = repository json repo run.state in
      elim found [
        | none ↦ record run { state = c }
        | some (key, owner_name, name) ↦
            let owned = record run { state = set_parent org owner_name key org_key c } in
            let granted =
              team_grant team_key key (permissions org slug owner_name name repo owned) in
            record granted { repositories = insert key (owner_name, name) granted.repositories }
      ]

  unfoldable pub team_row : String → EntityKey → Value → Run → Run
  team_row org org_key row run =
      let (found, c) = team json row org run.state in
      elim found [
        | none ↦ record run { state = c }
        | some (key, slug) ↦
            walk "team repositories" ("orgs" ∷ org ∷ "teams" ∷ slug ∷ "repos" ∷ []) []
              (team_repository org org_key slug key)
              (walk "team members" ("orgs" ∷ org ∷ "teams" ∷ slug ∷ "members" ∷ [])
                (("role", "all") ∷ []) (member_of_team key) (record run { state = c }))
      ]

  unfoldable pub collaborator_row : EntityKey → Value → Run → Run
  collaborator_row resource user run =
      let (found, c) = account json user run.state in
      let role = repository_role json user in
      record run {
        state = elim found [
          | none ↦ c
          | some key ↦
              grant (Subject.account key) resource role (privilege role)
                "github.repository_collaborator_effective" c
        ];
      }

  unfoldable pub collaborators : List (EntityKey × (String × String)) → Run → Run
  collaborators [] run = run
  collaborators ((resource, (owner_name, name)) ∷ more) run =
      let rest = collaborators more (
        walk "collaborators" ("repos" ∷ owner_name ∷ name ∷ "collaborators" ∷ [])
          (("affiliation", "all") ∷ []) (collaborator_row resource) run) in
      if is_spent run.budget
      then record run { state = fail "collaborators" (error "limit") run.state }
      else rest

  -- What is read of an organization whose id is known.
  unfoldable pub inside : String → ℕ → Run → Run
  inside org id run =
      let org_key = entity_key "organization" id run.state in
      let start = record run { state = add_organization org id run.state; repositories = [] } in
      let walked = walk "teams" ("orgs" ∷ org ∷ "teams" ∷ []) [] (team_row org org_key) (
        walk "organization repositories" ("orgs" ∷ org ∷ "repos" ∷ []) []
          (repository_row org org_key)
          (members org org_key "admin" (members org org_key "member" start))) in
      collaborators (order walked.repositories) walked

  unfoldable pub organization : String → Run → Run
  organization org run =
      let (found, b) = object json web ("orgs" ∷ org ∷ []) run.budget in
      elim found [
        | err e ↦ record run { state = fail "organization" e run.state; budget = b }
        | ok value ↦ elim (native_id json value) [
          | none ↦ record run {
            state = fail "organization" (error "malformed") run.state;
            budget = b;
          }
          | some id ↦ inside org id (record run { budget = b })
        ]
      ]

  unfoldable pub organizations : List String → Run → Run
  organizations [] run = run
  organizations (org ∷ orgs) run =
      let rest = organizations orgs (organization org run) in
      if is_spent run.budget
      then record run { state = fail "discovery" (error "limit") run.state }
      else rest

  abbrev pub run_of : Collection → Run
  run_of c = record { state = c; budget = no_budget_used; repositories = [] }

  -- `collect`.
  unfoldable pub collect :
      (String → Snapshot)
      → Option String
      → (Snapshot → Snapshot)
      → (Snapshot → Bool)
      → String
      → List String
      → Result ProviderError Snapshot
  collect empty clock sort valid id orgs = elim (new empty clock id) [
    | err e ↦ err e
    | ok c ↦ finish sort valid (organizations orgs (run_of c)).state
  ]

  -- `check`: the memberships of the user.
  unfoldable pub check_memberships : List String → Budget → Result ProviderError Health
  check_memberships [] b = ok (record {
    message = "GitHub authentication and active organization membership verified.";
    limitations = visibility;
  })
  check_memberships (org ∷ orgs) b =
      let (r, b') = object json web ("user" ∷ "memberships" ∷ "orgs" ∷ org ∷ []) b in
      let rest = check_memberships orgs b' in
      elim r [
        | err e ↦ err e
        | ok membership_row ↦ elim (field json membership_row "state") [
          | none ↦ err (error "membership")
          | some state ↦ if state == "active" then rest else err (error "membership")
        ]
      ]

  unfoldable pub check : List String → Result ProviderError Health
  unfolding check_memberships
  check orgs =
      let (r, b) = object json web ("user" ∷ []) no_budget_used in
      elim r [
        | err e ↦ err e
        | ok user ↦
            if is_none (native_id json user) || is_none (field json user "login")
            then err (error "malformed")
            else check_memberships orgs b
      ]
