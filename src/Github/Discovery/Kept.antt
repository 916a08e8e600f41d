-- ===== src/Github/Discovery/Kept.antt =====
-- providers/github/src/discovery.rs: what the walk keeps, whatever the server answers.
use permesh_providers.Shared.{
  ◌≡◌, ◌≤◌, inl, inr, ◌&&◌, List, [], ◌∷◌, Option, String, Bool-cases, Option-cases, Result-cases,
  string_eq, arith,
}
use permesh_providers.Shared.Map.{Map}
use permesh_providers.Runtime.Domain.{EntityKey, Subject}
use permesh_providers.Runtime.Response.{ProviderError}
use permesh_providers.Github.Errors.{error, max_rows, max_requests}
use permesh_providers.Github.Fields.{Json, native_id}
use permesh_providers.Github.Keys.{key_eq}
use permesh_providers.Github.Http.{Web}
use permesh_providers.Github.Records.{fail, account, repository}
use permesh_providers.Github.Client.{Budget, url, get_media, object, list}
use permesh_providers.Github.Client.Budgets.{get_media-IsFrugal, object-requests}
use permesh_providers.Github.Client.Pages.Costs.{list-IsAffordable}
use permesh_providers.Github.Discovery.{
  Run, set_parent, same_id, each, walk, member_row, members, repository_row, member_of_team,
  no_permissions, permissions, team_grant, team_repository,
}
use permesh_providers.Github.Discovery.Kinds.{
  IsKept, fail-IsKept, membership-IsKept, grant-IsKept, set_parent-IsKept, accept-IsKept,
  account-IsKept, repository-IsKept,
}

-- The budget is within the limits of a run.
pub record IsWithin (b : Budget) : Type 0 where
  pub requests : b.requests ≤ max_requests
  pub counted : b.sent ≡ b.requests
  pub rows : b.rows ≤ max_rows

pub record IsGood (run : Run) : Type 0 where
  pub kept : IsKept run.state
  pub within : IsWithin run.budget

pub each-IsGood {ℓ} :
    {A : Type ℓ} (body : A → Run → Run) (xs : List A) (run : Run)
    → ((x : A) (r : Run) → IsGood r → IsGood (body x r))
    → IsGood run
    → IsGood (each body xs run)
unfolding each
each-IsGood body [] run keeps h = h
each-IsGood body (x ∷ xs) run keeps h = each-IsGood body xs (body x run) keeps (keeps x run h)

pub failed-IsGood :
    (endpoint : String) (e : ProviderError) (b : Budget) (run : Run)
    → IsWithin b
    → IsGood run
    → IsGood (record run { state = fail endpoint e run.state; budget = b })
failed-IsGood endpoint e b run w h = record {
  kept = fail-IsKept endpoint e run.state h.kept;
  within = w;
}

module _ (json : Json) (web : Web)
    (order : Map EntityKey (String × String) → List (EntityKey × (String × String))) where
  listed-IsWithin :
      (segments : List String) (query : List (String × String)) (b : Budget)
      → IsWithin b
      → IsWithin (list json web segments query b).1
  listed-IsWithin segments query b w =
      let a = list-IsAffordable json web segments query b in
      record {
        requests = omega (arith, a.requests, w.requests);
        counted = omega (arith, a.counted, w.counted);
        rows = omega (arith, a.rows, w.rows);
      }

  media-IsWithin :
      (u : web.Url) (media : String) (b : Budget)
      → IsWithin b
      → IsWithin (get_media json web u media b).1
  media-IsWithin u media b w =
      let f = get_media-IsFrugal json web u media b in
      record {
        requests = omega (arith, f.capped, w.requests);
        counted = omega (arith, f.counted, w.counted);
        rows = omega (arith, f.rows, w.rows);
      }

  pub object-IsWithin :
      (segments : List String) (b : Budget) → IsWithin b → IsWithin (object json web segments b).1
  object-IsWithin segments b w =
      let f = object-requests json web segments b in
      record {
        requests = omega (arith, f.0, w.requests);
        counted = omega (arith, f.2, w.counted);
        rows = omega (arith, f.1, w.rows);
      }

  pub walk-IsGood :
      (endpoint : String) (segments : List String) (query : List (String × String))
      (body : json.Value → Run → Run) (run : Run)
      → ((v : json.Value) (r : Run) → IsGood r → IsGood (body v r))
      → IsGood run
      → IsGood (walk json web order endpoint segments query body run)
  unfolding walk
  walk-IsGood endpoint segments query body run keeps h = each-IsGood body _ _ keeps (record {
    kept = accept-IsKept json endpoint _ run.state h.kept;
    within = listed-IsWithin segments query run.budget h.within;
  })

  member_row-IsGood :
      (org_key : EntityKey) (role : String) (user : json.Value) (run : Run)
      → IsGood run
      → IsGood (member_row json web order org_key role user run)
  unfolding member_row
  member_row-IsGood org_key role user run h =
      let kept = account-IsKept json user run.state h.kept in
      elim (Option-cases (account json user run.state).0) [
        | inl e ↦ rw e (record { kept = kept; within = h.within })
        | inr (key, e) ↦ rw e (record {
          kept = grant-IsKept (Subject.account key) org_key role _ "github.organization_role" _ (
              membership-IsKept (Subject.account key) org_key "github.organization_members" _ kept);
          within = h.within;
        })
      ]

  pub members-IsGood :
      (org : String) (org_key : EntityKey) (role : String) (run : Run)
      → IsGood run
      → IsGood (members json web order org org_key role run)
  unfolding members
  members-IsGood org org_key role run h =
      walk-IsGood _ _ _ (member_row json web order org_key role) run
        (member_row-IsGood org_key role) h

  pub repository_row-IsGood :
      (org : String) (org_key : EntityKey) (repo : json.Value) (run : Run)
      → IsGood run
      → IsGood (repository_row json web order org org_key repo run)
  unfolding repository_row
  repository_row-IsGood org org_key repo run h =
      let kept = repository-IsKept json repo run.state h.kept in
      elim (Option-cases (repository json repo run.state).0) [
        | inl e ↦ rw (e, repository_row) (record { kept = kept; within = h.within })
        | inr ((key, owner_name, name), e) ↦
            rw (e, repository_row)
              (record {
                kept = set_parent-IsKept org owner_name key org_key _ kept;
                within = h.within;
              })
      ]

  pub member_of_team-IsGood :
      (team_key : EntityKey) (user : json.Value) (run : Run)
      → IsGood run
      → IsGood (member_of_team json web order team_key user run)
  unfolding member_of_team
  member_of_team-IsGood team_key user run h =
      let kept = account-IsKept json user run.state h.kept in
      elim (Option-cases (account json user run.state).0) [
        | inl e ↦ rw e (record { kept = kept; within = h.within })
        | inr (key, e) ↦ rw e (record {
          kept =
              membership-IsKept (Subject.account key) team_key "github.team_members_effective" _
                kept;
          within = h.within;
        })
      ]

  permissions-IsGood :
      (org slug owner_name name : String) (repo : json.Value) (run : Run)
      → IsGood run
      → IsGood (permissions json web order org slug owner_name name repo run).1
  unfolding permissions no_permissions
  permissions-IsGood org slug owner_name name repo run h =
      elim (Result-cases
        (url json web ("orgs" ∷ org ∷ "teams" ∷ slug ∷ "repos" ∷ owner_name ∷ name ∷ []) [])) [
          | inr (e, f) ↦ rw (f, permissions) (failed-IsGood _ e run.budget run h.within h)
          | inl (u, f) ↦
              let w =
                media-IsWithin u "application/vnd.github.v3.repository+json" run.budget h.within in
              rw (f, permissions)
                elim (Result-cases
                  (get_media json web u "application/vnd.github.v3.repository+json" run.budget).0) [
                    | inr (e, g) ↦ rw g (failed-IsGood _ e _ run w h)
                    | inl ((headers, value), g) ↦
                        rw g
                          elim (Bool-cases (
                            json.is_object value
                            && same_id (native_id json value) (native_id json repo))) [
                              | inl same ↦ rw same (record { kept = h.kept; within = w })
                              | inr other ↦ rw other (failed-IsGood _ (error "malformed") _ run w h)
                            ]
                  ]
        ]

  team_grant-IsGood :
      (team_key resource : EntityKey) (p : Option json.Value × Run)
      → IsGood p.1
      → IsGood (team_grant json web order team_key resource p)
  unfolding team_grant
  team_grant-IsGood team_key resource (value, run) h = record {
    kept =
        grant-IsKept (Subject.group team_key) resource _ _ "github.team_repository_effective"
          run.state h.kept;
    within = h.within;
  }

  pub team_repository-IsGood :
      (org : String) (org_key : EntityKey) (slug : String) (team_key : EntityKey)
      (repo : json.Value) (run : Run)
      → IsGood run
      → IsGood (team_repository json web order org org_key slug team_key repo run)
  unfolding team_repository
  team_repository-IsGood org org_key slug team_key repo run h =
      let kept = repository-IsKept json repo run.state h.kept in
      elim (Option-cases (repository json repo run.state).0) [
        | inl e ↦ rw (e, team_repository) (record { kept = kept; within = h.within })
        | inr ((key, owner_name, name), e) ↦
            let granted = team_grant-IsGood team_key key _ (
              permissions-IsGood org slug owner_name name repo
                (record run {
                  state = set_parent org owner_name key org_key (repository json repo run.state).1;
                })
                (record {
                  kept = set_parent-IsKept org owner_name key org_key _ kept;
                  within = h.within;
                })) in
            rw (e, team_repository) (record { kept = granted.kept; within = granted.within })
      ]
