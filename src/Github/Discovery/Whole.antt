-- ===== src/Github/Discovery/Whole.antt =====
-- providers/github/src/discovery.rs: a whole discovery.
use mathlib.Core.Path.{subst}
use permesh_providers.Shared.{
  ℕ, ◌≤◌, ◌≡◌, refl, inl, inr, Bool, true, List, [], ◌∷◌, Option, none, some, String, ok,
  ok_injective, Bool-cases, Option-cases, Result-cases, arith,
}
use permesh_providers.Shared.Map.{Map, values}
use permesh_providers.Runtime.Domain.{EntityKey, Subject, Snapshot}
use permesh_providers.Github.Errors.{error, max_requests, max_rows}
use permesh_providers.Github.Fields.{Json, native_id}
use permesh_providers.Github.Http.{Web}
use permesh_providers.Github.Records.{Collection, new, entity_key, account, team, gathered, finish}
use permesh_providers.Github.Records.Sound.{IsOpen}
use permesh_providers.Github.Records.Steps.{new-IsSound}
use permesh_providers.Github.Records.Finished.{IsClosed, finish-IsClosed}
use permesh_providers.Github.Client.{object}
use permesh_providers.Github.Discovery.{
  Run, run_of, is_spent, team_row, collaborator_row, collaborators, inside, organization,
  organizations, collect,
}
use permesh_providers.Github.Discovery.Kinds.{
  IsKept, account-IsKept, team-IsKept, grant-IsKept, add_organization-IsKept,
}
use permesh_providers.Github.Discovery.Kept.{
  IsGood, failed-IsGood, object-IsWithin, walk-IsGood, members-IsGood, repository_row-IsGood,
  member_of_team-IsGood, team_repository-IsGood,
}

new-IsKept :
    (json : Json) (empty : String → Snapshot) (clock : Option String) (id : String) (c : Collection)
    → new empty clock id ≡ ok c
    → IsKept c
unfolding new
new-IsKept json empty none id c h = ground arith
new-IsKept json empty (some now) id c h =
    subst IsKept (ok_injective h)
      (record { sound = new-IsSound json empty (some now) id _ refl; resources = tt; groups = tt })

module _ (json : Json) (web : Web)
    (order : Map EntityKey (String × String) → List (EntityKey × (String × String))) where
  team_row-IsGood :
      (org : String) (org_key : EntityKey) (row : json.Value) (run : Run)
      → IsGood run
      → IsGood (team_row json web order org org_key row run)
  unfolding team_row
  team_row-IsGood org org_key row run h =
      let kept = team-IsKept json row org run.state h.kept in
      elim (Option-cases (team json row org run.state).0) [
        | inl e ↦ rw (e, team_row) (record { kept = kept; within = h.within })
        | inr ((key, slug), e) ↦
            rw (e, team_row)
              (walk-IsGood json web order _ _ _ _ _
                (team_repository-IsGood json web order org org_key slug key)
                (walk-IsGood json web order _ _ _ _ _ (member_of_team-IsGood json web order key)
                  (record { kept = kept; within = h.within })))
      ]

  collaborator_row-IsGood :
      (resource : EntityKey) (user : json.Value) (run : Run)
      → IsGood run
      → IsGood (collaborator_row json web order resource user run)
  unfolding collaborator_row
  collaborator_row-IsGood resource user run h =
      let kept = account-IsKept json user run.state h.kept in
      elim (Option-cases (account json user run.state).0) [
        | inl e ↦ rw e (record { kept = kept; within = h.within })
        | inr (key, e) ↦ rw e (record {
          kept =
              grant-IsKept (Subject.account key) resource _ _
                "github.repository_collaborator_effective" _ kept;
          within = h.within;
        })
      ]

  collaborators-IsGood :
      (rows : List (EntityKey × (String × String))) (run : Run)
      → IsGood run
      → IsGood (collaborators json web order rows run)
  unfolding collaborators
  collaborators-IsGood [] run h = h
  collaborators-IsGood ((resource, (owner_name, name)) ∷ rows) run h =
      elim (Bool-cases (is_spent run.budget)) [
        | inl spent ↦ rw spent (failed-IsGood _ _ run.budget run h.within h)
        | inr left ↦ rw left (
            collaborators-IsGood rows _
              (walk-IsGood json web order _ _ _ _ run (collaborator_row-IsGood resource) h))
      ]

  inside-IsGood :
      (org : String) (id : ℕ) (run : Run) → IsGood run → IsGood (inside json web order org id run)
  unfolding inside
  inside-IsGood org id run h =
      let org_key = entity_key "organization" id run.state in
      collaborators-IsGood _ _ (
        walk-IsGood json web order _ _ _ _ _ (team_row-IsGood org org_key) (
          walk-IsGood json web order _ _ _ _ _ (repository_row-IsGood json web order org org_key) (
            members-IsGood json web order org org_key "admin" _ (
              members-IsGood json web order org org_key "member" _ (record {
                kept = add_organization-IsKept org id run.state h.kept;
                within = h.within;
              })))))

  organization-IsGood :
      (org : String) (run : Run) → IsGood run → IsGood (organization json web order org run)
  unfolding organization
  organization-IsGood org run h =
      let w = object-IsWithin json web order ("orgs" ∷ org ∷ []) run.budget h.within in
      elim (Result-cases (object json web ("orgs" ∷ org ∷ []) run.budget).0) [
        | inr (e, f) ↦ rw (f, organization) (failed-IsGood _ e _ run w h)
        | inl (value, f) ↦
            rw (f, organization)
              elim (Option-cases (native_id json value)) [
                | inl unnamed ↦ rw unnamed (failed-IsGood _ (error "malformed") _ run w h)
                | inr (id, named) ↦
                    rw named (inside-IsGood org id _ (record { kept = h.kept; within = w }))
              ]
      ]

  organizations-IsGood :
      (orgs : List String) (run : Run) → IsGood run → IsGood (organizations json web order orgs run)
  unfolding organizations
  organizations-IsGood [] run h = h
  organizations-IsGood (org ∷ orgs) run h = elim (Bool-cases (is_spent run.budget)) [
    | inl spent ↦ rw spent (failed-IsGood _ _ run.budget run h.within h)
    | inr left ↦ rw left (organizations-IsGood orgs _ (organization-IsGood org run h))
  ]

  -- A discovery that succeeds, whatever the server answers and however often, ends in a collection
  -- from which its snapshot is made, and has sent at most the requests, each of them counted, and
  -- charged at most the rows that a run may. The snapshot is valid, and the sorted form of one in which no account, resource,
  -- group, membership or grant speaks of a blocked entity; if that one counts as complete, nothing
  -- was blocked, and every membership and every grant of the collection is in it.
  pub collect-IsClosed :
      (empty : String → Snapshot) (clock : Option String) (sort : Snapshot → Snapshot)
      (valid : Snapshot → Bool) (id : String) (orgs : List String) (s : Snapshot)
      → collect json web order empty clock sort valid id orgs ≡ ok s
      → (c : Collection) × (new empty clock id ≡ ok c)
        × (let end = organizations json web order orgs (run_of json web order c) in
            (end.budget.sent ≤ max_requests)
            × (end.budget.sent ≡ end.budget.requests)
            × (end.budget.requests ≤ max_requests)
            × (end.budget.rows ≤ max_rows)
            × (s ≡ sort (gathered end.state))
            × (valid s ≡ true)
            × IsClosed end.state (gathered end.state)
            × ((gathered end.state).complete ≡ true
                → IsOpen end.state
                  × ((gathered end.state).memberships ≡ values end.state.memberships)
                  × ((gathered end.state).grants ≡ values end.state.grants)))
  unfolding collect
  collect-IsClosed empty clock sort valid id orgs s h = elim (Result-cases (new empty clock id)) [
    | inr (e, f) ↦ ground arith
    | inl (c, f) ↦
        let end = organizations json web order orgs (run_of json web order c) in
        let good : IsGood end = organizations-IsGood orgs (run_of json web order c) (record {
          kept = new-IsKept json empty clock id c f;
          within = record { requests = omega arith; counted = refl; rows = omega arith };
        }) in
        let done : finish sort valid end.state ≡ ok s = rw (f, collect) at h in
        let (success, is, sound, closed, complete) =
          finish-IsClosed sort valid end.state s good.kept.sound done in
        (
          c,
          f,
          (
            omega (arith, good.within.requests, good.within.counted),
            good.within.counted,
            good.within.requests,
            good.within.rows,
            is,
            sound,
            closed,
            complete,
          ),
        )
  ]
