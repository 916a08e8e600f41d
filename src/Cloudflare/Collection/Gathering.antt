-- ===== src/Cloudflare/Collection/Gathering.antt =====
-- providers/cloudflare/src/records.rs: `collect`, the requests and the loops over their rows.
use permesh_providers.Shared.{
  ℕ, ◌+◌, Bool, true, false, List, [], ◌∷◌, ◌++◌, Option, none, some, String, ltb, length,
  if◌then◌else◌, Result, ok, err, ◌>>=◌, each,
}
use permesh_providers.Shared.Map.{Map}
use permesh_providers.Shared.Strings.{◌+++◌}
use permesh_providers.Runtime.Domain.{EntityKey, group, Resource, Snapshot}
use permesh_providers.Runtime.Response.{ProviderError}
use permesh_providers.Http.{Reply}
use permesh_providers.Cloudflare.Values.{Json}
use permesh_providers.Cloudflare.Errors.{error, visibility, max_rows}
use permesh_providers.Cloudflare.Client.{Budget, no_budget_used, request, listing}
use permesh_providers.Cloudflare.Fields.{string}
use permesh_providers.Cloudflare.Unique.{warning, unique}
use permesh_providers.Cloudflare.Policies.{policies}
use permesh_providers.Cloudflare.Collection.{
  Run, Stopped, stop, budget_of, warn, extend, key_of, account_resource, zones_of, provenance,
  member_step, memberships_of, gathered,
}

module _ (json : Json) (joins : String → Bool) (reply : ℕ → String → List (String × String) → Reply)
    (self_id account_id : String) where
  open json use {Value}

  -- A listing whose failure is noted, its rows by their ids.
  unfoldable pub listed :
      String → List (String × String) → Snapshot → Budget → Map String Value × Snapshot × Budget
  listed path filters s b =
      let (l, b') = listing json joins reply path filters b in
      let (rows, s') =
        unique json l.rows (elim l.failure [ none ↦ s | some code ↦ warning s code ]) in
      (rows, s', b')

  module _ (zones : List String) (observed_at : String) where
    -- The rows of a group's members, and the limit on what is collected.
    unfoldable pub group_members : Bool → EntityKey → String → Run → Result Stopped Run
    group_members group_blocked group_key name run =
        let (rows, s, b) =
          listed ("accounts/" +++ account_id +++ "/iam/user_groups/" +++ name +++ "/members") []
            run.snapshot run.budget in
        let run' =
          memberships_of json self_id account_id zones observed_at group_blocked group_key rows
            (record run { snapshot = s; budget = b }) in
        if ltb max_rows (length run'.grants + length run'.memberships)
        then stop "limit" run'
        else ok run'

    unfoldable pub group_step : String × Value → Run → Result Stopped Run
    group_step (name, value) run = elim (string json value "name") [
      | err e ↦ ok (warn "malformed" run)
      | ok title ↦
          let group_key =
            key_of json self_id account_id ("user-group:" +++ account_id +++ ":" +++ name) in
          let run' : Run = record run {
            snapshot = record run.snapshot {
              groups = run.snapshot.groups ++ (record { key = group_key; name = title }) ∷ [];
            };
          } in
          elim (policies json self_id account_id (group group_key) zones
            (provenance json self_id account_id zones observed_at
              "cloudflare.iam.user_groups.policy_assignment")
            value) [
              | err e ↦ group_members true group_key name (warn "unsupported_policy" run')
              | ok found ↦ extend found run' >>= group_members false group_key name
            ]
    ]

    -- The members, then the groups.
    unfoldable pub assignments : Map String Value → Map String Value → Run → Result Stopped Run
    assignments members groups run =
        each (member_step json self_id account_id zones observed_at) members run
        >>= each group_step groups

  -- `collect`. `empty`, `key_before` and `sort` are permesh_core's, `check` the SDK's
  -- `validate_snapshot`; `clock` is the time, where it can be written down.
  module _ (empty : String → Snapshot) (key_before : EntityKey → EntityKey → Bool)
      (sort : Snapshot → Snapshot) (check : Snapshot → Option ProviderError)
      (clock : Option String) where
    -- The listings of the members, the zones and the groups, after the account.
    unfoldable pub after_account : Resource → Budget → Result Stopped Run
    after_account own b =
        let start = record (empty self_id) { limitations = visibility } in
        let s₀ = record start { resources = start.resources ++ own ∷ [] } in
        let (members, s₁, b₁) = listed ("accounts/" +++ account_id +++ "/members") [] s₀ b in
        let (zone_rows, s₂, b₂) = listed "zones" (("account.id", account_id) ∷ []) s₁ b₁ in
        let (zones, s₃) = zones_of json self_id account_id zone_rows ([], s₂) in
        let (groups, s₄, b₃) =
          listed ("accounts/" +++ account_id +++ "/iam/user_groups") [] s₃ b₂ in
        elim clock [
          | none ↦ err (record { error = error "clock"; budget = b₃ })
          | some observed_at ↦ assignments zones observed_at members groups (record {
            snapshot = s₄;
            blocked = [];
            active = [];
            grants = [];
            memberships = [];
            budget = b₃;
          })
        ]

    unfoldable pub run_of : Result Stopped Run
    run_of =
        let (found, b) = request json joins reply ("accounts/" +++ account_id) [] no_budget_used in
        elim found [
          | err e ↦ err (record { error = e; budget = b })
          | ok value ↦ elim (account_resource json self_id account_id value) [
            | err e ↦ err (record { error = e; budget = b })
            | ok own ↦ after_account own b
          ]
        ]

    unfoldable pub finished : Snapshot → Result ProviderError Snapshot
    finished s = elim (check s) [ some e ↦ err e | none ↦ ok s ]

    -- The snapshot, and the budget as it is at the end.
    unfoldable pub collect : Result ProviderError Snapshot × Budget
    collect = (
      elim run_of [
        | err stopped ↦ err stopped.error
        | ok run ↦ finished (sort (gathered json self_id account_id key_before run))
      ],
      budget_of run_of,
    )
