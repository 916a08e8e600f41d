-- ===== src/Cloudflare/Collection/Requests.antt =====
-- providers/cloudflare/src/records.rs: the requests of a whole collection.
use mathlib.Core.Path.{subst}
use permesh_providers.Shared.{
  ℕ, ◌+◌, ltb, length, Result, err, ◌≡◌, refl, sym, ◌∙◌, inl, inr, Bool, true, false, List, [], ◌∷◌,
  ◌++◌, Option, String, ok, ◌>>=◌, each, Bool-cases, Option-cases, Result-cases, arith,
}
use permesh_providers.Shared.Map.{Map}
use permesh_providers.Shared.Strings.{◌+++◌}
use permesh_providers.Http.{Reply}
use permesh_providers.Runtime.Domain.{EntityKey, group, Resource, Grant, Snapshot}
use permesh_providers.Runtime.Response.{ProviderError}
use permesh_providers.Cloudflare.Values.{Json}
use permesh_providers.Cloudflare.Errors.{max_rows}
use permesh_providers.Cloudflare.Client.{Budget, no_budget_used, request}
use permesh_providers.Cloudflare.Client.Requests.{IsWithin, request-IsWithin, listing-IsWithin}
use permesh_providers.Cloudflare.Fields.{string, member}
use permesh_providers.Cloudflare.Policies.{policies}
use permesh_providers.Cloudflare.Collection.{
  Run, Stopped, budget_of, warn, extend, key_of, activate, assigned, account_resource, provenance,
  member_step, membership_step, memberships_of,
}
use permesh_providers.Cloudflare.Collection.Gathering.{
  listed, group_members, group_step, assignments, after_account, run_of, collect,
}

-- However a loop ends, its budget is within the limit.
abbrev Within : Result Stopped Run → Type 0
Within r = IsWithin (budget_of r)

bind-Within :
    (r : Result Stopped Run) (next : Run → Result Stopped Run)
    → Within r
    → ((run : Run) → IsWithin run.budget → Within (next run))
    → Within (r >>= next)
bind-Within (ok run) next h k = k run h
bind-Within (err stopped) next h k = h

each-Within {ℓ} :
    {A : Type ℓ} (f : A → Run → Result Stopped Run)
    → ((a : A) (run : Run) → IsWithin run.budget → Within (f a run))
    → (items : List A) (run : Run) → IsWithin run.budget
    → Within (each f items run)
each-Within f keeps [] run h = h
each-Within f keeps (a ∷ items) run h =
    bind-Within (f a run) (each f items) (keeps a run h) (each-Within f keeps items)

extend-Within :
    (found : List (Grant × Resource)) (run : Run) → IsWithin run.budget → Within (extend found run)
unfolding extend
extend-Within found run h = elim (Bool-cases (ltb max_rows (length run.grants + length found))) [
  | inl full ↦ rw full h
  | inr fits ↦ rw fits h
]

module _ (json : Json) (joins : String → Bool) (reply : ℕ → String → List (String × String) → Reply)
    (self_id account_id : String) where
  listed-IsWithin :
      (path : String) (filters : List (String × String)) (s : Snapshot) (b : Budget)
      → IsWithin b
      → IsWithin (listed json joins reply self_id account_id path filters s b).2
  unfolding listed
  listed-IsWithin path filters s b h = listing-IsWithin json joins reply path filters b h

  module _ (zones : List String) (observed_at : String) where
    member_step-Within :
        (row : String × json.Value) (run : Run)
        → IsWithin run.budget
        → Within (member_step json self_id account_id zones observed_at row run)
    unfolding member_step activate
    member_step-Within (name, value) run h = elim (Result-cases (member json value)) [
      | inr (x, f) ↦ rw (f, member_step) h
      | inl ((own, login, accepted), f) ↦
          rw (f, member_step)
            elim (Bool-cases accepted) [
              | inr other ↦ rw other h
              | inl good ↦
                  rw good
                    elim (Result-cases
                      (assigned json self_id account_id zones observed_at name value)) [
                        | inr (x, g) ↦ rw g h
                        | inl (found, g) ↦ rw g (
                            extend-Within found
                              (activate json self_id account_id zones observed_at name login run) h)
                      ]
            ]
    ]

    memberships_of_budget :
        (group_blocked : Bool) (group_key : EntityKey) (rows : Map String json.Value) (run : Run)
        → (memberships_of json self_id account_id zones observed_at group_blocked group_key rows
            run).budget
          ≡ run.budget
    unfolding memberships_of membership_step
    memberships_of_budget group_blocked group_key [] run = refl
    memberships_of_budget group_blocked group_key ((name, row) ∷ rows) run =
        let next =
          membership_step json self_id account_id zones observed_at group_blocked group_key
            (name, row) run in
        let same : next.budget ≡ run.budget = ground arith in
        memberships_of_budget group_blocked group_key rows next ∙ same

    group_members-Within :
        (group_blocked : Bool) (group_key : EntityKey) (name : String) (run : Run)
        → IsWithin run.budget
        → Within (
            group_members json joins reply self_id account_id zones observed_at group_blocked
              group_key name run)
    unfolding group_members
    group_members-Within group_blocked group_key name run h =
        let path = "accounts/" +++ account_id +++ "/iam/user_groups/" +++ name +++ "/members" in
        let (rows, s, b) =
          listed json joins reply self_id account_id path [] run.snapshot run.budget in
        let read = record run { snapshot = s; budget = b } in
        let done =
          memberships_of json self_id account_id zones observed_at group_blocked group_key rows
            read in
        let within : IsWithin done.budget =
          subst IsWithin (sym (memberships_of_budget group_blocked group_key rows read))
            (listed-IsWithin path [] run.snapshot run.budget h) in
        elim (Bool-cases (ltb max_rows (length done.grants + length done.memberships))) [
          | inl full ↦ rw full within
          | inr fits ↦ rw fits within
        ]

    group_step-Within :
        (row : String × json.Value) (run : Run)
        → IsWithin run.budget
        → Within (group_step json joins reply self_id account_id zones observed_at row run)
    unfolding group_step
    group_step-Within (name, value) run h = elim (Result-cases (string json value "name")) [
      | inr (x, f) ↦ rw (f, group_step) h
      | inl (title, f) ↦
          let group_key =
            key_of json self_id account_id ("user-group:" +++ account_id +++ ":" +++ name) in
          let run' : Run = record run {
            snapshot = record run.snapshot {
              groups = run.snapshot.groups ++ (record { key = group_key; name = title }) ∷ [];
            };
          } in
          rw (f, group_step)
            elim (Result-cases (
              policies json self_id account_id (group group_key) zones
                (provenance json self_id account_id zones observed_at
                  "cloudflare.iam.user_groups.policy_assignment")
                value)) [
                  | inr (x, g) ↦
                      rw g (
                        group_members-Within true group_key name (warn "unsupported_policy" run') h)
                  | inl (found, g) ↦ rw g (
                      bind-Within (extend found run') _ (extend-Within found run' h)
                        (group_members-Within false group_key name))
                ]
    ]

    assignments-Within :
        (members groups : Map String json.Value) (run : Run)
        → IsWithin run.budget
        → Within
            (assignments json joins reply self_id account_id zones observed_at members groups run)
    unfolding assignments
    assignments-Within members groups run h =
        let members_step = member_step json self_id account_id zones observed_at in
        let groups_step = group_step json joins reply self_id account_id zones observed_at in
        bind-Within (each members_step members run) (each groups_step groups)
          (each-Within members_step member_step-Within members run h)
          (each-Within groups_step group_step-Within groups)

  module _ (empty : String → Snapshot) (key_before : EntityKey → EntityKey → Bool)
      (sort : Snapshot → Snapshot) (check : Snapshot → Option ProviderError)
      (clock : Option String) where
    after_account-Within :
        (own : Resource) (b : Budget)
        → IsWithin b
        → Within (
            after_account json joins reply self_id account_id empty key_before sort check clock own
              b)
    unfolding after_account
    after_account-Within own b h =
        let third = listed-IsWithin _ _ _ _ (listed-IsWithin _ _ _ _ (listed-IsWithin _ _ _ b h)) in
        elim (Option-cases clock) [
          | inl f ↦ rw f third
          | inr (now, f) ↦ rw f (assignments-Within _ now _ _ _ third)
        ]

    run_of-Within :
        Within (run_of json joins reply self_id account_id empty key_before sort check clock)
    unfolding run_of
    run_of-Within =
        let (found, b) = request json joins reply ("accounts/" +++ account_id) [] no_budget_used in
        let start : IsWithin no_budget_used = record {
          counted = omega arith;
          capped = omega arith;
        } in
        let asked =
          request-IsWithin json joins reply ("accounts/" +++ account_id) [] no_budget_used start in
        elim (Result-cases found) [
          | inr (e, f) ↦ rw (f, run_of) asked
          | inl (value, f) ↦
              rw (f, run_of)
                elim (Result-cases (account_resource json self_id account_id value)) [
                  | inr (e, g) ↦ rw g asked
                  | inl (own, g) ↦ rw g (after_account-Within own b asked)
                ]
        ]

    -- A whole collection, whether it succeeds or ends with an error, sends no more requests than a run
    -- may send, and each that it sends is counted, whatever the server answers and however many
    -- groups and pages there are.
    pub collect-IsWithin :
        IsWithin (collect json joins reply self_id account_id empty key_before sort check clock).1
    unfolding collect
    collect-IsWithin = run_of-Within
