-- ===== src/Github/Records/Rows.antt =====
-- providers/github/src/records.rs: the rows keep the invariant of the collection.
use permesh_providers.Shared.{
  ◌≡◌, refl, inl, inr, true, false, some, String, ◌==◌, string_eq, Bool-cases, Option-cases,
  pair_eq,
}
use permesh_providers.Shared.Map.{get, has}
use permesh_providers.Runtime.Domain.{EntityKey}
use permesh_providers.Github.Fields.{Json, native_id, field, bad_type}
use permesh_providers.Github.Keys.{key_eq, subject_eq}
use permesh_providers.Github.Records.{
  Collection, drop_account, contradicts, add_account, add_resource, renamed, Listing, accept,
  account_at, account_key, account, full_name_of, repository_at, repository, slug_and_name, team_at,
  team,
}
use permesh_providers.Github.Records.Entries.{insert-IsFree}
use permesh_providers.Github.Records.Sound.{
  Located, IsSound, fail-IsSound, drop_account-IsSound, drop_resource-IsSound, drop_group-IsSound,
  add_account-IsSound, old_resource-Located, add_team-IsSound,
}

module _ (json : Json) where
  -- What a row of an account does, by cases.
  pub account_at_cases {ℓ} :
      (P : Collection → Type ℓ) (key : EntityKey) (v : json.Value) (c : Collection)
      → (has key c.blocked_accounts ≡ true → P c)
      → ((code : String) → P (drop_account key code c))
      → ((login : String)
          → field json v "login" ≡ some login
          → has key c.blocked_accounts ≡ false
          → contradicts key login (field json v "type") c ≡ false
          → P (add_account key login (field json v "type") c))
      → P (account_at json key v c).1
  unfolding account_at
  account_at_cases P key v c same dropped added = elim (Bool-cases (has key c.blocked_accounts)) [
    | inl e ↦ rw e (same e)
    | inr e ↦ rw e elim (Option-cases (field json v "login")) [
      | inl none_there ↦ rw none_there (dropped "malformed")
      | inr (login, l) ↦ rw l elim (Bool-cases (bad_type json v)) [
        | inl bad ↦ rw bad (dropped "malformed")
        | inr good ↦ rw good elim (Bool-cases (contradicts key login (field json v "type") c)) [
          | inl other ↦ rw other (dropped "conflict")
          | inr agrees ↦ rw agrees (added login l e agrees)
        ]
      ]
    ]
  ]

  pub account-IsSound : (v : json.Value) (c : Collection) → IsSound c → IsSound (account json v c).1
  unfolding account
  account-IsSound v c s = elim (Option-cases (native_id json v)) [
    | inl e ↦ rw (e, account) (fail-IsSound _ _ c s.separate)
    | inr (id, e) ↦
        rw (e, account)
          (account_at_cases IsSound (account_key json id c) v c (λ e. s)
            (λ code. drop_account-IsSound (account_key json id c) code c s)
            (λ login l free agrees. add_account-IsSound (account_key json id c) login _ c free s))
  ]

  repository_at-IsSound :
      (key : EntityKey) (v : json.Value) (c : Collection)
      → IsSound c
      → IsSound (repository_at json key v c).1
  unfolding repository_at add_resource
  repository_at-IsSound key v c s = elim (Bool-cases (has key c.blocked_resources)) [
    | inl e ↦ rw e s
    | inr e ↦ rw e elim (Option-cases (full_name_of json v)) [
      | inl bad ↦ rw bad (drop_resource-IsSound key "malformed" c s)
      | inr ((full_name, owner, name), f) ↦ rw f elim (Bool-cases (renamed key full_name c)) [
        | inl other ↦ rw other (drop_resource-IsSound key "conflict" c s)
        | inr agrees ↦ rw agrees (record {
          separate = record {
            accounts = s.separate.accounts;
            resources =
                insert-IsFree Located key _ c.blocked_resources c.resources
                  (old_resource-Located key _ c s refl) e s.separate.resources;
            groups = s.separate.groups;
            grants = s.separate.grants;
          };
          open_if = s.open_if;
        })
      ]
    ]
  ]

  pub repository-IsSound :
      (v : json.Value) (c : Collection) → IsSound c → IsSound (repository json v c).1
  unfolding repository
  repository-IsSound v c s = elim (Option-cases (native_id json v)) [
    | inl e ↦ rw (e, repository) (fail-IsSound _ _ c s.separate)
    | inr (id, e) ↦ rw (e, repository) (repository_at-IsSound _ v c s)
  ]

  team_at-IsSound :
      (key : EntityKey) (v : json.Value) (org : String) (c : Collection)
      → IsSound c
      → IsSound (team_at json key v org c).1
  unfolding team_at
  team_at-IsSound key v org c s = elim (Bool-cases (has key c.blocked_groups)) [
    | inl e ↦ rw e s
    | inr e ↦ rw e elim (Option-cases (slug_and_name json v)) [
      | inl bad ↦ rw bad (drop_group-IsSound key "malformed" c s)
      | inr ((slug, name), f) ↦ rw f elim (Option-cases (get key c.teams)) [
        | inl fresh ↦ rw fresh (add_team-IsSound key org slug name c e s)
        | inr (old, known) ↦ rw known elim (Bool-cases (old == (org, (slug, name)))) [
          | inl agrees ↦ rw agrees s
          | inr other ↦ rw other (drop_group-IsSound key "conflict" c s)
        ]
      ]
    ]
  ]

  pub team-IsSound :
      (v : json.Value) (org : String) (c : Collection) → IsSound c → IsSound (team json v org c).1
  unfolding team
  team-IsSound v org c s = elim (Option-cases (native_id json v)) [
    | inl e ↦ rw (e, team) (fail-IsSound _ _ c s.separate)
    | inr (id, e) ↦ rw (e, team) (team_at-IsSound _ v org c s)
  ]

  pub accept-IsSound :
      (endpoint : String) (list : Listing json) (c : Collection)
      → IsSound c
      → IsSound (accept json endpoint list c).1
  unfolding accept
  accept-IsSound endpoint list c s = elim (Option-cases list.error) [
    | inl e ↦ rw e (record {
      separate = record {
        accounts = s.separate.accounts;
        resources = s.separate.resources;
        groups = s.separate.groups;
        grants = s.separate.grants;
      };
      open_if = s.open_if;
    })
    | inr (x, e) ↦ rw e (
        fail-IsSound _ _ _ (record {
          accounts = s.separate.accounts;
          resources = s.separate.resources;
          groups = s.separate.groups;
          grants = s.separate.grants;
        }))
  ]
