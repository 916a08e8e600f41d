-- ===== src/Github/Records/Sound.antt =====
-- providers/github/src/records.rs: what every collection keeps, and what a finished snapshot holds.
use permesh_providers.Shared.{
  ◌≡◌, refl, inl, inr, true, false, not, ◌||◌, [], Option, none, some, String, ◌==◌, string_eq,
  Bool-cases, Option-cases, arith, pair_eq,
}
use permesh_providers.Shared.Map.{get, has}
use permesh_providers.Runtime.Domain.{
  EntityKey, Subject, Account, Resource, Group, Grant, Privilege,
}
use permesh_providers.Runtime.Response.{ProviderError}
use permesh_providers.Github.Fields.{unwrap_or}
use permesh_providers.Github.Keys.{key_eq, subject_eq, same_privilege}
use permesh_providers.Github.Records.{
  GrantKey, Collection, fail, drop_account, drop_resource, drop_group, add_account, add_team,
  membership, grant_of, grant,
}
use permesh_providers.Github.Records.Entries.{IsFree, remove-IsFree, insert-IsFree, get-Fits}

-- An entry stands under the key that it names.
abbrev pub Accounted : EntityKey → Account → Type 0
Accounted k a = a.key ≡ k

abbrev pub Located : EntityKey → Resource → Type 0
Located k r = r.key ≡ k

abbrev pub Grouped : EntityKey → Group → Type 0
Grouped k g = g.key ≡ k

abbrev pub Granted : GrantKey → Grant → Type 0
Granted k g = (g.provenance.method, (g.subject, g.resource)) ≡ k

-- Each entity stands under its own key, and none that is blocked is there.
pub record IsSeparate (c : Collection) : Type 0 where
  pub accounts : IsFree Accounted c.blocked_accounts c.accounts
  pub resources : IsFree Located c.blocked_resources c.resources
  pub groups : IsFree Grouped c.blocked_groups c.groups
  pub grants : IsFree Granted c.blocked_grants c.grants

-- Nothing is blocked.
abbrev pub IsOpen : Collection → Type 0
IsOpen c =
    (c.blocked_accounts ≡ [])
    × (c.blocked_resources ≡ [])
    × (c.blocked_groups ≡ [])
    × (c.blocked_grants ≡ [])

pub record IsSound (c : Collection) : Type 0 where
  pub separate : IsSeparate c
  pub open_if : c.snapshot.complete ≡ true → IsOpen c

pub fail-IsSound :
    (endpoint : String) (e : ProviderError) (c : Collection)
    → IsSeparate c
    → IsSound (fail endpoint e c)
unfolding fail
fail-IsSound endpoint e c s = record {
  separate = record {
    accounts = s.accounts;
    resources = s.resources;
    groups = s.groups;
    grants = s.grants;
  };
  open_if = λ h. ground arith;
}

pub drop_account-IsSound :
    (key : EntityKey) (code : String) (c : Collection)
    → IsSound c
    → IsSound (drop_account key code c)
unfolding drop_account
drop_account-IsSound key code c s = fail-IsSound _ _ _ (record {
  accounts = remove-IsFree Accounted key c.blocked_accounts c.accounts s.separate.accounts;
  resources = s.separate.resources;
  groups = s.separate.groups;
  grants = s.separate.grants;
})

pub drop_resource-IsSound :
    (key : EntityKey) (code : String) (c : Collection)
    → IsSound c
    → IsSound (drop_resource key code c)
unfolding drop_resource
drop_resource-IsSound key code c s = fail-IsSound _ _ _ (record {
  accounts = s.separate.accounts;
  resources = remove-IsFree Located key c.blocked_resources c.resources s.separate.resources;
  groups = s.separate.groups;
  grants = s.separate.grants;
})

pub drop_group-IsSound :
    (key : EntityKey) (code : String) (c : Collection) → IsSound c → IsSound (drop_group key code c)
unfolding drop_group
drop_group-IsSound key code c s = fail-IsSound _ _ _ (record {
  accounts = s.separate.accounts;
  resources = s.separate.resources;
  groups = remove-IsFree Grouped key c.blocked_groups c.groups s.separate.groups;
  grants = s.separate.grants;
})

old_account-Accounted :
    (key : EntityKey) (fresh : Account) (c : Collection)
    → IsSound c
    → fresh.key ≡ key
    → Accounted key (unwrap_or (get key c.accounts) fresh)
old_account-Accounted key fresh c s e = elim (Option-cases (get key c.accounts)) [
  | inl h ↦ rw h e
  | inr (a, h) ↦ rw h (get-Fits Accounted key a c.blocked_accounts c.accounts s.separate.accounts h)
]

pub add_account-IsSound :
    (key : EntityKey) (login : String) (native_type : Option String) (c : Collection)
    → has key c.blocked_accounts ≡ false
    → IsSound c
    → IsSound (add_account key login native_type c)
unfolding add_account
add_account-IsSound key login none c free s = record {
  separate = record {
    accounts =
        insert-IsFree Accounted key _ c.blocked_accounts c.accounts
          (old_account-Accounted key _ c s refl) free s.separate.accounts;
    resources = s.separate.resources;
    groups = s.separate.groups;
    grants = s.separate.grants;
  };
  open_if = s.open_if;
}
add_account-IsSound key login (some t) c free s = record {
  separate = record {
    accounts =
        insert-IsFree Accounted key _ c.blocked_accounts c.accounts
          (old_account-Accounted key _ c s refl) free s.separate.accounts;
    resources = s.separate.resources;
    groups = s.separate.groups;
    grants = s.separate.grants;
  };
  open_if = s.open_if;
}

pub old_resource-Located :
    (key : EntityKey) (fresh : Resource) (c : Collection)
    → IsSound c
    → fresh.key ≡ key
    → Located key (unwrap_or (get key c.resources) fresh)
old_resource-Located key fresh c s e = elim (Option-cases (get key c.resources)) [
  | inl h ↦ rw h e
  | inr (r, h) ↦
      rw h (get-Fits Located key r c.blocked_resources c.resources s.separate.resources h)
]

pub add_team-IsSound :
    (key : EntityKey) (org slug name : String) (c : Collection)
    → has key c.blocked_groups ≡ false
    → IsSound c
    → IsSound (add_team key org slug name c)
unfolding add_team
add_team-IsSound key org slug name c free s = record {
  separate = record {
    accounts = s.separate.accounts;
    resources = s.separate.resources;
    groups = insert-IsFree Grouped key _ c.blocked_groups c.groups refl free s.separate.groups;
    grants = s.separate.grants;
  };
  open_if = s.open_if;
}

pub membership-IsSound :
    (member : Subject) (group : EntityKey) (method : String) (c : Collection)
    → IsSound c
    → IsSound (membership member group method c)
unfolding membership
membership-IsSound member group method c s = record {
  separate = record {
    accounts = s.separate.accounts;
    resources = s.separate.resources;
    groups = s.separate.groups;
    grants = s.separate.grants;
  };
  open_if = s.open_if;
}

grant_of-Granted :
    (subject : Subject) (resource : EntityKey) (role : String) (privilege : Privilege)
    (method : String) (c : Collection)
    → Granted (method, (subject, resource)) (grant_of subject resource role privilege method c)
unfolding grant_of
grant_of-Granted subject resource role privilege method c = refl

pub grant-IsSound :
    (subject : Subject) (resource : EntityKey) (role : String) (privilege : Privilege)
    (method : String) (c : Collection)
    → IsSound c
    → IsSound (grant subject resource role privilege method c)
unfolding grant
grant-IsSound subject resource role privilege method c s =
    let claim : GrantKey = (method, (subject, resource)) in
    elim (Bool-cases (has claim c.blocked_grants)) [
      | inl e ↦ rw e s
      | inr e ↦ rw e elim (Option-cases (get claim c.grants)) [
        | inl fresh ↦ rw fresh (record {
          separate = record {
            accounts = s.separate.accounts;
            resources = s.separate.resources;
            groups = s.separate.groups;
            grants =
                insert-IsFree Granted claim _ c.blocked_grants c.grants
                  (grant_of-Granted subject resource role privilege method c) e s.separate.grants;
          };
          open_if = s.open_if;
        })
        | inr (old, known) ↦
            rw known
              elim (Bool-cases
                (not (old.role == role) || not (same_privilege old.privilege privilege))) [
                  | inl other ↦ rw other (
                      fail-IsSound _ _ _ (record {
                        accounts = s.separate.accounts;
                        resources = s.separate.resources;
                        groups = s.separate.groups;
                        grants =
                            remove-IsFree Granted claim c.blocked_grants c.grants s.separate.grants;
                      }))
                  | inr agrees ↦ rw agrees s
                ]
      ]
    ]
