-- ===== src/Github/Discovery/Kinds.antt =====
-- providers/github/src/discovery.rs: the entries of an organization are never blocked, because what
-- is blocked is a repository or a team.
use Prim.Native.Char.{code}
use permesh_providers.Shared.{
  ℕ, ◌≡◌, ◌≢◌, ◌∙◌, sym, string_eq, pair_eq, refl, inl, inr, false, List, [], ◌∷◌, String, All,
  ◌==◌, ==_sound, Bool-cases, Option-cases, arith,
}
use permesh_providers.Shared.Map.{get, has}
use permesh_providers.Shared.Strings.{eq_ignore_ascii_case}
use permesh_providers.Runtime.Domain.{EntityKey, Subject, Privilege}
use permesh_providers.Runtime.Response.{ProviderError}
use permesh_providers.Github.Fields.{Json, native_id}
use permesh_providers.Github.Keys.{key_eq}
use permesh_providers.Github.Records.{
  Collection, entity_key, fail, drop_account, drop_resource, drop_group, add_account, add_resource,
  renamed, add_team, membership, grant, Listing, accept, account_at, account, full_name_of,
  repository_at, repository, slug_and_name, team_at, team,
}
use permesh_providers.Github.Records.Entries.{insert-IsFree, get-Fits, get-free}
use permesh_providers.Github.Records.Sound.{
  IsSound, Located, Grouped, fail-IsSound, membership-IsSound, grant-IsSound,
}
use permesh_providers.Github.Records.Rows.{
  account-IsSound, repository-IsSound, team-IsSound, accept-IsSound,
}
use permesh_providers.Github.Discovery.{add_organization, set_parent}

abbrev pub first_code : String → ℕ
first_code String.[] = 0
first_code (String.◌∷◌ c s) = code c

abbrev pub Starts : ℕ → EntityKey → Type 0
Starts c k = first_code k.id ≡ c

-- The collection's own invariant, and the kinds of what is blocked.
pub record IsKept (c : Collection) : Type 0 where
  pub sound : IsSound c
  pub resources : All (Starts b'r') c.blocked_resources
  pub groups : All (Starts b't') c.blocked_groups

unblocked :
    (c d : ℕ) (k : EntityKey) (blocked : List EntityKey)
    → c ≢ d
    → Starts c k
    → All (Starts d) blocked
    → has k blocked ≡ false
unfolding has
unblocked c d k [] differs here h = refl
unblocked c d k (j ∷ blocked) differs here (first, later) = elim (Bool-cases (j == k)) [
  | inl e ↦
      let same : j ≡ k = ==_sound e in
      let moved : first_code k.id ≡ d = rw same at first in absurd (differs (sym here ∙ moved))
  | inr e ↦ rw e (unblocked c d k blocked differs here later)
]

-- What is blocked of resources and groups is as before.
abbrev SameBlocked : Collection → Collection → Type 0
SameBlocked c d =
    (d.blocked_resources ≡ c.blocked_resources) × (d.blocked_groups ≡ c.blocked_groups)

kept_by : (c d : Collection) → SameBlocked c d → IsSound d → IsKept c → IsKept d
kept_by c d (r, g) s h = record { sound = s; resources = rw r h.resources; groups = rw g h.groups }

pub fail-IsKept :
    (endpoint : String) (e : ProviderError) (c : Collection) → IsKept c → IsKept (fail endpoint e c)
unfolding fail
fail-IsKept endpoint e c h =
    kept_by c (fail endpoint e c) (refl, refl) (fail-IsSound endpoint e c h.sound.separate) h

pub membership-IsKept :
    (member : Subject) (group : EntityKey) (method : String) (c : Collection)
    → IsKept c
    → IsKept (membership member group method c)
unfolding membership
membership-IsKept member group method c h =
    kept_by c (membership member group method c) (refl, refl)
      (membership-IsSound member group method c h.sound) h

pub grant-IsKept :
    (subject : Subject) (resource : EntityKey) (role : String) (privilege : Privilege)
    (method : String) (c : Collection)
    → IsKept c
    → IsKept (grant subject resource role privilege method c)
unfolding grant fail
grant-IsKept subject resource role privilege method c h =
    kept_by c _ (ground arith) (grant-IsSound subject resource role privilege method c h.sound) h

pub set_parent-IsKept :
    (org owner_name : String) (key parent : EntityKey) (c : Collection)
    → IsKept c
    → IsKept (set_parent org owner_name key parent c)
unfolding set_parent
set_parent-IsKept org owner_name key parent c h =
    elim (Bool-cases (eq_ignore_ascii_case owner_name org)) [
      | inr other ↦ rw other h
      | inl own ↦ rw own elim (Option-cases (get key c.resources)) [
        | inl absent ↦ rw absent h
        | inr (r, got) ↦
            let s = h.sound.separate in
            rw got (record {
              sound = record {
                separate = record {
                  accounts = s.accounts;
                  resources =
                      insert-IsFree Located key _ c.blocked_resources c.resources
                        (get-Fits Located key r c.blocked_resources c.resources s.resources got)
                        (get-free Located key r c.blocked_resources c.resources s.resources got)
                        s.resources;
                  groups = s.groups;
                  grants = s.grants;
                };
                open_if = h.sound.open_if;
              };
              resources = h.resources;
              groups = h.groups;
            })
      ]
    ]

pub add_organization-IsKept :
    (org : String) (id : ℕ) (c : Collection) → IsKept c → IsKept (add_organization org id c)
unfolding add_organization entity_key
add_organization-IsKept org id c h =
    let s = h.sound.separate in
    let key : EntityKey = entity_key "organization" id c in
    record {
      sound = record {
        separate = record {
          accounts = s.accounts;
          resources =
              insert-IsFree Located key _ c.blocked_resources c.resources refl
                (unblocked b'o' b'r' key c.blocked_resources (λ e. omega arith) refl h.resources)
                s.resources;
          groups =
              insert-IsFree Grouped key _ c.blocked_groups c.groups refl
                (unblocked b'o' b't' key c.blocked_groups (λ e. omega arith) refl h.groups)
                s.groups;
          grants = s.grants;
        };
        open_if = h.sound.open_if;
      };
      resources = h.resources;
      groups = h.groups;
    }

module _ (json : Json) where
  pub accept-IsKept :
      (endpoint : String) (listed : Listing json) (c : Collection)
      → IsKept c
      → IsKept (accept json endpoint listed c).1
  unfolding accept fail
  accept-IsKept endpoint listed c h =
      kept_by c _ (ground arith) (accept-IsSound json endpoint listed c h.sound) h

  pub account-IsKept : (v : json.Value) (c : Collection) → IsKept c → IsKept (account json v c).1
  unfolding account account_at drop_account add_account fail
  account-IsKept v c h = kept_by c _ (ground arith) (account-IsSound json v c h.sound) h

  repository_blocks :
      (key : EntityKey) (v : json.Value) (c : Collection)
      → Starts b'r' key
      → All (Starts b'r') c.blocked_resources
      → All (Starts b'r') (repository_at json key v c).1.blocked_resources
  unfolding repository_at drop_resource add_resource fail
  repository_blocks key v c at h = elim (Bool-cases (has key c.blocked_resources)) [
    | inl e ↦ rw e h
    | inr e ↦ rw e elim (Option-cases (full_name_of json v)) [
      | inl bad ↦ rw bad (at, h)
      | inr ((full_name, owner, name), f) ↦ rw f elim (Bool-cases (renamed key full_name c)) [
        | inl other ↦ rw other (at, h)
        | inr agrees ↦ rw agrees h
      ]
    ]
  ]

  repository_groups :
      (key : EntityKey) (v : json.Value) (c : Collection)
      → (repository_at json key v c).1.blocked_groups ≡ c.blocked_groups
  unfolding repository_at drop_resource add_resource fail
  repository_groups key v c = ground arith

  pub repository-IsKept :
      (v : json.Value) (c : Collection) → IsKept c → IsKept (repository json v c).1
  unfolding repository entity_key
  repository-IsKept v c h = elim (Option-cases (native_id json v)) [
    | inl e ↦ rw (e, repository) (fail-IsKept _ _ c h)
    | inr (id, e) ↦
        let groups = repository_groups (entity_key "repository" id c) v c in
        let sound = repository-IsSound json v c h.sound in
        rw (e, repository)
          (record {
            sound = rw (e, repository) at sound;
            resources = repository_blocks (entity_key "repository" id c) v c refl h.resources;
            groups = rw groups h.groups;
          })
  ]

  team_blocks :
      (key : EntityKey) (v : json.Value) (org : String) (c : Collection)
      → Starts b't' key
      → All (Starts b't') c.blocked_groups
      → All (Starts b't') (team_at json key v org c).1.blocked_groups
  unfolding team_at drop_group add_team fail
  team_blocks key v org c at h = elim (Bool-cases (has key c.blocked_groups)) [
    | inl e ↦ rw e h
    | inr e ↦ rw e elim (Option-cases (slug_and_name json v)) [
      | inl bad ↦ rw bad (at, h)
      | inr ((slug, name), f) ↦ rw f elim (Option-cases (get key c.teams)) [
        | inl fresh ↦ rw fresh h
        | inr (old, known) ↦ rw known elim (Bool-cases (old == (org, (slug, name)))) [
          | inl agrees ↦ rw agrees h
          | inr other ↦ rw other (at, h)
        ]
      ]
    ]
  ]

  team_resources :
      (key : EntityKey) (v : json.Value) (org : String) (c : Collection)
      → (team_at json key v org c).1.blocked_resources ≡ c.blocked_resources
  unfolding team_at drop_group add_team fail
  team_resources key v org c = ground arith

  pub team-IsKept :
      (v : json.Value) (org : String) (c : Collection) → IsKept c → IsKept (team json v org c).1
  unfolding team entity_key
  team-IsKept v org c h = elim (Option-cases (native_id json v)) [
    | inl e ↦ rw (e, team) (fail-IsKept _ _ c h)
    | inr (id, e) ↦
        let resources = team_resources (entity_key "team" id c) v org c in
        let sound = team-IsSound json v org c h.sound in
        rw (e, team)
          (record {
            sound = rw (e, team) at sound;
            resources = rw resources h.resources;
            groups = team_blocks (entity_key "team" id c) v org c refl h.groups;
          })
  ]
