-- ===== src/Cloudflare/Policies.antt =====
-- providers/cloudflare/src/records.rs: `policies`, what the policies of a member or a group assign.
pub mod Allowed
use permesh_providers.Shared.{
  ℕ, ◌+◌, Bool, true, false, not, ◌&&◌, List, [], ◌∷◌, ◌++◌, all, Option, none, some, String, leb,
  length, if◌then◌else◌, Result, ok, err, ◌>>=◌, ◌>>◌, ensure, ok_or, each, ◌==◌, string_eq,
}
use permesh_providers.Shared.Map.{Map, get, put, has}
use permesh_providers.Shared.Strings.{◌+++◌, strip_prefix}
use permesh_providers.Runtime.Domain.{
  EntityKey, Subject, account, group, Resource, Grant, Provenance, Privilege, Certainty,
  EvidenceKind,
}
use permesh_providers.Runtime.Response.{ProviderError}
use permesh_providers.Cloudflare.Values.{Json}
use permesh_providers.Cloudflare.Errors.{error, max_rows}
use permesh_providers.Cloudflare.Fields.{native_id, str_at, string, id}
use permesh_providers.Cloudflare.Unique.{before, differs}

abbrev pub unsupported : ProviderError
unsupported = error "unsupported_policy"

abbrev pub subject_id : Subject → String
subject_id (account key) = key.id
subject_id (group key) = key.id

-- Whether the name of a role was another one before.
unfoldable pub renames : Option String → String → Bool
renames none name = false
renames (some old) name = not (old == name)

unfoldable pub is_expected : Option String → String → Bool
is_expected none s = false
is_expected (some t) s = t == s

-- `self`: the instance, and the account of the provider.
module _ (json : Json) (self_id account_id : String) where
  open json use {Value}

  abbrev pub key : String → EntityKey
  key name = record { provider = self_id; id = name }

  -- An object with no keys but these.
  unfoldable pub keys_within : List String → Value → Bool
  keys_within allowed v = elim (json.keys v) [
    | none ↦ false
    | some found ↦ all (λ k. has k allowed) found
  ]

  -- An array that is not empty.
  unfoldable pub filled : Value → String → Result ProviderError (List Value)
  filled v name = elim (json.get v name) [
    | none ↦ err unsupported
    | some w ↦ elim (json.as_array w) [
      | none ↦ err unsupported
      | some [] ↦ err unsupported
      | some (x ∷ xs) ↦ ok (x ∷ xs)
    ]
  ]

  unfoldable pub whole_scope : Resource
  whole_scope = record {
    key = key ("policy-scope:account:" +++ account_id +++ ":all");
    name =
        "All resources policy scope in Cloudflare account " +++ account_id
        +++ " (assignment evidence)";
    kind = some "cloudflare.policy_scope";
    parent = some (key ("account:" +++ account_id));
  }

  unfoldable pub zone_scope : String → Resource
  zone_scope zone = record {
    key = key ("zone:" +++ zone);
    name = zone;
    kind = some "cloudflare.zone";
    parent = some (key ("account:" +++ account_id));
  }

  -- The resource of an object's key.
  unfoldable pub target_of : List String → String → Result ProviderError Resource
  target_of zones target =
      if target == "*"
      then ok whole_scope
      else elim (strip_prefix "com.cloudflare.api.account.zone." target) [
        | none ↦ err unsupported
        | some zone ↦
            if native_id zone && has zone zones then ok (zone_scope zone) else err unsupported
      ]

  -- What the loops keep.
  pub record Assigned : Type 0 where
    pub records : List (Grant × Resource)
    pub seen : Map String Value
    pub role_names : Map String String

  module _ (subject : Subject) (zones : List String) (provenance : Provenance) where
    unfoldable pub grant : String → Resource → String → String → Grant
    grant policy_id resource role_id name = record {
      id =
          subject_id subject
          +++ ":policy:"
          +++ policy_id
          +++ ":role:"
          +++ role_id
          +++ ":"
          +++ resource.key.id;
      subject = subject;
      resource = resource.key;
      role = name;
      privilege = Privilege.unknown;
      certainty = Certainty.observed;
      evidence_kind = EvidenceKind.assignment;
      provenance = provenance;
    }

    unfoldable pub assign : String → Resource → String → String → Assigned → Assigned
    assign policy_id resource role_id name a = record a {
      records = a.records ++ (grant policy_id resource role_id name, resource) ∷ [];
      role_names = put before role_id name a.role_names;
    }

    unfoldable pub role_row : String → Resource → Value → Assigned → Result ProviderError Assigned
    role_row policy_id resource role a = do
      ensure (keys_within ("id" ∷ "meta" ∷ "name" ∷ []) role) unsupported
      role_id ← id json role
      name ← string json role "name"
      ensure (not (renames (get role_id a.role_names) name)) unsupported
      ensure (leb (length a.records + 1) max_rows) (error "limit")
      ok (assign policy_id resource role_id name a)

    unfoldable pub object_row :
        String → List Value → Value → Assigned → Result ProviderError Assigned
    object_row policy_id roles object a = do
      ensure (keys_within ("key" ∷ []) object) unsupported
      target ← string json object "key"
      resource ← target_of zones target
      each (role_row policy_id resource) roles a

    unfoldable pub resource_row :
        String → List Value → Value → Assigned → Result ProviderError Assigned
    resource_row policy_id roles resource a = do
      ensure (keys_within ("id" ∷ "scope" ∷ "meta" ∷ "name" ∷ []) resource) unsupported
      scope ← ok_or (json.get resource "scope") unsupported
      ensure (keys_within ("key" ∷ "objects" ∷ []) scope) unsupported
      ensure (is_expected (str_at json scope "key") ("com.cloudflare.api.account." +++ account_id))
          unsupported
      objects ← filled scope "objects"
      each (object_row policy_id roles) objects a

    -- A policy, noted under its id.
    unfoldable pub note : String → Value → Assigned → Assigned
    note policy_id policy a = record a { seen = put before policy_id policy a.seen }

    unfoldable pub policy_row : Value → Assigned → Result ProviderError Assigned
    policy_row policy a = do
      policy_id ← id json policy
      ensure (keys_within ("id" ∷ "access" ∷ "permission_groups" ∷ "resource_groups" ∷ []) policy)
          unsupported
      ensure (not (differs json (get policy_id a.seen) policy)) unsupported
      ensure (is_expected (str_at json policy "access") "allow") unsupported
      roles ← filled policy "permission_groups"
      resources ← filled policy "resource_groups"
      each (resource_row policy_id roles) resources (note policy_id policy a)

    unfoldable pub policies_of : Value → Option (List Value)
    policies_of value = elim (json.get value "policies") [ none ↦ none | some v ↦ json.as_array v ]

    unfoldable pub policies : Value → Result ProviderError (List (Grant × Resource))
    policies value = do
      rows ← ok_or (policies_of value) unsupported
      done ← each policy_row rows (record { records = []; seen = []; role_names = [] })
      ok done.records
