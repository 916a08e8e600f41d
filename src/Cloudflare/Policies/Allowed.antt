-- ===== src/Cloudflare/Policies/Allowed.antt =====
-- providers/cloudflare/src/records.rs: what `policies` may grant.
use permesh_providers.Shared.{
  ◌+◌, ◌≤◌, ◌≡◌, refl, ◌⊎◌, inl, inr, true, List, [], ◌∷◌, some, String, length, length-append, ok,
  each, each-ok, ◌==◌, string_eq, All, All-append, Bool-cases, Option-cases, Result-cases, arith,
}
use mathlib.Core.Path.{subst}
use permesh_providers.Shared.Map.{has}
use permesh_providers.Shared.Strings.{strip_prefix}
use permesh_providers.Runtime.Domain.{Subject, Resource, Grant, Provenance}
use permesh_providers.Cloudflare.Values.{Json}
use permesh_providers.Cloudflare.Errors.{max_rows}
use permesh_providers.Cloudflare.Fields.{str_at, string, id}
use permesh_providers.Cloudflare.Policies.{
  is_expected, filled, whole_scope, zone_scope, target_of, Assigned, grant, assign, role_row,
  object_row, resource_row, note, policy_row, policies_of, policies,
}

module _ (json : Json) (self_id account_id : String) where
  open json use {Value}

  -- The scope of the whole account, or a zone that was listed.
  pub InScope : List String → Resource → Type 0
  InScope zones r =
      (r ≡ whole_scope json self_id account_id)
      ⊎ ((zone : String) × (r ≡ zone_scope json self_id account_id zone) × (has zone zones ≡ true))

  target_of-InScope :
      (zones : List String) (target : String) (r : Resource)
      → target_of json self_id account_id zones target ≡ ok r
      → InScope zones r
  unfolding target_of InScope
  target_of-InScope zones target r h = elim (Bool-cases (target == "*")) [
    | inl e ↦ inl (ground arith)
    | inr e ↦ elim (Option-cases (strip_prefix "com.cloudflare.api.account.zone." target)) [
      | inl f ↦ ground arith
      | inr (zone, f) ↦ inr (zone, ground arith, ground arith)
    ]
  ]

  module _ (subject : Subject) (zones : List String) (provenance : Provenance) where
    pub record IsAllowed (p : Grant × Resource) : Type 0 where
      pub of_subject : p.0.subject ≡ subject
      pub by : p.0.provenance ≡ provenance
      pub at : p.0.resource ≡ p.1.key
      pub scope : InScope zones p.1

    record IsFair (a : Assigned json self_id account_id) : Type 0 where
      granted : All IsAllowed a.records
      few : length a.records ≤ max_rows

    assign-IsFair :
        (policy_id : String) (r : Resource) (role_id name : String)
        (a : Assigned json self_id account_id)
        → InScope zones r
        → IsFair a
        → length a.records + 1 ≤ max_rows
        → IsFair
            (assign json self_id account_id subject zones provenance policy_id r role_id name a)
    unfolding assign grant
    assign-IsFair policy_id r role_id name a inside h room = record {
      granted =
          All-append IsAllowed a.records
            ((grant json self_id account_id subject zones provenance policy_id r role_id name, r)
              ∷ [])
            h.granted (record { of_subject = refl; by = refl; at = refl; scope = inside }, tt);
      few = omega (
        arith,
        room,
        length-append a.records (
            (grant json self_id account_id subject zones provenance policy_id r role_id name, r)
            ∷ []),
      );
    }

    role_row-IsFair :
        (policy_id : String) (r : Resource)
        → InScope zones r
        → (role : Value) (a a' : Assigned json self_id account_id) → IsFair a
        → role_row json self_id account_id subject zones provenance policy_id r role a ≡ ok a'
        → IsFair a' × Unit {0}
    unfolding role_row
    role_row-IsFair policy_id r inside role a a' h e = elim (Result-cases (id json role)) [
      | inr (x, f) ↦ ground arith
      | inl (role_id, f) ↦ elim (Result-cases (string json role "name")) [
        | inr (x, g) ↦ ground arith
        | inl (name, g) ↦
            let room : length a.records + 1 ≤ max_rows = ground arith in
            let done : assign json self_id account_id subject zones provenance policy_id r role_id
                  name a
                ≡ a' =
              ground arith in
            (subst IsFair done (assign-IsFair policy_id r role_id name a inside h room), tt)
      ]
    ]

    object_row-IsFair :
        (policy_id : String) (roles : List Value) (object : Value)
        (a a' : Assigned json self_id account_id)
        → IsFair a
        → object_row json self_id account_id subject zones provenance policy_id roles object a
          ≡ ok a'
        → IsFair a' × Unit {0}
    unfolding object_row
    object_row-IsFair policy_id roles object a a' h e =
        elim (Result-cases (string json object "key")) [
          | inr (x, f) ↦ ground arith
          | inl (target, f) ↦ elim (Result-cases (target_of json self_id account_id zones target)) [
            | inr (x, g) ↦ ground arith
            | inl (r, g) ↦
                let rest : each
                      (role_row json self_id account_id subject zones provenance policy_id r) roles
                      a
                    ≡ ok a' =
                  ground arith in
                (
                  (each-ok IsFair (λ role. Unit {0}) _
                      (role_row-IsFair policy_id r (target_of-InScope zones target r g)) roles a a'
                      h rest).0,
                  tt,
                )
          ]
        ]

    resource_row-IsFair :
        (policy_id : String) (roles : List Value) (resource : Value)
        (a a' : Assigned json self_id account_id)
        → IsFair a
        → resource_row json self_id account_id subject zones provenance policy_id roles resource a
          ≡ ok a'
        → IsFair a' × Unit {0}
    unfolding resource_row
    resource_row-IsFair policy_id roles resource a a' h e =
        elim (Option-cases (json.get resource "scope")) [
          | inl f ↦ ground arith
          | inr (scope, f) ↦ elim (Result-cases (filled json self_id account_id scope "objects")) [
            | inr (x, g) ↦ ground arith
            | inl (objects, g) ↦
                let rest : each
                      (object_row json self_id account_id subject zones provenance policy_id roles)
                      objects a
                    ≡ ok a' =
                  ground arith in
                (
                  (each-ok IsFair (λ object. Unit {0}) _ (object_row-IsFair policy_id roles) objects
                      a a' h rest).0,
                  tt,
                )
          ]
        ]

    -- A policy that allows.
    pub Allows : Value → Type 0
    Allows policy = is_expected (str_at json policy "access") "allow" ≡ true

    policy_row-IsFair :
        (policy : Value) (a a' : Assigned json self_id account_id)
        → IsFair a
        → policy_row json self_id account_id subject zones provenance policy a ≡ ok a'
        → IsFair a' × Allows policy
    unfolding policy_row note Allows
    policy_row-IsFair policy a a' h e = elim (Result-cases (id json policy)) [
      | inr (x, f) ↦ ground arith
      | inl (policy_id, f) ↦
          elim (Result-cases (filled json self_id account_id policy "permission_groups")) [
            | inr (x, g) ↦ ground arith
            | inl (roles, g) ↦
                elim (Result-cases (filled json self_id account_id policy "resource_groups")) [
                  | inr (x, k) ↦ ground arith
                  | inl (resources, k) ↦
                      let noted =
                        note json self_id account_id subject zones provenance policy_id policy a in
                      let rest : each
                            (resource_row json self_id account_id subject zones provenance policy_id
                              roles)
                            resources noted
                          ≡ ok a' =
                        ground arith in
                      let fair : IsFair noted = record { granted = h.granted; few = h.few } in
                      let allows : is_expected (str_at json policy "access") "allow" ≡ true =
                        ground arith in
                      (
                        (each-ok IsFair (λ resource. Unit {0}) _
                            (resource_row-IsFair policy_id roles) resources noted a' fair rest).0,
                        allows,
                      )
                ]
          ]
    ]

    -- What a subject's policies give: each of them allows; each grant is the subject's, with this
    -- provenance, at its resource, which is the scope of the account or a zone that was listed.
    pub record AreAllowed (value : Value) (records : List (Grant × Resource)) : Type 0 where
      pub rows : List Value
      pub are_rows : policies_of json self_id account_id subject zones provenance value ≡ some rows
      pub allows : All Allows rows
      pub granted : All IsAllowed records
      pub few : length records ≤ max_rows

    -- Where the policies of a subject give grants at all, each of the policies allows, so that one
    -- that denies leaves the subject without any grant; each grant is the subject's, with the given
    -- provenance, and reaches the scope of the account or a zone that was listed; and the grants are
    -- no more than a run may collect.
    pub policies-AreAllowed :
        (value : Value) (records : List (Grant × Resource))
        → policies json self_id account_id subject zones provenance value ≡ ok records
        → AreAllowed value records
    unfolding policies
    policies-AreAllowed value records h =
        elim (Option-cases (policies_of json self_id account_id subject zones provenance value)) [
          | inl f ↦ ground arith
          | inr (rows, f) ↦
              let start : Assigned json self_id account_id = record {
                records = [];
                seen = [];
                role_names = [];
              } in
              elim (Result-cases
                (each (policy_row json self_id account_id subject zones provenance) rows start)) [
                  | inr (x, g) ↦ ground arith
                  | inl (done, g) ↦
                      let none_yet : IsFair start = record { granted = tt; few = omega arith } in
                      let (fair, allows) =
                        each-ok IsFair Allows _ policy_row-IsFair rows start done none_yet g in
                      let same : done.records ≡ records = ground arith in
                      record {
                        rows = rows;
                        are_rows = f;
                        allows = allows;
                        granted = subst (All IsAllowed) same fair.granted;
                        few = subst (λ rs. length rs ≤ max_rows) same fair.few;
                      }
                ]
        ]
