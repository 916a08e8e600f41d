-- ===== src/Cloudflare/Collection/Suppressed.antt =====
-- providers/cloudflare/src/records.rs: what `collect` leaves out.
use mathlib.Core.Path.{subst}
use permesh_providers.Shared.{
  ℕ, ◌≡◌, ◌≢◌, sym, inl, inr, Bool, true, false, List, [], ◌∷◌, ◌++◌, some, String, ok, err, ◌>>=◌,
  >>=-ok, each, each-lasts, ==_refl, ==_iff, string_eq, All, All-map, Bool-cases, Result-cases,
  arith,
}
use permesh_providers.Shared.Map.{Map, get, get-All, has}
use permesh_providers.Shared.Strings.{◌+++◌}
use permesh_providers.Http.{Reply}
use permesh_providers.Runtime.Domain.{EntityKey, account, group, Resource, Grant}
use permesh_providers.Runtime.Domain.Keys.{key_eq}
use permesh_providers.Runtime.Response.{ProviderError}
use permesh_providers.Cloudflare.Values.{Json}
use permesh_providers.Cloudflare.Fields.{string, member}
use permesh_providers.Cloudflare.Policies.{policies}
use permesh_providers.Cloudflare.Collection.{
  Run, warn, extend, reaches, key_of, member_key, keys_of, assigned, activate, member_step,
  membership_step, memberships_of, granted, resource_map, or_insert, provenance,
}
use permesh_providers.Cloudflare.Collection.Gathering.{
  listed, group_members, group_step, assignments,
}

-- A run goes on: who is blocked stays blocked.
Follows : Run → Run → Type 0
Follows run run' = (name : String) → has name run.blocked ≡ true → has name run'.blocked ≡ true

same_run : (run : Run) → Follows run run
unfolding Follows
same_run run name e = e

next_run : (run run' run'' : Run) → Follows run run' → Follows run' run'' → Follows run run''
unfolding Follows
next_run run run' run'' first second name e = second name (first name e)

extend-Follows :
    (found : List (Grant × Resource)) (run run' : Run)
    → extend found run ≡ ok run'
    → Follows run run'
unfolding extend Follows
extend-Follows found run run' h name e = ground arith

module _ (json : Json) (self_id account_id : String) where
  open json use {Value}

  module _ (zones : List String) (observed_at : String) where
    -- An accepted member whose policies cannot be told.
    abbrev pub Ambiguous : String × Value → Type 0
    Ambiguous row =
        ((own : String) × (login : String) × (member json row.1 ≡ ok (own, login, true)))
        × ((e : ProviderError) × (assigned json self_id account_id zones observed_at row.0 row.1
              ≡ err e))

    Blocks : String × Value → Run → Type 0
    Blocks row run = Ambiguous row → has row.0 run.blocked ≡ true

    Blocks-stays :
        (row : String × Value) (run run' : Run)
        → Follows run run'
        → Blocks row run
        → Blocks row run'
    unfolding Blocks Follows
    Blocks-stays row run run' next old ambiguous = next row.0 (old ambiguous)

    member_step-Follows :
        (row : String × Value) (run run' : Run)
        → member_step json self_id account_id zones observed_at row run ≡ ok run'
        → Follows run run' × Blocks row run'
    unfolding member_step Follows Blocks activate has
    member_step-Follows (name, value) run run' h = elim (Result-cases (member json value)) [
      | inr (x, f) ↦ (λ n e. ground arith, λ ambiguous. ground (arith, ambiguous.0.2))
      | inl ((own, login, accepted), f) ↦ elim (Bool-cases accepted) [
        | inr other ↦ (λ n e. ground arith, λ ambiguous. ground (arith, ambiguous.0.2))
        | inl good ↦
            elim (Result-cases (assigned json self_id account_id zones observed_at name value)) [
              | inl (found, g) ↦
                  let done : extend found
                        (activate json self_id account_id zones observed_at name login run)
                      ≡ ok run' =
                    ground arith in
                  (extend-Follows found _ run' done, λ ambiguous. ground (arith, g, ambiguous.1.1))
              | inr (x, g) ↦
                  (λ n e. ground (arith, ==_iff name n), λ ambiguous. ground (arith, ==_refl name))
            ]
      ]
    ]

    membership_step-Follows :
        (group_blocked : Bool) (group_key : EntityKey) (row : String × Value) (run : Run)
        → Follows run (
            membership_step json self_id account_id zones observed_at group_blocked group_key row
              run)
    unfolding membership_step Follows has
    membership_step-Follows group_blocked group_key (name, row) run n e = ground arith

    memberships_of-Follows :
        (group_blocked : Bool) (group_key : EntityKey) (rows : Map String Value) (run : Run)
        → Follows run (
            memberships_of json self_id account_id zones observed_at group_blocked group_key rows
              run)
    unfolding memberships_of
    memberships_of-Follows group_blocked group_key [] run = same_run run
    memberships_of-Follows group_blocked group_key (row ∷ rows) run =
        next_run run _ _ (membership_step-Follows group_blocked group_key row run) (
          memberships_of-Follows group_blocked group_key rows (
            membership_step json self_id account_id zones observed_at group_blocked group_key row
              run))

    module _ (joins : String → Bool) (reply : ℕ → String → List (String × String) → Reply) where
      group_members-Follows :
          (group_blocked : Bool) (group_key : EntityKey) (name : String) (run run' : Run)
          → group_members json joins reply self_id account_id zones observed_at group_blocked
              group_key name run
            ≡ ok run'
          → Follows run run'
      unfolding group_members Follows
      group_members-Follows group_blocked group_key name run run' h =
          let (rows, s, b) =
            listed json joins reply self_id account_id
              ("accounts/" +++ account_id +++ "/iam/user_groups/" +++ name +++ "/members") []
              run.snapshot run.budget in
          let read = record run { snapshot = s; budget = b } in
          let done =
            memberships_of json self_id account_id zones observed_at group_blocked group_key rows
              read in
          let is_done : done ≡ run' = ground arith in
          subst (Follows run) is_done (memberships_of-Follows group_blocked group_key rows read)

      group_step-Follows :
          (row : String × Value) (run run' : Run)
          → group_step json joins reply self_id account_id zones observed_at row run ≡ ok run'
          → Follows run run'
      unfolding group_step Follows
      group_step-Follows (name, value) run run' h = elim (Result-cases (string json value "name")) [
        | inr (x, f) ↦ λ n e. ground arith
        | inl (title, f) ↦
            let group_key =
              key_of json self_id account_id ("user-group:" +++ account_id +++ ":" +++ name) in
            let run₁ : Run = record run {
              snapshot = record run.snapshot {
                groups = run.snapshot.groups ++ (record { key = group_key; name = title }) ∷ [];
              };
            } in
            elim (Result-cases (
              policies json self_id account_id (group group_key) zones
                (provenance json self_id account_id zones observed_at
                  "cloudflare.iam.user_groups.policy_assignment")
                value)) [
                  | inr (x, g) ↦
                      let done : group_members json joins reply self_id account_id zones observed_at
                            true group_key name (warn "unsupported_policy" run₁)
                          ≡ ok run' =
                        ground arith in
                      group_members-Follows true group_key name (warn "unsupported_policy" run₁)
                        run' done
                  | inl (found, g) ↦
                      let both : (extend found run₁
                            >>= group_members json joins reply self_id account_id zones observed_at
                                false group_key name)
                          ≡ ok run' =
                        ground arith in
                      let (run₂, first, rest) = >>=-ok (extend found run₁) _ run' both in
                      next_run run run₂ run' (extend-Follows found run₁ run₂ first)
                        (group_members-Follows false group_key name run₂ run' rest)
                ]
      ]

      assignments-Blocks :
          (members groups : Map String Value) (run run' : Run)
          → assignments json joins reply self_id account_id zones observed_at members groups run
            ≡ ok run'
          → All (λ row. Blocks row run') members
      unfolding assignments
      assignments-Blocks members groups run run' h =
          let (middle, first, rest) =
            >>=-ok (each (member_step json self_id account_id zones observed_at) members run)
              (each (group_step json joins reply self_id account_id zones observed_at) groups) run'
              h in
          let (f, blocks) =
            each-lasts Follows Blocks _ same_run next_run Blocks-stays member_step-Follows members
              run middle first in
          let (later, g) =
            each-lasts Follows (λ row r. Unit {0}) _ same_run next_run (λ row r r' next old. tt)
              (λ row r r' e. (group_step-Follows row r r' e, tt)) groups middle run' rest in
          All-map _ _ members (λ row. Blocks-stays row middle run' later) blocks

  module _ (key_before : EntityKey → EntityKey → Bool) where
    -- The grants that a run adds to its snapshot.
    abbrev pub grants_of : Run → List Grant
    grants_of run =
        (granted json self_id account_id key_before
          (keys_of json self_id account_id key_before run.blocked) run.grants []
          (resource_map json self_id account_id key_before run.snapshot.resources [])).0

    granted-spares :
        (blocked : List EntityKey) (records : List (Grant × Resource)) (seen : List String)
        (m : Map EntityKey Resource)
        → All
            (λ g. reaches blocked g.subject ≡ false)
            (granted json self_id account_id key_before blocked records seen m).0
    unfolding granted
    granted-spares blocked [] seen m = tt
    granted-spares blocked ((g, r) ∷ rest) seen m = elim (Bool-cases (reaches blocked g.subject)) [
      | inl out ↦ rw (out, granted) (granted-spares blocked rest seen m)
      | inr stays ↦
          rw (stays, granted)
            elim (Bool-cases (has g.id seen)) [
              | inl twice ↦
                  rw (twice, granted)
                    (granted-spares blocked rest seen
                      (or_insert json self_id account_id key_before r m))
              | inr once ↦
                  rw (once, granted)
                    (
                      stays,
                      granted-spares blocked rest (g.id ∷ seen)
                          (or_insert json self_id account_id key_before r m),
                    )
            ]
    ]

    has-keys_of :
        (name : String) (names : List String)
        → has name names ≡ true
        → has
            (member_key json self_id account_id name)
            (keys_of json self_id account_id key_before names)
          ≡ true
    unfolding has
    has-keys_of name [] h = cc
    has-keys_of name (n ∷ names) h = ground (
      arith,
      has-keys_of name names,
      ==_iff n name,
      ==_refl (member_key json self_id account_id name),
    )

    -- Who is blocked gets none of the grants.
    spared :
        (name : String) (run : Run)
        → has name run.blocked ≡ true
        → All (λ g. g.subject ≢ account (member_key json self_id account_id name)) (grants_of run)
    spared name run h =
        let blocked = keys_of json self_id account_id key_before run.blocked in
        let mine = has-keys_of name run.blocked h in
        All-map _ _ (grants_of run)
          (λ g free here.
            let taken : reaches blocked g.subject ≡ true =
              subst (λ t. reaches blocked t ≡ true) (sym here) mine in
            absurd (cc))
          (granted-spares (keys_of json self_id account_id key_before run.blocked) run.grants []
            (resource_map json self_id account_id key_before run.snapshot.resources []))

    -- A member whose policies are ambiguous, a denial among them, gets none of the grants that the
    -- collection adds: not those of the policies before it, nor any other. Whatever the groups
    -- and their members are, and whatever was collected before.
    pub assignments-Suppressed :
        (zones : List String) (observed_at : String) (joins : String → Bool)
        (reply : ℕ → String → List (String × String) → Reply) (members groups : Map String Value)
        (run run' : Run) (name : String) (value : Value)
        → assignments json joins reply self_id account_id zones observed_at members groups run
          ≡ ok run'
        → get name members ≡ some value
        → Ambiguous zones observed_at (name, value)
        → All (λ g. g.subject ≢ account (member_key json self_id account_id name)) (grants_of run')
    unfolding Blocks
    assignments-Suppressed zones observed_at joins reply members groups run run' name value h found
          ambiguous =
        spared name run' (
          get-All (λ row. Blocks zones observed_at row run') members name value
            (assignments-Blocks zones observed_at joins reply members groups run run' h) found
            ambiguous)
