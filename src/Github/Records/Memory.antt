-- ===== src/Github/Records/Memory.antt =====
-- providers/github/src/records.rs: what was said of an account is not forgotten.
use permesh_providers.Shared.{
  ◌≡◌, refl, ◌∙◌, ◌⊎◌, inl, inr, true, Option, none, some, String, ◌==◌, string_eq, ==_refl,
  ==_sound, Bool-cases, Option-cases, arith,
}
use permesh_providers.Shared.Map.{get, insert, has, get-insert, get-remove}
use permesh_providers.Runtime.Domain.{EntityKey, Account}
use permesh_providers.Runtime.Response.{ProviderError}
use permesh_providers.Github.Fields.{Json, native_id, unwrap_or}
use permesh_providers.Github.Keys.{key_eq}
use permesh_providers.Github.Records.{
  Collection, fail, drop_account, drop_resource, drop_group, add_account, add_resource, add_team,
  membership, grant, accept, account_key, account, repository_at, repository, team_at, team,
}
use permesh_providers.Github.Records.Rows.{account_at_cases}
use permesh_providers.Github.Records.Steps.{
  Step, by_fail, by_accept, by_account, by_repository, by_team, by_membership, by_grant, Steps,
  finished, then_more,
}

-- The account is blocked, or known under the login.
pub record Seen (provider : String) (key : EntityKey) (login : String) (c : Collection)
    : Type 0 where
  pub at_home : c.snapshot.provider ≡ provider
  pub known :
      (has key c.blocked_accounts ≡ true)
      ⊎ ((a : Account) × (get key c.accounts ≡ some a) × (a.login ≡ login))

-- Nothing is changed of what is known of the accounts.
abbrev pub SameAccounts : Collection → Collection → Type 0
SameAccounts c d =
    (d.snapshot.provider ≡ c.snapshot.provider)
    × (d.accounts ≡ c.accounts)
    × (d.blocked_accounts ≡ c.blocked_accounts)

pub SameAccounts-Seen :
    (p : String) (key : EntityKey) (login : String) (c d : Collection)
    → SameAccounts c d
    → Seen p key login c
    → Seen p key login d
SameAccounts-Seen p key login c d (home, accounts, blocked) s = record {
  at_home = home ∙ s.at_home;
  known = rw (accounts, blocked) s.known;
}

pub fail_same :
    (endpoint : String) (e : ProviderError) (c : Collection) → SameAccounts c (fail endpoint e c)
unfolding fail
fail_same endpoint e c = (refl, refl, refl)

module _ (json : Json) where
  other-Step :
      (c d : Collection)
      → Step json c d
      → ((v : json.Value) × (d ≡ (account json v c).1)) ⊎ SameAccounts c d
  unfolding fail accept repository repository_at drop_resource add_resource team team_at drop_group
      add_team membership grant
  other-Step c _ (by_fail endpoint e _) = inr (refl, refl, refl)
  other-Step c _ (by_accept endpoint list _) = inr (ground arith)
  other-Step c _ (by_account v _) = inl (v, refl)
  other-Step c _ (by_repository v _) = inr (ground arith)
  other-Step c _ (by_team v org _) = inr (ground arith)
  other-Step c _ (by_membership member group method _) = inr (refl, refl, refl)
  other-Step c _ (by_grant subject resource role privilege method _) = inr (ground arith)

  module _ (P : Collection → Type 0) (same : (c d : Collection) → SameAccounts c d → P c → P d)
      (dropped : (key : EntityKey) (code : String) (c : Collection)
        → P c
        → P (drop_account key code c))
      (added : (key : EntityKey) (login : String) (native_type : Option String) (c : Collection)
        → P c
        → P (add_account key login native_type c)) where
    account_keeps : (v : json.Value) (c : Collection) → P c → P (account json v c).1
    unfolding account
    account_keeps v c p = elim (Option-cases (native_id json v)) [
      | inl e ↦ rw (e, account) (same c _ (fail_same _ _ c) p)
      | inr (id, e) ↦
          rw (e, account)
            (account_at_cases json P (account_key json id c) v c (λ e. p)
              (λ code. dropped (account_key json id c) code c p)
              (λ login l free agrees. added (account_key json id c) login _ c p))
    ]

    Steps_keep : (c d : Collection) → Steps json c d → P c → P d
    Steps_keep c _ (finished _) p = p
    Steps_keep c e (then_more _ d _ step more) p = Steps_keep d e more (elim (other-Step c d step) [
      | inl (v, is) ↦ rw is (account_keeps v c p)
      | inr keeps ↦ same c d keeps p
    ])

module _ (p : String) (key : EntityKey) (login : String) where
  pub dropped-Seen :
      (k : EntityKey) (code : String) (c : Collection)
      → Seen p key login c
      → Seen p key login (drop_account k code c)
  unfolding drop_account fail has
  dropped-Seen k code c s = record {
    at_home = s.at_home;
    known = elim (Bool-cases (k == key)) [
      | inl e ↦ inl (rw e refl)
      | inr e ↦ elim s.known [
        | inl blocked ↦ inl (rw (e, blocked) refl)
        | inr (a, got, named) ↦ inr (a, get-remove k key c.accounts ∙ (rw e got), named)
      ]
    ];
  }

  -- The login of the entry, whichever key is inserted.
  pub inserted :
      (k : EntityKey) (v : Account) (c : Collection) (a : Account)
      → get key c.accounts ≡ some a
      → a.login ≡ login
      → ((k == key) ≡ true → v.login ≡ a.login)
      → (b : Account) × (get key (insert k v c.accounts) ≡ some b) × (b.login ≡ login)
  inserted k v c a got named agrees = elim (Bool-cases (k == key)) [
    | inl e ↦ (v, get-insert k key v c.accounts ∙ (rw e refl), agrees e ∙ named)
    | inr e ↦ (a, get-insert k key v c.accounts ∙ (rw e got), named)
  ]

  pub old_login :
      (k : EntityKey) (fresh : Account) (c : Collection) (a : Account)
      → get key c.accounts ≡ some a
      → (k == key) ≡ true
      → (unwrap_or (get k c.accounts) fresh).login ≡ a.login
  old_login k fresh c a got e = let at : k ≡ key = ==_sound e in rw (at, got) refl

  pub added-Seen :
      (k : EntityKey) (login' : String) (native_type : Option String) (c : Collection)
      → Seen p key login c
      → Seen p key login (add_account k login' native_type c)
  unfolding add_account
  added-Seen k login' none c s = record {
    at_home = s.at_home;
    known = elim s.known [
      | inl blocked ↦ inl blocked
      | inr (a, got, named) ↦ inr (inserted k _ c a got named (old_login k _ c a got))
    ];
  }
  added-Seen k login' (some t) c s = record {
    at_home = s.at_home;
    known = elim s.known [
      | inl blocked ↦ inl blocked
      | inr (a, got, named) ↦ inr (inserted k _ c a got named (old_login k _ c a got))
    ];
  }

  pub Steps-Seen :
      (json : Json) (c d : Collection) → Steps json c d → Seen p key login c → Seen p key login d
  Steps-Seen json =
      Steps_keep json (Seen p key login) (SameAccounts-Seen p key login) dropped-Seen added-Seen

-- The account under this key is blocked.
module _ (key : EntityKey) where
  abbrev pub IsBlocked : Collection → Type 0
  IsBlocked c = has key c.blocked_accounts ≡ true

  pub dropped-IsBlocked :
      (k : EntityKey) (code : String) (c : Collection)
      → IsBlocked c
      → IsBlocked (drop_account k code c)
  unfolding drop_account fail has
  dropped-IsBlocked k code c h = ground (arith, h)

  added-IsBlocked :
      (k : EntityKey) (login : String) (native_type : Option String) (c : Collection)
      → IsBlocked c
      → IsBlocked (add_account k login native_type c)
  unfolding add_account
  added-IsBlocked k login none c h = h
  added-IsBlocked k login (some t) c h = h

  pub Steps-IsBlocked :
      (json : Json) (c d : Collection) → Steps json c d → IsBlocked c → IsBlocked d
  Steps-IsBlocked json =
      Steps_keep json IsBlocked (λ c d keeps h. let e = keeps.2 in rw e h) dropped-IsBlocked
        added-IsBlocked

pub drop-blocks :
    (key : EntityKey) (code : String) (c : Collection)
    → has key (drop_account key code c).blocked_accounts ≡ true
unfolding drop_account fail has
drop-blocks key code c = let e = ==_refl key in rw e refl

pub drop-home :
    (key : EntityKey) (code : String) (c : Collection)
    → (drop_account key code c).snapshot.provider ≡ c.snapshot.provider
unfolding drop_account fail
drop-home key code c = refl
