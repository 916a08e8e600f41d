-- ===== src/Github/Records/Conflicts.antt =====
-- providers/github/src/records.rs: rows that contradict each other block their account, whatever
-- comes between them.
use mathlib.Core.Path.{subst}
use permesh_providers.Shared.{
  ℕ, ◌≡◌, ◌≢◌, refl, sym, ◌∙◌, inl, inr, true, false, Option, none, some, String, ◌==◌, string_eq,
  ==_refl, ==_sound, Bool-cases, Option-cases, arith,
}
use permesh_providers.Shared.Map.{get, insert, has, get-insert}
use permesh_providers.Runtime.Domain.{EntityKey, Account}
use permesh_providers.Github.Fields.{Json, native_id, field, unwrap_or}
use permesh_providers.Github.Keys.{key_eq}
use permesh_providers.Github.Records.{
  Collection, contradicts, add_account, account_key, account_at, account,
}
use permesh_providers.Github.Records.Rows.{account_at_cases}
use permesh_providers.Github.Records.Steps.{Steps}
use permesh_providers.Github.Records.Memory.{
  Seen, Steps-Seen, Steps-IsBlocked, drop-blocks, drop-home,
}

-- A login that does not contradict what is known is the one that is known.
agrees_login :
    (key : EntityKey) (login : String) (native_type : Option String) (c : Collection) (a : Account)
    → contradicts key login native_type c ≡ false
    → get key c.accounts ≡ some a
    → a.login ≡ login
unfolding contradicts
agrees_login key login native_type c a h got = elim (Bool-cases (a.login == login)) [
  | inl e ↦ ==_sound e
  | inr e ↦ ground arith
]

new_login :
    (key : EntityKey) (login : String) (native_type : Option String) (fresh : Account)
    (c : Collection)
    → contradicts key login native_type c ≡ false
    → fresh.login ≡ login
    → (unwrap_or (get key c.accounts) fresh).login ≡ login
new_login key login native_type fresh c h e = elim (Option-cases (get key c.accounts)) [
  | inl absent ↦ rw absent e
  | inr (a, got) ↦ rw got (agrees_login key login native_type c a h got)
]

get_inserted :
    (key : EntityKey) (a : Account) (c : Collection) → get key (insert key a c.accounts) ≡ some a
get_inserted key a c = get-insert key key a c.accounts ∙ (let e = ==_refl key in rw e refl)

added_first :
    (key : EntityKey) (login : String) (native_type : Option String) (c : Collection)
    → contradicts key login native_type c ≡ false
    → Seen c.snapshot.provider key login (add_account key login native_type c)
unfolding add_account
added_first key login none c h = record {
  at_home = refl;
  known = inr (_, get_inserted key _ c, new_login key login none _ c h refl);
}
added_first key login (some t) c h = record {
  at_home = refl;
  known = inr (_, get_inserted key _ c, new_login key login (some t) _ c h refl);
}

module _ (json : Json) where
  first_row :
      (key : EntityKey) (v : json.Value) (login : String) (c : Collection)
      → field json v "login" ≡ some login
      → Seen c.snapshot.provider key login (account_at json key v c).1
  first_row key v login c l =
      account_at_cases json (Seen c.snapshot.provider key login) key v c
        (λ blocked. record { at_home = refl; known = inl blocked })
        (λ code. record { at_home = drop-home key code c; known = inl (drop-blocks key code c) })
        (λ login' l' free agrees.
          let same : login' ≡ login = cc in
          subst
            (λ n. Seen c.snapshot.provider key n (add_account key login' (field json v "type") c))
            same (added_first key login' (field json v "type") c agrees))

  second_row :
      (p : String) (key : EntityKey) (w : json.Value) (login login' : String) (c : Collection)
      → Seen p key login c
      → field json w "login" ≡ some login'
      → login ≢ login'
      → has key (account_at json key w c).1.blocked_accounts ≡ true
  second_row p key w login login' c s l differs =
      account_at_cases json (λ d. has key d.blocked_accounts ≡ true) key w c (λ blocked. blocked)
        (λ code. drop-blocks key code c)
        (λ found f free agrees. elim s.known [
          | inl blocked ↦ ground arith
          | inr (a, got, named) ↦
              let is = agrees_login key found _ c a agrees got in
              elim (differs (let found_is : found ≡ login' = cc in sym named ∙ is ∙ found_is)) [ ]
        ])

  account-eq :
      (v : json.Value) (id : ℕ) (b c : Collection)
      → native_id json v ≡ some id
      → c.snapshot.provider ≡ b.snapshot.provider
      → account json v c ≡ account_at json (account_key json id b) v c
  unfolding account
  account-eq v id b c e home = rw (e, home, account) refl

  -- Two rows with the same id and different logins, read in this order with any operations of the
  -- collection before, between and after them, leave the account blocked.
  pub account_conflict :
      (v w : json.Value) (id : ℕ) (login login' : String) (c d e : Collection)
      → native_id json v ≡ some id
      → native_id json w ≡ some id
      → field json v "login" ≡ some login
      → field json w "login" ≡ some login'
      → login ≢ login'
      → Steps json (account json v c).1 d
      → Steps json (account json w d).1 e
      → has (account_key json id c) e.blocked_accounts ≡ true
  account_conflict v w id login login' c d e iv iw lv lw differs between after =
      let key = account_key json id c in
      let p = c.snapshot.provider in
      let first : Seen p key login (account json v c).1 =
        subst (λ r. Seen p key login r.1) (sym (account-eq v id c c iv refl))
          (first_row key v login c lv) in
      let seen = Steps-Seen p key login json _ d between first in
      let second : has key (account json w d).1.blocked_accounts ≡ true =
        subst (λ r. has key r.1.blocked_accounts ≡ true) (sym (account-eq w id c d iw seen.at_home))
          (second_row p key w login login' d seen lw differs) in
      Steps-IsBlocked key json _ e after second
