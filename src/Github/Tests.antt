-- ===== src/Github/Tests.antt =====
-- Concrete runs of providers/github.
use permesh_providers.Shared.{
  ℕ, length, codes, ap, ◌≡◌, ◌≢◌, refl, true, false, [], Option, none, some, String, if◌then◌else◌,
  ok, ◌==◌, string_eq, arith,
}
use permesh_providers.Shared.Map.{has, get, insert, values}
use permesh_providers.Shared.Strings.{to_string, split_once}
use permesh_providers.Runtime.Domain.{Snapshot}
use permesh_providers.Github.Errors.{visibility}
use permesh_providers.Github.Fields.{Json, native_id, field, is_field, safe_segment, bad_type}
use permesh_providers.Github.Keys.{key_eq}
use permesh_providers.Github.Records.{
  Collection, new, accept, account, account_at, account_key, contradicts, add_account, drop_account,
  fail, gathered, finish,
}
use permesh_providers.Github.Records.Sound.{IsOpen, IsSound}
use permesh_providers.Github.Records.Steps.{
  Steps, finished, then_more, by_accept, by_account, new-Steps-IsSound,
}
use permesh_providers.Github.Records.Finished.{IsClosed, finish-IsClosed}
use permesh_providers.Github.Records.Conflicts.{account_conflict}

-- Rows of users.
data Node : Type 0 where
  number : ℕ → Node
  text : String → Node
  user : ℕ → String → Node

abbrev demo_get : Node → String → Option Node
demo_get (user id login) key =
    if key == "id" then some (number id) else if key == "login" then some (text login) else none
demo_get _ key = none

abbrev demo_as_str : Node → Option String
demo_as_str (text s) = some s
demo_as_str _ = none

abbrev demo_as_u64 : Node → Option ℕ
demo_as_u64 (number n) = some n
demo_as_u64 _ = none

abbrev demo_json : Json
demo_json = record {
  Value = Node;
  get = demo_get;
  as_str = demo_as_str;
  as_u64 = demo_as_u64;
  as_array = λ v. none;
  is_object = λ v. false;
  from_slice = λ b. none;
}

abbrev demo_empty : String → Snapshot
demo_empty id = record {
  provider = id;
  complete = true;
  limitations = [];
  accounts = [];
  identities = [];
  resources = [];
  groups = [];
  memberships = [];
  grants = [];
}

abbrev demo_start : Collection
demo_start = record {
  snapshot = record (demo_empty "github") { limitations = visibility };
  accounts = [];
  resources = [];
  groups = [];
  memberships = [];
  grants = [];
  account_types = [];
  teams = [];
  blocked_accounts = [];
  blocked_resources = [];
  blocked_groups = [];
  blocked_grants = [];
  observed_at = "2026-01-01T00:00:00Z";
  success = false;
}

demo_new : new demo_empty (some "2026-01-01T00:00:00Z") "github" ≡ ok demo_start
unfolding new
demo_new = refl

abbrev alice : Node
alice = user 1 "alice"

abbrev bob : Node
bob = user 1 "bob"

abbrev demo_listed : Collection
demo_listed =
    (accept demo_json "repositories" (record { items = []; success = true; error = none })
      demo_start).1

abbrev demo_known : Collection
demo_known = (account demo_json alice demo_listed).1

abbrev demo_clash : Collection
demo_clash = (account demo_json bob demo_known).1

demo-Steps : Steps demo_json demo_start demo_clash
demo-Steps = then_more demo_start demo_listed demo_clash (by_accept _ _ demo_start) (
    then_more demo_listed demo_known demo_clash (by_account alice demo_listed) (
      then_more demo_known demo_clash demo_clash (by_account bob demo_known) (finished demo_clash)))

new-Steps-IsSound_example : IsSound demo_clash
new-Steps-IsSound_example =
    new-Steps-IsSound demo_json demo_empty (some "2026-01-01T00:00:00Z") "github" demo_start
      demo_clash demo_new demo-Steps

demo_clash-IsSound : IsSound demo_clash
demo_clash-IsSound =
    new-Steps-IsSound demo_json demo_empty (some "2026-01-01T00:00:00Z") "github" demo_start
      demo_clash demo_new demo-Steps

demo_success : demo_clash.success ≡ true
unfolding accept account account_at add_account drop_account fail native_id field is_field
    contradicts bad_type to_string has get insert
demo_success = refl

demo_finish : finish (λ s. s) (λ s. true) demo_clash ≡ ok (gathered demo_clash)
unfolding finish
demo_finish = rw demo_success refl

finish-IsClosed_example :
    (demo_clash.success ≡ true)
    × (gathered demo_clash ≡ gathered demo_clash)
    × (true ≡ true)
    × IsClosed demo_clash (gathered demo_clash)
    × ((gathered demo_clash).complete ≡ true
        → IsOpen demo_clash
          × ((gathered demo_clash).memberships ≡ values demo_clash.memberships)
          × ((gathered demo_clash).grants ≡ values demo_clash.grants))
finish-IsClosed_example =
    finish-IsClosed (λ s. s) (λ s. true) demo_clash (gathered demo_clash) demo_clash-IsSound
      demo_finish

alice_id : native_id demo_json alice ≡ some 1
unfolding native_id
alice_id = refl

bob_id : native_id demo_json bob ≡ some 1
unfolding native_id
bob_id = refl

alice_login : field demo_json alice "login" ≡ some "alice"
unfolding field is_field
alice_login = refl

bob_login : field demo_json bob "login" ≡ some "bob"
unfolding field is_field
bob_login = refl

alice_other : ◌≢◌ {A = String} "alice" "bob"
alice_other e =
    let lengths : length (codes "alice") ≡ length (codes "bob") = ap (λ s. length (codes s)) e in
    omega arith

account_conflict_example :
    has (account_key demo_json 1 demo_listed) demo_clash.blocked_accounts ≡ true
account_conflict_example =
    account_conflict demo_json alice bob 1 "alice" "bob" demo_listed demo_known demo_clash alice_id
      bob_id alice_login bob_login alice_other (finished demo_known) (finished demo_clash)

conflict_blocks : (gathered demo_clash).accounts ≡ []
unfolding gathered accept account account_at add_account drop_account fail native_id field is_field
    contradicts bad_type to_string has get insert
conflict_blocks = refl

segments : safe_segment "permesh" ≡ true
unfolding safe_segment
segments = refl

no_segment : safe_segment ".." ≡ false
unfolding safe_segment
no_segment = refl

split_name : split_once b'/' "org/app" ≡ some ("org", "app")
unfolding split_once
split_name = refl

decimal : to_string 40321 ≡ "40321"
unfolding to_string
decimal = refl
