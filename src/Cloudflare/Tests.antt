-- ===== src/Cloudflare/Tests.antt =====
-- Concrete runs of providers/cloudflare against a small server.
use permesh_providers.Shared.{
  sym, ◌∙◌, ==_iff, ==_sound, any, false, ℕ, ◌≡◌, ◌≢◌, codes, refl, Bool, true, List, [], ◌∷◌, ◌↔◌,
  All, ok, err, Option, none, some, String, eqb, if◌then◌else◌, byte_len, utf8_width, is_control,
  ◌&&◌, ◌==◌, string_eq,
}
use permesh_providers.Shared.Strings.{◌+++◌, parse_u64, to_string, precedes, strip_prefix}
use permesh_providers.Runtime.Domain.{
  EntityKey, Subject, account, Snapshot, Grant, Resource, Provenance,
}
use permesh_providers.Cloudflare.Unique.{unique, differs}
use permesh_providers.Cloudflare.Unique.Settled.{last, agree, unique_iff}
use permesh_providers.Cloudflare.Unique.Whole.{IsKept, unique-AllKept}
use permesh_providers.Cloudflare.Fields.{
  id, string, text_of, str_at, is_text, native_id, member, login_of, login_value,
}
use permesh_providers.Cloudflare.Policies.{
  policies, policies_of, policy_row, resource_row, object_row, role_row, note, assign, grant,
  renames, target_of, whole_scope, zone_scope, keys_within, filled, is_expected,
}
use permesh_providers.Cloudflare.Protocol.{limitations}
use permesh_providers.Cloudflare.Protocol.Published.{reported, listed-published}
use permesh_providers.Cloudflare.Policies.Allowed.{AreAllowed, policies-AreAllowed}
use permesh_providers.Cloudflare.Collection.{
  Run, member_key, member_step, assigned, activate, extend,
}
use permesh_providers.Cloudflare.Collection.Gathering.{collect, assignments, listed}
use permesh_providers.Cloudflare.Collection.Requests.{collect-IsWithin}
use permesh_providers.Cloudflare.Client.Requests.{IsWithin}
use permesh_providers.Runtime.Response.{ProviderError}
use permesh_providers.Cloudflare.Collection.Suppressed.{grants_of, assignments-Suppressed}
use permesh_providers.Http.{Headers, Reply, response}
use permesh_providers.Shared.Map.{Map, get, put, has}
use permesh_providers.Cloudflare.Errors.{error, message_of}
use permesh_providers.Cloudflare.Values.{Json}
use permesh_providers.Cloudflare.Client.{
  no_budget_used, request, read_all, pages_from, page_query, attempts, exchange, too_long,
  read_body, after, server_error, delay_of, parse_seconds, answer, is_success, says_success,
  take_page, repeated, noted, known_of, read_info, agrees, total_of, follows, by_count, by_pages,
  clash, more_of,
}
use permesh_providers.Cloudflare.Client.Costs.{IsModest, request-IsModest}
use permesh_providers.Cloudflare.Client.Whole.{IsComplete, read_all-IsComplete}

abbrev reader : String
reader = "cccccccccccccccccccccccccccccccc"

abbrev own : String
own = "dddddddddddddddddddddddddddddddd"

abbrev left : String
left = "aaaaaaaaaaaaaaaaaaaaaaaaaaaaaaaa"

abbrev right : String
right = "bbbbbbbbbbbbbbbbbbbbbbbbbbbbbbbb"

-- Values are texts. Each object is known by its name: its keys, with their values.
abbrev facts : List (String × (String × String))
facts =
    ("answer", ("success", "true"))
    ∷ ("answer", ("result", "rows"))
    ∷ ("answer", ("result_info", "info"))
    ∷ ("first", ("success", "true"))
    ∷ ("first", ("result", "own"))
    ∷ ("own", ("id", own))
    ∷ ("own", ("name", "Own"))
    ∷ ("empty", ("success", "true"))
    ∷ ("empty", ("result", "nothing"))
    ∷ ("info", ("page", "1"))
    ∷ ("info", ("total_pages", "1"))
    ∷ ("info", ("count", "2"))
    ∷ ("info", ("total_count", "2"))
    ∷ ("left", ("id", left))
    ∷ ("left", ("status", "accepted"))
    ∷ ("left", ("policies", "denials"))
    ∷ ("right", ("id", right))
    ∷ ("right", ("status", "accepted"))
    ∷ ("right", ("policies", "permissions"))
    ∷ ("deny", ("id", reader))
    ∷ ("deny", ("access", "deny"))
    ∷ ("allow", ("id", reader))
    ∷ ("allow", ("access", "allow"))
    ∷ ("allow", ("permission_groups", "roles"))
    ∷ ("allow", ("resource_groups", "groups"))
    ∷ ("role", ("id", reader))
    ∷ ("role", ("name", "Reader"))
    ∷ ("group", ("scope", "scope"))
    ∷ ("scope", ("key", "com.cloudflare.api.account.own"))
    ∷ ("scope", ("objects", "objects"))
    ∷ ("object", ("key", "*"))
    ∷ []

abbrev arrays : List (String × List String)
arrays =
    ("nothing", [])
    ∷ ("rows", "left" ∷ "right" ∷ [])
    ∷ ("denials", "allow" ∷ "deny" ∷ [])
    ∷ ("permissions", "allow" ∷ [])
    ∷ ("roles", "role" ∷ [])
    ∷ ("groups", "group" ∷ [])
    ∷ ("objects", "object" ∷ [])
    ∷ []

abbrev fact : List (String × (String × String)) → String → String → Option String
fact [] v key = none
fact ((w, (k, x)) ∷ rest) v key = if w == v && k == key then some x else fact rest v key

abbrev keys_in : List (String × (String × String)) → String → List String
keys_in [] v = []
keys_in ((w, (k, x)) ∷ rest) v = if w == v then k ∷ keys_in rest v else keys_in rest v

abbrev array : List (String × List String) → String → Option (List String)
array [] v = none
array ((w, items) ∷ rest) v = if w == v then some items else array rest v

abbrev keys_of : List String → Option (List String)
keys_of [] = none
keys_of (k ∷ ks) = some (k ∷ ks)

abbrev decoded : List ℕ → Option String
decoded [] = some "answer"
decoded (b ∷ bytes) = if eqb b 1 then some "first" else some "empty"

abbrev server : Json
server = record {
  Value = String;
  get = fact facts;
  as_str = some;
  as_u64 = parse_u64;
  as_bool = λ v. if v == "true" then some true else none;
  as_array = array arrays;
  keys = λ v. keys_of (keys_in facts v);
  text = λ v. v;
  from_slice = decoded;
  same = λ v w. v == w;
  same_refl = string_eq.same_refl;
  same_sym = λ v w h. (==_iff w v).1 (sym (==_sound h));
  same_trans = λ v w x h g. (==_iff v x).1 (==_sound h ∙ ==_sound g);
}

abbrev no_headers : Headers
no_headers name = none

-- The first request meets a failure of the server.
abbrev replies : ℕ → String → List (String × String) → Reply
replies n path query = response (if eqb n 1 then 503 else 200) no_headers none []

abbrev accepts : String → Bool
accepts path = true

request-IsModest_example :
    IsModest 3 no_budget_used (request server accepts replies "zones" [] no_budget_used).1
request-IsModest_example = request-IsModest server accepts replies "zones" [] no_budget_used

read_all-IsComplete_example :
    IsComplete server accepts replies "zones" [] no_budget_used
      (read_all server accepts replies "zones" [] no_budget_used).1.rows
      (read_all server accepts replies "zones" [] no_budget_used).2
unfolding read_all pages_from page_query request attempts exchange too_long read_body after
    server_error delay_of parse_seconds answer is_success says_success take_page repeated noted
    known_of read_info agrees total_of follows by_count by_pages clash more_of error has parse_u64
    to_string
read_all-IsComplete_example =
    read_all-IsComplete server accepts replies "zones" [] no_budget_used refl

abbrev no_snapshot : Snapshot
no_snapshot = record {
  provider = "cloudflare";
  complete = true;
  limitations = [];
  accounts = [];
  identities = [];
  resources = [];
  groups = [];
  memberships = [];
  grants = [];
}

unique_iff_example :
    (get right (unique server ("left" ∷ "right" ∷ "left" ∷ []) no_snapshot).0 ≡ some "right")
    ↔ (last server right ("left" ∷ "right" ∷ "left" ∷ []) ≡ some "right")
      × (agree server right "right" ("left" ∷ "right" ∷ "left" ∷ []) ≡ true)
unique_iff_example = unique_iff server ("left" ∷ "right" ∷ "left" ∷ []) no_snapshot right "right"

unique-AllKept_example :
    All
      (IsKept server (unique server ("left" ∷ "right" ∷ "left" ∷ []) no_snapshot).0)
      ("left" ∷ "right" ∷ "left" ∷ [])
unfolding unique id string text_of str_at is_text byte_len is_control native_id has differs get put
    precedes
unique-AllKept_example = unique-AllKept server ("left" ∷ "right" ∷ "left" ∷ []) no_snapshot refl

abbrev assigned_by : Provenance
assigned_by = record { method = "cloudflare.members.policy_assignment"; observed_at = "today" }

abbrev holder : Subject
holder = account (record { provider = "cloudflare"; id = "member:own:right" })

abbrev right_policies : List (Grant × Resource)
right_policies = elim (policies server "cloudflare" "own" holder [] assigned_by "right") [
  | ok records ↦ records
  | err e ↦ []
]

policies-AreAllowed_example :
    AreAllowed server "cloudflare" "own" holder [] assigned_by "right" right_policies
unfolding policies policies_of policy_row resource_row object_row role_row note assign grant renames
    target_of whole_scope zone_scope keys_within filled id string text_of str_at is_text is_expected
    byte_len utf8_width is_control native_id has differs get put precedes strip_prefix ◌+++◌ error
    message_of
policies-AreAllowed_example =
    policies-AreAllowed server "cloudflare" "own" holder [] assigned_by "right" right_policies refl

abbrev start : Run
start = record {
  snapshot = no_snapshot;
  blocked = [];
  active = [];
  grants = [];
  memberships = [];
  budget = no_budget_used;
}

abbrev members : Map String String
members = (left, "left") ∷ (right, "right") ∷ []

abbrev run_after : Run
run_after =
    elim (assignments server accepts replies "cloudflare" "own" [] "today" members [] start) [
      | ok run ↦ run
      | err e ↦ start
    ]

abbrev in_order : EntityKey → EntityKey → Bool
in_order k j = precedes (codes k.id) (codes j.id)

assignments-Suppressed_example :
    All
      (λ g. g.subject ≢ account (member_key server "cloudflare" "own" left))
      (grants_of server "cloudflare" "own" in_order run_after)
unfolding assignments member_step assigned activate extend member login_of login_value policies
    policies_of policy_row resource_row object_row role_row note assign grant renames target_of
    whole_scope zone_scope keys_within filled id string text_of str_at is_text is_expected byte_len
    utf8_width is_control native_id has differs get put precedes strip_prefix ◌+++◌ error message_of
assignments-Suppressed_example =
    assignments-Suppressed server "cloudflare" "own" in_order [] "today" accepts replies members []
      start run_after left "left" refl refl ((left, left, refl), (error "unsupported_policy", refl))

-- A server that denies every request.
abbrev denials : ℕ → String → List (String × String) → Reply
denials n path query = response 403 no_headers none []

listed-published_example :
    ((listed server accepts denials "cloudflare" "own" "zones" [] no_snapshot
        no_budget_used).1.complete
      ≡ false)
    × (any
          (λ c. c == reported "forbidden")
          (limitations
            (listed server accepts denials "cloudflare" "own" "zones" [] no_snapshot
              no_budget_used).1.limitations)
        ≡ true)
unfolding read_all pages_from page_query request attempts exchange too_long read_body after
    server_error answer is_success to_string error message_of
listed-published_example =
    listed-published server accepts denials "cloudflare" "own" "zones" [] no_snapshot no_budget_used
      (error "forbidden") refl

-- An account without members, zones and groups.
abbrev bare : ℕ → String → List (String × String) → Reply
bare n path query = response 200 no_headers none (some (n ∷ []) ∷ [])

abbrev same_snapshot : Snapshot → Snapshot
same_snapshot s = s

abbrev all_valid : Snapshot → Option ProviderError
all_valid s = none

abbrev nothing_found : String → Snapshot
nothing_found name = no_snapshot

collect-IsWithin_example :
    IsWithin
      (collect server accepts bare "cloudflare" own nothing_found in_order same_snapshot all_valid
        (some "today")).1
collect-IsWithin_example =
    collect-IsWithin server accepts bare "cloudflare" own nothing_found in_order same_snapshot
      all_valid (some "today")
