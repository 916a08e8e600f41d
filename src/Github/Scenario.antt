-- ===== src/Github/Scenario.antt =====
-- Concrete runs of providers/github against a small server.
use permesh_providers.Shared.{
  any, ℕ, ◌≤◌, ◌≡◌, ◌⊎◌, refl, Bool, true, false, List, [], ◌∷◌, ◌++◌, Option, none, some, String,
  if◌then◌else◌, length, Result, ok, eqb, ◌==◌, string_eq, is_whitespace,
}
use permesh_providers.Shared.Map.{Map, values, get, insert, has}
use permesh_providers.Shared.Strings.{
  to_string, precedes, split, parse_u64, split_once, trim, strip_prefix, split_whitespace,
  trim_matches, eq_ignore_ascii_case,
}
use permesh_providers.Runtime.Domain.{EntityKey, Snapshot}
use permesh_providers.Runtime.Response.{ProviderError}
use permesh_providers.Github.Errors.{error, max_pages, max_requests, max_rows, visibility}
use permesh_providers.Github.Fields.{Json, safe_segment, native_id, field, is_field, bad_type}
use permesh_providers.Github.Keys.{key_eq}
use permesh_providers.Github.Http.{Headers, Reply, unsent, response, Web}
use permesh_providers.Github.Links.{
  link_entry, find_rel, is_next, collect as collect_pairs, same_map, expected_query, same_endpoint,
  follow, follow_all, next_page,
}
use permesh_providers.Github.Links.Safe.{Links, next_page-Links}
use permesh_providers.Github.Records.{
  Collection, new, gathered, finish, fail, accept, account, account_at, add_account, contradicts,
  membership, grant, entity_key,
}
use permesh_providers.Github.Records.Sound.{IsOpen}
use permesh_providers.Github.Records.Finished.{IsClosed}
use permesh_providers.Github.Client.{
  Budget, no_budget_used, header, retry_after, asked_delay, reset_delay, bounded_delay,
  is_exhausted, retry_delay, url, read_body, read_value, too_long, exchange, after, attempts,
  get_media, get as get_url, object, take_page, pages, list,
}
use permesh_providers.Github.Client.Budgets.{
  IsPatient, retry_delay-IsPatient, IsFrugal, get_media-IsFrugal,
}
use permesh_providers.Github.Client.Pages.Complete.{AllPages, list-AllPages}
use permesh_providers.Github.Client.Pages.Costs.{IsAffordable, list-IsAffordable}
use permesh_providers.Github.Config.{
  is_configured, new_provider, sort_by_key, insert_by_key, fold_case, dedup, dedup_behind,
}
use permesh_providers.Github.Config.Distinct.{IsIncreasing, names, new_provider-IsIncreasing}
use permesh_providers.Github.Discovery.{
  Run, run_of, organizations, organization, inside, is_spent, add_organization, members, walk, each,
  member_row, repository_row, team_row, collaborators, collect,
}
use permesh_providers.Github.Discovery.Whole.{collect-IsClosed}
use permesh_providers.Github.Protocol.{limitations}
use permesh_providers.Github.Protocol.Limitations.{reported, fail-published}

-- Rows, and pages with one row or none.
data Node : Type 0 where
  number : ℕ → Node
  text : String → Node
  organization_row : ℕ → Node
  user : ℕ → String → Node
  one_row : ℕ → String → Node
  no_row : Node

abbrev server_get : Node → String → Option Node
server_get (user id login) key =
    if key == "id" then some (number id) else if key == "login" then some (text login) else none
server_get (organization_row id) key = if key == "id" then some (number id) else none
server_get _ key = none

abbrev server_str : Node → Option String
server_str (text s) = some s
server_str _ = none

abbrev server_u64 : Node → Option ℕ
server_u64 (number n) = some n
server_u64 _ = none

abbrev server_array : Node → Option (List Node)
server_array (one_row id login) = some (user id login ∷ [])
server_array no_row = some []
server_array _ = none

abbrev server_object : Node → Bool
server_object (organization_row id) = true
server_object (user id login) = true
server_object _ = false

-- The first byte says what is sent.
abbrev server_slice : List ℕ → Option Node
server_slice [] = none
server_slice (b ∷ bytes) =
    if eqb b 1
    then some (organization_row 7)
    else if eqb b 2
    then some (one_row 5 "alice")
    else some no_row

abbrev server_json : Json
server_json = record {
  Value = Node;
  get = server_get;
  as_str = server_str;
  as_u64 = server_u64;
  as_array = server_array;
  is_object = server_object;
  from_slice = server_slice;
}

abbrev no_headers : Headers
no_headers name = none

-- The organization, one page of one member, and then a connection that fails.
abbrev server_reply : ℕ → Reply
server_reply n =
    if eqb n 1
    then response 200 no_headers none (some (1 ∷ []) ∷ [])
    else if eqb n 2
    then response 200 no_headers none (some (2 ∷ []) ∷ [])
    else unsent false

-- A URL is its segments and its query; there is one other URL, the second page of the first.
abbrev Address : Type 0
Address = List String × List (String × String)

abbrev second_page : Address
second_page = ("orgs" ∷ [], ("page", "2") ∷ [])

abbrev first_page : Address
first_page = ("orgs" ∷ [], ("page", "1") ∷ [])

abbrev server : Web
server = record {
  Url = Address;
  origin_url = ([], []);
  with_path = λ u segments. some (segments, u.1);
  with_query = λ u query. (u.0, u.1 ++ query);
  parse = λ t. if t == "https://api.github.com/orgs?page=2" then some second_page else none;
  query_pairs = λ u. u.1;
  origin = λ u. "https://api.github.com";
  path = λ u. "/orgs";
  username = λ u. "";
  has_password = λ u. false;
  has_fragment = λ u. false;
  reply = λ n u media. server_reply n;
  clock = λ n. (1_000, 500);
  rfc2822 = λ t. none;
}

-- A server that asks for five seconds.
abbrev five_seconds : Headers
five_seconds name = if name == "retry-after" then some (some "5") else none

delay_of_five : retry_delay (λ t. none) (1_000, 500) five_seconds 0 true ≡ ok 5249
unfolding retry_delay asked_delay header retry_after parse_u64 reset_delay is_exhausted
    bounded_delay
delay_of_five = refl

retry_delay-IsPatient_example : IsPatient (λ t. none) 1_000 five_seconds 0 true 5249
retry_delay-IsPatient_example =
    retry_delay-IsPatient (λ t. none) 1_000 500 five_seconds 0 true 5249 delay_of_five

get_media-IsFrugal_example :
    IsFrugal 3 no_budget_used (get_media server_json server first_page "text" no_budget_used).1
get_media-IsFrugal_example = get_media-IsFrugal server_json server first_page "text" no_budget_used

abbrev after_one : Budget
after_one = record { requests = 1; rows = 0; sent = 1; slept = [] }

abbrev member_pages : List String
member_pages = "orgs" ∷ "acme" ∷ "members" ∷ []

member_list : (list server_json server member_pages [] after_one).0.error ≡ none
unfolding list pages url safe_segment get_url get_media attempts after exchange too_long read_body
    read_value take_page next_page to_string
member_list = refl

list-AllPages_example :
    ((list server_json server member_pages [] after_one).0.success ≡ true)
    × AllPages server_json server member_pages [] 1 after_one
        (list server_json server member_pages [] after_one).0.items
list-AllPages_example = list-AllPages server_json server member_pages [] after_one member_list

list-IsAffordable_example :
    IsAffordable max_pages 0 after_one
      (length (list server_json server member_pages [] after_one).0.items)
      (list server_json server member_pages [] after_one).1
list-IsAffordable_example = list-IsAffordable server_json server member_pages [] after_one

abbrev linked : Headers
linked name =
    if name == "link"
    then some (some "<https://api.github.com/orgs?page=2>; rel=\"next\"")
    else none

linked_next : next_page server first_page linked 100 ≡ ok true
unfolding next_page split follow_all follow link_entry find_rel is_next expected_query same_endpoint
    collect_pairs same_map to_string parse_u64 get insert split_once trim strip_prefix
    split_whitespace trim_matches
linked_next = refl

next_page-Links_example :
    ((linked "link" ≡ none) × (true ≡ eqb 100 100))
    ⊎ ((link : String) × (linked "link" ≡ some (some link))
        × Links server first_page (split b',' link) true)
next_page-Links_example = next_page-Links server first_page linked 100 true linked_next

abbrev blank : String → Snapshot
blank id = record {
  provider = id;
  complete = true;
  limitations = [];
  accounts = [];
  identities = [];
  resources = [];
  groups = [];
  memberships = [];
  grants = [];
}

abbrev in_order : Map EntityKey (String × String) → List (EntityKey × (String × String))
in_order m = m

abbrev opened : Collection
opened = record {
  snapshot = record (blank "github") { limitations = visibility };
  accounts = [];
  resources = [];
  groups = [];
  memberships = [];
  grants = [];
  account_types = [];
  teams = [];
  blocked_accounts = [];
  blocked_resources = [];
  blocked_groups = [];
  blocked_grants = [];
  observed_at = "now";
  success = false;
}

abbrev walked : Run
walked =
    organizations server_json server in_order ("acme" ∷ [])
      (run_of server_json server in_order opened)

walked_success : walked.state.success ≡ true
unfolding organizations organization inside is_spent add_organization members walk each member_row
    repository_row team_row collaborators object list pages url safe_segment get_url get_media
    attempts after exchange too_long read_body read_value take_page next_page to_string native_id
    field is_field bad_type accept account account_at add_account contradicts membership grant fail
    entity_key has get insert
walked_success = refl

collected :
    collect server_json server in_order blank
      (some "now")
      (λ s. s)
      (λ s. true)
      "github"
      ("acme" ∷ [])
    ≡ ok (gathered walked.state)
unfolding collect new finish
collected = rw walked_success refl

collect-IsClosed_example :
    (c : Collection) × (new blank (some "now") "github" ≡ ok c)
    × (let end =
          organizations server_json server in_order
            ("acme" ∷ [])
            (run_of server_json server in_order c) in
        (end.budget.sent ≤ max_requests)
        × (end.budget.sent ≡ end.budget.requests)
        × (end.budget.requests ≤ max_requests)
        × (end.budget.rows ≤ max_rows)
        × (gathered walked.state ≡ gathered end.state)
        × (true ≡ true)
        × IsClosed end.state (gathered end.state)
        × ((gathered end.state).complete ≡ true
            → IsOpen end.state
              × ((gathered end.state).memberships ≡ values end.state.memberships)
              × ((gathered end.state).grants ≡ values end.state.grants)))
collect-IsClosed_example =
    collect-IsClosed server_json server in_order blank (some "now") (λ s. s) (λ s. true) "github"
      ("acme" ∷ []) (gathered walked.state) collected

abbrev asked_for : List String
asked_for = "beta" ∷ "Acme" ∷ "acme" ∷ []

configured : new_provider {A = ℕ} (ok 0) "github" asked_for "token" ≡ ok (0, "Acme" ∷ "beta" ∷ [])
unfolding new_provider is_configured safe_segment sort_by_key insert_by_key precedes fold_case dedup
    dedup_behind eq_ignore_ascii_case is_whitespace
configured = refl

new_provider-IsIncreasing_example :
    (is_configured "github" asked_for "token" ≡ true)
    × (◌≡◌ {A = Result ProviderError ℕ} (ok 0) (ok 0))
    × IsIncreasing ("Acme" ∷ "beta" ∷ [])
    × ((o : String) → names o ("Acme" ∷ "beta" ∷ []) ≡ names o asked_for)
new_provider-IsIncreasing_example =
    new_provider-IsIncreasing (ok 0) "github" asked_for "token" 0 ("Acme" ∷ "beta" ∷ []) configured

fail-published_example :
    ((fail "teams" (error "forbidden") walked.state).snapshot.complete ≡ false)
    × (any
          (λ r. r == reported "forbidden")
          (limitations (fail "teams" (error "forbidden") walked.state).snapshot.limitations)
        ≡ true)
fail-published_example = fail-published "teams" "forbidden" walked.state
