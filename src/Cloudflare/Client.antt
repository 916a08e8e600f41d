-- ===== src/Cloudflare/Client.antt =====
-- providers/cloudflare/src/client.rs: requests with retries, and listings whose pages agree.
pub mod Costs
pub mod Totals
pub mod Pages
pub mod Whole
pub mod Requests
use permesh_providers.Shared.{
  ℕ, zero, suc, ◌+◌, ◌*◌, ◌^◌, Bool, true, false, not, ◌&&◌, ◌||◌, differ, List, [], ◌∷◌, ◌++◌, map,
  Option, none, some, String, ltb, leb, eqb, if◌then◌else◌, is_some, length, Result, ok, err, ◌==◌,
  string_eq, list_eq,
}
use permesh_providers.Shared.Map.{has}
use permesh_providers.Shared.Strings.{parse_u64, to_string}
use permesh_providers.Runtime.Response.{ProviderError}
use permesh_providers.Http.{Headers, Reply, timed_out, unsent, response}
use permesh_providers.Cloudflare.Values.{Json}
use permesh_providers.Cloudflare.Errors.{error, max_body, max_pages, max_rows, max_requests}

-- `Budget`. Beside it, the requests that were sent, and the sleeps in milliseconds, the last one
-- first.
pub record Budget : Type 0 where
  pub requests : ℕ
  pub rows : ℕ
  pub sent : ℕ
  pub slept : List ℕ

abbrev pub no_budget_used : Budget
no_budget_used = record { requests = 0; rows = 0; sent = 0; slept = [] }

unfoldable pub read_body : List ℕ → List (Option (List ℕ)) → Result ProviderError (List ℕ)
read_body bytes [] = ok bytes
read_body bytes (none ∷ chunks) = err (error "transport")
read_body bytes (some chunk ∷ chunks) =
    let rest = read_body (bytes ++ chunk) chunks in
    if ltb max_body (length bytes + length chunk) then err (error "limit") else rest

unfoldable pub too_long : Option ℕ → Bool
too_long none = false
too_long (some n) = ltb max_body n

-- A response that was read to its end.
pub record Received : Type 0 where
  pub status : ℕ
  pub headers : Headers
  pub bytes : List ℕ

-- The operation of one attempt, under its deadline.
unfoldable pub exchange : Reply → Result ProviderError Received
exchange timed_out = err (error "timeout")
exchange (unsent timeout) = err (error "transport")
exchange (response status headers content_length chunks) =
    if too_long content_length then err (error "limit") else elim (read_body [] chunks) [
      | err e ↦ err e
      | ok bytes ↦ ok (record { status = status; headers = headers; bytes = bytes })
    ]

unfoldable pub server_error : ℕ → Bool
server_error status = leb 500 status && ltb status 600

unfoldable pub is_success : ℕ → Bool
is_success status = leb 200 status && ltb status 300

-- The seconds of a `retry-after` header.
unfoldable pub parse_seconds : Option String → Option ℕ
parse_seconds none = none
parse_seconds (some text) = parse_u64 text

unfoldable pub delay_of : ℕ → Headers → ℕ → Result ProviderError ℕ
delay_of status headers attempt = elim (headers "retry-after") [
  | some v ↦ elim (parse_seconds v) [
    | none ↦ err (error "rate_limit")
    | some seconds ↦ if ltb 30 seconds then err (error "rate_limit") else ok (1000 * seconds)
  ]
  | none ↦ if eqb status 429 then err (error "rate_limit") else ok (100 * 2 ^ attempt)
]

unfoldable pub category : String → String
category code =
    if code == "unauthorized"
      || code == "forbidden"
      || code == "rate_limit"
      || code == "timeout"
      || code == "limit"
      || code == "pagination"
    then code
    else "malformed"

-- What an answer that is no retry gives: a value whose `success` is true.
module _ (json : Json) where
  open json use {Value, get, as_u64, as_bool, as_array, from_slice}

  abbrev pub and_get : Option Value → String → Option Value
  and_get none key = none
  and_get (some v) key = get v key

  unfoldable pub says_success : Value → Bool
  says_success v = elim (get v "success") [
    | none ↦ false
    | some s ↦ elim (as_bool s) [ none ↦ false | some b ↦ b ]
  ]

  unfoldable pub answer : Received → Result ProviderError Value
  unfolding says_success
  answer r =
      if not (is_success r.status)
      then err (
          error (
            if eqb r.status 401
            then "unauthorized"
            else if eqb r.status 403
            then "forbidden"
            else "transport"))
      else elim (from_slice r.bytes) [
        | none ↦ err (error "malformed")
        | some v ↦ if says_success v then ok v else err (error "malformed")
      ]

  -- What an attempt makes of its response; `again` is the next attempt, after a sleep.
  unfoldable pub after :
      (ℕ → Result ProviderError Value × Budget)
      → ℕ
      → Budget
      → Received
      → Result ProviderError Value × Budget
  after again attempt b r =
      if eqb r.status 429 || server_error r.status
      then if eqb attempt 2
        then (err (error (if eqb r.status 429 then "rate_limit" else "transport")), b)
        else elim (delay_of r.status r.headers attempt) [
          | err e ↦ (err e, b)
          | ok delay ↦ again delay
        ]
      else (answer r, b)

  -- Where requests go: `joins`, whether `Url::join` takes a path; and the reply to the n-th request.
  module _ (joins : String → Bool) (reply : ℕ → String → List (String × String) → Reply) where
    unfoldable pub attempts :
        ℕ → ℕ → String → List (String × String) → Budget → Result ProviderError Value × Budget
    attempts zero attempt path query b = (err (error "transport"), b)
    attempts (suc left) attempt path query b =
        let counted = record b { requests = b.requests + 1 } in
        let b' = record counted { sent = b.sent + 1 } in
        let again = λ (delay : ℕ).
          attempts left (attempt + 1) path query (record b' { slept = delay ∷ b'.slept }) in
        if ltb max_requests counted.requests
        then (err (error "limit"), counted)
        else elim (exchange (reply b'.sent path query)) [
          | err e ↦ (err e, b')
          | ok r ↦ after again attempt b' r
        ]

    unfoldable pub request :
        String → List (String × String) → Budget → Result ProviderError Value × Budget
    request path query b =
        if joins path then attempts 3 0 path query b else (err (error "configuration"), b)

    -- What the loop over the pages keeps.
    pub record Progress : Type 0 where
      pub rows : List Value
      pub pages : List (List String)
      pub known_total : Option ℕ
      pub known_pages : Option ℕ

    -- A number of the page's own, where it is given.
    unfoldable pub agrees : Value → String → ℕ → Bool
    agrees info key expected = elim (get info key) [
      | none ↦ true
      | some v ↦ elim (as_u64 v) [ none ↦ false | some n ↦ eqb n expected ]
    ]

    -- A total, which must stay what it was.
    unfoldable pub total_of : Value → String → Option ℕ → Result ProviderError (Option ℕ)
    total_of info key previous = elim (get info key) [
      | none ↦ ok previous
      | some v ↦ elim (as_u64 v) [
        | none ↦ err (error "pagination")
        | some n ↦ elim previous [
          | none ↦ ok (some n)
          | some old ↦ if eqb old n then ok (some n) else err (error "pagination")
        ]
      ]
    ]

    -- The checks on `result_info`.
    unfoldable pub read_info :
        ℕ → ℕ → Value → Option ℕ → Option ℕ → Result ProviderError (Option ℕ × Option ℕ)
    read_info page count info total pages =
        if not (
          is_some (json.keys info)
          && agrees info "page" page
          && agrees info "per_page" 50
          && agrees info "count" count)
        then err (error "pagination")
        else elim (total_of info "total_count" total) [
          | err e ↦ err e
          | ok t ↦ elim (total_of info "total_pages" pages) [ err e ↦ err e | ok p ↦ ok (t, p) ]
        ]

    unfoldable pub known_of :
        ℕ → ℕ → Value → Option ℕ → Option ℕ → Result ProviderError (Option ℕ × Option ℕ)
    known_of page count value total pages = elim (get value "result_info") [
      | none ↦ ok (total, pages)
      | some info ↦ read_info page count info total pages
    ]

    -- Whether the total says that rows follow.
    unfoldable pub by_count : Option ℕ → ℕ → Result ProviderError (Option Bool)
    by_count none received = ok none
    by_count (some total) received =
        if ltb total received then err (error "pagination") else ok (some (ltb received total))

    unfoldable pub by_pages : Option ℕ → ℕ → ℕ → Result ProviderError (Option Bool)
    by_pages none page received = ok none
    by_pages (some total) page received =
        if eqb total 0
        then if not (eqb page 1) || not (eqb received 0)
          then err (error "pagination")
          else ok (some false)
        else if ltb total page
        then err (error "pagination")
        else ok (some (ltb page total))

    unfoldable pub clash : Option Bool → Option Bool → Bool
    clash (some a) (some b) = differ a b
    clash _ _ = false

    unfoldable pub more_of : Option Bool → Option Bool → ℕ → Bool
    more_of (some a) b count = a
    more_of none (some b) count = b
    more_of none none count = eqb count 50

    -- Whether another page follows.
    unfoldable pub follows : Option ℕ → Option ℕ → ℕ → ℕ → ℕ → Result ProviderError Bool
    follows total pages page received count = elim (by_count total received) [
      | err e ↦ err e
      | ok a ↦ elim (by_pages pages page received) [
        | err e ↦ err e
        | ok b ↦
            if clash a b || (more_of a b count && eqb count 0)
            then err (error "pagination")
            else ok (more_of a b count)
      ]
    ]

    -- A page's texts, which no other page may have.
    unfoldable pub repeated : List (List String) → List Value → Bool
    repeated pages [] = false
    repeated pages (v ∷ values) = has (map json.text (v ∷ values)) pages

    unfoldable pub noted : List (List String) → List Value → List (List String)
    noted pages [] = pages
    noted pages (v ∷ values) = map json.text (v ∷ values) ∷ pages

    -- A page that is taken; `more` is the next one.
    unfoldable pub take_page :
        (Progress → Budget → Option ProviderError × Progress × Budget)
        → ℕ
        → Value
        → List Value
        → Progress
        → Budget
        → Option ProviderError × Progress × Budget
    take_page more page value values p b =
        let count = length values in
        let b' = record b { rows = b.rows + count } in
        if ltb 50 count
        then (some (error "limit"), p, b)
        else if repeated p.pages values
        then (some (error "pagination"), p, b)
        else if ltb max_rows b'.rows
        then (some (error "limit"), p, b')
        else elim (known_of page count value p.known_total p.known_pages) [
          | err e ↦ (some e, p, b')
          | ok (total, pages) ↦ elim (follows total pages page (length p.rows + count) count) [
            | err e ↦ (some e, p, b')
            | ok another ↦
                let p' : Progress = record {
                  rows = p.rows ++ values;
                  pages = noted p.pages values;
                  known_total = total;
                  known_pages = pages;
                } in
                let next = more p' b' in if another then next else (none, p', b')
          ]
        ]

    abbrev pub page_query : List (String × String) → ℕ → List (String × String)
    page_query filters page = filters ++ ("per_page", "50") ∷ ("page", to_string page) ∷ []

    -- The loop over the pages, of which `left` are left.
    unfoldable pub pages_from :
        ℕ
        → ℕ
        → String
        → List (String × String)
        → Progress
        → Budget
        → Option ProviderError × Progress × Budget
    pages_from zero page path filters p b = (some (error "limit"), p, b)
    pages_from (suc left) page path filters p b =
        let more = λ (p' : Progress) (b' : Budget). pages_from left (page + 1) path filters p' b' in
        let (r, b') = request path (page_query filters page) b in
        elim r [
          | err e ↦ (some e, p, b')
          | ok value ↦ elim (get value "result") [
            | none ↦ (some (error "malformed"), p, b')
            | some result ↦ elim (as_array result) [
              | none ↦ (some (error "malformed"), p, b')
              | some values ↦ take_page more page value values p b'
            ]
          ]
        ]

    abbrev pub no_progress : Progress
    no_progress = record { rows = []; pages = []; known_total = none; known_pages = none }

    unfoldable pub read_all :
        String → List (String × String) → Budget → Option ProviderError × Progress × Budget
    unfolding pages_from
    read_all path filters b = pages_from max_pages 1 path filters no_progress b

    -- `Listing`: its rows, and the category of its failure.
    pub record Listing : Type 0 where
      pub rows : List Value
      pub failure : Option String

    unfoldable pub listing : String → List (String × String) → Budget → Listing × Budget
    listing path filters b =
        let (failed, p, b') = read_all path filters b in
        (
          record {
            rows = p.rows;
            failure = elim failed [ none ↦ none | some e ↦ some (category e.code) ];
          },
          b',
        )
