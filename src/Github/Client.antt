-- ===== src/Github/Client.antt =====
-- providers/github/src/client.rs: requests with retries, within the budget of a run, and listings.
pub mod Budgets
pub mod Pages
use permesh_providers.Shared.{
  ℕ, zero, suc, ◌+◌, ◌-◌, ◌*◌, ◌^◌, ◌%◌, max, min, Bool, true, false, not, ◌&&◌, ◌||◌, List, [],
  ◌∷◌, ◌++◌, map, Option, none, some, String, ltb, leb, eqb, if◌then◌else◌, any, is_some, length,
  take, Result, ok, err, ok_or, codes, ◌==◌, string_eq,
}
use permesh_providers.Shared.Strings.{to_string, contains, to_lower, parse_u64}
use permesh_providers.Runtime.Response.{ProviderError}
use permesh_providers.Github.Errors.{error, max_body, max_pages, max_rows, max_requests}
use permesh_providers.Github.Fields.{Json, safe_segment, or_else, and_then}
use permesh_providers.Github.Http.{
  Headers, Reply, timed_out, unsent, response, Timestamp, since, before, Web,
}
use permesh_providers.Github.Links.{next_page}
use permesh_providers.Github.Records.{Listing}

-- `Budget`. Beside it, the requests that were sent, and the sleeps made so far in milliseconds, the
-- last one first.
pub record Budget : Type 0 where
  pub requests : ℕ
  pub rows : ℕ
  pub sent : ℕ
  pub slept : List ℕ

abbrev pub no_budget_used : Budget
no_budget_used = record { requests = 0; rows = 0; sent = 0; slept = [] }

-- `header`.
unfoldable pub header : Headers → String → Option String
header headers name = and_then (headers name) (λ v. v)

-- `unix_timestamp().max(0) as u64`.
unfoldable pub clip : Timestamp → ℕ
clip (since t) = t
clip (before t) = 0

-- The read of the body, chunk by chunk.
unfoldable pub read_body : List ℕ → List (Option (List ℕ)) → Result ProviderError (List ℕ)
read_body bytes [] = ok bytes
read_body bytes (none ∷ chunks) = err (error "transport")
read_body bytes (some chunk ∷ chunks) =
    let rest = read_body (bytes ++ chunk) chunks in
    if ltb (max_body - length bytes) (length chunk) then err (error "limit") else rest

unfoldable pub too_long : Option ℕ → Bool
too_long none = false
too_long (some n) = ltb max_body n

unfoldable pub server_error : ℕ → Bool
server_error status = leb 500 status && ltb status 600

unfoldable pub failure_code : ℕ → Bool → String
unfolding server_error
failure_code status limited =
    if eqb status 401
    then "unauthorized"
    else if eqb status 403 && not limited
    then "forbidden"
    else if eqb status 403 || eqb status 429
    then "rate_limit"
    else if eqb status 404
    then "not_found"
    else if server_error status
    then "unavailable"
    else "http"

-- The seconds that `retry-after` asks for.
unfoldable pub retry_after : (String → Option Timestamp) → ℕ → String → Option ℕ
unfolding clip
retry_after rfc2822 now value =
    or_else (parse_u64 value)
      (elim (rfc2822 value) [ none ↦ none | some date ↦ some (clip date - now) ])

-- The seconds before the header of the rate limit is read.
unfoldable pub asked_delay :
    (String → Option Timestamp) → ℕ → Headers → ℕ → Bool → Result ProviderError ℕ
asked_delay rfc2822 now headers attempt limited = elim (header headers "retry-after") [
  | none ↦ ok (if limited then 60 else 2 ^ attempt)
  | some value ↦ ok_or (retry_after rfc2822 now value) (error "rate_limit")
]

unfoldable pub is_exhausted : Headers → Bool
is_exhausted headers = elim (header headers "x-ratelimit-remaining") [
  | none ↦ false
  | some v ↦ v == "0"
]

-- The time at which the rate limit is reset.
unfoldable pub reset_time : Headers → Option ℕ
reset_time headers = and_then (header headers "x-ratelimit-reset") parse_u64

unfoldable pub reset_delay : ℕ → Headers → ℕ → Result ProviderError ℕ
reset_delay now headers seconds =
    if is_exhausted headers
    then elim (reset_time headers) [
      | none ↦ err (error "rate_limit")
      | some reset ↦ ok (max seconds (reset - now))
    ]
    else ok seconds

-- The end of `retry_delay`: the bound, and the jitter, in milliseconds.
unfoldable pub bounded_delay : ℕ → ℕ → Result ProviderError ℕ
bounded_delay nanos seconds =
    if ltb 60 seconds then err (error "rate_limit") else ok (1000 * seconds + nanos % 251)

-- `retry_delay`, at a reading of the clock.
unfoldable pub retry_delay :
    (String → Option Timestamp) → ℕ × ℕ → Headers → ℕ → Bool → Result ProviderError ℕ
retry_delay rfc2822 (now, nanos) headers attempt limited =
    elim (asked_delay rfc2822 now headers attempt limited) [
      | err e ↦ err e
      | ok asked ↦ elim (reset_delay now headers asked) [
        | err e ↦ err e
        | ok seconds ↦ bounded_delay nanos seconds
      ]
    ]

module _ (json : Json) (web : Web) where
  open web use {Url, origin_url, with_path, with_query, reply, clock, rfc2822}
  open json use {Value, as_str, as_array, is_object, from_slice}

  unfoldable pub url : List String → List (String × String) → Result ProviderError Url
  url segments query =
      if any (λ s. not (safe_segment s)) segments
      then err (error "malformed")
      else elim (with_path origin_url segments) [
        | none ↦ err (error "configuration")
        | some u ↦ ok (elim query [ [] ↦ u | q ∷ qs ↦ with_query u (q ∷ qs) ])
      ]

  -- What a request gives where the exchange is complete.
  pub record Received : Type 0 where
    pub status : ℕ
    pub headers : Headers
    pub value : Option Value
    pub secondary : Bool

  -- The body of a 403 names a rate limit.
  unfoldable pub names_limit : List ℕ → Bool
  names_limit bytes =
      elim (and_then (from_slice bytes) (λ v. and_then (json.get v "message") as_str)) [
        | none ↦ false
        | some m ↦
            let message = map to_lower (codes m) in
            contains (codes "secondary rate limit") message
            || contains (codes "rate limit exceeded") message
            || contains (codes "abuse detection") message
      ]

  unfoldable pub read_value : ℕ → Headers → List ℕ → Result ProviderError Received
  read_value status headers bytes =
      if eqb status 403
      then ok (record {
        status = status;
        headers = headers;
        value = none;
        secondary = names_limit bytes;
      })
      else elim (from_slice bytes) [
        | none ↦ err (error "malformed")
        | some v ↦
            ok (record { status = status; headers = headers; value = some v; secondary = false })
      ]

  -- The operation of one attempt, under its deadline.
  unfoldable pub exchange : Reply → Result ProviderError Received
  exchange timed_out = err (error "timeout")
  exchange (unsent timeout) = err (error (if timeout then "timeout" else "transport"))
  exchange (response status headers content_length chunks) =
      if not (eqb status 200) && not (eqb status 403)
      then ok (record { status = status; headers = headers; value = none; secondary = false })
      else if too_long content_length
      then err (error "limit")
      else elim (read_body [] chunks) [ err e ↦ err e | ok bytes ↦ read_value status headers bytes ]

  unfoldable pub is_limited : Received → Bool
  is_limited r =
      r.secondary
      || eqb r.status 429
      || (eqb r.status 403 && (is_some (r.headers "retry-after") || is_exhausted r.headers))

  -- An attempt that gives no value: `again` is the next attempt, after a sleep.
  unfoldable pub retry :
      (ℕ → Result ProviderError (Headers × Value) × Budget)
      → ℕ
      → Budget
      → ℕ
      → Headers
      → Bool
      → Result ProviderError (Headers × Value) × Budget
  retry again attempt b status headers limited =
      if ltb attempt 2 && (limited || server_error status)
      then elim (retry_delay rfc2822 (clock b.sent) headers attempt limited) [
        | err e ↦ (err e, b)
        | ok delay ↦ again delay
      ]
      else (err (error (failure_code status limited)), b)

  -- What an attempt makes of its exchange.
  unfoldable pub after :
      (ℕ → Result ProviderError (Headers × Value) × Budget)
      → ℕ
      → Budget
      → Result ProviderError Received
      → Result ProviderError (Headers × Value) × Budget
  after again attempt b (err e) = (err e, b)
  after again attempt b (ok r) = elim r.value [
    | some v ↦ (ok (r.headers, v), b)
    | none ↦ retry again attempt b r.status r.headers (is_limited r)
  ]

  -- The loop over the attempts, of which `left` are left.
  unfoldable pub attempts :
      ℕ → ℕ → Url → String → Budget → Result ProviderError (Headers × Value) × Budget
  attempts zero attempt u media b = (err (error "unavailable"), b)
  attempts (suc left) attempt u media b =
      let counted = record b { requests = b.requests + 1 } in
      let b' = record counted { sent = b.sent + 1 } in
      let again = λ (delay : ℕ).
        attempts left (attempt + 1) u media (record b' { slept = delay ∷ b'.slept }) in
      if leb max_requests b.requests
      then (err (error "limit"), b)
      else after again attempt b' (exchange (reply b'.sent u media))

  unfoldable pub get_media : Url → String → Budget → Result ProviderError (Headers × Value) × Budget
  unfolding attempts
  get_media u media b = attempts 3 0 u media b

  unfoldable pub get : Url → Budget → Result ProviderError (Headers × Value) × Budget
  get u b = get_media u "application/vnd.github+json" b

  unfoldable pub object : List String → Budget → Result ProviderError Value × Budget
  object segments b = elim (url segments []) [
    | err e ↦ (err e, b)
    | ok u ↦
        let (r, b') = get u b in
        elim r [
          | err e ↦ (err e, b')
          | ok (headers, value) ↦
              (if is_object value then ok value else err (error "malformed"), b')
        ]
  ]

  abbrev pub stopped : String → Listing json → Listing json
  stopped code acc = record acc { error = some (error code) }

  -- What a page adds to the listing; `more` is the next page.
  unfoldable pub take_page :
      (Listing json → Budget → Listing json × Budget)
      → ℕ
      → Url
      → Headers
      → List Value
      → Listing json
      → Budget
      → Listing json × Budget
  take_page more page u headers items acc b =
      let count = length items in
      let read = record acc { success = true } in
      let consumed = min count (max_rows - b.rows) in
      let grown = record read { items = acc.items ++ take consumed items } in
      let b' = record b { rows = b.rows + consumed } in
      if ltb 100 count
      then (stopped "limit" read, b)
      else if ltb consumed count
      then (stopped "limit" grown, b')
      else elim (next_page web u headers count) [
        | err e ↦ (record grown { error = some e }, b')
        | ok false ↦ (grown, b')
        | ok true ↦ if eqb page max_pages then (stopped "limit" grown, b') else more grown b'
      ]

  abbrev pub page_query : ℕ → List (String × String) → List (String × String)
  page_query page query = query ++ ("per_page", "100") ∷ ("page", to_string page) ∷ []

  -- The loop over the pages, of which `left` are left.
  unfoldable pub pages :
      ℕ → ℕ → List String → List (String × String) → Listing json → Budget → Listing json × Budget
  pages zero page segments query acc b = (acc, b)
  pages (suc left) page segments query acc b =
      let more =
        λ (acc' : Listing json) (b' : Budget). pages left (page + 1) segments query acc' b' in
      elim (url segments (page_query page query)) [
        | err e ↦ (record acc { error = some e }, b)
        | ok u ↦
            let (r, b') = get u b in
            elim r [
              | err e ↦ (record acc { error = some e }, b')
              | ok (headers, value) ↦ elim (as_array value) [
                | none ↦ (stopped "malformed" acc, b')
                | some items ↦ take_page more page u headers items acc b'
              ]
            ]
      ]

  abbrev pub no_rows : Listing json
  no_rows = record { items = []; success = false; error = none }

  unfoldable pub list : List String → List (String × String) → Budget → Listing json × Budget
  unfolding pages
  list segments query b = pages max_pages 1 segments query no_rows b
