-- ===== src/Cloudflare/Protocol/Published.antt =====
-- providers/cloudflare/src/protocol.rs: what fails a listing reaches the host.
use permesh_providers.Shared.{
  ℕ, ◌≡◌, refl, Bool, true, false, ◌||◌, List, [], ◌∷◌, some, String, if◌then◌else◌, any, ◌==◌,
  string_eq,
}
use permesh_providers.Shared.Map.{Map, put}
use permesh_providers.Shared.Strings.{◌+++◌}
use permesh_providers.Shared.Codes.{among, among_cases, among-append, among_end, codes_from-among}
use permesh_providers.Http.{Reply}
use permesh_providers.Runtime.Domain.{Snapshot}
use permesh_providers.Runtime.Response.{ProviderError}
use permesh_providers.Cloudflare.Values.{Json}
use permesh_providers.Cloudflare.Client.{Budget, category, read_all, listing}
use permesh_providers.Cloudflare.Unique.{warning, before, unique_from, unique}
use permesh_providers.Cloudflare.Unique.Whole.{unique_from_cases, spoiled}
use permesh_providers.Cloudflare.Collection.Gathering.{listed}
use permesh_providers.Cloudflare.Protocol.{limitation_code, limitations}

-- The code that the host gets for the error that ended a listing.
unfoldable pub reported : String → String
reported code =
    if code == "unauthorized" || code == "forbidden"
    then "permission_denied"
    else if code == "rate_limit"
    then "rate_limited"
    else if code == "limit"
    then "page_limit"
    else "unknown"

abbrev warned : String → String
warned code = "Cloudflare partial collection: " +++ code +++ "."

limitation_code-warned : (code : String) → limitation_code (warned (category code)) ≡ reported code
unfolding limitation_code category reported ◌+++◌
limitation_code-warned code =
    among_cases (λ c. limitation_code (warned (category c)) ≡ reported c)
      ("unauthorized" ∷ "forbidden" ∷ "rate_limit" ∷ "limit" ∷ "timeout" ∷ "pagination" ∷ []) code
      (refl, (refl, (refl, (refl, (refl, (refl, tt))))))
      (λ other.
        let (n₁, (n₂, (n₃, (n₄, (n₅, (n₆, u)))))) = other in rw (n₁, n₂, n₃, n₄, n₅, n₆) refl)

module _ (json : Json) where
  unique_from-among :
      (value : String) (rows : List json.Value) (out : Map String json.Value)
      (conflicts : List String) (s : Snapshot)
      → among value s.limitations ≡ true
      → among value (unique_from json rows out conflicts s).1.limitations ≡ true
  unfolding unique_from warning
  unique_from-among value [] out conflicts s h = h
  unique_from-among value (row ∷ rows) out conflicts s h =
      unique_from_cases json (λ r. among value r.1.limitations ≡ true) row rows out conflicts s
        (λ out' conflicts' code.
          unique_from-among value rows out' conflicts' (warning s code)
            (among-append value s.limitations _ h))
        (λ key e. unique_from-among value rows out conflicts s h)
        (λ key e f. unique_from-among value rows (put before key row out) conflicts s h)

  -- Where a listing fails, the snapshot is no longer complete, and the host is told why: the code
  -- that belongs to the error is among the limitations that the adapter publishes, although only
  -- texts are kept in between, and whatever the rows are that were read before.
  pub listed-published :
      (joins : String → Bool) (reply : ℕ → String → List (String × String) → Reply)
      (self_id account_id path : String) (filters : List (String × String)) (s : Snapshot)
      (b : Budget) (e : ProviderError)
      → (read_all json joins reply path filters b).0 ≡ some e
      → ((listed json joins reply self_id account_id path filters s b).1.complete ≡ false)
        × (any
              (λ c. c == reported e.code)
              (limitations
                (listed json joins reply self_id account_id path filters s b).1.limitations)
            ≡ true)
  unfolding listed unique limitations warning listing
  listed-published joins reply self_id account_id path filters s b e h =
      let rows = (read_all json joins reply path filters b).1.rows in
      let code = category e.code in
      let s' = warning s code in
      let kept =
        unique_from-among (warned code) rows [] [] s' (among_end (warned code) s.limitations) in
      let told =
        codes_from-among limitation_code (warned code) []
          (unique_from json rows [] [] s').1.limitations kept in
      let named = rw (limitation_code-warned e.code) at told in
      rw h (spoiled json rows [] [] s' refl, named)
