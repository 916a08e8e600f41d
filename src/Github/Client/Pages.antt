-- ===== src/Github/Client/Pages.antt =====
-- providers/github/src/client.rs: what a listing holds, and what it may cost.
pub mod Complete
pub mod Costs
use permesh_providers.Shared.{
  ℕ, zero, suc, ◌+◌, ◌-◌, min, ◌≡◌, inl, inr, Bool, true, false, List, ◌++◌, Option, none, some,
  String, ltb, eqb, Result, ok, err, length, take, Bool-cases, Option-cases, Result-cases, arith,
}
use permesh_providers.Runtime.Response.{ProviderError}
use permesh_providers.Github.Errors.{error, max_pages, max_rows}
use permesh_providers.Github.Fields.{Json}
use permesh_providers.Github.Http.{Headers, Web}
use permesh_providers.Github.Links.{next_page}
use permesh_providers.Github.Records.{Listing}
use permesh_providers.Github.Client.{Budget, url, get, take_page, page_query, pages}

module _ (json : Json) (web : Web) where
  -- The listing behind a page of which so many rows are kept.
  abbrev pub grown_by : List json.Value → Budget → Listing json → Listing json
  grown_by items b acc = record acc {
    items = acc.items ++ take (min (length items) (max_rows - b.rows)) items;
    success = true;
  }

  abbrev pub charged : List json.Value → Budget → Budget
  charged items b = record b { rows = b.rows + min (length items) (max_rows - b.rows) }

  -- A page, by cases.
  pub take_page_cases :
      (P : Listing json × Budget → Type 0) (more : Listing json → Budget → Listing json × Budget)
      (page : ℕ) (u : web.Url) (headers : Headers) (items : List json.Value) (acc : Listing json)
      (b : Budget)
      → P (record acc { success = true; error = some (error "limit") }, b)
      → ((e : ProviderError)
          → P (record (grown_by items b acc) { error = some e }, charged items b))
      → (ltb (min (length items) (max_rows - b.rows)) (length items) ≡ false
          → next_page web u headers (length items) ≡ ok false
          → P (grown_by items b acc, charged items b))
      → (ltb (min (length items) (max_rows - b.rows)) (length items) ≡ false
          → next_page web u headers (length items) ≡ ok true
          → eqb page max_pages ≡ false
          → P (more (grown_by items b acc) (charged items b)))
      → P (take_page json web more page u headers items acc b)
  unfolding take_page
  take_page_cases P more page u headers items acc b long failed last next =
      elim (Bool-cases (ltb 100 (length items))) [
        | inl over ↦ rw over long
        | inr within ↦
            rw within
              elim (Bool-cases (ltb (min (length items) (max_rows - b.rows)) (length items))) [
                | inl cut ↦ rw cut (failed (error "limit"))
                | inr whole ↦
                    rw whole elim (Result-cases (next_page web u headers (length items))) [
                      | inr (e, f) ↦ rw f (failed e)
                      | inl (false, f) ↦ rw f (last whole f)
                      | inl (true, f) ↦ rw f elim (Bool-cases (eqb page max_pages)) [
                        | inl end ↦ rw end (failed (error "limit"))
                        | inr inside ↦ rw inside (next whole f inside)
                      ]
                    ]
              ]
      ]

  -- A page as it was read.
  pub record Read (segments : List String) (query : List (String × String)) (page : ℕ) (b : Budget)
      : Type 0 where
    pub u : web.Url
    pub headers : Headers
    pub value : json.Value
    pub items : List json.Value
    pub located : url json web segments (page_query json web page query) ≡ ok u
    pub got : (get json web u b).0 ≡ ok (headers, value)
    pub listed : json.as_array value ≡ some items

  -- A round of the loop over the pages, by cases.
  pub pages_cases :
      (P : Listing json × Budget → Type 0) (left page : ℕ) (segments : List String)
      (query : List (String × String)) (acc : Listing json) (b : Budget)
      → ((e : ProviderError) → P (record acc { error = some e }, b))
      → ((u : web.Url) (e : ProviderError)
          → P (record acc { error = some e }, (get json web u b).1))
      → ((r : Read segments query page b)
          → P (
              take_page json web
                (λ acc' b'. pages json web left (page + 1) segments query acc' b')
                page
                r.u
                r.headers
                r.items
                acc
                (get json web r.u b).1))
      → P (pages json web (suc left) page segments query acc b)
  unfolding pages
  pages_cases P left page segments query acc b nowhere failed read =
      elim (Result-cases (url json web segments (page_query json web page query))) [
        | inr (e, located) ↦ rw (located, pages) (nowhere e)
        | inl (u, located) ↦
            rw (located, pages)
              elim (Result-cases (get json web u b).0) [
                | inr (e, got) ↦ rw got (failed u e)
                | inl ((headers, value), got) ↦ rw got elim (Option-cases (json.as_array value)) [
                  | inl other ↦ rw other (failed u (error "malformed"))
                  | inr (items, listed) ↦ rw listed (
                      read (record {
                        u = u;
                        headers = headers;
                        value = value;
                        items = items;
                        located = located;
                        got = got;
                        listed = listed;
                      }))
                ]
              ]
      ]
