-- ===== src/Cloudflare/Client/Pages.antt =====
-- providers/cloudflare/src/client.rs: a page of a listing, by cases.
use permesh_providers.Shared.{
  ℕ, suc, ◌+◌, ◌≤◌, ◌≡◌, refl, inl, inr, Bool, true, false, List, ◌++◌, Option, none, some, String,
  ltb, length, ok, Bool-cases, Option-cases, Result-cases, arith,
}
use permesh_providers.Runtime.Response.{ProviderError}
use permesh_providers.Http.{Reply}
use permesh_providers.Cloudflare.Values.{Json}
use permesh_providers.Cloudflare.Errors.{max_rows}
use permesh_providers.Cloudflare.Client.{
  Budget, Progress, follows, known_of, repeated, noted, take_page, page_query, request, pages_from,
}

module _ (json : Json) (joins : String → Bool)
    (reply : ℕ → String → List (String × String) → Reply) where
  -- A page that is taken.
  abbrev pub taken :
      List json.Value → Option ℕ → Option ℕ → Progress json joins reply → Progress json joins reply
  taken values t q p = record {
    rows = p.rows ++ values;
    pages = noted json joins reply p.pages values;
    known_total = t;
    known_pages = q;
  }

  abbrev pub charged : List json.Value → Budget → Budget
  charged values b = record b { rows = b.rows + length values }

  abbrev pub Outcome : Type 0
  Outcome = Option ProviderError × Progress json joins reply × Budget

  -- Rows are charged, but no requests.
  abbrev pub SameRequests : Budget → Budget → Type 0
  SameRequests b b' = (b'.sent ≡ b.sent) × (b'.requests ≡ b.requests)

  pub take_page_cases :
      (P : Outcome → Type 0) (more : Progress json joins reply → Budget → Outcome) (page : ℕ)
      (value : json.Value) (values : List json.Value) (p : Progress json joins reply) (b : Budget)
      → ((e : ProviderError) (b' : Budget) → SameRequests b b' → P (some e, p, b'))
      → ((t q : Option ℕ)
          → known_of json joins reply page (length values) value p.known_total p.known_pages
            ≡ ok (t, q)
          → b.rows + length values ≤ max_rows
          → follows json joins reply t q page (length p.rows + length values) (length values)
            ≡ ok false
          → P (none, taken values t q p, charged values b))
      → ((t q : Option ℕ)
          → known_of json joins reply page (length values) value p.known_total p.known_pages
            ≡ ok (t, q)
          → P (more (taken values t q p) (charged values b)))
      → P (take_page json joins reply more page value values p b)
  unfolding take_page
  take_page_cases P more page value values p b failed last next =
      elim (Bool-cases (ltb 50 (length values))) [
        | inl long ↦ rw long (failed _ _ (refl, refl))
        | inr short ↦ rw short elim (Bool-cases (repeated json joins reply p.pages values)) [
          | inl again ↦ rw again (failed _ _ (refl, refl))
          | inr fresh ↦ rw fresh elim (Bool-cases (ltb max_rows (b.rows + length values))) [
            | inl full ↦ rw full (failed _ _ (refl, refl))
            | inr fits ↦
                let room : b.rows + length values ≤ max_rows = ground arith in
                rw fits
                  elim (Result-cases (
                    known_of json joins reply page (length values) value p.known_total
                      p.known_pages)) [
                        | inr (e, f) ↦ rw f (failed _ _ (refl, refl))
                        | inl ((t, q), f) ↦
                            rw f
                              elim (Result-cases (
                                follows json joins reply t q page (length p.rows + length values)
                                  (length values))) [
                                    | inr (e, g) ↦ rw g (failed _ _ (refl, refl))
                                    | inl (true, g) ↦ rw g (next t q f)
                                    | inl (false, g) ↦ rw g (last t q f room g)
                                  ]
                      ]
          ]
        ]
      ]

  pub pages_cases :
      (P : Outcome → Type 0) (left page : ℕ) (path : String) (filters : List (String × String))
      (p : Progress json joins reply) (b : Budget)
      → ((e : ProviderError)
          → P (
            some e,
            p,
            (request json joins reply path (page_query json joins reply filters page) b).1,
          ))
      → ((value result : json.Value) (values : List json.Value)
          → (request json joins reply path (page_query json joins reply filters page) b).0
            ≡ ok value
          → json.get value "result" ≡ some result
          → json.as_array result ≡ some values
          → P (
              take_page json joins reply
                (λ p' b'. pages_from json joins reply left (page + 1) path filters p' b')
                page
                value
                values
                p
                (request json joins reply path (page_query json joins reply filters page) b).1))
      → P (pages_from json joins reply (suc left) page path filters p b)
  unfolding pages_from
  pages_cases P left page path filters p b failed read =
      elim (Result-cases
        (request json joins reply path (page_query json joins reply filters page) b).0) [
          | inr (e, f) ↦ rw (f, pages_from) (failed _)
          | inl (value, f) ↦
              rw (f, pages_from)
                elim (Option-cases (json.get value "result")) [
                  | inl g ↦ rw g (failed _)
                  | inr (result, g) ↦ rw g elim (Option-cases (json.as_array result)) [
                    | inl k ↦ rw k (failed _)
                    | inr (values, k) ↦ rw k (read value result values f g k)
                  ]
                ]
        ]
