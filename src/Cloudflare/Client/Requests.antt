-- ===== src/Cloudflare/Client/Requests.antt =====
-- providers/cloudflare/src/client.rs: a listing sends no more requests than a run may.
use permesh_providers.Shared.{ℕ, zero, suc, ◌+◌, ◌≤◌, ◌≡◌, inl, inr, Bool, List, String, arith}
use permesh_providers.Http.{Reply}
use permesh_providers.Cloudflare.Values.{Json}
use permesh_providers.Cloudflare.Errors.{max_pages, max_requests}
use permesh_providers.Cloudflare.Client.Costs.{request-IsModest}
use permesh_providers.Cloudflare.Client.Pages.{taken, charged, take_page_cases, pages_cases}
use permesh_providers.Cloudflare.Client.{
  Budget, Progress, page_query, request, pages_from, no_progress, read_all, listing,
}

-- Each request that was sent is counted, and no more were sent than a run may send.
pub record IsWithin (b : Budget) : Type 0 where
  pub counted : b.sent ≤ b.requests
  pub capped : b.sent ≤ max_requests

same-IsWithin :
    (b b' : Budget) → (b'.sent ≡ b.sent) × (b'.requests ≡ b.requests) → IsWithin b → IsWithin b'
same-IsWithin b b' (e, f) h = record {
  counted = omega (arith, h.counted);
  capped = omega (arith, h.capped);
}

module _ (json : Json) (joins : String → Bool)
    (reply : ℕ → String → List (String × String) → Reply) where
  pub request-IsWithin :
      (path : String) (query : List (String × String)) (b : Budget)
      → IsWithin b
      → IsWithin (request json joins reply path query b).1
  request-IsWithin path query b h =
      let modest = request-IsModest json joins reply path query b in
      record {
        counted = omega (arith, modest.counted, h.counted);
        capped = elim modest.capped [
          | inl e ↦ omega (arith, e, h.capped)
          | inr e ↦ omega (arith, e, h.counted)
        ];
      }

  pages-IsWithin :
      (left page : ℕ) (path : String) (filters : List (String × String))
      (p : Progress json joins reply) (b : Budget)
      → IsWithin b
      → IsWithin (pages_from json joins reply left page path filters p b).2
  unfolding pages_from
  pages-IsWithin zero page path filters p b h = h
  pages-IsWithin (suc left) page path filters p b h =
      let query = page_query json joins reply filters page in
      let b' = (request json joins reply path query b).1 in
      let asked = request-IsWithin path query b h in
      pages_cases json joins reply (λ r. IsWithin r.2) left page path filters p b (λ e. asked)
        (λ value result values got has_result has_rows.
          take_page_cases json joins reply (λ r. IsWithin r.2)
            (λ p' b'. pages_from json joins reply left (page + 1) path filters p' b') page value
            values p b' (λ e c same. same-IsWithin b' c same asked)
            (λ t q known room done. record { counted = asked.counted; capped = asked.capped })
            (λ t q known.
              pages-IsWithin left (page + 1) path filters (taken json joins reply values t q p)
                (charged json joins reply values b')
                (record { counted = asked.counted; capped = asked.capped })))

  pub listing-IsWithin :
      (path : String) (filters : List (String × String)) (b : Budget)
      → IsWithin b
      → IsWithin (listing json joins reply path filters b).1
  unfolding listing read_all
  listing-IsWithin path filters b h =
      pages-IsWithin max_pages 1 path filters (no_progress json joins reply) b h
