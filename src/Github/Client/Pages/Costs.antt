-- ===== src/Github/Client/Pages/Costs.antt =====
-- providers/github/src/client.rs: what a listing may cost.
use permesh_providers.Shared.{
  ℕ, zero, suc, ◌+◌, ◌-◌, ◌*◌, ◌≤◌, max, min, ◌≡◌, List, String, length, take, length-append,
  length-take, arith,
}
use permesh_providers.Github.Errors.{max_pages, max_rows, max_requests}
use permesh_providers.Github.Fields.{Json}
use permesh_providers.Github.Http.{Web}
use permesh_providers.Github.Records.{Listing}
use permesh_providers.Github.Client.{Budget, get, pages, list, no_rows}
use permesh_providers.Github.Client.Budgets.{IsFrugal, get-IsFrugal}
use permesh_providers.Github.Client.Pages.{grown_by, charged, take_page_cases, pages_cases}

-- What a listing of so many pages makes of the budget, behind a number of rows before it.
pub record IsAffordable (left before : ℕ) (b : Budget) (after : ℕ) (b' : Budget) : Type 0 where
  pub accounted : after + b.rows ≡ before + b'.rows
  pub rows : b'.rows ≤ max max_rows b.rows
  pub requests : b'.requests ≤ max max_requests b.requests
  pub counted : b'.sent + b.requests ≡ b.sent + b'.requests
  pub pages : b'.requests ≤ b.requests + 3 * left

one_page :
    (left before : ℕ) (b b' : Budget) → IsFrugal 3 b b' → IsAffordable (suc left) before b before b'
one_page left before b b' f = record {
  accounted = omega (arith, f.rows);
  rows = omega (arith, f.rows);
  requests = f.capped;
  counted = f.counted;
  pages = omega (arith, f.few);
}

module _ (json : Json) (web : Web) (segments : List String) (query : List (String × String)) where
  length-grown_by :
      (items : List json.Value) (acc : Listing json) (b : Budget)
      → length (grown_by json web items b acc).items
        ≡ length acc.items + min (length items) (max_rows - b.rows)
  length-grown_by items acc b =
      let n = min (length items) (max_rows - b.rows) in
      omega (arith, length-append acc.items (take n items), length-take n items)

  Costs : ℕ → Listing json → Budget → Listing json × Budget → Type 0
  Costs left acc b p = IsAffordable left (length acc.items) b (length p.0.items) p.1

  kept_page :
      (left : ℕ) (acc : Listing json) (b b' : Budget) (items : List json.Value)
      → IsFrugal 3 b b'
      → IsAffordable
          (suc left)
          (length acc.items)
          b
          (length (grown_by json web items b' acc).items)
          (charged json web items b')
  kept_page left acc b b' items f = record {
    accounted = omega (arith, f.rows, length-grown_by items acc b');
    rows = omega (arith, f.rows);
    requests = f.capped;
    counted = f.counted;
    pages = omega (arith, f.few);
  }

  onward :
      (left before kept after : ℕ) (b b' c : Budget)
      → b'.requests ≤ b.requests + 3
      → IsAffordable (suc left) before b kept b'
      → IsAffordable left kept b' after c
      → IsAffordable (suc left) before b after c
  onward left before kept after b b' c three f g = record {
    accounted = omega (arith, f.accounted, g.accounted);
    rows = omega (arith, f.rows, g.rows);
    requests = omega (arith, f.requests, g.requests);
    counted = omega (arith, f.counted, g.counted);
    pages = omega (arith, three, g.pages);
  }

  pages-Costs :
      (left page : ℕ) (acc : Listing json) (b : Budget)
      → Costs left acc b (pages json web left page segments query acc b)
  unfolding Costs pages
  pages-Costs zero page acc b = record {
    accounted = omega arith;
    rows = omega arith;
    requests = omega arith;
    counted = omega arith;
    pages = omega arith;
  }
  pages-Costs (suc left) page acc b =
      pages_cases json web (Costs (suc left) acc b) left page segments query acc b
        (λ e. record {
          accounted = omega arith;
          rows = omega arith;
          requests = omega arith;
          counted = omega arith;
          pages = omega arith;
        })
        (λ u e. one_page left (length acc.items) b (get json web u b).1 (get-IsFrugal json web u b))
        (λ r.
          let b' = (get json web r.u b).1 in
          let f = get-IsFrugal json web r.u b in
          let more = λ (acc' : Listing json) (c : Budget).
            pages json web left (page + 1) segments query acc' c in
          take_page_cases json web (Costs (suc left) acc b) more page r.u r.headers r.items acc b'
            (one_page left (length acc.items) b b' f) (λ e. kept_page left acc b b' r.items f)
            (λ fits done. kept_page left acc b b' r.items f)
            (λ fits goes inside.
              onward left (length acc.items) (length (grown_by json web r.items b' acc).items) _ b
                (charged json web r.items b') _ f.few (kept_page left acc b b' r.items f)
                (pages-Costs left (page + 1) (grown_by json web r.items b' acc)
                  (charged json web r.items b'))))

  -- A listing keeps one row for each that it charges to the budget. Within a run it never takes the
  -- budget beyond the limits on rows and on requests; it makes at most three requests for each of
  -- at most a hundred pages, and the budget counts each exactly as often as it is sent.
  pub list-IsAffordable :
      (b : Budget)
      → IsAffordable max_pages 0 b
          (length (list json web segments query b).0.items)
          (list json web segments query b).1
  unfolding list Costs
  list-IsAffordable b = pages-Costs max_pages 1 (no_rows json web) b
