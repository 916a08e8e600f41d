-- ===== src/Github/Client/Pages/Complete.antt =====
-- providers/github/src/client.rs: a listing without an error is all of its pages.
use mathlib.Core.Path.{subst}
use permesh_providers.Shared.{
  ℕ, zero, suc, ◌+◌, ◌-◌, ◌<◌, min, ◌≡◌, refl, sym, ap, ◌∙◌, true, false, List, ◌++◌, none, String,
  ltb, ok, length, take, take_all, append_assoc, arith,
}
use permesh_providers.Github.Errors.{max_pages, max_rows}
use permesh_providers.Github.Fields.{Json}
use permesh_providers.Github.Http.{Web}
use permesh_providers.Github.Links.{next_page}
use permesh_providers.Github.Records.{Listing}
use permesh_providers.Github.Client.{Budget, get, pages, list, no_rows}
use permesh_providers.Github.Client.Pages.{Read, grown_by, charged, take_page_cases, pages_cases}

module _ (json : Json) (web : Web) (segments : List String) (query : List (String × String)) where
  -- The budget behind a page.
  abbrev pub behind : (page : ℕ) (b : Budget) → Read json web segments query page b → Budget
  behind page b r = let b' = (get json web r.u b).1 in record b' { rows = b'.rows + length r.items }

  -- The rows of all pages from one on: each is read, says that another follows, and the last one
  -- that none does.
  pub data AllPages : ℕ → Budget → List json.Value → Type 0 where
    last_page :
        (page : ℕ) (b : Budget) (r : Read json web segments query page b)
        → next_page web r.u r.headers (length r.items) ≡ ok false
        → AllPages page b r.items
    then_page :
        (page : ℕ) (b : Budget) (r : Read json web segments query page b)
        (rest all : List json.Value)
        → next_page web r.u r.headers (length r.items) ≡ ok true
        → AllPages (page + 1) (behind page b r) rest
        → all ≡ r.items ++ rest
        → AllPages page b all

  -- A listing that ends without an error has found all rows from the page on.
  Found : ℕ → Budget → Listing json → Listing json → Type 0
  Found page b acc l =
      l.error ≡ none
      → (l.success ≡ true)
        × (rest : List json.Value) × (l.items ≡ acc.items ++ rest)
        × AllPages page b rest

  whole : (n m : ℕ) → ltb (min n m) n ≡ false → min n m ≡ n
  whole n m h = ground arith

  taken : (items : List json.Value) (n : ℕ) → n ≡ length items → take n items ≡ items
  taken items n e = take_all n items (omega (arith, e))

  page-Found :
      (left page : ℕ) (acc : Listing json) (b : Budget)
      → left + page ≡ 101
      → 0 < left
      → Found page b acc (pages json web left page segments query acc b).0
  unfolding Found
  page-Found zero page acc b h pos = absurd (omega arith)
  page-Found (suc left) page acc b h pos =
      pages_cases json web (λ p. Found page b acc p.0) left page segments query acc b (λ e bad. cc)
        (λ u e bad. cc)
        (λ r.
          let b' = (get json web r.u b).1 in
          let more = λ (acc' : Listing json) (c : Budget).
            pages json web left (page + 1) segments query acc' c in
          take_page_cases json web (λ p. Found page b acc p.0) more page r.u r.headers r.items acc
            b' (λ bad. cc) (λ e bad. cc)
            (λ fits done good.
              let all = whole (length r.items) (max_rows - b'.rows) fits in
              (
                refl,
                r.items,
                ap (λ xs. acc.items ++ xs) (taken r.items _ all),
                last_page page b r done,
              ))
            (λ fits goes inside good.
              let all = whole (length r.items) (max_rows - b'.rows) fits in
              let kept = taken r.items _ all in
              let (found, rest, is, pages_left) =
                page-Found left (page + 1) (grown_by json web r.items b' acc)
                  (charged json web r.items b') (omega arith) (ground arith) good in
              (
                found,
                r.items ++ rest,
                is
                    ∙ ap (λ xs. (acc.items ++ xs) ++ rest) kept
                    ∙ append_assoc acc.items r.items rest,
                then_page page b r rest (r.items ++ rest) goes
                    (subst (λ n. AllPages (page + 1) (record b' { rows = b'.rows + n }) rest) all
                      pages_left)
                    refl,
              )))

  -- A listing that ends without an error holds exactly the rows of all pages from the first to the
  -- one that says that none follows, in their order: no page is skipped and no row is cut off.
  pub list-AllPages :
      (b : Budget)
      → (list json web segments query b).0.error ≡ none
      → ((list json web segments query b).0.success ≡ true)
        × AllPages 1 b (list json web segments query b).0.items
  unfolding list Found
  list-AllPages b h =
      let (found, rest, is, pages_read) =
        page-Found max_pages 1 (no_rows json web) b (omega arith) (omega arith) h in
      (found, subst (AllPages 1 b) (sym is) pages_read)
