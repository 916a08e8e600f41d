-- ===== src/Cloudflare/Client/Whole.antt =====
-- providers/cloudflare/src/client.rs: a listing without a failure is what its responses say.
use permesh_providers.Shared.{
  ◌∙◌, append_assoc, append-nil, [], ◌∷◌, All, All-map, ℕ, zero, suc, ◌+◌, ◌≤◌, ◌≡◌, ◌⊎◌, refl, inl,
  inr, Bool, false, List, ◌++◌, Option, none, some, String, length, length-append, ok, arith,
}
use mathlib.Core.Path.{subst, sym}
use permesh_providers.Http.{Reply}
use permesh_providers.Cloudflare.Values.{Json}
use permesh_providers.Cloudflare.Errors.{max_pages, max_rows}
use permesh_providers.Cloudflare.Client.Costs.{request-IsModest}
use permesh_providers.Cloudflare.Client.{
  Budget, Progress, follows, page_query, request, pages_from, no_progress, read_all,
}
use permesh_providers.Cloudflare.Client.Totals.{
  Says, Says-map, says_known, IsTotal, Stays, stated, FitsPage, Learns, known_of-Learns,
  follows-IsTotal,
}
use permesh_providers.Cloudflare.Client.Pages.{
  taken, charged, Outcome, take_page_cases, pages_cases,
}

module _ (json : Json) (joins : String → Bool)
    (reply : ℕ → String → List (String × String) → Reply) where
  -- A response to the request for a page, with its rows.
  pub record IsPage (path : String) (filters : List (String × String)) (page : ℕ) (b : Budget)
      (value : json.Value) (values : List json.Value) : Type 0 where
    pub got :
        (request json joins reply path (page_query json joins reply filters page) b).0 ≡ ok value
    pub result : json.Value
    pub has_result : json.get value "result" ≡ some result
    pub has_rows : json.as_array result ≡ some values
    pub fits : FitsPage json joins reply page (length values) value

  module _ (path : String) (filters : List (String × String)) where
    -- The budget after a page.
    abbrev pub after_page : ℕ → List json.Value → Budget → Budget
    after_page page values b =
        charged json joins reply values
          (request json joins reply path (page_query json joins reply filters page) b).1

    -- The responses from a page on, one for each page, and all of their rows.
    pub Reads : ℕ → Budget → List json.Value → List json.Value → Budget → Type 0
    Reads page b [] rows b' = (rows ≡ []) × (b' ≡ b)
    Reads page b (value ∷ responses) rows b' =
        (values : List json.Value) × (rest : List json.Value) × IsPage path filters page b value
          values
        × (rows ≡ values ++ rest)
        × Reads (page + 1) (after_page page values b) responses rest b'

    -- A listing that ends well, from a page on.
    record IsRest (page : ℕ) (p : Progress json joins reply) (b : Budget)
        (p' : Progress json joins reply) (b' : Budget) : Type 0 where
      last : ℕ
      responses : List json.Value
      rows : List json.Value
      counted : page + length responses ≡ suc last
      in_time : last ≤ max_pages
      some_page : 1 ≤ length responses
      read : Reads page b responses rows b'
      is_rows : p'.rows ≡ p.rows ++ rows
      total : IsTotal last p'.known_total p'.known_pages (length p'.rows)
      told_rows :
          All
            (λ v. Says (stated json joins reply v "total_count") (λ n. p'.known_total ≡ some n))
            responses
      told_pages :
          All
            (λ v. Says (stated json joins reply v "total_pages") (λ n. p'.known_pages ≡ some n))
            responses
      total_stays : Stays p.known_total p'.known_total
      pages_stay : Stays p.known_pages p'.known_pages
      accounted : length p'.rows + b.rows ≡ length p.rows + b'.rows
      limit : b'.rows ≤ max_rows

    Ends : ℕ → Progress json joins reply → Budget → Outcome json joins reply → Type 0
    Ends page p b r = r.0 ≡ none → IsRest page p b r.1 r.2

    last_page :
        (left page : ℕ) (p : Progress json joins reply) (b : Budget) (value : json.Value)
        (values : List json.Value) (t q : Option ℕ)
        → suc left + page ≡ 101
        → IsPage path filters page b value values
        → Learns json joins reply page (length values) value p.known_total p.known_pages t q
        → (after_page page values b).rows ≤ max_rows
        → follows json joins reply t q page (length p.rows + length values) (length values)
          ≡ ok false
        → IsRest page p b (taken json joins reply values t q p) (after_page page values b)
    unfolding Reads
    last_page left page p b value values t q h is_page learns room done =
        let same =
          (request-IsModest json joins reply path (page_query json joins reply filters page)
            b).rows in
        record {
          last = page;
          responses = value ∷ [];
          rows = values;
          counted = omega arith;
          in_time = omega arith;
          some_page = omega arith;
          read = (values, [], is_page, sym (append-nil values), (refl, refl));
          is_rows = refl;
          total = subst (IsTotal page t q) (sym (length-append p.rows values)) (
              follows-IsTotal json joins reply t q page (length p.rows + length values)
                (length values) done);
          told_rows = (learns.total, tt);
          told_pages = (learns.pages, tt);
          total_stays = learns.total_stays;
          pages_stay = learns.pages_stay;
          accounted = omega (arith, same, length-append p.rows values);
          limit = room;
        }

    next_page :
        (page : ℕ) (p p' : Progress json joins reply) (b b' : Budget) (value : json.Value)
        (values : List json.Value) (t q : Option ℕ)
        → IsPage path filters page b value values
        → Learns json joins reply page (length values) value p.known_total p.known_pages t q
        → IsRest (page + 1) (taken json joins reply values t q p) (after_page page values b) p' b'
        → IsRest page p b p' b'
    unfolding Reads
    next_page page p p' b b' value values t q is_page learns rest =
        let same =
          (request-IsModest json joins reply path (page_query json joins reply filters page)
            b).rows in
        let known : (n : ℕ) → t ≡ some n → p'.known_total ≡ some n =
          λ n e. says_known t (λ m. p'.known_total ≡ some m) n e rest.total_stays in
        let paged : (n : ℕ) → q ≡ some n → p'.known_pages ≡ some n =
          λ n e. says_known q (λ m. p'.known_pages ≡ some m) n e rest.pages_stay in
        record {
          last = rest.last;
          responses = value ∷ rest.responses;
          rows = values ++ rest.rows;
          counted = omega (arith, rest.counted);
          in_time = rest.in_time;
          some_page = omega arith;
          read = (values, rest.rows, is_page, refl, rest.read);
          is_rows = rest.is_rows ∙ append_assoc p.rows values rest.rows;
          total = rest.total;
          told_rows = (Says-map _ _ _ (λ n e. known n) learns.total, rest.told_rows);
          told_pages = (Says-map _ _ _ (λ n e. paged n) learns.pages, rest.told_pages);
          total_stays = Says-map _ _ _ (λ n e. known n) learns.total_stays;
          pages_stay = Says-map _ _ _ (λ n e. paged n) learns.pages_stay;
          accounted = omega (arith, same, rest.accounted, length-append p.rows values);
          limit = rest.limit;
        }

    pages-Ends :
        (left page : ℕ) (p : Progress json joins reply) (b : Budget)
        → left + page ≡ 101
        → Ends page p b (pages_from json joins reply left page path filters p b)
    unfolding Ends pages_from
    pages-Ends zero page p b h = λ bad. cc
    pages-Ends (suc left) page p b h =
        pages_cases json joins reply (Ends page p b) left page path filters p b (λ e bad. cc)
          (λ value result values got has_result has_rows.
            let b' =
              (request json joins reply path (page_query json joins reply filters page) b).1 in
            let is_page : FitsPage json joins reply page (length values) value
                → IsPage path filters page b value values =
              λ fits. record {
                got = got;
                result = result;
                has_result = has_result;
                has_rows = has_rows;
                fits = fits;
              } in
            take_page_cases json joins reply (Ends page p b)
              (λ p' b'. pages_from json joins reply left (page + 1) path filters p' b') page value
              values p b' (λ e c same bad. cc)
              (λ t q known room done good.
                let learns =
                  known_of-Learns json joins reply page (length values) value p.known_total
                    p.known_pages t q known in
                last_page left page p b value values t q h (is_page learns.fits) learns room done)
              (λ t q known good.
                let learns =
                  known_of-Learns json joins reply page (length values) value p.known_total
                    p.known_pages t q known in
                next_page page p _ b _ value values t q (is_page learns.fits) learns (
                  pages-Ends left (page + 1) (taken json joins reply values t q p)
                    (after_page page values b) (omega arith) good)))

    -- A whole listing: the responses that it was read from, and what each of them says.
    pub record IsComplete (b : Budget) (rows : List json.Value) (b' : Budget) : Type 0 where
      pub responses : List json.Value
      pub some_page : 1 ≤ length responses
      pub in_time : length responses ≤ max_pages
      pub read : Reads 1 b responses rows b'
      pub told_rows :
          All (λ v. Says (stated json joins reply v "total_count") (λ n. length rows ≡ n)) responses
      pub told_pages :
          All
            (λ v.
              Says
                (stated json joins reply v "total_pages")
                (λ n. ((n ≡ 0) × (length rows ≡ 0)) ⊎ (n ≡ length responses)))
            responses
      pub accounted : length rows + b.rows ≡ b'.rows
      pub limit : b'.rows ≤ max_rows

    -- A listing that ends without a failure is read from the responses to the requests for its pages,
    -- from the first page on, of which there are one to a hundred; its rows are theirs, in order.
    -- What any of these responses says in its `result_info` is so: the total of rows is the number of
    -- the rows, the total of pages is the number of the responses, or none where there are no rows,
    -- and the page, its size and its count are those of the response. Each row is charged, and the
    -- rows of the run are within their limit.
    pub read_all-IsComplete :
        (b : Budget)
        → (read_all json joins reply path filters b).0 ≡ none
        → IsComplete b
            (read_all json joins reply path filters b).1.rows
            (read_all json joins reply path filters b).2
    unfolding read_all Ends
    read_all-IsComplete b h =
        let end = (read_all json joins reply path filters b).1 in
        let rest = pages-Ends max_pages 1 (no_progress json joins reply) b (omega arith) h in
        let is_last : rest.last ≡ length rest.responses = omega (arith, rest.counted) in
        record {
          responses = rest.responses;
          some_page = rest.some_page;
          in_time = omega (arith, rest.in_time, is_last);
          read =
              subst
                (λ rows. Reads 1 b rest.responses rows (read_all json joins reply path filters b).2)
                (sym rest.is_rows) rest.read;
          told_rows =
              All-map _ _ rest.responses
                (λ v told.
                  Says-map _ _ _
                    (λ n e known.
                      says_known end.known_total (λ m. length end.rows ≡ m) n known
                        rest.total.by_total)
                    told)
                rest.told_rows;
          told_pages =
              All-map _ _ rest.responses
                (λ v told.
                  Says-map _ _ _
                    (λ n e known.
                      let by_page =
                        says_known end.known_pages
                          (λ m. ((m ≡ 0) × (length end.rows ≡ 0)) ⊎ (m ≡ rest.last)) n known
                          rest.total.by_page in
                      elim by_page [
                        | inl none_there ↦ inl none_there
                        | inr at_last ↦ inr (at_last ∙ is_last)
                      ])
                    told)
                rest.told_pages;
          accounted = omega (arith, rest.accounted);
          limit = rest.limit;
        }
