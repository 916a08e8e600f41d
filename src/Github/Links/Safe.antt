-- ===== src/Github/Links/Safe.antt =====
-- providers/github/src/client.rs: a page follows only at the same endpoint.
use mathlib.Core.Path.{subst}
use permesh_providers.Shared.{
  ℕ, ◌+◌, ◌≡◌, ap, ◌∙◌, ◌⊎◌, inl, inr, Bool, true, false, not, ◌&&◌, ◌||◌, List, [], ◌∷◌, none,
  some, String, eqb, length, ok, string_eq, ==_sound, Bool-cases, Option-cases, Result-cases, arith,
}
use permesh_providers.Shared.Map.{Map, get, insert}
use permesh_providers.Shared.Strings.{to_string, split, parse_u64}
use permesh_providers.Github.Http.{Headers, Web}
use permesh_providers.Github.Links.{
  link_entry, is_next, collect, same_map, expected_query, same_endpoint, follow, follow_all,
  next_page,
}

module _ (web : Web) (current : web.Url) where
  -- The URL is the current one, on its next page.
  pub record NextOf (next : web.Url) : Type 0 where
    pub origin : web.origin next ≡ web.origin current
    pub path : web.path next ≡ web.path current
    pub no_user : web.username next ≡ ""
    pub no_password : web.has_password next ≡ false
    pub no_fragment : web.has_fragment next ≡ false
    pub no_repeats : length (web.query_pairs next) ≡ length (collect (web.query_pairs next) [])
    pub text : String
    pub page : ℕ
    pub on_page : get "page" (collect (web.query_pairs current) []) ≡ some text
    pub numbered : parse_u64 text ≡ some page
    pub query :
        same_map
          (collect (web.query_pairs next) [])
          (insert "page" (to_string (page + 1)) (collect (web.query_pairs current) []))
        ≡ true

  -- An entry of the header leads to the next page.
  pub record Leads (entry : String) : Type 0 where
    pub target : String
    pub rel : String
    pub parts : link_entry entry ≡ some (target, rel)
    pub said : is_next rel ≡ true
    pub next : web.Url
    pub located : web.parse target ≡ some next
    pub same : NextOf next

  -- An entry that is well formed and is about another page.
  pub record Ignored (entry : String) : Type 0 where
    pub target : String
    pub rel : String
    pub parts : link_entry entry ≡ some (target, rel)
    pub silent : is_next rel ≡ false

  -- Every entry is well formed; whether one leads to the next page.
  pub data Links : List String → Bool → Type 0 where
    no_more : Links [] false
    leads :
        (entry : String) (entries : List String) (found : Bool)
        → Leads entry
        → Links entries found
        → Links (entry ∷ entries) true
    ignored :
        (entry : String) (entries : List String) (found : Bool)
        → Ignored entry
        → Links entries found
        → Links (entry ∷ entries) found

  conjuncts :
      (a b c d e f g : Bool)
      → (a && b && c && d && e && f && g) ≡ true
      → (a ≡ true) × (b ≡ true) × (c ≡ true) × (d ≡ true) × (e ≡ true) × (f ≡ true) × (g ≡ true)
  conjuncts a b c d e f g h = ground arith

  not-true : (b : Bool) → not b ≡ true → b ≡ false
  not-true b h = ground arith

  eqb-true : (n m : ℕ) → eqb n m ≡ true → n ≡ m
  eqb-true n m h = ground arith

  endpoint-NextOf :
      (next : web.Url) (expected : Map String String)
      → expected_query web current ≡ some expected
      → same_endpoint web current expected next ≡ true
      → NextOf next
  unfolding same_endpoint expected_query
  endpoint-NextOf next expected known same =
      let (o, p, u, w, f, r, q) = conjuncts _ _ _ _ _ _ _ same in
      elim (Option-cases (get "page" (collect (web.query_pairs current) []))) [
        | inl e ↦ ground arith
        | inr (text, e) ↦ elim (Option-cases (parse_u64 text)) [
          | inl n ↦ ground arith
          | inr (page, n) ↦
              let is : insert "page" (to_string (page + 1)) (collect (web.query_pairs current) [])
                  ≡ expected =
                ground arith in
              record {
                origin = ==_sound o;
                path = ==_sound p;
                no_user = ==_sound u;
                no_password = not-true _ w;
                no_fragment = not-true _ f;
                no_repeats = eqb-true _ _ r;
                text = text;
                page = page;
                on_page = e;
                numbered = n;
                query = rw is q;
              }
        ]
      ]

  follow-ok :
      (entry : String) (found : Bool)
      → follow web current entry ≡ ok found
      → ((found ≡ true) × Leads entry) ⊎ ((found ≡ false) × Ignored entry)
  unfolding follow
  follow-ok entry found h = elim (Option-cases (link_entry entry)) [
    | inl e ↦ ground arith
    | inr ((target, rel), e) ↦ elim (Bool-cases (is_next rel)) [
      | inr silent ↦
          inr (ground arith, record { target = target; rel = rel; parts = e; silent = silent })
      | inl said ↦ elim (Option-cases (web.parse target)) [
        | inl p ↦ ground arith
        | inr (next, p) ↦ elim (Option-cases (expected_query web current)) [
          | inl q ↦ ground arith
          | inr (expected, q) ↦ elim (Bool-cases (same_endpoint web current expected next)) [
            | inr other ↦ ground arith
            | inl same ↦ inl (
              ground arith,
              record {
                target = target;
                rel = rel;
                parts = e;
                said = said;
                next = next;
                located = p;
                same = endpoint-NextOf next expected q same;
              },
            )
          ]
        ]
      ]
    ]
  ]

  follow_all-ok :
      (entries : List String) (before found : Bool)
      → follow_all web current entries before ≡ ok found
      → (b : Bool) × Links entries b × (found ≡ (before || b))
  unfolding follow_all
  follow_all-ok [] before found h = (false, no_more, ground arith)
  follow_all-ok (entry ∷ entries) before found h = elim (Result-cases (follow web current entry)) [
    | inr (e, f) ↦ ground arith
    | inl (one, f) ↦
        let (b, links, is) =
          follow_all-ok entries (before || one) found (rw (f, follow_all) at h) in
        elim (follow-ok entry one f) [
          | inl (yes_one, lead) ↦ (true, leads entry entries b lead links, ground arith)
          | inr (no_one, skip) ↦ (b, ignored entry entries b skip links, ground arith)
        ]
  ]

  -- Where the server gives a `link` header and it is not refused, every entry of it is well formed,
  -- and another page follows exactly where an entry says so; each that does has a target that can be
  -- read, with the origin, the path and the query of this very page, with no user, password or
  -- fragment, no key twice, and only the number of the page one higher. Without the header another
  -- page follows exactly behind a page of a hundred rows.
  pub next_page-Links :
      (headers : Headers) (count : ℕ) (found : Bool)
      → next_page web current headers count ≡ ok found
      → ((headers "link" ≡ none) × (found ≡ eqb count 100))
        ⊎ ((link : String) × (headers "link" ≡ some (some link)) × Links (split b',' link) found)
  unfolding next_page
  next_page-Links headers count found h = elim (Option-cases (headers "link")) [
    | inl e ↦ inl (e, ground arith)
    | inr (v, e) ↦ elim (Option-cases v) [
      | inl bad ↦ ground arith
      | inr (link, text) ↦
          let (b, links, is) = follow_all-ok (split b',' link) false found (ground arith) in
          let same : b ≡ found = ground arith in
          inr (link, e ∙ ap some text, subst (Links (split b',' link)) same links)
    ]
  ]
