-- ===== src/Github/Links.antt =====
-- `next_page` of providers/github/src/client.rs: whether a page says that another one follows.
pub mod Safe
use permesh_providers.Shared.{
  ℕ, ◌+◌, Bool, true, false, not, ◌&&◌, ◌||◌, List, [], ◌∷◌, Option, none, some, String, eqb,
  if◌then◌else◌, any, all, length, Result, ok, err, ◌>>=◌, ok_or, ◌==◌, string_eq,
}
use permesh_providers.Shared.Map.{Map, get, insert}
use permesh_providers.Shared.Strings.{
  to_string, trim, trim_matches, strip_prefix, split_once, split, split_whitespace, parse_u64,
}
use permesh_providers.Runtime.Response.{ProviderError}
use permesh_providers.Github.Errors.{error}
use permesh_providers.Github.Http.{Headers, Web}

-- `find_map` of the parameter `rel`.
unfoldable pub find_rel : List String → Option String
find_rel [] = none
find_rel (p ∷ ps) =
    let rest = find_rel ps in
    elim (strip_prefix "rel=" (trim p)) [ some rel ↦ some rel | none ↦ rest ]

-- The target and the relation of an entry of a `link` header.
unfoldable pub link_entry : String → Option (String × String)
link_entry entry = elim (split_once b'>' (trim entry)) [
  | none ↦ none
  | some (target, parameters) ↦ elim (strip_prefix "<" target) [
    | none ↦ none
    | some inner ↦ elim (find_rel (split b';' parameters)) [
      | none ↦ none
      | some rel ↦ some (inner, trim_matches b'"' rel)
    ]
  ]
]

unfoldable pub is_next : String → Bool
is_next rel = any (λ r. r == "next") (split_whitespace rel)

-- `collect` into a `BTreeMap`: of the pairs with one key, the last.
unfoldable pub collect : List (String × String) → Map String String → Map String String
collect [] m = m
collect ((k, v) ∷ pairs) m = collect pairs (insert k v m)

unfoldable pub holds_all : Map String String → Map String String → Bool
holds_all m [] = true
holds_all m ((k, v) ∷ n) = (elim (get k m) [ none ↦ false | some w ↦ w == v ]) && holds_all m n

-- `==` on `BTreeMap`.
unfoldable pub same_map : Map String String → Map String String → Bool
unfolding holds_all
same_map m n = eqb (length m) (length n) && holds_all m n

module _ (web : Web) where
  open web use {Url, parse, query_pairs, origin, path, username, has_password, has_fragment}

  -- The query that the next page must have.
  unfoldable pub expected_query : Url → Option (Map String String)
  expected_query current =
      let params = collect (query_pairs current) [] in
      elim (get "page" params) [
        | none ↦ none
        | some v ↦ elim (parse_u64 v) [
          | none ↦ none
          | some page ↦ some (insert "page" (to_string (page + 1)) params)
        ]
      ]

  unfoldable pub same_endpoint : Url → Map String String → Url → Bool
  same_endpoint current expected next =
      let pairs = query_pairs next in
      let actual = collect pairs [] in
      (origin next == origin current)
      && (path next == path current)
      && (username next == "")
      && not (has_password next)
      && not (has_fragment next)
      && eqb (length pairs) (length actual)
      && same_map actual expected

  -- Whether an entry leads to the next page.
  unfoldable pub follow : Url → String → Result ProviderError Bool
  follow current entry = elim (link_entry entry) [
    | none ↦ err (error "pagination")
    | some (target, rel) ↦ if not (is_next rel) then ok false else elim (parse target) [
      | none ↦ err (error "pagination")
      | some next ↦ elim (expected_query current) [
        | none ↦ err (error "pagination")
        | some expected ↦
            if same_endpoint current expected next then ok true else err (error "pagination")
      ]
    ]
  ]

  unfoldable pub follow_all : Url → List String → Bool → Result ProviderError Bool
  follow_all current [] has_next = ok has_next
  follow_all current (entry ∷ entries) has_next =
      let rest = λ (found : Bool). follow_all current entries (has_next || found) in
      elim (follow current entry) [ err e ↦ err e | ok found ↦ rest found ]

  unfoldable pub next_page : Url → Headers → ℕ → Result ProviderError Bool
  next_page current headers count = elim (headers "link") [
    | none ↦ ok (eqb count 100)
    | some none ↦ err (error "pagination")
    | some (some link) ↦ follow_all current (split b',' link) false
  ]
