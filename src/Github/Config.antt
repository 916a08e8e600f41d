-- ===== src/Github/Config.antt =====
-- providers/github/src/lib.rs: the checks on a configuration, and the organizations of a provider.
pub mod Distinct
use permesh_providers.Shared.{
  ℕ, Bool, true, false, not, ◌&&◌, ◌||◌, List, [], ◌∷◌, map, String, ltb, leb, eqb, if◌then◌else◌,
  all, any, length, codes, byte_len, is_whitespace, is_none, Option, none, some, Result, ok, err,
  ◌==◌, string_eq,
}
use permesh_providers.Shared.Strings.{to_lower, eq_ignore_ascii_case, precedes}
use permesh_providers.Runtime.Response.{ProviderError}
use permesh_providers.Github.Errors.{error}
use permesh_providers.Github.Fields.{safe_segment}

unfoldable pub is_configured : String → List String → String → Bool
is_configured id orgs token = not (
    all is_whitespace (codes id)
    || ltb 128 (byte_len id)
    || eqb (length orgs) 0
    || ltb 100 (length orgs)
    || any (λ o. not (safe_segment o) || ltb 100 (byte_len o)) orgs
    || token == "")

-- The key of the sort. The names are ASCII, so their bytes are their code points.
unfoldable pub fold_case : String → List ℕ
unfolding to_lower
fold_case o = map to_lower (codes o)

-- `sort_by_key` is stable: an item goes before those behind it with its key.
unfoldable pub insert_by_key : String → List String → List String
insert_by_key x [] = x ∷ []
insert_by_key x (y ∷ rest) =
    let behind = insert_by_key x rest in
    if precedes (fold_case y) (fold_case x) then y ∷ behind else x ∷ y ∷ rest

unfoldable pub sort_by_key : List String → List String
sort_by_key [] = []
sort_by_key (x ∷ xs) = insert_by_key x (sort_by_key xs)

-- `dedup_by`, behind the last item that is kept.
unfoldable pub dedup_behind : String → List String → List String
dedup_behind last [] = last ∷ []
dedup_behind last (x ∷ xs) =
    let skip = dedup_behind last xs in
    let keep = last ∷ dedup_behind x xs in if eq_ignore_ascii_case x last then skip else keep

unfoldable pub dedup : List String → List String
dedup [] = []
dedup (x ∷ xs) = dedup_behind x xs

-- `new_with_network`, up to the client that is built, whose result is a parameter.
unfoldable pub new_provider :
    {A : Type 0} (client : Result ProviderError A) (id : String) (orgs : List String)
    (token : String)
    → Result ProviderError (A × List String)
new_provider client id orgs token =
    if not (is_configured id orgs token)
    then err (error "configuration")
    else elim client [ err e ↦ err e | ok a ↦ ok (a, dedup (sort_by_key orgs)) ]
