-- ===== src/Cloudflare/Unique.antt =====
-- providers/cloudflare/src/records.rs: `warning` and `unique`, the rows of a listing by their ids.
pub mod Settled
pub mod Whole
use permesh_providers.Shared.{
  Bool, true, false, not, List, [], ◌∷◌, ◌++◌, Option, none, some, String, if◌then◌else◌, codes,
  Result, ok, err, ◌==◌, string_eq,
}
use permesh_providers.Shared.Map.{Map, get, put, remove, has}
use permesh_providers.Shared.Strings.{◌+++◌, precedes}
use permesh_providers.Runtime.Domain.{Snapshot}
use permesh_providers.Cloudflare.Values.{Json}
use permesh_providers.Cloudflare.Fields.{id}

unfoldable pub warning : Snapshot → String → Snapshot
warning s code = record s {
  complete = false;
  limitations = s.limitations ++ ("Cloudflare partial collection: " +++ code +++ ".") ∷ [];
}

-- The order of the keys of a `BTreeMap<String, _>`.
abbrev pub before : String → String → Bool
before k j = precedes (codes k) (codes j)

module _ (json : Json) where
  open json use {Value, same}

  -- Whether the id stands for another row already.
  unfoldable pub differs : Option Value → Value → Bool
  differs none row = false
  differs (some old) row = not (same old row)

  -- The loop, by what it keeps: the map, the conflicts and the snapshot.
  unfoldable pub unique_from :
      List Value → Map String Value → List String → Snapshot → Map String Value × Snapshot
  unique_from [] out conflicts s = (out, s)
  unique_from (row ∷ rows) out conflicts s = elim (id json row) [
    | err e ↦ unique_from rows out conflicts (warning s "malformed")
    | ok key ↦
        if has key conflicts
        then unique_from rows out conflicts s
        else if differs (get key out) row
        then unique_from rows (remove key out) (key ∷ conflicts) (warning s "conflicting_records")
        else unique_from rows (put before key row out) conflicts s
  ]

  unfoldable pub unique : List Value → Snapshot → Map String Value × Snapshot
  unfolding unique_from
  unique rows s = unique_from rows [] [] s
