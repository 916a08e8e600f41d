-- ===== src/Cloudflare/Unique/Settled.antt =====
-- providers/cloudflare/src/records.rs: which rows `unique` keeps.
use permesh_providers.Shared.{
  ◌≡◌, refl, inl, inr, Bool, true, false, not, ◌&&◌, ◌||◌, ◌↔◌, List, [], ◌∷◌, Option, none, some,
  String, if◌then◌else◌, ok, err, ◌==◌, string_eq, ==_iff, Bool-cases, Option-cases, Result-cases,
  arith,
}
use permesh_providers.Shared.Map.{Map, get, put, remove, has, get-put, get-remove}
use permesh_providers.Runtime.Domain.{Snapshot}
use permesh_providers.Cloudflare.Values.{Json}
use permesh_providers.Cloudflare.Fields.{id}
use permesh_providers.Cloudflare.Unique.{warning, before, differs, unique_from, unique}

module _ (json : Json) where
  open json use {Value, same}

  -- Whether a row has this id.
  abbrev pub bears : String → Value → Bool
  bears key row = elim (id json row) [ err e ↦ false | ok k ↦ k == key ]

  -- Whether each row with the id equals this one.
  unfoldable pub agree : String → Value → List Value → Bool
  agree key v [] = true
  agree key v (row ∷ rows) = (not (bears key row) || same v row) && agree key v rows

  -- The last row with the id, behind one that is known.
  unfoldable pub last_or : String → Value → List Value → Value
  last_or key v [] = v
  last_or key v (row ∷ rows) =
      let found = last_or key row rows in
      let rest = last_or key v rows in if bears key row then found else rest

  -- The last row with the id.
  unfoldable pub last : String → List Value → Option Value
  last key [] = none
  last key (row ∷ rows) =
      let rest = last key rows in if bears key row then some (last_or key row rows) else rest

  -- The row of an id, where the rows do not contradict each other.
  settled : String → List Value → Option Value
  settled key [] = none
  settled key (row ∷ rows) =
      let rest = settled key rows in
      if bears key row
      then (if agree key row rows then some (last_or key row rows) else none)
      else rest

  same_alike : (v w x : Value) → same v w ≡ true → same v x ≡ same w x
  same_alike v w x h =
      let back = json.same_sym v w h in
      let there : same v x ≡ true → same w x ≡ true = json.same_trans w v x back in
      let here : same w x ≡ true → same v x ≡ true = json.same_trans v w x h in ground arith

  agree_alike :
      (key : String) (v w : Value) (rows : List Value)
      → same v w ≡ true
      → agree key v rows ≡ agree key w rows
  unfolding agree
  agree_alike key v w [] h = refl
  agree_alike key v w (row ∷ rows) h =
      ground (arith, same_alike v w row h, agree_alike key v w rows h)

  same-last_or :
      (key : String) (v : Value) (rows : List Value)
      → agree key v rows ≡ true
      → same v (last_or key v rows) ≡ true
  unfolding agree last_or
  same-last_or key v [] h = json.same_refl v
  same-last_or key v (row ∷ rows) h = elim (Bool-cases (bears key row)) [
    | inr e ↦ ground (arith, e, same-last_or key v rows)
    | inl e ↦
        let alike : same v row ≡ true = ground arith in
        let rest : agree key row rows ≡ true = ground (arith, agree_alike key v row rows alike) in
        let found = same-last_or key row rows rest in
        let through = json.same_trans v row (last_or key row rows) alike found in
        ground (arith, e, through)
  ]

  -- What rows that follow make of an id.
  abbrev later : String → List Value → Bool → Option Value → Option Value
  later key rows conflict known = if conflict then none else elim known [
    | none ↦ settled key rows
    | some v ↦ if agree key v rows then some (last_or key v rows) else none
  ]

  get-unique_from :
      (rows : List Value) (out : Map String Value) (conflicts : List String) (s : Snapshot)
      (key : String)
      → (has key conflicts ≡ true → get key out ≡ none)
      → get key (unique_from json rows out conflicts s).0
        ≡ later key rows (has key conflicts) (get key out)
  unfolding unique_from settled agree last_or has differs
  get-unique_from [] out conflicts s key h = ground (arith, h)
  get-unique_from (row ∷ rows) out conflicts s key h = elim (Result-cases (id json row)) [
    | inr (e, f) ↦
        ground (arith, f, get-unique_from rows out conflicts (warning s "malformed") key h)
    | inl (k, f) ↦ elim (Bool-cases (has k conflicts)) [
      | inl old ↦ ground (arith, f, old, get-unique_from rows out conflicts s key h, ==_iff k key)
      | inr fresh ↦ elim (Bool-cases (differs json (get k out) row)) [
        | inl other ↦
            let closed : has key (k ∷ conflicts) ≡ true → get key (remove k out) ≡ none =
              λ e. ground (arith, h, get-remove k key out, ==_iff k key) in
            elim (Option-cases (get k out)) [
              | inl g ↦ ground arith
              | inr (v, g) ↦ ground (
                arith,
                f,
                fresh,
                other,
                g,
                get-unique_from rows (remove k out) (k ∷ conflicts)
                    (warning s "conflicting_records") key closed,
                get-remove k key out,
                ==_iff k key,
              )
            ]
        | inr alike ↦
            let kept : has key conflicts ≡ true → get key (put before k row out) ≡ none =
              λ e. ground (arith, h, get-put before k key row out, ==_iff k key) in
            let rest = get-unique_from rows (put before k row out) conflicts s key kept in
            elim (Option-cases (get k out)) [
              | inl g ↦
                  ground
                    (arith, f, fresh, alike, g, rest, get-put before k key row out, ==_iff k key)
              | inr (v, g) ↦
                  let is_row : agree key v rows ≡ agree key row rows =
                    agree_alike key v row rows (ground arith) in
                  ground (
                    arith,
                    f,
                    fresh,
                    alike,
                    g,
                    rest,
                    is_row,
                    get-put before k key row out,
                    ==_iff k key,
                  )
            ]
      ]
    ]
  ]

  get-unique :
      (rows : List Value) (s : Snapshot) (key : String)
      → get key (unique json rows s).0 ≡ settled key rows
  unfolding unique get has
  get-unique rows s key = get-unique_from rows [] [] s key (λ e. cc)

  settled_iff :
      (key : String) (v : Value) (rows : List Value)
      → (settled key rows ≡ some v) ↔ (last key rows ≡ some v) × (agree key v rows ≡ true)
  unfolding settled last agree
  settled_iff key v [] = (λ e. absurd (cc), λ e. absurd (cc))
  settled_iff key v (row ∷ rows) =
      let rest = settled_iff key v rows in
      let found = last_or key row rows in
      elim (Bool-cases (bears key row)) [
        | inl e ↦
            let alike : agree key row rows ≡ true → same row found ≡ true =
              same-last_or key row rows in
            let back : same row found ≡ true → same found row ≡ true = json.same_sym row found in
            let there : same row found ≡ true → agree key row rows ≡ agree key found rows =
              agree_alike key row found rows in
            let onward : same found row ≡ true → same row found ≡ true = json.same_sym found row in
            ground (arith, e)
        | inr e ↦ ground (arith, e, rest)
      ]

  -- After `unique`, an id has a row exactly where that is the last row with this id and each row with
  -- this id equals it, as `==` has it, wherever they stand among the others.
  pub unique_iff :
      (rows : List Value) (s : Snapshot) (key : String) (v : Value)
      → (get key (unique json rows s).0 ≡ some v)
        ↔ (last key rows ≡ some v) × (agree key v rows ≡ true)
  unique_iff rows s key v = rw (get-unique rows s key) (settled_iff key v rows)
