-- ===== src/Cloudflare/Unique/Whole.antt =====
-- providers/cloudflare/src/records.rs: a snapshot that `unique` leaves complete.
use permesh_providers.Shared.{
  Option, ◌==◌, ◌≡◌, refl, inl, inr, true, false, List, [], ◌∷◌, some, String, ok, string_eq,
  ==_iff, All, Bool-cases, Result-cases, arith,
}
use permesh_providers.Shared.Map.{Map, get, put, has, get-put}
use permesh_providers.Runtime.Domain.{Snapshot}
use permesh_providers.Cloudflare.Values.{Json}
use permesh_providers.Cloudflare.Fields.{id}
use permesh_providers.Cloudflare.Unique.{warning, before, differs, unique_from, unique}

module _ (json : Json) where
  open json use {Value, same}

  pub unique_from_cases :
      (P : Map String Value × Snapshot → Type 0) (row : Value) (rows : List Value)
      (out : Map String Value) (conflicts : List String) (s : Snapshot)
      → ((out' : Map String Value) (conflicts' : List String) (code : String)
          → P (unique_from json rows out' conflicts' (warning s code)))
      → ((key : String) → has key conflicts ≡ true → P (unique_from json rows out conflicts s))
      → ((key : String)
          → id json row ≡ ok key
          → differs json (get key out) row ≡ false
          → P (unique_from json rows (put before key row out) conflicts s))
      → P (unique_from json (row ∷ rows) out conflicts s)
  unfolding unique_from
  unique_from_cases P row rows out conflicts s warned skipped kept =
      elim (Result-cases (id json row)) [
        | inr (e, f) ↦ rw (f, unique_from) (warned _ _ _)
        | inl (k, f) ↦
            rw (f, unique_from)
              elim (Bool-cases (has k conflicts)) [
                | inl old ↦ rw (old, unique_from) (skipped k old)
                | inr fresh ↦
                    rw (fresh, unique_from)
                      elim (Bool-cases (differs json (get k out) row)) [
                        | inl other ↦ rw (other, unique_from) (warned _ _ _)
                        | inr alike ↦ rw (alike, unique_from) (kept k f alike)
                      ]
              ]
      ]

  pub spoiled :
      (rows : List Value) (out : Map String Value) (conflicts : List String) (s : Snapshot)
      → s.complete ≡ false
      → (unique_from json rows out conflicts s).1.complete ≡ false
  unfolding unique_from warning
  spoiled [] out conflicts s h = h
  spoiled (row ∷ rows) out conflicts s h =
      unique_from_cases (λ r. r.1.complete ≡ false) row rows out conflicts s
        (λ out' conflicts' code. spoiled rows out' conflicts' (warning s code) refl)
        (λ key e. spoiled rows out conflicts s h)
        (λ key e f. spoiled rows (put before key row out) conflicts s h)

  -- A row that is kept under its own id, by itself or an equal one.
  pub record IsKept (out : Map String Value) (row : Value) : Type 0 where
    pub key : String
    pub is_id : id json row ≡ ok key
    pub held : Value
    pub kept : get key out ≡ some held
    pub alike : same row held ≡ true

  -- A row that has become another one, equal to it.
  Becomes : Value → Option Value → Type 0
  Becomes v found = (w : Value) × (found ≡ some w) × (same v w ≡ true)

  record IsWhole (rows : List Value) (out out' : Map String Value) : Type 0 where
    stays : (key : String) (v : Value) → get key out ≡ some v → Becomes v (get key out')
    kept : All (IsKept out') rows

  AllKept : List Value → Map String Value → Map String Value × Snapshot → Type 0
  AllKept rows out r = r.1.complete ≡ true → IsWhole rows out r.0

  stays_put :
      (key j : String) (v row : Value) (out : Map String Value)
      → differs json (get key out) row ≡ false
      → get j out ≡ some v
      → Becomes v (get j (put before key row out))
  unfolding differs Becomes
  stays_put key j v row out alike e = elim (Bool-cases (key == j)) [
    | inl same_key ↦ (
      row,
      ground (arith, same_key, get-put before key j row out),
      ground (arith, same_key, alike, e, ==_iff key j),
    )
    | inr other ↦ (v, ground (arith, other, e, get-put before key j row out), json.same_refl v)
  ]

  next-Becomes :
      (v : Value) (found found' : Option Value)
      → Becomes v found
      → ((w : Value) → found ≡ some w → Becomes w found')
      → Becomes v found'
  unfolding Becomes
  next-Becomes v found found' (w, e, h) next =
      let (x, f, g) = next w e in (x, f, json.same_trans v w x h g)

  unique_from-AllKept :
      (rows : List Value) (out : Map String Value) (s : Snapshot)
      → AllKept rows out (unique_from json rows out [] s)
  unfolding unique_from AllKept has differs warning Becomes
  unique_from-AllKept [] out s =
      λ whole. record { stays = λ key v e. (v, e, json.same_refl v); kept = tt }
  unique_from-AllKept (row ∷ rows) out s =
      unique_from_cases (AllKept (row ∷ rows) out) row rows out [] s
        (λ out' conflicts' code whole.
          let bad = spoiled rows out' conflicts' (warning s code) refl in absurd (cc))
        (λ key e. absurd (cc))
        (λ key is_id alike whole.
          let rest = unique_from-AllKept rows (put before key row out) s whole in
          let now : get key (put before key row out) ≡ some row =
            ground (arith, get-put before key key row out, ==_iff key key) in
          let (held, kept, held_alike) = rest.stays key row now in
          record {
            stays = λ j v e.
                next-Becomes v (get j (put before key row out)) _
                  (stays_put key j v row out alike e) (rest.stays j);
            kept = (
              record { key = key; is_id = is_id; held = held; kept = kept; alike = held_alike },
              rest.kept,
            );
          })

  -- Where a snapshot is complete after `unique`, each row is kept under its own id: by itself,
  -- or by one that equals it, as `==` has it.
  pub unique-AllKept :
      (rows : List Value) (s : Snapshot)
      → (unique json rows s).1.complete ≡ true
      → All (IsKept (unique json rows s).0) rows
  unfolding unique AllKept
  unique-AllKept rows s h = (unique_from-AllKept rows [] s h).kept
