-- ===== src/Runtime/Response/Published.antt =====
-- What a successful operation has published.
use permesh_providers.Shared.{
  ℕ, ◌≤◌, ◌≡◌, ◌∙◌, sym, inl, inr, Bool, true, false, List, [], ◌∷◌, ◌++◌, String, arith, length,
  Result, ok, err, ◌==◌, ==_iff, string_eq, length-append, length-map, append_assoc, append-nil,
  concat_map, Result-cases,
}
use mathlib.Core.Path.{ap₂, fun_ext}
use permesh_providers.Runtime.Limits.{Failure, newline}
use permesh_providers.Runtime.Domain
use permesh_providers.Runtime.Sdk.{Sdk, Adapter}
use permesh_providers.Runtime.Output.{
  protocol_of, version_of, Event, complete, Output, Envelope, envelope, send,
}
use permesh_providers.Runtime.Output.Sending.{text, line_of, send-ok, send-IsBounded, IsBounded}
use permesh_providers.Runtime.Response.{
  Provider, Core, max_records, provider_result, count_of, records_of, discover_events, events_of,
  send_all, operation,
}

module _ (sdk : Sdk) (pieces : Envelope sdk → List (List ℕ)) where
  -- The frames of some events, one line each, under an output's contract and id.
  abbrev pub lines : Output → List (Event sdk) → List ℕ
  lines o es = concat_map (line_of sdk pieces o) es

  line_of_same :
      (o p : Output) (e : Event sdk)
      → p.contract ≡ o.contract
      → p.id ≡ o.id
      → line_of sdk pieces p e ≡ line_of sdk pieces o e
  unfolding envelope
  line_of_same o p e c i =
      ap₂
        (λ contract id.
          text (
            pieces (record {
              protocol = protocol_of contract;
              protocol_version = version_of contract;
              id = id;
              event = e;
            }))
          ++ newline ∷ [])
        c i

module _ (sdk : Sdk) (a : Adapter sdk) (core : Core) (pieces : Envelope sdk → List (List ℕ)) where
  pub send_all-IsBounded :
      (es : List (Event sdk)) (o : Output)
      → IsBounded o
      → IsBounded (send_all sdk a core pieces es o).1
  unfolding send_all
  send_all-IsBounded [] o b = b
  send_all-IsBounded (e ∷ es) o b = elim (Result-cases (send sdk pieces o e).0) [
    | inl (_, sent) ↦
        rw (sent, send_all)
          (send_all-IsBounded es (send sdk pieces o e).1 (send-IsBounded sdk pieces o e b))
    | inr (f, failed) ↦ rw (failed, send_all) (send-IsBounded sdk pieces o e b)
  ]

  not_ok : (f : Failure) → ◌≡◌ {A = Result Failure (Unit {0})} (err f) (ok tt) → ⊥
  not_ok f e = cc

  join :
      (e : Event sdk) (o p : Output) (es : List (Event sdk))
      → p.sent ≡ o.sent ++ line_of sdk pieces o e
      → p.contract ≡ o.contract
      → p.id ≡ o.id
      → p.sent ++ lines sdk pieces p es ≡ o.sent ++ lines sdk pieces o (e ∷ es)
  join e o p es s c i =
      let same : line_of sdk pieces p ≡ line_of sdk pieces o =
        fun_ext (λ x. line_of_same sdk pieces o p x c i) in
      ap₂ (λ sent line. sent ++ concat_map line es) s same
      ∙ append_assoc o.sent (line_of sdk pieces o e) (lines sdk pieces o es)

  send_all-ok :
      (es : List (Event sdk)) (o : Output)
      → (send_all sdk a core pieces es o).0 ≡ ok tt
      → (send_all sdk a core pieces es o).1.sent ≡ o.sent ++ lines sdk pieces o es
  unfolding send_all
  send_all-ok [] o h = sym (append-nil o.sent)
  send_all-ok (e ∷ es) o h = elim (Result-cases (send sdk pieces o e).0) [
    | inl (_, sent) ↦
        let (now, c, i) = send-ok sdk pieces o e sent in
        let later = send_all-ok es (send sdk pieces o e).1 (rw (sent, send_all) at h) in
        rw (sent, send_all) (later ∙ join e o (send sdk pieces o e).1 es now c i)
    | inr (f, failed) ↦ absurd (not_ok f (rw (failed, send_all) at h))
  ]

  -- The number of records that `operation` sends is the number that it reports.
  length-records_of :
      (s : Domain.Snapshot) → length (records_of sdk a core s) ≡ count_of sdk a core s
  unfolding records_of count_of
  length-records_of s = simp (length-append, length-map) (omega arith)

  -- What a discovery that succeeds has shown of its provider.
  pub record Discovered (p : Provider) (instance_name : String) : Type 0 where
    pub snapshot : Domain.Snapshot
    pub found : p.discover ≡ ok snapshot
    pub named : snapshot.provider ≡ instance_name
    pub valid : core.valid snapshot ≡ true

  discover_events-ok :
      (p : Provider) (instance_name : String) (es : List (Event sdk))
      → discover_events sdk a core p instance_name ≡ ok es
      → (d : Discovered p instance_name) × (es
          ≡ records_of sdk a core (core.sort d.snapshot)
            ++ complete
                (count_of sdk a core (core.sort d.snapshot))
                (core.sort d.snapshot).complete
                (a.limitations (core.sort d.snapshot).limitations)
              ∷ [])
        × (count_of sdk a core (core.sort d.snapshot) ≤ max_records)
  unfolding discover_events provider_result
  discover_events-ok p instance_name es h = elim (Result-cases p.discover) [
    | inl (s, e) ↦
        let named : (s.provider == instance_name) ≡ true = ground arith in
        (
          record { snapshot = s; found = e; named = (==_iff _ _).0 named; valid = ground arith },
          ground arith,
          ground arith,
        )
    | inr (f, e) ↦ ground arith
  ]

  operation-eq-send_all :
      (check : Bool) (p : Provider) (instance_name : String) (o : Output)
      → (operation sdk a core pieces check p instance_name o).0 ≡ ok tt
      → (es : List (Event sdk)) × (events_of sdk a core check p instance_name ≡ ok es)
        × ((operation sdk a core pieces check p instance_name o).1.sent
            ≡ o.sent ++ lines sdk pieces o es)
  unfolding operation
  operation-eq-send_all check p instance_name o h =
      elim (Result-cases (events_of sdk a core check p instance_name)) [
        | inl (es, e) ↦ (es, e, rw (e, operation) (send_all-ok es o (rw (e, operation) at h)))
        | inr (f, e) ↦ absurd (not_ok f (rw (e, operation) at h))
      ]

  -- A discovery that succeeds has sent, behind what was sent before, one line for each record of the
  -- provider's sorted snapshot and then the completion; the completion reports the number of those
  -- records, at most `max_records`, and the snapshot's completeness and limitations. The snapshot is
  -- one that the provider gave for this very instance and that is valid.
  pub discovery_published :
      (p : Provider) (instance_name : String) (o : Output)
      → (operation sdk a core pieces false p instance_name o).0 ≡ ok tt
      → (d : Discovered p instance_name) × ((operation sdk a core pieces false p instance_name
            o).1.sent
          ≡ o.sent
            ++ lines sdk pieces o (
                records_of sdk a core (core.sort d.snapshot)
                ++ complete
                    (length (records_of sdk a core (core.sort d.snapshot)))
                    (core.sort d.snapshot).complete
                    (a.limitations (core.sort d.snapshot).limitations)
                  ∷ []))
        × (length (records_of sdk a core (core.sort d.snapshot)) ≤ max_records)
  discovery_published p instance_name o h =
      let (es, found, sent) = operation-eq-send_all false p instance_name o h in
      let (d, same, few) = discover_events-ok p instance_name es (unfold events_of in found) in
      (d, rw (length-records_of, ← same) sent, rw length-records_of few)
