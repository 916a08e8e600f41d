-- ===== src/Runtime/Session/Bounds.antt =====
-- However a session goes, what it has sent stays within the transcript's limit.
use permesh_providers.Shared.{
  ℕ, ◌≤◌, Bool, not, ◌&&◌, ◌||◌, differ, List, [], ◌∷◌, Option, String, is_some, Result, ok, err,
  Result-cases, Bool-cases, Option-cases, arith, take, drop, inl, inr, length,
}
use permesh_providers.Runtime.Limits.{Failure, cancelled, max_total, code}
use permesh_providers.Runtime.Sdk.{Sdk, Adapter}
use permesh_providers.Runtime.Input.{Read, Input}
use permesh_providers.Runtime.Input as In
use permesh_providers.Runtime.Request.{
  same_contract, Operation, WireRequest, Command, handshake, operation, describe, describe_auth,
  cancel,
}
use permesh_providers.Runtime.Output as Out
use permesh_providers.Runtime.Output.{Output, Write, blocked, Envelope, Event, send}
use permesh_providers.Runtime.Output.Sending.{IsBounded, send-IsBounded}
use permesh_providers.Runtime.Response.{ProviderError, Provider, Core, send_all}
use permesh_providers.Runtime.Response.Published.{send_all-IsBounded}
use permesh_providers.Runtime.Session.{
  Race, at_once, during, overdue, finished, asked, Build, next, usable, operation_id, answer,
  part_of_first, cut_off, select, run_operation, dispatch, proceed, greeting, opened, session,
  close, serve,
}

module _ (sdk : Sdk) (a : Adapter sdk) (core : Core) (decode : List ℕ → Option (WireRequest sdk a))
    (pieces : Envelope sdk → List (List ℕ)) where
  part_of_first-IsBounded :
      (n : ℕ) (es : List (Event sdk)) (o : Output)
      → IsBounded o
      → IsBounded (part_of_first sdk a core decode pieces n es o)
  unfolding part_of_first
  part_of_first-IsBounded n [] o b = b
  part_of_first-IsBounded n (e ∷ es) o b =
      send-IsBounded sdk pieces (record o { writes = blocked n ∷ o.writes }) e (omega arith)

  cut_off-IsBounded :
      (k n : ℕ) (r : Result Failure (List (Event sdk))) (o : Output)
      → IsBounded o
      → IsBounded (cut_off sdk a core decode pieces k n r o)
  unfolding cut_off
  cut_off-IsBounded k n (err f) o b = b
  cut_off-IsBounded k n (ok es) o b =
      part_of_first-IsBounded n (drop k es) (send_all sdk a core pieces (take k es) o).1
        (send_all-IsBounded sdk a core pieces (take k es) o b)

module _ (sdk : Sdk) (a : Adapter sdk) (core : Core) (decode : List ℕ → Option (WireRequest sdk a))
    (pieces : Envelope sdk → List (List ℕ))
    (factory : String
      → a.Configuration
      → a.Credentials
      → Option sdk.NetworkContext
      → Result ProviderError Provider)
    (network_enabled : Bool) where
  select-IsBounded :
      (race : Race) (check : Bool) (c : Build sdk a core decode pieces) (i : Input) (o : Output)
      → IsBounded o
      → IsBounded (select sdk a core decode pieces factory network_enabled race check c i o).output
  unfolding select
  select-IsBounded at_once check c i o b = b
  select-IsBounded (during k n) check c i o b = cut_off-IsBounded sdk a core decode pieces k n _ o b
  select-IsBounded (overdue k n) check c i o b =
      cut_off-IsBounded sdk a core decode pieces k n _ o b
  select-IsBounded finished check c i o b =
      elim (Result-cases
        (answer sdk a core decode pieces factory network_enabled finished check c)) [
          | inl (es, e) ↦ rw (e, select) (send_all-IsBounded sdk a core pieces es o b)
          | inr (f, e) ↦ rw (e, select) b
        ]

  module _ (race : Race) where
    run_operation-IsBounded :
        (name : String) (op : Option Operation) (requested check : Bool) (conf : a.Configuration)
        (cred : a.Credentials) (net : Option sdk.NetworkContext) (i : Input) (o : Output)
        → IsBounded o
        → IsBounded
            (run_operation sdk a core decode pieces factory network_enabled race name op requested
              check conf cred net i o).output
    unfolding run_operation
    run_operation-IsBounded name op requested check conf cred net i o b =
        let o' : Output = record o { id = operation_id sdk a core decode pieces check } in
        let c : Build sdk a core decode pieces = record {
          instance_name = name;
          configuration = conf;
          credentials = cred;
          network = net;
        } in
        let ran = select-IsBounded race check c i o' (omega arith) in
        elim (Bool-cases (differ (is_some net) requested || (is_some net && not network_enabled))) [
          | inl e ↦ rw (e, run_operation) b
          | inr e ↦
              elim (Bool-cases
                (not (asked op check) || not (usable sdk a core decode pieces net))) [
                  | inl g ↦ rw (e, g, run_operation) (omega arith)
                  | inr g ↦ rw (e, g, run_operation) ran
                ]
        ]

    dispatch-IsBounded :
        (name : String) (op : Option Operation) (requested : Bool) (k : Command sdk a) (i : Input)
        (o : Output)
        → IsBounded o
        → IsBounded
            (dispatch sdk a core decode pieces factory network_enabled race name op requested k i
              o).output
    unfolding dispatch
    dispatch-IsBounded name op requested describe i o b =
        let o' : Output = record o { id = "describe" } in
        let sent = send-IsBounded sdk pieces o' (Out.setup a.setup) (omega arith) in
        elim (Bool-cases (sdk.setup_valid a.setup)) [
          | inl e ↦ rw (e, dispatch) sent
          | inr e ↦ rw (e, dispatch) (omega arith)
        ]
    dispatch-IsBounded name op requested describe_auth i o b =
        let o' : Output = record o { id = "describe_auth" } in
        elim (Option-cases a.browser_auth) [
          | inl e ↦ rw (e, dispatch) (omega arith)
          | inr (spec, e) ↦
              let sent = send-IsBounded sdk pieces o' (Out.auth spec) (omega arith) in
              elim (Bool-cases (sdk.auth_valid spec)) [
                | inl g ↦ rw (e, g, dispatch) sent
                | inr g ↦ rw (e, g, dispatch) (omega arith)
              ]
        ]
    dispatch-IsBounded name op requested cancel i o b = b
    dispatch-IsBounded name op requested (operation check conf cred net) i o b =
        run_operation-IsBounded name op requested check conf cred net i o b
    dispatch-IsBounded name op requested (handshake _ _ _) i o b = b

    proceed-IsBounded :
        (name : String) (op : Option Operation) (requested : Bool) (i : Input) (o : Output)
        → IsBounded o
        → IsBounded
            (proceed sdk a core decode pieces factory network_enabled race name op requested i
              o).output
    unfolding proceed
    proceed-IsBounded name op requested i o b =
        elim (Result-cases (next sdk a core decode pieces i)) [
          | inl ((r, j), e) ↦ elim (Bool-cases (same_contract r.contract o.contract)) [
            | inl same ↦
                rw (e, same, proceed) (dispatch-IsBounded name op requested r.command j o b)
            | inr other ↦ rw (e, other, proceed) b
          ]
          | inr (f, e) ↦ rw (e, proceed) b
        ]

    opened-IsBounded :
        (k : Command sdk a) (i : Input) (o : Output)
        → IsBounded o
        → IsBounded (opened sdk a core decode pieces factory network_enabled race k i o).output
    unfolding opened
    opened-IsBounded (handshake name op requested) i o b =
        let e =
          greeting sdk a core decode pieces factory network_enabled race o.contract requested in
        let greeted = send-IsBounded sdk pieces o e b in
        elim (Bool-cases (requested && (not network_enabled || not a.supports_network))) [
          | inl refused ↦ rw (refused, opened) b
          | inr offered ↦ elim (Result-cases (send sdk pieces o e).0) [
            | inl (_, sent) ↦
                rw (offered, sent, opened)
                  (proceed-IsBounded name op requested i (send sdk pieces o e).1 greeted)
            | inr (f, failed) ↦ rw (offered, failed, opened) greeted
          ]
        ]
    opened-IsBounded describe i o b = b
    opened-IsBounded describe_auth i o b = b
    opened-IsBounded cancel i o b = b
    opened-IsBounded (operation _ _ _ _) i o b = b

    session-IsBounded :
        (i : Input) (o : Output)
        → IsBounded o
        → IsBounded (session sdk a core decode pieces factory network_enabled race i o).output
    unfolding session
    session-IsBounded i o b = elim (Result-cases (next sdk a core decode pieces i)) [
      | inl ((r, j), e) ↦
          rw (e, session)
            (opened-IsBounded r.command j (record o { contract = r.contract }) (omega arith))
      | inr (f, e) ↦ rw (e, session) b
    ]

    close-IsBounded :
        (r : Result Failure (Unit {0})) (o : Output)
        → IsBounded o
        → IsBounded (close sdk a core decode pieces factory network_enabled race r o).1
    unfolding close
    close-IsBounded (ok _) o b = b
    close-IsBounded (err cancelled) o b =
        send-IsBounded sdk pieces (record o { id = "cancel" }) Out.cancelled (omega arith)
    close-IsBounded (err f) o b = send-IsBounded sdk pieces o (Out.error (code f)) b

    whole_session-IsBounded :
        (reads : List Read) (writes : List Write)
        → IsBounded (serve sdk a core decode pieces factory network_enabled race reads writes).1
    unfolding serve
    whole_session-IsBounded reads writes =
        let e =
          session sdk a core decode pieces factory network_enabled race (In.new reads)
            (Out.new writes) in
        close-IsBounded e.result e.output
          (session-IsBounded (In.new reads) (Out.new writes) (unfold Out.new in omega arith))

    -- Whatever the host sends, whatever the writer and the provider do and whichever future of the
    -- operation is first, a whole session sends no more than `max_total` bytes, and has counted
    -- every byte that it has sent.
    pub serve-IsBounded :
        (reads : List Read) (writes : List Write)
        → (length (serve sdk a core decode pieces factory network_enabled race reads writes).1.sent
            ≤ max_total)
          × IsBounded (serve sdk a core decode pieces factory network_enabled race reads writes).1
    serve-IsBounded reads writes = let b = whole_session-IsBounded reads writes in (omega arith, b)
