-- ===== src/Runtime/Session.antt =====
-- crates/native-runtime/src/lib.rs: one session, from the handshake to its single operation. What
-- runs beside the session comes as arguments: the input's reads, the output's writes, and which of
-- the operation, the host's next frame and the deadline is first.
pub mod Opening
pub mod Bounds
pub mod Exits
use permesh_providers.Shared.{
  ℕ, Bool, true, false, not, ◌&&◌, ◌||◌, differ, List, [], ◌∷◌, map, Option, none, some, String,
  take, drop, is_some, is_ok, ◌>>=◌, if◌then◌else◌, Result, ok, err,
}
use permesh_providers.Runtime.Limits.{
  Failure, protocol, internal, unavailable, cancelled, provider, code,
}
use permesh_providers.Runtime.Wire
use permesh_providers.Runtime.Wire.{capability}
use permesh_providers.Runtime.Sdk.{Sdk, Adapter}
use permesh_providers.Runtime.Input.{Read, Input, frame, refused, hangs, spent, frame_of}
use permesh_providers.Runtime.Request.{
  Contract, negotiated_v1, same_contract, Operation, WireRequest, Command, handshake, operation,
  describe, describe_auth, cancel, Request, parse,
}
use permesh_providers.Runtime.Output as Out
use permesh_providers.Runtime.Output.{Output, Write, blocked, Envelope, send}
use permesh_providers.Runtime.Input as In
use permesh_providers.Runtime.Response.{
  ProviderError, Provider, Core, provider_result, events_of, send_all,
}

-- Which of the futures of the `select!` is ready first. `biased` prefers the frame: `at_once`, before
-- the operation is begun; `during k n`, when the operation has sent `k` events and `n` bytes of the
-- next; `overdue`, when 55 seconds are over with as much sent; `finished`, the operation itself.
pub data Race : Type 0 where
  at_once : Race
  during overdue : ℕ → ℕ → Race
  finished : Race

-- `Option<Operation> != Some(…)`, negated.
unfoldable pub asked : Option Operation → Bool → Bool
asked (some Operation.check) true = true
asked (some Operation.discover) false = true
asked _ _ = false

module _ (sdk : Sdk) (a : Adapter sdk) (core : Core) (decode : List ℕ → Option (WireRequest sdk a))
    (pieces : Envelope sdk → List (List ℕ)) where
  -- `next`, under its deadline of ten seconds.
  unfoldable pub next : Input → Result Failure (Request sdk a × Input)
  next i = elim (frame_of i) [
    | frame bytes j ↦ elim (parse sdk a decode bytes) [ ok r ↦ ok (r, j) | err _ ↦ err protocol ]
    | refused ↦ err protocol
    | hangs ↦ err unavailable
    | spent ↦ err protocol
  ]

  -- What a session leaves: its result, the output, and the call of the factory if it was made.
  pub record Build : Type 0 where
    pub instance_name : String
    pub configuration : a.Configuration
    pub credentials : a.Credentials
    pub network : Option sdk.NetworkContext

  pub record Ended : Type 0 where
    pub result : Result Failure (Unit {0})
    pub output : Output
    pub built : Option Build

  abbrev pub stop : Failure → Output → Ended
  stop f o = record { result = err f; output = o; built = none }

  -- The session ends with a send.
  abbrev pub ends_by : Result Failure (Unit {0}) × Output → Option Build → Ended
  ends_by s b = record { result = s.0; output = s.1; built = b }

  -- Some bytes of the first of the events.
  unfoldable pub part_of_first : ℕ → List (Out.Event sdk) → Output → Output
  part_of_first n [] o = o
  part_of_first n (e ∷ es) o = (send sdk pieces (record o { writes = blocked n ∷ o.writes }) e).1

  -- The events sent by an operation that is dropped after `k` events and `n` bytes of the next.
  unfoldable pub cut_off : ℕ → ℕ → Result Failure (List (Out.Event sdk)) → Output → Output
  unfolding part_of_first
  cut_off k n (err f) o = o
  cut_off k n (ok es) o = part_of_first n (drop k es) (send_all sdk a core pieces (take k es) o).1

  unfoldable pub is_cancel : Command sdk a → Bool
  is_cancel cancel = true
  is_cancel _ = false

  -- The frame that comes while the operation runs.
  unfoldable pub interruption : Contract → Input → Failure
  unfolding is_cancel
  interruption contract i = elim (frame_of i) [
    | frame bytes j ↦ elim (parse sdk a decode bytes) [
      | ok r ↦
          if same_contract r.contract contract && is_cancel r.command then cancelled else protocol
      | err _ ↦ protocol
    ]
    | refused ↦ protocol
    | hangs ↦ unavailable
    | spent ↦ protocol
  ]

  -- `if let Some(context) = &network { validate(context)? }`
  unfoldable pub usable : Option sdk.NetworkContext → Bool
  usable none = true
  usable (some n) = sdk.transport_valid n

  unfoldable pub operation_id : Bool → String
  operation_id check = if check then "check" else "discover"

  module _
      (factory : String
        → a.Configuration
        → a.Credentials
        → Option sdk.NetworkContext
        → Result ProviderError Provider)
      (network_enabled : Bool) (race : Race) where
    -- The future that builds the provider and answers, as the events that it sends.
    unfoldable pub answer : Bool → Build → Result Failure (List (Out.Event sdk))
    answer check b = do
      p ←
          provider_result sdk a core
            (factory b.instance_name b.configuration b.credentials b.network)
      events_of sdk a core check p b.instance_name

    -- The `select!`.
    unfoldable pub select : Bool → Build → Input → Output → Ended
    unfolding answer
    select check b i o = elim race [
      | at_once ↦ stop (interruption o.contract i) o
      | during k n ↦ record {
        result = err (interruption o.contract i);
        output = cut_off k n (answer check b) o;
        built = some b;
      }
      | overdue k n ↦ record {
        result = err unavailable;
        output = cut_off k n (answer check b) o;
        built = some b;
      }
      | finished ↦ elim (answer check b) [
        | err f ↦ record { result = err f; output = o; built = some b }
        | ok es ↦ ends_by (send_all sdk a core pieces es o) (some b)
      ]
    ]

    -- The last arm but one of the `match` on the second command.
    unfoldable pub run_operation :
        String
        → Option Operation
        → Bool
        → Bool
        → a.Configuration
        → a.Credentials
        → Option sdk.NetworkContext
        → Input
        → Output
        → Ended
    run_operation name op requested check configuration credentials network i o =
        let o' = record o { id = operation_id check } in
        if differ (is_some network) requested || (is_some network && not network_enabled)
        then stop protocol o
        else if not (asked op check) || not (usable network)
        then stop protocol o'
        else select check
            (record {
              instance_name = name;
              configuration = configuration;
              credentials = credentials;
              network = network;
            })
            i o'

    -- The `match` on the second command.
    unfoldable pub dispatch :
        String → Option Operation → Bool → Command sdk a → Input → Output → Ended
    dispatch name op requested describe i o =
        let o' = record o { id = "describe" } in
        if sdk.setup_valid a.setup
        then ends_by (send sdk pieces o' (Out.setup a.setup)) none
        else stop internal o'
    dispatch name op requested describe_auth i o =
        let o' = record o { id = "describe_auth" } in
        elim a.browser_auth [
          | none ↦ stop (provider "unsupported_method") o'
          | some spec ↦
              if sdk.auth_valid spec
              then ends_by (send sdk pieces o' (Out.auth spec)) none
              else stop internal o'
        ]
    dispatch name op requested cancel i o = stop cancelled o
    dispatch name op requested (operation check conf cred net) i o =
        run_operation name op requested check conf cred net i o
    dispatch name op requested (handshake _ _ _) i o = stop protocol o

    -- The second request.
    unfoldable pub proceed : String → Option Operation → Bool → Input → Output → Ended
    proceed name op requested i o = elim (next i) [
      | err f ↦ stop f o
      | ok (r, j) ↦
          if same_contract r.contract o.contract
          then dispatch name op requested r.command j o
          else stop protocol o
    ]

    -- The answer to the handshake.
    unfoldable pub greeting : Contract → Bool → Out.Event sdk
    greeting contract requested =
        let capabilities = map capability a.metadata.capabilities in
        if same_contract contract negotiated_v1
        then Out.handshake a.metadata.kind capabilities (some ("discover" ∷ "check" ∷ []))
            (if requested then some ("network_v1" ∷ []) else none)
        else Out.handshake a.metadata.kind capabilities none none

    unfoldable pub opened : Command sdk a → Input → Output → Ended
    unfolding greeting
    opened (handshake name op requested) i o =
        if requested && (not network_enabled || not a.supports_network)
        then stop protocol o
        else let (r, o') = send sdk pieces o (greeting o.contract requested) in
          let rest = proceed name op requested i o' in elim r [ err f ↦ stop f o' | ok _ ↦ rest ]
    opened _ i o = stop protocol o

    -- `session`.
    unfoldable pub session : Input → Output → Ended
    session i o = elim (next i) [
      | err f ↦ stop f o
      | ok (r, j) ↦ opened r.command j (record o { contract = r.contract })
    ]

    -- The end of `serve_internal`: the last event, and the exit.
    unfoldable pub close :
        Result Failure (Unit {0}) → Output → Result (Unit {0}) (Unit {0}) × Output
    close (ok _) o = (ok tt, o)
    close (err cancelled) o =
        let (r, o') = send sdk pieces (record o { id = "cancel" }) Out.cancelled in
        (if is_ok r then ok tt else err tt, o')
    close (err f) o = let (r, o') = send sdk pieces o (Out.error (code f)) in (err tt, o')

    -- `serve_internal`.
    unfoldable pub serve : List Read → List Write → Result (Unit {0}) (Unit {0}) × Output
    serve reads writes = let e = session (In.new reads) (Out.new writes) in close e.result e.output
