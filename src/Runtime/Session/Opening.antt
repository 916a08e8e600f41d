-- ===== src/Runtime/Session/Opening.antt =====
-- When the factory is called, and what every session keeps.
use permesh_providers.Shared.{
  ℕ, false, if◌then◌else◌, ◌≡◌, inl, inr, refl, sym, ap, ◌∙◌, Bool, true, not, ◌&&◌, ◌||◌, List,
  Option, none, some, String, is_some, Result, ok, Result-cases, Bool-cases, arith,
}
use permesh_providers.Runtime.Sdk.{Sdk, Adapter}
use permesh_providers.Runtime.Input.{Input}
use permesh_providers.Runtime.Request.{
  same_contract, Operation, WireRequest, Command, handshake, operation, describe, describe_auth,
  cancel, Request,
}
use permesh_providers.Runtime.Output.{Output, Envelope, send}
use permesh_providers.Runtime.Output.Sending.{send-ok}
use permesh_providers.Runtime.Response.{ProviderError, Provider, Core}
use permesh_providers.Runtime.Session.{
  Race, asked, Build, operation_id, greeting, next, usable, select, run_operation, dispatch,
  proceed, opened, session,
}

-- The announcement that an operation needs.
abbrev pub announcing : Bool → Operation
announcing check = if check then Operation.check else Operation.discover

asked_lem :
    (op : Option Operation) (check : Bool) → asked op check ≡ true → op ≡ some (announcing check)
unfolding asked
asked_lem none check h = ground arith
asked_lem (some Operation.check) true h = refl
asked_lem (some Operation.check) false h = ground arith
asked_lem (some Operation.discover) true h = ground arith
asked_lem (some Operation.discover) false h = refl

module _ (sdk : Sdk) (a : Adapter sdk) (core : Core) (decode : List ℕ → Option (WireRequest sdk a))
    (pieces : Envelope sdk → List (List ℕ))
    (factory : String
      → a.Configuration
      → a.Credentials
      → Option sdk.NetworkContext
      → Result ProviderError Provider)
    (network_enabled : Bool) (race : Race) where
  usable_lem :
      (net : Option sdk.NetworkContext)
      → usable sdk a core decode pieces net ≡ true
      → (n : sdk.NetworkContext) → net ≡ some n
      → sdk.transport_valid n ≡ true
  unfolding usable
  usable_lem net h n e = rw e at h

  select_built :
      (check : Bool) (c b : Build sdk a core decode pieces) (i : Input) (o : Output)
      → (select sdk a core decode pieces factory network_enabled race check c i o).built ≡ some b
      → b ≡ c
  unfolding select
  select_built check c b i o h = ground arith

  run_operation_built :
      (name : String) (op : Option Operation) (requested check : Bool) (conf : a.Configuration)
      (cred : a.Credentials) (net : Option sdk.NetworkContext) (i : Input) (o : Output)
      (b : Build sdk a core decode pieces)
      → (run_operation sdk a core decode pieces factory network_enabled race name op requested check
          conf cred net i o).built
        ≡ some b
      → (b ≡ record {
        instance_name = name;
        configuration = conf;
        credentials = cred;
        network = net;
      })
        × (is_some net ≡ requested)
        × (asked op check ≡ true)
        × (usable sdk a core decode pieces net ≡ true)
  unfolding run_operation
  run_operation_built name op requested check conf cred net i o b h = ground (
    arith,
    select_built check
        (record { instance_name = name; configuration = conf; credentials = cred; network = net }) b
        i (record o { id = operation_id sdk a core decode pieces check }),
  )

  -- The second request, where the factory is called after it.
  record Ordered (name : String) (op : Option Operation) (requested : Bool) (k : Command sdk a)
      (b : Build sdk a core decode pieces) : Type 0 where
    named : b.instance_name ≡ name
    check : Bool
    ordered : k ≡ operation check b.configuration b.credentials b.network
    agreed : is_some b.network ≡ requested
    announced : op ≡ some (announcing check)
    transport : (n : sdk.NetworkContext) → b.network ≡ some n → sdk.transport_valid n ≡ true

  dispatch_built :
      (name : String) (op : Option Operation) (requested : Bool) (k : Command sdk a) (i : Input)
      (o : Output) (b : Build sdk a core decode pieces)
      → (dispatch sdk a core decode pieces factory network_enabled race name op requested k i
          o).built
        ≡ some b
      → Ordered name op requested k b
  unfolding dispatch
  dispatch_built name op requested (operation check conf cred net) i o b h =
      let (e, agreed, announced, transport) =
        run_operation_built name op requested check conf cred net i o b h in
      rw e (record {
        named = refl;
        check = check;
        ordered = refl;
        agreed = agreed;
        announced = asked_lem op check announced;
        transport = usable_lem net transport;
      })
  dispatch_built name op requested describe i o b h = ground arith
  dispatch_built name op requested describe_auth i o b h = ground arith
  dispatch_built name op requested cancel i o b h = ground arith
  dispatch_built name op requested (handshake _ _ _) i o b h = ground arith

  proceed_built :
      (name : String) (op : Option Operation) (requested : Bool) (i : Input) (o : Output)
      (b : Build sdk a core decode pieces)
      → (proceed sdk a core decode pieces factory network_enabled race name op requested i o).built
        ≡ some b
      → (r : Request sdk a) × (j : Input) × (next sdk a core decode pieces i ≡ ok (r, j))
        × (same_contract r.contract o.contract ≡ true)
        × Ordered name op requested r.command b
  unfolding proceed
  proceed_built name op requested i o b h = elim (Result-cases (next sdk a core decode pieces i)) [
    | inl ((r, j), e) ↦ elim (Bool-cases (same_contract r.contract o.contract)) [
      | inl same ↦ (
        r,
        j,
        e,
        same,
        dispatch_built name op requested r.command j o b (rw (e, same, proceed) at h),
      )
      | inr other ↦ ground arith
    ]
    | inr (f, e) ↦ ground arith
  ]

  not_built {ℓ} :
      {A : Type ℓ} (b : Build sdk a core decode pieces)
      → ◌≡◌ {A = Option (Build sdk a core decode pieces)} none (some b)
      → A
  not_built b e = cc

  opened_built :
      (k : Command sdk a) (i : Input) (o : Output) (b : Build sdk a core decode pieces)
      → (opened sdk a core decode pieces factory network_enabled race k i o).built ≡ some b
      → (name : String) × (op : Option Operation) × (requested : Bool) × (k
          ≡ handshake name op requested)
        × ((requested ≡ true) → (network_enabled ≡ true) × (a.supports_network ≡ true))
        × (r : Request sdk a) × (j : Input) × (next sdk a core decode pieces i ≡ ok (r, j))
        × (same_contract r.contract o.contract ≡ true)
        × Ordered name op requested r.command b
  unfolding opened
  opened_built (handshake name op requested) i o b h =
      let e = greeting sdk a core decode pieces factory network_enabled race o.contract requested in
      elim (Bool-cases (requested && (not network_enabled || not a.supports_network))) [
        | inl refused ↦ ground arith
        | inr offered ↦ elim (Result-cases (send sdk pieces o e).0) [
          | inl (_, sent) ↦
              let (r, j, got, same, ordered) =
                proceed_built name op requested i (send sdk pieces o e).1 b
                  (rw (offered, sent, opened) at h) in
              (
                name,
                op,
                requested,
                refl,
                (λ asked_for. ground arith),
                r,
                j,
                got,
                rw (send-ok sdk pieces o e sent).1 at same,
                ordered,
              )
          | inr (f, failed) ↦ not_built b (rw (offered, failed, opened) at h)
        ]
      ]
  opened_built describe i o b h = ground arith
  opened_built describe_auth i o b h = ground arith
  opened_built cancel i o b h = ground arith
  opened_built (operation _ _ _ _) i o b h = ground arith

  -- What the host has asked for, in two requests, where the factory is given `b`.
  pub record Authorised (i : Input) (b : Build sdk a core decode pieces) : Type 0 where
    pub first : Request sdk a
    pub later : Input
    pub opening : next sdk a core decode pieces i ≡ ok (first, later)
    pub op : Option Operation
    pub requested : Bool
    pub handshaken : first.command ≡ handshake b.instance_name op requested
    pub second : Request sdk a
    pub last : Input
    pub following : next sdk a core decode pieces later ≡ ok (second, last)
    pub same : same_contract second.contract first.contract ≡ true
    pub check : Bool
    pub ordered : second.command ≡ operation check b.configuration b.credentials b.network
    pub announced : op ≡ some (announcing check)
    pub agreed : is_some b.network ≡ requested
    pub served : (requested ≡ true) → (network_enabled ≡ true) × (a.supports_network ≡ true)
    pub transport : (n : sdk.NetworkContext) → b.network ≡ some n → sdk.transport_valid n ≡ true

  -- The factory is given a configuration and credentials only where the host's first frame is an
  -- accepted handshake for the instance that it is given, the second an accepted operation under the
  -- same contract with just these values, and of the kind that the handshake announced. A network
  -- context comes with it exactly where the handshake asked for the feature, and then only where
  -- the entry point and the adapter serve it and its proxy and roots are usable.
  pub session-Authorised :
      (i : Input) (o : Output) (b : Build sdk a core decode pieces)
      → (session sdk a core decode pieces factory network_enabled race i o).built ≡ some b
      → Authorised i b
  unfolding session
  session-Authorised i o b h = elim (Result-cases (next sdk a core decode pieces i)) [
    | inl ((r, j), e) ↦
        let (name, op, requested, shaken, served, r', j', got, same, ordered) =
          opened_built r.command j (record o { contract = r.contract }) b (rw (e, session) at h) in
        record {
          first = r;
          later = j;
          opening = e;
          op = op;
          requested = requested;
          handshaken = shaken ∙ ap (λ n. handshake n op requested) (sym ordered.named);
          second = r';
          last = j';
          following = got;
          same = same;
          check = ordered.check;
          ordered = ordered.ordered;
          announced = ordered.announced;
          agreed = ordered.agreed;
          served = served;
          transport = ordered.transport;
        }
    | inr (f, e) ↦ not_built b (rw (e, session) at h)
  ]
