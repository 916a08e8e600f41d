-- ===== src/Runtime/Session/Exits.antt =====
-- crates/native-runtime/src/lib.rs: what a session has done where the runtime exits with success.
pub mod Verdicts
use permesh_providers.Shared.{
  ℕ, ◌+◌, ◌-◌, ◌++◌, ◌≡◌, ap, ◌⊎◌, Bool, true, false, List, [], ◌∷◌, map, Option, none, some,
  String, ltb, if◌then◌else◌, length, Result, ok, ◌>>=◌, ensure, ◌==◌, string_eq,
}
use permesh_providers.Runtime.Domain
use permesh_providers.Runtime.Limits.{Failure, max_total, newline}
use permesh_providers.Runtime.Sdk.{Sdk, Adapter}
use permesh_providers.Runtime.Input.{Input, Framed, frame, refused, hangs, spent, frame_of}
use permesh_providers.Runtime.Input as In
use permesh_providers.Runtime.Request.{
  Contract, same_contract, Operation, WireRequest, Command, handshake, operation, describe,
  describe_auth, Request, parse,
}
use permesh_providers.Runtime.Output as Out
use permesh_providers.Runtime.Output.{
  Output, whole, blocked, broken, Envelope, Event, send_line, deliver, write_pieces, envelope,
}
use permesh_providers.Runtime.Response.{
  ProviderError, Provider, Core, check_events, discover_events, events_of, count_of, max_records,
}
use permesh_providers.Runtime.Session.{
  Race, at_once, during, overdue, finished, asked, next, interruption, is_cancel, answer, cut_off,
}
use permesh_providers.Runtime.Session.Exits.Verdicts.{Verdict, Cancels}

module _ (sdk : Sdk) (a : Adapter sdk) (core : Core) (decode : List ℕ → Option (WireRequest sdk a))
    (pieces : Envelope sdk → List (List ℕ))
    (factory : String
      → a.Configuration
      → a.Credentials
      → Option sdk.NetworkContext
      → Result ProviderError Provider)
    (network_enabled : Bool) (race : Race) where
  -- The second command is carried out: a description that is valid, or an operation that was
  -- announced, that is first to be ready and whose provider gives events.
  pub data Carried (name : String) (op : Option Operation) : Command sdk a → Type 0 where
    described : sdk.setup_valid a.setup ≡ true → Carried name op describe
    auth_described :
        (spec : sdk.BrowserAuthSpec)
        → a.browser_auth ≡ some spec
        → sdk.auth_valid spec ≡ true
        → Carried name op describe_auth
    operated :
        (check : Bool) (conf : a.Configuration) (cred : a.Credentials)
        (net : Option sdk.NetworkContext) (es : List (Event sdk))
        → race ≡ finished
        → asked op check ≡ true
        → answer sdk a core decode pieces factory network_enabled race check (record {
          instance_name = name;
          configuration = conf;
          credentials = cred;
          network = net;
        })
          ≡ ok es
        → Carried name op (operation check conf cred net)

  -- After the handshake: what the second command comes to.
  pub record Completed (name : String) (op : Option Operation) (contract : Contract) (i : Input)
      : Type 0 where
    pub second : Request sdk a
    pub last : Input
    pub following : next sdk a core decode pieces i ≡ ok (second, last)
    pub agreed : same_contract second.contract contract ≡ true
    pub carried : Carried name op second.command

  -- The cancellation is the second frame, or the third, behind the request for an operation.
  pub data Stopped (contract : Contract) (i : Input) : Type 0 where
    before : Cancels sdk a core decode pieces contract i → Stopped contract i
    beside :
        (r : Request sdk a) (j : Input) (check : Bool) (conf : a.Configuration)
        (cred : a.Credentials) (net : Option sdk.NetworkContext)
        → next sdk a core decode pieces i ≡ ok (r, j)
        → same_contract r.contract contract ≡ true
        → r.command ≡ operation check conf cred net
        → Cancels sdk a core decode pieces contract j
        → Stopped contract i

  -- What the second request comes to.
  Outcome : String → Option Operation → Contract → Input → Result Failure (Unit {0}) → Type 0
  Outcome name op contract i = Verdict (Completed name op contract i) (Stopped contract i)

  -- What the whole of a session comes to: the handshake, and what follows it.
  pub record Finished (i : Input) : Type 0 where
    pub first : Request sdk a
    pub later : Input
    pub opening : next sdk a core decode pieces i ≡ ok (first, later)
    pub name : String
    pub op : Option Operation
    pub requested : Bool
    pub handshaken : first.command ≡ handshake name op requested
    pub done : Completed name op first.contract later ⊎ Stopped first.contract later

  Whole : Input → Result Failure (Unit {0}) → Type 0
  Whole i = Verdict (Finished i) (Finished i)
