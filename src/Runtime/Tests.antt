-- ===== src/Runtime/Tests.antt =====
-- Runs of the runtime on small inputs, and its theorems at them.
use permesh_providers.Shared.{
  ℕ, ◌≡◌, ◌≤◌, refl, true, false, List, [], ◌∷◌, ◌++◌, Option, none, some, String, length, eqb, leb,
  ◌&&◌, ◌+◌, if◌then◌else◌, Result, ok, err, ◌↔◌, min, ◌-◌, codes,
}
use permesh_providers.Runtime.Limits.{max_frame, max_total, newline, internal}
use permesh_providers.Runtime.Domain
use permesh_providers.Runtime.Sdk.{Sdk, Adapter, Metadata}
use permesh_providers.Runtime.Input as In
use permesh_providers.Runtime.Input.{Read, chunk, Input, Framed, frame, frame_of}
use permesh_providers.Runtime.Input.Lines.{bytes_of, line, outcome, pending, tail_of, first_line}
use permesh_providers.Runtime.Input.Frames.{frame_of-eq-first_line}
use permesh_providers.Runtime.Input.Wiping.{IsClean, new-IsClean, frame_of-IsClean}
use permesh_providers.Runtime.Request.{
  WireRequest, Request, Operation, parse, accept, allowed, command_of, later_arms, handshake_of,
  operation_of, is_operation, contract_of, is_network_v1, valid_instance, negotiated_v1, handshake,
}
use permesh_providers.Runtime.Request.Complete.{IsRequest, parse-eq-ok_iff}
use permesh_providers.Runtime.Output as Out
use permesh_providers.Runtime.Output.{
  send_line, deliver, write_pieces, envelope, Output, Envelope, Write, send,
}
use permesh_providers.Runtime.Output.Sending.{line_of, send_lem, IsBounded}
use permesh_providers.Runtime.Response.{
  provider_result, events_of, discover_events, send_all, max_records, ProviderError, Provider, Core,
  Health, count_of, records_of,
}
use permesh_providers.Runtime.Response as Response
use permesh_providers.Runtime.Response.Published.{discovery_published, Discovered, lines}
use permesh_providers.Runtime.Session.{
  next, opened, proceed, dispatch, run_operation, select, usable, operation_id, asked, answer,
  greeting, finished, Build, session, serve,
}
use permesh_providers.Runtime.Session.Opening.{Authorised, session-Authorised}
use permesh_providers.Runtime.Session.Bounds.{serve-IsBounded}
use permesh_providers.Runtime.Wire.Faithful.{account, project_injective}

abbrev two_lines : Input
two_lines =
    In.new (chunk (b'a' ∷ []) ∷ chunk (b'b' ∷ newline ∷ b'c' ∷ []) ∷ chunk (newline ∷ []) ∷ [])

two_lines_first :
    outcome (frame_of two_lines)
    ≡ some (line (b'a' ∷ b'b' ∷ newline ∷ []) (b'c' ∷ newline ∷ []) (tail_of []))
unfolding frame_of In.new bytes_of tail_of
two_lines_first = refl

two_lines-IsClean : IsClean two_lines
unfolding In.new
two_lines-IsClean = new-IsClean two_lines.reads

frame_of-eq-first_line_example :
    outcome (frame_of two_lines)
    ≡ some (
        first_line
          (min max_frame (max_total - two_lines.total))
          []
          (pending two_lines)
          (tail_of two_lines.reads))
frame_of-eq-first_line_example = frame_of-eq-first_line two_lines two_lines-IsClean.valid

-- The input that a call of `frame` leaves.
abbrev rest_of : Framed → Input → Input
rest_of (frame f j) d = j
rest_of _ d = d

abbrev after_first : Input
after_first = rest_of (frame_of two_lines) two_lines

two_lines_frame : frame_of two_lines ≡ frame (b'a' ∷ b'b' ∷ newline ∷ []) after_first
unfolding frame_of In.new
two_lines_frame = refl

frame_of-IsClean_example :
    IsClean after_first
    × (after_first.total ≡ two_lines.total + 3)
    × (3 ≤ max_frame)
    × (after_first.total ≤ max_total)
frame_of-IsClean_example =
    frame_of-IsClean two_lines (b'a' ∷ b'b' ∷ newline ∷ []) after_first two_lines-IsClean
      two_lines_frame

abbrev demo_sdk : Sdk
demo_sdk = record {
  NetworkContext = String;
  SetupSpec = String;
  BrowserAuthSpec = String;
  context_valid = λ _. true;
  transport_valid = λ _. true;
  setup_valid = λ _. true;
  auth_valid = λ _. true;
}

abbrev demo_metadata : Metadata
demo_metadata = record { kind = "demo"; capabilities = [] }

abbrev demo_adapter : Adapter demo_sdk
demo_adapter = record {
  Configuration = String;
  Credentials = String;
  metadata = demo_metadata;
  supports_network = false;
  setup = "";
  browser_auth = none;
  validate = λ _ _. true;
  error_code = λ c. c;
  limitations = λ l. l;
}

abbrev demo_core : Core
demo_core = record { valid = λ _. true; sort = λ s. s }

abbrev shake : WireRequest demo_sdk demo_adapter
shake = record {
  protocol = none;
  protocol_version = some 1;
  operation = some Operation.discover;
  features = none;
  network = none;
  id = "handshake";
  method = "handshake";
  instance_name = some "demo";
  configuration = none;
  credentials = none;
}

abbrev ask : WireRequest demo_sdk demo_adapter
ask = record {
  protocol = none;
  protocol_version = some 1;
  operation = none;
  features = none;
  network = none;
  id = "discover";
  method = "discover";
  instance_name = none;
  configuration = some "here";
  credentials = some "secret";
}

-- A decoder that knows two frames.
abbrev demo_decode : List ℕ → Option (WireRequest demo_sdk demo_adapter)
demo_decode [] = none
demo_decode (b ∷ _) = if eqb b b'h' then some shake else if eqb b b'd' then some ask else none

abbrev demo_pieces : Envelope demo_sdk → List (List ℕ)
demo_pieces e = codes e.id ∷ []

abbrev demo_account : Domain.Account
demo_account = record {
  key = record { provider = "demo"; id = "1" };
  login = "ada";
  kind = Domain.IdentityKind.human;
  affiliation = Domain.Affiliation.unknown;
  status = Domain.IdentityStatus.active;
  verified_emails = [];
}

abbrev demo_snapshot : Domain.Snapshot
demo_snapshot = record {
  provider = "demo";
  complete = true;
  limitations = [];
  accounts = demo_account ∷ [];
  identities = [];
  resources = [];
  groups = [];
  memberships = [];
  grants = [];
}

abbrev demo_provider : Provider
demo_provider = record {
  check = err (record { code = "timeout"; message = "" });
  discover = ok demo_snapshot;
}

abbrev demo_factory : String → String → String → Option String → Result ProviderError Provider
demo_factory _ _ _ _ = ok demo_provider

abbrev shake_request : Request demo_sdk demo_adapter
shake_request = record {
  contract = negotiated_v1;
  command = handshake "demo" (some Operation.discover) false;
}

parse_shake : parse demo_sdk demo_adapter demo_decode (b'h' ∷ newline ∷ []) ≡ ok shake_request
unfolding parse accept allowed command_of handshake_of is_operation contract_of is_network_v1
    valid_instance
parse_shake = refl

parse-eq-ok_iff_example :
    (parse demo_sdk demo_adapter demo_decode (b'h' ∷ newline ∷ []) ≡ ok shake_request)
    ↔ IsRequest demo_sdk demo_adapter demo_decode (b'h' ∷ newline ∷ []) shake_request
parse-eq-ok_iff_example =
    parse-eq-ok_iff demo_sdk demo_adapter demo_decode (b'h' ∷ newline ∷ []) shake_request

abbrev demo_reads : List Read
demo_reads = chunk (b'h' ∷ newline ∷ []) ∷ chunk (b'd' ∷ newline ∷ []) ∷ []

abbrev DemoBuild : Type 0
DemoBuild = Build demo_sdk demo_adapter demo_core demo_decode demo_pieces

abbrev demo_build : DemoBuild
demo_build = record {
  instance_name = "demo";
  configuration = "here";
  credentials = "secret";
  network = none;
}

demo_session_builds :
    (session demo_sdk demo_adapter demo_core demo_decode demo_pieces demo_factory false finished
      (In.new demo_reads)
      (Out.new [])).built
    ≡ some demo_build
unfolding session next opened proceed dispatch run_operation select send send_line deliver
    write_pieces envelope parse accept allowed command_of later_arms handshake_of operation_of
    is_operation contract_of is_network_v1 valid_instance frame_of In.new Out.new usable
    operation_id asked answer greeting provider_result events_of discover_events count_of
demo_session_builds = refl

session-Authorised_example :
    Authorised demo_sdk demo_adapter demo_core demo_decode demo_pieces demo_factory false finished
      (In.new demo_reads)
      demo_build
session-Authorised_example =
    session-Authorised demo_sdk demo_adapter demo_core demo_decode demo_pieces demo_factory false
      finished (In.new demo_reads) (Out.new []) demo_build demo_session_builds

abbrev demo_end : Result (Unit {0}) (Unit {0}) × Output
demo_end =
    serve demo_sdk demo_adapter demo_core demo_decode demo_pieces demo_factory false finished
      demo_reads []

serve-IsBounded_example : (length demo_end.1.sent ≤ max_total) × IsBounded demo_end.1
serve-IsBounded_example =
    serve-IsBounded demo_sdk demo_adapter demo_core demo_decode demo_pieces demo_factory false
      finished demo_reads []

send_lem_example : send demo_sdk demo_pieces (Out.new []) Out.cancelled ≡ (
    if leb (length (line_of demo_sdk demo_pieces (Out.new []) Out.cancelled)) max_frame
      && leb
          ((Out.new []).total + length (line_of demo_sdk demo_pieces (Out.new []) Out.cancelled))
          max_total
    then deliver
        (line_of demo_sdk demo_pieces (Out.new []) Out.cancelled)
        (Out.new []).writes
        (record (Out.new []) {
          total =
              (Out.new []).total + length (line_of demo_sdk demo_pieces (Out.new []) Out.cancelled);
        })
    else (err internal, Out.new []))
send_lem_example = send_lem demo_sdk demo_pieces (Out.new []) Out.cancelled

demo_discovery :
    (Response.operation demo_sdk demo_adapter demo_core demo_pieces false demo_provider "demo"
      (Out.new [])).0
    ≡ ok tt
unfolding Response.operation send send_line deliver write_pieces envelope Out.new provider_result
    events_of discover_events count_of send_all records_of
demo_discovery = refl

discovery_published_example :
    (d : Discovered demo_sdk demo_adapter demo_core demo_pieces demo_provider "demo")
    × ((Response.operation demo_sdk demo_adapter demo_core demo_pieces false demo_provider "demo"
          (Out.new [])).1.sent
        ≡ (Out.new []).sent
          ++ lines demo_sdk demo_pieces (Out.new []) (
              records_of demo_sdk demo_adapter demo_core d.snapshot
              ++ Out.complete
                  (length (records_of demo_sdk demo_adapter demo_core d.snapshot))
                  d.snapshot.complete
                  d.snapshot.limitations
                ∷ []))
    × (length (records_of demo_sdk demo_adapter demo_core d.snapshot) ≤ max_records)
discovery_published_example =
    discovery_published demo_sdk demo_adapter demo_core demo_pieces demo_provider "demo"
      (Out.new []) demo_discovery

project_injective_example : account demo_account ≡ account demo_account
project_injective_example = project_injective (account demo_account) (account demo_account) refl
