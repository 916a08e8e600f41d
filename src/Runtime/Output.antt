-- ===== src/Runtime/Output.antt =====
-- `Output` of crates/native-runtime/src/io.rs: events sent as frames of one line each. The
-- serializer is a parameter, the pieces of text that serde_json writes for an envelope; what the
-- coming writes of the writer do is a list.
pub mod Sending
use permesh_providers.Shared.{
  ℕ, ◌+◌, ◌-◌, Bool, List, [], ◌∷◌, ◌++◌, Option, none, some, String, ltb, if◌then◌else◌, length,
  take, Result, ok, err,
}
use permesh_providers.Runtime.Limits.{max_frame, max_total, newline, Failure, internal, unavailable}
use permesh_providers.Runtime.Wire
use permesh_providers.Runtime.Sdk.{Sdk}
use permesh_providers.Runtime.Request.{Contract, negotiated_v1, legacy_setup, legacy_auth}

-- What a write and flush of a frame does: all of it, or some bytes of it before the five seconds
-- are over or the channel breaks.
pub data Write : Type 0 where
  whole : Write
  blocked : ℕ → Write
  broken : ℕ → Write

pub data Event (sdk : Sdk) : Type 0 where
  handshake :
      String → List Wire.Capability → Option (List String) → Option (List String) → Event sdk
  record_of : Wire.Record → Event sdk
  health : List String → Event sdk
  complete : ℕ → Bool → List String → Event sdk
  setup : sdk.SetupSpec → Event sdk
  auth : sdk.BrowserAuthSpec → Event sdk
  cancelled : Event sdk
  error : String → Event sdk

-- `sent` holds the bytes that the writer took.
pub record Output : Type 0 where
  pub sent : List ℕ
  pub writes : List Write
  pub total : ℕ
  pub contract : Contract
  pub id : String

unfoldable pub new : List Write → Output
new writes = record {
  sent = [];
  writes = writes;
  total = 0;
  contract = negotiated_v1;
  id = "handshake";
}

-- The fields of `Envelope`.
pub record Envelope (sdk : Sdk) : Type 0 where
  pub protocol : Option ℕ
  pub protocol_version : Option ℕ
  pub id : String
  pub event : Event sdk

unfoldable pub protocol_of : Contract → Option ℕ
protocol_of negotiated_v1 = none
protocol_of legacy_setup = some 3
protocol_of legacy_auth = some 4

unfoldable pub version_of : Contract → Option ℕ
version_of negotiated_v1 = some 1
version_of _ = none

-- `Limited::write`.
unfoldable pub limited_write : List ℕ → List ℕ → Option (List ℕ)
limited_write buffer bytes =
    if ltb (max_frame - 1 - length buffer) (length bytes) then none else some (buffer ++ bytes)

-- `serde_json::to_writer`: the pieces one after another, up to the first that is refused.
unfoldable pub write_pieces : List ℕ → List (List ℕ) → Option (List ℕ)
unfolding limited_write
write_pieces buffer [] = some buffer
write_pieces buffer (p ∷ ps) = elim (limited_write buffer p) [
  | none ↦ none
  | some longer ↦ write_pieces longer ps
]

-- `write_all` and `flush` under their deadline.
unfoldable pub deliver : List ℕ → List Write → Output → Result Failure (Unit {0}) × Output
deliver bytes [] o = (ok tt, record o { sent = o.sent ++ bytes })
deliver bytes (whole ∷ ws) o = (ok tt, record o { sent = o.sent ++ bytes; writes = ws })
deliver bytes (blocked n ∷ ws) o =
    (err unavailable, record o { sent = o.sent ++ take n bytes; writes = ws })
deliver bytes (broken n ∷ ws) o =
    (err unavailable, record o { sent = o.sent ++ take n bytes; writes = ws })

-- The second half of `send`, on the serialized envelope.
unfoldable pub send_line : List ℕ → Output → Result Failure (Unit {0}) × Output
send_line body o =
    let bytes = body ++ newline ∷ [] in
    if ltb (max_total - o.total) (length bytes)
    then (err internal, o)
    else deliver bytes o.writes (record o { total = o.total + length bytes })

module _ (sdk : Sdk) (pieces : Envelope sdk → List (List ℕ)) where
  unfoldable pub envelope : Output → Event sdk → Envelope sdk
  unfolding protocol_of version_of
  envelope o e = record {
    protocol = protocol_of o.contract;
    protocol_version = version_of o.contract;
    id = o.id;
    event = e;
  }

  -- `Output::send`.
  unfoldable pub send : Output → Event sdk → Result Failure (Unit {0}) × Output
  send o e = elim (write_pieces [] (pieces (envelope o e))) [
    | none ↦ (err internal, o)
    | some body ↦ send_line body o
  ]
