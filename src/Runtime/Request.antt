-- ===== src/Runtime/Request.antt =====
-- crates/native-runtime/src/request.rs: the requests of the host, and which of them are accepted.
pub mod Grammar
pub mod Complete
use permesh_providers.Shared.{
  ℕ, zero, suc, Bool, true, false, not, differ, ◌&&◌, ◌||◌, List, [], ◌∷◌, Option, none, some,
  String, leb, ltb, eqb, if◌then◌else◌, is_some, is_none, length, all, Result, ok, err, ◌>>=◌, ◌>>◌,
  ensure, ok_or, codes, is_alphabetic, is_alphanumeric, ◌==◌, string_eq, byte_len,
}
use permesh_providers.Runtime.Limits.{max_frame}
use permesh_providers.Runtime.Sdk.{Sdk, Adapter}

-- `RequestContract`.
pub data Contract : Type 0 where
  negotiated_v1 legacy_setup legacy_auth : Contract

pub data Operation : Type 0 where
  check discover : Operation

abbrev pub same_contract : Contract → Contract → Bool
same_contract negotiated_v1 negotiated_v1 = true
same_contract legacy_setup legacy_setup = true
same_contract legacy_auth legacy_auth = true
same_contract _ _ = false

-- The bytes that an instance name may hold behind its first.
is_name_code : ℕ → Bool
unfolding is_alphanumeric
is_name_code c = is_alphanumeric c || eqb c b'_' || eqb c b'-'

starts_alphabetic : List ℕ → Bool
unfolding is_alphabetic
starts_alphabetic [] = false
starts_alphabetic (c ∷ cs) = is_alphabetic c

unfoldable pub valid_instance : String → Bool
unfolding is_name_code starts_alphabetic byte_len
valid_instance value =
    leb 1 (byte_len value)
    && leb (byte_len value) 64
    && starts_alphabetic (codes value)
    && all is_name_code (codes value)

-- `features.as_slice() == ["network_v1"]`.
unfoldable pub is_network_v1 : List String → Bool
is_network_v1 (feature ∷ []) = feature == "network_v1"
is_network_v1 _ = false

abbrev pub is_some_and {ℓ} : {A : Type ℓ} → Option A → (A → Bool) → Bool
is_some_and none test = false
is_some_and (some a) test = test a

module _ (sdk : Sdk) (a : Adapter sdk) where
  open sdk use {NetworkContext, context_valid}
  open a use {Configuration, Credentials, supports_network, validate}

  -- The fields of a request as serde hands them over.
  pub record WireRequest : Type 0 where
    pub protocol : Option ℕ
    pub protocol_version : Option ℕ
    pub operation : Option Operation
    pub features : Option (List String)
    pub network : Option NetworkContext
    pub id : String
    pub method : String
    pub instance_name : Option String
    pub configuration : Option Configuration
    pub credentials : Option Credentials

  pub data Command : Type 0 where
    handshake : String → Option Operation → Bool → Command
    operation : Bool → Configuration → Credentials → Option NetworkContext → Command
    describe : Command
    describe_auth : Command
    cancel : Command

  pub record Request : Type 0 where
    pub contract : Contract
    pub command : Command

  unfoldable pub contract_of : Option ℕ → Option ℕ → Option Contract
  contract_of none (some version) = if eqb version 1 then some negotiated_v1 else none
  contract_of (some protocol) none =
      if eqb protocol 3
      then some legacy_setup
      else if eqb protocol 4
      then some legacy_auth
      else none
  contract_of _ _ = none

  -- None of the fields that only some commands have is present.
  abbrev pub is_bare : WireRequest → Bool
  is_bare v = is_none v.instance_name && is_none v.configuration && is_none v.credentials

  unfoldable pub is_operation : String → Bool
  is_operation method = method == "check" || method == "discover"

  unfoldable pub handshake_of : Contract → WireRequest → Result (Unit {0}) Command
  handshake_of contract v = do
    name ← ok_or v.instance_name tt
    ensure (valid_instance name) tt
    ensure (not (differ (same_contract contract negotiated_v1) (is_some v.operation))) tt
    ok (handshake name v.operation (is_some v.features))

  unfoldable pub operation_of : WireRequest → Result (Unit {0}) Command
  operation_of v = do
    configuration ← ok_or v.configuration tt
    credentials ← ok_or v.credentials tt
    ensure (validate configuration credentials) tt
    ok (operation (v.method == "check") configuration credentials v.network)

  -- The `match` on the method, from its second arm on.
  unfoldable pub later_arms : Contract → WireRequest → Result (Unit {0}) Command
  later_arms contract v =
      if v.method == "describe" && same_contract contract legacy_setup && is_bare v
      then ok describe
      else if v.method == "describe_auth" && same_contract contract legacy_auth && is_bare v
      then ok describe_auth
      else if v.method == "cancel" && is_bare v
      then ok cancel
      else if is_operation v.method
          && same_contract contract negotiated_v1
          && is_none v.instance_name
      then operation_of v
      else err tt

  unfoldable pub command_of : Contract → WireRequest → Result (Unit {0}) Command
  command_of contract v =
      if v.method == "handshake" && is_none v.configuration && is_none v.credentials
      then handshake_of contract v
      else later_arms contract v

  -- The guards before the `match`.
  unfoldable pub allowed : Contract → WireRequest → Bool
  allowed contract v =
      (v.id == v.method)
      && not (is_some_and v.features (λ f. not (is_network_v1 f) || not supports_network))
      && not
          (not (same_contract contract negotiated_v1) && (is_some v.features || is_some v.network))
      && not (is_some_and v.network (λ n. not supports_network || not (context_valid n)))
      && not (not (is_operation v.method) && is_some v.network)
      && not (not (v.method == "handshake") && (is_some v.operation || is_some v.features))

  unfoldable pub accept : WireRequest → Result (Unit {0}) Request
  accept v = do
    contract ← ok_or (contract_of v.protocol v.protocol_version) tt
    ensure (allowed contract v) tt
    command ← command_of contract v
    ok (record { contract = contract; command = command })

  -- `parse`. `decode` is `serde_json::from_slice` at the type of the request.
  unfoldable pub parse : (List ℕ → Option WireRequest) → List ℕ → Result (Unit {0}) Request
  parse decode bytes = do
    ensure (leb (length bytes) max_frame) tt
    v ← ok_or (decode bytes) tt
    accept v
