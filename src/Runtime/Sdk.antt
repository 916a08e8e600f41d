-- ===== src/Runtime/Sdk.antt =====
-- What the runtime takes from permesh_provider_sdk, serde_json and the provider's adapter: types
-- and operations that are not code of the runtime.
use permesh_providers.Shared.{Bool, List, Option, String}
use permesh_providers.Runtime.Domain

-- `Metadata`.
pub record Metadata : Type 0 where
  pub kind : String
  pub capabilities : List Domain.Capability

-- The sdk's network context and the descriptions that an adapter gives, with their validation.
-- `transport_valid` is that of network.rs: the HTTP client accepts the context's proxy and roots.
pub record Sdk : Type 1 where
  pub NetworkContext : Type 0
  pub SetupSpec : Type 0
  pub BrowserAuthSpec : Type 0
  pub context_valid : NetworkContext → Bool
  pub transport_valid : NetworkContext → Bool
  pub setup_valid : SetupSpec → Bool
  pub auth_valid : BrowserAuthSpec → Bool

-- The trait `Adapter` of lib.rs.
pub record Adapter (sdk : Sdk) : Type 1 where
  pub Configuration : Type 0
  pub Credentials : Type 0
  pub metadata : Metadata
  pub supports_network : Bool
  pub setup : sdk.SetupSpec
  pub browser_auth : Option sdk.BrowserAuthSpec
  pub validate : Configuration → Credentials → Bool
  pub error_code : String → String
  pub limitations : List String → List String
