-- ===== src/Github/Http.antt =====
-- What providers/github/src/client.rs uses of `Url`, of the clock and of the time crate.
use permesh_providers.Shared.{ℕ, Bool, Option, String, List}
pub use permesh_providers.Http.{Headers, Reply, timed_out, unsent, response}

-- A time in seconds, from the epoch on or before it.
pub data Timestamp : Type 0 where
  since before : ℕ → Timestamp

-- `Url` by the methods that are called, and the world: the reply to the n-th request of a run, the
-- clock after it (seconds and nanoseconds since the epoch), and `OffsetDateTime::parse` at Rfc2822.
pub record Web : Type 1 where
  pub Url : Type 0
  pub origin_url : Url
  pub with_path : Url → List String → Option Url
  pub with_query : Url → List (String × String) → Url
  pub parse : String → Option Url
  pub query_pairs : Url → List (String × String)
  pub origin : Url → String
  pub path : Url → String
  pub username : Url → String
  pub has_password : Url → Bool
  pub has_fragment : Url → Bool
  pub reply : ℕ → Url → String → Reply
  pub clock : ℕ → ℕ × ℕ
  pub rfc2822 : String → Option Timestamp
