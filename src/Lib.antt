-- ===== src/Lib.antt =====
-- Native permesh providers: programs that answer one discovery or check request of the permesh
-- host over stdin and stdout.
--
-- Runtime models crates/native-runtime, the protocol that every provider shares. One session
-- reads a handshake, answers it, reads one more request and carries it out.
--   Runtime/Input: `Input` of crates/native-runtime/src/io.rs. The state keeps the buffer, its
--     window and the transcript's count; `frame_of` is `Input::frame`. The reader is the list of
--     what its coming reads give. The loop has as many rounds as reads and two more, which is
--     enough: every round but the first makes a read. Lines holds the description without a
--     buffer, Frames the proof that the loop meets it, Wiping the clearing of the buffer.
--   Runtime/Output: `Output` of the same file; `send` is `Output::send`. serde_json's output, as
--     the pieces that it writes, is a parameter; what the writer does is a list.
--   Runtime/Request: crates/native-runtime/src/request.rs; `parse` is `parse`. Decoding by serde
--     is a parameter. Grammar says what the accepted requests are, Complete that they are all.
--   Runtime/Domain, Runtime/Wire: crates/native-runtime/src/records.rs. The types are those of
--     permesh_core and permesh_provider_protocol, with the fields that this code writes out.
--   Runtime/Response: crates/native-runtime/src/response.rs. A provider is what its two calls
--     give. An operation makes all of its own failures before its first send, so it is the list
--     of events that it sends. permesh_core's `validate` and `sort` are parameters.
--   Runtime/Session: crates/native-runtime/src/lib.rs; `session` and `serve` are `session` and
--     `serve_internal`. Which future of the `select!` is first is an argument (`Race`), with how
--     much of its answer a dropped operation has sent. The call of the factory, which is where
--     configuration and credentials leave the runtime, is recorded in the result.
--   Runtime/Sdk: the adapter and what the sdk gives, as parameters.
--
-- Github models providers/github, the discovery of the access to an organization's repositories.
--   Github/Errors: the error table and the visibility texts of providers/github/src/lib.rs.
--   Github/Fields, Github/Keys: the tests on fields of providers/github/src/records.rs, and the
--     keys of its maps. A serde_json value is a parameter, by the methods that the code calls.
--   Github/Records: `Collection` of the same file with all its operations. Maps and sets are
--     association lists and lists; the clock, permesh_core's `sort` and the SDK's
--     `validate_snapshot` are parameters. Entries is about maps with blocked keys, Sound and Rows
--     about the invariant of the collection, Steps about sequences of operations, Finished about
--     the finished snapshot, Memory and Conflicts about rows that contradict each other.
--   Github/Http: what the client uses of reqwest and of the clock, as parameters: a reply for each
--     request of a run, by its number, its URL and its media type.
--   Github/Client, Github/Links: providers/github/src/client.rs. `get_media` has three attempts,
--     `list` a hundred pages, as the source's loops; the requests that were sent and the
--     sleeps are recorded beside the budget. Budgets
--     is about requests and delays, Pages about listings, Links/Safe about the next page.
--   Github/Discovery: providers/github/src/discovery.rs; `collect` and `check`. The order of the keys
--     of a `BTreeMap`, which is permesh_core's, is a parameter. Kinds, Kept and Whole carry the
--     invariant of the collection and of the budget through the walk.
--   Github/Config: `new_with_network` of providers/github/src/lib.rs. Github/Protocol: the adapter of
--     providers/github/src/protocol, but for its setup texts.
-- Cloudflare models providers/cloudflare, the discovery of the policy assignments of an account.
--   Http: what both clients use of reqwest. Cloudflare/Values: a serde_json value, by the methods
--     that the code calls. Url::join and the replies, by the number of the request, are parameters.
--   Cloudflare/Errors, Cloudflare/Provider: providers/cloudflare/src/lib.rs.
--   Cloudflare/Client: providers/cloudflare/src/client.rs. `request` has three attempts, `listing` a
--     hundred pages, as the source's loops. Costs is about one request, Requests about those
--     of a listing; Totals, Pages and Whole follow its responses to its rows.
--   Cloudflare/Fields, Cloudflare/Unique, Cloudflare/Policies, Cloudflare/Collection:
--     providers/cloudflare/src/records.rs. A `BTreeMap` is a list in the order of its keys; where
--     the key is permesh_core's, that order is a parameter. Gathering has the requests and loops of
--     `collect`. Unique/Settled and Unique/Whole are about the rows that are kept,
--     Policies/Allowed and Collection/Suppressed about who is granted what,
--     Collection/Requests about the requests of a whole collection.
--   Cloudflare/Protocol: the adapter of providers/cloudflare/src/protocol.rs, but for its setup
--     texts. Published follows a failed listing to the code that the host gets.
-- The other providers (aws, entra, gitlab and google) are not modelled. The deadline of a whole
-- discovery, which drops it, is not modelled beside the session's.
--
-- Shared holds lists, texts, results, tests and association lists.
--
-- Numbers are natural numbers: the code adds and subtracts lengths and counts that its limits
-- keep far below 2 ^ 64. Time is modelled by its outcome: a read or write that misses its
-- deadline. Zeroization outside the input buffer, and the construction of HTTP clients in
-- crates/native-runtime/src/network.rs, are not modelled.
mod Shared
pub mod Http
pub mod Runtime
pub mod Github
pub mod Cloudflare
