-- ===== src/Http.antt =====
-- What the providers' clients use of reqwest: the headers of a response, and what a request meets.
use permesh_providers.Shared.{ℕ, Bool, Option, String, List}

-- The two observations that the code makes of a `HeaderMap`: whether a header is there, and its
-- value by `to_str`, which fails on a value that is no visible ASCII.
abbrev pub Headers : Type 0
Headers = String → Option (Option String)

-- What a request meets. `timed_out`: the deadline of the whole operation passes first, at any
-- point. `unsent`: `send` fails, by a timeout of reqwest's own or otherwise. A chunk that is none
-- is a failure of the read.
pub data Reply : Type 0 where
  timed_out : Reply
  unsent : Bool → Reply
  response : ℕ → Headers → Option ℕ → List (Option (List ℕ)) → Reply
