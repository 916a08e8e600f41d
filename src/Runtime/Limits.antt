-- ===== src/Runtime/Limits.antt =====
-- The constants and the failures of crates/native-runtime/src/lib.rs and io.rs.
use permesh_providers.Shared.{ℕ, ◌*◌, String}

-- MAX_FRAME.
abbrev pub max_frame : ℕ
max_frame = 1_048_576

-- MAX_TOTAL.
abbrev pub max_total : ℕ
max_total = 64 * max_frame

-- The size of the input buffer.
abbrev pub buffer_size : ℕ
buffer_size = 8192

abbrev pub newline : ℕ
newline = b'\n'

pub data Failure : Type 0 where
  protocol internal unavailable cancelled : Failure
  provider : String → Failure

-- `Failure::code`.
unfoldable pub code : Failure → String
code protocol = "protocol_error"
code internal = "internal"
code unavailable = "unavailable"
code cancelled = "internal"
code (provider c) = c
