-- ===== src/Runtime/Input.antt =====
-- `Input` of crates/native-runtime/src/io.rs: frames of one line each, read through a buffer that
-- is cleared as it is consumed. The reader is the list of what its coming reads give.
pub mod Lines
pub mod Frames
pub mod Wiping
use permesh_providers.Shared.{
  ℕ, zero, suc, ◌+◌, ◌-◌, Bool, true, false, ◌||◌, List, [], ◌∷◌, ◌++◌, Option, none, some, ltb,
  eqb, if◌then◌else◌, length, take, drop, replicate,
}
use permesh_providers.Runtime.Limits.{max_frame, max_total, buffer_size, newline}

-- What one read of the reader gives: bytes (none at the end of the input), an error, or nothing
-- before the caller's deadline.
pub data Read : Type 0 where
  chunk : List ℕ → Read
  failed : Read
  stalled : Read

pub record Input : Type 0 where
  pub reads : List Read
  pub buffer : List ℕ
  pub start : ℕ
  pub end : ℕ
  pub total : ℕ

-- `Input::new`.
unfoldable pub new : List Read → Input
new reads = record {
  reads = reads;
  buffer = replicate buffer_size 0;
  start = 0;
  end = 0;
  total = 0;
}

-- How a call of `frame` ends. `hangs`: the reader gives nothing more, so the call does not return.
-- `spent`: the rounds of the model are used up, which never happens.
pub data Framed : Type 0 where
  frame : List ℕ → Input → Framed
  refused : Framed
  hangs : Framed
  spent : Framed

-- `Iterator::position` of the newline.
pub position : List ℕ → Option ℕ
position [] = none
position (b ∷ s) =
    if eqb b newline then some 0 else elim (position s) [ none ↦ none | some i ↦ some (i + 1) ]

-- The bytes of a list up to its first newline, or all of them.
pub line_count : List ℕ → ℕ
unfolding position
line_count available = elim (position available) [ none ↦ length available | some i ↦ i + 1 ]

-- `frame.last() == Some(&b'\n')`.
pub ends_line : List ℕ → Bool
ends_line [] = false
ends_line (b ∷ []) = eqb b newline
ends_line (b ∷ c ∷ s) = ends_line (c ∷ s)

-- The buffer after a read of these bytes: it was cleared before.
pub fill : List ℕ → Input → List Read → Input
fill bytes i rest = record i {
  reads = rest;
  buffer = bytes ++ replicate (buffer_size - length bytes) 0;
  start = 0;
  end = length bytes;
}

-- The bytes that were read and not consumed yet.
unfoldable pub available : Input → List ℕ
available i = take (i.end - i.start) (drop i.start i.buffer)

-- The input after its next `count` bytes are consumed: their place in the buffer is cleared.
pub consume : ℕ → Input → Input
consume count i = record i {
  buffer = take i.start i.buffer ++ replicate count 0 ++ drop (i.start + count) i.buffer;
  start = i.start + count;
  total = i.total + count;
}

-- The second half of a round of the loop of `frame`; `again` is the next round.
pub take_line : (Input → List ℕ → Framed) → Input → List ℕ → Framed
take_line again i acc =
    let bytes = available i in
    let count = line_count bytes in
    let acc' = acc ++ take count bytes in
    let i' = consume count i in
    let more = again i' acc' in
    if ltb (max_frame - length acc) count || ltb (max_total - i.total) count
    then refused
    else if ends_line acc'
    then frame acc' i'
    else more

-- The first half of a round, once the buffer is empty.
pub refill : (Input → Framed) → Input → List Read → Framed
refill rest i [] = refused
refill rest i (chunk [] ∷ reads) = refused
refill rest i (chunk (b ∷ bytes) ∷ reads) = rest (fill (b ∷ bytes) i reads)
refill rest i (failed ∷ reads) = refused
refill rest i (stalled ∷ reads) = hangs

pub rounds : ℕ → Input → List ℕ → Framed
rounds zero i acc = spent
rounds (suc n) i acc =
    let again = rounds n in
    let read_first = refill (λ i'. take_line again i' acc) i i.reads in
    let go_on = take_line again i acc in if eqb i.start i.end then read_first else go_on

-- `Input::frame`. Every round but the first makes a read.
unfoldable pub frame_of : Input → Framed
unfolding rounds take_line refill fill available line_count ends_line consume
frame_of i = rounds (length i.reads + 2) i []
