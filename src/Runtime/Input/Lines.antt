-- ===== src/Runtime/Input/Lines.antt =====
-- `Input::frame` against a description that knows no buffer: the bytes still to come are cut at
-- the first newline, within the limits, however the reader splits them into chunks.
use permesh_providers.Shared.{
  ℕ, zero, suc, ◌-◌, ◌≤◌, min, ◌≡◌, refl, inl, inr, Bool, true, false, List, [], ◌∷◌, ◌++◌, Option,
  none, some, arith, ltb, eqb, if◌then◌else◌, length, take, drop, append_assoc, append-nil,
  Bool-cases, is_some,
}
use permesh_providers.Runtime.Limits.{max_frame, max_total, newline}
use permesh_providers.Runtime.Input.{
  Read, chunk, failed, stalled, Input, Framed, frame, refused, hangs, spent, position, line_count,
  ends_line, available,
}

-- How the input goes on after its last byte: no more bytes come, by its end or an error, or it
-- stays open and silent.
pub data Tail : Type 0 where
  stops waits : Tail

-- The bytes that the coming reads give, and what follows them.
unfoldable pub bytes_of : List Read → List ℕ
bytes_of [] = []
bytes_of (chunk [] ∷ rs) = []
bytes_of (chunk (b ∷ bs) ∷ rs) = b ∷ bs ++ bytes_of rs
bytes_of (failed ∷ rs) = []
bytes_of (stalled ∷ rs) = []

unfoldable pub tail_of : List Read → Tail
tail_of [] = stops
tail_of (chunk [] ∷ rs) = stops
tail_of (chunk (b ∷ bs) ∷ rs) = tail_of rs
tail_of (failed ∷ rs) = stops
tail_of (stalled ∷ rs) = waits

pub data Line : Type 0 where
  line : List ℕ → List ℕ → Tail → Line
  no_line : Line
  no_answer : Line

at_end : Tail → Line
at_end stops = no_line
at_end waits = no_answer

-- The first line of some bytes, behind those already read, where `room` more bytes are allowed.
unfoldable pub first_line : ℕ → List ℕ → List ℕ → Tail → Line
unfolding at_end
first_line room acc [] t = at_end t
first_line zero acc (b ∷ s) t = no_line
first_line (suc room) acc (b ∷ s) t =
    let more = first_line room (acc ++ b ∷ []) s t in
    if eqb b newline then line (acc ++ b ∷ []) s t else more

-- The bytes of an input that no frame has taken yet.
abbrev pub pending : Input → List ℕ
pending i = available i ++ bytes_of i.reads

abbrev pub outcome : Framed → Option Line
outcome (frame f i) = some (line f (pending i) (tail_of i.reads))
outcome refused = some no_line
outcome hangs = some no_answer
outcome spent = none

-- The bytes that the limits allow in a frame that holds `acc`.
abbrev pub room : Input → List ℕ → ℕ
room i acc = min (max_frame - length acc) (max_total - i.total)

-- The buffer's window lies within the buffer.
pub record IsValid (i : Input) : Type 0 where
  pub ordered : i.start ≤ i.end
  pub within : i.end ≤ length i.buffer

pub has_line : List ℕ → Bool
has_line av = is_some (position av)

pub line_count-cons :
    (b : ℕ) (av : List ℕ) → line_count (b ∷ av) ≡ (if eqb b newline then 1 else suc (line_count av))
unfolding line_count
line_count-cons b av = ground arith

pub has_line-cons :
    (b : ℕ) (av : List ℕ) → has_line (b ∷ av) ≡ (if eqb b newline then true else has_line av)
unfolding has_line position
has_line-cons b av = ground arith

pub line_count_nil : line_count [] ≡ 0
unfolding line_count
line_count_nil = refl

pub has_line_nil : has_line [] ≡ false
unfolding has_line position
has_line_nil = refl

pub scan :
    (av s acc : List ℕ) (n : ℕ) (t : Tail)
    → first_line n acc (av ++ s) t ≡ (
        if ltb n (line_count av)
        then no_line
        else if has_line av
        then line (acc ++ take (line_count av) av) (drop (line_count av) av ++ s) t
        else first_line (n - length av) (acc ++ av) s t)
unfolding first_line
scan [] s acc n t = rw (line_count_nil, has_line_nil, append-nil) (ground arith)
scan (b ∷ av) s acc zero t = rw line_count-cons (ground arith)
scan (b ∷ av) s acc (suc n) t = elim (Bool-cases (eqb b newline)) [
  | inl e ↦ rw (line_count-cons, has_line-cons, e) (ground arith)
  | inr e ↦
      rw (line_count-cons, has_line-cons, e)
        (ground (
          arith,
          scan av s (acc ++ b ∷ []) n t,
          append_assoc acc (b ∷ []) (take (line_count av) av),
          append_assoc acc (b ∷ []) av,
        ))
]

pub line_count-le : (av : List ℕ) → line_count av ≤ length av
line_count-le [] = rw line_count_nil (omega arith)
line_count-le (b ∷ av) = ground (arith, line_count-cons b av, line_count-le av)

pub line_count_of_no_line : (av : List ℕ) → has_line av ≡ false → line_count av ≡ length av
line_count_of_no_line [] h = line_count_nil
line_count_of_no_line (b ∷ av) h =
    ground (arith, line_count-cons b av, has_line-cons b av, line_count_of_no_line av)

pub ends_line-append :
    (acc : List ℕ) (b : ℕ) (s : List ℕ) → ends_line (acc ++ b ∷ s) ≡ ends_line (b ∷ s)
unfolding ends_line
ends_line-append [] b s = refl
ends_line-append (c ∷ []) b s = refl
ends_line-append (c ∷ d ∷ acc) b s = ends_line-append (d ∷ acc) b s

pub ends_line-take :
    (b : ℕ) (av : List ℕ) → ends_line (take (line_count (b ∷ av)) (b ∷ av)) ≡ has_line (b ∷ av)
unfolding ends_line
ends_line-take b [] =
    rw (line_count-cons, has_line-cons, line_count_nil, has_line_nil) (ground arith)
ends_line-take b (c ∷ av) =
    rw (line_count-cons b, has_line-cons b)
      (ground (arith, ends_line-take c av, line_count-cons c av))
