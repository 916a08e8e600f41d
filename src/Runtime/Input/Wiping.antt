-- ===== src/Runtime/Input/Wiping.antt =====
-- What `frame` keeps: the buffer holds nothing that was consumed, and the limits hold.
use permesh_providers.Shared.{
  ℕ, zero, suc, ◌+◌, ◌-◌, ◌≤◌, ◌≡◌, refl, inl, inr, false, ◌||◌, List, [], ◌∷◌, ◌++◌, arith, ltb,
  eqb, length, take, drop, replicate, length-append, length-take, Bool-cases, All, All-append,
}
use mathlib.Core.Path.{subst}
use permesh_providers.Shared.Slices.{drop-overwrite, take-overwrite, drop-drop, drop-append_length}
use permesh_providers.Runtime.Limits.{max_frame, max_total, buffer_size}
use permesh_providers.Runtime.Input.{
  Read, chunk, failed, stalled, Input, new, Framed, frame, refused, hangs, spent, line_count,
  ends_line, ends_line, fill, available, consume, take_line, refill, rounds, frame_of,
}
use permesh_providers.Runtime.Input.Lines.{IsValid, line_count-le}
use permesh_providers.Runtime.Input.Frames.{length-available, consume-IsValid, fill-IsValid}

abbrev pub IsZero : ℕ → Type 0
IsZero b = b ≡ 0

-- Outside the window of bytes that are still to be consumed the buffer holds zeros only, and the
-- bytes consumed so far are within the transcript's limit.
pub record IsClean (i : Input) : Type 0 where
  pub valid : IsValid i
  pub before : All IsZero (take i.start i.buffer)
  pub after : All IsZero (drop i.end i.buffer)
  pub bounded : i.total ≤ max_total

All-replicate : (n : ℕ) → All IsZero (replicate n 0)
All-replicate zero = tt
All-replicate (suc n) = (refl, All-replicate n)

pub new-IsClean : (reads : List Read) → IsClean (new reads)
unfolding new
new-IsClean reads = record {
  valid = record { ordered = omega arith; within = omega arith };
  before = tt;
  after = All-replicate buffer_size;
  bounded = omega arith;
}

consume-before :
    (c : ℕ) (i : Input)
    → IsClean i
    → c ≤ i.end - i.start
    → All IsZero (take (consume c i).start (consume c i).buffer)
unfolding consume
consume-before c i k h =
    rw (take-overwrite i.start c 0 i.buffer (omega (arith, k.valid.within)))
      (All-append IsZero (take i.start i.buffer) (replicate c 0) k.before (All-replicate c))

consume-after :
    (c : ℕ) (i : Input)
    → IsClean i
    → c ≤ i.end - i.start
    → All IsZero (drop (consume c i).end (consume c i).buffer)
unfolding consume
consume-after c i k h =
    let e : i.start + c + (i.end - i.start - c) ≡ i.end = omega (arith, k.valid.ordered) in
    rw (← drop-drop (i.start + c) (i.end - i.start - c) i.end _ e) (
      rw (drop-overwrite i.start c 0 i.buffer (omega (arith, k.valid.within)))
        (rw (drop-drop (i.start + c) (i.end - i.start - c) i.end i.buffer e) k.after))

consume-IsClean :
    (c : ℕ) (i : Input)
    → IsClean i
    → c ≤ i.end - i.start
    → i.total + c ≤ max_total
    → IsClean (consume c i)
consume-IsClean c i k h b = record {
  valid = consume-IsValid c i k.valid h;
  before = consume-before c i k h;
  after = consume-after c i k h;
  bounded = unfold consume in b;
}

fill-IsClean :
    (bs : List ℕ) (i : Input) (rs : List Read) → i.total ≤ max_total → IsClean (fill bs i rs)
unfolding fill
fill-IsClean bs i rs b = record {
  valid = fill-IsValid bs i rs;
  before = tt;
  after =
      rw (drop-append_length (length bs) bs (replicate (buffer_size - length bs) 0) refl)
        (All-replicate (buffer_size - length bs));
  bounded = b;
}

-- A frame that a call returns, begun with `held` bytes of it: its length is counted and within the limit.
abbrev Keeps : ℕ → ℕ → Framed → Type 0
Keeps total held (frame f j) =
    IsClean j × (j.total + held ≡ total + length f) × (length f ≤ max_frame)
Keeps total held _ = Unit

Keeps-later :
    (r : Framed) (total held total' held' : ℕ)
    → Keeps total' held' r
    → total' + held ≡ total + held'
    → Keeps total held r
Keeps-later (frame f j) total held total' held' h e = (h.0, omega arith, h.2)
Keeps-later refused total held total' held' h e = tt
Keeps-later hangs total held total' held' h e = tt
Keeps-later spent total held total' held' h e = tt

total-consume : (c : ℕ) (i : Input) → (consume c i).total ≡ i.total + c
unfolding consume
total-consume c i = refl

-- The bytes that a round takes fit in the window and in the limits, where its test passes.
record Taken (i : Input) (acc : List ℕ) : Type 0 where
  clean : IsClean (consume (line_count (available i)) i)
  longer :
      length (acc ++ take (line_count (available i)) (available i))
      ≡ length acc + line_count (available i)
  short : length acc + line_count (available i) ≤ max_frame

taken :
    (i : Input) (acc : List ℕ)
    → IsClean i
    → length acc ≤ max_frame
    → (ltb (max_frame - length acc) (line_count (available i))
        || ltb (max_total - i.total) (line_count (available i)))
      ≡ false
    → Taken i acc
taken i acc k h fits =
    let c = line_count (available i) in
    let window : c ≤ i.end - i.start =
      omega (arith, line_count-le (available i), length-available i k.valid) in
    let room : (c ≤ max_frame - length acc) × (c ≤ max_total - i.total) = ground arith in
    record {
      clean = consume-IsClean c i k window (omega (arith, k.bounded));
      longer = omega (
        arith,
        length-append acc (take c (available i)),
        length-take c (available i),
        line_count-le (available i),
      );
      short = omega arith;
    }

take_line-Keeps :
    (again : Input → List ℕ → Framed) (i : Input) (acc : List ℕ)
    → IsClean i
    → ((j : Input) (a : List ℕ)
        → IsClean j
        → length a ≤ max_frame
        → Keeps j.total (length a) (again j a))
    → length acc ≤ max_frame
    → Keeps i.total (length acc) (take_line again i acc)
unfolding take_line
take_line-Keeps again i acc k next h =
    let bytes = available i in
    let c = line_count bytes in
    let acc' = acc ++ take c bytes in
    let over = ltb (max_frame - length acc) c || ltb (max_total - i.total) c in
    elim (Bool-cases over) [
      | inl e ↦ rw e tt
      | inr e ↦
          let t = taken i acc k h e in
          elim (Bool-cases (ends_line acc')) [
            | inl last ↦
                rw (e, last)
                  (
                    t.clean,
                    omega (arith, t.longer, total-consume c i),
                    omega (arith, t.longer, t.short),
                  )
            | inr more ↦
                rw (e, more)
                  (Keeps-later (again (consume c i) acc') i.total (length acc) (consume c i).total
                    (length acc')
                    (next (consume c i) acc' t.clean (omega (arith, t.longer, t.short)))
                    (omega (arith, t.longer, total-consume c i)))
          ]
    ]

module _ (k : Input → Framed) (i : Input) (held : ℕ) (bounded : i.total ≤ max_total)
    (step : (j : Input) → IsClean j → Keeps j.total held (k j)) where
  refill-Keeps : (rs : List Read) → Keeps i.total held (refill k i rs)
  unfolding refill fill
  refill-Keeps [] = tt
  refill-Keeps (chunk [] ∷ rs) = tt
  refill-Keeps (chunk (b ∷ bs) ∷ rs) =
      step (fill (b ∷ bs) i rs) (fill-IsClean (b ∷ bs) i rs bounded)
  refill-Keeps (failed ∷ rs) = tt
  refill-Keeps (stalled ∷ rs) = tt

rounds-Keeps :
    (n : ℕ) (i : Input) (acc : List ℕ)
    → IsClean i
    → length acc ≤ max_frame
    → Keeps i.total (length acc) (rounds n i acc)
unfolding rounds
rounds-Keeps zero i acc k h = tt
rounds-Keeps (suc n) i acc k h =
    let step =
      λ (j : Input) (c : IsClean j). take_line-Keeps (rounds n) j acc c (rounds-Keeps n) h in
    elim (Bool-cases (eqb i.start i.end)) [
      | inl e ↦
          rw e
            (refill-Keeps (λ j. take_line (rounds n) j acc) i (length acc) k.bounded step i.reads)
      | inr e ↦ rw e (step i k)
    ]

kept :
    (total : ℕ) (r : Framed) (f : List ℕ) (j : Input)
    → r ≡ frame f j
    → Keeps total 0 r
    → Keeps total 0 (frame f j)
kept total r f j e h = subst (Keeps total 0) e h

-- Where `frame` returns a frame from a clean input, it leaves a clean one: every byte outside the
-- window still to be consumed, so every byte consumed, is zero in the buffer. The frame holds at
-- most `max_frame` bytes, the transcript's count grows by just its length, and the count stays within
-- `max_total`.
pub frame_of-IsClean :
    (i : Input) (f : List ℕ) (j : Input)
    → IsClean i
    → frame_of i ≡ frame f j
    → IsClean j × (j.total ≡ i.total + length f) × (length f ≤ max_frame) × (j.total ≤ max_total)
frame_of-IsClean i f j k e =
    let (clean, counted, short) =
      kept i.total (frame_of i) f j e
        (unfold frame_of in rounds-Keeps (length i.reads + 2) i [] k (omega arith)) in
    (clean, omega arith, short, clean.bounded)
