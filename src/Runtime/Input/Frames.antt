-- ===== src/Runtime/Input/Frames.antt =====
-- `Input::frame` refines `first_line`: the loop over buffered chunks, round by round.
use permesh_providers.Shared.{
  ℕ, zero, suc, ◌+◌, ◌-◌, ◌≤◌, ◌<◌, min, ◌≡◌, refl, sym, ap, ◌∙◌, inl, inr, List, [], ◌∷◌, ◌++◌,
  some, arith, ltb, eqb, length, take, drop, replicate, length-append, length-take, take_all,
  Bool-cases,
}
use native.Mathlib.Nat.{le_refl}
use permesh_providers.Shared.Slices.{
  drop-length, drop-overwrite, length-overwrite, length-drop, take-drop, take-append_length,
  drop-drop,
}
use permesh_providers.Runtime.Limits.{max_frame, max_total, newline, buffer_size}
use permesh_providers.Runtime.Input.{
  Read, chunk, failed, stalled, Input, Framed, line_count, ends_line, fill, available, consume,
  take_line, refill, rounds, frame_of,
}
use permesh_providers.Runtime.Input.Lines.{
  bytes_of, tail_of, first_line, pending, outcome, room, IsValid, has_line, scan, line_count-le,
  line_count_of_no_line, ends_line-append, ends_line-take, line_count-cons,
}

pub length-available : (i : Input) → IsValid i → length (available i) ≡ i.end - i.start
unfolding available
length-available i v =
    omega
      (arith, length-take (i.end - i.start) (drop i.start i.buffer), length-drop i.start i.buffer)

available-consume :
    (c : ℕ) (i : Input)
    → IsValid i
    → c ≤ i.end - i.start
    → available (consume c i) ≡ drop c (available i)
unfolding available consume
available-consume c i v h = rw (drop-overwrite i.start c 0 i.buffer (omega arith)) (
    ap (λ xs. take (i.end - (i.start + c)) xs)
      (sym (drop-drop i.start c (i.start + c) i.buffer refl))
    ∙ take-drop c (i.end - (i.start + c)) (i.end - i.start) (drop i.start i.buffer) (omega arith))

pub consume-IsValid : (c : ℕ) (i : Input) → IsValid i → c ≤ i.end - i.start → IsValid (consume c i)
unfolding consume
consume-IsValid c i v h = record {
  ordered = omega arith;
  within = omega (arith, length-overwrite i.start c 0 i.buffer);
}

ends_line-taken :
    (acc av : List ℕ) → 0 < length av → ends_line (acc ++ take (line_count av) av) ≡ has_line av
ends_line-taken acc [] h = absurd (omega arith)
ends_line-taken acc (b ∷ av) h = elim (Bool-cases (eqb b newline)) [
  | inl e ↦ rw (← ends_line-take b av) (rw (line_count-cons, e) (ends_line-append acc b []))
  | inr e ↦
      rw (← ends_line-take b av)
        (rw (line_count-cons, e) (ends_line-append acc b (take (line_count av) av)))
]

reads-consume : (c : ℕ) (i : Input) → (consume c i).reads ≡ i.reads
unfolding consume
reads-consume c i = refl

abbrev Spec : Framed → Input → List ℕ → Type 0
Spec r j a = outcome r ≡ some (first_line (room j a) a (pending j) (tail_of j.reads))

abbrev pub whole : Input → Input
whole i = consume (length (available i)) i

room-whole :
    (i : Input) (acc : List ℕ)
    → room (whole i) (acc ++ available i) ≡ room i acc - length (available i)
unfolding consume
room-whole i acc = omega (arith, length-append acc (available i))

pending-whole : (i : Input) → IsValid i → pending (whole i) ≡ bytes_of i.reads
pending-whole i v =
    rw (available-consume (length (available i)) i v (omega (arith, length-available i v)))
      (rw (drop-length (available i)) (unfold consume in refl))

module _ (again : Input → List ℕ → Framed) (i : Input) (acc : List ℕ) where
  go_on :
      IsValid i
      → Spec (again (whole i) (acc ++ available i)) (whole i) (acc ++ available i)
      → outcome (again (whole i) (acc ++ available i))
        ≡ some (
            first_line
              (room i acc - length (available i))
              (acc ++ available i)
              (bytes_of i.reads)
              (tail_of i.reads))
  go_on v next = rw (← room-whole i acc, ← pending-whole i v) (unfold consume in next)

module _ (again : Input → List ℕ → Framed) (i : Input) (acc : List ℕ) where
  take_line_lem :
      IsValid i
      → i.start < i.end
      → Spec (again (whole i) (acc ++ available i)) (whole i) (acc ++ available i)
      → Spec (take_line again i acc) i acc
  unfolding take_line
  take_line_lem v h next =
      rw scan (elim (Bool-cases (ltb (room i acc) (line_count (available i)))) [
        | inl over ↦ ground arith
        | inr fits ↦ elim (Bool-cases (has_line (available i))) [
          | inl found ↦ ground (
            arith,
            length-available i v,
            ends_line-taken acc (available i),
            line_count-le (available i),
            available-consume (line_count (available i)) i v,
            reads-consume (line_count (available i)) i,
          )
          | inr missing ↦ ground (
            arith,
            length-available i v,
            ends_line-taken acc (available i),
            line_count_of_no_line (available i) missing,
            take_all (length (available i)) (available i) (le_refl _),
            go_on again i acc v next,
          )
        ]
      ])

available-fill : (bytes : List ℕ) (i : Input) (rs : List Read) → available (fill bytes i rs) ≡ bytes
unfolding available fill
available-fill bytes i rs = take-append_length (length bytes - 0) bytes _ (omega arith)

pub fill-IsValid : (bytes : List ℕ) (i : Input) (rs : List Read) → IsValid (fill bytes i rs)
unfolding fill
fill-IsValid bytes i rs = record {
  ordered = omega arith;
  within = omega (arith, length-append bytes (replicate (buffer_size - length bytes) 0));
}

available_empty : (i : Input) → i.start ≡ i.end → available i ≡ []
unfolding available
available_empty i e = let none_left : i.end - i.start ≡ 0 = omega arith in rw none_left

-- The rounds that a call needs: one for each read, one for the bytes at hand, and one more.
abbrev Enough : Input → ℕ → Type 0
Enough i n = length i.reads + 1 + min 1 (i.end - i.start) ≤ n

pub whole-IsValid : (i : Input) → IsValid i → IsValid (whole i)
whole-IsValid i v = consume-IsValid _ i v (omega (arith, length-available i v))

whole-Enough : (i : Input) (n : ℕ) → IsValid i → length i.reads + 1 ≤ n → Enough (whole i) n
unfolding consume
whole-Enough i n v h = omega (arith, length-available i v)

reads-fill : (bs : List ℕ) (i : Input) (rs : List Read) → (fill bs i rs).reads ≡ rs
unfolding fill
reads-fill bs i rs = refl

pub total-fill : (bs : List ℕ) (i : Input) (rs : List Read) → (fill bs i rs).total ≡ i.total
unfolding fill
total-fill bs i rs = refl

pub fill_window :
    (bs : List ℕ) (i : Input) (rs : List Read)
    → 0 < length bs
    → (fill bs i rs).start < (fill bs i rs).end
unfolding fill
fill_window bs i rs h = h

filled :
    (r : Framed) (bs : List ℕ) (i : Input) (rs : List Read) (acc : List ℕ)
    → Spec r (fill bs i rs) acc
    → outcome r ≡ some (first_line (room i acc) acc (bs ++ bytes_of rs) (tail_of rs))
filled r bs i rs acc h = simp (available-fill, reads-fill, total-fill) at h

module _ (k : Input → Framed) (i : Input) (acc : List ℕ) where
  refill_lem :
      (rs : List Read)
      → ((bs : List ℕ) (rest : List Read)
          → 0 < length bs
          → length rest + 1 ≤ length rs
          → Spec (k (fill bs i rest)) (fill bs i rest) acc)
      → outcome (refill k i rs) ≡ some (first_line (room i acc) acc (bytes_of rs) (tail_of rs))
  unfolding refill bytes_of tail_of first_line
  refill_lem [] step = refl
  refill_lem (chunk [] ∷ rs) step = refl
  refill_lem (chunk (b ∷ bs) ∷ rs) step =
      filled _ (b ∷ bs) i rs acc (step (b ∷ bs) rs (omega arith) (omega arith))
  refill_lem (failed ∷ rs) step = refl
  refill_lem (stalled ∷ rs) step = refl

rounds_lem :
    (n : ℕ) (i : Input) (acc : List ℕ) → IsValid i → Enough i n → Spec (rounds n i acc) i acc
unfolding rounds
rounds_lem zero i acc v h = absurd (omega arith)
rounds_lem (suc n) i acc v h = elim (Bool-cases (eqb i.start i.end)) [
  | inl e ↦ rw e (
      rw (available_empty i (ground arith)) (
        refill_lem (λ i'. take_line (rounds n) i' acc) i acc i.reads
          λ bs rest p q.
            let i' = fill bs i rest in
            let v' = fill-IsValid bs i rest in
            take_line_lem (rounds n) i' acc v' (fill_window bs i rest p) (
              rounds_lem n (whole i') (acc ++ available i') (whole-IsValid i' v') (
                whole-Enough i' n v'
                  (omega (arith, ap (λ (rs : List Read). length rs) (reads-fill bs i rest)))))))
  | inr e ↦ rw e (
      take_line_lem (rounds n) i acc v (ground arith) (
        rounds_lem n (whole i) (acc ++ available i) (whole-IsValid i v)
          (whole-Enough i n v (ground arith))))
]

-- From a valid input, `frame` never runs out of rounds, and gives the first line of the bytes still
-- to come, the newline included: those at hand and then those of the coming reads, whatever
-- the chunks. It is refused exactly where no newline stands within `max_frame` bytes and within what
-- is left of `max_total`, or the input ends before one. What follows the line stays pending.
pub frame_of-eq-first_line :
    (i : Input)
    → IsValid i
    → outcome (frame_of i)
      ≡ some (first_line (min max_frame (max_total - i.total)) [] (pending i) (tail_of i.reads))
unfolding frame_of
frame_of-eq-first_line i v = rounds_lem (length i.reads + 2) i [] v (omega arith)
