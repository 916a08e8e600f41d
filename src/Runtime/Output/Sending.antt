-- ===== src/Runtime/Output/Sending.antt =====
-- What one `send` publishes, and the limits that every `send` keeps.
use permesh_providers.Shared.{
  ℕ, ◌+◌, ◌-◌, ◌≤◌, ◌≡◌, refl, Bool, true, false, List, [], ◌∷◌, ◌++◌, none, some, arith, ltb,
  if◌then◌else◌, ◌&&◌, length, take, Result, ok, err, length-append, length-take, append_assoc,
  append-nil, concat_map, leb,
}
use permesh_providers.Runtime.Limits.{max_frame, max_total, newline, Failure, internal}
use permesh_providers.Runtime.Sdk.{Sdk}
use permesh_providers.Runtime.Output.{
  Write, whole, blocked, broken, Event, Output, Envelope, limited_write, write_pieces, deliver,
  send_line, envelope, send,
}

-- The text of some pieces.
abbrev pub text : List (List ℕ) → List ℕ
text ps = concat_map (λ p. p) ps

-- Piece by piece, the writer enforces one limit on the whole text.
write_pieces_lem :
    (ps : List (List ℕ)) (buffer : List ℕ)
    → length buffer ≤ max_frame - 1
    → write_pieces buffer ps ≡ (
        if ltb (max_frame - 1) (length buffer + length (text ps))
        then none
        else some (buffer ++ text ps))
unfolding write_pieces limited_write
write_pieces_lem [] buffer h = rw append-nil (ground arith)
write_pieces_lem (p ∷ ps) buffer h = ground (
  arith,
  write_pieces_lem ps (buffer ++ p),
  length-append buffer p,
  length-append p (text ps),
  append_assoc buffer p (text ps),
)

-- The transcript's count is within its limit, and counts all that was sent.
pub record IsBounded (o : Output) : Type 0 where
  pub limited : o.total ≤ max_total
  pub counted : length o.sent ≤ o.total

deliver-IsBounded :
    (bytes : List ℕ) (ws : List Write) (o : Output)
    → o.total ≤ max_total
    → length o.sent + length bytes ≤ o.total
    → IsBounded (deliver bytes ws o).1
unfolding deliver
deliver-IsBounded bytes [] o h k = omega (arith, length-append o.sent bytes)
deliver-IsBounded bytes (whole ∷ ws) o h k = omega (arith, length-append o.sent bytes)
deliver-IsBounded bytes (blocked n ∷ ws) o h k =
    omega (arith, length-append o.sent (take n bytes), length-take n bytes)
deliver-IsBounded bytes (broken n ∷ ws) o h k =
    omega (arith, length-append o.sent (take n bytes), length-take n bytes)

deliver-ok :
    (bytes : List ℕ) (ws : List Write) (o : Output)
    → (deliver bytes ws o).0 ≡ ok tt
    → ((deliver bytes ws o).1.sent ≡ o.sent ++ bytes)
      × ((deliver bytes ws o).1.contract ≡ o.contract)
      × ((deliver bytes ws o).1.id ≡ o.id)
unfolding deliver
deliver-ok bytes [] o h = (refl, refl, refl)
deliver-ok bytes (whole ∷ ws) o h = (refl, refl, refl)
deliver-ok bytes (blocked n ∷ ws) o h = cc
deliver-ok bytes (broken n ∷ ws) o h = cc

module _ (sdk : Sdk) (pieces : Envelope sdk → List (List ℕ)) (o : Output) (e : Event sdk) where
  -- The frame of an event: the serialized envelope and a newline.
  abbrev pub line_of : List ℕ
  line_of = text (pieces (envelope sdk pieces o e)) ++ newline ∷ []

  -- `send` refuses, as an internal failure and with the output unchanged, exactly the frames that
  -- are longer than `max_frame` or than what is left of `max_total`; any other frame is counted and
  -- handed to the writer.
  pub send_lem : send sdk pieces o e ≡ (
      if leb (length line_of) max_frame && leb (o.total + length line_of) max_total
      then deliver line_of o.writes (record o { total = o.total + length line_of })
      else (err internal, o))
  unfolding send send_line
  send_lem =
      let body = text (pieces (envelope sdk pieces o e)) in
      rw (write_pieces_lem (pieces (envelope sdk pieces o e)) [] (omega arith), send)
        (ground (arith, length-append body (newline ∷ [])))

  -- Whatever the writer does, a `send` keeps the transcript within `max_total`.
  pub send-IsBounded : IsBounded o → IsBounded (send sdk pieces o e).1
  send-IsBounded h = rw send_lem (
      ground
        (arith, deliver-IsBounded line_of o.writes (record o { total = o.total + length line_of })))

  abbrev Sent : Result Failure (Unit {0}) × Output → Type 0
  Sent r =
      r.0 ≡ ok tt → (r.1.sent ≡ o.sent ++ line_of) × (r.1.contract ≡ o.contract) × (r.1.id ≡ o.id)

  Sent-if :
      (b : Bool)
      → Sent (
          if b
          then deliver line_of o.writes (record o { total = o.total + length line_of })
          else (err internal, o))
  Sent-if true h = deliver-ok line_of o.writes (record o { total = o.total + length line_of }) h
  Sent-if false h = cc

  -- A `send` that succeeds has appended the frame of its event to what was sent, one line, and
  -- changes neither the contract nor the id.
  pub send-ok :
      (send sdk pieces o e).0 ≡ ok tt
      → ((send sdk pieces o e).1.sent ≡ o.sent ++ line_of)
        × ((send sdk pieces o e).1.contract ≡ o.contract)
        × ((send sdk pieces o e).1.id ≡ o.id)
  send-ok = rw send_lem (Sent-if _)
