-- ===== src/Runtime/Session/Exits/Verdicts.antt =====
-- crates/native-runtime/src/lib.rs: which failures of a session are cancellations.
use permesh_providers.Shared.{
  ℕ, ◌+◌, ◌-◌, ◌++◌, ◌≡◌, refl, ◌⊎◌, inl, inr, Bool, true, false, ◌&&◌, List, [], ◌∷◌, Option,
  String, ltb, if◌then◌else◌, length, Result, ok, err, ◌>>=◌, string_eq, Result-cases, Bool-cases,
  Option-cases, arith,
}
use permesh_providers.Runtime.Limits.{
  Failure, protocol, internal, unavailable, cancelled, provider, max_total, newline,
}
use permesh_providers.Runtime.Sdk.{Sdk, Adapter}
use permesh_providers.Runtime.Input.{Input, Framed, frame, refused, hangs, spent, frame_of}
use permesh_providers.Runtime.Request.{
  Contract, same_contract, WireRequest, Command, handshake, operation, describe, describe_auth,
  cancel, Request, parse,
}
use permesh_providers.Runtime.Output.{
  Output, Write, whole, blocked, broken, Envelope, Event, send, send_line, deliver, write_pieces,
  envelope,
}
use permesh_providers.Runtime.Response.{
  ProviderError, Provider, Core, provider_result, check_events, discover_events, events_of,
  send_all,
}
use permesh_providers.Runtime.Session.{
  Race, at_once, during, overdue, finished, next, interruption, is_cancel,
}

Framed-cases :
    (x : Framed)
    → ((bytes : List ℕ) × (j : Input) × (x ≡ frame bytes j))
      ⊎ ((x ≡ refused) ⊎ ((x ≡ hangs) ⊎ (x ≡ spent)))
Framed-cases (frame bytes j) = inl (bytes, j, refl)
Framed-cases refused = inr (inl refl)
Framed-cases hangs = inr (inr (inl refl))
Framed-cases spent = inr (inr (inr refl))

-- What a result of a session is to come from: `X` a success, `Y` a cancellation.
unfoldable pub Verdict : Type 0 → Type 0 → Result Failure (Unit {0}) → Type 0
Verdict X Y (ok _) = X
Verdict X Y (err cancelled) = Y
Verdict X Y (err _) = Unit {0}

pub Verdict-map :
    (X Y X' Y' : Type 0) (r : Result Failure (Unit {0}))
    → (X → X')
    → (Y → Y')
    → Verdict X Y r
    → Verdict X' Y' r
unfolding Verdict
Verdict-map X Y X' Y' (ok u) f g h = f h
Verdict-map X Y X' Y' (err cancelled) f g h = g h
Verdict-map X Y X' Y' (err protocol) f g h = tt
Verdict-map X Y X' Y' (err internal) f g h = tt
Verdict-map X Y X' Y' (err unavailable) f g h = tt
Verdict-map X Y X' Y' (err (provider c)) f g h = tt

pub cancelled-Verdict : (X Y : Type 0) → Y → Verdict X Y (err cancelled)
unfolding Verdict
cancelled-Verdict X Y y = y

pub Race-cases :
    (r : Race)
    → (r ≡ at_once)
      ⊎ (((k : ℕ) × (n : ℕ) × (r ≡ during k n))
          ⊎ (((k : ℕ) × (n : ℕ) × (r ≡ overdue k n)) ⊎ (r ≡ finished)))
Race-cases at_once = inl refl
Race-cases (during k n) = inr (inl (k, n, refl))
Race-cases (overdue k n) = inr (inr (inl (k, n, refl)))
Race-cases finished = inr (inr (inr refl))

-- A failure other than a cancellation.
unfoldable pub uncancelled : Failure → Bool
uncancelled cancelled = false
uncancelled _ = true

unfoldable pub plain : {A : Type 0} → Result Failure A → Bool
plain (ok x) = true
plain (err f) = uncancelled f

pub uncancelled-Verdict : (X Y : Type 0) (f : Failure) → uncancelled f ≡ true → Verdict X Y (err f)
unfolding Verdict uncancelled
uncancelled-Verdict X Y cancelled h = absurd (cc)
uncancelled-Verdict X Y protocol h = tt
uncancelled-Verdict X Y internal h = tt
uncancelled-Verdict X Y unavailable h = tt
uncancelled-Verdict X Y (provider c) h = tt

pub plain-Verdict :
    (X Y : Type 0) (r : Result Failure (Unit {0})) → plain r ≡ true → X → Verdict X Y r
unfolding Verdict plain
plain-Verdict X Y (ok u) h x = x
plain-Verdict X Y (err f) h x = uncancelled-Verdict X Y f h

pub plain-bind :
    {A B : Type 0} (r : Result Failure A) (k : A → Result Failure B)
    → plain r ≡ true
    → ((x : A) → plain (k x) ≡ true)
    → plain (r >>= k) ≡ true
unfolding plain
plain-bind (ok x) k h g = g x
plain-bind (err f) k h g = h

plain-deliver :
    (bytes : List ℕ) (ws : List Write) (o : Output) → plain (deliver bytes ws o).0 ≡ true
unfolding plain uncancelled deliver
plain-deliver bytes [] o = refl
plain-deliver bytes (whole ∷ ws) o = refl
plain-deliver bytes (blocked n ∷ ws) o = refl
plain-deliver bytes (broken n ∷ ws) o = refl

module _ (sdk : Sdk) (pieces : Envelope sdk → List (List ℕ)) where
  plain-send_line : (body : List ℕ) (o : Output) → plain (send_line body o).0 ≡ true
  unfolding send_line plain uncancelled
  plain-send_line body o =
      let bytes = body ++ newline ∷ [] in
      elim (Bool-cases (ltb (max_total - o.total) (length bytes))) [
        | inl full ↦ rw (full, send_line) refl
        | inr fits ↦
            rw (fits, send_line)
              (plain-deliver bytes o.writes (record o { total = o.total + length bytes }))
      ]

  pub plain-send : (o : Output) (e : Event sdk) → plain (send sdk pieces o e).0 ≡ true
  unfolding send plain uncancelled
  plain-send o e = elim (Option-cases (write_pieces [] (pieces (envelope sdk pieces o e)))) [
    | inl f ↦ rw (f, send) refl
    | inr (body, f) ↦ rw (f, send) (plain-send_line body o)
  ]

module _ (sdk : Sdk) (a : Adapter sdk) (core : Core) (decode : List ℕ → Option (WireRequest sdk a))
    (pieces : Envelope sdk → List (List ℕ)) where
  pub plain-send_all :
      (es : List (Event sdk)) (o : Output) → plain (send_all sdk a core pieces es o).0 ≡ true
  unfolding send_all plain
  plain-send_all [] o = refl
  plain-send_all (e ∷ es) o = elim (Result-cases (send sdk pieces o e).0) [
    | inl (u, f) ↦ rw (f, send_all) (plain-send_all es (send sdk pieces o e).1)
    | inr (x, f) ↦ rw (f, send_all) (rw f at (plain-send sdk pieces o e))
  ]

  pub plain-provider_result :
      {A : Type 0} (r : Result ProviderError A) → plain (provider_result sdk a core r) ≡ true
  unfolding provider_result plain uncancelled
  plain-provider_result (ok x) = refl
  plain-provider_result (err e) = refl

  pub plain-events_of :
      (check : Bool) (p : Provider) (name : String)
      → plain (events_of sdk a core check p name) ≡ true
  unfolding events_of check_events discover_events plain uncancelled
  plain-events_of true p name =
      plain-bind (provider_result sdk a core p.check) _ (plain-provider_result p.check)
        (λ found. refl)
  plain-events_of false p name =
      plain-bind (provider_result sdk a core p.discover) _ (plain-provider_result p.discover)
        (λ found. ground arith)

  -- The next frame, as the session and the operation beside it read it.
  frame_cases :
      (P : Result Failure (Request sdk a × Input) → Failure → Type 0) (contract : Contract)
      (i : Input)
      → ((f : Failure) → uncancelled f ≡ true → P (err f) f)
      → ((r : Request sdk a) (j : Input)
          → P (ok (r, j)) (
              if same_contract r.contract contract && is_cancel sdk a core decode pieces r.command
              then cancelled
              else protocol))
      → P (next sdk a core decode pieces i) (interruption sdk a core decode pieces contract i)
  unfolding next interruption uncancelled
  frame_cases P contract i failed read = elim (Framed-cases (frame_of i)) [
    | inl (bytes, j, e) ↦
        rw (e, next, interruption)
          elim (Result-cases (parse sdk a decode bytes)) [
            | inl (r, f) ↦ rw f (read r j)
            | inr (u, f) ↦ rw f (failed protocol refl)
          ]
    | inr (inl e) ↦ rw (e, next, interruption) (failed protocol refl)
    | inr (inr (inl e)) ↦ rw (e, next, interruption) (failed unavailable refl)
    | inr (inr (inr e)) ↦ rw (e, next, interruption) (failed protocol refl)
  ]

  pub plain-next : (i : Input) → plain (next sdk a core decode pieces i) ≡ true
  unfolding plain
  plain-next i =
      frame_cases (λ r f. plain r ≡ true) Contract.negotiated_v1 i (λ f h. h) (λ r j. refl)

  -- The host's next frame is a cancellation, in this contract.
  pub record Cancels (contract : Contract) (i : Input) : Type 0 where
    pub request : Request sdk a
    pub rest : Input
    pub read : next sdk a core decode pieces i ≡ ok (request, rest)
    pub agreed : same_contract request.contract contract ≡ true
    pub is_cancelled : request.command ≡ cancel

  is_cancel_lem : (k : Command sdk a) → is_cancel sdk a core decode pieces k ≡ true → k ≡ cancel
  unfolding is_cancel
  is_cancel_lem cancel h = refl
  is_cancel_lem describe h = absurd (cc)
  is_cancel_lem describe_auth h = absurd (cc)
  is_cancel_lem (handshake _ _ _) h = absurd (cc)
  is_cancel_lem (operation _ _ _ _) h = absurd (cc)

  Interrupts : Type 0 → Contract → Input → Result Failure (Request sdk a × Input) → Failure → Type 0
  Interrupts X contract i r f =
      next sdk a core decode pieces i ≡ r → Verdict X (Cancels contract i) (err f)

  pub interruption-Verdict :
      (X : Type 0) (contract : Contract) (i : Input)
      → Verdict X (Cancels contract i) (err (interruption sdk a core decode pieces contract i))
  unfolding Interrupts Verdict
  interruption-Verdict X contract i =
      frame_cases (Interrupts X contract i) contract i
        (λ f h e. uncancelled-Verdict X (Cancels contract i) f h)
        (λ r j e.
          elim (Bool-cases
            (same_contract r.contract contract && is_cancel sdk a core decode pieces r.command)) [
              | inr other ↦ rw other tt
              | inl both ↦ rw both (record {
                request = r;
                rest = j;
                read = e;
                agreed = ground arith;
                is_cancelled = is_cancel_lem r.command (ground arith);
              })
            ])
        refl
