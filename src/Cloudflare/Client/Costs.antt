-- ===== src/Cloudflare/Client/Costs.antt =====
-- providers/cloudflare/src/client.rs: what a request may cost.
use permesh_providers.Shared.{
  ℕ, zero, suc, ◌+◌, ◌≤◌, ◌<◌, ◌⊎◌, ◌≡◌, refl, sym, ◌∙◌, inl, inr, Bool, ◌||◌, List, [], ◌∷◌, ◌++◌,
  append_assoc, String, ltb, eqb, length, length-append, All, All-append, Result, ok, Bool-cases,
  Result-cases, arith,
}
use permesh_providers.Runtime.Response.{ProviderError}
use permesh_providers.Http.{Headers, Reply}
use permesh_providers.Cloudflare.Values.{Json}
use permesh_providers.Cloudflare.Errors.{max_requests}
use permesh_providers.Cloudflare.Client.{
  Budget, Received, exchange, server_error, delay_of, after, attempts, request,
}

-- The longest sleep, in milliseconds.
abbrev pub longest : ℕ
longest = 30_000

delay_of-le-longest :
    (status : ℕ) (headers : Headers) (attempt delay : ℕ)
    → attempt < 2
    → delay_of status headers attempt ≡ ok delay
    → delay ≤ longest
unfolding delay_of
delay_of-le-longest status headers zero delay early h = ground arith
delay_of-le-longest status headers (suc zero) delay early h = ground arith
delay_of-le-longest status headers (suc (suc n)) delay early h = absurd (omega arith)

-- What a request with at most so many attempts makes of the budget.
pub record IsModest (left : ℕ) (b b' : Budget) : Type 0 where
  pub rows : b'.rows ≡ b.rows
  pub few : b'.sent ≤ b.sent + left
  pub counted : b'.sent + b.requests ≤ b.sent + b'.requests
  pub capped : (b'.sent ≡ b.sent) ⊎ (b'.sent + b.requests ≤ b.sent + max_requests)
  pub sleeps : List ℕ
  pub slept : b'.slept ≡ sleeps ++ b.slept
  pub short : length sleeps ≤ left
  pub patient : All (λ d. d ≤ longest) sleeps

module _ (json : Json) (joins : String → Bool)
    (reply : ℕ → String → List (String × String) → Reply) where
  after_cases :
      (P : Budget → Type 0) (again : ℕ → Result ProviderError json.Value × Budget) (attempt : ℕ)
      (b : Budget) (r : Received)
      → attempt < 3
      → P b
      → ((delay : ℕ) → delay ≤ longest → P (again delay).1)
      → P (after json again attempt b r).1
  unfolding after
  after_cases P again attempt b r in_time stay sleep =
      elim (Bool-cases (eqb r.status 429 || server_error r.status)) [
        | inr other ↦ rw other stay
        | inl busy ↦ rw busy elim (Bool-cases (eqb attempt 2)) [
          | inl last ↦ rw last stay
          | inr early ↦ rw early elim (Result-cases (delay_of r.status r.headers attempt)) [
            | inr (e, f) ↦ rw f stay
            | inl (delay, f) ↦ rw f (
                sleep delay (delay_of-le-longest r.status r.headers attempt delay (ground arith) f))
          ]
        ]
      ]

  attempts-IsModest :
      (left attempt : ℕ) (path : String) (query : List (String × String)) (b : Budget)
      → left + attempt ≡ 3
      → IsModest left b (attempts json joins reply left attempt path query b).1
  unfolding attempts
  attempts-IsModest zero attempt path query b h = record {
    rows = refl;
    few = omega arith;
    counted = omega arith;
    capped = inl refl;
    sleeps = [];
    slept = refl;
    short = omega arith;
    patient = tt;
  }
  attempts-IsModest (suc left) attempt path query b h =
      elim (Bool-cases (ltb max_requests (b.requests + 1))) [
        | inl spent ↦ rw spent (record {
          rows = refl;
          few = omega arith;
          counted = omega arith;
          capped = inl refl;
          sleeps = [];
          slept = refl;
          short = omega arith;
          patient = tt;
        })
        | inr allowed ↦
            let low : b.requests + 1 ≤ max_requests = ground arith in
            let once : IsModest (suc left) b
                (record b { requests = b.requests + 1; sent = b.sent + 1 }) =
              record {
                rows = refl;
                few = omega arith;
                counted = omega arith;
                capped = inr (omega (arith, low));
                sleeps = [];
                slept = refl;
                short = omega arith;
                patient = tt;
              } in
            rw allowed elim (Result-cases (exchange (reply (b.sent + 1) path query))) [
              | inr (e, f) ↦ rw f once
              | inl (r, f) ↦ rw f (
                  after_cases (IsModest (suc left) b) _ attempt _ r (omega arith) once
                    (λ delay bounded.
                      let again =
                        attempts-IsModest left (attempt + 1) path query
                          (record b {
                            requests = b.requests + 1;
                            sent = b.sent + 1;
                            slept = delay ∷ b.slept;
                          })
                          (omega arith) in
                      record {
                        rows = again.rows;
                        few = omega (arith, again.few);
                        counted = omega (arith, again.counted);
                        capped = elim again.capped [
                          | inl e ↦ inr (omega (arith, low, e))
                          | inr e ↦ inr (omega (arith, e))
                        ];
                        sleeps = again.sleeps ++ delay ∷ [];
                        slept = again.slept ∙ sym (append_assoc again.sleeps (delay ∷ []) b.slept);
                        short = omega (arith, again.short, length-append again.sleeps (delay ∷ []));
                        patient =
                            All-append _ again.sleeps (delay ∷ []) again.patient (bounded, tt);
                      }))
            ]
      ]

  -- Whatever the server answers, a request is sent at most three times; each time that it is sent is
  -- counted; it is sent no more often than the requests of the run still allow; the sleeps are at
  -- most three, each of at most thirty seconds; and no rows are used up.
  pub request-IsModest :
      (path : String) (query : List (String × String)) (b : Budget)
      → IsModest 3 b (request json joins reply path query b).1
  unfolding request
  request-IsModest path query b = elim (Bool-cases (joins path)) [
    | inl good ↦ rw good (attempts-IsModest 3 0 path query b (omega arith))
    | inr bad ↦ rw bad (record {
      rows = refl;
      few = omega arith;
      counted = omega arith;
      capped = inl refl;
      sleeps = [];
      slept = refl;
      short = omega arith;
      patient = tt;
    })
  ]
