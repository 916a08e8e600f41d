-- ===== src/Github/Client/Budgets.antt =====
-- providers/github/src/client.rs: what a request may cost, and how long it may wait.
use permesh_providers.Shared.{
  ℕ, zero, suc, ◌+◌, ◌*◌, ◌-◌, ◌^◌, ◌≤◌, ◌<◌, max, ◌≡◌, refl, inl, inr, true, List, [], ◌∷◌, Option,
  none, some, if◌then◌else◌, Bool, String, Result, ok, err, length, Bool-cases, Option-cases,
  Result-cases, All, ltb, leb, leb_false→lt, ◌++◌, ◌&&◌, ◌||◌, ◌∙◌, sym, append_assoc,
  length-append, All-append, arith,
}
use permesh_providers.Runtime.Response.{ProviderError}
use permesh_providers.Github.Errors.{max_requests}
use permesh_providers.Github.Fields.{Json}
use permesh_providers.Github.Http.{Headers, Timestamp, Web}
use permesh_providers.Github.Client.{
  Budget, header, retry_after, asked_delay, is_exhausted, reset_time, reset_delay, bounded_delay,
  retry_delay, Received, server_error, retry, after, attempts, get_media, get, url, object,
}

-- The longest sleep, in milliseconds.
abbrev pub longest : ℕ
longest = 60250

-- A delay that is given meets what the server asks for, and the bound.
pub record IsPatient (rfc2822 : String → Option Timestamp) (now : ℕ) (headers : Headers)
    (attempt : ℕ) (limited : Bool) (delay : ℕ) : Type 0 where
  pub bounded : delay ≤ longest
  pub unasked :
      header headers "retry-after" ≡ none → 1000 * (if limited then 60 else 2 ^ attempt) ≤ delay
  pub asked :
      (value : String)
      → header headers "retry-after" ≡ some value
      → (seconds : ℕ) × (retry_after rfc2822 now value ≡ some seconds) × (1000 * seconds ≤ delay)
  pub reset :
      is_exhausted headers ≡ true
      → (time : ℕ) × (reset_time headers ≡ some time) × (1000 * (time - now) ≤ delay)

asked_delay-ok :
    (rfc2822 : String → Option Timestamp) (now : ℕ) (headers : Headers) (attempt : ℕ)
    (limited : Bool) (asked : ℕ) (value : String)
    → asked_delay rfc2822 now headers attempt limited ≡ ok asked
    → header headers "retry-after" ≡ some value
    → retry_after rfc2822 now value ≡ some asked
unfolding asked_delay
asked_delay-ok rfc2822 now headers attempt limited asked value h e = ground arith

asked_delay-none :
    (rfc2822 : String → Option Timestamp) (now : ℕ) (headers : Headers) (attempt : ℕ)
    (limited : Bool) (asked : ℕ)
    → asked_delay rfc2822 now headers attempt limited ≡ ok asked
    → header headers "retry-after" ≡ none
    → asked ≡ (if limited then 60 else 2 ^ attempt)
unfolding asked_delay
asked_delay-none rfc2822 now headers attempt limited asked h e = ground arith

reset_delay-ok :
    (now : ℕ) (headers : Headers) (asked seconds : ℕ)
    → reset_delay now headers asked ≡ ok seconds
    → asked ≤ seconds
unfolding reset_delay
reset_delay-ok now headers asked seconds h = ground arith

reset_delay-time :
    (now : ℕ) (headers : Headers) (asked seconds : ℕ)
    → reset_delay now headers asked ≡ ok seconds
    → is_exhausted headers ≡ true
    → (time : ℕ) × (reset_time headers ≡ some time) × (time - now ≤ seconds)
unfolding reset_delay
reset_delay-time now headers asked seconds h e = elim (Option-cases (reset_time headers)) [
  | inl none_given ↦ ground arith
  | inr (time, given) ↦ (time, given, ground arith)
]

bounded_delay-ok :
    (nanos seconds delay : ℕ)
    → bounded_delay nanos seconds ≡ ok delay
    → (1000 * seconds ≤ delay) × (delay ≤ longest)
unfolding bounded_delay
bounded_delay-ok nanos seconds delay h = ground arith

-- A delay that `retry_delay` gives is at most a minute and a quarter of a second. Where there is a
-- `retry-after` header of visible text, the text is a number of seconds or a date, and the delay is
-- no shorter than those seconds or the time up to that date; where there is none, or none of visible
-- text, it is no shorter than a minute after a rate limit and 2 ^ attempt seconds otherwise. Where
-- the headers say that no request remains, they also tell when the limit is reset, and the delay is
-- no shorter than the time up to then.
pub retry_delay-IsPatient :
    (rfc2822 : String → Option Timestamp) (now nanos : ℕ) (headers : Headers) (attempt : ℕ)
    (limited : Bool) (delay : ℕ)
    → retry_delay rfc2822 (now, nanos) headers attempt limited ≡ ok delay
    → IsPatient rfc2822 now headers attempt limited delay
unfolding retry_delay
retry_delay-IsPatient rfc2822 now nanos headers attempt limited delay h =
    elim (Result-cases (asked_delay rfc2822 now headers attempt limited)) [
      | inl (asked, a) ↦ elim (Result-cases (reset_delay now headers asked)) [
        | inl (seconds, r) ↦
            let within = bounded_delay-ok nanos seconds delay (rw (a, r, retry_delay) at h) in
            record {
              bounded = within.1;
              unasked = λ missing. omega (
                arith,
                within.0,
                reset_delay-ok now headers asked seconds r,
                asked_delay-none rfc2822 now headers attempt limited asked a missing,
              );
              asked = λ value given. (
                asked,
                asked_delay-ok rfc2822 now headers attempt limited asked value a given,
                omega (arith, within.0, reset_delay-ok now headers asked seconds r),
              );
              reset = λ exhausted.
                  let (time, given, le) = reset_delay-time now headers asked seconds r exhausted in
                  (time, given, omega (arith, within.0, le));
            }
        | inr (e, r) ↦ ground arith
      ]
      | inr (e, a) ↦ ground arith
    ]

-- What a request with at most so many attempts makes of the budget.
pub record IsFrugal (left : ℕ) (b b' : Budget) : Type 0 where
  pub grown : b.requests ≤ b'.requests
  pub few : b'.requests ≤ b.requests + left
  pub capped : b'.requests ≤ max max_requests b.requests
  pub counted : b'.sent + b.requests ≡ b.sent + b'.requests
  pub sent : b'.sent ≤ b.sent + left
  pub rows : b'.rows ≡ b.rows
  pub sleeps : List ℕ
  pub slept : b'.slept ≡ sleeps ++ b.slept
  pub short : length sleeps < left
  pub patient : All (λ d. d ≤ longest) sleeps

module _ (json : Json) (web : Web) where
  retry_cases :
      (P : Budget → Type 0) (again : ℕ → Result ProviderError (Headers × json.Value) × Budget)
      (attempt : ℕ) (b : Budget) (status : ℕ) (headers : Headers) (limited : Bool)
      → P b
      → ((delay : ℕ) → delay ≤ longest → attempt < 2 → P (again delay).1)
      → P (retry json web again attempt b status headers limited).1
  unfolding retry
  retry_cases P again attempt b status headers limited stay sleep =
      elim (Bool-cases (ltb attempt 2 && (limited || server_error status))) [
        | inr stop ↦ rw stop stay
        | inl go ↦
            rw go
              elim (Result-cases
                (retry_delay web.rfc2822 (web.clock b.sent) headers attempt limited)) [
                  | inr (x, f) ↦ rw f stay
                  | inl (delay, f) ↦ rw f (
                      sleep delay
                        (retry_delay-IsPatient web.rfc2822 _ _ headers attempt limited delay
                          f).bounded
                        (ground arith))
                ]
      ]

  after_cases :
      (P : Budget → Type 0) (again : ℕ → Result ProviderError (Headers × json.Value) × Budget)
      (attempt : ℕ) (b : Budget) (r : Result ProviderError (Received json web))
      → P b
      → ((delay : ℕ) → delay ≤ longest → attempt < 2 → P (again delay).1)
      → P (after json web again attempt b r).1
  unfolding after
  after_cases P again attempt b (err e) stay sleep = stay
  after_cases P again attempt b (ok r) stay sleep = elim (Option-cases r.value) [
    | inr (v, e) ↦ rw e stay
    | inl e ↦ rw e (retry_cases P again attempt b _ _ _ stay sleep)
  ]

  attempts-IsFrugal :
      (left attempt : ℕ) (u : web.Url) (media : String) (b : Budget)
      → left + attempt ≡ 3
      → 0 < left
      → IsFrugal left b (attempts json web left attempt u media b).1
  unfolding attempts
  attempts-IsFrugal zero attempt u media b h pos = absurd (omega arith)
  attempts-IsFrugal (suc left) attempt u media b h pos =
      elim (Bool-cases (leb max_requests b.requests)) [
        | inl spent ↦ rw spent (record {
          grown = omega arith;
          few = omega arith;
          capped = omega arith;
          counted = omega arith;
          sent = omega arith;
          rows = refl;
          sleeps = [];
          slept = refl;
          short = omega arith;
          patient = tt;
        })
        | inr open_still ↦
            let low = leb_false→lt max_requests b.requests open_still in
            rw open_still (
              after_cases (IsFrugal (suc left) b) _ attempt
                (record b { requests = b.requests + 1; sent = b.sent + 1 }) _
                (record {
                  grown = omega arith;
                  few = omega arith;
                  capped = omega arith;
                  counted = omega arith;
                  sent = omega arith;
                  rows = refl;
                  sleeps = [];
                  slept = refl;
                  short = omega arith;
                  patient = tt;
                })
                (λ delay bounded early.
                  let again =
                    attempts-IsFrugal left (attempt + 1) u media
                      (record b {
                        requests = b.requests + 1;
                        sent = b.sent + 1;
                        slept = delay ∷ b.slept;
                      })
                      (omega arith) (omega arith) in
                  record {
                    grown = omega (arith, again.grown);
                    few = omega (arith, again.few);
                    capped = omega (arith, again.capped);
                    counted = omega (arith, again.counted);
                    sent = omega (arith, again.sent);
                    rows = again.rows;
                    sleeps = again.sleeps ++ delay ∷ [];
                    slept = again.slept ∙ sym (append_assoc again.sleeps (delay ∷ []) b.slept);
                    short = omega (arith, again.short, length-append again.sleeps (delay ∷ []));
                    patient = All-append _ again.sleeps (delay ∷ []) again.patient (bounded, tt);
                  }))
      ]

  -- Whatever the server answers, a request is sent at most three times; the budget counts it exactly
  -- as often as it is sent, and is not taken beyond the limit on the requests of a run; the sleeps
  -- are at most two, each for at most a minute and a quarter of a second; and no rows are used up.
  pub get_media-IsFrugal :
      (u : web.Url) (media : String) (b : Budget) → IsFrugal 3 b (get_media json web u media b).1
  unfolding get_media
  get_media-IsFrugal u media b = attempts-IsFrugal 3 0 u media b (omega arith) (omega arith)

  pub get-IsFrugal : (u : web.Url) (b : Budget) → IsFrugal 3 b (get json web u b).1
  unfolding get
  get-IsFrugal u b = get_media-IsFrugal u "application/vnd.github+json" b

  pub object-requests :
      (segments : List String) (b : Budget)
      → ((object json web segments b).1.requests ≤ max max_requests b.requests)
        × ((object json web segments b).1.rows ≡ b.rows)
        × ((object json web segments b).1.sent + b.requests
            ≡ b.sent + (object json web segments b).1.requests)
  unfolding object
  object-requests segments b = elim (Result-cases (url json web segments [])) [
    | inr (e, f) ↦ rw (f, object) (omega arith, refl, refl)
    | inl (u, f) ↦
        let frugal = get-IsFrugal u b in
        rw (f, object)
          elim (Result-cases (get json web u b).0) [
            | inr (e, g) ↦ rw g (frugal.capped, frugal.rows, frugal.counted)
            | inl (v, g) ↦ rw g (frugal.capped, frugal.rows, frugal.counted)
          ]
  ]
