-- ===== src/Cloudflare/Client/Totals.antt =====
-- providers/cloudflare/src/client.rs: what a response says of its page and of the listing.
use permesh_providers.Shared.{
  ℕ, ◌≡◌, ◌⊎◌, refl, inl, inr, Bool, true, false, List, Option, none, some, String, ok,
  Option-cases, Result-cases, arith,
}
use mathlib.Core.Path.{subst, sym}
use permesh_providers.Http.{Reply}
use permesh_providers.Cloudflare.Values.{Json}
use permesh_providers.Cloudflare.Client.{
  by_count, by_pages, clash, more_of, follows, agrees, total_of, read_info, known_of,
}

-- What a number says, where there is one.
abbrev pub Says : Option ℕ → (ℕ → Type 0) → Type 0
Says none P = Unit {0}
Says (some n) P = P n

-- The rows are as many as the total says, and the page is the last one.
pub record IsTotal (page : ℕ) (total pages : Option ℕ) (received : ℕ) : Type 0 where
  pub by_total : Says total (λ n. received ≡ n)
  pub by_page : Says pages (λ n. ((n ≡ 0) × (received ≡ 0)) ⊎ (n ≡ page))

pub Says-map :
    (o : Option ℕ) (P Q : ℕ → Type 0) → ((n : ℕ) → o ≡ some n → P n → Q n) → Says o P → Says o Q
Says-map none P Q f h = tt
Says-map (some n) P Q f h = f n refl h

pub says_known : (o : Option ℕ) (P : ℕ → Type 0) (n : ℕ) → o ≡ some n → Says o P → P n
says_known o P n e h = let at : Says (some n) P = subst (λ x. Says x P) e h in at

says_at : (o o' : Option ℕ) (P : ℕ → Type 0) → o ≡ o' → Says o' P → Says o P
says_at o o' P e h = subst (λ x. Says x P) (sym e) h

-- What stays of a total that is known.
abbrev pub Stays : Option ℕ → Option ℕ → Type 0
Stays before later = Says before (λ n. later ≡ some n)

stays : (o : Option ℕ) → Stays o o
stays none = tt
stays (some n) = refl

module _ (json : Json) (joins : String → Bool)
    (reply : ℕ → String → List (String × String) → Reply) where
  pub follows-IsTotal :
      (total pages : Option ℕ) (page received count : ℕ)
      → follows json joins reply total pages page received count ≡ ok false
      → IsTotal page total pages received
  unfolding follows by_count by_pages clash more_of
  follows-IsTotal none none page received count h = record { by_total = tt; by_page = tt }
  follows-IsTotal (some t) none page received count h = record {
    by_total = ground arith;
    by_page = tt;
  }
  follows-IsTotal none (some p) page received count h = record {
    by_total = tt;
    by_page = ground arith;
  }
  follows-IsTotal (some t) (some p) page received count h = record {
    by_total = ground arith;
    by_page = ground arith;
  }

  -- A number that an object has under a key.
  unfoldable pub number_at : json.Value → String → Option ℕ
  number_at info key = elim (json.get info key) [ none ↦ none | some v ↦ json.as_u64 v ]

  -- A number of a response's `result_info`.
  unfoldable pub stated : json.Value → String → Option ℕ
  stated value key = elim (json.get value "result_info") [
    | none ↦ none
    | some info ↦ number_at info key
  ]

  -- What a page says of itself.
  pub record FitsPage (page count : ℕ) (value : json.Value) : Type 0 where
    pub number : Says (stated value "page") (λ n. n ≡ page)
    pub size : Says (stated value "per_page") (λ n. n ≡ 50)
    pub count_said : Says (stated value "count") (λ n. n ≡ count)

  stated-none :
      (value : json.Value) (key : String)
      → json.get value "result_info" ≡ none
      → stated value key ≡ none
  unfolding stated
  stated-none value key e = rw (e, stated) refl

  stated-some :
      (value info : json.Value) (key : String)
      → json.get value "result_info" ≡ some info
      → stated value key ≡ number_at info key
  unfolding stated
  stated-some value info key e = rw (e, stated) refl

  agrees-Says :
      (info : json.Value) (key : String) (expected : ℕ)
      → agrees json joins reply info key expected ≡ true
      → Says (number_at info key) (λ n. n ≡ expected)
  unfolding agrees number_at
  agrees-Says info key expected h = elim (Option-cases (number_at info key)) [
    | inl e ↦ says_at _ none _ e tt
    | inr (n, e) ↦ says_at _ (some n) _ e (ground arith)
  ]

  total_Stays :
      (info : json.Value) (key : String) (before later : Option ℕ)
      → total_of json joins reply info key before ≡ ok later
      → Stays before later
  unfolding total_of
  total_Stays info key none later h = tt
  total_Stays info key (some old) later h = ground arith

  total_of-Says :
      (info : json.Value) (key : String) (before later : Option ℕ)
      → total_of json joins reply info key before ≡ ok later
      → Says (number_at info key) (λ n. later ≡ some n) × Stays before later
  unfolding total_of number_at
  total_of-Says info key before later h = elim (Option-cases (json.get info key)) [
    | inl e ↦
        let is : before ≡ later = ground arith in
        let unsaid : number_at info key ≡ none = rw (e, number_at) refl in
        (says_at _ none _ unsaid tt, subst (Stays before) is (stays before))
    | inr (v, e) ↦ elim (Option-cases (json.as_u64 v)) [
      | inl f ↦ absurd (ground arith)
      | inr (n, f) ↦
          let is : later ≡ some n = ground arith in
          let said : number_at info key ≡ some n = rw (e, f, number_at) refl in
          (says_at _ (some n) _ said is, total_Stays info key before later h)
    ]
  ]

  -- What `known_of` keeps and what it learns of a response.
  pub record Learns (page count : ℕ) (value : json.Value) (t p t' p' : Option ℕ) : Type 0 where
    pub total : Says (stated value "total_count") (λ n. t' ≡ some n)
    pub pages : Says (stated value "total_pages") (λ n. p' ≡ some n)
    pub fits : FitsPage page count value
    pub total_stays : Stays t t'
    pub pages_stay : Stays p p'

  pub known_of-Learns :
      (page count : ℕ) (value : json.Value) (t p t' p' : Option ℕ)
      → known_of json joins reply page count value t p ≡ ok (t', p')
      → Learns page count value t p t' p'
  unfolding known_of read_info
  known_of-Learns page count value t p t' p' h =
      elim (Option-cases (json.get value "result_info")) [
        | inl e ↦
            let is_t : t ≡ t' = ground arith in
            let is_p : p ≡ p' = ground arith in
            let unsaid : (key : String) (P : ℕ → Type 0) → Says (stated value key) P =
              λ key P. says_at _ none P (stated-none value key e) tt in
            record {
              total = unsaid "total_count" _;
              pages = unsaid "total_pages" _;
              fits = record {
                number = unsaid "page" _;
                size = unsaid "per_page" _;
                count_said = unsaid "count" _;
              };
              total_stays = subst (Stays t) is_t (stays t);
              pages_stay = subst (Stays p) is_p (stays p);
            }
        | inr (info, e) ↦ elim (Result-cases (total_of json joins reply info "total_count" t)) [
          | inr (x, f) ↦ absurd (ground arith)
          | inl (a, f) ↦ elim (Result-cases (total_of json joins reply info "total_pages" p)) [
            | inr (x, g) ↦ absurd (ground arith)
            | inl (b, g) ↦
                let is_a : a ≡ t' = ground arith in
                let is_b : b ≡ p' = ground arith in
                let (total, total_stays) = total_of-Says info "total_count" t t' (rw is_a at f) in
                let (pages, pages_stay) = total_of-Says info "total_pages" p p' (rw is_b at g) in
                let said : (key : String) (P : ℕ → Type 0)
                    → Says (number_at info key) P
                    → Says (stated value key) P =
                  λ key P h. says_at _ (number_at info key) P (stated-some value info key e) h in
                record {
                  total = said "total_count" _ total;
                  pages = said "total_pages" _ pages;
                  fits = record {
                    number = said "page" _ (agrees-Says info "page" page (ground arith));
                    size = said "per_page" _ (agrees-Says info "per_page" 50 (ground arith));
                    count_said = said "count" _ (agrees-Says info "count" count (ground arith));
                  };
                  total_stays = total_stays;
                  pages_stay = pages_stay;
                }
          ]
        ]
      ]
