-- ===== src/Github/Protocol/Limitations.antt =====
-- providers/github/src/protocol/response.rs: what a collection says is published as what it means.
use Prim.Native.Char.{code}
use permesh_providers.Shared.{
  ℕ, ◌≡◌, refl, sym, ap, ◌∙◌, inl, inr, Bool, true, false, ◌||◌, List, [], ◌∷◌, ◌++◌, append_assoc,
  append-nil, String, if◌then◌else◌, any, codes, ◌==◌, ==_sound, string_eq, Bool-cases, arith,
}
use permesh_providers.Shared.Codes.{among, among_cases, among_end, codes_from-among}
use permesh_providers.Shared.Strings.{◌+++◌, is_prefix}
use permesh_providers.Github.Errors.{visibility, message_of, error}
use permesh_providers.Github.Records.{Collection, fail}
use permesh_providers.Github.Protocol.{reversed, ends_with, limitation_code, limitations}

-- The text that `fail` records.
abbrev limitation : String → String → String
limitation endpoint code = "GitHub " +++ endpoint +++ ": " +++ message_of code

codes-append : (s t : String) → codes (s +++ t) ≡ codes s ++ codes t
unfolding ◌+++◌
codes-append String.[] t = refl
codes-append (String.◌∷◌ c s) t = ap (λ r. code c ∷ r) (codes-append s t)

reversed-append : (s t : List ℕ) → reversed (s ++ t) ≡ reversed t ++ reversed s
unfolding reversed
reversed-append [] t = sym (append-nil (reversed t))
reversed-append (c ∷ s) t =
    ap (λ r. r ++ c ∷ []) (reversed-append s t) ∙ append_assoc (reversed t) (reversed s) (c ∷ [])

-- The end of a text is read first.
ends-append :
    (p m suffix : String)
    → ends_with (p +++ m) suffix
      ≡ is_prefix (reversed (codes suffix)) (reversed (codes m) ++ reversed (codes p))
unfolding ends_with
ends-append p m suffix =
    ap (λ s. is_prefix (reversed (codes suffix)) s)
      (ap reversed (codes-append p m) ∙ reversed-append (codes p) (codes m))

format_assoc : (s t u : String) → s +++ (t +++ u) ≡ (s +++ t) +++ u
unfolding ◌+++◌
format_assoc String.[] t u = refl
format_assoc (String.◌∷◌ c s) t u = ap (λ r. String.◌∷◌ c r) (format_assoc s t u)

-- The reversed start of a limitation.
abbrev start : String → List ℕ
start endpoint = reversed (codes (("GitHub " +++ endpoint) +++ ": "))

limitation-ends :
    (endpoint c suffix : String)
    → ends_with (limitation endpoint c) suffix
      ≡ is_prefix (reversed (codes suffix)) (reversed (codes (message_of c)) ++ start endpoint)
limitation-ends endpoint c suffix =
    ap (λ s. ends_with s suffix)
      (format_assoc "GitHub " endpoint (": " +++ message_of c)
        ∙ format_assoc ("GitHub " +++ endpoint) ": " (message_of c))
    ∙ ends-append (("GitHub " +++ endpoint) +++ ": ") (message_of c) suffix

-- A text that does not end like this one is another one.
not_shown :
    (value m : String) (texts : List String)
    → ends_with value m ≡ true
    → any (λ v. ends_with v m) texts ≡ false
    → any (λ v. v == value) texts ≡ false
not_shown value m [] e h = refl
not_shown value m (v ∷ texts) e h = elim (Bool-cases (v == value)) [
  | inl same ↦ let is : v ≡ value = ==_sound same in let ends = rw is at h in ground arith
  | inr other ↦ rw other (not_shown value m texts e (ground arith))
]

-- What is published of a text by how it ends: like which of the messages.
by_end : Bool → Bool → Bool → Bool → String
by_end forbidden not_found rate limit =
    if forbidden || not_found
    then "permission_denied"
    else if rate
    then "rate_limited"
    else if limit
    then "page_limit"
    else "unknown"

-- Whether every text that ends with one message ends with another.
Decides : String → String → Bool → Type 0
Decides c other b =
    (r : List ℕ)
    → is_prefix (reversed (codes (message_of other))) (reversed (codes (message_of c)) ++ r) ≡ b

Told : String → Bool → Bool → Bool → Bool → Type 0
Told c f n r l =
    (any (λ v. ends_with v (message_of c)) visibility ≡ false)
    × Decides c c true
    × Decides c "forbidden" f
    × Decides c "not_found" n
    × Decides c "rate_limit" r
    × Decides c "limit" l

published :
    (endpoint c : String) (f n r l : Bool)
    → Told c f n r l
    → limitation_code (limitation endpoint c) ≡ by_end f n r l
unfolding limitation_code by_end Decides Told
published endpoint c f n r l (hidden, own, df, dn, dr, dl) =
    let ends = λ (other : String). limitation-ends endpoint c (message_of other) in
    let e0 : any (λ v. v == limitation endpoint c) visibility ≡ false =
      not_shown (limitation endpoint c) (message_of c) visibility (ends c ∙ own (start endpoint))
        hidden in
    let e1 = ends "forbidden" ∙ df (start endpoint) in
    let e2 = ends "not_found" ∙ dn (start endpoint) in
    let e3 = ends "rate_limit" ∙ dr (start endpoint) in
    let e4 = ends "limit" ∙ dl (start endpoint) in rw (e0, e1, e2, e3, e4) refl

-- The code that the host gets for an error.
unfoldable pub reported : String → String
reported code =
    if code == "forbidden" || code == "not_found"
    then "permission_denied"
    else if code == "rate_limit"
    then "rate_limited"
    else if code == "limit"
    then "page_limit"
    else "unknown"

-- The codes whose messages differ from that of any other code.
abbrev known : List String
known =
    "forbidden" ∷ "not_found" ∷ "rate_limit" ∷ "limit" ∷ "configuration" ∷ "unauthorized"
    ∷ "timeout" ∷ "transport" ∷ "pagination" ∷ "malformed" ∷ "membership" ∷ "discovery" ∷ "conflict"
    ∷ "clock" ∷ []

limitation_code-limitation :
    (endpoint code : String) → limitation_code (limitation endpoint code) ≡ reported code
unfolding by_end Decides Told is_prefix reversed message_of ends_with reported
limitation_code-limitation endpoint code =
    let told = λ (c : String) (t : Told c false false false false).
      published endpoint c false false false false t in
    among_cases (λ c. limitation_code (limitation endpoint c) ≡ reported c) known code
      (
        published endpoint "forbidden" true false false false
            (refl, λ r. refl, λ r. refl, λ r. refl, λ r. refl, λ r. refl),
        (
          published endpoint "not_found" false true false false
              (refl, λ r. refl, λ r. refl, λ r. refl, λ r. refl, λ r. refl),
          (
            published endpoint "rate_limit" false false true false
                (refl, λ r. refl, λ r. refl, λ r. refl, λ r. refl, λ r. refl),
            (
              published endpoint "limit" false false false true
                  (refl, λ r. refl, λ r. refl, λ r. refl, λ r. refl, λ r. refl),
              (
                told "configuration" (refl, λ r. refl, λ r. refl, λ r. refl, λ r. refl, λ r. refl),
                (
                  told "unauthorized" (refl, λ r. refl, λ r. refl, λ r. refl, λ r. refl, λ r. refl),
                  (
                    told "timeout" (refl, λ r. refl, λ r. refl, λ r. refl, λ r. refl, λ r. refl),
                    (
                      told "transport"
                          (refl, λ r. refl, λ r. refl, λ r. refl, λ r. refl, λ r. refl),
                      (
                        told "pagination"
                            (refl, λ r. refl, λ r. refl, λ r. refl, λ r. refl, λ r. refl),
                        (
                          told "malformed"
                              (refl, λ r. refl, λ r. refl, λ r. refl, λ r. refl, λ r. refl),
                          (
                            told "membership"
                                (refl, λ r. refl, λ r. refl, λ r. refl, λ r. refl, λ r. refl),
                            (
                              told "discovery"
                                  (refl, λ r. refl, λ r. refl, λ r. refl, λ r. refl, λ r. refl),
                              (
                                told "conflict"
                                    (refl, λ r. refl, λ r. refl, λ r. refl, λ r. refl, λ r. refl),
                                (
                                  told "clock"
                                      (refl, λ r. refl, λ r. refl, λ r. refl, λ r. refl, λ r. refl),
                                  tt,
                                ),
                              ),
                            ),
                          ),
                        ),
                      ),
                    ),
                  ),
                ),
              ),
            ),
          ),
        ),
      )
      (λ other.
        let (
          n₁,
          (n₂, (n₃, (n₄, (n₅, (n₆, (n₇, (n₈, (n₉, (n₁₀, (n₁₁, (n₁₂, (n₁₃, (n₁₄, u))))))))))))),
        ) =
          other in
        let message : message_of code ≡ message_of "http" =
          rw (n₅, n₆, n₁, n₂, n₃, n₇, n₈, n₄, n₉, n₁₀, n₁₁, n₁₂, n₁₃, n₁₄) refl in
        let unknown : reported code ≡ "unknown" = rw (n₁, n₂, n₃, n₄) refl in
        ap (λ m. limitation_code ("GitHub " +++ endpoint +++ ": " +++ m)) message
        ∙ told "http" (refl, λ r. refl, λ r. refl, λ r. refl, λ r. refl, λ r. refl)
        ∙ sym unknown)

-- What a collection is told to leave out, at whatever endpoint and for whatever error of the
-- provider, leaves its snapshot incomplete, and the host gets the code that stands for the error
-- among the published limitations, although the collection keeps only a text: one code for what is
-- denied or not visible, one for a rate limit, one for a safety limit, and one for all others.
pub fail-published :
    (endpoint code : String) (c : Collection)
    → ((fail endpoint (error code) c).snapshot.complete ≡ false)
      × (any
            (λ r. r == reported code)
            (limitations (fail endpoint (error code) c).snapshot.limitations)
          ≡ true)
unfolding fail error limitations
fail-published endpoint code c =
    let said = limitation endpoint code in
    let before = c.snapshot.limitations in
    let kept : among said (if among said before then before else before ++ said ∷ []) ≡ true =
      elim (Bool-cases (among said before)) [
        | inl old ↦ rw old old
        | inr fresh ↦ rw fresh (among_end said before)
      ] in
    let told = codes_from-among limitation_code said [] _ kept in
    (refl, rw (limitation_code-limitation endpoint code) at told)
