-- ===== src/Auth/Session/Accepted.antt =====
-- Only tokens that were signed with the secret are accepted.
use stint.Prelude.{
  ℕ, ◌≡◌, ◌⊎◌, inl, inr, refl, ◌∙◌, ap, false, Option, none, some, List, [], ◌∷◌, ◌++◌,
  append_assoc, ◌==◌, arith, Bool-cases,
}
use stint.Prelude.Text.{Str, codes, str_eq, str_eq→eq}
use stint.Auth.Session.{
  Header, Claims, Jwt, SessionError, unix, dot, session_header, split_dots, is_due, sign_jwt,
  header_of, claims_of, check_claims, check_header, check_parts, verify_session_jwt,
}

abbrev joined : Str → List Str → Str
joined p [] = p
joined p (q ∷ qs) = p ++ dot ++ joined q qs

joined-cons : (c : ℕ) (p : Str) (ps : List Str) → joined (c ∷ p) ps ≡ c ∷ joined p ps
joined-cons c p [] = refl
joined-cons c p (q ∷ qs) = refl

-- `strings.Split` loses nothing.
split_dots-joined : (s : Str) → joined (split_dots s).0 (split_dots s).1 ≡ s
unfolding split_dots
split_dots-joined [] = refl
split_dots-joined (c ∷ s) = elim (Bool-cases (c == b'.')) [
  | inl e ↦ let same : c ≡ b'.' = ground arith in rw (e, split_dots-joined s, same) refl
  | inr e ↦ rw (e, joined-cons c (split_dots s).0 (split_dots s).1, split_dots-joined s) refl
]

token_assoc : (a b c : Str) → a ++ dot ++ (b ++ dot ++ c) ≡ a ++ dot ++ b ++ dot ++ c
token_assoc a b c =
    rw
      (
        append_assoc (a ++ dot ++ b) dot c,
        append_assoc (a ++ dot) b (dot ++ c),
        append_assoc b dot c,
      )
      refl

-- What the checks of the claims let through.
pub record IsValid (now : ℕ) (user : Str) (claims : Claims) : Type 0 where
  pub subject_lem : claims.subject ≡ user
  pub named : str_eq user [] ≡ false
  pub in_time : is_due (unix now) claims.expires_at ≡ false

check_claims-IsValid :
    (now : ℕ) (user : Str) (o : Option Claims)
    → check_claims now o ≡ inr user
    → (claims : Claims) × (o ≡ some claims) × IsValid now user claims
unfolding check_claims
check_claims-IsValid now user none h = absurd (cc)
check_claims-IsValid now user (some claims) h = elim (Bool-cases (str_eq claims.subject [])) [
  | inl e ↦ absurd (cc (rw e at h))
  | inr e ↦ elim (Bool-cases (is_due (unix now) claims.expires_at)) [
    | inl d ↦ absurd (cc (rw (e, d) at h))
    | inr d ↦
        let same : claims.subject ≡ user = cc (rw (e, d) at h) in
        (claims, refl, record { subject_lem = same; named = rw (← same) e; in_time = d })
  ]
]

check_header_lem :
    (user : Str) (o : Option Header) (rest : SessionError ⊎ Str)
    → check_header o rest ≡ inr user
    → (o ≡ some session_header) × (rest ≡ inr user)
unfolding check_header
check_header_lem user none rest h = absurd (cc)
check_header_lem user (some header) rest h =
    elim (Bool-cases (str_eq header.algorithm (codes "HS256"))) [
      | inr a ↦ absurd (cc (rw a at h))
      | inl a ↦ elim (Bool-cases (str_eq header.token_type (codes "JWT"))) [
        | inr t ↦ absurd (cc (rw (a, t) at h))
        | inl t ↦ (cc (str_eq→eq _ _ a, str_eq→eq _ _ t), rw (a, t) at h)
      ]
    ]

module _ (j : Jwt) (secret : Str) (now : ℕ) (user : Str) where
  -- A text in two parts with their signature, whose header is that of a session and whose claims are valid.
  pub record IsSigned (token : Str) : Type 0 where
    pub first : Str
    pub second : Str
    pub claims : Claims
    pub text : token ≡ first ++ dot ++ second ++ dot ++ sign_jwt j secret (first ++ dot ++ second)
    pub header_lem : header_of j first ≡ some session_header
    pub claims_lem : claims_of j second ≡ some claims
    pub valid : IsValid now user claims

  check_parts-IsSigned :
      (first : Str) (parts : List Str)
      → check_parts j secret now first parts ≡ inr user
      → IsSigned (joined first parts)
  unfolding check_parts
  check_parts-IsSigned first [] h = absurd (cc)
  check_parts-IsSigned first (second ∷ []) h = absurd (cc)
  check_parts-IsSigned first (second ∷ third ∷ []) h =
      elim (Bool-cases (str_eq third (sign_jwt j secret (first ++ dot ++ second)))) [
        | inr e ↦ absurd (cc (rw e at h))
        | inl e ↦
            let (header_lem, rest) =
              check_header_lem user (header_of j first) (check_claims now (claims_of j second))
                (rw e at h) in
            let (claims, claims_lem, valid) =
              check_claims-IsValid now user (claims_of j second) rest in
            record {
              first = first;
              second = second;
              claims = claims;
              text =
                  token_assoc first second third
                  ∙ ap (λ c. first ++ dot ++ second ++ dot ++ c) (str_eq→eq _ _ e);
              header_lem = header_lem;
              claims_lem = claims_lem;
              valid = valid;
            }
      ]
  check_parts-IsSigned first (second ∷ third ∷ fourth ∷ parts) h = absurd (cc)

  -- A token is accepted only if it consists of two parts and their signature under the secret, its header
  -- names the algorithm that was used, and its claims name the user, who is not empty, and an expiry that
  -- is still to come.
  pub verify_session_jwt-IsSigned :
      (token : Str) → verify_session_jwt j secret token now ≡ inr user → IsSigned token
  unfolding verify_session_jwt
  verify_session_jwt-IsSigned token h =
      rw (← split_dots-joined token)
        (check_parts-IsSigned (split_dots token).0 (split_dots token).1 h)
