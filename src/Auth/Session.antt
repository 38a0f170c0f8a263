-- ===== src/Auth/Session.antt =====
-- internal/auth/jwt.go: the session tokens. HMAC, base64 and encoding/json are parameters. A moment is a
-- number of nanoseconds since the Unix epoch.
pub mod Issued
pub mod Accepted
use stint.Prelude.{
  ℕ, ◌+◌, ◌/◌, ◌⊎◌, inl, inr, Bool, true, not, ◌||◌, Option, none, some, List, [], ◌∷◌, ◌++◌, ◌==◌,
  leb, if◌then◌else◌,
}
use stint.Prelude.Int.{ℤ, ℤ.pos, ℤ.negsuc}
use stint.Prelude.Text.{Str, codes, str_eq}

pub record Header : Type 0 where
  pub algorithm : Str
  pub token_type : Str

-- `sessionJWTClaims`
pub record Claims : Type 0 where
  pub subject : Str
  pub issued_at : ℤ
  pub expires_at : ℤ

pub record Jwt : Type 0 where
  -- the HMAC with SHA-256 of a text under a secret
  pub hmac : Str → Str → Str
  -- `base64.RawURLEncoding`
  pub encode : Str → Str
  pub decode : Str → Option Str
  -- `json.Marshal` and `json.Unmarshal`
  pub marshal_header : Header → Option Str
  pub unmarshal_header : Str → Option Header
  pub marshal_claims : Claims → Option Str
  pub unmarshal_claims : Str → Option Claims

-- `ErrInvalidJWT` and `ErrExpiredJWT`
pub data SessionError : Type 0 where
  invalid_jwt : SessionError
  expired_jwt : SessionError

-- `(time.Time).Unix`
abbrev pub unix : ℕ → ℕ
unix now = now / 1000000000

abbrev pub dot : Str
dot = codes "."

abbrev pub session_header : Header
session_header = record { algorithm = codes "HS256"; token_type = codes "JWT" }

-- The first piece and the others of `strings.Split(s, ".")`.
unfoldable pub split_dots : Str → Str × List Str
split_dots [] = ([], [])
split_dots (c ∷ s) =
    let (piece, pieces) = split_dots s in
    if c == b'.' then ([], piece ∷ pieces) else (c ∷ piece, pieces)

-- `now >= expires`
abbrev pub is_due : ℕ → ℤ → Bool
is_due now (pos expires) = leb expires now
is_due now (negsuc n) = true

module _ (j : Jwt) where
  -- A part of a token, decoded as JSON.
  unfoldable pub header_of : Str → Option Header
  header_of part = elim (j.decode part) [ none ↦ none | some raw ↦ j.unmarshal_header raw ]

  unfoldable pub claims_of : Str → Option Claims
  claims_of part = elim (j.decode part) [ none ↦ none | some raw ↦ j.unmarshal_claims raw ]

-- The checks of the claims, the last ones.
unfoldable pub check_claims : ℕ → Option Claims → SessionError ⊎ Str
check_claims now none = inl invalid_jwt
check_claims now (some claims) =
    if str_eq claims.subject []
    then inl invalid_jwt
    else if is_due (unix now) claims.expires_at
    then inl expired_jwt
    else inr claims.subject

-- The checks of the header, and then those of the claims.
unfoldable pub check_header : Option Header → SessionError ⊎ Str → SessionError ⊎ Str
check_header none rest = inl invalid_jwt
check_header (some header) rest =
    if not (str_eq header.algorithm (codes "HS256")) || not (str_eq header.token_type (codes "JWT"))
    then inl invalid_jwt
    else rest

module _ (j : Jwt) (secret : Str) where
  -- `signJWT`
  unfoldable pub sign_jwt : Str → Str
  sign_jwt unsigned = j.encode (j.hmac secret unsigned)

  -- `GenerateSessionJWT`, with a `ttl` that is not negative
  unfoldable pub generate_session_jwt : Str → ℕ → ℕ → Option Str
  unfolding sign_jwt
  generate_session_jwt user_id now ttl =
      let session : Claims = record {
        subject = user_id;
        issued_at = pos (unix now);
        expires_at = pos (unix (now + ttl));
      } in
      elim (j.marshal_header session_header) [
        | none ↦ none
        | some header ↦ elim (j.marshal_claims session) [
          | none ↦ none
          | some claims ↦
              let unsigned = j.encode header ++ dot ++ j.encode claims in
              some (unsigned ++ dot ++ sign_jwt unsigned)
        ]
      ]

  -- The checks on the pieces of a token.
  unfoldable pub check_parts : ℕ → Str → List Str → SessionError ⊎ Str
  unfolding sign_jwt header_of claims_of check_claims check_header
  check_parts now first [] = inl invalid_jwt
  check_parts now first (second ∷ []) = inl invalid_jwt
  check_parts now first (second ∷ third ∷ []) =
      if not (str_eq third (sign_jwt (first ++ dot ++ second)))
      then inl invalid_jwt
      else check_header (header_of j first) (check_claims now (claims_of j second))
  check_parts now first (second ∷ third ∷ fourth ∷ parts) = inl invalid_jwt

  -- `VerifySessionJWT`
  unfoldable pub verify_session_jwt : Str → ℕ → SessionError ⊎ Str
  unfolding split_dots check_parts
  verify_session_jwt token now =
      let (first, parts) = split_dots token in check_parts now first parts
