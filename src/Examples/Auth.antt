-- ===== src/Examples/Auth.antt =====
-- Examples of internal/auth: a hash without collisions, a request with a bearer header, and a session.
use stint.Prelude.{
  ◌+◌, ◌-◌, ◌≡◌, ◌↔◌, ap, ◌&&◌, inr, refl, true, false, Option, none, some, [], ◌∷◌, ◌++◌, arith,
  if◌then◌else◌,
}
use mathlib.Core.Option.{some-injective}
use stint.Prelude.Int.{ℤ, ℤ.pos, ℤ.negsuc}
use stint.Prelude.Text.{Str, codes, str_eq, str_eq→eq}
use stint.Auth.{Crypto, Request, hash_api_key, verify_api_key, verify_api_key_detailed}
use stint.Auth.Keys.{verify_api_key-hash_api_key}
use stint.Auth.Session.{
  Header, Claims, Jwt, session_header, dot, split_dots, sign_jwt, generate_session_jwt, header_of,
  claims_of, check_claims, check_header, check_parts, verify_session_jwt,
}
use stint.Auth.Session.Issued.{IsFaithful, has_dot, verify-generate_session_jwt}
use stint.Auth.Session.Accepted.{IsSigned, verify_session_jwt-IsSigned}

abbrev plain : Crypto
plain = record {
  sha256_hex = λ s. s;
  bcrypt_matches = λ h k. true;
  base64_decode = λ s. none;
  is_uuid = λ s. false;
}

abbrev request : Request
request = record { api_key = []; authorization = codes "bearer stint_1" }

verify_api_key-hash_api_key_example :
    ((verify_api_key plain (hash_api_key plain (codes "stint_1")) (codes "stint_2") ≡ true)
      ↔ (codes "stint_2" ≡ codes "stint_1"))
    × ((verify_api_key_detailed plain
          (hash_api_key plain (codes "stint_1"))
          (codes "stint_2")).needs_upgrade
        ≡ false)
verify_api_key-hash_api_key_example =
    verify_api_key-hash_api_key plain (codes "stint_1") (codes "stint_2") (λ a b e. e)

-- Packages with simple codes: bytes are shifted past the dot, the HMAC puts the secret first, the only
-- header is empty, and claims are the issue, the expiry and the user, as bytes.
abbrev shifted : Str → Str
shifted [] = []
shifted (c ∷ s) = (c + 47) ∷ shifted s

abbrev unshifted : Str → Str
unshifted [] = []
unshifted (c ∷ s) = (c - 47) ∷ unshifted s

abbrev written : Str → ℤ → ℤ → Option Str
written user (pos issued) (pos expires) = some (issued ∷ expires ∷ user)
written user (pos issued) (negsuc n) = none
written user (negsuc n) expires = none

abbrev read_claims : Str → Option Claims
read_claims [] = none
read_claims (issued ∷ []) = none
read_claims (issued ∷ expires ∷ user) =
    some (record { subject = user; issued_at = pos issued; expires_at = pos expires })

abbrev jwt : Jwt
jwt = record {
  hmac = λ secret s. secret ++ s;
  encode = shifted;
  decode = λ s. some (unshifted s);
  marshal_header = λ h.
      if str_eq h.algorithm (codes "HS256") && str_eq h.token_type (codes "JWT")
      then some []
      else none;
  unmarshal_header = λ s. some session_header;
  marshal_claims = λ c. written c.subject c.issued_at c.expires_at;
  unmarshal_claims = read_claims;
}

unshifted-shifted : (s : Str) → unshifted (shifted s) ≡ s
unshifted-shifted [] = refl
unshifted-shifted (c ∷ s) = ground (arith, unshifted-shifted s)

shifted_lem : (s : Str) → has_dot (shifted s) ≡ false
shifted_lem [] = refl
shifted_lem (c ∷ s) = ground (arith, shifted_lem s)

jwt_header_lem :
    (h : Header) (raw : Str) → jwt.marshal_header h ≡ some raw → some session_header ≡ some h
jwt_header_lem h raw e =
    ground (arith, str_eq→eq h.algorithm (codes "HS256"), str_eq→eq h.token_type (codes "JWT"))

written_lem :
    (user : Str) (issued expires : ℤ) (raw : Str)
    → written user issued expires ≡ some raw
    → read_claims raw ≡ some (record { subject = user; issued_at = issued; expires_at = expires })
written_lem user (pos issued) (pos expires) raw e =
    let same : (issued ∷ expires ∷ user) ≡ raw = some-injective _ _ e in rw (← same) refl
written_lem user (pos issued) (negsuc n) raw e = absurd (cc)
written_lem user (negsuc n) expires raw e = absurd (cc)

jwt-IsFaithful : IsFaithful jwt
jwt-IsFaithful = record {
  decode_lem = λ s. ap some (unshifted-shifted s);
  encode_lem = shifted_lem;
  header_lem = jwt_header_lem;
  claims_lem = λ c raw e. written_lem c.subject c.issued_at c.expires_at raw e;
}

abbrev user : Str
user = codes "ada"

-- Issued in the first second, for a minute.
abbrev token : Str
token =
    let unsigned = shifted [] ++ dot ++ shifted (1 ∷ 61 ∷ user) in
    unsigned ++ dot ++ shifted (codes "k" ++ unsigned)

issued : generate_session_jwt jwt (codes "k") user 1000000000 60000000000 ≡ some token
unfolding generate_session_jwt sign_jwt str_eq
issued = refl

verify-generate_session_jwt_example :
    verify_session_jwt jwt (codes "k") token 60000000000 ≡ inr user
unfolding str_eq
verify-generate_session_jwt_example =
    verify-generate_session_jwt jwt (codes "k") user token 1000000000 60000000000 60000000000
      jwt-IsFaithful issued

verify_session_jwt-IsSigned_example : IsSigned jwt (codes "k") 60000000000 user token
verify_session_jwt-IsSigned_example =
    verify_session_jwt-IsSigned jwt (codes "k") 60000000000 user token (
      unfold verify_session_jwt split_dots check_parts sign_jwt check_header check_claims header_of
        claims_of str_eq in
      refl)
