-- ===== src/Auth/Session/Issued.antt =====
-- A token that was issued is accepted until it expires.
use stint.Prelude.{
  ℕ, ◌+◌, ◌≡◌, inl, inr, refl, Bool, true, false, some, [], ◌∷◌, ◌++◌, append_assoc, ◌==◌, leb,
  if◌then◌else◌, Bool-cases, Option-cases,
}
use mathlib.Core.Option.{some-injective}
use stint.Prelude.Int.{ℤ.pos}
use stint.Prelude.Text.{Str, str_eq, str_eq_refl}
use stint.Auth.Session.{
  Header, Claims, Jwt, SessionError.invalid_jwt, SessionError.expired_jwt, unix, dot,
  session_header, split_dots, sign_jwt, generate_session_jwt, header_of, claims_of, check_claims,
  check_header, check_parts, verify_session_jwt,
}

abbrev pub has_dot : Str → Bool
has_dot [] = false
has_dot (c ∷ s) = if c == b'.' then true else has_dot s

-- What the packages promise: decoding inverts encoding, and base64 has no dot in its alphabet.
pub record IsFaithful (j : Jwt) : Type 0 where
  pub decode_lem : (s : Str) → j.decode (j.encode s) ≡ some s
  pub encode_lem : (s : Str) → has_dot (j.encode s) ≡ false
  pub header_lem :
      (h : Header) (raw : Str) → j.marshal_header h ≡ some raw → j.unmarshal_header raw ≡ some h
  pub claims_lem :
      (c : Claims) (raw : Str) → j.marshal_claims c ≡ some raw → j.unmarshal_claims raw ≡ some c

split_dots-none : (s : Str) → has_dot s ≡ false → split_dots s ≡ (s, [])
unfolding split_dots
split_dots-none [] h = refl
split_dots-none (c ∷ s) h = elim (Bool-cases (c == b'.')) [
  | inl e ↦ absurd (cc (rw e at h))
  | inr e ↦ rw (e, split_dots-none s (rw e at h)) refl
]

split_dots-append :
    (s t : Str)
    → has_dot s ≡ false
    → split_dots (s ++ dot ++ t) ≡ (s, (split_dots t).0 ∷ (split_dots t).1)
unfolding split_dots
split_dots-append [] t h = refl
split_dots-append (c ∷ s) t h = elim (Bool-cases (c == b'.')) [
  | inl e ↦ absurd (cc (rw e at h))
  | inr e ↦ rw (e, split_dots-append s t (rw e at h)) refl
]

split_dots-token :
    (a b c : Str)
    → has_dot a ≡ false
    → has_dot b ≡ false
    → has_dot c ≡ false
    → split_dots ((a ++ dot ++ b) ++ dot ++ c) ≡ (a, b ∷ c ∷ [])
split_dots-token a b c ha hb hc =
    rw
      (
        append_assoc (a ++ dot ++ b) dot c,
        append_assoc (a ++ dot) b (dot ++ c),
        ← append_assoc b dot c,
        split_dots-append a (b ++ dot ++ c) ha,
        split_dots-append b c hb,
        split_dots-none c hc,
      )
      refl

abbrev session_of : Str → ℕ → ℕ → Claims
session_of user_id now ttl = record {
  subject = user_id;
  issued_at = pos (unix now);
  expires_at = pos (unix (now + ttl));
}

module _ (j : Jwt) (faithful : IsFaithful j) where
  header_of-encode :
      (raw : Str)
      → j.marshal_header session_header ≡ some raw
      → header_of j (j.encode raw) ≡ some session_header
  unfolding header_of
  header_of-encode raw e =
      rw (header_of, faithful.decode_lem raw) (faithful.header_lem session_header raw e)

  claims_of-encode :
      (c : Claims) (raw : Str) → j.marshal_claims c ≡ some raw → claims_of j (j.encode raw) ≡ some c
  unfolding claims_of
  claims_of-encode c raw e = rw (claims_of, faithful.decode_lem raw) (faithful.claims_lem c raw e)

  -- A token with a signature and with parts that decode.
  verify-signed :
      (secret : Str) (now : ℕ) (session : Claims) (header claims : Str)
      → j.marshal_header session_header ≡ some header
      → j.marshal_claims session ≡ some claims
      → let unsigned = j.encode header ++ dot ++ j.encode claims in
        verify_session_jwt j secret (unsigned ++ dot ++ sign_jwt j secret unsigned) now
        ≡ check_claims now (some session)
  unfolding verify_session_jwt check_parts check_header sign_jwt str_eq
  verify-signed secret now session header claims eh ec =
      let unsigned = j.encode header ++ dot ++ j.encode claims in
      rw
        (
          split_dots-token (j.encode header) (j.encode claims) (j.encode (j.hmac secret unsigned))
              (faithful.encode_lem header) (faithful.encode_lem claims) (faithful.encode_lem _),
          str_eq_refl (j.encode (j.hmac secret unsigned)),
          header_of-encode header eh,
          claims_of-encode session claims ec,
        )
        refl

-- Let decoding invert encoding. A token that `GenerateSessionJWT` issued is judged by time alone: the
-- second that its expiry falls in and every later one is too late, and before it the result is the user
-- it was issued for. A token for the empty user is never accepted.
pub verify-generate_session_jwt :
    (j : Jwt) (secret user_id token : Str) (now ttl later : ℕ)
    → IsFaithful j
    → generate_session_jwt j secret user_id now ttl ≡ some token
    → verify_session_jwt j secret token later ≡ (
        if str_eq user_id []
        then inl invalid_jwt
        else if leb (unix (now + ttl)) (unix later)
        then inl expired_jwt
        else inr user_id)
unfolding check_claims generate_session_jwt
verify-generate_session_jwt j secret user_id token now ttl later faithful issued =
    let session = session_of user_id now ttl in
    elim (Option-cases (j.marshal_header session_header)) [
      | inl e ↦ absurd (cc (rw (generate_session_jwt, e) at issued))
      | inr (header, eh) ↦ elim (Option-cases (j.marshal_claims session)) [
        | inl e ↦ absurd (cc (rw (generate_session_jwt, eh, e) at issued))
        | inr (claims, ec) ↦
            let unsigned = j.encode header ++ dot ++ j.encode claims in
            let same : unsigned ++ dot ++ sign_jwt j secret unsigned ≡ token =
              some-injective _ _ (rw (generate_session_jwt, eh, ec) at issued) in
            rw (← same) (verify-signed j faithful secret later session header claims eh ec)
      ]
    ]
