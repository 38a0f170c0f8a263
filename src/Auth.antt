-- ===== src/Auth.antt =====
-- internal/auth/apikey.go: where a request's API key is read from, and how keys are hashed and verified.
-- SHA-256, bcrypt, base64, the UUID parser and package `strings` are parameters.
pub mod Keys
pub mod Session
use stint.Prelude.{
  ℕ, ◌+◌, Bool, true, false, not, ◌&&◌, ◌||◌, Option, none, some, List, [], ◌∷◌, ◌++◌, ◌==◌,
  if◌then◌else◌, length, drop,
}
use stint.Prelude.Text.{Str, codes, str_eq}
use stint.Pricing.Normalize.{Strings, has_prefix, trim_prefix}

pub record Crypto : Type 0 where
  -- the hexadecimal form of the SHA-256 sum
  pub sha256_hex : Str → Str
  -- `bcrypt.CompareHashAndPassword(hash, key) == nil`
  pub bcrypt_matches : Str → Str → Bool
  pub base64_decode : Str → Option Str
  -- `uuid.Parse` without an error
  pub is_uuid : Str → Bool

-- `r.URL.Query().Get("api_key")` and `r.Header.Get("Authorization")`, empty where they are missing.
pub record Request : Type 0 where
  pub api_key : Str
  pub authorization : Str

abbrev pub api_key_prefix : Str
api_key_prefix = codes "stint_"

abbrev pub accepted_api_key_prefixes : List Str
accepted_api_key_prefixes = api_key_prefix ∷ codes "waka_" ∷ []

abbrev pub token_hash_sha256_prefix : Str
token_hash_sha256_prefix = codes "sha256$"

has_any_prefix : Str → List Str → Bool
has_any_prefix key [] = false
has_any_prefix key (p ∷ ps) = has_prefix key p || has_any_prefix key ps

unfoldable pub is_api_key : Crypto → Str → Bool
unfolding has_any_prefix
is_api_key c key = has_any_prefix key accepted_api_key_prefixes || c.is_uuid key

-- The part before the first colon, as `strings.Cut` gives it.
unfoldable pub before_colon : Str → Str
before_colon [] = []
before_colon (c ∷ s) = if c == b':' then [] else c ∷ before_colon s

-- A key, and whether it looks like one.
unfoldable pub judged : Crypto → Str → Str × Bool
judged c key = (key, is_api_key c key)

basic_key : Strings → Crypto → Option Str → Str × Bool
unfolding judged
basic_key st c none = ([], false)
basic_key st c (some raw) = judged c (st.trim_space (before_colon raw))

unfoldable pub extract_api_key : Strings → Crypto → Request → Str × Bool
unfolding basic_key judged
extract_api_key st c r =
    let query = st.trim_space r.api_key in
    let header = st.trim_space r.authorization in
    if not (str_eq query [])
    then judged c query
    else (if str_eq header []
        then ([], false)
        else (if has_prefix (st.to_lower header) (codes "bearer ")
            then judged c (st.trim_space (drop 7 header))
            else (if has_prefix (st.to_lower header) (codes "basic ")
                then basic_key st c (c.base64_decode (st.trim_space (drop 6 header)))
                else ([], false))))

unfoldable pub extract_bearer_token : Strings → Request → Str × Bool
extract_bearer_token st r =
    let header = st.trim_space r.authorization in
    let token = st.trim_space (drop 7 header) in
    if not (has_prefix (st.to_lower header) (codes "bearer "))
    then ([], false)
    else (token, not (str_eq token []))

unfoldable pub hash_api_key : Crypto → Str → Str
hash_api_key c key = token_hash_sha256_prefix ++ c.sha256_hex key

pub record VerifyResult : Type 0 where
  pub valid : Bool
  pub needs_upgrade : Bool

unfoldable pub verify_api_key_detailed : Crypto → Str → Str → VerifyResult
verify_api_key_detailed c hash key =
    if has_prefix hash token_hash_sha256_prefix
    then record {
      valid = str_eq (c.sha256_hex key) (trim_prefix hash token_hash_sha256_prefix);
      needs_upgrade = false;
    }
    else (if c.bcrypt_matches hash key
        then record { valid = true; needs_upgrade = true }
        else record { valid = false; needs_upgrade = false })

unfoldable pub verify_api_key : Crypto → Str → Str → Bool
unfolding verify_api_key_detailed
verify_api_key c hash key = (verify_api_key_detailed c hash key).valid
