-- ===== src/Auth/Keys.antt =====
-- What verification accepts, and what an extracted key is.
use stint.Prelude.{◌≡◌, ◌↔◌, refl, sym, ◌∙◌, true, false, [], ◌∷◌, ◌++◌, arith, drop, length, ap}
use stint.Prelude.Text.{Str, str_eq, str_eq→eq, str_eq_refl}
use stint.Pricing.Normalize.{Strings, has_prefix, trim_prefix}
use stint.Auth.{
  Crypto, Request, token_hash_sha256_prefix, is_api_key, judged, basic_key, extract_api_key,
  hash_api_key, verify_api_key_detailed, verify_api_key,
}

has_prefix-append : (p s : Str) → has_prefix (p ++ s) p ≡ true
unfolding has_prefix
has_prefix-append [] s = refl
has_prefix-append (c ∷ p) s = ground (arith, has_prefix-append p s)

drop-length_append : (p s : Str) → drop (length p) (p ++ s) ≡ s
drop-length_append [] s = refl
drop-length_append (c ∷ p) s = drop-length_append p s

trim_prefix-append : (p s : Str) → trim_prefix (p ++ s) p ≡ s
unfolding trim_prefix
trim_prefix-append p s = rw (has_prefix-append p s) (drop-length_append p s)

-- A hash that `HashAPIKey` made is compared with the sum of the key.
verify-hash_api_key :
    (c : Crypto) (stored key : Str)
    → verify_api_key_detailed c (hash_api_key c stored) key
      ≡ record { valid = str_eq (c.sha256_hex key) (c.sha256_hex stored); needs_upgrade = false }
unfolding verify_api_key_detailed hash_api_key
verify-hash_api_key c stored key = rw (
  has_prefix-append token_hash_sha256_prefix (c.sha256_hex stored),
  trim_prefix-append token_hash_sha256_prefix (c.sha256_hex stored),
)

-- Let the hash be free of collisions. A key passes against the stored hash of another key exactly if the
-- two are equal, and a hash that was made by `HashAPIKey` never asks for an upgrade, whatever bcrypt says.
pub verify_api_key-hash_api_key :
    (c : Crypto) (stored key : Str)
    → ((a b : Str) → c.sha256_hex a ≡ c.sha256_hex b → a ≡ b)
    → ((verify_api_key c (hash_api_key c stored) key ≡ true) ↔ (key ≡ stored))
      × ((verify_api_key_detailed c (hash_api_key c stored) key).needs_upgrade ≡ false)
unfolding verify_api_key
verify_api_key-hash_api_key c stored key injective =
    let e = verify-hash_api_key c stored key in
    (
      (
        λ ok. injective key stored (str_eq→eq _ _ (sym (ap (λ r. r.valid) e) ∙ ok)),
        λ same. ap (λ r. r.valid) e ∙ rw same (str_eq_refl (c.sha256_hex stored)),
      ),
      ap (λ r. r.needs_upgrade) e,
    )

-- A key that is reported as one is an accepted key, wherever the request carries it, and where the query
-- carries a key, the header is not looked at.
pub extract_api_key_lem :
    (st : Strings) (c : Crypto) (r : Request)
    → let (key, ok) = extract_api_key st c r in
      (ok ≡ true → is_api_key c key ≡ true)
      × (str_eq (st.trim_space r.api_key) [] ≡ false → key ≡ st.trim_space r.api_key)
unfolding extract_api_key basic_key judged
extract_api_key_lem st c r = ground arith
