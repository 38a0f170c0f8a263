-- ===== src/Pricing/Normalize.antt =====
-- `Normalize`. `strings.ToLower` and `strings.TrimSpace` are parameters, as they depend on the Unicode
-- tables of Go's library.
pub mod Laws
use stint.Prelude.{
  ℕ, zero, suc, ◌+◌, ◌<◌, ◌≤◌, ◌≡◌, Bool, true, false, Option, none, some, List, [], ◌∷◌, ◌++◌,
  ◌==◌, if◌then◌else◌, length, drop, arith,
}
use stint.Prelude.Text.{Str, codes, str_eq}

-- What the code takes from package `strings`.
pub record Strings : Type 0 where
  pub to_lower : Str → Str
  pub trim_space : Str → Str

-- `strings.HasPrefix(m, prefix)`
unfoldable pub has_prefix : Str → Str → Bool
has_prefix s [] = true
has_prefix [] (p ∷ ps) = false
has_prefix (c ∷ s) (p ∷ ps) = if c == p then has_prefix s ps else false

-- `strings.TrimPrefix(m, prefix)`
unfoldable pub trim_prefix : Str → Str → Str
unfolding has_prefix
trim_prefix s p = if has_prefix s p then drop (length p) s else s

-- `strings.LastIndex(m, "/")`, with `none` for -1.
pub last_slash : Str → Option ℕ
last_slash [] = none
last_slash (c ∷ s) = later c (last_slash s)
  where
    later : ℕ → Option ℕ → Option ℕ
    later d none = if d == b'/' then some 0 else none
    later d (some i) = some (suc i)

behind : Str → Option ℕ → Str
behind m none = m
behind m (some i) = drop (i + 1) m

-- `if idx := strings.LastIndex(m, "/"); idx >= 0 { m = m[idx+1:] }`
unfoldable pub after_last_slash : Str → Str
unfolding last_slash behind
after_last_slash m = behind m (last_slash m)

abbrev pub region_prefixes : List Str
region_prefixes =
    codes "anthropic."
    ∷ codes "us."
    ∷ codes "eu."
    ∷ codes "au."
    ∷ codes "apac."
    ∷ codes "global."
    ∷ []

-- The inner loop over the prefixes, with `changed`.
pub strip_pass : List Str → Str → Bool → Str × Bool
strip_pass [] m changed = (m, changed)
strip_pass (p ∷ ps) m changed =
    if has_prefix m p then strip_pass ps (trim_prefix m p) true else strip_pass ps m changed

-- The outer loop.
pub strip_loop : ℕ → Str → Str
unfolding strip_pass
strip_loop zero m = m
strip_loop (suc fuel) m =
    let (m', changed) = strip_pass region_prefixes m false in
    let rest = strip_loop fuel m' in if changed then rest else m'

-- A pass that changes the text shortens it, so that its length is fuel enough.
unfoldable pub strip_regions : Str → Str
unfolding strip_loop trim_prefix
strip_regions m = strip_loop (length m + 1) m

module _ (st : Strings) where
  open st use {to_lower, trim_space}

  unfoldable pub normalize : Str → Str
  unfolding after_last_slash strip_regions
  normalize model =
      let m = to_lower (trim_space model) in
      if str_eq m [] then [] else strip_regions (after_last_slash m)
