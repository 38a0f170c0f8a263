-- ===== src/Pricing/Normalize/Laws.antt =====
-- What a normalised model name looks like.
use stint.Prelude.{
  ℕ, zero, suc, ◌+◌, ◌<◌, ◌≤◌, ◌≡◌, ◌≢◌, refl, sym, Bool, true, false, none, List, [], ◌∷◌, ◌==◌,
  length, drop, arith, All, Bool-cases, inl, inr, Option-cases,
}
use stint.Prelude.Text.{Str, str_eq, str_eq→eq}
use native.Mathlib.Nat.{suc-add}
use stint.Pricing.Normalize.{
  Strings, has_prefix, trim_prefix, last_slash, after_last_slash, behind, region_prefixes,
  strip_pass, strip_loop, strip_regions, normalize,
}

abbrev pub LacksSlash : Str → Type 0
LacksSlash = All (λ c. c ≢ b'/')

-- None of the prefixes stands at the head of the text.
abbrev pub IsStripped : List Str → Str → Type 0
IsStripped ps m = All (λ p. has_prefix m p ≡ false) ps

has_prefix-length : (m p : Str) → has_prefix m p ≡ true → length p ≤ length m
unfolding has_prefix
has_prefix-length m [] h = omega arith
has_prefix-length [] (c ∷ p) h = cc
has_prefix-length (d ∷ m) (c ∷ p) h = ground (arith, has_prefix-length m p)

length-drop_le : (n : ℕ) (m : Str) → n ≤ length m → length (drop n m) + n ≡ length m
length-drop_le zero m h = omega arith
length-drop_le (suc n) [] h = absurd (omega arith)
length-drop_le (suc n) (c ∷ m) h = omega (arith, length-drop_le n m)

length-trim_prefix :
    (m p : Str) → has_prefix m p ≡ true → length (trim_prefix m p) + length p ≡ length m
unfolding trim_prefix
length-trim_prefix m p h = rw h (length-drop_le (length p) m (has_prefix-length m p h))

-- Prefixes that are not empty.
abbrev Proper : List Str → Type 0
Proper = All (λ p. 0 < length p)

-- Once a pass has changed the text, `changed` stays true.
strip_pass_changed : (ps : List Str) (m : Str) → (strip_pass ps m true).1 ≡ true
unfolding strip_pass
strip_pass_changed [] m = refl
strip_pass_changed (p ∷ ps) m =
    ground (arith, strip_pass_changed ps m, strip_pass_changed ps (trim_prefix m p))

length-strip_pass : (ps : List Str) (m : Str) (c : Bool) → length (strip_pass ps m c).0 ≤ length m
unfolding strip_pass
length-strip_pass [] m c = omega arith
length-strip_pass (p ∷ ps) m c = ground (
  arith,
  length-strip_pass ps m c,
  length-strip_pass ps (trim_prefix m p) true,
  length-trim_prefix m p,
)

-- A pass either leaves a text that has none of the prefixes, or makes it shorter.
strip_pass-cases :
    (ps : List Str) (m : Str)
    → Proper ps
    → ((strip_pass ps m false).1 ≡ true → length (strip_pass ps m false).0 < length m)
      × ((strip_pass ps m false).1 ≡ false → ((strip_pass ps m false).0 ≡ m) × IsStripped ps m)
unfolding strip_pass
strip_pass-cases [] m _ = ground arith
strip_pass-cases (p ∷ ps) m (pos, proper) = elim (Bool-cases (has_prefix m p)) [
  | inl e ↦ rw e (
    λ _. omega (arith, length-strip_pass ps (trim_prefix m p) true, length-trim_prefix m p e),
    λ f. cc (strip_pass_changed ps (trim_prefix m p)),
  )
  | inr e ↦ rw e (
    (strip_pass-cases ps m proper).0,
    λ f. let (same, stripped) = (strip_pass-cases ps m proper).1 f in (same, (refl, stripped)),
  )
]

strip_loop-IsStripped :
    (fuel : ℕ) (m : Str) → length m < fuel → IsStripped region_prefixes (strip_loop fuel m)
unfolding strip_loop
strip_loop-IsStripped zero m h = absurd (omega arith)
strip_loop-IsStripped (suc fuel) m h =
    let c = strip_pass-cases region_prefixes m (omega arith) in
    elim (Bool-cases (strip_pass region_prefixes m false).1) [
      | inl e ↦ rw e (strip_loop-IsStripped fuel _ (omega (arith, c.0 e)))
      | inr e ↦ rw (e, (c.1 e).0) (c.1 e).1
    ]

drop-LacksSlash : (n : ℕ) (m : Str) → LacksSlash m → LacksSlash (drop n m)
drop-LacksSlash zero m h = h
drop-LacksSlash (suc n) [] h = tt
drop-LacksSlash (suc n) (c ∷ m) (_, h) = drop-LacksSlash n m h

trim_prefix-LacksSlash : (m p : Str) → LacksSlash m → LacksSlash (trim_prefix m p)
unfolding trim_prefix
trim_prefix-LacksSlash m p h = elim (Bool-cases (has_prefix m p)) [
  | inl e ↦ rw e (drop-LacksSlash (length p) m h)
  | inr e ↦ rw e h
]

strip_pass-LacksSlash :
    (ps : List Str) (m : Str) (c : Bool) → LacksSlash m → LacksSlash (strip_pass ps m c).0
unfolding strip_pass
strip_pass-LacksSlash [] m c h = h
strip_pass-LacksSlash (p ∷ ps) m c h = elim (Bool-cases (has_prefix m p)) [
  | inl e ↦ rw e (strip_pass-LacksSlash ps (trim_prefix m p) true (trim_prefix-LacksSlash m p h))
  | inr e ↦ rw e (strip_pass-LacksSlash ps m c h)
]

strip_loop-LacksSlash : (fuel : ℕ) (m : Str) → LacksSlash m → LacksSlash (strip_loop fuel m)
unfolding strip_loop
strip_loop-LacksSlash zero m h = h
strip_loop-LacksSlash (suc fuel) m h =
    let h' = strip_pass-LacksSlash region_prefixes m false h in
    elim (Bool-cases (strip_pass region_prefixes m false).1) [
      | inl e ↦ rw e (strip_loop-LacksSlash fuel _ h')
      | inr e ↦ rw e h'
    ]

behind-LacksSlash : (m : Str) → LacksSlash (behind m (last_slash m))
unfolding behind last_slash
behind-LacksSlash [] = tt
behind-LacksSlash (c ∷ m) = elim (Option-cases (last_slash m)) [
  | inl e ↦
      let rest : LacksSlash m = rw (e, behind) at (behind-LacksSlash m) in
      elim (Bool-cases (c == b'/')) [
        | inl s ↦ rw (e, s) rest
        | inr s ↦ rw (e, s) (ground arith, rest)
      ]
  | inr (i, e) ↦ rw (e, suc-add i 1) (rw (e, behind) at (behind-LacksSlash m))
]

nil-IsStripped : IsStripped region_prefixes []
unfolding has_prefix
nil-IsStripped = (refl, (refl, (refl, (refl, (refl, (refl, tt))))))

last_slash-none : (m : Str) → LacksSlash m → last_slash m ≡ none
unfolding last_slash
last_slash-none [] h = refl
last_slash-none (c ∷ m) (n, h) = ground (arith, last_slash-none m h)

strip_loop_stripped : (fuel : ℕ) (m : Str) → IsStripped region_prefixes m → strip_loop fuel m ≡ m
unfolding strip_loop strip_pass
strip_loop_stripped zero m h = refl
strip_loop_stripped (suc fuel) m (a, (b, (c, (d, (e, (f, _)))))) = rw (a, b, c, d, e, f)

normalize_fixed :
    (st : Strings) (r : Str)
    → st.to_lower (st.trim_space r) ≡ r
    → LacksSlash r
    → IsStripped region_prefixes r
    → normalize st r ≡ r
unfolding normalize strip_regions after_last_slash
normalize_fixed st r same clean stripped = elim (Bool-cases (str_eq r [])) [
  | inl e ↦ rw (same, e) (sym (str_eq→eq r [] e))
  | inr e ↦ rw (same, e, last_slash-none r clean) (strip_loop_stripped (length r + 1) r stripped)
]

module _ (st : Strings) (model : Str) where
  -- A normalised name holds no slash and begins with none of the region and provider prefixes, in
  -- whatever order and however often they were stacked: the loop has run to its end.
  pub normalize-IsStripped :
      LacksSlash (normalize st model) × IsStripped region_prefixes (normalize st model)
  unfolding normalize strip_regions after_last_slash
  normalize-IsStripped =
      let m = st.to_lower (st.trim_space model) in
      let last = behind m (last_slash m) in
      elim (Bool-cases (str_eq m [])) [
        | inl e ↦ rw e (tt, nil-IsStripped)
        | inr e ↦ rw e (
          strip_loop-LacksSlash (length last + 1) last (behind-LacksSlash m),
          strip_loop-IsStripped (length last + 1) last (omega arith),
        )
      ]

  -- Normalising a normalised name changes nothing, if trimming and lowering leave that name alone.
  pub normalize_idem :
      st.to_lower (st.trim_space (normalize st model)) ≡ normalize st model
      → normalize st (normalize st model) ≡ normalize st model
  normalize_idem same =
      let (clean, stripped) = normalize-IsStripped in
      normalize_fixed st (normalize st model) same clean stripped
