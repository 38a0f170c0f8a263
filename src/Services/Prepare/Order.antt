-- ===== src/Services/Prepare/Order.antt =====
-- The iteration order of the map of extensions has no influence on the language.
use stint.Prelude.{
  ℕ, ◌≤◌, ◌≡◌, inl, inr, refl, sym, ap, Bool, true, false, not, ◌&&◌, ◌||◌, List, [], ◌∷◌, arith,
  leb, leb→le, Bool-cases, length, All,
}
use stint.Prelude.Text.{Str, str_eq, str_eq→eq}
use stint.Services.Rules.{has_suffix}
use stint.Services.Prepare.Language.{extensions, language_by}

has_suffix-length : (s t : Str) → has_suffix s t ≡ true → length t ≤ length s
unfolding has_suffix
has_suffix-length [] t h = rw (← str_eq→eq [] t h) (omega arith)
has_suffix-length (c ∷ s) t h = elim (Bool-cases (str_eq (c ∷ s) t)) [
  | inl e ↦ rw (← str_eq→eq (c ∷ s) t e) (omega arith)
  | inr e ↦ omega (arith, has_suffix-length s t (rw e at h))
]

-- Of two suffixes of a text the shorter is a suffix of the longer.
suffix_of_suffix :
    (s t u : Str)
    → has_suffix s t ≡ true
    → has_suffix s u ≡ true
    → length u ≤ length t
    → has_suffix t u ≡ true
unfolding has_suffix
suffix_of_suffix [] t u ht hu le = rw (← str_eq→eq [] t ht) hu
suffix_of_suffix (c ∷ s) t u ht hu le = elim (Bool-cases (str_eq (c ∷ s) t)) [
  | inl e ↦ rw (← str_eq→eq (c ∷ s) t e) hu
  | inr e ↦
      let ht' = rw e at ht in
      elim (Bool-cases (str_eq (c ∷ s) u)) [
        | inl e' ↦
            let same = str_eq→eq (c ∷ s) u e' in
            absurd (long s t u same (has_suffix-length s t ht') le)
        | inr e' ↦ suffix_of_suffix s t u ht' (rw e' at hu) le
      ]
]
  where
    long : {c : ℕ} (s t u : Str) → (c ∷ s) ≡ u → length t ≤ length s → length u ≤ length t → ⊥
    long s t u same short le = omega (arith, ap length same)

-- Whether a pair is in a table.
abbrev pub is_entry : Str × Str → List (Str × Str) → Bool
is_entry (e, l) [] = false
is_entry (e, l) ((e', l') ∷ table) = (str_eq e e' && str_eq l l') || is_entry (e, l) table

-- Where one extension is a suffix of another, the languages are the same.
agrees_with : Str → Str → List (Str × Str) → Bool
agrees_with e l [] = true
agrees_with e l ((e', l') ∷ table) = (not (has_suffix e e') || str_eq l l') && agrees_with e l table

agree : List (Str × Str) → List (Str × Str) → Bool
unfolding agrees_with
agree [] table = true
agree ((e, l) ∷ entries) table = agrees_with e l table && agree entries table

extensions-agree : agree extensions extensions ≡ true
unfolding agree has_suffix str_eq
extensions-agree = refl

agrees_with-entry :
    (e l e' l' : Str) (table : List (Str × Str))
    → agrees_with e l table ≡ true
    → is_entry (e', l') table ≡ true
    → has_suffix e e' ≡ true
    → str_eq l l' ≡ true
unfolding agrees_with
agrees_with-entry e l e' l' [] a h s = absurd (ground arith)
agrees_with-entry e l e' l' ((first, spoken) ∷ table) a h s =
    ground (arith, str_eq→eq e' first, str_eq→eq l' spoken, agrees_with-entry e l e' l' table)

agree-entry :
    (e l : Str) (entries table : List (Str × Str))
    → agree entries table ≡ true
    → is_entry (e, l) entries ≡ true
    → agrees_with e l table ≡ true
unfolding agree
agree-entry e l [] table a h = absurd (ground arith)
agree-entry e l ((first, spoken) ∷ entries) table a h =
    ground (arith, str_eq→eq e first, str_eq→eq l spoken, agree-entry e l entries table)

-- Two extensions of the table in which one text ends have one language.
same_language :
    (text e l e' l' : Str)
    → is_entry (e, l) extensions ≡ true
    → is_entry (e', l') extensions ≡ true
    → has_suffix text e ≡ true
    → has_suffix text e' ≡ true
    → l ≡ l'
same_language text e l e' l' h h' s s' = elim (Bool-cases (leb (length e') (length e))) [
  | inl shorter ↦ str_eq→eq l l' (
      agrees_with-entry e l e' l' extensions
        (agree-entry e l extensions extensions extensions-agree h) h'
        (suffix_of_suffix text e e' s s' (leb→le (length e') (length e) shorter)))
  | inr longer ↦ sym (
      str_eq→eq l' l (
        agrees_with-entry e' l' e l extensions
          (agree-entry e' l' extensions extensions extensions-agree h') h
          (suffix_of_suffix text e' e s' s (ground arith))))
]

entry_of_order :
    (order : List (Str × Str)) (e l : Str)
    → All (λ p. is_entry p extensions ≡ true) order
    → is_entry (e, l) order ≡ true
    → is_entry (e, l) extensions ≡ true
entry_of_order [] e l all h = absurd (ground arith)
entry_of_order ((first, spoken) ∷ order) e l (here, all) h =
    elim (Bool-cases (str_eq e first && str_eq l spoken)) [
      | inl same ↦ let (p, q) = both _ _ same in rw (str_eq→eq e first p, str_eq→eq l spoken q) here
      | inr other ↦ entry_of_order order e l all (rw other at h)
    ]
  where
    both : (a b : Bool) → (a && b) ≡ true → (a ≡ true) × (b ≡ true)
    both true b h = (refl, h)
    both false b h = cc

-- Let `order` be the table of extensions in any order, or a part of it. If a text ends in an extension of
-- `order`, then the loop finds the language of this extension, wherever in `order` it stands: the result
-- does not depend on how Go iterates over the map.
pub language_by-entry :
    (order : List (Str × Str)) (text extension language : Str)
    → All (λ p. is_entry p extensions ≡ true) order
    → is_entry (extension, language) order ≡ true
    → has_suffix text extension ≡ true
    → language_by order text ≡ language
unfolding language_by
language_by-entry [] text e l all h s = absurd (ground arith)
language_by-entry ((first, spoken) ∷ order) text e l (here, all) h s =
    elim (Bool-cases (has_suffix text first)) [
      | inl found ↦ rw found (
          same_language text first spoken e l here
            (entry_of_order ((first, spoken) ∷ order) e l (here, all) h) found s)
      | inr missed ↦ elim (Bool-cases (str_eq e first && str_eq l spoken)) [
        | inl same ↦ absurd (not_first first spoken text e l same missed s)
        | inr other ↦ rw missed (language_by-entry order text e l all (rw other at h) s)
      ]
    ]
  where
    not_first :
        (first spoken text e l : Str)
        → (str_eq e first && str_eq l spoken) ≡ true
        → has_suffix text first ≡ false
        → has_suffix text e ≡ true
        → ⊥
    not_first first spoken text e l same missed s = ground (arith, str_eq→eq e first)
