-- ===== src/Pricing/Engine/Names.antt =====
-- The names under which a model is looked for in the LiteLLM table, and that `table_probe` tries them in
-- their order.
use stint.Prelude.{
  ℕ, zero, suc, ◌-◌, ◌≤◌, ◌<◌, ◌≡◌, inl, inr, refl, sym, ap, ◌∙◌, Bool, true, false, ◌&&◌, Option,
  none, some, List, [], ◌∷◌, ◌++◌, append-nil, ◌==◌, arith, leb, if◌then◌else◌, length, take, drop,
  Bool-cases,
}
use stint.Prelude.Text.{Str, codes, str_eq, str_eq→eq, str_eq_refl}
use stint.Prelude.Dict.{Dict, text_eq, lookup}
use stint.Pricing.Normalize.{has_prefix}
use stint.Pricing.Engine.{
  ModelPrice, Table, EngineData, ◌or_else◌, is_date_suffix, strip_date, through, dated, table_probe,
}

abbrev digits : Str → Bool
digits [] = true
digits (c ∷ s) = leb b'0' c && leb c b'9' && digits s

-- "-20" and six digits.
abbrev pub is_date : Str → Bool
is_date s = length s == 9 && has_prefix s (codes "-20") && digits (drop 3 s)

-- A name without the date in which it ends, if it ends in one.
abbrev pub without_date : Str → List Str
without_date name =
    let kept = length name - 9 in if is_date (drop kept name) then take kept name ∷ [] else []

is_date_suffix_lem : (s : Str) → is_date_suffix s ≡ is_date s
unfolding is_date_suffix has_prefix
is_date_suffix_lem [] = refl
is_date_suffix_lem (a ∷ []) = refl
is_date_suffix_lem (a ∷ b ∷ []) = refl
is_date_suffix_lem (a ∷ b ∷ c ∷ []) = refl
is_date_suffix_lem (a ∷ b ∷ c ∷ d ∷ []) = refl
is_date_suffix_lem (a ∷ b ∷ c ∷ d ∷ e ∷ []) = refl
is_date_suffix_lem (a ∷ b ∷ c ∷ d ∷ e ∷ f ∷ []) = refl
is_date_suffix_lem (a ∷ b ∷ c ∷ d ∷ e ∷ f ∷ g ∷ []) = refl
is_date_suffix_lem (a ∷ b ∷ c ∷ d ∷ e ∷ f ∷ g ∷ h ∷ []) = refl
is_date_suffix_lem (a ∷ b ∷ c ∷ d ∷ e ∷ f ∷ g ∷ h ∷ i ∷ []) = ground arith
is_date_suffix_lem (a ∷ b ∷ c ∷ d ∷ e ∷ f ∷ g ∷ h ∷ i ∷ j ∷ s) = ground arith

is_date-length : (s : Str) → is_date s ≡ true → length s ≡ 9
is_date-length s h = ground arith

strip_date-short : (s : Str) → length s < 9 → strip_date s ≡ s
unfolding strip_date
strip_date-short [] h = refl
strip_date-short (c ∷ s) h = elim (Bool-cases (is_date_suffix (c ∷ s))) [
  | inl e ↦ absurd (omega (arith, is_date-length (c ∷ s) (sym (is_date_suffix_lem (c ∷ s)) ∙ e)))
  | inr e ↦ rw (e, strip_date-short s (omega arith)) refl
]

-- The name that the regular expression leaves.
strip_date_lem :
    (s : Str)
    → strip_date s ≡ (if is_date (drop (length s - 9) s) then take (length s - 9) s else s)
unfolding strip_date
strip_date_lem [] = refl
strip_date_lem (c ∷ s) = elim (Bool-cases (leb 9 (length s))) [
  | inl long ↦
      let next : suc (length s) - 9 ≡ suc (length s - 9) = ground arith in
      elim (Bool-cases (is_date_suffix (c ∷ s))) [
        | inl e ↦
            let nine = is_date-length (c ∷ s) (sym (is_date_suffix_lem (c ∷ s)) ∙ e) in
            absurd (ground arith)
        | inr e ↦
            rw (next, e, strip_date_lem s)
              (elim (Bool-cases (is_date (drop (length s - 9) s))) [
                | inl d ↦ rw d refl
                | inr d ↦ rw d refl
              ])
      ]
  | inr short ↦
      let none_left : suc (length s) - 9 ≡ 0 = ground arith in
      rw (none_left, is_date_suffix_lem (c ∷ s), strip_date-short s (ground arith)) refl
]

length-take_le : (n : ℕ) (s : Str) → length (take n s) ≤ n
length-take_le zero s = omega arith
length-take_le (suc n) [] = omega arith
length-take_le (suc n) (c ∷ s) = omega (arith, length-take_le n s)

length-drop_le : (n : ℕ) (s : Str) → length (drop n s) ≤ length s
length-drop_le zero s = omega arith
length-drop_le (suc n) [] = omega arith
length-drop_le (suc n) (c ∷ s) = omega (arith, length-drop_le n s)

-- A name with a date differs from the name without it.
take-ne :
    (s : Str) → is_date (drop (length s - 9) s) ≡ true → str_eq (take (length s - 9) s) s ≡ false
take-ne s h = elim (Bool-cases (str_eq (take (length s - 9) s) s)) [
  | inl e ↦ absurd (
      omega (
        arith,
        ap length (str_eq→eq (take (length s - 9) s) s e),
        length-take_le (length s - 9) s,
        length-drop_le (length s - 9) s,
        is_date-length (drop (length s - 9) s) h,
      ))
  | inr e ↦ e
]

module _ {F : Type 0} where
  -- The price of the first of some names that is in a table.
  abbrev pub first_priced : Table F → List Str → Option (ModelPrice F)
  first_priced table [] = none
  first_priced table (name ∷ names) = lookup name table or_else first_priced table names

  first_priced-append :
      (table : Table F) (xs ys : List Str)
      → first_priced table (xs ++ ys) ≡ first_priced table xs or_else first_priced table ys
  first_priced-append table [] ys = refl
  first_priced-append table (x ∷ xs) ys = ground (arith, first_priced-append table xs ys)

abbrev pub listed : Option Str → List Str
listed none = []
listed (some name) = name ∷ []

-- The name that a name is an alias of.
abbrev pub aliased : Dict Str Str → Str → List Str
aliased aliases name = listed (lookup name aliases)

-- Every name, and after it the name that it is an alias of.
abbrev pub with_aliases : Dict Str Str → List Str → List Str
with_aliases aliases [] = []
with_aliases aliases (name ∷ names) = name ∷ (aliased aliases name ++ with_aliases aliases names)

module _ {F : Type 0} where
  pub or_else-none : (o : Option (ModelPrice F)) → (o or_else none) ≡ o
  or_else-none none = refl
  or_else-none (some x) = refl

module _ {F : Type 0} (d : EngineData F) where
  through_lem :
      (canonical : Option Str) → through d.table canonical ≡ first_priced d.table (listed canonical)
  through_lem none = refl
  through_lem (some canonical) = sym (or_else-none (lookup canonical d.table))

  dated_lem :
      (norm : Str)
      → dated d norm ≡ first_priced d.table (with_aliases d.aliases (without_date norm))
  unfolding dated
  dated_lem norm =
      let kept = length norm - 9 in
      elim (Bool-cases (is_date (drop kept norm))) [
        | inl e ↦
            rw
              (
                strip_date_lem norm,
                e,
                take-ne norm e,
                through_lem (lookup (take kept norm) d.aliases),
                append-nil (aliased d.aliases (take kept norm)),
              )
              refl
        | inr e ↦ rw (strip_date_lem norm, e, str_eq_refl norm) refl
      ]

  pub table_probe_lem :
      (raw norm : Str)
      → table_probe d raw norm
        ≡ first_priced d.table (raw ∷ with_aliases d.aliases (norm ∷ without_date norm))
  unfolding table_probe
  table_probe_lem raw norm =
      rw
        (
          first_priced-append d.table (aliased d.aliases norm)
              (with_aliases d.aliases (without_date norm)),
          through_lem (lookup norm d.aliases),
          dated_lem norm,
        )
        refl
