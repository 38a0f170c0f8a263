-- ===== src/Usage/Dedup/Laws.antt =====
-- What `Dedup` promises.
use stint.Prelude.{
  ◌≤◌, ◌≡◌, refl, false, Option, none, some, List, [], ◌∷◌, ◌++◌, arith, ltb, if◌then◌else◌,
  Bool-cases, inl, inr, ap, ◌∙◌, All,
}
use stint.Prelude.Text.{Str, str_eq, str_eq→eq, str_eq_refl, str_eq_sym_false}
use stint.Usage.{Event}
use stint.Usage.Id.{Hash, ensure_id}
use stint.Usage.Dedup.{dedup}
use stint.Usage.Dedup.Reference.{absorb, absorb_all, dedup-absorb_all}

module _ {USD : Type 0} where
  -- The event that stands for an id.
  unfoldable pub find : Str → List (Event USD) → Option (Event USD)
  find k [] = none
  find k (y ∷ ys) = if str_eq y.event_id k then some y else find k ys

  -- No two events have one id.
  abbrev pub Distinct : List (Event USD) → Type 0
  Distinct [] = Unit
  Distinct (y ∷ ys) = (find y.event_id ys ≡ none) × Distinct ys

  -- Some event of the list has the id of `e` and at least its output tokens.
  abbrev pub Covers : List (Event USD) → Event USD → Type 0
  Covers out e =
      (y : Event USD) × (find e.event_id out ≡ some y) × (e.output_tokens ≤ y.output_tokens)

  find-absorb :
      (k : Str) (e : Event USD) (out : List (Event USD))
      → str_eq e.event_id k ≡ false
      → find k (absorb out e) ≡ find k out
  unfolding find absorb
  find-absorb k e [] h = ground arith
  find-absorb k e (y ∷ ys) h = ground (arith, find-absorb k e ys h, str_eq→eq y.event_id e.event_id)

  -- The longer of two records of one request.
  abbrev longer : Event USD → Option (Event USD) → Event USD
  longer e none = e
  longer e (some y) = if ltb y.output_tokens e.output_tokens then e else y

  le-longer :
      (e : Event USD) (o : Option (Event USD)) → e.output_tokens ≤ (longer e o).output_tokens
  le-longer e none = omega arith
  le-longer e (some y) = ground arith

  find-absorb_self :
      (e : Event USD) (out : List (Event USD))
      → find e.event_id (absorb out e) ≡ some (longer e (find e.event_id out))
  unfolding find absorb
  find-absorb_self e [] = ground (arith, str_eq_refl e.event_id)
  find-absorb_self e (y ∷ ys) = ground (arith, find-absorb_self e ys, str_eq_refl e.event_id)

  absorb-Distinct :
      (e : Event USD) (out : List (Event USD)) → Distinct out → Distinct (absorb out e)
  unfolding absorb find
  absorb-Distinct e [] d = ground arith
  absorb-Distinct e (y ∷ ys) (fresh, d) = elim (Bool-cases (str_eq y.event_id e.event_id)) [
    | inl same ↦ rw same (
      elim (Bool-cases (ltb y.output_tokens e.output_tokens)) [
        | inl more ↦ rw (more, ← str_eq→eq y.event_id e.event_id same) fresh
        | inr less ↦ rw less fresh
      ],
      d,
    )
    | inr apart ↦ rw apart (
      find-absorb y.event_id e ys (str_eq_sym_false y.event_id e.event_id apart) ∙ fresh,
      absorb-Distinct e ys d,
    )
  ]

  absorb-Covers :
      (e x : Event USD) (out : List (Event USD)) → Covers out x → Covers (absorb out e) x
  absorb-Covers e x out (y, found, le) = elim (Bool-cases (str_eq e.event_id x.event_id)) [
    | inl same ↦
        let id_eq = str_eq→eq e.event_id x.event_id same in
        let known : find e.event_id out ≡ some y = rw id_eq found in
        (
          longer e (some y),
          rw (← id_eq, find-absorb_self e out) (ap (λ o. some (longer e o)) known),
          ground arith,
        )
    | inr apart ↦ (y, find-absorb x.event_id e out apart ∙ found, le)
  ]

  absorb_covered :
      (e : Event USD) (out : List (Event USD)) (y : Event USD)
      → find e.event_id out ≡ some y
      → e.output_tokens ≤ y.output_tokens
      → absorb out e ≡ out
  unfolding absorb find
  absorb_covered e [] y found le = ground arith
  absorb_covered e (z ∷ zs) y found le = ground (arith, absorb_covered e zs y)

  -- An event with a new id goes to the end.
  absorb_fresh :
      (e : Event USD) (out : List (Event USD))
      → find e.event_id out ≡ none
      → absorb out e ≡ out ++ e ∷ []
  unfolding absorb find
  absorb_fresh e [] h = refl
  absorb_fresh e (z ∷ zs) h = ground (arith, absorb_fresh e zs)

module _ {USD : Type 0} (h : Hash) where
  absorb_all-Distinct : (out es : List (Event USD)) → Distinct out → Distinct (absorb_all h out es)
  unfolding absorb_all
  absorb_all-Distinct out [] d = d
  absorb_all-Distinct out (e ∷ es) d =
      absorb_all-Distinct (absorb out (ensure_id h e)) es (absorb-Distinct (ensure_id h e) out d)

  absorb_all-keeps :
      (x : Event USD) (out es : List (Event USD)) → Covers out x → Covers (absorb_all h out es) x
  unfolding absorb_all
  absorb_all-keeps x out [] c = c
  absorb_all-keeps x out (e ∷ es) c =
      absorb_all-keeps x (absorb out (ensure_id h e)) es (absorb-Covers (ensure_id h e) x out c)

  absorb-Covers_self : (e : Event USD) (out : List (Event USD)) → Covers (absorb out e) e
  absorb-Covers_self e out =
      (longer e (find e.event_id out), find-absorb_self e out, le-longer e (find e.event_id out))

  absorb_all-Covers :
      (out es : List (Event USD)) → All (λ e. Covers (absorb_all h out es) (ensure_id h e)) es
  unfolding absorb_all
  absorb_all-Covers out [] = tt
  absorb_all-Covers out (e ∷ es) = (
    absorb_all-keeps (ensure_id h e) (absorb out (ensure_id h e)) es
        (absorb-Covers_self (ensure_id h e) out),
    absorb_all-Covers (absorb out (ensure_id h e)) es,
  )

  absorb_all_covered :
      (out es : List (Event USD))
      → All (λ e. Covers out (ensure_id h e)) es
      → absorb_all h out es ≡ out
  unfolding absorb_all
  absorb_all_covered out [] c = refl
  absorb_all_covered out (e ∷ es) ((y, found, le), cs) =
      rw (absorb_covered (ensure_id h e) out y found le) (absorb_all_covered out es cs)

  absorb_all-append :
      (out xs ys : List (Event USD))
      → absorb_all h out (xs ++ ys) ≡ absorb_all h (absorb_all h out xs) ys
  unfolding absorb_all
  absorb_all-append out [] ys = refl
  absorb_all-append out (x ∷ xs) ys = absorb_all-append (absorb out (ensure_id h x)) xs ys

  absorb-All :
      (P : Event USD → Type 0) (e : Event USD) (out : List (Event USD))
      → P e
      → All P out
      → All P (absorb out e)
  unfolding absorb
  absorb-All P e [] p _ = (p, tt)
  absorb-All P e (y ∷ ys) p (py, ps) = elim (Bool-cases (str_eq y.event_id e.event_id)) [
    | inl same ↦ rw same (
      elim (Bool-cases (ltb y.output_tokens e.output_tokens)) [
        | inl more ↦ rw more p
        | inr less ↦ rw less py
      ],
      ps,
    )
    | inr apart ↦ rw apart (py, absorb-All P e ys p ps)
  ]

  absorb_all-All :
      (P : Event USD → Type 0) (out es : List (Event USD))
      → All P out
      → All (λ e. P (ensure_id h e)) es
      → All P (absorb_all h out es)
  unfolding absorb_all
  absorb_all-All P out [] ps _ = ps
  absorb_all-All P out (e ∷ es) ps (p, qs) =
      absorb_all-All P (absorb out (ensure_id h e)) es (absorb-All P (ensure_id h e) out p ps) qs

  -- `Dedup` invents no event: what holds of every event that was put in, under its id, holds of every
  -- event that comes out.
  pub dedup-All :
      (P : Event USD → Type 0) (es : List (Event USD))
      → All (λ e. P (ensure_id h e)) es
      → (out : List (Event USD)) × (dedup h es ≡ some out) × All P out
  dedup-All P es ps = (absorb_all h [] es, dedup-absorb_all h es, absorb_all-All P [] es tt ps)

  -- `Dedup` returns a list in which no two events share an id, and in which every event that was put
  -- in, under its id, is represented by one with at least its output tokens.
  pub dedup_sound :
      (es : List (Event USD))
      → (out : List (Event USD)) × (dedup h es ≡ some out)
        × Distinct out
        × All (λ e. Covers out (ensure_id h e)) es
  dedup_sound es = (
    absorb_all h [] es,
    dedup-absorb_all h es,
    absorb_all-Distinct [] es tt,
    absorb_all-Covers [] es,
  )

  -- Feeding the same events a second time changes nothing.
  pub dedup_twice : (es : List (Event USD)) → dedup h (es ++ es) ≡ dedup h es
  dedup_twice es = rw (
    dedup-absorb_all h (es ++ es),
    dedup-absorb_all h es,
    absorb_all-append [] es es,
    absorb_all_covered (absorb_all h [] es) es (absorb_all-Covers [] es),
  )
