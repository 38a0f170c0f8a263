-- ===== src/Usage/Dedup/Reference.antt =====
-- The reference for `Dedup`: each event is absorbed by the first one with its id.
use stint.Prelude.{
  ℕ, suc, ◌≡◌, refl, Option, none, some, List, [], ◌∷◌, ◌++◌, arith, ltb, if◌then◌else◌, length,
  get_elem?, Option-cases, inl, inr,
}
use stint.Prelude.Text.{Str, str_eq, str_eq→eq, str_eq_refl}
use stint.Prelude.Dict.{Dict, text_eq, lookup, insert, lookup-insert}
use stint.Usage.{Event}
use stint.Usage.Id.{Hash, ensure_id}
use stint.Usage.Dedup.{replace_at, place, dedup_step, dedup_loop, dedup}

module _ {USD : Type 0} where
  unfoldable pub absorb : List (Event USD) → Event USD → List (Event USD)
  absorb [] e = e ∷ []
  absorb (y ∷ ys) e =
      if str_eq y.event_id e.event_id
      then (if ltb y.output_tokens e.output_tokens then e else y) ∷ ys
      else y ∷ absorb ys e

  -- The position of the first event with an id.
  unfoldable pub position : Str → List (Event USD) → Option ℕ
  position k [] = none
  position k (y ∷ ys) = if str_eq y.event_id k then some 0 else bump (position k ys)
    where
      bump : Option ℕ → Option ℕ
      bump none = none
      bump (some i) = some (suc i)

  place_at : Event USD → List (Event USD) → Option ℕ → Option (List (Event USD))
  unfolding replace_at
  place_at e out none = some (out ++ e ∷ [])
  place_at e out (some i) = replace_at e i out (get_elem? out i)

  place_at-absorb :
      (e : Event USD) (out : List (Event USD))
      → place_at e out (position e.event_id out) ≡ some (absorb out e)
  unfolding place_at absorb position
  place_at-absorb e [] = refl
  place_at-absorb e (y ∷ ys) = ground (arith, place_at-absorb e ys)

  position-absorb :
      (k : Str) (e : Event USD) (out : List (Event USD))
      → position k (absorb out e) ≡ (elim (position e.event_id out) [
        | none ↦ (elim (position k out) [
          | some i ↦ some i
          | none ↦ if str_eq e.event_id k then some (length out) else none
        ])
        | some i ↦ position k out
      ])
  unfolding absorb position
  position-absorb k e [] = ground arith
  position-absorb k e (y ∷ ys) = ground (
    arith,
    position-absorb k e ys,
    str_eq→eq y.event_id e.event_id,
    str_eq→eq y.event_id k,
    str_eq→eq e.event_id k,
    str_eq_refl k,
  )

-- `index` gives the position of every id in `out`.
abbrev Indexes : {USD : Type 0} → Dict Str ℕ → List (Event USD) → Type 0
Indexes index out = (k : Str) → lookup k index ≡ position k out

module _ {USD : Type 0} (e : Event USD) (index : Dict Str ℕ) (out : List (Event USD)) where
  place-absorb_new :
      Indexes index out
      → position e.event_id out ≡ none
      → (index' : Dict Str ℕ) × (place e (index, out) none ≡ some (index', absorb out e))
        × Indexes index' (absorb out e)
  unfolding place place_at
  place-absorb_new ok p = (
    insert e.event_id (length out) index,
    cc (rw p at (place_at-absorb e out)),
    λ k.
        rw (lookup-insert e.event_id k (length out) index, position-absorb k e out, p, ok k)
          (new_position k),
  )
    where
      new_position :
          (k : Str)
          → (if str_eq e.event_id k then some (length out) else position k out)
            ≡ (elim (position k out) [
              | some i ↦ some i
              | none ↦ if str_eq e.event_id k then some (length out) else none
            ])
      new_position k = ground (arith, str_eq→eq e.event_id k, p)

  place-absorb_old :
      (i : ℕ)
      → Indexes index out
      → position e.event_id out ≡ some i
      → (index' : Dict Str ℕ) × (place e (index, out) (some i) ≡ some (index', absorb out e))
        × Indexes index' (absorb out e)
  unfolding place place_at
  place-absorb_old i ok p =
      (index, rw (rw p at (place_at-absorb e out)), λ k. rw (position-absorb k e out, p) (ok k))

  place-absorb :
      Indexes index out
      → (index' : Dict Str ℕ) × (place e (index, out) (lookup e.event_id index)
          ≡ some (index', absorb out e))
        × Indexes index' (absorb out e)
  place-absorb ok = elim (Option-cases (position e.event_id out)) [
    | inl p ↦ rw (ok e.event_id, p) (place-absorb_new ok p)
    | inr (i, p) ↦ rw (ok e.event_id, p) (place-absorb_old i ok p)
  ]

module _ {USD : Type 0} (h : Hash) where
  unfoldable pub absorb_all : List (Event USD) → List (Event USD) → List (Event USD)
  absorb_all out [] = out
  absorb_all out (e ∷ es) = absorb_all (absorb out (ensure_id h e)) es

  dedup_loop-absorb :
      (es : List (Event USD)) (index : Dict Str ℕ) (out : List (Event USD))
      → Indexes index out
      → dedup_loop h es (some (index, out)) ≡ some (absorb_all out es)
  unfolding dedup_loop dedup_step absorb_all
  dedup_loop-absorb [] index out ok = refl
  dedup_loop-absorb (e ∷ es) index out ok =
      let (index', step, ok') = place-absorb (ensure_id h e) index out ok in
      rw (step, dedup_loop) (dedup_loop-absorb es index' (absorb out (ensure_id h e)) ok')

  -- `Dedup` never panics, and its index is only an optimisation: it returns what absorbing the
  -- events one by one returns.
  pub dedup-absorb_all : (es : List (Event USD)) → dedup h es ≡ some (absorb_all [] es)
  unfolding dedup
  dedup-absorb_all es = dedup_loop-absorb es [] [] (λ k. unfold lookup position in refl)
