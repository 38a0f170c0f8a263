-- ===== src/Usage/Dedup.antt =====
-- `Dedup`: one pass over the events with an index from ids to positions of the output. The output
-- has a backing array of its own, since `events[:0:0]` has no capacity. `none` is a panic on an
-- index out of range.
pub mod Reference
pub mod Laws
use stint.Prelude.{
  ℕ, ◌≡◌, Bool, true, false, Option, none, some, List, [], ◌∷◌, ◌++◌, ltb, if◌then◌else◌, length,
  get_elem?, set,
}
use stint.Prelude.Text.{Str}
use stint.Prelude.Dict.{Dict, text_eq, lookup, insert}
use stint.Usage.{Event}
use stint.Usage.Id.{Hash, ensure_id}

-- `index` and `out`
abbrev pub Pass : Type 0 → Type 0
Pass USD = Dict Str ℕ × List (Event USD)

module _ {USD : Type 0} where
  -- `if event.OutputTokens > out[i].OutputTokens { out[i] = event }`
  replace_at : Event USD → ℕ → List (Event USD) → Option (Event USD) → Option (List (Event USD))
  replace_at e i out none = none
  replace_at e i out (some old) =
      some (if ltb old.output_tokens e.output_tokens then set out i e else out)

  with_index : Dict Str ℕ → Option (List (Event USD)) → Option (Pass USD)
  with_index index none = none
  with_index index (some out) = some (index, out)

  place : Event USD → Pass USD → Option ℕ → Option (Pass USD)
  unfolding replace_at with_index
  place e (index, out) none = some (insert e.event_id (length out) index, out ++ e ∷ [])
  place e (index, out) (some i) = with_index index (replace_at e i out (get_elem? out i))

  outputs : Option (Pass USD) → Option (List (Event USD))
  outputs none = none
  outputs (some (index, out)) = some out

module _ {USD : Type 0} (h : Hash) where
  pub dedup_step : Event USD → Pass USD → Option (Pass USD)
  dedup_step e0 (index, out) =
      let e = ensure_id h e0 in place e (index, out) (lookup e.event_id index)

  pub dedup_loop : List (Event USD) → Option (Pass USD) → Option (List (Event USD))
  unfolding outputs
  dedup_loop es none = none
  dedup_loop [] (some p) = outputs (some p)
  dedup_loop (e ∷ es) (some p) = dedup_loop es (dedup_step e p)

  unfoldable pub dedup : List (Event USD) → Option (List (Event USD))
  unfolding dedup_loop dedup_step place
  dedup es = dedup_loop es (some ([], []))
