-- ===== src/Pricing/Engine/Tables.antt =====
-- `Entries`, the listing of all known prices.
use stint.Prelude.{
  ◌≡◌, refl, Option, none, some, List, [], ◌∷◌, arith, if◌then◌else◌, Option-cases, inl, inr,
}
use stint.Prelude.Text.{Str, str_eq, str_eq→eq}
use stint.Prelude.Dict.{text_eq, lookup}
use stint.Pricing.Engine.{ModelPrice, Table, EngineData}

pub data Source : Type 0 where
  litellm openrouter : Source

abbrev pub Entry : Type 0 → Type 0
Entry F = Str × Source × ModelPrice F

module _ {F : Type 0} where
  -- The loop over `d.table`, and what comes after it.
  pub all_of : Table F → List (Entry F) → List (Entry F)
  all_of [] rest = rest
  all_of ((model, price) ∷ ps) rest = (model, litellm, price) ∷ all_of ps rest

  -- The loop over `d.fallback`.
  pub uncovered : Table F → Table F → List (Entry F)
  uncovered table [] = []
  uncovered table ((model, price) ∷ ps) =
      let rest = uncovered table ps in
      elim (lookup model table) [ some p ↦ rest | none ↦ (model, openrouter, price) ∷ rest ]

  unfoldable pub entries : EngineData F → List (Entry F)
  unfolding all_of uncovered
  entries d = all_of d.table (uncovered d.table d.fallback)

  -- The row of a model.
  unfoldable pub row_of : Str → List (Entry F) → Option (Source × ModelPrice F)
  row_of k [] = none
  row_of k ((model, source, price) ∷ es) =
      if str_eq model k then some (source, price) else row_of k es

  abbrev pub tagged :
      Source
      → Option (ModelPrice F)
      → Option (Source × ModelPrice F)
      → Option (Source × ModelPrice F)
  tagged s none other = other
  tagged s (some p) other = some (s, p)

  row_of-all_of :
      (k : Str) (table : Table F) (rest : List (Entry F))
      → row_of k (all_of table rest) ≡ tagged litellm (lookup k table) (row_of k rest)
  unfolding row_of all_of lookup
  row_of-all_of k [] rest = refl
  row_of-all_of k ((model, price) ∷ ps) rest = ground (arith, row_of-all_of k ps rest)

  row_of-uncovered :
      (k : Str) (table ps : Table F)
      → lookup k table ≡ none
      → row_of k (uncovered table ps) ≡ tagged openrouter (lookup k ps) none
  unfolding row_of uncovered lookup
  row_of-uncovered k table [] h = refl
  row_of-uncovered k table ((model, price) ∷ ps) h =
      ground (arith, row_of-uncovered k table ps h, str_eq→eq model k)

  -- The listing has a row for a model exactly if one of the tables has a price for it. The row shows
  -- the LiteLLM price if there is one, and is tagged by the table that it is from.
  pub row_of-entries :
      (d : EngineData F) (k : Str)
      → row_of k (entries d)
        ≡ tagged litellm (lookup k d.table) (tagged openrouter (lookup k d.fallback) none)
  unfolding entries
  row_of-entries d k = elim (Option-cases (lookup k d.table)) [
    | inl e ↦
        rw (row_of-all_of k d.table (uncovered d.table d.fallback), e)
          (row_of-uncovered k d.table d.fallback e)
    | inr (p, e) ↦ rw (row_of-all_of k d.table (uncovered d.table d.fallback), e)
  ]
