-- ===== src/Pricing/Engine/Lookup.antt =====
-- Which price a model gets: the layers and their priority, clones and reloads.
use stint.Prelude.{
  ℕ, ◌≡◌, ◌≢◌, inl, inr, refl, ap, ◌∙◌, Bool, true, false, not, Option-cases, Option, none, some,
  List, [], ◌∷◌, arith, if◌then◌else◌,
}
use stint.Prelude.Text.{Str, str_eq}
use stint.Prelude.Dict.{text_eq, lookup, insert, lookup-insert}
use stint.Pricing.Normalize.{Strings, normalize}
use stint.Pricing.Double.{Double}
use stint.Pricing.Engine.{
  ModelPrice, Table, EngineData, Engine, Heap, ◌or_else◌, lookup_model, normalised, with_overrides,
  Decoder, fresh_table, fresh_fallback, stored, reload, parse_litellm, parse_openrouter,
}
use stint.Pricing.Engine.Names.{
  or_else-none, first_priced, with_aliases, without_date, table_probe_lem,
}

module _ {F : Type 0} (st : Strings) where
  -- The custom price that a list of overrides holds for a model: the last one whose name has the
  -- model's normalised name.
  unfoldable pub custom : Str → List (Str × ModelPrice F) → Option (ModelPrice F)
  custom norm [] = none
  custom norm ((model, price) ∷ ps) =
      custom norm ps or_else (if str_eq (normalize st model) norm then some price else none)

  lookup-normalised :
      (norm : Str) (ps : List (Str × ModelPrice F)) (out : Table F)
      → lookup norm (normalised st ps out) ≡ custom norm ps or_else lookup norm out
  unfolding normalised custom
  lookup-normalised norm [] out = refl
  lookup-normalised norm ((model, price) ∷ ps) out = ground (
    arith,
    lookup-normalised norm ps (insert (normalize st model) price out),
    lookup-insert (normalize st model) norm price out,
  )

  -- The price of a model by given tables, under given overrides: the user's price; or that of the first
  -- of these names that the LiteLLM table holds: the raw name in lower case, the normalised name, its
  -- alias, the normalised name without a date, the alias of that; or the fallback's.
  abbrev pub priced : EngineData F → List (Str × ModelPrice F) → Str → Option (ModelPrice F)
  priced d ps model =
      let norm = normalize st model in
      let raw = st.to_lower (st.trim_space model) in
      custom norm ps
      or_else first_priced d.table (raw ∷ with_aliases d.aliases (norm ∷ without_date norm))
      or_else lookup norm d.fallback

  -- A user's price for a model wins over every table. Where there is none the model gets the price that
  -- the LiteLLM table has for the first of these names: the raw name, in lower case and without spaces
  -- around it, the normalised name, its alias, the normalised name without the date "-20" and six digits
  -- in which it ends, if it does, and the alias of that. Only where all of these fail it gets that of
  -- the fallback for the normalised name.
  pub lookup_model-with_overrides :
      (heap : Heap F) (e : Engine F) (ps : List (Str × ModelPrice F)) (model : Str)
      → lookup_model st heap (with_overrides st e ps) model ≡ priced (heap e.data_at) ps model
  unfolding lookup_model with_overrides
  lookup_model-with_overrides heap e ps model =
      let d = heap e.data_at in
      let norm = normalize st model in
      rw
        (
          lookup-normalised norm ps [],
          no_entry norm,
          or_else-none (custom norm ps),
          table_probe_lem d (st.to_lower (st.trim_space model)) norm,
        )
        refl
    where
      no_entry : (k : Str) → lookup {V = ModelPrice F} k [] ≡ none
      no_entry k = unfold lookup in refl

  module _ ⦃fl : Double F⦄ (dec : Decoder F) where
    abbrev parsed_or : Table F → Option (Table F) → Table F
    parsed_or old none = old
    parsed_or old (some table) = table

    abbrev fails : Option (Table F) → Bool
    fails none = true
    fails (some table) = false

    -- A layer behind a reload: by its snapshot, or as it was where there is none or it does not parse.
    abbrev newest : (Str → Option (Table F)) → Option Str → Table F → Table F
    newest parse none old = old
    newest parse (some bytes) old = parsed_or old (parse bytes)

    -- A LiteLLM snapshot that does not parse.
    abbrev pub is_refused : Option Str → Bool
    is_refused none = false
    is_refused (some bytes) = fails (parse_litellm st dec bytes)

    abbrev pub renewed : (litellm openrouter : Option Str) → EngineData F → EngineData F
    renewed litellm openrouter cur = if is_refused litellm then cur else record cur {
      table = newest (parse_litellm st dec) litellm cur.table;
      fallback = newest (parse_openrouter st dec) openrouter cur.fallback;
    }

    fresh_fallback_lem :
        (old : Table F) (openrouter : Option Str)
        → fresh_fallback st dec old openrouter ≡ newest (parse_openrouter st dec) openrouter old
    unfolding fresh_fallback
    fresh_fallback_lem old none = refl
    fresh_fallback_lem old (some bytes) = elim (Option-cases (parse_openrouter st dec bytes)) [
      | inl p ↦ rw (fresh_fallback, p) refl
      | inr (table, p) ↦ rw (fresh_fallback, p) refl
    ]

    module _ (e : Engine F) (heap : Heap F) where
      -- What a reload does to the heap, and whether it reports success.
      abbrev Renews : (litellm openrouter : Option Str) → Heap F × Bool → Type 0
      Renews litellm openrouter (heap', ok) =
          (ok ≡ not (is_refused litellm))
          × (heap' e.data_at ≡ renewed litellm openrouter (heap e.data_at))
          × ((a : ℕ) → a ≢ e.data_at → heap' a ≡ heap a)

      reload-Renews :
          (litellm openrouter : Option Str)
          → Renews litellm openrouter (reload st dec e litellm openrouter heap)
      unfolding reload fresh_table stored
      reload-Renews none openrouter =
          rw (fresh_fallback_lem (heap e.data_at).fallback openrouter)
            (refl, ground arith, λ a ne. ground arith)
      reload-Renews (some bytes) openrouter = elim (Option-cases (parse_litellm st dec bytes)) [
        | inl p ↦ rw p (refl, refl, λ a ne. refl)
        | inr (table, p) ↦
            rw (p, fresh_fallback_lem (heap e.data_at).fallback openrouter)
              (refl, ground arith, λ a ne. ground arith)
      ]

      -- After a reload every clone of the engine, with whatever overrides, prices by the new tables, its
      -- own overrides still first. A LiteLLM snapshot that does not parse is refused, and then both
      -- tables stay; else each table is that of its snapshot, and stays if that is nil, or if the
      -- OpenRouter snapshot does not parse. The aliases stay. The tables of engines that do not share
      -- the pointer are as before.
      pub reload_reaches_clones :
          (litellm openrouter : Option Str) (ps : List (Str × ModelPrice F))
          → let (heap', ok) = reload st dec e litellm openrouter heap in
            let d = renewed litellm openrouter (heap e.data_at) in
            (ok ≡ not (is_refused litellm))
            × ((model : Str)
                → lookup_model st heap' (with_overrides st e ps) model ≡ priced d ps model)
            × ((a : ℕ) → a ≢ e.data_at → heap' a ≡ heap a)
      reload_reaches_clones litellm openrouter ps =
          let (ok, at_self, others) = reload-Renews litellm openrouter in
          (
            ok,
            λ model.
                lookup_model-with_overrides (reload st dec e litellm openrouter heap).0 e ps model
                ∙ ap (λ d. priced d ps model) at_self,
            others,
          )
