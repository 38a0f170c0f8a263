-- ===== src/Pricing/Bundled.antt =====
-- `NewFromBundled`: the engine that is built from the embedded snapshots, which are its arguments.
use stint.Prelude.{Option, none, some, [], ◌∷◌, ℕ}
use stint.Prelude.Text.{Str, codes}
use stint.Prelude.Dict.{Dict}
use stint.Pricing.Double.{Double}
use stint.Pricing.Normalize.{Strings}
use stint.Pricing.Engine.{Table, EngineData, Engine, Decoder, parse_litellm, parse_openrouter}

abbrev pub default_aliases : Dict Str Str
default_aliases =
    (codes "claude-3-5-sonnet", codes "claude-3-5-sonnet-20241022")
    ∷ (codes "claude-3-5-haiku", codes "claude-3-5-haiku-20241022")
    ∷ (codes "claude-3-opus", codes "claude-3-opus-20240229")
    ∷ []

module _ {F : Type 0} ⦃fl : Double F⦄ (st : Strings) (dec : Decoder F) where
  or_empty : Option (Table F) → Table F
  or_empty none = []
  or_empty (some t) = t

  built : ℕ → Table F → Option (Table F) → Engine F × EngineData F
  unfolding or_empty
  built address table fallback = (
    record { data_at = address; overrides = [] },
    record { table = table; fallback = or_empty fallback; aliases = default_aliases },
  )

  -- The engine and what its pointer, at a fresh address, holds; `none` is the error.
  unfoldable pub new_from_bundled :
      (address : ℕ) (prices router_prices : Str) → Option (Engine F × EngineData F)
  unfolding built
  new_from_bundled address prices router_prices = elim (parse_litellm st dec prices) [
    | none ↦ none
    | some table ↦ some (built address table (parse_openrouter st dec router_prices))
  ]
