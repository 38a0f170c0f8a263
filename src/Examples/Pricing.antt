-- ===== src/Examples/Pricing.antt =====
-- Examples of internal/pricing: one model in each table, and a user's price.
use stint.Prelude.{ℕ, ◌+◌, ◌*◌, ◌≡◌, ◌≢◌, refl, true, Option, none, some, List, [], ◌∷◌, arith}
use stint.Prelude.Text.{Str, codes, str_eq}
use stint.Prelude.Dict.{text_eq, lookup, insert}
use stint.Usage.{Event}
use stint.Pricing.Double.{Double, whole}
use stint.Pricing.Normalize.{Strings, region_prefixes, normalize}
use stint.Pricing.Normalize.Laws.{LacksSlash, IsStripped, normalize-IsStripped}
use stint.Pricing.Engine.{
  ModelPrice, EngineData, Engine, Heap, lookup_model, with_overrides, Decoder, reload,
  parse_litellm, parse_openrouter,
}
use stint.Pricing.Engine.Lookup.{priced, lookup_model-with_overrides, reload_reaches_clones}
use stint.Pricing.Cost.{auto, calculate_event, price, cost_of, uncached_of}
use stint.Pricing.Cost.Laws.{Reports, price-Reports}
use stint.Pricing.Cost.Caching.{HasZero}
use stint.Examples.Usage.{bare}

instance abbrev money : Double ℕ
money = whole

abbrev pub ascii : Strings
ascii = record { to_lower = λ s. s; trim_space = λ s. s }

abbrev rate : ℕ → ModelPrice ℕ
rate n = record {
  input_per_token = n;
  output_per_token = 5 * n;
  cache_create_5m_per_token = n;
  cache_create_1h_per_token = 0;
  cache_read_per_token = 1;
  provider = codes "p";
}

abbrev tables : EngineData ℕ
tables = record {
  table = (codes "opus", rate 3) ∷ [];
  fallback = (codes "opus", rate 4) ∷ (codes "kimi", rate 1) ∷ [];
  aliases = [];
}

abbrev pub shared : Heap ℕ
shared _ = tables

abbrev pub engine : Engine ℕ
engine = record { data_at = 0; overrides = [] }

abbrev mine : List (Str × ModelPrice ℕ)
mine = (codes "anthropic/opus", rate 7) ∷ []

normalize-IsStripped_example :
    LacksSlash (normalize ascii (codes "us.anthropic/us.opus"))
    × IsStripped region_prefixes (normalize ascii (codes "us.anthropic/us.opus"))
normalize-IsStripped_example = normalize-IsStripped ascii (codes "us.anthropic/us.opus")

lookup_model-with_overrides_example :
    lookup_model ascii shared (with_overrides ascii engine mine) (codes "opus")
    ≡ priced ascii tables mine (codes "opus")
lookup_model-with_overrides_example =
    lookup_model-with_overrides ascii shared engine mine (codes "opus")

-- A name with a date, which the table has without it.
dated_opus : lookup_model ascii shared engine (codes "us.opus-20250101") ≡ some (rate 3)
unfolding lookup_model normalize str_eq lookup
dated_opus = refl

-- A decoder that reads a document as the name of its only model, and no document of the fallback.
abbrev rows : Str → Option (List (Str × Option (ModelPrice ℕ)))
rows [] = none
rows (c ∷ s) = some ((c ∷ s, some (rate 2)) ∷ [])

abbrev decoder : Decoder ℕ
decoder = record { openrouter = λ s. none; litellm = rows; parse_float = λ s. none }

abbrev fresh_prices : Option Str
fresh_prices = some (codes "grok")

abbrev broken : Option Str
broken = some (codes "{")

reload_reaches_clones_example :
    let (heap', ok) = reload ascii decoder engine fresh_prices broken shared in
    (ok ≡ true)
    × ((model : Str)
        → lookup_model ascii heap' (with_overrides ascii engine mine) model
          ≡ priced ascii
              (record {
                table = (codes "grok", rate 2) ∷ [];
                fallback = tables.fallback;
                aliases = [];
              })
              mine
              model)
    × ((a : ℕ) → a ≢ 0 → heap' a ≡ tables)
unfolding parse_litellm parse_openrouter insert str_eq
reload_reaches_clones_example =
    reload_reaches_clones ascii decoder engine shared fresh_prices broken mine

price-Reports_example : Reports ascii shared engine bare auto (price ascii shared engine bare auto)
price-Reports_example = price-Reports ascii shared engine bare auto

zero_mul : (x : ℕ) → 0 * x ≡ 0
zero_mul x = omega arith

plus_zero : (x : ℕ) → x + 0 ≡ x
plus_zero x = omega arith

whole-HasZero : HasZero ℕ
whole-HasZero = record { mul_zero = zero_mul; add_zero = plus_zero }

abbrev plain_event : Event ℕ
plain_event = record bare { model = codes "opus" }

charged :
    calculate_event ascii shared engine plain_event
    ≡ some (cost_of (rate 3) plain_event, uncached_of (rate 3) plain_event)
unfolding calculate_event lookup_model normalize str_eq lookup
charged = refl
