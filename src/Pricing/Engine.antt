-- ===== src/Pricing/Engine.antt =====
-- The price tables and their lookup, and the loading of tables. The atomic pointer that an engine
-- shares with its clones is an address in a heap of `EngineData`; JSON decoding and `ParseFloat`
-- are parameters.
pub mod Names
pub mod Lookup
pub mod Tables
use stint.Prelude.{
  ℕ, zero, suc, ◌≡◌, Bool, true, false, not, ◌&&◌, ◌||◌, Option, none, some, List, [], ◌∷◌, ◌++◌,
  ◌==◌, leb, if◌then◌else◌,
}
use stint.Prelude.Text.{Str, codes, str_eq}
use stint.Prelude.Dict.{Dict, text_eq, lookup, insert}
use stint.Pricing.Normalize.{Strings, normalize}
use stint.Pricing.Double.{Double}

pub record ModelPrice (F : Type 0) : Type 0 where
  pub input_per_token : F
  pub output_per_token : F
  pub cache_create_5m_per_token : F
  pub cache_create_1h_per_token : F
  pub cache_read_per_token : F
  pub provider : Str

abbrev pub Table : Type 0 → Type 0
Table F = Dict Str (ModelPrice F)

pub record EngineData (F : Type 0) : Type 0 where
  pub table : Table F
  pub fallback : Table F
  pub aliases : Dict Str Str

pub record Engine (F : Type 0) : Type 0 where
  -- the address of the shared pointer
  pub data_at : ℕ
  pub overrides : Table F

abbrev pub Heap : Type 0 → Type 0
Heap F = ℕ → EngineData F

-- `if price, ok := …; ok { return price, true }` before the next probe.
infixr 30 ◌or_else◌
abbrev pub ◌or_else◌ {ℓ} : {A : Type ℓ} → Option A → Option A → Option A
some a or_else o = some a
none or_else o = o

abbrev is_digit : ℕ → Bool
is_digit c = leb b'0' c && leb c b'9'

abbrev all_digits : Str → Bool
all_digits [] = true
all_digits (c ∷ s) = is_digit c && all_digits s

-- A text that is a match of `-20\d{6}$`.
is_date_suffix : Str → Bool
is_date_suffix (a ∷ b ∷ c ∷ d ∷ e ∷ f ∷ g ∷ h ∷ i ∷ []) =
    a == b'-' && b == b'2' && c == b'0' && all_digits (d ∷ e ∷ f ∷ g ∷ h ∷ i ∷ [])
is_date_suffix s = false

-- `dateSuffix.ReplaceAllString(s, "")`
unfoldable pub strip_date : Str → Str
unfolding is_date_suffix
strip_date [] = []
strip_date (c ∷ s) = if is_date_suffix (c ∷ s) then [] else c ∷ strip_date s

module _ {F : Type 0} where
  -- `if canonical, ok := d.aliases[k]; ok { if price, ok := d.table[canonical]; …`
  abbrev pub through : Table F → Option Str → Option (ModelPrice F)
  through table none = none
  through table (some canonical) = lookup canonical table

  -- The probes for the date-stripped name.
  unfoldable pub dated : EngineData F → Str → Option (ModelPrice F)
  unfolding strip_date
  dated d norm =
      let stripped = strip_date norm in
      if str_eq stripped norm
      then none
      else lookup stripped d.table or_else through d.table (lookup stripped d.aliases)

  -- The LiteLLM layer: every probe between the overrides and the fallback.
  unfoldable pub table_probe : EngineData F → (raw norm : Str) → Option (ModelPrice F)
  unfolding dated
  table_probe d raw norm =
      lookup raw d.table
      or_else lookup norm d.table
      or_else through d.table (lookup norm d.aliases)
      or_else dated d norm

module _ {F : Type 0} (st : Strings) where
  open st use {to_lower, trim_space}

  unfoldable pub lookup_model : Heap F → Engine F → Str → Option (ModelPrice F)
  unfolding table_probe
  lookup_model heap e model =
      let d = heap e.data_at in
      let norm = normalize st model in
      lookup norm e.overrides
      or_else table_probe d (to_lower (trim_space model)) norm
      or_else lookup norm d.fallback

  unfoldable pub has : Heap F → Engine F → Str → Bool
  has heap e model = elim (lookup_model heap e model) [ none ↦ false | some p ↦ true ]

  normalised : List (Str × ModelPrice F) → Table F → Table F
  normalised [] out = out
  normalised ((model, price) ∷ ps) out = normalised ps (insert (normalize st model) price out)

  -- `SetOverrides` on an engine, and the shallow copy of `WithOverrides`.
  unfoldable pub set_overrides : Engine F → List (Str × ModelPrice F) → Engine F
  unfolding normalised
  set_overrides e overrides = record e { overrides = normalised overrides [] }

  unfoldable pub with_overrides : Engine F → List (Str × ModelPrice F) → Engine F
  unfolding normalised
  with_overrides e overrides = record { data_at = e.data_at; overrides = normalised overrides [] }

-- A row of OpenRouter's answer.
pub record OpenRouterModel : Type 0 where
  pub id : Str
  pub prompt : Str
  pub completion : Str
  pub input_cache_read : Str
  pub input_cache_write : Str

-- `json.Unmarshal` of the two documents (an entry that does not decode is `none`), and `ParseFloat`.
pub record Decoder (F : Type 0) : Type 0 where
  pub openrouter : Str → Option (List OpenRouterModel)
  pub litellm : Str → Option (List (Str × Option (ModelPrice F)))
  pub parse_float : Str → Option F

module _ {F : Type 0} ⦃fl : Double F⦄ (st : Strings) (dec : Decoder F) where
  open st use {to_lower, trim_space}

  atof : Str → F
  atof s = elim (dec.parse_float (trim_space s)) [ none ↦ fl.nought | some v ↦ v ]

  router_price : OpenRouterModel → ModelPrice F
  unfolding atof
  router_price m =
      let cache_write = atof m.input_cache_write in
      record {
        input_per_token = atof m.prompt;
        output_per_token = atof m.completion;
        cache_create_5m_per_token = cache_write;
        cache_create_1h_per_token = cache_write;
        cache_read_per_token = atof m.input_cache_read;
        provider = codes "openrouter";
      }

  pub router_table : List OpenRouterModel → Table F → Table F
  router_table [] out = out
  router_table (m ∷ ms) out = router_table ms (
      if str_eq m.id [] || str_eq m.prompt [] && str_eq m.completion []
      then out
      else insert (normalize st m.id) (router_price m) out)

  unfoldable pub parse_openrouter : Str → Option (Table F)
  unfolding router_table router_price
  parse_openrouter bytes = elim (dec.openrouter bytes) [
    | none ↦ none
    | some ms ↦ some (router_table ms [])
  ]

  -- One entry of the LiteLLM document.
  add_entry : Str → Option (ModelPrice F) → Table F → Table F
  add_entry key none out = out
  add_entry key (some price) out =
      if str_eq key (codes "sample_spec")
        || fl.is_nought price.input_per_token
          && fl.is_nought price.output_per_token
          && fl.is_nought price.cache_read_per_token
      then out
      else insert (to_lower key) price out

  pub litellm_table : List (Str × Option (ModelPrice F)) → Table F → Table F
  unfolding add_entry
  litellm_table [] out = out
  litellm_table ((key, value) ∷ raw) out = litellm_table raw (add_entry key value out)

  unfoldable pub parse_litellm : Str → Option (Table F)
  unfolding litellm_table
  parse_litellm bytes = elim (dec.litellm bytes) [
    | none ↦ none
    | some raw ↦ some (litellm_table raw [])
  ]

  -- `CountLiteLLM` and `CountOpenRouter` are `length` of these tables.
  pub fresh_fallback : Table F → Option Str → Table F
  fresh_fallback current none = current
  fresh_fallback current (some bytes) = elim (parse_openrouter bytes) [
    | none ↦ current
    | some f ↦ f
  ]

  unfoldable pub fresh_table : Table F → Option Str → Option (Table F)
  fresh_table current none = some current
  fresh_table current (some bytes) = parse_litellm bytes

  -- `e.data.Store(…)`
  abbrev store_at : ℕ → EngineData F → Heap F → Heap F
  store_at a d heap b = if a == b then d else heap b

  stored : Engine F → Option Str → Heap F → Option (Table F) → Heap F × Bool
  unfolding fresh_fallback
  stored e openrouter heap none = (heap, false)
  stored e openrouter heap (some table) =
      let cur = heap e.data_at in
      (
        store_at e.data_at
            (record cur { table = table; fallback = fresh_fallback cur.fallback openrouter }) heap,
        true,
      )

  -- `Reload`: the heap after it, and whether it returned no error.
  unfoldable pub reload : Engine F → (litellm openrouter : Option Str) → Heap F → Heap F × Bool
  unfolding stored
  reload e litellm openrouter heap =
      stored e openrouter heap (fresh_table (heap e.data_at).table litellm)
