-- ===== src/Pricing/Cost.antt =====
-- `Calculate` and `Price`: the cost of one event under a mode.
pub mod Laws
pub mod Caching
use stint.Prelude.{ℕ, ◌+◌, ◌≡◌, Bool, true, false, ◌&&◌, Option, none, some, if◌then◌else◌}
use stint.Usage.{Event, BillingType, subscription}
use stint.Pricing.Double.{Double, ◌⊞◌, ◌⊠◌}
use stint.Pricing.Normalize.{Strings}
use stint.Pricing.Engine.{ModelPrice, Engine, Heap, lookup_model, has}

-- Any other text is treated as `auto`.
pub data Mode : Type 0 where
  auto calculate display : Mode

pub data Source : Type 0 where
  provided calculated unpriced : Source

pub record Result (F : Type 0) : Type 0 where
  pub usd : F
  pub marginal_usd : F
  pub uncached_usd : F
  pub priced : Bool
  pub model_resolved : Bool
  pub source : Source

module _ {F : Type 0} ⦃fl : Double F⦄ where
  open fl use {nought, two, of_int, is_nought, is_positive}

  -- The rate of a one-hour cache write.
  unfoldable pub cache1h_rate : ModelPrice F → F
  cache1h_rate p =
      if is_nought p.cache_create_1h_per_token && is_positive p.cache_create_5m_per_token
      then p.input_per_token ⊠ two
      else p.cache_create_1h_per_token

  unfoldable pub cost_of : ModelPrice F → Event F → F
  unfolding cache1h_rate
  cost_of p e =
      of_int e.input_tokens ⊠ p.input_per_token
      ⊞ of_int e.output_tokens ⊠ p.output_per_token
      ⊞ of_int e.cache_create_5m_tokens ⊠ p.cache_create_5m_per_token
      ⊞ of_int e.cache_create_1h_tokens ⊠ cache1h_rate p
      ⊞ of_int e.cache_read_tokens ⊠ p.cache_read_per_token
      ⊞ of_int e.reasoning_tokens ⊠ p.output_per_token

  unfoldable pub uncached_of : ModelPrice F → Event F → F
  uncached_of p e =
      let uncached_input =
        e.input_tokens + e.cache_create_5m_tokens + e.cache_create_1h_tokens
        + e.cache_read_tokens in
      of_int uncached_input ⊠ p.input_per_token
      ⊞ of_int e.output_tokens ⊠ p.output_per_token
      ⊞ of_int e.reasoning_tokens ⊠ p.output_per_token

  priced_at : Event F → Option (ModelPrice F) → Option (F × F)
  priced_at e none = none
  priced_at e (some p) = some (cost_of p e, uncached_of p e)

  -- The closure `withBilling`.
  unfoldable pub with_billing : Event F → (usd uncached : F) → Source → Bool → Result F
  with_billing e usd uncached source resolved = record {
    usd = usd;
    marginal_usd = zeroed e.billing_type;
    uncached_usd = uncached;
    priced = true;
    model_resolved = resolved;
    source = source;
  }
    where
      zeroed : BillingType → F
      zeroed subscription = nought
      zeroed _ = usd

  unfoldable pub not_priced : Bool → Result F
  not_priced resolved = record {
    usd = nought;
    marginal_usd = nought;
    uncached_usd = nought;
    priced = false;
    model_resolved = resolved;
    source = unpriced;
  }

  -- What a calculation makes of an event.
  by_calculation : Event F → Option (F × F) → Result F
  unfolding with_billing not_priced
  by_calculation e none = not_priced false
  by_calculation e (some (usd, uncached)) = with_billing e usd uncached calculated true

  module _ (st : Strings) (heap : Heap F) (eng : Engine F) where
    -- `none` is the result `false`.
    unfoldable pub calculate_event : Event F → Option (F × F)
    unfolding priced_at
    calculate_event e = priced_at e (lookup_model st heap eng e.model)

    price_with : Event F → Mode → Option F → Result F
    unfolding by_calculation
    price_with e display (some c) = with_billing e c c provided (has st heap eng e.model)
    price_with e display none = not_priced (has st heap eng e.model)
    price_with e calculate _ = by_calculation e (calculate_event e)
    price_with e auto (some c) = with_billing e c c provided (has st heap eng e.model)
    price_with e auto none = by_calculation e (calculate_event e)

    unfoldable pub price : Event F → Mode → Result F
    unfolding price_with
    price e mode = price_with e mode e.cost_usd_provided
