-- ===== src/Pricing/Cost/Laws.antt =====
-- What the fields of a `Result` mean.
use stint.Prelude.{◌≡◌, Bool, true, false, ◌&&◌, ◌||◌, Option, none, some, arith, ◌↔◌}
use stint.Usage.{Event, BillingType, unknown, api, subscription, other}
use stint.Pricing.Double.{Double}
use stint.Pricing.Normalize.{Strings}
use stint.Pricing.Engine.{Engine, Heap, has}
use stint.Pricing.Cost.{
  Mode, auto, calculate, display, unpriced, Result, calculate_event, price, cost_of, uncached_of,
}

abbrev is_some {ℓ} : {A : Type ℓ} → Option A → Bool
is_some none = false
is_some (some a) = true

-- Whether a mode looks at the cost that the provider reports, and whether it calculates one.
abbrev pub trusts : Mode → Bool
trusts calculate = false
trusts _ = true

abbrev pub estimates : Mode → Bool
estimates display = false
estimates _ = true

module _ {F : Type 0} ⦃fl : Double F⦄ (st : Strings) (heap : Heap F) (eng : Engine F) where
  -- What a result says, whatever the mode and the event.
  pub record Reports (e : Event F) (mode : Mode) (r : Result F) : Type 0 where
    -- an event is priced exactly if the mode trusts a cost that the provider reported, or estimates
    -- and the model has a price
    pub priced_lem :
        r.priced
        ≡ (trusts mode && is_some e.cost_usd_provided || estimates mode && has st heap eng e.model)
    pub resolved_lem : r.model_resolved ≡ has st heap eng e.model
    -- subscription usage costs nothing at the margin
    pub marginal_lem : r.marginal_usd ≡ (elim e.billing_type [
      | unknown ↦ r.usd
      | api ↦ r.usd
      | subscription ↦ fl.nought
      | other ↦ r.usd
    ])
    -- what is not priced costs nothing and says so
    pub unpriced_lem : (r.priced ≡ false) ↔ (r.source ≡ unpriced)
    pub nothing_lem : r.priced ≡ false → (r.usd ≡ fl.nought) × (r.uncached_usd ≡ fl.nought)

  -- In every mode the result of `Price` is flagged as priced exactly when a cost was found, tells
  -- whether the model has a price in the engine, and has no marginal cost for subscription usage.
  pub price-Reports : (e : Event F) (mode : Mode) → Reports e mode (price st heap eng e mode)
  unfolding price has calculate_event
  price-Reports e auto = ground arith
  price-Reports e calculate = ground arith
  price-Reports e display = ground arith

  -- How an event is billed does not enter its list price.
  pub usd-price-billing :
      (e : Event F) (mode : Mode) (b : BillingType)
      → (price st heap eng (record e { billing_type = b }) mode).usd
        ≡ (price st heap eng e mode).usd
  unfolding price calculate_event cost_of uncached_of
  usd-price-billing e auto b = ground arith
  usd-price-billing e calculate b = ground arith
  usd-price-billing e display b = ground arith
