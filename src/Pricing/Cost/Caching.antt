-- ===== src/Pricing/Cost/Caching.antt =====
-- The no-cache counterfactual.
use stint.Prelude.{◌≡◌, Option, none, some}
use native.Mathlib.Nat.{add-zero}
use stint.Usage.{Event}
use stint.Pricing.Double.{Double, ◌⊞◌, ◌⊠◌}
use stint.Pricing.Normalize.{Strings}
use stint.Pricing.Engine.{ModelPrice, Engine, Heap, lookup_model}
use stint.Pricing.Cost.{cost_of, uncached_of, calculate_event, priced_at}

-- Laws of `float64` for finite prices: zero tokens cost nothing, and adding nothing changes nothing.
pub record HasZero (F : Type 0) ⦃fl : Double F⦄ : Type 0 where
  pub mul_zero : (x : F) → fl.of_int 0 ⊠ x ≡ fl.nought
  pub add_zero : (x : F) → x ⊞ fl.nought ≡ x

module _ {F : Type 0} ⦃fl : Double F⦄ (laws : HasZero F) where
  open laws use {mul_zero, add_zero}

  cost_of_no_cache :
      (p : ModelPrice F) (e : Event F)
      → e.cache_create_5m_tokens ≡ 0
      → e.cache_create_1h_tokens ≡ 0
      → e.cache_read_tokens ≡ 0
      → cost_of p e ≡ uncached_of p e
  unfolding cost_of uncached_of
  cost_of_no_cache p e h5 h1 hr = simp (h5, h1, hr, mul_zero, add_zero, add-zero)

  priced_at_no_cache :
      (e : Event F) (o : Option (ModelPrice F)) {cost uncached : F}
      → e.cache_create_5m_tokens ≡ 0
      → e.cache_create_1h_tokens ≡ 0
      → e.cache_read_tokens ≡ 0
      → priced_at e o ≡ some (cost, uncached)
      → cost ≡ uncached
  unfolding priced_at
  priced_at_no_cache e none h5 h1 hr q = cc
  priced_at_no_cache e (some p) h5 h1 hr q = cc (cost_of_no_cache p e h5 h1 hr)

  -- An event that neither reads nor writes a prompt cache is charged, to the last bit, what it would
  -- cost without caching, whatever the rates of the model for cached tokens.
  pub calculate_event_no_cache :
      (st : Strings) (heap : Heap F) (eng : Engine F) (e : Event F) {cost uncached : F}
      → e.cache_create_5m_tokens ≡ 0
      → e.cache_create_1h_tokens ≡ 0
      → e.cache_read_tokens ≡ 0
      → calculate_event st heap eng e ≡ some (cost, uncached)
      → cost ≡ uncached
  unfolding calculate_event
  calculate_event_no_cache st heap eng e = priced_at_no_cache e (lookup_model st heap eng e.model)
