-- ===== src/UsageStats/Summary.antt =====
-- internal/usagestats/summary.go: `SummarizeAggregates`, which prices groups of usage events and adds them
-- up in total and by agent, model, project and day. `sort.Slice` and `sort.Strings` are parameters. A
-- billing type is a text here, as a group and an override hold it.
pub mod Conserved
use stint.Prelude.{
  ℕ, ◌+◌, Bool, true, false, not, ◌&&◌, Option, none, some, List, [], ◌∷◌, if◌then◌else◌, map,
}
use stint.Prelude.Text.{Str, codes, str_eq}
use stint.Prelude.Dict.{Dict, text_eq, lookup, insert}
use stint.UsageStats.Groups.{Group, tokens_of, effective, synthetic_event}
use stint.Pricing.Double.{Double, ◌⊞◌}
use stint.Pricing.Normalize.{Strings}
use stint.Pricing.Engine.{Engine, Heap}
use stint.Pricing.Cost.{Mode, Result, price, not_priced}

pub record Totals (F : Type 0) : Type 0 where
  pub cost_usd : F
  pub marginal_usd : F
  pub uncached_cost_usd : F
  pub event_count : ℕ
  pub input_tokens : ℕ
  pub output_tokens : ℕ
  pub cache_create_tokens : ℕ
  pub cache_read_tokens : ℕ
  pub reasoning_tokens : ℕ

-- `usageBucket`; its name is its key.
pub record Bucket (F : Type 0) : Type 0 where
  pub cost_usd : F
  pub marginal_usd : F
  pub tokens : ℕ
  pub event_count : ℕ
  pub billing_type : Str

pub record DayBucket (F : Type 0) : Type 0 where
  pub cost : F
  pub marginal : F
  pub tokens : ℕ

abbrev pub Buckets : Type 0 → Type 0
Buckets F = Dict Str (Bucket F)

-- The variables of the loop; the values of `unpricedSet` carry nothing.
pub record Sums (F : Type 0) : Type 0 where
  pub total : Totals F
  pub by_agent : Buckets F
  pub by_model : Buckets F
  pub by_project : Buckets F
  pub by_day : Dict Str (DayBucket F)
  pub unpriced_set : Dict Str Bool

pub record Summary (F : Type 0) : Type 0 where
  pub total : Totals F
  pub by_agent : List (Str × Bucket F)
  pub by_model : List (Str × Bucket F)
  pub by_project : List (Str × Bucket F)
  pub by_day : List (Str × DayBucket F)
  pub unpriced_models : List Str

-- The badge that an agent's bucket gets.
unfoldable pub badge : Str → Str → Str
badge known billing =
    if str_eq known []
    then billing
    else (if not (str_eq known billing) && not (str_eq billing []) then codes "mixed" else known)

module _ {F : Type 0} where
  unfoldable pub with_badge : Str → Str → Option (Bucket F) → Buckets F → Buckets F
  unfolding badge
  with_badge agent billing none m = m
  with_badge agent billing (some b) m =
      insert agent (record b { billing_type = badge b.billing_type billing }) m

module _ {F : Type 0} ⦃fl : Double F⦄ where
  open fl use {nought}

  unfoldable pub or_empty_bucket : Option (Bucket F) → Bucket F
  or_empty_bucket (some b) = b
  or_empty_bucket none = record {
    cost_usd = nought;
    marginal_usd = nought;
    tokens = 0;
    event_count = 0;
    billing_type = [];
  }

  -- The closure `bump`
  unfoldable pub bump : Str → F → F → ℕ → ℕ → Buckets F → Buckets F
  unfolding or_empty_bucket
  bump key cost marginal tokens count m =
      let b = or_empty_bucket (lookup key m) in
      insert key
        (record b {
          cost_usd = b.cost_usd ⊞ cost;
          marginal_usd = b.marginal_usd ⊞ marginal;
          tokens = b.tokens + tokens;
          event_count = b.event_count + count;
        })
        m

  unfoldable pub or_empty_day : Option (DayBucket F) → DayBucket F
  or_empty_day (some d) = d
  or_empty_day none = record { cost = nought; marginal = nought; tokens = 0 }

  bump_day : Str → F → F → ℕ → Dict Str (DayBucket F) → Dict Str (DayBucket F)
  unfolding or_empty_day
  bump_day day cost marginal tokens m =
      let d = or_empty_day (lookup day m) in
      insert day
        (record {
          cost = d.cost ⊞ cost;
          marginal = d.marginal ⊞ marginal;
          tokens = d.tokens + tokens;
        })
        m

  add_total : Group F → Result F → Totals F → Totals F
  add_total g r t = record {
    cost_usd = t.cost_usd ⊞ r.usd;
    marginal_usd = t.marginal_usd ⊞ r.marginal_usd;
    uncached_cost_usd = t.uncached_cost_usd ⊞ r.uncached_usd;
    event_count = t.event_count + g.event_count;
    input_tokens = t.input_tokens + g.input;
    output_tokens = t.output_tokens + g.output;
    cache_create_tokens = t.cache_create_tokens + (g.cache_create_5m + g.cache_create_1h);
    cache_read_tokens = t.cache_read_tokens + g.cache_read;
    reasoning_tokens = t.reasoning_tokens + g.reasoning;
  }

  -- The body of the loop, given the price of the group. An absent engine resolves no model.
  unfoldable pub add_group : Dict Str Str → Group F → Result F → Sums F → Sums F
  unfolding tokens_of with_badge bump bump_day add_total
  add_group overrides g r s =
      let tokens = tokens_of g in
      let billing = effective g.billing_type (lookup g.agent overrides) in
      let agents = bump g.agent r.usd r.marginal_usd tokens g.event_count s.by_agent in
      record {
        total = add_total g r s.total;
        by_agent = with_badge g.agent billing (lookup g.agent agents) agents;
        by_model = bump g.model r.usd r.marginal_usd tokens g.event_count s.by_model;
        by_project = bump g.project r.usd r.marginal_usd tokens g.event_count s.by_project;
        by_day = bump_day g.day r.usd r.marginal_usd tokens s.by_day;
        unpriced_set =
            if not r.model_resolved && not (str_eq g.model [])
            then insert g.model true s.unpriced_set
            else s.unpriced_set;
      }

  abbrev pub no_sums : Sums F
  no_sums = record {
    total = record {
      cost_usd = nought;
      marginal_usd = nought;
      uncached_cost_usd = nought;
      event_count = 0;
      input_tokens = 0;
      output_tokens = 0;
      cache_create_tokens = 0;
      cache_read_tokens = 0;
      reasoning_tokens = 0;
    };
    by_agent = [];
    by_model = [];
    by_project = [];
    by_day = [];
    unpriced_set = [];
  }

  pub day_rows : Dict Str (DayBucket F) → List Str → List (Str × DayBucket F)
  unfolding or_empty_day
  day_rows m [] = []
  day_rows m (day ∷ days) = (day, or_empty_day (lookup day m)) ∷ day_rows m days

  module _ (st : Strings) (heap : Heap F) (mode : Mode) (engine : Option (Engine F)) where
    unfoldable pub group_price : Dict Str Str → Group F → Result F
    unfolding synthetic_event
    group_price overrides g = elim engine [
      | none ↦ not_priced false
      | some eng ↦ price st heap eng (synthetic_event overrides g) mode
    ]

    unfoldable pub sums_of : Dict Str Str → List (Group F) → Sums F → Sums F
    unfolding group_price add_group
    sums_of overrides [] s = s
    sums_of overrides (g ∷ gs) s =
        sums_of overrides gs (add_group overrides g (group_price overrides g) s)

    unfoldable pub summarize_aggregates :
        (sort_buckets : Buckets F → List (Str × Bucket F)) (sort_strings : List Str → List Str)
        → List (Group F)
        → Dict Str Str
        → Summary F
    unfolding sums_of day_rows
    summarize_aggregates sort_buckets sort_strings groups overrides =
        let s = sums_of overrides groups no_sums in
        record {
          total = s.total;
          by_agent = sort_buckets s.by_agent;
          by_model = sort_buckets s.by_model;
          by_project = sort_buckets s.by_project;
          by_day = day_rows s.by_day (sort_strings (map (λ p. p.0) s.by_day));
          unpriced_models = sort_strings (map (λ p. p.0) s.unpriced_set);
        }
