-- ===== src/Examples/Summary.antt =====
-- Examples of internal/usagestats/summary.go: two groups of one agent, one of a model without a price.
use stint.Prelude.{ℕ, ◌≡◌, false, some, List, [], ◌∷◌, sum_by}
use mathlib.Core.List.{Perm}
use mathlib.Core.List.Perm
use stint.Prelude.Text.{Str, codes}
use stint.Prelude.Dict.{Dict}
use stint.Pricing.Double.{Double, whole}
use stint.Pricing.Cost.{auto}
use stint.UsageStats.Groups.{Group, tokens_of}
use stint.UsageStats.Summary.{Bucket, Buckets, Summary, summarize_aggregates}
use stint.UsageStats.Summary.Conserved.{IsBalanced, total_of, summarize_aggregates-IsBalanced}
use stint.Examples.Pricing.{ascii, shared, engine}

instance abbrev money : Double ℕ
money = whole

abbrev opus_group : Group ℕ
opus_group = record {
  agent = codes "claude";
  model = codes "opus";
  project = codes "stint";
  day = codes "2026-01-02";
  billing_type = [];
  has_provided = false;
  input = 10;
  output = 4;
  cache_create_5m = 1;
  cache_create_1h = 0;
  cache_read = 6;
  reasoning = 0;
  provided_cost_usd = 0;
  event_count = 3;
}

abbrev groups : List (Group ℕ)
groups = opus_group ∷ record opus_group { model = codes "unheard"; project = [] } ∷ []

abbrev plans : Dict Str Str
plans = (codes "claude", codes "subscription") ∷ []

abbrev as_is : Buckets ℕ → List (Str × Bucket ℕ)
as_is m = m

as_is-Perm : (m : Buckets ℕ) → Perm (as_is m) m
as_is-Perm m = Perm.refl m

abbrev summary : Summary ℕ
summary = summarize_aggregates ascii shared auto (some engine) as_is (λ days. days) groups plans

summarize_aggregates-IsBalanced_example :
    IsBalanced summary.total summary.by_agent summary.by_model summary.by_project
    × (total_of summary.total ≡ sum_by tokens_of groups)
    × (summary.total.event_count ≡ sum_by (λ g. g.event_count) groups)
summarize_aggregates-IsBalanced_example =
    summarize_aggregates-IsBalanced ascii shared auto (some engine) as_is (λ days. days) groups
      plans as_is-Perm
