-- ===== src/UsageStats/Summary/Conserved.antt =====
-- What the buckets of a summary add up to.
use stint.Prelude.{ℕ, ◌+◌, ◌≡◌, refl, ◌∙◌, Option, none, some, List, [], ◌∷◌, arith, sum_by}
use mathlib.Core.List.{Perm}
use stint.Prelude.Text.{Str}
use stint.Prelude.Dict.{Dict, text_eq, lookup}
use stint.Prelude.Sort.{sum_by-perm}
use stint.Prelude.Sums.{value_of, sum_by-insert}
use stint.Pricing.Double.{Double}
use stint.Pricing.Normalize.{Strings}
use stint.Pricing.Engine.{Engine, Heap}
use stint.Pricing.Cost.{Mode, Result}
use stint.UsageStats.Groups.{Group, tokens_of, effective}
use stint.UsageStats.Summary.{
  Totals, Bucket, Buckets, Sums, badge, with_badge, bump, or_empty_bucket, add_group, no_sums,
  group_price, sums_of, summarize_aggregates, add_total,
}

module _ {F : Type 0} where
  abbrev pub tokens_in : List (Str × Bucket F) → ℕ
  tokens_in = sum_by (λ p. p.1.tokens)

  abbrev pub events_in : List (Str × Bucket F) → ℕ
  events_in = sum_by (λ p. p.1.event_count)

  -- The tokens of all kinds in the total.
  abbrev pub total_of : Totals F → ℕ
  total_of t =
      t.input_tokens + t.output_tokens + t.cache_create_tokens + t.cache_read_tokens
      + t.reasoning_tokens

  with_badge-sums :
      (agent billing : Str) (o : Option (Bucket F)) (m : Buckets F)
      → lookup agent m ≡ o
      → (tokens_in (with_badge agent billing o m) ≡ tokens_in m)
        × (events_in (with_badge agent billing o m) ≡ events_in m)
  unfolding with_badge
  with_badge-sums agent billing none m e = (refl, refl)
  with_badge-sums agent billing (some b) m e =
      let b' : Bucket F = record b { billing_type = badge b.billing_type billing } in
      let tokens = rw e at (sum_by-insert (λ (c : Bucket F). c.tokens) agent b' m) in
      let events = rw e at (sum_by-insert (λ (c : Bucket F). c.event_count) agent b' m) in
      (omega arith, omega arith)

module _ {F : Type 0} ⦃fl : Double F⦄ where
  -- A missing bucket counts as an empty one.
  value_of-or_empty_bucket :
      (o : Option (Bucket F))
      → (value_of (λ (c : Bucket F). c.tokens) o ≡ (or_empty_bucket o).tokens)
        × (value_of (λ (c : Bucket F). c.event_count) o ≡ (or_empty_bucket o).event_count)
  unfolding or_empty_bucket
  value_of-or_empty_bucket none = (refl, refl)
  value_of-or_empty_bucket (some b) = (refl, refl)

  bump-sums :
      (key : Str) (cost marginal : F) (tokens count : ℕ) (m : Buckets F)
      → (tokens_in (bump key cost marginal tokens count m) ≡ tokens_in m + tokens)
        × (events_in (bump key cost marginal tokens count m) ≡ events_in m + count)
  unfolding bump
  bump-sums key cost marginal tokens count m =
      let b = or_empty_bucket (lookup key m) in
      let b' : Bucket F = record b {
        cost_usd = fl.add b.cost_usd cost;
        marginal_usd = fl.add b.marginal_usd marginal;
        tokens = b.tokens + tokens;
        event_count = b.event_count + count;
      } in
      let ts = sum_by-insert (λ (c : Bucket F). c.tokens) key b' m in
      let es = sum_by-insert (λ (c : Bucket F). c.event_count) key b' m in
      let (old_ts, old_es) = value_of-or_empty_bucket (lookup key m) in (omega arith, omega arith)

  -- The buckets of every kind hold the tokens and the events of the total.
  pub record IsBalanced (total : Totals F) (agents models projects : List (Str × Bucket F))
      : Type 0 where
    pub agent_tokens : tokens_in agents ≡ total_of total
    pub model_tokens : tokens_in models ≡ total_of total
    pub project_tokens : tokens_in projects ≡ total_of total
    pub agent_events : events_in agents ≡ total.event_count
    pub model_events : events_in models ≡ total.event_count
    pub project_events : events_in projects ≡ total.event_count

  abbrev IsBalancedSums : Sums F → Type 0
  IsBalancedSums s = IsBalanced s.total s.by_agent s.by_model s.by_project

  add_group-IsBalancedSums :
      (overrides : Dict Str Str) (g : Group F) (r : Result F) (s : Sums F)
      → IsBalancedSums s
      → IsBalancedSums (add_group overrides g r s)
  unfolding add_group add_total tokens_of
  add_group-IsBalancedSums overrides g r s v =
      let bumped = λ (key : Str) (m : Buckets F).
        bump-sums key r.usd r.marginal_usd (tokens_of g) g.event_count m in
      let agents = bump g.agent r.usd r.marginal_usd (tokens_of g) g.event_count s.by_agent in
      let billing = effective g.billing_type (lookup g.agent overrides) in
      let (agent_ts, agent_es) = bumped g.agent s.by_agent in
      let (model_ts, model_es) = bumped g.model s.by_model in
      let (project_ts, project_es) = bumped g.project s.by_project in
      let (badge_ts, badge_es) =
        with_badge-sums g.agent billing (lookup g.agent agents) agents refl in
      record {
        agent_tokens = omega (arith, v.agent_tokens);
        model_tokens = omega (arith, v.model_tokens);
        project_tokens = omega (arith, v.project_tokens);
        agent_events = omega (arith, v.agent_events);
        model_events = omega (arith, v.model_events);
        project_events = omega (arith, v.project_events);
      }

  module _ (st : Strings) (heap : Heap F) (mode : Mode) (engine : Option (Engine F)) where
    sums_of-IsBalancedSums :
        (overrides : Dict Str Str) (gs : List (Group F)) (s : Sums F)
        → IsBalancedSums s
        → IsBalancedSums (sums_of st heap mode engine overrides gs s)
    unfolding sums_of
    sums_of-IsBalancedSums overrides [] s v = v
    sums_of-IsBalancedSums overrides (g ∷ gs) s v =
        sums_of-IsBalancedSums overrides gs _
          (add_group-IsBalancedSums overrides g (group_price st heap mode engine overrides g) s v)

    total-sums_of :
        (overrides : Dict Str Str) (gs : List (Group F)) (s : Sums F)
        → (total_of (sums_of st heap mode engine overrides gs s).total
            ≡ total_of s.total + sum_by tokens_of gs)
          × ((sums_of st heap mode engine overrides gs s).total.event_count
              ≡ s.total.event_count + sum_by (λ g. g.event_count) gs)
    unfolding sums_of add_group add_total tokens_of
    total-sums_of overrides [] s = (omega arith, omega arith)
    total-sums_of overrides (g ∷ gs) s =
        let (ts, es) =
          total-sums_of overrides gs
            (add_group overrides g (group_price st heap mode engine overrides g) s) in
        (omega arith, omega arith)

    -- Whatever the groups, the prices and the overrides, the total of a summary holds the tokens and the
    -- events of all groups, and so do the buckets by agent, by model and by project, if the sorting of
    -- buckets permutes them: nothing is lost and nothing is counted twice.
    pub summarize_aggregates-IsBalanced :
        (sort_buckets : Buckets F → List (Str × Bucket F)) (sort_strings : List Str → List Str)
        (groups : List (Group F)) (overrides : Dict Str Str)
        → ((m : Buckets F) → Perm (sort_buckets m) m)
        → let s =
            summarize_aggregates st heap mode engine sort_buckets sort_strings groups overrides in
          IsBalanced s.total s.by_agent s.by_model s.by_project
          × (total_of s.total ≡ sum_by tokens_of groups)
          × (s.total.event_count ≡ sum_by (λ g. g.event_count) groups)
    unfolding summarize_aggregates
    summarize_aggregates-IsBalanced sort_buckets sort_strings groups overrides permutes =
        let s = sums_of st heap mode engine overrides groups no_sums in
        let empty : IsBalancedSums no_sums = record {
          agent_tokens = refl;
          model_tokens = refl;
          project_tokens = refl;
          agent_events = refl;
          model_events = refl;
          project_events = refl;
        } in
        let v = sums_of-IsBalancedSums overrides groups no_sums empty in
        let same_ts =
          λ (m : Buckets F). sum_by-perm (λ (p : Str × Bucket F). p.1.tokens) (permutes m) in
        let same_es =
          λ (m : Buckets F). sum_by-perm (λ (p : Str × Bucket F). p.1.event_count) (permutes m) in
        let (ts, es) = total-sums_of overrides groups no_sums in
        (
          record {
            agent_tokens = same_ts s.by_agent ∙ v.agent_tokens;
            model_tokens = same_ts s.by_model ∙ v.model_tokens;
            project_tokens = same_ts s.by_project ∙ v.project_tokens;
            agent_events = same_es s.by_agent ∙ v.agent_events;
            model_events = same_es s.by_model ∙ v.model_events;
            project_events = same_es s.by_project ∙ v.project_events;
          },
          omega arith,
          omega arith,
        )
