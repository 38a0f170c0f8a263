-- ===== src/UsageStats/Blocks/Totals.antt =====
-- What the blocks add up to, and what a billing override does to them.
use stint.Prelude.{
  ℕ, ◌+◌, ◌≡◌, refl, sym, ap, ◌∙◌, true, Option, none, some, List, [], ◌∷◌, arith, Bool-cases, inl,
  inr, sum_by, sum_by-append,
}
use mathlib.Core.Path.{fun_ext, ap₂}
use native.Mathlib.Nat.{zero-add}
use stint.Prelude.Text.{Str}
use stint.Prelude.Dict.{Dict, text_eq, lookup}
use stint.Prelude.Sort.{IsSort, sum_by-perm}
use stint.Usage.{Event, BillingType, total_tokens}
use stint.Pricing.Double.{Double}
use stint.Pricing.Normalize.{Strings}
use stint.Pricing.Engine.{Engine, Heap}
use stint.Pricing.Cost.{Mode}
use stint.Pricing.Cost.Laws.{usd-price-billing}
use stint.UsageStats.Blocks.{
  Block, Building, Timed, starts_new, step, run, start_building, all_blocks, mark, is_current,
  overridden, usd_of, price_tokens, timed, build_usage_blocks,
}

module _ {F : Type 0} ⦃fl : Double F⦄ (pt : Event F → F × ℕ) where
  abbrev tokens_in : Building F → ℕ
  tokens_in s = sum_by (λ b. b.tokens) (all_blocks s)

  abbrev events_in : Building F → ℕ
  events_in s = sum_by (λ b. b.event_count) (all_blocks s)

  abbrev with_block : Building F → Option (Block F) → Building F
  with_block s o = record s { current = o }

  step-totals_at :
      (s : Building F) (o : Option (Block F)) (ts : ℕ) (e : Event F)
      → (tokens_in (step pt (with_block s o) (ts, e)) ≡ tokens_in (with_block s o) + (pt e).1)
        × (events_in (step pt (with_block s o) (ts, e)) ≡ events_in (with_block s o) + 1)
  unfolding step all_blocks
  step-totals_at s none ts e = (
    omega (arith, sum_by-append {0} (λ (b : Block F). b.tokens)),
    omega (arith, sum_by-append {0} (λ (b : Block F). b.event_count)),
  )
  step-totals_at s (some b) ts e = elim (Bool-cases (starts_new (with_block s (some b)) ts)) [
    | inl new ↦ rw new (
      omega (arith, sum_by-append {0} (λ (b : Block F). b.tokens)),
      omega (arith, sum_by-append {0} (λ (b : Block F). b.event_count)),
    )
    | inr old ↦ rw old (
      omega (arith, sum_by-append {0} (λ (b : Block F). b.tokens)),
      omega (arith, sum_by-append {0} (λ (b : Block F). b.event_count)),
    )
  ]

  -- An event adds its tokens and itself to exactly one block.
  step-totals :
      (s : Building F) (t : Timed F)
      → (tokens_in (step pt s t) ≡ tokens_in s + (pt t.1).1)
        × (events_in (step pt s t) ≡ events_in s + 1)
  step-totals s (ts, e) = step-totals_at s s.current ts e

  run-totals :
      (s : Building F) (ts : List (Timed F))
      → (tokens_in (run pt s ts) ≡ tokens_in s + sum_by (λ t. (pt t.1).1) ts)
        × (events_in (run pt s ts) ≡ events_in s + sum_by (λ t. 1) ts)
  unfolding run
  run-totals s [] = omega arith
  run-totals s (t ∷ ts) = omega (arith, run-totals (step pt s t) ts, step-totals s t)

module _ {F : Type 0} ⦃fl : Double F⦄ where
  -- Marking changes neither.
  mark-totals :
      (f : Block F → ℕ) (now : ℕ) (bs : List (Block F)) (found : Option (Block F))
      → ((b : Block F) → f (record b { is_active = true }) ≡ f b)
      → sum_by f (mark now bs found).0 ≡ sum_by f bs
  unfolding mark
  mark-totals f now [] found h = refl
  mark-totals f now (b ∷ bs) found h = elim (Bool-cases (is_current now b)) [
    | inl e ↦ rw (e, h b) (ap (λ n. f b + n) (mark-totals f now bs _ h))
    | inr e ↦ rw e (ap (λ n. f b + n) (mark-totals f now bs _ h))
  ]

  total_tokens-overridden :
      (e : Event F) (b : Option BillingType) → total_tokens (overridden e b) ≡ total_tokens e
  unfolding total_tokens overridden
  total_tokens-overridden e none = refl
  total_tokens-overridden e (some b) = refl

  tokens-price_tokens :
      (st : Strings) (heap : Heap F) (mode : Mode) (engine : Option (Engine F))
      (overrides : Dict Str BillingType) (e : Event F)
      → (price_tokens st heap mode engine overrides e).1 ≡ total_tokens e
  unfolding price_tokens
  tokens-price_tokens st heap mode engine overrides e =
      total_tokens-overridden e (lookup e.agent overrides)

  -- No token and no event is lost or counted twice: over all blocks the tokens and the event counts
  -- add up to those of the events whose timestamps parse, in whatever order they came.
  pub build_usage_blocks_totals :
      (st : Strings) (heap : Heap F) (mode : Mode) (engine : Option (Engine F))
      (parse : Str → Option ℕ) (sort : List (Timed F) → List (Timed F))
      (overrides : Dict Str BillingType) (events : List (Event F)) (now : ℕ)
      → IsSort (λ t. t.0) sort
      → let blocks = (build_usage_blocks st heap mode engine parse sort overrides events now).0 in
        (sum_by (λ b. b.tokens) blocks ≡ sum_by (λ t. total_tokens t.1) (timed parse events))
        × (sum_by (λ b. b.event_count) blocks ≡ sum_by (λ t. 1) (timed parse events))
  unfolding build_usage_blocks
  build_usage_blocks_totals st heap mode engine parse sort overrides events now law =
      let pt = price_tokens st heap mode engine overrides in
      let ts = timed parse events in
      let (tokens, count) = run-totals pt start_building (sort ts) in
      let blocks = all_blocks (run pt start_building (sort ts)) in
      (
        mark-totals (λ b. b.tokens) now blocks none (λ b. refl)
            ∙ tokens
            ∙ zero-add _
            ∙ ap (λ f. sum_by f (sort ts))
                (fun_ext λ t. tokens-price_tokens st heap mode engine overrides t.1)
            ∙ sum_by-perm (λ t. total_tokens t.1) (law.permutes ts),
        mark-totals (λ b. b.event_count) now blocks none (λ b. refl)
            ∙ count
            ∙ zero-add _
            ∙ sum_by-perm (λ t. 1) (law.permutes ts),
      )

  module _ (st : Strings) (heap : Heap F) (mode : Mode) where
    usd_of-overridden :
        (engine : Option (Engine F)) (e : Event F) (b : Option BillingType)
        → usd_of st heap mode engine (overridden e b) ≡ usd_of st heap mode engine e
    unfolding usd_of overridden
    usd_of-overridden none e b = refl
    usd_of-overridden (some eng) e none = refl
    usd_of-overridden (some eng) e (some b) = usd-price-billing st heap eng e mode b

    price_tokens-override :
        (engine : Option (Engine F)) (overrides : Dict Str BillingType)
        → price_tokens st heap mode engine overrides ≡ price_tokens st heap mode engine []
    unfolding price_tokens
    price_tokens-override engine overrides = fun_ext λ e.
        ap₂ (λ u n. (u, n))
          (usd_of-overridden engine e (lookup e.agent overrides)
            ∙ sym (usd_of-overridden engine e (lookup e.agent [])))
          (total_tokens-overridden e (lookup e.agent overrides)
            ∙ sym (total_tokens-overridden e (lookup e.agent [])))

    -- A billing override changes no block: the cost of a block is the list price of its events, which
    -- does not depend on how they are billed.
    pub build_usage_blocks-override :
        (engine : Option (Engine F)) (parse : Str → Option ℕ)
        (sort : List (Timed F) → List (Timed F)) (overrides : Dict Str BillingType)
        (events : List (Event F)) (now : ℕ)
        → build_usage_blocks st heap mode engine parse sort overrides events now
          ≡ build_usage_blocks st heap mode engine parse sort [] events now
    unfolding build_usage_blocks
    build_usage_blocks-override engine parse sort overrides events now =
        ap (λ pt. mark now (all_blocks (run pt start_building (sort (timed parse events)))) none)
          (price_tokens-override engine overrides)
