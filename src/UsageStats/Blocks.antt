-- ===== src/UsageStats/Blocks.antt =====
-- internal/usagestats/blocks.go: `buildUsageBlocks`. A time is a count of nanoseconds since Go's zero
-- time, on which `Truncate` works. `time.Parse` and the sorting are parameters.
pub mod Step
pub mod Windows
pub mod Totals
pub mod Active
use stint.Prelude.{
  ℕ, ◌+◌, ◌-◌, ◌*◌, ◌%◌, ◌≡◌, Bool, true, false, not, ◌&&◌, ◌||◌, Option, none, some, List, [], ◌∷◌,
  ◌++◌, leb, ltb, if◌then◌else◌, map,
}
use stint.Prelude.Text.{Str}
use stint.Prelude.Dict.{Dict, text_eq, lookup}
use stint.Usage.{Event, BillingType, total_tokens}
use stint.Pricing.Double.{Double, ◌⊞◌}
use stint.Pricing.Normalize.{Strings}
use stint.Pricing.Engine.{Engine, Heap}
use stint.Pricing.Cost.{Mode, Result, price}

abbrev pub hour : ℕ
hour = 3600 * 1_000_000_000

abbrev pub block_duration : ℕ
block_duration = 5 * hour

pub record Block (F : Type 0) : Type 0 where
  pub start : ℕ
  pub end : ℕ
  pub is_active : Bool
  pub cost_usd : F
  pub tokens : ℕ
  pub event_count : ℕ
  pub last_event : ℕ

-- `ts.Truncate(time.Hour)`
abbrev pub truncate_hour : ℕ → ℕ
truncate_hour ts = ts - ts % hour

-- `a.Sub(b)` where it is only compared with a positive duration: a negative difference counts as 0.
abbrev pub sub : ℕ → ℕ → ℕ
sub a b = a - b

abbrev pub Timed : Type 0 → Type 0
Timed F = ℕ × Event F

-- The variables of the loop. `finished` and `current` are `blocks`, whose last element is
-- `blocks[cur]`; there is none as long as `cur` is -1.
pub record Building (F : Type 0) : Type 0 where
  pub finished : List (Block F)
  pub current : Option (Block F)
  pub block_start : ℕ
  pub last_event_time : ℕ

module _ {F : Type 0} where
  is_none : Option (Block F) → Bool
  is_none none = true
  is_none (some b) = false

  pub opened : Option (Block F) → List (Block F)
  opened none = []
  opened (some b) = b ∷ []

  unfoldable pub starts_new : Building F → ℕ → Bool
  unfolding is_none
  starts_new s ts =
      is_none s.current
      || leb block_duration (sub ts s.block_start)
      || leb block_duration (sub ts s.last_event_time)

  -- `blocks`
  unfoldable pub all_blocks : Building F → List (Block F)
  unfolding opened
  all_blocks s = s.finished ++ opened s.current

  -- The closure `priceTokens`: `engine` is nil where no engine is given, and an override replaces the
  -- billing type of its agent's events.
  pub overridden : Event F → Option BillingType → Event F
  overridden e none = e
  overridden e (some b) = record e { billing_type = b }

  -- Events whose timestamp does not parse are dropped.
  pub timed : (Str → Option ℕ) → List (Event F) → List (Timed F)
  timed parse [] = []
  timed parse (e ∷ es) = with_time e (parse e.timestamp) (timed parse es)
    where
      with_time : Event F → Option ℕ → List (Timed F) → List (Timed F)
      with_time x none rest = rest
      with_time x (some ts) rest = (ts, x) ∷ rest

module _ {F : Type 0} ⦃fl : Double F⦄ where
  -- `if startNew { … }`
  unfoldable pub open_block : ℕ → Building F → Building F
  unfolding opened
  open_block ts s =
      let floored = truncate_hour ts in
      record s {
        finished = s.finished ++ opened s.current;
        current = some (record {
          start = floored;
          end = floored + block_duration;
          is_active = false;
          cost_usd = fl.nought;
          tokens = 0;
          event_count = 0;
          last_event = 0;
        });
        block_start = floored;
      }

  pub add_event : ℕ → F × ℕ → Option (Block F) → Option (Block F)
  add_event ts (cost, tokens) none = none
  add_event ts (cost, tokens) (some b) = some (record b {
    cost_usd = b.cost_usd ⊞ cost;
    tokens = b.tokens + tokens;
    event_count = b.event_count + 1;
    last_event = ts;
  })

  module _ (price_tokens : Event F → F × ℕ) where
    unfoldable pub step : Building F → Timed F → Building F
    unfolding starts_new open_block add_event
    step s (ts, e) =
        let s' = (if starts_new s ts then open_block ts s else s) in
        record s' { current = add_event ts (price_tokens e) s'.current; last_event_time = ts }

    unfoldable pub run : Building F → List (Timed F) → Building F
    run s [] = s
    run s (t ∷ ts) = run (step s t) ts

  abbrev pub start_building : Building F
  start_building = record { finished = []; current = none; block_start = 0; last_event_time = 0 }

  -- The test of the loop that marks the active block.
  unfoldable pub is_current : ℕ → Block F → Bool
  is_current now b =
      not (ltb now b.start) && ltb now b.end && ltb (sub now b.last_event) block_duration

  -- That loop: the marked blocks, and `active`, the last one that was marked.
  unfoldable pub mark : ℕ → List (Block F) → Option (Block F) → List (Block F) × Option (Block F)
  mark now [] active = ([], active)
  mark now (b ∷ bs) active =
      let marked = record b { is_active = true } in
      let here = is_current now b in
      let (rest, last) = mark now bs (if here then some marked else active) in
      ((if here then marked else b) ∷ rest, last)

  module _ (st : Strings) (heap : Heap F) (mode : Mode) where
    pub usd_of : Option (Engine F) → Event F → F
    usd_of none e = fl.nought
    usd_of (some eng) e = (price st heap eng e mode).usd

    unfoldable pub price_tokens : Option (Engine F) → Dict Str BillingType → Event F → F × ℕ
    unfolding overridden usd_of
    price_tokens engine overrides e0 =
        let e = overridden e0 (lookup e0.agent overrides) in (usd_of engine e, total_tokens e)

    unfoldable pub build_usage_blocks :
        (engine : Option (Engine F)) (parse : Str → Option ℕ)
        (sort : List (Timed F) → List (Timed F)) (overrides : Dict Str BillingType)
        (events : List (Event F)) (now : ℕ)
        → List (Block F) × Option (Block F)
    unfolding timed run all_blocks mark
    build_usage_blocks engine parse sort overrides events now =
        let built =
          run (price_tokens engine overrides) start_building (sort (timed parse events)) in
        mark now (all_blocks built) none
