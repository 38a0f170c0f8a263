-- ===== src/UsageStats/Blocks/Step.antt =====
-- The invariant of the block-building loop.
use stint.Prelude.{
  ℕ, ◌+◌, ◌-◌, ◌%◌, ◌≤◌, ◌<◌, ◌≡◌, refl, false, ◌||◌, Option, none, some, List, [], ◌∷◌, ◌++◌,
  arith, leb, Bool-cases, inl, inr,
}
use stint.Usage.{Event}
use stint.Pricing.Double.{Double}
use stint.UsageStats.Blocks.{
  hour, block_duration, Block, Building, Timed, truncate_hour, step, opened, all_blocks,
}

module _ {F : Type 0} where
  -- A five-hour window that starts on the hour and holds its last event.
  pub record IsWindow (b : Block F) : Type 0 where
    pub on_the_hour : b.start % hour ≡ 0
    pub end_lem : b.end ≡ b.start + block_duration
    pub start_le : b.start ≤ b.last_event
    pub lt_end : b.last_event < b.end
    pub has_event : 1 ≤ b.event_count

  -- Windows one after the other that do not overlap, between `low` and `high`.
  abbrev pub Chain : ℕ → List (Block F) → ℕ → Type 0
  Chain low [] high = low ≤ high
  Chain low (b ∷ bs) high = (low ≤ b.start) × IsWindow b × Chain b.end bs high

  Chain-append :
      (low : ℕ) (bs : List (Block F)) (b : Block F) (high : ℕ)
      → Chain low bs b.start
      → IsWindow b
      → b.end ≤ high
      → Chain low (bs ++ b ∷ []) high
  Chain-append low [] b high c w h = (c, w, h)
  Chain-append low (x ∷ xs) b high (l, v, c) w h = (l, v, Chain-append x.end xs b high c w h)

  -- The loop's invariant: the finished blocks stand before the current one, which begins at
  -- `block_start` and saw its last event at `last_event_time`.
  abbrev Fits : List (Block F) → Option (Block F) → ℕ → ℕ → Type 0
  Fits finished none block_start last = finished ≡ []
  Fits finished (some b) block_start last =
      Chain 0 finished b.start × IsWindow b × (b.start ≡ block_start) × (b.last_event ≡ last)

  abbrev pub IsBuilt : Building F → Type 0
  IsBuilt s = Fits s.finished s.current s.block_start s.last_event_time

  -- All blocks of a well-built state lie in a chain.
  pub all_blocks-Chain : (s : Building F) → IsBuilt s → (high : ℕ) × Chain 0 (all_blocks s) high
  unfolding all_blocks
  all_blocks-Chain s v = go s.finished s.current v
    where
      go :
          (bs : List (Block F)) (o : Option (Block F))
          → Fits bs o s.block_start s.last_event_time
          → (high : ℕ) × Chain 0 (bs ++ opened o) high
      go bs none e = (0, rw e (omega arith))
      go bs (some b) (c, w, _, _) = (b.end, Chain-append 0 bs b b.end c w (omega arith))

-- A time lies in the window that begins at its hour, and behind each earlier hour that it reaches.
truncate_hour_lem :
    (ts : ℕ)
    → (truncate_hour ts % hour ≡ 0)
      × (truncate_hour ts ≤ ts)
      × (ts < truncate_hour ts + block_duration)
truncate_hour_lem ts = omega arith

le-truncate_hour : (t ts : ℕ) → t % hour ≡ 0 → t ≤ ts → t ≤ truncate_hour ts
le-truncate_hour t ts h l = omega arith

module _ {F : Type 0} ⦃fl : Double F⦄ (price_tokens : Event F → F × ℕ) where
  -- A block opened for an event and given that event is a window.
  opened-IsWindow :
      (ts count cost_tokens : ℕ) (cost : F)
      → count ≡ 0
      → IsWindow {F = F} (record {
        start = truncate_hour ts;
        end = truncate_hour ts + block_duration;
        is_active = false;
        cost_usd = cost;
        tokens = cost_tokens;
        event_count = count + 1;
        last_event = ts;
      })
  opened-IsWindow ts count cost_tokens cost h =
      let (aligned, below, above) = truncate_hour_lem ts in
      record {
        on_the_hour = aligned;
        end_lem = refl;
        start_le = below;
        lt_end = above;
        has_event = omega arith;
      }

  -- An event that is not before the last one joins the window of the current block, or opens a later
  -- window if it lies behind it.
  step-some :
      (finished : List (Block F)) (b : Block F) (block_start last ts : ℕ) (e : Event F)
      → last ≤ ts
      → Fits finished (some b) block_start last
      → IsBuilt (
          step price_tokens
            (record {
              finished = finished;
              current = some b;
              block_start = block_start;
              last_event_time = last;
            })
            (ts, e))
  unfolding step
  step-some finished b block_start last ts e le (c, w, starts, lasts) =
      elim (Bool-cases (leb block_duration (ts - block_start) || leb block_duration (ts - last))) [
        | inl new ↦
            let behind : b.end ≤ ts = ground (arith, w) in
            let aligned : b.end % hour ≡ 0 = omega (arith, w.on_the_hour, w.end_lem) in
            rw new (
              Chain-append 0 finished b _ c w (le-truncate_hour b.end ts aligned behind),
              opened-IsWindow ts 0 _ _ refl,
              refl,
              refl,
            )
        | inr old ↦
            let inside : ts < b.end = ground (arith, w) in
            rw old (
              c,
              record {
                on_the_hour = w.on_the_hour;
                end_lem = w.end_lem;
                start_le = omega (arith, w.start_le);
                lt_end = inside;
                has_event = omega (arith, w.has_event);
              },
              starts,
              refl,
            )
      ]

  step-none :
      (finished : List (Block F)) (block_start last ts : ℕ) (e : Event F)
      → finished ≡ []
      → IsBuilt (
          step price_tokens
            (record {
              finished = finished;
              current = none;
              block_start = block_start;
              last_event_time = last;
            })
            (ts, e))
  unfolding step
  step-none finished block_start last ts e h =
      (rw h (omega arith), opened-IsWindow ts 0 _ _ refl, refl, refl)

  -- Each step in time order keeps the blocks well built.
  pub step-IsBuilt :
      (s : Building F) (t : Timed F)
      → s.last_event_time ≤ t.0
      → IsBuilt s
      → IsBuilt (step price_tokens s t)
  step-IsBuilt s (ts, e) le v = go s.current v
    where
      go :
          (o : Option (Block F))
          → Fits s.finished o s.block_start s.last_event_time
          → IsBuilt (step price_tokens (record s { current = o }) (ts, e))
      go none h = step-none s.finished s.block_start s.last_event_time ts e h
      go (some b) h = step-some s.finished b s.block_start s.last_event_time ts e le h
