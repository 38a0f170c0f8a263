-- ===== src/UsageStats/Blocks/Active.antt =====
-- The active block: the windows that `Blocks` returns, and which of them is marked.
use stint.Prelude.{
  ℕ, ◌≤◌, ◌<◌, ◌≡◌, refl, Bool, true, false, ◌&&◌, Option, none, some, List, [], ◌∷◌, arith, leb,
  ltb, if◌then◌else◌, All, Bool-cases, inl, inr, sum_by, sym, ◌∙◌,
}
use stint.Prelude.Text.{Str}
use stint.Prelude.Dict.{Dict}
use stint.Prelude.Sort.{IsSort}
use stint.Usage.{Event, BillingType}
use stint.Pricing.Double.{Double}
use stint.Pricing.Normalize.{Strings}
use stint.Pricing.Engine.{Engine, Heap}
use stint.Pricing.Cost.{Mode}
use stint.UsageStats.Blocks.{
  Block, Timed, is_current, mark, run, start_building, all_blocks, price_tokens, timed,
  build_usage_blocks,
}
use stint.UsageStats.Blocks.Step.{IsWindow, Chain, all_blocks-Chain}
use stint.UsageStats.Blocks.Windows.{run-IsBuilt, all_blocks-run-IsUnmarked}

module _ {F : Type 0} where
  abbrev pub within : ℕ → Block F → Bool
  within now b = leb b.start now && ltb now b.end

  abbrev pub active_count : Block F → ℕ
  active_count b = if b.is_active then 1 else 0

  -- The last block that is marked.
  unfoldable pub last_active : List (Block F) → Option (Block F) → Option (Block F)
  last_active [] found = found
  last_active (b ∷ bs) found = last_active bs (if b.is_active then some b else found)

  -- What is returned for the time `now`.
  pub record IsMarked (now low high : ℕ) (bs : List (Block F)) : Type 0 where
    pub windows : Chain low bs high
    pub marks : All (λ b. b.is_active ≡ within now b) bs
    pub at_most_one : sum_by active_count bs ≤ 1
    pub none_before : now < low → sum_by active_count bs ≡ 0

  IsMarked-cons :
      (now low high : ℕ) (b : Block F) (bs : List (Block F))
      → low ≤ b.start
      → IsWindow b
      → b.is_active ≡ within now b
      → IsMarked now b.end high bs
      → IsMarked now low high (b ∷ bs)
  IsMarked-cons now low high b bs l w here m = record {
    windows = (l, w, m.windows);
    marks = (here, m.marks);
    at_most_one = ground (arith, m.at_most_one, m.none_before);
    none_before = ground (arith, m.none_before, w.start_le, w.lt_end);
  }

module _ {F : Type 0} ⦃fl : Double F⦄ where
  -- In a window the test that the last event is recent adds nothing.
  is_current-within : (now : ℕ) (b : Block F) → IsWindow b → is_current now b ≡ within now b
  unfolding is_current
  is_current-within now b w = ground (arith, w)

  -- A mark does not make a window another one.
  again : (b : Block F) (m : Bool) → IsWindow b → IsWindow (record b { is_active = m })
  again b m w = ground (arith, w)

  mark_lem :
      (now low high : ℕ) (bs : List (Block F)) (found : Option (Block F))
      → Chain low bs high
      → All (λ b. b.is_active ≡ false) bs
      → let (out, active) = mark now bs found in
        IsMarked now low high out × (active ≡ last_active out found)
  unfolding mark last_active
  mark_lem now low high [] found c u = (
    record { windows = c; marks = tt; at_most_one = omega arith; none_before = omega arith },
    refl,
  )
  mark_lem now low high (b ∷ bs) found (l, w, c) (u, us) =
      let same = is_current-within now b w in
      elim (Bool-cases (is_current now b)) [
        | inl here ↦
            let (m, last) =
              mark_lem now b.end high bs (some (record b { is_active = true })) c us in
            rw here (
              IsMarked-cons now low high (record b { is_active = true }) _ l (again b true w)
                  (sym here ∙ same) m,
              last,
            )
        | inr away ↦
            let (m, last) = mark_lem now b.end high bs found c us in
            rw away (IsMarked-cons now low high b _ l w (u ∙ sym away ∙ same) m, rw u last)
      ]

  -- However the events came and wherever the clock stands, `Blocks` returns five-hour windows that
  -- start on the hour, hold their last event, follow one another and do not overlap. A block is
  -- marked active exactly when the present time lies in its window, at most one is, and the active
  -- block that is returned beside them is that one.
  pub build_usage_blocks_windows :
      (st : Strings) (heap : Heap F) (mode : Mode) (engine : Option (Engine F))
      (parse : Str → Option ℕ) (sort : List (Timed F) → List (Timed F))
      (overrides : Dict Str BillingType) (events : List (Event F)) (now : ℕ)
      → IsSort (λ t. t.0) sort
      → let (blocks, active) =
          build_usage_blocks st heap mode engine parse sort overrides events now in
        ((high : ℕ) × IsMarked now 0 high blocks) × (active ≡ last_active blocks none)
  unfolding build_usage_blocks
  build_usage_blocks_windows st heap mode engine parse sort overrides events now law =
      let pt = price_tokens st heap mode engine overrides in
      let ts = sort (timed parse events) in
      let built = run pt start_building ts in
      let (high, chain) = all_blocks-Chain built (run-IsBuilt pt ts (law.sorted _)) in
      let (marked, last) =
        mark_lem now 0 high (all_blocks built) none chain (all_blocks-run-IsUnmarked pt ts) in
      ((high, marked), last)
