-- ===== src/Services/Durations.antt =====
-- internal/services/durations.go: from heartbeats to the durations of a slice. A time is a number of ticks
-- of 2^-22 seconds (see Cli.Heartbeat), a `time.Duration` one of nanoseconds. Prompt lengths enter a
-- duration only where they are positive, so that their sums and counts are naturals.
-- `strings.EqualFold` and the sorts are parameters; a value of `AIAgentCosts` is a `float64`.
pub mod Rows
pub mod Slices
pub mod Chain
pub mod Merge
pub mod Total
use stint.Prelude.{
  ℕ, ◌+◌, ◌-◌, ◌*◌, ◌/◌, ◌^◌, Bool, true, false, ◌&&◌, Option, none, some, List, [], ◌∷◌, ◌++◌, map,
  ltb, leb, ◌==◌, if◌then◌else◌,
}
use stint.Prelude.Text.{Str}
use stint.Prelude.Dict.{Dict, text_eq, lookup, insert}
use stint.Pricing.Double.{Double}
use stint.Pricing.Normalize.{Strings}
use stint.Cli.Heartbeat.{ticks_per_second}
use stint.Services.Heartbeat.{Heartbeat}
use Rows.{Duration, Fold, duration_row_for_heartbeat, merge_duration_ai}
use Slices.{slice_names}

-- `float64(time.Second)`
abbrev pub nanos_per_second : ℕ
nanos_per_second = 10 ^ 9

-- `time.Duration((b - a) * float64(time.Second))`, 0 where it is negative: the code only asks whether it
-- is positive.
unfoldable pub gap_nanos : ℕ → ℕ → ℕ
gap_nanos a b = (b - a) * nanos_per_second / ticks_per_second

-- The seconds that a heartbeat at `a` is credited when the next is at `b`.
unfoldable pub credited : ℕ → ℕ → ℕ → ℕ
unfolding gap_nanos
credited timeout a b =
    let gap = gap_nanos a b in if ltb 0 gap && leb gap timeout then gap / nanos_per_second else 0

-- `seconds` of one turn of the loop; the last heartbeat has none.
unfoldable pub seconds_of : ℕ → Heartbeat → List Heartbeat → ℕ
unfolding credited
seconds_of timeout h [] = 0
seconds_of timeout h (next ∷ _) = credited timeout h.time next.time

-- What the code takes from package `sort`: `sort.Strings`, the stable sort of heartbeats by time and the
-- stable sort of durations by name and time.
pub record Sorts (F : Type 0) : Type 0 where
  pub names : List Str → List Str
  pub heartbeats : List Heartbeat → List Heartbeat
  pub rows : List (Duration F) → List (Duration F)

-- The rows of each name, in the order of the heartbeats.
abbrev pub Grouped : Type 0 → Type 0
Grouped F = Dict Str (List (Duration F))

module _ {F : Type 0} where
  -- A key that is missing reads as nil.
  unfoldable pub rows_of : Option (List (Duration F)) → List (Duration F)
  rows_of none = []
  rows_of (some rows) = rows

  -- The loop over the names of a heartbeat.
  unfoldable pub add_rows : List Str → (Str → Duration F) → Grouped F → Grouped F
  unfolding rows_of
  add_rows [] row grouped = grouped
  add_rows (name ∷ names) row grouped =
      add_rows names row (insert name (rows_of (lookup name grouped) ++ row name ∷ []) grouped)

  -- `lastEnd`
  unfoldable pub end_of : Duration F → ℕ
  end_of row = row.time + row.duration_seconds * ticks_per_second

module _ {F : Type 0} ⦃fl : Double F⦄ where
  -- `last`, when `item` begins before it has ended or at that moment.
  unfoldable pub merged : Duration F → Duration F → Duration F
  unfolding merge_duration_ai
  merged last item =
      merge_duration_ai
        (record last {
          duration_seconds =
              (item.time + item.duration_seconds * ticks_per_second - last.time) / ticks_per_second;
        })
        item

  -- The loop of `mergeAdjacentDurationsFromSorted`, with the last element of `out`.
  unfoldable pub merge_loop : Duration F → List (Duration F) → List (Duration F)
  unfolding gap_nanos end_of
  merge_loop last [] = last ∷ []
  merge_loop last (item ∷ items) =
      let joined = merge_loop (merged last item) items in
      let apart = last ∷ merge_loop item items in
      if gap_nanos (end_of last) item.time == 0 then joined else apart

  -- `mergeAdjacentDurationsFromSorted`
  unfoldable pub merge_adjacent_durations_from_sorted : List (Duration F) → List (Duration F)
  unfolding merge_loop
  merge_adjacent_durations_from_sorted [] = []
  merge_adjacent_durations_from_sorted (item ∷ items) = merge_loop item items

  -- The loop over the sorted names.
  unfoldable pub merge_names : List Str → Grouped F → List (Duration F)
  unfolding merge_adjacent_durations_from_sorted rows_of
  merge_names [] grouped = []
  merge_names (name ∷ names) grouped =
      merge_adjacent_durations_from_sorted (rows_of (lookup name grouped))
      ++ merge_names names grouped

module _ {F : Type 0} ⦃fl : Double F⦄ (st : Strings) (fold : Fold) (sorts : Sorts F) where
  -- The first loop of `ComputeDurationsFromSorted`.
  unfoldable pub group_loop : ℕ → Str → List Heartbeat → Grouped F → Grouped F
  unfolding add_rows seconds_of
  group_loop timeout slice_by [] grouped = grouped
  group_loop timeout slice_by (h ∷ hs) grouped =
      let row : Str → Duration F =
        λ name. duration_row_for_heartbeat st fold name slice_by h (seconds_of timeout h hs) in
      group_loop timeout slice_by hs (add_rows (slice_names st sorts.names h slice_by) row grouped)

  -- `ComputeDurationsFromSorted`
  unfoldable pub compute_durations_from_sorted : List Heartbeat → ℕ → Str → List (Duration F)
  unfolding group_loop merge_names
  compute_durations_from_sorted items timeout slice_by =
      let grouped = group_loop timeout slice_by items [] in
      sorts.rows (merge_names (sorts.names (map (λ p. p.0) grouped)) grouped)

  -- `ComputeDurations`
  unfoldable pub compute_durations : List Heartbeat → ℕ → Str → List (Duration F)
  unfolding compute_durations_from_sorted
  compute_durations heartbeats timeout slice_by =
      compute_durations_from_sorted (sorts.heartbeats heartbeats) timeout slice_by
