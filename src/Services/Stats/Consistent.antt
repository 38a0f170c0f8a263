-- ===== src/Services/Stats/Consistent.antt =====
-- The figures of the statistics of a range fit together.
use stint.Prelude.{
  ℕ, zero, suc, ◌+◌, ◌/◌, ◌≤◌, ◌≡◌, inl, inr, refl, List, [], ◌∷◌, ◌++◌, arith, ltb, Bool-cases,
  All, sum_by,
}
use mathlib.Core.List.{Perm}
use stint.Prelude.Text.{Str, codes, str_eq}
use stint.Prelude.Dict.{Dict, text_eq, lookup, insert, lookup-insert}
use stint.Pricing.Double.{Double}
use stint.Pricing.Normalize.{Strings}
use stint.Cli.Heartbeat.{ticks_per_second}
use stint.Services.Heartbeat.{Heartbeat}
use stint.Services.Durations.{Sorts, Grouped, rows_of}
use stint.Services.Durations.Rows.{Duration, Fold}
use stint.Services.Totals.{SliceTotal, or_zero, add_seconds, sum_durations}
use stint.Services.Totals.Laws.{totals_by_name-sum}
use stint.Services.External.{ExternalDuration}
use stint.Services.Hourly.Laws.{compute_hourly_timeline-sum}
use stint.Services.Stats.{
  DailyStat, Stats, day_loop, window_days, no_day, better, best_of, heartbeats_in_window, joined,
  stats_for_window,
}
use stint.Services.Stats.Windows.{Calendar, StatsWindow}

abbrev sum_of_totals : List SliceTotal → ℕ
sum_of_totals = sum_by (λ r. r.total_seconds)

sum_durations-append :
    {F : Type 0} (xs ys : List (Duration F))
    → sum_durations (xs ++ ys) ≡ sum_durations xs + sum_durations ys
unfolding sum_durations
sum_durations-append [] ys = omega arith
sum_durations-append (x ∷ xs) ys = omega (arith, sum_durations-append xs ys)

module _ {F : Type 0} where
  -- The total of a day is that of its durations.
  abbrev IsSplit : Dict Str ℕ × Grouped F → Type 0
  IsSplit (totals, groups) =
      (day : Str) → or_zero (lookup day totals) ≡ sum_durations (rows_of (lookup day groups))

  day_turn-IsSplit :
      (day : Str) (d : Duration F) (totals : Dict Str ℕ) (groups : Grouped F)
      → IsSplit (totals, groups)
      → IsSplit (
        add_seconds day d.duration_seconds totals,
        insert day (rows_of (lookup day groups) ++ d ∷ []) groups,
      )
  unfolding add_seconds rows_of sum_durations
  day_turn-IsSplit day d totals groups split other =
      let rows = rows_of (lookup day groups) in
      elim (Bool-cases (str_eq day other)) [
        | inl e ↦
            rw (lookup-insert day other, lookup-insert day other, e)
              (omega (arith, split day, sum_durations-append rows (d ∷ [])))
        | inr e ↦ rw (lookup-insert day other, lookup-insert day other, e) (split other)
      ]

  day_loop-IsSplit :
      (day_of : ℕ → Str) (ds : List (Duration F)) (totals : Dict Str ℕ) (groups : Grouped F)
      → IsSplit (totals, groups)
      → IsSplit (day_loop day_of ds (totals, groups))
  unfolding day_loop
  day_loop-IsSplit day_of [] totals groups split = split
  day_loop-IsSplit day_of (d ∷ ds) totals groups split =
      day_loop-IsSplit day_of ds _ _
        (day_turn-IsSplit (day_of (d.time / ticks_per_second)) d totals groups split)

-- The projects of a day add up to the day.
abbrev pub IsDay : DailyStat → Type 0
IsDay day = sum_of_totals day.projects ≡ day.total_seconds

module _ (sprint : ℕ → Str) (sort : List SliceTotal → List SliceTotal)
    (permutes : (rows : List SliceTotal) → Perm (sort rows) rows) where
  window_days-IsDay :
      {F : Type 0} (date_of : ℕ → Str) (i n : ℕ) (totals : Dict Str ℕ) (groups : Grouped F)
      → IsSplit (totals, groups)
      → All IsDay (window_days sprint sort date_of i n (totals, groups))
  unfolding window_days
  window_days-IsDay date_of i zero totals groups split = tt
  window_days-IsDay date_of i (suc n) totals groups split = (
    omega (
      arith,
      totals_by_name-sum sprint sort (rows_of (lookup (date_of i) groups)) permutes,
      split (date_of i),
    ),
    window_days-IsDay date_of (i + 1) n totals groups split,
  )

best_of-le :
    (best : DailyStat) (days : List DailyStat)
    → (best.total_seconds ≤ (best_of best days).total_seconds)
      × All (λ day. day.total_seconds ≤ (best_of best days).total_seconds) days
unfolding best_of
best_of-le best [] = (omega arith, tt)
best_of-le best (day ∷ days) =
    let (le, all) = best_of-le (better day best) days in
    elim (Bool-cases (ltb best.total_seconds day.total_seconds)) [
      | inl e ↦ (ground (arith, le), (ground (arith, le), all))
      | inr e ↦ (ground (arith, le), (ground (arith, le), all))
    ]

-- The figures of the statistics fit together.
pub record IsConsistent (s : Stats) : Type 0 where
  pub by_project : sum_of_totals s.projects ≡ s.total_seconds
  pub by_hour : sum_by (λ r. r.total_seconds) s.hourly ≡ s.total_seconds
  pub by_day : All IsDay s.days
  pub best : All (λ day. day.total_seconds ≤ s.best_day.total_seconds) s.days

-- Let `sort` permute its argument. In the statistics of a window, the projects add up to the total, and
-- so do the 24 hours; the projects of every day add up to that day; and no day is longer than the best.
-- This holds for all heartbeats, external durations and calendars.
pub stats_for_window-IsConsistent :
    {F : Type 0} ⦃fl : Double F⦄ (st : Strings) (fold : Fold) (sorts : Sorts F) (cal : Calendar)
    (sprint : ℕ → Str) (sort : List SliceTotal → List SliceTotal) (heartbeats : List Heartbeat)
    (external : List ExternalDuration) (w : StatsWindow) (timeout : ℕ)
    → ((rows : List SliceTotal) → Perm (sort rows) rows)
    → IsConsistent (stats_for_window st fold sorts cal sprint sort heartbeats external w timeout)
unfolding stats_for_window sum_durations lookup
stats_for_window-IsConsistent {F} st fold sorts cal sprint sort heartbeats external w timeout
      permutes =
    let sorted = sorts.heartbeats (heartbeats_in_window heartbeats w.start w.end) in
    let slice : Str → List (Duration F) =
      λ name. joined st fold sorts sorted external w timeout name in
    let projects = slice (codes "project") in
    let empty : IsSplit {F = F} ([], []) = λ day. refl in
    let (hours, _) = compute_hourly_timeline-sum sprint sort projects (slice (codes "language")) in
    let split = day_loop-IsSplit (cal.day_text w.start) projects [] [] empty in
    let (_, best) = best_of-le no_day _ in
    record {
      by_project = totals_by_name-sum sprint sort projects permutes;
      by_hour = hours;
      by_day = window_days-IsDay sprint sort permutes _ 0 w.days _ _ split;
      best = best;
    }
