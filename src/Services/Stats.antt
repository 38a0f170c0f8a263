-- ===== src/Services/Stats.antt =====
-- internal/services/stats.go: the statistics of a range of days. A moment is a number of seconds since
-- the epoch. The calendar (`AddDate`, `time.Parse`, `Format`, the start of a day) is a parameter. The AI
-- figures of a result are left out.
pub mod Windows
pub mod Consistent
use stint.Prelude.{
  ℕ, zero, suc, ◌+◌, ◌-◌, ◌*◌, ◌/◌, Bool, true, false, not, ◌||◌, Option, none, some, List, [], ◌∷◌,
  ◌++◌, map, ltb, if◌then◌else◌, arith,
}
use stint.Prelude.Text.{Str, codes}
use stint.Prelude.Dict.{Dict, text_eq, lookup, insert}
use stint.Pricing.Double.{Double}
use stint.Pricing.Normalize.{Strings}
use stint.Cli.Heartbeat.{ticks_per_second}
use stint.Services.Heartbeat.{Heartbeat}
use stint.Services.Durations.{Sorts, Grouped, rows_of, compute_durations_from_sorted}
use stint.Services.Durations.Rows.{Duration, Fold}
use stint.Services.Totals.{
  SliceTotal, or_zero, add_seconds, sum_durations, totals_by_name, human_duration,
}
use stint.Services.External.{ExternalDuration, external_durations_in_window}
use stint.Services.Hourly.{HourlyStat, compute_hourly_timeline}
use Windows.{Calendar, StatsWindow, window_for_range}

pub record DailyStat : Type 0 where
  pub date : Str
  pub total_seconds : ℕ
  pub text : Str
  pub projects : List SliceTotal

pub record Stats : Type 0 where
  pub range : Str
  pub total_seconds : ℕ
  pub human_readable_total : Str
  pub daily_average_seconds : ℕ
  pub human_readable_daily : Str
  pub best_day : DailyStat
  pub days : List DailyStat
  pub hourly : List HourlyStat
  pub projects : List SliceTotal
  pub languages : List SliceTotal
  pub editors : List SliceTotal
  pub operating_systems : List SliceTotal
  pub machines : List SliceTotal
  pub categories : List SliceTotal
  pub branches : List SliceTotal
  pub dependencies : List SliceTotal
  pub is_up_to_date : Bool
  pub percent_calculated : ℕ

-- The loop that keeps the heartbeats from `start` on and before `end`.
unfoldable pub heartbeats_in_window : List Heartbeat → ℕ → ℕ → List Heartbeat
heartbeats_in_window [] start end = []
heartbeats_in_window (h ∷ hs) start end =
    let timestamp = h.time / ticks_per_second in
    let rest = heartbeats_in_window hs start end in
    if ltb timestamp start then rest else if ltb timestamp end then h ∷ rest else rest

module _ {F : Type 0} where
  -- The loop over the project durations: `dayTotals` and `dayProjectDurations`.
  unfoldable pub day_loop :
      (ℕ → Str) → List (Duration F) → Dict Str ℕ × Grouped F → Dict Str ℕ × Grouped F
  unfolding add_seconds rows_of
  day_loop day_of [] sums = sums
  day_loop day_of (d ∷ ds) (totals, groups) =
      let day = day_of (d.time / ticks_per_second) in
      day_loop day_of ds (
        add_seconds day d.duration_seconds totals,
        insert day (rows_of (lookup day groups) ++ d ∷ []) groups,
      )

abbrev pub no_day : DailyStat
no_day = record { date = []; total_seconds = 0; text = []; projects = [] }

-- `if day.TotalSeconds > best.TotalSeconds { best = day }`
unfoldable pub better : DailyStat → DailyStat → DailyStat
better day best = if ltb best.total_seconds day.total_seconds then day else best

unfoldable pub best_of : DailyStat → List DailyStat → DailyStat
unfolding better
best_of best [] = best
best_of best (day ∷ days) = best_of (better day best) days

module _ (sprint : ℕ → Str) (sort : List SliceTotal → List SliceTotal) where
  unfoldable pub day_row : {F : Type 0} → Str → Dict Str ℕ × Grouped F → DailyStat
  unfolding or_zero rows_of
  day_row date (totals, groups) =
      let seconds = or_zero (lookup date totals) in
      record {
        date = date;
        total_seconds = seconds;
        text = human_duration sprint seconds;
        projects = totals_by_name sprint sort (rows_of (lookup date groups));
      }

  -- The loop over the days of the window, from day `i` on; `date_of i` is the text of that day.
  unfoldable pub window_days :
      {F : Type 0} → (ℕ → Str) → ℕ → ℕ → Dict Str ℕ × Grouped F → List DailyStat
  unfolding day_row
  window_days date_of i zero sums = []
  window_days date_of i (suc n) sums = day_row (date_of i) sums ∷ window_days date_of (i + 1) n sums

module _ {F : Type 0} ⦃fl : Double F⦄ (st : Strings) (fold : Fold) (sorts : Sorts F) where
  -- The durations of a slice that external services report too.
  unfoldable pub joined :
      List Heartbeat → List ExternalDuration → StatsWindow → ℕ → Str → List (Duration F)
  joined sorted external w timeout slice_by =
      compute_durations_from_sorted st fold sorts sorted timeout slice_by
      ++ external_durations_in_window sorts.rows external slice_by w.start w.end

module _ {F : Type 0} ⦃fl : Double F⦄ (st : Strings) (fold : Fold) (sorts : Sorts F)
    (cal : Calendar) (sprint : ℕ → Str) (sort : List SliceTotal → List SliceTotal) where
  -- `ComputeStatsForRangeWithExternalDurationsAndAICosts`, once the window is known.
  unfoldable pub stats_for_window : List Heartbeat → List ExternalDuration → StatsWindow → ℕ → Stats
  unfolding heartbeats_in_window day_loop window_days best_of joined
  stats_for_window heartbeats external w timeout =
      let sorted = sorts.heartbeats (heartbeats_in_window heartbeats w.start w.end) in
      let own = compute_durations_from_sorted st fold sorts sorted timeout in
      let projects = joined st fold sorts sorted external w timeout (codes "project") in
      let languages = joined st fold sorts sorted external w timeout (codes "language") in
      let categories = joined st fold sorts sorted external w timeout (codes "category") in
      let branches = joined st fold sorts sorted external w timeout (codes "branch") in
      let total = sum_durations projects in
      let sums = day_loop (cal.day_text w.start) projects ([], []) in
      let date_of = λ (i : ℕ). cal.day_text w.start (cal.days_later i w.start) in
      let days = window_days sprint sort date_of 0 w.days sums in
      record {
        range = w.range;
        total_seconds = total;
        human_readable_total = human_duration sprint total;
        daily_average_seconds = total / w.days;
        human_readable_daily = human_duration sprint (total / w.days);
        best_day = best_of no_day days;
        days = days;
        hourly = compute_hourly_timeline sprint sort projects languages;
        projects = totals_by_name sprint sort projects;
        languages = totals_by_name sprint sort languages;
        editors = totals_by_name sprint sort (own (codes "editor"));
        operating_systems = totals_by_name sprint sort (own (codes "operating_system"));
        machines = totals_by_name sprint sort (own (codes "machine"));
        categories = totals_by_name sprint sort categories;
        branches = totals_by_name sprint sort branches;
        dependencies = totals_by_name sprint sort (own (codes "dependencies"));
        is_up_to_date = true;
        percent_calculated = 100;
      }

  -- `ComputeStatsForRangeWithExternalDurationsAndAICosts`, `none` for a range that is not supported.
  unfoldable pub compute_stats_for_range :
      List Heartbeat → List ExternalDuration → ℕ → ℕ → Str → Option (Stats × StatsWindow)
  compute_stats_for_range heartbeats external now timeout range =
      elim (window_for_range cal now range) [
        | none ↦ none
        | some w ↦ some (stats_for_window heartbeats external w timeout, w)
      ]
