-- ===== src/Services/Reports.antt =====
-- internal/services/stats.go, external.go, leaderboards.go: the status bar, the statistics by weekday, the
-- running average, and the ranking of a leaderboard.
pub mod Weekdays
pub mod Ranks
use stint.Prelude.{
  ℕ, zero, suc, ◌+◌, ◌-◌, ◌/◌, Bool, true, false, Option, none, some, List, [], ◌∷◌, ◌++◌, ltb,
  ◌==◌, if◌then◌else◌,
}
use stint.Prelude.Text.{Str, codes}
use stint.Pricing.Double.{Double}
use stint.Pricing.Normalize.{Strings}
use stint.Services.Heartbeat.{Heartbeat, is_empty}
use stint.Services.Durations.{Sorts, compute_durations}
use stint.Services.Durations.Rows.{Fold, Duration}
use stint.Services.Totals.{SliceTotal, sum_durations, totals_by_name, human_duration}
use stint.Services.External.{ExternalDuration, external_durations_in_window}
use stint.Services.Stats.{DailyStat, heartbeats_in_window}

pub record StatusBarStats : Type 0 where
  pub total_seconds : ℕ
  pub grand_total_text : Str
  pub project : Str
  pub project_seconds : ℕ
  pub project_text : Str
  pub language : Str
  pub language_seconds : ℕ
  pub language_text : Str
  pub range : Str
  pub percent_calculated : ℕ

-- The first of the totals, or the zero values that the record starts with.
unfoldable pub first_total : List SliceTotal → SliceTotal
first_total [] = record { name = []; total_seconds = 0; text = [] }
first_total (t ∷ ts) = t

module _ {F : Type 0} ⦃fl : Double F⦄ (st : Strings) (fold : Fold) (sorts : Sorts F)
    (sprint : ℕ → Str) (sort : List SliceTotal → List SliceTotal) where
  -- `ComputeStatusBarForWindowWithExternalDurations`, for a window in seconds
  unfoldable pub compute_status_bar :
      List Heartbeat → List ExternalDuration → ℕ → ℕ → ℕ → StatusBarStats
  unfolding first_total
  compute_status_bar heartbeats external start end timeout =
      let inside = heartbeats_in_window heartbeats start end in
      let durations : Str → List (Duration F) = λ slice.
        compute_durations st fold sorts inside timeout slice
        ++ external_durations_in_window sorts.rows external slice start end in
      let projects = durations (codes "project") in
      let project = first_total (totals_by_name sprint sort projects) in
      let language = first_total (totals_by_name sprint sort (durations (codes "language"))) in
      let total = sum_durations projects in
      record {
        total_seconds = total;
        grand_total_text = human_duration sprint total;
        project = project.name;
        project_seconds = project.total_seconds;
        project_text = project.text;
        language = language.name;
        language_seconds = language.total_seconds;
        language_text = language.text;
        range = codes "today";
        percent_calculated = 100;
      }

pub record WeekdayStat : Type 0 where
  pub name : Str
  pub day : ℕ
  pub total_seconds : ℕ
  pub text : Str
  pub active_days : ℕ
  pub average_seconds : ℕ
  pub average_text : Str

abbrev pub empty_weekday : Str → ℕ → WeekdayStat
empty_weekday name day = record {
  name = name;
  day = day;
  total_seconds = 0;
  text = [];
  active_days = 0;
  average_seconds = 0;
  average_text = [];
}

abbrev pub empty_week : List WeekdayStat
empty_week =
    empty_weekday (codes "Monday") 1
    ∷ empty_weekday (codes "Tuesday") 2
    ∷ empty_weekday (codes "Wednesday") 3
    ∷ empty_weekday (codes "Thursday") 4
    ∷ empty_weekday (codes "Friday") 5
    ∷ empty_weekday (codes "Saturday") 6
    ∷ empty_weekday (codes "Sunday") 7
    ∷ []

-- `rows[index].TotalSeconds += …`, and `ActiveDays`.
unfoldable pub count_day : ℕ → WeekdayStat → WeekdayStat
count_day seconds row = record row {
  total_seconds = row.total_seconds + seconds;
  active_days = if ltb 0 seconds then row.active_days + 1 else row.active_days;
}

unfoldable pub count_at : ℕ → ℕ → List WeekdayStat → List WeekdayStat
unfolding count_day
count_at i seconds [] = []
count_at zero seconds (r ∷ rs) = count_day seconds r ∷ rs
count_at (suc i) seconds (r ∷ rs) = r ∷ count_at i seconds rs

-- `int(date.Weekday()) - 1`, and 6 for Sunday, whose number is 0.
unfoldable pub row_of_weekday : ℕ → ℕ
row_of_weekday zero = 6
row_of_weekday (suc n) = n

-- The loop over the days. `weekday` is `time.Parse` and then `Weekday`, `none` where it fails.
unfoldable pub week_loop : (Str → Option ℕ) → List DailyStat → List WeekdayStat → List WeekdayStat
unfolding count_at row_of_weekday
week_loop weekday [] rows = rows
week_loop weekday (day ∷ days) rows = week_loop weekday days (elim (weekday day.date) [
  | none ↦ rows
  | some n ↦ count_at (row_of_weekday n) day.total_seconds rows
])

-- The second loop.
unfoldable pub with_average : (ℕ → Str) → WeekdayStat → WeekdayStat
with_average sprint row =
    let average =
      if ltb 0 row.active_days then row.total_seconds / row.active_days else row.average_seconds in
    record row {
      text = human_duration sprint row.total_seconds;
      average_seconds = average;
      average_text = human_duration sprint average;
    }

unfoldable pub with_averages : (ℕ → Str) → List WeekdayStat → List WeekdayStat
unfolding with_average
with_averages sprint [] = []
with_averages sprint (r ∷ rs) = with_average sprint r ∷ with_averages sprint rs

-- `ComputeWeekdayStats`
unfoldable pub compute_weekday_stats :
    (ℕ → Str) → (Str → Option ℕ) → List DailyStat → List WeekdayStat
unfolding week_loop with_averages
compute_weekday_stats sprint weekday days = with_averages sprint (week_loop weekday days empty_week)

pub record DailyAverageTrendStat : Type 0 where
  pub date : Str
  pub total_seconds : ℕ
  pub text : Str
  pub average_seconds : ℕ
  pub average_text : Str
  pub day_count : ℕ

-- The loop of `ComputeDailyAverageTrend`, with `index` and `total`.
unfoldable pub trend_loop : (ℕ → Str) → ℕ → ℕ → List DailyStat → List DailyAverageTrendStat
trend_loop sprint index total [] = []
trend_loop sprint index total (day ∷ days) =
    let total' = total + day.total_seconds in
    let average = total' / (index + 1) in
    record {
      date = day.date;
      total_seconds = day.total_seconds;
      text = human_duration sprint day.total_seconds;
      average_seconds = average;
      average_text = human_duration sprint average;
      day_count = index + 1;
    }
    ∷ trend_loop sprint (index + 1) total' days

-- `ComputeDailyAverageTrend`
unfoldable pub compute_daily_average_trend : (ℕ → Str) → List DailyStat → List DailyAverageTrendStat
unfolding trend_loop
compute_daily_average_trend sprint days = trend_loop sprint 0 0 days
