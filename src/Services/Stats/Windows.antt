-- ===== src/Services/Stats/Windows.antt =====
-- internal/services/stats.go: `WindowForRange`, over a calendar.
use stint.Prelude.{ℕ, ◌-◌, ◌/◌, ◌||◌, Option, none, some, ltb, ◌==◌, if◌then◌else◌, length, []}
use stint.Prelude.Text.{Str, codes, str_eq}

-- What the code takes from package `time`, on moments in seconds: the start of the day, `AddDate` with
-- days, months or years alone, `Format("2006-01-02")` in the location of a moment, and `time.Parse` with
-- the layouts "2006" and "2006-01".
pub record Calendar : Type 0 where
  pub beginning_of_day : ℕ → ℕ
  pub days_later : ℕ → ℕ → ℕ
  pub days_earlier : ℕ → ℕ → ℕ
  pub months_later : ℕ → ℕ → ℕ
  pub months_earlier : ℕ → ℕ → ℕ
  pub years_later : ℕ → ℕ → ℕ
  pub years_earlier : ℕ → ℕ → ℕ
  pub day_text : ℕ → ℕ → Str
  pub parse_year : Str → Option ℕ
  pub parse_month : Str → Option ℕ

pub record StatsWindow : Type 0 where
  pub range : Str
  pub start : ℕ
  pub end : ℕ
  pub days : ℕ

-- `daysBetween`
unfoldable pub days_between : ℕ → ℕ → ℕ
days_between start end = let days = (end - start) / 86400 in if ltb days 1 then 1 else days

module _ (cal : Calendar) where
  -- `calendarWindowForRange`
  unfoldable pub calendar_window_for_range : Str → Option StatsWindow
  calendar_window_for_range range =
      if length range == 4
      then (elim (cal.parse_year range) [
        | none ↦ none
        | some start ↦
            let end = cal.years_later 1 start in
            some (record { range = range; start = start; end = end; days = days_between start end })
      ])
      else if length range == 7
      then (elim (cal.parse_month range) [
        | none ↦ none
        | some start ↦
            let end = cal.months_later 1 start in
            some (record { range = range; start = start; end = end; days = days_between start end })
      ])
      else none

  -- `WindowForRange`
  unfoldable pub window_for_range : ℕ → Str → Option StatsWindow
  unfolding calendar_window_for_range days_between
  window_for_range now range =
      let end = cal.days_later 1 (cal.beginning_of_day now) in
      let half_year = cal.months_earlier 6 end in
      let year = cal.years_earlier 1 end in
      if str_eq range [] || str_eq range (codes "last_7_days")
      then some (record {
        range = codes "last_7_days";
        start = cal.days_earlier 7 end;
        end = end;
        days = 7;
      })
      else if str_eq range (codes "last_30_days")
      then some (record { range = range; start = cal.days_earlier 30 end; end = end; days = 30 })
      else if str_eq range (codes "last_6_months")
      then some (record {
        range = range;
        start = half_year;
        end = end;
        days = days_between half_year end;
      })
      else if str_eq range (codes "last_year")
      then some (record { range = range; start = year; end = end; days = days_between year end })
      else calendar_window_for_range range
