-- ===== src/Services/Reports/Weekdays.antt =====
-- What the rows of the week add up to.
use stint.Prelude.{
  ℕ, zero, suc, ◌+◌, ◌<◌, ◌≡◌, inl, inr, refl, Option, none, some, List, [], ◌∷◌, arith,
  Option-cases, length, sum_by,
}
use stint.Prelude.Text.{Str}
use stint.Services.Stats.{DailyStat}
use stint.Services.Reports.{
  WeekdayStat, empty_week, count_at, row_of_weekday, week_loop, with_averages,
  compute_weekday_stats,
}

abbrev week_seconds : List WeekdayStat → ℕ
week_seconds = sum_by (λ r. r.total_seconds)

-- The seconds of a day whose date can be read.
abbrev pub dated_seconds : (Str → Option ℕ) → DailyStat → ℕ
dated_seconds weekday day = elim (weekday day.date) [ none ↦ 0 | some n ↦ day.total_seconds ]

count_at-sum :
    (i seconds : ℕ) (rows : List WeekdayStat)
    → i < length rows
    → (week_seconds (count_at i seconds rows) ≡ week_seconds rows + seconds)
      × (length (count_at i seconds rows) ≡ length rows)
unfolding count_at
count_at-sum i seconds [] h = absurd (omega arith)
count_at-sum zero seconds (r ∷ rs) h = (omega arith, refl)
count_at-sum (suc i) seconds (r ∷ rs) h =
    let (sum, len) = count_at-sum i seconds rs (omega arith) in
    (omega (arith, sum), omega (arith, len))

row_of_weekday-lt : (n : ℕ) → n < 7 → row_of_weekday n < 7
unfolding row_of_weekday
row_of_weekday-lt zero h = omega arith
row_of_weekday-lt (suc n) h = omega arith

week_loop-sum :
    (weekday : Str → Option ℕ) (days : List DailyStat) (rows : List WeekdayStat)
    → ((s : Str) (n : ℕ) → weekday s ≡ some n → n < 7)
    → length rows ≡ 7
    → (week_seconds (week_loop weekday days rows)
        ≡ week_seconds rows + sum_by (dated_seconds weekday) days)
      × (length (week_loop weekday days rows) ≡ 7)
unfolding week_loop
week_loop-sum weekday [] rows week h = (omega arith, h)
week_loop-sum weekday (day ∷ days) rows week h = elim (Option-cases (weekday day.date)) [
  | inl e ↦
      let (sum, len) = week_loop-sum weekday days rows week h in
      let skipped : dated_seconds weekday day ≡ 0 = rw (dated_seconds, e) in
      rw e (omega (arith, sum, skipped), len)
  | inr (n, e) ↦
      let small = row_of_weekday-lt n (week day.date n e) in
      let (sum', len') = count_at-sum (row_of_weekday n) day.total_seconds rows (omega arith) in
      let (sum, len) =
        week_loop-sum weekday days (count_at (row_of_weekday n) day.total_seconds rows) week
          (omega (arith, len')) in
      let counted : dated_seconds weekday day ≡ day.total_seconds = rw (dated_seconds, e) in
      rw e (omega (arith, sum, sum', counted), len)
]

with_averages-sum :
    (sprint : ℕ → Str) (rows : List WeekdayStat)
    → (week_seconds (with_averages sprint rows) ≡ week_seconds rows)
      × (length (with_averages sprint rows) ≡ length rows)
unfolding with_averages
with_averages-sum sprint [] = (refl, refl)
with_averages-sum sprint (r ∷ rs) =
    let (sum, len) = with_averages-sum sprint rs in (omega (arith, sum), omega (arith, len))

-- Let a weekday be a number below 7. The statistics have seven rows, and these add up to the seconds of
-- the days whose date can be read; a day whose date cannot be read counts nowhere.
pub compute_weekday_stats-sum :
    (sprint : ℕ → Str) (weekday : Str → Option ℕ) (days : List DailyStat)
    → ((s : Str) (n : ℕ) → weekday s ≡ some n → n < 7)
    → let rows = compute_weekday_stats sprint weekday days in
      (sum_by (λ r. r.total_seconds) rows ≡ sum_by (dated_seconds weekday) days) × (length rows ≡ 7)
unfolding compute_weekday_stats
compute_weekday_stats-sum sprint weekday days week =
    let (sum, len) = week_loop-sum weekday days empty_week week refl in
    let (sum', len') = with_averages-sum sprint (week_loop weekday days empty_week) in
    (omega (arith, sum, sum'), omega (arith, len, len'))
