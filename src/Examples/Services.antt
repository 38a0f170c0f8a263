-- ===== src/Examples/Services.antt =====
-- Examples of internal/services: three heartbeats in two projects, and an external duration.
use stint.Prelude.{
  ℕ, ◌+◌, ◌-◌, ◌*◌, ◌/◌, ◌%◌, ◌≤◌, ◌≡◌, refl, true, false, none, some, List, [], ◌∷◌, length, arith,
  sum_by,
}
use mathlib.Core.List.Perm
use stint.Prelude.Text.{codes, str_eq}
use stint.Prelude.Int.{ℤ.pos}
use stint.Prelude.Sort.{insertion_sort, insertion_sort-IsSort}
use stint.Pricing.Double.{Double, whole}
use stint.Cli.Heartbeat.{ticks_per_second}
use stint.Services.Heartbeat.{Heartbeat}
use stint.Services.Durations.{
  Sorts, compute_durations_from_sorted, end_of, merge_adjacent_durations_from_sorted,
}
use stint.Services.Durations.Rows.{Duration, Fold, duration_row}
use stint.Services.Durations.Chain.{credited_total}
use stint.Services.Durations.Merge.{Apart, start_of, last_end, total_seconds, merge_adjacent-Apart}
use stint.Services.Durations.Total.{Permutes, compute_durations_from_sorted-total}
use stint.Services.Totals.{SliceTotal, sum_durations}
use stint.Services.Stats.{stats_for_window}
use stint.Services.Stats.Windows.{Calendar, StatsWindow}
use stint.Services.Stats.Consistent.{IsConsistent, stats_for_window-IsConsistent}
use stint.Services.Rules.{has_suffix}
use stint.Services.Prepare.Language.{language_by}
use stint.Services.Prepare.Order.{language_by-entry}
use stint.Services.External.{ExternalDuration, external_durations_in_window}
use stint.Services.External.Laws.{external_durations_in_window-split}
use stint.Services.Hourly.{HourlyStat, compute_hourly_timeline}
use stint.Services.Hourly.Laws.{compute_hourly_timeline-sum}
use stint.Services.Goals.{Goal, Clock, GoalMatcher}
use stint.Services.Goals.Progress.{compute_goal_progress, seconds_in}
use stint.Services.Goals.Laws.{IsCoherent, compute_goal_progress-IsCoherent}
use stint.Services.Goals.Window.{seconds_in-le}
use stint.Examples.Pricing.{ascii}

instance abbrev money : Double ℕ
money = whole

abbrev pub blank : Heartbeat
blank = record {
  id = [];
  entity = codes "main.go";
  entity_type = codes "file";
  category = codes "coding";
  time = 0;
  project = codes "stint";
  branch = [];
  commit_hash = [];
  revision = [];
  language = codes "Go";
  machine_name = [];
  plugin = [];
  plugin_version = [];
  editor = codes "vim";
  editor_version = [];
  operating_system = [];
  architecture = [];
  dependencies = [];
  lines = none;
  line_number = none;
  cursor_position = none;
  is_write = true;
  ai_line_changes = none;
  human_line_changes = none;
  ai_session = [];
  ai_input_tokens = none;
  ai_output_tokens = none;
  ai_prompt_length = none;
  ai_subscription_plan = [];
  ai_model = [];
  ai_provider = [];
  ai_agent = [];
  ai_agent_version = [];
  ai_agent_complexity = [];
  metadata = [];
  raw_payload = [];
}

-- A heartbeat at so many seconds.
abbrev beat : ℕ → Heartbeat
beat seconds = record blank { time = seconds * ticks_per_second }

abbrev beats : List Heartbeat
beats = beat 100 ∷ record (beat 160) { project = codes "docs" } ∷ beat 200 ∷ []

abbrev exact : Fold
exact = record { equal_fold = str_eq }

abbrev by_insertion : Sorts ℕ
by_insertion = record { names = λ l. l; heartbeats = insertion_sort (λ h. h.time); rows = λ l. l }

by_insertion-Permutes : Permutes by_insertion
by_insertion-Permutes = record { names = λ l. Perm.refl l; rows = λ l. Perm.refl l }

compute_durations_from_sorted-total_example :
    total_seconds
      (compute_durations_from_sorted ascii exact by_insertion beats 900000000000 (codes "project"))
    ≡ credited_total 900000000000 (codes "project") beats
unfolding str_eq
compute_durations_from_sorted-total_example =
    compute_durations_from_sorted-total ascii exact by_insertion 900000000000 (codes "project")
      by_insertion-Permutes beats refl (omega arith)

abbrev row : ℕ → ℕ → Duration ℕ
row seconds length =
    duration_row (codes "stint") (codes "project") (seconds * ticks_per_second) length

merge_adjacent-Apart_example :
    let rows = merge_adjacent_durations_from_sorted (row 100 60 ∷ row 160 40 ∷ row 300 5 ∷ []) in
    (total_seconds rows ≡ 105)
    × (start_of rows ≡ some (100 * ticks_per_second))
    × (last_end rows ≡ some (305 * ticks_per_second))
    × Apart 0 (400 * ticks_per_second) rows
unfolding duration_row end_of
merge_adjacent-Apart_example =
    merge_adjacent-Apart (400 * ticks_per_second) (row 100 60 ∷ row 160 40 ∷ row 300 5 ∷ [])
      (omega arith, (omega arith, omega arith))

abbrev unsorted : List SliceTotal → List SliceTotal
unsorted l = l

abbrev meeting : ExternalDuration
meeting = record {
  id = [];
  provider = codes "calendar";
  external_id = codes "1";
  entity = codes "meeting";
  external_type = codes "event";
  category = [];
  start_time = 1000 * ticks_per_second + 7;
  end_time = 9000 * ticks_per_second + 3;
  project = codes "stint";
  branch = [];
  language = [];
  meta = [];
}

abbrev cut : ℕ → ℕ → ℕ
cut a b =
    sum_by (λ (r : Duration ℕ). r.duration_seconds)
      (external_durations_in_window (λ l. l) (meeting ∷ []) (codes "project") a b)

external_durations_in_window-split_example :
    (cut 0 3600 + cut 3600 7200 ≤ cut 0 7200)
    × (cut 0 7200 ≤ cut 0 3600 + cut 3600 7200 + length (meeting ∷ []))
external_durations_in_window-split_example =
    external_durations_in_window-split ℕ (λ l. l) (meeting ∷ []) (codes "project") 0 3600 7200
      (λ l. Perm.refl l) (omega arith) (omega arith)

abbrev timeline : List HourlyStat
timeline = compute_hourly_timeline (λ n. n ∷ []) unsorted (row 3000 4000 ∷ []) (row 100 60 ∷ [])

compute_hourly_timeline-sum_example :
    (sum_by (λ r. r.total_seconds) timeline ≡ sum_durations (row 3000 4000 ∷ []))
    × (length timeline ≡ 24)
compute_hourly_timeline-sum_example =
    compute_hourly_timeline-sum (λ n. n ∷ []) unsorted (row 3000 4000 ∷ []) (row 100 60 ∷ [])

abbrev mondays : Clock ℕ
mondays = record {
  weekday = λ t. codes "Monday";
  parse = λ s. none;
  sprint = λ n. n ∷ [];
  ceil_percent = λ n p. pos (n * p);
}

abbrev hour_of_go : Goal ℕ
hour_of_go = record {
  id = [];
  title = codes "Go";
  custom_title = [];
  delta = codes "day";
  seconds = pos 90;
  languages = codes "Go" ∷ [];
  editors = [];
  projects = [];
  ignore_days = [];
  ignore_zero_days = true;
  improve_by_percent = none;
  is_enabled = true;
  is_inverse = false;
  is_snoozed = false;
  snooze_until = [];
  created_at = [];
  modified_at = [];
}

compute_goal_progress-IsCoherent_example : IsCoherent (
    compute_goal_progress ascii exact by_insertion mondays hour_of_go beats [] 0 300 900000000000
      400)
compute_goal_progress-IsCoherent_example =
    compute_goal_progress-IsCoherent ascii exact by_insertion mondays hour_of_go beats [] 0 300
      900000000000 400

abbrev anything : GoalMatcher
anything = record { projects = []; languages = []; editors = []; ignore_days = [] }

seconds_in-le_example :
    seconds_in ascii exact by_insertion mondays anything beats [] 90 300 900000000000 ≤ 300 - 90
seconds_in-le_example =
    seconds_in-le ascii exact by_insertion by_insertion-Permutes
      (insertion_sort-IsSort (λ h. h.time)) mondays anything beats 90 300 900000000000

abbrev gregorian : Calendar
gregorian = record {
  beginning_of_day = λ t. t - t % 86400;
  days_later = λ n t. t + n * 86400;
  days_earlier = λ n t. t - n * 86400;
  months_later = λ n t. t + n * 2592000;
  months_earlier = λ n t. t - n * 2592000;
  years_later = λ n t. t + n * 31536000;
  years_earlier = λ n t. t - n * 31536000;
  day_text = λ zone t. (t / 86400) ∷ [];
  parse_year = λ s. none;
  parse_month = λ s. none;
}

abbrev today : StatsWindow
today = record { range = codes "today"; start = 0; end = 86400; days = 1 }

stats_for_window-IsConsistent_example : IsConsistent (
    stats_for_window ascii exact by_insertion gregorian
      (λ n. n ∷ [])
      unsorted
      beats
      (meeting ∷ [])
      today
      900000000000)
stats_for_window-IsConsistent_example =
    stats_for_window-IsConsistent ascii exact by_insertion gregorian (λ n. n ∷ []) unsorted beats
      (meeting ∷ []) today 900000000000 (λ l. Perm.refl l)

language_by-entry_example :
    language_by
      ((codes ".ts", codes "TypeScript") ∷ (codes ".go", codes "Go") ∷ [])
      (codes "main.go")
    ≡ codes "Go"
unfolding has_suffix str_eq
language_by-entry_example =
    language_by-entry ((codes ".ts", codes "TypeScript") ∷ (codes ".go", codes "Go") ∷ [])
      (codes "main.go") (codes ".go") (codes "Go") (refl, (refl, tt)) refl refl
