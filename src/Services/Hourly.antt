-- ===== src/Services/Hourly.antt =====
-- internal/services/stats.go: `addDurationParts`, which cuts durations at the full hours of UTC, and
-- `ComputeHourlyTimeline`. A moment is a number of seconds since the epoch; its hour of the day is
-- `t / 3600 % 24`, and truncating it to the hour is `t / 3600 * 3600`. The sort of the totals and the
-- decimal texts are parameters.
pub mod Laws
use stint.Prelude.{
  ℕ, zero, suc, ◌+◌, ◌-◌, ◌*◌, ◌/◌, ◌%◌, ◌<◌, Bool, true, false, Option, none, some, List, [], ◌∷◌,
  ◌++◌, map, ltb, leb, ◌==◌, if◌then◌else◌,
}
use stint.Prelude.Text.{Str, codes}
use stint.Prelude.Dict.{Dict}
use stint.Cli.Heartbeat.{ticks_per_second}
use stint.Services.Heartbeat.{is_empty}
use stint.Services.Durations.Rows.{Duration}
use stint.Services.Durations.Slices.{or_unknown}
use stint.Services.Totals.{SliceTotal, add_seconds, slice_totals_from_map, human_duration}

-- One call of `add`.
pub record Part : Type 0 where
  pub hour : ℕ
  pub name : Str
  pub seconds : ℕ

-- `partEnd`
unfoldable pub part_end : ℕ → ℕ → ℕ
part_end cursor end =
    let next_hour = cursor / 3600 * 3600 + 3600 in if ltb end next_hour then end else next_hour

-- The loop over the hours that a duration touches.
unfoldable pub hour_loop : ℕ → Str → ℕ → ℕ → List Part
unfolding part_end
hour_loop zero name cursor end = []
hour_loop (suc fuel) name cursor end =
    let next = part_end cursor end in
    let seconds = next - cursor in
    let rest = hour_loop fuel name next end in
    let part : Part = record { hour = cursor / 3600 % 24; name = name; seconds = seconds } in
    if ltb cursor end then (if ltb 0 seconds then part ∷ rest else rest) else []

module _ {F : Type 0} where
  -- The parts of one duration. Every turn of the loop ends an hour, so that one turn more than there are
  -- hours in it, and one for the rest, are enough.
  unfoldable pub parts_of : Duration F → List Part
  unfolding hour_loop
  parts_of d =
      let start = d.time / ticks_per_second in
      let hours = d.duration_seconds / 3600 in
      if d.duration_seconds == 0
      then []
      else hour_loop (hours + 2) (or_unknown d.name) start (start + d.duration_seconds)

  -- `addDurationParts`, as the list of the calls of `add`.
  unfoldable pub add_duration_parts : List (Duration F) → List Part
  unfolding parts_of
  add_duration_parts [] = []
  add_duration_parts (d ∷ ds) = parts_of d ++ add_duration_parts ds

-- What the loops hold for one hour.
pub record HourSums : Type 0 where
  pub total_seconds : ℕ
  pub project_totals : Dict Str ℕ
  pub language_totals : Dict Str ℕ

abbrev pub no_hour : HourSums
no_hour = record { total_seconds = 0; project_totals = []; language_totals = [] }

-- `make(…, n)`, with empty maps.
unfoldable pub no_hours : ℕ → List HourSums
no_hours zero = []
no_hours (suc n) = no_hour ∷ no_hours n

-- A write to `rows[i]`; it is never out of range, as an hour is below 24.
unfoldable pub update_at : ℕ → (HourSums → HourSums) → List HourSums → List HourSums
update_at i f [] = []
update_at zero f (x ∷ xs) = f x ∷ xs
update_at (suc i) f (x ∷ xs) = x ∷ update_at i f xs

-- The two functions that are passed to `addDurationParts`.
unfoldable pub add_project_part : Part → HourSums → HourSums
add_project_part p h = record h {
  project_totals = add_seconds p.name p.seconds h.project_totals;
  total_seconds = h.total_seconds + p.seconds;
}

unfoldable pub add_language_part : Part → HourSums → HourSums
add_language_part p h = record h {
  language_totals = add_seconds p.name p.seconds h.language_totals;
}

unfoldable pub add_parts : (Part → HourSums → HourSums) → List Part → List HourSums → List HourSums
unfolding update_at
add_parts add [] rows = rows
add_parts add (p ∷ ps) rows = add_parts add ps (update_at p.hour (add p) rows)

pub record HourlyStat : Type 0 where
  pub hour : ℕ
  pub label : Str
  pub total_seconds : ℕ
  pub text : Str
  pub projects : List SliceTotal
  pub languages : List SliceTotal

-- `fmt.Sprintf("%02d:00", hour)`
unfoldable pub hour_label : (ℕ → Str) → ℕ → Str
hour_label sprint hour =
    (if ltb hour 10 then codes "0" ++ sprint hour else sprint hour) ++ codes ":00"

module _ (sprint : ℕ → Str) (sort : List SliceTotal → List SliceTotal) where
  -- The last loop, from the hour `i` on.
  unfoldable pub finish_rows : ℕ → List HourSums → List HourlyStat
  unfolding hour_label
  finish_rows i [] = []
  finish_rows i (h ∷ hs) =
      record {
        hour = i;
        label = hour_label sprint i;
        total_seconds = h.total_seconds;
        text = human_duration sprint h.total_seconds;
        projects = slice_totals_from_map sprint sort h.project_totals;
        languages = slice_totals_from_map sprint sort h.language_totals;
      }
      ∷ finish_rows (i + 1) hs

  -- `ComputeHourlyTimeline`
  unfoldable pub compute_hourly_timeline :
      {F : Type 0} → List (Duration F) → List (Duration F) → List HourlyStat
  unfolding no_hours add_parts add_duration_parts finish_rows
  compute_hourly_timeline project_durations language_durations =
      let rows = add_parts add_project_part (add_duration_parts project_durations) (no_hours 24) in
      finish_rows 0 (add_parts add_language_part (add_duration_parts language_durations) rows)
