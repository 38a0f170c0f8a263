-- ===== src/Services/External.antt =====
-- internal/services/external.go and the external durations of stats.go: stretches of time that another
-- service reports. Their times are ticks of 2^-22 seconds, the bounds of a window whole seconds.
pub mod Laws
use stint.Prelude.{
  ℕ, ◌+◌, ◌-◌, ◌*◌, ◌/◌, Bool, true, false, ◌||◌, Option, none, some, List, [], ◌∷◌, ltb, leb, ◌==◌,
  if◌then◌else◌,
}
use stint.Prelude.Text.{Str, codes, str_eq}
use stint.Prelude.Dict.{Dict}
use stint.Pricing.Normalize.{Strings}
use stint.Cli.Heartbeat.{ticks_per_second}
use stint.Services.Heartbeat.{is_empty}
use stint.Services.Durations.Rows.{Duration, duration_row}
use stint.Services.Durations.Slices.{or_unknown}
use stint.Services.Totals.{SliceTotal, add_seconds, slice_totals_from_map, human_duration}

pub record ExternalDuration : Type 0 where
  pub id : Str
  pub provider : Str
  pub external_id : Str
  pub entity : Str
  pub external_type : Str
  pub category : Str
  pub start_time : ℕ
  pub end_time : ℕ
  pub project : Str
  pub branch : Str
  pub language : Str
  pub meta : Str

-- The errors of `ValidateExternalDuration`.
pub data InputError : Type 0 where
  no_external_id : InputError
  no_provider : InputError
  no_entity : InputError
  no_type : InputError
  bad_times : InputError

-- `ValidateExternalDuration`, `none` where it returns nil.
unfoldable pub validate_external_duration : Strings → ExternalDuration → Option InputError
validate_external_duration st input =
    if is_empty (st.trim_space input.external_id)
    then some no_external_id
    else if is_empty (st.trim_space input.provider)
    then some no_provider
    else if is_empty (st.trim_space input.entity)
    then some no_entity
    else if is_empty (st.trim_space input.external_type)
    then some no_type
    else if input.start_time == 0 || input.end_time == 0 || leb input.end_time input.start_time
    then some bad_times
    else none

-- `externalSliceName`
unfoldable pub external_slice_name : ExternalDuration → Str → Str
external_slice_name d slice_by =
    if str_eq slice_by (codes "language")
    then or_unknown d.language
    else if str_eq slice_by (codes "category")
    then or_unknown d.category
    else if str_eq slice_by (codes "branch")
    then or_unknown d.branch
    else or_unknown d.project

module _ {F : Type 0} where
  -- The loop of `ExternalDurationsInWindow`, for a window in whole seconds.
  unfoldable pub clip_loop : List ExternalDuration → Str → ℕ → ℕ → List (Duration F)
  unfolding duration_row
  clip_loop [] slice_by start_unix end_unix = []
  clip_loop (d ∷ ds) slice_by start_unix end_unix =
      let start = start_unix * ticks_per_second in
      let end = end_unix * ticks_per_second in
      let clipped_start = if ltb d.start_time start then start else d.start_time in
      let clipped_end = if ltb end d.end_time then end else d.end_time in
      let seconds = (clipped_end - clipped_start) / ticks_per_second in
      let rest = clip_loop ds slice_by start_unix end_unix in
      if seconds == 0
      then rest
      else duration_row (external_slice_name d slice_by) slice_by clipped_start seconds ∷ rest

  -- `ExternalDurationsInWindow`, for a stable sort by name and time.
  unfoldable pub external_durations_in_window :
      (List (Duration F) → List (Duration F))
      → List ExternalDuration
      → Str
      → ℕ
      → ℕ
      → List (Duration F)
  unfolding clip_loop
  external_durations_in_window sort external slice_by start_unix end_unix =
      sort (clip_loop external slice_by start_unix end_unix)

  -- The loop of `ExternalDurationsAsDurations`.
  unfoldable pub whole_loop : List ExternalDuration → Str → List (Duration F)
  unfolding duration_row
  whole_loop [] slice_by = []
  whole_loop (d ∷ ds) slice_by =
      let seconds = (d.end_time - d.start_time) / ticks_per_second in
      let rest = whole_loop ds slice_by in
      if seconds == 0
      then rest
      else duration_row (external_slice_name d slice_by) slice_by d.start_time seconds ∷ rest

  -- `ExternalDurationsAsDurations`
  unfoldable pub external_durations_as_durations :
      (List (Duration F) → List (Duration F)) → List ExternalDuration → Str → List (Duration F)
  unfolding whole_loop
  external_durations_as_durations sort external slice_by = sort (whole_loop external slice_by)

-- The loop of `ExternalDurationTotals`.
unfoldable pub external_total_loop : List ExternalDuration → Str → Dict Str ℕ → Dict Str ℕ
external_total_loop [] slice_by totals = totals
external_total_loop (d ∷ ds) slice_by totals = external_total_loop ds slice_by (
    add_seconds (external_slice_name d slice_by) ((d.end_time - d.start_time) / ticks_per_second)
      totals)

-- `ExternalDurationTotals`
unfoldable pub external_duration_totals :
    (ℕ → Str) → (List SliceTotal → List SliceTotal) → List ExternalDuration → Str → List SliceTotal
unfolding external_total_loop
external_duration_totals sprint sort external slice_by =
    slice_totals_from_map sprint sort (external_total_loop external slice_by [])
