-- ===== src/Services/Totals.antt =====
-- internal/services/stats.go, external.go: durations added up by name, and `HumanDuration`. The sort by
-- descending seconds and then by name is a parameter, and so is the decimal text of a number.
pub mod Laws
use stint.Prelude.{
  ℕ, ◌+◌, ◌/◌, ◌%◌, Bool, true, false, ◌&&◌, Option, none, some, List, [], ◌∷◌, ◌++◌, map, ltb,
  ◌==◌, if◌then◌else◌, sum_by,
}
use stint.Prelude.Text.{Str, codes}
use stint.Prelude.Dict.{Dict, text_eq, lookup, insert}
use stint.Services.Durations.Rows.{Duration}

-- `HumanDuration`; `sprint` is `fmt.Sprintf("%d", …)`.
unfoldable pub human_duration : (ℕ → Str) → ℕ → Str
human_duration sprint seconds =
    let hours = seconds / 3600 in
    let minutes = seconds % 3600 / 60 in
    if seconds == 0
    then codes "0 secs"
    else if ltb 0 hours && ltb 0 minutes
    then sprint hours ++ codes " hrs " ++ sprint minutes ++ codes " mins"
    else if ltb 0 hours
    then sprint hours ++ codes " hrs"
    else if ltb 0 minutes
    then sprint minutes ++ codes " mins"
    else sprint seconds ++ codes " secs"

pub record SliceTotal : Type 0 where
  pub name : Str
  pub total_seconds : ℕ
  pub text : Str

unfoldable pub or_zero : Option ℕ → ℕ
or_zero none = 0
or_zero (some n) = n

-- `totals[name] += seconds`
unfoldable pub add_seconds : Str → ℕ → Dict Str ℕ → Dict Str ℕ
unfolding or_zero
add_seconds name seconds totals = insert name (or_zero (lookup name totals) + seconds) totals

-- `sumDurations`
unfoldable pub sum_durations : {F : Type 0} → List (Duration F) → ℕ
sum_durations [] = 0
sum_durations (d ∷ ds) = d.duration_seconds + sum_durations ds

-- The loop of `totalsByName`.
unfoldable pub total_loop : {F : Type 0} → List (Duration F) → Dict Str ℕ → Dict Str ℕ
unfolding add_seconds
total_loop [] totals = totals
total_loop (d ∷ ds) totals = total_loop ds (add_seconds d.name d.duration_seconds totals)

unfoldable pub total_row : (ℕ → Str) → Str × ℕ → SliceTotal
unfolding human_duration
total_row sprint (name, seconds) = record {
  name = name;
  total_seconds = seconds;
  text = human_duration sprint seconds;
}

module _ (sprint : ℕ → Str) (sort : List SliceTotal → List SliceTotal) where
  -- `sliceTotalsFromMap`, and the end of `totalsByName` and `ExternalDurationTotals`.
  unfoldable pub slice_totals_from_map : Dict Str ℕ → List SliceTotal
  unfolding total_row
  slice_totals_from_map totals = sort (map (total_row sprint) totals)

  -- `totalsByName`
  unfoldable pub totals_by_name : {F : Type 0} → List (Duration F) → List SliceTotal
  unfolding total_loop slice_totals_from_map
  totals_by_name durations = slice_totals_from_map (total_loop durations [])
