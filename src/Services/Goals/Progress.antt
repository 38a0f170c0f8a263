-- ===== src/Services/Goals/Progress.antt =====
-- internal/services/goals.go: `ComputeGoalProgressForWindowWithExternalDurations`.
use stint.Prelude.{
  ℕ, ◌+◌, ◌-◌, ◌*◌, ◌/◌, true, false, ◌&&◌, Option, none, some, List, ltb, leb, ◌==◌, if◌then◌else◌,
}
use stint.Prelude.Text.{codes}
use stint.Prelude.Int.{ℤ.pos, ◌+ℤ◌, pos_part}
use stint.Pricing.Double.{Double}
use stint.Pricing.Normalize.{Strings}
use stint.Services.Heartbeat.{Heartbeat}
use stint.Services.Durations.{Sorts, compute_durations}
use stint.Services.Durations.Rows.{Fold}
use stint.Services.Totals.{sum_durations, human_duration}
use stint.Services.External.{ExternalDuration, external_durations_in_window}
use stint.Services.Goals.{
  Goal, GoalProgress, Clock, GoalMatcher, new_goal_matcher, goal_heartbeats_in_window,
  goal_external_durations_in_window, goal_snoozed,
}

module _ {F : Type 0} where
  -- The result for a goal that is snoozed.
  unfoldable pub snoozed : Clock F → Goal F → ℕ → GoalProgress F
  snoozed clock goal target = record {
    goal = goal;
    actual_seconds = 0;
    target_seconds = target;
    percent = 0;
    is_complete = false;
    human_readable = codes "0 secs";
    target_readable = human_duration clock.sprint target;
    remaining_seconds = target;
    is_snoozed = true;
    is_ignored = false;
  }

  -- The rest of the function, once the seconds and the target are known.
  unfoldable pub judge : Clock F → Goal F → ℕ → ℕ → GoalProgress F
  judge clock goal actual target =
      let ignored = goal.ignore_zero_days && actual == 0 in
      let share = actual * 100 / target in
      let percent = if ltb 0 target then (if ltb 100 share then 100 else share) else 0 in
      let complete = if goal.is_inverse then leb actual target else leb target actual in
      record {
        goal = goal;
        actual_seconds = actual;
        target_seconds = target;
        percent = if ignored then 100 else percent;
        is_complete = if ignored then true else complete;
        human_readable = human_duration clock.sprint actual;
        target_readable = human_duration clock.sprint target;
        remaining_seconds = if ignored then 0 else target - actual;
        is_snoozed = false;
        is_ignored = ignored;
      }

  -- The target after `ImproveByPercent`.
  unfoldable pub improved : Clock F → Option F → ℕ → ℕ → ℕ
  improved clock none previous target = target
  improved clock (some percent) previous target =
      if ltb 0 previous
      then pos_part (pos previous +ℤ clock.ceil_percent previous percent)
      else target

module _ {F : Type 0} ⦃fl : Double F⦄ (st : Strings) (fold : Fold) (sorts : Sorts F)
    (clock : Clock F) where
  -- The seconds that count towards a goal in a window: `actual` and `previousActual`.
  unfoldable pub seconds_in : GoalMatcher → List Heartbeat → List ExternalDuration → ℕ → ℕ → ℕ → ℕ
  seconds_in m heartbeats external window_start window_end timeout =
      let filtered = goal_heartbeats_in_window st clock m heartbeats window_start window_end in
      let filtered_external =
        goal_external_durations_in_window st clock m external window_start window_end in
      sum_durations (compute_durations st fold sorts filtered timeout (codes "project"))
      + sum_durations (
          external_durations_in_window sorts.rows filtered_external (codes "project") window_start
            window_end)

  -- `ComputeGoalProgressForWindowWithExternalDurations`; `now` is `time.Now()`. The window before this one
  -- is as long.
  unfoldable pub compute_goal_progress :
      Goal F → List Heartbeat → List ExternalDuration → ℕ → ℕ → ℕ → ℕ → GoalProgress F
  unfolding snoozed judge improved
  compute_goal_progress goal heartbeats external window_start window_end timeout now =
      let m = new_goal_matcher st goal in
      let target = pos_part goal.seconds in
      let previous_start = window_start - (window_end - window_start) in
      let actual = seconds_in m heartbeats external window_start window_end timeout in
      let previous = seconds_in m heartbeats external previous_start window_start timeout in
      if goal_snoozed clock goal now
      then snoozed clock goal target
      else judge clock goal actual (improved clock goal.improve_by_percent previous target)
