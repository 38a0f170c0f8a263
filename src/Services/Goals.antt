-- ===== src/Services/Goals.antt =====
-- internal/services/goals.go: which heartbeats and external durations count towards a goal, and how far
-- the goal is. A moment is a number of seconds since the epoch. `time.Weekday.String`, `time.Parse`
-- and the rounded percentage, which is computed in `float64`, are parameters.
pub mod Progress
pub mod Laws
pub mod Window
use stint.Prelude.{
  ℕ, ◌+◌, ◌-◌, ◌*◌, ◌/◌, Bool, true, false, not, ◌&&◌, ◌||◌, Option, none, some, List, [], ◌∷◌, map,
  ltb, leb, ◌==◌, if◌then◌else◌,
}
use stint.Prelude.Text.{Str, codes, str_eq}
use stint.Prelude.Int.{ℤ, ℤ.pos, ◌+ℤ◌, pos_part}
use stint.Pricing.Double.{Double}
use stint.Pricing.Normalize.{Strings}
use stint.Cli.Heartbeat.{ticks_per_second}
use stint.Services.Heartbeat.{Heartbeat}
use stint.Services.Durations.{Sorts, compute_durations}
use stint.Services.Durations.Rows.{Duration, Fold}
use stint.Services.Durations.Slices.{occurs}
use stint.Services.Totals.{sum_durations, human_duration}
use stint.Services.External.{ExternalDuration, external_durations_in_window}

pub record Goal (F : Type 0) : Type 0 where
  pub id : Str
  pub title : Str
  pub custom_title : Str
  pub delta : Str
  pub seconds : ℤ
  pub languages : List Str
  pub editors : List Str
  pub projects : List Str
  pub ignore_days : List Str
  pub ignore_zero_days : Bool
  pub improve_by_percent : Option F
  pub is_enabled : Bool
  pub is_inverse : Bool
  pub is_snoozed : Bool
  pub snooze_until : Str
  pub created_at : Str
  pub modified_at : Str

pub record GoalProgress (F : Type 0) : Type 0 where
  pub goal : Goal F
  pub actual_seconds : ℕ
  pub target_seconds : ℕ
  pub percent : ℕ
  pub is_complete : Bool
  pub human_readable : Str
  pub target_readable : Str
  pub remaining_seconds : ℕ
  pub is_snoozed : Bool
  pub is_ignored : Bool

-- What the code takes from packages `time`, `fmt` and `math`: the name of the week day of a moment,
-- `time.Parse(time.RFC3339, …)`, `%d`, and `int(math.Ceil(float64(n)*percent/100))`.
pub record Clock (F : Type 0) : Type 0 where
  pub weekday : ℕ → Str
  pub parse : Str → Option ℕ
  pub sprint : ℕ → Str
  pub ceil_percent : ℕ → F → ℤ

-- `goalMatcher`; a set is the list of its elements.
pub record GoalMatcher : Type 0 where
  pub projects : List Str
  pub languages : List Str
  pub editors : List Str
  pub ignore_days : List Str

-- `stringSet`
unfoldable pub string_set : Strings → List Str → List Str
string_set st values = map (λ v. st.to_lower (st.trim_space v)) values

-- `matchesSet`
unfoldable pub matches_set : Strings → List Str → Str → Bool
matches_set st [] value = true
matches_set st (a ∷ allowed) value = occurs (st.to_lower (st.trim_space value)) (a ∷ allowed)

unfoldable pub has_any : List Str → Bool
has_any [] = false
has_any (s ∷ ss) = true

module _ {F : Type 0} where
  -- `newGoalMatcher`
  unfoldable pub new_goal_matcher : Strings → Goal F → GoalMatcher
  unfolding string_set
  new_goal_matcher st goal = record {
    projects = string_set st goal.projects;
    languages = string_set st goal.languages;
    editors = string_set st goal.editors;
    ignore_days = string_set st goal.ignore_days;
  }

  -- `goalMatcher.ignoreDay`
  unfoldable pub ignore_day : Strings → Clock F → GoalMatcher → ℕ → Bool
  unfolding has_any
  ignore_day st clock m timestamp =
      has_any m.ignore_days && occurs (st.to_lower (clock.weekday timestamp)) m.ignore_days

  -- Whether a heartbeat passes the guards of `goalHeartbeatsInWindow`.
  unfoldable pub counts : Strings → Clock F → GoalMatcher → ℕ → ℕ → Heartbeat → Bool
  unfolding ignore_day matches_set
  counts st clock m window_start window_end h =
      let timestamp = h.time / ticks_per_second in
      if ltb timestamp window_start || not (ltb timestamp window_end)
      then false
      else if ignore_day st clock m timestamp
      then false
      else if not (matches_set st m.projects h.project)
      then false
      else if not (matches_set st m.languages h.language)
      then false
      else if not (matches_set st m.editors h.editor)
      then false
      else true

  -- `goalHeartbeatsInWindow`
  unfoldable pub goal_heartbeats_in_window :
      Strings → Clock F → GoalMatcher → List Heartbeat → ℕ → ℕ → List Heartbeat
  unfolding counts
  goal_heartbeats_in_window st clock m [] window_start window_end = []
  goal_heartbeats_in_window st clock m (h ∷ hs) window_start window_end =
      let rest = goal_heartbeats_in_window st clock m hs window_start window_end in
      if counts st clock m window_start window_end h then h ∷ rest else rest

  -- Whether an external duration passes the guards of `goalExternalDurationsInWindow`.
  unfoldable pub external_counts : Strings → Clock F → GoalMatcher → ℕ → ℕ → ExternalDuration → Bool
  unfolding ignore_day matches_set
  external_counts st clock m window_start window_end d =
      let start = d.start_time / ticks_per_second in
      let end = d.end_time / ticks_per_second in
      let effective_start = if ltb start window_start then window_start else start in
      if not (ltb start window_end) || not (ltb window_start end)
      then false
      else if ignore_day st clock m effective_start
      then false
      else if not (matches_set st m.projects d.project)
      then false
      else if not (matches_set st m.languages d.language)
      then false
      else true

  -- The loop of `goalExternalDurationsInWindow`.
  unfoldable pub external_loop :
      Strings → Clock F → GoalMatcher → List ExternalDuration → ℕ → ℕ → List ExternalDuration
  unfolding external_counts
  external_loop st clock m [] window_start window_end = []
  external_loop st clock m (d ∷ ds) window_start window_end =
      let rest = external_loop st clock m ds window_start window_end in
      if external_counts st clock m window_start window_end d then d ∷ rest else rest

  -- `goalExternalDurationsInWindow`; an editor filter leaves no external duration.
  unfoldable pub goal_external_durations_in_window :
      Strings → Clock F → GoalMatcher → List ExternalDuration → ℕ → ℕ → List ExternalDuration
  unfolding has_any external_loop
  goal_external_durations_in_window st clock m external window_start window_end =
      if has_any m.editors then [] else external_loop st clock m external window_start window_end

  -- `goalSnoozed`
  unfoldable pub goal_snoozed : Clock F → Goal F → ℕ → Bool
  goal_snoozed clock goal now =
      if not goal.is_snoozed
      then false
      else if str_eq goal.snooze_until []
      then true
      else elim (clock.parse goal.snooze_until) [ none ↦ true | some until ↦ ltb now until ]
