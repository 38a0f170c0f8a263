-- ===== src/Services/Goals/Laws.antt =====
-- What the progress of a goal says of its seconds and its target.
use stint.Prelude.{
  ℕ, ◌+◌, ◌*◌, ◌/◌, ◌≤◌, ◌<◌, ◌≡◌, ◌↔◌, ◌&&◌, ◌||◌, ◌==◌, if◌then◌else◌, leb, inl, inr, true, false,
  arith, Bool-cases, ltb, List,
}
use native.Mathlib.Nat.{le-div_iff_mul-le}
use stint.Pricing.Double.{Double}
use stint.Pricing.Normalize.{Strings}
use stint.Services.Heartbeat.{Heartbeat}
use stint.Services.Durations.{Sorts}
use stint.Services.Durations.Rows.{Fold}
use stint.Services.External.{ExternalDuration}
use stint.Services.Goals.{Goal, GoalProgress, Clock, goal_snoozed}
use stint.Services.Goals.Progress.{snoozed, judge, compute_goal_progress}

-- The figures of a progress fit together.
pub record IsCoherent {F : Type 0} (p : GoalProgress F) : Type 0 where
  pub percent_le : p.percent ≤ 100
  pub remaining_le : p.remaining_seconds ≤ p.target_seconds
  pub adds_up : p.actual_seconds + p.remaining_seconds ≡ (
      if p.is_ignored || leb p.target_seconds p.actual_seconds
      then p.actual_seconds
      else p.target_seconds)
  pub completes : p.is_complete ≡ (
      if p.is_snoozed
      then false
      else if p.is_ignored
      then true
      else if p.goal.is_inverse
      then leb p.actual_seconds p.target_seconds
      else p.remaining_seconds == 0)
  pub fills : (p.percent == 100) ≡ (
      if p.is_snoozed
      then false
      else if p.is_ignored
      then true
      else ltb 0 p.target_seconds && leb p.target_seconds p.actual_seconds)

snoozed-IsCoherent :
    {F : Type 0} (clock : Clock F) (goal : Goal F) (target : ℕ)
    → IsCoherent (snoozed clock goal target)
unfolding snoozed
snoozed-IsCoherent clock goal target = ground arith

share-le : (actual target : ℕ) → 0 < target → (100 ≤ actual * 100 / target) ↔ (target ≤ actual)
share-le actual target h = (
  λ le. omega (arith, (le-div_iff_mul-le {k = target} {x = 100} {y = actual * 100} h).0 le),
  λ le. (le-div_iff_mul-le {k = target} {x = 100} {y = actual * 100} h).1 (omega arith),
)

judge-IsCoherent :
    {F : Type 0} (clock : Clock F) (goal : Goal F) (actual target : ℕ)
    → IsCoherent (judge clock goal actual target)
unfolding judge
judge-IsCoherent clock goal actual target = record {
  percent_le = ground arith;
  remaining_le = ground arith;
  adds_up = ground arith;
  completes = ground arith;
  fills = ground (arith, share-le actual target);
}

-- The percentage of a goal is at most 100, and what remains is at most the target. Actual and remaining
-- seconds add up to the target; to the actual seconds, where these reach the target or the goal is
-- ignored. A snoozed goal is not complete and an ignored one is; any other is complete exactly if nothing
-- remains, and an inverse one exactly if the target is not passed. The percentage is 100 exactly if the
-- goal is ignored, or if it is not snoozed and the actual seconds reach a positive target.
pub compute_goal_progress-IsCoherent :
    {F : Type 0} ⦃fl : Double F⦄ (st : Strings) (fold : Fold) (sorts : Sorts F) (clock : Clock F)
    (goal : Goal F) (heartbeats : List Heartbeat) (external : List ExternalDuration)
    (window_start window_end timeout now : ℕ)
    → IsCoherent (
        compute_goal_progress st fold sorts clock goal heartbeats external window_start window_end
          timeout now)
unfolding compute_goal_progress
compute_goal_progress-IsCoherent st fold sorts clock goal hs ds s e timeout now =
    elim (Bool-cases (goal_snoozed clock goal now)) [
      | inl asleep ↦ rw asleep (snoozed-IsCoherent clock goal _)
      | inr awake ↦ rw awake (judge-IsCoherent clock goal _ _)
    ]
