-- ===== src/Services/Goals/Window.antt =====
-- The time that counts towards a goal, and the window that it is counted in.
use stint.Prelude.{
  ℕ, ◌-◌, ◌*◌, ◌/◌, ◌≤◌, ◌<◌, ◌≡◌, inl, inr, refl, ◌∙◌, Bool, true, ◌&&◌, List, [], ◌∷◌, arith, ltb,
  leb, Bool-cases, All,
}
use stint.Prelude.Text.{codes, str_eq}
use stint.Prelude.Sort.{IsSort, Ascending, All-perm, sum_by-perm}
use stint.Pricing.Double.{Double}
use stint.Pricing.Normalize.{Strings}
use stint.Cli.Heartbeat.{ticks_per_second}
use stint.Services.Heartbeat.{Heartbeat}
use stint.Services.Durations.{Sorts, compute_durations_from_sorted, compute_durations}
use stint.Services.Durations.Rows.{Duration, Fold}
use stint.Services.Durations.Chain.{last_time}
use stint.Services.Durations.Merge.{total_seconds}
use stint.Services.Durations.Total.{
  Permutes, compute_durations_from_sorted-total, compute_durations_from_sorted-le,
}
use stint.Services.Totals.{sum_durations}
use stint.Services.External.{clip_loop, external_durations_in_window}
use stint.Services.Goals.{
  Clock, GoalMatcher, counts, goal_heartbeats_in_window, external_loop,
  goal_external_durations_in_window, has_any,
}
use stint.Services.Goals.Progress.{seconds_in}

abbrev in_window : ℕ → ℕ → Heartbeat → Bool
in_window s e h = leb s (h.time / ticks_per_second) && ltb (h.time / ticks_per_second) e

sum_durations-total : {F : Type 0} (ds : List (Duration F)) → sum_durations ds ≡ total_seconds ds
unfolding sum_durations
sum_durations-total [] = refl
sum_durations-total (d ∷ ds) = omega (arith, sum_durations-total ds)

module _ {F : Type 0} (st : Strings) (clock : Clock F) (m : GoalMatcher) (s e : ℕ) where
  counts-in_window : (h : Heartbeat) → counts st clock m s e h ≡ true → in_window s e h ≡ true
  unfolding counts
  counts-in_window h c = ground arith

  filtered-in_window :
      (hs : List Heartbeat)
      → All (λ h. in_window s e h ≡ true) (goal_heartbeats_in_window st clock m hs s e)
  unfolding goal_heartbeats_in_window
  filtered-in_window [] = tt
  filtered-in_window (h ∷ hs) = elim (Bool-cases (counts st clock m s e h)) [
    | inl c ↦ rw c (counts-in_window h c, filtered-in_window hs)
    | inr c ↦ rw c (filtered-in_window hs)
  ]

last_time-lt :
    (s e : ℕ) (hs : List Heartbeat) (t : ℕ)
    → t < e * ticks_per_second
    → All (λ h. in_window s e h ≡ true) hs
    → last_time t hs < e * ticks_per_second
last_time-lt s e [] t h all = h
last_time-lt s e (x ∷ hs) t h (inside, all) = last_time-lt s e hs x.time (ground arith) all

module _ {F : Type 0} ⦃fl : Double F⦄ (st : Strings) (fold : Fold) (sorts : Sorts F)
    (permutes : Permutes sorts) (by_time : IsSort (λ h. h.time) sorts.heartbeats) where
  -- The durations by project of heartbeats within a window are no longer than the window.
  sorted_seconds-le :
      (s e timeout : ℕ) (hs : List Heartbeat)
      → Ascending (λ h. h.time) 0 hs
      → All (λ h. in_window s e h ≡ true) hs
      → total_seconds (compute_durations_from_sorted st fold sorts hs timeout (codes "project"))
        ≤ e - s
  unfolding str_eq
  sorted_seconds-le s e timeout [] a all = omega (
    arith,
    compute_durations_from_sorted-total st fold sorts timeout (codes "project") permutes [] refl tt,
  )
  sorted_seconds-le s e timeout (h ∷ hs) (_, a) (inside, all) =
      let le =
        compute_durations_from_sorted-le st fold sorts timeout (codes "project") permutes h hs refl
          a in
      let early : h.time < e * ticks_per_second = ground arith in
      let late : s * ticks_per_second ≤ h.time = ground arith in
      omega (arith, le, last_time-lt s e hs h.time early all)

  no_external :
      (clock : Clock F) (m : GoalMatcher) (s e : ℕ)
      → goal_external_durations_in_window st clock m [] s e ≡ []
  unfolding goal_external_durations_in_window external_loop
  no_external clock m s e = elim (Bool-cases (has_any m.editors)) [ inl b ↦ rw b | inr b ↦ rw b ]

  no_external_seconds :
      (s e : ℕ)
      → sum_durations (external_durations_in_window sorts.rows [] (codes "project") s e) ≡ 0
  unfolding external_durations_in_window clip_loop
  no_external_seconds s e =
      sum_durations-total (sorts.rows []) ∙ sum_by-perm (λ r. r.duration_seconds) (permutes.rows [])

  -- Let the sorts permute their arguments, and let the heartbeats be sorted by time. Without external
  -- durations, the seconds that count towards a goal in a window, and so its actual seconds, are no more
  -- than the window has, whatever heartbeats there are, however they repeat, and whatever the timeout.
  pub seconds_in-le :
      (clock : Clock F) (m : GoalMatcher) (hs : List Heartbeat) (s e timeout : ℕ)
      → seconds_in st fold sorts clock m hs [] s e timeout ≤ e - s
  unfolding seconds_in compute_durations
  seconds_in-le clock m hs s e timeout =
      let filtered = goal_heartbeats_in_window st clock m hs s e in
      let sorted = sorts.heartbeats filtered in
      let inside =
        All-perm (in_window s e) (by_time.permutes filtered)
          (filtered-in_window st clock m s e hs) in
      let le = sorted_seconds-le s e timeout sorted (by_time.sorted filtered) inside in
      rw (no_external clock m s e) (
        omega (
          arith,
          le,
          no_external_seconds s e,
          sum_durations-total
              (compute_durations_from_sorted st fold sorts sorted timeout (codes "project")),
        ))
