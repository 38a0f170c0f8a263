-- ===== src/Services/External/Laws.antt =====
-- External durations cut to a window.
use stint.Prelude.{
  ℕ, ◌+◌, ◌-◌, ◌*◌, ◌/◌, ◌≤◌, ◌<◌, ◌≡◌, inl, inr, refl, ◌∙◌, List, [], ◌∷◌, arith, ltb, ◌==◌,
  if◌then◌else◌, Bool-cases, length, All, sum_by,
}
use mathlib.Core.List.{Perm}
use stint.Prelude.Text.{Str}
use stint.Prelude.Sort.{sum_by-perm}
use stint.Cli.Heartbeat.{ticks_per_second}
use stint.Services.Durations.Rows.{Duration}
use stint.Services.Durations.{end_of}
use stint.Services.External.{ExternalDuration, clip_loop, external_durations_in_window}

-- The whole seconds of an external duration within a window.
abbrev pub seconds_within : ExternalDuration → ℕ → ℕ → ℕ
seconds_within d s e =
    ((if ltb (e * ticks_per_second) d.end_time then e * ticks_per_second else d.end_time)
      - (if ltb d.start_time (s * ticks_per_second) then s * ticks_per_second else d.start_time))
    / ticks_per_second

abbrev pub IsWithin : {F : Type 0} → ℕ → ℕ → Duration F → Type 0
IsWithin s e r =
    (s * ticks_per_second ≤ r.time) × (end_of r ≤ e * ticks_per_second) × (0 < r.duration_seconds)

module _ (F : Type 0) where
  -- Every row that the loop makes lies in the window, from its first second to its last, and is not empty.
  pub clip_loop-IsWithin :
      (ds : List ExternalDuration) (slice_by : Str) (s e : ℕ)
      → All (IsWithin {F = F} s e) (clip_loop ds slice_by s e)
  unfolding clip_loop end_of
  clip_loop-IsWithin [] slice_by s e = tt
  clip_loop-IsWithin (d ∷ ds) slice_by s e =
      let rest = clip_loop-IsWithin ds slice_by s e in
      elim (Bool-cases (seconds_within d s e == 0)) [
        | inl empty ↦ rw empty rest
        | inr full ↦ rw full (ground arith, rest)
      ]

  clip_loop-sum :
      (ds : List ExternalDuration) (slice_by : Str) (s e : ℕ)
      → sum_by (λ (r : Duration F). r.duration_seconds) (clip_loop ds slice_by s e)
        ≡ sum_by (λ d. seconds_within d s e) ds
  unfolding clip_loop
  clip_loop-sum [] slice_by s e = refl
  clip_loop-sum (d ∷ ds) slice_by s e =
      let rest = clip_loop-sum ds slice_by s e in
      elim (Bool-cases (seconds_within d s e == 0)) [
        | inl empty ↦ rw empty (ground (arith, rest))
        | inr full ↦ rw full (omega (arith, rest))
      ]

seconds_within-split :
    (d : ExternalDuration) (s m e : ℕ)
    → s ≤ m
    → m ≤ e
    → (seconds_within d s m + seconds_within d m e ≤ seconds_within d s e)
      × (seconds_within d s e ≤ seconds_within d s m + seconds_within d m e + 1)
seconds_within-split d s m e h k = ground arith

sum_within-split :
    (ds : List ExternalDuration) (s m e : ℕ)
    → s ≤ m
    → m ≤ e
    → let within = λ (a b : ℕ). sum_by (λ d. seconds_within d a b) ds in
      (within s m + within m e ≤ within s e) × (within s e ≤ within s m + within m e + length ds)
sum_within-split [] s m e h k = omega arith
sum_within-split (d ∷ ds) s m e h k =
    omega (arith, seconds_within-split d s m e h k, sum_within-split ds s m e h k)

-- Let `sort` permute its argument. Let a window from `s` to `e` be cut at `m`. No second of an external
-- duration is counted in both parts, and to the whole window the two parts lack one second at most for
-- every external duration.
pub external_durations_in_window-split :
    (F : Type 0) (sort : List (Duration F) → List (Duration F)) (ds : List ExternalDuration)
    (slice_by : Str) (s m e : ℕ)
    → ((rows : List (Duration F)) → Perm (sort rows) rows)
    → s ≤ m
    → m ≤ e
    → let total = λ (a b : ℕ).
      sum_by (λ r. r.duration_seconds) (external_durations_in_window sort ds slice_by a b) in
      (total s m + total m e ≤ total s e) × (total s e ≤ total s m + total m e + length ds)
unfolding external_durations_in_window
external_durations_in_window-split F sort ds slice_by s m e permutes h k =
    let seconds : Duration F → ℕ = λ r. r.duration_seconds in
    let within : ℕ → ℕ → ℕ = λ a b. sum_by (λ d. seconds_within d a b) ds in
    let sums : (a b : ℕ) → sum_by seconds (sort (clip_loop ds slice_by a b)) ≡ within a b = λ a b.
      sum_by-perm seconds (permutes (clip_loop ds slice_by a b))
      ∙ clip_loop-sum F ds slice_by a b in
    omega (arith, sums s m, sums m e, sums s e, sum_within-split ds s m e h k)
