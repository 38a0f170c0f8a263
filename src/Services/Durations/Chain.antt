-- ===== src/Services/Durations/Chain.antt =====
-- The groups that `ComputeDurationsFromSorted` makes: in every group no row begins before the one in
-- front of it has ended, and the groups hold all the seconds that are credited.
use stint.Prelude.{
  ℕ, ◌+◌, ◌*◌, ◌≤◌, ◌≡◌, inl, inr, refl, ◌∙◌, Option, none, some, List, [], ◌∷◌, ◌++◌, arith,
  Bool-cases, sum_by, sum_by-append, if◌then◌else◌, ◌==◌,
}
use stint.Prelude.Text.{Str, str_eq}
use stint.Prelude.Dict.{text_eq, lookup, insert}
use stint.Prelude.Sums.{value_of, sum_by-insert}
use stint.Prelude.Sort.{Ascending}
use stint.Pricing.Double.{Double}
use stint.Pricing.Normalize.{Strings}
use stint.Cli.Heartbeat.{ticks_per_second}
use stint.Services.Heartbeat.{Heartbeat, is_empty}
use stint.Services.Durations.{Grouped, credited, gap_nanos, seconds_of, rows_of, end_of}
use stint.Services.Durations.Rows.{
  Duration, Fold, duration_row, with_prompt, has_ai_fields, apply_heartbeat_ai_to_duration,
  duration_row_for_heartbeat,
}
use stint.Services.Durations.Slices.{slice_name}
use stint.Services.Durations.Merge.{Chain, total_seconds, recompute_duration_prompt_stats-frame}

module _ {F : Type 0} where
  Chain-mono : (rows : List (Duration F)) (b b' : ℕ) → b ≤ b' → Chain rows b → Chain rows b'
  Chain-mono [] b b' h c = tt
  Chain-mono (r ∷ []) b b' h c = omega arith
  Chain-mono (r ∷ r' ∷ rows) b b' h (c, rest) = (c, Chain-mono (r' ∷ rows) b b' h rest)

  pub Chain-append :
      (rows : List (Duration F)) (r : Duration F) (b : ℕ)
      → Chain rows r.time
      → end_of r ≤ b
      → Chain (rows ++ r ∷ []) b
  Chain-append [] r b c h = h
  Chain-append (s ∷ []) r b c h = (c, h)
  Chain-append (s ∷ s' ∷ rows) r b (c, rest) h = (c, Chain-append (s' ∷ rows) r b rest h)

  -- Every group is a chain that has ended at `bound`.
  abbrev pub Chains : ℕ → Grouped F → Type 0
  Chains bound [] = Unit
  Chains bound ((n, rows) ∷ g) = Chain rows bound × Chains bound g

  pub Chains-mono : (g : Grouped F) (b b' : ℕ) → b ≤ b' → Chains b g → Chains b' g
  Chains-mono [] b b' h c = tt
  Chains-mono ((n, rows) ∷ g) b b' h (c, cs) = (Chain-mono rows b b' h c, Chains-mono g b b' h cs)

  pub insert-Chains :
      (n : Str) (rows : List (Duration F)) (g : Grouped F) (b : ℕ)
      → Chain rows b
      → Chains b g
      → Chains b (insert n rows g)
  unfolding insert
  insert-Chains n rows [] b c cs = (c, tt)
  insert-Chains n rows ((m, old) ∷ g) b c (c', cs) = elim (Bool-cases (str_eq m n)) [
    | inl e ↦ rw e (c, cs)
    | inr e ↦ rw e (c', insert-Chains n rows g b c cs)
  ]

  pub rows_of-Chain :
      (n : Str) (g : Grouped F) (b : ℕ) → Chains b g → Chain (rows_of (lookup n g)) b
  unfolding lookup rows_of
  rows_of-Chain n [] b cs = tt
  rows_of-Chain n ((m, rows) ∷ g) b (c, cs) = elim (Bool-cases (str_eq m n)) [
    | inl e ↦ rw e c
    | inr e ↦ rw e (rows_of-Chain n g b cs)
  ]

  abbrev pub grouped_seconds : Grouped F → ℕ
  grouped_seconds = sum_by (λ p. total_seconds p.1)

  pub total_seconds-rows_of :
      (o : Option (List (Duration F))) → total_seconds (rows_of o) ≡ value_of total_seconds o
  unfolding rows_of
  total_seconds-rows_of none = refl
  total_seconds-rows_of (some rows) = refl

  -- Appending a row to a group adds its seconds.
  pub grouped_seconds-insert :
      (n : Str) (r : Duration F) (g : Grouped F)
      → grouped_seconds (insert n (rows_of (lookup n g) ++ r ∷ []) g)
        ≡ grouped_seconds g + r.duration_seconds
  grouped_seconds-insert n r g =
      let rows = rows_of (lookup n g) in
      omega (
        arith,
        sum_by-insert total_seconds n (rows ++ r ∷ []) g,
        total_seconds-rows_of (lookup n g),
        sum_by-append (λ (d : Duration F). d.duration_seconds) rows (r ∷ []),
      )

-- The time of the next heartbeat, or `t` if there is none.
abbrev pub next_time : ℕ → List Heartbeat → ℕ
next_time t [] = t
next_time t (h ∷ hs) = h.time

abbrev pub last_time : ℕ → List Heartbeat → ℕ
last_time t [] = t
last_time t (h ∷ hs) = last_time h.time hs

pub last_time-next_time :
    (t : ℕ) (hs : List Heartbeat) → last_time (next_time t hs) hs ≡ last_time t hs
last_time-next_time t [] = refl
last_time-next_time t (h ∷ hs) = refl

pub next_time-Ascending :
    (t : ℕ) (hs : List Heartbeat)
    → Ascending (λ h. h.time) t hs
    → (t ≤ next_time t hs) × Ascending (λ h. h.time) (next_time t hs) hs
next_time-Ascending t [] a = (omega arith, tt)
next_time-Ascending t (h ∷ hs) (le, a) = (le, (omega arith, a))

-- The credited seconds fit between the two heartbeats.
credited-le : (timeout a b : ℕ) → a ≤ b → a + credited timeout a b * ticks_per_second ≤ b
unfolding credited gap_nanos
credited-le timeout a b h = ground arith

pub seconds_of-le :
    (timeout : ℕ) (h : Heartbeat) (hs : List Heartbeat)
    → h.time ≤ next_time h.time hs
    → h.time + seconds_of timeout h hs * ticks_per_second ≤ next_time h.time hs
unfolding seconds_of
seconds_of-le timeout h [] le = omega arith
seconds_of-le timeout h (next ∷ hs) le = credited-le timeout h.time next.time le

-- The seconds that all heartbeats that have a name in the slice are credited.
abbrev pub credited_total : ℕ → Str → List Heartbeat → ℕ
credited_total timeout slice_by [] = 0
credited_total timeout slice_by (h ∷ hs) =
    (if is_empty (slice_name h slice_by) then 0 else seconds_of timeout h hs)
    + credited_total timeout slice_by hs

with_prompt-frame :
    {F : Type 0} (n : ℕ) (session : Str) (row : Duration F)
    → ((with_prompt n session row).time ≡ row.time)
      × ((with_prompt n session row).duration_seconds ≡ row.duration_seconds)
unfolding with_prompt
with_prompt-frame n session row = elim (Bool-cases (n == 0)) [
  | inl e ↦ rw e (refl, refl)
  | inr e ↦ elim (Bool-cases (is_empty session)) [
    | inl empty ↦ rw (e, empty) (refl, refl)
    | inr other ↦ rw (e, other) (refl, refl)
  ]
]

-- The row of a heartbeat begins at its time and has the credited seconds.
pub duration_row-frame :
    (F : Type 0) ⦃fl : Double F⦄ (st : Strings) (fold : Fold) (name slice_by : Str) (h : Heartbeat)
    (seconds : ℕ)
    → let row : Duration F = duration_row_for_heartbeat st fold name slice_by h seconds in
      (row.time ≡ h.time) × (row.duration_seconds ≡ seconds)
unfolding duration_row_for_heartbeat apply_heartbeat_ai_to_duration duration_row
duration_row-frame F st fold name slice_by h seconds = elim (Bool-cases (has_ai_fields st fold h)) [
  | inl e ↦ rw e (
      let (t, s, n) = recompute_duration_prompt_stats-frame {F = F} _ in
      let (t', s') = with_prompt-frame {F = F} _ _ _ in (t ∙ t', s ∙ s'))
  | inr e ↦ rw e (refl, refl)
]
