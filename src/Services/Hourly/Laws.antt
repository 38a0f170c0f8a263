-- ===== src/Services/Hourly/Laws.antt =====
-- The hours of a day hold all the seconds of the durations that are cut into them.
use stint.Prelude.{
  ℕ, zero, suc, ◌+◌, ◌-◌, ◌*◌, ◌/◌, ◌<◌, ◌≤◌, ◌≡◌, ◌⊎◌, inl, inr, refl, true, List, [], ◌∷◌, arith,
  ltb, ◌==◌, Bool-cases, length, All, All-append, sum_by, sum_by-append,
}
use stint.Prelude.Text.{Str}
use stint.Cli.Heartbeat.{ticks_per_second}
use stint.Services.Durations.Rows.{Duration}
use stint.Services.Durations.Slices.{or_unknown}
use stint.Services.Totals.{SliceTotal, sum_durations}
use stint.Services.Hourly.{
  Part, part_end, hour_loop, parts_of, add_duration_parts, HourSums, no_hours, update_at,
  add_project_part, add_language_part, add_parts, finish_rows, compute_hourly_timeline,
}

abbrev pub part_seconds : List Part → ℕ
part_seconds = sum_by (λ p. p.seconds)

-- A part lies in one hour of the day and is not empty.
abbrev pub IsPart : Part → Type 0
IsPart p = (p.hour < 24) × (0 < p.seconds) × (p.seconds ≤ 3600)

-- The fuel is enough: the loop is at the end, or the hours left reach it.
abbrev Reaches : ℕ → ℕ → ℕ → Type 0
Reaches fuel cursor end = (cursor ≡ end) ⊎ (end ≤ cursor / 3600 * 3600 + fuel * 3600)

part_end-bounds :
    (fuel cursor end : ℕ)
    → cursor < end
    → Reaches (suc fuel) cursor end
    → (cursor < part_end cursor end)
      × (part_end cursor end ≤ end)
      × (part_end cursor end ≤ cursor + 3600)
      × Reaches fuel (part_end cursor end) end
unfolding part_end
part_end-bounds fuel cursor end h (inl e) = absurd (omega arith)
part_end-bounds fuel cursor end h (inr r) =
    elim (Bool-cases (ltb end (cursor / 3600 * 3600 + 3600))) [
      | inl e ↦ rw e (h, omega arith, ground arith, inl refl)
      | inr e ↦ rw e (omega arith, ground arith, omega arith, inr (omega arith))
    ]

hour_loop-zero :
    (name : Str) (cursor end : ℕ)
    → cursor ≤ end
    → Reaches 0 cursor end
    → cursor + part_seconds (hour_loop 0 name cursor end) ≡ end
unfolding hour_loop
hour_loop-zero name cursor end h (inl e) = omega arith
hour_loop-zero name cursor end h (inr r) = omega arith

hour_loop-lem :
    (fuel : ℕ) (name : Str) (cursor end : ℕ)
    → cursor ≤ end
    → Reaches fuel cursor end
    → (cursor + part_seconds (hour_loop fuel name cursor end) ≡ end)
      × All IsPart (hour_loop fuel name cursor end)
unfolding hour_loop
hour_loop-lem zero name cursor end h r = (hour_loop-zero name cursor end h r, tt)
hour_loop-lem (suc fuel) name cursor end h r = elim (Bool-cases (ltb cursor end)) [
  | inl more ↦
      let (later, le, short, r') = part_end-bounds fuel cursor end (ground arith) r in
      let (sum, parts) = hour_loop-lem fuel name (part_end cursor end) end le r' in
      let full : ltb 0 (part_end cursor end - cursor) ≡ true = ground arith in
      rw (more, full) (omega (arith, sum), ((omega arith, omega arith, omega arith), parts))
  | inr done ↦ rw done (ground arith, tt)
]

parts_of-lem :
    {F : Type 0} (d : Duration F)
    → (part_seconds (parts_of d) ≡ d.duration_seconds) × All IsPart (parts_of d)
unfolding parts_of
parts_of-lem d =
    let start = d.time / ticks_per_second in
    let end = start + d.duration_seconds in
    elim (Bool-cases (d.duration_seconds == 0)) [
      | inl empty ↦ rw empty (ground arith, tt)
      | inr full ↦
          let (sum, parts) =
            hour_loop-lem (d.duration_seconds / 3600 + 2) (or_unknown d.name) start end
              (omega arith) (inr (omega arith)) in
          rw full (omega (arith, sum), parts)
    ]

-- Cutting durations at the full hours loses no second: the parts add up to the durations. Every part
-- lies in one of the hours 0 to 23, is not empty and is no longer than an hour; so the loop ends.
pub add_duration_parts-lem :
    {F : Type 0} (ds : List (Duration F))
    → (part_seconds (add_duration_parts ds) ≡ sum_durations ds) × All IsPart (add_duration_parts ds)
unfolding add_duration_parts sum_durations
add_duration_parts-lem [] = (refl, tt)
add_duration_parts-lem (d ∷ ds) =
    let (sum, parts) = parts_of-lem d in
    let (sum', parts') = add_duration_parts-lem ds in
    (
      omega (arith, sum, sum', sum_by-append (λ p. p.seconds) (parts_of d) (add_duration_parts ds)),
      All-append IsPart (parts_of d) (add_duration_parts ds) parts parts',
    )

abbrev row_seconds : List HourSums → ℕ
row_seconds = sum_by (λ h. h.total_seconds)

-- A write in range to a row adds the difference that it makes there.
update_at-sum :
    (i n : ℕ) (f : HourSums → HourSums) (rows : List HourSums)
    → ((h : HourSums) → (f h).total_seconds ≡ h.total_seconds + n)
    → i < length rows
    → (row_seconds (update_at i f rows) ≡ row_seconds rows + n)
      × (length (update_at i f rows) ≡ length rows)
unfolding update_at
update_at-sum i n f [] adds h = absurd (omega arith)
update_at-sum zero n f (x ∷ xs) adds h = (omega (arith, adds x), refl)
update_at-sum (suc i) n f (x ∷ xs) adds h =
    let (sum, len) = update_at-sum i n f xs adds (omega arith) in
    (omega (arith, sum), omega (arith, len))

-- The same, for all the parts of a list: `seconds` says what one part adds.
add_parts-sum :
    (add : Part → HourSums → HourSums) (seconds : Part → ℕ) (ps : List Part) (rows : List HourSums)
    → ((p : Part) (h : HourSums) → (add p h).total_seconds ≡ h.total_seconds + seconds p)
    → length rows ≡ 24
    → All IsPart ps
    → (row_seconds (add_parts add ps rows) ≡ row_seconds rows + sum_by seconds ps)
      × (length (add_parts add ps rows) ≡ 24)
unfolding add_parts
add_parts-sum add seconds [] rows adds h parts = (omega arith, h)
add_parts-sum add seconds (p ∷ ps) rows adds h ((hour, _, _), parts) =
    let (sum, len) = update_at-sum p.hour (seconds p) (add p) rows (adds p) (omega arith) in
    let (sum', len') =
      add_parts-sum add seconds ps (update_at p.hour (add p) rows) adds (omega (arith, len))
        parts in
    (omega (arith, sum, sum'), len')

finish_rows-sum :
    (sprint : ℕ → Str) (sort : List SliceTotal → List SliceTotal) (i : ℕ) (rows : List HourSums)
    → (sum_by (λ r. r.total_seconds) (finish_rows sprint sort i rows) ≡ row_seconds rows)
      × (length (finish_rows sprint sort i rows) ≡ length rows)
unfolding finish_rows
finish_rows-sum sprint sort i [] = (refl, refl)
finish_rows-sum sprint sort i (h ∷ hs) =
    let (sum, len) = finish_rows-sum sprint sort (i + 1) hs in
    (omega (arith, sum), omega (arith, len))

no_seconds : (ps : List Part) → sum_by (λ p. 0) ps ≡ 0
no_seconds [] = refl
no_seconds (p ∷ ps) = omega (arith, no_seconds ps)

-- The timeline has a row for each of the 24 hours, and the seconds of its rows add up to those of the
-- project durations, wherever these begin and end; the language durations do not change them.
pub compute_hourly_timeline-sum :
    {F : Type 0} (sprint : ℕ → Str) (sort : List SliceTotal → List SliceTotal)
    (projects languages : List (Duration F))
    → let rows = compute_hourly_timeline sprint sort projects languages in
      (sum_by (λ r. r.total_seconds) rows ≡ sum_durations projects) × (length rows ≡ 24)
unfolding compute_hourly_timeline add_project_part add_language_part no_hours
compute_hourly_timeline-sum sprint sort projects languages =
    let (total, ps) = add_duration_parts-lem projects in
    let (_, ls) = add_duration_parts-lem languages in
    let hours = add_parts add_project_part (add_duration_parts projects) (no_hours 24) in
    let (sum, len) =
      add_parts-sum add_project_part (λ p. p.seconds) _ (no_hours 24) (λ p h. refl) refl ps in
    let (sum', len') =
      add_parts-sum add_language_part (λ p. 0) _ hours (λ p h. omega arith) len ls in
    let (sum'', len'') =
      finish_rows-sum sprint sort 0
        (add_parts add_language_part (add_duration_parts languages) hours) in
    (
      omega (arith, total, sum, sum', sum'', no_seconds (add_duration_parts languages)),
      omega (arith, len', len''),
    )
