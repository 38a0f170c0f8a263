-- ===== src/Services/Durations/Merge.antt =====
-- What the fusion of adjacent rows keeps.
use stint.Prelude.{
  ℕ, ◌+◌, ◌-◌, ◌*◌, ◌/◌, ◌≤◌, ◌<◌, ◌≡◌, inl, inr, refl, ap, ◌∙◌, true, false, Option, none, some,
  List, [], ◌∷◌, arith, ◌==◌, suc, Bool-cases, sum_by,
}
use stint.Pricing.Double.{Double}
use stint.Cli.Heartbeat.{ticks_per_second}
use stint.Services.Durations.{
  gap_nanos, end_of, merged, merge_loop, merge_adjacent_durations_from_sorted,
}
use stint.Services.Durations.Rows.{
  Duration, merge_duration_ai, recompute_duration_prompt_stats, recompute_sessions,
}

module _ {F : Type 0} where
  -- No row begins before the one in front of it has ended, and all have ended at `bound`.
  abbrev pub Chain : List (Duration F) → ℕ → Type 0
  Chain [] bound = Unit
  Chain (r ∷ []) bound = end_of r ≤ bound
  Chain (r ∷ r' ∷ rs) bound = (end_of r ≤ r'.time) × Chain (r' ∷ rs) bound

  -- The first row begins at `low` or later, every other later than the one in front of it has ended,
  -- and the last has ended at `bound`.
  abbrev pub Apart : ℕ → ℕ → List (Duration F) → Type 0
  Apart low bound [] = low ≤ suc bound
  Apart low bound (r ∷ rs) = (low ≤ r.time) × Apart (suc (end_of r)) bound rs

  Chain-head :
      (r s : Duration F) (rs : List (Duration F)) (bound : ℕ)
      → end_of s ≡ end_of r
      → Chain (r ∷ rs) bound
      → Chain (s ∷ rs) bound
  Chain-head r s [] bound e h = rw e h
  Chain-head r s (r' ∷ rs) bound e (h, rest) = (rw e h, rest)

  -- The time at which the first row begins, and that at which the last one ends.
  abbrev pub start_of : List (Duration F) → Option ℕ
  start_of [] = none
  start_of (r ∷ rs) = some r.time

  abbrev pub last_end : List (Duration F) → Option ℕ
  last_end [] = none
  last_end (r ∷ []) = some (end_of r)
  last_end (r ∷ r' ∷ rs) = last_end (r' ∷ rs)

  last_end-head :
      (r s : Duration F) (rs : List (Duration F))
      → end_of s ≡ end_of r
      → last_end (s ∷ rs) ≡ last_end (r ∷ rs)
  last_end-head r s [] e = ap some e
  last_end-head r s (r' ∷ rs) e = refl

  abbrev pub total_seconds : List (Duration F) → ℕ
  total_seconds = sum_by (λ r. r.duration_seconds)

  recompute_sessions-frame :
      (events lengths : List ℕ) (row : Duration F)
      → ((recompute_sessions events lengths row).time ≡ row.time)
        × ((recompute_sessions events lengths row).duration_seconds ≡ row.duration_seconds)
        × ((recompute_sessions events lengths row).name ≡ row.name)
  unfolding recompute_sessions
  recompute_sessions-frame [] lengths row = (refl, refl, refl)
  recompute_sessions-frame (e ∷ events) lengths row = (refl, refl, refl)

  pub recompute_duration_prompt_stats-frame :
      (row : Duration F)
      → ((recompute_duration_prompt_stats row).time ≡ row.time)
        × ((recompute_duration_prompt_stats row).duration_seconds ≡ row.duration_seconds)
        × ((recompute_duration_prompt_stats row).name ≡ row.name)
  unfolding recompute_duration_prompt_stats
  recompute_duration_prompt_stats-frame row = recompute_sessions-frame _ _ _

gap_nanos-zero : (a b : ℕ) → (gap_nanos a b == 0) ≡ true → b ≤ a
unfolding gap_nanos
gap_nanos-zero a b h = ground arith

gap_nanos-pos : (a b : ℕ) → (gap_nanos a b == 0) ≡ false → a < b
unfolding gap_nanos
gap_nanos-pos a b h = ground arith

module _ {F : Type 0} ⦃fl : Double F⦄ where
  merge_duration_ai-frame :
      (dst src : Duration F)
      → ((merge_duration_ai dst src).time ≡ dst.time)
        × ((merge_duration_ai dst src).duration_seconds ≡ dst.duration_seconds)
        × ((merge_duration_ai dst src).name ≡ dst.name)
  unfolding merge_duration_ai
  merge_duration_ai-frame dst src = recompute_duration_prompt_stats-frame _

  -- The fused row begins where the first began; its seconds are those of both, if the second begins
  -- where the first ends.
  merged-frame :
      (last item : Duration F)
      → ((merged last item).time ≡ last.time)
        × ((merged last item).name ≡ last.name)
        × (end_of last ≡ item.time
            → (merged last item).duration_seconds ≡ last.duration_seconds + item.duration_seconds)
  unfolding merged end_of
  merged-frame last item =
      let joined : Duration F = record last {
        duration_seconds =
            (item.time + item.duration_seconds * ticks_per_second - last.time) / ticks_per_second;
      } in
      let (t, s, n) = merge_duration_ai-frame joined item in (t, n, λ e. s ∙ omega arith)

  -- The end of the fused row is the end of the second.
  end_of-merged :
      (last item : Duration F) → end_of last ≡ item.time → end_of (merged last item) ≡ end_of item
  unfolding end_of
  end_of-merged last item e = let (t, n, s) = merged-frame last item in omega (arith, t, s e)

  merge_loop-lem :
      (low bound : ℕ) (last : Duration F) (items : List (Duration F))
      → low ≤ last.time
      → Chain (last ∷ items) bound
      → (total_seconds (merge_loop last items) ≡ last.duration_seconds + total_seconds items)
        × Apart low bound (merge_loop last items)
  unfolding merge_loop
  merge_loop-lem low bound last [] h chain = (refl, (h, omega arith))
  merge_loop-lem low bound last (item ∷ items) h (next, chain) =
      elim (Bool-cases (gap_nanos (end_of last) item.time == 0)) [
        | inl e ↦
            let touches : end_of last ≡ item.time =
              omega (arith, gap_nanos-zero (end_of last) item.time e) in
            let (start, name, sum) = merged-frame last item in
            let chain' =
              Chain-head item (merged last item) items bound (end_of-merged last item touches)
                chain in
            let (total, far) =
              merge_loop-lem low bound (merged last item) items (omega (arith, start)) chain' in
            rw e (omega (arith, total, sum touches), far)
        | inr e ↦
            let (total, far) =
              merge_loop-lem (suc (end_of last)) bound item items
                (omega (arith, gap_nanos-pos (end_of last) item.time e)) chain in
            rw e (omega (arith, total), (h, far))
      ]

  last_end-loop :
      (r last : Duration F) (items : List (Duration F))
      → last_end (r ∷ merge_loop last items) ≡ last_end (merge_loop last items)
  unfolding merge_loop
  last_end-loop r last [] = refl
  last_end-loop r last (item ∷ items) = elim (Bool-cases (gap_nanos (end_of last) item.time == 0)) [
    | inl e ↦ rw e (last_end-loop r (merged last item) items)
    | inr e ↦ rw e refl
  ]

  merge_loop-edges :
      (bound : ℕ) (last : Duration F) (items : List (Duration F))
      → Chain (last ∷ items) bound
      → (start_of (merge_loop last items) ≡ some last.time)
        × (last_end (merge_loop last items) ≡ last_end (last ∷ items))
  unfolding merge_loop
  merge_loop-edges bound last [] chain = (refl, refl)
  merge_loop-edges bound last (item ∷ items) (next, chain) =
      elim (Bool-cases (gap_nanos (end_of last) item.time == 0)) [
        | inl e ↦
            let touches : end_of last ≡ item.time =
              omega (arith, gap_nanos-zero (end_of last) item.time e) in
            let same = end_of-merged last item touches in
            let (start, name, sum) = merged-frame last item in
            let chain' = Chain-head item (merged last item) items bound same chain in
            let (starts, ends) = merge_loop-edges bound (merged last item) items chain' in
            rw e (starts ∙ ap some start, ends ∙ last_end-head item (merged last item) items same)
        | inr e ↦
            let (starts, ends) = merge_loop-edges bound item items chain in
            rw e (refl, last_end-loop last item items ∙ ends)
      ]

  -- Rows none of which begins before the one in front of it has ended keep their seconds in total when
  -- they are fused. What comes out begins at the time at which they began and ends at the time at which
  -- they ended, and each row begins strictly after the end of the row in front of it.
  pub merge_adjacent-Apart :
      (bound : ℕ) (items : List (Duration F))
      → Chain items bound
      → let rows = merge_adjacent_durations_from_sorted items in
        (total_seconds rows ≡ total_seconds items)
        × (start_of rows ≡ start_of items)
        × (last_end rows ≡ last_end items)
        × Apart 0 bound rows
  unfolding merge_adjacent_durations_from_sorted
  merge_adjacent-Apart bound [] chain = (refl, refl, refl, omega arith)
  merge_adjacent-Apart bound (item ∷ items) chain =
      let (total, far) = merge_loop-lem 0 bound item items (omega arith) chain in
      let (starts, ends) = merge_loop-edges bound item items chain in (total, starts, ends, far)
