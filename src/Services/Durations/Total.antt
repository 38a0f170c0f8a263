-- ===== src/Services/Durations/Total.antt =====
-- The durations of a slice hold the seconds that the heartbeats are credited, and no more than the time
-- that passed.
use stint.Prelude.{
  ℕ, ◌+◌, ◌*◌, ◌≤◌, ◌≡◌, inl, inr, refl, false, List, [], ◌∷◌, ◌++◌, map, arith, Bool-cases, sum_by,
  sum_by-append, if◌then◌else◌,
}
use mathlib.Core.List.{Perm}
use stint.Prelude.Text.{Str, codes, str_eq}
use stint.Prelude.Dict.{text_eq, lookup, insert}
use stint.Prelude.Unique.{IsMap, insert-IsMap}
use stint.Prelude.Sums.{value_of, sum_by-keys}
use stint.Prelude.Sort.{Ascending, sum_by-perm}
use stint.Pricing.Double.{Double}
use stint.Pricing.Normalize.{Strings}
use stint.Cli.Heartbeat.{ticks_per_second}
use stint.Services.Heartbeat.{Heartbeat, is_empty}
use stint.Services.Durations.{
  Sorts, Grouped, seconds_of, rows_of, add_rows, end_of, group_loop, merge_names,
  merge_adjacent_durations_from_sorted, compute_durations_from_sorted,
}
use stint.Services.Durations.Rows.{Duration, Fold, duration_row_for_heartbeat}
use stint.Services.Durations.Slices.{slice_name, slice_names}
use stint.Services.Durations.Merge.{total_seconds, merge_adjacent-Apart}
use stint.Services.Durations.Chain.{
  Chains, Chains-mono, insert-Chains, Chain-append, rows_of-Chain, grouped_seconds,
  grouped_seconds-insert, total_seconds-rows_of, next_time, last_time, last_time-next_time,
  next_time-Ascending, seconds_of-le, credited_total, duration_row-frame,
}

-- What `sort.Strings` and `sort.SliceStable` are documented to do, as far as sums depend on it.
pub record Permutes {F : Type 0} (sorts : Sorts F) : Type 0 where
  pub names : (ns : List Str) → Perm (sorts.names ns) ns
  pub rows : (rs : List (Duration F)) → Perm (sorts.rows rs) rs

module _ {F : Type 0} where
  -- The groups are chains that have ended at `bound`, and hold `total` seconds.
  pub record IsGrouping (bound total : ℕ) (g : Grouped F) : Type 0 where
    pub chains : Chains bound g
    pub keys : IsMap g
    pub holds : grouped_seconds g ≡ total

  -- Appending a row that begins where all groups have ended.
  add_row-IsGrouping :
      {b b' n : ℕ} {g : Grouped F} (name : Str) (r : Duration F) (start seconds : ℕ)
      → r.time ≡ start
      → r.duration_seconds ≡ seconds
      → IsGrouping b n g
      → b ≤ start
      → start + seconds * ticks_per_second ≤ b'
      → IsGrouping b' (n + seconds) (insert name (rows_of (lookup name g) ++ r ∷ []) g)
  unfolding end_of
  add_row-IsGrouping {b} {b'} {n} {g} name r start seconds es et v h k =
      let group = rows_of-Chain name g r.time (Chains-mono g b r.time (omega arith) v.chains) in
      let longer = Chain-append (rows_of (lookup name g)) r b' group (omega arith) in
      record {
        chains = insert-Chains name _ g b' longer (Chains-mono g b b' (omega arith) v.chains);
        keys = insert-IsMap name _ g v.keys;
        holds = omega (arith, grouped_seconds-insert name r g, v.holds);
      }

slice_names-one :
    (st : Strings) (sort_names : List Str → List Str) (h : Heartbeat) (slice_by : Str)
    → str_eq slice_by (codes "dependencies") ≡ false
    → slice_names st sort_names h slice_by
      ≡ (if is_empty (slice_name h slice_by) then [] else slice_name h slice_by ∷ [])
unfolding slice_names
slice_names-one st sort_names h slice_by e = rw e

module _ {F : Type 0} ⦃fl : Double F⦄ (st : Strings) (fold : Fold) (sorts : Sorts F) (timeout : ℕ)
    (slice_by : Str) (one_name : str_eq slice_by (codes "dependencies") ≡ false) where
  -- One turn of the loop.
  group_turn :
      {b n : ℕ} {g : Grouped F} (h : Heartbeat) (hs : List Heartbeat)
      → IsGrouping b n g
      → b ≤ h.time
      → h.time ≤ next_time h.time hs
      → let row : Str → Duration F =
          λ name. duration_row_for_heartbeat st fold name slice_by h (seconds_of timeout h hs) in
        IsGrouping
          (next_time h.time hs)
          (n + (if is_empty (slice_name h slice_by) then 0 else seconds_of timeout h hs))
          (add_rows (slice_names st sorts.names h slice_by) row g)
  unfolding add_rows
  group_turn {b} {n} {g} h hs v le next =
      let name = slice_name h slice_by in
      let seconds = seconds_of timeout h hs in
      let r : Duration F = duration_row_for_heartbeat st fold name slice_by h seconds in
      let (start, secs) = duration_row-frame F st fold name slice_by h seconds in
      elim (Bool-cases (is_empty name)) [
        | inl e ↦
            rw (slice_names-one st sorts.names h slice_by one_name, e)
              (record {
                chains = Chains-mono g b (next_time h.time hs) (omega arith) v.chains;
                keys = v.keys;
                holds = omega (arith, v.holds);
              })
        | inr e ↦
            rw (slice_names-one st sorts.names h slice_by one_name, e)
              (add_row-IsGrouping name r h.time seconds start secs v le
                (seconds_of-le timeout h hs next))
      ]

  group_loop-IsGrouping :
      (hs : List Heartbeat) {b n : ℕ} {g : Grouped F}
      → IsGrouping b n g
      → Ascending (λ h. h.time) b hs
      → IsGrouping
          (last_time b hs)
          (n + credited_total timeout slice_by hs)
          (group_loop st fold sorts timeout slice_by hs g)
  unfolding group_loop
  group_loop-IsGrouping [] {b} {n} {g} v a = record {
    chains = v.chains;
    keys = v.keys;
    holds = omega (arith, v.holds);
  }
  group_loop-IsGrouping (h ∷ hs) {b} {n} {g} v (le, a) =
      let (next, a') = next_time-Ascending h.time hs a in
      let v' = group_loop-IsGrouping hs (group_turn h hs v le next) a' in
      record {
        chains = rw (← last_time-next_time h.time hs) v'.chains;
        keys = v'.keys;
        holds = omega (arith, v'.holds);
      }

-- What the loop over the names makes of groups that are chains.
merge_names-total :
    {F : Type 0} ⦃fl : Double F⦄ (bound : ℕ) (g : Grouped F) (names : List Str)
    → Chains bound g
    → total_seconds (merge_names names g)
      ≡ sum_by (λ name. value_of total_seconds (lookup name g)) names
unfolding merge_names
merge_names-total bound g [] c = refl
merge_names-total bound g (name ∷ names) c =
    let rows = rows_of (lookup name g) in
    let (total, start, end, far) = merge_adjacent-Apart bound rows (rows_of-Chain name g bound c) in
    omega (
      arith,
      sum_by-append (λ d. d.duration_seconds) (merge_adjacent_durations_from_sorted rows)
          (merge_names names g),
      total,
      total_seconds-rows_of (lookup name g),
      merge_names-total bound g names c,
    )

-- The credited seconds fit between the first and the last heartbeat.
credited_total-le :
    (timeout : ℕ) (slice_by : Str) (hs : List Heartbeat) (b : ℕ)
    → Ascending (λ h. h.time) b hs
    → b + credited_total timeout slice_by hs * ticks_per_second ≤ last_time b hs
credited_total-le timeout slice_by [] b a = omega arith
credited_total-le timeout slice_by (h ∷ hs) b (le, a) =
    let (next, a') = next_time-Ascending h.time hs a in
    let rest = credited_total-le timeout slice_by hs (next_time h.time hs) a' in
    ground (arith, last_time-next_time h.time hs, seconds_of-le timeout h hs, rest)

module _ {F : Type 0} ⦃fl : Double F⦄ (st : Strings) (fold : Fold) (sorts : Sorts F) (timeout : ℕ)
    (slice_by : Str) (permutes : Permutes sorts) where
  -- Let the sorts permute their arguments, and let the slice not be by dependencies. For heartbeats in
  -- ascending order of time the durations hold, in total, exactly the seconds that the gaps within the
  -- timeout credit to the heartbeats that have a name in the slice: grouping, fusing and sorting lose
  -- and double none.
  pub compute_durations_from_sorted-total :
      (hs : List Heartbeat)
      → str_eq slice_by (codes "dependencies") ≡ false
      → Ascending (λ h. h.time) 0 hs
      → total_seconds (compute_durations_from_sorted st fold sorts hs timeout slice_by)
        ≡ credited_total timeout slice_by hs
  unfolding compute_durations_from_sorted
  compute_durations_from_sorted-total hs one_name a =
      let g = group_loop st fold sorts timeout slice_by hs [] in
      let empty : IsGrouping 0 0 [] = record { chains = tt; keys = tt; holds = refl } in
      let v = group_loop-IsGrouping st fold sorts timeout slice_by one_name hs empty a in
      let keys = map (λ p. p.0) g in
      let names = sorts.names keys in
      omega (
        arith,
        sum_by-perm (λ d. d.duration_seconds) (permutes.rows (merge_names names g)),
        merge_names-total (last_time 0 hs) g names v.chains,
        sum_by-perm (λ n. value_of total_seconds (lookup n g)) (permutes.names keys),
        sum_by-keys total_seconds g v.keys,
        v.holds,
      )

  -- Let the sorts permute their arguments, and let the slice not be by dependencies. For heartbeats in
  -- ascending order of time, the durations hold no more seconds in total than pass between the first
  -- heartbeat and the last.
  pub compute_durations_from_sorted-le :
      (h : Heartbeat) (hs : List Heartbeat)
      → str_eq slice_by (codes "dependencies") ≡ false
      → Ascending (λ h. h.time) h.time hs
      → let rows = compute_durations_from_sorted st fold sorts (h ∷ hs) timeout slice_by in
        h.time + total_seconds rows * ticks_per_second ≤ last_time h.time hs
  compute_durations_from_sorted-le h hs one_name a = omega (
    arith,
    compute_durations_from_sorted-total (h ∷ hs) one_name (omega arith, a),
    credited_total-le timeout slice_by (h ∷ hs) h.time (omega arith, a),
  )
