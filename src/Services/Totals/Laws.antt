-- ===== src/Services/Totals/Laws.antt =====
-- What the totals by name add up to.
use stint.Prelude.{ℕ, ◌+◌, ◌≡◌, refl, Option, none, some, List, [], ◌∷◌, map, arith, sum_by}
use mathlib.Core.List.{Perm}
use stint.Prelude.Text.{Str}
use stint.Prelude.Dict.{Dict, text_eq, lookup}
use stint.Prelude.Sums.{value_of, sum_by-insert}
use stint.Prelude.Sort.{sum_by-perm}
use stint.Services.Durations.Rows.{Duration}
use stint.Services.Totals.{
  SliceTotal, or_zero, add_seconds, sum_durations, total_loop, total_row, slice_totals_from_map,
  totals_by_name,
}

abbrev pub sum_of : Dict Str ℕ → ℕ
sum_of = sum_by (λ p. p.1)

or_zero-value_of : (o : Option ℕ) → or_zero o ≡ value_of (λ n. n) o
unfolding or_zero
or_zero-value_of none = refl
or_zero-value_of (some n) = refl

-- `totals[name] += seconds` adds the seconds to the sum, whether the name is there or not.
pub sum_of-add_seconds :
    (name : Str) (seconds : ℕ) (totals : Dict Str ℕ)
    → sum_of (add_seconds name seconds totals) ≡ sum_of totals + seconds
unfolding add_seconds
sum_of-add_seconds name seconds totals = omega (
  arith,
  sum_by-insert (λ n. n) name (or_zero (lookup name totals) + seconds) totals,
  or_zero-value_of (lookup name totals),
)

total_loop-sum :
    {F : Type 0} (ds : List (Duration F)) (totals : Dict Str ℕ)
    → sum_of (total_loop ds totals) ≡ sum_of totals + sum_durations ds
unfolding total_loop sum_durations
total_loop-sum [] totals = omega arith
total_loop-sum (d ∷ ds) totals = omega (
  arith,
  total_loop-sum ds (add_seconds d.name d.duration_seconds totals),
  sum_of-add_seconds d.name d.duration_seconds totals,
)

sum_of-rows :
    (sprint : ℕ → Str) (totals : Dict Str ℕ)
    → sum_by (λ r. r.total_seconds) (map (total_row sprint) totals) ≡ sum_of totals
unfolding total_row
sum_of-rows sprint [] = refl
sum_of-rows sprint ((name, n) ∷ totals) = omega (arith, sum_of-rows sprint totals)

-- Let `sort` permute its argument. The totals by name add up to the sum of the durations, however the
-- names are spread over them.
pub totals_by_name-sum :
    {F : Type 0} (sprint : ℕ → Str) (sort : List SliceTotal → List SliceTotal)
    (ds : List (Duration F))
    → ((rows : List SliceTotal) → Perm (sort rows) rows)
    → sum_by (λ r. r.total_seconds) (totals_by_name sprint sort ds) ≡ sum_durations ds
unfolding totals_by_name slice_totals_from_map
totals_by_name-sum sprint sort ds permutes =
    let totals = total_loop ds [] in
    omega (
      arith,
      sum_by-perm (λ r. r.total_seconds) (permutes (map (total_row sprint) totals)),
      sum_of-rows sprint totals,
      total_loop-sum ds [],
    )
