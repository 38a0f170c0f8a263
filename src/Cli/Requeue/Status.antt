-- ===== src/Cli/Requeue/Status.antt =====
-- The search for a status through rows within rows.
use stint.Prelude.{
  ℕ, zero, suc, ◌<◌, ◌≡◌, refl, none, some, List, [], ◌∷◌, arith, length, Option-cases, inl, inr,
}
use stint.Prelude.Text.{Str}
use stint.Cli.Requeue.{Json, pick_status, second_number, status_within, response_status}

-- A value that stands first in a row is shorter than the row's text.
abbrev pub IsNested : Json → Type 0
IsNested j = (raw r : Str) (rs : List Str) → j.row raw ≡ some (r ∷ rs) → length r < length raw

status_within-more :
    (j : Json)
    → IsNested j
    → (n m : ℕ) (raw : Str) → length raw < n
    → length raw < m
    → status_within j n raw ≡ status_within j m raw
unfolding status_within
status_within-more j nested zero m raw h k = absurd (omega arith)
status_within-more j nested (suc n) zero raw h k = absurd (omega arith)
status_within-more j nested (suc n) (suc m) raw h k = elim (Option-cases (j.row raw)) [
  | inl e ↦ rw (status_within, e) refl
  | inr ([], e) ↦ rw (status_within, e) refl
  | inr (r ∷ rs, e) ↦
      let shorter = nested raw r rs e in
      elim (Option-cases (second_number j (r ∷ rs))) [
        | inl d ↦
            rw (status_within, e, d) (status_within-more j nested n m r (omega arith) (omega arith))
        | inr (s, d) ↦ rw (status_within, e, d) refl
      ]
]

-- Where a value that stands first in a row is shorter than the row, the status of a row is the number at
-- its index 1, or else the status of its first value; that of anything else is what its object says.
pub response_status_lem :
    (j : Json) (raw : Str)
    → IsNested j
    → response_status j raw ≡ (elim (j.row raw) [
      | none ↦ pick_status (j.statuses raw)
      | some [] ↦ pick_status (j.statuses raw)
      | some (r ∷ rs) ↦ elim (second_number j (r ∷ rs)) [
        | some s ↦ some s
        | none ↦ response_status j r
      ]
    ])
unfolding response_status status_within
response_status_lem j raw nested = elim (Option-cases (j.row raw)) [
  | inl e ↦ rw (response_status, status_within, e) refl
  | inr ([], e) ↦ rw (response_status, status_within, e) refl
  | inr (r ∷ rs, e) ↦
      let shorter = nested raw r rs e in
      let more =
        status_within-more j nested (length raw) (suc (length r)) r (omega arith) (omega arith) in
      elim (Option-cases (second_number j (r ∷ rs))) [
        | inl d ↦ rw (response_status, status_within, e, d) more
        | inr (s, d) ↦ rw (response_status, status_within, e, d) refl
      ]
]
