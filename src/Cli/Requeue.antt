-- ===== src/Cli/Requeue.antt =====
-- internal/stintcli/offline_sync.go: which heartbeats of a batch go back to the queue, by the server's
-- answer to the batch.
pub mod NoLoss
pub mod Status
use stint.Prelude.{
  ℕ, zero, suc, ◌+◌, ◌-◌, Bool, true, false, not, ◌||◌, Option, none, some, List, [], ◌∷◌, ltb,
  ◌==◌, if◌then◌else◌, length, get_elem?,
}
use stint.Prelude.Text.{Str, str_eq}
use stint.Prelude.Int.{ℤ, ℤ.pos, ℤ.negsuc}
use stint.Prelude.Dict.{Dict, text_eq, lookup, insert}
use stint.Cli.Heartbeat.{Heartbeat, Formats, id_of}

-- `json.Unmarshal` into the types that the file reads: `none` where it fails. A nil slice of responses
-- is `some none`.
pub record Json : Type 0 where
  pub responses : Str → Option (Option (List Str))
  pub row : Str → Option (List Str)
  pub number : Str → Option ℤ
  pub wrapper : Str → Option (Heartbeat × Heartbeat)
  pub statuses : Str → Option (ℤ × ℤ)

-- `wrapper.Heartbeat.Entity != "" || wrapper.Heartbeat.Time != 0`
is_given : Heartbeat → Bool
is_given hb = not (str_eq hb.entity []) || not (hb.time == 0)

-- The wrapper's `data` and `heartbeat`.
pick_given : Option (Heartbeat × Heartbeat) → Option Heartbeat
unfolding is_given
pick_given none = none
pick_given (some (data_hb, hb)) =
    if is_given hb then some hb else (if is_given data_hb then some data_hb else none)

unfoldable pub heartbeat_from_response_object : Json → Str → Option Heartbeat
unfolding pick_given
heartbeat_from_response_object j raw = pick_given (j.wrapper raw)

first_object : Json → Option (List Str) → Option Heartbeat
first_object j none = none
first_object j (some []) = none
first_object j (some (r ∷ _)) = heartbeat_from_response_object j r

or_else : Option Heartbeat → Option Heartbeat → Option Heartbeat
or_else (some hb) _ = some hb
or_else none o = o

unfoldable pub response_heartbeat : Json → Str → List Heartbeat → ℕ → Option Heartbeat
unfolding first_object or_else
response_heartbeat j raw hbs i =
    or_else (first_object j (j.row raw))
      (or_else (heartbeat_from_response_object j raw) (get_elem? hbs i))

unfoldable pub is_zero : ℤ → Bool
is_zero (pos n) = n == 0
is_zero (negsuc _) = false

-- `Status` where it is not 0, else `StatusCode` where that is not.
unfoldable pub pick_status : Option (ℤ × ℤ) → Option ℤ
unfolding is_zero
pick_status none = none
pick_status (some (status, status_code)) =
    if is_zero status then (if is_zero status_code then none else some status_code) else some status

-- The number at index 1 of a row.
unfoldable pub second_number : Json → List Str → Option ℤ
second_number j (_ ∷ r ∷ _) = j.number r
second_number j rs = none

-- `responseStatus`: its fuel is spent on the rows within rows.
unfoldable pub status_within : Json → ℕ → Str → Option ℤ
unfolding pick_status second_number
status_within j zero raw = none
status_within j (suc n) raw = elim (j.row raw) [
  | none ↦ pick_status (j.statuses raw)
  | some [] ↦ pick_status (j.statuses raw)
  | some (r ∷ rs) ↦ elim (second_number j (r ∷ rs)) [ some s ↦ some s | none ↦ status_within j n r ]
]

-- A value within a row is shorter than the row.
unfoldable pub response_status : Json → Str → Option ℤ
unfolding status_within
response_status j raw = status_within j (suc (length raw)) raw

-- A status of 400 or from 200 to 299 settles a heartbeat.
unfoldable pub settles : Option ℤ → Bool
settles none = false
settles (some (negsuc _)) = false
settles (some (pos n)) = if n == 400 then true else not (ltb n 200 || ltb 299 n)

abbrev pub count_of : Option ℕ → ℕ
count_of none = 0
count_of (some n) = n

-- `missingResponseHeartbeats`
unfoldable pub missing_response_heartbeats : Formats → Dict Str ℕ → List Heartbeat → List Heartbeat
missing_response_heartbeats f handled [] = []
missing_response_heartbeats f handled (hb ∷ hbs) = elim (count_of (lookup (id_of f hb) handled)) [
  | suc n ↦ missing_response_heartbeats f (insert (id_of f hb) n handled) hbs
  | zero ↦ hb ∷ missing_response_heartbeats f handled hbs
]

-- The loop over the responses, from the index `i`.
unfoldable pub requeue_loop :
    Formats → Json → List Heartbeat → ℕ → Dict Str ℕ → List Str → List Heartbeat
unfolding missing_response_heartbeats
requeue_loop f j hbs i handled [] = missing_response_heartbeats f handled hbs
requeue_loop f j hbs i handled (raw ∷ raws) = elim (response_heartbeat j raw hbs i) [
  | none ↦ missing_response_heartbeats f handled hbs
  | some hb ↦
      let id = id_of f hb in
      let rest =
        requeue_loop f j hbs (suc i) (insert id (count_of (lookup id handled) + 1) handled) raws in
      if settles (response_status j raw) then rest else hb ∷ rest
]

-- `offlineRequeueFromBulkResponse`: `none` is its error.
unfoldable pub offline_requeue_from_bulk_response :
    Formats → Json → Str → List Heartbeat → Option (List Heartbeat)
unfolding requeue_loop
offline_requeue_from_bulk_response f j body hbs = elim (j.responses body) [
  | none ↦ none
  | some none ↦ some []
  | some (some raws) ↦ some (requeue_loop f j hbs 0 [] raws)
]
