-- ===== src/Cli/Queue.antt =====
-- internal/stintcli/offline.go: `queueDeduper` and the pass that removes near-duplicates. The buckets
-- -1 and below, which no time falls into, are left out of the neighbours of bucket 0.
pub mod Dedupe
pub mod Keep
use stint.Prelude.{
  ℕ, zero, suc, ◌+◌, ◌-◌, ◌*◌, ◌/◌, ◌≡◌, Bool, true, false, ◌||◌, Option, none, some, List, [], ◌∷◌,
  ◌++◌, leb, if◌then◌else◌,
}
use stint.Prelude.Text.{Str}
use stint.Prelude.Dict.{Dict, text_eq, nat_eq, lookup, insert}
use stint.Cli.Heartbeat.{Heartbeat, ticks_per_second}

-- `offlineDedupeWindowSeconds`, in ticks; `newQueueDeduper` leaves a positive window as it is.
abbrev pub window : ℕ
window = 1 * ticks_per_second

-- `map[int64][]float64` of an entity, and `buckets`.
abbrev pub Buckets : Type 0
Buckets = Dict ℕ (List ℕ)

abbrev pub Deduper : Type 0
Deduper = Dict Str Buckets

-- A nil map or slice is read as an empty one.
abbrev pub or_empty {ℓ} : {A : Type ℓ} → Option (List A) → List A
or_empty none = []
or_empty (some xs) = xs

unfoldable pub bucket : ℕ → ℕ
bucket t = t / window

-- `Add`
unfoldable pub add : Deduper → Heartbeat → Deduper
unfolding bucket
add d hb =
    let entity_buckets = or_empty (lookup hb.entity d) in
    let b = bucket hb.time in
    insert hb.entity (insert b (or_empty (lookup b entity_buckets) ++ hb.time ∷ []) entity_buckets)
      d

abbrev pub distance : ℕ → ℕ → ℕ
distance a b = (a - b) + (b - a)

-- `for _, keptTime := range entityBuckets[neighbor] { … }`
unfoldable pub any_near : ℕ → List ℕ → Bool
any_near t [] = false
any_near t (kept ∷ ks) = leb (distance t kept) window || any_near t ks

neighbors : ℕ → List ℕ
neighbors zero = 0 ∷ 1 ∷ []
neighbors (suc b) = b ∷ suc b ∷ suc (suc b) ∷ []

pub any_neighbor : ℕ → Buckets → List ℕ → Bool
any_neighbor t bs [] = false
any_neighbor t bs (n ∷ ns) = any_near t (or_empty (lookup n bs)) || any_neighbor t bs ns

-- `Duplicate`; an entity without buckets has no duplicates, which `any_neighbor` finds as well.
unfoldable pub is_duplicate : Deduper → Heartbeat → Bool
unfolding bucket any_near neighbors any_neighbor
is_duplicate d hb =
    any_neighbor hb.time (or_empty (lookup hb.entity d)) (neighbors (bucket hb.time))

-- The loop of `deleteJSONLQueueDuplicates` and of `DeleteQueueDuplicates`: what is kept, in order.
unfoldable pub keep_loop : Deduper → List Heartbeat → List Heartbeat
keep_loop d [] = []
keep_loop d (hb ∷ hbs) = elim (is_duplicate d hb) [
  | true ↦ keep_loop d hbs
  | false ↦ hb ∷ keep_loop (add d hb) hbs
]

unfoldable pub delete_duplicates : List Heartbeat → List Heartbeat
unfolding keep_loop
delete_duplicates hbs = keep_loop [] hbs
