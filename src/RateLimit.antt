-- ===== src/RateLimit.antt =====
-- internal/api/middleware/ratelimit.go: the sliding-window rate limiter of the API. A time is a number of
-- nanoseconds since Go's zero time, the year 1, which no window in use reaches behind; the `time.Now()`
-- of a call is its argument `now`, and a limit of 0 stands for the limits of 0 and below.
pub mod Calls
pub mod Room
use stint.Prelude.{
  ℕ, ◌+◌, ◌-◌, ◌*◌, Bool, true, false, ◌||◌, Option, none, some, List, [], ◌∷◌, ◌++◌, ltb, leb,
  ◌==◌, if◌then◌else◌, length,
}
use stint.Prelude.Text.{Str, str_eq}
use stint.Prelude.Dict.{Dict, text_eq, lookup, insert, delete}

abbrev pub second : ℕ
second = 1000 * 1000 * 1000

abbrev pub memory_rate_limit_sweep_interval : ℕ
memory_rate_limit_sweep_interval = 60 * second

abbrev pub max_memory_rate_limiter_keys : ℕ
max_memory_rate_limiter_keys = 8192

-- `MemoryRateLimiter`
pub record Limiter : Type 0 where
  pub entries : Dict Str (List ℕ)
  pub last_sweep : ℕ

unfoldable pub new_limiter : Limiter
new_limiter = record { entries = []; last_sweep = 0 }

-- A key without an entry has no values.
abbrev pub stamps : Option (List ℕ) → List ℕ
stamps none = []
stamps (some ts) = ts

-- `for _, value := range values { if value.After(cutoff) { … } }`
unfoldable pub active_after : ℕ → List ℕ → List ℕ
active_after cutoff [] = []
active_after cutoff (t ∷ ts) =
    let rest = active_after cutoff ts in if ltb cutoff t then t ∷ rest else rest

-- The loop of `sweepExpired`
unfoldable pub sweep_entries : ℕ → Dict Str (List ℕ) → Dict Str (List ℕ)
sweep_entries cutoff [] = []
sweep_entries cutoff ((k, ts) ∷ m) =
    let active = active_after cutoff ts in
    let rest = sweep_entries cutoff m in if length active == 0 then rest else (k, active) ∷ rest

unfoldable pub sweep_expired : ℕ → ℕ → Limiter → Limiter
sweep_expired cutoff now l = record { entries = sweep_entries cutoff l.entries; last_sweep = now }

pub last_of : List ℕ → Option ℕ
last_of [] = none
last_of (t ∷ []) = some t
last_of (_ ∷ t ∷ ts) = last_of (t ∷ ts)

-- The loop of `evictOldestEntry`, from an `oldestKey` and an `oldestSeen`: the key to delete.
unfoldable pub oldest_entry : Str → ℕ → Dict Str (List ℕ) → Option Str
unfolding last_of
oldest_entry found oldest [] = if str_eq found [] then none else some found
oldest_entry found oldest ((k, ts) ∷ m) = elim (last_of ts) [
  | none ↦ some k
  | some seen ↦ elim (str_eq found [] || ltb seen oldest) [
    | true ↦ oldest_entry k seen m
    | false ↦ oldest_entry found oldest m
  ]
]

unfoldable pub evict_oldest_entry : Dict Str (List ℕ) → Dict Str (List ℕ)
unfolding oldest_entry
evict_oldest_entry m = elim (oldest_entry [] 0 m) [ none ↦ m | some k ↦ delete k m ]

-- A call is let through, or may be tried again after a time.
pub data Verdict : Type 0 where
  allowed : Verdict
  denied : ℕ → Verdict

-- `active[0]`
unfoldable pub retry_after : ℕ → ℕ → List ℕ → ℕ
retry_after window now [] = second
retry_after window now (first ∷ _) =
    let wait = (window + first) - now in if ltb wait second then second else wait

unfoldable pub swept : ℕ → ℕ → Limiter → Limiter
unfolding sweep_expired
swept cutoff now l =
    if leb memory_rate_limit_sweep_interval (now - l.last_sweep)
    then sweep_expired cutoff now l
    else l

-- `values, exists := l.entries[key]` and the eviction that a new key may need.
unfoldable pub with_room : Option (List ℕ) → Dict Str (List ℕ) → Dict Str (List ℕ)
unfolding evict_oldest_entry
with_room (some _) m = m
with_room none m = if leb max_memory_rate_limiter_keys (length m) then evict_oldest_entry m else m

unfoldable pub decide : Str → ℕ → ℕ → ℕ → Limiter → Verdict × Limiter
unfolding active_after with_room retry_after
decide key limit window now l =
    let values = lookup key l.entries in
    let m = with_room values l.entries in
    let active = active_after (now - window) (stamps values) in
    if leb limit (length active)
    then (
      denied (retry_after window now active),
      record { entries = insert key active m; last_sweep = l.last_sweep },
    )
    else (
      allowed,
      record { entries = insert key (active ++ now ∷ []) m; last_sweep = l.last_sweep },
    )

-- `Allow`
unfoldable pub allow : Str → ℕ → ℕ → ℕ → Limiter → Verdict × Limiter
unfolding swept decide
allow key limit window now l =
    if limit == 0 then (allowed, l) else decide key limit window now (swept (now - window) now l)
