-- ===== src/Cli/Backoff.antt =====
-- internal/stintcli/backoff.go: the pause between requests while the server fails. A time is a number of
-- nanoseconds; the configuration file keeps the time of the last failure in RFC 3339, to the second, and
-- `none` is the zero time.
use stint.Prelude.{
  ℕ, ◌+◌, ◌*◌, ◌/◌, ◌^◌, ◌≤◌, ◌<◌, ◌≡◌, ◌↔◌, Bool, true, false, ◌&&◌, Option, none, some, ltb,
  if◌then◌else◌, arith,
}

abbrev pub backoff_factor_seconds : ℕ
backoff_factor_seconds = 15

abbrev pub backoff_max_seconds : ℕ
backoff_max_seconds = 3600

abbrev pub second : ℕ
second = 1_000_000_000

-- `BackoffRetries` and `BackoffAt`, the latter in seconds as it is stored.
pub record Backoff : Type 0 where
  pub retries : ℕ
  pub at : Option ℕ

-- What `parseBackoffAt` makes of the stored time: none that lies ahead of `now`.
unfoldable pub parse_backoff_at : ℕ → Option ℕ → Option ℕ
parse_backoff_at now none = none
parse_backoff_at now (some t) = some (if ltb now (t * second) then now else t * second)

abbrev pub backoff_seconds : ℕ → ℕ
backoff_seconds retries = backoff_factor_seconds * 2 ^ retries

unfoldable pub should_backoff_now : ℕ → Option ℕ → ℕ → Bool
should_backoff_now retries none now = false
should_backoff_now retries (some at) now =
    if ltb retries 1
    then false
    else (if ltb backoff_max_seconds (backoff_seconds retries)
        then false
        else ltb now (at + backoff_seconds retries * second))

-- A process that starts at `started` and asks at `now`.
unfoldable pub should_backoff : ℕ → ℕ → Backoff → Bool
unfolding parse_backoff_at should_backoff_now
should_backoff started now b = should_backoff_now b.retries (parse_backoff_at started b.at) now

unfoldable pub record_backoff_failure : ℕ → Backoff → Backoff
record_backoff_failure now b = record { retries = b.retries + 1; at = some (now / second) }

is_zero_time : Option ℕ → Bool
is_zero_time none = true
is_zero_time (some t) = false

unfoldable pub reset_backoff : Backoff → Backoff
unfolding is_zero_time
reset_backoff b =
    if ltb b.retries 1 && is_zero_time b.at then b else record { retries = 0; at = none }

-- After a failure at `failed`, a process that starts later backs off exactly while the doubled pause is at
-- most an hour and has not gone by since the second of the failure; after a reset none backs off.
pub should_backoff_lem :
    (failed started now : ℕ) (b : Backoff)
    → failed ≤ started
    → ((should_backoff started now (record_backoff_failure failed b) ≡ true) ↔ (
        (backoff_seconds (b.retries + 1) ≤ backoff_max_seconds)
        × (now < (failed / second) * second + backoff_seconds (b.retries + 1) * second)))
      × (should_backoff started now (reset_backoff b) ≡ false)
unfolding should_backoff should_backoff_now parse_backoff_at record_backoff_failure reset_backoff
should_backoff_lem failed started now b h = (ground arith, ground arith)
