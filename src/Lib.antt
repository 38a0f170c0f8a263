-- ===== src/Lib.antt =====
-- Stint records what a developer and their AI agents do: a collector reads the agents' log files into
-- usage events, a pricing engine turns events into dollars, the statistics group them into billing
-- blocks, and a command-line client queues heartbeats while it is offline. A server completes the
-- heartbeats that come in, applies the user's rules to them, and computes durations, statistics and
-- goals from them, behind a rate limiter and with small caches. The modules below are about the code of
-- internal/.
--
-- The parts and their files:
--   Collector.Watermark, Collector.Persist   internal/collector/state.go
--     `State` is the record of the same name; each accessor and commit is the function of its name;
--     `LoadState` and `Save` are `load_state` and `save`, over files as an association list.
--   Collector.Jsonl                          internal/collector/scan_jsonl.go
--     `scan_jsonl_incremental` takes the state, `report.Errors` and the results of the reads, and
--     returns the new state, the errors and the calls of `perLine`. It resumes at the watermark
--     that Collector.Watermark keeps, and commits a new one.
--   Usage, Usage.Id, Usage.Dedup             internal/usage/event.go
--     `Event`, `ComputeEventID`, `EnsureID`, `Dedup` with its index from ids to positions.
--   Pricing.Normalize, .Engine, .Cost, .Fetch, .Bundled   internal/pricing/pricing.go
--     `Normalize`; the engine with its tables behind a shared pointer, an address in a heap;
--     `Calculate` and `Price`; the retries of `fetch`.
--   UsageStats.Blocks                        internal/usagestats/blocks.go
--     `buildUsageBlocks`: one step of the loop is `step`, the marking loop is `mark`. It prices
--     events by Pricing.Cost.
--   UsageStats.Groups, UsageStats.Summary    internal/usagestats/summary.go
--     `SummarizeAggregates` over groups that are summed already; one step of its loop is `add_group`.
--   Auth                                     internal/auth/apikey.go
--     where a key is read from, `HashAPIKey` and `VerifyAPIKey`.
--   Auth.Session                             internal/auth/jwt.go
--     `GenerateSessionJWT` and `VerifySessionJWT`.
--   Cli.Heartbeat, Cli.Queue, Cli.Requeue    internal/stintcli/{heartbeat,offline,offline_sync}.go
--     `Heartbeat.ID`, the removal of near-duplicates from the queue, and what goes back to the queue
--     after the server's answer.
--   Cli.Sync, Cli.Sync.File, Cli.Sync.Legacy internal/stintcli/{commands_offline,offline}.go
--     `syncOfflineQueue`: one turn of its loop for each batch, with the failures as an environment;
--     the writes to a queue of JSON lines, which a failure can leave half done;
--     `syncOffline`, which runs it on the legacy queue and on the queue.
--   Cli.Backoff                              internal/stintcli/backoff.go
--     the pause after failing requests.
--   Services.Heartbeat, Services.Prepare     internal/services/{types,heartbeat}.go
--     `Heartbeat` as the services see it; `PrepareHeartbeat`, which completes it, with the detection of
--     project, branch and language, and `ValidateHeartbeatAt`.
--   Services.Rules                           internal/services/custom_rules.go
--     the user's rules: `ValidateCustomRules`, `PrepareCustomRules` and `ApplyPreparedCustomRules`.
--     Rules.Fields has the fields that a rule reads and writes.
--   Services.Durations                       internal/services/durations.go
--     `ComputeDurations`: the seconds between heartbeats, credited to the names of a slice; rows that
--     touch are fused. Everything below is computed from these rows.
--   Services.Totals, .Hourly, .External      internal/services/{stats,external}.go
--     totals by name, the 24 hours of a day, and the durations that other services report.
--   Services.Stats, Services.Reports         internal/services/{stats,external,leaderboards}.go
--     the statistics of a range of days with its window, the status bar, weekdays, the running average
--     and the ranking of a leaderboard.
--   Services.Goals                           internal/services/goals.go
--     the heartbeats that count for a goal, and its progress in one window.
--   RateLimit                                internal/api/middleware/ratelimit.go
--     `MemoryRateLimiter`; `allow` takes the limiter and the present time.
--   Cache                                    internal/cache/{status,leaderboard}.go
--     both memory caches, as one model at two entry types and capacities.
--   Prelude, Examples                        shared lemmas; small inputs for the theorems
--
-- Parameters: JSON decoding and encoding, base64, SHA-256, HMAC, `fmt`, `strings.ToLower` and
-- `TrimSpace`, `strings.EqualFold`, `regexp.Compile`, `time.Parse`, the calendar, `sort.Slice`,
-- `path/filepath`, `bufio.Reader`, the HTTP client and the file system's failures are functions or
-- records of functions, with the documented behaviour that a theorem needs as a named hypothesis. A
-- `float64` is an element of a type with the operations of `Double`; no law of it is assumed but
-- where a theorem names `HasZero`. `time.Now()` is an argument.
--
-- Numbers: token counts, sizes and offsets are naturals without a bound, as they stay far below 2^63;
-- times are naturals of nanoseconds since Go's zero time (the block and rate-limiter code) or since
-- the Unix epoch (the sessions), or of 2^-22 seconds (heartbeats, whose doubles between 2^30 and 2^31
-- are whole such ticks); seconds of durations and of windows are naturals too. An `int` that the code
-- takes of either sign is an element of `ℤ`, but the priority of a rule, which is only compared, is a
-- natural, 2^63 above it. The iteration order of a Go map is the order of an association list, and
-- the theorems hold for every order.
--
-- Fuel: `strip_loop` runs on the length of the text, which every changing pass shortens;
-- `status_within` runs on the length of the raw value, as a value in a row is shorter than the row;
-- `attempts` counts down the three attempts of the source; `sync_loop` runs on the heartbeats that
-- remain to be sent, of which each turn takes at least one; `hour_loop` runs on the hours of a
-- duration and two more, as each part but the first and the last is a full hour; `parent_loop` counts
-- down the 500 turns of the source. Everything else recurs on its data.
--
-- Not modelled: the SQL store and the generated models, the HTTP handlers, the per-agent adapters of
-- the collector, the Redis caches, the workers and importers, the projections of the current block,
-- the queue of the client in a bbolt file; of the services, the AI metrics and costs, the all-time
-- statistics, the commit summaries, the choice of a goal's window, which needs the calendar, and the
-- decoding of heartbeats. Locks are left out: each modelled operation is taken to be atomic.
pub mod Prelude
pub mod Collector
pub mod Usage
pub mod Pricing
pub mod UsageStats
pub mod Services
pub mod Cli
pub mod Cache
pub mod RateLimit
pub mod Auth
pub mod Examples
