-- ===== src/Examples/Cli.antt =====
-- Examples of internal/stintcli: a queue with a near-duplicate, and an answer of two responses.
use stint.Prelude.{
  ◌<◌, ◌↔◌, ◌/◌, false, sum_by, length, ℕ, ◌+◌, ◌*◌, ◌≡◌, ◌≤◌, refl, true, Option, none, some, List,
  [], ◌∷◌, arith,
}
use stint.Prelude.Text.{Str, codes, str_eq}
use stint.Prelude.Dict.{lookup, insert}
use stint.Cli.Heartbeat.{Heartbeat, Formats, id_of, ticks_per_second}
use stint.Cli.Queue.{delete_duplicates, is_duplicate, add}
use stint.Cli.Queue.Keep.{keep_pass, delete_duplicates-keep_pass}
use stint.Cli.Backoff.{
  Backoff, backoff_max_seconds, backoff_seconds, second, should_backoff, record_backoff_failure,
  reset_backoff, should_backoff_lem,
}
use stint.Cli.Sync.{Turn, Synced, bounded, sync_offline_queue}
use stint.Cli.Sync.File.{written}
use stint.Cli.Sync.Conserved.{IsWhole, posted, returned, sync_offline_queue-Conserved}
use stint.Cli.Sync.Legacy.{sync_offline, sync_offline-loses}
use stint.Cli.Sync.Complete.{IsHealthy, posted_count, sync_offline_queue_lem}
use stint.Prelude.Int.{ℤ, ℤ.pos}
use stint.Cli.Requeue.{Json, offline_requeue_from_bulk_response}
use stint.Cli.Requeue.NoLoss.{copies, settled, copies-requeue}
use stint.Cli.Requeue.Status.{IsNested}

abbrev beat : ℕ → Heartbeat
beat n = record {
  entity = codes "main.go";
  entity_type = codes "file";
  time = n * ticks_per_second;
  branch = [];
  category = [];
  cursor_position = none;
  is_write = true;
  project = codes "stint";
  payload = [];
}

abbrev queue : List Heartbeat
queue = beat 1 ∷ beat 2 ∷ beat 9 ∷ []

delete_duplicates-keep_pass_example : delete_duplicates queue ≡ keep_pass [] queue
delete_duplicates-keep_pass_example = delete_duplicates-keep_pass queue

abbrev formats : Formats
formats = record { sprint = λ n. n ∷ []; fixed = λ n. n ∷ [] }

-- A format in which a row is a mark before its only value, and a body the list of its responses, one
-- to a letter.
abbrev letters : Str → List Str
letters [] = []
letters (c ∷ s) = (c ∷ []) ∷ letters s

abbrev inner : Str → Option (List Str)
inner [] = none
inner (b ∷ s) = some (s ∷ [])

abbrev codes_of : Str → Option (ℤ × ℤ)
codes_of [] = some (pos 201, pos 0)
codes_of (_ ∷ _) = none

abbrev json : Json
json = record {
  responses = λ s. some (some (letters s));
  row = inner;
  number = λ s. none;
  wrapper = λ s. none;
  statuses = codes_of;
}

copies-requeue_example :
    (requeue : List Heartbeat) × (offline_requeue_from_bulk_response formats json (codes "[[") queue
      ≡ some requeue)
    × (copies formats (id_of formats (beat 9)) queue
        ≤ copies formats (id_of formats (beat 9)) requeue
          + settled formats (id_of formats (beat 9)) json queue 0 (letters (codes "[[")))
copies-requeue_example =
    copies-requeue formats json (id_of formats (beat 9)) (codes "[[") queue (letters (codes "[["))
      refl

json-IsNested : IsNested json
json-IsNested [] r rs e = absurd (cc)
json-IsNested (c ∷ s) r rs e = ground arith

-- A server that sends the first heartbeat of every batch back.
abbrev heads : List Heartbeat → List Heartbeat
heads [] = []
heads (hb ∷ _) = hb ∷ []

abbrev turns : ℕ → Turn
turns n = record {
  read_ok = true;
  remove = written;
  append = written;
  post = λ batch. some (heads batch);
}

abbrev synced : Synced
synced = sync_offline_queue written true 2 turns queue

turns-IsWhole : (n : ℕ) → IsWhole (turns n)
turns-IsWhole n = record { append_lem = refl; remove_lem = refl }

sync_offline_queue-Conserved_example :
    sum_by (λ hb. hb.time) synced.queue + posted (λ hb. hb.time) synced.posts
    ≡ sum_by (λ hb. hb.time) (delete_duplicates queue) + returned (λ hb. hb.time) synced.posts
sync_offline_queue-Conserved_example =
    sync_offline_queue-Conserved (λ hb. hb.time) true 2 turns queue turns-IsWhole

turns-IsHealthy : (n : ℕ) → IsHealthy (turns n)
turns-IsHealthy n = record {
  read_lem = refl;
  remove_lem = refl;
  append_lem = refl;
  post_lem = λ batch e. cc;
}

sync_offline_queue_lem_example :
    (synced.ok ≡ true)
    × (synced.total_synced ≡ bounded 2 (length (delete_duplicates queue)))
    × (posted_count synced.posts ≡ bounded 2 (length (delete_duplicates queue)))
sync_offline_queue_lem_example = sync_offline_queue_lem 2 turns queue turns-IsHealthy

sync_offline-loses_example :
    let left = (sync_offline_queue written true 1 turns (beat 1 ∷ beat 90 ∷ [])).queue in
    let result = sync_offline 1 true turns turns (some (beat 1 ∷ beat 90 ∷ [])) queue in
    (result.legacy ≡ none)
    × (result.queue ≡ (sync_offline 1 true turns turns none queue).queue)
    × (length (delete_duplicates (beat 1 ∷ beat 90 ∷ [])) ≤ length left + 1)
    × (0 < length left)
unfolding delete_duplicates is_duplicate lookup add insert str_eq
sync_offline-loses_example =
    sync_offline-loses 1 turns turns (beat 1 ∷ beat 90 ∷ []) queue turns-IsHealthy (omega arith)
      (omega arith)

-- A client after two failures.
abbrev failing : Backoff
failing = record { retries = 2; at = some 100 }

should_backoff_lem_example :
    ((should_backoff 500 600 (record_backoff_failure 400 failing) ≡ true) ↔ (
      (backoff_seconds 3 ≤ backoff_max_seconds)
      × (600 < (400 / second) * second + backoff_seconds 3 * second)))
    × (should_backoff 500 600 (reset_backoff failing) ≡ false)
should_backoff_lem_example = should_backoff_lem 400 500 600 failing (omega arith)
