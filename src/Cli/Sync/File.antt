-- ===== src/Cli/Sync/File.antt =====
-- internal/stintcli/offline.go: the writes to a queue in a file of JSON lines (`appendJSONLQueue`,
-- `rewriteJSONLQueue`, `removeJSONLQueuePrefix`, `deleteJSONLQueueDuplicates`). A rewrite truncates the
-- file before it writes, so that what a failing write leaves is part of the outcome.
use stint.Prelude.{ℕ, Bool, true, false, List, [], ◌++◌, ◌==◌, if◌then◌else◌, take, drop, length}
use stint.Cli.Heartbeat.{Heartbeat}
use stint.Cli.Queue.{delete_duplicates}

-- How a call that writes heartbeats ends: with all of them written; with an error before the file is
-- opened for writing; or with an error after the first `n` of them were written.
pub data Write : Type 0 where
  written : Write
  unopened : Write
  torn : ℕ → Write

unfoldable pub is_written : Write → Bool
is_written written = true
is_written unopened = false
is_written (torn n) = false

-- `appendJSONLQueue`
unfoldable pub appended : Write → List Heartbeat → List Heartbeat → List Heartbeat
appended written q hbs = q ++ hbs
appended unopened q hbs = q
appended (torn n) q hbs = q ++ take n hbs

-- `rewriteJSONLQueue`, from the queue `q` to `hbs`
unfoldable pub rewritten : Write → List Heartbeat → List Heartbeat → List Heartbeat
rewritten written q hbs = hbs
rewritten unopened q hbs = q
rewritten (torn n) q hbs = take n hbs

-- `os.Remove`, which leaves the file if it fails
unfoldable pub removed_file : Write → List Heartbeat → List Heartbeat
removed_file written q = []
removed_file unopened q = q
removed_file (torn n) q = q

-- `removeJSONLQueuePrefix`, of `n` heartbeats: the file is removed if none is left.
unfoldable pub removed_prefix : Write → ℕ → List Heartbeat → List Heartbeat
unfolding removed_file rewritten
removed_prefix w n q =
    let rest = drop n q in if length rest == 0 then removed_file w q else rewritten w q rest

-- `deleteJSONLQueueDuplicates`: the queue behind it, and whether there was no error. Where there are no
-- duplicates the file is not rewritten, so that no rewrite can fail; an error is then one of reading.
unfoldable pub delete_queue_duplicates : Write → List Heartbeat → List Heartbeat × Bool
unfolding rewritten
delete_queue_duplicates written q = (rewritten written q (delete_duplicates q), true)
delete_queue_duplicates unopened q = (rewritten unopened q (delete_duplicates q), false)
delete_queue_duplicates (torn n) q =
    if length (delete_duplicates q) == length q
    then (q, true)
    else (rewritten (torn n) q (delete_duplicates q), false)
